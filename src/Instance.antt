-- ===== src/Instance.antt =====
-- PVRDispatcharr of src/PVRDispatcharr.cpp: the settings that it applies, the renewal of recurring
-- rules, and what it keeps of the server. Kodi is an argument.
pub mod Settings
pub mod Renewal
pub mod Caches
pub mod Realtime
mod Tests
