-- ===== src/Lib.antt =====
-- A model of pvr.dispatcharr-unofficial, a Kodi PVR client for a Dispatcharr server.
--
-- The add-on (PVRDispatcharr, Instance here) asks the server through DispatcharrClient, listens to
-- it through WebSocketClient, and reads its guide through XmlTvParser. The client keeps three
-- streams that Kodi's demuxer reads bytes from, seeks in and closes. Each
-- is a member of DispatcharrClient (src/DispatcharrClient.h), and its operations are methods of
-- it (src/DispatcharrClient.cpp). What a method changes is a field of the state here, and the
-- method is a function from the state before to the result and the state after.
--
-- * Http, Http/Sink: the libcurl callbacks, and what a caller reads of a transfer (Reply);
--   GenerateApiKey and IsApiKeyValidFor.
-- * Stream and below: the search for the segment of a byte, `whence`, and the catch-up budget
--   (EstimateSegmentDurationMs, ComputeCatchUpAttempts); Stream/Layout and Stream/Content are the
--   address space that a list of segments makes up, and the bytes behind it.
-- * InProgress and below: InProgressRecordingStreamState. Playlist is the parse of the playlist in
--   RefreshInProgressRecordingManifest, Probe its probe threads, Refresh the whole of it with the
--   segment cache and FetchRawInProgressPlaylist, Session is Open-, Close- and
--   SeekInProgressRecordingStream and the getters, Read is ReadInProgressRecordingStream. Served
--   relates the state to the recording that the server has.
-- * Recording and below: RecordingStreamState, with Open-, Read-, Seek- and CloseRecordingStream.
-- * Live and below: LiveTimeshiftStreamState. Manifest is RefreshLiveManifest, Session is Open-,
--   Close- and SeekLiveTimeshiftStream with the getters, Read is ReadLiveTimeshiftStream.
-- * WebSocket and below: WebSocketClient (src/WebSocketClient.cpp). Base64 is Base64Encode, Buffer
--   is FillBuffer and ReadExact, Send is SendAll, SendPong and SendClose, Receive with
--   Receive/Frames is ReceiveTextMessage, Connect is Connect and Close. Queue relates the buffer to
--   the bytes to come.
-- * Time and below: the times and dates of src/DispatcharrClient.cpp. Day is TimeOfDayString and
--   SecondsSinceMidnightFromString, Zones the daylight-saving rules, kKnownTimeZones and
--   ComputeKnownZoneOffsetMinutes.
-- * XmlTv and below: XmlTvParser (src/XmlTvParser.cpp), ParseXmlTvTime and ParseEpisodeNum included.
-- * Rest and below: Request with its retry, Login, RefreshAccessToken, EnsureAuthenticated and
--   GetAccessToken of DispatcharrClient. Tokens counts the transfers of a request.
-- * Instance and below: PVRDispatcharr (src/PVRDispatcharr.cpp). Settings is OnAddonSettingChanged,
--   Renewal is RenewRecurringRules, and Caches the four Ensure...Loaded with the invalidations;
--   EnsureRecordingsLoaded comes in two parts where another thread may act between them. Realtime
--   is HandleRealtimeUpdateMessage and the loop of StartRealtimeUpdateThread.
--
-- Outside the code, and therefore arguments of the operations: the server and libcurl, whose
-- replies come as a function of the API key sent and of the attempt; the clock, in nanoseconds
-- with 0 for a reading never taken; `double` (record Doubles); the order in which the threads of a
-- probe batch finish. Hypotheses on them stand in the theorems: that a transfer which libcurl
-- finishes with 200 has brought the whole segment, that a probe which reports a size reports the
-- true one, that a ranged request which it finishes with 200 or 206 has brought the range, that
-- the plugin's manifest tells true sizes, and that every thread finishes. Of what a transfer
-- brings that breaks off nothing is assumed. For the WebSocket the state holds what the coming
-- calls of `curl_easy_recv` and `curl_easy_send` give, in turn, and the values of the generator.
-- `timegm` and `gmtime` are a record Calendar, and pugixml a record Xml; the JSON library is a
-- record JsonApi, and Kodi's settings are a function. The two readings of the clock in
-- ReadLiveTimeshiftStream are one.
--
-- Numbers: sizes and offsets are unbounded where the code has int64_t, since the sum of the sizes
-- of a recording stays far below 2 ^ 63; -1 for no position is `none`; the `int` that
-- ComputeCatchUpAttempts returns keeps its 32 bits, and `stoi` refuses what they do not hold; sums
-- of seconds and minutes are unbounded. Text is a list of byte values.
--
-- Loops: the cold start makes at most kColdStartMaxAttempts refreshes and the catch-up loop at most
-- ComputeCatchUpAttempts many; a request is tried at most twice. All of these recurse on the
-- attempts left, as the code counts them. ReceiveTextMessage has one round more than there are
-- bytes to come, ReadExact as many as the bytes it wants, and the loop of Connect one more than
-- there are outcomes to come. All other loops recurse on the list that they read.
--
-- Not modelled: logging, sleeping, mutexes (each operation runs alone), the JSON of the
-- single requests, IsoFromTime and DateStringFromTime (calls of strftime), the lists, timers
-- and other threads of the Kodi instance, and the server plugins.
pub mod Prelude
pub mod Http
pub mod Stream
pub mod Recording
pub mod InProgress
pub mod Live
pub mod WebSocket
pub mod Rest
pub mod Time
pub mod XmlTv
pub mod Instance
