-- ===== src/Instance/Realtime.antt =====
-- HandleRealtimeUpdateMessage and the loop of StartRealtimeUpdateThread: listening on a WebSocket,
-- and the wait before the next connection.
pub mod Backoff
use pvr_dispatcharrai.Prelude.{
  ℕ, zero, suc, ◌*◌, min, Bool, true, false, ◌||◌, if◌then◌else◌, Option, none, some, List, [], ◌∷◌,
}
use pvr_dispatcharrai.Prelude.Text.{Text, codes, text_eq}

abbrev pub relevant_event_types : List Text
relevant_event_types =
    codes "recording_started"
    ∷ codes "recording_ended"
    ∷ codes "recording_stopped"
    ∷ codes "recording_extended"
    ∷ codes "recording_updated"
    ∷ codes "recording_cancelled"
    ∷ codes "recordings_refreshed"
    ∷ []

unfoldable pub is_among : Text → List Text → Bool
unfolding text_eq
is_among t [] = false
is_among t (u ∷ us) = text_eq t u || is_among t us

-- The time to wait, in seconds, and how often recordings and timers were invalidated.
pub record Realtime : Type 0 where
  pub backoff_seconds : ℕ
  pub updates : ℕ

abbrev pub initial_backoff_seconds : ℕ
initial_backoff_seconds = 2

abbrev pub max_backoff_seconds : ℕ
max_backoff_seconds = 60

-- HandleRealtimeUpdateMessage, for the text that the JSON library finds as `data.type`, if any.
unfoldable pub handle_realtime_update : Option Text → Realtime → Realtime
unfolding is_among
handle_realtime_update none s = s
handle_realtime_update (some event_type) s =
    if is_among event_type relevant_event_types then record s { updates = suc s.updates } else s

-- One ReceiveTextMessage: a message, nothing in time, or the end of the connection.
pub data Heard : Type 0 where
  told : Text → Heard
  silent broken : Heard

-- The inner loop, until the connection breaks or the thread is to stop, which is where the list ends.
unfoldable pub listen : (Text → Option Text) → List Heard → Realtime → Realtime
unfolding handle_realtime_update
listen event_type [] s = s
listen event_type (told m ∷ more) s =
    listen event_type more (handle_realtime_update (event_type m) s)
listen event_type (silent ∷ more) s = listen event_type more s
listen event_type (broken ∷ more) s = s

-- A round of the outer loop: no token, no connection, or what was heard.
pub data Attempt : Type 0 where
  no_token no_upgrade : Attempt
  connected_to : List Heard → Attempt

unfoldable pub attempt : (Text → Option Text) → Attempt → Realtime → Realtime
unfolding listen
attempt event_type no_token s = s
attempt event_type no_upgrade s = s
attempt event_type (connected_to heard) s =
    listen event_type heard (record s { backoff_seconds = initial_backoff_seconds })

-- How the wait ends: the thread is to stop, the system has woken, or the time is up.
pub data WaitEnd : Type 0 where
  to_stop woken timed_up : WaitEnd

unfoldable pub after_wait : WaitEnd → Realtime → Option Realtime
after_wait to_stop s = none
after_wait woken s = some (record s { backoff_seconds = initial_backoff_seconds })
after_wait timed_up s =
    some (record s { backoff_seconds = min (s.backoff_seconds * 2) max_backoff_seconds })

-- One round, none if the thread ends.
unfoldable pub round : (Text → Option Text) → Attempt → WaitEnd → Realtime → Option Realtime
unfolding attempt after_wait
round event_type a w s = after_wait w (attempt event_type a s)
