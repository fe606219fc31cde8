-- ===== src/Instance/Realtime/Backoff.antt =====
-- The time that the realtime thread waits.
use pvr_dispatcharrai.Prelude.{
  ℕ, suc, ◌∙◌, ◌≤◌, ◌≡◌, refl, sym, subst, if_both, Option, none, some, List, [], ◌∷◌, arith,
}
use pvr_dispatcharrai.Prelude.Text.{Text}
use pvr_dispatcharrai.Instance.Realtime.{
  Realtime, is_among, relevant_event_types, handle_realtime_update, Heard, told, silent, broken,
  listen, Attempt, no_token, no_upgrade, connected_to, attempt, WaitEnd, to_stop, woken, timed_up,
  after_wait, round, initial_backoff_seconds,
}

-- The states that the thread comes to, round after round.
pub data Reaches (event_type : Text → Option Text) : Realtime → Realtime → Type 0 where
  here : {s : Realtime} → Reaches event_type s s
  then_round :
      {s t u : Realtime} (a : Attempt) (w : WaitEnd)
      → Reaches event_type s t
      → round event_type a w t ≡ some u
      → Reaches event_type s u

abbrev pub IsBounded : Realtime → Type 0
IsBounded s = (2 ≤ s.backoff_seconds) × (s.backoff_seconds ≤ 60)

handled :
    (o : Option Text) (s : Realtime)
    → (handle_realtime_update o s).backoff_seconds ≡ s.backoff_seconds
unfolding handle_realtime_update
handled none s = refl
handled (some e) s =
    if_both (λ t. t.backoff_seconds ≡ s.backoff_seconds) (is_among e relevant_event_types)
      {x = record s { updates = suc s.updates }} {y = s} refl refl

-- Listening changes no waiting time.
listen-backoff :
    (event_type : Text → Option Text) (heard : List Heard) (s : Realtime)
    → (listen event_type heard s).backoff_seconds ≡ s.backoff_seconds
unfolding listen
listen-backoff event_type [] s = refl
listen-backoff event_type (told m ∷ more) s =
    listen-backoff event_type more (handle_realtime_update (event_type m) s)
    ∙ handled (event_type m) s
listen-backoff event_type (silent ∷ more) s = listen-backoff event_type more s
listen-backoff event_type (broken ∷ more) s = refl

attempt-IsBounded :
    (event_type : Text → Option Text) (a : Attempt) (s : Realtime)
    → IsBounded s
    → IsBounded (attempt event_type a s)
unfolding attempt
attempt-IsBounded event_type no_token s h = h
attempt-IsBounded event_type no_upgrade s h = h
attempt-IsBounded event_type (connected_to heard) s h =
    subst (λ k. (2 ≤ k) × (k ≤ 60))
      (sym (listen-backoff event_type heard (record s { backoff_seconds = 2 })))
      (omega arith, omega arith)

abbrev IfGoingOn : Option Realtime → Type 0
IfGoingOn none = Unit {0}
IfGoingOn (some s) = IsBounded s

after_wait-IsBounded : (w : WaitEnd) (s : Realtime) → IsBounded s → IfGoingOn (after_wait w s)
unfolding after_wait
after_wait-IsBounded to_stop s h = tt
after_wait-IsBounded woken s h = (omega arith, omega arith)
after_wait-IsBounded timed_up s h = (omega (arith, h.0, h.1), omega arith)

Reaches-IsBounded :
    (event_type : Text → Option Text) (s t : Realtime)
    → IsBounded s
    → Reaches event_type s t
    → IsBounded t
unfolding round
Reaches-IsBounded event_type s t h here = h
Reaches-IsBounded event_type s t h (then_round a w before e) = subst IfGoingOn e (
    after_wait-IsBounded w (attempt event_type a _)
      (attempt-IsBounded event_type a _ (Reaches-IsBounded event_type s _ h before)))

-- From the state that the thread starts in, whatever is heard and however often the connection
-- fails, each wait, which stands behind an attempt of a round, is of at least 2 and at most 60
-- seconds; behind an attempt that connected it is of 2.
pub backoff-IsBounded :
    (event_type : Text → Option Text) (updates : ℕ) (t : Realtime) (a : Attempt)
    (heard : List Heard)
    → Reaches event_type (record { backoff_seconds = initial_backoff_seconds; updates = updates }) t
    → (2 ≤ (attempt event_type a t).backoff_seconds)
      × ((attempt event_type a t).backoff_seconds ≤ 60)
      × ((attempt event_type (connected_to heard) t).backoff_seconds ≡ 2)
unfolding attempt
backoff-IsBounded event_type updates t a heard reached =
    let bounds =
      attempt-IsBounded event_type a t
        (Reaches-IsBounded event_type _ t (omega arith, omega arith) reached) in
    (
      bounds.0,
      bounds.1,
      listen-backoff event_type heard (record t { backoff_seconds = initial_backoff_seconds }),
    )
