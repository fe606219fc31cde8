-- ===== src/InProgress/Session/Open.antt =====
-- What OpenInProgressRecordingStream leaves, on every path.
use pvr_dispatcharrai.Prelude.{
  ℕ, zero, suc, ◌≡◌, ◌+◌, ◌≤◌, ◌<◌, ap, arith, ◌≢◌, refl, ◌∙◌, ◌⊎◌, inl, inr, true, if_split,
  if_both, not, if◌then◌else◌, Option, none, some, List, [], ◌∷◌, ℤ,
}
use pvr_dispatcharrai.Stream.Layout.{Contiguous}
use pvr_dispatcharrai.InProgress.{
  SegmentInfo-SegmentT, StreamState, initial, SegmentCache, lookup, Client, Doubles, Status, ok,
  no_segments, not_open, no_handle, transfer_failed, exhausted, http_status,
}
use pvr_dispatcharrai.InProgress.Refresh.{RefreshEnv, refresh_manifest}
use pvr_dispatcharrai.InProgress.Refresh.Layout.{IsValid, refresh_manifest-Refreshed}
use pvr_dispatcharrai.InProgress.Session.{
  ColdStart, returned, have_segment, no_segment, seeded, is_nil, after_refresh, cold_start, opened,
  open_stream, close_stream, k_cold_start_max_attempts,
}

-- The entries of the cache describe address spaces from byte 0.
abbrev pub IsValidEntry : Option SegmentCache → Type 0
IsValidEntry none = Unit {0}
IsValidEntry (some e) = Contiguous 0 e.segments e.total_bytes

-- An open stream for recording `id`.
pub record IsOpen (id : ℤ) (s : StreamState) : Type 0 where
  pub open_now : s.is_open ≡ true
  pub for_id : s.recording_id ≡ id
  pub valid : IsValid s

seeded-IsOpen :
    (id start : ℤ) (o : Option SegmentCache) → IsValidEntry o → IsOpen id (seeded id start o)
unfolding seeded
seeded-IsOpen id start none v = record { open_now = refl; for_id = refl; valid = refl }
seeded-IsOpen id start (some e) v = record { open_now = refl; for_id = refl; valid = v }

not_nil : {A : Type 0} (l : List A) → not (is_nil l) ≡ true → l ≢ []
not_nil [] e = cc
not_nil (x ∷ l) e = λ h. cc

-- How the loop can end, and what the stream is then.
abbrev Ended : ℤ → ColdStart × Client → Type 0
Ended id r =
    ((st : Status) × (r.0 ≡ returned st) × (st ≢ ok))
    ⊎ (r.0 ≡ have_segment) × IsOpen id r.1.stream × (r.1.stream.segments ≢ [])
    ⊎ (r.0 ≡ no_segment) × IsOpen id r.1.stream

after_refresh-Ended :
    (id : ℤ) (st : Status) (c : Client) (again : Client → ColdStart × Client)
    → IsOpen id c.stream
    → Ended id (again c)
    → Ended id (after_refresh st c again)
unfolding after_refresh
after_refresh-Ended id ok c again h rest =
    let finished : ColdStart × Client = if c.stream.finished then (no_segment, c) else again c in
    if_split (Ended id) (not (is_nil c.stream.segments)) {x = (have_segment, c)} {y = finished}
      (λ some_segment. inr (inl (refl, h, not_nil c.stream.segments some_segment)))
      (λ _.
        if_both (Ended id) c.stream.finished {x = (no_segment, c)} {y = again c}
          (inr (inr (refl, h))) rest)
after_refresh-Ended id not_open c again h rest = inl (not_open, refl, λ e. cc)
after_refresh-Ended id no_handle c again h rest = inl (no_handle, refl, λ e. cc)
after_refresh-Ended id transfer_failed c again h rest = inl (transfer_failed, refl, λ e. cc)
after_refresh-Ended id exhausted c again h rest = inl (exhausted, refl, λ e. cc)
after_refresh-Ended id no_segments c again h rest = inl (no_segments, refl, λ e. cc)
after_refresh-Ended id (http_status n) c again h rest = inl (http_status n, refl, λ e. cc)

-- A round reads the rounds behind it only through what they come to.
after_refresh_same :
    (st : Status) (c : Client) (f g : Client → ColdStart × Client)
    → f c ≡ g c
    → after_refresh st c f ≡ after_refresh st c g
unfolding after_refresh
after_refresh_same ok c f g e =
    ap
      (λ (rest : ColdStart × Client).
        if not (is_nil c.stream.segments)
        then (have_segment, c)
        else if c.stream.finished
        then (no_segment, c)
        else rest)
      e
after_refresh_same not_open c f g e = refl
after_refresh_same no_handle c f g e = refl
after_refresh_same transfer_failed c f g e = refl
after_refresh_same exhausted c f g e = refl
after_refresh_same no_segments c f g e = refl
after_refresh_same (http_status n) c f g e = refl

-- What an open leaves: on success an open, contiguous stream at byte 0 that has a segment unless
-- the recording has finished, and on failure the initial stream.
abbrev pub Opens : ℤ → Status × Client → Type 0
Opens id r =
    ((r.0 ≡ ok)
      × IsOpen id r.1.stream
      × (r.1.stream.position ≡ 0)
      × ((r.1.stream.segments ≢ []) ⊎ (r.1.stream.finished ≡ true)))
    ⊎ (r.0 ≢ ok) × (r.1.stream ≡ initial)

opened-Opens : (id : ℤ) (o : ColdStart) (c : Client) → Ended id (o, c) → Opens id (opened (o, c))
unfolding opened close_stream
opened-Opens id (returned st) c (inl (x, e, bad)) = inr ((λ h. bad (cc)), refl)
opened-Opens id (returned st) c (inr (inl (e, h, full))) = cc (e)
opened-Opens id (returned st) c (inr (inr (e, h))) = cc (e)
opened-Opens id have_segment c (inl (x, e, bad)) = cc (e)
opened-Opens id have_segment c (inr (inl (e, h, full))) =
    inl (refl, record { open_now = h.open_now; for_id = h.for_id; valid = h.valid }, refl, inl full)
opened-Opens id have_segment c (inr (inr (e, h))) = cc (e)
opened-Opens id no_segment c (inl (x, e, bad)) = cc (e)
opened-Opens id no_segment c (inr (inl (e, h, full))) = cc (e)
opened-Opens id no_segment c (inr (inr (e, h))) =
    if_split (Opens id) c.stream.finished
      {x = (ok, record c { stream = record c.stream { position = 0 } })}
      {y = (no_segments, record c { stream = initial })}
      (λ done. inl (
        refl,
        record { open_now = h.open_now; for_id = h.for_id; valid = h.valid },
        refl,
        inr done,
      ))
      (λ _. inr (λ e. cc, refl))

module _ (D : Doubles) where
  refresh-IsOpen :
      (id : ℤ) (env : RefreshEnv) (c : Client)
      → IsOpen id c.stream
      → IsOpen id (refresh_manifest D true env c).1.stream
  refresh-IsOpen id env c h =
      let r = refresh_manifest-Refreshed D true env c in
      record {
        open_now = r.extends.same_open ∙ h.open_now;
        for_id = r.extends.same_id ∙ h.for_id;
        valid = r.valid h.valid;
      }

  cold_start-Ended :
      (id : ℤ) (env : ℕ → RefreshEnv) (left i : ℕ) (c : Client)
      → IsOpen id c.stream
      → Ended id (cold_start D env left i c)
  unfolding cold_start
  cold_start-Ended id env zero i c h = inr (inr (refl, h))
  cold_start-Ended id env (suc left) i c h =
      let r = refresh_manifest D true (env i) c in
      let h' = refresh-IsOpen id (env i) c h in
      after_refresh-Ended id r.0 r.1 (λ d. cold_start D env left (suc i) d) h'
        (cold_start-Ended id env left (suc i) r.1 h')

  cold_start_same :
      (env later : ℕ → RefreshEnv) (left i : ℕ) (c : Client)
      → ((j : ℕ) → i ≤ j → j < i + left → later j ≡ env j)
      → cold_start D later left i c ≡ cold_start D env left i c
  unfolding cold_start
  cold_start_same env later zero i c agree = refl
  cold_start_same env later (suc left) i c agree =
      let r = refresh_manifest D true (env i) c in
      ap
        (λ v.
          let q = refresh_manifest D true v c in
          after_refresh q.0 q.1 (λ d. cold_start D later left (suc i) d))
        (agree i (omega arith) (omega arith))
      ∙ after_refresh_same r.0 r.1 (λ d. cold_start D later left (suc i) d)
          (λ d. cold_start D env left (suc i) d)
          (cold_start_same env later left (suc i) r.1
            (λ j from to. agree j (omega arith) (omega arith)))

  -- An open from a cache whose entry for the recording describes an address space from byte 0
  -- reads at most ninety refreshes: what the server would answer to a later one changes nothing.
  -- Either it succeeds, and the stream is open for the recording at byte 0, its segments fill its
  -- addresses, and it has a segment unless the recording has finished; or it fails and leaves the
  -- initial stream.
  pub open_stream-Opens :
      (env later : ℕ → RefreshEnv) (id start : ℤ) (c : Client)
      → IsValidEntry (lookup id c.cache)
      → ((j : ℕ) → j < 90 → later j ≡ env j)
      → Opens id (open_stream D env id start c)
        × (open_stream D later id start c ≡ open_stream D env id start c)
  unfolding open_stream
  open_stream-Opens env later id start c v agree =
      let seed : Client = record c { stream = seeded id start (lookup id c.cache) } in
      let r = cold_start D env k_cold_start_max_attempts 0 seed in
      (
        opened-Opens id r.0 r.1 (
            cold_start-Ended id env k_cold_start_max_attempts 0 seed
              (seeded-IsOpen id start (lookup id c.cache) v)),
        ap opened (
            cold_start_same env later k_cold_start_max_attempts 0 seed
              (λ j from to. agree j (omega arith))),
      )
