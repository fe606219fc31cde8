-- ===== src/InProgress/Read/Wait.antt =====
-- The wait at the tail, and the whole read on top of it.
use pvr_dispatcharrai.Prelude.{
  ℕ, zero, suc, ◌+◌, ◌≤◌, ◌<◌, ◌≡◌, refl, ◌∙◌, ◌⊎◌, inl, inr, true, false, if_both, if_split, sym,
  subst, take, drop, length, pos_part, leb→le, not, ◌||◌, ◌==◌, [], if◌then◌else◌, arith, ap,
}
use pvr_dispatcharrai.Prelude.Text.{Text}
use pvr_dispatcharrai.Stream.{estimate_segment_duration_ms, compute_catch_up_attempts}
use pvr_dispatcharrai.InProgress.{SegmentInfo-SegmentT, StreamState, Client, Doubles}
use pvr_dispatcharrai.InProgress.Refresh.{RefreshEnv, refresh_manifest}
use pvr_dispatcharrai.InProgress.Refresh.Layout.{refresh_manifest-Refreshed}
use pvr_dispatcharrai.Stream.Content.{stream_bytes}
use pvr_dispatcharrai.InProgress.Served.{
  body, recorded, Served, HasHonestProbes, refresh_manifest-Served,
}
use pvr_dispatcharrai.InProgress.Read.{
  ReadEnv, Outcome, failed, bytes, read_located, is_at_tail, likely_seek_probe, k_catch_up_sleep_ms,
  catch_up_loop, catch_up, read_stream,
}
use pvr_dispatcharrai.InProgress.Read.Content.{
  IsHonest, Unread, SameSpace, Delivers, read_located-Reads, read_located-Served,
}

module _ (content : Text → Text) (D : Doubles) where
  -- Waiting moves nothing and keeps what is known true.
  abbrev Waited : Client → Client → Type 0
  Waited c d = Served content d.stream × (d.stream.position ≡ c.stream.position)

  refresh-Waited :
      (env : RefreshEnv) (c d : Client)
      → HasHonestProbes content env
      → Waited c d
      → Waited c (refresh_manifest D true env d).1
  refresh-Waited env c d honest (served, same) = (
    refresh_manifest-Served content D true env d honest served,
    (refresh_manifest-Refreshed D true env d).extends.same_position ∙ same,
  )

  catch_up_loop-Waited :
      (env : ℕ → RefreshEnv) (left i : ℕ) (c d : Client)
      → ((j : ℕ) → HasHonestProbes content (env j))
      → Waited c d
      → Waited c (catch_up_loop D env left i d)
  unfolding catch_up_loop
  catch_up_loop-Waited env zero i c d honest w = w
  catch_up_loop-Waited env (suc left) i c d honest w =
      let d' = (refresh_manifest D true (env i) d).1 in
      let w' = refresh-Waited (env i) c d (honest i) w in
      let later = catch_up_loop D env left (suc i) d' in
      let P : Client → Type 0 = Waited c in
      let rest : Client = if d'.stream.finished then d' else later in
      let tail : Client = if not (is_at_tail d'.stream) then d' else rest in
      if_both P (not (is_at_tail d.stream)) {x = d} {y = tail} w (
        if_both P (not (is_at_tail d'.stream)) {x = d'} {y = rest} w' (
          if_both P d'.stream.finished {x = d'} {y = later} w'
            (catch_up_loop-Waited env left (suc i) c d' honest w')))

  catch_up-Waited :
      (env : ReadEnv) (c : Client)
      → ((j : ℕ) → HasHonestProbes content (env.refreshes j))
      → Served content c.stream
      → Waited c (catch_up D env c)
  unfolding catch_up
  catch_up-Waited env c honest served =
      let estimate = estimate_segment_duration_ms c.stream.total_duration_ms c.stream.segments in
      let attempts =
        compute_catch_up_attempts (likely_seek_probe env.now c.stream) estimate
          k_catch_up_sleep_ms in
      let (s, p) =
        catch_up_loop-Waited env.refreshes (pos_part attempts) 0 c c honest (served, refl) in
      (record { valid = s.valid; sized = s.sized; cached = s.cached }, p)

  -- What a read comes to: -1 or no bytes, with the position where it was, the former only if a
  -- request for the segment there did not bring it, the latter only with the position at or past
  -- the known end; or bytes of the recording, the position moved behind them.
  pub data Answer (env : ReadEnv) (size : ℕ) (c : Client) : Outcome × Client → Type 0 where
    refused :
        (d : Client)
        → d.stream.position ≡ c.stream.position
        → Unread env d
        → Answer env size c (failed, d)
    at_end :
        (d : Client)
        → d.stream.position ≡ c.stream.position
        → d.stream.total_bytes ≤ d.stream.position
        → Answer env size c (bytes [], d)
    delivered :
        (xs : Text) (d : Client)
        → 0 < length xs
        → length xs ≤ size
        → xs ≡ take (length xs) (drop c.stream.position (recorded content d.stream))
        → d.stream.position ≡ c.stream.position + length xs
        → d.stream.position ≤ d.stream.total_bytes
        → Answer env size c (bytes xs, d)

  from_reads :
      (env : ReadEnv) (size : ℕ) (c d : Client) (r : Outcome × Client)
      → d.stream.position ≡ c.stream.position
      → ((r.0 ≡ failed) × SameSpace content d r.1 × Unread env r.1)
        ⊎ ((xs : Text) × (r.0 ≡ bytes xs) × Delivers content size d xs r.1)
      → Answer env size c r
  from_reads env size c d r same (inl (e, s, cause)) =
      subst (λ (o : Outcome). Answer env size c (o, r.1)) (sym e)
        (refused r.1 (s.position ∙ same) cause)
  from_reads env size c d r same (inr (xs, e, v)) =
      subst (λ (o : Outcome). Answer env size c (o, r.1)) (sym e)
        (delivered xs r.1 v.some_bytes v.at_most
          (v.from_recording
            ∙ ap (λ k. take (length xs) (drop k (recorded content d.stream))) same
            ∙ ap (λ l. take (length xs) (drop c.stream.position (stream_bytes (body content) l)))
                (sym v.segments))
          (v.advanced ∙ ap (λ k. k + length xs) same) (omega (arith, v.in_space, v.total)))

  not_at_tail : (s : StreamState) → is_at_tail s ≡ false → s.position < s.total_bytes
  not_at_tail s h = ground arith

  -- On an open stream that describes the server's recording, with a server whose transfers carry the
  -- body asked for when they finish with 200 (one that breaks off may carry anything), probes that
  -- report only true sizes, and probe threads that all finish: a read of at least one byte gives
  -- -1, and then the first or the second request for the segment at the position did not finish
  -- with 200; or nothing, and then it stands at or past the end it knows after its waiting; or else
  -- at least one and at most `size` bytes, which are the recording's from the read position on. The
  -- position moves by what was delivered, and the stream still describes the recording.
  pub read_stream-Answer :
      (env : ReadEnv) (size : ℕ) (c : Client)
      → IsHonest content env
      → ((j : ℕ) → HasHonestProbes content (env.refreshes j))
      → Served content c.stream
      → c.stream.is_open ≡ true
      → 0 < size
      → Answer env size c (read_stream D env size c)
        × Served content (read_stream D env size c).1.stream
  unfolding read_stream
  read_stream-Answer env size c honest probes served opened some_size =
      let P : Outcome × Client → Type 0 = λ r. Answer env size c r × Served content r.1.stream in
      let at_c = read_located env size c in
      let at_c' = read_located env size c' in
      let waited : Outcome × Client = if is_at_tail c'.stream then (bytes [], c') else at_c' in
      let tail : Outcome × Client = if c.stream.finished then (bytes [], c) else waited in
      if_split P (not c.stream.is_open || (size == 0)) {x = (bytes [], c)}
        {y = if is_at_tail c.stream then tail else at_c} (λ e. absurd (usable e))
        λ _.
          if_split P (is_at_tail c.stream) {x = tail} {y = at_c}
            (λ stuck.
              if_both P c.stream.finished {x = (bytes [], c)} {y = waited}
                (at_end c refl (leb→le _ _ stuck), served)
                (if_split P (is_at_tail c'.stream) {x = (bytes [], c')} {y = at_c'}
                  (λ still. (at_end c' same (leb→le _ _ still), served'))
                  (λ free. located c' served' same (not_at_tail c'.stream free))))
            (λ free. located c served refl (not_at_tail c.stream free))
    where
      c' : Client
      c' = catch_up D env c

      served' : Served content c'.stream
      served' = (catch_up-Waited env c probes served).0

      same : c'.stream.position ≡ c.stream.position
      same = (catch_up-Waited env c probes served).1

      usable : (not c.stream.is_open || (size == 0)) ≡ true → ⊥
      usable e = ground arith

      located :
          (d : Client)
          → Served content d.stream
          → d.stream.position ≡ c.stream.position
          → d.stream.position < d.stream.total_bytes
          → Answer env size c (read_located env size d)
            × Served content (read_located env size d).1.stream
      located d s e h = (
        from_reads env size c d (read_located env size d) e
            (read_located-Reads content env size d honest s h some_size),
        read_located-Served content env size d honest s,
      )
