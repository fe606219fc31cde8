-- ===== src/Live/Read/Wait.antt =====
-- The wait at the live tail, and the whole read on top of it.
use pvr_dispatcharrai.Prelude.{
  ℕ, zero, suc, ◌+◌, ◌<◌, ◌≡◌, refl, ap, ◌∙◌, true, false, some, none, inl, ◌==◌, ◌&&◌, ◌||◌, not,
  if◌then◌else◌, if_both, if_split, leb→le, pos_part, length, take, drop, arith, [],
}
use pvr_dispatcharrai.Prelude.Text.{Text}
use pvr_dispatcharrai.Stream.{estimate_segment_duration_ms, compute_catch_up_attempts}
use pvr_dispatcharrai.Live.{LiveSegment-SegmentT, LiveStream}
use pvr_dispatcharrai.Live.Manifest.{
  LiveRefreshEnv, Refreshing, refreshed, refused, refresh_live_manifest,
}
use pvr_dispatcharrai.Live.Manifest.Layout.{
  LiveServed, AreHonestIn, live_recorded, refresh_live_manifest-Kept,
}
use pvr_dispatcharrai.Live.Read.{
  LiveReadEnv, LiveOutcome, live_failed, live_bytes, heartbeat, is_live_seek_probe, is_at_live_tail,
  after_wait_refresh, read_live_located, live_catch_up_loop, live_catch_up,
  k_live_catch_up_sleep_ms, read_live_alive, read_live,
}
use pvr_dispatcharrai.Live.Read.Content.{
  HasHonestRanges, LiveAnswer, live_refused, live_nothing, live_delivered,
  read_live_located-LiveAnswer,
}

module _ (content : Text → Text) (host : Text) where
  -- Waiting moves nothing and keeps what is known true.
  abbrev LiveWaited : LiveStream → LiveStream → Type 0
  LiveWaited s t = LiveServed content t × (t.position ≡ s.position)

  after_wait_refresh-LiveWaited :
      (r : Refreshing) (s t : LiveStream) (again : LiveStream → LiveStream)
      → LiveWaited s t
      → LiveWaited s (again t)
      → LiveWaited s (after_wait_refresh r t again)
  unfolding after_wait_refresh
  after_wait_refresh-LiveWaited (refused true) s t again w later =
      (record { valid = w.0.valid; sized = w.0.sized }, w.1)
  after_wait_refresh-LiveWaited (refused false) s t again w later =
      if_both (LiveWaited s) (not (is_at_live_tail t)) {x = t} {y = again t} w later
  after_wait_refresh-LiveWaited refreshed s t again w later =
      if_both (LiveWaited s) (not (is_at_live_tail t)) {x = t} {y = again t} w later

  live_catch_up_loop-LiveWaited :
      (env : ℕ → LiveRefreshEnv) (left i : ℕ) (s t : LiveStream)
      → ((j : ℕ) → AreHonestIn content (env j).reply.segments)
      → LiveWaited s t
      → LiveWaited s (live_catch_up_loop host env left i t)
  unfolding live_catch_up_loop
  live_catch_up_loop-LiveWaited env zero i s t honest w = w
  live_catch_up_loop-LiveWaited env (suc left) i s t honest w =
      let r = refresh_live_manifest host true (env i) t in
      let k = refresh_live_manifest-Kept content host true (env i) t (honest i) in
      let w' : LiveWaited s r.1 = (k.served w.0, k.grown.same_position ∙ w.1) in
      let rest = after_wait_refresh r.0 r.1 (λ u. live_catch_up_loop host env left (suc i) u) in
      if_both (LiveWaited s) (not (is_at_live_tail t)) {x = t} {y = rest} w (
        after_wait_refresh-LiveWaited r.0 s r.1 (λ u. live_catch_up_loop host env left (suc i) u) w'
          (live_catch_up_loop-LiveWaited env left (suc i) s r.1 honest w'))

  live_catch_up-LiveWaited :
      (env : LiveReadEnv) (s : LiveStream)
      → ((j : ℕ) → AreHonestIn content (env.refreshes j).reply.segments)
      → LiveServed content s
      → LiveWaited s (live_catch_up host env s)
  unfolding live_catch_up
  live_catch_up-LiveWaited env s honest served =
      let estimate = estimate_segment_duration_ms s.total_duration_ms s.segments in
      let probe = is_live_seek_probe env.now s in
      let attempts = compute_catch_up_attempts probe estimate k_live_catch_up_sleep_ms in
      let t = live_catch_up_loop host env.refreshes (pos_part attempts) 0 s in
      let (z, p) =
        live_catch_up_loop-LiveWaited env.refreshes (pos_part attempts) 0 s s honest
          (served, refl) in
      if_both (LiveWaited s) t.fatal {x = t}
        {y = record t {
          last_short_give_up_position =
              if probe && is_at_live_tail t then some t.position else none;
        }}
        (z, p) (record { valid = z.valid; sized = z.sized }, p)

  moved :
      (env : LiveReadEnv) (size : ℕ) (s t : LiveStream) (o : LiveOutcome × LiveStream)
      → t.position ≡ s.position
      → LiveAnswer content env size t o
      → LiveAnswer content env size s o
  moved env size s t _ same (live_refused u e cause) = live_refused u (e ∙ same) cause
  moved env size s t _ same (live_nothing u e cause) = live_nothing u (e ∙ same) cause
  moved env size s t _ same (live_delivered xs u some_bytes at_most from at fits) =
      live_delivered xs u some_bytes at_most
        (from ∙ ap (λ k. take (length xs) (drop k (live_recorded content u))) same)
        (at ∙ ap (λ k. k + length xs) same) fits

  not_at_tail : (s : LiveStream) → is_at_live_tail s ≡ false → s.position < s.total_bytes
  not_at_tail s h = ground arith

  read_live_alive-LiveAnswer :
      (env : LiveReadEnv) (size : ℕ) (s : LiveStream)
      → HasHonestRanges content env s
      → HasHonestRanges content env (live_catch_up host env s)
      → ((j : ℕ) → AreHonestIn content (env.refreshes j).reply.segments)
      → LiveServed content s
      → 0 < size
      → LiveAnswer content env size s (read_live_alive host env size s)
        × LiveServed content (read_live_alive host env size s).1
  unfolding read_live_alive
  read_live_alive-LiveAnswer env size s ranges ranges' honest served some_size =
      let P : LiveOutcome × LiveStream → Type 0 =
        λ o. LiveAnswer content env size s o × LiveServed content o.1 in
      let t = live_catch_up host env s in
      let (served', same) = live_catch_up-LiveWaited env s honest served in
      let at_s = read_live_located env size s in
      let at_t = read_live_located env size t in
      let r1 : LiveOutcome × LiveStream = if is_at_live_tail t then (live_bytes [], t) else at_t in
      let r2 : LiveOutcome × LiveStream = if t.fatal then (live_failed, t) else r1 in
      if_split P (is_at_live_tail s) {x = r2} {y = at_s}
        (λ stuck.
          if_split P t.fatal {x = (live_failed, t)} {y = r1}
            (λ dead. (live_refused t same (inl dead), served'))
            (λ alive.
              if_split P (is_at_live_tail t) {x = (live_bytes [], t)} {y = at_t}
                (λ still. (live_nothing t same (inl (leb→le _ _ still)), served'))
                (λ free.
                  let (a, z) =
                    read_live_located-LiveAnswer content env size t ranges' served'
                      (not_at_tail t free) some_size in
                  (moved env size s t at_t same a, z))))
        (λ free.
          read_live_located-LiveAnswer content env size s ranges served (not_at_tail s free)
            some_size)

  heartbeat_both {ℓ} :
      (P : LiveStream → Type ℓ) (now : ℕ) (s : LiveStream)
      → P s
      → P (record s { last_heartbeat_sent = now })
      → P (heartbeat now s)
  unfolding heartbeat
  heartbeat_both P now s quiet sent =
      if_both P _ {x = record s { last_heartbeat_sent = now }} {y = s} sent quiet

  same_place :
      (env : LiveReadEnv) (size : ℕ) (s : LiveStream) → (heartbeat env.now s).position ≡ s.position
  same_place env size s =
      heartbeat_both (λ (t : LiveStream). t.position ≡ s.position) env.now s refl refl

  -- On an open stream that is not fatal and describes the plugin's files, with manifests that tell
  -- true sizes, and ranged requests that carry the range asked for when they finish with 200 or 206
  -- (one that breaks off may carry anything): a read of at least one byte gives -1, and then the
  -- stream is fatal or the request for what is left of `size` in the segment at the position did
  -- not go through; or nothing, and then it stands at or past the end it knows after its waiting,
  -- or that request ended with 404; or else at least one and at most `size` bytes, which are the
  -- stream's from the read position on. The position moves by what was delivered, and the stream
  -- still describes the files.
  pub read_live-LiveAnswer :
      (env : LiveReadEnv) (size : ℕ) (s : LiveStream)
      → HasHonestRanges content env s
      → HasHonestRanges content env (live_catch_up host env (heartbeat env.now s))
      → ((j : ℕ) → AreHonestIn content (env.refreshes j).reply.segments)
      → LiveServed content s
      → s.is_open ≡ true
      → s.fatal ≡ false
      → 0 < size
      → LiveAnswer content env size s (read_live host env size s)
        × LiveServed content (read_live host env size s).1
  unfolding read_live
  read_live-LiveAnswer env size s ranges ranges' honest served opened alive some_size =
      let P : LiveOutcome × LiveStream → Type 0 =
        λ o. LiveAnswer content env size s o × LiveServed content o.1 in
      let t = heartbeat env.now s in
      let beaten : LiveServed content t =
        heartbeat_both (LiveServed content) env.now s served
          (record { valid = served.valid; sized = served.sized }) in
      let kept : HasHonestRanges content env t =
        heartbeat_both (HasHonestRanges content env) env.now s ranges ranges in
      let rest : LiveOutcome × LiveStream = read_live_alive host env size t in
      if_split P (not s.is_open || (size == 0)) {x = (live_bytes [], s)}
        {y = if s.fatal then (live_failed, s) else rest} (λ e. absurd (ground arith))
        λ _.
          if_split P s.fatal {x = (live_failed, s)} {y = rest} (λ e. absurd (cc))
            (λ _.
              let (a, z) =
                read_live_alive-LiveAnswer env size t kept ranges' honest beaten some_size in
              (moved env size s t rest (same_place env size s) a, z))
