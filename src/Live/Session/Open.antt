-- ===== src/Live/Session/Open.antt =====
-- What OpenLiveTimeshiftStream leaves, on every path.
use pvr_dispatcharrai.Prelude.{
  ℕ, zero, suc, ◌+◌, ◌<◌, ap, arith, ◌≤◌, ◌≡◌, refl, ◌∙◌, Bool, true, false, Option, none, some, [],
  length, ◌||◌, not, if_both, if◌then◌else◌, leb_ℤ, pos,
}
use pvr_dispatcharrai.Prelude.Text.{Text, is_empty}
use pvr_dispatcharrai.Live.{
  LiveStream, initial_live, call_timeshift_plugin_action, PluginReply, plugin_url, with_token,
  unwrap_plugin_run_result,
}
use pvr_dispatcharrai.Live.Manifest.{
  LiveRefreshEnv, Refreshing, refreshed, refused, refresh_live_manifest,
}
use pvr_dispatcharrai.Live.Manifest.Layout.{
  LiveServed, AreHonestIn, Kept, Kept-refl, Kept-trans, refresh_live_manifest-Kept,
}
use pvr_dispatcharrai.Live.Session.{
  LiveOpenEnv, after_live_refresh, trim_to_live_edge, settled_open, live_cold_start, after_start,
  open_live, k_live_edge_margin_segments, k_live_cold_start_max_attempts,
}
use pvr_dispatcharrai.Live.Session.Trim.{
  trim_to_live_edge-Trimmed, trim_to_live_edge-LiveServed, start_position_zero,
}

-- A round reads the rounds behind it only through what they come to.
after_live_refresh_same :
    (r : Refreshing) (s : LiveStream) (f g : LiveStream → Bool × LiveStream)
    → f s ≡ g s
    → after_live_refresh r s f ≡ after_live_refresh r s g
unfolding after_live_refresh
after_live_refresh_same refreshed s f g e = refl
after_live_refresh_same (refused true) s f g e = refl
after_live_refresh_same (refused false) s f g e = e

-- A start touches nothing but the token.
abbrev Started : Text → LiveStream → Type 0
Started viewer s =
    (s.is_open ≡ false)
    × (s.viewer_id ≡ viewer)
    × (s.fatal ≡ false)
    × (s.segments ≡ [])
    × (s.total_bytes ≡ 0)

start-Started :
    (host : Text) (r : PluginReply) (viewer : Text)
    → Started viewer
        (call_timeshift_plugin_action host r (record initial_live { viewer_id = viewer })).1
unfolding call_timeshift_plugin_action
start-Started host r viewer =
    let P : Option Text × LiveStream → Type 0 = λ o. Started viewer o.1 in
    let s : LiveStream = record initial_live { viewer_id = viewer } in
    let done : Started viewer s = (refl, refl, refl, refl, refl) in
    let url = plugin_url host r in
    let tokened : Option Text × LiveStream =
      (some (with_token url r.access_token), record s { access_token = r.access_token }) in
    let r1 : Option Text × LiveStream =
      if is_empty r.access_token then (some url, s) else tokened in
    let r2 : Option Text × LiveStream =
      if leb_ℤ r.http_port (pos 0) || is_empty r.route then (none, s) else r1 in
    if_both P (not r.sent || not (unwrap_plugin_run_result r)) {x = (none, s)} {y = r2} done (
      if_both P (leb_ℤ r.http_port (pos 0) || is_empty r.route) {x = (none, s)} {y = r1} done (
        if_both P (is_empty r.access_token) {x = (some url, s)} {y = tokened} done
          (refl, refl, refl, refl, refl)))

module _ (content : Text → Text) (host : Text) where
  -- An open stream for a viewer of a channel.
  pub record IsWatching (uuid viewer : Text) (s : LiveStream) : Type 0 where
    pub open_now : s.is_open ≡ true
    pub of_channel : s.channel_uuid ≡ uuid
    pub for_viewer : s.viewer_id ≡ viewer
    pub alive : s.fatal ≡ false
    pub served : LiveServed content s

  -- What an open leaves.
  abbrev pub OpensLive : LiveOpenEnv → Text → Bool × LiveStream → Type 0
  OpensLive env uuid (false, s) = (s.is_open ≡ false) × (s.segments ≡ [])
  OpensLive env uuid (true, s) =
      IsWatching uuid env.new_viewer_id s
      × (s.position ≡ 0)
      × (length s.segments ≤ k_live_edge_margin_segments)
      × (s.wall_clock_anchor ≡ env.wall_clock)

  after_live_refresh-Kept :
      (r : Refreshing) (s t : LiveStream) (again : LiveStream → Bool × LiveStream)
      → Kept content s t
      → Kept content s (again t).1
      → Kept content s (after_live_refresh r t again).1
  unfolding after_live_refresh
  after_live_refresh-Kept refreshed s t again k later = k
  after_live_refresh-Kept (refused true) s t again k later = k
  after_live_refresh-Kept (refused false) s t again k later = later

  live_cold_start-Kept :
      (env : ℕ → LiveRefreshEnv) (left i : ℕ) (s t : LiveStream)
      → ((j : ℕ) → AreHonestIn content (env j).reply.segments)
      → Kept content s t
      → Kept content s (live_cold_start host env left i t).1
  unfolding live_cold_start
  live_cold_start-Kept env zero i s t honest k = k
  live_cold_start-Kept env (suc left) i s t honest k =
      let r = refresh_live_manifest host true (env i) t in
      let k' =
        Kept-trans content k (refresh_live_manifest-Kept content host true (env i) t (honest i)) in
      after_live_refresh-Kept r.0 s r.1 (λ u. live_cold_start host env left (suc i) u) k'
        (live_cold_start-Kept env left (suc i) s r.1 honest k')

  settled_open-OpensLive :
      (env : LiveOpenEnv) (uuid : Text) (r : Bool × LiveStream)
      → IsWatching uuid env.new_viewer_id r.1
      → OpensLive env uuid (settled_open env.wall_clock r)
  unfolding settled_open
  settled_open-OpensLive env uuid (false, s) w = (refl, refl)
  settled_open-OpensLive env uuid (true, s) w =
      let t = trim_to_live_edge-Trimmed s in
      let served = trim_to_live_edge-LiveServed content s w.served in
      (
        record {
          open_now = t.same_open ∙ w.open_now;
          of_channel = t.same_channel ∙ w.of_channel;
          for_viewer = t.same_viewer ∙ w.for_viewer;
          alive = t.same_fatal ∙ w.alive;
          served = record { valid = served.valid; sized = served.sized };
        },
        start_position_zero (trim_to_live_edge s) (t.valid w.served.valid) t.few,
        t.few,
        refl,
      )

  after_start-OpensLive :
      (env : LiveOpenEnv) (uuid : Text) (r : Option Text × LiveStream)
      → ((j : ℕ) → AreHonestIn content (env.refreshes j).reply.segments)
      → Started env.new_viewer_id r.1
      → OpensLive env uuid (after_start host env uuid r)
  unfolding after_start
  after_start-OpensLive env uuid (none, s) honest st = (st.0, st.3)
  after_start-OpensLive env uuid (some url, s) honest st =
      let s' : LiveStream = record s { is_open = true; channel_uuid = uuid } in
      let k =
        live_cold_start-Kept env.refreshes k_live_cold_start_max_attempts 0 s' s' honest
          (Kept-refl content s') in
      settled_open-OpensLive env uuid
        (live_cold_start host env.refreshes k_live_cold_start_max_attempts 0 s')
        (record {
          open_now = k.grown.same_open;
          of_channel = k.grown.same_channel;
          for_viewer = k.grown.same_viewer ∙ st.1;
          alive = k.grown.same_fatal ∙ st.2;
          served = k.served (record { valid = rw (st.3, st.4) refl; sized = rw st.3 tt });
        })

  live_cold_start_same :
      (env later : ℕ → LiveRefreshEnv) (left i : ℕ) (s : LiveStream)
      → ((j : ℕ) → i ≤ j → j < i + left → later j ≡ env j)
      → live_cold_start host later left i s ≡ live_cold_start host env left i s
  unfolding live_cold_start
  live_cold_start_same env later zero i s agree = refl
  live_cold_start_same env later (suc left) i s agree =
      let r = refresh_live_manifest host true (env i) s in
      ap
        (λ v.
          let q = refresh_live_manifest host true v s in
          after_live_refresh q.0 q.1 (λ t. live_cold_start host later left (suc i) t))
        (agree i (omega arith) (omega arith))
      ∙ after_live_refresh_same r.0 r.1 (λ t. live_cold_start host later left (suc i) t)
          (λ t. live_cold_start host env left (suc i) t)
          (live_cold_start_same env later left (suc i) r.1
            (λ j from to. agree j (omega arith) (omega arith)))

  after_start_same :
      (env : LiveOpenEnv) (later : ℕ → LiveRefreshEnv) (uuid : Text) (r : Option Text × LiveStream)
      → ((j : ℕ) → j < 30 → later j ≡ env.refreshes j)
      → after_start host (record env { refreshes = later }) uuid r ≡ after_start host env uuid r
  unfolding after_start
  after_start_same env later uuid (none, s) agree = refl
  after_start_same env later uuid (some url, s) agree = ap (settled_open env.wall_clock) (
      live_cold_start_same env.refreshes later k_live_cold_start_max_attempts 0
        (record s { is_open = true; channel_uuid = uuid }) (λ j from to. agree j (omega arith)))

  -- Where the manifests tell true sizes, an open reads at most thirty refreshes: what the plugin
  -- would answer to a later one changes nothing. Either it fails and leaves a closed stream without
  -- segments; or the stream is open for the new viewer of the channel, holds at most three
  -- segments, which fill the addresses from byte 0 and have the sizes of their files, and plays
  -- from byte 0, to which the wall clock is anchored.
  pub open_live-OpensLive :
      (env : LiveOpenEnv) (later : ℕ → LiveRefreshEnv) (uuid : Text) (s : LiveStream)
      → ((j : ℕ) → AreHonestIn content (env.refreshes j).reply.segments)
      → ((j : ℕ) → j < 30 → later j ≡ env.refreshes j)
      → OpensLive env uuid (open_live host env uuid s)
        × (open_live host (record env { refreshes = later }) uuid s ≡ open_live host env uuid s)
  unfolding open_live
  open_live-OpensLive env later uuid s honest agree =
      let started =
        call_timeshift_plugin_action host env.start
          (record initial_live { viewer_id = env.new_viewer_id }) in
      (
        after_start-OpensLive env uuid started honest
            (start-Started host env.start env.new_viewer_id),
        after_start_same env later uuid started agree,
      )
