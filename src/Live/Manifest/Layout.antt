-- ===== src/Live/Manifest/Layout.antt =====
-- A refresh of the live window against the address space and the files that the plugin serves.
use pvr_dispatcharrai.Prelude.{
  ℕ, ◌+◌, ◌<◌, ◌≡◌, refl, sym, ap, ◌∙◌, if◌then◌else◌, Bool, true, false, not, ◌||◌, if_both,
  if_split, Option, none, some, List, [], ◌∷◌, ◌++◌, append-nil, append_assoc, pos, pos_part, ltb_ℤ,
  leb_ℤ, length, arith,
}
use pvr_dispatcharrai.Prelude.Text.{Text, is_empty}
use pvr_dispatcharrai.Stream.Layout.{Contiguous, Contiguous-append}
use pvr_dispatcharrai.Stream.Content.{Sized, Sized-append, stream_bytes}
use pvr_dispatcharrai.Live.{
  LiveSegment, LiveSegment-SegmentT, LiveStream, ManifestEntry, unwrap_plugin_run_result,
  reply_fatal, plugin_url,
}
use pvr_dispatcharrai.Live.Manifest.{
  LiveRefreshEnv, Refreshing, refreshed, refused, last_known_sequence, is_merged, append_entry,
  merge_entry, merge_entries, absorb_manifest, is_live_throttled, refresh_live_manifest,
}

-- The segments fill the addresses from 0 up to `total_bytes`.
abbrev pub IsValidLive : LiveStream → Type 0
IsValidLive s = Contiguous 0 s.segments s.total_bytes

-- `t` is `s` with segments appended, and nothing that reads and closes rely on changed.
pub record Grown (s t : LiveStream) : Type 0 where
  pub added : List LiveSegment
  pub appended : t.segments ≡ s.segments ++ added
  pub same_position : t.position ≡ s.position
  pub same_open : t.is_open ≡ s.is_open
  pub same_fatal : t.fatal ≡ s.fatal
  pub same_viewer : t.viewer_id ≡ s.viewer_id
  pub same_channel : t.channel_uuid ≡ s.channel_uuid

pub Grown-refl : (s : LiveStream) → Grown s s
Grown-refl s = record {
  added = [];
  appended = sym (append-nil s.segments);
  same_position = refl;
  same_open = refl;
  same_fatal = refl;
  same_viewer = refl;
  same_channel = refl;
}

pub Grown-trans : {s t u : LiveStream} → Grown s t → Grown t u → Grown s u
Grown-trans {s} {t} {u} h k = record {
  added = h.added ++ k.added;
  appended =
      k.appended ∙ ap (λ l. l ++ k.added) h.appended ∙ append_assoc s.segments h.added k.added;
  same_position = k.same_position ∙ h.same_position;
  same_open = k.same_open ∙ h.same_open;
  same_fatal = k.same_fatal ∙ h.same_fatal;
  same_viewer = k.same_viewer ∙ h.same_viewer;
  same_channel = k.same_channel ∙ h.same_channel;
}

-- What every refresh comes to: a refusal, a throttled success, or the entries taken in.
pub refresh_live_cases {ℓ} :
    (P : Refreshing × LiveStream → Type ℓ) (host : Text) (force : Bool) (env : LiveRefreshEnv)
    (s : LiveStream)
    → ((fatal : Bool) → P (refused fatal, s))
    → P (refreshed, s)
    → P (absorb_manifest host env env.reply.segments s)
    → P (refresh_live_manifest host force env s)
unfolding refresh_live_manifest
refresh_live_cases P host force env s declined throttled taken =
    let absorbed : Refreshing × LiveStream = absorb_manifest host env env.reply.segments s in
    let r1 : Refreshing × LiveStream =
      if leb_ℤ env.reply.http_port (pos 0) || is_empty env.reply.route
      then (refused false, s)
      else absorbed in
    let r2 : Refreshing × LiveStream =
      if not (unwrap_plugin_run_result env.reply)
      then (refused (reply_fatal env.reply), s)
      else r1 in
    let r3 : Refreshing × LiveStream = if not env.reply.sent then (refused false, s) else r2 in
    let r4 : Refreshing × LiveStream =
      if is_live_throttled force env.now s then (refreshed, s) else r3 in
    if_both P (not s.is_open) {x = (refused false, s)} {y = r4} (declined false) (
      if_both P (is_live_throttled force env.now s) {x = (refreshed, s)} {y = r3} throttled (
        if_both P (not env.reply.sent) {x = (refused false, s)} {y = r2} (declined false) (
          if_both P (not (unwrap_plugin_run_result env.reply))
            {x = (refused (reply_fatal env.reply), s)} {y = r1} (declined (reply_fatal env.reply))
            (if_both P (leb_ℤ env.reply.http_port (pos 0) || is_empty env.reply.route)
              {x = (refused false, s)} {y = absorbed} (declined false) taken))))

-- `content` is the file that the plugin has for each name.
module _ (content : Text → Text) where
  abbrev pub file : LiveSegment → Text
  file g = content g.filename

  -- The bytes of the stream as far as they are known.
  abbrev pub live_recorded : LiveStream → Text
  live_recorded s = stream_bytes file s.segments

  -- The entries that are taken in tell the sizes of their files.
  abbrev pub AreHonest : List ManifestEntry → Type 0
  AreHonest [] = Unit {0}
  AreHonest (e ∷ es) =
      (ltb_ℤ (pos 0) e.byte_size ≡ true → length (content e.filename) ≡ pos_part e.byte_size)
      × AreHonest es

  abbrev pub AreHonestIn : Option (List ManifestEntry) → Type 0
  AreHonestIn none = Unit {0}
  AreHonestIn (some es) = AreHonest es

  -- The stream describes the files.
  pub record LiveServed (s : LiveStream) : Type 0 where
    pub valid : IsValidLive s
    pub sized : Sized file s.segments

  -- A stream grown, and still a description of the files.
  pub record Kept (s t : LiveStream) : Type 0 where
    pub grown : Grown s t
    pub served : LiveServed s → LiveServed t

  pub Kept-refl : (s : LiveStream) → Kept s s
  Kept-refl s = record { grown = Grown-refl s; served = λ h. h }

  pub Kept-trans : {s t u : LiveStream} → Kept s t → Kept t u → Kept s u
  Kept-trans h k = record {
    grown = Grown-trans h.grown k.grown;
    served = λ z. k.served (h.served z);
  }

  append_entry-Kept :
      (s : LiveStream) (e : ManifestEntry)
      → 0 < pos_part e.byte_size
      → length (content e.filename) ≡ pos_part e.byte_size
      → Kept s (append_entry s e)
  unfolding append_entry
  append_entry-Kept s e h size = record {
    grown = record {
      added = _;
      appended = refl;
      same_position = refl;
      same_open = refl;
      same_fatal = refl;
      same_viewer = refl;
      same_channel = refl;
    };
    served = λ z. record {
      valid =
          Contiguous-append 0 s.total_bytes (s.total_bytes + pos_part e.byte_size) s.segments _
            z.valid (refl, h, refl);
      sized = Sized-append file s.segments _ z.sized (size, tt);
    };
  }

  is_merged→sized :
      (known : Option ℕ) (e : ManifestEntry)
      → is_merged known e ≡ true
      → ltb_ℤ (pos 0) e.byte_size ≡ true
  is_merged→sized known e h = ground arith

  merge_entry-Kept :
      (known : Option ℕ) (s : LiveStream) (e : ManifestEntry)
      → (ltb_ℤ (pos 0) e.byte_size ≡ true → length (content e.filename) ≡ pos_part e.byte_size)
      → Kept s (merge_entry known s e)
  unfolding merge_entry
  merge_entry-Kept known s e honest =
      if_split (Kept s) (is_merged known e) {x = append_entry s e} {y = s}
        (λ m.
          let sized = is_merged→sized known e m in
          append_entry-Kept s e (ground arith) (honest sized))
        (λ m. Kept-refl s)

  pub merge_entries-Kept :
      (known : Option ℕ) (s : LiveStream) (es : List ManifestEntry)
      → AreHonest es
      → Kept s (merge_entries known s es)
  unfolding merge_entries
  merge_entries-Kept known s [] h = Kept-refl s
  merge_entries-Kept known s (e ∷ es) h =
      Kept-trans (merge_entry-Kept known s e h.0)
        (merge_entries-Kept known (merge_entry known s e) es h.1)

  absorb_manifest-Kept :
      (host : Text) (env : LiveRefreshEnv) (o : Option (List ManifestEntry)) (s : LiveStream)
      → AreHonestIn o
      → Kept s (absorb_manifest host env o s).1
  unfolding absorb_manifest
  absorb_manifest-Kept host env none s h = Kept-refl s
  absorb_manifest-Kept host env (some es) s h =
      let based : LiveStream = record s { segment_base_url = plugin_url host env.reply } in
      let k = merge_entries-Kept (last_known_sequence s.segments) based es h in
      record {
        grown = record {
          added = k.grown.added;
          appended = k.grown.appended;
          same_position = k.grown.same_position;
          same_open = k.grown.same_open;
          same_fatal = k.grown.same_fatal;
          same_viewer = k.grown.same_viewer;
          same_channel = k.grown.same_channel;
        };
        served = λ z.
            let z' = k.served (record { valid = z.valid; sized = z.sized }) in
            record { valid = z'.valid; sized = z'.sized };
      }

  pub refresh_live_manifest-Kept :
      (host : Text) (force : Bool) (env : LiveRefreshEnv) (s : LiveStream)
      → AreHonestIn env.reply.segments
      → Kept s (refresh_live_manifest host force env s).1
  refresh_live_manifest-Kept host force env s honest =
      refresh_live_cases (λ r. Kept s r.1) host force env s (λ fatal. Kept-refl s) (Kept-refl s)
        (absorb_manifest-Kept host env env.reply.segments s honest)

  -- Where the manifest tells true sizes, a refresh of the live window, of a stream whose segments
  -- fill its addresses from byte 0 and have the sizes of their files, leaves the recorded segments
  -- where they are and appends the new ones behind them, so that all of that stays true, and does
  -- not touch the position, the viewer, the channel or the fatal mark.
  pub refresh_live_manifest-LiveServed :
      (host : Text) (force : Bool) (env : LiveRefreshEnv) (s : LiveStream)
      → AreHonestIn env.reply.segments
      → LiveServed s
      → let t = (refresh_live_manifest host force env s).1 in LiveServed t × Grown s t
  refresh_live_manifest-LiveServed host force env s honest served =
      let k = refresh_live_manifest-Kept host force env s honest in (k.served served, k.grown)
