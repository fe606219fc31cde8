-- ===== src/InProgress/Refresh/Cache.antt =====
-- The cross-open cache against the stream that it follows.
use pvr_dispatcharrai.Prelude.{
  ℕ, ◌-◌, ◌<◌, ◌≡◌, refl, ap, ◌∙◌, ◌⊎◌, inl, inr, true, false, Bool-cases, Option, none, some, List,
  [], ◌∷◌, ◌++◌, drop, drop-append, drop_all, append-nil, length, length-append, ℤ, pos, negsuc,
  eqb_ℤ, ltb, lt→ltb, not_lt→ltb, arith,
}
use native.Mathlib.Decide.{dec_lt}
use pvr_dispatcharrai.Stream.Layout.{Contiguous}
use pvr_dispatcharrai.InProgress.{
  SegmentInfo, SegmentInfo-SegmentT, StreamState, SegmentCache, CacheMap, lookup, insert, erase,
}
use pvr_dispatcharrai.InProgress.Refresh.{entry_or_empty, appended_entry, update_cache}

eqb_ℤ_refl : (k : ℤ) → eqb_ℤ k k ≡ true
eqb_ℤ_refl (pos n) = ground arith
eqb_ℤ_refl (negsuc n) = ground arith

pub lookup-insert_self :
    (k : ℤ) (e : SegmentCache) (m : CacheMap) → lookup k (insert k e m) ≡ some e
unfolding lookup insert
lookup-insert_self k e [] = rw (eqb_ℤ_refl k)
lookup-insert_self k e ((j, d) ∷ m) = elim (Bool-cases (eqb_ℤ j k)) [
  | inl same ↦ rw (same, insert) (rw (eqb_ℤ_refl k))
  | inr apart ↦ rw (apart, insert) (rw (apart, lookup) (lookup-insert_self k e m))
]

pub lookup-erase_self : (k : ℤ) (m : CacheMap) → lookup k (erase k m) ≡ none
unfolding lookup erase
lookup-erase_self k [] = refl
lookup-erase_self k ((j, d) ∷ m) = elim (Bool-cases (eqb_ℤ j k)) [
  | inl same ↦ rw (same, erase) (lookup-erase_self k m)
  | inr apart ↦ rw (apart, erase) (rw (apart, lookup) (lookup-erase_self k m))
]

length-zero {ℓ} : {A : Type ℓ} (l : List A) → length l ≡ 0 → l ≡ []
length-zero [] e = refl
length-zero (x ∷ l) e = absurd (omega arith)

-- The entry of the stream's recording holds the stream's segments and totals; there may be none
-- while the stream has no segment.
abbrev pub InStep : StreamState → CacheMap → Type 0
InStep s cache =
    ((lookup s.recording_id cache ≡ none) × (s.segments ≡ []))
    ⊎ (lookup s.recording_id cache
        ≡ some (record {
          segments = s.segments;
          total_bytes = s.total_bytes;
          total_duration_ms = s.total_duration_ms;
        }))

module _ (old new : StreamState) (cache : CacheMap) (added : List SegmentInfo)
    (grown : new.segments ≡ old.segments ++ added) where
  appended_entry-added :
      (e : SegmentCache)
      → appended_entry old new e ≡ record {
        segments = e.segments ++ added;
        total_bytes = new.total_bytes;
        total_duration_ms = new.total_duration_ms;
      }
  unfolding appended_entry
  appended_entry-added e =
      let from : length new.segments - (length new.segments - length old.segments)
          ≡ length old.segments =
        omega (arith, ap length grown, length-append old.segments added) in
      let new_ones : drop (length old.segments) (old.segments ++ added) ≡ added =
        drop-append (length old.segments) old.segments added
        ∙ ap (λ l. l ++ drop (length old.segments - length old.segments) added)
            (drop_all (length old.segments) old.segments (omega arith))
        ∙ ap (λ k. drop k added) {x = length old.segments - length old.segments} {y = 0}
            (omega arith) in
      ap
        (λ (l : List SegmentInfo). record {
          segments = e.segments ++ l;
          total_bytes = new.total_bytes;
          total_duration_ms = new.total_duration_ms;
        })
        (ap (λ k. drop k new.segments) from ∙ ap (drop (length old.segments)) grown ∙ new_ones)

  written :
      0 < length added
      → new.finished ≡ false
      → update_cache old new cache
        ≡ insert new.recording_id
            (appended_entry old new (entry_or_empty (lookup new.recording_id cache)))
            cache
  unfolding update_cache
  written some_added running =
      let more : ltb 0 (length new.segments - length old.segments) ≡ true =
        lt→ltb _ _ (omega (arith, ap length grown, length-append old.segments added)) in
      rw (more, running)

  -- A refresh that added segments to a recording still running appends them to its entry.
  lookup-update_cache :
      0 < length added
      → new.finished ≡ false
      → lookup new.recording_id (update_cache old new cache)
        ≡ some (record {
          segments = (entry_or_empty (lookup new.recording_id cache)).segments ++ added;
          total_bytes = new.total_bytes;
          total_duration_ms = new.total_duration_ms;
        })
  lookup-update_cache some_added running =
      let e = entry_or_empty (lookup new.recording_id cache) in
      ap (lookup new.recording_id) (written some_added running)
      ∙ lookup-insert_self new.recording_id (appended_entry old new e) cache
      ∙ ap some (appended_entry-added e)

  unchanged : added ≡ [] → new.finished ≡ false → update_cache old new cache ≡ cache
  unfolding update_cache
  unchanged none_added running =
      let no_more : ltb 0 (length new.segments - length old.segments) ≡ false =
        not_lt→ltb _ _ (
          omega (arith, ap length grown, length-append old.segments added, ap length none_added)) in
      rw (no_more, running)

  -- While the recording is seen to run, a cache in step with the stream stays in step.
  pub update_cache-InStep :
      new.recording_id ≡ old.recording_id
      → new.finished ≡ false
      → (added ≡ []
          → (new.total_bytes ≡ old.total_bytes) × (new.total_duration_ms ≡ old.total_duration_ms))
      → InStep old cache
      → InStep new (update_cache old new cache)
  update_cache-InStep same running quiet step = elim (dec_lt 0 (length added)) [
    | yes some_added ↦ inr (lookup-update_cache some_added running ∙ ap in_entry (extended step))
    | no none_added ↦ kept (length-zero added (omega arith)) step
  ]
    where
      in_entry : List SegmentInfo → Option SegmentCache
      in_entry l = some (record {
        segments = l;
        total_bytes = new.total_bytes;
        total_duration_ms = new.total_duration_ms;
      })

      extended :
          InStep old cache
          → (entry_or_empty (lookup new.recording_id cache)).segments ++ added ≡ new.segments
      extended (inl (missing, empty)) = rw (same, missing, grown, empty)
      extended (inr found) = rw (same, found, grown)

      kept : added ≡ [] → InStep old cache → InStep new (update_cache old new cache)
      kept none_added (inl (missing, empty)) =
          rw (unchanged none_added running) (inl (rw same missing, grown ∙ rw (empty, none_added)))
      kept none_added (inr found) =
          rw
            (
              unchanged none_added running,
              same,
              grown,
              none_added,
              append-nil,
              (quiet none_added).0,
              (quiet none_added).1,
            )
            (inr found)

update_cache-finished :
    (before old : StreamState) (cache : CacheMap)
    → old.finished ≡ true
    → update_cache before old cache ≡ erase old.recording_id cache
unfolding update_cache
update_cache-finished before old cache done = ground arith

not_from_zero :
    (a e : ℕ) (l : List SegmentInfo) → 0 < a → 0 < length l → Contiguous a l e → ¬ Contiguous 0 l e
not_from_zero a e [] some_bytes h c d = absurd (omega arith)
not_from_zero a e (x ∷ l) some_bytes h c d = omega arith

-- A refresh from `before` to `old` that takes the recording for finished drops its entry, whatever
-- the cache held. If the next refresh, from `old` to `new`, sees the recording run again and adds
-- segments behind a stream that is not empty, the new entry has the added segments alone, with the
-- totals of the whole stream: it does not begin at byte 0.
pub lost_prefix :
    (before old new : StreamState) (cache : CacheMap) (added : List SegmentInfo)
    → old.finished ≡ true
    → new.recording_id ≡ old.recording_id
    → new.segments ≡ old.segments ++ added
    → new.finished ≡ false
    → 0 < length added
    → 0 < old.total_bytes
    → Contiguous old.total_bytes added new.total_bytes
    → let erased = update_cache before old cache in
      (lookup old.recording_id erased ≡ none)
      × ((e : SegmentCache) × (lookup new.recording_id (update_cache old new erased) ≡ some e)
          × (e.segments ≡ added)
          × (e.total_bytes ≡ new.total_bytes)
          × ¬ Contiguous 0 e.segments e.total_bytes)
lost_prefix before old new cache added done same grown running some_added some_bytes behind =
    let erased = update_cache before old cache in
    let lost : lookup old.recording_id erased ≡ none =
      ap (lookup old.recording_id) (update_cache-finished before old cache done)
      ∙ lookup-erase_self old.recording_id cache in
    let lost_new : lookup new.recording_id erased ≡ none = ap (λ k. lookup k erased) same ∙ lost in
    (
      lost,
      (
        record {
          segments = added;
          total_bytes = new.total_bytes;
          total_duration_ms = new.total_duration_ms;
        },
        lookup-update_cache old new erased added grown some_added running ∙ rw lost_new,
        refl,
        refl,
        not_from_zero old.total_bytes new.total_bytes added some_bytes some_added behind,
      ),
    )
