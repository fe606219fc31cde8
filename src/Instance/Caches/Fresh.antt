-- ===== src/Instance/Caches/Fresh.antt =====
-- Which recordings a reader of the cache sees.
use pvr_dispatcharrai.Prelude.{
  ℕ, ◌+◌, ◌*◌, ◌≤◌, ◌≡◌, refl, ap, ◌∙◌, true, false, not_lt→ltb, Option, some, List, arith,
}
use pvr_dispatcharrai.Instance.Caches.{
  Caches, nanoseconds, cache_ttl_seconds, is_stale, load_if, store_recordings, stored,
  ensure_recordings_loaded, invalidate_and_trigger_recording_update,
}

module _ {Recording Series Rule : Type 0} where
  -- While the cache is fresh, nothing is loaded.
  fresh_kept :
      (now later : ℕ) (recs : Option (List Recording)) (s : Caches Recording Series Rule)
      → s.recordings_cached_at ≡ some now
      → later ≤ now + 2000000000
      → ensure_recordings_loaded later recs s ≡ (false, s)
  unfolding ensure_recordings_loaded
  fresh_kept now later recs s e h =
      ap (λ o. load_if (is_stale later o (cache_ttl_seconds * nanoseconds)) (stored later recs s) s)
        e
      ∙ ap (λ b. load_if b (stored later recs s) s)
          (not_lt→ltb (now + 2000000000) later (omega arith))

  -- If a change is told after EnsureRecordingsLoaded has stored what it read, then the next
  -- EnsureRecordingsLoaded loads again. If it is told by another thread between the request and
  -- the store, then the invalidation is lost: until two seconds after the start of the load, the
  -- recordings that were read before the change count as fresh, and nothing is loaded.
  pub lost_invalidation :
      (now later : ℕ) (old changed : List Recording) (s : Caches Recording Series Rule)
      → later ≤ now + 2000000000
      → (ensure_recordings_loaded later
            (some changed)
            (invalidate_and_trigger_recording_update (store_recordings now old s))
          ≡ (
            true,
            store_recordings later changed
                (invalidate_and_trigger_recording_update (store_recordings now old s)),
          ))
        × (ensure_recordings_loaded later
              (some changed)
              (store_recordings now old (invalidate_and_trigger_recording_update s))
            ≡ (false, store_recordings now old (invalidate_and_trigger_recording_update s)))
  unfolding ensure_recordings_loaded invalidate_and_trigger_recording_update store_recordings
  lost_invalidation now later old changed s h = (
    refl,
    fresh_kept now later (some changed)
        (store_recordings now old (invalidate_and_trigger_recording_update s)) refl h,
  )
