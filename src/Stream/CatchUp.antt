-- ===== src/Stream/CatchUp.antt =====
-- The budget of the catch-up loops: EstimateSegmentDurationMs and ComputeCatchUpAttempts.
use native.Mathlib.Nat.{mod-lt, div-add-mod}
use pvr_dispatcharrai.Prelude.{
  ℕ, ◌+◌, ◌-◌, ◌*◌, ◌≤◌, ◌<◌, ◌≡◌, false, true, List, ℤ, pos, pos_part, arith, ◌^◌, ◌/◌, refl,
}
use pvr_dispatcharrai.Stream.{
  SegmentT, estimate_segment_duration_ms, compute_catch_up_attempts, k_min_segment_duration_ms,
}

-- The estimate never falls below the floor.
pub floor-le-estimate :
    {A : Type 0} ⦃seg : SegmentT A⦄ (total : ℤ) (segments : List A)
    → k_min_segment_duration_ms ≤ estimate_segment_duration_ms total segments
unfolding estimate_segment_duration_ms
floor-le-estimate total segments = omega arith

-- Below the range of an `int` the cast keeps the quotient.
attempts_lem :
    (estimate_ms sleep_ms : ℕ)
    → estimate_ms * 3 / sleep_ms < 2 ^ 31
    → compute_catch_up_attempts false estimate_ms sleep_ms ≡ pos (estimate_ms * 3 / sleep_ms + 1)
unfolding compute_catch_up_attempts
attempts_lem e s h = ground arith

-- For a sleep that is not 0 and three times the estimate below 2^31: unless the read is a likely
-- seek probe, the number of attempts, less one, times the sleep is at most three times the
-- estimate, and the number times the sleep is more. A likely seek probe gets one attempt.
pub catch_up_budget :
    (estimate_ms sleep_ms : ℕ)
    → 0 < sleep_ms
    → estimate_ms * 3 < 2 ^ 31
    → let n = pos_part (compute_catch_up_attempts false estimate_ms sleep_ms) in
      ((n - 1) * sleep_ms ≤ estimate_ms * 3)
      × (estimate_ms * 3 < n * sleep_ms)
      × (compute_catch_up_attempts true estimate_ms sleep_ms ≡ pos 1)
unfolding compute_catch_up_attempts
catch_up_budget e s h b =
    let small : e * 3 / s < 2 ^ 31 = omega arith in
    rw (attempts_lem e s small) (
      grind (arith, mod-lt, div-add-mod (e * 3) s),
      grind (arith, mod-lt, div-add-mod (e * 3) s),
      refl,
    )
