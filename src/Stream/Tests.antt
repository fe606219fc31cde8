-- ===== src/Stream/Tests.antt =====
-- The catch-up budget and the read sink at concrete values.
use pvr_dispatcharrai.Prelude.{
  ℕ, ◌*◌, ◌-◌, ◌≤◌, ◌<◌, ◌≡◌, arith, true, false, List, [], ◌∷◌, ◌++◌, pos, pos_part, take,
}
use pvr_dispatcharrai.Stream.{compute_catch_up_attempts}
use pvr_dispatcharrai.Stream.CatchUp.{catch_up_budget}
use pvr_dispatcharrai.Http.{FixedBufferSink, remaining, write_all}
use pvr_dispatcharrai.Http.Sink.{body, write_all_lem}

-- Segments of six seconds polled every quarter of a second.
catch_up_budget_example :
    let n = pos_part (compute_catch_up_attempts false 6000 250) in
    ((n - 1) * 250 ≤ 18000) × (18000 < n * 250) × (compute_catch_up_attempts true 6000 250 ≡ pos 1)
catch_up_budget_example = catch_up_budget 6000 250 (omega arith) (omega arith)

abbrev small_sink : FixedBufferSink
small_sink = record { capacity = 3; written = 9 ∷ [] }

abbrev pieces : List (List ℕ)
pieces = (1 ∷ []) ∷ (2 ∷ 3 ∷ []) ∷ []

write_all_lem_example :
    (write_all small_sink pieces).written
    ≡ small_sink.written ++ take (remaining small_sink) (body pieces)
write_all_lem_example = write_all_lem small_sink pieces
