-- ===== src/InProgress/Probe.antt =====
-- The probes of RefreshInProgressRecordingManifest: a HEAD request for each new segment, in
-- batches of threads that each write their own index of `probedSizes`.
pub mod Batches
use pvr_dispatcharrai.Prelude.{
  ℕ, zero, suc, ◌+◌, Bool, true, false, ◌==◌, ◌||◌, ltb, not, if◌then◌else◌, Option, none, some,
  List, [], ◌∷◌, map, ℤ, negsuc, length, get_elem?, set, replicate, min,
}
use pvr_dispatcharrai.Prelude.Text.{Text}
use pvr_dispatcharrai.Http.{Reply, content_length_header_callback, run_headers}

-- ProbeSegmentByteSize, on the reply to its request.
unfoldable pub probe_segment_byte_size : Reply → ℤ
unfolding run_headers content_length_header_callback
probe_segment_byte_size r =
    if not r.handle
    then negsuc 0
    else if not r.sent_ok || not (r.http_code == 200)
    then negsuc 0
    else run_headers content_length_header_callback (negsuc 0) r.headers

abbrev pub k_max_concurrent_probes : ℕ
k_max_concurrent_probes = 16

-- `probe` is what a thread computes from a URL; `urls` are those of `pending`.
module _ (probe : Text → ℤ) (urls : List Text) where
  -- The thread at index `i`.
  unfoldable pub run_thread : List ℤ → ℕ → List ℤ
  run_thread sizes i = elim (get_elem? urls i) [ none ↦ sizes | some u ↦ set sizes i (probe u) ]

  -- The threads of a batch, in the order in which they finish, up to the last join.
  unfoldable pub run_batch : List ℤ → List ℕ → List ℤ
  unfolding run_thread
  run_batch sizes [] = sizes
  run_batch sizes (i ∷ is) = run_batch (run_thread sizes i) is

  -- `order b e` is the order in which the threads of the batch from `b` up to `e` finish.
  unfoldable pub probe_batches : (ℕ → ℕ → List ℕ) → ℕ → ℕ → List ℤ → List ℤ
  unfolding run_batch
  probe_batches order zero start sizes = sizes
  probe_batches order (suc fuel) start sizes =
      let end = min (start + k_max_concurrent_probes) (length urls) in
      let rest =
        probe_batches order fuel (start + k_max_concurrent_probes)
          (run_batch sizes (order start end)) in
      if ltb start (length urls) then rest else sizes

  -- The loop over the batches, from `probedSizes(pending.size(), -1)`.
  unfoldable pub probed_sizes : (ℕ → ℕ → List ℕ) → List ℤ
  unfolding probe_batches
  probed_sizes order = probe_batches order (length urls) 0 (replicate (length urls) (negsuc 0))
