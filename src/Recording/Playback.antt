-- ===== src/Recording/Playback.antt =====
-- A completed recording read from one position on, one read after the other.
use native.Mathlib.Decide.{dec_le}
use pvr_dispatcharrai.Prelude.{
  ℕ, zero, suc, ◌+◌, ◌*◌, ◌<◌, ◌≡◌, refl, sym, ap, ◌∙◌, Bool, true, false, [], ◌∷◌, ◌++◌, pos, take,
  drop, length, min, length-take, take-nil, drop-nil, drop_all, drop-drop, arith,
}
use pvr_dispatcharrai.Prelude.Text.{Text}
use pvr_dispatcharrai.Http.{is_usable}
use pvr_dispatcharrai.Recording.{
  RecordingClient, RecordingReadEnv, RecordingOutcome, rec_failed, rec_bytes, read_recording,
}
use pvr_dispatcharrai.Recording.Content.{
  SameRecording, HasHonestFile, RecordingAnswer, answer_failed, answer_end, answer_bytes,
  read_recording-RecordingAnswer,
}

-- The bytes of `n` reads of `size` bytes, one after the other.
abbrev bytes_of : RecordingOutcome → Text
bytes_of rec_failed = []
bytes_of (rec_bytes xs) = xs

unfoldable pub read_times : RecordingReadEnv → ℕ → ℕ → RecordingClient → Text
unfolding read_recording
read_times env size zero c = []
read_times env size (suc n) c =
    let r = read_recording env size c in bytes_of r.0 ++ read_times env size n r.1

contradiction : (b : Bool) → b ≡ true → b ≡ false → ⊥
contradiction b h k = ground arith

take-add : (a b : ℕ) (xs : Text) → take (a + b) xs ≡ take a xs ++ take b (drop a xs)
take-add zero b xs = ap (λ k. take k xs) {x = zero + b} (omega arith)
take-add (suc a) b [] = take-nil (suc a + b) ∙ sym (take-nil b)
take-add (suc a) b (x ∷ xs) =
    ap (λ k. take k (x ∷ xs)) {x = suc a + b} {y = suc (a + b)} (omega arith)
    ∙ ap (◌∷◌ x) (take-add a b xs)

drop-min : (k : ℕ) (xs : Text) → drop (min k (length xs)) xs ≡ drop k xs
drop-min k xs = elim (dec_le k (length xs)) [
  | yes h ↦ ap (λ i. drop i xs) {x = min k (length xs)} (omega arith)
  | no h ↦ drop_all (min k (length xs)) xs (omega arith) ∙ sym (drop_all k xs (omega arith))
]

module _ (content : Text → Text) where
  -- Every request goes through and ends with 200 or 206.
  abbrev pub IsReachable : RecordingReadEnv → Type 0
  IsReachable env = (i : ℕ) (key url range : Text) → is_usable (env.get i key url range) ≡ true

  record Step (size : ℕ) (c : RecordingClient) (r : RecordingOutcome × RecordingClient)
      : Type 0 where
    got : bytes_of r.0 ≡ take size (drop c.stream.position (content c.stream.url))
    same : SameRecording c r.1
    left :
        drop r.1.stream.position (content c.stream.url)
        ≡ drop size (drop c.stream.position (content c.stream.url))

  answer-Step :
      (env : RecordingReadEnv) (size : ℕ) (c : RecordingClient)
      (r : RecordingOutcome × RecordingClient)
      → IsReachable env
      → RecordingAnswer content env size c r
      → Step size c r
  answer-Step env size c _ up (answer_failed d same at (i, key, asks, bad)) =
      absurd (contradiction _ (up i key _ _) bad)
  answer-Step env size c _ up (answer_end past) =
      let none_left = drop_all c.stream.position (content c.stream.url) past in
      record {
        got = rw none_left (sym (take-nil size));
        same = record { open_still = refl; same_url = refl; same_total = refl };
        left = rw none_left (sym (drop-nil size));
      }
  answer-Step env size c _ up (answer_bytes xs d same some_bytes from at) =
      let p = c.stream.position in
      let rest = drop p (content c.stream.url) in
      record {
        got = from;
        same = same;
        left =
            ap (λ k. drop k (content c.stream.url)) {x = d.stream.position} {y = length xs + p}
              (omega (arith, at))
            ∙ sym (drop-drop (length xs) p (content c.stream.url))
            ∙ ap (λ k. drop k rest) (ap length from ∙ length-take size rest)
            ∙ drop-min size rest;
      }

  -- On an open stream of the right length, with a server that answers every request with the
  -- range asked for: `n` reads of `size` bytes deliver the next `n * size` bytes of the file, or
  -- all that are left, in order and each of them once.
  pub read_times_lem :
      (env : RecordingReadEnv) (size n : ℕ) (c : RecordingClient)
      → HasHonestFile content env
      → IsReachable env
      → 0 < size
      → c.stream.is_open ≡ true
      → c.stream.total ≡ pos (length (content c.stream.url))
      → read_times env size n c ≡ take (n * size) (drop c.stream.position (content c.stream.url))
  unfolding read_times
  read_times_lem env size zero c honest up some_size opened total =
      ap (λ k. take k (drop c.stream.position (content c.stream.url))) {x = 0} {y = 0 * size}
        (omega arith)
  read_times_lem env size (suc n) c honest up some_size opened total =
      let file = content c.stream.url in
      let rest = drop c.stream.position file in
      let r = read_recording env size c in
      let step =
        answer-Step env size c r up
          (read_recording-RecordingAnswer content env size c honest some_size opened total) in
      let later : read_times env size n r.1 ≡ take (n * size) (drop size rest) =
        read_times_lem env size n r.1 honest up some_size (step.same.open_still ∙ opened) (
          step.same.same_total
          ∙ total
          ∙ ap (λ u. pos (length (content u))) (sym step.same.same_url))
        ∙ ap (λ u. take (n * size) (drop r.1.stream.position (content u))) step.same.same_url
        ∙ ap (take (n * size)) step.left in
      rw (step.got, later)
        (sym (take-add size (n * size) rest)
          ∙ ap (λ k. take k rest) {x = size + n * size} {y = suc n * size} (grind arith))
