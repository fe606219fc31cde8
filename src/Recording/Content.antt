-- ===== src/Recording/Content.antt =====
-- The reads of a completed recording against the file that the server has.
use pvr_dispatcharrai.Prelude.{
  ℕ, suc, ◌+◌, ◌-◌, ◌≤◌, ◌<◌, ◌≡◌, refl, sym, ap, subst, ◌∙◌, Bool, true, false, ◌==◌, ◌&&◌, ◌||◌,
  not, if◌then◌else◌, if_split, ◌⊎◌, inl, inr, some, [], pos, take, drop, length, length-take,
  length-drop, arith,
}
use pvr_dispatcharrai.Prelude.Text.{Text}
use pvr_dispatcharrai.Http.{
  Reply, is_usable, FixedBufferSink, write_all, generate_api_key, retried, retried_with,
  generate_api_key_lem,
}
use pvr_dispatcharrai.Http.Sink.{body, write_all_lem}
use pvr_dispatcharrai.Recording.{
  RecordingStream, RecordingClient, RecordingReadEnv, RecordingOutcome, rec_failed, rec_bytes,
  recording_range, judge_read, read_attempts, is_at_eof, read_recording,
}

-- Only the handle and the position of the stream, and the key, may differ.
pub record SameRecording (c d : RecordingClient) : Type 0 where
  pub open_still : d.stream.is_open ≡ c.stream.is_open
  pub same_url : d.stream.url ≡ c.stream.url
  pub same_total : d.stream.total ≡ c.stream.total

code_cases : (c : ℕ) → (not (c == 200) && not (c == 206)) ≡ false → (c ≡ 200) ⊎ (c ≡ 206)
code_cases c h = ground arith

without_handle : (r : Reply) (b : Bool) → (not b && not r.handle) ≡ true → is_usable r ≡ false
without_handle r b h = ground arith

not_sent : (r : Reply) → not r.sent_ok ≡ true → is_usable r ≡ false
not_sent r h = ground arith

other_code :
    (r : Reply)
    → (not (r.http_code == 200) && not (r.http_code == 206)) ≡ true
    → is_usable r ≡ false
other_code r h = ground arith

unauthorized_code : (c : ℕ) → ((c == 401) && (0 == 0)) ≡ true → c ≡ 401
unauthorized_code c h = ground arith

was_sent : (r : Reply) → not r.sent_ok ≡ false → r.sent_ok ≡ true
was_sent r h = ground arith

no_third : (c : ℕ) → ((c == 401) && (1 == 0)) ≡ true → ⊥
no_third c h = ground arith

at_eof : (n : ℕ) (s : RecordingStream) → s.total ≡ pos n → is_at_eof s ≡ true → n ≤ s.position
at_eof n s e h = ground arith

not_at_eof : (n : ℕ) (s : RecordingStream) → s.total ≡ pos n → is_at_eof s ≡ false → s.position < n
not_at_eof n s e h = ground arith

-- `content` is the file that the server has at each URL.
module _ (content : Text → Text) where
  -- A request for a range that begins inside the file, and that the transfer library finished with
  -- 200 or 206, carries the file from the start of the range on, up to its end at least. Of a
  -- transfer that broke off nothing is said, whatever its code.
  abbrev pub HasHonestFile : RecordingReadEnv → Type 0
  HasHonestFile env =
      (i : ℕ) (key url : Text) (first size : ℕ)
      → 0 < size
      → first < length (content url)
      → let r = env.get i key url (recording_range first size) in
        r.sent_ok ≡ true
        → (r.http_code ≡ 200) ⊎ (r.http_code ≡ 206)
        → take size (body r.chunks) ≡ take size (drop first (content url))

  -- The requests of a read: the first one under the client's key; and, after that one ended with
  -- 401, a second one under the key that was regenerated then.
  abbrev Asks : RecordingReadEnv → ℕ → RecordingClient → ℕ → Text → Type 0
  Asks env size c i key =
      let range = recording_range c.stream.position size in
      (i ≡ 0) × (key ≡ c.api_key)
      ⊎ (i ≡ 1)
        × ((env.get 0 c.api_key c.stream.url range).http_code ≡ 401)
        × (env.regenerated ≡ some key)

  -- What a read of `size` bytes comes to: -1 after a request of it did not go through, with the
  -- position where it was; nothing at the end; or all that the file has for the buffer.
  pub data RecordingAnswer (env : RecordingReadEnv) (size : ℕ) (c : RecordingClient)
      : RecordingOutcome × RecordingClient → Type 0 where
    answer_failed :
        (d : RecordingClient)
        → SameRecording c d
        → d.stream.position ≡ c.stream.position
        → (i : ℕ) × (key : Text) × Asks env size c i key
          × (is_usable (env.get i key c.stream.url (recording_range c.stream.position size))
              ≡ false)
        → RecordingAnswer env size c (rec_failed, d)
    answer_end :
        length (content c.stream.url) ≤ c.stream.position
        → RecordingAnswer env size c (rec_bytes [], c)
    answer_bytes :
        (xs : Text) (d : RecordingClient)
        → SameRecording c d
        → 0 < length xs
        → xs ≡ take size (drop c.stream.position (content c.stream.url))
        → d.stream.position ≡ c.stream.position + length xs
        → RecordingAnswer env size c (rec_bytes xs, d)

  judge_read-RecordingAnswer :
      (env : RecordingReadEnv) (size i : ℕ) (b c : RecordingClient)
      → HasHonestFile env
      → 0 < size
      → c.stream.position < length (content c.stream.url)
      → SameRecording c b
      → b.stream.position ≡ c.stream.position
      → Asks env size c i b.api_key
      → RecordingAnswer env size c (
          judge_read size
            (env.get i b.api_key c.stream.url (recording_range c.stream.position size))
            b)
  unfolding judge_read
  judge_read-RecordingAnswer env size i b c honest some_size inside same at asks =
      let P : RecordingOutcome × RecordingClient → Type 0 = RecordingAnswer env size c in
      let r = env.get i b.api_key c.stream.url (recording_range c.stream.position size) in
      let sink : FixedBufferSink = record { capacity = size; written = [] } in
      let written = (write_all sink r.chunks).written in
      let dropped : RecordingClient = record b { stream = record b.stream { curl = false } } in
      let kept : RecordingClient = record b { stream = record b.stream { curl = true } } in
      let good : RecordingOutcome × RecordingClient = (
        rec_bytes written,
        record b {
          stream = record b.stream { curl = true; position = b.stream.position + length written };
        },
      ) in
      let whole = content c.stream.url in
      let rest : RecordingOutcome × RecordingClient =
        if not (r.http_code == 200) && not (r.http_code == 206) then (rec_failed, kept) else good in
      if_split P (not r.sent_ok) {x = (rec_failed, dropped)} {y = rest}
        (λ e.
          answer_failed dropped
            (record {
              open_still = same.open_still;
              same_url = same.same_url;
              same_total = same.same_total;
            })
            at (i, b.api_key, asks, not_sent r e))
        λ sent.
          if_split P (not (r.http_code == 200) && not (r.http_code == 206)) {x = (rec_failed, kept)}
            {y = good}
            (λ e.
              answer_failed kept
                (record {
                  open_still = same.open_still;
                  same_url = same.same_url;
                  same_total = same.same_total;
                })
                at (i, b.api_key, asks, other_code r e))
            (λ e.
              let from : written ≡ take size (drop c.stream.position whole) =
                write_all_lem sink r.chunks
                ∙ ap (λ k. take k (body r.chunks)) {x = size - 0} (omega arith)
                ∙ honest i b.api_key c.stream.url c.stream.position size some_size inside
                    (was_sent r sent) (code_cases r.http_code e) in
              let sized : 0 < length written = omega (
                arith,
                ap length from,
                length-take size (drop c.stream.position whole),
                length-drop c.stream.position whole,
              ) in
              answer_bytes written good.1
                (record {
                  open_still = same.open_still;
                  same_url = same.same_url;
                  same_total = same.same_total;
                })
                sized from (ap (λ p. p + length written) at))

  -- An attempt, given what the one behind it comes to where there is one.
  attempt-RecordingAnswer :
      (env : RecordingReadEnv) (size left i : ℕ) (b c : RecordingClient)
      → HasHonestFile env
      → 0 < size
      → c.stream.position < length (content c.stream.url)
      → SameRecording c b
      → b.stream.position ≡ c.stream.position
      → Asks env size c i b.api_key
      → let range = recording_range c.stream.position size in
        ((key : Text)
          → ((env.get i b.api_key b.stream.url range).http_code == 401) && (i == 0) ≡ true
          → env.regenerated ≡ some key
          → RecordingAnswer env size c (
              read_attempts env size range left
                (suc i)
                (record b { stream = record b.stream { curl = true }; api_key = key })))
        → RecordingAnswer env size c (read_attempts env size range (suc left) i b)
  unfolding read_attempts
  attempt-RecordingAnswer env size left i b c honest some_size inside same at asks later =
      let P : RecordingOutcome × RecordingClient → Type 0 = RecordingAnswer env size c in
      let range = recording_range c.stream.position size in
      let r = env.get i b.api_key b.stream.url range in
      let judged : RecordingOutcome × RecordingClient = judge_read size r b in
      let again : Text → RecordingOutcome × RecordingClient = λ k.
        read_attempts env size range left (suc i)
          (record b { stream = record b.stream { curl = true }; api_key = k }) in
      let retry : RecordingOutcome × RecordingClient =
        retried (generate_api_key env.regenerated) judged again in
      let rest : RecordingOutcome × RecordingClient =
        if (r.http_code == 401) && (i == 0) then retry else judged in
      let here : P judged =
        subst (λ u. P (judge_read size (env.get i b.api_key u range) b)) (sym same.same_url)
          (judge_read-RecordingAnswer env size i b c honest some_size inside same at asks) in
      if_split P (not b.stream.curl && not r.handle) {x = (rec_failed, b)} {y = rest}
        (λ e. answer_failed b same at (
          i,
          b.api_key,
          asks,
          subst (λ u. is_usable (env.get i b.api_key u range) ≡ false) same.same_url
              (without_handle r b.stream.curl e),
        ))
        λ _.
          if_split P ((r.http_code == 401) && (i == 0)) {x = retry} {y = judged}
            (λ e.
              retried_with P (generate_api_key env.regenerated) judged again here
                (λ k g. later k e (generate_api_key_lem env.regenerated k g)))
            (λ e. here)

  read_attempts-RecordingAnswer :
      (env : RecordingReadEnv) (size : ℕ) (c : RecordingClient)
      → HasHonestFile env
      → 0 < size
      → c.stream.position < length (content c.stream.url)
      → RecordingAnswer env size c
          (read_attempts env size (recording_range c.stream.position size) 2 0 c)
  read_attempts-RecordingAnswer env size c honest some_size inside =
      attempt-RecordingAnswer env size 1 0 c c honest some_size inside
        (record { open_still = refl; same_url = refl; same_total = refl }) refl (inl (refl, refl))
        λ key e new.
          let b : RecordingClient = record c {
            stream = record c.stream { curl = true };
            api_key = key;
          } in
          attempt-RecordingAnswer env size 0 1 b c honest some_size inside
            (record { open_still = refl; same_url = refl; same_total = refl }) refl
            (inr (refl, unauthorized_code _ e, new)) λ key' e' new'. absurd (no_third _ e')

  -- On an open stream of the right length, with a server whose transfers carry the file's range
  -- when they finish with 200 or 206 (one that breaks off may carry anything): a read of at least
  -- one byte fails without moving, and then a request of it did not go through, which was its first
  -- one or, behind a 401, its second one with the key that was regenerated; or it stands at the
  -- end; or it delivers all of the next `size` bytes that the file has, at least one, and moves
  -- behind them.
  pub read_recording-RecordingAnswer :
      (env : RecordingReadEnv) (size : ℕ) (c : RecordingClient)
      → HasHonestFile env
      → 0 < size
      → c.stream.is_open ≡ true
      → c.stream.total ≡ pos (length (content c.stream.url))
      → RecordingAnswer env size c (read_recording env size c)
  unfolding read_recording
  read_recording-RecordingAnswer env size c honest some_size opened total =
      let P : RecordingOutcome × RecordingClient → Type 0 = RecordingAnswer env size c in
      let n = length (content c.stream.url) in
      let fetched : RecordingOutcome × RecordingClient =
        read_attempts env size (recording_range c.stream.position size) 2 0 c in
      let rest : RecordingOutcome × RecordingClient =
        if is_at_eof c.stream then (rec_bytes [], c) else fetched in
      if_split P (not c.stream.is_open || (size == 0)) {x = (rec_bytes [], c)} {y = rest}
        (λ e. absurd (ground arith))
        λ _.
          if_split P (is_at_eof c.stream) {x = (rec_bytes [], c)} {y = fetched}
            (λ e. answer_end (at_eof n c.stream total e))
            (λ e.
              read_attempts-RecordingAnswer env size c honest some_size
                (not_at_eof n c.stream total e))
