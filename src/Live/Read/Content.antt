-- ===== src/Live/Read/Content.antt =====
-- One ranged request of ReadLiveTimeshiftStream against the file that it reads from.
use pvr_dispatcharrai.Prelude.{
  ℕ, ◌+◌, ◌-◌, ◌≤◌, ◌<◌, ◌≡◌, refl, sym, ap, ◌∙◌, Bool, true, false, ◌==◌, ◌&&◌, not, if◌then◌else◌,
  if_split, some, [], negsuc, ◌⊎◌, inl, inr, take, drop, length, length-take, length-drop, take_all,
  min, arith,
}
use pvr_dispatcharrai.Prelude.Text.{Text}
use pvr_dispatcharrai.Http.{
  Reply, is_usable, FixedBufferSink, write_all, recording_header_callback, run_headers,
}
use pvr_dispatcharrai.Http.Sink.{body, write_all_lem}
use pvr_dispatcharrai.Stream.{locate}
use pvr_dispatcharrai.Stream.Layout.{locate_inside, locate_end, locate_total}
use pvr_dispatcharrai.Stream.Content.{locate-content, locate-Sized, stream_bytes}
use pvr_dispatcharrai.Live.{LiveSegment, LiveSegment-SegmentT, LiveStream}
use pvr_dispatcharrai.Live.Manifest.Layout.{LiveServed, file, live_recorded}
use pvr_dispatcharrai.Live.Read.{
  LiveReadEnv, LiveOutcome, live_failed, live_bytes, is_mismatch, live_segment_url, range_text,
  judge_range, read_live_segment, read_live_located,
}

-- The address space, the position and what the requests are made of are as before.
pub record SameLive (s t : LiveStream) : Type 0 where
  pub segments : t.segments ≡ s.segments
  pub total : t.total_bytes ≡ s.total_bytes
  pub position : t.position ≡ s.position
  pub base_url : t.segment_base_url ≡ s.segment_base_url
  pub token : t.access_token ≡ s.access_token

-- The reply to the request of a read of `size` bytes at the position of `s`, inside segment `g`.
abbrev pub asked : LiveReadEnv → ℕ → LiveStream → LiveSegment → Reply
asked env size s g =
    let offset = s.position - g.byte_offset in
    env.fetch (live_segment_url s g) (range_text offset (min size (g.byte_size - offset)))

-- That request is for the segment at the position.
abbrev pub Asked : LiveReadEnv → ℕ → LiveStream → (Reply → Type 0) → Type 0
Asked env size s P =
    (g : LiveSegment) × (locate s.position s.segments ≡ some g) × P (asked env size s g)

without_handle : (r : Reply) (b : Bool) → (not b && not r.handle) ≡ true → is_usable r ≡ false
without_handle r b h = ground arith

not_sent : (r : Reply) → not r.sent_ok ≡ true → is_usable r ≡ false
not_sent r h = ground arith

other_code :
    (r : Reply)
    → (not (r.http_code == 200) && not (r.http_code == 206)) ≡ true
    → is_usable r ≡ false
other_code r h = ground arith

-- What a request for `want` bytes comes to: no bytes and no move, or the body's first bytes.
pub data Judged (want : ℕ) (r : Reply) (s : LiveStream) : LiveOutcome × LiveStream → Type 0 where
  judged_failed :
      (t : LiveStream)
      → SameLive s t
      → (t.fatal ≡ true) ⊎ (is_usable r ≡ false)
      → Judged want r s (live_failed, t)
  judged_gone :
      (t : LiveStream)
      → SameLive s t
      → r.sent_ok ≡ true
      → r.http_code ≡ 404
      → Judged want r s (live_bytes [], t)
  judged_written :
      (xs : Text) (t : LiveStream)
      → r.sent_ok ≡ true
      → (r.http_code ≡ 200) ⊎ (r.http_code ≡ 206)
      → xs ≡ take want (body r.chunks)
      → t.segments ≡ s.segments
      → t.total_bytes ≡ s.total_bytes
      → t.position ≡ s.position + length xs
      → Judged want r s (live_bytes xs, t)

was_sent : (r : Reply) → not r.sent_ok ≡ false → r.sent_ok ≡ true
was_sent r h = ground arith

unmoved :
    (s t : LiveStream)
    → t.segments ≡ s.segments
    → t.total_bytes ≡ s.total_bytes
    → t.position ≡ s.position
    → t.segment_base_url ≡ s.segment_base_url
    → t.access_token ≡ s.access_token
    → SameLive s t
unmoved s t a b c d e = record { segments = a; total = b; position = c; base_url = d; token = e }

code_cases : (c : ℕ) → (not (c == 200) && not (c == 206)) ≡ false → (c ≡ 200) ⊎ (c ≡ 206)
code_cases c h = ground arith

code_gone : (c : ℕ) → (c == 404) ≡ true → c ≡ 404
code_gone c h = ground arith

judge_range-Judged :
    (want : ℕ) (g : LiveSegment) (r : Reply) (s : LiveStream)
    → Judged want r s (judge_range want g r s)
unfolding judge_range
judge_range-Judged want g r s =
    let P : LiveOutcome × LiveStream → Type 0 = Judged want r s in
    let sink : FixedBufferSink = record { capacity = want; written = [] } in
    let written = (write_all sink r.chunks).written in
    let kept : LiveStream = record s { curl = true } in
    let total = run_headers recording_header_callback (negsuc 0) r.headers in
    let good : LiveOutcome × LiveStream =
      (live_bytes written, record kept { position = s.position + length written }) in
    let bad : LiveOutcome × LiveStream = (live_failed, record kept { fatal = true }) in
    let r1 : LiveOutcome × LiveStream = if is_mismatch total g.byte_size then bad else good in
    let r2 : LiveOutcome × LiveStream =
      if not (r.http_code == 200) && not (r.http_code == 206) then (live_failed, kept) else r1 in
    let r3 : LiveOutcome × LiveStream = if r.http_code == 404 then (live_bytes [], kept) else r2 in
    let r4 : LiveOutcome × LiveStream =
      if not r.sent_ok then (live_failed, record s { curl = false }) else r3 in
    if_split P (not s.curl && not r.handle) {x = (live_failed, s)} {y = r4}
      (λ e.
        judged_failed s (unmoved s s refl refl refl refl refl) (inr (without_handle r s.curl e)))
      λ e1.
        if_split P (not r.sent_ok) {x = (live_failed, record s { curl = false })} {y = r3}
          (λ e. judged_failed _ (unmoved s _ refl refl refl refl refl) (inr (not_sent r e)))
          λ e2.
            if_split P (r.http_code == 404) {x = (live_bytes [], kept)} {y = r2}
              (λ e.
                judged_gone _ (unmoved s _ refl refl refl refl refl) (was_sent r e2)
                  (code_gone r.http_code e))
              λ e3.
                if_split P (not (r.http_code == 200) && not (r.http_code == 206))
                  {x = (live_failed, kept)} {y = r1}
                  (λ e.
                    judged_failed _ (unmoved s _ refl refl refl refl refl) (inr (other_code r e)))
                  λ e4.
                    if_split P (is_mismatch total g.byte_size) {x = bad} {y = good}
                      (λ e. judged_failed _ (unmoved s _ refl refl refl refl refl) (inl refl))
                      (λ e5.
                        judged_written written _ (was_sent r e2) (code_cases r.http_code e4)
                          (write_all_lem sink r.chunks
                            ∙ ap (λ k. take k (body r.chunks)) {x = want - 0} (omega arith))
                          refl refl refl)

Asked-SameLive :
    (P : Reply → Type 0) (env : LiveReadEnv) (size : ℕ) (s t : LiveStream) (g : LiveSegment)
    → SameLive s t
    → locate s.position s.segments ≡ some g
    → P (asked env size s g)
    → Asked env size t P
Asked-SameLive P env size s t g same found p =
    (g, rw (same.position, same.segments) found, rw (same.position, same.base_url, same.token) p)

module _ (content : Text → Text) where
  -- A request for a range inside a file that the transfer library finished, with 200 or 206, carries
  -- that range. Of a transfer that broke off nothing is said, whatever its code.
  abbrev pub HasHonestRanges : LiveReadEnv → LiveStream → Type 0
  HasHonestRanges env s =
      (g : LiveSegment) (first size : ℕ)
      → 0 < size
      → first + size ≤ length (content g.filename)
      → let r = env.fetch (live_segment_url s g) (range_text first size) in
        r.sent_ok ≡ true
        → (r.http_code ≡ 200) ⊎ (r.http_code ≡ 206)
        → body r.chunks ≡ take size (drop first (content g.filename))

  -- What a read of at most `size` bytes comes to, with the requests of `env`: -1, of a fatal stream
  -- or after its request did not go through; no bytes, at or past the known end or after its
  -- request ended with 404, with the position where it was in both cases; or bytes of the stream,
  -- the position moved behind them.
  pub data LiveAnswer (env : LiveReadEnv) (size : ℕ) (s : LiveStream)
      : LiveOutcome × LiveStream → Type 0 where
    live_refused :
        (t : LiveStream)
        → t.position ≡ s.position
        → (t.fatal ≡ true) ⊎ Asked env size t (λ r. is_usable r ≡ false)
        → LiveAnswer env size s (live_failed, t)
    live_nothing :
        (t : LiveStream)
        → t.position ≡ s.position
        → (t.total_bytes ≤ t.position)
          ⊎ Asked env size t (λ r. (r.sent_ok ≡ true) × (r.http_code ≡ 404))
        → LiveAnswer env size s (live_bytes [], t)
    live_delivered :
        (xs : Text) (t : LiveStream)
        → 0 < length xs
        → length xs ≤ size
        → xs ≡ take (length xs) (drop s.position (live_recorded content t))
        → t.position ≡ s.position + length xs
        → t.position ≤ t.total_bytes
        → LiveAnswer env size s (live_bytes xs, t)

  carried :
      (s t : LiveStream)
      → t.segments ≡ s.segments
      → t.total_bytes ≡ s.total_bytes
      → LiveServed content s
      → LiveServed content t
  carried s t e f z = record { valid = rw (e, f) z.valid; sized = rw e z.sized }

  refused_cause :
      (env : LiveReadEnv) (size : ℕ) (g : LiveSegment) (s t : LiveStream)
      → SameLive s t
      → locate s.position s.segments ≡ some g
      → (t.fatal ≡ true) ⊎ (is_usable (asked env size s g) ≡ false)
      → (t.fatal ≡ true) ⊎ Asked env size t (λ r. is_usable r ≡ false)
  refused_cause env size g s t same found (inl dead) = inl dead
  refused_cause env size g s t same found (inr bad) =
      inr (Asked-SameLive (λ r. is_usable r ≡ false) env size s t g same found bad)

  from_Judged :
      (env : LiveReadEnv) (size want : ℕ) (g : LiveSegment) (s : LiveStream)
      (o : LiveOutcome × LiveStream)
      → LiveServed content s
      → locate s.position s.segments ≡ some g
      → s.position < s.total_bytes
      → 0 < want
      → want ≤ size
      → want ≤ g.byte_size - (s.position - g.byte_offset)
      → let r = asked env size s g in
        (r.sent_ok ≡ true
          → (r.http_code ≡ 200) ⊎ (r.http_code ≡ 206)
          → body r.chunks ≡ take want (drop (s.position - g.byte_offset) (content g.filename)))
        → Judged want r s o
        → LiveAnswer env size s o × LiveServed content o.1
  from_Judged env size want g s _ served found inside some_size at_most fits honest
        (judged_failed t same cause) =
      (
        live_refused t same.position (refused_cause env size g s t same found cause),
        carried s t same.segments same.total served,
      )
  from_Judged env size want g s _ served found inside some_size at_most fits honest
        (judged_gone t same sent code) =
      (
        live_nothing t same.position (
            inr (
              Asked-SameLive (λ r. (r.sent_ok ≡ true) × (r.http_code ≡ 404)) env size s t g same
                found (sent, code))),
        carried s t same.segments same.total served,
      )
  from_Judged env size want g s _ served found inside some_size at_most fits honest
        (judged_written xs t sent code e segs total at) =
      let off = s.position - g.byte_offset in
      let whole = content g.filename in
      let taken = take want (drop off whole) in
      let end = locate_end 0 s.total_bytes s.position s.segments g served.valid found in
      let (after, before) = locate_inside s.position s.segments g found in
      let file_size = locate-Sized (file content) s.position s.segments g served.sized found in
      let taken_size : length taken ≡ want =
        omega (arith, length-take want (drop off whole), length-drop off whole, file_size) in
      let xs_taken : xs ≡ taken =
        e
        ∙ ap (λ b. take want b) (honest sent code)
        ∙ take_all want taken (omega (arith, taken_size)) in
      let xs_size : length xs ≡ want = ap length xs_taken ∙ taken_size in
      let from : taken ≡ take want (drop (s.position - 0) (live_recorded content s)) =
        locate-content (file content) 0 s.total_bytes s.position want s.segments served.valid
          served.sized (omega arith) inside found fits in
      (
        live_delivered xs t (omega (arith, xs_size)) (omega (arith, xs_size))
            (xs_taken
              ∙ from
              ∙ ap (λ k. take want (drop k (live_recorded content s))) {x = s.position - 0}
                  (omega arith)
              ∙ ap (λ l. take want (drop s.position (stream_bytes (file content) l))) (sym segs)
              ∙ ap (λ n. take n (drop s.position (live_recorded content t))) (sym xs_size))
            at (omega (arith, at, xs_size, total, end)),
        carried s t segs total served,
      )

  -- A located read is answered from the segment at the position.
  pub read_live_located-LiveAnswer :
      (env : LiveReadEnv) (size : ℕ) (s : LiveStream)
      → HasHonestRanges env s
      → LiveServed content s
      → s.position < s.total_bytes
      → 0 < size
      → LiveAnswer env size s (read_live_located env size s)
        × LiveServed content (read_live_located env size s).1
  unfolding read_live_located read_live_segment
  read_live_located-LiveAnswer env size s honest served inside some_size =
      let (g, found, after, before) =
        locate_total 0 s.total_bytes s.position s.segments served.valid (omega arith) inside in
      let off = s.position - g.byte_offset in
      let want = min size (g.byte_size - off) in
      let r = env.fetch (live_segment_url s g) (range_text off want) in
      let file_size = locate-Sized (file content) s.position s.segments g served.sized found in
      rw found (
        from_Judged env size want g s (judge_range want g r s) served found inside (omega arith)
          (omega arith) (omega arith) (honest g off want (omega arith) (omega (arith, file_size)))
          (judge_range-Judged want g r s))
