-- ===== src/Http.antt =====
-- What one libcurl transfer hands back, and the callbacks of src/DispatcharrClient.cpp that a
-- transfer runs. libcurl and the server are not modelled: every operation takes the replies that
-- it gets as arguments, in the order of its calls.
pub mod Sink
use pvr_dispatcharrai.Prelude.{
  ℕ, zero, suc, ◌+◌, ◌-◌, ◌≤◌, ◌≡◌, refl, arith, Bool, true, false, ◌==◌, ◌&&◌, ◌||◌, ltb, leb, not,
  if◌then◌else◌, Option, none, some, List, [], ◌∷◌, ◌++◌, map, ℤ, pos, take, drop, length, min,
}
use pvr_dispatcharrai.Prelude.Text.{
  Text, codes, is_empty, stoll, text_eq, to_lower, rfind, substr, parse_int, skip_spaces,
}

-- `handle` is whether `curl_easy_init` gave a handle, `sent_ok` is `res == CURLE_OK`. The body
-- comes in the pieces that the write callback is called with.
pub record Reply : Type 0 where
  pub handle : Bool
  pub sent_ok : Bool
  pub http_code : ℕ
  pub headers : List Text
  pub chunks : List Text

-- `httpCode >= 200 && httpCode < 300`.
abbrev pub is_success : ℕ → Bool
is_success code = leb 200 code && ltb code 300

-- A transfer that went through and ended with 200 or 206.
abbrev pub is_usable : Reply → Bool
is_usable r = r.handle && (r.sent_ok && ((r.http_code == 200) || (r.http_code == 206)))

-- WriteCallback, run over a body: it appends every piece.
unfoldable pub write_callback : Text → List Text → Text
write_callback out [] = out
write_callback out (c ∷ cs) = write_callback (out ++ c) cs

-- FixedBufferSink: the bytes written so far, in a buffer of `capacity` bytes.
pub record FixedBufferSink : Type 0 where
  pub capacity : ℕ
  pub written : Text

abbrev pub remaining : FixedBufferSink → ℕ
remaining s = s.capacity - length s.written

-- FixedBufferWriteCallback: copies what fits, and drops the rest of the piece.
unfoldable pub fixed_buffer_write_callback : FixedBufferSink → Text → FixedBufferSink
fixed_buffer_write_callback s c =
    let to_copy = min (length c) (remaining s) in
    if ltb 0 to_copy then record s { written = s.written ++ take to_copy c } else s

unfoldable pub write_all : FixedBufferSink → List Text → FixedBufferSink
unfolding fixed_buffer_write_callback
write_all s [] = s
write_all s (c ∷ cs) = write_all (fixed_buffer_write_callback s c) cs

-- RecordingHeaderCallback on one header line: the number behind the last slash of Content-Range.
unfoldable pub recording_header_callback : ℤ → Text → ℤ
unfolding text_eq rfind parse_int
recording_header_callback total line =
    if leb 14 (length line) && text_eq (map to_lower (take 14 line)) (codes "content-range:")
    then (elim (rfind line b'/') [
      | none ↦ total
      | some slash ↦ elim (stoll (drop (slash + 1) line)) [ none ↦ total | some n ↦ n ]
    ])
    else total

-- ContentLengthHeaderCallback on one header line.
unfoldable pub content_length_header_callback : ℤ → Text → ℤ
unfolding text_eq parse_int
content_length_header_callback total line =
    if leb 15 (length line) && text_eq (map to_lower (take 15 line)) (codes "content-length:")
    then (elim (stoll (drop 15 line)) [ none ↦ total | some n ↦ n ])
    else total

unfoldable pub run_headers : (ℤ → Text → ℤ) → ℤ → List Text → ℤ
run_headers callback total [] = total
run_headers callback total (h ∷ hs) = run_headers callback (callback total h) hs

-- GenerateApiKey: `none` if the login or the request failed, otherwise the `key` field of the
-- response, empty where it is missing. It yields the new key.
unfoldable pub generate_api_key : Option Text → Option Text
generate_api_key none = none
generate_api_key (some key) = if is_empty key then none else some key

-- IsApiKeyValidFor, on the reply to its request.
unfoldable pub is_api_key_valid_for : Reply → Bool
is_api_key_valid_for r = if not r.handle then true else not r.sent_ok || not (r.http_code == 401)

-- What a 401 leads to: another attempt under the new key, or the reply as it is if there is none.
abbrev pub retried {ℓ} : {A : Type ℓ} → Option Text → A → (Text → A) → A
retried none judged again = judged
retried (some key) judged again = again key

pub retried_both {ℓ κ} :
    {A : Type ℓ} (P : A → Type κ) (key : Option Text) (judged : A) (again : Text → A)
    → P judged
    → ((k : Text) → P (again k))
    → P (retried key judged again)
retried_both P none judged again p q = p
retried_both P (some key) judged again p q = q key

pub retried_with {ℓ κ} :
    {A : Type ℓ} (P : A → Type κ) (key : Option Text) (judged : A) (again : Text → A)
    → P judged
    → ((k : Text) → key ≡ some k → P (again k))
    → P (retried key judged again)
retried_with P none judged again p q = p
retried_with P (some key) judged again p q = q key refl

pub generate_api_key_lem : (o : Option Text) (k : Text) → generate_api_key o ≡ some k → o ≡ some k
unfolding generate_api_key
generate_api_key_lem none k e = cc
generate_api_key_lem (some key) k e = ground arith
