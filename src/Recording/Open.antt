-- ===== src/Recording/Open.antt =====
-- What OpenRecordingStream leaves, on every path.
use pvr_dispatcharrai.Prelude.{ℕ, ◌≡◌, true, false, ◌⊎◌, some}
use pvr_dispatcharrai.Prelude.Text.{Text}
use pvr_dispatcharrai.Http.{is_success}
use pvr_dispatcharrai.Recording.{
  initial_recording, RecordingClient, OpenReply, RecordingOpenEnv, RecordingStatus, rec_ok,
  no_libcurl, request_failed, hls_playlist, unauthorized, bad_status, is_hls, opened_stream,
}

-- A reply that a stream is opened on.
pub record IsGood (url : Text) (r : OpenReply) : Type 0 where
  pub sent : r.reply.sent_ok ≡ true
  pub success : is_success r.reply.http_code ≡ true
  pub no_playlist : is_hls url r ≡ false

-- The request that an open stops at: the first one, under the key `key`; or the second one, after
-- the first ended with 401, under the key that was regenerated then.
abbrev AsksOpen : RecordingOpenEnv → Text → ℕ → Text → Type 0
AsksOpen env key i k =
    (i ≡ 0) × (k ≡ key)
    ⊎ (i ≡ 1)
      × ((env.perform 0 key).reply.sent_ok ≡ true)
      × ((env.perform 0 key).reply.http_code ≡ 401)
      × (env.regenerated ≡ some k)

-- `P` holds of the reply that the open stopped at, under the key that is kept.
abbrev Settled : RecordingOpenEnv → Text → RecordingClient → (OpenReply → Type 0) → Type 0
Settled env key c P = (i : ℕ) × AsksOpen env key i c.api_key × P (env.perform i c.api_key)

-- What an open that starts with key `key` leaves: on success the stream made of the reply that it
-- stopped at, which is a good one, at byte 0; on failure the closed stream, and the reply tells
-- the error.
abbrev pub OpensRecording :
    RecordingOpenEnv → Text → Text → RecordingStatus × RecordingClient → Type 0
OpensRecording env key url (rec_ok, c) =
    Settled env key c (λ r. IsGood url r × (c.stream ≡ opened_stream url r))
OpensRecording env key url (no_libcurl, c) =
    (c.stream ≡ initial_recording) × Settled env key c (λ r. r.reply.handle ≡ false)
OpensRecording env key url (request_failed, c) =
    (c.stream ≡ initial_recording) × Settled env key c (λ r. r.reply.sent_ok ≡ false)
OpensRecording env key url (hls_playlist, c) =
    (c.stream ≡ initial_recording) × Settled env key c (λ r. is_hls url r ≡ true)
OpensRecording env key url (unauthorized, c) = ⊥
OpensRecording env key url (bad_status n, c) =
    (c.stream ≡ initial_recording)
    × (is_success n ≡ false)
    × Settled env key c (λ r. r.reply.http_code ≡ n)
