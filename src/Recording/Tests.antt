-- ===== src/Recording/Tests.antt =====
-- A recording of five bytes, and the theorems of this component at it.
use pvr_dispatcharrai.Prelude.{
  ℕ, zero, suc, ◌-◌, ◌*◌, ◌≡◌, refl, none, some, [], ◌∷◌, pos, take, drop, arith, true,
}
use pvr_dispatcharrai.Prelude.Text.{Text, codes}
use pvr_dispatcharrai.Http.{Reply}
use pvr_dispatcharrai.Recording.{
  RecordingClient, initial_recording, RecordingOpenEnv, open_recording, RecordingReadEnv,
  recording_range, read_recording,
}
use pvr_dispatcharrai.Recording.Content.{
  HasHonestFile, RecordingAnswer, read_recording-RecordingAnswer,
}
use pvr_dispatcharrai.Recording.Playback.{read_times, read_times_lem}

abbrev five_bytes : Text → Text
five_bytes url = 1 ∷ 2 ∷ 3 ∷ 4 ∷ 5 ∷ []

abbrev reply_of : ℕ → Text → Reply
reply_of code chunk = record {
  handle = true;
  sent_ok = true;
  http_code = code;
  headers = codes "Content-Range: bytes 0-0/5" ∷ [];
  chunks = chunk ∷ [];
}

abbrev if_zero : ℕ → Reply → Reply → Reply
if_zero zero a b = a
if_zero (suc n) a b = b

-- The first key is refused.
abbrev reopening : RecordingOpenEnv
reopening = record {
  perform = λ i key. record {
    reply = if_zero i (reply_of 401 []) (reply_of 206 []);
    effective_url = none;
    content_type = none;
  };
  regenerated = some (codes "k2");
}

abbrev file_url : Text
file_url = codes "http://h/7/file/"

abbrev closed_client : RecordingClient
closed_client = record { stream = initial_recording; api_key = codes "k" }

-- The second attempt opens it, and its header tells the length.
opens_with_new_key : (open_recording reopening file_url closed_client).1.stream.total ≡ pos 5
unfolding open_recording
opens_with_new_key = refl

-- The file from the digit on that begins the range, whatever its end.
abbrev from_digit : Text → Text
from_digit (d ∷ dash ∷ _) = drop (d - 48) (five_bytes [])
from_digit _ = []

abbrev serving : RecordingReadEnv
serving = record { get = λ i key url range. reply_of 206 (from_digit range); regenerated = none }

serving-HasHonestFile : HasHonestFile five_bytes serving
unfolding recording_range
serving-HasHonestFile i key url zero size h inside sent code = refl
serving-HasHonestFile i key url (suc zero) size h inside sent code = refl
serving-HasHonestFile i key url (suc (suc zero)) size h inside sent code = refl
serving-HasHonestFile i key url (suc (suc (suc zero))) size h inside sent code = refl
serving-HasHonestFile i key url (suc (suc (suc (suc zero)))) size h inside sent code = refl
serving-HasHonestFile i key url first size h inside sent code = absurd (omega arith)

abbrev playing : RecordingClient
playing = record {
  stream = record initial_recording { is_open = true; url = file_url; total = pos 5; position = 1 };
  api_key = codes "k";
}

read_recording-RecordingAnswer_example :
    RecordingAnswer five_bytes serving 3 playing (read_recording serving 3 playing)
read_recording-RecordingAnswer_example =
    read_recording-RecordingAnswer five_bytes serving 3 playing serving-HasHonestFile (omega arith)
      refl refl

read_times_lem_example : read_times serving 3 2 playing ≡ take (2 * 3) (2 ∷ 3 ∷ 4 ∷ 5 ∷ [])
read_times_lem_example =
    read_times_lem five_bytes serving 3 2 playing serving-HasHonestFile (λ i key url range. refl)
      (omega arith) refl refl
