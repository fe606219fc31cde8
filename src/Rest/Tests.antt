-- ===== src/Rest/Tests.antt =====
-- A server that refuses the first token, and the theorem of this component at it. A JSON value is
-- a text that stands for its field `access`.
use pvr_dispatcharrai.Prelude.{ℕ, zero, suc, ◌+◌, ◌*◌, ◌≡◌, refl, true, not, none, []}
use pvr_dispatcharrai.Prelude.Text.{Text, codes, is_empty}
use pvr_dispatcharrai.Rest.{
  JsonApi, parsed, ServerAnswer, Server, Session, request, get_access_token,
}
use pvr_dispatcharrai.Rest.Tokens.{Concludes, request-Concludes}

abbrev texts_as_json : JsonApi Text
texts_as_json = record {
  empty_object = [];
  credentials = λ name word. [];
  refresh_body = λ token. token;
  contains_key = λ j key. not (is_empty j);
  field_or = λ j key default. j;
}

-- The first request is refused, and so is the refresh; the login is not.
abbrev answers : ℕ → ServerAnswer Text
answers zero = record { performed = true; http_code = 401; response_body = parsed [] }
answers (suc zero) = record { performed = true; http_code = 401; response_body = parsed [] }
answers (suc (suc n)) = record {
  performed = true;
  http_code = 200;
  response_body = parsed (codes "new");
}

abbrev strict : Server Text
strict = record { handle = λ n. true; answer = λ n sent. answers n; now = λ n. n }

abbrev stale : Session
stale = record {
  username = codes "u";
  password = codes "p";
  access_token = codes "old";
  refresh_token = codes "r";
  access_token_expiry = 0;
  transfers = 0;
}

request-Concludes_example :
    Concludes texts_as_json strict
      (codes "GET")
      (codes "/api/")
      none
      (0 + 3 * 1 + 1)
      (request 1 texts_as_json strict (codes "GET") (codes "/api/") none stale)
request-Concludes_example =
    request-Concludes texts_as_json strict 1 (codes "GET") (codes "/api/") none stale

-- Refused, refresh refused, login, and the request again.
takes_four :
    (request 1 texts_as_json strict (codes "GET") (codes "/api/") none stale).1.transfers ≡ 4
unfolding request
takes_four = refl

-- The refresh and the login are both refused.
both_refused : (get_access_token texts_as_json strict stale).0 ≡ none
unfolding get_access_token
both_refused = refl
