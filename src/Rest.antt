-- ===== src/Rest.antt =====
-- The requests of DispatcharrClient and their authentication: Request, Login, RefreshAccessToken,
-- EnsureAuthenticated and GetAccessToken of src/DispatcharrClient.cpp. The JSON library and the
-- server are arguments.
pub mod Tokens
mod Tests
use pvr_dispatcharrai.Prelude.{
  ℕ, zero, suc, ◌+◌, Bool, true, false, ◌==◌, ◌&&◌, ◌||◌, not, ltb, leb, if◌then◌else◌, Option,
  none, some, [], [],
}
use pvr_dispatcharrai.Prelude.Text.{Text, codes, is_empty}
use pvr_dispatcharrai.Http.{is_success}

-- What the code uses of a JSON value: `contains`, FieldOr for a text, and the bodies that it makes.
pub record JsonApi (Json : Type 0) : Type 0 where
  pub empty_object : Json
  pub credentials : Text → Text → Json
  pub refresh_body : Text → Json
  pub contains_key : Json → Text → Bool
  pub field_or : Json → Text → Text → Text

-- The body of a reply, after `json::parse`.
pub data Parsed (Json : Type 0) : Type 0 where
  no_body malformed : Parsed Json
  parsed : Json → Parsed Json

-- What is sent: the token is that of the header `Authorization`.
pub record Sent (Json : Type 0) : Type 0 where
  pub method : Text
  pub path : Text
  pub body : Option Json
  pub token : Option Text

pub record ServerAnswer (Json : Type 0) : Type 0 where
  pub performed : Bool
  pub http_code : ℕ
  pub response_body : Parsed Json

-- The n-th transfer, and the clock in seconds after n transfers.
pub record Server (Json : Type 0) : Type 0 where
  pub handle : ℕ → Bool
  pub answer : ℕ → Sent Json → ServerAnswer Json
  pub now : ℕ → ℕ

-- The members of DispatcharrClient for it, and the number of transfers so far.
pub record Session : Type 0 where
  pub username : Text
  pub password : Text
  pub access_token : Text
  pub refresh_token : Text
  pub access_token_expiry : ℕ
  pub transfers : ℕ

-- The errors of Request, Login and RefreshAccessToken.
pub data Failure : Type 0 where
  no_libcurl transfer_failed authentication_failed bad_json no_access no_refresh_token : Failure
  bad_status : ℕ → Failure

pub data Response (Json : Type 0) : Type 0 where
  answered : Json → Response Json
  refused : Failure → Response Json

-- `curl_easy_perform` with its status.
pub data Transfer (Json : Type 0) : Type 0 where
  not_sent : Failure → Transfer Json
  replied : ℕ → Parsed Json → Transfer Json

abbrev pub bearer : Bool → Session → Option Text
bearer with_auth s =
    if with_auth && not (is_empty s.access_token) then some s.access_token else none

abbrev pub access : Text
access = codes "access"

abbrev pub token_of : Bool × Session → Option Text × Session
token_of (true, s) = (some s.access_token, s)
token_of (false, s) = (none, s)

module _ {Json : Type 0} where
  abbrev pub transfer_of : ServerAnswer Json → Transfer Json
  transfer_of a =
      if a.performed then replied a.http_code a.response_body else not_sent transfer_failed

  unfoldable pub transfer : Server Json → Sent Json → Session → Transfer Json × Session
  transfer server sent s =
      if server.handle s.transfers
      then (transfer_of (server.answer s.transfers sent), record s { transfers = suc s.transfers })
      else (not_sent no_libcurl, record s { transfers = suc s.transfers })

  abbrev pub parse_body : JsonApi Json → Parsed Json → Response Json
  parse_body api no_body = answered api.empty_object
  parse_body api malformed = refused bad_json
  parse_body api (parsed j) = answered j

  -- The end of Request.
  unfoldable pub judge : JsonApi Json → Transfer Json → Response Json
  judge api (not_sent e) = refused e
  judge api (replied code body) =
      if is_success code then parse_body api body else refused (bad_status code)

  abbrev pub judged : JsonApi Json → Transfer Json × Session → Response Json × Session
  judged api r = (judge api r.0, r.1)

  abbrev pub sent_plainly : Text → Text → Json → Sent Json
  sent_plainly method path body = record {
    method = method;
    path = path;
    body = some body;
    token = none;
  }

  -- Request without authentication, and with no retry.
  unfoldable pub request_plain :
      JsonApi Json → Server Json → Text → Text → Json → Session → Response Json × Session
  unfolding transfer judge
  request_plain api server method path body s =
      judged api (transfer server (sent_plainly method path body) s)

  unfoldable pub logged_in : JsonApi Json → Server Json → Response Json × Session → Bool × Session
  logged_in api server (refused e, s) = (false, s)
  logged_in api server (answered j, s) =
      if api.contains_key j access
      then (
        true,
        record s {
          access_token = api.field_or j access [];
          refresh_token = api.field_or j (codes "refresh") s.refresh_token;
          access_token_expiry = server.now s.transfers + 240;
        },
      )
      else (false, s)

  -- Login.
  unfoldable pub login : JsonApi Json → Server Json → Session → Bool × Session
  unfolding request_plain logged_in
  login api server s = logged_in api server (
      request_plain api server (codes "POST") (codes "/api/accounts/token/")
        (api.credentials s.username s.password) s)

  unfoldable pub refreshed : JsonApi Json → Server Json → Response Json × Session → Bool × Session
  refreshed api server (refused e, s) = (false, s)
  refreshed api server (answered j, s) =
      if api.contains_key j access
      then (
        true,
        record s {
          access_token = api.field_or j access [];
          access_token_expiry = server.now s.transfers + 240;
        },
      )
      else (false, s)

  -- RefreshAccessToken.
  unfoldable pub refresh_access_token : JsonApi Json → Server Json → Session → Bool × Session
  unfolding request_plain refreshed
  refresh_access_token api server s =
      if is_empty s.refresh_token
      then (false, s)
      else refreshed api server (
          request_plain api server (codes "POST") (codes "/api/accounts/token/refresh/")
            (api.refresh_body s.refresh_token) s)

  unfoldable pub or_login : JsonApi Json → Server Json → Bool × Session → Bool × Session
  unfolding login
  or_login api server (true, s) = (true, s)
  or_login api server (false, s) = login api server s

  unfoldable pub after_renewal :
      Bool × Session → (Session → Response Json × Session) → Response Json × Session
  after_renewal (true, s) again = again s
  after_renewal (false, s) again = (refused authentication_failed, s)

  abbrev pub is_unauthorized : Transfer Json → Bool
  is_unauthorized (not_sent e) = false
  is_unauthorized (replied code body) = code == 401

  abbrev pub sent_with : Text → Text → Option Json → Session → Sent Json
  sent_with method path body s = record {
    method = method;
    path = path;
    body = body;
    token = bearer true s;
  }

  -- Request with authentication.
  unfoldable pub request :
      ℕ → JsonApi Json → Server Json → Text → Text → Option Json → Session → Response Json × Session
  unfolding transfer judge refresh_access_token or_login after_renewal
  request zero api server method path body s =
      judged api (transfer server (sent_with method path body s) s)
  request (suc retries) api server method path body s =
      let r = transfer server (sent_with method path body s) s in
      let renewed =
        after_renewal (or_login api server (refresh_access_token api server r.1))
          (λ u. request retries api server method path body u) in
      if is_unauthorized r.0 then renewed else judged api r

  -- EnsureAuthenticated.
  unfoldable pub ensure_authenticated : JsonApi Json → Server Json → Session → Bool × Session
  unfolding or_login refresh_access_token
  ensure_authenticated api server s =
      if not (is_empty s.access_token) && ltb (server.now s.transfers) s.access_token_expiry
      then (true, s)
      else or_login api server (refresh_access_token api server s)

  -- GetAccessToken.
  unfoldable pub get_access_token : JsonApi Json → Server Json → Session → Option Text × Session
  unfolding ensure_authenticated
  get_access_token api server s = token_of (ensure_authenticated api server s)
