-- ===== src/Rest/Tokens.antt =====
-- How many transfers a request takes, and when it gives an answer.
use pvr_dispatcharrai.Prelude.{
  ℕ, zero, suc, ◌+◌, ◌*◌, ◌≤◌, ◌≡◌, refl, ◌∙◌, Bool, true, false, if_both, if_split, Option, arith,
}
use pvr_dispatcharrai.Prelude.Text.{Text, codes, is_empty}
use pvr_dispatcharrai.Http.{is_success}
use pvr_dispatcharrai.Rest.{
  JsonApi, Sent, Server, Session, Response, answered, refused, no_libcurl, transfer_failed,
  bad_status, Transfer, not_sent, replied, transfer_of, transfer, parse_body, judge, judged,
  sent_plainly, request_plain, logged_in, login, refreshed, refresh_access_token, or_login,
  after_renewal, is_unauthorized, sent_with, request,
}

module _ {Json : Type 0} (api : JsonApi Json) (server : Server Json) where
  transfer-count :
      (sent : Sent Json) (s : Session) → (transfer server sent s).1.transfers ≡ suc s.transfers
  unfolding transfer
  transfer-count sent s =
      if_both (λ (r : Transfer Json × Session). r.1.transfers ≡ suc s.transfers)
        (server.handle s.transfers) refl refl

  logged_in-count :
      (r : Response Json × Session) → (logged_in api server r).1.transfers ≡ r.1.transfers
  unfolding logged_in
  logged_in-count (refused e, s) = refl
  logged_in-count (answered j, s) =
      if_both (λ (r : Bool × Session). r.1.transfers ≡ s.transfers) _ refl refl

  refreshed-count :
      (r : Response Json × Session) → (refreshed api server r).1.transfers ≡ r.1.transfers
  unfolding refreshed
  refreshed-count (refused e, s) = refl
  refreshed-count (answered j, s) =
      if_both (λ (r : Bool × Session). r.1.transfers ≡ s.transfers) _ refl refl

  request_plain-count :
      (method path : Text) (body : Json) (s : Session)
      → (request_plain api server method path body s).1.transfers ≡ suc s.transfers
  unfolding request_plain
  request_plain-count method path body s = transfer-count (sent_plainly method path body) s

  login-count : (s : Session) → (login api server s).1.transfers ≡ suc s.transfers
  unfolding login
  login-count s =
      logged_in-count (request_plain api server _ _ (api.credentials s.username s.password) s)
      ∙ request_plain-count _ _ (api.credentials s.username s.password) s

  refresh-count : (s : Session) → (refresh_access_token api server s).1.transfers ≤ suc s.transfers
  unfolding refresh_access_token
  refresh-count s =
      let body = api.refresh_body s.refresh_token in
      let asked =
        request_plain api server (codes "POST") (codes "/api/accounts/token/refresh/") body s in
      if_both (λ (r : Bool × Session). r.1.transfers ≤ suc s.transfers) (is_empty s.refresh_token)
        {x = (false, s)} {y = refreshed api server asked} (omega arith)
        (omega (
          arith,
          refreshed-count asked,
          request_plain-count (codes "POST") (codes "/api/accounts/token/refresh/") body s,
        ))

  or_login-count :
      (r : Bool × Session) (n : ℕ) → r.1.transfers ≤ n → (or_login api server r).1.transfers ≤ suc n
  unfolding or_login
  or_login-count (true, s) n h = omega arith
  or_login-count (false, s) n h = omega (arith, login-count s)

  -- What a request comes to: within this many transfers; and an answer, if any, is what the server
  -- said, with a status of success, to the request in the last transfer, under the token held.
  unfoldable pub Concludes : Text → Text → Option Json → ℕ → Response Json × Session → Type 0
  Concludes method path body most (refused e, t) = t.transfers ≤ most
  Concludes method path body most (answered j, t) =
      (t.transfers ≤ most)
      × (n : ℕ) × (t.transfers ≡ suc n)
      × (server.handle n ≡ true)
      × ((server.answer n (sent_with method path body t)).performed ≡ true)
      × (is_success (server.answer n (sent_with method path body t)).http_code ≡ true)
      × (parse_body api (server.answer n (sent_with method path body t)).response_body ≡ answered j)

  parsed-Concludes :
      (method path : Text) (body : Option Json) (s : Session) (most n : ℕ) (r : Response Json)
      → s.transfers ≤ most
      → s.transfers ≡ suc n
      → server.handle n ≡ true
      → (server.answer n (sent_with method path body s)).performed ≡ true
      → is_success (server.answer n (sent_with method path body s)).http_code ≡ true
      → parse_body api (server.answer n (sent_with method path body s)).response_body ≡ r
      → Concludes method path body most (r, s)
  unfolding Concludes
  parsed-Concludes method path body s most n (refused e) h i a b c d = h
  parsed-Concludes method path body s most n (answered j) h i a b c d = (h, n, i, a, b, c, d)

  judged-Concludes :
      (method path : Text) (body : Option Json) (s : Session) (most : ℕ)
      → suc s.transfers ≤ most
      → Concludes method path body most
          (judged api (transfer server (sent_with method path body s) s))
  unfolding transfer judge Concludes
  judged-Concludes method path body s most h =
      let n = s.transfers in
      let t = record s { transfers = suc n } in
      let a = server.answer n (sent_with method path body s) in
      let Goal = λ (r : Response Json × Session). Concludes method path body most r in
      if_split (λ (r : Transfer Json × Session). Goal (judged api r)) (server.handle n)
        {x = (transfer_of a, t)} {y = (not_sent no_libcurl, t)}
        (λ handle.
          if_split (λ (r : Transfer Json). Goal (judge api r, t)) a.performed
            {x = replied a.http_code a.response_body} {y = not_sent transfer_failed}
            (λ performed.
              if_split (λ (r : Response Json). Goal (r, t)) (is_success a.http_code)
                {x = parse_body api a.response_body} {y = refused (bad_status a.http_code)}
                (λ success.
                  parsed-Concludes method path body t most n (parse_body api a.response_body) h refl
                    handle performed success refl)
                (λ other. h))
            (λ broken. h))
        (λ missing. h)

  after_renewal-Concludes :
      (method path : Text) (body : Option Json) (most n : ℕ) (r : Bool × Session)
      (again : Session → Response Json × Session)
      → r.1.transfers ≤ n
      → n ≤ most
      → ((u : Session) → u.transfers ≤ n → Concludes method path body most (again u))
      → Concludes method path body most (after_renewal r again)
  unfolding after_renewal Concludes
  after_renewal-Concludes method path body most n (true, s) again h k g = g s h
  after_renewal-Concludes method path body most n (false, s) again h k g = omega arith

  requested :
      (retries most : ℕ) (method path : Text) (body : Option Json) (s : Session)
      → s.transfers + 3 * retries + 1 ≤ most
      → Concludes method path body most (request retries api server method path body s)
  unfolding request
  requested zero most method path body s h = judged-Concludes method path body s most (omega arith)
  requested (suc retries) most method path body s h =
      let r = transfer server (sent_with method path body s) s in
      let sent = transfer-count (sent_with method path body s) s in
      let renewed = or_login api server (refresh_access_token api server r.1) in
      let n = 3 + s.transfers in
      if_both (Concludes method path body most) (is_unauthorized r.0)
        {x = after_renewal renewed (λ u. request retries api server method path body u)}
        {y = judged api r}
        (after_renewal-Concludes method path body most n renewed
          (λ u. request retries api server method path body u)
          (omega (
            arith,
            or_login-count (refresh_access_token api server r.1) (suc r.1.transfers)
                (refresh-count r.1),
            sent,
          ))
          (omega arith)
          (λ u few. requested retries most method path body u (omega (arith, few, h))))
        (judged-Concludes method path body s most (omega arith))

  -- A request with authentication that may be retried `retries` times ends within 3 * retries + 1
  -- transfers, whatever the server answers. If it gives an answer, then this is the body of a
  -- reply with a status from 200 to 299, in the last transfer, to the request that carried the
  -- access token held at the end.
  pub request-Concludes :
      (retries : ℕ) (method path : Text) (body : Option Json) (s : Session)
      → Concludes method path body
          (s.transfers + 3 * retries + 1)
          (request retries api server method path body s)
  request-Concludes retries method path body s =
      requested retries (s.transfers + 3 * retries + 1) method path body s (omega arith)
