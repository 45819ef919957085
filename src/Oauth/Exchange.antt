-- ===== src/Oauth/Exchange.antt =====
-- The exchange of a signed assertion for a token, `Token` of internal/tokensource/oauth2source.
use ibdm.Base.{
  ℕ, ◌+◌, String, none, some, List, [], ◌∷◌, Err, message, wrap, Result, ok, err, ◌==◌, eqb,
  if◌then◌else◌,
}
use ibdm.Oauth.{TokenSource, Claims, Request, Response, Token, Env, resolve_token_endpoint}

abbrev pub err_token_exchange : String
err_token_exchange = "oauth2source token exchange"

module _ {W : Type 0} (env : Env W) where
  abbrev pub exchange_error : String → Err → Err
  exchange_error what e = wrap err_token_exchange (wrap what e)

  -- The assertion is valid for five minutes.
  unfoldable pub signed_assertion : TokenSource → ℕ → String → W → Result String × W
  signed_assertion p now token_endpoint w =
      let (r, w') = env.new_uuid w in
      (
        elim r [
          | err e ↦ err (exchange_error "failed to generate jti" e)
          | ok jti ↦
              let claims : Claims = record {
                issuer = p.client_id;
                subject = p.client_id;
                audience = token_endpoint ∷ [];
                jwt_id = jti;
                issued_at = now;
                expiration = now + 300;
              } in
              elim (env.build claims) [
                | some e ↦ err (exchange_error "failed to build token payload" e)
                | none ↦ elim (env.sign claims) [
                  | err e ↦ err (exchange_error "failed to sign token" e)
                  | ok signed ↦ ok signed
                ]
              ]
        ],
        w',
      )

  unfoldable pub token_form : TokenSource → String → List (String × String)
  token_form p assertion =
      ("grant_type", "client_credentials")
      ∷ ("client_assertion_type", "urn:ietf:params:oauth:client-assertion-type:jwt-bearer")
      ∷ ("client_assertion", assertion)
      ∷ ("client_id", p.client_id)
      ∷ ("token_endpoint_auth_method", "private_key_jwt")
      ∷ (if p.custom_scope == "" then [] else ("scope", p.custom_scope) ∷ [])

  unfoldable pub read_token : ℕ → Result Response → Result Token
  read_token now (err e) = err (exchange_error "failed to exchange jwt assertion" e)
  read_token now (ok resp) =
      if eqb resp.status 200
      then elim (env.decode_token resp.body) [
        | err e ↦ err (exchange_error "failed to decode token response" e)
        | ok answer ↦ ok (record {
          access_token = answer.access_token;
          token_type = answer.token_type;
          expiry = env.later now answer.expires_in;
        })
      ]
      else err (exchange_error "upstream token exchange failed" (message resp.body))

  unfoldable pub token : TokenSource → W → Result Token × (TokenSource × W)
  unfolding resolve_token_endpoint signed_assertion token_form read_token
  token p w =
      let now = env.now w in
      let (r, (p', w')) = resolve_token_endpoint env p w in
      elim r [
        | err e ↦ (err e, (p', w'))
        | ok token_endpoint ↦
            let (s, w'') = signed_assertion p' now token_endpoint w' in
            elim s [
              | err e ↦ (err e, (p', w''))
              | ok assertion ↦
                  let req : Request = record {
                    method = "POST";
                    url = token_endpoint;
                    form = token_form p' assertion;
                  } in
                  elim (env.new_request req) [
                    | some e ↦ (err (exchange_error "failed to build token request" e), (p', w''))
                    | none ↦
                        (let (t, final) = env.send_request req w'' in
                          (read_token now t, (p', final)))
                  ]
            ]
      ]
