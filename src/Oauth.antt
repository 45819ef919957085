-- ===== src/Oauth.antt =====
-- internal/tokensource/oauth2source: the token endpoint of a client that signs a JWT with its
-- private key. The libraries are the record `Env` over a world `W`; the lock of the source is held
-- for the whole of `resolveTokenEndpoint`, so one call follows another.
pub mod Exchange
pub mod Laws
mod Tests
use ibdm.Base.{
  ℕ, ℤ, pos, ◌+◌, String, Bool, true, false, not, ◌&&◌, Option, none, some, List, [], ◌∷◌, ◌++◌,
  Err, message, wrap, Result, ok, err, ◌==◌, eqb, if◌then◌else◌,
}

abbrev pub err_discovery : String
err_discovery = "oauth2source discovery"

-- `token_endpoint` is the cache, "" for none.
pub record TokenSource : Type 0 where
  pub client_id : String
  pub issuer_url : String
  pub discovery_path : String
  pub discovery_url : String
  pub custom_scope : String
  pub token_endpoint : String

-- `discovery_path` is what loadConfigFromEnv reads, or its error.
unfoldable pub new_source :
    Result String
    → (client_id issuer_url discovery_url token_endpoint custom_scope : String) → Result TokenSource
new_source (err e) client_id issuer_url discovery_url token_endpoint custom_scope =
    err (wrap "oauth2source config" e)
new_source (ok path) client_id issuer_url discovery_url token_endpoint custom_scope = ok (record {
  client_id = client_id;
  issuer_url = issuer_url;
  discovery_path = path;
  discovery_url = discovery_url;
  custom_scope = custom_scope;
  token_endpoint = token_endpoint;
})

pub record Url : Type 0 where
  pub scheme : String
  pub host : String
  pub path : String
  pub others : List String

-- The parts of the JWT; times are counted in seconds.
pub record Claims : Type 0 where
  pub issuer : String
  pub subject : String
  pub audience : List String
  pub jwt_id : String
  pub issued_at : ℕ
  pub expiration : ℕ

-- A GET has no form.
pub record Request : Type 0 where
  pub method : String
  pub url : String
  pub form : List (String × String)

pub record Response : Type 0 where
  pub status : ℕ
  pub body : String

pub record Document : Type 0 where
  pub issuer : String
  pub token_endpoint : String

pub record TokenResponse : Type 0 where
  pub access_token : String
  pub token_type : String
  pub expires_in : ℤ

pub record Token : Type 0 where
  pub access_token : String
  pub token_type : String
  pub expiry : ℕ

pub record Env (W : Type 0) : Type 0 where
  -- url.JoinPath, url.Parse and URL.String; strings.ToLower and strings.TrimRight(s, "/")
  pub join_path : String → String → Result String
  pub parse_url : String → Option Url
  pub print_url : Url → String
  pub lower : String → String
  pub trim_slashes : String → String
  -- http.NewRequestWithContext by its error, and http.Client.Do
  pub new_request : Request → Option Err
  pub send_request : Request → W → Result Response × W
  pub decode_document : String → Result Document
  pub decode_token : String → Result TokenResponse
  -- uuid.NewRandom, and the builder of a JWT by its error, and the signature
  pub new_uuid : W → Result String × W
  pub build : Claims → Option Err
  pub sign : Claims → Result String
  pub now : W → ℕ
  -- now.Add(time.Duration(expiresIn) * time.Second)
  pub later : ℕ → ℤ → ℕ

-- p.tokenEndpoint = endpoint
abbrev pub with_endpoint : TokenSource → String → TokenSource
with_endpoint p endpoint = record {
  client_id = p.client_id;
  issuer_url = p.issuer_url;
  discovery_path = p.discovery_path;
  discovery_url = p.discovery_url;
  custom_scope = p.custom_scope;
  token_endpoint = endpoint;
}

module _ {W : Type 0} (env : Env W) where
  unfoldable pub normalize_issuer : String → String
  normalize_issuer raw = elim (env.parse_url raw) [
    | none ↦ env.trim_slashes raw
    | some parsed ↦ env.print_url (record {
      scheme = env.lower parsed.scheme;
      host = env.lower parsed.host;
      path = env.trim_slashes parsed.path;
      others = parsed.others;
    })
  ]

  abbrev pub discovery_error : String → Err → Err
  discovery_error what e = wrap err_discovery (wrap what e)

  unfoldable pub discovery_url_of : TokenSource → Result String
  discovery_url_of p =
      if p.discovery_url == ""
      then elim (env.join_path p.issuer_url p.discovery_path) [
        | err e ↦ err (discovery_error "failed to build discovery url" e)
        | ok joined ↦ ok joined
      ]
      else ok p.discovery_url

  -- The endpoint that a discovery document gives.
  unfoldable pub endpoint_of : TokenSource → Document → Result String
  unfolding normalize_issuer
  endpoint_of p doc =
      if not (p.issuer_url == "")
        && not (normalize_issuer doc.issuer == normalize_issuer p.issuer_url)
      then err (wrap err_discovery (wrap "issuer mismatch" (message doc.issuer)))
      else if doc.token_endpoint == ""
      then err (wrap err_discovery (message "discovery document is missing token_endpoint"))
      else ok doc.token_endpoint

  unfoldable pub read_document : TokenSource → Result Response → Result String
  unfolding endpoint_of
  read_document p (err e) = err (discovery_error "failed to fetch discovery document" e)
  read_document p (ok resp) =
      if eqb resp.status 200
      then elim (env.decode_document resp.body) [
        | err e ↦ err (discovery_error "failed to decode discovery document" e)
        | ok doc ↦ endpoint_of p doc
      ]
      else err (discovery_error "upstream discovery failed" (message resp.body))

  unfoldable pub discover : TokenSource → W → Result String × W
  unfolding discovery_url_of read_document
  discover p w = elim (discovery_url_of p) [
    | err e ↦ (err e, w)
    | ok url ↦
        let req : Request = record { method = "GET"; url = url; form = [] } in
        elim (env.new_request req) [
          | some e ↦ (err (discovery_error "failed to build discovery request" e), w)
          | none ↦ (let (r, w') = env.send_request req w in (read_document p r, w'))
        ]
  ]

  unfoldable pub resolve_token_endpoint : TokenSource → W → Result String × (TokenSource × W)
  unfolding discover
  resolve_token_endpoint p w =
      if p.token_endpoint == ""
      then (let (r, w') = discover p w in
          elim r [
            | err e ↦ (err e, (p, w'))
            | ok endpoint ↦ (ok endpoint, (with_endpoint p endpoint, w'))
          ])
      else (ok p.token_endpoint, (p, w))
