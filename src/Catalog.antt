-- ===== src/Catalog.antt =====
-- internal/destination/catalog: the destination that sends items to the Catalog API. What the
-- libraries do is the record `Env` over a world `W`; a private key file is read to `Key`, and the
-- choice of NewTransport is the data type `Transport`.
pub mod Auth
pub mod Laws
mod Tests
use ibdm.Base.{
  ℕ, String, Bool, true, false, not, ◌&&◌, ◌||◌, Option, none, some, List, [], ◌∷◌, Err, message,
  wrap, is_canceled, Result, ok, err, is_some, ◌==◌, eqb, if◌then◌else◌,
}
use ibdm.Value.{Fields, get_field, as_text}
use ibdm.Catalog.Auth.{Settings, is_set, validate_auth_config}
use ibdm.Destination
use ibdm.Destination.{Sender, marshal_json}

-- `handleError`, after the first error of an env.AggregateError is taken; a cancellation is no
-- error.
unfoldable pub handle_error : Err → Option Err
unfolding is_canceled
handle_error e = if is_canceled e then none else some (wrap "catalog" e)

-- handleError returns nil for a cancellation, and a nil destination with it.
abbrev pub failed : {A : Type 0} → Err → Result (Option A)
failed e = elim (handle_error e) [ none ↦ ok none | some f ↦ err f ]

pub record Response : Type 0 where
  pub status : ℕ
  pub body : String

pub record Request : Type 0 where
  pub method : String
  pub url : String
  pub body : String
  pub headers : List (String × String)

-- The token source behind the requests of a client.
pub data Transport (Key : Type 0) : Type 0 where
  default_transport : Transport Key
  client_credentials : (client_id client_secret token_url : String) → Transport Key
  private_key_jwt :
      (client_id issuer issuer_metadata token_endpoint custom_scope : String) → Key → Transport Key

pub record Env (Key W : Type 0) : Type 0 where
  -- url.Parse by its error, and the endpoint with the path /oauth/token
  pub parse_url : String → Option Err
  pub token_url : String → String
  -- jwk.LoadKeys; a file can hold no private key
  pub load_keys : String → Result (Option Key)
  -- oauth2source.NewSource, by its error
  pub new_source : Transport Key → Option Err
  -- json.Marshal
  pub encode : Fields → Result String
  -- http.NewRequestWithContext by its error, and http.Client.Do
  pub new_request : Request → Option Err
  pub send_request : Transport Key → Request → W → Result Response × W
  pub decode : String → Result Fields
  pub user_agent : String

-- `client` is none until the first request; `private_key` is keys.PrivateKey.
pub record CatalogDestination (Key : Type 0) : Type 0 where
  pub settings : Settings
  pub private_key : Option Key
  pub client : Option (Transport Key)

abbrev pub source_of : {Key : Type 0} → Settings → Key → Transport Key
source_of s key =
    private_key_jwt s.client_id s.issuer s.issuer_metadata s.token_endpoint s.custom_scope key

module _ {Key W : Type 0} (env : Env Key W) where
  -- The error of an URL that is set.
  abbrev pub check_url : String → String → Option Err
  check_url describe url =
      if is_set url
      then elim (env.parse_url url) [ none ↦ none | some e ↦ some (wrap describe e) ]
      else none

  -- The checks one after the other, and what stands after them.
  abbrev pub checked : {A : Type 0} → List (Option Err) → A → Result (Option A)
  checked [] a = ok (some a)
  checked (none ∷ checks) a = checked checks a
  checked (some e ∷ checks) a = failed e

  abbrev pub keys_of : String → Result (Option Key)
  keys_of path = if is_set path then env.load_keys path else ok none

  unfoldable pub with_auth_endpoint : Settings → Settings
  with_auth_endpoint s = record {
    catalog_endpoint = s.catalog_endpoint;
    client_id = s.client_id;
    client_secret = s.client_secret;
    private_key_path = s.private_key_path;
    auth_endpoint =
        if is_set s.auth_endpoint then s.auth_endpoint else env.token_url s.catalog_endpoint;
    issuer = s.issuer;
    issuer_metadata = s.issuer_metadata;
    token_endpoint = s.token_endpoint;
    custom_scope = s.custom_scope;
  }

  -- `parsed` is what github.com/caarlos0/env reads.
  unfoldable pub new_destination : Result Settings → Result (Option (CatalogDestination Key))
  unfolding handle_error validate_auth_config with_auth_endpoint
  new_destination (err e) = failed e
  new_destination (ok s) = elim (env.parse_url s.catalog_endpoint) [
    | some e ↦ failed (wrap "invalid MIA_CATALOG_ENDPOINT" e)
    | none ↦ elim (validate_auth_config s) [
      | some e ↦ failed e
      | none ↦ elim (keys_of s.private_key_path) [
        | err e ↦ failed e
        | ok private_key ↦
            checked
              (check_url "invalid MIA_CATALOG_AUTH_ENDPOINT" s.auth_endpoint
                ∷ check_url "invalid MIA_CATALOG_ISSUER" s.issuer
                ∷ check_url "invalid MIA_CATALOG_ISSUER_METADATA" s.issuer_metadata
                ∷ check_url "invalid MIA_CATALOG_TOKEN_ENDPOINT" s.token_endpoint
                ∷ [])
              (record { settings = with_auth_endpoint s; private_key = private_key; client = none })
      ]
    ]
  ]

  unfoldable pub new_transport : Settings → Option Key → Result (Transport Key)
  new_transport s keys =
      if is_set s.client_id && is_set s.client_secret
      then ok (client_credentials s.client_id s.client_secret s.auth_endpoint)
      else elim keys [
        | none ↦ ok default_transport
        | some key ↦
            if is_set s.client_id
            then elim (env.new_source (source_of s key)) [
              | some e ↦ err e
              | none ↦ ok (source_of s key)
            ]
            else ok default_transport
      ]

  -- The client is built once, when that succeeds.
  unfoldable pub get_client :
      CatalogDestination Key → Result (Transport Key) × CatalogDestination Key
  unfolding new_transport
  get_client d = elim d.client [
    | some client ↦ (ok client, d)
    | none ↦ elim (new_transport d.settings d.private_key) [
      | err e ↦ (err e, d)
      | ok transport ↦ (
        ok transport,
        record { settings = d.settings; private_key = d.private_key; client = some transport },
      )
    ]
  ]

  -- The text under "message" of an answer that is a JSON object.
  abbrev pub body_message : String → String
  body_message body = elim (env.decode body) [
    | err e ↦ "unexpected error"
    | ok resp_body ↦ elim (as_text (get_field "message" resp_body)) [
      | none ↦ "unexpected error"
      | some m ↦ m
    ]
  ]

  -- The switch on the status of an answer.
  unfoldable pub answer_error : Response → Option Err
  unfolding handle_error get_field
  answer_error resp =
      if eqb resp.status 401
      then handle_error (message "invalid credentials")
      else if eqb resp.status 403
      then handle_error (message "insufficient permissions")
      else if eqb resp.status 404
      then handle_error (message "integration registration not found")
      else if eqb resp.status 204
      then none
      else handle_error (message (body_message resp.body))

  abbrev pub request_of : Settings → String → String → Request
  request_of s method body = record {
    method = method;
    url = s.catalog_endpoint;
    body = body;
    headers =
        ("User-Agent", env.user_agent)
        ∷ ("Accept", "application/json")
        ∷ ("Content-Type", "application/json")
        ∷ [];
  }

  unfoldable pub handle_request :
      String
      → Destination.Data
      → CatalogDestination Key × W
      → Option Err × (CatalogDestination Key × W)
  unfolding get_client answer_error handle_error marshal_json
  handle_request method item (d, w) = elim (env.encode (marshal_json item)) [
    | err e ↦ (handle_error e, (d, w))
    | ok body ↦ elim (env.new_request (request_of d.settings method body)) [
      | some e ↦ (handle_error e, (d, w))
      | none ↦
          let (r, d') = get_client d in
          elim r [
            | err e ↦ (handle_error e, (d', w))
            | ok client ↦
                let (s, w') = env.send_request client (request_of d.settings method body) w in
                (elim s [ err e ↦ handle_error e | ok resp ↦ answer_error resp ], (d', w'))
          ]
    ]
  ]

  -- The interface `destination.Sender`; there is no request with the method DELETE.
  unfoldable pub catalog : Sender (CatalogDestination Key × W)
  unfolding handle_request
  catalog = record {
    send_data = λ item w. handle_request "POST" item w;
    delete_data = λ item w. handle_request "POST" item w;
  }
