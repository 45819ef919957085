-- ===== src/Nexus.antt =====
-- internal/source/nexus: config.go, client.go and source.go. `decode_components` is the decoder for a
-- page of components, with its items and its continuation token.
pub mod Laws
pub mod Sync
pub mod Processors
pub mod Webhook
mod Tests
use ibdm.Base.{
  ℕ, String, Bool, true, false, Option, none, some, List, [], ◌∷◌, ◌++◌, Err, message, wrap,
  is_canceled, Result, ok, err, eqb, ◌==◌, if◌then◌else◌,
}
use ibdm.Value.{Fields}
use ibdm.Effect.{Effect, ◌>>=◌, ◌>>◌, fail, lift, wrapping}
use ibdm.Http.{Web, Request, Response, concat, create, send}

pub record Config : Type 0 where
  pub url_schema : String
  pub url_host : String
  pub token_name : String
  pub token_passcode : String
  pub specific_repository : String

pub record WebhookConfig : Type 0 where
  pub webhook_secret : String
  pub webhook_path : String

abbrev pub err_missing_env_variable : String
err_missing_env_variable = "missing environment variable"

abbrev pub err_invalid_env_variable : String
err_invalid_env_variable = "invalid environment value"

abbrev pub err_nexus_source : String
err_nexus_source = "nexus source"

-- The name of a variable that is empty.
abbrev pub if_empty : String → String → List String
if_empty value name = if value == "" then name ∷ [] else []

unfoldable pub missing_variables : Config → List String
missing_variables cfg =
    if_empty cfg.url_schema "NEXUS_URL_SCHEMA"
    ++ if_empty cfg.url_host "NEXUS_URL_HOST"
    ++ if_empty cfg.token_name "NEXUS_TOKEN_NAME"
    ++ if_empty cfg.token_passcode "NEXUS_TOKEN_PASSCODE"

abbrev pub join_names : List String → String
join_names [] = ""
join_names (name ∷ []) = name
join_names (name ∷ (other ∷ names)) = concat name (concat ", " (join_names (other ∷ names)))

abbrev pub missing_error : List String → Option Err
missing_error [] = none
missing_error (name ∷ names) =
    some (wrap err_missing_env_variable (message (join_names (name ∷ names))))

unfoldable pub validate_config : Config → Option Err
unfolding missing_variables
validate_config cfg = missing_error (missing_variables cfg)

-- `parsed` is what github.com/caarlos0/env reads.
unfoldable pub load_config_from_env : Result Config → Result Config
unfolding validate_config
load_config_from_env (err e) = err e
load_config_from_env (ok cfg) = elim (validate_config cfg) [ some e ↦ err e | none ↦ ok cfg ]

-- The error that is returned for one: none for a cancellation.
unfoldable pub handle_err : Err → Option Err
unfolding is_canceled
handle_err e = if is_canceled e then none else some (wrap err_nexus_source e)

pub record Client : Type 0 where
  pub base_url : String
  pub token_name : String
  pub token_passcode : String

pub record Source : Type 0 where
  pub config : Config
  pub webhook_config : WebhookConfig
  pub client : Client

module _ {W : Type 0} (web : Web W) where
  unfoldable pub new_client : Config → Result Client
  new_client cfg =
      let base = concat cfg.url_schema (concat "://" cfg.url_host) in
      elim (web.parse_url base) [
        | some e ↦ err (wrap err_invalid_env_variable e)
        | none ↦ ok (record {
          base_url = base;
          token_name = cfg.token_name;
          token_passcode = cfg.token_passcode;
        })
      ]

  -- A nil source without an error is `ok none`.
  abbrev pub refused : Err → Result (Option Source)
  refused e = elim (handle_err e) [ none ↦ ok none | some f ↦ err f ]

  unfoldable pub new_source : Result Config → Result WebhookConfig → Result (Option Source)
  unfolding load_config_from_env handle_err new_client
  new_source parsed parsed_webhook = elim (load_config_from_env parsed) [
    | err e ↦ refused e
    | ok cfg ↦ elim parsed_webhook [
      | err e ↦ refused e
      | ok wh_cfg ↦ elim (new_client cfg) [
        | err e ↦ refused e
        | ok c ↦ ok (some (record { config = cfg; webhook_config = wh_cfg; client = c }))
      ]
    ]
  ]

  module _ (c : Client) where
    abbrev pub request_for : String → List (String × String) → Request
    request_for path query_params = record {
      method = "GET";
      url = c.base_url;
      path = concat "/service/rest" path;
      query = query_params;
      headers =
          ("Authorization", web.basic_auth c.token_name c.token_passcode)
          ∷ ("Accept", "application/json")
          ∷ [];
      body = "";
    }

    unfoldable pub do_request : String → List (String × String) → Effect W Response
    do_request path query_params = do
      create web (request_for path query_params)
      send web (request_for path query_params)

    abbrev pub read_error_response : Response → Err
    read_error_response resp = wrap "nexus API returned status" (message resp.body)

    -- The body of an answer with status 200, decoded.
    unfoldable pub decoded :
        {A : Type 0} → String → (String → Result A) → String → List (String × String) → Effect W A
    unfolding do_request
    decoded sentinel decode path query_params = do
      resp ← do_request path query_params
      if eqb resp.status 200
          then wrapping sentinel (lift (decode resp.body))
          else fail (read_error_response resp)

    unfoldable pub list_repositories : Effect W (List Fields)
    unfolding decoded
    list_repositories =
        decoded "failed to decode repositories response" web.decode_objects "/v1/repositories" []

    unfoldable pub get_repository : String → Effect W Fields
    unfolding decoded
    get_repository name =
        decoded "failed to decode repository response" web.decode_object
          (concat "/v1/repositories/" (web.escape name)) []

    unfoldable pub get_component : String → Effect W Fields
    unfolding decoded
    get_component id =
        decoded "failed to decode component response" web.decode_object
          (concat "/v1/components/" (web.escape id)) []

    abbrev pub component_params : String → String → List (String × String)
    component_params repository continuation_token =
        if continuation_token == ""
        then ("repository", repository) ∷ []
        else ("repository", repository) ∷ ("continuationToken", continuation_token) ∷ []

    unfoldable pub list_components_page :
        (String → Result (List Fields × Option String))
        → String
        → String
        → Effect W (List Fields × Option String)
    unfolding decoded
    list_components_page decode_components repository continuation_token =
        decoded "failed to decode components response" decode_components "/v1/components"
          (component_params repository continuation_token)
