-- ===== src/Devops.antt =====
-- internal/source/azure-devops: config.go, client.go, sync.go and devops.go. `decode_results` is the
-- decoder for the values of an answer. The loop over pages has no bound in the code; here it runs on
-- fuel. A URL is joined with a path and encoded by net/url, which the request leaves open.
pub mod Laws
pub mod Webhook
mod Tests
use ibdm.Base.{
  ℕ, zero, suc, ◌+◌, ◌-◌, String, Bool, true, false, ◌&&◌, ◌||◌, not, Option, none, some, List, [],
  ◌∷◌, Err, message, wrap, is_canceled, Result, ok, err, ltb, ◌==◌, if◌then◌else◌,
}
use ibdm.Value.{Value, Fields, get_field, as_text, as_object, as_slice}
use ibdm.Source.{Data, DataOperation, upsert, delete}
use ibdm.Effect.{Effect, ◌>>=◌, ◌>>◌, pure, fail, lift, check, attempt, each, out_of_fuel}
use ibdm.Http.{Web, Request, Response, concat, create, send, emit, clock}

pub record Config : Type 0 where
  pub organization_url : String
  pub personal_token : String
  pub webhook_path : String
  pub webhook_user : String
  pub webhook_password : String

abbrev pub err_missing_env_variable : String
err_missing_env_variable = "missing environment variable"

abbrev pub err_invalid_env_variable : String
err_invalid_env_variable = "invalid environment value"

abbrev pub err_devops_source : String
err_devops_source = "azure devops source"

abbrev pub err_no_authentication_header_found : String
err_no_authentication_header_found = "no authentication header found in request"

abbrev pub err_multiple_authentication_headers_found : String
err_multiple_authentication_headers_found = "multiple authentication headers found in request"

abbrev pub err_invalid_authentication_type : String
err_invalid_authentication_type = "invalid authentication type in request"

abbrev pub err_unauthorized : Err
err_unauthorized = message "unauthorized request"

abbrev pub err_invalid_webhook_payload : String
err_invalid_webhook_payload = "invalid webhook payload"

unfoldable pub validate_for_sync : Config → Option Err
validate_for_sync c =
    if c.organization_url == ""
    then some (wrap err_missing_env_variable (message "AZURE_DEVOPS_ORGANIZATION_URL"))
    else if c.personal_token == ""
    then some (wrap err_missing_env_variable (message "AZURE_DEVOPS_PERSONAL_TOKEN"))
    else none

unfoldable pub validate_for_webhook : Config → Option Err
validate_for_webhook c =
    if not (c.webhook_user == "") && c.webhook_password == ""
    then some (
        wrap err_invalid_env_variable (
          message
            "if AZURE_DEVOPS_WEBHOOK_USER is set, AZURE_DEVOPS_WEBHOOK_PASSWORD must be set too"))
    else none

-- A cancellation is no error.
unfoldable pub handle_err : Option Err → Option Err
unfolding is_canceled
handle_err none = none
handle_err (some e) = if is_canceled e then none else some (wrap err_devops_source e)

abbrev pub git_repository_type : String
git_repository_type = "gitrepository"

abbrev pub team_type : String
team_type = "team"

-- queryParam.Set
unfoldable pub set_param : String → String → List (String × String) → List (String × String)
set_param k v [] = (k, v) ∷ []
set_param k v ((j, u) ∷ params) =
    let rest = set_param k v params in if j == k then (k, v) ∷ params else (j, u) ∷ rest

-- The path and the parameters of the first request for a type.
abbrev pub first_request : String → String × List (String × String)
first_request type_string =
    if type_string == git_repository_type
    then (
      "_apis/git/repositories",
      ("includeLinks", "true") ∷ ("includeAllUrls", "true") ∷ ("includeHidden", "true") ∷ [],
    )
    else if type_string == team_type
    then ("_apis/teams", ("$expandIdentity", "true") ∷ [])
    else ("", [])

abbrev pub continuation_header : String
continuation_header = "X-MS-ContinuationToken"

module _ {W : Type 0} (web : Web W) (c : Config)
    (decode_results : String → Result (List Fields)) where
  abbrev pub authorization : List (String × String)
  authorization =
      if c.personal_token == ""
      then []
      else ("Authorization", web.basic_auth "" c.personal_token) ∷ []

  abbrev pub request_for : String → List (String × String) → Request
  request_for path query_param = record {
    method = "GET";
    url = c.organization_url;
    path = path;
    query = query_param;
    headers =
        ("Content-Type", "application/json")
        ∷ ("Accept", "application/json;api-version=7.1;charset=utf-8")
        ∷ authorization;
    body = "";
  }

  unfoldable pub do_request : String → List (String × String) → Effect W Response
  do_request path query_param = do
    create web (request_for path query_param)
    send web (request_for path query_param)

  unfoldable pub emit_item : String → Fields → Effect W Unit
  emit_item type_string item = do
    time ← clock web
    emit web (record { kind = type_string; operation = upsert; values = item; time = time })

  unfoldable pub sync_pages : ℕ → String → String → List (String × String) → Effect W Unit
  unfolding do_request emit_item set_param
  sync_pages zero type_string path query_param = out_of_fuel
  sync_pages (suc fuel) type_string path query_param = do
    resp ← do_request path query_param
    results ← lift (decode_results resp.body)
    each (emit_item type_string) results
    let next_link = resp.header continuation_header in
        elim (next_link == "") [
          | true ↦ pure tt
          | false ↦
              sync_pages fuel type_string path (set_param "continuationToken" next_link query_param)
        ]

  unfoldable pub sync_resources : ℕ → List (String × Fields) → Effect W Unit
  unfolding sync_pages
  sync_resources fuel [] = pure tt
  sync_resources fuel ((type_string, _) ∷ types) = do
    sync_pages fuel type_string (first_request type_string).0 (first_request type_string).1
    sync_resources fuel types

  -- The error that is returned, nil for a cancellation.
  abbrev pub handling : {A : Type 0} → Result A → Effect W Unit
  handling (ok _) = pure tt
  handling (err e) = check (handle_err (some e))

  -- `locked` is whether another process holds the lock of the source.
  unfoldable pub start_sync_process : Bool → List (String × Fields) → ℕ → Effect W Unit
  unfolding validate_for_sync handle_err sync_resources
  start_sync_process locked types_to_filter fuel =
      if locked then pure tt else elim (validate_for_sync c) [
        | some e ↦ check (handle_err (some e))
        | none ↦ elim (web.parse_url c.organization_url) [
          | some e ↦ check (handle_err (some e))
          | none ↦ do r ← attempt (sync_resources fuel types_to_filter); handling r
        ]
      ]
