-- ===== src/Console/Service.antt =====
-- internal/source/console/service: the client of the Console API. A request goes through a client that
-- `new_transport` builds from the settings, once. In the errors of caarlos0/env only the first counts.
use ibdm.Base.{
  String, ◌&&◌, ◌||◌, not, Option, none, some, List, [], ◌∷◌, Err, message, wrap, is_canceled,
  Result, ok, err, ltb, eqb, ◌==◌, if◌then◌else◌,
}
use ibdm.Value.{Fields, end, get_field, as_text}
use ibdm.Effect.{Effect, ◌>>=◌, pure, fail, attempt}
use ibdm.Http.{Web, Request, Response, concat, send}

pub record Config : Type 0 where
  pub console_endpoint : String
  pub client_id : String
  pub client_secret : String
  pub auth_endpoint : String

abbrev pub err_console : String
err_console = "console"

abbrev pub err_parsing_config : String
err_parsing_config = "error parsing console configuration from environment variables"

abbrev pub err_missing_client_id : Err
err_missing_client_id = message "CONSOLE_CLIENT_ID is required when CONSOLE_CLIENT_SECRET is set"

abbrev pub err_missing_client_secret : Err
err_missing_client_secret =
    message "CONSOLE_CLIENT_SECRET is required when CONSOLE_CLIENT_ID is set"

-- A nil error is `none`.
unfoldable pub handle_error : Err → Option Err
handle_error e = if is_canceled e then none else some (wrap err_console e)

-- `trim` is strings.TrimRight for a slash.
module _ (parse_url : String → Option Err) (trim : String → String) where
  -- The settings as they are after the validation.
  unfoldable pub validate : Config → Result Config
  validate c =
      if c.console_endpoint == ""
      then err (message "CONSOLE_ENDPOINT is required")
      else elim (parse_url c.console_endpoint) [
        | some e ↦ err (wrap "invalid CONSOLE_ENDPOINT" e)
        | none ↦
            let endpoint = trim c.console_endpoint in
            if not (c.client_id == "") && c.client_secret == ""
            then err err_missing_client_secret
            else if not (c.client_secret == "") && c.client_id == ""
            then err err_missing_client_id
            else if c.auth_endpoint == ""
            then ok (record {
              console_endpoint = endpoint;
              client_id = c.client_id;
              client_secret = c.client_secret;
              auth_endpoint = concat endpoint "/m2m/oauth/token";
            })
            else elim (parse_url c.auth_endpoint) [
              | some e ↦ err (wrap "invalid CONSOLE_AUTH_ENDPOINT" e)
              | none ↦ ok (record {
                console_endpoint = endpoint;
                client_id = c.client_id;
                client_secret = c.client_secret;
                auth_endpoint = c.auth_endpoint;
              })
            ]
      ]

  unfoldable pub load_config_from_env : Result Config → Result Config
  unfolding validate
  load_config_from_env (err e) = err (wrap err_parsing_config e)
  load_config_from_env (ok c) = validate c

pub data Transport : Type 0 where
  default_transport : Transport
  client_credentials : (token_url client_id client_secret : String) → Transport

unfoldable pub new_transport : String → String → String → Transport
new_transport token_url client_id client_secret =
    if not (client_id == "") && not (client_secret == "")
    then client_credentials token_url client_id client_secret
    else default_transport

-- The client, and the one that is kept after the call.
unfoldable pub get_client : Config → Option Transport → Transport × Option Transport
unfolding new_transport
get_client c (some client) = (client, some client)
get_client c none =
    let client = new_transport c.auth_endpoint c.client_id c.client_secret in (client, some client)

module _ {W : Type 0} (web : Web W) (c : Config) where
  abbrev pub request_for : String → Request
  request_for request_path = record {
    method = "GET";
    url = concat c.console_endpoint request_path;
    path = "";
    query = [];
    headers = ("User-Agent", web.user_agent) ∷ ("Accept", "application/json") ∷ [];
    body = "";
  }

  unfoldable pub handled : {A : Type 0} → A → Err → Effect W A
  unfolding handle_error
  handled nil_value e = elim (handle_error e) [ none ↦ pure nil_value | some f ↦ fail f ]

  -- The message of an error response.
  unfoldable pub error_text : String → String
  unfolding get_field
  error_text body = elim (web.decode_object body) [
    | err e ↦ "unexpected error"
    | ok err_resp ↦ elim (as_text (get_field "message" err_resp)) [
      | none ↦ "unexpected error"
      | some msg ↦ msg
    ]
  ]

  unfoldable pub answered : {A : Type 0} → A → (String → Result A) → Response → Effect W A
  unfolding handled error_text
  answered nil_value decode resp =
      if eqb resp.status 403 || eqb resp.status 401
      then handled nil_value (message "invalid token or insufficient permissions")
      else if eqb resp.status 404
      then handled nil_value (message "resource not found")
      else if eqb resp.status 204
      then pure nil_value
      else elim (web.read_all resp.body) [
        | err e ↦ handled nil_value e
        | ok body ↦
            if ltb 399 resp.status
            then handled nil_value (message (error_text body))
            else elim (decode body) [ err e ↦ handled nil_value e | ok value ↦ pure value ]
      ]

  unfoldable pub do_request : {A : Type 0} → A → (String → Result A) → String → Effect W A
  unfolding answered handled
  do_request nil_value decode request_path = elim (web.new_request (request_for request_path)) [
    | some e ↦ handled nil_value e
    | none ↦ do
      r ← attempt (send web (request_for request_path))
      elim r [ err e ↦ handled nil_value e | ok resp ↦ answered nil_value decode resp ]
  ]

  unfoldable pub get_projects : Effect W (List Fields)
  unfolding do_request
  get_projects = do_request [] web.decode_objects "/backend/projects/"

  unfoldable pub get_revisions : String → Effect W (List Fields)
  unfolding do_request
  get_revisions project_id =
      do_request [] web.decode_objects
        (concat "/backend/projects/" (concat (web.escape project_id) "/revisions"))

  unfoldable pub get_project : String → Effect W Fields
  unfolding do_request
  get_project project_id =
      do_request end web.decode_object
        (concat "/backend/projects/" (concat (web.escape project_id) "?withTenant=true"))

  abbrev pub configuration_path : String → String → String
  configuration_path project_id revision_id = concat "/backend/projects/" (
      concat (web.escape project_id)
        (concat "/revisions/" (concat (web.escape revision_id) "/configuration")))

  abbrev pub configuration_request : String → String → Request
  configuration_request project_id revision_id =
      request_for (configuration_path project_id revision_id)

  unfoldable pub get_configuration : String → String → Effect W Fields
  unfolding do_request
  get_configuration project_id revision_id =
      do_request end web.decode_object (configuration_path project_id revision_id)

  unfoldable pub get_tenants : Effect W (List Fields)
  unfolding do_request
  get_tenants = do_request [] web.decode_objects "/user/companies"

  unfoldable pub get_clusters : String → Effect W (List Fields)
  unfolding do_request
  get_clusters tenant_id =
      do_request [] web.decode_objects
        (concat "/tenants/" (concat (web.escape tenant_id) "/clusters/"))
