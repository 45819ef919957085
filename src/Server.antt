-- ===== src/Server.antt =====
-- internal/server: the check of the port, the answer of a webhook route and the status routes. fiber
-- calls the handlers and writes what they answer.
pub mod Laws
mod Tests
use ibdm.Base.{
  ℕ, ℤ, pos, negsuc, String, Bool, true, false, ◌||◌, Option, none, some, List, [], ◌∷◌, Err,
  message, wrap, Result, ok, err, ltb, is_empty, contains, ◌==◌, if◌then◌else◌,
}
use ibdm.Value.{Fields, end, field, int64, text}

pub record Config : Type 0 where
  pub disable_startup_message : Bool
  pub http_host : String
  pub http_port : ℤ

abbrev pub err_env_variables_not_valid : String
err_env_variables_not_valid = "environment variables not valid"

-- envVars.HTTPPort < 0 || envVars.HTTPPort > 65535
abbrev pub is_outside_ports : ℤ → Bool
is_outside_ports (negsuc n) = true
is_outside_ports (pos n) = ltb 65535 n

unfoldable pub validate_environment_variables : Config → Option Err
validate_environment_variables env_vars =
    if is_outside_ports env_vars.http_port
    then some
        (wrap err_env_variables_not_valid (message "HTTP_PORT is out of valid range (1-65535)"))
    else none

-- `parsed` is what github.com/caarlos0/env reads.
unfoldable pub load_server_config : Result Config → Result Config
unfolding validate_environment_variables
load_server_config (err e) = err (wrap err_env_variables_not_valid e)
load_server_config (ok env_vars) = elim (validate_environment_variables env_vars) [
  | some e ↦ err e
  | none ↦ ok env_vars
]

-- A body of JSON, if there is one.
pub record Answer : Type 0 where
  pub status : ℕ
  pub body : Option Fields

abbrev pub webhook_failed : Fields
webhook_failed = field "statusCode" (int64 (pos 500)) (
    field "error" (text "Internal Server Error")
      (field "message" (text "error processing webhook message") end))

-- The handler that `AddRoute` gives to fiber, on what the webhook's handler returns.
unfoldable pub route_answer : Option Err → Answer
route_answer (some e) = record { status = 500; body = some webhook_failed }
route_answer none = record { status = 204; body = none }

abbrev pub status_response : String → String → Fields
status_response service_name service_version =
    field "status" (text "OK")
      (field "name" (text service_name) (field "version" (text service_version) end))

-- The three routes answer alike.
unfoldable pub status_routes : String → String → String → Option Answer
status_routes service_name service_version path =
    if contains ("/-/healthz" ∷ "/-/ready" ∷ "/-/check-up" ∷ []) path
    then some (record { status = 200; body = some (status_response service_name service_version) })
    else none
