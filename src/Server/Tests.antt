-- ===== src/Server/Tests.antt =====
-- Ports at the ends of the range, and a request that is not signed.
use ibdm.Base.{ℕ, ℤ, pos, ◌≤◌, ◌≡◌, ◌↔◌, refl, true, none, is_some}
use ibdm.Server.{Config, validate_environment_variables, status_routes}
use ibdm.Server.Laws.{validate_environment_variables_iff}

abbrev config : ℤ → Config
config port = record { disable_startup_message = true; http_host = "0.0.0.0"; http_port = port }

zero_accepted : validate_environment_variables (config (pos 0)) ≡ none
unfolding validate_environment_variables
zero_accepted = refl

too_large : is_some (validate_environment_variables (config (pos 65536))) ≡ true
unfolding validate_environment_variables
too_large = refl

unknown_path : status_routes "ibdm" "dev" "/-/other" ≡ none
unfolding status_routes
unknown_path = refl

validate_environment_variables_iff_example :
    (validate_environment_variables (config (pos 0)) ≡ none)
    ↔ ((k : ℕ) × ((config (pos 0)).http_port ≡ pos k) × (k ≤ 65535))
validate_environment_variables_iff_example = validate_environment_variables_iff (config (pos 0))
