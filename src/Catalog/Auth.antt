-- ===== src/Catalog/Auth.antt =====
-- internal/destination/catalog/catalog.go: the settings and their validation.
use ibdm.Base.{String, Bool, not, ◌&&◌, ◌||◌, Option, none, some, Err, message, ◌==◌, if◌then◌else◌}

-- The environment variables of `catalogDestination`.
pub record Settings : Type 0 where
  pub catalog_endpoint : String
  pub client_id : String
  pub client_secret : String
  pub private_key_path : String
  pub auth_endpoint : String
  pub issuer : String
  pub issuer_metadata : String
  pub token_endpoint : String
  pub custom_scope : String

abbrev pub is_set : String → Bool
is_set s = not (s == "")

abbrev pub err_missing_client_id : Err
err_missing_client_id =
    message "MIA_CATALOG_CLIENT_ID is required when MIA_CATALOG_CLIENT_SECRET is set"

abbrev pub err_missing_client_secret : Err
err_missing_client_secret =
    message "MIA_CATALOG_CLIENT_SECRET is required when MIA_CATALOG_CLIENT_ID is set"

abbrev pub err_missing_client_id_for_priv_key : Err
err_missing_client_id_for_priv_key =
    message "MIA_CATALOG_CLIENT_ID is required when MIA_CATALOG_PRIVATE_KEY is set"

abbrev pub err_private_key_with_client_secret : Err
err_private_key_with_client_secret =
    message "MIA_CATALOG_PRIVATE_KEY cannot be used with MIA_CATALOG_CLIENT_SECRET"

abbrev pub err_missing_issuer_config : Err
err_missing_issuer_config =
    message
      "private-key JWT authentication requires one of MIA_CATALOG_ISSUER, MIA_CATALOG_ISSUER_METADATA or MIA_CATALOG_TOKEN_ENDPOINT"

unfoldable pub validate_private_key_auth_config : Settings → Option Err
validate_private_key_auth_config d =
    let has_issuer_source =
      is_set d.issuer || is_set d.issuer_metadata || is_set d.token_endpoint in
    if is_set d.client_secret
    then some err_private_key_with_client_secret
    else if not (is_set d.client_id)
    then some err_missing_client_id_for_priv_key
    else if not has_issuer_source
    then some err_missing_issuer_config
    else none

unfoldable pub validate_auth_config : Settings → Option Err
unfolding validate_private_key_auth_config
validate_auth_config d =
    if is_set d.private_key_path
    then validate_private_key_auth_config d
    else if is_set d.client_id && not (is_set d.client_secret)
    then some err_missing_client_secret
    else if is_set d.client_secret && not (is_set d.client_id)
    then some err_missing_client_id
    else none
