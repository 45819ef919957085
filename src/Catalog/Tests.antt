-- ===== src/Catalog/Tests.antt =====
-- The Catalog destination with a server that accepts every item.
use ibdm.Base.{ℕ, ◌+◌, String, ◌≡◌, ◌≢◌, ◌↔◌, refl, none, some, ok}
use ibdm.Value.{end}
use ibdm.Destination
use ibdm.Destination.{marshal_json}
use ibdm.Catalog.Auth.{Settings, validate_auth_config}
use ibdm.Catalog.{
  Env, CatalogDestination, default_transport, new_transport, handle_request, source_of,
}
use ibdm.Catalog.Laws.{IsAuth, validate_auth_config_iff, new_transport-authenticated}

abbrev env : Env String ℕ
env = record {
  parse_url = λ url. none;
  token_url = λ url. "https://catalog/oauth/token";
  load_keys = λ path. ok (some "key");
  new_source = λ source. none;
  encode = λ fields. ok "{}";
  new_request = λ request. none;
  send_request = λ client request n. (ok (record { status = 204; body = "" }), n + 1);
  decode = λ body. ok end;
  user_agent = "ibdm/dev";
}

abbrev settings : String → Settings
settings key = record {
  catalog_endpoint = "https://catalog/items";
  client_id = "client";
  client_secret = "";
  private_key_path = key;
  auth_endpoint = "";
  issuer = "https://issuer";
  issuer_metadata = "";
  token_endpoint = "";
  custom_scope = "";
}

abbrev destination : CatalogDestination String
destination = record { settings = settings "key.pem"; private_key = some "key"; client = none }

accepted : validate_auth_config (settings "key.pem") ≡ none
unfolding validate_auth_config
accepted = refl

abbrev item : Destination.Data
item = record {
  api_version = "v1";
  item_family = "repos";
  name = "a";
  metadata = none;
  spec = none;
  operation_time = "t";
}

sent :
    handle_request env "POST" item (destination, 0)
    ≡ (none, (record destination { client = some (source_of (settings "key.pem") "key") }, 1))
unfolding handle_request
sent = refl

validate_auth_config_iff_example :
    (validate_auth_config (settings "key.pem") ≡ none) ↔ IsAuth (settings "key.pem")
validate_auth_config_iff_example = validate_auth_config_iff (settings "key.pem")

new_transport-authenticated_example :
    new_transport env (settings "key.pem") (some "key") ≢ ok default_transport
new_transport-authenticated_example =
    new_transport-authenticated env (settings "key.pem") (some "key") accepted refl (λ set. refl)
