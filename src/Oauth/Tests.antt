-- ===== src/Oauth/Tests.antt =====
-- A token source of a provider that gives its discovery document; the world counts the requests.
use ibdm.Base.{ℕ, pos, ◌+◌, ◌≡◌, refl, none, ok, ◌==◌, if◌then◌else◌}
use ibdm.Oauth.{
  TokenSource, Env, Request, Response, Document, with_endpoint, resolve_token_endpoint,
}
use ibdm.Oauth.Exchange.{token}
use ibdm.Oauth.Laws.{IsTrusted, resolve_token_endpoint-IsTrusted}

abbrev env : Env ℕ
env = record {
  join_path = λ base path. ok "https://issuer/.well-known";
  parse_url = λ url. none;
  print_url = λ url. "";
  lower = λ s. s;
  trim_slashes = λ s. if s == "https://issuer/" then "https://issuer" else s;
  new_request = λ request. none;
  send_request = λ request n. (ok (record { status = 200; body = "{}" }), n + 1);
  decode_document =
      λ body. ok (record { issuer = "https://issuer/"; token_endpoint = "https://issuer/token" });
  decode_token =
      λ body. ok (record { access_token = "secret"; token_type = "Bearer"; expires_in = pos 60 });
  new_uuid = λ n. (ok "id", n);
  build = λ claims. none;
  sign = λ claims. ok "jwt";
  now = λ n. 1000;
  later = λ now seconds. now + 60;
}

abbrev source : TokenSource
source = record {
  client_id = "client";
  issuer_url = "https://issuer";
  discovery_path = ".well-known/openid-configuration";
  discovery_url = "";
  custom_scope = "";
  token_endpoint = "";
}

resolved :
    resolve_token_endpoint env source 0
    ≡ (ok "https://issuer/token", (with_endpoint source "https://issuer/token", 1))
unfolding resolve_token_endpoint
resolved = refl

exchanged : token env source 0 ≡ (
  ok (record { access_token = "secret"; token_type = "Bearer"; expiry = 1060 }),
  (with_endpoint source "https://issuer/token", 2),
)
unfolding token
exchanged = refl

found : (resolve_token_endpoint env source 0).0 ≡ ok "https://issuer/token"
unfolding resolve_token_endpoint
found = refl

resolve_token_endpoint-IsTrusted_example :
    (request : Request) × (response : Response) × (document : Document) × ((env.send_request request
        0).0
      ≡ ok response)
    × (env.decode_document response.body ≡ ok document)
    × (document.token_endpoint ≡ "https://issuer/token")
    × IsTrusted env source document
resolve_token_endpoint-IsTrusted_example =
    resolve_token_endpoint-IsTrusted env source 0 "https://issuer/token" refl found
