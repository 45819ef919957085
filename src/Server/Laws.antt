-- ===== src/Server/Laws.antt =====
-- The ports that are accepted, and the answers to GitHub.
use ibdm.Base.{
  ℕ, ℤ, pos, negsuc, ◌≤◌, String, ◌≡◌, ◌↔◌, refl, false, Bool-cases, Option, none, some, List, inl,
  inr, Err, not-ltb→le, arith,
}
use ibdm.Value.{Fields}
use ibdm.Github.{Client, Env, concat}
use ibdm.Github
use ibdm.Github.Webhook.{Codecs, handler}
use ibdm.Github.Webhook.Laws.{handler_iff}
use ibdm.Server.{Config, is_outside_ports, validate_environment_variables, route_answer}

outside_iff : (n : ℤ) → (is_outside_ports n ≡ false) ↔ ((k : ℕ) × (n ≡ pos k) × (k ≤ 65535))
outside_iff (negsuc n) = (λ h. cc, λ (k, e, a). cc)
outside_iff (pos n) = (
  λ h. (n, refl, not-ltb→le 65535 n h),
  λ (k, e, a). (let m : n ≡ k = cc in ground (arith, m, a)),
)

-- The port passes exactly when it is between 0 and 65535, both included.
pub validate_environment_variables_iff :
    (c : Config)
    → (validate_environment_variables c ≡ none) ↔ ((k : ℕ) × (c.http_port ≡ pos k) × (k ≤ 65535))
unfolding validate_environment_variables
validate_environment_variables_iff c = elim (Bool-cases (is_outside_ports c.http_port)) [
  | inl e ↦
      rw (e, validate_environment_variables)
        (λ h. cc, λ h. (let k = (outside_iff c.http_port).1 h in cc))
  | inr e ↦ rw (e, validate_environment_variables) (λ _. (outside_iff c.http_port).0 e, λ _. refl)
]

route_answer_iff : (failure : Option Err) → ((route_answer failure).status ≡ 204) ↔ (failure ≡ none)
unfolding route_answer
route_answer_iff none = (λ _. refl, λ _. refl)
route_answer_iff (some e) = (λ h. absurd (omega (arith, h)), λ h. cc)

-- The server answers 204 to a request of the GitHub webhook exactly when the request has the
-- signature that the secret gives its body.
pub route_answer-handler_iff :
    {W : Type 0} (env : Env W) (codecs : Codecs) (config : Github.Config) (c : Client)
    (types : List (String × Fields)) (headers : String → String) (body : String)
    → ((route_answer (handler env codecs config c types headers body).0).status ≡ 204) ↔ (
        (hex : String) × (headers "X-Hub-Signature-256" ≡ concat "sha256=" hex)
        × (codecs.decode_hex hex ≡ some (codecs.mac config.webhook_secret body)))
route_answer-handler_iff env codecs config c types headers body =
    let (accepted, _) = handler_iff env codecs config c types headers body in
    let answer = route_answer_iff (handler env codecs config c types headers body).0 in
    (λ h. accepted.0 (answer.0 h), λ h. answer.1 (accepted.1 h))
