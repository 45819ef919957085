-- ===== src/Github/Webhook/Laws.antt =====
-- Which requests a webhook accepts, and what it does after it.
use text.Mathlib.TextPositions.{slice-append_right, starts_with-append, len-append, eq_refl}
use text.Mathlib.TextEquality.{starts_with_iff}
use ibdm.Base.{
  String, ◌≡◌, ◌≢◌, ◌↔◌, refl, sym, ap, ◌∙◌, true, false, Bool-cases, Option, none, some, List, inl,
  inr, ◌⊎◌, ◌==◌, starts_with, eq_iff,
}
use ibdm.Value.{Fields}
use ibdm.Github.{Client, Config, Env, concat}
use ibdm.Github.Webhook.{Codecs, verify_signature, handler}

verify_signature-append :
    (codecs : Codecs) (body hex secret : String)
    → verify_signature codecs body (concat "sha256=" hex) secret ≡ (elim (codecs.decode_hex hex) [
      | none ↦ false
      | some signature ↦ signature == codecs.mac secret body
    ])
unfolding verify_signature
verify_signature-append codecs body hex secret =
    rw
      (starts_with-append "sha256=" hex, len-append "sha256=" hex, slice-append_right "sha256=" hex)
      refl

decoded-eq :
    (o : Option String) (expected : String)
    → elim o [ none ↦ false | some signature ↦ signature == expected ] ≡ true
    → o ≡ some expected
decoded-eq none expected h = cc
decoded-eq (some signature) expected h = ap some ((eq_iff signature expected).0 h)

-- A signature is accepted exactly when it is `sha256=` followed by a hexadecimal form of the code
-- that the secret gives the body.
pub verify_signature_iff :
    (codecs : Codecs) (body signature_header secret : String)
    → (verify_signature codecs body signature_header secret ≡ true) ↔ (
        (hex : String) × (signature_header ≡ concat "sha256=" hex)
        × (codecs.decode_hex hex ≡ some (codecs.mac secret body)))
unfolding verify_signature
verify_signature_iff codecs body signature_header secret = (
  λ h. elim (Bool-cases (starts_with signature_header "sha256=")) [
    | inr e ↦ (let k = (rw (e, verify_signature) at h) in cc)
    | inl e ↦
        let (hex, p) = (starts_with_iff signature_header "sha256=").0 e in
        let k = ap (λ v. verify_signature codecs body v secret) p ∙ h in
        let l = sym (verify_signature-append codecs body hex secret) ∙ k in
        (hex, sym p, decoded-eq (codecs.decode_hex hex) (codecs.mac secret body) l)
  ],
  λ (hex, p, d).
      rw p
        (verify_signature-append codecs body hex secret ∙ rw d (eq_refl (codecs.mac secret body))),
)

pub not-verified :
    (codecs : Codecs) (body secret : String) → verify_signature codecs body "" secret ≢ true
unfolding verify_signature
not-verified codecs body secret h = cc

module _ {W : Type 0} (env : Env W) (codecs : Codecs) where
  -- The handler answers without an error exactly when the request has the signature of its body, and
  -- otherwise nothing runs after it.
  pub handler_iff :
      (config : Config) (c : Client) (types : List (String × Fields)) (headers : String → String)
      (body : String)
      → (((handler env codecs config c types headers body).0 ≡ none) ↔ (
          (hex : String) × (headers "X-Hub-Signature-256" ≡ concat "sha256=" hex)
          × (codecs.decode_hex hex ≡ some (codecs.mac config.webhook_secret body))))
        × (((handler env codecs config c types headers body).0 ≡ none)
            ⊎ ((w : W) → (handler env codecs config c types headers body).1 w ≡ w))
  unfolding handler
  handler_iff config c types headers body =
      let signature = headers "X-Hub-Signature-256" in
      let iff = verify_signature_iff codecs body signature config.webhook_secret in
      elim (Bool-cases (verify_signature codecs body signature config.webhook_secret)) [
        | inl e ↦ elim (Bool-cases (signature == "")) [
          | inl k ↦
              let empty = (eq_iff signature "").0 k in
              let m : verify_signature codecs body "" config.webhook_secret ≡ true =
                sym (ap (λ v. verify_signature codecs body v config.webhook_secret) empty) ∙ e in
              absurd (not-verified codecs body config.webhook_secret m)
          | inr k ↦ rw (k, e, handler) ((λ _. iff.0 e, λ _. refl), inl refl)
        ]
        | inr e ↦ elim (Bool-cases (signature == "")) [
          | inl k ↦ rw (k, handler) ((λ h. cc, λ h. (let m = iff.1 h in cc)), inr (λ w. refl))
          | inr k ↦ rw (k, e, handler) ((λ h. cc, λ h. (let m = iff.1 h in cc)), inr (λ w. refl))
        ]
      ]
