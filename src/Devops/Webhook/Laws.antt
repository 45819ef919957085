-- ===== src/Devops/Webhook/Laws.antt =====
-- Which requests the webhook accepts.
use ibdm.Base.{
  String, ◌≡◌, ◌↔◌, ◌⊎◌, inl, inr, refl, sym, ap, ◌∙◌, Bool, true, false, Bool-cases, ◌&&◌, Option,
  none, some, Option-cases, List, [], ◌∷◌, Err, is_canceled, ◌==◌, eq_iff, arith,
}
use ibdm.Value.{Fields}
use ibdm.Effect.{pure}
use ibdm.Http.{Web, concat}
use ibdm.Devops.{Config, handle_err}
use ibdm.Devops.Webhook.{Texts, webhook_validation, webhook_handler}

-- The value of the header that the settings ask for, of two fields.
abbrev pub IsBasic : Texts → Config → String → Type 0
IsBasic texts c header =
    (scheme : String) × (token : String) × (texts.fields header ≡ scheme ∷ token ∷ [])
    × (texts.equal_fold scheme "basic" ≡ true)
    × (texts.sha256 (texts.encode (concat c.webhook_user (concat ":" c.webhook_password)))
        ≡ texts.sha256 token)

-- What the header of an accepted request is: absent when there are no credentials, or one value.
abbrev pub IsAuthorized : Texts → Config → Option (String × List String) → Type 0
IsAuthorized texts c none = (c.webhook_user ≡ "") × (c.webhook_password ≡ "")
IsAuthorized texts c (some (header, [])) = IsBasic texts c header
IsAuthorized texts c (some (header, _ ∷ _)) = ⊥

webhook_validation_header :
    (texts : Texts) (c : Config) (header : String) (parts : List String)
    → texts.fields header ≡ parts
    → (webhook_validation texts c (some (header, [])) ≡ none) ↔ IsBasic texts c header
unfolding webhook_validation
webhook_validation_header texts c header [] e =
    rw (e, webhook_validation) (λ h. cc, λ (s, t, p, q, r). cc)
webhook_validation_header texts c header (scheme ∷ []) e =
    rw (e, webhook_validation) (λ h. cc, λ (s, t, p, q, r). cc)
webhook_validation_header texts c header (scheme ∷ token ∷ _ ∷ _) e =
    rw (e, webhook_validation) (λ h. cc, λ (s, t, p, q, r). cc)
webhook_validation_header texts c header (scheme ∷ token ∷ []) e =
    let expected =
      texts.sha256 (texts.encode (concat c.webhook_user (concat ":" c.webhook_password))) in
    let same = eq_iff expected (texts.sha256 token) in
    elim (Bool-cases (texts.equal_fold scheme "basic")) [
      | inr f ↦ rw (e, f, webhook_validation) (λ h. cc, λ (s, t, p, q, r). cc)
      | inl f ↦ elim (Bool-cases (expected == texts.sha256 token)) [
        | inl g ↦
            rw (e, f, g, webhook_validation) (λ h. (scheme, token, refl, f, same.0 g), λ _. refl)
        | inr g ↦
            rw (e, f, g, webhook_validation)
              (
                λ h. cc,
                λ (s, t, p, q, r). (let m : token ≡ t = cc in let k = same.1 (rw m r) in cc),
              )
      ]
    ]

webhook_validation_iff :
    (texts : Texts) (c : Config) (auth_header : Option (String × List String))
    → (webhook_validation texts c auth_header ≡ none) ↔ IsAuthorized texts c auth_header
unfolding webhook_validation
webhook_validation_iff texts c none =
    let user = eq_iff c.webhook_user "" in
    let password = eq_iff c.webhook_password "" in ground (arith, user, password)
webhook_validation_iff texts c (some (header, [])) =
    webhook_validation_header texts c header (texts.fields header) refl
webhook_validation_iff texts c (some (header, _ ∷ _)) = (λ h. cc, λ h. absurd h)

canceled_in : Option Err → Bool
canceled_in none = false
canceled_in (some e) = is_canceled e

header_error-canceled :
    (texts : Texts) (c : Config) (header : String) (parts : List String)
    → texts.fields header ≡ parts
    → canceled_in (webhook_validation texts c (some (header, []))) ≡ false
unfolding webhook_validation canceled_in is_canceled
header_error-canceled texts c header [] e = rw (e, webhook_validation) refl
header_error-canceled texts c header (scheme ∷ []) e = rw (e, webhook_validation) refl
header_error-canceled texts c header (scheme ∷ token ∷ _ ∷ _) e = rw (e, webhook_validation) refl
header_error-canceled texts c header (scheme ∷ token ∷ []) e =
    let expected =
      texts.sha256 (texts.encode (concat c.webhook_user (concat ":" c.webhook_password))) in
    elim (Bool-cases (texts.equal_fold scheme "basic")) [
      | inr f ↦ rw (e, f, webhook_validation) refl
      | inl f ↦ elim (Bool-cases (expected == texts.sha256 token)) [
        | inl g ↦ rw (e, f, g, webhook_validation) refl
        | inr g ↦ rw (e, f, g, webhook_validation) refl
      ]
    ]

validation-canceled :
    (texts : Texts) (c : Config) (auth_header : Option (String × List String))
    → canceled_in (webhook_validation texts c auth_header) ≡ false
unfolding webhook_validation canceled_in is_canceled
validation-canceled texts c none =
    elim (Bool-cases (c.webhook_user == "" && c.webhook_password == "")) [
      | inl e ↦ rw (e, webhook_validation) refl
      | inr e ↦ rw (e, webhook_validation) refl
    ]
validation-canceled texts c (some (header, _ ∷ _)) = refl
validation-canceled texts c (some (header, [])) =
    header_error-canceled texts c header (texts.fields header) refl

-- No refusal is a cancellation.
webhook_validation-error :
    (texts : Texts) (c : Config) (auth_header : Option (String × List String)) (e : Err)
    → webhook_validation texts c auth_header ≡ some e
    → is_canceled e ≡ false
unfolding canceled_in
webhook_validation-error texts c auth_header e h =
    sym (ap canceled_in h) ∙ validation-canceled texts c auth_header

module _ {W : Type 0} (web : Web W) (texts : Texts) (types : List (String × Fields)) where
  -- The handler answers without an error exactly when the request carries the one basic authentication
  -- of the settings, or none and the settings have none; otherwise nothing runs after it.
  pub webhook_handler_iff :
      (c : Config) (auth_header : Option (String × List String)) (body : String)
      → (((webhook_handler web texts c types auth_header body).0 ≡ none)
          ↔ IsAuthorized texts c auth_header)
        × (((webhook_handler web texts c types auth_header body).0 ≡ none)
            ⊎ ((webhook_handler web texts c types auth_header body).1 ≡ pure tt))
  unfolding webhook_handler handle_err
  webhook_handler_iff c auth_header body =
      let valid = webhook_validation_iff texts c auth_header in
      elim (Option-cases (webhook_validation texts c auth_header)) [
        | inl e ↦ rw (e, webhook_handler) ((λ _. valid.0 e, λ _. refl), inl refl)
        | inr (f, e) ↦
            rw (e, webhook_handler, handle_err, webhook_validation-error texts c auth_header f e)
              ((λ h. cc, λ h. (let k = valid.1 h in cc)), inr refl)
      ]
