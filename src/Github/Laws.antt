-- ===== src/Github/Laws.antt =====
-- The configuration of the GitHub source and the version that its requests ask for.
use ibdm.Base.{
  ℕ, ℤ, pos, negsuc, ◌≤◌, String, ◌≡◌, ◌≢◌, ◌↔◌, refl, Bool, true, false, Bool-cases, none, some,
  Option-cases, inl, inr, Err, ◌==◌, eq_iff, if◌then◌else◌, arith,
}
use ibdm.Value.{Fields, get_field, as_text}
use ibdm.Github.{Config, validate, is_outside_pages, api_version_from_extra}

abbrev pub IsPageSize : ℤ → Type 0
IsPageSize n = (k : ℕ) × (n ≡ pos k) × (1 ≤ k) × (k ≤ 100)

is_outside_pages_iff : (n : ℤ) → (is_outside_pages n ≡ false) ↔ IsPageSize n
is_outside_pages_iff (negsuc n) = (λ h. cc, λ (k, e, a, b). cc)
is_outside_pages_iff (pos n) = (
  λ h. (n, refl, ground (arith, h), ground (arith, h)),
  λ (k, e, a, b). (let m : n ≡ k = cc in ground (arith, m, a, b)),
)

default-nonempty : ◌≢◌ {A = String} "2026-03-10" ""
default-nonempty h = cc

pub guards_iff :
    (a b d : Bool) (e f g : Err)
    → ((if a then some e else if b then some f else if d then some g else none) ≡ none)
      ↔ ((a ≡ false) × (b ≡ false) × (d ≡ false))
guards_iff true b d e f g = (λ h. cc, λ (k, l, m). cc)
guards_iff false true d e f g = (λ h. cc, λ (k, l, m). cc)
guards_iff false false true e f g = (λ h. cc, λ (k, l, m). cc)
guards_iff false false false e f g = (λ h. (refl, refl, refl), λ h. refl)

pub neq_iff : (s t : String) → ((s == t) ≡ false) ↔ (s ≢ t)
neq_iff s t = (
  λ h e. (let k = (eq_iff s t).1 e in cc),
  λ h. elim (Bool-cases (s == t)) [ inl e ↦ absurd (h ((eq_iff s t).0 e)) | inr e ↦ e ],
)

-- A configuration passes exactly when it has a token and an organization, and between 1 and 100
-- items a page.
pub validate_iff :
    (c : Config) → (validate c ≡ none) ↔ ((c.token ≢ "") × (c.org ≢ "") × IsPageSize c.page_size)
unfolding validate
validate_iff c =
    let g = guards_iff (c.token == "") (c.org == "") (is_outside_pages c.page_size) _ _ _ in
    (
      λ h.
          (let (a, b, k) = g.0 h in
            (
              (neq_iff c.token "").0 a,
              (neq_iff c.org "").0 b,
              (is_outside_pages_iff c.page_size).0 k,
            )),
      λ (a, b, k). g.1 (
        (neq_iff c.token "").1 a,
        (neq_iff c.org "").1 b,
        (is_outside_pages_iff c.page_size).1 k,
      ),
    )

-- The version of a request is never empty.
pub api_version_from_extra_nonempty : (extra : Fields) → api_version_from_extra extra ≢ ""
unfolding api_version_from_extra
api_version_from_extra_nonempty extra h =
    elim (Option-cases (as_text (get_field "apiVersion" extra))) [
      | inl e ↦ (let k = (rw (e, api_version_from_extra) at h) in default-nonempty k)
      | inr (s, e) ↦ elim (Bool-cases (s == "")) [
        | inl f ↦ (let k = (rw (e, f, api_version_from_extra) at h) in default-nonempty k)
        | inr f ↦ (let k = (rw (e, f, api_version_from_extra) at h) in (neq_iff s "").0 f k)
      ]
    ]
