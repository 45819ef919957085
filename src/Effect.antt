-- ===== src/Effect.antt =====
-- A Go function that acts outside and returns a value and an error. It takes the world as it is and
-- gives the result with the world as it leaves it; a loop that has no bound in the code runs on fuel
-- and is `none` without it.
pub mod Laws
use ibdm.Base.{
  String, Bool, true, false, Option, none, some, List, [], ◌∷◌, Err, wrap, Result, ok, err,
  if◌then◌else◌,
}

abbrev pub Effect : Type 0 → Type 0 → Type 0
Effect W A = W → Option (Result A × W)

module _ {W : Type 0} where
  infixl 5 ◌>>=◌
  unfoldable pub ◌>>=◌ : {A B : Type 0} → Effect W A → (A → Effect W B) → Effect W B
  ◌>>=◌ m next w = elim (m w) [
    | none ↦ none
    | some (ok a, w') ↦ next a w'
    | some (err e, w') ↦ some (err e, w')
  ]

  infixl 5 ◌>>◌
  abbrev pub ◌>>◌ : {A B : Type 0} → Effect W A → Effect W B → Effect W B
  m >> next = m >>= λ _. next

  abbrev pub pure : {A : Type 0} → A → Effect W A
  pure a w = some (ok a, w)

  abbrev pub fail : {A : Type 0} → Err → Effect W A
  fail e w = some (err e, w)

  abbrev pub out_of_fuel : {A : Type 0} → Effect W A
  out_of_fuel w = none

  abbrev pub lift : {A : Type 0} → Result A → Effect W A
  lift r w = some (r, w)

  -- if err := ...; err != nil
  abbrev pub check : Option Err → Effect W Unit
  check none w = some (ok tt, w)
  check (some e) w = some (err e, w)

  -- What the code does when it looks at the error itself.
  unfoldable pub attempt : {A : Type 0} → Effect W A → Effect W (Result A)
  attempt m w = elim (m w) [ none ↦ none | some (r, w') ↦ some (ok r, w') ]

  -- fmt.Errorf("...: %w", err)
  unfoldable pub wrapping : {A : Type 0} → String → Effect W A → Effect W A
  wrapping sentinel m w = elim (m w) [
    | none ↦ none
    | some (ok a, w') ↦ some (ok a, w')
    | some (err e, w') ↦ some (err (wrap sentinel e), w')
  ]

  abbrev pub when : Bool → Effect W Unit → Effect W Unit
  when condition m = if condition then m else pure tt

  -- for _, x := range xs, with a return on an error
  unfoldable pub each : {A : Type 0} → (A → Effect W Unit) → List A → Effect W Unit
  each body [] = pure tt
  each body (x ∷ xs) = body x >> each body xs
