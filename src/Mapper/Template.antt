-- ===== src/Mapper/Template.antt =====
-- text/template as the mapper sees it. A template reads and may change its data (the helper `set`
-- writes into the map that it is given), and may read the clock and draw random numbers, so it acts
-- on a state `S` that holds these. It writes an output, also where it fails half way.
use mathlib.Core.Path.{subst}
use ibdm.Base.{String, ◌≡◌, refl, Option, Err, wrap, Result, ok, err}

pub record Rendered (S : Type 0) : Type 0 where
  pub output : String
  pub failure : Option Err
  pub after : S

abbrev pub Template : Type 0 → Type 0
Template S = S → Rendered S

-- A step over the state that may fail; what was written to the state before a failure stays.
abbrev pub Action : Type 0 → Type 0 → Type 0
Action S A = S → Result A × S

-- fmt.Errorf("%w: %w", sentinel, err) where there is an error
abbrev pub wrapped {ℓ} : {A : Type ℓ} → String → Result A → Result A
wrapped sentinel (ok a) = ok a
wrapped sentinel (err e) = err (wrap sentinel e)

pub wrapped-eq-ok {ℓ κ} :
    {A : Type ℓ} {S : Type κ} (sentinel : String) (p : Result A × S) {a : A} {t : S}
    → ◌≡◌ {A = Result A × S} (wrapped sentinel p.0, p.1) (ok a, t)
    → p ≡ (ok a, t)
wrapped-eq-ok sentinel (ok a, s) h = h
wrapped-eq-ok sentinel (err e, s) h = cc

module _ {S A B : Type 0} where
  abbrev pub continue : Result A × S → (A → Action S B) → Result B × S
  continue (ok a, s) f = f a s
  continue (err e, s) f = (err e, s)

  -- A sequence that succeeds has a first step that succeeds.
  pub continue-eq-ok :
      (r : Result A × S) (f : A → Action S B) {b : B} {t : S}
      → continue r f ≡ (ok b, t)
      → (a : A) × (s : S) × (r ≡ (ok a, s)) × (f a s ≡ (ok b, t))
  continue-eq-ok (ok a, s) f h = (a, s, refl, h)
  continue-eq-ok (err e, s) f h = cc

-- Whatever `m` returns without an error satisfies `P`.
pub record Ensures {S A : Type 0} (P : A → Type 0) (m : Action S A) : Type 0 where
  pub at : (s t : S) (a : A) → m s ≡ (ok a, t) → P a

module _ {S A : Type 0} where
  pub Ensures-ok : {P : A → Type 0} (a : A) → P a → Ensures {S = S} P (λ s. (ok a, s))
  Ensures-ok {P} a p = record { at = λ s t b h. subst P (cc) p }

  -- The step may also end in an error that names where it happened.
  pub Ensures-wrapped :
      {P : A → Type 0} (sentinel : String) (m : Action S A)
      → Ensures P m
      → Ensures P (λ s. (wrapped sentinel (m s).0, (m s).1))
  Ensures-wrapped {P} sentinel m k = record {
    at = λ s t a h. k.at s t a (wrapped-eq-ok sentinel (m s) h);
  }

module _ {S A B : Type 0} where
  -- A sequence ensures what its second step ensures after every result of the first.
  pub Ensures-continue :
      {P : A → Type 0} {Q : B → Type 0} (m : Action S A) (f : A → Action S B)
      → Ensures P m
      → ((a : A) → P a → Ensures Q (f a))
      → Ensures Q (λ s. continue (m s) f)
  Ensures-continue {P} {Q} m f km kf = record {
    at = λ s t b h.
        (let (a, s', e, k) = continue-eq-ok (m s) f h in (kf a (km.at s s' a e)).at s' t b k);
  }
