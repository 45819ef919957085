-- ===== src/Effect/Laws.antt =====
-- Proof rules for functions on the world, one for each way to build one.
use ibdm.Base.{
  String, ◌≡◌, refl, Bool, true, false, Option, none, some, Option-cases, List, [], ◌∷◌, inl, inr,
  Err, wrap, Result, ok, err, if◌then◌else◌,
}
use ibdm.Effect.{Effect, ◌>>=◌, pure, fail, lift, check, attempt, wrapping, when, each}

abbrev pub Always : {A : Type 0} → A → Type 0
Always _ = Unit

-- A result whose error has one property or whose value has the other.
abbrev pub Either : {A : Type 0} → (Err → Type 0) → (A → Type 0) → Result A → Type 0
Either Fails Gives (ok a) = Gives a
Either Fails Gives (err e) = Fails e

-- There was fuel enough, the result is as said, and the world satisfies `I`.
abbrev pub Ended :
    {W A : Type 0} → (W → Type 0) → (Err → Type 0) → (A → Type 0) → Option (Result A × W) → Type 0
Ended I Fails Gives none = ⊥
Ended I Fails Gives (some (r, w)) = Either Fails Gives r × I w

pub record Ends {W A : Type 0} (I : W → Type 0) (Fails : Err → Type 0) (Gives : A → Type 0)
    (m : Effect W A) : Type 0 where
  pub run : (w : W) → I w → Ended I Fails Gives (m w)

module _ {W : Type 0} {I : W → Type 0} {Fails : Err → Type 0} where
  pub Ends-bind :
      {A B : Type 0} {Gives : A → Type 0} {Then : B → Type 0} {m : Effect W A}
      {next : A → Effect W B}
      → Ends I Fails Gives m
      → ((a : A) → Gives a → Ends I Fails Then (next a))
      → Ends I Fails Then (m >>= next)
  unfolding ◌>>=◌
  Ends-bind {m = m} first second = record {
    run = λ w h.
        let k = first.run w h in
        elim (Option-cases (m w)) [
          | inl e ↦ absurd (rw e at k)
          | inr ((ok a, w'), e) ↦
              (let (g, i) = (rw e at k) in rw (e, ◌>>=◌) ((second a g).run w' i))
          | inr ((err f, w'), e) ↦ rw (e, ◌>>=◌) (rw e at k)
        ];
  }

  pub Ends-attempt :
      {A : Type 0} {Handled : Err → Type 0} {Gives : A → Type 0} {m : Effect W A}
      → Ends I Handled Gives m
      → Ends I Fails (Either Handled Gives) (attempt m)
  unfolding attempt
  Ends-attempt {m = m} h = record {
    run = λ w i.
        let k = h.run w i in
        elim (Option-cases (m w)) [
          | inl e ↦ absurd (rw e at k)
          | inr ((r, w'), e) ↦ rw (e, attempt) (rw e at k)
        ];
  }

  pub Ends-wrapping :
      {A : Type 0} {Inner : Err → Type 0} {Gives : A → Type 0} {m : Effect W A} (sentinel : String)
      → ((e : Err) → Inner e → Fails (wrap sentinel e))
      → Ends I Inner Gives m
      → Ends I Fails Gives (wrapping sentinel m)
  unfolding wrapping
  Ends-wrapping {m = m} sentinel wraps h = record {
    run = λ w i.
        let k = h.run w i in
        elim (Option-cases (m w)) [
          | inl e ↦ absurd (rw e at k)
          | inr ((ok a, w'), e) ↦ rw (e, wrapping) (rw e at k)
          | inr ((err f, w'), e) ↦ (let (g, j) = (rw e at k) in rw (e, wrapping) (wraps f g, j))
        ];
  }

  pub Ends-mono :
      {A : Type 0} {Inner : Err → Type 0} {Gives : A → Type 0} {m : Effect W A}
      → ((e : Err) → Inner e → Fails e)
      → Ends I Inner Gives m
      → Ends I Fails Gives m
  Ends-mono {m = m} weaker h = record {
    run = λ w i.
        let k = h.run w i in
        elim (Option-cases (m w)) [
          | inl e ↦ absurd (rw e at k)
          | inr ((ok a, w'), e) ↦ rw e (rw e at k)
          | inr ((err f, w'), e) ↦ (let (g, j) = (rw e at k) in rw e (weaker f g, j))
        ];
  }

  pub Ends-if :
      {A : Type 0} {Gives : A → Type 0} {m n : Effect W A} (b : Bool)
      → (b ≡ true → Ends I Fails Gives m)
      → (b ≡ false → Ends I Fails Gives n)
      → Ends I Fails Gives (if b then m else n)
  Ends-if true h k = h refl
  Ends-if false h k = k refl

  pub Ends-lift :
      {A : Type 0} {Gives : A → Type 0} (r : Result A)
      → ((a : A) → r ≡ ok a → Gives a)
      → ((e : Err) → r ≡ err e → Fails e)
      → Ends I Fails Gives (lift r)
  Ends-lift (ok a) g f = record { run = λ w i. (g a refl, i) }
  Ends-lift (err e) g f = record { run = λ w i. (f e refl, i) }

  pub Ends-check :
      (o : Option Err) → ((e : Err) → o ≡ some e → Fails e) → Ends I Fails Always (check o)
  Ends-check none f = record { run = λ w i. (tt, i) }
  Ends-check (some e) f = record { run = λ w i. (f e refl, i) }

  pub Ends-pure : {A : Type 0} {Gives : A → Type 0} (a : A) → Gives a → Ends I Fails Gives (pure a)
  Ends-pure a g = record { run = λ w i. (g, i) }

  pub Ends-fail :
      {A : Type 0} {Gives : A → Type 0} (e : Err) → Fails e → Ends I Fails Gives (fail e)
  Ends-fail e f = record { run = λ w i. (f, i) }

  pub Ends-when :
      {m : Effect W Unit} (b : Bool)
      → (b ≡ true → Ends I Fails Always m)
      → Ends I Fails Always (when b m)
  Ends-when true h = h refl
  Ends-when false h = Ends-pure tt tt

  pub Ends-each :
      {A : Type 0} (body : A → Effect W Unit)
      → ((a : A) → Ends I Fails Always (body a))
      → (xs : List A) → Ends I Fails Always (each body xs)
  unfolding each
  Ends-each body h [] = Ends-pure tt tt
  Ends-each body h (x ∷ xs) = Ends-bind (h x) (λ _ _. Ends-each body h xs)

-- A result that is wrapped and of which nothing is kept.
pub Ends-wrapped :
    {W A : Type 0} {I : W → Type 0} (sentinel : String) (r : Result A)
    → Ends I Always Always (wrapping sentinel (lift r))
Ends-wrapped sentinel r = Ends-wrapping sentinel (λ _ _. tt) (Ends-lift r (λ _ _. tt) (λ _ _. tt))
