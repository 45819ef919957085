-- ===== src/Regex/Laws.antt =====
-- The matcher by derivatives and the meaning of patterns.
use mathlib.Core.Path.{subst}
use ibdm.Base.{
  ℕ, ◌≡◌, refl, sym, ap, ◌∙◌, ◌↔◌, ◌⊎◌, inl, inr, Bool, true, false, List, [], ◌∷◌, ◌++◌,
  and-true_iff, or-true_iff, if◌then◌else◌,
}
use ibdm.Regex.{
  Regex, nothing, nil, chars, seq, alt, star, Matches, at_nil, at_char, at_seq, at_left, at_right,
  at_done, at_more, nullable, deriv, is_match,
}

nullable_sound : (r : Regex) → nullable r ≡ true → Matches r []
unfolding nullable
nullable_sound nothing h = cc
nullable_sound nil h = at_nil refl
nullable_sound (chars p) h = cc
nullable_sound (seq r q) h =
    let (a, b) = (and-true_iff (nullable r) (nullable q)).0 h in
    at_seq [] [] (nullable_sound r a) (nullable_sound q b) refl
nullable_sound (alt r q) h =
    let left = nullable_sound r in
    let right = nullable_sound q in
    elim ((or-true_iff (nullable r) (nullable q)).0 h) [
      | inl a ↦ at_left (left a)
      | inr b ↦ at_right (right b)
    ]
nullable_sound (star r) h = at_done refl

append-eq-nil : (s t : List ℕ) → [] ≡ s ++ t → (s ≡ []) × (t ≡ [])
append-eq-nil [] t e = (refl, sym e)
append-eq-nil (x ∷ s) t e = cc

nullable_complete : {r : Regex} {u : List ℕ} → Matches r u → u ≡ [] → nullable r ≡ true
unfolding nullable
nullable_complete (at_nil e) h = refl
nullable_complete (at_char c p e) h = cc
nullable_complete (at_seq {r = r} {q = q} s t a b e) h =
    let (hs, ht) = append-eq-nil s t (sym h ∙ e) in
    (and-true_iff (nullable r) (nullable q)).1 (nullable_complete a hs, nullable_complete b ht)
nullable_complete (at_left {r = r} {q = q} a) h =
    (or-true_iff (nullable r) (nullable q)).1 (inl (nullable_complete a h))
nullable_complete (at_right {r = r} {q = q} b) h =
    (or-true_iff (nullable r) (nullable q)).1 (inr (nullable_complete b h))
nullable_complete (at_done e) h = refl
nullable_complete (at_more s t a b e) h = refl

-- Inversions over a variable pattern.
module _ {r q : Regex} where
  seq_inv :
      {u : List ℕ}
      → Matches (seq r q) u
      → (s : List ℕ) × (t : List ℕ) × Matches r s × Matches q t × (u ≡ s ++ t)
  seq_inv (at_seq s t a b e) = (s, t, a, b, e)

  alt_inv : {u : List ℕ} → Matches (alt r q) u → Matches r u ⊎ Matches q u
  alt_inv (at_left a) = inl a
  alt_inv (at_right b) = inr b

nothing_inv : {u : List ℕ} → Matches nothing u → ⊥
nothing_inv h = elim h [ ]

nil_inv : {u : List ℕ} → Matches nil u → u ≡ []
nil_inv (at_nil e) = e

guarded_inv :
    (b : Bool) (q : Regex) {u : List ℕ}
    → Matches (if b then q else nothing) u
    → (b ≡ true) × Matches q u
guarded_inv true q h = (refl, h)
guarded_inv false q h = absurd (nothing_inv h)

guarded_intro :
    (b : Bool) (q : Regex) {u : List ℕ}
    → b ≡ true
    → Matches q u
    → Matches (if b then q else nothing) u
guarded_intro true q e h = h
guarded_intro false q e h = cc

deriv_sound : (c : ℕ) (r : Regex) (s : List ℕ) → Matches (deriv c r) s → Matches r (c ∷ s)
unfolding deriv
deriv_sound c nothing s h = absurd (nothing_inv h)
deriv_sound c nil s h = absurd (nothing_inv h)
deriv_sound c (chars p) s h =
    let (e, k) = guarded_inv (p c) nil h in at_char c e (ap (λ t. c ∷ t) (nil_inv k))
deriv_sound c (seq r q) s h =
    let first = deriv_sound c r in
    let second = deriv_sound c q s in
    elim (alt_inv h) [
      | inl a ↦
          let (s₁, s₂, k, l, e) = seq_inv a in at_seq (c ∷ s₁) s₂ (first s₁ k) l (ap (λ t. c ∷ t) e)
      | inr b ↦
          let (n, k) = guarded_inv (nullable r) (deriv c q) b in
          at_seq [] (c ∷ s) (nullable_sound r n) (second k) refl
    ]
deriv_sound c (alt r q) s h =
    let left = deriv_sound c r s in
    let right = deriv_sound c q s in
    elim (alt_inv h) [ inl a ↦ at_left (left a) | inr b ↦ at_right (right b) ]
deriv_sound c (star r) s h =
    let (s₁, s₂, k, l, e) = seq_inv h in
    at_more (c ∷ s₁) s₂ (deriv_sound c r s₁ k) l (ap (λ t. c ∷ t) e)

-- How a text that begins with `c` splits.
cons_split :
    (c : ℕ) (w s t : List ℕ)
    → c ∷ w ≡ s ++ t
    → ((s ≡ []) × (t ≡ c ∷ w)) ⊎ ((s' : List ℕ) × (s ≡ c ∷ s') × (w ≡ s' ++ t))
cons_split c w [] t e = inl (refl, sym e)
cons_split c w (x ∷ s) t e = inr (s, cc, cc)

deriv_complete :
    {r : Regex} {u : List ℕ} (c : ℕ) (w : List ℕ) → Matches r u → u ≡ c ∷ w → Matches (deriv c r) w
unfolding deriv
deriv_complete c w (at_nil e) h = cc
deriv_complete c w (at_char {p = p} d k e) h =
    guarded_intro (p c) nil (subst (λ x. p x ≡ true) (cc) k) (at_nil (cc))
deriv_complete c w (at_seq {r = r} {q = q} s t a b e) h =
    let first = λ (s' : List ℕ). deriv_complete c s' a in
    let second = deriv_complete c w b in
    elim (cons_split c w s t (sym h ∙ e)) [
      | inl (se, te) ↦
          at_right (guarded_intro (nullable r) (deriv c q) (nullable_complete a se) (second te))
      | inr (s', se, we) ↦ at_left (at_seq s' t (first s' se) b we)
    ]
deriv_complete c w (at_left a) h = at_left (deriv_complete c w a h)
deriv_complete c w (at_right b) h = at_right (deriv_complete c w b h)
deriv_complete c w (at_done e) h = cc
deriv_complete c w (at_more s t a b e) h =
    let first = λ (s' : List ℕ). deriv_complete c s' a in
    let later = deriv_complete c w b in
    elim (cons_split c w s t (sym h ∙ e)) [
      | inl (se, te) ↦ later te
      | inr (s', se, we) ↦ at_seq s' t (first s' se) b we
    ]

-- `is_match` accepts a text exactly when the pattern stands for it.
pub is_match_iff : (r : Regex) (u : List ℕ) → (is_match r u ≡ true) ↔ Matches r u
unfolding is_match
is_match_iff r [] = (nullable_sound r, λ m. nullable_complete m refl)
is_match_iff r (c ∷ u) =
    let rest = is_match_iff (deriv c r) u in
    (λ h. deriv_sound c r u (rest.0 h), λ m. rest.1 (deriv_complete c u m refl))
