-- ===== src/Mapper/Identifier/Laws.antt =====
-- The identifiers that the mapper lets through, described without the pattern.
use Prim.Native.String.{len}
use mathlib.Core.Bool.{false≢true}
use mathlib.Core.Path.{subst}
use ibdm.Base.{
  ℕ, ◌≤◌, String, ◌≡◌, refl, sym, ap, ◌∙◌, ◌↔◌, ◌⊎◌, inl, inr, Bool, true, false, not, ◌&&◌, ◌||◌,
  Option, none, some, List, [], ◌∷◌, ◌++◌, arith, Err, Result, ok, err, codes, and-true_iff,
  or-true_iff, not-ltb→le, ltb, eqb, if◌then◌else◌,
}
use ibdm.Regex.{
  Regex, nil, chars, seq, alt, star, Matches, at_nil, at_char, at_seq, at_left, at_right, at_done,
  at_more, is_match,
}
use ibdm.Regex.Laws.{is_match_iff}
use ibdm.Mapper.Template.{Template, Ensures}
use ibdm.Mapper.Identifier.{
  is_alnum, is_inner, identifier_regex, max_identifier_length, execute_identifier_template,
  invalid_identifier,
}

module _ (p : ℕ → Bool) where
  abbrev pub first_is : List ℕ → Bool
  first_is [] = false
  first_is (c ∷ u) = p c

  abbrev pub last_is : List ℕ → Bool
  last_is [] = false
  last_is (c ∷ []) = p c
  last_is (c ∷ d ∷ u) = last_is (d ∷ u)

  abbrev pub each_is : List ℕ → Bool
  each_is [] = true
  each_is (c ∷ u) = p c && each_is u

-- Lowercase letters, digits, dots and dashes, with a letter or a digit at both ends.
pub record IsIdentifier (u : List ℕ) : Type 0 where
  pub first : first_is is_alnum u ≡ true
  pub last : last_is is_alnum u ≡ true
  pub each : each_is is_inner u ≡ true

is_inner_of_is_alnum : (c : ℕ) → is_alnum c ≡ true → is_inner c ≡ true
is_inner_of_is_alnum c h = (or-true_iff (is_alnum c) (eqb c b'.' || eqb c b'-')).1 (inl h)

last_is-snoc : (p : ℕ → Bool) (m : List ℕ) (d : ℕ) → last_is p (m ++ d ∷ []) ≡ p d
last_is-snoc p [] d = refl
last_is-snoc p (c ∷ []) d = refl
last_is-snoc p (c ∷ e ∷ m) d = last_is-snoc p (e ∷ m) d

last_is-cons-snoc :
    (p : ℕ → Bool) (c : ℕ) (m : List ℕ) (d : ℕ) → last_is p (c ∷ (m ++ d ∷ [])) ≡ p d
last_is-cons-snoc p c m d = last_is-snoc p (c ∷ m) d

each_is-snoc :
    (p : ℕ → Bool) (m : List ℕ) (d : ℕ)
    → each_is p m ≡ true
    → p d ≡ true
    → each_is p (m ++ d ∷ []) ≡ true
each_is-snoc p [] d h k = (and-true_iff (p d) true).1 (k, refl)
each_is-snoc p (c ∷ m) d h k =
    let (a, b) = (and-true_iff (p c) (each_is p m)).0 h in
    (and-true_iff (p c) _).1 (a, each_is-snoc p m d b k)

-- A text that is not empty has a last character.
snoc_split :
    (p : ℕ → Bool) (c : ℕ) (u : List ℕ)
    → each_is p (c ∷ u) ≡ true
    → (m : List ℕ) × (d : ℕ) × (c ∷ u ≡ m ++ d ∷ []) × (each_is p m ≡ true)
snoc_split p c [] h = ([], c, refl, refl)
snoc_split p c (e ∷ u) h =
    let (a, b) = (and-true_iff (p c) (each_is p (e ∷ u))).0 h in
    let (m, d, k, l) = snoc_split p e u b in
    (c ∷ m, d, ap (λ t. c ∷ t) k, (and-true_iff (p c) (each_is p m)).1 (a, l))

chars_inv :
    {p : ℕ → Bool} {u : List ℕ} → Matches (chars p) u → (c : ℕ) × (p c ≡ true) × (u ≡ c ∷ [])
chars_inv (at_char c k e) = (c, k, e)

star_chars_sound : {p : ℕ → Bool} {u : List ℕ} → Matches (star (chars p)) u → each_is p u ≡ true
star_chars_sound (at_done e) = rw e
star_chars_sound {p} (at_more s t a b e) =
    let (c, k, es) = chars_inv a in
    let tail = star_chars_sound b in rw (e, es) ((and-true_iff (p c) (each_is p t)).1 (k, tail))

star_chars_complete : (p : ℕ → Bool) (u : List ℕ) → each_is p u ≡ true → Matches (star (chars p)) u
star_chars_complete p [] h = at_done refl
star_chars_complete p (c ∷ u) h =
    let (a, b) = (and-true_iff (p c) (each_is p u)).0 h in
    at_more (c ∷ []) u (at_char c a refl) (star_chars_complete p u b) refl

-- The tail after the first character: nothing, or any inner characters and a letter or digit.
abbrev tail_regex : Regex
tail_regex = seq (star (chars is_inner)) (chars is_alnum)

tail_inv :
    {u : List ℕ}
    → Matches (alt nil tail_regex) u
    → (u ≡ [])
      ⊎ ((m : List ℕ) × (d : ℕ) × (each_is is_inner m ≡ true)
          × (is_alnum d ≡ true)
          × (u ≡ m ++ d ∷ []))
tail_inv (at_left (at_nil e)) = inl e
tail_inv (at_right (at_seq s t a b e)) =
    let (d, k, te) = chars_inv b in inr (s, d, star_chars_sound a, k, e ∙ ap (λ l. s ++ l) te)

IsIdentifier-of_tail :
    (c : ℕ) (u : List ℕ)
    → is_alnum c ≡ true
    → (u ≡ [])
      ⊎ ((m : List ℕ) × (d : ℕ) × (each_is is_inner m ≡ true)
          × (is_alnum d ≡ true)
          × (u ≡ m ++ d ∷ []))
    → IsIdentifier (c ∷ u)
IsIdentifier-of_tail c u k (inl e) = rw e (record {
  first = k;
  last = k;
  each = (and-true_iff (is_inner c) true).1 (is_inner_of_is_alnum c k, refl);
})
IsIdentifier-of_tail c u k (inr (m, d, inner, l, e)) = rw e (record {
  first = k;
  last = last_is-cons-snoc is_alnum c m d ∙ l;
  each =
      (and-true_iff (is_inner c) (each_is is_inner (m ++ d ∷ []))).1
        (is_inner_of_is_alnum c k, each_is-snoc is_inner m d inner (is_inner_of_is_alnum d l));
})

seq_char_inv :
    {p : ℕ → Bool} {q : Regex} {u : List ℕ}
    → Matches (seq (chars p) q) u
    → (c : ℕ) × (t : List ℕ) × (p c ≡ true) × Matches q t × (u ≡ c ∷ t)
seq_char_inv (at_seq s t a b e) =
    let (c, k, es) = chars_inv a in (c, t, k, b, e ∙ ap (λ l. l ++ t) es)

regex_sound : {u : List ℕ} → Matches identifier_regex u → IsIdentifier u
regex_sound h =
    let (c, t, k, b, e) = seq_char_inv h in rw e (IsIdentifier-of_tail c t k (tail_inv b))

regex_complete : (u : List ℕ) → IsIdentifier u → Matches identifier_regex u
regex_complete [] h = absurd (false≢true h.first)
regex_complete (c ∷ []) h = at_seq (c ∷ []) [] (at_char c h.first refl) (at_left (at_nil refl)) refl
regex_complete (c ∷ d ∷ u) h =
    let (_, rest) = (and-true_iff (is_inner c) (each_is is_inner (d ∷ u))).0 h.each in
    let (m, l, e, inner) = snoc_split is_inner d u rest in
    let ends : is_alnum l ≡ true =
      sym (last_is-snoc is_alnum m l) ∙ (ap (last_is is_alnum) (sym e) ∙ h.last) in
    at_seq (c ∷ []) (d ∷ u) (at_char c h.first refl)
      (at_right (at_seq m (l ∷ []) (star_chars_complete is_inner m inner) (at_char l ends refl) e))
      refl

-- The pattern `^[a-z0-9]([a-z0-9.-]*[a-z0-9])?$` accepts exactly the texts of lowercase letters,
-- digits, dots and dashes that begin and end with a letter or a digit.
pub identifier_regex_iff : (u : List ℕ) → (is_match identifier_regex u ≡ true) ↔ IsIdentifier u
identifier_regex_iff u =
    let both = is_match_iff identifier_regex u in
    (λ h. regex_sound (both.0 h), λ h. both.1 (regex_complete u h))

-- The branches of `execute_identifier_template`, over the values of its tests.
checks_iff :
    {S : Type 0} (fits long : Bool) (failure : Option Err) (rejected : Err) (out id : String)
    (after : S)
    → ((if not fits || long
          then (let r : Result String × S = (err rejected, after) in r)
          else (elim failure [ none ↦ ok out | some e ↦ err e ], after)).0
        ≡ ok id)
      ↔ ((fits ≡ true) × (long ≡ false) × (failure ≡ none) × (out ≡ id))
checks_iff false long failure rejected out id after = (λ h. cc, λ h. cc)
checks_iff true true failure rejected out id after = (λ h. cc, λ h. cc)
checks_iff true false (some e) rejected out id after = (λ h. cc, λ h. cc)
checks_iff true false none rejected out id after =
    (λ h. (refl, refl, refl, cc), λ h. ap (λ x. ok x) h.3)

le→not-ltb : (a b : ℕ) → b ≤ a → ltb a b ≡ false
le→not-ltb a b h = ground arith

-- When rendering an identifier succeeds, the result is what the template wrote, it is a valid
-- identifier of at most 253 bytes, and the template did not fail; and it succeeds whenever these
-- hold of what the template wrote.
pub execute_identifier_template_iff :
    {S : Type 0} (tmpl : Template S) (name : String) (s : S) (id : String)
    → ((execute_identifier_template tmpl name s).0 ≡ ok id) ↔ (
        ((tmpl s).output ≡ id)
        × ((tmpl s).failure ≡ none)
        × IsIdentifier (codes id)
        × (len id ≤ max_identifier_length))
unfolding execute_identifier_template
execute_identifier_template_iff tmpl name s id =
    let r = tmpl s in
    let checks =
      checks_iff (is_match identifier_regex (codes r.output))
        (ltb max_identifier_length (len r.output)) r.failure (invalid_identifier name r.output)
        r.output id r.after in
    let is_id = identifier_regex_iff (codes r.output) in
    (
      λ h.
          let (fits, short, fine, same) = checks.0 h in
          (
            same,
            fine,
            subst (λ x. IsIdentifier (codes x)) same (is_id.0 fits),
            subst (λ x. len x ≤ max_identifier_length) same
                (not-ltb→le max_identifier_length (len r.output) short),
          ),
      λ h.
          let (same, fine, valid, short) = h in
          checks.1 (
            is_id.1 (subst (λ x. IsIdentifier (codes x)) (sym same) valid),
            le→not-ltb max_identifier_length (len r.output)
                (subst (λ x. len x ≤ max_identifier_length) (sym same) short),
            fine,
            same,
          ),
    )

-- What the catalog accepts as the name of an item.
abbrev pub IsItemName : String → Type 0
IsItemName id = IsIdentifier (codes id) × (len id ≤ max_identifier_length)

pub execute_identifier_template-IsItemName :
    {S : Type 0} (tmpl : Template S) (name : String)
    → Ensures IsItemName (execute_identifier_template tmpl name)
execute_identifier_template-IsItemName tmpl name = record {
  at = λ s t id h.
      (let (_, _, valid, short) =
          (execute_identifier_template_iff tmpl name s id).0 (ap (λ p. p.0) h) in
        (valid, short));
}
