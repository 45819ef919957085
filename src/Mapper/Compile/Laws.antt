-- ===== src/Mapper/Compile/Laws.antt =====
-- How the errors of the parts of a mapping come together.
use mathlib.Core.Path.{ap₂}
use ibdm.Base.{
  String, ◌≡◌, refl, ap, ◌∙◌, ◌↔◌, inl, inr, Option, none, some, List, [], ◌∷◌, arith, Err, wrap,
  Result, ok, err, ◌>>=◌, eq_iff, Bool-cases, if◌then◌else◌,
}
use ibdm.Value.{Fields, end, field, get_field}
use ibdm.Mapper.Template.{Template}
use ibdm.Mapper.Apply.{ExtraMapping, InternalMapper}
use ibdm.Mapper.Compile.{
  template_document, is_reserved, body_map, add_error, kept, compile_extra, compile_extra_mappings,
  assemble, new_mapper,
}

-- The body of an extra item keeps every field but the required ones and `createIf`.
pub get_field-body_map :
    (m : Fields) (j : String)
    → get_field j (body_map m) ≡ (if is_reserved j then none else get_field j m)
unfolding body_map get_field
get_field-body_map end j = ground arith
get_field-body_map (field k v m) j =
    let later = get_field-body_map m j in
    elim (Bool-cases (is_reserved k)) [
      | inl e ↦ rw (e, body_map) (ground (arith, later, e, eq_iff k j))
      | inr e ↦ rw (e, body_map) (ground (arith, later, e, eq_iff k j))
    ]

-- The errors after a parse are none exactly if there were none and the parse succeeded.
kept_fine {ℓ} :
    {A : Type ℓ} (r : Result A) (errs : Option Err)
    → (kept r errs).1 ≡ none
    → (errs ≡ none) × ((a : A) × (r ≡ ok a))
kept_fine (ok a) errs h = (h, (a, refl))
kept_fine (err e) none h = cc
kept_fine (err e) (some f) h = cc

module _ {S : Type 0} (parse : String → String → Result (Template S))
    (marshal : Fields → Result String) where
  -- All extras compiled one after another, up to the first error.
  abbrev pub compile_all : List Fields → Result (List (ExtraMapping S))
  compile_all [] = ok []
  compile_all (extra ∷ more) = do
    m ← compile_extra parse marshal extra
    ms ← compile_all more
    ok (m ∷ ms)

  -- One round, over the result of its parses.
  round_fine :
      (r : Result (ExtraMapping S)) (errs : Option Err)
      (tail : Option Err → List (ExtraMapping S) × Option Err)
      (rest : Result (List (ExtraMapping S)))
      → ((e : Option Err) → (tail e).1 ≡ none → (e ≡ none) × (rest ≡ ok (tail e).0))
      → (tail (kept r errs).1).1 ≡ none
      → (errs ≡ none)
        × ((do m ← r; ms ← rest; ok (m ∷ ms))
            ≡ ok (elim (kept r errs).0 [
              | none ↦ (tail (kept r errs).1).0
              | some m ↦ m ∷ (tail (kept r errs).1).0
            ]))
  round_fine (ok m) errs tail rest ih h = let (fine, later) = ih errs h in (fine, rw later refl)
  round_fine (err e) errs tail rest ih h =
      let (_, (_, never)) =
        kept_fine {A = ExtraMapping S} (err e) errs (ih (add_error errs e) h).0 in
      cc never

  extras_fine :
      (extras : List Fields) (errs : Option Err)
      → (compile_extra_mappings parse marshal extras errs).1 ≡ none
      → (errs ≡ none)
        × (compile_all extras ≡ ok (compile_extra_mappings parse marshal extras errs).0)
  unfolding compile_extra_mappings
  extras_fine [] errs h = (h, refl)
  extras_fine (extra ∷ more) errs h =
      round_fine (compile_extra parse marshal extra) errs
        (compile_extra_mappings parse marshal more) (compile_all more) (extras_fine more) h

  round_kept :
      (r : Result (ExtraMapping S)) (tail : Option Err → List (ExtraMapping S) × Option Err)
      (rest : Result (List (ExtraMapping S))) (ms : List (ExtraMapping S))
      → ((l : List (ExtraMapping S)) → rest ≡ ok l → tail none ≡ (l, none))
      → (do m ← r; l ← rest; ok (m ∷ l)) ≡ ok ms
      → ◌≡◌ {A = List (ExtraMapping S) × Option Err}
          (
            elim (kept r none).0 [
              | none ↦ (tail (kept r none).1).0
              | some m ↦ m ∷ (tail (kept r none).1).0
            ],
            (tail (kept r none).1).1,
          )
          (ms, none)
  round_kept (ok m) tail (ok l) ms ih h =
      let e : ◌≡◌ {A = List (ExtraMapping S)} (m ∷ l) ms = cc in
      rw (ih l refl) (ap (λ x. (x, none)) e)
  round_kept (ok m) tail (err f) ms ih h = cc
  round_kept (err e) tail rest ms ih h = cc

  extras_kept :
      (extras : List Fields) (ms : List (ExtraMapping S))
      → compile_all extras ≡ ok ms
      → compile_extra_mappings parse marshal extras none ≡ (ms, none)
  unfolding compile_extra_mappings
  extras_kept [] ms h = ap (λ l. (l, none)) (cc)
  extras_kept (extra ∷ more) ms h =
      round_kept (compile_extra parse marshal extra) (compile_extra_mappings parse marshal more)
        (compile_all more) ms (extras_kept more) h

-- `New` over the results of its parses.
module _ {S : Type 0} (tail : Option Err → List (ExtraMapping S) × Option Err) where
  abbrev finish :
      Option (Template S)
      → Option (Template S)
      → Option (Template S)
      → List (ExtraMapping S) × Option Err
      → Result (InternalMapper S)
  finish a b c (extras, errs) = elim errs [
    | some e ↦ err (wrap "mapper template parsing error" e)
    | none ↦ assemble a b c extras
  ]

  abbrev combined :
      Result (Template S) → Result (Template S) → Result (Template S) → Result (InternalMapper S)
  combined r₁ r₂ r₃ =
      let (a, e₁) = kept r₁ none in
      let (b, e₂) = kept r₂ e₁ in let (c, e₃) = kept r₃ e₂ in finish a b c (tail e₃)

  finish_fine :
      (a b c : Option (Template S)) (p : List (ExtraMapping S) × Option Err) (m : InternalMapper S)
      → finish a b c p ≡ ok m
      → (p.1 ≡ none) × (assemble a b c p.0 ≡ ok m)
  finish_fine a b c (extras, none) m h = (refl, h)
  finish_fine a b c (extras, some e) m h = cc

  mapper_parts :
      (a b c : Template S) (m : InternalMapper S)
      → (tail none).1 ≡ none
      → assemble (some a) (some b) (some c) (tail none).0 ≡ ok m
      → (ok a ≡ ok m.id_template)
        × (ok b ≡ ok m.metadata_template)
        × (ok c ≡ ok m.spec_template)
        × (tail none ≡ (m.extra_mappings, none))
  mapper_parts a b c m fine made =
      let same : ◌≡◌ {A = InternalMapper S}
          (record {
            id_template = a;
            metadata_template = b;
            spec_template = c;
            extra_mappings = (tail none).0;
          })
          m =
        cc made in
      (
        ap (λ x. ok x.id_template) same,
        ap (λ x. ok x.metadata_template) same,
        ap (λ x. ok x.spec_template) same,
        ap₂ {C = List (ExtraMapping S) × Option Err} (λ x y. (x, y))
            (ap (λ x. x.extra_mappings) same) fine,
      )

  combined_ok :
      (r₁ r₂ r₃ : Result (Template S)) (m : InternalMapper S)
      → (a : Template S) × (r₁ ≡ ok a)
      → (b : Template S) × (r₂ ≡ ok b)
      → (c : Template S) × (r₃ ≡ ok c)
      → combined r₁ r₂ r₃ ≡ ok m
      → (r₁ ≡ ok m.id_template)
        × (r₂ ≡ ok m.metadata_template)
        × (r₃ ≡ ok m.spec_template)
        × (tail none ≡ (m.extra_mappings, none))
  combined_ok (ok a) (ok b) (ok c) m _ _ _ h =
      let (fine, made) = finish_fine (some a) (some b) (some c) (tail none) m h in
      mapper_parts a b c m fine made
  combined_ok (err e) r₂ r₃ m (_, k) _ _ h = cc
  combined_ok (ok a) (err e) r₃ m _ (_, k) _ h = cc
  combined_ok (ok a) (ok b) (err e) m _ _ (_, k) h = cc

  combined_fine :
      (r₁ r₂ r₃ : Result (Template S)) (m : InternalMapper S)
      → ((e : Option Err) → (tail e).1 ≡ none → e ≡ none)
      → combined r₁ r₂ r₃ ≡ ok m
      → (r₁ ≡ ok m.id_template)
        × (r₂ ≡ ok m.metadata_template)
        × (r₃ ≡ ok m.spec_template)
        × (tail none ≡ (m.extra_mappings, none))
  combined_fine r₁ r₂ r₃ m ih h =
      let e₁ : Option Err = (kept r₁ none).1 in
      let e₂ : Option Err = (kept r₂ e₁).1 in
      let (fine, _) =
        finish_fine (kept r₁ none).0 (kept r₂ e₁).0 (kept r₃ e₂).0 (tail (kept r₃ e₂).1) m h in
      let (fine₂, third) = kept_fine r₃ e₂ (ih _ fine) in
      let (fine₁, second) = kept_fine r₂ e₁ fine₂ in
      let (_, first) = kept_fine r₁ none fine₁ in combined_ok r₁ r₂ r₃ m first second third h

  combined_complete :
      (r₁ r₂ r₃ : Result (Template S)) (m : InternalMapper S)
      → r₁ ≡ ok m.id_template
      → r₂ ≡ ok m.metadata_template
      → r₃ ≡ ok m.spec_template
      → tail none ≡ (m.extra_mappings, none)
      → combined r₁ r₂ r₃ ≡ ok m
  combined_complete r₁ r₂ r₃ m p q r t = rw (p, q, r, t) refl

module _ {S : Type 0} (parse : String → String → Result (Template S))
    (marshal : Fields → Result String) where
  -- `New` succeeds exactly when every template parses and every extra mapping compiles, and gives
  -- those templates and, in order and without a gap, those extra mappings; any error, also of a
  -- later template, makes the whole mapping fail.
  pub new_mapper_iff :
      (identifier : String) (metadata spec : List (String × String)) (extras : List Fields)
      (m : InternalMapper S)
      → (new_mapper parse marshal identifier metadata spec extras ≡ ok m) ↔ (
          (parse "identifier" identifier ≡ ok m.id_template)
          × (parse "metadata" (template_document metadata) ≡ ok m.metadata_template)
          × (parse "spec" (template_document spec) ≡ ok m.spec_template)
          × (compile_all parse marshal extras ≡ ok m.extra_mappings))
  unfolding new_mapper
  new_mapper_iff identifier metadata spec extras m =
      let tail = compile_extra_mappings parse marshal extras in
      let r₁ = parse "identifier" identifier in
      let r₂ = parse "metadata" (template_document metadata) in
      let r₃ = parse "spec" (template_document spec) in
      let fine = extras_fine parse marshal extras in
      (
        λ h.
            let (a, b, c, t) = combined_fine tail r₁ r₂ r₃ m (λ e k. (fine e k).0) h in
            (a, b, c, (fine none (ap (λ p. p.1) t)).1 ∙ ap (λ p. ok p.0) t),
        λ h.
            let (a, b, c, d) = h in
            combined_complete tail r₁ r₂ r₃ m a b c
              (extras_kept parse marshal extras m.extra_mappings d),
      )
