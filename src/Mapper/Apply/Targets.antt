-- ===== src/Mapper/Apply/Targets.antt =====
-- Which extra items an upsert creates and a delete removes, for templates that leave their data as
-- they found it.
use mathlib.Core.Path.{subst, ap₂}
use ibdm.Base.{
  String, ◌≡◌, refl, sym, ap, ◌∙◌, ◌==◌, Bool, true, false, Bool-cases, Option-cases, inl, inr,
  some, List, [], ◌∷◌, arith, Result, ok, err, map,
}
use ibdm.Config.{delete_policy_none}
use ibdm.Mapper.Template.{Template, Action, continue, wrapped, continue-eq-ok, wrapped-eq-ok}
use ibdm.Mapper.Identifier.{execute_identifier_template}
use ibdm.Mapper.Apply.{
  Yaml, ExtraMapping, InternalMapper, MappedData, ExtraMappedData, ParentItemInfo,
  err_parsing_extra, wants_extra, extra_body, render_extra, execute_templates_map,
  execute_extra_mappings, apply_templates, identify_extras, apply_identifier_template, to_delete,
}

-- What the catalog knows an item by.
abbrev pub Target : Type 0
Target = String × String × String

abbrev pub target : ExtraMappedData → Target
target x = (x.api_version, x.item_family, x.identifier)

-- Which item an extra mapping stands for, if its identifier can be rendered.
abbrev pub target_of : {S : Type 0} → S → ExtraMapping S → Result Target
target_of s extra = elim (execute_identifier_template extra.id_template "extra-id" s).0 [
  | ok id ↦ ok (extra.api_version, extra.item_family, id)
  | err e ↦ err e
]

-- The mappings that `createIf` lets through, and those that a delete follows.
module _ {S : Type 0} (yaml : Yaml) (s : S) where
  abbrev pub created : List (ExtraMapping S) → List (ExtraMapping S)
  created [] = []
  created (extra ∷ more) =
      let rest = created more in
      elim (wants_extra yaml extra s).0 [ ok true ↦ extra ∷ rest | _ ↦ rest ]

module _ {S : Type 0} where
  abbrev pub cascading : List (ExtraMapping S) → List (ExtraMapping S)
  cascading [] = []
  cascading (extra ∷ more) =
      let rest = cascading more in
      elim (extra.delete_policy == delete_policy_none) [ true ↦ rest | false ↦ extra ∷ rest ]

  -- A template that writes nothing into its data and uses up no clock or random number.
  abbrev pub IsStable : Template S → Type 0
  IsStable tmpl = (s : S) → (tmpl s).after ≡ s

  pub record IsStableExtra (extra : ExtraMapping S) : Type 0 where
    pub create_if : (t : Template S) → extra.create_if_template ≡ some t → IsStable t
    pub id : IsStable extra.id_template
    pub body : IsStable extra.body_template

  execute_identifier_template_stable :
      (tmpl : Template S) (name : String) (s : S)
      → IsStable tmpl
      → (execute_identifier_template tmpl name s).1 ≡ s
  unfolding execute_identifier_template
  execute_identifier_template_stable tmpl name s k = ground (arith, k s)

  abbrev pub AreStable : List (ExtraMapping S) → Type 0
  AreStable [] = Unit
  AreStable (extra ∷ more) = IsStableExtra extra × AreStable more

  -- A pair and its parts.
  parts :
      {A : Type 0} (p : Result A × S) {a : A} {s t : S}
      → p ≡ (ok a, t)
      → p.1 ≡ s
      → (p.0 ≡ ok a) × (t ≡ s)
  parts p h k = (ap (λ q. q.0) h, sym (ap (λ q. q.1) h) ∙ k)

ok_pair :
    {A S : Type 0} {a b : A} {s t : S}
    → ◌≡◌ {A = Result A × S} (ok a, s) (ok b, t)
    → (a ≡ b) × (s ≡ t)
ok_pair h = (cc (ap (λ q. q.0) h), ap (λ q. q.1) h)

module _ {S : Type 0} (yaml : Yaml) where
  wants_extra_stable :
      (extra : ExtraMapping S) (s : S) → IsStableExtra extra → (wants_extra yaml extra s).1 ≡ s
  unfolding wants_extra
  wants_extra_stable extra s k = elim (Option-cases extra.create_if_template) [
    | inl e ↦ rw (e, wants_extra) refl
    | inr (t, e) ↦ rw (e, wants_extra) (k.create_if t e s)
  ]

  extra_body_stable :
      (extra : ExtraMapping S) (s : S) → IsStableExtra extra → (extra_body yaml extra s).1 ≡ s
  unfolding extra_body
  extra_body_stable extra s k = k.body s

  render_extra-target :
      (extra : ExtraMapping S) (s t : S) (x : ExtraMappedData)
      → IsStableExtra extra
      → render_extra yaml extra s ≡ (ok x, t)
      → (t ≡ s) × (ok (target x) ≡ target_of s extra)
  unfolding render_extra
  render_extra-target extra s t x k h =
      let id = execute_identifier_template extra.id_template "extra-id" s in
      let (identifier, s₂, e, h₂) = continue-eq-ok (wrapped err_parsing_extra id.0, id.1) _ h in
      let (named, s₂_is) =
        parts id (wrapped-eq-ok err_parsing_extra id e)
          (execute_identifier_template_stable extra.id_template "extra-id" s k.id) in
      let (spec, s₃, e₃, h₃) = continue-eq-ok (extra_body yaml extra s₂) _ h₂ in
      let (_, s₃_is) = parts (extra_body yaml extra s₂) e₃ (extra_body_stable extra s₂ k) in
      (sym (ap (λ q. q.1) h₃) ∙ (s₃_is ∙ s₂_is), rw (named, target_of) (cc (ap (λ q. q.0) h₃)))

  -- One round of the loop after the `createIf` test.
  abbrev round : List (ExtraMapping S) → ExtraMapping S → Bool → Action S (List ExtraMappedData)
  round more extra create_if s₁ = elim create_if [
    | false ↦ execute_extra_mappings yaml more s₁
    | true ↦
        continue (render_extra yaml extra s₁) λ item s₂.
          continue (execute_extra_mappings yaml more s₂) λ rest s₃. (ok (item ∷ rest), s₃)
  ]

  -- What the loop renders from `ms`.
  abbrev Renders : List (ExtraMapping S) → Type 0
  Renders ms =
      (s t : S) (extras : List ExtraMappedData)
      → execute_extra_mappings yaml ms s ≡ (ok extras, t)
      → map (λ x. ok (target x)) extras ≡ map (target_of s) (created yaml s ms)

  Renders-round :
      (more : List (ExtraMapping S)) (extra : ExtraMapping S) (create_if : Bool)
      → IsStableExtra extra
      → Renders more
      → (s t : S) (extras : List ExtraMappedData) → (wants_extra yaml extra s).0 ≡ ok create_if
      → round more extra create_if s ≡ (ok extras, t)
      → map (λ x. ok (target x)) extras ≡ map (target_of s) (created yaml s (extra ∷ more))
  Renders-round more extra false k later s t extras w h = rw (w, created) (later s t extras h)
  Renders-round more extra true k later s t extras w h =
      let (item, s₂, e, h₂) = continue-eq-ok (render_extra yaml extra s) _ h in
      let (s₂_is, is_target) = render_extra-target extra s s₂ item k e in
      let (rest, s₃, e₃, h₃) = continue-eq-ok (execute_extra_mappings yaml more s₂) _ h₂ in
      let is_rest =
        later s s₃ rest
          (subst (λ x. execute_extra_mappings yaml more x ≡ (ok rest, s₃)) s₂_is e₃) in
      let (extras_are, _) = ok_pair h₃ in
      rw (w, created) (rw (← extras_are) (ap₂ (λ a b. a ∷ b) is_target is_rest))

  execute_extra_mappings-targets : (ms : List (ExtraMapping S)) → AreStable ms → Renders ms
  unfolding execute_extra_mappings
  execute_extra_mappings-targets [] k s t extras h =
      ap (map (λ x. ok (target x))) (sym (ok_pair h).0)
  execute_extra_mappings-targets (extra ∷ more) (k, ks) s t extras h =
      let (create_if, s₁, e, h₁) = continue-eq-ok (wants_extra yaml extra s) _ h in
      let (wanted, s₁_is) = parts (wants_extra yaml extra s) e (wants_extra_stable extra s k) in
      Renders-round more extra create_if k (execute_extra_mappings-targets more ks) s t extras
        wanted (subst (λ x. round more extra create_if x ≡ (ok extras, t)) s₁_is h₁)

  execute_templates_map_stable :
      (tmpl : Template S) (s : S) → IsStable tmpl → (execute_templates_map yaml tmpl s).1 ≡ s
  unfolding execute_templates_map
  execute_templates_map_stable tmpl s k = k s

abbrev identify_round :
    {S : Type 0} → ExtraMapping S → List (ExtraMapping S) → Action S (List ExtraMappedData)
identify_round extra more s =
    continue (execute_identifier_template extra.id_template "extra-id" s) λ identifier s₁.
      continue (identify_extras more s₁) λ rest s₂. (ok (to_delete extra identifier ∷ rest), s₂)

identified :
    {S : Type 0} (extra : ExtraMapping S) (more : List (ExtraMapping S))
    → IsStableExtra extra
    → ((s t : S) (extras : List ExtraMappedData)
        → identify_extras more s ≡ (ok extras, t)
        → map (λ x. ok (target x)) extras ≡ map (target_of s) (cascading more))
    → (s t : S) (extras : List ExtraMappedData) → identify_round extra more s ≡ (ok extras, t)
    → map (λ x. ok (target x)) extras ≡ target_of s extra ∷ map (target_of s) (cascading more)
identified extra more k later s t extras h =
    let id = execute_identifier_template extra.id_template "extra-id" s in
    let (identifier, s₁, e, h₁) = continue-eq-ok id _ h in
    let (named, s₁_is) =
      parts id e (execute_identifier_template_stable extra.id_template "extra-id" s k.id) in
    let (rest, s₂, e₂, h₂) = continue-eq-ok (identify_extras more s₁) _ h₁ in
    let is_rest = later s s₂ rest (subst (λ x. identify_extras more x ≡ (ok rest, s₂)) s₁_is e₂) in
    let (extras_are, _) = ok_pair h₂ in
    rw (← extras_are) (
      rw (named, target_of)
        (ap (λ l. ok (extra.api_version, extra.item_family, identifier) ∷ l) is_rest))

-- The loop of `ApplyIdentifierTemplate` names exactly the mappings whose policy is not "none".
identify_extras-targets :
    {S : Type 0} (ms : List (ExtraMapping S))
    → AreStable ms
    → (s t : S) (extras : List ExtraMappedData) → identify_extras ms s ≡ (ok extras, t)
    → map (λ x. ok (target x)) extras ≡ map (target_of s) (cascading ms)
unfolding identify_extras
identify_extras-targets [] k s t extras h = ap (map (λ x. ok (target x))) (sym (ok_pair h).0)
identify_extras-targets (extra ∷ more) (k, ks) s t extras h =
    let later = identify_extras-targets more ks in
    elim (Bool-cases (extra.delete_policy == delete_policy_none)) [
      | inl kept ↦ rw (kept, cascading) (later s t extras (rw (kept, identify_extras) at h))
      | inr cascades ↦
          rw (cascades, cascading)
            (identified extra more k later s t extras (rw (cascades, identify_extras) at h))
    ]

abbrev pub AllStable : {S : Type 0} → InternalMapper S → Type 0
AllStable m =
    IsStable m.id_template
    × IsStable m.metadata_template
    × IsStable m.spec_template
    × AreStable m.extra_mappings

-- For templates that leave their state alone, a successful upsert and a successful delete of the
-- same values agree: both name the item as its identifier template does; the upsert makes the
-- extra items of exactly the mappings that `createIf` lets through, in order; and the delete names
-- those of exactly the mappings whose policy is not "none", in order, created or not.
pub upsert_delete-targets :
    {S : Type 0} (yaml : Yaml) (m : InternalMapper S) (parent : ParentItemInfo) (s t u : S)
    (out : MappedData) (id : String) (upserted deleted : List ExtraMappedData)
    → AllStable m
    → apply_templates yaml m parent s ≡ (ok (out, upserted), t)
    → apply_identifier_template m s ≡ (ok (id, deleted), u)
    → (id ≡ out.identifier)
      × ((execute_identifier_template m.id_template "identifier" s).0 ≡ ok id)
      × (map (λ x. ok (target x)) upserted ≡ map (target_of s) (created yaml s m.extra_mappings))
      × (map (λ x. ok (target x)) deleted ≡ map (target_of s) (cascading m.extra_mappings))
unfolding apply_templates apply_identifier_template
upsert_delete-targets yaml m parent s t u out id upserted deleted (kid, kmeta, kspec, ks) h d =
    let first = execute_identifier_template m.id_template "identifier" s in
    let first_stable = execute_identifier_template_stable m.id_template "identifier" s kid in
    let (i, s₁, e₁, h₁) = continue-eq-ok first _ h in
    let (named, s₁_is) = parts first e₁ first_stable in
    let (meta, s₂, e₂, h₂) =
      continue-eq-ok (execute_templates_map yaml m.metadata_template s₁) _ h₁ in
    let (_, s₂_is) = parts _ e₂ (execute_templates_map_stable yaml m.metadata_template s₁ kmeta) in
    let (spec, s₃, e₃, h₃) = continue-eq-ok (execute_templates_map yaml m.spec_template s₂) _ h₂ in
    let (_, s₃_is) = parts _ e₃ (execute_templates_map_stable yaml m.spec_template s₂ kspec) in
    let (extras, s₄, e₄, h₄) =
      continue-eq-ok (execute_extra_mappings yaml m.extra_mappings s₃) _ h₃ in
    let (out_is, _) = ok_pair h₄ in
    let made = execute_extra_mappings-targets yaml m.extra_mappings ks s s₄ extras (
      subst (λ x. execute_extra_mappings yaml m.extra_mappings x ≡ (ok extras, s₄))
        (s₃_is ∙ (s₂_is ∙ s₁_is)) e₄) in
    let (j, r₁, f₁, d₁) = continue-eq-ok first _ d in
    let (named', r₁_is) = parts first f₁ first_stable in
    let (gone, r₂, f₂, d₂) = continue-eq-ok (identify_extras m.extra_mappings r₁) _ d₁ in
    let (del_is, _) = ok_pair d₂ in
    let removed =
      identify_extras-targets m.extra_mappings ks s r₂ gone
        (subst (λ x. identify_extras m.extra_mappings x ≡ (ok gone, r₂)) r₁_is f₂) in
    let j_is : j ≡ id = ap (λ p. p.0) del_is in
    let i_is : i ≡ out.identifier = ap (λ p. p.0.identifier) out_is in
    (
      cc (named, named', j_is, i_is),
      named' ∙ ap (λ x. ok x) j_is,
      ap (λ p. map (λ x. ok (target x)) p.1) (sym out_is) ∙ made,
      ap (λ p. map (λ x. ok (target x)) p.1) (sym del_is) ∙ removed,
    )
