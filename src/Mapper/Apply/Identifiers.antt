-- ===== src/Mapper/Apply/Identifiers.antt =====
-- The names of the items that the mapper hands on.
use ibdm.Base.{
  String, ◌≡◌, ◌≢◌, ◌==◌, true, false, Bool-cases, inl, inr, none, List, [], ◌∷◌, ok, All,
}
use ibdm.Config.{delete_policy_none}
use ibdm.Mapper.Template.{Action, wrapped, Ensures, Ensures-ok, Ensures-wrapped, Ensures-continue}
use ibdm.Mapper.Identifier.{execute_identifier_template}
use ibdm.Mapper.Identifier.Laws.{IsItemName, execute_identifier_template-IsItemName}
use ibdm.Mapper.Apply.{
  Yaml, ExtraMapping, InternalMapper, MappedData, ExtraMappedData, ParentItemInfo,
  err_parsing_extra, wants_extra, extra_body, render_extra, execute_templates_map,
  execute_extra_mappings, apply_templates, identify_extras, apply_identifier_template,
}

abbrev pub HasItemName : ExtraMappedData → Type 0
HasItemName x = IsItemName x.identifier

-- What is asked of a step that only has to return.
abbrev Any : {A : Type 0} → A → Type 0
Any _ = Unit

Ensures-Any : {S A : Type 0} (m : Action S A) → Ensures Any m
Ensures-Any m = record { at = λ s t a h. tt }

-- What a successful rendering promises: valid names, and maps that are not nil.
abbrev pub IsRendering : MappedData × List ExtraMappedData → Type 0
IsRendering (out, extras) =
    IsItemName out.identifier × (out.metadata ≢ none) × (out.spec ≢ none) × All HasItemName extras

module _ {S : Type 0} (yaml : Yaml) where
  render_extra-HasItemName :
      (extra : ExtraMapping S) → Ensures HasItemName (render_extra yaml extra)
  unfolding render_extra
  render_extra-HasItemName extra =
      let id : Action S String = execute_identifier_template extra.id_template "extra-id" in
      Ensures-continue (λ s. (wrapped err_parsing_extra (id s).0, (id s).1)) _
        (Ensures-wrapped err_parsing_extra id
          (execute_identifier_template-IsItemName extra.id_template "extra-id"))
        λ identifier named.
          Ensures-continue (extra_body yaml extra) _ (Ensures-Any (extra_body yaml extra))
            λ spec _. Ensures-ok _ named

  execute_extra_mappings-HasItemName :
      (extras : List (ExtraMapping S))
      → Ensures (All HasItemName) (execute_extra_mappings yaml extras)
  unfolding execute_extra_mappings
  execute_extra_mappings-HasItemName [] = Ensures-ok [] tt
  execute_extra_mappings-HasItemName (extra ∷ more) =
      let later = execute_extra_mappings-HasItemName more in
      Ensures-continue (wants_extra yaml extra) _ (Ensures-Any (wants_extra yaml extra)) (elim [
        | false ↦ λ _. later
        | true ↦ λ _.
            Ensures-continue (render_extra yaml extra) _ (render_extra-HasItemName extra)
              λ item named.
                Ensures-continue (execute_extra_mappings yaml more) _ later
                  λ rest all_named. Ensures-ok _ (named, all_named)
      ])

  Ensures-apply_templates :
      (m : InternalMapper S) (parent : ParentItemInfo)
      → Ensures IsRendering (apply_templates yaml m parent)
  unfolding apply_templates
  Ensures-apply_templates m parent =
      Ensures-continue (execute_identifier_template m.id_template "identifier") _
        (execute_identifier_template-IsItemName m.id_template "identifier")
        λ identifier named.
          Ensures-continue (execute_templates_map yaml m.metadata_template) _ (Ensures-Any _)
            λ metadata _.
              Ensures-continue (execute_templates_map yaml m.spec_template) _ (Ensures-Any _)
                λ spec _.
                  Ensures-continue (execute_extra_mappings yaml m.extra_mappings) _
                    (execute_extra_mappings-HasItemName m.extra_mappings)
                    λ extras all_named. Ensures-ok _ (named, (λ e. cc), (λ e. cc), all_named)

  -- Whenever `ApplyTemplates` succeeds, the item and every extra item have a valid name, and the
  -- metadata and the spec of the item are maps, not nil.
  pub apply_templates-IsRendering :
      (m : InternalMapper S) (parent : ParentItemInfo) (s t : S)
      (r : MappedData × List ExtraMappedData)
      → apply_templates yaml m parent s ≡ (ok r, t)
      → IsRendering r
  apply_templates-IsRendering m parent s t r h = (Ensures-apply_templates m parent).at s t r h

module _ {S : Type 0} where
  identify_extras-HasItemName :
      (extras : List (ExtraMapping S)) → Ensures (All HasItemName) (identify_extras extras)
  unfolding identify_extras
  identify_extras-HasItemName [] = Ensures-ok [] tt
  identify_extras-HasItemName (extra ∷ more) =
      let later = identify_extras-HasItemName more in
      elim (Bool-cases (extra.delete_policy == delete_policy_none)) [
        | inl kept ↦ rw (kept, identify_extras) later
        | inr cascades ↦
            rw (cascades, identify_extras)
              (Ensures-continue (execute_identifier_template extra.id_template "extra-id") _
                (execute_identifier_template-IsItemName extra.id_template "extra-id")
                λ identifier named.
                  Ensures-continue (identify_extras more) _ later
                    λ rest all_named. Ensures-ok _ (named, all_named))
      ]

  Ensures-apply_identifier_template :
      (m : InternalMapper S)
      → Ensures (λ r. IsItemName r.0 × All HasItemName r.1) (apply_identifier_template m)
  unfolding apply_identifier_template
  Ensures-apply_identifier_template m =
      Ensures-continue (execute_identifier_template m.id_template "identifier") _
        (execute_identifier_template-IsItemName m.id_template "identifier")
        λ identifier named.
          Ensures-continue (identify_extras m.extra_mappings) _
            (identify_extras-HasItemName m.extra_mappings)
            λ extras all_named. Ensures-ok _ (named, all_named)

  -- Whenever `ApplyIdentifierTemplate` succeeds, the name of the item to delete and those of its
  -- extra items are valid.
  pub apply_identifier_template-HasItemName :
      (m : InternalMapper S) (s t : S) (id : String) (extras : List ExtraMappedData)
      → apply_identifier_template m s ≡ (ok (id, extras), t)
      → IsItemName id × All HasItemName extras
  apply_identifier_template-HasItemName m s t id extras h =
      (Ensures-apply_identifier_template m).at s t (id, extras) h
