-- ===== src/Mapper/Apply.antt =====
-- `ApplyTemplates` and `ApplyIdentifierTemplate` of internal/mapper/mapper.go. The data map is part
-- of the state `S` that the templates act on. gopkg.in/yaml.v3 is the parameter `yaml`.
pub mod Identifiers
pub mod Targets
use ibdm.Base.{
  String, Bool, true, false, Option, none, some, List, [], ◌∷◌, Err, wrap, Result, ok, err,
  is_empty, ◌==◌, if◌then◌else◌,
}
use ibdm.Value.{Fields}
use ibdm.Config.{delete_policy_none}
use ibdm.Mapper.Template.{Rendered, Template, Action, wrapped, continue}
use ibdm.Mapper.Identifier.{execute_identifier_template}

-- yaml.Unmarshal at the three types that the mapper decodes into: a map that is there already, a
-- map variable (nil after an empty document) and a Boolean.
pub record Yaml : Type 0 where
  pub into_map : String → Result Fields
  pub to_map : String → Result (Option Fields)
  pub to_bool : String → Result Bool

pub record ExtraMapping (S : Type 0) : Type 0 where
  pub api_version : String
  pub item_family : String
  pub delete_policy : String
  pub create_if_template : Option (Template S)
  pub id_template : Template S
  pub body_template : Template S

pub record InternalMapper (S : Type 0) : Type 0 where
  pub id_template : Template S
  pub metadata_template : Template S
  pub spec_template : Template S
  pub extra_mappings : List (ExtraMapping S)

-- A map is `none` where the code has nil.
pub record MappedData : Type 0 where
  pub identifier : String
  pub metadata : Option Fields
  pub spec : Option Fields

pub record ExtraMappedData : Type 0 where
  pub api_version : String
  pub item_family : String
  pub identifier : String
  pub spec : Option Fields

pub record ParentItemInfo : Type 0 where
  pub identifier : String
  pub api_version : String
  pub item_family : String

abbrev pub err_parsing_spec_output : String
err_parsing_spec_output = "error during casting to valid object"

abbrev pub err_parsing_extra : String
err_parsing_extra = "error parsing extra templates"

-- What a template wrote, or its error.
abbrev pub written : {S : Type 0} → Rendered S → Result String
written r = elim r.failure [ none ↦ ok r.output | some e ↦ err e ]

abbrev pub decode {ℓ} : {A : Type ℓ} → (String → Result A) → String → Result String → Result A
decode f sentinel (ok output) = wrapped sentinel (f output)
decode f sentinel (err e) = err e

module _ {S : Type 0} (yaml : Yaml) where
  unfoldable pub execute_templates_map : Template S → Action S Fields
  execute_templates_map templates s =
      let r = templates s in (decode yaml.into_map err_parsing_spec_output (written r), r.after)

  unfoldable pub execute_extra_create_if_template : Template S → Action S Bool
  execute_extra_create_if_template create_if s =
      let r = create_if s in
      (decode yaml.to_bool err_parsing_extra (wrapped err_parsing_extra (written r)), r.after)

  -- Whether an extra item is wanted at all.
  unfoldable pub wants_extra : ExtraMapping S → Action S Bool
  unfolding execute_extra_create_if_template
  wants_extra extra s = elim extra.create_if_template [
    | none ↦ (ok true, s)
    | some create_if ↦ execute_extra_create_if_template create_if s
  ]

  unfoldable pub extra_body : ExtraMapping S → Action S (Option Fields)
  extra_body extra s =
      let r = extra.body_template s in
      (decode yaml.to_map err_parsing_extra (wrapped err_parsing_extra (written r)), r.after)

  -- One round of the loop after the `createIf` test.
  unfoldable pub render_extra : ExtraMapping S → Action S ExtraMappedData
  unfolding extra_body
  render_extra extra s =
      let (id, s₁) = execute_identifier_template extra.id_template "extra-id" s in
      continue (wrapped err_parsing_extra id, s₁)
        λ identifier s₂. continue (extra_body extra s₂) λ spec s₃. (
          ok (record {
            api_version = extra.api_version;
            item_family = extra.item_family;
            identifier = identifier;
            spec = spec;
          }),
          s₃,
        )

  -- An error ends the loop, and what was rendered before it is dropped.
  unfoldable pub execute_extra_mappings : List (ExtraMapping S) → Action S (List ExtraMappedData)
  unfolding wants_extra render_extra
  execute_extra_mappings [] s = (ok [], s)
  execute_extra_mappings (extra ∷ more) s = continue (wants_extra extra s) λ create_if s₁.
      elim create_if [
        | false ↦ execute_extra_mappings more s₁
        | true ↦
            continue (render_extra extra s₁)
              λ item s₂. continue (execute_extra_mappings more s₂) λ rest s₃. (ok (item ∷ rest), s₃)
      ]

  -- The parent's information is handed over and not used.
  unfoldable pub apply_templates :
      InternalMapper S → ParentItemInfo → Action S (MappedData × List ExtraMappedData)
  unfolding execute_templates_map execute_extra_mappings
  apply_templates m parent s =
      continue (execute_identifier_template m.id_template "identifier" s) λ identifier s₁.
        continue (execute_templates_map m.metadata_template s₁) λ metadata_data s₂.
          continue (execute_templates_map m.spec_template s₂) λ spec_data s₃.
            continue (execute_extra_mappings m.extra_mappings s₃) λ extra_data s₄. (
              ok (
                record {
                  identifier = identifier;
                  metadata = some metadata_data;
                  spec = some spec_data;
                },
                extra_data,
              ),
              s₄,
            )

-- The extra item of a mapping, to be deleted.
abbrev pub to_delete : {S : Type 0} → ExtraMapping S → String → ExtraMappedData
to_delete extra identifier = record {
  api_version = extra.api_version;
  item_family = extra.item_family;
  identifier = identifier;
  spec = none;
}

module _ {S : Type 0} where
  -- The loop of `ApplyIdentifierTemplate`; the items to delete have no spec.
  unfoldable pub identify_extras : List (ExtraMapping S) → Action S (List ExtraMappedData)
  identify_extras [] s = (ok [], s)
  identify_extras (extra ∷ more) s = elim (extra.delete_policy == delete_policy_none) [
    | true ↦ identify_extras more s
    | false ↦ continue (execute_identifier_template extra.id_template "extra-id" s) λ identifier s₁.
        continue (identify_extras more s₁) λ rest s₂. (ok (to_delete extra identifier ∷ rest), s₂)
  ]

  -- Without extras the loop has no round.
  unfoldable pub apply_identifier_template :
      InternalMapper S → Action S (String × List ExtraMappedData)
  unfolding identify_extras
  apply_identifier_template m s =
      continue (execute_identifier_template m.id_template "identifier" s) λ identifier s₁.
        continue (identify_extras m.extra_mappings s₁) λ extras s₂. (ok (identifier, extras), s₂)
