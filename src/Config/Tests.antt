-- ===== src/Config/Tests.antt =====
-- Validations of an extra mapping and reads of mapping files.
use ibdm.Base.{String, ◌≡◌, ◌↔◌, refl, false, List, [], ◌∷◌, Result, ok}
use ibdm.Value.{Fields, text, end, field, get_field}
use ibdm.Config.{
  MappingConfig, Decoded, document, empty, eof, validate_extra, new_mapping_configs_from_path,
  extra_errors,
}
use ibdm.Config.Laws.{new_mapping_configs_from_path_iff, IsRead}

abbrev relation : Fields
relation = field "apiVersion" (text "v1") (
    field "itemFamily" (text "relationships") (
      field "deletePolicy" (text "cascade") (
        field "identifier" (text "id") (
          field "sourceRef" (text "a")
            (field "targetRef" (text "b") (field "typeRef" (text "t") end))))))

accepted : validate_extra relation ≡ ok relation
unfolding validate_extra get_field
accepted = refl

refused :
    extra_errors (field "itemFamily" (text "repositories") relation)
    ≡ "unknown value 'itemFamily' in extra mapping" ∷ []
unfolding extra_errors get_field
refused = refl

abbrev config : MappingConfig
config = record {
  kind = "repository";
  extra = end;
  api_version = "v1";
  item_family = "repos";
  syncable = false;
  mappings = record { identifier = "{{ .id }}"; metadata = []; spec = []; extra = [] };
}

abbrev file : String → Result (List Decoded)
file path = ok (empty ∷ document config ∷ eof ∷ [])

read : new_mapping_configs_from_path file "a.yaml" ≡ ok (config ∷ [])
unfolding new_mapping_configs_from_path
read = refl

new_mapping_configs_from_path_iff_example :
    (new_mapping_configs_from_path file "a.yaml" ≡ ok (config ∷ []))
    ↔ ((decoded : List Decoded) × (file "a.yaml" ≡ ok decoded) × IsRead decoded (config ∷ []))
new_mapping_configs_from_path_iff_example =
    new_mapping_configs_from_path_iff file "a.yaml" (config ∷ [])
