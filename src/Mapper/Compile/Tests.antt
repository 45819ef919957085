-- ===== src/Mapper/Compile/Tests.antt =====
-- A mapping that is compiled by a parser which keeps the text of every template.
use ibdm.Base.{String, ◌≡◌, ◌↔◌, refl, none, [], ◌∷◌, message, Result, ok, err, if◌then◌else◌, ◌==◌}
use ibdm.Value.{text, Fields, end, field, get_field}
use ibdm.Mapper.Template.{Template}
use ibdm.Mapper.Apply.{InternalMapper}
use ibdm.Mapper.Compile.{compile_extra, new_mapper, body_map, is_reserved, template_document}
use ibdm.Mapper.Compile.Laws.{new_mapper_iff, compile_all}

abbrev relation : Fields
relation = field "apiVersion" (text "v1") (
    field "itemFamily" (text "relationships") (
      field "deletePolicy" (text "cascade")
        (field "identifier" (text "rel") (field "sourceRef" (text "a") end))))

body_kept : body_map relation ≡ field "sourceRef" (text "a") end
unfolding body_map is_reserved
body_kept = refl

abbrev constant : String → Template String
constant s = λ values. record { output = s; failure = none; after = values }

-- An empty text does not parse.
abbrev parse : String → String → Result (Template String)
parse name s = if s == "" then err (message "empty template") else ok (constant s)

abbrev marshal : Fields → Result String
marshal m = ok "body"

abbrev compiled : InternalMapper String
compiled = record {
  id_template = constant "{{ .id }}";
  metadata_template = constant "---\n";
  spec_template = constant "---\nname: {{ .name }}\n";
  extra_mappings =
      record {
        api_version = "v1";
        item_family = "relationships";
        delete_policy = "cascade";
        create_if_template = none;
        id_template = constant "rel";
        body_template = constant "body";
      }
      ∷ [];
}

mapping_compiled :
    new_mapper parse marshal "{{ .id }}" [] (("name", "{{ .name }}") ∷ []) (relation ∷ [])
    ≡ ok compiled
unfolding new_mapper template_document get_field compile_extra
mapping_compiled = refl

new_mapper_iff_example :
    (new_mapper parse marshal "{{ .id }}" [] (("name", "{{ .name }}") ∷ []) (relation ∷ [])
      ≡ ok compiled)
    ↔ ((parse "identifier" "{{ .id }}" ≡ ok compiled.id_template)
        × (parse "metadata" (template_document []) ≡ ok compiled.metadata_template)
        × (parse "spec" (template_document (("name", "{{ .name }}") ∷ []))
            ≡ ok compiled.spec_template)
        × (compile_all parse marshal (relation ∷ []) ≡ ok compiled.extra_mappings))
new_mapper_iff_example =
    new_mapper_iff parse marshal "{{ .id }}" [] (("name", "{{ .name }}") ∷ []) (relation ∷ [])
      compiled
