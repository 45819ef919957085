-- ===== src/Config.antt =====
-- internal/config/mappings.go: the validation of mapping files. gopkg.in/yaml.v3 decodes a file into
-- documents; what it comes back with is given as a list.
pub mod Laws
mod Tests
use ibdm.Base.{
  String, Bool, true, false, not, ◌&&◌, ◌||◌, Option, none, some, List, [], ◌∷◌, ◌++◌, Err, message,
  wrap, Result, ok, err, ◌==◌, is_empty, if◌then◌else◌,
}
use ibdm.Value.{Value, Fields, get_field, as_text}

abbrev pub delete_policy_cascade : String
delete_policy_cascade = "cascade"

abbrev pub delete_policy_none : String
delete_policy_none = "none"

abbrev pub extra_relationship_family : String
extra_relationship_family = "relationships"

abbrev pub required_extra_fields : List String
required_extra_fields = "apiVersion" ∷ "itemFamily" ∷ "deletePolicy" ∷ "identifier" ∷ []

abbrev pub relationship_fields : List String
relationship_fields = "sourceRef" ∷ "targetRef" ∷ "typeRef" ∷ []

-- value, ok := m[key].(string); ok && value != ""
abbrev pub has_text : Fields → String → Bool
has_text m key = elim (as_text (get_field key m)) [ none ↦ false | some value ↦ not (value == "") ]

abbrev pub joined : String → String → String → String
joined a b c = Prim.Native.String.◌++◌ a (Prim.Native.String.◌++◌ b c)

-- The loops over field names; each missing one adds a message.
abbrev pub missing_fields : (String → String) → Fields → List String → List String
missing_fields describe m [] = []
missing_fields describe m (key ∷ keys) =
    let rest = missing_fields describe m keys in
    if has_text m key then rest else describe key ∷ rest

unfoldable pub validate_relationship_family_fields : Fields → Bool × List String
validate_relationship_family_fields extra_map =
    let errors_list =
      missing_fields (λ f. joined "missing or invalid '" f "' for relationship extra mapping")
        extra_map relationship_fields in
    (is_empty errors_list, errors_list)

abbrev pub unknown_value : String → String
unknown_value key = joined "unknown value '" key "' in extra mapping"

abbrev pub missing_field : String → String
missing_field key = joined "missing field '" key "' in extra mapping"

unfoldable pub validate_family_specific_fields : Fields → String → Bool × List String
unfolding validate_relationship_family_fields
validate_family_specific_fields extra_map item_family =
    let wrong =
      if item_family == extra_relationship_family then [] else unknown_value "itemFamily" ∷ [] in
    let (valid, relationship_family_errors) = validate_relationship_family_fields extra_map in
    let errors_list =
      wrong
      ++ (if item_family == extra_relationship_family && not valid
          then relationship_family_errors
          else []) in
    (is_empty errors_list, errors_list)

-- deletePolicy, ok := extraMap["deletePolicy"].(string)
abbrev pub policy_errors : Option String → List String
policy_errors none = unknown_value "deletePolicy" ∷ []
policy_errors (some delete_policy) =
    if not (delete_policy == delete_policy_none) && not (delete_policy == delete_policy_cascade)
    then unknown_value "deletePolicy" ∷ []
    else []

-- itemFamily, ok := extraMap["itemFamily"].(string)
abbrev pub family_errors : Option String → List String
family_errors none = missing_field "itemFamily" ∷ []
family_errors (some item_family) = []

abbrev pub name_or_empty : Option String → String
name_or_empty none = ""
name_or_empty (some s) = s

-- The messages are kept in a list that the code joins by "; ".
unfoldable pub extra_errors : Fields → List String
unfolding validate_family_specific_fields
extra_errors extra_map =
    let item_family = as_text (get_field "itemFamily" extra_map) in
    let (valid, family_specific_errors) =
      validate_family_specific_fields extra_map (name_or_empty item_family) in
    missing_fields missing_field extra_map required_extra_fields
    ++ (policy_errors (as_text (get_field "deletePolicy" extra_map))
        ++ (family_errors item_family ++ (if not valid then family_specific_errors else [])))

abbrev pub join_errors : List String → String
join_errors [] = ""
join_errors (e ∷ []) = e
join_errors (e ∷ f ∷ es) = joined e "; " (join_errors (f ∷ es))

unfoldable pub validate_extra : Fields → Result Fields
unfolding extra_errors
validate_extra extra_map =
    let errors_list = extra_errors extra_map in
    if is_empty errors_list
    then ok extra_map
    else err (wrap "invalid extra mapping" (message (join_errors errors_list)))

pub record Mappings : Type 0 where
  pub identifier : String
  pub metadata : List (String × String)
  pub spec : List (String × String)
  pub extra : List Fields

pub record MappingConfig : Type 0 where
  pub kind : String
  pub extra : Fields
  pub api_version : String
  pub item_family : String
  pub syncable : Bool
  pub mappings : Mappings

-- What one call of `decoder.Decode(&config)` comes back with; an empty document leaves nil.
pub data Decoded : Type 0 where
  document : MappingConfig → Decoded
  empty : Decoded
  eof : Decoded
  broken : Err → Decoded

abbrev pub missing_name : Bool → String → List String
missing_name absent name = if absent then name ∷ [] else []

abbrev pub missing_config_fields : MappingConfig → List String
missing_config_fields config =
    missing_name (config.kind == "") "type"
    ++ (missing_name (config.api_version == "") "apiVersion"
        ++ missing_name (config.item_family == "") "itemFamily")

abbrev pub err_parsing : String
err_parsing = "error parsing"

-- The loop of `NewMappingConfigsFromPath`, with the documents read so far; a file always ends with
-- `eof` or an error, and a list that ends without one is read as ending there.
unfoldable pub read_configs : List MappingConfig → List Decoded → Result (List MappingConfig)
read_configs configs [] = ok configs
read_configs configs (eof ∷ _) = ok configs
read_configs configs (broken e ∷ _) = err (wrap err_parsing e)
read_configs configs (empty ∷ rest) = read_configs configs rest
read_configs configs (document config ∷ rest) = elim (is_empty (missing_config_fields config)) [
  | false ↦ err (wrap err_parsing (message "missing required fields"))
  | true ↦ read_configs (configs ++ config ∷ []) rest
]

-- `opened` is what os.Open and the decoder make of a path.
unfoldable pub new_mapping_configs_from_path :
    (String → Result (List Decoded)) → String → Result (List MappingConfig)
unfolding read_configs
new_mapping_configs_from_path opened path = elim (opened path) [
  | err e ↦ err e
  | ok decoded ↦ read_configs [] decoded
]
