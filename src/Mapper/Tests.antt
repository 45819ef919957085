-- ===== src/Mapper/Tests.antt =====
-- Renderings of small mappings, and the mapper's theorems at concrete inputs.
use Prim.Native.String.{len}
use mathlib.Core.Option.{some-injective}
use ibdm.Base.{
  ℕ, suc, pos, negsuc, ◌≤◌, String, ◌≡◌, ◌↔◌, refl, true, false, Option, none, some, List, [], ◌∷◌,
  Err, message, ok, err, map, codes, ◌==◌, if◌then◌else◌,
}
use ibdm.Value.{Value, null, text, bool, slice, nil, cons, Fields, end, field, get_field, put_field}
use ibdm.Regex.{is_match}
use ibdm.Mapper.Template.{Template}
use ibdm.Mapper.Functions.{
  object_fn, pick, get, set_fn, truncate, trim_prefix, append_fn, prepend_fn, done,
}
use ibdm.Mapper.Identifier.{max_identifier_length, execute_identifier_template}
use ibdm.Mapper.Identifier.Laws.{IsIdentifier, execute_identifier_template_iff}
use ibdm.Mapper.Apply.{
  Yaml, ExtraMapping, InternalMapper, MappedData, ExtraMappedData, ParentItemInfo, apply_templates,
  apply_identifier_template,
}
use ibdm.Mapper.Apply.Identifiers.{IsRendering, apply_templates-IsRendering}
use ibdm.Mapper.Apply.Targets.{
  target, target_of, created, cascading, AllStable, IsStableExtra, upsert_delete-targets,
}

mapper : Unit {0}
unfolding apply_templates apply_identifier_template execute_identifier_template is_match get_field
    object_fn pick get set_fn truncate trim_prefix append_fn prepend_fn put_field
mapper = tt

-- A template that always writes the same text.
abbrev fixed : String → Template ℕ
fixed s n = record { output = s; failure = none; after = n }

abbrev broken : Template ℕ
broken n = record { output = "half"; failure = some (message "missing key"); after = suc n }

-- Reads "true" and "false", and takes every other document for an empty map.
abbrev small_yaml : Yaml
small_yaml = record {
  into_map = λ s. ok end;
  to_map = λ s. ok (some end);
  to_bool = λ s. (if s == "true" then ok true else ok false);
}

abbrev relation : String → String → Option (Template ℕ) → ExtraMapping ℕ
relation id policy create_if = record {
  api_version = "v1";
  item_family = "relationships";
  delete_policy = policy;
  create_if_template = create_if;
  id_template = fixed id;
  body_template = fixed "typeRef: a";
}

abbrev sample : InternalMapper ℕ
sample = record {
  id_template = fixed "repo-1";
  metadata_template = fixed "---";
  spec_template = fixed "---";
  extra_mappings =
      relation "kept" "none" none
      ∷ relation "skipped" "cascade" (some (fixed "false"))
      ∷ relation "made" "cascade" (some (fixed "true"))
      ∷ [];
}

abbrev parent : ParentItemInfo
parent = record { identifier = ""; api_version = "v1"; item_family = "repos" }

abbrev extra_data : String → Option Fields → ExtraMappedData
extra_data id spec = record {
  api_version = "v1";
  item_family = "relationships";
  identifier = id;
  spec = spec;
}

abbrev out : MappedData
out = record { identifier = "repo-1"; metadata = some end; spec = some end }

abbrev upserted : List ExtraMappedData
upserted = extra_data "kept" (some end) ∷ extra_data "made" (some end) ∷ []

abbrev deleted : List ExtraMappedData
deleted = extra_data "skipped" none ∷ extra_data "made" none ∷ []

applied : apply_templates small_yaml sample parent 0 ≡ (ok (out, upserted), 0)
unfolding mapper
applied = refl

identified : apply_identifier_template sample 0 ≡ (ok ("repo-1", deleted), 0)
unfolding mapper
identified = refl

identifier_errors :
    ((execute_identifier_template (fixed "-repo") "identifier" 0).0
      ≡ err (Err.wrap "identifier" (message "-repo")))
    × ((execute_identifier_template broken "identifier" 0).0 ≡ err (message "missing key"))
unfolding mapper
identifier_errors = (refl, refl)

-- A second mapping of the same key wins, and an odd last key is nil.
object_runs :
    (get_field "a" (object_fn (λ v. "") (text "a" ∷ text "1" ∷ text "a" ∷ text "2" ∷ text "b" ∷ []))
      ≡ some (text "2"))
    × (get_field "b" (object_fn (λ v. "") (text "a" ∷ text "1" ∷ text "b" ∷ [])) ≡ some null)
    × (truncate (negsuc 1) (1 ∷ 2 ∷ 3 ∷ []) ≡ 2 ∷ 3 ∷ [])
    × (truncate (pos 2) (1 ∷ 2 ∷ 3 ∷ []) ≡ 1 ∷ 2 ∷ [])
    × (append_fn (slice (cons (bool true) nil)) (null ∷ []) ≡ done (bool true ∷ null ∷ []))
unfolding mapper
object_runs = (refl, refl, refl, refl, refl)

apply_templates-IsRendering_example : IsRendering (out, upserted)
apply_templates-IsRendering_example =
    apply_templates-IsRendering small_yaml sample parent 0 0 (out, upserted) applied

IsStableExtra-relation :
    (id answer : String) → IsStableExtra (relation id "cascade" (some (fixed answer)))
IsStableExtra-relation id answer = record {
  create_if = λ t e s. rw (← some-injective _ _ e) refl;
  id = λ s. refl;
  body = λ s. refl;
}

sample-AllStable : AllStable sample
sample-AllStable = (
  λ s. refl,
  λ s. refl,
  λ s. refl,
  (
    record { create_if = λ t e. cc; id = λ s. refl; body = λ s. refl },
    (IsStableExtra-relation "skipped" "false", (IsStableExtra-relation "made" "true", tt)),
  ),
)

upsert_delete-targets_example :
    ("repo-1" ≡ out.identifier)
    × ((execute_identifier_template sample.id_template "identifier" 0).0 ≡ ok "repo-1")
    × (map (λ x. ok (target x)) upserted
        ≡ map (target_of 0) (created small_yaml 0 sample.extra_mappings))
    × (map (λ x. ok (target x)) deleted ≡ map (target_of 0) (cascading sample.extra_mappings))
upsert_delete-targets_example =
    upsert_delete-targets small_yaml sample parent 0 0 0 out "repo-1" upserted deleted
      sample-AllStable applied identified

execute_identifier_template_iff_example :
    ((execute_identifier_template (fixed "repo") "identifier" 0).0 ≡ ok "repo") ↔ (
      ((fixed "repo" 0).output ≡ "repo")
      × ((fixed "repo" 0).failure ≡ none)
      × IsIdentifier (codes "repo")
      × (len "repo" ≤ max_identifier_length))
execute_identifier_template_iff_example =
    execute_identifier_template_iff (fixed "repo") "identifier" 0 "repo"

abbrev pair_args : List Value
pair_args = text "a" ∷ text "1" ∷ text "b" ∷ []

abbrev two_fields : Fields
two_fields = field "a" (text "1") (field "b" null end)

abbrev two_bytes : List ℕ
two_bytes = 5 ∷ 6 ∷ []
