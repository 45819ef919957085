-- ===== src/Console.antt =====
-- internal/source/console: env.go, event.go and the maps that console.go builds. An assertion of a
-- type that the code does not check panics: a value that may panic is an `Option`, and an effect of
-- this source has no result when it panics.
pub mod Laws
pub mod Images
pub mod Service
pub mod Sync
pub mod Webhook
mod Tests
use ibdm.Base.{
  ℕ, zero, suc, ◌+◌, String, Bool, true, false, not, ◌&&◌, ◌||◌, Option, none, some, List, [], ◌∷◌,
  ◌++◌, Err, message, wrap, Result, ok, err, lookup, is_some, is_empty, ltb, eqb, ◌==◌, codes,
  starts_with, if◌then◌else◌,
}
use ibdm.Value.{
  Value, null, text, object, Fields, end, field, get_field, put_field, as_text, as_object,
  value_or_null,
}
use ibdm.Source.{Data, DataOperation, upsert, delete, wants}
use ibdm.Effect.{Effect}
use ibdm.Http.{concat}

abbrev pub project_resource : String
project_resource = "project"

abbrev pub configuration_resource : String
configuration_resource = "configuration"

abbrev pub revision_resource : String
revision_resource = "revision"

abbrev pub service_resource : String
service_resource = "service"

abbrev pub custom_resource_resource : String
custom_resource_resource = "custom-resource"

abbrev pub cluster_resource : String
cluster_resource = "cluster"

abbrev pub cluster_project_relationship_resource : String
cluster_project_relationship_resource = "clusterProjectRelationship"

abbrev pub configuration_chain_types : List String
configuration_chain_types =
    project_resource ∷ revision_resource ∷ service_resource ∷ custom_resource_resource ∷ []

abbrev pub cluster_chain_types : List String
cluster_chain_types = cluster_resource ∷ cluster_project_relationship_resource ∷ []

abbrev pub err_retrieving_assets : String
err_retrieving_assets = "error retrieving assets"

abbrev pub err_webhook_config_not_valid : String
err_webhook_config_not_valid = "console source configuration not valid"

pub record WebhookConfig : Type 0 where
  pub webhook_path : String
  pub webhook_secret : String

unfoldable pub validate : WebhookConfig → Option Err
validate c =
    if not (starts_with "/" c.webhook_path)
    then some
        (wrap err_webhook_config_not_valid (message "CONSOLE_WEBHOOK_PATH must start with '/'"))
    else none

unfoldable pub filter_types : List String → List (String × Fields) → List String
filter_types [] types = []
filter_types (t ∷ candidates) types =
    let result = filter_types candidates types in if wants t types then t ∷ result else result

-- x.(T): none is a panic.
abbrev pub panic : {W A : Type 0} → Effect W A
panic w = none

abbrev pub or_panic : {W A : Type 0} → Option A → Effect W A
or_panic none w = none
or_panic (some a) w = some (ok a, w)

abbrev pub as_bool : Option Value → Option Bool
as_bool (some (Value.bool b)) = some b
as_bool _ = none

-- The value of a key that is found, replaced in place.
unfoldable pub set_null : String → Fields → Fields
set_null k m = put_field k null m

unfoldable pub remove_cast_functions : Fields → Fields
unfolding get_field set_null
remove_cast_functions configuration = elim (as_object (get_field "fastDataConfig" configuration)) [
  | none ↦ configuration
  | some fd_config ↦
      put_field "fastDataConfig" (object (set_null "castFunctions" fd_config)) configuration
]

unfoldable pub remove_backoffice_services : Fields → Fields
unfolding get_field set_null
remove_backoffice_services configuration =
    elim (as_object (get_field "microfrontendPluginsConfig" configuration)) [
      | none ↦ configuration
      | some plugin ↦ elim (as_object (get_field "backofficeConfigurations" plugin)) [
        | none ↦ configuration
        | some bc ↦
            put_field "microfrontendPluginsConfig"
              (object
                (put_field "backofficeConfigurations" (object (set_null "services" bc)) plugin))
              configuration
      ]
    ]

unfoldable pub custom_remove_fields : Fields → Fields
unfolding remove_cast_functions remove_backoffice_services
custom_remove_fields configuration =
    remove_backoffice_services (remove_cast_functions configuration)

unfoldable pub build_project_data : Fields → Fields
unfolding get_field
build_project_data project = field "_id" (value_or_null (get_field "_id" project)) (
    field "projectId" (value_or_null (get_field "projectId" project)) (
      field "name" (value_or_null (get_field "name" project)) (
        field "tenantId" (value_or_null (get_field "tenantId" project))
          (field "info" (value_or_null (get_field "info" project)) end))))

abbrev pub build_revision_data : String → Fields
build_revision_data revision_name = field "name" (text revision_name) end

-- strings.Contains(image, "@"), and the same for a slash: whether a byte occurs.
unfoldable pub has_byte : ℕ → List ℕ → Bool
has_byte byte [] = false
has_byte byte (c ∷ cs) = let rest = has_byte byte cs in eqb c byte || rest

-- What follows the last slash.
unfoldable pub last_segment : List ℕ → List ℕ
unfolding has_byte
last_segment [] = []
last_segment (c ∷ cs) =
    let rest = last_segment cs in if has_byte 47 cs then rest else if eqb c 47 then cs else c ∷ cs

-- Whether the first colon has something behind it.
unfoldable pub has_tag : List ℕ → Bool
has_tag [] = false
has_tag (c ∷ cs) = let rest = has_tag cs in if eqb c 58 then not (is_empty cs) else rest

unfoldable pub ensure_docker_image_tag : String → String
unfolding has_byte last_segment has_tag
ensure_docker_image_tag image =
    if image == ""
    then image
    else if has_byte 64 (codes image)
    then image
    else if has_tag (last_segment (codes image))
    then image
    else concat image ":latest"

unfoldable pub build_service_data : Fields → Fields
unfolding get_field put_field ensure_docker_image_tag
build_service_data svc = elim (as_text (get_field "dockerImage" svc)) [
  | none ↦ svc
  | some docker_image ↦ put_field "dockerImage" (text (ensure_docker_image_tag docker_image)) svc
]

unfoldable pub is_service_valid : Fields → Option Bool
unfolding get_field
is_service_valid svc = elim (get_field "type" svc) [
  | none ↦ some false
  | some svc_type ↦ elim (get_field "advanced" svc) [
    | none ↦ some false
    | some advanced ↦ elim (as_text (some svc_type)) [
      | none ↦ none
      | some s ↦ elim (s == "custom") [
        | false ↦ some false
        | true ↦ elim (as_bool (some advanced)) [ none ↦ none | some b ↦ some (not b) ]
      ]
    ]
  ]
]

unfoldable pub is_custom_resource_valid : Fields → Option Bool
unfolding get_field
is_custom_resource_valid svc = elim (get_field "type" svc) [
  | none ↦ some false
  | some svc_type ↦ elim (as_text (some svc_type)) [
    | none ↦ none
    | some s ↦ some (s == custom_resource_resource)
  ]
]

abbrev pub create_project_data : Fields → ℕ → DataOperation → Data
create_project_data project t operation = record {
  kind = project_resource;
  operation = operation;
  values = field project_resource (object project) end;
  time = t;
}

unfoldable pub create_revision_data : Fields → String → ℕ → DataOperation → Data
unfolding build_project_data
create_revision_data project revision_name t operation = record {
  kind = revision_resource;
  operation = operation;
  values =
      field project_resource (object (build_project_data project))
        (field revision_resource (object (build_revision_data revision_name)) end);
  time = t;
}

unfoldable pub create_service_data : Fields → String → Fields → ℕ → DataOperation → Data
unfolding build_project_data build_service_data
create_service_data project revision_name svc t operation = record {
  kind = service_resource;
  operation = operation;
  values = field "project" (object (build_project_data project)) (
      field "revision" (object (build_revision_data revision_name))
        (field "service" (object (build_service_data svc)) end));
  time = t;
}

unfoldable pub create_custom_resource_data : Fields → String → Fields → ℕ → DataOperation → Data
unfolding build_project_data
create_custom_resource_data project revision_name svc t operation = record {
  kind = custom_resource_resource;
  operation = operation;
  values = field "project" (object (build_project_data project)) (
      field "revision" (object (build_revision_data revision_name))
        (field "customResource" (object svc) end));
  time = t;
}

unfoldable pub build_cluster_data : Fields → Fields
build_cluster_data end = end
build_cluster_data (field k v cluster) =
    let result = build_cluster_data cluster in
    if k == "linkedProjects" then result else field k v result
