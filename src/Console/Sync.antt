-- ===== src/Console/Sync.antt =====
-- internal/source/console/console.go: the synchronisation. Its world has the lock of the source, which
-- is `true` while it is held, and what is outside.
pub mod Services
pub mod Laws
use ibdm.Base.{
  ℕ, String, Bool, true, false, ◌&&◌, ◌||◌, not, Option, none, some, List, [], ◌∷◌, ◌++◌, Err,
  message, wrap, Result, ok, err, contains, is_empty, ◌==◌, if◌then◌else◌,
}
use ibdm.Value.{Value, Fields, end, field, object, get_field, as_text, as_object, as_slice}
use ibdm.Source.{Data, upsert}
use ibdm.Effect.{Effect, ◌>>=◌, ◌>>◌, pure, fail, wrapping, attempt, each}
use ibdm.Http.{Web, emit, clock}
use ibdm.Console.{
  project_resource, revision_resource, service_resource, custom_resource_resource, cluster_resource,
  cluster_project_relationship_resource, configuration_chain_types, cluster_chain_types,
  err_retrieving_assets, filter_types, or_panic, custom_remove_fields, is_service_valid,
  is_custom_resource_valid, create_project_data, create_revision_data, create_service_data,
  create_custom_resource_data, build_cluster_data,
}
use ibdm.Console.Service.{
  Config, get_projects, get_revisions, get_configuration, get_tenants, get_clusters,
}

-- The items of the services that are valid; a service that is no map panics.
unfoldable pub collect_valid :
    (Fields → Option Bool) → (Fields → Data) → Fields → Option (List Data)
collect_valid is_valid create end = some []
collect_valid is_valid create (field _ svc services) = elim (as_object (some svc)) [
  | none ↦ none
  | some svc_map ↦ elim (is_valid svc_map) [
    | none ↦ none
    | some valid ↦ elim (collect_valid is_valid create services) [
      | none ↦ none
      | some result ↦ some (if valid then create svc_map ∷ result else result)
    ]
  ]
]

unfoldable pub collect_services_from_configuration :
    Fields → String → Fields → ℕ → Option (List Data)
unfolding collect_valid get_field is_service_valid create_service_data
collect_services_from_configuration project rev_name configuration t =
    elim (as_object (get_field "services" configuration)) [
      | none ↦ none
      | some services ↦
          collect_valid is_service_valid (λ svc. create_service_data project rev_name svc t upsert)
            services
    ]

unfoldable pub collect_custom_resources_from_configuration :
    Fields → String → Fields → ℕ → Option (List Data)
unfolding collect_valid get_field is_custom_resource_valid create_custom_resource_data
collect_custom_resources_from_configuration project rev_name configuration t =
    elim (as_object (get_field "services" configuration)) [
      | none ↦ none
      | some services ↦
          collect_valid is_custom_resource_valid
            (λ svc. create_custom_resource_data project rev_name svc t upsert) services
    ]

-- Whether a revision is the default branch of its project.
unfoldable pub is_default_branch : Fields → String → Bool
unfolding get_field
is_default_branch project rev_name = elim (as_text (get_field "defaultBranch" project)) [
  | none ↦ false
  | some default_branch ↦ rev_name == default_branch
]

-- The result, with the lock as it is left.
abbrev pub holding : {W A : Type 0} → Option (Result A × W) → Option (Result A × (Bool × W))
holding none = none
holding (some (r, w)) = some (r, (true, w))

module _ {W : Type 0} where
  -- A loop that appends what its body gives.
  unfoldable pub append_each :
      {A : Type 0} → (A → Effect W (List Data)) → List A → Effect W (List Data)
  append_each body [] = pure []
  append_each body (x ∷ xs) = do
    items ← body x
    result ← append_each body xs
    pure (items ++ result)

module _ {W : Type 0} (web : Web W) (c : Config) where
  unfoldable pub subtype_data : Fields → String → Fields → String → Effect W (List Data)
  unfolding create_revision_data is_default_branch collect_services_from_configuration
      collect_custom_resources_from_configuration
  subtype_data project rev_name configuration type_string =
      if type_string == revision_resource
      then (do time ← clock web; pure (create_revision_data project rev_name time upsert ∷ []))
      else if type_string == service_resource
      then (if is_default_branch project rev_name
          then (do
            time ← clock web
            or_panic (collect_services_from_configuration project rev_name configuration time))
          else pure [])
      else if type_string == custom_resource_resource
      then (if is_default_branch project rev_name
          then (do
            time ← clock web
            or_panic
                (collect_custom_resources_from_configuration project rev_name configuration time))
          else pure [])
      else pure []

  unfoldable pub list_revision : Fields → List String → Fields → Effect W (List Data)
  unfolding get_field get_configuration custom_remove_fields append_each subtype_data
  list_revision project subtypes revision = do
    rev_name ← or_panic (as_text (get_field "name" revision))
    project_id ← or_panic (as_text (get_field "_id" project))
    configuration ← wrapping err_retrieving_assets (get_configuration web c project_id rev_name)
    append_each (subtype_data project rev_name (custom_remove_fields configuration)) subtypes

  unfoldable pub project_data : Bool → Fields → Effect W (List Data)
  project_data sync_projects project =
      if sync_projects
      then (do time ← clock web; pure (create_project_data project time upsert ∷ []))
      else pure []

  unfoldable pub list_project : List String → Fields → Effect W (List Data)
  unfolding get_field get_revisions append_each list_revision project_data
  list_project subtypes project = do
    items ← project_data (contains subtypes project_resource) project
    project_id ← or_panic (as_text (get_field "_id" project))
    revisions ← wrapping err_retrieving_assets (get_revisions web c project_id)
    result ← append_each (list_revision project subtypes) revisions
    pure (items ++ result)

  unfoldable pub list_configurations : List String → Effect W (List Data)
  unfolding get_projects append_each list_project
  list_configurations subtypes = do
    projects ← wrapping err_retrieving_assets (get_projects web c)
    append_each (list_project subtypes) projects

  abbrev pub cluster_item : Fields → ℕ → Data
  cluster_item cluster_data time = record {
    kind = cluster_resource;
    operation = upsert;
    values = field cluster_resource (object cluster_data) end;
    time = time;
  }

  abbrev pub relationship_item : Fields → Fields → ℕ → Data
  relationship_item cluster_data linked_project time = record {
    kind = cluster_project_relationship_resource;
    operation = upsert;
    values =
        field project_resource (object linked_project)
          (field cluster_resource (object cluster_data) end);
    time = time;
  }

  unfoldable pub linked_project_data : Fields → Value → Effect W (List Data)
  linked_project_data cluster_data lp = elim (as_object (some lp)) [
    | none ↦ pure []
    | some linked_project ↦ do
      time ← clock web
      pure (relationship_item cluster_data linked_project time ∷ [])
  ]

  unfoldable pub cluster_items : Bool → Fields → Effect W (List Data)
  cluster_items sync_clusters cluster_data =
      if sync_clusters
      then (do time ← clock web; pure (cluster_item cluster_data time ∷ []))
      else pure []

  unfoldable pub relationship_items : Bool → Fields → Fields → Effect W (List Data)
  unfolding get_field append_each linked_project_data
  relationship_items sync_relationships cluster cluster_data =
      if sync_relationships
      then append_each (linked_project_data cluster_data)
          (as_slice (get_field "linkedProjects" cluster))
      else pure []

  unfoldable pub list_cluster : List String → Fields → Effect W (List Data)
  unfolding build_cluster_data cluster_items relationship_items
  list_cluster subtypes cluster = do
    items ← cluster_items (contains subtypes cluster_resource) (build_cluster_data cluster)
    result ←
        relationship_items (contains subtypes cluster_project_relationship_resource) cluster
          (build_cluster_data cluster)
    pure (items ++ result)

  unfoldable pub list_tenant : List String → Fields → Effect W (List Data)
  unfolding get_field get_clusters append_each list_cluster
  list_tenant subtypes tenant = elim (as_text (get_field "companyId" tenant)) [
    | none ↦ pure []
    | some tenant_id ↦ if tenant_id == "" then pure [] else (do
      clusters ← wrapping err_retrieving_assets (get_clusters web c tenant_id)
      append_each (list_cluster subtypes) clusters)
  ]

  unfoldable pub list_clusters : List String → Effect W (List Data)
  unfolding get_tenants append_each list_tenant
  list_clusters subtypes = do
    tenants ← wrapping err_retrieving_assets (get_tenants web c)
    append_each (list_tenant subtypes) tenants

  -- A chain without a type that is asked for is not listed.
  unfoldable pub list_chain :
      (List String → Effect W (List Data)) → List String → Effect W (List Data)
  list_chain list subtypes = if is_empty subtypes then pure [] else list subtypes

  unfoldable pub list_assets : List (String × Fields) → Effect W (List Data)
  unfolding filter_types list_configurations list_clusters list_chain
  list_assets types_to_sync = do
    items ← list_chain list_configurations (filter_types configuration_chain_types types_to_sync)
    result ← list_chain list_clusters (filter_types cluster_chain_types types_to_sync)
    pure (items ++ result)

  -- What the synchronisation does once it holds the lock.
  unfoldable pub sync_assets : List (String × Fields) → Effect W Unit
  unfolding list_assets
  sync_assets types_to_sync = do
    data_to_sync ← list_assets types_to_sync
    each (emit web) data_to_sync

  unfoldable pub start_sync_process : List (String × Fields) → Effect (Bool × W) Unit
  unfolding sync_assets
  start_sync_process types_to_sync (true, w) = some (ok tt, (true, w))
  start_sync_process types_to_sync (false, w) = holding (sync_assets types_to_sync w)

  -- Several synchronisations of one source, one after the other, with what each returns; none of them
  -- runs after a panic.
  unfoldable pub start_sync_processes :
      List (List (String × Fields)) → Bool × W → Option (List (Result (Unit {0})) × (Bool × W))
  unfolding start_sync_process
  start_sync_processes [] s = some ([], s)
  start_sync_processes (types ∷ later) s = elim (start_sync_process types s) [
    | none ↦ none
    | some (r, s') ↦ elim (start_sync_processes later s') [
      | none ↦ none
      | some (rs, s'') ↦ some (r ∷ rs, s'')
    ]
  ]
