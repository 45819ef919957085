-- ===== src/Console/Sync/Laws.antt =====
-- What a synchronisation sends, and what a second one does.
use ibdm.Base.{
  String, ◌≡◌, inl, inr, refl, true, false, Option, none, some, Option-cases, List, [], ◌∷◌, ◌++◌,
  map, Err, wrap, Result, ok, contains, is_empty, All, All-append, ◌==◌, eq_iff,
}
use ibdm.Value.{Value, Fields, get_field, as_text, as_object}
use ibdm.Source.{Data, upsert, wants}
use ibdm.Effect.Laws.{Ends, Ended, Always, Ends-bind, Ends-wrapping, Ends-if, Ends-pure}
use ibdm.Http.{Web}
use ibdm.Http.Laws.{Ends-clock, Ends-emit_list}
use ibdm.Console.{
  project_resource, revision_resource, service_resource, custom_resource_resource, cluster_resource,
  cluster_project_relationship_resource, configuration_chain_types, cluster_chain_types,
  err_retrieving_assets, filter_types, custom_remove_fields, is_service_valid,
  is_custom_resource_valid, create_revision_data, create_service_data, create_custom_resource_data,
}
use ibdm.Console.Laws.{
  services-custom_remove_fields, All-filter_types, All-contains, IsConfiguration,
}
use ibdm.Console.Service.{
  Config, get_projects, get_revisions, get_configuration, get_tenants, get_clusters,
}
use ibdm.Console.Sync.Services.{
  AreServices-service, AreServices-custom_resource, collect_valid-some, Ends-or_panic,
  append_each-Ends, All-Always,
}
use ibdm.Console.Sync.{
  collect_services_from_configuration, collect_custom_resources_from_configuration,
  is_default_branch, subtype_data, list_revision, project_data, list_project, list_configurations,
  linked_project_data, cluster_items, relationship_items, list_cluster, list_tenant, list_clusters,
  list_chain, list_assets, sync_assets, holding, start_sync_process, start_sync_processes,
}

module _ {W : Type 0} (web : Web W) (c : Config) where
  start_sync_processes-locked :
      (later : List (List (String × Fields))) (w : W)
      → start_sync_processes web c later (true, w) ≡ some (map (λ _. ok tt) later, (true, w))
  unfolding start_sync_processes start_sync_process
  start_sync_processes-locked [] w = refl
  start_sync_processes-locked (types ∷ later) w =
      rw (start_sync_processes-locked later w, start_sync_processes, start_sync_process) refl

  -- Only the first of several synchronisations does anything. Whatever it returns, those after it
  -- return without an error and leave the world as the first one left it, and the source is locked.
  pub start_sync_processes_once :
      (types : List (String × Fields)) (later : List (List (String × Fields))) (w w' : W)
      (r : Result (Unit {0}))
      → sync_assets web c types w ≡ some (r, w')
      → start_sync_processes web c (types ∷ later) (false, w)
        ≡ some (r ∷ map (λ _. ok tt) later, (true, w'))
  unfolding start_sync_processes start_sync_process
  start_sync_processes_once types later w w' r e =
      rw (e, start_sync_processes, start_sync_process, start_sync_processes-locked later w') refl

-- An upsert of a type that is asked for.
abbrev pub IsListed : List (String × Fields) → Data → Type 0
IsListed types d = (d.operation ≡ upsert) × (wants d.kind types ≡ true)

-- An error of the retrieval of the assets.
abbrev pub IsReported : Err → Type 0
IsReported e = (f : Err) × (e ≡ wrap err_retrieving_assets f)

holding-Ended :
    {W : Type 0} (I : W → Type 0) (Fails : Err → Type 0) (o : Option (Result Unit × W))
    → Ended I Fails Always o
    → Ended (λ (held, after). (held ≡ true) × I after) Fails Always (holding o)
holding-Ended I Fails none h = h
holding-Ended I Fails (some (r, w)) (g, i) = (g, (refl, i))

-- A project is identified by a text, and a revision has a name.
abbrev pub HasText : String → Fields → Type 0
HasText key m = (s : String) × (as_text (get_field key m) ≡ some s)

module _ {W : Type 0} (web : Web W) (c : Config) {I : W → Type 0} (types : List (String × Fields))
    (projects : Ends I Always (All (HasText "_id")) (get_projects web c))
    (revisions : (id : String) → Ends I Always (All (HasText "name")) (get_revisions web c id))
    (configuration : (id revision : String)
      → Ends I Always IsConfiguration (get_configuration web c id revision))
    (tenants : Ends I Always Always (get_tenants web c))
    (clusters : (id : String) → Ends I Always Always (get_clusters web c id)) where
  subtype_data-Ends :
      (project : Fields) (rev_name : String) (conf : Fields)
      → IsConfiguration conf
      → (t : String) → wants t types ≡ true
      → Ends I IsReported
          (All (IsListed types))
          (subtype_data web c project rev_name (custom_remove_fields conf) t)
  unfolding subtype_data collect_services_from_configuration
      collect_custom_resources_from_configuration create_revision_data create_service_data
      create_custom_resource_data
  subtype_data-Ends project rev_name conf (services, e, are) t asked =
      let kept = services-custom_remove_fields conf in
      Ends-if (t == revision_resource)
        (λ k.
          Ends-bind (Ends-clock web)
            λ time _. Ends-pure _ ((refl, rw (← (eq_iff t revision_resource).0 k) asked), tt))
        λ _.
          Ends-if (t == service_resource)
            (λ k.
              Ends-if (is_default_branch project rev_name)
                (λ _. Ends-bind (Ends-clock web) λ time _.
                  let (ds, f, a) =
                    collect_valid-some is_service_valid
                      (λ svc. create_service_data project rev_name svc time upsert) (IsListed types)
                      (λ svc. (refl, rw (← (eq_iff t service_resource).0 k) asked)) services
                      (AreServices-service services are) in
                  Ends-or_panic _ ds (rw (kept, e, collect_services_from_configuration) f) a)
                (λ _. Ends-pure [] tt))
            λ _.
              Ends-if (t == custom_resource_resource)
                (λ k.
                  Ends-if (is_default_branch project rev_name)
                    (λ _. Ends-bind (Ends-clock web) λ time _.
                      let (ds, f, a) =
                        collect_valid-some is_custom_resource_valid
                          (λ svc. create_custom_resource_data project rev_name svc time upsert)
                          (IsListed types)
                          (λ svc. (refl, rw (← (eq_iff t custom_resource_resource).0 k) asked))
                          services (AreServices-custom_resource services are) in
                      Ends-or_panic _ ds
                        (rw (kept, e, collect_custom_resources_from_configuration) f) a)
                    (λ _. Ends-pure [] tt))
                (λ _. Ends-pure [] tt)

  list_revision-Ends :
      (subtypes : List String)
      → All (λ t. wants t types ≡ true) subtypes
      → (project : Fields) → HasText "_id" project
      → (revision : Fields) → HasText "name" revision
      → Ends I IsReported (All (IsListed types)) (list_revision web c project subtypes revision)
  unfolding list_revision
  list_revision-Ends subtypes asked project (id, e) revision (name, f) =
      Ends-bind {Gives = Always} (Ends-or_panic _ name f tt) λ rev_name _.
        Ends-bind {Gives = Always} (Ends-or_panic _ id e tt) λ project_id _.
          Ends-bind (Ends-wrapping _ (λ e _. (e, refl)) (configuration project_id rev_name))
            λ conf is.
              append_each-Ends _ (subtype_data-Ends project rev_name conf is) subtypes asked

  list_project-Ends :
      (subtypes : List String)
      → All (λ t. wants t types ≡ true) subtypes
      → (project : Fields) → HasText "_id" project
      → Ends I IsReported (All (IsListed types)) (list_project web c subtypes project)
  unfolding list_project project_data
  list_project-Ends subtypes asked project (id, e) =
      Ends-bind
        (Ends-if (contains subtypes project_resource)
          (λ k.
            Ends-bind (Ends-clock web)
              λ time _. Ends-pure _ ((refl, All-contains _ subtypes project_resource asked k), tt))
          (λ _. Ends-pure [] tt))
        λ items good. Ends-bind {Gives = Always} (Ends-or_panic _ id e tt) λ project_id _.
          Ends-bind (Ends-wrapping _ (λ e _. (e, refl)) (revisions project_id)) λ revs named.
            Ends-bind
              (append_each-Ends _ (list_revision-Ends subtypes asked project (id, e)) revs named)
              λ result better. Ends-pure (items ++ result) (All-append _ items result good better)

  linked_project_data-Ends :
      (cluster_data : Fields)
      → wants cluster_project_relationship_resource types ≡ true
      → (lp : Value) → Always lp
      → Ends I IsReported (All (IsListed types)) (linked_project_data web c cluster_data lp)
  unfolding linked_project_data
  linked_project_data-Ends cluster_data asked lp _ = elim (Option-cases (as_object (some lp))) [
    | inl e ↦ rw (e, linked_project_data) (Ends-pure [] tt)
    | inr (m, e) ↦
        rw (e, linked_project_data)
          (Ends-bind (Ends-clock web) λ time _. Ends-pure _ ((refl, asked), tt))
  ]

  list_cluster-Ends :
      (subtypes : List String)
      → All (λ t. wants t types ≡ true) subtypes
      → (cluster : Fields) → Always cluster
      → Ends I IsReported (All (IsListed types)) (list_cluster web c subtypes cluster)
  unfolding list_cluster cluster_items relationship_items
  list_cluster-Ends subtypes asked cluster _ =
      Ends-bind
        (Ends-if (contains subtypes cluster_resource)
          (λ k.
            Ends-bind (Ends-clock web)
              λ time _. Ends-pure _ ((refl, All-contains _ subtypes cluster_resource asked k), tt))
          (λ _. Ends-pure [] tt))
        λ items good.
          Ends-bind
            (Ends-if (contains subtypes cluster_project_relationship_resource)
              (λ k.
                append_each-Ends _
                  (linked_project_data-Ends _
                    (All-contains _ subtypes cluster_project_relationship_resource asked k))
                  _ (All-Always _))
              (λ _. Ends-pure [] tt))
            λ result better. Ends-pure (items ++ result) (All-append _ items result good better)

  list_tenant-Ends :
      (subtypes : List String)
      → All (λ t. wants t types ≡ true) subtypes
      → (tenant : Fields) → Always tenant
      → Ends I IsReported (All (IsListed types)) (list_tenant web c subtypes tenant)
  unfolding list_tenant
  list_tenant-Ends subtypes asked tenant _ =
      elim (Option-cases (as_text (get_field "companyId" tenant))) [
        | inl e ↦ rw (e, list_tenant) (Ends-pure [] tt)
        | inr (id, e) ↦
            rw (e, list_tenant)
              (Ends-if (id == "") (λ _. Ends-pure [] tt)
                λ _. Ends-bind (Ends-wrapping _ (λ e _. (e, refl)) (clusters id)) λ found _.
                  append_each-Ends _ (list_cluster-Ends subtypes asked) found (All-Always found))
      ]

  list_assets-Ends : Ends I IsReported (All (IsListed types)) (list_assets web c types)
  unfolding list_assets list_chain list_configurations list_clusters
  list_assets-Ends =
      let asked = All-filter_types configuration_chain_types types in
      let asked_clusters = All-filter_types cluster_chain_types types in
      Ends-bind
        (Ends-if (is_empty (filter_types configuration_chain_types types)) (λ _. Ends-pure [] tt)
          λ _.
            Ends-bind (Ends-wrapping _ (λ e _. (e, refl)) projects)
              λ found named. append_each-Ends _ (list_project-Ends _ asked) found named)
        λ items good.
          Ends-bind
            (Ends-if (is_empty (filter_types cluster_chain_types types)) (λ _. Ends-pure [] tt)
              λ _. Ends-bind (Ends-wrapping _ (λ e _. (e, refl)) tenants) λ found _.
                append_each-Ends _ (list_tenant-Ends _ asked_clusters) found (All-Always found))
            λ result better. Ends-pure (items ++ result) (All-append _ items result good better)

  -- When the answers of the Console have the texts, maps and Booleans that the code asserts, a
  -- synchronisation of a source that is not locked ends without a panic, reports only errors of the
  -- retrieval, and leaves the source locked; and what the requests keep of the world, and every upsert of a type that is asked for, holds after
  -- it if it held before.
  pub console_sync-Ended :
      ((d : Data) (w : W) → I w → IsListed types d → I (web.results d w))
      → (w : W) → I w
      → Ended
          (λ (held, after). (held ≡ true) × I after)
          IsReported
          Always
          (start_sync_process web c types (false, w))
  unfolding start_sync_process sync_assets
  console_sync-Ended sends w i =
      let k : Ended I IsReported Always (sync_assets web c types w) =
        (Ends-bind list_assets-Ends
            λ ds good. Ends-emit_list web {Fails = IsReported} (IsListed types) sends ds good).run
          w i in
      holding-Ended I IsReported (sync_assets web c types w) k
