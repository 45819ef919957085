-- ===== src/Nexus/Sync.antt =====
-- internal/source/nexus/sync.go: the synchronisation of the Docker images of repositories. The loop
-- over pages has no bound in the code; here it runs on fuel.
pub mod Laws
use ibdm.Base.{
  ℕ, zero, suc, String, Bool, true, false, Option, none, some, List, [], ◌∷◌, map, Err, wrap,
  Result, ok, err, lookup, is_some, is_empty, ◌==◌, if◌then◌else◌,
}
use ibdm.Value.{
  as_slice, value_or_null, Value, Items, Fields, null, text, slice, object, end, field, get_field,
  items, of_list, text_or_empty,
}
use ibdm.Source.{Data, upsert, wants}
use ibdm.Effect.{Effect, ◌>>=◌, ◌>>◌, pure, fail, check, out_of_fuel, attempt, wrapping, each}
use ibdm.Http.{Web, emit, clock, unless_done, each_live}
use ibdm.Nexus.{
  Config, Source, Client, handle_err, list_repositories, get_repository, list_components_page,
}

abbrev pub docker_image_type : String
docker_image_type = "dockerimage"

-- The values that are objects.
unfoldable pub objects_of : List Value → List Fields
objects_of [] = []
objects_of (object m ∷ vs) = m ∷ objects_of vs
objects_of (null ∷ vs) = objects_of vs
objects_of (Value.bool b ∷ vs) = objects_of vs
objects_of (Value.float64 f ∷ vs) = objects_of vs
objects_of (Value.int64 n ∷ vs) = objects_of vs
objects_of (text s ∷ vs) = objects_of vs
objects_of (slice us ∷ vs) = objects_of vs

unfoldable pub assets_of : Fields → List Fields
unfolding get_field objects_of
assets_of component = objects_of (as_slice (get_field "assets" component))

unfoldable pub component_wrapper : Fields → List Fields → String → Fields
unfolding get_field
component_wrapper component assets host =
    let copy : String → Value = λ key. value_or_null (get_field key component) in
    field "host" (text host) (
      field "id" (copy "id") (
        field "repository" (copy "repository") (
          field "format" (copy "format") (
            field "group" (copy "group") (
              field "name" (copy "name") (
                field "version" (copy "version") (
                  field "tags" (copy "tags")
                    (field "assets" (slice (of_list (map object assets))) end))))))))

module _ {W : Type 0} (web : Web W) where
  unfoldable pub emit_component : String → Fields → Effect W Unit
  unfolding get_field assets_of component_wrapper
  emit_component host component =
      if text_or_empty (get_field "format" component) == "docker"
      then if is_empty (assets_of component) then pure tt else (do
        time ← clock web
        emit web (record {
          kind = docker_image_type;
          operation = upsert;
          values = component_wrapper component (assets_of component) host;
          time = time;
        }))
      else pure tt

  module _ (c : Client) (decode_components : String → Result (List Fields × Option String)) where
    -- The pages from a continuation token on.
    unfoldable pub component_pages : String → String → ℕ → String → Effect W Unit
    unfolding list_components_page emit_component
    component_pages host repository zero continuation_token = out_of_fuel
    component_pages host repository (suc fuel) continuation_token = unless_done web (do
      (components, token) ←
          wrapping "failed to list components for repository"
            (list_components_page web c decode_components repository continuation_token)
      each (emit_component host) components
      elim token [
        | none ↦ pure tt
        | some t ↦ elim (t == "") [
          | true ↦ pure tt
          | false ↦ component_pages host repository fuel t
        ]
      ])

    unfoldable pub sync_docker_images : ℕ → String → String → Effect W Unit
    unfolding component_pages
    sync_docker_images fuel host repository = component_pages host repository fuel ""

    unfoldable pub resolve_repositories : Config → Effect W (List Fields)
    unfolding list_repositories get_repository
    resolve_repositories config =
        if config.specific_repository == ""
        then wrapping "failed to list repositories" (list_repositories web c)
        else (do
          repo ←
              wrapping "failed to get repository" (get_repository web c config.specific_repository)
          pure (repo ∷ []))

    -- The body of the loop over repositories; an error is only logged.
    unfoldable pub sync_repository : ℕ → Config → Fields → Effect W Unit
    unfolding get_field sync_docker_images
    sync_repository fuel config repo =
        attempt (sync_docker_images fuel config.url_host (text_or_empty (get_field "name" repo)))
        >> pure tt

    -- `locked` is whether another process holds the lock of the source.
    unfoldable pub start_sync_process : Bool → Config → List (String × Fields) → ℕ → Effect W Unit
    unfolding lookup resolve_repositories sync_repository handle_err each_live
    start_sync_process locked config types fuel =
        if locked
        then pure tt
        else if wants docker_image_type types
        then (do
          r ← attempt (resolve_repositories config)
          elim r [
            | err e ↦ check (handle_err e)
            | ok repos ↦ each_live web (sync_repository fuel config) repos (pure tt)
          ])
        else pure tt
