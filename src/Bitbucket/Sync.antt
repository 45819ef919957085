-- ===== src/Bitbucket/Sync.antt =====
-- internal/source/bitbucket/sync.go: the synchronisation of repositories and of their pipelines. The
-- loops over pages have no bound in the code; here they run on fuel. The time of an item of a
-- synchronisation is the clock's.
pub mod Laws
use ibdm.Base.{
  ℕ, zero, suc, String, Bool, true, false, ◌||◌, Option, none, some, List, [], ◌∷◌, Err, wrap,
  is_canceled, is_deadline_exceeded, is_iterator_done, Result, ok, err, lookup, is_some, ◌==◌,
  if◌then◌else◌,
}
use ibdm.Value.{
  Value, as_float64, value_or_null, as_slice, Fields, object, end, field, get_field, as_text,
  as_object, text_or_empty,
}
use ibdm.Source.{Data, upsert, wants}
use ibdm.Effect.{Effect, ◌>>=◌, ◌>>◌, pure, fail, out_of_fuel, attempt, when, each}
use ibdm.Http.{Web, emit, clock, unless_done, each_live}
use ibdm.Bitbucket.{
  Client, PageIterator, next, list_workspaces, list_repositories, list_pipelines,
  err_bitbucket_source,
}

abbrev pub repository_type : String
repository_type = "repository"

abbrev pub pipeline_type : String
pipeline_type = "pipeline"

abbrev pub err_retrieving_assets : String
err_retrieving_assets = "error retrieving assets"

-- The first of two texts that is there.
abbrev pub or_text : Option String → String → String
or_text none other = other
or_text (some s) other = s

abbrev pub slug_in : Option Fields → Option String
slug_in none = none
slug_in (some ws) = as_text (get_field "slug" ws)

unfoldable pub extract_workspace_slug : Fields → String
unfolding get_field
extract_workspace_slug workspace_access =
    or_text (slug_in (as_object (get_field "workspace" workspace_access)))
      (text_or_empty (get_field "slug" workspace_access))

unfoldable pub extract_repo_slug : Fields → String
unfolding get_field
extract_repo_slug repo =
    or_text (as_text (get_field "slug" repo)) (text_or_empty (get_field "name" repo))

module _ {W : Type 0} (web : Web W) (c : Client)
    (decode_page : String → Result (List Fields × String)) where
  unfoldable pub page_error : Err → Effect W Unit
  unfolding is_iterator_done
  page_error e = if is_iterator_done e then pure tt else fail (wrap err_retrieving_assets e)

  unfoldable pub emit_pipeline : Fields → Fields → Effect W Unit
  emit_pipeline repo pipeline = do
    time ← clock web
    emit web (record {
      kind = pipeline_type;
      operation = upsert;
      values = field "repository" (object repo) (field "pipeline" (object pipeline) end);
      time = time;
    })

  unfoldable pub pipeline_pages : Fields → ℕ → PageIterator → Effect W Unit
  unfolding next page_error emit_pipeline
  pipeline_pages repo zero it = out_of_fuel
  pipeline_pages repo (suc fuel) it = unless_done web (do
    (r, it') ← next web c decode_page it
    elim r [
      | err e ↦ page_error e
      | ok pipelines ↦ do each (emit_pipeline repo) pipelines; pipeline_pages repo fuel it'
    ])

  unfoldable pub sync_repository_pipelines : ℕ → String → Fields → Effect W Unit
  unfolding extract_repo_slug pipeline_pages
  sync_repository_pipelines fuel workspace_slug repo =
      if extract_repo_slug repo == ""
      then pure tt
      else pipeline_pages repo fuel (list_pipelines web c workspace_slug (extract_repo_slug repo))

  unfoldable pub emit_repository : Fields → Effect W Unit
  emit_repository repo = do
    time ← clock web
    emit web (record {
      kind = repository_type;
      operation = upsert;
      values = field repository_type (object repo) end;
      time = time;
    })

  -- The body of the loop over the repositories of a page; an error of the pipelines is only logged.
  unfoldable pub sync_repository : List (String × Fields) → ℕ → String → Fields → Effect W Unit
  unfolding lookup emit_repository sync_repository_pipelines
  sync_repository types fuel slug repo = do
    when (wants repository_type types) (emit_repository repo)
    when (wants pipeline_type types) (attempt (sync_repository_pipelines fuel slug repo) >> pure tt)

  unfoldable pub repository_pages :
      List (String × Fields) → ℕ → String → ℕ → PageIterator → Effect W Unit
  unfolding next page_error sync_repository each_live
  repository_pages types inner slug zero it = out_of_fuel
  repository_pages types inner slug (suc fuel) it = unless_done web (do
    (r, it') ← next web c decode_page it
    elim r [
      | err e ↦ page_error e
      | ok repos ↦
          each_live web (sync_repository types inner slug) repos
            (repository_pages types inner slug fuel it')
    ])

  unfoldable pub sync_repositories_for_workspace :
      List (String × Fields) → ℕ → String → Effect W Unit
  unfolding repository_pages
  sync_repositories_for_workspace types fuel slug =
      repository_pages types fuel slug fuel (list_repositories web c slug)

  unfoldable pub sync_workspace : List (String × Fields) → ℕ → Fields → Effect W Unit
  unfolding extract_workspace_slug sync_repositories_for_workspace
  sync_workspace types fuel workspace_access =
      if extract_workspace_slug workspace_access == ""
      then pure tt
      else sync_repositories_for_workspace types fuel (extract_workspace_slug workspace_access)

  unfoldable pub workspace_pages : List (String × Fields) → ℕ → ℕ → PageIterator → Effect W Unit
  unfolding next page_error sync_workspace each_live
  workspace_pages types inner zero it = out_of_fuel
  workspace_pages types inner (suc fuel) it = unless_done web (do
    (r, it') ← next web c decode_page it
    elim r [
      | err e ↦ page_error e
      | ok workspaces ↦
          each_live web (sync_workspace types inner) workspaces
            (workspace_pages types inner fuel it')
    ])

  unfoldable pub sync_workspace_assets : String → List (String × Fields) → ℕ → Effect W Unit
  unfolding sync_repositories_for_workspace workspace_pages
  sync_workspace_assets workspace types fuel =
      if workspace == ""
      then workspace_pages types fuel fuel (list_workspaces web c)
      else sync_repositories_for_workspace types fuel workspace

  abbrev pub sync_result : Result (Unit {0}) → Effect W Unit
  sync_result (ok _) = pure tt
  sync_result (err e) =
      if is_canceled e || is_deadline_exceeded e
      then pure tt
      else fail (wrap err_bitbucket_source e)

  -- `locked` is whether another process holds the lock of the source.
  unfoldable pub start_sync_process : Bool → String → List (String × Fields) → ℕ → Effect W Unit
  unfolding lookup sync_workspace_assets is_canceled is_deadline_exceeded
  start_sync_process locked workspace types fuel =
      if locked
      then pure tt
      else when (wants repository_type types || wants pipeline_type types)
          (do r ← attempt (sync_workspace_assets workspace types fuel); sync_result r)
