-- ===== src/Github/Sync.antt =====
-- internal/source/github/github.go: the synchronisation of repositories and of their workflow runs.
-- The loops over pages have no bound in the code; here they run on fuel and are `none` without it.
pub mod Laws
pub mod Effects
pub mod Termination
use ibdm.Base.{
  ℕ, zero, suc, String, Bool, true, false, not, ◌&&◌, ◌||◌, Option, none, some, List, [], ◌∷◌, Err,
  wrap, is_canceled, is_deadline_exceeded, is_iterator_done, Result, ok, err, lookup, is_some, ◌==◌,
  if◌then◌else◌,
}
use ibdm.Value.{Fields, get_field, object, singleton, text_or_empty, as_object}
use ibdm.Source.{Data, upsert}
use ibdm.Github.{Config, Client, Env, api_version_from_extra, add_languages}
use ibdm.Github.Iterator.{Iterator, next, list_repositories, list_workflow_runs}

abbrev pub repository_type : String
repository_type = "repository"

abbrev pub workflow_run_type : String
workflow_run_type = "workflow_run"

unfoldable pub extract_owner_repo : Fields → String × String
unfolding get_field
extract_owner_repo repo =
    let name = text_or_empty (get_field "name" repo) in
    elim (as_object (get_field "owner" repo)) [
      | none ↦ ("", name)
      | some owner_obj ↦ (text_or_empty (get_field "login" owner_obj), name)
    ]

-- The version of a type that is asked for.
unfoldable pub version_of : String → List (String × Fields) → Option String
unfolding lookup api_version_from_extra
version_of kind types_to_sync = elim (lookup kind types_to_sync) [
  | none ↦ none
  | some extra ↦ some (api_version_from_extra extra)
]

abbrev pub version_or_empty : Option String → String
version_or_empty none = ""
version_or_empty (some version) = version

-- listAPIVersion
abbrev pub list_api_version : Option String → Option String → String
list_api_version repos runs =
    if version_or_empty repos == "" then version_or_empty runs else version_or_empty repos

unfoldable pub sync_result : {W : Type 0} → Option Err × W → Option Err × W
unfolding is_canceled is_deadline_exceeded
sync_result (none, w) = (none, w)
sync_result (some e, w) =
    if is_canceled e || is_deadline_exceeded e
    then (none, w)
    else (some (wrap "github source" e), w)

module _ {W : Type 0} (env : Env W) (c : Client) where
  unfoldable pub emit_runs : List Fields → W → W
  emit_runs [] w = w
  emit_runs (item ∷ items) w =
      let d : Data = record {
        kind = workflow_run_type;
        operation = upsert;
        values = singleton workflow_run_type (object item);
        time = env.now w;
      } in
      emit_runs items (env.results d w)

  -- An error of `next`: the end of the pages, or a failure.
  abbrev pub page_error : Err → Option Err
  page_error e = if is_iterator_done e then none else some (wrap "error retrieving assets" e)

  -- The loop of `syncRepositoryWorkflowRuns`.
  unfoldable pub run_pages : ℕ → Iterator → W → Option (Option Err × W)
  unfolding next emit_runs is_iterator_done
  run_pages zero it w = none
  run_pages (suc fuel) it w = elim (env.ctx_err w) [
    | some e ↦ some (some e, w)
    | none ↦
        let (r, (it', w')) = next env c it w in
        elim r [
          | err e ↦ some (page_error e, w')
          | ok items ↦ run_pages fuel it' (emit_runs items w')
        ]
  ]

  unfoldable pub sync_repository_workflow_runs : ℕ → Fields → String → W → Option (Option Err × W)
  unfolding extract_owner_repo list_workflow_runs run_pages
  sync_repository_workflow_runs fuel repo api_version w =
      let (owner, repo_name) = extract_owner_repo repo in
      if owner == "" || repo_name == ""
      then some (none, w)
      else run_pages fuel (list_workflow_runs env owner repo_name api_version) w

  -- if syncRepo { ... }
  unfoldable pub emit_repository : Fields → String → W → W
  unfolding add_languages
  emit_repository item api_version w =
      let (values, w') =
        add_languages env c item api_version (singleton repository_type (object item)) w in
      let d : Data = record {
        kind = repository_type;
        operation = upsert;
        values = values;
        time = env.now w';
      } in
      env.results d w'

  -- A text that is `none` stands for a type that is not asked for, of which the code tests the flag
  -- before it reads the version.
  unfoldable pub maybe_repository : Option String → Fields → W → W
  unfolding emit_repository
  maybe_repository none item w = w
  maybe_repository (some version) item w = emit_repository item version w

  unfoldable pub maybe_runs : ℕ → Option String → Fields → W → Option (Option Err × W)
  unfolding sync_repository_workflow_runs
  maybe_runs fuel none item w = some (none, w)
  maybe_runs fuel (some version) item w = sync_repository_workflow_runs fuel item version w

  -- The loop over the repositories of a page.
  unfoldable pub sync_items :
      ℕ → Option String → Option String → List Fields → W → Option (Option Err × W)
  unfolding maybe_repository maybe_runs
  sync_items fuel repos runs [] w = some (none, w)
  sync_items fuel repos runs (item ∷ items) w = elim (env.ctx_err w) [
    | some e ↦ some (some e, w)
    | none ↦ elim (maybe_runs fuel runs item (maybe_repository repos item w)) [
      | none ↦ none
      | some (some e, w'') ↦ some (some e, w'')
      | some (none, w'') ↦ sync_items fuel repos runs items w''
    ]
  ]

  -- The loop over the pages of repositories.
  unfoldable pub repository_pages :
      ℕ → ℕ → Option String → Option String → Iterator → W → Option (Option Err × W)
  unfolding next sync_items is_iterator_done
  repository_pages run_fuel zero repos runs it w = none
  repository_pages run_fuel (suc fuel) repos runs it w = elim (env.ctx_err w) [
    | some e ↦ some (some e, w)
    | none ↦
        let (r, (it', w')) = next env c it w in
        elim r [
          | err e ↦ some (page_error e, w')
          | ok items ↦ elim (sync_items run_fuel repos runs items w') [
            | none ↦ none
            | some (some e, w'') ↦ some (some e, w'')
            | some (none, w'') ↦ repository_pages run_fuel fuel repos runs it' w''
          ]
        ]
  ]

  unfoldable pub sync_repository_assets :
      ℕ → ℕ → List (String × Fields) → W → Option (Option Err × W)
  unfolding version_of list_repositories repository_pages
  sync_repository_assets run_fuel fuel types_to_sync w =
      let repos = version_of repository_type types_to_sync in
      let runs = version_of workflow_run_type types_to_sync in
      repository_pages run_fuel fuel repos runs
        (list_repositories env c (list_api_version repos runs)) w

  -- `locked` is whether another process holds the lock of the source.
  unfoldable pub start_sync_process :
      Bool → ℕ → ℕ → List (String × Fields) → W → Option (Option Err × W)
  unfolding lookup sync_repository_assets sync_result
  start_sync_process locked run_fuel fuel types_to_sync w =
      let wants_repo = is_some (lookup repository_type types_to_sync) in
      let wants_runs = is_some (lookup workflow_run_type types_to_sync) in
      if locked
      then some (none, w)
      else if wants_repo || wants_runs
      then elim (sync_repository_assets run_fuel fuel types_to_sync w) [
        | none ↦ none
        | some r ↦ some (sync_result r)
      ]
      else some (none, w)
