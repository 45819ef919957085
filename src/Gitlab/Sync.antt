-- ===== src/Gitlab/Sync.antt =====
-- internal/source/gitlab/gitlab.go: the synchronisation of projects, of their access tokens and
-- pipelines, and of the access tokens of groups. The loops over pages have no bound in the code; here
-- they run on fuel.
pub mod Laws
use ibdm.Base.{
  ℕ, zero, suc, String, Bool, true, false, Option, none, some, List, [], ◌∷◌, Err, message, wrap,
  is_iterator_done, is_not_accessible, Result, ok, err, lookup, is_some, if◌then◌else◌,
}
use ibdm.Value.{
  Value, as_float64, value_or_null, as_slice, Fields, float64, object, end, field, get_field,
  as_text,
}
use ibdm.Source.{Data, upsert, wants}
use ibdm.Effect.{Effect, ◌>>=◌, ◌>>◌, pure, fail, out_of_fuel, wrapping, when, each}
use ibdm.Http.{Web, emit, clock, itoa}
use ibdm.Gitlab.{
  SourceConfig, PageIterator, next, list_projects, list_groups, list_project_pipelines,
  list_project_access_tokens, list_group_access_tokens, get_project_languages, get_pipeline,
}

abbrev pub project_resource : String
project_resource = "project"

abbrev pub pipeline_resource : String
pipeline_resource = "pipeline"

abbrev pub access_token_resource : String
access_token_resource = "accesstoken"

abbrev pub err_retrieving_assets : String
err_retrieving_assets = "error retrieving assets"

unfoldable pub project_wrapper : Fields → Fields → Fields
project_wrapper project languages =
    field "project" (object project) (field "project_languages" (object languages) end)

abbrev pub result_or_empty : Result String → String
result_or_empty (ok s) = s
result_or_empty (err e) = ""

module _ {W : Type 0} (web : Web W) where
  unfoldable pub get_id_from_item : Fields → Result String
  unfolding get_field itoa
  get_id_from_item item = elim (as_float64 (get_field "id" item)) [
    | none ↦ err (message "item missing id field")
    | some bits ↦ ok (itoa (web.int_of bits))
  ]

  abbrev pub parsed_or_now : Option ℕ → Effect W ℕ
  parsed_or_now none = clock web
  parsed_or_now (some t) = pure t

  -- The time under a key, if it is a text that can be parsed.
  unfoldable pub time_field : String → Fields → Option ℕ
  unfolding get_field
  time_field key item = elim (as_text (get_field key item)) [
    | none ↦ none
    | some s ↦ web.parse_time s
  ]

  unfoldable pub updated_at_or_now : Fields → Effect W ℕ
  unfolding time_field
  updated_at_or_now item = parsed_or_now (time_field "updated_at" item)

  unfoldable pub pipeline_time_or_now : Fields → Effect W ℕ
  unfolding get_field time_field
  pipeline_time_or_now item = elim (as_text (get_field "finished_at" item)) [
    | some finished_at ↦ parsed_or_now (web.parse_time finished_at)
    | none ↦ parsed_or_now (time_field "created_at" item)
  ]

  unfoldable pub access_token_time_or_now : Fields → Effect W ℕ
  unfolding time_field
  access_token_time_or_now item = parsed_or_now (time_field "created_at" item)

  module _ (c : SourceConfig) where
    -- The error of `next`: the end of the pages, or a failure.
    unfoldable pub page_error : Err → Effect W Unit
    unfolding is_iterator_done
    page_error e = if is_iterator_done e then pure tt else fail (wrap err_retrieving_assets e)

    -- The loop over the pages of an iterator, which runs `body` on each item.
    unfoldable pub pages : (Fields → Effect W Unit) → ℕ → PageIterator → Effect W Unit
    unfolding next page_error
    pages body zero it = out_of_fuel
    pages body (suc fuel) it = do
      (r, it') ← next web c it
      elim r [ err e ↦ page_error e | ok items ↦ do each body items; pages body fuel it' ]

    -- The owner of a token is a project or a group, under the name `owner_key`.
    unfoldable pub emit_token : String → Fields → Fields → Effect W Unit
    unfolding access_token_time_or_now
    emit_token owner_key owner token = do
      time ← access_token_time_or_now token
      emit web (record {
        kind = access_token_resource;
        operation = upsert;
        values = field owner_key (object owner) (field "token" (object token) end);
        time = time;
      })

    -- A page that is not accessible is skipped.
    unfoldable pub token_pages : String → Fields → ℕ → PageIterator → Effect W Unit
    unfolding next page_error emit_token is_iterator_done is_not_accessible
    token_pages owner_key owner zero it = out_of_fuel
    token_pages owner_key owner (suc fuel) it = do
      (r, it') ← next web c it
      elim r [
        | ok tokens ↦ do
          each (emit_token owner_key owner) tokens
          token_pages owner_key owner fuel it'
        | err e ↦ if is_iterator_done e then pure tt else elim (is_not_accessible e) [
          | true ↦ token_pages owner_key owner fuel it'
          | false ↦ fail (wrap err_retrieving_assets e)
        ]
      ]

    unfoldable pub sync_project_access_tokens : ℕ → Fields → Effect W Unit
    unfolding get_id_from_item token_pages
    sync_project_access_tokens fuel project =
        token_pages project_resource project fuel
          (list_project_access_tokens (result_or_empty (get_id_from_item project)))

    unfoldable pub sync_pipeline : Fields → Fields → Effect W Unit
    unfolding get_id_from_item get_pipeline pipeline_time_or_now
    sync_pipeline project pipeline = do
      full_pipeline ← wrapping err_retrieving_assets (
          get_pipeline web c (result_or_empty (get_id_from_item project))
            (result_or_empty (get_id_from_item pipeline)))
      time ← pipeline_time_or_now full_pipeline
      emit web (record {
        kind = pipeline_resource;
        operation = upsert;
        values =
            field project_resource (object project) (field "pipeline" (object full_pipeline) end);
        time = time;
      })

    unfoldable pub sync_project_pipelines : ℕ → Fields → Effect W Unit
    unfolding get_id_from_item pages sync_pipeline
    sync_project_pipelines fuel project =
        pages (sync_pipeline project) fuel
          (list_project_pipelines (result_or_empty (get_id_from_item project)))

    -- The body of the loop over the projects of a page.
    unfoldable pub sync_project : List (String × Fields) → ℕ → Fields → Effect W Unit
    unfolding get_id_from_item get_project_languages project_wrapper updated_at_or_now lookup
        sync_project_access_tokens sync_project_pipelines
    sync_project types fuel project = elim (get_id_from_item project) [
      | err e ↦ pure tt
      | ok project_id ↦ do
        langs ← wrapping err_retrieving_assets (get_project_languages web c project_id)
        time ← updated_at_or_now project
        emit web (record {
          kind = project_resource;
          operation = upsert;
          values = project_wrapper project langs;
          time = time;
        })
        when (wants access_token_resource types)
            (wrapping err_retrieving_assets (sync_project_access_tokens fuel project))
        when (wants pipeline_resource types)
            (wrapping err_retrieving_assets (sync_project_pipelines fuel project))
    ]

    unfoldable pub sync_project_assets : List (String × Fields) → ℕ → Effect W Unit
    unfolding lookup pages sync_project
    sync_project_assets types fuel =
        when (wants project_resource types) (pages (sync_project types fuel) fuel list_projects)

    -- The body of the loop over the groups of a page.
    unfoldable pub sync_group : ℕ → Fields → Effect W Unit
    unfolding get_id_from_item token_pages
    sync_group fuel group = elim (get_id_from_item group) [
      | err e ↦ pure tt
      | ok group_id ↦ token_pages "group" group fuel (list_group_access_tokens group_id)
    ]

    unfoldable pub sync_access_token_resources : ℕ → Effect W Unit
    unfolding pages sync_group
    sync_access_token_resources fuel = pages (sync_group fuel) fuel list_groups

    -- `locked` is whether another process holds the lock of the source.
    unfoldable pub start_sync_process : Bool → List (String × Fields) → ℕ → Effect W Unit
    unfolding lookup sync_project_assets sync_access_token_resources
    start_sync_process locked types fuel = if locked then pure tt else (do
      when (wants project_resource types) (sync_project_assets types fuel)
      when (wants access_token_resource types) (sync_access_token_resources fuel))
