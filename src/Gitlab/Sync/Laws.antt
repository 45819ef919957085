-- ===== src/Gitlab/Sync/Laws.antt =====
-- What a synchronisation sends, how it ends, and what it makes of pages that are not accessible.
use ibdm.Base.{
  ℕ, zero, suc, pos, ◌+◌, String, ◌≡◌, refl, ◌⊎◌, inl, inr, Bool, true, false, Bool-cases, Option,
  none, some, Option-cases, List, [], ◌∷◌, Err, wrap, iterator_done, is_iterator_done,
  is_not_accessible, Result-cases, ok, arith,
}
use ibdm.Value.{Fields, get_field, as_text}
use ibdm.Source.{Data, upsert, wants}
use ibdm.Effect.{Effect}
use ibdm.Effect.Laws.{
  Ends, Ended, Always, Ends-bind, Ends-mono, Ends-wrapping, Ends-if, Ends-pure, Ends-fail,
  Ends-when, Ends-each,
}
use ibdm.Http.{Web, Request, Response}
use ibdm.Http.Laws.{HasKeys, Ends-clock, Ends-emit}
use ibdm.Gitlab.{SourceConfig, PageIterator, is_last, new_page_iterator}
use ibdm.Gitlab.Laws.{NamesAtMost, Enough, next-Ends, get_project_languages-Ends, get_pipeline-Ends}
use ibdm.Gitlab.Sync.{
  project_resource, pipeline_resource, access_token_resource, err_retrieving_assets,
  project_wrapper, parsed_or_now, time_field, updated_at_or_now, pipeline_time_or_now,
  access_token_time_or_now, get_id_from_item, page_error, pages, emit_token, token_pages,
  sync_project_access_tokens, sync_pipeline, sync_project_pipelines, sync_project,
  sync_project_assets, sync_group, sync_access_token_resources, start_sync_process,
}

abbrev ProjectSent : List (String × Fields) → Data → Type 0
ProjectSent types d = (d.kind ≡ project_resource) × HasKeys ("project" ∷ "project_languages" ∷ []) d

abbrev PipelineSent : List (String × Fields) → Data → Type 0
PipelineSent types d =
    (d.kind ≡ pipeline_resource)
    × (wants project_resource types ≡ true)
    × HasKeys ("project" ∷ "pipeline" ∷ []) d

abbrev TokenSent : List (String × Fields) → Data → Type 0
TokenSent types d =
    (d.kind ≡ access_token_resource)
    × (HasKeys ("project" ∷ "token" ∷ []) d ⊎ HasKeys ("group" ∷ "token" ∷ []) d)

-- An upsert of a type that is asked for, with the parts that its type has.
abbrev pub IsSynced : List (String × Fields) → Data → Type 0
IsSynced types d =
    (d.operation ≡ upsert)
    × (wants d.kind types ≡ true)
    × (ProjectSent types d ⊎ (PipelineSent types d ⊎ TokenSent types d))

-- An error of the retrieval of assets.
abbrev pub IsRetrieval : Err → Type 0
IsRetrieval e = (f : Err) × (e ≡ wrap err_retrieving_assets f)

abbrev pub IsAccess : Err → Type 0
IsAccess e = IsRetrieval e × (is_not_accessible e ≡ false)

is_last-zero : (last : ℕ) → is_last last (pos 0) ≡ true
is_last-zero last = ground arith

module _ {W : Type 0} (web : Web W) {I : W → Type 0} {Fails : Err → Type 0} where
  pub parsed_or_now-Ends : (o : Option ℕ) → Ends I Fails Always (parsed_or_now web o)
  parsed_or_now-Ends none = Ends-clock web
  parsed_or_now-Ends (some t) = Ends-pure t tt

  updated_at_or_now-Ends : (item : Fields) → Ends I Fails Always (updated_at_or_now web item)
  unfolding updated_at_or_now
  updated_at_or_now-Ends item = parsed_or_now-Ends (time_field web "updated_at" item)

  access_token_time_or_now-Ends :
      (item : Fields) → Ends I Fails Always (access_token_time_or_now web item)
  unfolding access_token_time_or_now
  access_token_time_or_now-Ends item = parsed_or_now-Ends (time_field web "created_at" item)

  pipeline_time_or_now-Ends : (item : Fields) → Ends I Fails Always (pipeline_time_or_now web item)
  unfolding pipeline_time_or_now
  pipeline_time_or_now-Ends item = elim (Option-cases (as_text (get_field "finished_at" item))) [
    | inl e ↦ rw (e, pipeline_time_or_now) (parsed_or_now-Ends (time_field web "created_at" item))
    | inr (s, e) ↦ rw (e, pipeline_time_or_now) (parsed_or_now-Ends (web.parse_time s))
  ]

module _ {W : Type 0} (web : Web W) (c : SourceConfig) {I : W → Type 0} (last : ℕ)
    (requests : (req : Request) (w : W) → I w → I (web.send_request req w).1)
    (answers : (req : Request) (w : W) (resp : Response)
      → (web.send_request req w).0 ≡ ok resp
      → NamesAtMost last resp) where
  page_error-Ends : (e : Err) → Ends I IsRetrieval Always (page_error web c e)
  unfolding page_error
  page_error-Ends e =
      Ends-if (is_iterator_done e) (λ _. Ends-pure tt tt) (λ _. Ends-fail _ (e, refl))

  -- The loop over the pages, whatever is done with an item.
  pages-Ends :
      (body : Fields → Effect W Unit)
      → ((item : Fields) → Ends I IsRetrieval Always (body item))
      → (fuel : ℕ) (it : PageIterator) → is_last last it.total_pages ≡ true
      → Enough last fuel it
      → Ends I IsRetrieval Always (pages web c body fuel it)
  unfolding pages is_iterator_done
  pages-Ends body h zero it t (inl (d, k)) = absurd (omega (arith, k))
  pages-Ends body h zero it t (inr (d, k)) = absurd (omega (arith, k))
  pages-Ends body h (suc fuel) it t enough =
      Ends-bind (next-Ends web c last requests answers fuel it t enough) λ (r, it') advanced.
        elim (Result-cases r) [
          | inr (e, k) ↦ rw k (page_error-Ends e)
          | inl (items, k) ↦ elim advanced [
            | inl d ↦ cc
            | inr (t', enough') ↦
                rw k
                  (Ends-bind (Ends-each body h items) λ _ _. pages-Ends body h fuel it' t' enough')
          ]
        ]

  -- Tokens that are not accessible are skipped and never fail the loop.
  token_pages-Ends :
      (owner_key : String) (owner : Fields)
      → ((token : Fields) → Ends I IsAccess Always (emit_token web c owner_key owner token))
      → (fuel : ℕ) (it : PageIterator) → is_last last it.total_pages ≡ true
      → Enough last fuel it
      → Ends I IsAccess Always (token_pages web c owner_key owner fuel it)
  unfolding token_pages is_iterator_done is_not_accessible
  token_pages-Ends key owner h zero it t (inl (d, k)) = absurd (omega (arith, k))
  token_pages-Ends key owner h zero it t (inr (d, k)) = absurd (omega (arith, k))
  token_pages-Ends key owner h (suc fuel) it t enough =
      Ends-bind (next-Ends web c last requests answers fuel it t enough) λ (r, it') advanced.
        elim (Result-cases r) [
          | inl (tokens, k) ↦ elim advanced [
            | inl d ↦ cc
            | inr (t', enough') ↦ rw k (
                Ends-bind (Ends-each _ h tokens)
                  λ _ _. token_pages-Ends key owner h fuel it' t' enough')
          ]
          | inr (e, k) ↦ rw k (
              Ends-if (is_iterator_done e) (λ _. Ends-pure tt tt)
                λ done. elim advanced [
                  | inl d ↦
                      (let l : e ≡ iterator_done = cc in
                        let m : is_iterator_done e ≡ true = rw l refl in cc)
                  | inr (t', enough') ↦ elim (Bool-cases (is_not_accessible e)) [
                    | inl a ↦ rw a (token_pages-Ends key owner h fuel it' t' enough')
                    | inr a ↦ rw a (Ends-fail _ ((e, refl), a))
                  ]
                ])
        ]

  listing-Ends :
      (body : Fields → Effect W Unit)
      → ((item : Fields) → Ends I IsRetrieval Always (body item))
      → (path : String)
      → Ends I IsRetrieval Always (pages web c body (last + 2) (new_page_iterator path))
  listing-Ends body h path =
      pages-Ends body h (last + 2) (new_page_iterator path) (is_last-zero last)
        (inr (omega arith, omega arith))

  token_listing-Ends :
      (owner_key : String) (owner : Fields)
      → ((token : Fields) → Ends I IsAccess Always (emit_token web c owner_key owner token))
      → (path : String)
      → Ends I IsAccess Always
          (token_pages web c owner_key owner (last + 2) (new_page_iterator path))
  token_listing-Ends owner_key owner h path =
      token_pages-Ends owner_key owner h (last + 2) (new_page_iterator path) (is_last-zero last)
        (inr (omega arith, omega arith))

  -- Sending a piece of data of the synchronisation keeps the invariant too.
  module _ (types : List (String × Fields))
      (sends : (d : Data) (w : W) → I w → IsSynced types d → I (web.results d w)) where
    emit_token-Ends :
        {Fails : Err → Type 0} (owner_key : String) (owner token : Fields)
        → (owner_key ≡ "project") ⊎ (owner_key ≡ "group")
        → wants access_token_resource types ≡ true
        → Ends I Fails Always (emit_token web c owner_key owner token)
    unfolding emit_token get_field
    emit_token-Ends key owner token owned a =
        Ends-bind (access_token_time_or_now-Ends web token) λ time _. Ends-emit web _ λ w i.
          sends _ w i (
            refl,
            a,
            inr (
                inr (
                  refl,
                  elim owned [
                    | inl k ↦ rw k (inl (refl, (refl, tt)))
                    | inr k ↦ rw k (inr (refl, (refl, tt)))
                  ],
                )),
          )

    -- The tokens of a project are synchronised without an error of access.
    pub sync_project_access_tokens-Ends :
        (project : Fields)
        → wants access_token_resource types ≡ true
        → Ends I IsAccess Always (sync_project_access_tokens web c (last + 2) project)
    unfolding sync_project_access_tokens
    sync_project_access_tokens-Ends project a =
        token_listing-Ends project_resource project
          (λ token. emit_token-Ends project_resource project token (inl refl) a) _

    sync_pipeline-Ends :
        (project pipeline : Fields)
        → wants project_resource types ≡ true
        → wants pipeline_resource types ≡ true
        → Ends I IsRetrieval Always (sync_pipeline web c project pipeline)
    unfolding sync_pipeline get_field
    sync_pipeline-Ends project pipeline p a =
        Ends-bind
          (Ends-wrapping _ (λ e _. (e, refl)) (get_pipeline-Ends web c requests answers _ _))
          λ full _. Ends-bind (pipeline_time_or_now-Ends web full) λ time _.
            Ends-emit web _ λ w i. sends _ w i (refl, a, inr (inl (refl, p, (refl, (refl, tt)))))

    sync_project_pipelines-Ends :
        (project : Fields)
        → wants project_resource types ≡ true
        → wants pipeline_resource types ≡ true
        → Ends I IsRetrieval Always (sync_project_pipelines web c (last + 2) project)
    unfolding sync_project_pipelines
    sync_project_pipelines-Ends project p a =
        listing-Ends _ (λ pipeline. sync_pipeline-Ends project pipeline p a) _

    sync_project-Ends :
        (project : Fields)
        → wants project_resource types ≡ true
        → Ends I IsRetrieval Always (sync_project web c types (last + 2) project)
    unfolding sync_project get_field project_wrapper
    sync_project-Ends project p = elim (Result-cases (get_id_from_item web project)) [
      | inr (e, k) ↦ rw (k, sync_project) (Ends-pure tt tt)
      | inl (id, k) ↦
          rw (k, sync_project)
            (Ends-bind
              (Ends-wrapping _ (λ e _. (e, refl))
                (get_project_languages-Ends web c requests answers id))
              λ langs _. Ends-bind (updated_at_or_now-Ends web project) λ time _.
                Ends-bind
                  (Ends-emit web _ λ w i. sends _ w i (refl, p, inl (refl, (refl, (refl, tt)))))
                  λ _ _.
                    Ends-bind
                      (Ends-when _ λ a.
                        Ends-wrapping _ (λ e _. (e, refl))
                          (sync_project_access_tokens-Ends project a))
                      λ _ _. Ends-when _ λ a.
                        Ends-wrapping _ (λ e _. (e, refl))
                          (sync_project_pipelines-Ends project p a))
    ]

    sync_group-Ends :
        (group : Fields)
        → wants access_token_resource types ≡ true
        → Ends I IsAccess Always (sync_group web c (last + 2) group)
    unfolding sync_group
    sync_group-Ends group a = elim (Result-cases (get_id_from_item web group)) [
      | inr (e, k) ↦ rw (k, sync_group) (Ends-pure tt tt)
      | inl (id, k) ↦
          rw (k, sync_group)
            (token_listing-Ends "group" group
              (λ token. emit_token-Ends "group" group token (inr refl) a) _)
    ]

    sync_project_assets-Ends :
        Ends I IsRetrieval Always (sync_project_assets web c types (last + 2))
    unfolding sync_project_assets
    sync_project_assets-Ends =
        Ends-when (wants project_resource types)
          λ p. listing-Ends _ (λ project. sync_project-Ends project p) "/api/v4/projects"

    start_sync_process-Ends :
        (locked : Bool)
        → Ends I IsRetrieval Always (start_sync_process web c locked types (last + 2))
    unfolding start_sync_process sync_access_token_resources
    start_sync_process-Ends locked =
        Ends-if locked (λ _. Ends-pure tt tt)
          λ _. Ends-bind (Ends-when _ λ _. sync_project_assets-Ends) λ _ _.
            Ends-when _
              λ a. listing-Ends _ (λ group. Ends-mono (λ e h. h.0) (sync_group-Ends group a)) _

    -- When no answer names more than `last` pages, a synchronisation with `last + 2` calls of `next`
    -- for each listing ends; its error, if any, is one of the retrieval of assets; and what every
    -- request keeps of the world, and every upsert of a type that is asked for with the parts of its
    -- type, holds after it if it held before.
    pub gitlab_sync-Ended :
        (locked : Bool) (w : W)
        → I w
        → Ended I IsRetrieval Always (start_sync_process web c locked types (last + 2) w)
    gitlab_sync-Ended locked w i = (start_sync_process-Ends locked).run w i
