-- ===== src/Bitbucket/Sync/Laws.antt =====
-- What a synchronisation sends and how it ends.
use ibdm.Base.{
  ℕ, zero, suc, ◌+◌, ◌≤◌, String, ◌≡◌, refl, ◌⊎◌, inl, inr, Bool, true, false, ◌||◌, List, [], ◌∷◌,
  Err, wrap, is_canceled, is_deadline_exceeded, is_iterator_done, Result, Result-cases, ok, err,
  ◌==◌, arith,
}
use ibdm.Value.{Fields, get_field}
use ibdm.Source.{Data, upsert, wants}
use ibdm.Effect.{Effect, ◌>>=◌}
use ibdm.Effect.Laws.{
  Ends, Ended, Always, Either, Ends-bind, Ends-attempt, Ends-if, Ends-pure, Ends-fail, Ends-when,
  Ends-each,
}
use ibdm.Http.{Web, Request, Response}
use ibdm.Http.Laws.{HasKeys, Ends-clock, Ends-emit, Ends-unless_done, Ends-each_live}
use ibdm.Bitbucket.{Client, PageIterator, next, err_bitbucket_source}
use ibdm.Bitbucket.Laws.{LinksDown, Enough, next-Ends}
use ibdm.Bitbucket.Sync.{
  repository_type, pipeline_type, err_retrieving_assets, extract_repo_slug, extract_workspace_slug,
  page_error, emit_pipeline, pipeline_pages, sync_repository_pipelines, emit_repository,
  sync_repository, repository_pages, sync_repositories_for_workspace, sync_workspace,
  workspace_pages, sync_workspace_assets, sync_result, start_sync_process,
}

-- An upsert of a type that is asked for, with the parts that its type has.
abbrev pub IsSynced : List (String × Fields) → Data → Type 0
IsSynced types d =
    (d.operation ≡ upsert)
    × (wants d.kind types ≡ true)
    × (((d.kind ≡ repository_type) × HasKeys ("repository" ∷ []) d)
        ⊎ ((d.kind ≡ pipeline_type) × HasKeys ("repository" ∷ "pipeline" ∷ []) d))

-- An error of the retrieval of assets.
abbrev pub IsRetrieval : Err → Type 0
IsRetrieval e = (f : Err) × (e ≡ wrap err_retrieving_assets f)

-- What a synchronisation reports: an error of the retrieval that is no cancellation.
abbrev pub IsReported : Err → Type 0
IsReported e =
    (f : Err) × (e ≡ wrap err_bitbucket_source (wrap err_retrieving_assets f))
    × ((is_canceled e || is_deadline_exceeded e) ≡ false)

module _ {W : Type 0} (web : Web W) (c : Client)
    (decode_page : String → Result (List Fields × String)) (rank : String → ℕ) (last : ℕ)
    (ranks : (url : String) → rank url ≤ last) {I : W → Type 0}
    (requests : (req : Request) (w : W) → I w → I (web.send_request req w).1)
    (answers : (req : Request) (w : W) (resp : Response)
      → (web.send_request req w).0 ≡ ok resp
      → LinksDown decode_page rank req.url resp)
    (types : List (String × Fields))
    (sends : (d : Data) (w : W) → I w → IsSynced types d → I (web.results d w)) where
  start-Enough :
      (url : String) → Enough decode_page rank (last + 2) (record { next_url = url; done = false })
  start-Enough url = inr (omega (arith, ranks url))

  page_error-Ends : (e : Err) → Ends I IsRetrieval Always (page_error web c decode_page e)
  unfolding page_error
  page_error-Ends e =
      Ends-if (is_iterator_done e) (λ _. Ends-pure tt tt) (λ _. Ends-fail _ (e, refl))

  -- A loop over pages, by what it does with the items of one and with the pages after it.
  page-Ends :
      {next_step : List Fields → PageIterator → Effect W Unit} (fuel : ℕ) (it : PageIterator)
      → Enough decode_page rank (suc fuel) it
      → ((items : List Fields) (it' : PageIterator)
          → Enough decode_page rank fuel it'
          → Ends I IsRetrieval Always (next_step items it'))
      → Ends I IsRetrieval Always (
          next web c decode_page it >>= λ (r, it'). elim r [
            | err e ↦ page_error web c decode_page e
            | ok items ↦ next_step items it'
          ])
  page-Ends fuel it enough h =
      Ends-bind (next-Ends web c requests decode_page rank answers fuel it enough)
        λ (r, it') advanced. elim (Result-cases r) [
          | inr (e, k) ↦ rw k (page_error-Ends e)
          | inl (items, k) ↦ rw k (h items it' (rw k at advanced))
        ]

  emit_pipeline-Ends :
      {Fails : Err → Type 0} (repo pipeline : Fields)
      → wants pipeline_type types ≡ true
      → Ends I Fails Always (emit_pipeline web c decode_page repo pipeline)
  unfolding emit_pipeline get_field
  emit_pipeline-Ends repo pipeline a =
      Ends-bind (Ends-clock web)
        λ time _. Ends-emit web _ λ w i. sends _ w i (refl, a, inr (refl, (refl, (refl, tt))))

  pipeline_pages-Ends :
      (repo : Fields) (fuel : ℕ) (it : PageIterator)
      → wants pipeline_type types ≡ true
      → Enough decode_page rank fuel it
      → Ends I IsRetrieval Always (pipeline_pages web c decode_page repo fuel it)
  unfolding pipeline_pages
  pipeline_pages-Ends repo zero it a (inl (d, k)) = absurd (omega (arith, k))
  pipeline_pages-Ends repo zero it a (inr k) = absurd (omega (arith, k))
  pipeline_pages-Ends repo (suc fuel) it a enough = Ends-unless_done web (
      page-Ends fuel it enough λ items it' enough'.
        Ends-bind (Ends-each _ (λ pipeline. emit_pipeline-Ends repo pipeline a) items)
          λ _ _. pipeline_pages-Ends repo fuel it' a enough')

  sync_repository_pipelines-Ends :
      (slug : String) (repo : Fields)
      → wants pipeline_type types ≡ true
      → Ends I IsRetrieval Always (sync_repository_pipelines web c decode_page (last + 2) slug repo)
  unfolding sync_repository_pipelines
  sync_repository_pipelines-Ends slug repo a =
      Ends-if (extract_repo_slug repo == "") (λ _. Ends-pure tt tt)
        (λ _. pipeline_pages-Ends repo (last + 2) _ a (start-Enough _))

  emit_repository-Ends :
      {Fails : Err → Type 0} (repo : Fields)
      → wants repository_type types ≡ true
      → Ends I Fails Always (emit_repository web c decode_page repo)
  unfolding emit_repository get_field
  emit_repository-Ends repo a =
      Ends-bind (Ends-clock web)
        λ time _. Ends-emit web _ λ w i. sends _ w i (refl, a, inl (refl, (refl, tt)))

  -- An error of the pipelines of a repository is no error of the synchronisation.
  pub sync_repository-Ends :
      {Fails : Err → Type 0} (slug : String) (repo : Fields)
      → Ends I Fails Always (sync_repository web c decode_page types (last + 2) slug repo)
  unfolding sync_repository
  sync_repository-Ends slug repo = Ends-bind (Ends-when _ λ a. emit_repository-Ends repo a) λ _ _.
      Ends-when _ λ a.
        Ends-bind (Ends-attempt (sync_repository_pipelines-Ends slug repo a)) λ _ _. Ends-pure tt tt

  repository_pages-Ends :
      (slug : String) (fuel : ℕ) (it : PageIterator)
      → Enough decode_page rank fuel it
      → Ends I IsRetrieval Always (repository_pages web c decode_page types (last + 2) slug fuel it)
  unfolding repository_pages
  repository_pages-Ends slug zero it (inl (d, k)) = absurd (omega (arith, k))
  repository_pages-Ends slug zero it (inr k) = absurd (omega (arith, k))
  repository_pages-Ends slug (suc fuel) it enough = Ends-unless_done web (
      page-Ends fuel it enough λ items it' enough'.
        Ends-each_live web _ (sync_repository-Ends slug) items
          (repository_pages-Ends slug fuel it' enough'))

  sync_repositories_for_workspace-Ends :
      (slug : String)
      → Ends I IsRetrieval Always
          (sync_repositories_for_workspace web c decode_page types (last + 2) slug)
  unfolding sync_repositories_for_workspace
  sync_repositories_for_workspace-Ends slug =
      repository_pages-Ends slug (last + 2) _ (start-Enough _)

  sync_workspace-Ends :
      (item : Fields)
      → Ends I IsRetrieval Always (sync_workspace web c decode_page types (last + 2) item)
  unfolding sync_workspace
  sync_workspace-Ends item =
      Ends-if (extract_workspace_slug item == "") (λ _. Ends-pure tt tt)
        (λ _. sync_repositories_for_workspace-Ends (extract_workspace_slug item))

  workspace_pages-Ends :
      (fuel : ℕ) (it : PageIterator)
      → Enough decode_page rank fuel it
      → Ends I IsRetrieval Always (workspace_pages web c decode_page types (last + 2) fuel it)
  unfolding workspace_pages
  workspace_pages-Ends zero it (inl (d, k)) = absurd (omega (arith, k))
  workspace_pages-Ends zero it (inr k) = absurd (omega (arith, k))
  workspace_pages-Ends (suc fuel) it enough = Ends-unless_done web (
      page-Ends fuel it enough λ items it' enough'.
        Ends-each_live web _ sync_workspace-Ends items (workspace_pages-Ends fuel it' enough'))

  sync_workspace_assets-Ends :
      (workspace : String)
      → Ends I IsRetrieval Always
          (sync_workspace_assets web c decode_page workspace types (last + 2))
  unfolding sync_workspace_assets
  sync_workspace_assets-Ends workspace =
      Ends-if (workspace == "") (λ _. workspace_pages-Ends (last + 2) _ (start-Enough _))
        (λ _. sync_repositories_for_workspace-Ends workspace)

  sync_result-Ends :
      (r : Result (Unit {0}))
      → Either IsRetrieval Always r
      → Ends I IsReported Always (sync_result web c decode_page r)
  unfolding is_canceled is_deadline_exceeded
  sync_result-Ends (ok _) h = Ends-pure tt tt
  sync_result-Ends (err e) (f, k) =
      Ends-if (is_canceled e || is_deadline_exceeded e) (λ _. Ends-pure tt tt)
        (λ l. Ends-fail _ (f, rw k refl, l))

  start_sync_process-Ends :
      (locked : Bool) (workspace : String)
      → Ends I IsReported Always
          (start_sync_process web c decode_page locked workspace types (last + 2))
  unfolding start_sync_process
  start_sync_process-Ends locked workspace =
      Ends-if locked (λ _. Ends-pure tt tt)
        λ _. Ends-when _ λ _.
          Ends-bind (Ends-attempt (sync_workspace_assets-Ends workspace))
            λ r h. sync_result-Ends r h

  -- When the links from page to page go down in a rank of at most `last`, a synchronisation with
  -- `last + 2` calls of `next` for each listing ends; it reports only errors of the retrieval that are
  -- no cancellation; and what every request keeps of the world, and every upsert of a type that is
  -- asked for with the parts of its type, holds after it if it held before.
  pub bitbucket_sync-Ended :
      (locked : Bool) (workspace : String) (w : W)
      → I w
      → Ended I IsReported Always
          (start_sync_process web c decode_page locked workspace types (last + 2) w)
  bitbucket_sync-Ended locked workspace w i = (start_sync_process-Ends locked workspace).run w i
