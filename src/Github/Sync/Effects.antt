-- ===== src/Github/Sync/Effects.antt =====
-- What the loops of a synchronisation keep of the world.
use ibdm.Base.{
  ℕ, zero, suc, String, ◌≡◌, refl, Bool-cases, ◌||◌, Option, none, some, Option-cases, List, [],
  ◌∷◌, inl, inr, Err, Result-cases, ◌==◌,
}
use ibdm.Value.{Fields, get_field, text_or_empty}
use ibdm.Source.{Data, upsert}
use ibdm.Github.{Client, Request, Env, request_for, concat, do_request, add_languages}
use ibdm.Github.Iterator.{Iterator, page, wrapped, next}
use ibdm.Github.Sync.{
  repository_type, workflow_run_type, emit_runs, run_pages, extract_owner_repo,
  sync_repository_workflow_runs, emit_repository, maybe_repository, maybe_runs, sync_items,
  repository_pages,
}

-- What a loop on fuel leaves, if it ends.
abbrev pub Leaves : {W : Type 0} → (W → Type 0) → Option (Option Err × W) → Type 0
Leaves I none = Unit
Leaves I (some (e, w)) = I w

-- An invariant `I` of the world that requests keep.
module _ {W : Type 0} (env : Env W) (c : Client) (I : W → Type 0)
    (requests : (req : Request) (w : W) → I w → I (env.send_request req w).1) where
  do_request-keeps :
      (path version : String) (n : ℕ) (w : W) → I w → I (do_request env c path version n w).1
  unfolding do_request
  do_request-keeps path version n w h =
      elim (Option-cases (env.parse_url (concat c.base_url path))) [
        | inr (e, k) ↦ rw (k, do_request) h
        | inl k ↦ elim (Option-cases (env.new_request (request_for c path version n))) [
          | inr (e, l) ↦ rw (k, l, do_request) h
          | inl l ↦ rw (k, l, do_request) (requests (request_for c path version n) w h)
        ]
      ]

  next-keeps : (it : Iterator) (w : W) → I w → I (next env c it w).1.1
  unfolding next
  next-keeps (page it) w h = elim (Bool-cases it.done) [
    | inl e ↦ rw (e, next) h
    | inr e ↦ rw (e, next) (do_request-keeps it.path it.api_version (suc it.curr_page) w h)
  ]
  next-keeps (wrapped it) w h = elim (Bool-cases it.done) [
    | inl e ↦ rw (e, next) h
    | inr e ↦ rw (e, next) (do_request-keeps it.path it.api_version (suc it.curr_page) w h)
  ]

  pub add_languages-keeps :
      (repo : Fields) (version : String) (values : Fields) (w : W)
      → I w
      → I (add_languages env c repo version values w).1
  unfolding add_languages
  add_languages-keeps repo version values w h =
      elim (Bool-cases (text_or_empty (get_field "full_name" repo) == "")) [
        | inl e ↦ rw (e, add_languages) h
        | inr e ↦ rw (e, add_languages) (do_request-keeps _ version 1 w h)
      ]

  -- Sending an upsert of an allowed type keeps it too.
  module _ (Allowed : String → Type 0)
      (sends : (d : Data) (w : W)
        → I w
        → d.operation ≡ upsert
        → Allowed d.kind
        → I (env.results d w)) where
    emit_runs-keeps :
        (items : List Fields) (w : W)
        → Allowed workflow_run_type
        → I w
        → I (emit_runs env c items w)
    unfolding emit_runs
    emit_runs-keeps [] w a h = h
    emit_runs-keeps (item ∷ items) w a h = emit_runs-keeps items _ a (sends _ w h refl a)

    run_pages-keeps :
        (fuel : ℕ) (it : Iterator) (w : W)
        → Allowed workflow_run_type
        → I w
        → Leaves I (run_pages env c fuel it w)
    unfolding run_pages
    run_pages-keeps zero it w a h = tt
    run_pages-keeps (suc fuel) it w a h = elim (Option-cases (env.ctx_err w)) [
      | inr (e, k) ↦ rw (k, run_pages) h
      | inl k ↦ elim (Result-cases (next env c it w).0) [
        | inr (e, l) ↦ rw (k, l, run_pages) (next-keeps it w h)
        | inl (items, l) ↦
            rw (k, l, run_pages)
              (run_pages-keeps fuel _ _ a (emit_runs-keeps items _ a (next-keeps it w h)))
      ]
    ]

    runs-keeps :
        (fuel : ℕ) (repo : Fields) (version : String) (w : W)
        → Allowed workflow_run_type
        → I w
        → Leaves I (sync_repository_workflow_runs env c fuel repo version w)
    unfolding sync_repository_workflow_runs
    runs-keeps fuel repo version w a h =
        let (owner, name) = extract_owner_repo repo in
        elim (Bool-cases (owner == "" || name == "")) [
          | inl e ↦ rw (e, sync_repository_workflow_runs) h
          | inr e ↦ rw (e, sync_repository_workflow_runs) (run_pages-keeps fuel _ w a h)
        ]

    emit_repository-keeps :
        (item : Fields) (version : String) (w : W)
        → Allowed repository_type
        → I w
        → I (emit_repository env c item version w)
    unfolding emit_repository
    emit_repository-keeps item version w a h =
        sends _ _ (add_languages-keeps item version _ w h) refl a

    maybe_repository-keeps :
        (repos : Option String) (item : Fields) (w : W)
        → ((v : String) → repos ≡ some v → Allowed repository_type)
        → I w
        → I (maybe_repository env c repos item w)
    unfolding maybe_repository
    maybe_repository-keeps none item w a h = h
    maybe_repository-keeps (some v) item w a h = emit_repository-keeps item v w (a v refl) h

    maybe_runs-keeps :
        (fuel : ℕ) (runs : Option String) (item : Fields) (w : W)
        → ((v : String) → runs ≡ some v → Allowed workflow_run_type)
        → I w
        → Leaves I (maybe_runs env c fuel runs item w)
    unfolding maybe_runs
    maybe_runs-keeps fuel none item w a h = h
    maybe_runs-keeps fuel (some v) item w a h = runs-keeps fuel item v w (a v refl) h

    module _ (repos runs : Option String)
        (repos_allowed : (v : String) → repos ≡ some v → Allowed repository_type)
        (runs_allowed : (v : String) → runs ≡ some v → Allowed workflow_run_type) where
      sync_items-keeps :
          (fuel : ℕ) (items : List Fields) (w : W)
          → I w
          → Leaves I (sync_items env c fuel repos runs items w)
      unfolding sync_items
      sync_items-keeps fuel [] w h = h
      sync_items-keeps fuel (item ∷ items) w h = elim (Option-cases (env.ctx_err w)) [
        | inr (e, k) ↦ rw (k, sync_items) h
        | inl k ↦
            let s = maybe_runs env c fuel runs item (maybe_repository env c repos item w) in
            let t =
              maybe_runs-keeps fuel runs item _ runs_allowed
                (maybe_repository-keeps repos item w repos_allowed h) in
            elim (Option-cases s) [
              | inl e ↦ rw (k, e, sync_items) tt
              | inr ((none, v), e) ↦
                  rw (k, e, sync_items) (sync_items-keeps fuel items v (rw e at t))
              | inr ((some f, v), e) ↦ rw (k, e, sync_items) (rw e at t)
            ]
      ]

      pub repository_pages-keeps :
          (run_fuel fuel : ℕ) (it : Iterator) (w : W)
          → I w
          → Leaves I (repository_pages env c run_fuel fuel repos runs it w)
      unfolding repository_pages
      repository_pages-keeps run_fuel zero it w h = tt
      repository_pages-keeps run_fuel (suc fuel) it w h = elim (Option-cases (env.ctx_err w)) [
        | inr (e, k) ↦ rw (k, repository_pages) h
        | inl k ↦ elim (Result-cases (next env c it w).0) [
          | inr (e, l) ↦ rw (k, l, repository_pages) (next-keeps it w h)
          | inl (items, l) ↦
              let t = sync_items-keeps run_fuel items _ (next-keeps it w h) in
              elim (Option-cases
                (sync_items env c run_fuel repos runs items (next env c it w).1.1)) [
                  | inl e ↦ rw (k, l, e, repository_pages) tt
                  | inr ((none, v), e) ↦
                      rw (k, l, e, repository_pages)
                        (repository_pages-keeps run_fuel fuel _ v (rw e at t))
                  | inr ((some f, v), e) ↦ rw (k, l, e, repository_pages) (rw e at t)
                ]
        ]
      ]
