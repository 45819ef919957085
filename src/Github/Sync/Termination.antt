-- ===== src/Github/Sync/Termination.antt =====
-- The fuel of the loops of a synchronisation.
use ibdm.Base.{
  ℕ, zero, suc, ◌+◌, ◌≤◌, String, ◌≡◌, ◌≢◌, refl, Bool, true, false, Bool-cases, ◌||◌, Option, none,
  some, Option-cases, List, [], ◌∷◌, ◌⊎◌, inl, inr, Result-cases, ok, lookup, is_some, leb, leb→le,
  ◌==◌, arith,
}
use ibdm.Value.{Fields}
use ibdm.Github.{Client, Request, Response, Env}
use ibdm.Github.Iterator.{
  Iterator, next, has_rel_next, is_done, page_count, list_repositories, list_workflow_runs,
}
use ibdm.Github.Iterator.Laws.{next_done, next_last, next-ok}
use ibdm.Github.Sync.{
  repository_type, workflow_run_type, run_pages, extract_owner_repo, sync_repository_workflow_runs,
  maybe_repository, maybe_runs, sync_items, repository_pages, version_of, sync_repository_assets,
  start_sync_process,
}

is_some-none : {A : Type 0} (o : Option A) → o ≡ none → is_some o ≢ true
is_some-none none e h = cc
is_some-none (some a) e h = cc

module _ {W : Type 0} (env : Env W) (c : Client) (last : ℕ)
    (ends : (req : Request) (w : W) (resp : Response)
      → last ≤ req.page
      → (env.send_request req w).0 ≡ ok resp
      → has_rel_next (resp.header "Link") ≡ false) where
  -- The fuel is enough for the pages that are left and for the call after the last one.
  abbrev Enough : ℕ → Iterator → Type 0
  Enough fuel it =
      ((is_done it ≡ true) × (1 ≤ fuel)) ⊎ ((last + 1 ≤ page_count it + fuel) × (2 ≤ fuel))

  Enough-next :
      (fuel : ℕ) (it : Iterator) (w : W) (items : List Fields)
      → (next env c it w).0 ≡ ok items
      → Enough (suc fuel) it
      → Enough fuel (next env c it w).1.0
  Enough-next fuel it w items h (inl (d, k)) = (let m = next_done env c it w d in cc)
  Enough-next fuel it w items h (inr (k, l)) =
      let (_, n) = next-ok env c it w items h in
      elim (Bool-cases (leb last (suc (page_count it)))) [
        | inl e ↦ inl (next_last env c last ends it w (leb→le last _ e), omega (arith, l))
        | inr e ↦ inr (rw n (ground (arith, k, l, e)), ground (arith, k, l, e))
      ]

  run_pages-is_some :
      (fuel : ℕ) (it : Iterator) (w : W)
      → Enough fuel it
      → is_some (run_pages env c fuel it w) ≡ true
  unfolding run_pages
  run_pages-is_some zero it w (inl (d, k)) = absurd (omega (arith, k))
  run_pages-is_some zero it w (inr (d, k)) = absurd (omega (arith, k))
  run_pages-is_some (suc fuel) it w enough = elim (Option-cases (env.ctx_err w)) [
    | inr (e, k) ↦ rw (k, run_pages) refl
    | inl k ↦ elim (Result-cases (next env c it w).0) [
      | inr (e, l) ↦ rw (k, l, run_pages) refl
      | inl (items, l) ↦
          rw (k, l, run_pages) (run_pages-is_some fuel _ _ (Enough-next fuel it w items l enough))
    ]
  ]

  maybe_runs-is_some :
      (fuel : ℕ) (runs : Option String) (item : Fields) (w : W)
      → last + 1 ≤ fuel
      → 2 ≤ fuel
      → is_some (maybe_runs env c fuel runs item w) ≡ true
  unfolding maybe_runs sync_repository_workflow_runs list_workflow_runs
  maybe_runs-is_some fuel none item w h k = refl
  maybe_runs-is_some fuel (some v) item w h k =
      let (owner, name) = extract_owner_repo item in
      elim (Bool-cases (owner == "" || name == "")) [
        | inl e ↦ rw (e, maybe_runs) refl
        | inr e ↦ rw (e, maybe_runs) (run_pages-is_some fuel _ w (inr (omega (arith, h), k)))
      ]

  sync_items-is_some :
      (fuel : ℕ) (repos runs : Option String) (items : List Fields) (w : W)
      → last + 1 ≤ fuel
      → 2 ≤ fuel
      → is_some (sync_items env c fuel repos runs items w) ≡ true
  unfolding sync_items
  sync_items-is_some fuel repos runs [] w a b = refl
  sync_items-is_some fuel repos runs (item ∷ items) w a b = elim (Option-cases (env.ctx_err w)) [
    | inr (e, k) ↦ rw (k, sync_items) refl
    | inl k ↦
        let s = maybe_runs env c fuel runs item (maybe_repository env c repos item w) in
        let t = maybe_runs-is_some fuel runs item (maybe_repository env c repos item w) a b in
        elim (Option-cases s) [
          | inl e ↦ (let u = (rw e at t) in cc)
          | inr ((none, v), e) ↦
              rw (k, e, sync_items) (sync_items-is_some fuel repos runs items v a b)
          | inr ((some f, v), e) ↦ rw (k, e, sync_items) refl
        ]
  ]

  repository_pages-is_some :
      (run_fuel fuel : ℕ) (repos runs : Option String) (it : Iterator) (w : W)
      → last + 1 ≤ run_fuel
      → 2 ≤ run_fuel
      → Enough fuel it
      → is_some (repository_pages env c run_fuel fuel repos runs it w) ≡ true
  unfolding repository_pages
  repository_pages-is_some run_fuel zero repos runs it w a b (inl (d, k)) =
      absurd (omega (arith, k))
  repository_pages-is_some run_fuel zero repos runs it w a b (inr (d, k)) =
      absurd (omega (arith, k))
  repository_pages-is_some run_fuel (suc fuel) repos runs it w a b enough =
      elim (Option-cases (env.ctx_err w)) [
        | inr (e, k) ↦ rw (k, repository_pages) refl
        | inl k ↦ elim (Result-cases (next env c it w).0) [
          | inr (e, l) ↦ rw (k, l, repository_pages) refl
          | inl (items, l) ↦
              let w' = (next env c it w).1.1 in
              let t = sync_items-is_some run_fuel repos runs items w' a b in
              elim (Option-cases (sync_items env c run_fuel repos runs items w')) [
                | inl e ↦ (let u = (rw e at t) in cc)
                | inr ((none, v), e) ↦
                    rw (k, l, e, repository_pages)
                      (repository_pages-is_some run_fuel fuel repos runs _ v a b
                        (Enough-next fuel it w items l enough))
                | inr ((some f, v), e) ↦ rw (k, l, e, repository_pages) refl
              ]
        ]
      ]

  -- When no answer from page `last` on names a next page, a synchronisation ends: `last + 2` calls of
  -- `next` are enough for the repositories, and as many for the runs of each.
  pub start_sync_process-is_some :
      (locked : Bool) (types : List (String × Fields)) (w : W)
      → is_some (start_sync_process env c locked (last + 2) (last + 2) types w) ≡ true
  unfolding start_sync_process sync_repository_assets list_repositories
  start_sync_process-is_some true types w = refl
  start_sync_process-is_some false types w =
      let repos = version_of repository_type types in
      let runs = version_of workflow_run_type types in
      let t =
        repository_pages-is_some (last + 2) (last + 2) repos runs _ w (omega arith) (omega arith)
          (inr (omega arith, omega arith)) in
      elim (Bool-cases
        (is_some (lookup repository_type types) || is_some (lookup workflow_run_type types))) [
          | inr e ↦ rw (e, start_sync_process) refl
          | inl e ↦
              elim (Option-cases (sync_repository_assets env c (last + 2) (last + 2) types w)) [
                | inl f ↦ absurd (is_some-none _ f t)
                | inr (r, f) ↦ rw (e, f, start_sync_process) refl
              ]
        ]
