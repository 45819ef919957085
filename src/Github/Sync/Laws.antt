-- ===== src/Github/Sync/Laws.antt =====
-- What a synchronisation sends, and the errors that it returns.
use ibdm.Base.{
  ℕ, String, ◌≡◌, refl, sym, ap, Bool, true, false, Bool-cases, ◌||◌, Option, none, some,
  Option-cases, List, ◌⊎◌, inl, inr, Err, wrap, is_canceled, is_deadline_exceeded, lookup, is_some,
}
use ibdm.Value.{Fields}
use ibdm.Source.{Data, upsert}
use ibdm.Github.{Client, Request, Env}
use ibdm.Github.Sync.{
  repository_type, workflow_run_type, version_of, sync_repository_assets, sync_result,
  start_sync_process,
}
use ibdm.Github.Sync.Effects.{Leaves, repository_pages-keeps}

version_of-is_some :
    (kind : String) (types : List (String × Fields)) (v : String)
    → version_of kind types ≡ some v
    → is_some (lookup kind types) ≡ true
unfolding version_of
version_of-is_some kind types v h = elim (Option-cases (lookup kind types)) [
  | inl e ↦ (let k = (rw (e, version_of) at h) in cc)
  | inr (extra, e) ↦ rw e refl
]

Leaves-sync_result :
    {W : Type 0} (I : W → Type 0) (r : Option Err × W) → I r.1 → I (sync_result r).1
unfolding sync_result
Leaves-sync_result I (none, w) h = h
Leaves-sync_result I (some e, w) h = elim (Bool-cases (is_canceled e || is_deadline_exceeded e)) [
  | inl k ↦ rw k h
  | inr k ↦ rw k h
]

or-false : (a b : Bool) → (a || b) ≡ false → (a ≡ false) × (b ≡ false)
or-false true b h = cc
or-false false b h = (refl, h)

sync_result-error :
    {W : Type 0} (r : Option Err × W) (e : Err)
    → (sync_result r).0 ≡ some e
    → (is_canceled e ≡ false) × (is_deadline_exceeded e ≡ false)
unfolding sync_result is_canceled is_deadline_exceeded
sync_result-error (none, w) e h = cc
sync_result-error (some f, w) e h = elim (Bool-cases (is_canceled f || is_deadline_exceeded f)) [
  | inl k ↦ (let m = (rw (k, sync_result) at h) in cc)
  | inr k ↦
      let m : some (wrap "github source" f) ≡ some e = (rw (k, sync_result) at h) in
      let n : wrap "github source" f ≡ e = cc in
      rw⁻¹ n (or-false (is_canceled f) (is_deadline_exceeded f) k)
]

start_sync_process-cases :
    {W : Type 0} (env : Env W) (c : Client) (locked : Bool) (run_fuel fuel : ℕ)
    (types : List (String × Fields)) (w : W) (s : Option Err × W)
    → start_sync_process env c locked run_fuel fuel types w ≡ some s
    → (s ≡ (none, w))
      ⊎ ((r : Option Err × W) × (sync_repository_assets env c run_fuel fuel types w ≡ some r)
          × (s ≡ sync_result r))
unfolding start_sync_process
start_sync_process-cases env c true run_fuel fuel types w s h = inl cc
start_sync_process-cases env c false run_fuel fuel types w s h =
    elim (Bool-cases
      (is_some (lookup repository_type types) || is_some (lookup workflow_run_type types))) [
        | inr e ↦ (let k = (rw (e, start_sync_process) at h) in inl cc)
        | inl e ↦ elim (Option-cases (sync_repository_assets env c run_fuel fuel types w)) [
          | inl f ↦ (let k = (rw (e, f, start_sync_process) at h) in cc)
          | inr (r, f) ↦ (let k = (rw (e, f, start_sync_process) at h) in inr (r, f, cc))
        ]
      ]

-- A predicate of the world that every request keeps, and that sending an upsert of a type that is
-- asked for keeps, holds after a synchronisation that ends if it held before it.
pub start_sync_process-keeps :
    {W : Type 0} (env : Env W) (c : Client) (I : W → Type 0)
    → ((req : Request) (w : W) → I w → I (env.send_request req w).1)
    → (types : List (String × Fields))
    → ((d : Data) (w : W)
        → I w
        → d.operation ≡ upsert
        → is_some (lookup d.kind types) ≡ true
        → I (env.results d w))
    → (locked : Bool) (run_fuel fuel : ℕ) (w w' : W) (e : Option Err) → I w
    → start_sync_process env c locked run_fuel fuel types w ≡ some (e, w')
    → I w'
unfolding start_sync_process
start_sync_process-keeps env c I requests types sends locked run_fuel fuel w w' e h r =
    let repos = version_of repository_type types in
    let runs = version_of workflow_run_type types in
    elim (start_sync_process-cases env c locked run_fuel fuel types w _ r) [
      | inl k ↦ rw (ap (λ s. s.1) k) h
      | inr (s, k, l) ↦ rw (ap (λ s. s.1) l) (
          Leaves-sync_result I s (
            let t : Leaves I (sync_repository_assets env c run_fuel fuel types w) =
              repository_pages-keeps env c I requests (λ kind. is_some (lookup kind types) ≡ true)
                sends repos runs (version_of-is_some repository_type types)
                (version_of-is_some workflow_run_type types) run_fuel fuel _ w h in
            rw k at t))
    ]

-- The error of a synchronisation is never a cancellation or an expired deadline.
pub start_sync_process-is_canceled :
    {W : Type 0} (env : Env W) (c : Client) (locked : Bool) (run_fuel fuel : ℕ)
    (types : List (String × Fields)) (w w' : W) (e : Err)
    → start_sync_process env c locked run_fuel fuel types w ≡ some (some e, w')
    → (is_canceled e ≡ false) × (is_deadline_exceeded e ≡ false)
unfolding start_sync_process
start_sync_process-is_canceled env c locked run_fuel fuel types w w' e r =
    elim (start_sync_process-cases env c locked run_fuel fuel types w _ r) [
      | inl k ↦ (let l = ap (λ s. s.0) k in cc)
      | inr (s, k, l) ↦ sync_result-error s e (sym (ap (λ s. s.0) l))
    ]
