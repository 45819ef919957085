-- ===== src/Devops/Laws.antt =====
-- How a synchronisation ends and what it sends.
use ibdm.Base.{
  ℕ, zero, suc, ◌+◌, ◌≤◌, ◌<◌, String, ◌≡◌, ◌⊎◌, inl, inr, refl, Bool, true, false, Bool-cases,
  some, Option-cases, List, [], ◌∷◌, Err, wrap, is_canceled, Result, Result-cases, ok, ◌==◌, eq_iff,
  arith,
}
use ibdm.Value.{Fields}
use ibdm.Source.{Data, upsert, wants}
use ibdm.Source.Laws.{wants-cons, wants-head}
use ibdm.Effect.Laws.{
  Ends, Ended, Always, Ends-bind, Ends-attempt, Ends-lift, Ends-check, Ends-pure, Ends-each,
}
use ibdm.Http.{Web, Request, Response}
use ibdm.Http.Laws.{Ends-clock, Ends-emit, Ends-send}
use ibdm.Devops.{
  Config, err_devops_source, validate_for_sync, handle_err, set_param, first_request,
  continuation_header, request_for, do_request, emit_item, sync_pages, sync_resources,
  start_sync_process,
}

module _ {W : Type 0} (web : Web W) (c : Config) (decode_results : String → Result (List Fields))
    (rank : List (String × String) → ℕ) where
  -- A continuation token leads to parameters of a lower rank.
  abbrev pub TokensDown : Type 0
  TokensDown =
      (path : String) (query_param : List (String × String)) (w : W) (resp : Response)
      → (web.send_request (request_for web c decode_results path query_param) w).0 ≡ ok resp
      → (resp.header continuation_header ≡ "")
        ⊎ (rank (set_param "continuationToken" (resp.header continuation_header) query_param)
            < rank query_param)

-- An upsert of a type that is asked for.
abbrev pub IsSynced : List (String × Fields) → Data → Type 0
IsSynced types d = (d.operation ≡ upsert) × (wants d.kind types ≡ true)

-- An error that names the source and is no cancellation.
abbrev pub IsReported : Err → Type 0
IsReported e = (f : Err) × (e ≡ wrap err_devops_source f) × (is_canceled f ≡ false)

handle_err-IsReported : (e f : Err) → handle_err (some e) ≡ some f → IsReported f
unfolding handle_err
handle_err-IsReported e f h = elim (Bool-cases (is_canceled e)) [
  | inl k ↦ (let m = (rw (k, handle_err) at h) in cc)
  | inr k ↦ (let m = (rw (k, handle_err) at h) in (e, cc, k))
]

module _ {W : Type 0} (web : Web W) (c : Config) (decode_results : String → Result (List Fields))
    (rank : List (String × String) → ℕ) (last : ℕ)
    (rank-le : (type_string : String) → rank (first_request type_string).1 ≤ last)
    (down : TokensDown web c decode_results rank) {I : W → Type 0}
    (requests : (req : Request) (w : W) → I w → I (web.send_request req w).1) where
  sync_pages-Ends :
      (type_string path : String)
      → ((d : Data) (w : W)
          → I w
          → (d.operation ≡ upsert)
          → (d.kind ≡ type_string)
          → I (web.results d w))
      → (fuel : ℕ) (query_param : List (String × String)) → rank query_param + 1 ≤ fuel
      → Ends I Always Always (sync_pages web c decode_results fuel type_string path query_param)
  unfolding sync_pages do_request emit_item
  sync_pages-Ends type_string path sends zero query_param k = absurd (omega (arith, k))
  sync_pages-Ends type_string path sends (suc fuel) query_param k =
      Ends-bind
        {Gives = λ resp.
          (resp.header continuation_header ≡ "")
          ⊎ (rank (set_param "continuationToken" (resp.header continuation_header) query_param)
              < rank query_param)}
        (Ends-bind {Gives = Always} (Ends-check _ (λ _ _. tt)) λ _ _.
          Ends-send web _ (requests _) (λ w resp e. down path query_param w resp e) (λ _. tt))
        λ resp goes_down.
          Ends-bind {Gives = Always} (Ends-lift _ (λ _ _. tt) (λ _ _. tt)) λ results _.
            Ends-bind
              (Ends-each _
                (λ item.
                  Ends-bind (Ends-clock web) λ time _. Ends-emit web _ λ w i. sends _ w i refl refl)
                results)
              λ _ _. elim (Bool-cases (resp.header continuation_header == "")) [
                | inl e ↦ rw e (Ends-pure tt tt)
                | inr e ↦ elim goes_down [
                  | inl d ↦ (let m = (eq_iff (resp.header continuation_header) "").1 d in cc)
                  | inr d ↦
                      rw e (sync_pages-Ends type_string path sends fuel _ (omega (arith, k, d)))
                ]
              ]

  sync_resources-Ends :
      (types : List (String × Fields))
      → ((d : Data) (w : W) → I w → IsSynced types d → I (web.results d w))
      → Ends I Always Always (sync_resources web c decode_results (last + 1) types)
  unfolding sync_resources
  sync_resources-Ends [] sends = Ends-pure tt tt
  sync_resources-Ends ((type_string, extra) ∷ types) sends =
      let le = rank-le type_string in
      Ends-bind
        (sync_pages-Ends type_string _
          (λ d w i o e. sends d w i (o, wants-head type_string extra types d.kind e)) (last + 1) _
          (omega (arith, le)))
        λ _ _.
          sync_resources-Ends types
            (λ d w i (o, a). sends d w i (o, wants-cons d.kind (type_string, extra) types a))

  unlocked_sync-Ends :
      (types : List (String × Fields))
      → ((d : Data) (w : W) → I w → IsSynced types d → I (web.results d w))
      → Ends I IsReported Always (start_sync_process web c decode_results false types (last + 1))
  unfolding start_sync_process
  unlocked_sync-Ends types sends = elim (Option-cases (validate_for_sync c)) [
    | inr (e, k) ↦ rw (k, start_sync_process) (Ends-check _ (λ f h. handle_err-IsReported e f h))
    | inl k ↦ elim (Option-cases (web.parse_url c.organization_url)) [
      | inr (e, m) ↦
          rw (k, m, start_sync_process) (Ends-check _ (λ f h. handle_err-IsReported e f h))
      | inl m ↦
          rw (k, m, start_sync_process)
            (Ends-bind (Ends-attempt (sync_resources-Ends types sends)) λ r _.
              elim (Result-cases r) [
                | inl (a, n) ↦ rw n (Ends-pure tt tt)
                | inr (e, n) ↦ rw n (Ends-check _ (λ f h. handle_err-IsReported e f h))
              ])
    ]
  ]

  -- When the continuation tokens go down in a rank, which is at most `last` at first, a synchronisation
  -- with `last + 1` pages for each type ends, whatever is answered otherwise; it reports no
  -- cancellation, and only errors that name the source; and what every request keeps of the world, and
  -- every upsert of a type that is asked for, holds after it if it held before.
  pub devops_sync-Ended :
      (locked : Bool) (types : List (String × Fields))
      → ((d : Data) (w : W) → I w → IsSynced types d → I (web.results d w))
      → (w : W) → I w
      → Ended I IsReported Always
          (start_sync_process web c decode_results locked types (last + 1) w)
  unfolding start_sync_process
  devops_sync-Ended true types sends w i = (tt, i)
  devops_sync-Ended false types sends w i = (unlocked_sync-Ends types sends).run w i
