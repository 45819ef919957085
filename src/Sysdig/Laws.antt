-- ===== src/Sysdig/Laws.antt =====
-- How a synchronisation ends and what it sends, and the settings that are accepted.
use ibdm.Base.{
  ℕ, ℤ, pos, negsuc, zero, suc, ◌+◌, ◌≤◌, ◌<◌, ◌+ℤ◌, String, ◌≡◌, ◌≢◌, ◌↔◌, refl, sym, ◌⊎◌, inl,
  inr, Bool, true, false, Bool-cases, ◌||◌, Option, none, some, Option-cases, List, [], ◌∷◌, Err,
  is_canceled, is_deadline_exceeded, Result, Result-cases, ok, lookup, ◌==◌, eq_iff, arith,
}
use ibdm.Value.{Fields}
use ibdm.Source.{Data, upsert, wants}
use ibdm.Source.Laws.{wants-cons, wants-head}
use ibdm.Effect.{Effect}
use ibdm.Effect.Laws.{
  Ends, Ended, Always, Ends-bind, Ends-attempt, Ends-wrapping, Ends-if, Ends-lift, Ends-check,
  Ends-pure, Ends-fail, Ends-each,
}
use ibdm.Http.{Web, Request, Response, is_failure}
use ibdm.Github.Laws.{guards_iff, neq_iff}
use ibdm.Http.Laws.{Ends-clock, Ends-emit, Ends-send, Ends-context_error, Ends-unless_done}
use ibdm.Sysdig.{
  Config, is_outside_page_size, validate, sysql_vulnerability_query, vulnerability_type,
  known_types, paginated, is_zero, sysql_request, execute_sysql_query, query_all_pages, send_item,
  sync_type, sync_types, start_sync_process,
}

-- A size between 1 and 1000.
abbrev pub IsPageSize : ℤ → Type 0
IsPageSize (pos n) = (1 ≤ n) × (n ≤ 1000)
IsPageSize (negsuc n) = ⊥

is_outside_page_size_iff : (z : ℤ) → (is_outside_page_size z ≡ false) ↔ IsPageSize z
is_outside_page_size_iff (pos n) = ground arith
is_outside_page_size_iff (negsuc n) = (λ h. cc, λ h. absurd h)

-- The settings are accepted exactly when the URL and the token are there and a page has between 1 and
-- 1000 items.
pub sysdig_validate_iff :
    (c : Config)
    → (validate c ≡ none) ↔ ((c.url ≢ "") × (c.api_token ≢ "") × IsPageSize c.page_size)
unfolding validate
sysdig_validate_iff c =
    let g = guards_iff (c.url == "") (c.api_token == "") (is_outside_page_size c.page_size) _ _ _ in
    let size = is_outside_page_size_iff c.page_size in
    (
      λ h.
          (let (a, b, k) = g.0 h in
            ((neq_iff c.url "").0 a, (neq_iff c.api_token "").0 b, size.0 k)),
      λ (a, b, k). g.1 ((neq_iff c.url "").1 a, (neq_iff c.api_token "").1 b, size.1 k),
    )

-- An empty page, or another offset that is reached and has a lower rank.
abbrev pub LeadsDown : (ℤ → Type 0) → (ℤ → ℕ) → ℤ → ℤ → Type 0
LeadsDown Reached rank offset fetched =
    (is_zero fetched ≡ true)
    ⊎ (Reached (offset +ℤ fetched) × (rank (offset +ℤ fetched) < rank offset))

module _ {W : Type 0} (web : Web W) (marshal_query : String → Result String)
    (decode_items : String → Result (List Fields × ℤ)) (c : Config) (Reached : ℤ → Type 0)
    (rank : ℤ → ℕ) where
  -- From an offset that is reached, a page that is not empty leads to one of a lower rank.
  abbrev pub OffsetsDown : Type 0
  OffsetsDown =
      (body : String) (offset fetched : ℤ) (w : W) (resp : Response) (items : List Fields)
      → Reached offset
      → marshal_query (paginated sysql_vulnerability_query c.page_size offset) ≡ ok body
      → (web.send_request (sysql_request web marshal_query decode_items c body) w).0 ≡ ok resp
      → decode_items resp.body ≡ ok (items, fetched)
      → LeadsDown Reached rank offset fetched

module _ {W : Type 0} (web : Web W) (marshal_query : String → Result String)
    (decode_items : String → Result (List Fields × ℤ)) (c : Config) {Reached : ℤ → Type 0}
    (rank : ℤ → ℕ) (down : OffsetsDown web marshal_query decode_items c Reached rank)
    {I : W → Type 0} (requests : (req : Request) (w : W) → I w → I (web.send_request req w).1) where
  execute_sysql_query-Ends :
      (offset : ℤ)
      → Reached offset
      → Ends I Always
          (λ (page : List Fields × ℤ). LeadsDown Reached rank offset page.1)
          (execute_sysql_query web marshal_query decode_items c
            (paginated sysql_vulnerability_query c.page_size offset))
  unfolding execute_sysql_query
  execute_sysql_query-Ends offset reached =
      Ends-bind
        {Gives = λ (body : String).
          marshal_query (paginated sysql_vulnerability_query c.page_size offset) ≡ ok body}
        (Ends-wrapping _ (λ _ _. tt) (Ends-lift (marshal_query _) (λ body e. e) (λ _ _. tt)))
        λ body m.
          Ends-bind {Gives = Always} (Ends-wrapping _ (λ _ _. tt) (Ends-check _ (λ _ _. tt))) λ _ _.
            Ends-bind
              {Gives = λ (resp : Response).
                (page : List Fields × ℤ)
                → decode_items resp.body ≡ ok page
                → LeadsDown Reached rank offset page.1}
              (Ends-wrapping _ (λ _ _. tt)
                (Ends-send web _ (requests _)
                  (λ w resp e page d. down body offset page.1 w resp page.0 reached m e d)
                  (λ _. tt)))
              λ resp h.
                Ends-if (is_failure resp.status) (λ _. Ends-fail _ tt)
                  (λ _.
                    Ends-wrapping _ (λ _ _. tt) (Ends-lift (decode_items resp.body) h (λ _ _. tt)))

  query_all_pages-Ends :
      (handle_page : List Fields → Effect W Unit)
      → ((items : List Fields) → Ends I Always Always (handle_page items))
      → (fuel : ℕ) (offset : ℤ) → Reached offset
      → rank offset + 1 ≤ fuel
      → Ends I Always Always (
          query_all_pages web marshal_query decode_items c sysql_vulnerability_query handle_page
            fuel offset)
  unfolding query_all_pages
  query_all_pages-Ends handle_page h zero offset reached k = absurd (omega (arith, k))
  query_all_pages-Ends handle_page h (suc fuel) offset reached k =
      Ends-bind {Gives = Always} (Ends-context_error web) λ done _.
        Ends-bind (Ends-check done (λ _ _. tt)) λ _ _.
          Ends-bind (execute_sysql_query-Ends offset reached) λ (items, fetched) goes_down.
            elim (Bool-cases (is_zero fetched)) [
              | inl e ↦ rw e (Ends-pure tt tt)
              | inr e ↦ rw e (
                  Ends-bind (h items) λ _ _. elim goes_down [
                    | inl d ↦ cc
                    | inr (r, d) ↦
                        query_all_pages-Ends handle_page h fuel (offset +ℤ fetched) r
                          (omega (arith, k, d))
                  ])
            ]

-- An upsert of a vulnerability, when it is asked for.
abbrev pub IsSynced : List (String × Fields) → Data → Type 0
IsSynced types d =
    (d.operation ≡ upsert) × (d.kind ≡ vulnerability_type) × (wants d.kind types ≡ true)

-- The only type that is known.
known_types-some :
    (kind query : String)
    → lookup kind known_types ≡ some query
    → (kind ≡ vulnerability_type) × (query ≡ sysql_vulnerability_query)
unfolding lookup
known_types-some kind query h = elim (Bool-cases (vulnerability_type == kind)) [
  | inl e ↦ let k = (rw (e, lookup) at h) in (sym ((eq_iff vulnerability_type kind).0 e), cc)
  | inr e ↦ (let k = (rw (e, lookup) at h) in cc)
]

module _ {W : Type 0} (web : Web W) (marshal_query : String → Result String)
    (decode_items : String → Result (List Fields × ℤ)) (c : Config) {Reached : ℤ → Type 0}
    (rank : ℤ → ℕ) (down : OffsetsDown web marshal_query decode_items c Reached rank)
    (select_done : W → Option Err) (start : Reached (pos 0)) {I : W → Type 0}
    (requests : (req : Request) (w : W) → I w → I (web.send_request req w).1) where
  send_item-Ends :
      (types : List (String × Fields)) (kind : String) (item : Fields)
      → ((d : Data) (w : W) → I w → IsSynced types d → I (web.results d w))
      → kind ≡ vulnerability_type
      → wants kind types ≡ true
      → Ends I Always Always (send_item web marshal_query decode_items c select_done kind item)
  unfolding send_item
  send_item-Ends types kind item sends known asked = Ends-bind (Ends-clock web) λ time _.
      Ends-bind {Gives = Always} (record { run = λ w i. (tt, i) })
        λ done _.
          Ends-bind (Ends-check done (λ _ _. tt))
            λ _ _. Ends-emit web _ λ w i. sends _ w i (refl, known, asked)

  -- No error of a type is an error of the synchronisation.
  sync_types-Ends :
      (fuel : ℕ) (types : List (String × Fields))
      → rank (pos 0) + 1 ≤ fuel
      → ((d : Data) (w : W) → I w → IsSynced types d → I (web.results d w))
      → Ends I (λ e. ⊥) Always (sync_types web marshal_query decode_items c select_done fuel types)
  unfolding sync_types is_canceled is_deadline_exceeded sync_type
  sync_types-Ends fuel [] k sends = Ends-pure tt tt
  sync_types-Ends fuel ((kind, extra) ∷ types) k sends =
      let others : Ends I (λ e. ⊥) Always
          (sync_types web marshal_query decode_items c select_done fuel types) =
        sync_types-Ends fuel types k
          (λ d w i (o, v, a). sends d w i (o, v, wants-cons d.kind (kind, extra) types a)) in
      Ends-unless_done web (elim (Option-cases (lookup kind known_types)) [
        | inl e ↦ rw e others
        | inr (query, e) ↦
            rw (e, (known_types-some kind query e).1)
              (Ends-bind
                (Ends-attempt (
                  query_all_pages-Ends web marshal_query decode_items c rank down requests _
                    (λ items.
                      Ends-each _
                        (λ item.
                          send_item-Ends ((kind, extra) ∷ types) kind item sends
                            (known_types-some kind query e).0
                            (wants-head kind extra types kind refl))
                        items)
                    fuel (pos 0) start k))
                λ r _. elim (Result-cases r) [
                  | inl (_, m) ↦ rw m others
                  | inr (f, m) ↦ rw m (
                      Ends-if (is_canceled f || is_deadline_exceeded f) (λ _. Ends-pure tt tt)
                        (λ _. others))
                ])
      ])

  -- When every page that is not empty leads from an offset that is reached, 0 among them, to another
  -- of a lower rank, a synchronisation with one page more than the rank of 0 ends without an error,
  -- whatever the answers are otherwise; and what every request keeps of the world, and every upsert of a vulnerability that is asked for, holds after it
  -- if it held before.
  pub sysdig_sync-Ended :
      (locked : Bool) (types : List (String × Fields))
      → ((d : Data) (w : W) → I w → IsSynced types d → I (web.results d w))
      → (w : W) → I w
      → Ended I
          (λ e. ⊥)
          Always
          (start_sync_process web marshal_query decode_items c select_done locked types
            (rank (pos 0) + 1)
            w)
  unfolding start_sync_process
  sysdig_sync-Ended true types sends w i = (tt, i)
  sysdig_sync-Ended false types sends w i =
      (sync_types-Ends (rank (pos 0) + 1) types (omega arith) sends).run w i
