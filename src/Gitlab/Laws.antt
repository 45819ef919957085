-- ===== src/Gitlab/Laws.antt =====
-- What the client keeps of the world, and what a call of `next` leaves to be read.
use ibdm.Base.{
  ℕ, ℤ, pos, negsuc, suc, ◌+◌, ◌≤◌, String, ◌≡◌, refl, ◌∙◌, ◌⊎◌, inl, inr, Bool, true, false,
  Bool-cases, List, [], ◌∷◌, Err, iterator_done, Result, ok, err, leb, leb→le, eqb, arith,
}
use ibdm.Value.{Fields}
use ibdm.Effect.Laws.{
  Ends, Always, Either, Ends-bind, Ends-attempt, Ends-wrapping, Ends-wrapped, Ends-if, Ends-check,
  Ends-pure, Ends-fail,
}
use ibdm.Http.{Web, Request, Response, atoi}
use ibdm.Http.Laws.{Ends-send}
use ibdm.Gitlab.{
  SourceConfig, PageIterator, is_last, page_answer, do_request, make_request, make_pageable_request,
  get_project_languages, get_project, get_pipeline, next,
}

-- The number of pages that an answer names is at most `last`.
abbrev pub NamesAtMost : ℕ → Response → Type 0
NamesAtMost last resp = is_last last (atoi (resp.header "x-total-pages")) ≡ true

-- The fuel is enough for the pages that are left and for the call after the last one.
abbrev pub Enough : ℕ → ℕ → PageIterator → Type 0
Enough last fuel it =
    ((it.done ≡ true) × (1 ≤ fuel)) ⊎ ((last + 1 ≤ it.curr_page + fuel) × (2 ≤ fuel))

abbrev Names : ℕ → Result (List Fields × ℤ) → Type 0
Names last (ok (items, total)) = is_last last total ≡ true
Names last (err e) = Unit

Either-Names :
    (last : ℕ) (r : Result (List Fields × ℤ))
    → Either Always (λ (a : List Fields × ℤ). is_last last a.1 ≡ true) r
    → Names last r
Either-Names last (ok (items, total)) h = h
Either-Names last (err e) h = tt

is_last_mono :
    (last page : ℕ) (total : ℤ)
    → is_last last total ≡ true
    → last ≤ page
    → is_last page total ≡ true
is_last_mono last page (pos n) h k = ground (arith, h, k)
is_last_mono last page (negsuc n) h k = refl

-- The end of the pages, or an iterator that needs one call less.
abbrev pub Advanced : ℕ → ℕ → Result (List Fields) × PageIterator → Type 0
Advanced last fuel (r, it) =
    (r ≡ err iterator_done) ⊎ ((is_last last it.total_pages ≡ true) × Enough last fuel it)

advance :
    (last fuel page : ℕ) (total : ℤ) (done : Bool)
    → is_last last total ≡ true
    → done ≡ is_last (suc page) total
    → (last + 1 ≤ page + suc fuel) × (2 ≤ suc fuel)
    → ((done ≡ true) × (1 ≤ fuel)) ⊎ ((last + 1 ≤ suc page + fuel) × (2 ≤ fuel))
advance last fuel page total done h d (k, l) = elim (Bool-cases (leb last (suc page))) [
  | inl e ↦
      inl (d ∙ is_last_mono last (suc page) total h (leb→le last (suc page) e), omega (arith, l))
  | inr e ↦ inr (omega (arith, k), ground (arith, k, l, e))
]

page_answer-Advanced :
    (last fuel : ℕ) (it : PageIterator) (r : Result (List Fields × ℤ))
    → it.done ≡ false
    → is_last last it.total_pages ≡ true
    → Enough last (suc fuel) it
    → Names last r
    → Advanced last fuel (page_answer it r)
unfolding page_answer
page_answer-Advanced last fuel it r d t (inl (e, k)) n = cc
page_answer-Advanced last fuel it (err e) d t (inr k) n =
    inr (t, advance last fuel it.curr_page it.total_pages _ t refl k)
page_answer-Advanced last fuel it (ok ([], total)) d t (inr k) n = inl refl
page_answer-Advanced last fuel it (ok (item ∷ items, total)) d t (inr k) n =
    inr (n, advance last fuel it.curr_page total _ n refl k)

module _ {W : Type 0} (web : Web W) (c : SourceConfig) {I : W → Type 0} {Answer : Response → Type 0}
    (requests : (req : Request) (w : W) → I w → I (web.send_request req w).1)
    (answers : (req : Request) (w : W) (resp : Response)
      → (web.send_request req w).0 ≡ ok resp
      → Answer resp) where
  do_request-Ends :
      (path : String) (q : List (String × String))
      → Ends I Always (λ (r : Response × String). Answer r.0) (do_request web c path q)
  unfolding do_request
  do_request-Ends path q =
      Ends-bind {Gives = Always} (Ends-wrapping _ (λ _ _. tt) (Ends-check _ (λ _ _. tt))) λ _ _.
        Ends-bind {Gives = Always} (Ends-wrapping _ (λ _ _. tt) (Ends-check _ (λ _ _. tt))) λ _ _.
          Ends-bind {Gives = Answer}
            (Ends-wrapping _ (λ _ _. tt) (Ends-send web _ (requests _) (answers _) (λ _. tt)))
            λ resp n.
              Ends-if (eqb resp.status 200)
                (λ _.
                  Ends-bind {Gives = Always} (Ends-wrapped _ (web.read_all resp.body))
                    λ body _. Ends-pure (resp, body) n)
                (λ _. Ends-fail _ tt)

  pub make_request-Ends :
      (path query : String) → Ends I Always Always (make_request web c path query)
  unfolding make_request
  make_request-Ends path query = Ends-bind (Ends-wrapped _ (web.parse_query query)) λ q _.
      Ends-bind (do_request-Ends path q) λ (resp, body) _. Ends-wrapped _ (web.decode_object body)

  pub get_project_languages-Ends :
      (id : String) → Ends I Always Always (get_project_languages web c id)
  unfolding get_project_languages
  get_project_languages-Ends id = make_request-Ends _ ""

  pub get_project-Ends : (id : ℤ) → Ends I Always Always (get_project web c id)
  unfolding get_project
  get_project-Ends id = make_request-Ends _ ""

  pub get_pipeline-Ends :
      (project_id pipeline_id : String)
      → Ends I Always Always (get_pipeline web c project_id pipeline_id)
  unfolding get_pipeline
  get_pipeline-Ends project_id pipeline_id = make_request-Ends _ ""

module _ {W : Type 0} (web : Web W) (c : SourceConfig) {I : W → Type 0} (last : ℕ)
    (requests : (req : Request) (w : W) → I w → I (web.send_request req w).1)
    (answers : (req : Request) (w : W) (resp : Response)
      → (web.send_request req w).0 ≡ ok resp
      → NamesAtMost last resp) where
  make_pageable_request-Ends :
      (path : String) (page : ℕ)
      → Ends I Always
          (λ (r : List Fields × ℤ). is_last last r.1 ≡ true)
          (make_pageable_request web c path page)
  unfolding make_pageable_request
  make_pageable_request-Ends path page =
      Ends-bind (do_request-Ends web c requests answers path _) λ (resp, body) n.
        Ends-bind (Ends-wrapped _ (web.decode_objects body)) λ items _. Ends-pure _ n

  -- A call of `next` ends the pages or uses one unit of the fuel that is enough for them.
  pub next-Ends :
      {Fails : Err → Type 0} (fuel : ℕ) (it : PageIterator)
      → is_last last it.total_pages ≡ true
      → Enough last (suc fuel) it
      → Ends I Fails (Advanced last fuel) (next web c it)
  unfolding next
  next-Ends fuel it t enough =
      Ends-if it.done (λ e. Ends-pure _ (inl refl))
        (λ e.
          Ends-bind (Ends-attempt (make_pageable_request-Ends it.path (suc it.curr_page))) λ r n.
            Ends-pure _ (page_answer-Advanced last fuel it r e t enough (Either-Names last r n)))
