-- ===== src/Bitbucket/Laws.antt =====
-- What the client keeps of the world, what a call of `next` leaves to be read, and the credentials.
use ibdm.Base.{
  ℕ, suc, ◌+◌, ◌≤◌, ◌<◌, String, ◌≡◌, ◌≢◌, ◌↔◌, refl, ◌⊎◌, inl, inr, true, Bool-cases, none, List,
  [], ◌∷◌, Err, Result, ok, err, ◌==◌, eq_iff, arith,
}
use ibdm.Value.{Fields}
use ibdm.Effect.Laws.{
  Ends, Always, Either, Ends-bind, Ends-attempt, Ends-wrapping, Ends-wrapped, Ends-if, Ends-lift,
  Ends-check, Ends-pure, Ends-fail,
}
use ibdm.Http.{Web, Request, Response, is_failure}
use ibdm.Http.Laws.{Ends-send}
use ibdm.Bitbucket.{
  SourceConfig, Client, PageIterator, validate, page_answer, do_request, get_repository,
  repository_url, get_page, next,
}

module _ (decode_page : String → Result (List Fields × String)) (rank : String → ℕ) where
  -- Links from one page to the next go down in rank.
  abbrev pub LinksDown : String → Response → Type 0
  LinksDown url resp =
      (values : List Fields) (link : String)
      → decode_page resp.body ≡ ok (values, link)
      → (link ≡ "") ⊎ (rank link < rank url)

  -- The fuel is enough for the pages that are left and for the call after the last one.
  abbrev pub Enough : ℕ → PageIterator → Type 0
  Enough fuel it = ((it.done ≡ true) × (1 ≤ fuel)) ⊎ (rank it.next_url + 2 ≤ fuel)

  abbrev pub Advanced : ℕ → Result (List Fields) × PageIterator → Type 0
  Advanced fuel (err e, it) = Unit
  Advanced fuel (ok items, it) = Enough fuel it

  page_answer-Advanced :
      (fuel : ℕ) (it : PageIterator) (r : Result (List Fields × String))
      → rank it.next_url + 2 ≤ suc fuel
      → Either Always (λ (a : List Fields × String). (a.1 ≡ "") ⊎ (rank a.1 < rank it.next_url)) r
      → Advanced fuel (page_answer it r)
  unfolding page_answer
  page_answer-Advanced fuel it (err e) k h = tt
  page_answer-Advanced fuel it (ok ([], link)) k h = tt
  page_answer-Advanced fuel it (ok (item ∷ items, link)) k h = elim (Bool-cases (link == "")) [
    | inl e ↦ rw e (inl (refl, omega (arith, k)))
    | inr e ↦ rw e (
        inr (elim h [
          | inl m ↦ absurd (let n = (eq_iff link "").1 m in cc)
          | inr m ↦ omega (arith, k, m)
        ]))
  ]

module _ {W : Type 0} (web : Web W) (c : Client) {I : W → Type 0}
    (requests : (req : Request) (w : W) → I w → I (web.send_request req w).1) where
  do_request-Ends :
      {Answer : Response → Type 0} (url : String)
      → ((req : Request) (w : W) (resp : Response)
          → req.url ≡ url
          → (web.send_request req w).0 ≡ ok resp
          → Answer resp)
      → Ends I Always Answer (do_request web c url)
  unfolding do_request
  do_request-Ends url answers =
      Ends-bind {Gives = Always} (Ends-wrapping _ (λ _ _. tt) (Ends-check _ (λ _ _. tt)))
        λ _ _. Ends-send web _ (requests _) (λ w resp. answers _ w resp refl) (λ _. tt)

  pub get_repository-Ends :
      (slug repo_slug : String) → Ends I Always Always (get_repository web c slug repo_slug)
  unfolding get_repository
  get_repository-Ends slug repo_slug =
      Ends-bind {Gives = Always}
        (Ends-wrapping _ (λ _ _. tt)
          (do_request-Ends (repository_url web c slug repo_slug) (λ _ _ _ _ _. tt)))
        λ resp _.
          Ends-if (is_failure resp.status) (λ _. Ends-fail _ tt)
            (λ _. Ends-wrapped _ (web.decode_object resp.body))

  module _ (decode_page : String → Result (List Fields × String)) (rank : String → ℕ)
      (answers : (req : Request) (w : W) (resp : Response)
        → (web.send_request req w).0 ≡ ok resp
        → LinksDown decode_page rank req.url resp) where
    get_page-Ends :
        (url : String)
        → Ends I Always
            (λ (a : List Fields × String). (a.1 ≡ "") ⊎ (rank a.1 < rank url))
            (get_page web c decode_page url)
    unfolding get_page
    get_page-Ends url =
        Ends-bind
          (do_request-Ends {Answer = LinksDown decode_page rank url} url
            (λ req w resp e k. rw (← e) (answers req w resp k)))
          λ resp links.
            Ends-if (is_failure resp.status) (λ _. Ends-fail _ tt)
              (λ _.
                Ends-wrapping _ (λ _ _. tt)
                  (Ends-lift (decode_page resp.body) (λ a k. links a.0 a.1 k) (λ _ _. tt)))

    -- A call of `next` ends the pages or uses one unit of the fuel that is enough for them.
    pub next-Ends :
        {Fails : Err → Type 0} (fuel : ℕ) (it : PageIterator)
        → Enough decode_page rank (suc fuel) it
        → Ends I Fails (Advanced decode_page rank fuel) (next web c decode_page it)
    unfolding next
    next-Ends fuel it (inl (d, k)) = rw (d, next) (Ends-pure _ tt)
    next-Ends fuel it (inr k) =
        Ends-if it.done (λ e. Ends-pure _ tt)
          (λ e.
            Ends-bind (Ends-attempt (get_page-Ends it.next_url))
              λ r n. Ends-pure _ (page_answer-Advanced decode_page rank fuel it r k n))

-- The credentials are accepted exactly when there is an access token and nothing else, or a user
-- name and a token without an access token.
pub bitbucket_validate_iff :
    (c : SourceConfig)
    → (validate c ≡ none) ↔ (
        ((c.access_token ≢ "") × (c.api_username ≡ "") × (c.api_token ≡ ""))
        ⊎ ((c.access_token ≡ "") × (c.api_username ≢ "") × (c.api_token ≢ "")))
unfolding validate
bitbucket_validate_iff c =
    ground (arith, eq_iff c.access_token "", eq_iff c.api_username "", eq_iff c.api_token "")
