-- ===== src/Github/Iterator/Laws.antt =====
-- What a call of `next` tells about the pages that are left.
use ibdm.Base.{
  ℕ, suc, ◌≤◌, String, ◌≡◌, ◌≢◌, refl, sym, ap, ◌∙◌, inl, inr, Bool, true, false, Bool-cases,
  Option, none, some, Option-cases, List, [], ◌∷◌, Err, iterator_done, Result, ok, err, lookup,
}
use ibdm.Value.{Fields}
use ibdm.Github.{concat, request_for, Client, Request, Response, Env, do_request}
use ibdm.Github.Iterator.{
  Iterator, page, wrapped, status_error, end_of_page, has_rel_next, page_answer, wrapped_answer,
  next, is_done, page_count,
}

-- Some item or the end.
abbrev Answer : Result (List Fields) × Bool → Type 0
Answer (ok items, done) = items ≢ []
Answer (err e, done) = done ≡ true

end_of_page-Answer : (resp : Response) (items : List Fields) → Answer (end_of_page resp items)
end_of_page-Answer resp [] = refl
end_of_page-Answer resp (item ∷ items) = λ h. cc

-- A predicate on answers that holds of every error, in the checks one after the other.
module _ (Good : Result (List Fields) × Bool → Type 0)
    (on_error : (e : Err) → Good (err e, true)) where
  or_error-Good :
      (o : Option Err) (a : Result (List Fields) × Bool)
      → Good a
      → Good (elim o [ some e ↦ (err e, true) | none ↦ a ])
  or_error-Good (some e) a h = on_error e
  or_error-Good none a h = h

  decoded-Good :
      {A : Type 0} (decoded : Result A) (describe : Err → Err)
      (next_step : A → Result (List Fields) × Bool)
      → ((a : A) → Good (next_step a))
      → Good (elim decoded [ err e ↦ (err (describe e), true) | ok a ↦ next_step a ])
  decoded-Good (err e) describe next_step h = on_error (describe e)
  decoded-Good (ok a) describe next_step h = h a

  key-Good :
      (o : Option String) (e : Err) (next_step : String → Result (List Fields) × Bool)
      → ((a : String) → Good (next_step a))
      → Good (elim o [ none ↦ (err e, true) | some a ↦ next_step a ])
  key-Good none e next_step h = on_error e
  key-Good (some a) e next_step h = h a

  module _ {W : Type 0} (env : Env W) where
    page_answer-Good :
        (r : Result Response)
        → ((resp : Response) (items : List Fields) → r ≡ ok resp → Good (end_of_page resp items))
        → Good (page_answer env r)
    unfolding page_answer
    page_answer-Good (err e) h = on_error e
    page_answer-Good (ok resp) h =
        or_error-Good (status_error resp) _
          (decoded-Good (env.decode_items resp.body) _ _ (λ items. h resp items refl))

    wrapped_answer-Good :
        (key : String) (r : Result Response)
        → ((resp : Response) (items : List Fields) → r ≡ ok resp → Good (end_of_page resp items))
        → Good (wrapped_answer env key r)
    unfolding wrapped_answer
    wrapped_answer-Good key (err e) h = on_error e
    wrapped_answer-Good key (ok resp) h = or_error-Good (status_error resp) _ (
        decoded-Good (env.decode_wrapper resp.body) _ _ (λ wrapper.
          key-Good (lookup key wrapper) _ _
            (λ raw. decoded-Good (env.decode_items raw) _ _ (λ items. h resp items refl))))

Answer-cases :
    (a : Result (List Fields) × Bool)
    → Answer a
    → ((items : List Fields) → a.0 ≡ ok items → items ≢ []) × ((e : Err) → a.0 ≡ err e → a.1 ≡ true)
Answer-cases (ok items, done) h =
    (λ other e. (let k : items ≡ other = cc in rw (sym k) h), λ f e. cc)
Answer-cases (err e, done) h = (λ items k. cc, λ f k. h)

-- The last page is the last one.
end_of_page_last :
    (resp : Response) (items : List Fields)
    → has_rel_next (resp.header "Link") ≡ false
    → (end_of_page resp items).1 ≡ true
end_of_page_last resp [] h = refl
end_of_page_last resp (item ∷ items) h = rw h refl

module _ {W : Type 0} (env : Env W) where
  do_request-ok :
      (c : Client) (path version : String) (n : ℕ) (w : W) (resp : Response)
      → (do_request env c path version n w).0 ≡ ok resp
      → (req : Request) × (req.page ≡ n) × ((env.send_request req w).0 ≡ ok resp)
  unfolding do_request
  do_request-ok c path version n w resp h =
      elim (Option-cases (env.parse_url (concat c.base_url path))) [
        | inr (e, k) ↦ (let m = (rw (k, do_request) at h) in cc)
        | inl k ↦ elim (Option-cases (env.new_request (request_for c path version n))) [
          | inr (e, l) ↦ (let m = (rw (k, l, do_request) at h) in cc)
          | inl l ↦ (request_for c path version n, refl, (rw (k, l, do_request) at h))
        ]
      ]

  -- An exhausted iterator makes no request: it says that it is done and stays as it is.
  pub next_done :
      (c : Client) (it : Iterator) (w : W)
      → is_done it ≡ true
      → next env c it w ≡ (err iterator_done, (it, w))
  unfolding next
  next_done c (page it) w h = rw (h, next) refl
  next_done c (wrapped it) w h = rw (h, next) refl

  next_open :
      (c : Client) (it : Iterator) (w : W)
      → is_done it ≡ false
      → (a : Result (List Fields) × Bool) × Answer a
        × ((next env c it w).0 ≡ a.0)
        × (is_done (next env c it w).1.0 ≡ a.1)
        × (page_count (next env c it w).1.0 ≡ suc (page_count it))
  unfolding next
  next_open c (page it) w h =
      let r = (do_request env c it.path it.api_version (suc it.curr_page) w).0 in
      (
        page_answer env r,
        page_answer-Good Answer (λ e. refl) env r (λ resp items e. end_of_page-Answer resp items),
        rw (h, next) refl,
        rw (h, next) refl,
        rw (h, next) refl,
      )
  next_open c (wrapped it) w h =
      let r = (do_request env c it.path it.api_version (suc it.curr_page) w).0 in
      (
        wrapped_answer env it.response_key r,
        wrapped_answer-Good Answer (λ e. refl) env it.response_key r
            (λ resp items e. end_of_page-Answer resp items),
        rw (h, next) refl,
        rw (h, next) refl,
        rw (h, next) refl,
      )

  -- A page that is handed out is never empty and raises the number of the page by one.
  pub next-ok :
      (c : Client) (it : Iterator) (w : W) (items : List Fields)
      → (next env c it w).0 ≡ ok items
      → (items ≢ []) × (page_count (next env c it w).1.0 ≡ suc (page_count it))
  next-ok c it w items h = elim (Bool-cases (is_done it)) [
    | inl e ↦ (let k = next_done c it w e in cc)
    | inr e ↦
        (let (a, s, r, d, n) = next_open c it w e in ((Answer-cases a s).0 items (sym r ∙ h), n))
  ]

  -- After an error, and after the end, the iterator is exhausted.
  pub next-err :
      (c : Client) (it : Iterator) (w : W) (e : Err)
      → (next env c it w).0 ≡ err e
      → is_done (next env c it w).1.0 ≡ true
  next-err c it w f h = elim (Bool-cases (is_done it)) [
    | inl e ↦ rw (next_done c it w e) e
    | inr e ↦ (let (a, s, r, d, n) = next_open c it w e in d ∙ (Answer-cases a s).1 f (sym r ∙ h))
  ]

  -- When no answer from a page on names a next page, the page before it is followed by the end.
  pub next_last :
      (c : Client) (last : ℕ)
      → ((req : Request) (w : W) (resp : Response)
          → last ≤ req.page
          → (env.send_request req w).0 ≡ ok resp
          → has_rel_next (resp.header "Link") ≡ false)
      → (it : Iterator) (w : W) → last ≤ suc (page_count it)
      → is_done (next env c it w).1.0 ≡ true
  unfolding next
  next_last c last ends (page it) w h = elim (Bool-cases it.done) [
    | inl e ↦ ap (λ r. is_done r.1.0) (next_done c (page it) w e) ∙ e
    | inr e ↦
        rw (e, next)
          (page_answer-Good (λ a. a.1 ≡ true) (λ e. refl) env
            (do_request env c it.path it.api_version (suc it.curr_page) w).0
            (λ resp items k.
              (let (req, p, s) =
                  do_request-ok c it.path it.api_version (suc it.curr_page) w resp k in
                end_of_page_last resp items (ends req w resp (rw p h) s))))
  ]
  next_last c last ends (wrapped it) w h = elim (Bool-cases it.done) [
    | inl e ↦ ap (λ r. is_done r.1.0) (next_done c (wrapped it) w e) ∙ e
    | inr e ↦
        rw (e, next)
          (wrapped_answer-Good (λ a. a.1 ≡ true) (λ e. refl) env it.response_key
            (do_request env c it.path it.api_version (suc it.curr_page) w).0
            (λ resp items k.
              (let (req, p, s) =
                  do_request-ok c it.path it.api_version (suc it.curr_page) w resp k in
                end_of_page_last resp items (ends req w resp (rw p h) s))))
  ]
