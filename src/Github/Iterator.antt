-- ===== src/Github/Iterator.antt =====
-- internal/source/github/iterator.go: page by page through a resource. `pageIterator` and
-- `wrappedPageIterator` are two records behind the interface `iterator`; a call returns the
-- iterator as it leaves it.
pub mod Laws
use ibdm.Base.{
  ℕ, suc, ◌+◌, String, Bool, true, false, ◌&&◌, ◌||◌, Option, none, some, List, [], ◌∷◌, Err,
  message, wrap, iterator_done, Result, ok, err, lookup, eqb, ltb, ◌==◌, if◌then◌else◌, codes,
}
use ibdm.Regex.{Regex, nil, chars, seq, star, is_match}
use ibdm.Value.{Fields}
use ibdm.Github.{Client, Request, Response, Env, do_request, is_failure, concat}

pub record PageIterator : Type 0 where
  pub path : String
  pub api_version : String
  pub curr_page : ℕ
  pub done : Bool

pub record WrappedPageIterator : Type 0 where
  pub path : String
  pub api_version : String
  pub response_key : String
  pub curr_page : ℕ
  pub done : Bool

pub data Iterator : Type 0 where
  page : PageIterator → Iterator
  wrapped : WrappedPageIterator → Iterator

abbrev pub any_char : Regex
any_char = chars (λ c. true)

-- A letter in either case: `(?i)`.
abbrev pub letter : ℕ → Regex
letter l = chars (λ c. eqb c l || eqb (c + 32) l)

abbrev pub exactly : ℕ → Regex
exactly l = chars (λ c. eqb c l)

abbrev pub spaces : Regex
spaces = star (chars (λ c. eqb c 9 || eqb c 10 || eqb c 12 || eqb c 13 || eqb c 32))

-- (?i)<([^>]*)>\s*;\s*rel="next", anywhere in the text
unfoldable pub rel_next_regex : Regex
rel_next_regex = seq (star any_char) (
    seq (exactly 60) (
      seq (star (chars (λ c. if eqb c 62 then false else true))) (
        seq (exactly 62) (
          seq spaces (
            seq (exactly 59) (
              seq spaces (
                seq (letter 114) (
                  seq (letter 101) (
                    seq (letter 108) (
                      seq (exactly 61) (
                        seq (exactly 34) (
                          seq (letter 110) (
                            seq (letter 101) (
                              seq (letter 120)
                                (seq (letter 116) (seq (exactly 34) (star any_char)))))))))))))))))

unfoldable pub has_rel_next : String → Bool
unfolding is_match rel_next_regex
has_rel_next link_header =
    if link_header == "" then false else is_match rel_next_regex (codes link_header)

-- The checks on the status that both iterators make.
unfoldable pub status_error : Response → Option Err
status_error resp =
    if (eqb resp.status 403 || eqb resp.status 429) && resp.header "X-Ratelimit-Remaining" == "0"
    then some (wrap "rate limit exhausted" (message resp.body))
    else if is_failure resp.status
    then some (wrap "unexpected status" (message resp.body))
    else none

-- The end of both: no item ends the iteration, and so does a page without a next one, after it.
abbrev pub end_of_page : Response → List Fields → Result (List Fields) × Bool
end_of_page resp [] = (err iterator_done, true)
end_of_page resp (item ∷ items) =
    (ok (item ∷ items), (if has_rel_next (resp.header "Link") then false else true))

module _ {W : Type 0} (env : Env W) where
  -- The answer to a request, with the new `done` of the iterator.
  unfoldable pub page_answer : Result Response → Result (List Fields) × Bool
  unfolding status_error has_rel_next
  page_answer (err e) = (err e, true)
  page_answer (ok resp) = elim (status_error resp) [
    | some e ↦ (err e, true)
    | none ↦ elim (env.decode_items resp.body) [
      | err e ↦ (err (wrap "failed to decode response" e), true)
      | ok items ↦ end_of_page resp items
    ]
  ]

  unfoldable pub wrapped_answer : String → Result Response → Result (List Fields) × Bool
  unfolding status_error has_rel_next
  wrapped_answer key (err e) = (err e, true)
  wrapped_answer key (ok resp) = elim (status_error resp) [
    | some e ↦ (err e, true)
    | none ↦ elim (env.decode_wrapper resp.body) [
      | err e ↦ (err (wrap "failed to decode response" e), true)
      | ok wrapper ↦ elim (lookup key wrapper) [
        | none ↦ (err (wrap "response missing key" (message key)), true)
        | some raw ↦ elim (env.decode_items raw) [
          | err e ↦ (err (wrap "failed to decode" (wrap key e)), true)
          | ok items ↦ end_of_page resp items
        ]
      ]
    ]
  ]

  unfoldable pub next_page : Client → PageIterator → W → Result (List Fields) × (PageIterator × W)
  unfolding do_request page_answer
  next_page c it w =
      if it.done
      then (err iterator_done, (it, w))
      else (let page_number = suc it.curr_page in
          let (r, w') = do_request env c it.path it.api_version page_number w in
          let (answer, done) = page_answer r in
          (
            answer,
            (
              record {
                path = it.path;
                api_version = it.api_version;
                curr_page = page_number;
                done = done;
              },
              w',
            ),
          ))

  unfoldable pub next_wrapped :
      Client → WrappedPageIterator → W → Result (List Fields) × (WrappedPageIterator × W)
  unfolding do_request wrapped_answer
  next_wrapped c it w =
      if it.done
      then (err iterator_done, (it, w))
      else (let page_number = suc it.curr_page in
          let (r, w') = do_request env c it.path it.api_version page_number w in
          let (answer, done) = wrapped_answer it.response_key r in
          (
            answer,
            (
              record {
                path = it.path;
                api_version = it.api_version;
                response_key = it.response_key;
                curr_page = page_number;
                done = done;
              },
              w',
            ),
          ))

  unfoldable pub next : Client → Iterator → W → Result (List Fields) × (Iterator × W)
  unfolding next_page next_wrapped
  next c (page it) w = (let (r, (it', w')) = next_page c it w in (r, (page it', w')))
  next c (wrapped it) w = (let (r, (it', w')) = next_wrapped c it w in (r, (wrapped it', w')))

  unfoldable pub list_repositories : Client → String → Iterator
  list_repositories c api_version = page (record {
    path = concat "/orgs/" (concat (env.escape c.org) "/repos?type=all");
    api_version = api_version;
    curr_page = 0;
    done = false;
  })

  unfoldable pub list_workflow_runs : String → String → String → Iterator
  list_workflow_runs owner repo api_version = wrapped (record {
    path =
        concat "/repos/"
          (concat (env.escape owner) (concat "/" (concat (env.escape repo) "/actions/runs")));
    api_version = api_version;
    response_key = "workflow_runs";
    curr_page = 0;
    done = false;
  })

abbrev pub is_done : Iterator → Bool
is_done (page it) = it.done
is_done (wrapped it) = it.done

abbrev pub page_count : Iterator → ℕ
page_count (page it) = it.curr_page
page_count (wrapped it) = it.curr_page
