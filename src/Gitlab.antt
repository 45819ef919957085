-- ===== src/Gitlab.antt =====
-- internal/source/gitlab: config.go, client.go and iterator.go. The page iterator is a value, and a
-- call of `next` returns the iterator as it leaves it.
pub mod Laws
pub mod Sync
pub mod Processors
pub mod Webhook
mod Tests
use ibdm.Base.{
  ℕ, ℤ, pos, negsuc, suc, String, Bool, true, false, not, ◌||◌, Option, none, some, List, [], ◌∷◌,
  Err, message, wrap, iterator_done, not_accessible, Result, ok, err, leb, eqb, ◌==◌, starts_with,
  if◌then◌else◌,
}
use ibdm.Value.{Fields}
use ibdm.Effect.{Effect, ◌>>=◌, ◌>>◌, pure, fail, lift, check, attempt, wrapping}
use ibdm.Http.{Web, Request, Response, concat, create, send, itoa, atoi}

pub record SourceConfig : Type 0 where
  pub token : String
  pub base_url : String

pub record WebhookConfig : Type 0 where
  pub webhook_path : String
  pub webhook_token : String

abbrev pub err_source_config_not_valid : String
err_source_config_not_valid = "gitlab source configuration not valid"

abbrev pub err_webhook_config_not_valid : String
err_webhook_config_not_valid = "gitlab webhook configuration not valid"

unfoldable pub validate_source : SourceConfig → Option Err
validate_source c =
    if c.base_url == ""
    then some (wrap err_source_config_not_valid (message "GITLAB_BASE_URL is required"))
    else none

unfoldable pub validate_webhook : WebhookConfig → Option Err
validate_webhook c =
    if not (starts_with c.webhook_path "/")
    then some
        (wrap err_webhook_config_not_valid (message "GITLAB_WEBHOOK_PATH must start with '/'"))
    else none

-- `parsed` is what github.com/caarlos0/env reads.
unfoldable pub load_source_config_from_env : Result SourceConfig → Result SourceConfig
unfolding validate_source
load_source_config_from_env (err e) = err e
load_source_config_from_env (ok c) = elim (validate_source c) [ some e ↦ err e | none ↦ ok c ]

unfoldable pub load_webhook_config_from_env : Result WebhookConfig → Result WebhookConfig
unfolding validate_webhook
load_webhook_config_from_env (err e) = err e
load_webhook_config_from_env (ok c) = elim (validate_webhook c) [ some e ↦ err e | none ↦ ok c ]

unfoldable pub new_source :
    Result SourceConfig → Result WebhookConfig → Result (SourceConfig × WebhookConfig)
unfolding load_source_config_from_env load_webhook_config_from_env
new_source parsed parsed_webhook = elim (load_source_config_from_env parsed) [
  | err e ↦ err (wrap "source creation error" e)
  | ok source_config ↦ elim (load_webhook_config_from_env parsed_webhook) [
    | err e ↦ err (wrap "source creation error" e)
    | ok webhook_config ↦ ok (source_config, webhook_config)
  ]
]

pub record PageIterator : Type 0 where
  pub path : String
  pub curr_page : ℕ
  pub total_pages : ℤ
  pub done : Bool

abbrev pub new_page_iterator : String → PageIterator
new_page_iterator path = record { path = path; curr_page = 0; total_pages = pos 0; done = false }

abbrev pub list_projects : PageIterator
list_projects = new_page_iterator "/api/v4/projects"

abbrev pub list_groups : PageIterator
list_groups = new_page_iterator "/api/v4/groups"

abbrev pub project_path : String → String → String
project_path project_id rest = concat "/api/v4/projects/" (concat project_id rest)

abbrev pub list_project_pipelines : String → PageIterator
list_project_pipelines project_id = new_page_iterator (project_path project_id "/pipelines")

abbrev pub list_project_access_tokens : String → PageIterator
list_project_access_tokens project_id = new_page_iterator (project_path project_id "/access_tokens")

abbrev pub list_group_access_tokens : String → PageIterator
list_group_access_tokens group_id =
    new_page_iterator (concat "/api/v4/groups/" (concat group_id "/access_tokens"))

-- it.currPage >= it.totalPages
abbrev pub is_last : ℕ → ℤ → Bool
is_last page (pos total) = leb total page
is_last page (negsuc _) = true

-- What `next` makes of the answer to its request.
unfoldable pub page_answer :
    PageIterator → Result (List Fields × ℤ) → Result (List Fields) × PageIterator
page_answer it (err e) = (
  err e,
  record {
    path = it.path;
    curr_page = suc it.curr_page;
    total_pages = it.total_pages;
    done = is_last (suc it.curr_page) it.total_pages;
  },
)
page_answer it (ok ([], total_pages)) = (
  err iterator_done,
  record { path = it.path; curr_page = suc it.curr_page; total_pages = total_pages; done = true },
)
page_answer it (ok (item ∷ items, total_pages)) = (
  ok (item ∷ items),
  record {
    path = it.path;
    curr_page = suc it.curr_page;
    total_pages = total_pages;
    done = is_last (suc it.curr_page) total_pages;
  },
)

module _ {W : Type 0} (web : Web W) (c : SourceConfig) where
  abbrev pub request_for : String → List (String × String) → Request
  request_for path q = record {
    method = "GET";
    url = c.base_url;
    path = path;
    query = q;
    headers =
        ("PRIVATE-TOKEN", c.token)
        ∷ ("Accept", "application/json")
        ∷ ("User-Agent", web.user_agent)
        ∷ [];
    body = "";
  }

  abbrev pub status_failure : ℕ → Err
  status_failure status =
      if eqb status 401 || eqb status 403
      then wrap "GitLab API returned status" not_accessible
      else message "GitLab API returned status"

  unfoldable pub do_request : String → List (String × String) → Effect W (Response × String)
  do_request path q = do
    wrapping "invalid base URL" (check (web.parse_url c.base_url))
    wrapping "failed to create request" (create web (request_for path q))
    resp ← wrapping "request failed" (send web (request_for path q))
    if eqb resp.status 200
        then (do
          body ← wrapping "failed to read response body" (lift (web.read_all resp.body))
          pure (resp, body))
        else fail (status_failure resp.status)

  unfoldable pub make_request : String → String → Effect W Fields
  unfolding do_request
  make_request path query = do
    q ← wrapping "invalid query string" (lift (web.parse_query query))
    (_, body) ← do_request path q
    wrapping "failed to decode response" (lift (web.decode_object body))

  unfoldable pub make_request_list : String → String → Effect W (List Fields)
  unfolding do_request
  make_request_list path query = do
    q ← wrapping "invalid query string" (lift (web.parse_query query))
    (_, body) ← do_request path q
    wrapping "failed to decode response" (lift (web.decode_objects body))

  unfoldable pub make_pageable_request : String → ℕ → Effect W (List Fields × ℤ)
  unfolding do_request itoa atoi
  make_pageable_request path page = do
    (resp, body) ← do_request path (("per_page", "100") ∷ ("page", itoa (pos page)) ∷ [])
    items ← wrapping "failed to decode response" (lift (web.decode_objects body))
    pure (items, atoi (resp.header "x-total-pages"))

  unfoldable pub get_project_languages : String → Effect W Fields
  unfolding make_request
  get_project_languages project_id = make_request (project_path project_id "/languages") ""

  unfoldable pub get_project : ℤ → Effect W Fields
  unfolding make_request itoa
  get_project project_id = make_request (concat "/api/v4/projects/" (itoa project_id)) ""

  unfoldable pub get_pipeline : String → String → Effect W Fields
  unfolding make_request
  get_pipeline project_id pipeline_id =
      make_request (project_path project_id (concat "/pipelines/" pipeline_id)) ""

  unfoldable pub next : PageIterator → Effect W (Result (List Fields) × PageIterator)
  unfolding make_pageable_request page_answer
  next it = if it.done then pure (err iterator_done, it) else (do
    r ← attempt (make_pageable_request it.path (suc it.curr_page))
    pure (page_answer it r))
