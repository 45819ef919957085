-- ===== src/Bitbucket.antt =====
-- internal/source/bitbucket: config.go, client.go, iterator.go and source.go. `decode_page` is the
-- decoder for a page, with its values and the link to the next page.
pub mod Laws
pub mod Sync
pub mod Processors
pub mod Webhook
mod Tests
use ibdm.Base.{
  ℕ, String, Bool, true, false, not, ◌&&◌, ◌||◌, Option, none, some, List, [], ◌∷◌, Err, message,
  wrap, iterator_done, Result, ok, err, ◌==◌, if◌then◌else◌,
}
use ibdm.Value.{Fields}
use ibdm.Effect.{Effect, ◌>>=◌, ◌>>◌, pure, fail, lift, attempt, wrapping}
use ibdm.Http.{Web, Request, Response, concat, create, send, is_failure}

pub record SourceConfig : Type 0 where
  pub url : String
  pub access_token : String
  pub api_username : String
  pub api_token : String
  pub workspace : String

pub record WebhookConfig : Type 0 where
  pub webhook_secret : String
  pub webhook_path : String

abbrev pub err_missing_env_variable : String
err_missing_env_variable = "missing environment variable"

abbrev pub err_invalid_env_variable : String
err_invalid_env_variable = "invalid environment value"

abbrev pub is_set : String → Bool
is_set s = not (s == "")

unfoldable pub validate : SourceConfig → Option Err
validate c =
    let has_access_token = is_set c.access_token in
    let has_basic_auth = is_set c.api_username || is_set c.api_token in
    if not has_access_token && not has_basic_auth
    then some (wrap err_missing_env_variable (message "one of the credentials must be set"))
    else if has_access_token && has_basic_auth
    then some (wrap err_invalid_env_variable (message "the credentials are mutually exclusive"))
    else if has_basic_auth && (c.api_username == "" || c.api_token == "")
    then some (wrap err_missing_env_variable (message "both must be set for basic auth"))
    else none

-- `parsed` is what github.com/caarlos0/env reads.
unfoldable pub load_source_config_from_env : Result SourceConfig → Result SourceConfig
unfolding validate
load_source_config_from_env (err e) = err e
load_source_config_from_env (ok c) = elim (validate c) [ some e ↦ err e | none ↦ ok c ]

pub record Client : Type 0 where
  pub base_url : String
  pub access_token : String
  pub api_username : String
  pub api_token : String

pub record Source : Type 0 where
  pub workspace : String
  pub webhook_config : WebhookConfig
  pub client : Client

abbrev pub err_bitbucket_source : String
err_bitbucket_source = "bitbucket source"

unfoldable pub new_source : Result SourceConfig → Result WebhookConfig → Result Source
unfolding load_source_config_from_env
new_source parsed parsed_webhook = elim (load_source_config_from_env parsed) [
  | err e ↦ err (wrap err_bitbucket_source e)
  | ok cfg ↦ elim parsed_webhook [
    | err e ↦ err (wrap err_bitbucket_source e)
    | ok wh_cfg ↦ ok (record {
      workspace = cfg.workspace;
      webhook_config = wh_cfg;
      client = record {
        base_url = cfg.url;
        access_token = cfg.access_token;
        api_username = cfg.api_username;
        api_token = cfg.api_token;
      };
    })
  ]
]

pub record PageIterator : Type 0 where
  pub next_url : String
  pub done : Bool

-- What `next` makes of the answer to its request.
unfoldable pub page_answer :
    PageIterator → Result (List Fields × String) → Result (List Fields) × PageIterator
page_answer it (err e) = (err e, record { next_url = it.next_url; done = true })
page_answer it (ok ([], link)) = (err iterator_done, record { next_url = it.next_url; done = true })
page_answer it (ok (item ∷ items, link)) = (
  ok (item ∷ items),
  (if link == ""
      then record { next_url = it.next_url; done = true }
      else record { next_url = link; done = false }),
)

module _ {W : Type 0} (web : Web W) (c : Client) where
  abbrev pub authorization : String
  authorization =
      if is_set c.access_token
      then concat "Bearer " c.access_token
      else web.basic_auth c.api_username c.api_token

  abbrev pub request_for : String → Request
  request_for raw_url = record {
    method = "GET";
    url = raw_url;
    path = "";
    query = [];
    headers = ("Authorization", authorization) ∷ ("Accept", "application/json") ∷ [];
    body = "";
  }

  unfoldable pub do_request : String → Effect W Response
  do_request raw_url = do
    wrapping "failed to create request" (create web (request_for raw_url))
    send web (request_for raw_url)

  abbrev pub repositories_url : String → String
  repositories_url rest = concat c.base_url (concat "/2.0/repositories/" rest)

  abbrev pub list_workspaces : PageIterator
  list_workspaces = record {
    next_url = concat c.base_url "/2.0/user/workspaces?pagelen=100";
    done = false;
  }

  abbrev pub list_repositories : String → PageIterator
  list_repositories slug = record {
    next_url = repositories_url (concat (web.escape slug) "?pagelen=100");
    done = false;
  }

  abbrev pub repository_url : String → String → String
  repository_url slug repo_slug =
      repositories_url (concat (web.escape slug) (concat "/" (web.escape repo_slug)))

  abbrev pub list_pipelines : String → String → PageIterator
  list_pipelines slug repo_slug = record {
    next_url = concat (repository_url slug repo_slug) "/pipelines";
    done = false;
  }

  unfoldable pub get_repository : String → String → Effect W Fields
  unfolding do_request
  get_repository slug repo_slug = do
    resp ← wrapping "failed to fetch repository" (do_request (repository_url slug repo_slug))
    if is_failure resp.status
        then fail (wrap "unexpected status" (message resp.body))
        else wrapping "failed to decode repository response" (lift (web.decode_object resp.body))

  module _ (decode_page : String → Result (List Fields × String)) where
    unfoldable pub get_page : String → Effect W (List Fields × String)
    unfolding do_request
    get_page url = do
      resp ← do_request url
      if is_failure resp.status
          then fail (wrap "unexpected status" (message resp.body))
          else wrapping "failed to decode response" (lift (decode_page resp.body))

    unfoldable pub next : PageIterator → Effect W (Result (List Fields) × PageIterator)
    unfolding get_page page_answer
    next it =
        if it.done
        then pure (err iterator_done, it)
        else (do r ← attempt (get_page it.next_url); pure (page_answer it r))
