-- ===== src/Github.antt =====
-- internal/source/github: the client of the GitHub API and the configuration of the source. What
-- net/http, net/url, encoding/json and the clock do is the record `Env`, over a world `W`; a decoder
-- gets the whole body, and a nil error is `none`.
pub mod Laws
pub mod Iterator
pub mod Sync
pub mod Processors
pub mod Webhook
mod Tests
use ibdm.Base.{
  ℕ, ℤ, pos, negsuc, ◌+◌, ◌<◌, String, Bool, true, false, ◌&&◌, ◌||◌, Option, none, some, List, [],
  ◌∷◌, Err, message, wrap, Result, ok, err, ltb, ◌==◌, eqb, if◌then◌else◌, map,
}
use ibdm.Value.{
  Value, Items, Fields, end, get_field, put_field, float64, object, text, as_text, text_or_empty,
}
use ibdm.Source.{Data}

abbrev pub concat : String → String → String
concat a b = Prim.Native.String.◌++◌ a b

-- internal/source/github/config.go
pub record Config : Type 0 where
  pub url : String
  pub token : String
  pub org : String
  pub page_size : ℤ
  pub webhook_secret : String
  pub webhook_path : String

abbrev pub missing_env_variable : String
missing_env_variable = "missing environment variable"

abbrev pub invalid_env_variable : String
invalid_env_variable = "invalid environment value"

-- c.PageSize < 1 || c.PageSize > githubMaxPageSize
abbrev pub is_outside_pages : ℤ → Bool
is_outside_pages (negsuc n) = true
is_outside_pages (pos n) = ltb n 1 || ltb 100 n

unfoldable pub validate : Config → Option Err
validate c =
    if c.token == ""
    then some (wrap missing_env_variable (message "GITHUB_TOKEN"))
    else if c.org == ""
    then some (wrap missing_env_variable (message "GITHUB_ORG"))
    else if is_outside_pages c.page_size
    then some (wrap invalid_env_variable (message "GITHUB_PAGE_SIZE must be between 1 and 100"))
    else none

-- `parsed` is what github.com/caarlos0/env reads.
unfoldable pub load_config_from_env : Result Config → Result Config
unfolding validate
load_config_from_env (err e) = err e
load_config_from_env (ok c) = elim (validate c) [ some e ↦ err e | none ↦ ok c ]

pub record Client : Type 0 where
  pub base_url : String
  pub org : String
  pub token : String
  pub page_size : ℤ

unfoldable pub new_source : Result Config → Result (Config × Client)
unfolding load_config_from_env
new_source parsed = elim (load_config_from_env parsed) [
  | err e ↦ err (wrap "github source" e)
  | ok cfg ↦ ok (
    cfg,
    record { base_url = cfg.url; org = cfg.org; token = cfg.token; page_size = cfg.page_size },
  )
]

-- The two numbers are the query parameters `per_page` and `page` that are added to the URL.
pub record Request : Type 0 where
  pub url : String
  pub per_page : ℤ
  pub page : ℕ
  pub headers : List (String × String)

pub record Response : Type 0 where
  pub status : ℕ
  pub header : String → String
  pub body : String

pub record Env (W : Type 0) : Type 0 where
  -- url.Parse and http.NewRequestWithContext, by their errors
  pub parse_url : String → Option Err
  pub new_request : Request → Option Err
  -- http.Client.Do
  pub send_request : Request → W → Result Response × W
  -- url.PathEscape
  pub escape : String → String
  -- ctx.Err()
  pub ctx_err : W → Option Err
  -- time.Now
  pub now : W → ℕ
  -- results <- data
  pub results : Data → W → W
  -- json decoders for []map[string]any, map[string]json.RawMessage, map[string]float64 and
  -- map[string]any
  pub decode_items : String → Result (List Fields)
  pub decode_wrapper : String → Result (List (String × String))
  pub decode_languages : String → Result (List (String × ℕ))
  pub unmarshal : String → Result Fields
  -- IEEE 754 on the bits of a float64: 0, the sum, == 0, and math.Round(b/total*10000) / 100
  pub zero_float : ℕ
  pub add_float : ℕ → ℕ → ℕ
  pub is_zero_float : ℕ → Bool
  pub percent : ℕ → ℕ → ℕ

-- The request that `doRequest` builds.
abbrev pub request_for : Client → String → String → ℕ → Request
request_for c path api_version page = record {
  url = concat c.base_url path;
  per_page = c.page_size;
  page = page;
  headers =
      ("Authorization", concat "Bearer " c.token)
      ∷ ("Accept", "application/vnd.github+json")
      ∷ ("X-GitHub-Api-Version", api_version)
      ∷ ("User-Agent", "ibdm-github-source")
      ∷ [];
}

unfoldable pub do_request :
    {W : Type 0} → Env W → Client → String → String → ℕ → W → Result Response × W
do_request env c path api_version page w = elim (env.parse_url (concat c.base_url path)) [
  | some e ↦ (err (wrap "failed to build request URL" e), w)
  | none ↦
      let req = request_for c path api_version page in
      elim (env.new_request req) [ some e ↦ (err e, w) | none ↦ env.send_request req w ]
]

-- resp.StatusCode < 200 || resp.StatusCode >= 300
abbrev pub is_failure : ℕ → Bool
is_failure status = ltb status 200 || ltb 299 status

abbrev pub total_bytes : {W : Type 0} → Env W → ℕ → List (String × ℕ) → ℕ
total_bytes env total [] = total
total_bytes env total ((lang, b) ∷ raw) = total_bytes env (env.add_float total b) raw

abbrev pub percentages : {W : Type 0} → Env W → ℕ → List (String × ℕ) → Fields
percentages env total [] = end
percentages env total ((lang, b) ∷ raw) =
    put_field lang (float64 (env.percent b total)) (percentages env total raw)

-- The order of the sum is the order in which the map is read.
unfoldable pub compute_language_percentages : {W : Type 0} → Env W → List (String × ℕ) → Fields
unfolding put_field
compute_language_percentages env raw =
    let total = total_bytes env env.zero_float raw in
    if env.is_zero_float total then end else percentages env total raw

abbrev pub languages_path : String → String
languages_path full_name = concat "/repos/" (concat full_name "/languages")

unfoldable pub get_repository_languages :
    {W : Type 0} → Env W → Client → String → String → W → Result Fields × W
unfolding do_request compute_language_percentages
get_repository_languages env c full_name api_version w =
    let (r, w') = do_request env c (languages_path full_name) api_version 1 w in
    (
      elim r [
        | err e ↦ err (wrap "failed to fetch repository languages" e)
        | ok resp ↦
            if is_failure resp.status
            then err (message "unexpected status code fetching repository languages")
            else elim (env.decode_languages resp.body) [
              | err e ↦ err (wrap "failed to decode repository languages response" e)
              | ok raw ↦ ok (compute_language_percentages env raw)
            ]
      ],
      w',
    )

-- The text under extra["apiVersion"] or the default.
unfoldable pub api_version_from_extra : Fields → String
unfolding get_field
api_version_from_extra extra = elim (as_text (get_field "apiVersion" extra)) [
  | none ↦ "2026-03-10"
  | some s ↦ if s == "" then "2026-03-10" else s
]

-- The languages of a repository, when it has a name and they can be fetched.
unfoldable pub add_languages :
    {W : Type 0} → Env W → Client → Fields → (api_version : String) → Fields → W → Fields × W
unfolding get_repository_languages
add_languages env c repo api_version values w =
    let full_name = text_or_empty (get_field "full_name" repo) in
    if full_name == ""
    then (values, w)
    else (let (r, w') = get_repository_languages env c full_name api_version w in
        (
          elim r [
            | ok langs ↦ put_field "repositoryLanguages" (object langs) values
            | err e ↦ values
          ],
          w',
        ))
