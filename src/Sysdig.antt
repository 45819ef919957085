-- ===== src/Sysdig.antt =====
-- internal/source/sysdig: config.go, client.go and sysdig.go. `marshal_query` is json.Marshal for a
-- query and `decode_items` the decoder for its answer, with the items and the number of those fetched.
-- The loop over pages has no bound in the code; here it runs on fuel. `select_done` is the case of a
-- `select` between the context and the channel: the error of the context, if that case is taken.
pub mod Laws
pub mod Events
mod Tests
use ibdm.Base.{
  ℕ, ℤ, pos, negsuc, zero, suc, ◌+ℤ◌, String, Bool, true, false, ◌||◌, Option, none, some, List, [],
  ◌∷◌, Err, message, wrap, is_canceled, is_deadline_exceeded, Result, ok, err, lookup, ltb, ◌==◌,
  if◌then◌else◌,
}
use ibdm.Value.{Fields}
use ibdm.Source.{Data, upsert}
use ibdm.Effect.{Effect, ◌>>=◌, ◌>>◌, pure, fail, lift, check, out_of_fuel, attempt, wrapping, each}
use ibdm.Http.{
  Web, Request, Response, concat, create, send, emit, clock, context_error, unless_done, is_failure,
  itoa,
}

pub record Config : Type 0 where
  pub url : String
  pub api_token : String
  pub page_size : ℤ

pub record WebhookConfig : Type 0 where
  pub webhook_path : String
  pub base_url : String
  pub bearer_token : String

abbrev pub err_missing_env_variable : String
err_missing_env_variable = "missing environment variable"

abbrev pub err_invalid_env_variable : String
err_invalid_env_variable = "invalid environment value"

-- c.PageSize < 1 || c.PageSize > sysdigMaxPageSize
abbrev pub is_outside_page_size : ℤ → Bool
is_outside_page_size (negsuc n) = true
is_outside_page_size (pos n) = ltb n 1 || ltb 1000 n

unfoldable pub validate : Config → Option Err
validate c =
    if c.url == ""
    then some (wrap err_missing_env_variable (message "SYSDIG_URL"))
    else if c.api_token == ""
    then some (wrap err_missing_env_variable (message "SYSDIG_API_TOKEN"))
    else if is_outside_page_size c.page_size
    then some
        (wrap err_invalid_env_variable (message "SYSDIG_PAGE_SIZE must be between 1 and 1000"))
    else none

-- `parsed` is what github.com/caarlos0/env reads.
unfoldable pub load_config_from_env : Result Config → Result Config
unfolding validate
load_config_from_env (err e) = err e
load_config_from_env (ok c) = elim (validate c) [ some e ↦ err e | none ↦ ok c ]

abbrev pub err_sysdig_source : String
err_sysdig_source = "sysdig source"

unfoldable pub new_source : Result Config → Result WebhookConfig → Result (Config × WebhookConfig)
unfolding load_config_from_env
new_source parsed parsed_webhook = elim (load_config_from_env parsed) [
  | err e ↦ err (wrap err_sysdig_source e)
  | ok cfg ↦ elim parsed_webhook [
    | err e ↦ err (wrap err_sysdig_source e)
    | ok wh_cfg ↦ ok (cfg, wh_cfg)
  ]
]

abbrev pub vulnerability_type : String
vulnerability_type = "vulnerability"

abbrev pub sysql_vulnerability_query : String
sysql_vulnerability_query = "MATCH Image AS img AFFECTED_BY Vulnerability AS vuln RETURN img, vuln"

abbrev pub known_types : List (String × String)
known_types = (vulnerability_type, sysql_vulnerability_query) ∷ []

-- fmt.Sprintf("%s LIMIT %d OFFSET %d;", query, pageSize, offset)
unfoldable pub paginated : String → ℤ → ℤ → String
unfolding itoa
paginated query page_size offset =
    concat query
      (concat " LIMIT " (concat (itoa page_size) (concat " OFFSET " (concat (itoa offset) ";"))))

-- resp.Summary.FetchedItemsCount == 0
abbrev pub is_zero : ℤ → Bool
is_zero (pos zero) = true
is_zero (pos (suc _)) = false
is_zero (negsuc _) = false

module _ {W : Type 0} (web : Web W) (marshal_query : String → Result String)
    (decode_items : String → Result (List Fields × ℤ)) (c : Config) where
  abbrev pub sysql_request : String → Request
  sysql_request body = record {
    method = "POST";
    url = concat c.url "/api/sysql/v2/query";
    path = "";
    query = [];
    headers =
        ("Content-Type", "application/json") ∷ ("Authorization", concat "Bearer " c.api_token) ∷ [];
    body = body;
  }

  unfoldable pub execute_sysql_query : String → Effect W (List Fields × ℤ)
  execute_sysql_query query = do
    body ← wrapping "marshaling SysQL request" (lift (marshal_query query))
    wrapping "creating SysQL request" (create web (sysql_request body))
    resp ← wrapping "executing SysQL request" (send web (sysql_request body))
    if is_failure resp.status
        then fail (wrap "SysQL API returned status" (message resp.body))
        else wrapping "decoding SysQL response" (lift (decode_items resp.body))

  unfoldable pub query_all_pages : String → (List Fields → Effect W Unit) → ℕ → ℤ → Effect W Unit
  unfolding execute_sysql_query paginated
  query_all_pages query handle_page zero offset = out_of_fuel
  query_all_pages query handle_page (suc fuel) offset = do
    done ← context_error web
    check done
    (items, fetched) ← execute_sysql_query (paginated query c.page_size offset)
    elim (is_zero fetched) [
      | true ↦ pure tt
      | false ↦ do handle_page items; query_all_pages query handle_page fuel (offset +ℤ fetched)
    ]

  module _ (select_done : W → Option Err) where
    abbrev pub selected : Effect W (Option Err)
    selected w = some (ok (select_done w), w)

    unfoldable pub send_item : String → Fields → Effect W Unit
    send_item data_type item = do
      time ← clock web
      done ← selected
      check done
      emit web (record { kind = data_type; operation = upsert; values = item; time = time })

    unfoldable pub sync_type : ℕ → String → String → Effect W Unit
    unfolding query_all_pages send_item
    sync_type fuel data_type query =
        query_all_pages query (λ items. each (send_item data_type) items) fuel (pos 0)

    -- for dataType := range typesToSync
    unfoldable pub sync_types : ℕ → List (String × Fields) → Effect W Unit
    unfolding lookup sync_type is_canceled is_deadline_exceeded
    sync_types fuel [] = pure tt
    sync_types fuel ((data_type, extra) ∷ types) =
        let others = sync_types fuel types in
        unless_done web (elim (lookup data_type known_types) [
          | none ↦ others
          | some query ↦ do
            r ← attempt (sync_type fuel data_type query)
            elim r [
              | ok _ ↦ others
              | err e ↦ if is_canceled e || is_deadline_exceeded e then pure tt else others
            ]
        ])

    -- `locked` is whether another process holds the lock of the source.
    unfoldable pub start_sync_process : Bool → List (String × Fields) → ℕ → Effect W Unit
    unfolding sync_types
    start_sync_process locked types fuel = if locked then pure tt else sync_types fuel types
