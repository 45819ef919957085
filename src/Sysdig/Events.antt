-- ===== src/Sysdig/Events.antt =====
-- internal/source/sysdig: vulnerabilityclient.go, processor.go, processor_vulnerabilityevent.go and
-- webhook.go. The decoders are json.Unmarshal for the structures of the code: the envelope of an event
-- gives its identifier and its name.
pub mod Laws
use ibdm.Base.{
  ℕ, ℤ, suc, ◌+◌, String, Bool, true, false, not, Option, none, some, List, [], ◌∷◌, ◌++◌, Err,
  message, wrap, Result, ok, err, lookup, is_some, ltb, ◌==◌, if◌then◌else◌,
}
use ibdm.Value.{
  Value, Fields, float64, text, object, end, field, get_field, as_object, text_or_empty,
}
use ibdm.Source.{Data, upsert, wants}
use ibdm.Effect.{Effect, ◌>>=◌, ◌>>◌, pure, fail, lift, wrapping}
use ibdm.Http.{Web, Request, Response, concat, create, send, deliver, is_failure}
use ibdm.Sysdig.{WebhookConfig, vulnerability_type, err_sysdig_source, err_missing_env_variable}
use Prim.Native.String.{find, slice, len}

pub record VulnerabilityClient : Type 0 where
  pub base_url : String
  pub bearer_token : String

-- `packages` has the vulnerabilities of each package.
pub record ResultData : Type 0 where
  pub kind : String
  pub pull_string : String
  pub packages : List (List Fields)
  pub policy_evaluations_result : String

-- A score is kept by its bits, of which 0 are those of the number 0.
pub record VulnerabilityData : Type 0 where
  pub name : String
  pub severity : String
  pub cvss_score : ℕ
  pub cvss_source : String
  pub cvss_vector : String
  pub cvss_version : String
  pub publication_date : String
  pub solution_date : String
  pub exploitable : Bool
  pub fixed_in_version : String

-- `timestamp` is in microseconds.
pub record WebhookPayload : Type 0 where
  pub url : String
  pub timestamp : ℤ

-- v, _ := x.(bool)
abbrev pub bool_or_false : Option Value → Bool
bool_or_false (some (Value.bool b)) = b
bool_or_false _ = false

abbrev pub float_or_zero : Option Value → ℕ
float_or_zero (some (float64 bits)) = bits
float_or_zero _ = 0

-- The fields of an object that may not be there: none of them then.
abbrev pub or_empty : Option Fields → Fields
or_empty none = end
or_empty (some m) = m

unfoldable pub map_vulnerability : Fields → VulnerabilityData
unfolding get_field
map_vulnerability raw =
    let severity = or_empty (as_object (get_field "severity" raw)) in
    let cvss = or_empty (as_object (get_field "cvssScore" raw)) in
    let val = or_empty (as_object (get_field "value" cvss)) in
    record {
      name = text_or_empty (get_field "name" raw);
      severity = text_or_empty (get_field "value" severity);
      cvss_score = float_or_zero (get_field "score" val);
      cvss_source = text_or_empty (get_field "sourceName" cvss);
      cvss_vector = text_or_empty (get_field "vector" val);
      cvss_version = text_or_empty (get_field "version" val);
      publication_date = text_or_empty (get_field "publicationDate" raw);
      solution_date = text_or_empty (get_field "solutionDate" raw);
      exploitable = bool_or_false (get_field "exploitable" raw);
      fixed_in_version = text_or_empty (get_field "fixedInVersion" raw);
    }

unfoldable pub to_values : VulnerabilityData → Fields
to_values vd = field "name" (text vd.name) (
    field "severity" (text vd.severity) (
      field "cvssScore" (float64 vd.cvss_score) (
        field "cvssSource" (text vd.cvss_source) (
          field "cvssVector" (text vd.cvss_vector) (
            field "cvssVersion" (text vd.cvss_version) (
              field "publicationDate" (text vd.publication_date) (
                field "solutionDate" (text vd.solution_date) (
                  field "exploitable" (Value.bool vd.exploitable)
                    (field "fixedInVersion" (text vd.fixed_in_version) end)))))))))

-- The text after the first occurrence of `t`, and the text before it.
unfoldable pub after : String → String → Option String
after s t = if ltb (len s) (find s t) then none else some (slice s (find s t + len t) (len s))

unfoldable pub before : String → String → Option String
before s t = if ltb (len s) (find s t) then none else some (slice s 0 (find s t))

unfoldable pub extract_result_id : String → Result String
unfolding after before
extract_result_id event_url = elim (after event_url "results/") [
  | none ↦ err (message "result ID not found in URL: missing 'results/' segment")
  | some remaining ↦ elim (before remaining "/overview") [
    | none ↦ err (message "result ID not found in URL: missing '/overview' segment")
    | some result_id ↦
        if result_id == "" then err (message "empty result ID in URL") else ok result_id
  ]
]

abbrev pub vulnerability_data : String → ℕ → Fields → Data
vulnerability_data pull_string event_timestamp vuln = record {
  kind = vulnerability_type;
  operation = upsert;
  values =
      field "vuln" (object (to_values (map_vulnerability vuln)))
        (field "img" (object (field "imageReference" (text pull_string) end)) end);
  time = event_timestamp;
}

unfoldable pub package_data : String → ℕ → List Fields → List Data
unfolding to_values map_vulnerability
package_data pull_string event_timestamp [] = []
package_data pull_string event_timestamp (vuln ∷ vulns) =
    vulnerability_data pull_string event_timestamp vuln
    ∷ package_data pull_string event_timestamp vulns

unfoldable pub packages_data : String → ℕ → List (List Fields) → List Data
unfolding package_data
packages_data pull_string event_timestamp [] = []
packages_data pull_string event_timestamp (vulns ∷ packages) =
    package_data pull_string event_timestamp vulns
    ++ packages_data pull_string event_timestamp packages

-- The values of the map `eventProcessors`.
pub data EventProcessor : Type 0 where
  vulnerability_event_processor : EventProcessor

abbrev pub event_processors : List (String × EventProcessor)
event_processors = ("Pipeline Failure Alerts", vulnerability_event_processor) ∷ []

module _ (decode_envelope : String → Result (String × String)) where
  -- The identifier of the event, or its name if only that has a processor.
  unfoldable pub resolve_event_type : String → Result String
  unfolding lookup
  resolve_event_type body = elim (decode_envelope body) [
    | err e ↦ err (wrap "failed to parse webhook body" e)
    | ok (id, name) ↦
        if is_some (lookup id event_processors)
        then ok id
        else if is_some (lookup name event_processors)
        then ok name
        else ok id
  ]

module _ {W : Type 0} (web : Web W) (vc : VulnerabilityClient)
    (decode_result : String → Result ResultData) where
  abbrev pub result_request : String → Request
  result_request result_id = record {
    method = "GET";
    url =
        concat vc.base_url (concat "/secure/vulnerability/v1beta1/results/" (web.escape result_id));
    path = "";
    query = [];
    headers =
        ("Authorization", concat "Bearer " vc.bearer_token) ∷ ("Accept", "application/json") ∷ [];
    body = "";
  }

  unfoldable pub get_result : String → Effect W ResultData
  get_result result_id = do
    wrapping "creating result request" (create web (result_request result_id))
    resp ← wrapping "executing result request" (send web (result_request result_id))
    if is_failure resp.status
        then fail (wrap "result API returned status" (message resp.body))
        else wrapping "decoding result response" (lift (decode_result resp.body))

  module _ (decode_payload : String → Result WebhookPayload) (unix_micro : ℤ → ℕ) where
    unfoldable pub process_vulnerability_event :
        List (String × Fields) → String → Effect W (List Data)
    unfolding lookup extract_result_id get_result packages_data
    process_vulnerability_event types_to_stream body =
        if wants vulnerability_type types_to_stream
        then (do
          payload ← wrapping "failed to parse webhook body" (lift (decode_payload body))
          result_id ← lift (extract_result_id payload.url)
          result ← get_result result_id
          if not (result.kind == "dockerImage")
              then pure []
              else if not (result.policy_evaluations_result == "failed")
              then pure []
              else pure
                  (packages_data result.pull_string (unix_micro payload.timestamp) result.packages))
        else pure []

    unfoldable pub process : EventProcessor → List (String × Fields) → String → Effect W (List Data)
    unfolding process_vulnerability_event
    process vulnerability_event_processor types_to_stream body =
        process_vulnerability_event types_to_stream body

    module _ (decode_envelope : String → Result (String × String))
        (types_to_stream : List (String × Fields)) where
      -- The error of the handler and what is left to run after it.
      unfoldable pub handler : (String → String) → String → Option Err × Effect W Unit
      unfolding lookup resolve_event_type process
      handler headers body = elim (resolve_event_type decode_envelope body) [
        | err e ↦ (some (wrap err_sysdig_source e), pure tt)
        | ok event_type ↦ elim (lookup event_type event_processors) [
          | none ↦ (none, pure tt)
          | some processor ↦ (none, deliver web (process processor types_to_stream body))
        ]
      ]

      pub record Webhook : Type 0 where
        pub method : String
        pub path : String
        pub handle : (String → String) → String → Option Err × Effect W Unit

      unfoldable pub get_webhook : WebhookConfig → Result Webhook
      unfolding handler
      get_webhook config =
          if config.base_url == ""
          then err
              (wrap err_sysdig_source (wrap err_missing_env_variable (message "SYSDIG_BASE_URL")))
          else if config.bearer_token == ""
          then err (
              wrap err_sysdig_source
                (wrap err_missing_env_variable (message "SYSDIG_BEARER_TOKEN")))
          else ok (record { method = "POST"; path = config.webhook_path; handle = handler })
