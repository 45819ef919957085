-- ===== src/Github/Processors.antt =====
-- internal/source/github/processor*.go: the data that an event of a webhook stands for.
pub mod Laws
use ibdm.Base.{
  String, Bool, true, false, not, Option, none, some, List, [], ◌∷◌, Err, message, wrap, Result, ok,
  err, ◌>>=◌, lookup, is_some, ◌==◌, if◌then◌else◌,
}
use ibdm.Value.{Value, Fields, get_field, object, singleton, as_text, as_object}
use ibdm.Source.{Data, DataOperation, upsert, delete}
use ibdm.Github.{Client, Env, api_version_from_extra, add_languages, concat}
use ibdm.Github.Sync.{repository_type, workflow_run_type}

abbrev pub personal_access_token_request_type : String
personal_access_token_request_type = "personal_access_token_request"

abbrev pub workflow_dispatch_type : String
workflow_dispatch_type = "workflow_dispatch"

abbrev pub action_to_operation : List (String × DataOperation)
action_to_operation =
    ("created", upsert)
    ∷ ("edited", upsert)
    ∷ ("renamed", upsert)
    ∷ ("archived", upsert)
    ∷ ("unarchived", upsert)
    ∷ ("transferred", upsert)
    ∷ ("publicized", upsert)
    ∷ ("privatized", upsert)
    ∷ ("deleted", delete)
    ∷ []

abbrev pub pat_action_to_operation : List (String × DataOperation)
pat_action_to_operation =
    ("approved", upsert) ∷ ("created", upsert) ∷ ("cancelled", delete) ∷ ("denied", delete) ∷ []

abbrev pub workflow_run_action_to_operation : List (String × DataOperation)
workflow_run_action_to_operation =
    ("requested", upsert) ∷ ("in_progress", upsert) ∷ ("completed", upsert) ∷ []

-- Why a payload is refused: the field that is missing or has another type.
abbrev pub missing_or_invalid : String → String → Err
missing_or_invalid key event =
    message
      (concat "missing or invalid " (concat key (concat " field in " (concat event " event"))))

abbrev pub failed_to_unmarshal : String → Err → Err
failed_to_unmarshal event e = wrap (concat "failed to unmarshal " (concat event " event")) e

-- action, ok := payload["action"].(string); !ok || action == ""
abbrev pub read_action : String → Fields → Result String
read_action event payload = elim (as_text (get_field "action" payload)) [
  | none ↦ err (missing_or_invalid "action" event)
  | some action ↦ if action == "" then err (missing_or_invalid "action" event) else ok action
]

abbrev pub read_object : String → String → Fields → Result Fields
read_object key event payload = elim (as_object (get_field key payload)) [
  | none ↦ err (missing_or_invalid key event)
  | some o ↦ ok o
]

abbrev pub require_text : String → String → Fields → Result Fields
require_text key event payload = elim (as_text (get_field key payload)) [
  | none ↦ err (missing_or_invalid key event)
  | some s ↦ ok payload
]

module _ {W : Type 0} (env : Env W) where
  abbrev pub read_payload : String → String → Result Fields
  read_payload event body = elim (env.unmarshal body) [
    | err e ↦ err (failed_to_unmarshal event e)
    | ok payload ↦ ok payload
  ]

  -- `parseRepositoryEvent`, `parsePersonalAccessTokenRequestEvent` and `parseWorkflowRunEvent`
  -- read an action and then the object under the name of the event.
  unfoldable pub parse_action_event : String → String → Result (String × Fields)
  unfolding get_field
  parse_action_event event body = do
    payload ← read_payload event body
    action ← read_action event payload
    o ← read_object event event payload
    ok (action, o)

  unfoldable pub parse_push_event : String → Result Fields
  unfolding get_field
  parse_push_event body = do
    payload ← read_payload "push" body
    read_object "repository" "push" payload

  unfoldable pub parse_workflow_dispatch_event : String → Result Fields
  unfolding get_field
  parse_workflow_dispatch_event body = do
    payload ← read_payload "workflow_dispatch" body
    with_workflow ← require_text "workflow" "workflow_dispatch" payload
    with_ref ← require_text "ref" "workflow_dispatch" payload
    if is_some (get_field "repository" payload)
        then ok payload
        else err (message "missing repository field in workflow_dispatch event")

  -- The languages, when the processor has a client.
  abbrev pub maybe_languages : Option Client → Fields → Fields → W → Fields × W
  maybe_languages none extra repo w = (singleton repository_type (object repo), w)
  maybe_languages (some c) extra repo w =
      add_languages env c repo (api_version_from_extra extra)
        (singleton repository_type (object repo)) w

  abbrev pub repository_data : DataOperation → Fields × W → Result (List Data) × W
  repository_data operation (values, w) = (
    ok (
        record { kind = repository_type; operation = operation; values = values; time = env.now w }
        ∷ []),
    w,
  )

  abbrev pub data_of : String → DataOperation → Fields → W → Result (List Data) × W
  data_of kind operation o w = (
    ok (
        record {
          kind = kind;
          operation = operation;
          values = singleton kind (object o);
          time = env.now w;
        }
        ∷ []),
    w,
  )

  unfoldable pub process_repository_event :
      Option Client → List (String × Fields) → String → W → Result (List Data) × W
  unfolding lookup parse_action_event add_languages api_version_from_extra
  process_repository_event client types_to_stream body w =
      elim (lookup repository_type types_to_stream) [
        | none ↦ (ok [], w)
        | some extra ↦ elim (parse_action_event "repository" body) [
          | err e ↦ (err e, w)
          | ok (action, repo) ↦ elim (lookup action action_to_operation) [
            | none ↦ (ok [], w)
            | some operation ↦ repository_data operation (maybe_languages client extra repo w)
          ]
        ]
      ]

  unfoldable pub process_push_event :
      Option Client → List (String × Fields) → String → W → Result (List Data) × W
  unfolding lookup parse_push_event add_languages api_version_from_extra
  process_push_event client types_to_stream body w = elim (lookup repository_type types_to_stream) [
    | none ↦ (ok [], w)
    | some extra ↦ elim (parse_push_event body) [
      | err e ↦ (err e, w)
      | ok repo ↦ repository_data upsert (maybe_languages client extra repo w)
    ]
  ]

  unfoldable pub process_personal_access_token_request :
      List (String × Fields) → String → W → Result (List Data) × W
  unfolding lookup parse_action_event
  process_personal_access_token_request types_to_stream body w =
      elim (lookup personal_access_token_request_type types_to_stream) [
        | none ↦ (ok [], w)
        | some extra ↦ elim (parse_action_event "personal_access_token_request" body) [
          | err e ↦ (err e, w)
          | ok (action, o) ↦ elim (lookup action pat_action_to_operation) [
            | none ↦ (ok [], w)
            | some operation ↦ data_of personal_access_token_request_type operation o w
          ]
        ]
      ]

  unfoldable pub process_workflow_dispatch :
      List (String × Fields) → String → W → Result (List Data) × W
  unfolding lookup parse_workflow_dispatch_event
  process_workflow_dispatch types_to_stream body w =
      elim (lookup workflow_dispatch_type types_to_stream) [
        | none ↦ (ok [], w)
        | some extra ↦ elim (parse_workflow_dispatch_event body) [
          | err e ↦ (err e, w)
          | ok payload ↦ data_of workflow_dispatch_type upsert payload w
        ]
      ]

  unfoldable pub process_workflow_run : List (String × Fields) → String → W → Result (List Data) × W
  unfolding lookup parse_action_event
  process_workflow_run types_to_stream body w = elim (lookup workflow_run_type types_to_stream) [
    | none ↦ (ok [], w)
    | some extra ↦ elim (parse_action_event "workflow_run" body) [
      | err e ↦ (err e, w)
      | ok (action, o) ↦ elim (lookup action workflow_run_action_to_operation) [
        | none ↦ (ok [], w)
        | some operation ↦ data_of workflow_run_type operation o w
      ]
    ]
  ]

-- The values of the map of `newEventProcessors`.
pub data Processor : Type 0 where
  repository_event push_event personal_access_token_request workflow_dispatch workflow_run :
      Processor

abbrev pub event_processors : List (String × Processor)
event_processors =
    ("repository", repository_event)
    ∷ ("push", push_event)
    ∷ ("personal_access_token_request", personal_access_token_request)
    ∷ ("workflow_dispatch", workflow_dispatch)
    ∷ ("workflow_run", workflow_run)
    ∷ []

unfoldable pub process :
    {W : Type 0}
    → Env W
    → Processor
    → Option Client
    → List (String × Fields)
    → String
    → W
    → Result (List Data) × W
unfolding process_repository_event process_push_event process_personal_access_token_request
    process_workflow_dispatch process_workflow_run
process env repository_event client types body w = process_repository_event env client types body w
process env push_event client types body w = process_push_event env client types body w
process env personal_access_token_request client types body w =
    process_personal_access_token_request env types body w
process env workflow_dispatch client types body w = process_workflow_dispatch env types body w
process env workflow_run client types body w = process_workflow_run env types body w
