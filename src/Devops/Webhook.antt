-- ===== src/Devops/Webhook.antt =====
-- internal/source/azure-devops/devops.go: the webhook.
pub mod Laws
pub mod Stream
use ibdm.Base.{
  ℕ, zero, suc, ◌+◌, ◌-◌, String, Bool, true, false, ◌&&◌, ◌||◌, not, Option, none, some, List, [],
  ◌∷◌, Err, message, wrap, is_canceled, Result, ok, err, ltb, ◌==◌, if◌then◌else◌,
}
use ibdm.Value.{Value, Fields, get_field, as_text, as_object, as_slice}
use ibdm.Source.{Data, DataOperation, upsert, delete}
use ibdm.Effect.{Effect, ◌>>=◌, ◌>>◌, pure, fail, lift, check, attempt, each, out_of_fuel}
use ibdm.Http.{Web, Request, Response, concat, create, send, emit, clock}
use ibdm.Devops.{
  Config, err_devops_source, err_no_authentication_header_found,
  err_multiple_authentication_headers_found, err_invalid_authentication_type, err_unauthorized,
  err_invalid_webhook_payload, validate_for_webhook, handle_err, git_repository_type,
}
use Prim.Native.String.{slice, len}

-- strings.Fields and strings.EqualFold, base64 and SHA-256, and time.Parse for time.RFC3339Nano.
pub record Texts : Type 0 where
  pub fields : String → List String
  pub equal_fold : String → String → Bool
  pub encode : String → String
  pub sha256 : String → String
  pub parse_nano : String → Option ℕ

-- The last argument has the values of the header, if it is there: the first one and the others.
unfoldable pub webhook_validation : Texts → Config → Option (String × List String) → Option Err
webhook_validation texts c none =
    if c.webhook_user == "" && c.webhook_password == ""
    then none
    else some (wrap err_no_authentication_header_found err_unauthorized)
webhook_validation texts c (some (header, _ ∷ _)) =
    some (wrap err_multiple_authentication_headers_found err_unauthorized)
webhook_validation texts c (some (header, [])) = elim (texts.fields header) [
  | [] ↦ some (wrap err_invalid_authentication_type err_unauthorized)
  | scheme ∷ others ↦ elim others [
    | [] ↦ some (wrap err_invalid_authentication_type err_unauthorized)
    | token ∷ more ↦ elim more [
      | _ ∷ _ ↦ some (wrap err_invalid_authentication_type err_unauthorized)
      | [] ↦
          if not (texts.equal_fold scheme "basic")
          then some (wrap err_invalid_authentication_type err_unauthorized)
          else if texts.sha256
                (texts.encode (concat c.webhook_user (concat ":" c.webhook_password)))
              == texts.sha256 token
          then none
          else some err_unauthorized
    ]
  ]
]

-- strings.HasSuffix
unfoldable pub has_suffix : String → String → Bool
has_suffix s suffix =
    if ltb (len s) (len suffix) then false else slice s (len s - len suffix) (len s) == suffix

-- The time of the resource, or else the clock's.
unfoldable pub operation_time : (String → Option ℕ) → ℕ → Fields → ℕ
unfolding get_field
operation_time parse_nano now resource = elim (as_text (get_field "utcTimestamp" resource)) [
  | none ↦ now
  | some time_stamp ↦ elim (parse_nano time_stamp) [ none ↦ now | some parsed_time ↦ parsed_time ]
]

unfoldable pub extract_data_from_payload :
    (String → Option ℕ) → ℕ → Fields → Result (String × Fields × ℕ)
unfolding get_field operation_time
extract_data_from_payload parse_nano now payload = elim (get_field "eventType" payload) [
  | none ↦ err (wrap err_invalid_webhook_payload (message "missing eventType"))
  | some event_type ↦ elim (as_object (get_field "resource" payload)) [
    | none ↦ err (wrap err_invalid_webhook_payload (message "invalid resource field"))
    | some resource ↦ elim (as_text (some event_type)) [
      | none ↦ err (wrap err_invalid_webhook_payload (message "eventType is not a string"))
      | some event_type_str ↦ ok (event_type_str, resource, operation_time parse_nano now resource)
    ]
  ]
]

-- Whether an event is one of a list.
unfoldable pub names_event : Texts → String → List Value → Bool
names_event texts event_type [] = false
names_event texts event_type (event ∷ events) =
    let rest = names_event texts event_type events in
    elim (as_text (some event)) [
      | none ↦ rest
      | some event_str ↦ texts.equal_fold event_type event_str || rest
    ]

unfoldable pub resource_for : Texts → String → Fields → Fields
unfolding get_field
resource_for texts type_string resource =
    if texts.equal_fold type_string git_repository_type
    then elim (as_object (get_field "repository" resource)) [ none ↦ resource | some repo ↦ repo ]
    else resource

abbrev pub event_data : Texts → String → String → Fields → ℕ → Data
event_data texts type_string event_type resource time = record {
  kind = type_string;
  operation = if has_suffix event_type ".deleted" then delete else upsert;
  values = resource_for texts type_string resource;
  time = time;
}

module _ {W : Type 0} (web : Web W) (texts : Texts) where
  -- for typeString, extra := range typesToStream: the first type that names the event is sent.
  unfoldable pub stream_event : String → Fields → ℕ → List (String × Fields) → Effect W Unit
  unfolding get_field names_event resource_for has_suffix
  stream_event event_type resource time [] = pure tt
  stream_event event_type resource time ((type_string, extra) ∷ types) =
      let rest = stream_event event_type resource time types in
      if names_event texts event_type (as_slice (get_field "eventNames" extra))
      then emit web (event_data texts type_string event_type resource time)
      else rest

  -- The goroutine that the handler starts; its errors are only logged.
  unfoldable pub dispatch : List (String × Fields) → String → Effect W Unit
  unfolding extract_data_from_payload stream_event
  dispatch types_to_stream body = elim (web.decode_object body) [
    | err e ↦ pure tt
    | ok payload ↦ do
      now ← clock web
      elim (extract_data_from_payload texts.parse_nano now payload) [
        | err e ↦ pure tt
        | ok (event_type, resource, time) ↦ stream_event event_type resource time types_to_stream
      ]
  ]

  -- The error of the handler and what is left to run after it.
  unfoldable pub webhook_handler :
      Config
      → List (String × Fields)
      → Option (String × List String)
      → String
      → Option Err × Effect W Unit
  unfolding webhook_validation handle_err dispatch
  webhook_handler c types_to_stream auth_header body =
      elim (webhook_validation texts c auth_header) [
        | some e ↦ (handle_err (some e), pure tt)
        | none ↦ (none, dispatch types_to_stream body)
      ]

  pub record Webhook : Type 0 where
    pub method : String
    pub path : String
    pub handle : Option (String × List String) → String → Option Err × Effect W Unit

  unfoldable pub get_webhook : Config → List (String × Fields) → Result Webhook
  unfolding validate_for_webhook handle_err webhook_handler
  get_webhook c types_to_stream = elim (validate_for_webhook c) [
    | some e ↦ err (wrap err_devops_source e)
    | none ↦ ok (record {
      method = "POST";
      path = c.webhook_path;
      handle = webhook_handler c types_to_stream;
    })
  ]
