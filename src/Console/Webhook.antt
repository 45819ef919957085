-- ===== src/Console/Webhook.antt =====
-- internal/source/console: event.go and the webhook of console.go. `Folding` has strings.ToLower and
-- strings.EqualFold, `split` and `join` are strings.Split and strings.Join for an underscore, and
-- `unix_milli` is time.UnixMilli. `signing` has encoding/hex and SHA-256 of a body and a secret.
pub mod Laws
use ibdm.Base.{
  ℕ, ℤ, suc, ◌+◌, ◌-◌, String, Bool, true, false, ◌&&◌, ◌||◌, not, Option, none, some, List, [],
  ◌∷◌, ◌++◌, Err, message, wrap, Result, ok, err, contains, is_empty, ltb, ◌==◌, starts_with,
  if◌then◌else◌,
}
use ibdm.Value.{Value, Fields, end, field, object, get_field, as_text, as_object}
use ibdm.Source.{Data, DataOperation, upsert, delete}
use ibdm.Effect.{Effect, ◌>>=◌, ◌>>◌, pure, fail, wrapping, attempt, when}
use ibdm.Http.{Web, Signing, emit}
use ibdm.Console.{
  project_resource, configuration_resource, revision_resource, service_resource,
  custom_resource_resource, configuration_chain_types, err_retrieving_assets, WebhookConfig,
  filter_types, panic, or_panic, is_service_valid, is_custom_resource_valid, create_project_data,
  create_revision_data, create_service_data, create_custom_resource_data,
}
use ibdm.Console.Service.{Config, get_project, get_configuration}
use Prim.Native.String.{slice, len}

pub record Folding : Type 0 where
  pub to_lower : String → String
  pub equal_fold : String → String → Bool
  pub split : String → List String
  pub join : List String → String

-- The payload is `none` when it is nil. `resource` is a key of the body as well.
pub record Event : Type 0 where
  pub event_name : String
  pub event_timestamp : ℤ
  pub payload : Option Fields
  pub resource : Option String

abbrev pub err_unmarshaling_event : String
err_unmarshaling_event = "error unmarshaling event"

abbrev pub err_event_chain_processing : String
err_event_chain_processing = "error in event processing chain"

abbrev pub err_signature_mismatch : Err
err_signature_mismatch = message "webhook signature mismatch"

abbrev pub err_webhook_secret_missing : Err
err_webhook_secret_missing = message "webhook secret not configured"

-- strings.HasSuffix
unfoldable pub has_suffix : String → String → Bool
has_suffix s suffix =
    if ltb (len s) (len suffix) then false else slice s (len s - len suffix) (len s) == suffix

-- parts[0 : len(parts)-1]
abbrev pub without_last : List String → List String
without_last [] = []
without_last (part ∷ []) = []
without_last (part ∷ other ∷ parts) = part ∷ without_last (other ∷ parts)

abbrev pub first_part : List String → String
first_part [] = ""
first_part (part ∷ parts) = part

module _ (folding : Folding) where
  unfoldable pub get_resource : Event → String
  get_resource e = elim e.resource [
    | some resource ↦ resource
    | none ↦
        let parts = folding.split e.event_name in
        if is_empty (without_last parts)
        then first_part parts
        else folding.join (without_last parts)
  ]

  unfoldable pub operation : Event → DataOperation
  unfolding has_suffix
  operation e =
      if has_suffix (folding.to_lower e.event_name) "deleted"
        || has_suffix (folding.to_lower e.event_name) "removed"
      then delete
      else upsert

  unfoldable pub is_type_in : Event → List String → Bool
  unfolding get_resource
  is_type_in e [] = false
  is_type_in e (s ∷ types) =
      let rest = is_type_in e types in folding.equal_fold s (get_resource e) || rest

-- The resources of the events for the types that are asked for.
unfoldable pub webhook_types : List (String × Fields) → List String
webhook_types [] = []
webhook_types ((t, _) ∷ types) =
    let rest = webhook_types types in
    if t == project_resource
    then t ∷ rest
    else if t == revision_resource || t == service_resource || t == custom_resource_resource
    then configuration_resource ∷ rest
    else rest

-- signature, _ := strings.CutPrefix(signatureHeader, "sha256=")
abbrev pub cut_prefix : String → String
cut_prefix signature_header =
    if starts_with "sha256=" signature_header
    then slice signature_header 7 (len signature_header)
    else signature_header

unfoldable pub validate_signature : Signing → String → String → String → Bool
validate_signature signing body secret signature_header =
    elim (signing.decode_hex (cut_prefix signature_header)) [
      | none ↦ false
      | some expected_mac ↦ signing.mac secret body == expected_mac
    ]

module _ {W : Type 0} (web : Web W) (c : Config) (folding : Folding) (unix_milli : ℤ → ℕ) where
  -- The loop over the services of a configuration.
  unfoldable pub emit_services : Fields → String → Event → Bool → Bool → Fields → Effect W Unit
  unfolding is_service_valid is_custom_resource_valid create_service_data
      create_custom_resource_data operation
  emit_services project revision_name ev sync_services sync_custom_resources end = pure tt
  emit_services project revision_name ev sync_services sync_custom_resources
        (field _ svc services) =
      do
        svc_map ← or_panic (as_object (some svc))
        service ← (if sync_services then or_panic (is_service_valid svc_map) else pure false)
        when service (
            emit web (
              create_service_data project revision_name svc_map (unix_milli ev.event_timestamp)
                (operation folding ev)))
        custom ←
            (if sync_custom_resources
              then or_panic (is_custom_resource_valid svc_map)
              else pure false)
        when custom (
            emit web (
              create_custom_resource_data project revision_name svc_map
                (unix_milli ev.event_timestamp) (operation folding ev)))
        emit_services project revision_name ev sync_services sync_custom_resources services

  unfoldable pub process_configuration_services :
      Fields → String → String → Event → List String → Effect W Unit
  unfolding get_field get_configuration emit_services
  process_configuration_services project project_id revision_name ev types =
      if not (contains types service_resource) && not (contains types custom_resource_resource)
      then pure tt
      else (do
        default_branch ← or_panic (as_text (get_field "defaultBranch" project))
        if not (revision_name == default_branch) then pure tt else (do
          configuration ←
              wrapping err_retrieving_assets (get_configuration web c project_id revision_name)
          services ← or_panic (as_object (get_field "services" configuration))
          emit_services project revision_name ev (contains types service_resource)
              (contains types custom_resource_resource) services))

  -- for _, t := range types
  unfoldable pub emit_types : Fields → String → Event → List String → Effect W Unit
  unfolding create_revision_data operation
  emit_types project revision_name ev [] = pure tt
  emit_types project revision_name ev (t ∷ types) = do
    (if t == project_resource
        then emit web
            (create_project_data project (unix_milli ev.event_timestamp) (operation folding ev))
        else when (t == revision_resource) (
            emit web (
              create_revision_data project revision_name (unix_milli ev.event_timestamp)
                (operation folding ev))))
    emit_types project revision_name ev types

  unfoldable pub configuration_event_chain : Event → List String → Effect W Unit
  unfolding get_field get_project emit_types process_configuration_services
  configuration_event_chain ev types = elim ev.payload [
    | none ↦ fail (message "configuration event payload is nil")
    | some payload ↦ elim (as_text (get_field "projectId" payload)) [
      | none ↦ fail (message "configuration event payload missing projectId")
      | some project_id ↦ elim (as_text (get_field "revisionName" payload)) [
        | none ↦ fail (message "configuration event payload missing revisionName")
        | some revision_name ↦ do
          project ← wrapping err_retrieving_assets (get_project web c project_id)
          emit_types project revision_name ev types
          process_configuration_services project project_id revision_name ev types
      ]
    ]
  ]

  -- A nil payload is sent as it is.
  abbrev pub payload_fields : Option Fields → Fields
  payload_fields none = end
  payload_fields (some m) = m

  unfoldable pub handle_event : Event → List (String × Fields) → Effect W Unit
  unfolding get_resource operation filter_types configuration_event_chain
  handle_event ev types =
      if get_resource folding ev == configuration_resource
      then wrapping err_event_chain_processing
          (configuration_event_chain ev (filter_types configuration_chain_types types))
      else emit web (record {
        kind = get_resource folding ev;
        operation = operation folding ev;
        values = payload_fields ev.payload;
        time = unix_milli ev.event_timestamp;
      })

  module _ (signing : Signing) (config : WebhookConfig) (decode_event : String → Result Event)
      (types_to_stream : List (String × Fields)) where
    -- What the handler starts; an error is only logged.
    abbrev pub dispatch : Event → Effect W Unit
    dispatch ev = attempt (handle_event ev types_to_stream) >> pure tt

    -- The error of the handler and what is left to run after it.
    unfoldable pub handler : (String → String) → String → Option Err × Effect W Unit
    unfolding validate_signature webhook_types is_type_in handle_event
    handler headers body =
        if not (validate_signature signing body config.webhook_secret (headers "X-Mia-Signature"))
        then (some err_signature_mismatch, pure tt)
        else elim (decode_event body) [
          | err e ↦ (some (wrap err_unmarshaling_event e), pure tt)
          | ok ev ↦
              if not (is_type_in folding ev (webhook_types types_to_stream))
              then (none, pure tt)
              else (none, dispatch ev)
        ]

    pub record Webhook : Type 0 where
      pub method : String
      pub path : String
      pub handle : (String → String) → String → Option Err × Effect W Unit

    unfoldable pub get_webhook : Result Webhook
    unfolding handler
    get_webhook =
        if config.webhook_secret == ""
        then err err_webhook_secret_missing
        else ok (record { method = "POST"; path = config.webhook_path; handle = handler })
