-- ===== src/Nexus/Processors.antt =====
-- internal/source/nexus: processor.go and processor_componentevent.go. `decode_payload` is
-- json.Unmarshal for the payload of an event.
pub mod Laws
use ibdm.Base.{
  ℕ, String, Bool, true, false, Option, none, some, List, [], ◌∷◌, Err, message, Result, ok, err,
  lookup, is_empty, ◌||◌, ◌==◌, if◌then◌else◌,
}
use ibdm.Value.{Fields, text, end, field}
use ibdm.Source.{Data, upsert, delete, wants}
use ibdm.Effect.{Effect, ◌>>=◌, pure, fail, lift, wrapping}
use ibdm.Http.{Web}
use ibdm.Nexus.{Client, get_component}
use ibdm.Nexus.Sync.{docker_image_type, assets_of, component_wrapper}

pub record WebhookComponentPayload : Type 0 where
  pub id : String
  pub component_id : String
  pub format : String
  pub name : String
  pub group : String
  pub version : String

pub record ComponentWebhookPayload : Type 0 where
  pub timestamp : String
  pub node_id : String
  pub initiator : String
  pub repository_name : String
  pub action : String
  pub component : WebhookComponentPayload

unfoldable pub deleted_values : String → ComponentWebhookPayload → Fields
deleted_values host payload = field "host" (text host) (
    field "name" (text payload.component.name)
      (field "version" (text payload.component.version) end))

unfoldable pub process_component_deleted : String → ComponentWebhookPayload → ℕ → List Data
unfolding deleted_values
process_component_deleted host payload event_time =
    record {
      kind = docker_image_type;
      operation = delete;
      values = deleted_values host payload;
      time = event_time;
    }
    ∷ []

module _ {W : Type 0} (web : Web W) where
  unfoldable pub parse_webhook_timestamp : String → Result ℕ
  parse_webhook_timestamp ts =
      if ts == ""
      then err (message "component event timestamp is missing from webhook payload")
      else elim (web.parse_time ts) [
        | none ↦ err (message "invalid component event timestamp format in webhook payload")
        | some t ↦ ok t
      ]

  module _ (c : Client) (host : String) where
    unfoldable pub process_component_upserted : ComponentWebhookPayload → ℕ → Effect W (List Data)
    unfolding get_component assets_of component_wrapper
    process_component_upserted payload event_time = do
      full_component ←
          wrapping "failed to fetch component from Nexus API"
            (get_component web c payload.component.component_id)
      if is_empty (assets_of full_component)
          then pure []
          else pure (
              record {
                kind = docker_image_type;
                operation = upsert;
                values = component_wrapper full_component (assets_of full_component) host;
                time = event_time;
              }
              ∷ [])

    -- switch payload.Action
    unfoldable pub act : ComponentWebhookPayload → ℕ → Effect W (List Data)
    unfolding process_component_upserted process_component_deleted
    act payload event_time =
        if payload.action == "CREATED" || payload.action == "UPDATED"
        then process_component_upserted payload event_time
        else if payload.action == "DELETED"
        then pure (process_component_deleted host payload event_time)
        else pure []

    unfoldable pub process_component_event :
        (String → Result ComponentWebhookPayload)
        → List (String × Fields)
        → String
        → Effect W (List Data)
    unfolding lookup parse_webhook_timestamp act
    process_component_event decode_payload types_to_stream body =
        if wants docker_image_type types_to_stream
        then (do
          payload ← wrapping "failed to parse webhook body" (lift (decode_payload body))
          if payload.component.format == "docker"
              then (do
                event_time ← lift (parse_webhook_timestamp payload.timestamp)
                act payload event_time)
              else pure [])
        else pure []

-- The values of the map `eventProcessors`.
pub data EventProcessor : Type 0 where
  component_event_processor : EventProcessor

abbrev pub event_processors : List (String × EventProcessor)
event_processors = ("rm:repository:component", component_event_processor) ∷ []

unfoldable pub process :
    {W : Type 0}
    → Web W
    → Client
    → String
    → (String → Result ComponentWebhookPayload)
    → EventProcessor
    → List (String × Fields)
    → String
    → Effect W (List Data)
unfolding process_component_event
process web c host decode_payload component_event_processor types_to_stream body =
    process_component_event web c host decode_payload types_to_stream body
