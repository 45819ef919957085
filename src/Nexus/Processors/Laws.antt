-- ===== src/Nexus/Processors/Laws.antt =====
-- What the processor makes of an event, and the item that a deletion names.
use ibdm.Base.{
  ℕ, String, ◌≡◌, refl, ◌⊎◌, inl, inr, true, ◌||◌, some, List, [], ◌∷◌, Result, All, is_empty, ◌==◌,
}
use ibdm.Value.{Fields, text, get_field}
use ibdm.Source.{Data, delete, wants}
use ibdm.Effect.Laws.{
  Ends, Always, Ends-bind, Ends-wrapping, Ends-wrapped, Ends-if, Ends-lift, Ends-pure,
}
use ibdm.Http.{Web, Request}
use ibdm.Http.Laws.{HasKeys}
use ibdm.Nexus.{Client}
use ibdm.Nexus.Laws.{get_component-Ends}
use ibdm.Nexus.Sync.{docker_image_type, assets_of, component_wrapper}
use ibdm.Nexus.Sync.Laws.{IsImage, component_wrapper-assets}
use ibdm.Nexus.Processors.{
  ComponentWebhookPayload, deleted_values, process_component_deleted, parse_webhook_timestamp,
  process_component_upserted, act, process_component_event, EventProcessor,
  component_event_processor, process,
}

-- An upsert of a Docker image with assets or the deletion of one, when the type is asked for.
abbrev pub IsStreamed : List (String × Fields) → Data → Type 0
IsStreamed types d =
    (wants docker_image_type types ≡ true)
    × (IsImage d
        ⊎ ((d.operation ≡ delete)
            × (d.kind ≡ docker_image_type)
            × HasKeys ("host" ∷ "name" ∷ "version" ∷ []) d))

-- A deletion names the same host, name and version as the upsert of a component that has the name and
-- the version of the event.
pub deleted_values-component_wrapper :
    (host : String) (payload : ComponentWebhookPayload) (component : Fields) (assets : List Fields)
    → get_field "name" component ≡ some (text payload.component.name)
    → get_field "version" component ≡ some (text payload.component.version)
    → All
        (λ key.
          get_field key (deleted_values host payload)
          ≡ get_field key (component_wrapper component assets host))
        ("host" ∷ "name" ∷ "version" ∷ [])
unfolding get_field deleted_values component_wrapper
deleted_values-component_wrapper host payload component assets n v =
    (refl, (rw n refl, (rw v refl, tt)))

module _ {W : Type 0} (web : Web W) (c : Client) (host : String) {I : W → Type 0}
    (requests : (req : Request) (w : W) → I w → I (web.send_request req w).1)
    (types : List (String × Fields)) (asked : wants docker_image_type types ≡ true) where
  process_component_upserted-Ends :
      (payload : ComponentWebhookPayload) (time : ℕ)
      → Ends I Always (All (IsStreamed types)) (process_component_upserted web c host payload time)
  unfolding process_component_upserted component_wrapper get_field
  process_component_upserted-Ends payload time =
      Ends-bind (Ends-wrapping _ (λ _ _. tt) (get_component-Ends web c requests _)) λ full _.
        Ends-if (is_empty (assets_of full)) (λ _. Ends-pure [] tt)
          λ filled. Ends-pure _ (
            (
              asked,
              inl (
                refl,
                refl,
                (refl, (refl, (refl, tt))),
                component_wrapper-assets full (assets_of full) host filled,
              ),
            ),
            tt,
          )

  act-Ends :
      (payload : ComponentWebhookPayload) (time : ℕ)
      → Ends I Always (All (IsStreamed types)) (act web c host payload time)
  unfolding act process_component_deleted deleted_values get_field
  act-Ends payload time =
      Ends-if (payload.action == "CREATED" || payload.action == "UPDATED")
        (λ _. process_component_upserted-Ends payload time)
        (λ _.
          Ends-if (payload.action == "DELETED")
            (λ _. Ends-pure _ ((asked, inr (refl, refl, (refl, (refl, (refl, tt))))), tt))
            (λ _. Ends-pure [] tt))

module _ {W : Type 0} (web : Web W) (c : Client) (host : String) {I : W → Type 0}
    (requests : (req : Request) (w : W) → I w → I (web.send_request req w).1)
    (types : List (String × Fields))
    (decode_payload : String → Result ComponentWebhookPayload) where
  process_component_event-Ends :
      (body : String)
      → Ends I Always
          (All (IsStreamed types))
          (process_component_event web c host decode_payload types body)
  unfolding process_component_event
  process_component_event-Ends body =
      Ends-if (wants docker_image_type types)
        (λ asked. Ends-bind (Ends-wrapped _ (decode_payload body)) λ payload _.
          Ends-if (payload.component.format == "docker")
            (λ _.
              Ends-bind {Gives = Always}
                (Ends-lift (parse_webhook_timestamp web payload.timestamp) (λ _ _. tt) (λ _ _. tt))
                λ time _. act-Ends web c host requests types asked payload time)
            (λ _. Ends-pure [] tt))
        (λ _. Ends-pure [] tt)

  pub process-Ends :
      (p : EventProcessor) (body : String)
      → Ends I Always (All (IsStreamed types)) (process web c host decode_payload p types body)
  unfolding process
  process-Ends component_event_processor body = process_component_event-Ends body
