-- ===== src/Nexus/Webhook/Laws.antt =====
-- Which requests the webhook accepts, and what it does after it.
use ibdm.Base.{String, Option-cases, List, inl, inr, Result, lookup}
use ibdm.Value.{Fields}
use ibdm.Source.{Data}
use ibdm.Effect.Laws.{Ends, Ended, Always, Ends-pure}
use ibdm.Http.{Web, Request, Signing}
use ibdm.Http.Laws.{Ends-deliver}
use ibdm.Nexus.{Client, WebhookConfig}
use ibdm.Nexus.Processors.{ComponentWebhookPayload, event_processors}
use ibdm.Nexus.Processors.Laws.{IsStreamed, process-Ends}
use ibdm.Nexus.Webhook.{dispatch}

module _ {W : Type 0} (web : Web W) (signing : Signing) (c : Client) (host : String)
    (config : WebhookConfig) (decode_payload : String → Result ComponentWebhookPayload)
    (types : List (String × Fields)) where
  module _ {I : W → Type 0}
      (requests : (req : Request) (w : W) → I w → I (web.send_request req w).1)
      (sends : (d : Data) (w : W) → I w → IsStreamed types d → I (web.results d w)) where
    dispatch-Ends :
        (headers : String → String) (body : String)
        → Ends I
            (λ e. ⊥)
            Always
            (dispatch web signing c host config decode_payload types headers body)
    unfolding dispatch
    dispatch-Ends headers body =
        elim (Option-cases (lookup (headers "X-Nexus-Webhook-Id") event_processors)) [
          | inl e ↦ rw (e, dispatch) (Ends-pure tt tt)
          | inr (p, e) ↦
              rw (e, dispatch)
                (Ends-deliver web (IsStreamed types) sends
                  (process-Ends web c host requests types decode_payload p body))
        ]

    -- The processing of an accepted event always ends, whatever the event is; and what every request
    -- keeps of the world, and every upsert of a Docker image with assets or deletion of one, when the
    -- type is asked for, holds after it if it held before.
    pub nexus_dispatch-Ended :
        (headers : String → String) (body : String) (w : W)
        → I w
        → Ended I
            (λ e. ⊥)
            Always
            (dispatch web signing c host config decode_payload types headers body w)
    nexus_dispatch-Ended headers body w i = (dispatch-Ends headers body).run w i
