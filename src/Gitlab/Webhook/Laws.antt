-- ===== src/Gitlab/Webhook/Laws.antt =====
-- Which requests the webhook accepts, and what it does after it.
use ibdm.Base.{
  String, ◌≡◌, ◌↔◌, refl, Bool-cases, none, Option-cases, List, ◌⊎◌, inl, inr, Result, lookup, ◌==◌,
  eq_iff,
}
use ibdm.Value.{Fields}
use ibdm.Source.{Data}
use ibdm.Effect.{pure}
use ibdm.Effect.Laws.{Ends, Ended, Always, Ends-pure}
use ibdm.Http.{Web, Request}
use ibdm.Http.Laws.{Ends-deliver}
use ibdm.Gitlab.{SourceConfig, WebhookConfig}
use ibdm.Gitlab.Processors.{event_processors}
use ibdm.Gitlab.Processors.Laws.{IsStreamed, process-Ends}
use ibdm.Gitlab.Webhook.{dispatch, handler}

module _ {W : Type 0} (web : Web W) (c : SourceConfig) (config : WebhookConfig)
    (decode_object_kind : String → Result String) (types : List (String × Fields)) where
  -- The handler answers without an error exactly when the request carries the configured token, and
  -- otherwise nothing runs after it.
  pub gitlab_handler_iff :
      (headers : String → String) (body : String)
      → (((handler web c config decode_object_kind types headers body).0 ≡ none)
          ↔ (headers "X-Gitlab-Token" ≡ config.webhook_token))
        × (((handler web c config decode_object_kind types headers body).0 ≡ none)
            ⊎ ((handler web c config decode_object_kind types headers body).1 ≡ pure tt))
  unfolding handler
  gitlab_handler_iff headers body =
      let iff = eq_iff (headers "X-Gitlab-Token") config.webhook_token in
      elim (Bool-cases (headers "X-Gitlab-Token" == config.webhook_token)) [
        | inl e ↦ rw (e, handler) ((λ _. iff.0 e, λ _. refl), inl refl)
        | inr e ↦ rw (e, handler) ((λ h. cc, λ h. (let m = iff.1 h in cc)), inr refl)
      ]

  module _ {I : W → Type 0}
      (requests : (req : Request) (w : W) → I w → I (web.send_request req w).1)
      (sends : (d : Data) (w : W) → I w → IsStreamed types d → I (web.results d w)) where
    dispatch-Ends :
        (headers : String → String) (body : String)
        → Ends I (λ e. ⊥) Always (dispatch web c config decode_object_kind types headers body)
    unfolding dispatch
    dispatch-Ends headers body =
        elim (Option-cases (lookup (headers "X-Gitlab-Event") event_processors)) [
          | inl e ↦ rw (e, dispatch) (Ends-pure tt tt)
          | inr (p, e) ↦
              rw (e, dispatch)
                (Ends-deliver web (IsStreamed types) sends
                  (process-Ends web c requests decode_object_kind types p body))
        ]

    -- The processing of an accepted event always ends, whatever the event is; and what every request
    -- keeps of the world, and every upsert of a type that is asked for with the parts of its type,
    -- holds after it if it held before.
    pub gitlab_dispatch-Ended :
        (headers : String → String) (body : String) (w : W)
        → I w
        → Ended I (λ e. ⊥) Always (dispatch web c config decode_object_kind types headers body w)
    gitlab_dispatch-Ended headers body w i = (dispatch-Ends headers body).run w i
