-- ===== src/Nexus/Webhook.antt =====
-- internal/source/nexus/webhook.go: the requests that Nexus sends.
pub mod Laws
use ibdm.Base.{
  String, Bool, true, false, not, ◌&&◌, Option, none, some, List, [], ◌∷◌, Err, message, wrap,
  Result, ok, err, lookup, ◌==◌, if◌then◌else◌,
}
use ibdm.Value.{Fields}
use ibdm.Effect.{Effect, ◌>>=◌, pure, attempt, each}
use ibdm.Http.{Web, Signing, deliver}
use ibdm.Nexus.{Client, WebhookConfig, err_nexus_source}
use ibdm.Nexus.Processors.{ComponentWebhookPayload, process, event_processors}

unfoldable pub verify_signature : Signing → String → String → String → Bool
verify_signature signing body signature secret = elim (signing.decode_hex signature) [
  | none ↦ false
  | some decoded ↦ decoded == signing.mac secret body
]

module _ {W : Type 0} (web : Web W) (signing : Signing) (c : Client) (host : String)
    (config : WebhookConfig) (decode_payload : String → Result ComponentWebhookPayload)
    (types_to_stream : List (String × Fields)) where
  -- The goroutine that the handler starts.
  unfoldable pub dispatch : (String → String) → String → Effect W Unit
  unfolding lookup process
  dispatch headers body = elim (lookup (headers "X-Nexus-Webhook-Id") event_processors) [
    | none ↦ pure tt
    | some processor ↦
        deliver web (process web c host decode_payload processor types_to_stream body)
  ]

  -- The error of the handler and what is left to run after it.
  unfoldable pub handler : (String → String) → String → Option Err × Effect W Unit
  unfolding verify_signature dispatch
  handler headers body =
      let signature = headers "X-Nexus-Webhook-Signature" in
      let has_secret = not (config.webhook_secret == "") in
      let has_signature = not (signature == "") in
      if not has_secret && has_signature
      then (
        some (wrap err_nexus_source (message "received a signature but no secret is configured")),
        pure tt,
      )
      else if has_secret && not has_signature
      then (some (wrap err_nexus_source (message "missing signature header")), pure tt)
      else if has_secret
          && has_signature
          && not (verify_signature signing body signature config.webhook_secret)
      then (some (wrap err_nexus_source (message "invalid webhook signature")), pure tt)
      else (none, dispatch headers body)

  pub record Webhook : Type 0 where
    pub method : String
    pub path : String
    pub handle : (String → String) → String → Option Err × Effect W Unit

  unfoldable pub get_webhook : Webhook
  unfolding handler
  get_webhook = record { method = "POST"; path = config.webhook_path; handle = handler }
