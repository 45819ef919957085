-- ===== src/Bitbucket/Webhook.antt =====
-- internal/source/bitbucket/webhook.go: the requests that Bitbucket sends.
pub mod Laws
use ibdm.Base.{
  String, Bool, true, false, Option, none, some, List, [], ◌∷◌, Err, message, wrap, Result, ok, err,
  lookup, starts_with, ◌==◌, if◌then◌else◌,
}
use ibdm.Value.{Fields}
use ibdm.Effect.{Effect, ◌>>=◌, pure, attempt, each}
use ibdm.Http.{Web, Signing, deliver}
use ibdm.Bitbucket.{Client, WebhookConfig, err_bitbucket_source, err_missing_env_variable}
use ibdm.Bitbucket.Processors.{process, event_processors}
use Prim.Native.String.{slice, len}

unfoldable pub verify_signature : Signing → String → String → String → Bool
verify_signature signing body signature_header secret =
    if starts_with signature_header "sha256="
    then elim (signing.decode_hex (slice signature_header (len "sha256=") (len signature_header))) [
      | none ↦ false
      | some signature ↦ signature == signing.mac secret body
    ]
    else false

module _ {W : Type 0} (web : Web W) (signing : Signing) (c : Client) (config : WebhookConfig)
    (types_to_stream : List (String × Fields)) where
  -- The goroutine that the handler starts.
  unfoldable pub dispatch : (String → String) → String → Effect W Unit
  unfolding lookup process
  dispatch headers body = elim (lookup (headers "X-Event-Key") event_processors) [
    | none ↦ pure tt
    | some processor ↦ deliver web (process web c processor types_to_stream body)
  ]

  -- The error of the handler and what is left to run after it.
  unfoldable pub handler : (String → String) → String → Option Err × Effect W Unit
  unfolding verify_signature dispatch
  handler headers body =
      let signature = headers "X-Hub-Signature" in
      if signature == ""
      then (some (wrap err_bitbucket_source (message "missing X-Hub-Signature header")), pure tt)
      else if verify_signature signing body signature config.webhook_secret
      then (none, dispatch headers body)
      else (some (wrap err_bitbucket_source (message "invalid webhook signature")), pure tt)

  pub record Webhook : Type 0 where
    pub method : String
    pub path : String
    pub handle : (String → String) → String → Option Err × Effect W Unit

  unfoldable pub get_webhook : Result Webhook
  unfolding handler
  get_webhook =
      if config.webhook_secret == ""
      then err (
          wrap err_bitbucket_source
            (wrap err_missing_env_variable (message "BITBUCKET_WEBHOOK_SECRET")))
      else ok (record { method = "POST"; path = config.webhook_path; handle = handler })
