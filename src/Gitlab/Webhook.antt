-- ===== src/Gitlab/Webhook.antt =====
-- internal/source/gitlab/gitlab.go: the requests that GitLab sends.
pub mod Laws
use ibdm.Base.{
  String, Bool, true, false, Option, none, some, List, [], ◌∷◌, Err, message, Result, ok, err,
  lookup, ◌==◌, if◌then◌else◌,
}
use ibdm.Value.{Fields}
use ibdm.Effect.{Effect, ◌>>=◌, pure, attempt, each}
use ibdm.Http.{Web, deliver}
use ibdm.Gitlab.{SourceConfig, WebhookConfig}
use ibdm.Gitlab.Processors.{process, event_processors}

abbrev pub err_webhook_token_missing : Err
err_webhook_token_missing = message "webhook token not configured"

abbrev pub err_signature_mismatch : Err
err_signature_mismatch = message "webhook token mismatch"

module _ {W : Type 0} (web : Web W) (c : SourceConfig) (config : WebhookConfig)
    (decode_object_kind : String → Result String) (types_to_stream : List (String × Fields)) where
  -- The goroutine that the handler starts.
  unfoldable pub dispatch : (String → String) → String → Effect W Unit
  unfolding lookup process
  dispatch headers body = elim (lookup (headers "X-Gitlab-Event") event_processors) [
    | none ↦ pure tt
    | some processor ↦ deliver web (process web c decode_object_kind processor types_to_stream body)
  ]

  -- The error of the handler and what is left to run after it.
  unfoldable pub handler : (String → String) → String → Option Err × Effect W Unit
  unfolding dispatch
  handler headers body =
      if headers "X-Gitlab-Token" == config.webhook_token
      then (none, dispatch headers body)
      else (some err_signature_mismatch, pure tt)

  pub record Webhook : Type 0 where
    pub method : String
    pub path : String
    pub handle : (String → String) → String → Option Err × Effect W Unit

  unfoldable pub get_webhook : Result Webhook
  unfolding handler
  get_webhook =
      if config.webhook_token == ""
      then err err_webhook_token_missing
      else ok (record { method = "POST"; path = config.webhook_path; handle = handler })
