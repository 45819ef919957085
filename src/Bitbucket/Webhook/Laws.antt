-- ===== src/Bitbucket/Webhook/Laws.antt =====
-- Which requests the webhook accepts, and what it does after it.
use ibdm.Base.{
  String, [], sym, ◌∙◌, ◌≡◌, ◌↔◌, refl, true, Bool-cases, none, some, Option-cases, List, ◌⊎◌, inl,
  inr, ok, lookup, ◌==◌, eq_iff,
}
use ibdm.Value.{Fields}
use ibdm.Source.{Data}
use ibdm.Effect.{pure}
use ibdm.Effect.Laws.{Ends, Ended, Always, Ends-pure}
use ibdm.Http.{Web, Request, Signing, concat}
use ibdm.Http.Laws.{Ends-deliver}
use ibdm.Github.Webhook.{Codecs}
use ibdm.Github.Webhook.Laws.{verify_signature_iff, not-verified}
use ibdm.Bitbucket.{Client, WebhookConfig}
use ibdm.Bitbucket.Processors.{event_processors}
use ibdm.Bitbucket.Processors.Laws.{IsStreamed, process-Ends}
use ibdm.Bitbucket.Webhook.{dispatch, handler, verify_signature}

-- The check is the one of the GitHub source.
abbrev codecs_of : Signing → Codecs
codecs_of signing = record {
  decode_hex = signing.decode_hex;
  mac = signing.mac;
  parse_query = λ query. ok [];
  valid_json = λ text. true;
}

verify_signature-github :
    (signing : Signing) (body header secret : String)
    → verify_signature signing body header secret
      ≡ ibdm.Github.Webhook.verify_signature (codecs_of signing) body header secret
unfolding verify_signature ibdm.Github.Webhook.verify_signature
verify_signature-github signing body header secret = refl

module _ {W : Type 0} (web : Web W) (signing : Signing) (c : Client) (config : WebhookConfig)
    (types : List (String × Fields)) where
  -- The handler answers without an error exactly when the request has the signature of its body, and
  -- otherwise nothing runs after it.
  pub bitbucket_handler_iff :
      (headers : String → String) (body : String)
      → (((handler web signing c config types headers body).0 ≡ none) ↔ (
          (hex : String) × (headers "X-Hub-Signature" ≡ concat "sha256=" hex)
          × (signing.decode_hex hex ≡ some (signing.mac config.webhook_secret body))))
        × (((handler web signing c config types headers body).0 ≡ none)
            ⊎ ((handler web signing c config types headers body).1 ≡ pure tt))
  unfolding handler
  bitbucket_handler_iff headers body =
      let signature = headers "X-Hub-Signature" in
      let same = verify_signature-github signing body signature config.webhook_secret in
      let iff = verify_signature_iff (codecs_of signing) body signature config.webhook_secret in
      elim (Bool-cases (verify_signature signing body signature config.webhook_secret)) [
        | inl e ↦ elim (Bool-cases (signature == "")) [
          | inl k ↦ absurd (
              not-verified (codecs_of signing) body config.webhook_secret
                (rw ((eq_iff signature "").0 k) at (sym same ∙ e)))
          | inr k ↦ rw (k, e, handler) ((λ _. iff.0 (sym same ∙ e), λ _. refl), inl refl)
        ]
        | inr e ↦ elim (Bool-cases (signature == "")) [
          | inl k ↦ rw (k, handler) ((λ h. cc, λ h. (let m = same ∙ iff.1 h in cc)), inr refl)
          | inr k ↦ rw (k, e, handler) ((λ h. cc, λ h. (let m = same ∙ iff.1 h in cc)), inr refl)
        ]
      ]

  module _ {I : W → Type 0}
      (requests : (req : Request) (w : W) → I w → I (web.send_request req w).1)
      (sends : (d : Data) (w : W) → I w → IsStreamed types d → I (web.results d w)) where
    dispatch-Ends :
        (headers : String → String) (body : String)
        → Ends I (λ e. ⊥) Always (dispatch web signing c config types headers body)
    unfolding dispatch
    dispatch-Ends headers body =
        elim (Option-cases (lookup (headers "X-Event-Key") event_processors)) [
          | inl e ↦ rw (e, dispatch) (Ends-pure tt tt)
          | inr (p, e) ↦
              rw (e, dispatch)
                (Ends-deliver web (IsStreamed types) sends
                  (process-Ends web c requests types p body))
        ]

    -- The processing of an accepted event always ends, whatever the event is; and what every request
    -- keeps of the world, and every upsert of a repository that is asked for, holds after it if it
    -- held before.
    pub bitbucket_dispatch-Ended :
        (headers : String → String) (body : String) (w : W)
        → I w
        → Ended I (λ e. ⊥) Always (dispatch web signing c config types headers body w)
    bitbucket_dispatch-Ended headers body w i = (dispatch-Ends headers body).run w i
