-- ===== src/Github/Webhook.antt =====
-- internal/source/github/webhook.go: the requests that GitHub sends. Bytes are written as texts.
pub mod Laws
pub mod Effects
use ibdm.Base.{
  String, Bool, true, false, Option, none, some, List, [], ◌∷◌, Err, message, wrap, Result, ok, err,
  lookup, starts_with, ◌==◌, if◌then◌else◌,
}
use ibdm.Value.{Fields}
use ibdm.Source.{Data}
use ibdm.Github.{Config, Client, Env, missing_env_variable}
use ibdm.Github.Processors.{Processor, process, event_processors}
use Prim.Native.String.{slice, len}

-- encoding/hex, crypto/hmac with SHA-256, url.ParseQuery and json.Valid.
pub record Codecs : Type 0 where
  pub decode_hex : String → Option String
  pub mac : String → String → String
  pub parse_query : String → Result (List (String × String))
  pub valid_json : String → Bool

unfoldable pub verify_signature : Codecs → String → String → String → Bool
verify_signature codecs body signature_header secret =
    if starts_with signature_header "sha256="
    then elim (codecs.decode_hex (slice signature_header (len "sha256=") (len signature_header))) [
      | none ↦ false
      | some signature ↦ signature == codecs.mac secret body
    ]
    else false

-- values.Get("payload")
abbrev pub first_value : Option String → String
first_value none = ""
first_value (some v) = v

unfoldable pub extract_json_body : Codecs → (String → String) → String → Option String
unfolding lookup
extract_json_body codecs headers body =
    let content_type = headers "Content-Type" in
    if starts_with content_type "application/json"
    then some body
    else if starts_with content_type "application/x-www-form-urlencoded"
    then elim (codecs.parse_query body) [
      | err e ↦ none
      | ok values ↦
          let payload = first_value (lookup "payload" values) in
          if payload == "" then none else if codecs.valid_json payload then some payload else none
    ]
    else none

module _ {W : Type 0} (env : Env W) (codecs : Codecs) where
  abbrev pub send_all : List Data → W → W
  send_all [] w = w
  send_all (d ∷ ds) w = send_all ds (env.results d w)

  -- The goroutine that the handler starts.
  unfoldable pub dispatch : Client → List (String × Fields) → (String → String) → String → W → W
  unfolding lookup extract_json_body process
  dispatch c types_to_stream headers body w =
      elim (lookup (headers "X-GitHub-Event") event_processors) [
        | none ↦ w
        | some processor ↦ elim (extract_json_body codecs headers body) [
          | none ↦ w
          | some json_body ↦
              let (r, w') = process env processor (some c) types_to_stream json_body w in
              elim r [ err e ↦ w' | ok ds ↦ send_all ds w' ]
        ]
      ]

  -- The error of the handler and what is left to run after it.
  unfoldable pub handler :
      Config → Client → List (String × Fields) → (String → String) → String → Option Err × (W → W)
  unfolding verify_signature dispatch
  handler config c types_to_stream headers body =
      let signature = headers "X-Hub-Signature-256" in
      if signature == ""
      then (some (wrap "github source" (message "missing X-Hub-Signature-256 header")), λ w. w)
      else if verify_signature codecs body signature config.webhook_secret
      then (none, dispatch c types_to_stream headers body)
      else (some (wrap "github source" (message "invalid webhook signature")), λ w. w)

  pub record Webhook : Type 0 where
    pub method : String
    pub path : String
    pub handle : (String → String) → String → Option Err × (W → W)

  unfoldable pub get_webhook : Config → Client → List (String × Fields) → Result Webhook
  unfolding handler
  get_webhook config c types_to_stream =
      if config.webhook_secret == ""
      then err (wrap "github source" (wrap missing_env_variable (message "GITHUB_WEBHOOK_SECRET")))
      else ok (record {
        method = "POST";
        path = config.webhook_path;
        handle = handler config c types_to_stream;
      })
