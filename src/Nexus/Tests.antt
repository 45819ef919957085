-- ===== src/Nexus/Tests.antt =====
-- The Nexus source with a server that has one repository with two pages of components.
use ibdm.Base.{
  ℕ, ◌+◌, ◌≤◌, String, ◌≡◌, refl, ap, ◌∙◌, false, Bool-cases, inl, inr, none, some, Option, List,
  [], ◌∷◌, Result, ok, err, All, ◌==◌, if◌then◌else◌, leb→le, ltb→lt, eq_iff,
}
use ibdm.Value.{Fields, null, text, slice, nil, cons, object, end, field}
use ibdm.Source.{Data, upsert, delete}
use ibdm.Effect.{◌>>=◌, attempt, wrapping, each}
use ibdm.Effect.Laws.{Ended, Always}
use ibdm.Http.{Web, Request, Response, Signing, each_live, concat}
use ibdm.Http.Sample.{answer, sample_web}
use ibdm.Nexus.{Config, WebhookConfig, Client}
use ibdm.Nexus.Laws.{TokensDown}
use ibdm.Nexus.Sync.{start_sync_process}
use ibdm.Nexus.Sync.Laws.{IsImage, IsReported, nexus_sync-Ended}
use ibdm.Nexus.Processors.{ComponentWebhookPayload}
use ibdm.Nexus.Processors.Laws.{IsStreamed}
use ibdm.Nexus.Webhook.{dispatch}
use ibdm.Nexus.Webhook.Laws.{nexus_dispatch-Ended}

abbrev config : Config
config = record {
  url_schema = "https";
  url_host = "h";
  token_name = "n";
  token_passcode = "p";
  specific_repository = "";
}

abbrev client : Client
client = record { base_url = "https://h"; token_name = "n"; token_passcode = "p" }

abbrev component : Fields
component = field "format" (text "docker") (
    field "name" (text "img")
      (field "version" (text "1.0") (field "assets" (slice (cons (object end) nil)) end)))

-- The body of the first page is "first", of the next ones "last".
abbrev respond : Request → Result Response
respond req = elim req.query [
  | [] ↦ answer 200 "repositories"
  | q ∷ qs ↦ elim qs [ [] ↦ answer 200 "first" | _ ∷ _ ↦ answer 200 "last" ]
]

abbrev decode_components : String → Result (List Fields × Option String)
decode_components body =
    if body == "first" then ok (component ∷ [], some "t") else ok (component ∷ end ∷ [], none)

abbrev rank : String → ℕ
rank token = if token == "" then 1 else 0

rank-le : (token : String) → rank token ≤ 1
rank-le token =
    leb→le (rank token) 1
      (elim (Bool-cases (token == "")) [ inl e ↦ rw e refl | inr e ↦ rw e refl ])

abbrev web : Web (List Data)
web = sample_web respond (λ body. ok component) (λ body. ok (field "name" (text "r") end ∷ []))

abbrev types : List (String × Fields)
types = ("dockerimage", end) ∷ []

abbrev image_sent : Data
image_sent = record {
  kind = "dockerimage";
  operation = upsert;
  values = field "host" (text "h") (
      field "id" null (
        field "repository" null (
          field "format" (text "docker") (
            field "group" null (
              field "name" (text "img") (
                field "version" (text "1.0")
                  (field "tags" null (field "assets" (slice (cons (object end) nil)) end))))))));
  time = 9;
}

synced :
    start_sync_process web client decode_components false config types 2 []
    ≡ some (ok tt, image_sent ∷ image_sent ∷ [])
unfolding start_sync_process ◌>>=◌ attempt wrapping each each_live
synced = refl

token_of : Result (List Fields × Option String) → Option String
token_of (ok page) = page.1
token_of (err e) = none

body_of :
    (status : ℕ) (body : String) (resp : Response) → answer status body ≡ ok resp → body ≡ resp.body
body_of status body resp h =
    let e : record {
      status = status;
      header = λ name. if name == "x-total-pages" then "1" else "";
      body = body;
    }
        ≡ resp =
      cc in
    ap (λ r. r.body) e

tokens_down : TokensDown web client decode_components rank
unfolding token_of
tokens_down repository token next_token sent resp components e d = elim (Bool-cases (token == "")) [
  | inl k ↦
      let b = body_of 200 "first" resp (rw k at e) in
      let m : some "t" ≡ some next_token =
        ap (λ s. token_of (decode_components s)) b ∙ ap token_of d in
      let n : "t" ≡ next_token = cc in inr (rw (← n, (eq_iff token "").0 k) (ltb→lt 0 1 refl))
  | inr k ↦
      let b = body_of 200 "last" resp (rw k at e) in
      let m : none ≡ some next_token = ap (λ s. token_of (decode_components s)) b ∙ ap token_of d in
      cc
]

nexus_sync-Ended_example :
    Ended
      (λ sent. All IsImage sent)
      IsReported
      Always
      (start_sync_process web client decode_components false config types (1 + 1) [])
nexus_sync-Ended_example =
    nexus_sync-Ended web client decode_components rank 1 rank-le tokens_down (λ req sent h. h)
      (λ d sent h image. (image, h)) false config types [] tt

abbrev payload : ComponentWebhookPayload
payload = record {
  timestamp = "2";
  node_id = "";
  initiator = "";
  repository_name = "r";
  action = "DELETED";
  component = record {
    id = "i";
    component_id = "c";
    format = "docker";
    name = "img";
    group = "";
    version = "1.0";
  };
}

abbrev signing : Signing
signing = record { decode_hex = λ s. some s; mac = λ secret body. concat secret body }

abbrev webhook_config : WebhookConfig
webhook_config = record { webhook_secret = "s"; webhook_path = "/nexus/webhook" }

abbrev headers : String → String
headers name =
    if name == "X-Nexus-Webhook-Signature"
    then "s{}"
    else if name == "X-Nexus-Webhook-Id"
    then "rm:repository:component"
    else ""

abbrev decode_payload : String → Result ComponentWebhookPayload
decode_payload body = ok payload

streamed :
    dispatch web signing client "h" webhook_config decode_payload types headers "{}" []
    ≡ some (
      ok tt,
      record {
        kind = "dockerimage";
        operation = delete;
        values =
            field "host" (text "h") (field "name" (text "img") (field "version" (text "1.0") end));
        time = 2;
      }
          ∷ [],
    )
unfolding dispatch ◌>>=◌ attempt wrapping each
streamed = refl

nexus_dispatch-Ended_example :
    Ended
      (λ sent. All (IsStreamed types) sent)
      (λ e. ⊥)
      Always
      (dispatch web signing client "h" webhook_config decode_payload types headers "{}" [])
nexus_dispatch-Ended_example =
    nexus_dispatch-Ended web signing client "h" webhook_config decode_payload types
      (λ req sent h. h) (λ d sent h streamed. (streamed, h)) headers "{}" [] tt
