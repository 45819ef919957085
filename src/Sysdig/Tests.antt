-- ===== src/Sysdig/Tests.antt =====
-- The Sysdig source with a server that has one vulnerability.
use ibdm.Base.{
  ℕ, ℤ, pos, ◌+◌, String, ◌≡◌, ◌⊎◌, inl, inr, refl, ap, ◌∙◌, false, none, some, List, [], ◌∷◌,
  Result, ok, err, All, ◌==◌, if◌then◌else◌, ltb→lt,
}
use ibdm.Value.{Fields, text, object, end, field}
use ibdm.Source.{Data, upsert}
use ibdm.Effect.{◌>>=◌, attempt, wrapping, each}
use ibdm.Effect.Laws.{Ended, Always}
use ibdm.Http.{Web, Request, Response, concat}
use ibdm.Http.Sample.{answer, sample_web}
use ibdm.Sysdig.{Config, start_sync_process, is_zero, paginated, sysql_vulnerability_query}
use ibdm.Sysdig.Laws.{IsSynced, LeadsDown, OffsetsDown, sysdig_sync-Ended}
use ibdm.Sysdig.Events.{
  VulnerabilityClient, ResultData, WebhookPayload, map_vulnerability, to_values, handler,
}
use ibdm.Sysdig.Events.Laws.{IsStreamed, sysdig_handler-Ended}

abbrev config : Config
config = record { url = "https://s"; api_token = "t"; page_size = pos 10 }

abbrev first_query : String
first_query = concat sysql_vulnerability_query " LIMIT 10 OFFSET 0;"

-- The vulnerability is on the first page.
abbrev answer_to : String → Result Response
answer_to query = if query == first_query then answer 200 "one" else answer 200 "none"

abbrev respond : Request → Result Response
respond req = answer_to req.body

abbrev web : Web (List Data)
web = sample_web respond (λ body. ok end) (λ body. ok [])

abbrev decode_items : String → Result (List Fields × ℤ)
decode_items body = if body == "one" then ok (end ∷ [], pos 1) else ok ([], pos 0)

abbrev types : List (String × Fields)
types = ("vulnerability", end) ∷ []

abbrev synced_data : Data
synced_data = record { kind = "vulnerability"; operation = upsert; values = end; time = 9 }

synced :
    start_sync_process web ok decode_items config (λ sent. none) false types 2 []
    ≡ some (ok tt, synced_data ∷ [])
unfolding start_sync_process ◌>>=◌ attempt wrapping each
synced = refl

abbrev rank : ℤ → ℕ
rank offset = if is_zero offset then 1 else 0

abbrev Reached : ℤ → Type 0
Reached offset = (offset ≡ pos 0) ⊎ (offset ≡ pos 1)

body_of_answer : Result Response → String
body_of_answer (ok resp) = resp.body
body_of_answer (err e) = ""

fetched_of : Result (List Fields × ℤ) → ℤ
fetched_of (ok page) = page.1
fetched_of (err e) = pos 0

offset_text : Result String → String
offset_text (ok s) = s
offset_text (err e) = ""

fetched_at : ℤ → ℤ
unfolding body_of_answer fetched_of
fetched_at offset = fetched_of (
    decode_items (body_of_answer (answer_to (paginated sysql_vulnerability_query (pos 10) offset))))

leads_down : (offset : ℤ) → Reached offset → LeadsDown Reached rank offset (fetched_at offset)
unfolding fetched_at paginated
leads_down offset (inl e) = rw e (inr (inr refl, ltb→lt 0 1 refl))
leads_down offset (inr e) = rw e (inl refl)

offsets_down : OffsetsDown web ok decode_items config Reached rank
unfolding fetched_at offset_text fetched_of body_of_answer
offsets_down body offset fetched sent resp items reached m e d =
    let q = ap offset_text m in
    let b = ap (λ s. body_of_answer (answer_to s)) q ∙ ap body_of_answer e in
    let f : fetched_at offset ≡ fetched =
      ap (λ s. fetched_of (decode_items s)) b ∙ ap fetched_of d in
    rw (← f) (leads_down offset reached)

sysdig_sync-Ended_example :
    Ended
      (λ sent. All (IsSynced types) sent)
      (λ e. ⊥)
      Always
      (start_sync_process web ok decode_items config (λ sent. none) false types (1 + 1) [])
sysdig_sync-Ended_example =
    sysdig_sync-Ended web ok decode_items config rank offsets_down (λ sent. none) (inl refl)
      (λ req sent h. h) false types (λ d sent h synced. (synced, h)) [] tt

abbrev payload : WebhookPayload
payload = record { url = "https://s/results/r1/overview"; timestamp = pos 5 }

abbrev result : ResultData
result = record {
  kind = "dockerImage";
  pull_string = "img:1";
  packages = (end ∷ []) ∷ [] ∷ [];
  policy_evaluations_result = "failed";
}

abbrev vulnerability_client : VulnerabilityClient
vulnerability_client = record { base_url = "https://s"; bearer_token = "b" }

abbrev decode_envelope : String → Result (String × String)
decode_envelope body = ok ("other", "Pipeline Failure Alerts")

abbrev unix_micro : ℤ → ℕ
unix_micro micros = 5

abbrev id : String
id = "r1"

streamed :
    (handler web vulnerability_client
        (λ body. ok result)
        (λ body. ok payload)
        unix_micro
        decode_envelope
        types
        (λ name. "")
        "{}").1
      []
    ≡ some (
      ok tt,
      record {
        kind = "vulnerability";
        operation = upsert;
        values =
            field "vuln"
              (object (to_values (map_vulnerability end)))
              (field "img" (object (field "imageReference" (text "img:1") end)) end);
        time = 5;
      }
          ∷ [],
    )
unfolding handler ◌>>=◌ attempt wrapping each
streamed = refl

sysdig_handler-Ended_example :
    Ended
      (λ sent. All (IsStreamed types) sent)
      (λ e. ⊥)
      Always
      ((handler web vulnerability_client
          (λ body. ok result)
          (λ body. ok payload)
          unix_micro
          decode_envelope
          types
          (λ name. "")
          "{}").1
        [])
sysdig_handler-Ended_example =
    sysdig_handler-Ended web vulnerability_client (λ body. ok result) (λ body. ok payload)
      unix_micro (λ req sent h. h) decode_envelope types (λ d sent h streamed. (streamed, h))
      (λ name. "") "{}" [] tt
