-- ===== src/Console/Tests.antt =====
-- The Console source with a server that has one project, with one revision and one service, and one
-- company with one cluster.
use ibdm.Base.{
  codes, ℕ, ℤ, pos, String, ◌≡◌, ◌↔◌, ◌⊎◌, refl, Bool, true, false, none, some, Option, List, [],
  ◌∷◌, map, canceled, Result, ok, err, is_canceled, lookup, All, ◌==◌, if◌then◌else◌,
}
use ibdm.Value.{Fields, text, bool, slice, nil, cons, object, end, field, get_field}
use ibdm.Source.{Data}
use ibdm.Effect.{◌>>=◌, attempt, wrapping, each}
use ibdm.Effect.Laws.{Ends, Ended, Always}
use ibdm.Http.{Web, Signing, concat}
use ibdm.Http.Sample.{answer, sample_web}
use ibdm.Console.{
  WebhookConfig, is_service_valid, is_custom_resource_valid, ensure_docker_image_tag,
}
use ibdm.Console.Images.{IsPinned, ensure_docker_image_tag_iff}
use ibdm.Console.Laws.{IsConfiguration}
use ibdm.Console.Service.{
  Config, get_projects, get_revisions, get_configuration, get_project, get_tenants, get_clusters,
}
use ibdm.Console.Sync.{sync_assets, start_sync_process, start_sync_processes}
use ibdm.Console.Sync.Laws.{
  IsListed, IsReported, HasText, console_sync-Ended, start_sync_processes_once,
}
use ibdm.Console.Webhook.{Folding, Event, dispatch, process_configuration_services}
use ibdm.Console.Webhook.Laws.{
  IsStreamed, console_dispatch-Ended, process_configuration_services-canceled,
}

abbrev image : String
image = "registry:5000/app"

tagged : ensure_docker_image_tag image ≡ "registry:5000/app:latest"
unfolding ensure_docker_image_tag
tagged = refl

-- An image that ends with a colon gets another one.
colon : ensure_docker_image_tag "app:" ≡ "app::latest"
unfolding ensure_docker_image_tag
colon = refl

ensure_docker_image_tag_iff_example :
    ((ensure_docker_image_tag image ≡ image) ↔ ((image ≡ "") ⊎ IsPinned (codes image)))
    × ((ensure_docker_image_tag image ≡ image)
        ⊎ (ensure_docker_image_tag image ≡ concat image ":latest"))
    × (ensure_docker_image_tag (ensure_docker_image_tag image) ≡ ensure_docker_image_tag image)
ensure_docker_image_tag_iff_example = ensure_docker_image_tag_iff image

abbrev config : Config
config = record {
  console_endpoint = "https://c";
  client_id = "";
  client_secret = "";
  auth_endpoint = "";
}

abbrev service : Fields
service =
    field "type" (text "custom")
      (field "advanced" (bool false) (field "dockerImage" (text "app") end))

abbrev project : Fields
project = field "_id" (text "p") (
    field "name" (text "main") (
      field "defaultBranch" (text "main") (
        field "companyId" (text "t") (
          field "linkedProjects" (slice (cons (object end) nil))
            (field "services" (object (field "s" (object service) end)) end)))))

-- Every object that the server knows is the same one.
abbrev web : Web (List Data)
web = sample_web (λ req. answer 200 "") (λ body. ok project) (λ body. ok (project ∷ []))

abbrev types : List (String × Fields)
types = ("service", end) ∷ ("cluster", end) ∷ []

abbrev Sent : List Data → Type 0
Sent sent = All (IsListed types) sent

kinds_of : {A : Type 0} → Option (Result A × (Bool × List Data)) → List String
kinds_of none = []
kinds_of (some (r, (held, sent))) = map (λ d. d.kind) sent

synced : kinds_of (start_sync_process web config types (false, [])) ≡ "cluster" ∷ "service" ∷ []
unfolding start_sync_process ◌>>=◌ attempt wrapping each kinds_of lookup
synced = refl

projects-Ends : Ends Sent Always (All (HasText "_id")) (get_projects web config)
unfolding get_projects get_field ◌>>=◌ attempt
projects-Ends = record { run = λ sent h. ((("p", refl), tt), h) }

revisions-Ends :
    (id : String) → Ends Sent Always (All (HasText "name")) (get_revisions web config id)
unfolding get_revisions get_field ◌>>=◌ attempt
revisions-Ends id = record { run = λ sent h. ((("main", refl), tt), h) }

project-IsConfiguration : IsConfiguration project
unfolding get_field is_service_valid is_custom_resource_valid
project-IsConfiguration =
    (field "s" (object service) end, refl, ((service, (true, (false, refl, refl, refl))), tt))

conf_answered :
    {I : List Data → Type 0} (id revision : String)
    → Ends I Always IsConfiguration (get_configuration web config id revision)
unfolding get_configuration ◌>>=◌ attempt
conf_answered id revision = record { run = λ sent h. (project-IsConfiguration, h) }

tenants-Ends : Ends Sent Always Always (get_tenants web config)
unfolding get_tenants ◌>>=◌ attempt
tenants-Ends = record { run = λ sent h. (tt, h) }

clusters-Ends : (id : String) → Ends Sent Always Always (get_clusters web config id)
unfolding get_clusters ◌>>=◌ attempt
clusters-Ends id = record { run = λ sent h. (tt, h) }

console_sync-Ended_example :
    Ended
      (λ (held, sent). (held ≡ true) × Sent sent)
      IsReported
      Always
      (start_sync_process web config types (false, []))
console_sync-Ended_example =
    console_sync-Ended web config types projects-Ends revisions-Ends
      (λ id rev. conf_answered id rev) tenants-Ends clusters-Ends (λ d sent h listed. (listed, h))
      [] tt

sent_by : {A : Type 0} → Option (Result A × List Data) → List Data
sent_by none = []
sent_by (some (r, sent)) = sent

-- The first synchronisation of a world without data.
first_sync :
    start_sync_processes web config (types ∷ []) (false, [])
    ≡ some (ok tt ∷ [], (true, sent_by (sync_assets web config types [])))
unfolding start_sync_processes ◌>>=◌ attempt wrapping each lookup sent_by
first_sync = refl

synced_once :
    sync_assets web config types [] ≡ some (ok tt, sent_by (sync_assets web config types []))
unfolding start_sync_processes ◌>>=◌ attempt wrapping each lookup sent_by
synced_once = refl

start_sync_processes_once_example :
    start_sync_processes web config (types ∷ types ∷ []) (false, [])
    ≡ some (ok tt ∷ ok tt ∷ [], (true, sent_by (sync_assets web config types [])))
start_sync_processes_once_example =
    start_sync_processes_once web config types (types ∷ []) []
      (sent_by (sync_assets web config types [])) (ok tt) synced_once

-- The texts are in lower case, and the name has one underscore.
abbrev folding : Folding
folding = record {
  to_lower = λ s. s;
  equal_fold = λ a b. a == b;
  split = λ name.
      if name == "configuration_created"
      then "configuration" ∷ "created" ∷ []
      else "project" ∷ "deleted" ∷ [];
  join = λ parts. elim parts [ [] ↦ "" | part ∷ _ ↦ part ];
}

abbrev event : Event
event = record {
  event_name = "configuration_created";
  event_timestamp = pos 7;
  payload = some (field "projectId" (text "p") (field "revisionName" (text "main") end));
  resource = none;
}

abbrev unix_milli : ℤ → ℕ
unix_milli millis = 7

abbrev signing : Signing
signing = record { decode_hex = λ s. some s; mac = λ secret body. concat body secret }

abbrev webhook_config : WebhookConfig
webhook_config = record { webhook_path = "/console/webhook"; webhook_secret = "s" }

abbrev decode_event : String → Result Event
decode_event body = ok event

abbrev headers : String → String
headers name = if name == "X-Mia-Signature" then "sha256={}s" else ""

abbrev Streamed : List Data → Type 0
Streamed sent = All (IsStreamed web config folding unix_milli types event) sent

project-Ends :
    (id : String) → Ends Streamed Always (HasText "defaultBranch") (get_project web config id)
unfolding get_project get_field ◌>>=◌ attempt
project-Ends id = record { run = λ sent h. (("main", refl), h) }

console_dispatch-Ended_example :
    Ended Streamed
      (λ e. ⊥)
      Always
      (dispatch web config folding unix_milli signing webhook_config decode_event types event [])
console_dispatch-Ended_example =
    console_dispatch-Ended web config folding unix_milli types project-Ends
      (λ id rev. conf_answered id rev) event (λ d sent h streamed. (streamed, h)) signing
      webhook_config decode_event [] tt

-- A server whose requests are cancelled.
abbrev canceled_web : Web (List Data)
canceled_web = sample_web (λ req. err canceled) (λ body. ok project) (λ body. ok [])

process_configuration_services-canceled_example :
    process_configuration_services canceled_web config folding unix_milli project "p" "main" event
      ("service" ∷ [])
      []
    ≡ none
unfolding get_field is_canceled
process_configuration_services-canceled_example =
    process_configuration_services-canceled canceled_web config folding unix_milli types project "p"
      "main" event ("service" ∷ []) refl refl [] [] canceled refl refl refl
