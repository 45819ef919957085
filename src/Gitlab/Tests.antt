-- ===== src/Gitlab/Tests.antt =====
-- The GitLab source with a server that has one project with one pipeline, and no access to tokens.
use ibdm.Base.{
  ℕ, ◌+◌, String, ◌≡◌, refl, false, Bool-cases, inl, inr, some, List, [], ◌∷◌, Result, ok, All,
  ◌==◌, if◌then◌else◌,
}
use ibdm.Value.{Fields, text, float64, object, end, field}
use ibdm.Source.{Data, upsert}
use ibdm.Effect.{◌>>=◌, attempt, wrapping, each}
use ibdm.Effect.Laws.{Ended, Always}
use ibdm.Http.{Web, Request, Response, atoi}
use ibdm.Http.Sample.{answer, sample_web}
use ibdm.Gitlab.{SourceConfig, WebhookConfig}
use ibdm.Gitlab.Laws.{NamesAtMost}
use ibdm.Gitlab.Sync.{start_sync_process}
use ibdm.Gitlab.Sync.Laws.{IsSynced, IsRetrieval, gitlab_sync-Ended}
use ibdm.Gitlab.Processors.Laws.{IsStreamed}
use ibdm.Gitlab.Webhook.{dispatch}
use ibdm.Gitlab.Webhook.Laws.{gitlab_dispatch-Ended}

abbrev config : SourceConfig
config = record { token = "t"; base_url = "https://gitlab.com" }

abbrev webhook_config : WebhookConfig
webhook_config = record { webhook_path = "/gitlab/webhook"; webhook_token = "s" }

abbrev project : Fields
project = field "id" (float64 7) (field "updated_at" (text "1") end)

abbrev pipeline : Fields
pipeline = field "id" (float64 3) (field "created_at" (text "2") end)

abbrev event : Fields
event =
    field "object_kind" (text "pipeline")
      (field "project" (object project) (field "object_attributes" (object pipeline) end))

abbrev languages : Fields
languages = field "Go" (float64 5) end

-- The body of an answer is the path of its request, and the page after the first is empty.
abbrev respond : Request → Result Response
respond req =
    if req.path == "/api/v4/projects/7/access_tokens" then answer 403 "" else answer 200 req.path

abbrev decode_objects : String → Result (List Fields)
decode_objects body =
    if body == "/api/v4/projects"
    then ok (project ∷ [])
    else if body == "/api/v4/projects/7/pipelines"
    then ok (pipeline ∷ [])
    else ok []

abbrev decode_object : String → Result Fields
decode_object body =
    if body == "/api/v4/projects/7/pipelines/3"
    then ok pipeline
    else if body == "/api/v4/projects/7/languages"
    then ok languages
    else if body == "{}"
    then ok event
    else ok project

abbrev web : Web (List Data)
web = sample_web respond decode_object decode_objects

abbrev types : List (String × Fields)
types = ("project", end) ∷ ("pipeline", end) ∷ ("accesstoken", end) ∷ []

abbrev project_sent : Data
project_sent = record {
  kind = "project";
  operation = upsert;
  values = field "project" (object project) (field "project_languages" (object languages) end);
  time = 1;
}

abbrev pipeline_sent : Data
pipeline_sent = record {
  kind = "pipeline";
  operation = upsert;
  values = field "project" (object project) (field "pipeline" (object pipeline) end);
  time = 2;
}

synced :
    start_sync_process web config false types 3 [] ≡ some (ok tt, pipeline_sent ∷ project_sent ∷ [])
unfolding start_sync_process ◌>>=◌ attempt wrapping each
synced = refl

answer-NamesAtMost :
    (status : ℕ) (body : String) (resp : Response)
    → answer status body ≡ ok resp
    → NamesAtMost 1 resp
unfolding atoi
answer-NamesAtMost status body resp h =
    let e : record {
      status = status;
      header = λ name. if name == "x-total-pages" then "1" else "";
      body = body;
    }
        ≡ resp =
      cc in
    rw⁻¹ e refl

respond-NamesAtMost :
    (req : Request) (sent : List Data) (resp : Response)
    → (web.send_request req sent).0 ≡ ok resp
    → NamesAtMost 1 resp
respond-NamesAtMost req sent resp h =
    elim (Bool-cases (req.path == "/api/v4/projects/7/access_tokens")) [
      | inl e ↦ answer-NamesAtMost 403 "" resp (rw e at h)
      | inr e ↦ answer-NamesAtMost 200 req.path resp (rw e at h)
    ]

gitlab_sync-Ended_example :
    Ended
      (λ sent. All (IsSynced types) sent)
      IsRetrieval
      Always
      (start_sync_process web config false types (1 + 2) [])
gitlab_sync-Ended_example =
    gitlab_sync-Ended web config 1 (λ req sent h. h) respond-NamesAtMost types
      (λ d sent h synced. (synced, h)) false [] tt

abbrev headers : String → String
headers name =
    if name == "X-Gitlab-Token"
    then "s"
    else if name == "X-Gitlab-Event"
    then "Pipeline Hook"
    else ""

abbrev decode_object_kind : String → Result String
decode_object_kind body = ok "pipeline"

streamed :
    dispatch web config webhook_config decode_object_kind types headers "{}" []
    ≡ some (
      ok tt,
      record {
        kind = "pipeline";
        operation = upsert;
        values = field "pipeline" (object pipeline) (field "project" (object project) end);
        time = 9;
      }
          ∷ record {
            kind = "project";
            operation = upsert;
            values =
                field "project" (object project) (field "project_languages" (object languages) end);
            time = 9;
          }
          ∷ [],
    )
unfolding dispatch ◌>>=◌ attempt wrapping each
streamed = refl

gitlab_dispatch-Ended_example :
    Ended
      (λ sent. All (IsStreamed types) sent)
      (λ e. ⊥)
      Always
      (dispatch web config webhook_config decode_object_kind types headers "{}" [])
gitlab_dispatch-Ended_example =
    gitlab_dispatch-Ended web config webhook_config decode_object_kind types (λ req sent h. h)
      (λ d sent h streamed. (streamed, h)) headers "{}" [] tt
