-- ===== src/Bitbucket/Tests.antt =====
-- The Bitbucket source with a server that has one workspace with two pages of repositories.
use ibdm.Base.{
  ℕ, ◌+◌, ◌<◌, ◌≤◌, String, ◌≡◌, ◌↔◌, ◌⊎◌, refl, false, Bool-cases, inl, inr, some, List, [], ◌∷◌,
  Result, ok, All, ◌==◌, if◌then◌else◌, leb→le, ltb→lt, eq_iff, sym, ap, ◌∙◌,
}
use ibdm.Value.{Fields, text, object, end, field}
use ibdm.Source.{Data, upsert}
use ibdm.Effect.{◌>>=◌, attempt, wrapping, each}
use ibdm.Effect.Laws.{Ended, Always}
use ibdm.Http.{Web, Request, Response, Signing, each_live, concat}
use ibdm.Http.Sample.{answer, sample_web}
use ibdm.Bitbucket.{SourceConfig, WebhookConfig, Client}
use ibdm.Bitbucket.Laws.{LinksDown}
use ibdm.Bitbucket.Sync.{start_sync_process}
use ibdm.Bitbucket.Sync.Laws.{IsSynced, IsReported, bitbucket_sync-Ended}
use ibdm.Bitbucket.Processors.{split_full_name}
use ibdm.Bitbucket.Processors.Laws.{NoSlash, split_full_name_iff}
use ibdm.Bitbucket.Webhook.{dispatch}

abbrev config : SourceConfig
config = record {
  url = "u";
  access_token = "";
  api_username = "me";
  api_token = "t";
  workspace = "w";
}

abbrev client : Client
client = record { base_url = "u"; access_token = ""; api_username = "me"; api_token = "t" }

abbrev repository : Fields
repository = field "slug" (text "r") (field "full_name" (text "w/r") end)

-- The body of an answer is the URL of its request; the first page of repositories links to "2".
abbrev respond : Request → Result Response
respond req = answer 200 req.url

abbrev decode_page : String → Result (List Fields × String)
decode_page body =
    if body == "u/2.0/repositories/w?pagelen=100"
    then ok (repository ∷ [], "2")
    else if body == "2"
    then ok (repository ∷ [], "")
    else ok ([], "")

abbrev rank : String → ℕ
rank url = if url == "2" then 0 else 1

rank-le : (url : String) → rank url ≤ 1
rank-le url =
    leb→le (rank url) 1 (elim (Bool-cases (url == "2")) [ inl e ↦ rw e refl | inr e ↦ rw e refl ])

abbrev web : Web (List Data)
web = sample_web respond (λ body. ok (field "repository" (object repository) end)) (λ body. ok [])

abbrev types : List (String × Fields)
types = ("repository", end) ∷ []

abbrev repository_sent : Data
repository_sent = record {
  kind = "repository";
  operation = upsert;
  values = field "repository" (object repository) end;
  time = 9;
}

synced :
    start_sync_process web client decode_page false "w" types 3 []
    ≡ some (ok tt, repository_sent ∷ repository_sent ∷ [])
unfolding start_sync_process ◌>>=◌ attempt wrapping each each_live
synced = refl

link_of :
    (values : List Fields) (link : String) (items : List Fields) (next_link : String)
    → ◌≡◌ {A = Result (List Fields × String)} (ok (items, next_link)) (ok (values, link))
    → next_link ≡ link
link_of values link items next_link h = cc

decoded-down :
    (url : String) (values : List Fields) (link : String)
    → decode_page url ≡ ok (values, link)
    → (link ≡ "") ⊎ (rank link < rank url)
decoded-down url values link h = elim (Bool-cases (url == "u/2.0/repositories/w?pagelen=100")) [
  | inl e ↦
      let m = link_of values link (repository ∷ []) "2" (rw e at h) in
      inr (rw (← m, (eq_iff url "u/2.0/repositories/w?pagelen=100").0 e) (ltb→lt 0 1 refl))
  | inr e ↦ elim (Bool-cases (url == "2")) [
    | inl k ↦ inl (sym (link_of values link (repository ∷ []) "" (rw (e, k) at h)))
    | inr k ↦ inl (sym (link_of values link [] "" (rw (e, k) at h)))
  ]
]

links_down :
    (req : Request) (sent : List Data) (resp : Response)
    → (web.send_request req sent).0 ≡ ok resp
    → LinksDown decode_page rank req.url resp
links_down req sent resp h values link d =
    let m : record {
      status = 200;
      header = λ name. if name == "x-total-pages" then "1" else "";
      body = req.url;
    }
        ≡ resp =
      cc in
    decoded-down req.url values link (ap (λ r. decode_page r.body) m ∙ d)

bitbucket_sync-Ended_example :
    Ended
      (λ sent. All (IsSynced types) sent)
      IsReported
      Always
      (start_sync_process web client decode_page false "w" types (1 + 2) [])
bitbucket_sync-Ended_example =
    bitbucket_sync-Ended web client decode_page rank 1 rank-le (λ req sent h. h) links_down types
      (λ d sent h synced. (synced, h)) false "w" [] tt

split_full_name_iff_example :
    (split_full_name "w/r/s" ≡ ("w", "r/s"))
    ↔ (("w/r/s" ≡ concat "w" (concat "/" "r/s")) × NoSlash "w")
split_full_name_iff_example = split_full_name_iff "w/r/s" "w" "r/s" (λ h. cc)

abbrev signing : Signing
signing = record { decode_hex = λ s. some s; mac = λ secret body. concat secret body }

abbrev webhook_config : WebhookConfig
webhook_config = record { webhook_secret = "s"; webhook_path = "/bitbucket/webhook" }

abbrev headers : String → String
headers name =
    if name == "X-Hub-Signature"
    then "sha256=s{}"
    else if name == "X-Event-Key"
    then "repo:push"
    else ""

streamed :
    dispatch web signing client webhook_config types headers "{}" []
    ≡ some (
      ok tt,
      record {
        kind = "repository";
        operation = upsert;
        values = field "repository" (object (field "repository" (object repository) end)) end;
        time = 9;
      }
          ∷ [],
    )
unfolding dispatch ◌>>=◌ attempt wrapping each
streamed = refl
