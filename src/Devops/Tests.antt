-- ===== src/Devops/Tests.antt =====
-- The Azure DevOps source with a server that has two pages of one team each.
use ibdm.Base.{
  ℕ, ◌+◌, ◌≤◌, String, ◌≡◌, ◌↔◌, ◌⊎◌, inl, inr, refl, sym, ap, Bool, Bool-cases, true, false,
  Option, none, some, List, [], ◌∷◌, map, Result, ok, err, lookup, is_some, All, ◌==◌,
  if◌then◌else◌, leb→le, ltb→lt,
}
use ibdm.Value.{Fields, text, slice, nil, cons, object, end, field}
use ibdm.Source.{Data, delete}
use ibdm.Effect.{◌>>=◌, attempt, each, pure}
use ibdm.Effect.Laws.{Ended, Always}
use ibdm.Http.{Web, Request, Response}
use ibdm.Http.Sample.{sample_web}
use ibdm.Devops.{Config, set_param, first_request, continuation_header, start_sync_process}
use ibdm.Devops.Webhook.{Texts, dispatch, webhook_handler}
use ibdm.Devops.Laws.{TokensDown, IsSynced, IsReported, devops_sync-Ended}
use ibdm.Devops.Webhook.Stream.{IsEvent, IsNaming, IsItem, devops_dispatch-cases}
use ibdm.Devops.Webhook.Laws.{IsAuthorized, webhook_handler_iff}

abbrev config : Config
config = record {
  organization_url = "https://d";
  personal_token = "t";
  webhook_path = "/azure-devops/webhook";
  webhook_user = "u";
  webhook_password = "p";
}

abbrev has_token : List (String × String) → Bool
has_token query_param = is_some (lookup "continuationToken" query_param)

-- Only the first page names another one.
abbrev page : Bool → Response
page last = record {
  status = 200;
  header = λ name. if last then "" else if name == continuation_header then "next" else "";
  body = "";
}

abbrev respond : Request → Result Response
respond req = ok (page (has_token req.query))

abbrev event : Fields
event =
    field "eventType" (text "git.repo.deleted")
      (field "resource" (object (field "repository" (object end) end)) end)

abbrev web : Web (List Data)
web = sample_web respond (λ body. ok event) (λ body. ok [])

abbrev decode_results : String → Result (List Fields)
decode_results body = ok (end ∷ [])

abbrev types : List (String × Fields)
types = ("gitrepository", field "eventNames" (slice (cons (text "git.repo.deleted") nil)) end) ∷ []

number_of : {A : Type 0} → Option (Result A × List Data) → List String
number_of none = []
number_of (some (r, sent)) = map (λ d. d.kind) sent

synced :
    number_of (start_sync_process web config decode_results false types 2 [])
    ≡ "gitrepository" ∷ "gitrepository" ∷ []
unfolding start_sync_process ◌>>=◌ attempt each number_of lookup
synced = refl

abbrev rank : List (String × String) → ℕ
rank query_param = if has_token query_param then 0 else 1

rank-le : (type_string : String) → rank (first_request type_string).1 ≤ 1
unfolding lookup
rank-le type_string =
    leb→le (rank (first_request type_string).1) 1
      (elim (Bool-cases (has_token (first_request type_string).1)) [
        | inl e ↦ rw e refl
        | inr e ↦ rw e refl
      ])

has_token-set_param :
    (v : String) (query_param : List (String × String))
    → has_token (set_param "continuationToken" v query_param) ≡ true
unfolding lookup set_param
has_token-set_param v [] = refl
has_token-set_param v ((j, u) ∷ params) = elim (Bool-cases (j == "continuationToken")) [
  | inl e ↦ rw (e, set_param, lookup) refl
  | inr e ↦ rw (e, set_param, lookup, e) (has_token-set_param v params)
]

token_of : Result Response → String
token_of (ok resp) = resp.header continuation_header
token_of (err e) = ""

tokens_down : TokensDown web config decode_results rank
unfolding token_of
tokens_down path query_param sent resp e = elim (Bool-cases (has_token query_param)) [
  | inl k ↦ inl (sym (ap token_of (rw k at e)))
  | inr k ↦
      inr (
        rw (k, has_token-set_param (resp.header continuation_header) query_param) (ltb→lt 0 1 refl))
]

devops_sync-Ended_example :
    Ended
      (λ sent. All (IsSynced types) sent)
      IsReported
      Always
      (start_sync_process web config decode_results false types (1 + 1) [])
devops_sync-Ended_example =
    devops_sync-Ended web config decode_results rank 1 rank-le tokens_down (λ req sent h. h) false
      types (λ d sent h synced. (synced, h)) [] tt

-- The texts are in lower case, and the header has one space.
abbrev texts : Texts
texts = record {
  fields = λ header. if header == "basic u:p" then "basic" ∷ "u:p" ∷ [] else [];
  equal_fold = λ a b. a == b;
  encode = λ s. s;
  sha256 = λ s. s;
  parse_nano = λ s. none;
}

streamed :
    dispatch web texts types "" []
    ≡ some
        (ok tt, record { kind = "gitrepository"; operation = delete; values = end; time = 9 } ∷ [])
unfolding dispatch ◌>>=◌
streamed = refl

devops_dispatch-cases_example :
    ((¬ (
        (event_type : String) × (resource : Fields) × IsEvent web.decode_object "" event_type
          resource))
      × (dispatch web texts types "" [] ≡ some (ok tt, [])))
    ⊎ ((event_type : String) × (resource : Fields) × IsEvent web.decode_object "" event_type
          resource
        × ((All (λ entry. ¬ IsNaming texts event_type entry) types
              × (dispatch web texts types "" [] ≡ some (ok tt, [])))
            ⊎ ((d : Data) × IsItem texts types 9 event_type resource d
                × (dispatch web texts types "" [] ≡ some (ok tt, d ∷ [])))))
devops_dispatch-cases_example = devops_dispatch-cases web texts types "" []

webhook_handler_iff_example :
    (((webhook_handler web texts config types (some ("basic u:p", [])) "").0 ≡ none)
      ↔ IsAuthorized texts config (some ("basic u:p", [])))
    × (((webhook_handler web texts config types (some ("basic u:p", [])) "").0 ≡ none)
        ⊎ ((webhook_handler web texts config types (some ("basic u:p", [])) "").1 ≡ pure tt))
webhook_handler_iff_example = webhook_handler_iff web texts types config (some ("basic u:p", [])) ""
