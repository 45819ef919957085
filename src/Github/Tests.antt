-- ===== src/Github/Tests.antt =====
-- The GitHub source with a server that has one page of one repository, over a world that keeps the
-- data that was sent.
use ibdm.Base.{
  pos, ◌+◌, ◌≤◌, String, ◌≡◌, ◌↔◌, ◌⊎◌, refl, true, false, none, some, List, [], ◌∷◌, Err, message,
  Result, ok, err, lookup, is_some, All, ◌==◌, if◌then◌else◌, wrap,
}
use ibdm.Value.{Fields, text, object, end, field, get_field}
use ibdm.Source.{Data, upsert}
use ibdm.Github.{Config, Client, Request, Response, Env, concat}
use ibdm.Github.Iterator.{Iterator, page, next, has_rel_next}
use ibdm.Github.Sync.{start_sync_process}
use ibdm.Github.Sync.Laws.{start_sync_process-keeps}
use ibdm.Github.Sync.Termination.{start_sync_process-is_some}
use ibdm.Github.Processors.{push_event, process}
use ibdm.Github.Processors.Laws.{IsRequested}
use ibdm.Server.{route_answer}
use ibdm.Server.Laws.{route_answer-handler_iff}
use ibdm.Github.Webhook.{Codecs, handler, dispatch}
use ibdm.Github.Webhook.Effects.{dispatch-keeps}
use ibdm.Github.Webhook.Laws.{handler_iff}

next_link : has_rel_next "<https://api.github.com/a?page=2>; REL=\"next\"" ≡ true
unfolding has_rel_next
next_link = refl

previous_link : has_rel_next "<https://api.github.com/a?page=2>; rel=\"prev\"" ≡ false
unfolding has_rel_next
previous_link = refl

abbrev config : Config
config = record {
  url = "https://api.github.com";
  token = "t";
  org = "o";
  page_size = pos 100;
  webhook_secret = "s";
  webhook_path = "/github/webhook";
}

abbrev client : Client
client = record {
  base_url = config.url;
  org = config.org;
  token = config.token;
  page_size = config.page_size;
}

abbrev repository : Fields
repository = field "name" (text "r") end

abbrev env_with : (List Data → Result Response) → Env (List Data)
env_with answer = record {
  parse_url = λ url. none;
  new_request = λ request. none;
  send_request = λ request sent. (answer sent, sent);
  escape = λ s. s;
  ctx_err = λ sent. none;
  now = λ sent. 1;
  results = λ d sent. d ∷ sent;
  decode_items = λ body. ok (repository ∷ []);
  decode_wrapper = λ body. ok [];
  decode_languages = λ body. ok [];
  unmarshal = λ body. ok (field "repository" (object repository) end);
  zero_float = 0;
  add_float = λ a b. a;
  is_zero_float = λ a. true;
  percent = λ a b. a;
}

abbrev one_page : Env (List Data)
one_page = env_with (λ sent. ok (record { status = 200; header = λ name. ""; body = "" }))

abbrev refusing : Env (List Data)
refusing = env_with (λ sent. ok (record { status = 500; header = λ name. ""; body = "" }))

abbrev types : List (String × Fields)
types = ("repository", end) ∷ []

abbrev repository_sent : Data
repository_sent = record {
  kind = "repository";
  operation = upsert;
  values = field "repository" (object repository) end;
  time = 1;
}

synced : start_sync_process one_page client false 2 2 types [] ≡ some (none, repository_sent ∷ [])
unfolding start_sync_process get_field has_rel_next
synced = refl

abbrev sync_error : Err
sync_error =
    wrap "github source" (wrap "error retrieving assets" (wrap "unexpected status" (message "")))

sync_failed : start_sync_process refusing client false 2 2 types [] ≡ some (some sync_error, [])
unfolding start_sync_process get_field
sync_failed = refl

abbrev first : Iterator
first = page (record { path = "/a"; api_version = "v"; curr_page = 0; done = false })

abbrev exhausted : Iterator
exhausted = page (record { path = "/a"; api_version = "v"; curr_page = 1; done = true })

first_page : (next one_page client first []).0 ≡ ok (repository ∷ [])
unfolding next
first_page = refl

first_error : (next refusing client first []).0 ≡ err (wrap "unexpected status" (message ""))
unfolding next
first_error = refl

-- Everything sent so far is an upsert of a repository.
abbrev Repositories : List Data → Type 0
Repositories sent = All (λ d. (d.operation ≡ upsert) × (is_some (lookup d.kind types) ≡ true)) sent

start_sync_process-keeps_example : Repositories (repository_sent ∷ [])
start_sync_process-keeps_example =
    start_sync_process-keeps one_page client Repositories (λ request sent h. h) types
      (λ d sent h operation requested. ((operation, requested), h)) false 2 2 []
      (repository_sent ∷ []) none tt synced

no_link :
    (request : Request) (sent : List Data) (response : Response)
    → 1 ≤ request.page
    → (one_page.send_request request sent).0 ≡ ok response
    → has_rel_next (response.header "Link") ≡ false
unfolding has_rel_next
no_link request sent response h k =
    let e : record { status = 200; header = λ name. ""; body = "" } ≡ response = cc in rw⁻¹ e refl

start_sync_process-is_some_example :
    is_some (start_sync_process one_page client false (1 + 2) (1 + 2) types []) ≡ true
start_sync_process-is_some_example =
    start_sync_process-is_some one_page client 1 no_link false types []

pushed : (process one_page push_event (some client) types "{}" []).0 ≡ ok (repository_sent ∷ [])
unfolding process lookup get_field
pushed = refl

abbrev codecs : Codecs
codecs = record {
  decode_hex = λ s. some s;
  mac = λ secret body. concat secret body;
  parse_query = λ s. ok [];
  valid_json = λ s. true;
}

abbrev signed : String → String
signed name = if name == "X-Hub-Signature-256" then "sha256=sb" else ""

handler_iff_example :
    (((handler one_page codecs config client types signed "b").0 ≡ none) ↔ (
      (hex : String) × (signed "X-Hub-Signature-256" ≡ concat "sha256=" hex)
      × (codecs.decode_hex hex ≡ some (codecs.mac "s" "b"))))
    × (((handler one_page codecs config client types signed "b").0 ≡ none)
        ⊎ ((sent : List Data)
            → (handler one_page codecs config client types signed "b").1 sent ≡ sent))
handler_iff_example = handler_iff one_page codecs config client types signed "b"

abbrev pushing : String → String
pushing name =
    if name == "X-GitHub-Event"
    then "push"
    else if name == "Content-Type"
    then "application/json"
    else ""

push_sent : dispatch one_page codecs client types pushing "{}" [] ≡ repository_sent ∷ []
unfolding dispatch lookup get_field
push_sent = refl

dispatch-keeps_example :
    All (IsRequested types) (dispatch one_page codecs client types pushing "{}" [])
dispatch-keeps_example =
    dispatch-keeps one_page codecs (λ sent. All (IsRequested types) sent) (λ request sent h. h)
      types (λ d sent h requested. (requested, h)) client pushing "{}" [] tt

answered : (route_answer (handler one_page codecs config client types signed "b").0).status ≡ 204
unfolding route_answer handler
answered = refl

route_answer-handler_iff_example :
    ((route_answer (handler one_page codecs config client types signed "b").0).status ≡ 204) ↔ (
      (hex : String) × (signed "X-Hub-Signature-256" ≡ concat "sha256=" hex)
      × (codecs.decode_hex hex ≡ some (codecs.mac "s" "b")))
route_answer-handler_iff_example =
    route_answer-handler_iff one_page codecs config client types signed "b"
