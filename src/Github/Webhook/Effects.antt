-- ===== src/Github/Webhook/Effects.antt =====
-- What the processing of an event does to the world.
use ibdm.Base.{
  String, Option, none, some, Option-cases, List, [], ◌∷◌, inl, inr, Result-cases, lookup, All,
}
use ibdm.Value.{Fields, object, singleton}
use ibdm.Source.{Data}
use ibdm.Github.{Client, Request, Env, api_version_from_extra}
use ibdm.Github.Sync.{repository_type, workflow_run_type}
use ibdm.Github.Sync.Effects.{add_languages-keeps}
use ibdm.Github.Processors.{
  action_to_operation, pat_action_to_operation, workflow_run_action_to_operation,
  personal_access_token_request_type, workflow_dispatch_type, parse_action_event, parse_push_event,
  parse_workflow_dispatch_event, maybe_languages, process_repository_event, process_push_event,
  process_personal_access_token_request, process_workflow_dispatch, process_workflow_run, Processor,
  repository_event, push_event, personal_access_token_request, workflow_dispatch, workflow_run,
  process, event_processors,
}
use ibdm.Github.Processors.Laws.{IsRequested, process-IsRequested}
use ibdm.Github.Webhook.{Codecs, dispatch, send_all, extract_json_body}

module _ {W : Type 0} (env : Env W) (I : W → Type 0)
    (requests : (req : Request) (w : W) → I w → I (env.send_request req w).1) where
  maybe_languages-keeps :
      (client : Option Client) (extra repo : Fields) (w : W)
      → I w
      → I (maybe_languages env client extra repo w).1
  maybe_languages-keeps none extra repo w h = h
  maybe_languages-keeps (some c) extra repo w h =
      add_languages-keeps env c I requests repo (api_version_from_extra extra)
        (singleton repository_type (object repo)) w h

  repository-keeps :
      (client : Option Client) (types : List (String × Fields)) (body : String) (w : W)
      → I w
      → I (process_repository_event env client types body w).1
  unfolding process_repository_event
  repository-keeps client types body w h = elim (Option-cases (lookup repository_type types)) [
    | inl e ↦ rw (e, process_repository_event) h
    | inr (extra, e) ↦ elim (Result-cases (parse_action_event env "repository" body)) [
      | inr (f, k) ↦ rw (e, k, process_repository_event) h
      | inl ((action, o), k) ↦ elim (Option-cases (lookup action action_to_operation)) [
        | inl l ↦ rw (e, k, l, process_repository_event) h
        | inr (operation, l) ↦
            rw (e, k, l, process_repository_event) (maybe_languages-keeps client extra o w h)
      ]
    ]
  ]

  push-keeps :
      (client : Option Client) (types : List (String × Fields)) (body : String) (w : W)
      → I w
      → I (process_push_event env client types body w).1
  unfolding process_push_event
  push-keeps client types body w h = elim (Option-cases (lookup repository_type types)) [
    | inl e ↦ rw (e, process_push_event) h
    | inr (extra, e) ↦ elim (Result-cases (parse_push_event env body)) [
      | inr (f, k) ↦ rw (e, k, process_push_event) h
      | inl (o, k) ↦ rw (e, k, process_push_event) (maybe_languages-keeps client extra o w h)
    ]
  ]

  request-keeps :
      (types : List (String × Fields)) (body : String) (w : W)
      → I w
      → I (process_personal_access_token_request env types body w).1
  unfolding process_personal_access_token_request
  request-keeps types body w h =
      elim (Option-cases (lookup personal_access_token_request_type types)) [
        | inl e ↦ rw (e, process_personal_access_token_request) h
        | inr (extra, e) ↦
            elim (Result-cases (parse_action_event env "personal_access_token_request" body)) [
              | inr (f, k) ↦ rw (e, k, process_personal_access_token_request) h
              | inl ((action, o), k) ↦ elim (Option-cases (lookup action pat_action_to_operation)) [
                | inl l ↦ rw (e, k, l, process_personal_access_token_request) h
                | inr (operation, l) ↦ rw (e, k, l, process_personal_access_token_request) h
              ]
            ]
      ]

  workflow_dispatch-keeps :
      (types : List (String × Fields)) (body : String) (w : W)
      → I w
      → I (process_workflow_dispatch env types body w).1
  unfolding process_workflow_dispatch
  workflow_dispatch-keeps types body w h =
      elim (Option-cases (lookup workflow_dispatch_type types)) [
        | inl e ↦ rw (e, process_workflow_dispatch) h
        | inr (extra, e) ↦ elim (Result-cases (parse_workflow_dispatch_event env body)) [
          | inr (f, k) ↦ rw (e, k, process_workflow_dispatch) h
          | inl (o, k) ↦ rw (e, k, process_workflow_dispatch) h
        ]
      ]

  run-keeps :
      (types : List (String × Fields)) (body : String) (w : W)
      → I w
      → I (process_workflow_run env types body w).1
  unfolding process_workflow_run
  run-keeps types body w h = elim (Option-cases (lookup workflow_run_type types)) [
    | inl e ↦ rw (e, process_workflow_run) h
    | inr (extra, e) ↦ elim (Result-cases (parse_action_event env "workflow_run" body)) [
      | inr (f, k) ↦ rw (e, k, process_workflow_run) h
      | inl ((action, o), k) ↦
          elim (Option-cases (lookup action workflow_run_action_to_operation)) [
            | inl l ↦ rw (e, k, l, process_workflow_run) h
            | inr (operation, l) ↦ rw (e, k, l, process_workflow_run) h
          ]
    ]
  ]

  process-keeps :
      (p : Processor) (client : Option Client) (types : List (String × Fields)) (body : String)
      (w : W)
      → I w
      → I (process env p client types body w).1
  unfolding process
  process-keeps repository_event client types body w h = repository-keeps client types body w h
  process-keeps push_event client types body w h = push-keeps client types body w h
  process-keeps personal_access_token_request client types body w h = request-keeps types body w h
  process-keeps workflow_dispatch client types body w h = workflow_dispatch-keeps types body w h
  process-keeps workflow_run client types body w h = run-keeps types body w h

send_all-keeps :
    {W : Type 0} (env : Env W) (codecs : Codecs) (I : W → Type 0) (Good : Data → Type 0)
    → ((d : Data) (w : W) → I w → Good d → I (env.results d w))
    → (ds : List Data) (w : W) → All Good ds
    → I w
    → I (send_all env codecs ds w)
send_all-keeps env codecs I Good sends [] w a h = h
send_all-keeps env codecs I Good sends (d ∷ ds) w (g, a) h =
    send_all-keeps env codecs I Good sends ds (env.results d w) a (sends d w h g)

-- A predicate of the world that every request keeps, and that sending data of a type that is asked
-- for keeps, holds after an accepted event is processed if it held before, whatever the event is.
pub dispatch-keeps :
    {W : Type 0} (env : Env W) (codecs : Codecs) (I : W → Type 0)
    → ((req : Request) (w : W) → I w → I (env.send_request req w).1)
    → (types : List (String × Fields))
    → ((d : Data) (w : W) → I w → IsRequested types d → I (env.results d w))
    → (c : Client) (headers : String → String) (body : String) (w : W) → I w
    → I (dispatch env codecs c types headers body w)
unfolding dispatch
dispatch-keeps env codecs I requests types sends c headers body w h =
    elim (Option-cases (lookup (headers "X-GitHub-Event") event_processors)) [
      | inl e ↦ rw (e, dispatch) h
      | inr (p, e) ↦ elim (Option-cases (extract_json_body codecs headers body)) [
        | inl k ↦ rw (e, k, dispatch) h
        | inr (json, k) ↦
            let after = process-keeps env I requests p (some c) types json w h in
            elim (Result-cases (process env p (some c) types json w).0) [
              | inr (f, l) ↦ rw (e, k, l, dispatch) after
              | inl (ds, l) ↦
                  rw (e, k, l, dispatch)
                    (send_all-keeps env codecs I (IsRequested types) sends ds _
                      (process-IsRequested env p (some c) types json w ds l) after)
            ]
      ]
    ]
