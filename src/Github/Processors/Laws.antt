-- ===== src/Github/Processors/Laws.antt =====
-- What the processors make of an event.
use ibdm.Base.{
  String, ◌≡◌, refl, true, Bool-cases, Option, none, some, Option-cases, List, inl, inr, Result,
  Result-cases, ok, err, lookup, is_some, All, ◌==◌,
}
use ibdm.Value.{Fields, get_field, put_field, object, singleton, text_or_empty}
use ibdm.Source.{Data}
use ibdm.Github.{Client, Env, add_languages, get_repository_languages, api_version_from_extra}
use ibdm.Github.Sync.{repository_type, workflow_run_type}
use ibdm.Github.Processors.{
  action_to_operation, pat_action_to_operation, workflow_run_action_to_operation,
  personal_access_token_request_type, workflow_dispatch_type, parse_action_event, parse_push_event,
  parse_workflow_dispatch_event, maybe_languages, process_repository_event, process_push_event,
  process_personal_access_token_request, process_workflow_dispatch, process_workflow_run, Processor,
  repository_event, push_event, personal_access_token_request, workflow_dispatch, workflow_run,
  process,
}

-- Of a type that is asked for, with the object of the event under the name of its type.
abbrev pub IsRequested : List (String × Fields) → Data → Type 0
IsRequested types d =
    (is_some (lookup d.kind types) ≡ true) × (is_some (get_field d.kind d.values) ≡ true)

abbrev Requested : {W : Type 0} → List (String × Fields) → Result (List Data) × W → Type 0
Requested types (err e, w) = Unit
Requested types (ok ds, w) = All (IsRequested types) ds

is_some-eq : {A : Type 0} (o : Option A) (a : A) → o ≡ some a → is_some o ≡ true
is_some-eq o a h = rw h refl

Requested-ok :
    {W : Type 0} (types : List (String × Fields)) (r : Result (List Data) × W) (ds : List Data)
    → r.0 ≡ ok ds
    → Requested types r
    → All (IsRequested types) ds
Requested-ok types (err e, w) ds h k = cc
Requested-ok types (ok es, w) ds h k = (let l : es ≡ ds = cc in rw⁻¹ l k)

module _ {W : Type 0} (env : Env W) where
  add_languages-repository :
      (c : Client) (repo : Fields) (version : String) (w : W)
      → is_some (
          get_field repository_type
            (add_languages env c repo version (singleton repository_type (object repo)) w).0)
        ≡ true
  unfolding add_languages get_field put_field
  add_languages-repository c repo version w =
      let full_name = text_or_empty (get_field "full_name" repo) in
      elim (Bool-cases (full_name == "")) [
        | inl e ↦ rw (e, add_languages) refl
        | inr e ↦ elim (Result-cases (get_repository_languages env c full_name version w).0) [
          | inl (langs, k) ↦ rw (e, k, add_languages) refl
          | inr (f, k) ↦ rw (e, k, add_languages) refl
        ]
      ]

  maybe_languages-repository :
      (client : Option Client) (extra repo : Fields) (w : W)
      → is_some (get_field repository_type (maybe_languages env client extra repo w).0) ≡ true
  unfolding get_field
  maybe_languages-repository none extra repo w = refl
  maybe_languages-repository (some c) extra repo w =
      add_languages-repository c repo (api_version_from_extra extra) w

  repository-Requested :
      (client : Option Client) (types : List (String × Fields)) (body : String) (w : W)
      → Requested types (process_repository_event env client types body w)
  unfolding process_repository_event
  repository-Requested client types body w = elim (Option-cases (lookup repository_type types)) [
    | inl e ↦ rw (e, process_repository_event) tt
    | inr (extra, e) ↦ elim (Result-cases (parse_action_event env "repository" body)) [
      | inr (f, k) ↦ rw (e, k, process_repository_event) tt
      | inl ((action, repo), k) ↦ elim (Option-cases (lookup action action_to_operation)) [
        | inl l ↦ rw (e, k, l, process_repository_event) tt
        | inr (operation, l) ↦
            rw (e, k, l, process_repository_event)
              ((is_some-eq _ extra e, maybe_languages-repository client extra repo w), tt)
      ]
    ]
  ]

  push-Requested :
      (client : Option Client) (types : List (String × Fields)) (body : String) (w : W)
      → Requested types (process_push_event env client types body w)
  unfolding process_push_event
  push-Requested client types body w = elim (Option-cases (lookup repository_type types)) [
    | inl e ↦ rw (e, process_push_event) tt
    | inr (extra, e) ↦ elim (Result-cases (parse_push_event env body)) [
      | inr (f, k) ↦ rw (e, k, process_push_event) tt
      | inl (repo, k) ↦
          rw (e, k, process_push_event)
            ((is_some-eq _ extra e, maybe_languages-repository client extra repo w), tt)
    ]
  ]

  request-Requested :
      (types : List (String × Fields)) (body : String) (w : W)
      → Requested types (process_personal_access_token_request env types body w)
  unfolding process_personal_access_token_request get_field
  request-Requested types body w =
      elim (Option-cases (lookup personal_access_token_request_type types)) [
        | inl e ↦ rw (e, process_personal_access_token_request) tt
        | inr (extra, e) ↦
            elim (Result-cases (parse_action_event env "personal_access_token_request" body)) [
              | inr (f, k) ↦ rw (e, k, process_personal_access_token_request) tt
              | inl ((action, o), k) ↦ elim (Option-cases (lookup action pat_action_to_operation)) [
                | inl l ↦ rw (e, k, l, process_personal_access_token_request) tt
                | inr (operation, l) ↦
                    rw (e, k, l, process_personal_access_token_request)
                      ((is_some-eq _ extra e, refl), tt)
              ]
            ]
      ]

  dispatch-Requested :
      (types : List (String × Fields)) (body : String) (w : W)
      → Requested types (process_workflow_dispatch env types body w)
  unfolding process_workflow_dispatch get_field
  dispatch-Requested types body w = elim (Option-cases (lookup workflow_dispatch_type types)) [
    | inl e ↦ rw (e, process_workflow_dispatch) tt
    | inr (extra, e) ↦ elim (Result-cases (parse_workflow_dispatch_event env body)) [
      | inr (f, k) ↦ rw (e, k, process_workflow_dispatch) tt
      | inl (payload, k) ↦ rw (e, k, process_workflow_dispatch) ((is_some-eq _ extra e, refl), tt)
    ]
  ]

  run-Requested :
      (types : List (String × Fields)) (body : String) (w : W)
      → Requested types (process_workflow_run env types body w)
  unfolding process_workflow_run get_field
  run-Requested types body w = elim (Option-cases (lookup workflow_run_type types)) [
    | inl e ↦ rw (e, process_workflow_run) tt
    | inr (extra, e) ↦ elim (Result-cases (parse_action_event env "workflow_run" body)) [
      | inr (f, k) ↦ rw (e, k, process_workflow_run) tt
      | inl ((action, o), k) ↦
          elim (Option-cases (lookup action workflow_run_action_to_operation)) [
            | inl l ↦ rw (e, k, l, process_workflow_run) tt
            | inr (operation, l) ↦
                rw (e, k, l, process_workflow_run) ((is_some-eq _ extra e, refl), tt)
          ]
    ]
  ]

  process-Requested :
      (p : Processor) (client : Option Client) (types : List (String × Fields)) (body : String)
      (w : W)
      → Requested types (process env p client types body w)
  unfolding process
  process-Requested repository_event client types body w = repository-Requested client types body w
  process-Requested push_event client types body w = push-Requested client types body w
  process-Requested personal_access_token_request client types body w =
      request-Requested types body w
  process-Requested workflow_dispatch client types body w = dispatch-Requested types body w
  process-Requested workflow_run client types body w = run-Requested types body w

  -- Whatever the event and the payload, all data of a processor has a type that is asked for and
  -- holds a value under the name of that type.
  pub process-IsRequested :
      (p : Processor) (client : Option Client) (types : List (String × Fields)) (body : String)
      (w : W) (ds : List Data)
      → (process env p client types body w).0 ≡ ok ds
      → All (IsRequested types) ds
  process-IsRequested p client types body w ds h =
      Requested-ok types (process env p client types body w) ds h
        (process-Requested p client types body w)
