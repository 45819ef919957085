-- ===== src/Console/Webhook/Laws.antt =====
-- Which requests the webhook accepts, what it does after them, and when that panics.
use ibdm.Base.{
  ℕ, ℤ, String, ◌≡◌, ◌⊎◌, inl, inr, refl, Bool, true, false, ◌&&◌, not, none, some, Option-cases,
  List, [], ◌∷◌, Err, is_canceled, Result, err, contains, All, ◌==◌, eq_iff, eq_refl,
}
use ibdm.Value.{Fields, end, field, get_field, as_text}
use ibdm.Source.{Data, wants}
use ibdm.Effect.{◌>>=◌, attempt, wrapping}
use ibdm.Effect.Laws.{
  Ends, Ended, Always, Ends-bind, Ends-attempt, Ends-wrapping, Ends-if, Ends-pure, Ends-fail,
  Ends-when,
}
use ibdm.Http.{Web, Signing}
use ibdm.Http.Laws.{Ends-emit}
use ibdm.Console.{
  project_resource, configuration_resource, revision_resource, service_resource,
  custom_resource_resource, configuration_chain_types, WebhookConfig, create_service_data,
  create_custom_resource_data, create_revision_data,
}
use ibdm.Console.Laws.{All-filter_types, All-contains, AreServices, IsConfiguration}
use ibdm.Console.Service.{
  Config, handle_error, configuration_request, handled, do_request, get_project, get_configuration,
}
use ibdm.Console.Sync.Laws.{HasText}
use ibdm.Console.Sync.Services.{Ends-or_panic}
use ibdm.Console.Webhook.{
  Folding, Event, get_resource, emit_services, process_configuration_services, emit_types,
  configuration_event_chain, handle_event, dispatch,
}

module _ {W : Type 0} (web : Web W) (c : Config) (folding : Folding) (unix_milli : ℤ → ℕ)
    (types : List (String × Fields)) where
  -- What an event sends: a type that is asked for, or the resource of the event.
  abbrev pub IsStreamed : Event → Data → Type 0
  IsStreamed ev d = (wants d.kind types ≡ true) ⊎ (d.kind ≡ get_resource folding ev)

  module _ {I : W → Type 0}
      (project : (id : String) → Ends I Always (HasText "defaultBranch") (get_project web c id))
      (configuration : (id revision : String)
        → Ends I Always IsConfiguration (get_configuration web c id revision)) where
    emit_services-Ends :
        (ev : Event)
        → ((d : Data) (w : W) → I w → IsStreamed ev d → I (web.results d w))
        → (proj : Fields) (revision_name : String) (sync_services sync_custom_resources : Bool)
        → (sync_services ≡ true → wants service_resource types ≡ true)
        → (sync_custom_resources ≡ true → wants custom_resource_resource types ≡ true)
        → (services : Fields) → AreServices services
        → Ends I Always Always (
            emit_services web c folding unix_milli proj revision_name ev sync_services
              sync_custom_resources services)
    unfolding emit_services create_service_data create_custom_resource_data
    emit_services-Ends ev sends proj revision_name s r ask_s ask_r end are = Ends-pure tt tt
    emit_services-Ends ev sends proj revision_name s r ask_s ask_r (field k svc services)
          ((m, (valid, (custom, o, p, q))), are) =
        Ends-bind {Gives = λ n. n ≡ m} (Ends-or_panic _ m o refl) λ n same.
          Ends-bind {Gives = λ b. b ≡ true → wants service_resource types ≡ true}
            (Ends-if s (λ e. Ends-or_panic _ valid (rw same p) (λ _. ask_s e))
              (λ _. Ends-pure false (λ h. cc)))
            λ service ask.
              Ends-bind {Gives = Always}
                (Ends-when service (λ e. Ends-emit web _ λ w i. sends _ w i (inl (ask e))))
                λ _ _.
                  Ends-bind {Gives = λ b. b ≡ true → wants custom_resource_resource types ≡ true}
                    (Ends-if r (λ e. Ends-or_panic _ custom (rw same q) (λ _. ask_r e))
                      (λ _. Ends-pure false (λ h. cc)))
                    λ b ask_b.
                      Ends-bind {Gives = Always}
                        (Ends-when b (λ e. Ends-emit web _ λ w i. sends _ w i (inl (ask_b e))))
                        λ _ _.
                          emit_services-Ends ev sends proj revision_name s r ask_s ask_r services
                            are

    emit_types-Ends :
        (ev : Event)
        → ((d : Data) (w : W) → I w → IsStreamed ev d → I (web.results d w))
        → (proj : Fields) (revision_name : String) (subtypes : List String)
        → All (λ t. wants t types ≡ true) subtypes
        → Ends I Always Always (emit_types web c folding unix_milli proj revision_name ev subtypes)
    unfolding emit_types create_revision_data
    emit_types-Ends ev sends proj revision_name [] a = Ends-pure tt tt
    emit_types-Ends ev sends proj revision_name (t ∷ subtypes) (asked, a) =
        Ends-bind {Gives = Always}
          (Ends-if (t == project_resource)
            (λ k.
              Ends-emit web _
                λ w i. sends _ w i (inl (rw (← (eq_iff t project_resource).0 k) asked)))
            (λ _. Ends-when (t == revision_resource) (λ k.
              Ends-emit web _
                λ w i. sends _ w i (inl (rw (← (eq_iff t revision_resource).0 k) asked)))))
          λ _ _. emit_types-Ends ev sends proj revision_name subtypes a

    process_configuration_services-Ends :
        (ev : Event)
        → ((d : Data) (w : W) → I w → IsStreamed ev d → I (web.results d w))
        → (proj : Fields) → HasText "defaultBranch" proj
        → (project_id revision_name : String) (subtypes : List String)
        → All (λ t. wants t types ≡ true) subtypes
        → Ends I Always Always (
            process_configuration_services web c folding unix_milli proj project_id revision_name ev
              subtypes)
    unfolding process_configuration_services
    process_configuration_services-Ends ev sends proj (branch, e) project_id revision_name subtypes
          a =
        Ends-if
          (not (contains subtypes service_resource)
            && not (contains subtypes custom_resource_resource))
          (λ _. Ends-pure tt tt)
          λ _. Ends-bind {Gives = Always} (Ends-or_panic _ branch e tt) λ default_branch _.
            Ends-if (not (revision_name == default_branch)) (λ _. Ends-pure tt tt)
              λ _.
                Ends-bind (Ends-wrapping _ (λ _ _. tt) (configuration project_id revision_name))
                  λ conf (services, f, are).
                    Ends-bind {Gives = λ s. s ≡ services} (Ends-or_panic _ services f refl)
                      λ s same. rw same (
                        emit_services-Ends ev sends proj revision_name _ _
                          (All-contains _ subtypes service_resource a)
                          (All-contains _ subtypes custom_resource_resource a) services are)

    configuration_event_chain-Ends :
        (ev : Event)
        → ((d : Data) (w : W) → I w → IsStreamed ev d → I (web.results d w))
        → (subtypes : List String) → All (λ t. wants t types ≡ true) subtypes
        → Ends I Always Always (configuration_event_chain web c folding unix_milli ev subtypes)
    unfolding configuration_event_chain
    configuration_event_chain-Ends ev sends subtypes a = elim (Option-cases ev.payload) [
      | inl e ↦ rw (e, configuration_event_chain) (Ends-fail _ tt)
      | inr (payload, e) ↦ elim (Option-cases (as_text (get_field "projectId" payload))) [
        | inl f ↦ rw (e, f, configuration_event_chain) (Ends-fail _ tt)
        | inr (id, f) ↦ elim (Option-cases (as_text (get_field "revisionName" payload))) [
          | inl g ↦ rw (e, f, g, configuration_event_chain) (Ends-fail _ tt)
          | inr (revision_name, g) ↦
              rw (e, f, g, configuration_event_chain)
                (Ends-bind (Ends-wrapping _ (λ _ _. tt) (project id)) λ proj has.
                  Ends-bind {Gives = Always}
                    (emit_types-Ends ev sends proj revision_name subtypes a)
                    λ _ _.
                      process_configuration_services-Ends ev sends proj has id revision_name
                        subtypes a)
        ]
      ]
    ]

    -- When the Console answers with a project that has a default branch and with a configuration as the
    -- code asserts it, the processing of an event ends without a panic; and what the requests keep of
    -- the world, and every datum of a type that is asked for or of the resource of the event, holds
    -- after it if it held before.
    pub console_dispatch-Ended :
        (ev : Event)
        → ((d : Data) (w : W) → I w → IsStreamed ev d → I (web.results d w))
        → (signing : Signing) (config : WebhookConfig) (decode_event : String → Result Event)
        → (w : W) → I w
        → Ended I
            (λ e. ⊥)
            Always
            (dispatch web c folding unix_milli signing config decode_event types ev w)
    unfolding handle_event
    console_dispatch-Ended ev sends signing config decode_event w i =
        (Ends-bind
            (Ends-attempt {Handled = Always} {Gives = Always} (
              Ends-if (get_resource folding ev == configuration_resource)
                (λ _.
                  Ends-wrapping _ (λ _ _. tt)
                    (configuration_event_chain-Ends ev sends _
                      (All-filter_types configuration_chain_types types)))
                (λ _. Ends-emit web _ λ w i. sends _ w i (inr refl))))
            λ _ _. Ends-pure tt tt).run
          w i

  -- A configuration whose request is cancelled counts as an empty one, without an error: when services
  -- are asked for, and the revision is the default branch, the processing panics.
  pub process_configuration_services-canceled :
      (project : Fields) (project_id revision_name : String) (ev : Event) (subtypes : List String)
      → contains subtypes service_resource ≡ true
      → as_text (get_field "defaultBranch" project) ≡ some revision_name
      → (w w' : W) (e : Err)
      → web.new_request (configuration_request web c project_id revision_name) ≡ none
      → web.send_request (configuration_request web c project_id revision_name) w ≡ (err e, w')
      → is_canceled e ≡ true
      → process_configuration_services web c folding unix_milli project project_id revision_name ev
          subtypes w
        ≡ none
  unfolding process_configuration_services get_configuration do_request handled handle_error ◌>>=◌
      attempt wrapping
  process_configuration_services-canceled project project_id revision_name ev subtypes asked branch
        w w' e created sent canceled =
      rw
        (
          asked,
          branch,
          eq_refl revision_name,
          process_configuration_services,
          ◌>>=◌,
          wrapping,
          get_configuration,
          do_request,
          created,
          attempt,
          sent,
          handled,
          handle_error,
          canceled,
        )
        refl
