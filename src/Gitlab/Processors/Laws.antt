-- ===== src/Gitlab/Processors/Laws.antt =====
-- What the processors make of an event.
use ibdm.Base.{
  String, ◌≡◌, refl, Bool, true, false, not, Option, none, some, List, [], ◌∷◌, ◌⊎◌, inl, inr,
  Result, All, is_some, ◌==◌,
}
use ibdm.Value.{as_float64, Fields, get_field, as_object}
use ibdm.Source.{Data, upsert, wants}
use ibdm.Effect.Laws.{Ends, Always, Ends-bind, Ends-if, Ends-lift, Ends-pure, Ends-fail}
use ibdm.Http.{Web, Request}
use ibdm.Http.Laws.{Ends-clock}
use ibdm.Gitlab.{SourceConfig}
use ibdm.Gitlab.Laws.{get_project-Ends, get_project_languages-Ends, get_pipeline-Ends}
use ibdm.Gitlab.Sync.{project_resource, pipeline_resource, project_wrapper}
use ibdm.Http.Laws.{HasKeys}
use ibdm.Gitlab.Sync.Laws.{parsed_or_now-Ends}
use ibdm.Gitlab.Processors.{
  PipelineEvent, PushEvent, require, parse_pipeline_event, parse_push_event, process_pipeline_event,
  process_push_event, EventProcessor, pipeline_event_processor, push_event_processor, process,
}

-- An upsert of a type that is asked for; with a pipeline, its project is asked for too.
abbrev pub IsStreamed : List (String × Fields) → Data → Type 0
IsStreamed types d =
    (d.operation ≡ upsert)
    × (wants project_resource types ≡ true)
    × (((d.kind ≡ project_resource) × HasKeys ("project" ∷ "project_languages" ∷ []) d)
        ⊎ ((d.kind ≡ pipeline_resource)
            × (wants pipeline_resource types ≡ true)
            × HasKeys ("project" ∷ "pipeline" ∷ []) d))

-- The project of an event as `project_wrapper` makes it.
abbrev IsWrapped : Fields → Type 0
IsWrapped m =
    (is_some (get_field "project" m) ≡ true) × (is_some (get_field "project_languages" m) ≡ true)

not-false : (b : Bool) → not b ≡ false → b ≡ true
not-false true h = refl
not-false false h = cc

module _ {W : Type 0} (web : Web W) (c : SourceConfig) {I : W → Type 0}
    (requests : (req : Request) (w : W) → I w → I (web.send_request req w).1) where
  require-Ends :
      {A : Type 0} (problem : String) (o : Option A)
      → Ends I Always Always (require web c problem o)
  require-Ends problem none = Ends-fail _ tt
  require-Ends problem (some a) = Ends-pure a tt

  parse_pipeline_event-Ends :
      (body : String)
      → Ends I Always
          (λ (ev : PipelineEvent). IsWrapped ev.project)
          (parse_pipeline_event web c body)
  unfolding parse_pipeline_event project_wrapper get_field
  parse_pipeline_event-Ends body =
      Ends-bind {Gives = Always} (Ends-lift (web.decode_object body) (λ _ _. tt) (λ _ _. tt))
        λ payload _.
          Ends-bind (require-Ends _ (as_object (get_field "project" payload))) λ project _.
            Ends-bind (require-Ends _ (as_float64 (get_field "id" project))) λ bits _.
              Ends-bind (require-Ends _ (as_object (get_field "object_attributes" payload)))
                λ attributes _.
                  Ends-bind (require-Ends _ (as_float64 (get_field "id" attributes))) λ id _.
                    Ends-bind (get_project-Ends web c requests (λ _ _ _ _. tt) (web.int_of bits))
                      λ full _.
                        Ends-bind (get_project_languages-Ends web c requests (λ _ _ _ _. tt) _)
                          λ langs _.
                            Ends-bind (get_pipeline-Ends web c requests (λ _ _ _ _. tt) _ _)
                              λ pipeline _. Ends-pure _ (refl, refl)

  parse_push_event-Ends :
      (body : String)
      → Ends I Always (λ (ev : PushEvent). IsWrapped ev.project) (parse_push_event web c body)
  unfolding parse_push_event project_wrapper get_field
  parse_push_event-Ends body =
      Ends-bind {Gives = Always} (Ends-lift (web.decode_object body) (λ _ _. tt) (λ _ _. tt))
        λ payload _.
          Ends-bind (require-Ends _ (as_float64 (get_field "project_id" payload))) λ bits _.
            Ends-bind (get_project-Ends web c requests (λ _ _ _ _. tt) (web.int_of bits)) λ full _.
              Ends-bind (get_project_languages-Ends web c requests (λ _ _ _ _. tt) _)
                λ langs _. Ends-pure _ (refl, refl)

  module _ (decode_object_kind : String → Result String) (types : List (String × Fields)) where
    process_pipeline_event-Ends :
        (body : String)
        → Ends I Always
            (All (IsStreamed types))
            (process_pipeline_event web c decode_object_kind types body)
    unfolding process_pipeline_event get_field
    process_pipeline_event-Ends body =
        Ends-bind {Gives = Always} (Ends-lift (decode_object_kind body) (λ _ _. tt) (λ _ _. tt))
          λ kind _.
            Ends-if (not (kind == "pipeline")) (λ _. Ends-pure [] tt)
              λ _. Ends-bind (parse_pipeline_event-Ends body) λ ev (p, l).
                Ends-if (not (wants project_resource types)) (λ _. Ends-pure [] tt)
                  λ a. Ends-bind (parsed_or_now-Ends web _) λ first _.
                    Ends-if (not (wants pipeline_resource types)) (λ _. Ends-pure [] tt)
                      λ b. Ends-bind (parsed_or_now-Ends web _) λ second _. Ends-pure _ (
                        (refl, not-false _ a, inl (refl, (p, (l, tt)))),
                        ((refl, not-false _ a, inr (refl, not-false _ b, (refl, (refl, tt)))), tt),
                      )

    process_push_event-Ends :
        (body : String)
        → Ends I Always
            (All (IsStreamed types))
            (process_push_event web c decode_object_kind types body)
    unfolding process_push_event get_field
    process_push_event-Ends body =
        Ends-bind {Gives = Always} (Ends-lift (decode_object_kind body) (λ _ _. tt) (λ _ _. tt))
          λ kind _.
            Ends-if (not (kind == "push")) (λ _. Ends-pure [] tt)
              λ _. Ends-bind (parse_push_event-Ends body) λ ev (p, l).
                Ends-if (not (wants project_resource types)) (λ _. Ends-pure [] tt)
                  λ a.
                    Ends-bind (Ends-clock web)
                      λ time _. Ends-pure _ ((refl, not-false _ a, inl (refl, (p, (l, tt)))), tt)

    pub process-Ends :
        (p : EventProcessor) (body : String)
        → Ends I Always (All (IsStreamed types)) (process web c decode_object_kind p types body)
    unfolding process
    process-Ends pipeline_event_processor body = process_pipeline_event-Ends body
    process-Ends push_event_processor body = process_push_event-Ends body
