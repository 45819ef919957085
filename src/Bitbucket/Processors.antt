-- ===== src/Bitbucket/Processors.antt =====
-- internal/source/bitbucket: processor.go and processor_repositoryevent.go, with the split of a full
-- name in sync.go.
pub mod Laws
use ibdm.Base.{
  ℕ, String, Bool, true, false, ◌||◌, Option, none, some, List, [], ◌∷◌, Err, message, Result, ok,
  err, lookup, eqb, ◌==◌, if◌then◌else◌,
}
use ibdm.Value.{Fields, object, end, field, get_field, as_text, as_object, text_or_empty}
use ibdm.Source.{Data, upsert, wants}
use ibdm.Effect.{Effect, ◌>>=◌, pure, fail, lift, attempt, wrapping}
use ibdm.Http.{Web, clock, concat}
use ibdm.Bitbucket.{Client, get_repository}
use ibdm.Bitbucket.Sync.{repository_type}
use Prim.Native.Char.{Char, code}

abbrev pub cons_first : Char → Option (String × String) → Option (String × String)
cons_first c none = none
cons_first c (some (front, rest)) = some (String.◌∷◌ c front, rest)

-- The text before the first slash and the text after it.
unfoldable pub cut_slash : String → Option (String × String)
cut_slash String.[] = none
cut_slash (String.◌∷◌ c s) =
    let rest = cut_slash s in if eqb (code c) 47 then some ("", s) else cons_first c rest

unfoldable pub split_full_name : String → String × String
unfolding cut_slash
split_full_name full_name = elim (cut_slash full_name) [ none ↦ ("", "") | some parts ↦ parts ]

module _ {W : Type 0} (web : Web W) where
  unfoldable pub updated_on_or_now : Fields → Effect W ℕ
  unfolding get_field
  updated_on_or_now item = elim (as_text (get_field "updated_on" item)) [
    | none ↦ clock web
    | some s ↦ elim (web.parse_time s) [ none ↦ clock web | some t ↦ pure t ]
  ]

  -- repoRaw.(map[string]any), when the payload has the field
  unfoldable pub repository_of : Fields → Effect W Fields
  unfolding get_field
  repository_of payload = elim (get_field "repository" payload) [
    | none ↦ fail (message "webhook payload missing 'repository' field")
    | some repo_raw ↦ elim (as_object (some repo_raw)) [
      | none ↦ fail (message "webhook payload 'repository' field is not an object")
      | some repo ↦ pure repo
    ]
  ]

  abbrev pub or_else : Result Fields → Fields → Fields
  or_else (ok full) repo = full
  or_else (err e) repo = repo

  unfoldable pub process_repository_event :
      Client → List (String × Fields) → String → Effect W (List Data)
  unfolding lookup repository_of get_field split_full_name get_repository updated_on_or_now
  process_repository_event c types_to_stream body =
      if wants repository_type types_to_stream
      then (do
        payload ← wrapping "failed to parse webhook body" (lift (web.decode_object body))
        repo ← repository_of payload
        let (workspace_slug, repo_slug) =
              split_full_name (text_or_empty (get_field "full_name" repo)) in
            if workspace_slug == "" || repo_slug == ""
            then fail (message "unable to extract workspace/repo slug from full_name")
            else (do
              r ← attempt (get_repository web c workspace_slug repo_slug)
              time ← updated_on_or_now (or_else r repo)
              pure (
                  record {
                    kind = repository_type;
                    operation = upsert;
                    values = field repository_type (object (or_else r repo)) end;
                    time = time;
                  }
                  ∷ [])))
      else pure []

-- The values of the map `eventProcessors`.
pub data EventProcessor : Type 0 where
  repository_event_processor : EventProcessor

abbrev pub event_processors : List (String × EventProcessor)
event_processors =
    ("repo:push", repository_event_processor)
    ∷ ("repo:updated", repository_event_processor)
    ∷ ("pullrequest:fulfilled", repository_event_processor)
    ∷ []

unfoldable pub process :
    {W : Type 0}
    → Web W
    → Client
    → EventProcessor
    → List (String × Fields)
    → String
    → Effect W (List Data)
unfolding process_repository_event
process web c repository_event_processor types_to_stream body =
    process_repository_event web c types_to_stream body
