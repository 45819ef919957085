-- ===== src/Command/Laws.antt =====
-- The names, mappers and levels that a command works with.
use ibdm.Base.{
  String, ◌≡◌, ◌≢◌, refl, sym, ap, ◌∙◌, ◌↔◌, false, Option, none, some, List, [], ◌∷◌, arith,
  Result, Result-cases, ok, err, ◌==◌, eq_iff, assign, lookup, lookup-assign, Bool-cases, inl, inr,
  if◌then◌else◌,
}
use ibdm.Config.{Mappings, MappingConfig, Decoded}
use ibdm.Pipeline.{Mapper, DataMapper}
use ibdm.Command.{
  available_sources, source_from_integration_name, validate, load_mapping_configs, data_mapper,
  load_typed, options_mappers, Level, error, warn, info, debug, trace, level_from_string,
  level_string,
}

-- A name passes the validation exactly when it is one of the names that stand for a source; so
-- after it the source is never nil.
pub validate-source_from_integration_name :
    (name : String)
    → (validate available_sources name ≡ none) ↔ (source_from_integration_name name ≢ none)
unfolding validate source_from_integration_name
validate-source_from_integration_name name = (
  λ h. ground arith,
  λ h. elim (Bool-cases (name == "")) [
    | inl e ↦ absurd (h (rw ((eq_iff name "").0 e) refl))
    | inr e ↦ ground (arith, e)
  ],
)

-- The printed name of a level is read back as the level, by any `upper` that keeps such names.
pub level_from_string-level_string :
    (upper : String → String) (l : Level)
    → upper (level_string l) ≡ level_string l
    → level_from_string upper (level_string l) ≡ l
unfolding level_from_string level_string
level_from_string-level_string upper error h = rw (h, level_from_string) refl
level_from_string-level_string upper warn h = rw (h, level_from_string) refl
level_from_string-level_string upper info h = rw (h, level_from_string) refl
level_from_string-level_string upper debug h = rw (h, level_from_string) refl
level_from_string-level_string upper trace h = rw (h, level_from_string) refl

module _ (compile : Mappings → Result Mapper) where
  -- The mapping of a type that is loaded last.
  abbrev pub mapper_of : String → List MappingConfig → Option DataMapper → Option DataMapper
  mapper_of kind [] before = before
  mapper_of kind (c ∷ rest) before = elim (compile c.mappings) [
    | err e ↦ mapper_of kind rest before
    | ok mapper ↦
        mapper_of kind rest (if c.kind == kind then some (data_mapper c mapper) else before)
  ]

  lookup-load_typed :
      (configs : List MappingConfig) (typed loaded : List (String × DataMapper)) (kind : String)
      → load_typed compile false typed configs ≡ ok loaded
      → lookup kind loaded ≡ mapper_of kind configs (lookup kind typed)
  unfolding load_typed
  lookup-load_typed [] typed loaded kind h = ap (lookup kind) (sym (cc))
  lookup-load_typed (c ∷ rest) typed loaded kind h = elim (Result-cases (compile c.mappings)) [
    | inl (mapper, e) ↦
        rw (e, mapper_of)
          (lookup-load_typed rest (assign typed c.kind (data_mapper c mapper)) loaded kind
              (rw (e, load_typed) at h)
            ∙ ap (mapper_of kind rest) (lookup-assign typed c.kind kind (data_mapper c mapper)))
    | inr (f, e) ↦ (let k = (rw (e, load_typed) at h) in cc)
  ]

  -- When the files load and compile, a type has the mapper of the last configuration of that type,
  -- in the order of the files, whether or not it is marked as syncable, and no mapper when no
  -- configuration has the type.
  pub lookup-options_mappers :
      (opened : String → Result (List Decoded)) (paths : List String) (configs : List MappingConfig)
      (loaded : List (String × DataMapper)) (kind : String)
      → load_mapping_configs opened paths ≡ ok configs
      → options_mappers compile opened paths ≡ ok loaded
      → lookup kind loaded ≡ mapper_of kind configs none
  unfolding options_mappers lookup
  lookup-options_mappers opened paths configs loaded kind o h =
      lookup-load_typed configs [] loaded kind (rw (o, options_mappers) at h)
