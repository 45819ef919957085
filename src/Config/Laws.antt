-- ===== src/Config/Laws.antt =====
-- Which extra mappings and which configurations pass the validation.
use mathlib.Core.Path.{subst}
use mathlib.Core.List.{append-nil, append_assoc}
use ibdm.Base.{
  String, ◌≡◌, refl, sym, ap, ◌∙◌, ◌↔◌, ◌⊎◌, inl, inr, Bool, true, false, ◌&&◌, Option, none, some,
  List, [], ◌∷◌, ◌++◌, arith, Result, Result-cases, ok, ◌==◌, is_empty, Bool-cases, All,
}
use ibdm.Value.{Fields, get_field, as_text}
use ibdm.Config.{
  delete_policy_none, delete_policy_cascade, extra_relationship_family, required_extra_fields,
  relationship_fields, has_text, joined, MappingConfig, Decoded, document, empty, eof, broken,
  missing_config_fields, read_configs, new_mapping_configs_from_path,
}

abbrev pub every : (String → Bool) → List String → Bool
every p [] = true
every p (k ∷ ks) = p k && every p ks

-- What a valid extra mapping holds.
pub record IsExtra (m : Fields) : Type 0 where
  pub required : every (has_text m) required_extra_fields ≡ true
  pub policy :
      (as_text (get_field "deletePolicy" m) ≡ some delete_policy_none)
      ⊎ (as_text (get_field "deletePolicy" m) ≡ some delete_policy_cascade)
  pub family : as_text (get_field "itemFamily" m) ≡ some extra_relationship_family
  pub relationship : every (has_text m) relationship_fields ≡ true

abbrev relation_describe : String → String
relation_describe f = joined "missing or invalid '" f "' for relationship extra mapping"

-- What the reader of a file asks of each configuration.
abbrev pub IsNamed : MappingConfig → Type 0
IsNamed config =
    ((config.kind == "") ≡ false)
    × ((config.api_version == "") ≡ false)
    × ((config.item_family == "") ≡ false)

config-IsNamed :
    (config : MappingConfig) → (is_empty (missing_config_fields config) ≡ true) ↔ IsNamed config
config-IsNamed config = ground arith

-- The documents of a file, of which an empty one is `none`, and what the decoder gives for them.
abbrev pub decoded_from : List (Option MappingConfig) → List Decoded
decoded_from [] = []
decoded_from (none ∷ more) = empty ∷ decoded_from more
decoded_from (some config ∷ more) = document config ∷ decoded_from more

abbrev pub present : List (Option MappingConfig) → List MappingConfig
present [] = []
present (none ∷ more) = present more
present (some config ∷ more) = config ∷ present more

-- The decoder is at the end of the file.
abbrev pub IsAtEnd : List Decoded → Type 0
IsAtEnd ending = (ending ≡ []) ⊎ ((more : List Decoded) × (ending ≡ eof ∷ more))

-- The decoder gives documents up to the end of the file, without an error; those that are not empty
-- are the configurations, and all of them are named.
abbrev pub IsRead : List Decoded → List MappingConfig → Type 0
IsRead decoded configs =
    (file : List (Option MappingConfig)) × (ending : List Decoded) × (decoded
      ≡ decoded_from file ++ ending)
    × IsAtEnd ending
    × (configs ≡ present file)
    × All IsNamed configs

read_configs-IsRead :
    (decoded : List Decoded) (read configs : List MappingConfig)
    → read_configs read decoded ≡ ok configs
    → (more : List MappingConfig) × (configs ≡ read ++ more) × IsRead decoded more
unfolding read_configs
read_configs-IsRead [] read configs h =
    ([], sym (cc) ∙ sym (append-nil read), ([], [], refl, inl refl, refl, tt))
read_configs-IsRead (eof ∷ rest) read configs h =
    ([], sym (cc) ∙ sym (append-nil read), ([], eof ∷ rest, refl, inr (rest, refl), refl, tt))
read_configs-IsRead (broken e ∷ _) read configs h = cc
read_configs-IsRead (empty ∷ rest) read configs h =
    let (more, all, (file, ending, d, e, p, n)) = read_configs-IsRead rest read configs h in
    (more, all, (none ∷ file, ending, ap (λ l. empty ∷ l) d, e, p, n))
read_configs-IsRead (document config ∷ rest) read configs h =
    elim (Bool-cases (is_empty (missing_config_fields config))) [
      | inl k ↦
          let (more, all, (file, ending, d, e, p, n)) =
            read_configs-IsRead rest (read ++ config ∷ []) configs (rw (k, read_configs) at h) in
          (
            config ∷ more,
            all ∙ append_assoc read (config ∷ []) more,
            (
              some config ∷ file,
              ending,
              ap (λ l. document config ∷ l) d,
              e,
              ap (λ l. config ∷ l) p,
              ((config-IsNamed config).0 k, n),
            ),
          )
      | inr k ↦ (let m = (rw (k, read_configs) at h) in cc)
    ]

read_configs-ending :
    (ending : List Decoded) (read : List MappingConfig)
    → IsAtEnd ending
    → read_configs read ending ≡ ok read
unfolding read_configs
read_configs-ending ending read (inl e) = rw e refl
read_configs-ending ending read (inr (more, e)) = rw e refl

read_configs-decoded_from :
    (file : List (Option MappingConfig)) (ending : List Decoded) (read : List MappingConfig)
    → IsAtEnd ending
    → All IsNamed (present file)
    → read_configs read (decoded_from file ++ ending) ≡ ok (read ++ present file)
unfolding read_configs
read_configs-decoded_from [] ending read e n =
    read_configs-ending ending read e ∙ ap (λ l. ok l) (sym (append-nil read))
read_configs-decoded_from (none ∷ file) ending read e n =
    read_configs-decoded_from file ending read e n
read_configs-decoded_from (some config ∷ file) ending read e (c, n) =
    rw ((config-IsNamed config).1 c, read_configs)
      (read_configs-decoded_from file ending (read ++ config ∷ []) e n
        ∙ ap (λ l. ok l) (append_assoc read (config ∷ []) (present file)))

-- Reading a file gives configurations exactly when the file opens, the decoder gives documents up to
-- the end of the file without an error, and each document that is not empty has a type, an API version
-- and an item family; the configurations are then those documents, all of them and in their order.
pub new_mapping_configs_from_path_iff :
    (opened : String → Result (List Decoded)) (path : String) (configs : List MappingConfig)
    → (new_mapping_configs_from_path opened path ≡ ok configs)
      ↔ ((decoded : List Decoded) × (opened path ≡ ok decoded) × IsRead decoded configs)
unfolding new_mapping_configs_from_path
new_mapping_configs_from_path_iff opened path configs = (
  λ h. elim (Result-cases (opened path)) [
    | inr (e, o) ↦ (let k = (rw (o, new_mapping_configs_from_path) at h) in cc)
    | inl (decoded, o) ↦
        let (more, all, is) =
          read_configs-IsRead decoded [] configs (rw (o, new_mapping_configs_from_path) at h) in
        (decoded, o, subst (λ cs. IsRead decoded cs) (sym all) is)
  ],
  λ (decoded, o, (file, ending, d, e, p, n)).
      rw (o, d, p, new_mapping_configs_from_path)
        (read_configs-decoded_from file ending [] e (subst (λ cs. All IsNamed cs) p n)),
)
