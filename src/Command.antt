-- ===== src/Command.antt =====
-- internal/cmd: the choice of a source, the loading of mappings and the options of a command; and
-- the log levels of internal/logger. `opened` is the reading of a mapping file (see Config),
-- `compile` is `mapper.New`, `lower` is strings.ToLower.
pub mod Laws
mod Tests
use ibdm.Base.{
  String, Bool, true, false, not, ◌&&◌, ◌||◌, Option, none, some, List, [], ◌∷◌, ◌++◌, Err, message,
  wrap, Result, ok, err, ◌>>=◌, ◌==◌, contains, assign, lookup, map, is_some, if◌then◌else◌,
}
use ibdm.Config.{Mappings, MappingConfig, Decoded, new_mapping_configs_from_path}
use ibdm.Pipeline.{Mapper, DataMapper}

-- The packages under internal/source that a name can stand for.
pub data Integration : Type 0 where
  azure azure_devops bitbucket console gcp github gitlab nexus sysdig : Integration

-- The names of `availableEventSources` and `availableSyncSources`, which are the same.
abbrev pub available_sources : List String
available_sources =
    "azure-devops" ∷ "azure" ∷ "bitbucket" ∷ "console" ∷ "gcp" ∷ "github" ∷ "gitlab" ∷ "nexus"
    ∷ "sysdig" ∷ []

-- `none` is the nil source, which no error accompanies.
unfoldable pub source_from_integration_name : String → Option Integration
source_from_integration_name name =
    if name == "azure"
    then some azure
    else if name == "azure-devops"
    then some azure_devops
    else if name == "bitbucket"
    then some bitbucket
    else if name == "gcp"
    then some gcp
    else if name == "github"
    then some github
    else if name == "console"
    then some console
    else if name == "gitlab"
    then some gitlab
    else if name == "nexus"
    then some nexus
    else if name == "sysdig"
    then some sysdig
    else none

abbrev pub err_no_arguments : Err
err_no_arguments = message "no integration name provided"

abbrev pub err_invalid_integration : String
err_invalid_integration = "invalid integration name provided"

-- _, ok := eventSources[integrationName]
abbrev pub is_available : List String → String → Bool
is_available [] name = false
is_available (source ∷ sources) name = name == source || is_available sources name

unfoldable pub validate : List String → String → Option Err
validate sources integration_name =
    if integration_name == ""
    then some err_no_arguments
    else if is_available sources integration_name
    then none
    else some (wrap err_invalid_integration (message integration_name))

-- integrationName of `toOptions`: the first argument, in lower case
abbrev pub first_argument : (String → String) → List String → String
first_argument lower [] = lower ""
first_argument lower (a ∷ args) = lower a

module _ (opened : String → Result (List Decoded)) where
  -- The loop of `loadMappingConfigs`.
  unfoldable pub load_mapping_configs : List String → Result (List MappingConfig)
  load_mapping_configs [] = ok []
  load_mapping_configs (path ∷ paths) = do
    file_mappings ← new_mapping_configs_from_path opened path
    mappings ← load_mapping_configs paths
    ok (file_mappings ++ mappings)

abbrev pub data_mapper : MappingConfig → Mapper → DataMapper
data_mapper mapping mapper = record {
  api_version = mapping.api_version;
  item_family = mapping.item_family;
  extra = mapping.extra;
  mapper = mapper;
}

module _ (compile : Mappings → Result Mapper) where
  -- The loop of `loadMappers`: a later mapping of the same type replaces an earlier one.
  unfoldable pub load_typed :
      Bool → List (String × DataMapper) → List MappingConfig → Result (List (String × DataMapper))
  load_typed sync_only typed [] = ok typed
  load_typed sync_only typed (mapping ∷ rest) = elim (sync_only && not mapping.syncable) [
    | true ↦ load_typed sync_only typed rest
    | false ↦ elim (compile mapping.mappings) [
      | err e ↦ err e
      | ok mapper ↦
          load_typed sync_only (assign typed mapping.kind (data_mapper mapping mapper)) rest
    ]
  ]

  unfoldable pub load_mappers :
      (String → Result (List Decoded)) → List String → Bool → Result (List (String × DataMapper))
  unfolding load_mapping_configs load_typed
  load_mappers opened paths sync_only = do
    mappings ← load_mapping_configs opened paths
    load_typed sync_only [] mappings

  -- The mappers of `options.pipeline`, which `executeEventStream` and `executeSync` both call.
  unfoldable pub options_mappers :
      (String → Result (List Decoded)) → List String → Result (List (String × DataMapper))
  unfolding load_mappers
  options_mappers opened paths = load_mappers opened paths false

-- internal/logger/logger.go
pub data Level : Type 0 where
  error warn info debug trace : Level

-- `upper` is strings.ToUpper
unfoldable pub level_from_string : (String → String) → String → Level
level_from_string upper level =
    let l = upper level in
    if l == "TRACE"
    then trace
    else if l == "DEBUG"
    then debug
    else if l == "INFO"
    then info
    else if l == "WARN"
    then warn
    else if l == "ERROR"
    then error
    else info

-- The generated `Level.String` in upper case, as main.go offers it.
unfoldable pub level_string : Level → String
level_string error = "ERROR"
level_string warn = "WARN"
level_string info = "INFO"
level_string debug = "DEBUG"
level_string trace = "TRACE"
