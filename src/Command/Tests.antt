-- ===== src/Command/Tests.antt =====
-- The names of integrations and levels, and mappings that a command loads.
use ibdm.Base.{
  String, ◌≡◌, refl, false, none, List, [], ◌∷◌, message, Result, ok, err, lookup, assign,
}
use ibdm.Value.{end}
use ibdm.Config.{MappingConfig, Mappings, Decoded, document, eof, new_mapping_configs_from_path}
use ibdm.Pipeline.{Mapper, DataMapper}
use ibdm.Command.{load_mapping_configs, options_mappers, data_mapper}
use ibdm.Command.Laws.{lookup-options_mappers, mapper_of}

abbrev mapper : Mapper
mapper = record {
  apply_templates = λ values parent. err (message "none");
  apply_identifier_template = λ values. ok ("repo", []);
}

abbrev compile : Mappings → Result Mapper
compile mappings = ok mapper

abbrev config : String → MappingConfig
config version = record {
  kind = "repository";
  extra = end;
  api_version = version;
  item_family = "repos";
  syncable = false;
  mappings = record { identifier = "{{ .id }}"; metadata = []; spec = []; extra = [] };
}

abbrev file : String → Result (List Decoded)
file path = ok (document (config "v1") ∷ document (config "v2") ∷ eof ∷ [])

abbrev configs : List MappingConfig
configs = config "v1" ∷ config "v2" ∷ []

abbrev loaded : List (String × DataMapper)
loaded = ("repository", data_mapper (config "v2") mapper) ∷ []

configs_read : load_mapping_configs file ("a.yaml" ∷ []) ≡ ok configs
unfolding load_mapping_configs new_mapping_configs_from_path
configs_read = refl

mappers_loaded : options_mappers compile file ("a.yaml" ∷ []) ≡ ok loaded
unfolding options_mappers new_mapping_configs_from_path assign
mappers_loaded = refl

lookup-options_mappers_example :
    lookup "repository" loaded ≡ mapper_of compile "repository" configs none
lookup-options_mappers_example =
    lookup-options_mappers compile file ("a.yaml" ∷ []) configs loaded "repository" configs_read
      mappers_loaded
