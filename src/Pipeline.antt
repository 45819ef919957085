-- ===== src/Pipeline.antt =====
-- internal/pipeline/pipeline.go: from the data of a source through the mappers to a destination.
pub mod Plan
pub mod Trace
pub mod Channel
pub mod Entry
mod Tests
use ibdm.Base.{
  ℕ, String, Bool, true, false, Option, none, some, List, [], ◌∷◌, Err, Result, ok, err, lookup,
  map,
}
use ibdm.Value.{Fields}
use ibdm.Source
use ibdm.Source.{DataOperation, upsert, delete, timestamp}
use ibdm.Destination
use ibdm.Destination.{Sender}
use ibdm.Mapper.Apply.{MappedData, ExtraMappedData, ParentItemInfo}

-- The interface `mapper.Mapper`.
pub record Mapper : Type 0 where
  pub apply_templates : Fields → ParentItemInfo → Result (MappedData × List ExtraMappedData)
  pub apply_identifier_template : Fields → Result (String × List ExtraMappedData)

pub record DataMapper : Type 0 where
  pub api_version : String
  pub item_family : String
  pub extra : Fields
  pub mapper : Mapper

-- The fields of `Pipeline` that the flow of data uses, with the clock of the world it runs in:
-- `now` is `time.Now` and `format` the RFC 3339 form.
pub record Pipeline (W : Type 0) : Type 0 where
  pub mappers : List (String × DataMapper)
  pub destination : Sender W
  pub format : ℕ → String
  pub now : W → ℕ

-- mapperTypes, the types and their settings that a source is asked for
unfoldable pub mapper_types : List (String × DataMapper) → List (String × Fields)
mapper_types mappers = map (λ entry. (entry.0, entry.1.extra)) mappers

abbrev pub parent_info : DataMapper → ParentItemInfo
parent_info dm = record {
  identifier = "";
  api_version = dm.api_version;
  item_family = dm.item_family;
}

module _ {W : Type 0} (p : Pipeline W) where
  -- An extra item that cannot be sent is logged, and the next one is sent.
  unfoldable pub upsert_extra_mapped_data : Source.Data → List ExtraMappedData → W → W
  upsert_extra_mapped_data d [] w = w
  upsert_extra_mapped_data d (x ∷ extra) w =
      let to_send : Destination.Data = record {
        api_version = x.api_version;
        item_family = x.item_family;
        name = x.identifier;
        metadata = none;
        spec = x.spec;
        operation_time = timestamp p.format (p.now w) d;
      } in
      upsert_extra_mapped_data d extra (p.destination.send_data to_send w).1

  unfoldable pub delete_extra_mapped_data : Source.Data → List ExtraMappedData → W → W
  delete_extra_mapped_data d [] w = w
  delete_extra_mapped_data d (x ∷ extra) w =
      let to_delete : Destination.Data = record {
        api_version = x.api_version;
        item_family = x.item_family;
        name = x.identifier;
        metadata = none;
        spec = none;
        operation_time = timestamp p.format (p.now w) d;
      } in
      delete_extra_mapped_data d extra (p.destination.delete_data to_delete w).1

  -- The two cases of the switch, with the mapper's result and the time read at its start.
  unfoldable pub upsert_data :
      DataMapper → Source.Data → String → Result (MappedData × List ExtraMappedData) → W → W
  unfolding upsert_extra_mapped_data
  upsert_data dm d time (err e) w = w
  upsert_data dm d time (ok (output, extra)) w =
      let to_send : Destination.Data = record {
        api_version = dm.api_version;
        item_family = dm.item_family;
        name = output.identifier;
        metadata = output.metadata;
        spec = output.spec;
        operation_time = time;
      } in
      let (failure, w') = p.destination.send_data to_send w in
      elim failure [ some e ↦ w' | none ↦ upsert_extra_mapped_data d extra w' ]

  unfoldable pub delete_data :
      DataMapper → Source.Data → String → Result (String × List ExtraMappedData) → W → W
  unfolding delete_extra_mapped_data
  delete_data dm d time (err e) w = w
  delete_data dm d time (ok (identifier, extra)) w =
      let to_delete : Destination.Data = record {
        api_version = dm.api_version;
        item_family = dm.item_family;
        name = identifier;
        metadata = none;
        spec = none;
        operation_time = time;
      } in
      let (failure, w') = p.destination.delete_data to_delete w in
      elim failure [ some e ↦ w' | none ↦ delete_extra_mapped_data d extra w' ]

  unfoldable pub operate : DataMapper → DataOperation → Source.Data → W → W
  unfolding upsert_data delete_data
  operate dm upsert d w =
      upsert_data dm d (timestamp p.format (p.now w) d)
        (dm.mapper.apply_templates d.values (parent_info dm)) w
  operate dm delete d w =
      delete_data dm d (timestamp p.format (p.now w) d)
        (dm.mapper.apply_identifier_template d.values) w

  -- One round of `mappingData` on data that came through the channel.
  unfoldable pub handle : Source.Data → W → W
  unfolding operate
  handle d w = elim (lookup d.kind p.mappers) [ none ↦ w | some dm ↦ operate dm d.operation d w ]

-- What `select` of `mappingData` comes back with.
pub data Select : Type 0 where
  cancelled closed : Select
  received : Source.Data → Select

-- `mappingData`, over what its rounds of `select` come back with; the Boolean tells that it has
-- returned. Cancellation ends the loop also where the channel has more data.
unfoldable pub mapping_data : {W : Type 0} → Pipeline W → List Select → W → Bool × W
unfolding handle
mapping_data p [] w = (false, w)
mapping_data p (cancelled ∷ _) w = (true, w)
mapping_data p (closed ∷ _) w = (true, w)
mapping_data p (received d ∷ rest) w = mapping_data p rest (handle p d w)
