-- ===== src/Pipeline/Plan.antt =====
-- What the pipeline promises for each piece of data, as a plan of calls to the destination.
use ibdm.Base.{
  ℕ, String, ◌≡◌, ◌≢◌, refl, Option, none, some, List, [], ◌∷◌, arith, Err, Result, ok, err, lookup,
  map, Option-cases, inl, inr,
}
use ibdm.Value.{Fields}
use ibdm.Source
use ibdm.Source.{upsert, delete, timestamp}
use ibdm.Destination
use ibdm.Destination.{Sender}
use ibdm.Mapper.Apply.{MappedData, ExtraMappedData}
use ibdm.Pipeline.{
  DataMapper, Pipeline, parent_info, upsert_extra_mapped_data, delete_extra_mapped_data,
  upsert_data, delete_data, operate, handle,
}

pub data Call : Type 0 where
  send delete_item : Destination.Data → Call

abbrev pub perform : {W : Type 0} → Sender W → Call → W → Option Err × W
perform s (send d) w = s.send_data d w
perform s (delete_item d) w = s.delete_data d w

-- A main call and those that follow if it succeeds; no call at all where the data has no mapper or
-- its templates fail.
abbrev pub Plan : Type 0
Plan = Option (Call × List Call)

module _ {W : Type 0} (s : Sender W) where
  -- Every call is made, whatever became of those before it.
  abbrev pub perform_all : List Call → W → W
  perform_all [] w = w
  perform_all (c ∷ cs) w = perform_all cs (perform s c w).1

  abbrev pub execute : Plan → W → W
  execute none w = w
  execute (some (c, cs)) w =
      let (failure, w') = perform s c w in elim failure [ some e ↦ w' | none ↦ perform_all cs w' ]

-- The item of a main call and those of the extra mappings, stamped with one time.
abbrev pub extra_item : String → ExtraMappedData → Destination.Data
extra_item time x = record {
  api_version = x.api_version;
  item_family = x.item_family;
  name = x.identifier;
  metadata = none;
  spec = x.spec;
  operation_time = time;
}

abbrev pub main_item :
    DataMapper → String → String → Option Fields → Option Fields → Destination.Data
main_item dm time name metadata spec = record {
  api_version = dm.api_version;
  item_family = dm.item_family;
  name = name;
  metadata = metadata;
  spec = spec;
  operation_time = time;
}

abbrev pub upsert_plan : DataMapper → String → Result (MappedData × List ExtraMappedData) → Plan
upsert_plan dm time (err e) = none
upsert_plan dm time (ok (output, extra)) = some (
  send (main_item dm time output.identifier output.metadata output.spec),
  map (λ x. send (extra_item time x)) extra,
)

abbrev pub delete_plan : DataMapper → String → Result (String × List ExtraMappedData) → Plan
delete_plan dm time (err e) = none
delete_plan dm time (ok (identifier, extra)) = some (
  delete_item (main_item dm time identifier none none),
  map (λ x. delete_item (record (extra_item time x) { spec = none })) extra,
)

abbrev pub operation_plan : DataMapper → Source.DataOperation → String → Source.Data → Plan
operation_plan dm upsert time d =
    upsert_plan dm time (dm.mapper.apply_templates d.values (parent_info dm))
operation_plan dm delete time d = delete_plan dm time (dm.mapper.apply_identifier_template d.values)

-- The plan for data that carries its time.
abbrev pub plan : List (String × DataMapper) → (ℕ → String) → Source.Data → Plan
plan mappers format d = elim (lookup d.kind mappers) [
  | none ↦ none
  | some dm ↦ operation_plan dm d.operation (format d.time) d
]

timestamp_of_time :
    (format : ℕ → String) (now : ℕ) (d : Source.Data)
    → d.time ≢ 0
    → timestamp format now d ≡ format d.time
unfolding timestamp
timestamp_of_time format now d h = ground arith

same_rest :
    {W : Type 0} (r : Option Err × W) (f g : W → W)
    → ((w : W) → f w ≡ g w)
    → elim r.0 [ some e ↦ r.1 | none ↦ f r.1 ] ≡ elim r.0 [ some e ↦ r.1 | none ↦ g r.1 ]
same_rest (none, w) f g h = h w
same_rest (some e, w) f g h = refl

module _ {W : Type 0} (p : Pipeline W) (d : Source.Data) (timed : d.time ≢ 0) where
  upsert_extras-eq-perform_all :
      (extra : List ExtraMappedData) (w : W)
      → upsert_extra_mapped_data p d extra w
        ≡ perform_all p.destination (map (λ x. send (extra_item (p.format d.time) x)) extra) w
  unfolding upsert_extra_mapped_data
  upsert_extras-eq-perform_all [] w = refl
  upsert_extras-eq-perform_all (x ∷ extra) w =
      rw (timestamp_of_time p.format (p.now w) d timed) (upsert_extras-eq-perform_all extra _)

  delete_extras-eq-perform_all :
      (extra : List ExtraMappedData) (w : W)
      → delete_extra_mapped_data p d extra w
        ≡ perform_all p.destination
            (map (λ x. delete_item (record (extra_item (p.format d.time) x) { spec = none })) extra)
            w
  unfolding delete_extra_mapped_data
  delete_extras-eq-perform_all [] w = refl
  delete_extras-eq-perform_all (x ∷ extra) w =
      rw (timestamp_of_time p.format (p.now w) d timed) (delete_extras-eq-perform_all extra _)

  upsert-eq-execute :
      (dm : DataMapper) (r : Result (MappedData × List ExtraMappedData)) (w : W)
      → upsert_data p dm d (p.format d.time) r w
        ≡ execute p.destination (upsert_plan dm (p.format d.time) r) w
  unfolding upsert_data
  upsert-eq-execute dm (err e) w = refl
  upsert-eq-execute dm (ok (output, extra)) w =
      same_rest
        (p.destination.send_data
          (main_item dm (p.format d.time) output.identifier output.metadata output.spec) w)
        (upsert_extra_mapped_data p d extra) _ (upsert_extras-eq-perform_all extra)

  delete-eq-execute :
      (dm : DataMapper) (r : Result (String × List ExtraMappedData)) (w : W)
      → delete_data p dm d (p.format d.time) r w
        ≡ execute p.destination (delete_plan dm (p.format d.time) r) w
  unfolding delete_data
  delete-eq-execute dm (err e) w = refl
  delete-eq-execute dm (ok (identifier, extra)) w =
      same_rest (p.destination.delete_data (main_item dm (p.format d.time) identifier none none) w)
        (delete_extra_mapped_data p d extra) _ (delete_extras-eq-perform_all extra)

  operate-eq-execute :
      (dm : DataMapper) (op : Source.DataOperation) (w : W)
      → operate p dm op d w ≡ execute p.destination (operation_plan dm op (p.format d.time) d) w
  unfolding operate
  operate-eq-execute dm upsert w =
      rw (timestamp_of_time p.format (p.now w) d timed) (upsert-eq-execute dm _ w)
  operate-eq-execute dm delete w =
      rw (timestamp_of_time p.format (p.now w) d timed) (delete-eq-execute dm _ w)

  -- Data that carries its time is handled by its plan: one main call, then the calls for the extra
  -- items in order, all of them, but none if the main call failed.
  pub handle-eq-execute :
      (w : W) → handle p d w ≡ execute p.destination (plan p.mappers p.format d) w
  unfolding handle
  handle-eq-execute w = elim (Option-cases (lookup d.kind p.mappers)) [
    | inl e ↦ rw (e, handle, plan) refl
    | inr (dm, e) ↦ rw (e, handle, plan) (operate-eq-execute dm d.operation w)
  ]
