-- ===== src/Destination/Tests.antt =====
-- The JSON form of an item, and its theorem at a concrete input.
use ibdm.Base.{◌≡◌, refl, Option, none, some}
use ibdm.Value.{text, Fields, end, field}
use ibdm.Destination.{Data, marshal_json}

abbrev item : Option Fields → Data
item spec = record {
  api_version = "v1";
  item_family = "repos";
  name = "repo";
  metadata = none;
  spec = spec;
  operation_time = "";
}

marshal_runs :
    (marshal_json (item (some end))
      ≡ field "apiVersion" (text "v1") (
          field "itemFamily"
            (text "repos")
            (field "name" (text "repo") (field "operation" (text "upsert") end))))
    × (marshal_json (item none)
        ≡ field "apiVersion" (text "v1") (
            field "itemFamily"
              (text "repos")
              (field "name" (text "repo") (field "operation" (text "delete") end))))
unfolding marshal_json
marshal_runs = (refl, refl)
