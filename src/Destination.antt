-- ===== src/Destination.antt =====
-- internal/destination/interface.go: the items sent to a destination and their JSON form.
pub mod Laws
mod Tests
use ibdm.Base.{String, Bool, true, false, Option, none, some, Err, ◌==◌, if◌then◌else◌}
use ibdm.Value.{Value, text, object, Fields, end, field}

-- The `Data` field of the source is `spec`; a map is `none` where the code has nil.
pub record Data : Type 0 where
  pub api_version : String
  pub item_family : String
  pub name : String
  pub metadata : Option Fields
  pub spec : Option Fields
  pub operation_time : String

-- A destination acts on the outside world `W`; a nil error is `none`.
pub record Sender (W : Type 0) : Type 0 where
  pub send_data : Data → W → Option Err × W
  pub delete_data : Data → W → Option Err × W

unfoldable pub operation_label : Data → String
operation_label d = elim d.spec [ none ↦ "delete" | some _ ↦ "upsert" ]

-- `omitempty` on a map and on a text.
abbrev pub field_of_map : String → Option Fields → Fields → Fields
field_of_map k none rest = rest
field_of_map k (some end) rest = rest
field_of_map k (some (field j v m)) rest = field k (object (field j v m)) rest

abbrev pub field_of_text : String → String → Fields → Fields
field_of_text k s rest = if s == "" then rest else field k (text s) rest

-- The fields of `MarshalJSON` in the order of the struct.
unfoldable pub marshal_json : Data → Fields
unfolding operation_label
marshal_json d = field "apiVersion" (text d.api_version) (
    field "itemFamily" (text d.item_family) (
      field "name" (text d.name) (
        field_of_map "metadata" d.metadata (
          field_of_map "data" d.spec (
            field_of_text "operationTime" d.operation_time
              (field "operation" (text (operation_label d)) end))))))
