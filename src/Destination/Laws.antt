-- ===== src/Destination/Laws.antt =====
-- What the receiver of an item reads from its JSON form.
use ibdm.Base.{String, ◌≡◌, refl, ◌∙◌, false, Option, none, some, ◌==◌, arith, if◌then◌else◌}
use ibdm.Value.{Value, text, object, Fields, end, field, get_field}
use ibdm.Destination.{Data, operation_label, field_of_map, field_of_text, marshal_json}

-- A map that is sent: nil and the empty map are left out.
abbrev pub sent_map : Option Fields → Option Value
sent_map none = none
sent_map (some end) = none
sent_map (some (field j v m)) = some (object (field j v m))

get_field-field_of_map :
    (k j : String) (m : Option Fields) (rest : Fields)
    → get_field j (field_of_map k m rest) ≡ (
        if k == j
        then elim (sent_map m) [ some v ↦ some v | none ↦ get_field j rest ]
        else get_field j rest)
unfolding get_field
get_field-field_of_map k j none rest = ground arith
get_field-field_of_map k j (some end) rest = ground arith
get_field-field_of_map k j (some (field i v m)) rest = ground arith

get_field-field_of_text :
    (k j s : String) (rest : Fields)
    → (k == j) ≡ false
    → get_field j (field_of_text k s rest) ≡ get_field j rest
unfolding get_field
get_field-field_of_text k j s rest h = ground arith

Option-eta {ℓ} :
    {A : Type ℓ} (o r : Option A) → r ≡ none → elim o [ some v ↦ some v | none ↦ r ] ≡ o
Option-eta none r h = h
Option-eta (some a) r h = refl

-- The part of the object from `operationTime` on.
abbrev last_fields : String → String → Fields
last_fields t label = field_of_text "operationTime" t (field "operation" (text label) end)

module _ (m s : Option Fields) (t label : String) where
  reads_label_field :
      get_field "operation"
        (field_of_map "metadata" m (field_of_map "data" s (last_fields t label)))
      ≡ some (text label)
  unfolding get_field
  reads_label_field =
      get_field-field_of_map "metadata" "operation" m _
      ∙ (get_field-field_of_map "data" "operation" s _
          ∙ get_field-field_of_text "operationTime" "operation" t _ refl)

  reads_spec_field :
      get_field "data" (field_of_map "metadata" m (field_of_map "data" s (last_fields t label)))
      ≡ sent_map s
  unfolding get_field
  reads_spec_field =
      get_field-field_of_map "metadata" "data" m _
      ∙ (get_field-field_of_map "data" "data" s _
          ∙ Option-eta (sent_map s) _ (get_field-field_of_text "operationTime" "data" t _ refl))

  reads_metadata_field :
      get_field "metadata" (field_of_map "metadata" m (field_of_map "data" s (last_fields t label)))
      ≡ sent_map m
  unfolding get_field
  reads_metadata_field =
      get_field-field_of_map "metadata" "metadata" m _
      ∙ Option-eta (sent_map m) _ (
          get_field-field_of_map "data" "metadata" s _
          ∙ get_field-field_of_text "operationTime" "metadata" t _ refl)

-- The JSON form of an item says "delete" exactly when the item has no spec, names the item, and
-- holds the metadata and the spec unless they are nil or empty.
pub get_field-marshal_json :
    (d : Data)
    → (get_field "operation" (marshal_json d)
        ≡ some (text (elim d.spec [ none ↦ "delete" | some _ ↦ "upsert" ])))
      × (get_field "apiVersion" (marshal_json d) ≡ some (text d.api_version))
      × (get_field "itemFamily" (marshal_json d) ≡ some (text d.item_family))
      × (get_field "name" (marshal_json d) ≡ some (text d.name))
      × (get_field "metadata" (marshal_json d) ≡ sent_map d.metadata)
      × (get_field "data" (marshal_json d) ≡ sent_map d.spec)
unfolding marshal_json get_field
get_field-marshal_json d = (
  reads_label_field d.metadata d.spec d.operation_time (operation_label d),
  refl,
  refl,
  refl,
  reads_metadata_field d.metadata d.spec d.operation_time (operation_label d),
  reads_spec_field d.metadata d.spec d.operation_time (operation_label d),
)
