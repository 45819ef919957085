-- ===== src/Value.antt =====
-- Go's `any` as the code meets it (decoded JSON and YAML) and `map[string]any`. A number is kept by
-- its bits: the code asks only for its kind. `Fields` is a map; the order of its keys is not used.
pub mod Laws
use ibdm.Base.{
  ℕ, ℤ, String, Bool, true, false, Option, none, some, List, [], ◌∷◌, ◌==◌, if◌then◌else◌,
}

mutual
  pub data Value : Type 0 where
    null : Value
    bool : Bool → Value
    float64 : ℕ → Value
    int64 : ℤ → Value
    text : String → Value
    slice : Items → Value
    object : Fields → Value

  pub data Items : Type 0 where
    nil : Items
    cons : Value → Items → Items

  pub data Fields : Type 0 where
    end : Fields
    field : String → Value → Fields → Fields

-- v, ok := m[k]
unfoldable pub get_field : String → Fields → Option Value
get_field k end = none
get_field k (field j v m) = if j == k then some v else get_field k m

-- m[k] = v
unfoldable pub put_field : String → Value → Fields → Fields
put_field k v end = field k v end
put_field k v (field j w m) = if j == k then field k v m else field j w (put_field k v m)

-- v, ok := x.(string)
abbrev pub as_text : Option Value → Option String
as_text (some (text s)) = some s
as_text _ = none

-- v, ok := x.(map[string]any)
abbrev pub as_object : Option Value → Option Fields
as_object (some (object m)) = some m
as_object _ = none

-- v, _ := x.(string)
abbrev pub text_or_empty : Option Value → String
text_or_empty (some (text s)) = s
text_or_empty _ = ""

abbrev pub singleton : String → Value → Fields
singleton k v = field k v end

abbrev pub items : Items → List Value
items nil = []
items (cons v vs) = v ∷ items vs

abbrev pub of_list : List Value → Items
of_list [] = nil
of_list (v ∷ vs) = cons v (of_list vs)

abbrev pub keys : Fields → List String
keys end = []
keys (field k v m) = k ∷ keys m

-- m[k], which is nil for a missing key
abbrev pub value_or_null : Option Value → Value
value_or_null none = null
value_or_null (some v) = v

-- v, ok := x.(float64)
abbrev pub as_float64 : Option Value → Option ℕ
as_float64 (some (float64 bits)) = some bits
as_float64 _ = none

-- v, _ := x.([]any)
abbrev pub as_slice : Option Value → List Value
as_slice (some (slice vs)) = items vs
as_slice _ = []
