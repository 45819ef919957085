-- ===== src/Mapper/Functions.antt =====
-- internal/mapper/functions: the helpers that templates call. `panic` is a run-time panic of the
-- helper, which text/template turns into an error of the execution.
pub mod Laws
use Prim.Native.String.{len, slice as sub}
use ibdm.Base.{
  ℕ, ℤ, pos, negsuc, suc, ◌-◌, String, Bool, true, false, ◌&&◌, Option, none, some, List, [], ◌∷◌,
  ◌++◌, map, leb, ltb, length, take, drop, starts_with, if◌then◌else◌,
}
use ibdm.Value.{
  Value, null, bool, float64, int64, text, slice, object, Items, Fields, end, field, get_field,
  put_field, keys, items, of_list,
}

-- castToString; `sprint` is `fmt.Sprintf("%v", v)`, and no value here is a `fmt.Stringer`.
unfoldable pub cast_to_string : (Value → String) → Value → String
cast_to_string sprint (text s) = s
cast_to_string sprint v = sprint v

-- The loop of `Object`, two arguments a round; a last key without a value gets nil.
unfoldable pub object_from : (Value → String) → Fields → List Value → Fields
object_from sprint obj [] = obj
object_from sprint obj (k ∷ []) = put_field (cast_to_string sprint k) null obj
object_from sprint obj (k ∷ v ∷ rest) =
    object_from sprint (put_field (cast_to_string sprint k) v obj) rest

unfoldable pub object_fn : (Value → String) → List Value → Fields
unfolding object_from cast_to_string
object_fn sprint key_and_values = object_from sprint end key_and_values

-- The loop of `Pick`.
unfoldable pub pick_from : Fields → Fields → List String → Fields
pick_from obj result [] = result
pick_from obj result (key ∷ rest) = elim (get_field key obj) [
  | none ↦ pick_from obj result rest
  | some val ↦ pick_from obj (put_field key val result) rest
]

unfoldable pub pick : Fields → List String → Fields
unfolding pick_from
pick obj picked = pick_from obj end picked

unfoldable pub get : String → Fields → Value → Value
get key obj default_value = elim (get_field key obj) [ some val ↦ val | none ↦ default_value ]

-- `Set` writes into the map that it is given and returns it.
unfoldable pub set_fn : String → Value → Fields → Fields
set_fn key value obj = put_field key value obj

unfoldable pub keys_fn : Fields → List Value
keys_fn obj = map text (keys obj)

pub data Reply {ℓ} (A : Type ℓ) : Type ℓ where
  done : A → Reply A
  failed : String → Reply A
  panic : Reply A

-- `reflect.TypeOf(v).Kind().String()`; of nil there is no type, and `Kind` panics.
abbrev pub kind : Value → Option String
kind null = none
kind (bool _) = some "bool"
kind (float64 _) = some "float64"
kind (int64 _) = some "int64"
kind (text _) = some "string"
kind (slice _) = some "slice"
kind (object _) = some "map"

abbrev pub refuse {ℓ} : {A : Type ℓ} → (String → String) → Value → Reply A
refuse describe v = elim (kind v) [ none ↦ panic | some k ↦ failed (describe k) ]

abbrev pub prefixed : String → String → String
prefixed p s = Prim.Native.String.◌++◌ p s

unfoldable pub append_fn : Value → List Value → Reply (List Value)
append_fn (slice vs) elements = done (items vs ++ elements)
append_fn v elements = refuse (prefixed "cannot append to type ") v

unfoldable pub prepend_fn : Value → List Value → Reply (List Value)
prepend_fn (slice vs) elements = done (elements ++ items vs)
prepend_fn v elements = refuse (prefixed "cannot prepend to type ") v

-- IsNumber
unfoldable pub is_number : Value → Bool
is_number (float64 _) = true
is_number (int64 _) = true
is_number _ = false

-- IsString
unfoldable pub is_string : Value → Bool
is_string (text _) = true
is_string _ = false

-- strings.TrimPrefix and strings.TrimSuffix with the arguments in the order that templates use
unfoldable pub trim_prefix : String → String → String
trim_prefix prefix s = if starts_with s prefix then sub s (len prefix) (len s) else s

-- Truncate, over the bytes of its text. `length` is a Go `int`.
unfoldable pub truncate : ℤ → List ℕ → List ℕ
truncate (negsuc n) s = if ltb (suc n) (length s) then drop (length s - suc n) s else s
truncate (pos n) s = if ltb n (length s) then take n s else s
