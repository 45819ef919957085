-- ===== src/Mapper/Functions/Laws.antt =====
-- What the helpers of internal/mapper/functions promise to a template.
use Prim.Native.String.{len}
use Prim.Native.String
use text.Mathlib.TextPositions.{slice-append_right, starts_with-append, len-append}
use mathlib.Core.List.{append-nil}
use ibdm.Base.{
  ℕ, pos, negsuc, suc, ◌-◌, min, String, ◌≡◌, refl, ◌∙◌, ap, true, ◌⊎◌, inl, inr, Bool-cases,
  ltb→lt, not-ltb→le, Option, none, some, List, [], ◌∷◌, ◌++◌, arith, ltb, ◌==◌, eq_iff, contains,
  Option-cases, length, take, drop, length-take, length-drop, take-append-drop, starts_with,
  if◌then◌else◌,
}
use ibdm.Value.{Value, null, Fields, end, get_field, put_field}
use ibdm.Value.Laws.{get_field-put_field}
use ibdm.Mapper.Functions.{
  cast_to_string, object_from, object_fn, pick_from, pick, get, set_fn, trim_prefix, truncate,
}

-- The arguments of `object` read two by two, and the value that a key is given last.
abbrev pub pairs : (Value → String) → List Value → List (String × Value)
pairs sprint [] = []
pairs sprint (k ∷ []) = (cast_to_string sprint k, null) ∷ []
pairs sprint (k ∷ v ∷ rest) = (cast_to_string sprint k, v) ∷ pairs sprint rest

abbrev pub given_last : String → List (String × Value) → Option Value → Option Value
given_last j [] before = before
given_last j ((k, v) ∷ rest) before = given_last j rest (if k == j then some v else before)

get_field-object_from :
    (sprint : Value → String) (j : String) (obj : Fields) (kvs : List Value)
    → get_field j (object_from sprint obj kvs) ≡ given_last j (pairs sprint kvs) (get_field j obj)
unfolding object_from
get_field-object_from sprint j obj [] = refl
get_field-object_from sprint j obj (k ∷ []) =
    get_field-put_field (cast_to_string sprint k) j null obj
get_field-object_from sprint j obj (k ∷ v ∷ rest) =
    let key = cast_to_string sprint k in
    get_field-object_from sprint j (put_field key v obj) rest
    ∙ ap (given_last j (pairs sprint rest)) (get_field-put_field key j v obj)

-- Reading any key of `object k1 v1 k2 v2 ...` gives the value that was last paired with it, nil for
-- a last key without a value, and nothing for a key that is not among the arguments.
pub get_field-object_fn :
    (sprint : Value → String) (j : String) (kvs : List Value)
    → get_field j (object_fn sprint kvs) ≡ given_last j (pairs sprint kvs) none
unfolding object_fn get_field
get_field-object_fn sprint j kvs = get_field-object_from sprint j end kvs

get_field-pick_from :
    (obj result : Fields) (ks : List String) (j : String)
    → get_field j (pick_from obj result ks) ≡ (
        if contains ks j
        then elim (get_field j obj) [ some v ↦ some v | none ↦ get_field j result ]
        else get_field j result)
unfolding pick_from
get_field-pick_from obj result [] j = refl
get_field-pick_from obj result (k ∷ ks) j = elim (Option-cases (get_field k obj)) [
  | inl e ↦ rw (e, pick_from) (ground (arith, eq_iff k j, e, get_field-pick_from obj result ks j))
  | inr (v, e) ↦
      rw (e, pick_from)
        (ground (
          arith,
          eq_iff k j,
          e,
          get_field-pick_from obj (put_field k v result) ks j,
          get_field-put_field k j v result,
        ))
]

-- `pick` keeps exactly the keys asked for, with the values of the object that it reads.
pub get_field-pick :
    (obj : Fields) (ks : List String) (j : String)
    → get_field j (pick obj ks) ≡ (if contains ks j then get_field j obj else none)
unfolding pick get_field
get_field-pick obj ks j = ground (arith, get_field-pick_from obj end ks j)

-- What `set` writes, `get` reads back, and every other key reads as before.
pub get-set_fn :
    (k j : String) (v d : Value) (obj : Fields)
    → get j (set_fn k v obj) d ≡ (if k == j then v else get j obj d)
unfolding get set_fn
get-set_fn k j v d obj = ground (arith, get_field-put_field k j v obj)

truncate_front :
    (n : ℕ) (s : List ℕ)
    → (length (truncate (pos n) s) ≡ min n (length s))
      × ((rest : List ℕ) × (truncate (pos n) s ++ rest ≡ s))
unfolding truncate
truncate_front n s = elim (Bool-cases (ltb n (length s))) [
  | inl e ↦ rw e (length-take n s, (drop n s, take-append-drop n s))
  | inr e ↦ rw e (omega (arith, not-ltb→le n (length s) e), ([], append-nil s))
]

truncate_back :
    (n : ℕ) (s : List ℕ)
    → (length (truncate (negsuc n) s) ≡ min (suc n) (length s))
      × ((rest : List ℕ) × (rest ++ truncate (negsuc n) s ≡ s))
unfolding truncate
truncate_back n s = elim (Bool-cases (ltb (suc n) (length s))) [
  | inl e ↦ rw e (
    omega (arith, length-drop (length s - suc n) s, ltb→lt (suc n) (length s) e),
    (take (length s - suc n) s, take-append-drop (length s - suc n) s),
  )
  | inr e ↦ rw e (omega (arith, not-ltb→le (suc n) (length s) e), ([], refl))
]

-- A positive length keeps the first bytes, at most that many; a negative one keeps the last bytes,
-- at most that many in number; in both cases all bytes are kept when there are no more of them.
pub truncate_parts :
    (n : ℕ) (s : List ℕ)
    → (length (truncate (pos n) s) ≡ min n (length s))
      × ((rest : List ℕ) × (truncate (pos n) s ++ rest ≡ s))
      × (length (truncate (negsuc n) s) ≡ min (suc n) (length s))
      × ((rest : List ℕ) × (rest ++ truncate (negsuc n) s ≡ s))
truncate_parts n s =
    let (front_length, front) = truncate_front n s in
    let (back_length, back) = truncate_back n s in (front_length, front, back_length, back)

-- Removing a prefix undoes putting it in front, and a text that does not begin with it is kept.
pub trim_prefix-append :
    (p s : String)
    → (trim_prefix p (String.◌++◌ p s) ≡ s) × ((starts_with s p ≡ true) ⊎ (trim_prefix p s ≡ s))
unfolding trim_prefix
trim_prefix-append p s = (
  rw (starts_with-append p s, len-append p s) (slice-append_right p s),
  elim (Bool-cases (starts_with s p)) [ inl e ↦ inl e | inr e ↦ inr (rw (e, trim_prefix) refl) ],
)
