-- ===== src/Value/Laws.antt =====
-- Reading a map after a write, and lists of values.
use ibdm.Base.{String, ◌≡◌, refl, ap, some, List, [], ◌∷◌, arith, ◌==◌, eq_iff, if◌then◌else◌}
use ibdm.Value.{Value, Fields, end, field, get_field, put_field, items, of_list}

pub get_field-put_field :
    (k j : String) (v : Value) (m : Fields)
    → get_field j (put_field k v m) ≡ (if k == j then some v else get_field j m)
unfolding get_field put_field
get_field-put_field k j v end = refl
get_field-put_field k j v (field i w m) =
    ground (arith, eq_iff k j, eq_iff i k, eq_iff i j, get_field-put_field k j v m)

pub items-of_list : (vs : List Value) → items (of_list vs) ≡ vs
items-of_list [] = refl
items-of_list (v ∷ vs) = ap (λ l. v ∷ l) (items-of_list vs)
