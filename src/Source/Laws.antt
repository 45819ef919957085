-- ===== src/Source/Laws.antt =====
-- When a type is asked for.
use ibdm.Base.{String, ◌≡◌, refl, true, Bool-cases, inl, inr, List, ◌∷◌, lookup, ◌==◌, eq_refl}
use ibdm.Value.{Fields}
use ibdm.Source.{wants}

pub wants-cons :
    (kind : String) (entry : String × Fields) (types : List (String × Fields))
    → wants kind types ≡ true
    → wants kind (entry ∷ types) ≡ true
unfolding lookup
wants-cons kind entry types h = elim (Bool-cases (entry.0 == kind)) [
  | inl e ↦ rw (e, lookup) refl
  | inr e ↦ rw (e, lookup) h
]

pub wants-head :
    (kind : String) (extra : Fields) (types : List (String × Fields))
    → (asked : String) → asked ≡ kind
    → wants asked ((kind, extra) ∷ types) ≡ true
unfolding lookup
wants-head kind extra types asked e = rw (e, eq_refl kind, lookup) refl
