-- ===== src/Console/Sync/Services.antt =====
-- The items of the services of a configuration, and loops that append what they list.
use ibdm.Base.{
  ◌≡◌, inl, inr, refl, Bool, Bool-cases, Option, some, List, [], ◌∷◌, ◌++◌, Err, All, All-append,
}
use ibdm.Value.{Fields, end, field, as_object}
use ibdm.Source.{Data}
use ibdm.Effect.{Effect}
use ibdm.Effect.Laws.{Ends, Always, Ends-bind, Ends-pure}
use ibdm.Console.{or_panic, is_service_valid, is_custom_resource_valid}
use ibdm.Console.Laws.{AreServices}
use ibdm.Console.Sync.{collect_valid, append_each}

-- Maps on which a test does not panic.
abbrev pub AreTotal : (Fields → Option Bool) → Fields → Type 0
AreTotal is_valid end = Unit
AreTotal is_valid (field k svc services) =
    ((svc_map : Fields) × ((valid : Bool) × (as_object (some svc) ≡ some svc_map)
        × (is_valid svc_map ≡ some valid)))
    × AreTotal is_valid services

pub AreServices-service :
    (services : Fields) → AreServices services → AreTotal is_service_valid services
AreServices-service end h = tt
AreServices-service (field k svc services) ((m, (v, (u, o, p, q))), h) =
    ((m, (v, o, p)), AreServices-service services h)

pub AreServices-custom_resource :
    (services : Fields) → AreServices services → AreTotal is_custom_resource_valid services
AreServices-custom_resource end h = tt
AreServices-custom_resource (field k svc services) ((m, (v, (u, o, p, q))), h) =
    ((m, (u, o, q)), AreServices-custom_resource services h)

pub collect_valid-some :
    (is_valid : Fields → Option Bool) (create : Fields → Data) (Good : Data → Type 0)
    → ((svc : Fields) → Good (create svc))
    → (services : Fields) → AreTotal is_valid services
    → (ds : List Data) × (collect_valid is_valid create services ≡ some ds) × All Good ds
unfolding collect_valid
collect_valid-some is_valid create Good good end h = ([], refl, tt)
collect_valid-some is_valid create Good good (field k svc services) ((m, (valid, o, p)), h) =
    let (ds, e, a) = collect_valid-some is_valid create Good good services h in
    elim (Bool-cases valid) [
      | inl v ↦ (create m ∷ ds, rw (o, p, e, v, collect_valid) refl, (good m, a))
      | inr v ↦ (ds, rw (o, p, e, v, collect_valid) refl, a)
    ]

module _ {W : Type 0} {I : W → Type 0} {Fails : Err → Type 0} where
  pub Ends-or_panic :
      {A : Type 0} {Gives : A → Type 0} (o : Option A) (a : A)
      → o ≡ some a
      → Gives a
      → Ends I Fails Gives (or_panic o)
  Ends-or_panic o a e g = rw e (Ends-pure a g)

  pub append_each-Ends :
      {A : Type 0} {P : A → Type 0} {Good : Data → Type 0} (body : A → Effect W (List Data))
      → ((a : A) → P a → Ends I Fails (All Good) (body a))
      → (xs : List A) → All P xs
      → Ends I Fails (All Good) (append_each body xs)
  unfolding append_each
  append_each-Ends body h [] a = Ends-pure [] tt
  append_each-Ends body h (x ∷ xs) (p, a) = Ends-bind (h x p) λ items good.
      Ends-bind (append_each-Ends body h xs a)
        λ result better. Ends-pure (items ++ result) (All-append _ items result good better)

pub All-Always : {A : Type 0} (xs : List A) → All Always xs
All-Always [] = tt
All-Always (x ∷ xs) = (tt, All-Always xs)
