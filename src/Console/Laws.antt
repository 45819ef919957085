-- ===== src/Console/Laws.antt =====
-- What the removal of fields and the choice of types leave.
use ibdm.Base.{
  String, ◌≡◌, inl, inr, refl, ◌∙◌, Bool, true, Bool-cases, some, Option-cases, List, [], ◌∷◌,
  contains, All, ◌==◌, eq_iff,
}
use ibdm.Value.{Fields, end, field, get_field, as_object}
use ibdm.Value.Laws.{get_field-put_field}
use ibdm.Source.{wants}
use ibdm.Console.{
  remove_cast_functions, remove_backoffice_services, custom_remove_fields, filter_types,
  is_service_valid, is_custom_resource_valid,
}

services-remove_cast_functions :
    (configuration : Fields)
    → get_field "services" (remove_cast_functions configuration)
      ≡ get_field "services" configuration
unfolding remove_cast_functions
services-remove_cast_functions configuration =
    elim (Option-cases (as_object (get_field "fastDataConfig" configuration))) [
      | inl e ↦ rw (e, remove_cast_functions) refl
      | inr (m, e) ↦
          rw (e, remove_cast_functions)
            (get_field-put_field "fastDataConfig" "services" _ configuration)
    ]

services-remove_backoffice_services :
    (configuration : Fields)
    → get_field "services" (remove_backoffice_services configuration)
      ≡ get_field "services" configuration
unfolding remove_backoffice_services
services-remove_backoffice_services configuration =
    elim (Option-cases (as_object (get_field "microfrontendPluginsConfig" configuration))) [
      | inl e ↦ rw (e, remove_backoffice_services) refl
      | inr (m, e) ↦ elim (Option-cases (as_object (get_field "backofficeConfigurations" m))) [
        | inl f ↦ rw (e, f, remove_backoffice_services) refl
        | inr (bc, f) ↦
            rw (e, f, remove_backoffice_services)
              (get_field-put_field "microfrontendPluginsConfig" "services" _ configuration)
      ]
    ]

-- Removing fields leaves the services of a configuration.
pub services-custom_remove_fields :
    (configuration : Fields)
    → get_field "services" (custom_remove_fields configuration) ≡ get_field "services" configuration
unfolding custom_remove_fields
services-custom_remove_fields configuration =
    services-remove_backoffice_services (remove_cast_functions configuration)
    ∙ services-remove_cast_functions configuration

pub All-filter_types :
    (candidates : List String) (types : List (String × Fields))
    → All (λ t. wants t types ≡ true) (filter_types candidates types)
unfolding filter_types
All-filter_types [] types = tt
All-filter_types (t ∷ candidates) types = elim (Bool-cases (wants t types)) [
  | inl e ↦ rw (e, filter_types) (e, All-filter_types candidates types)
  | inr e ↦ rw (e, filter_types) (All-filter_types candidates types)
]

pub All-contains :
    (P : String → Type 0) (xs : List String) (k : String) → All P xs → contains xs k ≡ true → P k
All-contains P [] k a h = cc
All-contains P (x ∷ xs) k (p, a) h = elim (Bool-cases (x == k)) [
  | inl e ↦ rw (← (eq_iff x k).0 e) p
  | inr e ↦ All-contains P xs k a (rw e at h)
]

-- The services of a configuration are maps whose type is a text, and that say whether they are
-- advanced by a Boolean, as far as the code looks.
abbrev pub AreServices : Fields → Type 0
AreServices end = Unit
AreServices (field k svc services) =
    ((svc_map : Fields) × ((valid : Bool) × ((custom : Bool) × (as_object (some svc) ≡ some svc_map)
          × (is_service_valid svc_map ≡ some valid)
          × (is_custom_resource_valid svc_map ≡ some custom))))
    × AreServices services

abbrev pub IsConfiguration : Fields → Type 0
IsConfiguration configuration =
    (services : Fields) × (as_object (get_field "services" configuration) ≡ some services)
    × AreServices services
