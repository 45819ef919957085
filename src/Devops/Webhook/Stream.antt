-- ===== src/Devops/Webhook/Stream.antt =====
-- What the webhook sends for a request that it accepts.
use ibdm.Base.{
  ℕ, String, ◌≡◌, ◌↔◌, ◌⊎◌, inl, inr, refl, ap, ◌∙◌, true, false, Bool-cases, Option, none, some,
  Option-cases, List, [], ◌∷◌, ◌++◌, Result, Result-cases, ok, All,
}
use ibdm.Value.{
  Value, Items, Fields, text, slice, object, items, get_field, as_text, as_object, as_slice,
}
use ibdm.Source.{Data, DataOperation, upsert, delete}
use ibdm.Effect.{◌>>=◌}
use ibdm.Http.{Web}
use ibdm.Devops.Webhook.{
  Texts, has_suffix, operation_time, extract_data_from_payload, names_event, resource_for,
  event_data, stream_event, dispatch,
}

-- The body is an event of a type with a resource.
abbrev pub IsEvent : (String → Result Fields) → String → String → Fields → Type 0
IsEvent decode_object body event_type resource =
    (payload : Fields) × (decode_object body ≡ ok payload)
    × (get_field "eventType" payload ≡ some (text event_type))
    × (get_field "resource" payload ≡ some (object resource))

-- A list of names has that of an event.
abbrev pub IsListed : Texts → String → List Value → Type 0
IsListed texts event_type names =
    (front : List Value) × (name : String) × (back : List Value) × (names
      ≡ front ++ text name ∷ back)
    × (texts.equal_fold event_type name ≡ true)

-- A type that is asked for names an event.
abbrev pub IsNaming : Texts → String → String × Fields → Type 0
IsNaming texts event_type (_, extra) =
    (names : Items) × (get_field "eventNames" extra ≡ some (slice names))
    × IsListed texts event_type (items names)

-- The time that the resource has, or else the clock's.
abbrev pub IsTime : Texts → ℕ → Fields → ℕ → Type 0
IsTime texts now resource time =
    ((stamp : String) × (get_field "utcTimestamp" resource ≡ some (text stamp))
      × (texts.parse_nano stamp ≡ some time))
    ⊎ ((¬ (
          (stamp : String) × (parsed : ℕ) × (get_field "utcTimestamp" resource ≡ some (text stamp))
          × (texts.parse_nano stamp ≡ some parsed)))
        × (time ≡ now))

-- For a repository what the resource has of it, otherwise the resource.
abbrev pub IsContent : Texts → String → Fields → Fields → Type 0
IsContent texts kind resource values =
    ((texts.equal_fold kind "gitrepository" ≡ true)
      × (get_field "repository" resource ≡ some (object values)))
    ⊎ ((¬ (
          (repo : Fields) × (texts.equal_fold kind "gitrepository" ≡ true)
          × (get_field "repository" resource ≡ some (object repo))))
        × (values ≡ resource))

abbrev pub IsOperation : String → DataOperation → Type 0
IsOperation event_type operation =
    ((has_suffix event_type ".deleted" ≡ true) × (operation ≡ delete))
    ⊎ ((has_suffix event_type ".deleted" ≡ false) × (operation ≡ upsert))

-- The item of an event: of the first type that names it.
abbrev pub IsItem : Texts → List (String × Fields) → ℕ → String → Fields → Data → Type 0
IsItem texts types now event_type resource d =
    ((front : List (String × Fields)) × (extra : Fields) × (back : List (String × Fields)) × (types
        ≡ front ++ (d.kind, extra) ∷ back)
      × All (λ entry. ¬ IsNaming texts event_type entry) front
      × IsNaming texts event_type (d.kind, extra))
    × IsOperation event_type d.operation
    × IsContent texts d.kind resource d.values
    × IsTime texts now resource d.time

as_text-some : (o : Option Value) (s : String) → as_text o ≡ some s → o ≡ some (text s)
as_text-some none s h = cc
as_text-some (some (text t)) s h = cc
as_text-some (some _) s h = cc

as_object-some : (o : Option Value) (m : Fields) → as_object o ≡ some m → o ≡ some (object m)
as_object-some none m h = cc
as_object-some (some (object n)) m h = cc
as_object-some (some _) m h = cc

operation_time-IsTime :
    (texts : Texts) (now : ℕ) (resource : Fields)
    → IsTime texts now resource (operation_time texts.parse_nano now resource)
unfolding operation_time
operation_time-IsTime texts now resource =
    elim (Option-cases (as_text (get_field "utcTimestamp" resource))) [
      | inl e ↦ rw (e, operation_time) (inr (λ (s, t, g, p). (let k = (rw g at e) in cc), refl))
      | inr (stamp, e) ↦
          let g = as_text-some (get_field "utcTimestamp" resource) stamp e in
          elim (Option-cases (texts.parse_nano stamp)) [
            | inl f ↦
                rw (e, f, operation_time)
                  (inr (
                    λ (s, t, g', p). (let m : stamp ≡ s = cc in let k = (rw (← m) at p) in cc),
                    refl,
                  ))
            | inr (time, f) ↦ rw (e, f, operation_time) (inl (stamp, g, f))
          ]
    ]

resource_for-IsContent :
    (texts : Texts) (kind : String) (resource : Fields)
    → IsContent texts kind resource (resource_for texts kind resource)
unfolding resource_for
resource_for-IsContent texts kind resource =
    elim (Bool-cases (texts.equal_fold kind "gitrepository")) [
      | inr e ↦ rw (e, resource_for) (inr (λ (repo, k, g). cc, refl))
      | inl e ↦ elim (Option-cases (as_object (get_field "repository" resource))) [
        | inl f ↦ rw (e, f, resource_for) (inr (λ (repo, k, g). (let m = (rw g at f) in cc), refl))
        | inr (repo, f) ↦
            rw (e, f, resource_for)
              (inl (refl, as_object-some (get_field "repository" resource) repo f))
      ]
    ]

event_data-IsOperation :
    (texts : Texts) (kind event_type : String) (resource : Fields) (time : ℕ)
    → IsOperation event_type (event_data texts kind event_type resource time).operation
event_data-IsOperation texts kind event_type resource time =
    elim (Bool-cases (has_suffix event_type ".deleted")) [
      | inl e ↦ rw e (inl (refl, refl))
      | inr e ↦ rw e (inr (refl, refl))
    ]

names_event-true :
    (texts : Texts) (event_type : String) (names : List Value)
    → names_event texts event_type names ≡ true
    → IsListed texts event_type names
unfolding names_event
names_event-true texts event_type [] h = cc
names_event-true texts event_type (v ∷ names) h =
    let later : names_event texts event_type names ≡ true → IsListed texts event_type (v ∷ names) =
      λ k.
        (let (front, name, back, e, f) = names_event-true texts event_type names k in
          (v ∷ front, name, back, ap (λ l. v ∷ l) e, f)) in
    elim (Option-cases (as_text (some v))) [
      | inl e ↦ later (rw (e, names_event) at h)
      | inr (name, e) ↦ elim (Bool-cases (texts.equal_fold event_type name)) [
        | inl f ↦
            let m = as_text-some (some v) name e in
            let g : v ≡ text name = cc in ([], name, names, ap (λ x. x ∷ names) g, f)
        | inr f ↦ later (rw (e, f, names_event) at h)
      ]
    ]

names_event-append :
    (texts : Texts) (event_type : String) (front : List Value) (name : String) (back : List Value)
    → texts.equal_fold event_type name ≡ true
    → names_event texts event_type (front ++ text name ∷ back) ≡ true
unfolding names_event
names_event-append texts event_type [] name back h = rw (h, names_event) refl
names_event-append texts event_type (v ∷ front) name back h =
    let later = names_event-append texts event_type front name back h in
    elim (Option-cases (as_text (some v))) [
      | inl e ↦ rw (e, names_event) later
      | inr (other, e) ↦ elim (Bool-cases (texts.equal_fold event_type other)) [
        | inl f ↦ rw (e, f, names_event) refl
        | inr f ↦ rw (e, f, names_event) later
      ]
    ]

names_of :
    (texts : Texts) (event_type : String) (o : Option Value)
    → names_event texts event_type (as_slice o) ≡ true
    → (names : Items) × (o ≡ some (slice names)) × IsListed texts event_type (items names)
unfolding names_event
names_of texts event_type (some (slice names)) h =
    (names, refl, names_event-true texts event_type (items names) h)
names_of texts event_type none h = cc
names_of texts event_type (some _) h = cc

IsNaming-iff :
    (texts : Texts) (event_type kind : String) (extra : Fields)
    → (names_event texts event_type (as_slice (get_field "eventNames" extra)) ≡ true)
      ↔ IsNaming texts event_type (kind, extra)
IsNaming-iff texts event_type kind extra = (
  names_of texts event_type (get_field "eventNames" extra),
  λ (names, e, (front, name, back, l, f)).
      rw (e, l) (names_event-append texts event_type front name back f),
)

extract_data_from_payload-ok :
    (texts : Texts) (now : ℕ) (payload : Fields) (event_type : String) (resource : Fields)
    (time : ℕ)
    → extract_data_from_payload texts.parse_nano now payload ≡ ok (event_type, resource, time)
    → (get_field "eventType" payload ≡ some (text event_type))
      × (get_field "resource" payload ≡ some (object resource))
      × IsTime texts now resource time
unfolding extract_data_from_payload
extract_data_from_payload-ok texts now payload event_type resource time h =
    elim (Option-cases (get_field "eventType" payload)) [
      | inl e ↦ (let k = (rw (e, extract_data_from_payload) at h) in cc)
      | inr (v, e) ↦ elim (Option-cases (as_object (get_field "resource" payload))) [
        | inl f ↦ (let k = (rw (e, f, extract_data_from_payload) at h) in cc)
        | inr (m, f) ↦ elim (Option-cases (as_text (some v))) [
          | inl g ↦ (let k = (rw (e, f, g, extract_data_from_payload) at h) in cc)
          | inr (s, g) ↦
              let k = (rw (e, f, g, extract_data_from_payload) at h) in
              let same_type : s ≡ event_type = cc in
              let same_resource : m ≡ resource = cc in
              let same_time : operation_time texts.parse_nano now m ≡ time = cc in
              (
                e ∙ as_text-some (some v) s g ∙ ap (λ t. some (text t)) same_type,
                as_object-some (get_field "resource" payload) m f
                    ∙ ap (λ t. some (object t)) same_resource,
                rw (← same_time, ← same_resource) (operation_time-IsTime texts now m),
              )
        ]
      ]
    ]

extract_data_from_payload-err :
    (texts : Texts) (now : ℕ) (payload : Fields) (event_type : String) (resource : Fields)
    → get_field "eventType" payload ≡ some (text event_type)
    → get_field "resource" payload ≡ some (object resource)
    → extract_data_from_payload texts.parse_nano now payload
      ≡ ok (event_type, resource, operation_time texts.parse_nano now resource)
unfolding extract_data_from_payload
extract_data_from_payload-err texts now payload event_type resource e f =
    rw (e, f, extract_data_from_payload) refl

module _ {W : Type 0} (web : Web W) (texts : Texts) where
  -- No type names the event and nothing is sent, or the item for the first that does is sent.
  stream_event-cases :
      (now : ℕ) (event_type : String) (resource : Fields) (time : ℕ)
      → IsTime texts now resource time
      → (types : List (String × Fields)) (w : W)
      → (All (λ entry. ¬ IsNaming texts event_type entry) types
          × (stream_event web texts event_type resource time types w ≡ some (ok tt, w)))
        ⊎ ((d : Data) × IsItem texts types now event_type resource d
            × (stream_event web texts event_type resource time types w
                ≡ some (ok tt, web.results d w)))
  unfolding stream_event
  stream_event-cases now event_type resource time timed [] w = inl (tt, refl)
  stream_event-cases now event_type resource time timed ((kind, extra) ∷ types) w =
      let naming = IsNaming-iff texts event_type kind extra in
      elim (Bool-cases (names_event texts event_type (as_slice (get_field "eventNames" extra)))) [
        | inl e ↦ inr (
          event_data texts kind event_type resource time,
          (
            ([], extra, types, refl, tt, naming.0 e),
            event_data-IsOperation texts kind event_type resource time,
            resource_for-IsContent texts kind resource,
            timed,
          ),
          rw (e, stream_event) refl,
        )
        | inr e ↦
            let unnamed : ¬ IsNaming texts event_type (kind, extra) =
              λ n. (let k = naming.1 n in cc) in
            elim (stream_event-cases now event_type resource time timed types w) [
              | inl (none_named, h) ↦ inl ((unnamed, none_named), rw (e, stream_event) h)
              | inr (d, ((front, x, back, s, a, n), o, c, t), h) ↦ inr (
                d,
                (
                  ((kind, extra) ∷ front, x, back, ap (λ l. (kind, extra) ∷ l) s, (unnamed, a), n),
                  o,
                  c,
                  t,
                ),
                rw (e, stream_event) h,
              )
            ]
      ]

  -- What runs after an accepted request ends without an error. Either the body is no event, or no type
  -- names the event, and nothing is sent; or one item is sent, for the first type that names the event:
  -- a deletion if the event ends in ".deleted", else an upsert; with the resource, or with what it has
  -- of a repository; and with the time of the resource, or else the clock's.
  pub devops_dispatch-cases :
      (types : List (String × Fields)) (body : String) (w : W)
      → ((¬ (
            (event_type : String) × (resource : Fields) × IsEvent web.decode_object body event_type
              resource))
          × (dispatch web texts types body w ≡ some (ok tt, w)))
        ⊎ ((event_type : String) × (resource : Fields) × IsEvent web.decode_object body event_type
              resource
            × ((All (λ entry. ¬ IsNaming texts event_type entry) types
                  × (dispatch web texts types body w ≡ some (ok tt, w)))
                ⊎ ((d : Data) × IsItem texts types (web.now w) event_type resource d
                    × (dispatch web texts types body w ≡ some (ok tt, web.results d w)))))
  unfolding dispatch ◌>>=◌
  devops_dispatch-cases types body w = elim (Result-cases (web.decode_object body)) [
    | inr (e, k) ↦ inl (λ (t, r, (payload, d, a, b)). cc, rw (k, dispatch) refl)
    | inl (payload, k) ↦
        elim (Result-cases (extract_data_from_payload texts.parse_nano (web.now w) payload)) [
          | inr (e, m) ↦ inl (
            λ (t, r, (other, d, a, b)).
                (let same : payload ≡ other = cc in
                  let n =
                    extract_data_from_payload-err texts (web.now w) payload t r (rw same a)
                      (rw same b) in
                  cc),
            rw (k, dispatch, ◌>>=◌, m) refl,
          )
          | inl ((event_type, resource, time), m) ↦
              let (a, b, timed) =
                extract_data_from_payload-ok texts (web.now w) payload event_type resource time m in
              inr (
                event_type,
                resource,
                (payload, k, a, b),
                rw (k, dispatch, ◌>>=◌, m)
                    (stream_event-cases (web.now w) event_type resource time timed types w),
              )
        ]
  ]
