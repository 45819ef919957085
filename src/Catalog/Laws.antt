-- ===== src/Catalog/Laws.antt =====
-- The authentication that the Catalog destination accepts and uses, and the answers it counts as
-- sent.
use ibdm.Base.{
  ◌≡◌, ◌≢◌, ◌↔◌, refl, sym, ◌∙◌, Bool, true, false, not, ◌&&◌, ◌||◌, Bool-cases, Option, none, some,
  Option-cases, inl, inr, ◌⊎◌, Err, is_canceled, Result-cases, ok, err, if◌then◌else◌, arith,
  eqb_iff, is_some,
}
use ibdm.Catalog.Auth.{Settings, is_set, validate_auth_config, validate_private_key_auth_config}
use ibdm.Catalog.{
  handle_error, Transport, default_transport, Env, CatalogDestination, Response, new_transport,
  get_client, answer_error, source_of,
}

-- The method by a private key, or a client and a secret together, or neither of the two.
abbrev pub IsAuth : Settings → Type 0
IsAuth s =
    ((is_set s.private_key_path ≡ true)
      × (is_set s.client_id ≡ true)
      × (is_set s.client_secret ≡ false)
      × ((is_set s.issuer || is_set s.issuer_metadata || is_set s.token_endpoint) ≡ true))
    ⊎ ((is_set s.private_key_path ≡ false) × (is_set s.client_id ≡ is_set s.client_secret))

guards_iff :
    (key id secret source : Bool) (e f g h i : Err)
    → ((if key
          then (if secret
              then some e
              else if not id
              then some f
              else if not source
              then some g
              else none)
          else if id && not secret
          then some h
          else if secret && not id
          then some i
          else none)
        ≡ none)
      ↔ (((key ≡ true) × (id ≡ true) × (secret ≡ false) × (source ≡ true))
          ⊎ ((key ≡ false) × (id ≡ secret)))
guards_iff true id true source e f g h i =
    (λ k. cc, elim [ inl (a, b, d, m) ↦ cc | inr (a, b) ↦ cc ])
guards_iff true false false source e f g h i =
    (λ k. cc, elim [ inl (a, b, d, m) ↦ cc | inr (a, b) ↦ cc ])
guards_iff true true false false e f g h i =
    (λ k. cc, elim [ inl (a, b, d, m) ↦ cc | inr (a, b) ↦ cc ])
guards_iff true true false true e f g h i = (λ k. inl (refl, refl, refl, refl), λ k. refl)
guards_iff false true true source e f g h i = (λ k. inr (refl, refl), λ k. refl)
guards_iff false false false source e f g h i = (λ k. inr (refl, refl), λ k. refl)
guards_iff false true false source e f g h i =
    (λ k. cc, elim [ inl (a, b, d, m) ↦ cc | inr (a, b) ↦ cc ])
guards_iff false false true source e f g h i =
    (λ k. cc, elim [ inl (a, b, d, m) ↦ cc | inr (a, b) ↦ cc ])

-- The settings pass exactly when they name one complete method of authentication or none: a private
-- key needs a client and a place that gives the token endpoint and excludes a secret, and without a
-- key the client and the secret are both set or both not.
pub validate_auth_config_iff : (s : Settings) → (validate_auth_config s ≡ none) ↔ IsAuth s
unfolding validate_auth_config validate_private_key_auth_config
validate_auth_config_iff s =
    guards_iff (is_set s.private_key_path) (is_set s.client_id) (is_set s.client_secret)
      (is_set s.issuer || is_set s.issuer_metadata || is_set s.token_endpoint) _ _ _ _ _

-- An answer counts as sent exactly when its status is 204.
pub answer_error_iff :
    {Key W : Type 0} (env : Env Key W) (resp : Response)
    → (answer_error env resp ≡ none) ↔ (resp.status ≡ 204)
unfolding answer_error handle_error is_canceled
answer_error_iff env resp = ground (arith, eqb_iff resp.status 204)

module _ {Key W : Type 0} (env : Env Key W) where
  abbrev with_client : Settings → Option Key → Option (Transport Key) → CatalogDestination Key
  with_client s key client = record { settings = s; private_key = key; client = client }

  get_client-with_client :
      (s : Settings) (key : Option Key) (client : Option (Transport Key))
      → ((t : Transport Key) × ((get_client env (with_client s key client)).0 ≡ ok t)
          × (get_client env (get_client env (with_client s key client)).1
              ≡ (ok t, (get_client env (with_client s key client)).1)))
        ⊎ ((e : Err) × (get_client env (with_client s key client)
              ≡ (err e, with_client s key client)))
  unfolding get_client
  get_client-with_client s key (some client) = inl (client, refl, refl)
  get_client-with_client s key none = elim (Result-cases (new_transport env s key)) [
    | inr (f, k) ↦ inr (f, rw (k, get_client) refl)
    | inl (t, k) ↦
        let d = with_client s key (some t) in
        let g : get_client env (with_client s key none) ≡ (ok t, d) = rw (k, get_client) refl in
        let g' : get_client env d ≡ (ok t, d) = refl in inl (t, cc, cc)
  ]

  -- The client that the first request makes serves all later ones, and one that cannot be made is
  -- not kept, so that the next request tries again.
  pub get_client_cached :
      (d : CatalogDestination Key)
      → ((t : Transport Key) × ((get_client env d).0 ≡ ok t)
          × (get_client env (get_client env d).1 ≡ (ok t, (get_client env d).1)))
        ⊎ ((e : Err) × (get_client env d ≡ (err e, d)))
  get_client_cached d = get_client-with_client d.settings d.private_key d.client

  -- Settings that pass the validation and name a client never make the client without
  -- authentication, when the file of a private key that is set holds one.
  pub new_transport-authenticated :
      (s : Settings) (keys : Option Key)
      → validate_auth_config s ≡ none
      → is_set s.client_id ≡ true
      → (is_set s.private_key_path ≡ true → is_some keys ≡ true)
      → new_transport env s keys ≢ ok default_transport
  unfolding new_transport
  new_transport-authenticated s keys v c k h = elim (Bool-cases (is_set s.client_secret)) [
    | inl e ↦ (let m = (rw (c, e, new_transport) at h) in cc)
    | inr e ↦ elim ((validate_auth_config_iff s).0 v) [
      | inr (_, a) ↦ (let m = sym c ∙ a in cc)
      | inl (p, _, _, _) ↦ elim (Option-cases keys) [
        | inl o ↦ (let m = k p in let n = (rw o at m) in cc)
        | inr (key, o) ↦ elim (Option-cases (env.new_source (source_of s key))) [
          | inl q ↦ (let m = (rw (c, e, o, q, new_transport) at h) in cc)
          | inr (f, q) ↦ (let m = (rw (c, e, o, q, new_transport) at h) in cc)
        ]
      ]
    ]
  ]
