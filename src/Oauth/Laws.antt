-- ===== src/Oauth/Laws.antt =====
-- The token endpoint that is found, and the one that is kept.
use ibdm.Base.{
  String, ◌≡◌, ◌≢◌, refl, sym, ap, ◌∙◌, true, false, Bool-cases, Option-cases, [], ◌⊎◌, inl, inr,
  Err, wrap, message, Result, Result-cases, ok, err, ◌==◌, eq_iff, eqb, if◌then◌else◌,
}
use ibdm.Oauth.{
  err_discovery, TokenSource, Env, Document, Request, Response, normalize_issuer, discovery_url_of,
  endpoint_of, read_document, discover, with_endpoint, resolve_token_endpoint,
}

abbrev missing_endpoint : Err
missing_endpoint = wrap err_discovery (message "discovery document is missing token_endpoint")

not-empty : (s : String) → (s == "") ≡ false → s ≢ ""
not-empty s e h = (let k = (eq_iff s "").1 h in cc)

not-equal : (s : String) → s ≢ "" → (s == "") ≡ false
not-equal s h = elim (Bool-cases (s == "")) [ inl e ↦ absurd (h ((eq_iff s "").0 e)) | inr e ↦ e ]

module _ {W : Type 0} (env : Env W) where
  -- What is asked of a document.
  abbrev pub IsTrusted : TokenSource → Document → Type 0
  IsTrusted p doc =
      (doc.token_endpoint ≢ "")
      × ((p.issuer_url ≡ "")
          ⊎ (normalize_issuer env doc.issuer ≡ normalize_issuer env p.issuer_url))

  given :
      (p : TokenSource) (doc : Document) (endpoint : String)
      → (p.issuer_url ≡ "") ⊎ (normalize_issuer env doc.issuer ≡ normalize_issuer env p.issuer_url)
      → endpoint_of env p doc
        ≡ (if doc.token_endpoint == "" then err (missing_endpoint) else ok doc.token_endpoint)
      → endpoint_of env p doc ≡ ok endpoint
      → (doc.token_endpoint ≡ endpoint) × IsTrusted p doc
  given p doc endpoint trusted same h = elim (Bool-cases (doc.token_endpoint == "")) [
    | inl e ↦ (let k = sym h ∙ same in let m = (rw e at k) in cc)
    | inr e ↦
        let k = sym h ∙ same in
        let m : ok endpoint ≡ ok doc.token_endpoint = (rw e at k) in
        (cc, (λ empty. not-empty doc.token_endpoint e empty, trusted))
  ]

  endpoint_of-IsTrusted :
      (p : TokenSource) (doc : Document) (endpoint : String)
      → endpoint_of env p doc ≡ ok endpoint
      → (doc.token_endpoint ≡ endpoint) × IsTrusted p doc
  unfolding endpoint_of
  endpoint_of-IsTrusted p doc endpoint h =
      let doc_issuer = normalize_issuer env doc.issuer in
      let issuer = normalize_issuer env p.issuer_url in
      elim (Bool-cases (p.issuer_url == "")) [
        | inl e ↦
            given p doc endpoint (inl ((eq_iff p.issuer_url "").0 e)) (rw (e, endpoint_of) refl) h
        | inr e ↦ elim (Bool-cases (doc_issuer == issuer)) [
          | inl k ↦
              given p doc endpoint (inr ((eq_iff doc_issuer issuer).0 k))
                (rw (e, k, endpoint_of) refl) h
          | inr k ↦ (let m = (rw (e, k, endpoint_of) at h) in cc)
        ]
      ]

  read_document-IsTrusted :
      (p : TokenSource) (r : Result Response) (endpoint : String)
      → read_document env p r ≡ ok endpoint
      → (resp : Response) × (doc : Document) × (r ≡ ok resp)
        × (env.decode_document resp.body ≡ ok doc)
        × (doc.token_endpoint ≡ endpoint)
        × IsTrusted p doc
  unfolding read_document
  read_document-IsTrusted p (err e) endpoint h = cc
  read_document-IsTrusted p (ok resp) endpoint h = elim (Bool-cases (eqb resp.status 200)) [
    | inr e ↦ (let k = (rw (e, read_document) at h) in cc)
    | inl e ↦ elim (Result-cases (env.decode_document resp.body)) [
      | inr (f, k) ↦ (let m = (rw (e, k, read_document) at h) in cc)
      | inl (doc, k) ↦
          let (same, trusted) =
            endpoint_of-IsTrusted p doc endpoint (rw (e, k, read_document) at h) in
          (resp, doc, refl, k, same, trusted)
    ]
  ]

  discover-IsTrusted :
      (p : TokenSource) (w : W) (endpoint : String)
      → (discover env p w).0 ≡ ok endpoint
      → (req : Request) × (resp : Response) × (doc : Document) × ((env.send_request req w).0
          ≡ ok resp)
        × (env.decode_document resp.body ≡ ok doc)
        × (doc.token_endpoint ≡ endpoint)
        × IsTrusted p doc
  unfolding discover
  discover-IsTrusted p w endpoint h = elim (Result-cases (discovery_url_of env p)) [
    | inr (f, e) ↦ (let k = (rw (e, discover) at h) in cc)
    | inl (url, e) ↦
        let req : Request = record { method = "GET"; url = url; form = [] } in
        elim (Option-cases (env.new_request req)) [
          | inr (f, k) ↦ (let m = (rw (e, k, discover) at h) in cc)
          | inl k ↦
              let (resp, doc, r, decoded, same, trusted) =
                read_document-IsTrusted p (env.send_request req w).0 endpoint
                  (rw (e, k, discover) at h) in
              (req, resp, doc, r, decoded, same, trusted)
        ]
  ]

  resolve_kept :
      (p : TokenSource) (w : W)
      → (p.token_endpoint == "") ≡ false
      → resolve_token_endpoint env p w ≡ (ok p.token_endpoint, (p, w))
  unfolding resolve_token_endpoint
  resolve_kept p w e = rw (e, resolve_token_endpoint) refl

  resolve_found :
      (p : TokenSource) (w : W) (endpoint : String)
      → (p.token_endpoint == "") ≡ true
      → (discover env p w).0 ≡ ok endpoint
      → resolve_token_endpoint env p w
        ≡ (ok endpoint, (with_endpoint p endpoint, (discover env p w).1))
  unfolding resolve_token_endpoint
  resolve_found p w endpoint e k = rw (e, k, resolve_token_endpoint) refl

  resolve_failed :
      (p : TokenSource) (w : W) (f : Err)
      → (p.token_endpoint == "") ≡ true
      → (discover env p w).0 ≡ err f
      → resolve_token_endpoint env p w ≡ (err f, (p, (discover env p w).1))
  unfolding resolve_token_endpoint
  resolve_failed p w f e k = rw (e, k, resolve_token_endpoint) refl

  -- An endpoint that is found by discovery was read from a document that a request came back with,
  -- is not empty, and the document names the expected issuer whenever one is configured.
  pub resolve_token_endpoint-IsTrusted :
      (p : TokenSource) (w : W) (endpoint : String)
      → p.token_endpoint ≡ ""
      → (resolve_token_endpoint env p w).0 ≡ ok endpoint
      → (req : Request) × (resp : Response) × (doc : Document) × ((env.send_request req w).0
          ≡ ok resp)
        × (env.decode_document resp.body ≡ ok doc)
        × (doc.token_endpoint ≡ endpoint)
        × IsTrusted p doc
  resolve_token_endpoint-IsTrusted p w endpoint none_kept h =
      let empty = (eq_iff p.token_endpoint "").1 none_kept in
      elim (Result-cases (discover env p w).0) [
        | inr (f, k) ↦ (let m = ap (λ r. r.0) (resolve_failed p w f empty k) in cc)
        | inl (found, k) ↦
            let m = ap (λ r. r.0) (resolve_found p w found empty k) in
            let same : found ≡ endpoint = cc in discover-IsTrusted p w endpoint (k ∙ ap ok same)
      ]

  -- An endpoint that is found is kept and is not empty, so that the next call gives it without a
  -- request; a failure keeps nothing, so that the next call tries again.
  pub resolve_token_endpoint_cached :
      (p : TokenSource) (w : W)
      → ((endpoint : String) × (endpoint ≢ "")
          × ((resolve_token_endpoint env p w).0 ≡ ok endpoint)
          × ((later : W)
              → resolve_token_endpoint env (resolve_token_endpoint env p w).1.0 later
                ≡ (ok endpoint, ((resolve_token_endpoint env p w).1.0, later))))
        ⊎ ((e : Err) × ((resolve_token_endpoint env p w).0 ≡ err e)
            × ((resolve_token_endpoint env p w).1.0 ≡ p))
  resolve_token_endpoint_cached p w = elim (Bool-cases (p.token_endpoint == "")) [
    | inr e ↦
        let kept = resolve_kept p w e in
        inl (
          p.token_endpoint,
          not-empty p.token_endpoint e,
          ap (λ r. r.0) kept,
          λ later. (let again = resolve_kept p later e in cc),
        )
    | inl e ↦ elim (Result-cases (discover env p w).0) [
      | inr (f, k) ↦
          let failed = resolve_failed p w f e k in
          inr (f, ap (λ r. r.0) failed, ap (λ r. r.1.0) failed)
      | inl (endpoint, k) ↦
          let found = resolve_found p w endpoint e k in
          let (_, _, _, _, _, same, (filled, _)) = discover-IsTrusted p w endpoint k in
          let full : endpoint ≢ "" = λ h. filled (same ∙ h) in
          inl (
            endpoint,
            full,
            ap (λ r. r.0) found,
            λ later.
                (let again =
                    resolve_kept (with_endpoint p endpoint) later (not-equal endpoint full) in
                  cc),
          )
    ]
  ]
