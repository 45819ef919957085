-- ===== src/Bitbucket/Processors/Laws.antt =====
-- What the processor makes of an event, and the two parts of a full name.
use ibdm.Base.{
  String, ◌≡◌, ◌≢◌, ◌↔◌, refl, sym, ap, ◌∙◌, inl, inr, true, false, ◌||◌, Bool-cases, some,
  Option-cases, List, [], Err, All, is_some, eqb, eqb_iff, ◌==◌, codes,
}
use ibdm.Value.{Fields, get_field, as_text, as_object, text_or_empty}
use ibdm.Source.{Data, upsert, wants}
use ibdm.Effect.Laws.{
  Ends, Always, Ends-bind, Ends-attempt, Ends-wrapped, Ends-if, Ends-pure, Ends-fail,
}
use ibdm.Http.{Web, Request, concat}
use ibdm.Http.Laws.{Ends-clock}
use ibdm.Bitbucket.{Client}
use ibdm.Bitbucket.Laws.{get_repository-Ends}
use ibdm.Bitbucket.Sync.{repository_type}
use ibdm.Bitbucket.Processors.{
  cut_slash, split_full_name, updated_on_or_now, repository_of, or_else, process_repository_event,
  EventProcessor, repository_event_processor, process,
}
use Prim.Native.Char.{Char, code}
use Prim.Native.String.append
use text.Mathlib.TextEquality.{codes_equal}

-- An upsert of a repository, when it is asked for.
abbrev pub IsStreamed : List (String × Fields) → Data → Type 0
IsStreamed types d =
    (d.operation ≡ upsert)
    × (d.kind ≡ repository_type)
    × (wants repository_type types ≡ true)
    × (is_some (get_field repository_type d.values) ≡ true)

module _ {W : Type 0} (web : Web W) {I : W → Type 0} where
  updated_on_or_now-Ends :
      {Fails : Err → Type 0} (item : Fields) → Ends I Fails Always (updated_on_or_now web item)
  unfolding updated_on_or_now
  updated_on_or_now-Ends item = elim (Option-cases (as_text (get_field "updated_on" item))) [
    | inl e ↦ rw (e, updated_on_or_now) (Ends-clock web)
    | inr (s, e) ↦ elim (Option-cases (web.parse_time s)) [
      | inl k ↦ rw (e, k, updated_on_or_now) (Ends-clock web)
      | inr (t, k) ↦ rw (e, k, updated_on_or_now) (Ends-pure t tt)
    ]
  ]

  repository_of-Ends : (payload : Fields) → Ends I Always Always (repository_of web payload)
  unfolding repository_of
  repository_of-Ends payload = elim (Option-cases (get_field "repository" payload)) [
    | inl e ↦ rw (e, repository_of) (Ends-fail _ tt)
    | inr (v, e) ↦ elim (Option-cases (as_object (some v))) [
      | inl k ↦ rw (e, k, repository_of) (Ends-fail _ tt)
      | inr (repo, k) ↦ rw (e, k, repository_of) (Ends-pure repo tt)
    ]
  ]

  module _ (c : Client) (requests : (req : Request) (w : W) → I w → I (web.send_request req w).1)
      (types : List (String × Fields)) where
    process_repository_event-Ends :
        (body : String)
        → Ends I Always (All (IsStreamed types)) (process_repository_event web c types body)
    unfolding process_repository_event get_field
    process_repository_event-Ends body =
        Ends-if (wants repository_type types)
          (λ a. Ends-bind (Ends-wrapped _ (web.decode_object body)) λ payload _.
            Ends-bind (repository_of-Ends payload) λ repo _.
              let parts = split_full_name (text_or_empty (get_field "full_name" repo)) in
              Ends-if (parts.0 == "" || parts.1 == "") (λ _. Ends-fail _ tt)
                λ _.
                  Ends-bind (Ends-attempt (get_repository-Ends web c requests parts.0 parts.1))
                    λ r _.
                      Ends-bind (updated_on_or_now-Ends (or_else web r repo))
                        λ time _. Ends-pure _ ((refl, refl, a, refl), tt))
          (λ _. Ends-pure [] tt)

    pub process-Ends :
        (p : EventProcessor) (body : String)
        → Ends I Always (All (IsStreamed types)) (process web c p types body)
    unfolding process
    process-Ends repository_event_processor body = process_repository_event-Ends body

-- No slash among the characters of a text.
abbrev pub NoSlash : String → Type 0
NoSlash s = All (λ c. eqb c 47 ≡ false) (codes s)

cons-append : (c : Char) (s t : String) → concat (String.◌∷◌ c s) t ≡ String.◌∷◌ c (concat s t)
cons-append c s t = append.cons c s t

abbrev slash : Char
slash = "/"

slash-append : (rest : String) → concat "/" rest ≡ String.◌∷◌ slash rest
slash-append rest = cons-append slash "" rest ∙ ap (λ t. String.◌∷◌ slash t) (append.nil rest)

is_slash : (c : Char) → eqb (code c) 47 ≡ true → c ≡ slash
is_slash c h = (let e = (eqb_iff (code c) 47).0 h in codes_equal c slash (rw e refl))

cut_slash-append :
    (front rest : String)
    → NoSlash front
    → cut_slash (concat front (concat "/" rest)) ≡ some (front, rest)
unfolding cut_slash
cut_slash-append String.[] rest h = ap cut_slash (append.nil (concat "/" rest) ∙ slash-append rest)
cut_slash-append (String.◌∷◌ c s) rest (n, h) =
    ap cut_slash (cons-append c s (concat "/" rest)) ∙ rw (n, cut_slash-append s rest h) refl

some-injective : {A : Type 0} {a b : A} → some a ≡ some b → a ≡ b
some-injective h = cc

cut_slash-some :
    (s front rest : String)
    → cut_slash s ≡ some (front, rest)
    → (s ≡ concat front (concat "/" rest)) × NoSlash front
unfolding cut_slash
cut_slash-some String.[] front rest h = cc
cut_slash-some (String.◌∷◌ c s) front rest h = elim (Bool-cases (eqb (code c) 47)) [
  | inl e ↦
      let m : some ("", s) ≡ some (front, rest) = (rw e at h) in
      (
        ap (λ d. String.◌∷◌ d s) (is_slash c e)
            ∙ sym (slash-append s)
            ∙ sym (append.nil (concat "/" s))
            ∙ ap (λ p. concat p.0 (concat "/" p.1)) (some-injective m),
        rw (← ap (λ p. p.0) (some-injective m)) tt,
      )
  | inr e ↦ elim (Option-cases (cut_slash s)) [
    | inl k ↦ (let m = (rw (e, k) at h) in cc)
    | inr ((f, r), k) ↦
        let m : some (String.◌∷◌ c f, r) ≡ some (front, rest) = (rw (e, k) at h) in
        let (joined, none_before) = cut_slash-some s f r k in
        (
          ap (λ t. String.◌∷◌ c t) joined
              ∙ sym (cons-append c f (concat "/" r))
              ∙ ap (λ p. concat p.0 (concat "/" p.1)) (some-injective m),
          rw (← ap (λ p. p.0) (some-injective m)) (e, none_before),
        )
  ]
]

-- A full name splits into a workspace, which is not empty, and a repository exactly when it is the
-- workspace, which has no slash, a slash and the repository.
pub split_full_name_iff :
    (full_name workspace repo : String)
    → workspace ≢ ""
    → (split_full_name full_name ≡ (workspace, repo))
      ↔ ((full_name ≡ concat workspace (concat "/" repo)) × NoSlash workspace)
unfolding split_full_name
split_full_name_iff full_name workspace repo filled = (
  λ h. elim (Option-cases (cut_slash full_name)) [
    | inl e ↦ absurd (filled (sym (ap (λ p. p.0) (rw (e, split_full_name) at h))))
    | inr (parts, e) ↦
        cut_slash-some full_name workspace repo (e ∙ ap some (rw (e, split_full_name) at h))
  ],
  λ (e, h). rw (e, cut_slash-append workspace repo h, split_full_name) refl,
)
