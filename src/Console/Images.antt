-- ===== src/Console/Images.antt =====
-- When a service's image gets the tag "latest".
use Prim.Native.Char.{code}
use text.Mathlib.TextLemmas.{nil-append, cons-append, append-nil, append_cancel_left}
use mathlib.Core.Path.{subst}
use ibdm.Base.{
  ℕ, String, ◌≡◌, ◌≢◌, ◌↔◌, ◌⊎◌, inl, inr, refl, sym, ap, ◌∙◌, Bool, true, false, Bool-cases, ◌||◌,
  List, [], ◌∷◌, ◌++◌, All, is_empty, eqb, ◌==◌, eq_iff, codes, arith,
}
use ibdm.Http.{concat}
use ibdm.Console.{has_byte, last_segment, has_tag, ensure_docker_image_tag}

codes-concat : (a b : String) → codes (concat a b) ≡ codes a ++ codes b
codes-concat String.[] b = ap codes (nil-append b)
codes-concat (String.◌∷◌ c a) b =
    ap codes (cons-append c a b) ∙ ap (λ cs. code c ∷ cs) (codes-concat a b)

-- ":latest"
abbrev latest : List ℕ
latest = codes ":latest"

or_true : (a : Bool) → (a || true) ≡ true
or_true true = refl
or_true false = refl

has_byte-latest : (cs : List ℕ) → has_byte 47 (cs ++ latest) ≡ has_byte 47 cs
unfolding has_byte
has_byte-latest [] = refl
has_byte-latest (c ∷ cs) = rw (has_byte-latest cs, has_byte) refl

last_segment-latest : (cs : List ℕ) → last_segment (cs ++ latest) ≡ last_segment cs ++ latest
unfolding last_segment
last_segment-latest [] = refl
last_segment-latest (c ∷ cs) =
    let more = has_byte-latest cs in
    elim (Bool-cases (has_byte 47 cs)) [
      | inl e ↦ rw (more, e, last_segment) (last_segment-latest cs)
      | inr e ↦ elim (Bool-cases (eqb c 47)) [
        | inl f ↦ rw (more, e, f, last_segment) refl
        | inr f ↦ rw (more, e, f, last_segment) refl
      ]
    ]

not_empty : (cs : List ℕ) → is_empty (cs ++ latest) ≡ false
not_empty [] = refl
not_empty (c ∷ cs) = refl

has_tag-latest : (cs : List ℕ) → has_tag (cs ++ latest) ≡ true
unfolding has_tag
has_tag-latest [] = refl
has_tag-latest (c ∷ cs) = elim (Bool-cases (eqb c 58)) [
  | inl e ↦ rw (e, has_tag, not_empty cs) refl
  | inr e ↦ rw (e, has_tag) (has_tag-latest cs)
]

-- Among the codes of a text, 47 is a slash, 58 a colon and 64 an at sign.
abbrev pub Lacks : ℕ → List ℕ → Type 0
Lacks byte cs = All (λ c. c ≢ byte) cs

-- The last component of a path.
abbrev pub IsSegment : List ℕ → List ℕ → Type 0
IsSegment path segment =
    Lacks 47 segment × ((path ≡ segment) ⊎ ((front : List ℕ) × (path ≡ front ++ 47 ∷ segment)))

-- An at sign, or in the last component of the path a first colon with something behind it.
abbrev pub IsPinned : List ℕ → Type 0
IsPinned path =
    ((front : List ℕ) × ((rest : List ℕ) × (path ≡ front ++ 64 ∷ rest)))
    ⊎ ((name : List ℕ) × (c : ℕ) × (tag : List ℕ) × Lacks 58 name
        × IsSegment path (name ++ 58 ∷ c ∷ tag))

eqb_iff : (a b : ℕ) → (eqb a b ≡ true) ↔ (a ≡ b)
eqb_iff a b = ground arith

has_byte-true :
    (byte : ℕ) (cs : List ℕ)
    → has_byte byte cs ≡ true
    → (front : List ℕ) × ((rest : List ℕ) × (cs ≡ front ++ byte ∷ rest))
unfolding has_byte
has_byte-true byte [] h = cc
has_byte-true byte (c ∷ cs) h = elim (Bool-cases (eqb c byte)) [
  | inl e ↦ ([], (cs, ap (λ b. b ∷ cs) ((eqb_iff c byte).0 e)))
  | inr e ↦
      let (front, (rest, k)) = has_byte-true byte cs (rw (e, has_byte) at h) in
      (c ∷ front, (rest, ap (λ l. c ∷ l) k))
]

has_byte-append : (byte : ℕ) (front rest : List ℕ) → has_byte byte (front ++ byte ∷ rest) ≡ true
unfolding has_byte
has_byte-append byte [] rest = rw ((eqb_iff byte byte).1 refl, has_byte) refl
has_byte-append byte (c ∷ front) rest =
    rw (has_byte-append byte front rest, has_byte) (or_true (eqb c byte))

has_byte-false : (byte : ℕ) (cs : List ℕ) → (has_byte byte cs ≡ false) ↔ Lacks byte cs
unfolding has_byte
has_byte-false byte [] = (λ h. tt, λ h. refl)
has_byte-false byte (c ∷ cs) =
    let more = has_byte-false byte cs in
    let same = eqb_iff c byte in
    elim (Bool-cases (eqb c byte)) [
      | inl e ↦ rw (e, has_byte) (λ h. cc, λ (k, a). absurd (k (same.0 e)))
      | inr e ↦
          rw (e, has_byte) (λ h. (λ k. (let m = same.1 k in cc), more.0 h), λ (k, a). more.1 a)
    ]

last_segment-IsSegment : (cs : List ℕ) → IsSegment cs (last_segment cs)
unfolding last_segment
last_segment-IsSegment [] = (tt, inl refl)
last_segment-IsSegment (c ∷ cs) =
    let (lacks, whole) = last_segment-IsSegment cs in
    let free = has_byte-false 47 cs in
    elim (Bool-cases (has_byte 47 cs)) [
      | inl e ↦
          rw (e, last_segment)
            (elim whole [
              | inl p ↦ let k = free.1 (subst (λ l. Lacks 47 l) (sym p) lacks) in cc
              | inr (front, p) ↦ (lacks, inr (c ∷ front, ap (λ l. c ∷ l) p))
            ])
      | inr e ↦ elim (Bool-cases (eqb c 47)) [
        | inl f ↦
            rw (e, f, last_segment) (free.0 e, inr ([], ap (λ b. b ∷ cs) ((eqb_iff c 47).0 f)))
        | inr f ↦
            rw (e, f, last_segment) ((λ k. (let m = (eqb_iff c 47).1 k in cc), free.0 e), inl refl)
      ]
    ]

last_segment-Lacks : (segment : List ℕ) → Lacks 47 segment → last_segment segment ≡ segment
unfolding last_segment
last_segment-Lacks [] h = refl
last_segment-Lacks (c ∷ cs) (k, h) = elim (Bool-cases (eqb c 47)) [
  | inl e ↦ absurd (k ((eqb_iff c 47).0 e))
  | inr e ↦ rw ((has_byte-false 47 cs).1 h, e, last_segment) refl
]

last_segment-slash :
    (front segment : List ℕ) → Lacks 47 segment → last_segment (front ++ 47 ∷ segment) ≡ segment
unfolding last_segment
last_segment-slash [] segment h = rw ((has_byte-false 47 segment).1 h, last_segment) refl
last_segment-slash (c ∷ front) segment h =
    rw (has_byte-append 47 front segment, last_segment) (last_segment-slash front segment h)

last_segment_unique : (path segment : List ℕ) → IsSegment path segment → last_segment path ≡ segment
last_segment_unique path segment (h, inl p) = rw p (last_segment-Lacks segment h)
last_segment_unique path segment (h, inr (front, p)) = rw p (last_segment-slash front segment h)

has_tag-true :
    (cs : List ℕ)
    → has_tag cs ≡ true
    → (name : List ℕ) × (c : ℕ) × (tag : List ℕ) × Lacks 58 name × (cs ≡ name ++ 58 ∷ c ∷ tag)
unfolding has_tag
has_tag-true [] h = cc
has_tag-true (c ∷ []) h = ground (arith, h)
has_tag-true (c ∷ d ∷ ds) h = elim (Bool-cases (eqb c 58)) [
  | inl e ↦ ([], d, ds, tt, ap (λ b. b ∷ d ∷ ds) ((eqb_iff c 58).0 e))
  | inr e ↦
      let (name, t, tag, lacks, k) = has_tag-true (d ∷ ds) (rw (e, has_tag) at h) in
      (c ∷ name, t, tag, (λ m. (let n = (eqb_iff c 58).1 m in cc), lacks), ap (λ l. c ∷ l) k)
]

has_tag-append :
    (name : List ℕ) (c : ℕ) (tag : List ℕ) → Lacks 58 name → has_tag (name ++ 58 ∷ c ∷ tag) ≡ true
unfolding has_tag
has_tag-append [] c tag h = refl
has_tag-append (d ∷ name) c tag (k, h) = elim (Bool-cases (eqb d 58)) [
  | inl e ↦ absurd (k ((eqb_iff d 58).0 e))
  | inr e ↦ rw (e, has_tag) (has_tag-append name c tag h)
]

-- What the code tests.
abbrev IsKept : List ℕ → Type 0
IsKept cs = (has_byte 64 cs ≡ true) ⊎ (has_tag (last_segment cs) ≡ true)

IsKept-iff : (cs : List ℕ) → IsKept cs ↔ IsPinned cs
IsKept-iff cs = (
  elim [
    | inl h ↦ inl (has_byte-true 64 cs h)
    | inr h ↦
        let (name, c, tag, lacks, k) = has_tag-true (last_segment cs) h in
        inr (name, c, tag, lacks, rw (← k) (last_segment-IsSegment cs))
  ],
  elim [
    | inl (front, (rest, k)) ↦ inl (rw k (has_byte-append 64 front rest))
    | inr (name, c, tag, lacks, segment) ↦
        inr (rw (last_segment_unique cs _ segment) (has_tag-append name c tag lacks))
  ],
)

kept : (image : String) → IsKept (codes image) → ensure_docker_image_tag image ≡ image
unfolding ensure_docker_image_tag
kept image keeps = elim (Bool-cases (image == "")) [
  | inl e ↦ rw (e, ensure_docker_image_tag) refl
  | inr e ↦ elim (Bool-cases (has_byte 64 (codes image))) [
    | inl f ↦ rw (e, f, ensure_docker_image_tag) refl
    | inr f ↦ elim keeps [ inl g ↦ cc | inr g ↦ rw (e, f, g, ensure_docker_image_tag) refl ]
  ]
]

latest-IsKept : (image : String) → IsKept (codes (concat image ":latest"))
latest-IsKept image = inr (
    ap (λ cs. has_tag (last_segment cs)) (codes-concat image ":latest")
    ∙ ap has_tag (last_segment-latest (codes image))
    ∙ has_tag-latest (last_segment (codes image)))

longer : (image : String) → concat image ":latest" ≢ image
longer image h = (let k = append_cancel_left image ":latest" "" (h ∙ sym (append-nil image)) in cc)

unchanged :
    (image : String)
    → (image ≡ "") ⊎ IsPinned (codes image)
    → ensure_docker_image_tag image ≡ image
    → ((ensure_docker_image_tag image ≡ image) ↔ ((image ≡ "") ⊎ IsPinned (codes image)))
      × ((ensure_docker_image_tag image ≡ image)
          ⊎ (ensure_docker_image_tag image ≡ concat image ":latest"))
      × (ensure_docker_image_tag (ensure_docker_image_tag image) ≡ ensure_docker_image_tag image)
unchanged image reason same = ((λ _. reason, λ _. same), inl same, ap ensure_docker_image_tag same)

-- An image stays as it is exactly when it is empty, or has an at sign, or has in the last component of
-- its path a first colon with something behind it, which need not be a tag (another colon will do);
-- every other image gets ":latest"; and doing it again changes nothing.
pub ensure_docker_image_tag_iff :
    (image : String)
    → ((ensure_docker_image_tag image ≡ image) ↔ ((image ≡ "") ⊎ IsPinned (codes image)))
      × ((ensure_docker_image_tag image ≡ image)
          ⊎ (ensure_docker_image_tag image ≡ concat image ":latest"))
      × (ensure_docker_image_tag (ensure_docker_image_tag image) ≡ ensure_docker_image_tag image)
unfolding ensure_docker_image_tag
ensure_docker_image_tag_iff image =
    let pinned = IsKept-iff (codes image) in
    let stays : IsKept (codes image) → ensure_docker_image_tag image ≡ image = kept image in
    elim (Bool-cases (image == "")) [
      | inl e ↦ unchanged image (inl ((eq_iff image "").0 e)) (rw (e, ensure_docker_image_tag) refl)
      | inr e ↦ elim (Bool-cases (has_byte 64 (codes image))) [
        | inl f ↦ unchanged image (inr (pinned.0 (inl f))) (stays (inl f))
        | inr f ↦ elim (Bool-cases (has_tag (last_segment (codes image)))) [
          | inl g ↦ unchanged image (inr (pinned.0 (inr g))) (stays (inr g))
          | inr g ↦
              let more : ensure_docker_image_tag image ≡ concat image ":latest" =
                rw (e, f, g, ensure_docker_image_tag) refl in
              (
                (
                  λ h. absurd (longer image (sym more ∙ h)),
                  elim [
                    | inl h ↦ (let k = (eq_iff image "").1 h in cc)
                    | inr h ↦ stays (pinned.1 h)
                  ],
                ),
                inr more,
                ap ensure_docker_image_tag more
                    ∙ kept (concat image ":latest") (latest-IsKept image)
                    ∙ sym more,
              )
        ]
      ]
    ]
