-- ===== src/Sysdig/Events/Laws.antt =====
-- What an event of a vulnerability becomes.
use text.Mathlib.TextFind.{find_cases}
use text.Mathlib.TextLemmas.{append_assoc}
use text.Mathlib.TextPositions.{slice-append_left, slice-append_right, len-append}
use ibdm.Base.{
  ℕ, ℤ, suc, ◌+◌, String, ◌≡◌, ◌≢◌, refl, sym, ap, ◌∙◌, inl, inr, true, not, Bool-cases, some,
  Option-cases, List, [], ◌∷◌, ◌++◌, map, Result, Result-cases, ok, lookup, All, ltb, ◌==◌, eq_iff,
  arith,
}
use ibdm.Value.{Fields, get_field}
use ibdm.Source.{Data, upsert, wants}
use ibdm.Effect.Laws.{
  Ends, Ended, Always, Ends-bind, Ends-wrapping, Ends-wrapped, Ends-if, Ends-lift, Ends-check,
  Ends-pure, Ends-fail,
}
use ibdm.Http.{Web, Request, concat, is_failure}
use ibdm.Http.Laws.{HasKeys, Ends-send, Ends-deliver}
use ibdm.Sysdig.{vulnerability_type}
use ibdm.Sysdig.Events.{
  VulnerabilityClient, ResultData, WebhookPayload, after, before, extract_result_id,
  vulnerability_data, package_data, packages_data, EventProcessor, vulnerability_event_processor,
  event_processors, resolve_event_type, get_result, process_vulnerability_event, process, handler,
}
use Prim.Native.String.{find, slice, len}

not-found : (n : ℕ) → ltb n (suc n) ≡ true
not-found n = ground arith

some-injective : {A : Type 0} {a b : A} → some a ≡ some b → a ≡ b
some-injective h = cc

after-some :
    (s t rest : String)
    → after s t ≡ some rest
    → (front : String) × (s ≡ concat front (concat t rest))
unfolding after
after-some s t rest h = elim (find_cases s t) [
  | inr miss ↦ (let k = (rw (miss, not-found (len s), after) at h) in cc)
  | inl (u, v, e, at) ↦ elim (Bool-cases (ltb (len s) (find s t))) [
    | inl k ↦ (let m = (rw (k, after) at h) in cc)
    | inr k ↦
        let m = some-injective (rw (k, after) at h) in
        let whole : s ≡ concat (concat u t) v = e ∙ sym (append_assoc u t v) in
        let from : find s t + len t ≡ len (concat u t) = rw (at, len-append u t) refl in
        let to : len s ≡ len (concat u t) + len v = ap len whole ∙ len-append (concat u t) v in
        let n : slice s (find s t + len t) (len s) ≡ v =
          rw (from, to, whole) (slice-append_right (concat u t) v) in
        (u, e ∙ ap (λ r. concat u (concat t r)) (sym n ∙ m))
  ]
]

before-some :
    (s t front : String)
    → before s t ≡ some front
    → (rest : String) × (s ≡ concat front (concat t rest))
unfolding before
before-some s t front h = elim (find_cases s t) [
  | inr miss ↦ (let k = (rw (miss, not-found (len s), before) at h) in cc)
  | inl (u, v, e, at) ↦ elim (Bool-cases (ltb (len s) (find s t))) [
    | inl k ↦ (let m = (rw (k, before) at h) in cc)
    | inr k ↦
        let m = some-injective (rw (k, before) at h) in
        let n : slice s 0 (find s t) ≡ u = rw (at, e) (slice-append_left u (concat t v)) in
        (v, e ∙ ap (λ r. concat r (concat t v)) (sym n ∙ m))
  ]
]

-- An identifier that is found is not empty, and stands in the URL between `results/` and `/overview`.
pub extract_result_id-ok :
    (event_url id : String)
    → extract_result_id event_url ≡ ok id
    → (id ≢ "")
      × ((front : String) × (rest : String) × (event_url
            ≡ concat front (concat "results/" (concat id (concat "/overview" rest)))))
unfolding extract_result_id
extract_result_id-ok event_url id h = elim (Option-cases (after event_url "results/")) [
  | inl e ↦ (let k = (rw (e, extract_result_id) at h) in cc)
  | inr (remaining, e) ↦ elim (Option-cases (before remaining "/overview")) [
    | inl f ↦ (let k = (rw (e, f, extract_result_id) at h) in cc)
    | inr (found, f) ↦ elim (Bool-cases (found == "")) [
      | inl g ↦ (let k = (rw (e, f, g, extract_result_id) at h) in cc)
      | inr g ↦
          let k = (rw (e, f, g, extract_result_id) at h) in
          let same : found ≡ id = cc in
          let (front, at_front) = after-some event_url "results/" remaining e in
          let (rest, at_rest) = before-some remaining "/overview" found f in
          let parts : remaining ≡ concat id (concat "/overview" rest) = rw (← same) at_rest in
          (
            λ empty. (let m = (eq_iff found "").1 (same ∙ empty) in cc),
            (front, rest, at_front ∙ ap (λ r. concat front (concat "results/" r)) parts),
          )
    ]
  ]
]

-- The vulnerabilities of all packages, one after the other.
abbrev pub vulnerabilities_of : List (List Fields) → List Fields
vulnerabilities_of [] = []
vulnerabilities_of (vulns ∷ packages) = vulns ++ vulnerabilities_of packages

package_data-map :
    (pull_string : String) (time : ℕ) (vulns : List Fields)
    → package_data pull_string time vulns ≡ map (vulnerability_data pull_string time) vulns
unfolding package_data
package_data-map pull_string time [] = refl
package_data-map pull_string time (vuln ∷ vulns) =
    ap (λ ds. vulnerability_data pull_string time vuln ∷ ds)
      (package_data-map pull_string time vulns)

map-++ : {A B : Type 0} (f : A → B) (xs ys : List A) → map f (xs ++ ys) ≡ map f xs ++ map f ys
map-++ f [] ys = refl
map-++ f (x ∷ xs) ys = ap (λ zs. f x ∷ zs) (map-++ f xs ys)

-- What a result becomes: an item for each vulnerability of each package, in their order.
pub packages_data-map :
    (pull_string : String) (time : ℕ) (packages : List (List Fields))
    → packages_data pull_string time packages
      ≡ map (vulnerability_data pull_string time) (vulnerabilities_of packages)
unfolding packages_data
packages_data-map pull_string time [] = refl
packages_data-map pull_string time (vulns ∷ packages) =
    rw
      (
        package_data-map pull_string time vulns,
        packages_data-map pull_string time packages,
        map-++ (vulnerability_data pull_string time) vulns (vulnerabilities_of packages),
      )
      refl

-- An upsert of a vulnerability and its image, when it is asked for.
abbrev pub IsStreamed : List (String × Fields) → Data → Type 0
IsStreamed types d =
    (wants vulnerability_type types ≡ true)
    × (d.operation ≡ upsert)
    × (d.kind ≡ vulnerability_type)
    × HasKeys ("vuln" ∷ "img" ∷ []) d

vulnerability_data-IsStreamed :
    (types : List (String × Fields)) (pull_string : String) (time : ℕ) (vulns : List Fields)
    → wants vulnerability_type types ≡ true
    → All (IsStreamed types) (map (vulnerability_data pull_string time) vulns)
unfolding get_field
vulnerability_data-IsStreamed types pull_string time [] asked = tt
vulnerability_data-IsStreamed types pull_string time (vuln ∷ vulns) asked = (
  (asked, refl, refl, (refl, (refl, tt))),
  vulnerability_data-IsStreamed types pull_string time vulns asked,
)

module _ {W : Type 0} (web : Web W) (vc : VulnerabilityClient)
    (decode_result : String → Result ResultData) (decode_payload : String → Result WebhookPayload)
    (unix_micro : ℤ → ℕ) {I : W → Type 0}
    (requests : (req : Request) (w : W) → I w → I (web.send_request req w).1) where
  get_result-Ends : (id : String) → Ends I Always Always (get_result web vc decode_result id)
  unfolding get_result
  get_result-Ends id =
      Ends-bind {Gives = Always} (Ends-wrapping _ (λ _ _. tt) (Ends-check _ (λ _ _. tt))) λ _ _.
        Ends-bind {Gives = Always}
          (Ends-wrapping _ (λ _ _. tt) (Ends-send web _ (requests _) (λ _ _ _. tt) (λ _. tt)))
          λ resp _. Ends-if (is_failure resp.status) (λ _. Ends-fail _ tt) (λ _. Ends-wrapped _ _)

  process-Ends :
      (types : List (String × Fields)) (processor : EventProcessor) (body : String)
      → Ends I Always
          (All (IsStreamed types))
          (process web vc decode_result decode_payload unix_micro processor types body)
  unfolding process process_vulnerability_event
  process-Ends types vulnerability_event_processor body =
      Ends-if (wants vulnerability_type types)
        (λ asked. Ends-bind {Gives = Always} (Ends-wrapped _ _) λ payload _.
          Ends-bind {Gives = Always} (Ends-lift _ (λ _ _. tt) (λ _ _. tt)) λ id _.
            Ends-bind (get_result-Ends id) λ result _.
              Ends-if (not (result.kind == "dockerImage")) (λ _. Ends-pure [] tt)
                λ _.
                  Ends-if (not (result.policy_evaluations_result == "failed"))
                    (λ _. Ends-pure [] tt)
                    (λ _. Ends-pure _ (
                      rw
                        (packages_data-map result.pull_string (unix_micro payload.timestamp)
                          result.packages)
                        (vulnerability_data-IsStreamed types result.pull_string _ _ asked))))
        (λ _. Ends-pure [] tt)

  module _ (decode_envelope : String → Result (String × String)) (types : List (String × Fields))
      (sends : (d : Data) (w : W) → I w → IsStreamed types d → I (web.results d w)) where
    handler-Ends :
        (headers : String → String) (body : String)
        → Ends I
            (λ e. ⊥)
            Always
            (handler web vc decode_result decode_payload unix_micro decode_envelope types headers
              body).1
    unfolding handler
    handler-Ends headers body = elim (Result-cases (resolve_event_type decode_envelope body)) [
      | inr (_, e) ↦ rw (e, handler) (Ends-pure tt tt)
      | inl (event_type, e) ↦ elim (Option-cases (lookup event_type event_processors)) [
        | inl f ↦ rw (e, f, handler) (Ends-pure tt tt)
        | inr (processor, f) ↦
            rw (e, f, handler)
              (Ends-deliver web (IsStreamed types) sends (process-Ends types processor body))
      ]
    ]

    -- The processing of an event always ends, whatever the event is and whatever the server answers;
    -- and what every request keeps of the world, and every upsert of a vulnerability and its image,
    -- when the type is asked for, holds after it if it held before.
    pub sysdig_handler-Ended :
        (headers : String → String) (body : String) (w : W)
        → I w
        → Ended I
            (λ e. ⊥)
            Always
            ((handler web vc decode_result decode_payload unix_micro decode_envelope types headers
                body).1
              w)
    sysdig_handler-Ended headers body w i = (handler-Ends headers body).run w i
