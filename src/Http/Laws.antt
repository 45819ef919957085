-- ===== src/Http/Laws.antt =====
-- Proof rules for the calls that reach the world, over an invariant `I` of it.
use ibdm.Base.{
  is_some, true, String, ◌≡◌, none, some, List, [], ◌∷◌, All, Err, Result-cases, ok, inl, inr,
}
use ibdm.Value.{get_field}
use ibdm.Source.{Data}
use ibdm.Effect.{Effect, each, pure}
use ibdm.Effect.Laws.{Ends, Always, Ends-bind, Ends-attempt, Ends-pure}
use ibdm.Http.{
  Web, Request, Response, send, emit, clock, context_error, deliver, unless_done, each_live,
}

abbrev pub HasKeys : List String → Data → Type 0
HasKeys ks d = All (λ k. is_some (get_field k d.values) ≡ true) ks

module _ {W : Type 0} (web : Web W) {I : W → Type 0} {Fails : Err → Type 0} where
  pub Ends-clock : Ends I Fails Always (clock web)
  Ends-clock = record { run = λ w i. (tt, i) }

  pub Ends-context_error : Ends I Fails Always (context_error web)
  Ends-context_error = record { run = λ w i. (tt, i) }

  pub Ends-emit :
      (d : Data) → ((w : W) → I w → I (web.results d w)) → Ends I Fails Always (emit web d)
  Ends-emit d sends = record { run = λ w i. (tt, sends w i) }

  -- What is known of the answer to a request.
  pub Ends-send :
      {Answer : Response → Type 0} (req : Request)
      → ((w : W) → I w → I (web.send_request req w).1)
      → ((w : W) (resp : Response) → (web.send_request req w).0 ≡ ok resp → Answer resp)
      → ((e : Err) → Fails e)
      → Ends I Fails Answer (send web req)
  Ends-send req requests answers fails = record {
    run = λ w i. elim (Result-cases (web.send_request req w).0) [
      | inl (resp, e) ↦ rw e (answers w resp e, requests w i)
      | inr (f, e) ↦ rw e (fails f, requests w i)
    ];
  }

  -- for _, d := range data { results <- d }
  pub Ends-emit_list :
      (Good : Data → Type 0)
      → ((d : Data) (w : W) → I w → Good d → I (web.results d w))
      → (ds : List Data) → All Good ds
      → Ends I Fails Always (each (emit web) ds)
  unfolding each
  Ends-emit_list Good sends [] a = Ends-pure tt tt
  Ends-emit_list Good sends (d ∷ ds) (g, a) =
      Ends-bind (Ends-emit d λ w i. sends d w i g) λ _ _. Ends-emit_list Good sends ds a

  pub Ends-deliver :
      {Handled : Err → Type 0} {processed : Effect W (List Data)} (Good : Data → Type 0)
      → ((d : Data) (w : W) → I w → Good d → I (web.results d w))
      → Ends I Handled (All Good) processed
      → Ends I Fails Always (deliver web processed)
  Ends-deliver Good sends h = Ends-bind (Ends-attempt h) λ r answered. elim (Result-cases r) [
    | inr (f, k) ↦ rw k (Ends-pure tt tt)
    | inl (ds, k) ↦ rw k (Ends-emit_list Good sends ds (rw k at answered))
  ]

  pub Ends-unless_done :
      {m : Effect W Unit} → Ends I Fails Always m → Ends I Fails Always (unless_done web m)
  Ends-unless_done {m = m} h = Ends-bind {Gives = Always} Ends-context_error λ e _.
      elim e as (λ o. Ends I Fails Always (elim o [ some _ ↦ pure tt | none ↦ m ])) [
        | none ↦ h
        | some f ↦ Ends-pure tt tt
      ]

  pub Ends-each_live :
      {A : Type 0} {rest : Effect W Unit} (body : A → Effect W Unit)
      → ((a : A) → Ends I Fails Always (body a))
      → (xs : List A) → Ends I Fails Always rest
      → Ends I Fails Always (each_live web body xs rest)
  unfolding each_live
  Ends-each_live body h [] k = k
  Ends-each_live body h (x ∷ xs) k =
      Ends-unless_done (Ends-bind (h x) λ _ _. Ends-each_live body h xs k)
