-- ===== src/Pipeline/Channel/Termination.antt =====
-- When `runDataPipeline` returns.
use ibdm.Base.{
  ℕ, zero, suc, ◌+◌, ◌<◌, ◌≡◌, refl, inl, inr, Bool, true, false, Bool-cases, Option, List, [], ◌∷◌,
  ◌++◌, arith, Err, length,
}
use ibdm.Pipeline.{Pipeline, handle}
use ibdm.Pipeline.Channel.{
  Action, emit, check, State, start, Step, handoff, go_on, give_up, return_close, drain_closed,
  drain_cancelled, cancel, finish, Reach, here, next, Reach-cons,
}
use ibdm.Pipeline.Channel.Delivery.{IsConsistent, reached, Reach-IsConsistent}

abbrev open_flag : Bool → ℕ
open_flag true = 0
open_flag false = 1

-- How much is left to do.
abbrev measure : {W : Type 0} → State W → ℕ
measure s =
    length s.pending
    + open_flag s.returned
    + open_flag s.drained
    + open_flag s.cancelled
    + open_flag s.finished

-- Every step leaves less to do, for a source that has finitely many things to do.
measure-Step : {W : Type 0} (p : Pipeline W) (s t : State W) → Step p s t → measure t < measure s
measure-Step p s t (handoff d rest e k te) = rw (te, e) (omega arith)
measure-Step p s t (go_on stopped rest e k te) = rw (te, e) (omega arith)
measure-Step p s t (give_up stopped rest e k te) = rw (te, e) (omega arith)
measure-Step p s t (return_close e k te) = rw (te, k) (omega arith)
measure-Step p s t (drain_closed e k te) = rw (te, k) (omega arith)
measure-Step p s t (drain_cancelled e k te) = rw (te, k) (omega arith)
measure-Step p s t (cancel k te) = rw (te, k) (omega arith)
measure-Step p s t (finish e k f te) = rw (te, f) (omega arith)

module _ {W : Type 0} (p : Pipeline W) (actions : List Action) (result : Option Err) (w : W) where
  -- Without a cancellation there is always a step until `runDataPipeline` has returned.
  progress :
      (s : State W)
      → IsConsistent p actions result w s
      → s.cancelled ≡ false
      → s.finished ≡ false
      → (t : State W) × Step p s t × (t.cancelled ≡ false)
  progress s c k f = at_source s.pending refl
    where
      not_drained : s.returned ≡ false → s.drained ≡ false
      not_drained r = elim (Bool-cases s.drained) [
        | inr h ↦ h
        | inl h ↦ elim (c.drained_why h) [ inl h' ↦ cc | inr h' ↦ cc ]
      ]

      at_end : s.pending ≡ [] → (t : State W) × Step p s t × (t.cancelled ≡ false)
      at_end e = elim (Bool-cases s.returned) [
        | inr r ↦ (record s { returned = true }, return_close e r refl, k)
        | inl r ↦ elim (Bool-cases s.drained) [
          | inr d ↦ (record s { drained = true }, drain_closed r d refl, k)
          | inl d ↦ (record s { finished = true }, finish r d f refl, k)
        ]
      ]

      still_open : (a : Action) (rest : List Action) → s.pending ≡ a ∷ rest → s.returned ≡ false
      still_open a rest e = elim (Bool-cases s.returned) [
        | inr h ↦ h
        | inl h ↦ (let e' = c.closed_empty h in cc)
      ]

      at_source :
          (l : List Action) → s.pending ≡ l → (t : State W) × Step p s t × (t.cancelled ≡ false)
      at_source [] e = at_end e
      at_source (emit d ∷ rest) e = (
        record s { pending = rest; delivered = s.delivered ++ d ∷ []; world = handle p d s.world },
        handoff d rest e (not_drained (still_open (emit d) rest e)) refl,
        k,
      )
      at_source (check stopped ∷ rest) e =
          (record s { pending = rest }, go_on stopped rest e k refl, k)

  finishes :
      (fuel : ℕ) (s : State W)
      → measure s < fuel
      → IsConsistent p actions result w s
      → s.cancelled ≡ false
      → (t : State W) × Reach p s t × (t.finished ≡ true) × (t.cancelled ≡ false)
  finishes zero s m c k = absurd (omega arith)
  finishes (suc fuel) s m c k = elim (Bool-cases s.finished) [
    | inl f ↦ (s, here, f, k)
    | inr f ↦
        let (t, st, kt) = progress s c k f in
        let (u, run, fu, ku) =
          finishes fuel t (omega (arith, measure-Step p s t st))
            (Reach-IsConsistent p actions result w (next here st) c) kt in
        (u, Reach-cons st run, fu, ku)
  ]

  -- From every state that the pipeline reaches without a cancellation it can still return: there is
  -- no deadlock between the source and the mapping goroutine.
  pub can_finish :
      (s : State W)
      → Reach p (start actions result w) s
      → s.cancelled ≡ false
      → (t : State W) × Reach p s t × (t.finished ≡ true) × (t.cancelled ≡ false)
  can_finish s r k = finishes (suc (measure s)) s (omega arith) (reached p actions result w r) k
