-- ===== src/Pipeline/Channel/Delivery.antt =====
-- What has been handled when the pipeline has returned.
use mathlib.Core.Bool.{false≢true}
use mathlib.Core.Path.{ap₂}
use mathlib.Core.List.{append-nil, append_assoc}
use ibdm.Base.{
  ◌≡◌, ◌⊎◌, inl, inr, refl, sym, ap, ◌∙◌, true, false, Option, List, [], ◌∷◌, ◌++◌, arith, Err,
}
use ibdm.Source
use ibdm.Pipeline.{Pipeline, handle}
use ibdm.Pipeline.Trace.{handle_all}
use ibdm.Pipeline.Channel.{
  Action, State, start, Step, handoff, go_on, give_up, return_close, drain_closed, drain_cancelled,
  cancel, finish, Reach, here, next, emitted,
}

handle_all-append :
    {W : Type 0} (p : Pipeline W) (ds : List Source.Data) (d : Source.Data) (w : W)
    → handle_all p (ds ++ d ∷ []) w ≡ handle p d (handle_all p ds w)
handle_all-append p [] d w = refl
handle_all-append p (e ∷ ds) d w = handle_all-append p ds d (handle p e w)

-- `lost` is what the source had still to send when it gave up.
pub record IsConsistent {W : Type 0} (p : Pipeline W) (actions : List Action) (result : Option Err)
    (w : W) (s : State W) : Type 0 where
  pub handled : s.world ≡ handle_all p s.delivered w
  pub lost : List Source.Data
  pub accounted : emitted actions ≡ s.delivered ++ (emitted s.pending ++ lost)
  pub gave_up : ((lost ≡ []) × (s.result ≡ result)) ⊎ ((s.cancelled ≡ true) × (s.pending ≡ []))
  pub closed_empty : s.returned ≡ true → s.pending ≡ []
  pub drained_why : s.drained ≡ true → (s.returned ≡ true) ⊎ (s.cancelled ≡ true)
  pub finished_why : s.finished ≡ true → (s.returned ≡ true) × (s.drained ≡ true)

module _ {W : Type 0} (p : Pipeline W) (actions : List Action) (result : Option Err) (w : W) where
  Step-IsConsistent :
      {s t : State W}
      → Step p s t
      → IsConsistent p actions result w s
      → IsConsistent p actions result w t
  Step-IsConsistent {s} (handoff d rest e k te) c = rw te (record {
    handled = ap (handle p d) c.handled ∙ sym (handle_all-append p s.delivered d w);
    lost = c.lost;
    accounted =
        c.accounted
        ∙ (ap (λ l. s.delivered ++ (emitted l ++ c.lost)) e
            ∙ sym (append_assoc s.delivered (d ∷ []) _));
    gave_up = ground (arith, c.gave_up);
    closed_empty = λ r. ground (arith, c.closed_empty r);
    drained_why = c.drained_why;
    finished_why = c.finished_why;
  })
  Step-IsConsistent {s} (go_on stopped rest e k te) c = rw te (record {
    handled = c.handled;
    lost = c.lost;
    accounted = c.accounted ∙ ap (λ l. s.delivered ++ (emitted l ++ c.lost)) e;
    gave_up = ground (arith, c.gave_up);
    closed_empty = λ r. ground (arith, c.closed_empty r);
    drained_why = c.drained_why;
    finished_why = c.finished_why;
  })
  Step-IsConsistent {s} (give_up stopped rest e k te) c = rw te (record {
    handled = c.handled;
    lost = emitted rest ++ c.lost;
    accounted = c.accounted ∙ ap (λ l. s.delivered ++ (emitted l ++ c.lost)) e;
    gave_up = inr (k, refl);
    closed_empty = λ r. refl;
    drained_why = c.drained_why;
    finished_why = c.finished_why;
  })
  Step-IsConsistent {s} (return_close e k te) c = rw te (ground arith)
  Step-IsConsistent {s} (drain_closed e k te) c = rw te (ground arith)
  Step-IsConsistent {s} (drain_cancelled e k te) c = rw te (ground arith)
  Step-IsConsistent {s} (cancel e te) c = rw te (ground arith)
  Step-IsConsistent {s} (finish e k f te) c = rw te (ground arith)

  start-IsConsistent : IsConsistent p actions result w (start actions result w)
  start-IsConsistent = record {
    handled = refl;
    lost = [];
    accounted = sym (append-nil (emitted actions));
    gave_up = inl (refl, refl);
    closed_empty = λ r. cc;
    drained_why = λ r. cc;
    finished_why = λ r. cc;
  }

  pub Reach-IsConsistent :
      {s t : State W}
      → Reach p s t
      → IsConsistent p actions result w s
      → IsConsistent p actions result w t
  Reach-IsConsistent here c = c
  Reach-IsConsistent (next r st) c = Step-IsConsistent st (Reach-IsConsistent r c)

  pub reached :
      {s : State W} → Reach p (start actions result w) s → IsConsistent p actions result w s
  reached r = Reach-IsConsistent r start-IsConsistent

  pub not_cancelled :
      {s : State W}
      → (c : IsConsistent p actions result w s) → s.cancelled ≡ false
      → (c.lost ≡ []) × (s.result ≡ result)
  not_cancelled c k = elim c.gave_up [ inl h ↦ h | inr (h, _) ↦ absurd (false≢true (sym k ∙ h)) ]

  -- At every moment what has been handled is a first part of what the source sends, each piece once
  -- and in order.
  pub delivered-prefix :
      (s : State W)
      → Reach p (start actions result w) s
      → (s.world ≡ handle_all p s.delivered w)
        × ((later : List Source.Data) × (emitted actions ≡ s.delivered ++ later))
  delivered-prefix s r =
      let c : IsConsistent p actions result w s = reached r in
      (c.handled, (emitted s.pending ++ c.lost, c.accounted))

  -- When `runDataPipeline` has returned and the context was never cancelled, everything that the
  -- source sent has been handled, in order, and the result is the source's.
  pub finished_complete :
      (s : State W)
      → Reach p (start actions result w) s
      → s.finished ≡ true
      → s.cancelled ≡ false
      → (s.delivered ≡ emitted actions)
        × (s.world ≡ handle_all p (emitted actions) w)
        × (s.result ≡ result)
  finished_complete s r f k =
      let c : IsConsistent p actions result w s = reached r in
      let (lost_none, same) = not_cancelled c k in
      let empty = c.closed_empty (c.finished_why f).0 in
      let all : s.delivered ≡ emitted actions = sym (
        c.accounted
        ∙ (ap₂ (λ a l. s.delivered ++ (emitted a ++ l)) empty lost_none
            ∙ append-nil s.delivered)) in
      (all, c.handled ∙ ap (λ ds. handle_all p ds w) all, same)
