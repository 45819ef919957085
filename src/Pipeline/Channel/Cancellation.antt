-- ===== src/Pipeline/Channel/Cancellation.antt =====
-- What a cancelled context does to a source that is about to send.
use ibdm.Base.{◌≡◌, refl, true, false, List, ◌∷◌, arith}
use ibdm.Source
use ibdm.Pipeline.{Pipeline}
use ibdm.Pipeline.Channel.{
  Action, emit, State, Step, handoff, go_on, give_up, return_close, drain_closed, drain_cancelled,
  cancel, finish, Reach, here, next,
}

-- The source waits to send and the mapping goroutine is gone.
pub record IsStuck {W : Type 0} (d : Source.Data) (rest : List Action) (s : State W) : Type 0 where
  pub waiting : s.pending ≡ emit d ∷ rest
  pub gone : s.drained ≡ true
  pub open_channel : s.returned ≡ false
  pub unfinished : s.finished ≡ false

-- The context has been cancelled and the mapping goroutine has ended.
abbrev pub abandoned : {W : Type 0} → State W → State W
abandoned s = record s { cancelled = true; drained = true }

module _ {W : Type 0} (p : Pipeline W) (d : Source.Data) (rest : List Action) where
  Step-IsStuck : {s t : State W} → Step p s t → IsStuck d rest s → IsStuck d rest t
  Step-IsStuck (handoff e r h k te) c = (let g = c.gone in cc)
  Step-IsStuck (go_on stopped r h k te) c = (let g = c.waiting in cc)
  Step-IsStuck (give_up stopped r h k te) c = (let g = c.waiting in cc)
  Step-IsStuck (return_close h k te) c = (let g = c.waiting in cc)
  Step-IsStuck (drain_closed h k te) c = (let g = c.gone in cc)
  Step-IsStuck (drain_cancelled h k te) c = (let g = c.gone in cc)
  Step-IsStuck (cancel k te) c = rw te (ground arith)
  Step-IsStuck (finish h k f te) c = (let g = c.open_channel in cc)

  Reach-IsStuck : {s t : State W} → Reach p s t → IsStuck d rest s → IsStuck d rest t
  Reach-IsStuck here c = c
  Reach-IsStuck (next r st) c = Step-IsStuck st (Reach-IsStuck r c)

  -- A cancellation can leave `runDataPipeline` waiting for ever: whenever the source is about to
  -- send while the mapping goroutine still runs and nothing has returned, the context can be
  -- cancelled and the goroutine can end, and from then on no state has finished.
  pub abandoned_stuck :
      (s u : State W)
      → s.pending ≡ emit d ∷ rest
      → s.drained ≡ false
      → s.returned ≡ false
      → s.finished ≡ false
      → s.cancelled ≡ false
      → Reach p (abandoned s) u
      → Reach p s (abandoned s) × (u.finished ≡ false)
  abandoned_stuck s u e k r f c run = (
    next (next here (cancel c refl)) (drain_cancelled refl k refl),
    (Reach-IsStuck run
        (record { waiting = e; gone = refl; open_channel = r; unfinished = f })).unfinished,
  )
