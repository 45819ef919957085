-- ===== src/Pipeline/Channel.antt =====
-- `runDataPipeline` of internal/pipeline/pipeline.go: the source and the mapping goroutine, joined
-- by an unbuffered channel, as a relation between states. A source is a list of what it does with
-- the channel and the context; the handling of one piece of data is one step.
pub mod Delivery
pub mod Termination
pub mod Cancellation
use ibdm.Base.{◌≡◌, Bool, true, false, Option, none, some, List, [], ◌∷◌, ◌++◌, Err}
use ibdm.Source
use ibdm.Pipeline.{Pipeline, handle}

-- Send on the channel, or look at `ctx.Err()` and return, with an error or nil, if it is set.
pub data Action : Type 0 where
  emit : Source.Data → Action
  check : Option Err → Action

-- `pending` is what the source has yet to do and `result` what it returns then; `returned` tells
-- that it has returned and the channel is closed, `drained` that the mapping goroutine has closed
-- `mappingDone`, and `finished` that `runDataPipeline` has returned. `delivered` lists the data that
-- went through the channel.
pub record State (W : Type 0) : Type 0 where
  pub pending : List Action
  pub result : Option Err
  pub returned : Bool
  pub drained : Bool
  pub cancelled : Bool
  pub finished : Bool
  pub delivered : List Source.Data
  pub world : W

abbrev pub start : {W : Type 0} → List Action → Option Err → W → State W
start actions result w = record {
  pending = actions;
  result = result;
  returned = false;
  drained = false;
  cancelled = false;
  finished = false;
  delivered = [];
  world = w;
}

pub data Step {W : Type 0} (p : Pipeline W) (s : State W) : State W → Type 0 where
  -- the source sends and the loop of `mappingData` receives and handles
  handoff :
      {t : State W} (d : Source.Data) (rest : List Action)
      → s.pending ≡ emit d ∷ rest
      → s.drained ≡ false
      → t
        ≡ record s { pending = rest; delivered = s.delivered ++ d ∷ []; world = handle p d s.world }
      → Step p s t
  go_on :
      {t : State W} (stopped : Option Err) (rest : List Action)
      → s.pending ≡ check stopped ∷ rest
      → s.cancelled ≡ false
      → t ≡ record s { pending = rest }
      → Step p s t
  give_up :
      {t : State W} (stopped : Option Err) (rest : List Action)
      → s.pending ≡ check stopped ∷ rest
      → s.cancelled ≡ true
      → t ≡ record s { pending = []; result = stopped }
      → Step p s t
  -- the source returns and the channel is closed
  return_close :
      {t : State W}
      → s.pending ≡ []
      → s.returned ≡ false
      → t ≡ record s { returned = true }
      → Step p s t
  -- the loop sees the closed channel
  drain_closed :
      {t : State W}
      → s.returned ≡ true
      → s.drained ≡ false
      → t ≡ record s { drained = true }
      → Step p s t
  -- the loop sees that the context is done
  drain_cancelled :
      {t : State W}
      → s.cancelled ≡ true
      → s.drained ≡ false
      → t ≡ record s { drained = true }
      → Step p s t
  -- the environment cancels the context
  cancel : {t : State W} → s.cancelled ≡ false → t ≡ record s { cancelled = true } → Step p s t
  finish :
      {t : State W}
      → s.returned ≡ true
      → s.drained ≡ true
      → s.finished ≡ false
      → t ≡ record s { finished = true }
      → Step p s t

pub data Reach {W : Type 0} (p : Pipeline W) (s : State W) : State W → Type 0 where
  here : Reach p s s
  next : {t u : State W} → Reach p s t → Step p t u → Reach p s u

-- What a source sends if nothing stops it.
abbrev pub emitted : List Action → List Source.Data
emitted [] = []
emitted (emit d ∷ rest) = d ∷ emitted rest
emitted (check _ ∷ rest) = emitted rest

pub Reach-cons :
    {W : Type 0} {p : Pipeline W} {s t u : State W} → Step p s t → Reach p t u → Reach p s u
Reach-cons st here = next here st
Reach-cons st (next r st') = next (Reach-cons st r) st'
