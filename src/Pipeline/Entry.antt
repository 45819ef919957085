-- ===== src/Pipeline/Entry.antt =====
-- `Start`, `Sync` and `Stop` of internal/pipeline/pipeline.go: which of the interfaces of the source
-- runs. A run is what is done with the channel and the error in the end (see Channel).
pub mod Laws
use ibdm.Base.{
  ℕ, String, Bool, true, false, Option, none, some, List, [], ◌∷◌, Err, unsupported, wrap, Result,
  ok, err,
}
use ibdm.Value.{Fields}
use ibdm.Pipeline.{DataMapper, Pipeline, mapper_types}
use ibdm.Pipeline.Channel.{Action, State, start}

abbrev pub Run : Type 0
Run = List Action × Option Err

-- What the type assertions on the source give, for webhooks `H`; `close` is given the timeout.
pub record Capabilities (H : Type 0) : Type 0 where
  pub event_stream : Option (List (String × Fields) → Run)
  pub webhook : Option (List (String × Fields) → Result H)
  pub sync_process : Option (List (String × Fields) → Run)
  pub close : Option (ℕ → Option Err)

-- A server that is given the route of a webhook and started; the run is what the handler does and
-- the error that the server ends with.
abbrev pub Server : Type 0 → Type 0
Server H = H → Run

-- The branch of a webhook: without one the run ends at once.
unfoldable pub webhook_run : {H : Type 0} → Server H → Result H → Run
webhook_run server (err e) = ([], some e)
webhook_run server (ok hook) = server hook

module _ {H W : Type 0} (caps : Capabilities H) (p : Pipeline W) where
  -- The run of `Start`; the server beside an event stream has no influence on it.
  unfoldable pub start_run : Result (Server H) → Result Run
  unfolding webhook_run mapper_types
  start_run (err e) = err e
  start_run (ok server) = elim caps.event_stream [
    | some stream ↦ ok (stream (mapper_types p.mappers))
    | none ↦ elim caps.webhook [
      | some get_webhook ↦ ok (webhook_run server (get_webhook (mapper_types p.mappers)))
      | none ↦ err (wrap "source does not support either streaming or webhook data" unsupported)
    ]
  ]

  unfoldable pub sync_run : Result Run
  unfolding mapper_types
  sync_run = elim caps.sync_process [
    | none ↦ err (wrap "source does not support sync operation" unsupported)
    | some process ↦ ok (process (mapper_types p.mappers))
  ]

  unfoldable pub stop : ℕ → Option Err
  stop timeout = elim caps.close [ none ↦ none | some close ↦ close timeout ]

-- Where `runDataPipeline` starts.
abbrev pub run_data_pipeline : {W : Type 0} → Run → W → State W
run_data_pipeline (actions, result) w = start actions result w
