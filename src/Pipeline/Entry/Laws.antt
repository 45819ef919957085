-- ===== src/Pipeline/Entry/Laws.antt =====
-- What `Start` and `Sync` come to.
use ibdm.Base.{
  String, ◌≡◌, refl, sym, ap, ◌∙◌, true, false, ◌&&◌, ◌||◌, some, List, [], ◌∷◌, Result, ok, err,
  is_ok, is_some, lookup, arith, Option-cases, inl, inr,
}
use ibdm.Value.{Fields}
use ibdm.Pipeline.{DataMapper, Pipeline, mapper_types}
use ibdm.Pipeline.Trace.{handle_all}
use ibdm.Pipeline.Channel.{State, Reach, emitted}
use ibdm.Pipeline.Channel.Delivery.{finished_complete}
use ibdm.Pipeline.Entry.{Capabilities, Server, Run, start_run, sync_run, run_data_pipeline}

-- A source is asked for exactly the types that have a mapper.
pub lookup-mapper_types :
    (mappers : List (String × DataMapper)) (kind : String)
    → is_some (lookup kind (mapper_types mappers)) ≡ is_some (lookup kind mappers)
unfolding lookup mapper_types
lookup-mapper_types [] kind = refl
lookup-mapper_types ((name, dm) ∷ mappers) kind = ground (arith, lookup-mapper_types mappers kind)

module _ {H W : Type 0} (caps : Capabilities H) (p : Pipeline W) where
  -- `Start` runs something exactly when the server can be made and the source streams or has a
  -- webhook.
  pub is_ok-start_run :
      (server : Result (Server H))
      → is_ok (start_run caps p server)
        ≡ (is_ok server && (is_some caps.event_stream || is_some caps.webhook))
  unfolding start_run
  is_ok-start_run (err e) = refl
  is_ok-start_run (ok server) = elim (Option-cases caps.event_stream) [
    | inr (stream, e) ↦ rw (e, start_run) refl
    | inl e ↦ elim (Option-cases caps.webhook) [
      | inr (hook, k) ↦ rw (e, k, start_run) refl
      | inl k ↦ rw (e, k, start_run) refl
    ]
  ]

  -- A sync that has returned without a cancellation has handled all that the source sends when it is
  -- asked for the types that have a mapper, in order, and its error is the source's.
  pub sync_complete :
      (process : List (String × Fields) → Run) (run : Run) (w : W) (s : State W)
      → caps.sync_process ≡ some process
      → sync_run caps p ≡ ok run
      → Reach p (run_data_pipeline run w) s
      → s.finished ≡ true
      → s.cancelled ≡ false
      → (s.world ≡ handle_all p (emitted (process (mapper_types p.mappers)).0) w)
        × (s.result ≡ (process (mapper_types p.mappers)).1)
  unfolding sync_run
  sync_complete process run w s c h r f k =
      let same : ok run ≡ ok (process (mapper_types p.mappers)) = sym h ∙ rw (c, sync_run) refl in
      let eq : run ≡ process (mapper_types p.mappers) = cc in
      let (_, world, result) = finished_complete p run.0 run.1 w s r f k in
      (world ∙ ap (λ x. handle_all p (emitted x.0) w) eq, result ∙ ap (λ x. x.1) eq)
