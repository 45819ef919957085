-- ===== src/Pipeline/Tests.antt =====
-- Runs of the pipeline, and its theorems at concrete inputs.
use ibdm.Base.{
  err, wrap, unsupported, ℕ, ◌+◌, ◌≡◌, refl, true, false, none, some, [], ◌∷◌, arith, message, ok,
  lookup,
}
use ibdm.Value.{end}
use ibdm.Source
use ibdm.Source.{DataOperation, upsert, delete, timestamp}
use ibdm.Destination.{Sender}
use ibdm.Pipeline.{Mapper, Pipeline, handle, cancelled, closed, received, mapping_data}
use ibdm.Pipeline.Plan.{send, delete_item, plan}
use ibdm.Pipeline.Trace.{
  observed, made, handle_all, all_calls, handle-observed, mapping_data-delivers,
}
use ibdm.Pipeline.Channel.{
  emit, State, start, Step, handoff, return_close, drain_closed, finish, Reach, here, next, emitted,
}
use ibdm.Pipeline.Entry.{Capabilities, start_run, sync_run}
use ibdm.Pipeline.Entry.Laws.{sync_complete}
use ibdm.Pipeline.Channel.Delivery.{finished_complete}
use ibdm.Pipeline.Channel.Termination.{can_finish}
use ibdm.Pipeline.Channel.Cancellation.{abandoned, abandoned_stuck}

pipeline : Unit {0}
unfolding handle mapping_data lookup timestamp
pipeline = tt

-- A mapper with one extra item.
abbrev repository_mapper : Mapper
repository_mapper = record {
  apply_templates = λ values parent. ok (
    record { identifier = "repo"; metadata = none; spec = some values },
    record {
      api_version = "v1";
      item_family = "relationships";
      identifier = "rel";
      spec = some end;
    }
        ∷ [],
  );
  apply_identifier_template = λ values. ok (
    "repo",
    record { api_version = "v1"; item_family = "relationships"; identifier = "rel"; spec = none }
        ∷ [],
  );
}

abbrev counting : Sender ℕ
counting = record { send_data = λ d n. (none, n + 1); delete_data = λ d n. (none, n + 10) }

-- Refuses every item.
abbrev refusing : Sender ℕ
refusing = record {
  send_data = λ d n. (some (message "no"), n + 1);
  delete_data = λ d n. (some (message "no"), n + 10);
}

abbrev sample : Sender ℕ → Pipeline ℕ
sample s = record {
  mappers =
      (
        "repository",
        record {
          api_version = "v1";
          item_family = "repos";
          extra = end;
          mapper = repository_mapper;
        },
      )
      ∷ [];
  destination = s;
  format = λ t. "t";
  now = λ n. n;
}

abbrev created : Source.Data
created = record { kind = "repository"; operation = upsert; values = end; time = 7 }

abbrev deleted : Source.Data
deleted = record { kind = "repository"; operation = delete; values = end; time = 8 }

abbrev unknown : Source.Data
unknown = record { kind = "issue"; operation = upsert; values = end; time = 9 }

runs :
    (mapping_data
        (sample counting)
        (received created ∷ received unknown ∷ received deleted ∷ closed ∷ [])
        0
      ≡ (true, 22))
    × (mapping_data (sample refusing) (received created ∷ received deleted ∷ []) 0 ≡ (false, 11))
    × (mapping_data (sample counting) (received created ∷ cancelled ∷ received created ∷ []) 0
        ≡ (true, 2))
unfolding pipeline
runs = (refl, refl, refl)

handle-observed_example : handle (observed (sample refusing)) created (0, []) ≡ (
  handle (sample refusing) created 0,
  made refusing (plan (sample refusing).mappers (λ t. "t") created) 0,
)
handle-observed_example = handle-observed (sample refusing) created 0 [] (omega arith)

mapping_data-delivers_example :
    mapping_data
      (observed (sample counting))
      (received created ∷ received deleted ∷ closed ∷ [])
      (0, [])
    ≡ (
      true,
      (
        handle_all (sample counting) (created ∷ deleted ∷ []) 0,
        all_calls (sample counting).mappers (λ t. "t") (created ∷ deleted ∷ []),
      ),
    )
mapping_data-delivers_example =
    mapping_data-delivers (sample counting) (created ∷ deleted ∷ []) 0 []
      (elim [ send d ↦ λ w. refl | delete_item d ↦ λ w. refl ]) (omega arith)

-- A source that sends one piece of data and ends.
abbrev at_start : State ℕ
at_start = start (emit created ∷ []) none 0

abbrev at_sent : State ℕ
at_sent = record at_start {
  pending = [];
  delivered = created ∷ [];
  world = handle (sample counting) created 0;
}

abbrev at_returned : State ℕ
at_returned = record at_sent { returned = true }

abbrev at_drained : State ℕ
at_drained = record at_returned { drained = true }

abbrev at_finished : State ℕ
at_finished = record at_drained { finished = true }

sent-Step : Step (sample counting) at_start at_sent
sent-Step = handoff created [] refl refl refl

whole_run : Reach (sample counting) at_start at_finished
whole_run =
    next
      (next (next (next here sent-Step) (return_close refl refl refl))
        (drain_closed refl refl refl))
      (finish refl refl refl refl)

finished_complete_example :
    (at_finished.delivered ≡ emitted (emit created ∷ []))
    × (at_finished.world ≡ handle_all (sample counting) (emitted (emit created ∷ [])) 0)
    × (at_finished.result ≡ none)
finished_complete_example =
    finished_complete (sample counting) (emit created ∷ []) none 0 at_finished whole_run refl refl

can_finish_example :
    (t : State ℕ) × Reach (sample counting) at_sent t × (t.finished ≡ true) × (t.cancelled ≡ false)
can_finish_example =
    can_finish (sample counting) (emit created ∷ []) none 0 at_sent (next here sent-Step) refl

abandoned_stuck_example :
    Reach (sample counting) at_start (abandoned at_start) × ((abandoned at_start).finished ≡ false)
abandoned_stuck_example =
    abandoned_stuck (sample counting) created [] at_start (abandoned at_start) refl refl refl refl
      refl here

abbrev syncing : Capabilities Unit
syncing = record {
  event_stream = none;
  webhook = none;
  sync_process = some (λ types. (emit created ∷ [], none));
  close = none;
}

only_sync :
    start_run syncing (sample counting) (ok (λ hook. ([], none)))
    ≡ err (wrap "source does not support either streaming or webhook data" unsupported)
unfolding start_run
only_sync = refl

sync_started : sync_run syncing (sample counting) ≡ ok (emit created ∷ [], none)
unfolding sync_run
sync_started = refl

sync_complete_example :
    (at_finished.world ≡ handle_all (sample counting) (emitted (emit created ∷ [])) 0)
    × (at_finished.result ≡ none)
sync_complete_example =
    sync_complete syncing (sample counting) (λ types. (emit created ∷ [], none))
      (emit created ∷ [], none) 0 at_finished refl sync_started whole_run refl refl
