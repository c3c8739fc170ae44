-- ===== src/Soak/Tests.antt =====
-- A small trial on a site that keeps its promises: it knows the keys that it has answered, and it does
-- not answer while it is stopped.
use myaqi_iot_platform.Prelude.{
  ℕ, ◌≡◌, refl, Bool, true, false, Option, some, List, [], ◌∷◌, length, contains, if◌then◌else◌,
}
use myaqi_iot_platform.Prelude.Int.{pos}
use myaqi_iot_platform.Prelude.Result.{Result, ok, err}
use myaqi_iot_platform.Python.Text.{Bytes, codes, text_eq, decimal}
use myaqi_iot_platform.Python.Float.{Float, fin, le_int, int_le, scaled}
use myaqi_iot_platform.Python.Json.{Json}
use myaqi_iot_platform.Soak.Plan.{operations_from, round_robin_operations}
use myaqi_iot_platform.Soak.Batches.{
  Batch, size, build_batch, batches_from, build_batches, Covers, readings_of, build_batches-Covers,
}
use myaqi_iot_platform.Soak.Trial.{
  TrialError, PostOutcome, answered, unavailable, Site, send, pop_batches, send_all, send_next,
  send_steady, run_api_outage, run_worker_outage, run_replay, run_operation, run_operations,
}
use myaqi_iot_platform.Soak.Run.{Arguments, Report, prepare, checks, report, run_plan, run_trial}
use myaqi_iot_platform.Soak.Trial.Sound.{Sound}
use myaqi_iot_platform.Soak.Run.Outcomes.{IsAccounted, run_trial-IsAccounted}

abbrev arguments : Arguments
arguments = record {
  readings = pos 7;
  batch_size = pos 2;
  api_faults = pos 1;
  worker_faults = pos 1;
  acknowledgement_replays = pos 1;
  outage_buffer_batches = pos 1;
  outage_seconds = fin (pos 0);
  is_local_origin = true;
}

abbrev made_up : ℕ → Float
made_up sequence = fin (pos 0)

abbrev no_dumps : Json → Bytes
no_dumps j = []

abbrev build : Arguments → Option (List Batch)
build a =
    build_batches made_up (codes "2026-08-23T14:30:00Z") no_dumps (codes "run") a.readings
      a.batch_size

build_batches-Covers_example :
    Covers made_up (codes "now") no_dumps 2 5 1 (
      build_batch made_up (codes "now") no_dumps (codes "run") 1 2
      ∷ build_batch made_up (codes "now") no_dumps (codes "run") 3 4
      ∷ build_batch made_up (codes "now") no_dumps (codes "run") 5 5
      ∷ [])
    × (readings_of (
          build_batch made_up (codes "now") no_dumps (codes "run") 1 2
          ∷ build_batch made_up (codes "now") no_dumps (codes "run") 3 4
          ∷ build_batch made_up (codes "now") no_dumps (codes "run") 5 5
          ∷ [])
        ≡ 5)
unfolding build_batches
build_batches-Covers_example =
    build_batches-Covers made_up (codes "now") no_dumps (codes "run") (pos 5) (pos 2) refl

-- Whether the service runs, and the first sequences of the batches that it has
abbrev ToySite : Type 0
ToySite = Bool × List ℕ

abbrev toy_post : Batch → ToySite → PostOutcome × ToySite
toy_post b (false, known) = (unavailable, (false, known))
toy_post b (true, known) =
    let known_batch = contains b.first_sequence known in
    (
      answered (record {
        status = 202;
        accepted = pos (size b);
        duplicates = pos 0;
        request_id = some (decimal b.first_sequence);
        replayed = known_batch;
        latency_ms = fin (pos 1);
      }),
      (true, if known_batch then known else b.first_sequence ∷ known),
    )

abbrev toy_site : Site ToySite
toy_site = record {
  post_batch = toy_post;
  start_api = λ w. some (true, w.1);
  stop_api = λ w. (false, w.1);
  start_worker = λ w. some w;
  stop_worker = λ w. w;
  pending = λ w. 1;
  sleep = λ w. w;
  wait_for_outbox = λ w. some w;
  are_running = λ w. w.0;
  database_report = λ w. record {
    complete = true;
    missing = 0;
    duplicate_rows = pos 0;
    ingest_requests = length w.1;
    published = length w.1;
    pending = 0;
    dead = 0;
  };
}

run_trial-IsAccounted_example :
    Sound (IsAccounted arguments) (run_trial toy_site build arguments (false, []))
run_trial-IsAccounted_example = run_trial-IsAccounted toy_site build arguments (false, [])

abbrev is_passed : Result TrialError Report → Bool
is_passed (ok r) = r.passed
is_passed (err e) = false

trial_passes : is_passed (run_trial toy_site build arguments (false, [])) ≡ true
unfolding run_trial prepare run_plan report checks run_operations run_operation run_api_outage
    run_worker_outage run_replay send_all send_next send_steady send pop_batches
    round_robin_operations operations_from build_batches batches_from build_batch le_int int_le
    scaled text_eq decimal
trial_passes = refl
