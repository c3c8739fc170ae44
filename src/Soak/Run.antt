-- ===== src/Soak/Run.antt =====
-- `run_trial` of soak/run_software.py as a whole: its arguments, its plan and its report.
pub mod Outcomes
use myaqi_iot_platform.Prelude.{
  ℕ, zero, suc, ◌+◌, ◌-◌, ◌*◌, ◌/◌, min, max, Bool, true, false, ◌&&◌, ◌||◌, not, Option, none,
  some, List, [], ◌∷◌, ◌++◌, ltb, ◌==◌, if◌then◌else◌, length,
}
use myaqi_iot_platform.Prelude.Int.{ℤ, pos, ◌+ℤ◌, leb_ℤ, pos_part}
use myaqi_iot_platform.Prelude.Result.{Result, ok, err, raise_if, or_raise, ◌>>=◌, ◌>>◌}
use myaqi_iot_platform.Python.Text.{Text, Bytes, text_eq}
use myaqi_iot_platform.Python.Float.{Float, int_le, le_int}
use myaqi_iot_platform.Python.Json.{Json}
use myaqi_iot_platform.Soak.Plan.{
  Operation, api_outage, worker_outage, acknowledgement_replay, round_robin_operations,
}
use myaqi_iot_platform.Soak.Batches.{Batch, size, readings_of, build_batches}
use myaqi_iot_platform.Soak.Trial.{
  TrialError, invalid_fault_counts, invalid_outage, not_a_local_origin, invalid_sizes,
  not_enough_batches, upload_unavailable, upload_refused, unexpected_status, not_covered,
  unexpected_replay, upload_succeeded, not_running, outbox_not_drained, index_error, UploadResult,
  PostOutcome, answered, unavailable, refused, DatabaseReport, Site, Fault, api_fault, worker_fault,
  replay_fault, Trial, eq_ℤ, start_api, start_worker, wait_for_outbox, run_operations, send_steady,
}

-- The command line; `is_local_origin` is the test of the parsed URL.
pub record Arguments : Type 0 where
  pub readings : ℤ
  pub batch_size : ℤ
  pub api_faults : ℤ
  pub worker_faults : ℤ
  pub acknowledgement_replays : ℤ
  pub outage_buffer_batches : ℤ
  pub outage_seconds : Float
  pub is_local_origin : Bool

-- `x < 0`
abbrev pub is_negative : ℤ → Bool
is_negative n = not (leb_ℤ (pos 0) n)

abbrev pub is_negative_float : Float → Bool
is_negative_float x = le_int x (pos 0) && not (int_le (pos 0) x)

abbrev pub plan_of : Arguments → List Operation
plan_of a =
    round_robin_operations (pos_part a.api_faults) (pos_part a.worker_faults)
      (pos_part a.acknowledgement_replays)

-- The smallest number of batches for the plan
abbrev pub minimum_batches : Arguments → ℕ
minimum_batches a =
    (pos_part a.api_faults + pos_part a.worker_faults) * pos_part a.outage_buffer_batches
    + pos_part a.acknowledgement_replays

-- The checks of the arguments, and the batches
unfoldable pub prepare :
    (Arguments → Option (List Batch)) → Arguments → Result TrialError (List Batch)
prepare build a = do
  raise_if
      (is_negative a.api_faults
        || (is_negative a.worker_faults || is_negative a.acknowledgement_replays))
      invalid_fault_counts
  raise_if (not (leb_ℤ (pos 1) a.outage_buffer_batches) || is_negative_float a.outage_seconds)
      invalid_outage
  raise_if (not a.is_local_origin) not_a_local_origin
  batches ← or_raise (build a) invalid_sizes
  raise_if (ltb (length batches) (minimum_batches a)) not_enough_batches
  ok batches

-- What the report counts
pub record Report : Type 0 where
  pub initial_batch_count : ℕ
  pub accepted_readings : ℤ
  pub uploaded_batches : ℕ
  pub replayed_batches : ℕ
  pub failed_upload_attempts : ℕ
  pub api_restarts : ℕ
  pub worker_restarts : ℕ
  pub max_device_queue_readings : ℕ
  pub max_outbox_pending : ℕ
  pub latencies : List Float
  pub faults : List Fault
  pub database : DatabaseReport
  pub passed : Bool

abbrev pub is_recovered_replay : Fault → Bool
is_recovered_replay (replay_fault first last same) = same
is_recovered_replay _ = true

abbrev pub all_identical : List Fault → Bool
all_identical [] = true
all_identical (f ∷ fs) = is_recovered_replay f && all_identical fs

-- `all(checks.values())`
unfoldable pub checks : Arguments → ℕ → DatabaseReport → Report → Bool
checks a initial d r =
    eq_ℤ r.accepted_readings a.readings
    && (d.complete
        && (d.missing == 0
            && (eq_ℤ d.duplicate_rows (pos 0)
                && (d.ingest_requests == initial
                    && (d.published == initial
                        && (d.pending == 0
                            && (d.dead == 0
                                && (length r.faults == length (plan_of a)
                                    && (eq_ℤ (pos r.replayed_batches) a.acknowledgement_replays
                                        && all_identical r.faults)))))))))

module _ {W : Type 0} (s : Site W) where
  abbrev pub begin : W → List Batch → Trial W
  begin site batches = record {
    site = site;
    batches = batches;
    uploaded_batches = 0;
    replayed_batches = 0;
    failed_upload_attempts = 0;
    accepted_readings = pos 0;
    max_device_queue = 0;
    max_outbox_pending = 0;
    latencies = [];
    faults = [];
    api_starts = 0;
    worker_starts = 0;
  }

  unfoldable pub report : Arguments → ℕ → Trial W → Report
  unfolding checks
  report a initial t =
      let d = s.database_report t.site in
      let counted : Report = record {
        initial_batch_count = initial;
        accepted_readings = t.accepted_readings;
        uploaded_batches = t.uploaded_batches;
        replayed_batches = t.replayed_batches;
        failed_upload_attempts = t.failed_upload_attempts;
        api_restarts = t.api_starts - 1;
        worker_restarts = t.worker_starts - 1;
        max_device_queue_readings = t.max_device_queue;
        max_outbox_pending = t.max_outbox_pending;
        latencies = t.latencies;
        faults = t.faults;
        database = d;
        passed = false;
      } in
      record counted { passed = checks a initial d counted }

  -- The body of the `try`
  unfoldable pub run_plan : ℕ → List Operation → Trial W → Result TrialError (Trial W)
  unfolding run_operations send_steady
  run_plan buffer plan t = do
    api ← start_api s t
    worker ← start_worker s api
    faulted ← run_operations s buffer plan worker
    sent ← send_steady s (length faulted.batches) faulted
    drained ← wait_for_outbox s sent
    raise_if (not (s.are_running drained.site)) not_running
    ok drained

  unfoldable pub run_trial :
      (Arguments → Option (List Batch)) → Arguments → W → Result TrialError Report
  unfolding prepare run_plan report
  run_trial build a site = do
    batches ← prepare build a
    last ← run_plan (pos_part a.outage_buffer_batches) (plan_of a) (begin site batches)
    ok (report a (length batches) last)
