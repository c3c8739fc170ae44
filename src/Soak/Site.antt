-- ===== src/Soak/Site.antt =====
-- What a trial of soak/run_software.py meets and remembers: its exceptions, the uploads and what they
-- return, the processes and the database as a site, and its counters.
use myaqi_iot_platform.Prelude.{ℕ, Bool, Option, List}
use myaqi_iot_platform.Prelude.Int.{ℤ}
use myaqi_iot_platform.Python.Text.{Text}
use myaqi_iot_platform.Python.Float.{Float}
use myaqi_iot_platform.Soak.Batches.{Batch}

-- The exceptions of a trial
pub data TrialError : Type 0 where
  invalid_fault_counts invalid_outage not_a_local_origin invalid_sizes not_enough_batches :
      TrialError
  upload_unavailable upload_refused unexpected_status not_covered unexpected_replay : TrialError
  upload_succeeded not_running outbox_not_drained index_error : TrialError

-- `UploadResult`; the counts are those that int() reads of the body.
pub record UploadResult : Type 0 where
  pub status : ℕ
  pub accepted : ℤ
  pub duplicates : ℤ
  pub request_id : Option Text
  pub replayed : Bool
  pub latency_ms : Float

-- What `post_batch` returns, or raises
pub data PostOutcome : Type 0 where
  answered : UploadResult → PostOutcome
  unavailable refused : PostOutcome

-- What `database_report` reads
pub record DatabaseReport : Type 0 where
  pub complete : Bool
  pub missing : ℕ
  pub duplicate_rows : ℤ
  pub ingest_requests : ℕ
  pub published : ℕ
  pub pending : ℕ
  pub dead : ℕ

-- The processes and the services of a trial; `none` where a call raises
pub record Site (W : Type 0) : Type 0 where
  pub post_batch : Batch → W → PostOutcome × W
  pub start_api : W → Option W
  pub stop_api : W → W
  pub start_worker : W → Option W
  pub stop_worker : W → W
  pub pending : W → ℕ
  pub sleep : W → W
  pub wait_for_outbox : W → Option W
  pub are_running : W → Bool
  pub database_report : W → DatabaseReport

pub data Fault : Type 0 where
  api_fault : ℕ → Fault
  worker_fault : ℕ → Fault
  replay_fault : ℕ → ℕ → Bool → Fault

pub record Trial (W : Type 0) : Type 0 where
  pub site : W
  pub batches : List Batch
  pub uploaded_batches : ℕ
  pub replayed_batches : ℕ
  pub failed_upload_attempts : ℕ
  pub accepted_readings : ℤ
  pub max_device_queue : ℕ
  pub max_outbox_pending : ℕ
  pub latencies : List Float
  pub faults : List Fault
  pub api_starts : ℕ
  pub worker_starts : ℕ
