-- ===== src/Firmware/Control/Updates.antt =====
-- The client of the device while the main loop runs.
use myaqi_iot_platform.Prelude.{
  ℕ, ◌≤◌, ◌≡◌, refl, ap, inl, inr, true, Option, none, some, Bool-cases,
}
use myaqi_iot_platform.Prelude.Int.{ℤ}
use myaqi_iot_platform.Prelude.Result.{Result, ok, err}
use myaqi_iot_platform.Python.Text.{Text}
use myaqi_iot_platform.Python.Float.{Float}
use myaqi_iot_platform.Firmware.State.{Reading, real, is_concentration}
use myaqi_iot_platform.Firmware.State.Valid.{StatusInRange, IsState}
use myaqi_iot_platform.Firmware.Store.{FaultPlan, save}
use myaqi_iot_platform.Firmware.Client.{
  Client, EnqueueError, value_error, os_error, enqueue, queued, new_reading, flush, status_of,
}
use myaqi_iot_platform.Firmware.Client.Queue.{EnqueueOutcome, enqueue_outcome}
use myaqi_iot_platform.Firmware.Client.Flushes.{limits, limits-flush, flush-Shortened}
use myaqi_iot_platform.Firmware.Control.{Board, Round, take_reading, after_enqueue, update_aqi_info}

-- A client with limits that leave room for a reading, and a state that `_read` accepts
pub record IsClient (c : Client) : Type 0 where
  pub valid : IsState c.state
  pub size : 1 ≤ c.batch_size
  pub room : 1 ≤ c.max_pending

abbrev pub IsReady : Option Client → Type 0
IsReady none = Unit
IsReady (some c) = IsClient c

pub same_limits-IsClient :
    (c after : Client) → limits after ≡ limits c → IsState after.state → IsClient c → IsClient after
same_limits-IsClient c after same valid h =
    let size = ap (λ l. l.0) same in
    let room = ap (λ l. l.1) same in
    record { valid = valid; size = rw size h.size; room = rw room h.room }

limits-enqueue :
    (plan : FaultPlan) (x : Float) (observed_at : Text) (c : Client)
    → limits (enqueue plan x observed_at c).1 ≡ limits c
unfolding enqueue
limits-enqueue plan x observed_at c = elim (Bool-cases (is_concentration (real x))) [
  | inr bad ↦ rw bad refl
  | inl good ↦
      let next = queued c.max_pending (new_reading x observed_at c.state) c.state in
      elim (Bool-cases (save plan next c.files).0) [
        | inl saved ↦ rw (good, saved) refl
        | inr failed ↦ rw (good, failed) refl
      ]
]

EnqueueOutcome-IsState :
    (x : Float) (observed_at : Text) (c : Client) (done : Result EnqueueError Reading × Client)
    → IsState c.state
    → EnqueueOutcome x observed_at c done
    → IsState done.1.state
EnqueueOutcome-IsState x observed_at c (ok reading, after) valid h = h.1
EnqueueOutcome-IsState x observed_at c (err e, after) valid h = rw h valid

enqueue-IsClient :
    (plan : FaultPlan) (x : Float) (observed_at : Text) (c : Client)
    → IsClient c
    → IsClient (enqueue plan x observed_at c).1
enqueue-IsClient plan x observed_at c h =
    same_limits-IsClient c (enqueue plan x observed_at c).1 (limits-enqueue plan x observed_at c)
      (EnqueueOutcome-IsState x observed_at c (enqueue plan x observed_at c) h.valid
        (enqueue_outcome plan x observed_at c h.valid h.room))
      h

module _ (parse_int : Text → Option ℤ) where
  after_enqueue-IsReady :
      (round : Round) (b : Board) (done : Result EnqueueError Reading × Client)
      → ((k : ℕ) → StatusInRange (status_of (round.world k).1))
      → IsClient done.1
      → IsReady (after_enqueue parse_int round b done).ingestion_client
  after_enqueue-IsReady round b (err value_error, c) status h = h
  after_enqueue-IsReady round b (err os_error, c) status h = h
  after_enqueue-IsReady round b (ok reading, c) status h =
      same_limits-IsClient c (flush parse_int 3 round.world c).1
        (limits-flush parse_int 3 round.world c)
        (flush-Shortened parse_int 3 round.world c status h.valid h.size).valid h

  take_reading-IsReady :
      (round : Round) (sensor : Option Float) (client : Option Client) (b : Board)
      → ((k : ℕ) → StatusInRange (status_of (round.world k).1))
      → IsReady client
      → IsReady b.ingestion_client
      → IsReady (take_reading parse_int round sensor client b).ingestion_client
  take_reading-IsReady round none none b status h k = k
  take_reading-IsReady round none (some c) b status h k = k
  take_reading-IsReady round (some x) none b status h k = k
  take_reading-IsReady round (some x) (some c) b status h k =
      after_enqueue-IsReady round b (enqueue round.faults x round.observed_at c) status
        (enqueue-IsClient round.faults x round.observed_at c h)

  -- Whatever the sensor, the file system and the server do, an update leaves the client with a
  -- state that `_read` accepts and with its limits; statuses are taken to be within 100 to 599.
  pub update_aqi_info-IsReady :
      (round : Round) (b : Board)
      → ((k : ℕ) → StatusInRange (status_of (round.world k).1))
      → IsReady b.ingestion_client
      → IsReady (update_aqi_info parse_int round b).ingestion_client
  unfolding update_aqi_info
  update_aqi_info-IsReady round b status h = elim (Bool-cases b.clock_synchronized) [
    | inl p ↦ rw p (
        take_reading-IsReady round round.sensor b.ingestion_client
          (record b { clock_synchronized = true }) status h h)
    | inr p ↦ elim (Bool-cases round.sync_works) [
      | inl q ↦
          rw (p, q)
            (take_reading-IsReady round round.sensor b.ingestion_client
              (record b { clock_synchronized = true }) status h h)
      | inr q ↦ rw (p, q) h
    ]
  ]
