-- ===== src/Backend/Outbox/Main.antt =====
-- The publishers of backend/src/myaqi_backend/outbox.py and the loop of its `main`. A round of the
-- loop carries what it meets: signals, clocks, the rows that other transactions hold, and the answers
-- of SNS. Waiting only passes time, so it shows in the clocks of the next round.
use myaqi_iot_platform.Prelude.{
  ℕ, ◌+◌, ◌*◌, max, String, Bool, Option, none, some, List, [], ◌∷◌, ◌++◌, leb, ◌==◌, take,
  if◌then◌else◌,
}
use myaqi_iot_platform.Prelude.Int.{pos}
use myaqi_iot_platform.Python.Text.{Text, codes}
use myaqi_iot_platform.Python.Json.{Json, int, str, obj, field, end}
use myaqi_iot_platform.Backend.Models.{ResponseBody, OutboxEvent}
use myaqi_iot_platform.Backend.Outbox.{
  ClaimedEvent, Health, outbox_health, process_once, claim_events, process_events,
}

-- The arguments of the SNS client's `publish`
pub record SnsMessage : Type 0 where
  pub topic_arn : Text
  pub message : Json
  pub event_type : String

-- `json.dumps(event.payload, sort_keys=True)`
abbrev pub sorted_payload : (ℕ → Text) → ResponseBody → Json
sorted_payload uuid b = obj (
    field "accepted" (int (pos b.accepted)) (
      field "device_id" (str b.device_id) (
        field "duplicates" (int (pos b.duplicates))
          (field "request_id" (str (uuid b.request_id)) end))))

-- `SnsPublisher.publish`
unfoldable pub sns_message : (ℕ → Text) → Text → ClaimedEvent → SnsMessage
sns_message uuid topic c = record {
  topic_arn = topic;
  message = obj (
      field "event_id" (str (uuid c.id)) (
        field "event_type" (str (codes c.event_type))
          (field "payload" (sorted_payload uuid c.payload) end)));
  event_type = c.event_type;
}

pub data Publisher : Type 0 where
  logging_publisher : Publisher
  sns_publisher : Text → Publisher

unfoldable pub build_publisher : Option Text → Publisher
build_publisher none = logging_publisher
build_publisher (some []) = logging_publisher
build_publisher (some (c ∷ cs)) = sns_publisher (c ∷ cs)

-- The text of the exception, if the client of SNS raises one
unfoldable pub publish :
    (ℕ → Text) → (SnsMessage → Option (List ℕ)) → Publisher → ClaimedEvent → Option (List ℕ)
publish uuid client logging_publisher c = none
publish uuid client (sns_publisher topic) c = client (sns_message uuid topic c)

-- `worker_id` and the settings of the worker
pub record Worker : Type 0 where
  pub worker_id : String
  pub batch_size : ℕ
  pub lock_timeout_seconds : ℕ
  pub max_attempts : ℕ
  pub health_interval_seconds : ℕ

-- When a call of the database raises in a round: the claim, or the call that comes once so many
-- events have been settled, be it the next settlement or the health query.
pub data DatabaseError : Type 0 where
  at_claim : DatabaseError
  after_settling : ℕ → DatabaseError

-- `monotonic` is in milliseconds.
pub record Round : Type 0 where
  pub stop_requested : Bool
  pub now : ℕ
  pub locked : ℕ → Bool
  pub client : SnsMessage → Option (List ℕ)
  pub clock : ClaimedEvent → ℕ
  pub monotonic : ℕ
  pub checked_at : ℕ
  pub database_error : Option DatabaseError

pub data Action : Type 0 where
  logged_health : Health → Action
  waited : Action

-- How the loop ended, if it has: by `--once` with its report, or by a signal, or by an
-- exception of the database
pub data Ended : Type 0 where
  running : Ended
  reported : ℕ → Health → Ended
  stopped : Ended
  crashed : Ended

-- The health log, if it is due, and the time of the next one
unfoldable pub log_health : Worker → Round → List OutboxEvent → ℕ → List Action × ℕ
log_health w r table next_health_log =
    if leb next_health_log r.monotonic
    then (
      logged_health (outbox_health r.checked_at table) ∷ [],
      r.monotonic + 1000 * max 5 w.health_interval_seconds,
    )
    else ([], next_health_log)

abbrev pub wait_if_idle : ℕ → List Action
wait_if_idle count = if count == 0 then waited ∷ [] else []

module _ (uuid : ℕ → Text) (w : Worker) (publisher : Publisher) where
  -- `process_once` of a round
  abbrev pub run_round : Round → List OutboxEvent → ℕ × List OutboxEvent
  run_round r table =
      process_once (publish uuid r.client publisher) w.worker_id w.batch_size w.lock_timeout_seconds
        w.max_attempts r.clock r.now r.locked table

  -- What a round leaves that ends in an exception of the database: the events that were claimed and
  -- not settled stay in processing.
  unfoldable pub crashed_round : DatabaseError → Round → List OutboxEvent → List OutboxEvent
  crashed_round at_claim r table = table
  crashed_round (after_settling n) r table =
      let (events, claimed) =
        claim_events w.worker_id w.batch_size w.lock_timeout_seconds r.now r.locked table in
      process_events (publish uuid r.client publisher) w.worker_id w.max_attempts r.clock
        (take n events) claimed

  -- The loop, from the time of the next health log on
  unfoldable pub main_loop :
      Bool → List Round → ℕ → List OutboxEvent → Ended × List Action × List OutboxEvent
  main_loop once [] next_health_log table = (running, [], table)
  main_loop once (r ∷ rs) next_health_log table =
      let (count, after) = run_round r table in
      let (logged, next) = log_health w r after next_health_log in
      let (ended, actions, last) = main_loop once rs next after in
      if r.stop_requested then (stopped, [], table) else elim r.database_error [
        | some at ↦ (crashed, [], crashed_round at r table)
        | none ↦
            if once
            then (reported count (outbox_health r.checked_at after), [], after)
            else (ended, logged ++ (wait_if_idle count ++ actions), last)
      ]
