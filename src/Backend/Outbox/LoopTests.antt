-- ===== src/Backend/Outbox/LoopTests.antt =====
-- Two rounds of a worker on a table of one pending event and one whose lock is stale.
use myaqi_iot_platform.Prelude.{
  ℕ, ◌+◌, ◌≤◌, ◌≡◌, refl, String, false, Option, none, some, List, [], ◌∷◌, arith, All,
}
use myaqi_iot_platform.Python.Text.{Text, codes}
use myaqi_iot_platform.Backend.Models.{Status, pending, processing, published, OutboxEvent}
use myaqi_iot_platform.Backend.Outbox.{
  get_event, is_claimable, is_owner, as_claimed, claim_events, process_events, select_events,
  order_events, insert_ordered,
}
use myaqi_iot_platform.Backend.Outbox.Main.{
  Publisher, sns_publisher, Worker, Round, main_loop, publish, crashed_round, after_settling,
}
use myaqi_iot_platform.Backend.Outbox.Drains.{IsQuiet, main_loop-publishes, main_loop-releases}

abbrev event : ℕ → Status → Option ℕ → Option String → OutboxEvent
event id status locked_at locked_by = record {
  id = id;
  event_type = "measurements.ingested";
  aggregate_type = "ingest_request";
  aggregate_id = id;
  payload = record { request_id = 1; device_id = codes "school-1"; accepted = 2; duplicates = 0 };
  status = status;
  attempts = 0;
  available_at = 10;
  locked_at = locked_at;
  locked_by = locked_by;
  published_at = none;
  last_error = none;
  created_at = 10 + id;
}

abbrev table : List OutboxEvent
table = event 2 processing (some 20) (some "w1") ∷ event 1 pending none none ∷ []

abbrev worker : Worker
worker = record {
  worker_id = "w2";
  batch_size = 1;
  lock_timeout_seconds = 60;
  max_attempts = 8;
  health_interval_seconds = 60;
}

abbrev uuid_text : ℕ → Text
uuid_text n = codes "00000000"

abbrev topic : Publisher
topic = sns_publisher (codes "arn:aws:sns:eu-west-1:1:myaqi")

abbrev round : ℕ → Option (List ℕ) → Round
round now raised = record {
  stop_requested = false;
  now = now;
  locked = λ j. false;
  client = λ m. raised;
  clock = λ c. now + 1;
  monotonic = now;
  checked_at = now;
  database_error = none;
}

abbrev rounds : List Round
rounds = round 100 none ∷ round 101 none ∷ []

round-IsQuiet : (now : ℕ) → 100 ≤ now → IsQuiet 100 (round now none)
round-IsQuiet now h = record {
  goes_on = refl;
  free = λ j. refl;
  reached = h;
  client = λ m. refl;
  works = refl;
}

main_loop-publishes_example :
    let (ended, actions, last) = main_loop uuid_text worker topic false rounds 0 table in
    (d : OutboxEvent) × (get_event 2 last ≡ some d) × (d.status ≡ published)
unfolding get_event is_claimable
main_loop-publishes_example =
    main_loop-publishes uuid_text worker topic 100 0 rounds table 2
      (event 2 processing (some 20) (some "w1"))
      (round-IsQuiet 100 (omega arith), (round-IsQuiet 101 (omega arith), tt)) (refl, (refl, tt))
      (λ p. refl, (λ p. refl, tt)) (omega arith) refl refl

main_loop-releases_example :
    let (ended, actions, last) =
      main_loop uuid_text worker topic false (round 100 (some (codes "down")) ∷ []) 0 table in
    All (λ e. is_owner worker.worker_id e ≡ false) last
main_loop-releases_example =
    main_loop-releases uuid_text worker topic false 0 (round 100 (some (codes "down")) ∷ []) table
      (refl, tt) (refl, (refl, tt)) (refl, (refl, tt))

-- An exception of SNS is one of the publisher.
refused :
    publish uuid_text (λ m. some (codes "down")) topic (as_claimed (event 1 pending none none))
    ≡ some (codes "down")
unfolding publish
refused = refl

abbrev holder_of : Option OutboxEvent → Option String
holder_of none = none
holder_of (some e) = e.locked_by

-- A worker whose first settlement raises leaves the event that it claimed under its lock.
left_in_processing :
    holder_of
      (get_event 1 (crashed_round uuid_text worker topic (after_settling 0) (round 100 none) table))
    ≡ some "w2"
unfolding crashed_round claim_events process_events get_event select_events is_claimable
    order_events insert_ordered
left_in_processing = refl
