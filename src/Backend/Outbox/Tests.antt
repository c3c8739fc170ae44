-- ===== src/Backend/Outbox/Tests.antt =====
-- A table of three events: one pending, one whose lock is stale, one dead.
use myaqi_iot_platform.Prelude.{
  ℕ, ◌+◌, ◌≡◌, refl, String, Bool, false, Option, none, some, List, [], ◌∷◌, arith, All, contains,
  eq_iff,
}
use myaqi_iot_platform.Python.Text.{codes}
use myaqi_iot_platform.Backend.Models.{ResponseBody, Status, pending, processing, dead, OutboxEvent}
use myaqi_iot_platform.Backend.Outbox.{
  ClaimedEvent, get_event, put_event, claim_events, select_events, mark_published, mark_failed,
  process_once, backoff_seconds, process_events, process_event,
}
use myaqi_iot_platform.Backend.Outbox.Claims.{claimed_ids, claim_events_exclusive}
use myaqi_iot_platform.Backend.Outbox.Ownership.{IsOwned, mark_not_owned}
use myaqi_iot_platform.Backend.Outbox.Settlements.{IsSettled, process_once_settles}
use myaqi_iot_platform.Backend.Outbox.Lifecycle.{
  Transaction, claiming, publishing, failing, replaying, commit_all, IsConsistent,
  commit_all-IsConsistent,
}

abbrev body : ResponseBody
body = record { request_id = 1; device_id = codes "school-1"; accepted = 2; duplicates = 0 }

abbrev event : ℕ → Status → Option ℕ → Option String → OutboxEvent
event id status locked_at locked_by = record {
  id = id;
  event_type = "measurements.ingested";
  aggregate_type = "ingest_request";
  aggregate_id = id;
  payload = body;
  status = status;
  attempts = 7;
  available_at = 10;
  locked_at = locked_at;
  locked_by = locked_by;
  published_at = none;
  last_error = none;
  created_at = 10 + id;
}

abbrev table : List OutboxEvent
table =
    event 3 dead none none
    ∷ event 2 processing (some 20) (some "w1")
    ∷ event 1 pending none none
    ∷ []

abbrev unlocked : ℕ → Bool
unlocked j = false

abbrev quiet : ClaimedEvent → Option (List ℕ)
quiet c = none

abbrev failing_publisher : ClaimedEvent → Option (List ℕ)
failing_publisher c = some (codes "unreachable")

abbrev ap_status : Option OutboxEvent → Option Status
ap_status none = none
ap_status (some e) = some e.status

claimed_in_order : claimed_ids (claim_events "w2" 5 60 100 unlocked table).0 ≡ 1 ∷ 2 ∷ []
unfolding claim_events select_events
claimed_in_order = refl

failures_exhaust_attempts :
    ap_status
      (get_event 1 (process_once failing_publisher "w2" 5 60 8 (λ c. 101) 100 unlocked table).1)
    ≡ some dead
unfolding process_once claim_events select_events process_events process_event mark_failed get_event
    put_event backoff_seconds
failures_exhaust_attempts = refl

claim_events_exclusive_example :
    let (events, claimed) = claim_events "w2" 5 60 100 unlocked table in
    All
      (λ c. contains c.id (claimed_ids events) ≡ false)
      (claim_events "w3" 5 60 159 unlocked claimed).0
claim_events_exclusive_example =
    claim_events_exclusive "w2" "w3" 5 5 60 100 159 unlocked unlocked table (omega arith)

w1_owns : IsOwned "w1" (event 2 processing (some 20) (some "w1"))
w1_owns = record { in_progress = refl; holder = refl }

w2_does_not_own : (e : OutboxEvent) → get_event 2 table ≡ some e → ¬ IsOwned "w2" e
unfolding get_event
w2_does_not_own e p owned = ground (arith, owned.holder, eq_iff "w1" "w2")

mark_not_owned_example :
    (mark_published 2 "w2" 70 table ≡ (false, table))
    × (mark_failed 2 "w2" (codes "down") 8 70 table ≡ (false, table))
mark_not_owned_example = mark_not_owned "w2" (codes "down") 8 70 2 table w2_does_not_own

process_once_settles_example :
    let (events, claimed) = claim_events "w2" 5 60 100 unlocked table in
    let after = (process_once failing_publisher "w2" 5 60 8 (λ c. 101) 100 unlocked table).1 in
    All
      (λ c.
        (e : OutboxEvent) × (get_event c.id table ≡ some e)
        × (d : OutboxEvent) × (get_event c.id after ≡ some d)
        × IsSettled 8 101 (failing_publisher c) e d)
      events
process_once_settles_example =
    process_once_settles failing_publisher "w2" 5 60 8 (λ c. 101) 100 unlocked table
      (refl, (refl, (refl, tt)))

abbrev history : List Transaction
history =
    claiming "w2" 5 60 100 unlocked
    ∷ publishing 2 "w1" 101
    ∷ publishing 2 "w2" 102
    ∷ failing 1 "w2" (codes "down") 8 103
    ∷ replaying 3 104
    ∷ []

table-IsConsistent : All IsConsistent table
table-IsConsistent = (
  record { owner_set = refl; time_set = refl },
  (
    record { owner_set = refl; time_set = refl },
    (record { owner_set = refl; time_set = refl }, tt),
  ),
)

commit_all-IsConsistent_example : All IsConsistent (commit_all history table)
commit_all-IsConsistent_example = commit_all-IsConsistent history table table-IsConsistent
