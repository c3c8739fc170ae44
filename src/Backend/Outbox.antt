-- ===== src/Backend/Outbox.antt =====
-- backend/src/myaqi_backend/outbox.py and `replay_event` of admin.py: the outbox table as a list of
-- rows. Each call is one transaction. `locked` tells which rows other open transactions hold, the
-- rows that SKIP LOCKED passes over. The publisher and the clock are arguments.
mod Table
mod Claims
mod Ownership
mod Rows
mod Settlements
mod Rounds
mod Main
mod Drains
mod LoopTests
mod Worker
mod Lifecycle
mod Counts
mod Replay
mod Tests
use myaqi_iot_platform.Prelude.{
  ℕ, suc, ◌+◌, ◌-◌, ◌^◌, ◌≤◌, min, max, String, str_eq, Bool, true, false, ◌&&◌, ◌||◌, not, Option,
  none, some, List, [], ◌∷◌, map, leb, ltb, ◌==◌, if◌then◌else◌, length, take, keep, contains,
}
use myaqi_iot_platform.Prelude.Result.{Result, ok, err}
use myaqi_iot_platform.Backend.Models.{
  ResponseBody, Status, pending, processing, published, dead, OutboxEvent,
}

-- `ClaimedEvent`
pub record ClaimedEvent : Type 0 where
  pub id : ℕ
  pub event_type : String
  pub payload : ResponseBody

-- `event.status == "…"`
abbrev pub is_pending : Status → Bool
is_pending pending = true
is_pending _ = false

abbrev pub is_processing : Status → Bool
is_processing processing = true
is_processing _ = false

abbrev pub is_dead : Status → Bool
is_dead dead = true
is_dead _ = false

-- `event.locked_by == worker_id`
abbrev pub is_locked_by : String → Option String → Bool
is_locked_by w none = false
is_locked_by w (some v) = str_eq v w

-- `session.get(OutboxEvent, event_id)`
unfoldable pub get_event : ℕ → List OutboxEvent → Option OutboxEvent
get_event j [] = none
get_event j (e ∷ es) = if e.id == j then some e else get_event j es

-- The row as it is written back when the transaction commits.
unfoldable pub put_event : OutboxEvent → List OutboxEvent → List OutboxEvent
put_event e [] = []
put_event e (d ∷ es) = let rest = put_event e es in if d.id == e.id then e ∷ es else d ∷ rest

-- `OutboxEvent.locked_at <= stale_before`; a comparison with NULL does not hold.
abbrev pub is_stale : ℕ → ℕ → Option ℕ → Bool
is_stale timeout now none = false
is_stale timeout now (some t) = leb (t + timeout) now

-- The WHERE clause of `claim_events`.
unfoldable pub is_claimable : ℕ → ℕ → OutboxEvent → Bool
is_claimable timeout now e =
    (is_pending e.status && leb e.available_at now)
    || (is_processing e.status && is_stale timeout now e.locked_at)

-- ORDER BY created_at, id
abbrev pub comes_before : OutboxEvent → OutboxEvent → Bool
comes_before a b = ltb a.created_at b.created_at || (a.created_at == b.created_at && leb a.id b.id)

unfoldable pub insert_ordered : OutboxEvent → List OutboxEvent → List OutboxEvent
insert_ordered e [] = e ∷ []
insert_ordered e (d ∷ es) =
    let rest = insert_ordered e es in if comes_before e d then e ∷ d ∷ es else d ∷ rest

unfoldable pub order_events : List OutboxEvent → List OutboxEvent
unfolding insert_ordered
order_events [] = []
order_events (e ∷ es) = insert_ordered e (order_events es)

-- The rows that the SELECT of `claim_events` returns.
unfoldable pub select_events : (ℕ → Bool) → ℕ → ℕ → ℕ → List OutboxEvent → List OutboxEvent
unfolding is_claimable order_events
select_events locked batch_size timeout now table =
    take batch_size
      (keep (λ e. not (locked e.id)) (order_events (keep (is_claimable timeout now) table)))

-- The assignments to a claimed row.
abbrev pub claim : String → ℕ → OutboxEvent → OutboxEvent
claim worker now e = record e { status = processing; locked_at = some now; locked_by = some worker }

abbrev pub claim_row : String → ℕ → List ℕ → OutboxEvent → OutboxEvent
claim_row worker now ids e = if contains e.id ids then claim worker now e else e

abbrev pub as_claimed : OutboxEvent → ClaimedEvent
as_claimed e = record { id = e.id; event_type = e.event_type; payload = e.payload }

abbrev pub event_ids : List OutboxEvent → List ℕ
event_ids es = map (λ e. e.id) es

unfoldable pub claim_events :
    String → ℕ → ℕ → ℕ → (ℕ → Bool) → List OutboxEvent → List ClaimedEvent × List OutboxEvent
claim_events worker batch_size timeout now locked table =
    let events = select_events locked batch_size timeout now table in
    (map as_claimed events, map (claim_row worker now (event_ids events)) table)

-- The guard of `mark_published` and `mark_failed`.
abbrev pub is_owner : String → OutboxEvent → Bool
is_owner worker e = is_processing e.status && is_locked_by worker e.locked_by

abbrev pub publish_row : ℕ → OutboxEvent → OutboxEvent
publish_row now e = record e {
  status = published;
  published_at = some now;
  locked_at = none;
  locked_by = none;
  last_error = none;
}

unfoldable pub mark_published : ℕ → String → ℕ → List OutboxEvent → Bool × List OutboxEvent
mark_published event_id worker now table = elim (get_event event_id table) [
  | none ↦ (false, table)
  | some e ↦
      if is_owner worker e then (true, put_event (publish_row now e) table) else (false, table)
]

unfoldable pub backoff_seconds : ℕ → ℕ
backoff_seconds attempts = min 300 (2 ^ min attempts 8)

abbrev pub fail_row : List ℕ → ℕ → ℕ → OutboxEvent → OutboxEvent
fail_row error max_attempts now e =
    let failed = record e {
      attempts = e.attempts + 1;
      last_error = some (take 2000 error);
      locked_at = none;
      locked_by = none;
    } in
    if leb max_attempts (e.attempts + 1)
    then record failed { status = dead }
    else record failed { status = pending; available_at = now + backoff_seconds (e.attempts + 1) }

unfoldable pub mark_failed :
    ℕ → String → List ℕ → ℕ → ℕ → List OutboxEvent → Bool × List OutboxEvent
mark_failed event_id worker error max_attempts now table = elim (get_event event_id table) [
  | none ↦ (false, table)
  | some e ↦
      if is_owner worker e
      then (true, put_event (fail_row error max_attempts now e) table)
      else (false, table)
]

-- The body of the loop of `process_once`: `publish` gives the text of the exception, if one is
-- raised.
unfoldable pub process_event :
    (ClaimedEvent → Option (List ℕ))
    → String
    → ℕ
    → (ClaimedEvent → ℕ)
    → ClaimedEvent
    → List OutboxEvent
    → List OutboxEvent
process_event publish worker max_attempts clock c table = elim (publish c) [
  | none ↦ (mark_published c.id worker (clock c) table).1
  | some error ↦ (mark_failed c.id worker error max_attempts (clock c) table).1
]

unfoldable pub process_events :
    (ClaimedEvent → Option (List ℕ))
    → String
    → ℕ
    → (ClaimedEvent → ℕ)
    → List ClaimedEvent
    → List OutboxEvent
    → List OutboxEvent
process_events publish worker max_attempts clock [] table = table
process_events publish worker max_attempts clock (c ∷ cs) table =
    process_events publish worker max_attempts clock cs
      (process_event publish worker max_attempts clock c table)

unfoldable pub process_once :
    (ClaimedEvent → Option (List ℕ))
    → String
    → ℕ
    → ℕ
    → ℕ
    → (ClaimedEvent → ℕ)
    → ℕ
    → (ℕ → Bool)
    → List OutboxEvent
    → ℕ × List OutboxEvent
process_once publish worker batch_size timeout max_attempts clock now locked table =
    let (events, claimed) = claim_events worker batch_size timeout now locked table in
    (length events, process_events publish worker max_attempts clock events claimed)

-- The exceptions of `replay_event`.
pub data ReplayError : Type 0 where
  unknown_event : ReplayError
  not_dead : Status → ReplayError

abbrev pub replay_row : ℕ → OutboxEvent → OutboxEvent
replay_row now e = record e {
  status = pending;
  available_at = now;
  locked_at = none;
  locked_by = none;
}

-- The answer is the number of attempts that the row keeps.
unfoldable pub replay_event : ℕ → ℕ → List OutboxEvent → Result ReplayError ℕ × List OutboxEvent
replay_event event_id now table = elim (get_event event_id table) [
  | none ↦ (err unknown_event, table)
  | some e ↦
      if not (is_dead e.status)
      then (err (not_dead e.status), table)
      else (ok e.attempts, put_event (replay_row now e) table)
]

-- `func.count(...).group_by(status)`, for one status
unfoldable pub count_status : (Status → Bool) → List OutboxEvent → ℕ
count_status p table = length (keep (λ e. p e.status) table)

-- `func.min(OutboxEvent.created_at)` over the pending and the processing rows
unfoldable pub oldest_pending : List OutboxEvent → Option ℕ
oldest_pending [] = none
oldest_pending (e ∷ es) =
    let rest = oldest_pending es in
    if is_pending e.status || is_processing e.status
    then some (elim rest [ none ↦ e.created_at | some t ↦ min e.created_at t ])
    else rest

pub record Health : Type 0 where
  pub pending_count : ℕ
  pub processing_count : ℕ
  pub dead_count : ℕ
  pub oldest_pending_seconds : ℕ

-- `max(0.0, checked_at - oldest_pending)` is the subtraction that stops at 0.
unfoldable pub outbox_health : ℕ → List OutboxEvent → Health
outbox_health now table = record {
  pending_count = count_status is_pending table;
  processing_count = count_status is_processing table;
  dead_count = count_status is_dead table;
  oldest_pending_seconds = elim (oldest_pending table) [ none ↦ 0 | some t ↦ now - t ];
}
