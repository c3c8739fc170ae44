-- ===== src/Backend/Outbox/Ownership.antt =====
-- `mark_published` and `mark_failed`: only the worker that holds an event can settle it, and what
-- settling writes.
use myaqi_iot_platform.Prelude.{
  ℕ, ◌+◌, ◌≤◌, max, ◌==◌, ◌≡◌, refl, ap, ◌∙◌, inl, inr, String, eq_iff, true, false, none, some,
  List, arith, leb, Bool-cases, Option-cases, if◌then◌else◌,
}
use myaqi_iot_platform.Backend.Models.{OutboxEvent, pending, processing, dead}
use myaqi_iot_platform.Backend.Outbox.{
  get_event, put_event, publish_row, fail_row, is_owner, mark_published, mark_failed,
  backoff_seconds,
}
use myaqi_iot_platform.Backend.Outbox.Table.{get_event-id, get_event-put_self, get_event-put_ne}

-- The row is being processed by this worker.
pub record IsOwned (worker : String) (e : OutboxEvent) : Type 0 where
  pub in_progress : e.status ≡ processing
  pub holder : e.locked_by ≡ some worker

pub is_owner-IsOwned :
    (worker : String) (e : OutboxEvent) → is_owner worker e ≡ true → IsOwned worker e
is_owner-IsOwned worker e h = elim (Option-cases e.locked_by) [
  | inl p ↦ record { in_progress = ground (arith, p); holder = ground (arith, p) }
  | inr (v, p) ↦ record {
    in_progress = ground (arith, p, eq_iff v worker);
    holder = ground (arith, p, eq_iff v worker);
  }
]

pub IsOwned-is_owner :
    (worker : String) (e : OutboxEvent) → IsOwned worker e → is_owner worker e ≡ true
IsOwned-is_owner worker e h = ground (arith, h.in_progress, h.holder, eq_iff worker worker)

mark_published_eq :
    (worker : String) (now j : ℕ) (table : List OutboxEvent) (e : OutboxEvent)
    → get_event j table ≡ some e
    → IsOwned worker e
    → mark_published j worker now table ≡ (true, put_event (publish_row now e) table)
unfolding mark_published
mark_published_eq worker now j table e found owned = ground (arith, IsOwned-is_owner worker e owned)

mark_failed_eq :
    (worker : String) (error : List ℕ) (max_attempts now j : ℕ) (table : List OutboxEvent)
    (e : OutboxEvent)
    → get_event j table ≡ some e
    → IsOwned worker e
    → mark_failed j worker error max_attempts now table
      ≡ (true, put_event (fail_row error max_attempts now e) table)
unfolding mark_failed
mark_failed_eq worker error max_attempts now j table e found owned =
    rw (found, mark_failed, IsOwned-is_owner worker e owned)

-- A write to a row that is there is found under its key, and no other row changes.
get_event-put :
    (j k : ℕ) (row e : OutboxEvent) (table : List OutboxEvent)
    → get_event j table ≡ some e
    → row.id ≡ e.id
    → get_event k (put_event row table) ≡ (if k == j then some row else get_event k table)
get_event-put j k row e table found same =
    let key : row.id ≡ j = same ∙ get_event-id j table {e = e} found in
    let there : get_event row.id table ≡ some e = ap (λ i. get_event i table) key ∙ found in
    ground (
      arith,
      key,
      get_event-put_self row table {d = e} there,
      get_event-put_ne k row table,
      ap (λ i. get_event i (put_event row table)) key,
      get_event-put_key k j row table,
    )
  where
    get_event-put_key :
        (k j : ℕ) (row : OutboxEvent) (table : List OutboxEvent)
        → k ≡ j
        → get_event k (put_event row table) ≡ get_event j (put_event row table)
    get_event-put_key k j row table p = ap (λ i. get_event i (put_event row table)) p

-- The worker that holds an event publishes it: the row is then published at that time, with no
-- lock and no error, and every other row is as it was.
pub mark_published_owned :
    (worker : String) (now j k : ℕ) (table : List OutboxEvent) {e : OutboxEvent}
    → get_event j table ≡ some e
    → IsOwned worker e
    → let (done, after) = mark_published j worker now table in
      (done ≡ true)
      × (get_event k after ≡ (if k == j then some (publish_row now e) else get_event k table))
mark_published_owned worker now j k table {e} found owned =
    rw (mark_published_eq worker now j table e found owned)
      (refl, get_event-put j k (publish_row now e) e table found refl)

-- A failed publication counts one attempt and frees the row. Below the limit the event goes back to
-- pending, not to be tried again before the delay has passed, which is at most 300 seconds; at the
-- limit it is dead. It keeps at most 2000 characters of the error.
pub fail_row_outcome :
    (error : List ℕ) (max_attempts now : ℕ) (e : OutboxEvent)
    → let failed = fail_row error max_attempts now e in
      (failed.attempts ≡ e.attempts + 1)
      × (failed.locked_by ≡ none)
      × (failed.locked_at ≡ none)
      × (failed.status ≡ (if leb max_attempts (e.attempts + 1) then dead else pending))
      × (failed.available_at ≤ max e.available_at (now + 300))
unfolding backoff_seconds
fail_row_outcome error max_attempts now e =
    (ground arith, ground arith, ground arith, ground arith, ground arith)

fail_row-id :
    (error : List ℕ) (max_attempts now : ℕ) (e : OutboxEvent)
    → (fail_row error max_attempts now e).id ≡ e.id
fail_row-id error max_attempts now e = ground arith

-- The worker that holds an event records its failure: the row becomes what `fail_row` makes of it,
-- and every other row is as it was.
pub mark_failed_owned :
    (worker : String) (error : List ℕ) (max_attempts now j k : ℕ) (table : List OutboxEvent)
    {e : OutboxEvent}
    → get_event j table ≡ some e
    → IsOwned worker e
    → let (done, after) = mark_failed j worker error max_attempts now table in
      (done ≡ true)
      × (get_event k after
          ≡ (if k == j then some (fail_row error max_attempts now e) else get_event k table))
mark_failed_owned worker error max_attempts now j k table {e} found owned =
    rw (mark_failed_eq worker error max_attempts now j table e found owned) (
      refl,
      get_event-put j k (fail_row error max_attempts now e) e table found
          (fail_row-id error max_attempts now e),
    )

-- A worker that does not hold the event, because it is unknown, settled, or claimed by another
-- worker since, changes nothing and is told so.
pub mark_not_owned :
    (worker : String) (error : List ℕ) (max_attempts now j : ℕ) (table : List OutboxEvent)
    → ((e : OutboxEvent) → get_event j table ≡ some e → ¬ IsOwned worker e)
    → (mark_published j worker now table ≡ (false, table))
      × (mark_failed j worker error max_attempts now table ≡ (false, table))
unfolding mark_published mark_failed
mark_not_owned worker error max_attempts now j table h = elim (Option-cases (get_event j table)) [
  | inl none_found ↦ rw (none_found, mark_published, mark_failed) (refl, refl)
  | inr (e, found) ↦ elim (Bool-cases (is_owner worker e)) [
    | inl owner ↦ absurd (h e found (is_owner-IsOwned worker e owner))
    | inr other ↦ rw (found, mark_published, mark_failed, other) (refl, refl)
  ]
]
