-- ===== src/Backend/Outbox/Lifecycle.antt =====
-- The life of an event under any sequence of transactions: claims, settlements and replays.
use myaqi_iot_platform.Prelude.{
  ℕ, ◌≡◌, refl, ◌⊎◌, inl, inr, String, Bool, true, false, is_some, List, [], ◌∷◌, map, arith,
  Bool-cases, Option-cases, All, contains, ◌==◌,
}
use myaqi_iot_platform.Backend.Models.{OutboxEvent}
use myaqi_iot_platform.Backend.Outbox.{
  get_event, put_event, claim_row, publish_row, fail_row, replay_row, is_owner, is_processing,
  is_dead, claim_events, mark_published, mark_failed, replay_event, select_events, event_ids,
}

-- One transaction on the table, of any worker or operator.
pub data Transaction : Type 0 where
  claiming : String → ℕ → ℕ → ℕ → (ℕ → Bool) → Transaction
  publishing : ℕ → String → ℕ → Transaction
  failing : ℕ → String → List ℕ → ℕ → ℕ → Transaction
  replaying : ℕ → ℕ → Transaction

pub commit : Transaction → List OutboxEvent → List OutboxEvent
commit (claiming worker n timeout now locked) table =
    (claim_events worker n timeout now locked table).1
commit (publishing j worker now) table = (mark_published j worker now table).1
commit (failing j worker error max_attempts now) table =
    (mark_failed j worker error max_attempts now table).1
commit (replaying j now) table = (replay_event j now table).1

pub commit_all : List Transaction → List OutboxEvent → List OutboxEvent
commit_all [] table = table
commit_all (t ∷ ts) table = commit_all ts (commit t table)

-- A row has a lock, with its owner and its time, exactly while it is in processing.
pub record IsConsistent (e : OutboxEvent) : Type 0 where
  pub owner_set : is_some e.locked_by ≡ is_processing e.status
  pub time_set : is_some e.locked_at ≡ is_processing e.status

put_event-All :
    (P : OutboxEvent → Type 0) (row : OutboxEvent) (table : List OutboxEvent)
    → P row
    → All P table
    → All P (put_event row table)
unfolding put_event
put_event-All P row [] p h = tt
put_event-All P row (x ∷ es) p h = elim (Bool-cases (x.id == row.id)) [
  | inl same ↦ rw same (p, h.1)
  | inr other ↦ rw other (h.0, put_event-All P row es p h.1)
]

claim-IsConsistent :
    (worker : String) (now : ℕ) (ids : List ℕ) (table : List OutboxEvent)
    → All IsConsistent table
    → All IsConsistent (map (claim_row worker now ids) table)
claim-IsConsistent worker now ids [] h = tt
claim-IsConsistent worker now ids (e ∷ es) h =
    (row (Bool-cases (contains e.id ids)), claim-IsConsistent worker now ids es h.1)
  where
    row :
        (contains e.id ids ≡ true) ⊎ (contains e.id ids ≡ false)
        → IsConsistent (claim_row worker now ids e)
    row (inl p) = rw p (record { owner_set = refl; time_set = refl })
    row (inr p) = rw p h.0

mark_published-IsConsistent :
    (j : ℕ) (worker : String) (now : ℕ) (table : List OutboxEvent)
    → All IsConsistent table
    → All IsConsistent (mark_published j worker now table).1
unfolding mark_published
mark_published-IsConsistent j worker now table h = elim (Option-cases (get_event j table)) [
  | inl p ↦ rw (p, mark_published) h
  | inr (e, p) ↦ elim (Bool-cases (is_owner worker e)) [
    | inl own ↦
        rw (p, mark_published, own)
          (put_event-All IsConsistent (publish_row now e) table
            (record { owner_set = refl; time_set = refl }) h)
    | inr other ↦ rw (p, mark_published, other) h
  ]
]

mark_failed-IsConsistent :
    (j : ℕ) (worker : String) (error : List ℕ) (max_attempts now : ℕ) (table : List OutboxEvent)
    → All IsConsistent table
    → All IsConsistent (mark_failed j worker error max_attempts now table).1
unfolding mark_failed
mark_failed-IsConsistent j worker error max_attempts now table h =
    elim (Option-cases (get_event j table)) [
      | inl p ↦ rw (p, mark_failed) h
      | inr (e, p) ↦ elim (Bool-cases (is_owner worker e)) [
        | inl own ↦
            rw (p, mark_failed, own)
              (put_event-All IsConsistent (fail_row error max_attempts now e) table
                (record { owner_set = ground arith; time_set = ground arith }) h)
        | inr other ↦ rw (p, mark_failed, other) h
      ]
    ]

replay_event-IsConsistent :
    (j now : ℕ) (table : List OutboxEvent)
    → All IsConsistent table
    → All IsConsistent (replay_event j now table).1
unfolding replay_event
replay_event-IsConsistent j now table h = elim (Option-cases (get_event j table)) [
  | inl p ↦ rw (p, replay_event) h
  | inr (e, p) ↦ elim (Bool-cases (is_dead e.status)) [
    | inl gone ↦
        rw (p, replay_event, gone)
          (put_event-All IsConsistent (replay_row now e) table
            (record { owner_set = refl; time_set = refl }) h)
    | inr alive ↦ rw (p, replay_event, alive) h
  ]
]

-- The lock and the status agree after every transaction.
pub commit-IsConsistent :
    (t : Transaction) (table : List OutboxEvent)
    → All IsConsistent table
    → All IsConsistent (commit t table)
unfolding commit claim_events
commit-IsConsistent (claiming worker n timeout now locked) table h =
    claim-IsConsistent worker now (event_ids (select_events locked n timeout now table)) table h
commit-IsConsistent (publishing j worker now) table h =
    mark_published-IsConsistent j worker now table h
commit-IsConsistent (failing j worker error max_attempts now) table h =
    mark_failed-IsConsistent j worker error max_attempts now table h
commit-IsConsistent (replaying j now) table h = replay_event-IsConsistent j now table h

-- From a table in which every lock agrees with its status, any sequence of transactions of any
-- workers leads to such a table.
pub commit_all-IsConsistent :
    (ts : List Transaction) (table : List OutboxEvent)
    → All IsConsistent table
    → All IsConsistent (commit_all ts table)
unfolding commit_all
commit_all-IsConsistent [] table h = h
commit_all-IsConsistent (t ∷ ts) table h =
    commit_all-IsConsistent ts (commit t table) (commit-IsConsistent t table h)
