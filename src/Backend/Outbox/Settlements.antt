-- ===== src/Backend/Outbox/Settlements.antt =====
-- `process_once`: the row that each event of a batch has afterwards.
use myaqi_iot_platform.Prelude.{
  ℕ, zero, suc, ◌+◌, ◌≤◌, ◌<◌, ◌≡◌, ◌≢◌, refl, sym, ◌∙◌, ◌⊎◌, inl, inr, String, Bool, false, ◌||◌,
  not, Option, none, some, List, [], ◌∷◌, arith, leb, ◌==◌, Bool-cases, take, keep, contains,
  Distinct, All, All-imp,
}
use mathlib.Core.Path.{subst}
use myaqi_iot_platform.Backend.Models.{OutboxEvent, pending, published, dead}
use myaqi_iot_platform.Backend.Outbox.{
  ClaimedEvent, get_event, event_ids, insert_ordered, order_events, select_events, comes_before,
  is_claimable, claim, claim_events, backoff_seconds, process_event, process_events, process_once,
}
use myaqi_iot_platform.Backend.Outbox.Claims.{claimed_ids, claimed_ids-as_claimed}
use myaqi_iot_platform.Backend.Outbox.Ownership.{IsOwned}
use myaqi_iot_platform.Backend.Outbox.Worker.{settle_row, process_event_owned, claim_events-IsHeld}
use myaqi_iot_platform.Backend.Outbox.Rounds.{
  get_event-process_event_ne, get_event-process_events_ne,
}

-- What becomes of a claimed row `e`. An event that was handed over is published, at the time of the
-- settlement. One whose publication raised has an attempt more and the text of the exception, and is
-- dead after the last attempt, or else pending until its backoff has passed. No lock is left.
abbrev pub IsSettled : ℕ → ℕ → Option (List ℕ) → OutboxEvent → OutboxEvent → Type 0
IsSettled max_attempts now none e d =
    (d.status ≡ published)
    × (d.published_at ≡ some now)
    × (d.attempts ≡ e.attempts)
    × (d.locked_by ≡ none)
    × (d.locked_at ≡ none)
IsSettled max_attempts now (some error) e d =
    (((max_attempts ≤ e.attempts + 1) × (d.status ≡ dead))
      ⊎ ((e.attempts + 1 < max_attempts)
          × (d.status ≡ pending)
          × (d.available_at ≡ now + backoff_seconds (e.attempts + 1))))
    × (d.last_error ≡ some (take 2000 error))
    × (d.attempts ≡ e.attempts + 1)
    × (d.locked_by ≡ none)
    × (d.locked_at ≡ none)

settle_row-IsSettled :
    (max_attempts now : ℕ) (raised : Option (List ℕ)) (worker : String) (claimed_at : ℕ)
    (e : OutboxEvent)
    → IsSettled max_attempts now raised e
        (settle_row max_attempts now raised (claim worker claimed_at e))
settle_row-IsSettled max_attempts now none worker claimed_at e = (refl, refl, refl, refl, refl)
settle_row-IsSettled max_attempts now (some error) worker claimed_at e =
    elim (Bool-cases (leb max_attempts (e.attempts + 1))) [
      | inl last ↦ rw last (inl (ground arith, refl), refl, refl, refl, refl)
      | inr more ↦ rw more (inr (ground arith, refl, refl), refl, refl, refl, refl)
    ]

contains-keep :
    (p : OutboxEvent → Bool) (j : ℕ) (es : List OutboxEvent)
    → contains j (event_ids es) ≡ false
    → contains j (event_ids (keep p es)) ≡ false
contains-keep p j [] h = refl
contains-keep p j (e ∷ es) h = elim (Bool-cases (p e)) [
  | inl q ↦ rw q (ground (arith, contains-keep p j es))
  | inr q ↦ rw q (contains-keep p j es (ground arith))
]

Distinct-keep :
    (p : OutboxEvent → Bool) (es : List OutboxEvent)
    → Distinct (event_ids es)
    → Distinct (event_ids (keep p es))
Distinct-keep p [] h = tt
Distinct-keep p (e ∷ es) h = elim (Bool-cases (p e)) [
  | inl q ↦ rw q (contains-keep p e.id es h.0, Distinct-keep p es h.1)
  | inr q ↦ rw q (Distinct-keep p es h.1)
]

contains-take :
    (n j : ℕ) (es : List OutboxEvent)
    → contains j (event_ids es) ≡ false
    → contains j (event_ids (take n es)) ≡ false
contains-take zero j es h = refl
contains-take (suc n) j [] h = refl
contains-take (suc n) j (e ∷ es) h = ground (arith, contains-take n j es)

Distinct-take :
    (n : ℕ) (es : List OutboxEvent) → Distinct (event_ids es) → Distinct (event_ids (take n es))
Distinct-take zero es h = tt
Distinct-take (suc n) [] h = tt
Distinct-take (suc n) (e ∷ es) h = (contains-take n e.id es h.0, Distinct-take n es h.1)

contains-insert_ordered :
    (j : ℕ) (e : OutboxEvent) (es : List OutboxEvent)
    → contains j (event_ids (insert_ordered e es)) ≡ (j == e.id || contains j (event_ids es))
unfolding insert_ordered
contains-insert_ordered j e [] = refl
contains-insert_ordered j e (d ∷ es) = elim (Bool-cases (comes_before e d)) [
  | inl p ↦ rw p refl
  | inr p ↦ rw p (ground (arith, contains-insert_ordered j e es))
]

contains-order_events :
    (j : ℕ) (es : List OutboxEvent)
    → contains j (event_ids (order_events es)) ≡ contains j (event_ids es)
unfolding order_events
contains-order_events j [] = refl
contains-order_events j (e ∷ es) =
    contains-insert_ordered j e (order_events es) ∙ rw (contains-order_events j es)

Distinct-insert_ordered :
    (e : OutboxEvent) (es : List OutboxEvent)
    → contains e.id (event_ids es) ≡ false
    → Distinct (event_ids es)
    → Distinct (event_ids (insert_ordered e es))
unfolding insert_ordered
Distinct-insert_ordered e [] new h = (refl, tt)
Distinct-insert_ordered e (d ∷ es) new h = elim (Bool-cases (comes_before e d)) [
  | inl p ↦ rw p (new, h)
  | inr p ↦ rw p (
    contains-insert_ordered d.id e es ∙ ground (arith, h.0),
    Distinct-insert_ordered e es (ground arith) h.1,
  )
]

Distinct-order_events :
    (es : List OutboxEvent) → Distinct (event_ids es) → Distinct (event_ids (order_events es))
unfolding order_events
Distinct-order_events [] h = tt
Distinct-order_events (e ∷ es) h =
    Distinct-insert_ordered e (order_events es) (contains-order_events e.id es ∙ h.0)
      (Distinct-order_events es h.1)

-- No event is in a batch twice.
Distinct-claim_events :
    (worker : String) (batch_size timeout now : ℕ) (locked : ℕ → Bool) (table : List OutboxEvent)
    → Distinct (event_ids table)
    → Distinct (claimed_ids (claim_events worker batch_size timeout now locked table).0)
unfolding claim_events select_events
Distinct-claim_events worker batch_size timeout now locked table unique =
    let due = keep (is_claimable timeout now) table in
    let free = keep (λ e. not (locked e.id)) (order_events due) in
    subst Distinct (sym (claimed_ids-as_claimed (take batch_size free))) (
      Distinct-take batch_size free (
        Distinct-keep (λ e. not (locked e.id)) (order_events due)
          (Distinct-order_events due (Distinct-keep (is_claimable timeout now) table unique))))

module _ (publish : ClaimedEvent → Option (List ℕ)) (worker : String) (max_attempts : ℕ)
    (clock : ClaimedEvent → ℕ) where
  -- The event has a row that the worker holds, with a property.
  abbrev IsWaiting :
      (ClaimedEvent → OutboxEvent → Type 0) → List OutboxEvent → ClaimedEvent → Type 0
  IsWaiting Q table c =
      (d : OutboxEvent) × (get_event c.id table ≡ some d) × IsOwned worker d × Q c d

  -- Settling another event leaves it waiting.
  process_event-IsWaiting :
      (Q : ClaimedEvent → OutboxEvent → Type 0) (c : ClaimedEvent) (cs : List ClaimedEvent)
      (table : List OutboxEvent)
      → contains c.id (claimed_ids cs) ≡ false
      → All (IsWaiting Q table) cs
      → All (IsWaiting Q (process_event publish worker max_attempts clock c table)) cs
  process_event-IsWaiting Q c [] table apart h = tt
  process_event-IsWaiting Q c (x ∷ xs) table apart h =
      let other : x.id ≢ c.id = λ e. ground (arith, e) in
      (
        (
          h.0.0,
          get_event-process_event_ne publish worker max_attempts clock c x.id table other ∙ h.0.1,
          h.0.2,
          h.0.3,
        ),
        process_event-IsWaiting Q c xs table (ground arith) h.1,
      )

  process_events-exact :
      (Q : ClaimedEvent → OutboxEvent → Type 0) (cs : List ClaimedEvent) (table : List OutboxEvent)
      → Distinct (claimed_ids cs)
      → All (IsWaiting Q table) cs
      → All
          (λ c.
            (d : OutboxEvent) × Q c d
            × (get_event c.id (process_events publish worker max_attempts clock cs table)
                ≡ some (settle_row max_attempts (clock c) (publish c) d)))
          cs
  unfolding process_events
  process_events-exact Q [] table apart h = tt
  process_events-exact Q (c ∷ cs) table apart h =
      let after = process_event publish worker max_attempts clock c table in
      let (d, found, owned, q) = h.0 in
      (
        (
          d,
          q,
          get_event-process_events_ne publish worker max_attempts clock cs c.id after apart.0
              ∙ (process_event_owned publish worker max_attempts clock c c.id table d found owned
                  ∙ ground arith),
        ),
        process_events-exact Q cs after apart.1 (process_event-IsWaiting Q c cs table apart.0 h.1),
      )

-- In a table with one row for each id, every event of a run's batch had a row, and has one
-- afterwards that is settled as the publisher's outcome for it says: published if nothing was
-- raised, and else counted as a failed attempt, and dead or pending again.
pub process_once_settles :
    (publish : ClaimedEvent → Option (List ℕ)) (worker : String)
    (batch_size timeout max_attempts : ℕ) (clock : ClaimedEvent → ℕ) (now : ℕ) (locked : ℕ → Bool)
    (table : List OutboxEvent)
    → Distinct (event_ids table)
    → let (events, claimed) = claim_events worker batch_size timeout now locked table in
      let after =
        (process_once publish worker batch_size timeout max_attempts clock now locked table).1 in
      All
        (λ c.
          (e : OutboxEvent) × (get_event c.id table ≡ some e)
          × (d : OutboxEvent) × (get_event c.id after ≡ some d)
          × IsSettled max_attempts (clock c) (publish c) e d)
        events
unfolding process_once
process_once_settles publish worker batch_size timeout max_attempts clock now locked table unique =
    let (events, claimed) = claim_events worker batch_size timeout now locked table in
    let Was : ClaimedEvent → OutboxEvent → Type 0 =
      λ c d. (e : OutboxEvent) × (get_event c.id table ≡ some e) × (d ≡ claim worker now e) in
    All-imp _ _ events
      (λ c h.
        let (d, (e, found, made), row) = h in
        (
          e,
          found,
          settle_row max_attempts (clock c) (publish c) d,
          row,
          subst
              (λ x.
                IsSettled max_attempts (clock c) (publish c) e
                  (settle_row max_attempts (clock c) (publish c) x))
              (sym made) (settle_row-IsSettled max_attempts (clock c) (publish c) worker now e),
        ))
      (process_events-exact publish worker max_attempts clock Was events claimed
        (Distinct-claim_events worker batch_size timeout now locked table unique)
        (claim_events-IsHeld worker batch_size timeout now locked table))
