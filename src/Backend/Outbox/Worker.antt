-- ===== src/Backend/Outbox/Worker.antt =====
-- `process_once`: what becomes of the events of the batch, and of the table's rows.
use myaqi_iot_platform.Prelude.{
  ℕ, ◌≡◌, refl, ap, ◌∙◌, ◌⊎◌, inl, inr, String, Bool, true, false, Option, none, some, List, [],
  ◌∷◌, arith, ◌==◌, Bool-cases, Option-cases, if◌then◌else◌, contains, All, All-imp, All-and,
  All-contains,
}
use mathlib.Core.Path.{subst}
use myaqi_iot_platform.Backend.Models.{OutboxEvent, published}
use myaqi_iot_platform.Backend.Outbox.{
  is_processing, ClaimedEvent, get_event, publish_row, fail_row, mark_published, mark_failed,
  claim_events, event_ids, process_event, process_events, process_once, claim, is_owner,
  select_events,
}
use myaqi_iot_platform.Backend.Outbox.Table.{
  event_ids-put, get_event-id, event_ids-claim, claim_found,
}
use myaqi_iot_platform.Backend.Outbox.Ownership.{
  IsOwned, mark_published_owned, mark_failed_owned, mark_not_owned,
}
use myaqi_iot_platform.Backend.Outbox.Claims.{
  claimed_ids, Offers, claim_events_offered, get_event-claim_events,
}

abbrev pub settle_row : ℕ → ℕ → Option (List ℕ) → OutboxEvent → OutboxEvent
settle_row max_attempts now none e = publish_row now e
settle_row max_attempts now (some error) e = fail_row error max_attempts now e

settle_row-free :
    (max_attempts now : ℕ) (raised : Option (List ℕ)) (e : OutboxEvent)
    → is_processing (settle_row max_attempts now raised e).status ≡ false
settle_row-free max_attempts now none e = refl
settle_row-free max_attempts now (some error) e = ground arith

event_ids-mark_published :
    (worker : String) (now j : ℕ) (table : List OutboxEvent)
    → event_ids (mark_published j worker now table).1 ≡ event_ids table
unfolding mark_published
event_ids-mark_published worker now j table = elim (Option-cases (get_event j table)) [
  | inl p ↦ ground (arith, p)
  | inr (e, p) ↦ elim (Bool-cases (is_owner worker e)) [
    | inl own ↦ rw (p, mark_published, own) (event_ids-put (publish_row now e) table)
    | inr other ↦ rw (p, mark_published, other)
  ]
]

event_ids-mark_failed :
    (worker : String) (error : List ℕ) (max_attempts now j : ℕ) (table : List OutboxEvent)
    → event_ids (mark_failed j worker error max_attempts now table).1 ≡ event_ids table
unfolding mark_failed
event_ids-mark_failed worker error max_attempts now j table =
    elim (Option-cases (get_event j table)) [
      | inl p ↦ rw (p, mark_failed)
      | inr (e, p) ↦ elim (Bool-cases (is_owner worker e)) [
        | inl own ↦
            rw (p, mark_failed, own) (event_ids-put (fail_row error max_attempts now e) table)
        | inr other ↦ rw (p, mark_failed, other)
      ]
    ]

module _ (publish : ClaimedEvent → Option (List ℕ)) (worker : String) (max_attempts : ℕ)
    (clock : ClaimedEvent → ℕ) where
  -- What the loop makes of a row that the worker holds.
  abbrev pub settle : ClaimedEvent → OutboxEvent → OutboxEvent
  settle c e = settle_row max_attempts (clock c) (publish c) e

  pub process_event_owned :
      (c : ClaimedEvent) (k : ℕ) (table : List OutboxEvent) (e : OutboxEvent)
      → get_event c.id table ≡ some e
      → IsOwned worker e
      → get_event k (process_event publish worker max_attempts clock c table)
        ≡ (if k == c.id then some (settle c e) else get_event k table)
  unfolding process_event
  process_event_owned c k table e found owned = elim (Option-cases (publish c)) [
    | inl p ↦
        rw (p, process_event)
          (mark_published_owned worker (clock c) c.id k table {e = e} found owned).1
    | inr (error, p) ↦
        rw (p, process_event)
          (mark_failed_owned worker error max_attempts (clock c) c.id k table {e = e} found owned).1
  ]

  process_event_other :
      (c : ClaimedEvent) (table : List OutboxEvent)
      → ((e : OutboxEvent) → get_event c.id table ≡ some e → ¬ IsOwned worker e)
      → process_event publish worker max_attempts clock c table ≡ table
  unfolding process_event
  process_event_other c table h = elim (Option-cases (publish c)) [
    | inl p ↦
        rw (p, process_event)
          (ap (λ r. r.1) (mark_not_owned worker [] max_attempts (clock c) c.id table h).0)
    | inr (error, p) ↦
        rw (p, process_event)
          (ap (λ r. r.1) (mark_not_owned worker error max_attempts (clock c) c.id table h).1)
  ]

  event_ids-process_event :
      (c : ClaimedEvent) (table : List OutboxEvent)
      → event_ids (process_event publish worker max_attempts clock c table) ≡ event_ids table
  unfolding process_event
  event_ids-process_event c table = elim (Option-cases (publish c)) [
    | inl p ↦ rw (p, process_event) (event_ids-mark_published worker (clock c) c.id table)
    | inr (error, p) ↦
        rw (p, process_event) (event_ids-mark_failed worker error max_attempts (clock c) c.id table)
  ]

  event_ids-process_events :
      (cs : List ClaimedEvent) (table : List OutboxEvent)
      → event_ids (process_events publish worker max_attempts clock cs table) ≡ event_ids table
  unfolding process_events
  event_ids-process_events [] table = refl
  event_ids-process_events (c ∷ cs) table =
      event_ids-process_events cs (process_event publish worker max_attempts clock c table)
      ∙ event_ids-process_event c table

  module _ (P : OutboxEvent → Type 0) (free : (e : OutboxEvent) → P e → ¬ IsOwned worker e)
      (settled : (c : ClaimedEvent) (e : OutboxEvent) → IsOwned worker e → P (settle c e)) where
    -- The table has a row of this key, and the row has the property.
    abbrev Row : (OutboxEvent → Type 0) → ℕ → List OutboxEvent → Type 0
    Row Q j table = (e : OutboxEvent) × (get_event j table ≡ some e) × Q e

    -- The row is held by the worker, or the loop has settled it.
    abbrev Held : OutboxEvent → Type 0
    Held e = IsOwned worker e ⊎ P e

    same_row :
        (j : ℕ) (table : List OutboxEvent) (d e : OutboxEvent)
        → get_event j table ≡ some d
        → get_event j table ≡ some e
        → P d
        → P e
    same_row j table d e p q h = let r : d ≡ e = cc in subst P r h

    settled_stays :
        (c : ClaimedEvent) (table : List OutboxEvent) (d : OutboxEvent)
        → get_event c.id table ≡ some d
        → P d
        → process_event publish worker max_attempts clock c table ≡ table
    settled_stays c table d found done =
        process_event_other c table λ e q. free e (same_row c.id table d e found q done)

    -- One round keeps what follows from being settled, for every row.
    process_event-keeps :
        (Q : OutboxEvent → Type 0)
        → ((e : OutboxEvent) → P e → Q e)
        → (c : ClaimedEvent) (j : ℕ) (table : List OutboxEvent) → Row Held c.id table
        → Row Q j table
        → Row Q j (process_event publish worker max_attempts clock c table)
    process_event-keeps Q imp c j table (d, found, inr done) h =
        rw (settled_stays c table d found done) h
    process_event-keeps Q imp c j table (d, found, inl own) h = elim (Bool-cases (j == c.id)) [
      | inl same ↦ (
        settle c d,
        process_event_owned c j table d found own ∙ rw same,
        imp (settle c d) (settled c d own),
      )
      | inr other ↦ (h.0, process_event_owned c j table d found own ∙ rw other h.1, h.2)
    ]

    -- A round settles its own event.
    process_event-settles :
        (c : ClaimedEvent) (table : List OutboxEvent)
        → Row Held c.id table
        → Row P c.id (process_event publish worker max_attempts clock c table)
    process_event-settles c table (d, found, inr done) =
        rw (settled_stays c table d found done) (d, found, done)
    process_event-settles c table (d, found, inl own) =
        (settle c d, process_event_owned c c.id table d found own ∙ ground arith, settled c d own)

    process_events-keeps :
        (cs : List ClaimedEvent) (j : ℕ) (table : List OutboxEvent)
        → All (λ c. Row Held c.id table) cs
        → Row P j table
        → Row P j (process_events publish worker max_attempts clock cs table)
    unfolding process_events
    process_events-keeps [] j table h s = s
    process_events-keeps (c ∷ cs) j table h s =
        process_events-keeps cs j (process_event publish worker max_attempts clock c table)
          (All-imp _ _ cs (λ d. process_event-keeps Held (λ e. inr) c d.id table h.0) h.1)
          (process_event-keeps P (λ e p. p) c j table h.0 s)

    process_events-settles :
        (cs : List ClaimedEvent) (table : List OutboxEvent)
        → All (λ c. Row Held c.id table) cs
        → All (λ c. Row P c.id (process_events publish worker max_attempts clock cs table)) cs
    unfolding process_events
    process_events-settles [] table h = tt
    process_events-settles (c ∷ cs) table h =
        let after = process_event publish worker max_attempts clock c table in
        let held = All-imp _ _ cs (λ d. process_event-keeps Held (λ e. inr) c d.id table h.0) h.1 in
        (
          process_events-keeps cs c.id after held (process_event-settles c table h.0),
          process_events-settles cs after held,
        )

-- A key that some row has is found.
get_event-Any :
    (timeout now : ℕ) (c : ClaimedEvent) (table : List OutboxEvent)
    → Offers timeout now table c
    → (e : OutboxEvent) × (get_event c.id table ≡ some e)
unfolding get_event
get_event-Any timeout now c [] h = absurd h
get_event-Any timeout now c (x ∷ es) h = elim (Bool-cases (x.id == c.id)) [
  | inl same ↦ (x, rw same)
  | inr other ↦ rw other (get_event-Any timeout now c es (rest h other))
]
  where
    rest : Offers timeout now (x ∷ es) c → (x.id == c.id) ≡ false → Offers timeout now es c
    rest (inl p) other = absurd (ground (arith, ap (λ (d : ClaimedEvent). d.id) p.0))
    rest (inr p) other = p

-- The row that a claim makes of the one that the table had.
abbrev pub IsHeld : String → ℕ → List OutboxEvent → List OutboxEvent → ClaimedEvent → Type 0
IsHeld worker now table claimed c =
    (d : OutboxEvent) × (get_event c.id claimed ≡ some d)
    × IsOwned worker d
    × ((e : OutboxEvent) × (get_event c.id table ≡ some e) × (d ≡ claim worker now e))

claimed-IsHeld :
    (worker : String) (now : ℕ) (c : ClaimedEvent) (ids : List ℕ) (table claimed : List OutboxEvent)
    (e : OutboxEvent)
    → get_event c.id table ≡ some e
    → contains c.id ids ≡ true
    → get_event c.id claimed ≡ claim_found worker now ids (get_event c.id table)
    → IsHeld worker now table claimed c
claimed-IsHeld worker now c ids table claimed e found mem write =
    let key : contains e.id ids ≡ true = rw (get_event-id c.id table {e = e} found) mem in
    let row : get_event c.id claimed ≡ some (claim worker now e) = write ∙ rw found (rw key refl) in
    (claim worker now e, row, record { in_progress = refl; holder = refl }, (e, found, refl))

-- After a claim its events are held by the worker, each by the claim of the row that it had.
pub claim_events-IsHeld :
    (worker : String) (batch_size timeout now : ℕ) (locked : ℕ → Bool) (table : List OutboxEvent)
    → let (events, claimed) = claim_events worker batch_size timeout now locked table in
      All (IsHeld worker now table claimed) events
claim_events-IsHeld worker batch_size timeout now locked table =
    let (events, claimed) = claim_events worker batch_size timeout now locked table in
    All-imp _ _ events
      (λ c h.
        let (e, found) = get_event-Any timeout now c table h.0.0 in
        claimed-IsHeld worker now c (claimed_ids events) table claimed e found h.1
          (get_event-claim_events worker batch_size timeout now locked table c.id))
      (All-and _ _ events (claim_events_offered worker batch_size timeout now locked table)
        (All-contains (λ c. c.id) events))

claim_events-held :
    (worker : String) (batch_size timeout now : ℕ) (locked : ℕ → Bool) (table : List OutboxEvent)
    → let (events, claimed) = claim_events worker batch_size timeout now locked table in
      All (λ c. (e : OutboxEvent) × (get_event c.id claimed ≡ some e) × IsOwned worker e) events
claim_events-held worker batch_size timeout now locked table =
    let (events, claimed) = claim_events worker batch_size timeout now locked table in
    All-imp _ _ events (λ c h. let (d, found, owned, _) = h in (d, found, owned))
      (claim_events-IsHeld worker batch_size timeout now locked table)

module _ (publish : ClaimedEvent → Option (List ℕ)) (worker : String)
    (batch_size timeout max_attempts : ℕ) (clock : ClaimedEvent → ℕ) (now : ℕ) (locked : ℕ → Bool)
    (table : List OutboxEvent) where
  -- A run loses no row and adds none.
  pub event_ids-process_once :
      event_ids
        (process_once publish worker batch_size timeout max_attempts clock now locked table).1
      ≡ event_ids table
  unfolding process_once claim_events
  event_ids-process_once =
      let (events, claimed) = claim_events worker batch_size timeout now locked table in
      event_ids-process_events publish worker max_attempts clock events claimed
      ∙ event_ids-claim worker now (event_ids (select_events locked batch_size timeout now table))
          table

  -- Whatever the publisher raises, a run leaves no event of its batch in processing: each is
  -- published, back to pending, or dead.
  pub process_once_frees :
      let (events, claimed) = claim_events worker batch_size timeout now locked table in
      All
        (λ c.
          (e : OutboxEvent) × (get_event c.id
              (process_once publish worker batch_size timeout max_attempts clock now locked table).1
            ≡ some e)
          × (is_processing e.status ≡ false))
        events
  unfolding process_once
  process_once_frees =
      let (events, claimed) = claim_events worker batch_size timeout now locked table in
      process_events-settles publish worker max_attempts clock (λ e. is_processing e.status ≡ false)
        (λ e free owned. ground (arith, owned.in_progress))
        (λ c e owned. settle_row-free max_attempts (clock c) (publish c) e) events claimed
        (All-imp _ _ events (λ c h. (h.0, h.1, inl h.2))
          (claim_events-held worker batch_size timeout now locked table))

-- With a publisher that raises nothing, a run publishes every event of its batch.
pub process_once_publishes :
    (publish : ClaimedEvent → Option (List ℕ)) (worker : String)
    (batch_size timeout max_attempts : ℕ) (clock : ClaimedEvent → ℕ) (now : ℕ) (locked : ℕ → Bool)
    (table : List OutboxEvent)
    → ((c : ClaimedEvent) → publish c ≡ none)
    → let (events, claimed) = claim_events worker batch_size timeout now locked table in
      All
        (λ c.
          (e : OutboxEvent) × (get_event c.id
              (process_once publish worker batch_size timeout max_attempts clock now locked table).1
            ≡ some e)
          × (e.status ≡ published))
        events
unfolding process_once
process_once_publishes publish worker batch_size timeout max_attempts clock now locked table quiet =
    let (events, claimed) = claim_events worker batch_size timeout now locked table in
    process_events-settles publish worker max_attempts clock (λ e. e.status ≡ published)
      (λ e free owned. ground (arith, owned.in_progress)) (λ c e owned. rw (quiet c)) events claimed
      (All-imp _ _ events (λ c h. (h.0, h.1, inl h.2))
        (claim_events-held worker batch_size timeout now locked table))
