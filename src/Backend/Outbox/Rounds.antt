-- ===== src/Backend/Outbox/Rounds.antt =====
-- One round of the worker, for the table as a whole.
use myaqi_iot_platform.Prelude.{
  ℕ, ◌-◌, ◌≤◌, ◌≡◌, ◌≢◌, ◌⊎◌, refl, sym, ap, ◌∙◌, inl, inr, String, Bool, true, false, ◌&&◌, ◌||◌,
  not, Option, none, some, List, [], ◌∷◌, arith, ◌==◌, Bool-cases, Option-cases, length, take, keep,
  contains, Distinct, All,
}
use mathlib.Core.Path.{subst}
use myaqi_iot_platform.Backend.Models.{OutboxEvent, published}
use myaqi_iot_platform.Backend.Outbox.{
  ClaimedEvent, is_pending, is_processing, is_owner, is_claimable, get_event, event_ids,
  order_events, select_events, publish_row, fail_row, claim_events, mark_published, mark_failed,
  process_event, process_events, process_once,
}
use myaqi_iot_platform.Backend.Outbox.Table.{get_event-id, get_event-put_ne, claim_found}
use myaqi_iot_platform.Backend.Outbox.Claims.{
  claimed_ids, claimed_ids-as_claimed, get_event-claim_events,
}
use myaqi_iot_platform.Backend.Outbox.Worker.{event_ids-process_once, process_once_publishes}
use myaqi_iot_platform.Backend.Outbox.Rows.{
  at, keep-All, keep_cong, length-keep_imp, length-keep-keep, length-keep-at,
  length-keep-order_events, length-order_events, length-keep_taken,
}

-- A row that is neither published nor dead
abbrev pub is_open : OutboxEvent → Bool
is_open e = is_pending e.status || is_processing e.status

fail_row-id :
    (error : List ℕ) (max_attempts now : ℕ) (e : OutboxEvent)
    → (fail_row error max_attempts now e).id ≡ e.id
fail_row-id error max_attempts now e = ground arith

-- Settling one event leaves the other rows.
get_event-mark_ne :
    (worker : String) (error : List ℕ) (max_attempts now i j : ℕ) (table : List OutboxEvent)
    → j ≢ i
    → (get_event j (mark_published i worker now table).1 ≡ get_event j table)
      × (get_event j (mark_failed i worker error max_attempts now table).1 ≡ get_event j table)
unfolding mark_published mark_failed
get_event-mark_ne worker error max_attempts now i j table other =
    elim (Option-cases (get_event i table)) [
      | inl p ↦ rw (p, mark_published, mark_failed) (refl, refl)
      | inr (e, p) ↦
          let key = get_event-id i table {e = e} p in
          elim (Bool-cases (is_owner worker e)) [
            | inl own ↦
                rw (p, mark_published, mark_failed, own)
                  (
                    get_event-put_ne j (publish_row now e) table (λ q. other (q ∙ key)),
                    get_event-put_ne j (fail_row error max_attempts now e) table
                        (λ q. other (q ∙ (fail_row-id error max_attempts now e ∙ key))),
                  )
            | inr free ↦ rw (p, mark_published, mark_failed, free) (refl, refl)
          ]
    ]

module _ (publish : ClaimedEvent → Option (List ℕ)) (worker : String) (max_attempts : ℕ)
    (clock : ClaimedEvent → ℕ) where
  pub get_event-process_event_ne :
      (c : ClaimedEvent) (j : ℕ) (table : List OutboxEvent)
      → j ≢ c.id
      → get_event j (process_event publish worker max_attempts clock c table) ≡ get_event j table
  unfolding process_event
  get_event-process_event_ne c j table other = elim (Option-cases (publish c)) [
    | inl p ↦
        rw (p, process_event)
          (get_event-mark_ne worker [] max_attempts (clock c) c.id j table other).0
    | inr (error, p) ↦
        rw (p, process_event)
          (get_event-mark_ne worker error max_attempts (clock c) c.id j table other).1
  ]

  pub get_event-process_events_ne :
      (cs : List ClaimedEvent) (j : ℕ) (table : List OutboxEvent)
      → contains j (claimed_ids cs) ≡ false
      → get_event j (process_events publish worker max_attempts clock cs table) ≡ get_event j table
  unfolding process_events
  get_event-process_events_ne [] j table h = refl
  get_event-process_events_ne (c ∷ cs) j table h =
      get_event-process_events_ne cs j (process_event publish worker max_attempts clock c table)
        (ground arith)
      ∙ get_event-process_event_ne c j table (λ e. ground (arith, e))

-- A property that the events of a list have belongs to each id of the list.
pub All-claimed :
    (P : ℕ → Type 0) (cs : List ClaimedEvent) (j : ℕ)
    → All (λ c. P c.id) cs
    → contains j (claimed_ids cs) ≡ true
    → P j
All-claimed P [] j h mem = absurd (cc)
All-claimed P (c ∷ cs) j h mem = elim (Bool-cases (j == c.id)) [
  | inl p ↦ let same : c.id ≡ j = (ground arith) in subst P same h.0
  | inr p ↦ All-claimed P cs j h.1 (ground arith)
]

claim_found_absent :
    (worker : String) (now j : ℕ) (ids : List ℕ) (table : List OutboxEvent)
    → contains j ids ≡ false
    → claim_found worker now ids (get_event j table) ≡ get_event j table
claim_found_absent worker now j ids table h = elim (Option-cases (get_event j table)) [
  | inl p ↦ rw p refl
  | inr (e, p) ↦
      let key = get_event-id j table {e = e} p in
      let out : contains e.id ids ≡ false = rw key h in rw p (rw out refl)
]

at_outside :
    (q : OutboxEvent → Bool) (j : ℕ) (ids : List ℕ) (after before : Option OutboxEvent)
    → after ≡ before
    → ((e : OutboxEvent) → before ≡ some e → e.id ≡ j)
    → contains j ids ≡ false
    → at q after ≡ true
    → at (λ e. q e && not (contains e.id ids)) before ≡ true
at_outside q j ids after none same key free h = absurd (cc)
at_outside q j ids after (some e) same key free h =
    let id = key e refl in
    let out : contains e.id ids ≡ false = rw id free in
    let holds : q e ≡ true = ap (at q) (sym same) ∙ h in rw (holds, out) refl

All-each : (P : ℕ → Type 0) (js : List ℕ) → ((j : ℕ) → P j) → All P js
All-each P [] h = tt
All-each P (j ∷ js) h = (h j, All-each P js h)

module _ (publish : ClaimedEvent → Option (List ℕ)) (worker : String)
    (batch_size timeout max_attempts : ℕ) (clock : ClaimedEvent → ℕ) (now : ℕ) (locked : ℕ → Bool)
    (table : List OutboxEvent) where
  abbrev pub after_round : List OutboxEvent
  after_round =
      (process_once publish worker batch_size timeout max_attempts clock now locked table).1

  abbrev pub round_ids : List ℕ
  round_ids = claimed_ids (claim_events worker batch_size timeout now locked table).0

  -- A round leaves the rows that are not in its batch.
  pub get_event-process_once_ne :
      (j : ℕ) → contains j round_ids ≡ false → get_event j after_round ≡ get_event j table
  unfolding process_once
  get_event-process_once_ne j h =
      let (events, claimed) = claim_events worker batch_size timeout now locked table in
      get_event-process_events_ne publish worker max_attempts clock events j claimed h
      ∙ (get_event-claim_events worker batch_size timeout now locked table j
          ∙ claim_found_absent worker now j (claimed_ids events) table h)

  -- The rows of a kind that no row of the batch is of after the round are rows that were of it
  -- before, outside of the batch.
  length-keep_round :
      (q : OutboxEvent → Bool)
      → Distinct (event_ids table)
      → ((j : ℕ) → contains j round_ids ≡ true → at q (get_event j after_round) ≡ false)
      → length (keep q after_round)
        ≤ length (keep (λ e. q e && not (contains e.id round_ids)) table)
  length-keep_round q unique gone =
      let outside : OutboxEvent → Bool = λ e. q e && not (contains e.id round_ids) in
      let same_ids =
        event_ids-process_once publish worker batch_size timeout max_attempts clock now locked
          table in
      let before = length-keep-at outside table unique in
      let after = length-keep-at q after_round (subst Distinct (sym same_ids) unique) in
      let fewer =
        length-keep_imp (λ j. at q (get_event j after_round)) (λ j. at outside (get_event j table))
          (event_ids table) (All-each _ (event_ids table) kept) in
      let ids : length (keep (λ j. at q (get_event j after_round)) (event_ids after_round))
          ≡ length (keep (λ j. at q (get_event j after_round)) (event_ids table)) =
        ap (λ (js : List ℕ). length (keep (λ j. at q (get_event j after_round)) js)) same_ids in
      omega (arith, before, after, fewer, ids)
    where
      kept :
          (j : ℕ)
          → at q (get_event j after_round) ≡ true
          → at (λ e. q e && not (contains e.id round_ids)) (get_event j table) ≡ true
      kept j h = elim (Bool-cases (contains j round_ids)) [
        | inl mem ↦ let out = gone j mem in absurd (cc)
        | inr free ↦
            let same = get_event-process_once_ne j free in
            at_outside q j round_ids (get_event j after_round) (get_event j table) same
              (λ e found. get_event-id j table {e = e} found) free h
      ]

  published_round :
      ((c : ClaimedEvent) → publish c ≡ none)
      → (j : ℕ) → contains j round_ids ≡ true
      → (e : OutboxEvent) × (get_event j after_round ≡ some e) × (e.status ≡ published)
  published_round quiet j mem =
      All-claimed
        (λ i. (e : OutboxEvent) × (get_event i after_round ≡ some e) × (e.status ≡ published))
        (claim_events worker batch_size timeout now locked table).0 j
        (process_once_publishes publish worker batch_size timeout max_attempts clock now locked
          table quiet)
        mem

  -- With a publisher that raises nothing, a row that is not as it was is published.
  pub get_event-process_once_quiet :
      ((c : ClaimedEvent) → publish c ≡ none)
      → (j : ℕ)
      → (get_event j after_round ≡ get_event j table)
        ⊎ ((e : OutboxEvent) × (get_event j after_round ≡ some e) × (e.status ≡ published))
  get_event-process_once_quiet quiet j = elim (Bool-cases (contains j round_ids)) [
    | inl mem ↦ inr (published_round quiet j mem)
    | inr free ↦ inl (get_event-process_once_ne j free)
  ]

  -- The rows that the SELECT takes, when it may take every row that is not settled
  module _ (free : (j : ℕ) → locked j ≡ false)
      (due : All (λ e. is_open e ≡ is_claimable timeout now e) table) where
    select_open :
        select_events locked batch_size timeout now table
        ≡ take batch_size (order_events (keep is_open table))
    unfolding select_events
    select_open =
        let claimable = keep_cong is_open (is_claimable timeout now) table due in
        let all_free =
          keep-All (λ e. not (locked e.id)) (order_events (keep (is_claimable timeout now) table))
            (All_rows (order_events (keep (is_claimable timeout now) table))) in
        rw (all_free, claimable) refl
      where
        All_rows : (es : List OutboxEvent) → All (λ e. not (locked e.id) ≡ true) es
        All_rows [] = tt
        All_rows (e ∷ es) = (rw (free e.id), All_rows es)

    pub length-keep_open :
        Distinct (event_ids table)
        → ((c : ClaimedEvent) → publish c ≡ none)
        → length (keep is_open after_round) ≤ length (keep is_open table) - batch_size
    unfolding claim_events
    length-keep_open unique quiet =
        let xs = order_events (keep is_open table) in
        let ids : round_ids ≡ event_ids (take batch_size xs) =
          claimed_ids-as_claimed (select_events locked batch_size timeout now table)
          ∙ ap (λ (es : List OutboxEvent). event_ids es) select_open in
        let round =
          length-keep_round is_open unique (λ j mem.
            let (e, found, done) = published_round quiet j mem in rw (found, done) refl) in
        let nested = length-keep-keep is_open (λ e. not (contains e.id round_ids)) table in
        let ordered =
          length-keep-order_events (λ e. not (contains e.id round_ids)) (keep is_open table) in
        let same : length (keep (λ e. not (contains e.id round_ids)) xs)
            ≡ length (keep (λ e. not (contains e.id (event_ids (take batch_size xs)))) xs) =
          ap (λ js. length (keep (λ e. not (contains e.id js)) xs)) ids in
        omega (
          arith,
          round,
          nested,
          ordered,
          same,
          length-keep_taken batch_size xs,
          length-order_events (keep is_open table),
        )
