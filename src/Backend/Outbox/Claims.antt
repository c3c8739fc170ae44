-- ===== src/Backend/Outbox/Claims.antt =====
-- `claim_events`: what a worker may claim, that two workers never hold the same event within the
-- lock's time, and what a claim writes.
use myaqi_iot_platform.Prelude.{
  ℕ, ◌+◌, ◌<◌, ◌≤◌, ◌≡◌, refl, ap, ◌∙◌, inl, inr, String, Bool, true, false, not, List, [], ◌∷◌,
  map, arith, All, All-keep, All-take, All-map, All-imp, Any, contains, length, length-take, take,
  keep,
}
use myaqi_iot_platform.Backend.Models.{OutboxEvent}
use myaqi_iot_platform.Backend.Outbox.{
  ClaimedEvent, get_event, claim_row, event_ids, is_claimable, select_events, as_claimed,
  claim_events, order_events,
}
use myaqi_iot_platform.Backend.Outbox.Table.{All-order_events, get_event-claim, claim_found}

abbrev pub claimed_ids : List ClaimedEvent → List ℕ
claimed_ids cs = map (λ c. c.id) cs

length-as_claimed : (es : List OutboxEvent) → length (map as_claimed es) ≡ length es
length-as_claimed [] = refl
length-as_claimed (e ∷ es) = omega (arith, length-as_claimed es)

pub claimed_ids-as_claimed :
    (es : List OutboxEvent) → claimed_ids (map as_claimed es) ≡ event_ids es
claimed_ids-as_claimed [] = refl
claimed_ids-as_claimed (e ∷ es) = ap (λ t. e.id ∷ t) (claimed_ids-as_claimed es)

-- A row of the table from which `c` was made, and that the SELECT may take at `now`.
abbrev pub Offers : ℕ → ℕ → List OutboxEvent → ClaimedEvent → Type 0
Offers timeout now table c =
    Any (λ e. (as_claimed e ≡ c) × (is_claimable timeout now e ≡ true)) table

All-Any-cons :
    (x : OutboxEvent) (xs ys : List OutboxEvent)
    → All (λ e. Any (λ d. d ≡ e) xs) ys
    → All (λ e. Any (λ d. d ≡ e) (x ∷ xs)) ys
All-Any-cons x xs ys h = All-imp _ _ ys (λ e p. inr p) h

-- Every row of the table is a row of the table.
All-Any : (table : List OutboxEvent) → All (λ e. Any (λ d. d ≡ e) table) table
All-Any [] = tt
All-Any (x ∷ xs) = (inl refl, All-Any-cons x xs xs (All-Any xs))

offers :
    (timeout now : ℕ) (table : List OutboxEvent) (e : OutboxEvent)
    → Any (λ d. d ≡ e) table
    → is_claimable timeout now e ≡ true
    → Offers timeout now table (as_claimed e)
offers timeout now [] e h c = absurd h
offers timeout now (x ∷ xs) e (inl p) c = inl (ap as_claimed p, ap (is_claimable timeout now) p ∙ c)
offers timeout now (x ∷ xs) e (inr h) c = inr (offers timeout now xs e h c)

module _ {ℓ} (P : OutboxEvent → Type ℓ) (locked : ℕ → Bool) (batch_size timeout now : ℕ) where
  -- What every row has, every selected row has; and it is claimable and not locked.
  pub All-select_events :
      (table : List OutboxEvent)
      → All P table
      → All
          (λ e. (P e × (is_claimable timeout now e ≡ true)) × (not (locked e.id) ≡ true))
          (select_events locked batch_size timeout now table)
  unfolding select_events
  All-select_events table h =
      All-take _ batch_size
        (keep (λ e. not (locked e.id)) (order_events (keep (is_claimable timeout now) table)))
        (All-keep _ (λ e. not (locked e.id)) (order_events (keep (is_claimable timeout now) table))
          (All-order_events _ (keep (is_claimable timeout now) table)
            (All-keep P (is_claimable timeout now) table h)))

module _ (worker : String) (batch_size timeout now : ℕ) (locked : ℕ → Bool) where
  -- A batch has at most `batch_size` events.
  pub claim_events_count :
      (table : List OutboxEvent)
      → length (claim_events worker batch_size timeout now locked table).0 ≤ batch_size
  unfolding claim_events select_events
  claim_events_count table = omega (
    arith,
    length-as_claimed (
        take batch_size
          (keep (λ e. not (locked e.id)) (order_events (keep (is_claimable timeout now) table)))),
    length-take {0} batch_size
        (keep (λ e. not (locked e.id)) (order_events (keep (is_claimable timeout now) table))),
  )

  -- Every claimed event stems from a row that was claimable at the time of the claim, and that no
  -- open transaction had locked.
  pub claim_events_offered :
      (table : List OutboxEvent)
      → All
          (λ c. Offers timeout now table c × (locked c.id ≡ false))
          (claim_events worker batch_size timeout now locked table).0
  unfolding claim_events
  claim_events_offered table =
      All-map _ as_claimed (select_events locked batch_size timeout now table) (
        All-imp _ _ (select_events locked batch_size timeout now table)
          (λ e h. (offers timeout now table e h.0.0 h.0.1, not-true (locked e.id) h.1))
          (All-select_events (λ e. Any (λ d. d ≡ e) table) locked batch_size timeout now table
            (All-Any table)))
    where
      not-true : (b : Bool) → not b ≡ true → b ≡ false
      not-true b h = ground arith

-- After the claim, the rows of the claimed events are held by the worker from that time on, and
-- every other row is as it was.
pub get_event-claim_events :
    (worker : String) (batch_size timeout now : ℕ) (locked : ℕ → Bool) (table : List OutboxEvent)
    (j : ℕ)
    → let (events, claimed) = claim_events worker batch_size timeout now locked table in
      get_event j claimed ≡ claim_found worker now (claimed_ids events) (get_event j table)
unfolding claim_events
get_event-claim_events worker batch_size timeout now locked table j = rw claimed_ids-as_claimed (
    get_event-claim worker now (event_ids (select_events locked batch_size timeout now table)) j
      table)

-- A row that was claimed at `now` is not claimable before the lock's time has passed.
claimed_row-fresh :
    (worker : String) (timeout now later : ℕ) (ids : List ℕ) (e : OutboxEvent)
    → later < now + timeout
    → is_claimable timeout later (claim_row worker now ids e) ≡ true
    → contains e.id ids ≡ false
unfolding is_claimable
claimed_row-fresh worker timeout now later ids e h c = ground arith

claimed_rows-fresh :
    (worker : String) (timeout now later : ℕ) (ids : List ℕ) (table : List OutboxEvent)
    → later < now + timeout
    → All
        (λ e. is_claimable timeout later e ≡ true → contains e.id ids ≡ false)
        (map (claim_row worker now ids) table)
claimed_rows-fresh worker timeout now later ids [] h = tt
claimed_rows-fresh worker timeout now later ids (e ∷ es) h = (
  λ c. ground (arith, claimed_row-fresh worker timeout now later ids e h c),
  claimed_rows-fresh worker timeout now later ids es h,
)

-- When a claim is followed by another, with no settlement in between and before the lock's time has
-- passed, the second claims no event of the first, whatever the two workers' names, their batch
-- sizes and the rows that are locked.
pub claim_events_exclusive :
    (first second : String) (n m timeout now later : ℕ) (locked locked' : ℕ → Bool)
    (table : List OutboxEvent)
    → later < now + timeout
    → let (events, claimed) = claim_events first n timeout now locked table in
      All
        (λ c. contains c.id (claimed_ids events) ≡ false)
        (claim_events second m timeout later locked' claimed).0
unfolding claim_events
claim_events_exclusive first second n m timeout now later locked locked' table h =
    let chosen = select_events locked n timeout now table in
    let after = map (claim_row first now (event_ids chosen)) table in
    rw claimed_ids-as_claimed (
      All-map _ as_claimed (select_events locked' m timeout later after) (
        All-imp _ _ (select_events locked' m timeout later after) (λ e p. p.0.0 p.0.1)
          (All-select_events
            (λ e. is_claimable timeout later e ≡ true → contains e.id (event_ids chosen) ≡ false)
            locked' m timeout later after
            (claimed_rows-fresh first timeout now later (event_ids chosen) table h))))
