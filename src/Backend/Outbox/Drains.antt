-- ===== src/Backend/Outbox/Drains.antt =====
-- The worker's loop: what is left of the outbox after its rounds, and what it holds when it stops.
use myaqi_iot_platform.Prelude.{
  ℕ, ◌-◌, ◌*◌, ◌≤◌, ◌≡◌, ◌⊎◌, refl, sym, ap, ◌∙◌, inl, inr, Bool, true, false, Option, none, some,
  List, [], ◌∷◌, arith, if◌then◌else◌, suc, Bool-cases, Option-cases, length, keep, contains,
  Distinct, All, All-imp,
}
use mathlib.Core.Path.{subst}
use native.Mathlib.Nat.{suc-mul}
use myaqi_iot_platform.Python.Text.{Text}
use myaqi_iot_platform.Backend.Models.{OutboxEvent, published}
use myaqi_iot_platform.Backend.Outbox.{
  ClaimedEvent, is_processing, is_owner, is_claimable, get_event, event_ids, claim_events,
}
use myaqi_iot_platform.Backend.Outbox.Claims.{claimed_ids}
use myaqi_iot_platform.Backend.Outbox.Ownership.{IsOwned, is_owner-IsOwned, IsOwned-is_owner}
use myaqi_iot_platform.Backend.Outbox.Worker.{event_ids-process_once, process_once_frees}
use myaqi_iot_platform.Backend.Outbox.Rows.{All-get_event, get_event-All, length-keep_zero}
use myaqi_iot_platform.Backend.Outbox.Rounds.{
  is_open, All-claimed, get_event-process_once_ne, get_event-process_once_quiet, length-keep_open,
}
use myaqi_iot_platform.Backend.Outbox.Main.{
  Action, Ended, SnsMessage, sns_message, logging_publisher, sns_publisher, Worker, Publisher,
  Round, publish, run_round, main_loop, log_health,
}

-- Every row that is neither published nor dead can be claimed from this time on.
abbrev pub IsDue : ℕ → ℕ → OutboxEvent → Type 0
IsDue timeout since e = is_open e ≡ true → is_claimable timeout since e ≡ true

is_claimable_stays :
    (timeout since now : ℕ) (e : OutboxEvent)
    → since ≤ now
    → is_claimable timeout since e ≡ true
    → is_claimable timeout now e ≡ true
unfolding is_claimable
is_claimable_stays timeout since now e h c = elim (Option-cases e.locked_at) [
  | inl p ↦ ground (arith, p)
  | inr (t, p) ↦ ground (arith, p)
]

is_claimable-is_open :
    (timeout now : ℕ) (e : OutboxEvent) → is_claimable timeout now e ≡ true → is_open e ≡ true
unfolding is_claimable
is_claimable-is_open timeout now e h = ground arith

is_claimable_later :
    (timeout since now : ℕ) (e : OutboxEvent)
    → since ≤ now
    → IsDue timeout since e
    → is_open e ≡ is_claimable timeout now e
is_claimable_later timeout since now e h due = elim (Bool-cases (is_open e)) [
  | inl p ↦ p ∙ sym (is_claimable_stays timeout since now e h (due p))
  | inr p ↦ elim (Bool-cases (is_claimable timeout now e)) [
    | inl q ↦ let r = is_claimable-is_open timeout now e q in absurd (cc)
    | inr q ↦ p ∙ sym q
  ]
]

-- A round in which nothing goes wrong: no signal, no row that another transaction holds, a clock
-- that has reached `since`, and a client of SNS that raises nothing
pub record IsQuiet (since : ℕ) (r : Round) : Type 0 where
  pub goes_on : r.stop_requested ≡ false
  pub free : (j : ℕ) → r.locked j ≡ false
  pub reached : since ≤ r.now
  pub client : (m : SnsMessage) → r.client m ≡ none
  pub works : r.database_error ≡ none

-- The row is as it was, or it is published.
abbrev pub Advanced : List OutboxEvent → List OutboxEvent → ℕ → Type 0
Advanced before after j =
    (get_event j after ≡ get_event j before)
    ⊎ ((e : OutboxEvent) × (get_event j after ≡ some e) × (e.status ≡ published))

Advanced-trans :
    (a b c : List OutboxEvent) (j : ℕ) → Advanced a b j → Advanced b c j → Advanced a c j
Advanced-trans a b c j (inl p) (inl q) = inl (q ∙ p)
Advanced-trans a b c j (inr (e, p, d)) (inl q) = inr (e, q ∙ p, d)
Advanced-trans a b c j h (inr q) = inr q

IsDue-Advanced :
    (timeout since : ℕ) (before after : List OutboxEvent)
    → Distinct (event_ids after)
    → All (IsDue timeout since) before
    → ((j : ℕ) → Advanced before after j)
    → All (IsDue timeout since) after
IsDue-Advanced timeout since before after unique due advanced =
    get_event-All (IsDue timeout since) after unique (λ j e found. step j e found (advanced j))
  where
    step :
        (j : ℕ) (e : OutboxEvent)
        → get_event j after ≡ some e
        → Advanced before after j
        → IsDue timeout since e
    step j e found (inl p) = All-get_event (IsDue timeout since) before due j e (sym p ∙ found)
    step j e found (inr (d, p, done)) =
        let same : d ≡ e = cc in
        λ is_there. absurd (ground (arith, ap (λ (x : OutboxEvent). x.status) same))

else_of : {A : Type 0} (b : Bool) (x y : A) → b ≡ false → (if b then x else y) ≡ y
else_of b x y h = rw h refl

either_way : {A : Type 0} (P : A → Type 0) (b : Bool) (x y : A) → P x → P y → P (if b then x else y)
either_way P true x y p q = p
either_way P false x y p q = q

none_of :
    {A B : Type 0} (o : Option B) (f : B → A) (x : A)
    → o ≡ none
    → elim o [ some b ↦ f b | none ↦ x ] ≡ x
none_of o f x h = rw h refl

fewer_rows : (a b c k n : ℕ) → a ≤ b - n * k → b ≤ c - k → a ≤ c - suc n * k
fewer_rows a b c k n h g = omega (arith, suc-mul n k)

module _ (uuid : ℕ → Text) (w : Worker) (publisher : Publisher) where
  publish_quiet :
      (since : ℕ) (r : Round)
      → IsQuiet since r
      → (c : ClaimedEvent) → publish uuid r.client publisher c ≡ none
  unfolding publish
  publish_quiet since r h c = quiet_by publisher
    where
      quiet_by : (p : Publisher) → publish uuid r.client p c ≡ none
      quiet_by logging_publisher = refl
      quiet_by (sns_publisher topic) = h.client (sns_message uuid topic c)

  -- A round takes no row that it does not give back.
  round_releases :
      (r : Round) (table : List OutboxEvent)
      → ((j : ℕ) (e : OutboxEvent) → get_event j table ≡ some e → ¬ IsOwned w.worker_id e)
      → (j : ℕ) (e : OutboxEvent) → get_event j (run_round uuid w publisher r table).1 ≡ some e
      → ¬ IsOwned w.worker_id e
  round_releases r table free j e found owned =
      let events =
        (claim_events w.worker_id w.batch_size w.lock_timeout_seconds r.now r.locked table).0 in
      let after = (run_round uuid w publisher r table).1 in
      elim (Bool-cases (contains j (claimed_ids events))) [
        | inl mem ↦
            let (d, p, settled) =
              All-claimed
                (λ i.
                  (d : OutboxEvent) × (get_event i after ≡ some d)
                  × (is_processing d.status ≡ false))
                events j
                (process_once_frees (publish uuid r.client publisher) w.worker_id w.batch_size
                  w.lock_timeout_seconds w.max_attempts r.clock r.now r.locked table)
                mem in
            let same : d ≡ e = cc in
            let state : is_processing e.status ≡ false =
              subst (λ x. is_processing x.status ≡ false) same settled in
            ground (arith, owned.in_progress)
        | inr other ↦
            free j e
              (sym (
                  get_event-process_once_ne (publish uuid r.client publisher) w.worker_id
                    w.batch_size w.lock_timeout_seconds w.max_attempts r.clock r.now r.locked table
                    j other)
                ∙ found)
              owned
      ]

  main_loop_goes_on :
      (r : Round) (rs : List Round) (next : ℕ) (table : List OutboxEvent)
      → r.stop_requested ≡ false
      → r.database_error ≡ none
      → let after = (run_round uuid w publisher r table).1 in
        (main_loop uuid w publisher false (r ∷ rs) next table).2
        ≡ (main_loop uuid w publisher false rs (log_health w r after next).1 after).2
  unfolding main_loop
  main_loop_goes_on r rs next table h works =
      ap (λ (t : Ended × List Action × List OutboxEvent). t.2)
        (else_of r.stop_requested _ _ h ∙ none_of r.database_error _ _ works)

  main_loop_empties :
      (since next_health_log : ℕ) (rs : List Round) (table : List OutboxEvent)
      → All (IsQuiet since) rs
      → Distinct (event_ids table)
      → All (IsDue w.lock_timeout_seconds since) table
      → let (ended, actions, last) = main_loop uuid w publisher false rs next_health_log table in
        (length (keep is_open last) ≤ length (keep is_open table) - length rs * w.batch_size)
        × ((j : ℕ) → Advanced table last j)
  unfolding main_loop
  main_loop_empties since next [] table quiet unique due = (omega arith, λ j. inl refl)
  main_loop_empties since next (r ∷ rs) table quiet unique due =
      let q = quiet.0 in
      let (count, after) = run_round uuid w publisher r table in
      let silent = publish_quiet since r q in
      let advanced =
        get_event-process_once_quiet (publish uuid r.client publisher) w.worker_id w.batch_size
          w.lock_timeout_seconds w.max_attempts r.clock r.now r.locked table silent in
      let ids =
        event_ids-process_once (publish uuid r.client publisher) w.worker_id w.batch_size
          w.lock_timeout_seconds w.max_attempts r.clock r.now r.locked table in
      let unique' = subst Distinct (sym ids) unique in
      let fewer =
        length-keep_open (publish uuid r.client publisher) w.worker_id w.batch_size
          w.lock_timeout_seconds w.max_attempts r.clock r.now r.locked table q.free
          (All-imp _ _ table
            (λ e d. is_claimable_later w.lock_timeout_seconds since r.now e q.reached d) due)
          unique silent in
      let due' = IsDue-Advanced w.lock_timeout_seconds since table after unique' due advanced in
      let (rest, later) =
        main_loop_empties since (log_health w r after next).1 rs after quiet.1 unique' due' in
      rw (main_loop_goes_on r rs next table q.goes_on q.works) (
        fewer_rows _ _ _ w.batch_size (length rs) rest fewer,
        λ j. Advanced-trans table after _ j (advanced j) (later j),
      )

  -- A worker whose rounds meet no signal, no foreign lock and no error publishes everything: when ids
  -- are distinct, the rounds have places for all rows that are neither published nor dead, and each
  -- of these rows can be claimed from the first round on, then each of them ends as published.
  pub main_loop-publishes :
      (since next_health_log : ℕ) (rs : List Round) (table : List OutboxEvent) (j : ℕ)
      (e : OutboxEvent)
      → All (IsQuiet since) rs
      → Distinct (event_ids table)
      → All (IsDue w.lock_timeout_seconds since) table
      → length (keep is_open table) ≤ length rs * w.batch_size
      → get_event j table ≡ some e
      → is_open e ≡ true
      → let (ended, actions, last) = main_loop uuid w publisher false rs next_health_log table in
        (d : OutboxEvent) × (get_event j last ≡ some d) × (d.status ≡ published)
  main_loop-publishes since next rs table j e quiet unique due enough found is_there =
      let (few, advanced) = main_loop_empties since next rs table quiet unique due in
      let last = (main_loop uuid w publisher false rs next table).2 in
      let settled = length-keep_zero is_open last (omega arith) in
      elim (advanced j) [
        | inl p ↦
            let closed = All-get_event (λ d. is_open d ≡ false) last settled j e (p ∙ found) in
            absurd (cc)
        | inr done ↦ done
      ]

  -- No row is added or lost, and a row that the worker holds after its rounds it held before.
  main_loop_releases :
      (once : Bool) (next_health_log : ℕ) (rs : List Round) (table : List OutboxEvent)
      → All (λ (r : Round). r.database_error ≡ none) rs
      → ((j : ℕ) (e : OutboxEvent) → get_event j table ≡ some e → ¬ IsOwned w.worker_id e)
      → let (ended, actions, last) = main_loop uuid w publisher once rs next_health_log table in
        (event_ids last ≡ event_ids table)
        × ((j : ℕ) (e : OutboxEvent) → get_event j last ≡ some e → ¬ IsOwned w.worker_id e)
  unfolding main_loop
  main_loop_releases once next [] table works free = (refl, free)
  main_loop_releases once next (r ∷ rs) table works free =
      let after = (run_round uuid w publisher r table).1 in
      let freed = round_releases r table free in
      let same =
        event_ids-process_once (publish uuid r.client publisher) w.worker_id w.batch_size
          w.lock_timeout_seconds w.max_attempts r.clock r.now r.locked table in
      let (ids, rest) =
        main_loop_releases once (log_health w r after next).1 rs after works.1 freed in
      let Releases : Ended × List Action × List OutboxEvent → Type 0 = λ t.
        (event_ids t.2 ≡ event_ids table)
        × ((j : ℕ) (e : OutboxEvent) → get_event j t.2 ≡ some e → ¬ IsOwned w.worker_id e) in
      either_way Releases r.stop_requested _ _ (refl, free)
        (rw works.0 (either_way Releases once _ _ (same, freed) (ids ∙ same, rest)))

  -- Whatever the publisher raises, and whether the loop ends by a signal, by `--once` or not at all,
  -- as long as no call of the database raises, the worker holds no row of a table of distinct ids
  -- after its rounds if it held none before them.
  pub main_loop-releases :
      (once : Bool) (next_health_log : ℕ) (rs : List Round) (table : List OutboxEvent)
      → All (λ (r : Round). r.database_error ≡ none) rs
      → Distinct (event_ids table)
      → All (λ e. is_owner w.worker_id e ≡ false) table
      → let (ended, actions, last) = main_loop uuid w publisher once rs next_health_log table in
        All (λ e. is_owner w.worker_id e ≡ false) last
  main_loop-releases once next rs table works unique free =
      let (ids, released) = main_loop_releases once next rs table works (λ j e found owned.
        let none_held = All-get_event (λ d. is_owner w.worker_id d ≡ false) table free j e found in
        let held = IsOwned-is_owner w.worker_id e owned in absurd (cc)) in
      let last = (main_loop uuid w publisher once rs next table).2 in
      get_event-All (λ d. is_owner w.worker_id d ≡ false) last (subst Distinct (sym ids) unique)
        (λ j e found. not_held e (released j e found))
    where
      not_held : (e : OutboxEvent) → ¬ IsOwned w.worker_id e → is_owner w.worker_id e ≡ false
      not_held e free = elim (Bool-cases (is_owner w.worker_id e)) [
        | inl p ↦ absurd (free (is_owner-IsOwned w.worker_id e p))
        | inr p ↦ p
      ]
