-- ===== src/Backend/Outbox/Rows.antt =====
-- Counting the rows of the outbox table, by a scan of the table and by their ids.
use myaqi_iot_platform.Prelude.{
  ℕ, suc, ◌+◌, ◌-◌, ◌≤◌, ◌≡◌, refl, ap, ◌∙◌, inl, inr, Bool, true, false, ◌&&◌, not, Option, none,
  some, List, [], ◌∷◌, ◌++◌, arith, ◌==◌, Bool-cases, length, length-drop, take, drop,
  take-append-drop, keep, contains, Distinct, All, All-imp, All-contains,
}
use mathlib.Core.Path.{subst}
use myaqi_iot_platform.Backend.Models.{OutboxEvent}
use myaqi_iot_platform.Backend.Outbox.{get_event, event_ids, insert_ordered, order_events}

-- Does the look-up find such a row?
abbrev pub at : (OutboxEvent → Bool) → Option OutboxEvent → Bool
at q none = false
at q (some e) = q e

module _ {A : Type 0} where
  pub keep-All : (p : A → Bool) (xs : List A) → All (λ x. p x ≡ true) xs → keep p xs ≡ xs
  keep-All p [] h = refl
  keep-All p (x ∷ xs) h = rw (h.0, keep-All p xs h.1) refl

  keep_none : (p : A → Bool) (xs : List A) → All (λ x. p x ≡ false) xs → keep p xs ≡ []
  keep_none p [] h = refl
  keep_none p (x ∷ xs) h = rw (h.0) (keep_none p xs h.1)

  pub keep_cong : (p q : A → Bool) (xs : List A) → All (λ x. p x ≡ q x) xs → keep p xs ≡ keep q xs
  keep_cong p q [] h = refl
  keep_cong p q (x ∷ xs) h = rw (h.0, keep_cong p q xs h.1) refl

  length-keep_bounds : (p : A → Bool) (xs : List A) → length (keep p xs) ≤ length xs
  length-keep_bounds p [] = omega arith
  length-keep_bounds p (x ∷ xs) = ground (arith, length-keep_bounds p xs)

  pub length-keep_imp :
      (p q : A → Bool) (xs : List A)
      → All (λ x. p x ≡ true → q x ≡ true) xs
      → length (keep p xs) ≤ length (keep q xs)
  length-keep_imp p q [] h = omega arith
  length-keep_imp p q (x ∷ xs) h = ground (arith, h.0, length-keep_imp p q xs h.1)

  length-keep_append :
      (p : A → Bool) (xs ys : List A)
      → length (keep p (xs ++ ys)) ≡ length (keep p xs) + length (keep p ys)
  length-keep_append p [] ys = omega arith
  length-keep_append p (x ∷ xs) ys = ground (arith, length-keep_append p xs ys)

  pub length-keep-keep :
      (p q : A → Bool) (xs : List A)
      → length (keep (λ x. p x && q x) xs) ≡ length (keep q (keep p xs))
  length-keep-keep p q [] = refl
  length-keep-keep p q (x ∷ xs) = ground (arith, length-keep-keep p q xs)

-- The rows found by the ids of a table are its rows.
module _ (table : List OutboxEvent) where
  get_event-cons_ne :
      (e : OutboxEvent) (js : List ℕ)
      → contains e.id js ≡ false
      → All (λ j. get_event j (e ∷ table) ≡ get_event j table) js
  unfolding get_event
  get_event-cons_ne e [] h = tt
  get_event-cons_ne e (j ∷ js) h = (ground arith, get_event-cons_ne e js (ground arith))

pub length-keep-at :
    (q : OutboxEvent → Bool) (table : List OutboxEvent)
    → Distinct (event_ids table)
    → length (keep q table) ≡ length (keep (λ j. at q (get_event j table)) (event_ids table))
length-keep-at q [] h = refl
length-keep-at q (e ∷ es) h =
    let same : All (λ j. at q (get_event j (e ∷ es)) ≡ at q (get_event j es)) (event_ids es) =
      All-imp _ _ (event_ids es) (λ j p. ap (at q) p) (get_event-cons_ne es e (event_ids es) h.0) in
    let rest =
      keep_cong (λ j. at q (get_event j (e ∷ es))) (λ j. at q (get_event j es)) (event_ids es)
        same in
    let self : get_event e.id (e ∷ es) ≡ some e = (unfold get_event in ground arith) in
    rw (self, rest)
      (elim (Bool-cases (q e)) [
        | inl p ↦ rw p (ap suc (length-keep-at q es h.1))
        | inr p ↦ rw p (length-keep-at q es h.1)
      ])

pub get_event-contains :
    (j : ℕ) (table : List OutboxEvent) (e : OutboxEvent)
    → get_event j table ≡ some e
    → contains j (event_ids table) ≡ true
unfolding get_event
get_event-contains j [] e found = absurd (cc)
get_event-contains j (x ∷ es) e found = ground (arith, get_event-contains j es e)

module _ (P : OutboxEvent → Type 0) where
  pub All-get_event :
      (table : List OutboxEvent)
      → All P table
      → (j : ℕ) (e : OutboxEvent) → get_event j table ≡ some e
      → P e
  unfolding get_event
  All-get_event [] h j e found = absurd (cc)
  All-get_event (x ∷ es) h j e found = elim (Bool-cases (x.id == j)) [
    | inl p ↦ let same : x ≡ e = (ground arith) in subst P same h.0
    | inr p ↦ All-get_event es h.1 j e (ground arith)
  ]

  pub get_event-All :
      (table : List OutboxEvent)
      → Distinct (event_ids table)
      → ((j : ℕ) (e : OutboxEvent) → get_event j table ≡ some e → P e)
      → All P table
  unfolding get_event
  get_event-All [] unique h = tt
  get_event-All (x ∷ es) unique h =
      (h x.id x (ground arith), get_event-All es unique.1 (λ j e found. h j e (later j e found)))
    where
      later : (j : ℕ) (e : OutboxEvent) → get_event j es ≡ some e → get_event j (x ∷ es) ≡ some e
      later j e found = ground (arith, unique.0, get_event-contains j es e found)

-- The order of the rows does not matter for a count.
length-keep-insert_ordered :
    (p : OutboxEvent → Bool) (e : OutboxEvent) (es : List OutboxEvent)
    → length (keep p (insert_ordered e es)) ≡ length (keep p (e ∷ es))
unfolding insert_ordered
length-keep-insert_ordered p e [] = refl
length-keep-insert_ordered p e (d ∷ es) = ground (arith, length-keep-insert_ordered p e es)

pub length-keep-order_events :
    (p : OutboxEvent → Bool) (es : List OutboxEvent)
    → length (keep p (order_events es)) ≡ length (keep p es)
unfolding order_events
length-keep-order_events p [] = refl
length-keep-order_events p (e ∷ es) =
    length-keep-insert_ordered p e (order_events es) ∙ ground (arith, length-keep-order_events p es)

-- Of a list without its first rows, by id, no more is left than the other rows.
pub length-keep_taken :
    (n : ℕ) (es : List OutboxEvent)
    → length (keep (λ e. not (contains e.id (event_ids (take n es)))) es) ≤ length es - n
length-keep_taken n es =
    let outside : OutboxEvent → Bool = λ e. not (contains e.id (event_ids (take n es))) in
    let gone : keep outside (take n es) ≡ [] =
      keep_none outside (take n es)
        (All-imp _ _ (take n es) (λ e h. rw h) (All-contains (λ e. e.id) (take n es))) in
    let parts = length-keep_append outside (take n es) (drop n es) in
    let whole : length (keep outside (take n es ++ drop n es)) ≡ length (keep outside es) =
      ap (λ xs. length (keep outside xs)) (take-append-drop {0} n es) in
    let none_left : length (keep outside (take n es)) ≡ 0 =
      ap (λ (xs : List OutboxEvent). length xs) gone in
    omega
      (arith, parts, whole, none_left, length-keep_bounds outside (drop n es), length-drop {0} n es)

length-insert_ordered :
    (e : OutboxEvent) (es : List OutboxEvent) → length (insert_ordered e es) ≡ length es + 1
unfolding insert_ordered
length-insert_ordered e [] = omega arith
length-insert_ordered e (d ∷ es) = ground (arith, length-insert_ordered e es)

pub length-order_events : (es : List OutboxEvent) → length (order_events es) ≡ length es
unfolding order_events
length-order_events [] = refl
length-order_events (e ∷ es) =
    omega (arith, length-insert_ordered e (order_events es), length-order_events es)

pub length-keep_zero :
    (p : OutboxEvent → Bool) (es : List OutboxEvent)
    → length (keep p es) ≤ 0
    → All (λ e. p e ≡ false) es
length-keep_zero p [] h = tt
length-keep_zero p (e ∷ es) h = (ground arith, length-keep_zero p es (ground arith))
