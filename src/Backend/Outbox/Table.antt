-- ===== src/Backend/Outbox/Table.antt =====
-- Laws of the outbox table: what a look-up finds after a write, a claim or the ordering.
use myaqi_iot_platform.Prelude.{
  ℕ, ◌≡◌, refl, ap, ◌≢◌, inl, inr, String, Option, none, some, List, [], ◌∷◌, map, arith,
  Bool-cases, All, contains, ◌==◌,
}
use myaqi_iot_platform.Backend.Models.{OutboxEvent}
use myaqi_iot_platform.Backend.Outbox.{
  get_event, put_event, claim_row, event_ids, insert_ordered, order_events, comes_before,
}

pub get_event-id :
    (j : ℕ) (table : List OutboxEvent) {e : OutboxEvent} → get_event j table ≡ some e → e.id ≡ j
unfolding get_event
get_event-id j [] h = cc
get_event-id j (d ∷ es) {e} h = ground (arith, get_event-id j es {e = e})

pub get_event-put_self :
    (e : OutboxEvent) (table : List OutboxEvent) {d : OutboxEvent}
    → get_event e.id table ≡ some d
    → get_event e.id (put_event e table) ≡ some e
unfolding get_event put_event
get_event-put_self e [] h = cc
get_event-put_self e (x ∷ es) {d} h = elim (Bool-cases (x.id == e.id)) [
  | inl t ↦ rw t (ground arith)
  | inr t ↦ rw (t, get_event) (rw t (get_event-put_self e es {d = d} (ground arith)))
]

pub get_event-put_ne :
    (j : ℕ) (e : OutboxEvent) (table : List OutboxEvent)
    → j ≢ e.id
    → get_event j (put_event e table) ≡ get_event j table
unfolding get_event put_event
get_event-put_ne j e [] h = refl
get_event-put_ne j e (x ∷ es) h = ground (arith, get_event-put_ne j e es h)

pub event_ids-put :
    (e : OutboxEvent) (table : List OutboxEvent) → event_ids (put_event e table) ≡ event_ids table
unfolding put_event
event_ids-put e [] = refl
event_ids-put e (x ∷ es) = ground (arith, event_ids-put e es)

pub event_ids-claim :
    (worker : String) (now : ℕ) (ids : List ℕ) (table : List OutboxEvent)
    → event_ids (map (claim_row worker now ids) table) ≡ event_ids table
event_ids-claim worker now ids [] = refl
event_ids-claim worker now ids (x ∷ es) = elim (Bool-cases (contains x.id ids)) [
  | inl e ↦ rw e (ap (λ t. x.id ∷ t) (event_ids-claim worker now ids es))
  | inr e ↦ rw e (ap (λ t. x.id ∷ t) (event_ids-claim worker now ids es))
]

abbrev pub claim_found : String → ℕ → List ℕ → Option OutboxEvent → Option OutboxEvent
claim_found worker now ids none = none
claim_found worker now ids (some e) = some (claim_row worker now ids e)

pub get_event-claim :
    (worker : String) (now : ℕ) (ids : List ℕ) (j : ℕ) (table : List OutboxEvent)
    → get_event j (map (claim_row worker now ids) table)
      ≡ claim_found worker now ids (get_event j table)
unfolding get_event
get_event-claim worker now ids j [] = refl
get_event-claim worker now ids j (x ∷ es) = ground (arith, get_event-claim worker now ids j es)

module _ {ℓ} (P : OutboxEvent → Type ℓ) where
  All-insert_ordered :
      (e : OutboxEvent) (es : List OutboxEvent) → P e → All P es → All P (insert_ordered e es)
  unfolding insert_ordered
  All-insert_ordered e [] p h = (p, tt)
  All-insert_ordered e (d ∷ es) p h = elim (Bool-cases (comes_before e d)) [
    | inl t ↦ rw t (p, h)
    | inr t ↦ rw t (h.0, All-insert_ordered e es p h.1)
  ]

  pub All-order_events : (es : List OutboxEvent) → All P es → All P (order_events es)
  unfolding order_events
  All-order_events [] h = tt
  All-order_events (e ∷ es) h = All-insert_ordered e (order_events es) h.0 (All-order_events es h.1)
