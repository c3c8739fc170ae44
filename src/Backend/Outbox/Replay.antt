-- ===== src/Backend/Outbox/Replay.antt =====
-- `replay_event` of admin.py: an operator hands a dead event back to the workers.
use myaqi_iot_platform.Prelude.{
  ℕ, ◌≤◌, ◌≡◌, refl, ap, inl, inr, ◌∙◌, Bool, true, false, Option, none, some, List, arith,
  Option-cases,
}
use mathlib.Core.Path.{subst}
use myaqi_iot_platform.Prelude.Result.{ok, err}
use myaqi_iot_platform.Backend.Models.{OutboxEvent, dead}
use myaqi_iot_platform.Backend.Outbox.{
  get_event, put_event, replay_row, is_dead, replay_event, ReplayError, unknown_event, not_dead,
  is_claimable, fail_row,
}
use myaqi_iot_platform.Backend.Outbox.Table.{get_event-id, get_event-put_self}

abbrev pub found_dead : Option OutboxEvent → Bool
found_dead none = false
found_dead (some e) = is_dead e.status

-- A dead event that is replayed can be claimed from then on, with the attempts that it had.
pub replay_event_dead :
    (j now timeout later : ℕ) (table : List OutboxEvent) (e : OutboxEvent)
    → get_event j table ≡ some e
    → e.status ≡ dead
    → now ≤ later
    → let (answer, after) = replay_event j now table in
      (answer ≡ ok e.attempts)
      × (get_event j after ≡ some (replay_row now e))
      × (is_claimable timeout later (replay_row now e) ≡ true)
unfolding replay_event is_claimable
replay_event_dead j now timeout later table e found gone h =
    let key : e.id ≡ j = get_event-id j table {e = e} found in
    rw (found, replay_event, gone)
      (
        refl,
        subst (λ k. get_event k (put_event (replay_row now e) table) ≡ some (replay_row now e)) key
            (get_event-put_self (replay_row now e) table {d = e}
              (ap (λ k. get_event k table) key ∙ found)),
        ground arith,
      )

-- Only a dead event is replayed: any other call raises and leaves the table as it was.
pub replay_event_refused :
    (j now : ℕ) (table : List OutboxEvent)
    → found_dead (get_event j table) ≡ false
    → (e : ReplayError) × (replay_event j now table ≡ (err e, table))
unfolding replay_event
replay_event_refused j now table h = elim (Option-cases (get_event j table)) [
  | inl p ↦ (unknown_event, rw (p, replay_event))
  | inr (e, p) ↦ (not_dead e.status, ground arith)
]

-- A replayed event that had used up its attempts is dead again after one more failure.
pub replay_one_attempt :
    (error : List ℕ) (now later max_attempts : ℕ) (e : OutboxEvent)
    → max_attempts ≤ e.attempts
    → (fail_row error max_attempts later (replay_row now e)).status ≡ dead
replay_one_attempt error now later max_attempts e h = ground arith
