-- ===== src/Firmware/Control/Loop.antt =====
-- The rounds of the main loop, one after the other.
use myaqi_iot_platform.Prelude.{ℕ, ◌≡◌, ◌⊎◌, sym, ap, inl, inr, Option, none, some, Bool-cases}
use mathlib.Core.Option.{some-injective}
use myaqi_iot_platform.Prelude.Int.{ℤ}
use myaqi_iot_platform.Python.Text.{Text}
use myaqi_iot_platform.Firmware.State.Valid.{StatusInRange}
use myaqi_iot_platform.Firmware.State.Accepted.{>>=-eq-some}
use myaqi_iot_platform.Firmware.Client.{status_of}
use myaqi_iot_platform.Firmware.Control.{
  Button, Polled, no_update, update, poll, is_access_point, after_update, after_button, Tick,
  Program, update_aqi_info, main_loop, is_normal, is_due,
}
use myaqi_iot_platform.Firmware.Control.Updates.{IsReady, update_aqi_info-IsReady}

-- The programs that rounds of the main loop lead to, with statuses within 100 to 599
pub data Reaches (parse_int : Text → Option ℤ) (interval : ℤ) : Program → Program → Type 0 where
  stop : {p : Program} → Reaches parse_int interval p p
  next :
      {p q r : Program} (tick : Tick)
      → ((k : ℕ) → StatusInRange (status_of (tick.round.world k).1))
      → main_loop parse_int interval tick p ≡ some q
      → Reaches parse_int interval q r
      → Reaches parse_int interval p r

-- What is served changes no client.
poll-client :
    (served : Polled) (p q : Program)
    → poll served p ≡ some q
    → q.board.ingestion_client ≡ p.board.ingestion_client
unfolding poll
poll-client no_update p q h = sym (ap (λ x. x.board.ingestion_client) (some-injective _ _ h))
poll-client (update ssid password restarts) p q h =
    elim (Bool-cases (is_access_point p.board.mode)) [
      | inr other ↦ sym (ap (λ x. x.board.ingestion_client) (some-injective _ _ (rw other at h)))
      | inl mode ↦ elim (Bool-cases restarts) [
        | inl restart ↦ let impossible : none ≡ some q = (rw (mode, restart) at h) in absurd (cc)
        | inr going ↦
            let same : some (after_update ssid password p) ≡ some q = (rw (mode, going) at h) in
            sym (ap (λ x. x.board.ingestion_client) (some-injective _ _ same))
      ]
    ]

-- The board after the button: as it was, or after an update
after_button-board :
    (parse_int : Text → Option ℤ) (interval : ℤ) (tick : Tick) (p q : Program)
    (pressed : Option Button)
    → after_button parse_int interval tick p pressed ≡ some q
    → (q.board ≡ p.board) ⊎ (q.board ≡ update_aqi_info parse_int tick.round p.board)
after_button-board parse_int interval tick p q none h = absurd (cc)
after_button-board parse_int interval tick p q (some b) h =
    elim (Bool-cases (is_normal p.board.mode)) [
      | inr other ↦
          let same : some (record p { button = b }) ≡ some q = (rw other at h) in
          inl (sym (ap (λ x. x.board) (some-injective _ _ same)))
      | inl mode ↦ elim (Bool-cases (is_due interval tick.check_time p.last_aqi_update)) [
        | inr early ↦
            let same : some (record p { button = b }) ≡ some q = (rw (mode, early) at h) in
            inl (sym (ap (λ x. x.board) (some-injective _ _ same)))
        | inl due ↦
            let same = some-injective _ _ (rw (mode, due) at h) in
            inr (sym (ap (λ x. x.board) same))
      ]
    ]

round-IsReady :
    (parse_int : Text → Option ℤ) (interval : ℤ) (tick : Tick) (p q : Program)
    → ((k : ℕ) → StatusInRange (status_of (tick.round.world k).1))
    → main_loop parse_int interval tick p ≡ some q
    → IsReady p.board.ingestion_client
    → IsReady q.board.ingestion_client
unfolding main_loop
round-IsReady parse_int interval tick p q status h ready =
    let (served, polled, h1) = >>=-eq-some (poll tick.polled p) _ h in
    let kept : IsReady served.board.ingestion_client =
      rw (poll-client tick.polled p served polled) ready in
    elim (after_button-board parse_int interval tick served q _ h1) [
      | inl same ↦ rw same kept
      | inr same ↦ rw same (update_aqi_info-IsReady parse_int tick.round served.board status kept)
    ]

-- However many rounds the main loop makes, with statuses within 100 to 599, a client that had them
-- keeps a state that `_read` accepts and limits that
-- leave room for a reading.
pub Reaches-IsReady :
    {parse_int : Text → Option ℤ} {interval : ℤ} {p q : Program}
    → Reaches parse_int interval p q
    → IsReady p.board.ingestion_client
    → IsReady q.board.ingestion_client
Reaches-IsReady stop h = h
Reaches-IsReady {parse_int} {interval} {p} (next {q = q} tick status done rest) h =
    Reaches-IsReady rest (round-IsReady parse_int interval tick p q status done h)
