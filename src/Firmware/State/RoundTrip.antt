-- ===== src/Firmware/State/RoundTrip.antt =====
-- What `save` writes, `_read` reads back.
use myaqi_iot_platform.Prelude.{
  ℕ, ◌<◌, ◌≡◌, refl, true, ◌&&◌, Option, none, some, List, [], ◌∷◌, arith, ltb, leb,
}
use myaqi_iot_platform.Python.Json.{get, find}
use myaqi_iot_platform.Firmware.State.{
  Number, whole, real, Reading, State, is_concentration, reading_json, readings_json, state_json,
  optional_json, read_reading, read_readings, read_pending, read_state, optional, number,
  number_json,
}
use myaqi_iot_platform.Firmware.State.Valid.{Ascends, StatusInRange, AcknowledgedBelow, IsState}

number-number_json : (x : Number) → number (number_json x) ≡ some x
number-number_json (whole k) = refl
number-number_json (real x) = refl

read_reading-json :
    (last next : ℕ) (r : Reading)
    → last < r.sequence
    → r.sequence < next
    → is_concentration r.pm25_ug_m3 ≡ true
    → read_reading last next (reading_json r) ≡ some r
unfolding read_reading get
read_reading-json last next r above below fits =
    let p : ltb last r.sequence ≡ true = (ground arith) in
    let q : ltb r.sequence next ≡ true = (ground arith) in
    rw (p, q, number-number_json r.pm25_ug_m3, fits)

read_readings-json :
    (last next : ℕ) (rs : List Reading)
    → Ascends last next rs
    → read_readings last next (readings_json rs) ≡ some rs
unfolding read_readings
read_readings-json last next [] h = refl
read_readings-json last next (r ∷ rs) h =
    rw (read_reading-json last next r h.0 h.1 h.2) (rw (read_readings-json r.sequence next rs h.3))

optional-status :
    (o : Option ℕ)
    → StatusInRange o
    → optional (λ s. leb 100 s && leb s 599) (some (optional_json o)) ≡ some o
optional-status none h = refl
optional-status (some s) h = ground arith

optional-acknowledged :
    (next : ℕ) (o : Option ℕ)
    → AcknowledgedBelow next o
    → optional (λ n. leb 1 n && ltb n next) (some (optional_json o)) ≡ some o
optional-acknowledged next none h = refl
optional-acknowledged next (some n) h = ground arith

-- A state with ascending sequences below the next one, values within their limits, and a status
-- and an acknowledged sequence in range, is read back as it was written.
pub read_state-state_json : (s : State) → IsState s → read_state (state_json s) ≡ some s
unfolding read_state state_json get find read_pending
read_state-state_json s h =
    let p : leb 1 s.next_sequence ≡ true = (let one = h.starts in ground arith) in
    rw (
      p,
      read_readings-json 0 s.next_sequence s.pending h.ascends,
      optional-status s.last_http_status h.status,
      optional-acknowledged s.next_sequence s.last_acknowledged_sequence h.acknowledged,
    )
