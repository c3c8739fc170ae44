-- ===== src/Firmware/State/Valid.antt =====
-- The states that `_read` accepts.
use myaqi_iot_platform.Prelude.{ℕ, ◌≤◌, ◌<◌, ◌≡◌, true, Option, none, some, List, [], ◌∷◌}
use myaqi_iot_platform.Firmware.State.{Reading, State, is_concentration}

-- The sequences ascend above `last` and below `next`, and each value is within its limits.
abbrev pub Ascends : ℕ → ℕ → List Reading → Type 0
Ascends last next [] = Unit
Ascends last next (r ∷ rs) =
    (last < r.sequence)
    × (r.sequence < next)
    × (is_concentration r.pm25_ug_m3 ≡ true)
    × Ascends r.sequence next rs

abbrev pub StatusInRange : Option ℕ → Type 0
StatusInRange none = Unit
StatusInRange (some s) = (100 ≤ s) × (s ≤ 599)

abbrev pub AcknowledgedBelow : ℕ → Option ℕ → Type 0
AcknowledgedBelow next none = Unit
AcknowledgedBelow next (some n) = (1 ≤ n) × (n < next)

pub record IsState (s : State) : Type 0 where
  pub starts : 1 ≤ s.next_sequence
  pub ascends : Ascends 0 s.next_sequence s.pending
  pub status : StatusInRange s.last_http_status
  pub acknowledged : AcknowledgedBelow s.next_sequence s.last_acknowledged_sequence
