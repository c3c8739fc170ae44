-- ===== src/Firmware/State/Tests.antt =====
-- A queue of two readings.
use myaqi_iot_platform.Prelude.{◌≡◌, refl, some, [], ◌∷◌, arith}
use myaqi_iot_platform.Prelude.Int.{pos}
use myaqi_iot_platform.Python.Text.{codes}
use myaqi_iot_platform.Firmware.State.{
  Reading, State, whole, is_concentration, state_json, read_state,
}
use myaqi_iot_platform.Firmware.State.Valid.{IsState}
use myaqi_iot_platform.Firmware.State.Accepted.{read_state-IsState}
use myaqi_iot_platform.Firmware.State.RoundTrip.{read_state-state_json}

abbrev pub sample_reading : Reading
sample_reading = record {
  sequence = 3;
  observed_at = codes "2026-08-23T14:30:00Z";
  pm25_ug_m3 = whole (pos 12);
}

abbrev pub sample_state : State
sample_state = record {
  next_sequence = 6;
  pending = sample_reading ∷ record sample_reading { sequence = 5 } ∷ [];
  dropped_readings = 1;
  upload_attempts = 4;
  upload_failures = 2;
  last_http_status = some 503;
  last_acknowledged_sequence = some 2;
}

pub sample_state-IsState : IsState sample_state
unfolding is_concentration
sample_state-IsState = record {
  starts = omega arith;
  ascends = (omega arith, omega arith, refl, (omega arith, omega arith, refl, tt));
  status = (omega arith, omega arith);
  acknowledged = (omega arith, omega arith);
}

read_state-state_json_example : read_state (state_json sample_state) ≡ some sample_state
read_state-state_json_example = read_state-state_json sample_state sample_state-IsState

read_state-IsState_example : IsState sample_state
read_state-IsState_example =
    read_state-IsState (state_json sample_state) sample_state
      (read_state-state_json sample_state sample_state-IsState)
