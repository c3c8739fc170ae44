-- ===== src/Firmware/Control/Tests.antt =====
-- A board with a client, one update that is acknowledged, and a button that is held.
use myaqi_iot_platform.Prelude.{
  none, ◌*◌, ◌^◌, ◌≡◌, refl, true, false, Option, some, replicate, [], arith,
}
use myaqi_iot_platform.Prelude.Int.{pos, negsuc}
use myaqi_iot_platform.Python.Text.{Bytes, codes}
use myaqi_iot_platform.Python.Float.{fin}
use myaqi_iot_platform.Python.Json.{int, str, Fields, end, field, find}
use myaqi_iot_platform.Firmware.State.{default_state}
use myaqi_iot_platform.Firmware.State.Tests.{sample_state-IsState}
use myaqi_iot_platform.Firmware.Store.Tests.{no_faults, fresh_files}
use myaqi_iot_platform.Firmware.Client.Tests.{sample_client, no_int, acknowledgement}
use myaqi_iot_platform.Firmware.Control.{
  Board, Start, normal, Round, Tick, no_update, update, access_point, poll, put, remove_error,
  Program, check_for_wifi_credentials, check_for_errors, remove_error, put, update_aqi_info,
  check_reset_button, main_loop,
}
use myaqi_iot_platform.Firmware.Control.Updates.{IsReady, IsClient}
use myaqi_iot_platform.Firmware.Control.Loop.{stop, next, Reaches-IsReady}

abbrev sample_config : Fields
sample_config = field "ssid" (str (codes "home")) (
    field "password" (str (codes "secret"))
      (field "errorMessage" (str []) (field "errorCode" (int (pos 0)) end)))

has_credentials : check_for_wifi_credentials sample_config ≡ true
unfolding check_for_wifi_credentials find
has_credentials = refl

-- The code 0 of the example configuration counts as an error, until `removeError` sets it.
example_code : check_for_errors sample_config ≡ some true
unfolding check_for_errors find
example_code = refl

removed_code : check_for_errors (remove_error sample_config) ≡ some false
unfolding check_for_errors find remove_error put
removed_code = refl

abbrev sample_board : Board
sample_board = record {
  config = sample_config;
  mode = normal;
  clock_synchronized = true;
  ingestion_client = some sample_client;
}

sample_client-IsClient : IsClient sample_client
sample_client-IsClient = record {
  valid = sample_state-IsState;
  size = omega arith;
  room = omega arith;
}

abbrev round : Round
round = record {
  sync_works = false;
  sensor = some (fin (pos (12 * 2 ^ 1074)));
  observed_at = codes "2026-08-23T14:35:00Z";
  faults = no_faults;
  world = λ k. (no_faults, acknowledgement);
  resync_works = false;
}

abbrev released : Tick
released = record {
  polled = no_update;
  level = true;
  button_time = 700000;
  check_time = 700000;
  update_time = 700001;
  round = round;
}

abbrev pressed : Tick
pressed = record released { level = false }

abbrev program : Program
program = record {
  board = sample_board;
  button = record { pressed = false; press_time = 0 };
  last_aqi_update = negsuc 49999;
}

abbrev later : Program
later = record program {
  board = update_aqi_info no_int round sample_board;
  last_aqi_update = pos 700001;
}

one_round : main_loop no_int (pos 600000) released program ≡ some later
unfolding main_loop poll check_reset_button
one_round = refl

Reaches-IsReady_example : IsReady later.board.ingestion_client
Reaches-IsReady_example =
    Reaches-IsReady (next released (λ k. (omega arith, omega arith)) one_round stop)
      sample_client-IsClient

-- An update of the credentials that fails on the way, out of normal mode
abbrev serving : Program
serving = record program { board = record sample_board { mode = access_point } }

abbrev updating : Tick
updating = record released { polled = update (codes "home") (codes "secret") false }

updated_credentials :
    find "ssid" (elim (main_loop no_int (pos 600000) updating serving) [
      | none ↦ end
      | some p ↦ p.board.config
    ])
    ≡ some (str (codes "home"))
unfolding main_loop poll check_reset_button put remove_error find
updated_credentials = refl

abbrev held : Program
held = record program { button = record { pressed = true; press_time = 600000 } }

abbrev ready_config : Fields
ready_config = field "ssid" (str (codes "home")) (
    field "password" (str (codes "secret")) (
      field "errorMessage" (str []) (
        field "errorCode" (int (negsuc 0)) (
          field "api_base_url" (str (codes "https://aqi.example/")) (
            field "serial_number" (str (codes "school-1"))
              (field "device_secret" (str (codes "abc")) end))))))

abbrev secret_bytes : Bytes → Option Bytes
secret_bytes encoded = some (replicate 32 7)

abbrev start : Start
start = record {
  wifi_connects = true;
  access_point_starts = true;
  sync_works = false;
  files = fresh_files;
  world = λ k. (no_faults, acknowledgement);
}

abbrev started : Board
started = record {
  config = ready_config;
  mode = normal;
  clock_synchronized = false;
  ingestion_client = some (record {
    api_base_url = codes "https://aqi.example";
    device_id = codes "school-1";
    secret = replicate 32 7;
    batch_size = 20;
    max_pending = 120;
    firmware_version = codes "2026.08.24+ops1";
    state = default_state;
    files = fresh_files;
  });
}
