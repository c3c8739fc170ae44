-- ===== src/Firmware/Control.antt =====
-- AdafruitCode/code.py, the program of the device: its start, its main loop, the reading that it
-- takes, and the reset button. CONFIG_DATA is the decoded config.json. What the radio, the clock
-- server, the sensor, the file system and the server answer is an argument.
pub mod Updates
pub mod Loop
pub mod Startup
mod Tests
use myaqi_iot_platform.Prelude.{
  ℕ, ◌+◌, String, str_eq, Bool, true, false, ◌||◌, not, Option, none, some, [], ◌∷◌, ltb,
  if◌then◌else◌,
}
use myaqi_iot_platform.Prelude.Int.{ℤ, pos, negsuc, ◌+ℤ◌, leb_ℤ}
use myaqi_iot_platform.Prelude.Result.{Result, ok, err}
use myaqi_iot_platform.Python.Text.{Text, Bytes, codes}
use myaqi_iot_platform.Python.Float.{Float, fin, scaled}
use myaqi_iot_platform.Python.Json.{Json, bool, int, float, str, Fields, end, field, find}
use myaqi_iot_platform.Firmware.State.{Reading, ◌>>=◌}
use myaqi_iot_platform.Firmware.Store.{Files, FaultPlan}
use myaqi_iot_platform.Firmware.Client.{
  Client, Invalid, new_client, Answer, EnqueueError, value_error, os_error, enqueue, FlushError,
  upload_error, Flushed, flush, eq_ℤ,
}

-- `current_state`, by the names of STATES
pub data Mode : Type 0 where
  normal access_point error resetting : Mode

pub record Board : Type 0 where
  pub config : Fields
  pub mode : Mode
  pub clock_synchronized : Bool
  pub ingestion_client : Option Client

-- `value == ""`
abbrev is_empty_str : Json → Bool
is_empty_str (str []) = true
is_empty_str _ = false

-- `value == -1`
abbrev is_minus_one : Json → Bool
is_minus_one (int k) = eq_ℤ k (negsuc 0)
is_minus_one (float (fin m)) = eq_ℤ m (scaled (negsuc 0))
is_minus_one _ = false

abbrev both_filled : Option Json → Option Json → Bool
both_filled (some a) (some b) = not (is_empty_str a || is_empty_str b)
both_filled _ _ = false

-- `checkForWifiCredentials`
unfoldable pub check_for_wifi_credentials : Fields → Bool
check_for_wifi_credentials config = both_filled (find "ssid" config) (find "password" config)

abbrev code_error : Option Json → Option Bool
code_error none = none
code_error (some code) = some (not (is_minus_one code))

abbrev message_error : Option Json → Option Json → Option Bool
message_error none code = none
message_error (some message) code = if is_empty_str message then code_error code else some true

-- `checkForErrors`; `none` is a KeyError.
unfoldable pub check_for_errors : Fields → Option Bool
check_for_errors config = message_error (find "errorMessage" config) (find "errorCode" config)

-- `CONFIG_DATA[key] = value`
unfoldable pub put : String → Json → Fields → Fields
put key value end = field key value end
put key value (field k v rest) =
    let after = put key value rest in if str_eq k key then field k value rest else field k v after

-- `addError` and `removeError`, before the file is written
unfoldable pub add_error : Text → ℤ → Fields → Fields
unfolding put
add_error message code config = put "errorCode" (int code) (put "errorMessage" (str message) config)

unfoldable pub remove_error : Fields → Fields
unfolding put
remove_error config = put "errorCode" (int (negsuc 0)) (put "errorMessage" (str []) config)

-- A required text of `setupIngestionClient`
abbrev filled_text : Option Json → Option Text
filled_text (some (str (c ∷ cs))) = some (c ∷ cs)
filled_text _ = none

-- A limit that is a float is one that `__init__` takes, and the client then compares and slices with
-- it. The model does not follow such a client.
abbrev is_float : Option Json → Bool
is_float (some (float x)) = true
is_float _ = false

abbrev pub has_float_limit : Fields → Bool
has_float_limit config =
    is_float (find "upload_batch_size" config) || is_float (find "max_buffered_readings" config)

-- `CONFIG_DATA.get(key, default)` for a queue limit that is no float; `none` is what the comparisons
-- of `__init__` refuse, with a ValueError or a TypeError.
abbrev queue_limit : ℕ → Option Json → Option ℕ
queue_limit default none = some default
queue_limit default (some (int (pos n))) = some n
queue_limit default (some (bool b)) = some (if b then 1 else 0)
queue_limit default (some _) = none

abbrev made_client : Result Invalid Client → Option Client
made_client (ok c) = some c
made_client (err e) = none

-- The client that `setupIngestionClient` makes; `none` is an exception.
unfoldable pub make_client : (Bytes → Option Bytes) → Fields → Files → Option Client
make_client a2b_base64 config files = do
  url ← filled_text (find "api_base_url" config)
  device ← filled_text (find "serial_number" config)
  secret ← filled_text (find "device_secret" config)
  batch_size ← queue_limit 20 (find "upload_batch_size" config)
  max_pending ← queue_limit 120 (find "max_buffered_readings" config)
  made_client (
      new_client a2b_base64 url device secret files batch_size max_pending
        (codes "2026.08.24+ops1"))

-- What the program meets at its start
pub record Start : Type 0 where
  pub wifi_connects : Bool
  pub access_point_starts : Bool
  pub sync_works : Bool
  pub files : Files
  pub world : ℕ → FaultPlan × Answer

-- How the start ends: with the main loop, with `microcontroller.reset()` and the configuration that
-- is then to be in the file, or with an exception; or it makes a client with a float for a limit,
-- unless the configuration is refused for another value, and is not followed further.
pub data Boot : Type 0 where
  running : Board → Boot
  restarted : Fields → Boot
  stopped : Boot
  float_limit : Boot

-- `startAP`
abbrev pub start_ap : Start → Fields → Boot
start_ap start config =
    if start.access_point_starts
    then running (record {
      config = config;
      mode = access_point;
      clock_synchronized = false;
      ingestion_client = none;
    })
    else restarted config

-- `setupIngestionClient`, and what the start makes of its exception
unfoldable pub setup_ingestion_client :
    (Bytes → Option Bytes) → (Text → Option ℤ) → Start → Fields → Board
unfolding make_client
setup_ingestion_client a2b_base64 parse_int start config =
    elim (make_client a2b_base64 config start.files) [
      | none ↦ record {
        config = config;
        mode = error;
        clock_synchronized = start.sync_works;
        ingestion_client = none;
      }
      | some c ↦ record {
        config = config;
        mode = normal;
        clock_synchronized = start.sync_works;
        ingestion_client =
            some (if start.sync_works then (flush parse_int 3 start.world c).1 else c);
      }
    ]

-- `connectToWifi`, `syncClock` and `setupIngestionClient`
abbrev pub connect : (Bytes → Option Bytes) → (Text → Option ℤ) → Start → Fields → Boot
connect a2b_base64 parse_int start config =
    if start.wifi_connects
    then if has_float_limit config
      then float_limit
      else running (setup_ingestion_client a2b_base64 parse_int start config)
    else restarted
        (add_error (codes "Unable to connect to home Wifi. Check ssid and password") (pos 1) config)

-- The program down to its main loop
unfoldable pub start_up : (Bytes → Option Bytes) → (Text → Option ℤ) → Start → Fields → Boot
unfolding setup_ingestion_client add_error check_for_wifi_credentials check_for_errors
start_up a2b_base64 parse_int start config =
    if check_for_wifi_credentials config
    then elim (check_for_errors config) [
      | none ↦ stopped
      | some true ↦ start_ap start config
      | some false ↦ connect a2b_base64 parse_int start config
    ]
    else start_ap start config

-- What one update meets. `sensor` is float(aqdata["pm25 env"]), none for a RuntimeError.
pub record Round : Type 0 where
  pub sync_works : Bool
  pub sensor : Option Float
  pub observed_at : Text
  pub faults : FaultPlan
  pub world : ℕ → FaultPlan × Answer
  pub resync_works : Bool

abbrev pub is_unauthorized : Result FlushError Flushed → Bool
is_unauthorized (err (upload_error (some status))) = eq_ℤ (pos status) (pos 401)
is_unauthorized _ = false

-- After a 401 the clock is out of step, unless it can be synchronized again at once.
abbrev pub after_flush : Round → Board → Result FlushError Flushed × Client → Board
after_flush round b (result, c) = record b {
  ingestion_client = some c;
  clock_synchronized = if is_unauthorized result then round.resync_works else b.clock_synchronized;
}

abbrev pub after_enqueue :
    (Text → Option ℤ) → Round → Board → Result EnqueueError Reading × Client → Board
after_enqueue parse_int round b (err value_error, c) = record b { ingestion_client = some c }
after_enqueue parse_int round b (err os_error, c) = record b {
  ingestion_client = some c;
  mode = error;
}
after_enqueue parse_int round b (ok reading, c) =
    after_flush round b (flush parse_int 3 round.world c)

abbrev pub take_reading : (Text → Option ℤ) → Round → Option Float → Option Client → Board → Board
take_reading parse_int round (some x) (some c) b =
    after_enqueue parse_int round b (enqueue round.faults x round.observed_at c)
take_reading parse_int round _ _ b = b

-- `updateAQIInfo`
unfoldable pub update_aqi_info : (Text → Option ℤ) → Round → Board → Board
update_aqi_info parse_int round b =
    if b.clock_synchronized || round.sync_works
    then take_reading parse_int round round.sensor b.ingestion_client
        (record b { clock_synchronized = true })
    else b

pub record Button : Type 0 where
  pub pressed : Bool
  pub press_time : ℕ

-- RESET_HOLD_TIME; times are in milliseconds.
abbrev pub reset_hold_time : ℕ
reset_hold_time = 10000

-- `checkResetButton` with the level of the pin, which a pressed button pulls down. `none` is a call
-- of `reset`, which restarts the device.
unfoldable pub check_reset_button : Bool → ℕ → Button → Option Button
check_reset_button level now b =
    if not b.pressed
    then if level then some b else some (record { pressed = true; press_time = now })
    else if ltb (b.press_time + reset_hold_time) now
    then none
    else if level
    then some (record b { pressed = false })
    else some b

-- What `server.poll()` serves: nothing that matters, or a POST of `updateCredentials` with a name and
-- a password. Its last step restarts the device; an exception before that, which the loop swallows,
-- leaves the configuration changed.
pub data Polled : Type 0 where
  no_update : Polled
  update : Text → Text → Bool → Polled

-- What one round of the main loop meets
pub record Tick : Type 0 where
  pub polled : Polled
  pub level : Bool
  pub button_time : ℕ
  pub check_time : ℕ
  pub update_time : ℕ
  pub round : Round

pub record Program : Type 0 where
  pub board : Board
  pub button : Button
  pub last_aqi_update : ℤ

abbrev pub is_access_point : Mode → Bool
is_access_point access_point = true
is_access_point _ = false

abbrev pub after_update : Text → Text → Program → Program
after_update ssid password p = record p {
  board = record p.board {
    config = remove_error (put "password" (str password) (put "ssid" (str ssid) p.board.config));
  };
}

-- `server.poll()`, which has a server only in access point mode; `none` is a restart.
unfoldable pub poll : Polled → Program → Option Program
unfolding remove_error put
poll no_update p = some p
poll (update ssid password restarts) p =
    if is_access_point p.board.mode
    then if restarts then none else some (after_update ssid password p)
    else some p

abbrev pub is_normal : Mode → Bool
is_normal normal = true
is_normal _ = false

abbrev pub is_due : ℤ → ℕ → ℤ → Bool
is_due interval now last = not (leb_ℤ (pos now) (interval +ℤ last))

abbrev pub after_button : (Text → Option ℤ) → ℤ → Tick → Program → Option Button → Option Program
after_button parse_int interval tick p none = none
after_button parse_int interval tick p (some b) =
    if is_normal p.board.mode
    then if is_due interval tick.check_time p.last_aqi_update
      then some (record {
        board = update_aqi_info parse_int tick.round p.board;
        button = b;
        last_aqi_update = pos tick.update_time;
      })
      else some (record p { button = b })
    else some (record p { button = b })

-- One round of the main loop; `none` is a restart.
unfoldable pub main_loop : (Text → Option ℤ) → ℤ → Tick → Program → Option Program
unfolding check_reset_button update_aqi_info poll
main_loop parse_int interval tick before = do
  p ← poll tick.polled before
  after_button parse_int interval tick p (check_reset_button tick.level tick.button_time p.button)
