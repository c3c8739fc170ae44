-- ===== src/Firmware/Control/Startup.antt =====
-- The client with which the main loop begins.
use myaqi_iot_platform.Prelude.{◌≡◌, Option, is_some}
use myaqi_iot_platform.Prelude.Result.{Result}
use myaqi_iot_platform.Python.Text.{Text}
use myaqi_iot_platform.Firmware.State.{State}
use myaqi_iot_platform.Firmware.Client.{Client}
use myaqi_iot_platform.Firmware.Control.{
  Board, Boot, running, restarted, stopped, float_limit, is_normal,
}
use myaqi_iot_platform.Firmware.Control.Updates.{IsReady}

-- A board as the main loop finds it: with a client exactly in normal mode, and that one valid
abbrev pub Begins : Board → Type 0
Begins b = IsReady b.ingestion_client × (is_some b.ingestion_client ≡ is_normal b.mode)

board_of : Board → Boot → Board
board_of other (running b) = b
board_of other (restarted _) = other
board_of other stopped = other
board_of other float_limit = other
