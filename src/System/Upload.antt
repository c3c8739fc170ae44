-- ===== src/System/Upload.antt =====
-- A batch of the device before the endpoint of the service.
use myaqi_iot_platform.Prelude.{
  ℕ, zero, suc, ◌≤◌, ◌≡◌, refl, ap, ◌≢◌, true, false, some, List, [], ◌∷◌, arith, ltb, length, take,
  length-take, all, All, All-take, Distinct,
}
use myaqi_iot_platform.Prelude.Int.{ℤ, pos, ◌-ℤ◌, magnitude}
use myaqi_iot_platform.Prelude.Result.{ok}
use myaqi_iot_platform.Python.Text.{Text, Bytes, codes, decimal}
use myaqi_iot_platform.Python.Json.{Json, arr, obj, field, end}
use myaqi_iot_platform.Firmware.State.{Reading, readings_json}
use myaqi_iot_platform.Firmware.State.Valid.{Ascends, IsState}
use myaqi_iot_platform.Firmware.Signing.Protocol.{firmware_request_verified}
use myaqi_iot_platform.Firmware.Client.{
  Client, batch, batch_body, batch_key, upload_path, upload_request, is_empty_queue,
  is_device_id_char,
}
use myaqi_iot_platform.Backend.Models.{Device}
use myaqi_iot_platform.Backend.Auth.{derive_device_secret}
use myaqi_iot_platform.Backend.Validation.{ReadingInput, parse_batch}
use myaqi_iot_platform.Backend.Validation.Readings.{parse_batch-IsBatch}
use myaqi_iot_platform.Backend.Ingestion.{
  Request, Config, get_device, authenticate, read_batch, is_firmware_version,
}
use myaqi_iot_platform.System.{service_request}
use myaqi_iot_platform.System.Batches.{
  IsDated, AreInputsOf, sequences, input_sequences, parse_batch-AreInputsOf,
}
use myaqi_iot_platform.System.Keys.{length-decimal}

-- The service knows the client's device, and the secret is the one that was handed out for it.
pub record IsRegistered (config : Config) (c : Client) (devices : List Device) : Type 0 where
  pub device : Device
  pub found : get_device c.device_id devices ≡ some device
  pub active : device.active ≡ true
  pub secret :
      c.secret
      ≡ derive_device_secret config.sha256 config.device_master_key device.id device.key_version

-- The clocks of an upload differ by no more than the window.
pub record IsTimely (config : Config) (device_time : ℕ) (clock : ℤ) : Type 0 where
  pub parsed : config.parse_int (decimal device_time) ≡ some (pos device_time)
  pub in_window : magnitude (clock -ℤ pos device_time) ≤ config.auth_clock_skew_seconds

-- The client's batch is one that the service can read: it is not longer than the service takes, its
-- JSON is decoded, its timestamps are read, and its headers have the form that the service wants.
pub record IsReadable (config : Config) (dumps : Json → Bytes) (c : Client) : Type 0 where
  pub size : c.batch_size ≤ config.max_batch_size
  pub decoded :
      config.loads (batch_body dumps (batch c))
      ≡ some (obj (field "readings" (arr (readings_json (batch c))) end))
  pub dated : All (IsDated config.fromisoformat) c.state.pending
  pub id_chars : all is_device_id_char c.device_id ≡ true
  pub id_length : 1 ≤ length c.device_id
  pub key_length : length (batch_key c.device_id (batch c)) ≤ 128
  pub version : is_firmware_version c.firmware_version ≡ true

pub Ascends-take :
    (n last next : ℕ) (rs : List Reading) → Ascends last next rs → Ascends last next (take n rs)
Ascends-take zero last next rs h = tt
Ascends-take (suc n) last next [] h = tt
Ascends-take (suc n) last next (r ∷ rs) h = (h.0, h.1, h.2, Ascends-take n r.sequence next rs h.3)

decimal-ne-nil : (n : ℕ) → decimal n ≢ []
decimal-ne-nil n h = absurd (omega (arith, length-decimal n, ap (λ (t : Text). length t) h))

module _ (config : Config) (dumps : Json → Bytes) (c : Client) (device_time : ℕ) where
  abbrev pub device_request : Request
  device_request = service_request c.device_id (upload_request config.sha256 dumps device_time c)

  -- The device is let in.
  pub authenticate-device_request :
      (clock : ℤ) (devices : List Device)
      → ((m : Bytes) → all (λ b. ltb b 256) (config.sha256 m) ≡ true)
      → (h : IsRegistered config c devices) → IsTimely config device_time clock
      → authenticate config clock device_request devices ≡ ok h.device
  unfolding authenticate upload_request
  authenticate-device_request clock devices digest h t =
      rw (h.found, h.active)
        (rw (← h.secret) (
          rw
            (firmware_request_verified config.sha256 digest config.parse_int c.secret
              (decimal device_time) (codes "POST") (upload_path c.device_id)
              (batch_body dumps (batch c)) config.auth_clock_skew_seconds clock (pos device_time)
              (decimal-ne-nil device_time) t.parsed t.in_window)
            refl))

  -- The batch is read, each reading with its sequence.
  pub read_batch-device_request :
      IsState c.state
      → 1 ≤ c.batch_size
      → is_empty_queue c.state.pending ≡ false
      → IsReadable config dumps c
      → (readings : List ReadingInput) × (read_batch config device_request ≡ ok readings)
        × (input_sequences readings ≡ sequences (batch c))
        × AreInputsOf config.fromisoformat (batch c) readings
        × Distinct (input_sequences readings)
  unfolding read_batch upload_request
  read_batch-device_request valid size filled h =
      let (readings, p, e, inputs) =
        parsed c.batch_size c.state.pending filled size h.size
          (Ascends-take c.batch_size 0 c.state.next_sequence c.state.pending valid.ascends)
          (All-take _ c.batch_size c.state.pending h.dated) in
      (
        readings,
        rw h.decoded (rw p),
        e,
        inputs,
        (parse_batch-IsBatch config.fromisoformat config.max_batch_size _ readings p).distinct,
      )
    where
      parsed :
          (n : ℕ) (rs : List Reading)
          → is_empty_queue rs ≡ false
          → 1 ≤ n
          → n ≤ config.max_batch_size
          → Ascends 0 c.state.next_sequence (take n rs)
          → All (IsDated config.fromisoformat) (take n rs)
          → (readings : List ReadingInput) × (parse_batch config.fromisoformat config.max_batch_size
                (obj (field "readings" (arr (readings_json (take n rs))) end))
              ≡ ok readings)
            × (input_sequences readings ≡ sequences (take n rs))
            × AreInputsOf config.fromisoformat (take n rs) readings
      parsed zero rs filled size fits order dated = absurd (omega arith)
      parsed (suc n) [] filled size fits order dated = absurd (cc)
      parsed (suc n) (r ∷ rs) filled size fits order dated =
          parse_batch-AreInputsOf config.fromisoformat config.max_batch_size 0 c.state.next_sequence
            r (take n rs) dated order (omega (arith, length-take {0} n rs))
