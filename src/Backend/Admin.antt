-- ===== src/Backend/Admin.antt =====
-- backend/src/myaqi_backend/admin.py: the operator's commands. Each `engine` is opened and disposed
-- of around one transaction. `replay_event` is in Outbox.
pub mod Ranges
pub mod Verification
pub mod Devices
mod Tests
use myaqi_iot_platform.Prelude.{
  ℕ, zero, suc, ◌+◌, ◌-◌, ◌^◌, min, max, String, Bool, true, false, ◌&&◌, ◌||◌, not, Option, none,
  some, is_some, List, [], ◌∷◌, ◌++◌, map, ltb, leb, ◌==◌, if◌then◌else◌, length, take, keep,
  replicate, contains,
}
use myaqi_iot_platform.Prelude.Int.{ℤ, pos, negsuc, ◌-ℤ◌}
use myaqi_iot_platform.Prelude.Result.{Result, ok, err, ◌>>=◌, ◌>>◌, raise_if, or_raise}
use myaqi_iot_platform.Python.Text.{Text, Bytes, text_eq, codes, decimal}
use myaqi_iot_platform.Backend.Models.{Device, Measurement, OutboxEvent, Database, Status, dead}
use myaqi_iot_platform.Backend.Auth.{derive_device_secret}
use myaqi_iot_platform.Backend.Ingestion.{get_device, put_device}
use myaqi_iot_platform.Backend.Outbox.{
  is_dead, is_pending, is_processing, count_status, comes_before,
}

abbrev pub Range : Type 0
Range = ℕ × ℕ

-- The loop of `_missing_ranges`, from `expected` on
unfoldable pub missing_from : ℕ → ℕ → List ℕ → List Range
missing_from expected last [] = if leb expected last then (expected, last) ∷ [] else []
missing_from expected last (s ∷ ss) =
    let rest = missing_from (s + 1) last ss in
    if ltb expected s then (expected, s - 1) ∷ rest else rest

unfoldable pub missing_ranges : List ℕ → ℕ → ℕ → List Range
unfolding missing_from
missing_ranges sequences start last = missing_from start last sequences

-- ORDER BY sequence
unfoldable pub insert_sequence : ℕ → List ℕ → List ℕ
insert_sequence k [] = k ∷ []
insert_sequence k (x ∷ xs) =
    let rest = insert_sequence k xs in if leb k x then k ∷ x ∷ xs else x ∷ rest

unfoldable pub order_sequences : List ℕ → List ℕ
unfolding insert_sequence
order_sequences [] = []
order_sequences (k ∷ ks) = insert_sequence k (order_sequences ks)

-- The WHERE clause of `verify_sequence_range`
abbrev pub in_query : Text → ℕ → ℕ → Measurement → Bool
in_query device start last m =
    text_eq m.device_id device && (leb start m.sequence && leb m.sequence last)

abbrev pub sequences_of : List Measurement → List ℕ
sequences_of ms = map (λ m. m.sequence) ms

unfoldable pub select_sequences : Text → ℕ → ℕ → List Measurement → List ℕ
unfolding order_sequences
select_sequences device start last table =
    order_sequences (sequences_of (keep (in_query device start last) table))

-- The ValueErrors of the commands
pub data Refused : Type 0 where
  sequence_range unknown_device limit_out_of_range : Refused

pub record RangeReport : Type 0 where
  pub received : ℕ
  pub missing : ℤ
  pub ranges : List Range
  pub complete : Bool

abbrev pub is_nil : List Range → Bool
is_nil [] = true
is_nil (_ ∷ _) = false

abbrev pub range_report : ℕ → ℕ → List ℕ → RangeReport
range_report start last sequences =
    let missing = missing_ranges sequences start last in
    record {
      received = length sequences;
      missing = pos (last + 1 - start) -ℤ pos (length sequences);
      ranges = missing;
      complete = is_nil missing;
    }

-- `verify_sequence_range`, for the ints of the command line
unfoldable pub verify_sequence_range : Text → ℤ → ℤ → Database → Result Refused RangeReport
unfolding missing_ranges
verify_sequence_range device (pos start) (pos last) db = do
  raise_if (ltb start 1 || ltb last start || ltb 1000000 (last + 1 - start)) sequence_range
  known ← or_raise (get_device device db.devices) unknown_device
  ok (range_report start last (select_sequences device start last db.measurements))
verify_sequence_range device _ _ db = err sequence_range

-- `Device(id=…, display_name=…)` with the columns' defaults
abbrev pub default_device : ℕ → Text → Text → Device
default_device now id name = record {
  id = id;
  display_name = name;
  active = true;
  key_version = 1;
  created_at = now;
  updated_at = now;
  last_seen_at = none;
  last_firmware_version = none;
  last_sequence = none;
}

abbrev pub renamed : ℕ → Text → Device → Device
renamed now name d = record d { display_name = name; active = true; updated_at = now }

pub record Provisioned : Type 0 where
  pub device_id : Text
  pub display_name : Text
  pub key_version : ℕ
  pub device_secret : Bytes

abbrev pub provisioned : (Bytes → Bytes) → Text → Device → Provisioned
provisioned sha256 master_key d = record {
  device_id = d.id;
  display_name = d.display_name;
  key_version = d.key_version;
  device_secret = derive_device_secret sha256 master_key d.id d.key_version;
}

-- `provision_device`; the secret is answered before its Base64 form.
unfoldable pub provision_device :
    (Bytes → Bytes) → Text → ℕ → Text → Text → Database → Provisioned × Database
provision_device sha256 master_key now id name db = elim (get_device id db.devices) [
  | none ↦
      let d = default_device now id name in
      (provisioned sha256 master_key d, record db { devices = d ∷ db.devices })
  | some existing ↦
      let d = renamed now name existing in
      (provisioned sha256 master_key d, record db { devices = put_device d db.devices })
]

-- `f"{prefix}-{index:04d}"`
unfoldable pub benchmark_id : Text → ℕ → Text
benchmark_id prefix index =
    prefix ++ (b'-' ∷ (replicate (4 - length (decimal index)) b'0' ++ decimal index))

-- `[… for index in range(first, first + count)]`
unfoldable pub benchmark_ids : Text → ℕ → ℕ → List Text
benchmark_ids prefix first zero = []
benchmark_ids prefix first (suc n) = benchmark_id prefix first ∷ benchmark_ids prefix (first + 1) n

abbrev pub seed_one : ℕ → List Device → Text → List Device → List Device
seed_one now existing id devices =
    if is_some (get_device id existing)
    then devices
    else default_device now id (codes "Benchmark device " ++ id) ∷ devices

unfoldable pub seed_devices : ℕ → List Device → List Text → List Device → List Device
seed_devices now existing [] devices = devices
seed_devices now existing (id ∷ ids) devices =
    seed_devices now existing ids (seed_one now existing id devices)

-- `seed_benchmark_devices`: the ids with their secrets, which the command writes to its output
unfoldable pub seed_benchmark_devices :
    (Bytes → Bytes) → Text → ℕ → ℕ → Text → Database → List (Text × Bytes) × Database
unfolding benchmark_ids seed_devices
seed_benchmark_devices sha256 master_key now count prefix db =
    let ids = benchmark_ids prefix 1 count in
    (
      map (λ id. (id, derive_device_secret sha256 master_key id 1)) ids,
      record db { devices = seed_devices now db.devices ids db.devices },
    )

-- `func.min` and `func.max` over the sequences
unfoldable pub lowest : List ℕ → Option ℕ
lowest [] = none
lowest (k ∷ ks) = let rest = lowest ks in some (elim rest [ none ↦ k | some m ↦ min k m ])

unfoldable pub highest : List ℕ → Option ℕ
highest [] = none
highest (k ∷ ks) = let rest = highest ks in some (elim rest [ none ↦ k | some m ↦ max k m ])

abbrev pub span : Option ℕ → Option ℕ → ℕ
span (some a) (some b) = b + 1 - a
span _ _ = 0

abbrev pub device_rows : Text → Database → List Measurement
device_rows id db = keep (λ m. text_eq m.device_id id) db.measurements

-- The rows of the outbox that belong to the device's requests
abbrev pub device_events : Text → Database → List OutboxEvent
device_events id db =
    keep (λ e. contains e.aggregate_id (map (λ m. m.ingest_request_id) (device_rows id db)))
      db.outbox_events

pub record Inspection : Type 0 where
  pub device : Device
  pub persisted_measurements : ℕ
  pub first_persisted_sequence : Option ℕ
  pub last_persisted_sequence : Option ℕ
  pub missing_within_span : ℤ
  pub outbox_pending : ℕ
  pub outbox_processing : ℕ
  pub outbox_dead : ℕ

-- `inspect_device`
unfoldable pub inspect_device : Text → Database → Result Refused Inspection
unfolding lowest highest
inspect_device id db = do
  device ← or_raise (get_device id db.devices) unknown_device
  let sequences = sequences_of (device_rows id db)
  ok (record {
    device = device;
    persisted_measurements = length sequences;
    first_persisted_sequence = lowest sequences;
    last_persisted_sequence = highest sequences;
    missing_within_span =
        pos (span (lowest sequences) (highest sequences)) -ℤ pos (length sequences);
    outbox_pending = count_status is_pending (device_events id db);
    outbox_processing = count_status is_processing (device_events id db);
    outbox_dead = count_status is_dead (device_events id db);
  })

-- ORDER BY created_at DESC, id
abbrev pub later_first : OutboxEvent → OutboxEvent → Bool
later_first a b = ltb b.created_at a.created_at || (a.created_at == b.created_at && leb a.id b.id)

unfoldable pub insert_later : OutboxEvent → List OutboxEvent → List OutboxEvent
insert_later e [] = e ∷ []
insert_later e (d ∷ es) =
    let rest = insert_later e es in if later_first e d then e ∷ d ∷ es else d ∷ rest

unfoldable pub order_later : List OutboxEvent → List OutboxEvent
unfolding insert_later
order_later [] = []
order_later (e ∷ es) = insert_later e (order_later es)

-- `list_dead_events`
unfoldable pub list_dead_events : ℤ → Database → Result Refused (List OutboxEvent)
unfolding order_later
list_dead_events (pos limit) db = do
  raise_if (ltb limit 1 || ltb 1000 limit) limit_out_of_range
  ok (take limit (order_later (keep (λ e. is_dead e.status) db.outbox_events)))
list_dead_events (negsuc _) db = err limit_out_of_range
