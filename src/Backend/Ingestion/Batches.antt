-- ===== src/Backend/Ingestion/Batches.antt =====
-- A request under a new idempotency key: what the transaction commits.
use myaqi_iot_platform.Prelude.{
  ℕ, ◌+◌, ◌≡◌, refl, ap, Bool, true, false, not, none, some, List, [], ◌∷◌, arith, length, All,
  All-imp, Distinct, map, max, ◌≤◌, ◌==◌,
}
use myaqi_iot_platform.Prelude.Int.{ℤ}
use myaqi_iot_platform.Prelude.Result.{ok, ◌>>=◌, raise_if, raise_if-ok, >>=-eq-ok}
use myaqi_iot_platform.Python.Text.{Text, text_eq_self}
use myaqi_iot_platform.Backend.Models.{
  ResponseBody, pending, Device, IngestRequest, OutboxEvent, Database,
}
use myaqi_iot_platform.Backend.Auth.{body_sha256}
use myaqi_iot_platform.Backend.Ingestion.Devices.{get_put_found}
use myaqi_iot_platform.Backend.Validation.{ReadingInput}
use myaqi_iot_platform.Backend.Ingestion.{
  or_zero, or_kept, get_device, highest_sequence, answer_request, Request, Config, Response,
  find_request, has_measurement, insert_ingest_request, put_device, update_device, store_batch,
  replay_request, commit_batch, transaction, is_idempotency_key, invalid_idempotency_key,
  valid_version, invalid_firmware_version, authenticate, read_batch,
}
use myaqi_iot_platform.Backend.Ingestion.Tables.{
  IsRecorded, insert_measurements-writes, insert_measurements-stores, insert_measurements_count,
  insert_measurements_known,
}

-- The database with the heartbeat of the device.
abbrev pub seen_device : ℕ → Request → Device → List ReadingInput → Database → Database
seen_device now request device readings db = record db {
  devices = put_device (update_device now request.firmware_version readings device) db.devices;
}

-- The row that `_insert_ingest_request` creates.
abbrev pub reserved_row : Config → ℕ → Request → Device → Database → IngestRequest
reserved_row config now request device db = record {
  id = db.next_id;
  device_id = device.id;
  idempotency_key = request.idempotency_key;
  payload_sha256 = body_sha256 config.sha256 request.body;
  response_status = none;
  response_body = none;
  created_at = now;
}

abbrev pub reserve : IngestRequest → Database → Database
reserve row db = record db { ingest_requests = row ∷ db.ingest_requests; next_id = db.next_id + 1 }

module _ (config : Config) (now : ℕ) (request : Request) (device : Device)
    (readings : List ReadingInput) (db : Database) where
  -- Under a key that has no row, the batch is stored.
  pub commit_batch_new :
      find_request device.id request.idempotency_key db.ingest_requests ≡ none
      → commit_batch config now request device readings db
        ≡ ok (
            store_batch (reserved_row config now request device db) device.id now readings (
              reserve
                (reserved_row config now request device db)
                (seen_device now request device readings db)))
  unfolding commit_batch insert_ingest_request
  commit_batch_new fresh = rw (fresh, insert_ingest_request)

  -- Under a key that has a row, the answer is that of the row.
  pub commit_batch_found :
      (row : IngestRequest)
      → find_request device.id request.idempotency_key db.ingest_requests ≡ some row
      → commit_batch config now request device readings db ≡ (
          replay_request row (body_sha256 config.sha256 request.body) >>= λ response. ok (
            response,
            record (seen_device now request device readings db) { next_id = db.next_id + 1 },
          ))
  unfolding commit_batch insert_ingest_request
  commit_batch_found row found = rw (found, insert_ingest_request)

-- What a stored batch leaves in the tables: the answer accounts for every reading, the table of
-- measurements grows by the accepted ones and holds every reading of the batch, those that had no
-- row with their values; and the outbox grows by one pending event that carries the answer.
pub record Stored (device : Text) (readings : List ReadingInput) (db : Database)
    (response : Response) (after : Database) : Type 0 where
  pub accounted : response.body.accepted + response.body.duplicates ≡ length readings
  pub grown : length after.measurements ≡ length db.measurements + response.body.accepted
  pub present : All (λ r. has_measurement device r.sequence after.measurements ≡ true) readings
  pub written : All (IsRecorded device db.measurements after.measurements) readings
  pub event : OutboxEvent
  pub published : after.outbox_events ≡ event ∷ db.outbox_events
  pub carries : event.payload ≡ response.body
  pub waits : event.status ≡ pending

store_batch-Stored :
    (row : IngestRequest) (device : Text) (now : ℕ) (readings : List ReadingInput) (db : Database)
    → Distinct (map (λ (r : ReadingInput). r.sequence) readings)
    → let (response, after) = store_batch row device now readings db in
      Stored device readings db response after
unfolding store_batch
store_batch-Stored row device now readings db apart =
    let count = insert_measurements_count device row.id now db.next_id readings db.measurements in
    record {
      accounted = omega arith;
      grown = count.0;
      present = insert_measurements-stores device row.id now db.next_id readings db.measurements;
      written =
          insert_measurements-writes device row.id now db.next_id readings db.measurements apart;
      event = _;
      published = refl;
      carries = refl;
      waits = refl;
    }

-- The largest number of an `Integer` column of PostgreSQL.
abbrev pub max_integer : ℕ
max_integer = 2147483647

-- What the request and the device keep of a stored batch: the request has its answer, and the device
-- its heartbeat, with a sequence that is not below any of the batch and that its column can hold.
pub record Acknowledged (config : Config) (now : ℕ) (request : Request) (device : Device)
    (readings : List ReadingInput) (response : Response) (after : Database) : Type 0 where
  pub row : IngestRequest
  pub found : find_request device.id request.idempotency_key after.ingest_requests ≡ some row
  pub digest : row.payload_sha256 ≡ body_sha256 config.sha256 request.body
  pub answered : row.response_body ≡ some response.body
  pub status : row.response_status ≡ some 202
  pub seen : Device
  pub known : get_device device.id after.devices ≡ some seen
  pub last_seen : seen.last_seen_at ≡ some now
  pub version :
      seen.last_firmware_version ≡ or_kept request.firmware_version device.last_firmware_version
  pub highest : ℕ
  pub last : seen.last_sequence ≡ some highest
  pub above : All (λ r. r.sequence ≤ highest) readings
  pub fits : highest ≤ max_integer

le_max : (s n m : ℕ) → s ≤ n → s ≤ max m n
le_max s n m h = omega arith

highest_sequence-above : (rs : List ReadingInput) → All (λ r. r.sequence ≤ highest_sequence rs) rs
unfolding highest_sequence
highest_sequence-above [] = tt
highest_sequence-above (r ∷ rs) = (
  omega arith,
  All-imp _ _ rs
      (λ x (h : x.sequence ≤ highest_sequence rs).
        le_max x.sequence (highest_sequence rs) r.sequence h)
      (highest_sequence-above rs),
)

highest_sequence-fits :
    (bound : ℕ) (rs : List ReadingInput)
    → All (λ r. r.sequence ≤ bound) rs
    → highest_sequence rs ≤ bound
unfolding highest_sequence
highest_sequence-fits bound [] h = omega arith
highest_sequence-fits bound (r ∷ rs) h = omega (arith, h.0, highest_sequence-fits bound rs h.1)

find_answered :
    (row : IngestRequest) (body : ResponseBody) (rows : List IngestRequest)
    → find_request row.device_id row.idempotency_key (answer_request row.id body (row ∷ rows))
      ≡ some (record row { response_body = some body; response_status = some 202 })
unfolding answer_request find_request
find_answered row body rows =
    let same : (row.id == row.id) ≡ true = (ground arith) in
    rw (same, text_eq_self row.device_id, text_eq_self row.idempotency_key)

-- A batch of different sequences from a device of the table, under a new key, is answered with 202,
-- when its sequences fit into the columns, as the device's last one does. Every reading is accounted for as accepted or
-- duplicate and is in the table, the accepted ones with their values; exactly one event, pending and
-- with the answer, joins the outbox; the request has its answer and the device its heartbeat: all in
-- the same commit.
pub commit_batch-Stored :
    (config : Config) (now : ℕ) (request : Request) (device : Device) (readings : List ReadingInput)
    (db : Database)
    → find_request device.id request.idempotency_key db.ingest_requests ≡ none
    → get_device device.id db.devices ≡ some device
    → Distinct (map (λ (r : ReadingInput). r.sequence) readings)
    → All (λ r. r.sequence ≤ max_integer) readings
    → or_zero device.last_sequence ≤ max_integer
    → (response : Response) × (after : Database) × (commit_batch config now request device readings
          db
        ≡ ok (response, after))
      × (response.status ≡ 202)
      × (response.replayed ≡ false)
      × Stored device.id readings db response after
      × Acknowledged config now request device readings response after
unfolding store_batch update_device
commit_batch-Stored config now request device readings db fresh found apart small old =
    let row = reserved_row config now request device db in
    let reserved = reserve row (seen_device now request device readings db) in
    let (response, after) = store_batch row device.id now readings reserved in
    let low = highest_sequence-fits max_integer readings small in
    (
      response,
      after,
      commit_batch_new config now request device readings db fresh,
      refl,
      refl,
      (let s = store_batch-Stored row device.id now readings reserved apart in
          record {
            accounted = s.accounted;
            grown = s.grown;
            present = s.present;
            written = s.written;
            event = s.event;
            published = s.published;
            carries = s.carries;
            waits = s.waits;
          }),
      record {
        row = record row { response_body = some response.body; response_status = some 202 };
        found = find_answered row response.body db.ingest_requests;
        digest = refl;
        answered = refl;
        status = refl;
        seen = update_device now request.firmware_version readings device;
        known =
            get_put_found device.id (update_device now request.firmware_version readings device)
              device db.devices refl found;
        last_seen = refl;
        version = refl;
        highest = max (or_zero device.last_sequence) (highest_sequence readings);
        last = refl;
        above =
            All-imp _ _ readings
              (λ r (h : r.sequence ≤ highest_sequence readings).
                le_max r.sequence (highest_sequence readings) (or_zero device.last_sequence) h)
              (highest_sequence-above readings);
        fits = omega (arith, low, old);
      },
    )

-- The same readings sent again under another new key are all duplicates: no measurement is added.
pub commit_batch_resent :
    (config : Config) (now : ℕ) (request : Request) (device : Device) (readings : List ReadingInput)
    (db : Database)
    → find_request device.id request.idempotency_key db.ingest_requests ≡ none
    → All (λ r. has_measurement device.id r.sequence db.measurements ≡ true) readings
    → (response : Response) × (after : Database) × (commit_batch config now request device readings
          db
        ≡ ok (response, after))
      × (response.body.accepted ≡ 0)
      × (response.body.duplicates ≡ length readings)
      × (after.measurements ≡ db.measurements)
unfolding store_batch
commit_batch_resent config now request device readings db fresh known =
    let row = reserved_row config now request device db in
    let reserved = reserve row (seen_device now request device readings db) in
    let (response, after) = store_batch row device.id now readings reserved in
    let same =
      insert_measurements_known device.id row.id now reserved.next_id readings db.measurements
        known in
    (
      response,
      after,
      commit_batch_new config now request device readings db fresh,
      ap (λ p. p.0) same,
      rw same (omega arith),
      ap (λ p. p.1) same,
    )

-- The steps that a committed transaction went through.
pub transaction_parts :
    (config : Config) (clock : ℤ) (now : ℕ) (request : Request) (db : Database)
    (result : Response × Database)
    → transaction config clock now request db ≡ ok result
    → (device : Device) × (readings : List ReadingInput) × (is_idempotency_key
          request.idempotency_key
        ≡ true)
      × (valid_version request.firmware_version ≡ true)
      × (authenticate config clock request db.devices ≡ ok device)
      × (read_batch config request ≡ ok readings)
      × (commit_batch config now request device readings db ≡ ok result)
unfolding transaction
transaction_parts config clock now request db result h =
    let (u, p, h1) =
      >>=-eq-ok
        (raise_if (not (is_idempotency_key request.idempotency_key)) invalid_idempotency_key) _ h in
    let (v, q, h2) =
      >>=-eq-ok (raise_if (not (valid_version request.firmware_version)) invalid_firmware_version) _
        h1 in
    let (device, a, h3) = >>=-eq-ok (authenticate config clock request db.devices) _ h2 in
    let (readings, b, h4) = >>=-eq-ok (read_batch config request) _ h3 in
    (
      device,
      readings,
      not-false (is_idempotency_key request.idempotency_key)
          (raise_if-ok _ invalid_idempotency_key p),
      not-false (valid_version request.firmware_version) (raise_if-ok _ invalid_firmware_version q),
      a,
      b,
      h4,
    )
  where
    not-false : (b : Bool) → not b ≡ false → b ≡ true
    not-false b h = ground arith
