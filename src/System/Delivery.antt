-- ===== src/System/Delivery.antt =====
-- What an exchange leaves at the service and at the device.
use myaqi_iot_platform.Prelude.{
  ℕ, ◌+◌, ◌≤◌, ◌≡◌, refl, sym, ap, ◌∙◌, true, false, Option, none, some, List, [], ◌∷◌, ◌++◌, arith,
  ltb, length, all, All, Any, ◌⊎◌, inl, inr,
}
use mathlib.Core.Path.{subst}
use myaqi_iot_platform.Prelude.Int.{ℤ, pos}
use myaqi_iot_platform.Prelude.Result.{Result, ok}
use myaqi_iot_platform.Python.Text.{Text, Bytes, replace_z}
use myaqi_iot_platform.Python.Json.{Json, find}
use myaqi_iot_platform.Firmware.State.{Reading, State}
use myaqi_iot_platform.Firmware.State.Valid.{Ascends, IsState}
use myaqi_iot_platform.Firmware.Store.{FaultPlan, save}
use myaqi_iot_platform.Firmware.Client.{
  Client, response, batch, batch_key, upload_request, Counts, covers, counts_of, acknowledged,
  uploaded, last_sequence, is_empty_queue, settle_upload, flush_one, Flushed, FlushError, int_of,
}
use myaqi_iot_platform.Firmware.Client.Uploads.{drop-length-take}
use myaqi_iot_platform.Backend.Models.{Database, ResponseBody, Measurement, OutboxEvent, pending}
use myaqi_iot_platform.Backend.Validation.{ReadingInput, Stamp}
use myaqi_iot_platform.Backend.Ingestion.{
  or_zero, get_device, Config, Response, find_request, has_measurement, transaction,
  ingest_measurements,
}
use myaqi_iot_platform.Backend.Ingestion.Batches.{max_integer, commit_batch-Stored}
use myaqi_iot_platform.Backend.Ingestion.Tables.{IsRowOf, IsRecorded}
use myaqi_iot_platform.Backend.Ingestion.Replays.{transaction_of_parts}
use myaqi_iot_platform.Backend.Ingestion.Devices.{get_device-id}
use myaqi_iot_platform.Backend.App.{no_fault, response_json, respond, upload}
use myaqi_iot_platform.System.{Exchange, Platform, serve, answer_of}
use myaqi_iot_platform.System.Batches.{HasValue, IsInputOf, AreInputsOf, sequences, input_sequences}
use myaqi_iot_platform.System.Keys.{batch_key-is_idempotency_key}
use myaqi_iot_platform.System.Upload.{
  Ascends-take, IsRegistered, IsTimely, IsReadable, device_request, authenticate-device_request,
  read_batch-device_request,
}

Any-imp :
    (P Q : Measurement → Type 0) (ms : List Measurement)
    → ((m : Measurement) → P m → Q m)
    → Any P ms
    → Any Q ms
Any-imp P Q [] f h = absurd h
Any-imp P Q (m ∷ ms) f (inl p) = inl (f m p)
Any-imp P Q (m ∷ ms) f (inr h) = inr (Any-imp P Q ms f h)

-- The row has what the device measured: its sequence, time and concentration.
pub record IsRowFor (fromisoformat : Text → Option Stamp) (device : Text) (r : Reading)
    (m : Measurement) : Type 0 where
  pub device_id : m.device_id ≡ device
  pub sequence : m.sequence ≡ r.sequence
  pub stamp : Stamp
  pub dated : fromisoformat (replace_z r.observed_at) ≡ some stamp
  pub observed_at : m.observed_at ≡ stamp.instant
  pub pm25_ug_m3 : HasValue r.pm25_ug_m3 m.pm25_ug_m3
  pub temperature_c : m.temperature_c ≡ none
  pub relative_humidity : m.relative_humidity ≡ none

-- The service has a row for the sequence of a reading, and unless it had one before, then one with
-- the values of the reading.
abbrev pub IsStored :
    (Text → Option Stamp) → Text → List Measurement → List Measurement → Reading → Type 0
IsStored fromisoformat device before after r =
    (has_measurement device r.sequence after ≡ true)
    × ((has_measurement device r.sequence before ≡ true)
        ⊎ Any (IsRowFor fromisoformat device r) after)

IsRowOf-IsRowFor :
    (fromisoformat : Text → Option Stamp) (device : Text) (r : Reading) (input : ReadingInput)
    (m : Measurement)
    → IsInputOf fromisoformat r input
    → IsRowOf device input m
    → IsRowFor fromisoformat device r m
IsRowOf-IsRowFor fromisoformat device r input m i h = record {
  device_id = h.device_id;
  sequence = h.sequence ∙ i.sequence;
  stamp = i.stamp;
  dated = i.dated;
  observed_at = h.observed_at ∙ i.observed_at;
  pm25_ug_m3 = subst (λ y. HasValue r.pm25_ug_m3 y) (sym h.pm25_ug_m3) i.pm25_ug_m3;
  temperature_c = h.temperature_c ∙ i.temperature_c;
  relative_humidity = h.relative_humidity ∙ i.relative_humidity;
}

present-IsStored :
    (fromisoformat : Text → Option Stamp) (device : Text) (before after : List Measurement)
    (readings : List ReadingInput) (rs : List Reading)
    → AreInputsOf fromisoformat rs readings
    → All (λ r. has_measurement device r.sequence after ≡ true) readings
    → All (IsRecorded device before after) readings
    → All (IsStored fromisoformat device before after) rs
present-IsStored fromisoformat device before after [] [] inputs h w = tt
present-IsStored fromisoformat device before after (i ∷ is) [] inputs h w = tt
present-IsStored fromisoformat device before after [] (r ∷ rs) inputs h w = absurd inputs
present-IsStored fromisoformat device before after (i ∷ is) (r ∷ rs) inputs h w =
    let same = inputs.0.sequence in
    (
      (
        subst (λ s. has_measurement device s after ≡ true) same h.0,
        elim w.0 [
          | inl old ↦ inl (subst (λ s. has_measurement device s before ≡ true) same old)
          | inr row ↦
              inr
                (Any-imp _ _ after (λ m. IsRowOf-IsRowFor fromisoformat device r i m inputs.0) row)
        ],
      ),
      present-IsStored fromisoformat device before after is rs inputs.1 h.1 w.1,
    )

-- The sequences of the batch fit into the column.
small_inputs :
    (fromisoformat : Text → Option Stamp) (last next : ℕ) (rs : List Reading)
    (readings : List ReadingInput)
    → Ascends last next rs
    → AreInputsOf fromisoformat rs readings
    → next ≤ max_integer + 1
    → All (λ r. r.sequence ≤ max_integer) readings
small_inputs fromisoformat last next [] [] order inputs h = tt
small_inputs fromisoformat last next (r ∷ rs) [] order inputs h = tt
small_inputs fromisoformat last next [] (i ∷ is) order inputs h = absurd inputs
small_inputs fromisoformat last next (r ∷ rs) (i ∷ is) order inputs h = (
  omega (arith, order.1, inputs.0.sequence),
  small_inputs fromisoformat r.sequence next rs is order.3 inputs.1 h,
)

-- The outbox has exactly one new event, which is pending and counts every reading of the batch.
pub record HasNewEvent (c : Client) (before after : List OutboxEvent) : Type 0 where
  pub event : OutboxEvent
  pub added : after ≡ event ∷ before
  pub waits : event.status ≡ pending
  pub counted : event.payload.accepted + event.payload.duplicates ≡ length (batch c)

length-sequences : (rs : List Reading) → length (sequences rs) ≡ length rs
length-sequences [] = refl
length-sequences (r ∷ rs) = omega (arith, length-sequences rs)

length-input_sequences : (rs : List ReadingInput) → length (input_sequences rs) ≡ length rs
length-input_sequences [] = refl
length-input_sequences (r ∷ rs) = omega (arith, length-input_sequences rs)

-- The answer to a batch that accounts for every reading of it
pub record Accepts (c : Client) (r : Response) : Type 0 where
  pub status : r.status ≡ 202
  pub accounted : r.body.accepted + r.body.duplicates ≡ length (batch c)

counted_batch :
    (c : Client) (readings : List ReadingInput) (r : Response)
    → input_sequences readings ≡ sequences (batch c)
    → r.body.accepted + r.body.duplicates ≡ length readings
    → r.body.accepted + r.body.duplicates ≡ length (batch c)
counted_batch c readings r e h =
    h
    ∙ (sym (length-input_sequences readings)
        ∙ (ap (λ (ss : List ℕ). length ss) e ∙ length-sequences (batch c)))

-- A batch under a new key is committed: it is answered with 202, every reading is accounted for, and
-- each is in the table; and the outbox has a new event.
module _ (config : Config) (dumps : Json → Bytes) (c : Client) (device_time : ℕ) (clock : ℤ)
    (now : ℕ) (db : Database) (digest : (m : Bytes) → all (λ b. ltb b 256) (config.sha256 m) ≡ true)
    (registered : IsRegistered config c db.devices) (timely : IsTimely config device_time clock)
    (readable : IsReadable config dumps c) (valid : IsState c.state) (size : 1 ≤ c.batch_size)
    (filled : is_empty_queue c.state.pending ≡ false)
    (range : c.state.next_sequence ≤ max_integer + 1)
    (old : or_zero registered.device.last_sequence ≤ max_integer)
    (fresh : find_request c.device_id (batch_key c.device_id (batch c)) db.ingest_requests
      ≡ none) where
  pub transaction_stores :
      (r : Response) × (after : Database) × (transaction config clock now
          (device_request config dumps c device_time)
          db
        ≡ ok (r, after))
      × Accepts c r
      × All (IsStored config.fromisoformat c.device_id db.measurements after.measurements) (batch c)
      × HasNewEvent c db.outbox_events after.outbox_events
  unfolding upload_request
  transaction_stores =
      let request = device_request config dumps c device_time in
      let auth =
        authenticate-device_request config dumps c device_time clock db.devices digest registered
          timely in
      let (readings, read, e, inputs, apart) =
        read_batch-device_request config dumps c device_time valid size filled readable in
      let same : registered.device.id ≡ c.device_id =
        get_device-id c.device_id db.devices registered.device registered.found in
      let small =
        small_inputs config.fromisoformat 0 c.state.next_sequence (batch c) readings
          (Ascends-take c.batch_size 0 c.state.next_sequence c.state.pending valid.ascends) inputs
          range in
      let (r, after, done, code, first, stored, kept) =
        commit_batch-Stored config now request registered.device readings db (rw same fresh)
          (subst (λ i. get_device i db.devices ≡ some registered.device) (sym same)
            registered.found)
          apart small old in
      (
        r,
        after,
        transaction_of_parts config clock now request db registered.device readings
              (batch_key-is_idempotency_key c.device_id (batch c) readable.id_chars
                readable.id_length readable.key_length)
              readable.version auth read
            ∙ done,
        record { status = code; accounted = counted_batch c readings r e stored.accounted },
        subst
            (λ i.
              All (IsStored config.fromisoformat i db.measurements after.measurements) (batch c))
            same
            (present-IsStored config.fromisoformat registered.device.id db.measurements
              after.measurements readings (batch c) inputs stored.present stored.written),
        record {
          event = stored.event;
          added = stored.published;
          waits = stored.waits;
          counted =
              ap (λ (b : ResponseBody). b.accepted + b.duplicates) stored.carries
              ∙ counted_batch c readings r e stored.accounted;
        },
      )

-- The counts of the answer, as the device reads them
abbrev counts : ResponseBody → Counts
counts b = record { accepted = pos b.accepted; duplicates = pos b.duplicates }

acknowledged-Accepts :
    (uuid : ℕ → Text) (parse_int : Text → Option ℤ) (c : Client) (r : Response)
    → Accepts c r
    → acknowledged parse_int
        (length (batch c))
        (response r.status (some (response_json uuid r.body)))
      ≡ some (counts r.body)
unfolding acknowledged counts_of int_of find
acknowledged-Accepts uuid parse_int c r h =
    let total = h.accounted in
    let all_counted : covers (length (batch c)) (counts r.body) ≡ true = (ground arith) in
    rw (h.status, all_counted)

-- The state of the device after its batch has been acknowledged
abbrev pub acknowledged_state : Client → State
acknowledged_state c = uploaded (length (batch c)) (last_sequence 0 (batch c)) (some 202) c.state

abbrev pub Uploaded : Client → Result FlushError Flushed × Client → Type 0
Uploaded c (result, after) =
    ((done : Flushed) × (result ≡ ok done))
    × (after.state ≡ acknowledged_state c)
    × (batch c ++ after.state.pending ≡ c.state.pending)

pub flush_one-Uploaded :
    (uuid : ℕ → Text) (parse_int : Text → Option ℤ) (plan : FaultPlan) (c : Client) (r : Response)
    → Accepts c r
    → is_empty_queue c.state.pending ≡ false
    → (save plan (acknowledged_state c) c.files).0 ≡ true
    → Uploaded c (flush_one parse_int plan (response r.status (some (response_json uuid r.body))) c)
unfolding flush_one settle_upload
flush_one-Uploaded uuid parse_int plan c r h filled saved =
    let code = h.status in
    rw filled (
      rw (acknowledged-Accepts uuid parse_int c r h, settle_upload)
        (rw code (rw saved ((_, refl), refl, drop-length-take c.batch_size c.state.pending))))

-- Without a fault of the database, the service answers with what its transaction gives.
pub serve_committed :
    (config : Config) (uuid : ℕ → Text) (dumps : Json → Bytes) (x : Exchange) (p : Platform)
    (r : Response) (after : Database)
    → x.database_fault ≡ no_fault
    → transaction config x.clock x.now
        (device_request config dumps p.client x.device_time)
        p.database
      ≡ ok (r, after)
    → let (answer, kept, counted) = serve config uuid dumps x p in
      (answer_of answer ≡ response r.status (some (response_json uuid r.body))) × (kept ≡ after)
unfolding serve upload ingest_measurements respond
serve_committed config uuid dumps x p r after sound done =
    rw sound (rw (done, ingest_measurements) (refl, refl))
