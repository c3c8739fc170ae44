-- ===== src/Backend/Ingestion/Replays.antt =====
-- A request under a used idempotency key: the committed answer comes back, or a conflict.
use myaqi_iot_platform.Prelude.{
  ℕ, ◌+◌, ◌≡◌, refl, sym, ◌∙◌, inl, inr, true, false, not, some, List, ◌∷◌, arith, Option-cases,
}
use mathlib.Core.Path.{subst}
use myaqi_iot_platform.Prelude.Int.{ℤ}
use myaqi_iot_platform.Prelude.Result.{
  Result, ok, err, raise_if, or_raise, or_raise-ok, >>=-eq-ok, ok-injective, Result-cases,
}
use myaqi_iot_platform.Python.Text.{Text, text_eq, text_eq_self}
use myaqi_iot_platform.Backend.Models.{Device, IngestRequest, ResponseBody, Database}
use myaqi_iot_platform.Backend.Auth
use myaqi_iot_platform.Backend.Auth.{body_sha256}
use myaqi_iot_platform.Backend.Validation.{ReadingInput}
use myaqi_iot_platform.Backend.Ingestion.{
  Request, Config, idempotency_conflict, Metrics, Response, get_device, authentication_failed,
  admit, count_failure, observe_latency, find_request, answer_request, store_batch, replay_request,
  commit_batch, transaction, ingest_measurements, authenticate, read_batch, is_idempotency_key,
  valid_version,
}
use myaqi_iot_platform.Backend.Ingestion.Tables.{IsUnique, insert_measurements-IsUnique}
use myaqi_iot_platform.Backend.Ingestion.Devices.{get_device-id}
use myaqi_iot_platform.Backend.Ingestion.Batches.{
  seen_device, reserved_row, reserve, commit_batch_new, commit_batch_found, transaction_parts,
}

-- The answer that a key has in the table: the row whose replay gives the response.
pub record Answered (device key digest : Text) (response : Response) (db : Database) : Type 0 where
  pub row : IngestRequest
  pub found : find_request device key db.ingest_requests ≡ some row
  pub replays : replay_request row digest ≡ ok (record response { replayed = true })

find_request_head :
    (device key : Text) (row : IngestRequest) (rows : List IngestRequest)
    → row.device_id ≡ device
    → row.idempotency_key ≡ key
    → find_request device key (row ∷ rows) ≡ some row
unfolding find_request
find_request_head device key row rows p q = rw (p, q, text_eq_self device, text_eq_self key)

abbrev answered : IngestRequest → ResponseBody → IngestRequest
answered row body = record row { response_body = some body; response_status = some 202 }

answer_request_head :
    (row : IngestRequest) (body : ResponseBody) (rows : List IngestRequest)
    → answer_request row.id body (row ∷ rows) ≡ answered row body ∷ rows
unfolding answer_request
answer_request_head row body rows = ground arith

replay_request-answered :
    (row : IngestRequest) (body : ResponseBody)
    → replay_request (answered row body) row.payload_sha256
      ≡ ok (record { status = 202; body = body; replayed = true })
unfolding replay_request
replay_request-answered row body = rw (text_eq_self row.payload_sha256)

store_batch-Answered :
    (config : Config) (now : ℕ) (request : Request) (device : Device) (readings : List ReadingInput)
    (db : Database)
    → let row = reserved_row config now request device db in
      let (response, after) =
        store_batch row device.id now readings
          (reserve row (seen_device now request device readings db)) in
      Answered device.id request.idempotency_key
        (body_sha256 config.sha256 request.body)
        response
        after
unfolding store_batch
store_batch-Answered config now request device readings db =
    let row = reserved_row config now request device db in
    let reserved = reserve row (seen_device now request device readings db) in
    let body = (store_batch row device.id now readings reserved).0.body in
    record {
      row = answered row body;
      found = rw (answer_request_head row body db.ingest_requests) (
          find_request_head device.id request.idempotency_key (answered row body) db.ingest_requests
            refl refl);
      replays = replay_request-answered row body;
    }

-- A replay is a replay of the same answer.
replay_request_again :
    (row : IngestRequest) (digest : Text) (response : Response)
    → replay_request row digest ≡ ok response
    → replay_request row digest ≡ ok (record response { replayed = true })
unfolding replay_request
replay_request_again row digest response h = ground arith

-- Whatever a transaction answered, its key now has that answer.
pub commit_batch-Answered :
    (config : Config) (now : ℕ) (request : Request) (device : Device) (readings : List ReadingInput)
    (db : Database) (response : Response) (after : Database)
    → commit_batch config now request device readings db ≡ ok (response, after)
    → Answered device.id request.idempotency_key
        (body_sha256 config.sha256 request.body)
        response
        after
commit_batch-Answered config now request device readings db response after h =
    elim (Option-cases (find_request device.id request.idempotency_key db.ingest_requests)) [
      | inl fresh ↦
          let e =
            ok-injective (sym (commit_batch_new config now request device readings db fresh) ∙ h) in
          subst
            (λ r.
              Answered device.id request.idempotency_key (body_sha256 config.sha256 request.body)
                r.0 r.1)
            e (store_batch-Answered config now request device readings db)
      | inr (row, found) ↦
          let seen = record (seen_device now request device readings db) {
            next_id = db.next_id + 1;
          } in
          let (r, p, q) =
            >>=-eq-ok (replay_request row (body_sha256 config.sha256 request.body))
              (λ answer. ok (answer, seen))
              (sym (commit_batch_found config now request device readings db row found) ∙ h) in
          subst
            (λ v.
              Answered device.id request.idempotency_key (body_sha256 config.sha256 request.body)
                v.0 v.1)
            (ok-injective q)
            (record {
              row = row;
              found = found;
              replays = replay_request_again row (body_sha256 config.sha256 request.body) r p;
            })
    ]

admit-device :
    (d : Device) (verified : Result Auth.Raised (Unit {0})) (device : Device)
    → admit d verified ≡ ok device
    → d ≡ device
admit-device d (ok u) device h = ok-injective h
admit-device d (err e) device h = absurd (cc)

authenticate-id :
    (config : Config) (clock : ℤ) (request : Request) (devices : List Device) (device : Device)
    → authenticate config clock request devices ≡ ok device
    → device.id ≡ request.device_id
unfolding authenticate
authenticate-id config clock request devices device h =
    let (d, p, h1) =
      >>=-eq-ok (or_raise (get_device request.device_id devices) authentication_failed) _ h in
    let (u, q, h2) = >>=-eq-ok (raise_if (not d.active) authentication_failed) _ h1 in
    rw (← admit-device d _ device h2)
      (get_device-id request.device_id devices d (or_raise-ok _ authentication_failed p))

pub transaction_of_parts :
    (config : Config) (clock : ℤ) (now : ℕ) (request : Request) (db : Database) (device : Device)
    (readings : List ReadingInput)
    → is_idempotency_key request.idempotency_key ≡ true
    → valid_version request.firmware_version ≡ true
    → authenticate config clock request db.devices ≡ ok device
    → read_batch config request ≡ ok readings
    → transaction config clock now request db ≡ commit_batch config now request device readings db
unfolding transaction
transaction_of_parts config clock now request db device readings key version auth read =
    rw (key, version, auth, read)

replay_request_other :
    (row : IngestRequest) (digest : Text)
    → text_eq row.payload_sha256 digest ≡ false
    → replay_request row digest ≡ err idempotency_conflict
unfolding replay_request
replay_request_other row digest h = rw h

commit_batch-IsUnique :
    (config : Config) (now : ℕ) (request : Request) (device : Device) (readings : List ReadingInput)
    (db : Database) (response : Response) (after : Database)
    → IsUnique db.measurements
    → commit_batch config now request device readings db ≡ ok (response, after)
    → IsUnique after.measurements
unfolding store_batch
commit_batch-IsUnique config now request device readings db response after u h =
    elim (Option-cases (find_request device.id request.idempotency_key db.ingest_requests)) [
      | inl fresh ↦
          subst (λ r. IsUnique r.1.measurements)
            (ok-injective (sym (commit_batch_new config now request device readings db fresh) ∙ h))
            (insert_measurements-IsUnique device.id db.next_id now (db.next_id + 1) readings
              db.measurements u)
      | inr (row, found) ↦
          let seen = record (seen_device now request device readings db) {
            next_id = db.next_id + 1;
          } in
          let (r, p, q) =
            >>=-eq-ok (replay_request row (body_sha256 config.sha256 request.body))
              (λ answer. ok (answer, seen))
              (sym (commit_batch_found config now request device readings db row found) ∙ h) in
          subst (λ v. IsUnique v.1.measurements) (ok-injective q) u
    ]

transaction-IsUnique :
    (config : Config) (clock : ℤ) (now : ℕ) (request : Request) (db : Database)
    (response : Response) (after : Database)
    → IsUnique db.measurements
    → transaction config clock now request db ≡ ok (response, after)
    → IsUnique after.measurements
transaction-IsUnique config clock now request db response after u h =
    let (device, readings, key, version, auth, read, done) =
      transaction_parts config clock now request db (response, after) h in
    commit_batch-IsUnique config now request device readings db response after u done

read_batch_again :
    (config : Config) (request again : Request)
    → again.body ≡ request.body
    → again.is_json ≡ request.is_json
    → read_batch config again ≡ read_batch config request
unfolding read_batch
read_batch_again config request again same_body same_type = rw (same_body, same_type) refl

-- Once a request has been answered, sending its body again under its key, signed anew at any later
-- time, gives the same answer marked as replayed; no measurement, event or request row is added or
-- changed. The repeated request must pass authentication and carry a valid version.
pub transaction_retried :
    (config : Config) (clock clock' : ℤ) (now now' : ℕ) (request again : Request) (db : Database)
    (response : Response) (after : Database) (device : Device)
    → transaction config clock now request db ≡ ok (response, after)
    → again.device_id ≡ request.device_id
    → again.idempotency_key ≡ request.idempotency_key
    → again.body ≡ request.body
    → again.is_json ≡ request.is_json
    → valid_version again.firmware_version ≡ true
    → authenticate config clock' again after.devices ≡ ok device
    → (last : Database) × (transaction config clock' now' again after
        ≡ ok (record response { replayed = true }, last))
      × (last.measurements ≡ after.measurements)
      × (last.outbox_events ≡ after.outbox_events)
      × (last.ingest_requests ≡ after.ingest_requests)
unfolding transaction
transaction_retried config clock clock' now now' request again db response after device h
      same_device same_key same_body same_type version' auth' =
    let (first, readings, key, version, auth, read, done) =
      transaction_parts config clock now request db (response, after) h in
    let stored = commit_batch-Answered config now request first readings db response after done in
    let same : first.id ≡ device.id =
      authenticate-id config clock request db.devices first auth
      ∙ (sym same_device ∙ sym (authenticate-id config clock' again after.devices device auth')) in
    let found : find_request device.id again.idempotency_key after.ingest_requests
        ≡ some stored.row =
      rw same_key (rw (← same) stored.found) in
    let replays : replay_request stored.row (body_sha256 config.sha256 again.body)
        ≡ ok (record response { replayed = true }) =
      rw same_body stored.replays in
    let key' : is_idempotency_key again.idempotency_key ≡ true = rw same_key key in
    (
      record (seen_device now' again device readings after) { next_id = after.next_id + 1 },
      transaction_of_parts config clock' now' again after device readings key' version' auth'
            (read_batch_again config request again same_body same_type ∙ read)
          ∙ (commit_batch_found config now' again device readings after stored.row found
              ∙ rw replays),
      refl,
      refl,
      refl,
    )

-- The same for a request that is repeated as it was.
pub transaction_replay :
    (config : Config) (clock clock' : ℤ) (now now' : ℕ) (request : Request) (db : Database)
    (response : Response) (after : Database) (device : Device)
    → transaction config clock now request db ≡ ok (response, after)
    → authenticate config clock' request after.devices ≡ ok device
    → (last : Database) × (transaction config clock' now' request after
        ≡ ok (record response { replayed = true }, last))
      × (last.measurements ≡ after.measurements)
      × (last.outbox_events ≡ after.outbox_events)
      × (last.ingest_requests ≡ after.ingest_requests)
transaction_replay config clock clock' now now' request db response after device h again =
    transaction_retried config clock clock' now now' request request db response after device h refl
      refl refl refl (transaction_parts config clock now request db (response, after) h).3 again

-- A used key with another payload is a conflict, and commits nothing.
pub transaction_conflict :
    (config : Config) (clock : ℤ) (now : ℕ) (request : Request) (db : Database) (metrics : Metrics)
    (device : Device) (readings : List ReadingInput) (row : IngestRequest)
    → is_idempotency_key request.idempotency_key ≡ true
    → valid_version request.firmware_version ≡ true
    → authenticate config clock request db.devices ≡ ok device
    → read_batch config request ≡ ok readings
    → find_request device.id request.idempotency_key db.ingest_requests ≡ some row
    → text_eq row.payload_sha256 (body_sha256 config.sha256 request.body) ≡ false
    → ingest_measurements config clock now request db metrics
      ≡ (err idempotency_conflict, db, observe_latency (count_failure idempotency_conflict metrics))
unfolding ingest_measurements
transaction_conflict config clock now request db metrics device readings row key version auth read
      found other =
    let conflict : transaction config clock now request db ≡ err idempotency_conflict =
      transaction_of_parts config clock now request db device readings key version auth read
      ∙ (commit_batch_found config now request device readings db row found
          ∙ rw (replay_request_other row _ other) refl) in
    rw (conflict, ingest_measurements)

-- The unique constraint on (device, sequence) holds after every request, answered or failed.
pub ingest_measurements-IsUnique :
    (config : Config) (clock : ℤ) (now : ℕ) (request : Request) (db : Database) (metrics : Metrics)
    → IsUnique db.measurements
    → IsUnique (ingest_measurements config clock now request db metrics).1.measurements
unfolding ingest_measurements
ingest_measurements-IsUnique config clock now request db metrics h =
    elim (Result-cases (transaction config clock now request db)) [
      | inl ((response, after), p) ↦
          rw (p, ingest_measurements)
            (transaction-IsUnique config clock now request db response after h p)
      | inr (e, p) ↦ rw (p, ingest_measurements) h
    ]
