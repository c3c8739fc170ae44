-- ===== src/System/Retries.antt =====
-- Exchanges again: a batch whose response is lost, and that the device sends again.
use myaqi_iot_platform.Prelude.{
  ℕ, ◌≡◌, refl, sym, ap, ◌∙◌, inl, inr, true, false, Option, none, List, ltb, all, All,
  Option-cases,
}
use mathlib.Core.Path.{subst}
use myaqi_iot_platform.Prelude.Int.{ℤ}
use myaqi_iot_platform.Prelude.Result.{ok, >>=-eq-ok, ok-injective}
use myaqi_iot_platform.Python.Text.{Text, Bytes}
use myaqi_iot_platform.Python.Json.{Json}
use myaqi_iot_platform.Firmware.Store.{save}
use myaqi_iot_platform.Firmware.Client.{
  Client, lost, batch, batch_key, upload_request, is_empty_queue, flush_one, failed, settle_upload,
  acknowledged,
}
use myaqi_iot_platform.Backend.Models.{Device, Measurement, Database}
use myaqi_iot_platform.Backend.Validation.{ReadingInput}
use myaqi_iot_platform.Backend.Ingestion.{
  Request, Config, Metrics, Response, put_device, find_request, update_device, store_batch,
  replay_request, transaction, commit_batch,
}
use myaqi_iot_platform.Backend.Auth.{body_sha256}
use myaqi_iot_platform.Backend.Ingestion.Devices.{get_put_found}
use myaqi_iot_platform.Backend.Ingestion.Batches.{
  transaction_parts, commit_batch_new, commit_batch_found,
}
use myaqi_iot_platform.Backend.Ingestion.Replays.{transaction_retried}
use myaqi_iot_platform.Backend.Ingestion.Devices.{get_device-id}
use myaqi_iot_platform.Backend.App.{HttpResponse, no_fault}
use myaqi_iot_platform.System.{
  Network, delivered, request_lost, response_lost, after_network, Exchange, Platform, exchange,
  serve,
}
use myaqi_iot_platform.System.Upload.{
  IsRegistered, IsTimely, device_request, authenticate-device_request,
}
use myaqi_iot_platform.System.Delivery.{
  HasNewEvent, IsStored, Accepts, Uploaded, acknowledged_state, transaction_stores,
  flush_one-Uploaded, serve_committed,
}
use myaqi_iot_platform.System.Exchanges.{CanUpload, after_network_delivered}

-- After any answer the device has its heartbeat, and else the row that it had.
commit_batch-devices :
    (config : Config) (now : ℕ) (request : Request) (device : Device) (readings : List ReadingInput)
    (db : Database) (response : Response) (after : Database)
    → commit_batch config now request device readings db ≡ ok (response, after)
    → after.devices
      ≡ put_device (update_device now request.firmware_version readings device) db.devices
unfolding store_batch
commit_batch-devices config now request device readings db response after h =
    elim (Option-cases (find_request device.id request.idempotency_key db.ingest_requests)) [
      | inl fresh ↦ sym (
          ap (λ (v : Response × Database). v.1.devices)
            (ok-injective (sym (commit_batch_new config now request device readings db fresh) ∙ h)))
      | inr (row, found) ↦
          let (r, p, q) =
            >>=-eq-ok (replay_request row (body_sha256 config.sha256 request.body)) _
              (sym (commit_batch_found config now request device readings db row found) ∙ h) in
          sym (ap (λ (v : Response × Database). v.1.devices) (ok-injective q))
    ]

-- The device stays registered.
transaction-IsRegistered :
    (config : Config) (dumps : Json → Bytes) (x : Exchange) (p : Platform) (response : Response)
    (after : Database)
    → ((m : Bytes) → all (λ b. ltb b 256) (config.sha256 m) ≡ true)
    → CanUpload config dumps x p
    → transaction config x.clock x.now
        (device_request config dumps p.client x.device_time)
        p.database
      ≡ ok (response, after)
    → IsRegistered config p.client after.devices
unfolding update_device
transaction-IsRegistered config dumps x p response after digest h done =
    let request = device_request config dumps p.client x.device_time in
    let known = h.registered in
    let (first, readings, key, version, auth, read, committed) =
      transaction_parts config x.clock x.now request p.database (response, after) done in
    let same : first ≡ known.device = ok-injective (
      sym auth
      ∙ authenticate-device_request config dumps p.client x.device_time x.clock p.database.devices
          digest known h.timely) in
    let seen = update_device x.now request.firmware_version readings known.device in
    let devices : after.devices ≡ put_device seen p.database.devices =
      commit_batch-devices config x.now request known.device readings p.database response after (
        subst (λ d. commit_batch config x.now request d readings p.database ≡ ok (response, after))
          same committed) in
    let id = get_device-id p.client.device_id p.database.devices known.device known.found in
    record {
      device = seen;
      found =
          rw devices
            (get_put_found p.client.device_id seen known.device p.database.devices id known.found);
      active = known.active;
      secret = known.secret;
    }

after_network_lost :
    (n : Network) (served : HttpResponse × Database × Metrics) (p : Platform)
    → n ≡ response_lost
    → after_network n served p ≡ (lost, served.1, served.2)
after_network_lost response_lost served p h = refl
after_network_lost delivered served p h = absurd (cc)
after_network_lost request_lost served p h = absurd (cc)

-- The client after an upload without an answer
abbrev pub retrying : Exchange → Client → Client
retrying x c = record c {
  state = failed none c.state;
  files = (save x.store_faults (failed none c.state) c.files).1;
}

module _ (config : Config) (uuid : ℕ → Text) (parse_int : Text → Option ℤ) (dumps : Json → Bytes)
    (digest : (m : Bytes) → all (λ b. ltb b 256) (config.sha256 m) ≡ true) where
  exchange_lost :
      (x : Exchange) (p : Platform)
      → is_empty_queue p.client.state.pending ≡ false
      → x.network ≡ response_lost
      → (exchange config uuid dumps parse_int x p).1 ≡ record {
        client = retrying x p.client;
        database = (serve config uuid dumps x p).1;
        metrics = (serve config uuid dumps x p).2;
      }
  unfolding exchange flush_one settle_upload acknowledged
  exchange_lost x p filled network =
      rw (filled, after_network_lost x.network (serve config uuid dumps x p) p network) refl

  -- The second of two uploads, when the first has been committed and its response lost
  retry_delivered :
      (x y : Exchange) (p : Platform) (r : Response) (after : Database) (m : Metrics)
      → CanUpload config dumps x p
      → transaction config x.clock x.now
          (device_request config dumps p.client x.device_time)
          p.database
        ≡ ok (r, after)
      → Accepts p.client r
      → All
          (IsStored config.fromisoformat p.client.device_id p.database.measurements
            after.measurements)
          (batch p.client)
      → IsTimely config y.device_time y.clock
      → y.network ≡ delivered
      → y.database_fault ≡ no_fault
      → (save y.store_faults
          (acknowledged_state (retrying x p.client))
          (retrying x p.client).files).0
        ≡ true
      → let middle : Platform = record {
        client = retrying x p.client;
        database = after;
        metrics = m;
      } in
        let (result, last) = exchange config uuid dumps parse_int y middle in
        Uploaded middle.client (result, last.client)
        × All
            (IsStored config.fromisoformat p.client.device_id p.database.measurements
              last.database.measurements)
            (batch p.client)
        × (last.database.measurements ≡ after.measurements)
        × (last.database.outbox_events ≡ after.outbox_events)
  unfolding exchange upload_request
  retry_delivered x y p r after m h done accepts stored timely network sound saved =
      let c = retrying x p.client in
      let middle : Platform = record { client = c; database = after; metrics = m } in
      let known : IsRegistered config c after.devices =
        let k = transaction-IsRegistered config dumps x p r after digest h done in
        record { device = k.device; found = k.found; active = k.active; secret = k.secret } in
      let auth =
        authenticate-device_request config dumps c y.device_time y.clock after.devices digest known
          timely in
      let (last, again, measurements, events, rows) =
        transaction_retried config x.clock y.clock x.now y.now
          (device_request config dumps p.client x.device_time)
          (device_request config dumps c y.device_time) p.database r after known.device done refl
          refl refl refl h.readable.version auth in
      let replayed : Response = record r { replayed = true } in
      let (answer, kept) = serve_committed config uuid dumps y middle replayed last sound again in
      let accepted : Accepts c replayed = record {
        status = accepts.status;
        accounted = accepts.accounted;
      } in
      rw
        (
          h.filled,
          after_network_delivered y.network (serve config uuid dumps y middle) middle network,
        )
        (rw (answer, kept)
          (
            flush_one-Uploaded uuid parse_int y.store_faults c replayed accepted h.filled saved,
            subst
                (λ (ms : List Measurement).
                  All (IsStored config.fromisoformat p.client.device_id p.database.measurements ms)
                    (batch p.client))
                (sym measurements) stored,
            measurements,
            events,
          ))

  -- A batch that can be uploaded, under a new key, is committed and the response is lost. When the
  -- device asks again within the clock window, the network and the database work, and the device can
  -- save the shorter queue, then the batch is off its queue. The service has a row for each of its
  -- readings, with the values of the reading unless there was a row for its sequence before; the two
  -- requests have left one new event; and the second has added no measurement and no event.
  pub exchange_retried :
      (x y : Exchange) (p : Platform)
      → CanUpload config dumps x p
      → find_request p.client.device_id
          (batch_key p.client.device_id (batch p.client))
          p.database.ingest_requests
        ≡ none
      → x.network ≡ response_lost
      → x.database_fault ≡ no_fault
      → IsTimely config y.device_time y.clock
      → y.network ≡ delivered
      → y.database_fault ≡ no_fault
      → (save y.store_faults
          (acknowledged_state (retrying x p.client))
          (retrying x p.client).files).0
        ≡ true
      → let middle = (exchange config uuid dumps parse_int x p).1 in
        let (result, last) = exchange config uuid dumps parse_int y middle in
        Uploaded middle.client (result, last.client)
        × All
            (IsStored config.fromisoformat p.client.device_id p.database.measurements
              last.database.measurements)
            (batch p.client)
        × HasNewEvent p.client p.database.outbox_events last.database.outbox_events
        × (last.database.measurements ≡ middle.database.measurements)
        × (last.database.outbox_events ≡ middle.database.outbox_events)
  exchange_retried x y p h fresh lost_answer sound timely network again saved =
      let (r, after, done, accepts, stored, event) =
        transaction_stores config dumps p.client x.device_time x.clock x.now p.database digest
          h.registered h.timely h.readable h.valid h.size h.filled h.range h.last fresh in
      let (answer, kept) = serve_committed config uuid dumps x p r after sound done in
      let (uploaded, rows, measurements, events) =
        retry_delivered x y p r after (serve config uuid dumps x p).2 h done accepts stored timely
          network again saved in
      let new = subst (HasNewEvent p.client p.database.outbox_events) (sym events) event in
      rw (exchange_lost x p h.filled lost_answer)
        (rw kept (uploaded, rows, new, measurements, events))
