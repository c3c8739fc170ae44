-- ===== src/System/Exchanges.antt =====
-- An exchange of the device with the service: a batch that is delivered.
use myaqi_iot_platform.Prelude.{ℕ, ◌+◌, ◌≤◌, ◌≡◌, refl, true, false, Option, none, ltb, all, All}
use myaqi_iot_platform.Prelude.Int.{ℤ}
use myaqi_iot_platform.Python.Text.{Text, Bytes}
use myaqi_iot_platform.Python.Json.{Json}
use myaqi_iot_platform.Firmware.State.Valid.{IsState}
use myaqi_iot_platform.Firmware.Store.{save}
use myaqi_iot_platform.Firmware.Client.{batch, batch_key, is_empty_queue}
use myaqi_iot_platform.Backend.Models.{Database}
use myaqi_iot_platform.Backend.Ingestion.{or_zero, Config, Metrics, find_request}
use myaqi_iot_platform.Backend.Ingestion.Batches.{max_integer}
use myaqi_iot_platform.Backend.App.{HttpResponse, no_fault}
use myaqi_iot_platform.System.{
  Network, delivered, request_lost, response_lost, after_network, answer_of, Exchange, Platform,
  exchange, serve,
}
use myaqi_iot_platform.System.Upload.{IsRegistered, IsTimely, IsReadable}
use myaqi_iot_platform.System.Delivery.{
  HasNewEvent, IsStored, Uploaded, acknowledged_state, transaction_stores, flush_one-Uploaded,
  serve_committed,
}

-- The upload of a batch can succeed: the device is known, its clock is right, there is a batch that
-- the service can read, and the columns of the service can hold its sequences.
pub record CanUpload (config : Config) (dumps : Json → Bytes) (x : Exchange) (p : Platform)
    : Type 0 where
  pub registered : IsRegistered config p.client p.database.devices
  pub timely : IsTimely config x.device_time x.clock
  pub readable : IsReadable config dumps p.client
  pub valid : IsState p.client.state
  pub size : 1 ≤ p.client.batch_size
  pub range : p.client.state.next_sequence ≤ max_integer + 1
  pub last : or_zero registered.device.last_sequence ≤ max_integer
  pub filled : is_empty_queue p.client.state.pending ≡ false

pub after_network_delivered :
    (n : Network) (served : HttpResponse × Database × Metrics) (p : Platform)
    → n ≡ delivered
    → after_network n served p ≡ (answer_of served.0, served.1, served.2)
after_network_delivered delivered served p h = refl
after_network_delivered request_lost served p h = absurd (cc)
after_network_delivered response_lost served p h = absurd (cc)

module _ (config : Config) (uuid : ℕ → Text) (parse_int : Text → Option ℤ) (dumps : Json → Bytes)
    (digest : (m : Bytes) → all (λ b. ltb b 256) (config.sha256 m) ≡ true) where
  -- A batch that can be uploaded, under a new key, that the network delivers, with a database that
  -- works and a shorter queue that the device can save, is off the queue of the device. The service
  -- has a row for each of its readings, with the values of the reading unless there was a row for
  -- its sequence before, and one new event in the outbox.
  pub exchange_delivered :
      (x : Exchange) (p : Platform)
      → CanUpload config dumps x p
      → find_request p.client.device_id
          (batch_key p.client.device_id (batch p.client))
          p.database.ingest_requests
        ≡ none
      → x.network ≡ delivered
      → x.database_fault ≡ no_fault
      → (save x.store_faults (acknowledged_state p.client) p.client.files).0 ≡ true
      → let (result, after) = exchange config uuid dumps parse_int x p in
        Uploaded p.client (result, after.client)
        × All
            (IsStored config.fromisoformat p.client.device_id p.database.measurements
              after.database.measurements)
            (batch p.client)
        × HasNewEvent p.client p.database.outbox_events after.database.outbox_events
  unfolding exchange
  exchange_delivered x p h fresh network sound saved =
      let (r, after, done, accepts, stored, event) =
        transaction_stores config dumps p.client x.device_time x.clock x.now p.database digest
          h.registered h.timely h.readable h.valid h.size h.filled h.range h.last fresh in
      let (answer, kept) = serve_committed config uuid dumps x p r after sound done in
      rw (h.filled, after_network_delivered x.network (serve config uuid dumps x p) p network)
        (rw (answer, kept)
          (
            flush_one-Uploaded uuid parse_int x.store_faults p.client r accepts h.filled saved,
            stored,
            event,
          ))
