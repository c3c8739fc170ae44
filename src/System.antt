-- ===== src/System.antt =====
-- The device and the service together: `flush_one` of AdafruitCode/myaqi_client.py against the upload
-- route of backend/src/myaqi_backend/app.py. The network delivers a request and its response, or
-- loses one of them.
pub mod Batches
pub mod Keys
pub mod Upload
pub mod Delivery
pub mod Exchanges
pub mod Retries
mod Tests
use myaqi_iot_platform.Prelude.{ℕ, true, Option, some, if◌then◌else◌}
use myaqi_iot_platform.Prelude.Int.{ℤ}
use myaqi_iot_platform.Prelude.Result.{Result}
use myaqi_iot_platform.Python.Text.{Text, Bytes, codes}
use myaqi_iot_platform.Python.Json.{Json}
use myaqi_iot_platform.Firmware.Store.{FaultPlan}
use myaqi_iot_platform.Firmware.Client.{
  Client, Request as DeviceRequest, Answer, lost, response, upload_path, upload_request,
  is_empty_queue, flush_one, FlushError, Flushed,
}
use myaqi_iot_platform.Backend.Models.{Database}
use myaqi_iot_platform.Backend.Ingestion.{Request, Config, Metrics}
use myaqi_iot_platform.Backend.App.{HttpResponse, DatabaseFault, upload}

-- What Flask hands to the endpoint for a request of the device
abbrev pub service_request : Text → DeviceRequest → Request
service_request device r = record {
  device_id = device;
  body = r.body;
  idempotency_key = r.idempotency_key;
  firmware_version = some r.firmware_version;
  timestamp = some r.timestamp;
  signature = some r.signature;
  method = codes "POST";
  path = upload_path device;
  is_json = true;
}

-- The response as the device's session sees it
abbrev pub answer_of : HttpResponse → Answer
answer_of r = response r.status r.body

pub data Network : Type 0 where
  delivered request_lost response_lost : Network

-- What one exchange meets: the device's clock, the service's clocks, the id of the request, the text
-- of a PayloadError, and what fails
pub record Exchange : Type 0 where
  pub network : Network
  pub device_time : ℕ
  pub clock : ℤ
  pub now : ℕ
  pub request_id : Text
  pub detail : Text
  pub database_fault : DatabaseFault
  pub store_faults : FaultPlan

pub record Platform : Type 0 where
  pub client : Client
  pub database : Database
  pub metrics : Metrics

-- What reaches the device, and what the service has kept
abbrev pub after_network :
    Network → HttpResponse × Database × Metrics → Platform → Answer × Database × Metrics
after_network delivered (r, db, m) p = (answer_of r, db, m)
after_network response_lost (r, db, m) p = (lost, db, m)
after_network request_lost served p = (lost, p.database, p.metrics)

module _ (config : Config) (uuid : ℕ → Text) (dumps : Json → Bytes) where
  -- The service's part of an exchange
  unfoldable pub serve : Exchange → Platform → HttpResponse × Database × Metrics
  serve x p =
      upload config uuid x.detail x.request_id x.database_fault x.clock x.now
        (service_request p.client.device_id
          (upload_request config.sha256 dumps x.device_time p.client))
        p.database p.metrics

  -- One call of `flush_one`: an empty queue sends nothing.
  unfoldable pub exchange :
      (Text → Option ℤ) → Exchange → Platform → Result FlushError Flushed × Platform
  exchange parse_int x p =
      let sent = after_network x.network (serve x p) p in
      let (answer, db, m) =
        if is_empty_queue p.client.state.pending then (lost, p.database, p.metrics) else sent in
      let (result, client) = flush_one parse_int x.store_faults answer p.client in
      (result, record { client = client; database = db; metrics = m })
