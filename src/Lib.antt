-- ===== src/Lib.antt =====
-- A model of the myAQI platform, and proofs about it.
--
-- myAQI measures fine dust. A device (AdafruitCode, CircuitPython) reads its sensor, keeps the
-- readings in a queue in its flash, and uploads them in signed batches to a Flask service
-- (backend/src/myaqi_backend), which stores each reading once and leaves one event for each batch in
-- an outbox table. A worker claims these events and publishes them. An operator has commands that
-- provision devices, look for gaps, and replay dead events.
--
-- The device, Firmware:
--   Signing: the functions of AdafruitCode/myaqi_client.py (hmac_sha256, sign_request,
--     decode_device_secret, format_utc). Protocol sets them against the service's.
--   State: the state document of JsonStateStore. `state_json` is what save writes of it and
--     `read_state` the checks of _read. Valid has the states in order, RoundTrip and Accepted relate
--     them to `read_state`.
--   Store: load and save on the three files of JsonStateStore. Crashes has power failures, Faults
--     file system calls that fail.
--   Client: MyAQIClient (__init__, enqueue, flush_one, flush, diagnostics), with the proofs in
--     Queue, Uploads and Flushes.
--   Control: AdafruitCode/code.py (the start, updateAQIInfo, checkResetButton and the main loop), with
--     the proofs in Updates, Loop and Startup.
-- The service, Backend:
--   Models: the tables of models.py, as lists of rows.
--   Auth: auth.py. Verify says which requests pass.
--   Validation: parse_batch of validation.py, on decoded JSON. Readings says what it returns.
--   Ingestion: the handler of ingestion.py with the metrics that it counts. Tables has the unique
--     rows, Devices the heartbeats, Batches what a new batch stores, Statuses what is answered, Replays what a repeated request does.
--   Outbox: outbox.py and replay_event of admin.py; Main has the publishers and the loop of main.
--     Claims, Ownership, Worker, Settlements, Lifecycle, Counts and Replay have the proofs about a call, Rounds
--     and Drains those about the loop, Table and Rows the lemmas on rows that they share.
--   Admin: the other commands of admin.py. Ranges and Verification are about gaps, Devices about
--     provision_device.
--   Settings: config.py. Sources says where the database's URL comes from.
--   App: app.py and errors.py, the application around the endpoint. Answers says what a client can
--     rely on.
-- Both, System: one upload from the queue of the device to the tables of the service and back. A
--   network delivers, or loses the request or the response. Batches and Keys are about what the service
--   reads of an upload, Upload about letting the device in, Delivery about what an upload leaves on
--   both sides; Exchanges has a delivered upload, and Retries one whose response is lost.
-- The software trial, Soak: soak/run_software.py. Plan has round_robin_operations, Batches
--   build_batches, Site the processes and services that a trial meets, Trial the operations,
--   and Run run_trial as a whole. Below Trial, Sound, Moves and Accounts follow the deque and the
--   counters through each call; Outcomes says how a trial ends.
-- A release, Deploy: scripts/deploy/render_task_definition.py; Rendered says what it gives.
-- Shared: Prelude (names of the libraries, tests, lists, integers, results) and Python (texts, floats,
-- JSON).
--
-- State is passed explicitly: a client or a database goes in, and the next one comes out beside the
-- answer. An exception is a value, of Option where the code tells no two apart and of Result
-- elsewhere. A transaction that fails gives no database, so nothing of it is kept.
--
-- Numbers are exact: int is the integers, and a float is a whole multiple of 2 ^ -1074, or an
-- infinity, or nan. Loops are structural recursions: over the batch, the rows, the rounds of flush
-- and of the worker, the operations of a trial.
-- Fuel stands in `decimal` (a number has fewer digits than its value and one) and in `excess_bits`
-- (a number has fewer bits than its value and one); the plan of a trial has as many operations as
-- were asked for, and no more batches than readings.
--
-- Parameters, as the code beneath them is not in the repository: SHA-256, Base64, int() on text, the
-- parser and the printer of JSON, datetime.fromisoformat, localtime, the network, the file system's
-- faults, clocks, the client of SNS, and the processes of a trial.
--
-- Not modelled: SQL beyond the statements used (a table is a list, a unique constraint a test before
-- the insert, SKIP LOCKED a set of rows that another transaction holds), the interleaving of two
-- transactions on one row, which the database orders, HTTP routing and logging,
-- the ranges of integer columns,
-- the SNS client, migrations, the hardware trial,
-- Terraform, and the legacy prototype. Of the device program: getAQI, whose result is only
-- printed, the pages of the set-up server but for updateCredentials, a client with a float for a
-- queue limit, the files of the configuration, the LED.
pub mod Prelude
pub mod Python
pub mod Firmware
pub mod Backend
pub mod System
pub mod Soak
pub mod Deploy
