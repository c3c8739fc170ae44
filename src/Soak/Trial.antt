-- ===== src/Soak/Trial.antt =====
-- `run_trial` of soak/run_software.py: what it does with the batches and what it counts. The
-- processes, the service and its database are a site of some type `W`; an exception is an error
-- value, and `finally` only stops processes.
pub mod Sound
pub mod Moves
pub mod Accounts
use myaqi_iot_platform.Prelude.{
  ℕ, zero, suc, ◌+◌, ◌-◌, ◌*◌, ◌/◌, min, max, Bool, true, false, ◌&&◌, ◌||◌, not, Option, none,
  some, List, [], ◌∷◌, ◌++◌, ltb, ◌==◌, if◌then◌else◌, length,
}
use myaqi_iot_platform.Prelude.Int.{ℤ, pos, ◌+ℤ◌, leb_ℤ, pos_part}
use myaqi_iot_platform.Prelude.Result.{Result, ok, err, raise_if, or_raise, ◌>>=◌, ◌>>◌}
use myaqi_iot_platform.Python.Text.{Text, Bytes, text_eq}
use myaqi_iot_platform.Python.Float.{Float, int_le, le_int}
use myaqi_iot_platform.Python.Json.{Json}
use myaqi_iot_platform.Soak.Plan.{
  Operation, api_outage, worker_outage, acknowledgement_replay, round_robin_operations,
}
use myaqi_iot_platform.Soak.Batches.{Batch, size, readings_of, build_batches}
pub use myaqi_iot_platform.Soak.Site.{
  TrialError, invalid_fault_counts, invalid_outage, not_a_local_origin, invalid_sizes,
  not_enough_batches, upload_unavailable, upload_refused, unexpected_status, not_covered,
  unexpected_replay, upload_succeeded, not_running, outbox_not_drained, index_error, UploadResult,
  PostOutcome, answered, unavailable, refused, DatabaseReport, Site, Fault, api_fault, worker_fault,
  replay_fault, Trial,
}

abbrev pub eq_bool : Bool → Bool → Bool
eq_bool true b = b
eq_bool false b = not b

abbrev pub eq_ℤ : ℤ → ℤ → Bool
eq_ℤ a b = leb_ℤ a b && leb_ℤ b a

-- `first_result.body.get("request_id") == replay_result.body.get("request_id")`
abbrev pub same_request_identity : Option Text → Option Text → Bool
same_request_identity none none = true
same_request_identity (some a) (some b) = text_eq a b
same_request_identity _ _ = false

-- The batches that an operation takes
abbrev pub reserve : ℕ → Operation → ℕ
reserve buffer api_outage = buffer
reserve buffer worker_outage = buffer
reserve buffer acknowledgement_replay = 1

-- `reserved`
abbrev pub reserved : ℕ → List Operation → ℕ
reserved buffer [] = 0
reserved buffer (o ∷ os) = reserve buffer o + reserved buffer os

-- `steady_count`; a difference below 0 gives 0, as max(0, …) does.
abbrev pub steady_count : ℕ → List Operation → ℕ → ℕ
steady_count buffer os left = (left - reserved buffer os) / (length os + 1)

module _ {W : Type 0} (s : Site W) where
  -- `send`, with the counters after a success
  abbrev pub count_upload : Bool → UploadResult → Trial W → Trial W
  count_upload true r t = record t {
    latencies = t.latencies ++ (r.latency_ms ∷ []);
    replayed_batches = t.replayed_batches + 1;
  }
  count_upload false r t = record t {
    latencies = t.latencies ++ (r.latency_ms ∷ []);
    uploaded_batches = t.uploaded_batches + 1;
    accepted_readings = t.accepted_readings +ℤ r.accepted;
  }

  abbrev pub check_upload :
      Bool → Batch → PostOutcome → Trial W → Result TrialError (UploadResult × Trial W)
  check_upload expect_replay b unavailable t = err upload_unavailable
  check_upload expect_replay b refused t = err upload_refused
  check_upload expect_replay b (answered r) t = do
    raise_if (not (r.status == 202)) unexpected_status
    raise_if (not (eq_ℤ (r.accepted +ℤ r.duplicates) (pos (size b)))) not_covered
    raise_if (not (eq_bool r.replayed expect_replay)) unexpected_replay
    ok (r, count_upload expect_replay r t)

  unfoldable pub send : Bool → Batch → Trial W → Result TrialError (UploadResult × Trial W)
  send expect_replay b t =
      let (outcome, site) = s.post_batch b t.site in
      check_upload expect_replay b outcome (record t { site = site })

  -- `batches.popleft()`
  abbrev pub popleft : Trial W → List Batch → Result TrialError (Batch × Trial W)
  popleft t [] = err index_error
  popleft t (b ∷ bs) = ok (b, record t { batches = bs })

  -- `[batches.popleft() for _ in range(n)]`
  unfoldable pub pop_batches : ℕ → Trial W → Result TrialError (List Batch × Trial W)
  pop_batches zero t = ok ([], t)
  pop_batches (suc n) t = do
    (b, popped) ← popleft t t.batches
    (bs, last) ← pop_batches n popped
    ok (b ∷ bs, last)

  -- `for batch in buffered: send(batch)`
  unfoldable pub send_all : List Batch → Trial W → Result TrialError (Trial W)
  unfolding send
  send_all [] t = ok t
  send_all (b ∷ bs) t = do (r, sent) ← send false b t; send_all bs sent

  -- `send_steady`, when the count is not more than the batches that are left
  unfoldable pub send_next : ℕ → Trial W → Result TrialError (Trial W)
  unfolding send
  send_next zero t = ok t
  send_next (suc n) t = do
    (b, popped) ← popleft t t.batches
    (r, sent) ← send false b popped
    send_next n sent

  unfoldable pub send_steady : ℕ → Trial W → Result TrialError (Trial W)
  unfolding send_next
  send_steady count t = send_next (min count (length t.batches)) t

  -- The single upload during an outage, which must not get through
  abbrev pub expect_unavailable : PostOutcome → Trial W → Result TrialError (Trial W)
  expect_unavailable unavailable t =
      ok (record t { failed_upload_attempts = t.failed_upload_attempts + 1 })
  expect_unavailable refused t = err upload_refused
  expect_unavailable (answered r) t = err upload_succeeded

  -- `buffered[0]`
  abbrev pub try_first : List Batch → Trial W → Result TrialError (Trial W)
  try_first [] t = err index_error
  try_first (b ∷ bs) t =
      let (outcome, site) = s.post_batch b t.site in
      expect_unavailable outcome (record t { site = site })

  abbrev pub start_api : Trial W → Result TrialError (Trial W)
  start_api t = do
    site ← or_raise (s.start_api t.site) not_running
    ok (record t { site = site; api_starts = t.api_starts + 1 })

  abbrev pub start_worker : Trial W → Result TrialError (Trial W)
  start_worker t = do
    site ← or_raise (s.start_worker t.site) not_running
    ok (record t { site = site; worker_starts = t.worker_starts + 1 })

  abbrev pub wait_for_outbox : Trial W → Result TrialError (Trial W)
  wait_for_outbox t = do
    site ← or_raise (s.wait_for_outbox t.site) outbox_not_drained
    ok (record t { site = site })

  abbrev pub add_fault : Fault → Trial W → Trial W
  add_fault f t = record t { faults = t.faults ++ (f ∷ []) }

  -- `time.sleep(args.outage_seconds)`
  abbrev pub sleep : Trial W → Trial W
  sleep t = record t { site = s.sleep t.site }

  unfoldable pub run_api_outage : ℕ → Trial W → Result TrialError (Trial W)
  unfolding pop_batches send_all
  run_api_outage buffer t = do
    (buffered, popped) ← pop_batches buffer (record t { site = s.stop_api t.site })
    tried ←
        try_first buffered
          (record popped { max_device_queue = max popped.max_device_queue (readings_of buffered) })
    started ← start_api (sleep tried)
    sent ← send_all buffered started
    ok (add_fault (api_fault (readings_of buffered)) sent)

  unfoldable pub run_worker_outage : ℕ → Trial W → Result TrialError (Trial W)
  unfolding pop_batches send_all
  run_worker_outage buffer t = do
    (buffered, popped) ← pop_batches buffer (record t { site = s.stop_worker t.site })
    sent ← send_all buffered popped
    let queued = s.pending sent.site
    started ←
        start_worker
          (sleep (record sent { max_outbox_pending = max sent.max_outbox_pending queued }))
    drained ← wait_for_outbox started
    ok (add_fault (worker_fault queued) drained)

  unfoldable pub run_replay : Trial W → Result TrialError (Trial W)
  unfolding send
  run_replay t = do
    (b, popped) ← popleft t t.batches
    (first, sent) ← send false b popped
    (again, replayed) ← send true b sent
    let same = same_request_identity first.request_id again.request_id
    ok (add_fault (replay_fault b.first_sequence b.last_sequence same) replayed)

  unfoldable pub run_operation : ℕ → Operation → Trial W → Result TrialError (Trial W)
  unfolding run_api_outage run_worker_outage run_replay
  run_operation buffer api_outage t = run_api_outage buffer t
  run_operation buffer worker_outage t = run_worker_outage buffer t
  run_operation buffer acknowledgement_replay t = run_replay t

  unfoldable pub run_operations : ℕ → List Operation → Trial W → Result TrialError (Trial W)
  unfolding run_operation send_steady
  run_operations buffer [] t = ok t
  run_operations buffer (o ∷ os) t = do
    steady ← send_steady (steady_count buffer (o ∷ os) (length t.batches)) t
    faulted ← run_operation buffer o steady
    run_operations buffer os faulted
