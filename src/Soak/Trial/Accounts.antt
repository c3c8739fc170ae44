-- ===== src/Soak/Trial/Accounts.antt =====
-- What the operations of a trial take off the deque and add to the counters.
use myaqi_iot_platform.Prelude.{
  ℕ, ◌+◌, ◌-◌, ◌≤◌, min, max, ◌≡◌, refl, true, false, List, [], ◌∷◌, arith, length, length-append,
}
use native.Mathlib.Nat.{div-le_self}
use myaqi_iot_platform.Soak.Plan.{
  Operation, api_outage, worker_outage, acknowledgement_replay, is_api_outage, is_worker_outage,
  is_replay, count,
}
use myaqi_iot_platform.Soak.Batches.{Batch, readings_of}
use myaqi_iot_platform.Soak.Trial.{
  UploadResult, PostOutcome, answered, unavailable, refused, Site, Trial, Fault, api_fault,
  worker_fault, sleep, not_running, outbox_not_drained, send, popleft, pop_batches, send_all,
  send_next, send_steady, try_first, expect_unavailable, start_api, start_worker, wait_for_outbox,
  add_fault, run_api_outage, run_worker_outage, run_replay, run_operation, run_operations, reserve,
  reserved, steady_count,
}
use myaqi_iot_platform.Soak.Trial.Sound.{Sound, Sound-bind, Sound-imp, Sound-or_raise}
use myaqi_iot_platform.Soak.Trial.Moves.{
  Sound-send, Sound-popleft, Sound-pop_batches, Sound-send_all, Sound-send_next, Sound-then, Delta,
  plus, nothing, popping, sending, replaying, failing, faulting, starting_api, starting_worker,
  Tally, tally, Adds, Adds-trans, Adds-same, Moved, unmoved,
}

abbrev pub operation_delta : ℕ → Operation → Delta
operation_delta buffer api_outage = record nothing {
  popped = buffer;
  sent = buffer;
  failed = 1;
  faults = 1;
  apis = 1;
}
operation_delta buffer worker_outage = record nothing {
  popped = buffer;
  sent = buffer;
  faults = 1;
  workers = 1;
}
operation_delta buffer acknowledgement_replay = record nothing {
  popped = 1;
  sent = 1;
  replayed = 1;
  faults = 1;
}

module _ {W : Type 0} (s : Site W) where
  Moved-add_fault : (f : Fault) (t : Trial W) → Moved faulting t (add_fault s f t)
  Moved-add_fault f t = record {
    popped = omega arith;
    sent = omega arith;
    replayed = omega arith;
    failed = omega arith;
    faults = omega (arith, length-append {0} t.faults (f ∷ []));
    apis = omega arith;
    workers = omega arith;
    timed = omega arith;
  }

  pub Sound-start_api : (t : Trial W) → Sound (Moved starting_api t) (start_api s t)
  Sound-start_api t =
      Sound-or_raise (Moved starting_api t) (s.start_api t.site) not_running _ refl (λ site.
        record {
          popped = omega arith;
          sent = omega arith;
          replayed = omega arith;
          failed = omega arith;
          faults = omega arith;
          apis = omega arith;
          workers = omega arith;
          timed = omega arith;
        })

  pub Sound-start_worker : (t : Trial W) → Sound (Moved starting_worker t) (start_worker s t)
  Sound-start_worker t =
      Sound-or_raise (Moved starting_worker t) (s.start_worker t.site) not_running _ refl (λ site.
        record {
          popped = omega arith;
          sent = omega arith;
          replayed = omega arith;
          failed = omega arith;
          faults = omega arith;
          apis = omega arith;
          workers = omega arith;
          timed = omega arith;
        })

  pub Sound-wait_for_outbox : (t : Trial W) → Sound (Moved nothing t) (wait_for_outbox s t)
  Sound-wait_for_outbox t =
      Sound-or_raise (Moved nothing t) (s.wait_for_outbox t.site) outbox_not_drained _ refl
        (λ site. unmoved s t)

  Sound-try_first :
      (bs : List Batch) (t : Trial W) → 1 ≤ length bs → Sound (Moved failing t) (try_first s bs t)
  Sound-try_first [] t h = absurd (omega arith)
  Sound-try_first (b ∷ bs) t h = tried (s.post_batch b t.site).0
    where
      tried :
          (o : PostOutcome)
          → Sound
              (Moved failing t)
              (expect_unavailable s o (record t { site = (s.post_batch b t.site).1 }))
      tried unavailable = record {
        popped = omega arith;
        sent = omega arith;
        replayed = omega arith;
        failed = omega arith;
        faults = omega arith;
        apis = omega arith;
        workers = omega arith;
        timed = omega arith;
      }
      tried refused = refl
      tried (answered r) = refl

  Sound-run_api_outage :
      (buffer : ℕ) (t : Trial W)
      → 1 ≤ buffer
      → buffer ≤ length t.batches
      → Sound (Moved (operation_delta buffer api_outage) t) (run_api_outage s buffer t)
  unfolding run_api_outage
  Sound-run_api_outage buffer t some_batch h =
      let Done : Trial W → Type 0 = Moved (operation_delta buffer api_outage) t in
      let start = record t { site = s.stop_api t.site } in
      Sound-bind
        (λ (v : List Batch × Trial W). Moved (popping buffer) t v.1 × (length v.0 ≡ buffer)) Done
        (pop_batches s buffer start) _ (Sound-pop_batches s buffer start h)
        (λ v m.
          let rest = plus failing (plus starting_api (plus (sending (length v.0)) faulting)) in
          let begun = record v.1 {
            max_device_queue = max v.1.max_device_queue (readings_of v.0);
          } in
          Sound-imp (Moved rest v.1) Done _
            (Sound-then s failing (plus starting_api (plus (sending (length v.0)) faulting)) begun
              (try_first s v.0 begun) _ (Sound-try_first v.0 begun (omega (arith, m.1)))
              (λ tried _.
                Sound-then s starting_api (plus (sending (length v.0)) faulting) (sleep s tried)
                  (start_api s (sleep s tried)) _ (Sound-start_api (sleep s tried))
                  (λ started _.
                    Sound-then s (sending (length v.0)) faulting started (send_all s v.0 started) _
                      (Sound-send_all s v.0 started)
                      (λ sent _. Moved-add_fault (api_fault (readings_of v.0)) sent))))
            (λ u k.
              Adds-same (plus (popping buffer) rest) _ (tally t) (tally u)
                (Adds-trans (popping buffer) rest (tally t) (tally v.1) (tally u) m.0 k)
                (omega arith) (omega (arith, m.1)) refl refl refl refl refl))

  Sound-run_worker_outage :
      (buffer : ℕ) (t : Trial W)
      → buffer ≤ length t.batches
      → Sound (Moved (operation_delta buffer worker_outage) t) (run_worker_outage s buffer t)
  unfolding run_worker_outage
  Sound-run_worker_outage buffer t h =
      let Done : Trial W → Type 0 = Moved (operation_delta buffer worker_outage) t in
      let start = record t { site = s.stop_worker t.site } in
      Sound-bind
        (λ (v : List Batch × Trial W). Moved (popping buffer) t v.1 × (length v.0 ≡ buffer)) Done
        (pop_batches s buffer start) _ (Sound-pop_batches s buffer start h)
        (λ v m.
          let rest = plus (sending (length v.0)) (plus starting_worker (plus nothing faulting)) in
          Sound-imp (Moved rest v.1) Done _
            (Sound-then s (sending (length v.0)) (plus starting_worker (plus nothing faulting)) v.1
              (send_all s v.0 v.1) _ (Sound-send_all s v.0 v.1)
              (λ sent _.
                let queued = s.pending sent.site in
                let slept =
                  sleep s
                    (record sent { max_outbox_pending = max sent.max_outbox_pending queued }) in
                Sound-then s starting_worker (plus nothing faulting) slept (start_worker s slept) _
                  (Sound-start_worker slept)
                  (λ started _.
                    Sound-then s nothing faulting started (wait_for_outbox s started) _
                      (Sound-wait_for_outbox started)
                      (λ drained _. Moved-add_fault (worker_fault queued) drained))))
            (λ u k.
              Adds-same (plus (popping buffer) rest) _ (tally t) (tally u)
                (Adds-trans (popping buffer) rest (tally t) (tally v.1) (tally u) m.0 k)
                (omega arith) (omega (arith, m.1)) refl refl refl refl refl))

  Sound-run_replay :
      (t : Trial W)
      → 1 ≤ length t.batches
      → Sound (Moved (operation_delta 1 acknowledgement_replay) t) (run_replay s t)
  unfolding run_replay
  Sound-run_replay t h =
      let Done : Trial W → Type 0 = Moved (operation_delta 1 acknowledgement_replay) t in
      Sound-bind (λ (v : Batch × Trial W). Moved (popping 1) t v.1) Done (popleft s t t.batches) _
        (Sound-popleft s t t.batches refl h)
        (λ v m.
          Sound-bind (λ (x : UploadResult × Trial W). Moved (sending 1) v.1 x.1) Done
            (send s false v.0 v.1) _ (Sound-send s false v.0 v.1)
            (λ x k.
              Sound-bind (λ (y : UploadResult × Trial W). Moved replaying x.1 y.1) Done
                (send s true v.0 x.1) _ (Sound-send s true v.0 x.1)
                (λ y l.
                  let last = Moved-add_fault _ y.1 in
                  Adds-trans (popping 1) (plus (sending 1) (plus replaying faulting)) (tally t)
                    (tally v.1) _ m
                    (Adds-trans (sending 1) (plus replaying faulting) (tally v.1) (tally x.1) _ k
                      (Adds-trans replaying faulting (tally x.1) (tally y.1) _ l last)))))

  Sound-run_operation :
      (buffer : ℕ) (o : Operation) (t : Trial W)
      → 1 ≤ buffer
      → reserve buffer o ≤ length t.batches
      → Sound (Moved (operation_delta buffer o) t) (run_operation s buffer o t)
  unfolding run_operation
  Sound-run_operation buffer api_outage t b h = Sound-run_api_outage buffer t b h
  Sound-run_operation buffer worker_outage t b h = Sound-run_worker_outage buffer t h
  Sound-run_operation buffer acknowledgement_replay t b h = Sound-run_replay t h

-- What a plan adds, when it is left with `n` batches fewer
abbrev pub plan_delta : ℕ → List Operation → Delta
plan_delta n os = record {
  popped = n;
  sent = n;
  replayed = count is_replay os;
  failed = count is_api_outage os;
  faults = length os;
  apis = count is_api_outage os;
  workers = count is_worker_outage os;
}

steady_bounds :
    (buffer : ℕ) (os : List Operation) (left : ℕ)
    → reserved buffer os ≤ left
    → min (steady_count buffer os left) left + reserved buffer os ≤ left
steady_bounds buffer os left h =
    omega (arith, div-le_self (left - reserved buffer os) (length os + 1))

Adds-operation :
    (buffer k n : ℕ) (o : Operation) (os : List Operation) (t u : Tally)
    → Adds
        (plus (plus (popping k) (sending k)) (plus (operation_delta buffer o) (plan_delta n os)))
        t
        u
    → Adds (plan_delta (k + (reserve buffer o + n)) (o ∷ os)) t u
Adds-operation buffer k n api_outage os t u h =
    Adds-same _ _ t u h (omega arith) (omega arith) (omega arith) (omega arith) (omega arith)
      (omega arith) (omega arith)
Adds-operation buffer k n worker_outage os t u h =
    Adds-same _ _ t u h (omega arith) (omega arith) (omega arith) (omega arith) (omega arith)
      (omega arith) (omega arith)
Adds-operation buffer k n acknowledgement_replay os t u h =
    Adds-same _ _ t u h (omega arith) (omega arith) (omega arith) (omega arith) (omega arith)
      (omega arith) (omega arith)

module _ {W : Type 0} (s : Site W) (buffer : ℕ) (some_batch : 1 ≤ buffer) where
  -- A plan whose reserve is on the deque runs through.
  pub Sound-run_operations :
      (os : List Operation) (t : Trial W)
      → reserved buffer os ≤ length t.batches
      → Sound
          (λ (u : Trial W). (n : ℕ) × Moved (plan_delta n os) t u)
          (run_operations s buffer os t)
  unfolding run_operations send_steady
  Sound-run_operations [] t h = (0, unmoved s t)
  Sound-run_operations (o ∷ os) t h =
      let Done : Trial W → Type 0 = λ u. (n : ℕ) × Moved (plan_delta n (o ∷ os)) t u in
      let k = min (steady_count buffer (o ∷ os) (length t.batches)) (length t.batches) in
      let steady = plus (popping k) (sending k) in
      let bounds = steady_bounds buffer (o ∷ os) (length t.batches) h in
      Sound-bind (Moved steady t) Done (send_next s k t) _ (Sound-send_next s k t (omega arith))
        (λ v m.
          Sound-bind (Moved (operation_delta buffer o) v) Done (run_operation s buffer o v) _
            (Sound-run_operation s buffer o v some_batch (omega (arith, m.popped, bounds)))
            (λ w l.
              Sound-imp (λ (u : Trial W). (n : ℕ) × Moved (plan_delta n os) w u) Done
                (run_operations s buffer os w)
                (Sound-run_operations os w (left_for o v w k m l bounds))
                (λ u (n, q). (
                  k + (reserve buffer o + n),
                  Adds-operation buffer k n o os (tally t) (tally u) (
                      Adds-trans steady (plus (operation_delta buffer o) (plan_delta n os))
                        (tally t) (tally v) (tally u) m
                        (Adds-trans (operation_delta buffer o) (plan_delta n os) (tally v) (tally w)
                          (tally u) l q)),
                ))))
    where
      left_for :
          (kind : Operation) (v w : Trial W) (k : ℕ)
          → Moved (plus (popping k) (sending k)) t v
          → Moved (operation_delta buffer kind) v w
          → k + (reserve buffer kind + reserved buffer os) ≤ length t.batches
          → reserved buffer os ≤ length w.batches
      left_for api_outage v w k m l h = omega (arith, m.popped, l.popped)
      left_for worker_outage v w k m l h = omega (arith, m.popped, l.popped)
      left_for acknowledgement_replay v w k m l h = omega (arith, m.popped, l.popped)
