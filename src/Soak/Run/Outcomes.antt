-- ===== src/Soak/Run/Outcomes.antt =====
-- How a trial ends.
use myaqi_iot_platform.Prelude.{
  ℕ, ◌+◌, ◌*◌, ◌≤◌, min, ◌≡◌, refl, ◌∙◌, inl, inr, Bool, true, false, not, ◌||◌, Bool-cases, Option,
  none, some, List, [], ◌∷◌, arith, length, ltb,
}
use native.Mathlib.Nat.{suc-mul}
use myaqi_iot_platform.Prelude.Int.{ℤ, pos, negsuc, pos_part, leb_ℤ}
use myaqi_iot_platform.Prelude.Result.{ok, raise_if, or_raise, ◌>>=◌, ◌>>◌}
use myaqi_iot_platform.Soak.Plan.{
  Operation, api_outage, worker_outage, acknowledgement_replay, is_api_outage, is_worker_outage,
  is_replay, count, round_robin_operations-Counts,
}
use myaqi_iot_platform.Soak.Batches.{Batch}
use myaqi_iot_platform.Soak.Trial.{
  invalid_fault_counts, invalid_outage, not_a_local_origin, invalid_sizes, not_enough_batches, Site,
  Trial, reserved, run_operations, send_next, send_steady, start_api, start_worker, wait_for_outbox,
  not_running,
}
use myaqi_iot_platform.Soak.Run.{
  Arguments, Report, plan_of, minimum_batches, prepare, begin, report, run_plan, run_trial,
  is_negative, is_negative_float,
}
use myaqi_iot_platform.Soak.Trial.Sound.{Sound, Sound-bind, Sound-raise_if}
use myaqi_iot_platform.Soak.Trial.Moves.{
  Sound-send_next, Moved, plus, nothing, popping, sending, starting_api, starting_worker,
}
use myaqi_iot_platform.Soak.Trial.Accounts.{
  plan_delta, Sound-run_operations, Sound-start_api, Sound-start_worker, Sound-wait_for_outbox,
}

-- The reserve of a plan, by the kinds of its operations
reserved-count :
    (buffer : ℕ) (os : List Operation)
    → reserved buffer os
      ≡ (count is_api_outage os + count is_worker_outage os) * buffer + count is_replay os
reserved-count buffer [] = omega arith
reserved-count buffer (api_outage ∷ os) = omega (
  arith,
  reserved-count buffer os,
  suc-mul (count is_api_outage os + count is_worker_outage os) buffer,
)
reserved-count buffer (worker_outage ∷ os) = omega (
  arith,
  reserved-count buffer os,
  suc-mul (count is_api_outage os + count is_worker_outage os) buffer,
)
reserved-count buffer (acknowledgement_replay ∷ os) = omega (arith, reserved-count buffer os)

length-count :
    (os : List Operation)
    → length os ≡ count is_api_outage os + count is_worker_outage os + count is_replay os
length-count [] = refl
length-count (api_outage ∷ os) = omega (arith, length-count os)
length-count (worker_outage ∷ os) = omega (arith, length-count os)
length-count (acknowledgement_replay ∷ os) = omega (arith, length-count os)

-- A trial's plan is through, and all its batches are sent.
pub record IsDone {W : Type 0} (os : List Operation) (t u : Trial W) : Type 0 where
  pub uploaded : u.uploaded_batches ≡ t.uploaded_batches + length t.batches
  pub replayed : u.replayed_batches ≡ t.replayed_batches + count is_replay os
  pub failed : u.failed_upload_attempts ≡ t.failed_upload_attempts + count is_api_outage os
  pub faults : length u.faults ≡ length t.faults + length os
  pub apis : u.api_starts ≡ t.api_starts + (1 + count is_api_outage os)
  pub workers : u.worker_starts ≡ t.worker_starts + (1 + count is_worker_outage os)
  pub timed : length u.latencies ≡ length t.latencies + (length t.batches + count is_replay os)

module _ {W : Type 0} (s : Site W) where
  Sound-run_plan :
      (buffer : ℕ) (os : List Operation) (t : Trial W)
      → 1 ≤ buffer
      → reserved buffer os ≤ length t.batches
      → Sound (IsDone os t) (run_plan s buffer os t)
  unfolding run_plan send_steady
  Sound-run_plan buffer os t some_batch h =
      Sound-bind (Moved starting_api t) (IsDone os t) (start_api s t) _ (Sound-start_api s t)
        (λ a p.
          Sound-bind (Moved starting_worker a) (IsDone os t) (start_worker s a) _
            (Sound-start_worker s a)
            (λ w q.
              Sound-bind (λ (f : Trial W). (n : ℕ) × Moved (plan_delta n os) w f) (IsDone os t)
                (run_operations s buffer os w) _
                (Sound-run_operations s buffer some_batch os w (omega (arith, p.popped, q.popped)))
                (λ f (n, r).
                  let k = min (length f.batches) (length f.batches) in
                  Sound-bind (Moved (plus (popping k) (sending k)) f) (IsDone os t)
                    (send_next s k f) _ (Sound-send_next s k f (omega arith))
                    (λ e m.
                      Sound-bind (Moved nothing e) (IsDone os t) (wait_for_outbox s e) _
                        (Sound-wait_for_outbox s e)
                        (λ d l.
                          Sound-raise_if (IsDone os t) (not (s.are_running d.site)) not_running
                            (ok d) refl
                            (λ _. record {
                              uploaded = omega (
                                arith, p.popped, p.sent, q.popped, q.sent, r.popped, r.sent,
                                m.popped, m.sent, l.sent,
                              );
                              replayed = omega (
                                arith, p.replayed, q.replayed, r.replayed, m.replayed, l.replayed,
                              );
                              failed =
                                  omega (arith, p.failed, q.failed, r.failed, m.failed, l.failed);
                              faults =
                                  omega (arith, p.faults, q.faults, r.faults, m.faults, l.faults);
                              apis = omega (arith, p.apis, q.apis, r.apis, m.apis, l.apis);
                              workers =
                                  omega
                                    (arith, p.workers, q.workers, r.workers, m.workers, l.workers);
                              timed = omega (
                                arith, p.popped, q.popped, r.popped, p.timed, q.timed, r.timed,
                                m.timed, l.timed,
                              );
                            }))))))

-- The counters of a report agree with the arguments.
pub record IsAccounted (a : Arguments) (r : Report) : Type 0 where
  pub uploaded : r.uploaded_batches ≡ r.initial_batch_count
  pub replayed : r.replayed_batches ≡ pos_part a.acknowledgement_replays
  pub failed : r.failed_upload_attempts ≡ pos_part a.api_faults
  pub faults :
      length r.faults
      ≡ pos_part a.api_faults + pos_part a.worker_faults + pos_part a.acknowledgement_replays
  pub apis : r.api_restarts ≡ pos_part a.api_faults
  pub workers : r.worker_restarts ≡ pos_part a.worker_faults
  pub timed : length r.latencies ≡ r.uploaded_batches + r.replayed_batches

at_least_one : (n : ℤ) → leb_ℤ (pos 1) n ≡ true → 1 ≤ pos_part n
at_least_one (pos n) h = ground arith
at_least_one (negsuc n) h = absurd (ground arith)

Sound-guards :
    (Q : List Batch → Type 0) (x y z : Bool) (built : Option (List Batch)) (n : ℕ)
    → ((bs : List Batch) → y ≡ false → ltb (length bs) n ≡ false → Q bs)
    → Sound Q (do
      raise_if x invalid_fault_counts
      raise_if y invalid_outage
      raise_if z not_a_local_origin
      batches ← or_raise built invalid_sizes
      raise_if (ltb (length batches) n) not_enough_batches
      ok batches)
Sound-guards Q true y z built n h = refl
Sound-guards Q false true z built n h = refl
Sound-guards Q false false true built n h = refl
Sound-guards Q false false false none n h = refl
Sound-guards Q false false false (some bs) n h =
    Sound-raise_if Q (ltb (length bs) n) not_enough_batches (ok bs) refl (h bs refl)

-- The arguments that pass leave enough batches for the plan, and batches to buffer.
Sound-prepare :
    (build : Arguments → Option (List Batch)) (a : Arguments)
    → Sound
        (λ (bs : List Batch).
          (minimum_batches a ≤ length bs) × (1 ≤ pos_part a.outage_buffer_batches))
        (prepare build a)
unfolding prepare
Sound-prepare build a =
    Sound-guards (λ bs. (minimum_batches a ≤ length bs) × (1 ≤ pos_part a.outage_buffer_batches))
      (is_negative a.api_faults
        || (is_negative a.worker_faults || is_negative a.acknowledgement_replays))
      (not (leb_ℤ (pos 1) a.outage_buffer_batches) || is_negative_float a.outage_seconds)
      (not a.is_local_origin) (build a) (minimum_batches a)
      (λ bs outage enough. (ground arith, buffers outage))
  where
    buffers :
        (not (leb_ℤ (pos 1) a.outage_buffer_batches) || is_negative_float a.outage_seconds) ≡ false
        → 1 ≤ pos_part a.outage_buffer_batches
    buffers h = elim (Bool-cases (leb_ℤ (pos 1) a.outage_buffer_batches)) [
      | inl p ↦ at_least_one a.outage_buffer_batches p
      | inr p ↦ absurd (ground arith)
    ]

-- A trial never takes a batch from an empty deque: it raises another exception, or it ends with a
-- report, and then all batches have been uploaded, each replay and each outage that was asked for has
-- taken place, and every upload has been timed.
pub run_trial-IsAccounted :
    {W : Type 0} (s : Site W) (build : Arguments → Option (List Batch)) (a : Arguments) (site : W)
    → Sound (IsAccounted a) (run_trial s build a site)
unfolding run_trial report
run_trial-IsAccounted s build a site =
    let os = plan_of a in
    let counts =
      round_robin_operations-Counts (pos_part a.api_faults) (pos_part a.worker_faults)
        (pos_part a.acknowledgement_replays) in
    let reserve : reserved (pos_part a.outage_buffer_batches) os ≡ minimum_batches a =
      reserved-count (pos_part a.outage_buffer_batches) os
      ∙ rw (counts.0, counts.1, counts.2) refl in
    Sound-bind
      (λ (bs : List Batch).
        (minimum_batches a ≤ length bs) × (1 ≤ pos_part a.outage_buffer_batches))
      (IsAccounted a) (prepare build a) _ (Sound-prepare build a)
      (λ bs (enough, some_batch).
        Sound-bind (IsDone os (begin s site bs)) (IsAccounted a)
          (run_plan s (pos_part a.outage_buffer_batches) os (begin s site bs)) _
          (Sound-run_plan s (pos_part a.outage_buffer_batches) os (begin s site bs) some_batch
            (omega (arith, reserve, enough)))
          (λ u done. record {
            uploaded = omega (arith, done.uploaded);
            replayed = omega (arith, done.replayed, counts.2);
            failed = omega (arith, done.failed, counts.0);
            faults = omega (arith, done.faults, length-count os, counts.0, counts.1, counts.2);
            apis = omega (arith, done.apis, counts.0);
            workers = omega (arith, done.workers, counts.1);
            timed = omega (arith, done.timed, done.uploaded, done.replayed);
          }))
