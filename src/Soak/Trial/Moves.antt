-- ===== src/Soak/Trial/Moves.antt =====
-- How the calls of a trial move the batches and the counters.
use myaqi_iot_platform.Prelude.{
  ℕ, zero, suc, ◌+◌, ◌≤◌, ◌≡◌, refl, Bool, true, false, not, List, [], ◌∷◌, arith, length,
  length-append, ◌==◌,
}
use myaqi_iot_platform.Prelude.Int.{pos, ◌+ℤ◌}
use myaqi_iot_platform.Prelude.Result.{Result, ok, err, ◌>>=◌}
use myaqi_iot_platform.Soak.Batches.{Batch, size}
use myaqi_iot_platform.Soak.Trial.{
  TrialError, eq_bool, eq_ℤ, UploadResult, PostOutcome, answered, unavailable, refused, Site, Trial,
  check_upload, count_upload, send, popleft, pop_batches, send_all, send_next,
}
use myaqi_iot_platform.Soak.Trial.Sound.{Sound, Sound-bind, Sound-imp, Sound-checks}

-- What a part of the trial does: the batches it takes off the deque, and what it adds to the counters
pub record Delta : Type 0 where
  pub popped : ℕ
  pub sent : ℕ
  pub replayed : ℕ
  pub failed : ℕ
  pub faults : ℕ
  pub apis : ℕ
  pub workers : ℕ

-- The batches on the deque and the counters of a trial
pub record Tally : Type 0 where
  pub left : ℕ
  pub uploaded : ℕ
  pub replayed : ℕ
  pub failed : ℕ
  pub faults : ℕ
  pub apis : ℕ
  pub workers : ℕ
  pub latencies : ℕ

abbrev pub tally : {W : Type 0} → Trial W → Tally
tally t = record {
  left = length t.batches;
  uploaded = t.uploaded_batches;
  replayed = t.replayed_batches;
  failed = t.failed_upload_attempts;
  faults = length t.faults;
  apis = t.api_starts;
  workers = t.worker_starts;
  latencies = length t.latencies;
}

pub record Adds (d : Delta) (t after : Tally) : Type 0 where
  pub popped : after.left + d.popped ≡ t.left
  pub sent : after.uploaded ≡ t.uploaded + d.sent
  pub replayed : after.replayed ≡ t.replayed + d.replayed
  pub failed : after.failed ≡ t.failed + d.failed
  pub faults : after.faults ≡ t.faults + d.faults
  pub apis : after.apis ≡ t.apis + d.apis
  pub workers : after.workers ≡ t.workers + d.workers
  pub timed : after.latencies ≡ t.latencies + (d.sent + d.replayed)

abbrev pub Moved : {W : Type 0} → Delta → Trial W → Trial W → Type 0
Moved d t u = Adds d (tally t) (tally u)

abbrev pub plus : Delta → Delta → Delta
plus d e = record {
  popped = d.popped + e.popped;
  sent = d.sent + e.sent;
  replayed = d.replayed + e.replayed;
  failed = d.failed + e.failed;
  faults = d.faults + e.faults;
  apis = d.apis + e.apis;
  workers = d.workers + e.workers;
}

abbrev pub nothing : Delta
nothing = record {
  popped = 0;
  sent = 0;
  replayed = 0;
  failed = 0;
  faults = 0;
  apis = 0;
  workers = 0;
}

pub Adds-trans : (d e : Delta) (t u v : Tally) → Adds d t u → Adds e u v → Adds (plus d e) t v
Adds-trans d e t u v p q = record {
  popped = omega (arith, p.popped, q.popped);
  sent = omega (arith, p.sent, q.sent);
  replayed = omega (arith, p.replayed, q.replayed);
  failed = omega (arith, p.failed, q.failed);
  faults = omega (arith, p.faults, q.faults);
  apis = omega (arith, p.apis, q.apis);
  workers = omega (arith, p.workers, q.workers);
  timed = omega (arith, p.timed, q.timed);
}

-- The same numbers, written in another way
pub Adds-same :
    (d e : Delta) (t u : Tally)
    → Adds d t u
    → d.popped ≡ e.popped
    → d.sent ≡ e.sent
    → d.replayed ≡ e.replayed
    → d.failed ≡ e.failed
    → d.faults ≡ e.faults
    → d.apis ≡ e.apis
    → d.workers ≡ e.workers
    → Adds e t u
Adds-same d e t u h a b c x y z w = record {
  popped = rw (← a) h.popped;
  sent = rw (← b) h.sent;
  replayed = rw (← c) h.replayed;
  failed = rw (← x) h.failed;
  faults = rw (← y) h.faults;
  apis = rw (← z) h.apis;
  workers = rw (← w) h.workers;
  timed = rw (← b, ← c) h.timed;
}

abbrev pub popping : ℕ → Delta
popping n = record nothing { popped = n }

abbrev pub sending : ℕ → Delta
sending n = record nothing { sent = n }

abbrev pub replaying : Delta
replaying = record nothing { replayed = 1 }

abbrev pub failing : Delta
failing = record nothing { failed = 1 }

abbrev pub faulting : Delta
faulting = record nothing { faults = 1 }

abbrev pub starting_api : Delta
starting_api = record nothing { apis = 1 }

abbrev pub starting_worker : Delta
starting_worker = record nothing { workers = 1 }

abbrev pub uploading : Bool → Delta
uploading true = replaying
uploading false = sending 1

module _ {W : Type 0} (s : Site W) where
  -- Two parts, one after the other
  pub unmoved : (t : Trial W) → Moved nothing t t
  unmoved t = record {
    popped = omega arith;
    sent = omega arith;
    replayed = omega arith;
    failed = omega arith;
    faults = omega arith;
    apis = omega arith;
    workers = omega arith;
    timed = omega arith;
  }

  pub Sound-then :
      (d e : Delta) (t : Trial W) (r : Result TrialError (Trial W))
      (next : Trial W → Result TrialError (Trial W))
      → Sound (Moved d t) r
      → ((u : Trial W) → Moved d t u → Sound (Moved e u) (next u))
      → Sound (Moved (plus d e) t) (r >>= next)
  Sound-then d e t (err x) next h k = h
  Sound-then d e t (ok u) next h k = followed (next u) (k u h)
    where
      followed :
          (last : Result TrialError (Trial W))
          → Sound (Moved e u) last
          → Sound (Moved (plus d e) t) last
      followed (err x) q = q
      followed (ok v) q = Adds-trans d e (tally t) (tally u) (tally v) h q

  Moved-count_upload :
      (expect_replay : Bool) (r : UploadResult) (t : Trial W)
      → Moved (uploading expect_replay) t (count_upload s expect_replay r t)
  Moved-count_upload true r t = record {
    popped = omega arith;
    sent = omega arith;
    replayed = omega arith;
    failed = omega arith;
    faults = omega arith;
    apis = omega arith;
    workers = omega arith;
    timed = omega (arith, length-append {0} t.latencies (r.latency_ms ∷ []));
  }
  Moved-count_upload false r t = record {
    popped = omega arith;
    sent = omega arith;
    replayed = omega arith;
    failed = omega arith;
    faults = omega arith;
    apis = omega arith;
    workers = omega arith;
    timed = omega (arith, length-append {0} t.latencies (r.latency_ms ∷ []));
  }

  Sound-check_upload :
      (expect_replay : Bool) (b : Batch) (outcome : PostOutcome) (t : Trial W)
      → Sound
          (λ (v : UploadResult × Trial W). Moved (uploading expect_replay) t v.1)
          (check_upload s expect_replay b outcome t)
  Sound-check_upload expect_replay b unavailable t = refl
  Sound-check_upload expect_replay b refused t = refl
  Sound-check_upload expect_replay b (answered r) t =
      Sound-checks (λ (v : UploadResult × Trial W). Moved (uploading expect_replay) t v.1)
        (not (r.status == 202)) (not (eq_ℤ (r.accepted +ℤ r.duplicates) (pos (size b))))
        (not (eq_bool r.replayed expect_replay)) (r, count_upload s expect_replay r t)
        (Moved-count_upload expect_replay r t)

  pub Sound-send :
      (expect_replay : Bool) (b : Batch) (t : Trial W)
      → Sound
          (λ (v : UploadResult × Trial W). Moved (uploading expect_replay) t v.1)
          (send s expect_replay b t)
  unfolding send
  Sound-send expect_replay b t =
      let (outcome, site) = s.post_batch b t.site in
      Sound-check_upload expect_replay b outcome (record t { site = site })

  pub Sound-popleft :
      (t : Trial W) (bs : List Batch)
      → length bs ≡ length t.batches
      → 1 ≤ length t.batches
      → Sound (λ (v : Batch × Trial W). Moved (popping 1) t v.1) (popleft s t bs)
  Sound-popleft t [] p h = absurd (omega (arith, p))
  Sound-popleft t (b ∷ bs) p h = record {
    popped = omega (arith, p);
    sent = omega arith;
    replayed = omega arith;
    failed = omega arith;
    faults = omega arith;
    apis = omega arith;
    workers = omega arith;
    timed = omega arith;
  }

  -- `n` batches that are there can be taken.
  pub Sound-pop_batches :
      (n : ℕ) (t : Trial W)
      → n ≤ length t.batches
      → Sound
          (λ (v : List Batch × Trial W). Moved (popping n) t v.1 × (length v.0 ≡ n))
          (pop_batches s n t)
  unfolding pop_batches
  Sound-pop_batches zero t h = (unmoved t, refl)
  Sound-pop_batches (suc n) t h =
      let Popped : List Batch × Trial W → Type 0 =
        λ v. Moved (popping (suc n)) t v.1 × (length v.0 ≡ suc n) in
      Sound-bind (λ (v : Batch × Trial W). Moved (popping 1) t v.1) Popped (popleft s t t.batches) _
        (Sound-popleft t t.batches refl (omega arith))
        (λ v m.
          Sound-bind (λ (u : List Batch × Trial W). Moved (popping n) v.1 u.1 × (length u.0 ≡ n))
            Popped (pop_batches s n v.1) _ (Sound-pop_batches n v.1 (omega (arith, m.popped)))
            (λ u k. (
              Adds-same (plus (popping 1) (popping n)) (popping (suc n)) (tally t) (tally u.1)
                  (Adds-trans (popping 1) (popping n) (tally t) (tally v.1) (tally u.1) m k.0)
                  (omega arith) refl refl refl refl refl refl,
              omega (arith, k.1),
            )))

  -- Sending adds an upload for each batch.
  pub Sound-send_all :
      (bs : List Batch) (t : Trial W) → Sound (Moved (sending (length bs)) t) (send_all s bs t)
  unfolding send_all
  Sound-send_all [] t = unmoved t
  Sound-send_all (b ∷ bs) t =
      Sound-bind (λ (v : UploadResult × Trial W). Moved (uploading false) t v.1)
        (Moved (sending (length (b ∷ bs))) t) (send s false b t) _ (Sound-send false b t)
        (λ v m.
          Sound-imp (Moved (sending (length bs)) v.1) (Moved (sending (length (b ∷ bs))) t)
            (send_all s bs v.1) (Sound-send_all bs v.1)
            (λ u k.
              Adds-same (plus (sending 1) (sending (length bs))) (sending (length (b ∷ bs)))
                (tally t) (tally u)
                (Adds-trans (sending 1) (sending (length bs)) (tally t) (tally v.1) (tally u) m k)
                refl (omega arith) refl refl refl refl refl))

  -- The steady uploads take the batches that they send.
  pub Sound-send_next :
      (n : ℕ) (t : Trial W)
      → n ≤ length t.batches
      → Sound (Moved (plus (popping n) (sending n)) t) (send_next s n t)
  unfolding send_next
  Sound-send_next zero t h = unmoved t
  Sound-send_next (suc n) t h =
      let Sent : Trial W → Type 0 = Moved (plus (popping (suc n)) (sending (suc n))) t in
      let both = plus (popping n) (sending n) in
      Sound-bind (λ (v : Batch × Trial W). Moved (popping 1) t v.1) Sent (popleft s t t.batches) _
        (Sound-popleft t t.batches refl (omega arith))
        (λ v m.
          Sound-bind (λ (w : UploadResult × Trial W). Moved (uploading false) v.1 w.1) Sent
            (send s false v.0 v.1) _ (Sound-send false v.0 v.1)
            (λ w k.
              Sound-imp (Moved both w.1) Sent (send_next s n w.1)
                (Sound-send_next n w.1 (omega (arith, m.popped, k.popped)))
                (λ u l.
                  Adds-same (plus (popping 1) (plus (sending 1) both)) _ (tally t) (tally u)
                    (Adds-trans (popping 1) (plus (sending 1) both) (tally t) (tally v.1) (tally u)
                      m (Adds-trans (sending 1) both (tally v.1) (tally w.1) (tally u) k l))
                    (omega arith) (omega arith) refl refl refl refl refl)))
