-- ===== src/Soak/Plan.antt =====
-- `round_robin_operations` of soak/run_software.py: the faults of a trial, kind by kind in turn.
use myaqi_iot_platform.Prelude.{
  ℕ, zero, suc, ◌+◌, ◌-◌, ◌≤◌, ◌≡◌, ap, ◌∙◌, Bool, true, false, List, [], ◌∷◌, ◌++◌, ltb, ◌==◌,
  if◌then◌else◌, arith, min, Bool-cases, inl, inr,
}

pub data Operation : Type 0 where
  api_outage worker_outage acknowledgement_replay : Operation

-- One operation of the kind, if some are left
abbrev pub one_of : Operation → ℕ → List Operation
one_of kind left = if ltb 0 left then kind ∷ [] else []

-- The body of the loop: one operation of each kind that is left
abbrev pub one_of_each : ℕ → ℕ → ℕ → List Operation
one_of_each api worker replays =
    one_of api_outage api ++ (one_of worker_outage worker ++ one_of acknowledgement_replay replays)

-- `while any(remaining.values())`
unfoldable pub operations_from : ℕ → ℕ → ℕ → ℕ → List Operation
operations_from zero api worker replays = []
operations_from (suc fuel) api worker replays =
    let rest = operations_from fuel (api - 1) (worker - 1) (replays - 1) in
    if api + worker + replays == 0 then [] else one_of_each api worker replays ++ rest

-- Each pass takes an operation, so their number is fuel enough.
unfoldable pub round_robin_operations : ℕ → ℕ → ℕ → List Operation
unfolding operations_from
round_robin_operations api worker replays =
    operations_from (api + worker + replays) api worker replays

abbrev pub is_api_outage : Operation → Bool
is_api_outage api_outage = true
is_api_outage _ = false

abbrev pub is_worker_outage : Operation → Bool
is_worker_outage worker_outage = true
is_worker_outage _ = false

abbrev pub is_replay : Operation → Bool
is_replay acknowledgement_replay = true
is_replay _ = false

-- The operations of a kind in a plan
abbrev pub count : (Operation → Bool) → List Operation → ℕ
count p [] = 0
count p (o ∷ os) = (if p o then 1 else 0) + count p os

count-append :
    (p : Operation → Bool) (os rest : List Operation)
    → count p (os ++ rest) ≡ count p os + count p rest
count-append p [] rest = omega arith
count-append p (o ∷ os) rest = omega (arith, count-append p os rest)

abbrev one : (Operation → Bool) → Operation → ℕ → ℕ
one p kind left = count p (one_of kind left)

count-one_of :
    (p : Operation → Bool) (kind : Operation) (left : ℕ)
    → one p kind left ≡ (if p kind then min 1 left else 0)
count-one_of p kind left = ground arith

abbrev Counts : ℕ → ℕ → ℕ → List Operation → Type 0
Counts api worker replays os =
    (count is_api_outage os ≡ api)
    × (count is_worker_outage os ≡ worker)
    × (count is_replay os ≡ replays)

count-one_of_each :
    (api worker replays : ℕ) (rest : List Operation)
    → Counts (api - 1) (worker - 1) (replays - 1) rest
    → Counts api worker replays (one_of_each api worker replays ++ rest)
count-one_of_each api worker replays rest h =
    let last = one_of acknowledgement_replay replays in
    let parts : (p : Operation → Bool)
        → count p (one_of_each api worker replays ++ rest)
          ≡ one p api_outage api
            + (one p worker_outage worker + one p acknowledgement_replay replays)
            + count p rest =
      λ p.
        (count-append p (one_of_each api worker replays) rest
          ∙ ap (λ n. n + count p rest)
              (count-append p (one_of api_outage api) (one_of worker_outage worker ++ last)
                ∙ ap (λ n. count p (one_of api_outage api) + n)
                    (count-append p (one_of worker_outage worker) last))) in
    (
      omega (
        arith,
        parts is_api_outage,
        h.0,
        count-one_of is_api_outage api_outage api,
        count-one_of is_api_outage worker_outage worker,
        count-one_of is_api_outage acknowledgement_replay replays,
      ),
      omega (
        arith,
        parts is_worker_outage,
        h.1,
        count-one_of is_worker_outage api_outage api,
        count-one_of is_worker_outage worker_outage worker,
        count-one_of is_worker_outage acknowledgement_replay replays,
      ),
      omega (
        arith,
        parts is_replay,
        h.2,
        count-one_of is_replay api_outage api,
        count-one_of is_replay worker_outage worker,
        count-one_of is_replay acknowledgement_replay replays,
      ),
    )

operations_from-Counts :
    (fuel api worker replays : ℕ)
    → api + worker + replays ≤ fuel
    → Counts api worker replays (operations_from fuel api worker replays)
unfolding operations_from
operations_from-Counts zero api worker replays h = (omega arith, omega arith, omega arith)
operations_from-Counts (suc fuel) api worker replays h =
    elim (Bool-cases (api + worker + replays == 0)) [
      | inl p ↦ rw p (ground arith, ground arith, ground arith)
      | inr p ↦ rw p (
          count-one_of_each api worker replays
            (operations_from fuel (api - 1) (worker - 1) (replays - 1))
            (operations_from-Counts fuel (api - 1) (worker - 1) (replays - 1) (ground arith)))
    ]

-- The plan has as many operations of each kind as were asked for.
pub round_robin_operations-Counts :
    (api worker replays : ℕ) → Counts api worker replays (round_robin_operations api worker replays)
unfolding round_robin_operations
round_robin_operations-Counts api worker replays =
    operations_from-Counts (api + worker + replays) api worker replays (omega arith)
