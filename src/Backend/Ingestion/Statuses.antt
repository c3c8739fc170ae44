-- ===== src/Backend/Ingestion/Statuses.antt =====
-- The status of the answers: a stored request has none, or it has 202.
use myaqi_iot_platform.Prelude.{
  ℕ, ◌≡◌, refl, ◌∙◌, sym, ◌⊎◌, inl, inr, none, some, Option, List, [], ◌∷◌, arith, ◌==◌, ◌&&◌, All,
  Bool-cases, Option-cases, if◌then◌else◌,
}
use mathlib.Core.Path.{subst}
use myaqi_iot_platform.Prelude.Int.{ℤ}
use myaqi_iot_platform.Prelude.Result.{ok, >>=-eq-ok, ok-injective}
use myaqi_iot_platform.Python.Text.{Text, text_eq}
use myaqi_iot_platform.Backend.Models.{Device, ResponseBody, IngestRequest, Database}
use myaqi_iot_platform.Backend.Auth.{body_sha256}
use myaqi_iot_platform.Backend.Validation.{ReadingInput}
use myaqi_iot_platform.Backend.Ingestion.{
  Request, Config, Response, find_request, answer_request, store_batch, replay_request,
  commit_batch, transaction,
}
use myaqi_iot_platform.Backend.Ingestion.Batches.{
  transaction_parts, commit_batch_new, commit_batch_found,
}

abbrev pub HasStatus : IngestRequest → Type 0
HasStatus row = (row.response_status ≡ none) ⊎ (row.response_status ≡ some 202)

find_request-All :
    (P : IngestRequest → Type 0) (device key : Text) (rows : List IngestRequest)
    (row : IngestRequest)
    → All P rows
    → find_request device key rows ≡ some row
    → P row
unfolding find_request
find_request-All P device key [] row h found = absurd (cc)
find_request-All P device key (r ∷ rs) row h found =
    elim (Bool-cases (text_eq r.device_id device && text_eq r.idempotency_key key)) [
      | inl p ↦ let same : r ≡ row = (ground (arith, p)) in subst P same h.0
      | inr p ↦ find_request-All P device key rs row h.1 (ground (arith, p))
    ]

answer_request-HasStatus :
    (i : ℕ) (body : ResponseBody) (rows : List IngestRequest)
    → All HasStatus rows
    → All HasStatus (answer_request i body rows)
unfolding answer_request
answer_request-HasStatus i body [] h = tt
answer_request-HasStatus i body (r ∷ rs) h = elim (Bool-cases (r.id == i)) [
  | inl p ↦ rw p (inr refl, h.1)
  | inr p ↦ rw p (h.0, answer_request-HasStatus i body rs h.1)
]

-- What the answer's status is made of
abbrev replayed_status : Option ℕ → ℕ
replayed_status stored = elim stored [ none ↦ 202 | some s ↦ if s == 0 then 202 else s ]

replayed_status_202 :
    (stored : Option ℕ) → (stored ≡ none) ⊎ (stored ≡ some 202) → replayed_status stored ≡ 202
replayed_status_202 stored (inl p) = rw p refl
replayed_status_202 stored (inr p) = rw p refl

replay_request-status :
    (row : IngestRequest) (digest : Text) (response : Response)
    → HasStatus row
    → replay_request row digest ≡ ok response
    → response.status ≡ 202
unfolding replay_request
replay_request-status row digest response h done =
    elim (Bool-cases (text_eq row.payload_sha256 digest)) [
      | inr other ↦ absurd (cc (rw other at done))
      | inl same ↦ elim (Option-cases row.response_body) [
        | inl p ↦ absurd (cc (rw p at (rw same at done)))
        | inr (body, p) ↦
            let e = ok-injective (rw p at (rw same at done)) in
            subst (λ (r : Response). r.status ≡ 202) e (replayed_status_202 row.response_status h)
      ]
    ]

commit_batch-HasStatus :
    (config : Config) (now : ℕ) (request : Request) (device : Device) (readings : List ReadingInput)
    (db : Database) (response : Response) (after : Database)
    → All HasStatus db.ingest_requests
    → commit_batch config now request device readings db ≡ ok (response, after)
    → (response.status ≡ 202) × All HasStatus after.ingest_requests
unfolding store_batch
commit_batch-HasStatus config now request device readings db response after rows h =
    elim (Option-cases (find_request device.id request.idempotency_key db.ingest_requests)) [
      | inl fresh ↦
          subst
            (λ (v : Response × Database). (v.0.status ≡ 202) × All HasStatus v.1.ingest_requests)
            (ok-injective (sym (commit_batch_new config now request device readings db fresh) ∙ h))
            (refl, answer_request-HasStatus _ _ _ (inl refl, rows))
      | inr (row, found) ↦
          let (r, p, q) =
            >>=-eq-ok (replay_request row (body_sha256 config.sha256 request.body)) _
              (sym (commit_batch_found config now request device readings db row found) ∙ h) in
          let code =
            replay_request-status row (body_sha256 config.sha256 request.body) r
              (find_request-All HasStatus device.id request.idempotency_key db.ingest_requests row
                rows found)
              p in
          subst
            (λ (v : Response × Database). (v.0.status ≡ 202) × All HasStatus v.1.ingest_requests)
            (ok-injective q) (code, rows)
    ]

-- A transaction that is committed answers with 202, and the stored requests stay as they should be.
pub transaction-HasStatus :
    (config : Config) (clock : ℤ) (now : ℕ) (request : Request) (db : Database)
    (response : Response) (after : Database)
    → All HasStatus db.ingest_requests
    → transaction config clock now request db ≡ ok (response, after)
    → (response.status ≡ 202) × All HasStatus after.ingest_requests
transaction-HasStatus config clock now request db response after rows h =
    let (device, readings, key, version, auth, read, committed) =
      transaction_parts config clock now request db (response, after) h in
    commit_batch-HasStatus config now request device readings db response after rows committed
