-- ===== src/Backend/App/Answers.antt =====
-- What a client can rely on in the answers of the application.
use myaqi_iot_platform.Prelude.{
  ℕ, ◌≤◌, ◌≡◌, refl, sym, All, some, inl, inr, ◌⊎◌, ◌&&◌, [], ◌∷◌, arith, Bool-cases, length,
  length-take,
}
use mathlib.Core.Path.{subst}
use myaqi_iot_platform.Prelude.Int.{ℤ}
use myaqi_iot_platform.Prelude.Result.{ok, err, Result-cases}
use myaqi_iot_platform.Python.Text.{Text}
use myaqi_iot_platform.Backend.Models.{Database}
use myaqi_iot_platform.Backend.Ingestion.{
  Request, Config, Failure, invalid_idempotency_key, invalid_firmware_version,
  authentication_failed, invalid_batch, idempotency_conflict, idempotency_in_progress,
  unsupported_media_type, internal_error, status_of, Metrics, Response, transaction,
  ingest_measurements, is_idempotency_key, valid_version,
}
use myaqi_iot_platform.Backend.Ingestion.Statuses.{HasStatus, transaction-HasStatus}
use myaqi_iot_platform.Backend.App.{
  HttpResponse, DatabaseFault, no_fault, at_first_query, at_commit, request_id_of, respond, upload,
  response_json,
}

-- A request's id is that of its header, cut to 128 characters, so it is no longer than that if the
-- service's own ids are not.
pub request_id_of_bounds :
    (uuid header : Text) → length uuid ≤ 128 → length (request_id_of uuid header) ≤ 128
unfolding request_id_of
request_id_of_bounds uuid [] h = h
request_id_of_bounds uuid (c ∷ cs) h = omega (arith, length-take {0} 128 (c ∷ cs))

-- Either the upload has been committed, and is answered with 202 and the body of its transaction, or
-- no table has changed and the answer's status is 400 or above. In both cases the stored requests
-- have no status but 202.
abbrev pub UploadAnswer :
    Config → (ℕ → Text) → ℤ → ℕ → Request → Database → HttpResponse × Database × Metrics → Type 0
UploadAnswer config uuid clock now request db (answer, after, counted) =
    (((r : Response) × (transaction config clock now request db ≡ ok (r, after))
        × (answer.status ≡ 202)
        × (answer.body ≡ some (response_json uuid r.body))
        × (answer.idempotent_replayed ≡ r.replayed))
      ⊎ ((after ≡ db) × (400 ≤ answer.status)))
    × All HasStatus after.ingest_requests

status_of_bounds : (f : Failure) → 400 ≤ status_of f
unfolding status_of
status_of_bounds invalid_idempotency_key = omega arith
status_of_bounds invalid_firmware_version = omega arith
status_of_bounds authentication_failed = omega arith
status_of_bounds invalid_batch = omega arith
status_of_bounds idempotency_conflict = omega arith
status_of_bounds idempotency_in_progress = omega arith
status_of_bounds unsupported_media_type = omega arith
status_of_bounds internal_error = omega arith

-- The answer to an exception has the status of the exception.
pub status-respond :
    (uuid : ℕ → Text) (detail request_id : Text) (f : Failure)
    → (respond uuid detail request_id (err f)).status ≡ status_of f
unfolding respond status_of
status-respond uuid detail request_id invalid_idempotency_key = refl
status-respond uuid detail request_id invalid_firmware_version = refl
status-respond uuid detail request_id authentication_failed = refl
status-respond uuid detail request_id invalid_batch = refl
status-respond uuid detail request_id idempotency_conflict = refl
status-respond uuid detail request_id idempotency_in_progress = refl
status-respond uuid detail request_id unsupported_media_type = refl
status-respond uuid detail request_id internal_error = refl

module _ (config : Config) (uuid : ℕ → Text) (detail request_id : Text) (clock : ℤ) (now : ℕ)
    (request : Request) (db : Database) (metrics : Metrics) where
  respond_failed :
      (f : Failure)
      → transaction config clock now request db ≡ err f
      → let (result, after, counted) = ingest_measurements config clock now request db metrics in
        (after ≡ db) × (400 ≤ (respond uuid detail request_id result).status)
  unfolding ingest_measurements
  respond_failed f p =
      rw (p, ingest_measurements)
        (refl, rw (status-respond uuid detail request_id f) (status_of_bounds f))

  module _ (rows : All HasStatus db.ingest_requests) where
    upload_sound :
        UploadAnswer config uuid clock now request db
          (upload config uuid detail request_id no_fault clock now request db metrics)
    unfolding upload ingest_measurements
    upload_sound = elim (Result-cases (transaction config clock now request db)) [
      | inl ((r, after), p) ↦
          let (code, kept) = transaction-HasStatus config clock now request db r after rows p in
          rw (p, ingest_measurements) (inl (r, refl, code, refl, refl), kept)
      | inr (f, p) ↦
          let failed = respond_failed f p in
          (
            inr failed,
            subst (λ (d : Database). All HasStatus d.ingest_requests) (sym failed.0) rows,
          )
    ]

    -- When no stored request has a status but 202, an upload either has been committed, and is
    -- answered with 202 and the body of its transaction, or has changed no table, and is answered
    -- with a status of 400 or above, that of a failing database too; and still no stored request has
    -- a status but 202.
    pub upload-UploadAnswer :
        (fault : DatabaseFault)
        → UploadAnswer config uuid clock now request db
            (upload config uuid detail request_id fault clock now request db metrics)
    unfolding upload
    upload-UploadAnswer no_fault = upload_sound
    upload-UploadAnswer at_first_query =
        elim (Bool-cases
          (is_idempotency_key request.idempotency_key && valid_version request.firmware_version)) [
            | inl p ↦ rw p (inr (refl, omega arith), rows)
            | inr p ↦ rw p upload_sound
          ]
    upload-UploadAnswer at_commit = elim (Result-cases (transaction config clock now request db)) [
      | inl ((r, after), p) ↦ rw p (inr (refl, omega arith), rows)
      | inr (f, p) ↦
          let failed = respond_failed f p in
          rw p (
            inr failed,
            subst (λ (d : Database). All HasStatus d.ingest_requests) (sym failed.0) rows,
          )
    ]
