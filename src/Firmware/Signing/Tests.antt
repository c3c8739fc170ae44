-- ===== src/Firmware/Signing/Tests.antt =====
-- A request of the firmware before the service, with a toy digest in the place of SHA-256.
use myaqi_iot_platform.Prelude.{
  ℕ, ◌+◌, ◌%◌, ◌≡◌, refl, true, some, [], ◌∷◌, length, ltb, all, arith,
}
use myaqi_iot_platform.Prelude.Int.{pos}
use myaqi_iot_platform.Prelude.Result.{ok}
use myaqi_iot_platform.Python.Text.{Bytes, codes, decimal}
use myaqi_iot_platform.Firmware.Signing.{sign_request, StructTime, format_utc}
use myaqi_iot_platform.Firmware.Signing.Protocol.{firmware_request_verified}
use myaqi_iot_platform.Backend.Auth

abbrev sum_of : Bytes → ℕ
sum_of [] = 0
sum_of (b ∷ bs) = b + sum_of bs

abbrev toy_digest : Bytes → Bytes
toy_digest m = (sum_of m % 256) ∷ (length m % 256) ∷ []

toy_digest_bytes : (m : Bytes) → all (λ b. ltb b 256) (toy_digest m) ≡ true
toy_digest_bytes m = ground arith

firmware_request_verified_example :
    Auth.verify_request_signature toy_digest
      (λ t. some (pos 1000))
      (7 ∷ 8 ∷ [])
      (some (codes "1000"))
      (some
        (sign_request toy_digest (7 ∷ 8 ∷ []) (codes "1000") (codes "POST") (codes "/v1") (1 ∷ [])))
      (codes "POST")
      (codes "/v1")
      (1 ∷ [])
      300
      (pos 1300)
    ≡ ok tt
firmware_request_verified_example =
    firmware_request_verified toy_digest toy_digest_bytes (λ t. some (pos 1000)) (7 ∷ 8 ∷ [])
      (codes "1000") (codes "POST") (codes "/v1") (1 ∷ []) 300 (pos 1300) (pos 1000) (cc) refl
      (omega arith)

abbrev moment : ℕ → StructTime
moment t = record { year = 2026; month = 8; day = 3; hour = 14; minute = 5; second = 0 }

format_moment : format_utc moment 0 ≡ codes "2026-08-03T14:05:00Z"
unfolding format_utc decimal
format_moment = refl
