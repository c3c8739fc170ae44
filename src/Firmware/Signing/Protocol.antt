-- ===== src/Firmware/Signing/Protocol.antt =====
-- The firmware and the service compute the same signature, so the service lets the device in.
use myaqi_iot_platform.Prelude.{ℕ, ◌≤◌, ◌≡◌, refl, ◌≢◌, true, Option, some, List, [], ltb, all}
use myaqi_iot_platform.Prelude.Int.{ℤ, ◌-ℤ◌, magnitude}
use myaqi_iot_platform.Prelude.Result.{ok}
use myaqi_iot_platform.Python.Text.{Text, Bytes}
use myaqi_iot_platform.Firmware.Signing.{hmac_sha256, sign_request}
use myaqi_iot_platform.Backend.Auth
use myaqi_iot_platform.Backend.Auth.Verify.{verify-sign_request}

-- The small HMAC of the firmware is the one of Python's `hmac`, for every key and message.
pub hmac_sha256-eq-hmac_digest :
    (sha256 : Bytes → Bytes) (key message : Bytes)
    → hmac_sha256 sha256 key message ≡ Auth.hmac_digest sha256 key message
unfolding hmac_sha256 Auth.hmac_digest
hmac_sha256-eq-hmac_digest sha256 key message = refl

pub sign_request-eq-backend :
    (sha256 : Bytes → Bytes) (secret timestamp method path body : List ℕ)
    → sign_request sha256 secret timestamp method path body
      ≡ Auth.sign_request sha256 secret timestamp method path body
unfolding sign_request Auth.sign_request
sign_request-eq-backend sha256 secret timestamp method path body = refl

-- A request that the firmware signs with the device's secret passes the service's check while the
-- two clocks differ by no more than the window.
pub firmware_request_verified :
    (sha256 : Bytes → Bytes)
    → ((m : Bytes) → all (λ b. ltb b 256) (sha256 m) ≡ true)
    → (parse_int : Text → Option ℤ) (secret timestamp method path body : List ℕ) (skew : ℕ)
      (now request_time : ℤ)
    → timestamp ≢ []
    → parse_int timestamp ≡ some request_time
    → magnitude (now -ℤ request_time) ≤ skew
    → Auth.verify_request_signature sha256 parse_int secret
        (some timestamp)
        (some (sign_request sha256 secret timestamp method path body))
        method
        path
        body
        skew
        now
      ≡ ok tt
firmware_request_verified sha256 digest parse_int secret timestamp method path body skew now
      request_time e p h =
    rw sign_request-eq-backend (
      verify-sign_request sha256 digest parse_int secret timestamp method path body skew now
        request_time e p h)
