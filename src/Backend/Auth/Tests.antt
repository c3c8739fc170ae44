-- ===== src/Backend/Auth/Tests.antt =====
-- Signed requests, with a toy digest in the place of SHA-256.
use myaqi_iot_platform.Prelude.{ℕ, ◌+◌, ◌%◌, ◌≡◌, refl, Option, some, [], ◌∷◌, length}
use myaqi_iot_platform.Prelude.Int.{ℤ, pos}
use myaqi_iot_platform.Prelude.Result.{ok}
use myaqi_iot_platform.Python.Text.{Text, Bytes, codes, text_eq, encode}
use myaqi_iot_platform.Backend.Auth.{sign_request, body_sha256, verify_request_signature}

abbrev sum_of : Bytes → ℕ
sum_of [] = 0
sum_of (b ∷ bs) = b + sum_of bs

abbrev toy_digest : Bytes → Bytes
toy_digest m = (sum_of m % 256) ∷ (length m % 256) ∷ []

abbrev parse_int : Text → Option ℤ
parse_int t = some (pos 1000)

abbrev secret : Bytes
secret = 7 ∷ 8 ∷ []

abbrev body : Bytes
body = 1 ∷ 2 ∷ []

signature : Text
unfolding sign_request body_sha256 encode
signature = sign_request toy_digest secret (codes "1000") (codes "POST") (codes "/v1") body

-- The signed request passes.
signed_request_passes :
    verify_request_signature toy_digest parse_int secret
      (some (codes "1000"))
      (some signature)
      (codes "POST")
      (codes "/v1")
      body
      300
      (pos 1200)
    ≡ ok tt
unfolding verify_request_signature sign_request body_sha256 encode text_eq signature
signed_request_passes = refl
