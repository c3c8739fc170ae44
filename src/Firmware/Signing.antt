-- ===== src/Firmware/Signing.antt =====
-- AdafruitCode/myaqi_client.py, its functions: the HMAC for boards without Python's own, the
-- signature of a request, the device's secret, and the timestamp of a reading.
-- `sha256` is the digest of `hashlib`, `a2b_base64` that of `binascii`: arguments.
pub mod Protocol
mod Tests
use myaqi_iot_platform.Prelude.{
  ℕ, ◌+◌, ◌-◌, ◌%◌, Option, List, [], ◌∷◌, ◌++◌, map, ltb, ◌==◌, if◌then◌else◌, length, replicate,
}
use Prim.Native.Nat.{bit_xor}
use myaqi_iot_platform.Python.Text.{Text, Bytes, codes, encode, upper, decimal, hexlify}

-- `_xor_bytes`
unfoldable pub xor_bytes : Bytes → ℕ → Bytes
xor_bytes value mask = map (λ b. bit_xor b mask) value

module _ (sha256 : Bytes → Bytes) where
  unfoldable pub hmac_sha256 : Bytes → Bytes → Bytes
  unfolding xor_bytes
  hmac_sha256 key message =
      let short = if ltb 64 (length key) then sha256 key else key in
      let padded = short ++ replicate (64 - length short) 0 in
      let inner = sha256 (xor_bytes padded 0x36 ++ message) in
      sha256 (xor_bytes padded 0x5C ++ inner)

  unfoldable pub sha256_hex : Bytes → Text
  sha256_hex data_bytes = hexlify (sha256 data_bytes)

  unfoldable pub sign_request : Bytes → Text → Text → Text → Bytes → Text
  unfolding hmac_sha256 sha256_hex
  sign_request secret timestamp method path body =
      let canonical =
        encode (timestamp ++ (10 ∷ (upper method ++ (10 ∷ (path ++ (10 ∷ sha256_hex body)))))) in
      codes "v1=" ++ hexlify (hmac_sha256 secret canonical)

-- `encoded.replace("-", "+").replace("_", "/")`
unfoldable pub standard_alphabet : Text → Text
standard_alphabet cs = map (λ c. if c == b'-' then b'+' else if c == b'_' then b'/' else c) cs

-- `none` is the ValueError of `binascii`.
unfoldable pub decode_device_secret : (Bytes → Option Bytes) → Text → Option Bytes
unfolding standard_alphabet
decode_device_secret a2b_base64 encoded =
    let standard = standard_alphabet encoded in
    a2b_base64 (encode (standard ++ replicate ((4 - length standard % 4) % 4) b'='))

-- What `time.localtime` returns, as far as it is read
pub record StructTime : Type 0 where
  pub year : ℕ
  pub month : ℕ
  pub day : ℕ
  pub hour : ℕ
  pub minute : ℕ
  pub second : ℕ

-- `f"{n:0wd}"`
unfoldable pub zero_padded : ℕ → ℕ → Text
zero_padded width n = replicate (width - length (decimal n)) b'0' ++ decimal n

unfoldable pub format_utc : (ℕ → StructTime) → ℕ → Text
unfolding zero_padded
format_utc localtime epoch_seconds =
    let t = localtime epoch_seconds in
    let date =
      zero_padded 4 t.year ++ (b'-' ∷ (zero_padded 2 t.month ++ (b'-' ∷ zero_padded 2 t.day))) in
    let clock =
      zero_padded 2 t.hour
      ++ (b':' ∷ (zero_padded 2 t.minute ++ (b':' ∷ zero_padded 2 t.second))) in
    date ++ (b'T' ∷ (clock ++ (b'Z' ∷ [])))
