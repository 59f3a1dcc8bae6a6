-- ===== src/Signing/Hmac.antt =====
-- pkg/signing/hmac.go
pub mod Checked
use http_message_signatures.Common.{◌-◌, ◌/◌, not, ltb, ◌==◌, length, Bytes, codes, equal}
use http_message_signatures.Errors.{
  Outcome, ok, err, ◌>>=◌, ◌>>◌, error_if, base_empty, wrong_key_type, key_empty,
  verification_failed, wrong_signature_length, signature_value_empty, key_too_short,
}
use http_message_signatures.Signing.{Algorithm}
use http_message_signatures.Signing.Crypto.{Crypto, Key, secret}

abbrev pub check_secret : {A : Type 0} {c : Crypto} → (Bytes → Outcome A) → Key c → Outcome A
check_secret k (secret s) = do
  error_if (length s == 0) key_empty
  error_if (ltb (length s) 16) (key_too_short (length s))
  k s
check_secret k _ = err wrong_key_type

module _ (c : Crypto) where
  -- `Sign`
  unfoldable pub sign : Bytes → Key c → Outcome Bytes
  sign base key = do
    error_if (length base == 0) base_empty
    check_secret (λ s. ok (c.hmac_sha256 s base)) key

  -- `Verify`; `subtle.ConstantTimeCompare` is equality.
  unfoldable pub verify : Bytes → Bytes → Key c → Outcome (Unit {0})
  verify base signature key = do
    error_if (length base == 0) base_empty
    error_if (length signature == 0) signature_value_empty
    error_if (not (length signature == 32)) wrong_signature_length
    check_secret (λ s. error_if (not (equal signature (c.hmac_sha256 s base))) verification_failed)
        key

  -- `hmacSHA256Algorithm`, with its `ID`
  abbrev pub hmac_sha256 : Algorithm (Key c)
  hmac_sha256 = record { id = codes "hmac-sha256"; sign = sign; verify = verify }
