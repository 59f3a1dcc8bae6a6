-- ===== src/Signing/Hmac/Checked.antt =====
-- What the two operations of pkg/signing/hmac.go promise each other.
use http_message_signatures.Common.{
  ◌≤◌, ◌≡◌, refl, sym, not, arith, ltb, ◌==◌, length, Bytes, equal, equal_iff, equal_refl,
}
use http_message_signatures.Errors.{
  ok, error_if, error_if-ok, error_if->>=, ok_inj, base_empty, key_empty, verification_failed,
  wrong_signature_length, signature_value_empty, key_too_short,
}
use http_message_signatures.Signing.Hmac.{check_secret, sign, verify}
use http_message_signatures.Signing.Crypto.{Crypto, Key, secret}

-- When the MAC has 32 bytes, a signature that HMAC signing returns is verified with the same base
-- and key.
pub verify-sign :
    (c : Crypto) (base signature : Bytes) (key : Key c)
    → ((k s : Bytes) → length (c.hmac_sha256 k s) ≡ 32)
    → sign c base key ≡ ok signature
    → verify c base signature key ≡ ok tt
unfolding sign verify
verify-sign c base signature (secret s) size h =
    let (some_base, h1) = error_if->>= (length base == 0) base_empty _ h in
    let (some_key, h2) = error_if->>= (length s == 0) key_empty _ h1 in
    let (long, h3) = error_if->>= (ltb (length s) 16) (key_too_short (length s)) _ h2 in
    let same : c.hmac_sha256 s base ≡ signature = ok_inj h3 in
    let size' : length signature ≡ 32 = rw (sym same) (size s base) in
    rw (some_base, size', some_key, long, same, equal_refl signature) refl
verify-sign c base signature _ size h =
    let (some_base, h1) = error_if->>= (length base == 0) base_empty _ h in cc

-- A signature that HMAC verification accepts is the MAC of the base under the secret of the key,
-- and the secret has at least 16 bytes.
pub verify-ok :
    (c : Crypto) (base signature : Bytes) (key : Key c)
    → verify c base signature key ≡ ok tt
    → (s : Bytes) × (key ≡ secret s) × (16 ≤ length s) × (signature ≡ c.hmac_sha256 s base)
unfolding verify
verify-ok c base signature key h =
    let (some_base, h1) = error_if->>= (length base == 0) base_empty _ h in
    let (some_signature, h2) = error_if->>= (length signature == 0) signature_value_empty _ h1 in
    let (size, h3) = error_if->>= (not (length signature == 32)) wrong_signature_length _ h2 in
    of_key key h3
  where
    of_key :
        (k : Key c)
        → check_secret
            (λ s. error_if (not (equal signature (c.hmac_sha256 s base))) verification_failed)
            k
          ≡ ok tt
        → (s : Bytes) × (k ≡ secret s) × (16 ≤ length s) × (signature ≡ c.hmac_sha256 s base)
    of_key (secret s) e =
        let (some_key, e1) = error_if->>= (length s == 0) key_empty _ e in
        let (long, e2) = error_if->>= (ltb (length s) 16) (key_too_short (length s)) _ e1 in
        let same =
          error_if-ok (not (equal signature (c.hmac_sha256 s base))) verification_failed e2 in
        (s, refl, ground arith, (equal_iff signature (c.hmac_sha256 s base)).0 (ground arith))
    of_key _ e = cc
