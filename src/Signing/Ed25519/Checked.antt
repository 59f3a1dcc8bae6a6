-- ===== src/Signing/Ed25519/Checked.antt =====
-- What signing and verification in pkg/signing/ed25519.go promise each other.
use http_message_signatures.Common.{◌≡◌, refl, true, not, arith, ◌==◌, length, Bytes}
use http_message_signatures.Errors.{
  ok, base_empty, key_empty, error_if->>=, ok_inj, wrong_key_length,
}
use http_message_signatures.Signing.Crypto.{Crypto, ed_private, ed_public}
use http_message_signatures.Signing.Ed25519.{sign, verify}

-- Ed25519 signing succeeds only with a private key of 64 bytes, and verification accepts the
-- signature for the same base and with any public key of 32 bytes that accepts what crypto/ed25519
-- signs with the private key, when that has 64 bytes.
pub verify-sign_ed25519 :
    (c : Crypto) (base signature k p : Bytes)
    → length p ≡ 32
    → ((s : Bytes)
        → (length (c.ed25519_sign k s) ≡ 64) × (c.ed25519_verify p s (c.ed25519_sign k s) ≡ true))
    → sign c base (ed_private k) ≡ ok signature
    → (length k ≡ 64) × (verify c base signature (ed_public p) ≡ ok tt)
unfolding sign verify
verify-sign_ed25519 c base signature k p size accepts h =
    let (nonempty, h1) = error_if->>= (length base == 0) base_empty _ h in
    let (some_key, h2) = error_if->>= (length k == 0) key_empty _ h1 in
    let (long, h3) = error_if->>= (not (length k == 64)) (wrong_key_length (length k)) _ h2 in
    let same : c.ed25519_sign k base ≡ signature = ok_inj h3 in
    let (size', accepted) = rw same at (accepts base) in
    (ground arith, rw (nonempty, size', size, accepted) refl)
