-- ===== src/Signing/Ecdsa/Checked.antt =====
-- What signing and verification in pkg/signing/ecdsa.go promise each other.
use http_message_signatures.Common.{
  ℕ, ◌*◌, ◌<◌, ◌≡◌, refl, ap, true, false, not, Option, none, some, arith, ◌==◌, length, Bytes,
}
use http_message_signatures.Errors.{ok, >>=-eq-ok, base_empty, error_if->>=, ok_inj, wrong_curve}
use http_message_signatures.Signing.Crypto.{Crypto, ec_private, ec_public}
use http_message_signatures.Signing.Ecdsa.{
  Scheme, same_curve, signed, encode_ecdsa_signature, sign, verify,
}
use http_message_signatures.Signing.Ecdsa.Encoding.{decode_ecdsa_signature-encode_ecdsa_signature}

-- What is known of a call of `Sign` that succeeds.
pub record IsSigned {c : Crypto} (scheme : Scheme c) (base signature : Bytes) (k : c.EcPrivate)
    : Type 0 where
  pub r : ℕ
  pub s : ℕ
  pub nonempty : (length base == 0) ≡ false
  pub curve : same_curve (c.private_curve k) scheme.curve ≡ true
  pub made : c.ecdsa_sign k (scheme.hash base) ≡ some (r, s)
  pub written : encode_ecdsa_signature r s scheme.component_len ≡ ok signature

signed_lem : (o : Option (ℕ × ℕ)) (p : ℕ × ℕ) → signed o ≡ ok p → o ≡ some p
signed_lem none p h = cc
signed_lem (some q) p h = ap some (ok_inj h)

sign-IsSigned :
    (c : Crypto) (scheme : Scheme c) (base signature : Bytes) (k : c.EcPrivate)
    → sign c scheme base (ec_private (some k)) ≡ ok signature
    → IsSigned scheme base signature k
unfolding sign
sign-IsSigned c scheme base signature k h =
    let (nonempty, h1) = error_if->>= (length base == 0) base_empty _ h in
    let (curve, h3) =
      error_if->>= (not (same_curve (c.private_curve k) scheme.curve)) wrong_curve _ h1 in
    let (p, made, h4) = >>=-eq-ok (signed (c.ecdsa_sign k (scheme.hash base))) _ h3 in
    record {
      r = p.0;
      s = p.1;
      nonempty = nonempty;
      curve = ground arith;
      made = signed_lem _ p made;
      written = h4;
    }

-- A signature that ECDSA signing returns has twice the length of a component, and verification
-- accepts it for the same base with any public key that is on the same curve and accepts what
-- crypto/ecdsa signs with the private key, when components are not empty.
pub verify-sign_ecdsa :
    (c : Crypto) (scheme : Scheme c) (base signature : Bytes) (k : c.EcPrivate) (p : c.EcPublic)
    → c.public_curve p ≡ c.private_curve k
    → ((digest : Bytes) (r s : ℕ)
        → c.ecdsa_sign k digest ≡ some (r, s)
        → c.ecdsa_verify p digest r s ≡ true)
    → 0 < scheme.component_len
    → sign c scheme base (ec_private (some k)) ≡ ok signature
    → (length signature ≡ 2 * scheme.component_len)
      × (verify c scheme base signature (ec_public (some p)) ≡ ok tt)
unfolding verify
verify-sign_ecdsa c scheme base signature k p curve accepts long h =
    let is = sign-IsSigned c scheme base signature k h in
    let n = scheme.component_len in
    let (size, read) =
      decode_ecdsa_signature-encode_ecdsa_signature is.r is.s n signature is.written in
    let given : (length signature == 0) ≡ false = ground arith in
    let accepted = accepts (scheme.hash base) is.r is.s is.made in
    (size, rw (is.nonempty, given, curve, is.curve, read, accepted) refl)
