-- ===== src/Signing/Rsa/Checked.antt =====
-- What signing and verification in pkg/signing/rsa.go promise each other.
use http_message_signatures.Common.{
  ◌≤◌, ◌<◌, ◌≡◌, refl, ap, ◌∙◌, inl, inr, true, false, not, none, some, arith, ltb, ◌==◌,
  Option-cases, length, Bytes,
}
use http_message_signatures.Errors.{
  ok, err, >>=-eq-ok, base_empty, verification_failed, signature_value_empty, error_if-ok,
  error_if->>=, ok_inj, rsa_key_too_small, signing_failed,
}
use http_message_signatures.Signing.Crypto.{Crypto, Key, rsa_private, rsa_public}
use http_message_signatures.Signing.Rsa.{Scheme, public_key, sign, verify}

public_key_lem :
    {c : Crypto} (key : Key c) (p : c.RsaPublic) → public_key key ≡ ok p → key ≡ rsa_public (some p)
public_key_lem (rsa_public (some q)) p h = ap (λ x. rsa_public (some x)) (ok_inj h)
public_key_lem (rsa_public none) p h = cc
public_key_lem _ p h = cc

-- RSA signing succeeds only with a private key of at least 2048 bits, and verification accepts the
-- signature for the same base and with any public key of as many bits that accepts what crypto/rsa
-- signs with the private key, when that is not empty.
pub verify-sign_rsa :
    (c : Crypto) (scheme : Scheme c) (base signature : Bytes) (k : c.RsaPrivate) (p : c.RsaPublic)
    → c.public_bits p ≡ c.private_bits k
    → ((digest t : Bytes)
        → scheme.sign_digest k digest ≡ some t
        → (0 < length t) × (scheme.verify_digest p digest t ≡ true))
    → sign c scheme base (rsa_private (some k)) ≡ ok signature
    → (2048 ≤ c.private_bits k) × (verify c scheme base signature (rsa_public (some p)) ≡ ok tt)
unfolding sign verify
verify-sign_rsa c scheme base signature k p bits accepts h =
    let (nonempty, h1) = error_if->>= (length base == 0) base_empty _ h in
    let (large, h2) =
      error_if->>= (ltb (c.private_bits k) 2048) (rsa_key_too_small (c.private_bits k)) _ h1 in
    elim (Option-cases (scheme.sign_digest k (scheme.hash base))) [
      | inl failed ↦ absurd (ne (rw failed at h2))
      | inr (t, e) ↦
          let same : t ≡ signature = ok_inj (rw e at h2) in
          let (long, accepted) = accepts (scheme.hash base) signature (e ∙ ap some same) in
          let given : (length signature == 0) ≡ false = ground arith in
          (ground arith, rw (nonempty, given, bits, large, accepted) refl)
    ]
  where
    ne : err signing_failed ≡ ok signature → ⊥
    ne e = cc

-- A signature that RSA verification accepts was checked by crypto/rsa against the hash of the base,
-- with a public key of at least 2048 bits.
pub verify-ok_rsa :
    (c : Crypto) (scheme : Scheme c) (base signature : Bytes) (key : Key c)
    → verify c scheme base signature key ≡ ok tt
    → (p : c.RsaPublic) × (key ≡ rsa_public (some p))
      × (2048 ≤ c.public_bits p)
      × (scheme.verify_digest p (scheme.hash base) signature ≡ true)
unfolding verify
verify-ok_rsa c scheme base signature key h =
    let (some_base, h1) = error_if->>= (length base == 0) base_empty _ h in
    let (given, h2) = error_if->>= (length signature == 0) signature_value_empty _ h1 in
    let (p, e, h3) = >>=-eq-ok (public_key key) _ h2 in
    let (large, h4) =
      error_if->>= (ltb (c.public_bits p) 2048) (rsa_key_too_small (c.public_bits p)) _ h3 in
    let checked = scheme.verify_digest p (scheme.hash base) signature in
    let accepted = error_if-ok (not checked) verification_failed h4 in
    (p, public_key_lem key p e, ground arith, ground arith)
