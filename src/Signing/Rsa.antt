-- ===== src/Signing/Rsa.antt =====
-- pkg/signing/rsa.go
pub mod Checked
use http_message_signatures.Common.{
  ◌-◌, ◌*◌, ◌/◌, Bool, not, Option, none, some, ltb, ◌==◌, length, Bytes, codes,
}
use http_message_signatures.Errors.{
  Outcome, ok, err, ◌>>=◌, ◌>>◌, error_if, base_empty, wrong_key_type, verification_failed,
  signature_value_empty, nil_dereference, rsa_key_too_small, signing_failed,
}
use http_message_signatures.Signing.{Algorithm}
use http_message_signatures.Signing.Crypto.{Crypto, Key, rsa_private, rsa_public}

-- The two padding schemes differ in their hash and in the calls of crypto/rsa.
pub record Scheme (c : Crypto) : Type 0 where
  pub hash : Bytes → Bytes
  pub sign_digest : c.RsaPrivate → Bytes → Option Bytes
  pub verify_digest : c.RsaPublic → Bytes → Bytes → Bool

-- `key.(*rsa.PrivateKey)` and `key.(*rsa.PublicKey)`; the size of a nil key is a panic.
abbrev pub private_key : {c : Crypto} → Key c → Outcome c.RsaPrivate
private_key (rsa_private (some k)) = ok k
private_key (rsa_private none) = err nil_dereference
private_key _ = err wrong_key_type

abbrev pub public_key : {c : Crypto} → Key c → Outcome c.RsaPublic
public_key (rsa_public (some k)) = ok k
public_key (rsa_public none) = err nil_dereference
public_key _ = err wrong_key_type

module _ (c : Crypto) (scheme : Scheme c) where
  -- `Sign` of either algorithm
  unfoldable pub sign : Bytes → Key c → Outcome Bytes
  sign base key = do
    error_if (length base == 0) base_empty
    k ← private_key key
    error_if (ltb (c.private_bits k) 2048) (rsa_key_too_small (c.private_bits k))
    elim (scheme.sign_digest k (scheme.hash base)) [ none ↦ err signing_failed | some s ↦ ok s ]

  -- `Verify` of either algorithm
  unfoldable pub verify : Bytes → Bytes → Key c → Outcome (Unit {0})
  verify base signature key = do
    error_if (length base == 0) base_empty
    error_if (length signature == 0) signature_value_empty
    k ← public_key key
    error_if (ltb (c.public_bits k) 2048) (rsa_key_too_small (c.public_bits k))
    error_if (not (scheme.verify_digest k (scheme.hash base) signature)) verification_failed

module _ (c : Crypto) where
  -- The calls with SHA-512 and PSS, and with SHA-256 and PKCS1-v1_5
  abbrev pub pss : Scheme c
  pss = record { hash = c.sha512; sign_digest = c.sign_pss; verify_digest = c.verify_pss }

  abbrev pub pkcs1v15 : Scheme c
  pkcs1v15 = record {
    hash = c.sha256;
    sign_digest = c.sign_pkcs1v15;
    verify_digest = c.verify_pkcs1v15;
  }

  -- `rsaPSSAlgorithm` and `rsaPKCS1v15Algorithm`, with their `ID`
  abbrev pub rsa_pss_sha512 : Algorithm (Key c)
  rsa_pss_sha512 = record { id = codes "rsa-pss-sha512"; sign = sign c pss; verify = verify c pss }

  abbrev pub rsa_v1_5_sha256 : Algorithm (Key c)
  rsa_v1_5_sha256 = record {
    id = codes "rsa-v1_5-sha256";
    sign = sign c pkcs1v15;
    verify = verify c pkcs1v15;
  }
