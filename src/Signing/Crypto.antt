-- ===== src/Signing/Crypto.antt =====
-- The crypto packages that pkg/signing calls, as a parameter, and the keys that its functions take.
use http_message_signatures.Common.{ℕ, Bool, true, ◌&&◌, Option, some, ◌==◌, Bytes, codes}

-- `elliptic.P256()`, `elliptic.P384()`, and the curves that are neither.
pub data Curve : Type 0 where
  p256 p384 another_curve : Curve

-- The types and functions of Go's crypto packages. `none` is an error; the randomness of a call is
-- not modelled. An ECDSA signature is a pair of numbers.
pub record Crypto : Type 1 where
  pub RsaPrivate : Type 0
  pub RsaPublic : Type 0
  pub EcPrivate : Type 0
  pub EcPublic : Type 0
  -- `key.N.BitLen()`
  pub private_bits : RsaPrivate → ℕ
  pub public_bits : RsaPublic → ℕ
  pub private_curve : EcPrivate → Curve
  pub public_curve : EcPublic → Curve
  pub sha256 : Bytes → Bytes
  pub sha384 : Bytes → Bytes
  pub sha512 : Bytes → Bytes
  pub hmac_sha256 : Bytes → Bytes → Bytes
  pub sign_pss : RsaPrivate → Bytes → Option Bytes
  pub verify_pss : RsaPublic → Bytes → Bytes → Bool
  pub sign_pkcs1v15 : RsaPrivate → Bytes → Option Bytes
  pub verify_pkcs1v15 : RsaPublic → Bytes → Bytes → Bool
  pub ecdsa_sign : EcPrivate → Bytes → Option (ℕ × ℕ)
  pub ecdsa_verify : EcPublic → Bytes → ℕ → ℕ → Bool
  pub ed25519_sign : Bytes → Bytes → Bytes
  pub ed25519_verify : Bytes → Bytes → Bytes → Bool

-- The `any` that holds a key, by its dynamic type; a nil pointer is `none`. `ed25519.PrivateKey` and
-- `ed25519.PublicKey` are byte slices.
pub data Key (c : Crypto) : Type 0 where
  secret : Bytes → Key c
  rsa_private : Option c.RsaPrivate → Key c
  rsa_public : Option c.RsaPublic → Key c
  ec_private : Option c.EcPrivate → Key c
  ec_public : Option c.EcPublic → Key c
  ed_private : Bytes → Key c
  ed_public : Bytes → Key c
  another : Key c

-- Packages over which every operation runs: a key is the number of its bits or its curve, and a
-- signature does not depend on the message.
abbrev pub toy : Crypto
toy = record {
  RsaPrivate = ℕ;
  RsaPublic = ℕ;
  EcPrivate = Curve;
  EcPublic = Curve;
  private_bits = λ k. k;
  public_bits = λ k. k;
  private_curve = λ k. k;
  public_curve = λ k. k;
  sha256 = λ s. codes "digest";
  sha384 = λ s. codes "digest";
  sha512 = λ s. codes "digest";
  hmac_sha256 = λ k s. codes "0123456789abcdef0123456789abcdef";
  sign_pss = λ k s. some (codes "signature");
  verify_pss = λ k s t. true;
  sign_pkcs1v15 = λ k s. some (codes "signature");
  verify_pkcs1v15 = λ k s t. true;
  ecdsa_sign = λ k s. some (1000, 2000);
  ecdsa_verify = λ k s m n. m == 1000 && n == 2000;
  ed25519_sign = λ k s. codes "0123456789abcdef0123456789abcdef0123456789abcdef0123456789abcdef";
  ed25519_verify = λ k s t. true;
}
