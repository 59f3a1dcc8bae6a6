-- ===== src/Signing/Ecdsa.antt =====
-- pkg/signing/ecdsa.go
pub mod Encoding
pub mod Checked
use http_message_signatures.Common.{
  ℕ, zero, suc, ◌+◌, ◌-◌, ◌*◌, ◌/◌, ◌%◌, ◌<◌, Bool, true, false, not, ◌||◌, Option, none, some, [],
  ◌∷◌, ◌++◌, ◌==◌, length, take, drop, Bytes, codes,
}
use http_message_signatures.Errors.{
  Outcome, ok, err, ◌>>=◌, ◌>>◌, error_if, base_empty, wrong_key_type, verification_failed,
  wrong_signature_length, signature_value_empty, signing_failed, key_nil, wrong_curve,
  component_too_long,
}
use http_message_signatures.Signing.{Algorithm}
use http_message_signatures.Signing.Crypto.{Curve, p256, p384, Crypto, Key, ec_private, ec_public}

-- `big.Int.FillBytes` into `n` bytes, of a number that fits, and `big.Int.SetBytes`.
unfoldable pub fill_bytes : ℕ → ℕ → Bytes
fill_bytes zero v = []
fill_bytes (suc n) v = fill_bytes n (v / 256) ++ (v % 256) ∷ []

unfoldable pub set_bytes : ℕ → Bytes → ℕ
set_bytes v [] = v
set_bytes v (b ∷ s) = set_bytes (v * 256 + b) s

-- `v.BitLen() <= 8 * n`
unfoldable pub fits : ℕ → ℕ → Bool
fits zero v = v == 0
fits (suc n) v = fits n (v / 256)

-- `encodeECDSASignature`
unfoldable pub encode_ecdsa_signature : ℕ → ℕ → ℕ → Outcome Bytes
encode_ecdsa_signature r s component_len = do
  error_if (not (fits component_len r) || not (fits component_len s)) component_too_long
  ok (fill_bytes component_len r ++ fill_bytes component_len s)

-- `decodeECDSASignature`
unfoldable pub decode_ecdsa_signature : Bytes → ℕ → Outcome (ℕ × ℕ)
decode_ecdsa_signature signature component_len = do
  error_if (not (length signature == 2 * component_len)) wrong_signature_length
  ok (set_bytes 0 (take component_len signature), set_bytes 0 (drop component_len signature))

-- The two algorithms differ in the curve, the hash and the length of a component.
pub record Scheme (c : Crypto) : Type 0 where
  pub curve : Curve
  pub hash : Bytes → Bytes
  pub component_len : ℕ

abbrev pub same_curve : Curve → Curve → Bool
same_curve p256 p256 = true
same_curve p384 p384 = true
same_curve _ _ = false

abbrev pub private_key : {c : Crypto} → Key c → Outcome c.EcPrivate
private_key (ec_private (some k)) = ok k
private_key (ec_private none) = err key_nil
private_key _ = err wrong_key_type

abbrev pub public_key : {c : Crypto} → Key c → Outcome c.EcPublic
public_key (ec_public (some k)) = ok k
public_key (ec_public none) = err key_nil
public_key _ = err wrong_key_type

abbrev pub signed : Option (ℕ × ℕ) → Outcome (ℕ × ℕ)
signed none = err signing_failed
signed (some p) = ok p

module _ (c : Crypto) (scheme : Scheme c) where
  -- `Sign` of either algorithm
  unfoldable pub sign : Bytes → Key c → Outcome Bytes
  sign base key = do
    error_if (length base == 0) base_empty
    k ← private_key key
    error_if (not (same_curve (c.private_curve k) scheme.curve)) wrong_curve
    (r, s) ← signed (c.ecdsa_sign k (scheme.hash base))
    encode_ecdsa_signature r s scheme.component_len

  -- `Verify` of either algorithm
  unfoldable pub verify : Bytes → Bytes → Key c → Outcome (Unit {0})
  verify base signature key = do
    error_if (length base == 0) base_empty
    error_if (length signature == 0) signature_value_empty
    k ← public_key key
    error_if (not (same_curve (c.public_curve k) scheme.curve)) wrong_curve
    (r, s) ← decode_ecdsa_signature signature scheme.component_len
    error_if (not (c.ecdsa_verify k (scheme.hash base) r s)) verification_failed

module _ (c : Crypto) where
  -- The components of a P-256 signature have 32 bytes, those of a P-384 signature 48.
  abbrev pub p256_scheme : Scheme c
  p256_scheme = record { curve = p256; hash = c.sha256; component_len = 32 }

  abbrev pub p384_scheme : Scheme c
  p384_scheme = record { curve = p384; hash = c.sha384; component_len = 48 }

  -- `ecdsaP256Algorithm` and `ecdsaP384Algorithm`, with their `ID`
  abbrev pub ecdsa_p256_sha256 : Algorithm (Key c)
  ecdsa_p256_sha256 = record {
    id = codes "ecdsa-p256-sha256";
    sign = sign c p256_scheme;
    verify = verify c p256_scheme;
  }

  abbrev pub ecdsa_p384_sha384 : Algorithm (Key c)
  ecdsa_p384_sha384 = record {
    id = codes "ecdsa-p384-sha384";
    sign = sign c p384_scheme;
    verify = verify c p384_scheme;
  }
