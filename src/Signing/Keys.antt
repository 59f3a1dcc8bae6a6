-- ===== src/Signing/Keys.antt =====
-- pkg/signing/keys.go, over the decoders of encoding/pem and crypto/x509.
pub mod Strict
pub mod Public
use http_message_signatures.Common.{◌-◌, ◌/◌, Option, none, some, ltb, ◌==◌, length, Bytes}
use http_message_signatures.Errors.{
  Error, Outcome, ok, err, ◌>>=◌, ◌>>◌, error_if, rsa_key_too_small, key_nil, private_key_empty,
  public_key_empty, unsupported_key_type, invalid_private_key, invalid_public_key,
  not_pkcs1_private, not_pkcs8_private, not_sec1_private, not_pkix_public, not_pkcs1_public,
}
use http_message_signatures.Signing.Crypto.{
  Crypto, Key, rsa_private, rsa_public, ec_private, ec_public, ed_private, ed_public,
}

-- `pem.Decode`, with the bytes of the block that it finds, and the parsers of crypto/x509; `none` is
-- an error.
pub record Decoders (c : Crypto) : Type 0 where
  pub pem_decode : Bytes → Option Bytes
  pub parse_pkcs8 : Bytes → Option (Key c)
  pub parse_pkcs1_private : Bytes → Option (Option c.RsaPrivate)
  pub parse_ec_private : Bytes → Option (Option c.EcPrivate)
  pub parse_pkix : Bytes → Option (Key c)
  pub parse_pkcs1_public : Bytes → Option (Option c.RsaPublic)

abbrev pub or_err : {A : Type 0} → Error → Option A → Outcome A
or_err e none = err e
or_err e (some a) = ok a

module _ (c : Crypto) where
  -- `validateRSAPrivateKey` and `validateRSAPublicKey`
  unfoldable pub validate_rsa_private_key : Option c.RsaPrivate → Outcome (Unit {0})
  validate_rsa_private_key none = err key_nil
  validate_rsa_private_key (some k) =
      error_if (ltb (c.private_bits k) 2048) (rsa_key_too_small (c.private_bits k))

  unfoldable pub validate_rsa_public_key : Option c.RsaPublic → Outcome (Unit {0})
  validate_rsa_public_key none = err key_nil
  validate_rsa_public_key (some k) =
      error_if (ltb (c.public_bits k) 2048) (rsa_key_too_small (c.public_bits k))

  -- The switch on the type of a key from PKCS#8, and from PKIX.
  unfoldable pub check_private : Key c → Outcome (Key c)
  check_private (rsa_private k) = do validate_rsa_private_key k; ok (rsa_private k)
  check_private (ec_private k) = ok (ec_private k)
  check_private (ed_private k) = ok (ed_private k)
  check_private _ = err unsupported_key_type

  unfoldable pub check_public : Key c → Outcome (Key c)
  check_public (rsa_public k) = do validate_rsa_public_key k; ok (rsa_public k)
  check_public (ec_public k) = ok (ec_public k)
  check_public (ed_public k) = ok (ed_public k)
  check_public _ = err unsupported_key_type

  unfoldable pub checked_rsa_private : Option c.RsaPrivate → Outcome (Key c)
  checked_rsa_private k = do validate_rsa_private_key k; ok (rsa_private k)

  unfoldable pub checked_rsa_public : Option c.RsaPublic → Outcome (Key c)
  checked_rsa_public k = do validate_rsa_public_key k; ok (rsa_public k)

module _ {c : Crypto} (d : Decoders c) where
  -- `extractDERBytes`
  unfoldable pub extract_der_bytes : Bytes → Bytes
  extract_der_bytes key_data = elim (d.pem_decode key_data) [ none ↦ key_data | some der ↦ der ]

  -- `ParsePKCS8PrivateKey`, `ParsePKCS1PrivateKey` and `ParseSEC1PrivateKey`
  unfoldable pub parse_pkcs8_private_key : Bytes → Outcome (Key c)
  parse_pkcs8_private_key key_data = do
    error_if (length key_data == 0) private_key_empty
    key ← or_err not_pkcs8_private (d.parse_pkcs8 (extract_der_bytes key_data))
    check_private c key

  unfoldable pub parse_pkcs1_private_key : Bytes → Outcome (Key c)
  parse_pkcs1_private_key key_data = do
    error_if (length key_data == 0) private_key_empty
    k ← or_err not_pkcs1_private (d.parse_pkcs1_private (extract_der_bytes key_data))
    checked_rsa_private c k

  unfoldable pub parse_sec1_private_key : Bytes → Outcome (Key c)
  parse_sec1_private_key key_data = do
    error_if (length key_data == 0) private_key_empty
    k ← or_err not_sec1_private (d.parse_ec_private (extract_der_bytes key_data))
    ok (ec_private k)

  -- `ParsePKIXPublicKey` and `ParsePKCS1PublicKey`
  unfoldable pub parse_pkix_public_key : Bytes → Outcome (Key c)
  parse_pkix_public_key key_data = do
    error_if (length key_data == 0) public_key_empty
    key ← or_err not_pkix_public (d.parse_pkix (extract_der_bytes key_data))
    check_public c key

  unfoldable pub parse_pkcs1_public_key : Bytes → Outcome (Key c)
  parse_pkcs1_public_key key_data = do
    error_if (length key_data == 0) public_key_empty
    k ← or_err not_pkcs1_public (d.parse_pkcs1_public (extract_der_bytes key_data))
    checked_rsa_public c k

  -- `ParsePrivateKey`: PKCS#8, then PKCS#1, then SEC1.
  unfoldable pub parse_private_key : Bytes → Outcome (Key c)
  parse_private_key key_data = do
    error_if (length key_data == 0) private_key_empty
    let der : Bytes = elim (d.pem_decode key_data) [ none ↦ key_data | some block ↦ block ]
    elim (d.parse_pkcs8 der) [
      | some key ↦ check_private c key
      | none ↦ elim (d.parse_pkcs1_private der) [
        | some k ↦ checked_rsa_private c k
        | none ↦ elim (d.parse_ec_private der) [
          | some k ↦ ok (ec_private k)
          | none ↦ err invalid_private_key
        ]
      ]
    ]

  -- `ParsePublicKey`: PKIX, then PKCS#1.
  unfoldable pub parse_public_key : Bytes → Outcome (Key c)
  parse_public_key key_data = do
    error_if (length key_data == 0) public_key_empty
    let der : Bytes = elim (d.pem_decode key_data) [ none ↦ key_data | some block ↦ block ]
    elim (d.parse_pkix der) [
      | some key ↦ check_public c key
      | none ↦ elim (d.parse_pkcs1_public der) [
        | some k ↦ checked_rsa_public c k
        | none ↦ err invalid_public_key
      ]
    ]
