-- ===== src/Signing/Ed25519.antt =====
-- pkg/signing/ed25519.go
pub mod Checked
use http_message_signatures.Common.{◌-◌, ◌/◌, not, ◌==◌, length, Bytes, codes}
use http_message_signatures.Errors.{
  Outcome, ok, err, ◌>>=◌, ◌>>◌, error_if, base_empty, wrong_key_type, key_empty,
  verification_failed, wrong_signature_length, signature_value_empty, wrong_key_length,
}
use http_message_signatures.Signing.{Algorithm}
use http_message_signatures.Signing.Crypto.{Crypto, Key, ed_private, ed_public}

abbrev pub private_key : {c : Crypto} → Key c → Outcome Bytes
private_key (ed_private k) = ok k
private_key _ = err wrong_key_type

abbrev pub public_key : {c : Crypto} → Key c → Outcome Bytes
public_key (ed_public k) = ok k
public_key _ = err wrong_key_type

module _ (c : Crypto) where
  -- `Sign`
  unfoldable pub sign : Bytes → Key c → Outcome Bytes
  sign base key = do
    error_if (length base == 0) base_empty
    k ← private_key key
    error_if (length k == 0) key_empty
    error_if (not (length k == 64)) (wrong_key_length (length k))
    ok (c.ed25519_sign k base)

  -- `Verify`
  unfoldable pub verify : Bytes → Bytes → Key c → Outcome (Unit {0})
  verify base signature key = do
    error_if (length base == 0) base_empty
    error_if (length signature == 0) signature_value_empty
    error_if (not (length signature == 64)) wrong_signature_length
    k ← public_key key
    error_if (length k == 0) key_empty
    error_if (not (length k == 32)) (wrong_key_length (length k))
    error_if (not (c.ed25519_verify k base signature)) verification_failed

  -- `ed25519Algorithm`, with its `ID`
  abbrev pub ed25519 : Algorithm (Key c)
  ed25519 = record { id = codes "ed25519"; sign = sign; verify = verify }
