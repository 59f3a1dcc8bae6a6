-- ===== src/Signing/Tests.antt =====
-- Uses of the theorems on the registry and the algorithms.
use http_message_signatures.Common.{
  ℕ, ◌≤◌, ◌<◌, ◌≡◌, refl, ap, true, none, some, [], ◌∷◌, ◌++◌, arith, if◌then◌else◌, length, map,
  All, Bytes, codes, equal, lookup, insert, some_inj,
}
use http_message_signatures.Errors.{ok, err, algorithm_id_empty, invalid_private_key}
use http_message_signatures.Signing.{
  Algorithm, Registry, register_algorithm, get_algorithm, is_empty,
}
use http_message_signatures.Signing.Registered.{get_algorithm-register_algorithm}
use http_message_signatures.Signing.Hmac
use http_message_signatures.Signing.Crypto.{
  Key, secret, rsa_private, rsa_public, ec_public, ed_public, p256, toy,
}
use http_message_signatures.Signing.Rsa
use http_message_signatures.Signing.Rsa.{pss, pkcs1v15}
use http_message_signatures.Signing.Rsa.Checked.{verify-sign_rsa, verify-ok_rsa}
use http_message_signatures.Signing.Ecdsa
use http_message_signatures.Signing.Ecdsa.{p256_scheme}
use http_message_signatures.Signing.Ecdsa.Encoding.{decode_ecdsa_signature-encode_ecdsa_signature}
use http_message_signatures.Signing.Ecdsa.Checked.{verify-sign_ecdsa}
use http_message_signatures.Signing.Ed25519
use http_message_signatures.Signing.Ed25519.Checked.{verify-sign_ed25519}
use http_message_signatures.Signing.Keys.{
  Decoders, validate_rsa_private_key, check_private, parse_private_key, parse_pkcs8_private_key,
  parse_pkcs1_private_key, parse_sec1_private_key,
}
use http_message_signatures.Signing.Keys.{
  parse_public_key, parse_pkix_public_key, parse_pkcs1_public_key,
}
use http_message_signatures.Signing.Keys.Public.{parse_public_key_lem}
use http_message_signatures.Errors.{invalid_public_key}
use http_message_signatures.Signing.Keys.Strict.{
  or_else, IsStrongPrivate, parse_private_key_lem, parse_private_key-IsStrong,
}
use http_message_signatures.Signing.Supported.{algorithms, register_all}
use http_message_signatures.Signing.Supported.Found.{register_all-found}
use http_message_signatures.Signing.Hmac.Checked.{verify-sign, verify-ok}

abbrev test_key : Key toy
test_key = secret (codes "0123456789abcdef")

abbrev test_base : Bytes
test_base = codes "\"@method\": GET"

abbrev test_signature : Bytes
test_signature = toy.hmac_sha256 [] []

verify-sign_example : Hmac.verify toy test_base test_signature test_key ≡ ok tt
unfolding Hmac.sign
verify-sign_example = verify-sign toy test_base test_signature test_key (λ k s. refl) refl

verify-ok_example :
    (s : Bytes) × (test_key ≡ secret s)
    × (16 ≤ length s)
    × (test_signature ≡ toy.hmac_sha256 s test_base)
unfolding Hmac.verify equal
verify-ok_example = verify-ok toy test_base test_signature test_key refl

abbrev hmac_sha256 : Algorithm (Key toy)
hmac_sha256 = Hmac.hmac_sha256 toy

get_algorithm-register_algorithm_example :
    (get_algorithm (Key toy) ((codes "hmac-sha256", hmac_sha256) ∷ []) (codes "hmac-sha256") ≡ (
      if is_empty (codes "hmac-sha256")
      then err algorithm_id_empty
      else if equal (codes "hmac-sha256") (codes "hmac-sha256")
      then ok hmac_sha256
      else get_algorithm (Key toy) [] (codes "hmac-sha256")))
    × (lookup {V = Algorithm (Key toy)} (codes "hmac-sha256") [] ≡ none)
unfolding register_algorithm lookup insert
get_algorithm-register_algorithm_example =
    get_algorithm-register_algorithm (Key toy) hmac_sha256 []
      ((codes "hmac-sha256", hmac_sha256) ∷ []) (codes "hmac-sha256") refl

-- Decoders that find an RSA key of 2048 bits in everything.
abbrev test_decoders : Decoders toy
test_decoders = record {
  pem_decode = λ s. none;
  parse_pkcs8 = λ s. some (rsa_private (some 2048));
  parse_pkcs1_private = λ s. none;
  parse_ec_private = λ s. none;
  parse_pkix = λ s. some (rsa_public (some 2048));
  parse_pkcs1_public = λ s. none;
}

-- Decoders that find an RSA key of 4096 bits in PKCS#1 alone.
abbrev old_decoders : Decoders toy
old_decoders = record {
  pem_decode = λ s. some (codes "der");
  parse_pkcs8 = λ s. none;
  parse_pkcs1_private = λ s. some (some 4096);
  parse_ec_private = λ s. none;
  parse_pkix = λ s. none;
  parse_pkcs1_public = λ s. some (some 4096);
}

pss_accepts :
    (digest t : Bytes)
    → (pss toy).sign_digest 2048 digest ≡ some t
    → (0 < length t) × ((pss toy).verify_digest 2048 digest t ≡ true)
pss_accepts digest t h = rw (← some_inj h) (omega arith, refl)

verify-sign_rsa_example :
    (2048 ≤ 2048)
    × (Rsa.verify toy (pss toy) test_base (codes "signature") (rsa_public (some 2048)) ≡ ok tt)
unfolding Rsa.sign
verify-sign_rsa_example =
    verify-sign_rsa toy (pss toy) test_base (codes "signature") 2048 2048 refl pss_accepts refl

abbrev rsa_key : Key toy
rsa_key = rsa_public (some 4096)

verify-ok_rsa_example :
    (p : ℕ) × (rsa_key ≡ rsa_public (some p))
    × (2048 ≤ p)
    × ((pkcs1v15 toy).verify_digest p ((pkcs1v15 toy).hash test_base) (codes "signature") ≡ true)
unfolding Rsa.verify
verify-ok_rsa_example = verify-ok_rsa toy (pkcs1v15 toy) test_base (codes "signature") rsa_key refl

ecdsa_accepts :
    (digest : Bytes) (r s : ℕ)
    → toy.ecdsa_sign p256 digest ≡ some (r, s)
    → toy.ecdsa_verify p256 digest r s ≡ true
ecdsa_accepts digest r s h = let e = some_inj h in rw (← ap (λ t. t.0) e, ← ap (λ t. t.1) e) refl

-- The numbers 1000 and 2000 in 32 bytes each
abbrev numbers : Bytes
numbers = Ecdsa.fill_bytes 32 1000 ++ Ecdsa.fill_bytes 32 2000

verify-sign_ecdsa_example :
    (length numbers ≡ 64)
    × (Ecdsa.verify toy (p256_scheme toy) test_base numbers (ec_public (some p256)) ≡ ok tt)
unfolding Ecdsa.sign Ecdsa.encode_ecdsa_signature Ecdsa.fits Ecdsa.fill_bytes
verify-sign_ecdsa_example =
    verify-sign_ecdsa toy (p256_scheme toy) test_base numbers p256 p256 refl ecdsa_accepts
      (omega arith) refl

decode_ecdsa_signature-encode_ecdsa_signature_example :
    (length numbers ≡ 64) × (Ecdsa.decode_ecdsa_signature numbers 32 ≡ ok (1000, 2000))
unfolding Ecdsa.encode_ecdsa_signature Ecdsa.fits Ecdsa.fill_bytes
decode_ecdsa_signature-encode_ecdsa_signature_example =
    decode_ecdsa_signature-encode_ecdsa_signature 1000 2000 32 numbers refl

abbrev ed_secret : Bytes
ed_secret = codes "0123456789abcdef0123456789abcdef0123456789abcdef0123456789abcdef"

abbrev ed_key : Bytes
ed_key = codes "0123456789abcdef0123456789abcdef"

verify-sign_ed25519_example :
    (length ed_secret ≡ 64)
    × (Ed25519.verify toy test_base (toy.ed25519_sign ed_secret test_base) (ed_public ed_key)
        ≡ ok tt)
unfolding Ed25519.sign
verify-sign_ed25519_example =
    verify-sign_ed25519 toy test_base (toy.ed25519_sign ed_secret test_base) ed_secret ed_key refl
      (λ s. (refl, refl)) refl

parse_private_key_lem_example :
    parse_private_key old_decoders (codes "key")
    ≡ or_else (parse_pkcs8_private_key old_decoders (codes "key")) (
        or_else
          (parse_pkcs1_private_key old_decoders (codes "key"))
          (or_else (parse_sec1_private_key old_decoders (codes "key")) (err invalid_private_key)))
parse_private_key_lem_example = parse_private_key_lem old_decoders (codes "key")

parse_public_key_lem_example :
    parse_public_key old_decoders (codes "key")
    ≡ or_else
        (parse_pkix_public_key old_decoders (codes "key"))
        (or_else (parse_pkcs1_public_key old_decoders (codes "key")) (err invalid_public_key))
parse_public_key_lem_example = parse_public_key_lem old_decoders (codes "key")

abbrev strong_key : Key toy
strong_key = rsa_private (some 2048)

parse_private_key-IsStrong_example : IsStrongPrivate strong_key
unfolding parse_private_key check_private validate_rsa_private_key
parse_private_key-IsStrong_example =
    parse_private_key-IsStrong test_decoders (codes "key") strong_key refl

abbrev toy_registry : Registry (Key toy)
toy_registry = map (λ alg. (alg.id, alg)) (algorithms toy)

toy_runs : register_all toy (algorithms toy) [] ≡ ok toy_registry
unfolding register_all register_algorithm lookup insert equal
toy_runs = refl

register_all-found_example : All (λ alg. lookup alg.id toy_registry ≡ some alg) (algorithms toy)
register_all-found_example = register_all-found toy (algorithms toy) [] toy_registry toy_runs
