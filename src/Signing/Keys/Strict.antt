-- ===== src/Signing/Keys/Strict.antt =====
-- The lenient parsers of pkg/signing/keys.go against the strict ones, and the size of RSA keys.
use http_message_signatures.Common.{
  ◌≤◌, ◌≡◌, refl, sym, inl, inr, Bool, true, false, Option, none, some, [], ◌∷◌, arith, ltb, ◌==◌,
  if◌then◌else◌, Option-cases, length, Bytes,
}
use http_message_signatures.Errors.{
  Outcome, ok, err, error_if->>=, ok_inj, rsa_key_too_small, private_key_empty, invalid_private_key,
  not_pkcs1_private, not_pkcs8_private, not_sec1_private, not_pkix_public, not_pkcs1_public,
}
use http_message_signatures.Signing.Crypto.{Crypto, Key, rsa_private, ec_private, ed_private}
use http_message_signatures.Signing.Keys.{
  Decoders, validate_rsa_private_key, check_private, checked_rsa_private, extract_der_bytes,
  parse_pkcs8_private_key, parse_pkcs1_private_key, parse_sec1_private_key, parse_private_key,
}

-- The refusals of a format, which the lenient parsers pass over.
abbrev pub refused : {A : Type 0} → Outcome A → Bool
refused (err not_pkcs8_private) = true
refused (err not_pkcs1_private) = true
refused (err not_sec1_private) = true
refused (err not_pkix_public) = true
refused (err not_pkcs1_public) = true
refused _ = false

abbrev pub or_else : {A : Type 0} → Outcome A → Outcome A → Outcome A
or_else m n = if refused m then n else m

check_private-or_else :
    (c : Crypto) (key : Key c) (n : Outcome (Key c))
    → or_else (check_private c key) n ≡ check_private c key
unfolding check_private validate_rsa_private_key
check_private-or_else c (rsa_private none) n = refl
check_private-or_else c (rsa_private (some k)) n = ground arith
check_private-or_else c _ n = refl

checked_rsa_private-or_else :
    (c : Crypto) (k : Option c.RsaPrivate) (n : Outcome (Key c))
    → or_else (checked_rsa_private c k) n ≡ checked_rsa_private c k
unfolding checked_rsa_private validate_rsa_private_key
checked_rsa_private-or_else c none n = refl
checked_rsa_private-or_else c (some k) n = ground arith

-- The general parser of private keys is the strict parsers in turn, PKCS#8, PKCS#1 and SEC1: the
-- result is that of the first one whose decoder accepts the key, its refusals included, and an
-- error of its own when none does.
pub parse_private_key_lem :
    {c : Crypto} (d : Decoders c) (key_data : Bytes)
    → parse_private_key d key_data
      ≡ or_else (parse_pkcs8_private_key d key_data) (
          or_else
            (parse_pkcs1_private_key d key_data)
            (or_else (parse_sec1_private_key d key_data) (err invalid_private_key)))
unfolding parse_private_key parse_pkcs8_private_key parse_pkcs1_private_key parse_sec1_private_key
    extract_der_bytes
parse_private_key_lem {c} d [] = refl
parse_private_key_lem {c} d (b ∷ s) =
    let der : Bytes = elim (d.pem_decode (b ∷ s)) [ none ↦ b ∷ s | some block ↦ block ] in
    let given : (length (b ∷ s) == 0) ≡ false = ground arith in
    elim (Option-cases (d.parse_pkcs8 der)) [
      | inr (key, e) ↦ rw (given, e) (sym (check_private-or_else c key _))
      | inl e8 ↦ elim (Option-cases (d.parse_pkcs1_private der)) [
        | inr (k, e) ↦ rw (given, e8, e) (sym (checked_rsa_private-or_else c k _))
        | inl e1 ↦ elim (Option-cases (d.parse_ec_private der)) [
          | inr (k, e) ↦ rw (given, e8, e1, e) refl
          | inl e ↦ rw (given, e8, e1, e) refl
        ]
      ]
    ]

-- A key that the algorithms take: an RSA key of at least 2048 bits, or a key of another kind.
abbrev pub IsStrongPrivate : {c : Crypto} → Key c → Type 0
IsStrongPrivate {c} (rsa_private (some k)) = 2048 ≤ c.private_bits k
IsStrongPrivate (ec_private k) = Unit {0}
IsStrongPrivate (ed_private k) = Unit {0}
IsStrongPrivate _ = ⊥

checked_rsa_private-IsStrong :
    (c : Crypto) (k : Option c.RsaPrivate) (key : Key c)
    → checked_rsa_private c k ≡ ok key
    → IsStrongPrivate key
unfolding checked_rsa_private validate_rsa_private_key
checked_rsa_private-IsStrong c none key h = cc
checked_rsa_private-IsStrong c (some k) key h =
    let (large, same) =
      error_if->>= (ltb (c.private_bits k) 2048) (rsa_key_too_small (c.private_bits k)) _ h in
    rw (sym (ok_inj same)) (ground arith)

check_private-IsStrong :
    (c : Crypto) (given key : Key c) → check_private c given ≡ ok key → IsStrongPrivate key
unfolding check_private
check_private-IsStrong c (rsa_private k) key h =
    checked_rsa_private-IsStrong c k key (unfold checked_rsa_private in h)
check_private-IsStrong c (ec_private k) key h = rw (sym (ok_inj h)) tt
check_private-IsStrong c (ed_private k) key h = rw (sym (ok_inj h)) tt
check_private-IsStrong c _ key h = cc

-- A private key that the general parser returns is an RSA key of at least 2048 bits, an ECDSA key
-- or an Ed25519 key.
pub parse_private_key-IsStrong :
    {c : Crypto} (d : Decoders c) (key_data : Bytes) (key : Key c)
    → parse_private_key d key_data ≡ ok key
    → IsStrongPrivate key
unfolding parse_private_key
parse_private_key-IsStrong {c} d key_data key h =
    let (given, h1) = error_if->>= (length key_data == 0) private_key_empty _ h in
    let der : Bytes = elim (d.pem_decode key_data) [ none ↦ key_data | some block ↦ block ] in
    elim (Option-cases (d.parse_pkcs8 der)) [
      | inr (k, e) ↦ check_private-IsStrong c k key (rw e at h1)
      | inl e8 ↦ elim (Option-cases (d.parse_pkcs1_private der)) [
        | inr (k, e) ↦ checked_rsa_private-IsStrong c k key (rw (e8, e) at h1)
        | inl e1 ↦ elim (Option-cases (d.parse_ec_private der)) [
          | inr (k, e) ↦ rw (sym (ok_inj (rw (e8, e1, e) at h1))) tt
          | inl e ↦ cc (rw (e8, e1, e) at h1)
        ]
      ]
    ]
