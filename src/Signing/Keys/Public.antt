-- ===== src/Signing/Keys/Public.antt =====
-- The general parser of public keys of pkg/signing/keys.go against the strict ones, and the size of
-- RSA keys.
use http_message_signatures.Common.{
  ◌≤◌, ◌≡◌, refl, sym, inl, inr, false, Option, none, some, [], ◌∷◌, arith, ltb, ◌==◌, Option-cases,
  length, Bytes,
}
use http_message_signatures.Errors.{
  Outcome, ok, err, error_if->>=, ok_inj, rsa_key_too_small, public_key_empty, invalid_public_key,
}
use http_message_signatures.Signing.Crypto.{Crypto, Key, rsa_public, ec_public, ed_public}
use http_message_signatures.Signing.Keys.{
  Decoders, validate_rsa_public_key, check_public, checked_rsa_public, extract_der_bytes,
  parse_pkix_public_key, parse_pkcs1_public_key, parse_public_key,
}
use http_message_signatures.Signing.Keys.Strict.{or_else}

check_public-or_else :
    (c : Crypto) (key : Key c) (n : Outcome (Key c))
    → or_else (check_public c key) n ≡ check_public c key
unfolding check_public validate_rsa_public_key
check_public-or_else c (rsa_public none) n = refl
check_public-or_else c (rsa_public (some k)) n = ground arith
check_public-or_else c _ n = refl

checked_rsa_public-or_else :
    (c : Crypto) (k : Option c.RsaPublic) (n : Outcome (Key c))
    → or_else (checked_rsa_public c k) n ≡ checked_rsa_public c k
unfolding checked_rsa_public validate_rsa_public_key
checked_rsa_public-or_else c none n = refl
checked_rsa_public-or_else c (some k) n = ground arith

-- The general parser of public keys is the strict parsers in turn, PKIX and PKCS#1: the result is
-- that of the first one whose decoder accepts the key, its refusals included, and an error of its
-- own when none does.
pub parse_public_key_lem :
    {c : Crypto} (d : Decoders c) (key_data : Bytes)
    → parse_public_key d key_data
      ≡ or_else
          (parse_pkix_public_key d key_data)
          (or_else (parse_pkcs1_public_key d key_data) (err invalid_public_key))
unfolding parse_public_key parse_pkix_public_key parse_pkcs1_public_key extract_der_bytes
parse_public_key_lem {c} d [] = refl
parse_public_key_lem {c} d (b ∷ s) =
    let der : Bytes = elim (d.pem_decode (b ∷ s)) [ none ↦ b ∷ s | some block ↦ block ] in
    let given : (length (b ∷ s) == 0) ≡ false = ground arith in
    elim (Option-cases (d.parse_pkix der)) [
      | inr (key, e) ↦ rw (given, e) (sym (check_public-or_else c key _))
      | inl e0 ↦ elim (Option-cases (d.parse_pkcs1_public der)) [
        | inr (k, e) ↦ rw (given, e0, e) (sym (checked_rsa_public-or_else c k _))
        | inl e ↦ rw (given, e0, e) refl
      ]
    ]

-- A key that the algorithms take: an RSA key of at least 2048 bits, or a key of another kind.
abbrev pub IsStrongPublic : {c : Crypto} → Key c → Type 0
IsStrongPublic {c} (rsa_public (some k)) = 2048 ≤ c.public_bits k
IsStrongPublic (ec_public k) = Unit {0}
IsStrongPublic (ed_public k) = Unit {0}
IsStrongPublic _ = ⊥

checked_rsa_public-IsStrong :
    (c : Crypto) (k : Option c.RsaPublic) (key : Key c)
    → checked_rsa_public c k ≡ ok key
    → IsStrongPublic key
unfolding checked_rsa_public validate_rsa_public_key
checked_rsa_public-IsStrong c none key h = cc
checked_rsa_public-IsStrong c (some k) key h =
    let (large, same) =
      error_if->>= (ltb (c.public_bits k) 2048) (rsa_key_too_small (c.public_bits k)) _ h in
    rw (sym (ok_inj same)) (ground arith)

check_public-IsStrong :
    (c : Crypto) (given key : Key c) → check_public c given ≡ ok key → IsStrongPublic key
unfolding check_public
check_public-IsStrong c (rsa_public k) key h =
    checked_rsa_public-IsStrong c k key (unfold checked_rsa_public in h)
check_public-IsStrong c (ec_public k) key h = rw (sym (ok_inj h)) tt
check_public-IsStrong c (ed_public k) key h = rw (sym (ok_inj h)) tt
check_public-IsStrong c _ key h = cc

-- A public key that the general parser returns is an RSA key of at least 2048 bits, an ECDSA key or
-- an Ed25519 key.
pub parse_public_key-IsStrong :
    {c : Crypto} (d : Decoders c) (key_data : Bytes) (key : Key c)
    → parse_public_key d key_data ≡ ok key
    → IsStrongPublic key
unfolding parse_public_key
parse_public_key-IsStrong {c} d key_data key h =
    let (given, h1) = error_if->>= (length key_data == 0) public_key_empty _ h in
    let der : Bytes = elim (d.pem_decode key_data) [ none ↦ key_data | some block ↦ block ] in
    elim (Option-cases (d.parse_pkix der)) [
      | inr (k, e) ↦ check_public-IsStrong c k key (rw e at h1)
      | inl e0 ↦ elim (Option-cases (d.parse_pkcs1_public der)) [
        | inr (k, e) ↦ checked_rsa_public-IsStrong c k key (rw (e0, e) at h1)
        | inl e ↦ cc (rw (e0, e) at h1)
      ]
    ]
