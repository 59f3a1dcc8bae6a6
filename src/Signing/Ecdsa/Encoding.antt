-- ===== src/Signing/Ecdsa/Encoding.antt =====
-- The fixed-length encoding of an ECDSA signature in pkg/signing/ecdsa.go.
use http_message_signatures.Common.{
  ℕ, zero, suc, ◌+◌, ◌*◌, ◌/◌, ◌%◌, ◌≡◌, refl, sym, ◌∙◌, true, not, ◌||◌, [], ◌∷◌, ◌++◌, arith,
  ==_iff, length, take, drop, length-append, drop-append, take-append, All, All-append, Bytes,
  IsByte,
}
use http_message_signatures.Errors.{ok, error_if->>=, ok_inj, component_too_long}
use http_message_signatures.Signing.Ecdsa.{
  fill_bytes, set_bytes, fits, encode_ecdsa_signature, decode_ecdsa_signature,
}

pub length-fill_bytes : (n v : ℕ) → length (fill_bytes n v) ≡ n
unfolding fill_bytes
length-fill_bytes zero v = refl
length-fill_bytes (suc n) v =
    omega (
      arith,
      length-append (fill_bytes n (v / 256)) ((v % 256) ∷ []),
      length-fill_bytes n (v / 256),
    )

fill_bytes-IsByte : (n v : ℕ) → All IsByte (fill_bytes n v)
unfolding fill_bytes
fill_bytes-IsByte zero v = tt
fill_bytes-IsByte (suc n) v =
    All-append IsByte (fill_bytes n (v / 256)) _ (fill_bytes-IsByte n (v / 256)) (omega arith, tt)

set_bytes-append : (v : ℕ) (s t : Bytes) → set_bytes v (s ++ t) ≡ set_bytes (set_bytes v s) t
unfolding set_bytes
set_bytes-append v [] t = refl
set_bytes-append v (b ∷ s) t = set_bytes-append (v * 256 + b) s t

-- A number that fits is read back from its bytes.
pub set_bytes-fill_bytes : (n v : ℕ) → fits n v ≡ true → set_bytes 0 (fill_bytes n v) ≡ v
unfolding fill_bytes fits
set_bytes-fill_bytes zero v h = unfold set_bytes in ground arith
set_bytes-fill_bytes (suc n) v h =
    let again = set_bytes-fill_bytes n (v / 256) h in
    set_bytes-append 0 (fill_bytes n (v / 256)) ((v % 256) ∷ [])
    ∙ (rw again (unfold set_bytes in omega arith))

-- What is encoded has twice the length of a component, and both numbers are read back from it.
pub decode_ecdsa_signature-encode_ecdsa_signature :
    (r s n : ℕ) (signature : Bytes)
    → encode_ecdsa_signature r s n ≡ ok signature
    → (length signature ≡ 2 * n) × (decode_ecdsa_signature signature n ≡ ok (r, s))
unfolding encode_ecdsa_signature decode_ecdsa_signature
decode_ecdsa_signature-encode_ecdsa_signature r s n signature h =
    let (fit, same) = error_if->>= (not (fits n r) || not (fits n s)) component_too_long _ h in
    let front = fill_bytes n r in
    let back = fill_bytes n s in
    let text : front ++ back ≡ signature = ok_inj same in
    let size : length (front ++ back) ≡ 2 * n =
      omega (arith, length-append front back, length-fill_bytes n r, length-fill_bytes n s) in
    let first : take n (front ++ back) ≡ front =
      rw (length-fill_bytes n r) at (take-append front back) in
    let second : drop n (front ++ back) ≡ back =
      rw (length-fill_bytes n r) at (drop-append front back) in
    let r_fits : fits n r ≡ true = ground arith in
    let s_fits : fits n s ≡ true = ground arith in
    rw (sym text) (
      size,
      rw
          (
            (==_iff _ (2 * n)).1 size,
            first,
            second,
            set_bytes-fill_bytes n r r_fits,
            set_bytes-fill_bytes n s s_fits,
          )
          refl,
    )
