-- ===== src/Stdlib/Base64/RoundTrip.antt =====
-- What is encoded is decoded again, and only alphabet bytes and padding are written.
use http_message_signatures.Common.{
  ℕ, ◌+◌, ◌*◌, ◌/◌, ◌%◌, ◌<◌, ◌≡◌, refl, Bool, true, false, [], ◌∷◌, some, arith, Bytes, IsByte,
  All, all, ◌==◌,
}
use http_message_signatures.Stdlib.Base64.{
  encode_digit, decode_digit, encode, decode_std, pair, triple, quantum, byte₁, byte₂, byte₃,
}

decode_digit-encode_digit : (n : ℕ) → n < 64 → decode_digit (encode_digit n) ≡ some n
unfolding decode_digit encode_digit
decode_digit-encode_digit n h = ground arith

encode_digit_ne_pad : (n : ℕ) → (encode_digit n == b'=') ≡ false
unfolding encode_digit
encode_digit_ne_pad n = ground arith

module _ (m n : ℕ) (hm : m < 64) (hn : n < 64) where
  pair_encoded : pair (encode_digit m) (encode_digit n) ≡ some (byte₁ m n ∷ [])
  pair_encoded = rw (decode_digit-encode_digit m hm, decode_digit-encode_digit n hn)

  triple_encoded :
      (k : ℕ)
      → k < 64
      → triple (encode_digit m) (encode_digit n) (encode_digit k)
        ≡ some (byte₁ m n ∷ byte₂ n k ∷ [])
  triple_encoded k hk = rw (
    decode_digit-encode_digit m hm,
    decode_digit-encode_digit n hn,
    decode_digit-encode_digit k hk,
  )

  quantum_encoded :
      (k l : ℕ) (s : Bytes)
      → k < 64
      → l < 64
      → quantum (encode_digit m) (encode_digit n) (encode_digit k) (encode_digit l) (some s)
        ≡ some (byte₁ m n ∷ byte₂ n k ∷ byte₃ k l ∷ s)
  quantum_encoded k l s hk hl = rw (
    decode_digit-encode_digit m hm,
    decode_digit-encode_digit n hn,
    decode_digit-encode_digit k hk,
    decode_digit-encode_digit l hl,
  )

-- Three bytes survive the split into four digits.
regroup :
    (a b c : ℕ)
    → a < 256
    → b < 256
    → c < 256
    → (byte₁ (a / 4) (a % 4 * 16 + b / 16) ≡ a)
      × (byte₂ (a % 4 * 16 + b / 16) (b % 16 * 4 + c / 64) ≡ b)
      × (byte₃ (b % 16 * 4 + c / 64) (c % 64) ≡ c)
regroup a b c ha hb hc = (omega arith, omega arith, omega arith)

-- Every byte string is read back from its padded base64 text.
pub decode_std-encode : (s : Bytes) → All IsByte s → decode_std (encode s) ≡ some s
unfolding encode decode_std
decode_std-encode [] h = refl
decode_std-encode (a ∷ []) h =
    rw (pair_encoded (a / 4) (a % 4 * 16) (omega arith) (omega arith))
      (let e : byte₁ (a / 4) (a % 4 * 16) ≡ a = omega arith in rw e)
decode_std-encode (a ∷ b ∷ []) h =
    rw
      (
        encode_digit_ne_pad,
        triple_encoded (a / 4) (a % 4 * 16 + b / 16) (omega arith) (omega arith) (b % 16 * 4)
            (omega arith),
      )
      (let e : byte₁ (a / 4) (a % 4 * 16 + b / 16) ≡ a = omega arith in
        let e' : byte₂ (a % 4 * 16 + b / 16) (b % 16 * 4) ≡ b = omega arith in rw (e, e'))
decode_std-encode (a ∷ b ∷ c ∷ s) (ha, (hb, (hc, hs))) =
    let r = regroup a b c ha hb hc in
    rw
      (
        encode_digit_ne_pad (b % 16 * 4 + c / 64),
        encode_digit_ne_pad (c % 64),
        decode_std-encode s hs,
        quantum_encoded (a / 4) (a % 4 * 16 + b / 16) (omega arith) (omega arith)
            (b % 16 * 4 + c / 64) (c % 64) s (omega arith) (omega arith),
      )
      (rw (r.0, r.1, r.2))

module _ (ok : ℕ → Bool) (pad : ok b'=' ≡ true) (digit : (n : ℕ) → ok (encode_digit n) ≡ true) where
  -- A test that the alphabet and the padding pass holds of all that is written.
  pub all-encode : (s : Bytes) → all ok (encode s) ≡ true
  unfolding encode
  all-encode [] = refl
  all-encode (a ∷ []) = simp (digit, pad)
  all-encode (a ∷ b ∷ []) = simp (digit, pad)
  all-encode (a ∷ b ∷ c ∷ s) = simp (digit, all-encode s)
