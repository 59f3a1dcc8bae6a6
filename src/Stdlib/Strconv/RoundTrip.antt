-- ===== src/Stdlib/Strconv/RoundTrip.antt =====
-- What is formatted is parsed again, and how many digits it has.
use native.Mathlib.Nat.{pow-suc}
use http_message_signatures.Common.{
  ℕ, zero, suc, ◌+◌, ◌-◌, ◌*◌, ◌/◌, ◌%◌, ◌^◌, ◌≤◌, ◌<◌, ◌≡◌, refl, ap, ◌∙◌, inl, inr, true, some,
  [], ◌∷◌, ◌++◌, arith, ltb, if◌then◌else◌, Bool-cases, length, length-append, all, Bytes, ℤ, pos,
  negsuc, all-append_lem,
}
use http_message_signatures.Stdlib.Strconv.{
  digits, format_int, is_digit_byte, read_digits, max_int64, parse_int,
}

-- The digits are read behind those in front of them.
read_digits-append :
    (n m : ℕ) (s t : Bytes) → read_digits n s ≡ some m → read_digits n (s ++ t) ≡ read_digits m t
unfolding read_digits
read_digits-append n m [] t h = ground arith
read_digits-append n m (c ∷ s) t h = ground (arith, read_digits-append (n * 10 + (c - b'0')) m s t)

read_last : (n d : ℕ) → d < 10 → read_digits n ((b'0' + d) ∷ []) ≡ some (n * 10 + d)
unfolding read_digits
read_last n d h = ground arith

read_first : (d : ℕ) → d < 10 → read_digits 0 ((b'0' + d) ∷ []) ≡ some d
unfolding read_digits
read_first d h = ground arith

tenth_lt : (k n : ℕ) → n < 10 ^ suc k → n / 10 < 10 ^ k
tenth_lt k n h = let e : n < 10 ^ k * 10 = rw pow-suc at h in omega arith

digits_step :
    (k n : ℕ)
    → digits (suc k) n
      ≡ (if ltb n 10 then (b'0' + n) ∷ [] else digits k (n / 10) ++ (b'0' + n % 10) ∷ [])
unfolding digits
digits_step k n = refl

-- With fuel for its digits a number is read back.
pub read_digits-digits : (k n : ℕ) → n < 10 ^ suc k → read_digits 0 (digits (suc k) n) ≡ some n
read_digits-digits zero n h =
    let small : ltb n 10 ≡ true = (let e : n < 10 = h in ground arith) in
    rw (digits_step, small) (read_first n (ground arith))
read_digits-digits (suc k) n h = elim (Bool-cases (ltb n 10)) [
  | inl small ↦ rw (digits_step, small) (read_first n (ground arith))
  | inr large ↦
      rw (digits_step (suc k) n, large)
        (read_digits-append 0 (n / 10) _ _ (read_digits-digits k (n / 10) (tenth_lt (suc k) n h))
          ∙ read_last (n / 10) (n % 10) (omega arith)
          ∙ (let e : n / 10 * 10 + n % 10 ≡ n = omega arith in ap some e))
]

digit_byte : (d : ℕ) → d < 10 → is_digit_byte (b'0' + d) ≡ true
unfolding is_digit_byte
digit_byte d h = ground arith

pub all-digits : (k n : ℕ) → all is_digit_byte (digits k n) ≡ true
all-digits zero n = unfold digits in refl
all-digits (suc k) n = elim (Bool-cases (ltb n 10)) [
  | inl small ↦ rw (digits_step, small, digit_byte n (ground arith)) refl
  | inr large ↦
      rw (digits_step, large)
        (all-append_lem is_digit_byte (digits k (n / 10)) _ (all-digits k (n / 10))
          (rw (digit_byte (n % 10) (omega arith)) refl))
]

-- A number below 10 ^ j has at most j digits.
pub length-digits : (k j n : ℕ) → n < 10 ^ suc j → length (digits k n) ≤ suc j
length-digits zero j n h = unfold digits in omega arith
length-digits (suc k) zero n h =
    let small : ltb n 10 ≡ true = (let e : n < 10 = h in ground arith) in
    rw (digits_step, small) (omega arith)
length-digits (suc k) (suc j) n h = elim (Bool-cases (ltb n 10)) [
  | inl small ↦ rw (digits_step, small) (omega arith)
  | inr large ↦
      rw (digits_step, large)
        (omega (
          arith,
          length-digits k j (n / 10) (tenth_lt (suc j) n h),
          length-append (digits k (n / 10)) ((b'0' + n % 10) ∷ []),
        ))
]

pub digits_pos : (k n : ℕ) → 0 < length (digits (suc k) n)
unfolding digits
digits_pos k n = ground (arith, length-append (digits k (n / 10)) ((b'0' + n % 10) ∷ []))

-- A digit is no sign.
parse_int_pos :
    (s : Bytes) (n : ℕ)
    → 0 < length s
    → all is_digit_byte s ≡ true
    → read_digits 0 s ≡ some n
    → n ≤ max_int64
    → parse_int s ≡ some (pos n)
unfolding parse_int is_digit_byte
parse_int_pos [] n p a r h = absurd (omega arith)
parse_int_pos (c ∷ s) n p a r h = ground arith

parse_int_negsuc :
    (s : Bytes) (n : ℕ)
    → 0 < length s
    → read_digits 0 s ≡ some (suc n)
    → n ≤ max_int64
    → parse_int (b'-' ∷ s) ≡ some (negsuc n)
unfolding parse_int
parse_int_negsuc [] n p r h = absurd (omega arith)
parse_int_negsuc (c ∷ s) n p r h = ground arith

-- The range of an `int64`.
abbrev pub IsInt64 : ℤ → Type 0
IsInt64 (pos n) = n ≤ max_int64
IsInt64 (negsuc n) = n ≤ max_int64

-- Every `int64` is read back from its decimal text.
pub parse_int-format_int : (v : ℤ) → IsInt64 v → parse_int (format_int v) ≡ some v
unfolding format_int
parse_int-format_int (pos n) h =
    parse_int_pos _ n (digits_pos 19 n) (all-digits 20 n) (read_digits-digits 19 n (omega arith)) h
parse_int-format_int (negsuc n) h =
    parse_int_negsuc _ n (digits_pos 19 (suc n)) (read_digits-digits 19 (suc n) (omega arith)) h
