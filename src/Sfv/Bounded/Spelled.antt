-- ===== src/Sfv/Bounded/Spelled.antt =====
-- pkg/sfv/primitives.go: the integers that digits spell.
use http_message_signatures.Common.{
  ℕ, zero, suc, ◌+◌, ◌-◌, ◌*◌, ◌^◌, ◌≤◌, ◌<◌, ◌≡◌, inl, inr, Bool, true, false, none, some, [], ◌∷◌,
  arith, leb, ◌==◌, Bool-cases, Option-cases, length, all, Bytes, ℤ, some_inj, none-some,
}
use http_message_signatures.Stdlib.Strconv
use http_message_signatures.Stdlib.Strconv.{read_digits, is_digit_byte, parse_int}
use http_message_signatures.Sfv.Primitives.{is_digit}
use http_message_signatures.Sfv.Reads.Numbers.{IsSfInteger}

-- Powers of ten, and the bound on what digits spell
pow10 : ℕ → ℕ
pow10 zero = 1
pow10 (suc k) = 10 * pow10 k

pow10_pos : (k : ℕ) → 0 < pow10 k
unfolding pow10
pow10_pos zero = omega arith
pow10_pos (suc k) = omega (arith, pow10_pos k)

digit-small : (c : ℕ) → is_digit_byte c ≡ true → c - b'0' ≤ 9
unfolding is_digit_byte
digit-small c h = ground arith

read_digits-bound :
    (k n m : ℕ) (s : Bytes) → length s ≤ k → read_digits n s ≡ some m → m < (n + 1) * pow10 k
unfolding read_digits pow10
read_digits-bound k n m [] h e =
    let i : n ≡ m = let j : some n ≡ some m = e in cc in let j = pow10_pos k in grind arith
read_digits-bound zero n m (c ∷ s) h e = let x : ⊥ = omega (arith, h) in elim x [ ]
read_digits-bound (suc k) n m (c ∷ s) h e = elim (Bool-cases (is_digit_byte c)) [
  | inl d ↦
      let h' = read_digits-bound k (n * 10 + (c - b'0')) m s (omega arith) (rw d at e) in
      let d' : c - b'0' ≤ 9 = digit-small c d in grind arith
  | inr d ↦ let x : none ≡ some m = rw d at e in cc
]

-- Fifteen digits, with or without a sign, spell an integer of RFC 8941.
signed-IsSfInteger :
    (minus : Bool) (n : ℕ) (v : ℤ) → n < 10 ^ 15 → Strconv.signed minus n ≡ some v → IsSfInteger v
signed-IsSfInteger false n v b h = elim (Bool-cases (leb n Strconv.max_int64)) [
  | inl e ↦ rw (← some_inj (rw (e, Strconv.signed) at h)) b
  | inr e ↦ none-some (rw (e, Strconv.signed) at h)
]
signed-IsSfInteger true zero v b h = rw (← some_inj h) (omega arith)
signed-IsSfInteger true (suc n) v b h = elim (Bool-cases (leb n Strconv.max_int64)) [
  | inl e ↦ rw (← some_inj (rw (e, Strconv.signed) at h)) b
  | inr e ↦ none-some (rw (e, Strconv.signed) at h)
]

digits-IsSfInteger :
    (minus : Bool) (s : Bytes) (v : ℤ)
    → length s ≤ 15
    → Strconv.unsigned minus s ≡ some v
    → IsSfInteger v
digits-IsSfInteger minus [] v k h = none-some h
digits-IsSfInteger minus (c ∷ s) v k h = elim (Option-cases (read_digits 0 (c ∷ s))) [
  | inl e ↦ none-some (rw (e, Strconv.unsigned) at h)
  | inr (n, e) ↦
      let b = read_digits-bound 15 0 n (c ∷ s) k e in
      signed-IsSfInteger minus n v (unfold pow10 in omega (arith, b))
        (rw (e, Strconv.unsigned) at h)
]

pub parse_int-IsSfInteger :
    (s : Bytes) (v : ℤ)
    → length s ≤ 15
    → all is_digit s ≡ true
    → parse_int s ≡ some v
    → IsSfInteger v
unfolding parse_int is_digit
parse_int-IsSfInteger [] v k d h = none-some h
parse_int-IsSfInteger (c ∷ s) v k d h =
    let e : (c == b'-') ≡ false = ground arith in
    let f : (c == b'+') ≡ false = ground arith in
    digits-IsSfInteger false (c ∷ s) v k (rw (e, f) at h)

pub parse_int-IsSfInteger_minus :
    (s : Bytes) (v : ℤ) → length s ≤ 15 → parse_int (b'-' ∷ s) ≡ some v → IsSfInteger v
unfolding parse_int
parse_int-IsSfInteger_minus s v k h = digits-IsSfInteger true s v k h
