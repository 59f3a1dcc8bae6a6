-- ===== src/Sfv/Reads/Numbers.antt =====
-- `parseBoolean` and `parseInteger` read what is written.
use http_message_signatures.Common.{
  ℕ, suc, ◌^◌, ◌≤◌, ◌<◌, ◌≡◌, refl, Bool, true, false, ◌||◌, some, [], ◌∷◌, ◌++◌, append-nil,
  append_assoc, arith, ltb, ◌==◌, &&_left, length, length-append, all, Bytes, codes, ℤ, pos, negsuc,
}
use http_message_signatures.Stdlib.Strconv.{digits, format_int, is_digit_byte, parse_int}
use http_message_signatures.Stdlib.Strconv.RoundTrip.{
  length-digits, digits_pos, all-digits, parse_int-format_int, IsInt64,
}
use http_message_signatures.Sfv.Types.{Limits}
use http_message_signatures.Sfv.Lexer.{head_or_nul, pass_byte, consume, ok}
use http_message_signatures.Sfv.Primitives.{is_digit, parse_boolean, finish_integer, parse_integer}
use http_message_signatures.Sfv.Reads.{
  at, Reads, stops, begins, skip_bytes-all, slice-at, length-read,
}

pub parse_boolean-true :
    (limits : Limits) (rest : Bytes) → Reads limits parse_boolean (codes "?1") true rest
unfolding parse_boolean consume head_or_nul pass_byte
parse_boolean-true limits rest seen = rw append_assoc

pub parse_boolean-false :
    (limits : Limits) (rest : Bytes) → Reads limits parse_boolean (codes "?0") false rest
unfolding parse_boolean consume head_or_nul pass_byte
parse_boolean-false limits rest seen = rw append_assoc

-- The integers of RFC 8941 have 15 digits at most.
abbrev pub IsSfInteger : ℤ → Type 0
IsSfInteger (pos n) = n < 10 ^ 15
IsSfInteger (negsuc n) = suc n < 10 ^ 15

IsSfInteger-IsInt64 : (v : ℤ) → IsSfInteger v → IsInt64 v
IsSfInteger-IsInt64 (pos n) h = omega arith
IsSfInteger-IsInt64 (negsuc n) h = omega arith

-- The end of the method, with `sign` read before the digits `s`.
finish_integer-at :
    (limits : Limits) (seen sign s rest : Bytes) (v : ℤ)
    → 0 < length s
    → length s ≤ 15
    → parse_int (sign ++ s) ≡ some v
    → finish_integer
        (length seen)
        (at limits (seen ++ sign) (s ++ rest))
        (at limits ((seen ++ sign) ++ s) rest)
      ≡ ok (v, at limits (seen ++ (sign ++ s)) rest)
unfolding finish_integer
finish_integer-at limits seen sign s rest v p q e =
    let some_digit : (length ((seen ++ sign) ++ s) == length (seen ++ sign)) ≡ false =
      (let l = length-append (seen ++ sign) s in ground arith) in
    let few : ltb 15 (length s) ≡ false = ground arith in
    rw (
      some_digit,
      length-read (seen ++ sign) s,
      few,
      append_assoc seen sign s,
      slice-at limits seen (sign ++ s) rest,
      e,
      append_assoc seen sign s,
    )

digit_test : (s : Bytes) → all is_digit_byte s ≡ true → all is_digit s ≡ true
unfolding is_digit is_digit_byte
digit_test s h = h

sign_test : (c : ℕ) → is_digit c ≡ true → (c == b'-') ≡ false
unfolding is_digit
sign_test c h = ground arith

parse_digits :
    (limits : Limits) (s rest : Bytes) (v : ℤ)
    → 0 < length s
    → length s ≤ 15
    → all is_digit s ≡ true
    → stops is_digit rest ≡ true
    → parse_int s ≡ some v
    → Reads limits parse_integer s v rest
unfolding parse_integer head_or_nul
parse_digits limits [] rest v p q a k e seen = absurd (omega arith)
parse_digits limits (c ∷ s) rest v p q a k e seen =
    let no_sign = sign_test c (&&_left (is_digit c) (all is_digit s) a) in
    let finish = finish_integer-at limits seen [] (c ∷ s) rest v p q e in
    rw (no_sign, skip_bytes-all is_digit limits (c ∷ s) rest seen a k) (rw append-nil at finish)

parse_negative :
    (limits : Limits) (s rest : Bytes) (v : ℤ)
    → 0 < length s
    → length s ≤ 15
    → all is_digit s ≡ true
    → stops is_digit rest ≡ true
    → parse_int (b'-' ∷ s) ≡ some v
    → Reads limits parse_integer (b'-' ∷ s) v rest
unfolding parse_integer head_or_nul pass_byte
parse_negative limits s rest v p q a k e seen =
    rw (skip_bytes-all is_digit limits s rest (seen ++ b'-' ∷ []) a k)
      (finish_integer-at limits seen (b'-' ∷ []) s rest v p q e)

-- An integer of at most 15 digits is read back from its decimal text, when no digit follows.
pub parse_integer-Reads :
    (limits : Limits) (v : ℤ) (rest : Bytes)
    → IsSfInteger v
    → stops is_digit rest ≡ true
    → Reads limits parse_integer (format_int v) v rest
unfolding format_int
parse_integer-Reads limits (pos n) rest h k =
    parse_digits limits (digits 20 n) rest (pos n) (digits_pos 19 n) (length-digits 20 14 n h)
      (digit_test _ (all-digits 20 n)) k
      (parse_int-format_int (pos n) (IsSfInteger-IsInt64 (pos n) h))
parse_integer-Reads limits (negsuc n) rest h k =
    parse_negative limits (digits 20 (suc n)) rest (negsuc n) (digits_pos 19 (suc n))
      (length-digits 20 14 (suc n) h) (digit_test _ (all-digits 20 (suc n))) k
      (parse_int-format_int (negsuc n) (IsSfInteger-IsInt64 (negsuc n) h))

abbrev pub starts_integer : ℕ → Bool
starts_integer c = c == b'-' || is_digit c

begins_digit : (s : Bytes) → 0 < length s → all is_digit s ≡ true → begins starts_integer s ≡ true
begins_digit [] p h = absurd (omega arith)
begins_digit (c ∷ s) p h = ground arith

-- The text begins with a digit or a minus sign.
pub begins-format_int : (v : ℤ) → begins starts_integer (format_int v) ≡ true
unfolding format_int
begins-format_int (pos n) =
    begins_digit (digits 20 n) (digits_pos 19 n) (digit_test _ (all-digits 20 n))
begins-format_int (negsuc n) = refl
