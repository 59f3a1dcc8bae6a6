-- ===== src/Stdlib/Strconv.antt =====
-- `strconv`: `FormatInt(n, 10)` (so `Itoa`) and `ParseInt(s, 10, 64)`.
pub mod RoundTrip
use http_message_signatures.Common.{
  ℕ, zero, suc, ◌+◌, ◌-◌, ◌*◌, ◌/◌, ◌%◌, ◌^◌, ◌<◌, ◌≤◌, ◌≡◌, refl, Bool, ◌&&◌, List, [], ◌∷◌, ◌++◌,
  Option, none, some, arith, Bytes, codes, ltb, leb, ◌==◌, if◌then◌else◌, ℤ, pos, negsuc,
}

-- The decimal digits of a number, on fuel: `k` rounds write every number below 10 ^ k.
unfoldable pub digits : ℕ → ℕ → Bytes
digits zero n = []
digits (suc k) n =
    let front = digits k (n / 10) in
    if ltb n 10 then (b'0' + n) ∷ [] else front ++ (b'0' + n % 10) ∷ []

-- An `int64` has 19 digits at most.
abbrev pub max_digits : ℕ
max_digits = 20

unfoldable pub format_int : ℤ → Bytes
format_int (pos n) = digits max_digits n
format_int (negsuc n) = b'-' ∷ digits max_digits (suc n)

unfoldable pub is_digit_byte : ℕ → Bool
is_digit_byte c = leb b'0' c && leb c b'9'

-- The number that digits spell behind `n`.
unfoldable pub read_digits : ℕ → Bytes → Option ℕ
unfolding is_digit_byte
read_digits n [] = some n
read_digits n (c ∷ s) = if is_digit_byte c then read_digits (n * 10 + (c - b'0')) s else none

abbrev pub max_int64 : ℕ
max_int64 = 9223372036854775807

-- The cases of an `int64` with its sign: outside the range is an error.
abbrev pub signed : Bool → ℕ → Option ℤ
signed Bool.false n = if leb n max_int64 then some (pos n) else none
signed Bool.true zero = some (pos 0)
signed Bool.true (suc n) = if leb n max_int64 then some (negsuc n) else none

abbrev pub unsigned : Bool → Bytes → Option ℤ
unsigned minus [] = none
unsigned minus (c ∷ s) = elim (read_digits 0 (c ∷ s)) [ none ↦ none | some n ↦ signed minus n ]

unfoldable pub parse_int : Bytes → Option ℤ
parse_int [] = none
parse_int (c ∷ s) =
    if c == b'-'
    then unsigned Bool.true s
    else if c == b'+'
    then unsigned Bool.false s
    else unsigned Bool.false (c ∷ s)

format_created : format_int (pos 1618884473) ≡ codes "1618884473"
unfolding format_int digits
format_created = refl

parse_negative : parse_int (codes "-42") ≡ some (negsuc 41)
unfolding parse_int read_digits
parse_negative = refl

parse_too_large : parse_int (codes "9223372036854775808") ≡ none
unfolding parse_int read_digits
parse_too_large = refl
