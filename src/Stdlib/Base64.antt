-- ===== src/Stdlib/Base64.antt =====
-- `encoding/base64`: `StdEncoding.EncodeToString`, and `DecodeString` of `StdEncoding` and of
-- `RawStdEncoding`. The decoders skip CR and LF in Go; the program hands them no such byte, and
-- here both are refused. Unused bits of a last group are ignored, as in Go's non-strict mode.
pub mod RoundTrip
use http_message_signatures.Common.{
  ℕ, ◌+◌, ◌-◌, ◌*◌, ◌/◌, ◌%◌, ◌<◌, ◌≡◌, refl, Bool, ◌&&◌, List, [], ◌∷◌, ◌++◌, Option, none, some,
  arith, Bytes, codes, ltb, leb, ◌==◌, if◌then◌else◌,
}

-- The alphabet, A-Z a-z 0-9 + /.
unfoldable pub encode_digit : ℕ → ℕ
encode_digit n =
    if ltb n 26
    then n + 65
    else if ltb n 52
    then n + 71
    else if ltb n 62
    then n - 4
    else if n == 62
    then b'+'
    else b'/'

unfoldable pub decode_digit : ℕ → Option ℕ
decode_digit c =
    if leb b'A' c && leb c b'Z'
    then some (c - 65)
    else if leb b'a' c && leb c b'z'
    then some (c - 71)
    else if leb b'0' c && leb c b'9'
    then some (c + 4)
    else if c == b'+'
    then some 62
    else if c == b'/'
    then some 63
    else none

unfoldable pub encode : Bytes → Bytes
encode [] = []
encode (a ∷ []) = encode_digit (a / 4) ∷ encode_digit (a % 4 * 16) ∷ b'=' ∷ b'=' ∷ []
encode (a ∷ b ∷ []) =
    encode_digit (a / 4)
    ∷ encode_digit (a % 4 * 16 + b / 16)
    ∷ encode_digit (b % 16 * 4)
    ∷ b'='
    ∷ []
encode (a ∷ b ∷ c ∷ s) =
    encode_digit (a / 4)
    ∷ encode_digit (a % 4 * 16 + b / 16)
    ∷ encode_digit (b % 16 * 4 + c / 64)
    ∷ encode_digit (c % 64)
    ∷ encode s

-- The bytes of two, three and four digits.
abbrev pub byte₁ : ℕ → ℕ → ℕ
byte₁ w x = (w * 4 + x / 16) % 256

abbrev pub byte₂ : ℕ → ℕ → ℕ
byte₂ x y = (x % 16 * 16 + y / 4) % 256

abbrev pub byte₃ : ℕ → ℕ → ℕ
byte₃ y z = (y % 4 * 64 + z) % 256

infixl 5 ◌>>=◌
abbrev pub ◌>>=◌ : {A B : Type 0} → Option A → (A → Option B) → Option B
none >>= f = none
some a >>= f = f a

abbrev pub pair : ℕ → ℕ → Option Bytes
pair w x = do d ← decode_digit w; e ← decode_digit x; some (byte₁ d e ∷ [])

abbrev pub triple : ℕ → ℕ → ℕ → Option Bytes
triple w x y = do
  d ← decode_digit w
  e ← decode_digit x
  g ← decode_digit y
  some (byte₁ d e ∷ byte₂ e g ∷ [])

abbrev pub quantum : ℕ → ℕ → ℕ → ℕ → Option Bytes → Option Bytes
quantum w x y z rest = do
  d ← decode_digit w
  e ← decode_digit x
  g ← decode_digit y
  h ← decode_digit z
  more ← rest
  some (byte₁ d e ∷ byte₂ e g ∷ byte₃ g h ∷ more)

abbrev pub is_empty : Bytes → Bool
is_empty [] = Bool.true
is_empty (_ ∷ _) = Bool.false

-- `StdEncoding`: full groups of four, the last one padded, and nothing behind the padding.
unfoldable pub decode_std : Bytes → Option Bytes
decode_std [] = some []
decode_std (w ∷ x ∷ y ∷ z ∷ s) =
    let more = decode_std s in
    if y == b'='
    then (if z == b'=' && is_empty s then pair w x else none)
    else if z == b'='
    then (if is_empty s then triple w x y else none)
    else quantum w x y z more
decode_std _ = none

-- `RawStdEncoding`: no padding; a last group of two or three digits.
unfoldable pub decode_raw : Bytes → Option Bytes
decode_raw [] = some []
decode_raw (w ∷ []) = none
decode_raw (w ∷ x ∷ []) = pair w x
decode_raw (w ∷ x ∷ y ∷ []) = triple w x y
decode_raw (w ∷ x ∷ y ∷ z ∷ s) = quantum w x y z (decode_raw s)

encode_man : encode (codes "Man") ≡ codes "TWFu"
unfolding encode encode_digit
encode_man = refl

encode_ma : encode (codes "Ma") ≡ codes "TWE="
unfolding encode encode_digit
encode_ma = refl

decode_std_ma : decode_std (codes "TWE=") ≡ some (codes "Ma")
unfolding decode_std decode_digit
decode_std_ma = refl

decode_std_unpadded : decode_std (codes "TWE") ≡ none
unfolding decode_std decode_digit
decode_std_unpadded = refl

decode_raw_ma : decode_raw (codes "TWE") ≡ some (codes "Ma")
unfolding decode_raw decode_digit
decode_raw_ma = refl
