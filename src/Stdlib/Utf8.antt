-- ===== src/Stdlib/Utf8.antt =====
-- A `range` loop over a string that writes each rune back: valid UTF-8 is copied, and each byte
-- that starts no valid sequence becomes U+FFFD.
use http_message_signatures.Common.{
  ℕ, zero, suc, ◌≡◌, refl, Bool, true, false, ◌&&◌, List, [], ◌∷◌, ◌++◌, arith, Bytes, ltb, leb,
  ◌==◌, if◌then◌else◌,
}

abbrev pub within : ℕ → ℕ → ℕ → Bool
within lo hi c = leb lo c && leb c hi

-- The next bytes, one by one, lie in the given ranges.
continues : List (ℕ × ℕ) → Bytes → Bool
continues [] s = true
continues (r ∷ rs) [] = false
continues ((lo, hi) ∷ rs) (c ∷ s) = within lo hi c && continues rs s

abbrev tail_byte : ℕ × ℕ
tail_byte = (0x80, 0xbf)

-- How many bytes behind `c` belong to its rune, after `utf8.DecodeRuneInString`; `invalid` if `c`
-- starts none.
pub data Rune : Type 0 where
  valid : ℕ → Rune
  invalid : Rune

needs : ℕ → List (ℕ × ℕ) → Bytes → Rune
unfolding continues
needs n rs s = if continues rs s then valid n else invalid

decode_rune : ℕ → Bytes → Rune
unfolding needs
decode_rune c s =
    if ltb c 0x80
    then valid 0
    else if within 0xc2 0xdf c
    then needs 1 (tail_byte ∷ []) s
    else if c == 0xe0
    then needs 2 ((0xa0, 0xbf) ∷ tail_byte ∷ []) s
    else if c == 0xed
    then needs 2 ((0x80, 0x9f) ∷ tail_byte ∷ []) s
    else if within 0xe1 0xef c
    then needs 2 (tail_byte ∷ tail_byte ∷ []) s
    else if c == 0xf0
    then needs 3 ((0x90, 0xbf) ∷ tail_byte ∷ tail_byte ∷ []) s
    else if within 0xf1 0xf3 c
    then needs 3 (tail_byte ∷ tail_byte ∷ tail_byte ∷ []) s
    else if c == 0xf4
    then needs 3 ((0x80, 0x8f) ∷ tail_byte ∷ tail_byte ∷ []) s
    else invalid

abbrev replacement : Bytes
replacement = 0xef ∷ 0xbf ∷ 0xbd ∷ []

-- `for _, r := range s { sb.WriteRune(r) }` with `before c` written in front of a one-byte rune
-- `c`. The number is how many bytes of the current rune are still to be copied.
unfoldable pub write_runes : (ℕ → Bytes) → ℕ → Bytes → Bytes
unfolding decode_rune
write_runes before k [] = []
write_runes before (suc k) (c ∷ s) = c ∷ write_runes before k s
write_runes before zero (c ∷ s) = elim (decode_rune c s) [
  | valid k ↦ before c ++ c ∷ write_runes before k s
  | invalid ↦ replacement ++ write_runes before zero s
]

decode_rune_ascii : (c : ℕ) (s : Bytes) → ltb c 0x80 ≡ true → decode_rune c s ≡ valid 0
unfolding decode_rune
decode_rune_ascii c s h = rw h

write_one :
    (before : ℕ → Bytes) (c : ℕ) (s : Bytes) (r : Rune)
    → r ≡ valid 0
    → elim r [
      | valid k ↦ before c ++ c ∷ write_runes before k s
      | invalid ↦ replacement ++ write_runes before zero s
    ]
      ≡ before c ++ c ∷ write_runes before 0 s
write_one before c s (valid k) e = let e' : k ≡ 0 = ground arith in rw e'
write_one before c s invalid e = cc

-- ASCII text is written byte by byte.
pub write_runes-ascii :
    (before : ℕ → Bytes) (c : ℕ) (s : Bytes)
    → ltb c 0x80 ≡ true
    → write_runes before 0 (c ∷ s) ≡ before c ++ c ∷ write_runes before 0 s
unfolding write_runes
write_runes-ascii before c s h = write_one before c s (decode_rune c s) (decode_rune_ascii c s h)

copies_valid : write_runes (λ c. []) 0 (0xc3 ∷ 0xa9 ∷ b'a' ∷ []) ≡ 0xc3 ∷ 0xa9 ∷ b'a' ∷ []
unfolding write_runes
copies_valid = refl

replaces_invalid : write_runes (λ c. []) 0 (0xc3 ∷ b'a' ∷ []) ≡ 0xef ∷ 0xbf ∷ 0xbd ∷ b'a' ∷ []
unfolding write_runes
replaces_invalid = refl
