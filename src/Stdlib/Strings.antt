-- ===== src/Stdlib/Strings.antt =====
-- `strings.TrimSpace` and `strings.Join`.
use http_message_signatures.Common.{
  ℕ, ◌≡◌, refl, Bool, ◌&&◌, ◌||◌, List, [], ◌∷◌, ◌++◌, leb, ◌==◌, if◌then◌else◌, Bytes, codes,
}
use mathlib.Core.List.{reverse}
pub mod Kept

abbrev is_ascii_space : ℕ → Bool
is_ascii_space c = c == b' ' || c == b'\t' || c == b'\n' || c == 0x0b || c == 0x0c || c == b'\r'

-- U+0085 and U+00A0; U+1680, U+2000 to U+200A, U+2028, U+2029, U+202F, U+205F and U+3000.
abbrev is_space_2 : ℕ → ℕ → Bool
is_space_2 a b = a == 0xc2 && (b == 0x85 || b == 0xa0)

abbrev is_space_3 : ℕ → ℕ → ℕ → Bool
is_space_3 a b c =
    a == 0xe1 && b == 0x9a && c == 0x80
    || a == 0xe2 && b == 0x80 && (leb 0x80 c && leb c 0x8a || c == 0xa8 || c == 0xa9 || c == 0xaf)
    || a == 0xe2 && b == 0x81 && c == 0x9f
    || a == 0xe3 && b == 0x80 && c == 0x80

-- The front of a text without white space.
unfoldable pub trim_left : Bytes → Bytes
trim_left [] = []
trim_left (a ∷ []) = if is_ascii_space a then [] else a ∷ []
trim_left (a ∷ b ∷ []) =
    let one = trim_left (b ∷ []) in
    if is_ascii_space a then one else if is_space_2 a b then [] else a ∷ b ∷ []
trim_left (a ∷ b ∷ c ∷ s) =
    let one = trim_left (b ∷ c ∷ s) in
    let two = trim_left (c ∷ s) in
    let three = trim_left s in
    if is_ascii_space a
    then one
    else if is_space_2 a b
    then two
    else if is_space_3 a b c
    then three
    else a ∷ b ∷ c ∷ s

-- The same on the bytes from the last one back.
unfoldable pub trim_reversed : Bytes → Bytes
trim_reversed [] = []
trim_reversed (a ∷ []) = if is_ascii_space a then [] else a ∷ []
trim_reversed (b ∷ a ∷ []) =
    let one = trim_reversed (a ∷ []) in
    if is_ascii_space b then one else if is_space_2 a b then [] else b ∷ a ∷ []
trim_reversed (c ∷ b ∷ a ∷ s) =
    let one = trim_reversed (b ∷ a ∷ s) in
    let two = trim_reversed (a ∷ s) in
    let three = trim_reversed s in
    if is_ascii_space c
    then one
    else if is_space_2 b c
    then two
    else if is_space_3 a b c
    then three
    else c ∷ b ∷ a ∷ s

-- `strings.TrimSpace`
unfoldable pub trim_space : Bytes → Bytes
unfolding trim_left trim_reversed
trim_space s = reverse (trim_reversed (reverse (trim_left s)))

-- `strings.Join(values, ", ")`
unfoldable pub join : List Bytes → Bytes
join [] = []
join (s ∷ []) = s
join (s ∷ t ∷ values) = s ++ (codes ", " ++ join (t ∷ values))

trims_both_ends : trim_space (codes " \t a b\r\n ") ≡ codes "a b"
unfolding trim_space
trims_both_ends = refl
