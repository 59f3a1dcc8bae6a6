-- ===== src/Sfv/Bounded/Scans.antt =====
-- pkg/sfv/lexer.go: what the moves of the scanner leave.
use http_message_signatures.Common.{
  ℕ, suc, ◌+◌, ◌-◌, ◌≤◌, ◌<◌, ◌≡◌, refl, ◌∙◌, inl, inr, Bool, true, false, [], ◌∷◌, ◌++◌, arith,
  ◌==◌, Bool-cases, length, length-append, Bytes,
}
use http_message_signatures.Sfv.Types.{Limits}
use http_message_signatures.Sfv.Lexer.{
  Parser, offset, head_or_nul, peek, is_nil, pass_byte, advance, consume, skip_bytes, skip_while,
}
use http_message_signatures.Sfv.Bounded.{Within}

pass_byte-size :
    (l : Limits) (seen rest : Bytes)
    → let q = pass_byte l seen rest in (q.limits ≡ l) × (length q.rest ≡ length rest - 1)
unfolding pass_byte
pass_byte-size l seen [] = (refl, omega arith)
pass_byte-size l seen (c ∷ s) = (refl, omega arith)

pub advance-Within : (p : Parser) (l : Limits) (n : ℕ) → Within l (suc n) p → Within l n (advance p)
advance-Within p l n (e, h) =
    let (k, i) = pass_byte-size p.limits p.seen p.rest in (k ∙ e, omega arith)

pub advance-Within_weak : (p : Parser) (l : Limits) (n : ℕ) → Within l n p → Within l n (advance p)
advance-Within_weak p l n (e, h) =
    let (k, i) = pass_byte-size p.limits p.seen p.rest in (k ∙ e, omega arith)

-- The scan moves on over the bytes that it takes from the rest.
pub skip_bytes-size :
    (test : ℕ → Bool) (l : Limits) (seen rest : Bytes)
    → let q = skip_bytes test l seen rest in
      (q.limits ≡ l)
      × (length q.rest ≤ length rest)
      × (length q.seen + length q.rest ≡ length seen + length rest)
unfolding skip_bytes
skip_bytes-size test l seen [] = (refl, omega arith, refl)
skip_bytes-size test l seen (c ∷ s) =
    let (e, h, k) = skip_bytes-size test l (seen ++ c ∷ []) s in
    let m = length-append seen (c ∷ []) in
    elim (Bool-cases (test c)) [
      | inl t ↦ rw t (e, omega arith, omega arith)
      | inr t ↦ rw t (refl, omega arith, refl)
    ]

pub skip_while-Within :
    (test : ℕ → Bool) (p : Parser) (l : Limits) (n : ℕ)
    → Within l n p
    → Within l n (skip_while test p)
skip_while-Within test p l n (e, h) =
    let (k, i, j) = skip_bytes-size test p.limits p.seen p.rest in (k ∙ e, omega arith)

-- A scan that moved took a byte.
pub skip_while-moved :
    (test : ℕ → Bool) (p : Parser) (l : Limits) (n : ℕ)
    → Within l (suc n) p
    → (offset (skip_while test p) == offset p) ≡ false
    → Within l n (skip_while test p)
skip_while-moved test p l n (e, h) m =
    let (k, i, j) = skip_bytes-size test p.limits p.seen p.rest in (k ∙ e, ground arith)

-- A byte that is awaited, and that is there
pub consume-Within :
    (c : ℕ) (p : Parser) (l : Limits) (n : ℕ) → Within l n p → Within l n (consume c p).1
unfolding consume
consume-Within c p l n h = elim (Bool-cases (peek p == c)) [
  | inl e ↦ rw e (advance-Within_weak p l n h)
  | inr e ↦ rw e h
]

pub consume-matched :
    (c : ℕ) (p : Parser) (l : Limits) (n : ℕ)
    → Within l (suc n) p
    → (consume c p).0 ≡ true
    → Within l n (consume c p).1
unfolding consume
consume-matched c p l n h m = elim (Bool-cases (peek p == c)) [
  | inl e ↦ rw e (advance-Within p l n h)
  | inr e ↦ let k : false ≡ true = rw e at m in cc
]

pub is_nil-rest : (s : Bytes) → is_nil s ≡ false → 0 < length s
unfolding is_nil
is_nil-rest [] h = cc
is_nil-rest (c ∷ s) h = omega arith

pub peek-rest : (c : ℕ) (s : Bytes) → 0 < c → (head_or_nul s == c) ≡ true → 0 < length s
unfolding head_or_nul
peek-rest c [] h e = ground arith
peek-rest c (d ∷ s) h e = omega arith
