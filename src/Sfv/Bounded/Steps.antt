-- ===== src/Sfv/Bounded/Steps.antt =====
-- pkg/sfv/primitives.go: the steps of one round of `parseString`.
use http_message_signatures.Common.{
  ℕ, ◌-◌, ◌≡◌, sym, ap, inl, inr, true, false, ◌||◌, arith, ltb, Bool-cases,
}
use http_message_signatures.Sfv.Types.{exceeds}
use http_message_signatures.Sfv.Lexer.{Parser, offset, ParseError, is_eof, advance, Result, ok}
use http_message_signatures.Sfv.Primitives.{
  consume_escape_marker, check_string_char, pass_string_byte,
}
use http_message_signatures.Sfv.Reads.Strings.{is_printable}
use http_message_signatures.Sfv.Bounded.{ok_inj, Fits}

pub err-ok : {A B : Type 0} {a : A} {e : ParseError} → Result.err e ≡ ok a → B
err-ok h = let x : ⊥ = cc in elim x [ ]

-- What the steps of a round do when they succeed
pub pass_string_byte-ok :
    (start : ℕ) (p q : Parser) (u : Unit {0})
    → pass_string_byte start p ≡ ok (u, q)
    → (q ≡ advance p) × Fits q.limits.max_string_length (offset q - start)
unfolding pass_string_byte
pass_string_byte-ok start p q u h =
    elim (Bool-cases (exceeds (advance p).limits.max_string_length (offset (advance p) - start))) [
      | inl e ↦ err-ok (rw e at h)
      | inr e ↦
          let k : ok (tt, advance p) ≡ ok (u, q) = rw e at h in
          let same = ap (λ t. t.1) (ok_inj k) in (sym same, rw (← same) e)
    ]

pub consume_escape_marker-ok :
    (p q : Parser) (u : Unit {0})
    → consume_escape_marker p ≡ ok (u, q)
    → (q ≡ advance p) × (is_eof q ≡ false)
unfolding consume_escape_marker
consume_escape_marker-ok p q u h = elim (Bool-cases (is_eof (advance p))) [
  | inl e ↦ err-ok (rw e at h)
  | inr e ↦
      let k : ok (tt, advance p) ≡ ok (u, q) = rw e at h in
      let same = ap (λ t. t.1) (ok_inj k) in (sym same, rw (← same) e)
]

not_control : (c : ℕ) → (ltb c 0x20 || ltb 0x7e c) ≡ false → is_printable c ≡ true
not_control c e = ground arith

pub check_string_char-ok :
    (c : ℕ) (p q : Parser) (u : Unit {0})
    → check_string_char c p ≡ ok (u, q)
    → (q ≡ p) × (is_printable c ≡ true)
unfolding check_string_char
check_string_char-ok c p q u h = elim (Bool-cases (ltb c 0x20 || ltb 0x7e c)) [
  | inl e ↦ err-ok (rw e at h)
  | inr e ↦
      let printable : is_printable c ≡ true = not_control c e in
      let k : ok (tt, p) ≡ ok (u, q) = rw e at h in (sym (ap (λ t. t.1) (ok_inj k)), printable)
]
