-- ===== src/Sfv/Bounded/Shapes.antt =====
-- pkg/sfv/primitives.go: the bytes that the scanner's loops pass over, and what they spell.
use http_message_signatures.Common.{
  ℕ, ◌<◌, ◌≡◌, refl, ap, ◌∙◌, inl, inr, Bool, true, false, not, ◌&&◌, [], ◌∷◌, ◌++◌, append-nil,
  append_assoc, arith, ◌==◌, ==_iff, Bool-cases, length, drop, drop-append, all, Bytes,
}
use http_message_signatures.Sfv.Types.{Limits}
use http_message_signatures.Sfv.Lexer.{head_or_nul, is_nil, pass_byte, skip_bytes, skip_while}
use http_message_signatures.Sfv.Primitives.{is_alpha, is_token_char}
use http_message_signatures.Sfv.Reads.{at}
use http_message_signatures.Sfv.Reads.Tokens.{is_token}

-- A scan divides the rest into bytes that pass the test, and what is left.
pub record IsSplit (test : ℕ → Bool) (l : Limits) (seen rest : Bytes) : Type 0 where
  pub passed : Bytes
  pub left : Bytes
  pub stands : skip_bytes test l seen rest ≡ at l (seen ++ passed) left
  pub each : all test passed ≡ true

pub skip_bytes-IsSplit :
    (test : ℕ → Bool) (l : Limits) (seen rest : Bytes) → IsSplit test l seen rest
unfolding skip_bytes
skip_bytes-IsSplit test l seen [] = record {
  passed = [];
  left = [];
  stands = rw (append-nil seen) refl;
  each = refl;
}
skip_bytes-IsSplit test l seen (c ∷ s) = elim (Bool-cases (test c)) [
  | inl e ↦
      let x = skip_bytes-IsSplit test l (seen ++ c ∷ []) s in
      record {
        passed = c ∷ x.passed;
        left = x.left;
        stands = rw (e, x.stands) (rw (append_assoc seen (c ∷ []) x.passed) refl);
        each = rw (e, x.each) refl;
      }
  | inr e ↦ record { passed = []; left = c ∷ s; stands = rw (e, append-nil seen) refl; each = refl }
]

-- What a scan passes behind a byte
pub slice-passed :
    (test : ℕ → Bool) (l : Limits) (seen front rest : Bytes)
    → let x = skip_bytes-IsSplit test l (seen ++ front) rest in
      drop (length seen) (skip_bytes test l (seen ++ front) rest).seen ≡ front ++ x.passed
slice-passed test l seen front rest =
    let x = skip_bytes-IsSplit test l (seen ++ front) rest in
    ap (λ p. drop (length seen) p.seen) x.stands
    ∙ (rw (append_assoc seen front x.passed) (drop-append seen (front ++ x.passed)))

pub slice-is_token :
    (l : Limits) (seen rest : Bytes)
    → is_nil rest ≡ false
    → (not (is_alpha (head_or_nul rest)) && not (head_or_nul rest == b'*')) ≡ false
    → is_token (drop (length seen) (skip_while is_token_char (pass_byte l seen rest)).seen) ≡ true
unfolding is_nil head_or_nul pass_byte
slice-is_token l seen [] h k = cc
slice-is_token l seen (c ∷ s) h k =
    let x = skip_bytes-IsSplit is_token_char l (seen ++ c ∷ []) s in
    let e = x.each in rw (slice-passed is_token_char l seen (c ∷ []) s) (ground arith)

-- The byte that is passed is the current one.
pub pass_byte-at :
    (l : Limits) (seen rest : Bytes) (c : ℕ)
    → 0 < c
    → (head_or_nul rest == c) ≡ true
    → pass_byte l seen rest ≡ at l (seen ++ c ∷ []) (drop 1 rest)
unfolding pass_byte head_or_nul
pass_byte-at l seen [] c h e = let x : ⊥ = ground arith in elim x [ ]
pass_byte-at l seen (d ∷ s) c h e = rw ((==_iff d c).0 e) refl

pub pass_byte-seen :
    (l : Limits) (seen rest : Bytes)
    → is_nil rest ≡ false
    → (pass_byte l seen rest).seen ≡ seen ++ head_or_nul rest ∷ []
unfolding pass_byte head_or_nul is_nil
pass_byte-seen l seen [] h = cc
pass_byte-seen l seen (d ∷ s) h = refl
