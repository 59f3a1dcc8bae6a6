-- ===== src/Sfv/Bounded/Primitives.antt =====
-- pkg/sfv/primitives.go: bare values, the bytes they take, and the limits.
use http_message_signatures.Common.{
  ℕ, zero, suc, ◌-◌, ◌≤◌, ◌≡◌, refl, ap, inl, inr, true, false, not, ◌&&◌, ◌||◌, some, List, [],
  ◌∷◌, ◌++◌, append-nil, arith, ltb, ◌==◌, Bool-cases, Option-cases, length, drop, length-append,
  all, Bytes, ℤ,
}
use http_message_signatures.Stdlib.Strconv.{parse_int}
use http_message_signatures.Sfv.Types.{Limits, exceeds}
use http_message_signatures.Sfv.Lexer.{
  Parser, offset, peek, is_eof, advance, consume, skip_while, slice_from,
}
use http_message_signatures.Sfv.Primitives.{
  is_alpha, is_digit, is_token_char, is_base64_char, parse_boolean, finish_integer, parse_integer,
  finish_token, parse_token, seek_colon, decode_base64, finish_byte_sequence, close_byte_sequence,
  seek, parse_byte_sequence,
}
use http_message_signatures.Sfv.Reads.{at}
use http_message_signatures.Sfv.Reads.Tokens.{IsToken}
use http_message_signatures.Sfv.Reads.Numbers.{IsSfInteger}
use http_message_signatures.Sfv.Reads.Sequences.{IsSequence}
use http_message_signatures.Sfv.Bounded.Shapes.{
  skip_bytes-IsSplit, slice-passed, slice-is_token, pass_byte-at,
}
use http_message_signatures.Sfv.Bounded.Decoded.{decode_base64-IsByte}
use http_message_signatures.Sfv.Bounded.Spelled.{parse_int-IsSfInteger, parse_int-IsSfInteger_minus}
use http_message_signatures.Sfv.Bounded.{Fits, Within, Ensures, gives, fails, bind, branch}
use http_message_signatures.Sfv.Bounded.Scans.{
  advance-Within, advance-Within_weak, skip_while-Within, skip_while-moved, consume-matched,
}

abbrev pub Anything : {A : Type 0} → A → Type 0
Anything a = Unit {0}

length-drop : {A : Type 0} (k : ℕ) (xs : List A) → length (drop k xs) ≡ length xs - k
length-drop zero xs = omega arith
length-drop (suc k) [] = omega arith
length-drop (suc k) (x ∷ xs) = omega (arith, length-drop k xs)

-- The test is on the distance from the start, which is the length of the slice.
pub Fits-slice :
    (limit : Limits → ℕ) (start : ℕ) (q : Parser) (l : Limits)
    → q.limits ≡ l
    → exceeds (limit q.limits) (offset q - start) ≡ false
    → Fits (limit l) (length (slice_from start q))
Fits-slice limit start q l e h = rw (length-drop start q.seen, ← e) h

module _ (l : Limits) where
  pub parse_boolean-Ensures :
      (p : Parser) (n : ℕ) → Within l (suc n) p → Ensures Anything l n (parse_boolean p)
  unfolding parse_boolean
  parse_boolean-Ensures p n w =
      branch (not (consume b'?' p).0) (λ _. fails)
        (λ h.
          let v = consume-matched b'?' p l n w (ground arith) in
          branch (peek (consume b'?' p).1 == b'1') (λ _. gives tt (advance-Within_weak _ l n v))
            (λ _.
              branch (peek (consume b'?' p).1 == b'0') (λ _. gives tt (advance-Within_weak _ l n v))
                (λ _. fails)))

  pub parse_token-Ensures :
      (p : Parser) (n : ℕ) → Within l (suc n) p → Ensures (IsToken l) l n (parse_token p)
  unfolding parse_token finish_token
  parse_token-Ensures p n w =
      let q = skip_while is_token_char (advance p) in
      let v = skip_while-Within is_token_char (advance p) l n (advance-Within p l n w) in
      branch (is_eof p) (λ _. fails)
        (λ i.
          branch (not (is_alpha (peek p)) && not (peek p == b'*')) (λ _. fails)
            (λ j.
              branch (offset q == offset p) (λ _. fails)
                (λ _.
                  branch (exceeds q.limits.max_token_length (offset q - offset p)) (λ _. fails)
                    (λ h.
                      gives
                        (
                          slice-is_token p.limits p.seen p.rest i j,
                          Fits-slice (λ x. x.max_token_length) (offset p) q l v.0 h,
                        )
                        v))))

  -- `front` is the sign, or nothing.
  finish_integer-Ensures :
      (limits : Limits) (seen front rest : Bytes) (n : ℕ)
      → Within l (suc n) (at limits (seen ++ front) rest)
      → ((s : Bytes) (v : ℤ)
          → length s ≤ 15
          → all is_digit s ≡ true
          → parse_int (front ++ s) ≡ some v
          → IsSfInteger v)
      → let q = at limits (seen ++ front) rest in
        Ensures IsSfInteger l n (finish_integer (length seen) q (skip_while is_digit q))
  unfolding finish_integer
  finish_integer-Ensures limits seen front rest n w spelled =
      let q = at limits (seen ++ front) rest in
      let r = skip_while is_digit q in
      let x = skip_bytes-IsSplit is_digit limits (seen ++ front) rest in
      let moved = ap (λ p. offset p) x.stands in
      let size = length-append (seen ++ front) x.passed in
      branch (offset r == offset q) (λ _. fails)
        (λ h.
          branch (ltb 15 (offset r - offset q)) (λ _. fails)
            (λ k. elim (Option-cases (parse_int (slice_from (length seen) r))) [
              | inl e ↦ rw e fails
              | inr (v, e) ↦
                  let few : length x.passed ≤ 15 = ground arith in
                  let i = rw (slice-passed is_digit limits seen front rest) at e in
                  rw e
                    (gives (spelled x.passed v few x.each i) (skip_while-moved is_digit q l n w h))
            ]))

  pub parse_integer-Ensures :
      (p : Parser) (n : ℕ) → Within l (suc n) p → Ensures IsSfInteger l n (parse_integer p)
  unfolding parse_integer
  parse_integer-Ensures p n w = elim (Bool-cases (peek p == b'-')) [
    | inl e ↦
        let k = pass_byte-at p.limits p.seen p.rest b'-' (omega arith) e in
        rw (e, k)
          (finish_integer-Ensures p.limits p.seen (b'-' ∷ []) (drop 1 p.rest) n
            (rw k at (advance-Within_weak p l (suc n) w))
            (λ s v few _ i. parse_int-IsSfInteger_minus s v few i))
    | inr e ↦ rw e (
        rw (append-nil p.seen) at
          (finish_integer-Ensures p.limits p.seen [] p.rest n w parse_int-IsSfInteger))
  ]

  seek_colon-Ensures :
      (seen rest : Bytes) (n : ℕ) → length rest ≤ n → Ensures Anything l n (seek_colon l seen rest)
  unfolding seek_colon
  seek_colon-Ensures seen [] n h = gives tt (refl, h)
  seek_colon-Ensures seen (c ∷ s) n h =
      branch (c == b':') (λ _. gives tt (refl, h))
        (λ _.
          branch (not (is_base64_char c)) (λ _. fails)
            (λ _. seek_colon-Ensures (seen ++ c ∷ []) s n (omega arith)))

  seek-Ensures : (p : Parser) (n : ℕ) → Within l n p → Ensures Anything l n (seek p)
  seek-Ensures p n (e, h) = rw e (seek_colon-Ensures p.seen p.rest n h)

  finish_byte_sequence-Ensures :
      (text : Bytes) (q : Parser) (n : ℕ)
      → Within l n q
      → Ensures (IsSequence l) l n (finish_byte_sequence text q)
  unfolding finish_byte_sequence
  finish_byte_sequence-Ensures text q n (e, h) = elim (Option-cases (decode_base64 text)) [
    | inl k ↦ rw (k, finish_byte_sequence) fails
    | inr (b, k) ↦
        rw (k, finish_byte_sequence)
          (branch (exceeds q.limits.max_byte_sequence_length (length b)) (λ _. fails)
            (λ f. gives (decode_base64-IsByte text b k, rw (← e) f) (e, h)))
  ]

  close_byte_sequence-Ensures :
      (start : ℕ) (r : Parser) (n : ℕ)
      → Within l n r
      → Ensures (IsSequence l) l n (close_byte_sequence start r)
  unfolding close_byte_sequence
  close_byte_sequence-Ensures start r n w =
      branch (is_eof r || not (peek r == b':')) (λ _. fails)
        (λ _.
          finish_byte_sequence-Ensures (slice_from start r) (advance r) n
            (advance-Within_weak r l n w))

  pub parse_byte_sequence-Ensures :
      (p : Parser) (n : ℕ) → Within l (suc n) p → Ensures (IsSequence l) l n (parse_byte_sequence p)
  unfolding parse_byte_sequence
  parse_byte_sequence-Ensures p n w =
      let q = (consume b':' p).1 in
      branch (not (consume b':' p).0) (λ _. fails)
        (λ h.
          let v = consume-matched b':' p l n w (ground arith) in
          bind seek (λ _. close_byte_sequence (offset q)) q (seek-Ensures q n v)
            (λ _ r _ u. close_byte_sequence-Ensures (offset q) r n u))
