-- ===== src/Sfv/Bounded/Strings.antt =====
-- pkg/sfv/primitives.go: the strings that `parseString` and `decodeString` return.
use http_message_signatures.Common.{
  ℕ, zero, suc, ◌-◌, ◌<◌, ◌≡◌, refl, sym, ap, ◌∙◌, Bool, true, false, not, ◌&&◌, ◌||◌, [], ◌∷◌,
  ◌++◌, append-nil, append_assoc, arith, ltb, ◌==◌, ==_iff, length, length-append, drop-append, all,
  Bytes, all-append_lem,
}
use http_message_signatures.Sfv.Types.{Limits, exceeds}
use http_message_signatures.Sfv.Lexer.{
  Parser, offset, ◌>>◌, peek, is_eof, advance, consume, slice_from, Result,
}
use http_message_signatures.Sfv.Primitives.{
  decode_loop, finish_string, consume_escape_marker, check_string_char, pass_string_byte,
  string_loop, parse_string,
}
use http_message_signatures.Sfv.Serialize.{escape_before}
use http_message_signatures.Sfv.Reads.Strings.{is_printable, escaped, IsString}
use http_message_signatures.Sfv.Bounded.Raw.{
  is_plain, is_raw, is_raw-pair, is_raw-plain, all-plain, escaped-append,
}
use http_message_signatures.Sfv.Bounded.Shapes.{pass_byte-at, pass_byte-seen}
use http_message_signatures.Sfv.Bounded.{
  Fits, Within, Ensures, gives, fails, weaken, bind_eq, branch,
}
use http_message_signatures.Sfv.Bounded.Scans.{
  advance-Within, advance-Within_weak, consume-matched, is_nil-rest,
}
use http_message_signatures.Sfv.Bounded.Primitives.{Anything}
use http_message_signatures.Sfv.Bounded.Steps.{
  pass_string_byte-ok, consume_escape_marker-ok, check_string_char-ok,
}

-- What a backslash that was read last adds
pending : Bool → Bytes → Bytes
pending true s = b'\\' ∷ s
pending false s = s

-- The loop of `parseString` behind the text `r`, which began behind `front`
record IsRead (l : Limits) (front r : Bytes) (has_escapes : Bool) (p : Parser) : Type 0 where
  stands : p.seen ≡ front ++ r
  raw : is_raw false r ≡ true
  plain : has_escapes ≡ false → all is_plain r ≡ true
  short : Fits l.max_string_length (length r)

module _ (l : Limits) where
  -- The decoded text is printable, and its escaped form is the text that was read.
  decode_loop-Ensures :
      (p : Parser) (n : ℕ) (esc : Bool) (buf s r : Bytes)
      → Within l n p
      → all is_printable buf ≡ true
      → is_raw esc s ≡ true
      → escaped buf ++ pending esc s ≡ r
      → Ensures
          (λ out. (all is_printable out ≡ true) × (escaped out ≡ r))
          l
          n
          (decode_loop p esc buf s)
  unfolding decode_loop is_raw pending
  decode_loop-Ensures p n true buf [] r w h k e = fails
  decode_loop-Ensures p n false buf [] r w h k e = gives (h, sym (append-nil (escaped buf)) ∙ e) w
  decode_loop-Ensures p n true buf (c ∷ s) r w h k e =
      branch (not (c == b'"') && not (c == b'\\')) (λ _. fails)
        (λ i.
          branch (exceeds p.limits.max_string_length (length (buf ++ c ∷ []))) (λ _. fails)
            (λ _.
              let special : escape_before c ≡ b'\\' ∷ [] = unfold escape_before in ground arith in
              let printable : is_printable c ≡ true = ground arith in
              decode_loop-Ensures p n false (buf ++ c ∷ []) s r w
                (all-append_lem is_printable buf (c ∷ []) h (rw printable refl)) k
                (rw (escaped-append buf c, special)
                  (append_assoc (escaped buf) (b'\\' ∷ c ∷ []) s ∙ e))))
  decode_loop-Ensures p n false buf (c ∷ s) r w h k e =
      branch (c == b'\\')
        (λ i.
          decode_loop-Ensures p n true buf s r w h (rw i at k)
            (let j = (==_iff c b'\\').0 i in rw j at e))
        (λ i.
          branch (exceeds p.limits.max_string_length (length (buf ++ c ∷ []))) (λ _. fails)
            (λ _.
              let plain : is_plain c ≡ true = ground arith in
              let rest : is_raw false s ≡ true = ground arith in
              let simple : escape_before c ≡ [] = unfold escape_before in ground arith in
              let printable : is_printable c ≡ true = ground arith in
              decode_loop-Ensures p n false (buf ++ c ∷ []) s r w
                (all-append_lem is_printable buf (c ∷ []) h (rw printable refl)) rest
                (rw (escaped-append buf c, simple) (append_assoc (escaped buf) (c ∷ []) s ∙ e))))

  finish_string-Ensures :
      (front r : Bytes) (n : ℕ) (has_escapes : Bool) (p : Parser)
      → Within l n p
      → IsRead l front r has_escapes p
      → Ensures (IsString l) l n (finish_string (length front) has_escapes p)
  unfolding finish_string
  finish_string-Ensures front r n has_escapes p w x =
      let v = advance-Within_weak p l n w in
      let val : slice_from (length front) p ≡ r = rw x.stands (drop-append front r) in
      rw val (
        branch (not has_escapes)
          (λ i.
            let (printable, same) = all-plain r (x.plain (ground arith)) in
            gives (printable, rw same x.short) v)
          (λ _. decoded (
            decode_loop-Ensures (advance p) n false [] r r v refl x.raw
              (unfold pending escaped in refl))))
    where
      decoded :
          {m : Result (Bytes × Parser)}
          → Ensures (λ out. (all is_printable out ≡ true) × (escaped out ≡ r)) l n m
          → Ensures (IsString l) l n m
      decoded (gives (h, e) v) = gives (h, rw e x.short) v
      decoded fails = fails

  -- The limit test of a round, on the text that was read
  Fits-read :
      (front r : Bytes) (q : Parser)
      → q.seen ≡ front ++ r
      → q.limits ≡ l
      → Fits q.limits.max_string_length (offset q - length front)
      → Fits l.max_string_length (length r)
  Fits-read front r q e k h =
      let size : offset q - length front ≡ length r =
        let a = ap length e in omega (arith, length-append front r) in
      rw (k, size) at h

  pass_string_byte-Ensures :
      (start : ℕ) (p : Parser) (n : ℕ)
      → Within l (suc n) p
      → Ensures Anything l n (pass_string_byte start p)
  unfolding pass_string_byte
  pass_string_byte-Ensures start p n w =
      branch (exceeds (advance p).limits.max_string_length (offset (advance p) - start))
        (λ _. fails) (λ _. gives tt (advance-Within p l n w))

  consume_escape_marker-Ensures :
      (p : Parser) (n : ℕ) → Within l (suc n) p → Ensures Anything l n (consume_escape_marker p)
  unfolding consume_escape_marker
  consume_escape_marker-Ensures p n w =
      branch (is_eof (advance p)) (λ _. fails) (λ _. gives tt (advance-Within p l n w))

  check_string_char-Ensures :
      (c : ℕ) (p : Parser) (n : ℕ) → Within l n p → Ensures Anything l n (check_string_char c p)
  unfolding check_string_char
  check_string_char-Ensures c p n w =
      branch (ltb c 0x20 || ltb 0x7e c) (λ _. fails) (λ _. gives tt w)

  -- A round over a pair, and over a plain byte
  IsRead-pair :
      (front r : Bytes) (esc : Bool) (p q t : Parser)
      → IsRead l front r esc p
      → (peek p == b'\\') ≡ true
      → (q ≡ advance p) × (is_eof q ≡ false)
      → (t ≡ advance q) × Fits t.limits.max_string_length (offset t - length front)
      → t.limits ≡ l
      → IsRead l front (r ++ b'\\' ∷ peek q ∷ []) true t
  IsRead-pair front r esc p q t x i (e, k) (f, h) m =
      let a : q.seen ≡ (front ++ r) ++ b'\\' ∷ [] =
        ap (λ u. u.seen) (e ∙ pass_byte-at p.limits p.seen p.rest b'\\' (omega arith) i)
        ∙ rw x.stands refl in
      let b : t.seen ≡ front ++ (r ++ b'\\' ∷ peek q ∷ []) =
        ap (λ u. u.seen) f
        ∙ (pass_byte-seen q.limits q.seen q.rest k
            ∙ (rw a (
                append_assoc (front ++ r) (b'\\' ∷ []) (peek q ∷ [])
                ∙ append_assoc front r (b'\\' ∷ peek q ∷ [])))) in
      record {
        stands = b;
        raw = is_raw-pair r (peek q) x.raw;
        plain = λ no. let y : true ≡ false = no in cc;
        short = Fits-read front (r ++ b'\\' ∷ peek q ∷ []) t b m h;
      }

  IsRead-plain :
      (front r : Bytes) (esc : Bool) (p q t : Parser)
      → IsRead l front r esc p
      → is_eof p ≡ false
      → (peek p == b'"') ≡ false
      → (peek p == b'\\') ≡ false
      → (q ≡ p) × (is_printable (peek p) ≡ true)
      → (t ≡ advance q) × Fits t.limits.max_string_length (offset t - length front)
      → t.limits ≡ l
      → IsRead l front (r ++ peek p ∷ []) esc t
  IsRead-plain front r esc p q t x i j k (e, pr) (f, h) m =
      let c = peek p in
      let simple : is_plain c ≡ true = rw (pr, j, k) refl in
      let b : t.seen ≡ front ++ (r ++ c ∷ []) =
        ap (λ u. u.seen) (f ∙ ap advance e)
        ∙ (pass_byte-seen p.limits p.seen p.rest i
            ∙ (rw x.stands (append_assoc front r (c ∷ [])))) in
      record {
        stands = b;
        raw = is_raw-plain r c x.raw simple;
        plain = λ no. all-append_lem is_plain r (c ∷ []) (x.plain no) (rw simple refl);
        short = Fits-read front (r ++ c ∷ []) t b m h;
      }

  -- More rounds than there are bytes
  string_loop-Ensures :
      (f n : ℕ) (front r : Bytes) (esc : Bool) (p : Parser)
      → n < f
      → Within l n p
      → IsRead l front r esc p
      → Ensures (IsString l) l n (string_loop f (length front) esc p)
  unfolding string_loop
  string_loop-Ensures zero n front r esc p h w x = let y : ⊥ = omega (arith, h) in elim y [ ]
  string_loop-Ensures (suc f) zero front r esc p h w x =
      branch (is_eof p) (λ _. fails)
        (λ i. let y : ⊥ = let j = is_nil-rest p.rest i in omega (arith, w.1) in elim y [ ])
  string_loop-Ensures (suc f) (suc n) front r esc p h w x =
      let start = length front in
      branch (is_eof p) (λ _. fails)
        (λ i.
          branch (peek p == b'"') (λ _. finish_string-Ensures front r (suc n) esc p w x)
            (λ j.
              branch (peek p == b'\\')
                (λ k.
                  bind_eq consume_escape_marker
                    (λ _. pass_string_byte start >> string_loop f start true) p
                    (consume_escape_marker-Ensures p n w)
                    (λ u q e _ v.
                      bind_eq (pass_string_byte start) (λ _. string_loop f start true) q
                        (pass_string_byte-Ensures start q n (v.0, omega (arith, v.1)))
                        (λ u' t g _ z. weaken (omega arith) (
                          string_loop-Ensures f n front (r ++ b'\\' ∷ peek q ∷ []) true t
                            (omega (arith, h)) z
                            (IsRead-pair front r esc p q t x k (consume_escape_marker-ok p q u e)
                              (pass_string_byte-ok start q t u' g) z.0)))))
                (λ k.
                  bind_eq (check_string_char (peek p))
                    (λ _. pass_string_byte start >> string_loop f start esc) p
                    (check_string_char-Ensures (peek p) p (suc n) w)
                    (λ u q e _ v.
                      bind_eq (pass_string_byte start) (λ _. string_loop f start esc) q
                        (pass_string_byte-Ensures start q n v)
                        (λ u' t g _ z. weaken (omega arith) (
                          string_loop-Ensures f n front (r ++ peek p ∷ []) esc t (omega (arith, h))
                            z
                            (IsRead-plain front r esc p q t x i j k
                              (check_string_char-ok (peek p) p q u e)
                              (pass_string_byte-ok start q t u' g) z.0)))))))

  pub parse_string-Ensures :
      (p : Parser) (n : ℕ) → Within l (suc n) p → Ensures (IsString l) l n (parse_string p)
  unfolding parse_string
  parse_string-Ensures p n w =
      let q = (consume b'"' p).1 in
      branch (not (consume b'"' p).0) (λ _. fails)
        (λ h.
          let v = consume-matched b'"' p l n w (ground arith) in
          weaken v.1 (
            string_loop-Ensures (suc (length q.rest)) (length q.rest) q.seen [] false q
              (omega arith) (v.0, omega arith)
              (record {
                stands = sym (append-nil q.seen);
                raw = unfold is_raw in refl;
                plain = λ _. refl;
                short = ground arith;
              })))
