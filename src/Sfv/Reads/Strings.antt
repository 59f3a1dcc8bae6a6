-- ===== src/Sfv/Reads/Strings.antt =====
-- `parseString` reads every string of printable ASCII that `SerializeString` writes.
use http_message_signatures.Common.{
  ℕ, zero, suc, ◌+◌, ◌-◌, ◌<◌, ◌≡◌, refl, ap, ◌∙◌, inl, inr, Bool, true, false, ◌&&◌, ◌||◌, [], ◌∷◌,
  ◌++◌, append-nil, append_assoc, arith, ltb, leb, ◌==◌, &&_left, &&_right, Bool-cases, length,
  length-append, all, Bytes,
}
use http_message_signatures.Stdlib.Utf8.{write_runes, write_runes-ascii}
use http_message_signatures.Sfv.Types.{Limits, exceeds}
use http_message_signatures.Sfv.Lexer.{Parser, head_or_nul, is_nil, pass_byte, consume, ok, >>=-ok}
use http_message_signatures.Sfv.Primitives.{
  decode_loop, finish_string, consume_escape_marker, check_string_char, pass_string_byte,
  string_loop, parse_string,
}
use http_message_signatures.Sfv.Serialize.{escape_before, serialize_string}
use http_message_signatures.Sfv.Reads.{at, Reads, slice-at, length-read}

abbrev pub is_printable : ℕ → Bool
is_printable c = leb 0x20 c && leb c 0x7e

-- The text between the quotes.
unfoldable pub escaped : Bytes → Bytes
escaped [] = []
escaped (c ∷ s) = escape_before c ++ c ∷ escaped s

-- Printable ASCII whose escaped form the limits let through.
abbrev pub IsString : Limits → Bytes → Type 0
IsString limits s =
    (all is_printable s ≡ true) × (exceeds limits.max_string_length (length (escaped s)) ≡ false)

printable_ascii : (c : ℕ) → is_printable c ≡ true → ltb c 0x80 ≡ true
printable_ascii c h = ground arith

escaped_special :
    (c : ℕ) (s : Bytes) → (c == b'\\' || c == b'"') ≡ true → escaped (c ∷ s) ≡ b'\\' ∷ c ∷ escaped s
unfolding escaped escape_before
escaped_special c s h = rw h

escaped_plain :
    (c : ℕ) (s : Bytes) → (c == b'\\' || c == b'"') ≡ false → escaped (c ∷ s) ≡ c ∷ escaped s
unfolding escaped escape_before
escaped_plain c s h = rw h

-- On printable ASCII the rune loop writes the escaped text.
pub write_runes-escaped :
    (s : Bytes) → all is_printable s ≡ true → write_runes escape_before 0 s ≡ escaped s
unfolding escaped
write_runes-escaped [] h = unfold write_runes in refl
write_runes-escaped (c ∷ s) h =
    let here = printable_ascii c (&&_left (is_printable c) (all is_printable s) h) in
    let tail = write_runes-escaped s (&&_right (is_printable c) (all is_printable s) h) in
    rw (write_runes-ascii escape_before c s here, tail)

pub serialize_string-escaped :
    (s : Bytes) → all is_printable s ≡ true → serialize_string s ≡ b'"' ∷ (escaped s ++ b'"' ∷ [])
unfolding serialize_string
serialize_string-escaped s h = rw (write_runes-escaped s h)

-- Whether the text needs a backslash.
abbrev has_special : Bytes → Bool
has_special [] = false
has_special (c ∷ s) = (c == b'\\' || c == b'"') || has_special s

or_true : (b : Bool) → (b || true) ≡ true
or_true b = ground arith

-- `pass_string_byte` behind the text `read`, which the limit lets through with its next byte.
pass_string_byte-at :
    (limits : Limits) (seen read : Bytes) (c : ℕ) (rest : Bytes)
    → exceeds limits.max_string_length (suc (length read)) ≡ false
    → pass_string_byte (length seen) (at limits (seen ++ read) (c ∷ rest))
      ≡ ok (tt, at limits (seen ++ (read ++ c ∷ [])) rest)
unfolding pass_string_byte pass_byte
pass_string_byte-at limits seen read c rest h =
    let e : length (seen ++ (read ++ c ∷ [])) - length seen ≡ suc (length read) =
      omega (arith, length-read seen (read ++ c ∷ []), length-append read (c ∷ [])) in
    rw (append_assoc seen read (c ∷ []), e, h)

consume_escape_marker-at :
    (limits : Limits) (seen read : Bytes) (c : ℕ) (rest : Bytes)
    → consume_escape_marker (at limits (seen ++ read) (b'\\' ∷ c ∷ rest))
      ≡ ok (tt, at limits (seen ++ (read ++ b'\\' ∷ [])) (c ∷ rest))
unfolding consume_escape_marker pass_byte is_nil
consume_escape_marker-at limits seen read c rest = rw append_assoc

module _ (limits : Limits) (seen read : Bytes) (c : ℕ) (rest : Bytes) (f : ℕ) (esc : Bool) where
  -- A round over an escape sequence.
  escaped_round :
      exceeds limits.max_string_length (length read + 2) ≡ false
      → string_loop (suc f) (length seen) esc (at limits (seen ++ read) (b'\\' ∷ c ∷ rest))
        ≡ string_loop f (length seen) true (at limits (seen ++ (read ++ b'\\' ∷ c ∷ [])) rest)
  unfolding string_loop is_nil head_or_nul
  escaped_round h =
      let short : exceeds limits.max_string_length (suc (length (read ++ b'\\' ∷ []))) ≡ false =
        ground (arith, length-append read (b'\\' ∷ [])) in
      >>=-ok consume_escape_marker _ _ (consume_escape_marker-at limits seen read c rest)
      ∙ >>=-ok (pass_string_byte (length seen)) _ _
          (pass_string_byte-at limits seen (read ++ b'\\' ∷ []) c rest short)
      ∙ rw (append_assoc read (b'\\' ∷ []) (c ∷ []))

  -- A round over a byte that needs no escape.
  plain_round :
      is_printable c ≡ true
      → (c == b'\\' || c == b'"') ≡ false
      → exceeds limits.max_string_length (length read + 1) ≡ false
      → string_loop (suc f) (length seen) esc (at limits (seen ++ read) (c ∷ rest))
        ≡ string_loop f (length seen) esc (at limits (seen ++ (read ++ c ∷ [])) rest)
  unfolding string_loop is_nil head_or_nul check_string_char
  plain_round p q h =
      let not_quote : (c == b'"') ≡ false = ground arith in
      let not_backslash : (c == b'\\') ≡ false = ground arith in
      let is_text : (ltb c 0x20 || ltb 0x7e c) ≡ false = ground arith in
      let short : exceeds limits.max_string_length (suc (length read)) ≡ false = ground arith in
      rw (not_quote, not_backslash)
        (>>=-ok (check_string_char c) _ _ (rw is_text)
          ∙ >>=-ok (pass_string_byte (length seen)) _ _
              (pass_string_byte-at limits seen read c rest short))

-- The loop, with `read` taken since it began and the escaped text `s` before it.
string_loop-at :
    (limits : Limits) (seen : Bytes) (s : Bytes) (read rest : Bytes) (f : ℕ) (esc : Bool)
    → all is_printable s ≡ true
    → exceeds limits.max_string_length (length read + length (escaped s)) ≡ false
    → length (escaped s) < f
    → string_loop f (length seen) esc (at limits (seen ++ read) (escaped s ++ b'"' ∷ rest))
      ≡ finish_string
          (length seen)
          (has_special s || esc)
          (at limits (seen ++ (read ++ escaped s)) (b'"' ∷ rest))
string_loop-at limits seen s read rest zero esc p e h = absurd (omega arith)
string_loop-at limits seen [] read rest (suc f) esc p e h =
    unfold escaped string_loop is_nil head_or_nul in rw append-nil
string_loop-at limits seen (c ∷ s) read rest (suc f) esc p e h =
    let printable = &&_left (is_printable c) (all is_printable s) p in
    let tail = &&_right (is_printable c) (all is_printable s) p in
    elim (Bool-cases (c == b'\\' || c == b'"')) [
      | inl special ↦
          let text = escaped_special c s special in
          let size : length (escaped (c ∷ s)) ≡ suc (suc (length (escaped s))) = ap length text in
          let more = length-append read (b'\\' ∷ c ∷ []) in
          rw (special, text)
            (escaped_round limits seen read c (escaped s ++ b'"' ∷ rest) f esc (ground arith)
              ∙ string_loop-at limits seen s (read ++ b'\\' ∷ c ∷ []) rest f true tail
                  (ground (arith, more)) (omega arith)
              ∙ rw (or_true (has_special s), append_assoc read (b'\\' ∷ c ∷ []) (escaped s)))
      | inr plain ↦
          let text = escaped_plain c s plain in
          let size : length (escaped (c ∷ s)) ≡ suc (length (escaped s)) = ap length text in
          let more = length-append read (c ∷ []) in
          rw (plain, text)
            (plain_round limits seen read c (escaped s ++ b'"' ∷ rest) f esc printable plain
                (ground arith)
              ∙ string_loop-at limits seen s (read ++ c ∷ []) rest f esc tail (ground (arith, more))
                  (omega arith)
              ∙ rw (append_assoc read (c ∷ []) (escaped s)))
    ]

module _ (p : Parser) (buf : Bytes) (c : ℕ) (s : Bytes) where
  -- A round of `decodeString` over an escape sequence, and over any other byte.
  decode_escape :
      (c == b'\\' || c == b'"') ≡ true
      → exceeds p.limits.max_string_length (length buf + 1) ≡ false
      → decode_loop p false buf (b'\\' ∷ c ∷ s) ≡ decode_loop p false (buf ++ c ∷ []) s
  unfolding decode_loop
  decode_escape special h = ground (arith, length-append buf (c ∷ []))

  decode_plain :
      (c == b'\\' || c == b'"') ≡ false
      → exceeds p.limits.max_string_length (length buf + 1) ≡ false
      → decode_loop p false buf (c ∷ s) ≡ decode_loop p false (buf ++ c ∷ []) s
  unfolding decode_loop
  decode_plain plain h = ground (arith, length-append buf (c ∷ []))

decode_loop-escaped :
    (p : Parser) (buf s : Bytes)
    → exceeds p.limits.max_string_length (length buf + length (escaped s)) ≡ false
    → decode_loop p false buf (escaped s) ≡ ok (buf ++ s, p)
decode_loop-escaped p buf [] h = rw append-nil (unfold escaped decode_loop in refl)
decode_loop-escaped p buf (c ∷ s) h =
    let more = length-append buf (c ∷ []) in
    elim (Bool-cases (c == b'\\' || c == b'"')) [
      | inl special ↦
          let text = escaped_special c s special in
          let size : length (escaped (c ∷ s)) ≡ suc (suc (length (escaped s))) = ap length text in
          rw text (
            decode_escape p buf c (escaped s) special (ground arith)
            ∙ decode_loop-escaped p (buf ++ c ∷ []) s (ground (arith, more))
            ∙ rw (append_assoc buf (c ∷ []) s))
      | inr plain ↦
          let text = escaped_plain c s plain in
          let size : length (escaped (c ∷ s)) ≡ suc (length (escaped s)) = ap length text in
          rw text (
            decode_plain p buf c (escaped s) plain (ground arith)
            ∙ decode_loop-escaped p (buf ++ c ∷ []) s (ground (arith, more))
            ∙ rw (append_assoc buf (c ∷ []) s))
    ]

escaped_without_special : (s : Bytes) → has_special s ≡ false → escaped s ≡ s
escaped_without_special [] h = unfold escaped in refl
escaped_without_special (c ∷ s) h =
    let plain : (c == b'\\' || c == b'"') ≡ false = ground arith in
    rw (escaped_plain c s plain, escaped_without_special s (ground arith))

finish_string-at :
    (limits : Limits) (seen s rest : Bytes)
    → exceeds limits.max_string_length (length (escaped s)) ≡ false
    → finish_string
        (length seen)
        (has_special s || false)
        (at limits (seen ++ escaped s) (b'"' ∷ rest))
      ≡ ok (s, at limits ((seen ++ escaped s) ++ b'"' ∷ []) rest)
unfolding finish_string pass_byte
finish_string-at limits seen s rest h = elim (Bool-cases (has_special s)) [
  | inl special ↦
      rw (special, slice-at limits seen (escaped s) (b'"' ∷ rest))
        (decode_loop-escaped (at limits ((seen ++ escaped s) ++ b'"' ∷ []) rest) [] s
          (ground arith))
  | inr plain ↦
      rw (plain, slice-at limits seen (escaped s) (b'"' ∷ rest), escaped_without_special s plain)
]

-- A string of printable ASCII, quotes and backslashes included, whose escaped form is within the
-- limit, is read back from what the serializer writes, whatever follows.
pub parse_string-Reads :
    (limits : Limits) (s rest : Bytes)
    → IsString limits s
    → Reads limits parse_string (serialize_string s) s rest
unfolding parse_string consume head_or_nul pass_byte
parse_string-Reads limits s rest (printable, short) seen =
    let open_quote = seen ++ b'"' ∷ [] in
    let room = length-append (escaped s) (b'"' ∷ rest) in
    let loop =
      string_loop-at limits open_quote s [] rest (suc (length (escaped s ++ b'"' ∷ rest))) false
        printable (ground arith) (omega arith) in
    rw (serialize_string-escaped s printable, append_assoc (escaped s) (b'"' ∷ []) rest)
      ((rw (append-nil open_quote) at loop)
        ∙ finish_string-at limits open_quote s rest short
        ∙ rw (append_assoc seen (b'"' ∷ []) (escaped s), append_assoc seen (b'"' ∷ escaped s)))
