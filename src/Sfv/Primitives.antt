-- ===== src/Sfv/Primitives.antt =====
-- pkg/sfv/primitives.go: booleans, integers, strings, tokens and byte sequences.
use http_message_signatures.Common.{
  ℕ, zero, suc, ◌-◌, Bool, true, false, not, ◌&&◌, ◌||◌, Option, none, some, [], ◌∷◌, ◌++◌, ltb,
  leb, ◌==◌, if◌then◌else◌, length, Bytes, ℤ,
}
use http_message_signatures.Stdlib.Base64
use http_message_signatures.Stdlib.Strconv.{parse_int}
use http_message_signatures.Sfv.Types.{Limits, exceeds}
use http_message_signatures.Sfv.Lexer.{
  Parser, Parse, Result, ok, out_of_fuel, ◌>>◌, fail, peek, is_eof, advance, consume, skip_while,
  slice_from, offset, expected_question_mark, expected_zero_or_one, expected_digit,
  integer_exceeds_15_digits, invalid_integer, expected_quote, unexpected_eof_in_string,
  invalid_character_in_string, unexpected_eof_after_backslash, unexpected_end_after_backslash,
  invalid_escape_sequence, string_length_exceeds, expected_token_got_eof,
  token_must_start_with_letter, empty_token, token_length_exceeds, expected_colon,
  invalid_character_in_byte_sequence, expected_closing_colon, invalid_base64,
  byte_sequence_length_exceeds,
}

unfoldable pub is_alpha : ℕ → Bool
is_alpha c = leb b'a' c && leb c b'z' || leb b'A' c && leb c b'Z'

unfoldable pub is_digit : ℕ → Bool
is_digit c = leb b'0' c && leb c b'9'

unfoldable pub is_token_char : ℕ → Bool
unfolding is_alpha is_digit
is_token_char c =
    is_alpha c
    || is_digit c
    || c == b'_'
    || c == b'-'
    || c == b'.'
    || c == b':'
    || c == b'%'
    || c == b'*'
    || c == b'/'

unfoldable pub is_base64_char : ℕ → Bool
unfolding is_alpha is_digit
is_base64_char c = is_alpha c || is_digit c || c == b'+' || c == b'/' || c == b'='

-- `parseBoolean`
unfoldable pub parse_boolean : Parse Bool
parse_boolean p =
    let (matched, q) = consume b'?' p in
    if not matched
    then fail expected_question_mark q
    else if peek q == b'1'
    then ok (true, advance q)
    else if peek q == b'0'
    then ok (false, advance q)
    else fail expected_zero_or_one q

-- The end of `parseInteger`: `q` stands before the digits, `r` behind them.
unfoldable pub finish_integer : ℕ → Parser → Parser → Result (ℤ × Parser)
finish_integer start q r =
    if offset r == offset q
    then fail expected_digit r
    else if ltb 15 (offset r - offset q)
    then fail integer_exceeds_15_digits r
    else elim (parse_int (slice_from start r)) [
      | none ↦ fail invalid_integer r
      | some v ↦ ok (v, r)
    ]

-- `parseInteger`
unfoldable pub parse_integer : Parse ℤ
parse_integer p =
    let q = if peek p == b'-' then advance p else p in
    finish_integer (offset p) q (skip_while is_digit q)

-- The limit test behind each byte that `decodeString` appends.
abbrev within_limit : Parser → Bytes → Result (Bytes × Parser) → Result (Bytes × Parser)
within_limit p buf more =
    if exceeds p.limits.max_string_length (length buf)
    then fail (string_length_exceeds (length buf) p.limits.max_string_length) p
    else more

-- The loop of `decodeString`; the flag says that a backslash was just read.
unfoldable pub decode_loop : Parser → Bool → Bytes → Bytes → Result (Bytes × Parser)
decode_loop p true buf [] = fail unexpected_end_after_backslash p
decode_loop p false buf [] = ok (buf, p)
decode_loop p true buf (c ∷ s) =
    let more = decode_loop p false (buf ++ c ∷ []) s in
    if not (c == b'"') && not (c == b'\\')
    then fail invalid_escape_sequence p
    else within_limit p (buf ++ c ∷ []) more
decode_loop p false buf (c ∷ s) =
    let escape = decode_loop p true buf s in
    let more = decode_loop p false (buf ++ c ∷ []) s in
    if c == b'\\' then escape else within_limit p (buf ++ c ∷ []) more

-- `decodeString`
abbrev pub decode_string : Bytes → Parse Bytes
decode_string val p = decode_loop p false [] val

-- `finishString`
unfoldable pub finish_string : ℕ → Bool → Parse Bytes
finish_string start has_escapes p =
    let val = slice_from start p in
    let q = advance p in if not has_escapes then ok (val, q) else decode_string val q

-- `consumeEscapeMarker`
unfoldable pub consume_escape_marker : Parse (Unit {0})
consume_escape_marker p =
    let q = advance p in if is_eof q then fail unexpected_eof_after_backslash q else ok (tt, q)

-- The byte that is neither a quote nor a backslash must be printable ASCII.
unfoldable pub check_string_char : ℕ → Parse (Unit {0})
check_string_char c p =
    if ltb c 0x20 || ltb 0x7e c then fail invalid_character_in_string p else ok (tt, p)

-- The end of a round of `parseString`: the current byte is passed and the length is checked.
unfoldable pub pass_string_byte : ℕ → Parse (Unit {0})
pass_string_byte start p =
    let q = advance p in
    if exceeds q.limits.max_string_length (offset q - start)
    then fail (string_length_exceeds (offset q - start) q.limits.max_string_length) q
    else ok (tt, q)

-- The loop of `parseString`. A round takes a byte at least.
unfoldable pub string_loop : ℕ → ℕ → Bool → Parse Bytes
string_loop zero start has_escapes p = out_of_fuel
string_loop (suc f) start has_escapes p =
    let escaped = (do consume_escape_marker; pass_string_byte start; string_loop f start true) p in
    let plain =
      (do check_string_char (peek p); pass_string_byte start; string_loop f start has_escapes) p in
    if is_eof p
    then fail unexpected_eof_in_string p
    else if peek p == b'"'
    then finish_string start has_escapes p
    else if peek p == b'\\'
    then escaped
    else plain

-- `parseString`
unfoldable pub parse_string : Parse Bytes
parse_string p =
    let (matched, q) = consume b'"' p in
    if not matched
    then fail expected_quote q
    else string_loop (suc (length q.rest)) (offset q) false q

-- The checks of `parseToken` behind its loop.
unfoldable pub finish_token : ℕ → Parse Bytes
finish_token start q =
    if offset q == start
    then fail empty_token q
    else if exceeds q.limits.max_token_length (offset q - start)
    then fail (token_length_exceeds (offset q - start) q.limits.max_token_length) q
    else ok (slice_from start q, q)

-- `parseToken`
unfoldable pub parse_token : Parse Bytes
parse_token p =
    if is_eof p
    then fail expected_token_got_eof p
    else if not (is_alpha (peek p)) && not (peek p == b'*')
    then fail token_must_start_with_letter p
    else finish_token (offset p) (skip_while is_token_char (advance p))

-- The loop of `parseByteSequence` that looks for the closing colon.
unfoldable pub seek_colon : Limits → Bytes → Bytes → Result ((Unit {0}) × Parser)
seek_colon limits seen [] = ok (tt, record { seen = seen; rest = []; limits = limits })
seek_colon limits seen (c ∷ s) =
    let more = seek_colon limits (seen ++ c ∷ []) s in
    let here : Parser = record { seen = seen; rest = c ∷ s; limits = limits } in
    if c == b':'
    then ok (tt, here)
    else if not (is_base64_char c)
    then fail invalid_character_in_byte_sequence here
    else more

-- `StdEncoding`, and `RawStdEncoding` if that fails.
unfoldable pub decode_base64 : Bytes → Option Bytes
decode_base64 s = elim (Base64.decode_std s) [ none ↦ Base64.decode_raw s | some b ↦ some b ]

-- The end of `parseByteSequence`, behind the closing colon.
unfoldable pub finish_byte_sequence : Bytes → Parse Bytes
finish_byte_sequence text q = elim (decode_base64 text) [
  | none ↦ fail invalid_base64 q
  | some decoded ↦
      if exceeds q.limits.max_byte_sequence_length (length decoded)
      then fail (byte_sequence_length_exceeds (length decoded) q.limits.max_byte_sequence_length) q
      else ok (decoded, q)
]

-- `parseByteSequence` behind its loop, which began at `start`.
unfoldable pub close_byte_sequence : ℕ → Parse Bytes
close_byte_sequence start r =
    if is_eof r || not (peek r == b':')
    then fail expected_closing_colon r
    else finish_byte_sequence (slice_from start r) (advance r)

abbrev pub seek : Parse (Unit {0})
seek p = seek_colon p.limits p.seen p.rest

-- `parseByteSequence`
unfoldable pub parse_byte_sequence : Parse Bytes
parse_byte_sequence p =
    let (matched, q) = consume b':' p in
    let body = (do seek; close_byte_sequence (offset q)) q in
    if not matched then fail expected_colon q else body
