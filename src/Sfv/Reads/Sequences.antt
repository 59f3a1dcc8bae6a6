-- ===== src/Sfv/Reads/Sequences.antt =====
-- `parseByteSequence` reads every byte sequence that the serializer writes.
use http_message_signatures.Common.{
  ℕ, ◌≡◌, refl, ◌∙◌, true, false, some, [], ◌∷◌, ◌++◌, append-nil, append_assoc, arith, ◌==◌,
  &&_left, &&_right, length, All, all, Bytes, IsByte,
}
use http_message_signatures.Stdlib.Base64.{encode, encode_digit}
use http_message_signatures.Stdlib.Base64.RoundTrip.{decode_std-encode, all-encode}
use http_message_signatures.Sfv.Types.{Limits, exceeds}
use http_message_signatures.Sfv.Lexer.{head_or_nul, is_nil, pass_byte, consume, ok, >>=-ok}
use http_message_signatures.Sfv.Primitives.{
  is_base64_char, seek_colon, decode_base64, finish_byte_sequence, close_byte_sequence, seek,
  parse_byte_sequence,
}
use http_message_signatures.Sfv.Reads.{at, Reads, slice-at}

-- Bytes that the limits let through.
abbrev pub IsSequence : Limits → Bytes → Type 0
IsSequence limits b = All IsByte b × (exceeds limits.max_byte_sequence_length (length b) ≡ false)

encode_digit_test : (n : ℕ) → is_base64_char (encode_digit n) ≡ true
unfolding is_base64_char encode_digit
encode_digit_test n = ground arith

encode_test : (b : Bytes) → all is_base64_char (encode b) ≡ true
unfolding is_base64_char
encode_test b = all-encode is_base64_char refl encode_digit_test b

not_colon : (c : ℕ) → is_base64_char c ≡ true → (c == b':') ≡ false
unfolding is_base64_char
not_colon c h = ground arith

seek_colon-all :
    (limits : Limits) (seen s rest : Bytes)
    → all is_base64_char s ≡ true
    → seek_colon limits seen (s ++ b':' ∷ rest) ≡ ok (tt, at limits (seen ++ s) (b':' ∷ rest))
unfolding seek_colon
seek_colon-all limits seen [] rest h = rw append-nil
seek_colon-all limits seen (c ∷ s) rest h =
    let here = &&_left (is_base64_char c) (all is_base64_char s) h in
    let tail = &&_right (is_base64_char c) (all is_base64_char s) h in
    rw (not_colon c here, here, seek_colon-all limits (seen ++ c ∷ []) s rest tail)
      (rw (append_assoc seen (c ∷ []) s))

decode_base64-encode : (b : Bytes) → All IsByte b → decode_base64 (encode b) ≡ some b
unfolding decode_base64
decode_base64-encode b h = rw (decode_std-encode b h, decode_base64)

close_byte_sequence-at :
    (limits : Limits) (seen b rest : Bytes)
    → IsSequence limits b
    → close_byte_sequence (length seen) (at limits (seen ++ encode b) (b':' ∷ rest))
      ≡ ok (b, at limits ((seen ++ encode b) ++ b':' ∷ []) rest)
unfolding close_byte_sequence finish_byte_sequence is_nil head_or_nul pass_byte
close_byte_sequence-at limits seen b rest (are_bytes, short) = rw (
  slice-at limits seen (encode b) (b':' ∷ rest),
  decode_base64-encode b are_bytes,
  finish_byte_sequence,
  short,
)

-- A sequence of bytes within the limit is read back from its base64 text between colons, whatever
-- follows.
pub parse_byte_sequence-Reads :
    (limits : Limits) (b rest : Bytes)
    → IsSequence limits b
    → Reads limits parse_byte_sequence (b':' ∷ (encode b ++ b':' ∷ [])) b rest
unfolding parse_byte_sequence consume head_or_nul pass_byte
parse_byte_sequence-Reads limits b rest h seen =
    let colon = seen ++ b':' ∷ [] in
    rw (append_assoc (encode b) (b':' ∷ []) rest) (
      >>=-ok seek (λ _. close_byte_sequence (length colon)) _
        (seek_colon-all limits colon (encode b) rest (encode_test b))
      ∙ close_byte_sequence-at limits colon b rest h
      ∙ rw (append_assoc seen (b':' ∷ []) (encode b), append_assoc seen (b':' ∷ encode b)))
