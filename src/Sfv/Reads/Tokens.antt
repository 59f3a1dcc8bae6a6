-- ===== src/Sfv/Reads/Tokens.antt =====
-- `parseToken` reads every token.
use http_message_signatures.Common.{
  ℕ, ◌<◌, ◌≡◌, Bool, true, false, not, ◌&&◌, ◌||◌, [], ◌∷◌, ◌++◌, append_assoc, arith, ◌==◌,
  &&_right, length, length-append, all, Bytes,
}
use http_message_signatures.Sfv.Types.{Limits, exceeds}
use http_message_signatures.Sfv.Lexer.{head_or_nul, is_nil, pass_byte, ok}
use http_message_signatures.Sfv.Primitives.{is_alpha, is_token_char, finish_token, parse_token}
use http_message_signatures.Sfv.Reads.{at, Reads, stops, skip_bytes-all, slice-at, length-read}

abbrev pub starts_token : ℕ → Bool
starts_token c = is_alpha c || c == b'*'

-- A letter or `*`, and token characters behind it.
abbrev pub is_token : Bytes → Bool
is_token [] = false
is_token (c ∷ s) = starts_token c && all is_token_char s

-- A token that the limits let through.
abbrev pub IsToken : Limits → Bytes → Type 0
IsToken limits s = (is_token s ≡ true) × (exceeds limits.max_token_length (length s) ≡ false)

finish_token-at :
    (limits : Limits) (seen s rest : Bytes)
    → 0 < length s
    → exceeds limits.max_token_length (length s) ≡ false
    → finish_token (length seen) (at limits (seen ++ s) rest) ≡ ok (s, at limits (seen ++ s) rest)
unfolding finish_token
finish_token-at limits seen s rest h k =
    let e : (length (seen ++ s) == length seen) ≡ false =
      (let l = length-append seen s in ground arith) in
    rw (e, length-read seen s, k, slice-at limits seen s rest)

-- A token within the limit is read to its end, when no character of a token follows.
pub parse_token-Reads :
    (limits : Limits) (s rest : Bytes)
    → IsToken limits s
    → stops is_token_char rest ≡ true
    → Reads limits parse_token s s rest
unfolding parse_token is_nil head_or_nul pass_byte
parse_token-Reads limits [] rest h k seen = cc h.0
parse_token-Reads limits (c ∷ s) rest (shape, short) k seen =
    let begins : (not (is_alpha c) && not (c == b'*')) ≡ false = ground arith in
    let tail = &&_right (starts_token c) (all is_token_char s) shape in
    rw (begins, skip_bytes-all is_token_char limits s rest (seen ++ c ∷ []) tail k, append_assoc)
      (finish_token-at limits seen (c ∷ s) rest (omega arith) short)
