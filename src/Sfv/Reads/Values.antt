-- ===== src/Sfv/Reads/Values.antt =====
-- `parseBareItem` reads every value that the serializer writes.
use http_message_signatures.Common.{
  ℕ, ◌≡◌, refl, ◌∙◌, Bool, true, false, not, ◌&&◌, ◌||◌, [], ◌∷◌, ◌++◌, arith, ◌==◌, Bytes, codes,
}
use http_message_signatures.Stdlib.Base64.{encode}
use http_message_signatures.Stdlib.Strconv.{format_int}
use http_message_signatures.Sfv.Types.{Limits, Value, bool, int64, int, token, string, bytes}
use http_message_signatures.Sfv.Lexer.{◌>>=◌, pure, head_or_nul, is_nil, >>=-ok}
use http_message_signatures.Sfv.Primitives.{
  is_alpha, is_digit, is_token_char, parse_boolean, parse_integer, parse_string, parse_token,
  parse_byte_sequence,
}
use http_message_signatures.Sfv.Collections.{parse_bare_item}
use http_message_signatures.Sfv.Serialize.{serialize_string, write_bare_item, wrote}
use http_message_signatures.Sfv.Reads.{at, Reads, stops, stops_mono, begins, begins_mono}
use http_message_signatures.Sfv.Reads.Tokens.{is_token, starts_token, IsToken, parse_token-Reads}
use http_message_signatures.Sfv.Reads.Numbers.{
  parse_boolean-true, parse_boolean-false, IsSfInteger, parse_integer-Reads, starts_integer,
  begins-format_int,
}
use http_message_signatures.Sfv.Reads.Strings.{
  IsString, escaped, serialize_string-escaped, parse_string-Reads,
}
use http_message_signatures.Sfv.Reads.Sequences.{IsSequence, parse_byte_sequence-Reads}

-- A value that the parser can return under these limits.
abbrev pub IsValue : Limits → Value → Type 0
IsValue limits (bool b) = Unit {0}
IsValue limits (int64 v) = IsSfInteger v
IsValue limits (int v) = ⊥
IsValue limits (token t) = IsToken limits t
IsValue limits (string s) = IsString limits s
IsValue limits (bytes b) = IsSequence limits b
IsValue limits Value.nil = ⊥

-- What `writeBareItem` writes.
unfoldable pub value_text : Value → Bytes
value_text (bool true) = codes "?1"
value_text (bool false) = codes "?0"
value_text (int64 v) = format_int v
value_text (int v) = []
value_text (token t) = t
value_text (string s) = serialize_string s
value_text (bytes b) = b':' ∷ (encode b ++ b':' ∷ [])
value_text Value.nil = []

pub write_bare_item-IsValue :
    (limits : Limits) (v : Value) → IsValue limits v → write_bare_item v ≡ wrote (value_text v)
unfolding write_bare_item value_text
write_bare_item-IsValue limits (bool true) h = refl
write_bare_item-IsValue limits (bool false) h = refl
write_bare_item-IsValue limits (int64 v) h = refl
write_bare_item-IsValue limits (int v) h = absurd h
write_bare_item-IsValue limits (token t) h = refl
write_bare_item-IsValue limits (string s) h = refl
write_bare_item-IsValue limits (bytes b) h = refl
write_bare_item-IsValue limits Value.nil h = absurd h

module _ (limits : Limits) (seen : Bytes) where
  bare_string :
      (s : Bytes)
      → parse_bare_item (at limits seen (b'"' ∷ s))
        ≡ (do pure (string (← parse_string))) (at limits seen (b'"' ∷ s))
  unfolding parse_bare_item is_nil head_or_nul is_digit
  bare_string s = refl

  bare_sequence :
      (s : Bytes)
      → parse_bare_item (at limits seen (b':' ∷ s))
        ≡ (do pure (bytes (← parse_byte_sequence))) (at limits seen (b':' ∷ s))
  unfolding parse_bare_item is_nil head_or_nul is_digit
  bare_sequence s = refl

-- The byte that begins a bare item decides its kind.
module _ (limits : Limits) (seen rest : Bytes) where
  bare_boolean :
      (s : Bytes)
      → begins (λ c. c == b'?') s ≡ true
      → parse_bare_item (at limits seen (s ++ rest))
        ≡ (do pure (bool (← parse_boolean))) (at limits seen (s ++ rest))
  unfolding parse_bare_item is_nil head_or_nul
  bare_boolean [] h = cc
  bare_boolean (c ∷ s) h = rw h

  bare_integer :
      (s : Bytes)
      → begins starts_integer s ≡ true
      → parse_bare_item (at limits seen (s ++ rest))
        ≡ (do pure (int64 (← parse_integer))) (at limits seen (s ++ rest))
  unfolding parse_bare_item is_nil head_or_nul
  bare_integer [] h = cc
  bare_integer (c ∷ s) h =
      let e : (c == b'?') ≡ false = (unfold is_digit in ground arith) in rw (e, h)

  bare_token :
      (s : Bytes)
      → begins starts_token s ≡ true
      → parse_bare_item (at limits seen (s ++ rest))
        ≡ (do pure (token (← parse_token))) (at limits seen (s ++ rest))
  unfolding parse_bare_item is_nil head_or_nul
  bare_token [] h = cc
  bare_token (c ∷ s) h =
      let e₁ : (c == b'?') ≡ false = (unfold is_alpha in ground arith) in
      let e₂ : (c == b'-' || is_digit c) ≡ false = (unfold is_digit is_alpha in ground arith) in
      let e₃ : (c == b'"') ≡ false = (unfold is_alpha in ground arith) in
      let e₄ : (c == b':') ≡ false = (unfold is_alpha in ground arith) in
      let e₅ : (c == b'*' || is_alpha c) ≡ true = ground arith in rw (e₁, e₂, e₃, e₄, e₅)

-- The byte behind a bare item.
abbrev pub ends_value : ℕ → Bool
ends_value c = is_token_char c || c == b'='

digit_is_token : (c : ℕ) → is_token_char c ≡ false → is_digit c ≡ false
unfolding is_token_char
digit_is_token c h = ground arith

pub begins_token : (s : Bytes) → is_token s ≡ true → begins starts_token s ≡ true
begins_token [] h = cc
begins_token (c ∷ s) h = ground arith

-- Every value is read back from what `writeBareItem` writes.
pub parse_bare_item-Reads :
    (limits : Limits) (v : Value) (rest : Bytes)
    → IsValue limits v
    → stops is_token_char rest ≡ true
    → Reads limits parse_bare_item (value_text v) v rest
unfolding value_text
parse_bare_item-Reads limits (bool true) rest h k seen =
    bare_boolean limits seen rest (codes "?1") refl
    ∙ >>=-ok parse_boolean _ _ (parse_boolean-true limits rest seen)
parse_bare_item-Reads limits (bool false) rest h k seen =
    bare_boolean limits seen rest (codes "?0") refl
    ∙ >>=-ok parse_boolean _ _ (parse_boolean-false limits rest seen)
parse_bare_item-Reads limits (int64 v) rest h k seen =
    bare_integer limits seen rest (format_int v) (begins-format_int v)
    ∙ >>=-ok parse_integer _ _ (
        parse_integer-Reads limits v rest h
          (stops_mono is_digit is_token_char rest digit_is_token k) seen)
parse_bare_item-Reads limits (int v) rest h k seen = absurd h
parse_bare_item-Reads limits (token t) rest h k seen =
    bare_token limits seen rest t (begins_token t h.0)
    ∙ >>=-ok parse_token _ _ (parse_token-Reads limits t rest h k seen)
parse_bare_item-Reads limits (string s) rest h k seen =
    let text = serialize_string-escaped s h.0 in
    rw text (
      bare_string limits seen ((escaped s ++ b'"' ∷ []) ++ rest)
      ∙ >>=-ok parse_string _ _ (rw text at (parse_string-Reads limits s rest h seen)))
parse_bare_item-Reads limits (bytes b) rest h k seen =
    bare_sequence limits seen ((encode b ++ b':' ∷ []) ++ rest)
    ∙ >>=-ok parse_byte_sequence _ _ (parse_byte_sequence-Reads limits b rest h seen)
parse_bare_item-Reads limits Value.nil rest h k seen = absurd h

-- What no bare item begins with.
abbrev pub starts_item : ℕ → Bool
starts_item c = not (c == b' ') && (not (c == b')') && not (c == b'('))

pub begins-value_text :
    (limits : Limits) (v : Value) → IsValue limits v → begins starts_item (value_text v) ≡ true
unfolding value_text
begins-value_text limits (bool true) h = refl
begins-value_text limits (bool false) h = refl
begins-value_text limits (int64 v) h =
    begins_mono starts_item starts_integer (format_int v) (λ c e. unfold is_digit in ground arith)
      (begins-format_int v)
begins-value_text limits (int v) h = absurd h
begins-value_text limits (token t) h =
    begins_mono starts_item starts_token t (λ c e. unfold is_alpha in ground arith)
      (begins_token t h.0)
begins-value_text limits (string s) h = unfold serialize_string in refl
begins-value_text limits (bytes b) h = refl
begins-value_text limits Value.nil h = absurd h
