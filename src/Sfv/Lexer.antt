-- ===== src/Sfv/Lexer.antt =====
-- pkg/sfv/lexer.go: the scanner's state and its errors.
-- Go's `data` and `offset` are kept as the two parts of the input that the offset divides, so an
-- offset outside the input cannot be written; the program never makes one.
use http_message_signatures.Common.{
  ℕ, ◌+◌, ◌-◌, ◌≡◌, refl, Bool, true, false, ◌||◌, [], ◌∷◌, ◌++◌, ltb, ◌==◌, if◌then◌else◌, length,
  take, drop, Bytes, codes,
}
use http_message_signatures.Sfv.Types.{Limits, default_limits, exceeds}

-- `seen` is `data[:offset]` and `rest` is `data[offset:]`.
pub record Parser : Type 0 where
  pub seen : Bytes
  pub rest : Bytes
  pub limits : Limits

abbrev pub offset : Parser → ℕ
offset p = length p.seen

abbrev pub input : Parser → Bytes
input p = p.seen ++ p.rest

-- `NewParser`
abbrev pub new_parser : Bytes → Limits → Parser
new_parser text limits = record { seen = []; rest = text; limits = limits }

-- The texts of the error messages, with the numbers in them. The text that another error adds
-- ("invalid integer: …", "invalid base64 …: …") is left out.
pub data Message : Type 0 where
  input_length_exceeds : ℕ → ℕ → Message
  expected_question_mark expected_zero_or_one : Message
  expected_digit integer_exceeds_15_digits invalid_integer : Message
  expected_quote unexpected_eof_in_string invalid_character_in_string : Message
  unexpected_eof_after_backslash unexpected_end_after_backslash invalid_escape_sequence : Message
  string_length_exceeds : ℕ → ℕ → Message
  expected_token_got_eof token_must_start_with_letter empty_token : Message
  token_length_exceeds : ℕ → ℕ → Message
  expected_colon invalid_character_in_byte_sequence expected_closing_colon invalid_base64 : Message
  byte_sequence_length_exceeds : ℕ → ℕ → Message
  expected_bare_item_got_eof invalid_bare_item_start : Message
  parameters_count_exceeds : ℕ → ℕ → Message
  expected_open_paren expected_close_paren : Message
  inner_list_members_exceeds : ℕ → ℕ → Message
  list_members_exceeds dictionary_members_exceeds : ℕ → ℕ → Message
  trailing_comma_in_list trailing_comma_in_dictionary whitespace_before_equals : Message

pub record ParseError : Type 0 where
  pub offset : ℕ
  pub message : Message
  pub context : Bytes

-- A Go result with its error. `out_of_fuel` has no counterpart in the program: a loop of the model
-- was given too few rounds.
pub data Result {ℓ} (A : Type ℓ) : Type ℓ where
  ok : A → Result A
  err : ParseError → Result A
  out_of_fuel : Result A

-- A method of the parser that can fail: it returns its result and the parser as it left it.
abbrev pub Parse : Type 0 → Type 0
Parse A = Parser → Result (A × Parser)

infixl 5 ◌>>=◌ ◌>>◌
abbrev pub ◌>>=◌ : {A B : Type 0} → Parse A → (A → Parse B) → Parse B
◌>>=◌ m f p = elim (m p) [ ok (a, q) ↦ f a q | err e ↦ err e | out_of_fuel ↦ out_of_fuel ]

abbrev pub ◌>>◌ : {B : Type 0} → Parse (Unit {0}) → Parse B → Parse B
m >> k = m >>= λ _. k

-- A step that succeeds hands its value and its parser on.
pub >>=-ok :
    {A B : Type 0} (m : Parse A) (f : A → Parse B) (p : Parser) {a : A} {q : Parser}
    → m p ≡ ok (a, q)
    → (m >>= f) p ≡ f a q
>>=-ok m f p e = rw (e, ◌>>=◌)

abbrev pub pure : {A : Type 0} → A → Parse A
pure a p = ok (a, p)

-- `peek`: the current byte, and 0 at the end of the input.
unfoldable pub head_or_nul : Bytes → ℕ
head_or_nul [] = 0
head_or_nul (c ∷ s) = c

abbrev pub peek : Parser → ℕ
peek p = head_or_nul p.rest

unfoldable pub is_nil : Bytes → Bool
is_nil [] = true
is_nil (c ∷ s) = false

-- `isEOF`
abbrev pub is_eof : Parser → Bool
is_eof p = is_nil p.rest

-- `p.offset++`, which the program does only where a byte is left.
unfoldable pub pass_byte : Limits → Bytes → Bytes → Parser
pass_byte limits seen [] = record { seen = seen; rest = []; limits = limits }
pass_byte limits seen (c ∷ s) = record { seen = seen ++ c ∷ []; rest = s; limits = limits }

abbrev pub advance : Parser → Parser
advance p = pass_byte p.limits p.seen p.rest

-- `consume`
unfoldable pub consume : ℕ → Parser → Bool × Parser
consume expected p = if peek p == expected then (true, advance p) else (false, p)

-- The loop that moves on while the current byte passes a test.
unfoldable pub skip_bytes : (ℕ → Bool) → Limits → Bytes → Bytes → Parser
skip_bytes test limits seen [] = record { seen = seen; rest = []; limits = limits }
skip_bytes test limits seen (c ∷ s) =
    if test c
    then skip_bytes test limits (seen ++ c ∷ []) s
    else record { seen = seen; rest = c ∷ s; limits = limits }

abbrev pub skip_while : (ℕ → Bool) → Parser → Parser
skip_while test p = skip_bytes test p.limits p.seen p.rest

abbrev pub is_ows : ℕ → Bool
is_ows c = c == b' ' || c == b'\t'

-- `skipOWS`
abbrev pub skip_ows : Parser → Parser
skip_ows = skip_while is_ows

-- `skipSP`
abbrev pub skip_sp : Parser → Parser
skip_sp = skip_while (λ c. c == b' ')

-- `getContext`: up to 20 bytes on each side of the offset.
get_context : Parser → Bytes
get_context p =
    let start = offset p - 20 in
    let size = length (input p) in
    let end = if ltb (offset p + 20) size then offset p + 20 else size in
    let snippet = take (end - start) (drop start (input p)) in
    let front = if ltb 0 start then codes "..." ++ snippet else snippet in
    if ltb end size then front ++ codes "..." else front

-- `newParseError`
pub new_parse_error : Parser → Message → ParseError
new_parse_error p m = record { offset = offset p; message = m; context = get_context p }

abbrev pub fail : {A : Type 0} → Message → Parse A
fail m p = err (new_parse_error p m)

-- `checkInputLength`
unfoldable pub check_input_length : Parse (Unit {0})
check_input_length p =
    if exceeds p.limits.max_input_length (length (input p))
    then fail (input_length_exceeds (length (input p)) p.limits.max_input_length) p
    else ok (tt, p)

-- `data[start:offset]`
abbrev pub slice_from : ℕ → Parser → Bytes
slice_from start p = drop start p.seen

context_in_the_middle :
    get_context (record {
      seen = codes "0123456789012345678901234";
      rest = codes "end";
      limits = default_limits;
    })
    ≡ codes "...56789012345678901234end"
unfolding get_context
context_in_the_middle = refl
