-- ===== src/Sfv/Reads/Dictionaries/Written.antt =====
-- pkg/sfv/serialize.go and dictionary.go: a dictionary that is written, and then read.
use http_message_signatures.Common.{◌≡◌, refl, false, [], ◌∷◌, append-nil, arith, length, Bytes}
use http_message_signatures.Sfv.Types.{Limits, exceeds}
use http_message_signatures.Sfv.Lexer.{new_parser, is_nil, check_input_length, ok, >>=-ok}
use http_message_signatures.Sfv.Collections.{dictionary_loop, empty_dictionary, parse_dictionary}
use http_message_signatures.Sfv.Serialize.{wrote, serialize_dictionary}
use http_message_signatures.Sfv.Reads.{at}
use http_message_signatures.Sfv.Reads.Dictionaries.{Entries, keys_of, dictionary_of, entries_text}
use http_message_signatures.Sfv.Reads.Dictionaries.RoundTrip.{
  IsDictionary, dictionary_text, check_input_length_ok, serialize_dictionary-IsDictionary,
  parse_dictionary-Reads,
}

-- The empty text is the empty dictionary.
read_nothing :
    (l : Limits) → parse_dictionary (new_parser [] l) ≡ ok (empty_dictionary, new_parser [] l)
unfolding parse_dictionary dictionary_loop is_nil
read_nothing l =
    let e : exceeds l.max_input_length 0 ≡ false = ground arith in
    >>=-ok check_input_length _ _ (check_input_length_ok (new_parser [] l) e)

-- The text of a dictionary is read back.
pub parse_dictionary-dictionary_text :
    (l : Limits) (es : Entries)
    → IsDictionary l es
    → exceeds l.max_input_length (length (dictionary_text es)) ≡ false
    → parse_dictionary (new_parser (dictionary_text es) l)
      ≡ ok (dictionary_of es, at l (dictionary_text es) [])
parse_dictionary-dictionary_text l [] h f = unfold entries_text keys_of in read_nothing l
parse_dictionary-dictionary_text l (e ∷ es) h f =
    rw (append-nil (dictionary_text (e ∷ es))) at
      (parse_dictionary-Reads l e es [] h refl (rw (append-nil (dictionary_text (e ∷ es))) f))

-- For a dictionary with distinct keys and members within the limits, whose text is within the limit
-- on the length, the serializer succeeds, and the parser reads what it writes as the same
-- dictionary, to the end.
pub serialize_dictionary-Reads :
    (limits : Limits) (es : Entries)
    → IsDictionary limits es
    → exceeds limits.max_input_length (length (dictionary_text es)) ≡ false
    → (text : Bytes) × (serialize_dictionary (dictionary_of es) ≡ wrote text)
      × (parse_dictionary (new_parser text limits) ≡ ok (dictionary_of es, at limits text []))
serialize_dictionary-Reads limits es h short = (
  dictionary_text es,
  serialize_dictionary-IsDictionary limits es h,
  parse_dictionary-dictionary_text limits es h short,
)
