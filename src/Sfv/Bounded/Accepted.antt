-- ===== src/Sfv/Bounded/Accepted.antt =====
-- pkg/sfv/dictionary.go and list.go: the two parsers on every input.
use http_message_signatures.Common.{◌≡◌, refl, sym, ap, ◌∙◌, ◌≢◌, [], arith, length, Bytes}
use http_message_signatures.Sfv.Types.{Dictionary}
use http_message_signatures.Sfv.Lexer.{Parser, new_parser, ok, out_of_fuel}
use http_message_signatures.Sfv.Collections.{parse_dictionary, parse_list}
use http_message_signatures.Sfv.Serialize.{serialize_dictionary, wrote}
use http_message_signatures.Sfv.Reads.{at}
use http_message_signatures.Sfv.Reads.Dictionaries.Written.{parse_dictionary-dictionary_text}
use http_message_signatures.Sfv.Reads.Dictionaries.RoundTrip.{
  dictionary_text, serialize_dictionary-IsDictionary,
}
use http_message_signatures.Sfv.Bounded.{Fits, Within, Ensures-ok, Ensures-ends}
use http_message_signatures.Sfv.Bounded.Stored.{IsParsed}
use http_message_signatures.Sfv.Bounded.Fits.{DictionaryFits, IsParsed-Fits}
use http_message_signatures.Sfv.Bounded.Collections.{parse_dictionary-Ensures, parse_list-Ensures}

-- The parsers of dictionaries and of lists return on every input, from every position and with any
-- limits: with a round for each byte that is left and one more, no loop of theirs runs out of fuel.
pub parse-Returns : (p : Parser) → (parse_dictionary p ≢ out_of_fuel) × (parse_list p ≢ out_of_fuel)
parse-Returns p =
    let w : Within p.limits (length p.rest) p = (refl, omega arith) in
    (
      Ensures-ends (parse_dictionary-Ensures p.limits p (length p.rest) w),
      Ensures-ends (parse_list-Ensures p.limits p (length p.rest) w),
    )

-- A dictionary that the parser returns, from any input, has one value for each of its keys and in
-- their order, distinct keys that are tokens, and members of the form that the serializer writes
-- and within the limits: integers of at most 15 digits, printable strings, tokens, and sequences of
-- bytes.
pub parse_dictionary-IsParsed :
    (p q : Parser) (d : Dictionary) → parse_dictionary p ≡ ok (d, q) → IsParsed p.limits d
parse_dictionary-IsParsed p q d h =
    Ensures-ok (parse_dictionary-Ensures p.limits p (length p.rest) (refl, omega arith)) h

-- A dictionary that the parser returns is within the limits throughout: its members, the items of
-- each inner list and the parameters of each item are not too many, and no key, token, string or
-- byte sequence is too long.
pub parse_dictionary-Fits :
    (p q : Parser) (d : Dictionary) → parse_dictionary p ≡ ok (d, q) → DictionaryFits p.limits d
parse_dictionary-Fits p q d h = IsParsed-Fits p.limits d (parse_dictionary-IsParsed p q d h)

-- The serializer writes every dictionary that the parser returns, without an error.
pub serialize_dictionary-parse_dictionary :
    (p q : Parser) (d : Dictionary)
    → parse_dictionary p ≡ ok (d, q)
    → (text : Bytes) × (serialize_dictionary d ≡ wrote text)
serialize_dictionary-parse_dictionary p q d h =
    let x = parse_dictionary-IsParsed p q d h in
    (
      dictionary_text x.entries,
      ap serialize_dictionary x.same ∙ serialize_dictionary-IsDictionary p.limits x.entries x.valid,
    )

wrote_inj : (s t : Bytes) → wrote s ≡ wrote t → s ≡ t
wrote_inj s t h = cc

-- When a dictionary that the parser returned is written, and its text is within the limit on the
-- input, parsing the text with the same limits returns the same dictionary and leaves nothing.
pub parse_dictionary-serialize_dictionary :
    (p q : Parser) (d : Dictionary) (text : Bytes)
    → parse_dictionary p ≡ ok (d, q)
    → serialize_dictionary d ≡ wrote text
    → Fits p.limits.max_input_length (length text)
    → parse_dictionary (new_parser text p.limits) ≡ ok (d, at p.limits text [])
parse_dictionary-serialize_dictionary p q d text h s f =
    let x = parse_dictionary-IsParsed p q d h in
    let w = serialize_dictionary-IsDictionary p.limits x.entries x.valid in
    let same : dictionary_text x.entries ≡ text = wrote_inj _ _ (sym w ∙ (rw x.same at s)) in
    rw (x.same, ← same) (parse_dictionary-dictionary_text p.limits x.entries x.valid (rw same f))
