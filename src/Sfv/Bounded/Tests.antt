-- ===== src/Sfv/Bounded/Tests.antt =====
-- Uses of the theorems on all inputs of the parsers.
use http_message_signatures.Common.{◌≡◌, refl, ◌≢◌, [], ◌∷◌, Bytes, codes, equal, lookup, insert}
use http_message_signatures.Sfv.Types.{default_limits, Dictionary, string, item}
use http_message_signatures.Sfv.Lexer.{
  Parser, new_parser, head_or_nul, is_nil, pass_byte, consume, skip_bytes, check_input_length, ok,
  out_of_fuel,
}
use http_message_signatures.Stdlib.Utf8.{write_runes}
use http_message_signatures.Sfv.Primitives.{
  is_alpha, is_digit, is_token_char, finish_string, check_string_char, pass_string_byte,
  string_loop, parse_string, finish_token, parse_token,
}
use http_message_signatures.Sfv.Collections.{
  parse_bare_item, parameters_loop, parse_parameters, parse_item, parse_value, bare_key,
  member_value, parse_dictionary_member, store, separator, dictionary_loop, parse_dictionary,
  parse_list,
}
use http_message_signatures.Sfv.Serialize.{
  escape_before, serialize_string, write_bare_item, write_parameters, write_item, is_bare,
  write_entry, write_entries, serialize_dictionary, wrote,
}
use http_message_signatures.Sfv.Reads.{at}
use http_message_signatures.Sfv.Bounded.Fits.{DictionaryFits}
use http_message_signatures.Sfv.Bounded.Stored.{IsParsed}
use http_message_signatures.Sfv.Bounded.Accepted.{
  parse-Returns, parse_dictionary-IsParsed, parse_dictionary-Fits,
  serialize_dictionary-parse_dictionary, parse_dictionary-serialize_dictionary,
}

-- A parameter without an end
abbrev open_input : Parser
open_input = new_parser (codes "sig1=(\"@method\";") default_limits

parse-Returns_example :
    (parse_dictionary open_input ≢ out_of_fuel) × (parse_list open_input ≢ out_of_fuel)
parse-Returns_example = parse-Returns open_input

abbrev two_members : Dictionary
two_members = record {
  keys = codes "a" ∷ codes "b" ∷ [];
  values =
      (codes "a", item (record { value = string (codes "x"); parameters = [] }))
      ∷ (codes "b", bare_key)
      ∷ [];
}

abbrev two_text : Bytes
two_text = codes "a=\"x\", b"

abbrev two_input : Parser
two_input = new_parser two_text default_limits

abbrev two_end : Parser
two_end = record { seen = two_text; rest = []; limits = default_limits }

two_input-ok : parse_dictionary two_input ≡ ok (two_members, two_end)
unfolding check_input_length parse_dictionary dictionary_loop parse_dictionary_member parse_token
    member_value parse_value parse_item parse_bare_item parse_string string_loop finish_string
    check_string_char pass_string_byte parse_parameters parameters_loop separator store lookup
    insert equal consume skip_bytes pass_byte head_or_nul is_nil finish_token is_token_char is_alpha
    is_digit
two_input-ok = refl

two_members-wrote : serialize_dictionary two_members ≡ wrote two_text
unfolding serialize_dictionary write_entries write_entry write_item write_bare_item serialize_string
    escape_before write_parameters is_bare lookup equal write_runes
two_members-wrote = refl

parse_dictionary-IsParsed_example : IsParsed default_limits two_members
parse_dictionary-IsParsed_example =
    parse_dictionary-IsParsed two_input two_end two_members two_input-ok

parse_dictionary-Fits_example : DictionaryFits default_limits two_members
parse_dictionary-Fits_example = parse_dictionary-Fits two_input two_end two_members two_input-ok

serialize_dictionary-parse_dictionary_example :
    (text : Bytes) × (serialize_dictionary two_members ≡ wrote text)
serialize_dictionary-parse_dictionary_example =
    serialize_dictionary-parse_dictionary two_input two_end two_members two_input-ok

parse_dictionary-serialize_dictionary_example :
    parse_dictionary two_input ≡ ok (two_members, at default_limits two_text [])
parse_dictionary-serialize_dictionary_example =
    parse_dictionary-serialize_dictionary two_input two_end two_members two_text two_input-ok
      two_members-wrote refl
