-- ===== src/Sfv/Tests.antt =====
-- Runs of the parser and the serializer on small inputs.
use http_message_signatures.Common.{
  ◌≡◌, refl, false, [], ◌∷◌, ◌++◌, arith, length, Bytes, codes, equal, lookup, insert, pos,
}
use http_message_signatures.Stdlib.Base64
use http_message_signatures.Sfv.Reads.{at}
use http_message_signatures.Sfv.Reads.Dictionaries
use http_message_signatures.Sfv.Reads.Members
use http_message_signatures.Sfv.Reads.Items
use http_message_signatures.Sfv.Reads.Values
use http_message_signatures.Sfv.Reads.Strings.{escaped}
use http_message_signatures.Sfv.Reads.Items.{IsItem, item_text, parse_item-Reads}
use http_message_signatures.Sfv.Reads.Members.{IsInnerList, inner_list_text, parse_inner_list-Reads}
use http_message_signatures.Sfv.Reads.Dictionaries.{Entries, dictionary_of}
use http_message_signatures.Sfv.Reads.Dictionaries.Written.{serialize_dictionary-Reads}
use http_message_signatures.Sfv.Reads.Dictionaries.RoundTrip
use http_message_signatures.Sfv.Reads.Dictionaries.RoundTrip.{IsDictionary, parse_dictionary-Reads}
use http_message_signatures.Stdlib.Base64.{decode_std}
use http_message_signatures.Stdlib.Strconv.{parse_int}
use http_message_signatures.Stdlib.Strconv
use http_message_signatures.Stdlib.Utf8.{write_runes}
use http_message_signatures.Sfv.Types.{
  default_limits, exceeds, Item, InnerList, Dictionary, int64, token, string, bytes, item,
  inner_list,
}
use http_message_signatures.Sfv.Lexer.{
  Parser, new_parser, head_or_nul, is_nil, pass_byte, consume, skip_bytes, check_input_length,
  Result, ok,
}
use http_message_signatures.Sfv.Primitives.{
  is_token_char, is_base64_char, finish_integer, parse_integer, decode_loop, finish_string,
  consume_escape_marker, check_string_char, pass_string_byte, string_loop, parse_string,
  finish_token, parse_token, seek_colon, decode_base64, finish_byte_sequence, close_byte_sequence,
  parse_byte_sequence,
}
use http_message_signatures.Sfv.Collections.{
  parse_bare_item, parameter_value, parse_parameter, parameters_loop, parse_parameters, parse_item,
  inner_list_loop, close_inner_list, parse_inner_list, parse_value, bare_key, member_value,
  parse_dictionary_member, store, separator, dictionary_loop, parse_dictionary,
}
use http_message_signatures.Sfv.Serialize.{
  escape_before, serialize_string, write_bare_item, write_parameter_value, write_parameters,
  write_item, write_items, write_inner_list, write_entry, write_entries, serialize_dictionary,
  wrote,
}

abbrev text : Bytes
text = codes "sig1=(\"@method\" \"x\";key=\"a\\\"b\");created=161;tag=t, b, c=:TWE=:"

abbrev parsed : Dictionary
parsed = record {
  keys = codes "sig1" ∷ codes "b" ∷ codes "c" ∷ [];
  values =
      (
        codes "sig1",
        inner_list (record {
          items =
              record { value = string (codes "@method"); parameters = [] }
              ∷ record {
                value = string (codes "x");
                parameters = record { key = codes "key"; value = string (codes "a\"b") } ∷ [];
              }
              ∷ [];
          parameters =
              record { key = codes "created"; value = int64 (pos 161) }
              ∷ record { key = codes "tag"; value = token (codes "t") }
              ∷ [];
        }),
      )
      ∷ (codes "b", bare_key)
      ∷ (codes "c", item (record { value = bytes (codes "Ma"); parameters = [] }))
      ∷ [];
}

abbrev parse_fully : Bytes → Result (Dictionary × Parser)
parse_fully s = parse_dictionary (new_parser s default_limits)

parse_dictionary_runs :
    parse_fully text ≡ ok (parsed, record { seen = text; rest = []; limits = default_limits })
unfolding parse_dictionary dictionary_loop check_input_length store separator
    parse_dictionary_member member_value parse_value parse_inner_list close_inner_list
    inner_list_loop parse_item parse_parameters parameters_loop parse_parameter parameter_value
    parse_bare_item parse_token finish_token finish_integer finish_byte_sequence
    consume_escape_marker check_string_char pass_string_byte finish_string parse_string string_loop
    decode_loop parse_integer parse_byte_sequence close_byte_sequence decode_base64 seek_colon
    skip_bytes consume pass_byte head_or_nul is_nil is_token_char is_base64_char Base64.decode_std
    Base64.decode_digit Strconv.parse_int Strconv.read_digits equal lookup insert
parse_dictionary_runs = refl

serialize_dictionary_runs : serialize_dictionary parsed ≡ wrote text
unfolding serialize_dictionary write_entries write_entry write_inner_list write_items write_item
    write_parameters write_parameter_value write_bare_item serialize_string write_runes
    escape_before Strconv.format_int Strconv.digits Base64.encode Base64.encode_digit lookup equal
serialize_dictionary_runs = refl

abbrev seen : Bytes
seen = codes "a="

abbrev rest : Bytes
rest = codes ", b"

abbrev keyed : Item
keyed = record {
  value = string (codes "x");
  parameters = record { key = codes "key"; value = string (codes "a\"b") } ∷ [];
}

keyed-IsItem : IsItem default_limits keyed
unfolding is_token_char escaped escape_before
keyed-IsItem = ((refl, refl), ((((refl, refl), (refl, refl)), tt), refl))

abbrev method : Item
method = record { value = string (codes "@method"); parameters = [] }

abbrev covered : InnerList
covered = record {
  items = method ∷ keyed ∷ [];
  parameters =
      record { key = codes "created"; value = int64 (pos 161) }
      ∷ record { key = codes "tag"; value = token (codes "t") }
      ∷ [];
}

covered-IsInnerList : IsInnerList default_limits covered
unfolding is_token_char escaped escape_before
covered-IsInnerList = (
  (((refl, refl), (tt, refl)), (keyed-IsItem, tt)),
  refl,
  ((((refl, refl), omega arith), (((refl, refl), (refl, refl)), tt)), refl),
)

abbrev later_entries : Entries
later_entries =
    (codes "b", bare_key)
    ∷ (codes "c", item (record { value = bytes (codes "Ma"); parameters = [] }))
    ∷ []

abbrev entries : Entries
entries = (codes "sig1", inner_list covered) ∷ later_entries

entries-IsDictionary : IsDictionary default_limits entries
unfolding is_token_char escaped escape_before lookup equal
entries-IsDictionary = record {
  each = (
    ((refl, refl), covered-IsInnerList),
    (
      ((refl, refl), (tt, (tt, refl))),
      (((refl, refl), (((omega arith, (omega arith, tt)), refl), (tt, refl))), tt),
    ),
  );
  distinct = (refl, (refl, (refl, tt)));
  few = refl;
}

-- Text behind the dictionary stays unread.
abbrev garbage : Bytes
garbage = codes "?!"

entries_short : exceeds 65536 (length (RoundTrip.dictionary_text entries ++ garbage)) ≡ false
unfolding Dictionaries.entries_text Dictionaries.entry_text inner_list_text item_text
    Members.items_text Items.parameters_text Items.assigned_text Values.value_text serialize_string
    write_runes escape_before Strconv.format_int Strconv.digits Base64.encode
    Dictionaries.item_entry
entries_short = refl

text_short : exceeds 65536 (length (RoundTrip.dictionary_text entries)) ≡ false
unfolding Dictionaries.entries_text Dictionaries.entry_text inner_list_text item_text
    Members.items_text Items.parameters_text Items.assigned_text Values.value_text serialize_string
    write_runes escape_before Strconv.format_int Strconv.digits Base64.encode
    Dictionaries.item_entry
text_short = refl

serialize_dictionary-Reads_example :
    (text : Bytes) × (serialize_dictionary (dictionary_of entries) ≡ wrote text)
    × (parse_dictionary (new_parser text default_limits)
        ≡ ok (dictionary_of entries, at default_limits text []))
serialize_dictionary-Reads_example =
    serialize_dictionary-Reads default_limits entries entries-IsDictionary text_short

parse_dictionary-Reads_example :
    parse_dictionary (new_parser (RoundTrip.dictionary_text entries ++ garbage) default_limits)
    ≡ ok (dictionary_of entries, at default_limits (RoundTrip.dictionary_text entries) garbage)
unfolding is_token_char
parse_dictionary-Reads_example =
    parse_dictionary-Reads default_limits (codes "sig1", inner_list covered) later_entries garbage
      entries-IsDictionary refl entries_short
