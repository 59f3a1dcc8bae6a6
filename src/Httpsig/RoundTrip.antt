-- ===== src/Httpsig/RoundTrip.antt =====
-- The verifier of pkg/httpsig reads what the signer wrote.
use http_message_signatures.Common.{
  ◌≡◌, refl, sym, ap, ◌∙◌, false, List, [], ◌∷◌, ◌++◌, append-nil, append_assoc, length, All, Bytes,
  equal_refl, lookup, insert,
}
use http_message_signatures.Errors.{
  Error, ok, parsed, written, bad_signature_input, label_required, error_if->>=, ok_inj,
}
use http_message_signatures.Sfv.Types.{Limits, Value, item, inner_list, exceeds, Member}
use http_message_signatures.Sfv.Lexer.{new_parser, ParseError}
use http_message_signatures.Sfv.Collections.{parse_dictionary}
use http_message_signatures.Sfv.Serialize.{
  serialize_dictionary, write_entries, write_entry, write_item, write_bare_item, write_parameters,
  is_bare,
}
use http_message_signatures.Sfv.Reads.Dictionaries.{Entries, dictionary_of, keys_of, entries_text}
use http_message_signatures.Sfv.Reads.Dictionaries.RoundTrip.{
  IsDictionary, dictionary_text, serialize_dictionary-IsDictionary, parse_dictionary-Reads,
}
use http_message_signatures.Parser.Types.{ComponentIdentifier, SignatureParams}
use http_message_signatures.Parser.Signatures.{
  parse_signature_input, parse_signature_entry_from_input, collect_entries,
}
use http_message_signatures.Httpsig.Serialize.{
  serialize_signature_input, serialize_signature, signature_input_list, is_empty,
}
use http_message_signatures.Httpsig.Conversion.{
  IsComponent, covered_components-component_items, extract_signature_params-signature_params_to_sfv,
}

-- The one member of each header field.
abbrev pub input_entries : Bytes → List ComponentIdentifier → SignatureParams → Entries
input_entries label cs params = (label, inner_list (signature_input_list cs params)) ∷ []

abbrev pub signature_entries : Bytes → Bytes → Entries
signature_entries label signature =
    (label, item (record { value = Value.bytes signature; parameters = [] })) ∷ []

-- For a label that is not empty, the text that is written directly for a signature is what the
-- serializer of dictionaries writes for the one byte sequence under the label.
pub serialize_signature_lem :
    (label signature : Bytes)
    → is_empty label ≡ false
    → serialize_signature label signature
      ≡ written (serialize_dictionary (dictionary_of (signature_entries label signature)))
unfolding serialize_signature serialize_dictionary write_entries write_entry write_item
    write_bare_item write_parameters is_bare keys_of lookup
serialize_signature_lem label signature h =
    rw (h, equal_refl label) (simp (append_assoc, append-nil))

-- Under the limits, one member that `SerializeDictionary` writes is read back.
pub one_text :
    (limits : Limits) (k : Bytes) (v : Member) (text : Bytes)
    → IsDictionary limits ((k, v) ∷ [])
    → written (serialize_dictionary (dictionary_of ((k, v) ∷ []))) ≡ ok text
    → dictionary_text ((k, v) ∷ []) ≡ text
one_text limits k v text h w =
    ok_inj (ap written (sym (serialize_dictionary-IsDictionary limits ((k, v) ∷ []) h)) ∙ w)

pub one_text_given :
    (k : Bytes) (v : Member) → is_empty k ≡ false → is_empty (dictionary_text ((k, v) ∷ [])) ≡ false
unfolding entries_text
one_text_given [] v h = cc
one_text_given (c ∷ k) v h = refl

pub parse_dictionary_one :
    (limits : Limits) (k : Bytes) (v : Member) (text : Bytes) (f : ParseError → Error)
    → IsDictionary limits ((k, v) ∷ [])
    → dictionary_text ((k, v) ∷ []) ≡ text
    → exceeds limits.max_input_length (length text) ≡ false
    → parsed f (parse_dictionary (new_parser text limits))
      ≡ ok (record { keys = k ∷ []; values = (k, v) ∷ [] })
unfolding keys_of
parse_dictionary_one limits k v text f h same short =
    let whole : dictionary_text ((k, v) ∷ []) ++ [] ≡ text = append-nil _ ∙ same in
    let short' = rw (sym whole) at short in
    let read = rw whole at (parse_dictionary-Reads limits (k, v) [] [] h refl short') in
    rw read refl

-- For components that the parser accepts, and a text within the limits, parsing a Signature-Input
-- that was serialized returns the components and the parameters under their label.
pub parse_signature_input-serialize_signature_input :
    (limits : Limits) (label text : Bytes) (cs : List ComponentIdentifier)
    (params : SignatureParams)
    → All IsComponent cs
    → IsDictionary limits (input_entries label cs params)
    → exceeds limits.max_input_length (length text) ≡ false
    → serialize_signature_input label cs params ≡ ok text
    → parse_signature_input text limits
      ≡ ok (
          (
            label,
            record {
              label = label;
              covered_components = cs;
              signature_params = params;
              signature_value = [];
            },
          )
          ∷ [])
unfolding parse_signature_input serialize_signature_input keys_of collect_entries
    parse_signature_entry_from_input insert lookup signature_input_list
parse_signature_input-serialize_signature_input limits label text cs params good h short w =
    let v = inner_list (signature_input_list cs params) in
    let (given, w') = error_if->>= (is_empty label) label_required _ w in
    let same = one_text limits label v text h w' in
    let read = parse_dictionary_one limits label v text bad_signature_input h same short in
    let some_text : is_empty text ≡ false = rw same at (one_text_given label v given) in
    let components = covered_components-component_items 0 cs good in
    let again = extract_signature_params-signature_params_to_sfv params in
    rw (some_text, read, equal_refl label, components, again) refl
