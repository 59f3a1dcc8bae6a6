-- ===== src/Parser/Signatures.antt =====
-- pkg/parser/parser.go
use http_message_signatures.Common.{
  ℕ, ◌+◌, Bool, true, false, ◌&&◌, Option, none, some, List, [], ◌∷◌, ◌==◌, if◌then◌else◌, Bytes,
  codes, equal, lookup, insert, ℤ,
}
use http_message_signatures.Stdlib.Strconv.{format_int}
use http_message_signatures.Sfv.Types
use http_message_signatures.Sfv.Types.{
  Limits, Value, Item, InnerList, Member, inner_list, item, Dictionary,
}
use http_message_signatures.Sfv.Lexer.{new_parser}
use http_message_signatures.Sfv.Collections.{parse_dictionary}
use http_message_signatures.Errors.{
  Error, Outcome, ok, err, ◌>>=◌, ◌>>◌, error_if, wrap, parsed, both_headers_empty,
  signature_input_empty, signature_empty, bad_signature_input, bad_signature,
  no_signature_for_label, no_signature_input_for_label, failed_signature, input_not_inner_list,
  component_not_string, signature_not_item, signature_not_bytes, invalid_component,
  parameter_not_integer, parameter_not_string,
}
use http_message_signatures.Parser.Types.{
  ComponentType, field, derived, BareItemValue, boolean, integer, string, token, byte_sequence,
  Parameter, ComponentIdentifier, SignatureParams, no_params, SignatureEntry, Signatures,
}
use http_message_signatures.Parser.Validator.{validate_component_identifier}

-- `convertBareItem`. A value that is none of the five types is printed; `fmt.Sprint(nil)` is
-- `<nil>`.
unfoldable pub convert_bare_item : Value → BareItemValue
convert_bare_item (Value.bool b) = boolean b
convert_bare_item (Value.int64 v) = integer v
convert_bare_item (Value.token s) = token s
convert_bare_item (Value.string s) = string s
convert_bare_item (Value.bytes b) = byte_sequence b
convert_bare_item (Value.int v) = string (format_int v)
convert_bare_item Value.nil = string (codes "<nil>")

unfoldable pub convert_parameters : List Types.Parameter → List Parameter
unfolding convert_bare_item
convert_parameters [] = []
convert_parameters (x ∷ params) =
    record { key = x.key; value = convert_bare_item x.value } ∷ convert_parameters params

-- A name that begins with `@` is a derived component's.
unfoldable pub type_of_name : Bytes → ComponentType
type_of_name [] = field
type_of_name (c ∷ s) = if c == b'@' then derived else field

abbrev pub named : List Types.Parameter → Value → Outcome ComponentIdentifier
named params (Value.string name) =
    ok (record { name = name; type = type_of_name name; parameters = convert_parameters params })
named params _ = err component_not_string

-- A covered component from an item of the inner list.
unfoldable pub component_of_item : Item → Outcome ComponentIdentifier
component_of_item x = named x.parameters x.value

-- The loop over the items, from position `i`.
unfoldable pub covered_components : ℕ → List Item → Outcome (List ComponentIdentifier)
covered_components i [] = ok []
covered_components i (x ∷ items) = do
  c ← component_of_item x
  wrap (invalid_component i) (validate_component_identifier c)
  more ← covered_components (i + 1) items
  ok (c ∷ more)

-- `extractIntParam` and `extractStringParam`
unfoldable pub extract_int_param : Bytes → Value → Outcome ℤ
extract_int_param k (Value.int64 v) = ok v
extract_int_param k _ = err (parameter_not_integer k)

unfoldable pub extract_string_param : Bytes → Value → Outcome Bytes
extract_string_param k (Value.string s) = ok s
extract_string_param k _ = err (parameter_not_string k)

-- The switch of `extractSignatureParams`: one parameter is stored, an unknown one passed over.
unfoldable pub extract_param : Types.Parameter → SignatureParams → Outcome SignatureParams
unfolding extract_int_param extract_string_param
extract_param x sp =
    let k = x.key in
    if equal k (codes "created")
    then (do v ← extract_int_param k x.value; ok (record sp { created = some v }))
    else if equal k (codes "expires")
    then (do v ← extract_int_param k x.value; ok (record sp { expires = some v }))
    else if equal k (codes "nonce")
    then (do v ← extract_string_param k x.value; ok (record sp { nonce = some v }))
    else if equal k (codes "alg")
    then (do v ← extract_string_param k x.value; ok (record sp { algorithm = some v }))
    else if equal k (codes "keyid")
    then (do v ← extract_string_param k x.value; ok (record sp { key_id = some v }))
    else if equal k (codes "tag")
    then (do v ← extract_string_param k x.value; ok (record sp { tag = some v }))
    else ok sp

-- The loop of `extractSignatureParams`
unfoldable pub extract_signature_params :
    SignatureParams → List Types.Parameter → Outcome SignatureParams
extract_signature_params sp [] = ok sp
extract_signature_params sp (x ∷ params) = do
  next ← extract_param x sp
  extract_signature_params next params

-- `parseSignatureEntryFromInput`
unfoldable pub parse_signature_entry_from_input : Bytes → Option Member → Outcome SignatureEntry
parse_signature_entry_from_input label (some (inner_list l)) = do
  components ← covered_components 0 l.items
  params ← extract_signature_params no_params l.parameters
  ok (record {
    label = label;
    covered_components = components;
    signature_params = params;
    signature_value = [];
  })
parse_signature_entry_from_input label _ = err input_not_inner_list

abbrev pub bytes_of_value : Value → Outcome Bytes
bytes_of_value (Value.bytes b) = ok b
bytes_of_value _ = err signature_not_bytes

-- The signature bytes in a member of the Signature header.
unfoldable pub signature_bytes : Option Member → Outcome Bytes
signature_bytes (some (item x)) = bytes_of_value x.value
signature_bytes _ = err signature_not_item

-- `parseSignatureEntry`
unfoldable pub parse_signature_entry :
    Bytes → Option Member → Option Member → Outcome SignatureEntry
parse_signature_entry label input signature = do
  entry ← parse_signature_entry_from_input label input
  b ← signature_bytes signature
  ok (record entry { signature_value = b })

-- Every label of the first list is a key of the map.
unfoldable pub check_labels :
    (Bytes → Error) → List Bytes → List (Bytes × Member) → Outcome (Unit {0})
check_labels e [] values = ok tt
check_labels e (label ∷ labels) values = elim (lookup label values) [
  | none ↦ err (e label)
  | some _ ↦ check_labels e labels values
]

-- The last loop of `ParseSignatures` and of `ParseSignatureInput`, over the way to make an entry.
unfoldable pub collect_entries :
    (Bytes → Outcome SignatureEntry) → List Bytes → Signatures → Outcome Signatures
collect_entries make [] found = ok found
collect_entries make (label ∷ labels) found = do
  entry ← wrap (failed_signature label) (make label)
  collect_entries make labels (insert label entry found)

abbrev pub is_empty : Bytes → Bool
is_empty [] = true
is_empty (_ ∷ _) = false

-- `ParseSignatures`
unfoldable pub parse_signatures : Bytes → Bytes → Limits → Outcome Signatures
parse_signatures signature_input signature limits = do
  error_if (is_empty signature_input && is_empty signature) both_headers_empty
  error_if (is_empty signature_input) signature_input_empty
  error_if (is_empty signature) signature_empty
  inputs ← parsed bad_signature_input (parse_dictionary (new_parser signature_input limits))
  values ← parsed bad_signature (parse_dictionary (new_parser signature limits))
  check_labels no_signature_for_label inputs.keys values.values
  check_labels no_signature_input_for_label values.keys inputs.values
  collect_entries
      (λ label.
        parse_signature_entry label (lookup label inputs.values) (lookup label values.values))
      inputs.keys []

-- `ParseSignatureInput`
unfoldable pub parse_signature_input : Bytes → Limits → Outcome Signatures
parse_signature_input signature_input limits = do
  error_if (is_empty signature_input) signature_input_empty
  inputs ← parsed bad_signature_input (parse_dictionary (new_parser signature_input limits))
  collect_entries (λ label. parse_signature_entry_from_input label (lookup label inputs.values))
      inputs.keys []
