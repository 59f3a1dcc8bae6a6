-- ===== src/Parser/Tests.antt =====
-- Uses of the theorems on the parser of signatures.
use http_message_signatures.Common.{
  ◌≡◌, refl, ◌↔◌, arith, true, none, some, List, [], ◌∷◌, All, Bytes, codes, equal, lookup, insert,
  pos, ◌+ℤ◌,
}
use http_message_signatures.Errors.{ok, parsed, bad_signature_input, bad_signature}
use http_message_signatures.Sfv.Types.{Item, Value, Dictionary, default_limits}
use http_message_signatures.Stdlib.Base64
use http_message_signatures.Sfv.Lexer
use http_message_signatures.Sfv.Primitives
use http_message_signatures.Sfv.Collections
use http_message_signatures.Sfv.Lexer.{new_parser}
use http_message_signatures.Sfv.Collections.{parse_dictionary}
use http_message_signatures.Parser.Paired.{IsPaired, parse_signatures-IsPaired}
use http_message_signatures.Parser.Types.{
  SignatureParams, SignatureEntry, no_params, field, ComponentIdentifier, derived, boolean,
}
use http_message_signatures.Parser.Types as ParserTypes
use http_message_signatures.Parser.Times.{
  ParamsValidation, resolve_validation_now, validate_signature_params, validate_created_param,
  validate_expires_param, unix, add_duration,
}
use http_message_signatures.Parser.Window.{IsTimely, IsInRange}
use http_message_signatures.Parser.Timely.{validate_signature_params_iff}
use http_message_signatures.Parser.Validator.{
  validate_component_identifier, validate_parameter_combinations, validate_derived,
  validate_derived_component_parameters, contains, has_key,
}
use http_message_signatures.Parser.Signatures.{
  convert_parameters, type_of_name, component_of_item, covered_components, parse_signatures,
  check_labels, collect_entries, parse_signature_entry, parse_signature_entry_from_input,
  signature_bytes, extract_signature_params,
}
use http_message_signatures.Parser.Valid.{IsValid, covered_components-IsValid}

abbrev items : List Item
items =
    record {
      value = Value.string (codes "@query-param");
      parameters = record { key = codes "name"; value = Value.string (codes "id") } ∷ [];
    }
    ∷ record {
      value = Value.string (codes "date");
      parameters = record { key = codes "bs"; value = Value.bool true } ∷ [];
    }
    ∷ []

abbrev components : List ComponentIdentifier
components =
    record {
      name = codes "@query-param";
      type = derived;
      parameters = record { key = codes "name"; value = ParserTypes.string (codes "id") } ∷ [];
    }
    ∷ record {
      name = codes "date";
      type = ParserTypes.field;
      parameters = record { key = codes "bs"; value = boolean true } ∷ [];
    }
    ∷ []

covered_components_runs : covered_components 0 items ≡ ok components
unfolding covered_components component_of_item type_of_name convert_parameters
    validate_component_identifier validate_parameter_combinations validate_derived
    validate_derived_component_parameters contains has_key equal
covered_components_runs = refl

covered_components-IsValid_example : All IsValid components
covered_components-IsValid_example =
    covered_components-IsValid 0 items components covered_components_runs

-- An hour at most, with a minute for the clocks.
abbrev strict : ParamsValidation
strict = record {
  now = none;
  require_created = true;
  require_expires = true;
  created_not_newer_than = pos 60000000000;
  created_not_older_than = pos 3600000000000;
  reject_expired = true;
  expires_not_before_created = true;
}

abbrev recent : SignatureParams
recent = record no_params { created = some (pos 1000); expires = some (pos 1300) }

recent_runs : validate_signature_params (pos 1200000000000) recent strict ≡ ok tt
unfolding validate_signature_params validate_created_param validate_expires_param
    resolve_validation_now unix add_duration ◌+ℤ◌
recent_runs = refl

in_range : IsInRange (pos 1200000000000) recent strict
in_range = record {
  created = omega arith;
  expires = omega arith;
  now = omega arith;
  newer = omega arith;
  older = omega arith;
}

validate_signature_params_iff_example :
    (validate_signature_params (pos 1200000000000) recent strict ≡ ok tt)
    ↔ IsTimely (pos 1200000000000) recent strict
validate_signature_params_iff_example =
    validate_signature_params_iff (pos 1200000000000) recent strict in_range

-- One label with its component and its signature
abbrev one_input : Bytes
one_input = codes "a=(\"x\")"

abbrev one_signature : Bytes
one_signature = codes "a=:TQ==:"

abbrev one_entry : SignatureEntry
one_entry = record {
  label = codes "a";
  covered_components = record { name = codes "x"; type = field; parameters = [] } ∷ [];
  signature_params = no_params;
  signature_value = codes "M";
}

one_runs :
    parse_signatures one_input one_signature default_limits ≡ ok ((codes "a", one_entry) ∷ [])
unfolding parse_signatures parse_dictionary Collections.dictionary_loop Lexer.check_input_length
    Collections.store Collections.separator Collections.parse_dictionary_member
    Collections.member_value Collections.parse_value Collections.parse_inner_list
    Collections.close_inner_list Collections.inner_list_loop Collections.parse_item
    Collections.parse_parameters Collections.parameters_loop Collections.parse_bare_item
    Primitives.parse_token Primitives.finish_token Primitives.finish_byte_sequence
    Primitives.check_string_char Primitives.pass_string_byte Primitives.finish_string
    Primitives.parse_string Primitives.string_loop Primitives.parse_byte_sequence
    Primitives.close_byte_sequence Primitives.decode_base64 Primitives.seek_colon Lexer.skip_bytes
    Lexer.consume Lexer.pass_byte Lexer.head_or_nul Lexer.is_nil Primitives.is_token_char
    Primitives.is_base64_char Primitives.is_alpha Primitives.is_digit Base64.decode_std
    Base64.decode_digit equal lookup insert check_labels collect_entries parse_signature_entry
    parse_signature_entry_from_input signature_bytes covered_components component_of_item
    convert_parameters type_of_name extract_signature_params validate_component_identifier
    validate_parameter_combinations has_key
one_runs = refl

parse_signatures-IsPaired_example :
    (inputs values : Dictionary) × (parsed bad_signature_input
        (parse_dictionary (new_parser one_input default_limits))
      ≡ ok inputs)
    × (parsed bad_signature (parse_dictionary (new_parser one_signature default_limits))
        ≡ ok values)
    × ((k : Bytes) → IsPaired inputs values ((codes "a", one_entry) ∷ []) k)
parse_signatures-IsPaired_example =
    parse_signatures-IsPaired one_input one_signature default_limits ((codes "a", one_entry) ∷ [])
      one_runs
