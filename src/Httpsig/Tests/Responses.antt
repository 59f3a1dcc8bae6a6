-- ===== src/Httpsig/Tests/Responses.antt =====
-- Uses of the theorem on a response from the options of its signer to the verifier: a response with
-- a nil map of header fields, signed over its status.
use http_message_signatures.Common.{
  ◌≡◌, refl, inl, none, some, [], ◌∷◌, ◌++◌, arith, All, Bytes, codes, equal, lookup, pos, ◌+ℤ◌,
}
use http_message_signatures.Errors.{ok}
use http_message_signatures.Stdlib.Strconv
use http_message_signatures.Stdlib.Header
use http_message_signatures.Stdlib.Utf8.{write_runes}
use http_message_signatures.Sfv.Types.{default_limits}
use http_message_signatures.Sfv.Primitives.{is_token_char}
use http_message_signatures.Sfv.Serialize as Sfv
use http_message_signatures.Sfv.Serialize.{escape_before, serialize_dictionary, serialize_string}
use http_message_signatures.Sfv.Reads.Strings.{escaped}
use http_message_signatures.Parser.Types.{ComponentIdentifier, derived}
use http_message_signatures.Parser.Times
use http_message_signatures.Parser.Times.{validate_signature_params}
use http_message_signatures.Parser.Validator
use http_message_signatures.Parser.Validator.{validate_component_identifier, contains, has_key}
use http_message_signatures.Parser.Signatures.{type_of_name}
use http_message_signatures.Base.Message.{Response, wrap_response}
use http_message_signatures.Base.Line
use http_message_signatures.Base.Extract
use http_message_signatures.Base.Build
use http_message_signatures.Base.Build.{build}
use http_message_signatures.Signing.{get_algorithm}
use http_message_signatures.Signing.Hmac
use http_message_signatures.Signing.Crypto.{Key, toy}
use http_message_signatures.Httpsig.Serialize
use http_message_signatures.Httpsig.Serialize.{
  serialize_signature_input, component_items, signature_params_to_sfv,
}
use http_message_signatures.Httpsig.Equality
use http_message_signatures.Httpsig.Equality.{component_equal, validate_required_components}
use http_message_signatures.Httpsig.Policy
use http_message_signatures.Httpsig.Policy.{Verifier}
use http_message_signatures.Httpsig.Conversion.{IsComponent}
use http_message_signatures.Httpsig.Signer.{
  Signer, SignatureHeaders, is_zero, created_param, signer_params, new_signer, sign_response,
}
use http_message_signatures.Httpsig.Verifier.{verify_response}
use http_message_signatures.Httpsig.Accepts.{IsReadable, Accepts}
use http_message_signatures.Httpsig.Attached.{IsOther, sent_response}
use http_message_signatures.Httpsig.Sent.{verified, verify_response-sign_response}
use http_message_signatures.Httpsig.Tests.{
  net, registry, params, signature, signature_text, hmac_sha256, signer, verifier, clock, test_key,
  signature_runs, readable,
}
use http_message_signatures.Httpsig.Tests.Sent.{made_at, options}

abbrev empty : Response
empty = record { status_code = pos 204; header = none; trailer = [] }

abbrev status_component : ComponentIdentifier
status_component = record { name = codes "@status"; type = derived; parameters = [] }

abbrev status_input : Bytes
status_input = codes "sig1=(\"@status\");created=1000;alg=\"hmac-sha256\""

abbrev status_signer : Signer (Key toy)
status_signer = record signer { components = status_component ∷ []; sig_input = status_input }

abbrev status_verifier : Verifier (Key toy)
status_verifier = record verifier { required_components = status_component ∷ [] }

abbrev status_base : Bytes
status_base =
    codes "\"@status\": 204"
    ++ (b'\n' ∷ codes "\"@signature-params\": (\"@status\");created=1000;alg=\"hmac-sha256\"")

status_input_runs :
    serialize_signature_input (codes "sig1") (status_component ∷ []) params ≡ ok status_input
unfolding serialize_signature_input Serialize.signature_input_list component_items
    signature_params_to_sfv Serialize.component_params_to_sfv serialize_dictionary Sfv.write_entries
    Sfv.write_entry Sfv.write_inner_list Sfv.write_items Sfv.write_item Sfv.write_parameters
    Sfv.write_parameter_value Sfv.write_bare_item serialize_string write_runes escape_before
    Strconv.format_int Strconv.digits lookup equal
status_input_runs = refl

status_build_runs :
    build net (wrap_response empty none) (status_component ∷ []) params ≡ ok status_base
unfolding build Build.component_lines Build.extract_component_value Build.has_req_parameter
    Extract.extract_derived_component_value Line.component_line Line.component_identifier
    Line.component_parameters Line.signature_params_line Line.component_identifiers
    Line.signature_params_text serialize_string write_runes escape_before Strconv.format_int
    Strconv.digits wrap_response lookup equal Extract.extract_status
status_build_runs = refl

status_options_run :
    new_signer registry made_at (record options { components = status_component ∷ [] })
    ≡ ok status_signer
unfolding new_signer get_algorithm signer_params created_param is_zero lookup equal
status_options_run = rw status_input_runs refl

status-IsComponent : All IsComponent (status_component ∷ [])
unfolding type_of_name validate_component_identifier Validator.validate_parameter_combinations
    Validator.validate_derived Validator.validate_derived_component_parameters contains has_key
    equal
status-IsComponent = (record { typed = refl; valid = refl; valued = tt }, tt)

status-IsReadable : IsReadable default_limits status_signer signature signature_text
unfolding is_token_char escaped escape_before lookup component_items Serialize.signature_input_list
    Serialize.component_params_to_sfv signature_params_to_sfv
status-IsReadable = record {
  components = status-IsComponent;
  input = record {
    each = (
      (
        (refl, refl),
        (
          (((refl, refl), (tt, refl)), tt),
          refl,
          ((((refl, refl), omega arith), (((refl, refl), (refl, refl)), tt)), refl),
        ),
      ),
      tt,
    );
    distinct = (refl, tt);
    few = refl;
  };
  input_short = refl;
  value = readable.value;
  value_short = refl;
}

status_required :
    validate_required_components (status_component ∷ []) (status_component ∷ []) ≡ ok tt
unfolding validate_required_components Equality.component_in_list component_equal
    Equality.parameters_equal equal
status_required = refl

status-Accepts : Accepts registry clock status_verifier status_signer status_base signature
unfolding validate_signature_params Times.validate_created_param Times.validate_expires_param
    Times.resolve_validation_now Times.unix Times.add_duration ◌+ℤ◌ get_algorithm Hmac.verify lookup
    equal Policy.resolve_key_and_algorithm Policy.initial_algorithm Policy.resolve_key
    Policy.merge_resolved_algorithm contains
status-Accepts = record {
  key = test_key;
  alg_id = codes "hmac-sha256";
  alg = hmac_sha256;
  label = inl refl;
  covered = status_required;
  timely = refl;
  resolved = refl;
  registered = refl;
  authentic = refl;
}

status-IsOther : All IsOther (status_component ∷ [])
unfolding Header.canonical_header_key equal
status-IsOther = ((refl, refl), tt)

status_sign_runs : Hmac.sign toy status_base test_key ≡ ok signature
unfolding Hmac.sign
status_sign_runs = refl

abbrev status_headers : SignatureHeaders
status_headers = record { signature_input = status_input; signature = signature_text }

verify_response-sign_response_example :
    (sign_response net status_signer (some empty) none
      ≡ ok (status_headers, sent_response status_headers empty))
    × (verify_response net registry clock status_verifier
          (some (sent_response status_headers empty))
          none
        ≡ ok (verified status_signer signature status_base))
verify_response-sign_response_example =
    verify_response-sign_response net registry made_at clock
      (record options { components = status_component ∷ [] }) status_signer status_verifier
      status_base signature signature_text empty none status_options_run status-IsOther
      status_build_runs status_sign_runs signature_runs status-IsReadable status-Accepts
