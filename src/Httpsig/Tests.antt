-- ===== src/Httpsig/Tests.antt =====
-- Uses of the theorems on the signer and the verifier: a request signed and verified with HMAC,
-- over a MAC of 32 bytes that is the same for every input.
mod Bases
mod Signed
mod Sent
mod Responses
use http_message_signatures.Common.{
  ◌≡◌, refl, ◌↔◌, inl, true, false, none, some, List, [], ◌∷◌, ◌++◌, arith, ltb, &&_right, All, all,
  Bytes, IsByte, codes, equal, lookup, ℤ, pos, ◌+ℤ◌,
}
use mathlib.Core.List.{Memᴰ}
use http_message_signatures.Errors.{ok, written}
use http_message_signatures.Stdlib.Base64
use http_message_signatures.Stdlib.Strconv
use http_message_signatures.Stdlib.Header
use http_message_signatures.Stdlib.Utf8.{write_runes}
use http_message_signatures.Stdlib.Strings
use http_message_signatures.Sfv.Types.{default_limits}
use http_message_signatures.Sfv.Primitives.{is_token_char}
use http_message_signatures.Sfv.Serialize as Sfv
use http_message_signatures.Sfv.Serialize.{escape_before, serialize_dictionary, serialize_string}
use http_message_signatures.Sfv.Reads.Strings.{escaped}
use http_message_signatures.Sfv.Reads.Dictionaries.{dictionary_of}
use http_message_signatures.Parser.Types.{
  ComponentIdentifier, SignatureParams, no_params, field, derived,
}
use http_message_signatures.Parser.Times
use http_message_signatures.Parser.Times.{ParamsValidation, validate_signature_params}
use http_message_signatures.Parser.Validator
use http_message_signatures.Parser.Validator.{validate_component_identifier, contains, has_key}
use http_message_signatures.Parser.Signatures.{
  type_of_name, covered_components, extract_signature_params, parse_signature_input,
}
use http_message_signatures.Base.Message.{
  Url, UrlMethods, Request, HttpMessage, request, wrap_request,
}
use http_message_signatures.Base.Message
use http_message_signatures.Base.Line
use http_message_signatures.Base.Extract
use http_message_signatures.Base.Build
use http_message_signatures.Base.Build.{build}
use http_message_signatures.Signing.{Algorithm, Registry, get_algorithm}
use http_message_signatures.Signing.Hmac
use http_message_signatures.Signing.Crypto.{Key, secret, toy}
use http_message_signatures.Httpsig.Serialize
use http_message_signatures.Httpsig.Serialize.{
  serialize_signature_input, serialize_signature, is_empty, component_items,
  signature_params_to_sfv,
}
use http_message_signatures.Httpsig.Equality
use http_message_signatures.Httpsig.Equality.{component_equal, validate_required_components}
use http_message_signatures.Httpsig.Required.{component_equal_iff, validate_required_components_iff}
use http_message_signatures.Httpsig.Policy
use http_message_signatures.Httpsig.Policy.{Verifier, VerifyResult, resolve_key_and_algorithm}
use http_message_signatures.Httpsig.Resolved.{IsResolved, resolve_key_and_algorithm_iff}
use http_message_signatures.Httpsig.Conversion.{
  IsComponent, covered_components-component_items, extract_signature_params-signature_params_to_sfv,
}
use http_message_signatures.Httpsig.RoundTrip.{
  signature_entries, serialize_signature_lem, parse_signature_input-serialize_signature_input,
}
use http_message_signatures.Httpsig.Signer.{Signer, SignatureHeaders, sign_message, attach}
use http_message_signatures.Httpsig.Accepts.{
  IsReadable, Accepts, signed_entry, verify_message-sign_message,
}
use http_message_signatures.Errors.Returns.{Returns}
use http_message_signatures.Parser.Signatures.{parse_signatures}
use http_message_signatures.Base.Extract.{extract_http_field_value}
use http_message_signatures.Httpsig.Returns.{readers-Returns}
use http_message_signatures.Httpsig.Carried.{IsCarried}
use http_message_signatures.Httpsig.Sound.{IsVerified, verify_message_iff}
use http_message_signatures.Httpsig.Verifier.{read_entry, verify_message}

abbrev hmac_sha256 : Algorithm (Key toy)
hmac_sha256 = Hmac.hmac_sha256 toy

abbrev registry : Registry (Key toy)
registry = (codes "hmac-sha256", hmac_sha256) ∷ []

abbrev net : UrlMethods
net = record { to_string = λ u. u.path; escaped_path = λ u. u.path; query = λ u name. [] }

abbrev message : HttpMessage
message = request (
    wrap_request (record {
      method = codes "GET";
      url = none;
      host = codes "example.com";
      tls = true;
      header = some ((codes "Date", codes " today " ∷ []) ∷ []);
      trailer = [];
    }))

abbrev method_component : ComponentIdentifier
method_component = record { name = codes "@method"; type = derived; parameters = [] }

abbrev components : List ComponentIdentifier
components = method_component ∷ record { name = codes "date"; type = field; parameters = [] } ∷ []

abbrev params : SignatureParams
params = record no_params { created = some (pos 1000); algorithm = some (codes "hmac-sha256") }

abbrev input_text : Bytes
input_text = codes "sig1=(\"@method\" \"date\");created=1000;alg=\"hmac-sha256\""

abbrev test_key : Key toy
test_key = secret (codes "0123456789abcdef")

abbrev signer : Signer (Key toy)
signer = record {
  label = codes "sig1";
  components = components;
  params = params;
  alg = hmac_sha256;
  key = test_key;
  sig_input = input_text;
}

abbrev verifier : Verifier (Key toy)
verifier = record {
  label = [];
  required_components = method_component ∷ [];
  allowed_algorithms = codes "hmac-sha256" ∷ [];
  key = some test_key;
  algorithm = [];
  key_resolver = none;
  params_validation = record {
    now = none;
    require_created = true;
    require_expires = false;
    created_not_newer_than = pos 0;
    created_not_older_than = pos 3600000000000;
    reject_expired = true;
    expires_not_before_created = false;
  };
  limits = default_limits;
}

abbrev clock : ℤ
clock = pos 1200000000000

abbrev sig_base : Bytes
sig_base =
    codes "\"@method\": GET"
    ++ (b'\n'
        ∷ (codes "\"date\": today"
            ++ (b'\n'
                ∷ codes
                    "\"@signature-params\": (\"@method\" \"date\");created=1000;alg=\"hmac-sha256\"")))

abbrev signature : Bytes
signature = codes "0123456789abcdef0123456789abcdef"

abbrev signature_text : Bytes
signature_text = codes "sig1=:MDEyMzQ1Njc4OWFiY2RlZjAxMjM0NTY3ODlhYmNkZWY=:"

input_runs : serialize_signature_input (codes "sig1") components params ≡ ok input_text
unfolding serialize_signature_input Serialize.signature_input_list component_items
    signature_params_to_sfv Serialize.component_params_to_sfv serialize_dictionary Sfv.write_entries
    Sfv.write_entry Sfv.write_inner_list Sfv.write_items Sfv.write_item Sfv.write_parameters
    Sfv.write_parameter_value Sfv.write_bare_item serialize_string write_runes escape_before
    Strconv.format_int Strconv.digits lookup equal
input_runs = refl

signature_runs : serialize_signature (codes "sig1") signature ≡ ok signature_text
unfolding serialize_signature Base64.encode Base64.encode_digit
signature_runs = refl

build_runs : build net message components params ≡ ok sig_base
unfolding build Build.component_lines Build.extract_component_value Build.has_req_parameter
    Extract.extract_http_field_value Extract.extract_derived_component_value
    Extract.canonicalize_field_values Extract.canonical_values Extract.unfold_lines
    Line.component_line Line.component_identifier Line.component_parameters
    Line.signature_params_line Line.component_identifiers Line.signature_params_text
    serialize_string write_runes escape_before Strconv.format_int Strconv.digits wrap_request
    Message.header_values Header.values_of Header.canonical_header_key lookup equal
    Strings.trim_space Strings.join Extract.extract_method Extract.parse_params_onto
build_runs = refl

components-IsComponent : All IsComponent components
unfolding type_of_name validate_component_identifier Validator.validate_parameter_combinations
    Validator.validate_derived Validator.validate_derived_component_parameters contains has_key
    equal
components-IsComponent = (
  record { typed = refl; valid = refl; valued = tt },
  (record { typed = refl; valid = refl; valued = tt }, tt),
)

are_bytes : (s : Bytes) → all (λ b. ltb b 256) s ≡ true → All IsByte s
are_bytes [] h = tt
are_bytes (c ∷ s) h = (ground arith, are_bytes s (&&_right _ _ h))

readable : IsReadable default_limits signer signature signature_text
unfolding is_token_char escaped escape_before lookup component_items Serialize.signature_input_list
    Serialize.component_params_to_sfv signature_params_to_sfv
readable = record {
  components = components-IsComponent;
  input = record {
    each = (
      (
        (refl, refl),
        (
          (((refl, refl), (tt, refl)), (((refl, refl), (tt, refl)), tt)),
          refl,
          ((((refl, refl), omega arith), (((refl, refl), (refl, refl)), tt)), refl),
        ),
      ),
      tt,
    );
    distinct = (refl, tt);
    few = refl;
  };
  input_short = refl;
  value = record {
    each = (((refl, refl), (((are_bytes signature refl, refl), (tt, refl)))), tt);
    distinct = (refl, tt);
    few = refl;
  };
  value_short = refl;
}

resolved_runs :
    resolve_key_and_algorithm verifier (codes "sig1") params ≡ ok (test_key, codes "hmac-sha256")
unfolding resolve_key_and_algorithm Policy.initial_algorithm Policy.resolve_key
    Policy.merge_resolved_algorithm contains equal
resolved_runs = refl

required_runs : validate_required_components (method_component ∷ []) components ≡ ok tt
unfolding validate_required_components Equality.component_in_list component_equal
    Equality.parameters_equal equal
required_runs = refl

accepts : Accepts registry clock verifier signer sig_base signature
unfolding validate_signature_params Times.validate_created_param Times.validate_expires_param
    Times.resolve_validation_now Times.unix Times.add_duration ◌+ℤ◌ get_algorithm Hmac.verify lookup
    equal
accepts = record {
  key = test_key;
  alg_id = codes "hmac-sha256";
  alg = hmac_sha256;
  label = inl refl;
  covered = required_runs;
  timely = refl;
  resolved = resolved_runs;
  registered = refl;
  authentic = refl;
}

sign_runs : Hmac.sign toy sig_base test_key ≡ ok signature
unfolding Hmac.sign
sign_runs = refl

abbrev result : VerifyResult
result = record {
  label = codes "sig1";
  entry = signed_entry signer signature;
  signature_base = sig_base;
}

abbrev signed : SignatureHeaders
signed = record { signature_input = input_text; signature = signature_text }

accepted : verify_message net registry clock verifier message (attach signed []) ≡ ok result
accepted =
    (verify_message-sign_message net registry clock signer verifier message [] sig_base signature
      signature_text input_runs build_runs sign_runs signature_runs readable accepts).1

verify_message_iff_example :
    (verify_message net registry clock verifier message (attach signed []) ≡ ok result) ↔ (
      (IsCarried verifier
        (Header.get (attach signed []) (codes "Signature-Input"))
        (Header.get (attach signed []) (codes "Signature"))
        (codes "sig1")
        (signed_entry signer signature))
      × IsVerified net registry clock verifier message result)
verify_message_iff_example =
    verify_message_iff net registry clock verifier message (attach signed []) result

parse_signature_input-serialize_signature_input_example :
    parse_signature_input input_text default_limits
    ≡ ok ((codes "sig1", signed_entry signer []) ∷ [])
parse_signature_input-serialize_signature_input_example =
    parse_signature_input-serialize_signature_input default_limits (codes "sig1") input_text
      components params components-IsComponent (readable.input) refl input_runs

serialize_signature_lem_example :
    serialize_signature (codes "sig1") signature
    ≡ written (serialize_dictionary (dictionary_of (signature_entries (codes "sig1") signature)))
serialize_signature_lem_example = serialize_signature_lem (codes "sig1") signature refl

resolve_key_and_algorithm_iff_example :
    (resolve_key_and_algorithm verifier (codes "sig1") params ≡ ok (test_key, codes "hmac-sha256"))
    ↔ IsResolved verifier (codes "sig1") params test_key (codes "hmac-sha256")
resolve_key_and_algorithm_iff_example =
    resolve_key_and_algorithm_iff verifier (codes "sig1") params test_key (codes "hmac-sha256")

validate_required_components_iff_example :
    (validate_required_components (method_component ∷ []) components ≡ ok tt)
    ↔ All (λ c. Memᴰ c components) (method_component ∷ [])
validate_required_components_iff_example =
    validate_required_components_iff (method_component ∷ []) components

component_equal_iff_example :
    (component_equal method_component method_component ≡ true)
    ↔ (method_component ≡ method_component)
component_equal_iff_example = component_equal_iff method_component method_component

covered_components-component_items_example :
    covered_components 0 (component_items components) ≡ ok components
covered_components-component_items_example =
    covered_components-component_items 0 components components-IsComponent

readers-Returns_example :
    Returns (read_entry verifier input_text signature_text)
    × Returns (parse_signatures input_text signature_text default_limits)
    × Returns (parse_signature_input input_text default_limits)
    × Returns (extract_http_field_value message method_component)
readers-Returns_example =
    readers-Returns verifier input_text signature_text default_limits message method_component
