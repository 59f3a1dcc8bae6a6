-- ===== src/Httpsig/Tests/Bases.antt =====
-- Uses of the theorems on signature bases.
use http_message_signatures.Common.{
  ◌≡◌, refl, false, none, some, [], ◌∷◌, All, Bytes, codes, equal, lookup,
}
use http_message_signatures.Errors.{ok, ok_inj}
use http_message_signatures.Stdlib.Utf8.{write_runes}
use http_message_signatures.Stdlib.Header
use http_message_signatures.Stdlib.Strings
use http_message_signatures.Stdlib.Strconv
use http_message_signatures.Sfv.Types.{default_limits}
use http_message_signatures.Sfv.Serialize.{escape_before, serialize_string}
use http_message_signatures.Base.Message.{HttpMessage, request, wrap_request}
use http_message_signatures.Base.Message
use http_message_signatures.Base.Line
use http_message_signatures.Base.Extract
use http_message_signatures.Base.Build
use http_message_signatures.Base.Build.{build}
use http_message_signatures.Base.Binding.{DerivedInLine, HasSameValue}
use http_message_signatures.Base.FieldLine.{InLine}
use http_message_signatures.Base.Injective.{IsSignable, build-injective}
use http_message_signatures.Httpsig.Tests.{
  net, message, components, params, sig_base, build_runs, components-IsComponent, readable,
}

-- A request with another field, which the signature does not cover.
abbrev other_message : HttpMessage
other_message = request (
    wrap_request (record {
      method = codes "GET";
      url = none;
      host = codes "example.org";
      tls = false;
      header = some ((codes "Date", codes "today" ∷ []) ∷ (codes "X", codes "1" ∷ []) ∷ []);
      trailer = [];
    }))

other_runs : build net other_message components params ≡ ok sig_base
unfolding build Build.component_lines Build.extract_component_value Build.has_req_parameter
    Extract.extract_http_field_value Extract.extract_derived_component_value
    Extract.canonicalize_field_values Extract.canonical_values Extract.unfold_lines
    Line.component_line Line.component_identifier Line.component_parameters
    Line.signature_params_line Line.component_identifiers Line.signature_params_text
    serialize_string write_runes escape_before Strconv.format_int Strconv.digits wrap_request
    Message.header_values Header.values_of Header.canonical_header_key lookup equal
    Strings.trim_space Strings.join Extract.extract_method Extract.parse_params_onto
other_runs = refl

signable : IsSignable default_limits components params
unfolding serialize_string write_runes escape_before
signable = record {
  plain = ((refl, tt), ((refl, tt), tt));
  components = components-IsComponent;
  input = readable.input.each.0.1;
}

method_line : (v : Bytes) → ok (codes "GET") ≡ ok v → InLine v
method_line v h = rw (← ok_inj h) refl

pub message_lines : All (DerivedInLine net message) components
unfolding Build.extract_component_value Build.has_req_parameter
    Extract.extract_derived_component_value wrap_request Extract.extract_method equal
message_lines = ((λ e v h. method_line v h), ((λ e. cc), tt))

other_lines : All (DerivedInLine net other_message) components
unfolding Build.extract_component_value Build.has_req_parameter
    Extract.extract_derived_component_value wrap_request Extract.extract_method equal
other_lines = ((λ e v h. method_line v h), ((λ e. cc), tt))

build-injective_example :
    (components ≡ components)
    × (params ≡ params)
    × All (HasSameValue net message other_message) components
build-injective_example =
    build-injective net default_limits message other_message components components params params
      sig_base signable signable message_lines other_lines build_runs other_runs
