-- ===== src/Base/Tests.antt =====
-- Uses of the theorems on the signature base.
use http_message_signatures.Common.{
  ◌≡◌, refl, true, none, some, [], ◌∷◌, ◌++◌, codes, equal, lookup, pos,
}
use http_message_signatures.Stdlib.Utf8.{write_runes}
use http_message_signatures.Sfv.Serialize.{
  ◌<+>◌, wrote, escape_before, serialize_string, write_inner_list,
}
use http_message_signatures.Parser.Types.{
  ComponentIdentifier, SignatureParams, no_params, derived, field, string, boolean,
}
use http_message_signatures.Base.Extract.{
  unfold_lines, extract_http_field_value, parse_params_onto, canonicalize_field_values,
  canonical_values,
}
use http_message_signatures.Base.Line.{signature_params_line}
use http_message_signatures.Base.FieldLine.{InLine, extract_http_field_value-InLine}
use http_message_signatures.Base.Message.{HttpMessage, request, wrap_request, header_values}
use http_message_signatures.Stdlib.Header.{values_of, canonical_header_key}
use http_message_signatures.Stdlib.Strings.{trim_space, join}
use http_message_signatures.Base.Agreement.{signature_params_line_lem}
use http_message_signatures.Httpsig.Serialize.{signature_input_list}

abbrev query_id : ComponentIdentifier
query_id = record {
  name = codes "@query-param";
  type = derived;
  parameters =
      record { key = codes "name"; value = string (codes "a\"b") }
      ∷ record { key = codes "req"; value = boolean true }
      ∷ [];
}

abbrev params : SignatureParams
params = record no_params { created = some (pos 1000); tag = some (codes "t") }

signature_params_line_lem_example :
    (wrote (codes "\"@signature-params\": ")
      <+> write_inner_list (signature_input_list (query_id ∷ []) params))
    ≡ wrote (signature_params_line (query_id ∷ []) params)
unfolding serialize_string write_runes escape_before
signature_params_line_lem_example =
    signature_params_line_lem (query_id ∷ []) params ((refl, (refl, (refl, tt))), tt)

-- A folded value: text, a carriage return, a newline, a space and text.
abbrev folded : HttpMessage
folded = request (
    wrap_request (record {
      method = codes "GET";
      url = none;
      host = [];
      tls = true;
      header = some ((codes "X", (codes "a" ++ (b'\r' ∷ b'\n' ∷ codes "  b")) ∷ []) ∷ []);
      trailer = [];
    }))

abbrev folded_id : ComponentIdentifier
folded_id = record { name = codes "x"; type = field; parameters = [] }

extract_http_field_value-InLine_example : InLine (codes "a b")
unfolding unfold_lines extract_http_field_value parse_params_onto canonicalize_field_values
    canonical_values wrap_request header_values values_of canonical_header_key lookup equal
    trim_space join
extract_http_field_value-InLine_example =
    extract_http_field_value-InLine folded folded_id (codes "a b") refl
