-- ===== src/Httpsig/Received.antt =====
-- The entry that is read from the header fields of a message (pkg/parser/parser.go), and the text
-- that a signer would write for it (pkg/httpsig/serialize.go).
mod Components
mod Parameters
use http_message_signatures.Common.{
  ℕ, zero, suc, ◌+◌, ◌-◌, ◌*◌, ◌/◌, ◌%◌, ◌^◌, ◌≤◌, ◌<◌, ◌≡◌, refl, sym, ap, ◌∙◌, ◌≢◌, ◌↔◌, ◌⊎◌, inl,
  inr, Bool, true, false, not, ◌&&◌, ◌||◌, Option, none, some, List, [], ◌∷◌, ◌++◌, map, append-nil,
  append_assoc, arith, ltb, leb, ◌==◌, if◌then◌else◌, ==_iff, &&_left, &&_right, Bool-cases,
  Option-cases, length, take, drop, length-append, drop-append, take-append, All, all, All-append,
  Bytes, IsByte, codes, equal, equal_iff, equal_refl, lookup, insert, lookup-insert, ℤ, pos, negsuc,
  pos_part, neg_part, sub_ℕ, ◌+ℤ◌, ◌≤ℤ◌, ltb_ℤ, all-append_lem, some_inj, none-some,
}
use http_message_signatures.Errors.{
  Error, Outcome, ok, err, ◌>>=◌, ◌>>◌, error_if, wrap, parsed, written, >>=-eq-ok, exhausted,
  both_headers_empty, signature_input_empty, signature_empty, bad_signature_input, bad_signature,
  no_signature_for_label, no_signature_input_for_label, failed_signature, input_not_inner_list,
  component_not_string, signature_not_item, signature_not_bytes, invalid_component,
  parameter_not_integer, parameter_not_string, reserved_component, invalid_derived_component,
  missing_name_parameter, bs_excludes_sf, bs_excludes_key, key_requires_sf, negative_not_newer_than,
  negative_not_older_than, missing_created, created_in_future, created_too_old, missing_expires,
  signature_expired, expires_before_created, bare_newline, unknown_component_type,
  req_outside_response, no_related_request, sf_excludes_bs, key_without_sf, field_not_found,
  trailer_not_found, failed_component, not_structured, failed_to_serialize, member_not_found,
  only_for_requests, only_for_responses, unknown_derived_component, query_param_requires_name,
  message_failed, query_param_not_found, algorithm_id_empty, unsupported_algorithm,
  already_registered, algorithm_failed, base_empty, wrong_key_type, key_empty, verification_failed,
  wrong_signature_length, signature_value_empty, key_too_short, algorithm_required,
  signing_key_required, label_required, request_required, response_required, key_and_resolver,
  key_or_resolver_required, label_required_for_many, signature_not_found, no_signature_value,
  required_component_missing, verification_key_required, algorithm_required_for_verification,
  options_algorithm_mismatch, resolver_algorithm_mismatch, algorithm_not_allowed, error_if-ok,
  error_if->>=, ok_inj, wrap-ok, nil_dereference, rsa_key_too_small, signing_failed, key_nil,
  wrong_curve, component_too_long, wrong_key_length, private_key_empty, public_key_empty,
  unsupported_key_type, invalid_private_key, invalid_public_key, not_pkcs1_private,
  not_pkcs8_private, not_sec1_private, not_pkix_public, not_pkcs1_public, digest_header_empty,
  no_digests, no_required_digests, digests_empty, digest_name_empty, bad_digest_header,
  digest_not_item, digest_not_bytes, unsupported_digest, empty_digest, wrong_digest_length,
  missing_digest, digest_mismatch, failed_digest, failed_digester_for, failed_header,
  failed_digester, read_failed, no_value, parsed-ok,
}
use http_message_signatures.Sfv.Types as Sfv
use http_message_signatures.Sfv.Types.{Limits, no_limits, Value, Item, InnerList, inner_list, item}
use http_message_signatures.Sfv.Primitives.{is_token_char, is_alpha, is_digit}
use http_message_signatures.Sfv.Reads.Tokens.{IsToken}
use http_message_signatures.Sfv.Reads.Numbers.{IsSfInteger}
use http_message_signatures.Sfv.Reads.Strings.{IsString}
use http_message_signatures.Sfv.Reads.Values.{IsValue}
use http_message_signatures.Sfv.Reads.Items.{IsParameter, IsItem}
use http_message_signatures.Sfv.Reads.Members.{IsInnerList, IsMember}
use http_message_signatures.Parser.Types.{
  SignatureParams, ComponentIdentifier, Parameter, SignatureEntry, no_params,
}
use http_message_signatures.Parser.Validator.{validate_component_identifier}
use http_message_signatures.Parser.Signatures.{
  convert_bare_item, convert_parameters, type_of_name, component_of_item, covered_components,
  extract_int_param, extract_string_param, extract_param, extract_signature_params,
  parse_signature_entry_from_input, named,
}
use http_message_signatures.Base.Agreement.{IsPlain}
use http_message_signatures.Base.Injective.{IsSignable}
use http_message_signatures.Httpsig.Serialize.{
  bare_item_to_sfv, component_params_to_sfv, component_items, appended, signature_params_to_sfv,
  signature_input_list,
}
use http_message_signatures.Httpsig.Conversion.{is_value, HasValue, IsComponent}
use http_message_signatures.Httpsig.Received.Components.{
  items-no_limits, covered_components-IsComponent,
}
use http_message_signatures.Httpsig.Received.Parameters.{
  extract_signature_params-AreGiven, signature_params_to_sfv-All, no_params-AreGiven,
}

-- What is read from an inner list can be signed, if its names need no escape.
inner_list-IsSignable :
    (l : Limits) (x : InnerList) (cs : List ComponentIdentifier) (p : SignatureParams)
    → IsInnerList l x
    → covered_components 0 x.items ≡ ok cs
    → extract_signature_params no_params x.parameters ≡ ok p
    → All IsPlain cs
    → IsSignable no_limits cs p
unfolding signature_input_list
inner_list-IsSignable l x cs p (h, f, ps) e e1 plain =
    let (good, same) = covered_components-IsComponent l 0 x.items cs h e in
    let given =
      extract_signature_params-AreGiven l x.parameters no_params p ps.0 no_params-AreGiven e1 in
    record {
      plain = plain;
      components = good;
      input = (
        rw same (items-no_limits l x.items h),
        refl,
        (signature_params_to_sfv-All p given, refl),
      );
    }

pub parse_signature_entry_from_input-IsSignable :
    (l : Limits) (label : Bytes) (m : Sfv.Member) (entry : SignatureEntry)
    → IsMember l m
    → parse_signature_entry_from_input label (some m) ≡ ok entry
    → All IsPlain entry.covered_components
    → IsSignable no_limits entry.covered_components entry.signature_params
unfolding parse_signature_entry_from_input
parse_signature_entry_from_input-IsSignable l label (inner_list x) entry h e plain =
    let (cs, e1, e2) = >>=-eq-ok (covered_components 0 x.items) _ e in
    let (p, e3, e4) = >>=-eq-ok (extract_signature_params no_params x.parameters) _ e2 in
    let same = ok_inj e4 in
    let own : All IsPlain cs = rw (← same) at plain in
    rw (← same) (inner_list-IsSignable l x cs p h e1 e3 own)
parse_signature_entry_from_input-IsSignable l label (item x) entry h e plain = cc
parse_signature_entry_from_input-IsSignable l label Sfv.Member.nil entry h e plain = cc
