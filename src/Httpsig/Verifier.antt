-- ===== src/Httpsig/Verifier.antt =====
-- pkg/httpsig/verifier.go: the verification of a message.
use http_message_signatures.Common.{Option, none, some, [], ◌∷◌, Bytes, codes, lookup, ℤ}
use http_message_signatures.Errors.{
  Error, Outcome, ok, err, ◌>>=◌, ◌>>◌, error_if, parsed, signature_input_empty, signature_empty,
  bad_signature, request_required, response_required, label_required_for_many, signature_not_found,
  no_signature_value,
}
use http_message_signatures.Stdlib.Header
use http_message_signatures.Sfv.Lexer.{new_parser}
use http_message_signatures.Sfv.Collections.{parse_dictionary}
use http_message_signatures.Parser.Types.{SignatureEntry, Signatures}
use http_message_signatures.Parser.Times.{validate_signature_params}
use http_message_signatures.Parser.Signatures.{parse_signature_input, signature_bytes}
use http_message_signatures.Base.Message.{
  fields, UrlMethods, Request, Response, HttpMessage, request, wrap_request, wrap_response,
}
use http_message_signatures.Base.Build.{build}
use http_message_signatures.Signing.{Registry, get_algorithm}
use http_message_signatures.Httpsig.Serialize.{is_empty}
use http_message_signatures.Httpsig.Equality.{validate_required_components}
use http_message_signatures.Httpsig.Policy.{Verifier, VerifyResult, resolve_key_and_algorithm}

-- The label to verify: the one that is asked for, or that of the only signature.
unfoldable pub choose_label : Bytes → Signatures → Outcome Bytes
choose_label [] ((label, entry) ∷ []) = ok label
choose_label [] signatures = err label_required_for_many
choose_label (c ∷ s) signatures = ok (c ∷ s)

abbrev pub found : {A : Type 0} → Error → Option A → Outcome A
found e none = err e
found e (some a) = ok a

-- The lookup of the entry and of its signature value, in front of every check.
unfoldable pub read_entry :
    {Key : Type 0} → Verifier Key → Bytes → Bytes → Outcome (Bytes × SignatureEntry)
read_entry v signature_input signature = do
  error_if (is_empty signature_input) signature_input_empty
  error_if (is_empty signature) signature_empty
  signatures ← parse_signature_input signature_input v.limits
  values ← parsed bad_signature (parse_dictionary (new_parser signature v.limits))
  label ← choose_label v.label signatures
  entry ← found (signature_not_found label) (lookup label signatures)
  value ← found (no_signature_value label) (lookup label values.values)
  sig_bytes ← signature_bytes (some value)
  ok (label, record entry { signature_value = sig_bytes })

module _ {Key : Type 0} (net : UrlMethods) (registry : Registry Key) (clock : ℤ)
    (v : Verifier Key) where
  -- The checks of an entry, and the verification of its signature over the rebuilt base.
  unfoldable pub verify_entry : HttpMessage → Bytes → SignatureEntry → Outcome VerifyResult
  verify_entry msg label entry = do
    validate_required_components v.required_components entry.covered_components
    validate_signature_params clock entry.signature_params v.params_validation
    (key, alg_id) ← resolve_key_and_algorithm v label entry.signature_params
    alg ← get_algorithm Key registry alg_id
    sig_base ← build net msg entry.covered_components entry.signature_params
    alg.verify sig_base entry.signature_value key
    ok (record { label = label; entry = entry; signature_base = sig_base })

  -- `verifyMessage`
  unfoldable pub verify_message : HttpMessage → Header.Header → Outcome VerifyResult
  verify_message msg headers = do
    (label, entry) ←
        read_entry v (Header.get headers (codes "Signature-Input"))
          (Header.get headers (codes "Signature"))
    verify_entry msg label entry

  -- `VerifyRequest` and `VerifyResponse`
  unfoldable pub verify_request : Option Request → Outcome VerifyResult
  verify_request none = err request_required
  verify_request (some req) = verify_message (request (wrap_request req)) (fields req.header)

  unfoldable pub verify_response : Option Response → Option Request → Outcome VerifyResult
  verify_response none related = err response_required
  verify_response (some resp) related =
      verify_message (wrap_response resp related) (fields resp.header)
