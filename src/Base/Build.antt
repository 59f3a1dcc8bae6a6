-- ===== src/Base/Build.antt =====
-- pkg/base/build.go, with `extractComponentValue` and the `req` parameter (extract.go).
use http_message_signatures.Common.{
  ◌≡◌, refl, inl, inr, Bool, false, none, some, List, [], ◌∷◌, ◌++◌, if◌then◌else◌, Bool-cases,
  Bytes, codes, equal,
}
use http_message_signatures.Errors.{
  Outcome, ok, err, ◌>>=◌, wrap, unknown_component_type, req_outside_response, no_related_request,
  failed_component,
}
use http_message_signatures.Parser.Types.{
  ComponentType, field, derived, unknown, BareItemValue, boolean, Parameter, ComponentIdentifier,
  SignatureParams,
}
use http_message_signatures.Base.Message.{UrlMethods, HttpMessage, request, response}
use http_message_signatures.Base.Extract.{extract_http_field_value, extract_derived_component_value}
use http_message_signatures.Base.Line.{component_line, signature_params_line}

abbrev is_true : BareItemValue → Bool
is_true (boolean b) = b
is_true _ = false

abbrev req : Bytes
req = codes "req"

-- `hasReqParameter`: the first `req` decides.
unfoldable pub has_req_parameter : List Parameter → Bool
has_req_parameter [] = false
has_req_parameter (x ∷ params) =
    if equal x.key req then is_true x.value else has_req_parameter params

-- The loop of `extractFromRelatedRequest`
unfoldable pub without_req : List Parameter → List Parameter
without_req [] = []
without_req (x ∷ params) = if equal x.key req then without_req params else x ∷ without_req params

module _ (net : UrlMethods) where
  abbrev pub extract_by_type : ComponentType → HttpMessage → ComponentIdentifier → Outcome Bytes
  extract_by_type field msg c = extract_http_field_value msg c
  extract_by_type derived msg c = extract_derived_component_value net msg c
  extract_by_type (unknown n) msg c = err unknown_component_type

  -- `extractFromRelatedRequest`. The call that it makes of `extractComponentValue` finds no `req`
  -- parameter any more, and goes on by the type.
  unfoldable pub extract_from_related_request : HttpMessage → ComponentIdentifier → Outcome Bytes
  extract_from_related_request (request w) c = err req_outside_response
  extract_from_related_request (response r none) c = err no_related_request
  extract_from_related_request (response r (some w)) c =
      extract_by_type c.type (request w) (record c { parameters = without_req c.parameters })

  -- `extractComponentValue`
  unfoldable pub extract_component_value : HttpMessage → ComponentIdentifier → Outcome Bytes
  extract_component_value msg c =
      if has_req_parameter c.parameters
      then extract_from_related_request msg c
      else extract_by_type c.type msg c

  -- The loop of `Build`: the component lines, each with its newline.
  unfoldable pub component_lines : HttpMessage → List ComponentIdentifier → Outcome Bytes
  component_lines msg [] = ok []
  component_lines msg (c ∷ cs) = do
    value ← wrap (failed_component c.name) (extract_component_value msg c)
    more ← component_lines msg cs
    ok (component_line c value ++ (b'\n' ∷ more))

  -- `Build`. The source writes the newline in front of every line but the first.
  unfoldable pub build : HttpMessage → List ComponentIdentifier → SignatureParams → Outcome Bytes
  build msg cs params = do
    lines ← component_lines msg cs
    ok (lines ++ signature_params_line cs params)

-- After the req parameters are dropped, none is left that would send the component to the related
-- request again.
pub has_req_parameter-without_req :
    (params : List Parameter) → has_req_parameter (without_req params) ≡ false
unfolding has_req_parameter without_req
has_req_parameter-without_req [] = refl
has_req_parameter-without_req (x ∷ params) = elim (Bool-cases (equal x.key req)) [
  | inl same ↦ rw same (has_req_parameter-without_req params)
  | inr other ↦ rw (other, other) (has_req_parameter-without_req params)
]
