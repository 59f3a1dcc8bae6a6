-- ===== src/Httpsig/Attached.antt =====
-- pkg/httpsig/signer.go: a message with the signer's fields, and its signature base.
use http_message_signatures.Common.{
  ◌≡◌, refl, ◌∙◌, inl, inr, false, Option, none, some, List, [], ◌∷◌, Bool-cases, All, codes, equal,
}
use http_message_signatures.Stdlib.Header
use http_message_signatures.Parser.Types.{
  ComponentType, field, derived, unknown, ComponentIdentifier, SignatureParams,
}
use http_message_signatures.Base.Message.{
  fields, UrlMethods, Request, Response, WrappedRequest, HttpMessage, request, response,
  resolve_request_url, wrap_request, wrap_response, header_values, trailer_values,
}
use http_message_signatures.Base.Extract.{
  extract_http_field_value, get_request_url, extract_method, extract_status, extract_request_target,
  extract_path, extract_query, extract_query_param, extract_derived_component_value,
}
use http_message_signatures.Base.Build.{
  extract_by_type, extract_from_related_request, has_req_parameter, extract_component_value,
  component_lines, build,
}
use http_message_signatures.Httpsig.Signer.{SignatureHeaders, attach}

-- The component is none of the two fields that the signer sets.
abbrev pub IsOther : ComponentIdentifier → Type 0
IsOther c =
    (equal (Header.canonical_header_key (codes "Signature-Input"))
        (Header.canonical_header_key c.name)
      ≡ false)
    × (equal (Header.canonical_header_key (codes "Signature")) (Header.canonical_header_key c.name)
        ≡ false)

values_of-attach :
    (headers : SignatureHeaders) (h : Header.Header) (c : ComponentIdentifier)
    → IsOther c
    → Header.values_of (attach headers h) c.name ≡ Header.values_of h c.name
unfolding attach
values_of-attach headers h c (a, b) =
    Header.values_of-set (Header.set h (codes "Signature-Input") headers.signature_input)
      (codes "Signature") headers.signature c.name b
    ∙ Header.values_of-set h (codes "Signature-Input") headers.signature_input c.name a

-- A request and a response with the two fields, as the caller holds them after signing
abbrev pub sent_request : SignatureHeaders → Request → Request
sent_request headers req = record req { header = some (attach headers (fields req.header)) }

abbrev pub sent_response : SignatureHeaders → Response → Response
sent_response headers resp = record resp { header = some (attach headers (fields resp.header)) }

-- The response with a map of header fields, an empty one where it has none
abbrev pub filled : Response → Response
filled resp = record resp { header = some (fields resp.header) }

field_agrees :
    (m n : HttpMessage) (c : ComponentIdentifier)
    → header_values m c.name ≡ header_values n c.name
    → trailer_values m c.name ≡ trailer_values n c.name
    → extract_http_field_value m c ≡ extract_http_field_value n c
unfolding extract_http_field_value
field_agrees m n c h k = rw (h, k) refl

module _ (net : UrlMethods) where
  -- Each component has the same value, or the same error.
  abbrev Agrees : HttpMessage → HttpMessage → ComponentIdentifier → Type 0
  Agrees m n c = extract_component_value net m c ≡ extract_component_value net n c

  component_lines-Agrees :
      (m n : HttpMessage) (cs : List ComponentIdentifier)
      → All (Agrees m n) cs
      → component_lines net m cs ≡ component_lines net n cs
  unfolding component_lines
  component_lines-Agrees m n [] h = refl
  component_lines-Agrees m n (c ∷ cs) (h, k) = rw (h, component_lines-Agrees m n cs k) refl

  derived_agrees :
      (headers : SignatureHeaders) (req : Request) (c : ComponentIdentifier)
      → extract_derived_component_value net (request (wrap_request (sent_request headers req))) c
        ≡ extract_derived_component_value net (request (wrap_request req)) c
  unfolding extract_derived_component_value get_request_url extract_method extract_status
      extract_request_target extract_path extract_query extract_query_param wrap_request
      resolve_request_url
  derived_agrees headers req c = refl

  derived_agrees_response :
      (headers : SignatureHeaders) (resp : Response) (w : Option WrappedRequest)
      (c : ComponentIdentifier)
      → extract_derived_component_value net (response (sent_response headers resp) w) c
        ≡ extract_derived_component_value net (response resp w) c
  unfolding extract_derived_component_value get_request_url extract_method extract_status
      extract_request_target extract_path extract_query extract_query_param
  derived_agrees_response headers resp w c = refl

  request-Agrees :
      (headers : SignatureHeaders) (req : Request) (c : ComponentIdentifier)
      → IsOther c
      → Agrees (request (wrap_request (sent_request headers req))) (request (wrap_request req)) c
  unfolding extract_component_value extract_from_related_request wrap_request header_values
      trailer_values
  request-Agrees headers req c h = elim (Bool-cases (has_req_parameter c.parameters)) [
    | inl e ↦ rw e refl
    | inr e ↦ rw e (by_type c.type)
  ]
    where
      by_type :
          (t : ComponentType)
          → extract_by_type net t (request (wrap_request (sent_request headers req))) c
            ≡ extract_by_type net t (request (wrap_request req)) c
      by_type field = field_agrees _ _ c (values_of-attach headers (fields req.header) c h) refl
      by_type derived = derived_agrees headers req c
      by_type (unknown n) = refl

  response-Agrees :
      (headers : SignatureHeaders) (resp : Response) (w : Option WrappedRequest)
      (c : ComponentIdentifier)
      → IsOther c
      → Agrees (response (sent_response headers resp) w) (response resp w) c
  unfolding extract_component_value extract_from_related_request header_values trailer_values
  response-Agrees headers resp w c h = elim (Bool-cases (has_req_parameter c.parameters)) [
    | inl e ↦ rw e (related w)
    | inr e ↦ rw e (by_type c.type)
  ]
    where
      related :
          (w : Option WrappedRequest)
          → extract_from_related_request net (response (sent_response headers resp) w) c
            ≡ extract_from_related_request net (response resp w) c
      related none = refl
      related (some r) = refl

      by_type :
          (t : ComponentType)
          → extract_by_type net t (response (sent_response headers resp) w) c
            ≡ extract_by_type net t (response resp w) c
      by_type field = field_agrees _ _ c (values_of-attach headers (fields resp.header) c h) refl
      by_type derived = derived_agrees_response headers resp w c
      by_type (unknown n) = refl

  All-Agrees :
      (m n : HttpMessage) (cs : List ComponentIdentifier)
      → ((c : ComponentIdentifier) → IsOther c → Agrees m n c)
      → All IsOther cs
      → All (Agrees m n) cs
  All-Agrees m n [] f h = tt
  All-Agrees m n (c ∷ cs) f (h, k) = (f c h, All-Agrees m n cs f k)

  pub build-sent_request :
      (headers : SignatureHeaders) (req : Request) (cs : List ComponentIdentifier)
      (p : SignatureParams)
      → All IsOther cs
      → build net (request (wrap_request (sent_request headers req))) cs p
        ≡ build net (request (wrap_request req)) cs p
  unfolding build
  build-sent_request headers req cs p h =
      rw (component_lines-Agrees _ _ cs (All-Agrees _ _ cs (request-Agrees headers req) h)) refl

  pub build-sent_response :
      (headers : SignatureHeaders) (resp : Response) (related : Option Request)
      (cs : List ComponentIdentifier) (p : SignatureParams)
      → All IsOther cs
      → build net (wrap_response (sent_response headers resp) related) cs p
        ≡ build net (wrap_response resp related) cs p
  unfolding build wrap_response
  build-sent_response headers resp none cs p h =
      rw (component_lines-Agrees _ _ cs (All-Agrees _ _ cs (response-Agrees headers resp none) h))
        refl
  build-sent_response headers resp (some req) cs p h =
      rw
        (component_lines-Agrees _ _ cs
          (All-Agrees _ _ cs (response-Agrees headers resp (some (wrap_request req))) h))
        refl

  derived_agrees_filled :
      (resp : Response) (w : Option WrappedRequest) (c : ComponentIdentifier)
      → extract_derived_component_value net (response (filled resp) w) c
        ≡ extract_derived_component_value net (response resp w) c
  unfolding extract_derived_component_value get_request_url extract_method extract_status
      extract_request_target extract_path extract_query extract_query_param
  derived_agrees_filled resp w c = refl

  filled-Agrees :
      (resp : Response) (w : Option WrappedRequest) (c : ComponentIdentifier)
      → Agrees (response (filled resp) w) (response resp w) c
  unfolding extract_component_value extract_from_related_request header_values trailer_values
  filled-Agrees resp w c = elim (Bool-cases (has_req_parameter c.parameters)) [
    | inl e ↦ rw e (related w)
    | inr e ↦ rw e (by_type c.type)
  ]
    where
      related :
          (w : Option WrappedRequest)
          → extract_from_related_request net (response (filled resp) w) c
            ≡ extract_from_related_request net (response resp w) c
      related none = refl
      related (some r) = refl

      by_type :
          (t : ComponentType)
          → extract_by_type net t (response (filled resp) w) c
            ≡ extract_by_type net t (response resp w) c
      by_type field = field_agrees _ _ c refl refl
      by_type derived = derived_agrees_filled resp w c
      by_type (unknown n) = refl

  build-filled :
      (resp : Response) (w : Option WrappedRequest) (cs : List ComponentIdentifier)
      (p : SignatureParams)
      → build net (response (filled resp) w) cs p ≡ build net (response resp w) cs p
  unfolding build
  build-filled resp w cs p = rw (component_lines-Agrees _ _ cs (every cs)) refl
    where
      every :
          (cs : List ComponentIdentifier)
          → All (Agrees (response (filled resp) w) (response resp w)) cs
      every [] = tt
      every (c ∷ cs) = (filled-Agrees resp w c, every cs)

  pub build-filled_response :
      (resp : Response) (related : Option Request) (cs : List ComponentIdentifier)
      (p : SignatureParams)
      → build net (wrap_response (filled resp) related) cs p
        ≡ build net (wrap_response resp related) cs p
  unfolding wrap_response
  build-filled_response resp none cs p = build-filled resp none cs p
  build-filled_response resp (some req) cs p = build-filled resp (some (wrap_request req)) cs p
