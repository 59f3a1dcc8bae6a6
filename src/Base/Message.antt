-- ===== src/Base/Message.antt =====
-- pkg/base/builder.go and adapter.go: requests and responses behind the HTTPMessage interface.
use http_message_signatures.Common.{
  Bool, true, false, not, ◌&&◌, Option, none, some, List, [], ◌∷◌, if◌then◌else◌, Bytes, codes, ℤ,
}
use http_message_signatures.Stdlib.Header.{Header, values_of}

-- The fields of Go's `url.URL`.
pub record Url : Type 0 where
  pub scheme : Bytes
  pub opaque : Bytes
  pub user : Option Bytes
  pub host : Bytes
  pub path : Bytes
  pub raw_path : Bytes
  pub force_query : Bool
  pub raw_query : Bytes
  pub fragment : Bytes
  pub raw_fragment : Bytes

-- The methods of `url.URL` that pkg/base calls: `String`, `EscapedPath` and `Query`.
pub record UrlMethods : Type 0 where
  pub to_string : Url → Bytes
  pub escaped_path : Url → Bytes
  pub query : Url → Bytes → List Bytes

-- What the package reads of an `http.Request`; `tls` says that TLS is not nil, and a nil map of
-- header fields is `none`.
pub record Request : Type 0 where
  pub method : Bytes
  pub url : Option Url
  pub host : Bytes
  pub tls : Bool
  pub header : Option Header
  pub trailer : Header

-- What it reads of an `http.Response`.
pub record Response : Type 0 where
  pub status_code : ℤ
  pub header : Option Header
  pub trailer : Header

-- The implementations of `HTTPMessage`: a request with its resolved URL, a response with the
-- request that it answers.
pub record WrappedRequest : Type 0 where
  pub req : Request
  pub url : Option Url

pub data HttpMessage : Type 0 where
  request : WrappedRequest → HttpMessage
  response : Response → Option WrappedRequest → HttpMessage

abbrev pub is_empty : Bytes → Bool
is_empty [] = true
is_empty (_ ∷ _) = false

-- `resolveRequestURL`
unfoldable pub resolve_request_url : Request → Url → Url
resolve_request_url req u = if not (is_empty u.scheme) && not (is_empty u.host) then u else record {
  scheme =
      if is_empty u.scheme then (if req.tls then codes "https" else codes "http") else u.scheme;
  opaque = [];
  user = none;
  host = if is_empty u.host then req.host else u.host;
  path = u.path;
  raw_path = u.raw_path;
  force_query = false;
  raw_query = u.raw_query;
  fragment = u.fragment;
  raw_fragment = u.raw_fragment;
}

abbrev resolved : Request → Option Url → Option Url
resolved req none = none
resolved req (some u) = some (resolve_request_url req u)

-- `WrapRequest` of a request that is not nil
unfoldable pub wrap_request : Request → WrappedRequest
wrap_request req = record { req = req; url = resolved req req.url }

-- `WrapResponse`
unfoldable pub wrap_response : Response → Option Request → HttpMessage
unfolding wrap_request
wrap_response resp none = response resp none
wrap_response resp (some req) = response resp (some (wrap_request req))

abbrev pub is_request : HttpMessage → Bool
is_request (request w) = true
is_request (response r related) = false

-- A nil map is read as an empty one.
abbrev pub fields : Option Header → Header
fields none = []
fields (some h) = h

-- `HeaderValues` and `TrailerValues`
unfoldable pub header_values : HttpMessage → Bytes → List Bytes
header_values (request w) name = values_of (fields w.req.header) name
header_values (response r related) name = values_of (fields r.header) name

unfoldable pub trailer_values : HttpMessage → Bytes → List Bytes
trailer_values (request w) name = values_of w.req.trailer name
trailer_values (response r related) name = values_of r.trailer name
