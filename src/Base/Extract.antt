-- ===== src/Base/Extract.antt =====
-- pkg/base/extract.go: the canonical value of a component.
use http_message_signatures.Common.{
  ℕ, Bool, false, not, ◌&&◌, ◌||◌, none, some, List, [], ◌∷◌, ◌++◌, ◌==◌, if◌then◌else◌, Bytes,
  codes, equal, lookup,
}
use http_message_signatures.Stdlib.Base64.{encode}
use http_message_signatures.Stdlib.Strconv.{format_int}
use http_message_signatures.Stdlib.Strings.{trim_space, join}
use http_message_signatures.Sfv.Types.{default_limits, Member, item, inner_list}
use http_message_signatures.Sfv.Lexer.{new_parser, Result}
use http_message_signatures.Sfv.Collections.{parse_dictionary, parse_list, parse_item}
use http_message_signatures.Sfv.Serialize.{
  serialize_dictionary, serialize_list, write_item, write_inner_list,
}
use http_message_signatures.Errors.{
  Error, Outcome, ok, err, ◌>>=◌, ◌>>◌, error_if, wrap, parsed, written, exhausted, bare_newline,
  sf_excludes_bs, key_without_sf, field_not_found, trailer_not_found, failed_component,
  not_structured, member_not_found, only_for_requests, only_for_responses,
  unknown_derived_component, query_param_requires_name, message_failed, query_param_not_found,
}
use http_message_signatures.Parser.Types.{
  BareItemValue, boolean, string, Parameter, ComponentIdentifier,
}
use http_message_signatures.Base.Message.{
  Url, UrlMethods, HttpMessage, request, response, is_empty, header_values, trailer_values,
}

-- White space of a fold.
abbrev pub is_fold_space : ℕ → Bool
is_fold_space c = c == b' ' || c == b'\t'

-- Where the loop of `normalizeLineFolding` stands, with the loop of `skipObsFold` in it: in the
-- text; behind a CR, which wants an LF; behind the newline, which wants white space; in that white
-- space.
pub data Fold : Type 0 where
  plain after_cr after_newline in_space : Fold

-- `normalizeLineFolding` and `skipObsFold`
unfoldable pub unfold_lines : Fold → Bytes → Outcome Bytes
unfold_lines plain [] = ok []
unfold_lines in_space [] = ok []
unfold_lines after_cr [] = err bare_newline
unfold_lines after_newline [] = err bare_newline
unfold_lines after_cr (c ∷ s) =
    let more = unfold_lines after_newline s in if c == b'\n' then more else err bare_newline
unfold_lines after_newline (c ∷ s) =
    let more = (do t ← unfold_lines in_space s; ok (b' ' ∷ t)) in
    if is_fold_space c then more else err bare_newline
unfold_lines plain (c ∷ s) =
    let carriage = unfold_lines after_cr s in
    let newline = unfold_lines after_newline s in
    let more = (do t ← unfold_lines plain s; ok (c ∷ t)) in
    if c == b'\r' then carriage else if c == b'\n' then newline else more
unfold_lines in_space (c ∷ s) =
    let space = unfold_lines in_space s in
    let carriage = unfold_lines after_cr s in
    let newline = unfold_lines after_newline s in
    let more = (do t ← unfold_lines plain s; ok (c ∷ t)) in
    if is_fold_space c
    then space
    else if c == b'\r'
    then carriage
    else if c == b'\n'
    then newline
    else more

-- `normalizeLineFolding`
abbrev pub normalize_line_folding : Bytes → Outcome Bytes
normalize_line_folding = unfold_lines plain

-- `canonicalizeFieldValues`
unfoldable pub canonical_values : Bytes → List Bytes → Outcome (List Bytes)
canonical_values name [] = ok []
canonical_values name (v ∷ values) = do
  s ← wrap (failed_component name) (normalize_line_folding v)
  more ← canonical_values name values
  ok (trim_space s ∷ more)

unfoldable pub canonicalize_field_values : List Bytes → Bytes → Outcome Bytes
canonicalize_field_values values name = do vs ← canonical_values name values; ok (join vs)

-- `httpFieldParams`
pub record HttpFieldParams : Type 0 where
  pub is_trailer : Bool
  pub use_sf : Bool
  pub use_bs : Bool
  pub key_name : Bytes

abbrev bool_or : Bool → BareItemValue → Bool
bool_or b (boolean v) = v
bool_or b _ = b

abbrev string_or : Bytes → BareItemValue → Bytes
string_or s (string v) = v
string_or s _ = s

-- The switch of `parseHTTPFieldParams`
unfoldable pub field_param : Parameter → HttpFieldParams → HttpFieldParams
field_param x r =
    if equal x.key (codes "tr")
    then record r { is_trailer = bool_or r.is_trailer x.value }
    else if equal x.key (codes "sf")
    then record r { use_sf = bool_or r.use_sf x.value }
    else if equal x.key (codes "bs")
    then record r { use_bs = bool_or r.use_bs x.value }
    else if equal x.key (codes "key")
    then record r { key_name = string_or r.key_name x.value }
    else r

unfoldable pub parse_params_onto : HttpFieldParams → List Parameter → HttpFieldParams
parse_params_onto r [] = r
parse_params_onto r (x ∷ params) = parse_params_onto (field_param x r) params

-- `parseHTTPFieldParams`
abbrev pub parse_http_field_params : List Parameter → HttpFieldParams
parse_http_field_params =
    parse_params_onto (record { is_trailer = false; use_sf = false; use_bs = false; key_name = [] })

-- `serializeStructuredFieldMember`
unfoldable pub serialize_member : Bytes → Member → Outcome Bytes
serialize_member name (item x) = wrap (failed_component name) (written (write_item x))
serialize_member name (inner_list l) = wrap (failed_component name) (written (write_inner_list l))
serialize_member name Member.nil = err (not_structured name)

-- The dictionary member that `key` names
unfoldable pub serialize_key : Bytes → Bytes → Bytes → Outcome Bytes
serialize_key raw name key = do
  dict ← parsed (λ e. not_structured name) (parse_dictionary (new_parser raw default_limits))
  elim (lookup key dict.values) [
    | none ↦ err (member_not_found key)
    | some v ↦ serialize_member name v
  ]

-- The three attempts at a whole field: a dictionary, a list, an item.
unfoldable pub serialize_whole : Bytes → Bytes → Outcome Bytes
serialize_whole raw name =
    let p = new_parser raw default_limits in
    let as_item : Outcome Bytes = (do
      x ← parsed (λ e. not_structured name) (parse_item p)
      wrap (failed_component name) (written (write_item x))) in
    let as_list : Outcome Bytes = elim (parse_list p) [
      | Result.ok (l, q) ↦ wrap (failed_component name) (written (serialize_list l))
      | Result.err e ↦ as_item
      | Result.out_of_fuel ↦ err exhausted
    ] in
    elim (parse_dictionary p) [
      | Result.ok (d, q) ↦ wrap (failed_component name) (written (serialize_dictionary d))
      | Result.err e ↦ as_list
      | Result.out_of_fuel ↦ err exhausted
    ]

-- `serializeStructuredFieldValue`
unfoldable pub serialize_structured_field_value : Bytes → Bytes → Bytes → Outcome Bytes
serialize_structured_field_value raw name key =
    if is_empty key then serialize_whole raw name else serialize_key raw name key

abbrev pub nonempty_values : Error → List Bytes → Outcome (List Bytes)
nonempty_values e [] = err e
nonempty_values e values = ok values

-- `extractHTTPFieldValue`
unfoldable pub extract_http_field_value : HttpMessage → ComponentIdentifier → Outcome Bytes
extract_http_field_value msg c = do
  let params = parse_http_field_params c.parameters
  error_if (params.use_sf && params.use_bs) (sf_excludes_bs c.name)
  error_if (not (is_empty params.key_name) && not params.use_sf) (key_without_sf c.name)
  values ←
      nonempty_values
        (if params.is_trailer then trailer_not_found c.name else field_not_found c.name)
        (if params.is_trailer then trailer_values msg c.name else header_values msg c.name)
  raw ← canonicalize_field_values values c.name
  if params.use_sf
      then serialize_structured_field_value raw c.name params.key_name
      else if params.use_bs
      then ok (b':' ∷ (encode raw ++ b':' ∷ []))
      else ok raw

-- `getRequestURL`, with `URL()` of the wrapper
unfoldable pub get_request_url : HttpMessage → Bytes → Outcome Url
get_request_url (request w) name = elim w.url [ none ↦ err message_failed | some u ↦ ok u ]
get_request_url (response r related) name = err (only_for_requests name)

-- `extractMethod` and `extractStatus`
unfoldable pub extract_method : HttpMessage → Outcome Bytes
extract_method (request w) = ok w.req.method
extract_method (response r related) = err (only_for_requests (codes "@method"))

unfoldable pub extract_status : HttpMessage → Outcome Bytes
extract_status (request w) = err (only_for_responses (codes "@status"))
extract_status (response r related) = ok (format_int r.status_code)

-- `queryParamName`
unfoldable pub query_param_name : List Parameter → Bytes
query_param_name [] = []
query_param_name (x ∷ params) =
    let more = query_param_name params in
    if equal x.key (codes "name") then elim x.value [ string v ↦ v | _ ↦ more ] else more

abbrev first_value : Bytes → List Bytes → Outcome Bytes
first_value name [] = err (query_param_not_found name)
first_value name (v ∷ vs) = ok v

abbrev slash_if_empty : Bytes → Bytes
slash_if_empty path = if is_empty path then b'/' ∷ [] else path

module _ (net : UrlMethods) where
  -- `extractRequestTarget`
  unfoldable pub extract_request_target : HttpMessage → Outcome Bytes
  extract_request_target msg = do
    u ← get_request_url msg (codes "@request-target")
    let path = slash_if_empty (net.escaped_path u)
    ok (if is_empty u.raw_query then path else path ++ (b'?' ∷ u.raw_query))

  -- `extractPath` and `extractQuery`
  unfoldable pub extract_path : HttpMessage → Outcome Bytes
  extract_path msg = do
    u ← get_request_url msg (codes "@path")
    ok (slash_if_empty (net.escaped_path u))

  unfoldable pub extract_query : HttpMessage → Outcome Bytes
  extract_query msg = do u ← get_request_url msg (codes "@query"); ok (b'?' ∷ u.raw_query)

  -- `extractQueryParam`
  unfoldable pub extract_query_param : HttpMessage → ComponentIdentifier → Outcome Bytes
  extract_query_param msg c = do
    let name = query_param_name c.parameters
    error_if (is_empty name) query_param_requires_name
    u ← get_request_url msg (codes "@query-param")
    first_value name (net.query u name)

  -- `extractDerivedComponentValue`, with `extractTargetURI`, `extractAuthority` and `extractScheme`
  unfoldable pub extract_derived_component_value : HttpMessage → ComponentIdentifier → Outcome Bytes
  extract_derived_component_value msg c =
      if equal c.name (codes "@method")
      then extract_method msg
      else if equal c.name (codes "@target-uri")
      then (do u ← get_request_url msg c.name; ok (net.to_string u))
      else if equal c.name (codes "@authority")
      then (do u ← get_request_url msg c.name; ok u.host)
      else if equal c.name (codes "@scheme")
      then (do u ← get_request_url msg c.name; ok u.scheme)
      else if equal c.name (codes "@request-target")
      then extract_request_target msg
      else if equal c.name (codes "@path")
      then extract_path msg
      else if equal c.name (codes "@query")
      then extract_query msg
      else if equal c.name (codes "@query-param")
      then extract_query_param msg c
      else if equal c.name (codes "@status")
      then extract_status msg
      else err (unknown_derived_component c.name)
