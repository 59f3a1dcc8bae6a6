-- ===== src/Base/Returns.antt =====
-- pkg/base/extract.go: the value of a field component, on every message.
use http_message_signatures.Common.{
  ◌≢◌, inl, inr, Bool, true, false, not, ◌&&◌, List, [], ◌∷◌, ◌++◌, if◌then◌else◌, Option-cases,
  Bytes, lookup,
}
use http_message_signatures.Errors.{
  Error, ok, error_if, wrap, parsed, written, exhausted, sf_excludes_bs, key_without_sf,
  field_not_found, trailer_not_found, failed_component, not_structured, member_not_found,
}
use http_message_signatures.Stdlib.Strings.{trim_space, join}
use http_message_signatures.Stdlib.Base64.{encode}
use http_message_signatures.Sfv.Types.{default_limits, Limits, Member, item, inner_list}
use http_message_signatures.Sfv.Lexer.{ParseError, new_parser}
use http_message_signatures.Sfv.Collections.{parse_dictionary, parse_list, parse_item}
use http_message_signatures.Sfv.Serialize.{
  write_item, write_inner_list, serialize_list, serialize_dictionary,
}
use http_message_signatures.Sfv.Bounded.Accepted.{parse-Returns}
use http_message_signatures.Sfv.Bounded.Printable.{parse_item-Returns}
use http_message_signatures.Parser.Types.{ComponentIdentifier}
use http_message_signatures.Base.Message.{HttpMessage, header_values, trailer_values}
use http_message_signatures.Base.Message as Message
use http_message_signatures.Base.Extract.{
  canonical_values, canonicalize_field_values, normalize_line_folding, serialize_member,
  serialize_key, serialize_whole, serialize_structured_field_value, nonempty_values,
  extract_http_field_value, parse_http_field_params,
}
use http_message_signatures.Base.FieldLine.{result-cases}
use http_message_signatures.Errors.Returns.{
  Returns, err-Returns, ok-Returns, next, error_if-Returns, wrap-Returns, parsed-Returns,
}

pub dictionary-Returns :
    (f : ParseError → Error) (s : Bytes) (l : Limits)
    → ((e : ParseError) → f e ≢ exhausted)
    → Returns (parsed f (parse_dictionary (new_parser s l)))
dictionary-Returns f s l h = parsed-Returns f _ h (parse-Returns (new_parser s l)).0

serialize_member-Returns : (name : Bytes) (m : Member) → Returns (serialize_member name m)
unfolding serialize_member
serialize_member-Returns name (item x) = wrap-Returns _ (written (write_item x)) (λ e x. cc)
serialize_member-Returns name (inner_list l) =
    wrap-Returns _ (written (write_inner_list l)) (λ e x. cc)
serialize_member-Returns name Member.nil = err-Returns _ (λ x. cc)

serialize_key-Returns : (raw name key : Bytes) → Returns (serialize_key raw name key)
unfolding serialize_key
serialize_key-Returns raw name key =
    next (parsed (λ e. not_structured name) (parse_dictionary (new_parser raw default_limits))) _
      (dictionary-Returns _ raw default_limits (λ e x. cc))
      (λ d. elim (Option-cases (lookup key d.values)) [
        | inl e ↦ rw e (err-Returns (member_not_found key) (λ x. cc))
        | inr (m, e) ↦ rw e (serialize_member-Returns name m)
      ])

serialize_whole-Returns : (raw name : Bytes) → Returns (serialize_whole raw name)
unfolding serialize_whole
serialize_whole-Returns raw name =
    let p = new_parser raw default_limits in
    elim (result-cases (parse_dictionary p)) [
      | inl (d, q, e) ↦
          rw (e, serialize_whole) (wrap-Returns _ (written (serialize_dictionary d)) (λ e x. cc))
      | inr (inl e) ↦ let x : ⊥ = (parse-Returns p).0 e in elim x [ ]
      | inr (inr (no_dictionary, e)) ↦ elim (result-cases (parse_list p)) [
        | inl (l, q, i) ↦
            rw (e, i, serialize_whole) (wrap-Returns _ (written (serialize_list l)) (λ e x. cc))
        | inr (inl i) ↦ let x : ⊥ = (parse-Returns p).1 i in elim x [ ]
        | inr (inr (no_list, i)) ↦
            rw (e, i, serialize_whole)
              (next (parsed (λ e. not_structured name) (parse_item p)) _
                (parsed-Returns _ _ (λ e x. cc) (parse_item-Returns p))
                (λ x. wrap-Returns _ (written (write_item x)) (λ e x. cc)))
      ]
    ]

serialize_structured_field_value-Returns :
    (raw name key : Bytes) → Returns (serialize_structured_field_value raw name key)
unfolding serialize_structured_field_value
serialize_structured_field_value-Returns raw name [] = serialize_whole-Returns raw name
serialize_structured_field_value-Returns raw name (c ∷ key) =
    serialize_key-Returns raw name (c ∷ key)

canonical_values-Returns :
    (name : Bytes) (values : List Bytes) → Returns (canonical_values name values)
unfolding canonical_values
canonical_values-Returns name [] = ok-Returns []
canonical_values-Returns name (v ∷ values) =
    next (wrap (failed_component name) (normalize_line_folding v)) _ (wrap-Returns _ _ (λ e x. cc))
      (λ s.
        next (canonical_values name values) _ (canonical_values-Returns name values)
          (λ more. ok-Returns (trim_space s ∷ more)))

nonempty_values-Returns :
    (e : Error) (values : List Bytes) → e ≢ exhausted → Returns (nonempty_values e values)
nonempty_values-Returns e [] h = err-Returns e h
nonempty_values-Returns e (v ∷ values) h = ok-Returns (v ∷ values)

not_found :
    (b : Bool) (name : Bytes)
    → (if b then trailer_not_found name else field_not_found name) ≢ exhausted
not_found true name h = cc
not_found false name h = cc

form-Returns :
    (sf bs : Bool) (raw name key : Bytes)
    → Returns (
        if sf
        then serialize_structured_field_value raw name key
        else if bs
        then ok (b':' ∷ (encode raw ++ b':' ∷ []))
        else ok raw)
form-Returns true bs raw name key = serialize_structured_field_value-Returns raw name key
form-Returns false true raw name key = ok-Returns _
form-Returns false false raw name key = ok-Returns raw

pub extract_http_field_value-Returns :
    (msg : HttpMessage) (c : ComponentIdentifier) → Returns (extract_http_field_value msg c)
unfolding extract_http_field_value canonicalize_field_values
extract_http_field_value-Returns msg c =
    let params = parse_http_field_params c.parameters in
    next (error_if (params.use_sf && params.use_bs) (sf_excludes_bs c.name)) _
      (error_if-Returns _ _ (λ x. cc))
      (λ _.
        next
          (error_if (not (Message.is_empty params.key_name) && not params.use_sf)
            (key_without_sf c.name))
          _ (error_if-Returns _ _ (λ x. cc))
          (λ _.
            next
              (nonempty_values
                (if params.is_trailer then trailer_not_found c.name else field_not_found c.name)
                (if params.is_trailer then trailer_values msg c.name else header_values msg c.name))
              _ (nonempty_values-Returns _ _ (not_found params.is_trailer c.name))
              (λ values.
                next (canonicalize_field_values values c.name) _
                  (next (canonical_values c.name values) _ (canonical_values-Returns c.name values)
                    (λ vs. ok-Returns (join vs)))
                  (λ raw. form-Returns params.use_sf params.use_bs raw c.name params.key_name))))
