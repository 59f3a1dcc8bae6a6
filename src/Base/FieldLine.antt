-- ===== src/Base/FieldLine.antt =====
-- pkg/base/extract.go: the value of a field component, of every form that the source gives it.
use http_message_signatures.Common.{
  ℕ, ◌≡◌, refl, ◌⊎◌, inl, inr, Bool, true, false, not, ◌&&◌, List, [], ◌∷◌, ◌++◌, arith,
  if◌then◌else◌, &&_left, &&_right, Option-cases, All, all, Bytes, lookup, all-append_lem,
}
use http_message_signatures.Errors.{
  Error, ok, ◌>>=◌, wrap, parsed, written, >>=-eq-ok, sf_excludes_bs, key_without_sf,
  field_not_found, trailer_not_found, failed_component, not_structured, error_if->>=, ok_inj,
  wrap-ok, no_value, parsed-ok,
}
use http_message_signatures.Stdlib.Base64.{encode, encode_digit}
use http_message_signatures.Stdlib.Base64.RoundTrip.{all-encode}
use http_message_signatures.Stdlib.Strings.Kept.{all-trim_space, all-join}
use http_message_signatures.Sfv.Types.{default_limits, Member, item, inner_list}
use http_message_signatures.Sfv.Lexer.{Parser, ParseError, new_parser, Result}
use http_message_signatures.Sfv.Collections.{parse_dictionary, parse_list, parse_item}
use http_message_signatures.Sfv.Serialize.{
  Written, wrote, refused, write_item, write_inner_list, serialize_list, serialize_dictionary,
}
use http_message_signatures.Sfv.Reads.Strings.{is_printable}
use http_message_signatures.Sfv.Reads.Members.{IsMember}
use http_message_signatures.Sfv.Printed.{Printed, Prints, Prints-wrote}
use http_message_signatures.Sfv.Bounded.Printable.{
  serialize_dictionary-Prints, serialize_list-Prints, lookup-IsMember, write_item-parse_item,
}
use http_message_signatures.Sfv.Printed.{write_item-Prints, write_inner_list-Prints}
use http_message_signatures.Parser.Types.{ComponentIdentifier}
use http_message_signatures.Base.Message.{HttpMessage, is_empty, trailer_values, header_values}
use http_message_signatures.Base.Extract.{
  normalize_line_folding, canonical_values, canonicalize_field_values, serialize_member,
  serialize_key, serialize_whole, serialize_structured_field_value, extract_http_field_value,
  nonempty_values, parse_http_field_params,
}
use http_message_signatures.Base.OneLine.{in_line, normalize_line_folding-in_line}

-- One line: neither a carriage return nor a newline
abbrev pub InLine : Bytes → Type 0
InLine s = all in_line s ≡ true

canonical_values-InLine :
    (name : Bytes) (values vs : List Bytes) → canonical_values name values ≡ ok vs → All InLine vs
unfolding canonical_values
canonical_values-InLine name [] vs h = rw (← ok_inj h) tt
canonical_values-InLine name (v ∷ values) vs h =
    let (s, e, h1) = >>=-eq-ok (wrap (failed_component name) (normalize_line_folding v)) _ h in
    let (more, e1, h2) = >>=-eq-ok (canonical_values name values) _ h1 in
    rw (← ok_inj h2) (
      all-trim_space in_line s (normalize_line_folding-in_line v s (wrap-ok _ _ e)),
      canonical_values-InLine name values more e1,
    )

canonicalize_field_values-InLine :
    (values : List Bytes) (name raw : Bytes)
    → canonicalize_field_values values name ≡ ok raw
    → InLine raw
unfolding canonicalize_field_values
canonicalize_field_values-InLine values name raw h =
    let (vs, e, h1) = >>=-eq-ok (canonical_values name values) _ h in
    rw (← ok_inj h1) (all-join in_line refl refl vs (canonical_values-InLine name values vs e))

pub InLine-Printed : (s : Bytes) → Printed s → InLine s
InLine-Printed [] h = refl
InLine-Printed (c ∷ s) h =
    let here = &&_left (is_printable c) (all is_printable s) h in
    let more = InLine-Printed s (&&_right (is_printable c) (all is_printable s) h) in
    let line : in_line c ≡ true = ground (arith, here) in rw (line, more) refl

written-InLine :
    (w : Written) (f : Error → Error) (v : Bytes) → Prints w → wrap f (written w) ≡ ok v → InLine v
written-InLine (wrote s) f v h e = rw (← ok_inj e) (InLine-Printed s (Prints-wrote h))
written-InLine (refused x) f v h e = cc

serialize_member-InLine :
    (name : Bytes) (m : Member) (v : Bytes)
    → IsMember default_limits m
    → serialize_member name m ≡ ok v
    → InLine v
unfolding serialize_member
serialize_member-InLine name (item x) v h e =
    written-InLine (write_item x) _ v (write_item-Prints default_limits x h) e
serialize_member-InLine name (inner_list x) v h e =
    written-InLine (write_inner_list x) _ v (write_inner_list-Prints default_limits x h) e
serialize_member-InLine name Member.nil v h e = cc

-- A value, no fuel, or an error
pub result-cases :
    {A : Type 0} (m : Result (A × Parser))
    → ((a : A) × (q : Parser) × (m ≡ Result.ok (a, q)))
      ⊎ (m ≡ Result.out_of_fuel)
      ⊎ ((e : ParseError) × (m ≡ Result.err e))
result-cases (Result.ok (a, q)) = inl (a, q, refl)
result-cases (Result.err e) = inr (inr (e, refl))
result-cases Result.out_of_fuel = inr (inl refl)

serialize_key-InLine : (raw name key v : Bytes) → serialize_key raw name key ≡ ok v → InLine v
unfolding serialize_key
serialize_key-InLine raw name key v h =
    let p = new_parser raw default_limits in
    let (d, e, h1) = >>=-eq-ok (parsed (λ e. not_structured name) (parse_dictionary p)) _ h in
    let (q, r) = parsed-ok (λ e. not_structured name) (parse_dictionary p) d e in
    elim (Option-cases (lookup key d.values)) [
      | inl none_found ↦ let x : ⊥ = no_value (rw none_found at h1) in elim x [ ]
      | inr (m, found) ↦
          serialize_member-InLine name m v (lookup-IsMember p q d key m r found) (rw found at h1)
    ]

serialize_item-InLine :
    (p : Parser) (name v : Bytes)
    → (do
      x ← parsed (λ e. not_structured name) (parse_item p)
      wrap (failed_component name) (written (write_item x)))
      ≡ ok v
    → InLine v
serialize_item-InLine p name v h =
    let (x, e, h1) = >>=-eq-ok (parsed (λ e. not_structured name) (parse_item p)) _ h in
    let (q, r) = parsed-ok (λ e. not_structured name) (parse_item p) x e in
    written-InLine (write_item x) _ v (write_item-parse_item p q x r) h1

serialize_whole-InLine : (raw name v : Bytes) → serialize_whole raw name ≡ ok v → InLine v
unfolding serialize_whole
serialize_whole-InLine raw name v h =
    let p = new_parser raw default_limits in
    elim (result-cases (parse_dictionary p)) [
      | inl (d, q, e) ↦
          written-InLine (serialize_dictionary d) _ v (serialize_dictionary-Prints p q d e)
            (rw (e, serialize_whole) at h)
      | inr (inl e) ↦ let x : ⊥ = no_value (rw (e, serialize_whole) at h) in elim x [ ]
      | inr (inr (no_dictionary, e)) ↦ elim (result-cases (parse_list p)) [
        | inl (x, q, i) ↦
            written-InLine (serialize_list x) _ v (serialize_list-Prints p q x i)
              (rw (e, i, serialize_whole) at h)
        | inr (inl i) ↦ let x : ⊥ = no_value (rw (e, i, serialize_whole) at h) in elim x [ ]
        | inr (inr (no_list, i)) ↦ serialize_item-InLine p name v (rw (e, i, serialize_whole) at h)
      ]
    ]

serialize_structured_field_value-InLine :
    (raw name key v : Bytes) → serialize_structured_field_value raw name key ≡ ok v → InLine v
unfolding serialize_structured_field_value
serialize_structured_field_value-InLine raw name [] v h = serialize_whole-InLine raw name v h
serialize_structured_field_value-InLine raw name (c ∷ key) v h =
    serialize_key-InLine raw name (c ∷ key) v h

encode_digit_line : (n : ℕ) → in_line (encode_digit n) ≡ true
unfolding encode_digit
encode_digit_line n = ground arith

-- The three forms of a value
form-InLine :
    (sf bs : Bool) (raw name key v : Bytes)
    → InLine raw
    → (if sf
        then serialize_structured_field_value raw name key
        else if bs
        then ok (b':' ∷ (encode raw ++ b':' ∷ []))
        else ok raw)
      ≡ ok v
    → InLine v
form-InLine true bs raw name key v k h = serialize_structured_field_value-InLine raw name key v h
form-InLine false true raw name key v k h = rw (← ok_inj h) (
    all-append_lem in_line (encode raw) (b':' ∷ []) (all-encode in_line refl encode_digit_line raw)
      refl)
form-InLine false false raw name key v k h = rw (← ok_inj h) k

-- The value of a field component has no carriage return and no newline, as text, as a byte
-- sequence, and as a structured field or a member of one that is parsed and written again; so no
-- field value adds a line to the signature base.
pub extract_http_field_value-InLine :
    (msg : HttpMessage) (c : ComponentIdentifier) (v : Bytes)
    → extract_http_field_value msg c ≡ ok v
    → InLine v
unfolding extract_http_field_value
extract_http_field_value-InLine msg c v h =
    let params = parse_http_field_params c.parameters in
    let (a, h1) = error_if->>= (params.use_sf && params.use_bs) (sf_excludes_bs c.name) _ h in
    let (b, h2) =
      error_if->>= (not (is_empty params.key_name) && not params.use_sf) (key_without_sf c.name) _
        h1 in
    let (values, found, h3) =
      >>=-eq-ok
        (nonempty_values
          (if params.is_trailer then trailer_not_found c.name else field_not_found c.name)
          (if params.is_trailer then trailer_values msg c.name else header_values msg c.name))
        _ h2 in
    let (raw, e, h4) = >>=-eq-ok (canonicalize_field_values values c.name) _ h3 in
    form-InLine params.use_sf params.use_bs raw c.name params.key_name v
      (canonicalize_field_values-InLine values c.name raw e) h4
