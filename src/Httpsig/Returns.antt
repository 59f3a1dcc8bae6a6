-- ===== src/Httpsig/Returns.antt =====
-- pkg/parser/parser.go and pkg/httpsig/verifier.go: the readers of header fields, on every input.
use http_message_signatures.Common.{
  ◌≢◌, inl, inr, ◌&&◌, Option, none, some, List, [], ◌∷◌, Option-cases, Bytes, lookup, insert,
}
use http_message_signatures.Errors.{
  Error, Outcome, error_if, wrap, parsed, exhausted, both_headers_empty, signature_input_empty,
  signature_empty, bad_signature_input, bad_signature, no_signature_for_label,
  no_signature_input_for_label, failed_signature, signature_not_bytes, signature_not_found,
  no_signature_value,
}
use http_message_signatures.Sfv.Types.{Limits, Member, item, inner_list, Value}
use http_message_signatures.Sfv.Lexer.{new_parser}
use http_message_signatures.Sfv.Collections.{parse_dictionary}
use http_message_signatures.Parser.Types.{SignatureEntry, Signatures, ComponentIdentifier}
use http_message_signatures.Parser.Signatures.{
  is_empty, signature_bytes, bytes_of_value, check_labels, collect_entries, parse_signatures,
  parse_signature_input,
}
use http_message_signatures.Base.Message.{HttpMessage}
use http_message_signatures.Base.Extract.{extract_http_field_value}
use http_message_signatures.Httpsig.Policy.{Verifier}
use http_message_signatures.Httpsig.Verifier.{choose_label, found, read_entry}
use http_message_signatures.Errors.Returns.{
  Returns, err-Returns, ok-Returns, next, error_if-Returns, wrap-Returns,
}
use http_message_signatures.Base.Returns.{dictionary-Returns, extract_http_field_value-Returns}

check_labels-Returns :
    (f : Bytes → Error) (labels : List Bytes) (values : List (Bytes × Member))
    → ((k : Bytes) → f k ≢ exhausted)
    → Returns (check_labels f labels values)
unfolding check_labels
check_labels-Returns f [] values h = ok-Returns tt
check_labels-Returns f (k ∷ labels) values h = elim (Option-cases (lookup k values)) [
  | inl e ↦ rw (e, check_labels) (err-Returns (f k) (h k))
  | inr (v, e) ↦ rw (e, check_labels) (check_labels-Returns f labels values h)
]

collect_entries-Returns :
    (make : Bytes → Outcome SignatureEntry) (labels : List Bytes) (m : Signatures)
    → Returns (collect_entries make labels m)
unfolding collect_entries
collect_entries-Returns make [] m = ok-Returns m
collect_entries-Returns make (k ∷ labels) m =
    next (wrap (failed_signature k) (make k)) _ (wrap-Returns _ (make k) (λ e x. cc))
      (λ entry. collect_entries-Returns make labels (insert k entry m))

parse_signatures-Returns : (s t : Bytes) (l : Limits) → Returns (parse_signatures s t l)
unfolding parse_signatures
parse_signatures-Returns s t l =
    next (error_if (is_empty s && is_empty t) both_headers_empty) _ (error_if-Returns _ _ (λ x. cc))
      (λ _.
        next (error_if (is_empty s) signature_input_empty) _ (error_if-Returns _ _ (λ x. cc)) (λ _.
          next (error_if (is_empty t) signature_empty) _ (error_if-Returns _ _ (λ x. cc)) (λ _.
            next (parsed bad_signature_input (parse_dictionary (new_parser s l))) _
              (dictionary-Returns _ s l (λ e x. cc))
              (λ inputs.
                next (parsed bad_signature (parse_dictionary (new_parser t l))) _
                  (dictionary-Returns _ t l (λ e x. cc))
                  (λ values.
                    next (check_labels no_signature_for_label inputs.keys values.values) _
                      (check_labels-Returns _ inputs.keys values.values (λ k x. cc))
                      (λ _.
                        next (check_labels no_signature_input_for_label values.keys inputs.values) _
                          (check_labels-Returns _ values.keys inputs.values (λ k x. cc))
                          (λ _. collect_entries-Returns _ inputs.keys [])))))))

parse_signature_input-Returns : (s : Bytes) (l : Limits) → Returns (parse_signature_input s l)
unfolding parse_signature_input
parse_signature_input-Returns s l =
    next (error_if (is_empty s) signature_input_empty) _ (error_if-Returns _ _ (λ x. cc)) (λ _.
      next (parsed bad_signature_input (parse_dictionary (new_parser s l))) _
        (dictionary-Returns _ s l (λ e x. cc)) (λ inputs. collect_entries-Returns _ inputs.keys []))

choose_label-Returns : (k : Bytes) (m : Signatures) → Returns (choose_label k m)
unfolding choose_label
choose_label-Returns [] ((k, e) ∷ []) = ok-Returns k
choose_label-Returns [] [] = err-Returns _ (λ x. cc)
choose_label-Returns [] ((k, e) ∷ p ∷ m) = err-Returns _ (λ x. cc)
choose_label-Returns (c ∷ s) m = ok-Returns (c ∷ s)

found-Returns : {A : Type 0} (e : Error) (o : Option A) → e ≢ exhausted → Returns (found e o)
found-Returns e none h = err-Returns e h
found-Returns e (some a) h = ok-Returns a

signature_bytes-Returns : (m : Option Member) → Returns (signature_bytes m)
unfolding signature_bytes
signature_bytes-Returns none = err-Returns _ (λ x. cc)
signature_bytes-Returns (some (inner_list l)) = err-Returns _ (λ x. cc)
signature_bytes-Returns (some Member.nil) = err-Returns _ (λ x. cc)
signature_bytes-Returns (some (item x)) = of_value x.value
  where
    of_value : (v : Value) → Returns (bytes_of_value v)
    of_value (Value.bytes b) = ok-Returns b
    of_value _ = err-Returns signature_not_bytes (λ x. cc)

read_entry-Returns : {Key : Type 0} (v : Verifier Key) (s t : Bytes) → Returns (read_entry v s t)
unfolding read_entry
read_entry-Returns v s t =
    next (error_if (is_empty s) signature_input_empty) _ (error_if-Returns _ _ (λ x. cc)) (λ _.
      next (error_if (is_empty t) signature_empty) _ (error_if-Returns _ _ (λ x. cc)) (λ _.
        next (parse_signature_input s v.limits) _ (parse_signature_input-Returns s v.limits)
          (λ signatures.
            next (parsed bad_signature (parse_dictionary (new_parser t v.limits))) _
              (dictionary-Returns _ t v.limits (λ e x. cc))
              (λ values.
                next (choose_label v.label signatures) _ (choose_label-Returns v.label signatures)
                  (λ k.
                    next (found (signature_not_found k) (lookup k signatures)) _
                      (found-Returns _ _ (λ x. cc))
                      (λ e.
                        next (found (no_signature_value k) (lookup k values.values)) _
                          (found-Returns _ _ (λ x. cc))
                          (λ m.
                            next (signature_bytes (some m)) _ (signature_bytes-Returns (some m))
                              (λ b. ok-Returns (k, record e { signature_value = b })))))))))

-- The readers of header fields return a result or an error of the program on every input and with
-- any limits: the parsers of Signature-Input and Signature, alone and in the verifier, and the
-- extraction of a field's value; none of them ends for want of fuel.
pub readers-Returns :
    {Key : Type 0} (v : Verifier Key) (signature_input signature : Bytes) (limits : Limits)
    (msg : HttpMessage) (c : ComponentIdentifier)
    → Returns (read_entry v signature_input signature)
      × Returns (parse_signatures signature_input signature limits)
      × Returns (parse_signature_input signature_input limits)
      × Returns (extract_http_field_value msg c)
readers-Returns v signature_input signature limits msg c = (
  read_entry-Returns v signature_input signature,
  parse_signatures-Returns signature_input signature limits,
  parse_signature_input-Returns signature_input limits,
  extract_http_field_value-Returns msg c,
)
