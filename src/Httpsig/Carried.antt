-- ===== src/Httpsig/Carried.antt =====
-- pkg/httpsig/verifier.go: the entry that the two header fields carry for the verifier.
use http_message_signatures.Common.{
  ◌≡◌, refl, sym, ap, ◌∙◌, ◌↔◌, false, Option, none, some, [], ◌∷◌, Bytes, lookup,
}
use mathlib.Core.Path.{subst}
use http_message_signatures.Errors.{
  Error, ok, parsed, >>=-eq-ok, signature_input_empty, signature_empty, bad_signature,
  signature_not_found, no_signature_value, error_if->>=, ok_inj,
}
use http_message_signatures.Sfv.Types.{Value, Item, Member, Dictionary, item, inner_list}
use http_message_signatures.Sfv.Lexer.{new_parser}
use http_message_signatures.Sfv.Collections.{parse_dictionary}
use http_message_signatures.Parser.Types.{SignatureEntry, Signatures}
use http_message_signatures.Parser.Signatures.{
  parse_signature_input, signature_bytes, bytes_of_value,
}
use http_message_signatures.Httpsig.Serialize.{is_empty}
use http_message_signatures.Httpsig.Policy.{Verifier}
use http_message_signatures.Httpsig.Verifier.{choose_label, found, read_entry}

-- The label is the one that the verifier asks for, or that of the only entry.
pub data IsChosen (asked label : Bytes) (signatures : Signatures) : Type 0 where
  by_request : is_empty asked ≡ false → asked ≡ label → IsChosen asked label signatures
  alone :
      (entry : SignatureEntry)
      → asked ≡ []
      → signatures ≡ (label, entry) ∷ []
      → IsChosen asked label signatures

-- Signature-Input has an entry under the label, and Signature a byte sequence, which is the entry's
-- signature.
pub record IsCarried {Key : Type 0} (v : Verifier Key) (signature_input signature label : Bytes)
    (entry : SignatureEntry) : Type 0 where
  pub input_given : is_empty signature_input ≡ false
  pub signature_given : is_empty signature ≡ false
  pub signatures : Signatures
  pub values : Dictionary
  pub own : SignatureEntry
  pub value : Item
  pub inputs_parsed : parse_signature_input signature_input v.limits ≡ ok signatures
  pub values_parsed :
      parsed bad_signature (parse_dictionary (new_parser signature v.limits)) ≡ ok values
  pub chosen : IsChosen v.label label signatures
  pub own_found : lookup label signatures ≡ some own
  pub value_found : lookup label values.values ≡ some (item value)
  pub value_bytes : value.value ≡ Value.bytes entry.signature_value
  pub same : entry ≡ record own { signature_value = entry.signature_value }

choose_label-IsChosen :
    (asked label : Bytes) (signatures : Signatures)
    → choose_label asked signatures ≡ ok label
    → IsChosen asked label signatures
unfolding choose_label
choose_label-IsChosen [] label ((k, e) ∷ []) h = alone e refl (ap (λ j. (j, e) ∷ []) (ok_inj h))
choose_label-IsChosen [] label [] h = cc
choose_label-IsChosen [] label (p ∷ q ∷ m) h = cc
choose_label-IsChosen (c ∷ s) label m h = by_request refl (ok_inj h)

IsChosen-choose_label :
    (asked label : Bytes) (signatures : Signatures)
    → IsChosen asked label signatures
    → choose_label asked signatures ≡ ok label
unfolding choose_label
IsChosen-choose_label asked label m (alone entry e f) = rw (e, f) refl
IsChosen-choose_label [] label m (by_request h e) = cc
IsChosen-choose_label (c ∷ s) label m (by_request h e) = ap ok e

pub found-ok : {A : Type 0} (e : Error) (o : Option A) (a : A) → found e o ≡ ok a → o ≡ some a
found-ok e none a h = cc
found-ok e (some b) a h = ap some (ok_inj h)

value_of_bytes : (v : Value) (b : Bytes) → bytes_of_value v ≡ ok b → v ≡ Value.bytes b
value_of_bytes (Value.bytes c) b h = ap Value.bytes (ok_inj h)
value_of_bytes (Value.bool c) b h = cc
value_of_bytes (Value.int64 c) b h = cc
value_of_bytes (Value.int c) b h = cc
value_of_bytes (Value.token c) b h = cc
value_of_bytes (Value.string c) b h = cc
value_of_bytes Value.nil b h = cc

signature_bytes-ok :
    (m : Member) (b : Bytes)
    → signature_bytes (some m) ≡ ok b
    → (x : Item) × (m ≡ item x) × (x.value ≡ Value.bytes b)
unfolding signature_bytes
signature_bytes-ok (item x) b h = (x, refl, value_of_bytes x.value b h)
signature_bytes-ok (inner_list l) b h = cc
signature_bytes-ok Member.nil b h = cc

read_entry-IsCarried :
    {Key : Type 0} (v : Verifier Key) (signature_input signature label : Bytes)
    (entry : SignatureEntry)
    → read_entry v signature_input signature ≡ ok (label, entry)
    → IsCarried v signature_input signature label entry
unfolding read_entry
read_entry-IsCarried v signature_input signature label entry h =
    let (a, h1) = error_if->>= (is_empty signature_input) signature_input_empty _ h in
    let (b, h2) = error_if->>= (is_empty signature) signature_empty _ h1 in
    let (signatures, read, h3) = >>=-eq-ok (parse_signature_input signature_input v.limits) _ h2 in
    let (values, read1, h4) =
      >>=-eq-ok (parsed bad_signature (parse_dictionary (new_parser signature v.limits))) _ h3 in
    let (k, chosen, h5) = >>=-eq-ok (choose_label v.label signatures) _ h4 in
    let (e, given, h6) = >>=-eq-ok (found (signature_not_found k) (lookup k signatures)) _ h5 in
    let (m, given1, h7) = >>=-eq-ok (found (no_signature_value k) (lookup k values.values)) _ h6 in
    let (sig, read2, h8) = >>=-eq-ok (signature_bytes (some m)) _ h7 in
    let (x, is_item, is_bytes) = signature_bytes-ok m sig read2 in
    let pair : (k, record e { signature_value = sig }) ≡ (label, entry) = ok_inj h8 in
    let made : IsCarried v signature_input signature k (record e { signature_value = sig }) =
      record {
        input_given = a;
        signature_given = b;
        signatures = signatures;
        values = values;
        own = e;
        value = x;
        inputs_parsed = read;
        values_parsed = read1;
        chosen = choose_label-IsChosen v.label k signatures chosen;
        own_found = found-ok _ _ e given;
        value_found = found-ok _ _ m given1 ∙ ap some is_item;
        value_bytes = is_bytes;
        same = refl;
      } in
    subst (λ (p : Bytes × SignatureEntry). IsCarried v signature_input signature p.0 p.1) pair made

IsCarried-read_entry :
    {Key : Type 0} (v : Verifier Key) (signature_input signature label : Bytes)
    (entry : SignatureEntry)
    → IsCarried v signature_input signature label entry
    → read_entry v signature_input signature ≡ ok (label, entry)
unfolding read_entry signature_bytes
IsCarried-read_entry v signature_input signature label entry x =
    let chosen = IsChosen-choose_label v.label label x.signatures x.chosen in
    rw
      (
        x.input_given, x.signature_given, x.inputs_parsed, x.values_parsed, chosen, x.own_found,
        x.value_found, x.value_bytes,
      )
      (λ i. ok (label, sym x.same i))

pub read_entry_iff :
    {Key : Type 0} (v : Verifier Key) (signature_input signature label : Bytes)
    (entry : SignatureEntry)
    → (read_entry v signature_input signature ≡ ok (label, entry))
      ↔ IsCarried v signature_input signature label entry
read_entry_iff v signature_input signature label entry = (
  read_entry-IsCarried v signature_input signature label entry,
  IsCarried-read_entry v signature_input signature label entry,
)
