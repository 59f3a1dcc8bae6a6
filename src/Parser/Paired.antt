-- ===== src/Parser/Paired.antt =====
-- pkg/parser/parser.go: the labels of the two header fields, and the entries under them.
use http_message_signatures.Common.{
  ◌≡◌, sym, ◌∙◌, inl, inr, false, ◌&&◌, none, some, List, [], ◌∷◌, arith, Bool-cases, Option-cases,
  All, Bytes, equal, equal_iff, equal_refl, lookup, insert, lookup-insert, some_inj, none-some,
}
use http_message_signatures.Errors.{
  Error, Outcome, ok, wrap, parsed, >>=-eq-ok, both_headers_empty, signature_input_empty,
  signature_empty, bad_signature_input, bad_signature, no_signature_for_label,
  no_signature_input_for_label, failed_signature, error_if->>=, ok_inj, wrap-ok, no_value,
  parsed-ok,
}
use http_message_signatures.Sfv.Types.{Limits, Dictionary, Member}
use http_message_signatures.Sfv.Lexer.{new_parser}
use http_message_signatures.Sfv.Collections.{parse_dictionary}
use http_message_signatures.Sfv.Reads.Dictionaries.{Entries, keys_of}
use http_message_signatures.Sfv.Bounded.Stored.{IsParsed}
use http_message_signatures.Sfv.Bounded.Accepted.{parse_dictionary-IsParsed}
use http_message_signatures.Sfv.Reads.Members.{IsMember}
use http_message_signatures.Sfv.Bounded.Printable.{lookup-IsMember}
use http_message_signatures.Parser.Types.{SignatureEntry, Signatures}
use http_message_signatures.Parser.Signatures.{
  is_empty, parse_signature_entry, parse_signature_entry_from_input, check_labels, collect_entries,
  parse_signatures, parse_signature_input,
}

-- Every key that is found is one of the keys.
lookup-key :
    (P : Bytes → Type 0) (k : Bytes) (v : Member) (es : Entries)
    → All P (keys_of es)
    → lookup k es ≡ some v
    → P k
unfolding lookup keys_of
lookup-key P k v [] h e = none-some e
lookup-key P k v ((j, w) ∷ es) (p, h) e = elim (Bool-cases (equal j k)) [
  | inl i ↦ let s = (equal_iff j k).0 i in rw s at p
  | inr i ↦ lookup-key P k v es h (rw i at e)
]

check_labels-All :
    (f : Bytes → Error) (labels : List Bytes) (values : List (Bytes × Member))
    → check_labels f labels values ≡ ok tt
    → All (λ k. (v : Member) × (lookup k values ≡ some v)) labels
unfolding check_labels
check_labels-All f [] values h = tt
check_labels-All f (k ∷ labels) values h = elim (Option-cases (lookup k values)) [
  | inl e ↦ let x : ⊥ = no_value (rw (e, check_labels) at h) in elim x [ ]
  | inr (v, e) ↦ ((v, e), check_labels-All f labels values (rw (e, check_labels) at h))
]

module _ (make : Bytes → Outcome SignatureEntry) where
  -- Each entry of the map is what its label gives.
  abbrev AreMade : Signatures → Type 0
  AreMade m = (k : Bytes) (e : SignatureEntry) → lookup k m ≡ some e → make k ≡ ok e

  insert-AreMade :
      (j : Bytes) (v : SignatureEntry) (m : Signatures)
      → make j ≡ ok v
      → AreMade m
      → AreMade (insert j v m)
  insert-AreMade j v m h made k e found = elim (Bool-cases (equal j k)) [
    | inl i ↦
        let same : v ≡ e = some_inj (rw (lookup-insert j k v m, i) at found) in
        let label = (equal_iff j k).0 i in rw (← same, ← label) h
    | inr i ↦ made k e (rw (lookup-insert j k v m, i) at found)
  ]

  collect_entries-AreMade :
      (labels : List Bytes) (m found : Signatures)
      → AreMade m
      → collect_entries make labels m ≡ ok found
      → AreMade found
  unfolding collect_entries
  collect_entries-AreMade [] m found made h = rw (ok_inj h) at made
  collect_entries-AreMade (j ∷ labels) m found made h =
      let (v, e, h1) = >>=-eq-ok (wrap (failed_signature j) (make j)) _ h in
      collect_entries-AreMade labels (insert j v m) found
        (insert-AreMade j v m (wrap-ok _ _ e) made) h1

  -- A label that is not found is none of the labels.
  collect_entries-absent :
      (labels : List Bytes) (m found : Signatures) (k : Bytes)
      → collect_entries make labels m ≡ ok found
      → lookup k found ≡ none
      → (lookup k m ≡ none) × All (λ j. equal j k ≡ false) labels
  unfolding collect_entries
  collect_entries-absent [] m found k h e = (rw (ok_inj h) e, tt)
  collect_entries-absent (j ∷ labels) m found k h e =
      let (v, made, h1) = >>=-eq-ok (wrap (failed_signature j) (make j)) _ h in
      let (absent, others) = collect_entries-absent labels (insert j v m) found k h1 e in
      elim (Bool-cases (equal j k)) [
        | inl i ↦ none-some (sym (rw (lookup-insert j k v m, i) at absent))
        | inr i ↦ (rw (lookup-insert j k v m, i) at absent, (i, others))
      ]

-- Under this label both fields have a member, which make the entry that is found, or neither has
-- one and none is found.
pub data IsPaired (inputs values : Dictionary) (found : Signatures) (k : Bytes) : Type 0 where
  both :
      (input value : Member) (entry : SignatureEntry)
      → lookup k inputs.values ≡ some input
      → lookup k values.values ≡ some value
      → lookup k found ≡ some entry
      → parse_signature_entry k (some input) (some value) ≡ ok entry
      → IsPaired inputs values found k
  neither :
      lookup k inputs.values ≡ none
      → lookup k values.values ≡ none
      → lookup k found ≡ none
      → IsPaired inputs values found k

-- A key of a parsed dictionary
IsParsed-key :
    (P : Bytes → Type 0) (l : Limits) (d : Dictionary) (k : Bytes) (v : Member)
    → IsParsed l d
    → All P d.keys
    → lookup k d.values ≡ some v
    → P k
IsParsed-key P l d k v x h e = lookup-key P k v x.entries (rw x.same at h) (rw x.same at e)

module _ (l : Limits) (inputs values : Dictionary) (found : Signatures) where
  abbrev make : Bytes → Outcome SignatureEntry
  make k = parse_signature_entry k (lookup k inputs.values) (lookup k values.values)

  made :
      (c : collect_entries make inputs.keys [] ≡ ok found) (k : Bytes) (e : SignatureEntry)
      → lookup k found ≡ some e
      → make k ≡ ok e
  unfolding lookup
  made c = collect_entries-AreMade make inputs.keys [] found (λ k e h. none-some h) c

  -- A label that no field has
  absent_entry :
      (c : collect_entries make inputs.keys [] ≡ ok found) (k : Bytes)
      → lookup k inputs.values ≡ none
      → lookup k found ≡ none
  unfolding lookup parse_signature_entry parse_signature_entry_from_input
  absent_entry c k h = elim (Option-cases (lookup k found)) [
    | inl e ↦ e
    | inr (v, e) ↦ let x : ⊥ = no_value (rw h at (made c k v e)) in elim x [ ]
  ]

  absent_value :
      IsParsed l values
      → All (λ k. (v : Member) × (lookup k inputs.values ≡ some v)) values.keys
      → (k : Bytes) → lookup k inputs.values ≡ none
      → lookup k values.values ≡ none
  absent_value y i k h = elim (Option-cases (lookup k values.values)) [
    | inl e ↦ e
    | inr (v, e) ↦ let (m, given) = IsParsed-key _ l values k v y i e in none-some (sym h ∙ given)
  ]

  absent_input :
      IsParsed l inputs
      → collect_entries make inputs.keys [] ≡ ok found
      → (k : Bytes) → lookup k found ≡ none
      → lookup k inputs.values ≡ none
  absent_input x c k h = elim (Option-cases (lookup k inputs.values)) [
    | inl e ↦ e
    | inr (v, e) ↦
        let others = (collect_entries-absent make inputs.keys [] found k c h).1 in
        let no = IsParsed-key (λ j. equal j k ≡ false) l inputs k v x others e in
        let z : ⊥ = ground (arith, equal_refl k, no) in elim z [ ]
  ]

  collected-IsPaired :
      IsParsed l inputs
      → IsParsed l values
      → All (λ k. (v : Member) × (lookup k values.values ≡ some v)) inputs.keys
      → All (λ k. (v : Member) × (lookup k inputs.values ≡ some v)) values.keys
      → collect_entries make inputs.keys [] ≡ ok found
      → (k : Bytes) → IsPaired inputs values found k
  collected-IsPaired x y h i c k = elim (Option-cases (lookup k inputs.values)) [
    | inl none_given ↦
        neither none_given (absent_value y i k none_given) (absent_entry c k none_given)
    | inr (m, given) ↦
        let (v, value) = IsParsed-key _ l inputs k m x h given in
        elim (Option-cases (lookup k found)) [
          | inl absent ↦ none-some (sym (absent_input x c k absent) ∙ given)
          | inr (e, e_found) ↦
              both m v e given value e_found (rw (given, value) at (made c k e e_found))
        ]
  ]

-- A member of Signature-Input, and the entry that is made of it.
pub parse_signature_input-made :
    (signature_input : Bytes) (limits : Limits) (found : Signatures) (k : Bytes)
    (e : SignatureEntry)
    → parse_signature_input signature_input limits ≡ ok found
    → lookup k found ≡ some e
    → (m : Member) × IsMember limits m × (parse_signature_entry_from_input k (some m) ≡ ok e)
unfolding parse_signature_input lookup parse_signature_entry_from_input
parse_signature_input-made signature_input limits found k e h given =
    let p = new_parser signature_input limits in
    let (a, h1) = error_if->>= (is_empty signature_input) signature_input_empty _ h in
    let (inputs, parse, h2) = >>=-eq-ok (parsed bad_signature_input (parse_dictionary p)) _ h1 in
    let (q, read) = parsed-ok bad_signature_input (parse_dictionary p) inputs parse in
    let made =
      collect_entries-AreMade (λ j. parse_signature_entry_from_input j (lookup j inputs.values))
        inputs.keys [] found (λ j x i. none-some i) h2 k e given in
    elim (Option-cases (lookup k inputs.values)) [
      | inl absent ↦ let x : ⊥ = no_value (rw absent at made) in elim x [ ]
      | inr (m, here) ↦ (m, lookup-IsMember p q inputs k m read here, rw here at made)
    ]

-- When the two fields are parsed with success, both are dictionaries, and under each label either
-- both have a member and the entry that is found is made of these two members, or neither has a
-- member and no entry is found.
pub parse_signatures-IsPaired :
    (signature_input signature : Bytes) (limits : Limits) (found : Signatures)
    → parse_signatures signature_input signature limits ≡ ok found
    → (inputs values : Dictionary) × (parsed bad_signature_input
          (parse_dictionary (new_parser signature_input limits))
        ≡ ok inputs)
      × (parsed bad_signature (parse_dictionary (new_parser signature limits)) ≡ ok values)
      × ((k : Bytes) → IsPaired inputs values found k)
unfolding parse_signatures
parse_signatures-IsPaired signature_input signature limits found h =
    let (a, h1) =
      error_if->>= (is_empty signature_input && is_empty signature) both_headers_empty _ h in
    let (b, h2) = error_if->>= (is_empty signature_input) signature_input_empty _ h1 in
    let (c, h3) = error_if->>= (is_empty signature) signature_empty _ h2 in
    let p = new_parser signature_input limits in
    let q = new_parser signature limits in
    let (inputs, e, h4) = >>=-eq-ok (parsed bad_signature_input (parse_dictionary p)) _ h3 in
    let (values, f, h5) = >>=-eq-ok (parsed bad_signature (parse_dictionary q)) _ h4 in
    let (u, given, h6) =
      >>=-eq-ok (check_labels no_signature_for_label inputs.keys values.values) _ h5 in
    let (w, known, h7) =
      >>=-eq-ok (check_labels no_signature_input_for_label values.keys inputs.values) _ h6 in
    let (p1, read) = parsed-ok bad_signature_input (parse_dictionary p) inputs e in
    let (q1, read1) = parsed-ok bad_signature (parse_dictionary q) values f in
    (
      inputs,
      values,
      e,
      f,
      collected-IsPaired limits inputs values found (parse_dictionary-IsParsed p p1 inputs read)
          (parse_dictionary-IsParsed q q1 values read1) (check_labels-All _ _ _ given)
          (check_labels-All _ _ _ known) h7,
    )
