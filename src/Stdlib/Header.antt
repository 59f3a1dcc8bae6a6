-- ===== src/Stdlib/Header.antt =====
-- `net/http.Header`: a map from canonical names to values.
use http_message_signatures.Common.{
  ℕ, ◌+◌, ◌-◌, ◌≡◌, refl, ap, ◌∙◌, inl, inr, Bool, true, false, not, ◌&&◌, ◌||◌, Option, none, some,
  List, [], ◌∷◌, leb, ◌==◌, if◌then◌else◌, Bool-cases, all, Bytes, codes, equal, lookup, insert,
  lookup-insert,
}

abbrev pub Header : Type 0
Header = List (Bytes × List Bytes)

-- A byte of a token of RFC 7230.
unfoldable pub is_field_byte : ℕ → Bool
is_field_byte c =
    leb b'a' c && leb c b'z'
    || leb b'A' c && leb c b'Z'
    || leb b'0' c && leb c b'9'
    || c == b'!'
    || leb b'#' c && leb c b'\''
    || c == b'*'
    || c == b'+'
    || c == b'-'
    || c == b'.'
    || c == b'^'
    || c == b'_'
    || c == b'`'
    || c == b'|'
    || c == b'~'

-- The flag is `upper`: the next letter is a capital.
unfoldable pub canonical : Bool → Bytes → Bytes
canonical upper [] = []
canonical upper (c ∷ s) =
    let d =
      (if upper && (leb b'a' c && leb c b'z')
        then c - 32
        else if not upper && (leb b'A' c && leb c b'Z')
        then c + 32
        else c) in
    d ∷ canonical (d == b'-') s

-- `http.CanonicalHeaderKey`
unfoldable pub canonical_header_key : Bytes → Bytes
unfolding canonical is_field_byte
canonical_header_key name = if all is_field_byte name then canonical true name else name

-- `h[http.CanonicalHeaderKey(name)]`
unfoldable pub values_of : Header → Bytes → List Bytes
values_of h name = elim (lookup (canonical_header_key name) h) [ none ↦ [] | some vs ↦ vs ]

-- `h.Get(name)`
unfoldable pub get : Header → Bytes → Bytes
unfolding values_of
get h name = elim (values_of h name) [ [] ↦ [] | ◌∷◌ v vs ↦ v ]

-- `h.Set(name, value)`
unfoldable pub set : Header → Bytes → Bytes → Header
set h name value = insert (canonical_header_key name) (value ∷ []) h

canonical_runs : canonical_header_key (codes "signature-INPUT") ≡ codes "Signature-Input"
unfolding canonical_header_key
canonical_runs = refl

pub get-set :
    (h : Header) (name value other : Bytes)
    → get (set h name value) other ≡ (
        if equal (canonical_header_key name) (canonical_header_key other)
        then value
        else get h other)
unfolding get set values_of
get-set h name value other =
    let a = canonical_header_key name in
    let b = canonical_header_key other in
    let values : Option (List Bytes) → List Bytes = λ o. elim o [ none ↦ [] | some vs ↦ vs ] in
    let front : List Bytes → Bytes = λ vs. elim vs [ [] ↦ [] | ◌∷◌ v ws ↦ v ] in
    ap (λ o. front (values o)) (lookup-insert a b (value ∷ []) h)
    ∙ (elim (Bool-cases (equal a b)) [ inl same ↦ rw same refl | inr apart ↦ rw apart refl ])

pub values_of-set :
    (h : Header) (name value other : Bytes)
    → equal (canonical_header_key name) (canonical_header_key other) ≡ false
    → values_of (set h name value) other ≡ values_of h other
unfolding set values_of
values_of-set h name value other apart =
    let values : Option (List Bytes) → List Bytes = λ o. elim o [ none ↦ [] | some vs ↦ vs ] in
    let a = canonical_header_key name in
    let b = canonical_header_key other in
    let kept : lookup b (insert a (value ∷ []) h) ≡ lookup b h =
      rw apart at (lookup-insert a b (value ∷ []) h) in
    ap values kept
