-- ===== src/Digest/Format/Entries.antt =====
-- pkg/digest/format.go and parse.go: the dictionary that a formatted header is, and how it is parsed.
use http_message_signatures.Common.{
  ℕ, ◌≡◌, refl, sym, ap, ◌∙◌, inl, inr, true, false, none, some, List, [], ◌∷◌, ◌++◌, append-nil,
  append_assoc, arith, Bool-cases, length, All, Bytes, IsByte, equal, equal_iff, equal_refl, lookup,
}
use http_message_signatures.Errors.{ok}
use http_message_signatures.Stdlib.Base64
use http_message_signatures.Stdlib.Strings
use http_message_signatures.Sfv.Types.{Value, Member, item, default_limits, exceeds}
use http_message_signatures.Sfv.Primitives.{is_alpha, is_digit, is_token_char}
use http_message_signatures.Sfv.Reads.Tokens.{IsToken}
use http_message_signatures.Sfv.Reads.Sequences.{IsSequence}
use http_message_signatures.Sfv.Reads.Values.{value_text}
use http_message_signatures.Sfv.Reads.Items.{parameters_text}
use http_message_signatures.Sfv.Reads.Dictionaries.{
  Entries, AreNew, IsEntry, item_entry, entry_text, entries_text,
}
use http_message_signatures.Sfv.Reads.Dictionaries.RoundTrip.{dictionary_text}
use http_message_signatures.Parser.Validator.{contains}
use http_message_signatures.Digest.Algorithms.{supported_algorithms}
use http_message_signatures.Digest.Parse.{
  Digests, is_empty, is_algorithm_supported, get_expected_digest_length, has_length,
}
use http_message_signatures.Digest.Format.{digest_of, part, format_parts}
use http_message_signatures.Digest.Format.Sorting.{Distinct}
use http_message_signatures.Digest.Format.Unordered.{names}

-- A digest that the parser accepts under this name
pub record IsDigest (alg digest : Bytes) : Type 0 where
  pub supported : is_algorithm_supported alg ≡ true
  pub size : has_length (get_expected_digest_length alg) (length digest) ≡ true
  pub each : All IsByte digest

unfoldable pub member_of : Bytes → Member
member_of digest = item (record { value = Value.bytes digest; parameters = [] })

-- The entries of the dictionary that the header is, in the order of the names
unfoldable pub entries : Digests → List Bytes → Entries
entries m [] = []
entries m (k ∷ keys) = (k, member_of (digest_of k m)) ∷ entries m keys

pub parts_of : Digests → List Bytes → List Bytes
parts_of m [] = []
parts_of m (k ∷ keys) = part k (digest_of k m) ∷ parts_of m keys

pub entry_text-part : (k digest : Bytes) → k ++ entry_text (member_of digest) ≡ part k digest
unfolding entry_text item_entry member_of value_text parameters_text
entry_text-part k digest =
    ap (λ t. k ++ b'=' ∷ b':' ∷ t) (append-nil (Base64.encode digest ++ b':' ∷ []))

pub join-parts_of :
    (k : Bytes) (keys : List Bytes) (m : Digests)
    → Strings.join (parts_of m (k ∷ keys)) ≡ dictionary_text (entries m (k ∷ keys))
unfolding Strings.join parts_of entries entries_text
join-parts_of k [] m =
    sym (entry_text-part k (digest_of k m)) ∙ ap (λ t. k ++ t) (sym (append-nil _))
join-parts_of k (j ∷ keys) m =
    rw (join-parts_of j keys m, ← entry_text-part k (digest_of k m))
      (append_assoc k (entry_text (member_of (digest_of k m))) _)

-- What holds of the members of a list holds of each name in it.
pub All-contains :
    (P : Bytes → Type 0) (keys : List Bytes) (k : Bytes) → All P keys → contains keys k ≡ true → P k
unfolding contains
All-contains P [] k h e = let x : ⊥ = cc in elim x [ ]
All-contains P (j ∷ keys) k (h, hs) e = elim (Bool-cases (equal j k)) [
  | inl same ↦ let i = (equal_iff j k).0 same in rw i at h
  | inr other ↦ All-contains P keys k hs (rw other at e)
]

pub contains-All :
    (keys pool : List Bytes)
    → ((k : Bytes) → contains keys k ≡ true → contains pool k ≡ true)
    → All (λ k. contains pool k ≡ true) keys
unfolding contains
contains-All [] pool h = tt
contains-All (j ∷ keys) pool h =
    (h j (let e = equal_refl j in ground arith), contains-All keys pool (λ k e. h k (ground arith)))

pub supported-IsToken :
    (alg : Bytes) → is_algorithm_supported alg ≡ true → IsToken default_limits alg
unfolding is_algorithm_supported is_token_char is_alpha is_digit
supported-IsToken alg h =
    All-contains (IsToken default_limits) supported_algorithms alg
      (
        (refl, refl),
        (
          (refl, refl),
          ((refl, refl), ((refl, refl), ((refl, refl), ((refl, refl), ((refl, refl), tt))))),
        ),
      )
      h

size-short :
    (alg : Bytes) (n : ℕ)
    → has_length (get_expected_digest_length alg) n ≡ true
    → exceeds 16384 n ≡ false
unfolding get_expected_digest_length
size-short alg n h = ground arith

-- A name of the map has its digest, and is one of those that the parser accepts.
pub record IsFound (m : Digests) (k : Bytes) : Type 0 where
  pub digest : Bytes
  pub found : lookup k m ≡ some digest
  pub valid : IsDigest k digest

pub names-IsFound :
    (m : Digests) (k : Bytes)
    → All (λ e. IsDigest e.0 e.1) m
    → contains (names m) k ≡ true
    → IsFound m k
unfolding contains lookup
names-IsFound [] k h e = let x : ⊥ = cc in elim x [ ]
names-IsFound ((j, d) ∷ m) k (v, h) e = elim (Bool-cases (equal j k)) [
  | inl same ↦
      let i = (equal_iff j k).0 same in
      record { digest = d; found = rw same refl; valid = rw i at v }
  | inr other ↦
      let f = names-IsFound m k h (rw other at e) in
      record { digest = f.digest; found = rw other f.found; valid = f.valid }
]

pub names-lookup : (m : Digests) (k : Bytes) → contains (names m) k ≡ false → lookup k m ≡ none
unfolding contains lookup
names-lookup [] k e = refl
names-lookup ((j, d) ∷ m) k e = ground (arith, names-lookup m k)

pub entries-IsEntry :
    (m : Digests) (keys : List Bytes)
    → All (IsFound m) keys
    → All (IsEntry default_limits) (entries m keys)
unfolding entries member_of
entries-IsEntry m [] h = tt
entries-IsEntry m (k ∷ keys) (f, h) =
    let e : f.digest ≡ digest_of k m = let i = f.found in cc in
    let v : IsSequence default_limits f.digest =
      (f.valid.each, size-short k (length f.digest) f.valid.size) in
    ((supported-IsToken k f.valid.supported, (rw e at v, (tt, refl))), entries-IsEntry m keys h)

lookup-fresh :
    (k j : Bytes) (v : Member) (before : Entries)
    → lookup k before ≡ none
    → equal j k ≡ false
    → lookup k (before ++ (j, v) ∷ []) ≡ none
unfolding lookup
lookup-fresh k j v [] h e = rw e refl
lookup-fresh k j v ((i, w) ∷ before) h e = ground (arith, lookup-fresh k j v before)

All-fresh :
    (j : Bytes) (v : Member) (before : Entries) (keys : List Bytes)
    → All (λ k. equal j k ≡ false) keys
    → All (λ k. lookup k before ≡ none) keys
    → All (λ k. lookup k (before ++ (j, v) ∷ []) ≡ none) keys
All-fresh j v before [] h i = tt
All-fresh j v before (k ∷ keys) (h, hs) (i, is) =
    (lookup-fresh k j v before i h, All-fresh j v before keys hs is)

pub entries-AreNew :
    (m : Digests) (keys : List Bytes) (before : Entries)
    → Distinct keys
    → All (λ k. lookup k before ≡ none) keys
    → AreNew before (entries m keys)
unfolding entries
entries-AreNew m [] before h i = tt
entries-AreNew m (k ∷ keys) before (h, hs) (i, is) = (
  i,
  entries-AreNew m keys (before ++ (k, member_of (digest_of k m)) ∷ []) hs
      (All-fresh k (member_of (digest_of k m)) before keys h is),
)

size-pos :
    (alg digest : Bytes)
    → has_length (get_expected_digest_length alg) (length digest) ≡ true
    → is_empty digest ≡ false
unfolding get_expected_digest_length
size-pos alg [] h = ground arith
size-pos alg (b ∷ digest) h = refl

-- Every part is made.
pub format_parts-total :
    (keys : List Bytes) (m : Digests)
    → All (IsFound m) keys
    → format_parts keys m ≡ ok (parts_of m keys)
unfolding format_parts parts_of
format_parts-total [] m h = refl
format_parts-total (k ∷ keys) m (f, h) =
    let e : f.digest ≡ digest_of k m = let i = f.found in cc in
    let given : is_empty (digest_of k m) ≡ false = rw e at (size-pos k f.digest f.valid.size) in
    rw (given, format_parts-total keys m h) refl
