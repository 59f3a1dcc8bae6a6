-- ===== src/Digest/Format/RoundTrip.antt =====
-- pkg/digest/format.go and parse.go: from a map to its header and back.
use http_message_signatures.Common.{
  suc, ◌≤◌, ◌<◌, ◌≡◌, refl, sym, ap, ◌∙◌, inl, inr, false, none, List, [], ◌∷◌, append-nil, arith,
  if◌then◌else◌, Bool-cases, length, All, Bytes, lookup,
}
use http_message_signatures.Errors.{ok, parsed}
use http_message_signatures.Stdlib.Strings
use http_message_signatures.Sfv.Types.{Member, default_limits, exceeds}
use http_message_signatures.Sfv.Lexer.{Result, new_parser}
use http_message_signatures.Sfv.Collections.{parse_dictionary}
use http_message_signatures.Sfv.Reads.{at}
use http_message_signatures.Sfv.Reads.Tokens.{IsToken}
use http_message_signatures.Sfv.Reads.Dictionaries.{keys_of, dictionary_of, entries_text}
use http_message_signatures.Sfv.Reads.Dictionaries.RoundTrip.{
  IsDictionary, dictionary_text, parse_dictionary-Reads,
}
use http_message_signatures.Parser.Validator.{contains}
use http_message_signatures.Digest.Algorithms.{supported_algorithms}
use http_message_signatures.Digest.Parse.{
  Digests, is_empty, is_algorithm_supported, parse_digests, parse_content_digest,
}
use http_message_signatures.Digest.Format.{sort, digest_of, format_content_digest}
use http_message_signatures.Digest.Format.Sorting.{
  Distinct, All-Perm, Distinct-Perm, contains-Perm, sort-IsPerm,
}
use http_message_signatures.Digest.Format.Unordered.{
  names, AreDistinct, has_empty, has_empty-All, collect_algorithms_lem,
}
use http_message_signatures.Digest.Format.Sorting.{length-Perm}
use http_message_signatures.Digest.Format.Size.{length-entries_text}
use http_message_signatures.Digest.Format.Parsed.{parse_digests-entries}
use http_message_signatures.Digest.Format.Pool.{length-Distinct}
use http_message_signatures.Digest.Format.Entries.{
  IsDigest, IsFound, member_of, entries, parts_of, format_parts-total, join-parts_of, contains-All,
  names-IsFound, names-lookup, entries-IsEntry, entries-AreNew, supported-IsToken,
}

keys_of-entries : (m : Digests) (keys : List Bytes) → keys_of (entries m keys) ≡ keys
unfolding keys_of entries
keys_of-entries m [] = refl
keys_of-entries m (k ∷ keys) = ap (◌∷◌ k) (keys_of-entries m keys)

length-entries : (m : Digests) (keys : List Bytes) → length (entries m keys) ≡ length keys
unfolding entries
length-entries m [] = refl
length-entries m (k ∷ keys) = ap suc (length-entries m keys)

length-names : (m : Digests) → length (names m) ≡ length m
length-names [] = refl
length-names (e ∷ m) = ap suc (length-names m)

-- The text of the entries begins with a name, and is read back.
text-given :
    (m : Digests) (k : Bytes) (keys : List Bytes)
    → IsToken default_limits k
    → is_empty (dictionary_text (entries m (k ∷ keys))) ≡ false
unfolding entries entries_text
text-given m [] keys (h, i) = cc
text-given m (c ∷ k) keys h = refl

All-nothing : (keys : List Bytes) → All (λ k. lookup {V = Member} k [] ≡ none) keys
unfolding lookup
All-nothing [] = tt
All-nothing (k ∷ keys) = (refl, All-nothing keys)

read-entries :
    (m : Digests) (keys : List Bytes)
    → 0 < length keys
    → All (IsFound m) keys
    → Distinct keys
    → exceeds 128 (length keys) ≡ false
    → exceeds 65536 (length (dictionary_text (entries m keys))) ≡ false
    → parse_content_digest (dictionary_text (entries m keys))
      ≡ parse_digests keys (entries m keys) []
unfolding parse_content_digest entries
read-entries m [] some_key h d few short = let x : ⊥ = omega (arith, some_key) in elim x [ ]
read-entries m (k ∷ keys) some_key h d few short =
    let es = entries m (k ∷ keys) in
    let e : Bytes × Member = (k, member_of (digest_of k m)) in
    let is : IsDictionary default_limits es = record {
      each = entries-IsEntry m (k ∷ keys) h;
      distinct = entries-AreNew m (k ∷ keys) [] d (All-nothing (k ∷ keys));
      few = rw (length-entries m (k ∷ keys)) few;
    } in
    let read : parse_dictionary (new_parser (dictionary_text es) default_limits)
        ≡ Result.ok (dictionary_of es, at default_limits (dictionary_text es) []) =
      rw (append-nil (dictionary_text es)) at (
        parse_dictionary-Reads default_limits e (entries m keys) [] is refl
          (rw (append-nil (dictionary_text es)) short)) in
    rw
      (
        text-given m k keys (supported-IsToken k h.0.valid.supported),
        read,
        keys_of-entries m (k ∷ keys),
      )
      refl

joined :
    (m : Digests) (keys : List Bytes)
    → 0 < length keys
    → Strings.join (parts_of m keys) ≡ dictionary_text (entries m keys)
joined m [] h = let x : ⊥ = omega (arith, h) in elim x [ ]
joined m (k ∷ keys) h = join-parts_of k keys m

is_empty-length : (m : Digests) → is_empty m ≡ false → 0 < length m
is_empty-length [] h = cc
is_empty-length (x ∷ m) h = omega arith

-- A name that is not among the names has no digest.
known :
    (m : Digests) (keys : List Bytes) (k : Bytes)
    → contains (names m) k ≡ contains keys k
    → (if contains keys k then lookup k m else lookup k []) ≡ lookup k m
unfolding lookup
known m keys k same = elim (Bool-cases (contains keys k)) [
  | inl e ↦ rw e refl
  | inr e ↦ rw e (sym (names-lookup m k (same ∙ e)))
]

All-map :
    {P Q : Bytes → Type 0} (keys : List Bytes) → ((k : Bytes) → P k → Q k) → All P keys → All Q keys
All-map [] f h = tt
All-map (k ∷ keys) f (h, hs) = (f k h, All-map keys f hs)

supported-given : (k : Bytes) → IsToken default_limits k → is_empty k ≡ false
supported-given [] (h, i) = cc
supported-given (c ∷ k) h = refl

-- For a map that is not empty, with distinct supported algorithms and digests of their lengths, a
-- Content-Digest field is written, and parsing it succeeds with a map in which each algorithm has
-- the same digest, and no other has one.
pub parse_content_digest-format_content_digest :
    (m : Digests)
    → is_empty m ≡ false
    → AreDistinct m
    → All (λ e. IsDigest e.0 e.1) m
    → (text : Bytes) × (format_content_digest m ≡ ok text)
      × ((out : Digests) × (parse_content_digest text ≡ ok out)
          × ((k : Bytes) → lookup k out ≡ lookup k m))
unfolding format_content_digest is_algorithm_supported
parse_content_digest-format_content_digest m given distinct valid =
    let keys = sort (names m) in
    let perm = sort-IsPerm (names m) in
    let size : length keys ≡ length m = sym (length-Perm perm) ∙ length-names m in
    let some_key : 0 < length keys = let i = is_empty-length m given in omega arith in
    let own : All (IsFound m) (names m) =
      All-map (names m) (λ k c. names-IsFound m k valid c)
        (contains-All (names m) (names m) (λ k c. c)) in
    let found = All-Perm (IsFound m) perm own in
    let named : has_empty m ≡ false =
      has_empty-All m (
        All-map (names m) (λ k f. supported-given k (supported-IsToken k f.valid.supported)) own) in
    let seven : length keys ≤ 7 =
      length-Distinct supported_algorithms keys (Distinct-Perm perm distinct)
        (All-map keys (λ k f. f.valid.supported) found) in
    let written = joined m keys some_key in
    let short = length-entries_text false m keys found in
    let (out, parsed, law) =
      parse_digests-entries m keys keys [] found (contains-All keys keys (λ k c. c)) in
    (
      Strings.join (parts_of m keys),
      rw (given, collect_algorithms_lem m, named, format_parts-total keys m found) refl,
      (
        out,
        rw written (
            read-entries m keys some_key found (Distinct-Perm perm distinct) (ground arith)
              (ground arith)
            ∙ parsed),
        λ k. law k ∙ known m keys k (contains-Perm k perm),
      ),
    )
