-- ===== src/Digest/Parse/Checked.antt =====
-- pkg/digest/parse.go: what a parsed header holds.
use http_message_signatures.Common.{
  ◌≡◌, refl, sym, ◌∙◌, inl, inr, true, false, not, ◌&&◌, Option, List, [], ◌∷◌, arith, Bool-cases,
  length, All, Bytes, equal, lookup, insert,
}
use http_message_signatures.Errors.{
  ok, parsed, >>=-eq-ok, error_if->>=, ok_inj, digest_header_empty, no_digests, bad_digest_header,
  unsupported_digest, wrong_digest_length,
}
use http_message_signatures.Sfv.Types.{Member, default_limits}
use http_message_signatures.Sfv.Lexer.{new_parser}
use http_message_signatures.Sfv.Collections.{parse_dictionary}
use http_message_signatures.Digest.Parse.{
  Digests, is_empty, is_algorithm_supported, get_expected_digest_length, has_length, digest_bytes,
  parse_digest, parse_digests, parse_content_digest,
}

-- A supported algorithm, with a digest of its length
abbrev pub IsChecked : Bytes × Bytes → Type 0
IsChecked (alg, digest) =
    (is_algorithm_supported alg ≡ true)
    × (has_length (get_expected_digest_length alg) (length digest) ≡ true)

parse_digest-IsChecked :
    (alg digest : Bytes) (value : Option Member)
    → parse_digest alg value ≡ ok digest
    → IsChecked (alg, digest)
unfolding parse_digest
parse_digest-IsChecked alg digest value h =
    let (b, e, h1) = >>=-eq-ok (digest_bytes alg value) _ h in
    let (supported, h2) =
      error_if->>= (not (is_algorithm_supported alg)) (unsupported_digest alg) _ h1 in
    let (size, h3) =
      error_if->>= (not (has_length (get_expected_digest_length alg) (length b)))
        (wrong_digest_length alg (length b)) _ h2 in
    (ground arith, rw (← ok_inj h3) (ground arith))

insert-All :
    (P : Bytes × Bytes → Type 0) (k v : Bytes) (m : Digests)
    → P (k, v)
    → All P m
    → All P (insert k v m)
unfolding insert
insert-All P k v [] h hs = (h, tt)
insert-All P k v ((j, w) ∷ m) h (i, hs) = elim (Bool-cases (equal j k)) [
  | inl e ↦ rw e (h, hs)
  | inr e ↦ rw e (i, insert-All P k v m h hs)
]

insert-given : (k v : Bytes) (m : Digests) → is_empty (insert k v m) ≡ false
unfolding insert
insert-given k v [] = refl
insert-given k v ((j, w) ∷ m) = elim (Bool-cases (equal j k)) [
  | inl e ↦ rw e refl
  | inr e ↦ rw e refl
]

parse_digests-IsChecked :
    (keys : List Bytes) (values : List (Bytes × Member)) (result out : Digests)
    → All IsChecked result
    → parse_digests keys values result ≡ ok out
    → All IsChecked out × (is_empty result && is_empty keys ≡ is_empty out)
unfolding parse_digests
parse_digests-IsChecked [] values result out h e = rw (← ok_inj e) (h, ground arith)
parse_digests-IsChecked (k ∷ keys) values result out h e =
    let (b, f, e1) = >>=-eq-ok (parse_digest k (lookup k values)) _ e in
    let (each, given) =
      parse_digests-IsChecked keys values (insert k b result) out
        (insert-All IsChecked k b result (parse_digest-IsChecked k b (lookup k values) f) h) e1 in
    let g = insert-given k b result in (each, ground arith)

-- A map that the parser of Content-Digest returns is not empty, and each of its algorithms is
-- supported, with a digest of the algorithm's length.
pub parse_content_digest-IsChecked :
    (header : Bytes) (out : Digests)
    → parse_content_digest header ≡ ok out
    → All IsChecked out × (is_empty out ≡ false)
unfolding parse_content_digest
parse_content_digest-IsChecked header out h =
    let (given, h1) = error_if->>= (is_empty header) digest_header_empty _ h in
    let (dict, e, h2) =
      >>=-eq-ok (parsed bad_digest_header (parse_dictionary (new_parser header default_limits))) _
        h1 in
    let (some_key, h3) = error_if->>= (is_empty dict.keys) no_digests _ h2 in
    let (each, left) = parse_digests-IsChecked dict.keys dict.values [] out tt h3 in
    (each, sym left ∙ some_key)
