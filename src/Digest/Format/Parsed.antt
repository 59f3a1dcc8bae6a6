-- ===== src/Digest/Format/Parsed.antt =====
-- pkg/digest/parse.go: what the loop of the parser makes of the entries of a formatted header.
use http_message_signatures.Common.{
  ◌≡◌, refl, ap, ◌∙◌, inl, inr, true, ◌||◌, some, List, [], ◌∷◌, if◌then◌else◌, Bool-cases, All,
  Bytes, equal, equal_iff, lookup, insert, lookup-insert,
}
use http_message_signatures.Errors.{ok}
use http_message_signatures.Parser.Validator.{contains}
use http_message_signatures.Digest.Parse.{Digests, digest_bytes, parse_digest, parse_digests}
use http_message_signatures.Digest.Format.{digest_of}
use http_message_signatures.Digest.Format.Entries.{IsFound, member_of, entries}

lookup-entries :
    (m : Digests) (keys : List Bytes) (k : Bytes)
    → contains keys k ≡ true
    → lookup k (entries m keys) ≡ some (member_of (digest_of k m))
unfolding contains lookup entries
lookup-entries m [] k e = cc
lookup-entries m (j ∷ keys) k e = elim (Bool-cases (equal j k)) [
  | inl same ↦ let i = (equal_iff j k).0 same in rw (same, i) refl
  | inr other ↦ rw other (lookup-entries m keys k (rw other at e))
]

parse_digest-IsFound :
    (m : Digests) (k : Bytes) (f : IsFound m k)
    → parse_digest k (some (member_of (digest_of k m))) ≡ ok f.digest
unfolding parse_digest digest_bytes member_of
parse_digest-IsFound m k f =
    let e : digest_of k m ≡ f.digest = let i = f.found in cc in
    ap (λ d. parse_digest k (some (member_of d))) e ∙ rw (f.valid.supported, f.valid.size) refl

-- The name in front is found in the result, and the others as they were.
insert-law :
    (j : Bytes) (keys : List Bytes) (m result : Digests) (f : IsFound m j) (k : Bytes)
    → (if contains keys k then lookup k m else lookup k (insert j f.digest result))
      ≡ (if equal j k || contains keys k then lookup k m else lookup k result)
insert-law j keys m result f k =
    rw (lookup-insert j k f.digest result) (elim (Bool-cases (equal j k)) [
      | inl same ↦
          let i = (equal_iff j k).0 same in
          let g : lookup k m ≡ some f.digest = rw i at f.found in
          elim (Bool-cases (contains keys k)) [
            | inl e ↦ rw (same, e) refl
            | inr e ↦ rw (same, e, g) refl
          ]
      | inr other ↦ rw other refl
    ])

pub parse_digests-entries :
    (m : Digests) (pool keys : List Bytes) (result : Digests)
    → All (IsFound m) keys
    → All (λ k. contains pool k ≡ true) keys
    → (out : Digests) × (parse_digests keys (entries m pool) result ≡ ok out)
      × ((k : Bytes) → lookup k out ≡ (if contains keys k then lookup k m else lookup k result))
unfolding parse_digests contains
parse_digests-entries m pool [] result h i = (result, refl, λ k. refl)
parse_digests-entries m pool (j ∷ keys) result (f, h) (c, i) =
    let (out, e, law) = parse_digests-entries m pool keys (insert j f.digest result) h i in
    (
      out,
      rw (lookup-entries m pool j c, parse_digest-IsFound m j f) e,
      λ k. law k ∙ insert-law j keys m result f k,
    )
