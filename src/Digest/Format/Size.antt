-- ===== src/Digest/Format/Size.antt =====
-- pkg/digest/format.go: the length of the header of digests that the parser accepts.
use http_message_signatures.Common.{
  ℕ, ◌*◌, ◌≤◌, ◌≡◌, ap, Bool, true, false, List, [], ◌∷◌, ◌++◌, append_assoc, arith, if◌then◌else◌,
  length, length-append, All, Bytes, codes,
}
use http_message_signatures.Stdlib.Base64
use http_message_signatures.Sfv.Reads.Dictionaries.{entry_text, entries_text}
use http_message_signatures.Digest.Algorithms.{supported_algorithms}
use http_message_signatures.Digest.Parse.{
  Digests, is_algorithm_supported, get_expected_digest_length, has_length,
}
use http_message_signatures.Digest.Format.{digest_of, part}
use http_message_signatures.Digest.Format.Entries.{
  IsFound, member_of, entries, entry_text-part, All-contains,
}

length-encode : (s : Bytes) → length (Base64.encode s) ≤ 4 * length s
unfolding Base64.encode
length-encode [] = omega arith
length-encode (a ∷ []) = omega arith
length-encode (a ∷ b ∷ []) = omega arith
length-encode (a ∷ b ∷ c ∷ s) = omega (arith, length-encode s)

size_small : (alg : Bytes) (n : ℕ) → has_length (get_expected_digest_length alg) n ≡ true → n ≤ 64
unfolding get_expected_digest_length
size_small alg n h = ground arith

length-part : (k digest : Bytes) → length k ≤ 11 → length digest ≤ 64 → length (part k digest) ≤ 270
length-part k digest h i =
    let a = length-append k (codes "=:" ++ (Base64.encode digest ++ b':' ∷ [])) in
    let b = length-append (Base64.encode digest) (b':' ∷ []) in
    let c = length-encode digest in omega arith

length-front : (later : Bool) → length (if later then codes ", " else []) ≤ 2
length-front true = omega arith
length-front false = omega arith

pub length-entries_text :
    (later : Bool) (m : Digests) (keys : List Bytes)
    → All (IsFound m) keys
    → length (entries_text later (entries m keys)) ≤ 300 * length keys
unfolding entries_text entries
length-entries_text later m [] h = omega arith
length-entries_text later m (k ∷ keys) (f, h) =
    let e : digest_of k m ≡ f.digest = let i = f.found in cc in
    let short : length k ≤ 11 =
      unfold is_algorithm_supported in
      All-contains (λ j. length j ≤ 11) supported_algorithms k
        (
          omega arith,
          (
            omega arith,
            (omega arith, (omega arith, (omega arith, (omega arith, (omega arith, tt))))),
          ),
        )
        f.valid.supported in
    let d : length (digest_of k m) ≤ 64 = rw e (size_small k (length f.digest) f.valid.size) in
    let own = k ++ entry_text (member_of (digest_of k m)) in
    let more = entries_text true (entries m keys) in
    let size : length own ≤ 270 =
      rw (ap length (entry_text-part k (digest_of k m))) (length-part k (digest_of k m) short d) in
    let front : List ℕ = if later then codes ", " else [] in
    let two : length front ≤ 2 = length-front later in
    let a = length-append front (k ++ (entry_text (member_of (digest_of k m)) ++ more)) in
    let b = ap length (append_assoc k (entry_text (member_of (digest_of k m))) more) in
    let c = length-append own more in omega (arith, length-entries_text true m keys h)
