-- ===== src/Digest/Format.antt =====
-- pkg/digest/format.go
mod Sorting
mod Pool
pub mod Entries
mod Parsed
mod Size
pub mod Unordered
pub mod RoundTrip
use http_message_signatures.Common.{
  ◌+◌, ◌-◌, ◌/◌, ◌<◌, Bool, true, false, ◌&&◌, ◌||◌, none, some, List, [], ◌∷◌, ◌++◌, map, ltb,
  ◌==◌, if◌then◌else◌, Bytes, codes, lookup,
}
use http_message_signatures.Errors.{
  Outcome, ok, ◌>>=◌, ◌>>◌, error_if, digests_empty, digest_name_empty, empty_digest,
}
use http_message_signatures.Stdlib.Base64
use http_message_signatures.Stdlib.Strings
use http_message_signatures.Digest.Parse.{Digests, is_empty}

-- `a <= b` on strings
unfoldable pub le_bytes : Bytes → Bytes → Bool
le_bytes [] b = true
le_bytes (x ∷ a) [] = false
le_bytes (x ∷ a) (y ∷ b) = ltb x y || (x == y && le_bytes a b)

-- `sort.Strings`, by insertion
unfoldable pub put : Bytes → List Bytes → List Bytes
put k [] = k ∷ []
put k (j ∷ keys) = if le_bytes k j then k ∷ j ∷ keys else j ∷ put k keys

unfoldable pub sort : List Bytes → List Bytes
sort [] = []
sort (k ∷ keys) = put k (sort keys)

-- The names of the map; the empty one is an error.
unfoldable pub collect_algorithms : Digests → Outcome (List Bytes)
collect_algorithms [] = ok []
collect_algorithms ((alg, digest) ∷ digests) = do
  error_if (is_empty alg) digest_name_empty
  more ← collect_algorithms digests
  ok (alg ∷ more)

abbrev pub digest_of : Bytes → Digests → Bytes
digest_of alg digests = elim (lookup alg digests) [ none ↦ [] | some d ↦ d ]

-- One part, and the loop over the sorted names
abbrev pub part : Bytes → Bytes → Bytes
part alg digest = alg ++ (codes "=:" ++ (Base64.encode digest ++ b':' ∷ []))

unfoldable pub format_parts : List Bytes → Digests → Outcome (List Bytes)
format_parts [] digests = ok []
format_parts (alg ∷ algs) digests = do
  error_if (is_empty (digest_of alg digests)) (empty_digest alg)
  more ← format_parts algs digests
  ok (part alg (digest_of alg digests) ∷ more)

-- `FormatContentDigest`
unfoldable pub format_content_digest : Digests → Outcome Bytes
format_content_digest digests = do
  error_if (is_empty digests) digests_empty
  algorithms ← collect_algorithms digests
  parts ← format_parts (sort algorithms) digests
  ok (Strings.join parts)
