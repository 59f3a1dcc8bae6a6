-- ===== src/Digest/Parse.antt =====
-- pkg/digest/parse.go
pub mod Checked
use http_message_signatures.Common.{
  ℕ, Bool, true, false, not, ◌||◌, Option, none, some, List, [], ◌∷◌, ◌==◌, if◌then◌else◌, length,
  Bytes, codes, equal, lookup, insert,
}
use http_message_signatures.Errors.{
  Outcome, ok, err, ◌>>=◌, ◌>>◌, error_if, parsed, digest_header_empty, no_digests,
  bad_digest_header, digest_not_item, digest_not_bytes, unsupported_digest, wrong_digest_length,
}
use http_message_signatures.Sfv.Types.{Value, Member, item, default_limits}
use http_message_signatures.Sfv.Lexer.{new_parser}
use http_message_signatures.Sfv.Collections.{parse_dictionary}
use http_message_signatures.Parser.Validator.{contains}
use http_message_signatures.Digest.Algorithms.{supported_algorithms}

-- The map from algorithms to digests
abbrev pub Digests : Type 0
Digests = List (Bytes × Bytes)

-- `isAlgorithmSupported`
unfoldable pub is_algorithm_supported : Bytes → Bool
is_algorithm_supported algorithm = contains supported_algorithms algorithm

-- `getExpectedDigestLength`; its -1, which no length is, is `none`.
unfoldable pub get_expected_digest_length : Bytes → Option ℕ
get_expected_digest_length algorithm =
    if equal algorithm (codes "sha-256")
      || equal algorithm (codes "sha-512/256")
      || equal algorithm (codes "sha3-256")
      || equal algorithm (codes "blake2b-256")
    then some 32
    else if equal algorithm (codes "sha-512")
        || equal algorithm (codes "sha3-512")
        || equal algorithm (codes "blake2b-512")
    then some 64
    else none

abbrev pub has_length : Option ℕ → ℕ → Bool
has_length none n = false
has_length (some m) n = n == m

abbrev bytes_value : Bytes → Value → Outcome Bytes
bytes_value algorithm (Value.bytes b) = ok b
bytes_value algorithm _ = err (digest_not_bytes algorithm)

-- The bytes in a member; a missing one reads as nil.
unfoldable pub digest_bytes : Bytes → Option Member → Outcome Bytes
digest_bytes algorithm (some (item x)) = bytes_value algorithm x.value
digest_bytes algorithm _ = err (digest_not_item algorithm)

-- One round of the loop of `ParseContentDigest`
unfoldable pub parse_digest : Bytes → Option Member → Outcome Bytes
parse_digest algorithm value = do
  b ← digest_bytes algorithm value
  error_if (not (is_algorithm_supported algorithm)) (unsupported_digest algorithm)
  error_if (not (has_length (get_expected_digest_length algorithm) (length b)))
      (wrong_digest_length algorithm (length b))
  ok b

-- The loop, over the keys of the dictionary
unfoldable pub parse_digests : List Bytes → List (Bytes × Member) → Digests → Outcome Digests
parse_digests [] values result = ok result
parse_digests (algorithm ∷ keys) values result = do
  b ← parse_digest algorithm (lookup algorithm values)
  parse_digests keys values (insert algorithm b result)

abbrev pub is_empty {ℓ} : {A : Type ℓ} → List A → Bool
is_empty [] = true
is_empty (_ ∷ _) = false

-- `ParseContentDigest`
unfoldable pub parse_content_digest : Bytes → Outcome Digests
parse_content_digest header = do
  error_if (is_empty header) digest_header_empty
  dict ← parsed bad_digest_header (parse_dictionary (new_parser header default_limits))
  error_if (is_empty dict.keys) no_digests
  parse_digests dict.keys dict.values []
