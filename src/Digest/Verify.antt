-- ===== src/Digest/Verify.antt =====
-- pkg/digest/verify.go
pub mod Whole
pub mod Stream
use http_message_signatures.Common.{
  ◌-◌, ◌/◌, Bool, not, Option, none, some, List, [], ◌∷◌, Bytes, equal, lookup, insert,
}
use http_message_signatures.Errors.{
  Error, Outcome, ok, err, ◌>>=◌, ◌>>◌, error_if, wrap, no_required_digests, missing_digest,
  digest_mismatch, failed_digest, failed_digester_for, failed_header, read_failed,
}
use http_message_signatures.Digest.Algorithms.{
  Hashes, Digester, write, sum, new_digester, compute_digest,
}
use http_message_signatures.Digest.Parse.{Digests, is_empty, parse_content_digest}

abbrev pub found : {A : Type 0} → Error → Option A → Outcome A
found e none = err e
found e (some a) = ok a

-- An `io.Reader`: the chunks that it returns, and whether an error ends them.
pub record Reader : Type 0 where
  pub chunks : List Bytes
  pub fails : Bool

abbrev pub Digesters : Type 0
Digesters = List (Bytes × Digester)

-- A write to each of the hashers
unfoldable pub write_all : Bytes → Digesters → Digesters
write_all chunk [] = []
write_all chunk ((k, h) ∷ hs) = (k, write chunk h) ∷ write_all chunk hs

unfoldable pub copy_chunks : List Bytes → Digesters → Digesters
copy_chunks [] hs = hs
copy_chunks (chunk ∷ chunks) hs = copy_chunks chunks (write_all chunk hs)

-- `io.Copy` from the reader to the `io.MultiWriter` of the hashers
unfoldable pub copy : Reader → Digesters → Outcome Digesters
copy reader hs = do error_if reader.fails read_failed; ok (copy_chunks reader.chunks hs)

-- `subtle.ConstantTimeCompare` is equality.
abbrev pub compare_digest : Bytes → Bytes → Bytes → Outcome (Unit {0})
compare_digest algorithm actual expected =
    error_if (not (equal actual expected)) (digest_mismatch algorithm)

module _ (hashes : Hashes) where
  -- The loop of `VerifyContentDigestBytes`
  unfoldable pub verify_bytes : Bytes → Digests → List Bytes → Outcome (Unit {0})
  verify_bytes body digests [] = ok tt
  verify_bytes body digests (algorithm ∷ required) = do
    expected ← found (missing_digest algorithm) (lookup algorithm digests)
    actual ← wrap (failed_digest algorithm) (compute_digest hashes body algorithm)
    compare_digest algorithm actual expected
    verify_bytes body digests required

  -- `VerifyContentDigestBytes`
  unfoldable pub verify_content_digest_bytes : Bytes → Bytes → List Bytes → Outcome (Unit {0})
  verify_content_digest_bytes body header required = do
    error_if (is_empty required) no_required_digests
    digests ← wrap failed_header (parse_content_digest header)
    verify_bytes body digests required

  -- The first loop of `VerifyContentDigest`: a hasher for each required algorithm
  unfoldable pub create_digesters : Digests → List Bytes → Digesters → Outcome Digesters
  create_digesters digests [] hs = ok hs
  create_digesters digests (algorithm ∷ required) hs = do
    expected ← found (missing_digest algorithm) (lookup algorithm digests)
    h ← wrap (failed_digester_for algorithm) (new_digester hashes algorithm)
    create_digesters digests required (insert algorithm h hs)

abbrev pub sum_of : Option Digester → Bytes
sum_of none = []
sum_of (some h) = sum h

abbrev pub expected_of : Option Bytes → Bytes
expected_of none = []
expected_of (some b) = b

-- The last loop of `VerifyContentDigest`. Each algorithm has its hasher and its digest by now.
unfoldable pub compare_digests : Digests → Digesters → List Bytes → Outcome (Unit {0})
compare_digests digests hs [] = ok tt
compare_digests digests hs (algorithm ∷ required) = do
  compare_digest algorithm (sum_of (lookup algorithm hs)) (expected_of (lookup algorithm digests))
  compare_digests digests hs required

-- `VerifyContentDigest`
unfoldable pub verify_content_digest : Hashes → Reader → Bytes → List Bytes → Outcome (Unit {0})
verify_content_digest hashes reader header required = do
  error_if (is_empty required) no_required_digests
  digests ← wrap failed_header (parse_content_digest header)
  hs ← create_digesters hashes digests required []
  filled ← copy reader hs
  compare_digests digests filled required
