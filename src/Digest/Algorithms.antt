-- ===== src/Digest/Algorithms.antt =====
-- pkg/digest/algorithms.go and digest.go
use http_message_signatures.Common.{List, [], ◌∷◌, ◌++◌, if◌then◌else◌, Bytes, codes, equal}
use http_message_signatures.Errors.{
  Outcome, ok, err, ◌>>=◌, wrap, unsupported_digest, failed_digester,
}

-- The digest of all bytes that were written to a `hash.Hash`, for each hash of the standard library
-- and of x/crypto/blake2b. blake2b refuses only keys, and is given none.
pub record Hashes : Type 0 where
  pub sha256 : Bytes → Bytes
  pub sha512 : Bytes → Bytes
  pub sha512_256 : Bytes → Bytes
  pub sha3_256 : Bytes → Bytes
  pub sha3_512 : Bytes → Bytes
  pub blake2b_256 : Bytes → Bytes
  pub blake2b_512 : Bytes → Bytes

-- `SupportedAlgorithms`
abbrev pub supported_algorithms : List Bytes
supported_algorithms =
    codes "sha-256"
    ∷ codes "sha-512"
    ∷ codes "sha-512/256"
    ∷ codes "sha3-256"
    ∷ codes "sha3-512"
    ∷ codes "blake2b-256"
    ∷ codes "blake2b-512"
    ∷ []

-- A `hash.Hash`: its function, and what was written to it.
pub record Digester : Type 0 where
  pub hash : Bytes → Bytes
  pub written : Bytes

-- `Write`, which never fails, and `Sum(nil)`
abbrev pub write : Bytes → Digester → Digester
write chunk h = record h { written = h.written ++ chunk }

abbrev pub sum : Digester → Bytes
sum h = h.hash h.written

abbrev pub fresh : (Bytes → Bytes) → Digester
fresh f = record { hash = f; written = [] }

module _ (hashes : Hashes) where
  -- `NewDigester`
  unfoldable pub new_digester : Bytes → Outcome Digester
  new_digester algorithm =
      if equal algorithm (codes "sha-256")
      then ok (fresh hashes.sha256)
      else if equal algorithm (codes "sha-512")
      then ok (fresh hashes.sha512)
      else if equal algorithm (codes "sha-512/256")
      then ok (fresh hashes.sha512_256)
      else if equal algorithm (codes "sha3-256")
      then ok (fresh hashes.sha3_256)
      else if equal algorithm (codes "sha3-512")
      then ok (fresh hashes.sha3_512)
      else if equal algorithm (codes "blake2b-256")
      then ok (fresh hashes.blake2b_256)
      else if equal algorithm (codes "blake2b-512")
      then ok (fresh hashes.blake2b_512)
      else err (unsupported_digest algorithm)

  -- `ComputeDigest`
  unfoldable pub compute_digest : Bytes → Bytes → Outcome Bytes
  compute_digest body algorithm = do
    h ← wrap failed_digester (new_digester algorithm)
    ok (sum (write body h))
