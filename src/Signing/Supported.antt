-- ===== src/Signing/Supported.antt =====
-- The `init` functions of pkg/signing, which register the algorithms, and `SupportedAlgorithms`.
pub mod Found
use http_message_signatures.Common.{◌-◌, ◌/◌, List, [], ◌∷◌, map, Bytes}
use http_message_signatures.Errors.{Outcome, ok, ◌>>=◌, ◌>>◌}
use http_message_signatures.Signing.{Algorithm, Registry, register_algorithm}
use http_message_signatures.Signing.Crypto.{Crypto, Key}
use http_message_signatures.Signing.Rsa.{rsa_pss_sha512, rsa_v1_5_sha256}
use http_message_signatures.Signing.Ecdsa.{ecdsa_p256_sha256, ecdsa_p384_sha384}
use http_message_signatures.Signing.Ed25519.{ed25519}
use http_message_signatures.Signing.Hmac.{hmac_sha256}

-- `SupportedAlgorithms`, in the order of the list that stands for the map.
unfoldable pub supported_algorithms : {Key : Type 0} → Registry Key → List Bytes
supported_algorithms [] = []
supported_algorithms ((id, alg) ∷ registry) = id ∷ supported_algorithms registry

module _ (c : Crypto) where
  -- The algorithms in the order of the files' names, which is that of their `init`.
  abbrev pub algorithms : List (Algorithm (Key c))
  algorithms =
      ecdsa_p256_sha256 c
      ∷ ecdsa_p384_sha384 c
      ∷ ed25519 c
      ∷ hmac_sha256 c
      ∷ rsa_pss_sha512 c
      ∷ rsa_v1_5_sha256 c
      ∷ []

  -- The calls of `RegisterAlgorithm`; an error is a panic.
  unfoldable pub register_all :
      List (Algorithm (Key c)) → Registry (Key c) → Outcome (Registry (Key c))
  register_all [] registry = ok registry
  register_all (alg ∷ algs) registry = do
    next ← register_algorithm (Key c) alg registry
    register_all algs next

  abbrev pub init : Outcome (Registry (Key c))
  init = register_all algorithms []
