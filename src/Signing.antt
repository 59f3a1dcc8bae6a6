-- ===== src/Signing.antt =====
-- pkg/signing/algorithm.go: the Algorithm interface and the registry of algorithms. The mutex
-- around the registry makes each operation one step.
pub mod Crypto
pub mod Hmac
pub mod Rsa
pub mod Ecdsa
pub mod Ed25519
pub mod Keys
pub mod Supported
pub mod Registered
mod Tests
use http_message_signatures.Common.{
  ◌-◌, ◌/◌, Bool, true, false, not, none, some, List, [], ◌∷◌, Bytes, lookup, insert,
}
use http_message_signatures.Errors.{
  Outcome, ok, err, ◌>>=◌, ◌>>◌, error_if, algorithm_id_empty, unsupported_algorithm,
  already_registered,
}

abbrev pub is_empty : Bytes → Bool
is_empty [] = true
is_empty (_ ∷ _) = false

module _ (Key : Type 0) where
  -- `Algorithm`: what an implementation offers. Randomness in `Sign` is not modelled: it is the
  -- signature of this call.
  pub record Algorithm : Type 0 where
    pub id : Bytes
    pub sign : Bytes → Key → Outcome Bytes
    pub verify : Bytes → Bytes → Key → Outcome (Unit {0})

  abbrev pub Registry : Type 0
  Registry = List (Bytes × Algorithm)

  -- `RegisterAlgorithm`
  unfoldable pub register_algorithm : Algorithm → Registry → Outcome Registry
  register_algorithm alg registry = elim (lookup alg.id registry) [
    | none ↦ ok (insert alg.id alg registry)
    | some _ ↦ err (already_registered alg.id)
  ]

  -- `GetAlgorithm`
  unfoldable pub get_algorithm : Registry → Bytes → Outcome Algorithm
  get_algorithm registry id = do
    error_if (is_empty id) algorithm_id_empty
    elim (lookup id registry) [ none ↦ err (unsupported_algorithm id) | some alg ↦ ok alg ]
