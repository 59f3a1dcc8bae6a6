-- ===== src/Httpsig/Policy.antt =====
-- pkg/httpsig/verifier.go: the options of a verifier, and the choice of key and algorithm.
use http_message_signatures.Common.{
  Bool, true, false, not, ◌&&◌, Option, none, some, List, [], ◌∷◌, if◌then◌else◌, Bytes, equal,
}
use http_message_signatures.Errors.{
  Outcome, ok, err, ◌>>=◌, ◌>>◌, error_if, key_and_resolver, key_or_resolver_required,
  verification_key_required, algorithm_required_for_verification, options_algorithm_mismatch,
  resolver_algorithm_mismatch, algorithm_not_allowed,
}
use http_message_signatures.Sfv.Types.{Limits, default_limits}
use http_message_signatures.Parser.Types.{ComponentIdentifier, SignatureParams, SignatureEntry}
use http_message_signatures.Parser.Times.{ParamsValidation}
use http_message_signatures.Parser.Validator.{contains}
use http_message_signatures.Httpsig.Serialize.{is_empty}

-- `VerifyResult`
pub record VerifyResult : Type 0 where
  pub label : Bytes
  pub entry : SignatureEntry
  pub signature_base : Bytes

module _ (Key : Type 0) where
  -- `KeyResolver`: its one method, whose context is not modelled. A nil key is `none`.
  abbrev pub KeyResolver : Type 0
  KeyResolver = Bytes → SignatureParams → Outcome (Option Key × Bytes)

  -- `VerifyOptions`
  pub record VerifyOptions : Type 0 where
    pub label : Bytes
    pub required_components : List ComponentIdentifier
    pub allowed_algorithms : List Bytes
    pub key : Option Key
    pub algorithm : Bytes
    pub key_resolver : Option KeyResolver
    pub params_validation : ParamsValidation
    pub limits : Option Limits

  -- `Verifier`; the set of allowed algorithms is a list.
  pub record Verifier : Type 0 where
    pub label : Bytes
    pub required_components : List ComponentIdentifier
    pub allowed_algorithms : List Bytes
    pub key : Option Key
    pub algorithm : Bytes
    pub key_resolver : Option KeyResolver
    pub params_validation : ParamsValidation
    pub limits : Limits

abbrev is_some : {A : Type 0} → Option A → Bool
is_some none = false
is_some (some a) = true

-- `NewVerifier`
unfoldable pub new_verifier : {Key : Type 0} → VerifyOptions Key → Outcome (Verifier Key)
new_verifier opts = do
  error_if (is_some opts.key_resolver && is_some opts.key) key_and_resolver
  error_if (not (is_some opts.key_resolver) && not (is_some opts.key)) key_or_resolver_required
  ok (record {
    label = opts.label;
    required_components = opts.required_components;
    allowed_algorithms = opts.allowed_algorithms;
    key = opts.key;
    algorithm = opts.algorithm;
    key_resolver = opts.key_resolver;
    params_validation = opts.params_validation;
    limits = elim opts.limits [ none ↦ default_limits | some l ↦ l ];
  })

-- `initialAlgorithm`, with the verifier's own algorithm and the parameter `alg`.
unfoldable pub initial_algorithm : Bytes → Option Bytes → Outcome Bytes
initial_algorithm own none = ok own
initial_algorithm own (some alg) = do
  error_if (not (is_empty own) && not (equal own alg)) options_algorithm_mismatch
  ok (if is_empty own then alg else own)

-- `mergeResolvedAlgorithm`
unfoldable pub merge_resolved_algorithm : Bytes → Bytes → Outcome Bytes
merge_resolved_algorithm alg resolved = if is_empty resolved then ok alg else do
  error_if (not (is_empty alg) && not (equal alg resolved)) resolver_algorithm_mismatch
  ok resolved

abbrev pub present : {Key : Type 0} → Option Key → Outcome Key
present none = err verification_key_required
present (some k) = ok k

abbrev pub none_allowed : List Bytes → Bool
none_allowed [] = true
none_allowed (_ ∷ _) = false

module _ {Key : Type 0} (v : Verifier Key) where
  -- `resolveKey`
  unfoldable pub resolve_key : Bytes → SignatureParams → Outcome (Option Key × Bytes)
  resolve_key label params = elim v.key_resolver [
    | none ↦ ok (v.key, [])
    | some resolve ↦ resolve label params
  ]

  -- `resolveKeyAndAlgorithm`
  unfoldable pub resolve_key_and_algorithm : Bytes → SignatureParams → Outcome (Key × Bytes)
  resolve_key_and_algorithm label params = do
    own ← initial_algorithm v.algorithm params.algorithm
    (found, resolved) ← resolve_key label params
    key ← present found
    alg ← merge_resolved_algorithm own resolved
    error_if (is_empty alg) algorithm_required_for_verification
    error_if (not (none_allowed v.allowed_algorithms) && not (contains v.allowed_algorithms alg))
        (algorithm_not_allowed alg)
    ok (key, alg)
