-- ===== src/Signing/Supported/Found.antt =====
-- The registry after the `init` functions of pkg/signing.
use http_message_signatures.Common.{
  ◌≡◌, refl, sym, ◌∙◌, inl, inr, false, none, some, List, [], ◌∷◌, map, Bool-cases, Option-cases,
  All, Bytes, equal, equal_iff, equal_refl, lookup, insert, lookup-insert,
}
use http_message_signatures.Errors.{ok, >>=-eq-ok, ok_inj}
use http_message_signatures.Signing.{Algorithm, Registry, register_algorithm}
use http_message_signatures.Signing.Crypto.{Crypto, Key}
use http_message_signatures.Signing.Supported.{algorithms, register_all, init, supported_algorithms}

register_algorithm_lem :
    (K : Type 0) (alg : Algorithm K) (registry next : Registry K)
    → register_algorithm K alg registry ≡ ok next
    → (lookup alg.id registry ≡ none) × (insert alg.id alg registry ≡ next)
unfolding register_algorithm
register_algorithm_lem K alg registry next h = elim (Option-cases (lookup alg.id registry)) [
  | inr (a, e) ↦ cc (rw (e, register_algorithm) at h)
  | inl e ↦ (e, ok_inj (rw (e, register_algorithm) at h))
]

-- What a registry holds, it still holds after more registrations.
register_all_keeps :
    (c : Crypto) (algs : List (Algorithm (Key c))) (registry out : Registry (Key c)) (id : Bytes)
    (a : Algorithm (Key c))
    → register_all c algs registry ≡ ok out
    → lookup id registry ≡ some a
    → lookup id out ≡ some a
unfolding register_all
register_all_keeps c [] registry out id a h k = rw (sym (ok_inj h)) k
register_all_keeps c (alg ∷ algs) registry out id a h k =
    let (next, e, h1) = >>=-eq-ok (register_algorithm (Key c) alg registry) _ h in
    let (vacant, same) = register_algorithm_lem (Key c) alg registry next e in
    let apart : equal alg.id id ≡ false = elim (Bool-cases (equal alg.id id)) [
      | inr e ↦ e
      | inl e ↦ cc (rw ((equal_iff alg.id id).0 e) at vacant)
    ] in
    let law = rw (same, apart) at (lookup-insert alg.id id alg registry) in
    register_all_keeps c algs next out id a h1 (law ∙ k)

-- When a series of registrations succeeds, each algorithm of the series is found in the registry
-- under its own identifier.
pub register_all-found :
    (c : Crypto) (algs : List (Algorithm (Key c))) (registry out : Registry (Key c))
    → register_all c algs registry ≡ ok out
    → All (λ alg. lookup alg.id out ≡ some alg) algs
unfolding register_all
register_all-found c [] registry out h = tt
register_all-found c (alg ∷ algs) registry out h =
    let (next, e, h1) = >>=-eq-ok (register_algorithm (Key c) alg registry) _ h in
    let (vacant, same) = register_algorithm_lem (Key c) alg registry next e in
    let law = rw (same, equal_refl alg.id) at (lookup-insert alg.id alg.id alg registry) in
    (register_all_keeps c algs next out alg.id alg h1 law, register_all-found c algs next out h1)

-- The `init` functions succeed, and `SupportedAlgorithms` then lists the six identifiers.
pub init_lem :
    (c : Crypto)
    → (registry : Registry (Key c)) × (init c ≡ ok registry)
      × (supported_algorithms registry ≡ map (λ alg. alg.id) (algorithms c))
unfolding register_all register_algorithm lookup insert equal supported_algorithms
init_lem c = (_, refl, refl)
