-- ===== src/Signing/Registered.antt =====
-- The registry of pkg/signing/algorithm.go: what is found after a registration.
use http_message_signatures.Common.{
  ◌≡◌, refl, sym, inl, inr, none, if◌then◌else◌, Bool-cases, Option-cases, Bytes, equal, lookup,
  insert, lookup-insert,
}
use http_message_signatures.Errors.{ok, err, algorithm_id_empty}
use http_message_signatures.Signing.{
  Algorithm, Registry, register_algorithm, get_algorithm, is_empty,
}

-- A registration that succeeds adds the algorithm under its own id, which was free, and changes
-- what no other id finds.
pub get_algorithm-register_algorithm :
    (Key : Type 0) (alg : Algorithm Key) (registry next : Registry Key) (id : Bytes)
    → register_algorithm Key alg registry ≡ ok next
    → (get_algorithm Key next id ≡ (
        if is_empty id
        then err algorithm_id_empty
        else if equal alg.id id
        then ok alg
        else get_algorithm Key registry id))
      × (lookup alg.id registry ≡ none)
unfolding register_algorithm get_algorithm
get_algorithm-register_algorithm Key alg registry next id h =
    elim (Option-cases (lookup alg.id registry)) [
      | inr (a, e) ↦ let h' = rw (e, register_algorithm) at h in cc
      | inl e ↦
          let h' : ok (insert alg.id alg registry) ≡ ok next = rw (e, register_algorithm) at h in
          let same : insert alg.id alg registry ≡ next = cc in
          (
            rw (sym same, lookup-insert alg.id id alg registry)
                (elim (Bool-cases (is_empty id)) [
                  | inl vacant ↦ rw vacant refl
                  | inr given ↦ elim (Bool-cases (equal alg.id id)) [
                    | inl own ↦ rw (given, own) refl
                    | inr other ↦ rw (given, other) refl
                  ]
                ]),
            e,
          )
    ]
