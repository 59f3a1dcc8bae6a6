-- ===== src/Digest/Format/Pool.antt =====
-- pkg/digest/format.go: how many distinct names come from a pool.
use http_message_signatures.Common.{
  suc, ◌≤◌, ◌≡◌, refl, ap, inl, inr, true, false, List, [], ◌∷◌, arith, if◌then◌else◌, Bool-cases,
  length, All, Bytes, equal, equal_iff,
}
use http_message_signatures.Parser.Validator.{contains}
use http_message_signatures.Digest.Format.Sorting.{Distinct}

without : Bytes → List Bytes → List Bytes
without x [] = []
without x (k ∷ keys) = if equal x k then without x keys else k ∷ without x keys

All-without :
    (P : Bytes → Type 0) (x : Bytes) (keys : List Bytes) → All P keys → All P (without x keys)
unfolding without
All-without P x [] h = tt
All-without P x (k ∷ keys) (h, hs) = elim (Bool-cases (equal x k)) [
  | inl e ↦ rw e (All-without P x keys hs)
  | inr e ↦ rw e (h, All-without P x keys hs)
]

without-Distinct : (x : Bytes) (keys : List Bytes) → Distinct keys → Distinct (without x keys)
unfolding without
without-Distinct x [] h = tt
without-Distinct x (k ∷ keys) (h, hs) = elim (Bool-cases (equal x k)) [
  | inl e ↦ rw e (without-Distinct x keys hs)
  | inr e ↦ rw e (All-without (λ j. equal k j ≡ false) x keys h, without-Distinct x keys hs)
]

-- A name that is not there takes nothing away, and one that is there is one name.
length-without_absent :
    (x : Bytes) (keys : List Bytes)
    → All (λ j. equal x j ≡ false) keys
    → length (without x keys) ≡ length keys
unfolding without
length-without_absent x [] h = refl
length-without_absent x (k ∷ keys) (h, hs) = rw h (ap suc (length-without_absent x keys hs))

length-without :
    (x : Bytes) (keys : List Bytes) → Distinct keys → length keys ≤ suc (length (without x keys))
unfolding without
length-without x [] h = omega arith
length-without x (k ∷ keys) (h, hs) = elim (Bool-cases (equal x k)) [
  | inl e ↦
      let i = (equal_iff x k).0 e in
      let absent = length-without_absent x keys (rw i h) in rw e (omega (arith, absent))
  | inr e ↦ rw e (omega (arith, length-without x keys hs))
]

without-contains :
    (x : Bytes) (pool keys : List Bytes)
    → All (λ k. contains (x ∷ pool) k ≡ true) keys
    → All (λ k. contains pool k ≡ true) (without x keys)
unfolding contains without
without-contains x pool [] h = tt
without-contains x pool (k ∷ keys) (h, hs) = elim (Bool-cases (equal x k)) [
  | inl e ↦ rw e (without-contains x pool keys hs)
  | inr e ↦ rw e (rw e at h, without-contains x pool keys hs)
]

pub length-Distinct :
    (pool keys : List Bytes)
    → Distinct keys
    → All (λ k. contains pool k ≡ true) keys
    → length keys ≤ length pool
unfolding contains
length-Distinct pool [] d h = omega arith
length-Distinct [] (k ∷ keys) d (h, hs) = cc
length-Distinct (x ∷ pool) (k ∷ keys) d h =
    let fewer =
      length-Distinct pool (without x (k ∷ keys)) (without-Distinct x (k ∷ keys) d)
        (without-contains x pool (k ∷ keys) h) in
    omega (arith, length-without x (k ∷ keys) d)
