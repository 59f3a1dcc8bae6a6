-- ===== src/Sfv/Bounded/Decoded.antt =====
-- pkg/sfv/primitives.go: what base64 text decodes to.
use http_message_signatures.Common.{
  ℕ, ◌≡◌, refl, ◌∙◌, inl, inr, ◌&&◌, Option, none, some, [], ◌∷◌, arith, ◌==◌, Bool-cases,
  Option-cases, All, Bytes, IsByte, some_inj, none-some,
}
use http_message_signatures.Stdlib.Base64
use http_message_signatures.Stdlib.Base64.{◌>>=◌, decode_std, decode_raw, decode_digit}
use http_message_signatures.Sfv.Primitives.{decode_base64}

-- Inversion of a step of the decoder that succeeds
step-some :
    {A B : Type 0} (m : Option A) (f : A → Option B) {b : B}
    → (m >>= f) ≡ some b
    → (a : A) × (m ≡ some a) × (f a ≡ some b)
step-some none f h = let x : ⊥ = cc in elim x [ ]
step-some (some a) f h = (a, refl, h)

-- What a group of digits decodes to is bytes.
pair-IsByte : (w x : ℕ) (out : Bytes) → Base64.pair w x ≡ some out → All IsByte out
pair-IsByte w x out h =
    let (d, _, h1) = step-some (decode_digit w) _ h in
    let (e, _, h2) = step-some (decode_digit x) _ h1 in rw (← some_inj h2) (omega arith, tt)

triple-IsByte : (w x y : ℕ) (out : Bytes) → Base64.triple w x y ≡ some out → All IsByte out
triple-IsByte w x y out h =
    let (d, _, h1) = step-some (decode_digit w) _ h in
    let (e, _, h2) = step-some (decode_digit x) _ h1 in
    let (g, _, h3) = step-some (decode_digit y) _ h2 in
    rw (← some_inj h3) (omega arith, (omega arith, tt))

quantum-IsByte :
    (w x y z : ℕ) (rest : Option Bytes) (out : Bytes)
    → ((more : Bytes) → rest ≡ some more → All IsByte more)
    → Base64.quantum w x y z rest ≡ some out
    → All IsByte out
quantum-IsByte w x y z rest out k h =
    let (d, _, h1) = step-some (decode_digit w) _ h in
    let (e, _, h2) = step-some (decode_digit x) _ h1 in
    let (g, _, h3) = step-some (decode_digit y) _ h2 in
    let (i, _, h4) = step-some (decode_digit z) _ h3 in
    let (more, j, h5) = step-some rest _ h4 in
    rw (← some_inj h5) (omega arith, (omega arith, (omega arith, k more j)))

decode_std-IsByte : (s out : Bytes) → decode_std s ≡ some out → All IsByte out
unfolding decode_std
decode_std-IsByte [] out h = rw (← some_inj h) tt
decode_std-IsByte (w ∷ []) out h = none-some h
decode_std-IsByte (w ∷ x ∷ []) out h = none-some h
decode_std-IsByte (w ∷ x ∷ y ∷ []) out h = none-some h
decode_std-IsByte (w ∷ x ∷ y ∷ z ∷ s) out h = elim (Bool-cases (y == b'=')) [
  | inl e ↦ elim (Bool-cases (z == b'=' && Base64.is_empty s)) [
    | inl f ↦ pair-IsByte w x out (rw (e, f) at h)
    | inr f ↦ none-some (rw (e, f) at h)
  ]
  | inr e ↦ elim (Bool-cases (z == b'=')) [
    | inl f ↦ elim (Bool-cases (Base64.is_empty s)) [
      | inl g ↦ triple-IsByte w x y out (rw (e, f, g) at h)
      | inr g ↦ none-some (rw (e, f, g) at h)
    ]
    | inr f ↦
        quantum-IsByte w x y z (decode_std s) out (λ more k. decode_std-IsByte s more k)
          (rw (e, f) at h)
  ]
]

decode_raw-IsByte : (s out : Bytes) → decode_raw s ≡ some out → All IsByte out
unfolding decode_raw
decode_raw-IsByte [] out h = rw (← some_inj h) tt
decode_raw-IsByte (w ∷ []) out h = none-some h
decode_raw-IsByte (w ∷ x ∷ []) out h = pair-IsByte w x out h
decode_raw-IsByte (w ∷ x ∷ y ∷ []) out h = triple-IsByte w x y out h
decode_raw-IsByte (w ∷ x ∷ y ∷ z ∷ s) out h =
    quantum-IsByte w x y z (decode_raw s) out (λ more k. decode_raw-IsByte s more k) h

pub decode_base64-IsByte : (s out : Bytes) → decode_base64 s ≡ some out → All IsByte out
unfolding decode_base64
decode_base64-IsByte s out h = elim (Option-cases (decode_std s)) [
  | inl e ↦ decode_raw-IsByte s out (rw (e, decode_base64) at h)
  | inr (b, e) ↦
      decode_std-IsByte s out (let i : some b ≡ some out = rw (e, decode_base64) at h in e ∙ i)
]
