-- ===== src/Httpsig/Named.antt =====
-- pkg/httpsig/verifier.go: the algorithm that the verifier's option, the alg parameter and the
-- resolver name.
use http_message_signatures.Common.{
  ◌≡◌, refl, sym, ap, ◌∙◌, ◌⊎◌, inl, inr, true, false, not, ◌&&◌, Option, none, some, [], ◌∷◌,
  arith, Bytes, equal, equal_iff, some_inj, none-some,
}
use http_message_signatures.Errors.{
  ok, options_algorithm_mismatch, resolver_algorithm_mismatch, error_if->>=, ok_inj,
}
use http_message_signatures.Httpsig.Serialize.{is_empty}
use http_message_signatures.Httpsig.Policy.{initial_algorithm, merge_resolved_algorithm}

-- A source that names an algorithm, names this one.
abbrev pub Agrees : Bytes → Bytes → Type 0
Agrees named alg = (is_empty named ≡ true) ⊎ (named ≡ alg)

abbrev pub AgreesOption : Option Bytes → Bytes → Type 0
AgreesOption none alg = Unit {0}
AgreesOption (some named) alg = Agrees named alg

pub initial_algorithm-Agrees :
    (own : Bytes) (named : Option Bytes) (alg : Bytes)
    → initial_algorithm own named ≡ ok alg
    → Agrees own alg × AgreesOption named alg
unfolding initial_algorithm
initial_algorithm-Agrees own none alg h = (inr (ok_inj h), tt)
initial_algorithm-Agrees [] (some named) alg h = (inl refl, inr (ok_inj h))
initial_algorithm-Agrees (c ∷ s) (some named) alg h =
    let (same, h1) = error_if->>= (not (equal (c ∷ s) named)) options_algorithm_mismatch _ h in
    let e = (equal_iff (c ∷ s) named).0 (ground arith) in (inr (ok_inj h1), inr (sym e ∙ ok_inj h1))

pub merge_resolved_algorithm-Agrees :
    (own resolved alg : Bytes)
    → merge_resolved_algorithm own resolved ≡ ok alg
    → Agrees own alg × Agrees resolved alg
unfolding merge_resolved_algorithm
merge_resolved_algorithm-Agrees own [] alg h = (inr (ok_inj h), inl refl)
merge_resolved_algorithm-Agrees [] (c ∷ s) alg h = (inl refl, inr (ok_inj h))
merge_resolved_algorithm-Agrees (d ∷ t) (c ∷ s) alg h =
    let (same, h1) = error_if->>= (not (equal (d ∷ t) (c ∷ s))) resolver_algorithm_mismatch _ h in
    let e = (equal_iff (d ∷ t) (c ∷ s)).0 (ground arith) in (inr (e ∙ ok_inj h1), inr (ok_inj h1))

pub Agrees-trans : (a b c : Bytes) → Agrees a b → Agrees b c → Agrees a c
Agrees-trans a b c (inl e) k = inl e
Agrees-trans a b c (inr e) (inl n) = inl (rw e n)
Agrees-trans a b c (inr e) (inr f) = inr (e ∙ f)

pub AgreesOption-trans :
    (o : Option Bytes) (b c : Bytes) → AgreesOption o b → Agrees b c → AgreesOption o c
AgreesOption-trans none b c h k = tt
AgreesOption-trans (some a) b c h k = Agrees-trans a b c h k

-- The verifier's option, if it names an algorithm, is the alg parameter.
abbrev pub AgreesStrictly : Bytes → Option Bytes → Type 0
AgreesStrictly own none = Unit {0}
AgreesStrictly own (some named) = (is_empty own ≡ true) ⊎ (own ≡ named)

-- One of the three names the algorithm.
abbrev pub IsNamed : Bytes → Option Bytes → Bytes → Bytes → Type 0
IsNamed own named resolved alg = (own ≡ alg) ⊎ (named ≡ some alg) ⊎ (resolved ≡ alg)

pub initial_algorithm-IsNamed :
    (own : Bytes) (named : Option Bytes) (alg : Bytes)
    → initial_algorithm own named ≡ ok alg
    → AgreesStrictly own named × ((own ≡ alg) ⊎ (named ≡ some alg))
unfolding initial_algorithm
initial_algorithm-IsNamed own none alg h = (tt, inl (ok_inj h))
initial_algorithm-IsNamed [] (some named) alg h = (inl refl, inr (ap some (ok_inj h)))
initial_algorithm-IsNamed (c ∷ s) (some named) alg h =
    let (same, h1) = error_if->>= (not (equal (c ∷ s) named)) options_algorithm_mismatch _ h in
    (inr ((equal_iff (c ∷ s) named).0 (ground arith)), inl (ok_inj h1))

pub merge_resolved_algorithm-IsNamed :
    (first own resolved alg : Bytes) (named : Option Bytes)
    → (own ≡ first) ⊎ (named ≡ some first)
    → merge_resolved_algorithm first resolved ≡ ok alg
    → IsNamed own named resolved alg
unfolding merge_resolved_algorithm
merge_resolved_algorithm-IsNamed first own [] alg named (inl e) h = inl (e ∙ ok_inj h)
merge_resolved_algorithm-IsNamed first own [] alg named (inr e) h =
    inr (inl (e ∙ ap some (ok_inj h)))
merge_resolved_algorithm-IsNamed first own (c ∷ s) alg named e h =
    let (same, h1) =
      error_if->>= (not (is_empty first) && not (equal first (c ∷ s))) resolver_algorithm_mismatch _
        h in
    inr (inr (ok_inj h1))

-- A name that is not empty
agreed : (a alg : Bytes) → is_empty a ≡ false → Agrees a alg → a ≡ alg
agreed a alg n (inl e) = cc
agreed a alg n (inr e) = e

pub merge_agreed :
    (first resolved alg : Bytes)
    → Agrees first alg
    → Agrees resolved alg
    → ((resolved ≡ []) → first ≡ alg)
    → merge_resolved_algorithm first resolved ≡ ok alg
unfolding merge_resolved_algorithm
merge_agreed first [] alg a b f = ap ok (f refl)
merge_agreed [] (c ∷ s) alg a b f = ap ok (agreed (c ∷ s) alg refl b)
merge_agreed (d ∷ t) (c ∷ s) alg a b f =
    let same = agreed (d ∷ t) alg refl a ∙ sym (agreed (c ∷ s) alg refl b) in
    let e = (equal_iff (d ∷ t) (c ∷ s)).1 same in rw e (ap ok (agreed (c ∷ s) alg refl b))

not_empty : {A : Type 0} (alg : Bytes) → is_empty alg ≡ false → [] ≡ alg → A
not_empty [] n e = cc
not_empty (c ∷ s) n e = cc

some_bytes : {a b : Bytes} → some a ≡ some b → a ≡ b
some_bytes h = some_inj h

pub initial_agreed :
    (own : Bytes) (named : Option Bytes) (resolved alg : Bytes)
    → is_empty alg ≡ false
    → Agrees own alg
    → AgreesOption named alg
    → AgreesStrictly own named
    → IsNamed own named resolved alg
    → (first : Bytes) × (initial_algorithm own named ≡ ok first)
      × Agrees first alg
      × ((resolved ≡ []) → first ≡ alg)
unfolding initial_algorithm
initial_agreed [] none resolved alg n a p x (inl e) = not_empty alg n e
initial_agreed [] none resolved alg n a p x (inr (inl e)) = none-some e
initial_agreed [] none resolved alg n a p x (inr (inr e)) =
    ([], refl, inl refl, λ r. not_empty alg n (sym r ∙ e))
initial_agreed [] (some named) resolved alg n a p x (inl e) = not_empty alg n e
initial_agreed [] (some named) resolved alg n a p x (inr (inl e)) =
    (named, refl, inr (some_bytes e), λ r. some_bytes e)
initial_agreed [] (some named) resolved alg n a p x (inr (inr e)) =
    (named, refl, p, λ r. not_empty alg n (sym r ∙ e))
initial_agreed (d ∷ t) none resolved alg n a p x y =
    ((d ∷ t), refl, a, λ r. agreed (d ∷ t) alg refl a)
initial_agreed (d ∷ t) (some named) resolved alg n a p (inl x) y = cc
initial_agreed (d ∷ t) (some named) resolved alg n a p (inr x) y =
    let e = (equal_iff (d ∷ t) named).1 x in ((d ∷ t), rw e refl, a, λ r. agreed (d ∷ t) alg refl a)
