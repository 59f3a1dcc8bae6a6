-- ===== src/Digest/Format/Sorting.antt =====
-- pkg/digest/format.go: the order of strings, and the sorted names.
use http_message_signatures.Common.{
  suc, ◌≡◌, refl, ap, ◌∙◌, inl, inr, true, false, List, [], ◌∷◌, arith, Bool-cases, length, All,
  Bytes, equal, equal_iff,
}
use mathlib.Core.List.{Permᴰ}
use mathlib.Core.List.Permᴰ
use http_message_signatures.Parser.Validator.{contains}
use http_message_signatures.Digest.Format.{le_bytes, put, sort}

le_bytes_total : (a b : Bytes) → le_bytes a b ≡ false → le_bytes b a ≡ true
unfolding le_bytes
le_bytes_total [] b h = cc
le_bytes_total (x ∷ a) [] h = refl
le_bytes_total (x ∷ a) (y ∷ b) h = ground (arith, le_bytes_total a b)

le_bytes_antisym : (a b : Bytes) → le_bytes a b ≡ true → le_bytes b a ≡ true → a ≡ b
unfolding le_bytes
le_bytes_antisym [] [] h k = refl
le_bytes_antisym [] (y ∷ b) h k = cc
le_bytes_antisym (x ∷ a) [] h k = cc
le_bytes_antisym (x ∷ a) (y ∷ b) h k = ground (arith, le_bytes_antisym a b)

le_bytes_trans : (a b c : Bytes) → le_bytes a b ≡ true → le_bytes b c ≡ true → le_bytes a c ≡ true
unfolding le_bytes
le_bytes_trans [] b c h k = refl
le_bytes_trans (x ∷ a) [] c h k = cc
le_bytes_trans (x ∷ a) (y ∷ b) [] h k = cc
le_bytes_trans (x ∷ a) (y ∷ b) (z ∷ c) h k = ground (arith, le_bytes_trans a b c)

-- Two names are put in either order.
put-put : (a b : Bytes) (s : List Bytes) → put a (put b s) ≡ put b (put a s)
unfolding put
put-put a b [] = ground (arith, le_bytes_total a b, le_bytes_total b a, le_bytes_antisym a b)
put-put a b (j ∷ s) = ground (
  arith,
  le_bytes_total a b,
  le_bytes_total b a,
  le_bytes_antisym a b,
  le_bytes_trans a b j,
  le_bytes_trans b a j,
  put-put a b s,
)

pub sort-Perm : {m n : List Bytes} → Permᴰ m n → sort m ≡ sort n
unfolding sort
sort-Perm Permᴰ.nil = refl
sort-Perm (Permᴰ.cons e d) = let i = sort-Perm d in cc
sort-Perm (Permᴰ.swap {a} {b} {a'} {b'} {l} e f) = let i = put-put a b (sort l) in cc
sort-Perm (Permᴰ.trans d e) = sort-Perm d ∙ sort-Perm e

put-IsPerm : (k : Bytes) (s : List Bytes) → Permᴰ (k ∷ s) (put k s)
unfolding put
put-IsPerm k [] = Permᴰ.refl (k ∷ [])
put-IsPerm k (j ∷ s) = elim (Bool-cases (le_bytes k j)) [
  | inl e ↦ rw e (Permᴰ.refl (k ∷ j ∷ s))
  | inr e ↦ rw e (Permᴰ.trans (Permᴰ.swap refl refl) (Permᴰ.cons refl (put-IsPerm k s)))
]

pub sort-IsPerm : (s : List Bytes) → Permᴰ s (sort s)
unfolding sort
sort-IsPerm [] = Permᴰ.nil
sort-IsPerm (k ∷ s) = Permᴰ.trans (Permᴰ.cons refl (sort-IsPerm s)) (put-IsPerm k (sort s))

-- No name stands twice.
abbrev pub Distinct : List Bytes → Type 0
Distinct [] = Unit {0}
Distinct (k ∷ s) = All (λ j. equal k j ≡ false) s × Distinct s

pub All-Perm : {A : Type 0} (P : A → Type 0) {m n : List A} → Permᴰ m n → All P m → All P n
All-Perm P Permᴰ.nil h = h
All-Perm P (Permᴰ.cons e d) (h, k) = (rw e at h, All-Perm P d k)
All-Perm P (Permᴰ.swap e f) (h, (i, k)) = (rw f at i, (rw e at h, k))
All-Perm P (Permᴰ.trans d e) h = All-Perm P e (All-Perm P d h)

equal_sym : (s t : Bytes) → equal s t ≡ false → equal t s ≡ false
equal_sym s t h = ground (arith, equal_iff s t, equal_iff t s)

pub Distinct-Perm : {m n : List Bytes} → Permᴰ m n → Distinct m → Distinct n
Distinct-Perm Permᴰ.nil h = h
Distinct-Perm (Permᴰ.cons {a} e d) (h, k) =
    (let i = All-Perm (λ x. equal a x ≡ false) d h in rw e at i, Distinct-Perm d k)
Distinct-Perm (Permᴰ.swap {a} {b} e f) ((h, i), (j, k)) =
    ((rw (e, f) at (equal_sym a b h), rw f at j), (rw e at i, k))
Distinct-Perm (Permᴰ.trans d e) h = Distinct-Perm e (Distinct-Perm d h)

pub contains-Perm : {m n : List Bytes} (k : Bytes) → Permᴰ m n → contains m k ≡ contains n k
unfolding contains
contains-Perm k Permᴰ.nil = refl
contains-Perm k (Permᴰ.cons e d) = let i = contains-Perm k d in rw (e, i) refl
contains-Perm k (Permᴰ.swap {a} {b} {l = l} e f) = rw (← e, ← f) (ground arith)
contains-Perm k (Permᴰ.trans d e) = contains-Perm k d ∙ contains-Perm k e

pub length-Perm : {m n : List Bytes} → Permᴰ m n → length m ≡ length n
length-Perm Permᴰ.nil = refl
length-Perm (Permᴰ.cons e d) = ap suc (length-Perm d)
length-Perm (Permᴰ.swap e f) = refl
length-Perm (Permᴰ.trans d e) = length-Perm d ∙ length-Perm e
