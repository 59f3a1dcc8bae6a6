-- ===== src/Digest/Format/Unordered.antt =====
-- pkg/digest/format.go: the header, and the order in which the map is iterated.
use http_message_signatures.Common.{
  ◌≡◌, refl, ap, ◌∙◌, inl, inr, Bool, false, ◌||◌, List, [], ◌∷◌, map, arith, if◌then◌else◌,
  Bool-cases, All, Bytes, equal_iff, lookup,
}
use http_message_signatures.Errors.{ok, err, ◌>>=◌, ◌>>◌, error_if, digest_name_empty, empty_digest}
use mathlib.Core.List.{Permᴰ}
use http_message_signatures.Digest.Parse.{Digests, is_empty}
use http_message_signatures.Digest.Format.{
  sort, collect_algorithms, digest_of, part, format_parts, format_content_digest,
}
use http_message_signatures.Digest.Format.Sorting.{Distinct, Distinct-Perm, sort-Perm}

abbrev pub names : Digests → List Bytes
names m = map (λ e. e.0) m

-- No key stands for two entries.
abbrev pub AreDistinct : Digests → Type 0
AreDistinct m = Distinct (names m)

-- Some key is empty.
pub has_empty : Digests → Bool
has_empty [] = false
has_empty ((k, d) ∷ m) = is_empty k || has_empty m

has_empty-Perm : {m n : Digests} → Permᴰ m n → has_empty m ≡ has_empty n
unfolding has_empty
has_empty-Perm Permᴰ.nil = refl
has_empty-Perm (Permᴰ.cons e d) = let i = has_empty-Perm d in rw (e, i) refl
has_empty-Perm (Permᴰ.swap {a} {b} {l = l} e f) = rw (← e, ← f) (ground arith)
has_empty-Perm (Permᴰ.trans d e) = has_empty-Perm d ∙ has_empty-Perm e

names-Perm : {m n : Digests} → Permᴰ m n → Permᴰ (names m) (names n)
names-Perm Permᴰ.nil = Permᴰ.nil
names-Perm (Permᴰ.cons e d) = Permᴰ.cons (ap (λ x. x.0) e) (names-Perm d)
names-Perm (Permᴰ.swap e f) = Permᴰ.swap (ap (λ x. x.0) e) (ap (λ x. x.0) f)
names-Perm (Permᴰ.trans d e) = Permᴰ.trans (names-Perm d) (names-Perm e)

pub has_empty-All : (m : Digests) → All (λ k. is_empty k ≡ false) (names m) → has_empty m ≡ false
unfolding has_empty
has_empty-All [] h = refl
has_empty-All (e ∷ m) (h, hs) = rw (h, has_empty-All m hs) refl

pub collect_algorithms_lem :
    (m : Digests)
    → collect_algorithms m ≡ (if has_empty m then err digest_name_empty else ok (names m))
unfolding collect_algorithms has_empty
collect_algorithms_lem [] = refl
collect_algorithms_lem ((k, d) ∷ m) = elim (Bool-cases (is_empty k)) [
  | inl e ↦ rw e refl
  | inr e ↦ elim (Bool-cases (has_empty m)) [
    | inl f ↦ rw (e, collect_algorithms_lem m, f) refl
    | inr f ↦ rw (e, collect_algorithms_lem m, f) refl
  ]
]

lookup-Perm : {m n : Digests} (k : Bytes) → Permᴰ m n → AreDistinct m → lookup k m ≡ lookup k n
unfolding lookup
lookup-Perm k Permᴰ.nil h = refl
lookup-Perm k (Permᴰ.cons {a} {b} e d) (h, i) = let j = lookup-Perm k d i in rw (e, j) refl
lookup-Perm k (Permᴰ.swap {a} {b} {l = l} e f) ((h, i), j) =
    rw (← e, ← f) (ground (arith, equal_iff a.0 k, equal_iff b.0 k, equal_iff a.0 b.0))
lookup-Perm k (Permᴰ.trans d e) h =
    lookup-Perm k d h ∙ lookup-Perm k e (Distinct-Perm (names-Perm d) h)

format_parts_lem :
    (keys : List Bytes) (m n : Digests)
    → ((k : Bytes) → lookup k m ≡ lookup k n)
    → format_parts keys m ≡ format_parts keys n
unfolding format_parts
format_parts_lem [] m n h = refl
format_parts_lem (k ∷ keys) m n h =
    let e : digest_of k m ≡ digest_of k n = let i = h k in cc in
    ap
      (λ d. do
        error_if (is_empty d) (empty_digest k)
        more ← format_parts keys m
        ok (part k d ∷ more))
      e
    ∙ rw (format_parts_lem keys m n h) refl

is_empty-Perm : {m n : Digests} → Permᴰ m n → is_empty m ≡ is_empty n
is_empty-Perm Permᴰ.nil = refl
is_empty-Perm (Permᴰ.cons e d) = refl
is_empty-Perm (Permᴰ.swap e f) = refl
is_empty-Perm (Permᴰ.trans d e) = is_empty-Perm d ∙ is_empty-Perm e

-- The Content-Digest field, or the error, is the same for two maps with the same entries, in
-- whatever order they are iterated.
pub format_content_digest-Perm :
    (m n : Digests) → AreDistinct m → Permᴰ m n → format_content_digest m ≡ format_content_digest n
unfolding format_content_digest
format_content_digest-Perm m n h d =
    rw (is_empty-Perm d, collect_algorithms_lem m, collect_algorithms_lem n, has_empty-Perm d)
      (elim (Bool-cases (has_empty n)) [
        | inl e ↦ rw e refl
        | inr e ↦
            rw
              (
                e,
                sort-Perm (names-Perm d),
                format_parts_lem (sort (names n)) m n (λ k. lookup-Perm k d h),
              )
              refl
      ])
