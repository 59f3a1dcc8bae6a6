-- ===== src/Base/OneLine.antt =====
-- A field value of the signature base is one line (pkg/base/extract.go).
use http_message_signatures.Common.{
  ℕ, ◌≡◌, refl, sym, Bool, true, false, not, ◌&&◌, [], ◌∷◌, ◌==◌, if◌then◌else◌, all, Bytes,
}
use http_message_signatures.Errors.{Outcome, ok, ◌>>=◌, >>=-eq-ok, ok_inj}
use http_message_signatures.Base.Extract.{
  Fold, plain, after_cr, after_newline, in_space, unfold_lines, normalize_line_folding,
  is_fold_space,
}

-- Neither a carriage return nor a newline.
abbrev pub in_line : ℕ → Bool
in_line c = not (c == b'\r') && not (c == b'\n')

-- One byte in front of a result.
pushed-in_line :
    (m : Outcome Bytes) (c : ℕ) (t : Bytes)
    → in_line c ≡ true
    → ((u : Bytes) → m ≡ ok u → all in_line u ≡ true)
    → (m >>= λ u. ok (c ∷ u)) ≡ ok t
    → all in_line t ≡ true
pushed-in_line m c t h k e =
    let (u, found, same) = >>=-eq-ok m _ e in rw (sym (ok_inj same)) (rw h (k u found))

-- A test whose other branch fails, or does not.
branch :
    {P : Type 0} (b : Bool) (m n : Outcome Bytes) (t : Bytes)
    → (if b then m else n) ≡ ok t
    → (b ≡ true → m ≡ ok t → P)
    → (b ≡ false → n ≡ ok t → P)
    → P
branch true m n t h f g = f refl h
branch false m n t h f g = g refl h

unfold_lines-in_line : (f : Fold) (s t : Bytes) → unfold_lines f s ≡ ok t → all in_line t ≡ true
unfolding unfold_lines
unfold_lines-in_line plain [] t h = rw (sym (ok_inj h)) refl
unfold_lines-in_line in_space [] t h = rw (sym (ok_inj h)) refl
unfold_lines-in_line after_cr [] t h = cc
unfold_lines-in_line after_newline [] t h = cc
unfold_lines-in_line after_cr (c ∷ s) t h =
    let again = unfold_lines-in_line after_newline s t in
    branch (c == b'\n') _ _ t h (λ e k. again k) (λ e k. cc)
unfold_lines-in_line after_newline (c ∷ s) t h =
    let again = unfold_lines-in_line in_space s in
    branch (is_fold_space c) _ _ t h (λ e k. pushed-in_line _ b' ' t refl again k) (λ e k. cc)
unfold_lines-in_line plain (c ∷ s) t h =
    let cr = unfold_lines-in_line after_cr s t in
    let newline = unfold_lines-in_line after_newline s t in
    let more = unfold_lines-in_line plain s in
    branch (c == b'\r') _ _ t h (λ e k. cr k)
      (λ e h1.
        branch (c == b'\n') _ _ t h1 (λ e1 k. newline k)
          (λ e1 k. pushed-in_line _ c t (rw (e, e1) refl) more k))
unfold_lines-in_line in_space (c ∷ s) t h =
    let space = unfold_lines-in_line in_space s t in
    let cr = unfold_lines-in_line after_cr s t in
    let newline = unfold_lines-in_line after_newline s t in
    let more = unfold_lines-in_line plain s in
    branch (is_fold_space c) _ _ t h (λ e k. space k)
      (λ e h1.
        branch (c == b'\r') _ _ t h1 (λ e1 k. cr k)
          (λ e1 h2.
            branch (c == b'\n') _ _ t h2 (λ e2 k. newline k)
              (λ e2 k. pushed-in_line _ c t (rw (e1, e2) refl) more k)))

-- When the line folding of a field value is normalized with success, the result has no carriage
-- return and no newline, so no value adds a line to the signature base.
pub normalize_line_folding-in_line :
    (s t : Bytes) → normalize_line_folding s ≡ ok t → all in_line t ≡ true
normalize_line_folding-in_line s t h = unfold_lines-in_line plain s t h
