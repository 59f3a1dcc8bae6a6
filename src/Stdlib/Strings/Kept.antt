-- ===== src/Stdlib/Strings/Kept.antt =====
-- `strings.TrimSpace` and `strings.Join` on texts of which every character passes a test.
use http_message_signatures.Common.{
  ℕ, ◌≡◌, refl, Bool, true, false, List, [], ◌∷◌, if◌then◌else◌, &&_left, &&_right, All, all, Bytes,
  all-append_lem,
}
use mathlib.Core.List.{reverse, reverse-cons}
use http_message_signatures.Stdlib.Strings.{
  trim_left, trim_reversed, trim_space, join, is_ascii_space, is_space_2, is_space_3,
}

either : {A : Type 0} (P : A → Type 0) (b : Bool) (x y : A) → P x → P y → P (if b then x else y)
either P true x y h k = h
either P false x y h k = k

module _ (t : ℕ → Bool) where
  abbrev Kept : Bytes → Type 0
  Kept s = all t s ≡ true

  behind : (c : ℕ) (s : Bytes) → Kept (c ∷ s) → Kept s
  behind c s h = &&_right (t c) (all t s) h

  all-trim_left : (s : Bytes) → Kept s → Kept (trim_left s)
  unfolding trim_left
  all-trim_left [] h = refl
  all-trim_left (a ∷ []) h = either Kept (is_ascii_space a) [] (a ∷ []) refl h
  all-trim_left (a ∷ b ∷ []) h =
      let one = all-trim_left (b ∷ []) (behind a (b ∷ []) h) in
      either Kept (is_ascii_space a) _ _ one (either Kept (is_space_2 a b) [] (a ∷ b ∷ []) refl h)
  all-trim_left (a ∷ b ∷ c ∷ s) h =
      let k = behind a (b ∷ c ∷ s) h in
      let one = all-trim_left (b ∷ c ∷ s) k in
      let two = all-trim_left (c ∷ s) (behind b (c ∷ s) k) in
      let three = all-trim_left s (behind c s (behind b (c ∷ s) k)) in
      either Kept (is_ascii_space a) _ _ one (
        either Kept (is_space_2 a b) _ _ two
          (either Kept (is_space_3 a b c) _ (a ∷ b ∷ c ∷ s) three h))

  all-trim_reversed : (s : Bytes) → Kept s → Kept (trim_reversed s)
  unfolding trim_reversed
  all-trim_reversed [] h = refl
  all-trim_reversed (a ∷ []) h = either Kept (is_ascii_space a) [] (a ∷ []) refl h
  all-trim_reversed (a ∷ b ∷ []) h =
      let one = all-trim_reversed (b ∷ []) (behind a (b ∷ []) h) in
      either Kept (is_ascii_space a) _ _ one (either Kept (is_space_2 b a) [] (a ∷ b ∷ []) refl h)
  all-trim_reversed (a ∷ b ∷ c ∷ s) h =
      let k = behind a (b ∷ c ∷ s) h in
      let one = all-trim_reversed (b ∷ c ∷ s) k in
      let two = all-trim_reversed (c ∷ s) (behind b (c ∷ s) k) in
      let three = all-trim_reversed s (behind c s (behind b (c ∷ s) k)) in
      either Kept (is_ascii_space a) _ _ one (
        either Kept (is_space_2 b a) _ _ two
          (either Kept (is_space_3 c b a) _ (a ∷ b ∷ c ∷ s) three h))

  all-reverse : (s : Bytes) → Kept s → Kept (reverse s)
  all-reverse [] h = refl
  all-reverse (c ∷ s) h =
      let here = &&_left (t c) (all t s) h in
      rw (reverse-cons c s)
        (all-append_lem t (reverse s) (c ∷ []) (all-reverse s (behind c s h)) (rw here refl))

  pub all-trim_space : (s : Bytes) → Kept s → Kept (trim_space s)
  unfolding trim_space
  all-trim_space s h = all-reverse _ (all-trim_reversed _ (all-reverse _ (all-trim_left s h)))

  pub all-join :
      t b',' ≡ true → t b' ' ≡ true → (values : List Bytes) → All Kept values → Kept (join values)
  unfolding join
  all-join comma gap [] h = refl
  all-join comma gap (s ∷ []) (h, tt) = h
  all-join comma gap (s ∷ u ∷ values) (h, k) =
      all-append_lem t s _ h (rw (comma, gap) (all-join comma gap (u ∷ values) k))
