-- ===== src/Sfv/Bounded/Raw.antt =====
-- pkg/sfv/primitives.go: the text between the quotes, as it is read and as it is decoded.
use http_message_signatures.Common.{
  ℕ, ◌≡◌, refl, sym, ap, ◌∙◌, inl, inr, Bool, true, false, not, ◌&&◌, ◌||◌, [], ◌∷◌, ◌++◌,
  append_assoc, arith, ◌==◌, if◌then◌else◌, &&_left, &&_right, Bool-cases, all, Bytes,
}
use http_message_signatures.Sfv.Serialize.{escape_before}
use http_message_signatures.Sfv.Reads.Strings.{is_printable, escaped}

-- A byte that stands for itself
abbrev pub is_plain : ℕ → Bool
is_plain c = is_printable c && not (c == b'"') && not (c == b'\\')

-- Plain bytes, and pairs of a backslash and a byte; the flag says that a backslash stands in front.
unfoldable pub is_raw : Bool → Bytes → Bool
is_raw true [] = false
is_raw false [] = true
is_raw true (c ∷ s) = is_raw false s
is_raw false (c ∷ s) = if c == b'\\' then is_raw true s else is_plain c && is_raw false s

is_raw-cons :
    (c : ℕ) (s : Bytes)
    → (c == b'\\') ≡ false
    → is_raw false (c ∷ s) ≡ (is_plain c && is_raw false s)
unfolding is_raw
is_raw-cons c s e = ground arith

is_raw-append :
    (b : Bool) (r t : Bytes) → is_raw b r ≡ true → is_raw false t ≡ true → is_raw b (r ++ t) ≡ true
unfolding is_raw
is_raw-append true [] t h k = cc
is_raw-append false [] t h k = k
is_raw-append true (c ∷ r) t h k = is_raw-append false r t h k
is_raw-append false (c ∷ r) t h k = elim (Bool-cases (c == b'\\')) [
  | inl e ↦ rw e (is_raw-append true r t (rw e at h) k)
  | inr e ↦
      let h' = rw (is_raw-cons c r e) at h in
      let i = is_raw-append false r t (&&_right (is_plain c) (is_raw false r) h') k in
      let j = &&_left (is_plain c) (is_raw false r) h' in is_raw-cons c (r ++ t) e ∙ rw (i, j) refl
]

pub is_raw-pair :
    (r : Bytes) (c : ℕ) → is_raw false r ≡ true → is_raw false (r ++ b'\\' ∷ c ∷ []) ≡ true
unfolding is_raw
is_raw-pair r c h = is_raw-append false r (b'\\' ∷ c ∷ []) h refl

pub is_raw-plain :
    (r : Bytes) (c : ℕ)
    → is_raw false r ≡ true
    → is_plain c ≡ true
    → is_raw false (r ++ c ∷ []) ≡ true
unfolding is_raw
is_raw-plain r c h k =
    let e : (c == b'\\') ≡ false = ground arith in is_raw-append false r (c ∷ []) h (ground arith)

-- Plain bytes are printable, and need no backslash.
pub all-plain : (r : Bytes) → all is_plain r ≡ true → (all is_printable r ≡ true) × (escaped r ≡ r)
unfolding escaped escape_before
all-plain [] h = (refl, refl)
all-plain (c ∷ r) h =
    let (i, j) = all-plain r (&&_right (is_plain c) (all is_plain r) h) in
    let k = &&_left (is_plain c) (all is_plain r) h in
    let e : (c == b'\\' || c == b'"') ≡ false = ground arith in
    let p : is_printable c ≡ true = ground arith in (rw (p, i) refl, rw e (ap (◌∷◌ c) j))

pub escaped-append :
    (buf : Bytes) (c : ℕ) → escaped (buf ++ c ∷ []) ≡ escaped buf ++ (escape_before c ++ c ∷ [])
unfolding escaped
escaped-append [] c = refl
escaped-append (d ∷ buf) c =
    rw (escaped-append buf c) (sym (append_assoc (escape_before d) (d ∷ escaped buf) _))
