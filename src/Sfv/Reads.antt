-- ===== src/Sfv/Reads.antt =====
-- What it means that a method of the scanner reads a text: from any place in the input it takes
-- just that text, and returns a value. The modules below show that each method reads what the
-- serializer writes.
pub mod Tokens
pub mod Numbers
pub mod Strings
pub mod Sequences
pub mod Values
pub mod Items
pub mod Members
pub mod Dictionaries
use http_message_signatures.Common.{
  ℕ, ◌+◌, ◌-◌, ◌<◌, ◌≡◌, refl, Bool, true, false, not, [], ◌∷◌, ◌++◌, append-nil, append_assoc,
  arith, ◌==◌, length, length-append, drop-append, all, Bytes,
}
use http_message_signatures.Sfv.Types.{Limits}
use http_message_signatures.Sfv.Lexer.{Parser, Parse, ok, skip_bytes, slice_from, head_or_nul}

abbrev pub at : Limits → Bytes → Bytes → Parser
at limits seen rest = record { seen = seen; rest = rest; limits = limits }

-- With `rest` behind it, `text` is taken and `value` returned, wherever it stands.
abbrev pub Reads : {A : Type 0} → Limits → Parse A → Bytes → A → Bytes → Type 0
Reads limits m text value rest =
    (seen : Bytes) → m (at limits seen (text ++ rest)) ≡ ok (value, at limits (seen ++ text) rest)

-- A loop over bytes that pass the test ends here.
abbrev pub stops : (ℕ → Bool) → Bytes → Bool
stops test [] = true
stops test (c ∷ s) = not (test c)

-- The text has a first byte, which passes the test.
abbrev pub begins : (ℕ → Bool) → Bytes → Bool
begins test [] = false
begins test (c ∷ s) = test c

pub stops_mono :
    (t u : ℕ → Bool) (s : Bytes)
    → ((c : ℕ) → u c ≡ false → t c ≡ false)
    → stops u s ≡ true
    → stops t s ≡ true
stops_mono t u [] h k = refl
stops_mono t u (c ∷ s) h k = ground (arith, h c)

module _ (u : ℕ → Bool) (s rest : Bytes) (h : begins u s ≡ true) where
  -- Tests of the first byte, from what it is known to pass.
  pub begins-stops :
      (t : ℕ → Bool) → ((c : ℕ) → u c ≡ true → t c ≡ false) → stops t (s ++ rest) ≡ true
  begins-stops t k = first s h
    where
      first : (x : Bytes) → begins u x ≡ true → stops t (x ++ rest) ≡ true
      first [] e = cc
      first (c ∷ x) e = rw (k c e)

  pub begins-peek :
      (d : ℕ) → ((c : ℕ) → u c ≡ true → (c == d) ≡ false) → (head_or_nul (s ++ rest) == d) ≡ false
  unfolding head_or_nul
  begins-peek d k = first s h
    where
      first : (x : Bytes) → begins u x ≡ true → (head_or_nul (x ++ rest) == d) ≡ false
      first [] e = cc
      first (c ∷ x) e = k c e

pub begins_mono :
    (t u : ℕ → Bool) (s : Bytes)
    → ((c : ℕ) → u c ≡ true → t c ≡ true)
    → begins u s ≡ true
    → begins t s ≡ true
begins_mono t u [] h k = k
begins_mono t u (c ∷ s) h k = h c k

pub begins_pos : (u : ℕ → Bool) (s : Bytes) → begins u s ≡ true → 0 < length s
begins_pos u [] h = cc
begins_pos u (c ∷ s) h = omega arith

pub begins-append : (u : ℕ → Bool) (s t : Bytes) → begins u s ≡ true → begins u (s ++ t) ≡ true
begins-append u [] t h = cc
begins-append u (c ∷ s) t h = h

pub skip_bytes-all :
    (test : ℕ → Bool) (limits : Limits) (s rest : Bytes) (seen : Bytes)
    → all test s ≡ true
    → stops test rest ≡ true
    → skip_bytes test limits seen (s ++ rest) ≡ at limits (seen ++ s) rest
unfolding skip_bytes
skip_bytes-all test limits [] [] seen h k = rw append-nil
skip_bytes-all test limits [] (c ∷ rest) seen h k = rw append-nil (ground arith)
skip_bytes-all test limits (c ∷ s) rest seen h k =
    ground (arith, skip_bytes-all test limits s rest (seen ++ c ∷ []), append_assoc seen (c ∷ []) s)

-- What was read is the slice from where the reading began.
pub slice-at :
    (limits : Limits) (seen s rest : Bytes)
    → slice_from (length seen) (at limits (seen ++ s) rest) ≡ s
slice-at limits seen s rest = drop-append seen s

pub length-read : (seen s : Bytes) → length (seen ++ s) - length seen ≡ length s
length-read seen s = omega (arith, length-append seen s)
