-- ===== src/Sfv/Bounded.antt =====
-- What a method of the parser leaves: a value that satisfies a predicate, the limits as they were, and
-- at most `n` bytes; or an error. A loop that ran out of fuel leaves nothing of the kind.
use http_message_signatures.Common.{
  ℕ, suc, ◌-◌, ◌≤◌, ◌≡◌, refl, ap, ◌≢◌, Bool, true, false, arith, if◌then◌else◌, length,
}
use http_message_signatures.Sfv.Types.{Limits, exceeds, is_full, bytes}
use http_message_signatures.Sfv.Lexer.{
  Parser, ParseError, Parse, ◌>>=◌, ◌>>◌, Result, ok, err, out_of_fuel,
}
mod Scans
mod Shapes
mod Decoded
mod Raw
mod Spelled
mod Primitives
mod Steps
mod Strings
mod Items
pub mod Stored
mod Collections
mod Fits
pub mod Accepted
pub mod Printable
mod Tests

-- The size is within the limit, or the limit is off.
abbrev pub Fits : ℕ → ℕ → Type 0
Fits limit n = exceeds limit n ≡ false

pub Fits-suc : (limit n : ℕ) → is_full limit n ≡ false → Fits limit (suc n)
Fits-suc limit n h = grind arith

-- The parser keeps its limits and has at most `n` bytes left.
abbrev pub Within : Limits → ℕ → Parser → Type 0
Within l n q = (q.limits ≡ l) × (length q.rest ≤ n)

pub data Ensures {A : Type 0} (P : A → Type 0) (l : Limits) (n : ℕ)
    : Result (A × Parser) → Type 0 where
  gives : {a : A} {q : Parser} → P a → Within l n q → Ensures P l n (ok (a, q))
  fails : {e : ParseError} → Ensures P l n (err e)

pub ok_inj : {A : Type 0} {a b : A} → ok a ≡ ok b → a ≡ b
ok_inj h = cc

module _ {l : Limits} where
  pub weaken :
      {A : Type 0} {P : A → Type 0} {m n : ℕ} {r : Result (A × Parser)}
      → m ≤ n
      → Ensures P l m r
      → Ensures P l n r
  weaken h (gives x (e, k)) = gives x (e, omega (arith, h, k))
  weaken h fails = fails

  -- One step after another; the second may use that the first has succeeded.
  bind_result :
      {A B : Type 0} {P : A → Type 0} {Q : B → Type 0} {m n : ℕ} (r : Result (A × Parser))
      (f : A → Parse B) (p : Parser)
      → Ensures P l m r
      → ((a : A) (q : Parser) → r ≡ ok (a, q) → P a → Within l m q → Ensures Q l n (f a q))
      → Ensures Q l n (((λ _. r) >>= f) p)
  bind_result (ok (a, q)) f p (gives x w) k = k a q refl x w
  bind_result (err e) f p h k = fails
  bind_result out_of_fuel f p h k = elim h [ ]

  pub bind_eq :
      {A B : Type 0} {P : A → Type 0} {Q : B → Type 0} {k n : ℕ} (m : Parse A) (f : A → Parse B)
      (p : Parser)
      → Ensures P l k (m p)
      → ((a : A) (q : Parser) → m p ≡ ok (a, q) → P a → Within l k q → Ensures Q l n (f a q))
      → Ensures Q l n ((m >>= f) p)
  bind_eq m f p = bind_result (m p) f p

  pub bind :
      {A B : Type 0} {P : A → Type 0} {Q : B → Type 0} {k n : ℕ} (m : Parse A) (f : A → Parse B)
      (p : Parser)
      → Ensures P l k (m p)
      → ((a : A) (q : Parser) → P a → Within l k q → Ensures Q l n (f a q))
      → Ensures Q l n ((m >>= f) p)
  bind m f p h k = bind_eq m f p h (λ a q _ x w. k a q x w)

  -- A test, each branch under its outcome
  pub branch :
      {A : Type 0} {P : A → Type 0} {n : ℕ} (b : Bool) {x y : Result (A × Parser)}
      → (b ≡ true → Ensures P l n x)
      → (b ≡ false → Ensures P l n y)
      → Ensures P l n (if b then x else y)
  branch true h k = h refl
  branch false h k = k refl

  pub Ensures-ok :
      {A : Type 0} {P : A → Type 0} {n : ℕ} {r : Result (A × Parser)} {a : A} {q : Parser}
      → Ensures P l n r
      → r ≡ ok (a, q)
      → P a
  Ensures-ok (gives x w) h = let e = ok_inj h in rw (← ap (λ t. t.0) e) x
  Ensures-ok fails h = cc

  pub Ensures-ends :
      {A : Type 0} {P : A → Type 0} {n : ℕ} {r : Result (A × Parser)}
      → Ensures P l n r
      → r ≢ out_of_fuel
  Ensures-ends (gives x w) h = cc
  Ensures-ends fails h = cc
