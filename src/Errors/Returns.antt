-- ===== src/Errors/Returns.antt =====
-- Results that no loop without fuel has made.
use http_message_signatures.Common.{◌≡◌, refl, ap, ◌≢◌, Bool, true, false}
use http_message_signatures.Errors.{
  Error, Outcome, ok, err, ◌>>=◌, error_if, wrap, parsed, exhausted,
}
use http_message_signatures.Sfv.Lexer.{Parser, ParseError, Result}

-- No loop has run out of fuel.
abbrev pub Returns : {A : Type 0} → Outcome A → Type 0
Returns m = m ≢ err exhausted

err_inj : {A : Type 0} {d e : Error} → ◌≡◌ {A = Outcome A} (err d) (err e) → d ≡ e
err_inj h = cc

pub err-Returns : {A : Type 0} (e : Error) → e ≢ exhausted → Returns {A = A} (err e)
err-Returns e h k = h (err_inj k)

pub ok-Returns : {A : Type 0} (a : A) → Returns (ok a)
ok-Returns a h = cc

pub next :
    {A B : Type 0} (m : Outcome A) (f : A → Outcome B)
    → Returns m
    → ((a : A) → Returns (f a))
    → Returns (m >>= f)
next (ok a) f h k = k a
next (err e) f h k = err-Returns e (λ x. h (ap err x))

pub error_if-Returns : (b : Bool) (e : Error) → e ≢ exhausted → Returns (error_if b e)
error_if-Returns true e h = err-Returns e h
error_if-Returns false e h = ok-Returns tt

pub wrap-Returns :
    {A : Type 0} (f : Error → Error) (m : Outcome A)
    → ((e : Error) → f e ≢ exhausted)
    → Returns (wrap f m)
wrap-Returns f (ok a) h = ok-Returns a
wrap-Returns f (err e) h = err-Returns (f e) (h e)

pub parsed-Returns :
    {A : Type 0} (f : ParseError → Error) (r : Result (A × Parser))
    → ((e : ParseError) → f e ≢ exhausted)
    → r ≢ Result.out_of_fuel
    → Returns (parsed f r)
parsed-Returns f (Result.ok (a, p)) h k = ok-Returns a
parsed-Returns f (Result.err e) h k = err-Returns (f e) (h e)
parsed-Returns f Result.out_of_fuel h k = let x : ⊥ = k refl in elim x [ ]
