-- ===== src/Parser/Window.antt =====
-- The window of the options for the signature parameters (pkg/parser/params_validation.go), in plain
-- integer arithmetic.
use http_message_signatures.Common.{
  ℕ, ◌+◌, ◌*◌, ◌/◌, ◌^◌, ◌≤◌, ◌<◌, ◌≡◌, refl, ◌↔◌, ◌⊎◌, true, false, Option, none, some, arith, ltb,
  ℤ, pos, negsuc, pos_part, ◌+ℤ◌, ◌≤ℤ◌,
}
use http_message_signatures.Parser.Types.{SignatureParams}
use http_message_signatures.Parser.Times.{
  ParamsValidation, is_positive, is_negative, seconds_end, unix, add_duration,
}

-- The nanoseconds of a number of seconds
abbrev pub nanoseconds : ℤ → ℤ
nanoseconds (pos n) = pos (n * 1000000000)
nanoseconds (negsuc n) = negsuc (n * 1000000000 + 999999999)

-- The time of the options, or that of the clock
abbrev pub reference : ℤ → ParamsValidation → ℤ
reference clock opts = elim opts.now [ none ↦ clock | some t ↦ t ]

-- With no created time, nothing asks for one; with one, it is at most the one tolerance after the
-- reference time and at most the other before it, where they are not 0.
abbrev pub CreatedAllowed : ParamsValidation → ℤ → Option ℤ → Type 0
CreatedAllowed opts now none =
    (opts.require_created ≡ false)
    × (opts.created_not_newer_than ≤ℤ pos 0)
    × (opts.created_not_older_than ≤ℤ pos 0)
CreatedAllowed opts now (some created) =
    ((opts.created_not_newer_than ≤ℤ pos 0)
      ⊎ (nanoseconds created ≤ℤ now +ℤ opts.created_not_newer_than))
    × ((opts.created_not_older_than ≤ℤ pos 0)
        ⊎ (now ≤ℤ nanoseconds created +ℤ opts.created_not_older_than))

-- The expiry is not before the created time, if there is one.
abbrev pub NotBefore : ℤ → Option ℤ → Type 0
NotBefore expires none = Unit
NotBefore expires (some created) = nanoseconds created ≤ℤ nanoseconds expires

-- The expiry has not passed, and is not before the creation, as far as the options ask.
abbrev pub ExpiresAllowed : ParamsValidation → ℤ → Option ℤ → Option ℤ → Type 0
ExpiresAllowed opts now created none = opts.require_expires ≡ false
ExpiresAllowed opts now created (some expires) =
    ((opts.reject_expired ≡ false) ⊎ (now ≤ℤ nanoseconds expires))
    × ((opts.expires_not_before_created ≡ false) ⊎ NotBefore expires created)

-- The tolerances are not negative, and the parameters are in the window of the options.
pub record IsTimely (clock : ℤ) (params : SignatureParams) (opts : ParamsValidation) : Type 0 where
  pub newer_given : pos 0 ≤ℤ opts.created_not_newer_than
  pub older_given : pos 0 ≤ℤ opts.created_not_older_than
  pub created : CreatedAllowed opts (reference clock opts) params.created
  pub expires : ExpiresAllowed opts (reference clock opts) params.created params.expires

-- At most 2 ^ 62 seconds after 1970
abbrev pub IsNear : Option ℤ → Type 0
IsNear none = Unit
IsNear (some v) = pos_part v ≤ 2 ^ 62

-- The times are at most 2 ^ 62 seconds after 1970, and the tolerances fit in an int64.
pub record IsInRange (clock : ℤ) (params : SignatureParams) (opts : ParamsValidation) : Type 0 where
  pub created : IsNear params.created
  pub expires : IsNear params.expires
  pub now : pos_part (reference clock opts) ≤ 2 ^ 62 * 1000000000
  pub newer : pos_part opts.created_not_newer_than < 2 ^ 63
  pub older : pos_part opts.created_not_older_than < 2 ^ 63

-- In this range nothing wraps around.
pub unix_lem : (v : ℤ) → pos_part v ≤ 2 ^ 62 → unix v ≡ nanoseconds v
unfolding unix
unix_lem (pos n) h = let e : ltb n seconds_end ≡ true = ground arith in rw e refl
unix_lem (negsuc n) h = refl

within_end : (m : ℕ) → m < seconds_end * 1000000000 → ltb (m / 1000000000) seconds_end ≡ true
within_end m h = let lower : m / 1000000000 < seconds_end = omega arith in ground arith

sum_part :
    (t d : ℤ)
    → pos_part t ≤ 2 ^ 62 * 1000000000
    → pos_part d < 2 ^ 63
    → pos_part (t +ℤ d) < seconds_end * 1000000000
unfolding ◌+ℤ◌
sum_part (pos a) (pos b) h k = ground arith
sum_part (pos a) (negsuc b) h k = ground arith
sum_part (negsuc a) (pos b) h k = ground arith
sum_part (negsuc a) (negsuc b) h k = ground arith

saturate_lem :
    (t d s : ℤ) → t +ℤ d ≡ s → pos_part s < seconds_end * 1000000000 → add_duration t d ≡ s
unfolding add_duration
saturate_lem t d (pos m) e h = rw (e, within_end m h) refl
saturate_lem t d (negsuc m) e h = rw e refl

pub add_duration_lem :
    (t d : ℤ) → pos_part t ≤ 2 ^ 62 * 1000000000 → pos_part d < 2 ^ 63 → add_duration t d ≡ t +ℤ d
add_duration_lem t d h k = saturate_lem t d (t +ℤ d) refl (sum_part t d h k)

pub nanoseconds_near :
    (v : ℤ) → pos_part v ≤ 2 ^ 62 → pos_part (nanoseconds v) ≤ 2 ^ 62 * 1000000000
nanoseconds_near (pos n) h = omega arith
nanoseconds_near (negsuc n) h = omega arith

pub is_positive_lem : (d : ℤ) → (is_positive d ≡ false) ↔ (d ≤ℤ pos 0)
is_positive_lem (pos n) = (λ h. ground arith, λ h. ground arith)
is_positive_lem (negsuc n) = (λ h. omega arith, λ h. refl)

pub is_negative_lem : (d : ℤ) → (is_negative d ≡ false) ↔ (pos 0 ≤ℤ d)
is_negative_lem (pos n) = (λ h. omega arith, λ h. refl)
is_negative_lem (negsuc n) = (λ h. cc, λ h. let x : ⊥ = omega arith in elim x [ ])
