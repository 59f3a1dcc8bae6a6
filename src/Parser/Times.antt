-- ===== src/Parser/Times.antt =====
-- pkg/parser/params_validation.go. An instant is a whole number of nanoseconds since 1970; `none` is
-- Go's zero time. Go keeps the seconds of an instant since the year 1 in an int64, so `time.Unix`
-- wraps around on the last seconds of an int64, and `Add` stops at the last instant. A duration is a
-- whole number of nanoseconds.
use http_message_signatures.Common.{
  ℕ, ◌+◌, ◌-◌, ◌*◌, ◌/◌, ◌%◌, ◌^◌, Bool, true, false, ◌&&◌, ◌||◌, Option, none, some, ltb,
  if◌then◌else◌, ℤ, pos, negsuc, ◌+ℤ◌, ltb_ℤ,
}
use http_message_signatures.Errors.{
  Outcome, ok, ◌>>=◌, ◌>>◌, error_if, negative_not_newer_than, negative_not_older_than,
  missing_created, created_in_future, created_too_old, missing_expires, signature_expired,
  expires_before_created,
}
use http_message_signatures.Parser.Types.{SignatureParams}

-- `SignatureParamsValidationOptions`
pub record ParamsValidation : Type 0 where
  pub now : Option ℤ
  pub require_created : Bool
  pub require_expires : Bool
  pub created_not_newer_than : ℤ
  pub created_not_older_than : ℤ
  pub reject_expired : Bool
  pub expires_not_before_created : Bool

abbrev pub is_negative : ℤ → Bool
is_negative (pos n) = false
is_negative (negsuc n) = true

abbrev pub is_positive : ℤ → Bool
is_positive (pos n) = ltb 0 n
is_positive (negsuc n) = false

-- The seconds from the year 1 to 1970
abbrev unix_to_internal : ℕ
unix_to_internal = 62135596800

-- The first second after 1970 that an instant cannot hold
abbrev pub seconds_end : ℕ
seconds_end = 2 ^ 63 - unix_to_internal

-- `time.Unix(seconds, 0)`, which wraps around.
unfoldable pub unix : ℤ → ℤ
unix (pos n) =
    if ltb n seconds_end then pos (n * 1000000000) else negsuc ((2 ^ 64 - n) * 1000000000 - 1)
unix (negsuc n) = negsuc (n * 1000000000 + 999999999)

-- The seconds of an instant stop at the last one, and the nanoseconds stay.
abbrev saturate : ℤ → ℤ
saturate (pos m) =
    if ltb (m / 1000000000) seconds_end
    then pos m
    else pos ((seconds_end - 1) * 1000000000 + m % 1000000000)
saturate (negsuc m) = negsuc m

-- `Add` of a duration that is not negative
unfoldable pub add_duration : ℤ → ℤ → ℤ
add_duration t d = saturate (t +ℤ d)

-- `resolveValidationNow`, with the time that `time.Now` would return. Where no check needs it the
-- source returns the zero time, which no check then reads.
unfoldable pub resolve_validation_now : ℤ → ParamsValidation → ℤ
resolve_validation_now clock opts =
    if is_positive opts.created_not_newer_than
      || is_positive opts.created_not_older_than
      || opts.reject_expired
    then elim opts.now [ none ↦ clock | some t ↦ t ]
    else negsuc (unix_to_internal * 1000000000 - 1)

abbrev pub check_created : ParamsValidation → ℤ → ℤ → Outcome (Option ℤ)
check_created opts now created = do
  error_if
      (is_positive opts.created_not_newer_than
        && ltb_ℤ (add_duration now opts.created_not_newer_than) created)
      created_in_future
  error_if
      (is_positive opts.created_not_older_than
        && ltb_ℤ (add_duration created opts.created_not_older_than) now)
      created_too_old
  ok (some created)

abbrev pub check_created_option : ParamsValidation → ℤ → Option ℤ → Outcome (Option ℤ)
check_created_option opts now none = do
  error_if
      (opts.require_created
        || is_positive opts.created_not_newer_than
        || is_positive opts.created_not_older_than)
      missing_created
  ok none
check_created_option opts now (some v) = check_created opts now (unix v)

-- `validateCreatedParam`
unfoldable pub validate_created_param : SignatureParams → ParamsValidation → ℤ → Outcome (Option ℤ)
validate_created_param params opts now = check_created_option opts now params.created

abbrev pub before_created : ℤ → Option ℤ → Bool
before_created expires none = false
before_created expires (some created) = ltb_ℤ expires created

abbrev pub check_expires : ParamsValidation → ℤ → Option ℤ → Option ℤ → Outcome (Unit {0})
check_expires opts now created none = error_if opts.require_expires missing_expires
check_expires opts now created (some v) = do
  error_if (opts.reject_expired && ltb_ℤ (unix v) now) signature_expired
  error_if (opts.expires_not_before_created && before_created (unix v) created)
      expires_before_created

-- `validateExpiresParam`; the created time is present just if the parameter is.
unfoldable pub validate_expires_param :
    SignatureParams → ParamsValidation → ℤ → Option ℤ → Outcome (Unit {0})
validate_expires_param params opts now created = check_expires opts now created params.expires

-- `ValidateSignatureParams`
unfoldable pub validate_signature_params :
    ℤ → SignatureParams → ParamsValidation → Outcome (Unit {0})
validate_signature_params clock params opts = do
  error_if (is_negative opts.created_not_newer_than) negative_not_newer_than
  error_if (is_negative opts.created_not_older_than) negative_not_older_than
  let now = resolve_validation_now clock opts
  created ← validate_created_param params opts now
  validate_expires_param params opts now created
