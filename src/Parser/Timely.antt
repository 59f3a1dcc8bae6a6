-- ===== src/Parser/Timely.antt =====
-- What a successful check of the signature parameters says (pkg/parser/params_validation.go).
mod Checks
use http_message_signatures.Common.{◌≡◌, sym, ◌∙◌, ◌↔◌, ℤ}
use http_message_signatures.Errors.{
  ok, >>=-eq-ok, negative_not_newer_than, negative_not_older_than, error_if->>=,
}
use http_message_signatures.Parser.Types.{SignatureParams}
use http_message_signatures.Parser.Times.{
  ParamsValidation, is_negative, resolve_validation_now, check_created_option,
  validate_created_param, validate_expires_param, validate_signature_params,
}
use http_message_signatures.Parser.Window.{reference, IsTimely, IsInRange, is_negative_lem}
use http_message_signatures.Parser.Timely.Checks.{
  unix_option, checks_reference, check_created_option-CreatedAllowed,
  CreatedAllowed-check_created_option, check_expires-ExpiresAllowed, ExpiresAllowed-check_expires,
}

module _ (clock : ℤ) (params : SignatureParams) (opts : ParamsValidation) where
  validate_signature_params-IsTimely :
      IsInRange clock params opts
      → validate_signature_params clock params opts ≡ ok tt
      → IsTimely clock params opts
  unfolding validate_signature_params validate_created_param validate_expires_param
  validate_signature_params-IsTimely range h =
      let now = resolve_validation_now clock opts in
      let (newer, h1) =
        error_if->>= (is_negative opts.created_not_newer_than) negative_not_newer_than _ h in
      let (older, h2) =
        error_if->>= (is_negative opts.created_not_older_than) negative_not_older_than _ h1 in
      let (found, e, h3) = >>=-eq-ok (check_created_option opts now params.created) _ h2 in
      let (same_created, same_expires) =
        checks_reference clock opts params.created params.expires in
      let (created, same) =
        check_created_option-CreatedAllowed opts (reference clock opts) params.created found
          range.created range.now range.newer range.older (sym same_created ∙ e) in
      let checked = sym (same_expires found) ∙ h3 in
      record {
        newer_given = (is_negative_lem opts.created_not_newer_than).0 newer;
        older_given = (is_negative_lem opts.created_not_older_than).0 older;
        created = created;
        expires =
            check_expires-ExpiresAllowed opts (reference clock opts) params.created params.expires
              range.created range.expires (rw same at checked);
      }

  IsTimely-validate_signature_params :
      IsInRange clock params opts
      → IsTimely clock params opts
      → validate_signature_params clock params opts ≡ ok tt
  unfolding validate_signature_params validate_created_param validate_expires_param
  IsTimely-validate_signature_params range h =
      let (same_created, same_expires) =
        checks_reference clock opts params.created params.expires in
      rw
        (
          (is_negative_lem opts.created_not_newer_than).1 h.newer_given,
          (is_negative_lem opts.created_not_older_than).1 h.older_given,
          same_created,
          CreatedAllowed-check_created_option opts (reference clock opts) params.created
              range.created range.now range.newer range.older h.created,
        )
        (same_expires (unix_option params.created)
          ∙ ExpiresAllowed-check_expires opts (reference clock opts) params.created params.expires
              range.created range.expires h.expires)

-- For times at most 2 ^ 62 seconds after 1970 and tolerances that fit in an int64, the check of the
-- signature parameters succeeds exactly when no tolerance is negative and, with the time of the
-- options or else that of the clock as the reference, a created time is present if it is asked for
-- or a tolerance is positive, and is not after or before the reference by more than a positive
-- tolerance, and an expiry is present if it is asked for, and as far as the options ask, is not
-- before the reference and not before the created time.
pub validate_signature_params_iff :
    (clock : ℤ) (params : SignatureParams) (opts : ParamsValidation)
    → IsInRange clock params opts
    → (validate_signature_params clock params opts ≡ ok tt) ↔ IsTimely clock params opts
validate_signature_params_iff clock params opts range = (
  validate_signature_params-IsTimely clock params opts range,
  IsTimely-validate_signature_params clock params opts range,
)
