-- ===== src/Parser/Timely/Checks.antt =====
-- The checks of the created and the expiry time against the window (pkg/parser/params_validation.go).
use http_message_signatures.Common.{
  ◌*◌, ◌^◌, ◌≤◌, ◌<◌, ◌≡◌, refl, sym, ◌↔◌, ◌⊎◌, inl, inr, Bool, true, false, ◌&&◌, ◌||◌, Option,
  none, some, arith, Bool-cases, ℤ, pos, pos_part, ◌+ℤ◌, ◌≤ℤ◌, ltb_ℤ,
}
use http_message_signatures.Errors.{
  ok, missing_created, created_in_future, created_too_old, missing_expires, signature_expired,
  expires_before_created, error_if-ok, error_if->>=, ok_inj,
}
use http_message_signatures.Parser.Times.{
  ParamsValidation, is_positive, unix, add_duration, resolve_validation_now, check_created_option,
  check_expires, before_created,
}
use http_message_signatures.Parser.Window.{
  nanoseconds, reference, CreatedAllowed, NotBefore, ExpiresAllowed, IsNear, unix_lem,
  add_duration_lem, nanoseconds_near, is_positive_lem,
}

abbrev pub unix_option : Option ℤ → Option ℤ
unix_option none = none
unix_option (some v) = some (unix v)

not_ltb_iff : (a b : ℤ) (c : Bool) → ((c && ltb_ℤ a b) ≡ false) ↔ ((c ≡ false) ⊎ (b ≤ℤ a))
not_ltb_iff a b true = (λ h. inr (ground arith), λ h. ground arith)
not_ltb_iff a b false = (λ h. inl refl, λ h. refl)

-- The test of a tolerance against the sum
tolerance_iff : (d a b : ℤ) → ((is_positive d && ltb_ℤ a b) ≡ false) ↔ ((d ≤ℤ pos 0) ⊎ (b ≤ℤ a))
tolerance_iff d a b = (
  λ h. elim ((not_ltb_iff a b (is_positive d)).0 h) [
    | inl e ↦ inl ((is_positive_lem d).0 e)
    | inr e ↦ inr e
  ],
  λ h.
      (not_ltb_iff a b (is_positive d)).1
        (elim h [ inl e ↦ inl ((is_positive_lem d).1 e) | inr e ↦ inr e ]),
)

-- Where nothing needs the time, the checks do not depend on it.
check_created_option-now :
    (opts : ParamsValidation) (s t : ℤ) (created : Option ℤ)
    → is_positive opts.created_not_newer_than ≡ false
    → is_positive opts.created_not_older_than ≡ false
    → check_created_option opts s created ≡ check_created_option opts t created
check_created_option-now opts s t none a b = refl
check_created_option-now opts s t (some v) a b = rw (a, b) refl

check_expires-now :
    (opts : ParamsValidation) (s t : ℤ) (created expires : Option ℤ)
    → opts.reject_expired ≡ false
    → check_expires opts s created expires ≡ check_expires opts t created expires
check_expires-now opts s t created none a = refl
check_expires-now opts s t created (some v) a = rw a refl

pub checks_reference :
    (clock : ℤ) (opts : ParamsValidation) (created expires : Option ℤ)
    → (check_created_option opts (resolve_validation_now clock opts) created
        ≡ check_created_option opts (reference clock opts) created)
      × ((found : Option ℤ)
          → check_expires opts (resolve_validation_now clock opts) found expires
            ≡ check_expires opts (reference clock opts) found expires)
unfolding resolve_validation_now
checks_reference clock opts created expires =
    let newer = is_positive opts.created_not_newer_than in
    let older = is_positive opts.created_not_older_than in
    elim (Bool-cases (newer || older || opts.reject_expired)) [
      | inl e ↦
          let same : resolve_validation_now clock opts ≡ reference clock opts = rw e refl in
          rw same (refl, λ found. refl)
      | inr e ↦ (
        check_created_option-now opts _ _ created (ground arith) (ground arith),
        λ found. check_expires-now opts _ _ found expires (ground arith),
      )
    ]

module _ (opts : ParamsValidation) (now : ℤ) where
  pub check_created_option-CreatedAllowed :
      (created found : Option ℤ)
      → IsNear created
      → pos_part now ≤ 2 ^ 62 * 1000000000
      → pos_part opts.created_not_newer_than < 2 ^ 63
      → pos_part opts.created_not_older_than < 2 ^ 63
      → check_created_option opts now created ≡ ok found
      → CreatedAllowed opts now created × (found ≡ unix_option created)
  check_created_option-CreatedAllowed none found near a b c h =
      let newer = is_positive opts.created_not_newer_than in
      let older = is_positive opts.created_not_older_than in
      let (allowed, e) =
        error_if->>= (opts.require_created || newer || older) missing_created _ h in
      (
        (
          ground arith,
          (is_positive_lem opts.created_not_newer_than).0 (ground arith),
          (is_positive_lem opts.created_not_older_than).0 (ground arith),
        ),
        sym (ok_inj e),
      )
  check_created_option-CreatedAllowed (some v) found near a b c h =
      let at_v = unix_lem v near in
      let plus_newer = add_duration_lem now opts.created_not_newer_than a b in
      let plus_older =
        add_duration_lem (nanoseconds v) opts.created_not_older_than (nanoseconds_near v near) c in
      let (p, h1) =
        error_if->>=
          (is_positive opts.created_not_newer_than
            && ltb_ℤ (add_duration now opts.created_not_newer_than) (unix v))
          created_in_future _ h in
      let (q, h2) =
        error_if->>=
          (is_positive opts.created_not_older_than
            && ltb_ℤ (add_duration (unix v) opts.created_not_older_than) now)
          created_too_old _ h1 in
      (
        (
          (tolerance_iff opts.created_not_newer_than (now +ℤ opts.created_not_newer_than)
                (nanoseconds v)).0
              (rw (plus_newer, at_v) at p),
          (tolerance_iff opts.created_not_older_than (nanoseconds v +ℤ opts.created_not_older_than)
                now).0
              (rw (at_v, plus_older) at q),
        ),
        sym (ok_inj h2),
      )

  pub CreatedAllowed-check_created_option :
      (created : Option ℤ)
      → IsNear created
      → pos_part now ≤ 2 ^ 62 * 1000000000
      → pos_part opts.created_not_newer_than < 2 ^ 63
      → pos_part opts.created_not_older_than < 2 ^ 63
      → CreatedAllowed opts now created
      → check_created_option opts now created ≡ ok (unix_option created)
  CreatedAllowed-check_created_option none near a b c (p, q, r) =
      rw
        (
          p,
          (is_positive_lem opts.created_not_newer_than).1 q,
          (is_positive_lem opts.created_not_older_than).1 r,
        )
        refl
  CreatedAllowed-check_created_option (some v) near a b c (p, q) =
      let at_v = unix_lem v near in
      let plus_newer = add_duration_lem now opts.created_not_newer_than a b in
      let plus_older =
        add_duration_lem (nanoseconds v) opts.created_not_older_than (nanoseconds_near v near) c in
      rw
        (
          at_v,
          plus_newer,
          plus_older,
          (tolerance_iff opts.created_not_newer_than (now +ℤ opts.created_not_newer_than)
                (nanoseconds v)).1
              p,
          (tolerance_iff opts.created_not_older_than (nanoseconds v +ℤ opts.created_not_older_than)
                now).1
              q,
        )
        refl

  -- The test of the expiry against the created time
  before_iff :
      (v : ℤ) (created : Option ℤ) (c : Bool)
      → pos_part v ≤ 2 ^ 62
      → IsNear created
      → ((c && before_created (unix v) (unix_option created)) ≡ false)
        ↔ ((c ≡ false) ⊎ NotBefore v created)
  before_iff v none c near n = (λ h. inr tt, λ h. ground arith)
  before_iff v (some w) c near n =
      rw (unix_lem v near, unix_lem w n) (not_ltb_iff (nanoseconds v) (nanoseconds w) c)

  pub check_expires-ExpiresAllowed :
      (created expires : Option ℤ)
      → IsNear created
      → IsNear expires
      → check_expires opts now (unix_option created) expires ≡ ok tt
      → ExpiresAllowed opts now created expires
  check_expires-ExpiresAllowed created none a b h =
      error_if-ok opts.require_expires missing_expires h
  check_expires-ExpiresAllowed created (some v) a b h =
      let (p, h1) =
        error_if->>= (opts.reject_expired && ltb_ℤ (unix v) now) signature_expired _ h in
      let before = before_created (unix v) (unix_option created) in
      let q = error_if-ok (opts.expires_not_before_created && before) expires_before_created h1 in
      (
        (not_ltb_iff (nanoseconds v) now opts.reject_expired).0 (rw (unix_lem v b) at p),
        (before_iff v created opts.expires_not_before_created b a).0 q,
      )

  pub ExpiresAllowed-check_expires :
      (created expires : Option ℤ)
      → IsNear created
      → IsNear expires
      → ExpiresAllowed opts now created expires
      → check_expires opts now (unix_option created) expires ≡ ok tt
  ExpiresAllowed-check_expires created none a b h = rw h refl
  ExpiresAllowed-check_expires created (some v) a b (p, q) =
      let early = (before_iff v created opts.expires_not_before_created b a).1 q in
      let passed : (opts.reject_expired && ltb_ℤ (unix v) now) ≡ false =
        rw (unix_lem v b) ((not_ltb_iff (nanoseconds v) now opts.reject_expired).1 p) in
      rw (passed, early) refl
