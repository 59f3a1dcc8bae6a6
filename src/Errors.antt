-- ===== src/Errors.antt =====
-- The errors of pkg/parser, pkg/base, pkg/signing, pkg/digest and pkg/httpsig: a constructor for each message,
-- with the values that it names, and the results of the functions that can fail.
pub mod Returns
use http_message_signatures.Common.{ℕ, ◌≡◌, refl, ap, Bool, true, false, if◌then◌else◌, Bytes}
use http_message_signatures.Sfv.Lexer.{ParseError, Parser, Result}
use http_message_signatures.Sfv.Serialize.{WriteError, Written, wrote, refused}

pub data Error : Type 0 where
  -- a loop of the model ran out of fuel: no message of the program
  exhausted : Error
  -- parser.go
  both_headers_empty signature_input_empty signature_empty : Error
  bad_signature_input bad_signature : ParseError → Error
  no_signature_for_label no_signature_input_for_label : Bytes → Error
  failed_signature : Bytes → Error → Error
  input_not_inner_list component_not_string signature_not_item signature_not_bytes : Error
  invalid_component : ℕ → Error → Error
  parameter_not_integer parameter_not_string : Bytes → Error
  -- validator.go
  reserved_component invalid_derived_component missing_name_parameter : Bytes → Error
  bs_excludes_sf bs_excludes_key key_requires_sf : Bytes → Error
  -- params_validation.go
  negative_not_newer_than negative_not_older_than missing_created created_in_future : Error
  created_too_old missing_expires signature_expired expires_before_created : Error
  -- extract.go
  bare_newline : Error
  unknown_component_type req_outside_response no_related_request : Error
  sf_excludes_bs key_without_sf field_not_found trailer_not_found : Bytes → Error
  failed_component : Bytes → Error → Error
  not_structured : Bytes → Error
  failed_to_serialize : WriteError → Error
  member_not_found : Bytes → Error
  only_for_requests only_for_responses unknown_derived_component : Bytes → Error
  query_param_requires_name message_failed : Error
  query_param_not_found : Bytes → Error
  -- signing
  algorithm_id_empty : Error
  unsupported_algorithm : Bytes → Error
  already_registered : Bytes → Error
  algorithm_failed : Error
  base_empty wrong_key_type key_empty verification_failed wrong_signature_length : Error
  signature_value_empty : Error
  key_too_short : ℕ → Error
  -- rsa.go, ecdsa.go, ed25519.go; a run-time panic, which is no message of the program
  nil_dereference nil_map : Error
  rsa_key_too_small : ℕ → Error
  signing_failed key_nil wrong_curve component_too_long : Error
  wrong_key_length : ℕ → Error
  -- keys.go
  private_key_empty public_key_empty unsupported_key_type invalid_private_key : Error
  invalid_public_key not_pkcs1_private not_pkcs8_private not_sec1_private : Error
  not_pkix_public not_pkcs1_public : Error
  -- digest
  digest_header_empty no_digests no_required_digests digests_empty digest_name_empty : Error
  bad_digest_header : ParseError → Error
  digest_not_item digest_not_bytes unsupported_digest empty_digest : Bytes → Error
  wrong_digest_length : Bytes → ℕ → Error
  missing_digest digest_mismatch : Bytes → Error
  failed_digest failed_digester_for : Bytes → Error → Error
  failed_header failed_digester : Error → Error
  read_failed : Error
  -- httpsig
  algorithm_required signing_key_required label_required request_required response_required : Error
  key_and_resolver key_or_resolver_required label_required_for_many : Error
  signature_not_found no_signature_value : Bytes → Error
  required_component_missing : Bytes → Error
  verification_key_required algorithm_required_for_verification : Error
  options_algorithm_mismatch resolver_algorithm_mismatch : Error
  algorithm_not_allowed : Bytes → Error

-- A Go result with its error.
pub data Outcome {ℓ} (A : Type ℓ) : Type ℓ where
  ok : A → Outcome A
  err : Error → Outcome A

infixl 5 ◌>>=◌ ◌>>◌
abbrev pub ◌>>=◌ {ℓ κ} : {A : Type ℓ} {B : Type κ} → Outcome A → (A → Outcome B) → Outcome B
ok a >>= f = f a
err e >>= f = err e

abbrev pub ◌>>◌ {ℓ} : {B : Type ℓ} → Outcome (Unit {0}) → Outcome B → Outcome B
m >> k = m >>= λ _. k

-- An error is returned unless the test fails.
abbrev pub error_if : Bool → Error → Outcome (Unit {0})
error_if b e = if b then err e else ok tt

-- `fmt.Errorf("…: %w", err)`
abbrev pub wrap {ℓ} : {A : Type ℓ} → (Error → Error) → Outcome A → Outcome A
wrap f (ok a) = ok a
wrap f (err e) = err (f e)

-- The value of a scanner's method, its error wrapped, and the scanner dropped.
abbrev pub parsed : {A : Type 0} → (ParseError → Error) → Result (A × Parser) → Outcome A
parsed f (Result.ok (a, p)) = ok a
parsed f (Result.err e) = err (f e)
parsed f Result.out_of_fuel = err exhausted

abbrev pub written : Written → Outcome Bytes
written (wrote s) = ok s
written (refused e) = err (failed_to_serialize e)

-- Inversion of a successful bind.
pub >>=-eq-ok {ℓ κ} :
    {A : Type ℓ} {B : Type κ} (m : Outcome A) (next : A → Outcome B) {c : B}
    → (m >>= next) ≡ ok c
    → (x : A) × (m ≡ ok x) × (next x ≡ ok c)
>>=-eq-ok (err e) next h = cc
>>=-eq-ok (ok x) next h = (x, refl, h)

-- Inversion of a check, alone and in front of the rest.
pub error_if-ok : (b : Bool) (e : Error) → error_if b e ≡ ok tt → b ≡ false
error_if-ok true e h = cc
error_if-ok false e h = refl

pub error_if->>= {ℓ} :
    {B : Type ℓ} (b : Bool) (e : Error) (f : Unit {0} → Outcome B) {v : B}
    → (error_if b e >>= f) ≡ ok v
    → (b ≡ false) × (f tt ≡ ok v)
error_if->>= true e f h = cc
error_if->>= false e f h = (refl, h)

pub ok_inj {ℓ} : {A : Type ℓ} {a b : A} → ok a ≡ ok b → a ≡ b
ok_inj {A} {a} {b} h = cc

pub wrap-ok {ℓ} :
    {A : Type ℓ} (f : Error → Error) (m : Outcome A) {a : A} → wrap f m ≡ ok a → m ≡ ok a
wrap-ok f (ok a) h = h
wrap-ok f (err e) h = cc

pub no_value {ℓ} : {A : Type ℓ} {e : Error} {a : A} → Outcome.err e ≡ ok a → ⊥
no_value h = cc

pub parsed-ok :
    {A : Type 0} (f : ParseError → Error) (m : Result (A × Parser)) (a : A)
    → parsed f m ≡ ok a
    → (q : Parser) × (m ≡ Result.ok (a, q))
parsed-ok f (Result.ok (b, q)) a h = (q, ap (λ x. Result.ok (x, q)) (ok_inj h))
parsed-ok f (Result.err e) a h = cc
parsed-ok f Result.out_of_fuel a h = cc
