-- ===== src/Httpsig/Sound.antt =====
-- What a verification that succeeds says (pkg/httpsig/verifier.go).
use http_message_signatures.Common.{◌≡◌, refl, sym, ap, ◌∙◌, ◌↔◌, All, Bytes, codes, ℤ}
use mathlib.Core.List.{Memᴰ}
use http_message_signatures.Errors.{ok, >>=-eq-ok, ok_inj}
use http_message_signatures.Stdlib.Header
use http_message_signatures.Parser.Types.{SignatureEntry}
use http_message_signatures.Parser.Times.{validate_signature_params}
use http_message_signatures.Base.Message.{UrlMethods, HttpMessage}
use http_message_signatures.Base.Build.{build}
use http_message_signatures.Signing.{Algorithm, Registry, get_algorithm}
use http_message_signatures.Httpsig.Equality.{validate_required_components}
use http_message_signatures.Httpsig.Required.{
  validate_required_components-All, validate_required_components_iff,
}
use http_message_signatures.Httpsig.Policy.{Verifier, VerifyResult, resolve_key_and_algorithm}
use http_message_signatures.Httpsig.Resolved.{
  IsResolved, resolve_key_and_algorithm-IsResolved, resolve_key_and_algorithm_iff,
}
use http_message_signatures.Httpsig.Carried.{IsCarried, read_entry_iff}
use http_message_signatures.Httpsig.Verifier.{read_entry, verify_entry, verify_message}

-- What was checked of an entry before its result was returned.
pub record IsVerified {Key : Type 0} (net : UrlMethods) (registry : Registry Key) (clock : ℤ)
    (v : Verifier Key) (msg : HttpMessage) (r : VerifyResult) : Type 0 where
  pub key : Key
  pub alg_id : Bytes
  pub alg : Algorithm Key
  pub covered : All (λ c. Memᴰ c r.entry.covered_components) v.required_components
  pub timely : validate_signature_params clock r.entry.signature_params v.params_validation ≡ ok tt
  pub resolved : IsResolved v r.label r.entry.signature_params key alg_id
  pub registered : get_algorithm Key registry alg_id ≡ ok alg
  pub rebuilt :
      build net msg r.entry.covered_components r.entry.signature_params ≡ ok r.signature_base
  pub authentic : alg.verify r.signature_base r.entry.signature_value key ≡ ok tt

verify_entry-IsVerified :
    {Key : Type 0} (net : UrlMethods) (registry : Registry Key) (clock : ℤ) (v : Verifier Key)
    (msg : HttpMessage) (label : Bytes) (entry : SignatureEntry) (r : VerifyResult)
    → verify_entry net registry clock v msg label entry ≡ ok r
    → (r.label ≡ label) × (r.entry ≡ entry) × IsVerified net registry clock v msg r
unfolding verify_entry
verify_entry-IsVerified {Key} net registry clock v msg label entry r h =
    let required = validate_required_components v.required_components entry.covered_components in
    let times = validate_signature_params clock entry.signature_params v.params_validation in
    let (u0, e0, h0) = >>=-eq-ok required _ h in
    let (u1, e1, h1) = >>=-eq-ok times _ h0 in
    let (p, e2, h2) = >>=-eq-ok (resolve_key_and_algorithm v label entry.signature_params) _ h1 in
    let (alg, e3, h3) = >>=-eq-ok (get_algorithm Key registry p.1) _ h2 in
    let (text, e4, h4) =
      >>=-eq-ok (build net msg entry.covered_components entry.signature_params) _ h3 in
    let (u5, e5, h5) = >>=-eq-ok (alg.verify text entry.signature_value p.0) _ h4 in
    let made : VerifyResult = record { label = label; entry = entry; signature_base = text } in
    let same : made ≡ r = ok_inj h5 in
    let own : IsVerified net registry clock v msg made = record {
      key = p.0;
      alg_id = p.1;
      alg = alg;
      covered = validate_required_components-All v.required_components entry.covered_components e0;
      timely = e1;
      resolved = resolve_key_and_algorithm-IsResolved v label entry.signature_params p.0 p.1 e2;
      registered = e3;
      rebuilt = e4;
      authentic = e5;
    } in
    (ap (λ x. x.label) (sym same), ap (λ x. x.entry) (sym same), rw same at own)

pub verify_message-IsVerified :
    {Key : Type 0} (net : UrlMethods) (registry : Registry Key) (clock : ℤ) (v : Verifier Key)
    (msg : HttpMessage) (headers : Header.Header) (r : VerifyResult)
    → verify_message net registry clock v msg headers ≡ ok r
    → (read_entry v
          (Header.get headers (codes "Signature-Input"))
          (Header.get headers (codes "Signature"))
        ≡ ok (r.label, r.entry))
      × IsVerified net registry clock v msg r
unfolding verify_message
verify_message-IsVerified net registry clock v msg headers r h =
    let get = Header.get headers in
    let (p, e, k) =
      >>=-eq-ok (read_entry v (get (codes "Signature-Input")) (get (codes "Signature"))) _ h in
    let (same_label, same_entry, verified) =
      verify_entry-IsVerified net registry clock v msg p.0 p.1 r k in
    (e ∙ (λ i. ok (sym same_label i, sym same_entry i)), verified)

IsVerified-verify_message :
    {Key : Type 0} (net : UrlMethods) (registry : Registry Key) (clock : ℤ) (v : Verifier Key)
    (msg : HttpMessage) (headers : Header.Header) (r : VerifyResult)
    → read_entry v
        (Header.get headers (codes "Signature-Input"))
        (Header.get headers (codes "Signature"))
      ≡ ok (r.label, r.entry)
    → IsVerified net registry clock v msg r
    → verify_message net registry clock v msg headers ≡ ok r
unfolding verify_message verify_entry
IsVerified-verify_message net registry clock v msg headers r h x =
    let covered =
      (validate_required_components_iff v.required_components r.entry.covered_components).1
        x.covered in
    let resolved =
      (resolve_key_and_algorithm_iff v r.label r.entry.signature_params x.key x.alg_id).1
        x.resolved in
    rw (h, covered, x.timely, resolved, x.registered, x.rebuilt, x.authentic) refl

-- The verifier accepts a message with a result exactly when both fields are given, Signature-Input
-- parses to an entry under the result's label, which is the label that the verifier asks for or
-- else that of the only entry, Signature has under the same label a byte sequence, the result's
-- entry is that entry with these bytes as its signature, it covers every required component and
-- passes the time policy, key and algorithm are those that the policy resolves, the base is rebuilt
-- from the message, and the registered algorithm accepts the signature over it.
pub verify_message_iff :
    {Key : Type 0} (net : UrlMethods) (registry : Registry Key) (clock : ℤ) (v : Verifier Key)
    (msg : HttpMessage) (headers : Header.Header) (r : VerifyResult)
    → (verify_message net registry clock v msg headers ≡ ok r) ↔ (
        IsCarried v
          (Header.get headers (codes "Signature-Input"))
          (Header.get headers (codes "Signature"))
          r.label
          r.entry
        × IsVerified net registry clock v msg r)
verify_message_iff net registry clock v msg headers r =
    let carried =
      read_entry_iff v (Header.get headers (codes "Signature-Input"))
        (Header.get headers (codes "Signature")) r.label r.entry in
    (
      (λ h.
          let (read, verified) = verify_message-IsVerified net registry clock v msg headers r h in
          (carried.0 read, verified)),
      (λ h. IsVerified-verify_message net registry clock v msg headers r (carried.1 h.0) h.1),
    )
