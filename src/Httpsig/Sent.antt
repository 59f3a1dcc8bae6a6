-- ===== src/Httpsig/Sent.antt =====
-- pkg/httpsig/signer.go and verifier.go: a request or a response from the options of its signer to
-- the verifier.
use http_message_signatures.Common.{
  ◌≡◌, refl, ap, ◌∙◌, false, Option, none, some, if◌then◌else◌, All, Bytes, ℤ,
}
use http_message_signatures.Stdlib.Header
use http_message_signatures.Errors.{ok, >>=-eq-ok, algorithm_required, error_if->>=, ok_inj}
use http_message_signatures.Base.Message.{
  fields, UrlMethods, Request, Response, request, wrap_request, wrap_response,
}
use http_message_signatures.Base.Build.{build}
use http_message_signatures.Signing.{Registry, get_algorithm}
use http_message_signatures.Httpsig.Serialize.{
  is_empty, serialize_signature_input, serialize_signature,
}
use http_message_signatures.Httpsig.Signer.{
  Time, SignerOptions, Signer, default_label, present, signer_params, new_signer, sign_message,
  sign_request, sign_response, attach_to,
}
use http_message_signatures.Httpsig.Policy.{Verifier, VerifyResult}
use http_message_signatures.Httpsig.Verifier.{verify_request, verify_response}
use http_message_signatures.Httpsig.Accepts.{
  IsReadable, Accepts, signed_entry, written_headers, verify_message-sign_message,
}
use http_message_signatures.Httpsig.Attached.{
  IsOther, sent_request, sent_response, build-sent_request, build-sent_response,
  build-filled_response,
}

-- The signer that NewSigner makes of its options.
pub record IsSigner {Key : Type 0} (registry : Registry Key) (clock : Time)
    (opts : SignerOptions Key) (s : Signer Key) : Type 0 where
  pub named : is_empty opts.algorithm ≡ false
  pub key : opts.key ≡ some s.key
  pub registered : get_algorithm Key registry opts.algorithm ≡ ok s.alg
  pub label : s.label ≡ (if is_empty opts.label then default_label else opts.label)
  pub components : s.components ≡ opts.components
  pub params : s.params ≡ signer_params clock opts
  pub written_input : serialize_signature_input s.label s.components s.params ≡ ok s.sig_input

present-ok : {Key : Type 0} (o : Option Key) (k : Key) → present o ≡ ok k → o ≡ some k
present-ok none k h = cc
present-ok (some j) k h = ap some (ok_inj h)

pub new_signer-IsSigner :
    {Key : Type 0} (registry : Registry Key) (clock : Time) (opts : SignerOptions Key)
    (s : Signer Key)
    → new_signer registry clock opts ≡ ok s
    → IsSigner registry clock opts s
unfolding new_signer
new_signer-IsSigner {Key} registry clock opts s h =
    let (named, h1) = error_if->>= (is_empty opts.algorithm) algorithm_required _ h in
    let (key, given, h2) = >>=-eq-ok (present opts.key) _ h1 in
    let (alg, registered, h3) = >>=-eq-ok (get_algorithm Key registry opts.algorithm) _ h2 in
    let label = if is_empty opts.label then default_label else opts.label in
    let params = signer_params clock opts in
    let (text, wrote_text, h4) =
      >>=-eq-ok (serialize_signature_input label opts.components params) _ h3 in
    let made : Signer Key = record {
      label = label;
      components = opts.components;
      params = params;
      alg = alg;
      key = key;
      sig_input = text;
    } in
    let own : IsSigner registry clock opts made = record {
      named = named;
      key = present-ok opts.key key given;
      registered = registered;
      label = refl;
      components = refl;
      params = refl;
      written_input = wrote_text;
    } in
    let same : made ≡ s = ok_inj h4 in rw same at own

-- The result that a verifier returns for a signed message
abbrev pub verified : {Key : Type 0} → Signer Key → Bytes → Bytes → VerifyResult
verified s signature sig_base = record {
  label = s.label;
  entry = signed_entry s signature;
  signature_base = sig_base;
}

-- If a request has a map of header fields, a signer was made of its options, its components are
-- none of the two fields that it sets, the signature base of the request can be built, the signer's
-- algorithm returns a signature, what is written is within the limits of the verifier's parser with
-- components that the parser accepts, and the verifier's policy and algorithm accept them, then the
-- signing of the request succeeds with both fields set on it, and the verification of that request
-- succeeds and returns the signer's components and parameters, the signature, and the base that was
-- signed.
pub verify_request-sign_request :
    {Key : Type 0} (net : UrlMethods) (registry : Registry Key) (now : Time) (clock : ℤ)
    (opts : SignerOptions Key) (s : Signer Key) (v : Verifier Key) (sig_base signature text : Bytes)
    (req : Request) (h : Header.Header)
    → req.header ≡ some h
    → new_signer registry now opts ≡ ok s
    → All IsOther s.components
    → build net (request (wrap_request req)) s.components s.params ≡ ok sig_base
    → s.alg.sign sig_base s.key ≡ ok signature
    → serialize_signature s.label signature ≡ ok text
    → IsReadable v.limits s signature text
    → Accepts registry clock v s sig_base signature
    → (sign_request net s (some req)
        ≡ ok (written_headers s text, sent_request (written_headers s text) req))
      × (verify_request net registry clock v (some (sent_request (written_headers s text) req))
          ≡ ok (verified s signature sig_base))
unfolding sign_request verify_request sign_message attach_to
verify_request-sign_request net registry now clock opts s v sig_base signature text req h given made
      others built signed wrote_text readable accepts =
    let headers = written_headers s text in
    let input = (new_signer-IsSigner registry now opts s made).written_input in
    let built_again = build-sent_request net headers req s.components s.params others ∙ built in
    (
      rw (built, signed, wrote_text, given) refl,
      (verify_message-sign_message net registry clock s v
          (request (wrap_request (sent_request headers req))) (fields req.header) sig_base signature
          text input built_again signed wrote_text readable accepts).1,
    )

-- If a signer was made of its options, its components are none of the two fields that it sets, the
-- signature base of a response and the request that it answers, if any, can be built, the signer's
-- algorithm returns a signature, what is written is within the limits of the verifier's parser with
-- components that the parser accepts, and the verifier's policy and algorithm accept them, then the
-- signing of the response succeeds with both fields set on it, also where it has no map of header
-- fields, and the verification of that response succeeds and returns the signer's components and
-- parameters, the signature, and the base that was signed.
pub verify_response-sign_response :
    {Key : Type 0} (net : UrlMethods) (registry : Registry Key) (now : Time) (clock : ℤ)
    (opts : SignerOptions Key) (s : Signer Key) (v : Verifier Key) (sig_base signature text : Bytes)
    (resp : Response) (related : Option Request)
    → new_signer registry now opts ≡ ok s
    → All IsOther s.components
    → build net (wrap_response resp related) s.components s.params ≡ ok sig_base
    → s.alg.sign sig_base s.key ≡ ok signature
    → serialize_signature s.label signature ≡ ok text
    → IsReadable v.limits s signature text
    → Accepts registry clock v s sig_base signature
    → (sign_response net s (some resp) related
        ≡ ok (written_headers s text, sent_response (written_headers s text) resp))
      × (verify_response net registry clock v
            (some (sent_response (written_headers s text) resp))
            related
          ≡ ok (verified s signature sig_base))
unfolding sign_response verify_response sign_message
verify_response-sign_response net registry now clock opts s v sig_base signature text resp related
      made others built signed wrote_text readable accepts =
    let headers = written_headers s text in
    let input = (new_signer-IsSigner registry now opts s made).written_input in
    let built_again =
      build-sent_response net headers resp related s.components s.params others ∙ built in
    let filled_built = build-filled_response net resp related s.components s.params ∙ built in
    (
      rw (filled_built, signed, wrote_text) refl,
      (verify_message-sign_message net registry clock s v
          (wrap_response (sent_response headers resp) related) (fields resp.header) sig_base
          signature text input built_again signed wrote_text readable accepts).1,
    )
