-- ===== src/Httpsig/Accepts.antt =====
-- A verifier of pkg/httpsig accepts the message that a signer signed, if its policy does.
use http_message_signatures.Common.{
  ◌≡◌, refl, sym, ◌∙◌, ◌⊎◌, inl, inr, false, [], ◌∷◌, length, All, Bytes, codes, equal, equal_refl,
  lookup, ℤ,
}
use http_message_signatures.Errors.{ok, bad_signature, label_required, error_if->>=}
use http_message_signatures.Stdlib.Header
use http_message_signatures.Sfv.Types.{Limits, Value, item, inner_list, exceeds}
use http_message_signatures.Sfv.Reads.Dictionaries.{keys_of}
use http_message_signatures.Sfv.Reads.Dictionaries.RoundTrip.{IsDictionary}
use http_message_signatures.Parser.Types.{SignatureEntry}
use http_message_signatures.Parser.Signatures.{signature_bytes}
use http_message_signatures.Parser.Times.{validate_signature_params}
use http_message_signatures.Base.Message.{UrlMethods, HttpMessage}
use http_message_signatures.Base.Build.{build}
use http_message_signatures.Signing.{Algorithm, Registry, get_algorithm}
use http_message_signatures.Httpsig.Serialize.{
  is_empty, signature_input_list, serialize_signature_input, serialize_signature,
}
use http_message_signatures.Httpsig.Equality.{validate_required_components}
use http_message_signatures.Httpsig.Conversion.{IsComponent}
use http_message_signatures.Httpsig.RoundTrip.{
  input_entries, signature_entries, one_text, one_text_given, parse_dictionary_one,
  serialize_signature_lem, parse_signature_input-serialize_signature_input,
}
use http_message_signatures.Httpsig.Signer.{Signer, SignatureHeaders, sign_message, attach}
use http_message_signatures.Httpsig.Policy.{Verifier, resolve_key_and_algorithm}
use http_message_signatures.Httpsig.Verifier.{
  read_entry, choose_label, verify_entry, verify_message,
}

-- When a signer's two fields are set on any header, both are read back from it.
pub get-attach :
    (headers : SignatureHeaders) (h : Header.Header)
    → (Header.get (attach headers h) (codes "Signature-Input") ≡ headers.signature_input)
      × (Header.get (attach headers h) (codes "Signature") ≡ headers.signature)
unfolding attach Header.canonical_header_key equal
get-attach headers h =
    let input = codes "Signature-Input" in
    let own = codes "Signature" in
    let first = Header.set h input headers.signature_input in
    (
      Header.get-set first own headers.signature input
          ∙ Header.get-set h input headers.signature_input input,
      Header.get-set first own headers.signature own,
    )

-- The entry that a signer's message carries.
abbrev pub signed_entry : {Key : Type 0} → Signer Key → Bytes → SignatureEntry
signed_entry s signature = record {
  label = s.label;
  covered_components = s.components;
  signature_params = s.params;
  signature_value = signature;
}

-- The two fields that the signer writes.
abbrev pub written_headers : {Key : Type 0} → Signer Key → Bytes → SignatureHeaders
written_headers s text = record { signature_input = s.sig_input; signature = text }

-- What was written can be read under the limits.
pub record IsReadable {Key : Type 0} (limits : Limits) (s : Signer Key) (signature text : Bytes)
    : Type 0 where
  pub components : All IsComponent s.components
  pub input : IsDictionary limits (input_entries s.label s.components s.params)
  pub input_short : exceeds limits.max_input_length (length s.sig_input) ≡ false
  pub value : IsDictionary limits (signature_entries s.label signature)
  pub value_short : exceeds limits.max_input_length (length text) ≡ false

-- The verifier asks for no label, or for this one.
abbrev pub AsksFor : Bytes → Bytes → Type 0
AsksFor asked label = (asked ≡ []) ⊎ (asked ≡ label)

choose_label_one :
    (asked label : Bytes) (entry : SignatureEntry)
    → AsksFor asked label
    → is_empty label ≡ false
    → choose_label asked ((label, entry) ∷ []) ≡ ok label
unfolding choose_label
choose_label_one asked label entry (inl e) h = rw e refl
choose_label_one asked [] entry (inr e) h = cc
choose_label_one asked (c ∷ label) entry (inr e) h = rw e refl

read_entry-serialize :
    {Key : Type 0} (v : Verifier Key) (s : Signer Key) (signature text : Bytes)
    → AsksFor v.label s.label
    → IsReadable v.limits s signature text
    → serialize_signature_input s.label s.components s.params ≡ ok s.sig_input
    → serialize_signature s.label signature ≡ ok text
    → read_entry v s.sig_input text ≡ ok (s.label, signed_entry s signature)
unfolding read_entry serialize_signature_input signature_bytes lookup keys_of
read_entry-serialize v s signature text asks h w w' =
    let (given, w0) = error_if->>= (is_empty s.label) label_required _ w in
    let v0 = inner_list (signature_input_list s.components s.params) in
    let own = item (record { value = Value.bytes signature; parameters = [] }) in
    let same0 = one_text v.limits s.label v0 s.sig_input h.input w0 in
    let same1 =
      one_text v.limits s.label own text h.value
        (sym (serialize_signature_lem s.label signature given) ∙ w') in
    let given0 : is_empty s.sig_input ≡ false = rw same0 at (one_text_given s.label v0 given) in
    let given1 : is_empty text ≡ false = rw same1 at (one_text_given s.label own given) in
    let read0 =
      parse_signature_input-serialize_signature_input v.limits s.label s.sig_input s.components
        s.params h.components h.input h.input_short w in
    let read1 =
      parse_dictionary_one v.limits s.label own text bad_signature h.value same1 h.value_short in
    rw
      (
        given0,
        given1,
        read0,
        read1,
        choose_label_one v.label s.label _ asks given,
        equal_refl s.label,
      )
      refl

-- The policy of the verifier allows the signed message, and the algorithm that it resolves accepts
-- this signature of this base.
pub record Accepts {Key : Type 0} (registry : Registry Key) (clock : ℤ) (v : Verifier Key)
    (s : Signer Key) (sig_base signature : Bytes) : Type 0 where
  pub key : Key
  pub alg_id : Bytes
  pub alg : Algorithm Key
  pub label : AsksFor v.label s.label
  pub covered : validate_required_components v.required_components s.components ≡ ok tt
  pub timely : validate_signature_params clock s.params v.params_validation ≡ ok tt
  pub resolved : resolve_key_and_algorithm v s.label s.params ≡ ok (key, alg_id)
  pub registered : get_algorithm Key registry alg_id ≡ ok alg
  pub authentic : alg.verify sig_base signature key ≡ ok tt

-- If the signer's Signature-Input is the serialization of its components and parameters, the
-- signature base of the message can be built, the signer's algorithm returns a signature, what is
-- written is within the limits of the verifier's parser with components that the parser accepts,
-- and the verifier's policy and algorithm accept them, then the signer returns both fields, and the
-- verifier accepts the message with any header fields in which these two are set, and returns the
-- signer's components and parameters, the signature, and the base that was signed.
pub verify_message-sign_message :
    {Key : Type 0} (net : UrlMethods) (registry : Registry Key) (clock : ℤ) (s : Signer Key)
    (v : Verifier Key) (msg : HttpMessage) (h : Header.Header) (sig_base signature text : Bytes)
    → serialize_signature_input s.label s.components s.params ≡ ok s.sig_input
    → build net msg s.components s.params ≡ ok sig_base
    → s.alg.sign sig_base s.key ≡ ok signature
    → serialize_signature s.label signature ≡ ok text
    → IsReadable v.limits s signature text
    → Accepts registry clock v s sig_base signature
    → (sign_message net s msg ≡ ok (written_headers s text))
      × (verify_message net registry clock v msg (attach (written_headers s text) h)
          ≡ ok (record {
            label = s.label;
            entry = signed_entry s signature;
            signature_base = sig_base;
          }))
unfolding sign_message verify_message verify_entry
verify_message-sign_message net registry clock s v msg h sig_base signature text made built signed
      wrote readable accepts =
    let (input, value) = get-attach (written_headers s text) h in
    let read = read_entry-serialize v s signature text accepts.label readable made wrote in
    (
      rw (built, signed, wrote) refl,
      rw
          (
            input, value, read, accepts.covered, accepts.timely, accepts.resolved,
            accepts.registered, built, accepts.authentic,
          )
          refl,
    )
