-- ===== src/Httpsig/Conversion.antt =====
-- The conversions of pkg/httpsig/serialize.go are undone by those of pkg/parser/parser.go.
use http_message_signatures.Common.{
  ℕ, ◌+◌, ◌≡◌, refl, sym, ap, ◌∙◌, Bool, true, false, Option, none, some, List, [], ◌∷◌, ◌++◌,
  append-nil, All, Bytes, codes, equal, ℤ,
}
use http_message_signatures.Errors.{ok}
use http_message_signatures.Sfv.Types
use http_message_signatures.Sfv.Types.{Value}
use http_message_signatures.Parser.Types.{
  BareItemValue, boolean, integer, string, token, byte_sequence, Parameter, ComponentIdentifier,
  SignatureParams, no_params,
}
use http_message_signatures.Parser.Validator.{validate_component_identifier}
use http_message_signatures.Parser.Signatures.{
  convert_bare_item, convert_parameters, type_of_name, component_of_item, covered_components,
  extract_param, extract_signature_params,
}
use http_message_signatures.Httpsig.Serialize.{
  bare_item_to_sfv, component_params_to_sfv, signature_params_to_sfv, component_items, appended,
}

-- The value is not the nil interface.
abbrev pub is_value : BareItemValue → Bool
is_value BareItemValue.nil = false
is_value _ = true

convert_bare_item-bare_item_to_sfv :
    (v : BareItemValue) → is_value v ≡ true → convert_bare_item (bare_item_to_sfv v) ≡ v
unfolding convert_bare_item bare_item_to_sfv
convert_bare_item-bare_item_to_sfv (boolean b) h = refl
convert_bare_item-bare_item_to_sfv (integer v) h = refl
convert_bare_item-bare_item_to_sfv (string s) h = refl
convert_bare_item-bare_item_to_sfv (token s) h = refl
convert_bare_item-bare_item_to_sfv (byte_sequence s) h = refl
convert_bare_item-bare_item_to_sfv BareItemValue.nil h = cc

abbrev pub HasValue : Parameter → Type 0
HasValue x = is_value x.value ≡ true

convert_parameters-component_params_to_sfv :
    (params : List Parameter)
    → All HasValue params
    → convert_parameters (component_params_to_sfv params) ≡ params
unfolding convert_parameters component_params_to_sfv
convert_parameters-component_params_to_sfv [] h = refl
convert_parameters-component_params_to_sfv (x ∷ params) h =
    let v = convert_bare_item-bare_item_to_sfv x.value h.0 in
    let more = convert_parameters-component_params_to_sfv params h.1 in
    λ i. record { key = x.key; value = v i } ∷ more i

-- A component that the parser accepts, with the type that its name has.
pub record IsComponent (c : ComponentIdentifier) : Type 0 where
  pub typed : type_of_name c.name ≡ c.type
  pub valid : validate_component_identifier c ≡ ok tt
  pub valued : All HasValue c.parameters

-- Components that the parser accepts survive the conversion to items of an inner list and back,
-- from any position.
pub covered_components-component_items :
    (i : ℕ) (cs : List ComponentIdentifier)
    → All IsComponent cs
    → covered_components i (component_items cs) ≡ ok cs
unfolding covered_components component_items component_of_item
covered_components-component_items i [] h = refl
covered_components-component_items i (c ∷ cs) h =
    let good = h.0 in
    let again = convert_parameters-component_params_to_sfv c.parameters good.valued in
    rw (good.typed, again, good.valid, covered_components-component_items (i + 1) cs h.1) refl

-- One optional parameter, stored into the place that `set` stands for.
extract_signature_params-appended :
    {A : Type 0} (k : Bytes) (f : A → Value) (set : Option A → SignatureParams)
    → ((a : A) → extract_param (record { key = k; value = f a }) (set none) ≡ ok (set (some a)))
    → (o : Option A) (rest : List Types.Parameter)
    → extract_signature_params (set none) (appended k f o ++ rest)
      ≡ extract_signature_params (set o) rest
unfolding extract_signature_params
extract_signature_params-appended k f set step none rest = refl
extract_signature_params-appended k f set step (some a) rest = rw (step a) refl

-- The six parameters of a signature, present or absent, survive the conversion to structured-field
-- parameters and back.
pub extract_signature_params-signature_params_to_sfv :
    (p : SignatureParams) → extract_signature_params no_params (signature_params_to_sfv p) ≡ ok p
unfolding signature_params_to_sfv extract_signature_params extract_param equal
extract_signature_params-signature_params_to_sfv p =
    let s1 : Option ℤ → SignatureParams = λ o. record no_params { created = o } in
    let s2 : Option ℤ → SignatureParams = λ o. record (s1 p.created) { expires = o } in
    let s3 : Option Bytes → SignatureParams = λ o. record (s2 p.expires) { nonce = o } in
    let s4 : Option Bytes → SignatureParams = λ o. record (s3 p.nonce) { algorithm = o } in
    let s5 : Option Bytes → SignatureParams = λ o. record (s4 p.algorithm) { key_id = o } in
    let s6 : Option Bytes → SignatureParams = λ o. record (s5 p.key_id) { tag = o } in
    let last = appended (codes "tag") Value.string p.tag in
    extract_signature_params-appended (codes "created") Value.int64 s1 (λ a. refl) p.created _
    ∙ (extract_signature_params-appended (codes "expires") Value.int64 s2 (λ a. refl) p.expires _
        ∙ (extract_signature_params-appended (codes "nonce") Value.string s3 (λ a. refl) p.nonce _
            ∙ (extract_signature_params-appended (codes "alg") Value.string s4 (λ a. refl)
                  p.algorithm _
                ∙ (extract_signature_params-appended (codes "keyid") Value.string s5 (λ a. refl)
                      p.key_id _
                    ∙ (ap (extract_signature_params (s6 none)) (sym (append-nil last))
                        ∙ extract_signature_params-appended (codes "tag") Value.string s6
                            (λ a. refl) p.tag [])))))
