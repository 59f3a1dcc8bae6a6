-- ===== src/Base/Agreement.antt =====
-- The `@signature-params` line of a signature base (pkg/base/signature_params.go) carries the text
-- that Signature-Input carries (pkg/httpsig/serialize.go).
use http_message_signatures.Common.{
  ◌≡◌, refl, Bool, true, false, Option, none, some, List, [], ◌∷◌, ◌++◌, append-nil, append_assoc,
  All, Bytes, codes, ℤ,
}
use http_message_signatures.Parser.Types.{
  BareItemValue, boolean, integer, string, token, byte_sequence, Parameter, ComponentIdentifier,
  SignatureParams,
}
use http_message_signatures.Sfv.Types
use http_message_signatures.Sfv.Types.{Value, InnerList}
use http_message_signatures.Sfv.Serialize.{
  wrote, ◌<+>◌, serialize_string, write_bare_item, write_parameter_value, write_parameters,
  write_item, write_items, write_inner_list,
}
use http_message_signatures.Base.Line.{
  component_parameter_value, component_parameters, component_identifier, component_identifiers,
  int_param, string_param, signature_params_text, signature_params_line,
}
use http_message_signatures.Httpsig.Serialize.{
  bare_item_to_sfv, component_params_to_sfv, signature_params_to_sfv, component_items,
  signature_input_list, appended,
}
use http_message_signatures.Httpsig.Conversion.{is_value, HasValue}

write_parameter_value-bare_item_to_sfv :
    (v : BareItemValue)
    → is_value v ≡ true
    → write_parameter_value (bare_item_to_sfv v) ≡ wrote (component_parameter_value v)
unfolding write_parameter_value write_bare_item bare_item_to_sfv component_parameter_value
write_parameter_value-bare_item_to_sfv (boolean true) h = refl
write_parameter_value-bare_item_to_sfv (boolean false) h = refl
write_parameter_value-bare_item_to_sfv (integer v) h = refl
write_parameter_value-bare_item_to_sfv (string s) h = refl
write_parameter_value-bare_item_to_sfv (token s) h = refl
write_parameter_value-bare_item_to_sfv (byte_sequence s) h = refl
write_parameter_value-bare_item_to_sfv BareItemValue.nil h = cc

write_parameters-component_params_to_sfv :
    (params : List Parameter)
    → All HasValue params
    → write_parameters (component_params_to_sfv params) ≡ wrote (component_parameters params)
unfolding write_parameters component_params_to_sfv component_parameters
write_parameters-component_params_to_sfv [] h = refl
write_parameters-component_params_to_sfv (x ∷ params) h =
    rw
      (
        write_parameter_value-bare_item_to_sfv x.value h.0,
        write_parameters-component_params_to_sfv params h.1,
      )
      refl

-- The name stands in the base as it is, and the serializer escapes nothing in it.
abbrev pub IsPlain : ComponentIdentifier → Type 0
IsPlain c = (serialize_string c.name ≡ b'"' ∷ (c.name ++ b'"' ∷ [])) × All HasValue c.parameters

write_items-component_items :
    (later : Bool) (cs : List ComponentIdentifier)
    → All IsPlain cs
    → write_items later (component_items cs) ≡ wrote (component_identifiers later cs)
unfolding write_items write_item write_bare_item component_items component_identifiers
    component_identifier
write_items-component_items later [] h = refl
write_items-component_items later (c ∷ cs) h =
    rw
      (
        write_parameters-component_params_to_sfv c.parameters h.0.1,
        write_items-component_items true cs h.1,
        h.0.0,
      )
      (simp append_assoc)

write_parameters-int :
    (k : Bytes) (o : Option ℤ) (rest : List Types.Parameter) (b : Bytes)
    → write_parameters rest ≡ wrote b
    → write_parameters (appended k Value.int64 o ++ rest)
      ≡ wrote (int_param (b';' ∷ (k ++ codes "=")) o ++ b)
unfolding write_parameters write_parameter_value write_bare_item
write_parameters-int k none rest b h = h
write_parameters-int k (some v) rest b h = rw h (simp append_assoc)

write_parameters-string :
    (k : Bytes) (o : Option Bytes) (rest : List Types.Parameter) (b : Bytes)
    → write_parameters rest ≡ wrote b
    → write_parameters (appended k Value.string o ++ rest)
      ≡ wrote (string_param (b';' ∷ (k ++ codes "=")) o ++ b)
unfolding write_parameters write_parameter_value write_bare_item
write_parameters-string k none rest b h = h
write_parameters-string k (some s) rest b h = rw h (simp append_assoc)

write_parameters-signature_params_to_sfv :
    (p : SignatureParams)
    → write_parameters (signature_params_to_sfv p) ≡ wrote (signature_params_text p)
unfolding signature_params_to_sfv signature_params_text write_parameters
write_parameters-signature_params_to_sfv p =
    let last =
      rw
        (
          append-nil (appended (codes "tag") Value.string p.tag),
          append-nil (string_param (codes ";tag=") p.tag),
        )
        at (write_parameters-string (codes "tag") p.tag [] [] refl) in
    write_parameters-int (codes "created") p.created _ _ (
      write_parameters-int (codes "expires") p.expires _ _ (
        write_parameters-string (codes "nonce") p.nonce _ _ (
          write_parameters-string (codes "alg") p.algorithm _ _
            (write_parameters-string (codes "keyid") p.key_id _ _ last))))

-- For components whose parameters have values and whose names the serializer quotes without an
-- escape, the @signature-params line of the base is its prefix and the inner list as the
-- structured-field serializer writes it for Signature-Input.
pub signature_params_line_lem :
    (cs : List ComponentIdentifier) (params : SignatureParams)
    → All IsPlain cs
    → (wrote (codes "\"@signature-params\": ")
        <+> write_inner_list (signature_input_list cs params))
      ≡ wrote (signature_params_line cs params)
unfolding write_inner_list signature_input_list signature_params_line
signature_params_line_lem cs params h =
    rw (write_items-component_items false cs h, write_parameters-signature_params_to_sfv params)
      refl
