-- ===== src/Httpsig/Serialize.antt =====
-- pkg/httpsig/serialize.go
use http_message_signatures.Common.{
  Bool, true, false, Option, none, some, List, [], ◌∷◌, ◌++◌, Bytes, codes,
}
use http_message_signatures.Stdlib.Base64
use http_message_signatures.Errors.{Outcome, ok, ◌>>◌, error_if, written, label_required}
use http_message_signatures.Parser.Types.{
  BareItemValue, boolean, integer, string, token, byte_sequence, Parameter, ComponentIdentifier,
  SignatureParams,
}
use http_message_signatures.Sfv.Types
use http_message_signatures.Sfv.Types.{Value, InnerList, inner_list, Item, Dictionary}
use http_message_signatures.Sfv.Serialize.{serialize_dictionary}

-- `bareItemToSFV`
unfoldable pub bare_item_to_sfv : BareItemValue → Value
bare_item_to_sfv (boolean b) = Value.bool b
bare_item_to_sfv (integer v) = Value.int64 v
bare_item_to_sfv (string s) = Value.string s
bare_item_to_sfv (token s) = Value.token s
bare_item_to_sfv (byte_sequence s) = Value.bytes s
bare_item_to_sfv BareItemValue.nil = Value.nil

-- `componentParamsToSFV`
unfoldable pub component_params_to_sfv : List Parameter → List Types.Parameter
component_params_to_sfv [] = []
component_params_to_sfv (x ∷ params) =
    record { key = x.key; value = bare_item_to_sfv x.value } ∷ component_params_to_sfv params

-- One `append` of `signatureParamsToSFV`, of a parameter that is present.
abbrev pub appended : {A : Type 0} → Bytes → (A → Value) → Option A → List Types.Parameter
appended k f none = []
appended k f (some v) = record { key = k; value = f v } ∷ []

-- `signatureParamsToSFV`
unfoldable pub signature_params_to_sfv : SignatureParams → List Types.Parameter
signature_params_to_sfv p =
    appended (codes "created") Value.int64 p.created
    ++ (appended (codes "expires") Value.int64 p.expires
        ++ (appended (codes "nonce") Value.string p.nonce
            ++ (appended (codes "alg") Value.string p.algorithm
                ++ (appended (codes "keyid") Value.string p.key_id
                    ++ appended (codes "tag") Value.string p.tag))))

-- The items of `serializeSignatureInput`
unfoldable pub component_items : List ComponentIdentifier → List Item
component_items [] = []
component_items (c ∷ cs) =
    record { value = Value.string c.name; parameters = component_params_to_sfv c.parameters }
    ∷ component_items cs

-- The member that `serializeSignatureInput` stores under the label.
unfoldable pub signature_input_list : List ComponentIdentifier → SignatureParams → InnerList
signature_input_list cs params = record {
  items = component_items cs;
  parameters = signature_params_to_sfv params;
}

abbrev pub is_empty : Bytes → Bool
is_empty [] = true
is_empty (_ ∷ _) = false

-- `serializeSignatureInput`
unfoldable pub serialize_signature_input :
    Bytes → List ComponentIdentifier → SignatureParams → Outcome Bytes
serialize_signature_input label cs params = do
  error_if (is_empty label) label_required
  written (
      serialize_dictionary (record {
        keys = label ∷ [];
        values = (label, inner_list (signature_input_list cs params)) ∷ [];
      }))

-- `serializeSignature`
unfoldable pub serialize_signature : Bytes → Bytes → Outcome Bytes
serialize_signature label signature = do
  error_if (is_empty label) label_required
  ok (label ++ (codes "=:" ++ (Base64.encode signature ++ b':' ∷ [])))
