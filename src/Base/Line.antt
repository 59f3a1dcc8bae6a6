-- ===== src/Base/Line.antt =====
-- pkg/base/signature_params.go and component_line.go: the lines of a signature base.
use http_message_signatures.Common.{
  Bool, true, false, Option, none, some, List, [], ◌∷◌, ◌++◌, if◌then◌else◌, Bytes, codes, ℤ,
}
use http_message_signatures.Stdlib.Base64.{encode}
use http_message_signatures.Stdlib.Strconv.{format_int}
use http_message_signatures.Sfv.Serialize.{serialize_string}
use http_message_signatures.Parser.Types.{
  BareItemValue, boolean, integer, string, token, byte_sequence, Parameter, ComponentIdentifier,
  SignatureParams,
}

-- The type switch of `writeComponentIdentifier`: what stands behind a parameter's key.
unfoldable pub component_parameter_value : BareItemValue → Bytes
component_parameter_value (boolean true) = []
component_parameter_value (boolean false) = codes "=?0"
component_parameter_value (string v) = b'=' ∷ serialize_string v
component_parameter_value (token v) = b'=' ∷ v
component_parameter_value (integer v) = b'=' ∷ format_int v
component_parameter_value (byte_sequence v) = codes "=:" ++ (encode v ++ b':' ∷ [])
component_parameter_value BareItemValue.nil = []

unfoldable pub component_parameters : List Parameter → Bytes
component_parameters [] = []
component_parameters (x ∷ params) =
    b';' ∷ (x.key ++ (component_parameter_value x.value ++ component_parameters params))

-- `writeComponentIdentifier`. The name is written as it is.
unfoldable pub component_identifier : ComponentIdentifier → Bytes
component_identifier c = b'"' ∷ (c.name ++ b'"' ∷ component_parameters c.parameters)

-- `writeComponentLine`
unfoldable pub component_line : ComponentIdentifier → Bytes → Bytes
component_line c value = component_identifier c ++ (codes ": " ++ value)

-- The identifiers in the inner list; the flag is `i > 0`.
unfoldable pub component_identifiers : Bool → List ComponentIdentifier → Bytes
component_identifiers later [] = []
component_identifiers later (c ∷ cs) =
    (if later then b' ' ∷ [] else []) ++ (component_identifier c ++ component_identifiers true cs)

-- One optional parameter of the signature.
abbrev pub int_param : Bytes → Option ℤ → Bytes
int_param front none = []
int_param front (some v) = front ++ format_int v

abbrev pub string_param : Bytes → Option Bytes → Bytes
string_param front none = []
string_param front (some s) = front ++ serialize_string s

-- The parameters of `writeSignatureParamsLine`, in its order.
unfoldable pub signature_params_text : SignatureParams → Bytes
signature_params_text p =
    int_param (codes ";created=") p.created
    ++ (int_param (codes ";expires=") p.expires
        ++ (string_param (codes ";nonce=") p.nonce
            ++ (string_param (codes ";alg=") p.algorithm
                ++ (string_param (codes ";keyid=") p.key_id
                    ++ string_param (codes ";tag=") p.tag))))

-- `writeSignatureParamsLine`
unfoldable pub signature_params_line : List ComponentIdentifier → SignatureParams → Bytes
signature_params_line cs p =
    codes "\"@signature-params\": ("
    ++ (component_identifiers false cs ++ (b')' ∷ signature_params_text p))
