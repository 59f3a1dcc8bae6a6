-- ===== src/Httpsig/Equality.antt =====
-- pkg/httpsig/verifier.go: equality of component identifiers, and the components that a policy
-- requires.
use http_message_signatures.Common.{Bool, true, false, not, ◌&&◌, ◌||◌, List, [], ◌∷◌, equal}
use http_message_signatures.Errors.{Outcome, ok, ◌>>◌, error_if, required_component_missing}
use http_message_signatures.Parser.Types.{
  BareItemValue, boolean, integer, string, token, byte_sequence, Parameter, ComponentIdentifier,
  same_integer, same_type,
}

abbrev same_bool : Bool → Bool → Bool
same_bool true b = b
same_bool false b = not b

-- `bareItemEqual`
unfoldable pub bare_item_equal : BareItemValue → BareItemValue → Bool
bare_item_equal (boolean a) (boolean b) = same_bool a b
bare_item_equal (integer a) (integer b) = same_integer a b
bare_item_equal (string a) (string b) = equal a b
bare_item_equal (token a) (token b) = equal a b
bare_item_equal (byte_sequence a) (byte_sequence b) = equal a b
bare_item_equal BareItemValue.nil BareItemValue.nil = true
bare_item_equal _ _ = false

-- `parameterEqual`
unfoldable pub parameter_equal : Parameter → Parameter → Bool
parameter_equal a b = equal a.key b.key && bare_item_equal a.value b.value

-- The loop of `componentEqual`, with its test of the lengths.
unfoldable pub parameters_equal : List Parameter → List Parameter → Bool
parameters_equal [] [] = true
parameters_equal (a ∷ ps) (b ∷ qs) = parameter_equal a b && parameters_equal ps qs
parameters_equal _ _ = false

-- `componentEqual`
unfoldable pub component_equal : ComponentIdentifier → ComponentIdentifier → Bool
component_equal a b =
    equal a.name b.name && same_type a.type b.type && parameters_equal a.parameters b.parameters

-- `componentInList`
unfoldable pub component_in_list : List ComponentIdentifier → ComponentIdentifier → Bool
component_in_list [] target = false
component_in_list (c ∷ cs) target = component_equal c target || component_in_list cs target

-- `validateRequiredComponents`, over the required components.
unfoldable pub validate_required_components :
    List ComponentIdentifier → List ComponentIdentifier → Outcome (Unit {0})
validate_required_components [] covered = ok tt
validate_required_components (c ∷ required) covered = do
  error_if (not (component_in_list covered c)) (required_component_missing c.name)
  validate_required_components required covered
