-- ===== src/Parser/Validator.antt =====
-- pkg/parser/validator.go
use http_message_signatures.Common.{
  Bool, true, false, not, ◌&&◌, ◌||◌, List, [], ◌∷◌, if◌then◌else◌, Bytes, codes, equal,
}
use http_message_signatures.Errors.{
  Outcome, ok, ◌>>◌, error_if, reserved_component, invalid_derived_component,
  missing_name_parameter, bs_excludes_sf, bs_excludes_key, key_requires_sf,
}
use http_message_signatures.Parser.Types.{ComponentType, derived, Parameter, ComponentIdentifier}

-- `validDerivedComponents`
abbrev pub valid_derived_components : List Bytes
valid_derived_components =
    codes "@method"
    ∷ codes "@target-uri"
    ∷ codes "@authority"
    ∷ codes "@scheme"
    ∷ codes "@request-target"
    ∷ codes "@path"
    ∷ codes "@query"
    ∷ codes "@query-param"
    ∷ codes "@status"
    ∷ []

-- `reservedDerivedComponents`
abbrev pub reserved_derived_components : List Bytes
reserved_derived_components = codes "@signature-params" ∷ []

-- A lookup in a map from names to true.
unfoldable pub contains : List Bytes → Bytes → Bool
contains [] name = false
contains (x ∷ xs) name = equal x name || contains xs name

-- Some parameter has this key.
unfoldable pub has_key : Bytes → List Parameter → Bool
has_key k [] = false
has_key k (x ∷ params) = equal x.key k || has_key k params

-- `validateDerivedComponentParameters`
unfoldable pub validate_derived_component_parameters : ComponentIdentifier → Outcome (Unit {0})
validate_derived_component_parameters c =
    error_if (equal c.name (codes "@query-param") && not (has_key (codes "name") c.parameters))
      (missing_name_parameter c.name)

-- `validateParameterCombinations`
unfoldable pub validate_parameter_combinations : ComponentIdentifier → Outcome (Unit {0})
validate_parameter_combinations c = do
  let has_bs = has_key (codes "bs") c.parameters
  let has_sf = has_key (codes "sf") c.parameters
  let has_key_param = has_key (codes "key") c.parameters
  error_if (has_bs && has_sf) (bs_excludes_sf c.name)
  error_if (has_bs && has_key_param) (bs_excludes_key c.name)
  error_if (has_key_param && not has_sf) (key_requires_sf c.name)

-- The checks of a derived component
unfoldable pub validate_derived : ComponentIdentifier → Outcome (Unit {0})
validate_derived c = do
  error_if (contains reserved_derived_components c.name) (reserved_component c.name)
  error_if (not (contains valid_derived_components c.name)) (invalid_derived_component c.name)
  validate_derived_component_parameters c

abbrev pub is_derived_type : ComponentType → Bool
is_derived_type derived = true
is_derived_type _ = false

-- `validateComponentIdentifier`
unfoldable pub validate_component_identifier : ComponentIdentifier → Outcome (Unit {0})
validate_component_identifier c = do
  if is_derived_type c.type then validate_derived c else ok tt
  validate_parameter_combinations c
