-- ===== src/Parser/Valid.antt =====
-- What holds of every component identifier that the parser returns (pkg/parser/validator.go).
use http_message_signatures.Common.{
  ℕ, ◌+◌, ◌≡◌, refl, sym, ◌⊎◌, inl, inr, Bool, true, false, not, ◌&&◌, ◌||◌, List, [], ◌∷◌, arith,
  if◌then◌else◌, All, codes, equal,
}
use http_message_signatures.Errors.{
  ok, wrap-ok, wrap, >>=-eq-ok, invalid_component, reserved_component, invalid_derived_component,
  missing_name_parameter, bs_excludes_sf, bs_excludes_key, key_requires_sf, error_if-ok,
  error_if->>=, ok_inj,
}
use http_message_signatures.Sfv.Types.{Item}
use http_message_signatures.Parser.Types.{ComponentIdentifier}
use http_message_signatures.Parser.Validator.{
  contains, has_key, valid_derived_components, reserved_derived_components, is_derived_type,
  validate_derived_component_parameters, validate_parameter_combinations, validate_derived,
  validate_component_identifier,
}
use http_message_signatures.Parser.Signatures.{component_of_item, covered_components}

-- A derived component has a registered name, which is not the reserved one, and `@query-param` has
-- the parameter `name`; `bs` stands with neither `sf` nor `key`, and `key` stands with `sf`.
pub record IsValid (c : ComponentIdentifier) : Type 0 where
  pub registered :
      (is_derived_type c.type ≡ false) ⊎ (contains valid_derived_components c.name ≡ true)
  pub not_reserved :
      (is_derived_type c.type ≡ false) ⊎ (contains reserved_derived_components c.name ≡ false)
  pub query_named :
      (is_derived_type c.type
        && equal c.name (codes "@query-param")
        && not (has_key (codes "name") c.parameters))
      ≡ false
  pub bs_alone :
      (has_key (codes "bs") c.parameters
        && (has_key (codes "sf") c.parameters || has_key (codes "key") c.parameters))
      ≡ false
  pub key_with_sf :
      (has_key (codes "key") c.parameters && not (has_key (codes "sf") c.parameters)) ≡ false

validate_derived_lem :
    (c : ComponentIdentifier)
    → validate_derived c ≡ ok tt
    → (contains reserved_derived_components c.name ≡ false)
      × (contains valid_derived_components c.name ≡ true)
      × ((equal c.name (codes "@query-param") && not (has_key (codes "name") c.parameters)) ≡ false)
unfolding validate_derived validate_derived_component_parameters
validate_derived_lem c h =
    let named = has_key (codes "name") c.parameters in
    let (a, h1) =
      error_if->>= (contains reserved_derived_components c.name) (reserved_component c.name) _ h in
    let (b, h2) =
      error_if->>= (not (contains valid_derived_components c.name))
        (invalid_derived_component c.name) _ h1 in
    let q = equal c.name (codes "@query-param") && not named in
    (a, ground arith, error_if-ok q (missing_name_parameter c.name) h2)

derived_parts :
    (c : ComponentIdentifier) (kind : Bool)
    → (if kind then validate_derived c else ok tt) ≡ ok tt
    → ((kind ≡ false) ⊎ (contains valid_derived_components c.name ≡ true))
      × ((kind ≡ false) ⊎ (contains reserved_derived_components c.name ≡ false))
      × ((kind && equal c.name (codes "@query-param") && not (has_key (codes "name") c.parameters))
          ≡ false)
derived_parts c true h = let (a, b, q) = validate_derived_lem c h in (inr b, inr a, q)
derived_parts c false h = (inl refl, inl refl, refl)

not_with : (a b c : Bool) → (a && b) ≡ false → (a && c) ≡ false → (a && (b || c)) ≡ false
not_with a b c h k = ground arith

-- The validator accepts just valid identifiers.
pub validate_component_identifier-IsValid :
    (c : ComponentIdentifier) → validate_component_identifier c ≡ ok tt → IsValid c
unfolding validate_component_identifier validate_parameter_combinations
validate_component_identifier-IsValid c h =
    let has_bs = has_key (codes "bs") c.parameters in
    let has_sf = has_key (codes "sf") c.parameters in
    let has_key_param = has_key (codes "key") c.parameters in
    let kind = is_derived_type c.type in
    let (u, e, h1) = >>=-eq-ok (if kind then validate_derived c else ok tt) _ h in
    let (e1, h2) = error_if->>= (has_bs && has_sf) (bs_excludes_sf c.name) _ h1 in
    let (e2, h3) = error_if->>= (has_bs && has_key_param) (bs_excludes_key c.name) _ h2 in
    let e3 = error_if-ok (has_key_param && not has_sf) (key_requires_sf c.name) h3 in
    let (registered, not_reserved, query_named) = derived_parts c kind e in
    record {
      registered = registered;
      not_reserved = not_reserved;
      query_named = query_named;
      bs_alone = not_with has_bs has_sf has_key_param e1 e2;
      key_with_sf = e3;
    }

-- Every covered component that the parser returns is valid: a derived one has a registered name
-- that is not reserved and, as @query-param, the parameter name; bs stands with neither sf nor key;
-- key stands with sf.
pub covered_components-IsValid :
    (i : ℕ) (items : List Item) (cs : List ComponentIdentifier)
    → covered_components i items ≡ ok cs
    → All IsValid cs
unfolding covered_components
covered_components-IsValid i [] cs h = rw (sym (ok_inj h)) tt
covered_components-IsValid i (x ∷ items) cs h =
    let (c, e, h1) = >>=-eq-ok (component_of_item x) _ h in
    let (u, e1, h2) =
      >>=-eq-ok (wrap (invalid_component i) (validate_component_identifier c)) _ h1 in
    let (more, e2, h3) = >>=-eq-ok (covered_components (i + 1) items) _ h2 in
    let good = validate_component_identifier-IsValid c (wrap-ok (invalid_component i) _ e1) in
    rw (sym (ok_inj h3)) (good, covered_components-IsValid (i + 1) items more e2)
