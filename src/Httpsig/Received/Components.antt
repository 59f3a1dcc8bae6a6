-- ===== src/Httpsig/Received/Components.antt =====
-- pkg/parser/parser.go: the covered components of a header field, and the items that are written for
-- them.
use http_message_signatures.Common.{ℕ, ◌+◌, ◌≡◌, refl, sym, true, List, [], ◌∷◌, All, Bytes}
use http_message_signatures.Errors.{ok, wrap, >>=-eq-ok, invalid_component, ok_inj, wrap-ok}
use http_message_signatures.Sfv.Types as Sfv
use http_message_signatures.Sfv.Types.{Limits, no_limits, Value, Item, InnerList, inner_list, item}
use http_message_signatures.Sfv.Reads.Values.{IsValue}
use http_message_signatures.Sfv.Reads.Items.{IsParameter, IsItem}
use http_message_signatures.Parser.Types.{ComponentIdentifier}
use http_message_signatures.Parser.Validator.{validate_component_identifier}
use http_message_signatures.Parser.Signatures.{
  convert_bare_item, convert_parameters, type_of_name, component_of_item, covered_components, named,
}
use http_message_signatures.Httpsig.Serialize.{
  bare_item_to_sfv, component_params_to_sfv, component_items,
}
use http_message_signatures.Httpsig.Conversion.{is_value, HasValue, IsComponent}

-- Without limits
IsValue-no_limits : (l : Limits) (v : Value) → IsValue l v → IsValue no_limits v
IsValue-no_limits l (Value.bool b) h = tt
IsValue-no_limits l (Value.int64 v) h = h
IsValue-no_limits l (Value.int v) h = h
IsValue-no_limits l (Value.token t) h = (h.0, refl)
IsValue-no_limits l (Value.string s) h = (h.0, refl)
IsValue-no_limits l (Value.bytes b) h = (h.0, refl)
IsValue-no_limits l Value.nil h = h

parameters-no_limits :
    (l : Limits) (params : List Sfv.Parameter)
    → All (IsParameter l) params
    → All (IsParameter no_limits) params
parameters-no_limits l [] h = tt
parameters-no_limits l (x ∷ params) ((k, v), h) =
    (((k.0, refl), IsValue-no_limits l x.value v), parameters-no_limits l params h)

pub items-no_limits :
    (l : Limits) (items : List Item) → All (IsItem l) items → All (IsItem no_limits) items
items-no_limits l [] h = tt
items-no_limits l (x ∷ items) ((v, p), h) = (
  (IsValue-no_limits l x.value v, (parameters-no_limits l x.parameters p.0, refl)),
  items-no_limits l items h,
)

-- A value that was read is written again as it was.
bare_item_to_sfv-convert_bare_item :
    (l : Limits) (v : Value)
    → IsValue l v
    → (bare_item_to_sfv (convert_bare_item v) ≡ v) × (is_value (convert_bare_item v) ≡ true)
unfolding bare_item_to_sfv convert_bare_item
bare_item_to_sfv-convert_bare_item l (Value.bool b) h = (refl, refl)
bare_item_to_sfv-convert_bare_item l (Value.int64 v) h = (refl, refl)
bare_item_to_sfv-convert_bare_item l (Value.int v) h = elim h [ ]
bare_item_to_sfv-convert_bare_item l (Value.token t) h = (refl, refl)
bare_item_to_sfv-convert_bare_item l (Value.string s) h = (refl, refl)
bare_item_to_sfv-convert_bare_item l (Value.bytes b) h = (refl, refl)
bare_item_to_sfv-convert_bare_item l Value.nil h = elim h [ ]

component_params_to_sfv-convert_parameters :
    (l : Limits) (params : List Sfv.Parameter)
    → All (IsParameter l) params
    → (component_params_to_sfv (convert_parameters params) ≡ params)
      × All HasValue (convert_parameters params)
unfolding component_params_to_sfv convert_parameters
component_params_to_sfv-convert_parameters l [] h = (refl, tt)
component_params_to_sfv-convert_parameters l (x ∷ params) ((k, v), h) =
    let (same, given) = bare_item_to_sfv-convert_bare_item l x.value v in
    let (more, others) = component_params_to_sfv-convert_parameters l params h in
    (λ i. record { key = x.key; value = same i } ∷ more i, (given, others))

-- The component that is made of an item
component_of_item-named :
    (x : Item) (c : ComponentIdentifier)
    → component_of_item x ≡ ok c
    → (name : Bytes) × (x.value ≡ Value.string name)
      × (record {
        name = name;
        type = type_of_name name;
        parameters = convert_parameters x.parameters;
      }
          ≡ c)
unfolding component_of_item
component_of_item-named x c h = by_value x.value x.parameters c h
  where
    by_value :
        (v : Value) (params : List Sfv.Parameter) (c : ComponentIdentifier)
        → named params v ≡ ok c
        → (name : Bytes) × (v ≡ Value.string name)
          × (record {
            name = name;
            type = type_of_name name;
            parameters = convert_parameters params;
          }
              ≡ c)
    by_value (Value.string name) params c h = (name, refl, ok_inj h)
    by_value (Value.bool b) params c h = cc
    by_value (Value.int64 b) params c h = cc
    by_value (Value.int b) params c h = cc
    by_value (Value.token b) params c h = cc
    by_value (Value.bytes b) params c h = cc
    by_value Value.nil params c h = cc

-- The item that is written for a component
abbrev item_of : ComponentIdentifier → Item
item_of c = record {
  value = Value.string c.name;
  parameters = component_params_to_sfv c.parameters;
}

item_of-component_of_item :
    (l : Limits) (x : Item) (c : ComponentIdentifier)
    → IsItem l x
    → component_of_item x ≡ ok c
    → (item_of c ≡ x) × (type_of_name c.name ≡ c.type) × All HasValue c.parameters
item_of-component_of_item l x c (v, p) h =
    let (name, value, made) = component_of_item-named x c h in
    let (params, given) = component_params_to_sfv-convert_parameters l x.parameters p.0 in
    rw (← made) ((λ i. record { value = sym value i; parameters = params i }), refl, given)

pub covered_components-IsComponent :
    (l : Limits) (i : ℕ) (items : List Item) (cs : List ComponentIdentifier)
    → All (IsItem l) items
    → covered_components i items ≡ ok cs
    → All IsComponent cs × (component_items cs ≡ items)
unfolding covered_components component_items
covered_components-IsComponent l i [] cs h e = rw (← ok_inj e) (tt, refl)
covered_components-IsComponent l i (x ∷ items) cs (g, h) e =
    let (c, made, e1) = >>=-eq-ok (component_of_item x) _ e in
    let (u, checked, e2) =
      >>=-eq-ok (wrap (invalid_component i) (validate_component_identifier c)) _ e1 in
    let (more, e3, e4) = >>=-eq-ok (covered_components (i + 1) items) _ e2 in
    let (good, same) = covered_components-IsComponent l (i + 1) items more h e3 in
    let (item_same, typed, given) = item_of-component_of_item l x c g made in
    let here : IsComponent c = record {
      typed = typed;
      valid = wrap-ok _ _ checked;
      valued = given;
    } in
    rw (← ok_inj e4) ((here, good), λ j. item_same j ∷ same j)
