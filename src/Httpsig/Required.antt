-- ===== src/Httpsig/Required.antt =====
-- The equality of component identifiers in pkg/httpsig/verifier.go is equality, and the required
-- components are covered.
use http_message_signatures.Common.{
  ◌≡◌, refl, sym, ap, ◌↔◌, inl, inr, true, false, not, List, [], ◌∷◌, arith, &&_left, &&_right,
  Bool-cases, All, equal_iff, equal_refl, pos, negsuc,
}
use mathlib.Core.List.{Memᴰ}
use http_message_signatures.Errors.{ok, error_if->>=, required_component_missing}
use http_message_signatures.Parser.Types.{
  ComponentType, field, derived, unknown, BareItemValue, boolean, integer, string, token,
  byte_sequence, Parameter, ComponentIdentifier, same_type,
}
use http_message_signatures.Httpsig.Equality.{
  bare_item_equal, parameter_equal, parameters_equal, component_equal, component_in_list,
  validate_required_components,
}

bare_item_equal_refl : (a : BareItemValue) → bare_item_equal a a ≡ true
unfolding bare_item_equal
bare_item_equal_refl (boolean true) = refl
bare_item_equal_refl (boolean false) = refl
bare_item_equal_refl (integer (pos n)) = ground arith
bare_item_equal_refl (integer (negsuc n)) = ground arith
bare_item_equal_refl (string s) = equal_refl s
bare_item_equal_refl (token s) = equal_refl s
bare_item_equal_refl (byte_sequence s) = equal_refl s
bare_item_equal_refl BareItemValue.nil = refl

bare_item_equal_eq : (a b : BareItemValue) → bare_item_equal a b ≡ true → a ≡ b
unfolding bare_item_equal
bare_item_equal_eq (boolean true) (boolean true) h = refl
bare_item_equal_eq (boolean false) (boolean false) h = refl
bare_item_equal_eq (integer (pos m)) (integer (pos n)) h = ap (λ k. integer (pos k)) (ground arith)
bare_item_equal_eq (integer (negsuc m)) (integer (negsuc n)) h =
    ap (λ k. integer (negsuc k)) (ground arith)
bare_item_equal_eq (string a) (string b) h = ap string ((equal_iff a b).0 h)
bare_item_equal_eq (token a) (token b) h = ap token ((equal_iff a b).0 h)
bare_item_equal_eq (byte_sequence a) (byte_sequence b) h = ap byte_sequence ((equal_iff a b).0 h)
bare_item_equal_eq BareItemValue.nil BareItemValue.nil h = refl
bare_item_equal_eq _ _ h = cc

parameters_equal_refl : (ps : List Parameter) → parameters_equal ps ps ≡ true
unfolding parameters_equal parameter_equal
parameters_equal_refl [] = refl
parameters_equal_refl (p ∷ ps) =
    rw (equal_refl p.key, bare_item_equal_refl p.value) (parameters_equal_refl ps)

parameters_equal_eq : (ps qs : List Parameter) → parameters_equal ps qs ≡ true → ps ≡ qs
unfolding parameters_equal parameter_equal
parameters_equal_eq [] [] h = refl
parameters_equal_eq [] (q ∷ qs) h = cc
parameters_equal_eq (p ∷ ps) [] h = cc
parameters_equal_eq (p ∷ ps) (q ∷ qs) h =
    let first = &&_left _ _ h in
    let k = (equal_iff p.key q.key).0 (&&_left _ _ first) in
    let v = bare_item_equal_eq p.value q.value (&&_right _ _ first) in
    let more = parameters_equal_eq ps qs (&&_right _ _ h) in
    λ i. record { key = k i; value = v i } ∷ more i

same_type_refl : (a : ComponentType) → same_type a a ≡ true
same_type_refl field = refl
same_type_refl derived = refl
same_type_refl (unknown (pos n)) = ground arith
same_type_refl (unknown (negsuc n)) = ground arith

same_type_eq : (a b : ComponentType) → same_type a b ≡ true → a ≡ b
same_type_eq field field h = refl
same_type_eq derived derived h = refl
same_type_eq (unknown (pos m)) (unknown (pos n)) h = ap (λ k. unknown (pos k)) (ground arith)
same_type_eq (unknown (negsuc m)) (unknown (negsuc n)) h =
    ap (λ k. unknown (negsuc k)) (ground arith)
same_type_eq _ _ h = cc

-- The comparison of component identifiers answers true just on identifiers that are the same: name,
-- type, and parameters with their order, types and values.
pub component_equal_iff : (a b : ComponentIdentifier) → (component_equal a b ≡ true) ↔ (a ≡ b)
unfolding component_equal
component_equal_iff a b = (
  (λ h.
      let first = &&_left _ _ h in
      let n = (equal_iff a.name b.name).0 (&&_left _ _ first) in
      let t = same_type_eq a.type b.type (&&_right _ _ first) in
      let ps = parameters_equal_eq a.parameters b.parameters (&&_right _ _ h) in
      λ i. record { name = n i; type = t i; parameters = ps i }),
  (λ e.
      rw (sym e)
        (rw (equal_refl a.name, same_type_refl a.type) (parameters_equal_refl a.parameters))),
)

pub component_in_list_lem :
    (cs : List ComponentIdentifier) (c : ComponentIdentifier)
    → component_in_list cs c ≡ true
    → Memᴰ c cs
unfolding component_in_list
component_in_list_lem [] c h = cc
component_in_list_lem (d ∷ cs) c h = elim (Bool-cases (component_equal d c)) [
  | inl same ↦ Memᴰ.head (sym ((component_equal_iff d c).0 same))
  | inr other ↦
      let h' : component_in_list cs c ≡ true = rw (other, component_in_list) at h in
      Memᴰ.tail (component_in_list_lem cs c h')
]

pub validate_required_components-All :
    (required covered : List ComponentIdentifier)
    → validate_required_components required covered ≡ ok tt
    → All (λ c. Memᴰ c covered) required
unfolding validate_required_components
validate_required_components-All [] covered h = tt
validate_required_components-All (c ∷ required) covered h =
    let (seen, more) =
      error_if->>= (not (component_in_list covered c)) (required_component_missing c.name) _ h in
    (
      component_in_list_lem covered c (ground arith),
      validate_required_components-All required covered more,
    )

component_in_list-Mem :
    (cs : List ComponentIdentifier) (c : ComponentIdentifier)
    → Memᴰ c cs
    → component_in_list cs c ≡ true
unfolding component_in_list
component_in_list-Mem [] c m = elim m [ ]
component_in_list-Mem (d ∷ cs) c (Memᴰ.head e) = rw ((component_equal_iff d c).1 (sym e)) refl
component_in_list-Mem (d ∷ cs) c (Memᴰ.tail m) =
    let more = component_in_list-Mem cs c m in
    elim (Bool-cases (component_equal d c)) [ inl e ↦ rw e refl | inr e ↦ rw e more ]

All-validate_required_components :
    (required covered : List ComponentIdentifier)
    → All (λ c. Memᴰ c covered) required
    → validate_required_components required covered ≡ ok tt
unfolding validate_required_components
All-validate_required_components [] covered h = refl
All-validate_required_components (c ∷ required) covered (m, h) =
    rw (component_in_list-Mem covered c m) (All-validate_required_components required covered h)

-- The check of the required components succeeds exactly when each of them is, with its parameters,
-- one of the covered components.
pub validate_required_components_iff :
    (required covered : List ComponentIdentifier)
    → (validate_required_components required covered ≡ ok tt) ↔ All (λ c. Memᴰ c covered) required
validate_required_components_iff required covered = (
  validate_required_components-All required covered,
  All-validate_required_components required covered,
)
