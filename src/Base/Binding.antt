-- ===== src/Base/Binding.antt =====
-- pkg/base/build.go: what a signature base says of the message that it was built from.
use http_message_signatures.Common.{
  ℕ, ◌≡◌, refl, sym, ◌∙◌, ◌≢◌, ◌⊎◌, inl, inr, false, none, some, List, [], ◌∷◌, ◌++◌, append_assoc,
  &&_right, Bool-cases, All, all, Bytes, codes,
}
use http_message_signatures.Errors.{
  ok, wrap, >>=-eq-ok, failed_component, ok_inj, wrap-ok, no_value,
}
use mathlib.Core.List.{append_cancel_left}
use http_message_signatures.Parser.Types.{
  ComponentType, field, derived, unknown, ComponentIdentifier, SignatureParams,
}
use http_message_signatures.Base.Message.{UrlMethods, HttpMessage, request, response}
use http_message_signatures.Base.Line.{
  component_identifier, component_line, component_identifiers, signature_params_text,
  signature_params_line,
}
use http_message_signatures.Base.Build.{
  extract_by_type, extract_from_related_request, has_req_parameter, without_req,
  extract_component_value, component_lines, build,
}
use http_message_signatures.Base.OneLine.{in_line}
use http_message_signatures.Base.FieldLine.{InLine, extract_http_field_value-InLine}

pub not_newline : (s : Bytes) → InLine (b'\n' ∷ s) → ⊥
not_newline s h = cc

pub head_inj : {c d : ℕ} {s t : Bytes} → c ∷ s ≡ d ∷ t → c ≡ d
head_inj h = cc

pub tail_inj : {c d : ℕ} {s t : Bytes} → c ∷ s ≡ d ∷ t → s ≡ t
tail_inj h = cc

derived-cases : (t : ComponentType) → (t ≡ derived) ⊎ (t ≢ derived)
derived-cases field = inr (λ e. cc)
derived-cases derived = inl refl
derived-cases (unknown n) = inr (λ e. cc)

-- Two texts that are one line each, in front of a newline, are the same if all is.
cut :
    (u v s t : Bytes)
    → InLine u
    → InLine v
    → u ++ (b'\n' ∷ s) ≡ v ++ (b'\n' ∷ t)
    → (u ≡ v) × (s ≡ t)
cut [] [] s t h k e = (refl, append_cancel_left (b'\n' ∷ []) s t e)
cut [] (d ∷ v) s t h k e =
    let same : b'\n' ≡ d = head_inj e in let x : ⊥ = not_newline v (rw (← same) at k) in elim x [ ]
cut (c ∷ u) [] s t h k e =
    let same : c ≡ b'\n' = head_inj e in let x : ⊥ = not_newline u (rw same at h) in elim x [ ]
cut (c ∷ u) (d ∷ v) s t h k e =
    let same : c ≡ d = head_inj e in
    let (first, rest) =
      cut u v s t (&&_right (in_line c) (all in_line u) h) (&&_right (in_line d) (all in_line v) k)
        (tail_inj e) in
    (λ i. same i ∷ first i, rest)

-- The value of a derived component is one line, if there is one.
abbrev pub DerivedInLine : UrlMethods → HttpMessage → ComponentIdentifier → Type 0
DerivedInLine net msg c =
    c.type ≡ derived → (v : Bytes) → extract_component_value net msg c ≡ ok v → InLine v

line_front :
    (c : ComponentIdentifier) (v s u : Bytes)
    → (component_line c v ++ (b'\n' ∷ s)) ++ u
      ≡ component_identifier c ++ (codes ": " ++ (v ++ (b'\n' ∷ (s ++ u))))
unfolding component_line
line_front c v s u = simp (append_assoc)

same_params :
    (cs : List ComponentIdentifier) (p q : SignatureParams)
    → signature_params_line cs p ≡ signature_params_line cs q
    → signature_params_text p ≡ signature_params_text q
unfolding signature_params_line
same_params cs p q h = append_cancel_left (b')' ∷ []) _ _ (
    append_cancel_left (component_identifiers false cs) _ _
      (append_cancel_left (codes "\"@signature-params\": (") _ _ h))

same_lines :
    (c : ComponentIdentifier) (v w s t u r : Bytes)
    → (component_line c v ++ (b'\n' ∷ s)) ++ u ≡ (component_line c w ++ (b'\n' ∷ t)) ++ r
    → v ++ (b'\n' ∷ (s ++ u)) ≡ w ++ (b'\n' ∷ (t ++ r))
same_lines c v w s t u r h = append_cancel_left (codes ": ") _ _ (
    append_cancel_left (component_identifier c) _ _
      (sym (line_front c v s u) ∙ h ∙ line_front c w t r))

module _ (net : UrlMethods) where
  extract_by_type-InLine :
      (t : ComponentType) (msg : HttpMessage) (c : ComponentIdentifier) (v : Bytes)
      → t ≢ derived
      → extract_by_type net t msg c ≡ ok v
      → InLine v
  extract_by_type-InLine field msg c v n h = extract_http_field_value-InLine msg c v h
  extract_by_type-InLine derived msg c v n h = let x : ⊥ = n refl in elim x [ ]
  extract_by_type-InLine (unknown k) msg c v n h = let x : ⊥ = no_value h in elim x [ ]

  extract_from_related_request-InLine :
      (msg : HttpMessage) (c : ComponentIdentifier) (v : Bytes)
      → c.type ≢ derived
      → extract_from_related_request net msg c ≡ ok v
      → InLine v
  unfolding extract_from_related_request
  extract_from_related_request-InLine (request w) c v n h = let x : ⊥ = no_value h in elim x [ ]
  extract_from_related_request-InLine (response r none) c v n h =
      let x : ⊥ = no_value h in elim x [ ]
  extract_from_related_request-InLine (response r (some w)) c v n h =
      extract_by_type-InLine c.type (request w) (record c { parameters = without_req c.parameters })
        v n h

  extract_component_value-InLine :
      (msg : HttpMessage) (c : ComponentIdentifier) (v : Bytes)
      → DerivedInLine net msg c
      → extract_component_value net msg c ≡ ok v
      → InLine v
  unfolding extract_component_value
  extract_component_value-InLine msg c v d h = elim (derived-cases c.type) [
    | inl e ↦ d e v h
    | inr n ↦ elim (Bool-cases (has_req_parameter c.parameters)) [
      | inl r ↦ extract_from_related_request-InLine msg c v n (rw r at h)
      | inr r ↦ extract_by_type-InLine c.type msg c v n (rw r at h)
    ]
  ]

  -- The component has the same value in both messages.
  abbrev pub HasSameValue : HttpMessage → HttpMessage → ComponentIdentifier → Type 0
  HasSameValue m n c =
      (v : Bytes) × (extract_component_value net m c ≡ ok v)
      × (extract_component_value net n c ≡ ok v)

  component_lines-HasSameValue :
      (m n : HttpMessage) (cs : List ComponentIdentifier) (s t u w : Bytes)
      → All (DerivedInLine net m) cs
      → All (DerivedInLine net n) cs
      → component_lines net m cs ≡ ok s
      → component_lines net n cs ≡ ok t
      → s ++ u ≡ t ++ w
      → All (HasSameValue m n) cs × (u ≡ w)
  unfolding component_lines
  component_lines-HasSameValue m n [] s t u w h k e f same =
      (tt, rw (← ok_inj e, ← ok_inj f) at same)
  component_lines-HasSameValue m n (c ∷ cs) s t u w (h, hs) (k, ks) e f same =
      let (v, found, e1) =
        >>=-eq-ok (wrap (failed_component c.name) (extract_component_value net m c)) _ e in
      let (more, e2, e3) = >>=-eq-ok (component_lines net m cs) _ e1 in
      let (v1, found1, f1) =
        >>=-eq-ok (wrap (failed_component c.name) (extract_component_value net n c)) _ f in
      let (more1, f2, f3) = >>=-eq-ok (component_lines net n cs) _ f1 in
      let value = wrap-ok _ _ found in
      let value1 = wrap-ok _ _ found1 in
      let line = extract_component_value-InLine m c v h value in
      let line1 = extract_component_value-InLine n c v1 k value1 in
      let (front, behind) =
        cut v v1 (more ++ u) (more1 ++ w) line line1
          (same_lines c v v1 more more1 u w (rw (← ok_inj e3, ← ok_inj f3) at same)) in
      let (rest, last) = component_lines-HasSameValue m n cs more more1 u w hs ks e2 f2 behind in
      (((v, value, rw front value1), rest), last)

  pub build-HasSameValue :
      (m n : HttpMessage) (cs : List ComponentIdentifier) (p q : SignatureParams) (sig_base : Bytes)
      → All (DerivedInLine net m) cs
      → All (DerivedInLine net n) cs
      → build net m cs p ≡ ok sig_base
      → build net n cs q ≡ ok sig_base
      → All (HasSameValue m n) cs × (signature_params_text p ≡ signature_params_text q)
  unfolding build
  build-HasSameValue m n cs p q sig_base h k e f =
      let (s, lines, e1) = >>=-eq-ok (component_lines net m cs) _ e in
      let (t, lines1, f1) = >>=-eq-ok (component_lines net n cs) _ f in
      let (values, last) =
        component_lines-HasSameValue m n cs s t (signature_params_line cs p)
          (signature_params_line cs q) h k lines lines1 (ok_inj e1 ∙ sym (ok_inj f1)) in
      (values, same_params cs p q last)
