-- ===== src/Base/Injective.antt =====
-- pkg/base/build.go: two messages with the same signature base.
use http_message_signatures.Common.{
  ℕ, ◌≡◌, refl, sym, ap, ◌∙◌, Bool, true, List, [], ◌∷◌, ◌++◌, arith, ◌==◌, &&_left, &&_right, All,
  all, Bytes, codes,
}
use http_message_signatures.Errors.{ok, wrap, >>=-eq-ok, failed_component, ok_inj}
use mathlib.Core.List.{append_cancel_left}
use http_message_signatures.Sfv.Types.{Limits, InnerList}
use http_message_signatures.Sfv.Serialize.{wrote}
use http_message_signatures.Sfv.Lexer
use http_message_signatures.Sfv.Reads.Members.{
  IsInnerList, inner_list_text, write_inner_list-IsInnerList, parse_inner_list-Reads,
}
use http_message_signatures.Sfv.Printed.{inner_list_text-Printed}
use http_message_signatures.Parser.Types.{ComponentIdentifier, SignatureParams, no_params}
use http_message_signatures.Parser.Signatures.{covered_components, extract_signature_params}
use http_message_signatures.Base.Message.{UrlMethods, HttpMessage}
use http_message_signatures.Base.Line.{component_line, signature_params_line}
use http_message_signatures.Base.Build.{extract_component_value, component_lines, build}
use http_message_signatures.Base.Agreement.{IsPlain, signature_params_line_lem}
use http_message_signatures.Base.OneLine.{in_line}
use http_message_signatures.Base.FieldLine.{InLine, InLine-Printed}
use http_message_signatures.Base.Binding.{DerivedInLine, HasSameValue, build-HasSameValue, tail_inj}
use http_message_signatures.Httpsig.Serialize.{signature_input_list}
use http_message_signatures.Httpsig.Conversion.{
  IsComponent, covered_components-component_items, extract_signature_params-signature_params_to_sfv,
}

-- A newline ends the text; the flag is what is said of no text.
ended : Bool → Bytes → Bool
ended before [] = before
ended before (c ∷ s) = ended (c == b'\n') s

ended-newline :
    (before : Bool) (c : ℕ) (s : Bytes) → ended before (c ∷ s) ≡ true → InLine (c ∷ s) → ⊥
unfolding ended
ended-newline before c [] h k = ground arith
ended-newline before c (d ∷ s) h k =
    ended-newline (c == b'\n') d s h (&&_right (in_line c) (all in_line (d ∷ s)) k)

front_line : (s t : Bytes) → InLine (s ++ t) → InLine s
front_line [] t h = refl
front_line (c ∷ s) t h =
    let here = &&_left (in_line c) (all in_line (s ++ t)) h in
    let more = front_line s t (&&_right (in_line c) (all in_line (s ++ t)) h) in
    rw (here, more) refl

-- The last lines of a text are the same.
last_line :
    (a b : Bool) (s t u w : Bytes)
    → ended a s ≡ true
    → ended b t ≡ true
    → InLine u
    → InLine w
    → s ++ u ≡ t ++ w
    → u ≡ w
unfolding ended
last_line a b [] [] u w h k i j e = e
last_line a b [] (d ∷ t) u w h k i j e =
    let x : ⊥ = ended-newline b d t k (front_line (d ∷ t) w (rw e at i)) in elim x [ ]
last_line a b (c ∷ s) [] u w h k i j e =
    let x : ⊥ = ended-newline a c s h (front_line (c ∷ s) u (rw (← e) at j)) in elim x [ ]
last_line a b (c ∷ s) (d ∷ t) u w h k i j e =
    last_line (c == b'\n') (d == b'\n') s t u w h k i j (tail_inj e)

ended-line :
    (before : Bool) (s t : Bytes) → ended true t ≡ true → ended before (s ++ (b'\n' ∷ t)) ≡ true
unfolding ended
ended-line before [] t h = h
ended-line before (c ∷ s) t h = ended-line (c == b'\n') s t h

component_lines-ended :
    (net : UrlMethods) (msg : HttpMessage) (cs : List ComponentIdentifier) (s : Bytes)
    → component_lines net msg cs ≡ ok s
    → ended true s ≡ true
unfolding component_lines
component_lines-ended net msg [] s h = rw (← ok_inj h) (unfold ended in refl)
component_lines-ended net msg (c ∷ cs) s h =
    let (v, e, h1) =
      >>=-eq-ok (wrap (failed_component c.name) (extract_component_value net msg c)) _ h in
    let (more, e1, h2) = >>=-eq-ok (component_lines net msg cs) _ h1 in
    rw (← ok_inj h2)
      (ended-line true (component_line c v) more (component_lines-ended net msg cs more e1))

-- What a signer signs and Signature-Input can carry: the names stand in the base as in the field,
-- and the parser accepts the components and the list that is written.
pub record IsSignable (limits : Limits) (cs : List ComponentIdentifier) (p : SignatureParams)
    : Type 0 where
  pub plain : All IsPlain cs
  pub components : All IsComponent cs
  pub input : IsInnerList limits (signature_input_list cs p)

wrote_inj : {s t : Bytes} → wrote s ≡ wrote t → s ≡ t
wrote_inj h = cc

params_line-text :
    (l : Limits) (cs : List ComponentIdentifier) (p : SignatureParams)
    → IsSignable l cs p
    → signature_params_line cs p
      ≡ codes "\"@signature-params\": " ++ inner_list_text (signature_input_list cs p)
params_line-text l cs p h = wrote_inj (
    sym (signature_params_line_lem cs p h.plain)
    ∙ rw (write_inner_list-IsInnerList l _ h.input) refl)

params_line-InLine :
    (l : Limits) (cs : List ComponentIdentifier) (p : SignatureParams)
    → IsSignable l cs p
    → InLine (signature_params_line cs p)
params_line-InLine l cs p h = rw (params_line-text l cs p h) (
    InLine-Printed (inner_list_text (signature_input_list cs p))
      (inner_list_text-Printed l _ h.input))

value_inj :
    {x y : InnerList} {q r : Lexer.Parser}
    → ◌≡◌ {A = Lexer.Result (InnerList × Lexer.Parser)}
        (Lexer.Result.ok (x, q))
        (Lexer.Result.ok (y, r))
    → x ≡ y
value_inj h = cc

inner_list_text_inj :
    (l : Limits) (x y : InnerList)
    → IsInnerList l x
    → IsInnerList l y
    → inner_list_text x ≡ inner_list_text y
    → x ≡ y
inner_list_text_inj l x y h k e =
    let first = parse_inner_list-Reads l x [] h refl [] in
    let second = parse_inner_list-Reads l y [] k refl [] in value_inj (sym (rw e at first) ∙ second)

signature_input_list_inj :
    (cs ds : List ComponentIdentifier) (p q : SignatureParams)
    → All IsComponent cs
    → All IsComponent ds
    → signature_input_list cs p ≡ signature_input_list ds q
    → (cs ≡ ds) × (p ≡ q)
unfolding signature_input_list
signature_input_list_inj cs ds p q h k e =
    let first = covered_components-component_items 0 cs h in
    let second = covered_components-component_items 0 ds k in
    let params = extract_signature_params-signature_params_to_sfv p in
    let params1 = extract_signature_params-signature_params_to_sfv q in
    (
      ok_inj (sym first ∙ ap (λ (x : InnerList). covered_components 0 x.items) e ∙ second),
      ok_inj (
          sym params
          ∙ ap (λ (x : InnerList). extract_signature_params no_params x.parameters) e
          ∙ params1),
    )

-- When two messages, each with its components and parameters, have the same signature base, then
-- the components and the parameters are the same, and each component has the same value in both
-- messages; the condition is that the names need no escape, that the parser accepts the components
-- and the inner list that is written for them, and that the values of derived components are one
-- line.
pub build-injective :
    (net : UrlMethods) (limits : Limits) (m n : HttpMessage) (cs ds : List ComponentIdentifier)
    (p q : SignatureParams) (sig_base : Bytes)
    → IsSignable limits cs p
    → IsSignable limits ds q
    → All (DerivedInLine net m) cs
    → All (DerivedInLine net n) ds
    → build net m cs p ≡ ok sig_base
    → build net n ds q ≡ ok sig_base
    → (cs ≡ ds) × (p ≡ q) × All (HasSameValue net m n) cs
unfolding build
build-injective net limits m n cs ds p q sig_base h k i j e f =
    let (components, params) = signed_inj in
    (
      components,
      params,
      (build-HasSameValue net m n cs p q sig_base i (rw (← components) at j) e
          (rw (← components) at f)).0,
    )
  where
    signed_inj : (cs ≡ ds) × (p ≡ q)
    signed_inj =
        let (s, lines, e1) = >>=-eq-ok (component_lines net m cs) _ e in
        let (t, lines1, f1) = >>=-eq-ok (component_lines net n ds) _ f in
        let last =
          last_line true true s t _ _ (component_lines-ended net m cs s lines)
            (component_lines-ended net n ds t lines1) (params_line-InLine limits cs p h)
            (params_line-InLine limits ds q k) (ok_inj e1 ∙ sym (ok_inj f1)) in
        let texts =
          append_cancel_left (codes "\"@signature-params\": ") _ _
            (sym (params_line-text limits cs p h) ∙ last ∙ params_line-text limits ds q k) in
        signature_input_list_inj cs ds p q h.components k.components
          (inner_list_text_inj limits _ _ h.input k.input texts)
