-- ===== src/Sfv/Reads/Items.antt =====
-- `parseParameters` and `ParseItem` read what the serializer writes.
use http_message_signatures.Common.{
  ℕ, zero, suc, ◌+◌, ◌<◌, ◌≡◌, refl, ap, ◌∙◌, ◌⊎◌, inl, inr, Bool, true, false, ◌||◌, List, [], ◌∷◌,
  ◌++◌, append-nil, append_assoc, arith, ◌==◌, length, length-append, All, Bytes,
}
use http_message_signatures.Sfv.Types.{
  Limits, exceeds, is_full, Value, Parameter, Item, bool, int64, int, token, string, bytes,
}
use http_message_signatures.Sfv.Lexer.{head_or_nul, pass_byte, ok, >>=-ok}
use http_message_signatures.Sfv.Primitives.{is_token_char, parse_token}
use http_message_signatures.Sfv.Collections.{
  parse_bare_item, parameter_value, parse_parameter, parameters_loop, parse_parameters, parse_item,
}
use http_message_signatures.Sfv.Serialize.{
  ◌<+>◌, write_bare_item, write_parameter_value, write_parameters, write_item, wrote,
}
use http_message_signatures.Sfv.Reads.{at, Reads, stops, stops_mono}
use http_message_signatures.Sfv.Reads.Tokens.{IsToken, parse_token-Reads}
use http_message_signatures.Sfv.Reads.Values.{
  IsValue, value_text, write_bare_item-IsValue, ends_value, parse_bare_item-Reads,
}

-- The byte behind an item.
abbrev pub ends_item : ℕ → Bool
ends_item c = ends_value c || c == b';'

abbrev pub IsParameter : Limits → Parameter → Type 0
IsParameter limits x = IsToken limits x.key × IsValue limits x.value

-- Parameters that the parser can return under these limits.
abbrev pub IsParameters : Limits → List Parameter → Type 0
IsParameters limits params =
    All (IsParameter limits) params × (exceeds limits.max_parameters (length params) ≡ false)

-- What `writeParameters` writes behind a key.
unfoldable pub assigned_text : Value → Bytes
unfolding value_text
assigned_text (bool true) = []
assigned_text v = b'=' ∷ value_text v

unfoldable pub parameters_text : List Parameter → Bytes
parameters_text [] = []
parameters_text (x ∷ params) = b';' ∷ (x.key ++ (assigned_text x.value ++ parameters_text params))

-- True is written as nothing, and every other value behind `=`.
pub assigned-cases :
    (v : Value)
    → (v ≡ bool true)
      ⊎ ((assigned_text v ≡ b'=' ∷ value_text v)
          × (write_parameter_value v ≡ wrote (b'=' ∷ []) <+> write_bare_item v))
unfolding assigned_text write_parameter_value
assigned-cases (bool true) = inl refl
assigned-cases (bool false) = inr (refl, refl)
assigned-cases (int64 v) = inr (refl, refl)
assigned-cases (int v) = inr (refl, refl)
assigned-cases (token v) = inr (refl, refl)
assigned-cases (string v) = inr (refl, refl)
assigned-cases (bytes v) = inr (refl, refl)
assigned-cases Value.nil = inr (refl, refl)

write_parameter_value-IsValue :
    (limits : Limits) (v : Value)
    → IsValue limits v
    → write_parameter_value v ≡ wrote (assigned_text v)
write_parameter_value-IsValue limits v h = elim (assigned-cases v) [
  | inl e ↦ rw e (unfold write_parameter_value assigned_text in refl)
  | inr (e, w) ↦ rw (e, w, write_bare_item-IsValue limits v h)
]

pub write_parameters-All :
    (limits : Limits) (params : List Parameter)
    → All (IsParameter limits) params
    → write_parameters params ≡ wrote (parameters_text params)
unfolding write_parameters parameters_text
write_parameters-All limits [] h = refl
write_parameters-All limits (x ∷ params) h =
    rw (write_parameter_value-IsValue limits x.value h.0.1, write_parameters-All limits params h.1)

no_equals : (s : Bytes) → stops ends_value s ≡ true → (head_or_nul s == b'=') ≡ false
unfolding head_or_nul
no_equals [] h = refl
no_equals (c ∷ s) h = ground arith

token_of_value : (c : ℕ) → ends_value c ≡ false → is_token_char c ≡ false
token_of_value c h = ground arith

parameter_value-Reads :
    (limits : Limits) (v : Value) (rest : Bytes)
    → IsValue limits v
    → stops ends_value rest ≡ true
    → Reads limits parameter_value (assigned_text v) v rest
parameter_value-Reads limits v rest h k seen = elim (assigned-cases v) [
  | inl e ↦ rw e (unfold parameter_value assigned_text in rw (append-nil, no_equals rest k))
  | inr (e, w) ↦
      let tail = stops_mono is_token_char ends_value rest token_of_value k in
      let read = parse_bare_item-Reads limits v rest h tail (seen ++ b'=' ∷ []) in
      rw e (unfold parameter_value head_or_nul pass_byte in read ∙ rw (append_assoc seen))
]

stops_assigned :
    (v : Value) (rest : Bytes)
    → stops ends_value rest ≡ true
    → stops is_token_char (assigned_text v ++ rest) ≡ true
stops_assigned v rest k = elim (assigned-cases v) [
  | inl e ↦ rw e (unfold assigned_text in stops_mono is_token_char ends_value rest token_of_value k)
  | inr (e, w) ↦ rw e (unfold is_token_char in refl)
]

parse_parameter-Reads :
    (limits : Limits) (x : Parameter) (rest : Bytes)
    → IsParameter limits x
    → stops ends_value rest ≡ true
    → Reads limits parse_parameter (x.key ++ assigned_text x.value) x rest
unfolding parse_parameter
parse_parameter-Reads limits x rest h k seen =
    let value = x.value in
    rw (append_assoc x.key (assigned_text x.value) rest) (
      >>=-ok parse_token _ _ (
        parse_token-Reads limits x.key (assigned_text x.value ++ rest) h.0
          (stops_assigned x.value rest k) seen)
      ∙ >>=-ok parameter_value _ _ (parameter_value-Reads limits x.value rest h.1 k (seen ++ x.key))
      ∙ rw (append_assoc seen x.key (assigned_text x.value)))

stops_parameters :
    (params : List Parameter) (rest : Bytes)
    → stops ends_item rest ≡ true
    → stops ends_value (parameters_text params ++ rest) ≡ true
unfolding parameters_text is_token_char
stops_parameters [] rest k = stops_mono ends_value ends_item rest (λ c h. ground arith) k
stops_parameters (x ∷ params) rest k = refl

no_semicolon : (s : Bytes) → stops ends_item s ≡ true → (head_or_nul s == b';') ≡ false
unfolding head_or_nul
no_semicolon [] h = refl
no_semicolon (c ∷ s) h = ground arith

-- The loop, with the parameters `done` read so far.
parameters_loop-at :
    (limits : Limits) (params done : List Parameter) (rest seen : Bytes) (f : ℕ)
    → All (IsParameter limits) params
    → exceeds limits.max_parameters (length done + length params) ≡ false
    → length (parameters_text params) < f
    → stops ends_item rest ≡ true
    → parameters_loop f done (at limits seen (parameters_text params ++ rest))
      ≡ ok (done ++ params, at limits (seen ++ parameters_text params) rest)
unfolding parameters_loop parameters_text head_or_nul pass_byte
parameters_loop-at limits params done rest seen zero h e m k = absurd (omega arith)
parameters_loop-at limits [] done rest seen (suc f) h e m k =
    rw (append-nil seen, append-nil done, no_semicolon rest k)
parameters_loop-at limits (x ∷ params) done rest seen (suc f) h e m k =
    let own = x.key ++ assigned_text x.value in
    let later = parameters_text params in
    let regroup : (x.key ++ (assigned_text x.value ++ later)) ++ rest ≡ own ++ (later ++ rest) =
      simp append_assoc in
    let room : is_full limits.max_parameters (length done) ≡ false = ground arith in
    let sizes = length-append own later in
    let whole = append_assoc x.key (assigned_text x.value) later in
    rw (room, regroup)
      (>>=-ok parse_parameter _ _ (
          parse_parameter-Reads limits x (later ++ rest) h.0 (stops_parameters params rest k)
            (seen ++ b';' ∷ []))
        ∙ parameters_loop-at limits params (done ++ x ∷ []) rest ((seen ++ b';' ∷ []) ++ own) f h.1
            (ground (arith, length-append done (x ∷ []))) (omega (arith, sizes, ap length whole)) k
        ∙ simp append_assoc)

-- Parameters are read back, in order.
pub parse_parameters-Reads :
    (limits : Limits) (params : List Parameter) (rest : Bytes)
    → IsParameters limits params
    → stops ends_item rest ≡ true
    → Reads limits parse_parameters (parameters_text params) params rest
unfolding parse_parameters
parse_parameters-Reads limits params rest (each, few) k seen =
    parameters_loop-at limits params [] rest seen _ each (ground arith)
      (omega (arith, length-append (parameters_text params) rest)) k

abbrev pub IsItem : Limits → Item → Type 0
IsItem limits x = IsValue limits x.value × IsParameters limits x.parameters

unfoldable pub item_text : Item → Bytes
item_text x = value_text x.value ++ parameters_text x.parameters

pub write_item-IsItem :
    (limits : Limits) (x : Item) → IsItem limits x → write_item x ≡ wrote (item_text x)
unfolding write_item item_text
write_item-IsItem limits x h =
    rw (write_bare_item-IsValue limits x.value h.0, write_parameters-All limits x.parameters h.1.0)

-- An item within the limits is read back with its parameters from its text, wherever it stands,
-- when what follows cannot go on with it.
pub parse_item-Reads :
    (limits : Limits) (x : Item) (rest : Bytes)
    → IsItem limits x
    → stops ends_item rest ≡ true
    → Reads limits parse_item (item_text x) x rest
unfolding parse_item item_text
parse_item-Reads limits x rest (h, hs) k seen =
    let tail =
      stops_mono is_token_char ends_value (parameters_text x.parameters ++ rest) token_of_value
        (stops_parameters x.parameters rest k) in
    rw (append_assoc (value_text x.value)) (
      >>=-ok parse_bare_item _ _ (parse_bare_item-Reads limits x.value _ h tail seen)
      ∙ >>=-ok parse_parameters _ _
          (parse_parameters-Reads limits x.parameters rest hs k (seen ++ value_text x.value))
      ∙ rw (append_assoc seen (value_text x.value)))
