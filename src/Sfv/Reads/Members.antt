-- ===== src/Sfv/Reads/Members.antt =====
-- `parseInnerList` and `parseValue` read what the serializer writes.
use http_message_signatures.Common.{
  ℕ, zero, suc, ◌+◌, ◌<◌, ◌≡◌, refl, ◌∙◌, Bool, true, false, List, [], ◌∷◌, ◌++◌, append-nil,
  append_assoc, arith, ◌==◌, if◌then◌else◌, length, length-append, All, all, Bytes,
}
use http_message_signatures.Sfv.Types.{
  Limits, exceeds, is_full, Item, InnerList, Member, item, inner_list,
}
use http_message_signatures.Sfv.Lexer.{head_or_nul, pass_byte, consume, skip_bytes, ok, >>=-ok}
use http_message_signatures.Sfv.Primitives.{is_token_char}
use http_message_signatures.Sfv.Collections.{
  parse_parameters, parse_item, inner_list_loop, close_inner_list, parse_inner_list, parse_value,
}
use http_message_signatures.Sfv.Serialize.{write_items, write_inner_list, wrote}
use http_message_signatures.Sfv.Reads.{
  at, Reads, stops, begins, begins-stops, begins-peek, begins-append, begins_pos, skip_bytes-all,
}
use http_message_signatures.Sfv.Reads.Values.{value_text, starts_item, begins-value_text}
use http_message_signatures.Sfv.Reads.Items.{
  ends_item, IsParameters, parameters_text, write_parameters-All, parse_parameters-Reads, IsItem,
  item_text, write_item-IsItem, parse_item-Reads,
}

-- The space in front of every item but the first.
abbrev pub gap : Bool → Bytes
gap later = if later then b' ' ∷ [] else []

unfoldable pub items_text : Bool → List Item → Bytes
items_text later [] = []
items_text later (x ∷ items) = gap later ++ (item_text x ++ items_text true items)

begins-item_text :
    (limits : Limits) (x : Item) → IsItem limits x → begins starts_item (item_text x) ≡ true
unfolding item_text
begins-item_text limits x h =
    begins-append starts_item (value_text x.value) _ (begins-value_text limits x.value h.0)

write_items-All :
    (limits : Limits) (later : Bool) (items : List Item)
    → All (IsItem limits) items
    → write_items later items ≡ wrote (items_text later items)
unfolding write_items items_text
write_items-All limits later [] h = refl
write_items-All limits later (x ∷ items) h =
    rw (write_item-IsItem limits x h.0, write_items-All limits true items h.1)

-- Behind an item stands a space or the closing parenthesis.
stops_items :
    (items : List Item) (rest : Bytes)
    → stops ends_item (items_text true items ++ b')' ∷ rest) ≡ true
unfolding items_text is_token_char
stops_items [] rest = refl
stops_items (x ∷ items) rest = refl

all-gap : (later : Bool) → all (λ c. c == b' ') (gap later) ≡ true
all-gap true = refl
all-gap false = refl

items_text_cons :
    (later : Bool) (x : Item) (items : List Item)
    → items_text later (x ∷ items) ≡ gap later ++ (item_text x ++ items_text true items)
unfolding items_text
items_text_cons later x items = refl

-- A round of the loop over one item.
inner_round :
    (limits : Limits) (later : Bool) (x : Item) (done : List Item) (behind seen : Bytes) (f : ℕ)
    → IsItem limits x
    → is_full limits.max_inner_list_members (length done) ≡ false
    → stops ends_item behind ≡ true
    → inner_list_loop (suc f) done (at limits seen (gap later ++ (item_text x ++ behind)))
      ≡ inner_list_loop f (done ++ x ∷ []) (at limits ((seen ++ gap later) ++ item_text x) behind)
unfolding inner_list_loop
inner_round limits later x done behind seen f h room k =
    let own = item_text x in
    let here = begins-item_text limits x h in
    let space =
      skip_bytes-all (λ c. c == b' ') limits (gap later) (own ++ behind) seen (all-gap later)
        (begins-stops starts_item own behind here (λ c. c == b' ') (λ c k. ground arith)) in
    let no_end = begins-peek starts_item own behind here b')' (λ c k. ground arith) in
    rw (space, no_end, room)
      (>>=-ok parse_item _ _ (parse_item-Reads limits x behind h k (seen ++ gap later)))

inner_list_loop-at :
    (limits : Limits) (later : Bool) (items done : List Item) (rest seen : Bytes) (f : ℕ)
    → All (IsItem limits) items
    → exceeds limits.max_inner_list_members (length done + length items) ≡ false
    → length (items_text later items) < f
    → inner_list_loop f done (at limits seen (items_text later items ++ b')' ∷ rest))
      ≡ ok (done ++ items, at limits (seen ++ items_text later items) (b')' ∷ rest))
inner_list_loop-at limits later items done rest seen zero h e m = absurd (omega arith)
inner_list_loop-at limits later [] done rest seen (suc f) h e m =
    unfold inner_list_loop items_text skip_bytes head_or_nul in
    rw (append-nil seen, append-nil done)
inner_list_loop-at limits later (x ∷ items) done rest seen (suc f) h e m =
    let own = item_text x in
    let more = items_text true items in
    let regroup : (gap later ++ (own ++ more)) ++ b')' ∷ rest
        ≡ gap later ++ (own ++ (more ++ b')' ∷ rest)) =
      simp append_assoc in
    let size = length-append (gap later) (own ++ more) in
    let size' = length-append own more in
    let pos = begins_pos starts_item own (begins-item_text limits x h.0) in
    let short : length (gap later ++ (own ++ more)) < suc f = rw items_text_cons at m in
    rw (items_text_cons later x items, regroup)
      (inner_round limits later x done (more ++ b')' ∷ rest) seen f h.0 (ground arith)
          (stops_items items rest)
        ∙ inner_list_loop-at limits true items (done ++ x ∷ []) rest ((seen ++ gap later) ++ own) f
            h.1 (ground (arith, length-append done (x ∷ []))) (omega arith)
        ∙ simp append_assoc)

abbrev pub IsInnerList : Limits → InnerList → Type 0
IsInnerList limits l =
    All (IsItem limits) l.items
    × (exceeds limits.max_inner_list_members (length l.items) ≡ false)
    × IsParameters limits l.parameters

unfoldable pub inner_list_text : InnerList → Bytes
inner_list_text l = b'(' ∷ (items_text false l.items ++ b')' ∷ parameters_text l.parameters)

pub write_inner_list-IsInnerList :
    (limits : Limits) (l : InnerList)
    → IsInnerList limits l
    → write_inner_list l ≡ wrote (inner_list_text l)
unfolding write_inner_list inner_list_text
write_inner_list-IsInnerList limits l h =
    rw (write_items-All limits false l.items h.0, write_parameters-All limits l.parameters h.2.0)

close_inner_list-at :
    (limits : Limits) (l : InnerList) (rest seen : Bytes)
    → IsParameters limits l.parameters
    → stops ends_item rest ≡ true
    → close_inner_list l.items (at limits seen (b')' ∷ (parameters_text l.parameters ++ rest)))
      ≡ ok (l, at limits ((seen ++ b')' ∷ []) ++ parameters_text l.parameters) rest)
unfolding close_inner_list consume head_or_nul pass_byte
close_inner_list-at limits l rest seen h k =
    >>=-ok parse_parameters _ _
      (parse_parameters-Reads limits l.parameters rest h k (seen ++ b')' ∷ []))

-- An inner list within the limits is read back from its text, wherever it stands, when what follows
-- cannot go on with it.
pub parse_inner_list-Reads :
    (limits : Limits) (l : InnerList) (rest : Bytes)
    → IsInnerList limits l
    → stops ends_item rest ≡ true
    → Reads limits parse_inner_list (inner_list_text l) l rest
unfolding parse_inner_list inner_list_text consume head_or_nul pass_byte
parse_inner_list-Reads limits l rest (each, few, params) k seen =
    let its = items_text false l.items in
    let ps = parameters_text l.parameters in
    let paren = seen ++ b'(' ∷ [] in
    rw (append_assoc its (b')' ∷ ps) rest) (
      >>=-ok (inner_list_loop (suc (length (its ++ b')' ∷ (ps ++ rest)))) []) _ _ (
        inner_list_loop-at limits false l.items [] (ps ++ rest) paren _ each (ground arith)
          (omega (arith, length-append its (b')' ∷ (ps ++ rest)))))
      ∙ close_inner_list-at limits l rest (paren ++ its) params k
      ∙ simp append_assoc)

abbrev pub IsMember : Limits → Member → Type 0
IsMember limits (item x) = IsItem limits x
IsMember limits (inner_list l) = IsInnerList limits l
IsMember limits Member.nil = ⊥

unfoldable pub member_text : Member → Bytes
member_text (item x) = item_text x
member_text (inner_list l) = inner_list_text l
member_text Member.nil = []

-- A member is read back from what the serializer writes.
pub parse_value-Reads :
    (limits : Limits) (v : Member) (rest : Bytes)
    → IsMember limits v
    → stops ends_item rest ≡ true
    → Reads limits parse_value (member_text v) v rest
unfolding parse_value member_text
parse_value-Reads limits (item x) rest h k seen =
    let no_list =
      begins-peek starts_item (item_text x) rest (begins-item_text limits x h) b'('
        (λ c e. ground arith) in
    rw no_list (>>=-ok parse_item _ _ (parse_item-Reads limits x rest h k seen))
parse_value-Reads limits (inner_list l) rest h k seen =
    let paren : (head_or_nul (inner_list_text l ++ rest) == b'(') ≡ true =
      (unfold inner_list_text head_or_nul in refl) in
    rw paren (>>=-ok parse_inner_list _ _ (parse_inner_list-Reads limits l rest h k seen))
parse_value-Reads limits Member.nil rest h k seen = absurd h
