-- ===== src/Sfv/Bounded/Printable.antt =====
-- pkg/sfv/serialize.go: what the serializers write for a value that a parser returned.
use http_message_signatures.Common.{
  suc, ◌≡◌, refl, ◌≢◌, inl, inr, false, some, [], ◌∷◌, arith, Bool-cases, length, All, Bytes, equal,
  lookup, some_inj, none-some,
}
use http_message_signatures.Sfv.Types.{
  Limits, Item, Member, MemberList, Dictionary, item, inner_list,
}
use http_message_signatures.Sfv.Lexer.{Parser, ok, out_of_fuel}
use http_message_signatures.Sfv.Collections.{parse_item, parse_dictionary, parse_list}
use http_message_signatures.Sfv.Serialize.{
  write_item, serialize_dictionary, write_member, serialize_list,
}
use http_message_signatures.Sfv.Reads.Members.{IsMember}
use http_message_signatures.Sfv.Reads.Dictionaries.{Entries, IsEntry}
use http_message_signatures.Sfv.Reads.Dictionaries.RoundTrip.{serialize_dictionary-IsDictionary}
use http_message_signatures.Sfv.Printed.{
  Prints, prints, entries_text-Printed, write_item-Prints, write_inner_list-Prints,
  write_members-Prints,
}
use http_message_signatures.Sfv.Bounded.{Within, Ensures-ok, Ensures-ends}
use http_message_signatures.Sfv.Bounded.Items.{parse_item-Ensures}
use http_message_signatures.Sfv.Bounded.Collections.{parse_list-Ensures}
use http_message_signatures.Sfv.Bounded.Accepted.{parse_dictionary-IsParsed}

lookup-All :
    (l : Limits) (k : Bytes) (v : Member) (es : Entries)
    → All (IsEntry l) es
    → lookup k es ≡ some v
    → IsMember l v
unfolding lookup
lookup-All l k v [] h e = none-some e
lookup-All l k v ((j, w) ∷ es) ((t, m), h) e = elim (Bool-cases (equal j k)) [
  | inl i ↦ let s : w ≡ v = some_inj (rw i at e) in rw s at m
  | inr i ↦ lookup-All l k v es h (rw i at e)
]

pub serialize_dictionary-Prints :
    (p q : Parser) (d : Dictionary)
    → parse_dictionary p ≡ ok (d, q)
    → Prints (serialize_dictionary d)
serialize_dictionary-Prints p q d h =
    let x = parse_dictionary-IsParsed p q d h in
    rw (x.same, serialize_dictionary-IsDictionary p.limits x.entries x.valid)
      (prints (entries_text-Printed p.limits false x.entries x.valid.each))

pub write_member-Prints : (l : Limits) (v : Member) → IsMember l v → Prints (write_member v)
unfolding write_member
write_member-Prints l (item x) h = write_item-Prints l x h
write_member-Prints l (inner_list x) h = write_inner_list-Prints l x h
write_member-Prints l Member.nil h = elim h [ ]

pub lookup-IsMember :
    (p q : Parser) (d : Dictionary) (k : Bytes) (v : Member)
    → parse_dictionary p ≡ ok (d, q)
    → lookup k d.values ≡ some v
    → IsMember p.limits v
lookup-IsMember p q d k v h e =
    let x = parse_dictionary-IsParsed p q d h in
    lookup-All p.limits k v x.entries x.valid.each (rw x.same at e)

pub serialize_list-Prints :
    (p q : Parser) (x : MemberList) → parse_list p ≡ ok (x, q) → Prints (serialize_list x)
unfolding serialize_list
serialize_list-Prints p q x h =
    let w : Within p.limits (length p.rest) p = (refl, omega arith) in
    write_members-Prints p.limits false x.members
      (Ensures-ok (parse_list-Ensures p.limits p (length p.rest) w) h).0

pub write_item-parse_item :
    (p q : Parser) (x : Item) → parse_item p ≡ ok (x, q) → Prints (write_item x)
write_item-parse_item p q x h =
    let w : Within p.limits (suc (length p.rest)) p = (refl, omega arith) in
    write_item-Prints p.limits x (Ensures-ok (parse_item-Ensures p.limits p (length p.rest) w) h)

-- The parser of items returns from every position.
pub parse_item-Returns : (p : Parser) → parse_item p ≢ out_of_fuel
parse_item-Returns p =
    let w : Within p.limits (suc (length p.rest)) p = (refl, omega arith) in
    Ensures-ends (parse_item-Ensures p.limits p (length p.rest) w)
