-- ===== src/Sfv/Serialize.antt =====
-- pkg/sfv/serialize.go. A `strings.Builder` is the text written so far; what was written before an
-- error is dropped by the exported functions.
use http_message_signatures.Common.{
  ℕ, Bool, true, false, ◌||◌, Option, none, some, List, [], ◌∷◌, ◌++◌, ◌==◌, if◌then◌else◌, Bytes,
  codes, lookup,
}
use http_message_signatures.Stdlib.Base64
use http_message_signatures.Stdlib.Strconv.{format_int}
use http_message_signatures.Stdlib.Utf8.{write_runes}
use http_message_signatures.Sfv.Types.{
  Value, bool, int64, int, token, string, bytes, Parameter, Item, InnerList, Member, item,
  inner_list, MemberList, Dictionary,
}

pub data WriteError : Type 0 where
  unsupported_bare_item invalid_dictionary_value invalid_list_member : WriteError

-- The text that was written, or the first error.
pub data Written : Type 0 where
  wrote : Bytes → Written
  refused : WriteError → Written

-- One write behind another.
infixr 20 ◌<+>◌
abbrev pub ◌<+>◌ : Written → Written → Written
wrote s <+> wrote t = wrote (s ++ t)
wrote s <+> refused e = refused e
refused e <+> w = refused e

-- The backslash in front of a quote or a backslash.
unfoldable pub escape_before : ℕ → Bytes
escape_before c = if c == b'\\' || c == b'"' then b'\\' ∷ [] else []

-- `writeString`, and `SerializeString`
unfoldable pub serialize_string : Bytes → Bytes
serialize_string s = b'"' ∷ (write_runes escape_before 0 s ++ b'"' ∷ [])

-- `writeBareItem`
unfoldable pub write_bare_item : Value → Written
write_bare_item (bool true) = wrote (codes "?1")
write_bare_item (bool false) = wrote (codes "?0")
write_bare_item (int64 v) = wrote (format_int v)
write_bare_item (int v) = wrote (format_int v)
write_bare_item (token v) = wrote v
write_bare_item (string v) = wrote (serialize_string v)
write_bare_item (bytes v) = wrote (b':' ∷ (Base64.encode v ++ b':' ∷ []))
write_bare_item Value.nil = refused unsupported_bare_item

-- What `writeParameters` writes behind a key: nothing for true.
unfoldable pub write_parameter_value : Value → Written
unfolding write_bare_item
write_parameter_value (bool true) = wrote []
write_parameter_value v = wrote (b'=' ∷ []) <+> write_bare_item v

-- `writeParameters`
unfoldable pub write_parameters : List Parameter → Written
write_parameters [] = wrote []
write_parameters (x ∷ params) =
    wrote (b';' ∷ x.key) <+> write_parameter_value x.value <+> write_parameters params

-- `writeItem`, and `SerializeItem`
unfoldable pub write_item : Item → Written
write_item x = write_bare_item x.value <+> write_parameters x.parameters

-- The loop of `writeInnerList`; the flag is `i > 0`.
unfoldable pub write_items : Bool → List Item → Written
write_items later [] = wrote []
write_items later (x ∷ items) =
    wrote (if later then b' ' ∷ [] else []) <+> write_item x <+> write_items true items

-- `writeInnerList`, and `SerializeInnerList`
unfoldable pub write_inner_list : InnerList → Written
write_inner_list l =
    wrote (b'(' ∷ [])
    <+> write_items false l.items
    <+> wrote (b')' ∷ [])
    <+> write_parameters l.parameters

-- Boolean true with no parameters: `writeDictionary` writes the key alone.
unfoldable pub is_bare : Value → List Parameter → Bool
is_bare (bool true) [] = true
is_bare _ _ = false

-- `dict.Values[key]` as `writeDictionary` writes it behind the key. An entry that is missing reads
-- as nil, which is no valid type.
unfoldable pub write_entry : Option Member → Written
unfolding is_bare
write_entry (some (item x)) =
    if is_bare x.value x.parameters then wrote [] else wrote (b'=' ∷ []) <+> write_item x
write_entry (some (inner_list l)) = wrote (b'=' ∷ []) <+> write_inner_list l
write_entry (some Member.nil) = refused invalid_dictionary_value
write_entry none = refused invalid_dictionary_value

-- The loop of `writeDictionary`; the flag is `i > 0`.
unfoldable pub write_entries : Bool → List Bytes → List (Bytes × Member) → Written
write_entries later [] values = wrote []
write_entries later (k ∷ keys) values =
    wrote ((if later then codes ", " else []) ++ k)
    <+> write_entry (lookup k values)
    <+> write_entries true keys values

-- `SerializeDictionary`. With no key the loop writes nothing, as the source's own test does.
unfoldable pub serialize_dictionary : Dictionary → Written
serialize_dictionary dict = write_entries false dict.keys dict.values

unfoldable pub write_member : Member → Written
write_member (item x) = write_item x
write_member (inner_list l) = write_inner_list l
write_member Member.nil = refused invalid_list_member

-- The loop of `writeList`; the flag is `i > 0`.
unfoldable pub write_members : Bool → List Member → Written
write_members later [] = wrote []
write_members later (x ∷ members) =
    wrote (if later then codes ", " else []) <+> write_member x <+> write_members true members

-- `SerializeList`
unfoldable pub serialize_list : MemberList → Written
serialize_list list = write_members false list.members
