-- ===== src/Sfv/Reads/Dictionaries.antt =====
-- `ParseDictionary` reads what `SerializeDictionary` writes, and stops in front of what follows.
pub mod RoundTrip
pub mod Written
use http_message_signatures.Common.{
  ℕ, ◌+◌, ◌-◌, ◌≡◌, refl, ◌∙◌, ◌⊎◌, inl, inr, Bool, true, false, ◌||◌, none, some, List, [], ◌∷◌,
  ◌++◌, append-nil, append_assoc, arith, ◌==◌, if◌then◌else◌, Bool-cases, Bytes, codes, lookup,
}
use http_message_signatures.Sfv.Types.{
  Limits, Value, Parameter, Member, Dictionary, bool, int64, int, token, string, bytes, item,
  inner_list,
}
use http_message_signatures.Sfv.Lexer.{◌>>=◌, ◌>>◌, head_or_nul, pass_byte, is_ows, >>=-ok}
use http_message_signatures.Sfv.Primitives.{is_token_char, parse_token}
use http_message_signatures.Sfv.Collections.{bare_key, member_value, parse_dictionary_member}
use http_message_signatures.Sfv.Serialize.{is_bare, write_entry, wrote}
use http_message_signatures.Sfv.Reads.{Reads, stops, stops_mono}
use http_message_signatures.Sfv.Reads.Tokens.{IsToken, parse_token-Reads}
use http_message_signatures.Sfv.Reads.Items.{
  ends_item, item_text, parameters_text, write_item-IsItem,
}
use http_message_signatures.Sfv.Reads.Values.{value_text}
use http_message_signatures.Sfv.Reads.Members.{
  IsMember, member_text, inner_list_text, write_inner_list-IsInnerList, parse_value-Reads,
}

abbrev pub Entries : Type 0
Entries = List (Bytes × Member)

unfoldable pub keys_of : Entries → List Bytes
keys_of [] = []
keys_of ((k, v) ∷ es) = k ∷ keys_of es

-- The dictionary with these entries, in this order.
abbrev pub dictionary_of : Entries → Dictionary
dictionary_of es = record { keys = keys_of es; values = es }

-- Each key is absent from the entries before it.
abbrev pub AreNew : Entries → Entries → Type 0
AreNew before [] = Unit {0}
AreNew before ((k, v) ∷ es) = (lookup k before ≡ none) × AreNew (before ++ (k, v) ∷ []) es

abbrev pub IsEntry : Limits → Bytes × Member → Type 0
IsEntry limits (k, v) = IsToken limits k × IsMember limits v

-- What stands behind a key: nothing for a bare true.
unfoldable pub item_entry : Value → List Parameter → Bytes
unfolding value_text parameters_text
item_entry (bool true) [] = []
item_entry v params = b'=' ∷ (value_text v ++ parameters_text params)

unfoldable pub entry_text : Member → Bytes
entry_text (item x) = item_entry x.value x.parameters
entry_text (inner_list l) = b'=' ∷ inner_list_text l
entry_text Member.nil = []

unfoldable pub entries_text : Bool → Entries → Bytes
entries_text later [] = []
entries_text later ((k, v) ∷ es) =
    (if later then codes ", " else []) ++ (k ++ (entry_text v ++ entries_text true es))

-- A bare true, or a value behind `=`.
pub item_entry-cases :
    (v : Value) (params : List Parameter)
    → ((v ≡ bool true) × (params ≡ []) × (item_entry v params ≡ []) × (is_bare v params ≡ true))
      ⊎ ((item_entry v params ≡ b'=' ∷ (value_text v ++ parameters_text params))
          × (is_bare v params ≡ false))
unfolding item_entry is_bare
item_entry-cases (bool true) [] = inl (refl, refl, refl, refl)
item_entry-cases (bool true) (x ∷ params) = inr (refl, refl)
item_entry-cases (bool false) params = inr (refl, refl)
item_entry-cases (int64 v) params = inr (refl, refl)
item_entry-cases (int v) params = inr (refl, refl)
item_entry-cases (token v) params = inr (refl, refl)
item_entry-cases (string v) params = inr (refl, refl)
item_entry-cases (bytes v) params = inr (refl, refl)
item_entry-cases Value.nil params = inr (refl, refl)

-- A bare key, or `=` and the member.
entry-cases :
    (limits : Limits) (v : Member)
    → IsMember limits v
    → ((v ≡ bare_key) × (entry_text v ≡ []) × (write_entry (some v) ≡ wrote []))
      ⊎ ((entry_text v ≡ b'=' ∷ member_text v)
          × (write_entry (some v) ≡ wrote (b'=' ∷ member_text v)))
unfolding entry_text write_entry member_text item_text
entry-cases limits (item x) h = elim (item_entry-cases x.value x.parameters) [
  | inl (v, ps, e, bare) ↦
      inl ((λ i. item (record { value = v i; parameters = ps i })), e, rw bare refl)
  | inr (e, full) ↦ inr (e, rw (full, write_item-IsItem limits x h) refl)
]
entry-cases limits (inner_list l) h = inr (refl, rw (write_inner_list-IsInnerList limits l h) refl)
entry-cases limits Member.nil h = absurd h

pub write_entry-IsMember :
    (limits : Limits) (v : Member) → IsMember limits v → write_entry (some v) ≡ wrote (entry_text v)
write_entry-IsMember limits v h = elim (entry-cases limits v h) [
  | inl (bare, e, w) ↦ rw (w, e)
  | inr (e, w) ↦ rw (w, e)
]

-- The byte behind a member.
abbrev pub ends_member : ℕ → Bool
ends_member c = ends_item c || is_ows c

-- The byte behind a dictionary.
abbrev pub ends_dictionary : ℕ → Bool
ends_dictionary c = ends_member c || c == b','

stops_head :
    (s : Bytes)
    → stops ends_member s ≡ true
    → ((head_or_nul s == b' ' || head_or_nul s == b'\t') ≡ false)
      × ((head_or_nul s == b'=') ≡ false)
unfolding head_or_nul
stops_head [] h = (refl, refl)
stops_head (c ∷ s) h = (ground arith, ground arith)

member_value-Reads :
    (limits : Limits) (v : Member) (rest : Bytes)
    → IsMember limits v
    → stops ends_member rest ≡ true
    → Reads limits member_value (entry_text v) v rest
member_value-Reads limits v rest h k seen = elim (entry-cases limits v h) [
  | inl (bare, e, w) ↦
      let (no_space, no_equals) = stops_head rest k in
      rw (e, bare) (unfold member_value in rw (append-nil seen, no_space, no_equals))
  | inr (e, w) ↦
      let tail = stops_mono ends_item ends_member rest (λ c h. ground arith) k in
      let read = parse_value-Reads limits v rest h tail (seen ++ b'=' ∷ []) in
      rw e (unfold member_value head_or_nul pass_byte in read ∙ rw (append_assoc seen))
]

stops_entry :
    (limits : Limits) (v : Member) (rest : Bytes)
    → IsMember limits v
    → stops ends_member rest ≡ true
    → stops is_token_char (entry_text v ++ rest) ≡ true
stops_entry limits v rest h k = elim (entry-cases limits v h) [
  | inl (bare, e, w) ↦ rw e (stops_mono is_token_char ends_member rest (λ c h. ground arith) k)
  | inr (e, w) ↦ rw e (unfold is_token_char in refl)
]

parse_dictionary_member-Reads :
    (limits : Limits) (k : Bytes) (v : Member) (rest : Bytes)
    → IsEntry limits (k, v)
    → stops ends_member rest ≡ true
    → Reads limits parse_dictionary_member (k ++ entry_text v) (k, v) rest
unfolding parse_dictionary_member
parse_dictionary_member-Reads limits k v rest h e seen = rw (append_assoc k (entry_text v) rest) (
    >>=-ok parse_token _ _
      (parse_token-Reads limits k (entry_text v ++ rest) h.0 (stops_entry limits v rest h.1 e) seen)
    ∙ >>=-ok member_value _ _ (member_value-Reads limits v rest h.1 e (seen ++ k))
    ∙ rw (append_assoc seen k (entry_text v)))
