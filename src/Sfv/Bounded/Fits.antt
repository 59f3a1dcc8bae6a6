-- ===== src/Sfv/Bounded/Fits.antt =====
-- pkg/sfv/limits.go: what the limits leave of a parsed dictionary.
use http_message_signatures.Common.{ℕ, ◌≤◌, List, [], ◌∷◌, arith, length, length-append, All, Bytes}
use http_message_signatures.Sfv.Types.{
  Limits, Value, Parameter, Item, Member, Dictionary, bool, int64, token, string, bytes, item,
  inner_list,
}
use http_message_signatures.Sfv.Serialize.{escape_before}
use http_message_signatures.Sfv.Reads.Strings.{escaped}
use http_message_signatures.Sfv.Reads.Values.{IsValue}
use http_message_signatures.Sfv.Reads.Items.{IsParameter, IsItem}
use http_message_signatures.Sfv.Reads.Members.{IsMember}
use http_message_signatures.Sfv.Reads.Dictionaries.{Entries, keys_of, IsEntry}
use http_message_signatures.Sfv.Reads.Dictionaries.RoundTrip.{length-keys_of}
use http_message_signatures.Sfv.Bounded.{Fits}
use http_message_signatures.Sfv.Bounded.Stored.{IsParsed}

abbrev pub FitsString : Limits → Bytes → Type 0
FitsString l s = Fits l.max_string_length (length s)

-- The limits that a parsed value stays within, from values up to dictionaries
abbrev pub FitsToken : Limits → Bytes → Type 0
FitsToken l t = Fits l.max_token_length (length t)

abbrev pub ValueFits : Limits → Value → Type 0
ValueFits l (token t) = FitsToken l t
ValueFits l (string s) = FitsString l s
ValueFits l (bytes b) = Fits l.max_byte_sequence_length (length b)
ValueFits l _ = Unit {0}

abbrev pub ParameterFits : Limits → Parameter → Type 0
ParameterFits l x = FitsToken l x.key × ValueFits l x.value

abbrev pub ParametersFit : Limits → List Parameter → Type 0
ParametersFit l xs = Fits l.max_parameters (length xs) × All (ParameterFits l) xs

abbrev pub ItemFits : Limits → Item → Type 0
ItemFits l x = ValueFits l x.value × ParametersFit l x.parameters

abbrev pub ItemsFit : Limits → List Item → Type 0
ItemsFit l xs = Fits l.max_inner_list_members (length xs) × All (ItemFits l) xs

abbrev pub MemberFits : Limits → Member → Type 0
MemberFits l (item x) = ItemFits l x
MemberFits l (inner_list x) = ItemsFit l x.items × ParametersFit l x.parameters
MemberFits l Member.nil = Unit {0}

abbrev pub DictionaryFits : Limits → Dictionary → Type 0
DictionaryFits l d =
    Fits l.max_dictionary_members (length d.keys)
    × All (FitsToken l) d.keys
    × All (λ e. MemberFits l e.1) d.values

All-map :
    {A : Type 0} (P Q : A → Type 0) (xs : List A) → ((x : A) → P x → Q x) → All P xs → All Q xs
All-map P Q [] f h = tt
All-map P Q (x ∷ xs) f (h, hs) = (f x h, All-map P Q xs f hs)

length-escaped : (s : Bytes) → length s ≤ length (escaped s)
unfolding escaped
length-escaped [] = omega arith
length-escaped (c ∷ s) =
    omega (arith, length-escaped s, length-append (escape_before c) (c ∷ escaped s))

Fits-mono : (limit m n : ℕ) → m ≤ n → Fits limit n → Fits limit m
Fits-mono limit m n h k = ground arith

IsValue-Fits : (l : Limits) (v : Value) → IsValue l v → ValueFits l v
IsValue-Fits l (token t) h = h.1
IsValue-Fits l (string s) h = Fits-mono l.max_string_length _ _ (length-escaped s) h.1
IsValue-Fits l (bytes b) h = h.1
IsValue-Fits l (bool b) h = tt
IsValue-Fits l (int64 n) h = tt
IsValue-Fits l (Value.int n) h = tt
IsValue-Fits l Value.nil h = tt

IsParameter-Fits : (l : Limits) (x : Parameter) → IsParameter l x → ParameterFits l x
IsParameter-Fits l x (h, k) = (h.1, IsValue-Fits l x.value k)

IsItem-Fits : (l : Limits) (x : Item) → IsItem l x → ItemFits l x
IsItem-Fits l x (h, k) = (
  IsValue-Fits l x.value h,
  (k.1, All-map (IsParameter l) (ParameterFits l) x.parameters (IsParameter-Fits l) k.0),
)

IsMember-Fits : (l : Limits) (v : Member) → IsMember l v → MemberFits l v
IsMember-Fits l (item x) h = IsItem-Fits l x h
IsMember-Fits l (inner_list x) (h, k, i) = (
  (k, All-map (IsItem l) (ItemFits l) x.items (IsItem-Fits l) h),
  (i.1, All-map (IsParameter l) (ParameterFits l) x.parameters (IsParameter-Fits l) i.0),
)
IsMember-Fits l Member.nil h = tt

keys-Fit : (l : Limits) (es : Entries) → All (IsEntry l) es → All (FitsToken l) (keys_of es)
unfolding keys_of
keys-Fit l [] h = tt
keys-Fit l (e ∷ es) (h, hs) = (h.0.1, keys-Fit l es hs)

pub IsParsed-Fits : (l : Limits) (d : Dictionary) → IsParsed l d → DictionaryFits l d
IsParsed-Fits l d x = rw x.same (
  rw (length-keys_of x.entries) x.valid.few,
  keys-Fit l x.entries x.valid.each,
  All-map (IsEntry l) (λ e. MemberFits l e.1) x.entries (λ e h. IsMember-Fits l e.1 h.1)
      x.valid.each,
)
