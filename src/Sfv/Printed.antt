-- ===== src/Sfv/Printed.antt =====
-- pkg/sfv/serialize.go: the characters that the serializers write for what the parsers return.
use http_message_signatures.Common.{
  ℕ, suc, ◌≡◌, refl, inl, inr, Bool, true, false, ◌||◌, List, [], ◌∷◌, ◌++◌, arith, ◌==◌,
  if◌then◌else◌, &&_left, &&_right, Bool-cases, All, all, Bytes, codes, ℤ, pos, negsuc,
  all-append_lem,
}
use http_message_signatures.Stdlib.Base64.{encode, encode_digit}
use http_message_signatures.Stdlib.Base64.RoundTrip.{all-encode}
use http_message_signatures.Stdlib.Strconv.{format_int, is_digit_byte}
use http_message_signatures.Stdlib.Strconv.RoundTrip.{all-digits}
use http_message_signatures.Sfv.Types.{
  Limits, Value, Parameter, Item, InnerList, Member, bool, int64, int, token, string, bytes, item,
  inner_list,
}
use http_message_signatures.Sfv.Primitives.{is_alpha, is_digit, is_token_char}
use http_message_signatures.Sfv.Serialize.{
  Written, ◌<+>◌, escape_before, write_item, write_inner_list, write_member, write_members, wrote,
}
use http_message_signatures.Sfv.Reads.Tokens.{starts_token, IsToken}
use http_message_signatures.Sfv.Reads.Strings.{is_printable, escaped, serialize_string-escaped}
use http_message_signatures.Sfv.Reads.Values.{value_text, IsValue}
use http_message_signatures.Sfv.Reads.Items.{
  IsParameter, assigned_text, parameters_text, IsItem, item_text, write_item-IsItem,
}
use http_message_signatures.Sfv.Reads.Members.{
  items_text, IsInnerList, inner_list_text, write_inner_list-IsInnerList, IsMember,
}
use http_message_signatures.Sfv.Reads.Dictionaries.{
  item_entry-cases, Entries, IsEntry, entry_text, entries_text,
}

-- Printable ASCII throughout
abbrev pub Printed : Bytes → Type 0
Printed s = all is_printable s ≡ true

all_mono :
    (u v : ℕ → Bool) (s : Bytes)
    → ((c : ℕ) → u c ≡ true → v c ≡ true)
    → all u s ≡ true
    → all v s ≡ true
all_mono u v [] f h = refl
all_mono u v (c ∷ s) f h =
    rw (f c (&&_left (u c) (all u s) h), all_mono u v s f (&&_right (u c) (all u s) h)) refl

joined : (s t : Bytes) → Printed s → Printed t → Printed (s ++ t)
joined s t h k = all-append_lem is_printable s t h k

format_int-Printed : (v : ℤ) → Printed (format_int v)
unfolding format_int
format_int-Printed (pos n) =
    all_mono is_digit_byte is_printable _ (λ c e. unfold is_digit_byte in ground arith)
      (all-digits _ n)
format_int-Printed (negsuc n) =
    all_mono is_digit_byte is_printable _ (λ c e. unfold is_digit_byte in ground arith)
      (all-digits _ (suc n))

printable_digit : (n : ℕ) → is_printable (encode_digit n) ≡ true
unfolding encode_digit
printable_digit n = ground arith

printable_token : (c : ℕ) → is_token_char c ≡ true → is_printable c ≡ true
unfolding is_token_char is_alpha is_digit
printable_token c h = ground arith

starts_printed : (c : ℕ) → starts_token c ≡ true → is_printable c ≡ true
unfolding is_alpha
starts_printed c h = ground arith

token-Printed : (l : Limits) (s : Bytes) → IsToken l s → Printed s
token-Printed l [] h = refl
token-Printed l (c ∷ s) h =
    let more =
      all_mono is_token_char is_printable s printable_token
        (&&_right (starts_token c) (all is_token_char s) h.0) in
    let here : is_printable c ≡ true =
      starts_printed c (&&_left (starts_token c) (all is_token_char s) h.0) in
    rw (here, more) refl

escaped-Printed : (s : Bytes) → Printed s → Printed (escaped s)
unfolding escaped escape_before
escaped-Printed [] h = refl
escaped-Printed (c ∷ s) h =
    let more = escaped-Printed s (&&_right (is_printable c) (all is_printable s) h) in
    let here = &&_left (is_printable c) (all is_printable s) h in
    elim (Bool-cases (c == b'\\' || c == b'"')) [
      | inl e ↦ rw (e, here, more) refl
      | inr e ↦ rw (e, here, more) refl
    ]

value_text-Printed : (l : Limits) (v : Value) → IsValue l v → Printed (value_text v)
unfolding value_text
value_text-Printed l (bool true) h = refl
value_text-Printed l (bool false) h = refl
value_text-Printed l (int64 v) h = format_int-Printed v
value_text-Printed l (int v) h = refl
value_text-Printed l (token t) h = token-Printed l t h
value_text-Printed l (string s) h =
    rw (serialize_string-escaped s h.0)
      (joined (escaped s) (b'"' ∷ []) (escaped-Printed s h.0) refl)
value_text-Printed l (bytes b) h =
    joined (encode b) (b':' ∷ []) (all-encode is_printable refl printable_digit b) refl
value_text-Printed l Value.nil h = refl

assigned_text-Printed : (l : Limits) (v : Value) → IsValue l v → Printed (assigned_text v)
unfolding assigned_text
assigned_text-Printed l (bool true) h = refl
assigned_text-Printed l (bool false) h = refl
assigned_text-Printed l (int64 v) h = value_text-Printed l (int64 v) h
assigned_text-Printed l (token t) h = value_text-Printed l (token t) h
assigned_text-Printed l (string s) h = value_text-Printed l (string s) h
assigned_text-Printed l (bytes b) h = value_text-Printed l (bytes b) h
assigned_text-Printed l (int v) h = elim h [ ]
assigned_text-Printed l Value.nil h = elim h [ ]

module _ (l : Limits) where
  parameters_text-Printed :
      (params : List Parameter) → All (IsParameter l) params → Printed (parameters_text params)
  unfolding parameters_text
  parameters_text-Printed [] h = refl
  parameters_text-Printed (x ∷ params) ((k, v), h) = joined x.key _ (token-Printed l x.key k) (
      joined (assigned_text x.value) _ (assigned_text-Printed l x.value v)
        (parameters_text-Printed params h))

  pub item_text-Printed : (x : Item) → IsItem l x → Printed (item_text x)
  unfolding item_text
  item_text-Printed x (v, (h, f)) =
      joined (value_text x.value) _ (value_text-Printed l x.value v)
        (parameters_text-Printed x.parameters h)

  items_text-Printed :
      (later : Bool) (items : List Item) → All (IsItem l) items → Printed (items_text later items)
  unfolding items_text
  items_text-Printed later [] h = refl
  items_text-Printed true (x ∷ items) (i, h) =
      joined (item_text x) _ (item_text-Printed x i) (items_text-Printed true items h)
  items_text-Printed false (x ∷ items) (i, h) =
      joined (item_text x) _ (item_text-Printed x i) (items_text-Printed true items h)

  pub inner_list_text-Printed : (x : InnerList) → IsInnerList l x → Printed (inner_list_text x)
  unfolding inner_list_text
  inner_list_text-Printed x (i, f, (h, g)) =
      joined (items_text false x.items) _ (items_text-Printed false x.items i)
        (parameters_text-Printed x.parameters h)

  entry_text-Printed : (v : Member) → IsMember l v → Printed (entry_text v)
  unfolding entry_text
  entry_text-Printed (item x) h = elim (item_entry-cases x.value x.parameters) [
    | inl (v, ps, e, bare) ↦ rw e refl
    | inr (e, full) ↦ rw e (unfold item_text in item_text-Printed x h)
  ]
  entry_text-Printed (inner_list x) h = inner_list_text-Printed x h
  entry_text-Printed Member.nil h = elim h [ ]

  pub entries_text-Printed :
      (later : Bool) (es : Entries) → All (IsEntry l) es → Printed (entries_text later es)
  unfolding entries_text
  entries_text-Printed later [] h = refl
  entries_text-Printed true ((k, v) ∷ es) ((t, m), h) =
      joined k _ (token-Printed l k t)
        (joined (entry_text v) _ (entry_text-Printed v m) (entries_text-Printed true es h))
  entries_text-Printed false ((k, v) ∷ es) ((t, m), h) =
      joined k _ (token-Printed l k t)
        (joined (entry_text v) _ (entry_text-Printed v m) (entries_text-Printed true es h))

-- What is written is printable.
pub data Prints : Written → Type 0 where
  prints : {s : Bytes} → Printed s → Prints (wrote s)

pub Prints-wrote : {s : Bytes} → Prints (wrote s) → Printed s
Prints-wrote (prints h) = h

both : {v w : Written} → Prints v → Prints w → Prints (v <+> w)
both (prints {s = s} h) (prints {s = t} k) = prints (joined s t h k)

module _ (l : Limits) where
  pub write_item-Prints : (x : Item) → IsItem l x → Prints (write_item x)
  write_item-Prints x h = rw (write_item-IsItem l x h) (prints (item_text-Printed l x h))

  pub write_inner_list-Prints : (x : InnerList) → IsInnerList l x → Prints (write_inner_list x)
  write_inner_list-Prints x h =
      rw (write_inner_list-IsInnerList l x h) (prints (inner_list_text-Printed l x h))

  pub write_members-Prints :
      (later : Bool) (vs : List Member) → All (IsMember l) vs → Prints (write_members later vs)
  unfolding write_members write_member
  write_members-Prints later [] h = prints refl
  write_members-Prints later (v ∷ vs) (m, h) =
      both (prints (comma later)) (both (member v m) (write_members-Prints true vs h))
    where
      comma : (later : Bool) → Printed (if later then codes ", " else [])
      comma true = refl
      comma false = refl

      member : (v : Member) → IsMember l v → Prints (write_member v)
      member (item x) h = write_item-Prints x h
      member (inner_list x) h = write_inner_list-Prints x h
      member Member.nil h = elim h [ ]
