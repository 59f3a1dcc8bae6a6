-- ===== src/Sfv/Collections.antt =====
-- pkg/sfv: item.go, parameters.go, innerlist.go, list.go and dictionary.go. Each loop is on fuel,
-- one more than the bytes that are left: a round takes a byte at least.
use http_message_signatures.Common.{
  ℕ, zero, suc, ◌+◌, Bool, true, false, not, ◌||◌, none, some, List, [], ◌∷◌, ◌++◌, ◌==◌,
  if◌then◌else◌, length, Bytes, lookup, insert,
}
use http_message_signatures.Sfv.Types.{
  is_full, Value, bool, int64, token, string, bytes, Parameter, Item, InnerList, Member, item,
  inner_list, MemberList, Dictionary,
}
use http_message_signatures.Sfv.Lexer.{
  Parse, Message, ok, out_of_fuel, ◌>>=◌, ◌>>◌, pure, fail, peek, is_eof, advance, consume,
  skip_ows, skip_sp, check_input_length, expected_bare_item_got_eof, invalid_bare_item_start,
  parameters_count_exceeds, expected_open_paren, expected_close_paren, inner_list_members_exceeds,
  list_members_exceeds, dictionary_members_exceeds, trailing_comma_in_list,
  trailing_comma_in_dictionary, whitespace_before_equals,
}
use http_message_signatures.Sfv.Primitives.{
  is_alpha, is_digit, parse_boolean, parse_integer, parse_string, parse_byte_sequence, parse_token,
}

-- `parseBareItem`
unfoldable pub parse_bare_item : Parse Value
parse_bare_item p =
    let c = peek p in
    let boolean = (do pure (bool (← parse_boolean))) p in
    let integer = (do pure (int64 (← parse_integer))) p in
    let text = (do pure (string (← parse_string))) p in
    let sequence = (do pure (bytes (← parse_byte_sequence))) p in
    let name = (do pure (token (← parse_token))) p in
    if is_eof p
    then fail expected_bare_item_got_eof p
    else if c == b'?'
    then boolean
    else if c == b'-' || is_digit c
    then integer
    else if c == b'"'
    then text
    else if c == b':'
    then sequence
    else if c == b'*' || is_alpha c
    then name
    else fail invalid_bare_item_start p

-- The value of a parameter: what stands behind `=`, or true.
unfoldable pub parameter_value : Parse Value
parameter_value p = if peek p == b'=' then parse_bare_item (advance p) else ok (bool true, p)

-- One round of `parseParameters`, behind the `;`.
unfoldable pub parse_parameter : Parse Parameter
parse_parameter = do k ← parse_token; v ← parameter_value; pure (record { key = k; value = v })

-- The loop of `parseParameters`
unfoldable pub parameters_loop : ℕ → List Parameter → Parse (List Parameter)
parameters_loop zero params p = out_of_fuel
parameters_loop (suc f) params p =
    let more = (do x ← parse_parameter; parameters_loop f (params ++ x ∷ [])) (advance p) in
    if peek p == b';'
    then (if is_full p.limits.max_parameters (length params)
        then fail (parameters_count_exceeds (length params + 1) p.limits.max_parameters) p
        else more)
    else ok (params, p)

-- `parseParameters`
unfoldable pub parse_parameters : Parse (List Parameter)
parse_parameters p = parameters_loop (suc (length p.rest)) [] p

-- `ParseItem`; `parseInnerList` and `parseValue` repeat its two steps.
unfoldable pub parse_item : Parse Item
parse_item = do
  v ← parse_bare_item
  params ← parse_parameters
  pure (record { value = v; parameters = params })

-- The loop of `parseInnerList`
unfoldable pub inner_list_loop : ℕ → List Item → Parse (List Item)
inner_list_loop zero items p = out_of_fuel
inner_list_loop (suc f) items p =
    let q = skip_sp p in
    let more = (do x ← parse_item; inner_list_loop f (items ++ x ∷ [])) q in
    if peek q == b')'
    then ok (items, q)
    else if is_full q.limits.max_inner_list_members (length items)
    then fail (inner_list_members_exceeds (length items + 1) q.limits.max_inner_list_members) q
    else more

-- `parseInnerList` behind its loop
unfoldable pub close_inner_list : List Item → Parse InnerList
close_inner_list items p =
    let (matched, q) = consume b')' p in
    let params = (do ps ← parse_parameters; pure (record { items = items; parameters = ps })) q in
    if not matched then fail expected_close_paren q else params

-- `parseInnerList`
unfoldable pub parse_inner_list : Parse InnerList
parse_inner_list p =
    let (matched, q) = consume b'(' p in
    let body = (do items ← inner_list_loop (suc (length q.rest)) []; close_inner_list items) q in
    if not matched then fail expected_open_paren q else body

-- `parseValue` (list.go)
unfoldable pub parse_value : Parse Member
parse_value p =
    let list = (do pure (inner_list (← parse_inner_list))) p in
    let single = (do pure (item (← parse_item))) p in if peek p == b'(' then list else single

-- The member that a bare key stands for.
abbrev pub bare_key : Member
bare_key = item (record { value = bool true; parameters = [] })

-- `parseDictionaryMember` behind the key
unfoldable pub member_value : Parse Member
member_value p =
    if peek p == b' ' || peek p == b'\t'
    then fail whitespace_before_equals p
    else if not (peek p == b'=')
    then ok (bare_key, p)
    else parse_value (advance p)

-- `parseDictionaryMember`
unfoldable pub parse_dictionary_member : Parse (Bytes × Member)
parse_dictionary_member = do k ← parse_token; v ← member_value; pure (k, v)

-- A new key is appended to the keys; the last value of a key wins.
unfoldable pub store : Bytes → Member → Dictionary → Dictionary
store k v dict = record {
  keys = elim (lookup k dict.values) [ none ↦ dict.keys ++ k ∷ [] | some _ ↦ dict.keys ];
  values = insert k v dict.values;
}

-- The end of a round of either loop: true if a comma asks for another member.
unfoldable pub separator : Message → Parse Bool
separator trailing p =
    let q = skip_ows p in
    let r = skip_ows (advance q) in
    if peek q == b',' then (if is_eof r then fail trailing r else ok (true, r)) else ok (false, q)

-- The loop of `ParseDictionary`
unfoldable pub dictionary_loop : ℕ → Dictionary → Parse Dictionary
dictionary_loop zero dict p = out_of_fuel
dictionary_loop (suc f) dict p =
    let round =
      (do
        (k, v) ← parse_dictionary_member
        again ← separator trailing_comma_in_dictionary
        λ q.
            let more = dictionary_loop f (store k v dict) q in
            if again then more else ok (store k v dict, q))
        p in
    if is_eof p
    then ok (dict, p)
    else if is_full p.limits.max_dictionary_members (length dict.keys)
    then fail (dictionary_members_exceeds (length dict.keys + 1) p.limits.max_dictionary_members) p
    else round

abbrev pub empty_dictionary : Dictionary
empty_dictionary = record { keys = []; values = [] }

-- `ParseDictionary`. At the end of the input its loop returns at once, as the source's own test does.
unfoldable pub parse_dictionary : Parse Dictionary
parse_dictionary = do
  check_input_length
  λ p. dictionary_loop (suc (length p.rest)) empty_dictionary p

-- The loop of `ParseList`, whose limit is that of dictionaries
unfoldable pub list_loop : ℕ → List Member → Parse (List Member)
list_loop zero members p = out_of_fuel
list_loop (suc f) members p =
    let round =
      (do
        v ← parse_value
        again ← separator trailing_comma_in_list
        λ q.
            let more = list_loop f (members ++ v ∷ []) q in
            if again then more else ok (members ++ v ∷ [], q))
        p in
    if is_eof p
    then ok (members, p)
    else if is_full p.limits.max_dictionary_members (length members)
    then fail (list_members_exceeds (length members + 1) p.limits.max_dictionary_members) p
    else round

-- `ParseList`
unfoldable pub parse_list : Parse MemberList
parse_list = do
  check_input_length
  members ← λ p. list_loop (suc (length p.rest)) [] p
  pure (record { members = members })
