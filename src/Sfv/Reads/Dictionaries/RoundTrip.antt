-- ===== src/Sfv/Reads/Dictionaries/RoundTrip.antt =====
-- The loop of `ParseDictionary` over what `writeDictionary` writes.
use http_message_signatures.Common.{
  ℕ, zero, suc, ◌+◌, ◌<◌, ◌≡◌, refl, sym, ap, ◌∙◌, inl, inr, Bool, true, false, none, some, [], ◌∷◌,
  ◌++◌, append-nil, append_assoc, arith, ◌==◌, if◌then◌else◌, Bool-cases, length, length-append,
  All, Bytes, codes, equal, equal_refl, lookup, insert,
}
use http_message_signatures.Sfv.Types.{Limits, exceeds, is_full, Member, Dictionary}
use http_message_signatures.Sfv.Lexer.{
  Parser, input, new_parser, Message, head_or_nul, is_nil, pass_byte, skip_bytes, is_ows,
  check_input_length, trailing_comma_in_dictionary, ok, >>=-ok,
}
use http_message_signatures.Sfv.Primitives.{is_alpha, is_token_char}
use http_message_signatures.Sfv.Collections.{
  parse_dictionary_member, store, separator, dictionary_loop, parse_dictionary,
}
use http_message_signatures.Sfv.Serialize.{write_entries, serialize_dictionary, wrote}
use http_message_signatures.Sfv.Reads.{at, stops, stops_mono, begins, begins-append, begins_pos}
use http_message_signatures.Sfv.Reads.Tokens.{starts_token}
use http_message_signatures.Sfv.Reads.Values.{begins_token}
use http_message_signatures.Sfv.Reads.Dictionaries.{
  Entries, keys_of, dictionary_of, AreNew, IsEntry, entry_text, entries_text, write_entry-IsMember,
  ends_member, ends_dictionary, parse_dictionary_member-Reads,
}

keys_of-append : (es fs : Entries) → keys_of (es ++ fs) ≡ keys_of es ++ keys_of fs
unfolding keys_of
keys_of-append [] fs = refl
keys_of-append ((k, v) ∷ es) fs = ap (◌∷◌ k) (keys_of-append es fs)

pub length-keys_of : (es : Entries) → length (keys_of es) ≡ length es
unfolding keys_of
length-keys_of [] = refl
length-keys_of ((k, v) ∷ es) = ap suc (length-keys_of es)

insert-new :
    (k : Bytes) (v : Member) (es : Entries) → lookup k es ≡ none → insert k v es ≡ es ++ (k, v) ∷ []
unfolding lookup insert
insert-new k v [] h = refl
insert-new k v ((j, w) ∷ es) h = elim (Bool-cases (equal j k)) [
  | inl same ↦ cc (rw same at h)
  | inr other ↦ rw other (ap (◌∷◌ (j, w)) (insert-new k v es (rw other at h)))
]

-- A new key goes to the end.
store-new :
    (k : Bytes) (v : Member) (es : Entries)
    → lookup k es ≡ none
    → store k v (dictionary_of es) ≡ dictionary_of (es ++ (k, v) ∷ [])
unfolding store
store-new k v es h =
    let keys = keys_of-append es ((k, v) ∷ []) in
    rw (h, insert-new k v es h, keys) (unfold keys_of in refl)

lookup-append :
    (k : Bytes) (v : Member) (es fs : Entries)
    → lookup k es ≡ none
    → lookup k (es ++ (k, v) ∷ fs) ≡ some v
unfolding lookup
lookup-append k v [] fs h = rw (equal_refl k)
lookup-append k v ((j, w) ∷ es) fs h = elim (Bool-cases (equal j k)) [
  | inl same ↦ cc (rw same at h)
  | inr other ↦ rw other (lookup-append k v es fs (rw other at h))
]

-- Between two members stands a comma and a space; behind the last one the loop ends.
separator_last :
    (limits : Limits) (trailing : Message) (rest seen : Bytes)
    → stops ends_dictionary rest ≡ true
    → separator trailing (at limits seen rest) ≡ ok (false, at limits seen rest)
unfolding separator skip_bytes head_or_nul
separator_last limits trailing [] seen h = refl
separator_last limits trailing (c ∷ rest) seen h =
    let no_space : is_ows c ≡ false = ground arith in
    let no_comma : (c == b',') ≡ false = ground arith in rw (no_space, no_comma)

separator_next :
    (limits : Limits) (trailing : Message) (s rest seen : Bytes)
    → begins starts_token s ≡ true
    → separator trailing (at limits seen (codes ", " ++ (s ++ rest)))
      ≡ ok (true, at limits (seen ++ codes ", ") (s ++ rest))
unfolding separator skip_bytes head_or_nul pass_byte is_nil
separator_next limits trailing [] rest seen h = cc
separator_next limits trailing (c ∷ s) rest seen h =
    let no_space : is_ows c ≡ false = (unfold is_alpha in ground arith) in
    rw no_space (rw (append_assoc seen (b',' ∷ []) (b' ' ∷ [])))

entries_text_later :
    (e : Bytes × Member) (es : Entries)
    → entries_text true (e ∷ es) ≡ codes ", " ++ entries_text false (e ∷ es)
unfolding entries_text
entries_text_later (k, v) es = refl

entries_text_cons :
    (k : Bytes) (v : Member) (es : Entries)
    → entries_text false ((k, v) ∷ es) ≡ k ++ (entry_text v ++ entries_text true es)
unfolding entries_text
entries_text_cons k v es = refl

not_eof : (s t u : Bytes) → begins starts_token s ≡ true → is_nil ((s ++ t) ++ u) ≡ false
unfolding is_nil
not_eof [] t u h = cc
not_eof (c ∷ s) t u h = refl

stops_entries :
    (e : Bytes × Member) (es : Entries) (rest : Bytes)
    → stops ends_member (entries_text true (e ∷ es) ++ rest) ≡ true
unfolding entries_text is_token_char
stops_entries (k, v) es rest = refl

module _ (limits : Limits) (k : Bytes) (v : Member) (dict : Dictionary) (f : ℕ) where
  -- A round of the loop up to its separator.
  dictionary_round :
      (behind seen : Bytes) {again : Bool} {q : Parser}
      → IsEntry limits (k, v)
      → is_full limits.max_dictionary_members (length dict.keys) ≡ false
      → stops ends_member behind ≡ true
      → separator trailing_comma_in_dictionary (at limits (seen ++ (k ++ entry_text v)) behind)
        ≡ ok (again, q)
      → dictionary_loop (suc f) dict (at limits seen ((k ++ entry_text v) ++ behind))
        ≡ (if again then dictionary_loop f (store k v dict) q else ok (store k v dict, q))
  unfolding dictionary_loop
  dictionary_round behind seen {again} {q} h room stop sep =
      let more = not_eof k (entry_text v) behind (begins_token k h.0.0) in
      rw (more, room)
        (>>=-ok parse_dictionary_member _ _
            (parse_dictionary_member-Reads limits k v behind h stop seen)
          ∙ >>=-ok (separator trailing_comma_in_dictionary) _ _ sep)

next_separator :
    (limits : Limits) (k : Bytes) (v : Member) (es : Entries) (rest seen : Bytes)
    → IsEntry limits (k, v)
    → separator trailing_comma_in_dictionary
        (at limits seen (entries_text true ((k, v) ∷ es) ++ rest))
      ≡ ok (true, at limits (seen ++ codes ", ") (entries_text false ((k, v) ∷ es) ++ rest))
next_separator limits k v es rest seen h =
    let first : begins starts_token (entries_text false ((k, v) ∷ es)) ≡ true =
      rw (entries_text_cons k v es) (begins-append starts_token k _ (begins_token k h.0.0)) in
    rw (entries_text_later (k, v) es)
      (separator_next limits _ (entries_text false ((k, v) ∷ es)) rest seen first)

-- The loop, with the entries `done` stored so far.
dictionary_loop-at :
    (limits : Limits) (k : Bytes) (v : Member) (es done : Entries) (rest seen : Bytes) (f : ℕ)
    → All (IsEntry limits) ((k, v) ∷ es)
    → AreNew done ((k, v) ∷ es)
    → exceeds limits.max_dictionary_members (length done + suc (length es)) ≡ false
    → length (entries_text false ((k, v) ∷ es)) < f
    → stops ends_dictionary rest ≡ true
    → dictionary_loop f
        (dictionary_of done)
        (at limits seen (entries_text false ((k, v) ∷ es) ++ rest))
      ≡ ok (
        dictionary_of (done ++ (k, v) ∷ es),
        at limits (seen ++ entries_text false ((k, v) ∷ es)) rest,
      )
dictionary_loop-at limits k v es done rest seen zero h n e m stop = absurd (omega arith)
dictionary_loop-at limits k v [] done rest seen (suc f) h n e m stop =
    let own = k ++ entry_text v in
    let text : entries_text false ((k, v) ∷ []) ≡ own =
      entries_text_cons k v [] ∙ (unfold entries_text in rw (append-nil (entry_text v))) in
    let room : is_full limits.max_dictionary_members (length (keys_of done)) ≡ false =
      rw (length-keys_of done) (ground arith) in
    rw text (
      dictionary_round limits k v (dictionary_of done) f rest seen h.0 room
        (stops_mono ends_member ends_dictionary rest (λ c h. ground arith) stop)
        (separator_last limits _ rest (seen ++ own) stop)
      ∙ rw (store-new k v done n.0))
dictionary_loop-at limits k v ((k', v') ∷ es) done rest seen (suc f) h n e m stop =
    let own = k ++ entry_text v in
    let more = entries_text false ((k', v') ∷ es) in
    let behind = entries_text true ((k', v') ∷ es) in
    let text : entries_text false ((k, v) ∷ (k', v') ∷ es) ≡ own ++ behind =
      entries_text_cons k v ((k', v') ∷ es) ∙ sym (append_assoc k (entry_text v) behind) in
    let room : is_full limits.max_dictionary_members (length (keys_of done)) ≡ false =
      rw (length-keys_of done) (ground arith) in
    let later = entries_text_later (k', v') es in
    let sep = next_separator limits k' v' es rest (seen ++ own) h.1.0 in
    let size : length (own ++ behind) < suc f = rw text at m in
    let sizes = length-append own behind in
    let sizes' = ap length later in
    let pos = length-append k (entry_text v) in
    let pos' = begins_pos starts_token k (begins_token k h.0.0.0) in
    let split = append_assoc own behind rest in
    rw (text, split)
      (dictionary_round limits k v (dictionary_of done) f (behind ++ rest) seen h.0 room
          (stops_entries (k', v') es rest) sep
        ∙ (rw (store-new k v done n.0) (
            dictionary_loop-at limits k' v' es (done ++ (k, v) ∷ []) rest
              ((seen ++ own) ++ codes ", ") f h.1 n.1
              (ground (arith, length-append done ((k, v) ∷ []))) (omega arith) stop
            ∙ rw later (simp append_assoc))))

write_entries-at :
    (limits : Limits) (later : Bool) (es before : Entries)
    → All (IsEntry limits) es
    → AreNew before es
    → write_entries later (keys_of es) (before ++ es) ≡ wrote (entries_text later es)
unfolding keys_of write_entries entries_text
write_entries-at limits later [] before h n = refl
write_entries-at limits later ((k, v) ∷ es) before h n =
    let found = lookup-append k v before es n.0 in
    let tail =
      rw (append_assoc before ((k, v) ∷ []) es) at
        (write_entries-at limits true es (before ++ (k, v) ∷ []) h.1 n.1) in
    rw (found, write_entry-IsMember limits v h.0.1, tail) (simp append_assoc)

-- Entries that the parser can return under these limits.
pub record IsDictionary (limits : Limits) (es : Entries) : Type 0 where
  pub each : All (IsEntry limits) es
  pub distinct : AreNew [] es
  pub few : exceeds limits.max_dictionary_members (length es) ≡ false

abbrev pub dictionary_text : Entries → Bytes
dictionary_text = entries_text false

-- For a dictionary with distinct keys and members within the limits the serializer succeeds, and
-- writes the entries in order, with a comma and a space between two of them and a bare key for true
-- with no parameters.
pub serialize_dictionary-IsDictionary :
    (limits : Limits) (es : Entries)
    → IsDictionary limits es
    → serialize_dictionary (dictionary_of es) ≡ wrote (dictionary_text es)
unfolding serialize_dictionary
serialize_dictionary-IsDictionary limits es h =
    write_entries-at limits false es [] h.each h.distinct

pub check_input_length_ok :
    (p : Parser)
    → exceeds p.limits.max_input_length (length (input p)) ≡ false
    → check_input_length p ≡ ok (tt, p)
unfolding check_input_length
check_input_length_ok p h = rw h

-- A dictionary with at least one entry, with distinct keys and members within the limits, is read
-- back in order from its serialized text, and the scanner stops in front of any text that cannot go
-- on with it, provided that the whole input is within the limit on its length.
pub parse_dictionary-Reads :
    (limits : Limits) (e : Bytes × Member) (es : Entries) (rest : Bytes)
    → IsDictionary limits (e ∷ es)
    → stops ends_dictionary rest ≡ true
    → exceeds limits.max_input_length (length (dictionary_text (e ∷ es) ++ rest)) ≡ false
    → parse_dictionary (new_parser (dictionary_text (e ∷ es) ++ rest) limits)
      ≡ ok (dictionary_of (e ∷ es), at limits (dictionary_text (e ∷ es)) rest)
unfolding parse_dictionary keys_of
parse_dictionary-Reads limits (k, v) es rest h stop short =
    let text = dictionary_text ((k, v) ∷ es) ++ rest in
    let few = h.few in
    >>=-ok check_input_length _ _ (check_input_length_ok (new_parser text limits) short)
    ∙ dictionary_loop-at limits k v es [] rest [] (suc (length text)) h.each h.distinct
        (ground arith) (omega (arith, length-append (dictionary_text ((k, v) ∷ es)) rest)) stop
