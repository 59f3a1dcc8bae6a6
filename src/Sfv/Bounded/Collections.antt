-- ===== src/Sfv/Bounded/Collections.antt =====
-- pkg/sfv: inner lists, lists and dictionaries, and the limits.
use http_message_signatures.Common.{
  ℕ, zero, suc, ◌<◌, not, ◌||◌, List, [], ◌∷◌, ◌++◌, arith, ◌==◌, length, All,
}
use http_message_signatures.Sfv.Types.{
  Limits, exceeds, is_full, Item, Member, Dictionary, item, inner_list,
}
use http_message_signatures.Sfv.Lexer.{
  Parser, input, Message, peek, is_eof, advance, consume, is_ows, skip_ows, check_input_length,
  trailing_comma_in_list, trailing_comma_in_dictionary,
}
use http_message_signatures.Sfv.Primitives.{parse_token}
use http_message_signatures.Sfv.Collections.{
  parse_parameters, parse_item, inner_list_loop, close_inner_list, parse_inner_list, parse_value,
  member_value, parse_dictionary_member, store, separator, dictionary_loop, empty_dictionary,
  parse_dictionary, list_loop, parse_list,
}
use http_message_signatures.Sfv.Bounded.{Fits, Within, Ensures, gives, fails, weaken, bind, branch}
use http_message_signatures.Sfv.Bounded.Scans.{
  advance-Within_weak, skip_while-Within, consume-Within, consume-matched, is_nil-rest,
}
use http_message_signatures.Sfv.Bounded.Primitives.{Anything, parse_token-Ensures}
use http_message_signatures.Sfv.Bounded.Items.{
  AreItems, Fits-append, pure-Ensures, parse_parameters-Ensures, parse_item-Ensures,
  inner_list_loop-Ensures,
}
use http_message_signatures.Sfv.Bounded.Stored.{IsParsed, store-IsParsed, empty-IsParsed}
use http_message_signatures.Sfv.Reads.Tokens.{IsToken}
use http_message_signatures.Sfv.Reads.Items.{IsParameters}
use http_message_signatures.Sfv.Reads.Members.{IsInnerList, IsMember}

-- Members of a list, within the limit of dictionaries
abbrev pub AreMembers : Limits → List Member → Type 0
AreMembers l xs = All (IsMember l) xs × Fits l.max_dictionary_members (length xs)

module _ (l : Limits) where
  close_inner_list-Ensures :
      (xs : List Item) (p : Parser) (n : ℕ)
      → Within l n p
      → AreItems l xs
      → Ensures (IsInnerList l) l n (close_inner_list xs p)
  unfolding close_inner_list
  close_inner_list-Ensures xs p n w h =
      let q = (consume b')' p).1 in
      let v = consume-Within b')' p l n w in
      branch (not (consume b')' p).0) (λ _. fails)
        (λ _.
          pure-Ensures l (IsParameters l) _ parse_parameters
            (λ ps. record { items = xs; parameters = ps }) q n (parse_parameters-Ensures l q n v)
            (λ _ i. (h.0, h.1, i)))

  parse_inner_list-Ensures :
      (p : Parser) (n : ℕ) → Within l (suc n) p → Ensures (IsInnerList l) l n (parse_inner_list p)
  unfolding parse_inner_list
  parse_inner_list-Ensures p n w =
      let q = (consume b'(' p).1 in
      branch (not (consume b'(' p).0) (λ _. fails)
        (λ h.
          let v = consume-matched b'(' p l n w (ground arith) in
          bind (inner_list_loop (suc (length q.rest)) []) close_inner_list q
            (weaken v.1 (
              inner_list_loop-Ensures l (suc (length q.rest)) (length q.rest) [] q (omega arith)
                (v.0, omega arith) (tt, ground arith)))
            (λ xs r i u. close_inner_list-Ensures xs r n u i))

  parse_value-Ensures :
      (p : Parser) (n : ℕ) → Within l (suc n) p → Ensures (IsMember l) l n (parse_value p)
  unfolding parse_value
  parse_value-Ensures p n w =
      branch (peek p == b'(')
        (λ _.
          pure-Ensures l _ (IsMember l) parse_inner_list inner_list p n
            (parse_inner_list-Ensures p n w) (λ _ h. h))
        (λ _.
          pure-Ensures l _ (IsMember l) parse_item item p n (parse_item-Ensures l p n w) (λ _ h. h))

  member_value-Ensures :
      (p : Parser) (n : ℕ) → Within l n p → Ensures (IsMember l) l n (member_value p)
  unfolding member_value
  member_value-Ensures p n w =
      let v = advance-Within_weak p l n w in
      branch (peek p == b' ' || peek p == b'\t') (λ _. fails)
        (λ _.
          branch (not (peek p == b'=')) (λ _. gives (tt, (tt, ground arith)) w)
            (λ _. parse_value-Ensures (advance p) n (v.0, omega (arith, v.1))))

  parse_dictionary_member-Ensures :
      (p : Parser) (n : ℕ)
      → Within l (suc n) p
      → Ensures (λ e. IsToken l e.0 × IsMember l e.1) l n (parse_dictionary_member p)
  unfolding parse_dictionary_member
  parse_dictionary_member-Ensures p n w =
      bind parse_token _ p (parse_token-Ensures l p n w) (λ k q h v.
        pure-Ensures l (IsMember l) (λ e. IsToken l e.0 × IsMember l e.1) member_value (λ x. (k, x))
          q n (member_value-Ensures q n v) (λ _ i. (h, i)))

  separator-Ensures :
      (m : Message) (p : Parser) (n : ℕ) → Within l n p → Ensures Anything l n (separator m p)
  unfolding separator
  separator-Ensures m p n w =
      let q = skip_ows p in
      let v = skip_while-Within is_ows p l n w in
      let u = skip_while-Within is_ows (advance q) l n (advance-Within_weak q l n v) in
      branch (peek q == b',')
        (λ _. branch (is_eof (skip_ows (advance q))) (λ _. fails) (λ _. gives tt u))
        (λ _. gives tt v)

  dictionary_loop-Ensures :
      (f n : ℕ) (d : Dictionary) (p : Parser)
      → n < f
      → Within l n p
      → IsParsed l d
      → Ensures (IsParsed l) l n (dictionary_loop f d p)
  unfolding dictionary_loop
  dictionary_loop-Ensures zero n d p h w k = let x : ⊥ = omega (arith, h) in elim x [ ]
  dictionary_loop-Ensures (suc f) zero d p h w k =
      branch (is_eof p) (λ _. gives k w)
        (λ i. let x : ⊥ = (let j = is_nil-rest p.rest i in omega (arith, w.1)) in elim x [ ])
  dictionary_loop-Ensures (suc f) (suc n) d p h w k =
      branch (is_eof p) (λ _. gives k w)
        (λ _.
          branch (is_full p.limits.max_dictionary_members (length d.keys)) (λ _. fails)
            (λ j.
              bind parse_dictionary_member _ p (parse_dictionary_member-Ensures p n w) (λ e q i v.
                bind (separator trailing_comma_in_dictionary) _ q
                  (separator-Ensures trailing_comma_in_dictionary q n v)
                  (λ again r _ u.
                    let s = store-IsParsed l e.0 e.1 d (rw (← w.0) j) i k in
                    branch again
                      (λ _.
                        weaken (omega arith)
                          (dictionary_loop-Ensures f n (store e.0 e.1 d) r (omega (arith, h)) u s))
                      (λ _. weaken (omega arith) (gives s u))))))

  check_input_length-Ensures :
      (p : Parser) (n : ℕ) → Within l n p → Ensures Anything l n (check_input_length p)
  unfolding check_input_length
  check_input_length-Ensures p n w =
      branch (exceeds p.limits.max_input_length (length (input p))) (λ _. fails) (λ _. gives tt w)

  pub parse_dictionary-Ensures :
      (p : Parser) (n : ℕ) → Within l n p → Ensures (IsParsed l) l n (parse_dictionary p)
  unfolding parse_dictionary
  parse_dictionary-Ensures p n w =
      bind check_input_length _ p (check_input_length-Ensures p n w) (λ _ q _ v. weaken v.1 (
        dictionary_loop-Ensures (suc (length q.rest)) (length q.rest) empty_dictionary q
          (omega arith) (v.0, omega arith) (empty-IsParsed l)))

  list_loop-Ensures :
      (f n : ℕ) (xs : List Member) (p : Parser)
      → n < f
      → Within l n p
      → AreMembers l xs
      → Ensures (AreMembers l) l n (list_loop f xs p)
  unfolding list_loop
  list_loop-Ensures zero n xs p h w k = let x : ⊥ = omega (arith, h) in elim x [ ]
  list_loop-Ensures (suc f) zero xs p h w k =
      branch (is_eof p) (λ _. gives k w)
        (λ i. let x : ⊥ = (let j = is_nil-rest p.rest i in omega (arith, w.1)) in elim x [ ])
  list_loop-Ensures (suc f) (suc n) xs p h w k =
      branch (is_eof p) (λ _. gives k w)
        (λ _.
          branch (is_full p.limits.max_dictionary_members (length xs)) (λ _. fails)
            (λ j. bind parse_value _ p (parse_value-Ensures p n w) (λ x q i v.
              bind (separator trailing_comma_in_list) _ q
                (separator-Ensures trailing_comma_in_list q n v)
                (λ again r _ u.
                  let s =
                    Fits-append (IsMember l) l.max_dictionary_members xs x (rw (← w.0) j) k.0 i in
                  branch again
                    (λ _.
                      weaken (omega arith)
                        (list_loop-Ensures f n (xs ++ x ∷ []) r (omega (arith, h)) u s))
                    (λ _. weaken (omega arith) (gives s u))))))

  pub parse_list-Ensures :
      (p : Parser) (n : ℕ) → Within l n p → Ensures (λ x. AreMembers l x.members) l n (parse_list p)
  unfolding parse_list
  parse_list-Ensures p n w =
      bind check_input_length _ p (check_input_length-Ensures p n w) (λ _ q _ v.
        pure-Ensures l (AreMembers l) _ (λ r. list_loop (suc (length r.rest)) [] r)
          (λ xs. record { members = xs }) q n
          (weaken v.1 (
            list_loop-Ensures (suc (length q.rest)) (length q.rest) [] q (omega arith)
              (v.0, omega arith) (tt, ground arith)))
          (λ _ h. h))
