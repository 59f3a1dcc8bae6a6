-- ===== src/Sfv/Bounded/Items.antt =====
-- pkg/sfv: the values, parameters and items that the parser returns.
use http_message_signatures.Common.{
  ℕ, zero, suc, ◌<◌, ◌≡◌, false, ◌||◌, List, [], ◌∷◌, ◌++◌, arith, ◌==◌, length, length-append, All,
  All-append,
}
use http_message_signatures.Sfv.Types.{
  Limits, is_full, Parameter, Item, bool, int64, token, string, bytes,
}
use http_message_signatures.Sfv.Lexer.{Parser, Parse, ◌>>=◌, pure, peek, is_eof, advance, skip_sp}
use http_message_signatures.Sfv.Primitives.{
  is_alpha, is_digit, parse_boolean, parse_integer, parse_string, parse_token, parse_byte_sequence,
}
use http_message_signatures.Sfv.Collections.{
  parse_bare_item, parameter_value, parse_parameter, parameters_loop, parse_parameters, parse_item,
  inner_list_loop,
}
use http_message_signatures.Sfv.Bounded.{
  Fits, Fits-suc, Within, Ensures, gives, fails, weaken, bind, branch,
}
use http_message_signatures.Sfv.Bounded.Scans.{
  advance-Within, advance-Within_weak, skip_while-Within, is_nil-rest, peek-rest,
}
use http_message_signatures.Sfv.Bounded.Primitives.{
  parse_boolean-Ensures, parse_integer-Ensures, parse_token-Ensures, parse_byte_sequence-Ensures,
}
use http_message_signatures.Sfv.Bounded.Strings.{parse_string-Ensures}
use http_message_signatures.Sfv.Reads.Values.{IsValue}
use http_message_signatures.Sfv.Reads.Items.{IsParameter, IsParameters, IsItem}

-- Items of an inner list, within its limit
abbrev pub AreItems : Limits → List Item → Type 0
AreItems l xs = All (IsItem l) xs × Fits l.max_inner_list_members (length xs)

-- One more member, which the limit had room for
pub Fits-append :
    {A : Type 0} (P : A → Type 0) (limit : ℕ) (xs : List A) (x : A)
    → is_full limit (length xs) ≡ false
    → All P xs
    → P x
    → All P (xs ++ x ∷ []) × Fits limit (length (xs ++ x ∷ []))
Fits-append P limit xs x h k p =
    let e : length (xs ++ x ∷ []) ≡ suc (length xs) = omega (arith, length-append xs (x ∷ [])) in
    (All-append P xs (x ∷ []) k (p, tt), rw e (Fits-suc limit (length xs) h))

module _ (l : Limits) where
  -- A value under its constructor
  pub pure-Ensures :
      {A B : Type 0} (P : A → Type 0) (Q : B → Type 0) (m : Parse A) (f : A → B) (p : Parser)
      (n : ℕ)
      → Ensures P l n (m p)
      → ((a : A) → P a → Q (f a))
      → Ensures Q l n ((m >>= λ a. pure (f a)) p)
  pure-Ensures P Q m f p n h k = bind m (λ a. pure (f a)) p h (λ a q x w. gives (k a x) w)

  pub parse_bare_item-Ensures :
      (p : Parser) (n : ℕ) → Within l (suc n) p → Ensures (IsValue l) l n (parse_bare_item p)
  unfolding parse_bare_item
  parse_bare_item-Ensures p n w =
      branch (is_eof p) (λ _. fails)
        (λ _.
          branch (peek p == b'?')
            (λ _.
              pure-Ensures _ _ parse_boolean bool p n (parse_boolean-Ensures l p n w) (λ _ _. tt))
            (λ _.
              branch (peek p == b'-' || is_digit (peek p))
                (λ _.
                  pure-Ensures _ _ parse_integer int64 p n (parse_integer-Ensures l p n w)
                    (λ _ h. h))
                (λ _.
                  branch (peek p == b'"')
                    (λ _.
                      pure-Ensures _ _ parse_string string p n (parse_string-Ensures l p n w)
                        (λ _ h. h))
                    (λ _.
                      branch (peek p == b':')
                        (λ _.
                          pure-Ensures _ _ parse_byte_sequence bytes p n
                            (parse_byte_sequence-Ensures l p n w) (λ _ h. h))
                        (λ _.
                          branch (peek p == b'*' || is_alpha (peek p))
                            (λ _.
                              pure-Ensures _ _ parse_token token p n (parse_token-Ensures l p n w)
                                (λ _ h. h))
                            (λ _. fails))))))

  parameter_value-Ensures :
      (p : Parser) (n : ℕ) → Within l n p → Ensures (IsValue l) l n (parameter_value p)
  unfolding parameter_value
  parameter_value-Ensures p n w =
      branch (peek p == b'=')
        (λ _.
          parse_bare_item-Ensures (advance p) n
            (let v = advance-Within_weak p l n w in (v.0, omega (arith, v.1))))
        (λ _. gives tt w)

  parse_parameter-Ensures :
      (p : Parser) (n : ℕ) → Within l (suc n) p → Ensures (IsParameter l) l n (parse_parameter p)
  unfolding parse_parameter
  parse_parameter-Ensures p n w = bind parse_token _ p (parse_token-Ensures l p n w) (λ k q h v.
      pure-Ensures _ _ parameter_value (λ x. record { key = k; value = x }) q n
        (parameter_value-Ensures q n v) (λ _ i. (h, i)))

  parameters_loop-Ensures :
      (f n : ℕ) (xs : List Parameter) (p : Parser)
      → n < f
      → Within l n p
      → IsParameters l xs
      → Ensures (IsParameters l) l n (parameters_loop f xs p)
  unfolding parameters_loop
  parameters_loop-Ensures zero n xs p h w k = let x : ⊥ = omega (arith, h) in elim x [ ]
  parameters_loop-Ensures (suc f) zero xs p h w k =
      branch (peek p == b';')
        (λ i.
          let x : ⊥ = (let j = peek-rest b';' p.rest (omega arith) i in omega (arith, w.1)) in
          elim x [ ])
        (λ _. gives k w)
  parameters_loop-Ensures (suc f) (suc n) xs p h w k =
      branch (peek p == b';')
        (λ i.
          branch (is_full p.limits.max_parameters (length xs)) (λ _. fails)
            (λ j.
              let v = advance-Within p l n w in
              bind parse_parameter (λ x. parameters_loop f (xs ++ x ∷ [])) (advance p)
                (parse_parameter-Ensures (advance p) n (v.0, omega (arith, v.1)))
                (λ x q y u. weaken (omega arith) (
                  parameters_loop-Ensures f n (xs ++ x ∷ []) q (omega (arith, h)) u
                    (Fits-append (IsParameter l) l.max_parameters xs x (rw (← w.0) j) k.0 y)))))
        (λ _. gives k w)

  pub parse_parameters-Ensures :
      (p : Parser) (n : ℕ) → Within l n p → Ensures (IsParameters l) l n (parse_parameters p)
  unfolding parse_parameters
  parse_parameters-Ensures p n w = weaken w.1 (
      parameters_loop-Ensures (suc (length p.rest)) (length p.rest) [] p (omega arith)
        (w.0, omega arith) (tt, ground arith))

  pub parse_item-Ensures :
      (p : Parser) (n : ℕ) → Within l (suc n) p → Ensures (IsItem l) l n (parse_item p)
  unfolding parse_item
  parse_item-Ensures p n w = bind parse_bare_item _ p (parse_bare_item-Ensures p n w) (λ v q h u.
      pure-Ensures (IsParameters l) (IsItem l) parse_parameters
        (λ ps. record { value = v; parameters = ps }) q n (parse_parameters-Ensures q n u)
        (λ _ i. (h, i)))

  -- No item begins at the end of the input.
  parse_item-eof : (p : Parser) → Within l 0 p → Ensures (λ _. ⊥) l 0 (parse_item p)
  unfolding parse_item parse_bare_item
  parse_item-eof p w =
      bind {k = 0} parse_bare_item _ p
        (branch {P = λ _. ⊥} (is_eof p) (λ _. fails)
          (λ i. let x : ⊥ = (let j = is_nil-rest p.rest i in omega (arith, w.1)) in elim x [ ]))
        (λ v q h u. elim h [ ])

  pub inner_list_loop-Ensures :
      (f n : ℕ) (xs : List Item) (p : Parser)
      → n < f
      → Within l n p
      → AreItems l xs
      → Ensures (AreItems l) l n (inner_list_loop f xs p)
  unfolding inner_list_loop
  inner_list_loop-Ensures zero n xs p h w k = let x : ⊥ = omega (arith, h) in elim x [ ]
  inner_list_loop-Ensures (suc f) zero xs p h w k =
      let q = skip_sp p in
      let v = skip_while-Within (λ c. c == b' ') p l 0 w in
      branch (peek q == b')') (λ _. gives k v)
        (λ _.
          branch (is_full q.limits.max_inner_list_members (length xs)) (λ _. fails)
            (λ j.
              bind parse_item (λ x. inner_list_loop f (xs ++ x ∷ [])) q (parse_item-eof q v)
                (λ _ _ x _. elim x [ ])))
  inner_list_loop-Ensures (suc f) (suc n) xs p h w k =
      let q = skip_sp p in
      let v = skip_while-Within (λ c. c == b' ') p l (suc n) w in
      branch (peek q == b')') (λ _. gives k v)
        (λ _.
          branch (is_full q.limits.max_inner_list_members (length xs)) (λ _. fails)
            (λ j.
              bind parse_item (λ x. inner_list_loop f (xs ++ x ∷ [])) q (parse_item-Ensures q n v)
                (λ x q y u. weaken (omega arith) (
                  inner_list_loop-Ensures f n (xs ++ x ∷ []) q (omega (arith, h)) u
                    (Fits-append (IsItem l) l.max_inner_list_members xs x (rw (← v.0) j) k.0 y)))))
