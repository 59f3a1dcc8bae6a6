-- ===== src/Httpsig/Received/Parameters.antt =====
-- pkg/parser/parser.go: the signature parameters of a header field, and what is written for them.
use http_message_signatures.Common.{
  ◌≡◌, refl, Bool, true, false, Option, none, some, List, [], ◌∷◌, if◌then◌else◌, All, All-append,
  Bytes, codes, ℤ,
}
use http_message_signatures.Errors.{Outcome, ok, ◌>>=◌, >>=-eq-ok, ok_inj}
use http_message_signatures.Sfv.Types as Sfv
use http_message_signatures.Sfv.Types.{Limits, no_limits, Value, Item, InnerList, inner_list, item}
use http_message_signatures.Sfv.Primitives.{is_token_char, is_alpha, is_digit}
use http_message_signatures.Sfv.Reads.Tokens.{IsToken}
use http_message_signatures.Sfv.Reads.Numbers.{IsSfInteger}
use http_message_signatures.Sfv.Reads.Strings.{IsString}
use http_message_signatures.Sfv.Reads.Values.{IsValue}
use http_message_signatures.Sfv.Reads.Items.{IsParameter}
use http_message_signatures.Parser.Types.{SignatureParams, no_params}
use http_message_signatures.Parser.Signatures.{
  extract_int_param, extract_string_param, extract_param, extract_signature_params,
}
use http_message_signatures.Httpsig.Serialize.{appended, signature_params_to_sfv}

-- Each parameter that is present is valid.
Given : {A : Type 0} → (A → Type 0) → Option A → Type 0
Given P none = Unit {0}
Given P (some a) = P a

pub record AreGiven (p : SignatureParams) : Type 0 where
  created : Given IsSfInteger p.created
  expires : Given IsSfInteger p.expires
  nonce : Given (IsString no_limits) p.nonce
  algorithm : Given (IsString no_limits) p.algorithm
  key_id : Given (IsString no_limits) p.key_id
  tag : Given (IsString no_limits) p.tag

extract_int_param-ok :
    (l : Limits) (k : Bytes) (v : Value) (n : ℤ)
    → IsValue l v
    → extract_int_param k v ≡ ok n
    → IsSfInteger n
unfolding extract_int_param
extract_int_param-ok l k (Value.int64 v) n h e = rw (ok_inj e) at h
extract_int_param-ok l k (Value.bool v) n h e = cc
extract_int_param-ok l k (Value.int v) n h e = cc
extract_int_param-ok l k (Value.token v) n h e = cc
extract_int_param-ok l k (Value.string v) n h e = cc
extract_int_param-ok l k (Value.bytes v) n h e = cc
extract_int_param-ok l k Value.nil n h e = cc

extract_string_param-ok :
    (l : Limits) (k : Bytes) (v : Value) (s : Bytes)
    → IsValue l v
    → extract_string_param k v ≡ ok s
    → IsString no_limits s
unfolding extract_string_param
extract_string_param-ok l k (Value.string v) s h e =
    let g : IsString no_limits v = (h.0, refl) in rw (ok_inj e) at g
extract_string_param-ok l k (Value.int64 v) s h e = cc
extract_string_param-ok l k (Value.bool v) s h e = cc
extract_string_param-ok l k (Value.int v) s h e = cc
extract_string_param-ok l k (Value.token v) s h e = cc
extract_string_param-ok l k (Value.bytes v) s h e = cc
extract_string_param-ok l k Value.nil s h e = cc

-- A test whose two branches say as much of what they return
branch :
    {A : Type 0} (P : A → Type 0) (b : Bool) (m n : Outcome A) (a : A)
    → (m ≡ ok a → P a)
    → (n ≡ ok a → P a)
    → (if b then m else n) ≡ ok a
    → P a
branch P true m n a f g h = f h
branch P false m n a f g h = g h

-- One parameter is stored.
stored :
    {A : Type 0} (P : A → Type 0) (m : Outcome A) (put : A → SignatureParams) (q : SignatureParams)
    → ((v : A) → m ≡ ok v → P v)
    → ((v : A) → P v → AreGiven (put v))
    → (do v ← m; ok (put v)) ≡ ok q
    → AreGiven q
stored P m put q f g h = let (v, e, h1) = >>=-eq-ok m _ h in rw (← ok_inj h1) (g v (f v e))

extract_param-AreGiven :
    (l : Limits) (x : Sfv.Parameter) (p q : SignatureParams)
    → IsParameter l x
    → AreGiven p
    → extract_param x p ≡ ok q
    → AreGiven q
unfolding extract_param Given
extract_param-AreGiven l x p q (k, v) g h =
    let int : (n : ℤ) → extract_int_param x.key x.value ≡ ok n → IsSfInteger n =
      λ n e. extract_int_param-ok l x.key x.value n v e in
    let text : (s : Bytes) → extract_string_param x.key x.value ≡ ok s → IsString no_limits s =
      λ s e. extract_string_param-ok l x.key x.value s v e in
    branch AreGiven _ _ _ q
      (stored IsSfInteger _ _ q int (λ n i. record {
        created = i;
        expires = g.expires;
        nonce = g.nonce;
        algorithm = g.algorithm;
        key_id = g.key_id;
        tag = g.tag;
      }))
      (branch AreGiven _ _ _ q
        (stored IsSfInteger _ _ q int (λ n i. record {
          created = g.created;
          expires = i;
          nonce = g.nonce;
          algorithm = g.algorithm;
          key_id = g.key_id;
          tag = g.tag;
        }))
        (branch AreGiven _ _ _ q
          (stored (IsString no_limits) _ _ q text (λ n i. record {
            created = g.created;
            expires = g.expires;
            nonce = i;
            algorithm = g.algorithm;
            key_id = g.key_id;
            tag = g.tag;
          }))
          (branch AreGiven _ _ _ q
            (stored (IsString no_limits) _ _ q text (λ n i. record {
              created = g.created;
              expires = g.expires;
              nonce = g.nonce;
              algorithm = i;
              key_id = g.key_id;
              tag = g.tag;
            }))
            (branch AreGiven _ _ _ q
              (stored (IsString no_limits) _ _ q text (λ n i. record {
                created = g.created;
                expires = g.expires;
                nonce = g.nonce;
                algorithm = g.algorithm;
                key_id = i;
                tag = g.tag;
              }))
              (branch AreGiven _ _ _ q
                (stored (IsString no_limits) _ _ q text (λ n i. record {
                  created = g.created;
                  expires = g.expires;
                  nonce = g.nonce;
                  algorithm = g.algorithm;
                  key_id = g.key_id;
                  tag = i;
                }))
                (λ e. let same : p ≡ q = ok_inj e in rw same at g))))))
      h

pub extract_signature_params-AreGiven :
    (l : Limits) (params : List Sfv.Parameter) (p q : SignatureParams)
    → All (IsParameter l) params
    → AreGiven p
    → extract_signature_params p params ≡ ok q
    → AreGiven q
unfolding extract_signature_params
extract_signature_params-AreGiven l [] p q h g e = rw (ok_inj e) at g
extract_signature_params-AreGiven l (x ∷ params) p q (v, h) g e =
    let (next, e1, e2) = >>=-eq-ok (extract_param x p) _ e in
    extract_signature_params-AreGiven l params next q h (extract_param-AreGiven l x p next v g e1)
      e2

appended-All :
    {A : Type 0} (k : Bytes) (f : A → Value) (P : A → Type 0) (o : Option A)
    → IsToken no_limits k
    → ((a : A) → P a → IsValue no_limits (f a))
    → Given P o
    → All (IsParameter no_limits) (appended k f o)
unfolding Given
appended-All k f P none h g i = tt
appended-All k f P (some a) h g i = ((h, g a i), tt)

pub signature_params_to_sfv-All :
    (p : SignatureParams) → AreGiven p → All (IsParameter no_limits) (signature_params_to_sfv p)
unfolding signature_params_to_sfv is_token_char is_alpha is_digit
signature_params_to_sfv-All p g =
    let Q = IsParameter no_limits in
    let int : (n : ℤ) → IsSfInteger n → IsValue no_limits (Value.int64 n) = λ n h. h in
    let text : (s : Bytes) → IsString no_limits s → IsValue no_limits (Value.string s) = λ s h. h in
    All-append Q _ _
      (appended-All (codes "created") Value.int64 _ p.created (refl, refl) int g.created)
      (All-append Q _ _
        (appended-All (codes "expires") Value.int64 _ p.expires (refl, refl) int g.expires)
        (All-append Q _ _
          (appended-All (codes "nonce") Value.string _ p.nonce (refl, refl) text g.nonce)
          (All-append Q _ _
            (appended-All (codes "alg") Value.string _ p.algorithm (refl, refl) text g.algorithm)
            (All-append Q _ _
              (appended-All (codes "keyid") Value.string _ p.key_id (refl, refl) text g.key_id)
              (appended-All (codes "tag") Value.string _ p.tag (refl, refl) text g.tag)))))

pub no_params-AreGiven : AreGiven no_params
unfolding Given
no_params-AreGiven = record {
  created = tt;
  expires = tt;
  nonce = tt;
  algorithm = tt;
  key_id = tt;
  tag = tt;
}
