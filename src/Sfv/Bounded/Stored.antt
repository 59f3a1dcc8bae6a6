-- ===== src/Sfv/Bounded/Stored.antt =====
-- pkg/sfv/dictionary.go: a dictionary whose members are stored one by one.
use http_message_signatures.Common.{
  ℕ, suc, ◌≡◌, refl, sym, ap, ◌∙◌, inl, inr, false, none, some, List, [], ◌∷◌, ◌++◌, arith,
  Bool-cases, Option-cases, length, length-append, All, Bytes, equal, equal_iff, lookup, insert,
  none-some,
}
use http_message_signatures.Sfv.Types.{Limits, is_full, Member, Dictionary}
use http_message_signatures.Sfv.Collections.{store, empty_dictionary}
use http_message_signatures.Sfv.Reads.Dictionaries.{
  Entries, keys_of, dictionary_of, AreNew, IsEntry,
}
use http_message_signatures.Sfv.Reads.Dictionaries.RoundTrip.{IsDictionary, length-keys_of}
use http_message_signatures.Sfv.Bounded.{Fits, Fits-suc}

-- The dictionary of entries that the serializer writes and the parser reads
pub record IsParsed (l : Limits) (d : Dictionary) : Type 0 where
  pub entries : Entries
  pub same : d ≡ dictionary_of entries
  pub valid : IsDictionary l entries

All-insert :
    {V : Type 0} (P : Bytes × V → Type 0) (k : Bytes) (v : V) (m : List (Bytes × V))
    → P (k, v)
    → All P m
    → All P (insert k v m)
unfolding insert
All-insert P k v [] h tt = (h, tt)
All-insert P k v ((j, w) ∷ m) h (i, t) = elim (Bool-cases (equal j k)) [
  | inl e ↦ rw e (h, t)
  | inr e ↦ rw e (i, All-insert P k v m h t)
]

keys_of-insert_new :
    (k : Bytes) (v : Member) (es : Entries)
    → lookup k es ≡ none
    → keys_of (insert k v es) ≡ keys_of es ++ k ∷ []
unfolding keys_of insert lookup
keys_of-insert_new k v [] h = refl
keys_of-insert_new k v ((j, w) ∷ es) h = elim (Bool-cases (equal j k)) [
  | inl e ↦ none-some (sym (rw e at h))
  | inr e ↦ rw e (ap (◌∷◌ j) (keys_of-insert_new k v es (rw e at h)))
]

keys_of-insert_old :
    (k : Bytes) (v u : Member) (es : Entries)
    → lookup k es ≡ some u
    → keys_of (insert k v es) ≡ keys_of es
unfolding keys_of insert lookup
keys_of-insert_old k v u [] h = none-some h
keys_of-insert_old k v u ((j, w) ∷ es) h = elim (Bool-cases (equal j k)) [
  | inl e ↦ let i = (equal_iff j k).0 e in rw (e, i) refl
  | inr e ↦ rw e (ap (◌∷◌ j) (keys_of-insert_old k v u es (rw e at h)))
]

pub store-dictionary_of :
    (k : Bytes) (v : Member) (es : Entries)
    → store k v (dictionary_of es) ≡ dictionary_of (insert k v es)
unfolding store
store-dictionary_of k v es = elim (Option-cases (lookup k es)) [
  | inl e ↦ rw (e, keys_of-insert_new k v es e) refl
  | inr (u, e) ↦ rw (e, keys_of-insert_old k v u es e) refl
]

-- A key is absent behind one more entry just if it was absent and is another.
lookup-behind :
    (i j : Bytes) (w : Member) (before : Entries)
    → lookup i (before ++ (j, w) ∷ []) ≡ none
    → (lookup i before ≡ none) × (equal j i ≡ false)
unfolding lookup
lookup-behind i j w [] h = ground arith
lookup-behind i j w ((k, v) ∷ before) h = ground (arith, lookup-behind i j w before)

pub lookup-fresh :
    (i j : Bytes) (w : Member) (before : Entries)
    → lookup i before ≡ none
    → equal j i ≡ false
    → lookup i (before ++ (j, w) ∷ []) ≡ none
unfolding lookup
lookup-fresh i j w [] h e = rw e refl
lookup-fresh i j w ((k, v) ∷ before) h e = ground (arith, lookup-fresh i j w before)

-- What counts of the entries before is which keys they lack.
AreNew-mono :
    (before other es : Entries)
    → ((i : Bytes) → lookup i before ≡ none → lookup i other ≡ none)
    → AreNew before es
    → AreNew other es
AreNew-mono before other [] f h = tt
AreNew-mono before other ((j, w) ∷ es) f (h, hs) = (
  f j h,
  AreNew-mono (before ++ (j, w) ∷ []) (other ++ (j, w) ∷ []) es
      (λ i e. let (a, b) = lookup-behind i j w before e in lookup-fresh i j w other (f i a) b) hs,
)

AreNew-insert :
    (k : Bytes) (v : Member) (before es : Entries)
    → lookup k before ≡ none
    → AreNew before es
    → AreNew before (insert k v es)
unfolding insert
AreNew-insert k v before [] n h = (n, tt)
AreNew-insert k v before ((j, w) ∷ es) n (h, hs) = elim (Bool-cases (equal j k)) [
  | inl e ↦
      let same = (equal_iff j k).0 e in
      rw e (
        n,
        AreNew-mono (before ++ (j, w) ∷ []) (before ++ (k, v) ∷ []) es
            (λ i g.
              let (a, b) = lookup-behind i j w before g in
              lookup-fresh i k v before a (rw same at b))
            hs,
      )
  | inr e ↦
      rw e (h, AreNew-insert k v (before ++ (j, w) ∷ []) es (lookup-fresh k j w before n e) hs)
]

few-insert :
    (limit : ℕ) (k : Bytes) (v : Member) (es : Entries)
    → is_full limit (length (keys_of es)) ≡ false
    → Fits limit (length es)
    → Fits limit (length (insert k v es))
few-insert limit k v es h f = elim (Option-cases (lookup k es)) [
  | inl e ↦
      let a = ap length (keys_of-insert_new k v es e) in
      let b = length-append (keys_of es) (k ∷ []) in
      let n : length (insert k v es) ≡ suc (length (keys_of es)) =
        omega (arith, length-keys_of (insert k v es)) in
      rw n (Fits-suc limit (length (keys_of es)) h)
  | inr (u, e) ↦
      let a = ap length (keys_of-insert_old k v u es e) in
      let n : length (insert k v es) ≡ length es =
        omega (arith, length-keys_of (insert k v es), length-keys_of es) in
      rw n f
]

pub store-IsParsed :
    (l : Limits) (k : Bytes) (v : Member) (d : Dictionary)
    → is_full l.max_dictionary_members (length d.keys) ≡ false
    → IsEntry l (k, v)
    → IsParsed l d
    → IsParsed l (store k v d)
store-IsParsed l k v d h i x =
    let full = rw x.same at h in
    record {
      entries = insert k v x.entries;
      same = ap (store k v) x.same ∙ store-dictionary_of k v x.entries;
      valid = record {
        each = All-insert (IsEntry l) k v x.entries i x.valid.each;
        distinct = unfold lookup in AreNew-insert k v [] x.entries refl x.valid.distinct;
        few = few-insert l.max_dictionary_members k v x.entries full x.valid.few;
      };
    }

pub empty-IsParsed : (l : Limits) → IsParsed l empty_dictionary
unfolding keys_of
empty-IsParsed l = record {
  entries = [];
  same = refl;
  valid = record { each = tt; distinct = tt; few = ground arith };
}
