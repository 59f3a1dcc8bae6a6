-- ===== src/Sfv/Types.antt =====
-- The data of pkg/sfv: limits.go, and the types of parameters.go, innerlist.go and dictionary.go.
use http_message_signatures.Common.{ℕ, Bool, ◌&&◌, List, ltb, leb, Bytes, ℤ}

-- `Limits` (limits.go). A number that is not positive switches a limit off; 0 stands for those.
pub record Limits : Type 0 where
  pub max_input_length : ℕ
  pub max_string_length : ℕ
  pub max_byte_sequence_length : ℕ
  pub max_dictionary_members : ℕ
  pub max_inner_list_members : ℕ
  pub max_parameters : ℕ
  pub max_token_length : ℕ

-- `DefaultLimits`
abbrev pub default_limits : Limits
default_limits = record {
  max_input_length = 65536;
  max_string_length = 8192;
  max_byte_sequence_length = 16384;
  max_dictionary_members = 128;
  max_inner_list_members = 128;
  max_parameters = 64;
  max_token_length = 256;
}

-- `NoLimits`
abbrev pub no_limits : Limits
no_limits = record {
  max_input_length = 0;
  max_string_length = 0;
  max_byte_sequence_length = 0;
  max_dictionary_members = 0;
  max_inner_list_members = 0;
  max_parameters = 0;
  max_token_length = 0;
}

-- `limit > 0 && n > limit`, the test before each "exceeds limit" error.
abbrev pub exceeds : ℕ → ℕ → Bool
exceeds limit n = ltb 0 limit && ltb limit n

-- `limit > 0 && n >= limit`, the test before one more member is parsed.
abbrev pub is_full : ℕ → ℕ → Bool
is_full limit n = ltb 0 limit && leb limit n

-- The `any` in an item's or a parameter's value, by its dynamic type: the types that the program
-- puts there, and nil.
pub data Value : Type 0 where
  bool : Bool → Value
  int64 : ℤ → Value
  int : ℤ → Value
  token : Bytes → Value
  string : Bytes → Value
  bytes : Bytes → Value
  nil : Value

pub record Parameter : Type 0 where
  pub key : Bytes
  pub value : Value

pub record Item : Type 0 where
  pub value : Value
  pub parameters : List Parameter

pub record InnerList : Type 0 where
  pub items : List Item
  pub parameters : List Parameter

-- The `any` in a list's or a dictionary's members, by its dynamic type.
pub data Member : Type 0 where
  item : Item → Member
  inner_list : InnerList → Member
  nil : Member

-- `List` (dictionary.go)
pub record MemberList : Type 0 where
  pub members : List Member

-- Keys in the order of insertion, and the map from keys to members.
pub record Dictionary : Type 0 where
  pub keys : List Bytes
  pub values : List (Bytes × Member)
