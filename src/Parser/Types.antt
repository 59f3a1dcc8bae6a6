-- ===== src/Parser/Types.antt =====
-- pkg/parser/types.go
use http_message_signatures.Common.{
  Bool, true, false, Option, none, List, ◌==◌, Bytes, ℤ, pos, negsuc,
}

-- `ComponentType` is an int: the constants 0 and 1, and any other number.
pub data ComponentType : Type 0 where
  field derived : ComponentType
  unknown : ℤ → ComponentType

-- `BareItemValue`, by its dynamic type; `nil` is the nil interface.
pub data BareItemValue : Type 0 where
  boolean : Bool → BareItemValue
  integer : ℤ → BareItemValue
  string : Bytes → BareItemValue
  token : Bytes → BareItemValue
  byte_sequence : Bytes → BareItemValue
  nil : BareItemValue

pub record Parameter : Type 0 where
  pub key : Bytes
  pub value : BareItemValue

pub record ComponentIdentifier : Type 0 where
  pub name : Bytes
  pub type : ComponentType
  pub parameters : List Parameter

-- A nil pointer is `none`.
pub record SignatureParams : Type 0 where
  pub created : Option ℤ
  pub expires : Option ℤ
  pub nonce : Option Bytes
  pub algorithm : Option Bytes
  pub key_id : Option Bytes
  pub tag : Option Bytes

abbrev pub no_params : SignatureParams
no_params = record {
  created = none;
  expires = none;
  nonce = none;
  algorithm = none;
  key_id = none;
  tag = none;
}

pub record SignatureEntry : Type 0 where
  pub label : Bytes
  pub covered_components : List ComponentIdentifier
  pub signature_params : SignatureParams
  pub signature_value : Bytes

-- The map of `ParsedSignatures`
abbrev pub Signatures : Type 0
Signatures = List (Bytes × SignatureEntry)

-- `==` on integers
abbrev pub same_integer : ℤ → ℤ → Bool
same_integer (pos m) (pos n) = m == n
same_integer (negsuc m) (negsuc n) = m == n
same_integer _ _ = false

-- `a.Type == b.Type`
abbrev pub same_type : ComponentType → ComponentType → Bool
same_type field field = true
same_type derived derived = true
same_type (unknown a) (unknown b) = same_integer a b
same_type _ _ = false
