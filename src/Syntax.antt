-- ===== src/Syntax.antt =====
-- The assembly format of the dialect (mlir/Dialect.cpp, parse and print of the type info attributes,
-- checks and operators), over the tokens that MLIR's lexer gives and its printer writes.
use text.Mathlib.Text.{◌==◌ as str_eq}
use Prim.Native.String.{String}
use lalvm.Base.{
  ℕ, Bool, true, false, not, Option, none, some, List, [], ◌∷◌, ◌++◌, ◌&&◌, ◌||◌, if◌then◌else◌,
}
use lalvm.Base.Int.{ℤ, pos, negsuc}
use lalvm.Llvm.{ApInt, ApIntLib, signed_of}
use lalvm.Dialect.Types.{
  MachineType, Bound, absent, dynamic, static, is_recorded, integer_attr, IntegerTypeInfo,
  has_range, static_lower, static_upper,
}
pub mod Lists
pub mod RoundTrip
pub mod Enums
pub mod Arrays
pub mod Operators

pub data Token : Type 0 where
  less greater equal comma question bar left_square right_square : Token
  keyword : String → Token
  number : ℤ → Token
  quoted : String → Token
  symbol : String → Token
  type_token : MachineType → Token

-- A parse result, and the tokens that are left; `none` is a failure.
abbrev pub Parse {ℓ} : Type ℓ → Type ℓ
Parse A = Option (A × List Token)

abbrev pub parse_then {ℓ κ} :
    {A : Type ℓ} {B : Type κ} → Parse A → (A → List Token → Parse B) → Parse B
parse_then (some (a, rest)) f = f a rest
parse_then none f = none

-- parseKeyword.
abbrev pub parse_keyword {ℓ} : {A : Type ℓ} → String → List Token → (List Token → Parse A) → Parse A
parse_keyword word (keyword k ∷ rest) f = if str_eq k word then f rest else none
parse_keyword word tokens f = none

abbrev pub parse_greater {ℓ} : {A : Type ℓ} → A → List Token → Parse A
parse_greater a (greater ∷ rest) = some (a, rest)
parse_greater a tokens = none

-- minimalWidthIntAttr.
unfoldable pub minimal_width_int_attr : ApIntLib → ApInt → ApInt
minimal_width_int_attr l value = l.sext_or_trunc value (l.significant_bits value)

-- printRangeBounds.
abbrev pub print_bound : Option ApInt → Token
print_bound (some a) = number (signed_of a)
print_bound none = question

unfoldable pub print_range_bounds : Option ApInt → Option ApInt → List Token → List Token
print_range_bounds lower upper rest =
    keyword "range" ∷ print_bound lower ∷ keyword "to" ∷ print_bound upper ∷ rest

-- IntegerTypeInfoAttr::print, before the tokens that follow.
abbrev pub print_int_range : ApIntLib → IntegerTypeInfo → List Token → List Token
print_int_range l info rest =
    if has_range info
    then print_range_bounds (static_lower info) (static_upper l info) rest
    else rest

abbrev pub range_separator : IntegerTypeInfo → List Token → List Token
range_separator info rest = if has_range info then comma ∷ rest else rest

unfoldable pub print_integer_info : ApIntLib → IntegerTypeInfo → List Token → List Token
print_integer_info l info rest = elim info.modulus [
  | some m ↦
      less
      ∷ keyword "mod"
      ∷ number (pos m.bits)
      ∷ range_separator info (print_int_range l info (greater ∷ rest))
  | none ↦ if has_range info then less ∷ print_int_range l info (greater ∷ rest) else rest
]

module _ (l : ApIntLib) (read_integer : ℤ → ApInt) where
  -- parseRangeBounds: one bound, and both. `read_integer` is the integer that the parser reads.
  unfoldable pub parse_bound : List Token → Parse Bound
  parse_bound (question ∷ rest) = some (dynamic, rest)
  parse_bound (number n ∷ rest) = some (static (minimal_width_int_attr l (read_integer n)), rest)
  parse_bound tokens = none

  unfoldable pub parse_range_bounds : List Token → Parse (Bound × Bound)
  parse_range_bounds tokens = parse_then (parse_bound tokens) λ lower rest.
      parse_keyword "to" rest
        λ after. parse_then (parse_bound after) λ upper last. some ((lower, upper), last)

  -- IntegerTypeInfoAttr::parse: the range, and what closes the attribute.
  unfoldable pub parse_int_range : Option ApInt → List Token → Parse IntegerTypeInfo
  parse_int_range modulus tokens = parse_keyword "range" tokens λ rest.
      parse_then (parse_range_bounds rest) λ bounds after.
        parse_greater (record { modulus = modulus; lower = bounds.0; upper = bounds.1 }) after

  abbrev pub modulus_info : Option ApInt → IntegerTypeInfo
  modulus_info modulus = record { modulus = modulus; lower = absent; upper = absent }

  abbrev pub after_modulus : ApInt → List Token → Parse IntegerTypeInfo
  after_modulus modulus (comma ∷ rest) = parse_int_range (some modulus) rest
  after_modulus modulus tokens = parse_greater (modulus_info (some modulus)) tokens

  abbrev pub parse_modulus : List Token → Parse IntegerTypeInfo
  parse_modulus (number n ∷ rest) = after_modulus (minimal_width_int_attr l (read_integer n)) rest
  parse_modulus tokens = none

  abbrev pub after_less : List Token → Parse IntegerTypeInfo
  after_less (keyword k ∷ rest) =
      if str_eq k "mod" then parse_modulus rest else parse_int_range none (keyword k ∷ rest)
  after_less tokens = parse_int_range none tokens

  unfoldable pub parse_integer_info : List Token → Parse IntegerTypeInfo
  parse_integer_info (less ∷ rest) = after_less rest
  parse_integer_info tokens = some (modulus_info none, tokens)
