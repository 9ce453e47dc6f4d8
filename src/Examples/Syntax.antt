-- ===== src/Examples/Syntax.antt =====
-- The theorems on the assembly format, with a parser of comma-separated lists.

use lalvm.Base.{
  ℕ, zero, suc, ◌≤◌, ◌<◌, ◌≡◌, refl, ap, arith, true, false, none, some, inl, inr, List, [], ◌∷◌,
}
use lalvm.Base.Int.{ℤ, pos, negsuc}
use lalvm.Base.Lists.{All, length, any}
use lalvm.Base.Words.{encode, signed, fits_signed, encode-lt, signed-encode}
use lalvm.Llvm.{ApInt, IsApInt}
use lalvm.Llvm.Instance.{llvm_ap_int, llvm_ap_int-IsApIntLib, le-pow}
use lalvm.Dialect.Types.{dynamic, static, IntegerTypeInfo}
use lalvm.LowerToLlvm.Operators.{BinaryOp, UnaryOp, RelationalOp}
use lalvm.Syntax.{Token, comma, Parse, parse_integer_info, print_integer_info}
use lalvm.Syntax.Lists.{CommaList, IsCommaList, IsReadBack, IsPrinter, separated, starts_with_comma}
use lalvm.Syntax.RoundTrip.{IsReader, IsMinimal, parse_integer_info-print_integer_info}
use lalvm.Syntax.Enums.{
  declared_enum, parse_enum_info, print_enum_info, parse_enum_info-print_enum_info,
}
use lalvm.Syntax.Arrays.{
  Dim, array_of, verify_array_info, parse_array_info, print_array_info,
  parse_array_info-print_array_info,
}
use lalvm.Syntax.Operators.{
  parse_operator_kind, print_operator, binary_spelling, symbolize_binary, unary_spelling,
  symbolize_unary, relational_spelling, symbolize_relational, parse_operator_kind-print_operator,
  parse_checks, print_checks, parse_checks-print_checks,
}
use lalvm.Examples.{word}

next_tokens : List Token → List Token
next_tokens [] = []
next_tokens (t ∷ tokens) = tokens

-- A parser of lists, on fuel as large as the number of tokens.
module _ (A : Type 0) (parse : List Token → Parse A) where
  add_element : A → Parse (List A) → Parse (List A)
  add_element x (some (xs, rest)) = some (x ∷ xs, rest)
  add_element x none = none

  parse_list : ℕ → List Token → Parse (List A)
  parse_list zero tokens = none
  parse_list (suc f) tokens = elim (parse tokens) [
    | none ↦ none
    | some (x, rest) ↦ elim (starts_with_comma rest) [
      | true ↦ add_element x (parse_list f (next_tokens rest))
      | false ↦ some (x ∷ [], rest)
    ]
  ]

abbrev comma_list : CommaList
comma_list A parse tokens = parse_list A parse (suc (length tokens)) tokens

module _ (A : Type 0) (parse : List Token → Parse A) (print : A → List Token → List Token)
    (printer : IsPrinter print) where
  enough :
      (x : A) (xs : List A) (rest : List Token) → length xs ≤ length (separated print x xs rest)
  unfolding length separated
  enough x [] rest = omega arith
  enough x (y ∷ ys) rest =
      let later = enough y ys rest in
      let here = printer x (comma ∷ separated print y ys rest) in omega arith

  reads_list :
      (f : ℕ) (x : A) (xs : List A) (rest : List Token)
      → length xs ≤ f
      → All (IsReadBack parse print rest) (x ∷ xs)
      → starts_with_comma rest ≡ false
      → parse_list A parse (suc f) (separated print x xs rest) ≡ some (x ∷ xs, rest)
  unfolding parse_list separated length next_tokens add_element
  reads_list f x [] rest h ((before, last), tt) e = rw (parse_list, last, e) refl
  reads_list zero x (y ∷ ys) rest h reads e = absurd (omega arith)
  reads_list (suc f) x (y ∷ ys) rest h ((before, last), more) e =
      rw (parse_list, before (separated print y ys rest))
        (ap (add_element A parse x) (reads_list f y ys rest (omega arith) more e))

comma_list-IsCommaList : IsCommaList comma_list
comma_list-IsCommaList A parse print x xs rest printer reads e =
    reads_list A parse print printer (length (separated print x xs rest)) x xs rest
      (enough A parse print printer x xs rest) reads e

-- The parser gives integers of a width that surely holds them.
abbrev read_width : ℤ → ℕ
read_width (pos n) = suc (suc n)
read_width (negsuc n) = suc (suc n)

abbrev read_integer : ℤ → ApInt
read_integer n = record { width = read_width n; bits = encode (read_width n) n }

read_fits : (n : ℤ) → fits_signed (read_width n) n ≡ true
unfolding fits_signed
read_fits (pos n) = ground (arith, le-pow (suc n))
read_fits (negsuc n) = ground (arith, le-pow (suc n))

read_wide : (n : ℤ) → 0 < read_width n
read_wide (pos n) = omega arith
read_wide (negsuc n) = omega arith

read_integer-IsReader : IsReader read_integer
read_integer-IsReader n = (
  record { wide = read_wide n; fits = encode-lt (read_width n) n },
  signed-encode (read_width n) (read_wide n) n (read_fits n),
)

-- -3, which takes three bits.
abbrev minus_three : ApInt
minus_three = word 3 5

minus_three-IsMinimal : IsMinimal minus_three
unfolding signed fits_signed
minus_three-IsMinimal =
    let fits : IsApInt minus_three = record { wide = omega arith; fits = omega arith } in
    let (wide, holds, least) = llvm_ap_int-IsApIntLib.significant_bits_lem minus_three fits in
    (fits, least)

abbrev info : IntegerTypeInfo
info = record { modulus = none; lower = static minus_three; upper = dynamic }

parse_integer_info-print_integer_info_example :
    parse_integer_info llvm_ap_int read_integer (print_integer_info llvm_ap_int info (comma ∷ []))
    ≡ some (info, comma ∷ [])
unfolding signed
parse_integer_info-print_integer_info_example =
    parse_integer_info-print_integer_info llvm_ap_int llvm_ap_int-IsApIntLib read_integer
      read_integer-IsReader info (comma ∷ []) (tt, inl (minus_three-IsMinimal, tt)) refl

parse_enum_info-print_enum_info_example :
    parse_enum_info llvm_ap_int read_integer comma_list
      (print_enum_info (declared_enum (("red", pos 0) ∷ ("blue", pos 5) ∷ [])) [])
    ≡ some (declared_enum (("red", pos 0) ∷ ("blue", pos 5) ∷ []), [])
parse_enum_info-print_enum_info_example =
    parse_enum_info-print_enum_info llvm_ap_int read_integer comma_list llvm_ap_int-IsApIntLib
      read_integer-IsReader (declared_enum (("red", pos 0) ∷ ("blue", pos 5) ∷ [])) []
      comma_list-IsCommaList (inr (("red", pos 0), ("blue", pos 5) ∷ [], refl, (refl, (refl, tt))))

abbrev rows : Dim
rows = record { index = "integer"; lower = static minus_three; upper = dynamic }

parse_array_info-print_array_info_example :
    parse_array_info llvm_ap_int read_integer comma_list
      (print_array_info (array_of "integer" (rows ∷ rows ∷ [])) [])
    ≡ some (array_of "integer" (rows ∷ rows ∷ []), [])
unfolding verify_array_info length any signed
parse_array_info-print_array_info_example =
    parse_array_info-print_array_info llvm_ap_int read_integer comma_list llvm_ap_int-IsApIntLib
      read_integer-IsReader "integer" rows (rows ∷ []) [] comma_list-IsCommaList
      (inl (minus_three-IsMinimal, tt), (inl (minus_three-IsMinimal, tt), tt)) refl

parse_operator_kind-print_operator_example :
    (parse_operator_kind symbolize_binary (print_operator binary_spelling BinaryOp.xor_op [])
      ≡ some (BinaryOp.xor_op, []))
    × (parse_operator_kind symbolize_unary (print_operator unary_spelling UnaryOp.abs_op [])
        ≡ some (UnaryOp.abs_op, []))
    × (parse_operator_kind symbolize_relational
          (print_operator relational_spelling RelationalOp.neq_op [])
        ≡ some (RelationalOp.neq_op, []))
parse_operator_kind-print_operator_example =
    parse_operator_kind-print_operator BinaryOp.xor_op UnaryOp.abs_op RelationalOp.neq_op []

parse_checks-print_checks_example :
    parse_checks (print_checks (some (record { overflow = true; division = true })) [])
    ≡ some (some (record { overflow = true; division = true }), [])
parse_checks-print_checks_example =
    parse_checks-print_checks (some (record { overflow = true; division = true })) [] refl
