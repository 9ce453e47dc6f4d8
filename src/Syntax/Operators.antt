-- ===== src/Syntax/Operators.antt =====
-- Operators and checks in text (mlir/Dialect.cpp, parseOperator, printOperator, parseChecks and
-- printChecks), with the spellings of include/ada/Ops.td.
use text.Mathlib.Text.{◌==◌ as str_eq}
use Prim.Native.String.{String}
use lalvm.Base.{
  ◌≡◌, refl, Bool, true, false, Option, none, some, List, [], ◌∷◌, ◌||◌, if◌then◌else◌,
}
use lalvm.Syntax.{
  Token, less, greater, bar, keyword, quoted, equal, comma, question, left_square, right_square,
  number, symbol, type_token, Parse, parse_greater,
}
use lalvm.LowerToLlvm.Operators.{BinaryOp, UnaryOp, RelationalOp, AdaChecks}

-- stringifyAdaBinaryOp, stringifyAdaUnaryOp and stringifyAdaRelationalOp.
abbrev pub binary_spelling : BinaryOp → String
binary_spelling BinaryOp.and_op = "and"
binary_spelling BinaryOp.or_op = "or"
binary_spelling BinaryOp.xor_op = "xor"
binary_spelling BinaryOp.plus_op = "+"
binary_spelling BinaryOp.minus_op = "-"
binary_spelling BinaryOp.mult_op = "*"
binary_spelling BinaryOp.div_op = "/"

abbrev pub unary_spelling : UnaryOp → String
unary_spelling UnaryOp.not_op = "not"
unary_spelling UnaryOp.plus_op = "+"
unary_spelling UnaryOp.minus_op = "-"
unary_spelling UnaryOp.abs_op = "abs"

abbrev pub relational_spelling : RelationalOp → String
relational_spelling RelationalOp.eq_op = "="
relational_spelling RelationalOp.neq_op = "/="
relational_spelling RelationalOp.lt_op = "<"
relational_spelling RelationalOp.lte_op = "<="
relational_spelling RelationalOp.gt_op = ">"
relational_spelling RelationalOp.gte_op = ">="

-- symbolizeEnum of the three kinds.
unfoldable pub symbolize_binary : String → Option BinaryOp
symbolize_binary word =
    if str_eq word "and"
    then some BinaryOp.and_op
    else if str_eq word "or"
    then some BinaryOp.or_op
    else if str_eq word "xor"
    then some BinaryOp.xor_op
    else if str_eq word "+"
    then some BinaryOp.plus_op
    else if str_eq word "-"
    then some BinaryOp.minus_op
    else if str_eq word "*"
    then some BinaryOp.mult_op
    else if str_eq word "/"
    then some BinaryOp.div_op
    else none

unfoldable pub symbolize_unary : String → Option UnaryOp
symbolize_unary word =
    if str_eq word "not"
    then some UnaryOp.not_op
    else if str_eq word "+"
    then some UnaryOp.plus_op
    else if str_eq word "-"
    then some UnaryOp.minus_op
    else if str_eq word "abs"
    then some UnaryOp.abs_op
    else none

unfoldable pub symbolize_relational : String → Option RelationalOp
symbolize_relational word =
    if str_eq word "="
    then some RelationalOp.eq_op
    else if str_eq word "/="
    then some RelationalOp.neq_op
    else if str_eq word "<"
    then some RelationalOp.lt_op
    else if str_eq word "<="
    then some RelationalOp.lte_op
    else if str_eq word ">"
    then some RelationalOp.gt_op
    else if str_eq word ">="
    then some RelationalOp.gte_op
    else none

abbrev found_kind {ℓ} : {K : Type ℓ} → Option K → List Token → Parse K
found_kind (some k) rest = some (k, rest)
found_kind none rest = none

-- parseOperatorKind.
unfoldable pub parse_operator_kind {ℓ} : {K : Type ℓ} → (String → Option K) → List Token → Parse K
parse_operator_kind kind_of (quoted s ∷ rest) = found_kind (kind_of s) rest
parse_operator_kind kind_of tokens = none

-- printOperator, before the tokens that follow.
unfoldable pub print_operator {ℓ} : {K : Type ℓ} → (K → String) → K → List Token → List Token
print_operator spelling k rest = quoted (spelling k) ∷ rest

parse_operator_kind-binary :
    (k : BinaryOp) (rest : List Token)
    → parse_operator_kind symbolize_binary (print_operator binary_spelling k rest) ≡ some (k, rest)
unfolding parse_operator_kind print_operator symbolize_binary
parse_operator_kind-binary BinaryOp.and_op rest = refl
parse_operator_kind-binary BinaryOp.or_op rest = refl
parse_operator_kind-binary BinaryOp.xor_op rest = refl
parse_operator_kind-binary BinaryOp.plus_op rest = refl
parse_operator_kind-binary BinaryOp.minus_op rest = refl
parse_operator_kind-binary BinaryOp.mult_op rest = refl
parse_operator_kind-binary BinaryOp.div_op rest = refl

parse_operator_kind-unary :
    (k : UnaryOp) (rest : List Token)
    → parse_operator_kind symbolize_unary (print_operator unary_spelling k rest) ≡ some (k, rest)
unfolding parse_operator_kind print_operator symbolize_unary
parse_operator_kind-unary UnaryOp.not_op rest = refl
parse_operator_kind-unary UnaryOp.plus_op rest = refl
parse_operator_kind-unary UnaryOp.minus_op rest = refl
parse_operator_kind-unary UnaryOp.abs_op rest = refl

parse_operator_kind-relational :
    (k : RelationalOp) (rest : List Token)
    → parse_operator_kind symbolize_relational (print_operator relational_spelling k rest)
      ≡ some (k, rest)
unfolding parse_operator_kind print_operator symbolize_relational
parse_operator_kind-relational RelationalOp.eq_op rest = refl
parse_operator_kind-relational RelationalOp.neq_op rest = refl
parse_operator_kind-relational RelationalOp.lt_op rest = refl
parse_operator_kind-relational RelationalOp.lte_op rest = refl
parse_operator_kind-relational RelationalOp.gt_op rest = refl
parse_operator_kind-relational RelationalOp.gte_op rest = refl

-- The quoted operator of a binary, a unary and a relational operation is read back as it was
-- written.
pub parse_operator_kind-print_operator :
    (b : BinaryOp) (u : UnaryOp) (r : RelationalOp) (rest : List Token)
    → (parse_operator_kind symbolize_binary (print_operator binary_spelling b rest)
        ≡ some (b, rest))
      × (parse_operator_kind symbolize_unary (print_operator unary_spelling u rest)
          ≡ some (u, rest))
      × (parse_operator_kind symbolize_relational (print_operator relational_spelling r rest)
          ≡ some (r, rest))
parse_operator_kind-print_operator b u r rest = (
  parse_operator_kind-binary b rest,
  parse_operator_kind-unary u rest,
  parse_operator_kind-relational r rest,
)

abbrev pub no_checks : AdaChecks
no_checks = record { overflow = false; division = false }

-- symbolizeAdaChecks, of one flag, and `bits | *bit`.
unfoldable pub symbolize_check : String → Option AdaChecks
symbolize_check flag =
    if str_eq flag "overflow"
    then some (record { overflow = true; division = false })
    else if str_eq flag "division"
    then some (record { overflow = false; division = true })
    else none

abbrev pub join_checks : AdaChecks → AdaChecks → AdaChecks
join_checks a b = record {
  overflow = a.overflow || b.overflow;
  division = a.division || b.division;
}

abbrev end_flags : AdaChecks → List Token → Parse (Option AdaChecks)
end_flags bits tokens = parse_greater (some bits) tokens

-- The loop of parseChecks, with the bits so far.
unfoldable pub parse_flags : AdaChecks → List Token → Parse (Option AdaChecks)
parse_flags bits (keyword flag ∷ bar ∷ rest) = elim (symbolize_check flag) [
  | some bit ↦ parse_flags (join_checks bits bit) rest
  | none ↦ none
]
parse_flags bits (keyword flag ∷ rest) = elim (symbolize_check flag) [
  | some bit ↦ end_flags (join_checks bits bit) rest
  | none ↦ none
]
parse_flags bits tokens = none

abbrev pub parse_group : List Token → Parse (Option AdaChecks)
parse_group (less ∷ rest) = parse_flags no_checks rest
parse_group tokens = none

-- parseChecks: an absent group leaves the attribute null.
unfoldable pub parse_checks : List Token → Parse (Option AdaChecks)
parse_checks (keyword k ∷ rest) =
    if str_eq k "checks" then parse_group rest else some (none, keyword k ∷ rest)
parse_checks tokens = some (none, tokens)

-- stringifyAdaChecks, and printChecks before the tokens that follow.
abbrev pub print_flags : AdaChecks → List Token → List Token
print_flags c rest =
    if c.overflow
    then keyword "overflow" ∷ (if c.division then bar ∷ keyword "division" ∷ rest else rest)
    else if c.division
    then keyword "division" ∷ rest
    else rest

unfoldable pub print_checks : Option AdaChecks → List Token → List Token
print_checks none rest = rest
print_checks (some c) rest =
    if c.overflow || c.division
    then keyword "checks" ∷ less ∷ print_flags c (greater ∷ rest)
    else rest

-- What parsing gives: checks of no bit are not printed, and leave the attribute null.
abbrev pub kept_checks : Option AdaChecks → Option AdaChecks
kept_checks none = none
kept_checks (some c) = if c.overflow || c.division then some c else none

abbrev pub starts_with_checks : List Token → Bool
starts_with_checks (keyword k ∷ rest) = str_eq k "checks"
starts_with_checks tokens = false

absent_checks :
    (rest : List Token) → starts_with_checks rest ≡ false → parse_checks rest ≡ some (none, rest)
unfolding parse_checks
absent_checks [] h = refl
absent_checks (keyword k ∷ rest) h = rw h refl
absent_checks (less ∷ rest) h = refl
absent_checks (greater ∷ rest) h = refl
absent_checks (equal ∷ rest) h = refl
absent_checks (comma ∷ rest) h = refl
absent_checks (question ∷ rest) h = refl
absent_checks (bar ∷ rest) h = refl
absent_checks (left_square ∷ rest) h = refl
absent_checks (right_square ∷ rest) h = refl
absent_checks (number k ∷ rest) h = refl
absent_checks (quoted k ∷ rest) h = refl
absent_checks (symbol k ∷ rest) h = refl
absent_checks (type_token k ∷ rest) h = refl

some_checks :
    (overflow division : Bool) (rest : List Token)
    → starts_with_checks rest ≡ false
    → parse_checks (print_checks (some (record { overflow = overflow; division = division })) rest)
      ≡ some (kept_checks (some (record { overflow = overflow; division = division })), rest)
unfolding parse_checks print_checks parse_flags symbolize_check
some_checks true true rest h = refl
some_checks true false rest h = refl
some_checks false true rest h = refl
some_checks false false rest h = absent_checks rest h

-- The checks of an operation are read back as they were written, except that a group without any
-- check is read as an absent attribute.
pub parse_checks-print_checks :
    (checks : Option AdaChecks) (rest : List Token)
    → starts_with_checks rest ≡ false
    → parse_checks (print_checks checks rest) ≡ some (kept_checks checks, rest)
unfolding print_checks
parse_checks-print_checks none rest h = absent_checks rest h
parse_checks-print_checks (some c) rest h = some_checks c.overflow c.division rest h
