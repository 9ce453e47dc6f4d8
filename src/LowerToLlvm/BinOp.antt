-- ===== src/LowerToLlvm/BinOp.antt =====
-- The lowering of `ada.binop` (mlir/LowerToLLVM.cpp, BinOpLowering).
use Prim.Native.String.{String}
use lalvm.Base.{ℕ, ◌*◌, Bool, true, false, not, Option, none, some, if◌then◌else◌, ◌==◌, ◌&&◌}
use lalvm.Llvm.{
  ApInt, ApIntLib, BinArith, addi, subi, muli, divsi, divui, remui, andi, ori, xori, FloatArith,
  addf, subf, mulf, divf, IntPredicate, extui, trunci, sadd, ssub, smul,
}
use lalvm.Dialect.Types.{MachineType, int, float, is_numeric_machine_type}
use lalvm.Dialect.Table.{TypeTable}
use lalvm.LowerToLlvm.Emit.{
  Val, int_const, arith_op, cmpi, cast, select, float_op, Code, ret, raise_if, overflow_check,
  divide_by_zero, Lowering, inapplicable, unsupported, asserts, emitted, lhs, rhs, overflow_checked,
}
use lalvm.LowerToLlvm.Operators.{
  BinaryOp, and_op, or_op, xor_op, plus_op, minus_op, mult_op, div_op, AdaChecks,
  has_overflow_check, has_division_check, Expr, binop, eval_const_int,
}
mod Reduce
mod Quotient
pub mod Signed
pub mod Modular
pub mod Division

-- An `ada.binop`: `type` is the machine type of its operands, `sym` the Ada type of its result, `none`
-- where that is a plain machine type, and `left` and `right` what defines its operands.
pub record BinOp : Type 0 where
  pub kind : BinaryOp
  pub checks : Option AdaChecks
  pub type : MachineType
  pub sym : Option String
  pub left : Expr
  pub right : Expr

abbrev pub is_some {ℓ} : {A : Type ℓ} → Option A → Bool
is_some (some a) = true
is_some none = false

-- isFullWidthModulus.
unfoldable pub is_full_width_modulus : ApIntLib → ApInt → ℕ → Bool
is_full_width_modulus l m w = l.is_power_of_2 m && (l.log_base_2 m == w)

-- isModularQualType.
abbrev pub is_modular : TypeTable → String → Bool
is_modular t sym = is_some (t.modulus_of sym)

unfoldable pub with_overflow_code : BinaryOp → ℕ → Lowering
with_overflow_code plus_op w = emitted (overflow_checked sadd w lhs rhs)
with_overflow_code minus_op w = emitted (overflow_checked ssub w lhs rhs)
with_overflow_code mult_op w = emitted (overflow_checked smul w lhs rhs)
with_overflow_code _ w = unsupported

-- The divide, behind its zero check and, if signed, its overflow check.
unfoldable pub division_code : ApIntLib → Option AdaChecks → Bool → ℕ → Code
division_code l checks modular w =
    let quotient = ret (arith_op (if modular then divui else divsi) w lhs rhs) in
    let is_zero = cmpi IntPredicate.eq w rhs (int_const w 0) in
    let lhs_is_min = cmpi IntPredicate.eq w lhs (int_const w (l.signed_min w).bits) in
    let rhs_is_neg_one = cmpi IntPredicate.eq w rhs (int_const w (l.unsigned_max w).bits) in
    let no_overflow =
      if modular
      then quotient
      else raise_if (arith_op andi 1 lhs_is_min rhs_is_neg_one) overflow_check quotient in
    if has_division_check checks then raise_if is_zero divide_by_zero no_overflow else quotient

-- The type of the result is cast to `ada.qual` for a division, and for any modular operator.
unfoldable pub lower_checked_int : ApIntLib → TypeTable → BinOp → ℕ → Lowering
lower_checked_int l t op w =
    if has_overflow_check op.checks
      && not (is_some (eval_const_int l (binop op.kind op.checks op.left op.right)))
    then with_overflow_code op.kind w
    else elim op.kind [
      | div_op ↦ elim op.sym [
        | some sym ↦ emitted (division_code l op.checks (is_modular t sym) w)
        | none ↦ asserts
      ]
      | _ ↦ inapplicable
    ]

unfoldable pub lower_checked_arithmetic : ApIntLib → TypeTable → BinOp → Lowering
lower_checked_arithmetic l t op = elim op.type [
  | int w ↦ lower_checked_int l t op w
  | _ ↦ inapplicable
]

-- A modulus 2 ** k below 2 ** width: keep the low k bits.
unfoldable pub power_of_2_code : BinaryOp → ℕ → ℕ → Lowering
power_of_2_code plus_op w mask =
    emitted (ret (arith_op andi w (arith_op addi w lhs rhs) (int_const w mask)))
power_of_2_code minus_op w mask =
    emitted (ret (arith_op andi w (arith_op subi w lhs rhs) (int_const w mask)))
power_of_2_code mult_op w mask =
    emitted (ret (arith_op andi w (arith_op muli w lhs rhs) (int_const w mask)))
power_of_2_code and_op w mask = inapplicable
power_of_2_code or_op w mask = inapplicable
power_of_2_code xor_op w mask = inapplicable
power_of_2_code div_op w mask = unsupported

-- reduceOnce: one conditional subtraction of the modulus, in the width of `s`.
unfoldable pub reduce_once : ApIntLib → ApInt → ℕ → Val → Val
reduce_once l m sw s =
    let modulus = int_const sw (l.zext_or_trunc m sw).bits in
    select (cmpi IntPredicate.uge sw s modulus) (arith_op subi sw s modulus) s

-- Any other modulus: +, - and * in twice the width, the logical operators in the storage width.
unfoldable pub wide_modulus_code : ApIntLib → ApInt → BinaryOp → ℕ → Lowering
wide_modulus_code l m kind w =
    let ww = 2 * w in
    let wide_lhs = cast extui w ww lhs in
    let wide_rhs = cast extui w ww rhs in
    let wide_modulus = int_const ww (l.zext_or_trunc m ww).bits in
    elim kind [
      | mult_op ↦ emitted (
          ret (
            cast trunci ww w (arith_op remui ww (arith_op muli ww wide_lhs wide_rhs) wide_modulus)))
      | plus_op ↦
          emitted (ret (cast trunci ww w (reduce_once l m ww (arith_op addi ww wide_lhs wide_rhs))))
      | minus_op ↦ emitted (
          ret (
            cast trunci ww w (
              reduce_once l m ww
                (arith_op subi ww (arith_op addi ww wide_lhs wide_modulus) wide_rhs))))
      | and_op ↦ inapplicable
      | or_op ↦ emitted (ret (reduce_once l m w (arith_op ori w lhs rhs)))
      | xor_op ↦ emitted (ret (reduce_once l m w (arith_op xori w lhs rhs)))
      | div_op ↦ unsupported
    ]

-- APInt::getLowBitsSet(w, k).
abbrev pub low_bits_set : ApIntLib → ℕ → ℕ
low_bits_set l k = (l.unsigned_max k).bits

unfoldable pub modular_code : ApIntLib → ApInt → BinaryOp → ℕ → Lowering
modular_code l m kind w =
    if is_full_width_modulus l m w
    then inapplicable
    else if l.is_power_of_2 m
    then power_of_2_code kind w (low_bits_set l (l.log_base_2 m))
    else wide_modulus_code l m kind w

unfoldable pub lower_modular_arithmetic : ApIntLib → TypeTable → BinOp → Lowering
lower_modular_arithmetic l t op = elim op.type [
  | int w ↦ elim op.sym [
    | some sym ↦ elim (t.modulus_of sym) [
      | some m ↦ modular_code l m op.kind w
      | none ↦ inapplicable
    ]
    | none ↦ asserts
  ]
  | _ ↦ inapplicable
]

unfoldable pub plain_int : BinaryOp → BinArith
plain_int plus_op = addi
plain_int minus_op = subi
plain_int mult_op = muli
plain_int div_op = divsi
plain_int and_op = andi
plain_int or_op = ori
plain_int xor_op = xori

-- The logical operators are emitted as integer operations whatever the type.
unfoldable pub plain_float : BinaryOp → ℕ → Val
plain_float plus_op w = float_op addf w lhs rhs
plain_float minus_op w = float_op subf w lhs rhs
plain_float mult_op w = float_op mulf w lhs rhs
plain_float div_op w = float_op divf w lhs rhs
plain_float and_op w = arith_op andi w lhs rhs
plain_float or_op w = arith_op ori w lhs rhs
plain_float xor_op w = arith_op xori w lhs rhs

unfoldable pub lower_plain_arithmetic : BinOp → Lowering
lower_plain_arithmetic op = elim op.type [
  | int w ↦ emitted (ret (arith_op (plain_int op.kind) w lhs rhs))
  | float w ↦ emitted (ret (plain_float op.kind w))
  | _ ↦ unsupported
]

-- The next lowering where the first does not apply.
abbrev pub or_else : Lowering → Lowering → Lowering
or_else inapplicable next = next
or_else unsupported next = unsupported
or_else asserts next = asserts
or_else (emitted c) next = emitted c

unfoldable pub lower_bin_op : ApIntLib → TypeTable → BinOp → Lowering
lower_bin_op l t op =
    if is_numeric_machine_type op.type
    then or_else (lower_checked_arithmetic l t op)
        (or_else (lower_modular_arithmetic l t op) (lower_plain_arithmetic op))
    else unsupported

-- An integer operator of `w` bits.
abbrev pub integer_op : BinaryOp → Option AdaChecks → ℕ → String → Expr → Expr → BinOp
integer_op kind checks w sym left right = record {
  kind = kind;
  checks = checks;
  type = int w;
  sym = some sym;
  left = left;
  right = right;
}
