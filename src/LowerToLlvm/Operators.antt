-- ===== src/LowerToLlvm/Operators.antt =====
-- The operators of the dialect (include/ada/Ops.td) and the constant evaluation of checked
-- expressions (mlir/LowerToLLVM.cpp, evalConstInt).
use lalvm.Base.{ℕ, Bool, false, Option, none, some, if◌then◌else◌}
use lalvm.Llvm.{ApInt, ApIntLib}
pub mod ConstEval

pub data BinaryOp : Type 0 where
  and_op or_op xor_op plus_op minus_op mult_op div_op : BinaryOp

pub data UnaryOp : Type 0 where
  not_op plus_op minus_op abs_op : UnaryOp

pub data RelationalOp : Type 0 where
  eq_op neq_op lt_op lte_op gt_op gte_op : RelationalOp

-- The bits of AdaChecks.
pub record AdaChecks : Type 0 where
  pub overflow : Bool
  pub division : Bool

-- hasAnyChecks at the overflow and at the division bit; an absent attribute has none.
abbrev pub has_overflow_check : Option AdaChecks → Bool
has_overflow_check (some c) = c.overflow
has_overflow_check none = false

abbrev pub has_division_check : Option AdaChecks → Bool
has_division_check (some c) = c.division
has_division_check none = false

-- What defines a value, as far as evalConstInt looks: an integer `ada.constant` or
-- `arith.constant`, a `ada.unop` or `ada.binop`, or anything else, known by a number.
pub data Expr : Type 0 where
  ada_constant : ApInt → Expr
  arith_constant : ApInt → Expr
  unop : UnaryOp → Option AdaChecks → Expr → Expr
  binop : BinaryOp → Option AdaChecks → Expr → Expr → Expr
  opaque_value : ℕ → Expr

-- A result with its overflow flag: none on overflow.
abbrev pub unless_overflow : ApInt × Bool → Option ApInt
unless_overflow (r, overflow) = if overflow then none else some r

-- APInt::getZero.
abbrev pub zero_of : ApInt → ApInt
zero_of x = record { width = x.width; bits = 0 }

unfoldable pub const_unary : ApIntLib → UnaryOp → Option AdaChecks → Option ApInt → Option ApInt
const_unary l UnaryOp.plus_op c x = x
const_unary l k c none = none
const_unary l UnaryOp.minus_op c (some x) =
    if has_overflow_check c then unless_overflow (l.ssub_ov (zero_of x) x) else none
const_unary l UnaryOp.abs_op c (some x) =
    if has_overflow_check c
    then (if l.is_negative x then unless_overflow (l.ssub_ov (zero_of x) x) else some x)
    else none
const_unary l UnaryOp.not_op c (some x) = none

unfoldable pub const_operator : ApIntLib → BinaryOp → ApInt → ApInt → Option ApInt
const_operator l BinaryOp.plus_op a b = unless_overflow (l.sadd_ov a b)
const_operator l BinaryOp.minus_op a b = unless_overflow (l.ssub_ov a b)
const_operator l BinaryOp.mult_op a b = unless_overflow (l.smul_ov a b)
const_operator l _ a b = none

unfoldable pub const_binary :
    ApIntLib → BinaryOp → Option AdaChecks → Option ApInt → Option ApInt → Option ApInt
unfolding const_operator
const_binary l k c (some a) (some b) = if has_overflow_check c then const_operator l k a b else none
const_binary l k c (some a) none = none
const_binary l k c none b = none

unfoldable pub eval_const_int : ApIntLib → Expr → Option ApInt
unfolding const_unary const_binary
eval_const_int l (ada_constant a) = some a
eval_const_int l (arith_constant a) = some a
eval_const_int l (unop k c e) = const_unary l k c (eval_const_int l e)
eval_const_int l (binop k c a b) = const_binary l k c (eval_const_int l a) (eval_const_int l b)
eval_const_int l (opaque_value i) = none
