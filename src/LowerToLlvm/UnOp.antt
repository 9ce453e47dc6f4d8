-- ===== src/LowerToLlvm/UnOp.antt =====
-- The lowering of `ada.unop` (mlir/LowerToLLVM.cpp, UnOpLowering).
use Prim.Native.String.{String}
use lalvm.Base.{ℕ, Bool, not, Option, none, some, if◌then◌else◌, ◌&&◌}
use lalvm.Llvm.{ApInt, ApIntLib, subi, xori, IntPredicate, negf, fabs, ssub}
use lalvm.Dialect.Types.{MachineType, int, float, array, other_type}
use lalvm.Dialect.Table.{TypeTable}
use lalvm.LowerToLlvm.Emit.{
  Val, int_const, arith_op, cmpi, select, overflow_result, overflow_flag, float_un, Code, ret,
  raise_if, overflow_check, Lowering, unsupported, emitted, lhs, overflow_checked,
}
use lalvm.LowerToLlvm.Operators.{
  UnaryOp, not_op, plus_op, minus_op, abs_op, AdaChecks, has_overflow_check, Expr, unop,
  eval_const_int,
}
use lalvm.LowerToLlvm.BinOp.{is_full_width_modulus, is_some}
pub mod Meaning

-- An `ada.unop`: `type` and `sym` are the machine type and the Ada type of its operand.
pub record UnOp : Type 0 where
  pub kind : UnaryOp
  pub checks : Option AdaChecks
  pub type : MachineType
  pub sym : String
  pub operand : Expr

-- Whether the intrinsic is needed: a check that the compiler cannot discharge.
unfoldable pub needs_overflow_code : ApIntLib → UnOp → Bool
needs_overflow_code l op =
    has_overflow_check op.checks
    && not (is_some (eval_const_int l (unop op.kind op.checks op.operand)))

unfoldable pub not_code : ApIntLib → Option ApInt → ℕ → Code
not_code l (some m) w =
    ret (arith_op subi w (int_const w (l.sub_one (l.zext_or_trunc m w)).bits) lhs)
not_code l none w = ret (arith_op xori w lhs (int_const w 1))

-- Signed `abs` is `x < 0 ? -x : x`.
unfoldable pub abs_code : Bool → Option ApInt → ℕ → Code
abs_code overflow (some m) w = ret lhs
abs_code overflow none w =
    let zero = int_const w 0 in
    let is_neg = cmpi IntPredicate.slt w lhs zero in
    if overflow
    then raise_if (overflow_flag ssub w zero lhs) overflow_check
        (ret (select is_neg (overflow_result ssub w zero lhs) lhs))
    else ret (select is_neg (arith_op subi w zero lhs) lhs)

-- The unchecked minus: `0 - x`, or `select (x == 0), 0, (m - x)` below the full width.
unfoldable pub wrapping_minus_code : ApIntLib → Option ApInt → ℕ → Code
wrapping_minus_code l none w = ret (arith_op subi w (int_const w 0) lhs)
wrapping_minus_code l (some m) w =
    let zero = int_const w 0 in
    if is_full_width_modulus l m w
    then ret (arith_op subi w zero lhs)
    else ret (
        select (cmpi IntPredicate.eq w lhs zero) zero
          (arith_op subi w (int_const w (l.zext_or_trunc m w).bits) lhs))

unfoldable pub lower_int_un_op : ApIntLib → TypeTable → UnOp → ℕ → Code
lower_int_un_op l t op w =
    let modulus = t.modulus_of op.sym in
    let overflow = needs_overflow_code l op in
    elim op.kind [
      | not_op ↦ not_code l modulus w
      | abs_op ↦ abs_code overflow modulus w
      | plus_op ↦ ret lhs
      | minus_op ↦
          if overflow
          then overflow_checked ssub w (int_const w 0) lhs
          else wrapping_minus_code l modulus w
    ]

-- An integer constant has no float type: `not`, and a checked minus, would not be built.
unfoldable pub lower_float_un_op : ApIntLib → UnOp → ℕ → Lowering
lower_float_un_op l op w = elim op.kind [
  | not_op ↦ unsupported
  | abs_op ↦ emitted (ret (float_un fabs w lhs))
  | plus_op ↦ emitted (ret lhs)
  | minus_op ↦ if needs_overflow_code l op then unsupported else emitted (ret (float_un negf w lhs))
]

-- Operands of other types: + is the identity whatever the type, and the rest cannot be built.
abbrev pub lower_other_un_op : UnaryOp → Lowering
lower_other_un_op plus_op = emitted (ret lhs)
lower_other_un_op minus_op = unsupported
lower_other_un_op abs_op = unsupported
lower_other_un_op not_op = unsupported

unfoldable pub lower_un_op : ApIntLib → TypeTable → UnOp → Lowering
lower_un_op l t op = elim op.type [
  | int w ↦ emitted (lower_int_un_op l t op w)
  | float w ↦ lower_float_un_op l op w
  | array c e ↦ lower_other_un_op op.kind
  | other_type k ↦ lower_other_un_op op.kind
]

-- An integer operator of `w` bits.
abbrev pub integer_unop : UnaryOp → Option AdaChecks → ℕ → String → Expr → UnOp
integer_unop kind checks w sym operand = record {
  kind = kind;
  checks = checks;
  type = int w;
  sym = sym;
  operand = operand;
}
