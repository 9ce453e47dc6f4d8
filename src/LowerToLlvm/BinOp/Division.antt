-- ===== src/LowerToLlvm/BinOp/Division.antt =====
-- Division on a modular type (mlir/LowerToLLVM.cpp, lowerCheckedArithmetic).
use Prim.Native.String.{String}
use lalvm.Base.{ℕ, ◌≡◌, true, false, Option, some, arith}
use mathlib.Core.Path.{subst}
use native.Mathlib.Decide.{ℕ_discrete}
use lalvm.Llvm.{ApInt, ApIntLib, Machine, IsMachine}
use lalvm.Dialect.Table.{TypeTable}
use lalvm.Ada.{modular_division}
use lalvm.LowerToLlvm.Emit.{run, two_operands, Runs, emitted}
use lalvm.LowerToLlvm.Operators.{div_op, AdaChecks, has_overflow_check, has_division_check, Expr}
use lalvm.LowerToLlvm.BinOp.{
  division_code, lower_checked_arithmetic, lower_checked_int, lower_bin_op, integer_op,
}

module _ (l : ApIntLib) (m : Machine) (machine : IsMachine m) (t : TypeTable) (w a b : ℕ)
    (result_type : String) (left right : Expr) (c : ApInt)
    (modular : t.modulus_of result_type ≡ some c) (checks : Option AdaChecks) where
  division_lem :
      has_division_check checks ≡ true
      → run m (two_operands a b) (division_code l checks true w) ≡ modular_division a b
  unfolding division_code run modular_division
  division_lem e = elim (ℕ_discrete b 0) [
    | yes z ↦ rw (e, machine.eq_lem w b 0) (ground arith)
    | no n ↦ rw (e, machine.eq_lem w b 0) (ground (arith, machine.divui_lem w a b n))
  ]

  lowered_division :
      has_overflow_check checks ≡ false
      → emitted (division_code l checks true w)
        ≡ lower_bin_op l t (integer_op div_op checks w result_type left right)
  unfolding lower_bin_op lower_checked_arithmetic lower_checked_int
  lowered_division e = rw (e, modular)

  -- A division on a modular type that carries the division check, and no overflow check, compiles
  -- to code that raises on a zero divisor and returns the quotient of the operands elsewhere.
  pub lower_bin_op-modular_division :
      has_overflow_check checks ≡ false
      → has_division_check checks ≡ true
      → Runs m
          (two_operands a b)
          (lower_bin_op l t (integer_op div_op checks w result_type left right))
          (modular_division a b)
  lower_bin_op-modular_division e d =
      subst (λ code. Runs m (two_operands a b) code (modular_division a b)) (lowered_division e)
        (division_lem d)
