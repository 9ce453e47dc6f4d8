-- ===== src/Examples/Verified.antt =====
-- The theorems on verified operators, at concrete operators.

use lalvm.Base.{refl}
use lalvm.Llvm.Instance.{llvm_ap_int}
use lalvm.Dialect.Types.{int, machine_eq}
use lalvm.Dialect.Verify.{
  ValueType, qual, plain, verify_same_machine_type, verify_bin_op, verify_cmp_op, verify_un_op,
}
use lalvm.LowerToLlvm.Operators.{opaque_value, lt_op, BinaryOp, UnaryOp}
use lalvm.LowerToLlvm.BinOp.{lower_bin_op}
use lalvm.LowerToLlvm.Emit.{Lowering}
use lalvm.LowerToLlvm.CmpOp.{lower_cmp_op}
use lalvm.LowerToLlvm.UnOp.{lower_un_op, integer_unop}
use lalvm.LowerToLlvm.Verified.{
  IsEmitted, IsOfType, lower_bin_op-verified, lower_un_op-verified, lower_cmp_op-verified, operator,
}
use lalvm.Examples.{types, overflow_checks}

abbrev integer : ValueType
integer = qual (record { mlir_type = int 8; ada_type = "integer" })

abbrev checked_plus : Lowering
checked_plus = lower_bin_op llvm_ap_int types (
    operator llvm_ap_int types overflow_checks "integer" (opaque_value 0) (opaque_value 1)
      BinaryOp.plus_op (int 8))

lower_bin_op-verified_example : IsEmitted checked_plus × IsOfType (int 8) checked_plus
unfolding verify_bin_op verify_same_machine_type machine_eq
lower_bin_op-verified_example =
    lower_bin_op-verified llvm_ap_int types overflow_checks "integer" (opaque_value 0)
      (opaque_value 1) BinaryOp.plus_op integer integer (int 8) refl refl refl

lower_un_op-verified_example : IsEmitted (
    lower_un_op llvm_ap_int types
      (integer_unop UnaryOp.abs_op overflow_checks 8 "integer" (opaque_value 0)))
unfolding verify_un_op verify_same_machine_type machine_eq
lower_un_op-verified_example =
    lower_un_op-verified llvm_ap_int types overflow_checks "integer" UnaryOp.abs_op integer integer
      (opaque_value 0) refl refl

lower_cmp_op-verified_example :
    IsEmitted (lower_cmp_op types (record { kind = lt_op; type = int 8; sym = "integer" }))
unfolding verify_cmp_op verify_same_machine_type machine_eq
lower_cmp_op-verified_example =
    lower_cmp_op-verified types lt_op "integer" integer integer (plain (int 1)) refl
