-- ===== src/Dialect/Verify.antt =====
-- The verifiers of the operators (mlir/Dialect.cpp, BinOp::verify, CmpOp::verify, UnOp::verify).
use lalvm.Base.{Bool, true, false, not, List, [], ◌∷◌, ◌&&◌, ◌==◌}
use lalvm.Dialect.Types.{
  MachineType, int, float, array, other_type, QualType, machine_eq, is_numeric_machine_type,
  is_float_type,
}
use lalvm.LowerToLlvm.Operators.{UnaryOp, not_op, plus_op, minus_op, abs_op}

-- The type of a value: an `ada.qual`, or a machine type.
pub data ValueType : Type 0 where
  qual : QualType → ValueType
  plain : MachineType → ValueType

-- machineTypeOf.
abbrev pub machine_type_of : ValueType → MachineType
machine_type_of (qual q) = q.mlir_type
machine_type_of (plain t) = t

abbrev pub same_form : ValueType → ValueType → Bool
same_form (qual q) (qual r) = true
same_form (qual q) (plain t) = false
same_form (plain s) (qual r) = false
same_form (plain s) (plain t) = true

-- verifySameMachineType: the first type and the others.
unfoldable pub verify_same_machine_type : ValueType → List ValueType → Bool
verify_same_machine_type first [] = true
verify_same_machine_type first (t ∷ ts) =
    same_form first t
    && machine_eq (machine_type_of first) (machine_type_of t)
    && verify_same_machine_type first ts

unfoldable pub verify_bin_op : ValueType → ValueType → ValueType → Bool
verify_bin_op lhs rhs result =
    verify_same_machine_type lhs (rhs ∷ result ∷ [])
    && is_numeric_machine_type (machine_type_of result)

abbrev is_bit : MachineType → Bool
is_bit (int w) = w == 1
is_bit (float w) = false
is_bit (array c e) = false
is_bit (other_type k) = false

unfoldable pub verify_cmp_op : ValueType → ValueType → ValueType → Bool
verify_cmp_op lhs rhs result =
    verify_same_machine_type lhs (rhs ∷ [])
    && is_numeric_machine_type (machine_type_of lhs)
    && is_bit (machine_type_of result)

abbrev pub is_not : UnaryOp → Bool
is_not not_op = true
is_not plus_op = false
is_not minus_op = false
is_not abs_op = false

unfoldable pub verify_un_op : UnaryOp → ValueType → ValueType → Bool
verify_un_op kind operand result =
    verify_same_machine_type operand (result ∷ [])
    && is_numeric_machine_type (machine_type_of operand)
    && not (is_float_type (machine_type_of operand) && is_not kind)
    && not (is_bit (machine_type_of operand) && not (is_not kind))
