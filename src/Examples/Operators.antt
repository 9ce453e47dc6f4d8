-- ===== src/Examples/Operators.antt =====
-- The theorems on the operators, at concrete operands.
use lalvm.Base.{true, ◌^◌, ℕ, ◌<◌, ◌≡◌, refl, none, some, arith}
use lalvm.Base.Int.{◌+ℤ◌, ◌-ℤ◌}
use lalvm.Base.Words.{fits_signed, signed, encode}
use lalvm.Llvm.Instance.{llvm_ap_int, llvm_ap_int-IsApIntLib, word_machine, word_machine-IsMachine}
use lalvm.Dialect.Types.{TypeOp, absent, int}
use lalvm.Dialect.Table.{type_table, modulus_of_ada_type, root_of_ada_type, root_from, base_op}
use lalvm.Dialect.Scopes.{lookup_ada_type, lookup_symbol_from, lookup_in_scope, lookup_symbol_in}
use lalvm.Ada.{
  ada_value, signed_binary, signed_unary, checked_result, modular_binary, modular_division,
  modular_unary, relation, signed_exact, signed_exact_unary,
}
use lalvm.LowerToLlvm.Emit.{
  Runs, two_operands, Outcome, returns, raises, divide_by_zero, overflow_check, range_check,
}
use lalvm.LowerToLlvm.Operators.{
  ada_constant, opaque_value, binop, BinaryOp, UnaryOp, lt_op, eval_const_int, const_binary,
  const_operator,
}
use lalvm.LowerToLlvm.Operators.ConstEval.{eval_const_int_sound}
use lalvm.LowerToLlvm.BinOp.{lower_bin_op, integer_op}
use lalvm.LowerToLlvm.BinOp.Division.{lower_bin_op-modular_division}
use lalvm.LowerToLlvm.BinOp.Modular.{lower_bin_op-modular}
use lalvm.LowerToLlvm.BinOp.Signed.{lower_bin_op-signed}
use lalvm.LowerToLlvm.UnOp.{lower_un_op, integer_unop}
use lalvm.LowerToLlvm.UnOp.Meaning.{lower_un_op-signed, lower_un_op-modular}
use lalvm.LowerToLlvm.CmpOp.{lower_cmp_op}
use lalvm.LowerToLlvm.CmpOp.Order.{modular, lower_cmp_op-relation}
use lalvm.LowerToLlvm.Checks.{
  lower_in_range_check, range_check_op, lower_in_range_check-int, checked_operand,
}
use lalvm.Examples.{
  division_checks, word, types, overflow_checks, given, ada_module, declared, modular_info,
}

digit_modulus : types.modulus_of "digit" ≡ some (word 5 10)
unfolding modulus_of_ada_type root_of_ada_type root_from base_op lookup_ada_type lookup_symbol_from
    lookup_in_scope lookup_symbol_in type_table
digit_modulus = refl

integer_modulus : types.modulus_of "integer" ≡ none
unfolding modulus_of_ada_type root_of_ada_type root_from base_op lookup_ada_type lookup_symbol_from
    lookup_in_scope lookup_symbol_in type_table
integer_modulus = refl

-- 7 - 9 on a type of modulus 10 is 8.
lower_bin_op-modular_example :
    Runs word_machine
      (two_operands 7 9)
      (lower_bin_op llvm_ap_int types
        (integer_op BinaryOp.minus_op none 8 "digit" (opaque_value 0) (opaque_value 1)))
      (returns 8)
unfolding modular_binary
lower_bin_op-modular_example =
    lower_bin_op-modular llvm_ap_int llvm_ap_int-IsApIntLib word_machine word_machine-IsMachine
      types BinaryOp.minus_op none 8 "digit" (opaque_value 0) (opaque_value 1) (word 5 10) 7 9
      digit_modulus refl tt (omega arith) (omega arith) (omega arith) (omega arith)

-- 127 + 2 does not fit eight bits.
lower_bin_op-signed_example :
    Runs word_machine
      (two_operands 127 2)
      (lower_bin_op llvm_ap_int types (
        integer_op BinaryOp.plus_op overflow_checks 8 "integer"
          (ada_constant (word 8 127))
          (opaque_value 1)))
      (raises overflow_check)
unfolding ada_value signed_binary checked_result fits_signed signed_exact ◌+ℤ◌ signed
lower_bin_op-signed_example =
    lower_bin_op-signed llvm_ap_int llvm_ap_int-IsApIntLib word_machine word_machine-IsMachine 8 127
      2 (omega arith) (omega arith) (omega arith) types "integer" (ada_constant (word 8 127))
      (opaque_value 1) integer_modulus given ((refl, (omega arith)), tt) refl refl BinaryOp.plus_op
      overflow_checks tt

-- -(-128) does not fit either, and the magnitude of -5 is 5.
lower_un_op-signed_example :
    Runs word_machine
      (two_operands 251 0)
      (lower_un_op llvm_ap_int types
        (integer_unop UnaryOp.abs_op overflow_checks 8 "integer" (opaque_value 250)))
      (returns 5)
unfolding ada_value signed_unary checked_result fits_signed signed_exact_unary ◌-ℤ◌ signed encode
lower_un_op-signed_example =
    lower_un_op-signed llvm_ap_int llvm_ap_int-IsApIntLib word_machine word_machine-IsMachine 8 251
      (omega arith) (omega arith) types "integer" (opaque_value 250) given tt refl integer_modulus
      UnaryOp.abs_op overflow_checks

-- `not 3` on a type of modulus 10 is 6.
lower_un_op-modular_example :
    Runs word_machine
      (two_operands 3 0)
      (lower_un_op llvm_ap_int types (integer_unop UnaryOp.not_op none 8 "digit" (opaque_value 0)))
      (returns 6)
unfolding modular_unary
lower_un_op-modular_example =
    lower_un_op-modular llvm_ap_int llvm_ap_int-IsApIntLib word_machine word_machine-IsMachine 8 3
      (omega arith) (omega arith) types "digit" (opaque_value 0) (word 5 10) digit_modulus
      (omega arith) (omega arith) UnaryOp.not_op none refl

abbrev byte_type : TypeOp
byte_type = declared "byte" (int 8) (modular_info (word 9 256)) none

-- 200 is not below 3 as a byte.
lower_cmp_op-relation_example :
    Runs word_machine
      (two_operands 200 3)
      (lower_cmp_op
        (type_table 2 ada_module 0)
        (record { kind = lt_op; type = int 8; sym = "byte" }))
      (returns 0)
unfolding relation root_of_ada_type root_from base_op lookup_ada_type lookup_symbol_from
    lookup_in_scope lookup_symbol_in
lower_cmp_op-relation_example =
    lower_cmp_op-relation word_machine word_machine-IsMachine 8 200 3 (omega arith) (omega arith)
      (omega arith) 2 0 ada_module lt_op "byte" byte_type true refl
      (modular (record { modulus = some (word 9 256); lower = absent; upper = absent }) (word 9 256)
        refl)

-- -2 is outside 0 .. 100.
lower_in_range_check-int_example :
    Runs word_machine
      (checked_operand 254 0 100)
      (lower_in_range_check types (record { kind = range_check_op; type = int 8; sym = "integer" }))
      (raises range_check)
unfolding modulus_of_ada_type root_of_ada_type root_from base_op lookup_ada_type lookup_symbol_from
    lookup_in_scope lookup_symbol_in type_table signed
lower_in_range_check-int_example =
    lower_in_range_check-int word_machine word_machine-IsMachine types range_check_op 8 254 0 100
      "integer"

-- 100 + 27 is found to be 127.
eval_const_int_sound_example :
    (Path ℕ 8 8)
    × (127 < 2 ^ 8)
    × (Path Outcome
        (ada_value given 8 (
          binop BinaryOp.plus_op overflow_checks
            (ada_constant (word 8 100))
            (ada_constant (word 8 27))))
        (returns 127))
unfolding eval_const_int const_binary const_operator fits_signed ◌+ℤ◌ signed encode
eval_const_int_sound_example =
    eval_const_int_sound llvm_ap_int llvm_ap_int-IsApIntLib 8 (omega arith) given
      (binop BinaryOp.plus_op overflow_checks (ada_constant (word 8 100))
        (ada_constant (word 8 27)))
      (word 8 127) ((refl, (omega arith)), (refl, (omega arith))) refl

-- 9 / 0 raises on a modular type.
lower_bin_op-modular_division_example :
    Runs word_machine
      (two_operands 9 0)
      (lower_bin_op llvm_ap_int types
        (integer_op BinaryOp.div_op division_checks 8 "digit" (opaque_value 0) (opaque_value 1)))
      (raises divide_by_zero)
unfolding modular_division
lower_bin_op-modular_division_example =
    lower_bin_op-modular_division llvm_ap_int word_machine word_machine-IsMachine types 8 9 0
      "digit" (opaque_value 0) (opaque_value 1) (word 5 10) digit_modulus division_checks refl refl
