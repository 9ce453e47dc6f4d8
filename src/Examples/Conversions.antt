-- ===== src/Examples/Conversions.antt =====
-- The theorems on conversions, at concrete values.
use Prim.Native.String.{String}
use lalvm.Base.{refl, sym, ap, Bool, true, false, none, some, Option, arith}
use lalvm.Base.Words.{signed, fits_signed}
use lalvm.Llvm.{ApsInt, value}
use lalvm.Llvm.Instance.{llvm_ap_int, llvm_ap_int-IsApIntLib, word_machine, word_machine-IsMachine}
use lalvm.Dialect.Types.{
  int, absent, static, dynamic, static_bounds, static_lower, static_upper, machine_eq, qual_eq,
}
use lalvm.Dialect.Table.{
  type_table, base_of_ada_type, base_op, root_from, root_of_ada_type, modulus_of_ada_type,
  int_type_info_of_ada_type,
}
use lalvm.Dialect.Scopes.{lookup_ada_type, lookup_symbol_from, lookup_in_scope, lookup_symbol_in}
use lalvm.LowerToLlvm.Emit.{returns, raises, range_check}
use lalvm.Conversions.{ConvertOp, representation_change, same_representation}
use lalvm.Conversions.Meaning.{Converts, int_qual, IsInput}
use lalvm.Conversions.Ranges.{in_word, within}
use lalvm.Conversions.Change.{representation_change-exact}
use lalvm.Conversions.SameRepresentation.{same_representation-static, same_representation-dynamic}
use lalvm.Examples.{word, types, declared, range_info}

-- An opaque integer converted to a type.
abbrev convert : String → String → Bool → ConvertOp
convert from to has_range = record {
  source = int_qual 8 from;
  target = int_qual 8 to;
  known_value = none;
  has_range = has_range;
}

-- The bounds of Integer hold -3.
abbrev bounds_hold : Option (ApsInt × ApsInt) → Bool
bounds_hold (some p) = within (value p.0) (value p.1) (signed 8 253)
bounds_hold none = true

-- -3 is a value of Integer.
integer-IsInput :
    (to : String) (has_range : Bool)
    → IsInput llvm_ap_int types (convert "integer" to has_range) (signed 8 253)
unfolding signed type_table int_type_info_of_ada_type lookup_ada_type lookup_symbol_from
    lookup_in_scope lookup_symbol_in static_bounds static_lower static_upper
integer-IsInput to has_range = record {
  constant = λ v e. (cc);
  in_type = λ a b e. sym (ap bounds_hold e);
}

-- -3 does not convert to a type of modulus 10.
representation_change-exact_example :
    Converts llvm_ap_int word_machine types 0 0
      (int_qual 8 "integer")
      253
      (representation_change llvm_ap_int types (convert "integer" "digit" false))
      (raises range_check)
unfolding signed type_table modulus_of_ada_type root_of_ada_type root_from base_op base_of_ada_type
    int_type_info_of_ada_type lookup_ada_type lookup_symbol_from lookup_in_scope lookup_symbol_in
    static_bounds static_lower static_upper machine_eq in_word
representation_change-exact_example =
    representation_change-exact llvm_ap_int llvm_ap_int-IsApIntLib word_machine
      word_machine-IsMachine types 0 0 8 8 (omega arith) (omega arith) "integer" "digit" "integer"
      "digit" none false 253 (omega arith) (word 5 0) (word 5 9) refl refl refl refl refl
      (record { modulus = some (word 5 10); lower = absent; upper = absent }) refl refl
      (integer-IsInput "digit" false)

-- -3 is not a Natural.
same_representation-static_example :
    Converts llvm_ap_int word_machine types 0 0
      (int_qual 8 "integer")
      253
      (same_representation llvm_ap_int types (convert "integer" "natural" false))
      (raises range_check)
unfolding signed type_table modulus_of_ada_type root_of_ada_type root_from base_op base_of_ada_type
    int_type_info_of_ada_type lookup_ada_type lookup_symbol_from lookup_in_scope lookup_symbol_in
    static_bounds static_lower static_upper qual_eq machine_eq in_word fits_signed
same_representation-static_example =
    same_representation-static llvm_ap_int llvm_ap_int-IsApIntLib word_machine
      word_machine-IsMachine types 0 0 8 (omega arith) "integer" "natural" none false 253
      (declared "natural" (int 8) (range_info (static (word 1 0)) (static (word 8 127)))
        (some "integer"))
      refl refl refl
      (record { modulus = none; lower = static (word 1 0); upper = static (word 8 127) }) refl
      (word 1 0) (word 8 127) refl refl refl (integer-IsInput "natural" false)

-- 7 is within 0 .. 10.
same_representation-dynamic_example :
    Converts llvm_ap_int word_machine types 0 10
      (int_qual 8 "integer")
      7
      (same_representation llvm_ap_int types (convert "integer" "count" true))
      (returns 7)
unfolding signed type_table modulus_of_ada_type root_of_ada_type root_from base_op base_of_ada_type
    lookup_ada_type lookup_symbol_from lookup_in_scope lookup_symbol_in static_bounds static_lower
    static_upper qual_eq machine_eq
same_representation-dynamic_example =
    same_representation-dynamic llvm_ap_int llvm_ap_int-IsApIntLib word_machine
      word_machine-IsMachine types 0 10 8 (omega arith) "integer" "count" none true 7
      (declared "count" (int 8) (range_info (static (word 1 0)) dynamic) (some "integer")) refl refl
      refl (record { modulus = none; lower = static (word 1 0); upper = dynamic }) refl refl refl
