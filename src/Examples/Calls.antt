-- ===== src/Examples/Calls.antt =====
-- The theorems on calls, at a procedure with a formal of each mode and a capture.
use lalvm.Base.{ℕ, Bool, true, false, none, some, List, [], ◌∷◌, ◌≡◌, refl, ◌↔◌, ◌+◌}
use lalvm.Base.Int.{pos}
use lalvm.Base.Lists.{length, get_elem?}
use lalvm.Llvm.Instance.{llvm_ap_int}
use lalvm.Dialect.Types.{
  int, QualType, TypeOp, machine_eq, qual_eq, static_bounds, static_lower, static_upper,
}
use lalvm.Dialect.Scopes.{lookup_ada_type, lookup_symbol_from, lookup_in_scope, lookup_symbol_in}
use lalvm.Dialect.Table.{base_op, type_table, base_of_ada_type}
use lalvm.Dialect.Subprograms.{
  IrType, qual_type, ref_type, ir_eq, in_mode, in_out_mode, out_mode, mode_attr, unit_attr,
  get_attr, erase_attr, SubpOp, num_source_formals, formal_mode, formal_needs_input,
  has_default_value, verify_subp, verify_arguments, no_references,
}
use lalvm.Dialect.CallOps.{
  Value, CallOp, dense_i32, no_indices, verify_call, verify_symbol_uses, verify_inputs,
  verify_writable, verify_reference, verify_value, advance, qual_base, has_dynamic_range,
  are_increasing, map_each_operand, mark, mark_index, mark_all, is_permutation,
}
use lalvm.Dialect.CallOps.Order.{is_permutation_lem, IsPermutation}
use lalvm.Calls.{
  Signature, success, map_signature, map_formals, map_captures, formal_type, add_formal,
  not_module_level,
}
use lalvm.Calls.Caller.{call_inputs, outputs_after, copy_back, actual_order, operand_of}
use lalvm.Calls.Callee.{bind_arguments, lower_return}
use lalvm.Calls.Snapshots.{copied_in}
use lalvm.Calls.CopyBack.{writes_of, copy_back-lower_return}
use lalvm.Calls.Errors.{is_malformed, map_signature-verify_subp}
use lalvm.Calls.Arguments.{call_inputs-bind_arguments}
use lalvm.Examples.{types, ada_module}

abbrev integer : QualType
integer = record { mlir_type = int 8; ada_type = "integer" }

abbrev natural : QualType
natural = record { mlir_type = int 8; ada_type = "natural" }

-- procedure P (A : Integer; B : in out Natural; C : out Integer), with a captured reference.
abbrev procedure : SubpOp
procedure = record {
  sym_name = "p";
  arguments =
      record { type = qual_type integer; attrs = [] }
      ∷ record { type = ref_type natural; attrs = ("ada.mode", mode_attr in_out_mode) ∷ [] }
      ∷ record { type = ref_type integer; attrs = ("ada.mode", mode_attr out_mode) ∷ [] }
      ∷ record { type = ref_type integer; attrs = ("ada.capture", unit_attr) ∷ [] }
      ∷ [];
  results = [];
  result_attrs = none;
  in_module = true;
}

abbrev at : ℕ → IrType → Value
at id type = record { id = id; type = type }

-- P (C => Z, A => X, B => Y)
abbrev call : CallOp
call = record {
  result = none;
  inputs =
      at 1 (qual_type integer)
      ∷ at 2 (ref_type natural)
      ∷ at 3 (ref_type integer)
      ∷ at 4 (ref_type integer)
      ∷ [];
  initial_values = at 5 (qual_type natural) ∷ [];
  copyback_ranges = [];
  actual_order = dense_i32 (pos 2 ∷ pos 0 ∷ pos 1 ∷ []);
  initial_formals = dense_i32 (pos 1 ∷ []);
  range_formals = no_indices;
  arg_attrs = none;
  res_attrs = none;
}

abbrev defaults : TypeOp → Bool
defaults = has_default_value 2 (base_op ada_module)

abbrev dynamic : TypeOp → Bool
dynamic = has_dynamic_range llvm_ap_int

call_verified : verify_call call ≡ true
unfolding verify_call length map_each_operand are_increasing is_permutation mark_all mark_index mark
call_verified = refl

uses_verified : verify_symbol_uses types types defaults dynamic call procedure ≡ true
unfolding verify_symbol_uses length num_source_formals get_attr verify_inputs verify_writable
    verify_reference verify_value advance formal_mode ir_eq qual_eq machine_eq qual_base
    formal_needs_input base_of_ada_type lookup_ada_type lookup_symbol_from lookup_in_scope
    lookup_symbol_in type_table has_dynamic_range static_bounds static_lower static_upper
    has_default_value base_op
uses_verified = refl

subp_verified : verify_subp procedure ≡ true
unfolding verify_subp verify_arguments no_references get_attr formal_mode
subp_verified = refl

abbrev signature : Signature
signature = record {
  formals =
      record { type = qual_type integer; base = none; mode = in_mode; input = some 0 }
      ∷ record { type = qual_type natural; base = some integer; mode = in_out_mode; input = some 1 }
      ∷ record { type = qual_type integer; base = some integer; mode = out_mode; input = none }
      ∷ [];
  inputs = qual_type integer ∷ qual_type natural ∷ ref_type integer ∷ [];
  results = qual_type integer ∷ qual_type integer ∷ [];
  input_attrs = [] ∷ [] ∷ [] ∷ [];
  result_attrs = [] ∷ [] ∷ [];
}

procedure_mapped : map_signature types defaults procedure ≡ success signature
unfolding map_signature map_formals map_captures formal_type add_formal num_source_formals get_attr
    formal_mode formal_needs_input length qual_base base_of_ada_type lookup_ada_type
    lookup_symbol_from lookup_in_scope lookup_symbol_in type_table has_default_value base_op
    erase_attr
procedure_mapped = refl

call_inputs-bind_arguments_example :
    (inputs : List Value) × (call_inputs signature.formals call.inputs call.initial_values
      ≡ some inputs)
    × (bind_arguments signature.formals inputs
        ≡ some (
            copied_in 0
              (num_source_formals procedure.arguments)
              procedure.arguments
              call.inputs
              (pos 1 ∷ [])
              call.initial_values))
call_inputs-bind_arguments_example =
    call_inputs-bind_arguments types types defaults dynamic call procedure signature call_verified
      uses_verified procedure_mapped

abbrev content : ℕ → Value
content i = at (10 + i) (qual_type integer)

copy_back-lower_return_example :
    writes_of 1 (
      copy_back
        (actual_order call (length signature.formals))
        (outputs_after 0 signature.formals (lower_return content signature.formals []))
        call.inputs
        []
        [])
    ≡ record { formal = 1; value = content 1; range = none; reference = at 2 (ref_type natural) }
      ∷ []
unfolding is_permutation mark_all mark_index mark length get_elem? operand_of
copy_back-lower_return_example =
    copy_back-lower_return call signature.formals content [] call.inputs [] 1
      (record { type = qual_type natural; base = some integer; mode = in_out_mode; input = some 1 })
      (at 2 (ref_type natural)) refl refl refl refl

is_permutation_lem_example :
    (is_permutation (pos 2 ∷ pos 0 ∷ pos 1 ∷ []) ≡ true)
    ↔ IsPermutation (pos 2 ∷ pos 0 ∷ pos 1 ∷ [])
is_permutation_lem_example = is_permutation_lem (pos 2 ∷ pos 0 ∷ pos 1 ∷ [])

abbrev nested : SubpOp
nested = record procedure { in_module = false }

map_signature-verify_subp_example : is_malformed not_module_level ≡ false
unfolding map_signature verify_subp verify_arguments no_references get_attr formal_mode
map_signature-verify_subp_example =
    map_signature-verify_subp types defaults nested not_module_level refl refl
