-- ===== src/Dialect/CallOps.antt =====
-- Calls of the dialect (mlir/Dialect.cpp, CallOp::verify and CallOp::verifySymbolUses): operands,
-- and the indices that map them to formals.
use Prim.Native.String.{String}
use lalvm.Base.{
  ℕ, zero, suc, ◌+◌, Bool, true, false, not, Option, none, some, List, [], ◌∷◌, ◌&&◌, ◌||◌, ◌==◌,
  ltb, map, bool_eq,
}
use lalvm.Base.Int.{ℤ, pos, negsuc, ltb_ℤ}
use lalvm.Base.Lists.{length, get_elem?}
use lalvm.Llvm.{ApIntLib}
use lalvm.Dialect.Types.{QualType, TypeOp, integer_type_info, static_bounds, qual_eq, machine_eq}
use lalvm.Dialect.Table.{TypeTable}
use lalvm.Dialect.Subprograms.{
  IrType, qual_type, plain_type, ref_type, range_type, ir_eq, is_ref, ParamMode, in_mode,
  in_out_mode, out_mode, Argument, SubpOp, Defaults, num_source_formals, formal_mode, is_writable,
  formal_needs_input, is_procedure, is_function,
}
pub mod Order

-- An SSA value, with its type.
pub record Value : Type 0 where
  pub id : ℕ
  pub type : IrType

-- An attribute that should be a dense i32 array: absent, an array, or anything else.
pub data Indices : Type 0 where
  no_indices : Indices
  dense_i32 : List ℤ → Indices
  other_indices : Indices

-- An `ada.call`, with the numbers of its argument and result attributes where it has them.
pub record CallOp : Type 0 where
  pub result : Option IrType
  pub inputs : List Value
  pub initial_values : List Value
  pub copyback_ranges : List Value
  pub actual_order : Indices
  pub initial_formals : Indices
  pub range_formals : Indices
  pub arg_attrs : Option ℕ
  pub res_attrs : Option ℕ

abbrev pub is_dense : Indices → Bool
is_dense no_indices = true
is_dense (dense_i32 is) = true
is_dense other_indices = false

-- getAttrOfType<DenseI32ArrayAttr>, as a list that is empty where there is none.
abbrev pub index_list : Indices → List ℤ
index_list no_indices = []
index_list (dense_i32 is) = is
index_list other_indices = []

-- Each index is above the one before and below the number of inputs.
unfoldable pub are_increasing : ℤ → ℕ → List ℤ → Bool
are_increasing previous count [] = true
are_increasing previous count (i ∷ rest) =
    ltb_ℤ previous i && ltb_ℤ i (pos count) && are_increasing i count rest

unfoldable pub map_each_operand : Indices → ℕ → ℕ → Bool
map_each_operand no_indices operands count = operands == 0
map_each_operand other_indices operands count = operands == 0
map_each_operand (dense_i32 is) operands count =
    (length is == operands) && are_increasing (negsuc 0) count is

-- `seen[index] = true`, where the index is in range and not seen; `none` is the error.
unfoldable pub mark : ℕ → List Bool → Option (List Bool)
mark i [] = none
mark zero (true ∷ seen) = none
mark zero (false ∷ seen) = some (true ∷ seen)
mark (suc i) (b ∷ seen) = elim (mark i seen) [ some marked ↦ some (b ∷ marked) | none ↦ none ]

unfoldable pub mark_index : ℤ → List Bool → Option (List Bool)
mark_index (pos i) seen = mark i seen
mark_index (negsuc i) seen = none

unfoldable pub mark_all : List ℤ → List Bool → Option (List Bool)
mark_all [] seen = some seen
mark_all (i ∷ rest) seen = elim (mark_index i seen) [
  | some marked ↦ mark_all rest marked
  | none ↦ none
]

abbrev pub is_some {ℓ} : {A : Type ℓ} → Option A → Bool
is_some (some a) = true
is_some none = false

-- The check of `ada.actual_order`.
unfoldable pub is_permutation : List ℤ → Bool
is_permutation order = is_some (mark_all order (map (λ i. false) order))

abbrev pub verify_order : Indices → Bool
verify_order no_indices = true
verify_order (dense_i32 order) = is_permutation order
verify_order other_indices = true

abbrev pub matches : Option ℕ → ℕ → Bool
matches (some n) count = n == count
matches none count = true

abbrev pub is_ref_result : Option IrType → Bool
is_ref_result (some t) = is_ref t
is_ref_result none = false

abbrev pub result_count : Option IrType → ℕ
result_count (some t) = 1
result_count none = 0

-- CallOp::verify.
unfoldable pub verify_call : CallOp → Bool
verify_call op =
    not (is_ref_result op.result)
    && is_dense op.actual_order
    && is_dense op.initial_formals
    && is_dense op.range_formals
    && matches op.arg_attrs (length op.inputs)
    && matches op.res_attrs (result_count op.result)
    && map_each_operand op.initial_formals (length op.initial_values) (length op.inputs)
    && map_each_operand op.range_formals (length op.copyback_ranges) (length op.inputs)
    && verify_order op.actual_order

abbrev pub is_index : ℕ → List ℤ → Bool
is_index i [] = false
is_index i (pos j ∷ rest) = i == j
is_index i (negsuc j ∷ rest) = false

abbrev pub rest_if {ℓ} : {A : Type ℓ} → Bool → List A → List A
rest_if taken [] = []
rest_if taken (x ∷ xs) = elim taken [ true ↦ xs | false ↦ x ∷ xs ]

-- baseOfAdaType of a qualified type.
unfoldable pub qual_base : TypeTable → QualType → Option QualType
qual_base t q = elim (t.base_of q.ada_type) [
  | some b ↦ some (record { mlir_type = q.mlir_type; ada_type = b })
  | none ↦ none
]

-- `!base || base != baseOfAdaType(actual)` does not hold.
abbrev pub same_base : Option QualType → Option QualType → Bool
same_base (some a) (some b) = qual_eq a b
same_base (some a) none = false
same_base none b = false

abbrev pub snapshot_type : ParamMode → QualType → Option QualType → Option IrType
snapshot_type in_out_mode q base = some (qual_type q)
snapshot_type in_mode q (some base) = some (qual_type base)
snapshot_type in_mode q none = none
snapshot_type out_mode q (some base) = some (qual_type base)
snapshot_type out_mode q none = none

abbrev pub has_type : Option IrType → List Value → Bool
has_type (some t) (v ∷ vs) = ir_eq v.type t
has_type (some t) [] = false
has_type none vs = false

-- TypeOp::hasDynamicRange.
unfoldable pub has_dynamic_range : ApIntLib → TypeOp → Bool
has_dynamic_range l t = elim (integer_type_info t.type_info) [
  | some info ↦ elim (static_bounds l info) [ some b ↦ false | none ↦ true ]
  | none ↦ false
]

abbrev pub describes : QualType → List Value → Bool
describes q [] = false
describes q (v ∷ vs) = ir_eq v.type (range_type q.mlir_type q.ada_type)

abbrev pub needs_range : TypeTable → (TypeOp → Bool) → QualType → Bool
needs_range t dynamic q = elim (t.type_of q.ada_type) [ some op ↦ dynamic op | none ↦ false ]

-- What is left of the snapshots and ranges, with their indices.
pub record Pending : Type 0 where
  pub initial_indices : List ℤ
  pub initial_values : List Value
  pub range_indices : List ℤ
  pub ranges : List Value

abbrev pub has_initial : ℕ → Pending → Bool
has_initial i p = is_index i p.initial_indices

abbrev pub has_range : ℕ → Pending → Bool
has_range i p = is_index i p.range_indices

-- `initialPos++` and `rangePos++`.
unfoldable pub advance : ℕ → Pending → Pending
advance i p = record {
  initial_indices = rest_if (has_initial i p) p.initial_indices;
  initial_values = rest_if (has_initial i p) p.initial_values;
  range_indices = rest_if (has_range i p) p.range_indices;
  ranges = rest_if (has_range i p) p.ranges;
}

-- A value or capture argument.
unfoldable pub verify_value : ℕ → IrType → IrType → Pending → Bool
verify_value i formal actual p = ir_eq actual formal && not (has_initial i p) && not (has_range i p)

abbrev result_agrees : Option IrType → List IrType → Bool
result_agrees none [] = true
result_agrees (some t) (r ∷ []) = ir_eq t r
result_agrees (some t) [] = false
result_agrees none (r ∷ []) = false
result_agrees result (r ∷ s ∷ rest) = elim result [ some t ↦ ir_eq t r | none ↦ true ]

abbrev pub covers : Indices → ℕ → Bool
covers (dense_i32 order) count = length order == count
covers no_indices count = true
covers other_indices count = true

abbrev pub pending : CallOp → Pending
pending op = record {
  initial_indices = index_list op.initial_formals;
  initial_values = op.initial_values;
  range_indices = index_list op.range_formals;
  ranges = op.copyback_ranges;
}

-- A writable argument. `table` and `callee_table` resolve types at the call and at the callee.
module _ (table callee_table : TypeTable) (defaults dynamic : TypeOp → Bool) where
  unfoldable pub verify_reference : ℕ → Bool → ParamMode → IrType → IrType → Pending → Bool
  verify_reference i needed mode (ref_type formal) (ref_type actual) p =
      same_base (qual_base table formal) (qual_base table actual)
      && bool_eq (has_initial i p) needed
      && (not (has_initial i p)
          || has_type (snapshot_type mode formal (qual_base table formal)) p.initial_values)
      && bool_eq (has_range i p) (needs_range table dynamic actual)
      && (not (has_range i p) || describes actual p.ranges)
  verify_reference i needed mode formal actual p = false

  unfoldable pub verify_writable : ℕ → Argument → IrType → Pending → Bool
  verify_writable i formal actual p =
      verify_reference i (formal_needs_input callee_table defaults formal) (formal_mode formal)
        formal.type actual p

  -- The loop over the inputs, from `i` on, of which `sources` are still source formals, and the
  -- test after it.
  unfoldable pub verify_inputs : ℕ → ℕ → List Argument → List Value → Pending → Bool
  verify_inputs i sources [] [] p = (length p.initial_values == 0) && (length p.ranges == 0)
  verify_inputs i sources [] (v ∷ vs) p = false
  verify_inputs i sources (a ∷ rest) [] p = false
  verify_inputs i zero (a ∷ rest) (v ∷ vs) p =
      verify_value i a.type v.type p && verify_inputs (suc i) zero rest vs p
  verify_inputs i (suc n) (a ∷ rest) (v ∷ vs) p = elim (is_writable (formal_mode a)) [
    | true ↦ verify_writable i a v.type p && verify_inputs (suc i) n rest vs (advance i p)
    | false ↦ verify_value i a.type v.type p && verify_inputs (suc i) n rest vs p
  ]

  -- CallOp::verifySymbolUses, of a call of this subprogram.
  unfoldable pub verify_symbol_uses : CallOp → SubpOp → Bool
  verify_symbol_uses op subp =
      result_agrees op.result subp.results
      && (length op.inputs == length subp.arguments)
      && covers op.actual_order (num_source_formals subp.arguments)
      && verify_inputs 0 (num_source_formals subp.arguments) subp.arguments op.inputs (pending op)
