-- ===== src/Indexing.antt =====
-- The lowering of `ada.index` (mlir/LowerAdaIndexing.cpp): an index check where one is needed, and
-- the offset of the component.
use Prim.Native.String.{String}
use lalvm.Base.{
  ℕ, suc, ◌+◌, Bool, true, false, not, Option, none, some, List, [], ◌∷◌, if◌then◌else◌, ◌&&◌, ltb,
}
use lalvm.Llvm.{ApInt, ApsInt, ApIntLib, extsi, extui, subi}
use lalvm.Dialect.Types.{
  MachineType, QualType, ArrayTypeInfo, array_info, TypeInfo, Bound, integer_attr, bound_value,
  bit_width,
}
use lalvm.Dialect.Bounds.{in_static_range, is_eq}
use lalvm.Dialect.Table.{TypeTable}
use lalvm.LowerToLlvm.Emit.{Val, arith_op, cast, int_const, lhs}
use lalvm.Conversions.{info_bounds}
pub mod Offset

-- What defines the index: an `ada.index_check` against a range with these static bounds, an
-- `ada.constant` with this integer value, or anything else.
pub data IndexValue : Type 0 where
  checked_index : Option ApInt → Option ApInt → IndexValue
  constant_index : Option ApsInt → IndexValue
  other_index : IndexValue

-- An `ada.index`; `array_type` is the Ada type of the array object.
pub record IndexOp : Type 0 where
  pub index : QualType
  pub array_type : Option String
  pub value : IndexValue
  pub has_offset : Bool

-- The static bounds of the first dimension, with its index type.
pub record Dimension : Type 0 where
  pub index_type : String
  pub lower : ApInt
  pub upper : ApInt

abbrev pub first_dimension : List String → List Bound → List Bound → Option Dimension
first_dimension (i ∷ is) (lo ∷ los) (hi ∷ his) = elim (integer_attr lo) [
  | none ↦ none
  | some a ↦ elim (integer_attr hi) [
    | none ↦ none
    | some b ↦ some (record { index_type = i; lower = a; upper = b })
  ]
]
first_dimension is los his = none

abbrev pub array_dimension : Option TypeInfo → Option Dimension
array_dimension (some (array_info a)) = first_dimension a.index_types a.lower_bounds a.upper_bounds
array_dimension _ = none

-- staticArrayInfo.
unfoldable pub static_array_info : TypeTable → IndexOp → Option Dimension
static_array_info t op = elim op.array_type [
  | some sym ↦ array_dimension (t.root_info_of sym)
  | none ↦ none
]

-- A check that is there already has the same bounds.
unfoldable pub same_bounds : ApIntLib → Option ApInt → Option ApInt → ApsInt → ApsInt → Bool
same_bounds l (some lo) (some hi) lower upper =
    is_eq (l.compare_values (bound_value lo) lower)
    && is_eq (l.compare_values (bound_value hi) upper)
same_bounds l (some lo) none lower upper = false
same_bounds l none hi lower upper = false

unfoldable pub type_within : ApIntLib → Option (ApsInt × ApsInt) → ApsInt → ApsInt → Bool
type_within l (some b) lower upper =
    in_static_range l b.0 lower upper && in_static_range l b.1 lower upper
type_within l none lower upper = false

-- Whether the index needs no check of its own.
unfoldable pub is_checked : ApIntLib → TypeTable → IndexOp → ApsInt → ApsInt → Bool
is_checked l t op lower upper =
    let in_type = type_within l (info_bounds l (t.int_info_of op.index.ada_type)) lower upper in
    elim op.value [
      | checked_index lo hi ↦ if same_bounds l lo hi lower upper then true else in_type
      | constant_index (some v) ↦ in_static_range l v lower upper
      | constant_index none ↦ false
      | other_index ↦ in_type
    ]

-- The `ada.index_check` that is put before an index: the machine type of its result and of its range,
-- and the bounds of the range.
pub record IndexCheck : Type 0 where
  pub machine : MachineType
  pub lower : ApInt
  pub upper : ApInt

-- What an `ada.index` becomes: the check, if any, and the offset.
pub data IndexRewrite : Type 0 where
  match_failure : IndexRewrite
  asserts : IndexRewrite
  indexed : Option IndexCheck → Val → IndexRewrite

abbrev max : ℕ → ℕ → ℕ
max a b = if ltb a b then b else a

unfoldable pub wide_width : QualType → ℕ
wide_width q = max 64 (bit_width q.mlir_type + 1)

-- The index, which is the operand, in the wide type, less the lower bound.
unfoldable pub offset_value : ApIntLib → TypeTable → IndexOp → ApInt → Val
offset_value l t op lower =
    let ww = wide_width op.index in
    arith_op subi ww
      (cast (if t.unsigned_order op.index.ada_type then extui else extsi)
        (bit_width op.index.mlir_type) ww lhs)
      (int_const ww (l.ext_or_trunc (bound_value lower) ww).bits)

-- The machine type is that of the index subtype, which is looked up without a test once its base has
-- resolved.
unfoldable pub with_check : ApIntLib → TypeTable → IndexOp → Dimension → IndexRewrite
with_check l t op d =
    if is_checked l t op (bound_value d.lower) (bound_value d.upper)
    then indexed none (offset_value l t op d.lower)
    else elim (t.base_of d.index_type) [
      | none ↦ match_failure
      | some base ↦ elim (t.type_of d.index_type) [
        | none ↦ asserts
        | some subtype ↦
            indexed
              (some (record { machine = subtype.mlir_type; lower = d.lower; upper = d.upper }))
              (offset_value l t op d.lower)
      ]
    ]

-- IndexOpLowering::matchAndRewrite.
unfoldable pub lower_index : ApIntLib → TypeTable → IndexOp → IndexRewrite
lower_index l t op =
    if op.has_offset
    then match_failure
    else elim (static_array_info t op) [ some d ↦ with_check l t op d | none ↦ match_failure ]
