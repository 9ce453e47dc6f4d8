-- ===== src/Dialect/Accesses.antt =====
-- Objects and their accesses (mlir/Dialect.cpp, ObjectOp, ReadOp and WriteOp): the verifiers, and
-- what promotion to values asks of them.
use text.Mathlib.Text.{◌==◌ as str_eq}
use lalvm.Base.{Bool, true, false, Option, none, some, List, ◌&&◌, ◌||◌}
use lalvm.Llvm.{ApInt, ApIntLib}
use lalvm.Dialect.Types.{QualType, machine_eq, qual_eq, is_numeric_machine_type}
use lalvm.Dialect.Table.{TypeTable}
use lalvm.Dialect.CallOps.{qual_base}
use lalvm.Dialect.Requalify.{requalify}
use lalvm.Dialect.Defaults.{GetIntegerAttr, default_object_value}

-- An `ada.object`: the type of its value and of its initializer, and where it stands.
pub record ObjectOp : Type 0 where
  pub value_type : QualType
  pub initial : Option QualType
  pub in_subprogram : Bool
  pub in_entry_block : Bool

-- An operation on an object. A read has the type of the object and its own, a write the type of
-- the object and that of the value.
pub data Access : Type 0 where
  object : ObjectOp → Access
  read : QualType → QualType → Access
  write : QualType → QualType → Access

abbrev pub shares_machine_type : QualType → Option QualType → Bool
shares_machine_type q (some i) = machine_eq i.mlir_type q.mlir_type
shares_machine_type q none = true

abbrev pub is_base : Option QualType → QualType → Bool
is_base (some b) q = str_eq q.ada_type b.ada_type
is_base none q = false

-- ObjectOp::verifySymbolUses, of an initializer.
unfoldable pub verify_initial : TypeTable → QualType → Option QualType → Bool
verify_initial t q none = true
verify_initial t q (some i) =
    qual_eq i q || (is_base (qual_base t q) i && machine_eq i.mlir_type q.mlir_type)

-- ObjectOp::verify and verifySymbolUses.
unfoldable pub verify_object : TypeTable → ObjectOp → Bool
verify_object t o =
    o.in_subprogram
    && shares_machine_type o.value_type o.initial
    && verify_initial t o.value_type o.initial

-- ReadOp::verify and verifySymbolUses.
unfoldable pub verify_read : TypeTable → QualType → QualType → Bool
verify_read t q result =
    machine_eq result.mlir_type q.mlir_type && (qual_eq result q || is_base (qual_base t q) result)

-- WriteOp::verify.
unfoldable pub verify_write : QualType → QualType → Bool
verify_write q value = qual_eq value q

unfoldable pub verify_access : TypeTable → Access → Bool
verify_access t (object o) = verify_object t o
verify_access t (read q result) = verify_read t q result
verify_access t (write q value) = verify_write q value

-- ObjectOp::getPromotableSlots: the type of the slot.
unfoldable pub promotable_slot : TypeTable → ObjectOp → Option QualType
promotable_slot t o = elim (o.in_entry_block && is_numeric_machine_type o.value_type.mlir_type) [
  | true ↦ qual_base t o.value_type
  | false ↦ none
]

-- ObjectOp::getDefaultValue: the initializer, requalified, or a constant of the slot's type.
pub data SlotDefault : Type 0 where
  requalified_initial : List QualType → SlotDefault
  default_constant : ApInt → SlotDefault

unfoldable pub slot_default :
    ApIntLib → GetIntegerAttr → TypeTable → QualType → ObjectOp → SlotDefault
slot_default l get t slot o = elim o.initial [
  | some i ↦ requalified_initial (requalify i slot)
  | none ↦ default_constant (default_object_value l get slot.mlir_type (t.type_of slot.ada_type))
]
