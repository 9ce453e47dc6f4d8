-- ===== src/References.antt =====
-- Lowering objects and their accesses to storage (mlir/LowerAdaReferences.cpp, ObjectOpLowering,
-- ReadOpLowering and WriteOpLowering).
use lalvm.Base.{Bool, true, false, Option, none, some, List, [], ◌∷◌, ◌++◌, map, if◌then◌else◌}
use lalvm.Dialect.Types.{QualType, qual_eq}
use lalvm.Dialect.Table.{TypeTable}
use lalvm.Dialect.CallOps.{qual_base}
use lalvm.Dialect.Requalify.{requalify, verify_requalify}
use lalvm.Dialect.Accesses.{ObjectOp, Access, object, read, write}
pub mod Typed

-- The operations that the patterns emit, by the type of the element of the slot, or of the result.
pub data MemOp : Type 0 where
  alloca : QualType → MemOp
  store : QualType → MemOp
  load : QualType → MemOp
  requalify_to : QualType → MemOp

abbrev pub requalify_ops : QualType → QualType → List MemOp
requalify_ops from to = map requalify_to (requalify from to)

-- The type converter on `!ada.ref`: the element of the memref, where the base resolves.
unfoldable pub slot_element : TypeTable → QualType → Option QualType
slot_element t q = qual_base t q

abbrev pub store_initial : Option QualType → QualType → List MemOp
store_initial (some i) e = requalify_ops i e ++ (store e ∷ [])
store_initial none e = []

-- ObjectOpLowering, ReadOpLowering and WriteOpLowering, on a slot with elements of type `e`.
unfoldable pub lower_object : ObjectOp → QualType → List MemOp
lower_object o e = alloca e ∷ store_initial o.initial e

unfoldable pub lower_read : QualType → QualType → List MemOp
lower_read result e = load e ∷ requalify_ops e result

unfoldable pub lower_write : QualType → QualType → List MemOp
lower_write value e = requalify_ops value e ++ (store e ∷ [])

abbrev pub element_of : Access → QualType
element_of (object o) = o.value_type
element_of (read q result) = q
element_of (write q value) = q

abbrev pub lower_to : Access → QualType → List MemOp
lower_to (object o) e = lower_object o e
lower_to (read q result) e = lower_read result e
lower_to (write q value) e = lower_write value e

-- The pattern of an operation; `none` where the type of its reference is not converted.
unfoldable pub lower_access : TypeTable → Access → Option (List MemOp)
lower_access t a = elim (slot_element t (element_of a)) [
  | some e ↦ some (lower_to a e)
  | none ↦ none
]
