-- ===== src/LowerToLlvm/CmpOp.antt =====
-- The lowering of `ada.cmp` (mlir/LowerToLLVM.cpp, CmpOpLowering).
use Prim.Native.String.{String}
use lalvm.Base.{ℕ, ◌^◌, ◌<◌, ◌≡◌, Bool, true, false, not, if◌then◌else◌, to_bit, ap, ◌∙◌, arith}
use lalvm.Llvm.{
  IntPredicate, FloatPredicate, oeq, une, olt, ole, ogt, oge, Machine, IsMachine, read_word,
}
use lalvm.Dialect.Types.{MachineType, int, float}
use lalvm.Dialect.Table.{TypeTable}
use lalvm.LowerToLlvm.Emit.{
  cmpi, cmpf, ret, Lowering, unsupported, emitted, lhs, rhs, Runs, run, two_operands, returns,
}
use lalvm.LowerToLlvm.Operators.{RelationalOp, eq_op, neq_op, lt_op, lte_op, gt_op, gte_op}
use lalvm.Ada.{relation, relation-signed_eq}
pub mod Order

-- An `ada.cmp` on operands of the machine type `type` and the Ada type `sym`.
pub record CmpOp : Type 0 where
  pub kind : RelationalOp
  pub type : MachineType
  pub sym : String

unfoldable pub int_predicate : RelationalOp → Bool → IntPredicate
int_predicate eq_op uns = IntPredicate.eq
int_predicate neq_op uns = IntPredicate.ne
int_predicate lt_op uns = if uns then IntPredicate.ult else IntPredicate.slt
int_predicate lte_op uns = if uns then IntPredicate.ule else IntPredicate.sle
int_predicate gt_op uns = if uns then IntPredicate.ugt else IntPredicate.sgt
int_predicate gte_op uns = if uns then IntPredicate.uge else IntPredicate.sge

unfoldable pub float_predicate : RelationalOp → FloatPredicate
float_predicate eq_op = oeq
float_predicate neq_op = une
float_predicate lt_op = olt
float_predicate lte_op = ole
float_predicate gt_op = ogt
float_predicate gte_op = oge

unfoldable pub lower_cmp_op : TypeTable → CmpOp → Lowering
lower_cmp_op t op = elim op.type [
  | int w ↦ emitted (ret (cmpi (int_predicate op.kind (t.unsigned_order op.sym)) w lhs rhs))
  | float w ↦ emitted (ret (cmpf (float_predicate op.kind) w lhs rhs))
  | _ ↦ unsupported
]

module _ (m : Machine) (machine : IsMachine m) (w a b : ℕ) (wide : 0 < w) (ha : a < 2 ^ w)
    (hb : b < 2 ^ w) where
  -- The predicate of a comparison tells the relation of the integers, in either order.
  pub predicate_lem :
      (k : RelationalOp) (uns : Bool)
      → m.compare_int (int_predicate k uns) w a b
        ≡ relation k (read_word uns w a) (read_word uns w b)
  unfolding int_predicate relation
  predicate_lem eq_op true = machine.eq_lem w a b ∙ ground arith
  predicate_lem eq_op false = machine.eq_lem w a b ∙ relation-signed_eq w a b wide ha hb
  predicate_lem neq_op true = machine.ne_lem w a b ∙ ground arith
  predicate_lem neq_op false = machine.ne_lem w a b ∙ ap not (relation-signed_eq w a b wide ha hb)
  predicate_lem lt_op true = machine.ult_lem w a b ∙ ground arith
  predicate_lem lt_op false = machine.slt_lem w a b
  predicate_lem lte_op true = machine.ule_lem w a b ∙ ground arith
  predicate_lem lte_op false = machine.sle_lem w a b
  predicate_lem gt_op true = machine.ugt_lem w a b ∙ ground arith
  predicate_lem gt_op false = machine.sgt_lem w a b
  predicate_lem gte_op true = machine.uge_lem w a b ∙ ground arith
  predicate_lem gte_op false = machine.sge_lem w a b
