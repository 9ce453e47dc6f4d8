-- ===== src/LowerToLlvm/Emit.antt =====
-- What the lowering patterns of mlir/LowerToLLVM.cpp emit for one operation: a chain of guarded
-- raises, then a value, over the operands that the pattern is given; and what such code does.
use lalvm.Base.{ℕ, zero, suc, ◌==◌, if◌then◌else◌, to_bit}
use lalvm.Llvm.{
  BinArith, FloatArith, FloatUnary, IntPredicate, FloatPredicate, CastOp, OverflowOp, Machine,
}

-- Emitted values. `operand i` is the i-th converted operand, `extract i` a field of the lowered
-- range descriptor; the number after an operation is the width of its operands.
pub data Val : Type 0 where
  operand : ℕ → Val
  extract : ℕ → Val
  int_const : ℕ → ℕ → Val
  arith_op : BinArith → ℕ → Val → Val → Val
  cmpi : IntPredicate → ℕ → Val → Val → Val
  cast : CastOp → ℕ → ℕ → Val → Val
  select : Val → Val → Val → Val
  overflow_result : OverflowOp → ℕ → Val → Val → Val
  overflow_flag : OverflowOp → ℕ → Val → Val → Val
  float_op : FloatArith → ℕ → Val → Val → Val
  float_un : FloatUnary → ℕ → Val → Val
  cmpf : FloatPredicate → ℕ → Val → Val → Val

-- The GNAT runtime entry points that raise Constraint_Error.
pub data Entry : Type 0 where
  overflow_check divide_by_zero range_check index_check : Entry

-- `raise_if cond entry rest` is what emitConstraintRaise emits: a branch to a block that calls the
-- entry point and ends there, or on to the continuation.
pub data Code : Type 0 where
  ret : Val → Code
  raise_if : Val → Entry → Code → Code

-- A lowering helper does not apply, fails, ends the compiler in a failed cast, or replaces the
-- operation.
pub data Lowering : Type 0 where
  inapplicable : Lowering
  unsupported : Lowering
  asserts : Lowering
  emitted : Code → Lowering

pub record Env : Type 0 where
  pub operands : ℕ → ℕ
  pub low : ℕ
  pub high : ℕ

pub data Outcome : Type 0 where
  returns : ℕ → Outcome
  raises : Entry → Outcome

abbrev pub descriptor_field : Env → ℕ → ℕ
descriptor_field e zero = e.low
descriptor_field e (suc i) = e.high

unfoldable pub eval : Machine → Env → Val → ℕ
eval m e (operand i) = e.operands i
eval m e (extract i) = descriptor_field e i
eval m e (int_const w n) = n
eval m e (arith_op o w a b) = m.binary o w (eval m e a) (eval m e b)
eval m e (cmpi p w a b) = to_bit (m.compare_int p w (eval m e a) (eval m e b))
eval m e (cast c w v a) = m.cast c w v (eval m e a)
eval m e (select c a b) = if eval m e c == 1 then eval m e a else eval m e b
eval m e (overflow_result o w a b) = (m.with_overflow o w (eval m e a) (eval m e b)).0
eval m e (overflow_flag o w a b) = to_bit (m.with_overflow o w (eval m e a) (eval m e b)).1
eval m e (float_op o w a b) = m.float_binary o w (eval m e a) (eval m e b)
eval m e (float_un o w a) = m.float_unary o w (eval m e a)
eval m e (cmpf p w a b) = to_bit (m.compare_float p w (eval m e a) (eval m e b))

unfoldable pub run : Machine → Env → Code → Outcome
unfolding eval
run m e (ret v) = returns (eval m e v)
run m e (raise_if c entry rest) = if eval m e c == 1 then raises entry else run m e rest

-- The outcome of a lowering that replaced its operation.
abbrev pub Runs : Machine → Env → Lowering → Outcome → Type 0
Runs m e (emitted c) o = Path Outcome (run m e c) o
Runs m e inapplicable o = ⊥
Runs m e unsupported o = ⊥
Runs m e asserts o = ⊥

-- The two operands of a binary operation; the first is the operand of a unary one.
abbrev pub two_operands : ℕ → ℕ → Env
two_operands a b = record { operands = λ i. elim i [ zero ↦ a | suc j ↦ b ]; low = 0; high = 0 }

abbrev pub lhs : Val
lhs = operand 0

abbrev pub rhs : Val
rhs = operand 1

-- emitConstraintRaise after emitOverflowChecked's intrinsic: the flag guards the result.
abbrev pub overflow_checked : OverflowOp → ℕ → Val → Val → Code
overflow_checked o w a b =
    raise_if (overflow_flag o w a b) overflow_check (ret (overflow_result o w a b))
