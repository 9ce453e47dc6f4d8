-- ===== src/Dialect/Objects.antt =====
-- Reads and writes of Ada objects, and the canonicalization of both (mlir/Dialect.cpp,
-- ForwardObjectWrite and SimplifyObjectWrite), over the operations of a block.
use lalvm.Base.{ℕ, ◌≡◌, Bool, true, false, Option, none, some, List, [], ◌∷◌, if◌then◌else◌, ◌==◌}
pub mod Forward
pub mod Simplify

-- The operations of a block, by what the rewritings ask of them. SSA values have numbers; a
-- reference is a value. `pure_op` is speculatable and has no memory effect, `partial_op` has no
-- memory effect but may raise, and `effect_op` is any other; each stands for a known operation.
-- `copy` is the value that replaces a forwarded read, requalified.
pub data Op : Type 0 where
  read : ℕ → ℕ → Op
  write : ℕ → ℕ → Op
  copy : ℕ → ℕ → Op
  pure_op : ℕ → ℕ → Op
  partial_op : ℕ → ℕ → Op
  effect_op : ℕ → Op

-- mlir::isMemoryEffectFree and mlir::isPure.
abbrev pub is_memory_effect_free : Op → Bool
is_memory_effect_free (read r ref) = false
is_memory_effect_free (write ref v) = false
is_memory_effect_free (copy r v) = true
is_memory_effect_free (pure_op r k) = true
is_memory_effect_free (partial_op r k) = true
is_memory_effect_free (effect_op k) = false

abbrev pub is_pure : Op → Bool
is_pure (read r ref) = false
is_pure (write ref v) = false
is_pure (copy r v) = true
is_pure (pure_op r k) = true
is_pure (partial_op r k) = false
is_pure (effect_op k) = false

-- ForwardObjectWrite: the operations before the read, the nearest first.
unfoldable pub forwarded_value : ℕ → List Op → Option ℕ
forwarded_value ref [] = none
forwarded_value ref (write r v ∷ before) = if r == ref then some v else none
forwarded_value ref (read r s ∷ before) = none
forwarded_value ref (effect_op k ∷ before) = none
forwarded_value ref (copy r v ∷ before) = forwarded_value ref before
forwarded_value ref (pure_op r k ∷ before) = forwarded_value ref before
forwarded_value ref (partial_op r k ∷ before) = forwarded_value ref before

-- SimplifyObjectWrite, first loop: the operations after the write, the nearest first.
unfoldable pub is_overwritten : ℕ → List Op → Bool
is_overwritten ref [] = false
is_overwritten ref (write r v ∷ after) = r == ref
is_overwritten ref (read r s ∷ after) = false
is_overwritten ref (partial_op r k ∷ after) = false
is_overwritten ref (effect_op k ∷ after) = false
is_overwritten ref (copy r v ∷ after) = is_overwritten ref after
is_overwritten ref (pure_op r k ∷ after) = is_overwritten ref after

-- SimplifyObjectWrite, second loop: back to the read that gave the value `v`.
unfoldable pub is_restored : ℕ → ℕ → List Op → Bool
is_restored ref v [] = false
is_restored ref v (read r s ∷ before) = if r == v then s == ref else false
is_restored ref v (write r x ∷ before) = false
is_restored ref v (effect_op k ∷ before) = false
is_restored ref v (copy r x ∷ before) = is_restored ref v before
is_restored ref v (pure_op r k ∷ before) = is_restored ref v before
is_restored ref v (partial_op r k ∷ before) = is_restored ref v before

-- The values, where a reference is the location of its object, and the memory.
pub record State : Type 0 where
  pub env : ℕ → ℕ
  pub store : ℕ → ℕ

-- What the other operations do, which the rewritings do not look into.
pub record Behaviour : Type 0 where
  pub pure_value : ℕ → (ℕ → ℕ) → ℕ
  pub partial_value : ℕ → (ℕ → ℕ) → Option ℕ
  pub effect : ℕ → State → Option State

abbrev pub update : (ℕ → ℕ) → ℕ → ℕ → ℕ → ℕ
update f a v x = if x == a then v else f x

abbrev pub assign : State → ℕ → ℕ → State
assign s r v = record { env = update s.env r v; store = s.store }

abbrev pub assign_if : State → ℕ → Option ℕ → Option State
assign_if s r (some v) = some (assign s r v)
assign_if s r none = none

-- One operation; `none` where it raises.
unfoldable pub step : Behaviour → Op → State → Option State
step b (read r ref) s = some (assign s r (s.store (s.env ref)))
step b (write ref v) s = some (record { env = s.env; store = update s.store (s.env ref) (s.env v) })
step b (copy r v) s = some (assign s r (s.env v))
step b (pure_op r k) s = some (assign s r (b.pure_value k s.env))
step b (partial_op r k) s = assign_if s r (b.partial_value k s.env)
step b (effect_op k) s = b.effect k s

abbrev pub and_then : Option State → (State → Option State) → Option State
and_then (some s) f = f s
and_then none f = none

-- The operations in order.
unfoldable pub run_forward : Behaviour → List Op → State → Option State
run_forward b [] s = some s
run_forward b (op ∷ after) s = and_then (step b op s) (run_forward b after)

-- The operations of a list that has the last one first.
unfoldable pub run_back : Behaviour → List Op → State → Option State
run_back b [] s = some s
run_back b (op ∷ before) s = and_then (run_back b before s) (step b op)

-- Single assignment: no operation of the list defines the value again.
abbrev pub IsUndefined : ℕ → List Op → Type 0
IsUndefined x [] = Unit
IsUndefined x (read r ref ∷ ops) = ((x == r) ≡ false) × IsUndefined x ops
IsUndefined x (copy r v ∷ ops) = ((x == r) ≡ false) × IsUndefined x ops
IsUndefined x (pure_op r k ∷ ops) = ((x == r) ≡ false) × IsUndefined x ops
IsUndefined x (partial_op r k ∷ ops) = ((x == r) ≡ false) × IsUndefined x ops
IsUndefined x (write ref v ∷ ops) = IsUndefined x ops
IsUndefined x (effect_op k ∷ ops) = IsUndefined x ops
