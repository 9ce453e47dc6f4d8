-- ===== src/Conversions/Steps.antt =====
-- What the operations that replace a conversion do to its value: the checks are those that
-- Checks lowers, and the other steps are casts or change the type alone.
use lalvm.Base.{ℕ, List, [], ◌∷◌}
use lalvm.Llvm.{ApInt, ApIntLib, Machine}
use lalvm.Dialect.Types.{QualType, bit_width}
use lalvm.Dialect.Table.{TypeTable}
use lalvm.Ada.{◌>>=◌}
use lalvm.LowerToLlvm.Emit.{Outcome, returns, run}
use lalvm.LowerToLlvm.Checks.{check_code, range_check_op, checked_operand}
use lalvm.Conversions.{Step, requalify, static_check, dynamic_check, cast, rewrap}

-- A range check of a value of type `q` against a descriptor of two words.
abbrev pub range_check_run : Machine → TypeTable → QualType → ℕ → ℕ → ℕ → Outcome
range_check_run m t q lo hi n =
    run m (checked_operand n lo hi)
      (check_code t (record { kind = range_check_op; type = q.mlir_type; sym = q.ada_type }))

-- The constants of the descriptor have the width of the value that is checked.
abbrev pub descriptor_word : ApIntLib → QualType → ApInt → ℕ
descriptor_word l q bound = (l.sext_or_trunc bound (bit_width q.mlir_type)).bits

-- `low` and `high` are the words of the descriptor that the conversion carries.
unfoldable pub run_steps :
    ApIntLib → Machine → TypeTable → ℕ → ℕ → List Step → QualType → ℕ → Outcome
run_steps l m t low high [] q n = returns n
run_steps l m t low high (requalify to ∷ rest) q n = run_steps l m t low high rest to n
run_steps l m t low high (rewrap to ∷ rest) q n = run_steps l m t low high rest to n
run_steps l m t low high (cast c w v to ∷ rest) q n =
    run_steps l m t low high rest to (m.cast c w v n)
run_steps l m t low high (static_check lo hi to ∷ rest) q n =
    range_check_run m t q (descriptor_word l q lo) (descriptor_word l q hi) n
    >>= (λ passed. run_steps l m t low high rest to passed)
run_steps l m t low high (dynamic_check to ∷ rest) q n =
    range_check_run m t q low high n >>= (λ passed. run_steps l m t low high rest to passed)
