-- ===== src/Examples/Objects.antt =====
-- The theorems on reads and writes, in small blocks.
use lalvm.Base.{◌+◌, ◌≡◌, refl, none, [], ◌∷◌}
use lalvm.Dialect.Objects.{
  read, write, copy, pure_op, forwarded_value, is_overwritten, is_restored, State, Behaviour,
  run_forward, run_back,
}
use lalvm.Dialect.Objects.Forward.{forwarded_value-same}
use lalvm.Dialect.Objects.Simplify.{is_overwritten-erased, is_restored-erased}

-- A pure operation adds the values 1 and 2, and any other raises.
abbrev behaviour : Behaviour
behaviour = record {
  pure_value = λ k env. env 1 + env 2;
  partial_value = λ k env. none;
  effect = λ k s. none;
}

-- The value n is n, and memory is clear.
abbrev start : State
start = record { env = λ x. x; store = λ a. 0 }

-- r := 1; 5 := 1 + 2; 6 := r
forwarded_value-same_example :
    run_back behaviour (read 6 0 ∷ pure_op 5 0 ∷ write 0 1 ∷ []) start
    ≡ run_back behaviour (copy 6 1 ∷ pure_op 5 0 ∷ write 0 1 ∷ []) start
unfolding forwarded_value
forwarded_value-same_example =
    forwarded_value-same behaviour 0 1 (pure_op 5 0 ∷ write 0 1 ∷ []) 6 start (refl, tt) (refl, tt)
      refl

-- r := 1; 5 := 1 + 2; r := 5
is_overwritten-erased_example :
    run_forward behaviour (write 0 1 ∷ pure_op 5 0 ∷ write 0 5 ∷ []) start
    ≡ run_forward behaviour (pure_op 5 0 ∷ write 0 5 ∷ []) start
unfolding is_overwritten
is_overwritten-erased_example =
    is_overwritten-erased behaviour 0 1 (pure_op 5 0 ∷ write 0 5 ∷ []) start (refl, tt) refl

-- 4 := r; 5 := 1 + 2; r := 4
is_restored-erased_example :
    run_back behaviour (write 0 4 ∷ pure_op 5 0 ∷ read 4 0 ∷ []) start
    ≡ run_back behaviour (pure_op 5 0 ∷ read 4 0 ∷ []) start
unfolding is_restored
is_restored-erased_example =
    is_restored-erased behaviour 0 4 (pure_op 5 0 ∷ read 4 0 ∷ []) start (refl, refl, refl) refl
