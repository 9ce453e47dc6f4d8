-- ===== src/Dialect/Objects/Forward.antt =====
-- Forwarding a write to a read (mlir/Dialect.cpp, ForwardObjectWrite).
use lalvm.Base.{
  ℕ, ◌≡◌, refl, ap, false, Option, none, some, inl, inr, List, [], ◌∷◌, ◌==◌, ==_iff, Bool-cases,
  Option-cases, arith,
}
use lalvm.Dialect.Objects.{
  Op, read, write, copy, pure_op, partial_op, effect_op, forwarded_value, State, Behaviour, assign,
  assign_if, step, and_then, run_back, IsUndefined,
}

-- The memory holds the value at the location of the reference.
abbrev pub Holds : ℕ → ℕ → Option State → Type 0
Holds ref v (some s) = s.store (s.env ref) ≡ s.env v
Holds ref v none = Unit

module _ (b : Behaviour) (ref v : ℕ) where
  keeps_value :
      (r x : ℕ) (s : State)
      → ((ref == r) ≡ false)
      → ((v == r) ≡ false)
      → Holds ref v (some s)
      → Holds ref v (some (assign s r x))
  keeps_value r x s p q h = rw (p, q) h

  pub assigned :
      (r : ℕ) (o : Option State) (value : State → Option ℕ)
      → ((ref == r) ≡ false)
      → ((v == r) ≡ false)
      → Holds ref v o
      → Holds ref v (and_then o (λ s. assign_if s r (value s)))
  assigned r none value p q h = tt
  assigned r (some s) value p q h = elim (Option-cases (value s)) [
    | inl e ↦ rw e tt
    | inr (x, e) ↦ rw e (keeps_value r x s p q h)
  ]

  written : (o : Option State) → Holds ref v (and_then o (step b (write ref v)))
  unfolding step
  written none = tt
  written (some s) = ground arith

  written_as :
      (r x : ℕ) (o : Option State) → r ≡ ref → x ≡ v → Holds ref v (and_then o (step b (write r x)))
  written_as r x o p q = rw (p, q) (written o)

  holds :
      (before : List Op) (s : State)
      → IsUndefined ref before
      → IsUndefined v before
      → forwarded_value ref before ≡ some v
      → Holds ref v (run_back b before s)
  unfolding forwarded_value run_back step
  holds [] s p q h = cc
  holds (read r x ∷ before) s p q h = cc
  holds (effect_op k ∷ before) s p q h = cc
  holds (write r x ∷ before) s p q h = elim (Bool-cases (r == ref)) [
    | inl e ↦
        written_as r x (run_back b before s) ((==_iff r ref).0 e)
          (ap (λ (o : Option ℕ). elim o [ some y ↦ y | none ↦ x ]) (rw e at h))
    | inr e ↦ let no = rw e at h in cc
  ]
  holds (copy r x ∷ before) s p q h =
      assigned r (run_back b before s) (λ t. some (t.env x)) p.0 q.0 (holds before s p.1 q.1 h)
  holds (pure_op r k ∷ before) s p q h =
      assigned r (run_back b before s) (λ t. some (b.pure_value k t.env)) p.0 q.0
        (holds before s p.1 q.1 h)
  holds (partial_op r k ∷ before) s p q h =
      assigned r (run_back b before s) (λ t. b.partial_value k t.env) p.0 q.0
        (holds before s p.1 q.1 h)

  same_step :
      (r : ℕ) (o : Option State)
      → Holds ref v o
      → and_then o (step b (read r ref)) ≡ and_then o (step b (copy r v))
  unfolding step
  same_step r none h = refl
  same_step r (some s) h = ap (λ x. some (assign s r x)) h

  -- Where the code finds the value of a write to forward to a read, replacing the read by that value
  -- changes nothing: the operations before and the read lead to the same values and memory, or
  -- raise, as they do with the value in its place; for values that are not assigned again.
  pub forwarded_value-same :
      (before : List Op) (r : ℕ) (s : State)
      → IsUndefined ref before
      → IsUndefined v before
      → forwarded_value ref before ≡ some v
      → run_back b (read r ref ∷ before) s ≡ run_back b (copy r v ∷ before) s
  unfolding run_back
  forwarded_value-same before r s p q h = same_step r (run_back b before s) (holds before s p q h)
