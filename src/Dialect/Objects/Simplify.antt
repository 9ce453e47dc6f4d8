-- ===== src/Dialect/Objects/Simplify.antt =====
-- Erasing a write (mlir/Dialect.cpp, SimplifyObjectWrite).
use mathlib.Core.Path.{fun_ext}
use lalvm.Base.{
  ℕ, ◌≡◌, refl, sym, ap, ◌∙◌, true, false, Option, none, some, inl, inr, List, [], ◌∷◌,
  if◌then◌else◌, ◌==◌, ==_iff, Bool-cases,
}
use lalvm.Dialect.Objects.Forward.{Holds, assigned}
use lalvm.Dialect.Objects.{
  Op, read, write, copy, pure_op, partial_op, effect_op, is_overwritten, is_restored, State,
  Behaviour, update, assign, step, and_then, run_forward, run_back, IsUndefined,
}

update-same : (f : ℕ → ℕ) (a v : ℕ) → f a ≡ v → update f a v ≡ f
update-same f a v h = fun_ext (λ x. elim (Bool-cases (x == a)) [
  | inl e ↦ rw e (sym h ∙ ap f (sym ((==_iff x a).0 e)))
  | inr e ↦ rw e refl
])

update-twice : (f : ℕ → ℕ) (a v w : ℕ) → update (update f a v) a w ≡ update f a w
update-twice f a v w =
    fun_ext (λ x. elim (Bool-cases (x == a)) [ inl e ↦ rw e refl | inr e ↦ rw e refl ])

-- Single assignment up to the read: the operations define neither the reference nor the value again.
abbrev pub IsStable : ℕ → ℕ → List Op → Type 0
IsStable ref v [] = Unit
IsStable ref v (read r y ∷ before) = (ref == r) ≡ false
IsStable ref v (write r y ∷ before) = Unit
IsStable ref v (effect_op k ∷ before) = Unit
IsStable ref v (copy r y ∷ before) =
    ((ref == r) ≡ false) × ((v == r) ≡ false) × IsStable ref v before
IsStable ref v (pure_op r k ∷ before) =
    ((ref == r) ≡ false) × ((v == r) ≡ false) × IsStable ref v before
IsStable ref v (partial_op r k ∷ before) =
    ((ref == r) ≡ false) × ((v == r) ≡ false) × IsStable ref v before

module _ (b : Behaviour) (ref : ℕ) where
  overwritten :
      (after : List Op) (s : State) (a x : ℕ)
      → a ≡ s.env ref
      → IsUndefined ref after
      → is_overwritten ref after ≡ true
      → run_forward b after (record { env = s.env; store = update s.store a x })
        ≡ run_forward b after s
  unfolding is_overwritten run_forward step
  overwritten [] s a x e p h = cc
  overwritten (read r y ∷ after) s a x e p h = cc
  overwritten (partial_op r k ∷ after) s a x e p h = cc
  overwritten (effect_op k ∷ after) s a x e p h = cc
  overwritten (write r v ∷ after) s a x e p h =
      let at_ref : a ≡ s.env r = e ∙ ap s.env (sym ((==_iff r ref).0 h)) in
      ap (λ f. run_forward b after (record { env = s.env; store = f }))
        (ap (λ loc. update (update s.store loc x) (s.env r) (s.env v)) at_ref
          ∙ update-twice s.store (s.env r) x (s.env v))
  overwritten (copy r y ∷ after) s a x e p h =
      overwritten after (assign s r (s.env y)) a x (rw p.0 e) p.1 h
  overwritten (pure_op r k ∷ after) s a x e p h =
      overwritten after (assign s r (b.pure_value k s.env)) a x (rw p.0 e) p.1 h

  -- A write that a later one overwrites, with pure operations alone in between, can be erased: the
  -- operations after it lead to the same values and memory, or raise, as they do after the write;
  -- for a reference that is not assigned again.
  pub is_overwritten-erased :
      (v : ℕ) (after : List Op) (s : State)
      → IsUndefined ref after
      → is_overwritten ref after ≡ true
      → run_forward b (write ref v ∷ after) s ≡ run_forward b after s
  unfolding run_forward step
  is_overwritten-erased v after s p h = overwritten after s (s.env ref) (s.env v) refl p h

  read_back :
      (v r y : ℕ) (o : Option State)
      → (ref == r) ≡ false
      → (if r == v then y == ref else false) ≡ true
      → Holds ref v (and_then o (step b (read r y)))
  unfolding step
  read_back v r y none p h = tt
  read_back v r y (some s) p h = elim (Bool-cases (r == v)) [
    | inl e ↦
        let at_ref : y ≡ ref = (==_iff y ref).0 (rw e at h) in
        let at_value : r ≡ v = (==_iff r v).0 e in rw at_ref (read_value r s p at_value)
    | inr e ↦ let no = rw e at h in cc
  ]
    where
      read_value :
          (r : ℕ) (s : State)
          → (ref == r) ≡ false
          → r ≡ v
          → Holds ref v (some (assign s r (s.store (s.env ref))))
      read_value r s p e = let same : (v == r) ≡ true = (==_iff v r).1 (sym e) in rw (p, same) refl

  restored :
      (v : ℕ) (before : List Op) (s : State)
      → IsStable ref v before
      → is_restored ref v before ≡ true
      → Holds ref v (run_back b before s)
  unfolding is_restored run_back step
  restored v [] s p h = cc
  restored v (write r x ∷ before) s p h = cc
  restored v (effect_op k ∷ before) s p h = cc
  restored v (read r y ∷ before) s p h = read_back v r y (run_back b before s) p h
  restored v (copy r x ∷ before) s p h =
      assigned b ref v r (run_back b before s) (λ t. some (t.env x)) p.0 p.1
        (restored v before s p.2 h)
  restored v (pure_op r k ∷ before) s p h =
      assigned b ref v r (run_back b before s) (λ t. some (b.pure_value k t.env)) p.0 p.1
        (restored v before s p.2 h)
  restored v (partial_op r k ∷ before) s p h =
      assigned b ref v r (run_back b before s) (λ t. b.partial_value k t.env) p.0 p.1
        (restored v before s p.2 h)

  rewritten : (v : ℕ) (o : Option State) → Holds ref v o → and_then o (step b (write ref v)) ≡ o
  unfolding step
  rewritten v none h = refl
  rewritten v (some s) h =
      ap (λ f. some (record { env = s.env; store = f }))
        (update-same s.store (s.env ref) (s.env v) h)

  -- A write of the value that a read of the same object gave, with operations that have no memory
  -- effect alone in between, can be erased: the block leads to the same values and memory, or
  -- raises, as it does with the write; for values that are not assigned again since the read.
  pub is_restored-erased :
      (v : ℕ) (before : List Op) (s : State)
      → IsStable ref v before
      → is_restored ref v before ≡ true
      → run_back b (write ref v ∷ before) s ≡ run_back b before s
  unfolding run_back
  is_restored-erased v before s p h = rewritten v (run_back b before s) (restored v before s p h)
