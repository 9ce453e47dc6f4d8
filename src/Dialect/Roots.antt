-- ===== src/Dialect/Roots.antt =====
-- The root of a type (mlir/Dialect.cpp, rootOfAdaType).
use lalvm.Base.{ℕ, zero, suc, ◌≤◌, ◌<◌, ◌≡◌, refl, some, none, inl, inr, arith, Option-cases}
use lalvm.Dialect.Types.{TypeOp}
use lalvm.Dialect.Scopes.{Module}
use lalvm.Dialect.Table.{base_op, root_from}

-- Base links lead to declarations of a smaller rank: they form no cycle.
abbrev pub IsAcyclic : Module → (TypeOp → ℕ) → Type 0
IsAcyclic m rank = (t b : TypeOp) → base_op m t ≡ some b → rank b < rank t

-- A type whose base link leads nowhere is its own root.
root_from-stays : (m : Module) (t : TypeOp) → base_op m t ≡ none → (g : ℕ) → root_from g m t ≡ t
unfolding root_from
root_from-stays m t e zero = refl
root_from-stays m t e (suc g) = rw (root_from, e) refl

root_from-follows :
    (m : Module) (t b : TypeOp) (f : ℕ)
    → base_op m t ≡ some b
    → ((g : ℕ) → f ≤ g → root_from g m b ≡ root_from f m b)
    → (g : ℕ) → suc f ≤ g
    → root_from g m t ≡ root_from f m b
unfolding root_from
root_from-follows m t b f e same zero le = absurd (omega arith)
root_from-follows m t b f e same (suc g) le = rw (root_from, e) (same g (omega arith))

module _ (m : Module) (rank : TypeOp → ℕ) (acyclic : IsAcyclic m rank) where
  -- Where base links form no cycle, the loop ends on its own within as many steps as the rank of
  -- the type: what it returns has no base link that leads to a declaration, and more fuel changes
  -- nothing.
  pub root_from-ends :
      (f : ℕ) (t : TypeOp)
      → rank t ≤ f
      → (base_op m (root_from f m t) ≡ none) × ((g : ℕ) → f ≤ g → root_from g m t ≡ root_from f m t)
  unfolding root_from
  root_from-ends zero t h = elim (Option-cases (base_op m t)) [
    | inl e ↦ (e, λ g le. root_from-stays m t e g)
    | inr (b, e) ↦ let smaller = acyclic t b e in absurd (omega arith)
  ]
  root_from-ends (suc f) t h = elim (Option-cases (base_op m t)) [
    | inl e ↦ rw (root_from-stays m t e (suc f)) (e, λ g le. root_from-stays m t e g)
    | inr (b, e) ↦
        let smaller = acyclic t b e in
        let (ended, same) = root_from-ends f b (omega arith) in
        rw (root_from-follows m t b f e same (suc f) (omega arith))
          (ended, root_from-follows m t b f e same)
  ]
