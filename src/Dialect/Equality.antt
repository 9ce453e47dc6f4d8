-- ===== src/Dialect/Equality.antt =====
-- The equality tests of types (mlir types are uniqued) are equality.
use text.Mathlib.TextEquality.{eq_iff}
use lalvm.Base.{
  ℕ, ◌≡◌, refl, ap, ap₂, true, Option, none, some, List, [], ◌∷◌, ==_iff, and_true, both_true, ◌==◌,
}
use lalvm.Dialect.Types.{
  MachineType, int, float, array, other_type, QualType, machine_eq, qual_eq, extents_eq, extent_eq,
}
use lalvm.Dialect.Subprograms.{IrType, qual_type, plain_type, ref_type, range_type, ir_eq}

extent_eq_sound : (a b : Option ℕ) → extent_eq a b ≡ true → a ≡ b
unfolding extent_eq
extent_eq_sound none none h = refl
extent_eq_sound none (some b) h = cc
extent_eq_sound (some a) none h = cc
extent_eq_sound (some a) (some b) h = ap some ((==_iff a b).0 h)

extents_eq_sound : (a b : List (Option ℕ)) → extents_eq a b ≡ true → a ≡ b
unfolding extents_eq
extents_eq_sound [] [] h = refl
extents_eq_sound [] (y ∷ ys) h = cc
extents_eq_sound (x ∷ xs) [] h = cc
extents_eq_sound (x ∷ xs) (y ∷ ys) h =
    let (first, rest) = and_true (extent_eq x y) _ h in
    ap₂ (λ a b. a ∷ b) (extent_eq_sound x y first) (extents_eq_sound xs ys rest)

pub machine_eq_sound : (a b : MachineType) → machine_eq a b ≡ true → a ≡ b
unfolding machine_eq
machine_eq_sound (int a) (int b) h = ap int ((==_iff a b).0 h)
machine_eq_sound (float a) (float b) h = ap float ((==_iff a b).0 h)
machine_eq_sound (other_type a) (other_type b) h = ap other_type ((==_iff a b).0 h)
machine_eq_sound (array c xs) (array d ys) h =
    let (first, rest) = and_true (machine_eq c d) _ h in
    ap₂ array (machine_eq_sound c d first) (extents_eq_sound xs ys rest)
machine_eq_sound (int a) (float b) h = cc
machine_eq_sound (int a) (array c xs) h = cc
machine_eq_sound (int a) (other_type b) h = cc
machine_eq_sound (float a) (int b) h = cc
machine_eq_sound (float a) (array c xs) h = cc
machine_eq_sound (float a) (other_type b) h = cc
machine_eq_sound (array c xs) (int a) h = cc
machine_eq_sound (array c xs) (float a) h = cc
machine_eq_sound (array c xs) (other_type a) h = cc
machine_eq_sound (other_type a) (int b) h = cc
machine_eq_sound (other_type a) (float b) h = cc
machine_eq_sound (other_type a) (array c xs) h = cc

pub qual_eq_sound : (a b : QualType) → qual_eq a b ≡ true → a ≡ b
unfolding qual_eq
qual_eq_sound a b h =
    let (machine, name) = and_true (machine_eq a.mlir_type b.mlir_type) _ h in
    ap₂ (λ m n. record { mlir_type = m; ada_type = n })
      (machine_eq_sound a.mlir_type b.mlir_type machine) ((eq_iff a.ada_type b.ada_type).0 name)

extents_eq_refl : (xs : List (Option ℕ)) → extents_eq xs xs ≡ true
unfolding extents_eq extent_eq
extents_eq_refl [] = refl
extents_eq_refl (none ∷ xs) = extents_eq_refl xs
extents_eq_refl (some n ∷ xs) = both_true (n == n) _ ((==_iff n n).1 refl) (extents_eq_refl xs)

pub machine_eq_refl : (a : MachineType) → machine_eq a a ≡ true
unfolding machine_eq
machine_eq_refl (int w) = (==_iff w w).1 refl
machine_eq_refl (float w) = (==_iff w w).1 refl
machine_eq_refl (array c xs) = both_true (machine_eq c c) _ (machine_eq_refl c) (extents_eq_refl xs)
machine_eq_refl (other_type k) = (==_iff k k).1 refl

pub qual_eq_refl : (a : QualType) → qual_eq a a ≡ true
unfolding qual_eq
qual_eq_refl a =
    both_true (machine_eq a.mlir_type a.mlir_type) _ (machine_eq_refl a.mlir_type)
      ((eq_iff a.ada_type a.ada_type).1 refl)

pub ir_eq_sound : (a b : IrType) → ir_eq a b ≡ true → a ≡ b
unfolding ir_eq
ir_eq_sound (qual_type a) (qual_type b) h = ap qual_type (qual_eq_sound a b h)
ir_eq_sound (plain_type a) (plain_type b) h = ap plain_type (machine_eq_sound a b h)
ir_eq_sound (ref_type a) (ref_type b) h = ap ref_type (qual_eq_sound a b h)
ir_eq_sound (range_type m s) (range_type n t) h =
    let (machine, name) = and_true (machine_eq m n) _ h in
    ap₂ range_type (machine_eq_sound m n machine) ((eq_iff s t).0 name)
ir_eq_sound (qual_type a) (plain_type b) h = cc
ir_eq_sound (qual_type a) (ref_type b) h = cc
ir_eq_sound (qual_type a) (range_type m s) h = cc
ir_eq_sound (plain_type a) (qual_type b) h = cc
ir_eq_sound (plain_type a) (ref_type b) h = cc
ir_eq_sound (plain_type a) (range_type m s) h = cc
ir_eq_sound (ref_type a) (qual_type b) h = cc
ir_eq_sound (ref_type a) (plain_type b) h = cc
ir_eq_sound (ref_type a) (range_type m s) h = cc
ir_eq_sound (range_type m s) (qual_type a) h = cc
ir_eq_sound (range_type m s) (plain_type a) h = cc
ir_eq_sound (range_type m s) (ref_type a) h = cc
