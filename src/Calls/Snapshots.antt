-- ===== src/Calls/Snapshots.antt =====
-- Snapshots and their indices (mlir/Dialect.cpp, CallOp::verify and verifySymbolUses).

use lalvm.Base.{
  ℕ, zero, suc, ◌≤◌, ◌<◌, ◌≡◌, refl, sym, ap, ap₂, ◌∙◌, Bool, true, false, Option, none, some, List,
  [], ◌∷◌, map, not, ==_iff, arith, and_true,
}
use lalvm.Base.Int.{ℤ, pos, negsuc, ltb_ℤ}
use lalvm.Base.Lists.{length}
use lalvm.Dialect.Subprograms.{is_writable, IrType, Argument, formal_mode}
use lalvm.Dialect.CallOps.{
  Value, Pending, has_initial, advance, verify_value, map_each_operand, are_increasing, index_list,
  is_index, rest_if, dense_i32, no_indices, other_indices, Indices,
}
use lalvm.Calls.Caller.{operand_of, operand_of-there, operand_of-later}
use lalvm.Calls.Callee.{Binding, passed, object}

abbrev pub binding_of : Bool → Value → Option Value → Binding Value
binding_of true v snapshot = object snapshot
binding_of false v snapshot = passed v

-- What the arguments of the body should be: a value formal and a capture the actual, a writable
-- formal an object that starts as the snapshot that the call maps to it, if any.
unfoldable pub copied_in :
    ℕ → ℕ → List Argument → List Value → List ℤ → List Value → List (Binding Value)
copied_in i zero arguments actuals indices snapshots = map passed actuals
copied_in i (suc n) [] actuals indices snapshots = map passed actuals
copied_in i (suc n) (a ∷ rest) [] indices snapshots = []
copied_in i (suc n) (a ∷ rest) (v ∷ vs) indices snapshots =
    binding_of (is_writable (formal_mode a)) v (operand_of i indices snapshots)
    ∷ copied_in (suc i) n rest vs indices snapshots

abbrev pub Ascending : ℕ → List ℤ → Type 0
Ascending i [] = Unit
Ascending i (pos j ∷ rest) = (i ≤ j) × Ascending (suc j) rest
Ascending i (negsuc j ∷ rest) = ⊥

pub Ascending-weaken : (i j : ℕ) (is : List ℤ) → i ≤ j → Ascending j is → Ascending i is
Ascending-weaken i j [] h a = tt
Ascending-weaken i j (pos k ∷ rest) h (b, a) = (omega arith, a)
Ascending-weaken i j (negsuc k ∷ rest) h a = a

pub operand_of-below :
    (i : ℕ) (is : List ℤ) (vs : List Value) → Ascending (suc i) is → operand_of i is vs ≡ none
unfolding operand_of
operand_of-below i [] vs a = refl
operand_of-below i (j ∷ is) [] a = refl
operand_of-below i (pos j ∷ is) (v ∷ vs) (b, a) =
    operand_of-later i j is v vs (ground arith)
    ∙ operand_of-below i is vs (Ascending-weaken (suc i) (suc j) is (omega arith) a)
operand_of-below i (negsuc j ∷ is) (v ∷ vs) a = absurd a

-- An index that is past is not looked up again.
copied_in-past :
    (n k i : ℕ) (arguments : List Argument) (actuals : List Value) (is : List ℤ) (x : Value)
    (xs : List Value)
    → k < i
    → copied_in i n arguments actuals (pos k ∷ is) (x ∷ xs) ≡ copied_in i n arguments actuals is xs
unfolding copied_in operand_of
copied_in-past zero k i arguments actuals is x xs h = refl
copied_in-past (suc n) k i [] actuals is x xs h = refl
copied_in-past (suc n) k i (a ∷ rest) [] is x xs h = refl
copied_in-past (suc n) k i (a ∷ rest) (v ∷ vs) is x xs h =
    ap₂ (λ o bs. binding_of (is_writable (formal_mode a)) v o ∷ bs)
      (operand_of-later i k is x xs (ground arith))
      (copied_in-past n k (suc i) rest vs is x xs (omega arith))

-- What `initialPos++` leaves.
pub taken :
    (i : ℕ) (is : List ℤ) (vs : List Value)
    → is_index i is ≡ true
    → length is ≡ length vs
    → (x : Value) × (is ≡ pos i ∷ rest_if (is_index i is) is)
      × (vs ≡ x ∷ rest_if (is_index i is) vs)
unfolding length
taken i [] vs h e = cc
taken i (j ∷ is) [] h e = absurd (omega arith)
taken i (negsuc j ∷ is) (x ∷ xs) h e = cc
taken i (pos j ∷ is) (x ∷ xs) h e =
    (x, rw h (ap (λ k. pos k ∷ is) (sym ((==_iff i j).0 h))), rw h refl)

pub kept : {A : Type 0} (xs : List A) (b : Bool) → b ≡ false → rest_if b xs ≡ xs
kept [] b h = refl
kept (x ∷ xs) b h = rw h refl

pub past : (i : ℕ) (is : List ℤ) → is_index i is ≡ false → Ascending i is → Ascending (suc i) is
past i [] h a = tt
past i (pos j ∷ is) h (b, a) = (ground arith, a)
past i (negsuc j ∷ is) h a = a

pub shorter :
    (i : ℕ) (is : List ℤ) (vs : List Value)
    → is_index i is ≡ true
    → length is ≡ length vs
    → length (rest_if (is_index i is) is) ≡ length (rest_if (is_index i is) vs)
unfolding length
shorter i [] vs h e = cc
shorter i (j ∷ is) [] h e = absurd (omega arith)
shorter i (j ∷ is) (x ∷ xs) h e = rw h (omega arith)

module _ (i n : ℕ) (a : Argument) (rest : List Argument) (x : Value) (xs : List Value)
    (p : Pending) where
  abbrev pub expected : List (Binding Value)
  expected = copied_in i (suc n) (a ∷ rest) (x ∷ xs) p.initial_indices p.initial_values

  abbrev pub expected_later : List (Binding Value)
  expected_later =
      copied_in (suc i) n rest xs (advance i p).initial_indices (advance i p).initial_values

  abbrev pub found : Option Value
  found = operand_of i p.initial_indices p.initial_values

  abbrev pub others : List (Binding Value)
  others = copied_in (suc i) n rest xs p.initial_indices p.initial_values

  pub first_binding :
      (writable : Bool)
      → is_writable (formal_mode a) ≡ writable
      → expected ≡ binding_of writable x found ∷ others
  unfolding copied_in
  first_binding writable w = ap (λ b. binding_of b x found ∷ others) w

  pub with_snapshot :
      (y : Value)
      → is_writable (formal_mode a) ≡ true
      → p.initial_indices ≡ pos i ∷ (advance i p).initial_indices
      → p.initial_values ≡ y ∷ (advance i p).initial_values
      → expected ≡ object (some y) ∷ expected_later
  unfolding copied_in
  with_snapshot y w indices values =
      first_binding true w
      ∙ ap₂ (λ is vs. object (operand_of i is vs) ∷ copied_in (suc i) n rest xs is vs) indices
          values
      ∙ ap₂ (λ o bs. object o ∷ bs)
          (operand_of-there i (advance i p).initial_indices y (advance i p).initial_values)
          (copied_in-past n i (suc i) rest xs (advance i p).initial_indices y
            (advance i p).initial_values (omega arith))

  pub without_snapshot :
      is_writable (formal_mode a) ≡ true
      → Ascending (suc i) p.initial_indices
      → (advance i p).initial_indices ≡ p.initial_indices
      → (advance i p).initial_values ≡ p.initial_values
      → expected ≡ object none ∷ expected_later
  unfolding copied_in
  without_snapshot w above indices values =
      first_binding true w
      ∙ ap₂ (λ o bs. object o ∷ bs) (operand_of-below i p.initial_indices p.initial_values above)
          (ap₂ (λ is vs. copied_in (suc i) n rest xs is vs) (sym indices) (sym values))

pub no_snapshot :
    (i : ℕ) (formal actual : IrType) (p : Pending)
    → verify_value i formal actual p ≡ true
    → has_initial i p ≡ false
unfolding verify_value
no_snapshot i formal actual p h =
    let (h₁, _) = and_true _ _ h in let (_, e) = and_true _ _ h₁ in negated (has_initial i p) e
  where
    negated : (b : Bool) → not b ≡ true → b ≡ false
    negated true e = cc
    negated false e = refl

increasing_after :
    (k count : ℕ) (is : List ℤ) → are_increasing (pos k) count is ≡ true → Ascending (suc k) is
unfolding are_increasing
increasing_after k count [] h = tt
increasing_after k count (pos j ∷ is) h =
    let (h₁, later) = and_true _ _ h in
    let (above, _) = and_true (ltb_ℤ (pos k) (pos j)) (ltb_ℤ (pos j) (pos count)) h₁ in
    (ground arith, increasing_after j count is later)
increasing_after k count (negsuc j ∷ is) h = ground arith

increasing_all :
    (count : ℕ) (is : List ℤ) → are_increasing (negsuc 0) count is ≡ true → Ascending 0 is
unfolding are_increasing
increasing_all count [] h = tt
increasing_all count (pos j ∷ is) h =
    let (h₁, later) = and_true _ _ h in (omega arith, increasing_after j count is later)
increasing_all count (negsuc j ∷ is) h = ground arith

-- What CallOp::verify asks of indices.
pub map_each_operand_lem :
    (indices : Indices) (operands count : ℕ)
    → map_each_operand indices operands count ≡ true
    → Ascending 0 (index_list indices) × (length (index_list indices) ≡ operands)
unfolding map_each_operand length
map_each_operand_lem no_indices operands count h = (tt, ground arith)
map_each_operand_lem other_indices operands count h = (tt, ground arith)
map_each_operand_lem (dense_i32 is) operands count h =
    let (size, increasing) = and_true _ _ h in
    (increasing_all count is increasing, (==_iff _ _).0 size)
