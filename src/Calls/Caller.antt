-- ===== src/Calls/Caller.antt =====
-- What a call becomes (mlir/LowerAdaCalls.cpp, lowerCaller): its operands, and the copy-back.
use lalvm.Base.{
  ℕ, ◌≡◌, refl, ==_iff, zero, suc, true, false, Option, none, some, List, [], ◌∷◌, ◌==◌,
}
use lalvm.Base.Int.{ℤ, pos, negsuc}
use lalvm.Base.Lists.{get_elem?, drop}
use lalvm.Dialect.Subprograms.{in_mode, in_out_mode, out_mode}
use lalvm.Dialect.CallOps.{CallOp, no_indices, dense_i32, other_indices}
use lalvm.Calls.{Formal}

-- One conversion and write of the copy-back: the formal, the value, the range, and the reference.
pub record CopyBack {ℓ} (A : Type ℓ) : Type ℓ where
  pub formal : ℕ
  pub value : A
  pub range : Option A
  pub reference : A

module _ {ℓ} {A : Type ℓ} where
  abbrev pub cons_some : A → Option (List A) → Option (List A)
  cons_some a (some rest) = some (a ∷ rest)
  cons_some a none = none

  -- The operands of the call, from the logical arguments and the snapshots that are left. `none`
  -- is an access out of bounds.
  unfoldable pub call_inputs : List Formal → List A → List A → Option (List A)
  call_inputs [] actuals snapshots = some actuals
  call_inputs (f ∷ fs) [] snapshots = none
  call_inputs (f ∷ fs) (a ∷ actuals) snapshots = elim f.input [
    | none ↦ call_inputs fs actuals snapshots
    | some i ↦ elim f.mode [
      | in_mode ↦ cons_some a (call_inputs fs actuals snapshots)
      | in_out_mode ↦ elim snapshots [
        | [] ↦ none
        | v ∷ rest ↦ cons_some v (call_inputs fs actuals rest)
      ]
      | out_mode ↦ elim snapshots [
        | [] ↦ none
        | v ∷ rest ↦ cons_some v (call_inputs fs actuals rest)
      ]
    ]
  ]

  -- `outputs`: the result of every writable formal, from the results after those of the source.
  unfoldable pub call_outputs : List Formal → List A → List (Option A)
  call_outputs [] results = []
  call_outputs (f ∷ fs) results = elim f.mode [
    | in_mode ↦ none ∷ call_outputs fs results
    | in_out_mode ↦ elim results [
      | [] ↦ none ∷ call_outputs fs []
      | r ∷ rest ↦ some r ∷ call_outputs fs rest
    ]
    | out_mode ↦ elim results [
      | [] ↦ none ∷ call_outputs fs []
      | r ∷ rest ↦ some r ∷ call_outputs fs rest
    ]
  ]

  -- The results of the call start with those of the source.
  abbrev pub outputs_after : ℕ → List Formal → List A → List (Option A)
  outputs_after num_results formals results = call_outputs formals (drop num_results results)

  -- `ranges[index]`: the operand that an index maps to the formal.
  unfoldable pub operand_of : ℕ → List ℤ → List A → Option A
  operand_of i [] ranges = none
  operand_of i (j ∷ js) [] = none
  operand_of i (pos j ∷ js) (r ∷ rs) = elim (i == j) [ true ↦ some r | false ↦ operand_of i js rs ]
  operand_of i (negsuc j ∷ js) (r ∷ rs) = operand_of i js rs

  pub operand_of-there :
      (i : ℕ) (js : List ℤ) (r : A) (rs : List A) → operand_of i (pos i ∷ js) (r ∷ rs) ≡ some r
  unfolding operand_of
  operand_of-there i js r rs = let same = (==_iff i i).1 refl in rw (operand_of, same) refl

  pub operand_of-later :
      (i j : ℕ) (js : List ℤ) (r : A) (rs : List A)
      → (i == j) ≡ false
      → operand_of i (pos j ∷ js) (r ∷ rs) ≡ operand_of i js rs
  unfolding operand_of
  operand_of-later i j js r rs h = rw (operand_of, h) refl

  abbrev pub flatten : Option (Option A) → Option A
  flatten (some o) = o
  flatten none = none

  abbrev pub copy_one : ℕ → Option A → Option A → Option A → List (CopyBack A) → List (CopyBack A)
  copy_one i (some v) range (some reference) rest =
      record { formal = i; value = v; range = range; reference = reference } ∷ rest
  copy_one i (some v) range none rest = rest
  copy_one i none range reference rest = rest

  -- The loop over the order.
  unfoldable pub copy_back : List ℤ → List (Option A) → List A → List ℤ → List A → List (CopyBack A)
  copy_back [] outputs actuals indices ranges = []
  copy_back (pos i ∷ order) outputs actuals indices ranges =
      copy_one i (flatten (get_elem? outputs i)) (operand_of i indices ranges) (get_elem? actuals i)
        (copy_back order outputs actuals indices ranges)
  copy_back (negsuc i ∷ order) outputs actuals indices ranges =
      copy_back order outputs actuals indices ranges

-- 0, 1, ... in order, where the call has no `ada.actual_order`.
unfoldable pub formal_order : ℕ → ℕ → List ℤ
formal_order i zero = []
formal_order i (suc n) = pos i ∷ formal_order (suc i) n

unfoldable pub actual_order : CallOp → ℕ → List ℤ
actual_order op count = elim op.actual_order [
  | dense_i32 order ↦ order
  | no_indices ↦ formal_order 0 count
  | other_indices ↦ formal_order 0 count
]
