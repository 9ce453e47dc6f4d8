-- ===== src/Calls/CopyBack.antt =====
-- The results of a call and the writes after it (mlir/LowerAdaCalls.cpp, lowerCallee's returns and
-- lowerCaller's copy-back).
use mathlib.Core.Path.{subst}
use mathlib.Core.List.{append-nil}
use lalvm.Base.{
  ℕ, zero, suc, ◌+◌, ◌<◌, ◌≡◌, refl, sym, ap, ap₂, ◌∙◌, true, false, to_bit, Option, none, some,
  inl, inr, List, [], ◌∷◌, ◌++◌, ◌==◌, ==_iff, arith, Bool-cases,
}
use lalvm.Base.Int.{ℤ, pos, negsuc}
use lalvm.Base.Lists.{length, get_elem?, drop, drop-append, get_elem?-below}
use lalvm.Dialect.Subprograms.{ParamMode, in_mode, in_out_mode, out_mode}
use lalvm.Dialect.CallOps.{
  CallOp, Indices, no_indices, dense_i32, other_indices, verify_order, covers, index_list,
}
use lalvm.Dialect.CallOps.Order.{occurrences, is_permutation_lem, IsPermutation, same_some}
use lalvm.Calls.{Formal}
use lalvm.Calls.Caller.{
  CopyBack, call_outputs, outputs_after, operand_of, flatten, copy_one, copy_back, formal_order,
  actual_order,
}
use lalvm.Calls.Callee.{object_reads, lower_return}

occurrences-here :
    (i j : ℕ) (order : List ℤ)
    → (i == j) ≡ true
    → occurrences i (pos j ∷ order) ≡ suc (occurrences i order)
unfolding occurrences
occurrences-here i j order h = ap (λ b. to_bit b + occurrences i order) h ∙ (omega arith)

occurrences-other :
    (i j : ℕ) (order : List ℤ)
    → (i == j) ≡ false
    → occurrences i (pos j ∷ order) ≡ occurrences i order
unfolding occurrences
occurrences-other i j order h = ap (λ b. to_bit b + occurrences i order) h ∙ (omega arith)

formal_order-below : (j i n : ℕ) → j < i → occurrences j (formal_order i n) ≡ 0
unfolding formal_order occurrences
formal_order-below j i zero h = refl
formal_order-below j i (suc n) h =
    let other : (j == i) ≡ false = ground arith in
    let rest = formal_order-below j (suc i) n (omega arith) in rw (other, rest) refl

formal_order-once : (j i n : ℕ) → j < n → occurrences (i + j) (formal_order i n) ≡ 1
unfolding formal_order occurrences
formal_order-once j i zero h = absurd (omega arith)
formal_order-once zero i (suc n) h =
    let here : (i + 0 == i) ≡ true = ground arith in
    let rest = formal_order-below (i + 0) (suc i) n (omega arith) in rw (here, rest) refl
formal_order-once (suc j) i (suc n) h =
    let other : (i + suc j == i) ≡ false = ground arith in
    let rest = formal_order-once j (suc i) n (omega arith) in
    let same : suc i + j ≡ i + suc j = omega arith in
    let moved = subst (λ k. occurrences k (formal_order (suc i) n) ≡ 1) same rest in
    occurrences-other (i + suc j) i (formal_order (suc i) n) other ∙ moved

-- The order of the writes has every formal once.
actual_order-once :
    (op : CallOp) (count j : ℕ)
    → verify_order op.actual_order ≡ true
    → covers op.actual_order count ≡ true
    → j < count
    → occurrences j (actual_order op count) ≡ 1
unfolding actual_order IsPermutation
actual_order-once op count j v c h = ordered op.actual_order v c
  where
    zero_add : 0 + j ≡ j
    zero_add = omega arith

    ordered :
        (indices : Indices)
        → verify_order indices ≡ true
        → covers indices count ≡ true
        → occurrences j (elim indices [
          | dense_i32 order ↦ order
          | no_indices ↦ formal_order 0 count
          | other_indices ↦ formal_order 0 count
        ])
          ≡ 1
    ordered no_indices v c =
        subst (λ k. occurrences k (formal_order 0 count) ≡ 1) zero_add
          (formal_order-once j 0 count h)
    ordered other_indices v c =
        subst (λ k. occurrences k (formal_order 0 count) ≡ 1) zero_add
          (formal_order-once j 0 count h)
    ordered (dense_i32 order) v c =
        let (below, once) = (is_permutation_lem order).0 v in
        let size = (==_iff (length order) count).0 c in once j (omega arith)

module _ {ℓ} {A : Type ℓ} where
  -- The writes of one formal.
  unfoldable pub writes_of : ℕ → List (CopyBack A) → List (CopyBack A)
  writes_of i [] = []
  writes_of i (w ∷ ws) =
      let rest = writes_of i ws in elim (i == w.formal) [ true ↦ w ∷ rest | false ↦ rest ]

  repeated : ℕ → List (CopyBack A) → List (CopyBack A)
  repeated zero ws = []
  repeated (suc n) ws = ws ++ repeated n ws

  abbrev write_of : ℕ → List (Option A) → List A → List ℤ → List A → List (CopyBack A)
  write_of i outputs actuals indices ranges =
      copy_one i (flatten (get_elem? outputs i)) (operand_of i indices ranges) (get_elem? actuals i)
        []

  writes_of-same :
      (i : ℕ) (o range reference : Option A) (rest : List (CopyBack A))
      → writes_of i (copy_one i o range reference rest)
        ≡ copy_one i o range reference [] ++ writes_of i rest
  unfolding writes_of
  writes_of-same i none range reference rest = refl
  writes_of-same i (some v) range none rest = refl
  writes_of-same i (some v) range (some r) rest =
      let same = (==_iff i i).1 refl in rw (writes_of, same) refl

  writes_of-other :
      (i j : ℕ) (o range reference : Option A) (rest : List (CopyBack A))
      → (i == j) ≡ false
      → writes_of i (copy_one j o range reference rest) ≡ writes_of i rest
  unfolding writes_of
  writes_of-other i j none range reference rest h = refl
  writes_of-other i j (some v) range none rest h = refl
  writes_of-other i j (some v) range (some r) rest h = rw (writes_of, h) refl

  writes_of-copy_back :
      (i : ℕ) (order : List ℤ) (outputs : List (Option A)) (actuals : List A) (indices : List ℤ)
      (ranges : List A)
      → writes_of i (copy_back order outputs actuals indices ranges)
        ≡ repeated (occurrences i order) (write_of i outputs actuals indices ranges)
  unfolding copy_back occurrences repeated writes_of
  writes_of-copy_back i [] outputs actuals indices ranges = refl
  writes_of-copy_back i (negsuc j ∷ order) outputs actuals indices ranges =
      writes_of-copy_back i order outputs actuals indices ranges
  writes_of-copy_back i (pos j ∷ order) outputs actuals indices ranges =
      elim (Bool-cases (i == j)) [
        | inl e ↦
            let same = (==_iff i j).0 e in
            subst
              (λ k.
                writes_of i (
                  copy_one k (flatten (get_elem? outputs k)) (operand_of k indices ranges)
                    (get_elem? actuals k) (copy_back order outputs actuals indices ranges))
                ≡ write_of i outputs actuals indices ranges
                  ++ repeated (occurrences i order) (write_of i outputs actuals indices ranges))
              same
              (writes_of-same i _ _ _ (copy_back order outputs actuals indices ranges)
                ∙ ap (λ ws. write_of i outputs actuals indices ranges ++ ws)
                    (writes_of-copy_back i order outputs actuals indices ranges))
            ∙ sym (
                ap (λ n. repeated n (write_of i outputs actuals indices ranges))
                  (occurrences-here i j order e))
        | inr e ↦
            writes_of-other i j _ _ _ (copy_back order outputs actuals indices ranges) e
            ∙ writes_of-copy_back i order outputs actuals indices ranges
            ∙ sym (
                ap (λ n. repeated n (write_of i outputs actuals indices ranges))
                  (occurrences-other i j order e))
      ]

  -- The value of a formal after the body, where the formal is written back.
  abbrev pub final_value : A → ParamMode → Option A
  final_value a in_mode = none
  final_value a in_out_mode = some a
  final_value a out_mode = some a

  abbrev reads_of : A → ParamMode → List A → List A
  reads_of a in_mode rest = rest
  reads_of a in_out_mode rest = a ∷ rest
  reads_of a out_mode rest = a ∷ rest

  first_read :
      (content : ℕ → A) (k : ℕ) (g : Formal) (formals : List Formal) (m : ParamMode)
      → g.mode ≡ m
      → object_reads content k (g ∷ formals)
        ≡ reads_of (content k) m (object_reads content (suc k) formals)
  unfolding object_reads
  first_read content k g formals in_mode h = rw h refl
  first_read content k g formals in_out_mode h = rw h refl
  first_read content k g formals out_mode h = rw h refl

  first_split :
      (a : A) (g : Formal) (formals : List Formal) (m : ParamMode) (rest : List A)
      → g.mode ≡ m
      → call_outputs (g ∷ formals) (reads_of a m rest) ≡ final_value a m ∷ call_outputs formals rest
  unfolding call_outputs
  first_split a g formals in_mode rest h = rw h refl
  first_split a g formals in_out_mode rest h = rw h refl
  first_split a g formals out_mode rest h = rw h refl

  first_output :
      (content : ℕ → A) (k : ℕ) (g : Formal) (formals : List Formal)
      → call_outputs (g ∷ formals) (object_reads content k (g ∷ formals))
        ≡ final_value (content k) g.mode
          ∷ call_outputs formals (object_reads content (suc k) formals)
  first_output content k g formals =
      ap (call_outputs (g ∷ formals)) (first_read content k g formals g.mode refl)
      ∙ first_split (content k) g formals g.mode (object_reads content (suc k) formals) refl

  outputs_lem :
      (content : ℕ → A) (k : ℕ) (formals : List Formal) (i j : ℕ) (f : Formal)
      → get_elem? formals i ≡ some f
      → k + i ≡ j
      → flatten (get_elem? (call_outputs formals (object_reads content k formals)) i)
        ≡ final_value (content j) f.mode
  unfolding get_elem?
  outputs_lem content k [] i j f h e = cc
  outputs_lem content k (g ∷ formals) zero j f h e =
      ap (λ l. flatten (get_elem? l 0)) (first_output content k g formals)
      ∙ ap₂ (λ n (x : Formal). final_value (content n) x.mode) (here k j e) (same_some h)
    where
      here : (k j : ℕ) → k + 0 ≡ j → k ≡ j
      here k j e = omega arith
  outputs_lem content k (g ∷ formals) (suc i) j f h e =
      ap (λ l. flatten (get_elem? l (suc i))) (first_output content k g formals)
      ∙ outputs_lem content (suc k) formals i j f h (omega arith)

  -- After a call whose order the verifiers accept, each formal of the subprogram is written back
  -- exactly once where it is writable, and never where it is an in formal. The value is what the
  -- object of that formal holds when the body returns, the range is the one that the indices of the
  -- call map to the formal, and the reference is its actual.
  pub copy_back-lower_return :
      (op : CallOp) (formals : List Formal) (content : ℕ → A) (operands actuals ranges : List A)
      (i : ℕ) (f : Formal) (actual : A)
      → verify_order op.actual_order ≡ true
      → covers op.actual_order (length formals) ≡ true
      → get_elem? formals i ≡ some f
      → get_elem? actuals i ≡ some actual
      → writes_of i (
          copy_back
            (actual_order op (length formals))
            (outputs_after (length operands) formals (lower_return content formals operands))
            actuals
            (index_list op.range_formals)
            ranges)
        ≡ copy_one i
            (final_value (content i) f.mode)
            (operand_of i (index_list op.range_formals) ranges)
            (some actual)
            []
  unfolding lower_return repeated
  copy_back-lower_return op formals content operands actuals ranges i f actual v c h a =
      writes_of-copy_back i (actual_order op (length formals)) _ actuals
        (index_list op.range_formals) ranges
      ∙ ap (λ n. repeated n (write_of i outputs actuals (index_list op.range_formals) ranges))
          (actual_order-once op (length formals) i v c (get_elem?-below formals i f h))
      ∙ append-nil _
      ∙ ap₂ (λ o r. copy_one i o (operand_of i (index_list op.range_formals) ranges) r [])
          (ap (λ l. flatten (get_elem? (call_outputs formals l) i)) (drop-append operands _)
            ∙ outputs_lem content 0 formals i i f h (omega arith))
          a
    where
      outputs : List (Option A)
      outputs =
          call_outputs formals (drop (length operands) (lower_return content formals operands))
