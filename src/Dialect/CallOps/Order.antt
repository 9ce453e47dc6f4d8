-- ===== src/Dialect/CallOps/Order.antt =====
-- The check of `ada.actual_order` (mlir/Dialect.cpp, CallOp::verify): permutations of the formals.
use mathlib.Core.Path.{subst}
use lalvm.Base.{
  ℕ, zero, suc, ◌+◌, ◌<◌, ◌≤◌, ◌≡◌, refl, sym, ap, ◌∙◌, ◌↔◌, Bool, true, false, to_bit, Option,
  none, some, inl, inr, List, [], ◌∷◌, map, ◌==◌, ==_iff, arith, Option-cases,
}
use lalvm.Base.Int.{ℤ, pos, negsuc}
use lalvm.Base.Lists.{length}
use lalvm.Dialect.CallOps.{mark, mark_index, mark_all, is_some, is_permutation}

-- How often an index stands in the order.
unfoldable pub occurrences : ℕ → List ℤ → ℕ
occurrences j [] = 0
occurrences j (pos i ∷ rest) = to_bit (j == i) + occurrences j rest
occurrences j (negsuc i ∷ rest) = occurrences j rest

abbrev pub AreBelow : ℕ → List ℤ → Type 0
AreBelow n [] = Unit
AreBelow n (pos i ∷ rest) = (i < n) × AreBelow n rest
AreBelow n (negsuc i ∷ rest) = ⊥

-- Every entry is the index of a formal, and every formal stands exactly once.
unfoldable pub IsPermutation : List ℤ → Type 0
IsPermutation order =
    AreBelow (length order) order × ((j : ℕ) → j < length order → occurrences j order ≡ 1)

flag : ℕ → List Bool → ℕ
flag j [] = 0
flag zero (b ∷ seen) = to_bit b
flag (suc j) (b ∷ seen) = flag j seen

free : List Bool → ℕ
free [] = 0
free (true ∷ seen) = free seen
free (false ∷ seen) = suc (free seen)

pub same_some {ℓ} : {A : Type ℓ} {x y : A} → Path (Option A) (some x) (some y) → x ≡ y
same_some {x = x} e = ap (λ o. elim o [ some z ↦ z | none ↦ x ]) e

-- What setting a mark changes.
record Marks (i : ℕ) (seen marked : List Bool) : Type 0 where
  below : i < length seen
  kept : length marked ≡ length seen
  fewer : suc (free marked) ≡ free seen
  flags : (j : ℕ) → flag j marked ≡ to_bit (j == i) + flag j seen

first_flag :
    (seen : List Bool) (j : ℕ) → flag j (true ∷ seen) ≡ to_bit (j == 0) + flag j (false ∷ seen)
unfolding flag
first_flag seen zero = refl
first_flag seen (suc j) = ground arith

later_flag :
    (i : ℕ) (b : Bool) (seen marked : List Bool)
    → ((j : ℕ) → flag j marked ≡ to_bit (j == i) + flag j seen)
    → (j : ℕ) → flag j (b ∷ marked) ≡ to_bit (j == suc i) + flag j (b ∷ seen)
unfolding flag
later_flag i b seen marked flags zero = ground arith
later_flag i b seen marked flags (suc j) = flags j ∙ ap (λ c. to_bit c + flag j seen) shift
  where
    shift : (j == i) ≡ (suc j == suc i)
    shift = ground arith

mark_later :
    (i : ℕ) (b : Bool) (seen marked : List Bool)
    → Marks i seen marked
    → Marks (suc i) (b ∷ seen) (b ∷ marked)
unfolding length free flag
mark_later i b seen marked m = record {
  below = let h = m.below in omega arith;
  kept = ap suc m.kept;
  fewer = counted b;
  flags = later_flag i b seen marked m.flags;
}
  where
    counted : (c : Bool) → suc (free (c ∷ marked)) ≡ free (c ∷ seen)
    counted true = m.fewer
    counted false = ap suc m.fewer

mark-Marks : (i : ℕ) (seen marked : List Bool) → mark i seen ≡ some marked → Marks i seen marked
unfolding mark length free flag
mark-Marks i [] marked h = cc
mark-Marks zero (true ∷ seen) marked h = cc
mark-Marks zero (false ∷ seen) marked h =
    rw (← same_some h)
      (record { below = omega arith; kept = refl; fewer = refl; flags = first_flag seen })
mark-Marks (suc i) (b ∷ seen) marked h = elim (Option-cases (mark i seen)) [
  | inl e ↦ let no = rw e at h in cc
  | inr (rest, e) ↦
      let same : (b ∷ rest) ≡ marked = same_some (rw e at h) in
      rw (← same) (mark_later i b seen rest (mark-Marks i seen rest e))
]

abbrev mark_rest : List ℤ → Option (List Bool) → Option (List Bool)
mark_rest rest o = elim o [ some marked ↦ mark_all rest marked | none ↦ none ]

-- What setting all marks of an order changes.
record MarksAll (order : List ℤ) (seen final : List Bool) : Type 0 where
  below : AreBelow (length seen) order
  fewer : free final + length order ≡ free seen
  kept : length final ≡ length seen
  flags : (j : ℕ) → flag j final ≡ occurrences j order + flag j seen

mark_all-MarksAll :
    (order : List ℤ) (seen final : List Bool)
    → mark_all order seen ≡ some final
    → MarksAll order seen final
unfolding mark_all mark_index occurrences length
mark_all-MarksAll [] seen final h =
    rw (← same_some h)
      (record { below = tt; fewer = omega arith; kept = refl; flags = λ j. omega arith })
mark_all-MarksAll (negsuc i ∷ rest) seen final h = cc
mark_all-MarksAll (pos i ∷ rest) seen final h = elim (Option-cases (mark i seen)) [
  | inl e ↦ let no = subst (λ o. mark_rest rest o ≡ some final) e h in cc
  | inr (marked, e) ↦
      let m = mark-Marks i seen marked e in
      let r =
        mark_all-MarksAll rest marked final (subst (λ o. mark_rest rest o ≡ some final) e h) in
      record {
        below = (m.below, subst (λ n. AreBelow n rest) m.kept r.below);
        fewer = let p = m.fewer in let q = r.fewer in omega arith;
        kept = r.kept ∙ m.kept;
        flags = λ j. let p = m.flags j in let q = r.flags j in omega arith;
      }
]

full : (seen : List Bool) → free seen ≡ 0 → (j : ℕ) → j < length seen → flag j seen ≡ 1
unfolding free flag length
full [] e j h = omega arith
full (true ∷ seen) e zero h = refl
full (true ∷ seen) e (suc j) h = full seen e j (omega arith)
full (false ∷ seen) e j h = omega arith

abbrev none_seen : List ℤ → List Bool
none_seen order = map (λ i. false) order

length-none_seen : (order : List ℤ) → length (none_seen order) ≡ length order
unfolding length
length-none_seen [] = refl
length-none_seen (i ∷ order) = ap suc (length-none_seen order)

free-none_seen : (order : List ℤ) → free (none_seen order) ≡ length order
unfolding length free
free-none_seen [] = refl
free-none_seen (i ∷ order) = ap suc (free-none_seen order)

flag-none_seen : (order : List ℤ) (j : ℕ) → flag j (none_seen order) ≡ 0
unfolding flag
flag-none_seen [] j = refl
flag-none_seen (i ∷ order) zero = refl
flag-none_seen (i ∷ order) (suc j) = flag-none_seen order j

accepted : (order : List ℤ) → is_permutation order ≡ true → IsPermutation order
unfolding is_permutation IsPermutation
accepted order h = elim (Option-cases (mark_all order (none_seen order))) [
  | inl e ↦ let no = rw e at h in cc
  | inr (final, e) ↦
      let m = mark_all-MarksAll order (none_seen order) final e in
      let f = m.fewer in
      let k = free-none_seen order in
      let l = length-none_seen order in
      let once : (j : ℕ) → j < length order → occurrences j order ≡ 1 = λ j below.
        let one = full final (omega arith) j (let n = m.kept in omega arith) in
        let start = flag-none_seen order j in let sum = m.flags j in omega arith in
      (subst (λ n. AreBelow n order) l m.below, once)
]

is_marked :
    (i : ℕ) (seen : List Bool)
    → i < length seen
    → flag i seen ≡ 0
    → (marked : List Bool) × (mark i seen ≡ some marked)
unfolding mark length flag
is_marked i [] h e = absurd (omega arith)
is_marked zero (true ∷ seen) h e = absurd (omega arith)
is_marked zero (false ∷ seen) h e = (true ∷ seen, refl)
is_marked (suc i) (b ∷ seen) h e =
    let (marked, f) = is_marked i seen (omega arith) e in (b ∷ marked, rw f refl)

all_marked :
    (order : List ℤ) (seen : List Bool)
    → AreBelow (length seen) order
    → ((j : ℕ) → j < length seen → occurrences j order + flag j seen ≤ 1)
    → is_some (mark_all order seen) ≡ true
unfolding mark_all mark_index occurrences
all_marked [] seen below once = refl
all_marked (negsuc i ∷ rest) seen below once = absurd below
all_marked (pos i ∷ rest) seen (h, below) once =
    let here = once i h in
    let same = (==_iff i i).1 refl in
    let clear : flag i seen ≡ 0 = (let one : to_bit (i == i) ≡ 1 = ap to_bit same in omega arith) in
    let (marked, e) = is_marked i seen h clear in
    let m = mark-Marks i seen marked e in
    subst (λ o. is_some (mark_rest rest o) ≡ true) (sym e)
      (all_marked rest marked (rw m.kept below) λ j lt.
        let k = m.kept in let bound = once j (omega arith) in let flags = m.flags j in omega arith)

-- The check accepts an order of formals exactly where it is a permutation: every entry is the
-- index of a formal, and every formal stands in it exactly once.
pub is_permutation_lem : (order : List ℤ) → (is_permutation order ≡ true) ↔ IsPermutation order
unfolding IsPermutation is_permutation
is_permutation_lem order = (
  accepted order,
  λ p.
      let l = length-none_seen order in
      all_marked order (none_seen order) (rw l p.0)
        λ j h. let one = p.1 j (omega arith) in let start = flag-none_seen order j in omega arith,
)
