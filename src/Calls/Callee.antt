-- ===== src/Calls/Callee.antt =====
-- What the body of a subprogram sees, and what it returns (mlir/LowerAdaCalls.cpp, lowerCallee).
use lalvm.Base.{ℕ, suc, Option, none, some, List, [], ◌∷◌, ◌++◌, map}
use lalvm.Base.Lists.{get_elem?, drop}
use lalvm.Dialect.Subprograms.{in_mode, in_out_mode, out_mode}
use lalvm.Calls.{Formal}

-- What replaces an argument of the body: an argument of the function, or a new object, with its
-- initial value where it has one.
pub data Binding {ℓ} (A : Type ℓ) : Type ℓ where
  passed : A → Binding A
  object : Option A → Binding A

abbrev pub cons_both {ℓ} : {B : Type ℓ} → Option B → Option (List B) → Option (List B)
cons_both (some b) (some bs) = some (b ∷ bs)
cons_both (some b) none = none
cons_both none bs = none

-- How many arguments of the function are those of formals.
unfoldable pub input_count : List Formal → ℕ
input_count [] = 0
input_count (f ∷ fs) = elim f.input [ some i ↦ suc (input_count fs) | none ↦ input_count fs ]

-- A place outside of the arguments is an assertion failure, `none`.
module _ {ℓ} {A : Type ℓ} where
  abbrev pub passed_at : Option A → Option (Binding A)
  passed_at (some a) = some (passed a)
  passed_at none = none

  abbrev pub object_at : Option A → Option (Binding A)
  object_at (some a) = some (object (some a))
  object_at none = none

  abbrev pub writable_binding : List A → Option ℕ → Option (Binding A)
  writable_binding inputs (some i) = object_at (get_elem? inputs i)
  writable_binding inputs none = some (object none)

  abbrev pub value_binding : List A → Option ℕ → Option (Binding A)
  value_binding inputs (some i) = passed_at (get_elem? inputs i)
  value_binding inputs none = none

  unfoldable pub formal_binding : List A → Formal → Option (Binding A)
  formal_binding inputs f = elim f.mode [
    | in_mode ↦ value_binding inputs f.input
    | in_out_mode ↦ writable_binding inputs f.input
    | out_mode ↦ writable_binding inputs f.input
  ]

  unfoldable pub formal_bindings : List A → List Formal → Option (List (Binding A))
  formal_bindings inputs [] = some []
  formal_bindings inputs (f ∷ fs) = cons_both (formal_binding inputs f) (formal_bindings inputs fs)

  abbrev pub append_captures : Option (List (Binding A)) → List A → Option (List (Binding A))
  append_captures (some bs) captures = some (bs ++ map passed captures)
  append_captures none captures = none

  -- What replaces the arguments of the body, formals and captures, where the function has these
  -- arguments.
  unfoldable pub bind_arguments : List Formal → List A → Option (List (Binding A))
  bind_arguments formals inputs =
      append_captures (formal_bindings inputs formals) (drop (input_count formals) inputs)

  -- The operands of a return: those of the source, and then a read of every object. `content` is
  -- what the object of a formal holds.
  unfoldable pub object_reads : (ℕ → A) → ℕ → List Formal → List A
  object_reads content i [] = []
  object_reads content i (f ∷ fs) =
      let rest = object_reads content (suc i) fs in
      elim f.mode [ in_mode ↦ rest | in_out_mode ↦ content i ∷ rest | out_mode ↦ content i ∷ rest ]

  unfoldable pub lower_return : (ℕ → A) → List Formal → List A → List A
  lower_return content formals operands = operands ++ object_reads content 0 formals
