-- ===== src/LowerToLlvm/Checks.antt =====
-- The checks against a range descriptor, and the attributes that read one (mlir/LowerToLLVM.cpp,
-- InRangeCheckOpLowering and AttrOpLowering).
use Prim.Native.String.{String}
use text.Mathlib.Text.{◌==◌ as str_eq}
use Prim.Native.Nat.{bit_or}
use lalvm.Base.{
  ℕ, ◌≡◌, Bool, true, false, not, if◌then◌else◌, to_bit, ap, ap₂, ◌∙◌, refl, ◌&&◌, ◌||◌, arith,
  ◌==◌,
}
use lalvm.Base.Int.{ℤ, leb_ℤ, ltb_ℤ}
use lalvm.Base.Words.{signed}
use lalvm.Llvm.{ori, IntPredicate, fult, fugt, Machine, IsMachine, read_word}
use lalvm.Dialect.Types.{MachineType, int, float, bit_width}
use lalvm.Dialect.Table.{TypeTable}
use lalvm.LowerToLlvm.Emit.{
  Code, Val, extract, arith_op, cmpi, cmpf, ret, raise_if, Entry, range_check, index_check,
  Lowering, emitted, lhs, Runs, run, Env, Outcome, returns, raises,
}
use lalvm.LowerToLlvm.BinOp.{is_modular}

pub data CheckOp : Type 0 where
  range_check_op index_check_op : CheckOp

-- raiseEntry.
abbrev pub raise_entry : CheckOp → Entry
raise_entry range_check_op = range_check
raise_entry index_check_op = index_check

-- The value checked is the first operand; `sym` is its Ada type.
pub record InRangeCheck : Type 0 where
  pub kind : CheckOp
  pub type : MachineType
  pub sym : String

-- Below the low bound, or above the high one.
abbrev pub int_test : Bool → ℕ → Val
int_test modular w =
    arith_op ori 1 (cmpi (if modular then IntPredicate.ult else IntPredicate.slt) w lhs (extract 0))
      (cmpi (if modular then IntPredicate.ugt else IntPredicate.sgt) w lhs (extract 1))

unfoldable pub out_of_range : TypeTable → InRangeCheck → Val
out_of_range t op = elim op.type [
  | float w ↦ arith_op ori 1 (cmpf fult w lhs (extract 0)) (cmpf fugt w lhs (extract 1))
  | _ ↦ int_test (is_modular t op.sym) (bit_width op.type)
]

abbrev pub check_code : TypeTable → InRangeCheck → Code
check_code t op = raise_if (out_of_range t op) (raise_entry op.kind) (ret lhs)

unfoldable pub lower_in_range_check : TypeTable → InRangeCheck → Lowering
lower_in_range_check t op = emitted (check_code t op)

-- `'First` reads field 0, any other attribute field 1.
unfoldable pub lower_attr : String → Lowering
lower_attr name = emitted (ret (extract (if str_eq name "first" then 0 else 1)))

abbrev pub checked_operand : ℕ → ℕ → ℕ → Env
checked_operand n lo hi = record { operands = λ i. n; low = lo; high = hi }

-- The outcome of a check that passes inside the bounds.
abbrev pub check_outcome : Bool → CheckOp → ℕ → Outcome
check_outcome inside kind n = if inside then returns n else raises (raise_entry kind)

module _ (m : Machine) (machine : IsMachine m) where
  bit_or-to_bit : (p q : Bool) → bit_or (to_bit p) (to_bit q) ≡ to_bit (p || q)
  bit_or-to_bit true true = refl
  bit_or-to_bit true false = refl
  bit_or-to_bit false true = refl
  bit_or-to_bit false false = refl

  outside :
      (p q : Bool) (kind : CheckOp) (n : ℕ)
      → (if m.binary ori 1 (to_bit p) (to_bit q) == 1 then raises (raise_entry kind) else returns n)
        ≡ check_outcome (not p && not q) kind n
  outside true true kind n = rw (machine.ori_lem 1 1 1) refl
  outside true false kind n = rw (machine.ori_lem 1 1 0) refl
  outside false true kind n = rw (machine.ori_lem 1 0 1) refl
  outside false false kind n = rw (machine.ori_lem 1 0 0) refl

  not-ltb_ℤ : (x y : ℤ) → not (ltb_ℤ x y) ≡ leb_ℤ y x
  not-ltb_ℤ x y = ground arith

  -- The tests of an integer check are those of the integers, in the order of its type.
  int_tests :
      (uns : Bool) (w n lo hi : ℕ)
      → (not (m.compare_int (if uns then IntPredicate.ult else IntPredicate.slt) w n lo)
          && not (m.compare_int (if uns then IntPredicate.ugt else IntPredicate.sgt) w n hi))
        ≡ (leb_ℤ (read_word uns w lo) (read_word uns w n)
            && leb_ℤ (read_word uns w n) (read_word uns w hi))
  int_tests true w n lo hi = rw (machine.ult_lem w n lo, machine.ugt_lem w n hi) (ground arith)
  int_tests false w n lo hi =
      rw (machine.slt_lem w n lo, machine.sgt_lem w n hi)
        (ap₂ (λ p q. p && q) (not-ltb_ℤ (signed w n) (signed w lo))
          (not-ltb_ℤ (signed w hi) (signed w n)))

  -- A check of an integer value compiles to code that lets the value through unchanged where it lies
  -- between the two bounds of the descriptor, read as unsigned for a modular type and as signed
  -- elsewhere, and raises the check's entry point everywhere else.
  pub lower_in_range_check-int :
      (t : TypeTable) (kind : CheckOp) (w n lo hi : ℕ) (symbol : String)
      → Runs m
          (checked_operand n lo hi)
          (lower_in_range_check t (record { kind = kind; type = int w; sym = symbol }))
          (check_outcome
            (leb_ℤ (read_word (is_modular t symbol) w lo) (read_word (is_modular t symbol) w n)
              && leb_ℤ (read_word (is_modular t symbol) w n) (read_word (is_modular t symbol) w hi))
            kind
            n)
  unfolding lower_in_range_check out_of_range run
  lower_in_range_check-int t kind w n lo hi symbol =
      outside _ _ kind n
      ∙ ap (λ p. check_outcome p kind n) (int_tests (is_modular t symbol) w n lo hi)
