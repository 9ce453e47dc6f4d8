-- ===== src/LowerToLlvm/BinOp/Modular.antt =====
-- Modular operators and their meaning (mlir/LowerToLLVM.cpp, BinOpLowering).
use Prim.Native.String.{String}
use native.Mathlib.Nat.{mod-eq_of_lt}
use lalvm.Base.{
  ℕ, ◌+◌, ◌-◌, ◌*◌, ◌^◌, ◌≤◌, ◌<◌, ◌≡◌, sym, ap, ◌∙◌, true, false, Option, some, inl, inr, arith,
  ◌==◌, Bool-cases, ==_iff,
}
use mathlib.Core.Path.{subst}
use native.Mathlib.Decide.{ℕ_discrete}
use lalvm.Base.Bits.{bit_and-le, bit_or-lt, bit_xor-lt}
use lalvm.Llvm.{ApInt, ApIntLib, IsApIntLib, Machine, IsMachine, trunci}
use lalvm.Dialect.Table.{TypeTable}
use lalvm.Ada.{modular_binary}
use lalvm.LowerToLlvm.Emit.{
  run, two_operands, Runs, returns, lhs, rhs, emitted, Lowering, inapplicable, arith_op, ret,
}
use lalvm.LowerToLlvm.Operators.{
  BinaryOp, and_op, or_op, xor_op, plus_op, minus_op, mult_op, div_op, AdaChecks,
  has_overflow_check, Expr,
}
use lalvm.LowerToLlvm.BinOp.{
  power_of_2_code, wide_modulus_code, modular_code, low_bits_set, is_full_width_modulus,
  lower_modular_arithmetic, lower_checked_arithmetic, lower_checked_int, lower_plain_arithmetic,
  plain_int, lower_bin_op, integer_op, or_else,
}
use lalvm.LowerToLlvm.BinOp.Reduce.{
  masked_sum, masked_product, masked_difference, reduced_or, reduced_xor, cut, wide_sum,
  wide_product, wide_difference, wide_reduced,
}

-- The operators that arithmetic reduces, rather than division.
abbrev pub IsReduced : BinaryOp → Type 0
IsReduced div_op = ⊥
IsReduced plus_op = Unit
IsReduced minus_op = Unit
IsReduced mult_op = Unit
IsReduced and_op = Unit
IsReduced or_op = Unit
IsReduced xor_op = Unit

module _ (l : ApIntLib) (lib : IsApIntLib l) (m : Machine) (machine : IsMachine m) where
  -- A modulus 2 ** w: the machine's wraparound is the modular one.
  plain_full_width :
      (kind : BinaryOp) (w a b : ℕ)
      → IsReduced kind
      → a < 2 ^ w
      → b < 2 ^ w
      → m.binary (plain_int kind) w a b ≡ modular_binary kind (2 ^ w) a b
  unfolding plain_int modular_binary
  plain_full_width plus_op w a b _ ha hb = machine.addi_lem w a b
  plain_full_width minus_op w a b _ ha hb = machine.subi_lem w a b hb
  plain_full_width mult_op w a b _ ha hb = machine.muli_lem w a b
  plain_full_width and_op w a b _ ha hb =
      machine.andi_lem w a b ∙ sym (mod-eq_of_lt (omega (arith, bit_and-le w a b ha)))
  plain_full_width or_op w a b _ ha hb =
      machine.ori_lem w a b ∙ sym (mod-eq_of_lt (bit_or-lt w a b ha hb))
  plain_full_width xor_op w a b _ ha hb =
      machine.xori_lem w a b ∙ sym (mod-eq_of_lt (bit_xor-lt w a b ha hb))
  plain_full_width div_op w a b h ha hb = absurd h

  -- Any other modulus that is a power of two, with the plain code where the helper leaves it.
  power_of_2_lem :
      (kind : BinaryOp) (w k a b : ℕ)
      → IsReduced kind
      → 2 ^ k ≤ 2 ^ w
      → a < 2 ^ k
      → b < 2 ^ k
      → Runs m
          (two_operands a b)
          (or_else
            (power_of_2_code kind w (low_bits_set l k))
            (emitted (ret (arith_op (plain_int kind) w lhs rhs))))
          (returns (modular_binary kind (2 ^ k) a b))
  unfolding power_of_2_code plain_int modular_binary run
  power_of_2_lem plus_op w k a b _ le ha hb =
      ap returns (masked_sum l lib m machine w k a b le ha hb)
  power_of_2_lem minus_op w k a b _ le ha hb =
      ap returns (masked_difference l lib m machine w k a b le ha hb)
  power_of_2_lem mult_op w k a b _ le ha hb =
      ap returns (masked_product l lib m machine w k a b le ha hb)
  power_of_2_lem and_op w k a b _ le ha hb =
      ap returns (machine.andi_lem w a b ∙ sym (mod-eq_of_lt (omega (arith, bit_and-le k a b ha))))
  power_of_2_lem or_op w k a b _ le ha hb =
      ap returns (machine.ori_lem w a b ∙ sym (mod-eq_of_lt (bit_or-lt k a b ha hb)))
  power_of_2_lem xor_op w k a b _ le ha hb =
      ap returns (machine.xori_lem w a b ∙ sym (mod-eq_of_lt (bit_xor-lt k a b ha hb)))
  power_of_2_lem div_op w k a b h le ha hb = absurd h

  -- A modulus that is no power of two, with the plain code where the helper leaves it.
  wide_modulus_lem :
      (kind : BinaryOp) (c : ApInt) (w a b : ℕ)
      → IsReduced kind
      → 0 < w
      → c.bits < 2 ^ w
      → a < c.bits
      → b < c.bits
      → Runs m
          (two_operands a b)
          (or_else
            (wide_modulus_code l c kind w)
            (emitted (ret (arith_op (plain_int kind) w lhs rhs))))
          (returns (modular_binary kind c.bits a b))
  unfolding wide_modulus_code plain_int modular_binary run
  wide_modulus_lem plus_op c w a b _ wide hc ha hb = ap returns (
      wide_reduced l lib m machine c w a b wide (omega arith) ha hb (a + b) _
        (wide_sum l lib m machine c w a b wide (omega arith) ha hb) (omega arith))
  wide_modulus_lem minus_op c w a b _ wide hc ha hb = ap returns (
      wide_reduced l lib m machine c w a b wide (omega arith) ha hb (a + c.bits - b) _
        (wide_difference l lib m machine c w a b wide (omega arith) ha hb) (omega arith))
  wide_modulus_lem mult_op c w a b _ wide hc ha hb = ap returns (
      ap (m.cast trunci (2 * w) w) (wide_product l lib m machine c w a b wide (omega arith) ha hb)
      ∙ cut l lib m machine c w a b wide (omega arith) ha hb (a * b))
  wide_modulus_lem and_op c w a b _ wide hc ha hb =
      ap returns (
        machine.andi_lem w a b ∙ sym (mod-eq_of_lt (omega (arith, bit_and-le w a b (omega arith)))))
  wide_modulus_lem or_op c w a b _ wide hc ha hb =
      ap returns (reduced_or l lib m machine c w a b hc ha hb)
  wide_modulus_lem xor_op c w a b _ wide hc ha hb =
      ap returns (reduced_xor l lib m machine c w a b hc ha hb)
  wide_modulus_lem div_op c w a b h wide hc ha hb = absurd h

  full_width :
      (kind : BinaryOp) (w a b size : ℕ)
      → IsReduced kind
      → size ≡ 2 ^ w
      → a < size
      → b < size
      → Runs m
          (two_operands a b)
          (emitted (ret (arith_op (plain_int kind) w lhs rhs)))
          (returns (modular_binary kind size a b))
  unfolding run
  full_width kind w a b size h e ha hb = ap returns (
      plain_full_width kind w a b h (omega arith) (omega arith)
      ∙ ap (λ t. modular_binary kind t a b) (sym e))

  modular_code_full :
      (c : ApInt) (kind : BinaryOp) (w : ℕ)
      → l.is_power_of_2 c ≡ true
      → (l.log_base_2 c == w) ≡ true
      → modular_code l c kind w ≡ inapplicable
  unfolding modular_code is_full_width_modulus
  modular_code_full c kind w p q = rw (p, q)

  modular_code_power :
      (c : ApInt) (kind : BinaryOp) (w : ℕ)
      → l.is_power_of_2 c ≡ true
      → (l.log_base_2 c == w) ≡ false
      → modular_code l c kind w ≡ power_of_2_code kind w (low_bits_set l (l.log_base_2 c))
  unfolding modular_code is_full_width_modulus
  modular_code_power c kind w p q = rw (p, q)

  modular_code_wide :
      (c : ApInt) (kind : BinaryOp) (w : ℕ)
      → l.is_power_of_2 c ≡ false
      → modular_code l c kind w ≡ wide_modulus_code l c kind w
  unfolding modular_code is_full_width_modulus
  modular_code_wide c kind w p = rw p

  -- A modulus that is no power of two is not 2 ** w.
  below_power : (c : ApInt) (w : ℕ) → c.bits ≤ 2 ^ w → l.is_power_of_2 c ≡ false → c.bits < 2 ^ w
  below_power c w le p = elim (ℕ_discrete c.bits (2 ^ w)) [
    | yes e ↦ let q = lib.is_power_of_2-pow c w e in cc
    | no n ↦ omega arith
  ]

  -- Whichever way the modulus is treated, the result is the modular one.
  modular_code_lem :
      (kind : BinaryOp) (c : ApInt) (w a b : ℕ)
      → IsReduced kind
      → 0 < w
      → c.bits ≤ 2 ^ w
      → a < c.bits
      → b < c.bits
      → Runs m
          (two_operands a b)
          (or_else (modular_code l c kind w) (emitted (ret (arith_op (plain_int kind) w lhs rhs))))
          (returns (modular_binary kind c.bits a b))
  modular_code_lem kind c w a b h wide hc ha hb = elim (Bool-cases (l.is_power_of_2 c)) [
    | inl power ↦
        let size : c.bits ≡ 2 ^ l.log_base_2 c = lib.is_power_of_2-log_base_2 c power in
        elim (Bool-cases (l.log_base_2 c == w)) [
          | inl full ↦
              let width : c.bits ≡ 2 ^ w = size ∙ ap (λ k. 2 ^ k) ((==_iff _ w).0 full) in
              subst then_plain (sym (modular_code_full c kind w power full))
                (full_width kind w a b c.bits h width ha hb)
          | inr less ↦ subst then_plain (sym (modular_code_power c kind w power less)) (
              subst
                (λ n.
                  Runs m (two_operands a b)
                    (or_else (power_of_2_code kind w (low_bits_set l (l.log_base_2 c)))
                      (emitted (ret (arith_op (plain_int kind) w lhs rhs))))
                    (returns (modular_binary kind n a b)))
                (sym size)
                (power_of_2_lem kind w (l.log_base_2 c) a b h (omega arith) (omega arith)
                  (omega arith)))
        ]
    | inr no_power ↦
        subst then_plain (sym (modular_code_wide c kind w no_power))
          (wide_modulus_lem kind c w a b h wide (below_power c w hc no_power) ha hb)
  ]
    where
      then_plain : Lowering → Type 0
      then_plain code =
          Runs m (two_operands a b)
            (or_else code (emitted (ret (arith_op (plain_int kind) w lhs rhs))))
            (returns (modular_binary kind c.bits a b))

  lower_bin_op-unchecked :
      (t : TypeTable) (kind : BinaryOp) (checks : Option AdaChecks) (w : ℕ) (sym : String)
      (left right : Expr) (c : ApInt)
      → t.modulus_of sym ≡ some c
      → has_overflow_check checks ≡ false
      → IsReduced kind
      → or_else (modular_code l c kind w) (emitted (ret (arith_op (plain_int kind) w lhs rhs)))
        ≡ lower_bin_op l t (integer_op kind checks w sym left right)
  unfolding lower_bin_op lower_checked_arithmetic lower_checked_int lower_modular_arithmetic
      lower_plain_arithmetic
  lower_bin_op-unchecked t div_op checks w sym left right c modular unchecked h = absurd h
  lower_bin_op-unchecked t _ checks w sym left right c modular unchecked h = rw (unchecked, modular)

  -- An integer operator on a modular type that no check guards compiles to code that returns the
  -- exact result reduced by the modulus, for +, -, * and the logical operators: for operands below
  -- the modulus, whatever the modulus up to 2 ** width.
  pub lower_bin_op-modular :
      (t : TypeTable) (kind : BinaryOp) (checks : Option AdaChecks) (w : ℕ) (sym : String)
      (left right : Expr) (c : ApInt) (a b : ℕ)
      → t.modulus_of sym ≡ some c
      → has_overflow_check checks ≡ false
      → IsReduced kind
      → 0 < w
      → c.bits ≤ 2 ^ w
      → a < c.bits
      → b < c.bits
      → Runs m
          (two_operands a b)
          (lower_bin_op l t (integer_op kind checks w sym left right))
          (returns (modular_binary kind c.bits a b))
  lower_bin_op-modular t kind checks w sym left right c a b modular unchecked h wide hc ha hb =
      subst (λ code. Runs m (two_operands a b) code (returns (modular_binary kind c.bits a b)))
        (lower_bin_op-unchecked t kind checks w sym left right c modular unchecked h)
        (modular_code_lem kind c w a b h wide hc ha hb)
