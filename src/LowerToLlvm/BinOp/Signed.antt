-- ===== src/LowerToLlvm/BinOp/Signed.antt =====
-- Signed and Boolean operators and their meaning (mlir/LowerToLLVM.cpp,
-- lowerCheckedArithmetic and lowerPlainArithmetic).
use Prim.Native.Nat.{bit_and}
use Prim.Native.String.{String}
use mathlib.Core.Path.{subst}
use lalvm.Base.{
  ℕ, ◌-◌, ◌^◌, ◌<◌, ◌≡◌, ◌≢◌, refl, sym, ap, ap₂, ◌∙◌, true, false, not, Bool, Option, some, none,
  inl, inr, ◌⊎◌, arith, ◌==◌, ◌&&◌, if◌then◌else◌, Bool-cases, Option-cases, to_bit,
}
use native.Mathlib.Decide.{ℕ_discrete}
use lalvm.Base.Words.{signed, encode, fits_signed, add-encode, sub-encode, mul-encode}
use lalvm.Llvm.{
  ApInt, ApIntLib, IsApIntLib, Machine, IsMachine, OverflowOp, sadd, ssub, smul, exact, andi,
  IntPredicate,
}
use lalvm.Dialect.Table.{TypeTable}
use lalvm.Ada.{
  ada_value, IsTyped, signed_binary, signed_exact, checked_result, checked_result-returns,
  signed_division, result_under,
}
use lalvm.LowerToLlvm.Emit.{
  Outcome, raises, run, two_operands, Runs, returns, lhs, rhs, emitted, Lowering, arith_op, ret,
  overflow_checked, overflow_check,
}
use lalvm.LowerToLlvm.Operators.{
  BinaryOp, and_op, or_op, xor_op, plus_op, minus_op, mult_op, div_op, AdaChecks,
  has_overflow_check, has_division_check, Expr, binop, eval_const_int,
}
use lalvm.LowerToLlvm.Operators.ConstEval.{eval_const_int_sound}
use lalvm.LowerToLlvm.BinOp.{
  with_overflow_code, division_code, lower_modular_arithmetic, lower_checked_arithmetic,
  lower_checked_int, lower_plain_arithmetic, plain_int, lower_bin_op, integer_op,
}
use lalvm.LowerToLlvm.BinOp.Quotient.{fits_signed-quot}

-- The checks that the generator puts on a signed or Boolean operator, with a divisor `b` of `w`
-- bits: overflow on +, - and * alone, and on a division the division check, unless the divisor is
-- known to be neither 0 nor -1.
abbrev pub IsSupported : ℕ → ℕ → BinaryOp → Option AdaChecks → Type 0
IsSupported w b plus_op checks = Unit
IsSupported w b minus_op checks = Unit
IsSupported w b mult_op checks = Unit
IsSupported w b div_op checks =
    (has_overflow_check checks ≡ false)
    × ((has_division_check checks ≡ true)
        ⊎ ((has_division_check checks ≡ false) × (b ≢ 0) × (b ≢ 2 ^ w - 1)))
IsSupported w b and_op checks = has_overflow_check checks ≡ false
IsSupported w b or_op checks = has_overflow_check checks ≡ false
IsSupported w b xor_op checks = has_overflow_check checks ≡ false

-- The operators that the overflow check is for.
abbrev IsArithmetic : BinaryOp → Type 0
IsArithmetic plus_op = Unit
IsArithmetic minus_op = Unit
IsArithmetic mult_op = Unit
IsArithmetic _ = ⊥

module _ (l : ApIntLib) (lib : IsApIntLib l) (m : Machine) (machine : IsMachine m) (w a b : ℕ)
    (wide : 0 < w) (ha : a < 2 ^ w) (hb : b < 2 ^ w) where
  -- The machine's operation gives the pattern of the exact result.
  plain_exact :
      (k : BinaryOp)
      → IsArithmetic k
      → m.binary (plain_int k) w a b ≡ encode w (signed_exact k (signed w a) (signed w b))
  unfolding plain_int signed_exact
  plain_exact plus_op _ = machine.addi_lem w a b ∙ add-encode w wide a b ha hb
  plain_exact minus_op _ = machine.subi_lem w a b hb ∙ sub-encode w wide a b ha hb
  plain_exact mult_op _ = machine.muli_lem w a b ∙ mul-encode w wide a b ha hb
  plain_exact div_op h = absurd h
  plain_exact and_op h = absurd h
  plain_exact or_op h = absurd h
  plain_exact xor_op h = absurd h

  raise_unless :
      (fits : Bool) (n : ℕ)
      → (if to_bit (not fits) == 1 then raises overflow_check else returns n)
        ≡ (if fits then returns n else raises overflow_check)
  raise_unless true n = refl
  raise_unless false n = refl

  -- The intrinsic and its raise give the checked result.
  overflow_checked_lem :
      (o : OverflowOp)
      → run m (two_operands a b) (overflow_checked o w lhs rhs)
        ≡ checked_result w (exact o (signed w a) (signed w b))
  unfolding run checked_result
  overflow_checked_lem o =
      let law = machine.with_overflow_lem o w a b in
      rw (ap (λ (p : ℕ × Bool). p.1) law, ap (λ (p : ℕ × Bool). p.0) law)
        (raise_unless (fits_signed w (exact o (signed w a) (signed w b)))
          (encode w (exact o (signed w a) (signed w b))))

  with_overflow_lem :
      (k : BinaryOp)
      → IsArithmetic k
      → Runs m
          (two_operands a b)
          (with_overflow_code k w)
          (checked_result w (signed_exact k (signed w a) (signed w b)))
  unfolding with_overflow_code signed_exact
  with_overflow_lem plus_op _ = overflow_checked_lem sadd
  with_overflow_lem minus_op _ = overflow_checked_lem ssub
  with_overflow_lem mult_op _ = overflow_checked_lem smul
  with_overflow_lem div_op h = absurd h
  with_overflow_lem and_op h = absurd h
  with_overflow_lem or_op h = absurd h
  with_overflow_lem xor_op h = absurd h

  bit_and-to_bit : (p q : Bool) → bit_and (to_bit p) (to_bit q) ≡ to_bit (p && q)
  bit_and-to_bit true true = refl
  bit_and-to_bit true false = refl
  bit_and-to_bit false true = refl
  bit_and-to_bit false false = refl

  overflow_precheck :
      m.binary andi 1
        (to_bit (m.compare_int IntPredicate.eq w a (l.signed_min w).bits))
        (to_bit (m.compare_int IntPredicate.eq w b (l.unsigned_max w).bits))
      ≡ to_bit ((a == 2 ^ (w - 1)) && (b == 2 ^ w - 1))
  overflow_precheck =
      machine.andi_lem 1 _ _
      ∙ ap₂ (λ p q. bit_and (to_bit p) (to_bit q))
          (machine.eq_lem w a _ ∙ ap (λ (c : ApInt). a == c.bits) (lib.signed_min_lem w))
          (machine.eq_lem w b _ ∙ ap (λ (c : ApInt). b == c.bits) (lib.unsigned_max_lem w))
      ∙ bit_and-to_bit (a == 2 ^ (w - 1)) (b == 2 ^ w - 1)

  -- Both prechecks, then the divide.
  division_lem :
      (checks : Option AdaChecks)
      → has_division_check checks ≡ true
      → run m (two_operands a b) (division_code l checks false w) ≡ signed_division w a b
  unfolding division_code run signed_division
  division_lem checks e = elim (ℕ_discrete b 0) [
    | yes z ↦ rw (e, machine.eq_lem w b 0) (ground arith)
    | no n ↦
        rw (e, machine.eq_lem w b 0, overflow_precheck)
          (ground (arith, fits_signed-quot w a b wide ha hb n, machine.divsi_lem w a b n))
  ]

  -- A divisor that can neither be zero nor overflow needs no check.
  unchecked_division_lem :
      (checks : Option AdaChecks)
      → has_division_check checks ≡ false
      → b ≢ 0
      → b ≢ 2 ^ w - 1
      → run m (two_operands a b) (division_code l checks false w) ≡ signed_division w a b
  unfolding division_code run signed_division
  unchecked_division_lem checks e n o =
      rw e (ground (arith, fits_signed-quot w a b wide ha hb n, machine.divsi_lem w a b n))

  supported_division_lem :
      (checks : Option AdaChecks)
      → IsSupported w b div_op checks
      → run m (two_operands a b) (division_code l checks false w) ≡ signed_division w a b
  supported_division_lem checks (_, inl e) = division_lem checks e
  supported_division_lem checks (_, inr (e, n, o)) = unchecked_division_lem checks e n o

  module _ (t : TypeTable) (result_type : String) (left right : Expr)
      (plain_type : t.modulus_of result_type ≡ none) where
    abbrev lowered : BinaryOp → Option AdaChecks → Lowering
    lowered k checks = lower_bin_op l t (integer_op k checks w result_type left right)

    lowered_checked :
        (k : BinaryOp) (checks : Option AdaChecks)
        → IsArithmetic k
        → has_overflow_check checks ≡ true
        → eval_const_int l (binop k checks left right) ≡ none
        → with_overflow_code k w ≡ lowered k checks
    unfolding lower_bin_op lower_checked_arithmetic lower_checked_int with_overflow_code
    lowered_checked plus_op checks _ e f = rw (e, f)
    lowered_checked minus_op checks _ e f = rw (e, f)
    lowered_checked mult_op checks _ e f = rw (e, f)
    lowered_checked div_op checks h e f = absurd h
    lowered_checked and_op checks h e f = absurd h
    lowered_checked or_op checks h e f = absurd h
    lowered_checked xor_op checks h e f = absurd h

    -- Where the value is known no check is emitted.
    lowered_known :
        (k : BinaryOp) (checks : Option AdaChecks) (x : ApInt)
        → IsArithmetic k
        → has_overflow_check checks ≡ true
        → eval_const_int l (binop k checks left right) ≡ some x
        → emitted (ret (arith_op (plain_int k) w lhs rhs)) ≡ lowered k checks
    unfolding lower_bin_op lower_checked_arithmetic lower_checked_int lower_modular_arithmetic
        lower_plain_arithmetic
    lowered_known plus_op checks x _ e f = rw (e, f, plain_type)
    lowered_known minus_op checks x _ e f = rw (e, f, plain_type)
    lowered_known mult_op checks x _ e f = rw (e, f, plain_type)
    lowered_known div_op checks x h e f = absurd h
    lowered_known and_op checks x h e f = absurd h
    lowered_known or_op checks x h e f = absurd h
    lowered_known xor_op checks x h e f = absurd h

    lowered_unchecked :
        (k : BinaryOp) (checks : Option AdaChecks)
        → k ≢ div_op
        → has_overflow_check checks ≡ false
        → emitted (ret (arith_op (plain_int k) w lhs rhs)) ≡ lowered k checks
    unfolding lower_bin_op lower_checked_arithmetic lower_checked_int lower_modular_arithmetic
        lower_plain_arithmetic
    lowered_unchecked div_op checks h e = absurd (h refl)
    lowered_unchecked _ checks h e = rw (e, plain_type)

    lowered_division :
        (checks : Option AdaChecks)
        → has_overflow_check checks ≡ false
        → emitted (division_code l checks false w) ≡ lowered div_op checks
    unfolding lower_bin_op lower_checked_arithmetic lower_checked_int
    lowered_division checks e = rw (e, plain_type)

    module _ (given : ℕ → ℕ) (typed : IsTyped w left × IsTyped w right)
        (va : ada_value given w left ≡ returns a) (vb : ada_value given w right ≡ returns b) where
      abbrev meaning : BinaryOp → Option AdaChecks → Outcome
      meaning k checks = ada_value given w (binop k checks left right)

      meaning_lem :
          (k : BinaryOp) (checks : Option AdaChecks)
          → signed_binary w k checks a b ≡ meaning k checks
      unfolding ada_value
      meaning_lem k checks = rw (va, vb)

      arithmetic_meaning :
          (k : BinaryOp) (checks : Option AdaChecks)
          → IsArithmetic k
          → result_under checks w (signed_exact k (signed w a) (signed w b)) ≡ meaning k checks
      unfolding signed_binary
      arithmetic_meaning plus_op checks _ = meaning_lem plus_op checks
      arithmetic_meaning minus_op checks _ = meaning_lem minus_op checks
      arithmetic_meaning mult_op checks _ = meaning_lem mult_op checks
      arithmetic_meaning div_op checks h = absurd h
      arithmetic_meaning and_op checks h = absurd h
      arithmetic_meaning or_op checks h = absurd h
      arithmetic_meaning xor_op checks h = absurd h

      abbrev Agrees : BinaryOp → Option AdaChecks → Lowering → Type 0
      Agrees k checks code = Runs m (two_operands a b) code (meaning k checks)

      arithmetic_lem :
          (k : BinaryOp) (checks : Option AdaChecks)
          → IsArithmetic k
          → k ≢ div_op
          → Agrees k checks (lowered k checks)
      unfolding run
      arithmetic_lem k checks h n = elim (Bool-cases (has_overflow_check checks)) [
        | inl e ↦ elim (Option-cases (eval_const_int l (binop k checks left right))) [
          | inl f ↦ subst (Agrees k checks) (lowered_checked k checks h e f) (
              subst (Runs m (two_operands a b) (with_overflow_code k w))
                (checked e ∙ arithmetic_meaning k checks h) (with_overflow_lem k h))
          | inr (x, f) ↦
              let (_, _, v) =
                eval_const_int_sound l lib w wide given (binop k checks left right) x typed f in
              subst (Agrees k checks) (lowered_known k checks x h e f) (
                ap returns (
                  plain_exact k h
                  ∙ checked_result-returns w _ x.bits
                      (checked e ∙ arithmetic_meaning k checks h ∙ v))
                ∙ sym v)
        ]
        | inr e ↦
            subst (Agrees k checks) (lowered_unchecked k checks n e)
              (ap returns (plain_exact k h) ∙ wraps e ∙ arithmetic_meaning k checks h)
      ]
        where
          checked :
              has_overflow_check checks ≡ true
              → checked_result w (signed_exact k (signed w a) (signed w b))
                ≡ result_under checks w (signed_exact k (signed w a) (signed w b))
          checked e = rw e

          wraps :
              has_overflow_check checks ≡ false
              → returns (encode w (signed_exact k (signed w a) (signed w b)))
                ≡ result_under checks w (signed_exact k (signed w a) (signed w b))
          wraps e = rw e

      -- A signed or Boolean operator compiles to code that does what the operator means: for +, -
      -- and * it returns the exact integer or raises Constraint_Error where the type does not hold
      -- it, also where the compiler finds the value itself and leaves the check out; without the
      -- check it wraps; a division raises on a zero divisor and on overflow, and truncates, also
      -- where it carries no check because its divisor is neither 0 nor -1. The division and the
      -- logical operators carry no overflow check.
      pub lower_bin_op-signed :
          (k : BinaryOp) (checks : Option AdaChecks)
          → IsSupported w b k checks
          → Runs m
              (two_operands a b)
              (lower_bin_op l t (integer_op k checks w result_type left right))
              (ada_value given w (binop k checks left right))
      unfolding run signed_binary plain_int
      lower_bin_op-signed plus_op checks h = arithmetic_lem plus_op checks tt cc
      lower_bin_op-signed minus_op checks h = arithmetic_lem minus_op checks tt cc
      lower_bin_op-signed mult_op checks h = arithmetic_lem mult_op checks tt cc
      lower_bin_op-signed div_op checks h =
          subst (Agrees div_op checks) (lowered_division checks h.0)
            (supported_division_lem checks h ∙ meaning_lem div_op checks)
      lower_bin_op-signed and_op checks h =
          subst (Agrees and_op checks) (lowered_unchecked and_op checks (cc) h)
            (ap returns (machine.andi_lem w a b) ∙ meaning_lem and_op checks)
      lower_bin_op-signed or_op checks h =
          subst (Agrees or_op checks) (lowered_unchecked or_op checks (cc) h)
            (ap returns (machine.ori_lem w a b) ∙ meaning_lem or_op checks)
      lower_bin_op-signed xor_op checks h =
          subst (Agrees xor_op checks) (lowered_unchecked xor_op checks (cc) h)
            (ap returns (machine.xori_lem w a b) ∙ meaning_lem xor_op checks)
