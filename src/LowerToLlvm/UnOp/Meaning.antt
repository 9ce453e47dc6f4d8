-- ===== src/LowerToLlvm/UnOp/Meaning.antt =====
-- Unary operators and their meaning (mlir/LowerToLLVM.cpp, UnOpLowering).
use Prim.Native.String.{String}
use native.Mathlib.Nat.{mod-eq_of_lt}
use native.Mathlib.Decide.{dec_lt}
use lalvm.Base.{
  ℕ, ◌+◌, ◌-◌, ◌%◌, ◌^◌, ◌≤◌, ◌<◌, ◌≡◌, ◌⊎◌, refl, sym, ap, ◌∙◌, true, false, not, Bool, Option,
  some, none, inl, inr, arith, ◌==◌, if◌then◌else◌, Bool-cases, Option-cases, ==_iff, to_bit,
}
use lalvm.Base.Int.{ℤ, pos, ltb_ℤ, ◌-ℤ◌}
use lalvm.Base.Words.{
  mod_unique, signed, encode, fits_signed, pow-pos, pow-half, sub-encode, encode-signed,
  fits_signed-signed,
}
use lalvm.Llvm.{ApInt, ApIntLib, IsApIntLib, Machine, IsMachine, subi, ssub, IntPredicate}
use lalvm.Dialect.Table.{TypeTable}
use lalvm.Ada.{
  signed_unary, checked_result, checked_result-returns, result_under, signed_exact_unary,
  modular_unary, ada_value, IsTyped,
}
use lalvm.LowerToLlvm.Emit.{
  run, two_operands, Code, Runs, returns, raises, overflow_check, lhs, Lowering, Outcome, int_const,
  overflow_checked,
}
use lalvm.LowerToLlvm.Operators.{
  UnaryOp, not_op, plus_op, minus_op, abs_op, AdaChecks, has_overflow_check, Expr, unop,
  eval_const_int,
}
use lalvm.LowerToLlvm.Operators.ConstEval.{eval_const_int_sound}
use lalvm.LowerToLlvm.BinOp.{is_full_width_modulus}
use lalvm.LowerToLlvm.UnOp.{
  not_code, abs_code, wrapping_minus_code, lower_int_un_op, lower_un_op, integer_unop,
  needs_overflow_code,
}

signed-zero : (w : ℕ) → signed w 0 ≡ pos 0
unfolding signed
signed-zero w = ground (arith, pow-pos (w - 1))

-- The negation of a word that is not negative is held by a word.
fits_signed-negated :
    (w a : ℕ)
    → 0 < w
    → a < 2 ^ w
    → ltb_ℤ (signed w a) (pos 0) ≡ false
    → fits_signed w (pos 0 -ℤ signed w a) ≡ true
unfolding signed fits_signed ◌-ℤ◌
fits_signed-negated w a wide ha h = ground (arith, pow-half w wide, pow-pos (w - 1))

raise_unless :
    (fits : Bool) (o : Outcome)
    → (if to_bit (not fits) == 1 then raises overflow_check else o)
      ≡ (if fits then o else raises overflow_check)
raise_unless true n = refl
raise_unless false n = refl

module _ (l : ApIntLib) (lib : IsApIntLib l) (m : Machine) (machine : IsMachine m) (w a : ℕ)
    (wide : 0 < w) (ha : a < 2 ^ w) where
  abbrev negated : ℤ
  negated = pos 0 -ℤ signed w a

  with_overflow_zero : m.with_overflow ssub w 0 a ≡ (encode w negated, not (fits_signed w negated))
  with_overflow_zero =
      machine.with_overflow_lem ssub w 0 a
      ∙ ap (λ z. (encode w (z -ℤ signed w a), not (fits_signed w (z -ℤ signed w a))))
          (signed-zero w)

  sub_zero : m.binary subi w 0 a ≡ encode w negated
  sub_zero =
      machine.subi_lem w 0 a ha
      ∙ sub-encode w wide 0 a (pow-pos w) ha
      ∙ ap (λ z. encode w (z -ℤ signed w a)) (signed-zero w)

  minus_checked :
      run m (two_operands a 0) (overflow_checked ssub w (int_const w 0) lhs)
      ≡ checked_result w negated
  unfolding run checked_result
  minus_checked =
      rw
        (
          ap (λ (p : ℕ × Bool). p.1) with_overflow_zero,
          ap (λ (p : ℕ × Bool). p.0) with_overflow_zero,
        )
        (raise_unless (fits_signed w negated) (returns (encode w negated)))

  abs_checked :
      run m (two_operands a 0) (abs_code true none w)
      ≡ checked_result w (signed_exact_unary abs_op (signed w a))
  unfolding run checked_result abs_code signed_exact_unary
  abs_checked = elim (Bool-cases (ltb_ℤ (signed w a) (pos 0))) [
    | inl e ↦
        rw
          (
            ap (λ (p : ℕ × Bool). p.1) with_overflow_zero,
            ap (λ (p : ℕ × Bool). p.0) with_overflow_zero,
            machine.slt_lem w a 0,
            signed-zero w,
            e,
          )
          (raise_unless (fits_signed w negated) (returns (encode w negated)))
    | inr e ↦
        rw
          (
            ap (λ (p : ℕ × Bool). p.1) with_overflow_zero,
            machine.slt_lem w a 0,
            signed-zero w,
            e,
            fits_signed-negated w a wide ha e,
            fits_signed-signed w wide a ha,
            encode-signed w wide a ha,
          )
          refl
  ]

  abs_unchecked :
      run m (two_operands a 0) (abs_code false none w)
      ≡ returns (encode w (signed_exact_unary abs_op (signed w a)))
  unfolding run abs_code signed_exact_unary
  abs_unchecked = elim (Bool-cases (ltb_ℤ (signed w a) (pos 0))) [
    | inl e ↦ rw (machine.slt_lem w a 0, signed-zero w, e) (ap returns sub_zero)
    | inr e ↦ rw (machine.slt_lem w a 0, signed-zero w, e, encode-signed w wide a ha) refl
  ]

  module _ (t : TypeTable) (result_type : String) (operand : Expr) where
    abbrev lowered : UnaryOp → Option AdaChecks → Lowering
    lowered k checks = lower_un_op l t (integer_unop k checks w result_type operand)

    -- The code that a known value, or the absence of a check, leaves.
    needs-unchecked :
        (k : UnaryOp) (checks : Option AdaChecks)
        → has_overflow_check checks ≡ false
        → needs_overflow_code l (integer_unop k checks w result_type operand) ≡ false
    unfolding needs_overflow_code
    needs-unchecked k checks e = rw e

    needs-known :
        (k : UnaryOp) (checks : Option AdaChecks) (x : ApInt)
        → eval_const_int l (unop k checks operand) ≡ some x
        → needs_overflow_code l (integer_unop k checks w result_type operand) ≡ false
    unfolding needs_overflow_code
    needs-known k checks x f = rw f (ground arith)

    needs-unknown :
        (k : UnaryOp) (checks : Option AdaChecks)
        → has_overflow_check checks ≡ true
        → eval_const_int l (unop k checks operand) ≡ none
        → needs_overflow_code l (integer_unop k checks w result_type operand) ≡ true
    unfolding needs_overflow_code
    needs-unknown k checks e f = rw (e, f)

    module _ (given : ℕ → ℕ) (typed : IsTyped w operand)
        (va : ada_value given w operand ≡ returns a)
        (plain_type : t.modulus_of result_type ≡ none) where
      meaning_lem :
          (k : UnaryOp) (checks : Option AdaChecks)
          → signed_unary w k checks a ≡ ada_value given w (unop k checks operand)
      unfolding ada_value
      meaning_lem k checks = rw va

      -- What the code does that a check needs, or does not.
      negation_lem :
          (k : UnaryOp) (checks : Option AdaChecks) (code : Bool → Code)
          → signed_unary w k checks a ≡ result_under checks w (signed_exact_unary k (signed w a))
          → run m (two_operands a 0) (code true)
            ≡ checked_result w (signed_exact_unary k (signed w a))
          → run m (two_operands a 0) (code false)
            ≡ returns (encode w (signed_exact_unary k (signed w a)))
          → run m
              (two_operands a 0)
              (code (needs_overflow_code l (integer_unop k checks w result_type operand)))
            ≡ ada_value given w (unop k checks operand)
      negation_lem k checks code spec on off = elim (Bool-cases (has_overflow_check checks)) [
        | inl e ↦ elim (Option-cases (eval_const_int l (unop k checks operand))) [
          | inl f ↦ rw (needs-unknown k checks e f) (on ∙ sym (rw e at spec) ∙ meaning_lem k checks)
          | inr (x, f) ↦
              let (_, _, v) =
                eval_const_int_sound l lib w wide given (unop k checks operand) x typed f in
              let known : checked_result w (signed_exact_unary k (signed w a)) ≡ returns x.bits =
                sym (rw e at spec) ∙ meaning_lem k checks ∙ v in
              rw (needs-known k checks x f)
                (off ∙ ap returns (checked_result-returns w _ x.bits known) ∙ sym v)
        ]
        | inr e ↦ rw (needs-unchecked k checks e) (off ∙ sym (rw e at spec) ∙ meaning_lem k checks)
      ]

      -- A signed or Boolean unary operator compiles to code that does what the operator means:
      -- minus and abs return the exact integer or raise Constraint_Error where the type does not
      -- hold it, also where the compiler finds the value itself and leaves the check out; without
      -- the check they wrap; `not` flips the truth value.
      pub lower_un_op-signed :
          (k : UnaryOp) (checks : Option AdaChecks)
          → Runs m
              (two_operands a 0)
              (lower_un_op l t (integer_unop k checks w result_type operand))
              (ada_value given w (unop k checks operand))
      unfolding lower_un_op lower_int_un_op run signed_unary not_code wrapping_minus_code
          signed_exact_unary ◌-ℤ◌
      lower_un_op-signed not_op checks =
          rw plain_type (ap returns (machine.xori_lem w a 1) ∙ meaning_lem not_op checks)
      lower_un_op-signed plus_op checks = meaning_lem plus_op checks
      lower_un_op-signed abs_op checks = rw plain_type (
          negation_lem abs_op checks (λ overflow. abs_code overflow none w) refl abs_checked
            abs_unchecked)
      lower_un_op-signed minus_op checks = rw plain_type (
          negation_lem minus_op checks
            (λ overflow.
              if overflow
              then overflow_checked ssub w (int_const w 0) lhs
              else wrapping_minus_code l none w)
            refl minus_checked (ap returns sub_zero))

    module _ (c : ApInt) (modular : t.modulus_of result_type ≡ some c) (hc : c.bits ≤ 2 ^ w)
        (below : a < c.bits) where
      -- The modulus in the storage width: 0 where it is 2 ** width.
      narrowed :
          (c.bits < 2 ^ w) × (c.bits % 2 ^ w ≡ c.bits) ⊎ (c.bits ≡ 2 ^ w) × (c.bits % 2 ^ w ≡ 0)
      narrowed = elim (dec_lt c.bits (2 ^ w)) [
        | yes p ↦ inl (p, mod-eq_of_lt p)
        | no n ↦ inr ((omega arith), mod_unique (2 ^ w) c.bits 0 1 0 (omega arith) (omega arith))
      ]

      greatest : (l.sub_one (l.zext_or_trunc c w)).bits ≡ c.bits - 1
      greatest =
          ap (λ (x : ApInt). x.bits) (lib.sub_one_lem (l.zext_or_trunc c w))
          ∙ ap (λ (x : ApInt). (x.bits + 2 ^ x.width - 1) % 2 ^ x.width) (lib.zext_or_trunc_lem c w)
          ∙ elim narrowed [
            | inl (p, e) ↦ rw e (
                mod_unique (2 ^ w) (c.bits + 2 ^ w - 1) (c.bits - 1) 1 0 (omega arith)
                  (omega arith))
            | inr (p, e) ↦
                rw e
                  (mod_unique (2 ^ w) (0 + 2 ^ w - 1) (c.bits - 1) 0 0 (omega arith) (omega arith))
          ]

      not_lem : m.binary subi w (l.sub_one (l.zext_or_trunc c w)).bits a ≡ c.bits - 1 - a
      not_lem =
          ap (λ x. m.binary subi w x a) greatest
          ∙ machine.subi_lem w (c.bits - 1) a ha
          ∙ mod_unique (2 ^ w) (c.bits - 1 + 2 ^ w - a) (c.bits - 1 - a) 1 0 (omega arith)
              (omega arith)

      minus_full_width :
          is_full_width_modulus l c w ≡ true → m.binary subi w 0 a ≡ (c.bits - a) % c.bits
      unfolding is_full_width_modulus
      minus_full_width full =
          let size : c.bits ≡ 2 ^ w = elim (Bool-cases (l.is_power_of_2 c)) [
            | inl p ↦
                let same = (==_iff (l.log_base_2 c) w).0 (rw p at full) in
                lib.is_power_of_2-log_base_2 c p ∙ ap (λ k. 2 ^ k) same
            | inr n ↦ let no = rw n at full in cc
          ] in
          let zero_plus : 0 + 2 ^ w ≡ 2 ^ w = omega arith in
          machine.subi_lem w 0 a ha ∙ rw size (ap (λ t. (t - a) % 2 ^ w) zero_plus)

      minus_select :
          (if to_bit (m.compare_int IntPredicate.eq w a 0) == 1
            then 0
            else m.binary subi w (l.zext_or_trunc c w).bits a)
          ≡ (c.bits - a) % c.bits
      minus_select = elim (Bool-cases (a == 0)) [
        | inl z ↦
            rw (machine.eq_lem w a 0, z)
              (sym (mod_unique c.bits (c.bits - a) 0 1 0 (omega arith) (ground arith)))
        | inr n ↦
            rw (machine.eq_lem w a 0, n)
              (ap (λ (x : ApInt). m.binary subi w x.bits a) (lib.zext_or_trunc_lem c w)
                ∙ machine.subi_lem w (c.bits % 2 ^ w) a ha
                ∙ subtracted (ground arith)
                ∙ sym (mod-eq_of_lt (ground arith)))
      ]
        where
          subtracted : 0 < a → (c.bits % 2 ^ w + 2 ^ w - a) % 2 ^ w ≡ c.bits - a
          subtracted positive = elim narrowed [
            | inl (p, e) ↦ rw e (
                mod_unique (2 ^ w) (c.bits + 2 ^ w - a) (c.bits - a) 1 0 (omega arith)
                  (omega arith))
            | inr (p, e) ↦
                rw e
                  (mod_unique (2 ^ w) (0 + 2 ^ w - a) (c.bits - a) 0 0 (omega arith) (omega arith))
          ]

      -- A modular unary operator that no check guards compiles to code that returns the result
      -- that the modulus gives: `not` complements within the modulus, minus wraps around it, abs
      -- and plus keep the value; for an operand below the modulus, whatever the modulus up to
      -- 2 ** width.
      pub lower_un_op-modular :
          (k : UnaryOp) (checks : Option AdaChecks)
          → has_overflow_check checks ≡ false
          → Runs m
              (two_operands a 0)
              (lower_un_op l t (integer_unop k checks w result_type operand))
              (returns (modular_unary k c.bits a))
      unfolding lower_un_op lower_int_un_op run modular_unary not_code wrapping_minus_code abs_code
      lower_un_op-modular not_op checks e = rw modular (ap returns not_lem)
      lower_un_op-modular plus_op checks e = refl
      lower_un_op-modular abs_op checks e = rw modular refl
      lower_un_op-modular minus_op checks e =
          rw (needs-unchecked minus_op checks e, modular)
            (elim (Bool-cases (is_full_width_modulus l c w)) [
              | inl full ↦ rw full (ap returns (minus_full_width full))
              | inr below_full ↦ rw below_full (ap returns minus_select)
            ])
