-- ===== src/LowerToLlvm/Verified.antt =====
-- The verifiers and the lowerings together (mlir/Dialect.cpp, mlir/LowerToLLVM.cpp).
use Prim.Native.String.{String}
use lalvm.Base.{
  ℕ, ◌≡◌, ◌≢◌, refl, Bool, true, false, not, Option, some, inl, inr, ◌&&◌, Bool-cases, Option-cases,
  arith,
}
use lalvm.Llvm.{ApInt, ApIntLib}
use lalvm.Dialect.Types.{
  MachineType, int, float, array, other_type, machine_eq, is_numeric_machine_type, is_float_type,
}
use lalvm.Dialect.Table.{TypeTable}
use lalvm.Dialect.Verify.{
  ValueType, machine_type_of, verify_same_machine_type, verify_bin_op, verify_cmp_op, verify_un_op,
  is_not, qual,
}
use lalvm.LowerToLlvm.BinOp.{
  BinOp, is_some, lower_bin_op, lower_checked_arithmetic, lower_checked_int, plain_float,
  lower_modular_arithmetic, lower_plain_arithmetic, with_overflow_code, or_else, modular_code,
  power_of_2_code, wide_modulus_code, is_full_width_modulus, low_bits_set,
}
use lalvm.LowerToLlvm.Emit.{
  Code, Lowering, inapplicable, unsupported, asserts, emitted, Val, ret, float_op,
}
use lalvm.LowerToLlvm.Operators.{
  BinaryOp, UnaryOp, not_op, plus_op, minus_op, abs_op, mult_op, div_op, and_op, or_op, xor_op,
  RelationalOp, AdaChecks, has_overflow_check, Expr, binop, eval_const_int,
}
use lalvm.LowerToLlvm.CmpOp.{lower_cmp_op}
use lalvm.LowerToLlvm.UnOp.{lower_un_op, lower_float_un_op, needs_overflow_code}

-- The operation is replaced.
abbrev pub IsEmitted : Lowering → Type 0
IsEmitted inapplicable = ⊥
IsEmitted unsupported = ⊥
IsEmitted asserts = ⊥
IsEmitted (emitted c) = Unit

-- The value is of a float type, where the operands are.
abbrev pub IsFloatValue : Val → Type 0
IsFloatValue (float_op o w a b) = Unit
IsFloatValue _ = ⊥

abbrev pub IsOfType : MachineType → Lowering → Type 0
IsOfType (float w) (emitted (ret v)) = IsFloatValue v
IsOfType (float w) _ = ⊥
IsOfType _ c = Unit

abbrev pub is_logical : BinaryOp → Bool
is_logical and_op = true
is_logical or_op = true
is_logical xor_op = true
is_logical plus_op = false
is_logical minus_op = false
is_logical mult_op = false
is_logical div_op = false

abbrev pub is_arithmetic : BinaryOp → Bool
is_arithmetic plus_op = true
is_arithmetic minus_op = true
is_arithmetic mult_op = true
is_arithmetic and_op = false
is_arithmetic or_op = false
is_arithmetic xor_op = false
is_arithmetic div_op = false

first_of : (p q : Bool) → (p && q) ≡ true → p ≡ true
first_of true q h = refl
first_of false q h = cc

second_of : (p q : Bool) → (p && q) ≡ true → q ≡ true
second_of true q h = h
second_of false q h = cc

numeric_like :
    (a b : MachineType)
    → machine_eq a b ≡ true
    → is_numeric_machine_type b ≡ true
    → is_numeric_machine_type a ≡ true
unfolding machine_eq
numeric_like (int w) b e h = refl
numeric_like (float w) b e h = refl
numeric_like (array c x) (int w) e h = cc
numeric_like (array c x) (float w) e h = cc
numeric_like (array c x) (array d y) e h = cc
numeric_like (array c x) (other_type k) e h = cc
numeric_like (other_type i) (int w) e h = cc
numeric_like (other_type i) (float w) e h = cc
numeric_like (other_type i) (array d y) e h = cc
numeric_like (other_type i) (other_type k) e h = cc

cmp_lem :
    (t : TypeTable) (k : RelationalOp) (name : String) (a : MachineType)
    → is_numeric_machine_type a ≡ true
    → IsEmitted (lower_cmp_op t (record { kind = k; type = a; sym = name }))
unfolding lower_cmp_op
cmp_lem t k name (int w) h = tt
cmp_lem t k name (float w) h = tt
cmp_lem t k name (array c x) h = cc
cmp_lem t k name (other_type i) h = cc

-- A comparison that the verifier accepts is lowered.
pub lower_cmp_op-verified :
    (t : TypeTable) (kind : RelationalOp) (name : String) (lhs rhs result : ValueType)
    → verify_cmp_op lhs rhs result ≡ true
    → IsEmitted (lower_cmp_op t (record { kind = kind; type = machine_type_of lhs; sym = name }))
unfolding verify_cmp_op
lower_cmp_op-verified t kind name lhs rhs result h =
    cmp_lem t kind name (machine_type_of lhs) (second_of _ _ (first_of _ _ h))

module _ (l : ApIntLib) (t : TypeTable) (checks : Option AdaChecks) (name : String) where
  un_lem :
      (k : UnaryOp) (operand : Expr) (a : MachineType)
      → is_numeric_machine_type a ≡ true
      → (is_float_type a && is_not k) ≡ false
      → (is_float_type a && has_overflow_check checks) ≡ false
      → IsEmitted (
          lower_un_op l t
            (record { kind = k; checks = checks; type = a; sym = name; operand = operand }))
  unfolding lower_un_op lower_float_un_op needs_overflow_code
  un_lem k operand (int w) h f c = tt
  un_lem not_op operand (float w) h f c = cc
  un_lem plus_op operand (float w) h f c = tt
  un_lem minus_op operand (float w) h f c = rw c tt
  un_lem abs_op operand (float w) h f c = tt
  un_lem k operand (array x y) h f c = cc
  un_lem k operand (other_type i) h f c = cc

  not-true : (p : Bool) → not p ≡ true → p ≡ false
  not-true true h = cc
  not-true false h = refl

  -- A unary operator that the verifier accepts is lowered, where a float one carries no overflow
  -- check.
  pub lower_un_op-verified :
      (k : UnaryOp) (operand result : ValueType) (e : Expr)
      → verify_un_op k operand result ≡ true
      → (is_float_type (machine_type_of operand) && has_overflow_check checks) ≡ false
      → IsEmitted (
          lower_un_op l t (record {
            kind = k;
            checks = checks;
            type = machine_type_of operand;
            sym = name;
            operand = e;
          }))
  unfolding verify_un_op
  lower_un_op-verified k operand result e h c =
      let front = first_of _ _ h in
      un_lem k e (machine_type_of operand) (second_of _ _ (first_of _ _ front))
        (not-true _ (second_of _ _ front)) c

  plain_lem :
      (k : BinaryOp) (c : ApInt) (w : ℕ) (code : Code)
      → k ≢ div_op
      → IsEmitted (or_else (modular_code l c k w) (emitted code))
  unfolding modular_code power_of_2_code wide_modulus_code
  plain_lem k c w code n = elim (Bool-cases (is_full_width_modulus l c w)) [
    | inl e ↦ rw e tt
    | inr e ↦ elim (Bool-cases (l.is_power_of_2 c)) [
      | inl f ↦ rw (e, f) (by_power k n)
      | inr f ↦ rw (e, f) (by_width k n)
    ]
  ]
    where
      by_power :
          (k : BinaryOp)
          → k ≢ div_op
          → IsEmitted
              (or_else (power_of_2_code k w (low_bits_set l (l.log_base_2 c))) (emitted code))
      by_power plus_op n = tt
      by_power minus_op n = tt
      by_power mult_op n = tt
      by_power and_op n = tt
      by_power or_op n = tt
      by_power xor_op n = tt
      by_power div_op n = absurd (n refl)

      by_width :
          (k : BinaryOp)
          → k ≢ div_op
          → IsEmitted (or_else (wide_modulus_code l c k w) (emitted code))
      by_width plus_op n = tt
      by_width minus_op n = tt
      by_width mult_op n = tt
      by_width and_op n = tt
      by_width or_op n = tt
      by_width xor_op n = tt
      by_width div_op n = absurd (n refl)

  module _ (left right : Expr) where
    abbrev pub operator : BinaryOp → MachineType → BinOp
    operator k a = record {
      kind = k;
      checks = checks;
      type = a;
      sym = some name;
      left = left;
      right = right;
    }

    float_lem : (k : BinaryOp) (w : ℕ) → IsEmitted (lower_bin_op l t (operator k (float w)))
    unfolding lower_bin_op lower_checked_arithmetic lower_modular_arithmetic lower_plain_arithmetic
    float_lem k w = tt

    overflow_lem :
        (k : BinaryOp) (w : ℕ) → is_arithmetic k ≡ true → IsEmitted (with_overflow_code k w)
    unfolding with_overflow_code
    overflow_lem plus_op w h = tt
    overflow_lem minus_op w h = tt
    overflow_lem mult_op w h = tt
    overflow_lem and_op w h = cc
    overflow_lem or_op w h = cc
    overflow_lem xor_op w h = cc
    overflow_lem div_op w h = cc

    unchecked_lem :
        (k : BinaryOp) (w : ℕ)
        → k ≢ div_op
        → IsEmitted (
            or_else
              (lower_modular_arithmetic l t (operator k (int w)))
              (lower_plain_arithmetic (operator k (int w))))
    unfolding lower_modular_arithmetic lower_plain_arithmetic
    unchecked_lem k w n = elim (Option-cases (t.modulus_of name)) [
      | inl e ↦ rw e tt
      | inr (c, e) ↦ rw e (plain_lem k c w _ n)
    ]

    -- What is left to a later lowering when no overflow code is due.
    unguarded_lem :
        (k : BinaryOp) (w : ℕ)
        → (has_overflow_check checks
            && not (is_some (eval_const_int l (binop k checks left right))))
          ≡ false
        → IsEmitted (lower_bin_op l t (operator k (int w)))
    unfolding lower_bin_op lower_checked_arithmetic lower_checked_int
    unguarded_lem div_op w e = rw e tt
    unguarded_lem plus_op w e = rw e (unchecked_lem plus_op w (cc))
    unguarded_lem minus_op w e = rw e (unchecked_lem minus_op w (cc))
    unguarded_lem mult_op w e = rw e (unchecked_lem mult_op w (cc))
    unguarded_lem and_op w e = rw e (unchecked_lem and_op w (cc))
    unguarded_lem or_op w e = rw e (unchecked_lem or_op w (cc))
    unguarded_lem xor_op w e = rw e (unchecked_lem xor_op w (cc))

    or_else-first : (code next : Lowering) → IsEmitted code → IsEmitted (or_else code next)
    or_else-first inapplicable next h = absurd h
    or_else-first unsupported next h = h
    or_else-first asserts next h = h
    or_else-first (emitted c) next h = h

    guarded_lem :
        (k : BinaryOp) (w : ℕ)
        → is_arithmetic k ≡ true
        → (has_overflow_check checks
            && not (is_some (eval_const_int l (binop k checks left right))))
          ≡ true
        → IsEmitted (lower_bin_op l t (operator k (int w)))
    unfolding lower_bin_op lower_checked_arithmetic lower_checked_int
    guarded_lem k w a e = rw e (or_else-first (with_overflow_code k w) _ (overflow_lem k w a))

    arithmetic_of : (p q r : Bool) → (p && not q) ≡ false → (p && r) ≡ true → q ≡ true
    arithmetic_of p q r h k = ground arith

    bin_lem :
        (k : BinaryOp) (a : MachineType)
        → (has_overflow_check checks && not (is_arithmetic k)) ≡ false
        → is_numeric_machine_type a ≡ true
        → IsEmitted (lower_bin_op l t (operator k a))
    bin_lem k (int w) h numeric =
        elim (Bool-cases (
          has_overflow_check checks
          && not (is_some (eval_const_int l (binop k checks left right))))) [
            | inl e ↦
                guarded_lem k w (arithmetic_of (has_overflow_check checks) (is_arithmetic k) _ h e)
                  e
            | inr e ↦ unguarded_lem k w e
          ]
    bin_lem k (float w) h numeric = float_lem k w
    bin_lem k (array c x) h numeric = cc
    bin_lem k (other_type i) h numeric = cc

    of_type_lem :
        (k : BinaryOp) (a : MachineType)
        → (is_float_type a && is_logical k) ≡ false
        → IsOfType a (lower_bin_op l t (operator k a))
    unfolding lower_bin_op lower_checked_arithmetic lower_modular_arithmetic lower_plain_arithmetic
        plain_float
    of_type_lem plus_op (float w) h = tt
    of_type_lem minus_op (float w) h = tt
    of_type_lem mult_op (float w) h = tt
    of_type_lem div_op (float w) h = tt
    of_type_lem and_op (float w) h = cc
    of_type_lem or_op (float w) h = cc
    of_type_lem xor_op (float w) h = cc
    of_type_lem k (int w) h = tt
    of_type_lem k (array c x) h = tt
    of_type_lem k (other_type i) h = tt

    -- A binary operator with a result of an Ada type that the verifier accepts is lowered, a float
    -- one to a float operation; where only +, - and * carry the overflow check, and no logical
    -- operator has float operands, which the verifier lets pass.
    pub lower_bin_op-verified :
        (k : BinaryOp) (lhs rhs : ValueType) (type : MachineType)
        → verify_bin_op lhs rhs (qual (record { mlir_type = type; ada_type = name })) ≡ true
        → (has_overflow_check checks && not (is_arithmetic k)) ≡ false
        → (is_float_type (machine_type_of lhs) && is_logical k) ≡ false
        → IsEmitted (lower_bin_op l t (operator k (machine_type_of lhs)))
          × IsOfType (machine_type_of lhs) (lower_bin_op l t (operator k (machine_type_of lhs)))
    unfolding verify_bin_op verify_same_machine_type
    lower_bin_op-verified k lhs rhs type h c f = (
      bin_lem k (machine_type_of lhs) c (
          numeric_like (machine_type_of lhs) type
            (second_of _ _ (first_of _ _ (second_of _ _ (first_of _ _ h)))) (second_of _ _ h)),
      of_type_lem k (machine_type_of lhs) f,
    )
