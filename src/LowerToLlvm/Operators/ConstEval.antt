-- ===== src/LowerToLlvm/Operators/ConstEval.antt =====
-- The value of a checked constant expression (mlir/LowerToLLVM.cpp, evalConstInt).
use lalvm.Base.{
  ℕ, ◌-◌, ◌^◌, ◌<◌, ◌≡◌, refl, sym, ap, ap₂, ◌∙◌, Bool, true, false, Option, none, some, inl, inr,
  arith, Bool-cases, Option-cases, not,
}
use mathlib.Core.Path.{subst}
use lalvm.Base.Int.{ℤ, pos, ltb_ℤ, ◌-ℤ◌, ◌+ℤ◌, ◌*ℤ◌}
use lalvm.Base.Words.{
  signed, encode, fits_signed, encode-lt, encode-signed, fits_signed-signed, pow-pos,
}
use lalvm.Llvm.{ApInt, ApIntLib, IsApIntLib, wrapped}
use lalvm.LowerToLlvm.Emit.{Outcome, returns}
use lalvm.LowerToLlvm.Operators.{
  BinaryOp, UnaryOp, AdaChecks, has_overflow_check, Expr, ada_constant, arith_constant,
  opaque_value, unop, binop, unless_overflow, zero_of, const_unary, const_binary, const_operator,
  eval_const_int,
}
use lalvm.Ada.{
  ada_value, IsTyped, signed_binary, signed_unary, signed_exact, signed_exact_unary, checked_result,
}

-- A constant of the width, and the value that the meaning returns.
abbrev IsConstant : ℕ → ApInt → Outcome → Type 0
IsConstant w x o = (x.width ≡ w) × (x.bits < 2 ^ w) × (Path Outcome o (returns x.bits))

-- A result that did not overflow is the exact one, and the checks let it pass.
kept : ℕ → ℤ → Bool → Option ApInt
kept w z fits = unless_overflow (record { width = w; bits = encode w z }, not fits)

unless_overflow-wrapped :
    (w : ℕ) (z : ℤ) (r : ApInt × Bool) (x : ApInt)
    → r ≡ wrapped w z
    → unless_overflow r ≡ some x
    → IsConstant w x (checked_result w z)
unfolding checked_result kept
unless_overflow-wrapped w z r x e h = elim (Bool-cases (fits_signed w z)) [
  | inl fits ↦
      let same : x ≡ record { width = w; bits = encode w z } =
        cc (sym h ∙ ap unless_overflow e ∙ ap (kept w z) fits) in
      (
        ap (λ (t : ApInt). t.width) same,
        subst (λ (t : ApInt). t.bits < 2 ^ w) (sym same) (encode-lt w z),
        rw fits (ap (λ (t : ApInt). returns t.bits) (sym same)),
      )
  | inr over ↦ let gone = sym h ∙ ap unless_overflow e ∙ ap (kept w z) over in cc
]

zero_signed : (w : ℕ) → signed w 0 ≡ pos 0
unfolding signed
zero_signed w = ground (arith, pow-pos (w - 1))

module _ (l : ApIntLib) (lib : IsApIntLib l) (w : ℕ) (wide : 0 < w) where
  const_operator_sound :
      (k : BinaryOp) (a b x : ApInt)
      → a.width ≡ w
      → b.width ≡ w
      → const_operator l k a b ≡ some x
      → IsConstant w x (checked_result w (signed_exact k (signed w a.bits) (signed w b.bits)))
  unfolding const_operator signed_exact
  const_operator_sound BinaryOp.plus_op a b x ea eb h =
      unless_overflow-wrapped w _ _ x
        (lib.sadd_ov_lem a b ∙ ap₂ (λ v u. wrapped v (signed v a.bits +ℤ signed u b.bits)) ea eb) h
  const_operator_sound BinaryOp.minus_op a b x ea eb h =
      unless_overflow-wrapped w _ _ x
        (lib.ssub_ov_lem a b ∙ ap₂ (λ v u. wrapped v (signed v a.bits -ℤ signed u b.bits)) ea eb) h
  const_operator_sound BinaryOp.mult_op a b x ea eb h =
      unless_overflow-wrapped w _ _ x
        (lib.smul_ov_lem a b ∙ ap₂ (λ v u. wrapped v (signed v a.bits *ℤ signed u b.bits)) ea eb) h
  const_operator_sound BinaryOp.div_op a b x ea eb h = cc
  const_operator_sound BinaryOp.and_op a b x ea eb h = cc
  const_operator_sound BinaryOp.or_op a b x ea eb h = cc
  const_operator_sound BinaryOp.xor_op a b x ea eb h = cc

  negated :
      (a x : ApInt)
      → a.width ≡ w
      → unless_overflow (l.ssub_ov (zero_of a) a) ≡ some x
      → IsConstant w x (checked_result w (pos 0 -ℤ signed w a.bits))
  negated a x ea h =
      unless_overflow-wrapped w _ _ x
        (lib.ssub_ov_lem (zero_of a) a
          ∙ ap (λ v. wrapped v (signed v 0 -ℤ signed v a.bits)) ea
          ∙ ap (λ t. wrapped w (t -ℤ signed w a.bits)) (zero_signed w))
        h

  unchanged : (a : ApInt) → a.bits < 2 ^ w → checked_result w (signed w a.bits) ≡ returns a.bits
  unfolding checked_result
  unchanged a fa =
      rw (fits_signed-signed w wide a.bits fa) (ap returns (encode-signed w wide a.bits fa))

  -- Under the overflow check the exact result is what the meaning gives.
  unary_sound :
      (k : UnaryOp) (c : Option AdaChecks) (a x : ApInt)
      → a.width ≡ w
      → a.bits < 2 ^ w
      → const_unary l k c (some a) ≡ some x
      → IsConstant w x (signed_unary w k c a.bits)
  unfolding const_unary signed_unary signed_exact_unary
  unary_sound UnaryOp.plus_op c a x ea fa h =
      let same : a ≡ x = cc h in subst (λ t. IsConstant w t (returns a.bits)) same (ea, fa, refl)
  unary_sound UnaryOp.minus_op c a x ea fa h = elim (Bool-cases (has_overflow_check c)) [
    | inl e ↦ rw e (negated a x ea (rw e at h))
    | inr e ↦ let gone = rw e at h in cc
  ]
  unary_sound UnaryOp.abs_op c a x ea fa h = elim (Bool-cases (has_overflow_check c)) [
    | inl e ↦
        let negative = lib.is_negative_lem a ∙ ap (λ v. ltb_ℤ (signed v a.bits) (pos 0)) ea in
        elim (Bool-cases (ltb_ℤ (signed w a.bits) (pos 0))) [
          | inl n ↦ rw (e, n) (negated a x ea (rw (e, negative ∙ n) at h))
          | inr n ↦
              let same : a ≡ x = cc (rw (e, negative ∙ n) at h) in
              rw (e, n)
                (subst (λ t. IsConstant w t (checked_result w (signed w a.bits))) same
                  (ea, fa, unchanged a fa))
        ]
    | inr e ↦ let gone = rw e at h in cc
  ]
  unary_sound UnaryOp.not_op c a x ea fa h = cc

  const_binary-checked :
      (k : BinaryOp) (c : Option AdaChecks) (a b : ApInt)
      → has_overflow_check c ≡ true
      → const_operator l k a b ≡ const_binary l k c (some a) (some b)
  unfolding const_binary
  const_binary-checked k c a b e = rw e

  const_binary-unchecked :
      (k : BinaryOp) (c : Option AdaChecks) (a b : ApInt)
      → has_overflow_check c ≡ false
      → const_binary l k c (some a) (some b) ≡ none
  unfolding const_binary
  const_binary-unchecked k c a b e = rw e

  checked_sound :
      (k : BinaryOp) (c : Option AdaChecks) (a b x : ApInt)
      → has_overflow_check c ≡ true
      → a.width ≡ w
      → b.width ≡ w
      → const_operator l k a b ≡ some x
      → IsConstant w x (signed_binary w k c a.bits b.bits)
  unfolding const_operator signed_binary
  checked_sound BinaryOp.plus_op c a b x e ea eb h =
      rw e (const_operator_sound BinaryOp.plus_op a b x ea eb h)
  checked_sound BinaryOp.minus_op c a b x e ea eb h =
      rw e (const_operator_sound BinaryOp.minus_op a b x ea eb h)
  checked_sound BinaryOp.mult_op c a b x e ea eb h =
      rw e (const_operator_sound BinaryOp.mult_op a b x ea eb h)
  checked_sound _ c a b x e ea eb h = cc

  binary_sound :
      (k : BinaryOp) (c : Option AdaChecks) (a b x : ApInt)
      → a.width ≡ w
      → b.width ≡ w
      → const_binary l k c (some a) (some b) ≡ some x
      → IsConstant w x (signed_binary w k c a.bits b.bits)
  binary_sound k c a b x ea eb h = elim (Bool-cases (has_overflow_check c)) [
    | inl e ↦ checked_sound k c a b x e ea eb (const_binary-checked k c a b e ∙ h)
    | inr e ↦ let gone = sym h ∙ const_binary-unchecked k c a b e in cc
  ]

  const_unary-none : (k : UnaryOp) (c : Option AdaChecks) → const_unary l k c none ≡ none
  unfolding const_unary
  const_unary-none UnaryOp.plus_op c = refl
  const_unary-none _ c = refl

  const_binary-none :
      (k : BinaryOp) (c : Option AdaChecks) (b : Option ApInt) → const_binary l k c none b ≡ none
  unfolding const_binary
  const_binary-none k c b = refl

  const_binary-some-none :
      (k : BinaryOp) (c : Option AdaChecks) (a : ApInt) → const_binary l k c (some a) none ≡ none
  unfolding const_binary
  const_binary-some-none k c a = refl

  -- The value that the code finds at compile time is the one that the expression has: it is a
  -- word of the expression's width, and no check of the expression raises.
  pub eval_const_int_sound :
      (given : ℕ → ℕ) (e : Expr) (x : ApInt)
      → IsTyped w e
      → eval_const_int l e ≡ some x
      → (x.width ≡ w) × (x.bits < 2 ^ w) × (ada_value given w e ≡ returns x.bits)
  unfolding eval_const_int ada_value
  eval_const_int_sound given (ada_constant a) x typed h =
      let same : a ≡ x = cc h in
      subst (λ t. IsConstant w t (returns a.bits)) same (typed.0, typed.1, refl)
  eval_const_int_sound given (arith_constant a) x typed h =
      let same : a ≡ x = cc h in
      subst (λ t. IsConstant w t (returns a.bits)) same (typed.0, typed.1, refl)
  eval_const_int_sound given (opaque_value i) x typed h = cc
  eval_const_int_sound given (unop k c e) x typed h = elim (Option-cases (eval_const_int l e)) [
    | inl gone ↦ let none_found = sym (const_unary-none k c) ∙ (rw gone at h) in cc
    | inr (a, found) ↦
        let (ea, fa, va) = eval_const_int_sound given e a typed found in
        rw va (unary_sound k c a x ea fa (rw found at h))
  ]
  eval_const_int_sound given (binop k c e f) x typed h = elim (Option-cases (eval_const_int l e)) [
    | inl gone ↦
        let none_found = sym (const_binary-none k c (eval_const_int l f)) ∙ (rw gone at h) in cc
    | inr (a, found_a) ↦ elim (Option-cases (eval_const_int l f)) [
      | inl gone ↦
          let none_found = sym (const_binary-some-none k c a) ∙ (rw (found_a, gone) at h) in cc
      | inr (b, found_b) ↦
          let (ea, fa, va) = eval_const_int_sound given e a typed.0 found_a in
          let (eb, fb, vb) = eval_const_int_sound given f b typed.1 found_b in
          rw (va, vb) (binary_sound k c a b x ea eb (rw (found_a, found_b) at h))
    ]
  ]
