-- ===== src/Ada.antt =====
-- What the Ada operators mean, as the reference manual gives it, independently of how lalvm
-- compiles them: the specification that the lowerings are proved against.
use Prim.Native.Nat.{bit_and, bit_or, bit_xor}
use lalvm.Base.{
  Bool-cases, inl, inr, Bool, not, ◌&&◌, arith, ◌^◌, ◌<◌, ◌≡◌, Option, ℕ, ◌+◌, ◌-◌, ◌*◌, ◌/◌, ◌%◌,
  ◌==◌, if◌then◌else◌,
}
use lalvm.Base.Int.{leb_ℤ, ℤ, pos, ltb_ℤ, ◌+ℤ◌, ◌-ℤ◌, ◌*ℤ◌, quot}
use lalvm.Base.Words.{pow-half, signed, encode, fits_signed}
use lalvm.LowerToLlvm.Emit.{Outcome, returns, raises, overflow_check, divide_by_zero}
use lalvm.LowerToLlvm.Operators.{
  RelationalOp, UnaryOp, AdaChecks, has_overflow_check, Expr, ada_constant, arith_constant,
  opaque_value, unop, binop, BinaryOp, and_op, or_op, xor_op, plus_op, minus_op, mult_op, div_op,
}

-- Modular operators on values below the modulus `m` (RM 3.5.4, 4.5.1): the exact result reduced
-- by the modulus. Division is checked, and its quotient needs no reduction.
unfoldable pub modular_binary : BinaryOp → ℕ → ℕ → ℕ → ℕ
modular_binary plus_op m a b = (a + b) % m
modular_binary minus_op m a b = (a + m - b) % m
modular_binary mult_op m a b = a * b % m
modular_binary and_op m a b = bit_and a b % m
modular_binary or_op m a b = bit_or a b % m
modular_binary xor_op m a b = bit_xor a b % m
modular_binary div_op m a b = a / b

-- The exact integer result of a signed operator.
unfoldable pub signed_exact : BinaryOp → ℤ → ℤ → ℤ
signed_exact plus_op x y = x +ℤ y
signed_exact minus_op x y = x -ℤ y
signed_exact mult_op x y = x *ℤ y
signed_exact div_op x y = quot x y
signed_exact and_op x y = x
signed_exact or_op x y = x
signed_exact xor_op x y = x

-- A `w`-bit result: the exact integer, or Constraint_Error where no such word holds it (RM 4.5).
unfoldable pub checked_result : ℕ → ℤ → Outcome
checked_result w z = if fits_signed w z then returns (encode w z) else raises overflow_check

-- Signed division (RM 4.5.5, 11.5).
unfoldable pub signed_division : ℕ → ℕ → ℕ → Outcome
unfolding checked_result
signed_division w a b =
    if b == 0 then raises divide_by_zero else checked_result w (quot (signed w a) (signed w b))

unfoldable pub modular_division : ℕ → ℕ → Outcome
modular_division a b = if b == 0 then raises divide_by_zero else returns (a / b)

-- The exact result of a signed unary operator.
unfoldable pub signed_exact_unary : UnaryOp → ℤ → ℤ
signed_exact_unary UnaryOp.minus_op x = pos 0 -ℤ x
signed_exact_unary UnaryOp.abs_op x = if ltb_ℤ x (pos 0) then pos 0 -ℤ x else x
signed_exact_unary UnaryOp.plus_op x = x
signed_exact_unary UnaryOp.not_op x = x

-- A result that overflow checks guard, and one that wraps around where they are absent.
abbrev pub result_under : Option AdaChecks → ℕ → ℤ → Outcome
result_under checks w z =
    if has_overflow_check checks then checked_result w z else returns (encode w z)

-- A `w`-bit signed or Boolean operator (RM 4.5). Boolean operators are those of the bits.
unfoldable pub signed_binary : ℕ → BinaryOp → Option AdaChecks → ℕ → ℕ → Outcome
signed_binary w plus_op checks a b =
    result_under checks w (signed_exact plus_op (signed w a) (signed w b))
signed_binary w minus_op checks a b =
    result_under checks w (signed_exact minus_op (signed w a) (signed w b))
signed_binary w mult_op checks a b =
    result_under checks w (signed_exact mult_op (signed w a) (signed w b))
signed_binary w div_op checks a b = signed_division w a b
signed_binary w and_op checks a b = returns (bit_and a b)
signed_binary w or_op checks a b = returns (bit_or a b)
signed_binary w xor_op checks a b = returns (bit_xor a b)

unfoldable pub signed_unary : ℕ → UnaryOp → Option AdaChecks → ℕ → Outcome
signed_unary w UnaryOp.plus_op checks a = returns a
signed_unary w UnaryOp.minus_op checks a =
    result_under checks w (signed_exact_unary UnaryOp.minus_op (signed w a))
signed_unary w UnaryOp.abs_op checks a =
    result_under checks w (signed_exact_unary UnaryOp.abs_op (signed w a))
signed_unary w UnaryOp.not_op checks a = returns (bit_xor a 1)

-- An operand that raises raises for the whole expression.
infixl 5 ◌>>=◌
abbrev pub ◌>>=◌ : Outcome → (ℕ → Outcome) → Outcome
returns n >>= f = f n
raises e >>= f = raises e

-- The value of a `w`-bit signed expression, whose opaque values are given.
unfoldable pub ada_value : (ℕ → ℕ) → ℕ → Expr → Outcome
ada_value given w (ada_constant x) = returns x.bits
ada_value given w (arith_constant x) = returns x.bits
ada_value given w (opaque_value i) = returns (given i)
ada_value given w (unop k checks e) = do a ← ada_value given w e; signed_unary w k checks a
ada_value given w (binop k checks l r) = do
  a ← ada_value given w l
  b ← ada_value given w r
  signed_binary w k checks a b

-- What the verifiers ensure: the constants of an expression are words of its width.
abbrev pub IsTyped : ℕ → Expr → Type 0
IsTyped w (ada_constant x) = (x.width ≡ w) × (x.bits < 2 ^ w)
IsTyped w (arith_constant x) = (x.width ≡ w) × (x.bits < 2 ^ w)
IsTyped w (opaque_value i) = Unit
IsTyped w (unop k checks e) = IsTyped w e
IsTyped w (binop k checks l r) = IsTyped w l × IsTyped w r

-- The relational operators (RM 4.5.2), on integers.
unfoldable pub relation : RelationalOp → ℤ → ℤ → Bool
relation RelationalOp.eq_op x y = leb_ℤ x y && leb_ℤ y x
relation RelationalOp.neq_op x y = not (leb_ℤ x y && leb_ℤ y x)
relation RelationalOp.lt_op x y = ltb_ℤ x y
relation RelationalOp.lte_op x y = leb_ℤ x y
relation RelationalOp.gt_op x y = ltb_ℤ y x
relation RelationalOp.gte_op x y = leb_ℤ y x

-- Equal words are those that stand for equal integers.
pub relation-signed_eq :
    (w a b : ℕ)
    → 0 < w
    → a < 2 ^ w
    → b < 2 ^ w
    → (a == b) ≡ (leb_ℤ (signed w a) (signed w b) && leb_ℤ (signed w b) (signed w a))
unfolding signed
relation-signed_eq w a b wide ha hb = ground (arith, pow-half w wide)

-- Modular unary operators on values below the modulus `m` (RM 3.5.4, 4.5.4, 4.5.6).
unfoldable pub modular_unary : UnaryOp → ℕ → ℕ → ℕ
modular_unary UnaryOp.plus_op m a = a
modular_unary UnaryOp.minus_op m a = (m - a) % m
modular_unary UnaryOp.abs_op m a = a
modular_unary UnaryOp.not_op m a = m - 1 - a

pub checked_result-returns :
    (w : ℕ) (z : ℤ) (n : ℕ) → checked_result w z ≡ returns n → encode w z ≡ n
unfolding checked_result
checked_result-returns w z n h = elim (Bool-cases (fits_signed w z)) [
  | inl e ↦ cc (rw e at h)
  | inr e ↦ let no_return = rw e at h in cc
]
