-- ===== src/LowerToLlvm/BinOp/Quotient.antt =====
-- The one signed quotient that overflows (mlir/LowerToLLVM.cpp, the prechecks of integer division).
use native.Mathlib.Nat.{div-le_self, div-one, div-lt_self}
use lalvm.Base.{
  ℕ, suc, zero, ◌+◌, ◌-◌, ◌^◌, ◌≤◌, ◌<◌, ◌≡◌, ◌≢◌, Bool, not, ◌&&◌, ◌==◌, inl, inr, arith,
  Bool-cases, ltb, tests,
}
use lalvm.Base.Int.{pos, negsuc, quot}
use lalvm.Base.Words.{signed, fits_signed, pow-half, pow-pos}

module _ (w a b : ℕ) (wide : 0 < w) (ha : a < 2 ^ w) (hb : b < 2 ^ w) (n : b ≢ 0) where
  abbrev at_limit : Bool
  at_limit = (a == 2 ^ (w - 1)) && (b == 2 ^ w - 1)

  pos_quot_pos :
      a < 2 ^ (w - 1) → b < 2 ^ (w - 1) → fits_signed w (quot (pos a) (pos b)) ≡ not at_limit
  unfolding quot fits_signed
  pos_quot_pos p q = ground (arith, pow-half w wide, pow-pos (w - 1), div-le_self a b)

  pos_quot_neg : (k : ℕ) → a < 2 ^ (w - 1) → fits_signed w (quot (pos a) (negsuc k)) ≡ not at_limit
  unfolding quot fits_signed
  pos_quot_neg k p = ground (arith, pow-half w wide, pow-pos (w - 1), div-le_self a (suc k))

  neg_quot_pos :
      (k : ℕ)
      → k < 2 ^ (w - 1)
      → b < 2 ^ (w - 1)
      → fits_signed w (quot (negsuc k) (pos b)) ≡ not at_limit
  unfolding quot fits_signed
  neg_quot_pos k p q = ground (arith, pow-half w wide, pow-pos (w - 1), div-le_self (suc k) b)

  neg_quot_neg :
      (j k : ℕ)
      → a + suc j ≡ 2 ^ w
      → b + suc k ≡ 2 ^ w
      → 2 ^ (w - 1) ≤ a
      → fits_signed w (quot (negsuc j) (negsuc k)) ≡ not at_limit
  unfolding quot fits_signed
  neg_quot_neg j zero p q le = ground (arith, pow-half w wide, pow-pos (w - 1), div-one (suc j))
  neg_quot_neg j (suc k) p q le = ground (
    arith,
    pow-half w wide,
    pow-pos (w - 1),
    div-lt_self {n = suc j} {k = suc (suc k)} (omega arith) (omega arith),
  )

  -- Every quotient of two words fits, but that of the least word by -1.
  pub fits_signed-quot : fits_signed w (quot (signed w a) (signed w b)) ≡ not at_limit
  unfolding signed
  fits_signed-quot = elim (Bool-cases (ltb a (2 ^ (w - 1)))) [
    | inl sa ↦ elim (Bool-cases (ltb b (2 ^ (w - 1)))) [
      | inl sb ↦ rw (sa, sb) (pos_quot_pos (omega tests) (omega tests))
      | inr sb ↦ rw (sa, sb) (pos_quot_neg (2 ^ w - b - 1) (omega tests))
    ]
    | inr sa ↦ elim (Bool-cases (ltb b (2 ^ (w - 1)))) [
      | inl sb ↦
          rw (sa, sb) (neg_quot_pos (2 ^ w - a - 1) (ground (arith, pow-half w wide)) (omega tests))
      | inr sb ↦
          rw (sa, sb)
            (neg_quot_neg (2 ^ w - a - 1) (2 ^ w - b - 1) (omega arith) (omega arith)
              (ground arith))
    ]
  ]
