-- ===== src/Llvm.antt =====
-- What the passes use of LLVM and MLIR, which are not part of this repository: arbitrary precision
-- integers (APInt, APSInt) and the integer and float operations of the arith and LLVM dialects.
-- Their operations are records that the model takes as parameters, and their documented behaviour
-- is a record of laws over each. `Llvm.Instance` has values of both.
use Prim.Native.Nat.{Ordering, bit_and, bit_or, bit_xor}
use lalvm.Base.{
  ℕ, ◌+◌, ◌-◌, ◌*◌, ◌/◌, ◌%◌, ◌^◌, ◌<◌, ◌≤◌, ◌≡◌, ◌≢◌, Bool, true, not, ltb, leb, ◌==◌,
  if◌then◌else◌,
}
use lalvm.Base.Int.{ℤ, pos, ◌+ℤ◌, ◌-ℤ◌, ◌*ℤ◌, quot, compare_ℤ, leb_ℤ, ltb_ℤ}
use lalvm.Base.Words.{signed, encode, fits_signed}
pub mod Instance

-- llvm::APInt: a bit width, and the bit pattern.
pub record ApInt : Type 0 where
  pub width : ℕ
  pub bits : ℕ

-- llvm::APSInt: an APInt that knows how it is read.
pub record ApsInt : Type 0 where
  pub num : ApInt
  pub is_unsigned : Bool

pub record IsApInt (a : ApInt) : Type 0 where
  pub wide : 0 < a.width
  pub fits : a.bits < 2 ^ a.width

-- The integer that a `w`-bit pattern is read as.
abbrev pub read_word : Bool → ℕ → ℕ → ℤ
read_word is_unsigned w n = if is_unsigned then pos n else signed w n

abbrev pub value : ApsInt → ℤ
value a = read_word a.is_unsigned a.num.width a.num.bits

pub record ApIntLib : Type 0 where
  pub compare_values : ApsInt → ApsInt → Ordering
  pub ext_or_trunc : ApsInt → ℕ → ApInt
  pub sext_or_trunc : ApInt → ℕ → ApInt
  pub zext_or_trunc : ApInt → ℕ → ApInt
  pub sub_one : ApInt → ApInt
  pub signed_min : ℕ → ApInt
  pub signed_max : ℕ → ApInt
  pub unsigned_min : ℕ → ApInt
  pub unsigned_max : ℕ → ApInt
  pub is_negative : ApInt → Bool
  pub is_power_of_2 : ApInt → Bool
  pub log_base_2 : ApInt → ℕ
  pub significant_bits : ApInt → ℕ
  pub sadd_ov : ApInt → ApInt → ApInt × Bool
  pub ssub_ov : ApInt → ApInt → ApInt × Bool
  pub smul_ov : ApInt → ApInt → ApInt × Bool

abbrev pub signed_of : ApInt → ℤ
signed_of a = signed a.width a.bits

-- An exact result cut to `w` bits, with whether it overflowed.
abbrev pub wrapped : ℕ → ℤ → ApInt × Bool
wrapped w z = (record { width = w; bits = encode w z }, not (fits_signed w z))

pub record IsApIntLib (l : ApIntLib) : Type 0 where
  pub compare_values_lem : (a b : ApsInt) → l.compare_values a b ≡ compare_ℤ (value a) (value b)
  pub ext_or_trunc_lem :
      (a : ApsInt) (w : ℕ) → l.ext_or_trunc a w ≡ record { width = w; bits = encode w (value a) }
  pub sext_or_trunc_lem :
      (a : ApInt) (w : ℕ)
      → l.sext_or_trunc a w ≡ record { width = w; bits = encode w (signed_of a) }
  pub zext_or_trunc_lem :
      (a : ApInt) (w : ℕ) → l.zext_or_trunc a w ≡ record { width = w; bits = a.bits % 2 ^ w }
  pub sub_one_lem :
      (a : ApInt)
      → l.sub_one a ≡ record { width = a.width; bits = (a.bits + 2 ^ a.width - 1) % 2 ^ a.width }
  pub signed_min_lem : (w : ℕ) → l.signed_min w ≡ record { width = w; bits = 2 ^ (w - 1) }
  pub signed_max_lem : (w : ℕ) → l.signed_max w ≡ record { width = w; bits = 2 ^ (w - 1) - 1 }
  pub unsigned_min_lem : (w : ℕ) → l.unsigned_min w ≡ record { width = w; bits = 0 }
  pub unsigned_max_lem : (w : ℕ) → l.unsigned_max w ≡ record { width = w; bits = 2 ^ w - 1 }
  pub is_negative_lem : (a : ApInt) → l.is_negative a ≡ ltb_ℤ (signed_of a) (pos 0)
  pub is_power_of_2-log_base_2 :
      (a : ApInt) → l.is_power_of_2 a ≡ true → a.bits ≡ 2 ^ l.log_base_2 a
  pub is_power_of_2-pow : (a : ApInt) (k : ℕ) → a.bits ≡ 2 ^ k → l.is_power_of_2 a ≡ true
  pub significant_bits_lem :
      (a : ApInt)
      → IsApInt a
      → (0 < l.significant_bits a)
        × (fits_signed (l.significant_bits a) (signed_of a) ≡ true)
        × ((k : ℕ) → 0 < k → fits_signed k (signed_of a) ≡ true → l.significant_bits a ≤ k)
  pub sadd_ov_lem : (a b : ApInt) → l.sadd_ov a b ≡ wrapped a.width (signed_of a +ℤ signed_of b)
  pub ssub_ov_lem : (a b : ApInt) → l.ssub_ov a b ≡ wrapped a.width (signed_of a -ℤ signed_of b)
  pub smul_ov_lem : (a b : ApInt) → l.smul_ov a b ≡ wrapped a.width (signed_of a *ℤ signed_of b)

-- Two-operand integer operations of the arith dialect.
pub data BinArith : Type 0 where
  addi subi muli divsi divui remui andi ori xori : BinArith

pub data FloatArith : Type 0 where
  addf subf mulf divf : FloatArith

pub data FloatUnary : Type 0 where
  negf fabs : FloatUnary

pub data IntPredicate : Type 0 where
  eq ne slt sle sgt sge ult ule ugt uge : IntPredicate

-- Ordered and unordered float predicates.
pub data FloatPredicate : Type 0 where
  oeq une olt ole ogt oge fult fugt : FloatPredicate

pub data CastOp : Type 0 where
  extsi extui trunci extf truncf : CastOp

-- The `llvm.s*.with.overflow` intrinsics.
pub data OverflowOp : Type 0 where
  sadd ssub smul : OverflowOp

-- What the operations compute, on bit patterns; the number first is the width.
pub record Machine : Type 0 where
  pub binary : BinArith → ℕ → ℕ → ℕ → ℕ
  pub compare_int : IntPredicate → ℕ → ℕ → ℕ → Bool
  pub cast : CastOp → ℕ → ℕ → ℕ → ℕ
  pub with_overflow : OverflowOp → ℕ → ℕ → ℕ → ℕ × Bool
  pub float_binary : FloatArith → ℕ → ℕ → ℕ → ℕ
  pub float_unary : FloatUnary → ℕ → ℕ → ℕ
  pub compare_float : FloatPredicate → ℕ → ℕ → ℕ → Bool

abbrev pub exact : OverflowOp → ℤ → ℤ → ℤ
exact sadd x y = x +ℤ y
exact ssub x y = x -ℤ y
exact smul x y = x *ℤ y

-- The documented results. Division by zero and the one signed quotient that does not fit are
-- undefined, and have no law. Nothing is said of floats.
pub record IsMachine (m : Machine) : Type 0 where
  pub addi_lem : (w a b : ℕ) → m.binary addi w a b ≡ (a + b) % 2 ^ w
  pub subi_lem : (w a b : ℕ) → b < 2 ^ w → m.binary subi w a b ≡ (a + 2 ^ w - b) % 2 ^ w
  pub muli_lem : (w a b : ℕ) → m.binary muli w a b ≡ a * b % 2 ^ w
  pub divui_lem : (w a b : ℕ) → b ≢ 0 → m.binary divui w a b ≡ a / b
  pub remui_lem : (w a b : ℕ) → b ≢ 0 → m.binary remui w a b ≡ a % b
  pub divsi_lem :
      (w a b : ℕ)
      → b ≢ 0
      → fits_signed w (quot (signed w a) (signed w b)) ≡ true
      → m.binary divsi w a b ≡ encode w (quot (signed w a) (signed w b))
  pub andi_lem : (w a b : ℕ) → m.binary andi w a b ≡ bit_and a b
  pub ori_lem : (w a b : ℕ) → m.binary ori w a b ≡ bit_or a b
  pub xori_lem : (w a b : ℕ) → m.binary xori w a b ≡ bit_xor a b
  pub eq_lem : (w a b : ℕ) → m.compare_int eq w a b ≡ (a == b)
  pub ne_lem : (w a b : ℕ) → m.compare_int ne w a b ≡ not (a == b)
  pub slt_lem : (w a b : ℕ) → m.compare_int slt w a b ≡ ltb_ℤ (signed w a) (signed w b)
  pub sle_lem : (w a b : ℕ) → m.compare_int sle w a b ≡ leb_ℤ (signed w a) (signed w b)
  pub sgt_lem : (w a b : ℕ) → m.compare_int sgt w a b ≡ ltb_ℤ (signed w b) (signed w a)
  pub sge_lem : (w a b : ℕ) → m.compare_int sge w a b ≡ leb_ℤ (signed w b) (signed w a)
  pub ult_lem : (w a b : ℕ) → m.compare_int ult w a b ≡ ltb a b
  pub ule_lem : (w a b : ℕ) → m.compare_int ule w a b ≡ leb a b
  pub ugt_lem : (w a b : ℕ) → m.compare_int ugt w a b ≡ ltb b a
  pub uge_lem : (w a b : ℕ) → m.compare_int uge w a b ≡ leb b a
  pub extsi_lem : (w v n : ℕ) → m.cast extsi w v n ≡ encode v (signed w n)
  pub extui_lem : (w v n : ℕ) → m.cast extui w v n ≡ n
  pub trunci_lem : (w v n : ℕ) → m.cast trunci w v n ≡ n % 2 ^ v
  pub with_overflow_lem :
      (o : OverflowOp) (w a b : ℕ)
      → m.with_overflow o w a b ≡ (
        encode w (exact o (signed w a) (signed w b)),
        not (fits_signed w (exact o (signed w a) (signed w b))),
      )
