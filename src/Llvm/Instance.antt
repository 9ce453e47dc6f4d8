-- ===== src/Llvm/Instance.antt =====
-- Values of the interfaces of Llvm, to apply the theorems to: the operations as LLVM documents
-- them, with a bounded search for the exponent of a power of two.
use Prim.Native.Nat.{bit_and, bit_or, bit_xor}
use mathlib.Core.Path.{subst}
use native.Mathlib.Nat.{two-pow-succ}
use lalvm.Base.{
  ℕ, zero, suc, ◌+◌, ◌-◌, ◌*◌, ◌/◌, ◌%◌, ◌^◌, ◌≤◌, ◌<◌, ◌≡◌, ◌≢◌, Bool, true, false, not, ltb, leb,
  ◌==◌, if◌then◌else◌, refl, ap, sym, ◌∙◌, arith, ltb→lt, Bool-cases, inl, inr, ==_iff,
}
use lalvm.Base.Int.{ℤ, pos, ◌+ℤ◌, ◌-ℤ◌, ◌*ℤ◌, quot, compare_ℤ, leb_ℤ, ltb_ℤ}
use lalvm.Base.Words.{signed, encode, fits_signed, fits_signed-signed, pow-pos}
use lalvm.Llvm.{
  FloatPredicate, oeq, une, olt, ole, ogt, oge, fult, fugt, ApIntLib, IsApIntLib, value, signed_of,
  wrapped, BinArith, addi, subi, muli, divsi, divui, remui, andi, ori, xori, IntPredicate, CastOp,
  extsi, extui, trunci, extf, truncf, Machine, IsMachine, exact,
}

-- The greatest exponent up to `f` whose power is `n`, or `none` below: 0.
abbrev exponent : ℕ → ℕ → ℕ
exponent zero n = 0
exponent (suc f) n = let rest = exponent f n in if n == 2 ^ suc f then suc f else rest

-- The least width from `i` on, of `f` more, that holds a signed integer.
abbrev narrowest : ℕ → ℕ → ℤ → ℕ
narrowest zero i z = i
narrowest (suc f) i z = let rest = narrowest f (suc i) z in if fits_signed i z then i else rest

abbrev pub llvm_ap_int : ApIntLib
llvm_ap_int = record {
  compare_values = λ a b. compare_ℤ (value a) (value b);
  ext_or_trunc = λ a w. record { width = w; bits = encode w (value a) };
  sext_or_trunc = λ a w. record { width = w; bits = encode w (signed_of a) };
  zext_or_trunc = λ a w. record { width = w; bits = a.bits % 2 ^ w };
  sub_one = λ a. record { width = a.width; bits = (a.bits + 2 ^ a.width - 1) % 2 ^ a.width };
  signed_min = λ w. record { width = w; bits = 2 ^ (w - 1) };
  signed_max = λ w. record { width = w; bits = 2 ^ (w - 1) - 1 };
  unsigned_min = λ w. record { width = w; bits = 0 };
  unsigned_max = λ w. record { width = w; bits = 2 ^ w - 1 };
  is_negative = λ a. ltb_ℤ (signed_of a) (pos 0);
  is_power_of_2 = λ a. a.bits == 2 ^ exponent a.bits a.bits;
  log_base_2 = λ a. exponent a.bits a.bits;
  significant_bits = λ a. narrowest (a.width - 1) 1 (signed_of a);
  sadd_ov = λ a b. wrapped a.width (signed_of a +ℤ signed_of b);
  ssub_ov = λ a b. wrapped a.width (signed_of a -ℤ signed_of b);
  smul_ov = λ a b. wrapped a.width (signed_of a *ℤ signed_of b);
}

exponent-pow : (f k : ℕ) → k ≤ f → 2 ^ exponent f (2 ^ k) ≡ 2 ^ k
exponent-pow zero k h = let e : k ≡ 0 = omega arith in rw e refl
exponent-pow (suc f) k h = elim (Bool-cases (2 ^ k == 2 ^ suc f)) [
  | inl e ↦ rw e (sym ((==_iff _ _).0 e))
  | inr e ↦ elim (Bool-cases (k == suc f)) [
    | inl same ↦ let eq = (==_iff k (suc f)).0 same in absurd (different eq e)
    | inr other ↦ rw e (exponent-pow f k (ground arith))
  ]
]
  where
    different : k ≡ suc f → (2 ^ k == 2 ^ suc f) ≢ false
    different eq h2 =
        let t : (2 ^ k == 2 ^ suc f) ≡ true = (==_iff _ _).1 (ap (λ x. 2 ^ x) eq) in cc

pub le-pow : (k : ℕ) → k ≤ 2 ^ k
le-pow zero = omega arith
le-pow (suc k) = omega (arith, le-pow k, two-pow-succ k, pow-pos k)

pow_found : (n k : ℕ) → n ≡ 2 ^ k → (n == 2 ^ exponent n n) ≡ true
pow_found n k h = (==_iff _ _).1 (rw h (sym (exponent-pow (2 ^ k) k (le-pow k))))

abbrev IsLeast : ℤ → ℕ → Type 0
IsLeast z r =
    (0 < r) × (fits_signed r z ≡ true) × ((k : ℕ) → 0 < k → fits_signed k z ≡ true → r ≤ k)

not_below :
    (i : ℕ) (z : ℤ)
    → ((k : ℕ) → 0 < k → k < i → fits_signed k z ≡ false)
    → (k : ℕ) → 0 < k
    → fits_signed k z ≡ true
    → i ≤ k
not_below i z below k wide h = elim (Bool-cases (ltb k i)) [
  | inl e ↦ let no = sym h ∙ below k wide (ltb→lt k i e) in cc
  | inr e ↦ ground arith
]

-- No width below `i` holds the integer, and the last one tried does.
narrowest_lem :
    (f i : ℕ) (z : ℤ)
    → 0 < i
    → ((k : ℕ) → 0 < k → k < i → fits_signed k z ≡ false)
    → fits_signed (i + f) z ≡ true
    → IsLeast z (narrowest f i z)
narrowest_lem zero i z wide below last =
    let same : i + 0 ≡ i = omega arith in
    (wide, subst (λ w. fits_signed w z ≡ true) same last, not_below i z below)
narrowest_lem (suc f) i z wide below last = elim (Bool-cases (fits_signed i z)) [
  | inl e ↦ rw e (wide, e, not_below i z below)
  | inr e ↦
      let same : i + suc f ≡ suc i + f = omega arith in
      rw e (
        narrowest_lem f (suc i) z (omega arith)
          (λ k low high. elim (Bool-cases (k == i)) [
            | inl here ↦ subst (λ w. fits_signed w z ≡ false) (sym ((==_iff k i).0 here)) e
            | inr other ↦ below k low (ground arith)
          ])
          (subst (λ w. fits_signed w z ≡ true) same last))
]

last_width : (w : ℕ) → 0 < w → w ≡ 1 + (w - 1)
last_width w h = omega arith

pub llvm_ap_int-IsApIntLib : IsApIntLib llvm_ap_int
llvm_ap_int-IsApIntLib = record {
  compare_values_lem = λ a b. refl;
  ext_or_trunc_lem = λ a w. refl;
  sext_or_trunc_lem = λ a w. refl;
  zext_or_trunc_lem = λ a w. refl;
  sub_one_lem = λ a. refl;
  signed_min_lem = λ w. refl;
  signed_max_lem = λ w. refl;
  unsigned_min_lem = λ w. refl;
  unsigned_max_lem = λ w. refl;
  is_negative_lem = λ a. refl;
  is_power_of_2-log_base_2 = λ a h. (==_iff _ _).0 h;
  is_power_of_2-pow = λ a k h. pow_found a.bits k h;
  significant_bits_lem = λ a h.
      narrowest_lem (a.width - 1) 1 (signed_of a) (omega arith) (λ k low high. absurd (omega arith))
        (subst (λ w. fits_signed w (signed_of a) ≡ true) (last_width a.width h.wide)
          (fits_signed-signed a.width h.wide a.bits h.fits));
  sadd_ov_lem = λ a b. refl;
  ssub_ov_lem = λ a b. refl;
  smul_ov_lem = λ a b. refl;
}

abbrev binary_op : BinArith → ℕ → ℕ → ℕ → ℕ
binary_op addi w a b = (a + b) % 2 ^ w
binary_op subi w a b = (a + 2 ^ w - b) % 2 ^ w
binary_op muli w a b = a * b % 2 ^ w
binary_op divsi w a b = encode w (quot (signed w a) (signed w b))
binary_op divui w a b = a / b
binary_op remui w a b = a % b
binary_op andi w a b = bit_and a b
binary_op ori w a b = bit_or a b
binary_op xori w a b = bit_xor a b

abbrev compare_op : IntPredicate → ℕ → ℕ → ℕ → Bool
compare_op IntPredicate.eq w a b = a == b
compare_op IntPredicate.ne w a b = not (a == b)
compare_op IntPredicate.slt w a b = ltb_ℤ (signed w a) (signed w b)
compare_op IntPredicate.sle w a b = leb_ℤ (signed w a) (signed w b)
compare_op IntPredicate.sgt w a b = ltb_ℤ (signed w b) (signed w a)
compare_op IntPredicate.sge w a b = leb_ℤ (signed w b) (signed w a)
compare_op IntPredicate.ult w a b = ltb a b
compare_op IntPredicate.ule w a b = leb a b
compare_op IntPredicate.ugt w a b = ltb b a
compare_op IntPredicate.uge w a b = leb b a

abbrev cast_op : CastOp → ℕ → ℕ → ℕ → ℕ
cast_op extsi w v n = encode v (signed w n)
cast_op extui w v n = n
cast_op trunci w v n = n % 2 ^ v
cast_op extf w v n = n
cast_op truncf w v n = n

abbrev compare_floats : FloatPredicate → ℕ → ℕ → ℕ → Bool
compare_floats oeq w a b = a == b
compare_floats une w a b = not (a == b)
compare_floats olt w a b = ltb a b
compare_floats ole w a b = leb a b
compare_floats ogt w a b = ltb b a
compare_floats oge w a b = leb b a
compare_floats fult w a b = ltb a b
compare_floats fugt w a b = ltb b a

-- Floats have no laws; here they are words.
abbrev pub word_machine : Machine
word_machine = record {
  binary = binary_op;
  compare_int = compare_op;
  cast = cast_op;
  with_overflow = λ o w a b. (
    encode w (exact o (signed w a) (signed w b)),
    not (fits_signed w (exact o (signed w a) (signed w b))),
  );
  float_binary = λ o w a b. a;
  float_unary = λ o w a. a;
  compare_float = compare_floats;
}

pub word_machine-IsMachine : IsMachine word_machine
word_machine-IsMachine = record {
  addi_lem = λ w a b. refl;
  subi_lem = λ w a b h. refl;
  muli_lem = λ w a b. refl;
  divui_lem = λ w a b h. refl;
  remui_lem = λ w a b h. refl;
  divsi_lem = λ w a b h fits. refl;
  andi_lem = λ w a b. refl;
  ori_lem = λ w a b. refl;
  xori_lem = λ w a b. refl;
  eq_lem = λ w a b. refl;
  ne_lem = λ w a b. refl;
  slt_lem = λ w a b. refl;
  sle_lem = λ w a b. refl;
  sgt_lem = λ w a b. refl;
  sge_lem = λ w a b. refl;
  ult_lem = λ w a b. refl;
  ule_lem = λ w a b. refl;
  ugt_lem = λ w a b. refl;
  uge_lem = λ w a b. refl;
  extsi_lem = λ w v n. refl;
  extui_lem = λ w v n. refl;
  trunci_lem = λ w v n. refl;
  with_overflow_lem = λ o w a b. refl;
}
