-- ===== src/LowerToLlvm/BinOp/Reduce.antt =====
-- The widths that the modular operators are reduced in (mlir/LowerToLLVM.cpp,
-- lowerModularArithmetic).
use Prim.Native.Nat.{bit_and, bit_or, bit_xor}
use native.Mathlib.Nat.{mod-eq_of_lt, mod-lt}
use native.Mathlib.Decide.{dec_le}
use lalvm.Base.{
  ℕ, ◌+◌, ◌-◌, ◌*◌, ◌%◌, ◌^◌, ◌≤◌, ◌<◌, ◌≡◌, refl, ap, ◌∙◌, arith, ◌==◌, if◌then◌else◌, to_bit,
}
use lalvm.Base.Words.{pow-pos, pow-half, mod_unique}
use lalvm.Base.Powers.{pow-le_iff, pow-split, pow-double, mod-mod-mul, sub-mod_mul, pow_above}
use lalvm.Base.Bits.{bit_or-lt, bit_xor-lt, bit_and_mask}
use lalvm.Llvm.{
  ApInt, ApIntLib, IsApIntLib, Machine, IsMachine, addi, subi, muli, remui, andi, ori, xori, extui,
  trunci, IntPredicate,
}
use lalvm.LowerToLlvm.Emit.{Val, eval, two_operands, lhs, rhs, Env, arith_op, cast}
use lalvm.LowerToLlvm.BinOp.{reduce_once, low_bits_set}

double-le-square : (x : ℕ) → 2 ≤ x → 2 * x ≤ x * x
double-le-square x h = grind arith

product-lt : (a b x : ℕ) → a < x → b < x → a * b < x * x
product-lt a b x p q = grind arith

module _ (l : ApIntLib) (lib : IsApIntLib l) (m : Machine) (machine : IsMachine m) where
  masked : (w x k : ℕ) → m.binary andi w x (low_bits_set l k) ≡ x % 2 ^ k
  masked w x k =
      machine.andi_lem w x (low_bits_set l k)
      ∙ ap (λ (c : ApInt). bit_and x c.bits) (lib.unsigned_max_lem k)
      ∙ bit_and_mask k x

  module _ (w k a b : ℕ) (le : 2 ^ k ≤ 2 ^ w) (ha : a < 2 ^ k) (hb : b < 2 ^ k) where
    twofold : (x : ℕ) → x % 2 ^ w % 2 ^ k ≡ x % 2 ^ k
    twofold x =
        rw (pow-split k w (pow-le_iff k w le)) (mod-mod-mul x (2 ^ (w - k)) (2 ^ k) (pow-pos k))

    pub masked_sum : m.binary andi w (m.binary addi w a b) (low_bits_set l k) ≡ (a + b) % 2 ^ k
    masked_sum = masked w _ k ∙ ap (λ t. t % 2 ^ k) (machine.addi_lem w a b) ∙ twofold (a + b)

    pub masked_product : m.binary andi w (m.binary muli w a b) (low_bits_set l k) ≡ a * b % 2 ^ k
    masked_product = masked w _ k ∙ ap (λ t. t % 2 ^ k) (machine.muli_lem w a b) ∙ twofold (a * b)

    pub masked_difference :
        m.binary andi w (m.binary subi w a b) (low_bits_set l k) ≡ (a + 2 ^ k - b) % 2 ^ k
    masked_difference =
        masked w _ k
        ∙ ap (λ t. t % 2 ^ k) (machine.subi_lem w a b (omega arith))
        ∙ twofold (a + 2 ^ w - b)
        ∙ ap (λ t. (a + t - b) % 2 ^ k) (pow-split k w (pow-le_iff k w le))
        ∙ sub-mod_mul a b (2 ^ (w - k)) (2 ^ k) hb (pow-pos (w - k))

  zext_fits : (c : ApInt) (w : ℕ) → c.bits < 2 ^ w → (l.zext_or_trunc c w).bits ≡ c.bits
  zext_fits c w h = ap (λ (t : ApInt). t.bits) (lib.zext_or_trunc_lem c w) ∙ mod-eq_of_lt h

  subtract_below : (w x d : ℕ) → d ≤ x → x < 2 ^ w → m.binary subi w x d ≡ x - d
  subtract_below w x d le h =
      machine.subi_lem w x d (omega arith)
      ∙ mod_unique (2 ^ w) (x + 2 ^ w - d) (x - d) 1 0 (omega arith) (omega arith)

  reduce_value :
      (w x d : ℕ)
      → x < 2 ^ w
      → x < 2 * d
      → (if to_bit (m.compare_int IntPredicate.uge w x d) == 1 then m.binary subi w x d else x)
        ≡ x % d
  reduce_value w x d hx below = elim (dec_le d x) [
    | yes p ↦ ground (
      arith,
      machine.uge_lem w x d,
      subtract_below w x d p hx,
      mod_unique d x (x - d) 1 0 (omega arith) (omega arith),
    )
    | no p ↦ ground (arith, machine.uge_lem w x d, mod_unique d x x 0 0 (omega arith) refl)
  ]

  -- One conditional subtraction reduces a value below twice the modulus.
  reduce_once_lem :
      (c : ApInt) (e : Env) (w x : ℕ) (s : Val)
      → eval m e s ≡ x
      → c.bits < 2 ^ w
      → x < 2 ^ w
      → x < 2 * c.bits
      → eval m e (reduce_once l c w s) ≡ x % c.bits
  unfolding reduce_once eval
  reduce_once_lem c e w x s es hc hx below =
      rw (es, zext_fits c w hc) (reduce_value w x c.bits hx below)

  -- In the storage width: `or` and `xor` stay below twice the modulus.
  module _ (c : ApInt) (w a b : ℕ) (hc : c.bits < 2 ^ w) (ha : a < c.bits) (hb : b < c.bits) where
    pub reduced_or :
        eval m (two_operands a b) (reduce_once l c w (arith_op ori w lhs rhs)) ≡ bit_or a b % c.bits
    unfolding eval
    reduced_or =
        let (k, above, below) = pow_above c.bits (omega arith) in
        reduce_once_lem c (two_operands a b) w (bit_or a b) (arith_op ori w lhs rhs)
          (machine.ori_lem w a b) hc (bit_or-lt w a b (omega arith) (omega arith))
          (omega (arith, bit_or-lt k a b (omega arith) (omega arith)))

    pub reduced_xor :
        eval m (two_operands a b) (reduce_once l c w (arith_op xori w lhs rhs))
        ≡ bit_xor a b % c.bits
    unfolding eval
    reduced_xor =
        let (k, above, below) = pow_above c.bits (omega arith) in
        reduce_once_lem c (two_operands a b) w (bit_xor a b) (arith_op xori w lhs rhs)
          (machine.xori_lem w a b) hc (bit_xor-lt w a b (omega arith) (omega arith))
          (omega (arith, bit_xor-lt k a b (omega arith) (omega arith)))

  -- In twice the width: sums, differences and products do not wrap.
  module _ (c : ApInt) (w a b : ℕ) (wide : 0 < w) (hc : c.bits ≤ 2 ^ w) (ha : a < c.bits)
      (hb : b < c.bits) where
    room : 2 * 2 ^ w ≤ 2 ^ (2 * w)
    room =
        rw (pow-double w)
          (double-le-square (2 ^ w) (omega (arith, pow-half w wide, pow-pos (w - 1))))

    product_room : a * b < 2 ^ (2 * w)
    product_room = rw (pow-double w) (product-lt a b (2 ^ w) (omega arith) (omega arith))

    pub cut : (x : ℕ) → m.cast trunci (2 * w) w (x % c.bits) ≡ x % c.bits
    cut x =
        machine.trunci_lem (2 * w) w (x % c.bits)
        ∙ mod-eq_of_lt (omega (arith, mod-lt x {m = c.bits} (omega arith)))

    narrow : (x : ℕ) → x < 2 ^ (2 * w) → x % 2 ^ (2 * w) ≡ x
    narrow x h = mod-eq_of_lt h

    modulus_fits : (l.zext_or_trunc c (2 * w)).bits ≡ c.bits
    modulus_fits = zext_fits c (2 * w) (omega (arith, room, pow-pos w))

    pub wide_sum :
        m.binary addi (2 * w) (m.cast extui w (2 * w) a) (m.cast extui w (2 * w) b) ≡ a + b
    wide_sum =
        rw (machine.extui_lem w (2 * w) a, machine.extui_lem w (2 * w) b)
          (machine.addi_lem (2 * w) a b ∙ narrow (a + b) (omega (arith, room)))

    pub wide_product :
        m.binary remui
          (2 * w)
          (m.binary muli (2 * w) (m.cast extui w (2 * w) a) (m.cast extui w (2 * w) b))
          (l.zext_or_trunc c (2 * w)).bits
        ≡ a * b % c.bits
    wide_product =
        rw
          (
            machine.extui_lem w (2 * w) a,
            machine.extui_lem w (2 * w) b,
            modulus_fits,
            machine.muli_lem (2 * w) a b,
            narrow (a * b) product_room,
          )
          (machine.remui_lem (2 * w) (a * b) c.bits (omega arith))

    pub wide_difference :
        m.binary subi
          (2 * w)
          (m.binary addi (2 * w) (m.cast extui w (2 * w) a) (l.zext_or_trunc c (2 * w)).bits)
          (m.cast extui w (2 * w) b)
        ≡ a + c.bits - b
    wide_difference =
        rw
          (
            machine.extui_lem w (2 * w) a,
            machine.extui_lem w (2 * w) b,
            modulus_fits,
            machine.addi_lem (2 * w) a c.bits,
            narrow (a + c.bits) (omega (arith, room)),
          )
          (subtract_below (2 * w) (a + c.bits) b (omega arith) (omega (arith, room)))

    -- What is below twice the modulus in the wide type is reduced and cut back exactly.
    pub wide_reduced :
        (x : ℕ) (s : Val)
        → eval m (two_operands a b) s ≡ x
        → x < 2 * c.bits
        → eval m (two_operands a b) (cast trunci (2 * w) w (reduce_once l c (2 * w) s)) ≡ x % c.bits
    unfolding eval
    wide_reduced x s e below =
        ap (m.cast trunci (2 * w) w) (
          reduce_once_lem c (two_operands a b) (2 * w) x s e (omega (arith, room, pow-pos w))
            (omega (arith, room)) below)
        ∙ cut x
