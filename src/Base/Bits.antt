-- ===== src/Base/Bits.antt =====
-- Laws of the bit operations at every width: bounds, and a mask of low bits as a remainder.
use Prim.Native.Nat.{
  ℕ, zero, suc, ◌+◌, ◌-◌, ◌*◌, ◌/◌, ◌%◌, ◌^◌, ◌≤◌, ◌<◌, min, max, bit_and, bit_or, bit_xor, digits,
  bitwise, differ, bit_and-bitwise, bit_or-bitwise, bit_xor-bitwise,
}
use mathlib.Core.Path.{◌≡◌, refl, ap, sym, ◌∙◌}
use native.Mathlib.Nat.{two-pow-succ, mod-lt, mod-add-div'}
use native.Mathlib.Omega.{arith}
use lalvm.Base.Words.{pow-pos, mod_unique}

-- The native operations stand for a recursion on binary digits with fuel. More fuel than the first
-- number changes nothing, which gives one equation for the lowest digit.
module _ (z : ℕ → ℕ) (f : ℕ → ℕ → ℕ) where
  digits_enough : (a b n k : ℕ) → a ≤ n → a ≤ k → digits z f n a b ≡ digits z f k a b
  digits_enough a b n k p q = go n k a b p q
    where
      go : (n k a b : ℕ) → a ≤ n → a ≤ k → digits z f n a b ≡ digits z f k a b
      go zero zero a b p q = refl
      go zero (suc k) zero b p q = refl
      go zero (suc k) (suc a) b p q = absurd (omega arith)
      go (suc n) zero zero b p q = refl
      go (suc n) zero (suc a) b p q = absurd (omega arith)
      go (suc n) (suc k) zero b p q = refl
      go (suc n) (suc k) (suc a) b p q = rw (go n k (suc a / 2) (b / 2) (omega arith) (omega arith))

  lowest_digit :
      (a b : ℕ)
      → bitwise z f (suc a) b ≡ bitwise z f (suc a / 2) (b / 2) * 2 + f (suc a % 2) (b % 2)
  lowest_digit a b =
      omega (arith, digits_enough (suc a / 2) (b / 2) a (suc a / 2) (omega arith) (omega arith))

bit_and_digit : (a b : ℕ) → bit_and a b ≡ bit_and (a / 2) (b / 2) * 2 + min (a % 2) (b % 2)
bit_and_digit zero b = simp bit_and-bitwise (omega arith)
bit_and_digit (suc a) b = simp bit_and-bitwise (lowest_digit (λ y. 0) min a b)

bit_or_digit : (a b : ℕ) → bit_or a b ≡ bit_or (a / 2) (b / 2) * 2 + max (a % 2) (b % 2)
bit_or_digit zero b = simp bit_or-bitwise (omega arith)
bit_or_digit (suc a) b = simp bit_or-bitwise (lowest_digit (λ y. y) max a b)

bit_xor_digit : (a b : ℕ) → bit_xor a b ≡ bit_xor (a / 2) (b / 2) * 2 + differ (a % 2) (b % 2)
bit_xor_digit zero b = simp bit_xor-bitwise (omega arith)
bit_xor_digit (suc a) b = simp bit_xor-bitwise (lowest_digit (λ y. y) differ a b)

differ-le_one : (x y : ℕ) → x ≤ 1 → y ≤ 1 → differ x y ≤ 1
differ-le_one zero y p q = q
differ-le_one (suc zero) zero p q = omega arith
differ-le_one (suc zero) (suc zero) p q = omega arith
differ-le_one (suc zero) (suc (suc y)) p q = absurd (omega arith)
differ-le_one (suc (suc x)) y p q = absurd (omega arith)

pub bit_and-le : (k a b : ℕ) → a < 2 ^ k → bit_and a b ≤ a
bit_and-le zero zero b h = simp bit_and-bitwise (omega arith)
bit_and-le zero (suc a) b h = absurd (omega arith)
bit_and-le (suc k) a b h = omega (
  arith,
  bit_and_digit a b,
  two-pow-succ k,
  bit_and-le k (a / 2) (b / 2) (omega (arith, two-pow-succ k)),
)

pub bit_or-lt : (k a b : ℕ) → a < 2 ^ k → b < 2 ^ k → bit_or a b < 2 ^ k
bit_or-lt zero zero zero p q = omega arith
bit_or-lt zero zero (suc b) p q = absurd (omega arith)
bit_or-lt zero (suc a) b p q = absurd (omega arith)
bit_or-lt (suc k) a b p q = omega (
  arith,
  bit_or_digit a b,
  two-pow-succ k,
  bit_or-lt k (a / 2) (b / 2) (omega (arith, two-pow-succ k)) (omega (arith, two-pow-succ k)),
)

pub bit_xor-lt : (k a b : ℕ) → a < 2 ^ k → b < 2 ^ k → bit_xor a b < 2 ^ k
bit_xor-lt zero zero zero p q = omega arith
bit_xor-lt zero zero (suc b) p q = absurd (omega arith)
bit_xor-lt zero (suc a) b p q = absurd (omega arith)
bit_xor-lt (suc k) a b p q = omega (
  arith,
  bit_xor_digit a b,
  two-pow-succ k,
  differ-le_one (a % 2) (b % 2) (omega arith) (omega arith),
  bit_xor-lt k (a / 2) (b / 2) (omega (arith, two-pow-succ k)) (omega (arith, two-pow-succ k)),
)

bit_and-zero : (n a : ℕ) → a ≤ n → bit_and a 0 ≡ a % 1
bit_and-zero n zero h = omega arith
bit_and-zero zero (suc a) h = absurd (omega arith)
bit_and-zero (suc n) (suc a) h =
    omega (arith, bit_and_digit (suc a) 0, bit_and-zero n (suc a / 2) (omega arith))

-- Masking the low `k` bits is the remainder by `2 ^ k`.
pub bit_and_mask : (k a : ℕ) → bit_and a (2 ^ k - 1) ≡ a % 2 ^ k
bit_and_mask zero a = bit_and-zero a a (omega arith)
bit_and_mask (suc k) a =
    last_bit (bit_and_mask k (a / 2))
    ∙ sym (
        mod_unique (2 ^ suc k) a (a / 2 % 2 ^ k * 2 + a % 2) (a / 2 / 2 ^ k) 0
          (omega (arith, two-pow-succ k, pow-pos k, mod-lt (a / 2) (pow-pos k)))
          (omega
            (arith, ap (λ t. a / 2 / 2 ^ k * t) (two-pow-succ k), mod-add-div' (a / 2) (2 ^ k))))
  where
    half : (2 ^ suc k - 1) / 2 ≡ 2 ^ k - 1
    half = omega (arith, two-pow-succ k, pow-pos k)

    last_bit :
        bit_and (a / 2) (2 ^ k - 1) ≡ a / 2 % 2 ^ k
        → bit_and a (2 ^ suc k - 1) ≡ a / 2 % 2 ^ k * 2 + a % 2
    last_bit rest = omega (
      arith,
      bit_and_digit a (2 ^ suc k - 1),
      ap (bit_and (a / 2)) half,
      two-pow-succ k,
      pow-pos k,
      rest,
    )
