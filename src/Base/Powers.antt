-- ===== src/Base/Powers.antt =====
-- Powers of two and remainders by them.
use Prim.Native.Nat.{ℕ, zero, suc, ◌+◌, ◌-◌, ◌*◌, ◌/◌, ◌%◌, ◌^◌, ◌≤◌, ◌<◌}
use mathlib.Core.Path.{◌≡◌, ap, ◌∙◌}
use native.Mathlib.Nat.{two-pow-succ, pow-le-pow_right, mod-lt, mod-add-div'}
use native.Mathlib.Decide.{dec_le}
use native.Mathlib.Omega.{arith}
use lalvm.Base.Words.{pow-pos, mod_unique}

pub pow-le_iff : (k w : ℕ) → 2 ^ k ≤ 2 ^ w → k ≤ w
pow-le_iff k w h = elim (dec_le k w) [
  | yes p ↦ p
  | no p ↦ absurd (
      omega (
        arith,
        two-pow-succ w,
        pow-pos w,
        pow-le-pow_right {n = 2} (omega arith) {i = suc w} {j = k} (omega arith),
      ))
]

pub pow-split : (k w : ℕ) → k ≤ w → 2 ^ w ≡ 2 ^ (w - k) * 2 ^ k
pow-split zero w h = let e : w - 0 ≡ w = omega arith in rw e (omega arith)
pow-split (suc k) zero h = absurd (omega arith)
pow-split (suc k) (suc w) h =
    let e : suc w - suc k ≡ w - k = omega arith in
    rw e (
      omega (
        arith,
        two-pow-succ w,
        pow-split k w (omega arith),
        ap (λ t. 2 ^ (w - k) * t) (two-pow-succ k),
      ))

pub pow-double : (w : ℕ) → 2 ^ (2 * w) ≡ 2 ^ w * 2 ^ w
pow-double w =
    let e : 2 * w - w ≡ w = omega arith in
    pow-split w (2 * w) (omega arith) ∙ ap (λ t. 2 ^ t * 2 ^ w) e

-- A remainder by a multiple of `m` has the same remainder by `m`.
pub mod-mod-mul : (x c m : ℕ) → 0 < m → x % (c * m) % m ≡ x % m
mod-mod-mul x c m h =
    mod_unique m (x % (c * m)) (x % m) (x / m) (x / (c * m) * c) (mod-lt x h)
      (omega (arith, mod-add-div' x m, mod-add-div' x (c * m)))

-- Adding a multiple of `m` before a subtraction is adding `m`.
pub sub-mod_mul : (a b c m : ℕ) → b < m → 0 < c → (a + c * m - b) % m ≡ (a + m - b) % m
sub-mod_mul a b zero m h p = elim p [ ]
sub-mod_mul a b (suc c) m h p =
    mod_unique m (a + suc c * m - b) ((a + m - b) % m) ((a + m - b) / m + suc c) 1
      (mod-lt _ (omega arith)) (omega (arith, mod-add-div' (a + m - b) m))

-- The smallest power of two that holds the numbers below `m` is below twice `m`.
pub pow_above : (m : ℕ) → 0 < m → (k : ℕ) × (m ≤ 2 ^ k) × (2 ^ k < 2 * m)
pow_above zero h = elim h [ ]
pow_above (suc zero) h = (0, omega arith, omega arith)
pow_above (suc (suc m)) h =
    let (k, below, above) = pow_above (suc m) (omega arith) in
    elim (dec_le (suc (suc m)) (2 ^ k)) [
      | yes p ↦ (k, p, omega arith)
      | no p ↦ (suc k, omega (arith, two-pow-succ k), omega (arith, two-pow-succ k))
    ]
