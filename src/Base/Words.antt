-- ===== src/Base/Words.antt =====
-- Two's complement at every width: the integer a bit pattern stands for, the pattern of an integer,
-- and the patterns that sums and differences have.
use Prim.Native.Nat.{ℕ, zero, suc, ◌+◌, ◌-◌, ◌*◌, ◌/◌, ◌%◌, ◌^◌, ◌≤◌, ◌<◌}
use mathlib.Core.Path.{◌≡◌, ◌∙◌, sym, ap}
use mathlib.Core.Bool.{Bool, true, ◌&&◌, not}
use native.Mathlib.Nat.{
  two-pow-succ, one-le-pow, mod-lt, mod-eq_of_lt, add-mul-mod_self_right, mod-add-div',
}
use native.Mathlib.Omega.{arith}
use mathlib.Core.Logic.{◌⊎◌, inl, inr}
use lalvm.Base.Tests.{ltb, to_bit, if◌then◌else◌, Bool-cases}
use lalvm.Base.Int.{
  pos_part, neg_part, ℤ, pos, negsuc, ◌+ℤ◌, ◌-ℤ◌, ◌*ℤ◌, leb_ℤ, +ℤ_parts, -ℤ_parts, *ℤ_parts,
}

-- The integer that the `w`-bit pattern `n` stands for.
unfoldable pub signed : ℕ → ℕ → ℤ
signed w n = if ltb n (2 ^ (w - 1)) then pos n else negsuc (2 ^ w - n - 1)

-- The `w`-bit pattern of an integer, reduced modulo `2 ^ w`.
unfoldable pub encode : ℕ → ℤ → ℕ
encode w (pos n) = n % 2 ^ w
encode w (negsuc n) = 2 ^ w - 1 - n % 2 ^ w

-- Whether a signed `w`-bit word holds the integer.
unfoldable pub fits_signed : ℕ → ℤ → Bool
fits_signed w z = leb_ℤ (negsuc (2 ^ (w - 1) - 1)) z && leb_ℤ z (pos (2 ^ (w - 1) - 1))

pub pow-pos : (w : ℕ) → 1 ≤ 2 ^ w
pow-pos w = one-le-pow w 2 (omega arith)

pub pow-half : (w : ℕ) → 0 < w → 2 ^ w ≡ 2 ^ (w - 1) + 2 ^ (w - 1)
pow-half zero h = absurd (omega arith)
pow-half (suc w) h = let e : suc w - 1 ≡ w = omega arith in rw e (two-pow-succ w)

pub encode-lt : (w : ℕ) (z : ℤ) → encode w z < 2 ^ w
unfolding encode
encode-lt w (pos n) = mod-lt n (pow-pos w)
encode-lt w (negsuc n) = omega (arith, pow-pos w)

pub mod_unique : (m n r j k : ℕ) → r < m → r + j * m ≡ n + k * m → n % m ≡ r
mod_unique m n r j k h e =
    sym (add-mul-mod_self_right n k m)
    ∙ ap (λ t. t % m) (sym e)
    ∙ add-mul-mod_self_right r j m
    ∙ mod-eq_of_lt h

-- The pattern of an integer is the only one that differs from it by a multiple of `2 ^ w`.
pub encode_unique :
    (w : ℕ) (z : ℤ) (r j k : ℕ)
    → r < 2 ^ w
    → r + neg_part z + j * 2 ^ w ≡ pos_part z + k * 2 ^ w
    → encode w z ≡ r
unfolding encode
encode_unique w (pos n) r j k h e = mod_unique (2 ^ w) n r j k h (omega arith)
encode_unique w (negsuc n) r j k h e =
    omega (arith, mod_unique (2 ^ w) n (2 ^ w - 1 - r) k (j + 1) (omega arith) (omega arith))

module _ (w : ℕ) (wide : 0 < w) where
  -- Reading a pattern back gives the integer, where the word holds it.
  pub signed-encode : (z : ℤ) → fits_signed w z ≡ true → signed w (encode w z) ≡ z
  unfolding signed encode fits_signed
  signed-encode (pos n) h = ground (
    arith,
    pow-half w wide,
    pow-pos (w - 1),
    mod-eq_of_lt {n = n} {m = 2 ^ w} (ground (arith, pow-half w wide, pow-pos (w - 1))),
  )
  signed-encode (negsuc n) h = ground (
    arith,
    pow-half w wide,
    pow-pos (w - 1),
    mod-eq_of_lt {n = n} {m = 2 ^ w} (ground (arith, pow-half w wide, pow-pos (w - 1))),
  )

  pub encode-signed : (n : ℕ) → n < 2 ^ w → encode w (signed w n) ≡ n
  unfolding signed encode
  encode-signed n h = elim (Bool-cases (ltb n (2 ^ (w - 1)))) [
    | inl e ↦ rw e (mod-eq_of_lt h)
    | inr e ↦ rw e (omega (arith, mod-eq_of_lt {n = 2 ^ w - n - 1} {m = 2 ^ w} (omega arith)))
  ]

  pub fits_signed-signed : (n : ℕ) → n < 2 ^ w → fits_signed w (signed w n) ≡ true
  unfolding signed fits_signed
  fits_signed-signed n h = ground (arith, pow-half w wide, pow-pos (w - 1))

  signed_parts :
      (n : ℕ)
      → n < 2 ^ w
      → n + neg_part (signed w n)
        ≡ pos_part (signed w n) + to_bit (not (ltb n (2 ^ (w - 1)))) * 2 ^ w
  unfolding signed
  signed_parts n h = ground (arith, pow-half w wide)

  pub signed-cases :
      (n : ℕ)
      → n < 2 ^ w
      → (signed w n ≡ pos n) ⊎ ((m : ℕ) × (signed w n ≡ negsuc m) × (n + suc m ≡ 2 ^ w))
  unfolding signed
  signed-cases n h = elim (Bool-cases (ltb n (2 ^ (w - 1)))) [
    | inl e ↦ inl (rw e)
    | inr e ↦ inr (2 ^ w - n - 1, (rw e), omega arith)
  ]

  module _ (a b : ℕ) (ha : a < 2 ^ w) (hb : b < 2 ^ w) where
    abbrev top : ℕ → ℕ
    top n = to_bit (not (ltb n (2 ^ (w - 1))))

    -- Sums, differences and products of patterns are those of the integers, whatever the signs.
    pub add-encode : (a + b) % 2 ^ w ≡ encode w (signed w a +ℤ signed w b)
    add-encode = sym (
        encode_unique w _ _ ((a + b) / 2 ^ w) (top a + top b) (mod-lt _ (pow-pos w)) (
          omega (
            arith,
            signed_parts a ha,
            signed_parts b hb,
            +ℤ_parts (signed w a) (signed w b),
            mod-add-div' (a + b) (2 ^ w),
          )))

    pub sub-encode : (a + 2 ^ w - b) % 2 ^ w ≡ encode w (signed w a -ℤ signed w b)
    sub-encode = sym (
        encode_unique w _ _ ((a + 2 ^ w - b) / 2 ^ w + top b) (top a + 1) (mod-lt _ (pow-pos w)) (
          omega (
            arith,
            signed_parts a ha,
            signed_parts b hb,
            -ℤ_parts (signed w a) (signed w b),
            mod-add-div' (a + 2 ^ w - b) (2 ^ w),
          )))

    pub mul-encode : a * b % 2 ^ w ≡ encode w (signed w a *ℤ signed w b)
    mul-encode = elim (signed-cases a ha) [
      | inl ea ↦ elim (signed-cases b hb) [
        | inl eb ↦ rw (ea, eb) (product (pos a) (pos b) 0 0 (omega (arith, parts (pos a) (pos b))))
        | inr (n, eb, fb) ↦
            rw (ea, eb)
              (product (pos a) (negsuc n) 0 a
                (omega (arith, parts (pos a) (negsuc n), ap (λ t. a * t) fb)))
      ]
      | inr (m, ea, fa) ↦ elim (signed-cases b hb) [
        | inl eb ↦
            rw (ea, eb)
              (product (negsuc m) (pos b) 0 b
                (omega (arith, parts (negsuc m) (pos b), ap (λ t. t * b) fa)))
        | inr (n, eb, fb) ↦
            rw (ea, eb)
              (product (negsuc m) (negsuc n) (suc m + suc n) (2 ^ w) (
                omega (
                  arith,
                  parts (negsuc m) (negsuc n),
                  ap (λ t. a * t) fb,
                  ap (λ t. suc n * t) fa,
                  ap (λ t. t * 2 ^ w) fa,
                )))
      ]
    ]
      where
        parts :
            (x y : ℤ)
            → pos_part (x *ℤ y) + (pos_part x * neg_part y + neg_part x * pos_part y)
              ≡ neg_part (x *ℤ y) + (pos_part x * pos_part y + neg_part x * neg_part y)
        parts = *ℤ_parts

        product :
            (x y : ℤ) (j k : ℕ)
            → a * b + neg_part (x *ℤ y) + j * 2 ^ w ≡ pos_part (x *ℤ y) + k * 2 ^ w
            → a * b % 2 ^ w ≡ encode w (x *ℤ y)
        product x y j k e = sym (
            encode_unique w (x *ℤ y) (a * b % 2 ^ w) (a * b / 2 ^ w + j) k (mod-lt _ (pow-pos w))
              (omega (arith, mod-add-div' (a * b) (2 ^ w), e)))
