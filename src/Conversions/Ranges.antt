-- ===== src/Conversions/Ranges.antt =====
-- Words as integers, and ranges of integers (mlir/LowerAdaConversions.cpp, clampTo).
use native.Mathlib.Nat.{mod-eq_of_lt, mod-lt, mod-add-div', pow-le-pow_right}
use lalvm.Base.{
  ℕ, ◌+◌, ◌-◌, ◌/◌, ◌%◌, ◌^◌, ◌≤◌, ◌<◌, ◌≡◌, refl, sym, ap, ap₂, ◌∙◌, Bool, true, false, not, ◌&&◌,
  inl, inr, arith, if◌then◌else◌, Bool-cases,
}
use lalvm.Base.Int.{ℤ, pos, negsuc, leb_ℤ, ltb_ℤ, compare_ℤ}
use lalvm.Base.Words.{
  encode-lt, signed, encode, fits_signed, pow-pos, pow-half, signed-encode, encode-signed,
  fits_signed-signed, signed-cases, mod_unique,
}
use lalvm.Base.Powers.{pow-split}
use lalvm.Llvm.{ApInt, ApsInt, ApIntLib, IsApIntLib, read_word, value}
use lalvm.Dialect.Bounds.{is_lt, is_gt}
use lalvm.Conversions.{least, greatest, clamp_to}

-- Whether a `w`-bit word, read as told, stands for the integer.
unfoldable pub in_word : Bool → ℕ → ℤ → Bool
in_word true w z = leb_ℤ (pos 0) z && ltb_ℤ z (pos (2 ^ w))
in_word false w z = fits_signed w z

abbrev pub within : ℤ → ℤ → ℤ → Bool
within lo hi z = leb_ℤ lo z && leb_ℤ z hi

module _ (w : ℕ) (wide : 0 < w) where
  pub read_word-encode :
      (uns : Bool) (z : ℤ) → in_word uns w z ≡ true → read_word uns w (encode w z) ≡ z
  unfolding in_word encode
  read_word-encode true (pos n) h = ap pos (mod-eq_of_lt (ground arith))
  read_word-encode true (negsuc n) h = absurd (ground arith)
  read_word-encode false z h = signed-encode w wide z h

  pub in_word-read_word :
      (uns : Bool) (n : ℕ) → n < 2 ^ w → in_word uns w (read_word uns w n) ≡ true
  unfolding in_word
  in_word-read_word true n h = ground arith
  in_word-read_word false n h = fits_signed-signed w wide n h

  pub encode-read_word : (uns : Bool) (n : ℕ) → n < 2 ^ w → encode w (read_word uns w n) ≡ n
  unfolding encode
  encode-read_word true n h = mod-eq_of_lt h
  encode-read_word false n h = encode-signed w wide n h

-- Widening keeps an integer, unless it is a signed one in a modular type.
pub in_word-wider :
    (from to : Bool) (w v : ℕ) (z : ℤ)
    → 0 < w
    → w < v
    → (if from then true else not to) ≡ true
    → in_word from w z ≡ true
    → in_word to v z ≡ true
unfolding in_word fits_signed
in_word-wider true true w v z wide lt ok h =
    let le = pow-le-pow_right {n = 2} (omega arith) {i = w} {j = v} (omega arith) in ground arith
in_word-wider true false w v z wide lt ok h =
    let le = pow-le-pow_right {n = 2} (omega arith) {i = w} {j = v - 1} (omega arith) in
    ground arith
in_word-wider false false w v z wide lt ok h =
    let le = pow-le-pow_right {n = 2} (omega arith) {i = w - 1} {j = v - 1} (omega arith) in
    ground (arith, pow-pos (w - 1))
in_word-wider false true w v z wide lt ok h = cc

-- Cutting a word to fewer bits keeps the integer modulo the smaller power.
pub encode-narrower :
    (uns : Bool) (w v n : ℕ) → 0 < w → v ≤ w → n < 2 ^ w → encode v (read_word uns w n) ≡ n % 2 ^ v
unfolding encode
encode-narrower true w v n wide le h = refl
encode-narrower false w v n wide le h = elim (signed-cases w wide n h) [
  | inl e ↦ rw e refl
  | inr (k, e, total) ↦ rw e (
      sym (
        mod_unique (2 ^ v) n (2 ^ v - 1 - k % 2 ^ v) (2 ^ (w - v)) (k / 2 ^ v + 1)
          (omega (arith, pow-pos v))
          (omega (arith, mod-add-div' k (2 ^ v), pow-split v w le, mod-lt k (pow-pos v)))))
]

is_lt-compare_ℤ : (a b : ℤ) → is_lt (compare_ℤ a b) ≡ ltb_ℤ a b
is_lt-compare_ℤ a b = ground arith

is_gt-compare_ℤ : (a b : ℤ) → is_gt (compare_ℤ a b) ≡ ltb_ℤ b a
is_gt-compare_ℤ a b = ground arith

pub leb_ℤ-refl : (a : ℤ) → leb_ℤ a a ≡ true
leb_ℤ-refl a = ground arith

not_below : (a b : ℤ) → ltb_ℤ a b ≡ false → leb_ℤ b a ≡ true
not_below a b h = ground arith

below_both : (a b x : ℤ) → ltb_ℤ a b ≡ true → leb_ℤ b x ≡ true → leb_ℤ b x ≡ leb_ℤ a x
below_both a b x h k = ground arith

above_both : (a b x : ℤ) → ltb_ℤ b a ≡ true → leb_ℤ x b ≡ true → leb_ℤ x b ≡ leb_ℤ x a
above_both a b x h k = ground arith

-- No integer lies between ends that are crossed.
crossed : (a b x : ℤ) → ltb_ℤ b a ≡ true → within a b x ≡ false
crossed a b x h = ground arith

both_true : (p q : Bool) → (p && q) ≡ true → (p ≡ true) × (q ≡ true)
both_true true true h = (refl, refl)
both_true true false h = cc
both_true false q h = cc

between : (a b c : ℤ) → leb_ℤ a b ≡ true → leb_ℤ b c ≡ true → leb_ℤ a c ≡ true
between a b c h k = ground arith

module _ (l : ApIntLib) (lib : IsApIntLib l) (w : ℕ) (wide : 0 < w) where
  -- The two ends are those of the words.
  in_word-ends :
      (uns : Bool) (z : ℤ)
      → in_word uns w z ≡ within (value (least l w uns)) (value (greatest l w uns)) z
  unfolding in_word fits_signed least greatest signed
  in_word-ends true z =
      rw (lib.unsigned_min_lem w, lib.unsigned_max_lem w) (ground (arith, pow-pos w))
  in_word-ends false z =
      rw (lib.signed_min_lem w, lib.signed_max_lem w)
        (ground (arith, pow-pos (w - 1), pow-half w wide))

  abbrev pub IsWord : ApInt → Type 0
  IsWord a = (a.width ≡ w) × (a.bits < 2 ^ w)

  -- A word in the descriptor of its own width stays as it is.
  pub sext_or_trunc-same : (a : ApInt) → IsWord a → (l.sext_or_trunc a w).bits ≡ a.bits
  sext_or_trunc-same a h =
      ap (λ (c : ApInt). c.bits) (lib.sext_or_trunc_lem a w)
      ∙ rw h.0 (encode-signed w wide a.bits h.1)

  module _ (uns : Bool) where
    least-IsWord : IsWord (least l w uns).num
    unfolding least
    least-IsWord = elim (Bool-cases uns) [
      | inl e ↦ rw (e, lib.unsigned_min_lem w) (refl, pow-pos w)
      | inr e ↦ rw (e, lib.signed_min_lem w) (refl, omega (arith, pow-half w wide, pow-pos (w - 1)))
    ]

    greatest-IsWord : IsWord (greatest l w uns).num
    unfolding greatest
    greatest-IsWord = elim (Bool-cases uns) [
      | inl e ↦ rw (e, lib.unsigned_max_lem w) (refl, omega (arith, pow-pos w))
      | inr e ↦ rw (e, lib.signed_max_lem w) (refl, omega (arith, pow-half w wide, pow-pos (w - 1)))
    ]

    abbrev min : ℤ
    min = value (least l w uns)

    abbrev max : ℤ
    max = value (greatest l w uns)

    abbrev low : ApsInt → ApsInt
    low lo = if is_lt (l.compare_values lo (least l w uns)) then least l w uns else lo

    abbrev high : ApsInt → ApsInt
    high hi = if is_gt (l.compare_values hi (greatest l w uns)) then greatest l w uns else hi

    low_lem :
        (lo : ApsInt)
        → (leb_ℤ min (value (low lo)) ≡ true)
          × ((x : ℤ) → leb_ℤ min x ≡ true → leb_ℤ (value (low lo)) x ≡ leb_ℤ (value lo) x)
    low_lem lo = elim (Bool-cases (is_lt (l.compare_values lo (least l w uns)))) [
      | inl e ↦ rw e (leb_ℤ-refl min, λ x h. below_both (value lo) min x (sym (compared lo) ∙ e) h)
      | inr e ↦ rw e (not_below (value lo) min (sym (compared lo) ∙ e), λ x h. refl)
    ]
      where
        compared : (a : ApsInt) → is_lt (l.compare_values a (least l w uns)) ≡ ltb_ℤ (value a) min
        compared a =
            ap is_lt (lib.compare_values_lem a (least l w uns)) ∙ is_lt-compare_ℤ (value a) min

    high_lem :
        (hi : ApsInt)
        → (leb_ℤ (value (high hi)) max ≡ true)
          × ((x : ℤ) → leb_ℤ x max ≡ true → leb_ℤ x (value (high hi)) ≡ leb_ℤ x (value hi))
    high_lem hi = elim (Bool-cases (is_gt (l.compare_values hi (greatest l w uns)))) [
      | inl e ↦ rw e (leb_ℤ-refl max, λ x h. above_both (value hi) max x (sym (compared hi) ∙ e) h)
      | inr e ↦ rw e (not_below max (value hi) (sym (compared hi) ∙ e), λ x h. refl)
    ]
      where
        compared :
            (a : ApsInt) → is_gt (l.compare_values a (greatest l w uns)) ≡ ltb_ℤ max (value a)
        compared a =
            ap is_gt (lib.compare_values_lem a (greatest l w uns)) ∙ is_gt-compare_ℤ (value a) max

    -- The reading of the two ends.
    abbrev reading : ApInt → ℤ
    reading a = read_word uns w a.bits

    encoded-IsWord : (a : ApsInt) → IsWord (l.ext_or_trunc a w)
    encoded-IsWord a = rw (lib.ext_or_trunc_lem a w) (refl, encode-lt w (value a))

    reading-ext_or_trunc :
        (a : ApsInt) → in_word uns w (value a) ≡ true → reading (l.ext_or_trunc a w) ≡ value a
    reading-ext_or_trunc a h =
        ap reading (lib.ext_or_trunc_lem a w) ∙ read_word-encode w wide uns (value a) h

    reading-greatest : reading (greatest l w uns).num ≡ max
    unfolding greatest
    reading-greatest =
        ap (λ v. read_word uns v (greatest l w uns).num.bits) (sym (greatest-IsWord.0))

    reading-least : reading (least l w uns).num ≡ min
    unfolding least
    reading-least = ap (λ v. read_word uns v (least l w uns).num.bits) (sym (least-IsWord.0))

    least-lt_greatest : ltb_ℤ min max ≡ true
    unfolding least greatest signed
    least-lt_greatest = elim (Bool-cases uns) [
      | inl e ↦
          rw (e, lib.unsigned_min_lem w, lib.unsigned_max_lem w)
            (ground (arith, pow-half w wide, pow-pos (w - 1)))
      | inr e ↦
          rw (e, lib.signed_min_lem w, lib.signed_max_lem w)
            (ground (arith, pow-half w wide, pow-pos (w - 1)))
    ]

    ends : (x : ℤ) → in_word uns w x ≡ true → (leb_ℤ min x ≡ true) × (leb_ℤ x max ≡ true)
    ends x h = both_true (leb_ℤ min x) (leb_ℤ x max) (sym (in_word-ends uns x) ∙ h)

    restricted :
        (lo hi : ApsInt) (x : ℤ)
        → in_word uns w x ≡ true
        → within (value (low lo)) (value (high hi)) x ≡ within (value lo) (value hi) x
    restricted lo hi x h =
        ap₂ (λ p q. p && q) ((low_lem lo).1 x ((ends x h).0)) ((high_lem hi).1 x ((ends x h).1))

    low-in_word :
        (lo hi : ApsInt)
        → leb_ℤ (value (low lo)) (value (high hi)) ≡ true
        → (in_word uns w (value (low lo)) ≡ true) × (in_word uns w (value (high hi)) ≡ true)
    low-in_word lo hi ordered = (
      in_word-ends uns (value (low lo))
          ∙ ap₂ (λ p q. p && q) ((low_lem lo).0)
              (between (value (low lo)) (value (high hi)) max ordered ((high_lem hi).0)),
      in_word-ends uns (value (high hi))
          ∙ ap₂ (λ p q. p && q)
              (between min (value (low lo)) (value (high hi)) ((low_lem lo).0) ordered)
              ((high_lem hi).0),
    )

    -- A word lies between the restricted bounds where it lies between the given ones, and the
    -- restricted bounds are words.
    pub clamp_to_lem :
        (lo hi : ApsInt) (x : ℤ)
        → in_word uns w x ≡ true
        → IsWord (clamp_to l lo hi w uns).0
          × IsWord (clamp_to l lo hi w uns).1
          × (within (reading (clamp_to l lo hi w uns).0) (reading (clamp_to l lo hi w uns).1) x
              ≡ within (value lo) (value hi) x)
    unfolding clamp_to
    clamp_to_lem lo hi x h = elim (Bool-cases (is_gt (l.compare_values (low lo) (high hi)))) [
      | inl e ↦ rw e (
        greatest-IsWord,
        least-IsWord,
        ap₂ (λ a b. within a b x) reading-greatest reading-least
            ∙ crossed max min x least-lt_greatest
            ∙ sym (crossed (value (low lo)) (value (high hi)) x (sym (compared lo hi) ∙ e))
            ∙ restricted lo hi x h,
      )
      | inr e ↦
          let (a, b) =
            low-in_word lo hi
              (not_below (value (high hi)) (value (low lo)) (sym (compared lo hi) ∙ e)) in
          rw e (
            encoded-IsWord (low lo),
            encoded-IsWord (high hi),
            ap₂ (λ a b. within a b x) (reading-ext_or_trunc (low lo) a)
                  (reading-ext_or_trunc (high hi) b)
                ∙ restricted lo hi x h,
          )
    ]
      where
        compared :
            (a b : ApsInt)
            → is_gt (l.compare_values (low a) (high b)) ≡ ltb_ℤ (value (high b)) (value (low a))
        compared a b =
            ap is_gt (lib.compare_values_lem (low a) (high b))
            ∙ is_gt-compare_ℤ (value (low a)) (value (high b))
