-- ===== src/Dialect/Bounds.antt =====
-- Static ranges (mlir/Dialect.cpp, inStaticRange) and what they say of the values.
use Prim.Native.Nat.{Ordering}
use lalvm.Base.{Bool, true, false, ◌&&◌, ◌≡◌, arith}
use lalvm.Base.Int.{leb_ℤ}
use lalvm.Llvm.{ApsInt, ApIntLib, IsApIntLib, value}

-- The sign tests of the result of APSInt::compareValues.
abbrev pub is_le : Ordering → Bool
is_le Ordering.lt = true
is_le Ordering.eq = true
is_le Ordering.gt = false

abbrev pub is_lt : Ordering → Bool
is_lt Ordering.lt = true
is_lt Ordering.eq = false
is_lt Ordering.gt = false

abbrev pub is_gt : Ordering → Bool
is_gt Ordering.lt = false
is_gt Ordering.eq = false
is_gt Ordering.gt = true

abbrev pub is_eq : Ordering → Bool
is_eq Ordering.lt = false
is_eq Ordering.eq = true
is_eq Ordering.gt = false

unfoldable pub in_static_range : ApIntLib → ApsInt → ApsInt → ApsInt → Bool
in_static_range l v lo hi = is_le (l.compare_values lo v) && is_le (l.compare_values v hi)

-- The test reads its three arguments as integers, whatever their widths and signedness.
pub in_static_range_lem :
    (l : ApIntLib)
    → IsApIntLib l
    → (v lo hi : ApsInt)
    → in_static_range l v lo hi ≡ (leb_ℤ (value lo) (value v) && leb_ℤ (value v) (value hi))
unfolding in_static_range
in_static_range_lem l h v lo hi =
    rw (h.compare_values_lem lo v, h.compare_values_lem v hi) (ground arith)
