-- ===== src/Dialect/Defaults/Member.antt =====
-- The default value of an object belongs to its type (mlir/Dialect.cpp, createDefaultObjectValue).
use lalvm.Base.{ℕ, Bool, true, Option, none, some, List, [], ◌∷◌, ◌≡◌}
use lalvm.Base.Lists.{All}
use lalvm.Base.Int.{ℤ, leb_ℤ}
use lalvm.Llvm.{ApsInt, ApIntLib, value}
use lalvm.Dialect.Types.{
  TypeInfo, integer_info, enum_info, float_info, array_info, unknown_info, static_bounds,
}
use lalvm.Dialect.Defaults.{is_contained}
use lalvm.Conversions.Ranges.{in_word, within}

-- The values of a type: those between the static bounds, or the listed ones.
abbrev pub IsBetween : Option (ApsInt × ApsInt) → ℤ → Type 0
IsBetween (some (lo, hi)) z = within (value lo) (value hi) z ≡ true
IsBetween none z = Unit

abbrev pub IsListed : List ℤ → ℤ → Type 0
IsListed [] z = Unit
IsListed (v ∷ vs) z = is_contained z (v ∷ vs) ≡ true

abbrev pub IsMember : ApIntLib → Option TypeInfo → ℤ → Type 0
IsMember l (some (integer_info i)) z = IsBetween (static_bounds l i) z
IsMember l (some (enum_info e)) z = IsListed e.values z
IsMember l (some (float_info d)) z = Unit
IsMember l (some (array_info a)) z = Unit
IsMember l (some unknown_info) z = Unit
IsMember l none z = Unit

-- The bounds are in order and the lower one is a word of the type.
abbrev pub FitsBounds : Bool → ℕ → Option (ApsInt × ApsInt) → Type 0
FitsBounds uns w (some (lo, hi)) =
    (leb_ℤ (value lo) (value hi) ≡ true) × (in_word uns w (value lo) ≡ true)
FitsBounds uns w none = Unit

abbrev pub FitsType : ApIntLib → Bool → ℕ → Option TypeInfo → Type 0
FitsType l uns w (some (integer_info i)) = FitsBounds uns w (static_bounds l i)
FitsType l uns w (some (enum_info e)) = All (λ v. in_word uns w v ≡ true) e.values
FitsType l uns w (some (float_info d)) = Unit
FitsType l uns w (some (array_info a)) = Unit
FitsType l uns w (some unknown_info) = Unit
FitsType l uns w none = Unit
