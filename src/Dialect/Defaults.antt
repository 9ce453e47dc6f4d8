-- ===== src/Dialect/Defaults.antt =====
-- The value of an object that is read before any write (mlir/Dialect.cpp,
-- createDefaultObjectValue), which promotion gives to its slot.
use lalvm.Base.{
  ℕ, Bool, true, false, not, Option, none, some, List, [], ◌∷◌, ◌&&◌, ◌||◌, ◌≡◌, if◌then◌else◌,
}
use lalvm.Base.Lists.{any}
use lalvm.Base.Int.{ℤ, pos, negsuc, compare_ℤ}
use lalvm.Llvm.{ApInt, ApsInt, ApIntLib}
use lalvm.Dialect.Types.{
  MachineType, int, float, array, other_type, TypeOp, TypeInfo, integer_info, enum_info, float_info,
  array_info, unknown_info, IntegerTypeInfo, EnumTypeInfo, static_bounds, bit_width,
}
use lalvm.Dialect.Bounds.{in_static_range, is_eq}
pub mod Member

abbrev pub eq_ℤ : ℤ → ℤ → Bool
eq_ℤ a b = is_eq (compare_ℤ a b)

-- llvm::is_contained.
unfoldable pub is_contained : ℤ → List ℤ → Bool
is_contained v values = any (λ x. eq_ℤ x v) values

-- Builder::getZeroAttr of a numeric type: all bits are zero.
abbrev pub zero_attr : MachineType → ApInt
zero_attr t = record { width = bit_width t; bits = 0 }

-- `APSInt zero(APInt(1, 0))`, which is unsigned.
abbrev pub zero_value : ApsInt
zero_value = record { num = record { width = 1; bits = 0 }; is_unsigned = true }

-- Builder::getIntegerAttr of a type of the width and an int64_t.
abbrev pub GetIntegerAttr : Type 0
GetIntegerAttr = ℕ → ℤ → ApInt

module _ (l : ApIntLib) (get_integer_attr : GetIntegerAttr) where
  -- An integer type: its lower bound where the static bounds exclude zero.
  unfoldable pub default_between : ℕ → Option (ApsInt × ApsInt) → ApInt
  default_between w (some (lo, hi)) =
      if not (in_static_range l zero_value lo hi) then l.ext_or_trunc lo w else zero_attr (int w)
  default_between w none = zero_attr (int w)

  -- An enumeration: its first value where zero is none of them.
  unfoldable pub default_listed : ℕ → List ℤ → ApInt
  default_listed w [] = zero_attr (int w)
  default_listed w (v ∷ vs) =
      if not (is_contained (pos 0) (v ∷ vs)) then get_integer_attr w v else zero_attr (int w)

  abbrev pub default_of_info : ℕ → Option TypeInfo → ApInt
  default_of_info w (some (integer_info i)) = default_between w (static_bounds l i)
  default_of_info w (some (enum_info e)) = default_listed w e.values
  default_of_info w (some (float_info d)) = zero_attr (int w)
  default_of_info w (some (array_info a)) = zero_attr (int w)
  default_of_info w (some unknown_info) = zero_attr (int w)
  default_of_info w none = zero_attr (int w)

  -- createDefaultObjectValue, of the type that `ada.type` lookup finds, if any.
  unfoldable pub default_object_value : MachineType → Option TypeOp → ApInt
  default_object_value (int w) (some t) = default_of_info w t.type_info
  default_object_value (int w) none = zero_attr (int w)
  default_object_value (float w) t = zero_attr (float w)
  default_object_value (array c e) t = zero_attr (array c e)
  default_object_value (other_type k) t = zero_attr (other_type k)
