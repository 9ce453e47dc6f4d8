-- ===== src/Dialect/Types.antt =====
-- The data of include/ada/Types.td, Attrs.td and Ops.td that the passes read: machine types,
-- qualified types, type metadata and `ada.type` declarations.
use text.Mathlib.Text.{◌==◌ as str_eq}
use Prim.Native.String.{String}
use lalvm.Base.{ℕ, Bool, true, false, Option, none, some, List, [], ◌∷◌, ◌&&◌, ◌||◌, ◌==◌}
use lalvm.Base.Int.{ℤ}
use lalvm.Llvm.{ApInt, ApsInt, ApIntLib}

-- Machine types. An array keeps its component's scalar type and its extents, `none` a dynamic one.
pub data MachineType : Type 0 where
  int : ℕ → MachineType
  float : ℕ → MachineType
  array : MachineType → List (Option ℕ) → MachineType
  other_type : ℕ → MachineType

-- `!ada.qual<mlir_type, @ada_type>`.
pub record QualType : Type 0 where
  pub mlir_type : MachineType
  pub ada_type : String

-- A recorded bound: none, `?` for a dynamic one (UnitAttr), or an integer.
pub data Bound : Type 0 where
  absent : Bound
  dynamic : Bound
  static : ApInt → Bound

abbrev pub is_recorded : Bound → Bool
is_recorded absent = false
is_recorded dynamic = true
is_recorded (static a) = true

-- dyn_cast_or_null<IntegerAttr>.
abbrev pub integer_attr : Bound → Option ApInt
integer_attr absent = none
integer_attr dynamic = none
integer_attr (static a) = some a

pub record IntegerTypeInfo : Type 0 where
  pub modulus : Option ApInt
  pub lower : Bound
  pub upper : Bound

pub record EnumTypeInfo : Type 0 where
  pub names : List String
  pub values : List ℤ
  pub lower : Bound
  pub upper : Bound

pub record ArrayTypeInfo : Type 0 where
  pub component : String
  pub index_types : List String
  pub lower_bounds : List Bound
  pub upper_bounds : List Bound

pub data TypeInfo : Type 0 where
  integer_info : IntegerTypeInfo → TypeInfo
  enum_info : EnumTypeInfo → TypeInfo
  float_info : ℕ → TypeInfo
  array_info : ArrayTypeInfo → TypeInfo
  unknown_info : TypeInfo

-- An `ada.type` operation. `place` tells where it stands in the module.
pub record TypeOp : Type 0 where
  pub sym_name : String
  pub mlir_type : MachineType
  pub type_info : Option TypeInfo
  pub base : Option String
  pub has_default_value : Bool
  pub place : ℕ

abbrev pub is_numeric_machine_type : MachineType → Bool
is_numeric_machine_type (int w) = true
is_numeric_machine_type (float w) = true
is_numeric_machine_type (array c e) = false
is_numeric_machine_type (other_type k) = false

abbrev pub is_float_type : MachineType → Bool
is_float_type (float w) = true
is_float_type (int w) = false
is_float_type (array c e) = false
is_float_type (other_type k) = false

-- getIntOrFloatBitWidth, which is called on numeric types only.
abbrev pub bit_width : MachineType → ℕ
bit_width (int w) = w
bit_width (float w) = w
bit_width (array c e) = 0
bit_width (other_type k) = 0

unfoldable pub extent_eq : Option ℕ → Option ℕ → Bool
extent_eq none none = true
extent_eq none (some b) = false
extent_eq (some a) none = false
extent_eq (some a) (some b) = a == b

unfoldable pub extents_eq : List (Option ℕ) → List (Option ℕ) → Bool
extents_eq [] [] = true
extents_eq [] (y ∷ ys) = false
extents_eq (x ∷ xs) [] = false
extents_eq (x ∷ xs) (y ∷ ys) = extent_eq x y && extents_eq xs ys

-- Types are uniqued by the context, so their equality is structural.
unfoldable pub machine_eq : MachineType → MachineType → Bool
unfolding extents_eq extent_eq
machine_eq (int a) (int b) = a == b
machine_eq (float a) (float b) = a == b
machine_eq (array c xs) (array d ys) = machine_eq c d && extents_eq xs ys
machine_eq (other_type a) (other_type b) = a == b
machine_eq _ _ = false

unfoldable pub qual_eq : QualType → QualType → Bool
qual_eq a b = machine_eq a.mlir_type b.mlir_type && str_eq a.ada_type b.ada_type

-- IntegerTypeInfoAttr::hasRange, staticLower, staticUpper.
abbrev pub has_range : IntegerTypeInfo → Bool
has_range info = is_recorded info.lower || is_recorded info.upper

abbrev pub recorded_or : Option ApInt → Option ApInt → Option ApInt
recorded_or (some a) implied = some a
recorded_or none implied = implied

unfoldable pub static_lower : IntegerTypeInfo → Option ApInt
static_lower info =
    recorded_or (integer_attr info.lower)
      (elim info.modulus [ some m ↦ some (record { width = m.width; bits = 0 }) | none ↦ none ])

unfoldable pub static_upper : ApIntLib → IntegerTypeInfo → Option ApInt
static_upper l info =
    recorded_or (integer_attr info.upper)
      (elim info.modulus [ some m ↦ some (l.sub_one m) | none ↦ none ])

-- A bound attribute is stored signless at its minimal signed width, so it is read as signed.
abbrev pub bound_value : ApInt → ApsInt
bound_value a = record { num = a; is_unsigned = false }

abbrev pub both : Option ApInt → Option ApInt → Option (ApsInt × ApsInt)
both (some lo) (some hi) = some (bound_value lo, bound_value hi)
both (some lo) none = none
both none hi = none

unfoldable pub static_bounds : ApIntLib → IntegerTypeInfo → Option (ApsInt × ApsInt)
static_bounds l info = both (static_lower info) (static_upper l info)

-- dyn_cast_or_null<IntegerTypeInfoAttr>(getTypeInfoAttr()).
abbrev pub integer_type_info : Option TypeInfo → Option IntegerTypeInfo
integer_type_info (some (integer_info i)) = some i
integer_type_info (some (enum_info e)) = none
integer_type_info (some (float_info d)) = none
integer_type_info (some (array_info a)) = none
integer_type_info (some unknown_info) = none
integer_type_info none = none
