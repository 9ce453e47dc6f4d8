-- ===== src/Conversions.antt =====
-- The lowering of `ada.convert` (mlir/LowerAdaConversions.cpp): the operations that each pattern
-- puts in the place of a conversion.
use Prim.Native.String.{String}
use text.Mathlib.Text.{◌==◌ as str_eq}
use lalvm.Base.{
  ℕ, Bool, true, false, not, Option, none, some, List, [], ◌∷◌, ◌++◌, if◌then◌else◌, ◌&&◌, ◌||◌,
  ltb, bool_eq,
}
use lalvm.Llvm.{ApInt, ApsInt, ApIntLib, CastOp, extsi, extui, trunci, extf, truncf}
use lalvm.Dialect.Types.{
  MachineType, QualType, TypeOp, IntegerTypeInfo, integer_type_info, static_bounds, machine_eq,
  qual_eq, is_float_type, bit_width,
}
use lalvm.Dialect.Bounds.{in_static_range, is_lt, is_gt}
use lalvm.Dialect.Table.{TypeTable}
use lalvm.LowerToLlvm.BinOp.{is_modular}
pub mod Steps
pub mod Ranges
pub mod Meaning
pub mod SameRepresentation
pub mod Change

-- An `ada.convert`: `known_value` is the value of the `ada.constant` that defines its input, where
-- one does and is an integer; `has_range` tells whether it carries a range descriptor.
pub record ConvertOp : Type 0 where
  pub source : QualType
  pub target : QualType
  pub known_value : Option ApsInt
  pub has_range : Bool

-- The operations that replace it, each applied to the result of the one before. A static check is
-- against the descriptor that getOrCreateStaticRange gives, a dynamic one against the operand of
-- the conversion. `cast` stands for unwrap, the cast and wrap.
pub data Step : Type 0 where
  requalify : QualType → Step
  static_check : ApInt → ApInt → QualType → Step
  dynamic_check : QualType → Step
  cast : CastOp → ℕ → ℕ → QualType → Step
  rewrap : QualType → Step

pub data Rewrite : Type 0 where
  match_failure : Rewrite
  replaced : List Step → Rewrite

unfoldable pub range_within : ApIntLib → ApsInt → ApsInt → ApsInt → ApsInt → Bool
range_within l known_lo known_hi lo hi =
    in_static_range l known_lo lo hi && in_static_range l known_hi lo hi

-- The static bounds of the metadata that a type has or inherits.
abbrev pub info_bounds : ApIntLib → Option IntegerTypeInfo → Option (ApsInt × ApsInt)
info_bounds l (some info) = static_bounds l info
info_bounds l none = none

-- A type whose static range is within the bounds.
unfoldable pub info_within : ApIntLib → Option (ApsInt × ApsInt) → ApsInt → ApsInt → Bool
info_within l (some known) lo hi = range_within l known.0 known.1 lo hi
info_within l none lo hi = false

unfoldable pub known_within : ApIntLib → TypeTable → ConvertOp → ApsInt → ApsInt → Bool
known_within l t op lo hi = elim op.known_value [
  | some v ↦ in_static_range l v lo hi
  | none ↦ info_within l (info_bounds l (t.int_info_of op.source.ada_type)) lo hi
]

unfoldable pub least : ApIntLib → ℕ → Bool → ApsInt
least l bits uns = record {
  num = if uns then l.unsigned_min bits else l.signed_min bits;
  is_unsigned = uns;
}

unfoldable pub greatest : ApIntLib → ℕ → Bool → ApsInt
greatest l bits uns = record {
  num = if uns then l.unsigned_max bits else l.signed_max bits;
  is_unsigned = uns;
}

unfoldable pub clamp_to : ApIntLib → ApsInt → ApsInt → ℕ → Bool → ApInt × ApInt
clamp_to l lo hi bits uns =
    let min = least l bits uns in
    let max = greatest l bits uns in
    let low = if is_lt (l.compare_values lo min) then min else lo in
    let high = if is_gt (l.compare_values hi max) then max else hi in
    if is_gt (l.compare_values low high)
    then (max.num, min.num)
    else (l.ext_or_trunc low bits, l.ext_or_trunc high bits)

unfoldable pub change_representation : QualType → QualType → Bool → Step
change_representation source target source_unsigned =
    let sw = bit_width source.mlir_type in
    let tw = bit_width target.mlir_type in
    if is_float_type source.mlir_type
    then if ltb tw sw
      then cast truncf sw tw target
      else if ltb sw tw
      then cast extf sw tw target
      else rewrap target
    else if ltb tw sw
    then cast trunci sw tw target
    else if ltb sw tw
    then cast (if source_unsigned then extui else extsi) sw tw target
    else rewrap target

-- ada::requalify: nothing where the type is the same.
abbrev pub requalified : QualType → QualType → List Step
requalified from to = if qual_eq from to then [] else requalify to ∷ []

abbrev pub or_target : Option String → String → String
or_target (some b) sym = b
or_target none sym = sym

abbrev pub is_base : Option String → String → Bool
is_base (some b) sym = str_eq sym b
is_base none sym = false

-- The bounds that a check is needed for: those of a constrained target.
abbrev pub required_info : TypeOp → Option IntegerTypeInfo
required_info target = elim target.base [
  | some b ↦ integer_type_info target.type_info
  | none ↦ none
]

-- From the required bounds on.
unfoldable pub constrained_rewrite : ApIntLib → TypeTable → ConvertOp → IntegerTypeInfo → Rewrite
constrained_rewrite l t op required = elim (static_bounds l required) [
  | none ↦ if op.has_range then replaced (dynamic_check op.target ∷ []) else match_failure
  | some bounds ↦
      if known_within l t op bounds.0 bounds.1
      then replaced (requalified op.source op.target)
      else replaced (static_check bounds.0.num bounds.1.num op.target ∷ [])
]

-- SameRepresentationConversion::matchAndRewrite.
unfoldable pub same_representation : ApIntLib → TypeTable → ConvertOp → Rewrite
same_representation l t op =
    if qual_eq op.source op.target
    then replaced []
    else if not (machine_eq op.source.mlir_type op.target.mlir_type)
    then match_failure
    else elim (t.type_of op.target.ada_type) [
      | none ↦ match_failure
      | some target ↦
          if not (is_base (t.base_of op.source.ada_type) (or_target target.base op.target.ada_type))
          then match_failure
          else elim (required_info target) [
            | none ↦ replaced (requalified op.source op.target)
            | some required ↦ constrained_rewrite l t op required
          ]
    ]

-- The bounds that the value must lie in, and whether a dynamic check follows.
pub data Required : Type 0 where
  refused : Required
  bounded : Option (ApsInt × ApsInt) → Bool → Required

unfoldable pub required_bounds : ApIntLib → TypeTable → ConvertOp → String → Required
required_bounds l t op target_base = elim (t.int_info_of op.target.ada_type) [
  | none ↦ bounded none false
  | some required ↦ elim (static_bounds l required) [
    | some b ↦ bounded (some b) false
    | none ↦
        if not op.has_range then refused else elim (info_bounds l (t.int_info_of target_base)) [
          | some b ↦ bounded (some b) true
          | none ↦ refused
        ]
  ]
]

-- Widening preserves every value, except a negative one into a modular type.
unfoldable pub is_preserving : TypeTable → ConvertOp → String → Bool
is_preserving t op target_base =
    ltb (bit_width op.source.mlir_type) (bit_width op.target.mlir_type)
    && (is_modular t op.source.ada_type || not (is_modular t target_base))

-- The checks before the change of representation, and after it.
unfoldable pub checks_before :
    ApIntLib → TypeTable → ConvertOp → String → String → Option (ApsInt × ApsInt) → List Step
checks_before l t op source_base target_base none = []
checks_before l t op source_base target_base (some b) =
    if not (known_within l t op b.0 b.1) && not (is_preserving t op target_base)
    then (let clamped =
          clamp_to l b.0 b.1 (bit_width op.source.mlir_type) (is_modular t op.source.ada_type) in
        static_check clamped.0 clamped.1
          (record { mlir_type = op.source.mlir_type; ada_type = source_base })
        ∷ [])
    else []

unfoldable pub checks_after :
    ApIntLib → TypeTable → ConvertOp → String → Option (ApsInt × ApsInt) → Bool → List Step
checks_after l t op target_base bounds true = dynamic_check op.target ∷ []
checks_after l t op target_base none false =
    requalified (record { mlir_type = op.target.mlir_type; ada_type = target_base }) op.target
checks_after l t op target_base (some b) false =
    if not (known_within l t op b.0 b.1) && is_preserving t op target_base
    then static_check b.0.num b.1.num op.target ∷ []
    else requalified (record { mlir_type = op.target.mlir_type; ada_type = target_base }) op.target

abbrev pub changed : ApIntLib → TypeTable → ConvertOp → String → String → Required → Rewrite
changed l t op source_base target_base refused = match_failure
changed l t op source_base target_base (bounded bounds dynamic) = replaced (
    checks_before l t op source_base target_base bounds
    ++ change_representation op.source
        (record { mlir_type = op.target.mlir_type; ada_type = target_base })
        (is_modular t op.source.ada_type)
      ∷ checks_after l t op target_base bounds dynamic)

-- RepresentationChangeConversion::matchAndRewrite.
unfoldable pub representation_change : ApIntLib → TypeTable → ConvertOp → Rewrite
representation_change l t op =
    if not (bool_eq (is_float_type op.source.mlir_type) (is_float_type op.target.mlir_type))
    then match_failure
    else elim (t.base_of op.source.ada_type) [
      | none ↦ match_failure
      | some source_base ↦ elim (t.base_of op.target.ada_type) [
        | none ↦ match_failure
        | some target_base ↦
            if machine_eq op.source.mlir_type op.target.mlir_type && str_eq source_base target_base
            then match_failure
            else changed l t op source_base target_base (required_bounds l t op target_base)
      ]
    ]
