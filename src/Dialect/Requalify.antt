-- ===== src/Dialect/Requalify.antt =====
-- `ada.requalify` (mlir/Dialect.cpp, RequalifyOp): what builds it, what it verifies, and how it is
-- canonicalized. A value that a chain of requalifications gives is the type of the value at its
-- start with the result types of the operations in order.
use Prim.Native.String.{String}
use text.Mathlib.Text.{◌==◌ as str_eq}
use lalvm.Base.{Bool, true, false, Option, none, some, List, [], ◌∷◌, ◌&&◌, ◌≡◌, if◌then◌else◌}
use lalvm.Dialect.Types.{QualType, machine_eq, qual_eq}
use lalvm.Dialect.Table.{TypeTable}
pub mod Canonical
pub mod Verified

-- requalify: the operations that it builds.
unfoldable pub requalify : QualType → QualType → List QualType
requalify from to = if qual_eq from to then [] else to ∷ []

-- verifySameRepresentation.
unfoldable pub verify_same_representation : QualType → QualType → Bool
verify_same_representation source target = machine_eq source.mlir_type target.mlir_type

-- verifySameBase: checked where both types resolve.
abbrev pub agree : Option String → Option String → Bool
agree (some a) (some b) = str_eq a b
agree (some a) none = true
agree none b = true

unfoldable pub verify_same_base : TypeTable → QualType → QualType → Bool
verify_same_base t source target = agree (t.base_of source.ada_type) (t.base_of target.ada_type)

-- RequalifyOp::verify and verifySymbolUses.
unfoldable pub verify_requalify : TypeTable → QualType → QualType → Bool
verify_requalify t source target =
    verify_same_representation source target && verify_same_base t source target

-- RequalifyOp::fold, of the first operation of a chain: the rest of it, on the operand.
unfoldable pub fold_requalify : QualType → List QualType → Option (List QualType)
fold_requalify source [] = none
fold_requalify source (target ∷ rest) = if qual_eq source target then some rest else none

-- CollapseRequalifyChain, of the second operation of a chain, whose operand is the first.
unfoldable pub collapse_requalify : List QualType → Option (List QualType)
collapse_requalify [] = none
collapse_requalify (target ∷ []) = none
collapse_requalify (previous ∷ target ∷ rest) = some (target ∷ rest)

-- One rewriting anywhere in a chain, in the order that the canonicalizer happens to take.
pub data Rewrites : QualType → List QualType → List QualType → Type 0 where
  fold : (a : QualType) (xs ys : List QualType) → fold_requalify a xs ≡ some ys → Rewrites a xs ys
  collapse :
      (a : QualType) (xs ys : List QualType) → collapse_requalify xs ≡ some ys → Rewrites a xs ys
  later : {a b : QualType} {xs ys : List QualType} → Rewrites b xs ys → Rewrites a (b ∷ xs) (b ∷ ys)

pub data Reaches (a : QualType) (xs : List QualType) : List QualType → Type 0 where
  here : Reaches a xs xs
  next : {ys zs : List QualType} → Reaches a xs ys → Rewrites a ys zs → Reaches a xs zs

-- The type that the last operation gives.
abbrev pub final : QualType → List QualType → QualType
final a [] = a
final a (b ∷ xs) = final b xs
