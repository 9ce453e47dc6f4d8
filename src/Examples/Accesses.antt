-- ===== src/Examples/Accesses.antt =====
-- The theorems on objects, their default values and requalifications, at concrete types.
use Prim.Native.String.{String}
use mathlib.Core.Path.{subst}
use text.Mathlib.Text.{◌==◌ as str_eq}
use lalvm.Base.{
  false, Option, none, some, List, [], ◌∷◌, ◌≡◌, ◌⊎◌, refl, inl, inr, Bool-cases, if◌then◌else◌,
}
use lalvm.Base.Words.{encode}
use lalvm.Dialect.Types.{QualType, int, TypeOp, static, qual_eq, machine_eq}
use lalvm.Dialect.Table.{TypeTable}
use lalvm.Dialect.Defaults.{GetIntegerAttr}
use lalvm.Dialect.Requalify.{
  requalify, fold_requalify, collapse_requalify, Rewrites, fold, collapse, Reaches, here, next,
  final, verify_requalify, verify_same_representation, verify_same_base,
}
use lalvm.Dialect.Requalify.Canonical.{canonical-requalify}
use lalvm.Dialect.Requalify.Verified.{AllVerify, canonicalized-AllVerify}
use lalvm.Dialect.Accesses.{read, verify_access, verify_read}
use lalvm.References.{MemOp, slot_element, lower_access}
use lalvm.References.Typed.{IsRooted, type_after, lower_access-typed}
use lalvm.Examples.{word, declared, range_info}

-- type Positive is range 1 .. 127, of eight bits: an object of it starts as 1.
abbrev positive : TypeOp
positive = declared "positive" (int 8) (range_info (static (word 2 1)) (static (word 8 127))) none

abbrev get_integer : GetIntegerAttr
get_integer w z = record { width = w; bits = encode w z }

-- subtype Natural of Integer, and no other type.
abbrev base : String → Option String
base s =
    if str_eq s "natural"
    then some "integer"
    else if str_eq s "integer"
    then some "integer"
    else none

abbrev table : TypeTable
table = record {
  type_of = λ s. none;
  base_of = base;
  modulus_of = λ s. none;
  int_info_of = λ s. none;
  unsigned_order = λ s. false;
  root_info_of = λ s. none;
}

abbrev natural : QualType
natural = record { mlir_type = int 32; ada_type = "natural" }

abbrev integer : QualType
integer = record { mlir_type = int 32; ada_type = "integer" }

-- Natural to Integer and back, which collapses and then folds.
round_trip-Reaches : Reaches natural (integer ∷ natural ∷ []) []
unfolding fold_requalify collapse_requalify qual_eq machine_eq
round_trip-Reaches =
    next (next here (collapse natural (integer ∷ natural ∷ []) (natural ∷ []) refl))
      (fold natural (natural ∷ []) [] refl)

nothing_left : (zs : List QualType) → ¬ Rewrites natural [] zs
unfolding fold_requalify collapse_requalify
nothing_left zs (fold a xs ys h) = cc
nothing_left zs (collapse a xs ys h) = cc

canonical-requalify_example : [] ≡ requalify natural (final natural (integer ∷ natural ∷ []))
canonical-requalify_example =
    canonical-requalify natural (integer ∷ natural ∷ []) [] round_trip-Reaches nothing_left

collapsed-Reaches : Reaches integer (natural ∷ integer ∷ natural ∷ []) (integer ∷ natural ∷ [])
unfolding collapse_requalify
collapsed-Reaches =
    next here (collapse integer (natural ∷ integer ∷ natural ∷ []) (integer ∷ natural ∷ []) refl)

canonicalized-AllVerify_example : AllVerify table integer (integer ∷ natural ∷ [])
unfolding verify_requalify verify_same_representation verify_same_base machine_eq
canonicalized-AllVerify_example =
    canonicalized-AllVerify table integer (natural ∷ integer ∷ natural ∷ [])
      (integer ∷ natural ∷ []) collapsed-Reaches
      (("integer", refl), (("integer", refl), (("integer", refl), tt))) (refl, (refl, (refl, tt)))

based : (s b : String) → base s ≡ some b → "integer" ≡ b
based s b h = elim (Bool-cases (str_eq s "natural")) [
  | inl e ↦ let k : some "integer" ≡ some b = rw e at h in cc
  | inr e ↦ elim (Bool-cases (str_eq s "integer")) [
    | inl f ↦ let k : some "integer" ≡ some b = rw (e, f) at h in cc
    | inr f ↦ let k : none ≡ some b = rw (e, f) at h in cc
  ]
]

table-IsRooted : IsRooted table
table-IsRooted s b h = subst (λ x. (base x ≡ some x) ⊎ (base x ≡ none)) (based s b h) (inl refl)

lower_access-typed_example :
    (e : QualType) × (ops : List MemOp) × (slot_element table natural ≡ some e)
    × (lower_access table (read natural natural) ≡ some ops)
    × (type_after table none ops ≡ some (some natural))
unfolding verify_access verify_read machine_eq qual_eq
lower_access-typed_example =
    lower_access-typed table (read natural natural) "integer" table-IsRooted refl refl
