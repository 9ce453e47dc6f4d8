-- ===== src/Dialect/Requalify/Canonical.antt =====
-- Canonicalizing a chain of requalifications (mlir/Dialect.cpp, RequalifyOp::fold and
-- CollapseRequalifyChain).
use lalvm.Base.{suc, some, List, [], ◌∷◌, ◌≡◌, refl, sym, ap, ◌∙◌, inl, inr, Bool-cases}
use lalvm.Base.Lists.{length}
use lalvm.Dialect.Types.{QualType, qual_eq}
use lalvm.Dialect.Equality.{qual_eq_sound, qual_eq_refl}
use lalvm.Dialect.Requalify.{
  requalify, fold_requalify, collapse_requalify, Rewrites, fold, collapse, later, Reaches, here,
  next, final,
}

pub fold_requalify-cons :
    (a b : QualType) (xs ys : List QualType)
    → fold_requalify a (b ∷ xs) ≡ some ys
    → (a ≡ b) × (xs ≡ ys)
unfolding fold_requalify
fold_requalify-cons a b xs ys h = elim (Bool-cases (qual_eq a b)) [
  | inl e ↦ (qual_eq_sound a b e, let k = rw e at h in cc)
  | inr e ↦ let k = rw e at h in cc
]

pub collapse_requalify-cons :
    (b c : QualType) (xs ys : List QualType)
    → collapse_requalify (b ∷ c ∷ xs) ≡ some ys
    → ys ≡ c ∷ xs
unfolding collapse_requalify
collapse_requalify-cons b c xs ys h = cc

-- No rewriting changes the type that the chain ends in.
pub final-Rewrites :
    {a : QualType} {xs ys : List QualType} → Rewrites a xs ys → final a ys ≡ final a xs
unfolding fold_requalify collapse_requalify
final-Rewrites (fold a [] ys h) = cc
final-Rewrites (fold a (b ∷ xs) ys h) =
    let (e, k) = fold_requalify-cons a b xs ys h in rw (e, k) refl
final-Rewrites (collapse a [] ys h) = cc
final-Rewrites (collapse a (b ∷ []) ys h) = cc
final-Rewrites (collapse a (b ∷ c ∷ xs) ys h) = ap (final a) (collapse_requalify-cons b c xs ys h)
final-Rewrites (later r) = final-Rewrites r

-- Each rewriting takes one operation away.
pub length-Rewrites :
    {a : QualType} {xs ys : List QualType} → Rewrites a xs ys → length xs ≡ suc (length ys)
unfolding fold_requalify collapse_requalify length
length-Rewrites (fold a [] ys h) = cc
length-Rewrites (fold a (b ∷ xs) ys h) =
    let (e, k) = fold_requalify-cons a b xs ys h in ap (λ l. suc (length l)) k
length-Rewrites (collapse a [] ys h) = cc
length-Rewrites (collapse a (b ∷ []) ys h) = cc
length-Rewrites (collapse a (b ∷ c ∷ xs) ys h) =
    ap (λ l. suc (length l)) (sym (collapse_requalify-cons b c xs ys h))
length-Rewrites (later r) = ap suc (length-Rewrites r)

final-Reaches : {a : QualType} {xs ys : List QualType} → Reaches a xs ys → final a ys ≡ final a xs
final-Reaches here = refl
final-Reaches (next r s) = final-Rewrites s ∙ final-Reaches r

-- What no rewriting applies to is what requalify builds from the first type to the last.
normal-requalify :
    (a : QualType) (xs : List QualType)
    → ((ys : List QualType) → ¬ Rewrites a xs ys)
    → xs ≡ requalify a (final a xs)
unfolding requalify fold_requalify collapse_requalify
normal-requalify a [] normal = rw (qual_eq_refl a) refl
normal-requalify a (b ∷ []) normal = elim (Bool-cases (qual_eq a b)) [
  | inl e ↦ absurd (normal [] (fold a (b ∷ []) [] (rw e refl)))
  | inr e ↦ rw e refl
]
normal-requalify a (b ∷ c ∷ xs) normal =
    absurd (normal (c ∷ xs) (collapse a (b ∷ c ∷ xs) (c ∷ xs) refl))

-- However a chain of requalifications is canonicalized, once no rewriting applies what is left is
-- what requalify builds from the first type of the chain to its last: nothing where the two types
-- are equal, and one operation otherwise.
pub canonical-requalify :
    (a : QualType) (xs ys : List QualType)
    → Reaches a xs ys
    → ((zs : List QualType) → ¬ Rewrites a ys zs)
    → ys ≡ requalify a (final a xs)
canonical-requalify a xs ys r normal =
    normal-requalify a ys normal ∙ ap (requalify a) (final-Reaches r)
