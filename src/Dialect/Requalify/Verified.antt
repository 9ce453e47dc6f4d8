-- ===== src/Dialect/Requalify/Verified.antt =====
-- Canonicalized requalifications still verify (mlir/Dialect.cpp, RequalifyOp).
use Prim.Native.String.{String}
use mathlib.Core.Path.{subst}
use text.Mathlib.Text.{◌==◌ as str_eq}
use text.Mathlib.TextEquality.{eq_iff}
use lalvm.Base.{true, Option, some, none, List, [], ◌∷◌, ◌≡◌, refl, sym, and_true, both_true}
use lalvm.Base.Lists.{All}
use lalvm.Dialect.Types.{QualType, machine_eq}
use lalvm.Dialect.Table.{TypeTable}
use lalvm.Dialect.Equality.{machine_eq_sound}
use lalvm.Dialect.Requalify.{
  verify_same_representation, verify_same_base, agree, verify_requalify, fold_requalify,
  collapse_requalify, Rewrites, fold, collapse, later, Reaches, here, next,
}
use lalvm.Dialect.Requalify.Canonical.{fold_requalify-cons, collapse_requalify-cons}

-- Every operation of a chain verifies.
abbrev pub AllVerify : TypeTable → QualType → List QualType → Type 0
AllVerify t a [] = Unit
AllVerify t a (b ∷ xs) = (verify_requalify t a b ≡ true) × AllVerify t b xs

abbrev pub IsResolved : TypeTable → QualType → Type 0
IsResolved t q = (b : String) × (t.base_of q.ada_type ≡ some b)

module _ (t : TypeTable) where
  agree_trans :
      (x y : Option String) (b : String)
      → agree x (some b) ≡ true
      → agree (some b) y ≡ true
      → agree x y ≡ true
  agree_trans none y b h k = refl
  agree_trans (some a) none b h k = refl
  agree_trans (some a) (some c) b h k = subst (λ s. str_eq s c ≡ true) (sym ((eq_iff a b).0 h)) k

  -- Where the type in the middle resolves, two requalifications make one that verifies.
  verify_requalify_trans :
      (a b c : QualType)
      → IsResolved t b
      → verify_requalify t a b ≡ true
      → verify_requalify t b c ≡ true
      → verify_requalify t a c ≡ true
  unfolding verify_requalify verify_same_representation verify_same_base
  verify_requalify_trans a b c (base, resolved) first second =
      let (machine, bases) = and_true (machine_eq a.mlir_type b.mlir_type) _ first in
      let (machine_2, bases_2) = and_true (machine_eq b.mlir_type c.mlir_type) _ second in
      both_true _ _
        (subst (λ m. machine_eq m c.mlir_type ≡ true)
          (sym (machine_eq_sound a.mlir_type b.mlir_type machine)) machine_2)
        (agree_trans (t.base_of a.ada_type) (t.base_of c.ada_type) base
          (subst (λ o. agree (t.base_of a.ada_type) o ≡ true) resolved bases)
          (subst (λ o. agree o (t.base_of c.ada_type) ≡ true) resolved bases_2))

  verify-Rewrites :
      {a : QualType} {xs ys : List QualType}
      → Rewrites a xs ys
      → All (IsResolved t) xs
      → AllVerify t a xs
      → AllVerify t a ys × All (IsResolved t) ys
  unfolding fold_requalify collapse_requalify
  verify-Rewrites (fold a [] ys h) r v = cc
  verify-Rewrites (fold a (b ∷ xs) ys h) r v =
      let (e, k) = fold_requalify-cons a b xs ys h in
      (
        subst (λ l. AllVerify t a l) k (subst (λ q. AllVerify t q xs) (sym e) v.1),
        subst (λ l. All (IsResolved t) l) k r.1,
      )
  verify-Rewrites (collapse a [] ys h) r v = cc
  verify-Rewrites (collapse a (b ∷ []) ys h) r v = cc
  verify-Rewrites (collapse a (b ∷ c ∷ xs) ys h) r v =
      let e = sym (collapse_requalify-cons b c xs ys h) in
      (
        subst (λ l. AllVerify t a l) e (verify_requalify_trans a b c r.0 v.0 v.1.0, v.1.1),
        subst (λ l. All (IsResolved t) l) e r.1,
      )
  verify-Rewrites (later s) r v = let (w, q) = verify-Rewrites s r.1 v.1 in ((v.0, w), (r.0, q))

  verify-Reaches :
      {a : QualType} {xs ys : List QualType}
      → Reaches a xs ys
      → All (IsResolved t) xs
      → AllVerify t a xs
      → AllVerify t a ys × All (IsResolved t) ys
  verify-Reaches here r v = (v, r)
  verify-Reaches (next s u) r v = let (w, q) = verify-Reaches s r v in verify-Rewrites u q w

  -- Where the types of a chain of requalifications resolve and each operation verifies, so does
  -- each operation of every chain that canonicalizing it passes through.
  pub canonicalized-AllVerify :
      (a : QualType) (xs ys : List QualType)
      → Reaches a xs ys
      → All (IsResolved t) xs
      → AllVerify t a xs
      → AllVerify t a ys
  canonicalized-AllVerify a xs ys s r v = (verify-Reaches s r v).0
