-- ===== src/Examples/Types.antt =====
-- The theorems on type declarations, at concrete types.
use Prim.Native.String.{String}
use text.Mathlib.Text.{◌==◌ as str_eq}
use lalvm.Base.{
  ℕ, ◌≤◌, ◌≡◌, sym, ap, none, some, [], ◌∷◌, Option, inl, inr, arith, Bool-cases, Option-cases,
}
use lalvm.Dialect.Types.{int, TypeOp}
use lalvm.Dialect.Scopes.{
  Module, type_symbol, module_scope, lookup_ada_type, lookup_symbol_from, lookup_in_scope,
  lookup_symbol_in, find_type_in_decls,
}
use lalvm.Dialect.Table.{base_op, root_from}
use lalvm.Dialect.Roots.{IsAcyclic, root_from-ends}
use lalvm.Dialect.Types.{static}
use lalvm.Examples.{word, declared, range_info}

abbrev small : TypeOp
small = declared "small" (int 8) (range_info (static (word 8 128)) (static (word 8 127))) none

abbrev positive : TypeOp
positive =
    declared "positive" (int 8) (range_info (static (word 2 1)) (static (word 8 127)))
      (some "small")

abbrev one_type : Module
one_type = record {
  scopes = λ place. module_scope (("small", type_symbol small) ∷ []) ∷ [];
  all_decls = [];
}

abbrev rank : TypeOp → ℕ
rank t = elim t.base [ some b ↦ 1 | none ↦ 0 ]

found : (name : String) (b : TypeOp) → lookup_ada_type one_type 0 name ≡ some b → rank b ≡ 0
unfolding lookup_ada_type lookup_symbol_from lookup_in_scope lookup_symbol_in find_type_in_decls
found name b h = elim (Bool-cases (str_eq "small" name)) [
  | inl e ↦
      let same : some small ≡ some b = rw e at h in
      ap (λ (o : Option TypeOp). elim o [ some t ↦ rank t | none ↦ 0 ]) (sym same)
  | inr e ↦ let no : none ≡ some b = rw e at h in cc
]

one_type-IsAcyclic : IsAcyclic one_type rank
unfolding base_op lookup_ada_type
one_type-IsAcyclic t b h = elim (Option-cases t.base) [
  | inl e ↦ let no = rw e at h in cc
  | inr (name, e) ↦ rw (e, found name b (rw e at h)) (omega arith)
]

root_from-ends_example :
    (base_op one_type (root_from 1 one_type positive) ≡ none)
    × ((g : ℕ) → 1 ≤ g → root_from g one_type positive ≡ root_from 1 one_type positive)
root_from-ends_example = root_from-ends one_type rank one_type-IsAcyclic 1 positive (omega arith)
