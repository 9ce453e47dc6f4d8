-- ===== src/Dialect/Table.antt =====
-- What the passes ask of the `ada.type` symbols (mlir/Dialect.cpp): base, root, modulus, integer
-- metadata and the signedness of the order.
use Prim.Native.String.{String}
use lalvm.Base.{ℕ, zero, suc, Bool, true, false, not, Option, none, some, List, [], ◌∷◌, ◌&&◌}
use lalvm.Base.Int.{ℤ, pos, ltb_ℤ}
use lalvm.Llvm.{ApInt}
use lalvm.Dialect.Types.{
  TypeOp, TypeInfo, integer_info, enum_info, float_info, array_info, unknown_info, IntegerTypeInfo,
  integer_type_info,
}
use lalvm.Dialect.Scopes.{Module, lookup_ada_type}

-- What the lowerings ask; `type_table` below answers from a module.
pub record TypeTable : Type 0 where
  pub type_of : String → Option TypeOp
  pub base_of : String → Option String
  pub modulus_of : String → Option ApInt
  pub int_info_of : String → Option IntegerTypeInfo
  pub unsigned_order : String → Bool
  pub root_info_of : String → Option TypeInfo

abbrev pub or_itself : Option String → String → String
or_itself (some b) sym = b
or_itself none sym = sym

unfoldable pub base_of_ada_type : Module → ℕ → String → Option String
base_of_ada_type m from sym = elim (lookup_ada_type m from sym) [
  | some t ↦ some (or_itself t.base sym)
  | none ↦ none
]

-- The declaration a type's base link leads to.
unfoldable pub base_op : Module → TypeOp → Option TypeOp
base_op m t = elim t.base [ some b ↦ lookup_ada_type m t.place b | none ↦ none ]

-- `while (typeOp && typeOp.getBaseAttr())`, on fuel.
unfoldable pub root_from : ℕ → Module → TypeOp → TypeOp
root_from zero m t = t
root_from (suc f) m t = elim (base_op m t) [ some b ↦ root_from f m b | none ↦ t ]

unfoldable pub root_of_ada_type : ℕ → Module → ℕ → String → Option TypeOp
root_of_ada_type f m from sym = elim (lookup_ada_type m from sym) [
  | some t ↦ some (root_from f m t)
  | none ↦ none
]

abbrev pub info_modulus : Option IntegerTypeInfo → Option ApInt
info_modulus (some i) = i.modulus
info_modulus none = none

unfoldable pub modulus_of_ada_type : ℕ → Module → ℕ → String → Option ApInt
modulus_of_ada_type f m from sym = elim (root_of_ada_type f m from sym) [
  | some root ↦ info_modulus (integer_type_info root.type_info)
  | none ↦ none
]

abbrev pub own_or_base_info : Option IntegerTypeInfo → Option TypeOp → Option IntegerTypeInfo
own_or_base_info (some i) b = some i
own_or_base_info none (some b) = integer_type_info b.type_info
own_or_base_info none none = none

unfoldable pub int_type_info_of_ada_type : Module → ℕ → String → Option IntegerTypeInfo
int_type_info_of_ada_type m from sym = elim (lookup_ada_type m from sym) [
  | some t ↦ own_or_base_info (integer_type_info t.type_info) (base_op m t)
  | none ↦ none
]

abbrev pub is_some_modulus : Option ApInt → Bool
is_some_modulus (some m) = true
is_some_modulus none = false

abbrev pub none_negative : List ℤ → Bool
none_negative [] = true
none_negative (v ∷ vs) = not (ltb_ℤ v (pos 0)) && none_negative vs

abbrev pub info_unsigned : Option TypeInfo → Bool
info_unsigned (some (integer_info i)) = is_some_modulus i.modulus
info_unsigned (some (enum_info e)) = none_negative e.values
info_unsigned (some (float_info d)) = false
info_unsigned (some (array_info a)) = false
info_unsigned (some unknown_info) = false
info_unsigned none = false

unfoldable pub is_unsigned_order_qual_type : ℕ → Module → ℕ → String → Bool
is_unsigned_order_qual_type f m from sym = elim (root_of_ada_type f m from sym) [
  | some root ↦ info_unsigned root.type_info
  | none ↦ false
]

-- The metadata of the root of a type.
unfoldable pub root_info_of_ada_type : ℕ → Module → ℕ → String → Option TypeInfo
root_info_of_ada_type f m from sym = elim (root_of_ada_type f m from sym) [
  | some root ↦ root.type_info
  | none ↦ none
]

-- The answers for an operation at `from`.
unfoldable pub type_table : ℕ → Module → ℕ → TypeTable
type_table f m from = record {
  type_of = lookup_ada_type m from;
  base_of = base_of_ada_type m from;
  modulus_of = modulus_of_ada_type f m from;
  int_info_of = int_type_info_of_ada_type m from;
  unsigned_order = is_unsigned_order_qual_type f m from;
  root_info_of = root_info_of_ada_type f m from;
}
