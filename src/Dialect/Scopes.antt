-- ===== src/Dialect/Scopes.antt =====
-- Symbol resolution under Ada scoping (mlir/Dialect.cpp, lookupSymbolFrom and lookupAdaType).
use text.Mathlib.Text.{◌==◌ as str_eq}
use Prim.Native.String.{String}
use lalvm.Base.{ℕ, Bool, true, false, Option, none, some, List, [], ◌∷◌, if◌then◌else◌}
use lalvm.Dialect.Types.{TypeOp}

-- A symbol is an `ada.type`, or another operation, known by a number.
pub data Symbol : Type 0 where
  type_symbol : TypeOp → Symbol
  other_symbol : ℕ → Symbol

-- The symbols of one SymbolTable operation, in order.
abbrev pub SymbolTable : Type 0
SymbolTable = List (String × Symbol)

-- An operation that encloses a place: `ada.decls`, the module, an `ada.subp` with the `ada.decls`
-- among the operations of its blocks, or any other.
pub data Scope : Type 0 where
  decls_scope : SymbolTable → Scope
  module_scope : SymbolTable → Scope
  subp_scope : List SymbolTable → Scope
  plain_scope : Scope

-- A module: the operations that enclose each place, innermost first, and every `ada.decls` in the
-- order of a walk.
pub record Module : Type 0 where
  pub scopes : ℕ → List Scope
  pub all_decls : List SymbolTable

-- SymbolTable::lookupSymbolIn.
unfoldable pub lookup_symbol_in : SymbolTable → String → Option Symbol
lookup_symbol_in [] name = none
lookup_symbol_in ((n, s) ∷ t) name = if str_eq n name then some s else lookup_symbol_in t name

abbrev pub first_some {ℓ} : {A : Type ℓ} → Option A → Option A → Option A
first_some (some a) rest = some a
first_some none rest = rest

unfoldable pub lookup_in_tables : List SymbolTable → String → Option Symbol
lookup_in_tables [] name = none
lookup_in_tables (t ∷ ts) name = first_some (lookup_symbol_in t name) (lookup_in_tables ts name)

unfoldable pub lookup_in_scope : Scope → String → Option Symbol
lookup_in_scope (decls_scope t) name = lookup_symbol_in t name
lookup_in_scope (module_scope t) name = lookup_symbol_in t name
lookup_in_scope (subp_scope ts) name = lookup_in_tables ts name
lookup_in_scope plain_scope name = none

unfoldable pub lookup_symbol_from : List Scope → String → Option Symbol
lookup_symbol_from [] name = none
lookup_symbol_from (s ∷ rest) name =
    first_some (lookup_in_scope s name) (lookup_symbol_from rest name)

-- dyn_cast_or_null<TypeOp>.
abbrev pub as_type : Option Symbol → Option TypeOp
as_type (some (type_symbol t)) = some t
as_type (some (other_symbol k)) = none
as_type none = none

abbrev pub has_module : List Scope → Bool
has_module [] = false
has_module (module_scope t ∷ rest) = true
has_module (decls_scope t ∷ rest) = has_module rest
has_module (subp_scope ts ∷ rest) = has_module rest
has_module (plain_scope ∷ rest) = has_module rest

-- The walk stops at the first table whose symbol of that name is a type.
unfoldable pub find_type_in_decls : List SymbolTable → String → Option TypeOp
find_type_in_decls [] sym = none
find_type_in_decls (t ∷ ts) sym =
    first_some (as_type (lookup_symbol_in t sym)) (find_type_in_decls ts sym)

unfoldable pub lookup_ada_type : Module → ℕ → String → Option TypeOp
lookup_ada_type m from sym =
    first_some (as_type (lookup_symbol_from (m.scopes from) sym))
      (if has_module (m.scopes from) then find_type_in_decls m.all_decls sym else none)
