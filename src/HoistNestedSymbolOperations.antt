-- ===== src/HoistNestedSymbolOperations.antt =====
-- The renaming of subprograms to their link names (mlir/HoistNestedSymbolOperations.cpp,
-- runOnOperation), over the symbol names of a module's subprograms and its uses of symbols. The bare
-- names that it puts on the locations, and the failure of a use that MLIR cannot rename, are left out.
use lalvm.Base.{ℕ, zero, suc, Bool, List, [], ◌∷◌, map, if◌then◌else◌}
use lalvm.Dialect.Mangling.{Name, name_eq, get_mangled_name}
pub mod Calls

-- What the renaming reads of an `ada.subp`.
pub record SubpSymbol : Type 0 where
  pub sym_name : Name
  pub num_inputs : ℕ
  pub is_public : Bool

-- The names of the subprograms, in the order of the walk, and the symbols that the module uses.
pub record ModuleSymbols : Type 0 where
  pub names : List Name
  pub uses : List Name

-- SymbolTable::replaceAllSymbolUses, at one use.
unfoldable pub replace_symbol : Name → Name → Name → Name
replace_symbol old new use_name = if name_eq use_name old then new else use_name

-- SymbolTable::setSymbolName, of the subprogram at a position.
unfoldable pub set_name : ℕ → Name → List Name → List Name
set_name i new [] = []
set_name zero new (x ∷ xs) = new ∷ xs
set_name (suc i) new (x ∷ xs) = x ∷ set_name i new xs

-- One subprogram with its mangled name.
unfoldable pub rename : ℕ → Name × Name → ModuleSymbols → ModuleSymbols
rename i (old, new) s = record {
  names = set_name i new s.names;
  uses = map (replace_symbol old new) s.uses;
}

unfoldable pub rename_all : ℕ → List (Name × Name) → ModuleSymbols → ModuleSymbols
rename_all i [] s = s
rename_all i (p ∷ rest) s = rename_all (suc i) rest (rename i p s)

-- The walk, which mangles the names while all of them are intact.
abbrev pub mangled : (Name → List Name) → SubpSymbol → Name × Name
mangled split s = (s.sym_name, get_mangled_name split s.sym_name s.num_inputs s.is_public)

-- The loop over the subprograms that the walk collects.
unfoldable pub mangle_module : (Name → List Name) → List SubpSymbol → List Name → ModuleSymbols
mangle_module split subps uses =
    rename_all 0 (map (mangled split) subps)
      (record { names = map (λ (s : SubpSymbol). s.sym_name) subps; uses = uses })
