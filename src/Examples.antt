-- ===== src/Examples.antt =====
-- A small Ada module with its types, to apply the theorems to.
use Prim.Native.String.{String}
use lalvm.Base.{ℕ, zero, suc, false, true, none, some, List, [], ◌∷◌, Option}
use lalvm.Base.Int.{ℤ, pos, negsuc}
use lalvm.Llvm.{ApInt}
use lalvm.Dialect.Types.{
  MachineType, int, TypeOp, TypeInfo, integer_info, enum_info, IntegerTypeInfo, absent, array,
  array_info, dynamic, static, Bound,
}
use lalvm.Dialect.Scopes.{Module, Scope, Symbol, SymbolTable, type_symbol, module_scope}
use lalvm.Dialect.Table.{TypeTable, type_table}
use lalvm.LowerToLlvm.Operators.{AdaChecks}
mod Operators
mod Types
mod Conversions
mod Indexing
mod Objects
mod Verified
mod Calls
mod Closures
mod Syntax
mod Accesses
mod Mangling

abbrev pub word : ℕ → ℕ → ApInt
word w n = record { width = w; bits = n }

abbrev pub declared : String → MachineType → TypeInfo → Option String → TypeOp
declared name type info base = record {
  sym_name = name;
  mlir_type = type;
  type_info = some info;
  base = base;
  has_default_value = false;
  place = 0;
}

-- A subtype that adds no constraint.
abbrev pub renamed : String → MachineType → String → TypeOp
renamed name type base = record {
  sym_name = name;
  mlir_type = type;
  type_info = none;
  base = some base;
  has_default_value = false;
  place = 0;
}

abbrev pub range_info : Bound → Bound → TypeInfo
range_info lo hi = integer_info (record { modulus = none; lower = lo; upper = hi })

abbrev pub modular_info : ApInt → TypeInfo
modular_info m = integer_info (record { modulus = some m; lower = absent; upper = absent })

-- type Integer is range -128 .. 127; subtype Natural is Integer range 0 .. 127;
-- subtype Count is Integer range 0 .. N; subtype Int is Integer;
-- type Vector is array (Integer range 1 .. 10) of Integer;
-- type Digit is mod 10; type Byte is mod 256.
abbrev pub standard : SymbolTable
standard =
    (
      "integer",
      type_symbol (
          declared "integer" (int 8) (range_info (static (word 8 128)) (static (word 8 127))) none),
    )
    ∷ (
      "natural",
      type_symbol (
          declared "natural" (int 8) (range_info (static (word 1 0)) (static (word 8 127)))
            (some "integer")),
    )
    ∷ ("digit", type_symbol (declared "digit" (int 8) (modular_info (word 5 10)) none))
    ∷ ("byte", type_symbol (declared "byte" (int 8) (modular_info (word 9 256)) none))
    ∷ (
      "count",
      type_symbol
          (declared "count" (int 8) (range_info (static (word 1 0)) dynamic) (some "integer")),
    )
    ∷ ("int", type_symbol (renamed "int" (int 8) "integer"))
    ∷ (
      "vector",
      type_symbol (
          declared "vector" (array (int 8) (some 10 ∷ []))
            (array_info (record {
              component = "integer";
              index_types = "integer" ∷ [];
              lower_bounds = static (word 2 1) ∷ [];
              upper_bounds = static (word 5 10) ∷ [];
            }))
            none),
    )
    ∷ []

abbrev pub ada_module : Module
ada_module = record { scopes = λ place. module_scope standard ∷ []; all_decls = [] }

abbrev pub types : TypeTable
types = type_table 2 ada_module 0

-- With the overflow check, and with the division check.
abbrev pub overflow_checks : Option AdaChecks
overflow_checks = some (record { overflow = true; division = false })

abbrev pub division_checks : Option AdaChecks
division_checks = some (record { overflow = false; division = true })

-- The values 1, 2, ... of the opaque values 0, 1, ...
abbrev pub given : ℕ → ℕ
given i = suc i
