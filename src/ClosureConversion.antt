-- ===== src/ClosureConversion.antt =====
-- Lambda lifting of nested subprograms (mlir/ClosureConversion.cpp): captured values become trailing
-- arguments of a subprogram and operands of its calls, and the subprogram moves to the module.
use text.Mathlib.Text.{◌==◌ as str_eq}
use Prim.Native.String.{String}
use lalvm.Base.{
  ℕ, Bool, true, false, not, Option, none, some, List, [], ◌∷◌, ◌++◌, map, ◌==◌, ◌||◌, ◌&&◌,
  if◌then◌else◌,
}
use lalvm.Base.Lists.{length}
use lalvm.Dialect.Subprograms.{ir_eq, AttrDict, unit_attr, Argument, SubpOp}
use lalvm.Dialect.CallOps.{Value}
pub mod Agreement
pub mod Lifted
pub mod Verified

-- A subprogram operation and its name.
pub record Subp : Type 0 where
  pub key : ℕ
  pub op : SubpOp

-- A call: its callee, the subprograms that enclose it, innermost first, its inputs, and its
-- argument attributes, where it has them.
pub record CallSite : Type 0 where
  pub callee : String
  pub inside : List ℕ
  pub inputs : List Value
  pub arg_attrs : Option (List AttrDict)

pub record State : Type 0 where
  pub subps : List Subp
  pub calls : List CallSite
  pub processed : List ℕ

-- What mlir::makeRegionIsolatedFromAbove gives for the body of a subprogram: the values that it
-- uses from above, each with the block argument that is appended for it.
abbrev pub Isolation : Type 0
Isolation = State → ℕ → List (Value × Value)

unfoldable pub contains : ℕ → List ℕ → Bool
contains k [] = false
contains k (j ∷ js) = (k == j) || contains k js

-- Values are identified by their number; a value has one type.
abbrev pub is_same : Value → Value → Bool
is_same a b = (a.id == b.id) && ir_eq a.type b.type

-- The replacement of a captured value.
unfoldable pub replace_use : List (Value × Value) → Value → Value
replace_use [] v = v
replace_use (p ∷ rest) v = let other = replace_use rest v in if is_same p.0 v then p.1 else other

unfoldable pub replace_uses : ℕ → List (Value × Value) → CallSite → CallSite
replace_uses key captures c = record c {
  inputs = if contains key c.inside then map (replace_use captures) c.inputs else c.inputs;
}

abbrev pub captured : Value × Value → Value
captured pair = pair.0

abbrev pub lifted : Value × Value → Value
lifted pair = pair.1

abbrev pub capture_argument : Value × Value → Argument
capture_argument pair = record {
  type = (captured pair).type;
  attrs = ("ada.capture", unit_attr) ∷ [];
}

-- The function type and the argument attributes, extended.
unfoldable pub add_captures : ℕ → List (Value × Value) → Subp → Subp
add_captures key captures s =
    if s.key == key
    then record {
      key = s.key;
      op = record s.op { arguments = s.op.arguments ++ map capture_argument captures };
    }
    else s

abbrev pub no_attrs : Value → AttrDict
no_attrs v = []

abbrev pub extend_attrs : List Value → Option (List AttrDict) → Option (List AttrDict)
extend_attrs values (some attrs) = some (attrs ++ map no_attrs values)
extend_attrs values none = none

-- appendCaptures.
unfoldable pub append_captures : List Value → CallSite → CallSite
append_captures values c = record {
  callee = c.callee;
  inside = c.inside;
  inputs = c.inputs ++ values;
  arg_attrs = extend_attrs values c.arg_attrs;
}

abbrev pub is_processed : List ℕ → List ℕ → Bool
is_processed processed [] = false
is_processed processed (caller ∷ rest) = contains caller processed

-- One call; `none` is the error on a caller that is processed already.
unfoldable pub pass_captures :
    ℕ → String → List ℕ → List (Value × Value) → CallSite → Option CallSite
pass_captures key name processed captures c =
    if not (str_eq c.callee name)
    then some c
    else if contains key c.inside
    then some (append_captures (map lifted captures) c)
    else if is_processed processed c.inside
    then none
    else some (append_captures (map captured captures) c)

abbrev pub cons_call : Option CallSite → Option (List CallSite) → Option (List CallSite)
cons_call (some c) (some cs) = some (c ∷ cs)
cons_call (some c) none = none
cons_call none cs = none

-- The walk over the calls.
unfoldable pub pass_all :
    ℕ → String → List ℕ → List (Value × Value) → List CallSite → Option (List CallSite)
pass_all key name processed captures [] = some []
pass_all key name processed captures (c ∷ cs) =
    cons_call (pass_captures key name processed captures c)
      (pass_all key name processed captures cs)

-- `moveBefore` the end of the module: nothing encloses the subprogram any more.
unfoldable pub cut_after : ℕ → List ℕ → List ℕ
cut_after key [] = []
cut_after key (j ∷ js) = elim (key == j) [ true ↦ j ∷ [] | false ↦ j ∷ cut_after key js ]

unfoldable pub hoist_subp : ℕ → Subp → Subp
hoist_subp key s =
    if s.key == key then record { key = s.key; op = record s.op { in_module = true } } else s

unfoldable pub hoist_call : ℕ → CallSite → CallSite
hoist_call key c = record c { inside = cut_after key c.inside }

abbrev pub hoisted : ℕ → List ℕ → List Subp → Option (List CallSite) → Option State
hoisted key processed subps (some calls) = some (record {
  subps = map (hoist_subp key) subps;
  calls = map (hoist_call key) calls;
  processed = key ∷ processed;
})
hoisted key processed subps none = none

-- The body of the loop, with what is captured.
unfoldable pub lift : ℕ → String → List (Value × Value) → State → Option State
lift key name [] s = hoisted key s.processed s.subps (some s.calls)
lift key name (c ∷ captures) s =
    hoisted key s.processed (map (add_captures key (c ∷ captures)) s.subps)
      (pass_all key name s.processed (c ∷ captures) (map (replace_uses key (c ∷ captures)) s.calls))

abbrev pub next_state : Option State → (State → Option State) → Option State
next_state (some s) f = f s
next_state none f = none

-- The loop over the nested subprograms, innermost first, by key and name.
unfoldable pub convert_closures : Isolation → List (ℕ × String) → State → Option State
convert_closures isolation [] s = some s
convert_closures isolation ((key, name) ∷ rest) s =
    next_state (lift key name (isolation s key) s) (convert_closures isolation rest)
