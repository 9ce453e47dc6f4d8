-- ===== src/Dialect/Subprograms.antt =====
-- Subprograms of the dialect (mlir/Dialect.cpp, SubpOp, ReturnOp and RefType; include/ada/Ops.td):
-- formals, modes, captures, and the verifiers.
use text.Mathlib.Text.{◌==◌ as str_eq}
use Prim.Native.String.{String}
use lalvm.Base.{
  ℕ, zero, suc, Bool, true, false, not, Option, none, some, List, [], ◌∷◌, ◌&&◌, ◌||◌,
  if◌then◌else◌,
}
use lalvm.Dialect.Types.{
  MachineType, int, float, array, other_type, QualType, TypeOp, machine_eq, qual_eq,
}
use lalvm.Dialect.Table.{TypeTable}

-- `!ada.ref` of an object of a qualified type, `!ada.range` of a subtype, or another type.
pub data IrType : Type 0 where
  qual_type : QualType → IrType
  plain_type : MachineType → IrType
  ref_type : QualType → IrType
  range_type : MachineType → String → IrType

unfoldable pub ir_eq : IrType → IrType → Bool
ir_eq (qual_type a) (qual_type b) = qual_eq a b
ir_eq (plain_type a) (plain_type b) = machine_eq a b
ir_eq (ref_type a) (ref_type b) = qual_eq a b
ir_eq (range_type s a) (range_type t b) = machine_eq s t && str_eq a b
ir_eq _ _ = false

abbrev pub is_ref : IrType → Bool
is_ref (qual_type q) = false
is_ref (plain_type t) = false
is_ref (ref_type q) = true
is_ref (range_type t s) = false

-- RefType::verify, of the type that is referred to.
unfoldable pub verify_ref_type : IrType → Bool
verify_ref_type (qual_type q) = elim q.mlir_type [
  | array c e ↦ true
  | int w ↦ true
  | float w ↦ true
  | other_type k ↦ false
]
verify_ref_type (plain_type t) = false
verify_ref_type (ref_type q) = false
verify_ref_type (range_type t s) = false

pub data ParamMode : Type 0 where
  in_mode : ParamMode
  in_out_mode : ParamMode
  out_mode : ParamMode

-- The attributes of an argument: a parameter mode, the unit attribute, or any other.
pub data Attr : Type 0 where
  mode_attr : ParamMode → Attr
  unit_attr : Attr
  other_attr : ℕ → Attr

abbrev pub AttrDict : Type 0
AttrDict = List (String × Attr)

unfoldable pub get_attr : String → AttrDict → Option Attr
get_attr key [] = none
get_attr key ((k, a) ∷ rest) = if str_eq k key then some a else get_attr key rest

-- NamedAttrList::erase.
unfoldable pub erase_attr : String → AttrDict → AttrDict
erase_attr key [] = []
erase_attr key ((k, a) ∷ rest) =
    let others = erase_attr key rest in if str_eq k key then others else (k, a) ∷ others

-- An input of the function type, with its argument attributes.
pub record Argument : Type 0 where
  pub type : IrType
  pub attrs : AttrDict

-- An `ada.subp`; `in_module` tells whether its parent is the module.
pub record SubpOp : Type 0 where
  pub sym_name : String
  pub arguments : List Argument
  pub results : List IrType
  pub result_attrs : Option AttrDict
  pub in_module : Bool

abbrev pub is_capture : Argument → Bool
is_capture a = elim (get_attr "ada.capture" a.attrs) [ some c ↦ true | none ↦ false ]

-- SubpOp::getNumSourceFormals.
unfoldable pub num_source_formals : List Argument → ℕ
num_source_formals [] = 0
num_source_formals (a ∷ rest) = elim (is_capture a) [
  | true ↦ 0
  | false ↦ suc (num_source_formals rest)
]

-- dyn_cast_or_null<AdaParamModeAttr>.
abbrev pub as_mode : Option Attr → Option ParamMode
as_mode (some (mode_attr m)) = some m
as_mode (some unit_attr) = none
as_mode (some (other_attr k)) = none
as_mode none = none

abbrev pub or_in : Option ParamMode → ParamMode
or_in (some m) = m
or_in none = in_mode

-- SubpOp::getFormalMode.
unfoldable pub formal_mode : Argument → ParamMode
formal_mode a = or_in (as_mode (get_attr "ada.mode" a.attrs))

abbrev pub is_writable : ParamMode → Bool
is_writable in_mode = false
is_writable in_out_mode = true
is_writable out_mode = true

-- TypeOp::hasDefaultValue: the type or one that its base links lead to. `lookup` resolves a base;
-- fuel as in rootOfAdaType.
unfoldable pub has_default_value : ℕ → (TypeOp → Option TypeOp) → TypeOp → Bool
has_default_value zero lookup t = t.has_default_value
has_default_value (suc f) lookup t =
    if t.has_default_value
    then true
    else elim (lookup t) [ some b ↦ has_default_value f lookup b | none ↦ false ]

-- The default values of types, as `formalNeedsInput` asks for them.
abbrev pub Defaults : Type 0
Defaults = TypeOp → Bool

-- SubpOp::formalNeedsInput.
unfoldable pub formal_needs_input : TypeTable → Defaults → Argument → Bool
formal_needs_input t defaults a = elim (formal_mode a) [
  | in_mode ↦ true
  | in_out_mode ↦ true
  | out_mode ↦ elim a.type [
    | ref_type q ↦ elim (t.type_of q.ada_type) [ some op ↦ defaults op | none ↦ false ]
    | qual_type q ↦ false
    | plain_type p ↦ false
    | range_type p s ↦ false
  ]
]

abbrev pub is_mode_attr : Option Attr → Bool
is_mode_attr (some (mode_attr m)) = true
is_mode_attr (some unit_attr) = false
is_mode_attr (some (other_attr k)) = false
is_mode_attr none = true

abbrev pub is_unit : Attr → Bool
is_unit unit_attr = true
is_unit (mode_attr m) = false
is_unit (other_attr k) = false

abbrev pub has_no_attr : Option Attr → Bool
has_no_attr (some a) = false
has_no_attr none = true

-- One argument, with its `ada.mode` and `ada.capture`.
abbrev pub verify_argument : Bool → IrType → ParamMode → Option Attr → Option Attr → Bool
verify_argument seen type mode mode_of (some capture) = is_unit capture && has_no_attr mode_of
verify_argument seen type mode mode_of none =
    not seen && not (is_ref type && not (is_writable mode))

-- The loop of SubpOp::verify, with `seenCapture`.
unfoldable pub verify_arguments : Bool → List Argument → Bool
verify_arguments seen [] = true
verify_arguments seen (a ∷ rest) =
    is_mode_attr (get_attr "ada.mode" a.attrs)
    && verify_argument seen a.type (formal_mode a) (get_attr "ada.mode" a.attrs)
        (get_attr "ada.capture" a.attrs)
    && verify_arguments (seen || is_capture a) rest

unfoldable pub no_references : List IrType → Bool
no_references [] = true
no_references (t ∷ ts) = not (is_ref t) && no_references ts

-- SubpOp::verify.
unfoldable pub verify_subp : SubpOp → Bool
verify_subp op = no_references op.results && verify_arguments false op.arguments

abbrev pub is_procedure : SubpOp → Bool
is_procedure op = elim op.results [ [] ↦ true | _ ↦ false ]

abbrev pub is_function : SubpOp → Bool
is_function op = elim op.results [ r ∷ [] ↦ true | _ ↦ false ]

-- ReturnOp::verify: the type of its operand, if any, and the results of the subprogram.
unfoldable pub verify_return : Option IrType → List IrType → Bool
verify_return none [] = true
verify_return (some input) (result ∷ []) = ir_eq input result
verify_return _ _ = false
