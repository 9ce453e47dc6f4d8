-- ===== src/Calls.antt =====
-- The value ABI of subprograms (mlir/LowerAdaCalls.cpp): the signature of a subprogram, and what
-- its body, its returns and its calls become. Locations and debug profiles are left out.
use Prim.Native.String.{String}
use lalvm.Base.{
  ℕ, zero, suc, ◌+◌, Bool, true, false, not, Option, none, some, List, [], ◌∷◌, ◌++◌, ltb,
  if◌then◌else◌,
}
use lalvm.Base.Int.{ℤ, pos, negsuc}
use lalvm.Base.Lists.{length, get_elem?, take, drop}
use lalvm.Dialect.Types.{QualType, TypeOp, is_numeric_machine_type}
use lalvm.Dialect.Table.{TypeTable}
use lalvm.Dialect.Subprograms.{
  IrType, qual_type, plain_type, ref_type, range_type, ParamMode, in_mode, in_out_mode, out_mode,
  AttrDict, Attr, get_attr, erase_attr, unit_attr, mode_attr, other_attr, Argument, SubpOp,
  Defaults, num_source_formals, formal_mode, is_writable, formal_needs_input,
}
use lalvm.Dialect.CallOps.{qual_base}
pub mod Mapping
pub mod Caller
pub mod Callee
pub mod CopyIn
pub mod Snapshots
pub mod Arguments
pub mod CopyBack
pub mod Errors

-- Why a signature cannot be mapped.
pub data SignatureError : Type 0 where
  not_module_level : SignatureError
  too_many_results : SignatureError
  in_needs_value : SignatureError
  writable_needs_ref : SignatureError
  unsupported_type : SignatureError
  unresolved_type : SignatureError
  capture_order : SignatureError

pub data Result {ℓ} (A : Type ℓ) : Type ℓ where
  failure : SignatureError → Result A
  success : A → Result A

abbrev pub and_then {ℓ κ} : {A : Type ℓ} {B : Type κ} → Result A → (A → Result B) → Result B
and_then (failure e) f = failure e
and_then (success a) f = f a

-- The base is that of a writable formal; `input` is its place among the inputs of the function.
pub record Formal : Type 0 where
  pub type : IrType
  pub base : Option QualType
  pub mode : ParamMode
  pub input : Option ℕ

pub record Signature : Type 0 where
  pub formals : List Formal
  pub inputs : List IrType
  pub results : List IrType
  pub input_attrs : List AttrDict
  pub result_attrs : List AttrDict

-- The type of a formal, less the reference, and its base where it is writable.
abbrev pub writable_type : TypeTable → IrType → Result (IrType × Option QualType)
writable_type t (ref_type q) =
    if not (is_numeric_machine_type q.mlir_type)
    then failure unsupported_type
    else elim (qual_base t q) [
      | some b ↦ success (qual_type q, some b)
      | none ↦ failure unresolved_type
    ]
writable_type t (qual_type q) = failure writable_needs_ref
writable_type t (plain_type p) = failure writable_needs_ref
writable_type t (range_type p s) = failure writable_needs_ref

abbrev pub value_type : IrType → Result (IrType × Option QualType)
value_type (ref_type q) = failure in_needs_value
value_type (qual_type q) = success (qual_type q, none)
value_type (plain_type p) = success (plain_type p, none)
value_type (range_type p s) = success (range_type p s, none)

unfoldable pub formal_type : TypeTable → Argument → Result (IrType × Option QualType)
formal_type t a = elim (is_writable (formal_mode a)) [
  | true ↦ writable_type t a.type
  | false ↦ value_type a.type
]

-- `mode == Out ? base : input`; the base is there where the formal is writable.
abbrev pub input_type : ParamMode → IrType → Option QualType → IrType
input_type out_mode type (some b) = qual_type b
input_type out_mode type none = type
input_type in_mode type base = type
input_type in_out_mode type base = type

abbrev pub base_results : Option QualType → List IrType
base_results (some b) = qual_type b ∷ []
base_results none = []

abbrev pub base_attrs : Option QualType → List AttrDict
base_attrs (some b) = [] ∷ []
base_attrs none = []

-- One formal, before those that follow it. `needed` tells whether it has an input, at `next`.
unfoldable pub add_formal :
    ℕ → Bool → ParamMode → IrType → Option QualType → AttrDict → Signature → Signature
add_formal next needed mode type base attrs s = record {
  formals =
      record {
        type = type;
        base = base;
        mode = mode;
        input = elim needed [ true ↦ some next | false ↦ none ];
      }
      ∷ s.formals;
  inputs = elim needed [ true ↦ input_type mode type base ∷ s.inputs | false ↦ s.inputs ];
  results = base_results base ++ s.results;
  input_attrs = elim needed [
    | true ↦ erase_attr "ada.mode" attrs ∷ s.input_attrs
    | false ↦ s.input_attrs
  ];
  result_attrs = base_attrs base ++ s.result_attrs;
}

abbrev pub is_unit_capture : Option Attr → Bool
is_unit_capture (some unit_attr) = true
is_unit_capture (some (mode_attr m)) = false
is_unit_capture (some (other_attr k)) = false
is_unit_capture none = false

abbrev pub add_capture : Argument → Signature → Signature
add_capture a s = record s {
  inputs = a.type ∷ s.inputs;
  input_attrs = erase_attr "ada.capture" a.attrs ∷ s.input_attrs;
}

abbrev pub no_formals : Signature
no_formals = record { formals = []; inputs = []; results = []; input_attrs = []; result_attrs = [] }

-- The loop over the captures.
unfoldable pub map_captures : List Argument → Result Signature
map_captures [] = success no_formals
map_captures (a ∷ rest) = elim (is_unit_capture (get_attr "ada.capture" a.attrs)) [
  | true ↦ and_then (map_captures rest) (λ s. success (add_capture a s))
  | false ↦ failure capture_order
]

-- The loop over the `sources` source formals, of which `next` inputs are there already, and then
-- over the captures.
unfoldable pub map_formals : TypeTable → Defaults → ℕ → ℕ → List Argument → Result Signature
map_formals t defaults zero next arguments = map_captures arguments
map_formals t defaults (suc n) next [] = map_captures []
map_formals t defaults (suc n) next (a ∷ rest) = and_then (formal_type t a) λ tb.
    elim (formal_needs_input t defaults a) [
      | true ↦
          and_then (map_formals t defaults n (suc next) rest)
            (λ s. success (add_formal next true (formal_mode a) tb.0 tb.1 a.attrs s))
      | false ↦
          and_then (map_formals t defaults n next rest)
            (λ s. success (add_formal next false (formal_mode a) tb.0 tb.1 a.attrs s))
    ]

abbrev or_empty : Option AttrDict → AttrDict
or_empty (some attrs) = attrs
or_empty none = []

-- The source results come first.
abbrev pub with_results : SubpOp → Signature → Signature
with_results op s = record s {
  results = op.results ++ s.results;
  result_attrs = elim op.results [
    | [] ↦ s.result_attrs
    | _ ↦ or_empty op.result_attrs ∷ s.result_attrs
  ];
}

-- mapSignature.
unfoldable pub map_signature : TypeTable → Defaults → SubpOp → Result Signature
map_signature t defaults op =
    if not op.in_module
    then failure not_module_level
    else if ltb 1 (length op.results)
    then failure too_many_results
    else and_then (map_formals t defaults (num_source_formals op.arguments) 0 op.arguments)
        (λ s. success (with_results op s))
