-- ===== src/Dialect/Mangling.antt =====
-- The link names of subprograms (mlir/Dialect.cpp, gnatOperatorName, SubpOp::getMangledName and
-- libraryLevelSymbol). A name is the list of its bytes.
use Prim.Native.Char.{code}
use Prim.Native.String.{String}
use lalvm.Base.{ℕ, Bool, true, false, List, [], ◌∷◌, ◌++◌, ◌&&◌, ◌==◌, leb, if◌then◌else◌}
use lalvm.Base.Lists.{length}
pub mod Segments
pub mod Parts
pub mod RoundTrip

abbrev pub Name : Type 0
Name = List ℕ

abbrev pub codes : String → Name
codes String.[] = []
codes (String.◌∷◌ c s) = code c ∷ codes s

unfoldable pub name_eq : Name → Name → Bool
name_eq [] [] = true
name_eq [] (d ∷ t) = false
name_eq (c ∷ s) [] = false
name_eq (c ∷ s) (d ∷ t) = c == d && name_eq s t

abbrev pub is_empty : Name → Bool
is_empty [] = true
is_empty (c ∷ s) = false

-- The cases of the StringSwitch of gnatOperatorName.
abbrev pub operator_cases : List (Name × Name)
operator_cases =
    (codes "&", codes "Oconcat")
    ∷ (codes "*", codes "Omultiply")
    ∷ (codes "**", codes "Oexpon")
    ∷ (codes "/", codes "Odivide")
    ∷ (codes "/=", codes "One")
    ∷ (codes "<", codes "Olt")
    ∷ (codes "<=", codes "Ole")
    ∷ (codes "=", codes "Oeq")
    ∷ (codes ">", codes "Ogt")
    ∷ (codes ">=", codes "Oge")
    ∷ (codes "abs", codes "Oabs")
    ∷ (codes "and", codes "Oand")
    ∷ (codes "mod", codes "Omod")
    ∷ (codes "not", codes "Onot")
    ∷ (codes "or", codes "Oor")
    ∷ (codes "rem", codes "Orem")
    ∷ (codes "xor", codes "Oxor")
    ∷ []

-- llvm::StringSwitch, with an empty default.
unfoldable pub string_switch : Name → List (Name × Name) → Name
string_switch sym [] = []
string_switch sym ((k, v) ∷ rest) = if name_eq sym k then v else string_switch sym rest

-- gnatOperatorName; `num_args` tells unary from binary.
unfoldable pub gnat_operator_name : Name → ℕ → Name
gnat_operator_name sym num_args =
    if name_eq sym (codes "+")
    then (if num_args == 1 then codes "Oplus" else codes "Oadd")
    else if name_eq sym (codes "-")
    then (if num_args == 1 then codes "Ominus" else codes "Osubtract")
    else string_switch sym operator_cases

-- libraryLevelSymbol.
unfoldable pub library_level_symbol : Name → Name
library_level_symbol name = codes "_ada_" ++ name

-- getMangledName, one segment: its O-name where it has one.
abbrev pub or_itself : Name → Name → Name
or_itself [] seg = seg
or_itself (c ∷ s) seg = c ∷ s

unfoldable pub segment_name : ℕ → Name → Name
segment_name arity seg =
    if leb (length seg) 3 then or_itself (gnat_operator_name seg arity) seg else seg

unfoldable pub append_segment : Name → Name → Name
append_segment name seg = if is_empty name then seg else name ++ (codes "__" ++ seg)

-- getMangledName, the loop: the arity is that of the subprogram for the last segment, and 2.
unfoldable pub mangle_segments : ℕ → Name → List Name → Name
mangle_segments num_inputs name [] = name
mangle_segments num_inputs name (seg ∷ []) = append_segment name (segment_name num_inputs seg)
mangle_segments num_inputs name (seg ∷ next ∷ segs) =
    mangle_segments num_inputs (append_segment name (segment_name 2 seg)) (next ∷ segs)

-- SubpOp::getMangledName. `split` is StringRef::split at the dots.
unfoldable pub get_mangled_name : (Name → List Name) → Name → ℕ → Bool → Name
get_mangled_name split sym_name num_inputs is_public =
    if is_public && (length (split sym_name) == 1)
    then library_level_symbol (mangle_segments num_inputs [] (split sym_name))
    else mangle_segments num_inputs [] (split sym_name)
