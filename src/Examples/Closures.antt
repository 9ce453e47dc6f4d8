-- ===== src/Examples/Closures.antt =====
-- The theorems on closure conversion, at a nested recursive function that uses a local object.
use Prim.Native.String.{String}
use lalvm.Base.{ℕ, true, false, none, some, List, [], ◌∷◌, ◌≡◌, refl}
use lalvm.Base.Lists.{All}
use lalvm.Dialect.Subprograms.{
  qual_type, ref_type, unit_attr, verify_subp, verify_arguments, no_references, get_attr,
  formal_mode, ir_eq,
}
use lalvm.Dialect.Types.{int, QualType, machine_eq, qual_eq}
use lalvm.Dialect.CallOps.{Value}
use lalvm.ClosureConversion.{
  Subp, State, Isolation, convert_closures, lift, pass_all, pass_captures, append_captures,
  add_captures, replace_uses, replace_use, hoist_subp, hoist_call, contains, cut_after,
}
use lalvm.ClosureConversion.Agreement.{AllAgree}
use lalvm.ClosureConversion.Lifted.{convert_closures-AllAgree}
use lalvm.ClosureConversion.Verified.{convert_closures-verify_subp}

abbrev integer : QualType
integer = record { mlir_type = int 8; ada_type = "integer" }

-- A local object of the outer procedure, and the block argument that stands for it.
abbrev local_object : Value
local_object = record { id = 7; type = ref_type integer }

abbrev new_argument : Value
new_argument = record { id = 20; type = ref_type integer }

abbrev operand : Value
operand = record { id = 3; type = qual_type integer }

abbrev outer : Subp
outer = record {
  key = 0;
  op = record {
    sym_name = "outer";
    arguments = [];
    results = [];
    result_attrs = none;
    in_module = true;
  };
}

abbrev inner : Subp
inner = record {
  key = 1;
  op = record {
    sym_name = "outer.inner";
    arguments = record { type = qual_type integer; attrs = [] } ∷ [];
    results = [];
    result_attrs = none;
    in_module = false;
  };
}

-- A call of the inner subprogram in the outer one, and a recursive one.
abbrev start : State
start = record {
  subps = outer ∷ inner ∷ [];
  calls =
      record { callee = "outer.inner"; inside = 0 ∷ []; inputs = operand ∷ []; arg_attrs = none }
      ∷ record {
        callee = "outer.inner";
        inside = 1 ∷ 0 ∷ [];
        inputs = operand ∷ [];
        arg_attrs = some ([] ∷ []);
      }
      ∷ [];
  processed = [];
}

abbrev isolation : Isolation
isolation s key = (local_object, new_argument) ∷ []

abbrev done : State
done = record {
  subps =
      outer
      ∷ record {
        key = 1;
        op = record {
          sym_name = "outer.inner";
          arguments =
              record { type = qual_type integer; attrs = [] }
              ∷ record { type = ref_type integer; attrs = ("ada.capture", unit_attr) ∷ [] }
              ∷ [];
          results = [];
          result_attrs = none;
          in_module = true;
        };
      }
      ∷ [];
  calls =
      record {
        callee = "outer.inner";
        inside = 0 ∷ [];
        inputs = operand ∷ local_object ∷ [];
        arg_attrs = none;
      }
      ∷ record {
        callee = "outer.inner";
        inside = 1 ∷ [];
        inputs = operand ∷ new_argument ∷ [];
        arg_attrs = some ([] ∷ [] ∷ []);
      }
      ∷ [];
  processed = 1 ∷ [];
}

abbrev nested : List (ℕ × String)
nested = (1, "outer.inner") ∷ []

converted : convert_closures isolation nested start ≡ some done
unfolding convert_closures lift pass_all pass_captures append_captures add_captures replace_uses
    replace_use hoist_subp hoist_call contains cut_after ir_eq qual_eq machine_eq
converted = refl

convert_closures-AllAgree_example : AllAgree done
convert_closures-AllAgree_example =
    convert_closures-AllAgree isolation nested start done (λ s key. (refl, tt))
      ((refl, (refl, tt)), tt) converted
      (((λ e. cc), ((λ e. refl), tt)), (((λ e. cc), ((λ e. refl), tt)), tt))

convert_closures-verify_subp_example :
    All
      (λ (x : Subp).
        (verify_subp x.op ≡ true) × (contains x.key (1 ∷ []) ≡ true → x.op.in_module ≡ true))
      done.subps
unfolding verify_subp verify_arguments no_references get_attr formal_mode
convert_closures-verify_subp_example =
    convert_closures-verify_subp isolation nested start done converted (refl, (refl, tt))
