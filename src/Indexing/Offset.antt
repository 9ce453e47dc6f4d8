-- ===== src/Indexing/Offset.antt =====
-- The offset of a component, and the check before it (mlir/LowerAdaIndexing.cpp,
-- IndexOpLowering).
use Prim.Native.String.{String}
use lalvm.Base.{
  ℕ, ◌^◌, ◌<◌, ◌≡◌, refl, sym, Bool, true, false, not, Option, none, some, if◌then◌else◌,
}
use lalvm.Base.Int.{ℤ, ◌-ℤ◌}
use lalvm.Base.Words.{encode}
use lalvm.Llvm.{
  ApInt, ApsInt, ApIntLib, IsApIntLib, Machine, IsMachine, read_word, value, signed_of,
}
use lalvm.Dialect.Types.{QualType, TypeOp, int, machine_eq, bound_value}
use lalvm.Dialect.Table.{TypeTable}
use lalvm.LowerToLlvm.Emit.{Outcome, Val, index_check, returns, raises, run, eval, two_operands}
use lalvm.LowerToLlvm.BinOp.{is_modular}
use lalvm.LowerToLlvm.Checks.{check_code, index_check_op, checked_operand}
use lalvm.Conversions.{info_bounds}
use lalvm.Conversions.Ranges.{in_word, within}
use lalvm.Conversions.Steps.{descriptor_word}
use lalvm.Conversions.Meaning.{int_qual}
use lalvm.Ada.{◌>>=◌}
use lalvm.Indexing.{
  IndexOp, IndexValue, checked_index, constant_index, Dimension, IndexRewrite, IndexCheck, indexed,
  match_failure, asserts, wide_width,
}

abbrev of_machine : IndexCheck → QualType → QualType
of_machine c q = record { mlir_type = c.machine; ada_type = q.ada_type }

-- The offset that the code computes for the index `n`, behind its check, whose descriptor has words of
-- the check's machine type. IndexCheckOp::verify asks for the index to have that type too.
abbrev pub run_index :
    ApIntLib → Machine → TypeTable → QualType → Option IndexCheck → Val → ℕ → Outcome
run_index l m t q none v n = returns (eval m (two_operands n 0) v)
run_index l m t q (some c) v n =
    run m
      (checked_operand n (descriptor_word l (of_machine c q) c.lower)
        (descriptor_word l (of_machine c q) c.upper))
      (check_code t (record { kind = index_check_op; type = q.mlir_type; sym = q.ada_type }))
    >>= (λ passed. returns (eval m (two_operands passed 0) v))

abbrev pub IsVerified : QualType → Option IndexCheck → Type 0
IsVerified q none = Unit
IsVerified q (some c) = machine_eq q.mlir_type c.machine ≡ true

abbrev pub Indexes : ApIntLib → Machine → TypeTable → QualType → ℕ → IndexRewrite → Outcome → Type 0
Indexes l m t q n (indexed check v) o =
    IsVerified q check × Path Outcome (run_index l m t q check v n) o
Indexes l m t q n match_failure o = ⊥
Indexes l m t q n asserts o = ⊥

-- What the index is known to be: a check it passed, the constant it is, the range of its type.
pub record IsIndex (l : ApIntLib) (t : TypeTable) (op : IndexOp) (x : ℤ) : Type 0 where
  pub checked :
      (lo hi : ApInt)
      → op.value ≡ checked_index (some lo) (some hi)
      → within (signed_of lo) (signed_of hi) x ≡ true
  pub constant : (v : ApsInt) → op.value ≡ constant_index (some v) → value v ≡ x
  pub in_type :
      (a b : ApsInt)
      → info_bounds l (t.int_info_of op.index.ada_type) ≡ some (a, b)
      → within (value a) (value b) x ≡ true

kept : (uns : Bool) → (if uns then true else not false) ≡ true
kept true = refl
kept false = refl

module _ (l : ApIntLib) (lib : IsApIntLib l) (m : Machine) (machine : IsMachine m) (t : TypeTable)
    (w : ℕ) (wide : 0 < w) (name : String) (array : Option String) (source : IndexValue)
    (order : t.unsigned_order name ≡ is_modular t name) (n : ℕ) (hn : n < 2 ^ w) where
  abbrev op : IndexOp
  op = record { index = int_qual w name; array_type = array; value = source; has_offset = false }

  abbrev x : ℤ
  x = read_word (is_modular t name) w n

  abbrev ww : ℕ
  ww = wide_width (int_qual w name)

  module _ (d : Dimension) (input : IsIndex l t op x) where
    abbrev lower : ApsInt
    lower = bound_value d.lower

    abbrev upper : ApsInt
    upper = bound_value d.upper

    abbrev inside : Bool
    inside = within (signed_of d.lower) (signed_of d.upper) x

    module _ (lower_fits : in_word (is_modular t name) w (signed_of d.lower) ≡ true)
        (upper_fits : in_word (is_modular t name) w (signed_of d.upper) ≡ true) (base : String)
        (has_base : t.base_of d.index_type ≡ some base) (subtype : TypeOp)
        (declared : t.type_of d.index_type ≡ some subtype)
        (same_machine : subtype.mlir_type ≡ int w) where
      abbrev offset : Outcome
      offset = if inside then returns (encode ww (x -ℤ signed_of d.lower)) else raises index_check
