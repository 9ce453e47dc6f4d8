-- ===== src/Conversions/SameRepresentation.antt =====
-- A conversion within a base type (mlir/LowerAdaConversions.cpp, SameRepresentationConversion).
use Prim.Native.String.{String}
use mathlib.Core.Path.{subst}
use lalvm.Base.{
  ℕ, ◌<◌, ◌≡◌, arith, refl, ap, ap₂, ◌∙◌, Bool, true, false, Option, none, some, inl, inr, [], ◌∷◌,
  if◌then◌else◌, Bool-cases,
}
use lalvm.Base.Int.{ℤ}
use lalvm.Llvm.{ApInt, ApsInt, ApIntLib, IsApIntLib, Machine, IsMachine, read_word, signed_of}
use lalvm.Dialect.Types.{
  int, TypeOp, static_bounds, bound_value, machine_eq, qual_eq, IntegerTypeInfo,
}
use lalvm.Dialect.Table.{TypeTable}
use lalvm.Ada.{◌>>=◌}
use lalvm.LowerToLlvm.Emit.{Outcome, returns, raises, range_check}
use lalvm.LowerToLlvm.BinOp.{is_modular}
use lalvm.LowerToLlvm.Checks.{check_outcome, range_check_op}
use lalvm.Conversions.{
  ConvertOp, Rewrite, static_check, dynamic_check, known_within, constrained_rewrite,
  same_representation, required_info, is_base, or_target,
}
use lalvm.Conversions.Steps.{run_steps}
use lalvm.Conversions.Ranges.{in_word, within}
use lalvm.Conversions.Meaning.{
  Converts, int_qual, IsInput, known_within_sound, range_check_run_lem, run_steps-requalified,
  descriptor_word_lem,
}

module _ (l : ApIntLib) (lib : IsApIntLib l) (m : Machine) (machine : IsMachine m) (t : TypeTable)
    (low high w : ℕ) (wide : 0 < w) (sname tname : String) (known : Option ApsInt)
    (has_range : Bool) (n : ℕ) (target : TypeOp) where
  abbrev conversion : ConvertOp
  conversion = record {
    source = int_qual w sname;
    target = int_qual w tname;
    known_value = known;
    has_range = has_range;
  }

  abbrev x : ℤ
  x = read_word (is_modular t sname) w n

  abbrev passed : Bool → Outcome
  passed inside = if inside then returns n else raises range_check

  abbrev Does : Rewrite → Outcome → Type 0
  Does r o = Converts l m t low high (int_qual w sname) n r o

  static_lem :
      (lo hi : ApInt)
      → in_word (is_modular t sname) w (signed_of lo) ≡ true
      → in_word (is_modular t sname) w (signed_of hi) ≡ true
      → run_steps l m t low high (static_check lo hi (int_qual w tname) ∷ []) (int_qual w sname) n
        ≡ passed (within (signed_of lo) (signed_of hi) x)
  unfolding run_steps
  static_lem lo hi lo_fits hi_fits =
      ap (λ o. o >>= returns)
        (range_check_run_lem l lib m machine t low high w sname _ _ n
          ∙ ap (λ p. check_outcome p range_check_op n)
              (ap₂ (λ a b. within a b x)
                (descriptor_word_lem l lib m machine t low high (is_modular t sname) w sname lo wide
                  lo_fits)
                (descriptor_word_lem l lib m machine t low high (is_modular t sname) w sname hi wide
                  hi_fits)))
      ∙ finish (within (signed_of lo) (signed_of hi) x)
    where
      finish : (inside : Bool) → (check_outcome inside range_check_op n >>= returns) ≡ passed inside
      finish true = refl
      finish false = refl

  dynamic_lem :
      run_steps l m t low high (dynamic_check (int_qual w tname) ∷ []) (int_qual w sname) n
      ≡ passed
          (within (read_word (is_modular t sname) w low) (read_word (is_modular t sname) w high) x)
  unfolding run_steps
  dynamic_lem =
      ap (λ o. o >>= returns) (range_check_run_lem l lib m machine t low high w sname low high n)
      ∙ finish
          (within (read_word (is_modular t sname) w low) (read_word (is_modular t sname) w high) x)
    where
      finish : (inside : Bool) → (check_outcome inside range_check_op n >>= returns) ≡ passed inside
      finish true = refl
      finish false = refl

  same_machine : machine_eq (int w) (int w) ≡ true
  unfolding machine_eq
  same_machine = ground arith

  module _ (differ : qual_eq (int_qual w sname) (int_qual w tname) ≡ false)
      (declared : t.type_of tname ≡ some target)
      (same_base : is_base (t.base_of sname) (or_target target.base tname) ≡ true) where
    module _ (required : IntegerTypeInfo) (constrained : required_info target ≡ some required) where
      rewritten : constrained_rewrite l t conversion required ≡ same_representation l t conversion
      unfolding same_representation
      rewritten =
          rw (same_representation, differ, same_machine, declared, same_base, constrained) refl

      -- A conversion to a subtype of the same base with static bounds lets the value through
      -- unchanged where it lies within the bounds, and raises a range check everywhere else, also
      -- where the code leaves the check out because it knows the value to be within; where the words
      -- of the base hold both bounds.
      pub same_representation-static :
          (lo hi : ApInt)
          → static_bounds l required ≡ some (bound_value lo, bound_value hi)
          → in_word (is_modular t sname) w (signed_of lo) ≡ true
          → in_word (is_modular t sname) w (signed_of hi) ≡ true
          → IsInput l t conversion x
          → Does
              (same_representation l t conversion)
              (passed (within (signed_of lo) (signed_of hi) x))
      unfolding constrained_rewrite
      same_representation-static lo hi bounds lo_fits hi_fits input =
          subst (λ r. Does r (passed (within (signed_of lo) (signed_of hi) x))) rewritten
            (elim (Bool-cases (known_within l t conversion (bound_value lo) (bound_value hi))) [
              | inl e ↦
                  rw
                    (
                      constrained_rewrite,
                      bounds,
                      e,
                      known_within_sound l lib t conversion x input (bound_value lo)
                          (bound_value hi) e,
                    )
                    (run_steps-requalified l lib m machine t low high (int_qual w sname)
                      (int_qual w tname) (int_qual w sname) n)
              | inr e ↦ rw (constrained_rewrite, bounds, e) (static_lem lo hi lo_fits hi_fits)
            ])

      -- A conversion to a subtype of the same base with a dynamic bound checks the value against the
      -- descriptor that the conversion carries.
      pub same_representation-dynamic :
          static_bounds l required ≡ none
          → has_range ≡ true
          → Does (same_representation l t conversion) (
              passed (
                within
                  (read_word (is_modular t sname) w low)
                  (read_word (is_modular t sname) w high)
                  x))
      unfolding constrained_rewrite
      same_representation-dynamic bounds given =
          subst
            (λ r. Does r (
              passed (
                within (read_word (is_modular t sname) w low)
                  (read_word (is_modular t sname) w high) x)))
            rewritten (rw (constrained_rewrite, bounds, given) dynamic_lem)
