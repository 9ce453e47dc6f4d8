-- ===== src/Conversions/Change.antt =====
-- A conversion between integer types of different bases (mlir/LowerAdaConversions.cpp,
-- RepresentationChangeConversion).
use Prim.Native.String.{String}
use text.Mathlib.Text.{◌==◌ as str_eq}
use mathlib.Core.Path.{subst}
use lalvm.Base.{
  ℕ, ◌^◌, ◌<◌, ◌≡◌, refl, sym, ap, ap₂, ◌∙◌, Bool, true, false, not, ◌&&◌, ◌||◌, Option, some, inl,
  inr, List, [], ◌∷◌, arith, if◌then◌else◌, ◌||◌, arith, Bool-cases, ltb,
}
use lalvm.Base.Int.{ℤ}
use lalvm.Base.Words.{encode}
use lalvm.Llvm.{ApInt, ApsInt, ApIntLib, IsApIntLib, Machine, IsMachine, read_word, signed_of}
use lalvm.Dialect.Types.{int, QualType, static_bounds, bound_value, machine_eq, IntegerTypeInfo}
use lalvm.Dialect.Table.{TypeTable}
use lalvm.Ada.{◌>>=◌}
use lalvm.LowerToLlvm.Emit.{Outcome, returns, raises, range_check}
use lalvm.LowerToLlvm.BinOp.{is_modular}
use lalvm.LowerToLlvm.Checks.{check_outcome, range_check_op}
use lalvm.Conversions.{
  ConvertOp, Step, static_check, Required, bounded, changed, known_within, clamp_to,
  change_representation, requalified, required_bounds, is_preserving, checks_before, checks_after,
  representation_change,
}
use lalvm.Conversions.Steps.{run_steps}
use lalvm.Conversions.Ranges.{
  in_word, within, read_word-encode, in_word-read_word, in_word-wider, sext_or_trunc-same,
  clamp_to_lem,
}
use lalvm.Conversions.Meaning.{
  Converts, int_qual, IsInput, known_within_sound, range_check_run_lem, run_steps-requalified,
  descriptor_word_lem, change_representation_lem,
}

preserved :
    (from to wider : Bool)
    → (wider && (from || not to)) ≡ true
    → (if from then true else not to) ≡ true
preserved from to wider k = ground arith

module _ (l : ApIntLib) (lib : IsApIntLib l) (m : Machine) (machine : IsMachine m) (t : TypeTable)
    (low high : ℕ) where
  module _ (sw tw : ℕ) (swide : 0 < sw) (twide : 0 < tw) (sname tname sbase tbase : String)
      (known : Option ApsInt) (has_range : Bool) (n : ℕ) (hn : n < 2 ^ sw) (lo hi : ApInt)
      (lo_fits : in_word (is_modular t tbase) tw (signed_of lo) ≡ true)
      (hi_fits : in_word (is_modular t tbase) tw (signed_of hi) ≡ true) where
    abbrev conversion : ConvertOp
    conversion = record {
      source = int_qual sw sname;
      target = int_qual tw tname;
      known_value = known;
      has_range = has_range;
    }

    abbrev x : ℤ
    x = read_word (is_modular t sname) sw n

    abbrev converted : Bool → Outcome
    converted inside = if inside then returns (encode tw x) else raises range_check

    abbrev steps_after : QualType → List Step → Outcome
    steps_after q rest =
        run_steps l m t low high
          (change_representation (int_qual sw sname) (int_qual tw tbase) (is_modular t sname)
            ∷ rest)
          q n

    change_lem :
        (q : QualType) (rest : List Step)
        → steps_after q rest ≡ run_steps l m t low high rest (int_qual tw tbase) (encode tw x)
    change_lem q rest =
        change_representation_lem l lib m machine t low high (is_modular t sname) sw tw sname tbase
          rest q n swide hn

    -- A check in the source representation, and then the change.
    checked_first :
        run_steps l m t low high
          (static_check
              (clamp_to l (bound_value lo) (bound_value hi) sw (is_modular t sname)).0
              (clamp_to l (bound_value lo) (bound_value hi) sw (is_modular t sname)).1
              (int_qual sw sbase)
            ∷ change_representation (int_qual sw sname) (int_qual tw tbase) (is_modular t sname)
            ∷ requalified (int_qual tw tbase) (int_qual tw tname))
          (int_qual sw sname)
          n
        ≡ converted (within (signed_of lo) (signed_of hi) x)
    unfolding run_steps
    checked_first =
        let (low_word, high_word, same) =
          clamp_to_lem l lib sw swide (is_modular t sname) (bound_value lo) (bound_value hi) x
            (in_word-read_word sw swide (is_modular t sname) n hn) in
        ap (λ o. o >>= continue)
          (range_check_run_lem l lib m machine t low high sw sname _ _ n
            ∙ ap (λ p. check_outcome p range_check_op n)
                (ap₂ (λ a b. within (reading a) (reading b) x)
                    (sext_or_trunc-same l lib sw swide _ low_word)
                    (sext_or_trunc-same l lib sw swide _ high_word)
                  ∙ same))
        ∙ finish (within (signed_of lo) (signed_of hi) x)
      where
        reading : ℕ → ℤ
        reading k = read_word (is_modular t sname) sw k

        continue : ℕ → Outcome
        continue passed =
            run_steps l m t low high
              (change_representation (int_qual sw sname) (int_qual tw tbase) (is_modular t sname)
                ∷ requalified (int_qual tw tbase) (int_qual tw tname))
              (int_qual sw sbase) passed

        finish :
            (inside : Bool)
            → (check_outcome inside range_check_op n >>= continue) ≡ converted inside
        finish true =
            change_lem (int_qual sw sbase) (requalified (int_qual tw tbase) (int_qual tw tname))
            ∙ run_steps-requalified l lib m machine t low high (int_qual tw tbase)
                (int_qual tw tname) (int_qual tw tbase) (encode tw x)
        finish false = refl

    -- A widening, and then a check in the target's.
    checked_last :
        is_preserving t conversion tbase ≡ true
        → steps_after (int_qual sw sname) (static_check lo hi (int_qual tw tname) ∷ [])
          ≡ converted (within (signed_of lo) (signed_of hi) x)
    unfolding is_preserving run_steps
    checked_last h =
        change_lem (int_qual sw sname) (static_check lo hi (int_qual tw tname) ∷ [])
        ∙ ap (λ o. o >>= returns)
            (range_check_run_lem l lib m machine t low high tw tbase _ _ (encode tw x)
              ∙ ap (λ p. check_outcome p range_check_op (encode tw x))
                  (ap₂ (λ a b. within a b (read_word (is_modular t tbase) tw (encode tw x)))
                      (descriptor_word_lem l lib m machine t low high (is_modular t tbase) tw tbase
                        lo twide lo_fits)
                      (descriptor_word_lem l lib m machine t low high (is_modular t tbase) tw tbase
                        hi twide hi_fits)
                    ∙ ap (within (signed_of lo) (signed_of hi)) kept))
        ∙ finish (within (signed_of lo) (signed_of hi) x)
      where
        kept : read_word (is_modular t tbase) tw (encode tw x) ≡ x
        kept = read_word-encode tw twide (is_modular t tbase) x (
            in_word-wider (is_modular t sname) (is_modular t tbase) sw tw x swide (ground arith)
              (preserved (is_modular t sname) (is_modular t tbase) (ltb sw tw) h)
              (in_word-read_word sw swide (is_modular t sname) n hn))

        finish :
            (inside : Bool)
            → (check_outcome inside range_check_op (encode tw x) >>= returns) ≡ converted inside
        finish true = refl
        finish false = refl

    module _ (hs : t.base_of sname ≡ some sbase) (ht : t.base_of tname ≡ some tbase)
        (differ : (machine_eq (int sw) (int tw) && str_eq sbase tbase) ≡ false)
        (info : IntegerTypeInfo) (has_info : t.int_info_of tname ≡ some info)
        (bounds : static_bounds l info ≡ some (bound_value lo, bound_value hi)) where
      abbrev required : Required
      required = bounded (some (bound_value lo, bound_value hi)) false

      required_lem : required_bounds l t conversion tbase ≡ required
      unfolding required_bounds
      required_lem = rw (required_bounds, has_info, bounds) refl

      rewritten : changed l t conversion sbase tbase required ≡ representation_change l t conversion
      unfolding representation_change machine_eq
      rewritten = rw (hs, ht, differ) (ap (changed l t conversion sbase tbase) (sym required_lem))

      cases :
          IsInput l t conversion x
          → Converts l m t low high
              (int_qual sw sname)
              n
              (changed l t conversion sbase tbase required)
              (converted (within (signed_of lo) (signed_of hi) x))
      unfolding checks_before checks_after
      cases input =
          elim (Bool-cases (known_within l t conversion (bound_value lo) (bound_value hi))) [
            | inl e ↦
                rw
                  (
                    e,
                    known_within_sound l lib t conversion x input (bound_value lo) (bound_value hi)
                        e,
                  )
                  (change_lem (int_qual sw sname)
                      (requalified (int_qual tw tbase) (int_qual tw tname))
                    ∙ run_steps-requalified l lib m machine t low high (int_qual tw tbase)
                        (int_qual tw tname) (int_qual tw tbase) (encode tw x))
            | inr e ↦ elim (Bool-cases (is_preserving t conversion tbase)) [
              | inl f ↦ rw (e, f) (checked_last f)
              | inr f ↦ rw (e, f) checked_first
            ]
          ]

      -- A conversion between integer types of different bases, whose target has static bounds that
      -- its representation holds, is replaced by operations that give the same integer in the
      -- target's representation where it lies within the bounds, and raise a range check everywhere
      -- else: also where the code leaves the check out because it knows the value to be within, and
      -- where it checks restricted bounds in the source's representation.
      pub representation_change-exact :
          IsInput l t conversion x
          → Converts l m t low high
              (int_qual sw sname)
              n
              (representation_change l t conversion)
              (converted (within (signed_of lo) (signed_of hi) x))
      representation_change-exact input =
          subst
            (λ r.
              Converts l m t low high (int_qual sw sname) n r
                (converted (within (signed_of lo) (signed_of hi) x)))
            rewritten (cases input)
