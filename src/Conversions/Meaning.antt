-- ===== src/Conversions/Meaning.antt =====
-- What a conversion is taken to do, and lemmas on the operations that replace it.
use Prim.Native.String.{String}
use native.Mathlib.Nat.{mod-eq_of_lt, pow-le-pow_right}
use lalvm.Base.{
  ℕ, ◌^◌, ◌<◌, ◌≡◌, refl, sym, ap, ap₂, ◌∙◌, Bool, true, false, ◌&&◌, none, some, inl, inr, List,
  ◌∷◌, arith, if◌then◌else◌, Bool-cases, Option-cases, ltb,
}
use lalvm.Base.Int.{ℤ}
use lalvm.Base.Words.{encode}
use lalvm.Llvm.{
  ApInt, ApsInt, ApIntLib, IsApIntLib, Machine, IsMachine, read_word, value, signed_of, extsi,
  extui,
}
use lalvm.Dialect.Types.{int, QualType, qual_eq}
use lalvm.Dialect.Bounds.{in_static_range_lem}
use lalvm.Dialect.Table.{TypeTable}
use lalvm.LowerToLlvm.Emit.{Outcome, returns}
use lalvm.LowerToLlvm.BinOp.{is_modular}
use lalvm.LowerToLlvm.Checks.{
  lower_in_range_check, lower_in_range_check-int, check_outcome, range_check_op,
}
use lalvm.Conversions.{
  ConvertOp, Step, Rewrite, replaced, match_failure, range_within, info_bounds, known_within,
  info_within, change_representation, requalified,
}
use lalvm.Conversions.Steps.{run_steps, range_check_run, descriptor_word}
use lalvm.Conversions.Ranges.{in_word, within, read_word-encode, encode-read_word, encode-narrower}

-- The outcome of the operations that replace a conversion.
abbrev pub Converts :
    ApIntLib → Machine → TypeTable → ℕ → ℕ → QualType → ℕ → Rewrite → Outcome → Type 0
Converts l m t low high q n (replaced steps) o = Path Outcome (run_steps l m t low high steps q n) o
Converts l m t low high q n match_failure o = ⊥

abbrev pub int_qual : ℕ → String → QualType
int_qual w name = record { mlir_type = int w; ada_type = name }

-- What the input is known to be: the constant that defines it, and the static range of its type.
pub record IsInput (l : ApIntLib) (t : TypeTable) (op : ConvertOp) (x : ℤ) : Type 0 where
  pub constant : (v : ApsInt) → op.known_value ≡ some v → value v ≡ x
  pub in_type :
      (a b : ApsInt)
      → info_bounds l (t.int_info_of op.source.ada_type) ≡ some (a, b)
      → within (value a) (value b) x ≡ true

pub within_trans :
    (lo hi a b x : ℤ)
    → (within lo hi a && within lo hi b) ≡ true
    → within a b x ≡ true
    → within lo hi x ≡ true
within_trans lo hi a b x h k = ground arith

module _ (l : ApIntLib) (lib : IsApIntLib l) (t : TypeTable) (op : ConvertOp) (x : ℤ)
    (input : IsInput l t op x) where
  info_within-none : (lo hi : ApsInt) → info_within l none lo hi ≡ false
  unfolding info_within
  info_within-none lo hi = refl

  info_within-some :
      (lo hi a b : ApsInt)
      → info_bounds l (t.int_info_of op.source.ada_type) ≡ some (a, b)
      → info_within l (some (a, b)) lo hi ≡ true
      → within (value lo) (value hi) x ≡ true
  unfolding info_within range_within
  info_within-some lo hi a b f h =
      within_trans (value lo) (value hi) (value a) (value b) x
        (ap₂ (λ p q. p && q) (sym (in_static_range_lem l lib a lo hi))
            (sym (in_static_range_lem l lib b lo hi))
          ∙ h)
        (input.in_type a b f)

  -- A value that the code takes to be within a range is.
  pub known_within_sound :
      (lo hi : ApsInt) → known_within l t op lo hi ≡ true → within (value lo) (value hi) x ≡ true
  unfolding known_within
  known_within_sound lo hi h = elim (Option-cases op.known_value) [
    | inr (v, e) ↦
        ap (within (value lo) (value hi)) (sym (input.constant v e))
        ∙ sym (in_static_range_lem l lib v lo hi)
        ∙ (rw e at h)
    | inl e ↦ elim (Option-cases (info_bounds l (t.int_info_of op.source.ada_type))) [
      | inl f ↦
          let no =
            sym (info_within-none lo hi) ∙ ap (λ k. info_within l k lo hi) (sym f) ∙ (rw e at h) in
          cc
      | inr ((a, b), f) ↦
          info_within-some lo hi a b f (ap (λ k. info_within l k lo hi) (sym f) ∙ (rw e at h))
    ]
  ]

module _ (l : ApIntLib) (lib : IsApIntLib l) (m : Machine) (machine : IsMachine m) (t : TypeTable)
    (low high : ℕ) where
  pub range_check_run_lem :
      (w : ℕ) (name : String) (a b n : ℕ)
      → range_check_run m t (int_qual w name) a b n
        ≡ check_outcome
            (within
              (read_word (is_modular t name) w a)
              (read_word (is_modular t name) w b)
              (read_word (is_modular t name) w n))
            range_check_op
            n
  unfolding lower_in_range_check
  range_check_run_lem w name a b n =
      lower_in_range_check-int m machine t range_check_op w n a b name

  pub run_steps-requalified :
      (from to q : QualType) (n : ℕ)
      → run_steps l m t low high (requalified from to) q n ≡ returns n
  unfolding run_steps
  run_steps-requalified from to q n = elim (Bool-cases (qual_eq from to)) [
    | inl e ↦ rw e refl
    | inr e ↦ rw e refl
  ]

  -- The descriptor of a static check holds the bound, where the word does.
  pub descriptor_word_lem :
      (uns : Bool) (w : ℕ) (name : String) (a : ApInt)
      → 0 < w
      → in_word uns w (signed_of a) ≡ true
      → read_word uns w (descriptor_word l (int_qual w name) a) ≡ signed_of a
  descriptor_word_lem uns w name a wide h =
      ap (λ (c : ApInt). read_word uns w c.bits) (lib.sext_or_trunc_lem a w)
      ∙ read_word-encode w wide uns (signed_of a) h

  extended :
      (su : Bool) (sw tw n : ℕ)
      → n < 2 ^ sw
      → sw < tw
      → m.cast (if su then extui else extsi) sw tw n ≡ encode tw (read_word su sw n)
  unfolding encode
  extended true sw tw n h lt =
      let le = pow-le-pow_right {n = 2} (omega arith) {i = sw} {j = tw} (omega arith) in
      machine.extui_lem sw tw n ∙ sym (mod-eq_of_lt (omega arith))
  extended false sw tw n h lt = machine.extsi_lem sw tw n

  -- The change of representation gives the pattern of the same integer.
  pub change_representation_lem :
      (su : Bool) (sw tw : ℕ) (sname tname : String) (rest : List Step) (q : QualType) (n : ℕ)
      → 0 < sw
      → n < 2 ^ sw
      → run_steps l m t low high
          (change_representation (int_qual sw sname) (int_qual tw tname) su ∷ rest)
          q
          n
        ≡ run_steps l m t low high rest (int_qual tw tname) (encode tw (read_word su sw n))
  unfolding run_steps change_representation
  change_representation_lem su sw tw sname tname rest q n wide h = elim (Bool-cases (ltb tw sw)) [
    | inl e ↦ rw e (
        ap (run_steps l m t low high rest (int_qual tw tname))
          (machine.trunci_lem sw tw n ∙ sym (encode-narrower su sw tw n wide (ground arith) h)))
    | inr e ↦ elim (Bool-cases (ltb sw tw)) [
      | inl f ↦
          rw (e, f)
            (ap (run_steps l m t low high rest (int_qual tw tname))
              (extended su sw tw n h (ground arith)))
      | inr f ↦
          let same : tw ≡ sw = ground arith in
          rw (e, f)
            (ap (run_steps l m t low high rest (int_qual tw tname))
              (sym (ap (λ v. encode v (read_word su sw n)) same ∙ encode-read_word sw wide su n h)))
    ]
  ]
