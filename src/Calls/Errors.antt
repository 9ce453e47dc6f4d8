-- ===== src/Calls/Errors.antt =====
-- Why the signature of a verified subprogram cannot be mapped (mlir/LowerAdaCalls.cpp, mapSignature,
-- after SubpOp::verify of mlir/Dialect.cpp).
use mathlib.Core.Path.{subst}
use lalvm.Base.{
  ℕ, suc, ◌≡◌, refl, sym, ap, Bool, true, false, not, ◌&&◌, Option, none, some, inl, inr, List, [],
  ◌∷◌, ◌⊎◌, Bool-cases, Option-cases, and_true, ltb,
}
use lalvm.Base.Lists.{length}
use lalvm.Dialect.Types.{is_numeric_machine_type}
use lalvm.Dialect.Table.{TypeTable}
use lalvm.Dialect.Subprograms.{
  IrType, qual_type, plain_type, ref_type, range_type, is_ref, ParamMode, is_writable, Argument,
  SubpOp, Defaults, Attr, mode_attr, unit_attr, other_attr, get_attr, is_capture,
  num_source_formals, formal_mode, formal_needs_input, verify_arguments, verify_argument,
  verify_subp,
}
use lalvm.Dialect.CallOps.{qual_base}
use lalvm.Calls.{
  SignatureError, not_module_level, too_many_results, in_needs_value, writable_needs_ref,
  unsupported_type, unresolved_type, capture_order, Result, failure, success, and_then, formal_type,
  writable_type, value_type, map_captures, add_capture, is_unit_capture, map_formals, map_signature,
  add_formal,
}
use lalvm.Calls.Mapping.{after}

-- The errors that a verified subprogram rules out.
abbrev pub is_malformed : SignatureError → Bool
is_malformed not_module_level = false
is_malformed too_many_results = false
is_malformed in_needs_value = true
is_malformed writable_needs_ref = false
is_malformed unsupported_type = false
is_malformed unresolved_type = false
is_malformed capture_order = true

abbrev WellFormed {ℓ} : {A : Type ℓ} → Result A → Type 0
WellFormed (failure e) = is_malformed e ≡ false
WellFormed (success a) = Unit

WellFormed-and_then {ℓ κ} :
    {A : Type ℓ} {B : Type κ} (r : Result A) (f : A → Result B)
    → WellFormed r
    → ((a : A) → WellFormed (f a))
    → WellFormed (and_then r f)
WellFormed-and_then (failure e) f h k = h
WellFormed-and_then (success a) f h k = k a

first_capture :
    (a : Argument) (rest : List Argument)
    → is_unit_capture (get_attr "ada.capture" a.attrs) ≡ true
    → map_captures (a ∷ rest) ≡ and_then (map_captures rest) (λ s. success (add_capture a s))
unfolding map_captures
first_capture a rest e = rw (map_captures, e) refl

module _ (t : TypeTable) (defaults : Defaults) where
  value_type-WellFormed : (type : IrType) → is_ref type ≡ false → WellFormed (value_type type)
  value_type-WellFormed (ref_type q) h = cc
  value_type-WellFormed (qual_type q) h = tt
  value_type-WellFormed (plain_type q) h = tt
  value_type-WellFormed (range_type q s) h = tt

  writable_type-WellFormed : (type : IrType) → WellFormed (writable_type t type)
  writable_type-WellFormed (qual_type q) = refl
  writable_type-WellFormed (plain_type q) = refl
  writable_type-WellFormed (range_type q s) = refl
  writable_type-WellFormed (ref_type q) = elim (Bool-cases (is_numeric_machine_type q.mlir_type)) [
    | inr e ↦ rw e refl
    | inl e ↦ elim (Option-cases (qual_base t q)) [
      | inl f ↦ rw (e, f) refl
      | inr (b, f) ↦ rw (e, f) tt
    ]
  ]

  value_arg : (r w : Bool) → not (r && not w) ≡ true → w ≡ false → r ≡ false
  value_arg true true h w = cc
  value_arg true false h w = cc
  value_arg false w h e = refl

  formal_type-writable :
      (a : Argument) → is_writable (formal_mode a) ≡ true → formal_type t a ≡ writable_type t a.type
  unfolding formal_type
  formal_type-writable a w = rw (formal_type, w) refl

  formal_type-value :
      (a : Argument) → is_writable (formal_mode a) ≡ false → formal_type t a ≡ value_type a.type
  unfolding formal_type
  formal_type-value a w = rw (formal_type, w) refl

  formal_type-WellFormed :
      (a : Argument)
      → not (is_ref a.type && not (is_writable (formal_mode a))) ≡ true
      → WellFormed (formal_type t a)
  formal_type-WellFormed a h = elim (Bool-cases (is_writable (formal_mode a))) [
    | inl w ↦ subst WellFormed (sym (formal_type-writable a w)) (writable_type-WellFormed a.type)
    | inr w ↦
        subst WellFormed (sym (formal_type-value a w))
          (value_type-WellFormed a.type (value_arg (is_ref a.type) _ h w))
  ]

  capture_arg :
      (seen : Bool) (type : IrType) (mode : ParamMode) (mode_of capture : Option Attr)
      → verify_argument seen type mode mode_of capture ≡ true
      → (is_unit_capture capture ≡ true)
        ⊎ ((capture ≡ none) × (seen ≡ false) × (not (is_ref type && not (is_writable mode)) ≡ true))
  capture_arg seen type mode mode_of (some unit_attr) h = inl refl
  capture_arg seen type mode mode_of (some (mode_attr m)) h = cc
  capture_arg seen type mode mode_of (some (other_attr k)) h = cc
  capture_arg true type mode mode_of none h = cc
  capture_arg false type mode mode_of none h = inr (refl, refl, h)

  unit_capture :
      (capture : Option Attr)
      → is_unit_capture capture ≡ true
      → (attr : Attr) × (capture ≡ some attr)
  unit_capture none h = cc
  unit_capture (some attr) h = (attr, refl)

  map_captures-WellFormed :
      (arguments : List Argument)
      → verify_arguments true arguments ≡ true
      → WellFormed (map_captures arguments)
  unfolding map_captures verify_arguments
  map_captures-WellFormed [] h = tt
  map_captures-WellFormed (a ∷ rest) h =
      let (h₁, later) = and_true _ _ h in
      let (_, one) = and_true _ _ h₁ in
      elim (capture_arg true a.type (formal_mode a) _ _ one) [
        | inl e ↦ subst WellFormed (sym (first_capture a rest e)) (
            WellFormed-and_then (map_captures rest) _ (map_captures-WellFormed rest later)
              (λ s. tt))
        | inr (absent, e, ok) ↦ cc
      ]

  captures_from :
      (a : Argument) (rest : List Argument) (next : ℕ)
      → is_unit_capture (get_attr "ada.capture" a.attrs) ≡ true
      → verify_arguments true rest ≡ true
      → WellFormed (map_formals t defaults 0 next (a ∷ rest))
  unfolding map_formals
  captures_from a rest next e later =
      subst WellFormed (sym (first_capture a rest e))
        (WellFormed-and_then (map_captures rest) _ (map_captures-WellFormed rest later) (λ s. tt))

  no_arguments : (next : ℕ) → WellFormed (map_formals t defaults 0 next [])
  unfolding map_formals map_captures
  no_arguments next = tt

  first_formal :
      (n next : ℕ) (a : Argument) (rest : List Argument) (needed : Bool)
      → formal_needs_input t defaults a ≡ needed
      → map_formals t defaults (suc n) next (a ∷ rest)
        ≡ and_then (formal_type t a) λ tb.
          and_then
            (map_formals t defaults n (after needed next) rest)
            λ s. success (add_formal next needed (formal_mode a) tb.0 tb.1 a.attrs s)
  unfolding map_formals
  first_formal n next a rest true e = rw (map_formals, e) refl
  first_formal n next a rest false e = rw (map_formals, e) refl

  sources-none :
      (a : Argument) (rest : List Argument)
      → is_capture a ≡ true
      → num_source_formals (a ∷ rest) ≡ 0
  unfolding num_source_formals
  sources-none a rest e = rw (num_source_formals, e) refl

  sources-one :
      (a : Argument) (rest : List Argument)
      → is_capture a ≡ false
      → num_source_formals (a ∷ rest) ≡ suc (num_source_formals rest)
  unfolding num_source_formals
  sources-one a rest e = rw (num_source_formals, e) refl

  map_formals-WellFormed :
      (next : ℕ) (arguments : List Argument)
      → verify_arguments false arguments ≡ true
      → WellFormed (map_formals t defaults (num_source_formals arguments) next arguments)
  unfolding verify_arguments num_source_formals
  map_formals-WellFormed next [] h = no_arguments next
  map_formals-WellFormed next (a ∷ rest) h =
      let (h₁, later) = and_true _ _ h in
      let (_, one) = and_true _ _ h₁ in
      elim (capture_arg false a.type (formal_mode a) _ _ one) [
        | inl e ↦
            let (attr, same) = unit_capture _ e in
            let capture : is_capture a ≡ true =
              ap (λ c. elim c [ some x ↦ true | none ↦ false ]) same in
            subst (λ n. WellFormed (map_formals t defaults n next (a ∷ rest)))
              (sym (sources-none a rest capture))
              (captures_from a rest next e
                (subst (λ b. verify_arguments b rest ≡ true) capture later))
        | inr (absent, _, ok) ↦
            let source : is_capture a ≡ false =
              ap (λ c. elim c [ some x ↦ true | none ↦ false ]) absent in
            subst (λ n. WellFormed (map_formals t defaults n next (a ∷ rest)))
              (sym (sources-one a rest source))
              (subst WellFormed (sym (first_formal (num_source_formals rest) next a rest _ refl)) (
                WellFormed-and_then (formal_type t a) _ (formal_type-WellFormed a ok) λ tb.
                  WellFormed-and_then _ _
                    (map_formals-WellFormed (after (formal_needs_input t defaults a) next) rest
                      (subst (λ b. verify_arguments b rest ≡ true) source later))
                    (λ s. tt)))
      ]

  -- A subprogram that the verifier accepts is never refused for the order of its captures or for a
  -- reference that is an in formal: where its signature is not mapped, it is not at module level,
  -- has several results, or has a writable formal whose type is not a reference, not numeric or not
  -- resolved.
  pub map_signature-verify_subp :
      (subp : SubpOp) (e : SignatureError)
      → verify_subp subp ≡ true
      → map_signature t defaults subp ≡ failure e
      → is_malformed e ≡ false
  unfolding map_signature verify_subp
  map_signature-verify_subp subp e v h =
      let (_, arguments) = and_true _ _ v in
      elim (Bool-cases subp.in_module) [
        | inr off ↦
            ap (λ r. elim r [ failure x ↦ is_malformed x | success s ↦ false ])
              (sym (rw (map_signature, off) at h))
        | inl on ↦ elim (Bool-cases (ltb 1 (length subp.results))) [
          | inl many ↦
              ap (λ r. elim r [ failure x ↦ is_malformed x | success s ↦ false ])
                (sym (rw (map_signature, on, many) at h))
          | inr few ↦ subst WellFormed (rw (map_signature, on, few) at h) (
              WellFormed-and_then _ _ (map_formals-WellFormed 0 subp.arguments arguments) (λ s. tt))
        ]
      ]
