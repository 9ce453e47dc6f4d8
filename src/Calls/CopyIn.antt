-- ===== src/Calls/CopyIn.antt =====
-- The arguments of a call and the arguments that the body sees (mlir/LowerAdaCalls.cpp, lowerCaller
-- and lowerCallee): every formal gets its actual or its snapshot.
use mathlib.Core.Path.{subst}
use lalvm.Base.{
  ℕ, suc, ◌≡◌, refl, ap, ◌∙◌, true, false, Option, none, some, inl, inr, List, [], ◌∷◌, ◌++◌, map,
  ◌⊎◌, arith,
}
use lalvm.Base.Lists.{length, get_elem?, drop, length-append, append-cons, get_elem?-append}
use lalvm.Dialect.Subprograms.{ParamMode, in_mode, in_out_mode, out_mode, is_writable}
use lalvm.Calls.{Formal}
use lalvm.Calls.Caller.{call_inputs, cons_some}
use lalvm.Calls.Callee.{
  Binding, passed, object, formal_bindings, formal_binding, input_count, cons_both, append_captures,
  writable_binding,
}

pub writable-cases : (m : ParamMode) → is_writable m ≡ true → (m ≡ in_out_mode) ⊎ (m ≡ out_mode)
writable-cases in_mode h = cc
writable-cases in_out_mode h = inl refl
writable-cases out_mode h = inr refl

pub in_mode_unique : (m : ParamMode) → is_writable m ≡ false → m ≡ in_mode
in_mode_unique in_mode h = refl
in_mode_unique in_out_mode h = cc
in_mode_unique out_mode h = cc

module _ {ℓ} {A : Type ℓ} where
  -- The call passes operands to which the arguments of the body are bound as expected.
  abbrev pub Copied : ℕ → List Formal → List A → List A → List (Binding A) → Type ℓ
  Copied next fs actuals snapshots expected =
      (inputs : List A) × (call_inputs fs actuals snapshots ≡ some inputs)
      × ((before : List A)
          → length before ≡ next
          → append_captures (formal_bindings (before ++ inputs) fs) (drop (input_count fs) inputs)
            ≡ some expected)

  add_binding :
      (b : Binding A) (bs : Option (List (Binding A))) (captures : List A)
      (expected : List (Binding A))
      → append_captures bs captures ≡ some expected
      → append_captures (cons_both (some b) bs) captures ≡ some (b ∷ expected)
  add_binding b none captures expected h = cc
  add_binding b (some bs) captures expected h =
      ap (λ o. elim o [ some e ↦ some (b ∷ e) | none ↦ none ]) h

  at_length :
      (before : List A) (x : A) (rest : List A) (n : ℕ)
      → length before ≡ n
      → get_elem? (before ++ (x ∷ rest)) n ≡ some x
  at_length before x rest n h =
      subst (λ k. get_elem? (before ++ (x ∷ rest)) k ≡ some x) h (get_elem?-append before x rest)

  longer :
      (before : List A) (x : A) (n : ℕ) → length before ≡ n → length (before ++ (x ∷ [])) ≡ suc n
  unfolding length
  longer before x n h = let e = length-append before (x ∷ []) in omega arith

  pub Copied-captures :
      (next : ℕ) (actuals snapshots : List A)
      → Copied next [] actuals snapshots (map passed actuals)
  unfolding call_inputs formal_bindings input_count drop
  Copied-captures next actuals snapshots = (actuals, refl, λ before h. refl)

  formal_binding-writable :
      (inputs : List A) (f : Formal)
      → is_writable f.mode ≡ true
      → formal_binding inputs f ≡ writable_binding inputs f.input
  unfolding formal_binding
  formal_binding-writable inputs f w = elim (writable-cases f.mode w) [
    | inl e ↦ rw e refl
    | inr e ↦ rw e refl
  ]

  call_inputs-writable :
      (f : Formal) (fs : List Formal) (v : A) (vs : List A) (x : A) (snapshots : List A) (next : ℕ)
      → is_writable f.mode ≡ true
      → f.input ≡ some next
      → call_inputs (f ∷ fs) (v ∷ vs) (x ∷ snapshots) ≡ cons_some x (call_inputs fs vs snapshots)
  unfolding call_inputs
  call_inputs-writable f fs v vs x snapshots next w i = elim (writable-cases f.mode w) [
    | inl e ↦ rw (i, e) refl
    | inr e ↦ rw (i, e) refl
  ]

  module _ (next : ℕ) (f : Formal) (fs : List Formal) (v : A) (vs snapshots : List A)
      (expected : List (Binding A)) where
    pub Copied-value :
        f.mode ≡ in_mode
        → f.input ≡ some next
        → Copied (suc next) fs vs snapshots expected
        → Copied next (f ∷ fs) (v ∷ vs) snapshots (passed v ∷ expected)
    unfolding call_inputs formal_bindings formal_binding input_count drop
    Copied-value m i (inputs, called, bound) = (
      v ∷ inputs,
      rw (i, m, called) refl,
      λ before h.
          rw (m, i, at_length before v inputs next h)
            (add_binding (passed v) _ _ expected (
              subst
                (λ l.
                  append_captures (formal_bindings l fs) (drop (input_count fs) inputs)
                  ≡ some expected)
                (append-cons before v inputs)
                (bound (before ++ (v ∷ [])) (longer before v next h)))),
    )

    pub Copied-object :
        (x : A)
        → is_writable f.mode ≡ true
        → f.input ≡ some next
        → Copied (suc next) fs vs snapshots expected
        → Copied next (f ∷ fs) (v ∷ vs) (x ∷ snapshots) (object (some x) ∷ expected)
    unfolding formal_bindings input_count drop
    Copied-object x w i (inputs, called, bound) = (
      x ∷ inputs,
      call_inputs-writable f fs v vs x snapshots next w i ∙ ap (cons_some x) called,
      λ before h.
          rw
            (
              formal_binding-writable (before ++ (x ∷ inputs)) f w,
              i,
              at_length before x inputs next h,
            )
            (add_binding (object (some x)) _ _ expected (
              subst
                (λ l.
                  append_captures (formal_bindings l fs) (drop (input_count fs) inputs)
                  ≡ some expected)
                (append-cons before x inputs)
                (bound (before ++ (x ∷ [])) (longer before x next h)))),
    )

    pub Copied-no_value :
        is_writable f.mode ≡ true
        → f.input ≡ none
        → Copied next fs vs snapshots expected
        → Copied next (f ∷ fs) (v ∷ vs) snapshots (object none ∷ expected)
    unfolding call_inputs formal_bindings input_count drop
    Copied-no_value w i (inputs, called, bound) = (
      inputs,
      rw i called,
      λ before h.
          rw (formal_binding-writable (before ++ inputs) f w, i)
            (add_binding (object none) _ _ expected (bound before h)),
    )
