-- ===== src/Calls/Arguments.antt =====
-- The arguments of a verified call (mlir/LowerAdaCalls.cpp with the verifiers of mlir/Dialect.cpp):
-- each formal is bound to what the indices of the call map to it.
use mathlib.Core.Path.{subst}
use lalvm.Base.{
  ℕ, zero, suc, ◌≡◌, refl, sym, ap, ◌∙◌, Bool, true, false, Option, none, some, inl, inr, List, [],
  ◌∷◌, Bool-cases, and_true, bool_eq_lem, ltb,
}
use lalvm.Base.Lists.{length}
use lalvm.Dialect.Types.{TypeOp, QualType}
use lalvm.Dialect.Table.{TypeTable}
use lalvm.Dialect.Subprograms.{
  ParamMode, in_mode, is_writable, IrType, qual_type, plain_type, range_type, ref_type, Argument,
  SubpOp, formal_mode, formal_needs_input, AttrDict, num_source_formals,
}
use lalvm.Dialect.CallOps.{
  Value, CallOp, Pending, has_initial, advance, verify_reference, verify_writable, verify_inputs,
  verify_value, verify_call, verify_symbol_uses, map_each_operand, index_list, pending,
}
use lalvm.Calls.{Formal, Signature, success, map_formals, map_signature, add_formal}
use lalvm.Calls.Mapping.{
  map_formals-Added, after, map_formals-captures, map_formals-none, and_then-success, same_success,
}
use lalvm.Calls.Snapshots.{
  copied_in, Ascending, taken, kept, past, shorter, no_snapshot, with_snapshot, without_snapshot,
  first_binding, map_each_operand_lem,
}
use lalvm.Calls.Caller.{call_inputs}
use lalvm.Calls.Callee.{Binding, passed, object, bind_arguments}
use lalvm.Calls.CopyIn.{
  Copied, Copied-captures, Copied-value, Copied-object, Copied-no_value, in_mode_unique,
}

module _ (next : ℕ) (type : IrType) (base : Option QualType) (attrs : AttrDict) (s : Signature)
    (x : Value) (xs snapshots : List Value) (expected : List (Binding Value)) where
  value_step :
      (needed : Bool) (mode : ParamMode)
      → needed ≡ true
      → mode ≡ in_mode
      → Copied (after needed next) s.formals xs snapshots expected
      → Copied next
          (add_formal next needed mode type base attrs s).formals
          (x ∷ xs)
          snapshots
          (passed x ∷ expected)
  unfolding add_formal
  value_step false mode h m c = cc
  value_step true mode h m c = Copied-value next _ s.formals x xs snapshots expected m refl c

  object_step :
      (needed : Bool) (mode : ParamMode) (initial : Value)
      → needed ≡ true
      → is_writable mode ≡ true
      → Copied (after needed next) s.formals xs snapshots expected
      → Copied next
          (add_formal next needed mode type base attrs s).formals
          (x ∷ xs)
          (initial ∷ snapshots)
          (object (some initial) ∷ expected)
  unfolding add_formal
  object_step false mode initial h m c = cc
  object_step true mode initial h m c =
      Copied-object next _ s.formals x xs snapshots expected initial m refl c

  no_value_step :
      (needed : Bool) (mode : ParamMode)
      → needed ≡ false
      → is_writable mode ≡ true
      → Copied (after needed next) s.formals xs snapshots expected
      → Copied next
          (add_formal next needed mode type base attrs s).formals
          (x ∷ xs)
          snapshots
          (object none ∷ expected)
  unfolding add_formal
  no_value_step true mode h m c = cc
  no_value_step false mode h m c = Copied-no_value next _ s.formals x xs snapshots expected m refl c

retarget :
    (next : ℕ) (actuals : List Value) {fs gs : List Formal} {vs ws : List Value}
    {bs cs : List (Binding Value)}
    → fs ≡ gs
    → vs ≡ ws
    → bs ≡ cs
    → Copied next gs actuals ws cs
    → Copied next fs actuals vs bs
retarget next actuals {fs = fs} {gs = gs} {vs = vs} {ws = ws} {bs = bs} f v b c =
    subst (λ x. Copied next x actuals vs bs) (sym f)
      (subst (λ x. Copied next gs actuals x bs) (sym v)
        (subst (λ x. Copied next gs actuals ws x) (sym b) c))

module _ (table callee_table : TypeTable) (defaults dynamic : TypeOp → Bool) where
  -- What the verifier asks of the snapshot of a writable argument.
  verify_reference-snapshot :
      (i : ℕ) (needed : Bool) (mode : ParamMode) (formal actual : IrType) (p : Pending)
      → verify_reference table callee_table defaults dynamic i needed mode formal actual p ≡ true
      → has_initial i p ≡ needed
  unfolding verify_reference
  verify_reference-snapshot i needed mode (ref_type f) (ref_type a) p h =
      let (h₁, _) = and_true _ _ h in
      let (h₂, _) = and_true _ _ h₁ in
      let (h₃, _) = and_true _ _ h₂ in
      let (_, same) = and_true _ _ h₃ in bool_eq_lem (has_initial i p) needed same
  verify_reference-snapshot i needed mode (ref_type f) (qual_type a) p h = cc
  verify_reference-snapshot i needed mode (ref_type f) (plain_type a) p h = cc
  verify_reference-snapshot i needed mode (ref_type f) (range_type a s) p h = cc
  verify_reference-snapshot i needed mode (qual_type f) a p h = cc
  verify_reference-snapshot i needed mode (plain_type f) a p h = cc
  verify_reference-snapshot i needed mode (range_type f s) a p h = cc

  verify_writable-snapshot :
      (i : ℕ) (a : Argument) (actual : IrType) (p : Pending)
      → verify_writable table callee_table defaults dynamic i a actual p ≡ true
      → has_initial i p ≡ formal_needs_input callee_table defaults a
  unfolding verify_writable
  verify_writable-snapshot i a actual p h =
      verify_reference-snapshot i _ (formal_mode a) a.type actual p h

  verify_inputs-value :
      (n i : ℕ) (a : Argument) (rest : List Argument) (v : Value) (vs : List Value) (p : Pending)
      → is_writable (formal_mode a) ≡ false
      → verify_inputs table callee_table defaults dynamic i (suc n) (a ∷ rest) (v ∷ vs) p ≡ true
      → (verify_value i a.type v.type p ≡ true)
        × (verify_inputs table callee_table defaults dynamic (suc i) n rest vs p ≡ true)
  unfolding verify_inputs
  verify_inputs-value n i a rest v vs p w h = and_true _ _ (rw (verify_inputs, w) at h)

  verify_inputs-writable :
      (n i : ℕ) (a : Argument) (rest : List Argument) (v : Value) (vs : List Value) (p : Pending)
      → is_writable (formal_mode a) ≡ true
      → verify_inputs table callee_table defaults dynamic i (suc n) (a ∷ rest) (v ∷ vs) p ≡ true
      → (verify_writable table callee_table defaults dynamic i a v.type p ≡ true)
        × (verify_inputs table callee_table defaults dynamic (suc i) n rest vs (advance i p) ≡ true)
  unfolding verify_inputs
  verify_inputs-writable n i a rest v vs p w h = and_true _ _ (rw (verify_inputs, w) at h)

  needs_value :
      (a : Argument) → formal_mode a ≡ in_mode → formal_needs_input callee_table defaults a ≡ true
  unfolding formal_needs_input
  needs_value a h = rw (formal_needs_input, h) refl

  pub copied :
      (n i next : ℕ) (arguments : List Argument) (actuals : List Value) (p : Pending)
      (s : Signature)
      → map_formals callee_table defaults n next arguments ≡ success s
      → verify_inputs table callee_table defaults dynamic i n arguments actuals p ≡ true
      → Ascending i p.initial_indices
      → length p.initial_indices ≡ length p.initial_values
      → Copied next s.formals actuals p.initial_values
          (copied_in i n arguments actuals p.initial_indices p.initial_values)
  unfolding copied_in verify_inputs advance
  copied zero i next arguments actuals p s m v asc len =
      rw (map_formals-captures callee_table defaults next arguments s m)
        (Copied-captures next actuals p.initial_values)
  copied (suc n) i next [] actuals p s m v asc len =
      rw (map_formals-none callee_table defaults n next s m)
        (Copied-captures next actuals p.initial_values)
  copied (suc n) i next (a ∷ rest) [] p s m v asc len = cc
  copied (suc n) i next (a ∷ rest) (x ∷ xs) p s m v asc len =
      let d = map_formals-Added callee_table defaults n next a rest s m in
      let mode = formal_mode a in
      let formals = ap (λ (r : Signature). r.formals) d.adds in
      elim (Bool-cases (is_writable mode)) [
        | inl w ↦
            let (writable, later) = verify_inputs-writable n i a rest x xs p w v in
            let snapshot = verify_writable-snapshot i a x.type p writable ∙ d.needs in
            elim (Bool-cases (has_initial i p)) [
              | inl h ↦
                  let (y, indices, values) = taken i p.initial_indices p.initial_values h len in
                  retarget next (x ∷ xs) formals values
                    (with_snapshot i n a rest x xs p y w indices values)
                    (object_step next d.type d.base a.attrs d.later x xs
                      (advance i p).initial_values _ d.needed mode y (sym snapshot ∙ h) w
                      (copied n (suc i) (after d.needed next) rest xs (advance i p) d.later d.maps
                        later (subst (Ascending i) indices asc).1
                        (shorter i p.initial_indices p.initial_values h len)))
              | inr h ↦
                  let indices = kept p.initial_indices (has_initial i p) h in
                  let values = kept p.initial_values (has_initial i p) h in
                  let above = past i p.initial_indices h asc in
                  retarget next (x ∷ xs) formals (sym values)
                    (without_snapshot i n a rest x xs p w above indices values)
                    (no_value_step next d.type d.base a.attrs d.later x xs
                      (advance i p).initial_values _ d.needed mode (sym snapshot ∙ h) w
                      (copied n (suc i) (after d.needed next) rest xs (advance i p) d.later d.maps
                        later (subst (Ascending (suc i)) (sym indices) above)
                        (ap length indices ∙ len ∙ ap length (sym values))))
            ]
        | inr w ↦
            let (value, later) = verify_inputs-value n i a rest x xs p w v in
            retarget next (x ∷ xs) formals refl (first_binding i n a rest x xs p false w) (
              value_step next d.type d.base a.attrs d.later x xs p.initial_values _ d.needed mode
                (sym d.needs ∙ needs_value a (in_mode_unique mode w)) (in_mode_unique mode w)
                (copied n (suc i) (after d.needed next) rest xs p d.later d.maps later
                  (past i p.initial_indices (no_snapshot i a.type x.type p value) asc) len))
      ]

  map_signature-formals :
      (subp : SubpOp) (s : Signature)
      → map_signature callee_table defaults subp ≡ success s
      → (r : Signature) × (map_formals callee_table defaults
            (num_source_formals subp.arguments)
            0
            subp.arguments
          ≡ success r)
        × (s.formals ≡ r.formals)
  unfolding map_signature
  map_signature-formals subp s h = elim (Bool-cases subp.in_module) [
    | inr e ↦ let wrong = rw (map_signature, e) at h in cc
    | inl e ↦ elim (Bool-cases (ltb 1 (length subp.results))) [
      | inl f ↦ let wrong = rw (map_signature, e, f) at h in cc
      | inr f ↦
          let (r, maps, same) = and_then-success _ _ s (rw (map_signature, e, f) at h) in
          (r, maps, ap (λ (x : Signature). x.formals) (sym (same_success same)))
    ]
  ]

  verified_snapshots :
      (op : CallOp)
      → verify_call op ≡ true
      → map_each_operand op.initial_formals (length op.initial_values) (length op.inputs) ≡ true
  unfolding verify_call
  verified_snapshots op h =
      let (h₁, _) = and_true _ _ h in
      let (h₂, _) = and_true _ _ h₁ in let (_, mapped) = and_true _ _ h₂ in mapped

  verified_inputs :
      (op : CallOp) (subp : SubpOp)
      → verify_symbol_uses table callee_table defaults dynamic op subp ≡ true
      → verify_inputs table callee_table defaults dynamic 0
          (num_source_formals subp.arguments)
          subp.arguments
          op.inputs
          (pending op)
        ≡ true
  unfolding verify_symbol_uses
  verified_inputs op subp h = let (_, inputs) = and_true _ _ h in inputs

  -- The call that replaces a verified call of a subprogram whose signature is mapped has all its
  -- operands, and binds every argument of the body to what the source call gives it: a value formal
  -- or a capture to the actual, a writable formal to an object that starts as the snapshot that the
  -- indices of the call map to that formal, or without a value where they map none.
  pub call_inputs-bind_arguments :
      (op : CallOp) (subp : SubpOp) (s : Signature)
      → verify_call op ≡ true
      → verify_symbol_uses table callee_table defaults dynamic op subp ≡ true
      → map_signature callee_table defaults subp ≡ success s
      → (inputs : List Value) × (call_inputs s.formals op.inputs op.initial_values ≡ some inputs)
        × (bind_arguments s.formals inputs
            ≡ some (
                copied_in 0
                  (num_source_formals subp.arguments)
                  subp.arguments
                  op.inputs
                  (index_list op.initial_formals)
                  op.initial_values))
  unfolding bind_arguments length
  call_inputs-bind_arguments op subp s v u m =
      let (r, maps, same) = map_signature-formals subp s m in
      let (ascends, len) = map_each_operand_lem op.initial_formals _ _ (verified_snapshots op v) in
      let (inputs, called, bound) = retarget 0 op.inputs same refl refl (
        copied (num_source_formals subp.arguments) 0 0 subp.arguments op.inputs (pending op) r maps
          (verified_inputs op subp u) ascends len) in
      (inputs, called, bound [] refl)
