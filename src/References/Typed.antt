-- ===== src/References/Typed.antt =====
-- What objects and their accesses lower to is well typed (mlir/LowerAdaReferences.cpp).
use Prim.Native.String.{String}
use mathlib.Core.Path.{subst}
use text.Mathlib.TextEquality.{eq_iff}
use lalvm.Base.{
  Bool, true, false, Option, none, some, List, [], ◌∷◌, ◌++◌, ◌≡◌, ◌⊎◌, refl, ap, ap₂, ◌∙◌, inl,
  inr, ◌&&◌, ◌||◌, if◌then◌else◌, Bool-cases, and_true, both_true,
}
use lalvm.Dialect.Types.{QualType, qual_eq, machine_eq}
use lalvm.Dialect.Table.{TypeTable}
use lalvm.Dialect.CallOps.{qual_base}
use lalvm.Dialect.Requalify.{
  requalify, verify_requalify, verify_same_representation, verify_same_base, agree,
}
use lalvm.Dialect.Equality.{machine_eq_sound, machine_eq_refl, qual_eq_sound, qual_eq_refl}
use lalvm.Dialect.Accesses.{
  ObjectOp, Access, object, read, write, shares_machine_type, verify_access, is_base, verify_object,
  verify_initial, verify_read, verify_write,
}
use lalvm.References.{
  MemOp, alloca, store, load, requalify_to, requalify_ops, slot_element, lower_object, lower_read,
  element_of, lower_write, lower_to, store_initial, lower_access,
}

-- The type of the value at hand after the operations; `none` where one of them does not verify: a
-- store takes a value of the element's type, and `ada.requalify` has its own verifier.
unfoldable pub type_after : TypeTable → Option QualType → List MemOp → Option (Option QualType)
type_after t v [] = some v
type_after t v (alloca e ∷ ops) = type_after t v ops
type_after t v (load e ∷ ops) = type_after t (some e) ops
type_after t (some q) (store e ∷ ops) =
    let rest = type_after t (some q) ops in if qual_eq q e then rest else none
type_after t none (store e ∷ ops) = none
type_after t (some p) (requalify_to q ∷ ops) =
    let rest = type_after t (some q) ops in if verify_requalify t p q then rest else none
type_after t none (requalify_to q ∷ ops) = none

-- A base that resolves is itself a base: base links go straight to the root.
abbrev pub IsRooted : TypeTable → Type 0
IsRooted t = (s b : String) → t.base_of s ≡ some b → (t.base_of b ≡ some b) ⊎ (t.base_of b ≡ none)

-- The type that the operations have at hand at first and in the end: an object its initializer,
-- requalified to the element's type, a read its result, and a write its value, requalified too.
abbrev pub operand_type : Access → Option QualType
operand_type (object o) = o.initial
operand_type (read q result) = none
operand_type (write q value) = some value

abbrev pub stored_type : Option QualType → QualType → Option QualType
stored_type (some i) e = some e
stored_type none e = none

abbrev pub type_left : Access → QualType → Option QualType
type_left (object o) e = stored_type o.initial e
type_left (read q result) e = some result
type_left (write q value) e = some e

agree_refl : (x : Option String) → agree x x ≡ true
agree_refl none = refl
agree_refl (some a) = (eq_iff a a).1 refl

drop_and : (a b c : Bool) → (a || (b && c)) ≡ true → (a || b) ≡ true
drop_and true b c h = refl
drop_and false b c h = (and_true b c h).0

module _ (t : TypeTable) where
  verify_requalify_refl : (q : QualType) → verify_requalify t q q ≡ true
  unfolding verify_requalify verify_same_representation verify_same_base
  verify_requalify_refl q =
      both_true _ _ (machine_eq_refl q.mlir_type) (agree_refl (t.base_of q.ada_type))

  type_after-requalify :
      (p q : QualType) (ops : List MemOp)
      → verify_requalify t p q ≡ true
      → type_after t (some p) (requalify_ops p q ++ ops) ≡ type_after t (some q) ops
  unfolding type_after requalify
  type_after-requalify p q ops h = elim (Bool-cases (qual_eq p q)) [
    | inl e ↦ rw e (ap (λ r. type_after t (some r) ops) (qual_eq_sound p q e))
    | inr e ↦ rw (e, h) refl
  ]

  type_after-requalify_last :
      (p q : QualType)
      → verify_requalify t p q ≡ true
      → type_after t (some p) (requalify_ops p q) ≡ some (some q)
  unfolding type_after requalify
  type_after-requalify_last p q h = elim (Bool-cases (qual_eq p q)) [
    | inl e ↦ rw e (ap (λ (r : QualType). some (some r)) (qual_eq_sound p q e))
    | inr e ↦ rw (e, h) refl
  ]

  type_after-store : (e : QualType) → type_after t (some e) (store e ∷ []) ≡ some (some e)
  unfolding type_after
  type_after-store e = rw (qual_eq_refl e) refl

  module _ (rooted : IsRooted t) (q : QualType) (b : String)
      (based : t.base_of q.ada_type ≡ some b) where
    abbrev element : QualType
    element = record { mlir_type = q.mlir_type; ada_type = b }

    bases_agree :
        (agree (t.base_of q.ada_type) (t.base_of b) ≡ true)
        × (agree (t.base_of b) (t.base_of q.ada_type) ≡ true)
    bases_agree = elim (rooted q.ada_type b based) [
      | inl e ↦ rw (based, e) (agree_refl (some b), agree_refl (some b))
      | inr e ↦ rw (based, e) (refl, refl)
    ]

    to_element : verify_requalify t q element ≡ true
    unfolding verify_requalify verify_same_representation verify_same_base
    to_element = both_true _ _ (machine_eq_refl q.mlir_type) (bases_agree.0)

    from_element : verify_requalify t element q ≡ true
    unfolding verify_requalify verify_same_representation verify_same_base
    from_element = both_true _ _ (machine_eq_refl q.mlir_type) (bases_agree.1)

    nominal_or_base :
        (i : QualType)
        → machine_eq i.mlir_type q.mlir_type ≡ true
        → (qual_eq i q || is_base (qual_base t q) i) ≡ true
        → (i ≡ q) ⊎ (i ≡ element)
    unfolding qual_base
    nominal_or_base i machine h = elim (Bool-cases (qual_eq i q)) [
      | inl e ↦ inl (qual_eq_sound i q e)
      | inr e ↦
          let k = rw (e, qual_base, based) at h in
          inr (
            ap₂ (λ m s. record { mlir_type = m; ada_type = s })
              (machine_eq_sound i.mlir_type q.mlir_type machine) ((eq_iff i.ada_type b).0 k))
    ]

    verify_nominal : (i : QualType) → (i ≡ q) ⊎ (i ≡ element) → verify_requalify t i element ≡ true
    verify_nominal i (inl e) = rw e to_element
    verify_nominal i (inr e) = rw e (verify_requalify_refl element)

    verify_result : (i : QualType) → (i ≡ q) ⊎ (i ≡ element) → verify_requalify t element i ≡ true
    verify_result i (inl e) = rw e from_element
    verify_result i (inr e) = rw e (verify_requalify_refl element)

    stored :
        (i : QualType)
        → verify_requalify t i element ≡ true
        → type_after t (some i) (requalify_ops i element ++ (store element ∷ []))
          ≡ some (some element)
    stored i h = type_after-requalify i element (store element ∷ []) h ∙ type_after-store element

    typed_initial :
        (o : Option QualType)
        → shares_machine_type q o ≡ true
        → verify_initial t q o ≡ true
        → type_after t o (store_initial o element) ≡ some (stored_type o element)
    unfolding verify_initial type_after
    typed_initial none m h = refl
    typed_initial (some i) m h =
        stored i (verify_nominal i (nominal_or_base i m (drop_and (qual_eq i q) _ _ h)))

    typed_read :
        (i : QualType)
        → verify_read t q i ≡ true
        → type_after t none (lower_read i element) ≡ some (some i)
    unfolding verify_read lower_read type_after
    typed_read i h =
        let (m, k) = and_true (machine_eq i.mlir_type q.mlir_type) _ h in
        type_after-requalify_last element i (verify_result i (nominal_or_base i m k))

    typed_write :
        (v : QualType)
        → verify_write q v ≡ true
        → type_after t (some v) (lower_write v element) ≡ some (some element)
    unfolding verify_write lower_write
    typed_write v h = stored v (verify_nominal v (inl (qual_eq_sound v q h)))

    typed_object :
        (o : ObjectOp)
        → o.value_type ≡ q
        → verify_object t o ≡ true
        → type_after t o.initial (lower_object o element) ≡ some (stored_type o.initial element)
    unfolding verify_object lower_object type_after
    typed_object o e h =
        let (front, initial) =
          and_true (o.in_subprogram && shares_machine_type o.value_type o.initial) _ h in
        let (inside, machine) = and_true o.in_subprogram _ front in
        typed_initial o.initial (subst (λ x. shares_machine_type x o.initial ≡ true) e machine)
          (subst (λ x. verify_initial t x o.initial ≡ true) e initial)

    typed_access :
        (a : Access)
        → element_of a ≡ q
        → verify_access t a ≡ true
        → type_after t (operand_type a) (lower_to a element) ≡ some (type_left a element)
    unfolding verify_access
    typed_access (object o) e h = typed_object o e h
    typed_access (read p i) e h = typed_read i (subst (λ x. verify_read t x i ≡ true) e h)
    typed_access (write p v) e h = typed_write v (subst (λ x. verify_write x v ≡ true) e h)

  -- An object, read or write that verifies lowers where the base of the object's type resolves, to
  -- operations that verify one after the other: each store takes a value of the element's type,
  -- each requalification keeps the machine type and the base, and what is left is a value of the
  -- element's type for an object with an initializer and for a write, and one of the result's type
  -- for a read. Base links go straight to the root.
  pub lower_access-typed :
      (a : Access) (b : String)
      → IsRooted t
      → t.base_of (element_of a).ada_type ≡ some b
      → verify_access t a ≡ true
      → (e : QualType) × (ops : List MemOp) × (slot_element t (element_of a) ≡ some e)
        × (lower_access t a ≡ some ops)
        × (type_after t (operand_type a) ops ≡ some (type_left a e))
  unfolding lower_access slot_element qual_base
  lower_access-typed a b rooted based h = (
    element rooted (element_of a) b based,
    lower_to a (element rooted (element_of a) b based),
    rw (slot_element, qual_base, based) refl,
    rw (lower_access, slot_element, qual_base, based) refl,
    typed_access rooted (element_of a) b based a refl h,
  )
