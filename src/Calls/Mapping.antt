-- ===== src/Calls/Mapping.antt =====
-- The signature that a subprogram is mapped to (mlir/LowerAdaCalls.cpp, mapSignature).

use lalvm.Base.{
  ℕ, suc, ◌≡◌, refl, sym, ap, ◌∙◌, Bool, true, false, Option, inl, inr, List, [], ◌∷◌, ◌⊎◌,
  Bool-cases,
}
use lalvm.Dialect.Types.{QualType}
use lalvm.Dialect.Table.{TypeTable}
use lalvm.Dialect.Subprograms.{
  IrType, Argument, Defaults, formal_mode, formal_needs_input, get_attr,
}
use lalvm.Calls.{
  SignatureError, Result, failure, success, and_then, Signature, formal_type, add_formal,
  map_formals, map_captures, is_unit_capture,
}

pub Result-cases {ℓ} :
    {A : Type ℓ} (r : Result A)
    → ((e : SignatureError) × (r ≡ failure e)) ⊎ ((a : A) × (r ≡ success a))
Result-cases (failure e) = inl (e, refl)
Result-cases (success a) = inr (a, refl)

pub same_success {ℓ} : {A : Type ℓ} {x y : A} → Path (Result A) (success x) (success y) → x ≡ y
same_success {x = x} e = ap (λ r. elim r [ success z ↦ z | failure f ↦ x ]) e

pub and_then-success {ℓ κ} :
    {A : Type ℓ} {B : Type κ} (r : Result A) (f : A → Result B) (b : B)
    → and_then r f ≡ success b
    → (a : A) × (r ≡ success a) × (f a ≡ success b)
and_then-success (failure e) f b h = cc
and_then-success (success a) f b h = (a, refl, h)

-- The place of the next input.
abbrev pub after : Bool → ℕ → ℕ
after true next = suc next
after false next = next

module _ (t : TypeTable) (defaults : Defaults) where
  pub map_captures-formals :
      (arguments : List Argument) (s : Signature)
      → map_captures arguments ≡ success s
      → s.formals ≡ []
  unfolding map_captures
  map_captures-formals [] s h = ap (λ (r : Signature). r.formals) (sym (same_success h))
  map_captures-formals (a ∷ rest) s h =
      elim (Bool-cases (is_unit_capture (get_attr "ada.capture" a.attrs))) [
        | inl e ↦
            let (later, maps, adds) =
              and_then-success (map_captures rest) _ s (rw (map_captures, e) at h) in
            ap (λ (r : Signature). r.formals) (sym (same_success adds))
            ∙ map_captures-formals rest later maps
        | inr e ↦ let wrong = rw (map_captures, e) at h in cc
      ]

  pub map_formals-captures :
      (next : ℕ) (arguments : List Argument) (s : Signature)
      → map_formals t defaults 0 next arguments ≡ success s
      → s.formals ≡ []
  unfolding map_formals
  map_formals-captures next arguments s h = map_captures-formals arguments s h

  pub map_formals-none :
      (n next : ℕ) (s : Signature)
      → map_formals t defaults (suc n) next [] ≡ success s
      → s.formals ≡ []
  unfolding map_formals
  map_formals-none n next s h = map_captures-formals [] s h

  -- What is added for the first formal, before the signature of the rest.
  pub record Added (n next : ℕ) (a : Argument) (rest : List Argument) (s : Signature) : Type 0 where
    pub needed : Bool
    pub needs : formal_needs_input t defaults a ≡ needed
    pub type : IrType
    pub base : Option QualType
    pub typed : formal_type t a ≡ success (type, base)
    pub later : Signature
    pub maps : map_formals t defaults n (after needed next) rest ≡ success later
    pub adds : s ≡ add_formal next needed (formal_mode a) type base a.attrs later

  pub map_formals-Added :
      (n next : ℕ) (a : Argument) (rest : List Argument) (s : Signature)
      → map_formals t defaults (suc n) next (a ∷ rest) ≡ success s
      → Added n next a rest s
  unfolding map_formals
  map_formals-Added n next a rest s h =
      let ((type, base), typed, k) = and_then-success (formal_type t a) _ s h in
      elim (Bool-cases (formal_needs_input t defaults a)) [
        | inl e ↦
            let (later, maps, adds) = and_then-success _ _ s (rw e at k) in
            record {
              needed = true;
              needs = e;
              type = type;
              base = base;
              typed = typed;
              later = later;
              maps = maps;
              adds = sym (same_success adds);
            }
        | inr e ↦
            let (later, maps, adds) = and_then-success _ _ s (rw e at k) in
            record {
              needed = false;
              needs = e;
              type = type;
              base = base;
              typed = typed;
              later = later;
              maps = maps;
              adds = sym (same_success adds);
            }
      ]
