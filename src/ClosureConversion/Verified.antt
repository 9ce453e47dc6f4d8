-- ===== src/ClosureConversion/Verified.antt =====
-- Subprograms after the conversion (mlir/ClosureConversion.cpp): verified, and at module level.
use Prim.Native.String.{String}
use mathlib.Core.Path.{subst}
use lalvm.Base.{
  ℕ, ◌≡◌, refl, sym, ap, ◌∙◌, Bool, true, false, ◌||◌, some, inl, inr, List, [], ◌∷◌, ◌++◌, map,
  ◌==◌, Bool-cases, and_true, both_true,
}
use lalvm.Base.Lists.{All, All-both, All-every}
use lalvm.Dialect.Subprograms.{
  Argument, is_capture, verify_arguments, verify_subp, no_references, get_attr,
}
use lalvm.Dialect.CallOps.{Value}
use lalvm.Dialect.CallOps.Order.{same_some}
use lalvm.ClosureConversion.{
  Subp, State, Isolation, contains, capture_argument, add_captures, hoist_subp, lift,
  convert_closures,
}
use lalvm.ClosureConversion.Lifted.{lift-keeps, lift-hoists, next_state-some}

-- A property of subprograms that every step keeps.
module _ {P : Subp → Type 0} (isolation : Isolation)
    (adds : (key : ℕ) (captures : List (Value × Value)) (s : Subp)
      → P s
      → P (add_captures key captures s))
    (hoists : (key : ℕ) (s : Subp) → P s → P (hoist_subp key s)) where
  convert_closures-keeps :
      (nested : List (ℕ × String)) (s t : State)
      → convert_closures isolation nested s ≡ some t
      → All P s.subps
      → All P t.subps
  unfolding convert_closures
  convert_closures-keeps [] s t h all_hold =
      subst (λ (x : State). All P x.subps) (same_some h) all_hold
  convert_closures-keeps ((key, name) ∷ rest) s t h all_hold =
      let (m, one, more) = next_state-some (lift key name (isolation s key) s) _ t h in
      convert_closures-keeps rest m t more
        (lift-keeps {P = P} key name (adds key) (hoists key) (isolation s key) s m one all_hold)

-- Captures may follow any arguments that the verifier accepts.
captures_verified :
    (seen : Bool) (captures : List (Value × Value))
    → verify_arguments seen (map capture_argument captures) ≡ true
unfolding verify_arguments get_attr
captures_verified seen [] = refl
captures_verified true (c ∷ cs) = captures_verified true cs
captures_verified false (c ∷ cs) = captures_verified true cs

verify_arguments-captures :
    (seen : Bool) (arguments : List Argument) (captures : List (Value × Value))
    → verify_arguments seen arguments ≡ true
    → verify_arguments seen (arguments ++ map capture_argument captures) ≡ true
unfolding verify_arguments
verify_arguments-captures seen [] captures h = captures_verified seen captures
verify_arguments-captures seen (a ∷ rest) captures h =
    let (one, later) = and_true _ _ h in
    both_true _ _ one (verify_arguments-captures (seen || is_capture a) rest captures later)

abbrev IsVerified : Subp → Type 0
IsVerified s = verify_subp s.op ≡ true

IsVerified-add :
    (key : ℕ) (captures : List (Value × Value)) (s : Subp)
    → IsVerified s
    → IsVerified (add_captures key captures s)
unfolding add_captures verify_subp
IsVerified-add key captures s h = elim (Bool-cases (s.key == key)) [
  | inr e ↦ rw (add_captures, e) h
  | inl e ↦
      let (results, arguments) = and_true (no_references s.op.results) _ h in
      rw (add_captures, e)
        (both_true _ _ results (verify_arguments-captures false s.op.arguments captures arguments))
]

IsVerified-hoist : (key : ℕ) (s : Subp) → IsVerified s → IsVerified (hoist_subp key s)
unfolding hoist_subp verify_subp
IsVerified-hoist key s h = elim (Bool-cases (s.key == key)) [
  | inl e ↦ rw (hoist_subp, e) h
  | inr e ↦ rw (hoist_subp, e) h
]

abbrev IsHoisted : ℕ → Subp → Type 0
IsHoisted k s = (s.key == k) ≡ true → s.op.in_module ≡ true

IsHoisted-add :
    (k key : ℕ) (captures : List (Value × Value)) (s : Subp)
    → IsHoisted k s
    → IsHoisted k (add_captures key captures s)
unfolding add_captures
IsHoisted-add k key captures s h = elim (Bool-cases (s.key == key)) [
  | inl e ↦ rw (add_captures, e) h
  | inr e ↦ rw (add_captures, e) h
]

IsHoisted-hoist : (k key : ℕ) (s : Subp) → IsHoisted k s → IsHoisted k (hoist_subp key s)
unfolding hoist_subp
IsHoisted-hoist k key s h = elim (Bool-cases (s.key == key)) [
  | inl e ↦ rw (hoist_subp, e) (λ m. refl)
  | inr e ↦ rw (hoist_subp, e) h
]

abbrev key_of : ℕ × String → ℕ
key_of kn = kn.0

module_level :
    (isolation : Isolation) (nested : List (ℕ × String)) (s t : State)
    → convert_closures isolation nested s ≡ some t
    → All (λ (x : Subp). contains x.key (map key_of nested) ≡ true → x.op.in_module ≡ true) t.subps
unfolding convert_closures contains
module_level isolation [] s t h = All-every t.subps (λ x e. cc)
module_level isolation ((key, name) ∷ rest) s t h =
    let (m, one, more) = next_state-some (lift key name (isolation s key) s) _ t h in
    All-both t.subps
      (λ x here later e. elim (Bool-cases (x.key == key)) [
        | inl own ↦ here own
        | inr other ↦ later (sym (ap (λ b. b || contains x.key (map key_of rest)) other) ∙ e)
      ])
      (convert_closures-keeps {P = IsHoisted key} isolation (λ k. IsHoisted-add key k)
        (λ k. IsHoisted-hoist key k) rest m t more (lift-hoists key name (isolation s key) s m one))
      (module_level isolation rest m t more)

-- After a conversion that succeeds, every subprogram that the verifier accepted is still accepted,
-- with its captures after its source formals, and every nested subprogram is at module level.
pub convert_closures-verify_subp :
    (isolation : Isolation) (nested : List (ℕ × String)) (s t : State)
    → convert_closures isolation nested s ≡ some t
    → All (λ (x : Subp). verify_subp x.op ≡ true) s.subps
    → All
        (λ (x : Subp).
          (verify_subp x.op ≡ true)
          × (contains x.key (map key_of nested) ≡ true → x.op.in_module ≡ true))
        t.subps
convert_closures-verify_subp isolation nested s t h v =
    All-both t.subps (λ x ok level. (ok, level))
      (convert_closures-keeps {P = IsVerified} isolation IsVerified-add IsVerified-hoist nested s t
        h v)
      (module_level isolation nested s t h)
