-- ===== src/ClosureConversion/Lifted.antt =====
-- What the whole conversion keeps (mlir/ClosureConversion.cpp, runOnOperation), and where it fails.
use Prim.Native.String.{String}
use text.Mathlib.Text.{◌==◌ as str_eq}
use mathlib.Core.Path.{subst}
use lalvm.Base.{
  ℕ, ◌≡◌, refl, sym, ◌∙◌, true, Option, none, some, inl, inr, List, [], ◌∷◌, map, ◌==◌, Bool-cases,
}
use lalvm.Base.Lists.{All, All-weaken, All-map}
use lalvm.Dialect.CallOps.{Value}
use lalvm.Dialect.CallOps.Order.{same_some}
use lalvm.ClosureConversion.{
  Subp, CallSite, State, Isolation, replace_uses, add_captures, hoist_subp, hoist_call, hoisted,
  lift, next_state, convert_closures,
}
use lalvm.ClosureConversion.Agreement.{
  Agrees, AllAgree, IsNamed, IsTyped, IsIsolation, pass_all-agree, hoist_subp-Agrees,
  replaced_Agrees,
}

abbrev moved : ℕ → List ℕ → List Subp → List CallSite → State
moved key processed subps calls = record {
  subps = map (hoist_subp key) subps;
  calls = map (hoist_call key) calls;
  processed = key ∷ processed;
}

hoisted-some :
    (key : ℕ) (processed : List ℕ) (subps : List Subp) (calls : Option (List CallSite)) (s : State)
    → hoisted key processed subps calls ≡ some s
    → (cs : List CallSite) × (calls ≡ some cs) × (moved key processed subps cs ≡ s)
hoisted-some key processed subps none s h = cc
hoisted-some key processed subps (some cs) s h = (cs, refl, same_some h)

moved_agree :
    (key : ℕ) (processed : List ℕ) (subps : List Subp) (calls : List CallSite)
    → All (λ c. All (Agrees c) subps) calls
    → AllAgree (moved key processed subps calls)
unfolding hoist_call
moved_agree key processed subps calls a =
    All-map {P = λ c. All (Agrees c) subps} (λ c. All (Agrees c) (map (hoist_subp key) subps))
      (hoist_call key) calls
      (λ c ok.
        All-map {P = Agrees c} (Agrees (hoist_call key c)) (hoist_subp key) subps
          (λ x good. hoist_subp-Agrees key (hoist_call key c) x good) ok)
      a

-- What a step makes of the subprograms: a property that both changes keep holds of all.
module _ {P : Subp → Type 0} (key : ℕ) (name : String)
    (adds : (captures : List (Value × Value)) (s : Subp) → P s → P (add_captures key captures s))
    (hoists : (s : Subp) → P s → P (hoist_subp key s)) where
  pub lift-keeps :
      (captures : List (Value × Value)) (s t : State)
      → lift key name captures s ≡ some t
      → All P s.subps
      → All P t.subps
  unfolding lift
  lift-keeps [] s t h all_hold =
      let (cs, e, same) = hoisted-some key s.processed s.subps (some s.calls) t h in
      subst (λ (x : State). All P x.subps) same (All-map P (hoist_subp key) s.subps hoists all_hold)
  lift-keeps (c ∷ captures) s t h all_hold =
      let (cs, e, same) = hoisted-some key s.processed _ _ t h in
      subst (λ (x : State). All P x.subps) same
        (All-map P (hoist_subp key) (map (add_captures key (c ∷ captures)) s.subps) hoists
          (All-map P (add_captures key (c ∷ captures)) s.subps (adds (c ∷ captures)) all_hold))

abbrev InModule : ℕ → Subp → Type 0
InModule key x = (x.key == key) ≡ true → x.op.in_module ≡ true

hoist_subp-InModule : (key : ℕ) (s : Subp) → InModule key (hoist_subp key s)
unfolding hoist_subp
hoist_subp-InModule key s = elim (Bool-cases (s.key == key)) [
  | inl e ↦ rw (hoist_subp, e) (λ m. refl)
  | inr e ↦ rw (hoist_subp, e) (λ m. let wrong = sym e ∙ m in cc)
]

hoisted-All : (key : ℕ) (subps : List Subp) → All (InModule key) (map (hoist_subp key) subps)
hoisted-All key [] = tt
hoisted-All key (s ∷ subps) = (hoist_subp-InModule key s, hoisted-All key subps)

-- The subprogram is at module level after its step.
pub lift-hoists :
    (key : ℕ) (name : String) (captures : List (Value × Value)) (s t : State)
    → lift key name captures s ≡ some t
    → All (λ (x : Subp). (x.key == key) ≡ true → x.op.in_module ≡ true) t.subps
unfolding lift
lift-hoists key name [] s t h =
    let (cs, e, same) = hoisted-some key s.processed s.subps (some s.calls) t h in
    subst (λ (x : State). All (InModule key) x.subps) same (hoisted-All key s.subps)
lift-hoists key name (c ∷ captures) s t h =
    let (cs, e, same) = hoisted-some key s.processed _ _ t h in
    subst (λ (x : State). All (InModule key) x.subps) same
      (hoisted-All key (map (add_captures key (c ∷ captures)) s.subps))

lift-agree :
    (key : ℕ) (name : String) (captures : List (Value × Value)) (s t : State)
    → IsTyped captures
    → IsNamed s.subps (key, name)
    → lift key name captures s ≡ some t
    → AllAgree s
    → AllAgree t
unfolding lift
lift-agree key name [] s t typed named h a =
    let (cs, e, same) = hoisted-some key s.processed s.subps (some s.calls) t h in
    subst AllAgree same (
      moved_agree key s.processed s.subps cs
        (subst (All (λ c. All (Agrees c) s.subps)) (same_some e) a))
lift-agree key name (c ∷ captures) s t typed named h a =
    let (cs, e, same) = hoisted-some key s.processed _ _ t h in
    subst AllAgree same (
      moved_agree key s.processed (map (add_captures key (c ∷ captures)) s.subps) cs (
        pass_all-agree key name s.processed (c ∷ captures) typed s.subps
          (map (replace_uses key (c ∷ captures)) s.calls) cs named e
          (All-map {P = λ c. All (Agrees c) s.subps} (λ c. All (Agrees c) s.subps)
            (replace_uses key (c ∷ captures)) s.calls
            (λ d ok.
              All-weaken s.subps
                (λ x good. replaced_Agrees key name s.processed (c ∷ captures) typed d x good) ok)
            a)))

-- Keys and names stay.
IsNamed-add :
    (key : ℕ) (kn : ℕ × String) (captures : List (Value × Value)) (s : Subp)
    → (s.key == kn.0) ≡ str_eq s.op.sym_name kn.1
    → ((add_captures key captures s).key == kn.0)
      ≡ str_eq (add_captures key captures s).op.sym_name kn.1
unfolding add_captures
IsNamed-add key kn captures s h = elim (Bool-cases (s.key == key)) [
  | inl e ↦ rw (add_captures, e) h
  | inr e ↦ rw (add_captures, e) h
]

IsNamed-hoist :
    (key : ℕ) (kn : ℕ × String) (s : Subp)
    → (s.key == kn.0) ≡ str_eq s.op.sym_name kn.1
    → ((hoist_subp key s).key == kn.0) ≡ str_eq (hoist_subp key s).op.sym_name kn.1
unfolding hoist_subp
IsNamed-hoist key kn s h = elim (Bool-cases (s.key == key)) [
  | inl e ↦ rw (hoist_subp, e) h
  | inr e ↦ rw (hoist_subp, e) h
]

pub next_state-some :
    (o : Option State) (f : State → Option State) (t : State)
    → next_state o f ≡ some t
    → (s : State) × (o ≡ some s) × (f s ≡ some t)
next_state-some none f t h = cc
next_state-some (some s) f t h = (s, refl, h)

-- Where every call has inputs of the types of the arguments of its callee, every call has so after
-- a conversion that succeeds: with captures passed at each call of a capturing subprogram. The names
-- of nested subprograms are unique, and appended arguments have the types of the captured values.
pub convert_closures-AllAgree :
    (isolation : Isolation) (nested : List (ℕ × String)) (s t : State)
    → IsIsolation isolation
    → All (IsNamed s.subps) nested
    → convert_closures isolation nested s ≡ some t
    → AllAgree s
    → AllAgree t
unfolding convert_closures
convert_closures-AllAgree isolation [] s t typed named h a = subst AllAgree (same_some h) a
convert_closures-AllAgree isolation ((key, name) ∷ rest) s t typed (n, named) h a =
    let (m, one, more) = next_state-some (lift key name (isolation s key) s) _ t h in
    convert_closures-AllAgree isolation rest m t typed
      (All-weaken rest
        (λ kn ok.
          lift-keeps {P = λ (x : Subp). (x.key == kn.0) ≡ str_eq x.op.sym_name kn.1} key name
            (IsNamed-add key kn) (IsNamed-hoist key kn) (isolation s key) s m one ok)
        named)
      more (lift-agree key name (isolation s key) s m (typed s key) n one a)
