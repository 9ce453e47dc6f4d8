-- ===== src/ClosureConversion/Agreement.antt =====
-- Calls and subprograms stay in agreement while captures are passed (mlir/ClosureConversion.cpp).
use Prim.Native.String.{String}
use text.Mathlib.Text.{◌==◌ as str_eq}
use text.Mathlib.TextEquality.{eq_iff}
use mathlib.Core.Path.{subst}
use lalvm.Base.{
  ℕ, ◌≡◌, refl, sym, ap, ap₂, ◌∙◌, Bool, true, false, Option, none, some, inl, inr, List, [], ◌∷◌,
  ◌++◌, map, ◌==◌, Bool-cases, and_true,
}
use lalvm.Base.Lists.{All, All-both, All-map}
use lalvm.Dialect.Subprograms.{IrType, Argument}
use lalvm.Dialect.Equality.{ir_eq_sound}
use lalvm.Dialect.CallOps.{Value}
use lalvm.Dialect.CallOps.Order.{same_some}
use lalvm.ClosureConversion.{
  Subp, CallSite, is_same, State, Isolation, contains, replace_use, replace_uses, captured, lifted,
  capture_argument, add_captures, append_captures, is_processed, pass_captures, cons_call, pass_all,
  hoist_subp,
}

abbrev pub value_types : List Value → List IrType
value_types vs = map (λ (v : Value). v.type) vs

abbrev pub argument_types : List Argument → List IrType
argument_types arguments = map (λ (a : Argument). a.type) arguments

-- A call of the subprogram has inputs of the types of its arguments.
abbrev pub Agrees : CallSite → Subp → Type 0
Agrees c s =
    str_eq s.op.sym_name c.callee ≡ true → value_types c.inputs ≡ argument_types s.op.arguments

abbrev pub AllAgree : State → Type 0
AllAgree st = All (λ c. All (Agrees c) st.subps) st.calls

-- The name of the subprogram with a key is its own.
abbrev pub IsNamed : List Subp → ℕ × String → Type 0
IsNamed subps kn = All (λ (s : Subp). (s.key == kn.0) ≡ str_eq s.op.sym_name kn.1) subps

-- The appended block arguments have the types of the captured values.
abbrev pub IsTyped : List (Value × Value) → Type 0
IsTyped captures = All (λ (p : Value × Value). (lifted p).type ≡ (captured p).type) captures

abbrev pub IsIsolation : Isolation → Type 0
IsIsolation isolation = (s : State) (key : ℕ) → IsTyped (isolation s key)

append_types : (xs ys : List Value) → value_types (xs ++ ys) ≡ value_types xs ++ value_types ys
append_types [] ys = refl
append_types (x ∷ xs) ys = cc (append_types xs ys)

append_argument_types :
    (xs ys : List Argument) → argument_types (xs ++ ys) ≡ argument_types xs ++ argument_types ys
append_argument_types [] ys = refl
append_argument_types (x ∷ xs) ys = cc (append_argument_types xs ys)

captured_types :
    (captures : List (Value × Value))
    → value_types (map captured captures) ≡ argument_types (map capture_argument captures)
captured_types [] = refl
captured_types (p ∷ ps) = cc (captured_types ps)

lifted_types :
    (captures : List (Value × Value))
    → IsTyped captures
    → value_types (map lifted captures) ≡ argument_types (map capture_argument captures)
lifted_types [] h = refl
lifted_types (p ∷ ps) (h, hs) = ap₂ (λ t ts. t ∷ ts) h (lifted_types ps hs)

replace_use-type :
    (captures : List (Value × Value)) (v : Value)
    → IsTyped captures
    → (replace_use captures v).type ≡ v.type
unfolding replace_use
replace_use-type [] v h = refl
replace_use-type (p ∷ ps) v (h, hs) = elim (Bool-cases (is_same p.0 v)) [
  | inl e ↦
      let (_, type) = and_true (p.0.id == v.id) _ e in
      rw (replace_use, e) (h ∙ ir_eq_sound p.0.type v.type type)
  | inr e ↦ rw (replace_use, e) (replace_use-type ps v hs)
]

replaced_types :
    (captures : List (Value × Value)) (vs : List Value)
    → IsTyped captures
    → value_types (map (replace_use captures) vs) ≡ value_types vs
replaced_types captures [] h = refl
replaced_types captures (v ∷ vs) h =
    ap₂ (λ t ts. t ∷ ts) (replace_use-type captures v h) (replaced_types captures vs h)

module _ (key : ℕ) (name : String) (processed : List ℕ) (captures : List (Value × Value))
    (typed : IsTyped captures) where
  replace_uses-types :
      (c : CallSite) → value_types (replace_uses key captures c).inputs ≡ value_types c.inputs
  unfolding replace_uses
  replace_uses-types c = elim (Bool-cases (contains key c.inside)) [
    | inl e ↦ rw (replace_uses, e) (replaced_types captures c.inputs typed)
    | inr e ↦ rw (replace_uses, e) refl
  ]

  pub replaced_Agrees :
      (c : CallSite) (s : Subp) → Agrees c s → Agrees (replace_uses key captures c) s
  unfolding replace_uses
  replaced_Agrees c s h m = replace_uses-types c ∙ h m

  added :
      (s : Subp)
      → (s.key == key) ≡ true
      → argument_types (add_captures key captures s).op.arguments
        ≡ argument_types s.op.arguments ++ argument_types (map capture_argument captures)
  unfolding add_captures
  added s e =
      rw (add_captures, e) (append_argument_types s.op.arguments (map capture_argument captures))

  kept_subp : (s : Subp) → (s.key == key) ≡ false → add_captures key captures s ≡ s
  unfolding add_captures
  kept_subp s e = rw (add_captures, e) refl

  pub same_name : (s : Subp) → (add_captures key captures s).op.sym_name ≡ s.op.sym_name
  unfolding add_captures
  same_name s = elim (Bool-cases (s.key == key)) [
    | inl e ↦ rw (add_captures, e) refl
    | inr e ↦ rw (add_captures, e) refl
  ]

  own_name :
      (c : CallSite) (s : Subp)
      → str_eq (add_captures key captures s).op.sym_name c.callee ≡ true
      → str_eq s.op.sym_name c.callee ≡ true
  own_name c s m = ap (λ n. str_eq n c.callee) (sym (same_name s)) ∙ m

  -- Whether a call is of the subprogram that gets captures.
  key_of :
      (c : CallSite) (s : Subp) (b : Bool)
      → (s.key == key) ≡ str_eq s.op.sym_name name
      → str_eq c.callee name ≡ b
      → str_eq s.op.sym_name c.callee ≡ true
      → (s.key == key) ≡ b
  key_of c s b named callee own =
      named ∙ ap (λ n. str_eq n name) ((eq_iff s.op.sym_name c.callee).0 own) ∙ callee

  -- A call of another subprogram.
  other_Agrees :
      (c : CallSite) (s : Subp)
      → (s.key == key) ≡ str_eq s.op.sym_name name
      → str_eq c.callee name ≡ false
      → Agrees c s
      → Agrees c (add_captures key captures s)
  other_Agrees c s named other h m =
      h (own_name c s m)
      ∙ ap (λ (x : Subp). argument_types x.op.arguments)
          (sym (kept_subp s (key_of c s false named other (own_name c s m))))

  -- A call that gets the captures.
  extended_Agrees :
      (c : CallSite) (s : Subp) (values : List Value)
      → (s.key == key) ≡ str_eq s.op.sym_name name
      → str_eq c.callee name ≡ true
      → value_types values ≡ argument_types (map capture_argument captures)
      → Agrees c s
      → Agrees (append_captures values c) (add_captures key captures s)
  unfolding append_captures
  extended_Agrees c s values named same extra h m =
      append_types c.inputs values
      ∙ ap₂ (λ ts us. ts ++ us) (h (own_name c s m)) extra
      ∙ sym (added s (key_of c s true named same (own_name c s m)))

  -- What becomes of a call agrees with what becomes of each subprogram.
  pass_captures-Agrees :
      (c d : CallSite) (s : Subp)
      → pass_captures key name processed captures c ≡ some d
      → (s.key == key) ≡ str_eq s.op.sym_name name
      → Agrees c s
      → Agrees d (add_captures key captures s)
  unfolding pass_captures
  pass_captures-Agrees c d s p named h = elim (Bool-cases (str_eq c.callee name)) [
    | inr other ↦
        subst (λ x. Agrees x (add_captures key captures s))
          (same_some (rw (pass_captures, other) at p)) (other_Agrees c s named other h)
    | inl same ↦ elim (Bool-cases (contains key c.inside)) [
      | inl inner ↦
          subst (λ x. Agrees x (add_captures key captures s))
            (same_some (rw (pass_captures, same, inner) at p))
            (extended_Agrees c s (map lifted captures) named same (lifted_types captures typed) h)
      | inr outer ↦ elim (Bool-cases (is_processed processed c.inside)) [
        | inl late ↦ let wrong = rw (pass_captures, same, outer, late) at p in cc
        | inr early ↦
            subst (λ x. Agrees x (add_captures key captures s))
              (same_some (rw (pass_captures, same, outer, early) at p))
              (extended_Agrees c s (map captured captures) named same (captured_types captures) h)
      ]
    ]
  ]

  cons_call-some :
      (o : Option CallSite) (os : Option (List CallSite)) (ds : List CallSite)
      → cons_call o os ≡ some ds
      → (d : CallSite) × (rest : List CallSite) × (o ≡ some d) × (os ≡ some rest) × (d ∷ rest ≡ ds)
  cons_call-some none os ds h = cc
  cons_call-some (some d) none ds h = cc
  cons_call-some (some d) (some rest) ds h = (d, rest, refl, refl, same_some h)

  abbrev Passes : CallSite → Subp → Type 0
  Passes c s = ((s.key == key) ≡ str_eq s.op.sym_name name) × Agrees c s

  pub pass_all-agree :
      (subps : List Subp) (cs ds : List CallSite)
      → IsNamed subps (key, name)
      → pass_all key name processed captures cs ≡ some ds
      → All (λ c. All (Agrees c) subps) cs
      → All (λ c. All (Agrees c) (map (add_captures key captures) subps)) ds
  unfolding pass_all
  pass_all-agree subps [] ds named p h =
      subst (All (λ c. All (Agrees c) (map (add_captures key captures) subps))) (same_some p) tt
  pass_all-agree subps (c ∷ cs) ds named p (h, hs) =
      let (d, rest, one, more, same) = cons_call-some _ _ ds p in
      subst (All (λ c. All (Agrees c) (map (add_captures key captures) subps))) same (
        All-map {P = Passes c} (Agrees d) (add_captures key captures) subps
            (λ s (n, a). pass_captures-Agrees c d s one n a)
            (All-both subps (λ s n a. (n, a)) named h),
        pass_all-agree subps cs rest named more hs,
      )

pub hoist_subp-Agrees :
    (key : ℕ) (c : CallSite) (s : Subp) → Agrees c s → Agrees c (hoist_subp key s)
unfolding hoist_subp
hoist_subp-Agrees key c s h = elim (Bool-cases (s.key == key)) [
  | inl e ↦ rw (hoist_subp, e) h
  | inr e ↦ rw (hoist_subp, e) h
]
