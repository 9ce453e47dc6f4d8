-- ===== src/Dialect/Mangling/Segments.antt =====
-- The segments of a mangled name (mlir/Dialect.cpp, gnatOperatorName): what they are read back as.
use lalvm.Base.{
  ℕ, Bool, true, false, not, List, [], ◌∷◌, ◌&&◌, ◌==◌, ◌≡◌, refl, sym, ap₂, inl, inr, Bool-cases,
  and_true, ==_iff, if◌then◌else◌, leb,
}
use mathlib.Core.Path.{subst}
use lalvm.Base.Lists.{length, All}
use lalvm.Dialect.Mangling.{
  Name, codes, name_eq, operator_cases, string_switch, gnat_operator_name, or_itself, segment_name,
}

-- The operator that an O-name stands for, and any other name itself.
abbrev pub o_names : List (Name × Name)
o_names =
    (codes "+", codes "Oplus")
    ∷ (codes "+", codes "Oadd")
    ∷ (codes "-", codes "Ominus")
    ∷ (codes "-", codes "Osubtract")
    ∷ operator_cases

unfoldable pub operator_of : Name → List (Name × Name) → Name
operator_of name [] = name
operator_of name ((k, v) ∷ rest) = if name_eq name v then k else operator_of name rest

abbrev pub decode : Name → Name
decode name = operator_of name o_names

-- Neither two underscores in a row nor one at the end.
unfoldable pub is_clean : Name → Bool
is_clean [] = true
is_clean (c ∷ []) = not (c == 95)
is_clean (c ∷ d ∷ rest) = not ((c == 95) && (d == 95)) && is_clean (d ∷ rest)

-- Not empty, and no underscore first.
abbrev pub starts_plain : Name → Bool
starts_plain [] = false
starts_plain (c ∷ s) = not (c == 95)

-- A segment of a name: an operator, or an identifier that is no O-name, without the suffix that
-- tells homographs apart.
abbrev pub IsNamed : Name → Name → Type 0
IsNamed seg name = (starts_plain name ≡ true) × (is_clean name ≡ true) × (decode name ≡ seg)

abbrev pub IsSegment : Name → Type 0
IsSegment seg = IsNamed seg seg

pub name_eq_sound : (s t : Name) → name_eq s t ≡ true → s ≡ t
unfolding name_eq
name_eq_sound [] [] h = refl
name_eq_sound [] (d ∷ t) h = cc
name_eq_sound (c ∷ s) [] h = cc
name_eq_sound (c ∷ s) (d ∷ t) h =
    let (first, rest) = and_true (c == d) _ h in
    ap₂ (λ a b. a ∷ b) ((==_iff c d).0 first) (name_eq_sound s t rest)

or_itself_lem : (v seg : Name) → starts_plain v ≡ true → or_itself v seg ≡ v
or_itself_lem [] seg h = cc
or_itself_lem (c ∷ v) seg h = refl

or_itself-IsNamed : (v seg : Name) → IsNamed seg v → IsNamed seg (or_itself v seg)
or_itself-IsNamed v seg h = subst (λ x. IsNamed seg x) (sym (or_itself_lem v seg h.0)) h

string_switch-IsNamed :
    (seg : Name) (cases : List (Name × Name))
    → IsSegment seg
    → All (λ c. IsNamed c.0 c.1) cases
    → IsNamed seg (or_itself (string_switch seg cases) seg)
unfolding string_switch
string_switch-IsNamed seg [] h good = h
string_switch-IsNamed seg ((k, v) ∷ rest) h good = elim (Bool-cases (name_eq seg k)) [
  | inl e ↦
      rw e (or_itself-IsNamed v seg (subst (λ x. IsNamed x v) (sym (name_eq_sound seg k e)) good.0))
  | inr e ↦ rw e (string_switch-IsNamed seg rest h good.1)
]

operator_cases-All : All (λ (c : Name × Name). IsNamed c.0 c.1) operator_cases
unfolding operator_of name_eq is_clean
operator_cases-All = (
  (refl, refl, refl),
  (
    (refl, refl, refl),
    (
      (refl, refl, refl),
      (
        (refl, refl, refl),
        (
          (refl, refl, refl),
          (
            (refl, refl, refl),
            (
              (refl, refl, refl),
              (
                (refl, refl, refl),
                (
                  (refl, refl, refl),
                  (
                    (refl, refl, refl),
                    (
                      (refl, refl, refl),
                      (
                        (refl, refl, refl),
                        (
                          (refl, refl, refl),
                          (
                            (refl, refl, refl),
                            ((refl, refl, refl), ((refl, refl, refl), ((refl, refl, refl), tt))),
                          ),
                        ),
                      ),
                    ),
                  ),
                ),
              ),
            ),
          ),
        ),
      ),
    ),
  ),
)

gnat_operator_name-IsNamed :
    (n : ℕ) (seg : Name) → IsSegment seg → IsNamed seg (or_itself (gnat_operator_name seg n) seg)
unfolding gnat_operator_name operator_of name_eq is_clean
gnat_operator_name-IsNamed n seg h = elim (Bool-cases (name_eq seg (codes "+"))) [
  | inl e ↦ rw e (elim (Bool-cases (n == 1)) [
    | inl one ↦ rw one (refl, refl, sym (name_eq_sound seg (codes "+") e))
    | inr two ↦ rw two (refl, refl, sym (name_eq_sound seg (codes "+") e))
  ])
  | inr e ↦ rw e (elim (Bool-cases (name_eq seg (codes "-"))) [
    | inl f ↦ rw f (elim (Bool-cases (n == 1)) [
      | inl one ↦ rw one (refl, refl, sym (name_eq_sound seg (codes "-") f))
      | inr two ↦ rw two (refl, refl, sym (name_eq_sound seg (codes "-") f))
    ])
    | inr f ↦ rw f (string_switch-IsNamed seg operator_cases h operator_cases-All)
  ])
]

pub segment_name-IsNamed : (n : ℕ) (seg : Name) → IsSegment seg → IsNamed seg (segment_name n seg)
unfolding segment_name
segment_name-IsNamed n seg h = elim (Bool-cases (leb (length seg) 3)) [
  | inl e ↦ rw e (gnat_operator_name-IsNamed n seg h)
  | inr e ↦ rw e h
]
