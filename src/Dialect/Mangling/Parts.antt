-- ===== src/Dialect/Mangling/Parts.antt =====
-- Names joined with pairs of underscores (mlir/Dialect.cpp, getMangledName), and cut there.
use lalvm.Base.{
  ℕ, true, List, [], ◌∷◌, ◌++◌, ◌&&◌, ◌==◌, ◌≡◌, refl, ap, ◌∙◌, inl, inr, Bool-cases, if◌then◌else◌,
}
use lalvm.Base.Lists.{All}
use lalvm.Dialect.Mangling.{Name, codes}
use lalvm.Dialect.Mangling.Segments.{is_clean, starts_plain}

-- The parts of a name between its pairs of underscores, from the left.
abbrev pub push : ℕ → List Name → List Name
push c [] = (c ∷ []) ∷ []
push c (part ∷ parts) = (c ∷ part) ∷ parts

unfoldable pub split_parts : Name → List Name
split_parts [] = [] ∷ []
split_parts (c ∷ []) = (c ∷ []) ∷ []
split_parts (c ∷ d ∷ rest) =
    let later = split_parts rest in
    let next = split_parts (d ∷ rest) in if (c == 95) && (d == 95) then [] ∷ later else push c next

unfoldable pub join_parts : List Name → Name
join_parts [] = []
join_parts (x ∷ []) = x
join_parts (x ∷ y ∷ parts) = x ++ (codes "__" ++ join_parts (y ∷ parts))

split_parts-cons :
    (seg rest : Name)
    → is_clean seg ≡ true
    → split_parts (seg ++ (codes "__" ++ rest)) ≡ seg ∷ split_parts rest
unfolding split_parts is_clean
split_parts-cons [] rest h = refl
split_parts-cons (c ∷ []) rest h = elim (Bool-cases (c == 95)) [
  | inl e ↦ let k = rw e at h in cc
  | inr e ↦ rw e refl
]
split_parts-cons (c ∷ d ∷ seg) rest h = elim (Bool-cases ((c == 95) && (d == 95))) [
  | inl e ↦ let k = rw e at h in cc
  | inr e ↦ let k = rw e at h in rw e (ap (push c) (split_parts-cons (d ∷ seg) rest k))
]

split_parts_alone : (seg : Name) → is_clean seg ≡ true → split_parts seg ≡ seg ∷ []
unfolding split_parts is_clean
split_parts_alone [] h = refl
split_parts_alone (c ∷ []) h = refl
split_parts_alone (c ∷ d ∷ seg) h = elim (Bool-cases ((c == 95) && (d == 95))) [
  | inl e ↦ let k = rw e at h in cc
  | inr e ↦ let k = rw e at h in rw e (ap (push c) (split_parts_alone (d ∷ seg) k))
]

pub split_parts-join_parts :
    (x : Name) (xs : List Name)
    → All (λ y. is_clean y ≡ true) (x ∷ xs)
    → split_parts (join_parts (x ∷ xs)) ≡ x ∷ xs
unfolding join_parts
split_parts-join_parts x [] h = split_parts_alone x h.0
split_parts-join_parts x (y ∷ ys) h =
    split_parts-cons x (join_parts (y ∷ ys)) h.0 ∙ ap (λ l. x ∷ l) (split_parts-join_parts y ys h.1)

append_assoc : (xs ys zs : Name) → (xs ++ ys) ++ zs ≡ xs ++ (ys ++ zs)
append_assoc [] ys zs = refl
append_assoc (x ∷ xs) ys zs = ap (λ l. x ∷ l) (append_assoc xs ys zs)

pub join_parts-append :
    (x y : Name) (zs : List Name)
    → join_parts ((x ++ (codes "__" ++ y)) ∷ zs) ≡ join_parts (x ∷ y ∷ zs)
unfolding join_parts
join_parts-append x y [] = refl
join_parts-append x y (z ∷ zs) =
    append_assoc x (codes "__" ++ y) (codes "__" ++ join_parts (z ∷ zs))

pub starts_plain-join_parts :
    (x : Name) (xs : List Name) → starts_plain x ≡ true → starts_plain (join_parts (x ∷ xs)) ≡ true
unfolding join_parts
starts_plain-join_parts [] xs h = cc
starts_plain-join_parts (c ∷ x) [] h = h
starts_plain-join_parts (c ∷ x) (y ∷ ys) h = h
