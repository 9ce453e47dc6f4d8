-- ===== src/HoistNestedSymbolOperations/Calls.antt =====
-- Renaming keeps what each call calls (mlir/HoistNestedSymbolOperations.cpp).
use mathlib.Core.Path.{subst}
use lalvm.Base.{
  ℕ, zero, suc, true, false, some, List, [], ◌∷◌, ◌++◌, map, ◌≡◌, refl, sym, ap, ap₂, ◌∙◌, inl, inr,
  Bool-cases, both_true, ==_iff, ◌==◌,
}
use lalvm.Base.Lists.{length, get_elem?, append-cons}
use lalvm.Dialect.Mangling.{Name, name_eq}
use lalvm.Dialect.Mangling.Segments.{name_eq_sound}
use lalvm.HoistNestedSymbolOperations.{
  SubpSymbol, ModuleSymbols, replace_symbol, set_name, rename, rename_all, mangled, mangle_module,
}

-- What becomes of one use of a symbol.
unfoldable replaced : List (Name × Name) → Name → Name
replaced [] u = u
replaced ((old, new) ∷ rest) u = replaced rest (replace_symbol old new u)

map-map_id : (xs : List Name) → xs ≡ map (replaced []) xs
unfolding replaced
map-map_id [] = refl
map-map_id (x ∷ xs) = ap (λ l. x ∷ l) (map-map_id xs)

map-replaced :
    (old new : Name) (rest : List (Name × Name)) (xs : List Name)
    → map (replaced rest) (map (replace_symbol old new) xs) ≡ map (replaced ((old, new) ∷ rest)) xs
unfolding replaced
map-replaced old new rest [] = refl
map-replaced old new rest (x ∷ xs) =
    ap (λ l. replaced rest (replace_symbol old new x) ∷ l) (map-replaced old new rest xs)

uses-rename_all :
    (i : ℕ) (pairs : List (Name × Name)) (s : ModuleSymbols)
    → (rename_all i pairs s).uses ≡ map (replaced pairs) s.uses
unfolding rename_all rename
uses-rename_all i [] s = map-map_id s.uses
uses-rename_all i ((old, new) ∷ rest) s =
    uses-rename_all (suc i) rest (rename i (old, new) s) ∙ map-replaced old new rest s.uses

abbrev old_name : Name × Name → Name
old_name p = p.0

abbrev new_name : Name × Name → Name
new_name p = p.1

set_name-append :
    (done : List Name) (x new : Name) (todo : List Name)
    → set_name (length done) new (done ++ (x ∷ todo)) ≡ (done ++ (new ∷ [])) ++ todo
unfolding set_name length
set_name-append [] x new todo = refl
set_name-append (y ∷ done) x new todo = ap (λ l. y ∷ l) (set_name-append done x new todo)

length-append_one : (done : List Name) (x : Name) → length (done ++ (x ∷ [])) ≡ suc (length done)
unfolding length
length-append_one [] x = refl
length-append_one (y ∷ done) x = ap suc (length-append_one done x)

-- The positions from `length done` on are still to be renamed.
names-rename_all :
    (done : List Name) (pairs : List (Name × Name)) (uses : List Name)
    → (rename_all
        (length done)
        pairs
        (record { names = done ++ map old_name pairs; uses = uses })).names
      ≡ done ++ map new_name pairs
unfolding rename_all rename
names-rename_all done [] uses = refl
names-rename_all done ((old, new) ∷ rest) uses =
    ap₂
      (λ (i : ℕ) (l : List Name).
        (rename_all i rest (record { names = l; uses = map (replace_symbol old new) uses })).names)
      (sym (length-append_one done new)) (set_name-append done old new (map old_name rest))
    ∙ names-rename_all (done ++ (new ∷ [])) rest (map (replace_symbol old new) uses)
    ∙ append-cons done new (map new_name rest)

-- The name is the old name of none of the subprograms.
abbrev pub Differs : Name → List (Name × Name) → Type 0
Differs u [] = Unit
Differs u ((old, new) ∷ rest) = (name_eq u old ≡ false) × Differs u rest

-- The names differ, and no mangled name is the name of a subprogram that comes later.
abbrev pub AreFresh : List (Name × Name) → Type 0
AreFresh [] = Unit
AreFresh ((old, new) ∷ rest) = Differs old rest × Differs new rest × AreFresh rest

name_eq_refl : (s : Name) → name_eq s s ≡ true
unfolding name_eq
name_eq_refl [] = refl
name_eq_refl (c ∷ s) = both_true (c == c) _ ((==_iff c c).1 refl) (name_eq_refl s)

name_eq_symm : (s t : Name) → name_eq s t ≡ false → name_eq t s ≡ false
name_eq_symm s t h = elim (Bool-cases (name_eq t s)) [
  | inl e ↦
      let same = sym (name_eq_refl s) ∙ subst (λ x. name_eq s x ≡ false) (name_eq_sound t s e) h in
      cc
  | inr e ↦ e
]

replaced-Differs : (u : Name) (pairs : List (Name × Name)) → Differs u pairs → replaced pairs u ≡ u
unfolding replaced replace_symbol
replaced-Differs u [] h = refl
replaced-Differs u ((old, new) ∷ rest) h = rw (h.0) (replaced-Differs u rest h.1)

Differs-get_elem? :
    (u : Name) (pairs : List (Name × Name)) (k : ℕ) (p : Name × Name)
    → Differs u pairs
    → get_elem? pairs k ≡ some p
    → name_eq u p.0 ≡ false
unfolding get_elem?
Differs-get_elem? u [] k p h e = cc
Differs-get_elem? u (q ∷ rest) zero p h e =
    let same : q ≡ p = cc in subst (λ (x : Name × Name). name_eq u x.0 ≡ false) same h.0
Differs-get_elem? u (q ∷ rest) (suc k) p h e = Differs-get_elem? u rest k p h.1 e

-- A use of a subprogram's name becomes its mangled name.
replaced_lem :
    (pairs : List (Name × Name)) (k : ℕ) (p : Name × Name)
    → AreFresh pairs
    → get_elem? pairs k ≡ some p
    → replaced pairs p.0 ≡ p.1
unfolding replaced replace_symbol get_elem?
replaced_lem [] k p h e = cc
replaced_lem ((old, new) ∷ rest) zero p h e =
    let same : (old, new) ≡ p = cc in
    subst (λ (x : Name × Name). replaced ((old, new) ∷ rest) x.0 ≡ x.1) same
      (rw (name_eq_refl old) (replaced-Differs new rest h.1))
replaced_lem ((old, new) ∷ rest) (suc k) p h e =
    rw (name_eq_symm old p.0 (Differs-get_elem? old rest k p h.0 e)) (replaced_lem rest k p h.2 e)

get_elem?-map {ℓ κ} :
    {A : Type ℓ} {B : Type κ} (f : A → B) (xs : List A) (i : ℕ) (x : A)
    → get_elem? xs i ≡ some x
    → get_elem? (map f xs) i ≡ some (f x)
unfolding get_elem?
get_elem?-map f [] i x h = cc
get_elem?-map f (y ∷ xs) zero x h = let same : y ≡ x = cc in ap (λ z. some (f z)) same
get_elem?-map f (y ∷ xs) (suc i) x h = get_elem?-map f xs i x h

map-mangled :
    (split : Name → List Name) (subps : List SubpSymbol)
    → map (λ (s : SubpSymbol). s.sym_name) subps ≡ map old_name (map (mangled split) subps)
map-mangled split [] = refl
map-mangled split (s ∷ subps) = ap (λ l. s.sym_name ∷ l) (map-mangled split subps)

-- A use of a subprogram's name stands for the same subprogram after the renaming: both have the
-- mangled name of the subprogram then. The names of the subprograms differ, and no mangled name is
-- the name of a subprogram that is renamed later.
pub mangle_module-uses :
    (split : Name → List Name) (subps : List SubpSymbol) (uses : List Name)
    → AreFresh (map (mangled split) subps)
    → (i k : ℕ) (s : SubpSymbol) → get_elem? subps k ≡ some s
    → get_elem? uses i ≡ some s.sym_name
    → (get_elem? (mangle_module split subps uses).names k ≡ some (mangled split s).1)
      × (get_elem? (mangle_module split subps uses).uses i ≡ some (mangled split s).1)
unfolding mangle_module length
mangle_module-uses split subps uses fresh i k s at_k at_i =
    let pairs = map (mangled split) subps in
    let old = get_elem?-map (mangled split) subps k s at_k in
    (
      subst
          (λ l.
            get_elem? (rename_all 0 pairs (record { names = l; uses = uses })).names k
            ≡ some (mangled split s).1)
          (sym (map-mangled split subps))
          (ap (λ l. get_elem? l k) (names-rename_all [] pairs uses)
            ∙ get_elem?-map new_name pairs k (mangled split s) old),
      ap (λ l. get_elem? l i)
            (uses-rename_all 0 pairs
              (record { names = map (λ (q : SubpSymbol). q.sym_name) subps; uses = uses }))
          ∙ get_elem?-map (replaced pairs) uses i s.sym_name at_i
          ∙ ap some (replaced_lem pairs k (mangled split s) fresh old),
    )
