-- ===== src/Dialect/Mangling/RoundTrip.antt =====
-- A mangled name tells the subprogram that it stands for (mlir/Dialect.cpp, getMangledName).
use lalvm.Base.{
  ℕ, Bool, true, false, List, [], ◌∷◌, ◌++◌, map, ◌&&◌, ◌==◌, ◌≡◌, refl, ap, ap₂, ◌∙◌, inl, inr,
  Bool-cases, if◌then◌else◌,
}
use lalvm.Base.Lists.{length, All}
use lalvm.Dialect.Mangling.{
  Name, codes, name_eq, is_empty, library_level_symbol, segment_name, append_segment,
  mangle_segments, get_mangled_name,
}
use lalvm.Dialect.Mangling.Segments.{
  operator_of, decode, is_clean, starts_plain, IsSegment, segment_name-IsNamed,
}
use lalvm.Dialect.Mangling.Parts.{
  split_parts, join_parts, split_parts-join_parts, join_parts-append, starts_plain-join_parts,
}

unfoldable pub join_dots : List Name → Name
join_dots [] = []
join_dots (seg ∷ []) = seg
join_dots (seg ∷ next ∷ segs) = seg ++ (codes "." ++ join_dots (next ∷ segs))

-- `_ada_` is cut off, the rest is split, and the O-names are read.
abbrev pub strip_prefix : Name → Name → Name
strip_prefix [] name = name
strip_prefix (p ∷ ps) [] = []
strip_prefix (p ∷ ps) (c ∷ s) = strip_prefix ps s

unfoldable pub demangle : Name → Name
demangle name = join_dots (
    map decode
      (split_parts (if starts_plain name then name else strip_prefix (codes "_ada_") name)))

-- The segments as they stand in a mangled name.
unfoldable names : ℕ → List Name → List Name
names n [] = []
names n (seg ∷ []) = segment_name n seg ∷ []
names n (seg ∷ next ∷ segs) = segment_name 2 seg ∷ names n (next ∷ segs)

append_segment_lem :
    (name seg : Name)
    → is_empty name ≡ false
    → append_segment name seg ≡ name ++ (codes "__" ++ seg)
unfolding append_segment
append_segment_lem name seg h = rw h refl

plain_not_empty : (name : Name) → starts_plain name ≡ true → is_empty name ≡ false
plain_not_empty [] h = cc
plain_not_empty (c ∷ s) h = refl

append_not_empty : (x y : Name) → is_empty x ≡ false → is_empty (x ++ y) ≡ false
append_not_empty [] y h = cc
append_not_empty (c ∷ x) y h = refl

mangle_segments-join_parts :
    (n : ℕ) (name : Name) (segs : List Name)
    → is_empty name ≡ false
    → mangle_segments n name segs ≡ join_parts (name ∷ names n segs)
unfolding mangle_segments join_parts names
mangle_segments-join_parts n name [] h = refl
mangle_segments-join_parts n name (seg ∷ []) h = append_segment_lem name (segment_name n seg) h
mangle_segments-join_parts n name (seg ∷ next ∷ segs) h =
    rw (append_segment_lem name (segment_name 2 seg) h) (
      mangle_segments-join_parts n (name ++ (codes "__" ++ segment_name 2 seg)) (next ∷ segs)
        (append_not_empty name (codes "__" ++ segment_name 2 seg) h)
      ∙ join_parts-append name (segment_name 2 seg) (names n (next ∷ segs)))

names-All :
    (n : ℕ) (segs : List Name)
    → All IsSegment segs
    → All (λ y. is_clean y ≡ true) (names n segs) × (map decode (names n segs) ≡ segs)
unfolding names
names-All n [] h = (tt, refl)
names-All n (seg ∷ []) h =
    let (plain, clean, read) = segment_name-IsNamed n seg h.0 in
    ((clean, tt), ap (λ x. x ∷ []) read)
names-All n (seg ∷ next ∷ segs) h =
    let (plain, clean, read) = segment_name-IsNamed 2 seg h.0 in
    let (cleans, reads) = names-All n (next ∷ segs) h.1 in
    ((clean, cleans), ap₂ (λ x xs. x ∷ xs) read reads)

-- The mangled name of segments, joined at its pairs of underscores.
mangle_segments_lem :
    (n : ℕ) (seg : Name) (segs : List Name)
    → IsSegment seg
    → mangle_segments n [] (seg ∷ segs) ≡ join_parts (names n (seg ∷ segs))
unfolding mangle_segments join_parts names append_segment
mangle_segments_lem n seg [] h = refl
mangle_segments_lem n seg (next ∷ segs) h =
    mangle_segments-join_parts n (segment_name 2 seg) (next ∷ segs)
      (plain_not_empty (segment_name 2 seg) ((segment_name-IsNamed 2 seg h).0))

starts_plain-names :
    (n : ℕ) (seg : Name) (segs : List Name)
    → IsSegment seg
    → starts_plain (join_parts (names n (seg ∷ segs))) ≡ true
unfolding names
starts_plain-names n seg [] h =
    starts_plain-join_parts (segment_name n seg) [] ((segment_name-IsNamed n seg h).0)
starts_plain-names n seg (next ∷ segs) h =
    starts_plain-join_parts (segment_name 2 seg) (names n (next ∷ segs))
      ((segment_name-IsNamed 2 seg h).0)

split_parts-names :
    (n : ℕ) (seg : Name) (segs : List Name)
    → All (λ y. is_clean y ≡ true) (names n (seg ∷ segs))
    → split_parts (join_parts (names n (seg ∷ segs))) ≡ names n (seg ∷ segs)
unfolding names
split_parts-names n seg [] h = split_parts-join_parts (segment_name n seg) [] h
split_parts-names n seg (next ∷ segs) h =
    split_parts-join_parts (segment_name 2 seg) (names n (next ∷ segs)) h

decoded :
    (n : ℕ) (seg : Name) (segs : List Name)
    → All IsSegment (seg ∷ segs)
    → map decode (split_parts (mangle_segments n [] (seg ∷ segs))) ≡ seg ∷ segs
decoded n seg segs h =
    let (cleans, reads) = names-All n (seg ∷ segs) h in
    ap (λ x. map decode (split_parts x)) (mangle_segments_lem n seg segs h.0)
    ∙ ap (map decode) (split_parts-names n seg segs cleans)
    ∙ reads

demangle_plain :
    (name : Name)
    → starts_plain name ≡ true
    → demangle name ≡ join_dots (map decode (split_parts name))
unfolding demangle
demangle_plain name h = rw h refl

demangle-library_level_symbol :
    (name : Name) → demangle (library_level_symbol name) ≡ join_dots (map decode (split_parts name))
unfolding demangle library_level_symbol
demangle-library_level_symbol name = refl

-- Without the prefix of library units, and with it.
demangle-mangle_segments :
    (n : ℕ) (segs : List Name)
    → All IsSegment segs
    → (demangle (mangle_segments n [] segs) ≡ join_dots segs)
      × (demangle (library_level_symbol (mangle_segments n [] segs)) ≡ join_dots segs)
unfolding demangle split_parts mangle_segments join_dots operator_of name_eq library_level_symbol
demangle-mangle_segments n [] h = (refl, refl)
demangle-mangle_segments n (seg ∷ segs) h =
    let plain =
      ap starts_plain (mangle_segments_lem n seg segs h.0) ∙ starts_plain-names n seg segs h.0 in
    let read = ap join_dots (decoded n seg segs h) in
    (
      demangle_plain (mangle_segments n [] (seg ∷ segs)) plain ∙ read,
      demangle-library_level_symbol (mangle_segments n [] (seg ∷ segs)) ∙ read,
    )

-- The name of a subprogram can be read back from its mangled name, whatever its number of inputs
-- and whether it is a library unit, so subprograms of different names have different link names:
-- for names whose segments are operators or identifiers that are no O-name, with no pair of
-- underscores and none at either end. `split` cuts a name at its dots.
pub demangle-get_mangled_name :
    (split : Name → List Name) (sym_name : Name) (num_inputs : ℕ) (is_public : Bool)
    → join_dots (split sym_name) ≡ sym_name
    → All IsSegment (split sym_name)
    → demangle (get_mangled_name split sym_name num_inputs is_public) ≡ sym_name
unfolding get_mangled_name
demangle-get_mangled_name split sym_name n is_public joined h =
    let (plain, library) = demangle-mangle_segments n (split sym_name) h in
    elim (Bool-cases (is_public && (length (split sym_name) == 1))) [
      | inl e ↦ rw e (library ∙ joined)
      | inr e ↦ rw e (plain ∙ joined)
    ]
