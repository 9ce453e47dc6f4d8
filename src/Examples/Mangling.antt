-- ===== src/Examples/Mangling.antt =====
-- The theorems on mangled names, at a nested operator and at two subprograms.
use lalvm.Base.{ℕ, true, false, some, List, [], ◌∷◌, ◌==◌, ◌≡◌, refl, if◌then◌else◌}
use lalvm.Base.Lists.{get_elem?, length}
use lalvm.HoistNestedSymbolOperations.{SubpSymbol, mangle_module}
use lalvm.HoistNestedSymbolOperations.Calls.{mangle_module-uses}
use lalvm.Dialect.Mangling.{
  Name, codes, get_mangled_name, name_eq, mangle_segments, append_segment, segment_name,
  gnat_operator_name, string_switch, library_level_symbol,
}
use lalvm.Dialect.Mangling.Segments.{operator_of, is_clean}
use lalvm.Dialect.Mangling.RoundTrip.{demangle, join_dots, demangle-get_mangled_name}

abbrev add_first : ℕ → List Name → List Name
add_first c [] = (c ∷ []) ∷ []
add_first c (s ∷ segs) = (c ∷ s) ∷ segs

-- StringRef::split at the dots, with empty segments kept.
abbrev split_dots : Name → List Name
split_dots [] = [] ∷ []
split_dots (c ∷ s) = let rest = split_dots s in if c == 46 then [] ∷ rest else add_first c rest

-- Unary minus of a package body's `vectors`.
abbrev minus : Name
minus = codes "main.vectors.-"

demangle-get_mangled_name_example : demangle (get_mangled_name split_dots minus 1 false) ≡ minus
unfolding join_dots operator_of is_clean name_eq
demangle-get_mangled_name_example =
    demangle-get_mangled_name split_dots minus 1 false refl
      ((refl, refl, refl), ((refl, refl, refl), ((refl, refl, refl), tt)))

-- Procedure Main, and Helper within it, which calls itself and Main.
abbrev program : List SubpSymbol
program =
    record { sym_name = codes "main"; num_inputs = 0; is_public = true }
    ∷ record { sym_name = codes "main.helper"; num_inputs = 1; is_public = false }
    ∷ []

abbrev calls : List Name
calls = codes "main.helper" ∷ codes "main" ∷ codes "main.helper" ∷ []

mangle_module-uses_example :
    (get_elem? (mangle_module split_dots program calls).names 1 ≡ some (codes "main__helper"))
    × (get_elem? (mangle_module split_dots program calls).uses 2 ≡ some (codes "main__helper"))
unfolding name_eq get_elem? get_mangled_name mangle_segments append_segment segment_name
    gnat_operator_name string_switch length library_level_symbol
mangle_module-uses_example =
    mangle_module-uses split_dots program calls ((refl, tt), (refl, tt), (tt, tt, tt)) 2 1
      (record { sym_name = codes "main.helper"; num_inputs = 1; is_public = false }) refl refl
