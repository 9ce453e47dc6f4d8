-- ===== src/Syntax/Enums.antt =====
-- Enumeration metadata in text (mlir/Dialect.cpp, EnumTypeInfoAttr::parse and print).
use text.Mathlib.Text.{◌==◌ as str_eq}
use Prim.Native.String.{String}
use mathlib.Core.Path.{subst}
use lalvm.Base.{
  ◌^◌, ◌-◌, ◌≡◌, refl, ap, ◌∙◌, Bool, true, not, Option, none, some, inl, inr, List, [], ◌∷◌, ◌⊎◌,
  ◌&&◌, ◌||◌, map, arith, if◌then◌else◌,
}
use lalvm.Base.Int.{ℤ, pos, negsuc, ltb_ℤ}
use lalvm.Base.Lists.{All, length}
use lalvm.Llvm.{ApInt, ApIntLib, IsApIntLib}
use lalvm.Dialect.Types.{Bound, absent, dynamic, static, is_recorded, integer_attr, EnumTypeInfo}
use lalvm.Syntax.{
  Token, less, greater, equal, comma, keyword, number, quoted, Parse, parse_then, parse_greater,
  parse_range_bounds, print_range_bounds,
}
use lalvm.Syntax.Lists.{separated, CommaList, IsCommaList, IsReadBack, IsPrinter}
use lalvm.Syntax.RoundTrip.{IsBound, IsReader, parse_range_bounds-print_range_bounds}

abbrev pub Literal : Type 0
Literal = String × ℤ

abbrev pub name_of : Literal → String
name_of p = p.0

abbrev pub value_of : Literal → ℤ
value_of p = p.1

-- EnumTypeInfoAttr::hasRange and enumRep.
abbrev pub has_enum_range : EnumTypeInfo → Bool
has_enum_range info = is_recorded info.lower || is_recorded info.upper

-- EnumTypeInfoAttr::literals, of equally many names and values.
unfoldable pub literals : List String → List ℤ → List Literal
literals (n ∷ names) (v ∷ values) = (n, v) ∷ literals names values
literals _ _ = []

unfoldable pub find_literal : String → List Literal → Option ℤ
find_literal name [] = none
find_literal name ((n, v) ∷ rest) = if str_eq n name then some v else find_literal name rest

unfoldable pub enum_rep : EnumTypeInfo → String → Option ℤ
enum_rep info name = find_literal name (literals info.names info.values)

-- An integer that parseInteger reads into an int64_t.
abbrev pub fits_int64 : ℤ → Bool
fits_int64 v = ltb_ℤ v (pos (2 ^ 63)) && not (ltb_ℤ v (negsuc (2 ^ 63 - 1)))

unfoldable pub parse_literal : List Token → Parse Literal
parse_literal (quoted s ∷ equal ∷ number v ∷ rest) =
    if fits_int64 v then some ((s, v), rest) else none
parse_literal tokens = none

abbrev pub declared_enum : List Literal → EnumTypeInfo
declared_enum lits = record {
  names = map name_of lits;
  values = map value_of lits;
  lower = absent;
  upper = absent;
}

abbrev pub constrained_enum : Bound → Bound → EnumTypeInfo
constrained_enum lower upper = record { names = []; values = []; lower = lower; upper = upper }

abbrev pub print_literal : Literal → List Token → List Token
print_literal p rest = quoted (name_of p) ∷ equal ∷ number (value_of p) ∷ rest

abbrev pub print_literals : List Literal → List Token → List Token
print_literals [] rest = rest
print_literals (p ∷ ps) rest = separated print_literal p ps rest

-- EnumTypeInfoAttr::print, before the tokens that follow.
unfoldable pub print_enum_info : EnumTypeInfo → List Token → List Token
print_enum_info info rest =
    less
    ∷ (if has_enum_range info
        then print_range_bounds (integer_attr info.lower) (integer_attr info.upper) (greater ∷ rest)
        else print_literals (literals info.names info.values) (greater ∷ rest))

module _ (l : ApIntLib) (read_integer : ℤ → ApInt) (comma_list : CommaList) where
  abbrev pub parse_enum_range : List Token → Parse EnumTypeInfo
  parse_enum_range tokens =
      parse_then (parse_range_bounds l read_integer tokens)
        λ bounds rest. parse_greater (constrained_enum bounds.0 bounds.1) rest

  abbrev pub parse_literals : List Token → Parse EnumTypeInfo
  parse_literals tokens =
      parse_then (comma_list Literal parse_literal tokens)
        λ lits rest. parse_greater (declared_enum lits) rest

  abbrev pub parse_enum_body : List Token → Parse EnumTypeInfo
  parse_enum_body (keyword k ∷ rest) =
      if str_eq k "range" then parse_enum_range rest else parse_literals (keyword k ∷ rest)
  parse_enum_body tokens = parse_literals tokens

  -- EnumTypeInfoAttr::parse.
  unfoldable pub parse_enum_info : List Token → Parse EnumTypeInfo
  parse_enum_info (less ∷ rest) = parse_enum_body rest
  parse_enum_info tokens = none

  abbrev pub IsConstrained : EnumTypeInfo → Type 0
  IsConstrained info =
      Path EnumTypeInfo (constrained_enum info.lower info.upper) info
      × IsBound info.lower
      × IsBound info.upper

  -- At least one literal, and values of 64 bits.
  abbrev pub IsDeclared : EnumTypeInfo → Type 0
  IsDeclared info =
      (p : Literal) × (ps : List Literal) × Path EnumTypeInfo (declared_enum (p ∷ ps)) info
      × All (λ (q : Literal). fits_int64 (value_of q) ≡ true) (p ∷ ps)

  module _ (lib : IsApIntLib l) (reader : IsReader read_integer) where
    literals-map : (lits : List Literal) → literals (map name_of lits) (map value_of lits) ≡ lits
    unfolding literals
    literals-map [] = refl
    literals-map (p ∷ ps) = ap (λ q. p ∷ q) (literals-map ps)

    parse_literal-print_literal :
        (p : Literal) (rest : List Token)
        → fits_int64 (value_of p) ≡ true
        → parse_literal (print_literal p rest) ≡ some (p, rest)
    unfolding parse_literal
    parse_literal-print_literal (s, v) rest h = rw h refl

    literal-IsPrinter : IsPrinter print_literal
    unfolding length
    literal-IsPrinter p rest = omega arith

    read_literals :
        (lits : List Literal) (rest : List Token)
        → All (λ (q : Literal). fits_int64 (value_of q) ≡ true) lits
        → All (IsReadBack parse_literal print_literal rest) lits
    read_literals [] rest h = tt
    read_literals (p ∷ ps) rest (h, hs) = (
      (
        (λ tail. parse_literal-print_literal p (comma ∷ tail) h),
        parse_literal-print_literal p rest h,
      ),
      read_literals ps rest hs,
    )

    constrained_read :
        (lower upper : Bound) (rest : List Token)
        → IsBound lower
        → IsBound upper
        → parse_enum_info (print_enum_info (constrained_enum lower upper) rest)
          ≡ some (constrained_enum lower upper, rest)
    unfolding parse_enum_info print_enum_info print_range_bounds
    constrained_read absent upper rest a b = absurd a
    constrained_read dynamic upper rest a b =
        rw
          (parse_range_bounds-print_range_bounds l lib read_integer reader dynamic upper
            (greater ∷ rest) a b)
          refl
    constrained_read (static x) upper rest a b =
        rw
          (parse_range_bounds-print_range_bounds l lib read_integer reader (static x) upper
            (greater ∷ rest) a b)
          refl

    declared_read :
        IsCommaList comma_list
        → (p : Literal) (ps : List Literal) (rest : List Token)
        → All (λ (q : Literal). fits_int64 (value_of q) ≡ true) (p ∷ ps)
        → parse_enum_info (print_enum_info (declared_enum (p ∷ ps)) rest)
          ≡ some (declared_enum (p ∷ ps), rest)
    unfolding parse_enum_info print_enum_info separated
    declared_read lists p ps rest h =
        ap (λ ls. parse_enum_body (print_literals ls (greater ∷ rest))) (literals-map (p ∷ ps))
        ∙ body ps (
            lists Literal parse_literal print_literal p ps (greater ∷ rest) literal-IsPrinter
              (read_literals (p ∷ ps) (greater ∷ rest) h) refl)
      where
        body :
            (qs : List Literal)
            → comma_list Literal parse_literal (separated print_literal p qs (greater ∷ rest))
              ≡ some (p ∷ qs, greater ∷ rest)
            → parse_enum_body (separated print_literal p qs (greater ∷ rest))
              ≡ some (declared_enum (p ∷ qs), rest)
        body [] e = rw e refl
        body (q ∷ qs) e = rw e refl

    -- Enumeration metadata is read back as it was written: that of a declaration, with at least one
    -- literal, values of 64 bits and no bounds; and that of a constrained subtype, without literals
    -- and with both bounds recorded, a static one of the least width that holds it.
    pub parse_enum_info-print_enum_info :
        (info : EnumTypeInfo) (rest : List Token)
        → IsCommaList comma_list
        → IsConstrained info ⊎ IsDeclared info
        → parse_enum_info (print_enum_info info rest) ≡ some (info, rest)
    parse_enum_info-print_enum_info info rest lists (inl (same, a, b)) =
        subst (λ i. parse_enum_info (print_enum_info i rest) ≡ some (i, rest)) same
          (constrained_read info.lower info.upper rest a b)
    parse_enum_info-print_enum_info info rest lists (inr (p, ps, same, fits)) =
        subst (λ i. parse_enum_info (print_enum_info i rest) ≡ some (i, rest)) same
          (declared_read lists p ps rest fits)
