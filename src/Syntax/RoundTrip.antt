-- ===== src/Syntax/RoundTrip.antt =====
-- Printing and parsing of ranges and of integer metadata (mlir/Dialect.cpp, IntegerTypeInfoAttr).
use mathlib.Core.Path.{subst}
use lalvm.Base.{
  ℕ, ◌≤◌, ◌<◌, ◌≡◌, refl, sym, ap, ap₂, ◌∙◌, Bool, true, false, Option, none, some, inl, inr, List,
  [], ◌∷◌, ◌⊎◌, arith,
}
use lalvm.Base.Int.{ℤ, pos}
use lalvm.Base.Words.{encode, fits_signed, fits_signed-signed, encode-signed}
use lalvm.Llvm.{ApInt, ApIntLib, IsApInt, IsApIntLib, signed_of}
use lalvm.Dialect.Types.{
  Bound, absent, dynamic, static, integer_attr, IntegerTypeInfo, static_lower, static_upper,
}
use lalvm.Syntax.{
  Token, less, greater, equal, bar, left_square, right_square, quoted, symbol, type_token, comma,
  question, keyword, number, minimal_width_int_attr, parse_bound, parse_range_bounds, print_bound,
  print_range_bounds, parse_int_range, parse_integer_info, print_integer_info,
}

-- An attribute whose width is the least that holds its value.
abbrev pub IsMinimal : ApInt → Type 0
IsMinimal a = IsApInt a × ((k : ℕ) → 0 < k → fits_signed k (signed_of a) ≡ true → a.width ≤ k)

abbrev pub IsBound : Bound → Type 0
IsBound absent = ⊥
IsBound dynamic = Unit
IsBound (static a) = IsMinimal a

abbrev pub IsStatic : Bound → Type 0
IsStatic (static a) = IsMinimal a
IsStatic dynamic = ⊥
IsStatic absent = ⊥

-- Where there is a modulus the printer writes implied bounds for bounds that are not static.
abbrev pub IsRange : Option ApInt → Bound → Bound → Type 0
IsRange none lower upper = IsBound lower × IsBound upper
IsRange (some m) lower upper = IsStatic lower × IsStatic upper

abbrev pub IsModulus : Option ApInt → Type 0
IsModulus none = Unit
IsModulus (some m) = IsMinimal m × (signed_of m ≡ pos m.bits)

abbrev pub IsPrintable : IntegerTypeInfo → Type 0
IsPrintable info =
    IsModulus info.modulus
    × (IsRange info.modulus info.lower info.upper ⊎ ((info.lower ≡ absent) × (info.upper ≡ absent)))

-- What the parser reads for an integer is an APInt of that value, wide enough for it.
abbrev pub IsReader : (ℤ → ApInt) → Type 0
IsReader read_integer = (n : ℤ) → IsApInt (read_integer n) × (signed_of (read_integer n) ≡ n)

module _ (l : ApIntLib) (lib : IsApIntLib l) (read_integer : ℤ → ApInt)
    (reader : IsReader read_integer) where
  -- The attribute of least width that holds the integer read is the one that was written.
  minimal_width_int_attr-read :
      (a : ApInt) (n : ℤ)
      → IsMinimal a
      → signed_of a ≡ n
      → minimal_width_int_attr l (read_integer n) ≡ a
  unfolding minimal_width_int_attr
  minimal_width_int_attr-read a n (apint, least) e =
      let (read, same) = reader n in
      let (wide, fits, smallest) = lib.significant_bits_lem (read_integer n) read in
      let value = same ∙ sym e in
      let upper = smallest a.width apint.wide (
        subst (λ z. fits_signed a.width z ≡ true) (sym value)
          (fits_signed-signed a.width apint.wide a.bits apint.fits)) in
      let lower =
        least (l.significant_bits (read_integer n)) wide
          (subst (λ z. fits_signed (l.significant_bits (read_integer n)) z ≡ true) value fits) in
      let width : l.significant_bits (read_integer n) ≡ a.width = omega (arith, upper, lower) in
      lib.sext_or_trunc_lem (read_integer n) (l.significant_bits (read_integer n))
      ∙ ap₂ (λ (w : ℕ) (z : ℤ). record { width = w; bits = encode w z }) width value
      ∙ ap (λ (b : ℕ). record { width = a.width; bits = b })
          (encode-signed a.width apint.wide a.bits apint.fits)

  parse_bound-print_bound :
      (b : Bound) (rest : List Token)
      → IsBound b
      → parse_bound l read_integer (print_bound (integer_attr b) ∷ rest) ≡ some (b, rest)
  unfolding parse_bound
  parse_bound-print_bound absent rest h = absurd h
  parse_bound-print_bound dynamic rest h = refl
  parse_bound-print_bound (static a) rest h =
      ap (λ x. some (static x, rest)) (minimal_width_int_attr-read a (signed_of a) h refl)

  -- Two recorded bounds are read as they are written.
  pub parse_range_bounds-print_range_bounds :
      (lower upper : Bound) (rest : List Token)
      → IsBound lower
      → IsBound upper
      → parse_range_bounds l read_integer (
          print_bound (integer_attr lower) ∷ keyword "to" ∷ print_bound (integer_attr upper) ∷ rest)
        ≡ some ((lower, upper), rest)
  unfolding parse_range_bounds
  parse_range_bounds-print_range_bounds lower upper rest a b =
      rw (parse_bound-print_bound lower _ a, parse_bound-print_bound upper rest b) refl

  abbrev int_info : Option ApInt → Bound → Bound → IntegerTypeInfo
  int_info modulus lower upper = record { modulus = modulus; lower = lower; upper = upper }

  abbrev pub starts_with_less : List Token → Bool
  starts_with_less (less ∷ rest) = true
  starts_with_less tokens = false

  parse_int_range-print_int_range :
      (modulus : Option ApInt) (lower upper : Bound) (rest : List Token)
      → IsBound lower
      → IsBound upper
      → parse_int_range l read_integer modulus (
          keyword "range"
          ∷ print_bound (integer_attr lower)
          ∷ keyword "to"
          ∷ print_bound (integer_attr upper)
          ∷ greater
          ∷ rest)
        ≡ some (int_info modulus lower upper, rest)
  unfolding parse_int_range
  parse_int_range-print_int_range modulus lower upper rest a b =
      rw (parse_range_bounds-print_range_bounds lower upper (greater ∷ rest) a b) refl

  bare :
      (rest : List Token)
      → starts_with_less rest ≡ false
      → parse_integer_info l read_integer rest ≡ some (int_info none absent absent, rest)
  unfolding parse_integer_info
  bare [] h = refl
  bare (less ∷ rest) h = cc
  bare (greater ∷ rest) h = refl
  bare (equal ∷ rest) h = refl
  bare (comma ∷ rest) h = refl
  bare (question ∷ rest) h = refl
  bare (bar ∷ rest) h = refl
  bare (left_square ∷ rest) h = refl
  bare (right_square ∷ rest) h = refl
  bare (keyword k ∷ rest) h = refl
  bare (number k ∷ rest) h = refl
  bare (quoted k ∷ rest) h = refl
  bare (symbol k ∷ rest) h = refl
  bare (type_token k ∷ rest) h = refl

  modular :
      (m : ApInt) (rest : List Token)
      → IsModulus (some m)
      → parse_integer_info l read_integer
          (less ∷ keyword "mod" ∷ number (pos m.bits) ∷ greater ∷ rest)
        ≡ some (int_info (some m) absent absent, rest)
  unfolding parse_integer_info
  modular m rest (h, nonneg) =
      ap (λ x. some (int_info (some x) absent absent, rest))
        (minimal_width_int_attr-read m (pos m.bits) h nonneg)

  read_back :
      (modulus : Option ApInt) (lower upper : Bound) (rest : List Token)
      → IsModulus modulus
      → IsRange modulus lower upper
      → parse_integer_info l read_integer (print_integer_info l (int_info modulus lower upper) rest)
        ≡ some (int_info modulus lower upper, rest)
  unfolding parse_integer_info print_integer_info static_lower static_upper print_range_bounds
  read_back none absent upper rest m (a, b) = absurd a
  read_back none dynamic absent rest m (a, b) = absurd b
  read_back none dynamic dynamic rest m (a, b) =
      parse_int_range-print_int_range none dynamic dynamic rest a b
  read_back none dynamic (static y) rest m (a, b) =
      parse_int_range-print_int_range none dynamic (static y) rest a b
  read_back none (static x) absent rest m (a, b) = absurd b
  read_back none (static x) dynamic rest m (a, b) =
      parse_int_range-print_int_range none (static x) dynamic rest a b
  read_back none (static x) (static y) rest m (a, b) =
      parse_int_range-print_int_range none (static x) (static y) rest a b
  read_back (some k) (static x) (static y) rest (m, nonneg) (a, b) =
      parse_int_range-print_int_range (some (minimal_width_int_attr l (read_integer (pos k.bits))))
        (static x) (static y) rest a b
      ∙ ap (λ i. some (int_info (some i) (static x) (static y), rest))
          (minimal_width_int_attr-read k (pos k.bits) m nonneg)
  read_back (some k) (static x) absent rest m (a, b) = absurd b
  read_back (some k) (static x) dynamic rest m (a, b) = absurd b
  read_back (some k) absent upper rest m (a, b) = absurd a
  read_back (some k) dynamic upper rest m (a, b) = absurd a

  without_range :
      (modulus : Option ApInt) (rest : List Token)
      → starts_with_less rest ≡ false
      → IsModulus modulus
      → parse_integer_info l read_integer
          (print_integer_info l (int_info modulus absent absent) rest)
        ≡ some (int_info modulus absent absent, rest)
  unfolding print_integer_info
  without_range none rest h m = bare rest h
  without_range (some k) rest h m = modular k rest m

  -- Integer metadata is read back as it was written: where its bounds are both recorded or both
  -- absent, where bounds and modulus have the least width that holds them, where a modulus is not
  -- negative in it, and where bounds next to a modulus are static; before tokens that do not start
  -- with `<`.
  pub parse_integer_info-print_integer_info :
      (info : IntegerTypeInfo) (rest : List Token)
      → IsPrintable info
      → starts_with_less rest ≡ false
      → parse_integer_info l read_integer (print_integer_info l info rest) ≡ some (info, rest)
  parse_integer_info-print_integer_info info rest (m, inl r) h =
      read_back info.modulus info.lower info.upper rest m r
  parse_integer_info-print_integer_info info rest (m, inr (a, b)) h =
      subst
        (λ (i : IntegerTypeInfo).
          parse_integer_info l read_integer (print_integer_info l i rest) ≡ some (i, rest))
        (ap₂ (λ x y. int_info info.modulus x y) (sym a) (sym b))
        (without_range info.modulus rest h m)
