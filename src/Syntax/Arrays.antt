-- ===== src/Syntax/Arrays.antt =====
-- Array metadata in text (mlir/Dialect.cpp, ArrayTypeInfoAttr::verify, print and parse).
use text.Mathlib.Text.{◌==◌ as str_eq}
use Prim.Native.String.{String}
use mathlib.Core.Path.{subst}
use lalvm.Base.{
  ◌≡◌, refl, sym, ap, ap₂, ◌∙◌, Bool, true, false, not, none, some, inl, inr, List, [], ◌∷◌, ◌⊎◌,
  ◌&&◌, ◌||◌, ◌==◌, map, if◌then◌else◌, bool_eq, Bool-cases, arith,
}
use lalvm.Base.Int.{ℤ}
use lalvm.Base.Lists.{All, length, any}
use lalvm.Llvm.{ApInt, ApIntLib, IsApIntLib}
use lalvm.Dialect.Types.{Bound, absent, dynamic, static, is_recorded, integer_attr, ArrayTypeInfo}
use lalvm.Syntax.{
  Token, less, greater, comma, keyword, symbol, Parse, parse_then, parse_keyword, parse_greater,
  parse_range_bounds, print_range_bounds,
}
use lalvm.Syntax.Lists.{separated, CommaList, IsCommaList, IsReadBack, IsPrinter}
use lalvm.Syntax.RoundTrip.{IsBound, IsReader, parse_range_bounds-print_range_bounds}

-- One dimension: the index type and the bounds.
pub record Dim : Type 0 where
  pub index : String
  pub lower : Bound
  pub upper : Bound

abbrev pub index_of : Dim → String
index_of d = d.index

abbrev pub lower_of : Dim → Bound
lower_of d = d.lower

abbrev pub upper_of : Dim → Bound
upper_of d = d.upper

abbrev pub is_empty {ℓ} : {A : Type ℓ} → List A → Bool
is_empty [] = true
is_empty (x ∷ xs) = false

-- llvm::all_of over the lower bounds, as `any` and `not` give it.
abbrev pub is_absent : Bound → Bool
is_absent b = not (is_recorded b)

-- ArrayTypeInfoAttr::verify.
unfoldable pub verify_array_info : ArrayTypeInfo → Bool
verify_array_info info =
    not (is_empty info.index_types)
    && (length info.index_types == length info.lower_bounds)
    && (length info.index_types == length info.upper_bounds)
    && bool_eq (any is_recorded info.lower_bounds) (not (any is_absent info.lower_bounds))

abbrev pub array_of : String → List Dim → ArrayTypeInfo
array_of component dims = record {
  component = component;
  index_types = map index_of dims;
  lower_bounds = map lower_of dims;
  upper_bounds = map upper_of dims;
}

-- The bounds of one dimension, where it is constrained.
abbrev pub print_dim_bounds : Bound → Bound → List Token → List Token
print_dim_bounds lower upper rest =
    if is_recorded lower || is_recorded upper
    then print_range_bounds (integer_attr lower) (integer_attr upper) rest
    else rest

-- The loop of ArrayTypeInfoAttr::print; the verifier gives lists of one length.
unfoldable pub print_dims : List String → List Bound → List Bound → List Token → List Token
print_dims (i ∷ is) (lo ∷ los) (hi ∷ his) rest =
    comma ∷ keyword "dim" ∷ symbol i ∷ print_dim_bounds lo hi (print_dims is los his rest)
print_dims _ _ _ rest = rest

unfoldable pub print_array_info : ArrayTypeInfo → List Token → List Token
print_array_info info rest =
    less
    ∷ keyword "component"
    ∷ symbol info.component
    ∷ print_dims info.index_types info.lower_bounds info.upper_bounds (greater ∷ rest)

module _ (l : ApIntLib) (read_integer : ℤ → ApInt) (comma_list : CommaList) where
  abbrev pub dim : String → Bound → Bound → Dim
  dim index lower upper = record { index = index; lower = lower; upper = upper }

  -- `parseOptionalKeyword("range")` and the bounds.
  abbrev pub parse_dim_bounds : String → List Token → Parse Dim
  parse_dim_bounds index (keyword k ∷ rest) =
      if str_eq k "range"
      then parse_then (parse_range_bounds l read_integer rest)
          (λ bounds after. some (dim index bounds.0 bounds.1, after))
      else some (dim index absent absent, keyword k ∷ rest)
  parse_dim_bounds index tokens = some (dim index absent absent, tokens)

  abbrev pub parse_index : List Token → Parse Dim
  parse_index (symbol i ∷ rest) = parse_dim_bounds i rest
  parse_index tokens = none

  -- parseDim.
  unfoldable pub parse_dim : List Token → Parse Dim
  parse_dim tokens = parse_keyword "dim" tokens parse_index

  -- getChecked.
  abbrev pub checked_array : ArrayTypeInfo → List Token → Parse ArrayTypeInfo
  checked_array info rest = if verify_array_info info then some (info, rest) else none

  abbrev pub parse_dims : String → List Token → Parse ArrayTypeInfo
  parse_dims component (comma ∷ rest) =
      parse_then (comma_list Dim parse_dim rest)
        λ dims after. parse_then (parse_greater (array_of component dims) after) checked_array
  parse_dims component tokens = none

  abbrev pub parse_component : List Token → Parse ArrayTypeInfo
  parse_component (symbol c ∷ rest) = parse_dims c rest
  parse_component tokens = none

  -- ArrayTypeInfoAttr::parse.
  unfoldable pub parse_array_info : List Token → Parse ArrayTypeInfo
  parse_array_info (less ∷ rest) = parse_keyword "component" rest parse_component
  parse_array_info tokens = none

  abbrev pub IsDim : Dim → Type 0
  IsDim d = (IsBound d.lower × IsBound d.upper) ⊎ ((d.lower ≡ absent) × (d.upper ≡ absent))

  abbrev print_dim : Dim → List Token → List Token
  print_dim d rest = keyword "dim" ∷ symbol d.index ∷ print_dim_bounds d.lower d.upper rest

  -- The tokens that follow a dimension: a comma or the end.
  abbrev Ends : List Token → Type 0
  Ends rest = (i : String) → parse_dim_bounds i rest ≡ some (dim i absent absent, rest)

  module _ (lib : IsApIntLib l) (reader : IsReader read_integer) where
    bounds_read :
        (i : String) (lower upper : Bound) (rest : List Token)
        → IsBound lower
        → IsBound upper
        → parse_dim (print_dim (dim i lower upper) rest) ≡ some (dim i lower upper, rest)
    unfolding parse_dim print_range_bounds
    bounds_read i absent upper rest a b = absurd a
    bounds_read i dynamic upper rest a b =
        rw (parse_range_bounds-print_range_bounds l lib read_integer reader dynamic upper rest a b)
          refl
    bounds_read i (static x) upper rest a b =
        rw
          (parse_range_bounds-print_range_bounds l lib read_integer reader (static x) upper rest a
            b)
          refl

    dim_read :
        (d : Dim) (rest : List Token)
        → IsDim d
        → Ends rest
        → parse_dim (print_dim d rest) ≡ some (d, rest)
    unfolding parse_dim
    dim_read d rest (inl (a, b)) e = bounds_read d.index d.lower d.upper rest a b
    dim_read d rest (inr (a, b)) e =
        subst (λ x. parse_dim (print_dim x rest) ≡ some (x, rest))
          (ap₂ (λ x y. dim d.index x y) (sym a) (sym b)) (e d.index)

    dim-IsPrinter : IsPrinter print_dim
    unfolding length print_range_bounds
    dim-IsPrinter d rest = elim (Bool-cases (is_recorded d.lower || is_recorded d.upper)) [
      | inl e ↦ rw e (omega arith)
      | inr e ↦ rw e (omega arith)
    ]

    dims_read :
        (ds : List Dim) (rest : List Token)
        → All IsDim ds
        → All (IsReadBack parse_dim print_dim (greater ∷ rest)) ds
    dims_read [] rest h = tt
    dims_read (d ∷ ds) rest (h, hs) = (
      (
        (λ tail. dim_read d (comma ∷ tail) h (λ i. refl)),
        dim_read d (greater ∷ rest) h (λ i. refl),
      ),
      dims_read ds rest hs,
    )

    dims_separated :
        (d : Dim) (ds : List Dim) (rest : List Token)
        → print_dims
            (index_of d ∷ map index_of ds)
            (lower_of d ∷ map lower_of ds)
            (upper_of d ∷ map upper_of ds)
            rest
          ≡ comma ∷ separated print_dim d ds rest
    unfolding print_dims separated
    dims_separated d [] rest = refl
    dims_separated d (e ∷ es) rest =
        ap (λ ts. comma ∷ keyword "dim" ∷ symbol d.index ∷ print_dim_bounds d.lower d.upper ts)
          (dims_separated e es rest)

    -- Array metadata that the verifier accepts is read back as it was written, where each dimension
    -- has both bounds, a static one of the least width that holds it, or none.
    pub parse_array_info-print_array_info :
        (component : String) (d : Dim) (ds : List Dim) (rest : List Token)
        → IsCommaList comma_list
        → All IsDim (d ∷ ds)
        → verify_array_info (array_of component (d ∷ ds)) ≡ true
        → parse_array_info (print_array_info (array_of component (d ∷ ds)) rest)
          ≡ some (array_of component (d ∷ ds), rest)
    unfolding parse_array_info print_array_info
    parse_array_info-print_array_info component d ds rest lists h v =
        ap (parse_dims component) (dims_separated d ds (greater ∷ rest))
        ∙ (rw
            (lists Dim parse_dim print_dim d ds (greater ∷ rest) dim-IsPrinter
              (dims_read (d ∷ ds) rest h) refl)
            (rw v refl))
