-- ===== src/LowerToLlvm/CmpOp/Order.antt =====
-- The order in which a comparison reads its operands (mlir/LowerToLLVM.cpp, CmpOpLowering;
-- mlir/Dialect.cpp, isUnsignedOrderQualType).
use Prim.Native.String.{String}
use lalvm.Base.{
  ℕ, ◌^◌, ◌<◌, ◌≡◌, Bool, true, false, not, Option, some, none, List, [], ◌∷◌, refl, ap, ◌∙◌,
  to_bit, arith, inl, inr, ◌⊎◌, both_true,
}
use lalvm.Base.Int.{ℤ, pos, negsuc, ltb_ℤ}
use lalvm.Base.Lists.{All}
use lalvm.Llvm.{Machine, IsMachine, read_word, ApInt}
use lalvm.Dialect.Types.{
  int, TypeOp, TypeInfo, integer_info, enum_info, float_info, unknown_info, IntegerTypeInfo,
  EnumTypeInfo,
}
use lalvm.Dialect.Scopes.{Module}
use lalvm.Dialect.Table.{
  type_table, root_of_ada_type, is_unsigned_order_qual_type, info_unsigned, none_negative,
}
use lalvm.LowerToLlvm.Emit.{Runs, run, two_operands, returns}
use lalvm.LowerToLlvm.Operators.{RelationalOp}
use lalvm.LowerToLlvm.CmpOp.{lower_cmp_op, predicate_lem}
use lalvm.Ada.{relation}

abbrev pub IsNonnegative : ℤ → Type 0
IsNonnegative (pos n) = Unit
IsNonnegative (negsuc n) = ⊥

-- Some value of the list is negative.
abbrev pub HasNegative : List ℤ → Type 0
HasNegative [] = ⊥
HasNegative (v ∷ vs) = (¬ IsNonnegative v) ⊎ HasNegative vs

-- How the words of a root type are read: as unsigned where it is modular or an enumeration of no
-- negative value, as signed elsewhere.
pub data Reads : Option TypeInfo → Bool → Type 0 where
  modular :
      (i : IntegerTypeInfo) (m : ApInt) → i.modulus ≡ some m → Reads (some (integer_info i)) true
  signed_integer : (i : IntegerTypeInfo) → i.modulus ≡ none → Reads (some (integer_info i)) false
  natural_enum : (e : EnumTypeInfo) → All IsNonnegative e.values → Reads (some (enum_info e)) true
  signed_enum : (e : EnumTypeInfo) → HasNegative e.values → Reads (some (enum_info e)) false
  floating : (d : ℕ) → Reads (some (float_info d)) false
  unknown : Reads (some unknown_info) false
  undescribed : Reads none false

nonnegative_head : (n : ℕ) → not (ltb_ℤ (pos n) (pos 0)) ≡ true
nonnegative_head n = ground arith

negative_head : (n : ℕ) → not (ltb_ℤ (negsuc n) (pos 0)) ≡ false
negative_head n = ground arith

none_negative-All : (vs : List ℤ) → All IsNonnegative vs → none_negative vs ≡ true
none_negative-All [] h = refl
none_negative-All (pos n ∷ vs) h = both_true _ _ (nonnegative_head n) (none_negative-All vs h.1)
none_negative-All (negsuc n ∷ vs) h = absurd h.0

none_negative-HasNegative : (vs : List ℤ) → HasNegative vs → none_negative vs ≡ false
none_negative-HasNegative [] h = absurd h
none_negative-HasNegative (pos n ∷ vs) (inl h) = absurd (h tt)
none_negative-HasNegative (pos n ∷ vs) (inr h) =
    rw (nonnegative_head n) (none_negative-HasNegative vs h)
none_negative-HasNegative (negsuc n ∷ vs) h = rw (negative_head n) refl

info_unsigned-Reads :
    {info : Option TypeInfo} {uns : Bool} → Reads info uns → info_unsigned info ≡ uns
info_unsigned-Reads (modular i m e) = rw e refl
info_unsigned-Reads (signed_integer i e) = rw e refl
info_unsigned-Reads (natural_enum e h) = none_negative-All e.values h
info_unsigned-Reads (signed_enum e h) = none_negative-HasNegative e.values h
info_unsigned-Reads (floating d) = refl
info_unsigned-Reads unknown = refl
info_unsigned-Reads undescribed = refl

-- A comparison of integer operands of a type whose root resolves compiles to code that returns the
-- truth value of the relation between the integers that the operands stand for: read as unsigned
-- where the root is modular or an enumeration of no negative value, as signed elsewhere.
pub lower_cmp_op-relation :
    (m : Machine) (machine : IsMachine m) (w a b : ℕ) (wide : 0 < w) (ha : a < 2 ^ w)
    (hb : b < 2 ^ w) (f from : ℕ) (symbols : Module) (k : RelationalOp) (symbol : String)
    (root : TypeOp) (uns : Bool)
    → root_of_ada_type f symbols from symbol ≡ some root
    → Reads root.type_info uns
    → Runs m
        (two_operands a b)
        (lower_cmp_op (type_table f symbols from) (record { kind = k; type = int w; sym = symbol }))
        (returns (to_bit (relation k (read_word uns w a) (read_word uns w b))))
unfolding lower_cmp_op run type_table is_unsigned_order_qual_type
lower_cmp_op-relation m machine w a b wide ha hb f from symbols k symbol root uns resolved reads =
    ap (λ (v : Bool). returns (to_bit v))
      (predicate_lem m machine w a b wide ha hb k
          (is_unsigned_order_qual_type f symbols from symbol)
        ∙ ap (λ u. relation k (read_word u w a) (read_word u w b)) order)
  where
    order : is_unsigned_order_qual_type f symbols from symbol ≡ uns
    order = rw (is_unsigned_order_qual_type, resolved) (info_unsigned-Reads reads)
