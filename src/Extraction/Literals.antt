-- ===== src/Extraction/Literals.antt =====
-- stainless_extraction/src/literal.rs: the literals of constants. An `i128` is a signed integer, a `u128`
-- a natural number.
use rust_stainless.Prelude.{
  ℕ, ◌-◌, ◌%◌, ◌^◌, ◌<◌, ◌≡◌, refl, ap, ◌∙◌, subst, ◌≤◌, Bool, true, false, ◌==◌, Option, none,
  some, ltb, if◌then◌else◌, arith, inl, inr, Bool-cases,
}
use rust_stainless.Prelude.Int.{ℤ, pos, negsuc}
use rust_stainless.Prelude.Outcome.{Outcome, done, panicked, ◌>>=◌}
use rust_stainless.Ser.{Bytes}
use rust_stainless.Ast.Kinds.{expr}
use rust_stainless.Ast.Value.{Value}
use rust_stainless.Factory.{into}
use rust_stainless.Factory.Exprs.{unit_literal, boolean_literal, bv_literal, string_literal}
use rust_stainless.Registry.{unwrap}
use rust_stainless.Rustc.{Ty, IntTy, Const, bit_width, no_tys}
use rust_stainless.Rustc

-- `Literal`
pub data Literal : Type 0 where
  unit : Literal
  bool : Bool → Literal
  int : ℤ → ℕ → Literal
  uint : ℕ → ℕ → Literal
  string : Bytes → Literal

-- `as_st_literal`
abbrev pub as_st_literal : Literal → Value expr
as_st_literal unit = into unit_literal
as_st_literal (bool value) = into (boolean_literal value)
as_st_literal (int value size) = into (bv_literal true value size)
as_st_literal (uint value size) = into (bv_literal false (pos value) size)
as_st_literal (string value) = into (string_literal value)

-- `value as i128`
abbrev pub as_i128 : ℕ → ℤ
as_i128 value = if ltb value (2 ^ 127) then pos value else negsuc (2 ^ 128 - 1 - value)

abbrev pub int_of : ℕ → Option ℕ → Option Literal
int_of size none = none
int_of size (some value) = some (int (as_i128 value) size)

abbrev pub uint_of : ℕ → Option ℕ → Option Literal
uint_of size none = none
uint_of size (some value) = some (uint value size)

abbrev pub sized : (ℕ → Option ℕ) → (ℕ → Option ℕ → Option Literal) → Option ℕ → Option Literal
sized bits of none = none
sized bits of (some size) = of size (bits size)

abbrev pub string_of : Option (Option Bytes) → Outcome (Option Literal)
string_of none = done none
string_of (some none) = panicked
string_of (some (some s)) = done (some (string s))

abbrev pub from_ty :
    {D : Type 0} → Ty D → (ℕ → Option ℕ) → Option (Option Bytes) → Outcome (Option Literal)
from_ty (Rustc.tuple no_tys) bits slice = done (some unit)
from_ty Rustc.bool bits slice = unwrap (bits 1) >>= λ value. done (some (bool (value == 1)))
from_ty (Rustc.int int_ty) bits slice = done (sized bits int_of (bit_width int_ty))
from_ty (Rustc.uint uint_ty) bits slice = done (sized bits uint_of (bit_width uint_ty))
from_ty (Rustc.reference b Rustc.str) bits slice = string_of slice
from_ty _ bits slice = done none

-- `TryFrom<&ty::Const>`; `none` is the error.
unfoldable pub try_from : {D : Type 0} → Const D → Outcome (Option Literal)
try_from konst = from_ty konst.const_ty konst.try_to_bits konst.slice

-- The bit pattern of a width.
abbrev pub residue : ℕ → ℤ → ℕ
residue width (pos n) = n % 2 ^ width
residue width (negsuc n) = 2 ^ width - 1 - n % 2 ^ width

-- An integer literal node of a sign and a width, of which the value has the bits `bits`.
pub record BitsLiteral (signed : Bool) (width bits : ℕ) (result : Outcome (Option Literal))
    : Type 0 where
  pub literal : Literal
  pub value : ℤ
  pub returns : result ≡ done (some literal)
  pub node : as_st_literal literal ≡ into (bv_literal signed value width)
  pub same_bits : residue width value ≡ bits

small : (bits : ℕ) → bits < 2 ^ 127 → as_i128 bits ≡ pos bits
small bits l = ground arith

cut : (n p : ℕ) → n < p → n % p ≡ n
cut n p l = grind arith

below : (width bits : ℕ) → bits < 2 ^ width → bits % 2 ^ width ≡ bits
below width bits l = cut bits (2 ^ width) l

narrow :
    (width bits : ℕ) → 2 ^ width ≤ 2 ^ 127 → bits < 2 ^ width → residue width (as_i128 bits) ≡ bits
narrow width bits w l = ap (residue width) (small bits (omega arith)) ∙ below width bits l

wide : (bits : ℕ) → bits < 2 ^ 128 → residue 128 (as_i128 bits) ≡ bits
wide bits l = elim (Bool-cases (ltb bits (2 ^ 127))) [
  | inl e ↦ rw e (omega arith)
  | inr e ↦ rw e (omega arith)
]

as_i128-residue :
    (int_ty : IntTy) (width bits : ℕ)
    → bit_width int_ty ≡ some width
    → bits < 2 ^ width
    → residue width (as_i128 bits) ≡ bits
as_i128-residue IntTy.size width bits e l = cc
as_i128-residue IntTy.i8 width bits e l =
    let w : width ≡ 8 = cc in narrow width bits (rw w (omega arith)) l
as_i128-residue IntTy.i16 width bits e l =
    let w : width ≡ 16 = cc in narrow width bits (rw w (omega arith)) l
as_i128-residue IntTy.i32 width bits e l =
    let w : width ≡ 32 = cc in narrow width bits (rw w (omega arith)) l
as_i128-residue IntTy.i64 width bits e l =
    let w : width ≡ 64 = cc in narrow width bits (rw w (omega arith)) l
as_i128-residue IntTy.i128 width bits e l =
    let w : 128 ≡ width = cc in
    subst (λ v. bits < 2 ^ v → residue v (as_i128 bits) ≡ bits) w (wide bits) l

-- A constant of an integer type that has a width, of which rustc gives the bits, becomes an integer
-- literal of that sign and width, and the value of the literal has the same bits.
pub try_from-bits :
    {D : Type 0} (signed : Bool) (int_ty : IntTy) (width bits : ℕ) (konst : Const D)
    → konst.const_ty ≡ (if signed then Rustc.int int_ty else Rustc.uint int_ty)
    → bit_width int_ty ≡ some width
    → konst.try_to_bits width ≡ some bits
    → bits < 2 ^ width
    → BitsLiteral signed width bits (try_from konst)
unfolding try_from
try_from-bits true int_ty width bits konst t w b l = record {
  literal = int (as_i128 bits) width;
  value = as_i128 bits;
  returns = rw (t, w, b) refl;
  node = refl;
  same_bits = as_i128-residue int_ty width bits w l;
}
try_from-bits false int_ty width bits konst t w b l = record {
  literal = uint bits width;
  value = pos bits;
  returns = rw (t, w, b) refl;
  node = refl;
  same_bits = below width bits l;
}
