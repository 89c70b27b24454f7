-- ===== src/Extraction/Operators.antt =====
-- stainless_extraction/src/expr.rs: operators. Their operands are extracted already, and come with
-- their types.
use rust_stainless.Prelude.{
  ℕ, [], ◌∷◌, Bool, true, false, ◌&&◌, ◌||◌, Option, some, if◌then◌else◌, ltb,
}
use rust_stainless.Prelude.Texts.{Text, codes}
use rust_stainless.Ast.Kinds.{expr}
use rust_stainless.Ast.Value.{Value}
use rust_stainless.Factory.{into}
use rust_stainless.Factory.Exprs
use rust_stainless.Factory.Exprs.{
  bv_not, u_minus, equals, plus, minus, times, division, remainder, less_than, less_equals,
  greater_equals, greater_than, bv_xor, bv_and, bv_or, bv_widening_cast, bv_shift_left,
  bv_a_shift_right, bv_l_shift_right, no_tree,
}
use rust_stainless.Factory.Types.{bv_type, untyped}
use rust_stainless.Registry.{Tcx}
use rust_stainless.Rustc.{Rustc, Ty, IntTy, bit_width}
use rust_stainless.Rustc
use rust_stainless.Hair.{UnOp, BinOp, LogicalOp}
use rust_stainless.Extraction.{M, pure, fail, unsupported, ◌>>◌}
use rust_stainless.Extraction.Types.{is_bv_type, is_signed_bv_type, is_bigint_type}

-- `Ty::is_bool`
abbrev pub is_bool : {D : Type 0} → Ty D → Bool
is_bool Rustc.bool = true
is_bool _ = false

abbrev pub int_ty_eq : IntTy → IntTy → Bool
int_ty_eq IntTy.size IntTy.size = true
int_ty_eq IntTy.i8 IntTy.i8 = true
int_ty_eq IntTy.i16 IntTy.i16 = true
int_ty_eq IntTy.i32 IntTy.i32 = true
int_ty_eq IntTy.i64 IntTy.i64 = true
int_ty_eq IntTy.i128 IntTy.i128 = true
int_ty_eq _ _ = false

-- `unsupported_expr`
abbrev pub unsupported_expr : {tcx : Tcx} → Text → M tcx (Value expr)
unsupported_expr msg = unsupported msg >> pure (into (no_tree (into untyped)))

-- The second operand of a shift, or why there is none.
pub data Adapted : Type 0 where
  adapted : Value expr → Adapted
  bail : Text → Adapted

abbrev pub widened : Bool → Option ℕ → Option ℕ → Value expr → Adapted
widened signed (some width1) (some width2) arg2 =
    if ltb width2 width1
    then adapted (into (bv_widening_cast arg2 (bv_type signed width1)))
    else bail (codes "Adapting lhs shift argument would change result type")
widened signed _ _ arg2 = bail (codes "Cannot adapt shift arguments of unknown bit widths")

-- The match on the kinds of both types, which are integer types.
abbrev pub adapt : {D : Type 0} → Ty D → Ty D → Value expr → Adapted
adapt (Rustc.int int_ty1) (Rustc.int int_ty2) arg2 =
    if int_ty_eq int_ty1 int_ty2
    then adapted arg2
    else widened true (bit_width int_ty1) (bit_width int_ty2) arg2
adapt (Rustc.uint uint_ty1) (Rustc.uint uint_ty2) arg2 =
    if int_ty_eq uint_ty1 uint_ty2
    then adapted arg2
    else widened false (bit_width uint_ty1) (bit_width uint_ty2) arg2
adapt _ _ arg2 = bail (codes "Cannot extract shift mixing signed and unsigned operands")

abbrev pub shift : Bool → Bool → Value expr → Value expr → Value expr
shift is_shl signed arg1 arg2 =
    if is_shl
    then into (bv_shift_left arg1 arg2)
    else (if signed then into (bv_a_shift_right arg1 arg2) else into (bv_l_shift_right arg1 arg2))

module _ (rustc : Rustc) where
  open rustc use {tcx}

  abbrev T : Type 0
  T = Ty tcx.DefId

  abbrev pub shifted : Bool → Bool → Value expr → Adapted → M tcx (Value expr)
  shifted is_shl signed arg1 (adapted arg2) = pure (shift is_shl signed arg1 arg2)
  shifted is_shl signed arg1 (bail msg) = unsupported_expr msg

  -- `extract_shift`
  unfoldable pub extract_shift : T → T → Value expr → Value expr → Bool → M tcx (Value expr)
  extract_shift arg1_ty arg2_ty arg1 arg2 is_shl =
      shifted is_shl (is_signed_bv_type arg1_ty) arg1 (adapt arg1_ty arg2_ty arg2)

  -- The match of `extract_unary`.
  unfoldable pub extract_unary : UnOp → T → Value expr → M tcx (Value expr)
  extract_unary UnOp.not arg_ty arg =
      if is_bv_type arg_ty
      then pure (into (bv_not arg))
      else (if is_bool arg_ty then pure (into (Exprs.not arg)) else fail)
  extract_unary UnOp.neg arg_ty arg =
      if is_bv_type arg_ty || is_bigint_type rustc arg_ty then pure (into (u_minus arg)) else fail

  abbrev pub if_bv : Bool → Value expr → M tcx (Value expr)
  if_bv args_are_bv e =
      if args_are_bv then pure e else unsupported_expr (codes "Cannot extract binary op")

  -- The cases of `extract_binary` after the first one.
  abbrev pub binary_of :
      BinOp → Bool → M tcx (Value expr) → Value expr → Value expr → M tcx (Value expr)
  binary_of BinOp.eq bv shifts a b = pure (into (equals a b))
  binary_of BinOp.ne bv shifts a b = pure (into (Exprs.not (into (equals a b))))
  binary_of BinOp.add bv shifts a b = if_bv bv (into (plus a b))
  binary_of BinOp.sub bv shifts a b = if_bv bv (into (minus a b))
  binary_of BinOp.mul bv shifts a b = if_bv bv (into (times a b))
  binary_of BinOp.div bv shifts a b = if_bv bv (into (division a b))
  binary_of BinOp.rem bv shifts a b = if_bv bv (into (remainder a b))
  binary_of BinOp.lt bv shifts a b = if_bv bv (into (less_than a b))
  binary_of BinOp.le bv shifts a b = if_bv bv (into (less_equals a b))
  binary_of BinOp.ge bv shifts a b = if_bv bv (into (greater_equals a b))
  binary_of BinOp.gt bv shifts a b = if_bv bv (into (greater_than a b))
  binary_of BinOp.bit_xor bv shifts a b = if_bv bv (into (bv_xor a b))
  binary_of BinOp.bit_and bv shifts a b = if_bv bv (into (bv_and a b))
  binary_of BinOp.bit_or bv shifts a b = if_bv bv (into (bv_or a b))
  binary_of BinOp.shl bv shifts a b =
      if bv then shifts else unsupported_expr (codes "Cannot extract binary op")
  binary_of BinOp.shr bv shifts a b =
      if bv then shifts else unsupported_expr (codes "Cannot extract binary op")
  binary_of BinOp.offset bv shifts a b = unsupported_expr (codes "Cannot extract binary op")

  -- `op == BinOp::Shl`
  abbrev pub is_shl : BinOp → Bool
  is_shl BinOp.shl = true
  is_shl _ = false

  -- The match of `extract_binary`.
  unfoldable pub extract_binary : BinOp → T → T → Value expr → Value expr → M tcx (Value expr)
  unfolding extract_shift
  extract_binary op arg1_ty arg2_ty arg1 arg2 =
      let args_are_bv = is_bv_type arg1_ty && is_bv_type arg2_ty in
      let args_are_bool = is_bool arg1_ty && is_bool arg2_ty in
      if args_are_bv || args_are_bool
      then binary_of op args_are_bv (extract_shift arg1_ty arg2_ty arg1 arg2 (is_shl op)) arg1 arg2
      else unsupported_expr (codes "Cannot extract binary op")

  -- The match of `extract_logical_op`.
  abbrev pub logical : LogicalOp → Value expr → Value expr → Value expr
  logical LogicalOp.and arg1 arg2 = into (Exprs.and (arg1 ∷ arg2 ∷ []))
  logical LogicalOp.or arg1 arg2 = into (Exprs.or (arg1 ∷ arg2 ∷ []))
