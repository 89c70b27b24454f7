-- ===== src/Extraction/Whole/Operators.antt =====
-- What the parts of stainless_extraction/src/expr.rs for operators return without a report has no holes.
use rust_stainless.Prelude.{
  ℕ, ltb, if◌then◌else◌, refl, List, Bool, true, false, ◌&&◌, ◌||◌, Option, none, some,
}
use rust_stainless.Ast.Kinds.{expr}
use rust_stainless.Ast.Value.{Value}
use rust_stainless.Rustc.{Rustc, bit_width, Ty, Tys, no_tys, AllAdts, AllAdtsOf}
use rust_stainless.Rustc
use rust_stainless.Hair.{UnOp, BinOp, LogicalOp}
use rust_stainless.Extraction.{M}
use rust_stainless.Extraction.Types.{is_bv_type, is_signed_bv_type, is_bigint_type}
use rust_stainless.Extraction.Operators.{
  Adapted, adapted, bail, is_bool, widened, adapt, shift, shifted, extract_shift, extract_unary,
  if_bv, binary_of, is_shl, extract_binary, logical, int_ty_eq,
}
use rust_stainless.Extraction.Whole.{
  IsWhole, Clean, pure-Clean, fail-Clean, unsupported-Clean, if-Clean,
}

abbrev pub AdaptedWhole : Adapted → Type 0
AdaptedWhole (adapted e) = IsWhole e
AdaptedWhole (bail msg) = Unit

if_whole : {A : Type 0} (P : A → Type 0) {a b : A} (c : Bool) → P a → P b → P (if c then a else b)
if_whole P true p q = p
if_whole P false p q = q

widened_whole :
    (s : Bool) (v w : Option ℕ) (e : Value expr) → IsWhole e → AdaptedWhole (widened s v w e)
widened_whole s none w e h = tt
widened_whole s (some v) none e h = tt
widened_whole s (some v) (some w) e h =
    if_whole AdaptedWhole (ltb w v) (refl, (h, ((refl, (tt, (tt, tt))), tt))) tt

shift-IsWhole : (l s : Bool) (a b : Value expr) → IsWhole a → IsWhole b → IsWhole (shift l s a b)
shift-IsWhole true s a b h g = (refl, (h, (g, tt)))
shift-IsWhole false true a b h g = (refl, (h, (g, tt)))
shift-IsWhole false false a b h g = (refl, (h, (g, tt)))

adapt_whole : {D : Type 0} (t u : Ty D) (e : Value expr) → IsWhole e → AdaptedWhole (adapt t u e)
adapt_whole (Rustc.int v) (Rustc.int w) e h =
    if_whole AdaptedWhole (int_ty_eq v w) h (widened_whole true (bit_width v) (bit_width w) e h)
adapt_whole (Rustc.uint v) (Rustc.uint w) e h =
    if_whole AdaptedWhole (int_ty_eq v w) h (widened_whole false (bit_width v) (bit_width w) e h)
adapt_whole Rustc.bool u e h = tt
adapt_whole Rustc.str u e h = tt
adapt_whole Rustc.other u e h = tt
adapt_whole (Rustc.tuple us) u e h = tt
adapt_whole (Rustc.adt d us) u e h = tt
adapt_whole (Rustc.fn_def d us) u e h = tt
adapt_whole Rustc.closure u e h = tt
adapt_whole (Rustc.reference m r) u e h = tt
adapt_whole (Rustc.param i) u e h = tt
adapt_whole (Rustc.int v) Rustc.bool e h = tt
adapt_whole (Rustc.int v) Rustc.str e h = tt
adapt_whole (Rustc.int v) Rustc.other e h = tt
adapt_whole (Rustc.int v) (Rustc.uint w) e h = tt
adapt_whole (Rustc.int v) (Rustc.tuple us) e h = tt
adapt_whole (Rustc.int v) (Rustc.adt d us) e h = tt
adapt_whole (Rustc.int v) (Rustc.fn_def d us) e h = tt
adapt_whole (Rustc.int v) Rustc.closure e h = tt
adapt_whole (Rustc.int v) (Rustc.reference m r) e h = tt
adapt_whole (Rustc.int v) (Rustc.param i) e h = tt
adapt_whole (Rustc.uint v) Rustc.bool e h = tt
adapt_whole (Rustc.uint v) Rustc.str e h = tt
adapt_whole (Rustc.uint v) Rustc.other e h = tt
adapt_whole (Rustc.uint v) (Rustc.int w) e h = tt
adapt_whole (Rustc.uint v) (Rustc.tuple us) e h = tt
adapt_whole (Rustc.uint v) (Rustc.adt d us) e h = tt
adapt_whole (Rustc.uint v) (Rustc.fn_def d us) e h = tt
adapt_whole (Rustc.uint v) Rustc.closure e h = tt
adapt_whole (Rustc.uint v) (Rustc.reference m r) e h = tt
adapt_whole (Rustc.uint v) (Rustc.param i) e h = tt

module _ (rustc : Rustc) (U : List rustc.tcx.DefId) (k n : ℕ) (S : Type 0) where
  abbrev D : Type 0
  D = rustc.tcx.DefId

  shifted-Clean :
      {H : Type 0} (l s : Bool) (a : Value expr) (b : Adapted)
      → (H → IsWhole a)
      → (H → AdaptedWhole b)
      → Clean U k n S H IsWhole (shifted rustc l s a b)
  shifted-Clean l s a (adapted b) h g = pure-Clean U k n S λ q. shift-IsWhole l s a b (h q) (g q)
  shifted-Clean l s a (bail msg) h g = unsupported-Clean U k n S _

  shift-Clean :
      {H : Type 0} (t u : Ty D) (a b : Value expr) (l : Bool)
      → (H → IsWhole a × IsWhole b)
      → Clean U k n S H IsWhole (extract_shift rustc t u a b l)
  unfolding extract_shift
  shift-Clean t u a b l h =
      shifted-Clean l (is_signed_bv_type t) a (adapt t u b) (λ q. (h q).0)
        (λ q. adapt_whole t u b (h q).1)

  pub unary-Clean :
      {H : Type 0} (op : UnOp) (t : Ty D) (e : Value expr)
      → (H → IsWhole e)
      → Clean U k n S H IsWhole (extract_unary rustc op t e)
  unfolding extract_unary
  unary-Clean UnOp.not t e h =
      if-Clean U k n S (is_bv_type t) (pure-Clean U k n S λ q. (refl, (h q, tt))) (
        if-Clean U k n S (is_bool t) (pure-Clean U k n S λ q. (refl, (h q, tt)))
          (fail-Clean U k n S))
  unary-Clean UnOp.neg t e h =
      if-Clean U k n S (is_bv_type t || is_bigint_type rustc t)
        (pure-Clean U k n S λ q. (refl, (h q, tt))) (fail-Clean U k n S)

  if_bv-Clean :
      {H : Type 0} (b : Bool) (e : Value expr)
      → (H → IsWhole e)
      → Clean U k n S H IsWhole (if_bv rustc b e)
  if_bv-Clean b e h = if-Clean U k n S b (pure-Clean U k n S h) (unsupported-Clean U k n S _)

  binary_of-Clean :
      {H : Type 0} (op : BinOp) (bv : Bool) (s : M rustc.tcx (Value expr)) (a b : Value expr)
      → (H → IsWhole a × IsWhole b)
      → Clean U k n S H IsWhole s
      → Clean U k n S H IsWhole (binary_of rustc op bv s a b)
  binary_of-Clean BinOp.eq bv s a b h c = pure-Clean U k n S λ q. (refl, ((h q).0, ((h q).1, tt)))
  binary_of-Clean BinOp.ne bv s a b h c =
      pure-Clean U k n S λ q. (refl, ((refl, ((h q).0, ((h q).1, tt))), tt))
  binary_of-Clean BinOp.add bv s a b h c = if_bv-Clean bv _ λ q. (refl, ((h q).0, ((h q).1, tt)))
  binary_of-Clean BinOp.sub bv s a b h c = if_bv-Clean bv _ λ q. (refl, ((h q).0, ((h q).1, tt)))
  binary_of-Clean BinOp.mul bv s a b h c = if_bv-Clean bv _ λ q. (refl, ((h q).0, ((h q).1, tt)))
  binary_of-Clean BinOp.div bv s a b h c = if_bv-Clean bv _ λ q. (refl, ((h q).0, ((h q).1, tt)))
  binary_of-Clean BinOp.rem bv s a b h c = if_bv-Clean bv _ λ q. (refl, ((h q).0, ((h q).1, tt)))
  binary_of-Clean BinOp.lt bv s a b h c = if_bv-Clean bv _ λ q. (refl, ((h q).0, ((h q).1, tt)))
  binary_of-Clean BinOp.le bv s a b h c = if_bv-Clean bv _ λ q. (refl, ((h q).0, ((h q).1, tt)))
  binary_of-Clean BinOp.ge bv s a b h c = if_bv-Clean bv _ λ q. (refl, ((h q).0, ((h q).1, tt)))
  binary_of-Clean BinOp.gt bv s a b h c = if_bv-Clean bv _ λ q. (refl, ((h q).0, ((h q).1, tt)))
  binary_of-Clean BinOp.bit_xor bv s a b h c =
      if_bv-Clean bv _ λ q. (refl, ((h q).0, ((h q).1, tt)))
  binary_of-Clean BinOp.bit_and bv s a b h c =
      if_bv-Clean bv _ λ q. (refl, ((h q).0, ((h q).1, tt)))
  binary_of-Clean BinOp.bit_or bv s a b h c = if_bv-Clean bv _ λ q. (refl, ((h q).0, ((h q).1, tt)))
  binary_of-Clean BinOp.shl bv s a b h c = if-Clean U k n S bv c (unsupported-Clean U k n S _)
  binary_of-Clean BinOp.shr bv s a b h c = if-Clean U k n S bv c (unsupported-Clean U k n S _)
  binary_of-Clean BinOp.offset bv s a b h c = unsupported-Clean U k n S _

  pub binary-Clean :
      {H : Type 0} (op : BinOp) (t u : Ty D) (a b : Value expr)
      → (H → IsWhole a × IsWhole b)
      → Clean U k n S H IsWhole (extract_binary rustc op t u a b)
  unfolding extract_binary
  binary-Clean op t u a b h =
      if-Clean U k n S ((is_bv_type t && is_bv_type u) || (is_bool t && is_bool u))
        (binary_of-Clean op (is_bv_type t && is_bv_type u) _ a b h
          (shift-Clean t u a b (is_shl rustc op) h))
        (unsupported-Clean U k n S _)

  pub logical-IsWhole :
      (op : LogicalOp) (a b : Value expr) → IsWhole a → IsWhole b → IsWhole (logical rustc op a b)
  logical-IsWhole LogicalOp.and a b h g = (refl, ((h, (g, tt)), tt))
  logical-IsWhole LogicalOp.or a b h g = (refl, ((h, (g, tt)), tt))
