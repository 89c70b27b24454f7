-- ===== src/Extraction/Whole/Types.antt =====
-- The types that `extract_ty` of stainless_extraction/src/ty.rs returns without a report have no holes.
use rust_stainless.Prelude.{
  ℕ, ◌≡◌, refl, subst, List, [], ◌∷◌, Bool, true, false, Option, none, some, All, Bool-cases, inl,
  inr,
}
use rust_stainless.Ast.Kinds.{tpe}
use rust_stainless.Ast.Identifier.{SymbolIdentifier}
use rust_stainless.Ast.Value.{Value}
use rust_stainless.Registry.{get}
use rust_stainless.StdItems.Tables.{some-injective}
use rust_stainless.Rustc.{Rustc, Ty, Tys, bit_width, no_tys, AllAdts, AllAdtsOf}
use rust_stainless.Rustc
use rust_stainless.Extraction.{M}
use rust_stainless.Extraction.Measure.{Listed}
use rust_stainless.Extraction.Fine.{Fine, Any}
use rust_stainless.Extraction.Types.{
  TyParam, to_type, index_eq, is_bigint, extract_ty, extract_tys, extract_first, int_type, tuple_of,
  untyped_with, is_set_type,
}
use rust_stainless.Extraction.Whole.{
  IsWhole, elems_whole, Clean, bind-Clean, pure-Clean, fail-Clean, Fine-Clean, unsupported-Clean,
  unwrap-Clean, if-Clean,
}

-- A value that is found in a map is one of its values.
pub get-All :
    {K V : Type 0} (eq : K → K → Bool) (P : V → Type 0) (map : List (K × V)) (key : K) (v : V)
    → All (λ p. P p.1) map
    → get eq map key ≡ some v
    → P v
get-All eq P [] key v a e = cc
get-All eq P ((j, w) ∷ map) key v a e = elim (Bool-cases (eq j key)) [
  | inl y ↦ subst P (some-injective (rw y at e)) a.0
  | inr m ↦ get-All eq P map key v a.1 (rw m at e)
]

module _ (rustc : Rustc) (U : List rustc.tcx.DefId) (k n : ℕ) (S : Type 0)
    (extract_id : rustc.tcx.DefId → M (rustc.tcx) SymbolIdentifier)
    (fine : (d : rustc.tcx.DefId) → Listed d U → Fine U k Any (extract_id d))
    (map : List (ℕ × TyParam)) (whole : S → All (λ p. IsWhole (to_type p.1)) map) where
  abbrev InU : rustc.tcx.DefId → Type 0
  InU d = Listed d U

  module _ {H : Type 0} where
    untyped-Clean : {t : Value tpe} → Clean U k n S H IsWhole (untyped_with rustc extract_id map t)
    untyped-Clean = unsupported-Clean U k n S _

    int_type-Clean :
        (b : Bool) (w : Option ℕ) → Clean U k n S H IsWhole (int_type rustc extract_id map b w)
    int_type-Clean b none = untyped-Clean
    int_type-Clean b (some w) = pure-Clean U k n S λ h. (refl, (tt, (tt, tt)))

  tuple_of-Clean :
      {H : Type 0} (ts : List (Value tpe))
      → Clean U k n S (H × All IsWhole ts) IsWhole (tuple_of rustc extract_id map ts)
  tuple_of-Clean [] = pure-Clean U k n S λ h. (refl, tt)
  tuple_of-Clean (t ∷ []) = unsupported-Clean U k n S _
  tuple_of-Clean (t ∷ u ∷ ts) = pure-Clean U k n S λ h. (refl, (elems_whole (t ∷ u ∷ ts) h.1, tt))

  mutual
    unfolding extract_ty

    pub ty-Clean :
        {H : Type 0} (t : Ty rustc.tcx.DefId)
        → AllAdts InU t
        → Clean U k n S H IsWhole (extract_ty rustc extract_id map t)
    ty-Clean Rustc.bool h = pure-Clean U k n S λ h. (refl, tt)
    ty-Clean Rustc.str h = untyped-Clean
    ty-Clean Rustc.other h = untyped-Clean
    ty-Clean (Rustc.int w) h = int_type-Clean true (bit_width w)
    ty-Clean (Rustc.uint w) h = int_type-Clean false (bit_width w)
    ty-Clean (Rustc.tuple tys) h = bind-Clean U k n S (tys-Clean tys h) λ ts. tuple_of-Clean ts
    ty-Clean (Rustc.adt d substs) h =
        if-Clean U k n S (is_bigint rustc d) (pure-Clean U k n S λ q. (refl, tt)) (
          if-Clean U k n S (rustc.is_box d) (first-Clean substs h.1) (
            if-Clean U k n S (is_set_type (rustc.def_to_item d))
              (bind-Clean U k n S (first-Clean substs h.1)
                λ t. pure-Clean U k n S λ q. (refl, (q.1, tt)))
              (bind-Clean U k n S (Fine-Clean U k n S (fine d h.0)) λ id.
                bind-Clean U k n S (tys-Clean substs h.1)
                  λ ts. pure-Clean U k n S λ q. (refl, (tt, (elems_whole ts q.1, tt))))))
    ty-Clean (Rustc.fn_def d tys) h = untyped-Clean
    ty-Clean Rustc.closure h = untyped-Clean
    ty-Clean (Rustc.reference false t) h = ty-Clean t h
    ty-Clean (Rustc.reference true t) h = untyped-Clean
    ty-Clean (Rustc.param index) h =
        bind-Clean U k n S
          (unwrap-Clean U k n S {Q = λ p. IsWhole (to_type p)} (get index_eq map index)
            (λ s p e. get-All index_eq (λ p. IsWhole (to_type p)) map index p (whole s) e))
          λ t. pure-Clean U k n S λ q. q.1

    pub tys-Clean :
        {H : Type 0} (ts : Tys rustc.tcx.DefId)
        → AllAdtsOf InU ts
        → Clean U k n S H (All IsWhole) (extract_tys rustc extract_id map ts)
    tys-Clean no_tys h = pure-Clean U k n S λ q. tt
    tys-Clean (Rustc.ty t ts) h =
        bind-Clean U k n S (ty-Clean t h.0)
          λ a. bind-Clean U k n S (tys-Clean ts h.1) λ as_. pure-Clean U k n S λ q. (q.0.1, q.1)

    first-Clean :
        {H : Type 0} (ts : Tys rustc.tcx.DefId)
        → AllAdtsOf InU ts
        → Clean U k n S H IsWhole (extract_first rustc extract_id map ts)
    first-Clean no_tys h = fail-Clean U k n S
    first-Clean (Rustc.ty t ts) h = ty-Clean t h.0
