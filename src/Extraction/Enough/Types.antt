-- ===== src/Extraction/Enough/Types.antt =====
-- The extraction of types does not run out of fuel, as long as that of data types does not:
-- stainless_extraction/src/ty.rs.
use rust_stainless.Prelude.{ℕ, List, [], ◌∷◌, Bool, true, false, Option, none, some}
use rust_stainless.Ast.Identifier.{SymbolIdentifier}
use rust_stainless.Ast.Value.{Value}
use rust_stainless.Ast.Kinds.{tpe}
use rust_stainless.Registry.{get}
use rust_stainless.Rustc.{
  Rustc, Ty, Tys, Generics, GenericParam, Predicate, bit_width, no_tys, AllAdts, AllAdtsOf,
  AllAdtsIn, ParentsWithin,
}
use rust_stainless.Rustc
use rust_stainless.Extraction.{M}
use rust_stainless.Extraction.Measure.{Listed}
use rust_stainless.Extraction.Fine.{
  Fine, Any, bind-Fine, pure-Fine, fail-Fine, report-then-Fine, unwrap-Fine, if-Fine,
}
use rust_stainless.Extraction.Types.{
  TyParam, index_eq, is_bigint, extract_ty, extract_tys, extract_first, int_type, tuple_of,
  untyped_with, is_set_type,
}

module _ (rustc : Rustc) (U : List rustc.tcx.DefId) (k : ℕ)
    (extract_id : rustc.tcx.DefId → M (rustc.tcx) SymbolIdentifier)
    (fine : (d : rustc.tcx.DefId) → Listed d U → Fine U k Any (extract_id d)) where
  abbrev InU : rustc.tcx.DefId → Type 0
  InU d = Listed d U

  module _ (map : List (ℕ × TyParam)) where
    int_type-Fine : (b : Bool) (w : Option ℕ) → Fine U k Any (int_type rustc extract_id map b w)
    int_type-Fine b none = report-then-Fine U _ (pure-Fine U tt)
    int_type-Fine b (some w) = pure-Fine U tt

    untyped-Fine : {t : Value tpe} → Fine U k Any (untyped_with rustc extract_id map t)
    untyped-Fine = report-then-Fine U _ (pure-Fine U tt)

    tuple_of-Fine : (ts : List (Value tpe)) → Fine U k Any (tuple_of rustc extract_id map ts)
    tuple_of-Fine [] = pure-Fine U tt
    tuple_of-Fine (t ∷ []) = report-then-Fine U _ (pure-Fine U tt)
    tuple_of-Fine (t ∷ u ∷ ts) = pure-Fine U tt

    mutual
      unfolding extract_ty

      pub ty-Fine :
          (t : Ty (rustc.tcx.DefId))
          → AllAdts InU t
          → Fine U k Any (extract_ty rustc extract_id map t)
      ty-Fine Rustc.bool h = pure-Fine U tt
      ty-Fine Rustc.str h = untyped-Fine
      ty-Fine Rustc.other h = untyped-Fine
      ty-Fine (Rustc.int w) h = int_type-Fine true (bit_width w)
      ty-Fine (Rustc.uint w) h = int_type-Fine false (bit_width w)
      ty-Fine (Rustc.tuple tys) h = bind-Fine U (tys-Fine tys h) λ ts q. tuple_of-Fine ts
      ty-Fine (Rustc.adt d substs) h =
          let first = first-Fine substs h.1 in
          let args = tys-Fine substs h.1 in
          if-Fine U (is_bigint rustc d) (pure-Fine U tt) (
            if-Fine U (rustc.is_box d) first (
              if-Fine U (is_set_type (rustc.def_to_item d))
                (bind-Fine U first λ t q. pure-Fine U tt)
                (bind-Fine U (fine d h.0) λ id q. bind-Fine U args λ ts r. pure-Fine U tt)))
      ty-Fine (Rustc.fn_def d tys) h = untyped-Fine
      ty-Fine Rustc.closure h = untyped-Fine
      ty-Fine (Rustc.reference false t) h = ty-Fine t h
      ty-Fine (Rustc.reference true t) h = untyped-Fine
      ty-Fine (Rustc.param index) h =
          bind-Fine U (unwrap-Fine U (get index_eq map index)) λ t q. pure-Fine U tt

      pub tys-Fine :
          (ts : Tys (rustc.tcx.DefId))
          → AllAdtsOf InU ts
          → Fine U k Any (extract_tys rustc extract_id map ts)
      tys-Fine no_tys h = pure-Fine U tt
      tys-Fine (Rustc.ty t ts) h =
          bind-Fine U (ty-Fine t h.0)
            λ tpe q. bind-Fine U (tys-Fine ts h.1) λ tpes r. pure-Fine U tt

      first-Fine :
          (ts : Tys (rustc.tcx.DefId))
          → AllAdtsOf InU ts
          → Fine U k Any (extract_first rustc extract_id map ts)
      first-Fine no_tys h = fail-Fine U
      first-Fine (Rustc.ty t ts) h = ty-Fine t h.0
