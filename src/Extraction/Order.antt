-- ===== src/Extraction/Order.antt =====
-- The order in which the data types of a crate are extracted: `extract_adt` and the loop of
-- `process_crate` of stainless_extraction/src/krate.rs.
use rust_stainless.Prelude.{ℕ, suc, ◌≡◌, refl, none, some}
use rust_stainless.Prelude.Outcome.{Outcome}
use rust_stainless.Prelude.Run.{panicked}
use rust_stainless.Ast.Identifier.{SymbolIdentifier}
use rust_stainless.Registry.{SymbolMapping, get_id_from_def, register_def}
use rust_stainless.Rustc.{Rustc}
use rust_stainless.Extraction.{M, Extraction, get_sort, with_mapping, continue_with}
use rust_stainless.Extraction.Measure.{register_def-new}
use rust_stainless.Extraction.Adts.{extract_adt}

module _ (rustc : Rustc) where
  panics :
      {B : Type 0} (xt : Extraction rustc.tcx) (f : SymbolIdentifier → M (rustc.tcx) B)
      (o : Outcome (SymbolIdentifier × SymbolMapping rustc.tcx))
      → ((id : SymbolIdentifier) (after : SymbolMapping rustc.tcx)
          → ¬ (o ≡ Outcome.done (id, after)))
      → continue_with f (with_mapping xt o) ≡ panicked
  panics xt f (Outcome.done (id, after)) h = absurd (h id after refl)
  panics xt f Outcome.panicked h = refl

  -- A data type that has an id and no sort cannot be extracted: `register_def` panics. The fuel is not 0.
  pub extract_adt-no_sort :
      (depth fuel : ℕ) (def_id : rustc.tcx.DefId) (id : SymbolIdentifier)
      (xt : Extraction rustc.tcx)
      → get_id_from_def rustc.tcx def_id xt.mapping ≡ some id
      → get_sort xt.adts id ≡ none
      → extract_adt rustc depth (suc fuel) def_id xt ≡ panicked
  unfolding extract_adt
  extract_adt-no_sort depth fuel def_id id xt r n =
      rw
        (
          r,
          n,
          panics xt _ (register_def rustc.tcx def_id xt.mapping)
              (λ j after e. cc (r, (register_def-new rustc.tcx def_id xt.mapping after j e).0)),
        )
        refl
