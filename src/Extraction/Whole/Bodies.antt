-- ===== src/Extraction/Whole/Bodies.antt =====
-- Bodies of functions as a whole: `extract_expr` of stainless_extraction/src/expr.rs with `extract_adt` of
-- stainless_extraction/src/krate.rs for the data types that they name.
use rust_stainless.Prelude.{ℕ, ◌≤◌, ◌<◌, ◌≡◌, ◌≢◌, subst, List, true, All, length, arith}
use rust_stainless.Prelude.Run.{Run, returned, panicked, exhausted}
use rust_stainless.Ast.Kinds.{expr}
use rust_stainless.Ast.Value.{Value}
use rust_stainless.Rustc.{Rustc}
use rust_stainless.Hair.{Expr, ExprIn}
use rust_stainless.Extraction.{Extraction}
use rust_stainless.Extraction.Measure.{Listed, missing}
use rust_stainless.Extraction.Fine.{Grows}
use rust_stainless.Extraction.Fuel.{Closed, IteratesEntries, adt-Fine}
use rust_stainless.Extraction.Types.{TyParam, to_type}
use rust_stainless.Extraction.Adts.{extract_adt}
use rust_stainless.Extraction.Bindings.{DefContext}
use rust_stainless.Extraction.Exprs.{extract_expr}
use rust_stainless.Extraction.Whole.{IsWhole, CleanRun}
use rust_stainless.Extraction.Whole.Exprs.{expr-Clean}

-- The types of the parameters in scope, and the variables in scope, have no holes.
pub record WholeScope (rustc : Rustc) (index_to_tparam : List (ℕ × TyParam))
    (dcx : DefContext rustc) : Type 0 where
  pub params_whole : All (λ p. IsWhole (to_type p.1)) index_to_tparam
  pub vars_whole : All (λ p. IsWhole p.1) dcx

module _ (rustc : Rustc) (U : List rustc.tcx.DefId) (n : ℕ) (S : Type 0) where
  clean-ends :
      {A : Type 0} (Q : A → Type 0) (before : Extraction rustc.tcx)
      (r : Run (A × Extraction rustc.tcx))
      → CleanRun U 0 n S Q before r
      → r ≢ exhausted
  clean-ends Q before (returned p) c e = cc
  clean-ends Q before panicked c e = cc
  clean-ends Q before exhausted c e = c

-- The extraction of an expression, with the data types that it names, ends with a value or a panic. The data
-- types are in a closed list `U`, and the fuel for them is larger than the number of definitions of `U` that
-- have no id yet. Equality of definitions is reflexive, and iterating over a hash map yields its entries only.
pub extract_expr-ends :
    (rustc : Rustc) (depth : ℕ) (U : List rustc.tcx.DefId)
    → ((d : rustc.tcx.DefId) → rustc.tcx.def_eq d d ≡ true)
    → IteratesEntries rustc
    → Closed rustc depth U
    → (index_to_tparam : List (ℕ × TyParam)) (dcx : DefContext rustc) (fuel : ℕ)
      (e : Expr rustc.tcx.DefId rustc.tcx.HirId) (xt : Extraction rustc.tcx)
    → ExprIn (λ d. Listed d U) e
    → missing rustc.tcx U xt.mapping < fuel
    → extract_expr rustc (extract_adt rustc depth fuel) index_to_tparam dcx e xt ≢ exhausted
extract_expr-ends rustc depth U reflexive iterates closed map dcx fuel e xt u l =
    clean-ends rustc U (length xt.diagnostics) ⊥ IsWhole xt _ (
      (expr-Clean rustc U (missing rustc.tcx U xt.mapping) (length xt.diagnostics) ⊥
          (extract_adt rustc depth fuel)
          (λ d v. adt-Fine rustc U depth reflexive iterates closed fuel _ d l v) map (λ s. absurd s)
          dcx (λ s. absurd s) e u).clean
        xt (omega arith) (omega arith) (λ s few. tt))

-- If the extraction of an expression returns without another report, then there is no `NoTree` and no
-- `Untyped` in the tree that it returns. There are none in the types and variables in scope; the data
-- types are in a closed list `U` and the fuel is enough for them. Equality of definitions is reflexive,
-- and iterating over a hash map yields its entries only.
pub extract_expr-IsWhole :
    (rustc : Rustc) (depth : ℕ) (U : List rustc.tcx.DefId)
    → ((d : rustc.tcx.DefId) → rustc.tcx.def_eq d d ≡ true)
    → IteratesEntries rustc
    → Closed rustc depth U
    → (index_to_tparam : List (ℕ × TyParam)) (dcx : DefContext rustc) (fuel : ℕ)
      (e : Expr rustc.tcx.DefId rustc.tcx.HirId) (xt after : Extraction rustc.tcx)
      (tree : Value expr)
    → WholeScope rustc index_to_tparam dcx
    → ExprIn (λ d. Listed d U) e
    → missing rustc.tcx U xt.mapping < fuel
    → extract_expr rustc (extract_adt rustc depth fuel) index_to_tparam dcx e xt
      ≡ returned (tree, after)
    → length after.diagnostics ≤ length xt.diagnostics
    → IsWhole tree
extract_expr-IsWhole rustc depth U reflexive iterates closed map dcx fuel e xt after tree w u l r
      few =
    let c =
      (expr-Clean rustc U (missing rustc.tcx U xt.mapping) (length xt.diagnostics) Unit
          (extract_adt rustc depth fuel)
          (λ d v. adt-Fine rustc U depth reflexive iterates closed fuel _ d l v) map
          (λ s. w.params_whole) dcx (λ s. w.vars_whole) e u).clean
        xt (omega arith) (omega arith) (λ s few. tt) in
    (subst (CleanRun U 0 (length xt.diagnostics) Unit IsWhole xt) r c).1 tt few

-- The extraction of an expression that returns has changed neither the data types nor the functions that are
-- done, has forgotten no id and has taken back no report. The data types are in a closed list `U` and the
-- fuel is enough for them. Equality of definitions is reflexive, and iterating over a hash map yields its
-- entries only.
pub extract_expr-Grows :
    (rustc : Rustc) (depth : ℕ) (U : List rustc.tcx.DefId)
    → ((d : rustc.tcx.DefId) → rustc.tcx.def_eq d d ≡ true)
    → IteratesEntries rustc
    → Closed rustc depth U
    → (index_to_tparam : List (ℕ × TyParam)) (dcx : DefContext rustc) (fuel : ℕ)
      (e : Expr rustc.tcx.DefId rustc.tcx.HirId) (xt after : Extraction rustc.tcx)
      (tree : Value expr)
    → ExprIn (λ d. Listed d U) e
    → missing rustc.tcx U xt.mapping < fuel
    → extract_expr rustc (extract_adt rustc depth fuel) index_to_tparam dcx e xt
      ≡ returned (tree, after)
    → Grows xt after
extract_expr-Grows rustc depth U reflexive iterates closed map dcx fuel e xt after tree u l r =
    let c =
      (expr-Clean rustc U (missing rustc.tcx U xt.mapping) (length xt.diagnostics) ⊥
          (extract_adt rustc depth fuel)
          (λ d v. adt-Fine rustc U depth reflexive iterates closed fuel _ d l v) map (λ s. absurd s)
          dcx (λ s. absurd s) e u).clean
        xt (omega arith) (omega arith) (λ s few. tt) in
    (subst (CleanRun U 0 (length xt.diagnostics) ⊥ IsWhole xt) r c).0
