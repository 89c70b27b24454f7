-- ===== src/Extraction/Exprs/Ifs.antt =====
-- Matches of two arms that `looks_like_if` of stainless_extraction/src/expr.rs takes for an `if`.
use rust_stainless.Prelude.{ℕ, ◌≡◌, refl, sym, ◌∙◌, List, Bool, true, false, some}
use rust_stainless.Prelude.Outcome.{Outcome, done}
use rust_stainless.Symbols.{AdtSort}
use rust_stainless.Rustc.{Rustc, Ty, Const}
use rust_stainless.Rustc
use rust_stainless.Prelude.Run.{Run}
use rust_stainless.Extraction.Literals.{Literal, try_from}
use rust_stainless.Hair.{
  Expr, ExprKind, OptExpr, Pat, Arms, pat, typed, constant, wild, match_on, no_expr, no_arms,
  and_arm,
}
use rust_stainless.Extraction.{M, Extraction}
use rust_stainless.Extraction.Types.{TyParam}
use rust_stainless.Extraction.Bindings.{DefContext}
use rust_stainless.Extraction.Blocks.{looks_like_if, has_else, strip_scopes}
use rust_stainless.Extraction.Exprs.{if_or_match, extract_expr}

-- Two arms, with their guards.
abbrev pub two_arms :
    {D H : Type 0} → Pat D H → OptExpr D H → Expr D H → Pat D H → OptExpr D H → Expr D H → Arms D H
two_arms p g then_ q h elze = and_arm p g then_ (and_arm q h elze no_arms)

looks_like_if-guards :
    {D H : Type 0} (s : Expr D H) (p : Pat D H) (g : OptExpr D H) (then_ : Expr D H) (q : Pat D H)
    (h : OptExpr D H) (elze : Expr D H)
    → looks_like_if s (two_arms p g then_ q h elze)
      ≡ looks_like_if s (two_arms p no_expr then_ q no_expr elze)
unfolding looks_like_if
looks_like_if-guards (typed t k) (pat u (constant c)) g then_ (pat v wild) h elze = refl
looks_like_if-guards (typed t k) p g then_ q h elze = refl

abbrev pub is_block : {D H : Type 0} → ExprKind D H → Bool
is_block (ExprKind.block b) = true
is_block _ = false

has_else-panicked :
    {D H : Type 0} (kind : ExprKind D H) → is_block kind ≡ false → has_else kind ≡ Outcome.panicked
has_else-panicked (ExprKind.block b) e = cc
has_else-panicked _ e = refl

looks_like_if-panicked :
    {D H : Type 0} (k : ExprKind D H) (u v : Ty D) (konst : Const D) (g : OptExpr D H)
    (then_ : Expr D H) (h : OptExpr D H) (elze : Expr D H)
    → try_from konst ≡ done (some (Literal.bool true))
    → is_block (strip_scopes elze) ≡ false
    → looks_like_if
        (typed Rustc.bool k)
        (two_arms (pat u (constant konst)) g then_ (pat v wild) h elze)
      ≡ Outcome.panicked
unfolding looks_like_if
looks_like_if-panicked k u v konst g then_ h elze c b =
    rw (c, has_else-panicked (strip_scopes elze) b) refl

module _ (rustc : Rustc) (extract_adt : rustc.tcx.DefId → M rustc.tcx AdtSort)
    (map : List (ℕ × TyParam)) (dcx : DefContext rustc) where
  -- Where a match of two arms is taken for an `if`, the guards of the arms are dropped: the extraction is that
  -- of the match without them, from each state.
  pub extract_expr-drops_guards :
      (t : Ty rustc.tcx.DefId) (s : Expr rustc.tcx.DefId rustc.tcx.HirId)
      (p : Pat rustc.tcx.DefId rustc.tcx.HirId) (g : OptExpr rustc.tcx.DefId rustc.tcx.HirId)
      (then_ : Expr rustc.tcx.DefId rustc.tcx.HirId) (q : Pat rustc.tcx.DefId rustc.tcx.HirId)
      (h : OptExpr rustc.tcx.DefId rustc.tcx.HirId) (elze : Expr rustc.tcx.DefId rustc.tcx.HirId)
      (has_elze : Bool)
      → looks_like_if s (two_arms p g then_ q h elze) ≡ done (some has_elze)
      → extract_expr rustc extract_adt map dcx (typed t (match_on s (two_arms p g then_ q h elze)))
        ≡ extract_expr rustc extract_adt map dcx
            (typed t (match_on s (two_arms p no_expr then_ q no_expr elze)))
  unfolding extract_expr if_or_match
  extract_expr-drops_guards t s p g then_ q h elze has_elze e =
      rw (e, sym (looks_like_if-guards s p g then_ q h elze) ∙ e) refl

  -- The extraction of a match on a Boolean with the arms `true` and `_` panics, from each state, if the body of
  -- the second arm is no block, in any scopes.
  pub extract_expr-else_panics :
      (t u v : Ty rustc.tcx.DefId) (k : ExprKind rustc.tcx.DefId rustc.tcx.HirId)
      (konst : Const rustc.tcx.DefId) (g : OptExpr rustc.tcx.DefId rustc.tcx.HirId)
      (then_ : Expr rustc.tcx.DefId rustc.tcx.HirId) (h : OptExpr rustc.tcx.DefId rustc.tcx.HirId)
      (elze : Expr rustc.tcx.DefId rustc.tcx.HirId) (xt : Extraction rustc.tcx)
      → try_from konst ≡ done (some (Literal.bool true))
      → is_block (strip_scopes elze) ≡ false
      → extract_expr rustc extract_adt map dcx
          (typed t (
            match_on
              (typed Rustc.bool k)
              (two_arms (pat u (constant konst)) g then_ (pat v wild) h elze)))
          xt
        ≡ Run.panicked
  unfolding extract_expr
  extract_expr-else_panics t u v k konst g then_ h elze xt c b =
      rw (looks_like_if-panicked k u v konst g then_ h elze c b) refl
