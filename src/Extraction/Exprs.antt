-- ===== src/Extraction/Exprs.antt =====
-- stainless_extraction/src/expr.rs: the extraction of expressions, over their parts in Operators,
-- Patterns, Calls and Blocks.
pub mod Ifs
use rust_stainless.Prelude.{
  ℕ, suc, ◌+◌, List, [], ◌∷◌, ◌++◌, Bool, true, false, ◌&&◌, ◌||◌, Option, none, some,
  if◌then◌else◌,
}
use rust_stainless.Prelude.Outcome.{Outcome}
use rust_stainless.Prelude.Texts.{codes}
use rust_stainless.Ast.Kinds.{expr, oth, OtherKind}
use rust_stainless.Ast.Value.{Value}
use rust_stainless.Factory.{into}
use rust_stainless.Factory.Exprs.{unit_literal, if_expr, match_expr}
use rust_stainless.Factory.Definitions.{match_case}
use rust_stainless.Symbols.{AdtSort}
use rust_stainless.Rustc.{Rustc}
use rust_stainless.Hair.{
  Expr, ExprKind, Exprs, FieldExprs, OptExpr, Block, Stmts, Arms, typed, literal, unary, binary,
  logical_op, field, var_ref, call, adt, match_on, scope, use_of, never_to_any, borrow, no_exprs,
  and_expr, no_fields, and_field, no_expr, an_expr, stmts, no_stmts, let_stmt, expr_stmt, no_arms,
  and_arm, type_of, kind_of,
}
use rust_stainless.Hair
use rust_stainless.Extraction.{M, pure, fail, assert, raise, ◌>>=◌, ◌>>◌}
use rust_stainless.Extraction.Types.{TyParam}
use rust_stainless.Extraction.Bindings.{DefContext}
use rust_stainless.Extraction.Literals.{Literal, as_st_literal, try_from}
use rust_stainless.Extraction.Operators.{
  is_bool, unsupported_expr, extract_unary, extract_binary, logical,
}
use rust_stainless.Extraction.Patterns.{fetch_var, try_pattern_to_var, extract_pattern}
use rust_stainless.Extraction.Calls.{
  sequence, extract_call_like, extract_tuple, extract_field, extract_adt_construction,
}
use rust_stainless.Extraction.Blocks.{finish, let_of, looks_like_if}

abbrev pub Case : Type 0
Case = Value (oth OtherKind.match_case)

module _ (rustc : Rustc) (extract_adt : rustc.tcx.DefId → M rustc.tcx AdtSort)
    (index_to_tparam : List (ℕ × TyParam)) (dcx : DefContext rustc) where
  open rustc use {tcx}

  abbrev E : Type 0
  E = M tcx (Value expr)

  abbrev D : Type 0
  D = tcx.DefId

  abbrev H : Type 0
  H = tcx.HirId

  abbrev pub literal_of : Option Literal → E
  literal_of none = unsupported_expr (codes "Unsupported kind of literal")
  literal_of (some lit) = pure (as_st_literal lit)

  -- `extract_if`, where there may be no `else` branch.
  abbrev pub if_of : Bool → E → E → E → E
  if_of has_elze cond then_ elze = cond >>= λ c. then_ >>= λ t.
      (if has_elze then elze else pure (into unit_literal)) >>= λ e. pure (into (if_expr c t e))

  -- `extract_if` or `extract_match`, with the bodies and the cases of the arms.
  unfoldable pub if_or_match : Option Bool → E → List E → List (M tcx Case) → E
  unfolding sequence
  if_or_match (some has_elze) scrutinee (then_ ∷ elze ∷ rest) cases =
      if_of has_elze scrutinee then_ elze
  if_or_match (some has_elze) scrutinee _ cases = fail
  if_or_match none scrutinee bodies cases = scrutinee >>= λ s.
      sequence rustc extract_adt index_to_tparam dcx cases >>= λ cs. pure (into (match_expr s cs))

  -- A guard.
  abbrev pub optional : Option E → M tcx (Option (Value expr))
  optional none = pure none
  optional (some e) = e >>= λ v. pure (some v)

  abbrev pub or_unit : Option E → E
  or_unit none = pure (into unit_literal)
  or_unit (some e) = e

  unfoldable mutual
    unfolding extract_unary extract_binary extract_call_like extract_tuple extract_field
        extract_adt_construction looks_like_if if_or_match extract_pattern try_pattern_to_var
        try_from

    -- `extract_expr`
    pub extract_expr : Expr D H → E
    extract_expr (typed t (literal konst)) = raise (try_from konst) >>= literal_of
    extract_expr (typed t (unary op arg)) =
        extract_expr arg >>= λ e. extract_unary rustc op (type_of arg) e
    extract_expr (typed t (binary op arg1 arg2)) = extract_expr arg1 >>= λ a.
        extract_expr arg2 >>= λ b. extract_binary rustc op (type_of arg1) (type_of arg2) a b
    extract_expr (typed t (logical_op op arg1 arg2)) =
        assert (is_bool (type_of arg1) && is_bool (type_of arg2)) >> extract_expr arg1 >>= λ a.
        extract_expr arg2 >>= λ b. pure (logical rustc op a b)
    extract_expr (typed t (ExprKind.tuple fields)) =
        extract_tuple rustc extract_adt index_to_tparam dcx (extract_all fields)
    extract_expr (typed t (field lhs index)) =
        extract_field rustc extract_adt index_to_tparam dcx (type_of lhs) index (extract_expr lhs)
    extract_expr (typed t (var_ref id)) =
        fetch_var rustc extract_adt index_to_tparam dcx id >>= λ v. pure (into v)
    extract_expr (typed t (call f args)) =
        extract_call_like rustc extract_adt index_to_tparam dcx f (extract_all args)
    extract_expr (typed t (adt did index substs fields has_base)) =
        extract_adt_construction rustc extract_adt index_to_tparam dcx did index substs
          (extract_fields fields) has_base
    extract_expr (typed t (ExprKind.block b)) = extract_block b
    extract_expr (typed t (match_on scrutinee arms)) =
        raise (looks_like_if scrutinee arms) >>= λ is_if.
        if_or_match is_if (extract_expr scrutinee) (bodies_of arms) (extract_arms arms)
    extract_expr (typed t (scope e)) = extract_expr e
    extract_expr (typed t (use_of e)) = extract_expr e
    extract_expr (typed t (never_to_any e)) = extract_expr e
    extract_expr (typed t (ExprKind.deref e)) = extract_expr e
    extract_expr (typed t (borrow true e)) = extract_expr e
    extract_expr (typed t _) = unsupported_expr (codes "Cannot extract expr kind")

    -- What extracts each of some expressions.
    pub extract_all : Exprs D H → List E
    extract_all no_exprs = []
    extract_all (and_expr e es) = extract_expr e ∷ extract_all es

    pub extract_fields : FieldExprs D H → List (ℕ × E)
    extract_fields no_fields = []
    extract_fields (and_field index e fields) = (index, extract_expr e) ∷ extract_fields fields

    pub extract_opt : OptExpr D H → Option E
    extract_opt no_expr = none
    extract_opt (an_expr e) = some (extract_expr e)

    pub bodies_of : Arms D H → List E
    bodies_of no_arms = []
    bodies_of (and_arm p guard body arms) = extract_expr body ∷ bodies_of arms

    -- `extract_arm` of each arm.
    pub extract_arms : Arms D H → List (M tcx Case)
    extract_arms no_arms = []
    extract_arms (and_arm p guard body arms) =
        (extract_pattern rustc extract_adt index_to_tparam dcx p none >>= λ pattern.
        optional (extract_opt guard) >>= λ g.
        extract_expr body >>= λ e. pure (match_case pattern g e))
        ∷ extract_arms arms

    -- `extract_block`: the final expression comes first.
    pub extract_block : Block D H → E
    extract_block (stmts false ss final) = unsupported_expr (codes "Cannot extract unsafe block")
    extract_block (stmts true ss final) =
        or_unit (extract_opt final) >>= λ final_expr. extract_stmts ss [] final_expr

    -- `extract_block_`
    pub extract_stmts : Stmts D H → List (Value expr) → Value expr → E
    extract_stmts no_stmts acc_exprs final_expr = pure (finish acc_exprs final_expr)
    extract_stmts (let_stmt p init ss) acc_exprs final_expr =
        try_pattern_to_var rustc extract_adt index_to_tparam dcx (kind_of p) false >>= λ var_result.
        let_of var_result (extract_opt init) acc_exprs (extract_stmts ss [] final_expr)
    extract_stmts (expr_stmt e ss) acc_exprs final_expr =
        extract_expr e >>= λ v. extract_stmts ss (acc_exprs ++ v ∷ []) final_expr
