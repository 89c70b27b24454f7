-- ===== src/Extraction/Whole/Exprs.antt =====
-- What `extract_expr` of stainless_extraction/src/expr.rs returns without a report has no holes.
use rust_stainless.Prelude.{
  ℕ, refl, List, [], ◌∷◌, ◌++◌, Bool, true, false, ◌&&◌, Option, none, some, All,
}
use rust_stainless.Ast.Kinds.{expr, FieldType}
use rust_stainless.Ast.Value.{Value, option_of}
use rust_stainless.Symbols.{AdtSort}
use rust_stainless.Rustc.{Rustc, AllAdts}
use rust_stainless.Hair.{
  Expr, ExprKind, Exprs, FieldExprs, OptExpr, Block, Stmts, Arms, typed, literal, unary, binary,
  logical_op, field, var_ref, call, adt, match_on, scope, use_of, never_to_any, borrow, no_exprs,
  and_expr, no_fields, and_field, no_expr, an_expr, stmts, no_stmts, let_stmt, expr_stmt, no_arms,
  and_arm, type_of, kind_of, ExprIn, ExprsIn, FieldExprsIn, OptExprIn, BlockIn, StmtsIn, ArmsIn,
}
use rust_stainless.Extraction.{M}
use rust_stainless.Extraction.Measure.{Listed}
use rust_stainless.Extraction.Fine.{Fine, Any}
use rust_stainless.Extraction.Types.{TyParam, to_type}
use rust_stainless.Extraction.Bindings.{Variable, DefContext}
use rust_stainless.Extraction.Literals.{Literal, try_from}
use rust_stainless.Extraction.Operators.{is_bool}
use rust_stainless.Extraction.Patterns.{Result, ok, err}
use rust_stainless.Extraction.Blocks.{finish, let_of, looks_like_if}
use rust_stainless.Extraction.Exprs.{
  Case, literal_of, if_of, if_or_match, optional, or_unit, extract_expr, extract_all,
  extract_fields, extract_opt, bodies_of, extract_arms, extract_block, extract_stmts,
}
use rust_stainless.Extraction.Whole.{
  IsWhole, elems_whole, Clean, bind-Clean, pure-Clean, fail-Clean, given-Clean, unsupported-Clean,
  if-Clean, assert-then-Clean, raise-Clean,
}
use rust_stainless.Extraction.Whole.Patterns.{
  literal-IsWhole, ResultWhole, fetch-Clean, try-Clean, pattern-Clean,
}
use rust_stainless.Extraction.Whole.Operators.{unary-Clean, binary-Clean, logical-IsWhole}
use rust_stainless.Extraction.Whole.Calls.{
  sequence-Clean, call_like-Clean, tuple-Clean, field-Clean, construction-Clean,
}

finish-IsWhole :
    (acc : List (Value expr)) (e : Value expr)
    → All IsWhole acc
    → IsWhole e
    → IsWhole (finish acc e)
finish-IsWhole [] e a h = h
finish-IsWhole (x ∷ xs) e a h = (refl, (elems_whole (x ∷ xs) a, (h, tt)))

snoc-All :
    (acc : List (Value expr)) (e : Value expr)
    → All IsWhole acc
    → IsWhole e
    → All IsWhole (acc ++ e ∷ [])
snoc-All [] e a h = (h, tt)
snoc-All (x ∷ xs) e a h = (a.0, snoc-All xs e a.1 h)

abbrev GuardWhole : Option (Value expr) → Type 0
GuardWhole none = Unit
GuardWhole (some e) = IsWhole e

guard_whole : (g : Option (Value expr)) → GuardWhole g → IsWhole (option_of g)
guard_whole none h = tt
guard_whole (some e) h = h

type_in : {D V : Type 0} (P : D → Type 0) (e : Expr D V) → ExprIn P e → AllAdts P (type_of e)
type_in P (typed t kind) u = u.0

module _ (rustc : Rustc) (U : List rustc.tcx.DefId) (k n : ℕ) (S : Type 0)
    (extract_adt : rustc.tcx.DefId → M rustc.tcx AdtSort)
    (fine : (d : rustc.tcx.DefId) → Listed d U → Fine U k Any (extract_adt d))
    (map : List (ℕ × TyParam)) (whole : S → All (λ p. IsWhole (to_type p.1)) map)
    (dcx : DefContext rustc) (bound_whole : S → All (λ p. IsWhole p.1) dcx) where
  abbrev InU : rustc.tcx.DefId → Type 0
  InU d = Listed d U

  abbrev D : Type 0
  D = rustc.tcx.DefId

  abbrev V : Type 0
  V = rustc.tcx.HirId

  abbrev E : Type 0
  E = M rustc.tcx (Value expr)

  abbrev IsClean : {t : FieldType} → M rustc.tcx (Value t) → Type 0
  IsClean m = Clean U k n S Unit IsWhole m

  abbrev OptClean : Option E → Type 0
  OptClean none = Unit
  OptClean (some m) = IsClean m

  literal-Clean :
      {H : Type 0} (lit : Option Literal)
      → Clean U k n S H IsWhole (literal_of rustc extract_adt map dcx lit)
  literal-Clean none = unsupported-Clean U k n S _
  literal-Clean (some lit) = pure-Clean U k n S λ q. literal-IsWhole lit

  if_of-Clean :
      {H : Type 0} (b : Bool) (c t e : E)
      → IsClean c
      → IsClean t
      → IsClean e
      → Clean U k n S H IsWhole (if_of rustc extract_adt map dcx b c t e)
  if_of-Clean b c t e f g h = bind-Clean U k n S (given-Clean U k n S (λ h. tt) f) λ x.
      bind-Clean U k n S (given-Clean U k n S (λ h. tt) g) λ y.
        bind-Clean U k n S
          (if-Clean U k n S b (given-Clean U k n S (λ h. tt) h)
            (pure-Clean U k n S λ q. (refl, tt)))
          λ z. pure-Clean U k n S λ q. (refl, (q.0.0.1, (q.0.1, (q.1, tt))))

  if_or_match-Clean :
      {H : Type 0} (o : Option Bool) (s : E) (bodies : List E) (cases : List (M rustc.tcx Case))
      → IsClean s
      → All IsClean bodies
      → All IsClean cases
      → Clean U k n S H IsWhole (if_or_match rustc extract_adt map dcx o s bodies cases)
  unfolding if_or_match
  if_or_match-Clean (some b) s [] cases c a g = fail-Clean U k n S
  if_or_match-Clean (some b) s (t ∷ []) cases c a g = fail-Clean U k n S
  if_or_match-Clean (some b) s (t ∷ e ∷ rest) cases c a g = if_of-Clean b s t e c a.0 a.1.0
  if_or_match-Clean none s bodies cases c a g =
      bind-Clean U k n S (given-Clean U k n S (λ h. tt) c) λ x.
        bind-Clean U k n S
          (sequence-Clean rustc U k n S extract_adt fine map whole dcx bound_whole cases g)
          λ cs. pure-Clean U k n S λ q. (refl, (q.0.1, (elems_whole cs q.1, tt)))

  optional-Clean :
      {H : Type 0} (o : Option E)
      → OptClean o
      → Clean U k n S H GuardWhole (optional rustc extract_adt map dcx o)
  optional-Clean none c = pure-Clean U k n S λ q. tt
  optional-Clean (some m) c =
      bind-Clean U k n S (given-Clean U k n S (λ h. tt) c) λ e. pure-Clean U k n S λ q. q.1

  or_unit-Clean :
      {H : Type 0} (o : Option E)
      → OptClean o
      → Clean U k n S H IsWhole (or_unit rustc extract_adt map dcx o)
  or_unit-Clean none c = pure-Clean U k n S λ q. (refl, tt)
  or_unit-Clean (some m) c = given-Clean U k n S (λ h. tt) c

  -- A `let` of a block, or what is left of the block where it has none.
  let_of-Clean :
      {H : Type 0} (r : Result Variable) (init : Option E) (acc : List (Value expr)) (rest : E)
      → OptClean init
      → Clean U k n S H IsWhole rest
      → (H → All IsWhole acc × ResultWhole r)
      → Clean U k n S H IsWhole (let_of {tcx = rustc.tcx} r init acc rest)
  let_of-Clean (err reason) init acc rest c d h = unsupported-Clean U k n S _
  let_of-Clean (ok v) none acc rest c d h = unsupported-Clean U k n S _
  let_of-Clean (ok v) (some m) acc rest c d h =
      bind-Clean U k n S (given-Clean U k n S (λ h. tt) c) λ e.
        bind-Clean U k n S (given-Clean U k n S (λ q. q.0) d) λ body. pure-Clean U k n S λ q.
          finish-IsWhole acc _ (h q.0.0).0 (refl, ((refl, ((h q.0.0).1, tt)), (q.0.1, (q.1, tt))))

  mutual
    unfolding extract_expr

    pub expr-Clean :
        (e : Expr D V) → ExprIn InU e → IsClean (extract_expr rustc extract_adt map dcx e)
    expr-Clean (typed t (literal konst)) u =
        bind-Clean U k n S (raise-Clean U k n S (try_from konst)) λ lit. literal-Clean lit
    expr-Clean (typed t (unary op arg)) u =
        bind-Clean U k n S (expr-Clean arg u.1)
          λ e. unary-Clean rustc U k n S op (type_of arg) e λ q. q.1
    expr-Clean (typed t (binary op a b)) u = bind-Clean U k n S (expr-Clean a u.1.0) λ x.
        bind-Clean U k n S (given-Clean U k n S (λ h. tt) (expr-Clean b u.1.1))
          λ y. binary-Clean rustc U k n S op (type_of a) (type_of b) x y λ q. (q.0.1, q.1)
    expr-Clean (typed t (logical_op op a b)) u =
        bind-Clean U k n S
          (assert-then-Clean U k n S (is_bool (type_of a) && is_bool (type_of b))
            (expr-Clean a u.1.0))
          λ x.
            bind-Clean U k n S (given-Clean U k n S (λ h. tt) (expr-Clean b u.1.1))
              λ y. pure-Clean U k n S λ q. logical-IsWhole rustc U k n S op x y q.0.1 q.1
    expr-Clean (typed t (ExprKind.tuple es)) u =
        tuple-Clean rustc U k n S extract_adt fine map whole dcx bound_whole _ (all-Clean es u.1)
    expr-Clean (typed t (field lhs index)) u =
        field-Clean rustc U k n S extract_adt fine map whole dcx bound_whole (type_of lhs) index _
          (type_in InU lhs u.1) (expr-Clean lhs u.1)
    expr-Clean (typed t (var_ref id)) u =
        bind-Clean U k n S (fetch-Clean rustc U k n S extract_adt fine map whole dcx bound_whole id)
          λ v. pure-Clean U k n S λ q. q.1
    expr-Clean (typed t (call f args)) u =
        call_like-Clean rustc U k n S extract_adt fine map whole dcx bound_whole f _ u.1.0
          (all-Clean args u.1.1)
    expr-Clean (typed t (adt d index substs fields base)) u =
        construction-Clean rustc U k n S extract_adt fine map whole dcx bound_whole d index substs _
          base u.1.0 u.1.1 (fields-Clean fields u.1.2)
    expr-Clean (typed t (ExprKind.block b)) u = block-Clean b u.1
    expr-Clean (typed t (match_on s arms)) u =
        bind-Clean U k n S (raise-Clean U k n S (looks_like_if s arms)) λ is_if.
          if_or_match-Clean is_if _ _ _ (expr-Clean s u.1.0) (bodies-Clean arms u.1.1)
            (arms-Clean arms u.1.1)
    expr-Clean (typed t (scope e)) u = expr-Clean e u.1
    expr-Clean (typed t (use_of e)) u = expr-Clean e u.1
    expr-Clean (typed t (never_to_any e)) u = expr-Clean e u.1
    expr-Clean (typed t (ExprKind.deref e)) u = expr-Clean e u.1
    expr-Clean (typed t (borrow true e)) u = expr-Clean e u.1
    expr-Clean (typed t (borrow false e)) u = unsupported-Clean U k n S _
    expr-Clean (typed t ExprKind.other) u = unsupported-Clean U k n S _

    all-Clean :
        (es : Exprs D V) → ExprsIn InU es → All IsClean (extract_all rustc extract_adt map dcx es)
    all-Clean no_exprs u = tt
    all-Clean (and_expr e es) u = (expr-Clean e u.0, all-Clean es u.1)

    fields-Clean :
        (fs : FieldExprs D V)
        → FieldExprsIn InU fs
        → All (λ f. IsClean f.1) (extract_fields rustc extract_adt map dcx fs)
    fields-Clean no_fields u = tt
    fields-Clean (and_field index e fs) u = (expr-Clean e u.0, fields-Clean fs u.1)

    opt-Clean :
        (o : OptExpr D V) → OptExprIn InU o → OptClean (extract_opt rustc extract_adt map dcx o)
    opt-Clean no_expr u = tt
    opt-Clean (an_expr e) u = expr-Clean e u

    bodies-Clean :
        (arms : Arms D V) → ArmsIn InU arms → All IsClean (bodies_of rustc extract_adt map dcx arms)
    bodies-Clean no_arms u = tt
    bodies-Clean (and_arm p guard body arms) u = (expr-Clean body u.2, bodies-Clean arms u.3)

    arms-Clean :
        (arms : Arms D V)
        → ArmsIn InU arms
        → All IsClean (extract_arms rustc extract_adt map dcx arms)
    arms-Clean no_arms u = tt
    arms-Clean (and_arm p guard body arms) u = (
      bind-Clean U k n S
          (pattern-Clean rustc U k n S extract_adt fine map whole dcx bound_whole p none (λ q. tt)
            u.0)
          λ pattern. bind-Clean U k n S (optional-Clean _ (opt-Clean guard u.1)) λ g.
            bind-Clean U k n S (given-Clean U k n S (λ h. tt) (expr-Clean body u.2))
              λ e. pure-Clean U k n S λ q. (refl, (q.0.0.1, (guard_whole g q.0.1, (q.1, tt)))),
      arms-Clean arms u.3,
    )

    block-Clean :
        (b : Block D V) → BlockIn InU b → IsClean (extract_block rustc extract_adt map dcx b)
    block-Clean (stmts false ss final) u = unsupported-Clean U k n S _
    block-Clean (stmts true ss final) u =
        bind-Clean U k n S (or_unit-Clean _ (opt-Clean final u.1))
          λ e. given-Clean U k n S (λ q. (tt, q.1)) (stmts-Clean ss [] e u.0)

    stmts-Clean :
        (ss : Stmts D V) (acc : List (Value expr)) (final : Value expr)
        → StmtsIn InU ss
        → Clean U k n S
            (All IsWhole acc × IsWhole final)
            IsWhole
            (extract_stmts rustc extract_adt map dcx ss acc final)
    stmts-Clean no_stmts acc final u = pure-Clean U k n S λ q. finish-IsWhole acc final q.0 q.1
    stmts-Clean (expr_stmt e ss) acc final u =
        bind-Clean U k n S (given-Clean U k n S (λ h. tt) (expr-Clean e u.0)) λ v.
          given-Clean U k n S (λ q. (snoc-All acc v q.0.0 q.1, q.0.1))
            (stmts-Clean ss (acc ++ v ∷ []) final u.1)
    stmts-Clean (let_stmt p init ss) acc final u =
        bind-Clean U k n S
          (try-Clean rustc U k n S extract_adt fine map whole dcx bound_whole (kind_of p) false)
          λ r.
            let_of-Clean r _ acc _ (opt-Clean init u.0)
              (given-Clean U k n S (λ q. (tt, q.0.1)) (stmts-Clean ss [] final u.1))
              λ q. (q.0.0, q.1)
