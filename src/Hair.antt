-- ===== src/Hair.antt =====
-- The trees of rustc_hair that the extraction reads: bodies as expressions, blocks, arms and patterns. A
-- reference to a subtree is the subtree itself, what `mirror` makes of it. Kinds that the extraction does
-- not tell apart are `other`. `D` are the definitions and `H` the ids of variables.
use rust_stainless.Prelude.{ℕ, Bool}
use rust_stainless.Rustc.{Ty, Tys, Const, AllAdts, AllAdtsOf}
use rust_stainless.Rustc

pub data UnOp : Type 0 where
  not neg : UnOp

pub data BinOp : Type 0 where
  eq ne add sub mul div rem lt le ge gt bit_xor bit_and bit_or shl shr offset : BinOp

pub data LogicalOp : Type 0 where
  and or : LogicalOp

-- `BindingMode`
pub data Mode : Type 0 where
  by_value by_shared_ref by_other_ref : Mode

mutual
  pub data Pat (D H : Type 0) : Type 0 where
    pat : Ty D → PatKind D H → Pat D H

  -- The flag of a binding says that it is mutable.
  pub data PatKind (D H : Type 0) : Type 0 where
    wild other : PatKind D H
    binding : Bool → Mode → H → OptPat D H → PatKind D H
    variant : D → ℕ → Tys D → FieldPats D H → PatKind D H
    leaf : FieldPats D H → PatKind D H
    constant : Const D → PatKind D H
    deref ascribe : Pat D H → PatKind D H

  pub data OptPat (D H : Type 0) : Type 0 where
    no_pat : OptPat D H
    a_pat : Pat D H → OptPat D H

  pub data FieldPats (D H : Type 0) : Type 0 where
    no_pats : FieldPats D H
    and_pat : ℕ → Pat D H → FieldPats D H → FieldPats D H

mutual
  -- `Expr`, with its type.
  pub data Expr (D H : Type 0) : Type 0 where
    typed : Ty D → ExprKind D H → Expr D H

  -- A data type is built by its definition, the index of the variant, the type arguments, the fields and
  -- whether there is a base.
  pub data ExprKind (D H : Type 0) : Type 0 where
    literal : Const D → ExprKind D H
    unary : UnOp → Expr D H → ExprKind D H
    binary : BinOp → Expr D H → Expr D H → ExprKind D H
    logical_op : LogicalOp → Expr D H → Expr D H → ExprKind D H
    tuple : Exprs D H → ExprKind D H
    field : Expr D H → ℕ → ExprKind D H
    var_ref : H → ExprKind D H
    call : Ty D → Exprs D H → ExprKind D H
    adt : D → ℕ → Tys D → FieldExprs D H → Bool → ExprKind D H
    block : Block D H → ExprKind D H
    match_on : Expr D H → Arms D H → ExprKind D H
    scope use_of never_to_any deref : Expr D H → ExprKind D H
    borrow : Bool → Expr D H → ExprKind D H
    other : ExprKind D H

  pub data Exprs (D H : Type 0) : Type 0 where
    no_exprs : Exprs D H
    and_expr : Expr D H → Exprs D H → Exprs D H

  pub data FieldExprs (D H : Type 0) : Type 0 where
    no_fields : FieldExprs D H
    and_field : ℕ → Expr D H → FieldExprs D H → FieldExprs D H

  pub data OptExpr (D H : Type 0) : Type 0 where
    no_expr : OptExpr D H
    an_expr : Expr D H → OptExpr D H

  -- The flag says that the block is safe.
  pub data Block (D H : Type 0) : Type 0 where
    stmts : Bool → Stmts D H → OptExpr D H → Block D H

  pub data Stmts (D H : Type 0) : Type 0 where
    no_stmts : Stmts D H
    let_stmt : Pat D H → OptExpr D H → Stmts D H → Stmts D H
    expr_stmt : Expr D H → Stmts D H → Stmts D H

  -- A pattern, a guard and a body each.
  pub data Arms (D H : Type 0) : Type 0 where
    no_arms : Arms D H
    and_arm : Pat D H → OptExpr D H → Expr D H → Arms D H → Arms D H

abbrev pub kind_of : {D H : Type 0} → Pat D H → PatKind D H
kind_of (pat t k) = k

abbrev pub type_of : {D H : Type 0} → Expr D H → Ty D
type_of (typed t k) = t

-- Each data type that a pattern is about or is typed with is as `P` says.
abbrev mutual
  pub PatIn : {D H : Type 0} → (D → Type 0) → Pat D H → Type 0
  PatIn P (pat t kind) = AllAdts P t × PatKindIn P kind

  pub PatKindIn : {D H : Type 0} → (D → Type 0) → PatKind D H → Type 0
  PatKindIn P (binding m mode h inner) = OptPatIn P inner
  PatKindIn P (variant d index substs subs) = P d × AllAdtsOf P substs × FieldPatsIn P subs
  PatKindIn P (leaf subs) = FieldPatsIn P subs
  PatKindIn P (PatKind.deref p) = PatIn P p
  PatKindIn P _ = Unit

  pub OptPatIn : {D H : Type 0} → (D → Type 0) → OptPat D H → Type 0
  OptPatIn P no_pat = Unit
  OptPatIn P (a_pat p) = PatIn P p

  pub FieldPatsIn : {D H : Type 0} → (D → Type 0) → FieldPats D H → Type 0
  FieldPatsIn P no_pats = Unit
  FieldPatsIn P (and_pat index p rest) = PatIn P p × FieldPatsIn P rest

-- The type arguments of a function.
abbrev pub FnIn : {D : Type 0} → (D → Type 0) → Ty D → Type 0
FnIn P (Rustc.fn_def d substs) = AllAdtsOf P substs
FnIn P _ = Unit

-- The same of expressions.
abbrev mutual
  pub ExprIn : {D H : Type 0} → (D → Type 0) → Expr D H → Type 0
  ExprIn P (typed t kind) = AllAdts P t × ExprKindIn P kind

  pub ExprKindIn : {D H : Type 0} → (D → Type 0) → ExprKind D H → Type 0
  ExprKindIn P (unary op e) = ExprIn P e
  ExprKindIn P (binary op a b) = ExprIn P a × ExprIn P b
  ExprKindIn P (logical_op op a b) = ExprIn P a × ExprIn P b
  ExprKindIn P (ExprKind.tuple es) = ExprsIn P es
  ExprKindIn P (field e index) = ExprIn P e
  ExprKindIn P (call f args) = FnIn P f × ExprsIn P args
  ExprKindIn P (adt d index substs fields base) = P d × AllAdtsOf P substs × FieldExprsIn P fields
  ExprKindIn P (block b) = BlockIn P b
  ExprKindIn P (match_on e arms) = ExprIn P e × ArmsIn P arms
  ExprKindIn P (scope e) = ExprIn P e
  ExprKindIn P (use_of e) = ExprIn P e
  ExprKindIn P (never_to_any e) = ExprIn P e
  ExprKindIn P (ExprKind.deref e) = ExprIn P e
  ExprKindIn P (borrow shared e) = ExprIn P e
  ExprKindIn P _ = Unit

  pub ExprsIn : {D H : Type 0} → (D → Type 0) → Exprs D H → Type 0
  ExprsIn P no_exprs = Unit
  ExprsIn P (and_expr e es) = ExprIn P e × ExprsIn P es

  pub FieldExprsIn : {D H : Type 0} → (D → Type 0) → FieldExprs D H → Type 0
  FieldExprsIn P no_fields = Unit
  FieldExprsIn P (and_field index e fields) = ExprIn P e × FieldExprsIn P fields

  pub OptExprIn : {D H : Type 0} → (D → Type 0) → OptExpr D H → Type 0
  OptExprIn P no_expr = Unit
  OptExprIn P (an_expr e) = ExprIn P e

  pub BlockIn : {D H : Type 0} → (D → Type 0) → Block D H → Type 0
  BlockIn P (stmts safe ss final) = StmtsIn P ss × OptExprIn P final

  pub StmtsIn : {D H : Type 0} → (D → Type 0) → Stmts D H → Type 0
  StmtsIn P no_stmts = Unit
  StmtsIn P (let_stmt p init ss) = OptExprIn P init × StmtsIn P ss
  StmtsIn P (expr_stmt e ss) = ExprIn P e × StmtsIn P ss

  pub ArmsIn : {D H : Type 0} → (D → Type 0) → Arms D H → Type 0
  ArmsIn P no_arms = Unit
  ArmsIn P (and_arm p guard body arms) =
      PatIn P p × OptExprIn P guard × ExprIn P body × ArmsIn P arms
