-- ===== src/Extraction/Blocks.antt =====
-- stainless_extraction/src/expr.rs: the blocks that are built of statements, and the detection of `if`.
use rust_stainless.Prelude.{
  List, [], ◌∷◌, Bool, true, false, Option, none, some, if◌then◌else◌, not,
}
use rust_stainless.Prelude.Outcome.{Outcome, done, panicked, ◌>>=◌}
use rust_stainless.Prelude.Texts.{codes}
use rust_stainless.Ast.Kinds.{expr}
use rust_stainless.Ast.Value.{Value}
use rust_stainless.Factory.{into}
use rust_stainless.Factory.Types.{untyped}
use rust_stainless.Factory.Definitions.{val_def}
use rust_stainless.Factory.Exprs.{block, let_expr, no_tree}
use rust_stainless.Registry.{Tcx}
use rust_stainless.Hair.{
  Expr, ExprKind, Block, Arms, typed, pat, no_arms, and_arm, constant, wild, stmts, no_stmts,
  no_expr, scope,
}
use rust_stainless.Extraction.{M, pure, unsupported}
use rust_stainless.Extraction
use rust_stainless.Extraction.Bindings.{Variable}
use rust_stainless.Extraction.Literals.{Literal, try_from}
use rust_stainless.Extraction.Operators.{is_bool}
use rust_stainless.Extraction.Patterns.{Result, ok, err}

-- The closure `finish` of `extract_block_`.
abbrev pub finish : List (Value expr) → Value expr → Value expr
finish [] final_expr = final_expr
finish (e ∷ es) final_expr = into (block (e ∷ es) final_expr)

module _ {tcx : Tcx} where
  infixl 5 ◌then◌
  abbrev ◌then◌ : {A B : Type 0} → M tcx A → (A → M tcx B) → M tcx B
  m then f = Extraction.◌>>=◌ m f

  -- The closure `bail`: what is left of the block is dropped.
  abbrev pub bail : List (Value expr) → M tcx (Value expr)
  bail acc_exprs = unsupported (codes "Cannot extract let") then λ u.
      pure (into (block acc_exprs (into (no_tree (into untyped)))))

  -- The `let` case of `extract_block_`, with the initializer and the rest of the block.
  abbrev pub let_of :
      Result Variable
      → Option (M tcx (Value expr))
      → List (Value expr)
      → M tcx (Value expr)
      → M tcx (Value expr)
  let_of (err reason) init acc_exprs rest = bail acc_exprs
  let_of (ok v) none acc_exprs rest = bail acc_exprs
  let_of (ok v) (some init) acc_exprs rest = init then λ e.
      rest then λ body_expr. pure (finish acc_exprs (into (let_expr (val_def v) e body_expr)))

abbrev pub if_true : Option Literal → Outcome (Option Bool) → Outcome (Option Bool)
if_true (some (Literal.bool true)) e = e
if_true _ e = done none

module _ {D H : Type 0} where
  -- `strip_scopes`
  unfoldable pub strip_scopes : Expr D H → ExprKind D H
  strip_scopes (typed t (scope e)) = strip_scopes e
  strip_scopes (typed t kind) = kind

  abbrev pub is_empty_block : Block D H → Bool
  is_empty_block (stmts safe no_stmts no_expr) = true
  is_empty_block _ = false

  -- Whether there is an `else` branch; it is a block.
  abbrev pub has_else : ExprKind D H → Outcome (Option Bool)
  has_else (ExprKind.block b) = done (some (not (is_empty_block b)))
  has_else _ = panicked

  -- `looks_like_if`
  unfoldable pub looks_like_if : Expr D H → Arms D H → Outcome (Option Bool)
  unfolding strip_scopes try_from
  looks_like_if (typed t kind)
        (and_arm (pat t₁ (constant konst)) g₁ then_ (and_arm (pat t₂ wild) g₂ elze no_arms)) =
      if is_bool t
      then (try_from konst >>= λ lit. if_true lit (has_else (strip_scopes elze)))
      else done none
  looks_like_if _ _ = done none
