-- ===== src/Tests/Guarded.antt =====
-- Matches on a Boolean that are taken for an `if`, and the theorems about them.
use rust_stainless.Prelude.{ℕ, ◌≡◌, refl, [], true, false, some, none}
use rust_stainless.Prelude.Outcome.{done}
use rust_stainless.Prelude.Run.{panicked}
use rust_stainless.Extraction.{new}
use rust_stainless.Extraction.Literals.{Literal, try_from}
use rust_stainless.Extraction.Adts.{extract_adt}
use rust_stainless.Extraction.Blocks.{looks_like_if, strip_scopes}
use rust_stainless.Extraction.Exprs.{extract_expr}
use rust_stainless.Extraction.Exprs.Ifs.{
  two_arms, is_block, extract_expr-drops_guards, extract_expr-else_panics,
}
use rust_stainless.Rustc.{Const, no_tys}
use rust_stainless.Rustc
use rust_stainless.Hair.{
  Expr, OptExpr, Pat, pat, typed, constant, wild, match_on, no_expr, an_expr, var_ref, stmts,
  no_stmts,
}
use rust_stainless.Hair
use rust_stainless.Tests.Bodies.{crate, rustc, scope}

abbrev truth : Const ℕ
truth = record { const_ty = Rustc.bool; try_to_bits = λ w. some 1; slice = none }

abbrev x : Expr ℕ ℕ
x = typed Rustc.bool (var_ref 5)

abbrev unit_block : Expr ℕ ℕ
unit_block = typed (Rustc.tuple no_tys) (Hair.block (stmts true no_stmts no_expr))

abbrev is_true : Pat ℕ ℕ
is_true = pat Rustc.bool (constant truth)

abbrev otherwise : Pat ℕ ℕ
otherwise = pat Rustc.bool wild

truth_run : try_from truth ≡ done (some (Literal.bool true))
unfolding try_from
truth_run = refl

block_run : is_block (strip_scopes x) ≡ false
unfolding strip_scopes
block_run = refl

guarded_run :
    looks_like_if x (two_arms is_true (an_expr x) unit_block otherwise no_expr unit_block)
    ≡ done (some false)
unfolding looks_like_if
guarded_run = refl

extract_expr-drops_guards_example :
    extract_expr rustc (extract_adt rustc 0 2) [] scope (
      typed
        (Rustc.tuple no_tys)
        (match_on x (two_arms is_true (an_expr x) unit_block otherwise no_expr unit_block)))
    ≡ extract_expr rustc (extract_adt rustc 0 2) [] scope (
        typed
          (Rustc.tuple no_tys)
          (match_on x (two_arms is_true no_expr unit_block otherwise no_expr unit_block)))
extract_expr-drops_guards_example =
    extract_expr-drops_guards rustc (extract_adt rustc 0 2) [] scope (Rustc.tuple no_tys) x is_true
      (an_expr x) unit_block otherwise no_expr unit_block false guarded_run

-- `match x { true => {}, _ => x }`.
extract_expr-else_panics_example :
    extract_expr rustc
      (extract_adt rustc 0 2)
      []
      scope
      (typed
        (Rustc.tuple no_tys)
        (match_on x (two_arms is_true no_expr unit_block otherwise no_expr x)))
      (new crate)
    ≡ panicked
extract_expr-else_panics_example =
    extract_expr-else_panics rustc (extract_adt rustc 0 2) [] scope (Rustc.tuple no_tys) Rustc.bool
      Rustc.bool (var_ref 5) truth no_expr unit_block no_expr x (new crate) truth_run block_run
