-- ===== src/Ast/Markers.antt =====
-- The marker of a struct, in one function over the groups.
mod Expr
mod Rest
unfoldable pub use Expr.*
unfoldable pub use Rest.*
use rust_stainless.Prelude.{ℕ}
use rust_stainless.Ast.Kinds.{Group, Kind, definition, flag, expression, type, pattern, other}

unfoldable pub marker : (g : Group) → Kind g → ℕ
unfolding definition_marker flag_marker expr_marker type_marker pattern_marker other_marker
marker definition k = definition_marker k
marker flag k = flag_marker k
marker expression k = expr_marker k
marker type k = type_marker k
marker pattern k = pattern_marker k
marker other k = other_marker k
