-- ===== src/Ast/Shapes.antt =====
-- The fields of a struct, in one function over the groups.
mod Expr
mod Rest
pub use Expr.*
pub use Rest.*
use rust_stainless.Ast.Kinds.{
  Group, Kind, FieldTypes, definition, flag, expression, type, pattern, other,
}

abbrev pub fields : (g : Group) → Kind g → FieldTypes
fields definition k = definition_fields k
fields flag k = flag_fields k
fields expression k = expr_fields k
fields type k = type_fields k
fields pattern k = pattern_fields k
fields other k = other_fields k
