-- ===== src/Factory.antt =====
-- stainless_data/src/ast: how nodes are made. A function of `Factory` has the name of its struct.
pub mod Types
pub mod Definitions
pub mod Exprs
use rust_stainless.Ast.Kinds.{Group, Kind, FieldType}
use rust_stainless.Ast.Value.{Value, enum}

-- `derive_conversions_for_ast!`: a struct as a variant of its enum.
abbrev pub into : {g : Group} {k : Kind g} → Value (FieldType.struct g k) → Value (FieldType.enum g)
into {k = k} v = enum k v
