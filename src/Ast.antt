-- ===== src/Ast.antt =====
-- stainless_data/src/ast.rs and ast/: the Stainless AST and its serialization.
pub mod Kinds
pub mod Markers
pub mod Distinct
pub mod Shapes
pub mod Identifier
pub mod Value
pub mod Serialize
pub mod Encoding
pub mod Encodable
pub mod PrefixCode
pub mod Serialized
