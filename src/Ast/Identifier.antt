-- ===== src/Ast/Identifier.antt =====
-- stainless_data/src/ast/generated.rs: `Identifier` and `SymbolIdentifier`. Both are compared by
-- their global id alone. A string is the list of its UTF-8 bytes; an `Int` is the bit pattern of an
-- `i32`, below 2 ^ 32.
use rust_stainless.Prelude.{ℕ, List, Bool, ◌==◌}
use rust_stainless.Ser.{Bytes}

pub record Identifier : Type 0 where
  pub name : Bytes
  pub global_id : ℕ
  pub id : ℕ

pub record SymbolIdentifier : Type 0 where
  pub id : Identifier
  pub symbol_path : List Bytes

-- `PartialEq for SymbolIdentifier`
unfoldable pub symbol_eq : SymbolIdentifier → SymbolIdentifier → Bool
symbol_eq a b = a.id.global_id == b.id.global_id
