-- ===== src/Symbols.antt =====
-- stainless_data/src/ast.rs: the program that is serialized, `Symbols`. A `HashMap` keyed by
-- identifiers is the list of its values in the order of iteration, with one value for each key;
-- identifiers are compared by their global id, an `i32`.
pub mod Stable
pub mod Determined
use rust_stainless.Prelude.{
  ℕ, ◌+◌, ◌-◌, ◌%◌, ◌^◌, List, [], ◌∷◌, Bool, true, false, ◌==◌, if◌then◌else◌, length,
}
use rust_stainless.Prelude.Outcome.{Outcome, done, panicked, ◌>>=◌}
use rust_stainless.Prelude.Sorting.{sort}
use rust_stainless.Prelude.Int.{ℤ}
use rust_stainless.Ser.{
  Bytes, Ser, ◌>>◌, write, write_marker, serialize_int, serialization_buffer_marker,
  new as new_buffer,
}
use rust_stainless.Ast.Kinds.{FieldType, FieldTypes, ε, ◌▹◌, DefinitionKind, def}
use rust_stainless.Ast.Identifier.{SymbolIdentifier, symbol_eq}
use rust_stainless.Ast.Value.{Value, elems_of, struct, symbol, seq, tuple}
use rust_stainless.Ast.Value
use rust_stainless.Ast.Serialize.{serialize}

abbrev pub AdtSort : Type 0
AdtSort = Value (def DefinitionKind.adt_sort)

abbrev pub FunDef : Type 0
FunDef = Value (def DefinitionKind.fun_def)

-- The field `id`.
abbrev pub sort_id : AdtSort → SymbolIdentifier
sort_id (struct (Value.◌∷◌ (symbol s) rest)) = s

abbrev pub fun_id : FunDef → SymbolIdentifier
fun_id (struct (Value.◌∷◌ (symbol s) rest)) = s

pub record Symbols : Type 0 where
  pub sorts : List AdtSort
  pub functions : List FunDef

module _ {A : Type 0} (id : A → SymbolIdentifier) where
  -- `map.insert(v.id, v)`: a value that is there under an equal key is replaced.
  unfoldable pub insert : List A → A → List A
  insert [] v = v ∷ []
  insert (w ∷ ws) v = if symbol_eq (id w) (id v) then v ∷ ws else w ∷ insert ws v

  unfoldable pub insert_all : List A → List A → List A
  unfolding insert symbol_eq
  insert_all map [] = map
  insert_all map (v ∷ vs) = insert_all (insert map v) vs

-- `Symbols::new`
unfoldable pub new : List AdtSort → List FunDef → Symbols
unfolding insert_all
new sorts functions = record {
  sorts = insert_all sort_id [] sorts;
  functions = insert_all fun_id [] functions;
}

-- `Ord for SymbolIdentifier` compares the global ids as signed numbers: the order of the bit patterns
-- with the sign bit flipped.
abbrev pub signed_key : SymbolIdentifier → ℕ
signed_key s = (s.id.global_id + 2 ^ 31) % 2 ^ 32

-- `impl Serializable for SerializationBuffer` (ser/serializable.rs)
unfoldable pub serialize_buffer : Bytes → Ser
serialize_buffer inner = do
  write_marker serialization_buffer_marker
  serialize_int (length inner % 2 ^ 32)
  write inner

-- The pair `(functions, sorts)` of the sorted values.
unfoldable pub sorted_pair :
    Symbols
    → Value (
        FieldType.tuple (
          FieldType.seq (def DefinitionKind.fun_def)
          ▹ FieldType.seq (def DefinitionKind.adt_sort)
          ▹ ε))
sorted_pair s = tuple (
    Value.◌∷◌ (seq (elems_of (sort (λ f. signed_key (fun_id f)) s.functions)))
      (Value.◌∷◌ (seq (elems_of (sort (λ d. signed_key (sort_id d)) s.sorts))) Value.[]))

-- `impl Serializable for Symbols`
unfoldable pub serialize_symbols : (ℤ → Bytes) → Symbols → Ser
unfolding sorted_pair serialize_buffer
serialize_symbols to_signed_bytes_be s buf =
    serialize to_signed_bytes_be (sorted_pair s) new_buffer >>= λ inner. serialize_buffer inner buf
