-- ===== src/Ast/Serialize.antt =====
-- stainless_data/src/ser/serializable.rs, ast.rs and ast/generated.rs: the implementations of
-- `Serializable`. Those of the structs are alike: the marker, then the fields in their order.
-- `BigInt::to_signed_bytes_be` is of the crate num_bigint, so it is a parameter.
use rust_stainless.Prelude.{ℕ, Bool, ◌%◌, ◌^◌, List, length}
use rust_stainless.Prelude.Int.{ℤ}
use rust_stainless.Ser.{
  Bytes, Ser, ◌>>◌, skip, write, write_u8, write_u16, write_u32, write_bool, write_marker,
  write_length, serialize_int, primitive_marker, option_marker, seq_marker, set_marker, map_marker,
  tuple_marker, boolean_id, char_id, string_id, bigint_id,
}
use rust_stainless.Ast.Kinds.{FieldType, FieldTypes}
use rust_stainless.Ast.Markers.{marker}
use rust_stainless.Ast.Identifier.{SymbolIdentifier}
use rust_stainless.Ast.Value.{
  Value, Fields, Elems, Entries, boolean, char, int, string, bigint, symbol, none, some, seq, set,
  map, tuple, struct, enum, [], ◌∷◌, no_elems, elem, no_entries, entry, arity, count, size,
}

unfoldable pub serialize_bool : Bool → Ser
serialize_bool b = do write_marker primitive_marker; write_u8 boolean_id; write_bool b

-- `(*self) as u16`
unfoldable pub serialize_char : ℕ → Ser
serialize_char c = do write_marker primitive_marker; write_u8 char_id; write_u16 (c % 2 ^ 16)

unfoldable pub serialize_string : Bytes → Ser
serialize_string s = do
  write_marker primitive_marker
  write_u8 string_id
  write_u32 (length s % 2 ^ 32)
  write s

unfoldable pub serialize_strings : List Bytes → Ser
serialize_strings List.[] = skip
serialize_strings (List.◌∷◌ s ss) = do serialize_string s; serialize_strings ss

-- The sequence of `symbol_path`, a `Seq<String>`.
unfoldable pub serialize_path : List Bytes → Ser
serialize_path ss = do write_marker seq_marker; write_length (length ss); serialize_strings ss

-- The identifier is written as the tuple (globalId, id, symbol_path, globalId).
unfoldable pub serialize_symbol : SymbolIdentifier → Ser
serialize_symbol s = do
  write_marker 145
  write_marker tuple_marker
  write_u8 4
  serialize_int s.id.global_id
  serialize_int s.id.id
  serialize_path s.symbol_path
  serialize_int s.id.global_id

module _ (to_signed_bytes_be : ℤ → Bytes) where
  unfoldable pub serialize_bigint : ℤ → Ser
  serialize_bigint z = do
    write_marker primitive_marker
    write_u8 bigint_id
    write_u32 (length (to_signed_bytes_be z) % 2 ^ 32)
    write (to_signed_bytes_be z)

  unfoldable mutual
    pub serialize : {t : FieldType} → Value t → Ser
    serialize (boolean b) = serialize_bool b
    serialize (char c) = serialize_char c
    serialize (int n) = serialize_int n
    serialize (string s) = serialize_string s
    serialize (bigint z) = serialize_bigint z
    serialize (symbol s) = serialize_symbol s
    serialize none = do write_marker option_marker; write_u8 0
    serialize (some v) = do write_marker option_marker; write_u8 1; serialize v
    serialize (seq vs) = do write_marker seq_marker; write_length (count vs); serialize_elems vs
    serialize (set vs) = do write_marker set_marker; write_length (count vs); serialize_elems vs
    serialize (map es) = do write_marker map_marker; write_length (size es); serialize_entries es
    serialize (tuple vs) = do write_marker tuple_marker; write_u8 (arity vs); serialize_fields vs
    serialize (struct {g} {k} vs) = do write_marker (marker g k); serialize_fields vs
    serialize (enum k v) = serialize v

    pub serialize_fields : {ts : FieldTypes} → Fields ts → Ser
    serialize_fields [] = skip
    serialize_fields (v ∷ vs) = do serialize v; serialize_fields vs

    pub serialize_elems : {t : FieldType} → Elems t → Ser
    serialize_elems no_elems = skip
    serialize_elems (elem v vs) = do serialize v; serialize_elems vs

    pub serialize_entries : {k v : FieldType} → Entries k v → Ser
    serialize_entries no_entries = skip
    serialize_entries (entry a b es) = do serialize a; serialize b; serialize_entries es
