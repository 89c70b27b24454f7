-- ===== src/Ast/Encoding.antt =====
-- The encoding of a value as a plain list of bytes, and when the serializer panics.
pub mod Serialized
use rust_stainless.Prelude.{ℕ, ◌%◌, ◌^◌, Bool, true, ◌&&◌, List, ◌++◌, leb, length}
use rust_stainless.Prelude.Int.{ℤ}
use rust_stainless.Ser.{
  Bytes, to_be_bytes, bool_byte, primitive_marker, integer_id, option_marker, seq_marker,
  set_marker, map_marker, tuple_marker, boolean_id, char_id, string_id, bigint_id, i32_max,
}
use rust_stainless.Ser.Laws.{encode_length}
use rust_stainless.Ast.Kinds.{FieldType, FieldTypes}
use rust_stainless.Ast.Markers.{marker}
use rust_stainless.Ast.Identifier.{SymbolIdentifier}
use rust_stainless.Ast.Value.{
  Value, Fields, Elems, Entries, boolean, char, int, string, bigint, symbol, none, some, seq, set,
  map, tuple, struct, enum, [], ◌∷◌, no_elems, elem, no_entries, entry, arity, count, size,
}

infixr 67 ◌⊳◌
abbrev ◌⊳◌ : ℕ → Bytes → Bytes
b ⊳ bs = List.◌∷◌ b bs

abbrev pub nil : Bytes
nil = List.[]

abbrev pub encode_bool : Bool → Bytes
encode_bool b = primitive_marker ⊳ boolean_id ⊳ bool_byte b ⊳ nil

abbrev pub encode_char : ℕ → Bytes
encode_char c = primitive_marker ⊳ char_id ⊳ to_be_bytes 2 (c % 2 ^ 16)

abbrev pub encode_int : ℕ → Bytes
encode_int n = primitive_marker ⊳ integer_id ⊳ to_be_bytes 4 n

abbrev pub encode_bytes : Bytes → Bytes
encode_bytes s = to_be_bytes 4 (length s % 2 ^ 32) ++ s

abbrev pub encode_string : Bytes → Bytes
encode_string s = primitive_marker ⊳ string_id ⊳ encode_bytes s

unfoldable pub encode_strings : List Bytes → Bytes
encode_strings List.[] = nil
encode_strings (List.◌∷◌ s ss) = encode_string s ++ encode_strings ss

abbrev pub encode_path : List Bytes → Bytes
encode_path ss = seq_marker ⊳ (encode_length (length ss) ++ encode_strings ss)

abbrev pub encode_symbol : SymbolIdentifier → Bytes
encode_symbol s =
    145
    ⊳ tuple_marker
    ⊳ 4
    ⊳ (encode_int s.id.global_id
        ++ (encode_int s.id.id ++ (encode_path s.symbol_path ++ encode_int s.id.global_id)))

module _ (to_signed_bytes_be : ℤ → Bytes) where
  unfoldable mutual
    pub encode : {t : FieldType} → Value t → Bytes
    encode (boolean b) = encode_bool b
    encode (char c) = encode_char c
    encode (int n) = encode_int n
    encode (string s) = encode_string s
    encode (bigint z) = primitive_marker ⊳ bigint_id ⊳ encode_bytes (to_signed_bytes_be z)
    encode (symbol s) = encode_symbol s
    encode none = option_marker ⊳ 0 ⊳ nil
    encode (some v) = option_marker ⊳ 1 ⊳ encode v
    encode (seq vs) = seq_marker ⊳ (encode_length (count vs) ++ encode_elems vs)
    encode (set vs) = set_marker ⊳ (encode_length (count vs) ++ encode_elems vs)
    encode (map es) = map_marker ⊳ (encode_length (size es) ++ encode_entries es)
    encode (tuple vs) = tuple_marker ⊳ (to_be_bytes 1 (arity vs) ++ encode_fields vs)
    encode (struct {g} {k} vs) = marker g k ⊳ encode_fields vs
    encode (enum k v) = encode v

    pub encode_fields : {ts : FieldTypes} → Fields ts → Bytes
    encode_fields [] = nil
    encode_fields (v ∷ vs) = encode v ++ encode_fields vs

    pub encode_elems : {t : FieldType} → Elems t → Bytes
    encode_elems no_elems = nil
    encode_elems (elem v vs) = encode v ++ encode_elems vs

    pub encode_entries : {k v : FieldType} → Entries k v → Bytes
    encode_entries no_entries = nil
    encode_entries (entry a b es) = encode a ++ (encode b ++ encode_entries es)

-- Every sequence, set and map in the value, and every symbol path, has an `i32` length.
unfoldable mutual
  pub fits : {t : FieldType} → Value t → Bool
  fits (symbol s) = leb (length s.symbol_path) i32_max
  fits (some v) = fits v
  fits (seq vs) = leb (count vs) i32_max && fits_elems vs
  fits (set vs) = leb (count vs) i32_max && fits_elems vs
  fits (map es) = leb (size es) i32_max && fits_entries es
  fits (tuple vs) = fits_fields vs
  fits (struct vs) = fits_fields vs
  fits (enum k v) = fits v
  fits _ = true

  pub fits_fields : {ts : FieldTypes} → Fields ts → Bool
  fits_fields [] = true
  fits_fields (v ∷ vs) = fits v && fits_fields vs

  pub fits_elems : {t : FieldType} → Elems t → Bool
  fits_elems no_elems = true
  fits_elems (elem v vs) = fits v && fits_elems vs

  pub fits_entries : {k v : FieldType} → Entries k v → Bool
  fits_entries no_entries = true
  fits_entries (entry a b es) = fits a && (fits b && fits_entries es)
