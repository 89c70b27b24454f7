-- ===== src/Ast/Encoding/Serialized.antt =====
-- The serializer of ser/serializable.rs and ast/generated.rs against the encoding of `Ast.Encoding`.
use rust_stainless.Prelude.{
  ℕ, ◌%◌, ◌≡◌, refl, Bool, true, false, ◌&&◌, List, arith, leb, ltb, length,
}
use rust_stainless.Prelude.Int.{ℤ}
use rust_stainless.Ser.{Bytes, i32_max}
use rust_stainless.Ser.Laws.{
  emit, emit-then, skip-emit, write-emit, write_u8-emit, write_u16-emit, write_u32-emit,
  write_bool-emit, write_marker-emit, write_length-emit, serialize_int-emit,
}
use rust_stainless.Ast.Kinds.{FieldType, FieldTypes, Group, Kind}
use rust_stainless.Ast.Markers.{marker}
use rust_stainless.Ast.Distinct.{marker-lt}
use rust_stainless.Ast.Identifier.{SymbolIdentifier}
use rust_stainless.Ast.Value.{
  Value, Fields, Elems, Entries, boolean, char, int, string, bigint, symbol, none, some, seq, set,
  map, tuple, struct, enum, [], ◌∷◌, no_elems, elem, no_entries, entry,
}
use rust_stainless.Ast.Serialize.{
  serialize_bool, serialize_char, serialize_string, serialize_strings, serialize_path,
  serialize_symbol, serialize_bigint, serialize, serialize_fields, serialize_elems,
  serialize_entries,
}
use rust_stainless.Ast.Encoding.{
  encode, encode_fields, encode_elems, encode_entries, fits, fits_fields, fits_elems, fits_entries,
  encode_bool, encode_char, encode_string, encode_strings, encode_path, encode_symbol,
}

&&_true : (b : Bool) → (b && true) ≡ b
&&_true true = refl
&&_true false = refl

ruleset emits = (
  emit-then, skip-emit, write-emit, write_u8-emit, write_u16-emit, write_u32-emit, write_bool-emit,
  write_marker-emit, write_length-emit, serialize_int-emit, &&_true,
)

marker_fits : (g : Group) (k : Kind g) → ltb (marker g k) 255 ≡ true
marker_fits g k = ground (arith, marker-lt g k)

marker_byte : (g : Group) (k : Kind g) → marker g k % 256 ≡ marker g k
marker_byte g k = omega (arith, marker-lt g k)

serialize_bool-emit : (b : Bool) → serialize_bool b ≡ emit true (encode_bool b)
unfolding serialize_bool
serialize_bool-emit b = simp emits

serialize_char-emit : (c : ℕ) → serialize_char c ≡ emit true (encode_char c)
unfolding serialize_char
serialize_char-emit c = simp emits

serialize_string-emit : (s : Bytes) → serialize_string s ≡ emit true (encode_string s)
unfolding serialize_string
serialize_string-emit s = simp emits

serialize_strings-emit : (ss : List Bytes) → serialize_strings ss ≡ emit true (encode_strings ss)
unfolding serialize_strings encode_strings
serialize_strings-emit List.[] = skip-emit
serialize_strings-emit (List.◌∷◌ s ss) =
    simp (serialize_string-emit, serialize_strings-emit ss, emit-then)

serialize_path-emit :
    (ss : List Bytes) → serialize_path ss ≡ emit (leb (length ss) i32_max) (encode_path ss)
unfolding serialize_path
serialize_path-emit ss = simp (emits, serialize_strings-emit)

serialize_symbol-emit :
    (s : SymbolIdentifier)
    → serialize_symbol s ≡ emit (leb (length s.symbol_path) i32_max) (encode_symbol s)
unfolding serialize_symbol
serialize_symbol-emit s = simp (emits, serialize_path-emit)

-- `serialize` appends `encode v` if `fits v`, and panics if not.
module _ (to_signed_bytes_be : ℤ → Bytes) where
  mutual
    unfolding serialize serialize_bigint encode fits

    pub serialize-emit :
        {t : FieldType} (v : Value t)
        → serialize to_signed_bytes_be v ≡ emit (fits v) (encode to_signed_bytes_be v)
    serialize-emit (boolean b) = serialize_bool-emit b
    serialize-emit (char c) = serialize_char-emit c
    serialize-emit (int n) = serialize_int-emit n
    serialize-emit (string s) = serialize_string-emit s
    serialize-emit (bigint z) = simp emits
    serialize-emit (symbol s) = serialize_symbol-emit s
    serialize-emit none = simp emits
    serialize-emit (some v) = simp (emits, serialize-emit v)
    serialize-emit (seq vs) = simp (emits, serialize_elems-emit vs)
    serialize-emit (set vs) = simp (emits, serialize_elems-emit vs)
    serialize-emit (map es) = simp (emits, serialize_entries-emit es)
    serialize-emit (tuple vs) = simp (emits, serialize_fields-emit vs)
    serialize-emit (struct {g} {k} vs) =
        simp (emits, serialize_fields-emit vs, marker_fits g k, marker_byte g k)
    serialize-emit (enum k v) = serialize-emit v

    serialize_fields-emit :
        {ts : FieldTypes} (vs : Fields ts)
        → serialize_fields to_signed_bytes_be vs
          ≡ emit (fits_fields vs) (encode_fields to_signed_bytes_be vs)
    serialize_fields-emit [] = skip-emit
    serialize_fields-emit (v ∷ vs) = simp (serialize-emit v, serialize_fields-emit vs, emit-then)

    serialize_elems-emit :
        {t : FieldType} (vs : Elems t)
        → serialize_elems to_signed_bytes_be vs
          ≡ emit (fits_elems vs) (encode_elems to_signed_bytes_be vs)
    serialize_elems-emit no_elems = skip-emit
    serialize_elems-emit (elem v vs) = simp (serialize-emit v, serialize_elems-emit vs, emit-then)

    serialize_entries-emit :
        {k v : FieldType} (es : Entries k v)
        → serialize_entries to_signed_bytes_be es
          ≡ emit (fits_entries es) (encode_entries to_signed_bytes_be es)
    serialize_entries-emit no_entries = skip-emit
    serialize_entries-emit (entry a b es) =
        simp (serialize-emit a, serialize-emit b, serialize_entries-emit es, emit-then)
