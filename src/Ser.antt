-- ===== src/Ser.antt =====
-- stainless_data/src/ser.rs: the serializer's raw operations, over the buffer of a
-- `BufferSerializer`. Its writer is a `Vec<u8>`, whose `write_all` appends and never fails, so the
-- only failure of a `SerializationResult` is a failed assertion.
pub mod Laws
pub mod Prefix
use rust_stainless.Prelude.{
  ℕ, zero, suc, ◌/◌, ◌%◌, ◌^◌, Bool, true, false, List, [], ◌∷◌, ◌++◌, ltb, leb, if◌then◌else◌,
}
use rust_stainless.Prelude.Outcome.{Outcome, done, panicked, ◌>>=◌}

abbrev pub Bytes : Type 0
Bytes = List ℕ

-- What a method of `Serializer` does to the buffer.
abbrev pub Ser : Type 0
Ser = Bytes → Outcome Bytes

-- `m?; k`
infixl 5 ◌>>◌
abbrev pub ◌>>◌ : Ser → Ser → Ser
◌>>◌ m k buf = m buf >>= k

abbrev pub skip : Ser
skip buf = done buf

-- `BufferSerializer::new`
abbrev pub new : Bytes
new = []

-- `assert!`
abbrev pub assert : Bool → Ser
assert true buf = done buf
assert false buf = panicked

unfoldable pub write : Bytes → Ser
write bytes buf = done (buf ++ bytes)

-- `to_be_bytes` of an unsigned integer of `n` bytes.
abbrev pub to_be_bytes : ℕ → ℕ → Bytes
to_be_bytes zero v = []
to_be_bytes (suc n) v = (v / 256 ^ n % 256) ∷ to_be_bytes n v

unfoldable pub write_u8 : ℕ → Ser
unfolding write
write_u8 v = write (to_be_bytes 1 v)

unfoldable pub write_u16 : ℕ → Ser
unfolding write
write_u16 v = write (to_be_bytes 2 v)

unfoldable pub write_u32 : ℕ → Ser
unfolding write
write_u32 v = write (to_be_bytes 4 v)

-- An `i32` is given by its two's complement bit pattern, below 2 ^ 32.
unfoldable pub write_i32 : ℕ → Ser
unfolding write
write_i32 v = write (to_be_bytes 4 v)

abbrev pub bool_byte : Bool → ℕ
bool_byte true = 1
bool_byte false = 0

unfoldable pub write_bool : Bool → Ser
unfolding write
write_bool v = write (bool_byte v ∷ [])

-- A `MarkerId` is its `u32`.
unfoldable pub write_marker : ℕ → Ser
unfolding write_u8
write_marker id = do assert (ltb id 255); write_u8 (id % 256)

-- The marker ids and primitive ids of ser.rs.
abbrev pub option_marker : ℕ
option_marker = 1

abbrev pub seq_marker : ℕ
seq_marker = 2

abbrev pub set_marker : ℕ
set_marker = 3

abbrev pub map_marker : ℕ
map_marker = 4

abbrev pub primitive_marker : ℕ
primitive_marker = 5

abbrev pub tuple_marker : ℕ
tuple_marker = 6

abbrev pub serialization_buffer_marker : ℕ
serialization_buffer_marker = 7

abbrev pub boolean_id : ℕ
boolean_id = 0

abbrev pub char_id : ℕ
char_id = 1

abbrev pub integer_id : ℕ
integer_id = 4

abbrev pub string_id : ℕ
string_id = 8

abbrev pub bigint_id : ℕ
bigint_id = 9

-- `impl Serializable for types::Int` (ser/serializable.rs), which `write_length` calls.
unfoldable pub serialize_int : ℕ → Ser
unfolding write_marker write_u8 write_i32
serialize_int v = do write_marker primitive_marker; write_u8 integer_id; write_i32 v

abbrev pub i32_max : ℕ
i32_max = 2147483647

unfoldable pub write_length : ℕ → Ser
unfolding write_u8 serialize_int
write_length len = do
  assert (leb len i32_max)
  if ltb len 255 then write_u8 (len % 256) else (do write_u8 255; serialize_int (len % 2 ^ 32))
