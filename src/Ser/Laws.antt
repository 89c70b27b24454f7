-- ===== src/Ser/Laws.antt =====
-- What the raw operations append to the buffer, and when they panic.
use rust_stainless.Prelude.{
  ℕ, ◌/◌, ◌%◌, ◌^◌, ◌≡◌, refl, fun_ext, Bool, true, false, ◌&&◌, [], ◌∷◌, ◌++◌, append_assoc,
  append-nil, arith, ltb, leb, if◌then◌else◌, Bool-cases, inl, inr,
}
use rust_stainless.Prelude.Outcome.{done, panicked}
use rust_stainless.Ser.{
  Bytes, Ser, ◌>>◌, assert, skip, write, to_be_bytes, write_u8, write_u16, write_u32, write_i32,
  write_bool, write_marker, write_length, serialize_int, bool_byte, primitive_marker, integer_id,
  i32_max,
}

-- The action that appends `bytes` if `ok` holds, and panics if not.
abbrev pub emit : Bool → Bytes → Ser
emit ok bytes buf = if ok then done (buf ++ bytes) else panicked

pub emit-then : (a b : Bool) (x y : Bytes) → (emit a x >> emit b y) ≡ emit (a && b) (x ++ y)
emit-then true true x y = fun_ext λ buf. rw append_assoc
emit-then true false x y = refl
emit-then false b x y = refl

pub skip-emit : skip ≡ emit true []
skip-emit = fun_ext λ buf. rw append-nil

pub assert-emit : (b : Bool) → assert b ≡ emit b []
assert-emit true = fun_ext λ buf. rw append-nil
assert-emit false = refl

pub write-emit : (bytes : Bytes) → write bytes ≡ emit true bytes
unfolding write
write-emit bytes = refl

pub write_u8-emit : (v : ℕ) → write_u8 v ≡ emit true (to_be_bytes 1 v)
unfolding write_u8
write_u8-emit v = refl

pub write_u16-emit : (v : ℕ) → write_u16 v ≡ emit true (to_be_bytes 2 v)
unfolding write_u16
write_u16-emit v = refl

pub write_u32-emit : (v : ℕ) → write_u32 v ≡ emit true (to_be_bytes 4 v)
unfolding write_u32
write_u32-emit v = refl

pub write_i32-emit : (v : ℕ) → write_i32 v ≡ emit true (to_be_bytes 4 v)
unfolding write_i32
write_i32-emit v = refl

pub write_bool-emit : (v : Bool) → write_bool v ≡ emit true (bool_byte v ∷ [])
unfolding write_bool
write_bool-emit v = refl

pub write_marker-emit : (id : ℕ) → write_marker id ≡ emit (ltb id 255) ((id % 256) ∷ [])
unfolding write_marker
write_marker-emit id = fun_ext λ buf. ground arith

pub serialize_int-emit :
    (v : ℕ) → serialize_int v ≡ emit true (primitive_marker ∷ integer_id ∷ to_be_bytes 4 v)
unfolding serialize_int write
serialize_int-emit v = fun_ext λ buf. simp append_assoc

-- The bytes of a length.
abbrev pub encode_length : ℕ → Bytes
encode_length len =
    if ltb len 255 then len ∷ [] else 255 ∷ primitive_marker ∷ integer_id ∷ to_be_bytes 4 len

mod_small : (len : ℕ) → leb len i32_max ≡ true → len % 2 ^ 32 ≡ len
mod_small len h = ground arith

mod_byte : (len : ℕ) → ltb len 255 ≡ true → len % 256 / 1 % 256 ≡ len
mod_byte len h = ground arith

pub write_length-emit : (len : ℕ) → write_length len ≡ emit (leb len i32_max) (encode_length len)
unfolding write_length
write_length-emit len = elim (Bool-cases (leb len i32_max)) [
  | inr long ↦ fun_ext λ buf. rw long
  | inl fits ↦ elim (Bool-cases (ltb len 255)) [
    | inl short ↦ fun_ext λ buf. rw (fits, short, mod_byte len short)
    | inr more ↦ fun_ext λ buf. rw (fits, more, mod_small len fits) (simp append_assoc)
  ]
]
