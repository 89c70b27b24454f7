-- ===== src/Ast/Serialized.antt =====
-- What the serializer of ser/serializable.rs and ast/generated.rs guarantees to the reader of its
-- output.
use rust_stainless.Prelude.{
  ℕ, List, ◌+◌, ◌^◌, ◌%◌, ◌≡◌, sym, ◌∙◌, ap, ◌++◌, append_assoc, arith, if◌then◌else◌,
}
use rust_stainless.Prelude.Outcome.{done, panicked, done-injective}
use rust_stainless.Prelude.Int.{ℤ}
use rust_stainless.Ser.{Bytes}
use rust_stainless.Ast.Kinds.{FieldType}
use rust_stainless.Ast.Value.{Value, char}
use rust_stainless.Ast.Serialize.{serialize, serialize_char}
use rust_stainless.Ast.Encoding.{encode, fits}
use rust_stainless.Ast.Encoding.Serialized.{serialize-emit}
use rust_stainless.Ast.Encodable.{IsEncodable, IsEncodable-fits}
use rust_stainless.Ast.PrefixCode.{encode-Tells}

pub append_cancel : (a x y : Bytes) → a ++ x ≡ a ++ y → x ≡ y
append_cancel List.[] x y e = e
append_cancel (List.◌∷◌ b a) x y e = append_cancel a x y (cc)

module _ (to_signed_bytes_be : ℤ → Bytes) where
  -- Serializing a value keeps what the buffer holds and appends the encoding of the value, if every
  -- sequence in it has at most i32::MAX elements; if one is longer, the assertion panics.
  pub serialize-eq :
      {t : FieldType} (v : Value t) (buf : Bytes)
      → serialize to_signed_bytes_be v buf
        ≡ (if fits v then done (buf ++ encode to_signed_bytes_be v) else panicked)
  serialize-eq v buf = ap (λ s. s buf) (serialize-emit to_signed_bytes_be v)

  -- What a value that can be represented serializes to.
  pub serialize-encodable :
      {t : FieldType} (v : Value t) (buf : Bytes)
      → IsEncodable to_signed_bytes_be v
      → serialize to_signed_bytes_be v buf ≡ done (buf ++ encode to_signed_bytes_be v)
  serialize-encodable v buf h = rw (serialize-eq v buf, IsEncodable-fits to_signed_bytes_be v h)

  -- A character above U+FFFF is written as the character 65536 below it: the cast to u16 drops the
  -- upper bits, so a reader cannot tell the two apart.
  pub serialize-char_wraps :
      (c : ℕ) (buf : Bytes)
      → serialize to_signed_bytes_be (char (c + 2 ^ 16)) buf
        ≡ serialize to_signed_bytes_be (char c) buf
  unfolding serialize serialize_char
  serialize-char_wraps c buf =
      let same : (c + 2 ^ 16) % 2 ^ 16 ≡ c % 2 ^ 16 = omega arith in rw same

module _ (to_signed_bytes_be : ℤ → Bytes)
    (to_signed_bytes_be-injective : (a b : ℤ)
      → to_signed_bytes_be a ≡ to_signed_bytes_be b
      → a ≡ b) where
  -- Two representable values of one type, serialized from the same buffer into streams that go on
  -- arbitrarily, are the same value if the streams are equal, and what follows is the same.
  pub serialize-prefix_free :
      {t : FieldType} (v w : Value t) (buf out_v out_w rest_v rest_w : Bytes)
      → IsEncodable to_signed_bytes_be v
      → IsEncodable to_signed_bytes_be w
      → serialize to_signed_bytes_be v buf ≡ done out_v
      → serialize to_signed_bytes_be w buf ≡ done out_w
      → out_v ++ rest_v ≡ out_w ++ rest_w
      → (v ≡ w) × (rest_v ≡ rest_w)
  serialize-prefix_free v w buf out_v out_w rest_v rest_w hv hw ev ew e =
      (encode-Tells to_signed_bytes_be to_signed_bytes_be-injective v w hv hw).tell rest_v rest_w (
        append_cancel buf _ _ (
          sym (append_assoc buf (encode to_signed_bytes_be v) rest_v)
          ∙ ap (λ s. s ++ rest_v)
              (done-injective (sym (serialize-encodable to_signed_bytes_be v buf hv) ∙ ev))
          ∙ e
          ∙ ap (λ s. s ++ rest_w)
              (done-injective (sym ew ∙ serialize-encodable to_signed_bytes_be w buf hw))
          ∙ append_assoc buf (encode to_signed_bytes_be w) rest_w))
