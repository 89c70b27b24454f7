-- ===== src/Symbols/Determined.antt =====
-- `Symbols` (stainless_data/src/ast.rs) against the bytes that it serializes to.
use mathlib.Core.List.{Permᴰ, Perm}
use mathlib.Core.List.Permᴰ
use rust_stainless.Prelude.{
  ℕ, ◌%◌, ◌^◌, ◌≡◌, refl, sym, ap, ◌∙◌, subst, List, [], ◌∷◌, ◌++◌, append_assoc, length,
}
use rust_stainless.Prelude.Outcome.{done, done-injective}
use rust_stainless.Prelude.Sorting.{sort, sort-perm}
use rust_stainless.Prelude.Int.{ℤ}
use rust_stainless.Ser.{Bytes, write, write_marker, serialize_int, to_be_bytes}
use rust_stainless.Ser.Prefix.{Tells, Tells-head, Tells-nil}
use rust_stainless.Ast.Kinds.{FieldType, FieldTypes, ◌▹◌}
use rust_stainless.Ast.Value.{Value, elems_of, Elems, no_elems, elem, seq, tuple}
use rust_stainless.Ast.Value
use rust_stainless.Ast.Encoding.{encode}
use rust_stainless.Ast.Encodable.{IsEncodable}
use rust_stainless.Ast.PrefixCode.{encode-Tells}
use rust_stainless.Ast.Serialized.{serialize-encodable, append_cancel}
use rust_stainless.Symbols.{Symbols, elems_of, serialize_buffer, sorted_pair, serialize_symbols}
use rust_stainless.Symbols.Stable.{SameProgram}

abbrev list_of : {t : FieldType} → Elems t → List (Value t)
list_of no_elems = []
list_of (elem v vs) = v ∷ list_of vs

list_of-elems_of : {t : FieldType} (vs : List (Value t)) → list_of (elems_of vs) ≡ vs
list_of-elems_of [] = refl
list_of-elems_of (v ∷ vs) = ap (◌∷◌ v) (list_of-elems_of vs)

abbrev first :
    {t : FieldType} {ts : FieldTypes}
    → Value (FieldType.tuple (FieldType.seq t ▹ ts))
    → List (Value t)
first (tuple (Value.◌∷◌ (seq vs) rest)) = list_of vs

abbrev second :
    {t u : FieldType} {ts : FieldTypes}
    → Value (FieldType.tuple (u ▹ FieldType.seq t ▹ ts))
    → List (Value t)
second (tuple (Value.◌∷◌ v (Value.◌∷◌ (seq vs) rest))) = list_of vs

-- The bytes before the inner buffer.
abbrev header : Bytes → Bytes
header inner = 7 ∷ 5 ∷ 4 ∷ to_be_bytes 4 (length inner % 2 ^ 32)

serialize_buffer-eq :
    (inner buf : Bytes) → serialize_buffer inner buf ≡ done (buf ++ (header inner ++ inner))
unfolding serialize_buffer write write_marker serialize_int
serialize_buffer-eq inner buf = simp append_assoc

header-Tells : (v w : Bytes) → Tells (Unit {0}) (header v) (header w)
header-Tells v w = Tells-head λ _.
    Tells-head
      λ _. Tells-head λ _. Tells-head λ _. Tells-head λ _. Tells-head λ _. Tells-head λ _. Tells-nil

inner_eq : (v w : Bytes) → header v ++ v ≡ header w ++ w → v ≡ w
inner_eq v w e = ((header-Tells v w).tell v w e).1

perm_of : {A : Type 0} (key : A → ℕ) (vs ws : List A) → sort key vs ≡ sort key ws → Perm vs ws
perm_of key vs ws e =
    ∣ Permᴰ.trans (Permᴰ.symm (sort-perm key vs))
      (subst (λ us. Permᴰ us ws) (sym e) (sort-perm key ws)) ∣₁

module _ (to_signed_bytes_be : ℤ → Bytes)
    (to_signed_bytes_be-injective : (a b : ℤ)
      → to_signed_bytes_be a ≡ to_signed_bytes_be b
      → a ≡ b) where
  -- What a program that can be represented serializes to.
  pub serialize_symbols-eq :
      (s : Symbols) (buf : Bytes)
      → IsEncodable to_signed_bytes_be (sorted_pair s)
      → let inner = encode to_signed_bytes_be (sorted_pair s) in
        serialize_symbols to_signed_bytes_be s buf ≡ done (buf ++ (header inner ++ inner))
  unfolding serialize_symbols
  serialize_symbols-eq s buf h =
      rw (serialize-encodable to_signed_bytes_be (sorted_pair s) [] h) (serialize_buffer-eq _ buf)

  encode-injective :
      {t : FieldType} (v w : Value t)
      → IsEncodable to_signed_bytes_be v
      → IsEncodable to_signed_bytes_be w
      → encode to_signed_bytes_be v ≡ encode to_signed_bytes_be w
      → v ≡ w
  encode-injective v w hv hw e =
      ((encode-Tells to_signed_bytes_be to_signed_bytes_be-injective v w hv hw).tell [] []
        (ap (λ s. s ++ []) e)).0

  pair_eq :
      (a b : Symbols) (buf out : Bytes)
      → IsEncodable to_signed_bytes_be (sorted_pair a)
      → IsEncodable to_signed_bytes_be (sorted_pair b)
      → serialize_symbols to_signed_bytes_be a buf ≡ done out
      → serialize_symbols to_signed_bytes_be b buf ≡ done out
      → sorted_pair a ≡ sorted_pair b
  pair_eq a b buf out ha hb ea eb = encode-injective _ _ ha hb (
      inner_eq _ _ (
        append_cancel buf _ _ (
          done-injective
            (sym (serialize_symbols-eq a buf ha) ∙ ea ∙ sym eb ∙ serialize_symbols-eq b buf hb))))

  -- Two programs whose sorted definitions can be represented, and that serialize to the same bytes,
  -- have the same definitions, in whatever order their hash maps hold them.
  pub serialize_symbols-determines :
      (a b : Symbols) (buf out : Bytes)
      → IsEncodable to_signed_bytes_be (sorted_pair a)
      → IsEncodable to_signed_bytes_be (sorted_pair b)
      → serialize_symbols to_signed_bytes_be a buf ≡ done out
      → serialize_symbols to_signed_bytes_be b buf ≡ done out
      → SameProgram a b
  unfolding sorted_pair
  serialize_symbols-determines a b buf out ha hb ea eb =
      let same = pair_eq a b buf out ha hb ea eb in
      record {
        sorts =
            perm_of _ a.sorts b.sorts
              (sym (list_of-elems_of _) ∙ ap second same ∙ list_of-elems_of _);
        functions =
            perm_of _ a.functions b.functions
              (sym (list_of-elems_of _) ∙ ap first same ∙ list_of-elems_of _);
      }
