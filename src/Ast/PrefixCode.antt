-- ===== src/Ast/PrefixCode.antt =====
-- The encoding of the AST is a prefix code: from a stream that begins with an encoded value, the
-- value and the rest can be told.
mod Primitives
use Primitives.{bool_Tells, bytes_Tells, string_Tells, int_Tells, symbol_Tells}
use mathlib.Core.Path.{path_j}
use rust_stainless.Prelude.{
  ℕ, suc, ◌^◌, ◌≤◌, ◌<◌, ◌≡◌, refl, ap, ap₂, sym, Bool, true, List, ◌++◌, arith, length, All,
}
use rust_stainless.Prelude.Int.{ℤ}
use rust_stainless.Ser.{Bytes, bool_byte, to_be_bytes, i32_max}
use rust_stainless.Ser.Prefix.{
  Tells, Tells-map, Tells-cons, Tells-head, Tells-append, Tells-nil, Tells-absurd, append_Tells,
  u16_Tells, u32_Tells, length_Tells,
}
use rust_stainless.Ast.Kinds.{FieldType, FieldTypes, Group, Kind}
use rust_stainless.Ast.Shapes.{fields}
use rust_stainless.Ast.Markers.{marker}
use rust_stainless.Ast.Distinct.{has_own_marker, marker-injective}
use rust_stainless.Ast.Identifier.{Identifier, SymbolIdentifier}
use rust_stainless.Ast.Value.{
  Value, Fields, Elems, Entries, boolean, char, int, string, bigint, symbol, none, some, seq, set,
  map, tuple, struct, enum, [], ◌∷◌, no_elems, elem, no_entries, entry, count, size, arity,
}
use rust_stainless.Ast.Encoding.{
  encode, encode_fields, encode_elems, encode_entries, encode_bytes, encode_strings, encode_string,
  encode_symbol, encode_path, encode_int,
}
use rust_stainless.Ast.Encodable.{IsEncodable, AllFields, AllElems, AllEntries, IsWritable, last}

-- `BigInt::to_signed_bytes_be` gives the bytes of a number, and no two numbers have the same.
module _ (to_signed_bytes_be : ℤ → Bytes)
    (to_signed_bytes_be-injective : (a b : ℤ)
      → to_signed_bytes_be a ≡ to_signed_bytes_be b
      → a ≡ b) where
  -- `enum j v` against a variant of the struct that has the same marker.
  enum_Tells :
      {g : Group} (j k : Kind g) (vs : Fields (fields g j)) (ws : Fields (fields g k))
      → ((us : Fields (fields g j))
          → AllFields to_signed_bytes_be us
          → Tells
              (vs ≡ us)
              (encode_fields to_signed_bytes_be vs)
              (encode_fields to_signed_bytes_be us))
      → AllFields to_signed_bytes_be ws
      → j ≡ k
      → Tells
          (◌≡◌ {A = Value (FieldType.enum g)} (enum j (struct vs)) (enum k (struct ws)))
          (encode_fields to_signed_bytes_be vs)
          (encode_fields to_signed_bytes_be ws)
  enum_Tells {g} j k vs ws ih hw p =
      path_j
        (λ k _.
          (ws : Fields (fields g k))
          → AllFields to_signed_bytes_be ws
          → Tells (◌≡◌ {A = Value (FieldType.enum g)} (enum j (struct vs)) (enum k (struct ws)))
              (encode_fields to_signed_bytes_be vs) (encode_fields to_signed_bytes_be ws))
        (λ us hu. Tells-map (ap (λ (f : Fields (fields g j)). enum j (struct f))) (ih us hu)) p ws
        hw

  mutual
    unfolding IsEncodable encode

    pub encode-Tells :
        {t : FieldType} (v w : Value t)
        → IsEncodable to_signed_bytes_be v
        → IsEncodable to_signed_bytes_be w
        → Tells (v ≡ w) (encode to_signed_bytes_be v) (encode to_signed_bytes_be w)
    encode-Tells (boolean a) (boolean b) ha hb =
        Tells-cons _ _ (Tells-cons _ _ (Tells-map (ap boolean) (bool_Tells a b)))
    encode-Tells (char a) (char b) ha hb = Tells-cons _ _ (
        Tells-cons _ _
          (Tells-map (λ e. ap char (omega arith)) (u16_Tells _ _ (omega arith) (omega arith))))
    encode-Tells (int a) (int b) ha hb = Tells-map (ap int) (int_Tells a b ha hb)
    encode-Tells (string a) (string b) ha hb = Tells-map (ap string) (string_Tells a b ha hb)
    encode-Tells (bigint a) (bigint b) ha hb = Tells-cons _ _ (
        Tells-cons _ _ (
          Tells-map (λ e. ap bigint (to_signed_bytes_be-injective a b e))
            (bytes_Tells (to_signed_bytes_be a) (to_signed_bytes_be b) ha hb)))
    encode-Tells (symbol a) (symbol b) ha hb = Tells-map (ap symbol) (symbol_Tells a b ha hb)
    encode-Tells none none ha hb = Tells-cons _ _ (Tells-cons _ _ (Tells-map (λ _. refl) Tells-nil))
    encode-Tells none (some w) ha hb = Tells-cons _ _ (Tells-absurd (omega arith))
    encode-Tells (some v) none ha hb = Tells-cons _ _ (Tells-absurd (omega arith))
    encode-Tells (some v) (some w) ha hb =
        Tells-cons _ _ (Tells-cons _ _ (Tells-map (ap some) (encode-Tells v w ha hb)))
    encode-Tells (seq vs) (seq ws) ha hb = Tells-cons _ _ (
        Tells-map (λ p. ap seq p.1)
          (Tells-append (length_Tells _ _ ha.0 hb.0) (elems_Tells vs ws ha.1 hb.1)))
    encode-Tells (set vs) (set ws) ha hb = Tells-cons _ _ (
        Tells-map (λ p. ap set p.1)
          (Tells-append (length_Tells _ _ ha.0 hb.0) (elems_Tells vs ws ha.1 hb.1)))
    encode-Tells (map es) (map fs) ha hb = Tells-cons _ _ (
        Tells-map (λ p. ap map p.1)
          (Tells-append (length_Tells _ _ ha.0 hb.0) (entries_Tells es fs ha.1 hb.1)))
    encode-Tells (tuple vs) (tuple ws) ha hb =
        Tells-cons _ _ (Tells-cons _ _ (Tells-map (ap tuple) (Fields-Tells vs ws ha hb)))
    encode-Tells (struct vs) (struct ws) ha hb =
        Tells-cons _ _ (Tells-map (ap struct) (Fields-Tells vs ws ha hb))
    encode-Tells (enum {g} j (struct vs)) (enum k (struct ws)) ha hb =
        let ih = Fields-Tells vs in
        Tells-head λ e.
          enum_Tells j k vs ws (λ us hu. ih us ha.1 hu) hb.1 (marker-injective g j k ha.0 hb.0 e)

    Fields-Tells :
        {ts : FieldTypes} (vs ws : Fields ts)
        → AllFields to_signed_bytes_be vs
        → AllFields to_signed_bytes_be ws
        → Tells
            (vs ≡ ws)
            (encode_fields to_signed_bytes_be vs)
            (encode_fields to_signed_bytes_be ws)
    Fields-Tells [] [] ha hb = Tells-map (λ _. refl) Tells-nil
    Fields-Tells (v ∷ vs) (w ∷ ws) ha hb =
        Tells-map (λ p. ap₂ ◌∷◌ p.0 p.1)
          (Tells-append (encode-Tells v w ha.0 hb.0) λ _. Fields-Tells vs ws ha.1 hb.1)

    elems_Tells :
        {t : FieldType} (vs ws : Elems t)
        → AllElems to_signed_bytes_be vs
        → AllElems to_signed_bytes_be ws
        → count vs ≡ count ws
        → Tells (vs ≡ ws) (encode_elems to_signed_bytes_be vs) (encode_elems to_signed_bytes_be ws)
    elems_Tells no_elems no_elems ha hb h = Tells-map (λ _. refl) Tells-nil
    elems_Tells no_elems (elem w ws) ha hb h = absurd (omega arith)
    elems_Tells (elem v vs) no_elems ha hb h = absurd (omega arith)
    elems_Tells (elem v vs) (elem w ws) ha hb h =
        Tells-map (λ p. ap₂ elem p.0 p.1)
          (Tells-append (encode-Tells v w ha.0 hb.0) λ _. elems_Tells vs ws ha.1 hb.1 (omega arith))

    entries_Tells :
        {k v : FieldType} (es fs : Entries k v)
        → AllEntries to_signed_bytes_be es
        → AllEntries to_signed_bytes_be fs
        → size es ≡ size fs
        → Tells
            (es ≡ fs)
            (encode_entries to_signed_bytes_be es)
            (encode_entries to_signed_bytes_be fs)
    entries_Tells no_entries no_entries ha hb h = Tells-map (λ _. refl) Tells-nil
    entries_Tells no_entries (entry c d fs) ha hb h = absurd (omega arith)
    entries_Tells (entry a b es) no_entries ha hb h = absurd (omega arith)
    entries_Tells (entry a b es) (entry c d fs) ha hb h =
        Tells-map (λ p i. entry (p.0 i) (p.1.0 i) (p.1.1 i))
          (Tells-append (encode-Tells a c ha.0 hb.0) λ _.
            Tells-append (encode-Tells b d ha.1 hb.1)
              λ _. entries_Tells es fs ha.2 hb.2 (omega arith))
