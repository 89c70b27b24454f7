-- ===== src/Ast/Encodable.antt =====
-- The values that the encoding can represent: what the casts of ser/serializable.rs keep.
use rust_stainless.Prelude.{
  ◌^◌, ◌≤◌, ◌<◌, ◌≡◌, refl, true, List, Option, none, some, arith, length, All,
}
use rust_stainless.Prelude.Int.{ℤ}
use rust_stainless.Ser.{Bytes, i32_max}
use rust_stainless.Ast.Kinds.{FieldType, FieldTypes}
use rust_stainless.Ast.Distinct.{has_own_marker}
use rust_stainless.Ast.Identifier.{SymbolIdentifier}
use rust_stainless.Ast.Value.{
  Value, Fields, Elems, Entries, boolean, char, int, string, bigint, symbol, none, some, seq, set,
  map, tuple, struct, enum, [], ◌∷◌, no_elems, elem, no_entries, entry, count, size,
}
use rust_stainless.Ast.Encoding.{fits, fits_fields, fits_elems, fits_entries}

abbrev pub last {ℓ} : {A : Type ℓ} → List A → Option A
last List.[] = Option.none
last (List.◌∷◌ x List.[]) = Option.some x
last (List.◌∷◌ x (List.◌∷◌ y ys)) = last (List.◌∷◌ y ys)

-- The name of an identifier is not written: it is the last part of the path.
pub record IsWritable (s : SymbolIdentifier) : Type 0 where
  pub global_id : s.id.global_id < 2 ^ 32
  pub local_id : s.id.id < 2 ^ 32
  pub named : last s.symbol_path ≡ Option.some s.id.name
  pub path : length s.symbol_path ≤ i32_max
  pub parts : All (λ (p : Bytes). length p < 2 ^ 32) s.symbol_path

module _ (to_signed_bytes_be : ℤ → Bytes) where
  unfoldable mutual
    pub IsEncodable : {t : FieldType} → Value t → Type 0
    IsEncodable (boolean b) = Unit
    IsEncodable (char c) = c < 2 ^ 16
    IsEncodable (int n) = n < 2 ^ 32
    IsEncodable (string s) = length s < 2 ^ 32
    IsEncodable (bigint z) = length (to_signed_bytes_be z) < 2 ^ 32
    IsEncodable (symbol s) = IsWritable s
    IsEncodable none = Unit
    IsEncodable (some v) = IsEncodable v
    IsEncodable (seq vs) = (count vs ≤ i32_max) × AllElems vs
    IsEncodable (set vs) = (count vs ≤ i32_max) × AllElems vs
    IsEncodable (map es) = (size es ≤ i32_max) × AllEntries es
    IsEncodable (tuple vs) = AllFields vs
    IsEncodable (struct vs) = AllFields vs
    IsEncodable (enum {g} k v) = (has_own_marker g k ≡ true) × IsEncodable v

    pub AllFields : {ts : FieldTypes} → Fields ts → Type 0
    AllFields [] = Unit
    AllFields (v ∷ vs) = IsEncodable v × AllFields vs

    pub AllElems : {t : FieldType} → Elems t → Type 0
    AllElems no_elems = Unit
    AllElems (elem v vs) = IsEncodable v × AllElems vs

    pub AllEntries : {k v : FieldType} → Entries k v → Type 0
    AllEntries no_entries = Unit
    AllEntries (entry a b es) = IsEncodable a × IsEncodable b × AllEntries es

  -- An encodable value has only lengths that the serializer accepts.
  mutual
    unfolding IsEncodable fits

    pub IsEncodable-fits : {t : FieldType} (v : Value t) → IsEncodable v → fits v ≡ true
    IsEncodable-fits (symbol s) h = ground (arith, h.path)
    IsEncodable-fits (some v) h = IsEncodable-fits v h
    IsEncodable-fits (seq vs) h = ground (arith, AllElems-fits vs h.1)
    IsEncodable-fits (set vs) h = ground (arith, AllElems-fits vs h.1)
    IsEncodable-fits (map es) h = ground (arith, AllEntries-fits es h.1)
    IsEncodable-fits (tuple vs) h = AllFields-fits vs h
    IsEncodable-fits (struct vs) h = AllFields-fits vs h
    IsEncodable-fits (enum k v) h = IsEncodable-fits v h.1
    IsEncodable-fits _ h = refl

    AllFields-fits : {ts : FieldTypes} (vs : Fields ts) → AllFields vs → fits_fields vs ≡ true
    AllFields-fits [] h = refl
    AllFields-fits (v ∷ vs) h = ground (arith, IsEncodable-fits v h.0, AllFields-fits vs h.1)

    AllElems-fits : {t : FieldType} (vs : Elems t) → AllElems vs → fits_elems vs ≡ true
    AllElems-fits no_elems h = refl
    AllElems-fits (elem v vs) h = ground (arith, IsEncodable-fits v h.0, AllElems-fits vs h.1)

    AllEntries-fits : {k v : FieldType} (es : Entries k v) → AllEntries es → fits_entries es ≡ true
    AllEntries-fits no_entries h = refl
    AllEntries-fits (entry a b es) h =
        ground (arith, IsEncodable-fits a h.0, IsEncodable-fits b h.1, AllEntries-fits es h.2)
