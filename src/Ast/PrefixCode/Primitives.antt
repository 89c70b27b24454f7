-- ===== src/Ast/PrefixCode/Primitives.antt =====
-- The encodings of the primitive values are prefix codes.
use rust_stainless.Prelude.{ℕ, ◌^◌, ◌≤◌, ◌<◌, ◌≡◌, refl, ap, Bool, List, arith, length, All}
use rust_stainless.Ser.{Bytes, bool_byte, i32_max}
use rust_stainless.Ser.Prefix.{
  Tells, Tells-map, Tells-cons, Tells-head, Tells-append, Tells-nil, append_Tells, u32_Tells,
  length_Tells,
}
use rust_stainless.Ast.Identifier.{SymbolIdentifier}
use rust_stainless.Ast.Encoding.{
  encode_bytes, encode_strings, encode_string, encode_symbol, encode_path, encode_int,
}
use rust_stainless.Ast.Encodable.{IsWritable, last}

pub bool_Tells :
    (a b : Bool) → Tells (a ≡ b) (List.◌∷◌ (bool_byte a) List.[]) (List.◌∷◌ (bool_byte b) List.[])
bool_Tells a b = Tells-head λ e. Tells-map (λ _. ground arith) Tells-nil

pub bytes_Tells :
    (s u : Bytes)
    → length s < 2 ^ 32
    → length u < 2 ^ 32
    → Tells (s ≡ u) (encode_bytes s) (encode_bytes u)
bytes_Tells s u hs hu =
    Tells-map (λ p. p.1)
      (Tells-append (u32_Tells _ _ (omega arith) (omega arith)) λ e. append_Tells s u (omega arith))

pub string_Tells :
    (s u : Bytes)
    → length s < 2 ^ 32
    → length u < 2 ^ 32
    → Tells (s ≡ u) (encode_string s) (encode_string u)
string_Tells s u hs hu = Tells-cons _ _ (Tells-cons _ _ (bytes_Tells s u hs hu))

pub int_Tells : (m n : ℕ) → m < 2 ^ 32 → n < 2 ^ 32 → Tells (m ≡ n) (encode_int m) (encode_int n)
int_Tells m n hm hn = Tells-cons _ _ (Tells-cons _ _ (u32_Tells m n hm hn))

abbrev AllShort : List Bytes → Type 0
AllShort = All (λ (p : Bytes). length p < 2 ^ 32)

strings_Tells :
    (ss us : List Bytes)
    → AllShort ss
    → AllShort us
    → length ss ≡ length us
    → Tells (ss ≡ us) (encode_strings ss) (encode_strings us)
unfolding encode_strings
strings_Tells List.[] List.[] hs hu h = Tells-map (λ _. refl) Tells-nil
strings_Tells List.[] (List.◌∷◌ u us) hs hu h = absurd (omega arith)
strings_Tells (List.◌∷◌ s ss) List.[] hs hu h = absurd (omega arith)
strings_Tells (List.◌∷◌ s ss) (List.◌∷◌ u us) hs hu h =
    Tells-map (λ p. cc (p.0, p.1))
      (Tells-append (string_Tells s u hs.0 hu.0) λ _. strings_Tells ss us hs.1 hu.1 (omega arith))

path_Tells :
    (ss us : List Bytes)
    → length ss ≤ i32_max
    → length us ≤ i32_max
    → AllShort ss
    → AllShort us
    → Tells (ss ≡ us) (encode_path ss) (encode_path us)
path_Tells ss us ls lu hs hu = Tells-cons _ _ (
    Tells-map (λ p. p.1)
      (Tells-append (length_Tells _ _ ls lu) λ counts. strings_Tells ss us hs hu counts))

-- A writable identifier is determined by its numbers and its path.
symbol_eq_of_parts :
    (a b : SymbolIdentifier)
    → IsWritable a
    → IsWritable b
    → a.id.global_id ≡ b.id.global_id
    → a.id.id ≡ b.id.id
    → a.symbol_path ≡ b.symbol_path
    → a ≡ b
symbol_eq_of_parts a b ha hb g l p =
    let names : a.id.name ≡ b.id.name = cc (ha.named, hb.named, ap last p) in
    λ i. record { id = record { name = names i; global_id = g i; id = l i }; symbol_path = p i }

pub symbol_Tells :
    (a b : SymbolIdentifier)
    → IsWritable a
    → IsWritable b
    → Tells (a ≡ b) (encode_symbol a) (encode_symbol b)
symbol_Tells a b ha hb = Tells-cons _ _ (
    Tells-cons _ _ (
      Tells-cons _ _ (
        Tells-map (λ p. symbol_eq_of_parts a b ha hb p.0 p.1.0 p.1.1.0)
          (Tells-append (int_Tells a.id.global_id b.id.global_id ha.global_id hb.global_id) λ _.
            Tells-append (int_Tells a.id.id b.id.id ha.local_id hb.local_id) λ _.
              Tells-append
                (path_Tells a.symbol_path b.symbol_path ha.path hb.path ha.parts hb.parts)
                λ _. int_Tells a.id.global_id b.id.global_id ha.global_id hb.global_id))))
