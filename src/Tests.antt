-- ===== src/Tests.antt =====
-- Small programs, and the theorems applied to them.
pub mod Specs
pub mod Ids
pub mod Marked
pub mod Items
pub mod Sorts
pub mod Constants
pub mod Found
pub mod Stubs
pub mod Bodies
pub mod Guarded
use rust_stainless.Prelude.{
  ℕ, ◌+◌, ◌^◌, ◌≤◌, if◌then◌else◌, ◌≡◌, ◌≢◌, refl, sym, ◌∙◌, List, Bool, true, false, Option, All,
  leb, ◌&&◌, ◌++◌, map, inl, inr, arith,
}
use mathlib.Core.List.{Permᴰ, Perm}
use rust_stainless.Prelude.Outcome.{Outcome, done, panicked}
use rust_stainless.Prelude.Int.{ℤ, pos, negsuc}
use rust_stainless.Prelude.Sorting.{DistinctKeys, sort}
use rust_stainless.Prelude.Texts.{Text, codes}
use rust_stainless.Ser.{Bytes, i32_max}
use rust_stainless.Ast.Kinds.{
  FieldType, DefinitionKind, ExprKind, TypeKind, Group, Kind, expression, def,
}
use rust_stainless.Ast.Markers.{marker}
use rust_stainless.Ast.Distinct.{marker-injective}
use rust_stainless.Ast.Identifier.{Identifier, SymbolIdentifier}
use rust_stainless.Ast.Value.{
  Value, boolean, char, int, string, bigint, symbol, none, some, seq, tuple, struct, enum, [], ◌∷◌,
  no_elems, elem,
}
use rust_stainless.Ast.Serialize.{serialize}
use rust_stainless.Ast.Encoding.{encode, fits}
use rust_stainless.Ast.Encodable.{IsEncodable, IsWritable}
use rust_stainless.Ast.Serialized.{
  serialize-prefix_free, serialize-eq, serialize-encodable, serialize-char_wraps,
}
use rust_stainless.Symbols.{
  AdtSort, FunDef, Symbols, sort_id, fun_id, new, sorted_pair, serialize_symbols,
}
use rust_stainless.Symbols.Stable.{
  SameProgram, IsMap, gid, new-keeps_last, found, last_of, serialize_symbols-eq_of_same,
}
use rust_stainless.Symbols.Determined.{serialize_symbols-determines, serialize_symbols-eq}

-- A notation of integers that stands in for `to_signed_bytes_be`.
abbrev signed_bytes : ℤ → Bytes
signed_bytes (pos n) = List.◌∷◌ 0 (List.◌∷◌ n List.[])
signed_bytes (negsuc n) = List.◌∷◌ 1 (List.◌∷◌ n List.[])

signed_bytes-injective : (a b : ℤ) → signed_bytes a ≡ signed_bytes b → a ≡ b
signed_bytes-injective (pos m) (pos n) e = cc
signed_bytes-injective (pos m) (negsuc n) e = cc
signed_bytes-injective (negsuc m) (pos n) e = cc
signed_bytes-injective (negsuc m) (negsuc n) e = cc

abbrev identifier : Bytes → ℕ → SymbolIdentifier
identifier name id = record {
  id = record { name = name; global_id = id; id = 0 };
  symbol_path = List.◌∷◌ (codes "main") (List.◌∷◌ name List.[]);
}

abbrev point : AdtSort
point =
    struct (symbol (identifier (codes "Point") 0) ∷ seq no_elems ∷ seq no_elems ∷ seq no_elems ∷ [])

abbrev line : AdtSort
line = struct (
    symbol (identifier (codes "Line") 4294967295) ∷ seq no_elems ∷ seq no_elems ∷ seq no_elems ∷ [])

-- `fn answer() { 42 }`
abbrev answer : FunDef
answer = struct (
    symbol (identifier (codes "answer") 2)
    ∷ seq no_elems
    ∷ seq no_elems
    ∷ enum TypeKind.integer_type (struct [])
    ∷ enum ExprKind.integer_literal (struct (bigint (pos 42) ∷ []))
    ∷ seq no_elems
    ∷ [])

abbrev program : Symbols
program = record {
  sorts = List.◌∷◌ point (List.◌∷◌ line List.[]);
  functions = List.◌∷◌ answer List.[];
}

-- The same definitions in another order.
abbrev reordered : Symbols
reordered = record {
  sorts = List.◌∷◌ line (List.◌∷◌ point List.[]);
  functions = List.◌∷◌ answer List.[];
}

program-reordered : SameProgram program reordered
program-reordered = record {
  sorts = ∣ Permᴰ.swap refl refl ∣₁;
  functions = ∣ Permᴰ.cons refl Permᴰ.nil ∣₁;
}

identifier-IsWritable_point : IsWritable (identifier (codes "Point") 0)
identifier-IsWritable_point = record {
  global_id = omega arith;
  local_id = omega arith;
  named = refl;
  path = omega arith;
  parts = omega arith;
}

identifier-IsWritable_line : IsWritable (identifier (codes "Line") 4294967295)
identifier-IsWritable_line = record {
  global_id = omega arith;
  local_id = omega arith;
  named = refl;
  path = omega arith;
  parts = omega arith;
}

identifier-IsWritable_answer : IsWritable (identifier (codes "answer") 2)
identifier-IsWritable_answer = record {
  global_id = omega arith;
  local_id = omega arith;
  named = refl;
  path = omega arith;
  parts = omega arith;
}

-- The lists of a definition without parameters and flags.
empty : 0 ≤ i32_max
empty = omega arith

point-IsEncodable : IsEncodable signed_bytes point
unfolding IsEncodable
point-IsEncodable = (identifier-IsWritable_point, ((empty, tt), ((empty, tt), ((empty, tt), tt))))

line-IsEncodable : IsEncodable signed_bytes line
unfolding IsEncodable
line-IsEncodable = (identifier-IsWritable_line, ((empty, tt), ((empty, tt), ((empty, tt), tt))))

answer-IsEncodable : IsEncodable signed_bytes answer
unfolding IsEncodable
answer-IsEncodable = (
  identifier-IsWritable_answer,
  ((empty, tt), ((empty, tt), ((refl, tt), ((refl, (omega arith, tt)), ((empty, tt), tt))))),
)

program-IsEncodable : IsEncodable signed_bytes (sorted_pair program)
unfolding IsEncodable sorted_pair sort
program-IsEncodable = (
  (omega arith, (answer-IsEncodable, tt)),
  ((omega arith, (line-IsEncodable, (point-IsEncodable, tt))), tt),
)

reordered-IsEncodable : IsEncodable signed_bytes (sorted_pair reordered)
unfolding IsEncodable sorted_pair sort
reordered-IsEncodable = (
  (omega arith, (answer-IsEncodable, tt)),
  ((omega arith, (line-IsEncodable, (point-IsEncodable, tt))), tt),
)

program-IsMap : IsMap sort_id program.sorts
program-IsMap = (((λ e. omega arith, tt), (tt, tt)), omega arith)

functions-IsMap : IsMap fun_id program.functions
functions-IsMap = ((tt, tt), omega arith)

serialize-prefix_free_example :
    (point ≡ point) × (◌≡◌ {A = Bytes} (List.◌∷◌ 1 List.[]) (List.◌∷◌ 1 List.[]))
serialize-prefix_free_example =
    serialize-prefix_free signed_bytes signed_bytes-injective point point List.[] _ _
      (List.◌∷◌ 1 List.[]) (List.◌∷◌ 1 List.[]) point-IsEncodable point-IsEncodable
      (serialize-encodable signed_bytes point List.[] point-IsEncodable)
      (serialize-encodable signed_bytes point List.[] point-IsEncodable) refl

serialize-eq_example :
    serialize signed_bytes answer List.[]
    ≡ (if fits answer then done (List.[] ++ encode signed_bytes answer) else panicked)
serialize-eq_example = serialize-eq signed_bytes answer List.[]

serialize-char_wraps_example :
    serialize signed_bytes (char (65 + 2 ^ 16)) List.[] ≡ serialize signed_bytes (char 65) List.[]
serialize-char_wraps_example = serialize-char_wraps signed_bytes 65 List.[]

-- The two orders give one output.
abbrev output : Outcome Bytes
output = serialize_symbols signed_bytes program List.[]

serialize_symbols-eq_of_same_example :
    serialize_symbols signed_bytes program List.[]
    ≡ serialize_symbols signed_bytes reordered List.[]
serialize_symbols-eq_of_same_example =
    serialize_symbols-eq_of_same signed_bytes program reordered List.[] program-IsMap
      functions-IsMap program-reordered

serialize_symbols-determines_example : SameProgram program reordered
serialize_symbols-determines_example =
    serialize_symbols-determines signed_bytes signed_bytes-injective program reordered List.[] _
      program-IsEncodable reordered-IsEncodable
      (serialize_symbols-eq signed_bytes signed_bytes-injective program List.[] program-IsEncodable)
      (sym (
          serialize_symbols-eq_of_same signed_bytes program reordered List.[] program-IsMap
            functions-IsMap program-reordered)
        ∙ serialize_symbols-eq signed_bytes signed_bytes-injective program List.[]
            program-IsEncodable)

new-keeps_last_example :
    let made =
      new (List.◌∷◌ point (List.◌∷◌ line (List.◌∷◌ point List.[]))) (List.◌∷◌ answer List.[]) in
    ((k : SymbolIdentifier)
      → (found sort_id made.sorts k
          ≡ last_of sort_id (List.◌∷◌ point (List.◌∷◌ line (List.◌∷◌ point List.[]))) k)
        × (found fun_id made.functions k ≡ last_of fun_id (List.◌∷◌ answer List.[]) k))
    × DistinctKeys (λ d. gid (sort_id d)) made.sorts
    × DistinctKeys (λ f. gid (fun_id f)) made.functions
new-keeps_last_example =
    new-keeps_last (List.◌∷◌ point (List.◌∷◌ line (List.◌∷◌ point List.[])))
      (List.◌∷◌ answer List.[])

marker-injective_example : ExprKind.let_expr ≡ ExprKind.let_expr
marker-injective_example =
    marker-injective expression ExprKind.let_expr ExprKind.let_expr refl refl refl
