-- ===== src/Ast/Value.antt =====
-- The values of the field types: the nodes of an AST. `Value expr` is `st::Expr`, `Value (exp k)` the
-- struct `k`, and so on; `enum k v` is `v.into()`, which wraps a struct as a variant of its enum.
-- A `Set` or `Map` is the sequence of its entries in the order of iteration, which Rust leaves open.
use rust_stainless.Prelude.{ℕ, suc, Bool, List, Option}
use rust_stainless.Prelude.Int.{ℤ}
use rust_stainless.Ser.{Bytes}
use rust_stainless.Ast.Kinds.{Group, Kind, FieldType, FieldTypes, ε, ◌▹◌}
use rust_stainless.Ast.Shapes.{fields}
use rust_stainless.Ast.Identifier.{SymbolIdentifier}

infixr 67 ◌∷◌
mutual
  pub data Value : FieldType → Type 0 where
    boolean : Bool → Value FieldType.boolean
    char : ℕ → Value FieldType.char
    int : ℕ → Value FieldType.int
    string : Bytes → Value FieldType.string
    bigint : ℤ → Value FieldType.bigint
    symbol : SymbolIdentifier → Value FieldType.symbol_identifier
    none : {t : FieldType} → Value (FieldType.option t)
    some : {t : FieldType} → Value t → Value (FieldType.option t)
    seq : {t : FieldType} → Elems t → Value (FieldType.seq t)
    set : {t : FieldType} → Elems t → Value (FieldType.set t)
    map : {k v : FieldType} → Entries k v → Value (FieldType.map k v)
    tuple : {ts : FieldTypes} → Fields ts → Value (FieldType.tuple ts)
    struct : {g : Group} {k : Kind g} → Fields (fields g k) → Value (FieldType.struct g k)
    enum : {g : Group} (k : Kind g) → Value (FieldType.struct g k) → Value (FieldType.enum g)

  pub data Fields : FieldTypes → Type 0 where
    [] : Fields ε
    ◌∷◌ : {t : FieldType} {ts : FieldTypes} → Value t → Fields ts → Fields (t ▹ ts)

  pub data Elems : FieldType → Type 0 where
    no_elems : {t : FieldType} → Elems t
    elem : {t : FieldType} → Value t → Elems t → Elems t

  pub data Entries : FieldType → FieldType → Type 0 where
    no_entries : {k v : FieldType} → Entries k v
    entry : {k v : FieldType} → Value k → Value v → Entries k v → Entries k v

-- `len` of a tuple, a `Vec` or `HashSet`, and a `HashMap`.
abbrev pub arity : {ts : FieldTypes} → Fields ts → ℕ
arity [] = 0
arity (v ∷ vs) = suc (arity vs)

abbrev pub count : {t : FieldType} → Elems t → ℕ
count no_elems = 0
count (elem v vs) = suc (count vs)

abbrev pub size : {k v : FieldType} → Entries k v → ℕ
size no_entries = 0
size (entry a b es) = suc (size es)

-- A `Vec` and an `Option` of nodes.
abbrev pub elems_of : {t : FieldType} → List (Value t) → Elems t
elems_of List.[] = no_elems
elems_of (List.◌∷◌ v vs) = elem v (elems_of vs)

abbrev pub option_of : {t : FieldType} → Option (Value t) → Value (FieldType.option t)
option_of Option.none = none
option_of (Option.some v) = some v
