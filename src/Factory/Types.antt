-- ===== src/Factory/Types.antt =====
-- stainless_data/src/ast/generated.rs and ast.rs: the functions of `Factory` for the types that the
-- extraction builds. Allocation in the arena is left out.
use rust_stainless.Prelude.{ℕ, Bool, List}
use rust_stainless.Ast.Kinds.{flg, tpe, typ, TypeKind}
use rust_stainless.Ast.Identifier.{SymbolIdentifier}
use rust_stainless.Ast.Value.{Value, [], ◌∷◌, boolean, int, symbol, seq, struct, elems_of}

abbrev pub boolean_type : Value (typ TypeKind.boolean_type)
boolean_type = struct []

abbrev pub integer_type : Value (typ TypeKind.integer_type)
integer_type = struct []

abbrev pub bv_type : Bool → ℕ → Value (typ TypeKind.bv_type)
bv_type signed size = struct (boolean signed ∷ int size ∷ [])

abbrev pub unit_type : Value (typ TypeKind.unit_type)
unit_type = struct []

abbrev pub untyped : Value (typ TypeKind.untyped)
untyped = struct []

abbrev pub tuple_type : List (Value tpe) → Value (typ TypeKind.tuple_type)
tuple_type bases = struct (seq (elems_of bases) ∷ [])

abbrev pub set_type : Value tpe → Value (typ TypeKind.set_type)
set_type base = struct (base ∷ [])

abbrev pub adt_type : SymbolIdentifier → List (Value tpe) → Value (typ TypeKind.adt_type)
adt_type id tps = struct (symbol id ∷ seq (elems_of tps) ∷ [])

abbrev pub function_type : List (Value tpe) → Value tpe → Value (typ TypeKind.function_type)
function_type domain codomain = struct (seq (elems_of domain) ∷ codomain ∷ [])

abbrev pub type_parameter :
    SymbolIdentifier → List (Value flg) → Value (typ TypeKind.type_parameter)
type_parameter id flags = struct (symbol id ∷ seq (elems_of flags) ∷ [])
