-- ===== src/Factory/Definitions.antt =====
-- stainless_data/src/ast/generated.rs and ast.rs: the functions of `Factory` for definitions, constructors, cases, flags and patterns that the
-- extraction builds. Allocation in the arena is left out.
use rust_stainless.Prelude.{List, Option}
use rust_stainless.Ast.Kinds.{
  Group, FieldType, flg, expr, tpe, pat, def, exp, typ, oth, DefinitionKind, FlagKind, ExprKind,
  TypeKind, PatternKind, OtherKind,
}
use rust_stainless.Ast.Identifier.{SymbolIdentifier}
use rust_stainless.Ast.Value.{Value, [], ◌∷◌, symbol, seq, struct, elems_of, option_of}

abbrev pub type_parameter_def :
    Value (typ TypeKind.type_parameter) → Value (def DefinitionKind.type_parameter_def)
type_parameter_def tp = struct (tp ∷ [])

abbrev pub val_def : Value (exp ExprKind.variable) → Value (def DefinitionKind.val_def)
val_def v = struct (v ∷ [])

abbrev pub fun_def :
    SymbolIdentifier
    → List (Value (def DefinitionKind.type_parameter_def))
    → List (Value (def DefinitionKind.val_def))
    → Value tpe
    → Value expr
    → List (Value flg)
    → Value (def DefinitionKind.fun_def)
fun_def id tparams params return_type full_body flags = struct (
    symbol id
    ∷ seq (elems_of tparams)
    ∷ seq (elems_of params)
    ∷ return_type
    ∷ full_body
    ∷ seq (elems_of flags)
    ∷ [])

abbrev pub adt_sort :
    SymbolIdentifier
    → List (Value (def DefinitionKind.type_parameter_def))
    → List (Value (oth OtherKind.adt_constructor))
    → List (Value flg)
    → Value (def DefinitionKind.adt_sort)
adt_sort id tparams constructors flags =
    struct
      (symbol id ∷ seq (elems_of tparams) ∷ seq (elems_of constructors) ∷ seq (elems_of flags) ∷ [])

abbrev pub adt_constructor :
    SymbolIdentifier
    → SymbolIdentifier
    → List (Value (def DefinitionKind.val_def))
    → Value (oth OtherKind.adt_constructor)
adt_constructor id sort fields = struct (symbol id ∷ symbol sort ∷ seq (elems_of fields) ∷ [])

abbrev pub match_case :
    Value pat → Option (Value expr) → Value expr → Value (oth OtherKind.match_case)
match_case pattern opt_guard rhs = struct (pattern ∷ option_of opt_guard ∷ rhs ∷ [])

abbrev pub extern : Value (FieldType.struct Group.flag FlagKind.extern)
extern = struct []

abbrev pub is_pure : Value (FieldType.struct Group.flag FlagKind.is_pure)
is_pure = struct []

abbrev pub is_mutable : Value (FieldType.struct Group.flag FlagKind.is_mutable)
is_mutable = struct []

abbrev pub is_var : Value (FieldType.struct Group.flag FlagKind.is_var)
is_var = struct []

abbrev pub law : Value (FieldType.struct Group.flag FlagKind.law)
law = struct []

abbrev pub wildcard_pattern :
    Option (Value (def DefinitionKind.val_def))
    → Value (FieldType.struct Group.pattern PatternKind.wildcard_pattern)
wildcard_pattern binder = struct (option_of binder ∷ [])

abbrev pub adt_pattern :
    Option (Value (def DefinitionKind.val_def))
    → SymbolIdentifier
    → List (Value tpe)
    → List (Value pat)
    → Value (FieldType.struct Group.pattern PatternKind.adt_pattern)
adt_pattern binder id tps sub_patterns =
    struct (option_of binder ∷ symbol id ∷ seq (elems_of tps) ∷ seq (elems_of sub_patterns) ∷ [])

abbrev pub tuple_pattern :
    Option (Value (def DefinitionKind.val_def))
    → List (Value pat)
    → Value (FieldType.struct Group.pattern PatternKind.tuple_pattern)
tuple_pattern binder sub_patterns = struct (option_of binder ∷ seq (elems_of sub_patterns) ∷ [])

abbrev pub literal_pattern :
    Option (Value (def DefinitionKind.val_def))
    → Value expr
    → Value (FieldType.struct Group.pattern PatternKind.literal_pattern)
literal_pattern binder lit = struct (option_of binder ∷ lit ∷ [])
