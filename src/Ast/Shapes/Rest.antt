-- ===== src/Ast/Shapes/Rest.antt =====
-- stainless_data/src/ast/generated.rs: the fields of each other struct, in the order in which its
-- `impl Serializable` writes them.
use rust_stainless.Ast.Kinds.{
  FieldTypes, ε, ◌▹◌, boolean, int, string, symbol_identifier, option, seq, flg, expr, tpe, pat,
  def, exp, typ, oth, DefinitionKind, FlagKind, ExprKind, TypeKind, PatternKind, OtherKind,
}

abbrev pub definition_fields : DefinitionKind → FieldTypes
definition_fields DefinitionKind.adt_sort =
    symbol_identifier
    ▹ seq (def DefinitionKind.type_parameter_def)
    ▹ seq (oth OtherKind.adt_constructor)
    ▹ seq flg
    ▹ ε
definition_fields DefinitionKind.class_def =
    symbol_identifier
    ▹ seq (def DefinitionKind.type_parameter_def)
    ▹ seq (typ TypeKind.class_type)
    ▹ seq (def DefinitionKind.val_def)
    ▹ seq flg
    ▹ ε
definition_fields DefinitionKind.fun_def =
    symbol_identifier
    ▹ seq (def DefinitionKind.type_parameter_def)
    ▹ seq (def DefinitionKind.val_def)
    ▹ tpe
    ▹ expr
    ▹ seq flg
    ▹ ε
definition_fields DefinitionKind.local_class_def =
    symbol_identifier
    ▹ seq (def DefinitionKind.type_parameter_def)
    ▹ seq tpe
    ▹ seq (def DefinitionKind.val_def)
    ▹ seq (def DefinitionKind.local_method_def)
    ▹ seq (def DefinitionKind.local_type_def)
    ▹ seq flg
    ▹ ε
definition_fields DefinitionKind.local_fun_def =
    symbol_identifier
    ▹ seq (def DefinitionKind.type_parameter_def)
    ▹ seq (def DefinitionKind.val_def)
    ▹ tpe
    ▹ expr
    ▹ seq flg
    ▹ ε
definition_fields DefinitionKind.local_method_def =
    symbol_identifier
    ▹ seq (def DefinitionKind.type_parameter_def)
    ▹ seq (def DefinitionKind.val_def)
    ▹ tpe
    ▹ expr
    ▹ seq flg
    ▹ ε
definition_fields DefinitionKind.local_type_def =
    symbol_identifier ▹ seq (def DefinitionKind.type_parameter_def) ▹ tpe ▹ seq flg ▹ ε
definition_fields DefinitionKind.type_def =
    symbol_identifier ▹ seq (def DefinitionKind.type_parameter_def) ▹ tpe ▹ seq flg ▹ ε
definition_fields DefinitionKind.type_parameter_def = typ TypeKind.type_parameter ▹ ε
definition_fields DefinitionKind.val_def = exp ExprKind.variable ▹ ε

abbrev pub flag_fields : FlagKind → FieldTypes
flag_fields FlagKind.annotation = string ▹ seq expr ▹ ε
flag_fields FlagKind.bounds = tpe ▹ tpe ▹ ε
flag_fields FlagKind.derived = symbol_identifier ▹ ε
flag_fields FlagKind.erasable = ε
flag_fields FlagKind.extern = ε
flag_fields FlagKind.final = ε
flag_fields FlagKind.ghost = ε
flag_fields FlagKind.has_adt_equality = symbol_identifier ▹ ε
flag_fields FlagKind.has_adt_invariant = symbol_identifier ▹ ε
flag_fields FlagKind.ignore = ε
flag_fields FlagKind.indexed_at = expr ▹ ε
flag_fields FlagKind.inline = ε
flag_fields FlagKind.inline_invariant = ε
flag_fields FlagKind.inline_once = ε
flag_fields FlagKind.is_abstract = ε
flag_fields FlagKind.is_accessor = option symbol_identifier ▹ ε
flag_fields FlagKind.is_case_object = ε
flag_fields FlagKind.is_field = boolean ▹ ε
flag_fields FlagKind.is_invariant = ε
flag_fields FlagKind.is_method_of = symbol_identifier ▹ ε
flag_fields FlagKind.is_mutable = ε
flag_fields FlagKind.is_pure = ε
flag_fields FlagKind.is_sealed = ε
flag_fields FlagKind.is_unapply = symbol_identifier ▹ symbol_identifier ▹ ε
flag_fields FlagKind.is_var = ε
flag_fields FlagKind.law = ε
flag_fields FlagKind.library = ε
flag_fields FlagKind.opaque = ε
flag_fields FlagKind.partial_eval = ε
flag_fields FlagKind.private = ε
flag_fields FlagKind.synthetic = ε
flag_fields FlagKind.unchecked = ε
flag_fields FlagKind.value_class = ε
flag_fields FlagKind.variance = boolean ▹ ε
flag_fields FlagKind.wrapping = ε

abbrev pub type_fields : TypeKind → FieldTypes
type_fields TypeKind.adt_type = symbol_identifier ▹ seq tpe ▹ ε
type_fields TypeKind.annotated_type = tpe ▹ seq flg ▹ ε
type_fields TypeKind.any_type = ε
type_fields TypeKind.array_type = tpe ▹ ε
type_fields TypeKind.bv_type = boolean ▹ int ▹ ε
type_fields TypeKind.bag_type = tpe ▹ ε
type_fields TypeKind.boolean_type = ε
type_fields TypeKind.char_type = ε
type_fields TypeKind.class_type = symbol_identifier ▹ seq tpe ▹ ε
type_fields TypeKind.function_type = seq tpe ▹ tpe ▹ ε
type_fields TypeKind.integer_type = ε
type_fields TypeKind.local_class_type =
    symbol_identifier ▹ seq (def DefinitionKind.type_parameter_def) ▹ seq tpe ▹ seq tpe ▹ ε
type_fields TypeKind.map_type = tpe ▹ tpe ▹ ε
type_fields TypeKind.mutable_map_type = tpe ▹ tpe ▹ ε
type_fields TypeKind.nothing_type = ε
type_fields TypeKind.pi_type = seq (def DefinitionKind.val_def) ▹ tpe ▹ ε
type_fields TypeKind.real_type = ε
type_fields TypeKind.recursive_type = symbol_identifier ▹ seq tpe ▹ expr ▹ ε
type_fields TypeKind.refinement_type = def DefinitionKind.val_def ▹ expr ▹ ε
type_fields TypeKind.set_type = tpe ▹ ε
type_fields TypeKind.sigma_type = seq (def DefinitionKind.val_def) ▹ tpe ▹ ε
type_fields TypeKind.string_type = ε
type_fields TypeKind.tuple_type = seq tpe ▹ ε
type_fields TypeKind.type_apply = typ TypeKind.type_select ▹ seq tpe ▹ ε
type_fields TypeKind.type_bounds = tpe ▹ tpe ▹ seq flg ▹ ε
type_fields TypeKind.type_parameter = symbol_identifier ▹ seq flg ▹ ε
type_fields TypeKind.type_select = option expr ▹ symbol_identifier ▹ ε
type_fields TypeKind.unit_type = ε
type_fields TypeKind.unknown_type = boolean ▹ ε
type_fields TypeKind.untyped = ε
type_fields TypeKind.value_type = tpe ▹ ε

abbrev pub pattern_fields : PatternKind → FieldTypes
pattern_fields PatternKind.adt_pattern =
    option (def DefinitionKind.val_def) ▹ symbol_identifier ▹ seq tpe ▹ seq pat ▹ ε
pattern_fields PatternKind.class_pattern =
    option (def DefinitionKind.val_def) ▹ typ TypeKind.class_type ▹ seq pat ▹ ε
pattern_fields PatternKind.instance_of_pattern = option (def DefinitionKind.val_def) ▹ tpe ▹ ε
pattern_fields PatternKind.literal_pattern = option (def DefinitionKind.val_def) ▹ expr ▹ ε
pattern_fields PatternKind.tuple_pattern = option (def DefinitionKind.val_def) ▹ seq pat ▹ ε
pattern_fields PatternKind.unapply_pattern =
    option (def DefinitionKind.val_def) ▹ seq expr ▹ symbol_identifier ▹ seq tpe ▹ seq pat ▹ ε
pattern_fields PatternKind.wildcard_pattern = option (def DefinitionKind.val_def) ▹ ε

abbrev pub other_fields : OtherKind → FieldTypes
other_fields OtherKind.adt_constructor =
    symbol_identifier ▹ symbol_identifier ▹ seq (def DefinitionKind.val_def) ▹ ε
other_fields OtherKind.import = seq string ▹ boolean ▹ ε
other_fields OtherKind.inner = def DefinitionKind.local_fun_def ▹ ε
other_fields OtherKind.match_case = pat ▹ option expr ▹ expr ▹ ε
other_fields OtherKind.module_def =
    symbol_identifier
    ▹ seq (oth OtherKind.import)
    ▹ seq symbol_identifier
    ▹ seq symbol_identifier
    ▹ seq symbol_identifier
    ▹ seq (oth OtherKind.module_def)
    ▹ ε
other_fields OtherKind.outer = def DefinitionKind.fun_def ▹ ε
other_fields OtherKind.unit_def =
    symbol_identifier
    ▹ seq (oth OtherKind.import)
    ▹ seq symbol_identifier
    ▹ seq (oth OtherKind.module_def)
    ▹ boolean
    ▹ ε
