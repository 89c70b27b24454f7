-- ===== src/Ast/Shapes/Expr.antt =====
-- stainless_data/src/ast/generated.rs: the fields of each expression, in the order in which its
-- `impl Serializable` writes them.
-- `BVLiteral` (ast.rs) writes its three as one tuple. The structs are in the source's order, about ten
-- in a function; the last clause of the last function is for the structs of the others.
use rust_stainless.Ast.Kinds.{
  FieldTypes, ε, ◌▹◌, boolean, char, int, string, bigint, symbol_identifier, option, seq, map,
  tuple, flg, expr, tpe, def, exp, typ, oth, DefinitionKind, ExprKind, TypeKind, OtherKind,
}

abbrev pub expr_fields_from_times : ExprKind → FieldTypes
expr_fields_from_times ExprKind.times = expr ▹ expr ▹ ε
expr_fields_from_times ExprKind.try = expr ▹ seq (oth OtherKind.match_case) ▹ option expr ▹ ε
expr_fields_from_times ExprKind.tuple = seq expr ▹ ε
expr_fields_from_times ExprKind.tuple_select = expr ▹ int ▹ ε
expr_fields_from_times ExprKind.u_minus = expr ▹ ε
expr_fields_from_times ExprKind.unit_literal = ε
expr_fields_from_times ExprKind.variable = symbol_identifier ▹ tpe ▹ seq flg ▹ ε
expr_fields_from_times ExprKind.while = expr ▹ expr ▹ option expr ▹ ε
expr_fields_from_times _ = ε

abbrev pub expr_fields_from_string_concat : ExprKind → FieldTypes
expr_fields_from_string_concat ExprKind.string_concat = expr ▹ expr ▹ ε
expr_fields_from_string_concat ExprKind.string_length = expr ▹ ε
expr_fields_from_string_concat ExprKind.string_literal = string ▹ ε
expr_fields_from_string_concat ExprKind.sub_string = expr ▹ expr ▹ expr ▹ ε
expr_fields_from_string_concat ExprKind.subset_of = expr ▹ expr ▹ ε
expr_fields_from_string_concat ExprKind.super = typ TypeKind.class_type ▹ ε
expr_fields_from_string_concat ExprKind.this = typ TypeKind.class_type ▹ ε
expr_fields_from_string_concat ExprKind.throw = expr ▹ ε
expr_fields_from_string_concat ExprKind.throwing = expr ▹ exp ExprKind.lambda ▹ ε
expr_fields_from_string_concat k = expr_fields_from_times k

abbrev pub expr_fields_from_plus : ExprKind → FieldTypes
expr_fields_from_plus ExprKind.plus = expr ▹ expr ▹ ε
expr_fields_from_plus ExprKind.remainder = expr ▹ expr ▹ ε
expr_fields_from_plus ExprKind.require = expr ▹ expr ▹ ε
expr_fields_from_plus ExprKind.set_add = expr ▹ expr ▹ ε
expr_fields_from_plus ExprKind.set_difference = expr ▹ expr ▹ ε
expr_fields_from_plus ExprKind.set_intersection = expr ▹ expr ▹ ε
expr_fields_from_plus ExprKind.set_union = expr ▹ expr ▹ ε
expr_fields_from_plus ExprKind.sized_adt = symbol_identifier ▹ seq tpe ▹ seq expr ▹ expr ▹ ε
expr_fields_from_plus ExprKind.snapshot = expr ▹ ε
expr_fields_from_plus k = expr_fields_from_string_concat k

abbrev pub expr_fields_from_mutable_map_duplicate : ExprKind → FieldTypes
expr_fields_from_mutable_map_duplicate ExprKind.mutable_map_duplicate = expr ▹ ε
expr_fields_from_mutable_map_duplicate ExprKind.mutable_map_update = expr ▹ expr ▹ expr ▹ ε
expr_fields_from_mutable_map_duplicate ExprKind.mutable_map_updated = expr ▹ expr ▹ expr ▹ ε
expr_fields_from_mutable_map_duplicate ExprKind.mutable_map_with_default = tpe ▹ tpe ▹ expr ▹ ε
expr_fields_from_mutable_map_duplicate ExprKind.no_tree = tpe ▹ ε
expr_fields_from_mutable_map_duplicate ExprKind.not = expr ▹ ε
expr_fields_from_mutable_map_duplicate ExprKind.old = expr ▹ ε
expr_fields_from_mutable_map_duplicate ExprKind.or = seq expr ▹ ε
expr_fields_from_mutable_map_duplicate ExprKind.passes =
    expr ▹ expr ▹ seq (oth OtherKind.match_case) ▹ ε
expr_fields_from_mutable_map_duplicate k = expr_fields_from_plus k

abbrev pub expr_fields_from_map_apply : ExprKind → FieldTypes
expr_fields_from_map_apply ExprKind.map_apply = expr ▹ expr ▹ ε
expr_fields_from_map_apply ExprKind.map_updated = expr ▹ expr ▹ expr ▹ ε
expr_fields_from_map_apply ExprKind.match_expr = expr ▹ seq (oth OtherKind.match_case) ▹ ε
expr_fields_from_map_apply ExprKind.max = seq expr ▹ ε
expr_fields_from_map_apply ExprKind.method_invocation =
    expr ▹ symbol_identifier ▹ seq tpe ▹ seq expr ▹ ε
expr_fields_from_map_apply ExprKind.minus = expr ▹ expr ▹ ε
expr_fields_from_map_apply ExprKind.modulo = expr ▹ expr ▹ ε
expr_fields_from_map_apply ExprKind.multiplicity_in_bag = expr ▹ expr ▹ ε
expr_fields_from_map_apply ExprKind.mutable_map_apply = expr ▹ expr ▹ ε
expr_fields_from_map_apply k = expr_fields_from_mutable_map_duplicate k

abbrev pub expr_fields_from_let_expr : ExprKind → FieldTypes
expr_fields_from_let_expr ExprKind.let_expr = def DefinitionKind.val_def ▹ expr ▹ expr ▹ ε
expr_fields_from_let_expr ExprKind.let_class = seq (def DefinitionKind.local_class_def) ▹ expr ▹ ε
expr_fields_from_let_expr ExprKind.let_rec = seq (def DefinitionKind.local_fun_def) ▹ expr ▹ ε
expr_fields_from_let_expr ExprKind.let_var = def DefinitionKind.val_def ▹ expr ▹ expr ▹ ε
expr_fields_from_let_expr ExprKind.local_class_constructor =
    typ TypeKind.local_class_type ▹ seq expr ▹ ε
expr_fields_from_let_expr ExprKind.local_class_selector = expr ▹ symbol_identifier ▹ tpe ▹ ε
expr_fields_from_let_expr ExprKind.local_method_invocation =
    expr ▹ exp ExprKind.variable ▹ seq (typ TypeKind.type_parameter) ▹ seq tpe ▹ seq expr ▹ ε
expr_fields_from_let_expr ExprKind.local_this = typ TypeKind.local_class_type ▹ ε
expr_fields_from_let_expr k = expr_fields_from_map_apply k

abbrev pub expr_fields_from_if_expr : ExprKind → FieldTypes
expr_fields_from_if_expr ExprKind.if_expr = expr ▹ expr ▹ expr ▹ ε
expr_fields_from_if_expr ExprKind.implies = expr ▹ expr ▹ ε
expr_fields_from_if_expr ExprKind.integer_literal = bigint ▹ ε
expr_fields_from_if_expr ExprKind.is_constructor = expr ▹ symbol_identifier ▹ ε
expr_fields_from_if_expr ExprKind.is_instance_of = expr ▹ tpe ▹ ε
expr_fields_from_if_expr ExprKind.lambda = seq (def DefinitionKind.val_def) ▹ expr ▹ ε
expr_fields_from_if_expr ExprKind.large_array = map int expr ▹ expr ▹ expr ▹ tpe ▹ ε
expr_fields_from_if_expr ExprKind.less_equals = expr ▹ expr ▹ ε
expr_fields_from_if_expr ExprKind.less_than = expr ▹ expr ▹ ε
expr_fields_from_if_expr k = expr_fields_from_let_expr k

abbrev pub expr_fields_from_finite_bag : ExprKind → FieldTypes
expr_fields_from_finite_bag ExprKind.finite_bag = seq (tuple (expr ▹ expr ▹ ε)) ▹ tpe ▹ ε
expr_fields_from_finite_bag ExprKind.finite_map =
    seq (tuple (expr ▹ expr ▹ ε)) ▹ expr ▹ tpe ▹ tpe ▹ ε
expr_fields_from_finite_bag ExprKind.finite_set = seq expr ▹ tpe ▹ ε
expr_fields_from_finite_bag ExprKind.forall = seq (def DefinitionKind.val_def) ▹ expr ▹ ε
expr_fields_from_finite_bag ExprKind.fraction_literal = bigint ▹ bigint ▹ ε
expr_fields_from_finite_bag ExprKind.function_invocation =
    symbol_identifier ▹ seq tpe ▹ seq expr ▹ ε
expr_fields_from_finite_bag ExprKind.generic_value = typ TypeKind.type_parameter ▹ int ▹ ε
expr_fields_from_finite_bag ExprKind.greater_equals = expr ▹ expr ▹ ε
expr_fields_from_finite_bag ExprKind.greater_than = expr ▹ expr ▹ ε
expr_fields_from_finite_bag k = expr_fields_from_if_expr k

abbrev pub expr_fields_from_class_selector : ExprKind → FieldTypes
expr_fields_from_class_selector ExprKind.class_selector = expr ▹ symbol_identifier ▹ ε
expr_fields_from_class_selector ExprKind.decreases = expr ▹ expr ▹ ε
expr_fields_from_class_selector ExprKind.division = expr ▹ expr ▹ ε
expr_fields_from_class_selector ExprKind.element_of_set = expr ▹ expr ▹ ε
expr_fields_from_class_selector ExprKind.ensuring = expr ▹ exp ExprKind.lambda ▹ ε
expr_fields_from_class_selector ExprKind.equals = expr ▹ expr ▹ ε
expr_fields_from_class_selector ExprKind.error = tpe ▹ string ▹ ε
expr_fields_from_class_selector ExprKind.field_assignment = expr ▹ symbol_identifier ▹ expr ▹ ε
expr_fields_from_class_selector ExprKind.finite_array = seq expr ▹ tpe ▹ ε
expr_fields_from_class_selector k = expr_fields_from_finite_bag k

abbrev pub expr_fields_from_bag_union : ExprKind → FieldTypes
expr_fields_from_bag_union ExprKind.bag_union = expr ▹ expr ▹ ε
expr_fields_from_bag_union ExprKind.block = seq expr ▹ expr ▹ ε
expr_fields_from_bag_union ExprKind.bool_bitwise_and = expr ▹ expr ▹ ε
expr_fields_from_bag_union ExprKind.bool_bitwise_or = expr ▹ expr ▹ ε
expr_fields_from_bag_union ExprKind.bool_bitwise_xor = expr ▹ expr ▹ ε
expr_fields_from_bag_union ExprKind.boolean_literal = boolean ▹ ε
expr_fields_from_bag_union ExprKind.char_literal = char ▹ ε
expr_fields_from_bag_union ExprKind.choose = def DefinitionKind.val_def ▹ expr ▹ ε
expr_fields_from_bag_union ExprKind.class_constructor = typ TypeKind.class_type ▹ seq expr ▹ ε
expr_fields_from_bag_union k = expr_fields_from_class_selector k

abbrev pub expr_fields_from_bv_narrowing_cast : ExprKind → FieldTypes
expr_fields_from_bv_narrowing_cast ExprKind.bv_narrowing_cast = expr ▹ typ TypeKind.bv_type ▹ ε
expr_fields_from_bv_narrowing_cast ExprKind.bv_not = expr ▹ ε
expr_fields_from_bv_narrowing_cast ExprKind.bv_or = expr ▹ expr ▹ ε
expr_fields_from_bv_narrowing_cast ExprKind.bv_shift_left = expr ▹ expr ▹ ε
expr_fields_from_bv_narrowing_cast ExprKind.bv_widening_cast = expr ▹ typ TypeKind.bv_type ▹ ε
expr_fields_from_bv_narrowing_cast ExprKind.bv_xor = expr ▹ expr ▹ ε
expr_fields_from_bv_narrowing_cast ExprKind.bag_add = expr ▹ expr ▹ ε
expr_fields_from_bv_narrowing_cast ExprKind.bag_difference = expr ▹ expr ▹ ε
expr_fields_from_bv_narrowing_cast ExprKind.bag_intersection = expr ▹ expr ▹ ε
expr_fields_from_bv_narrowing_cast k = expr_fields_from_bag_union k

abbrev pub expr_fields_from_array_updated : ExprKind → FieldTypes
expr_fields_from_array_updated ExprKind.array_updated = expr ▹ expr ▹ expr ▹ ε
expr_fields_from_array_updated ExprKind.as_instance_of = expr ▹ tpe ▹ ε
expr_fields_from_array_updated ExprKind.assert = expr ▹ option string ▹ expr ▹ ε
expr_fields_from_array_updated ExprKind.assignment = exp ExprKind.variable ▹ expr ▹ ε
expr_fields_from_array_updated ExprKind.assume = expr ▹ expr ▹ ε
expr_fields_from_array_updated ExprKind.bv_a_shift_right = expr ▹ expr ▹ ε
expr_fields_from_array_updated ExprKind.bv_and = expr ▹ expr ▹ ε
expr_fields_from_array_updated ExprKind.bv_l_shift_right = expr ▹ expr ▹ ε
expr_fields_from_array_updated ExprKind.bv_literal = tuple (boolean ▹ bigint ▹ int ▹ ε) ▹ ε
expr_fields_from_array_updated k = expr_fields_from_bv_narrowing_cast k

abbrev pub expr_fields : ExprKind → FieldTypes
expr_fields ExprKind.adt = symbol_identifier ▹ seq tpe ▹ seq expr ▹ ε
expr_fields ExprKind.adt_selector = expr ▹ symbol_identifier ▹ ε
expr_fields ExprKind.and = seq expr ▹ ε
expr_fields ExprKind.annotated = expr ▹ seq flg ▹ ε
expr_fields ExprKind.application = expr ▹ seq expr ▹ ε
expr_fields ExprKind.apply_let_rec =
    symbol_identifier
    ▹ seq (typ TypeKind.type_parameter)
    ▹ typ TypeKind.function_type
    ▹ seq tpe
    ▹ seq expr
    ▹ ε
expr_fields ExprKind.array_length = expr ▹ ε
expr_fields ExprKind.array_select = expr ▹ expr ▹ ε
expr_fields ExprKind.array_update = expr ▹ expr ▹ expr ▹ ε
expr_fields k = expr_fields_from_array_updated k
