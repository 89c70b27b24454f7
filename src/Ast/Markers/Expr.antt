-- ===== src/Ast/Markers/Expr.antt =====
-- stainless_data/src/ast/generated.rs: the marker that the `impl Serializable` of each expression writes.

use rust_stainless.Prelude.{ℕ}
use rust_stainless.Ast.Kinds.{ExprKind}

unfoldable pub expr_marker : ExprKind → ℕ
expr_marker ExprKind.adt = 27
expr_marker ExprKind.adt_selector = 29
expr_marker ExprKind.and = 31
expr_marker ExprKind.annotated = 123
expr_marker ExprKind.application = 13
expr_marker ExprKind.apply_let_rec = 185
expr_marker ExprKind.array_length = 137
expr_marker ExprKind.array_select = 135
expr_marker ExprKind.array_update = 193
expr_marker ExprKind.array_updated = 136
expr_marker ExprKind.as_instance_of = 203
expr_marker ExprKind.assert = 125
expr_marker ExprKind.assignment = 190
expr_marker ExprKind.assume = 10
expr_marker ExprKind.bv_a_shift_right = 53
expr_marker ExprKind.bv_and = 49
expr_marker ExprKind.bv_l_shift_right = 54
expr_marker ExprKind.bv_literal = 20
expr_marker ExprKind.bv_narrowing_cast = 55
expr_marker ExprKind.bv_not = 48
expr_marker ExprKind.bv_or = 50
expr_marker ExprKind.bv_shift_left = 52
expr_marker ExprKind.bv_widening_cast = 56
expr_marker ExprKind.bv_xor = 51
expr_marker ExprKind.bag_add = 67
expr_marker ExprKind.bag_difference = 71
expr_marker ExprKind.bag_intersection = 69
expr_marker ExprKind.bag_union = 70
expr_marker ExprKind.block = 188
expr_marker ExprKind.bool_bitwise_and = 195
expr_marker ExprKind.bool_bitwise_or = 196
expr_marker ExprKind.bool_bitwise_xor = 197
expr_marker ExprKind.boolean_literal = 23
expr_marker ExprKind.char_literal = 19
expr_marker ExprKind.choose = 16
expr_marker ExprKind.class_constructor = 200
expr_marker ExprKind.class_selector = 201
expr_marker ExprKind.decreases = 180
expr_marker ExprKind.division = 41
expr_marker ExprKind.element_of_set = 61
expr_marker ExprKind.ensuring = 124
expr_marker ExprKind.equals = 30
expr_marker ExprKind.error = 121
expr_marker ExprKind.field_assignment = 191
expr_marker ExprKind.finite_array = 133
expr_marker ExprKind.finite_bag = 66
expr_marker ExprKind.finite_map = 72
expr_marker ExprKind.finite_set = 59
expr_marker ExprKind.forall = 15
expr_marker ExprKind.fraction_literal = 22
expr_marker ExprKind.function_invocation = 17
expr_marker ExprKind.generic_value = 26
expr_marker ExprKind.greater_equals = 47
expr_marker ExprKind.greater_than = 45
expr_marker ExprKind.if_expr = 18
expr_marker ExprKind.implies = 99
expr_marker ExprKind.integer_literal = 21
expr_marker ExprKind.is_constructor = 28
expr_marker ExprKind.is_instance_of = 202
expr_marker ExprKind.lambda = 14
expr_marker ExprKind.large_array = 134
expr_marker ExprKind.less_equals = 46
expr_marker ExprKind.less_than = 44
expr_marker ExprKind.let_expr = 12
expr_marker ExprKind.let_class = 232
expr_marker ExprKind.let_rec = 184
expr_marker ExprKind.let_var = 189
expr_marker ExprKind.local_class_constructor = 235
expr_marker ExprKind.local_class_selector = 241
expr_marker ExprKind.local_method_invocation = 240
expr_marker ExprKind.local_this = 242
expr_marker ExprKind.map_apply = 73
expr_marker ExprKind.map_updated = 74
expr_marker ExprKind.match_expr = 126
expr_marker ExprKind.max = 160
expr_marker ExprKind.method_invocation = 216
expr_marker ExprKind.minus = 38
expr_marker ExprKind.modulo = 43
expr_marker ExprKind.multiplicity_in_bag = 68
expr_marker ExprKind.mutable_map_apply = 234
expr_marker ExprKind.mutable_map_duplicate = 237
expr_marker ExprKind.mutable_map_update = 235
expr_marker ExprKind.mutable_map_updated = 236
expr_marker ExprKind.mutable_map_with_default = 233
expr_marker ExprKind.no_tree = 120
expr_marker ExprKind.not = 33
expr_marker ExprKind.old = 194
expr_marker ExprKind.or = 32
expr_marker ExprKind.passes = 158
expr_marker ExprKind.plus = 37
expr_marker ExprKind.remainder = 42
expr_marker ExprKind.require = 122
expr_marker ExprKind.set_add = 60
expr_marker ExprKind.set_difference = 65
expr_marker ExprKind.set_intersection = 63
expr_marker ExprKind.set_union = 64
expr_marker ExprKind.sized_adt = 154
expr_marker ExprKind.snapshot = 239
expr_marker ExprKind.string_concat = 34
expr_marker ExprKind.string_length = 36
expr_marker ExprKind.string_literal = 24
expr_marker ExprKind.sub_string = 35
expr_marker ExprKind.subset_of = 62
expr_marker ExprKind.super = 215
expr_marker ExprKind.this = 214
expr_marker ExprKind.throw = 212
expr_marker ExprKind.throwing = 211
expr_marker ExprKind.times = 40
expr_marker ExprKind.try = 213
expr_marker ExprKind.tuple = 57
expr_marker ExprKind.tuple_select = 58
expr_marker ExprKind.u_minus = 39
expr_marker ExprKind.unit_literal = 25
expr_marker ExprKind.variable = 11
expr_marker ExprKind.while = 192
