-- ===== src/Ast/Markers/Rest.antt =====
-- stainless_data/src/ast/generated.rs: the marker that the `impl Serializable` of each other struct writes.

-- `ValDef` and `TypeParameterDef` have theirs in ast.rs.
use rust_stainless.Prelude.{ℕ}
use rust_stainless.Ast.Kinds.{DefinitionKind, FlagKind, TypeKind, PatternKind, OtherKind}

unfoldable pub definition_marker : DefinitionKind → ℕ
definition_marker DefinitionKind.adt_sort = 96
definition_marker DefinitionKind.class_def = 222
definition_marker DefinitionKind.fun_def = 98
definition_marker DefinitionKind.local_class_def = 233
definition_marker DefinitionKind.local_fun_def = 183
definition_marker DefinitionKind.local_method_def = 234
definition_marker DefinitionKind.local_type_def = 246
definition_marker DefinitionKind.type_def = 244
definition_marker DefinitionKind.type_parameter_def = 95
definition_marker DefinitionKind.val_def = 94

unfoldable pub flag_marker : FlagKind → ℕ
flag_marker FlagKind.annotation = 93
flag_marker FlagKind.bounds = 226
flag_marker FlagKind.derived = 142
flag_marker FlagKind.erasable = 155
flag_marker FlagKind.extern = 139
flag_marker FlagKind.final = 149
flag_marker FlagKind.ghost = 147
flag_marker FlagKind.has_adt_equality = 92
flag_marker FlagKind.has_adt_invariant = 91
flag_marker FlagKind.ignore = 218
flag_marker FlagKind.indexed_at = 156
flag_marker FlagKind.inline = 181
flag_marker FlagKind.inline_invariant = 166
flag_marker FlagKind.inline_once = 228
flag_marker FlagKind.is_abstract = 224
flag_marker FlagKind.is_accessor = 231
flag_marker FlagKind.is_case_object = 229
flag_marker FlagKind.is_field = 143
flag_marker FlagKind.is_invariant = 223
flag_marker FlagKind.is_method_of = 217
flag_marker FlagKind.is_mutable = 199
flag_marker FlagKind.is_pure = 230
flag_marker FlagKind.is_sealed = 225
flag_marker FlagKind.is_unapply = 144
flag_marker FlagKind.is_var = 198
flag_marker FlagKind.law = 150
flag_marker FlagKind.library = 158
flag_marker FlagKind.opaque = 140
flag_marker FlagKind.partial_eval = 146
flag_marker FlagKind.private = 148
flag_marker FlagKind.synthetic = 165
flag_marker FlagKind.unchecked = 141
flag_marker FlagKind.value_class = 243
flag_marker FlagKind.variance = 227
flag_marker FlagKind.wrapping = 159

unfoldable pub type_marker : TypeKind → ℕ
type_marker TypeKind.adt_type = 89
type_marker TypeKind.annotated_type = 157
type_marker TypeKind.any_type = 207
type_marker TypeKind.array_type = 138
type_marker TypeKind.bv_type = 82
type_marker TypeKind.bag_type = 86
type_marker TypeKind.boolean_type = 76
type_marker TypeKind.char_type = 78
type_marker TypeKind.class_type = 206
type_marker TypeKind.function_type = 88
type_marker TypeKind.integer_type = 79
type_marker TypeKind.local_class_type = 236
type_marker TypeKind.map_type = 87
type_marker TypeKind.mutable_map_type = 232
type_marker TypeKind.nothing_type = 208
type_marker TypeKind.pi_type = 101
type_marker TypeKind.real_type = 80
type_marker TypeKind.recursive_type = 152
type_marker TypeKind.refinement_type = 100
type_marker TypeKind.set_type = 85
type_marker TypeKind.sigma_type = 102
type_marker TypeKind.string_type = 81
type_marker TypeKind.tuple_type = 84
type_marker TypeKind.type_apply = 238
type_marker TypeKind.type_bounds = 209
type_marker TypeKind.type_parameter = 83
type_marker TypeKind.type_select = 237
type_marker TypeKind.unit_type = 77
type_marker TypeKind.unknown_type = 245
type_marker TypeKind.untyped = 75
type_marker TypeKind.value_type = 153

unfoldable pub pattern_marker : PatternKind → ℕ
pattern_marker PatternKind.adt_pattern = 129
pattern_marker PatternKind.class_pattern = 204
pattern_marker PatternKind.instance_of_pattern = 205
pattern_marker PatternKind.literal_pattern = 131
pattern_marker PatternKind.tuple_pattern = 130
pattern_marker PatternKind.unapply_pattern = 132
pattern_marker PatternKind.wildcard_pattern = 128

unfoldable pub other_marker : OtherKind → ℕ
other_marker OtherKind.adt_constructor = 97
other_marker OtherKind.import = 219
other_marker OtherKind.inner = 187
other_marker OtherKind.match_case = 127
other_marker OtherKind.module_def = 221
other_marker OtherKind.outer = 186
other_marker OtherKind.unit_def = 220
