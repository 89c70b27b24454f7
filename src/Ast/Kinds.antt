-- ===== src/Ast/Kinds.antt =====
-- stainless_data/src/ast/generated.rs: the structs of the Stainless AST, grouped by the enum they are
-- variants of (`OtherKind` for the structs that belong to no enum). A struct keeps its name in snake
-- case; `Let` is `let_expr`, since `let` is reserved. `Identifier` and `SymbolIdentifier` are records
-- of `Ids.Identifier`.

pub data DefinitionKind : Type 0 where
  adt_sort class_def fun_def local_class_def local_fun_def local_method_def : DefinitionKind
  local_type_def type_def type_parameter_def val_def : DefinitionKind

pub data FlagKind : Type 0 where
  annotation bounds derived erasable extern final ghost has_adt_equality : FlagKind
  has_adt_invariant ignore indexed_at inline inline_invariant inline_once : FlagKind
  is_abstract is_accessor is_case_object is_field is_invariant is_method_of : FlagKind
  is_mutable is_pure is_sealed is_unapply is_var law library opaque partial_eval : FlagKind
  private synthetic unchecked value_class variance wrapping : FlagKind

pub data ExprKind : Type 0 where
  adt adt_selector and annotated application apply_let_rec array_length : ExprKind
  array_select array_update array_updated as_instance_of assert assignment : ExprKind
  assume bv_a_shift_right bv_and bv_l_shift_right bv_literal bv_narrowing_cast : ExprKind
  bv_not bv_or bv_shift_left bv_widening_cast bv_xor bag_add bag_difference : ExprKind
  bag_intersection bag_union block bool_bitwise_and bool_bitwise_or : ExprKind
  bool_bitwise_xor boolean_literal char_literal choose class_constructor : ExprKind
  class_selector decreases division element_of_set ensuring equals error : ExprKind
  field_assignment finite_array finite_bag finite_map finite_set forall : ExprKind
  fraction_literal function_invocation generic_value greater_equals greater_than : ExprKind
  if_expr implies integer_literal is_constructor is_instance_of lambda : ExprKind
  large_array less_equals less_than let_expr let_class let_rec let_var : ExprKind
  local_class_constructor local_class_selector local_method_invocation : ExprKind
  local_this map_apply map_updated match_expr max method_invocation minus modulo : ExprKind
  multiplicity_in_bag mutable_map_apply mutable_map_duplicate mutable_map_update : ExprKind
  mutable_map_updated mutable_map_with_default no_tree not old or passes plus : ExprKind
  remainder require set_add set_difference set_intersection set_union sized_adt : ExprKind
  snapshot string_concat string_length string_literal sub_string subset_of super : ExprKind
  this throw throwing times try tuple tuple_select u_minus unit_literal variable : ExprKind
  while : ExprKind

pub data TypeKind : Type 0 where
  adt_type annotated_type any_type array_type bv_type bag_type boolean_type : TypeKind
  char_type class_type function_type integer_type local_class_type map_type : TypeKind
  mutable_map_type nothing_type pi_type real_type recursive_type refinement_type : TypeKind
  set_type sigma_type string_type tuple_type type_apply type_bounds : TypeKind
  type_parameter type_select unit_type unknown_type untyped value_type : TypeKind

pub data PatternKind : Type 0 where
  adt_pattern class_pattern instance_of_pattern literal_pattern tuple_pattern : PatternKind
  unapply_pattern wildcard_pattern : PatternKind

pub data OtherKind : Type 0 where
  adt_constructor import inner match_case module_def outer unit_def : OtherKind

-- The enums `Definition`, `Flag`, `Expr`, `Type` and `Pattern`, and the remaining structs.
pub data Group : Type 0 where
  definition flag expression type pattern other : Group

abbrev pub Kind : Group → Type 0
Kind definition = DefinitionKind
Kind flag = FlagKind
Kind expression = ExprKind
Kind type = TypeKind
Kind pattern = PatternKind
Kind other = OtherKind

-- The types of the fields. A reference is read as the value that it points to.
mutual
  pub data FieldType : Type 0 where
    boolean char int string bigint symbol_identifier : FieldType
    option seq set : FieldType → FieldType
    map : FieldType → FieldType → FieldType
    tuple : FieldTypes → FieldType
    struct : (g : Group) → Kind g → FieldType
    enum : Group → FieldType

  infixr 40 ◌▹◌
  pub data FieldTypes : Type 0 where
    ε : FieldTypes
    ◌▹◌ : FieldType → FieldTypes → FieldTypes

abbrev pub flg : FieldType
flg = enum flag

abbrev pub expr : FieldType
expr = enum expression

abbrev pub tpe : FieldType
tpe = enum type

abbrev pub pat : FieldType
pat = enum pattern

abbrev pub def : DefinitionKind → FieldType
def k = struct definition k

abbrev pub exp : ExprKind → FieldType
exp k = struct expression k

abbrev pub typ : TypeKind → FieldType
typ k = struct type k

abbrev pub oth : OtherKind → FieldType
oth k = struct other k
