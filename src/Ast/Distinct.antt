-- ===== src/Ast/Distinct.antt =====
-- The markers of the structs of one enum, in stainless_data/src/ast/generated.rs, which gives 235 to
-- two expressions.
use rust_stainless.Prelude.{
  ℕ, ◌<◌, ◌≡◌, refl, ap, Bool, true, false, List, [], ◌∷◌, Option, none, some, ◌==◌, if◌then◌else◌,
  arith,
}
use rust_stainless.Ast.Kinds.{
  Group, Kind, definition, flag, expression, type, pattern, other, DefinitionKind, FlagKind,
  ExprKind, TypeKind, PatternKind, OtherKind,
}
use rust_stainless.Ast.Markers.{marker}

abbrev definition_kinds : List DefinitionKind
definition_kinds =
    DefinitionKind.adt_sort ∷ DefinitionKind.class_def ∷ DefinitionKind.fun_def
    ∷ DefinitionKind.local_class_def ∷ DefinitionKind.local_fun_def
    ∷ DefinitionKind.local_method_def ∷ DefinitionKind.local_type_def ∷ DefinitionKind.type_def
    ∷ DefinitionKind.type_parameter_def ∷ DefinitionKind.val_def ∷ []

abbrev flag_kinds : List FlagKind
flag_kinds =
    FlagKind.annotation ∷ FlagKind.bounds ∷ FlagKind.derived ∷ FlagKind.erasable ∷ FlagKind.extern
    ∷ FlagKind.final ∷ FlagKind.ghost ∷ FlagKind.has_adt_equality ∷ FlagKind.has_adt_invariant
    ∷ FlagKind.ignore ∷ FlagKind.indexed_at ∷ FlagKind.inline ∷ FlagKind.inline_invariant
    ∷ FlagKind.inline_once ∷ FlagKind.is_abstract ∷ FlagKind.is_accessor ∷ FlagKind.is_case_object
    ∷ FlagKind.is_field ∷ FlagKind.is_invariant ∷ FlagKind.is_method_of ∷ FlagKind.is_mutable
    ∷ FlagKind.is_pure ∷ FlagKind.is_sealed ∷ FlagKind.is_unapply ∷ FlagKind.is_var ∷ FlagKind.law
    ∷ FlagKind.library ∷ FlagKind.opaque ∷ FlagKind.partial_eval ∷ FlagKind.private
    ∷ FlagKind.synthetic ∷ FlagKind.unchecked ∷ FlagKind.value_class ∷ FlagKind.variance
    ∷ FlagKind.wrapping ∷ []

abbrev expr_kinds : List ExprKind
expr_kinds =
    ExprKind.adt ∷ ExprKind.adt_selector ∷ ExprKind.and ∷ ExprKind.annotated ∷ ExprKind.application
    ∷ ExprKind.apply_let_rec ∷ ExprKind.array_length ∷ ExprKind.array_select ∷ ExprKind.array_update
    ∷ ExprKind.array_updated ∷ ExprKind.as_instance_of ∷ ExprKind.assert ∷ ExprKind.assignment
    ∷ ExprKind.assume ∷ ExprKind.bv_a_shift_right ∷ ExprKind.bv_and ∷ ExprKind.bv_l_shift_right
    ∷ ExprKind.bv_literal ∷ ExprKind.bv_narrowing_cast ∷ ExprKind.bv_not ∷ ExprKind.bv_or
    ∷ ExprKind.bv_shift_left ∷ ExprKind.bv_widening_cast ∷ ExprKind.bv_xor ∷ ExprKind.bag_add
    ∷ ExprKind.bag_difference ∷ ExprKind.bag_intersection ∷ ExprKind.bag_union ∷ ExprKind.block
    ∷ ExprKind.bool_bitwise_and ∷ ExprKind.bool_bitwise_or ∷ ExprKind.bool_bitwise_xor
    ∷ ExprKind.boolean_literal ∷ ExprKind.char_literal ∷ ExprKind.choose
    ∷ ExprKind.class_constructor ∷ ExprKind.class_selector ∷ ExprKind.decreases ∷ ExprKind.division
    ∷ ExprKind.element_of_set ∷ ExprKind.ensuring ∷ ExprKind.equals ∷ ExprKind.error
    ∷ ExprKind.field_assignment ∷ ExprKind.finite_array ∷ ExprKind.finite_bag ∷ ExprKind.finite_map
    ∷ ExprKind.finite_set ∷ ExprKind.forall ∷ ExprKind.fraction_literal
    ∷ ExprKind.function_invocation ∷ ExprKind.generic_value ∷ ExprKind.greater_equals
    ∷ ExprKind.greater_than ∷ ExprKind.if_expr ∷ ExprKind.implies ∷ ExprKind.integer_literal
    ∷ ExprKind.is_constructor ∷ ExprKind.is_instance_of ∷ ExprKind.lambda ∷ ExprKind.large_array
    ∷ ExprKind.less_equals ∷ ExprKind.less_than ∷ ExprKind.let_expr ∷ ExprKind.let_class
    ∷ ExprKind.let_rec ∷ ExprKind.let_var ∷ ExprKind.local_class_constructor
    ∷ ExprKind.local_class_selector ∷ ExprKind.local_method_invocation ∷ ExprKind.local_this
    ∷ ExprKind.map_apply ∷ ExprKind.map_updated ∷ ExprKind.match_expr ∷ ExprKind.max
    ∷ ExprKind.method_invocation ∷ ExprKind.minus ∷ ExprKind.modulo ∷ ExprKind.multiplicity_in_bag
    ∷ ExprKind.mutable_map_apply ∷ ExprKind.mutable_map_duplicate ∷ ExprKind.mutable_map_update
    ∷ ExprKind.mutable_map_updated ∷ ExprKind.mutable_map_with_default ∷ ExprKind.no_tree
    ∷ ExprKind.not ∷ ExprKind.old ∷ ExprKind.or ∷ ExprKind.passes ∷ ExprKind.plus
    ∷ ExprKind.remainder ∷ ExprKind.require ∷ ExprKind.set_add ∷ ExprKind.set_difference
    ∷ ExprKind.set_intersection ∷ ExprKind.set_union ∷ ExprKind.sized_adt ∷ ExprKind.snapshot
    ∷ ExprKind.string_concat ∷ ExprKind.string_length ∷ ExprKind.string_literal
    ∷ ExprKind.sub_string ∷ ExprKind.subset_of ∷ ExprKind.super ∷ ExprKind.this ∷ ExprKind.throw
    ∷ ExprKind.throwing ∷ ExprKind.times ∷ ExprKind.try ∷ ExprKind.tuple ∷ ExprKind.tuple_select
    ∷ ExprKind.u_minus ∷ ExprKind.unit_literal ∷ ExprKind.variable ∷ ExprKind.while ∷ []

abbrev type_kinds : List TypeKind
type_kinds =
    TypeKind.adt_type ∷ TypeKind.annotated_type ∷ TypeKind.any_type ∷ TypeKind.array_type
    ∷ TypeKind.bv_type ∷ TypeKind.bag_type ∷ TypeKind.boolean_type ∷ TypeKind.char_type
    ∷ TypeKind.class_type ∷ TypeKind.function_type ∷ TypeKind.integer_type
    ∷ TypeKind.local_class_type ∷ TypeKind.map_type ∷ TypeKind.mutable_map_type
    ∷ TypeKind.nothing_type ∷ TypeKind.pi_type ∷ TypeKind.real_type ∷ TypeKind.recursive_type
    ∷ TypeKind.refinement_type ∷ TypeKind.set_type ∷ TypeKind.sigma_type ∷ TypeKind.string_type
    ∷ TypeKind.tuple_type ∷ TypeKind.type_apply ∷ TypeKind.type_bounds ∷ TypeKind.type_parameter
    ∷ TypeKind.type_select ∷ TypeKind.unit_type ∷ TypeKind.unknown_type ∷ TypeKind.untyped
    ∷ TypeKind.value_type ∷ []

abbrev pattern_kinds : List PatternKind
pattern_kinds =
    PatternKind.adt_pattern ∷ PatternKind.class_pattern ∷ PatternKind.instance_of_pattern
    ∷ PatternKind.literal_pattern ∷ PatternKind.tuple_pattern ∷ PatternKind.unapply_pattern
    ∷ PatternKind.wildcard_pattern ∷ []

abbrev other_kinds : List OtherKind
other_kinds =
    OtherKind.adt_constructor ∷ OtherKind.import ∷ OtherKind.inner ∷ OtherKind.match_case
    ∷ OtherKind.module_def ∷ OtherKind.outer ∷ OtherKind.unit_def ∷ []

abbrev kinds : (g : Group) → List (Kind g)
kinds definition = definition_kinds
kinds flag = flag_kinds
kinds expression = expr_kinds
kinds type = type_kinds
kinds pattern = pattern_kinds
kinds other = other_kinds

-- The first struct of the list that has the marker.
find : (g : Group) → ℕ → List (Kind g) → Option (Kind g)
find g m [] = none
find g m (k ∷ ks) = if marker g k == m then some k else find g m ks

-- `MutableMapUpdate` has the marker of `LocalClassConstructor`.
abbrev pub has_own_marker : (g : Group) → Kind g → Bool
has_own_marker expression ExprKind.mutable_map_update = false
has_own_marker _ _ = true

pub marker-lt : (g : Group) (k : Kind g) → marker g k < 255
unfolding marker
marker-lt definition DefinitionKind.adt_sort = omega arith
marker-lt definition _ = omega arith
marker-lt flag FlagKind.annotation = omega arith
marker-lt flag _ = omega arith
marker-lt expression ExprKind.adt = omega arith
marker-lt expression _ = omega arith
marker-lt type TypeKind.adt_type = omega arith
marker-lt type _ = omega arith
marker-lt pattern PatternKind.adt_pattern = omega arith
marker-lt pattern _ = omega arith
marker-lt other OtherKind.adt_constructor = omega arith
marker-lt other _ = omega arith

find-marker :
    (g : Group) (k : Kind g) → has_own_marker g k ≡ true → find g (marker g k) (kinds g) ≡ some k
unfolding marker find
find-marker definition DefinitionKind.adt_sort h = refl
find-marker definition _ h = refl
find-marker flag FlagKind.annotation h = refl
find-marker flag _ h = refl
find-marker expression ExprKind.adt h = refl
find-marker expression ExprKind.mutable_map_update h = cc
find-marker expression _ h = refl
find-marker type TypeKind.adt_type h = refl
find-marker type _ h = refl
find-marker pattern PatternKind.adt_pattern h = refl
find-marker pattern _ h = refl
find-marker other OtherKind.adt_constructor h = refl
find-marker other _ h = refl

-- Two structs of one enum with the same marker are one struct, if neither is `MutableMapUpdate`.
pub marker-injective :
    (g : Group) (j k : Kind g)
    → has_own_marker g j ≡ true
    → has_own_marker g k ≡ true
    → marker g j ≡ marker g k
    → j ≡ k
marker-injective g j k hj hk e =
    cc (find-marker g j hj, ap (λ m. find g m (kinds g)) e, find-marker g k hk)
