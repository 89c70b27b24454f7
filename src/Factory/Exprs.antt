-- ===== src/Factory/Exprs.antt =====
-- stainless_data/src/ast/generated.rs and ast.rs: the functions of `Factory` for the expressions that the
-- extraction builds. Allocation in the arena is left out.
use rust_stainless.Prelude.{ℕ, Bool, List}
use rust_stainless.Prelude.Int.{ℤ}
use rust_stainless.Ser.{Bytes}
use rust_stainless.Ast.Kinds.{
  flg, expr, tpe, def, exp, typ, oth, DefinitionKind, ExprKind, TypeKind, OtherKind,
}
use rust_stainless.Ast.Identifier.{SymbolIdentifier}
use rust_stainless.Ast.Value.{
  Value, [], ◌∷◌, boolean, int, string, bigint, symbol, seq, struct, elems_of,
}

abbrev pub unit_literal : Value (exp ExprKind.unit_literal)
unit_literal = struct []

abbrev pub boolean_literal : Bool → Value (exp ExprKind.boolean_literal)
boolean_literal value = struct (boolean value ∷ [])

abbrev pub bv_literal : Bool → ℤ → ℕ → Value (exp ExprKind.bv_literal)
bv_literal signed value size =
    struct (Value.tuple (boolean signed ∷ bigint value ∷ int size ∷ []) ∷ [])

abbrev pub string_literal : Bytes → Value (exp ExprKind.string_literal)
string_literal value = struct (string value ∷ [])

abbrev pub bv_not : Value expr → Value (exp ExprKind.bv_not)
bv_not e = struct (e ∷ [])

abbrev pub not : Value expr → Value (exp ExprKind.not)
not e = struct (e ∷ [])

abbrev pub u_minus : Value expr → Value (exp ExprKind.u_minus)
u_minus e = struct (e ∷ [])

abbrev pub equals : Value expr → Value expr → Value (exp ExprKind.equals)
equals lhs rhs = struct (lhs ∷ rhs ∷ [])

abbrev pub plus : Value expr → Value expr → Value (exp ExprKind.plus)
plus lhs rhs = struct (lhs ∷ rhs ∷ [])

abbrev pub minus : Value expr → Value expr → Value (exp ExprKind.minus)
minus lhs rhs = struct (lhs ∷ rhs ∷ [])

abbrev pub times : Value expr → Value expr → Value (exp ExprKind.times)
times lhs rhs = struct (lhs ∷ rhs ∷ [])

abbrev pub division : Value expr → Value expr → Value (exp ExprKind.division)
division lhs rhs = struct (lhs ∷ rhs ∷ [])

abbrev pub remainder : Value expr → Value expr → Value (exp ExprKind.remainder)
remainder lhs rhs = struct (lhs ∷ rhs ∷ [])

abbrev pub less_than : Value expr → Value expr → Value (exp ExprKind.less_than)
less_than lhs rhs = struct (lhs ∷ rhs ∷ [])

abbrev pub less_equals : Value expr → Value expr → Value (exp ExprKind.less_equals)
less_equals lhs rhs = struct (lhs ∷ rhs ∷ [])

abbrev pub greater_equals : Value expr → Value expr → Value (exp ExprKind.greater_equals)
greater_equals lhs rhs = struct (lhs ∷ rhs ∷ [])

abbrev pub greater_than : Value expr → Value expr → Value (exp ExprKind.greater_than)
greater_than lhs rhs = struct (lhs ∷ rhs ∷ [])

abbrev pub bv_xor : Value expr → Value expr → Value (exp ExprKind.bv_xor)
bv_xor lhs rhs = struct (lhs ∷ rhs ∷ [])

abbrev pub bv_and : Value expr → Value expr → Value (exp ExprKind.bv_and)
bv_and lhs rhs = struct (lhs ∷ rhs ∷ [])

abbrev pub bv_or : Value expr → Value expr → Value (exp ExprKind.bv_or)
bv_or lhs rhs = struct (lhs ∷ rhs ∷ [])

abbrev pub bv_widening_cast :
    Value expr → Value (typ TypeKind.bv_type) → Value (exp ExprKind.bv_widening_cast)
bv_widening_cast e new_type = struct (e ∷ new_type ∷ [])

abbrev pub bv_shift_left : Value expr → Value expr → Value (exp ExprKind.bv_shift_left)
bv_shift_left lhs rhs = struct (lhs ∷ rhs ∷ [])

abbrev pub bv_a_shift_right : Value expr → Value expr → Value (exp ExprKind.bv_a_shift_right)
bv_a_shift_right lhs rhs = struct (lhs ∷ rhs ∷ [])

abbrev pub bv_l_shift_right : Value expr → Value expr → Value (exp ExprKind.bv_l_shift_right)
bv_l_shift_right lhs rhs = struct (lhs ∷ rhs ∷ [])

abbrev pub and : List (Value expr) → Value (exp ExprKind.and)
and es = struct (seq (elems_of es) ∷ [])

abbrev pub or : List (Value expr) → Value (exp ExprKind.or)
or es = struct (seq (elems_of es) ∷ [])

abbrev pub tuple : List (Value expr) → Value (exp ExprKind.tuple)
tuple es = struct (seq (elems_of es) ∷ [])

abbrev pub tuple_select : Value expr → ℕ → Value (exp ExprKind.tuple_select)
tuple_select tuple_ index = struct (tuple_ ∷ int index ∷ [])

abbrev pub adt_selector : Value expr → SymbolIdentifier → Value (exp ExprKind.adt_selector)
adt_selector adt selector = struct (adt ∷ symbol selector ∷ [])

abbrev pub set_add : Value expr → Value expr → Value (exp ExprKind.set_add)
set_add set_ elem = struct (set_ ∷ elem ∷ [])

abbrev pub set_difference : Value expr → Value expr → Value (exp ExprKind.set_difference)
set_difference lhs rhs = struct (lhs ∷ rhs ∷ [])

abbrev pub set_intersection : Value expr → Value expr → Value (exp ExprKind.set_intersection)
set_intersection lhs rhs = struct (lhs ∷ rhs ∷ [])

abbrev pub set_union : Value expr → Value expr → Value (exp ExprKind.set_union)
set_union lhs rhs = struct (lhs ∷ rhs ∷ [])

abbrev pub subset_of : Value expr → Value expr → Value (exp ExprKind.subset_of)
subset_of lhs rhs = struct (lhs ∷ rhs ∷ [])

abbrev pub finite_set : List (Value expr) → Value tpe → Value (exp ExprKind.finite_set)
finite_set elements base = struct (seq (elems_of elements) ∷ base ∷ [])

abbrev pub function_invocation :
    SymbolIdentifier
    → List (Value tpe)
    → List (Value expr)
    → Value (exp ExprKind.function_invocation)
function_invocation id tps args = struct (symbol id ∷ seq (elems_of tps) ∷ seq (elems_of args) ∷ [])

abbrev pub error : Value tpe → Bytes → Value (exp ExprKind.error)
error tpe description = struct (tpe ∷ string description ∷ [])

abbrev pub adt : SymbolIdentifier → List (Value tpe) → List (Value expr) → Value (exp ExprKind.adt)
adt id tps args = struct (symbol id ∷ seq (elems_of tps) ∷ seq (elems_of args) ∷ [])

abbrev pub if_expr : Value expr → Value expr → Value expr → Value (exp ExprKind.if_expr)
if_expr cond then_ else_ = struct (cond ∷ then_ ∷ else_ ∷ [])

abbrev pub match_expr :
    Value expr → List (Value (oth OtherKind.match_case)) → Value (exp ExprKind.match_expr)
match_expr scrutinee cases = struct (scrutinee ∷ seq (elems_of cases) ∷ [])

abbrev pub let_expr :
    Value (def DefinitionKind.val_def) → Value expr → Value expr → Value (exp ExprKind.let_expr)
let_expr vd value body = struct (vd ∷ value ∷ body ∷ [])

abbrev pub block : List (Value expr) → Value expr → Value (exp ExprKind.block)
block es last = struct (seq (elems_of es) ∷ last ∷ [])

abbrev pub no_tree : Value tpe → Value (exp ExprKind.no_tree)
no_tree tpe = struct (tpe ∷ [])

abbrev pub variable :
    SymbolIdentifier → Value tpe → List (Value flg) → Value (exp ExprKind.variable)
variable id tpe flags = struct (symbol id ∷ tpe ∷ seq (elems_of flags) ∷ [])

abbrev pub decreases : Value expr → Value expr → Value (exp ExprKind.decreases)
decreases measure body = struct (measure ∷ body ∷ [])

abbrev pub require : Value expr → Value expr → Value (exp ExprKind.require)
require pred body = struct (pred ∷ body ∷ [])

abbrev pub ensuring : Value expr → Value (exp ExprKind.lambda) → Value (exp ExprKind.ensuring)
ensuring body pred = struct (body ∷ pred ∷ [])

abbrev pub lambda :
    List (Value (def DefinitionKind.val_def)) → Value expr → Value (exp ExprKind.lambda)
lambda params body = struct (seq (elems_of params) ∷ body ∷ [])
