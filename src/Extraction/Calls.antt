-- ===== src/Extraction/Calls.antt =====
-- stainless_extraction/src/expr.rs: calls, fields and constructions of data types. Arguments are actions
-- that extract them, since their order and number are decided here.
use rust_stainless.Prelude.{
  ℕ, ◌+◌, ◌%◌, ◌^◌, List, [], ◌∷◌, Bool, true, false, ◌&&◌, ◌==◌, Option, none, some, if◌then◌else◌,
  length,
}
use rust_stainless.Prelude.Texts.{Text, codes, text_eq}
use rust_stainless.Prelude.Sorting.{sort}
use rust_stainless.Ast.Kinds.{expr}
use rust_stainless.Ast.Identifier.{SymbolIdentifier}
use rust_stainless.Ast.Value.{Value, struct, symbol}
use rust_stainless.Ast.Value
use rust_stainless.Factory.{into}
use rust_stainless.Factory.Types.{unit_type}
use rust_stainless.Factory.Exprs
use rust_stainless.Factory.Exprs.{
  tuple_select, adt_selector, set_add, set_difference, set_intersection, set_union, subset_of,
  finite_set, function_invocation, error, block, unit_literal, adt,
}
use rust_stainless.Symbols.{AdtSort}
use rust_stainless.Rustc.{Rustc, Ty, Tys, no_tys}
use rust_stainless.Rustc
use rust_stainless.StdItems.{StdItem}
use rust_stainless.Extraction.{M, pure, fail, assert, unwrap, ◌>>=◌, ◌>>◌}
use rust_stainless.Extraction.Types.{TyParam, extract_ty}
use rust_stainless.Extraction.Adts.{extract_adt_id}
use rust_stainless.Extraction.Bindings.{DefContext}
use rust_stainless.Extraction.Functions.{extract_fn_ref}
use rust_stainless.Extraction.Operators.{unsupported_expr}
use rust_stainless.Extraction.Patterns.{
  ValDef, constructors_of, constructor_id, fields_of, nth, extract_arg_types,
}

pub data SetOp : Type 0 where
  add difference intersection union subset : SetOp

-- How a call is extracted, by the standard item that is called.
pub data CallKind : Type 0 where
  panic : Bool → CallKind
  set_creation : CallKind
  set_op : SetOp → CallKind
  function : CallKind

abbrev pub call_kind : Option StdItem → CallKind
call_kind (some StdItem.begin_panic_fn) = panic false
call_kind (some StdItem.begin_panic_fmt_fn) = panic true
call_kind (some StdItem.set_empty_fn) = set_creation
call_kind (some StdItem.set_singleton_fn) = set_creation
call_kind (some StdItem.set_add_fn) = set_op add
call_kind (some StdItem.set_difference_fn) = set_op difference
call_kind (some StdItem.set_intersection_fn) = set_op intersection
call_kind (some StdItem.set_union_fn) = set_op union
call_kind (some StdItem.subset_of_fn) = set_op subset
call_kind _ = function

abbrev pub set_op_of : SetOp → Value expr → Value expr → Value expr
set_op_of add set_ arg = into (set_add set_ arg)
set_op_of difference set_ arg = into (set_difference set_ arg)
set_op_of intersection set_ arg = into (set_intersection set_ arg)
set_op_of union set_ arg = into (set_union set_ arg)
set_op_of subset set_ arg = into (subset_of set_ arg)

abbrev pub path_eq : List Text → List Text → Bool
path_eq [] [] = true
path_eq (a ∷ p) (b ∷ q) = text_eq a b && path_eq p q
path_eq _ _ = false

abbrev pub box_new : List Text
box_new = codes "std" ∷ codes "boxed" ∷ codes "Box" ∷ codes "<T>" ∷ codes "new" ∷ []

-- The type argument `substs.type_at(0)`.
abbrev pub first_ty : {D : Type 0} → Tys D → Option (Ty D)
first_ty no_tys = none
first_ty (Rustc.ty t ts) = some t

-- The id of a field of a constructor, `fields[index].v.id`.
abbrev pub field_id : ValDef → SymbolIdentifier
field_id (struct (Value.◌∷◌ (struct (Value.◌∷◌ (symbol id) rest)) more)) = id

module _ (rustc : Rustc) (extract_adt : rustc.tcx.DefId → M rustc.tcx AdtSort)
    (index_to_tparam : List (ℕ × TyParam)) (dcx : DefContext rustc) where
  open rustc use {tcx}

  abbrev E : Type 0
  E = M tcx (Value expr)

  -- The iteration that extracts one argument after the other.
  unfoldable pub sequence : {A : Type 0} → List (M tcx A) → M tcx (List A)
  sequence [] = pure []
  sequence (m ∷ ms) = m >>= λ a. sequence ms >>= λ as_. pure (a ∷ as_)

  -- The slice `[0..2]` of the arguments panics where there are less.
  abbrev pub two_args : SetOp → List (Value expr) → E
  two_args op (set_ ∷ arg ∷ rest) = pure (set_op_of op set_ arg)
  two_args op _ = fail

  -- `extract_set_op`
  unfoldable pub extract_set_op : SetOp → List E → E
  unfolding sequence
  extract_set_op op args = sequence args >>= two_args op

  -- `extract_set_creation`
  unfoldable pub extract_set_creation : List E → Tys tcx.DefId → E
  unfolding sequence extract_ty extract_adt_id
  extract_set_creation args substs = sequence args >>= λ elements. unwrap (first_ty substs) >>= λ t.
      extract_ty rustc (extract_adt_id rustc extract_adt) index_to_tparam t >>= λ base.
      pure (into (finite_set elements base))

  abbrev pub error_expr : Value expr
  error_expr = into (error (into unit_type) (codes "Panic"))

  -- `extract_panic`
  unfoldable pub extract_panic : List E → Bool → E
  extract_panic (arg ∷ []) is_fmt =
      if is_fmt
      then unsupported_expr (codes "Cannot extract panic with formatted message")
      else (arg >>= λ e. pure (into (block (e ∷ []) error_expr)))
  extract_panic _ is_fmt = fail

  abbrev pub first_arg : List E → E
  first_arg [] = fail
  first_arg (arg ∷ args) = arg

  -- `extract_call`, of a function that is known.
  unfoldable pub extract_call : tcx.DefId → Tys tcx.DefId → List E → E
  unfolding sequence extract_fn_ref extract_arg_types
  extract_call def_id substs args = extract_fn_ref def_id >>= λ fd_id.
      if path_eq fd_id.symbol_path box_new
      then first_arg args
      else (extract_arg_types rustc extract_adt index_to_tparam dcx substs >>= λ arg_tps.
          sequence args >>= λ es. pure (into (function_invocation fd_id arg_tps es)))

  abbrev pub call_of : CallKind → tcx.DefId → Tys tcx.DefId → List E → E
  call_of (panic is_fmt) def_id substs args = extract_panic args is_fmt
  call_of set_creation def_id substs args = extract_set_creation args substs
  call_of (set_op op) def_id substs args = extract_set_op op args
  call_of function def_id substs args = extract_call def_id substs args

  -- `extract_call_like`
  unfoldable pub extract_call_like : Ty tcx.DefId → List E → E
  unfolding extract_panic extract_set_creation extract_set_op extract_call
  extract_call_like (Rustc.fn_def def_id substs) args =
      call_of (call_kind (rustc.def_to_item def_id)) def_id substs args
  extract_call_like _ args =
      unsupported_expr (codes "Cannot extract call without statically known target")

  -- `extract_tuple`; the number of fields is looked at first.
  unfoldable pub extract_tuple : List E → E
  unfolding sequence
  extract_tuple [] = pure (into unit_literal)
  extract_tuple (e ∷ []) = unsupported_expr (codes "Cannot extract one-tuples")
  extract_tuple (e ∷ f ∷ es) = sequence (e ∷ f ∷ es) >>= λ fields. pure (into (Exprs.tuple fields))

  -- `extract_field`; an index is an `i32`.
  unfoldable pub extract_field : Ty tcx.DefId → ℕ → E → E
  extract_field (Rustc.tuple tys) index lhs =
      lhs >>= λ e. pure (into (tuple_select e ((index % 2 ^ 32 + 1) % 2 ^ 32)))
  extract_field (Rustc.adt did substs) index lhs = extract_adt did >>= λ sort.
      assert (length (constructors_of sort) == 1) >> unwrap (nth (constructors_of sort) 0) >>= λ c.
      unwrap (nth (fields_of c) index) >>= λ field.
      lhs >>= λ e. pure (into (adt_selector e (field_id field)))
  extract_field _ index lhs = fail

  -- The actions in the order of the fields' indices.
  abbrev pub actions : List (ℕ × E) → List E
  actions [] = []
  actions ((index, e) ∷ rest) = e ∷ actions rest

  -- `extract_adt_construction`
  unfoldable pub extract_adt_construction : tcx.DefId → ℕ → Tys tcx.DefId → List (ℕ × E) → Bool → E
  unfolding sequence sort extract_arg_types
  extract_adt_construction did index substs fields has_base =
      if has_base
      then unsupported_expr (codes "Cannot extract ADT constructions with bases")
      else (extract_adt did >>= λ st_sort. unwrap (nth (constructors_of st_sort) index) >>= λ c.
          extract_arg_types rustc extract_adt index_to_tparam dcx substs >>= λ arg_tps.
          sequence (actions (sort (λ f. f.0) fields)) >>= λ args.
          pure (into (adt (constructor_id c) arg_tps args)))
