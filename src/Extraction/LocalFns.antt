-- ===== src/Extraction/LocalFns.antt =====
-- stainless_extraction/src/krate.rs: the functions of the crate, with their specs, and the order in which
-- `process_crate` extracts everything. `make_and` is of stainless_data/src/ast.rs.
pub mod Specified
pub mod Parts
use rust_stainless.Prelude.{
  ℕ, List, [], ◌∷◌, ◌++◌, Bool, true, false, not, ◌==◌, Option, none, some, if◌then◌else◌, length,
  ltb,
}
use rust_stainless.Prelude.Texts.{Text, codes}
use rust_stainless.Ast.Kinds.{expr, tpe, def, DefinitionKind, ExprKind}
use rust_stainless.Ast.Identifier.{SymbolIdentifier}
use rust_stainless.Ast.Value.{Value, enum, struct, seq}
use rust_stainless.Ast.Value
use rust_stainless.Factory.{into}
use rust_stainless.Factory.Exprs.{variable, block, decreases, require, ensuring, lambda, no_tree}
use rust_stainless.Factory.Exprs
use rust_stainless.Factory.Types.{untyped}
use rust_stainless.Factory.Definitions.{val_def, fun_def}
use rust_stainless.Symbols.{AdtSort, FunDef, fun_id}
use rust_stainless.Flags.{extract_flags, to_stainless}
use rust_stainless.Registry.{get, fresh_name}
use rust_stainless.Rustc.{Rustc, Ty, GenericParam}
use rust_stainless.Hair.{Expr}
use rust_stainless.Extraction.{
  M, Extraction, Diagnostic, pure, fail, assert, unwrap, report, reads, on_mapping, ◌>>=◌, ◌>>◌,
}
use rust_stainless.Extraction.Types.{TyParam, index_eq, extract_ty}
use rust_stainless.Extraction.Generics.{all_generic_params_of, lift, extract_generics}
use rust_stainless.Extraction.Adts.{FlagMap, extract_adt_id, report_warnings, report_unused_flags}
use rust_stainless.Extraction.Bindings.{Body, Variable, DefContext, add_var, populate_def_context}
use rust_stainless.Extraction.Functions.{extract_fn_ref, add_function, extract_extern_fn}
use rust_stainless.Extraction.Items.{FnSpecs}
use rust_stainless.Extraction.Patterns.{ValDef, list_of, fetch_var}
use rust_stainless.Extraction.Exprs.{extract_expr}

-- What is read of a function with a body: its bindings, its value and the output of its signature.
pub record FnBody (rustc : Rustc) : Type 0 where
  pub body : Body rustc
  pub value : Expr rustc.tcx.DefId rustc.tcx.HirId
  pub output : Ty rustc.tcx.DefId

abbrev pub TParamDef : Type 0
TParamDef = Value (def DefinitionKind.type_parameter_def)

-- `make_and`
abbrev pub make_and : List (Value expr) → Value expr
make_and [] = into (no_tree (into untyped))
make_and (e ∷ []) = e
make_and (e ∷ f ∷ es) = into (Exprs.and (e ∷ f ∷ es))

-- `split_last`
abbrev pub split_last : {A : Type 0} → List A → Option (List A × A)
split_last [] = none
split_last (x ∷ xs) = elim (split_last xs) [ none ↦ some ([], x) | some (ys, y) ↦ some (x ∷ ys, y) ]

abbrev pub same_def : {D : Type 0} → (D → D → Bool) → Option D → Option D → Bool
same_def eq none none = true
same_def eq (some a) (some b) = eq a b
same_def eq _ _ = false

module _ (rustc : Rustc) (extract_adt : rustc.tcx.DefId → M rustc.tcx AdtSort) (depth : ℕ)
    (body_of : rustc.tcx.DefId → FnBody rustc) where
  open rustc use {tcx}

  abbrev D : Type 0
  D = tcx.DefId

  abbrev H : Type 0
  H = tcx.HirId

  abbrev pub extract_id : D → M tcx SymbolIdentifier
  unfolding extract_adt_id
  extract_id = extract_adt_id rustc extract_adt

  -- `fetch_var` of the parameters.
  unfoldable pub fetch_params :
      List (ℕ × TyParam) → DefContext rustc → List (H × Option Text) → M tcx (List ValDef)
  fetch_params map dcx [] = pure []
  fetch_params map dcx ((hir_id, name) ∷ params) =
      fetch_var rustc extract_adt map dcx hir_id >>= λ v.
      fetch_params map dcx params >>= λ vds. pure (val_def v ∷ vds)

  -- The type parameters of a spec function, those of the function with the same indices.
  unfoldable pub same_tparams :
      List (ℕ × TyParam) → List (GenericParam D) → M tcx (List (ℕ × TyParam))
  same_tparams original [] = pure []
  same_tparams original (param ∷ params) = unwrap (get index_eq original param.index) >>= λ tparam.
      same_tparams original params >>= λ rest. pure ((param.index, tparam) ∷ rest)

  -- The variable of a `ValDef`.
  abbrev pub var_of : ValDef → Variable
  var_of (struct (Value.◌∷◌ v rest)) = v

  -- The parameters of a spec function stand for those of the function.
  unfoldable pub bind_params :
      DefContext rustc → List ValDef → List (H × Option Text) → M tcx (DefContext rustc)
  bind_params dcx (vd ∷ vds) ((hir_id, name) ∷ params) =
      add_var rustc dcx hir_id (var_of vd) >>= λ next. bind_params next vds params
  bind_params dcx [] [] = pure dcx
  bind_params dcx _ _ = fail

  -- The parameter for the returned value, the last one, and the others.
  abbrev pub return_param :
      Option Variable → List (H × Option Text) → Option (List (H × Option Text) × DefContext rustc)
  return_param none params = some (params, [])
  return_param (some v) params = elim (split_last params) [
    | none ↦ none
    | some (others, (hir_id, name)) ↦ some (others, (hir_id, v) ∷ [])
  ]

  -- The context of a spec function with its parameters; the returned value is added to them.
  abbrev pub add_return : DefContext rustc → DefContext rustc → M tcx (DefContext rustc)
  add_return dcx [] = pure dcx
  add_return dcx ((hir_id, v) ∷ rest) = add_var rustc dcx hir_id v

  -- `extract_spec_fn`, with the definition and the type parameters of the function.
  unfoldable pub extract_spec_fn :
      D → List (ℕ × TyParam) → List ValDef → Option Variable → D → M tcx (Value expr)
  unfolding all_generic_params_of same_tparams bind_params populate_def_context extract_expr
      extract_id
  extract_spec_fn original_def original original_params return_var def_id =
      let spec = body_of def_id in
      lift rustc extract_id (all_generic_params_of rustc depth def_id) >>= λ generic_params.
      assert (
        same_def tcx.def_eq (rustc.generics_of def_id).parent
          (rustc.generics_of original_def).parent)
      >> assert (length generic_params == length original)
      >> same_tparams original generic_params
      >>= λ map.
          assert (rustc.is_local def_id)
          >> unwrap (return_param return_var spec.body.params)
          >>= λ split. bind_params [] original_params split.0 >>= λ dcx.
              add_return dcx split.1 >>= λ with_return.
              populate_def_context rustc extract_id map spec.body [] with_return >>= λ r.
              extract_expr rustc extract_adt map r.1 spec.value

  unfoldable pub extract_spec_fns :
      D → List (ℕ × TyParam) → List ValDef → Option Variable → List D → M tcx (List (Value expr))
  unfolding extract_spec_fn
  extract_spec_fns original_def original params return_var [] = pure []
  extract_spec_fns original_def original params return_var (def_id ∷ def_ids) =
      extract_spec_fn original_def original params return_var def_id >>= λ e.
      extract_spec_fns original_def original params return_var def_ids >>= λ es. pure (e ∷ es)

  -- The measure is the last expression of a block that ends with the unit literal.
  abbrev pub with_measure : Value expr → Value expr → M tcx (Value expr)
  with_measure
        (enum ExprKind.block
          (struct (Value.◌∷◌ (seq exprs) (Value.◌∷◌ (enum ExprKind.unit_literal u) rest))))
        body_expr =
      unwrap (split_last (list_of exprs)) >>= λ measure.
      pure (into (decreases (into (block measure.0 measure.1)) body_expr))
  with_measure _ body_expr = pure body_expr

  abbrev pub first_of : {A : Type 0} → List A → Option A
  first_of [] = none
  first_of (a ∷ as_) = some a

  unfoldable pub add_measure :
      D → List (ℕ × TyParam) → List ValDef → Option D → Value expr → M tcx (Value expr)
  unfolding extract_spec_fn
  add_measure def_id map params none body_expr = pure body_expr
  add_measure def_id map params (some measure) body_expr =
      extract_spec_fn def_id map params none measure >>= λ spec_expr.
      with_measure spec_expr body_expr

  abbrev pub add_pres : List (Value expr) → Value expr → Value expr
  add_pres [] body_expr = body_expr
  add_pres (e ∷ es) body_expr = into (require (make_and (e ∷ es)) body_expr)

  abbrev pub add_posts : Variable → List (Value expr) → Value expr → Value expr
  add_posts v [] body_expr = body_expr
  add_posts v (e ∷ es) body_expr =
      into (ensuring body_expr (lambda (val_def v ∷ []) (make_and (e ∷ es))))

  -- The closure for `enter_body` in `extract_local_fn`: the parameters, the returned type and the body, and
  -- the flags that are left.
  unfoldable pub enter_fn :
      D → List (ℕ × TyParam) → FlagMap → M tcx (List ValDef × Value tpe × Value expr × FlagMap)
  unfolding populate_def_context extract_ty fetch_params extract_expr extract_id
  enter_fn def_id map flags_by_symbol =
      let fn_body = body_of def_id in
      populate_def_context rustc extract_id map fn_body.body flags_by_symbol [] >>= λ r.
      extract_ty rustc extract_id map fn_body.output >>= λ return_tpe.
      fetch_params map r.1 fn_body.body.params >>= λ params.
      extract_expr rustc extract_adt map r.1 fn_body.value >>= λ value.
      pure (params, return_tpe, value, r.0)

  -- The end of `extract_local_fn`, after the measure.
  unfoldable pub with_specs :
      D
      → FnSpecs D
      → List TParamDef
      → List (ℕ × TyParam)
      → List ValDef
      → Value tpe
      → Value expr
      → M tcx FunDef
  unfolding extract_spec_fns extract_fn_ref
  with_specs def_id specs tparams map params return_tpe body_expr =
      extract_spec_fns def_id map params none specs.pres >>= λ pres.
      on_mapping (fresh_name tcx (codes "ret")) >>= λ ret_id.
      let return_var = variable ret_id return_tpe [] in
      extract_spec_fns def_id map params (some return_var) specs.posts >>= λ posts.
      extract_fn_ref def_id >>= λ fun_id. pure (
        fun_def fun_id tparams params return_tpe
          (add_posts return_var posts (add_pres pres body_expr))
          (to_stainless (extract_flags (rustc.attrs def_id)).carrier_flags))

  -- `extract_local_fn`
  unfoldable pub extract_local_fn : D → FnSpecs D → M tcx FunDef
  unfolding extract_flags extract_generics enter_fn add_measure with_specs extract_id
  extract_local_fn def_id specs =
      let flags = extract_flags (rustc.attrs def_id) in
      assert (rustc.is_local def_id)
      >> report_warnings rustc flags.warnings
      >> extract_generics rustc extract_id depth def_id
      >>= λ generics. enter_fn def_id generics.1 flags.flags_by_symbol >>= λ parts.
          report_unused_flags rustc parts.3
          >> add_measure def_id generics.1 parts.0 (first_of specs.measures) parts.2
          >>= λ measured. with_specs def_id specs generics.0 generics.1 parts.0 parts.1 measured

  abbrev pub report_measures : List D → M tcx (Unit {0})
  report_measures measures =
      if ltb 1 (length measures)
      then report (Diagnostic.error (codes "Multiple measures."))
      else pure tt

  -- The loop over the functions in `process_crate`, with their specs.
  unfoldable pub extract_local_fns : List (D × FnSpecs D) → M tcx (Unit {0})
  unfolding extract_local_fn add_function
  extract_local_fns [] = pure tt
  extract_local_fns ((def_id, specs) ∷ fns) =
      report_measures specs.measures >> extract_local_fn def_id specs >>= λ fd.
      add_function (fun_id fd) fd >> extract_local_fns fns

  -- `external_functions`
  abbrev pub external : List D → List D
  external [] = []
  external (def_id ∷ def_ids) =
      if rustc.is_local def_id then external def_ids else def_id ∷ external def_ids

  -- The loop over the external functions in `process_crate`, with the inputs and the output of each.
  unfoldable pub extract_extern_fns : (D → List (Ty D) × Ty D) → List D → M tcx (Unit {0})
  unfolding extract_extern_fn add_function extract_id
  extract_extern_fns fn_sig [] = pure tt
  extract_extern_fns fn_sig (def_id ∷ def_ids) =
      extract_extern_fn rustc extract_id depth def_id (fn_sig def_id).0 (fn_sig def_id).1 >>= λ fd.
      add_function (fun_id fd) fd >> extract_extern_fns fn_sig def_ids
