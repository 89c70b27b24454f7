-- ===== src/Extraction/Generics.antt =====
-- stainless_extraction/src/ty.rs: the extraction of generic parameters. The predicates that are ignored
-- with a warning, and the parameters that are rejected, are those of the source.
use rust_stainless.Prelude.{
  ℕ, zero, suc, List, [], ◌∷◌, ◌++◌, Bool, ◌==◌, Option, none, some, if◌then◌else◌, length,
}
use rust_stainless.Prelude.Run.{Run, returned, panicked, exhausted}
use rust_stainless.Prelude.Texts.{codes}
use rust_stainless.Ast.Kinds.{def, DefinitionKind}
use rust_stainless.Ast.Identifier.{SymbolIdentifier}
use rust_stainless.Ast.Value.{Value}
use rust_stainless.Factory.{into}
use rust_stainless.Factory.Types.{function_type, type_parameter}
use rust_stainless.Factory.Definitions.{type_parameter_def}
use rust_stainless.StdItems.{StdItem}
use rust_stainless.Registry.{get, absent, get_or_register_def}
use rust_stainless.Rustc.{Rustc, Ty, Tys, Generics, GenericParam, Predicate}
use rust_stainless.Rustc
use rust_stainless.Extraction.{
  M, Diagnostic, pure, report, unsupported, unwrap, assert, on_mapping, ◌>>=◌, ◌>>◌,
}
use rust_stainless.Extraction.Types.{
  TyParam, replaced, extracted, index_eq, extract_ty, extract_tys,
}

-- The index of a type parameter.
abbrev pub as_param : {D : Type 0} → Ty D → Option ℕ
as_param (Rustc.param index) = some index
as_param _ = none

-- `tuple_fields`, which fails for a type that is not a tuple.
abbrev pub tuple_fields : {D : Type 0} → Ty D → Option (Tys D)
tuple_fields (Rustc.tuple tys) = some tys
tuple_fields _ = none

-- `HashMap::remove`
abbrev pub remove_index : {A : Type 0} → ℕ → List (ℕ × A) → List (ℕ × A)
remove_index index [] = []
remove_index index ((i, a) ∷ map) = if i == index then map else (i, a) ∷ remove_index index map

-- `tparam_to_fun_params` and `tparam_to_fun_return`
pub record FunBounds (D : Type 0) : Type 0 where
  pub params : List (ℕ × Tys D)
  pub returns : List (ℕ × Ty D)

abbrev pub extracted_defs :
    List (ℕ × TyParam) → List (Value (def DefinitionKind.type_parameter_def))
extracted_defs [] = []
extracted_defs ((i, replaced t) ∷ map) = extracted_defs map
extracted_defs ((i, extracted tparam) ∷ map) = type_parameter_def tparam ∷ extracted_defs map

module _ (rustc : Rustc) where
  open rustc use {tcx}

  abbrev Def : Type 0
  Def = tcx.DefId

  -- The loop of `all_generic_params_of`, on fuel; the generics of the parents come first.
  unfoldable pub params_from :
      ℕ → Option Def → List (GenericParam Def) → Run (List (GenericParam Def))
  params_from fuel none found = returned found
  params_from zero (some parent) found = exhausted
  params_from (suc fuel) (some parent) found =
      let generics = rustc.generics_of parent in
      params_from fuel generics.parent (generics.params ++ found)

  -- `all_generic_params_of`
  unfoldable pub all_generic_params_of : ℕ → Def → Run (List (GenericParam Def))
  unfolding params_from
  all_generic_params_of fuel def_id =
      let generics = rustc.generics_of def_id in params_from fuel generics.parent generics.params

  -- `is_fn_like_trait`
  abbrev pub is_fn_like_trait : Def → Bool
  is_fn_like_trait did =
      rustc.is_one_of did (StdItem.fn_trait ∷ StdItem.fn_mut_trait ∷ StdItem.fn_once_trait ∷ [])

  abbrev pub warn_ignored : FunBounds Def → M tcx (FunBounds Def)
  warn_ignored bounds =
      report (Diagnostic.warning (codes "Ignored predicate during extraction")) >> pure bounds

  -- `assert!(tparam_to_fun_params.insert(index, param_tys).is_none())`
  abbrev pub add_params : ℕ → Tys Def → FunBounds Def → M tcx (FunBounds Def)
  add_params index tys bounds =
      assert (absent index_eq (get index_eq bounds.params index))
      >> pure (record bounds { params = (index, tys) ∷ bounds.params })

  abbrev pub add_return : ℕ → Ty Def → FunBounds Def → M tcx (FunBounds Def)
  add_return index ty bounds =
      assert (absent index_eq (get index_eq bounds.returns index))
      >> pure (record bounds { returns = (index, ty) ∷ bounds.returns })

  -- What is done for a predicate on a type parameter, by its index, if it bounds it by a function trait.
  abbrev pub if_fn_bound :
      Def → Option ℕ → (ℕ → M tcx (FunBounds Def)) → FunBounds Def → M tcx (FunBounds Def)
  if_fn_bound did none add bounds = warn_ignored bounds
  if_fn_bound did (some index) add bounds =
      if is_fn_like_trait did then add index else warn_ignored bounds

  -- The body of the loop over the predicates.
  unfoldable pub add_predicate : Predicate Def → FunBounds Def → M tcx (FunBounds Def)
  add_predicate (Predicate.trait did self arg) bounds =
      if rustc.is_one_of did (StdItem.sized_trait ∷ [])
      then pure bounds
      else if_fn_bound did (as_param self)
          (λ index. unwrap (tuple_fields arg) >>= λ tys. add_params index tys bounds) bounds
  add_predicate (Predicate.projection did self ty) bounds =
      if_fn_bound did (as_param self) (λ index. add_return index ty bounds) bounds
  add_predicate Predicate.other bounds = warn_ignored bounds

  unfoldable pub add_predicates : List (Predicate Def) → FunBounds Def → M tcx (FunBounds Def)
  unfolding add_predicate
  add_predicates [] bounds = pure bounds
  add_predicates (p ∷ ps) bounds = add_predicate p bounds >>= add_predicates ps

  -- The parameters that are not functions.
  unfoldable pub tparams_of :
      List (ℕ × Tys Def) → List (GenericParam Def) → M tcx (List (ℕ × TyParam))
  unfolding get_or_register_def
  tparams_of fun_params [] = pure []
  tparams_of fun_params (param ∷ params) =
      if param.is_type
      then (if absent index_eq (get index_eq fun_params param.index)
          then (on_mapping (get_or_register_def tcx param.def_id) >>= λ id.
              tparams_of fun_params params >>= λ map.
              pure ((param.index, extracted (type_parameter id [])) ∷ map))
          else tparams_of fun_params params)
      else unsupported (codes "Cannot extract generic parameter") >> tparams_of fun_params params

  module _ (extract_adt_id : Def → M tcx SymbolIdentifier) where
    -- The loop over the parameters that are functions.
    unfoldable pub replace_tparams :
        List (ℕ × Tys Def) → List (ℕ × Ty Def) → List (ℕ × TyParam) → M tcx (List (ℕ × TyParam))
    unfolding extract_ty extract_tys
    replace_tparams [] returns map = pure map
    replace_tparams ((index, param_tys) ∷ fun_params) returns map =
        extract_tys rustc extract_adt_id map param_tys >>= λ param_tps.
        unwrap (get index_eq returns index) >>= λ return_ty.
        extract_ty rustc extract_adt_id map return_ty >>= λ return_tpe.
        assert (absent index_eq (get index_eq map index))
        >> replace_tparams fun_params (remove_index index returns)
            ((index, replaced (into (function_type param_tps return_tpe))) ∷ map)

    unfoldable pub generics_with :
        List (GenericParam Def)
        → FunBounds Def
        → M tcx (List (Value (def DefinitionKind.type_parameter_def)) × List (ℕ × TyParam))
    unfolding tparams_of replace_tparams
    generics_with all_params bounds = tparams_of bounds.params all_params >>= λ map.
        replace_tparams (rustc.iterate bounds.params) bounds.returns map >>= λ index_to_tparam.
        pure (extracted_defs (rustc.iterate index_to_tparam), index_to_tparam)

    abbrev pub lift : {A : Type 0} → Run A → M tcx A
    lift (returned a) xt = returned (a, xt)
    lift panicked xt = panicked
    lift exhausted xt = exhausted

    -- `extract_generics`; the fuel is the number of parents that an item may have.
    unfoldable pub extract_generics :
        ℕ → Def → M tcx (List (Value (def DefinitionKind.type_parameter_def)) × List (ℕ × TyParam))
    unfolding all_generic_params_of add_predicates generics_with
    extract_generics fuel def_id =
        if rustc.is_closure def_id
        then (lift (all_generic_params_of fuel def_id) >>= λ all_params.
            assert (length all_params == 3)
            >> assert (length (rustc.predicates_of def_id) == 0)
            >> pure ([], []))
        else (lift (all_generic_params_of fuel def_id) >>= λ all_params.
            add_predicates (rustc.predicates_of def_id) (record { params = []; returns = [] })
            >>= generics_with all_params)
