-- ===== src/Extraction/Enough.antt =====
-- The extraction of generic parameters does not run out of fuel, as long as that of data types does not:
-- stainless_extraction/src/ty.rs.
pub mod Types
use rust_stainless.Prelude.{
  ℕ, zero, suc, ◌≡◌, subst, List, [], ◌∷◌, Bool, true, false, ◌==◌, Option, none, some, inl, inr,
  Bool-cases, All, length,
}
use rust_stainless.Ast.Identifier.{SymbolIdentifier}
use rust_stainless.Ast.Value.{Value}
use rust_stainless.Ast.Kinds.{tpe}
use rust_stainless.StdItems.{StdItem}
use rust_stainless.Registry.{get, absent}
use rust_stainless.Rustc.{
  Rustc, Ty, Tys, Generics, GenericParam, Predicate, bit_width, no_tys, AllAdts, AllAdtsOf,
  AllAdtsIn, ParentsWithin,
}
use rust_stainless.Rustc
use rust_stainless.Extraction.{M}
use rust_stainless.StdItems.Tables.{some-injective}
use rust_stainless.Extraction.Measure.{Listed}
use rust_stainless.Extraction.Fine.{
  Fine, Any, bind-Fine, pure-Fine, fail-Fine, report-then-Fine, assert-then-Fine, assert-Fine,
  unwrap-Fine, if-Fine, get_or_register-Fine,
}
use rust_stainless.Extraction.Types.{
  TyParam, index_eq, is_bigint, extract_ty, extract_tys, extract_first, int_type, tuple_of,
  untyped_with, is_set_type,
}
use rust_stainless.Extraction.Generics.{
  FunBounds, remove_index, as_param, tuple_fields, if_fn_bound, params_from, all_generic_params_of,
  is_fn_like_trait, warn_ignored, add_params, add_return, add_predicate, add_predicates, tparams_of,
  replace_tparams, generics_with, lift, extract_generics,
}
use rust_stainless.Extraction.Enough.Types.{ty-Fine, tys-Fine}

tuple_fields_lem :
    {D : Type 0} (P : D → Type 0) (t : Ty D) (tys : Tys D)
    → AllAdts P t
    → tuple_fields t ≡ some tys
    → AllAdtsOf P tys
tuple_fields_lem P (Rustc.tuple us) tys a e = subst (AllAdtsOf P) (some-injective e) a
tuple_fields_lem P Rustc.bool tys a e = cc
tuple_fields_lem P Rustc.str tys a e = cc
tuple_fields_lem P Rustc.other tys a e = cc
tuple_fields_lem P (Rustc.int w) tys a e = cc
tuple_fields_lem P (Rustc.uint w) tys a e = cc
tuple_fields_lem P (Rustc.adt d ts) tys a e = cc
tuple_fields_lem P (Rustc.fn_def d ts) tys a e = cc
tuple_fields_lem P Rustc.closure tys a e = cc
tuple_fields_lem P (Rustc.reference b t) tys a e = cc
tuple_fields_lem P (Rustc.param i) tys a e = cc

module _ (rustc : Rustc) (U : List rustc.tcx.DefId) (k : ℕ)
    (extract_id : rustc.tcx.DefId → M (rustc.tcx) SymbolIdentifier)
    (fine : (d : rustc.tcx.DefId) → Listed d U → Fine U k Any (extract_id d)) where
  abbrev InU : rustc.tcx.DefId → Type 0
  InU d = Listed d U

  -- The bounds that are kept name only data types of `U`.
  abbrev InBounds : FunBounds (rustc.tcx.DefId) → Type 0
  InBounds bounds =
      All (λ p. AllAdtsOf InU p.1) bounds.params × All (λ p. AllAdts InU p.1) bounds.returns

  add_params-Fine :
      (index : ℕ) (tys : Tys (rustc.tcx.DefId)) (bounds : FunBounds (rustc.tcx.DefId))
      → AllAdtsOf InU tys
      → InBounds bounds
      → Fine U k InBounds (add_params rustc index tys bounds)
  add_params-Fine index tys bounds a h =
      assert-then-Fine U (absent index_eq (get index_eq bounds.params index))
        (pure-Fine U ((a, h.0), h.1))

  warn-Fine :
      (bounds : FunBounds (rustc.tcx.DefId))
      → InBounds bounds
      → Fine U k InBounds (warn_ignored rustc bounds)
  warn-Fine bounds h = report-then-Fine U _ (pure-Fine U h)

  add_return-Fine :
      (index : ℕ) (t : Ty (rustc.tcx.DefId)) (bounds : FunBounds (rustc.tcx.DefId))
      → AllAdts InU t
      → InBounds bounds
      → Fine U k InBounds (add_return rustc index t bounds)
  add_return-Fine index t bounds a h =
      assert-then-Fine U (absent index_eq (get index_eq bounds.returns index))
        (pure-Fine U (h.0, (a, h.1)))

  if_fn_bound-Fine :
      (d : rustc.tcx.DefId) (o : Option ℕ) (add : ℕ → M (rustc.tcx) (FunBounds (rustc.tcx.DefId)))
      (bounds : FunBounds (rustc.tcx.DefId))
      → ((index : ℕ) → Fine U k InBounds (add index))
      → InBounds bounds
      → Fine U k InBounds (if_fn_bound rustc d o add bounds)
  if_fn_bound-Fine d none add bounds f h = warn-Fine bounds h
  if_fn_bound-Fine d (some index) add bounds f h =
      if-Fine U (is_fn_like_trait rustc d) (f index) (warn-Fine bounds h)

  add_predicate-Fine :
      (p : Predicate (rustc.tcx.DefId)) (bounds : FunBounds (rustc.tcx.DefId))
      → AllAdtsIn InU p
      → InBounds bounds
      → Fine U k InBounds (add_predicate rustc p bounds)
  unfolding add_predicate
  add_predicate-Fine (Predicate.trait d self arg) bounds a h =
      if-Fine U (rustc.is_one_of d (StdItem.sized_trait ∷ [])) (pure-Fine U h) (
        if_fn_bound-Fine d (as_param self) _ bounds
          (λ index.
            bind-Fine U (unwrap-Fine U (tuple_fields arg))
              λ tys q. add_params-Fine index tys bounds (tuple_fields_lem InU arg tys a q) h)
          h)
  add_predicate-Fine (Predicate.projection d self t) bounds a h =
      if_fn_bound-Fine d (as_param self) _ bounds (λ index. add_return-Fine index t bounds a h) h
  add_predicate-Fine Predicate.other bounds a h = warn-Fine bounds h

  add_predicates-Fine :
      (ps : List (Predicate (rustc.tcx.DefId))) (bounds : FunBounds (rustc.tcx.DefId))
      → All (AllAdtsIn InU) ps
      → InBounds bounds
      → Fine U k InBounds (add_predicates rustc ps bounds)
  unfolding add_predicates
  add_predicates-Fine [] bounds a h = pure-Fine U h
  add_predicates-Fine (p ∷ ps) bounds a h =
      bind-Fine U (add_predicate-Fine p bounds a.0 h) λ b q. add_predicates-Fine ps b a.1 q

  tparams_of-Fine :
      (fun_params : List (ℕ × Tys (rustc.tcx.DefId)))
      (params : List (GenericParam (rustc.tcx.DefId)))
      → Fine U k Any (tparams_of rustc fun_params params)
  unfolding tparams_of
  tparams_of-Fine fun_params [] = pure-Fine U tt
  tparams_of-Fine fun_params (p ∷ params) =
      let rest = tparams_of-Fine fun_params params in
      if-Fine U p.is_type
        (if-Fine U (absent index_eq (get index_eq fun_params p.index))
          (bind-Fine U (get_or_register-Fine U p.def_id)
            λ id q. bind-Fine U rest λ map r. pure-Fine U tt)
          rest)
        (report-then-Fine U _ rest)

  All-get :
      (returns : List (ℕ × Ty (rustc.tcx.DefId))) (index : ℕ) (t : Ty (rustc.tcx.DefId))
      → All (λ p. AllAdts InU p.1) returns
      → get index_eq returns index ≡ some t
      → AllAdts InU t
  All-get [] index t a e = cc
  All-get ((i, u) ∷ returns) index t a e = elim (Bool-cases (index_eq i index)) [
    | inl y ↦ subst (AllAdts InU) (some-injective (rw y at e)) a.0
    | inr n ↦ All-get returns index t a.1 (rw n at e)
  ]

  All-remove_index :
      (returns : List (ℕ × Ty (rustc.tcx.DefId))) (index : ℕ)
      → All (λ p. AllAdts InU p.1) returns
      → All (λ p. AllAdts InU p.1) (remove_index index returns)
  All-remove_index [] index a = tt
  All-remove_index ((i, u) ∷ returns) index a = elim (Bool-cases (i == index)) [
    | inl y ↦ rw y a.1
    | inr n ↦ rw n (a.0, All-remove_index returns index a.1)
  ]

  replace_tparams-Fine :
      (fun_params : List (ℕ × Tys (rustc.tcx.DefId))) (returns : List (ℕ × Ty (rustc.tcx.DefId)))
      (map : List (ℕ × TyParam))
      → All (λ p. AllAdtsOf InU p.1) fun_params
      → All (λ p. AllAdts InU p.1) returns
      → Fine U k Any (replace_tparams rustc extract_id fun_params returns map)
  unfolding replace_tparams
  replace_tparams-Fine [] returns map a b = pure-Fine U tt
  replace_tparams-Fine ((index, tys) ∷ fun_params) returns map a b =
      bind-Fine U (tys-Fine rustc U k extract_id fine map tys a.0) λ tps q.
        bind-Fine U (unwrap-Fine U (get index_eq returns index)) λ t e.
          bind-Fine U (ty-Fine rustc U k extract_id fine map t (All-get returns index t b e))
            λ tpe r. assert-then-Fine U (absent index_eq (get index_eq map index)) (
              replace_tparams-Fine fun_params (remove_index index returns) _ a.1
                (All-remove_index returns index b))

  params_from-Fine :
      (n : ℕ) (parent : Option (rustc.tcx.DefId)) (found : List (GenericParam (rustc.tcx.DefId)))
      → ParentsWithin rustc n parent
      → Fine U k Any (lift rustc extract_id (params_from rustc n parent found))
  unfolding params_from
  params_from-Fine n none found h = pure-Fine U tt
  params_from-Fine zero (some parent) found h = absurd h
  params_from-Fine (suc n) (some parent) found h =
      params_from-Fine n (rustc.generics_of parent).parent _ h

  generics_with-Fine :
      (ps : List (GenericParam (rustc.tcx.DefId))) (bounds : FunBounds (rustc.tcx.DefId))
      → ((xs : List (ℕ × Tys (rustc.tcx.DefId)))
          → All (λ p. AllAdtsOf InU p.1) xs
          → All (λ p. AllAdtsOf InU p.1) (rustc.iterate xs))
      → InBounds bounds
      → Fine U k Any (generics_with rustc extract_id ps bounds)
  unfolding generics_with
  generics_with-Fine ps bounds i b = bind-Fine U (tparams_of-Fine bounds.params ps) λ map r.
      bind-Fine U
        (replace_tparams-Fine (rustc.iterate bounds.params) bounds.returns map (i bounds.params b.0)
          b.1)
        λ out s. pure-Fine U tt

  pub generics-Fine :
      (depth : ℕ) (d : rustc.tcx.DefId)
      → ((xs : List (ℕ × Tys (rustc.tcx.DefId)))
          → All (λ p. AllAdtsOf InU p.1) xs
          → All (λ p. AllAdtsOf InU p.1) (rustc.iterate xs))
      → ParentsWithin rustc depth (rustc.generics_of d).parent
      → All (AllAdtsIn InU) (rustc.predicates_of d)
      → Fine U k Any (extract_generics rustc extract_id depth d)
  unfolding extract_generics all_generic_params_of
  generics-Fine depth d i w a =
      let all_params =
        params_from-Fine depth (rustc.generics_of d).parent (rustc.generics_of d).params w in
      if-Fine U (rustc.is_closure d)
        (bind-Fine U all_params λ ps q.
          bind-Fine U
            (assert-then-Fine U (length ps == 3)
              (assert-Fine U (length (rustc.predicates_of d) == 0)))
            λ u r. pure-Fine U tt)
        (bind-Fine U all_params λ ps q.
          bind-Fine U (add_predicates-Fine (rustc.predicates_of d) _ a (tt, tt))
            λ bounds b. generics_with-Fine ps bounds i b)
