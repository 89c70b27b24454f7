-- ===== src/Extraction/LocalFns/Parts.antt =====
-- What `extract_local_fn` of stainless_extraction/src/krate.rs makes of a function and its specs.
use rust_stainless.Prelude.{ℕ, ◌≡◌, List, [], ◌∷◌, true, Option, some, length}
use rust_stainless.Prelude.Run.{returned}
use rust_stainless.Prelude.Texts.{Text}
use rust_stainless.Ast.Kinds.{expr, tpe}
use rust_stainless.Ast.Identifier.{SymbolIdentifier}
use rust_stainless.Ast.Value.{Value}
use rust_stainless.Factory.Exprs.{variable}
use rust_stainless.Factory.Definitions.{fun_def, val_def}
use rust_stainless.Symbols.{AdtSort, FunDef}
use rust_stainless.Flags.{extract_flags, to_stainless}
use rust_stainless.Registry.{get_id_from_def}
use rust_stainless.Rustc.{Rustc}
use rust_stainless.Extraction.{M, Extraction}
use rust_stainless.Extraction.Types.{TyParam, extract_ty}
use rust_stainless.Extraction.Generics.{extract_generics}
use rust_stainless.Extraction.Adts.{FlagMap}
use rust_stainless.Extraction.Bindings.{Variable, DefContext, get_var, populate_def_context}
use rust_stainless.Extraction.Items.{FnSpecs}
use rust_stainless.Extraction.Patterns.{ValDef}
use rust_stainless.Extraction.Exprs.{extract_expr}
use rust_stainless.Extraction.LocalFns.Specified.{
  preconditions, postconditions, taken, unit_block, MeasuredBy,
}
use rust_stainless.Extraction.LocalFns.{FnBody, TParamDef, extract_id}

module _ (rustc : Rustc) (extract_adt : rustc.tcx.DefId → M rustc.tcx AdtSort) (depth : ℕ)
    (body_of : rustc.tcx.DefId → FnBody rustc) where
  abbrev D : Type 0
  D = rustc.tcx.DefId

  -- A step returns a value, from some state.
  abbrev pub Returns : {A : Type 0} → M rustc.tcx A → A → Type 0
  Returns m a =
      (before : Extraction rustc.tcx) × (after : Extraction rustc.tcx) × (m before
        ≡ returned (a, after))

  -- An expression is what the value of a spec function is extracted to.
  abbrev pub SpecFrom : D → Value expr → Type 0
  SpecFrom spec e =
      (map : List (ℕ × TyParam)) × (dcx : DefContext rustc) × Returns
        (extract_expr rustc extract_adt map dcx (body_of spec).value) e

  abbrev pub SpecsFrom : List D → List (Value expr) → Type 0
  SpecsFrom [] [] = Unit
  SpecsFrom (spec ∷ specs) (e ∷ es) = SpecFrom spec e × SpecsFrom specs es
  SpecsFrom _ _ = ⊥

  -- The parameters are the variables of the body's parameters.
  abbrev pub ParamsFrom :
      DefContext rustc → List (rustc.tcx.HirId × Option Text) → List ValDef → Type 0
  ParamsFrom dcx [] [] = Unit
  ParamsFrom dcx ((h, name) ∷ ps) (param ∷ params) =
      ((v : Variable) × (get_var rustc dcx h ≡ some v) × (param ≡ val_def v))
      × ParamsFrom dcx ps params
  ParamsFrom dcx _ _ = ⊥

  -- The first measure function, if there is one, gives the measure.
  abbrev pub MeasureFrom : List D → Value expr → Value expr → Type 0
  MeasureFrom [] value out = out ≡ value
  MeasureFrom (spec ∷ specs) value out =
      (e : Value expr) × SpecFrom spec e × MeasuredBy (unit_block e) value out

  -- What is read of a function with a body is extracted to a return type, parameters and a value, with the
  -- type parameters that are in scope.
  pub record IsEntered (def_id : D) (map : List (ℕ × TyParam)) (params : List ValDef)
      (return_tpe : Value tpe) (value : Value expr) : Type 0 where
    pub dcx : DefContext rustc
    pub left : FlagMap
    pub dcx_from :
        Returns
          (populate_def_context rustc
            (extract_id rustc extract_adt depth body_of)
            map
            (body_of def_id).body
            (extract_flags (rustc.attrs def_id)).flags_by_symbol
            [])
          (left, dcx)
    pub return_from :
        Returns
          (extract_ty rustc
            (extract_id rustc extract_adt depth body_of)
            map
            (body_of def_id).output)
          return_tpe
    pub params_from : ParamsFrom dcx (body_of def_id).body.params params
    pub value_from : Returns (extract_expr rustc extract_adt map dcx (body_of def_id).value) value

  -- A function is local and registered under its id, has the flags of its attributes, and is made of what is
  -- extracted of it and of its specs: read off its body are the postconditions, then the preconditions,
  -- then the measure, and what is left is its value.
  pub record IsLocalFn (def_id : D) (specs : FnSpecs D) (after : Extraction rustc.tcx) (fd : FunDef)
      : Type 0 where
    pub id : SymbolIdentifier
    pub generics : List TParamDef × List (ℕ × TyParam)
    pub params : List ValDef
    pub return_tpe : Value tpe
    pub return_id : SymbolIdentifier
    pub value : Value expr
    pub measured : Value expr
    pub required : Value expr
    pub body : Value expr
    pub pres : List (Value expr)
    pub posts : List (Value expr)
    pub is_local : rustc.is_local def_id ≡ true
    pub registered : get_id_from_def rustc.tcx def_id after.mapping ≡ some id
    pub generics_from :
        Returns
          (extract_generics rustc (extract_id rustc extract_adt depth body_of) depth def_id)
          generics
    pub entered : IsEntered def_id generics.1 params return_tpe value
    pub measure_from : MeasureFrom specs.measures value measured
    pub pres_from : SpecsFrom specs.pres pres
    pub posts_from : SpecsFrom specs.posts posts
    pub preconditions_read : preconditions (length specs.pres) required ≡ some (pres, measured)
    pub postconditions_read :
        postconditions (length specs.posts) body
        ≡ some (posts, (taken posts (variable return_id return_tpe []), required))
    pub built :
        fd
        ≡ fun_def id generics.0 params return_tpe body
            (to_stainless (extract_flags (rustc.attrs def_id)).carrier_flags)
