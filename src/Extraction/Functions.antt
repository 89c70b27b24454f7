-- ===== src/Extraction/Functions.antt =====
-- The extraction of functions of other crates, as stubs: stainless_extraction/src/krate.rs and lib.rs.
pub mod Stubs
use rust_stainless.Prelude.{
  ℕ, ◌+◌, List, [], ◌∷◌, ◌++◌, Bool, true, false, not, ◌||◌, Option, none, some,
}
use rust_stainless.Prelude.Run.{Run, returned, panicked}
use rust_stainless.Prelude.Texts.{codes, decimal}
use rust_stainless.Ast.Kinds.{def, DefinitionKind}
use rust_stainless.Ast.Identifier.{SymbolIdentifier, symbol_eq}
use rust_stainless.Ast.Value.{Value}
use rust_stainless.Factory.{into}
use rust_stainless.Factory.Definitions.{fun_def, val_def, extern}
use rust_stainless.Factory.Exprs.{variable, no_tree}
use rust_stainless.Symbols.{FunDef}
use rust_stainless.Registry.{
  Tcx, SymbolMapping, get, absent, get_id_from_def, register_def, fresh_name,
}
use rust_stainless.Rustc.{Rustc, Ty}
use rust_stainless.Extraction.{M, Extraction, pure, assert, on_mapping, reads, ◌>>=◌, ◌>>◌}
use rust_stainless.Extraction.Types.{TyParam, extract_ty}
use rust_stainless.Extraction.Generics.{extract_generics}

abbrev pub has_def : {D : Type 0} → (D → D → Bool) → List D → D → Bool
has_def eq [] d = false
has_def eq (e ∷ es) d = eq e d || has_def eq es d

module _ {tcx : Tcx} where
  abbrev pub insert_ref : tcx.DefId → M tcx (Unit {0})
  insert_ref d xt = returned (tt, record xt { function_refs = d ∷ xt.function_refs })

  -- `add_function_ref`
  unfoldable pub add_function_ref : tcx.DefId → M tcx (Unit {0})
  add_function_ref d = reads (λ xt. has_def tcx.def_eq xt.function_refs d) >>= λ there.
      assert (not there) >> insert_ref d

  abbrev pub insert_function : SymbolIdentifier → FunDef → M tcx (Unit {0})
  insert_function id fd xt = returned (tt, record xt { functions = (id, fd) ∷ xt.functions })

  -- `add_function`
  unfoldable pub add_function : SymbolIdentifier → FunDef → M tcx (Unit {0})
  add_function id fd = reads (λ xt. absent symbol_eq (get symbol_eq xt.functions id)) >>= λ new.
      assert new >> insert_function id fd

  unfoldable pub ref_or : tcx.DefId → Option SymbolIdentifier → M tcx SymbolIdentifier
  unfolding add_function_ref register_def
  ref_or def_id (some fun_id) = pure fun_id
  ref_or def_id none = add_function_ref def_id >> on_mapping (register_def tcx def_id)

  -- `extract_fn_ref`
  unfoldable pub extract_fn_ref : tcx.DefId → M tcx SymbolIdentifier
  unfolding ref_or
  extract_fn_ref def_id = reads (λ xt. get_id_from_def tcx def_id xt.mapping) >>= ref_or def_id

module _ (rustc : Rustc) (extract_id : rustc.tcx.DefId → M (rustc.tcx) SymbolIdentifier) where
  -- The parameters of a stub, from the `i`-th one on.
  unfoldable pub extern_params :
      List (ℕ × TyParam)
      → ℕ
      → List (Ty (rustc.tcx.DefId))
      → M (rustc.tcx) (List (Value (def DefinitionKind.val_def)))
  unfolding extract_ty decimal
  extern_params map i [] = pure []
  extern_params map i (ty ∷ tys) =
      on_mapping (fresh_name rustc.tcx (codes "param" ++ decimal i)) >>= λ id.
      extract_ty rustc extract_id map ty >>= λ tpe.
      extern_params map (i + 1) tys >>= λ params. pure (val_def (variable id tpe []) ∷ params)

  -- `extract_extern_fn`, with the types of the inputs and the output of the function's signature.
  unfoldable pub extract_extern_fn :
      ℕ
      → rustc.tcx.DefId
      → List (Ty (rustc.tcx.DefId))
      → Ty (rustc.tcx.DefId)
      → M (rustc.tcx) FunDef
  unfolding extract_generics extern_params extract_fn_ref
  extract_extern_fn depth def_id inputs output =
      assert (not (rustc.is_local def_id))
      >> extract_generics rustc extract_id depth def_id
      >>= λ generics. extern_params generics.1 0 inputs >>= λ params.
          extract_ty rustc extract_id generics.1 output >>= λ return_tpe.
          extract_fn_ref def_id >>= λ fun_id. pure (
            fun_def fun_id generics.0 params return_tpe (into (no_tree return_tpe))
              (into extern ∷ []))
