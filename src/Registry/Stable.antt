-- ===== src/Registry/Stable.antt =====
-- Asking for the id of a definition again: `get_or_register_def` of stainless_extraction/src/lib.rs.
use rust_stainless.Prelude.{◌≡◌, refl, subst, List, true, Option, none, some, inl, inr, Bool-cases}
use rust_stainless.Prelude.Outcome.{done, done-injective}
use rust_stainless.Ast.Identifier.{SymbolIdentifier}
use rust_stainless.Ast.Encodable.{last}
use rust_stainless.Registry.{
  Tcx, SymbolMapping, absent, get, insert_new, unwrap, underscored, fresh_id,
  symbol_path_from_def_id, get_id_from_def, register_def, or_register, get_or_register_def,
}
use rust_stainless.Registry.Issued.{bind-done}

module _ (tcx : Tcx) where
  insert_new-get :
      {V : Type 0} (map out : List (tcx.DefId × V)) (d : tcx.DefId) (v : V)
      → tcx.def_eq d d ≡ true
      → insert_new tcx.def_eq map d v ≡ done out
      → get tcx.def_eq out d ≡ some v
  unfolding insert_new
  insert_new-get map out d v r e = elim (Bool-cases (absent tcx.def_eq (get tcx.def_eq map d))) [
    | inl a ↦ subst (λ m. get tcx.def_eq m d ≡ some v) (done-injective (rw a at e)) (rw r refl)
    | inr a ↦ cc (rw a at e)
  ]

  register_def-get :
      (xt after : SymbolMapping tcx) (id : SymbolIdentifier) (d : tcx.DefId)
      → tcx.def_eq d d ≡ true
      → register_def tcx d xt ≡ done (id, after)
      → get_id_from_def tcx d after ≡ some id
  unfolding register_def
  register_def-get xt after id d s e =
      let path = symbol_path_from_def_id tcx d in
      let (name, p, e₁) = bind-done (unwrap (last path)) _ e in
      let named = underscored tcx name path in
      let (r, f, e₂) = bind-done (fresh_id tcx named.0 named.1 xt) _ e₁ in
      let (dids, q, e₃) = bind-done (insert_new tcx.def_eq (r.1.did_to_stid) d r.0) _ e₂ in
      subst (λ (o : SymbolIdentifier × SymbolMapping tcx). get_id_from_def tcx d (o.1) ≡ some (o.0))
        (done-injective e₃) (insert_new-get (r.1.did_to_stid) dids d r.0 s q)

  or_register-get :
      (xt after : SymbolMapping tcx) (id : SymbolIdentifier) (d : tcx.DefId)
      (o : Option SymbolIdentifier)
      → get_id_from_def tcx d xt ≡ o
      → tcx.def_eq d d ≡ true
      → or_register tcx d xt o ≡ done (id, after)
      → get_id_from_def tcx d after ≡ some id
  unfolding or_register
  or_register-get xt after id d none g r e = register_def-get xt after id d r e
  or_register-get xt after id d (some j) g r e =
      subst (λ (p : SymbolIdentifier × SymbolMapping tcx). get_id_from_def tcx d (p.1) ≡ some (p.0))
        (done-injective e) g

  -- Once `get_or_register_def` has returned an id for a definition, it returns the same id again and
  -- changes nothing, if the definition is equal to itself in the comparison of definitions.
  pub get_or_register_def-again :
      (xt after : SymbolMapping tcx) (id : SymbolIdentifier) (def_id : tcx.DefId)
      → tcx.def_eq def_id def_id ≡ true
      → get_or_register_def tcx def_id xt ≡ done (id, after)
      → get_or_register_def tcx def_id after ≡ done (id, after)
  unfolding get_or_register_def
  get_or_register_def-again xt after id def_id r e =
      rw (or_register-get xt after id def_id _ refl r e) refl
