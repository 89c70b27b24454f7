-- ===== src/Extraction/Bindings.antt =====
-- stainless_extraction/src/bindings.rs: the variables of a body. The patterns of the body are given by the
-- ids of the bindings, in the order in which rustc's visitor meets them; spans are left out.
use rust_stainless.Prelude.{
  ◌≡◌, refl, ap, subst, List, [], ◌∷◌, Bool, true, false, Option, none, some, if◌then◌else◌, ℕ,
}
use rust_stainless.Prelude.Run.{returned, returned-injective}
use rust_stainless.Prelude.Texts.{Text, codes, text_eq}
use rust_stainless.Ast.Kinds.{exp, ExprKind}
use rust_stainless.Ast.Identifier.{SymbolIdentifier}
use rust_stainless.Ast.Value.{Value}
use rust_stainless.Factory.Exprs.{variable}
use rust_stainless.Flags.{Flag}
use rust_stainless.Registry.{get, absent, register_hir}
use rust_stainless.Rustc.{Rustc, Ty}
use rust_stainless.Extraction.{
  M, Extraction, pure, fail, assert, unsupported, unwrap, on_mapping, ◌>>=◌, ◌>>◌,
}
use rust_stainless.Extraction.Types.{TyParam, extract_ty}
use rust_stainless.Extraction.Adts.{FlagMap, remove_symbol, stainless_flags}
use rust_stainless.Extraction.Steps.{bind-returned}

abbrev pub Variable : Type 0
Variable = Value (exp ExprKind.variable)

-- The HIR node of an id: a binding, with its name and whether its mode is immutable, or another one.
pub data Node : Type 0 where
  binding : Bool → Text → Node
  complex : Node

-- What is read of a body: its nodes and their types, the parameters with their names where they are
-- simple, the bindings, and whether it is a generator.
pub record Body (rustc : Rustc) : Type 0 where
  pub find : rustc.tcx.HirId → Option Node
  pub node_type : rustc.tcx.HirId → Ty rustc.tcx.DefId
  pub params : List (rustc.tcx.HirId × Option Text)
  pub visited : List rustc.tcx.HirId
  pub is_generator : Bool

-- `flags_by_symbol.remove` for a parameter with a simple name.
abbrev pub flags_for : Option Text → FlagMap → Option (List Flag)
flags_for none map = none
flags_for (some name) map = get text_eq map name

abbrev pub without : Option Text → FlagMap → FlagMap
without none map = map
without (some name) map = remove_symbol name map

module _ (rustc : Rustc) where
  -- `DefContext`
  abbrev pub DefContext : Type 0
  DefContext = List (rustc.tcx.HirId × Variable)

  -- `get_var`
  abbrev pub get_var : DefContext → rustc.tcx.HirId → Option Variable
  get_var dcx hir_id = get rustc.tcx.hir_eq dcx hir_id

  -- `add_var`
  abbrev pub add_var : DefContext → rustc.tcx.HirId → Variable → M (rustc.tcx) DefContext
  add_var dcx hir_id var =
      assert (absent rustc.tcx.hir_eq (get_var dcx hir_id)) >> pure ((hir_id, var) ∷ dcx)

module _ (rustc : Rustc) (extract_id : rustc.tcx.DefId → M (rustc.tcx) SymbolIdentifier)
    (index_to_tparam : List (ℕ × TyParam)) (body : Body rustc) where
  abbrev Hir : Type 0
  Hir = rustc.tcx.HirId

  -- The name of a binding; a mode that is not supported is reported.
  abbrev pub ident_of : Node → M (rustc.tcx) Text
  ident_of (binding immutable ident) =
      (if immutable then pure tt else unsupported (codes "Only immutable bindings are supported"))
      >> pure ident
  ident_of complex =
      unsupported (codes "Cannot extract complex pattern in binding (cannot recover from this)")
      >> fail

  unfoldable pub binding_or :
      Hir
      → Option (List Flag)
      → DefContext rustc
      → Option Variable
      → M (rustc.tcx) (Variable × DefContext rustc)
  unfolding register_hir extract_ty
  binding_or hir_id flags dcx (some var) = pure (var, dcx)
  binding_or hir_id flags dcx none = unwrap (body.find hir_id) >>= λ node.
      ident_of node >>= λ ident. on_mapping (register_hir rustc.tcx hir_id ident) >>= λ id.
      extract_ty rustc extract_id index_to_tparam (body.node_type hir_id) >>= λ tpe.
      add_var rustc dcx hir_id (variable id tpe (stainless_flags flags)) >>= λ next.
      pure (variable id tpe (stainless_flags flags), next)

  -- `extract_binding`
  unfoldable pub extract_binding :
      Hir → Option (List Flag) → DefContext rustc → M (rustc.tcx) (Variable × DefContext rustc)
  unfolding binding_or
  extract_binding hir_id flags dcx = binding_or hir_id flags dcx (get_var rustc dcx hir_id)

  -- The loop over the parameters.
  unfoldable pub bind_params :
      List (Hir × Option Text)
      → FlagMap
      → DefContext rustc
      → M (rustc.tcx) (FlagMap × DefContext rustc)
  unfolding extract_binding
  bind_params [] map dcx = pure (map, dcx)
  bind_params ((hir_id, name) ∷ params) map dcx =
      extract_binding hir_id (flags_for name map) dcx >>= λ v.
      bind_params params (without name map) v.1

  -- The visitor's calls of `extract_binding`.
  unfoldable pub bind_visited : List Hir → DefContext rustc → M (rustc.tcx) (DefContext rustc)
  unfolding extract_binding
  bind_visited [] dcx = pure dcx
  bind_visited (hir_id ∷ ids) dcx = extract_binding hir_id none dcx >>= λ v. bind_visited ids v.1

  -- `populate_def_context`
  unfoldable pub populate_def_context :
      FlagMap → DefContext rustc → M (rustc.tcx) (FlagMap × DefContext rustc)
  unfolding bind_params bind_visited
  populate_def_context map dcx = bind_params body.params map dcx >>= λ r.
      assert (if body.is_generator then false else true)
      >> bind_visited body.visited r.1
      >>= λ next. pure (r.0, next)

  binding_or-get :
      (h : Hir) (flags : Option (List Flag)) (dcx after : DefContext rustc) (v : Variable)
      (o : Option Variable) (xt out : Extraction rustc.tcx)
      → rustc.tcx.hir_eq h h ≡ true
      → get_var rustc dcx h ≡ o
      → binding_or h flags dcx o xt ≡ returned ((v, after), out)
      → get_var rustc after h ≡ some v
  unfolding binding_or
  binding_or-get h flags dcx after v (some w) xt out r g e =
      subst (λ (p : Variable × DefContext rustc). get_var rustc (p.1) h ≡ some (p.0))
        (ap (λ q. q.0) (returned-injective e)) g
  binding_or-get h flags dcx after v none xt out r g e =
      let (node, xt₁, p₁, e₁) = bind-returned (unwrap (body.find h)) _ xt _ e in
      let (ident, xt₂, p₂, e₂) = bind-returned (ident_of node) _ xt₁ _ e₁ in
      let (id, xt₃, p₃, e₃) =
        bind-returned (on_mapping (register_hir rustc.tcx h ident)) _ xt₂ _ e₂ in
      let (tpe, xt₄, p₄, e₄) =
        bind-returned (extract_ty rustc extract_id index_to_tparam (body.node_type h)) _ xt₃ _ e₃ in
      let var = variable id tpe (stainless_flags flags) in
      let (next, xt₅, p₅, e₅) = bind-returned (add_var rustc dcx h var) _ xt₄ _ e₄ in
      let (u, xt₆, p₆, e₆) =
        bind-returned (assert (absent rustc.tcx.hir_eq (get_var rustc dcx h))) _ xt₄ _ p₅ in
      subst (λ (p : Variable × DefContext rustc). get_var rustc (p.1) h ≡ some (p.0))
        (ap (λ q. q.0) (returned-injective e₅))
        (subst (λ m. get_var rustc m h ≡ some var) (ap (λ q. q.0) (returned-injective e₆))
          (rw r refl))

  -- Once a binding has its variable, extracting it again returns the same variable and changes nothing,
  -- whatever flags are given then. The id equals itself in the comparison of ids.
  pub extract_binding-again :
      (h : Hir) (flags others : Option (List Flag)) (dcx after : DefContext rustc) (v : Variable)
      (xt out : Extraction rustc.tcx)
      → rustc.tcx.hir_eq h h ≡ true
      → extract_binding h flags dcx xt ≡ returned ((v, after), out)
      → extract_binding h others after out ≡ returned ((v, after), out)
  unfolding extract_binding
  extract_binding-again h flags others dcx after v xt out r e =
      rw (binding_or-get h flags dcx after v (get_var rustc dcx h) xt out r refl e) refl
