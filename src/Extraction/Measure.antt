-- ===== src/Extraction/Measure.antt =====
-- How many of a list of definitions have no id: stainless_extraction/src/lib.rs.
use rust_stainless.Prelude.{
  ℕ, ◌+◌, ◌≤◌, ◌<◌, ◌≡◌, refl, sym, ap, subst, ◌∙◌, List, [], ◌∷◌, Option, none, some, ◌⊎◌, inl,
  inr, Bool-cases, Option-cases, arith,
}
use rust_stainless.Prelude.Outcome.{done, done-injective}
use rust_stainless.Ser.{Bytes}
use rust_stainless.Ast.Identifier.{SymbolIdentifier}
use rust_stainless.Ast.Encodable.{last}
use rust_stainless.Registry.{
  Tcx, SymbolMapping, get, insert_new, unwrap, underscored, fresh, fresh_id, unit_eq,
  symbol_path_from_def_id, get_id_from_def, register_def, or_register, get_or_register_def,
}
use rust_stainless.Registry.Issued.{bind-done}
use rust_stainless.Prelude.Texts.{text_eq}

abbrev pub Listed : {D : Type 0} → D → List D → Type 0
Listed d [] = ⊥
Listed d (e ∷ ds) = (d ≡ e) ⊎ Listed d ds

abbrev pub one_if_none : {A : Type 0} → Option A → ℕ
one_if_none none = 1
one_if_none (some a) = 0

module _ (tcx : Tcx) where
  abbrev pub missing : List tcx.DefId → SymbolMapping tcx → ℕ
  missing [] xt = 0
  missing (d ∷ ds) xt = one_if_none (get_id_from_def tcx d xt) + missing ds xt

  -- The ids of `before` are kept.
  abbrev pub Keeps : SymbolMapping tcx → SymbolMapping tcx → Type 0
  Keeps before after =
      (d : tcx.DefId) → get_id_from_def tcx d after ≡ none → get_id_from_def tcx d before ≡ none

  one_if_none_mono :
      {A : Type 0} (o p : Option A) → (p ≡ none → o ≡ none) → one_if_none p ≤ one_if_none o
  one_if_none_mono o none h = rw (h refl) (omega arith)
  one_if_none_mono o (some a) h = omega arith

  pub Keeps-missing :
      (ds : List tcx.DefId) (before after : SymbolMapping tcx)
      → Keeps before after
      → missing ds after ≤ missing ds before
  Keeps-missing [] before after h = omega arith
  Keeps-missing (d ∷ ds) before after h = omega (
    arith,
    Keeps-missing ds before after h,
    one_if_none_mono (get_id_from_def tcx d before) (get_id_from_def tcx d after) (h d),
  )

  -- A listed definition that gets an id is missing no more.
  pub missing-decreases :
      (ds : List tcx.DefId) (before after : SymbolMapping tcx) (d : tcx.DefId)
      (id : SymbolIdentifier)
      → Listed d ds
      → Keeps before after
      → get_id_from_def tcx d before ≡ none
      → get_id_from_def tcx d after ≡ some id
      → missing ds after < missing ds before
  missing-decreases [] before after d id m k b a = absurd m
  missing-decreases (e ∷ ds) before after d id m k b a = elim m [
    | inl p ↦
        let b' : one_if_none (get_id_from_def tcx e before) ≡ 1 = rw (← p, b) refl in
        let a' : one_if_none (get_id_from_def tcx e after) ≡ 0 = rw (← p, a) refl in
        omega (arith, Keeps-missing ds before after k)
    | inr n ↦ omega (
      arith,
      missing-decreases ds before after d id n k b a,
      one_if_none_mono (get_id_from_def tcx e before) (get_id_from_def tcx e after) (k e),
    )
  ]

  fresh_id-did_to_stid :
      (name : Bytes) (path : List Bytes) (xt after : SymbolMapping tcx) (id : SymbolIdentifier)
      → fresh_id tcx name path xt ≡ done (id, after)
      → after.did_to_stid ≡ xt.did_to_stid
  unfolding fresh_id
  fresh_id-did_to_stid name path xt after id e =
      let (g, p, e₁) = bind-done (fresh unit_eq tcx.overflow_checks xt.global_id_counter tt) _ e in
      let (l, q, e₂) =
        bind-done (fresh text_eq tcx.overflow_checks xt.local_id_counter name) _ e₁ in
      sym (ap (λ r. r.1.did_to_stid) (done-injective e₂))

  insert_new-new :
      (map out : List (tcx.DefId × SymbolIdentifier)) (d : tcx.DefId) (id : SymbolIdentifier)
      → insert_new tcx.def_eq map d id ≡ done out
      → (get tcx.def_eq map d ≡ none) × (out ≡ (d, id) ∷ map)
  unfolding insert_new
  insert_new-new map out d id e = elim (Option-cases (get tcx.def_eq map d)) [
    | inl n ↦ (n, sym (done-injective (rw n at e)))
    | inr (j, s) ↦ cc (rw s at e)
  ]

  -- `register_def` returns only for a definition without an id, and gives one to it alone.
  pub register_def-new :
      (d : tcx.DefId) (xt after : SymbolMapping tcx) (id : SymbolIdentifier)
      → register_def tcx d xt ≡ done (id, after)
      → (get_id_from_def tcx d xt ≡ none) × (after.did_to_stid ≡ (d, id) ∷ xt.did_to_stid)
  unfolding register_def
  register_def-new d xt after id e =
      let path = symbol_path_from_def_id tcx d in
      let (name, p, e₁) = bind-done (unwrap (last path)) _ e in
      let named = underscored tcx name path in
      let (r, f, e₂) = bind-done (fresh_id tcx named.0 named.1 xt) _ e₁ in
      let (dids, q, e₃) = bind-done (insert_new tcx.def_eq (r.1.did_to_stid) d r.0) _ e₂ in
      let same = fresh_id-did_to_stid named.0 named.1 xt r.1 r.0 f in
      let (n, o) = insert_new-new (r.1.did_to_stid) dids d r.0 q in
      let result = done-injective e₃ in
      (
        rw same at n,
        sym (ap (λ r. r.1.did_to_stid) result)
            ∙ o
            ∙ ap (λ i. (d, i) ∷ r.1.did_to_stid) (ap (λ r. r.0) result)
            ∙ ap (λ map. (d, id) ∷ map) same,
      )

  pub register_def-Keeps :
      (d : tcx.DefId) (xt after : SymbolMapping tcx) (id : SymbolIdentifier)
      → register_def tcx d xt ≡ done (id, after)
      → Keeps xt after
  register_def-Keeps d xt after id e c h = elim (Bool-cases (tcx.def_eq d c)) [
    | inl t ↦ cc (rw ((register_def-new d xt after id e).1, t) at h)
    | inr f ↦ rw ((register_def-new d xt after id e).1, f) at h
  ]

  or_register-Keeps :
      (d : tcx.DefId) (xt after : SymbolMapping tcx) (id : SymbolIdentifier)
      (o : Option SymbolIdentifier)
      → or_register tcx d xt o ≡ done (id, after)
      → Keeps xt after
  unfolding or_register
  or_register-Keeps d xt after id none e c h = register_def-Keeps d xt after id e c h
  or_register-Keeps d xt after id (some i) e c h =
      subst (λ m. get_id_from_def tcx c m ≡ none) (sym (ap (λ r. r.1) (done-injective e))) h

  pub get_or_register_def-Keeps :
      (d : tcx.DefId) (xt after : SymbolMapping tcx) (id : SymbolIdentifier)
      → get_or_register_def tcx d xt ≡ done (id, after)
      → Keeps xt after
  unfolding get_or_register_def
  get_or_register_def-Keeps d xt after id e =
      or_register-Keeps d xt after id (get_id_from_def tcx d xt) e
