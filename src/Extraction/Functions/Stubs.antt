-- ===== src/Extraction/Functions/Stubs.antt =====
-- Stubs and the ids of functions: `extract_fn_ref` and `extract_extern_fn` of
-- stainless_extraction/src/krate.rs.
use rust_stainless.Prelude.{
  ℕ, ◌≡◌, refl, arith, ap, ap₂, subst, List, ◌∷◌, Bool, true, not, Option, none, some,
}
use rust_stainless.Prelude.Outcome.{Outcome, done}
use rust_stainless.Prelude.Run.{returned, returned-injective}
use rust_stainless.Ast.Kinds.{FieldType, flg}
use rust_stainless.Ast.Identifier.{SymbolIdentifier}
use rust_stainless.Ast.Value.{Value, Elems, symbol, seq, struct, count}
use rust_stainless.Ast.Value
use rust_stainless.Symbols.{FunDef}
use rust_stainless.Registry.{Tcx, SymbolMapping, get_id_from_def, register_def}
use rust_stainless.Rustc.{Rustc}
use rust_stainless.Extraction.{Extraction, assert, with_mapping, ◌>>◌}
use rust_stainless.Extraction.Fine.{
  Fine, Any, bind-Fine, pure-Fine, reads-Fine, assert-then-Fine, mapping-Fine,
}
use rust_stainless.Extraction.Measure.{register_def-new, register_def-Keeps}
use rust_stainless.Extraction.Steps.{bind-returned}
use rust_stainless.Extraction.Functions.{insert_ref, add_function_ref, ref_or, extract_fn_ref}

-- The number of parameters of a function, and its flags.
abbrev pub signature : FunDef → ℕ × Value (FieldType.seq flg)
signature
      (struct (
        Value.◌∷◌ id (
          Value.◌∷◌ tparams
            (Value.◌∷◌ (seq params) (Value.◌∷◌ tpe (Value.◌∷◌ body (Value.◌∷◌ flags rest))))))) =
    (count params, flags)

module _ (tcx : Tcx) where
  mapping-done :
      {A : Type 0} (xt after : Extraction tcx) (a : A) (o : Outcome (A × SymbolMapping tcx))
      → with_mapping xt o ≡ returned (a, after)
      → o ≡ done (a, after.mapping)
  mapping-done xt after a (Outcome.done (b, mapping)) e =
      ap₂ (λ x m. done (x, m)) (ap (λ r. r.0) (returned-injective e))
        (ap (λ r. r.1.mapping) (returned-injective e))
  mapping-done xt after a Outcome.panicked e = cc

  ref_or-get :
      (d : tcx.DefId) (o : Option SymbolIdentifier) (xt after : Extraction tcx)
      (id : SymbolIdentifier)
      → tcx.def_eq d d ≡ true
      → get_id_from_def tcx d xt.mapping ≡ o
      → ref_or d o xt ≡ returned (id, after)
      → get_id_from_def tcx d after.mapping ≡ some id
  unfolding ref_or
  ref_or-get d (some j) xt after id r g e =
      subst
        (λ (p : SymbolIdentifier × Extraction tcx).
          get_id_from_def tcx d (p.1.mapping) ≡ some (p.0))
        (returned-injective e) g
  ref_or-get d none xt after id r g e =
      let (u, mid, p, q) = bind-returned (add_function_ref d) _ xt (id, after) e in
      let new =
        register_def-new tcx d mid.mapping after.mapping id (mapping-done mid after id _ q) in
      rw (new.1, r) refl

  pub fn_ref-get :
      (d : tcx.DefId) (xt after : Extraction tcx) (id : SymbolIdentifier)
      → tcx.def_eq d d ≡ true
      → extract_fn_ref d xt ≡ returned (id, after)
      → get_id_from_def tcx d after.mapping ≡ some id
  unfolding extract_fn_ref
  fn_ref-get d xt after id r e =
      ref_or-get d (get_id_from_def tcx d xt.mapping) xt after id r refl e

  -- Once `extract_fn_ref` has returned an id for a function, it returns the same id again and changes
  -- nothing: the function is referred to only once. The definition equals itself in the comparison.
  pub extract_fn_ref-again :
      (d : tcx.DefId) (xt after : Extraction tcx) (id : SymbolIdentifier)
      → tcx.def_eq d d ≡ true
      → extract_fn_ref d xt ≡ returned (id, after)
      → extract_fn_ref d after ≡ returned (id, after)
  unfolding extract_fn_ref ref_or
  extract_fn_ref-again d xt after id r e = rw (fn_ref-get d xt after id r e) refl

  insert_ref-Fine :
      (U : List tcx.DefId) {k : ℕ} (d : tcx.DefId) → Fine U k Any (insert_ref {tcx = tcx} d)
  insert_ref-Fine U d = record {
    good = λ xt b. (
      tt,
      record { adts_same = refl; functions_same = refl; kept = λ c e. e; reported = omega arith },
    );
  }

  function_ref-Fine :
      (U : List tcx.DefId) {k : ℕ} (d : tcx.DefId) → Fine U k Any (add_function_ref {tcx = tcx} d)
  unfolding add_function_ref
  function_ref-Fine U d =
      bind-Fine U {A = Bool} {f = λ there. assert (not there) >> insert_ref d} (reads-Fine U _)
        λ there q. assert-then-Fine U (not there) (insert_ref-Fine U d)

  ref_or-Fine :
      (U : List tcx.DefId) {k : ℕ} (d : tcx.DefId) (o : Option SymbolIdentifier)
      → Fine U k Any (ref_or {tcx = tcx} d o)
  unfolding ref_or
  ref_or-Fine U d (some id) = pure-Fine U tt
  ref_or-Fine U d none = bind-Fine U (function_ref-Fine U d) λ u q.
      mapping-Fine U (register_def tcx d)
        (λ before after id e. register_def-Keeps tcx d before after id e)

  pub fn_ref-Fine :
      (U : List tcx.DefId) {k : ℕ} (d : tcx.DefId) → Fine U k Any (extract_fn_ref {tcx = tcx} d)
  unfolding extract_fn_ref
  fn_ref-Fine U d = bind-Fine U (reads-Fine U _) λ o q. ref_or-Fine U d o
