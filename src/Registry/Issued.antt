-- ===== src/Registry/Issued.antt =====
-- All identifiers that the mappings of stainless_extraction/src/lib.rs issue, in any order of calls.
use rust_stainless.Prelude.{
  ◌<◌, ◌≤◌, ◌≡◌, refl, sym, ap, ◌∙◌, subst, List, [], ◌∷◌, ◌++◌, true, Option, none, some, All,
  length, arith,
}
use rust_stainless.Prelude.Outcome.{Outcome, done, panicked, done-injective, ◌>>=◌}
use rust_stainless.Prelude.Sorting.{DistinctKeys}
use rust_stainless.Prelude.Texts.{text_eq}
use rust_stainless.Ser.{Bytes, i32_max}
use rust_stainless.Ast.Identifier.{SymbolIdentifier}
use rust_stainless.Ast.Encodable.{last}
use rust_stainless.Symbols.Stable.{gid}
use rust_stainless.Registry.{
  Tcx, SymbolMapping, new, fresh_id, fresh_name, unit_eq, unwrap, underscored, insert_new,
  symbol_path_from_def_id, get_id_from_def, register_def, register_hir,
}
use rust_stainless.Registry.Fresh.{next_id, fresh-CountsUp}
use rust_stainless.Registry.Counted.{
  Counted, Counted-fresh, DistinctNames, identified, text_eq-Decides, unit_eq-Decides,
}
use rust_stainless.Registry.Paths.{last-append, path-last, underscored-last}

module _ (tcx : Tcx) where
  -- The mappings that calls reach from the empty ones, with the identifiers issued, the last first.
  pub data Issued : SymbolMapping tcx → List SymbolIdentifier → Type 0 where
    start : Issued (new tcx) []
    by_name :
        {xt after : SymbolMapping tcx} {ids : List SymbolIdentifier} {id : SymbolIdentifier}
        (name : Bytes)
        → Issued xt ids
        → fresh_name tcx name xt ≡ done (id, after)
        → Issued after (id ∷ ids)
    by_def :
        {xt after : SymbolMapping tcx} {ids : List SymbolIdentifier} {id : SymbolIdentifier}
        (def_id : tcx.DefId)
        → Issued xt ids
        → register_def tcx def_id xt ≡ done (id, after)
        → Issued after (id ∷ ids)
    by_hir :
        {xt after : SymbolMapping tcx} {ids : List SymbolIdentifier} {id : SymbolIdentifier}
        (hir_id : tcx.HirId) (name : Bytes)
        → Issued xt ids
        → register_hir tcx hir_id name xt ≡ done (id, after)
        → Issued after (id ∷ ids)

pub bind-done :
    {A B : Type 0} {b : B} (m : Outcome A) (f : A → Outcome B)
    → (m >>= f) ≡ done b
    → (a : A) × (m ≡ done a) × (f a ≡ done b)
bind-done (done a) f e = (a, refl, e)
bind-done panicked f e = cc

unwrap_done : {A : Type 0} {a : A} (o : Option A) → unwrap o ≡ done a → o ≡ some a
unwrap_done none e = cc
unwrap_done (some b) e = ap some (done-injective e)

bind-eq :
    {A B : Type 0} {a : A} {r : Outcome B} (m : Outcome A) (f : A → Outcome B)
    → m ≡ done a
    → f a ≡ r
    → (m >>= f) ≡ r
bind-eq m f e h = ap (λ o. o >>= f) e ∙ h

module _ (tcx : Tcx) where
  abbrev IsCounted : SymbolMapping tcx → List SymbolIdentifier → Type 0
  IsCounted xt ids = Counted xt.global_id_counter xt.local_id_counter ids

  -- What a call that issues an identifier does to the counters.
  record Issues (path : List Bytes) (name : Bytes) (xt : SymbolMapping tcx)
      (ids : List SymbolIdentifier) : Type 0 where
    id : SymbolIdentifier
    after : SymbolMapping tcx
    returns : fresh_id tcx name path xt ≡ done (id, after)
    counted : last path ≡ some name → IsCounted after (id ∷ ids)
    same_defs : after.did_to_stid ≡ xt.did_to_stid
    same_hirs : after.hid_to_stid ≡ xt.hid_to_stid

  fresh_id-Issues :
      (name : Bytes) (path : List Bytes) (xt : SymbolMapping tcx) (ids : List SymbolIdentifier)
      → IsCounted xt ids
      → length ids < i32_max
      → Issues path name xt ids
  unfolding fresh_id
  fresh_id-Issues name path xt ids c b =
      let g =
        fresh-CountsUp unit_eq tcx.overflow_checks xt.global_id_counter tt unit_eq-Decides
          (omega (arith, c.global_next)) in
      let l =
        fresh-CountsUp text_eq tcx.overflow_checks xt.local_id_counter name text_eq-Decides
          (omega (arith, c.local_bound name)) in
      record {
        id =
            identified name path (next_id unit_eq xt.global_id_counter tt)
              (next_id text_eq xt.local_id_counter name);
        after = record xt { global_id_counter = g.after; local_id_counter = l.after };
        returns = rw (g.returns, l.returns) refl;
        counted = λ p. Counted-fresh path g l p c;
        same_defs = refl;
        same_hirs = refl;
      }

  settle :
      {ids : List SymbolIdentifier} {r s : SymbolIdentifier × SymbolMapping tcx}
      → IsCounted r.1 (r.0 ∷ ids)
      → done r ≡ done s
      → IsCounted s.1 (s.0 ∷ ids)
  settle {ids = ids} c e = subst (λ r. IsCounted r.1 (r.0 ∷ ids)) (done-injective e) c

  fresh_id-IsCounted :
      {id : SymbolIdentifier} {after : SymbolMapping tcx} (name : Bytes) (path : List Bytes)
      (xt : SymbolMapping tcx) (ids : List SymbolIdentifier)
      → IsCounted xt ids
      → length ids < i32_max
      → last path ≡ some name
      → fresh_id tcx name path xt ≡ done (id, after)
      → IsCounted after (id ∷ ids)
  fresh_id-IsCounted name path xt ids c b p e =
      let x = fresh_id-Issues name path xt ids c b in settle (x.counted p) (sym x.returns ∙ e)

  register_def-IsCounted :
      {id : SymbolIdentifier} {after : SymbolMapping tcx} (def_id : tcx.DefId)
      (xt : SymbolMapping tcx) (ids : List SymbolIdentifier)
      → IsCounted xt ids
      → length ids < i32_max
      → register_def tcx def_id xt ≡ done (id, after)
      → IsCounted after (id ∷ ids)
  unfolding register_def
  register_def-IsCounted def_id xt ids c b e =
      let path = symbol_path_from_def_id tcx def_id in
      let (name, p, e₁) = bind-done (unwrap (last path)) _ e in
      let named = underscored tcx name path in
      let (r, f, e₂) = bind-done (fresh_id tcx named.0 named.1 xt) _ e₁ in
      let (dids, q, e₃) = bind-done (insert_new tcx.def_eq (r.1.did_to_stid) def_id r.0) _ e₂ in
      let counted : IsCounted r.1 (r.0 ∷ ids) =
        fresh_id-IsCounted named.0 named.1 xt ids c b
          (underscored-last tcx name path (unwrap_done (last path) p)) f in
      settle {r = (r.0, record (r.1) { did_to_stid = dids })} counted e₃

  register_hir-IsCounted :
      {id : SymbolIdentifier} {after : SymbolMapping tcx} (hir_id : tcx.HirId) (name : Bytes)
      (xt : SymbolMapping tcx) (ids : List SymbolIdentifier)
      → IsCounted xt ids
      → length ids < i32_max
      → register_hir tcx hir_id name xt ≡ done (id, after)
      → IsCounted after (id ∷ ids)
  unfolding register_hir
  register_hir-IsCounted hir_id name xt ids c b e =
      let path = symbol_path_from_def_id tcx (tcx.owner hir_id) ++ name ∷ [] in
      let (r, f, e₁) = bind-done (fresh_id tcx name path xt) _ e in
      let (hids, q, e₂) = bind-done (insert_new tcx.hir_eq (r.1.hid_to_stid) hir_id r.0) _ e₁ in
      let counted : IsCounted r.1 (r.0 ∷ ids) =
        fresh_id-IsCounted name path xt ids c b
          (last-append (symbol_path_from_def_id tcx (tcx.owner hir_id)) name) f in
      settle {r = (r.0, record (r.1) { hid_to_stid = hids })} counted e₂

  Issued-IsCounted :
      {xt : SymbolMapping tcx} {ids : List SymbolIdentifier}
      → Issued tcx xt ids
      → length ids ≤ i32_max
      → IsCounted xt ids
  Issued-IsCounted Issued.start b = record {
    global_next = refl;
    local_bound = λ n. omega arith;
    global_below = tt;
    local_below = tt;
    distinct = tt;
    distinct_names = tt;
    named = tt;
  }
  Issued-IsCounted (Issued.by_name {ids = ids} name i e) b =
      fresh_id-IsCounted name (name ∷ []) _ ids (Issued-IsCounted i (omega arith)) b refl e
  Issued-IsCounted (Issued.by_def {ids = ids} def_id i e) b =
      register_def-IsCounted def_id _ ids (Issued-IsCounted i (omega arith)) b e
  Issued-IsCounted (Issued.by_hir {ids = ids} hir_id name i e) b =
      register_hir-IsCounted hir_id name _ ids (Issued-IsCounted i (omega arith)) b e

  -- Whatever identifiers are issued, in whatever order, as long as they are at most i32::MAX: no two of
  -- them have the same global id, no two have both the same name and the same local id, and the name of
  -- each is the last part of its path.
  pub Issued-distinct :
      (xt : SymbolMapping tcx) (ids : List SymbolIdentifier)
      → Issued tcx xt ids
      → length ids ≤ i32_max
      → DistinctKeys gid ids
        × DistinctNames ids
        × All (λ s. last s.symbol_path ≡ some s.id.name) ids
  Issued-distinct xt ids i b =
      let c = Issued-IsCounted i b in (c.distinct, c.distinct_names, c.named)

  -- With fewer than i32::MAX identifiers issued, a definition that has none gets one, and it is the one
  -- that is found for the definition afterwards, if the comparison of definitions is reflexive.
  pub register_def-succeeds :
      (xt : SymbolMapping tcx) (ids : List SymbolIdentifier) (def_id : tcx.DefId)
      → ((d : tcx.DefId) → tcx.def_eq d d ≡ true)
      → Issued tcx xt ids
      → length ids < i32_max
      → get_id_from_def tcx def_id xt ≡ none
      → (id : SymbolIdentifier) × (after : SymbolMapping tcx) × (register_def tcx def_id xt
          ≡ done (id, after))
        × (get_id_from_def tcx def_id after ≡ some id)
  unfolding register_def insert_new
  register_def-succeeds xt ids def_id r i b h =
      let path = symbol_path_from_def_id tcx def_id in
      let (name, p) = path-last tcx def_id in
      let named = underscored tcx name path in
      let x = fresh_id-Issues named.0 named.1 xt ids (Issued-IsCounted i (omega arith)) b in
      (
        x.id,
        record (x.after) { did_to_stid = (def_id, x.id) ∷ xt.did_to_stid },
        bind-eq (unwrap (last path)) _ (ap unwrap p) (
            bind-eq (fresh_id tcx named.0 named.1 xt) _ x.returns (
              bind-eq (insert_new tcx.def_eq (x.after.did_to_stid) def_id x.id) _
                (inserted x.after x.id x.same_defs) refl)),
        rw (r def_id) refl,
      )
    where
      inserted :
          (after : SymbolMapping tcx) (id : SymbolIdentifier)
          → after.did_to_stid ≡ xt.did_to_stid
          → insert_new tcx.def_eq (after.did_to_stid) def_id id
            ≡ done ((def_id, id) ∷ xt.did_to_stid)
      inserted after id same = rw (same, h) refl
