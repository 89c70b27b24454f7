-- ===== src/Extraction/Whole/Patterns.antt =====
-- The patterns that `extract_pattern` of stainless_extraction/src/expr.rs returns without a report have no
-- holes.
use rust_stainless.Prelude.{
  ℕ, zero, suc, ◌+◌, refl, List, [], ◌∷◌, Bool, true, false, ◌==◌, Option, none, some, All, length,
}
use rust_stainless.Prelude.Texts.{codes}
use rust_stainless.Prelude.Sorting.{sort, sort-All}
use rust_stainless.Ast.Value.{option_of}
use rust_stainless.Symbols.{AdtSort}
use rust_stainless.Rustc.{Rustc, Ty, Tys, no_tys, AllAdts, AllAdtsOf}
use rust_stainless.Rustc
use rust_stainless.Hair.{
  Pat, PatKind, OptPat, FieldPats, Mode, pat, binding, variant, leaf, constant, ascribe, wild,
  no_pat, a_pat, no_pats, and_pat, by_value, by_shared_ref, by_other_ref, PatIn, OptPatIn,
  FieldPatsIn,
}
use rust_stainless.Extraction.{M}
use rust_stainless.Extraction.Measure.{Listed}
use rust_stainless.Extraction.Fine.{Fine, Any}
use rust_stainless.Extraction.Fuel.{id-Fine}
use rust_stainless.Extraction.Types.{TyParam, to_type}
use rust_stainless.Extraction.Adts.{extract_adt_id}
use rust_stainless.Extraction.Literals.{Literal, as_st_literal, try_from}
use rust_stainless.Extraction.Literals
use rust_stainless.Extraction.Bindings.{Variable, DefContext, get_var}
use rust_stainless.Extraction.Patterns.{
  Pattern, ValDef, Constructor, Result, ok, err, constructors_of, fields_of, nth, is_none,
  without_closures, fetch_var, extract_arg_types, unsupported_pattern, var_of, try_pattern_to_var,
  try_pattern, subpatterns_from, extract_subpatterns, constructor_pattern, variant_pattern,
  count_tys, leaf_pattern, literal_or, bound, extract_pattern, extract_sub, field_patterns,
}
use rust_stainless.Extraction.Whole.{
  IsWhole, elems_whole, Clean, bind-Clean, pure-Clean, given-Clean, Fine-Clean, unsupported-Clean,
  unwrap-Clean, if-Clean, assert-then-Clean, raise-Clean,
}
use rust_stainless.Extraction.Whole.Types.{get-All, tys-Clean}

pub literal-IsWhole : (lit : Literal) → IsWhole (as_st_literal lit)
literal-IsWhole Literals.unit = (refl, tt)
literal-IsWhole (Literals.bool b) = (refl, (tt, tt))
literal-IsWhole (Literals.int v w) = (refl, ((tt, (tt, (tt, tt))), tt))
literal-IsWhole (Literals.uint v w) = (refl, ((tt, (tt, (tt, tt))), tt))
literal-IsWhole (Literals.string s) = (refl, (tt, tt))

abbrev pub OptWhole : Option ValDef → Type 0
OptWhole none = Unit
OptWhole (some v) = IsWhole v

opt_whole : (binder : Option ValDef) → OptWhole binder → IsWhole (option_of binder)
opt_whole none h = tt
opt_whole (some v) h = h

abbrev pub ResultWhole : Result Variable → Type 0
ResultWhole (ok v) = IsWhole v
ResultWhole (err reason) = Unit

without_closures-AllAdtsOf :
    {D : Type 0} (P : D → Type 0) (ts : Tys D) → AllAdtsOf P ts → AllAdtsOf P (without_closures ts)
without_closures-AllAdtsOf P no_tys h = tt
without_closures-AllAdtsOf P (Rustc.ty Rustc.closure ts) h = without_closures-AllAdtsOf P ts h.1
without_closures-AllAdtsOf P (Rustc.ty Rustc.bool ts) h = (h.0, without_closures-AllAdtsOf P ts h.1)
without_closures-AllAdtsOf P (Rustc.ty Rustc.str ts) h = (h.0, without_closures-AllAdtsOf P ts h.1)
without_closures-AllAdtsOf P (Rustc.ty Rustc.other ts) h =
    (h.0, without_closures-AllAdtsOf P ts h.1)
without_closures-AllAdtsOf P (Rustc.ty (Rustc.int w) ts) h =
    (h.0, without_closures-AllAdtsOf P ts h.1)
without_closures-AllAdtsOf P (Rustc.ty (Rustc.uint w) ts) h =
    (h.0, without_closures-AllAdtsOf P ts h.1)
without_closures-AllAdtsOf P (Rustc.ty (Rustc.tuple us) ts) h =
    (h.0, without_closures-AllAdtsOf P ts h.1)
without_closures-AllAdtsOf P (Rustc.ty (Rustc.adt d us) ts) h =
    (h.0, without_closures-AllAdtsOf P ts h.1)
without_closures-AllAdtsOf P (Rustc.ty (Rustc.fn_def d us) ts) h =
    (h.0, without_closures-AllAdtsOf P ts h.1)
without_closures-AllAdtsOf P (Rustc.ty (Rustc.reference b t) ts) h =
    (h.0, without_closures-AllAdtsOf P ts h.1)
without_closures-AllAdtsOf P (Rustc.ty (Rustc.param i) ts) h =
    (h.0, without_closures-AllAdtsOf P ts h.1)

module _ (rustc : Rustc) (U : List rustc.tcx.DefId) (k n : ℕ) (S : Type 0)
    (extract_adt : rustc.tcx.DefId → M rustc.tcx AdtSort)
    (fine : (d : rustc.tcx.DefId) → Listed d U → Fine U k Any (extract_adt d))
    (map : List (ℕ × TyParam)) (whole : S → All (λ p. IsWhole (to_type p.1)) map)
    (dcx : DefContext rustc) (bound_whole : S → All (λ p. IsWhole p.1) dcx) where
  abbrev InU : rustc.tcx.DefId → Type 0
  InU d = Listed d U

  pub fetch-Clean :
      {H : Type 0} (h : rustc.tcx.HirId)
      → Clean U k n S H IsWhole (fetch_var rustc extract_adt map dcx h)
  fetch-Clean h =
      unwrap-Clean U k n S (get_var rustc dcx h)
        (λ s v e. get-All rustc.tcx.hir_eq IsWhole dcx h v (bound_whole s) e)

  pub arg_types-Clean :
      {H : Type 0} (substs : Tys rustc.tcx.DefId)
      → AllAdtsOf InU substs
      → Clean U k n S H (All IsWhole) (extract_arg_types rustc extract_adt map dcx substs)
  unfolding extract_arg_types
  arg_types-Clean substs h =
      tys-Clean rustc U k n S (extract_adt_id rustc extract_adt)
        (λ d u. id-Fine rustc U k extract_adt d (fine d u)) map whole (without_closures substs)
        (without_closures-AllAdtsOf InU substs h)

  var_of-Clean :
      {H : Type 0} (mode : Mode) (h : rustc.tcx.HirId)
      → Clean U k n S H ResultWhole (var_of rustc extract_adt map dcx mode h)
  var_of-Clean by_value h = bind-Clean U k n S (fetch-Clean h) λ v. pure-Clean U k n S λ q. q.1
  var_of-Clean by_shared_ref h = bind-Clean U k n S (fetch-Clean h) λ v. pure-Clean U k n S λ q. q.1
  var_of-Clean by_other_ref h = pure-Clean U k n S λ q. tt

  mutual
    unfolding try_pattern_to_var

    pub try-Clean :
        {H : Type 0} (kind : PatKind rustc.tcx.DefId rustc.tcx.HirId) (b : Bool)
        → Clean U k n S H ResultWhole (try_pattern_to_var rustc extract_adt map dcx kind b)
    try-Clean (binding true mode h sub) b = pure-Clean U k n S λ q. tt
    try-Clean (binding false mode h no_pat) b = var_of-Clean mode h
    try-Clean (binding false mode h (a_pat sub)) b =
        if-Clean U k n S b (var_of-Clean mode h) (pure-Clean U k n S λ q. tt)
    try-Clean (ascribe sub) b = try_pattern-Clean sub b
    try-Clean wild b = pure-Clean U k n S λ q. tt
    try-Clean PatKind.other b = pure-Clean U k n S λ q. tt
    try-Clean (variant d index substs subs) b = pure-Clean U k n S λ q. tt
    try-Clean (leaf subs) b = pure-Clean U k n S λ q. tt
    try-Clean (constant konst) b = pure-Clean U k n S λ q. tt
    try-Clean (PatKind.deref p) b = pure-Clean U k n S λ q. tt

    try_pattern-Clean :
        {H : Type 0} (p : Pat rustc.tcx.DefId rustc.tcx.HirId) (b : Bool)
        → Clean U k n S H ResultWhole (try_pattern rustc extract_adt map dcx p b)
    try_pattern-Clean (pat t kind) b = try-Clean kind b

  -- The actions for subpatterns are clean.
  abbrev Actions : Type 0 → List (ℕ × M rustc.tcx Pattern) → Type 0
  Actions H pats = All (λ p. Clean U k n S H IsWhole p.1) pats

  subpatterns_from-Clean :
      {H : Type 0} (count i : ℕ) (pats : List (ℕ × M rustc.tcx Pattern))
      → Actions Unit pats
      → Clean U k n S H (All IsWhole) (subpatterns_from rustc extract_adt map dcx count i pats)
  unfolding subpatterns_from
  subpatterns_from-Clean zero i pats a = pure-Clean U k n S λ q. tt
  subpatterns_from-Clean (suc count) i [] a =
      bind-Clean U k n S (subpatterns_from-Clean count (i + 1) [] tt)
        λ rest. pure-Clean U k n S λ q. ((refl, (tt, tt)), q.1)
  subpatterns_from-Clean (suc count) i ((index, extract) ∷ pats) a =
      if-Clean U k n S (index == i)
        (bind-Clean U k n S (given-Clean U k n S (λ h. tt) a.0) λ p.
          bind-Clean U k n S (subpatterns_from-Clean count (i + 1) pats a.1)
            λ rest. pure-Clean U k n S λ q. (q.0.1, q.1))
        (bind-Clean U k n S (subpatterns_from-Clean count (i + 1) ((index, extract) ∷ pats) a)
          λ rest. pure-Clean U k n S λ q. ((refl, (tt, tt)), q.1))

  subpatterns-Clean :
      {H : Type 0} (pats : List (ℕ × M rustc.tcx Pattern)) (count : ℕ)
      → Actions Unit pats
      → Clean U k n S H (All IsWhole) (extract_subpatterns rustc extract_adt map dcx pats count)
  unfolding extract_subpatterns
  subpatterns-Clean pats count a =
      subpatterns_from-Clean count 0 (sort (λ p. p.0) pats) (sort-All (λ p. p.0) _ pats a)

  constructor-Clean :
      {H : Type 0} (binder : Option ValDef) (c : Constructor) (substs : Tys rustc.tcx.DefId)
      (pats : List (ℕ × M rustc.tcx Pattern))
      → (H → OptWhole binder)
      → AllAdtsOf InU substs
      → Actions Unit pats
      → Clean U k n S H IsWhole (constructor_pattern rustc extract_adt map dcx binder c substs pats)
  unfolding constructor_pattern
  constructor-Clean binder c substs pats b u a = bind-Clean U k n S (arg_types-Clean substs u) λ ts.
      bind-Clean U k n S (subpatterns-Clean pats (length (fields_of c)) a) λ ps.
        pure-Clean U k n S λ q. (
          refl,
          (opt_whole binder (b q.0.0), (tt, (elems_whole ts q.0.1, (elems_whole ps q.1, tt)))),
        )

  variant-Clean :
      {H : Type 0} (binder : Option ValDef) (d : rustc.tcx.DefId) (index : ℕ)
      (substs : Tys rustc.tcx.DefId) (pats : List (ℕ × M rustc.tcx Pattern))
      → (H → OptWhole binder)
      → Listed d U
      → AllAdtsOf InU substs
      → Actions Unit pats
      → Clean U k n S H IsWhole
          (variant_pattern rustc extract_adt map dcx binder d index substs pats)
  unfolding variant_pattern
  variant-Clean binder d index substs pats b l u a =
      bind-Clean U k n S (Fine-Clean U k n S (fine d l)) λ sort_.
        bind-Clean U k n S
          (unwrap-Clean U k n S {Q = Any} (nth (constructors_of sort_) index) (λ s c e. tt))
          λ c. constructor-Clean binder c substs pats (λ q. b q.0.0) u a

  not_leaf-Clean :
      {H : Type 0}
      → Clean U k n S H IsWhole (
          unsupported_pattern rustc extract_adt map dcx
            (codes "Encountered Leaf pattern, but type is not an ADT"))
  not_leaf-Clean = unsupported-Clean U k n S _

  leaf-Clean :
      {H : Type 0} (binder : Option ValDef) (t : Ty rustc.tcx.DefId)
      (pats : List (ℕ × M rustc.tcx Pattern))
      → (H → OptWhole binder)
      → AllAdts InU t
      → Actions Unit pats
      → Clean U k n S H IsWhole (leaf_pattern rustc extract_adt map dcx binder t pats)
  unfolding leaf_pattern
  leaf-Clean binder (Rustc.adt d substs) pats b u a =
      bind-Clean U k n S (Fine-Clean U k n S (fine d u.0)) λ sort_.
        bind-Clean U k n S
          (assert-then-Clean U k n S (length (constructors_of sort_) == 1)
            (unwrap-Clean U k n S {Q = Any} (nth (constructors_of sort_) 0) (λ s c e. tt)))
          λ c. constructor-Clean binder c substs pats (λ q. b q.0.0) u.1 a
  leaf-Clean binder (Rustc.tuple tys) pats b u a =
      bind-Clean U k n S (subpatterns-Clean pats (count_tys tys) a)
        λ ps. pure-Clean U k n S λ q. (refl, (opt_whole binder (b q.0), (elems_whole ps q.1, tt)))
  leaf-Clean binder Rustc.bool pats b u a = not_leaf-Clean
  leaf-Clean binder Rustc.str pats b u a = not_leaf-Clean
  leaf-Clean binder Rustc.other pats b u a = not_leaf-Clean
  leaf-Clean binder (Rustc.int w) pats b u a = not_leaf-Clean
  leaf-Clean binder (Rustc.uint w) pats b u a = not_leaf-Clean
  leaf-Clean binder (Rustc.fn_def d us) pats b u a = not_leaf-Clean
  leaf-Clean binder Rustc.closure pats b u a = not_leaf-Clean
  leaf-Clean binder (Rustc.reference m t) pats b u a = not_leaf-Clean
  leaf-Clean binder (Rustc.param i) pats b u a = not_leaf-Clean

  literal_or-Clean :
      {H : Type 0} (binder : Option ValDef) (lit : Option Literal)
      → (H → OptWhole binder)
      → Clean U k n S H IsWhole (literal_or rustc extract_adt map dcx binder lit)
  literal_or-Clean binder none b = unsupported-Clean U k n S _
  literal_or-Clean binder (some lit) b =
      pure-Clean U k n S λ q. (refl, (opt_whole binder (b q), (literal-IsWhole lit, tt)))

  mutual
    unfolding extract_pattern

    pub pattern-Clean :
        {H : Type 0} (p : Pat rustc.tcx.DefId rustc.tcx.HirId) (binder : Option ValDef)
        → (H → OptWhole binder)
        → PatIn InU p
        → Clean U k n S H IsWhole (extract_pattern rustc extract_adt map dcx p binder)
    pattern-Clean (pat t wild) binder b u =
        pure-Clean U k n S λ q. (refl, (opt_whole binder (b q), tt))
    pattern-Clean (pat t PatKind.other) binder b u = unsupported-Clean U k n S _
    pattern-Clean (pat t (binding m mode h sub)) binder b u =
        bind-Clean U k n S
          (assert-then-Clean U k n S (is_none binder) (try-Clean (binding m mode h sub) true))
          (λ r. bound-Clean r sub u.1)
    pattern-Clean (pat t (variant d index substs subs)) binder b u =
        variant-Clean binder d index substs _ b u.1.0 u.1.1 (field_patterns-Clean Unit subs u.1.2)
    pattern-Clean (pat t (leaf subs)) binder b u =
        leaf-Clean binder t _ b u.0 (field_patterns-Clean Unit subs u.1)
    pattern-Clean (pat t (constant konst)) binder b u =
        bind-Clean U k n S (raise-Clean U k n S (try_from konst))
          λ lit. literal_or-Clean binder lit (λ q. b q.0)
    pattern-Clean (pat t (PatKind.deref p)) binder b u = pattern-Clean p binder b u.1
    pattern-Clean (pat t (ascribe p)) binder b u = unsupported-Clean U k n S _

    bound-Clean :
        {H : Type 0} (r : Result Variable) (sub : OptPat rustc.tcx.DefId rustc.tcx.HirId)
        → OptPatIn InU sub
        → Clean U k n S
            (H × ResultWhole r)
            IsWhole
            (bound rustc extract_adt map dcx (extract_sub rustc extract_adt map dcx sub) r)
    bound-Clean (ok v) no_pat u = pure-Clean U k n S λ q. (refl, ((refl, (q.1, tt)), tt))
    bound-Clean (ok v) (a_pat p) u = pattern-Clean p (some _) (λ q. (refl, (q.1, tt))) u
    bound-Clean (err reason) sub u = unsupported-Clean U k n S _

    field_patterns-Clean :
        (H : Type 0) (subs : FieldPats rustc.tcx.DefId rustc.tcx.HirId)
        → FieldPatsIn InU subs
        → Actions H (field_patterns rustc extract_adt map dcx subs)
    field_patterns-Clean H no_pats u = tt
    field_patterns-Clean H (and_pat index p rest) u =
        (pattern-Clean p none (λ q. tt) u.0, field_patterns-Clean H rest u.1)
