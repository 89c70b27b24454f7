-- ===== src/Extraction/Patterns.antt =====
-- stainless_extraction/src/expr.rs: patterns. The action that extracts a part of a pattern takes the binder
-- in front of it.
use rust_stainless.Prelude.{
  ℕ, zero, suc, ◌+◌, List, [], ◌∷◌, Bool, true, false, ◌==◌, Option, none, some, if◌then◌else◌,
  length,
}
use rust_stainless.Prelude.Texts.{Text, codes}
use rust_stainless.Prelude.Sorting.{sort}
use rust_stainless.Ast.Kinds.{expr, tpe, def, oth, DefinitionKind, OtherKind}
use rust_stainless.Ast.Kinds
use rust_stainless.Ast.Identifier.{SymbolIdentifier}
use rust_stainless.Ast.Value.{Value, Elems, no_elems, elem, struct, seq, symbol}
use rust_stainless.Ast.Value
use rust_stainless.Factory.{into}
use rust_stainless.Factory.Definitions.{
  val_def, wildcard_pattern, adt_pattern, tuple_pattern, literal_pattern,
}
use rust_stainless.Symbols.{AdtSort}
use rust_stainless.Rustc.{Rustc, Ty, Tys, no_tys, Const}
use rust_stainless.Rustc
use rust_stainless.Hair.{
  Pat, PatKind, OptPat, FieldPats, Mode, pat, binding, variant, leaf, constant, ascribe, wild,
  no_pat, a_pat, no_pats, and_pat, by_value, by_shared_ref, by_other_ref,
}
use rust_stainless.Extraction.{M, pure, assert, raise, unsupported, unwrap, ◌>>=◌, ◌>>◌}
use rust_stainless.Extraction.Types.{TyParam, extract_tys}
use rust_stainless.Extraction.Adts.{extract_adt_id}
use rust_stainless.Extraction.Literals.{Literal, as_st_literal, try_from}
use rust_stainless.Extraction.Bindings.{Variable, DefContext, get_var}

abbrev pub Pattern : Type 0
Pattern = Value Kinds.pat

abbrev pub ValDef : Type 0
ValDef = Value (def DefinitionKind.val_def)

abbrev pub Constructor : Type 0
Constructor = Value (oth OtherKind.adt_constructor)

-- The fields of nodes.
abbrev pub list_of : {t : Kinds.FieldType} → Elems t → List (Value t)
list_of no_elems = []
list_of (elem v vs) = v ∷ list_of vs

abbrev pub constructors_of : AdtSort → List Constructor
constructors_of (struct (Value.◌∷◌ id (Value.◌∷◌ tparams (Value.◌∷◌ (seq constructors) rest)))) =
    list_of constructors

abbrev pub constructor_id : Constructor → SymbolIdentifier
constructor_id (struct (Value.◌∷◌ (symbol id) rest)) = id

abbrev pub fields_of : Constructor → List ValDef
fields_of (struct (Value.◌∷◌ id (Value.◌∷◌ sort_id (Value.◌∷◌ (seq fields) rest)))) = list_of fields

-- Indexing, which panics out of range.
abbrev pub nth : {A : Type 0} → List A → ℕ → Option A
nth [] i = none
nth (x ∷ xs) zero = some x
nth (x ∷ xs) (suc i) = nth xs i

-- `Result` of expr.rs.
pub data Result (A : Type 0) : Type 0 where
  ok : A → Result A
  err : Text → Result A

abbrev pub is_none : {A : Type 0} → Option A → Bool
is_none none = true
is_none (some a) = false

-- The arguments that are no closures.
abbrev pub without_closures : {D : Type 0} → Tys D → Tys D
without_closures no_tys = no_tys
without_closures (Rustc.ty Rustc.closure ts) = without_closures ts
without_closures (Rustc.ty t ts) = Rustc.ty t (without_closures ts)

abbrev pub count_tys : {D : Type 0} → Tys D → ℕ
count_tys no_tys = 0
count_tys (Rustc.ty t ts) = suc (count_tys ts)

module _ (rustc : Rustc) (extract_adt : rustc.tcx.DefId → M rustc.tcx AdtSort)
    (index_to_tparam : List (ℕ × TyParam)) (dcx : DefContext rustc) where
  open rustc use {tcx}

  abbrev P : Type 0
  P = Pat tcx.DefId tcx.HirId

  -- `fetch_var`
  abbrev pub fetch_var : tcx.HirId → M tcx Variable
  fetch_var hir_id = unwrap (get_var rustc dcx hir_id)

  -- `extract_arg_types`
  unfoldable pub extract_arg_types : Tys tcx.DefId → M tcx (List (Value tpe))
  unfolding extract_adt_id extract_tys
  extract_arg_types substs =
      extract_tys rustc (extract_adt_id rustc extract_adt) index_to_tparam (without_closures substs)

  -- `unsupported_pattern`
  abbrev pub unsupported_pattern : Text → M tcx Pattern
  unsupported_pattern msg = unsupported msg >> pure (into (wildcard_pattern none))

  abbrev pub var_of : Mode → tcx.HirId → M tcx (Result Variable)
  var_of by_value hir_id = fetch_var hir_id >>= λ v. pure (ok v)
  var_of by_shared_ref hir_id = fetch_var hir_id >>= λ v. pure (ok v)
  var_of by_other_ref hir_id = pure (err (codes "Binding mode not allowed"))

  unfoldable mutual
    -- `try_pattern_to_var`
    pub try_pattern_to_var : PatKind tcx.DefId tcx.HirId → Bool → M tcx (Result Variable)
    try_pattern_to_var (binding true mode hir_id sub) allow_subpattern =
        pure (err (codes "Mutable bindings are not supported"))
    try_pattern_to_var (binding false mode hir_id no_pat) allow_subpattern = var_of mode hir_id
    try_pattern_to_var (binding false mode hir_id (a_pat sub)) allow_subpattern =
        if allow_subpattern
        then var_of mode hir_id
        else pure (err (codes "Subpatterns are not supported here"))
    try_pattern_to_var (ascribe sub) allow_subpattern = try_pattern sub allow_subpattern
    try_pattern_to_var _ allow_subpattern = pure (err (codes "Expected a top-level binding"))

    pub try_pattern : P → Bool → M tcx (Result Variable)
    try_pattern (pat t kind) allow_subpattern = try_pattern_to_var kind allow_subpattern

  -- The loop of `extract_subpatterns` over the fields from the `i`-th one on; the patterns are sorted.
  unfoldable pub subpatterns_from : ℕ → ℕ → List (ℕ × M tcx Pattern) → M tcx (List Pattern)
  subpatterns_from zero i pats = pure []
  subpatterns_from (suc n) i [] =
      subpatterns_from n (i + 1) [] >>= λ rest. pure (into (wildcard_pattern none) ∷ rest)
  subpatterns_from (suc n) i ((index, extract) ∷ pats) =
      if index == i
      then (extract >>= λ p. subpatterns_from n (i + 1) pats >>= λ rest. pure (p ∷ rest))
      else (subpatterns_from n (i + 1) ((index, extract) ∷ pats) >>= λ rest.
          pure (into (wildcard_pattern none) ∷ rest))

  -- `extract_subpatterns`
  unfoldable pub extract_subpatterns : List (ℕ × M tcx Pattern) → ℕ → M tcx (List Pattern)
  unfolding subpatterns_from sort
  extract_subpatterns field_pats num_fields =
      subpatterns_from num_fields 0 (sort (λ p. p.0) field_pats)

  unfoldable pub constructor_pattern :
      Option ValDef → Constructor → Tys tcx.DefId → List (ℕ × M tcx Pattern) → M tcx Pattern
  unfolding extract_arg_types extract_subpatterns
  constructor_pattern binder c substs subpatterns = extract_arg_types substs >>= λ arg_tps.
      extract_subpatterns subpatterns (length (fields_of c)) >>= λ ps.
      pure (into (adt_pattern binder (constructor_id c) arg_tps ps))

  -- A pattern for a variant of a data type.
  unfoldable pub variant_pattern :
      Option ValDef → tcx.DefId → ℕ → Tys tcx.DefId → List (ℕ × M tcx Pattern) → M tcx Pattern
  unfolding constructor_pattern
  variant_pattern binder did index substs subpatterns = extract_adt did >>= λ sort.
      unwrap (nth (constructors_of sort) index) >>= λ c.
      constructor_pattern binder c substs subpatterns

  -- A pattern for a tuple or a data type with one variant.
  unfoldable pub leaf_pattern :
      Option ValDef → Ty tcx.DefId → List (ℕ × M tcx Pattern) → M tcx Pattern
  unfolding constructor_pattern extract_subpatterns
  leaf_pattern binder (Rustc.adt did substs) subpatterns = extract_adt did >>= λ sort.
      assert (length (constructors_of sort) == 1) >> unwrap (nth (constructors_of sort) 0) >>= λ c.
      constructor_pattern binder c substs subpatterns
  leaf_pattern binder (Rustc.tuple tys) subpatterns =
      extract_subpatterns subpatterns (count_tys tys) >>= λ ps.
      pure (into (tuple_pattern binder ps))
  leaf_pattern binder _ subpatterns =
      unsupported_pattern (codes "Encountered Leaf pattern, but type is not an ADT")

  abbrev pub literal_or : Option ValDef → Option Literal → M tcx Pattern
  literal_or binder none = unsupported_pattern (codes "Unsupported kind of literal in pattern")
  literal_or binder (some lit) = pure (into (literal_pattern binder (as_st_literal lit)))

  abbrev pub bound : (Option ValDef → M tcx Pattern) → Result Variable → M tcx Pattern
  bound sub (ok v) = sub (some (val_def v))
  bound sub (err reason) = unsupported_pattern (codes "Unsupported pattern binding")

  unfoldable mutual
    unfolding try_pattern_to_var variant_pattern leaf_pattern try_from

    -- `extract_pattern`
    pub extract_pattern : P → Option ValDef → M tcx Pattern
    extract_pattern (pat t wild) binder = pure (into (wildcard_pattern binder))
    extract_pattern (pat t (binding mutable mode hir_id sub)) binder =
        assert (is_none binder)
        >> try_pattern_to_var (binding mutable mode hir_id sub) true
        >>= bound (extract_sub sub)
    extract_pattern (pat t (variant did index substs subs)) binder =
        variant_pattern binder did index substs (field_patterns subs)
    extract_pattern (pat t (leaf subs)) binder = leaf_pattern binder t (field_patterns subs)
    extract_pattern (pat t (constant konst)) binder = raise (try_from konst) >>= literal_or binder
    extract_pattern (pat t (PatKind.deref sub)) binder = extract_pattern sub binder
    extract_pattern (pat t _) binder = unsupported_pattern (codes "Unsupported kind of pattern")

    -- The pattern after a binder.
    pub extract_sub : OptPat tcx.DefId tcx.HirId → Option ValDef → M tcx Pattern
    extract_sub no_pat binder = pure (into (wildcard_pattern binder))
    extract_sub (a_pat p) binder = extract_pattern p binder

    -- The indices of fields, with what extracts their patterns.
    pub field_patterns : FieldPats tcx.DefId tcx.HirId → List (ℕ × M tcx Pattern)
    field_patterns no_pats = []
    field_patterns (and_pat index p rest) = (index, extract_pattern p none) ∷ field_patterns rest
