-- ===== src/Extraction.antt =====
-- stainless_extraction/src/lib.rs: the state of an extraction and what its parts do to it. A method of
-- `BaseExtractor` takes the state and returns or panics; on fuel, it may also run out of it. What is
-- reported to the session is kept as a list, the last first, without positions.
pub mod Types
pub mod Generics
pub mod Adts
pub mod Measure
pub mod Fine
pub mod Enough
pub mod Fuel
pub mod Order
pub mod Literals
pub mod Steps
pub mod Items
pub mod Functions
pub mod Bindings
pub mod Operators
pub mod Patterns
pub mod Calls
pub mod Blocks
pub mod Exprs
pub mod LocalFns
pub mod Whole
use rust_stainless.Prelude.{ℕ, List, [], ◌∷◌, Bool, true, false, Option, none, some}
use rust_stainless.Prelude.Texts.{Text}
use rust_stainless.Prelude.Outcome.{Outcome}
use rust_stainless.Prelude.Run.{Run, returned, panicked, exhausted, from_outcome}
use rust_stainless.Ast.Identifier.{SymbolIdentifier, symbol_eq}
use rust_stainless.Symbols.{AdtSort, FunDef}
use rust_stainless.Registry.{
  Tcx, SymbolMapping, fresh_name, register_def, get_or_register_def, get_id_from_def,
}
use rust_stainless.Registry
use rust_stainless.Flags.{Warning}

pub data Diagnostic : Type 0 where
  error : Text → Diagnostic
  warning : Text → Diagnostic
  attribute : Warning → Diagnostic

module _ (tcx : Tcx) where
  -- `Extraction`
  pub record Extraction : Type 0 where
    pub mapping : SymbolMapping tcx
    pub adts : List (SymbolIdentifier × AdtSort)
    pub function_refs : List tcx.DefId
    pub functions : List (SymbolIdentifier × FunDef)
    pub diagnostics : List Diagnostic

  -- `Extraction::new`
  abbrev pub new : Extraction
  new = record {
    mapping = Registry.new tcx;
    adts = [];
    function_refs = [];
    functions = [];
    diagnostics = [];
  }

  abbrev pub M : Type 0 → Type 0
  M A = Extraction → Run (A × Extraction)

-- `xt.adts.get(id).copied()`
abbrev pub get_sort : List (SymbolIdentifier × AdtSort) → SymbolIdentifier → Option AdtSort
get_sort adts id = Registry.get symbol_eq adts id

module _ {tcx : Tcx} where
  abbrev pub pure : {A : Type 0} → A → M tcx A
  pure a xt = returned (a, xt)

  abbrev pub fail : {A : Type 0} → M tcx A
  fail xt = panicked

  abbrev pub out_of_fuel : {A : Type 0} → M tcx A
  out_of_fuel xt = exhausted

  abbrev pub continue_with :
      {A B : Type 0} → (A → M tcx B) → Run (A × Extraction tcx) → Run (B × Extraction tcx)
  continue_with f (returned (a, xt)) = f a xt
  continue_with f panicked = panicked
  continue_with f exhausted = exhausted

  infixl 5 ◌>>=◌ ◌>>◌
  abbrev pub ◌>>=◌ : {A B : Type 0} → M tcx A → (A → M tcx B) → M tcx B
  ◌>>=◌ m f xt = continue_with f (m xt)

  abbrev pub ◌>>◌ : {B : Type 0} → M tcx (Unit {0}) → M tcx B → M tcx B
  m >> k = m >>= λ _. k

  -- `expect` and `unwrap`
  abbrev pub unwrap : {A : Type 0} → Option A → M tcx A
  unwrap none = fail
  unwrap (some a) = pure a

  abbrev pub assert : Bool → M tcx (Unit {0})
  assert true = pure tt
  assert false = fail

  -- A call that may panic.
  abbrev pub raise : {A : Type 0} → Outcome A → M tcx A
  raise (Outcome.done a) = pure a
  raise Outcome.panicked = fail

  abbrev pub report : Diagnostic → M tcx (Unit {0})
  report d xt = returned (tt, record xt { diagnostics = d ∷ xt.diagnostics })

  -- `unsupported`
  abbrev pub unsupported : Text → M tcx (Unit {0})
  unsupported msg = report (error msg)

  abbrev pub with_mapping :
      {A : Type 0} → Extraction tcx → Outcome (A × SymbolMapping tcx) → Run (A × Extraction tcx)
  with_mapping xt (Outcome.done (a, mapping)) = returned (a, record xt { mapping = mapping })
  with_mapping xt Outcome.panicked = panicked

  -- An operation of the mappings.
  abbrev pub on_mapping :
      {A : Type 0} → (SymbolMapping tcx → Outcome (A × SymbolMapping tcx)) → M tcx A
  on_mapping op xt = with_mapping xt (op xt.mapping)

  abbrev pub add_if_absent :
      AdtSort → SymbolIdentifier → Extraction tcx → Option AdtSort → Run (Unit {0} × Extraction tcx)
  add_if_absent sort id xt none = returned (tt, record xt { adts = (id, sort) ∷ xt.adts })
  add_if_absent sort id xt (some old) = panicked

  -- What a lookup in the state returns.
  abbrev pub reads : {A : Type 0} → (Extraction tcx → A) → M tcx A
  reads f xt = returned (f xt, xt)

  -- `add_adt`
  abbrev pub add_adt : SymbolIdentifier → AdtSort → M tcx (Unit {0})
  add_adt id sort xt = add_if_absent sort id xt (get_sort xt.adts id)
