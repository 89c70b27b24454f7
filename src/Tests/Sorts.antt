-- ===== src/Tests/Sorts.antt =====
-- Data types of which the first names the second, and the theorems applied to them.
use rust_stainless.Prelude.{
  ℕ, ◌+◌, ◌≡◌, ◌≢◌, inl, inr, refl, List, [], ◌∷◌, Bool, true, false, none, ◌==◌, if◌then◌else◌,
  arith, All,
}
use rust_stainless.Prelude.Run.{Run, returned, panicked, exhausted}
use rust_stainless.Prelude.Texts.{codes}
use rust_stainless.Ast.Identifier.{SymbolIdentifier, symbol_eq}
use rust_stainless.Ast.Kinds.{oth, OtherKind}
use rust_stainless.Ast.Value.{Value}
use rust_stainless.Factory.{into}
use rust_stainless.Factory.Types.{boolean_type}
use rust_stainless.Factory.Exprs.{variable}
use rust_stainless.Factory.Definitions.{adt_constructor, val_def}
use rust_stainless.Registry.{Tcx, fresh_id}
use rust_stainless.Rustc.{Rustc, Variant, Field, AllAdts, AllAdtsIn, no_tys}
use rust_stainless.Rustc
use rust_stainless.Extraction.{M, fail, Extraction, new}
use rust_stainless.Extraction.Measure.{Listed}
use rust_stainless.Extraction.Fuel.{Closed, extract_adt-ends}
use rust_stainless.Extraction.Order.{extract_adt-no_sort}
use rust_stainless.Extraction.Adts.{extract_constructors, extract_adt, extract_adts}

abbrev crate : Tcx
crate = record {
  DefId = ℕ;
  HirId = ℕ;
  def_eq = λ a b. a == b;
  hir_eq = λ a b. a == b;
  def_path_str = λ d. (97 + d) ∷ [];
  owner = λ h. 0;
  chars = λ s. s;
  is_numeric = λ c. false;
  overflow_checks = true;
}

-- `struct A { b: B }` and `struct B {}`, with the definitions 0 and 1.
abbrev variants_of : ℕ → List (Variant ℕ)
variants_of d =
    if d == 0
    then record {
      def_id = 2;
      fields = record { did = 3; name = codes "b"; field_ty = Rustc.adt 1 no_tys } ∷ [];
    }
      ∷ []
    else record { def_id = 4; fields = [] } ∷ []

abbrev rustc : Rustc
rustc = record {
  tcx = crate;
  def_to_item = λ d. none;
  is_one_of = λ d items. false;
  is_box = λ d. false;
  is_local = λ d. true;
  is_closure = λ d. false;
  variants = variants_of;
  attrs = λ d. [];
  generics_of = λ d. record { parent = none; params = [] };
  predicates_of = λ d. [];
  iterate = λ xs. xs;
}

abbrev listed : List ℕ
listed = 0 ∷ 1 ∷ []

fields_listed :
    (d : ℕ)
    → Listed d listed
    → All (λ v. All (λ f. AllAdts (λ c. Listed c listed) f.field_ty) v.fields) (variants_of d)
fields_listed d (inl e) = rw e (((inr (inl refl), tt), tt), tt)
fields_listed d (inr (inl e)) = rw e (tt, tt)
fields_listed d (inr (inr n)) = absurd n

closed : Closed rustc 0 listed
closed = record { fields_in = fields_listed; predicates_in = λ d u. tt; parents_in = λ d u. tt }

extract_adt-ends_example : extract_adt rustc 0 3 0 (new crate) ≢ exhausted
extract_adt-ends_example =
    extract_adt-ends rustc 0 listed (λ d. ground arith) (λ A P xs h. h) closed 3 0 (new crate)
      (inl refl) (omega arith)

-- Whether a run returns.
abbrev returns : {A : Type 0} → Run A → Bool
returns (returned a) = true
returns panicked = false
returns exhausted = false

-- The order of the items matters: a data type that is named before its own turn makes the loop panic.
extract_adts_forward : extract_adts rustc 0 3 (0 ∷ 1 ∷ []) (new crate) ≡ panicked
unfolding extract_adts fresh_id symbol_eq
extract_adts_forward = refl

extract_adts_backward : returns (extract_adts rustc 0 3 (1 ∷ 0 ∷ []) (new crate)) ≡ true
unfolding extract_adts fresh_id symbol_eq
extract_adts_backward = refl

abbrev id_of_b : SymbolIdentifier
id_of_b = record {
  id = record { name = codes "b"; global_id = 0; id = 0 };
  symbol_path = codes "b" ∷ [];
}

abbrev with_id : Extraction crate
with_id = record (new crate) {
  mapping = record ((new crate).mapping) { did_to_stid = (1, id_of_b) ∷ [] };
}

extract_adt-no_sort_example : extract_adt rustc 0 3 1 with_id ≡ panicked
extract_adt-no_sort_example = extract_adt-no_sort rustc 0 2 1 id_of_b with_id refl refl

-- `struct C { d: bool }`, with the definitions 2 and 3.
abbrev one_variant : List (Variant ℕ)
one_variant =
    record { def_id = 2; fields = record { did = 3; name = codes "d"; field_ty = Rustc.bool } ∷ [] }
    ∷ []

abbrev id_of : ℕ → ℕ → SymbolIdentifier
id_of global_id c = record {
  id = record { name = c ∷ []; global_id = global_id; id = 0 };
  symbol_path = (c ∷ []) ∷ [];
}

abbrev no_ids : ℕ → M crate SymbolIdentifier
no_ids d = fail

abbrev constructors : List (Value (oth OtherKind.adt_constructor))
constructors =
    adt_constructor (id_of 0 99) id_of_b
      (val_def (variable (id_of 1 100) (into boolean_type) []) ∷ [])
    ∷ []

abbrev with_both : Extraction crate
with_both = record (new crate) {
  mapping = record {
    global_id_counter = (tt, 2) ∷ [];
    local_id_counter = (99 ∷ [], 1) ∷ (100 ∷ [], 1) ∷ [];
    did_to_stid = (3, id_of 1 100) ∷ (2, id_of 0 99) ∷ [];
    hid_to_stid = [];
  };
}

extract_constructors_run :
    extract_constructors rustc no_ids [] id_of_b one_variant [] (new crate)
    ≡ returned ((constructors, []), with_both)
unfolding extract_constructors fresh_id
extract_constructors_run = refl
