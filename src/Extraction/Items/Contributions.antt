-- ===== src/Extraction/Items/Contributions.antt =====
-- What each item of a crate contributes to what `process_crate` of stainless_extraction/src/krate.rs finds,
-- described without the visitor and its maps.
use rust_stainless.Prelude.{
  ◌≡◌, List, [], ◌∷◌, ◌++◌, Bool, true, false, not, ◌&&◌, Option, none, some, if◌then◌else◌, All,
}
use rust_stainless.Prelude.Texts.{Text, text_eq}
use rust_stainless.Registry.{get}
use rust_stainless.Spec.{SpecType, pre, post, measure}
use rust_stainless.Extraction.Items.{
  FnItem, Item, ImplItem, Found, CrateTcx, FnSpecs, is_spec_fn, should_ignore, keep, new, push_spec,
  insert_named, add_fn, add_impl, attach, attach_all, find_fn, fns_by_identifier, visit_item,
  visit_items, nothing, fn_specs, all_items, specs_of, unsupported_item, add_typed,
}
use rust_stainless.Extraction.Items

-- What each of some values contributes to a list.
abbrev pub flat : {A B : Type 0} → (A → List B) → List A → List B
flat f [] = []
flat f (a ∷ as_) = f a ++ flat f as_

abbrev pub only_if : {A : Type 0} → Bool → A → List A
only_if b a = if b then a ∷ [] else []

abbrev pub has_type : SpecType → Option SpecType → Bool
has_type measure (some measure) = true
has_type pre (some pre) = true
has_type post (some post) = true
has_type _ _ = false

-- The definitions of the specs of one type.
abbrev pub of_type : {D : Type 0} → SpecType → List (FnItem D) → List D
of_type t items = flat (λ item. only_if (has_type t item.spec_type) item.def_id) items

-- The functions of an `impl` block have different names.
abbrev pub DistinctNames : {D : Type 0} → List (ImplItem D) → Type 0
DistinctNames [] = Unit
DistinctNames (i ∷ items) =
    All (λ j. i.is_fn && (j.is_fn && text_eq i.ident j.ident) ≡ false) items × DistinctNames items

abbrev pub HasDistinctNames : {D : Type 0} → Item D → Type 0
HasDistinctNames (Items.impl_block items) = DistinctNames items
HasDistinctNames _ = Unit

module _ (tcx : CrateTcx) where
  abbrev Def : Type 0
  Def = tcx.DefId

  -- The functions of an `impl` block, with their names.
  abbrev pub named_fns : List (ImplItem Def) → List (Text × FnItem Def)
  named_fns items =
      flat (λ i. only_if i.is_fn (i.ident, new tcx i.def_id i.ident i.from_expansion)) items

  -- A function is a spec function of an item only where there is one that it is in.
  abbrev pub is_nested_spec : Option Def → FnItem Def → Bool
  is_nested_spec none item = false
  is_nested_spec (some parent) item = is_spec_fn item

  abbrev pub is_parent : Def → Option Def → Bool
  is_parent d none = false
  is_parent d (some parent) = tcx.def_eq parent d

  -- Whether a name is that of the function `d` of a block.
  abbrev pub names : List (Text × FnItem Def) → Def → Option Text → Bool
  names fns d none = false
  names fns d (some name) = elim (get text_eq fns name) [
    | none ↦ false
    | some f ↦ tcx.def_eq f.def_id d
  ]

  abbrev pub adts_in : Item Def → List Def
  adts_in (Items.adt d) = d ∷ []
  adts_in _ = []

  -- The functions that an item contributes, which are no spec functions.
  abbrev pub functions_in : Item Def → List (FnItem Def)
  functions_in (Items.fn d ident b) =
      only_if (not (is_nested_spec (tcx.parent d) (new tcx d ident b))) (new tcx d ident b)
  functions_in (Items.impl_block items) =
      flat (λ entry. only_if (not (is_spec_fn entry.1)) entry.1) (tcx.iterate (named_fns items))
  functions_in _ = []

  -- The spec functions of `d` that an item contributes.
  abbrev pub specs_in : Def → Item Def → List (FnItem Def)
  specs_in d (Items.fn c ident b) =
      only_if (is_spec_fn (new tcx c ident b) && is_parent d (tcx.parent c)) (new tcx c ident b)
  specs_in d (Items.impl_block items) =
      flat
        (λ entry.
          only_if (is_spec_fn entry.1 && names (named_fns items) d entry.1.spec_fn_name) entry.1)
        (tcx.iterate (named_fns items))
  specs_in d _ = []

  -- The specs of `d` in a crate, by their types.
  abbrev pub specs_by_type : List (FnItem Def) → FnSpecs Def
  specs_by_type items = record {
    measures = of_type measure items;
    pres = of_type pre items;
    posts = of_type post items;
  }
