-- ===== src/Extraction/Items.antt =====
-- stainless_extraction/src/krate.rs: how the items of a crate are found, and which spec functions belong to
-- which function. An identifier is its text; what is printed to the terminal is left out.
pub mod Contributions
pub mod Collected
use rust_stainless.Prelude.{
  ℕ, suc, List, [], ◌∷◌, ◌++◌, Bool, true, false, not, ◌&&◌, ◌||◌, Option, none, some,
  if◌then◌else◌, ◌==◌,
}
use rust_stainless.Prelude.Texts.{Text, codes, text_eq}
use rust_stainless.Registry.{get}
use rust_stainless.Spec.{SpecType, pre, post, measure, parse_spec_type_fn_name}
use rust_stainless.Extraction.{Diagnostic}

-- `FnItem`
pub record FnItem (D : Type 0) : Type 0 where
  pub def_id : D
  pub from_expansion : Bool
  pub spec_type : Option SpecType
  pub spec_fn_name : Option Text

abbrev pub is_some : {A : Type 0} → Option A → Bool
is_some none = false
is_some (some a) = true

-- `is_spec_fn`
abbrev pub is_spec_fn : {D : Type 0} → FnItem D → Bool
is_spec_fn item = item.from_expansion && is_some item.spec_type

abbrev pub with_spec : {D : Type 0} → D → Bool → Option (SpecType × Text) → FnItem D
with_spec def_id from_expansion (some (spec_type, fn_name)) = record {
  def_id = def_id;
  from_expansion = from_expansion;
  spec_type = some spec_type;
  spec_fn_name = some fn_name;
}
with_spec def_id from_expansion none = record {
  def_id = def_id;
  from_expansion = from_expansion;
  spec_type = none;
  spec_fn_name = none;
}

-- An item of an `impl` block; the first flag says that it is a function.
pub record ImplItem (D : Type 0) : Type 0 where
  pub is_fn : Bool
  pub def_id : D
  pub ident : Text
  pub from_expansion : Bool

-- `ItemKind`, with what is read of it: a name, a printed path, a definition, and for a function its name
-- and whether it comes from a macro.
pub data Item (D : Type 0) : Type 0 where
  extern_crate use_path : Text → Item D
  adt : D → Item D
  fn : D → Text → Bool → Item D
  impl_block : List (ImplItem D) → Item D
  other : Item D

-- `ItemVisitor`
pub record Found (D : Type 0) : Type 0 where
  pub adts : List D
  pub functions : List (FnItem D)
  pub specs : List (D × List (FnItem D))
  pub diagnostics : List Diagnostic

-- What is asked of rustc, and the order in which a hash map of the functions of a block is iterated.
pub record CrateTcx : Type 1 where
  pub DefId : Type 0
  pub def_eq : DefId → DefId → Bool
  pub parent : DefId → Option DefId
  pub is_numeric : ℕ → Bool
  pub iterate : List (Text × FnItem DefId) → List (Text × FnItem DefId)

abbrev pub starts_with : Text → Text → Bool
starts_with s [] = true
starts_with [] (p ∷ prefix) = false
starts_with (c ∷ s) (p ∷ prefix) = c == p && starts_with s prefix

-- `should_ignore`
abbrev pub should_ignore : {D : Type 0} → Item D → Bool
should_ignore (extern_crate name) = text_eq name (codes "std") || text_eq name (codes "stainless")
should_ignore (use_path path) =
    starts_with path (codes "::std::prelude::v") || starts_with path (codes "stainless")
should_ignore _ = false

-- `insert` into a hash map with names for keys.
abbrev pub insert_named : {A : Type 0} → List (Text × A) → Text → A → List (Text × A)
insert_named [] name a = (name, a) ∷ []
insert_named ((n, b) ∷ map) name a =
    if text_eq n name then (n, a) ∷ map else (n, b) ∷ insert_named map name a

-- One half of `partition`: the values for which the test holds.
abbrev pub keep : {A : Type 0} → (A → Bool) → List (Text × A) → List A
keep p [] = []
keep p ((name, a) ∷ map) = if p a then a ∷ keep p map else keep p map

module _ (tcx : CrateTcx) where
  abbrev Def : Type 0
  Def = tcx.DefId

  -- `FnItem::new`
  unfoldable pub new : Def → Text → Bool → FnItem Def
  unfolding parse_spec_type_fn_name
  new def_id ident from_expansion =
      with_spec def_id from_expansion (parse_spec_type_fn_name tcx.is_numeric ident)

  -- `specs.entry(def_id).or_insert_with(Vec::new).push(item)`
  unfoldable pub push_spec :
      List (Def × List (FnItem Def)) → Def → FnItem Def → List (Def × List (FnItem Def))
  push_spec [] def_id item = (def_id, item ∷ []) ∷ []
  push_spec ((d, items) ∷ specs) def_id item =
      if tcx.def_eq d def_id
      then (d, items ++ item ∷ []) ∷ specs
      else (d, items) ∷ push_spec specs def_id item

  abbrev pub add_function : FnItem Def → Found Def → Found Def
  add_function item found = record found { functions = found.functions ++ item ∷ [] }

  unfoldable pub add_spec : Def → FnItem Def → Found Def → Found Def
  unfolding push_spec
  add_spec def_id item found = record found { specs = push_spec found.specs def_id item }

  -- A function outside of `impl` blocks, with its parent.
  unfoldable pub add_fn : Option Def → FnItem Def → Found Def → Found Def
  unfolding add_spec
  add_fn none item found = add_function item found
  add_fn (some parent) item found =
      if is_spec_fn item then add_spec parent item found else add_function item found

  -- `fns_by_identifier`
  unfoldable pub fns_by_identifier :
      List (ImplItem Def) → List (Text × FnItem Def) → List (Text × FnItem Def)
  unfolding new
  fns_by_identifier [] map = map
  fns_by_identifier (item ∷ items) map =
      if item.is_fn
      then fns_by_identifier items
          (insert_named map item.ident (new item.def_id item.ident item.from_expansion))
      else fns_by_identifier items map

  abbrev pub find_fn : List (Text × FnItem Def) → Option Text → Option (FnItem Def)
  find_fn fns none = none
  find_fn fns (some name) = get text_eq fns name

  unfoldable pub attach : Option (FnItem Def) → FnItem Def → Found Def → Found Def
  unfolding add_spec
  attach none spec_item found = found
  attach (some fn_item) spec_item found = add_spec fn_item.def_id spec_item found

  -- The loop over the specs of a block.
  unfoldable pub attach_all : List (Text × FnItem Def) → List (FnItem Def) → Found Def → Found Def
  unfolding attach
  attach_all fns [] found = found
  attach_all fns (spec_item ∷ specs) found =
      attach_all fns specs (attach (find_fn fns spec_item.spec_fn_name) spec_item found)

  unfoldable pub add_impl : List (Text × FnItem Def) → Found Def → Found Def
  unfolding attach_all
  add_impl fns found =
      let values = tcx.iterate fns in
      attach_all fns (keep is_spec_fn values) (record found {
        functions = found.functions ++ keep (λ item. not (is_spec_fn item)) values;
      })

  abbrev pub unsupported_item : Found Def → Found Def
  unsupported_item found = record found {
    diagnostics = Diagnostic.error (codes "Other kind of item") ∷ found.diagnostics;
  }

  -- `visit_item`
  unfoldable pub visit_item : Item Def → Found Def → Found Def
  unfolding new add_fn add_impl fns_by_identifier
  visit_item (adt def_id) found = record found { adts = found.adts ++ def_id ∷ [] }
  visit_item (fn def_id ident from_expansion) found =
      add_fn (tcx.parent def_id) (new def_id ident from_expansion) found
  visit_item (impl_block items) found = add_impl (fns_by_identifier items []) found
  visit_item (extern_crate name) found =
      if should_ignore {D = Def} (extern_crate name) then found else unsupported_item found
  visit_item (use_path path) found =
      if should_ignore {D = Def} (use_path path) then found else unsupported_item found
  visit_item other found = unsupported_item found

  unfoldable pub visit_items : List (Item Def) → Found Def → Found Def
  unfolding visit_item
  visit_items [] found = found
  visit_items (item ∷ items) found = visit_items items (visit_item item found)

  -- The visitor before the items.
  abbrev pub nothing : Found Def
  nothing = record { adts = []; functions = []; specs = []; diagnostics = [] }

-- The spec functions of a function, as they are given to `extract_local_fn`.
pub record FnSpecs (D : Type 0) : Type 0 where
  pub measures : List D
  pub pres : List D
  pub posts : List D

abbrev pub add_typed : {D : Type 0} → Option SpecType → D → FnSpecs D → FnSpecs D
add_typed none def_id s = s
add_typed (some measure) def_id s = record s { measures = def_id ∷ s.measures }
add_typed (some pre) def_id s = record s { pres = def_id ∷ s.pres }
add_typed (some post) def_id s = record s { posts = def_id ∷ s.posts }

-- The two partitions by the type of the spec; an item without a type is dropped.
unfoldable pub fn_specs : {D : Type 0} → List (FnItem D) → FnSpecs D
fn_specs [] = record { measures = []; pres = []; posts = [] }
fn_specs (item ∷ items) = add_typed item.spec_type item.def_id (fn_specs items)

abbrev pub all_items : {D : Type 0} → Option (List (FnItem D)) → List (FnItem D)
all_items none = []
all_items (some items) = items

-- `specs.get(&fn_item.def_id)`, and the partitions.
unfoldable pub specs_of : (tcx : CrateTcx) → Found tcx.DefId → tcx.DefId → FnSpecs tcx.DefId
unfolding fn_specs
specs_of tcx found def_id = fn_specs (all_items (get tcx.def_eq found.specs def_id))
