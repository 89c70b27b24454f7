-- ===== src/StdItems.antt =====
-- stainless_extraction/src/std_items.rs: the definitions of the standard library and of the library
-- stainless that the extraction treats specially. What is asked of rustc is the parameter `Crates`; a
-- symbol is its text.
pub mod Names
pub mod Tables
pub mod Search
use rust_stainless.Prelude.{
  ℕ, zero, suc, ◌+◌, ◌≡◌, List, [], ◌∷◌, Bool, true, false, ◌&&◌, ◌||◌, ◌==◌, Option, none, some,
  if◌then◌else◌,
}
use rust_stainless.Prelude.Run.{Run, returned, panicked, exhausted, ◌>>=◌, unwrap}
use rust_stainless.Prelude.Texts.{Text, codes, text_eq}

pub data StdItem : Type 0 where
  fn_trait fn_mut_trait fn_once_trait sized_trait begin_panic_fn begin_panic_fmt_fn : StdItem
  set_type set_add_fn set_difference_fn set_intersection_fn set_union_fn : StdItem
  subset_of_fn set_empty_fn set_singleton_fn : StdItem

-- `RUST_LANG_ITEMS`
abbrev pub rust_lang_items : List StdItem
rust_lang_items = fn_trait ∷ fn_mut_trait ∷ fn_once_trait ∷ sized_trait ∷ begin_panic_fn ∷ []

-- `STAINLESS_ITEMS`
abbrev pub stainless_items : List StdItem
stainless_items =
    set_type ∷ set_add_fn ∷ set_difference_fn ∷ set_intersection_fn ∷ set_union_fn ∷ subset_of_fn
    ∷ set_empty_fn ∷ set_singleton_fn ∷ []

-- `NUM_STD_ITEMS`
abbrev pub num_std_items : ℕ
num_std_items = 14

-- `StdItem::index`
abbrev pub index : StdItem → ℕ
index fn_trait = 0
index fn_mut_trait = 1
index fn_once_trait = 2
index sized_trait = 3
index begin_panic_fn = 4
index begin_panic_fmt_fn = 5
index set_type = 6
index set_add_fn = 7
index set_difference_fn = 8
index set_intersection_fn = 9
index set_union_fn = 10
index subset_of_fn = 11
index set_empty_fn = 12
index set_singleton_fn = 13

-- `StdItem::name`
abbrev pub name : StdItem → Text
name fn_trait = codes "Fn"
name fn_mut_trait = codes "FnMut"
name fn_once_trait = codes "FnOnce"
name sized_trait = codes "Sized"
name begin_panic_fn = codes "begin_panic"
name begin_panic_fmt_fn = codes "begin_panic_fmt"
name set_type = codes "Set"
name set_add_fn = codes "add"
name set_difference_fn = codes "difference"
name set_intersection_fn = codes "intersection"
name set_union_fn = codes "union"
name subset_of_fn = codes "is_subset_of"
name set_empty_fn = codes "empty"
name set_singleton_fn = codes "singleton"

-- The lang items of rustc that are asked for.
pub data LangItem : Type 0 where
  fn_trait fn_mut_trait fn_once_trait sized_trait begin_panic_fn : LangItem

-- `StdItem::lang_item`
abbrev pub lang_item : StdItem → Option LangItem
lang_item fn_trait = some LangItem.fn_trait
lang_item fn_mut_trait = some LangItem.fn_mut_trait
lang_item fn_once_trait = some LangItem.fn_once_trait
lang_item sized_trait = some LangItem.sized_trait
lang_item begin_panic_fn = some LangItem.begin_panic_fn
lang_item _ = none

pub record DefId : Type 0 where
  pub krate : ℕ
  pub def_index : ℕ

abbrev pub def_eq : DefId → DefId → Bool
def_eq a b = a.krate == b.krate && a.def_index == b.def_index

-- `last_name` is the last part of a definition's path, `tcx.def_path(…).data.last()`; rustc panics if
-- there is no such definition.
pub record Crates : Type 0 where
  pub require_lang_item : LangItem → DefId
  pub last_name : DefId → Run (Option Text)
  pub crates : List ℕ
  pub crate_name : ℕ → Text

pub record StdItems : Type 0 where
  pub item_to_def : List DefId
  pub def_to_item : List (DefId × StdItem)

abbrev pub set_elem : List DefId → ℕ → DefId → Run (List DefId)
set_elem [] i d = panicked
set_elem (e ∷ es) zero d = returned (d ∷ es)
set_elem (e ∷ es) (suc i) d = set_elem es i d >>= λ rest. returned (e ∷ rest)

abbrev pub get_elem : List DefId → ℕ → Run DefId
get_elem [] i = panicked
get_elem (e ∷ es) zero = returned e
get_elem (e ∷ es) (suc i) = get_elem es i

-- `HashMap::insert`
abbrev pub insert : List (DefId × StdItem) → DefId → StdItem → List (DefId × StdItem)
insert [] d item = (d, item) ∷ []
insert ((e, old) ∷ map) d item =
    if def_eq e d then (e, item) ∷ map else (e, old) ∷ insert map d item

abbrev pub get : List (DefId × StdItem) → DefId → Option StdItem
get [] d = none
get ((e, item) ∷ map) d = if def_eq e d then some item else get map d

-- `self.item_to_def[item.index()] = def_id; self.def_to_item.insert(def_id, item);`
unfoldable pub register : StdItem → DefId → StdItems → Run StdItems
register item d st = set_elem st.item_to_def (index item) d >>= λ defs.
    returned (record { item_to_def = defs; def_to_item = insert st.def_to_item d item })

-- `items.remove(name)`, on a map from the names of the items.
abbrev pub remove : List StdItem → Text → Option StdItem × List StdItem
remove [] n = (none, [])
remove (item ∷ items) n =
    if text_eq (name item) n
    then (some item, items)
    else ((remove items n).0, item ∷ (remove items n).1)

abbrev pub register_if_found : Option StdItem → DefId → StdItems → Run StdItems
unfolding register
register_if_found none d st = returned st
register_if_found (some item) d st = register item d st

abbrev pub is_empty : List StdItem → Bool
is_empty [] = true
is_empty (item ∷ items) = false

module _ (tcx : Crates) where
  unfoldable pub register_items_from_lang_items : List StdItem → StdItems → Run StdItems
  unfolding register
  register_items_from_lang_items [] st = returned st
  register_items_from_lang_items (item ∷ items) st = unwrap (lang_item item) >>= λ lang.
      register item (tcx.require_lang_item lang) st >>= λ next.
      register_items_from_lang_items items next

  -- The items that are left and the new state after the definition `d`, of which the last name is `n`.
  abbrev pub visit : DefId → Option Text → List StdItem → StdItems → Run (List StdItem × StdItems)
  unfolding register_if_found
  visit d none items st = returned (items, st)
  visit d (some n) items st =
      let (item, rest) = remove items n in
      register_if_found item d st >>= λ next. returned (rest, next)

  -- The loop `for index in 0..`, on fuel.
  unfoldable pub search : ℕ → ℕ → ℕ → List StdItem → StdItems → Run StdItems
  unfolding visit
  search cnum fuel i [] st = returned st
  search cnum zero i (item ∷ items) st = exhausted
  search cnum (suc fuel) i (item ∷ items) st =
      let d : DefId = record { krate = cnum; def_index = i } in
      tcx.last_name d >>= λ n.
      visit d n (item ∷ items) st >>= λ next. search cnum fuel (i + 1) next.0 next.1

  unfoldable pub register_items_from_crate : ℕ → List StdItem → ℕ → StdItems → Run StdItems
  unfolding search
  register_items_from_crate fuel items cnum st = search cnum fuel 0 items st

  abbrev pub item_to_def : StdItems → StdItem → Run DefId
  item_to_def st item = get_elem st.item_to_def (index item)

  abbrev pub def_to_item_opt : StdItems → DefId → Option StdItem
  def_to_item_opt st d = get st.def_to_item d

  abbrev pub is_one_of : StdItems → DefId → List StdItem → Run Bool
  is_one_of st d [] = returned false
  is_one_of st d (item ∷ items) =
      let rest = is_one_of st d items in
      item_to_def st item >>= λ e. if def_eq e d then returned true else rest

  abbrev pub find_crate : List ℕ → Option ℕ
  find_crate [] = none
  find_crate (c ∷ cs) =
      if text_eq (tcx.crate_name c) (codes "stainless") then some c else find_crate cs

  abbrev pub replicate : ℕ → DefId → List DefId
  replicate zero d = []
  replicate (suc n) d = d ∷ replicate n d

  -- `StdItems::collect`; `sess.fatal` does not return.
  unfoldable pub collect : ℕ → Run StdItems
  unfolding register_items_from_lang_items register_items_from_crate
  collect fuel =
      let dummy : DefId = record { krate = 0; def_index = 0 } in
      let start : StdItems = record {
        item_to_def = replicate num_std_items dummy;
        def_to_item = [];
      } in
      register_items_from_lang_items rust_lang_items start >>= λ langs.
      item_to_def langs begin_panic_fn >>= λ std.
      register_items_from_crate fuel (begin_panic_fmt_fn ∷ []) std.krate langs >>= λ panics.
      unwrap (find_crate tcx.crates) >>= λ stainless.
      register_items_from_crate fuel stainless_items stainless panics
