-- ===== src/StdItems/Names.antt =====
-- The indices and the names of the standard items of stainless_extraction/src/std_items.rs.
use rust_stainless.Prelude.{
  ℕ, ◌<◌, ◌≡◌, refl, ap, List, [], ◌∷◌, true, ◌==◌, Option, none, some, if◌then◌else◌, arith,
}
use rust_stainless.Prelude.Texts.{Text, text_eq}
use rust_stainless.StdItems.{
  StdItem, fn_trait, fn_mut_trait, fn_once_trait, sized_trait, begin_panic_fn, begin_panic_fmt_fn,
  set_type, set_add_fn, set_difference_fn, set_intersection_fn, set_union_fn, subset_of_fn,
  set_empty_fn, set_singleton_fn, index, name, num_std_items, DefId, def_eq,
}

abbrev all_items : List StdItem
all_items =
    fn_trait ∷ fn_mut_trait ∷ fn_once_trait ∷ sized_trait ∷ begin_panic_fn ∷ begin_panic_fmt_fn
    ∷ set_type ∷ set_add_fn ∷ set_difference_fn ∷ set_intersection_fn ∷ set_union_fn ∷ subset_of_fn
    ∷ set_empty_fn ∷ set_singleton_fn ∷ []

abbrev with_index : ℕ → List StdItem → Option StdItem
with_index i [] = none
with_index i (item ∷ items) = if index item == i then some item else with_index i items

abbrev with_name : Text → List StdItem → Option StdItem
with_name n [] = none
with_name n (item ∷ items) = if text_eq (name item) n then some item else with_name n items

with_index-index : (item : StdItem) → with_index (index item) all_items ≡ some item
with_index-index fn_trait = refl
with_index-index _ = refl

with_name-name : (item : StdItem) → with_name (name item) all_items ≡ some item
with_name-name fn_trait = refl
with_name-name _ = refl

pub index-injective : (a b : StdItem) → index a ≡ index b → a ≡ b
index-injective a b e =
    cc (with_index-index a, ap (λ i. with_index i all_items) e, with_index-index b)

pub name-injective : (a b : StdItem) → name a ≡ name b → a ≡ b
name-injective a b e = cc (with_name-name a, ap (λ n. with_name n all_items) e, with_name-name b)

pub index-lt : (item : StdItem) → index item < num_std_items
index-lt fn_trait = omega arith
index-lt _ = omega arith

pub def_eq→eq : (a b : DefId) → def_eq a b ≡ true → a ≡ b
def_eq→eq a b h = ground arith
