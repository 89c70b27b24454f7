-- ===== src/Tests/Items.antt =====
-- A crate with two definitions of standard items, and the search through it.
use rust_stainless.Prelude.{
  ℕ, ◌≡◌, refl, List, [], ◌∷◌, Bool, true, false, Option, none, some, ◌==◌, if◌then◌else◌, arith,
  All, Bool-cases, inl, inr,
}
use rust_stainless.Prelude.Run.{returned}
use rust_stainless.Prelude.Texts.{codes}
use rust_stainless.StdItems.{
  StdItem, StdItems, Crates, DefId, register_items_from_crate, set_type, begin_panic_fmt_fn,
}
use rust_stainless.StdItems.Tables.{IsRegistered}
use rust_stainless.StdItems.Search.{HasDefs, register_items-finds}

-- The crate 7 has a nameless root, another definition, and the two items.
abbrev tcx : Crates
tcx = record {
  require_lang_item = λ item. record { krate = 0; def_index = 0 };
  last_name = λ d.
      if d.def_index == 0
      then returned none
      else (if d.def_index == 1
          then returned (some (codes "foo"))
          else (if d.def_index == 2
              then returned (some (codes "Set"))
              else returned (some (codes "begin_panic_fmt"))));
  crates = 7 ∷ [];
  crate_name = λ c. codes "stainless";
}

abbrev no_def : DefId
no_def = record { krate = 0; def_index = 0 }

abbrev empty_tables : StdItems
empty_tables = record {
  item_to_def =
      no_def ∷ no_def ∷ no_def ∷ no_def ∷ no_def ∷ no_def ∷ no_def ∷ no_def ∷ no_def ∷ no_def
      ∷ no_def ∷ no_def ∷ no_def ∷ no_def ∷ [];
  def_to_item = [];
}

abbrev items : List StdItem
items = begin_panic_fmt_fn ∷ set_type ∷ []

second :
    (b : Bool)
    → (n : Option (List ℕ)) × ((if b
          then returned (some (codes "Set"))
          else returned (some (codes "begin_panic_fmt")))
        ≡ returned n)
second true = (some (codes "Set"), refl)
second false = (some (codes "begin_panic_fmt"), refl)

has_defs : HasDefs tcx 7 4
has_defs k l = elim (Bool-cases (k == 0)) [
  | inl e ↦ (none, rw e refl)
  | inr n ↦ elim (Bool-cases (k == 1)) [
    | inl e ↦ (some (codes "foo"), rw (n, e) refl)
    | inr m ↦ rw (n, m) (second (k == 2))
  ]
]

register_items-finds_example :
    (after : StdItems) × (register_items_from_crate tcx 4 items 7 empty_tables ≡ returned after)
    × All (IsRegistered tcx after) items
    × ((other : StdItem) → IsRegistered tcx empty_tables other → IsRegistered tcx after other)
register_items-finds_example =
    register_items-finds tcx 7 4 items empty_tables refl (((λ e. cc), tt), (tt, tt)) has_defs
      (
        record { k = 3; from_i = omega arith; below = omega arith; named = refl },
        (record { k = 2; from_i = omega arith; below = omega arith; named = refl }, tt),
      )
