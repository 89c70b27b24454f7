-- ===== src/Tests/Found.antt =====
-- A crate with a function and its precondition, in the top level and in an `impl` block.
use rust_stainless.Prelude.{
  ℕ, ◌≡◌, refl, List, [], ◌∷◌, true, false, ◌&&◌, some, ◌==◌, leb, ltb, if◌then◌else◌, arith,
}
use rust_stainless.Prelude.Texts.{codes, split}
use rust_stainless.Extraction.Items.{
  CrateTcx, Item, visit_items, nothing, specs_of, fn, impl_block, adt,
}
use rust_stainless.Extraction.Items.Contributions.{
  flat, adts_in, functions_in, specs_in, specs_by_type,
}
use rust_stainless.Extraction.Items.Collected.{visit_items-collects}

abbrev tcx : CrateTcx
tcx = record {
  DefId = ℕ;
  def_eq = λ a b. a == b;
  parent = λ d. some (if d == 2 then 1 else 0);
  is_numeric = λ c. leb 48 c && ltb c 58;
  iterate = λ fns. fns;
}

abbrev items : List (Item ℕ)
items =
    fn 1 (codes "f") false
    ∷ fn 2 (codes "__pre_1_f") true
    ∷ adt 3
    ∷ impl_block (
        record { is_fn = true; def_id = 4; ident = codes "g"; from_expansion = false }
        ∷ record { is_fn = true; def_id = 5; ident = codes "__post_1_g"; from_expansion = true }
        ∷ [])
    ∷ []

-- The precondition of the first function, and the postcondition of the second one.
specs_of_f : (specs_of tcx (visit_items tcx items (nothing tcx)) 1).pres ≡ 2 ∷ []
unfolding specs_of visit_items split
specs_of_f = refl

specs_of_g : (specs_of tcx (visit_items tcx items (nothing tcx)) 4).posts ≡ 5 ∷ []
unfolding specs_of visit_items split
specs_of_g = refl

visit_items-collects_example :
    let seen = visit_items tcx items (nothing tcx) in
    (seen.adts ≡ flat (adts_in tcx) items)
    × (seen.functions ≡ flat (functions_in tcx) items)
    × ((d : ℕ) → specs_of tcx seen d ≡ specs_by_type tcx (flat (specs_in tcx d) items))
visit_items-collects_example =
    visit_items-collects tcx (λ d. ground arith) (λ c d e. ground arith) items
      (tt, (tt, (tt, (((refl, tt), (tt, tt)), tt))))
