-- ===== src/StdItems/Tables.antt =====
-- The tables of `StdItems` in stainless_extraction/src/std_items.rs under one registration, and the
-- items that are left in a search.
use rust_stainless.Prelude.{
  ℕ, zero, suc, ◌<◌, ◌≡◌, refl, sym, ap, ◌∙◌, List, [], ◌∷◌, true, false, ◌==◌, some, if◌then◌else◌,
  arith, length, Bool-cases, inl, inr, ◌⊎◌, subst,
}
use rust_stainless.Prelude.Run.{returned, returned-injective}
use rust_stainless.StdItems.{
  StdItem, index, name, num_std_items, DefId, def_eq, StdItems, Crates, set_elem, get_elem, insert,
  get, register,
}
use rust_stainless.StdItems.Names.{index-injective, name-injective, index-lt, def_eq→eq}

-- A write into the array.
record Written (es : List DefId) (i : ℕ) (d : DefId) : Type 0 where
  after : List DefId
  returns : set_elem es i d ≡ returned after
  same_length : length after ≡ length es
  written : get_elem after i ≡ returned d
  kept : (j : ℕ) → ¬ (j ≡ i) → get_elem after j ≡ get_elem es j

cons-Written :
    (e : DefId) (es : List DefId) (i : ℕ) (d : DefId) → Written es i d → Written (e ∷ es) (suc i) d
cons-Written e es i d w = record {
  after = e ∷ w.after;
  returns = rw w.returns refl;
  same_length = omega (arith, w.same_length);
  written = w.written;
  kept = kept_rest;
}
  where
    kept_rest : (j : ℕ) → ¬ (j ≡ suc i) → get_elem (e ∷ w.after) j ≡ get_elem (e ∷ es) j
    kept_rest zero n = refl
    kept_rest (suc j) n = w.kept j (λ p. n (ap suc p))

set_elem-Written : (es : List DefId) (i : ℕ) (d : DefId) → i < length es → Written es i d
set_elem-Written [] i d h = absurd (omega arith)
set_elem-Written (e ∷ es) zero d h = record {
  after = d ∷ es;
  returns = refl;
  same_length = refl;
  written = refl;
  kept = kept_tail;
}
  where
    kept_tail : (j : ℕ) → ¬ (j ≡ 0) → get_elem (d ∷ es) j ≡ get_elem (e ∷ es) j
    kept_tail zero n = absurd (n refl)
    kept_tail (suc j) n = refl
set_elem-Written (e ∷ es) (suc i) d h =
    cons-Written e es i d (set_elem-Written es i d (omega arith))

def_eq_refl : (d : DefId) → def_eq d d ≡ true
def_eq_refl d = ground arith

get-insert :
    (map : List (DefId × StdItem)) (d e : DefId) (item : StdItem)
    → get (insert map d item) e ≡ (if def_eq d e then some item else get map e)
get-insert [] d e item = refl
get-insert ((c, old) ∷ map) d e item = elim (Bool-cases (def_eq c d)) [
  | inl p ↦ rw p (ground (arith, def_eq→eq c d))
  | inr p ↦ rw p (ground (arith, get-insert map d e item))
]

pub some-injective : {A : Type 0} {a b : A} → some a ≡ some b → a ≡ b
some-injective e = cc

module _ (tcx : Crates) where
  -- The item is in both tables, under a definition of its name.
  pub record IsRegistered (st : StdItems) (item : StdItem) : Type 0 where
    pub d : DefId
    pub found : get_elem st.item_to_def (index item) ≡ returned d
    pub named : tcx.last_name d ≡ returned (some (name item))
    pub back : get st.def_to_item d ≡ some item

  abbrev after_write :
      (item : StdItem) (d : DefId) (st : StdItems)
      → Written st.item_to_def (index item) d
      → StdItems
  after_write item d st w = record {
    item_to_def = w.after;
    def_to_item = insert st.def_to_item d item;
  }

  write-IsRegistered :
      (item : StdItem) (d : DefId) (st : StdItems) (w : Written st.item_to_def (index item) d)
      → tcx.last_name d ≡ returned (some (name item))
      → IsRegistered (after_write item d st w) item
  write-IsRegistered item d st w n = record {
    d = d;
    found = w.written;
    named = n;
    back = get-insert st.def_to_item d d item ∙ rw (def_eq_refl d) refl;
  }

  same_name :
      (item other : StdItem) (d e : DefId)
      → tcx.last_name d ≡ returned (some (name item))
      → tcx.last_name e ≡ returned (some (name other))
      → d ≡ e
      → item ≡ other
  same_name item other d e n m p =
      name-injective item other
        (some-injective (returned-injective (sym n ∙ ap tcx.last_name p ∙ m)))

  write-keeps :
      (item other : StdItem) (d : DefId) (st : StdItems) (w : Written st.item_to_def (index item) d)
      → tcx.last_name d ≡ returned (some (name item))
      → IsRegistered st other
      → IsRegistered (after_write item d st w) other
  write-keeps item other d st w n r = elim (Bool-cases (index other == index item)) [
    | inl e ↦
        subst (λ x. IsRegistered (after_write item d st w) x)
          (index-injective item other (ground arith)) (write-IsRegistered item d st w n)
    | inr e ↦ record {
      d = r.d;
      found = w.kept (index other) (λ p. ground arith) ∙ r.found;
      named = r.named;
      back =
          get-insert st.def_to_item d r.d item
          ∙ other_def (Bool-cases (def_eq d r.d)) (λ p. ground (arith, ap index p));
    }
  ]
    where
      other_def :
          (def_eq d r.d ≡ true) ⊎ (def_eq d r.d ≡ false)
          → ¬ (item ≡ other)
          → (if def_eq d r.d then some item else get st.def_to_item r.d) ≡ some other
      other_def (inl e) m = absurd (m (same_name item other d r.d n r.named (def_eq→eq d r.d e)))
      other_def (inr e) m = rw e r.back

  -- What a registration does.
  pub record Registers (item : StdItem) (d : DefId) (st : StdItems) : Type 0 where
    pub after : StdItems
    pub returns : register item d st ≡ returned after
    pub same_length : length after.item_to_def ≡ length st.item_to_def
    pub registered : IsRegistered after item
    pub kept : (other : StdItem) → IsRegistered st other → IsRegistered after other

  pub register-Registers :
      (item : StdItem) (d : DefId) (st : StdItems)
      → length st.item_to_def ≡ num_std_items
      → tcx.last_name d ≡ returned (some (name item))
      → Registers item d st
  unfolding register
  register-Registers item d st l n =
      let w = set_elem-Written st.item_to_def (index item) d (omega (arith, index-lt item)) in
      record {
        after = after_write item d st w;
        returns = rw w.returns refl;
        same_length = w.same_length;
        registered = write-IsRegistered item d st w n;
        kept = λ other r. write-keeps item other d st w n r;
      }
