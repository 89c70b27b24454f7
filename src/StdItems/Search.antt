-- ===== src/StdItems/Search.antt =====
-- The search through the definitions of a crate, `register_items_from_crate` of
-- stainless_extraction/src/std_items.rs.
use rust_stainless.Prelude.{
  ℕ, zero, suc, ◌+◌, ◌<◌, ◌≤◌, ◌≡◌, refl, sym, ap, ◌∙◌, List, [], ◌∷◌, true, false, ◌==◌, Option,
  none, some, arith, All, length, Bool-cases, Option-cases, inl, inr, ◌⊎◌, subst,
}
use rust_stainless.Prelude.Run.{returned, returned-injective}
use rust_stainless.Prelude.Texts.{Text, text_eq, text_eq→eq, text_eq_refl}
use rust_stainless.StdItems.{
  StdItem, name, num_std_items, DefId, StdItems, Crates, remove, register_if_found, visit, search,
  register_items_from_crate,
}
use rust_stainless.StdItems.Tables.{IsRegistered, register-Registers, some-injective}

abbrev pub DistinctNames : List StdItem → Type 0
DistinctNames [] = Unit
DistinctNames (x ∷ xs) = All (λ y. ¬ (name y ≡ name x)) xs × DistinctNames xs

weaken :
    {P Q : StdItem → Type 0} (xs : List StdItem) → ((x : StdItem) → P x → Q x) → All P xs → All Q xs
weaken [] f h = tt
weaken (x ∷ xs) f h = (f x h.0, weaken xs f h.1)

All-remove :
    (P : StdItem → Type 0) (items : List StdItem) (n : Text)
    → All P items
    → All P (remove items n).1
All-remove P [] n h = tt
All-remove P (x ∷ xs) n h = elim (Bool-cases (text_eq (name x) n)) [
  | inl e ↦ rw e h.1
  | inr e ↦ rw e (h.0, All-remove P xs n h.1)
]

All_of_remove :
    (P : StdItem → Type 0) (items : List StdItem) (n : Text)
    → ((x : StdItem) → (remove items n).0 ≡ some x → P x)
    → All P (remove items n).1
    → All P items
All_of_remove P [] n f h = tt
All_of_remove P (x ∷ xs) n f h = elim (Bool-cases (text_eq (name x) n)) [
  | inl e ↦ (f x (rw e refl), rw e at h)
  | inr e ↦
      let t : P x × All P (remove xs n).1 = rw e at h in
      (t.0, All_of_remove P xs n (λ y q. f y (rw e q)) t.1)
]

remove-name :
    (items : List StdItem) (n : Text) (x : StdItem) → (remove items n).0 ≡ some x → name x ≡ n
remove-name [] n x h = cc
remove-name (y ∷ ys) n x h = elim (Bool-cases (text_eq (name y) n)) [
  | inl e ↦ ap name (sym (some-injective (rw e at h))) ∙ text_eq→eq (name y) n e
  | inr e ↦ remove-name ys n x (rw e at h)
]

DistinctNames-remove :
    (items : List StdItem) (n : Text) → DistinctNames items → DistinctNames (remove items n).1
DistinctNames-remove [] n h = tt
DistinctNames-remove (x ∷ xs) n h = elim (Bool-cases (text_eq (name x) n)) [
  | inl e ↦ rw e h.1
  | inr e ↦ rw e (All-remove _ xs n h.0, DistinctNames-remove xs n h.1)
]

-- No item of the name is left.
remove-gone :
    (items : List StdItem) (n : Text)
    → DistinctNames items
    → All (λ y. ¬ (name y ≡ n)) (remove items n).1
remove-gone [] n h = tt
remove-gone (x ∷ xs) n h = elim (Bool-cases (text_eq (name x) n)) [
  | inl e ↦ rw e (weaken xs (λ y m q. m (q ∙ sym (text_eq→eq (name x) n e))) h.0)
  | inr e ↦ rw e (
    (λ q. cc (sym e ∙ subst (λ t. text_eq (name x) t ≡ true) q (text_eq_refl (name x)))),
    remove-gone xs n h.1,
  )
]

module _ (tcx : Crates) (cnum : ℕ) where
  abbrev def_at : ℕ → DefId
  def_at k = record { krate = cnum; def_index = k }

  -- A definition of the item's name has an index from `i` on and below `end_`.
  pub record Occurs (i end_ : ℕ) (item : StdItem) : Type 0 where
    pub k : ℕ
    pub from_i : i ≤ k
    pub below : k < end_
    pub named : tcx.last_name (record { krate = cnum; def_index = k }) ≡ returned (some (name item))

  -- The crate has definitions up to `end_`.
  abbrev pub HasDefs : ℕ → Type 0
  HasDefs end_ =
      (k : ℕ)
      → k < end_
      → (n : Option Text) × (tcx.last_name (record { krate = cnum; def_index = k }) ≡ returned n)

  -- What a search that finds its items does.
  pub record Finds (fuel i : ℕ) (items : List StdItem) (st : StdItems) : Type 0 where
    pub after : StdItems
    pub returns : search tcx cnum fuel i items st ≡ returned after
    pub found : All (IsRegistered tcx after) items
    pub kept : (other : StdItem) → IsRegistered tcx st other → IsRegistered tcx after other
    pub same_length : length after.item_to_def ≡ length st.item_to_def

  no_name : (items : List StdItem) → All (λ x. ¬ (◌≡◌ {A = Option Text} (some (name x)) none)) items
  no_name [] = tt
  no_name (x ∷ xs) = ((λ q. cc), no_name xs)

  later :
      (i end_ : ℕ) (n : Option Text) (items : List StdItem)
      → tcx.last_name (def_at i) ≡ returned n
      → All (λ x. ¬ (some (name x) ≡ n)) items
      → All (Occurs i end_) items
      → All (Occurs (i + 1) end_) items
  later i end_ n [] e m h = tt
  later i end_ n (x ∷ xs) e m (o, os) = (
    record { k = o.k; from_i = moved (Bool-cases (o.k == i)); below = o.below; named = o.named },
    later i end_ n xs e m.1 os,
  )
    where
      moved : (o.k == i ≡ true) ⊎ (o.k == i ≡ false) → i + 1 ≤ o.k
      moved (inl p) =
          let same : o.k ≡ i = ground arith in
          absurd
            (m.0 (returned-injective (sym o.named ∙ ap (λ k. tcx.last_name (def_at k)) same ∙ e)))
      moved (inr p) = ground (arith, o.from_i)

  -- One round: the state after it, and what is left.
  record Visits (d : DefId) (n : Option Text) (items : List StdItem) (st : StdItems) : Type 0 where
    rest : List StdItem
    after : StdItems
    returns : visit tcx d n items st ≡ returned (rest, after)
    rest_distinct : DistinctNames rest
    left :
        (i end_ : ℕ)
        → tcx.last_name (def_at i) ≡ returned n
        → All (Occurs i end_) items
        → All (Occurs (i + 1) end_) rest
    found :
        (last : StdItems)
        → ((other : StdItem) → IsRegistered tcx after other → IsRegistered tcx last other)
        → All (IsRegistered tcx last) rest
        → All (IsRegistered tcx last) items
    kept : (other : StdItem) → IsRegistered tcx st other → IsRegistered tcx after other
    same_length : length after.item_to_def ≡ length st.item_to_def

  visit-Visits :
      (d : DefId) (n : Option Text) (items : List StdItem) (st : StdItems)
      → length st.item_to_def ≡ num_std_items
      → DistinctNames items
      → tcx.last_name d ≡ returned n
      → Visits d n items st
  unfolding visit register_if_found
  visit-Visits d none items st l dist e = record {
    rest = items;
    after = st;
    returns = refl;
    rest_distinct = dist;
    left = λ i end_ m h. later i end_ none items m (no_name items) h;
    found = λ last k h. h;
    kept = λ other r. r;
    same_length = refl;
  }
  visit-Visits d (some n) items st l dist e = elim (Option-cases (remove items n).0) [
    | inl p ↦ record {
      rest = (remove items n).1;
      after = st;
      returns = rw p refl;
      rest_distinct = DistinctNames-remove items n dist;
      left = λ i end_ m h.
          later i end_ (some n) (remove items n).1 m (others n items dist) (All-remove _ items n h);
      found = λ last k h. All_of_remove _ items n (λ x q. cc (sym p ∙ q)) h;
      kept = λ other r. r;
      same_length = refl;
    }
    | inr (x, p) ↦
        let r =
          register-Registers tcx x d st l
            (e ∙ ap (λ t. returned (some t)) (sym (remove-name items n x p))) in
        record {
          rest = (remove items n).1;
          after = r.after;
          returns = rw (p, r.returns) refl;
          rest_distinct = DistinctNames-remove items n dist;
          left = λ i end_ m h.
              later i end_ (some n) (remove items n).1 m (others n items dist)
                (All-remove _ items n h);
          found = λ last k h.
              All_of_remove (λ y. IsRegistered tcx last y) items n
                (λ y q.
                  subst (λ z. IsRegistered tcx last z) (some-injective (sym p ∙ q))
                    (k x r.registered))
                h;
          kept = r.kept;
          same_length = r.same_length;
        }
  ]
    where
      others :
          (n : Text) (items : List StdItem)
          → DistinctNames items
          → All (λ y. ¬ (some (name y) ≡ some n)) (remove items n).1
      others n items dist =
          weaken (remove items n).1 (λ y m q. m (some-injective q)) (remove-gone items n dist)

  search-Finds :
      (fuel i end_ : ℕ) (items : List StdItem) (st : StdItems)
      → i + fuel ≡ end_
      → length st.item_to_def ≡ num_std_items
      → DistinctNames items
      → HasDefs end_
      → All (Occurs i end_) items
      → Finds fuel i items st
  unfolding search
  search-Finds fuel i end_ [] st c l dist defs h = record {
    after = st;
    returns = refl;
    found = tt;
    kept = λ other r. r;
    same_length = refl;
  }
  search-Finds zero i end_ (x ∷ xs) st c l dist defs h =
      absurd (omega (arith, h.0.below, h.0.from_i))
  search-Finds (suc fuel) i end_ (x ∷ xs) st c l dist defs h =
      let (n, e) = defs i (omega arith) in
      let v = visit-Visits (def_at i) n (x ∷ xs) st l dist e in
      let f =
        search-Finds fuel (i + 1) end_ v.rest v.after (omega arith) (v.same_length ∙ l)
          v.rest_distinct defs (v.left i end_ e h) in
      record {
        after = f.after;
        returns = rw (e, v.returns) f.returns;
        found = v.found f.after f.kept f.found;
        kept = λ other r. f.kept other (v.kept other r);
        same_length = f.same_length ∙ v.same_length;
      }

  -- If every one of the items, of which the names differ, is the name of a definition of the crate with
  -- an index below `end_`, and the crate has that many definitions, then `end_` rounds are enough for the
  -- search: it returns, with every item in both tables under a definition of its name, and the items
  -- that were there before still are.
  pub register_items-finds :
      (end_ : ℕ) (items : List StdItem) (st : StdItems)
      → length st.item_to_def ≡ num_std_items
      → DistinctNames items
      → HasDefs end_
      → All (Occurs 0 end_) items
      → (after : StdItems) × (register_items_from_crate tcx end_ items cnum st ≡ returned after)
        × All (IsRegistered tcx after) items
        × ((other : StdItem) → IsRegistered tcx st other → IsRegistered tcx after other)
  unfolding register_items_from_crate
  register_items-finds end_ items st l dist defs h =
      let f = search-Finds end_ 0 end_ items st (omega arith) l dist defs h in
      (f.after, f.returns, f.found, f.kept)
