-- ===== src/Registry/Fresh.antt =====
-- `UniqueCounter::fresh` of stainless_extraction/src/utils.rs: the counters of all keys.
use rust_stainless.Prelude.{
  ℕ, ◌+◌, ◌<◌, ◌≡◌, ◌⊎◌, inl, inr, refl, sym, ◌∙◌, [], ◌∷◌, Bool, true, false, arith, if◌then◌else◌,
}
use rust_stainless.Prelude.Outcome.{done}
use rust_stainless.Ser.{i32_max}
use rust_stainless.Registry.{UniqueCounter, increment, fresh}

-- A test for equality.
abbrev pub Decides : {K : Type 0} → (K → K → Bool) → Type 0
Decides {K} eq = (j k : K) → ((eq j k ≡ true) × (j ≡ k)) ⊎ ((eq j k ≡ false) × (¬ (j ≡ k)))

increment-below :
    (overflow_checks : Bool) (c : ℕ) → c < i32_max → increment overflow_checks c ≡ done (c + 1)
increment-below overflow_checks c h = ground arith

module _ {K : Type 0} (eq : K → K → Bool) where
  -- The id that a key gets next.
  abbrev pub next_id : UniqueCounter K → K → ℕ
  next_id [] k = 0
  next_id ((j, c) ∷ next) k = if eq j k then c else next_id next k

  pub hit : Decides eq → (k : K) → eq k k ≡ true
  hit d k = elim (d k k) [ inl (e, p) ↦ e | inr (e, n) ↦ absurd (n refl) ]

  miss : Decides eq → (i j : K) → ¬ (i ≡ j) → eq i j ≡ false
  miss d i j n = elim (d i j) [ inl (e, p) ↦ absurd (n p) | inr (e, m) ↦ e ]

  -- What `fresh` promises: the next id of the key, which is then one larger, and no other changes.
  pub record CountsUp (overflow_checks : Bool) (next : UniqueCounter K) (k : K) : Type 0 where
    pub after : UniqueCounter K
    pub returns : fresh eq overflow_checks next k ≡ done (next_id next k, after)
    pub counts : next_id after k ≡ next_id next k + 1
    pub keeps : (j : K) → ¬ (j ≡ k) → next_id after j ≡ next_id next j

  -- As long as the next id of a key is below i32::MAX, `fresh` returns it, makes the next one of that key
  -- larger by one, and leaves those of all other keys, if the test on keys decides their equality.
  pub fresh-CountsUp :
      (overflow_checks : Bool) (next : UniqueCounter K) (k : K)
      → Decides eq
      → next_id next k < i32_max
      → CountsUp overflow_checks next k
  unfolding fresh
  fresh-CountsUp overflow_checks [] k d h = record {
    after = (k, 1) ∷ [];
    returns = refl;
    counts = rw (hit d k) refl;
    keeps = λ j n. rw (miss d k j (λ e. n (sym e))) refl;
  }
  fresh-CountsUp overflow_checks ((i, c) ∷ next) k d h = elim (d i k) [
    | inl (e, p) ↦ record {
      after = (i, c + 1) ∷ next;
      returns = rw (e, increment-below overflow_checks c (rw e at h)) refl;
      counts = rw e refl;
      keeps = λ j n. rw (miss d i j (λ q. n (sym q ∙ p))) refl;
    }
    | inr (e, n) ↦
        let rest = fresh-CountsUp overflow_checks next k d (rw e at h) in
        record {
          after = (i, c) ∷ rest.after;
          returns = rw (e, rest.returns) refl;
          counts = rw e rest.counts;
          keeps =
              λ j m. elim (d i j) [ inl (f, q) ↦ rw f refl | inr (f, q) ↦ rw f (rest.keeps j m) ];
        }
  ]
