-- ===== src/Symbols/Stable.antt =====
-- The hash maps of `Symbols` (stainless_data/src/ast.rs): their keys, and the order in which they are
-- iterated for serialization.
use mathlib.Core.List.{Permᴰ, Perm}
use mathlib.Core.Logic.{∥∥₁_elim}
use rust_stainless.Prelude.{
  ℕ, ◌^◌, ◌<◌, ◌≡◌, ◌≢◌, List, [], ◌∷◌, All, arith, Bool-cases, inl, inr, subst, ◌==◌, refl, ap,
  ◌∙◌, Bool, true, false, Option, none, some, if◌then◌else◌,
}
use native.Mathlib.Decide.{ℕ_discrete}
use rust_stainless.Prelude.Outcome.{Outcome}
use rust_stainless.Prelude.Sorting.{sort, sort-eq_of_perm, DistinctKeys}
use rust_stainless.Prelude.Int.{ℤ}
use rust_stainless.Ser.{Bytes}
use rust_stainless.Ast.Identifier.{SymbolIdentifier, symbol_eq}
use rust_stainless.Symbols.{
  AdtSort, FunDef, sort_id, fun_id, Symbols, insert, insert_all, new, signed_key, serialize_symbols,
}

abbrev pub gid : SymbolIdentifier → ℕ
gid s = s.id.global_id

-- A hash map has one value for each key, and a key's global id is an `i32`.
module _ {A : Type 0} (id : A → SymbolIdentifier) where
  abbrev pub IsMap : List A → Type 0
  IsMap vs = DistinctKeys (λ v. gid (id v)) vs × All (λ v. gid (id v) < 2 ^ 32) vs

  signed_ne :
      (v : A) (vs : List A)
      → gid (id v) < 2 ^ 32
      → All (λ w. gid (id v) ≢ gid (id w)) vs
      → All (λ w. gid (id w) < 2 ^ 32) vs
      → All (λ w. signed_key (id v) ≢ signed_key (id w)) vs
  signed_ne v [] b h r = tt
  signed_ne v (w ∷ vs) b h r = ((λ e. h.0 (omega arith)), signed_ne v vs b h.1 r.1)

  DistinctKeys-signed : (vs : List A) → IsMap vs → DistinctKeys (λ v. signed_key (id v)) vs
  DistinctKeys-signed [] h = tt
  DistinctKeys-signed (v ∷ vs) h =
      (signed_ne v vs h.1.0 h.0.0 h.1.1, DistinctKeys-signed vs (h.0.1, h.1.1))

  insert-fresh :
      (k : ℕ) (map : List A) (v : A)
      → k ≢ gid (id v)
      → All (λ w. k ≢ gid (id w)) map
      → All (λ w. k ≢ gid (id w)) (insert id map v)
  unfolding insert symbol_eq
  insert-fresh k [] v h hs = (h, tt)
  insert-fresh k (w ∷ ws) v h hs = elim (Bool-cases (gid (id w) == gid (id v))) [
    | inl e ↦ rw e (h, hs.1)
    | inr e ↦ rw e (hs.0, insert-fresh k ws v h hs.1)
  ]

  insert-DistinctKeys :
      (map : List A) (v : A)
      → DistinctKeys (λ w. gid (id w)) map
      → DistinctKeys (λ w. gid (id w)) (insert id map v)
  unfolding insert symbol_eq
  insert-DistinctKeys [] v h = (tt, tt)
  insert-DistinctKeys (w ∷ ws) v h = elim (Bool-cases (gid (id w) == gid (id v))) [
    | inl e ↦ rw e (subst (λ k. All (λ u. k ≢ gid (id u)) ws) (ground arith) h.0, h.1)
    | inr e ↦ rw e (insert-fresh (gid (id w)) ws v (ground arith) h.0, insert-DistinctKeys ws v h.1)
  ]

  insert_all-DistinctKeys :
      (map vs : List A)
      → DistinctKeys (λ w. gid (id w)) map
      → DistinctKeys (λ w. gid (id w)) (insert_all id map vs)
  unfolding insert_all
  insert_all-DistinctKeys map [] h = h
  insert_all-DistinctKeys map (v ∷ vs) h =
      insert_all-DistinctKeys (insert id map v) vs (insert-DistinctKeys map v h)

abbrev or_found : {A : Type 0} → Option A → Option A → Option A
or_found none o = o
or_found (some a) o = some a

or_found-none : {A : Type 0} (o : Option A) → or_found o none ≡ o
or_found-none none = refl
or_found-none (some a) = refl

module _ {A : Type 0} (id : A → SymbolIdentifier) where
  -- The value of a map under a key.
  abbrev pub found : List A → SymbolIdentifier → Option A
  found [] k = none
  found (v ∷ vs) k = if gid (id v) == gid k then some v else found vs k

  -- The last value of a list with the global id of `k`.
  abbrev pub last_of : List A → SymbolIdentifier → Option A
  last_of [] k = none
  last_of (v ∷ vs) k = or_found (last_of vs k) (if gid (id v) == gid k then some v else none)

  found-insert :
      (k : SymbolIdentifier) (map : List A) (v : A)
      → found (insert id map v) k ≡ (if gid (id v) == gid k then some v else found map k)
  unfolding insert symbol_eq
  found-insert k [] v = refl
  found-insert k (w ∷ ws) v = elim (Bool-cases (gid (id w) == gid (id v))) [
    | inl e ↦ elim (Bool-cases (gid (id v) == gid k)) [
      | inl f ↦ rw (e, f) refl
      | inr f ↦ let g : (gid (id w) == gid k) ≡ false = ground arith in rw (e, f, g) refl
    ]
    | inr e ↦ elim (Bool-cases (gid (id v) == gid k)) [
      | inl f ↦
          let g : (gid (id w) == gid k) ≡ false = ground arith in
          rw (e, g, found-insert k ws v, f) refl
      | inr f ↦ rw (e, found-insert k ws v, f) refl
    ]
  ]

  found-insert_all :
      (k : SymbolIdentifier) (map vs : List A)
      → found (insert_all id map vs) k ≡ or_found (last_of vs k) (found map k)
  unfolding insert_all
  found-insert_all k map [] = refl
  found-insert_all k map (v ∷ vs) =
      found-insert_all k (insert id map v) vs
      ∙ ap (or_found (last_of vs k)) (found-insert k map v)
      ∙ later (last_of vs k) (gid (id v) == gid k)
    where
      later :
          (o : Option A) (b : Bool)
          → or_found o (if b then some v else found map k)
            ≡ or_found (or_found o (if b then some v else none)) (found map k)
      later none true = refl
      later none false = refl
      later (some a) b = refl

-- For each identifier, the definition that `new` keeps under its global id is the last one with it of the
-- definitions that it is given, and there is none where none of them has it; at most one is kept for each
-- global id.
pub new-keeps_last :
    (sorts : List AdtSort) (functions : List FunDef)
    → ((k : SymbolIdentifier)
        → (found sort_id (new sorts functions).sorts k ≡ last_of sort_id sorts k)
          × (found fun_id (new sorts functions).functions k ≡ last_of fun_id functions k))
      × DistinctKeys (λ d. gid (sort_id d)) (new sorts functions).sorts
      × DistinctKeys (λ f. gid (fun_id f)) (new sorts functions).functions
unfolding new
new-keeps_last sorts functions = (
  λ k. (
    found-insert_all sort_id k [] sorts ∙ or_found-none (last_of sort_id sorts k),
    found-insert_all fun_id k [] functions ∙ or_found-none (last_of fun_id functions k),
  ),
  insert_all-DistinctKeys sort_id [] sorts tt,
  insert_all-DistinctKeys fun_id [] functions tt,
)

-- The two have the same definitions, in whatever order.
pub record SameProgram (a b : Symbols) : Type 0 where
  pub sorts : Perm a.sorts b.sorts
  pub functions : Perm a.functions b.functions

Bytes_set : IsSet (Outcome Bytes)
Bytes_set = hlevel ℕ_discrete

module _ {A : Type 0} (id : A → SymbolIdentifier) where
  sort_signed :
      (vs ws : List A)
      → IsMap id vs
      → Permᴰ vs ws
      → sort (λ v. signed_key (id v)) vs ≡ sort (λ v. signed_key (id v)) ws
  sort_signed vs ws h p = sort-eq_of_perm _ p (DistinctKeys-signed id vs h)

-- Two programs with the same definitions, each in hash maps keyed by `i32` ids, serialize alike:
-- the order in which the maps are iterated does not show.
pub serialize_symbols-eq_of_same :
    (to_signed_bytes_be : ℤ → Bytes) (a b : Symbols) (buf : Bytes)
    → IsMap sort_id a.sorts
    → IsMap fun_id a.functions
    → SameProgram a b
    → serialize_symbols to_signed_bytes_be a buf ≡ serialize_symbols to_signed_bytes_be b buf
unfolding serialize_symbols
serialize_symbols-eq_of_same to_signed_bytes_be a b buf hs hf same =
    ∥∥₁_elim same.sorts (Bytes_set _ _) λ p. ∥∥₁_elim same.functions (Bytes_set _ _) λ q.
      rw (sort_signed sort_id a.sorts b.sorts hs p, sort_signed fun_id a.functions b.functions hf q)
