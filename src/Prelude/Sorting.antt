-- ===== src/Prelude/Sorting.antt =====
-- `Vec::sort` with an order on keys: a stable sort. On distinct keys its result does not depend on
-- the order of its input.
use mathlib.Core.List.{Permᴰ}
use mathlib.Core.List.Permᴰ
use Prim.Native.Nat.{ℕ}
use mathlib.Core.Path.{◌≡◌, refl, sym, ◌∙◌, subst}
use mathlib.Core.Logic.{◌≢◌, inl, inr}
use mathlib.Core.Bool.{Bool, true, false}
use mathlib.Core.List.{List, [], ◌∷◌}
use native.Mathlib.Omega.{arith}
use rust_stainless.Prelude.Tests.{leb, Bool-cases, if◌then◌else◌}
use rust_stainless.Prelude.Lists.{All}

module _ {ℓ} {A : Type ℓ} (key : A → ℕ) where
  unfoldable pub insert : A → List A → List A
  insert x [] = x ∷ []
  insert x (y ∷ ys) = if leb (key x) (key y) then x ∷ y ∷ ys else y ∷ insert x ys

  unfoldable pub sort : List A → List A
  unfolding insert
  sort [] = []
  sort (x ∷ xs) = insert x (sort xs)

  abbrev pub DistinctKeys : List A → Type 0
  DistinctKeys [] = Unit
  DistinctKeys (x ∷ xs) = All (λ y. key x ≢ key y) xs × DistinctKeys xs

  insert_comm :
      (x y : A) (l : List A) → key x ≢ key y → insert x (insert y l) ≡ insert y (insert x l)
  unfolding insert
  insert_comm x y [] h = ground arith
  insert_comm x y (z ∷ l) h = ground (arith, insert_comm x y l h)

  perm_if : {u v w : List A} (b : Bool) → Permᴰ u w → Permᴰ v w → Permᴰ (if b then u else v) w
  perm_if true p q = p
  perm_if false p q = q

  insert-perm : (x : A) (l : List A) → Permᴰ (insert x l) (x ∷ l)
  unfolding insert
  insert-perm x [] = Permᴰ.refl _
  insert-perm x (y ∷ l) =
      perm_if _ (Permᴰ.refl _)
        (Permᴰ.trans (Permᴰ.cons refl (insert-perm x l)) (Permᴰ.swap refl refl))

  pub sort-perm : (l : List A) → Permᴰ (sort l) l
  unfolding sort
  sort-perm [] = Permᴰ.nil
  sort-perm (x ∷ l) = Permᴰ.trans (insert-perm x (sort l)) (Permᴰ.cons refl (sort-perm l))

  All-perm : {xs ys : List A} (P : A → Type 0) → Permᴰ xs ys → All P xs → All P ys
  All-perm P Permᴰ.nil h = h
  All-perm P (Permᴰ.cons e p) h = (subst P e h.0, All-perm P p h.1)
  All-perm P (Permᴰ.swap e f) h = (subst P f h.1.0, (subst P e h.0, h.1.1))
  All-perm P (Permᴰ.trans p q) h = All-perm P q (All-perm P p h)

  DistinctKeys-perm : {xs ys : List A} → Permᴰ xs ys → DistinctKeys xs → DistinctKeys ys
  DistinctKeys-perm Permᴰ.nil h = h
  DistinctKeys-perm (Permᴰ.cons {b = b} {l₂ = l₂} e p) h =
      (subst (λ u. All (λ y. key u ≢ key y) l₂) e (All-perm _ p h.0), DistinctKeys-perm p h.1)
  DistinctKeys-perm (Permᴰ.swap {b = b} {b' = b'} {l = l} e f) h =
      subst (λ v. DistinctKeys (v ∷ b' ∷ l)) f
        (subst (λ u. DistinctKeys (b ∷ u ∷ l)) e ((λ q. h.0.0 (sym q), h.1.0), (h.0.1, h.1.1)))
  DistinctKeys-perm (Permᴰ.trans p q) h = DistinctKeys-perm q (DistinctKeys-perm p h)

  pub sort-eq_of_perm : {xs ys : List A} → Permᴰ xs ys → DistinctKeys xs → sort xs ≡ sort ys
  unfolding sort
  sort-eq_of_perm Permᴰ.nil h = refl
  sort-eq_of_perm (Permᴰ.cons e p) h = λ i. insert (e i) (sort-eq_of_perm p h.1 i)
  sort-eq_of_perm (Permᴰ.swap {a = a} {b = b} {l = l} e f) h =
      insert_comm a b (sort l) h.0.0 ∙ λ i. insert (f i) (insert (e i) (sort l))
  sort-eq_of_perm (Permᴰ.trans p q) h =
      sort-eq_of_perm p h ∙ sort-eq_of_perm q (DistinctKeys-perm p h)

  pub insert-All : (P : A → Type 0) (x : A) (l : List A) → P x → All P l → All P (insert x l)
  unfolding insert
  insert-All P x [] p h = (p, tt)
  insert-All P x (y ∷ l) p h = elim (Bool-cases (leb (key x) (key y))) [
    | inl e ↦ rw e (p, h)
    | inr e ↦ rw e (h.0, insert-All P x l p h.1)
  ]

  pub sort-All : (P : A → Type 0) (l : List A) → All P l → All P (sort l)
  unfolding sort
  sort-All P [] h = tt
  sort-All P (x ∷ l) h = insert-All P x (sort l) h.0 (sort-All P l h.1)
