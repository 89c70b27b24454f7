-- ===== src/Prelude/Texts.antt =====
-- Texts as lists of code points: comparison, `str::split` and `join` on a character, and the decimal
-- notation of `format!`.
use Prim.Native.Char.{code}
use Prim.Native.String.{String}
use Prim.Native.Nat.{ℕ, zero, suc, ◌+◌, ◌*◌, ◌-◌, ◌/◌, ◌%◌, ◌<◌, ◌≤◌}
use mathlib.Core.Path.{◌≡◌, refl, ap}
use mathlib.Core.Bool.{Bool, true, false, ◌&&◌}
use mathlib.Core.List.{List, [], ◌∷◌, ◌++◌}
use native.Mathlib.Omega.{arith}
use rust_stainless.Prelude.Tests.{ltb, ◌==◌, Bool-cases, if◌then◌else◌}
use mathlib.Core.Logic.{inl, inr}
use rust_stainless.Prelude.Lists.{All}

abbrev pub Text : Type 0
Text = List ℕ

-- The code points of a literal.
abbrev pub codes : String → Text
codes String.[] = []
codes (String.◌∷◌ c s) = code c ∷ codes s

abbrev pub text_eq : Text → Text → Bool
text_eq [] [] = true
text_eq (a ∷ s) (b ∷ t) = a == b && text_eq s t
text_eq _ _ = false

pub text_eq→eq : (s t : Text) → text_eq s t ≡ true → s ≡ t
text_eq→eq [] [] h = refl
text_eq→eq [] (b ∷ t) h = cc
text_eq→eq (a ∷ s) [] h = cc
text_eq→eq (a ∷ s) (b ∷ t) h = ground (arith, text_eq→eq s t)

pub text_eq_refl : (s : Text) → text_eq s s ≡ true
text_eq_refl [] = refl
text_eq_refl (a ∷ s) = ground (arith, text_eq_refl s)

abbrev on_head : ℕ → List Text → List Text
on_head c [] = (c ∷ []) ∷ []
on_head c (p ∷ ps) = (c ∷ p) ∷ ps

-- `s.split(c)`: never empty, and with an empty part between two neighbouring `c`.
unfoldable pub split : ℕ → Text → List Text
split c [] = [] ∷ []
split c (x ∷ s) = let rest = split c s in if x == c then [] ∷ rest else on_head x rest

abbrev pub join : ℕ → List Text → Text
join c [] = []
join c (p ∷ []) = p
join c (p ∷ q ∷ ps) = p ++ c ∷ join c (q ∷ ps)

pub split-append :
    (c : ℕ) (p s : Text) → All (λ x. ¬ (x ≡ c)) p → split c (p ++ c ∷ s) ≡ p ∷ split c s
unfolding split
split-append c [] s h = ground arith
split-append c (x ∷ p) s h = ground (arith, split-append c p s h.1)

join-on_head : (c x : ℕ) (ps : List Text) → join c (on_head x ps) ≡ x ∷ join c ps
join-on_head c x [] = refl
join-on_head c x (p ∷ []) = refl
join-on_head c x (p ∷ q ∷ ps) = refl

join-cons_on_head :
    (c x : ℕ) (ps : List Text) → join c ([] ∷ on_head x ps) ≡ c ∷ join c (on_head x ps)
join-cons_on_head c x [] = refl
join-cons_on_head c x (p ∷ ps) = refl

join-cons : (c : ℕ) (s : Text) → join c ([] ∷ split c s) ≡ c ∷ join c (split c s)
unfolding split
join-cons c [] = refl
join-cons c (x ∷ s) = elim (Bool-cases (x == c)) [
  | inl e ↦ rw e
  | inr e ↦ rw e (join-cons_on_head c x (split c s))
]

pub join-split : (c : ℕ) (s : Text) → join c (split c s) ≡ s
unfolding split
join-split c [] = refl
join-split c (x ∷ s) = elim (Bool-cases (x == c)) [
  | inl e ↦ rw (e, join-cons, join-split c s) (ap (λ (a : ℕ). a ∷ s) (ground arith))
  | inr e ↦ rw (e, join-on_head, join-split c s)
]

-- The decimal notation of a number, by at most as many divisions as the fuel.
unfoldable pub decimal_fuel : ℕ → ℕ → Text
decimal_fuel zero n = []
decimal_fuel (suc f) n =
    let rest = decimal_fuel f (n / 10) ++ (48 + n % 10) ∷ [] in
    if ltb n 10 then (48 + n) ∷ [] else rest

unfoldable pub decimal : ℕ → Text
unfolding decimal_fuel
decimal n = decimal_fuel (suc n) n

abbrev pub IsDigit : ℕ → Type 0
IsDigit c = (48 ≤ c) × (c < 58)

pub All-append {ℓ} :
    {A : Type ℓ} (P : A → Type 0) (xs ys : List A) → All P xs → All P ys → All P (xs ++ ys)
All-append P [] ys h k = k
All-append P (x ∷ xs) ys h k = (h.0, All-append P xs ys h.1 k)

decimal_fuel-IsDigit : (f n : ℕ) → All IsDigit (decimal_fuel f n)
unfolding decimal_fuel
decimal_fuel-IsDigit zero n = tt
decimal_fuel-IsDigit (suc f) n = elim (Bool-cases (ltb n 10)) [
  | inl e ↦ rw e (ground arith)
  | inr e ↦ rw e (All-append IsDigit _ _ (decimal_fuel-IsDigit f (n / 10)) (omega arith))
]

pub decimal-IsDigit : (n : ℕ) → All IsDigit (decimal n)
unfolding decimal
decimal-IsDigit n = decimal_fuel-IsDigit (suc n) n

-- The number that a text of digits stands for.
pub read_from : ℕ → Text → ℕ
read_from acc [] = acc
read_from acc (c ∷ s) = read_from (acc * 10 + (c - 48)) s

read_from-append :
    (acc : ℕ) (s : Text) (c : ℕ) → read_from acc (s ++ c ∷ []) ≡ read_from acc s * 10 + (c - 48)
unfolding read_from
read_from-append acc [] c = refl
read_from-append acc (x ∷ s) c = read_from-append (acc * 10 + (x - 48)) s c

read-decimal_fuel : (f n : ℕ) → n < f → read_from 0 (decimal_fuel f n) ≡ n
unfolding read_from decimal_fuel
read-decimal_fuel zero n h = absurd (omega arith)
read-decimal_fuel (suc f) n h = elim (Bool-cases (ltb n 10)) [
  | inl e ↦ rw e (ground arith)
  | inr e ↦ rw (e, read_from-append, read-decimal_fuel f (n / 10) (ground arith)) (omega arith)
]

-- The fuel is enough: the notation of a number stands for the number.
pub read-decimal : (n : ℕ) → read_from 0 (decimal n) ≡ n
unfolding decimal
read-decimal n = read-decimal_fuel (suc n) n (omega arith)
