-- ===== src/Spec/Names.antt =====
-- The names that the macro makes and the names that the extraction accepts.
use rust_stainless.Prelude.{
  ℕ, ◌+◌, ◌≤◌, ◌<◌, ◌≡◌, refl, sym, ◌⊎◌, inl, inr, List, [], ◌∷◌, ◌++◌, Bool, true, Option, some,
  All, arith, Bool-cases, subst,
}
use rust_stainless.Prelude.Texts.{
  Text, codes, text_eq→eq, split, join, split-append, join-split, decimal, decimal-IsDigit, IsDigit,
}
use rust_stainless.Spec.{
  SpecType, pre, post, measure, name, try_from, underscore, all, with_name, parse_parts,
  parse_spec_type_fn_name, spec_ident,
}

-- Decimal digits are numeric.
abbrev pub KnowsDigits : (ℕ → Bool) → Type 0
KnowsDigits is_numeric = (c : ℕ) → 48 ≤ c → c < 58 → is_numeric c ≡ true

digits_plain : (s : Text) → All IsDigit s → All (λ c. ¬ (c ≡ underscore)) s
digits_plain [] h = tt
digits_plain (c ∷ s) h = ((λ e. omega arith), digits_plain s h.1)

all_digits :
    (is_numeric : ℕ → Bool)
    → KnowsDigits is_numeric
    → (s : Text) → All IsDigit s
    → all is_numeric s ≡ true
all_digits is_numeric k [] h = refl
all_digits is_numeric k (c ∷ s) h = rw (k c h.0.0 h.0.1) (all_digits is_numeric k s h.1)

name_plain : (typ : SpecType) → All (λ c. ¬ (c ≡ underscore)) (name typ)
name_plain pre = omega arith
name_plain post = omega arith
name_plain measure = omega arith

try_from-name : (typ : SpecType) → try_from (name typ) ≡ some typ
unfolding try_from
try_from-name pre = refl
try_from-name post = refl
try_from-name measure = refl

split-spec_ident :
    (typ : SpecType) (index : ℕ) (fn_name : Text)
    → split underscore (spec_ident typ index fn_name)
      ≡ [] ∷ [] ∷ name typ ∷ decimal (index + 1) ∷ split underscore fn_name
unfolding spec_ident
split-spec_ident typ index fn_name = simp (
  split-append underscore []
      (underscore ∷ (name typ ++ underscore ∷ (decimal (index + 1) ++ underscore ∷ fn_name))) tt,
  split-append underscore []
      (name typ ++ underscore ∷ (decimal (index + 1) ++ underscore ∷ fn_name)) tt,
  split-append underscore (name typ) (decimal (index + 1) ++ underscore ∷ fn_name) (name_plain typ),
  split-append underscore (decimal (index + 1)) fn_name
      (digits_plain _ (decimal-IsDigit (index + 1))),
)

-- The extraction reads the name of the spec function that the macro makes: whatever the type and the
-- index of the spec and the name of the function, underscores in it included, it finds the type and
-- that name, if decimal digits are numeric.
pub parse-spec_ident :
    (is_numeric : ℕ → Bool) (typ : SpecType) (index : ℕ) (fn_name : Text)
    → KnowsDigits is_numeric
    → parse_spec_type_fn_name is_numeric (spec_ident typ index fn_name) ≡ some (typ, fn_name)
unfolding parse_spec_type_fn_name
parse-spec_ident is_numeric typ index fn_name k = rw (
  split-spec_ident typ index fn_name,
  all_digits is_numeric k _ (decimal-IsDigit (index + 1)),
  try_from-name typ,
  join-split underscore fn_name,
)

try_from_sound : (s : Text) (typ : SpecType) → try_from s ≡ some typ → s ≡ name typ
unfolding try_from
try_from_sound s typ h =
    ground (
      arith,
      text_eq→eq s (codes "pre"),
      text_eq→eq s (codes "post"),
      text_eq→eq s (codes "measure"),
    )

-- `__{spec_type}_{index}` and the rest of the name, which may be missing.
abbrev pub SpecName : (ℕ → Bool) → Text → SpecType → Text → Type 0
SpecName is_numeric str typ fn_name =
    (index : Text) × (all is_numeric index ≡ true)
    × ((str ≡ underscore ∷ underscore ∷ (name typ ++ underscore ∷ (index ++ underscore ∷ fn_name)))
        ⊎ ((str ≡ underscore ∷ underscore ∷ (name typ ++ underscore ∷ index)) × (fn_name ≡ [])))

with_name-some :
    (n m : Text) (o : Option SpecType) (typ : SpecType)
    → with_name n o ≡ some (typ, m)
    → (o ≡ some typ) × (n ≡ m)
with_name-some n m o typ h = ground arith

parse_parts_sound :
    (is_numeric : ℕ → Bool) (parts : List Text) (typ : SpecType) (fn_name : Text)
    → parse_parts is_numeric parts ≡ some (typ, fn_name)
    → SpecName is_numeric (join underscore parts) typ fn_name
parse_parts_sound is_numeric ([] ∷ [] ∷ spec_type ∷ index ∷ rest) typ fn_name h =
    elim (Bool-cases (all is_numeric index)) [
      | inr e ↦ cc (rw e at h)
      | inl e ↦
          let (o, n) = with_name-some _ fn_name (try_from spec_type) typ (rw e at h) in
          let t : spec_type ≡ name typ = try_from_sound spec_type typ o in
          (index, e, shape rest t n)
    ]
  where
    shape :
        (rest : List Text)
        → spec_type ≡ name typ
        → join underscore rest ≡ fn_name
        → (join underscore ([] ∷ [] ∷ spec_type ∷ index ∷ rest)
            ≡ underscore ∷ underscore ∷ (name typ ++ underscore ∷ (index ++ underscore ∷ fn_name)))
          ⊎ ((join underscore ([] ∷ [] ∷ spec_type ∷ index ∷ rest)
                ≡ underscore ∷ underscore ∷ (name typ ++ underscore ∷ index))
              × (fn_name ≡ []))
    shape [] t n = inr (rw t, sym n)
    shape (r ∷ rs) t n = inl (rw (t, ← n))
parse_parts_sound is_numeric _ typ fn_name h = cc

-- Every name that is taken for that of a spec function has the documented form
-- `__{spec_type}_{index}_{fn_name}`, with an index of numeric characters, possibly none; or it ends
-- after the index, and then the function's name is empty.
pub parse_sound :
    (is_numeric : ℕ → Bool) (str : Text) (typ : SpecType) (fn_name : Text)
    → parse_spec_type_fn_name is_numeric str ≡ some (typ, fn_name)
    → SpecName is_numeric str typ fn_name
unfolding parse_spec_type_fn_name
parse_sound is_numeric str typ fn_name h =
    subst (λ s. SpecName is_numeric s typ fn_name) (join-split underscore str)
      (parse_parts_sound is_numeric (split underscore str) typ fn_name h)
