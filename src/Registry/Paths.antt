-- ===== src/Registry/Paths.antt =====
-- The last part of the path of a definition, in `register_def` of stainless_extraction/src/lib.rs.
use rust_stainless.Prelude.{
  ℕ, ◌-◌, ◌≡◌, inl, inr, refl, List, [], ◌∷◌, ◌++◌, Bool, true, false, some, length, ◌==◌,
  Bool-cases,
}
use rust_stainless.Ser.{Bytes}
use rust_stainless.Ast.Encodable.{last}
use rust_stainless.Spec.{all}
use rust_stainless.Registry.{Tcx, take, underscored, symbol_path_from_def_id, split_path, on_head}

pub last-append : {A : Type 0} (xs : List A) (y : A) → last (xs ++ y ∷ []) ≡ some y
last-append [] y = refl
last-append (x ∷ []) y = refl
last-append (x ∷ z ∷ xs) y = last-append (z ∷ xs) y

cons-last : {A : Type 0} (x : A) (xs : List A) → (y : A) × (last (x ∷ xs) ≡ some y)
cons-last x [] = (x, refl)
cons-last x (z ∷ xs) = cons-last z xs

on_head-last : (c : ℕ) (ps : List Bytes) → (y : Bytes) × (last (on_head c ps) ≡ some y)
on_head-last c [] = (c ∷ [], refl)
on_head-last c (p ∷ ps) = cons-last (c ∷ p) ps

-- A path has a last part.
split_path-last : (colon : Bool) (s : Bytes) → (y : Bytes) × (last (split_path colon s) ≡ some y)
unfolding split_path
split_path-last colon [] = cons-last _ []
split_path-last true (c ∷ s) = elim (Bool-cases (c == b':')) [
  | inl e ↦ rw e (cons-last [] (split_path false s))
  | inr e ↦ rw e (on_head-last b':' (on_head c (split_path false s)))
]
split_path-last false (c ∷ s) = elim (Bool-cases (c == b':')) [
  | inl e ↦ rw e (split_path-last true s)
  | inr e ↦ rw e (on_head-last c (split_path false s))
]

module _ (tcx : Tcx) where
  pub underscored-last :
      (name : Bytes) (path : List Bytes)
      → last path ≡ some name
      → let named = underscored tcx name path in last named.1 ≡ some named.0
  unfolding underscored
  underscored-last name path h = elim (Bool-cases (all tcx.is_numeric (tcx.chars name))) [
    | inl e ↦ rw e (last-append (take (length path - 1) path) (b'_' ∷ name))
    | inr e ↦ rw e h
  ]

  pub path-last :
      (def_id : tcx.DefId)
      → (name : Bytes) × (last (symbol_path_from_def_id tcx def_id) ≡ some name)
  unfolding symbol_path_from_def_id
  path-last def_id = split_path-last false (tcx.def_path_str def_id)
