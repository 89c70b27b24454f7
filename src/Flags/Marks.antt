-- ===== src/Flags/Marks.antt =====
-- The flags that `extract_flags` of stainless_extraction/src/flags.rs finds, against the attributes.
use rust_stainless.Prelude.{
  ◌≡◌, refl, subst, All, not, ◌⊎◌, List, [], ◌∷◌, Bool, true, false, ◌||◌, ◌&&◌, Option, none, some,
  if◌then◌else◌, Bool-cases, inl, inr, arith,
}
use rust_stainless.Prelude.Texts.{Text, codes, text_eq, text_eq→eq}
use rust_stainless.Flags.{
  Flag, extern, is_pure, is_mutable, is_var, law, flag_eq, name, flags, from_name, contains, add,
  Token, comma, other, ident, literal, Args, empty, eq, delimited, Attribute, normal, doc_comment,
}

flag_eq→eq : (f g : Flag) → flag_eq f g ≡ true → f ≡ g
flag_eq→eq extern extern h = refl
flag_eq→eq is_pure is_pure h = refl
flag_eq→eq is_mutable is_mutable h = refl
flag_eq→eq is_var is_var h = refl
flag_eq→eq law law h = refl
flag_eq→eq f g h = cc

abbrev pub is_flag : Option Flag → Flag → Bool
is_flag none f = false
is_flag (some g) f = flag_eq g f

found : (g f : Flag) → is_flag (from_name (name g)) f ≡ text_eq (name f) (name g)
unfolding from_name
found extern extern = refl
found extern f = refl
found is_pure extern = refl
found is_pure f = refl
found is_mutable extern = refl
found is_mutable f = refl
found is_var extern = refl
found is_var f = refl
found law extern = refl
found law f = refl

hit :
    (g f : Flag) (s : Text)
    → text_eq (name g) s ≡ true
    → is_flag (from_name s) f ≡ text_eq (name f) s
hit g f s e =
    subst (λ t. is_flag (from_name t) f ≡ text_eq (name f) t) (text_eq→eq (name g) s e) (found g f)

abbrev Differs : Text → List Flag → Type 0
Differs s gs = All (λ g. text_eq (name g) s ≡ false) gs

missed : (f : Flag) (s : Text) → Differs s flags → is_flag (from_name s) f ≡ text_eq (name f) s
unfolding from_name
missed extern s (a, (b, (c, (d, (e, u))))) = rw (a, b, c, d, e) refl
missed is_pure s (a, (b, (c, (d, (e, u))))) = rw (a, b, c, d, e) refl
missed is_mutable s (a, (b, (c, (d, (e, u))))) = rw (a, b, c, d, e) refl
missed is_var s (a, (b, (c, (d, (e, u))))) = rw (a, b, c, d, e) refl
missed law s (a, (b, (c, (d, (e, u))))) = rw (a, b, c, d, e) refl

-- A flag is found under its name, and under no other.
pub is_flag-from_name : (s : Text) (f : Flag) → is_flag (from_name s) f ≡ text_eq (name f) s
is_flag-from_name s f = elim (tried s flags) [ inl (g, e) ↦ hit g f s e | inr d ↦ missed f s d ]
  where
    tried : (s : Text) (gs : List Flag) → ((g : Flag) × (text_eq (name g) s ≡ true)) ⊎ Differs s gs
    tried s [] = inr tt
    tried s (g ∷ gs) = elim (Bool-cases (text_eq (name g) s)) [
      | inl e ↦ inl (g, e)
      | inr e ↦ or_else e (tried s gs)
    ]
      where
        or_else :
            text_eq (name g) s ≡ false
            → ((h : Flag) × (text_eq (name h) s ≡ true)) ⊎ Differs s gs
            → ((h : Flag) × (text_eq (name h) s ≡ true)) ⊎ Differs s (g ∷ gs)
        or_else e (inl h) = inl h
        or_else e (inr d) = inr (e, d)

pub contains-add :
    (set : List Flag) (g f : Flag) → contains (add set g) f ≡ (contains set f || flag_eq g f)
unfolding add
contains-add set g f = elim (Bool-cases (contains set g)) [
  | inl e ↦ rw e (elim (Bool-cases (flag_eq g f)) [
    | inl h ↦ rw (h, subst (λ k. contains set k ≡ true) (flag_eq→eq g f h) e) refl
    | inr h ↦ rw h (ground arith)
  ])
  | inr e ↦ rw e (ground arith)
]

-- The arguments before the first unknown one.
abbrev pub known : List Token → List Token
known [] = []
known (other ∷ tokens) = []
known (comma ∷ tokens) = comma ∷ known tokens
known (ident s ∷ tokens) = ident s ∷ known tokens
known (literal s ∷ tokens) = literal s ∷ known tokens

-- `fn` stands for the function itself, every other identifier or integer for a parameter or field.
abbrev pub is_fn : Token → Bool
is_fn (ident s) = text_eq s (codes "fn")
is_fn _ = false

abbrev pub refers_to : Text → Token → Bool
refers_to s (ident t) = not (text_eq t (codes "fn")) && text_eq t s
refers_to s (literal t) = text_eq t s
refers_to s _ = false

abbrev pub any {ℓ} : {A : Type ℓ} → (A → Bool) → List A → Bool
any p [] = false
any p (x ∷ xs) = p x || any p xs

abbrev pub args_mark_carrier : Args → Bool
args_mark_carrier empty = true
args_mark_carrier eq = false
args_mark_carrier (delimited tokens) = any is_fn (known tokens)

abbrev pub args_mark_symbol : Text → Args → Bool
args_mark_symbol s (delimited tokens) = any (refers_to s) (known tokens)
args_mark_symbol s _ = false

-- An attribute `_::stainless::flag`.
abbrev pub has_name : Flag → Attribute → Bool
has_name f (normal (first ∷ second ∷ third ∷ []) args) =
    text_eq second (codes "stainless") && text_eq (name f) third
has_name f _ = false

abbrev pub args_of : Attribute → Args
args_of (normal path args) = args
args_of doc_comment = eq

abbrev pub set_of : List (Text × List Flag) → Text → List Flag
set_of [] s = []
set_of ((t, set) ∷ entries) s = if text_eq t s then set else set_of entries s
