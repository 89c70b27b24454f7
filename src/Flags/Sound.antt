-- ===== src/Flags/Sound.antt =====
-- Which flags `extract_flags` of stainless_extraction/src/flags.rs finds.
use rust_stainless.Prelude.{
  ◌≡◌, sym, ap, ◌∙◌, subst, List, [], ◌∷◌, true, ◌||◌, ◌&&◌, Option, none, some, Bool-cases, inl,
  inr, arith,
}
use rust_stainless.Prelude.Texts.{Text, codes, text_eq, text_eq→eq, text_eq_refl}
use rust_stainless.Flags.{
  Flag, flag_eq, from_name, contains, add, Token, comma, other, ident, literal, Args, empty, eq,
  delimited, Attribute, normal, doc_comment, Extracted, add_by_symbol, add_to_carrier,
  add_to_symbol, add_args, add_flag, add_attribute, add_attributes, extract_flags,
}
use rust_stainless.Flags.Marks.{
  is_flag, is_flag-from_name, contains-add, known, is_fn, refers_to, any, args_mark_carrier,
  args_mark_symbol, has_name, args_of, set_of,
}

-- The flags of the carrier

carrier-add_args :
    (g f : Flag) (tokens : List Token) (x : Extracted)
    → contains (add_args g tokens x).carrier_flags f
      ≡ (contains x.carrier_flags f || (flag_eq g f && any is_fn (known tokens)))
unfolding add_args add_to_carrier add_to_symbol
carrier-add_args g f [] x = ground arith
carrier-add_args g f (comma ∷ tokens) x = carrier-add_args g f tokens x
carrier-add_args g f (other ∷ tokens) x = ground arith
carrier-add_args g f (literal s ∷ tokens) x = carrier-add_args g f tokens (add_to_symbol g s x)
carrier-add_args g f (ident s ∷ tokens) x = elim (Bool-cases (text_eq s (codes "fn"))) [
  | inl e ↦ rw e (
      ground
        (arith, carrier-add_args g f tokens (add_to_carrier g x), contains-add x.carrier_flags g f))
  | inr e ↦ rw e (ground (arith, carrier-add_args g f tokens (add_to_symbol g s x)))
]

carrier-add_flag :
    (o : Option Flag) (f : Flag) (args : Args) (x : Extracted)
    → contains (add_flag o args x).carrier_flags f
      ≡ (contains x.carrier_flags f || (is_flag o f && args_mark_carrier args))
unfolding add_flag add_to_carrier
carrier-add_flag none f args x = ground arith
carrier-add_flag (some g) f empty x = ground (arith, contains-add x.carrier_flags g f)
carrier-add_flag (some g) f eq x = ground arith
carrier-add_flag (some g) f (delimited tokens) x = carrier-add_args g f tokens x

carrier-add_attribute :
    (f : Flag) (attr : Attribute) (x : Extracted)
    → contains (add_attribute attr x).carrier_flags f
      ≡ (contains x.carrier_flags f || (has_name f attr && args_mark_carrier (args_of attr)))
unfolding add_attribute
carrier-add_attribute f (normal (first ∷ second ∷ third ∷ []) args) x =
    elim (Bool-cases (text_eq second (codes "stainless"))) [
      | inl e ↦ rw (e, ← is_flag-from_name third f) (carrier-add_flag (from_name third) f args x)
      | inr e ↦ rw e (ground arith)
    ]
carrier-add_attribute f doc_comment x = ground arith
carrier-add_attribute f _ x = ground arith

carrier-add_attributes :
    (f : Flag) (attrs : List Attribute) (x : Extracted)
    → contains (add_attributes attrs x).carrier_flags f ≡ (
        contains x.carrier_flags f
        || any (λ attr. has_name f attr && args_mark_carrier (args_of attr)) attrs)
unfolding add_attributes
carrier-add_attributes f [] x = ground arith
carrier-add_attributes f (attr ∷ attrs) x =
    ground
      (arith, carrier-add_attributes f attrs (add_attribute attr x), carrier-add_attribute f attr x)

-- The carrier has exactly the flags that an attribute `_::stainless::name` gives it, with no arguments
-- or with `fn` among its known ones.
pub extract_flags-carrier :
    (f : Flag) (attrs : List Attribute)
    → contains (extract_flags attrs).carrier_flags f
      ≡ any (λ attr. has_name f attr && args_mark_carrier (args_of attr)) attrs
unfolding extract_flags
extract_flags-carrier f attrs = carrier-add_attributes f attrs _

-- The flags of parameters and fields

same_text : (u t s : Text) → text_eq u s ≡ true → text_eq t s ≡ true → text_eq u t ≡ true
same_text u t s p q =
    subst (λ v. text_eq u v ≡ true) (text_eq→eq u s p ∙ sym (text_eq→eq t s q)) (text_eq_refl u)

symbol-add :
    (s t : Text) (g f : Flag) (entries : List (Text × List Flag))
    → contains (set_of (add_by_symbol entries t g) s) f
      ≡ (contains (set_of entries s) f || (flag_eq g f && text_eq t s))
unfolding add_by_symbol add
symbol-add s t g f [] = ground arith
symbol-add s t g f ((u, set) ∷ entries) = elim (Bool-cases (text_eq u t)) [
  | inl e ↦ rw e (ground (arith, ap (λ v. text_eq v s) (text_eq→eq u t e), contains-add set g f))
  | inr e ↦ rw e (ground (arith, same_text u t s, symbol-add s t g f entries))
]

symbol-add_args :
    (s : Text) (g f : Flag) (tokens : List Token) (x : Extracted)
    → contains (set_of (add_args g tokens x).flags_by_symbol s) f ≡ (
        contains (set_of x.flags_by_symbol s) f
        || (flag_eq g f && any (refers_to s) (known tokens)))
unfolding add_args add_to_carrier add_to_symbol
symbol-add_args s g f [] x = ground arith
symbol-add_args s g f (comma ∷ tokens) x = symbol-add_args s g f tokens x
symbol-add_args s g f (other ∷ tokens) x = ground arith
symbol-add_args s g f (literal t ∷ tokens) x = ground (
  arith,
  symbol-add_args s g f tokens (add_to_symbol g t x),
  symbol-add s t g f x.flags_by_symbol,
)
symbol-add_args s g f (ident t ∷ tokens) x = elim (Bool-cases (text_eq t (codes "fn"))) [
  | inl e ↦ rw e (ground (arith, symbol-add_args s g f tokens (add_to_carrier g x)))
  | inr e ↦ rw e (
      ground (
        arith,
        symbol-add_args s g f tokens (add_to_symbol g t x),
        symbol-add s t g f x.flags_by_symbol,
      ))
]

symbol-add_flag :
    (s : Text) (o : Option Flag) (f : Flag) (args : Args) (x : Extracted)
    → contains (set_of (add_flag o args x).flags_by_symbol s) f
      ≡ (contains (set_of x.flags_by_symbol s) f || (is_flag o f && args_mark_symbol s args))
unfolding add_flag add_to_carrier
symbol-add_flag s none f args x = ground arith
symbol-add_flag s (some g) f empty x = ground arith
symbol-add_flag s (some g) f eq x = ground arith
symbol-add_flag s (some g) f (delimited tokens) x = symbol-add_args s g f tokens x

symbol-add_attribute :
    (s : Text) (f : Flag) (attr : Attribute) (x : Extracted)
    → contains (set_of (add_attribute attr x).flags_by_symbol s) f ≡ (
        contains (set_of x.flags_by_symbol s) f
        || (has_name f attr && args_mark_symbol s (args_of attr)))
unfolding add_attribute
symbol-add_attribute s f (normal (first ∷ second ∷ third ∷ []) args) x =
    elim (Bool-cases (text_eq second (codes "stainless"))) [
      | inl e ↦ rw (e, ← is_flag-from_name third f) (symbol-add_flag s (from_name third) f args x)
      | inr e ↦ rw e (ground arith)
    ]
symbol-add_attribute s f doc_comment x = ground arith
symbol-add_attribute s f _ x = ground arith

symbol-add_attributes :
    (s : Text) (f : Flag) (attrs : List Attribute) (x : Extracted)
    → contains (set_of (add_attributes attrs x).flags_by_symbol s) f ≡ (
        contains (set_of x.flags_by_symbol s) f
        || any (λ attr. has_name f attr && args_mark_symbol s (args_of attr)) attrs)
unfolding add_attributes
symbol-add_attributes s f [] x = ground arith
symbol-add_attributes s f (attr ∷ attrs) x =
    ground (
      arith,
      symbol-add_attributes s f attrs (add_attribute attr x),
      symbol-add_attribute s f attr x,
    )

-- A parameter or field has exactly the flags that an attribute `_::stainless::name` gives it by its
-- symbol, as an identifier other than `fn` or as an integer, before the first unknown argument.
pub extract_flags-symbol :
    (s : Text) (f : Flag) (attrs : List Attribute)
    → contains (set_of (extract_flags attrs).flags_by_symbol s) f
      ≡ any (λ attr. has_name f attr && args_mark_symbol s (args_of attr)) attrs
unfolding extract_flags
extract_flags-symbol s f attrs = symbol-add_attributes s f attrs _
