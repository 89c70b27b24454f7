-- ===== src/Spec.antt =====
-- Spec functions are found by their names. stainless_extraction/src/spec.rs reads the names;
-- `Spec.Macro` is libstainless_macros/implementation.rs, which makes them. The enum `SpecType` and its
-- `TryFrom` are the same in both. `char::is_numeric` is a parameter: it covers all of Unicode.
pub mod Names
pub mod Macro
pub mod Expansion
use rust_stainless.Prelude.{
  ℕ, suc, ◌+◌, List, [], ◌∷◌, ◌++◌, Bool, true, ◌&&◌, Option, none, some, if◌then◌else◌,
}
use rust_stainless.Prelude.Texts.{Text, codes, text_eq, split, join, decimal}

pub data SpecType : Type 0 where
  pre post measure : SpecType

-- `SpecType::name`
abbrev pub name : SpecType → Text
name pre = codes "pre"
name post = codes "post"
name measure = codes "measure"

-- `TryFrom<&str>` and `TryFrom<String>`
unfoldable pub try_from : Text → Option SpecType
try_from s =
    if text_eq s (codes "pre")
    then some pre
    else if text_eq s (codes "post")
    then some post
    else if text_eq s (codes "measure")
    then some measure
    else none

abbrev pub underscore : ℕ
underscore = b'_'

abbrev pub all : (ℕ → Bool) → Text → Bool
all p [] = true
all p (c ∷ s) = p c && all p s

abbrev pub with_name : Text → Option SpecType → Option (SpecType × Text)
with_name fn_name none = none
with_name fn_name (some sp) = some (sp, fn_name)

module _ (is_numeric : ℕ → Bool) where
  -- `["", "", spec_type, index, ..] if index.chars().all(char::is_numeric)`
  abbrev pub parse_parts : List Text → Option (SpecType × Text)
  parse_parts ([] ∷ [] ∷ spec_type ∷ index ∷ rest) =
      if all is_numeric index then with_name (join underscore rest) (try_from spec_type) else none
  parse_parts _ = none

  unfoldable pub parse_spec_type_fn_name : Text → Option (SpecType × Text)
  unfolding try_from
  parse_spec_type_fn_name str = parse_parts (split underscore str)

-- `format_ident!("__{}_{}_{}", spec.typ.name(), index + 1, fn_name)` of the macro.
unfoldable pub spec_ident : SpecType → ℕ → Text → Text
spec_ident typ index fn_name =
    underscore
    ∷ underscore
    ∷ (name typ ++ underscore ∷ (decimal (index + 1) ++ underscore ∷ fn_name))
