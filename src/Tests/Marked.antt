-- ===== src/Tests/Marked.antt =====
-- The flags of a function with two attributes, and the theorems applied to them.
use rust_stainless.Prelude.{◌≡◌, List, [], ◌∷◌, ◌&&◌}
use rust_stainless.Prelude.Texts.{codes}
use rust_stainless.Flags.{Token, Args, Attribute, extract_flags, contains, is_var}
use rust_stainless.Flags.Marks.{any, args_mark_carrier, args_mark_symbol, has_name, args_of, set_of}
use rust_stainless.Flags.Sound.{extract_flags-carrier, extract_flags-symbol}

-- `#[clippy::stainless::external]` and `#[clippy::stainless::var(fn, x, 0)]`
abbrev attributes : List Attribute
attributes =
    Attribute.normal (codes "clippy" ∷ codes "stainless" ∷ codes "external" ∷ []) Args.empty
    ∷ Attribute.normal (codes "clippy" ∷ codes "stainless" ∷ codes "var" ∷ []) (
        Args.delimited (
          Token.ident (codes "fn")
          ∷ Token.comma
          ∷ Token.ident (codes "x")
          ∷ Token.comma
          ∷ Token.literal (codes "0")
          ∷ []))
    ∷ []

extract_flags-carrier_example :
    contains (extract_flags attributes).carrier_flags is_var
    ≡ any (λ attr. has_name is_var attr && args_mark_carrier (args_of attr)) attributes
extract_flags-carrier_example = extract_flags-carrier is_var attributes

extract_flags-symbol_example :
    contains (set_of (extract_flags attributes).flags_by_symbol (codes "x")) is_var
    ≡ any (λ attr. has_name is_var attr && args_mark_symbol (codes "x") (args_of attr)) attributes
extract_flags-symbol_example = extract_flags-symbol (codes "x") is_var attributes
