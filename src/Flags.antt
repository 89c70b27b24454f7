-- ===== src/Flags.antt =====
-- stainless_extraction/src/flags.rs: the flags that attributes give to a function or type and to its
-- parameters or fields. An attribute of rustc is the data `Attribute`; a symbol is its text. A set of
-- flags is a list without repetitions, a map from symbols an association list.
pub mod Marks
pub mod Sound
use rust_stainless.Prelude.{
  List, [], ◌∷◌, Bool, true, false, ◌||◌, ◌&&◌, Option, none, some, if◌then◌else◌, map,
}
use rust_stainless.Prelude.Texts.{Text, codes, text_eq}
use rust_stainless.Ast.Kinds.{flg}
use rust_stainless.Ast.Value.{Value}
use rust_stainless.Factory.{into}
use rust_stainless.Factory.Definitions

pub data Flag : Type 0 where
  extern is_pure is_mutable is_var law : Flag

abbrev pub flag_eq : Flag → Flag → Bool
flag_eq extern extern = true
flag_eq is_pure is_pure = true
flag_eq is_mutable is_mutable = true
flag_eq is_var is_var = true
flag_eq law law = true
flag_eq _ _ = false

-- `Flag::name`
abbrev pub name : Flag → Text
name extern = codes "external"
name is_pure = codes "pure"
name is_mutable = codes "mutable"
name is_var = codes "var"
name law = codes "law"

-- `FLAGS`
abbrev pub flags : List Flag
flags = extern ∷ is_pure ∷ is_mutable ∷ is_var ∷ law ∷ []

-- The entry of `FLAGS_BY_NAME`, which holds each of `FLAGS` under its name.
abbrev pub by_name : Text → List Flag → Option Flag
by_name s [] = none
by_name s (flag ∷ rest) = if text_eq (name flag) s then some flag else by_name s rest

-- `Flag::from_name`
unfoldable pub from_name : Text → Option Flag
from_name s = by_name s flags

abbrev pub contains : List Flag → Flag → Bool
contains [] flag = false
contains (f ∷ set) flag = flag_eq f flag || contains set flag

-- `Flags::add`
unfoldable pub add : List Flag → Flag → List Flag
add set flag = if contains set flag then set else flag ∷ set

abbrev pub flag_to_stainless : Flag → Value flg
flag_to_stainless extern = into Definitions.extern
flag_to_stainless is_pure = into Definitions.is_pure
flag_to_stainless is_mutable = into Definitions.is_mutable
flag_to_stainless is_var = into Definitions.is_var
flag_to_stainless law = into Definitions.law

-- `Flags::to_stainless`
abbrev pub to_stainless : List Flag → List (Value flg)
to_stainless set = map flag_to_stainless set

-- The token trees of an attribute's arguments: `literal` is an integer literal.
pub data Token : Type 0 where
  comma other : Token
  ident literal : Text → Token

-- `MacArgs`
pub data Args : Type 0 where
  empty eq : Args
  delimited : List Token → Args

-- `AttrKind`, with the segments of the path.
pub data Attribute : Type 0 where
  normal : List Text → Args → Attribute
  doc_comment : Attribute

pub data Warning : Type 0 where
  unsupported_target unknown_annotation unknown_argument : Warning

pub record Extracted : Type 0 where
  pub carrier_flags : List Flag
  pub flags_by_symbol : List (Text × List Flag)
  pub warnings : List Warning

-- `flags_by_symbol.entry(symbol).or_insert_with(Flags::new).add(flag)`
unfoldable pub add_by_symbol : List (Text × List Flag) → Text → Flag → List (Text × List Flag)
unfolding add
add_by_symbol [] symbol flag = (symbol, add [] flag) ∷ []
add_by_symbol ((s, set) ∷ entries) symbol flag =
    if text_eq s symbol
    then (s, add set flag) ∷ entries
    else (s, set) ∷ add_by_symbol entries symbol flag

abbrev pub warn : Warning → Extracted → Extracted
warn w x = record x { warnings = w ∷ x.warnings }

unfoldable pub add_to_carrier : Flag → Extracted → Extracted
unfolding add
add_to_carrier flag x = record x { carrier_flags = add x.carrier_flags flag }

unfoldable pub add_to_symbol : Flag → Text → Extracted → Extracted
unfolding add_by_symbol
add_to_symbol flag symbol x = record x {
  flags_by_symbol = add_by_symbol x.flags_by_symbol symbol flag;
}

-- The loop over the arguments; it stops at the first one that is not known.
unfoldable pub add_args : Flag → List Token → Extracted → Extracted
unfolding add_to_carrier add_to_symbol
add_args flag [] x = x
add_args flag (comma ∷ tokens) x = add_args flag tokens x
add_args flag (ident symbol ∷ tokens) x =
    add_args flag tokens
      (if text_eq symbol (codes "fn") then add_to_carrier flag x else add_to_symbol flag symbol x)
add_args flag (literal symbol ∷ tokens) x = add_args flag tokens (add_to_symbol flag symbol x)
add_args flag (other ∷ tokens) x = warn unknown_argument x

abbrev pub add_flag : Option Flag → Args → Extracted → Extracted
unfolding add_args
add_flag none args x = warn unknown_annotation x
add_flag (some flag) empty x = add_to_carrier flag x
add_flag (some flag) (delimited tokens) x = add_args flag tokens x
add_flag (some flag) eq x = warn unsupported_target x

-- The body of the loop over the attributes.
unfoldable pub add_attribute : Attribute → Extracted → Extracted
unfolding add_flag from_name
add_attribute (normal (first ∷ second ∷ third ∷ []) args) x =
    if text_eq second (codes "stainless") then add_flag (from_name third) args x else x
add_attribute _ x = x

unfoldable pub add_attributes : List Attribute → Extracted → Extracted
unfolding add_attribute
add_attributes [] x = x
add_attributes (attr ∷ attrs) x = add_attributes attrs (add_attribute attr x)

-- `extract_flags`
unfoldable pub extract_flags : List Attribute → Extracted
unfolding add_attributes
extract_flags attrs =
    add_attributes attrs (record { carrier_flags = []; flags_by_symbol = []; warnings = [] })
