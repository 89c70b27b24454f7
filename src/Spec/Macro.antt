-- ===== src/Spec/Macro.antt =====
-- libstainless_macros/implementation.rs: the attribute macros `pre`, `post` and `measure`. The syntax
-- trees of the crate syn, its parser of an attribute's arguments and its errors are the parameter
-- `Syn`. The annotated item is taken as the parsed `ItemFn`.
use rust_stainless.Prelude.{
  ℕ, ◌+◌, List, [], ◌∷◌, ◌++◌, map, Bool, true, false, Option, none, some, if◌then◌else◌,
}
use rust_stainless.Prelude.Outcome.{Outcome, done, panicked, ◌>>=◌}
use rust_stainless.Prelude.Texts.{Text}
use rust_stainless.Spec.{SpecType, post, measure, try_from, spec_ident}

-- `syn::Result`
pub data Parsed (E A : Type 0) : Type 0 where
  ok : A → Parsed E A
  err : E → Parsed E A

-- What the macros use of the crate syn: `unit_type` is `()`, `bool_type` is `bool`.
pub record Syn : Type 1 where
  pub Expr : Type 0
  pub Ty : Type 0
  pub Generics : Type 0
  pub Arg : Type 0
  pub Stmt : Type 0
  pub Tokens : Type 0
  pub Error : Type 0
  pub unit_type : Ty
  pub bool_type : Ty
  pub parse_args : Tokens → Parsed Error Expr

pub record Spec (syn : Syn) : Type 0 where
  pub typ : SpecType
  pub expr : syn.Expr

-- An attribute: the segments of its path, and its arguments.
pub record Attribute (syn : Syn) : Type 0 where
  pub segments : List Text
  pub tokens : syn.Tokens

pub data FnArg (syn : Syn) : Type 0 where
  receiver : FnArg syn
  typed : syn.Arg → FnArg syn

-- A generated function. `ret` is the type of the parameter `ret` that it takes last, if it takes one;
-- `terminated` says that the body is the expression with a `;` behind it.
pub record SpecFn (syn : Syn) : Type 0 where
  pub ident : Text
  pub generics : syn.Generics
  pub inputs : List (FnArg syn)
  pub ret : Option syn.Ty
  pub return_type : syn.Ty
  pub body : syn.Expr
  pub terminated : Bool

pub data BodyStmt (syn : Syn) : Type 0 where
  stmt : syn.Stmt → BodyStmt syn
  item : SpecFn syn → BodyStmt syn

-- `output` is `none` for `ReturnType::Default`, and `trailing` says that there is a comma behind the last of
-- the inputs.
pub record ItemFn (syn : Syn) : Type 0 where
  pub attrs : List (Attribute syn)
  pub ident : Text
  pub generics : syn.Generics
  pub inputs : List (FnArg syn)
  pub trailing : Bool
  pub output : Option syn.Ty
  pub block : List (BodyStmt syn)

-- The functions that an expansion returns.
pub data Output (syn : Syn) : Type 0 where
  sibling : SpecFn syn → Output syn
  function : ItemFn syn → Output syn

abbrev pub only_segment : List Text → Option SpecType
only_segment (segment ∷ []) = try_from segment
only_segment _ = none

module _ (syn : Syn) where
  open syn use {Expr, Ty, Tokens, Error, unit_type, bool_type, parse_args}

  -- `TryFrom<&Attribute> for SpecType`
  abbrev pub try_from_attribute : Attribute syn → Option SpecType
  try_from_attribute attr = only_segment attr.segments

  abbrev pub spec_of :
      Attribute syn
      → Option SpecType
      → List (SpecType × Parsed Error Expr)
      → List (SpecType × Parsed Error Expr)
  spec_of attr none specs = specs
  spec_of attr (some typ) specs = (typ, parse_args attr.tokens) ∷ specs

  -- `item_fn.attrs.iter().filter_map(…)`
  unfoldable pub spec_attributes : List (Attribute syn) → List (SpecType × Parsed Error Expr)
  spec_attributes [] = []
  spec_attributes (attr ∷ attrs) = spec_of attr (try_from_attribute attr) (spec_attributes attrs)

  abbrev pub with_spec :
      SpecType → Expr → Parsed Error (List (Spec syn)) → Parsed Error (List (Spec syn))
  with_spec typ expr (ok specs) = ok (record { typ = typ; expr = expr } ∷ specs)
  with_spec typ expr (err e) = err e

  -- The first error, or all specs with their expressions.
  unfoldable pub collect : List (SpecType × Parsed Error Expr) → Parsed Error (List (Spec syn))
  collect [] = ok []
  collect ((typ, ok expr) ∷ specs) = with_spec typ expr (collect specs)
  collect ((typ, err e) ∷ specs) = err e

  unfoldable pub with_first :
      SpecType → Parsed Error Expr → List (Attribute syn) → Outcome (Parsed Error (List (Spec syn)))
  unfolding spec_attributes collect
  with_first typ (ok first) attrs = done (collect ((typ, ok first) ∷ spec_attributes attrs))
  with_first typ (err e) attrs = panicked

  -- `parse_quote!` of the arguments of the first attribute panics if they do not parse; the specs of
  -- the other attributes follow.
  unfoldable pub try_parse :
      SpecType → Tokens → List (Attribute syn) → Outcome (Parsed Error (List (Spec syn)))
  unfolding with_first
  try_parse first_spec_type first_attr_args attrs =
      with_first first_spec_type (parse_args first_attr_args) attrs

  abbrev pub return_type_of : Option Ty → Ty
  return_type_of (some ty) = ty
  return_type_of none = unit_type

  abbrev pub ret_param : SpecType → Option Ty → Option Ty
  ret_param post output = some (return_type_of output)
  ret_param _ output = none

  abbrev pub spec_return : SpecType → Ty
  spec_return measure = unit_type
  spec_return _ = bool_type

  abbrev pub is_measure : SpecType → Bool
  is_measure measure = true
  is_measure _ = false

  -- `make_spec_fn`, of tokens that parse.
  unfoldable pub make_spec_fn : ItemFn syn → ℕ → Spec syn → SpecFn syn
  make_spec_fn item_fn index spec = record {
    ident = spec_ident spec.typ index item_fn.ident;
    generics = item_fn.generics;
    inputs = item_fn.inputs;
    ret = ret_param spec.typ item_fn.output;
    return_type = spec_return spec.typ;
    body = spec.expr;
    terminated = is_measure spec.typ;
  }

  -- `specs.into_iter().enumerate().map(make_spec_fn)`
  unfoldable pub make_spec_fns : ItemFn syn → ℕ → List (Spec syn) → List (SpecFn syn)
  unfolding make_spec_fn
  make_spec_fns item_fn index [] = []
  make_spec_fns item_fn index (spec ∷ specs) =
      make_spec_fn item_fn index spec ∷ make_spec_fns item_fn (index + 1) specs

  abbrev pub has_self_param : List (FnArg syn) → Bool
  has_self_param (receiver ∷ inputs) = true
  has_self_param _ = false

  -- With a `self` parameter the specs are siblings of the function, otherwise they are nested in it.
  unfoldable pub generate_fn_with_spec : ItemFn syn → List (Spec syn) → List (Output syn)
  unfolding make_spec_fns
  generate_fn_with_spec item_fn specs =
      let fns = make_spec_fns item_fn 0 specs in
      if has_self_param item_fn.inputs
      then map sibling fns ++ function item_fn ∷ []
      else function (record item_fn { block = map item fns ++ item_fn.block }) ∷ []

  abbrev pub keep_unless :
      Attribute syn → Option SpecType → List (Attribute syn) → List (Attribute syn)
  keep_unless attr none attrs = attr ∷ attrs
  keep_unless attr (some typ) attrs = attrs

  -- `attrs.retain(|attr| SpecType::try_from(attr).is_err())`
  unfoldable pub retain : List (Attribute syn) → List (Attribute syn)
  retain [] = []
  retain (attr ∷ attrs) = keep_unless attr (try_from_attribute attr) (retain attrs)

  -- The parameter `ret` comes behind a comma of its own, so that the tokens of the function parse only
  -- where there is an input before it and no other comma.
  abbrev pub takes_ret : List (FnArg syn) → Bool → Bool
  takes_ret [] trailing = false
  takes_ret (input ∷ inputs) trailing = if trailing then false else true

  abbrev pub quotes : ItemFn syn → SpecType → Bool
  quotes item_fn post = takes_ret item_fn.inputs item_fn.trailing
  quotes item_fn _ = true

  -- Whether `parse_quote!` parses all functions.
  abbrev pub quotes_all : ItemFn syn → List (Spec syn) → Bool
  quotes_all item_fn [] = true
  quotes_all item_fn (spec ∷ specs) =
      if quotes item_fn spec.typ then quotes_all item_fn specs else false

  -- `err` stands for the tokens of `to_compile_error`.
  abbrev pub expand :
      ItemFn syn → Parsed Error (List (Spec syn)) → Outcome (Parsed Error (List (Output syn)))
  expand item_fn (ok specs) =
      if quotes_all item_fn specs
      then done (ok (generate_fn_with_spec (record item_fn { attrs = retain item_fn.attrs }) specs))
      else panicked
  expand item_fn (err e) = done (err e)

  unfoldable pub extract_specs_and_expand :
      SpecType → Tokens → ItemFn syn → Outcome (Parsed Error (List (Output syn)))
  unfolding try_parse retain generate_fn_with_spec
  extract_specs_and_expand first_spec_type first_attr_args item_fn =
      try_parse first_spec_type first_attr_args item_fn.attrs >>= expand item_fn
