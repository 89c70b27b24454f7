-- ===== src/Tests/Specs.antt =====
-- Spec functions: small functions with specs, and the theorems applied to them.
use rust_stainless.Prelude.{
  ℕ, ◌≡◌, refl, List, [], ◌∷◌, map, Bool, false, none, some, ltb, leb, ◌&&◌, if◌then◌else◌, inl,
  inr, arith,
}
use rust_stainless.Prelude.Outcome.{done, panicked}
use rust_stainless.Prelude.Texts.{Text, codes, split}
use rust_stainless.Spec.{pre, post, measure, try_from, parse_spec_type_fn_name, spec_ident}
use rust_stainless.Spec.Names.{KnowsDigits, SpecName, parse-spec_ident, parse_sound}
use rust_stainless.Spec.Macro.{
  ok, err, Syn, Attribute, receiver, typed, stmt, ItemFn, Output, extract_specs_and_expand,
  try_parse, with_first, spec_attributes, collect, generate_fn_with_spec, retain,
}
use rust_stainless.Spec.Expansion.{
  spec_types, spec_fns, functions, read_names, typed_names, expand-recovers, expand-once,
  expand-first_error,
}

-- The ASCII digits stand in for `char::is_numeric`.
abbrev is_numeric : ℕ → Bool
is_numeric c = leb 48 c && ltb c 58

is_numeric-KnowsDigits : KnowsDigits is_numeric
is_numeric-KnowsDigits c l h = ground arith

parse-spec_ident_example :
    parse_spec_type_fn_name is_numeric (spec_ident measure 1 (codes "dummy_for_specs_2"))
    ≡ some (measure, codes "dummy_for_specs_2")
parse-spec_ident_example =
    parse-spec_ident is_numeric measure 1 (codes "dummy_for_specs_2") is_numeric-KnowsDigits

-- The cases of the test in spec.rs.
parse_pre : parse_spec_type_fn_name is_numeric (codes "__pre__asdf") ≡ some (pre, codes "asdf")
unfolding parse_spec_type_fn_name split try_from
parse_pre = refl

parse_index : parse_spec_type_fn_name is_numeric (codes "__measure_bcdf_asdf") ≡ none
unfolding parse_spec_type_fn_name split try_from
parse_index = refl

parse_underscores : parse_spec_type_fn_name is_numeric (codes "___pre_asdf") ≡ none
unfolding parse_spec_type_fn_name split try_from
parse_underscores = refl

parse_type : parse_spec_type_fn_name is_numeric (codes "__pr_asdf") ≡ none
unfolding parse_spec_type_fn_name split try_from
parse_type = refl

-- The name may end after the index.
parse_short : parse_spec_type_fn_name is_numeric (codes "__post_7") ≡ some (post, [])
unfolding parse_spec_type_fn_name split try_from
parse_short = refl

parse_sound_example : SpecName is_numeric (codes "__pre__asdf") pre (codes "asdf")
parse_sound_example = parse_sound is_numeric (codes "__pre__asdf") pre (codes "asdf") parse_pre

-- Numbers stand in for the syntax trees and the tokens; the arguments above 99 do not parse.
abbrev numbers : Syn
numbers = record {
  Expr = ℕ;
  Ty = ℕ;
  Generics = ℕ;
  Arg = ℕ;
  Stmt = ℕ;
  Tokens = ℕ;
  Error = ℕ;
  unit_type = 0;
  bool_type = 1;
  parse_args = λ t. if ltb t 100 then ok t else err t;
}

abbrev attribute : List Text → ℕ → Attribute numbers
attribute segments tokens = record { segments = segments; tokens = tokens }

abbrev inline : Attribute numbers
inline = attribute (codes "inline" ∷ []) 0

-- `#[post(5)] #[inline] #[measure(6)] fn size_of(&self) -> …`
abbrev method : ItemFn numbers
method = record {
  attrs = attribute (codes "post" ∷ []) 5 ∷ inline ∷ attribute (codes "measure" ∷ []) 6 ∷ [];
  ident = codes "size_of";
  generics = 0;
  inputs = receiver ∷ typed 3 ∷ [];
  trailing = false;
  output = some 2;
  block = stmt 9 ∷ [];
}

abbrev expansion : List (Output numbers)
expansion =
    generate_fn_with_spec numbers (record method { attrs = inline ∷ [] })
      (record { typ = pre; expr = 4 }
        ∷ record { typ = post; expr = 5 }
        ∷ record { typ = measure; expr = 6 }
        ∷ [])

extract_method : extract_specs_and_expand numbers pre 4 method ≡ done (ok expansion)
unfolding extract_specs_and_expand try_parse with_first spec_attributes collect retain try_from
extract_method = refl

expand-recovers_example :
    read_names numbers is_numeric (spec_fns numbers expansion)
    ≡ typed_names numbers (codes "size_of") (pre ∷ spec_types numbers method.attrs)
expand-recovers_example =
    expand-recovers numbers is_numeric pre 4 method expansion is_numeric-KnowsDigits refl
      extract_method

expand-once_example : map (λ f. spec_types numbers f.attrs) (functions numbers expansion) ≡ [] ∷ []
expand-once_example = expand-once numbers pre 4 method expansion extract_method

-- `#[post(5)] fn size_of() -> …`: the parameter `ret` stands behind a comma and nothing before it.
abbrev no_inputs : ItemFn numbers
no_inputs = record method { inputs = [] }

extract_no_inputs : extract_specs_and_expand numbers pre 4 no_inputs ≡ panicked
unfolding extract_specs_and_expand try_parse with_first spec_attributes collect try_from
extract_no_inputs = refl

-- `#[inline] #[pre(5)] #[post(101)] #[post(102)] fn size_of(&self) -> …`
abbrev bad_method : ItemFn numbers
bad_method = record method {
  attrs =
      inline
      ∷ attribute (codes "pre" ∷ []) 5
      ∷ attribute (codes "post" ∷ []) 101
      ∷ attribute (codes "post" ∷ []) 102
      ∷ [];
}

inline_plain : try_from (codes "inline") ≡ none
unfolding try_from
inline_plain = refl

post_found : try_from (codes "post") ≡ some post
unfolding try_from
post_found = refl

expand-first_error_example : extract_specs_and_expand numbers pre 4 bad_method ≡ done (err 101)
expand-first_error_example =
    expand-first_error numbers pre post 4 bad_method 4
      (inline ∷ attribute (codes "pre" ∷ []) 5 ∷ []) (attribute (codes "post" ∷ []) 101)
      (attribute (codes "post" ∷ []) 102 ∷ []) 101 refl refl (inl inline_plain, (inr (5, refl), tt))
      post_found refl
