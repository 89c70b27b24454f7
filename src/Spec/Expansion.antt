-- ===== src/Spec/Expansion.antt =====
-- The expansion of the attribute macros (libstainless_macros/implementation.rs) against the names that
-- stainless_extraction/src/spec.rs reads.
use rust_stainless.Prelude.{
  ℕ, ◌+◌, ◌≡◌, refl, sym, ap, ap₂, ◌∙◌, List, [], ◌∷◌, ◌++◌, map, Bool, Option, none, some, All,
  append-nil, Bool-cases, inl, inr, ◌⊎◌, arith,
}
use rust_stainless.Prelude.Outcome.{done, panicked, ◌>>=◌}
use rust_stainless.Prelude.Texts.{Text}
use rust_stainless.Spec.{SpecType, parse_spec_type_fn_name}
use rust_stainless.Spec.Names.{KnowsDigits, parse-spec_ident}
use rust_stainless.Spec.Macro.{
  Parsed, ok, err, Syn, Spec, Attribute, SpecFn, BodyStmt, stmt, item, ItemFn, Output, sibling,
  function, try_from_attribute, spec_of, spec_attributes, with_spec, with_first, collect, try_parse,
  make_spec_fn, make_spec_fns, has_self_param, generate_fn_with_spec, retain, expand, quotes_all,
  extract_specs_and_expand,
}

module _ (syn : Syn) where
  -- The specs among the attributes.
  abbrev pub spec_types : List (Attribute syn) → List SpecType
  spec_types [] = []
  spec_types (attr ∷ attrs) = elim (try_from_attribute syn attr) [
    | none ↦ spec_types attrs
    | some typ ↦ typ ∷ spec_types attrs
  ]

  -- The generated functions that stand in a block.
  abbrev pub items : List (BodyStmt syn) → List (SpecFn syn)
  items [] = []
  items (stmt s ∷ b) = items b
  items (item f ∷ b) = f ∷ items b

  -- The generated functions of an expansion, siblings and nested ones.
  abbrev pub spec_fns : List (Output syn) → List (SpecFn syn)
  spec_fns [] = []
  spec_fns (sibling f ∷ out) = f ∷ spec_fns out
  spec_fns (function f ∷ out) = items f.block ++ spec_fns out

  abbrev pub functions : List (Output syn) → List (ItemFn syn)
  functions [] = []
  functions (sibling f ∷ out) = functions out
  functions (function f ∷ out) = f ∷ functions out

  -- What the extraction reads off the names of the generated functions.
  abbrev pub read_names : (ℕ → Bool) → List (SpecFn syn) → List (Option (SpecType × Text))
  read_names is_numeric fns = map (λ f. parse_spec_type_fn_name is_numeric f.ident) fns

  abbrev pub typed_names : Text → List SpecType → List (Option (SpecType × Text))
  typed_names fn_name types = map (λ typ. some (typ, fn_name)) types

  abbrev types_of : List (Spec syn) → List SpecType
  types_of specs = map (λ s. s.typ) specs

  read_names-make_spec_fns :
      (is_numeric : ℕ → Bool) (item_fn : ItemFn syn) (index : ℕ) (specs : List (Spec syn))
      → KnowsDigits is_numeric
      → read_names is_numeric (make_spec_fns syn item_fn index specs)
        ≡ typed_names item_fn.ident (types_of specs)
  unfolding make_spec_fns make_spec_fn
  read_names-make_spec_fns is_numeric item_fn index [] k = refl
  read_names-make_spec_fns is_numeric item_fn index (spec ∷ specs) k =
      ap₂ ◌∷◌ (parse-spec_ident is_numeric spec.typ index item_fn.ident k)
        (read_names-make_spec_fns is_numeric item_fn (index + 1) specs k)

  spec_fns-siblings :
      (fns : List (SpecFn syn)) (out : List (Output syn))
      → spec_fns (map sibling fns ++ out) ≡ fns ++ spec_fns out
  spec_fns-siblings [] out = refl
  spec_fns-siblings (f ∷ fns) out = ap (◌∷◌ f) (spec_fns-siblings fns out)

  functions-siblings :
      (fns : List (SpecFn syn)) (out : List (Output syn))
      → functions (map sibling fns ++ out) ≡ functions out
  functions-siblings [] out = refl
  functions-siblings (f ∷ fns) out = functions-siblings fns out

  items-nested :
      (fns : List (SpecFn syn)) (b : List (BodyStmt syn))
      → items (map item fns ++ b) ≡ fns ++ items b
  items-nested [] b = refl
  items-nested (f ∷ fns) b = ap (◌∷◌ f) (items-nested fns b)

  spec_fns-generate :
      (item_fn : ItemFn syn) (specs : List (Spec syn))
      → items item_fn.block ≡ []
      → spec_fns (generate_fn_with_spec syn item_fn specs) ≡ make_spec_fns syn item_fn 0 specs
  unfolding generate_fn_with_spec
  spec_fns-generate item_fn specs h = elim (Bool-cases (has_self_param syn item_fn.inputs)) [
    | inl e ↦ rw (e, spec_fns-siblings, h) (append-nil _)
    | inr e ↦ rw (e, items-nested, h) (append-nil _ ∙ append-nil _)
  ]

  functions-generate :
      (item_fn : ItemFn syn) (specs : List (Spec syn))
      → map (λ f. f.attrs) (functions (generate_fn_with_spec syn item_fn specs))
        ≡ item_fn.attrs ∷ []
  unfolding generate_fn_with_spec
  functions-generate item_fn specs = elim (Bool-cases (has_self_param syn item_fn.inputs)) [
    | inl e ↦ rw (e, functions-siblings) refl
    | inr e ↦ rw e refl
  ]

  with_spec-ok :
      (typ : SpecType) (e : syn.Expr) (r : Parsed syn.Error (List (Spec syn)))
      (specs : List (Spec syn))
      → with_spec syn typ e r ≡ ok specs
      → (ss : List (Spec syn)) × (r ≡ ok ss) × (types_of specs ≡ typ ∷ types_of ss)
  with_spec-ok typ e (ok ss) specs h =
      (ss, refl, ap (λ r. elim r [ ok l ↦ types_of l | err x ↦ [] ]) (sym h))
  with_spec-ok typ e (err x) specs h = cc

  types_of_functions :
      (fs : List (ItemFn syn)) (attrs : List (Attribute syn))
      → map (λ f. f.attrs) fs ≡ attrs ∷ []
      → map (λ f. spec_types f.attrs) fs ≡ spec_types attrs ∷ []
  types_of_functions fs attrs h = map_map fs ∙ ap (map spec_types) h
    where
      map_map :
          (fs : List (ItemFn syn))
          → map (λ f. spec_types f.attrs) fs ≡ map spec_types (map (λ f. f.attrs) fs)
      map_map [] = refl
      map_map (f ∷ fs) = ap (◌∷◌ (spec_types f.attrs)) (map_map fs)

  collect-types :
      (l : List (SpecType × Parsed syn.Error syn.Expr)) (specs : List (Spec syn))
      → collect syn l ≡ ok specs
      → types_of specs ≡ map (λ p. p.0) l
  unfolding collect
  collect-types [] specs h = ap (λ r. elim r [ ok l ↦ types_of l | err x ↦ [] ]) (sym h)
  collect-types ((typ, ok e) ∷ l) specs h =
      let (ss, c, t) = with_spec-ok typ e (collect syn l) specs h in
      t ∙ ap (◌∷◌ typ) (collect-types l ss c)
  collect-types ((typ, err e) ∷ l) specs h = cc

  spec_types-eq :
      (attrs : List (Attribute syn)) → map (λ p. p.0) (spec_attributes syn attrs) ≡ spec_types attrs
  unfolding spec_attributes
  spec_types-eq [] = refl
  spec_types-eq (attr ∷ attrs) = ground (arith, spec_types-eq attrs)

  spec_types-retain : (attrs : List (Attribute syn)) → spec_types (retain syn attrs) ≡ []
  unfolding retain
  spec_types-retain [] = refl
  spec_types-retain (attr ∷ attrs) = ground (arith, spec_types-retain attrs)

  -- What an expansion without errors comes from.
  record Expanded (typ : SpecType) (item_fn : ItemFn syn) (out : List (Output syn)) : Type 0 where
    specs : List (Spec syn)
    types : types_of specs ≡ typ ∷ spec_types item_fn.attrs
    output :
        out ≡ generate_fn_with_spec syn (record item_fn { attrs = retain syn item_fn.attrs }) specs

  expand-ok :
      (item_fn : ItemFn syn) (r : Parsed syn.Error (List (Spec syn))) (out : List (Output syn))
      → expand syn item_fn r ≡ done (ok out)
      → (specs : List (Spec syn)) × (r ≡ ok specs)
        × (out
            ≡ generate_fn_with_spec syn (record item_fn { attrs = retain syn item_fn.attrs }) specs)
  expand-ok item_fn (ok specs) out h = elim (Bool-cases (quotes_all syn item_fn specs)) [
    | inl y ↦ let g = rw y at h in (specs, refl, cc g)
    | inr n ↦ cc (rw n at h)
  ]
  expand-ok item_fn (err e) out h = cc

  extract-parsed :
      (typ : SpecType) (args : syn.Tokens) (item_fn : ItemFn syn) (first : syn.Expr)
      → syn.parse_args args ≡ ok first
      → extract_specs_and_expand syn typ args item_fn
        ≡ expand syn item_fn (collect syn ((typ, ok first) ∷ spec_attributes syn item_fn.attrs))
  unfolding extract_specs_and_expand try_parse with_first
  extract-parsed typ args item_fn first p =
      ap (λ r. with_first syn typ r item_fn.attrs >>= expand syn item_fn) p

  extract-unparsed :
      (typ : SpecType) (args : syn.Tokens) (item_fn : ItemFn syn) (e : syn.Error)
      → syn.parse_args args ≡ err e
      → extract_specs_and_expand syn typ args item_fn ≡ panicked
  unfolding extract_specs_and_expand try_parse with_first
  extract-unparsed typ args item_fn e p =
      ap (λ r. with_first syn typ r item_fn.attrs >>= expand syn item_fn) p

  expanded :
      (typ : SpecType) (args : syn.Tokens) (item_fn : ItemFn syn) (out : List (Output syn))
      (r : Parsed syn.Error syn.Expr)
      → syn.parse_args args ≡ r
      → extract_specs_and_expand syn typ args item_fn ≡ done (ok out)
      → Expanded typ item_fn out
  expanded typ args item_fn out (ok first) p h =
      let (specs, c, o) =
        expand-ok item_fn _ out (sym (extract-parsed typ args item_fn first p) ∙ h) in
      record {
        specs = specs;
        types = collect-types _ specs c ∙ ap (◌∷◌ typ) (spec_types-eq item_fn.attrs);
        output = o;
      }
  expanded typ args item_fn out (err e) p h = cc (sym (extract-unparsed typ args item_fn e p) ∙ h)

  -- If a macro expands a function in whose block there is no generated function, and all its specs
  -- parse, then the extraction reads off the names of the functions that the macro generates, next to
  -- the function or in it, the type of every spec in the order of the attributes, each with the name
  -- of the function.
  pub expand-recovers :
      (is_numeric : ℕ → Bool) (typ : SpecType) (args : syn.Tokens) (item_fn : ItemFn syn)
      (out : List (Output syn))
      → KnowsDigits is_numeric
      → items item_fn.block ≡ []
      → extract_specs_and_expand syn typ args item_fn ≡ done (ok out)
      → read_names is_numeric (spec_fns out)
        ≡ typed_names item_fn.ident (typ ∷ spec_types item_fn.attrs)
  expand-recovers is_numeric typ args item_fn out k b h =
      let x = expanded typ args item_fn out _ refl h in
      ap (λ o. read_names is_numeric (spec_fns o)) x.output
      ∙ ap (read_names is_numeric) (spec_fns-generate _ x.specs b)
      ∙ read_names-make_spec_fns is_numeric _ 0 x.specs k
      ∙ ap (typed_names item_fn.ident) x.types

  -- An expansion without errors returns the function once, and no attribute of it is a spec any more,
  -- so that the other macros do not expand it again.
  pub expand-once :
      (typ : SpecType) (args : syn.Tokens) (item_fn : ItemFn syn) (out : List (Output syn))
      → extract_specs_and_expand syn typ args item_fn ≡ done (ok out)
      → map (λ f. spec_types f.attrs) (functions out) ≡ [] ∷ []
  expand-once typ args item_fn out h =
      let x = expanded typ args item_fn out _ refl h in
      ap (λ o. map (λ f. spec_types f.attrs) (functions o)) x.output
      ∙ types_of_functions _ (retain syn item_fn.attrs) (functions-generate _ x.specs)
      ∙ ap (λ t. t ∷ []) (spec_types-retain item_fn.attrs)

  -- An attribute that is no spec, or whose arguments parse.
  abbrev pub Fine : Attribute syn → Type 0
  Fine attr =
      (try_from_attribute syn attr ≡ none) ⊎ ((e : syn.Expr) × (syn.parse_args attr.tokens ≡ ok e))

  fine_spec :
      (attr : Attribute syn) (x : syn.Expr) (e : syn.Error)
      (l : List (SpecType × Parsed syn.Error syn.Expr)) (o : Option SpecType)
      → syn.parse_args attr.tokens ≡ ok x
      → collect syn l ≡ err e
      → collect syn (spec_of syn attr o l) ≡ err e
  unfolding collect
  fine_spec attr x e l none g h = h
  fine_spec attr x e l (some typ) g h = rw (g, h) refl

  collect-first_error :
      (before : List (Attribute syn)) (bad : Attribute syn) (after : List (Attribute syn))
      (typ : SpecType) (e : syn.Error)
      → All Fine before
      → try_from_attribute syn bad ≡ some typ
      → syn.parse_args bad.tokens ≡ err e
      → collect syn (spec_attributes syn (before ++ bad ∷ after)) ≡ err e
  unfolding collect spec_attributes
  collect-first_error [] bad after typ e f t p = rw (t, p) refl
  collect-first_error (attr ∷ before) bad after typ e (inl n, f) t p =
      rw n (collect-first_error before bad after typ e f t p)
  collect-first_error (attr ∷ before) bad after typ e (inr (x, g), f) t p =
      fine_spec attr x e _ (try_from_attribute syn attr) g
        (collect-first_error before bad after typ e f t p)

  -- If the arguments of the first attribute parse, and those of another spec do not, the macro expands
  -- to the error of the first such spec.
  pub expand-first_error :
      (first_typ typ : SpecType) (args : syn.Tokens) (item_fn : ItemFn syn) (first : syn.Expr)
      (before : List (Attribute syn)) (bad : Attribute syn) (after : List (Attribute syn))
      (e : syn.Error)
      → syn.parse_args args ≡ ok first
      → item_fn.attrs ≡ before ++ bad ∷ after
      → All Fine before
      → try_from_attribute syn bad ≡ some typ
      → syn.parse_args bad.tokens ≡ err e
      → extract_specs_and_expand syn first_typ args item_fn ≡ done (err e)
  unfolding collect
  expand-first_error first_typ typ args item_fn first before bad after e p at_ f t q =
      extract-parsed first_typ args item_fn first p
      ∙ ap (λ r. expand syn item_fn (with_spec syn first_typ first r))
          (ap (λ a. collect syn (spec_attributes syn a)) at_
            ∙ collect-first_error before bad after typ e f t q)
