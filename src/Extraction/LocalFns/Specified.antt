-- ===== src/Extraction/LocalFns/Specified.antt =====
-- Where the specs of a function stand in its body, read off the body that `extract_local_fn` of
-- stainless_extraction/src/krate.rs builds.
use rust_stainless.Prelude.{
  ℕ, zero, suc, ◌≡◌, ◌≢◌, refl, ap, ap₂, ◌∙◌, sym, List, [], ◌∷◌, ◌++◌, Option, none, some, length,
}
use rust_stainless.Prelude.Run.{returned, returned-injective}
use rust_stainless.StdItems.Tables.{some-injective}
use rust_stainless.Ast.Kinds
use rust_stainless.Ast.Kinds.{expr, ExprKind}
use rust_stainless.Ast.Value.{Value, Elems, no_elems, elem, elems_of, enum, struct, seq}
use rust_stainless.Ast.Value
use rust_stainless.Factory.{into}
use rust_stainless.Factory.Exprs.{block, decreases}
use rust_stainless.Factory.Definitions.{val_def}
use rust_stainless.Symbols.{AdtSort}
use rust_stainless.Rustc.{Rustc}
use rust_stainless.Extraction.{M, Extraction, unwrap}
use rust_stainless.Extraction.Steps.{bind-returned}
use rust_stainless.Extraction.Bindings.{Variable}
use rust_stainless.Extraction.Patterns.{ValDef, list_of}
use rust_stainless.Extraction.LocalFns.{
  FnBody, make_and, split_last, with_measure, add_pres, add_posts,
}

-- The conjuncts of a conjunction of so many expressions.
abbrev pub conjuncts : ℕ → Value expr → Option (List (Value expr))
conjuncts zero e = none
conjuncts (suc zero) e = some (e ∷ [])
conjuncts (suc (suc n)) (enum ExprKind.and (struct (Value.◌∷◌ (seq es) rest))) = some (list_of es)
conjuncts _ e = none

abbrev pub beside : {A B : Type 0} → B → Option A → Option (A × B)
beside b none = none
beside b (some a) = some (a, b)

-- The preconditions of a body with so many of them, and the body without them.
abbrev pub preconditions : ℕ → Value expr → Option (List (Value expr) × Value expr)
preconditions zero body = some ([], body)
preconditions n (enum ExprKind.require (struct (Value.◌∷◌ pred (Value.◌∷◌ body rest)))) =
    beside body (conjuncts n pred)
preconditions n _ = none

-- The postconditions of a body with so many of them, and the parameters that they take and the body without
-- them.
abbrev pub postconditions : ℕ → Value expr → Option (List (Value expr) × (List ValDef × Value expr))
postconditions zero body = some ([], ([], body))
postconditions n
      (enum ExprKind.ensuring (
        struct (
          Value.◌∷◌ body
            (Value.◌∷◌ (struct (Value.◌∷◌ (seq params) (Value.◌∷◌ pred none_left))) rest)))) =
    beside (list_of params, body) (conjuncts n pred)
postconditions n _ = none

-- The postconditions take the returned value, if there are any.
abbrev pub taken : List (Value expr) → Variable → List ValDef
taken [] v = []
taken (e ∷ es) v = val_def v ∷ []

-- The expressions of a block that ends with the unit literal.
abbrev pub unit_block : Value expr → Option (List (Value expr))
unit_block
      (enum ExprKind.block
        (struct (Value.◌∷◌ (seq exprs) (Value.◌∷◌ (enum ExprKind.unit_literal u) rest)))) =
    some (list_of exprs)
unit_block _ = none

-- A body with a measure, the last of the expressions, or without one.
abbrev pub MeasuredBy : Option (List (Value expr)) → Value expr → Value expr → Type 0
MeasuredBy none body out = out ≡ body
MeasuredBy (some exprs) body out =
    (others : List (Value expr)) × (last : Value expr) × (exprs ≡ others ++ last ∷ [])
    × (out ≡ into (decreases (into (block others last)) body))

list_of-elems_of : {t : Kinds.FieldType} (vs : List (Value t)) → list_of (elems_of vs) ≡ vs
list_of-elems_of [] = refl
list_of-elems_of (v ∷ vs) = ap (λ ws. v ∷ ws) (list_of-elems_of vs)

conjuncts-make_and :
    (e : Value expr) (es : List (Value expr))
    → conjuncts (length (e ∷ es)) (make_and (e ∷ es)) ≡ some (e ∷ es)
conjuncts-make_and e [] = refl
conjuncts-make_and e (f ∷ es) = ap some (list_of-elems_of (e ∷ f ∷ es))

-- What `split_last` makes of a list from what it makes of its rest.
abbrev split_cons : {A : Type 0} → A → Option (List A × A) → Option (List A × A)
split_cons x none = some ([], x)
split_cons x (some (ys, y)) = some (x ∷ ys, y)

split_last-cons :
    {A : Type 0} (x : A) (xs : List A) → split_last (x ∷ xs) ≡ split_cons x (split_last xs)
split_last-cons x xs = by_cases x (split_last xs)
  where
    by_cases :
        {A : Type 0} (x : A) (o : Option (List A × A))
        → elim o [ none ↦ some ([], x) | some (ys, y) ↦ some (x ∷ ys, y) ] ≡ split_cons x o
    by_cases x none = refl
    by_cases x (some (ys, y)) = refl

split_cons-some : {A : Type 0} (x : A) (o : Option (List A × A)) → split_cons x o ≢ none
split_cons-some x none e = cc
split_cons-some x (some (ys, y)) e = cc

split_last-none : {A : Type 0} (xs : List A) → split_last xs ≡ none → xs ≡ []
split_last-none [] e = refl
split_last-none (x ∷ xs) e =
    absurd (split_cons-some x (split_last xs) (sym (split_last-cons x xs) ∙ e))

split_cons-append :
    {A : Type 0} (x : A) (xs ys : List A) (y : A) (o : Option (List A × A))
    → (o ≡ none → xs ≡ [])
    → ((zs : List A) (z : A) → o ≡ some (zs, z) → xs ≡ zs ++ z ∷ [])
    → split_cons x o ≡ some (ys, y)
    → x ∷ xs ≡ ys ++ y ∷ []
split_cons-append x xs ys y none f g e =
    let q = some-injective e in
    ap (λ zs. x ∷ zs) (f refl) ∙ ap₂ (λ zs z. zs ++ z ∷ []) (ap (λ r. r.0) q) (ap (λ r. r.1) q)
split_cons-append x xs ys y (some (zs, z)) f g e =
    let q = some-injective e in
    ap (λ ws. x ∷ ws) (g zs z refl) ∙ ap₂ (λ ws w. ws ++ w ∷ []) (ap (λ r. r.0) q) (ap (λ r. r.1) q)

split_last-append :
    {A : Type 0} (xs ys : List A) (y : A) → split_last xs ≡ some (ys, y) → xs ≡ ys ++ y ∷ []
split_last-append [] ys y e = cc
split_last-append (x ∷ xs) ys y e =
    split_cons-append x xs ys y (split_last xs) (split_last-none xs) (split_last-append xs)
      (sym (split_last-cons x xs) ∙ e)

module _ (rustc : Rustc) (extract_adt : rustc.tcx.DefId → M rustc.tcx AdtSort) (depth : ℕ)
    (body_of : rustc.tcx.DefId → FnBody rustc) where
  pub preconditions-add_pres :
      (pres : List (Value expr)) (body : Value expr)
      → preconditions (length pres) (add_pres rustc extract_adt depth body_of pres body)
        ≡ some (pres, body)
  preconditions-add_pres [] body = refl
  preconditions-add_pres (e ∷ es) body = ap (beside body) (conjuncts-make_and e es)

  pub postconditions-add_posts :
      (v : Variable) (posts : List (Value expr)) (body : Value expr)
      → postconditions (length posts) (add_posts rustc extract_adt depth body_of v posts body)
        ≡ some (posts, (taken posts v, body))
  postconditions-add_posts v [] body = refl
  postconditions-add_posts v (e ∷ es) body =
      ap (beside (val_def v ∷ [], body)) (conjuncts-make_and e es)

  unwrapped :
      {A : Type 0} (o : Option A) (xt after : Extraction rustc.tcx) (a : A)
      → unwrap o xt ≡ returned (a, after)
      → o ≡ some a
  unwrapped none xt after a e = cc
  unwrapped (some b) xt after a e = ap (λ r. some r.0) (returned-injective e)

  pub with_measure-MeasuredBy :
      (spec body out : Value expr) (xt after : Extraction rustc.tcx)
      → with_measure rustc extract_adt depth body_of spec body xt ≡ returned (out, after)
      → MeasuredBy (unit_block spec) body out
  with_measure-MeasuredBy
        (enum ExprKind.block
          (struct (Value.◌∷◌ (seq exprs) (Value.◌∷◌ (enum ExprKind.unit_literal u) rest))))
        body out xt after e =
      let (measure, mid, p, e₁) = bind-returned (unwrap (split_last (list_of exprs))) _ xt _ e in
      (
        measure.0,
        measure.1,
        split_last-append (list_of exprs) measure.0 measure.1
            (unwrapped (split_last (list_of exprs)) xt mid measure p),
        sym (ap (λ r. r.0) (returned-injective e₁)),
      )
  with_measure-MeasuredBy spec body out xt after e = sym (ap (λ r. r.0) (returned-injective e))
