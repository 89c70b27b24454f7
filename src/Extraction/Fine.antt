-- ===== src/Extraction/Fine.antt =====
-- Steps of an extraction that do not run out of fuel and forget no id: rules for the operations of
-- stainless_extraction/src/lib.rs and for sequences of them.
use rust_stainless.Prelude.{
  ℕ, ◌≤◌, ◌≡◌, refl, ◌∙◌, List, ◌∷◌, length, Bool, true, false, Option, none, some, arith,
  if◌then◌else◌,
}
use rust_stainless.Prelude.Outcome.{Outcome}
use rust_stainless.Prelude.Run.{Run, returned, panicked, exhausted}
use rust_stainless.Registry.{Tcx, SymbolMapping, get_or_register_def}
use rust_stainless.Extraction.{
  M, Extraction, Diagnostic, pure, fail, report, unwrap, assert, on_mapping, with_mapping, reads,
  continue_with, ◌>>=◌, ◌>>◌,
}
use rust_stainless.Extraction.Measure.{missing, Keeps, Keeps-missing, get_or_register_def-Keeps}

abbrev pub Any : {A : Type 0} → A → Type 0
Any a = Unit

-- What an extraction step keeps: the data types and functions that are done and the ids that are given;
-- what is reported only grows.
pub record Grows {tcx : Tcx} (before after : Extraction tcx) : Type 0 where
  pub adts_same : after.adts ≡ before.adts
  pub functions_same : after.functions ≡ before.functions
  pub kept : Keeps tcx before.mapping after.mapping
  pub reported : length before.diagnostics ≤ length after.diagnostics

module _ {tcx : Tcx} where
  pub Grows-refl : (xt : Extraction tcx) → Grows xt xt
  Grows-refl xt = record {
    adts_same = refl;
    functions_same = refl;
    kept = λ d e. e;
    reported = omega arith;
  }

  pub Grows-trans : {a b c : Extraction tcx} → Grows a b → Grows b c → Grows a c
  Grows-trans g h = record {
    adts_same = h.adts_same ∙ g.adts_same;
    functions_same = h.functions_same ∙ g.functions_same;
    kept = λ d e. g.kept d (h.kept d e);
    reported = omega (arith, g.reported, h.reported);
  }

  -- A step of the mappings only.
  pub Grows-mapping :
      (xt : Extraction tcx) (mapping : SymbolMapping tcx)
      → Keeps tcx xt.mapping mapping
      → Grows xt (record xt { mapping = mapping })
  Grows-mapping xt mapping k = record {
    adts_same = refl;
    functions_same = refl;
    kept = k;
    reported = omega arith;
  }

module _ {tcx : Tcx} (U : List tcx.DefId) where
  pub Grows-missing :
      {k : ℕ} {before after : Extraction tcx}
      → Grows before after
      → missing tcx U before.mapping ≤ k
      → missing tcx U after.mapping ≤ k
  Grows-missing {before = before} {after} g b =
      omega (arith, Keeps-missing tcx U before.mapping after.mapping g.kept)

  -- A run from a state does not run out of fuel, the state grows, and the value is as `Q` says.
  abbrev pub Good : {A : Type 0} → (A → Type 0) → Extraction tcx → Run (A × Extraction tcx) → Type 0
  Good Q before (returned (a, xt)) = Q a × Grows before xt
  Good Q before panicked = Unit
  Good Q before exhausted = ⊥

  -- The same of a step, from each state in which at most `k` definitions of `U` are without an id.
  pub record Fine {A : Type 0} (k : ℕ) (Q : A → Type 0) (m : M tcx A) : Type 0 where
    pub good : (xt : Extraction tcx) → missing tcx U xt.mapping ≤ k → Good Q xt (m xt)

  pub Good-after :
      {B : Type 0} (R : B → Type 0) {before mid : Extraction tcx} (r : Run (B × Extraction tcx))
      → Grows before mid
      → Good R mid r
      → Good R before r
  Good-after R (returned (b, xt)) g h = (h.0, Grows-trans g h.1)
  Good-after R panicked g h = tt
  Good-after R exhausted g h = absurd h

  continue-Good :
      {A B : Type 0} (Q : A → Type 0) (R : B → Type 0) (k : ℕ) (f : A → M tcx B)
      (before : Extraction tcx) (r : Run (A × Extraction tcx))
      → missing tcx U before.mapping ≤ k
      → Good Q before r
      → ((a : A) → Q a → Fine k R (f a))
      → Good R before (continue_with f r)
  continue-Good Q R k f before (returned (a, xt)) b g h =
      Good-after R (f a xt) g.1 ((h a g.0).good xt (Grows-missing g.1 b))
  continue-Good Q R k f before panicked b g h = tt
  continue-Good Q R k f before exhausted b g h = absurd g

  pub bind-Fine :
      {A B : Type 0} {Q : A → Type 0} {R : B → Type 0} {k : ℕ} {m : M tcx A} {f : A → M tcx B}
      → Fine k Q m
      → ((a : A) → Q a → Fine k R (f a))
      → Fine k R (m >>= f)
  bind-Fine {Q = Q} {R} {k} {m} {f} g h = record {
    good = λ xt b. continue-Good Q R k f xt (m xt) b (g.good xt b) h;
  }

  pub pure-Fine : {A : Type 0} {Q : A → Type 0} {k : ℕ} {a : A} → Q a → Fine k Q (pure a)
  pure-Fine q = record { good = λ xt b. (q, Grows-refl xt) }

  pub fail-Fine : {A : Type 0} {Q : A → Type 0} {k : ℕ} → Fine k Q fail
  fail-Fine = record { good = λ xt b. tt }

  pub report-Fine : {k : ℕ} (d : Diagnostic) → Fine k Any (report d)
  report-Fine d = record {
    good = λ xt b.
        let g : Grows xt (record xt { diagnostics = d ∷ xt.diagnostics }) = record {
          adts_same = refl;
          functions_same = refl;
          kept = λ c e. e;
          reported = omega arith;
        } in
        (tt, g);
  }

  pub reads-Fine : {A : Type 0} {k : ℕ} (f : Extraction tcx → A) → Fine k Any (reads f)
  reads-Fine f = record { good = λ xt b. (tt, Grows-refl xt) }

  pub assert-Fine : {k : ℕ} (b : Bool) → Fine k Any (assert b)
  assert-Fine true = pure-Fine tt
  assert-Fine false = fail-Fine

  pub unwrap-Fine : {A : Type 0} {k : ℕ} (o : Option A) → Fine k (λ a. o ≡ some a) (unwrap o)
  unwrap-Fine none = fail-Fine
  unwrap-Fine (some a) = pure-Fine refl

  -- A failed condition is skipped, and so is the rest.
  pub assert-then-Fine :
      {B : Type 0} {R : B → Type 0} {k : ℕ} {m : M tcx B} (b : Bool)
      → Fine k R m
      → Fine k R (assert b >> m)
  assert-then-Fine b h = bind-Fine (assert-Fine b) (λ u q. h)

  pub report-then-Fine :
      {B : Type 0} {R : B → Type 0} {k : ℕ} {m : M tcx B} (d : Diagnostic)
      → Fine k R m
      → Fine k R (report d >> m)
  report-then-Fine d h = bind-Fine (report-Fine d) (λ u q. h)

  pub if-Fine :
      {A : Type 0} {Q : A → Type 0} {k : ℕ} {m n : M tcx A} (b : Bool)
      → Fine k Q m
      → Fine k Q n
      → Fine k Q (if b then m else n)
  if-Fine true f g = f
  if-Fine false f g = g

  mapping-Good :
      {A : Type 0} (xt : Extraction tcx) (o : Outcome (A × SymbolMapping tcx))
      → ((a : A) (after : SymbolMapping tcx)
          → o ≡ Outcome.done (a, after)
          → Keeps tcx xt.mapping after)
      → Good Any xt (with_mapping xt o)
  mapping-Good xt (Outcome.done (a, after)) h = (tt, Grows-mapping xt after (h a after refl))
  mapping-Good xt Outcome.panicked h = tt

  -- An operation of the mappings that keeps the ids.
  pub mapping-Fine :
      {A : Type 0} {k : ℕ} (op : SymbolMapping tcx → Outcome (A × SymbolMapping tcx))
      → ((before after : SymbolMapping tcx) (a : A)
          → op before ≡ Outcome.done (a, after)
          → Keeps tcx before after)
      → Fine k Any (on_mapping op)
  mapping-Fine op h = record {
    good = λ xt b. mapping-Good xt (op xt.mapping) (λ a after e. h xt.mapping after a e);
  }

  pub get_or_register-Fine :
      {k : ℕ} (d : tcx.DefId) → Fine k Any (on_mapping (get_or_register_def tcx d))
  get_or_register-Fine d =
      mapping-Fine (get_or_register_def tcx d)
        (λ before after id e. get_or_register_def-Keeps tcx d before after id e)
