-- ===== src/Extraction/Whole.antt =====
-- Nodes without holes: what the extraction makes of a part that it does not support is `NoTree` or
-- `Untyped`. A step is clean if a state with at most `n` reports after it has a value without holes. This is
-- about stainless_extraction/src/expr.rs and ty.rs.
pub mod Types
pub mod Patterns
pub mod Operators
pub mod Calls
pub mod Exprs
pub mod Bodies
use rust_stainless.Prelude.{
  ℕ, ◌≤◌, ◌≡◌, refl, ◌∙◌, List, [], ◌∷◌, length, Bool, true, false, Option, none, some, arith,
  if◌then◌else◌, All,
}
use rust_stainless.Prelude.Outcome.{Outcome}
use rust_stainless.Prelude.Outcome
use rust_stainless.Prelude.Run.{Run, returned, panicked, exhausted}
use rust_stainless.Prelude.Texts.{Text}
use rust_stainless.Ast.Kinds.{Group, Kind, FieldType, FieldTypes, ExprKind, TypeKind}
use rust_stainless.Ast.Value.{
  Value, Fields, Elems, Entries, elems_of, no_elems, elem, entry, no_entries,
}
use rust_stainless.Ast.Value
use rust_stainless.Registry.{Tcx}
use rust_stainless.Extraction.{
  M, Extraction, Diagnostic, pure, fail, report, unsupported, unwrap, assert, raise, continue_with,
  ◌>>=◌, ◌>>◌,
}
use rust_stainless.Extraction.Measure.{missing}
use rust_stainless.Extraction.Fine.{
  Any, Good, Fine, Grows, Grows-refl, Grows-trans, Grows-missing, report-Fine,
}

abbrev pub is_hole : (g : Group) → Kind g → Bool
is_hole Group.expression ExprKind.no_tree = true
is_hole Group.type TypeKind.untyped = true
is_hole _ _ = false

-- No hole in a node or anywhere below it.
abbrev mutual
  pub IsWhole : {t : FieldType} → Value t → Type 0
  IsWhole (Value.some v) = IsWhole v
  IsWhole (Value.seq vs) = AreWhole vs
  IsWhole (Value.set vs) = AreWhole vs
  IsWhole (Value.map es) = EntriesWhole es
  IsWhole (Value.tuple vs) = FieldsWhole vs
  IsWhole (Value.struct {g = g} {k = k} vs) = (is_hole g k ≡ false) × FieldsWhole vs
  IsWhole (Value.enum k v) = IsWhole v
  IsWhole _ = Unit

  pub FieldsWhole : {ts : FieldTypes} → Fields ts → Type 0
  FieldsWhole Value.[] = Unit
  FieldsWhole (Value.◌∷◌ v vs) = IsWhole v × FieldsWhole vs

  pub AreWhole : {t : FieldType} → Elems t → Type 0
  AreWhole no_elems = Unit
  AreWhole (elem v vs) = IsWhole v × AreWhole vs

  pub EntriesWhole : {k v : FieldType} → Entries k v → Type 0
  EntriesWhole no_entries = Unit
  EntriesWhole (entry a b es) = IsWhole a × IsWhole b × EntriesWhole es

pub elems_whole : {t : FieldType} (vs : List (Value t)) → All IsWhole vs → AreWhole (elems_of vs)
elems_whole [] h = tt
elems_whole (v ∷ vs) h = (h.0, elems_whole vs h.1)

module _ {tcx : Tcx} (U : List tcx.DefId) (k n : ℕ) (S : Type 0) where
  abbrev pub CleanRun :
      {A : Type 0} → (A → Type 0) → Extraction tcx → Run (A × Extraction tcx) → Type 0
  CleanRun Q before (returned (a, xt)) = Grows before xt × (S → length xt.diagnostics ≤ n → Q a)
  CleanRun Q before panicked = Unit
  CleanRun Q before exhausted = ⊥

  -- From a state with at most `k` definitions of `U` without an id, a step does not run out of fuel; where
  -- `S` holds, if `H` holds unless there are more than `n` reports, then so does `Q` of its value after the
  -- step.
  pub record Clean {A : Type 0} (H : Type 0) (Q : A → Type 0) (m : M tcx A) : Type 0 where
    pub clean :
        (xt : Extraction tcx)
        → missing tcx U xt.mapping ≤ k
        → n ≤ length xt.diagnostics
        → (S → length xt.diagnostics ≤ n → H)
        → CleanRun Q xt (m xt)

  Clean-after :
      {B : Type 0} (R : B → Type 0) {before mid : Extraction tcx} (r : Run (B × Extraction tcx))
      → Grows before mid
      → CleanRun R mid r
      → CleanRun R before r
  Clean-after R (returned (b, xt)) g h = (Grows-trans g h.0, h.1)
  Clean-after R panicked g h = tt
  Clean-after R exhausted g h = absurd h

  continue-Clean :
      {A B : Type 0} (H : Type 0) (Q : A → Type 0) (R : B → Type 0) (f : A → M tcx B)
      (before : Extraction tcx) (r : Run (A × Extraction tcx))
      → missing tcx U before.mapping ≤ k
      → n ≤ length before.diagnostics
      → (S → length before.diagnostics ≤ n → H)
      → CleanRun Q before r
      → ((a : A) → Clean (H × Q a) R (f a))
      → CleanRun R before (continue_with f r)
  continue-Clean H Q R f before (returned (a, xt)) b l h c rest = Clean-after R (f a xt) c.0 (
      (rest a).clean xt (Grows-missing U c.0 b) (omega (arith, c.0.reported))
        (λ s few. (h s (omega (arith, c.0.reported)), c.1 s few)))
  continue-Clean H Q R f before panicked b l h c rest = tt
  continue-Clean H Q R f before exhausted b l h c rest = absurd c

  pub bind-Clean :
      {A B : Type 0} {H : Type 0} {Q : A → Type 0} {R : B → Type 0} {m : M tcx A} {f : A → M tcx B}
      → Clean H Q m
      → ((a : A) → Clean (H × Q a) R (f a))
      → Clean H R (m >>= f)
  bind-Clean {H = H} {Q = Q} {R} {m} {f} c rest = record {
    clean = λ xt b l h. continue-Clean H Q R f xt (m xt) b l h (c.clean xt b l h) rest;
  }

  pub pure-Clean :
      {A : Type 0} {H : Type 0} {Q : A → Type 0} {a : A} → (H → Q a) → Clean H Q (pure a)
  pure-Clean q = record { clean = λ xt b l h. (Grows-refl xt, λ s few. q (h s few)) }

  pub fail-Clean : {A : Type 0} {H : Type 0} {Q : A → Type 0} → Clean H Q fail
  fail-Clean = record { clean = λ xt b l h. tt }

  -- What is known may be more than what is needed.
  pub given-Clean :
      {A : Type 0} {H K : Type 0} {Q : A → Type 0} {m : M tcx A}
      → (H → K)
      → Clean K Q m
      → Clean H Q m
  given-Clean f c = record { clean = λ xt b l h. c.clean xt b l (λ s few. f (h s few)) }

  fine-run :
      {A : Type 0} (Q : A → Type 0) (before : Extraction tcx) (r : Run (A × Extraction tcx))
      → Good U Q before r
      → CleanRun Q before r
  fine-run Q before (returned (a, xt)) g = (g.1, λ s few. g.0)
  fine-run Q before panicked g = tt
  fine-run Q before exhausted g = absurd g

  pub Fine-Clean :
      {A : Type 0} {H : Type 0} {Q : A → Type 0} {m : M tcx A} → Fine U k Q m → Clean H Q m
  Fine-Clean {Q = Q} {m = m} f = record { clean = λ xt b l h. fine-run Q xt (m xt) (f.good xt b) }

  -- After a report nothing is promised.
  pub unsupported-Clean :
      {A : Type 0} {H : Type 0} {Q : A → Type 0} {a : A} (msg : Text)
      → Clean H Q (unsupported msg >> pure a)
  unsupported-Clean msg = record {
    clean = λ xt b l h.
        let r = (report-Fine U {k = k} (Diagnostic.error msg)).good xt b in
        (r.1, λ s few. absurd (omega (arith, few)));
  }

  pub assert-Clean : {H : Type 0} (b : Bool) → Clean H Any (assert b)
  assert-Clean true = pure-Clean (λ h. tt)
  assert-Clean false = fail-Clean

  pub assert-then-Clean :
      {B : Type 0} {H : Type 0} {R : B → Type 0} {m : M tcx B} (b : Bool)
      → Clean H R m
      → Clean H R (assert b >> m)
  assert-then-Clean b c = bind-Clean (assert-Clean b) (λ u. given-Clean (λ h. h.0) c)

  pub unwrap-Clean :
      {A : Type 0} {H : Type 0} {Q : A → Type 0} (o : Option A)
      → (S → (a : A) → o ≡ some a → Q a)
      → Clean H Q (unwrap o)
  unwrap-Clean none f = fail-Clean
  unwrap-Clean (some a) f = record { clean = λ xt b l h. (Grows-refl xt, λ s few. f s a refl) }

  pub raise-Clean : {A : Type 0} {H : Type 0} (o : Outcome A) → Clean H Any (raise o)
  raise-Clean (Outcome.done a) = pure-Clean (λ h. tt)
  raise-Clean Outcome.panicked = fail-Clean

  pub if-Clean :
      {A : Type 0} {H : Type 0} {Q : A → Type 0} {m₁ m₂ : M tcx A} (b : Bool)
      → Clean H Q m₁
      → Clean H Q m₂
      → Clean H Q (if b then m₁ else m₂)
  if-Clean true c d = c
  if-Clean false c d = d
