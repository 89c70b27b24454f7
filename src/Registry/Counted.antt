-- ===== src/Registry/Counted.antt =====
-- Identifiers against the counters that number them.
use rust_stainless.Prelude.{
  ℕ, ◌+◌, ◌<◌, ◌≤◌, ◌≡◌, inl, inr, refl, sym, ap, ◌∙◌, subst, List, [], ◌∷◌, Bool, true, some, All,
  length, arith, Bool-cases,
}
use rust_stainless.Prelude.Sorting.{DistinctKeys}
use rust_stainless.Prelude.Texts.{text_eq, text_eq→eq, text_eq_refl}
use rust_stainless.Ser.{Bytes}
use rust_stainless.Ast.Identifier.{SymbolIdentifier}
use rust_stainless.Ast.Encodable.{last}
use rust_stainless.Symbols.Stable.{gid}
use rust_stainless.Registry.{UniqueCounter, unit_eq}
use rust_stainless.Registry.Fresh.{Decides, next_id, CountsUp}

pub text_eq-Decides : Decides text_eq
text_eq-Decides s t = elim (Bool-cases (text_eq s t)) [
  | inl e ↦ inl (e, text_eq→eq s t e)
  | inr e ↦ inr (e, λ p. cc (sym e ∙ subst (λ u. text_eq s u ≡ true) p (text_eq_refl s)))
]

pub unit_eq-Decides : Decides unit_eq
unit_eq-Decides a b = inl (refl, refl)

-- Two identifiers do not share both the name and the local id.
abbrev pub SameName : SymbolIdentifier → SymbolIdentifier → Type 0
SameName s t = (s.id.name ≡ t.id.name) × (s.id.id ≡ t.id.id)

abbrev pub DistinctNames : List SymbolIdentifier → Type 0
DistinctNames [] = Unit
DistinctNames (s ∷ ids) = All (λ t. ¬ (SameName s t)) ids × DistinctNames ids

-- The identifiers against the two counters.
pub record Counted (global : UniqueCounter (Unit {0})) (local : UniqueCounter Bytes)
    (ids : List SymbolIdentifier) : Type 0 where
  pub global_next : next_id unit_eq global tt ≡ length ids
  pub local_bound : (name : Bytes) → next_id text_eq local name ≤ length ids
  pub global_below : All (λ s. gid s < length ids) ids
  pub local_below : All (λ s. s.id.id < next_id text_eq local s.id.name) ids
  pub distinct : DistinctKeys gid ids
  pub distinct_names : DistinctNames ids
  pub named : All (λ s. last s.symbol_path ≡ some s.id.name) ids

All-weaken :
    {A : Type 0} {P Q : A → Type 0} (xs : List A) → ((x : A) → P x → Q x) → All P xs → All Q xs
All-weaken [] f h = tt
All-weaken (x ∷ xs) f h = (f x h.0, All-weaken xs f h.1)

grows :
    {overflow_checks : Bool} {local : UniqueCounter Bytes} {name : Bytes}
    (l : CountsUp text_eq overflow_checks local name) (n : Bytes)
    → next_id text_eq local n ≤ next_id text_eq l.after n
grows {name = name} l n = elim (text_eq-Decides n name) [
  | inl (e, p) ↦ rw p (omega (arith, l.counts))
  | inr (e, m) ↦ omega (arith, l.keeps n m)
]

grows_by_one :
    {overflow_checks : Bool} {local : UniqueCounter Bytes} {name : Bytes}
    (l : CountsUp text_eq overflow_checks local name) (n : Bytes)
    → next_id text_eq l.after n ≤ next_id text_eq local n + 1
grows_by_one {name = name} l n = elim (text_eq-Decides n name) [
  | inl (e, p) ↦ rw p (omega (arith, l.counts))
  | inr (e, m) ↦ omega (arith, l.keeps n m)
]

abbrev pub identified : Bytes → List Bytes → ℕ → ℕ → SymbolIdentifier
identified name path global_id id = record {
  id = record { name = name; global_id = global_id; id = id };
  symbol_path = path;
}

pub Counted-fresh :
    {overflow_checks : Bool} {global : UniqueCounter (Unit {0})} {local : UniqueCounter Bytes}
    {ids : List SymbolIdentifier} {name : Bytes} (path : List Bytes)
    (g : CountsUp unit_eq overflow_checks global tt)
    (l : CountsUp text_eq overflow_checks local name)
    → last path ≡ some name
    → Counted global local ids
    → Counted g.after l.after
        (identified name path (next_id unit_eq global tt) (next_id text_eq local name) ∷ ids)
Counted-fresh {local = local} {ids = ids} {name = name} path g l p c = record {
  global_next = omega (arith, g.counts, c.global_next);
  local_bound = λ n. omega (arith, grows_by_one l n, c.local_bound n);
  global_below = (omega (arith, c.global_next), All-weaken ids (λ s h. omega arith) c.global_below);
  local_below = (
    omega (arith, l.counts),
    All-weaken ids (λ s h. omega (arith, grows l s.id.name)) c.local_below,
  );
  distinct = (All-weaken ids (λ s h e. omega (arith, c.global_next)) c.global_below, c.distinct);
  distinct_names = (
    All-weaken ids (λ s h e. omega (arith, e.1, ap (next_id text_eq local) e.0)) c.local_below,
    c.distinct_names,
  );
  named = (p, c.named);
}
