-- ===== src/Prelude/Run.antt =====
-- The outcome of a computation on fuel: it may also run out of it.
use mathlib.Core.Path.{◌≡◌}
use mathlib.Core.Option.{Option, none, some}
use rust_stainless.Prelude.Outcome.{Outcome}

pub data Run (A : Type 0) : Type 0 where
  returned : A → Run A
  panicked exhausted : Run A

infixl 5 ◌>>=◌
abbrev pub ◌>>=◌ : {A B : Type 0} → Run A → (A → Run B) → Run B
returned a >>= f = f a
panicked >>= f = panicked
exhausted >>= f = exhausted

abbrev pub from_outcome : {A : Type 0} → Outcome A → Run A
from_outcome (Outcome.done a) = returned a
from_outcome Outcome.panicked = panicked

-- `Option::unwrap` and `expect`
abbrev pub unwrap : {A : Type 0} → Option A → Run A
unwrap none = panicked
unwrap (some a) = returned a

pub returned-injective : {A : Type 0} {a b : A} → returned a ≡ returned b → a ≡ b
returned-injective e = cc
