-- ===== src/Extraction/Steps.antt =====
-- Steps of the extraction that return, one after the other: the monad of stainless_extraction/src/lib.rs.
use rust_stainless.Prelude.{suc, ◌≡◌, refl, ap, List, [], ◌∷◌, length}
use rust_stainless.Prelude.Run.{Run, returned, panicked, exhausted}
use rust_stainless.Ast.Kinds.{def, DefinitionKind}
use rust_stainless.Ast.Value.{Value, count, elems_of}
use rust_stainless.Registry.{Tcx}
use rust_stainless.Extraction.{M, Extraction, continue_with, ◌>>=◌}

pub count-elems_of :
    (vs : List (Value (def DefinitionKind.val_def))) → count (elems_of vs) ≡ length vs
count-elems_of [] = refl
count-elems_of (v ∷ vs) = ap suc (count-elems_of vs)

module _ {tcx : Tcx} where
  pub bind-returned :
      {A B : Type 0} (m : M tcx A) (f : A → M tcx B) (xt : Extraction tcx) (b : B × Extraction tcx)
      → (m >>= f) xt ≡ returned b
      → (a : A) × (mid : Extraction tcx) × (m xt ≡ returned (a, mid)) × (f a mid ≡ returned b)
  bind-returned {A = A} {B = B} m f xt b e = after (m xt) refl e
    where
      after :
          (r : Run (A × Extraction tcx))
          → m xt ≡ r
          → continue_with f r ≡ returned b
          → (a : A) × (mid : Extraction tcx) × (m xt ≡ returned (a, mid)) × (f a mid ≡ returned b)
      after (returned (a, mid)) q e = (a, mid, q, e)
      after panicked q e = cc
      after exhausted q e = cc
