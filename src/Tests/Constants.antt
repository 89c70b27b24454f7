-- ===== src/Tests/Constants.antt =====
-- The constant -1 of type i32, and the theorem applied to it.
use rust_stainless.Prelude.{ℕ, ◌-◌, ◌^◌, true, some, none, refl, arith}
use rust_stainless.Rustc.{IntTy, Const}
use rust_stainless.Rustc
use rust_stainless.Extraction.Literals.{try_from, BitsLiteral, try_from-bits}

abbrev minus_one : Const ℕ
minus_one = record {
  const_ty = Rustc.int IntTy.i32;
  try_to_bits = λ w. some (2 ^ w - 1);
  slice = none;
}

try_from-bits_example : BitsLiteral true 32 (2 ^ 32 - 1) (try_from minus_one)
try_from-bits_example =
    try_from-bits true IntTy.i32 32 (2 ^ 32 - 1) minus_one refl refl refl (omega arith)
