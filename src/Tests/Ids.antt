-- ===== src/Tests/Ids.antt =====
-- Ids of a few definitions, and the theorems applied to them.
use rust_stainless.Prelude.{
  ℕ, ◌≡◌, refl, List, [], ◌∷◌, true, some, All, leb, ltb, ◌&&◌, ◌==◌, arith, if◌then◌else◌,
}
use rust_stainless.Prelude.Outcome.{done}
use rust_stainless.Prelude.Sorting.{DistinctKeys}
use rust_stainless.Prelude.Texts.{codes, text_eq}
use rust_stainless.Ser.{Bytes}
use rust_stainless.Ast.Identifier.{SymbolIdentifier}
use rust_stainless.Ast.Encodable.{last}
use rust_stainless.Symbols.Stable.{gid}
use rust_stainless.Registry.{
  Tcx, SymbolMapping, new, fresh, fresh_id, fresh_name, register_def, get_id_from_def,
  get_or_register_def, or_register, underscored, insert_new, symbol_path_from_def_id, split_path,
}
use rust_stainless.Registry.Counted.{DistinctNames}
use rust_stainless.Registry.Fresh.{CountsUp, fresh-CountsUp}
use rust_stainless.Registry.Counted.{text_eq-Decides}
use rust_stainless.Registry.Stable.{get_or_register_def-again}
use rust_stainless.Registry.Issued.{Issued, Issued-distinct, register_def-succeeds}

-- The definition 0 is a field of a tuple struct, all others are functions.
abbrev crate : Tcx
crate = record {
  DefId = ℕ;
  HirId = ℕ;
  def_eq = λ a b. a == b;
  hir_eq = λ a b. a == b;
  def_path_str = λ d. if d == 0 then codes "main::Pair::0" else codes "main::run";
  owner = λ h. 1;
  chars = λ s. s;
  is_numeric = λ c. leb 48 c && ltb c 58;
  overflow_checks = true;
}

abbrev identifier : Bytes → ℕ → ℕ → List Bytes → SymbolIdentifier
identifier name global_id id path = record {
  id = record { name = name; global_id = global_id; id = id };
  symbol_path = path;
}

abbrev field : SymbolIdentifier
field = identifier (codes "_0") 0 0 (codes "main" ∷ codes "Pair" ∷ codes "_0" ∷ [])

-- Two more with one name.
abbrev run : SymbolIdentifier
run = identifier (codes "run") 1 0 (codes "run" ∷ [])

abbrev other_run : SymbolIdentifier
other_run = identifier (codes "run") 2 1 (codes "main" ∷ codes "run" ∷ [])

abbrev with_field : SymbolMapping crate
with_field = record {
  global_id_counter = (tt, 1) ∷ [];
  local_id_counter = (codes "_0", 1) ∷ [];
  did_to_stid = (0, field) ∷ [];
  hid_to_stid = [];
}

abbrev with_run : SymbolMapping crate
with_run = record with_field {
  global_id_counter = (tt, 2) ∷ [];
  local_id_counter = (codes "_0", 1) ∷ (codes "run", 1) ∷ [];
}

abbrev with_all : SymbolMapping crate
with_all = record with_field {
  global_id_counter = (tt, 3) ∷ [];
  local_id_counter = (codes "_0", 1) ∷ (codes "run", 2) ∷ [];
  did_to_stid = (1, other_run) ∷ (0, field) ∷ [];
}

register_field : register_def crate 0 (new crate) ≡ done (field, with_field)
unfolding register_def fresh_id fresh underscored insert_new symbol_path_from_def_id split_path
register_field = refl

fresh_run : fresh_name crate (codes "run") with_field ≡ done (run, with_run)
unfolding fresh_id fresh
fresh_run = refl

register_run : register_def crate 1 with_run ≡ done (other_run, with_all)
unfolding register_def fresh_id fresh underscored insert_new symbol_path_from_def_id split_path
register_run = refl

two-Issued : Issued crate with_run (run ∷ field ∷ [])
two-Issued = Issued.by_name (codes "run") (Issued.by_def 0 Issued.start register_field) fresh_run

all-Issued : Issued crate with_all (other_run ∷ run ∷ field ∷ [])
all-Issued = Issued.by_def 1 two-Issued register_run

Issued-distinct_example :
    let ids = other_run ∷ run ∷ field ∷ [] in
    DistinctKeys gid ids × DistinctNames ids × All (λ s. last s.symbol_path ≡ some s.id.name) ids
Issued-distinct_example =
    Issued-distinct crate with_all (other_run ∷ run ∷ field ∷ []) all-Issued (omega arith)

register_def-succeeds_example :
    (id : SymbolIdentifier) × (after : SymbolMapping crate) × (register_def crate 1 with_run
      ≡ done (id, after))
    × (get_id_from_def crate 1 after ≡ some id)
register_def-succeeds_example =
    register_def-succeeds crate with_run (run ∷ field ∷ []) 1 (λ d. ground arith) two-Issued
      (omega arith) refl

fresh-CountsUp_example : CountsUp text_eq true ((codes "run", 1) ∷ []) (codes "run")
fresh-CountsUp_example =
    fresh-CountsUp text_eq true ((codes "run", 1) ∷ []) (codes "run") text_eq-Decides (omega arith)

found_run : get_or_register_def crate 1 with_run ≡ done (other_run, with_all)
unfolding get_or_register_def or_register register_def fresh_id fresh underscored insert_new
    symbol_path_from_def_id split_path
found_run = refl

get_or_register_def-again_example :
    get_or_register_def crate 1 with_all ≡ done (other_run, with_all)
get_or_register_def-again_example =
    get_or_register_def-again crate with_run with_all other_run 1 refl found_run
