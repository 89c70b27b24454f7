-- ===== src/Tests/Stubs.antt =====
-- A function of another crate and a variable of a body, and the theorems about them.
use rust_stainless.Prelude.{ℕ, ◌+◌, ◌≡◌, refl, List, [], ◌∷◌, false, none, some, ◌==◌, true}
use rust_stainless.Prelude.Run.{returned}
use rust_stainless.Prelude.Texts.{codes}
use rust_stainless.Ast.Identifier.{SymbolIdentifier}
use rust_stainless.Factory.{into}
use rust_stainless.Factory.Types.{boolean_type}
use rust_stainless.Factory.Exprs.{variable, no_tree}
use rust_stainless.Factory.Definitions.{fun_def, val_def, extern}
use rust_stainless.Symbols.{FunDef}
use rust_stainless.Registry.{Tcx, fresh_id}
use rust_stainless.Rustc.{Rustc, Ty}
use rust_stainless.Rustc
use rust_stainless.Extraction.{M, Extraction, new, fail}
use rust_stainless.Flags.{Flag}
use rust_stainless.Extraction.Bindings.{
  Body, Variable, binding, extract_binding, extract_binding-again, populate_def_context,
}
use rust_stainless.Extraction.Functions.{extract_fn_ref}
use rust_stainless.Extraction.Functions.Stubs.{extract_fn_ref-again}

abbrev crate : Tcx
crate = record {
  DefId = ℕ;
  HirId = ℕ;
  def_eq = λ a b. a == b;
  hir_eq = λ a b. a == b;
  def_path_str = λ d. (97 + d) ∷ [];
  owner = λ h. 0;
  chars = λ s. s;
  is_numeric = λ c. false;
  overflow_checks = true;
}

abbrev rustc : Rustc
rustc = record {
  tcx = crate;
  def_to_item = λ d. none;
  is_one_of = λ d items. false;
  is_box = λ d. false;
  is_local = λ d. false;
  is_closure = λ d. false;
  variants = λ d. [];
  attrs = λ d. [];
  generics_of = λ d. record { parent = none; params = [] };
  predicates_of = λ d. [];
  iterate = λ xs. xs;
}

abbrev no_ids : ℕ → M crate SymbolIdentifier
no_ids d = fail

abbrev id_of : ℕ → List ℕ → SymbolIdentifier
id_of global_id name = record {
  id = record { name = name; global_id = global_id; id = 0 };
  symbol_path = name ∷ [];
}

-- `fn b(param0: bool) -> bool`, with the definition 1.
abbrev inputs : List (Ty ℕ)
inputs = Rustc.bool ∷ []

abbrev stub : FunDef
stub =
    fun_def (id_of 1 (codes "b")) []
      (val_def (variable (id_of 0 (codes "param0")) (into boolean_type) []) ∷ [])
      (into boolean_type) (into (no_tree (into boolean_type))) (into extern ∷ [])

abbrev with_stub : Extraction crate
with_stub = record (new crate) {
  mapping = record {
    global_id_counter = (tt, 2) ∷ [];
    local_id_counter = (codes "param0", 1) ∷ (codes "b", 1) ∷ [];
    did_to_stid = (1, id_of 1 (codes "b")) ∷ [];
    hid_to_stid = [];
  };
  function_refs = 1 ∷ [];
}

abbrev with_ref : Extraction crate
with_ref = record (new crate) {
  mapping = record {
    global_id_counter = (tt, 1) ∷ [];
    local_id_counter = (codes "b", 1) ∷ [];
    did_to_stid = (1, id_of 0 (codes "b")) ∷ [];
    hid_to_stid = [];
  };
  function_refs = 1 ∷ [];
}

ref_run : extract_fn_ref 1 (new crate) ≡ returned (id_of 0 (codes "b"), with_ref)
unfolding extract_fn_ref fresh_id
ref_run = refl

extract_fn_ref-again_example : extract_fn_ref 1 with_ref ≡ returned (id_of 0 (codes "b"), with_ref)
extract_fn_ref-again_example =
    extract_fn_ref-again crate 1 (new crate) with_ref (id_of 0 (codes "b")) refl ref_run

-- A body with the parameter `x: bool`, the id 5.
abbrev body : Body rustc
body = record {
  find = λ h. some (binding true (codes "x"));
  node_type = λ h. Rustc.bool;
  params = (5, some (codes "x")) ∷ [];
  visited = 5 ∷ [];
  is_generator = false;
}

abbrev x_id : SymbolIdentifier
x_id = record {
  id = record { name = codes "x"; global_id = 0; id = 0 };
  symbol_path = codes "a" ∷ codes "x" ∷ [];
}

abbrev x : Variable
x = variable x_id (into boolean_type) []

abbrev with_x : Extraction crate
with_x = record (new crate) {
  mapping = record {
    global_id_counter = (tt, 1) ∷ [];
    local_id_counter = (codes "x", 1) ∷ [];
    did_to_stid = [];
    hid_to_stid = (5, x_id) ∷ [];
  };
}

binding_run :
    extract_binding rustc no_ids [] body 5 none [] (new crate) ≡ returned ((x, (5, x) ∷ []), with_x)
unfolding extract_binding fresh_id
binding_run = refl

extract_binding-again_example :
    extract_binding rustc no_ids [] body 5 (some (Flag.is_var ∷ [])) ((5, x) ∷ []) with_x
    ≡ returned ((x, (5, x) ∷ []), with_x)
extract_binding-again_example =
    extract_binding-again rustc no_ids [] body 5 none (some (Flag.is_var ∷ [])) [] ((5, x) ∷ []) x
      (new crate) with_x refl binding_run

populate_run :
    populate_def_context rustc no_ids [] body [] [] (new crate)
    ≡ returned (([], (5, x) ∷ []), with_x)
unfolding populate_def_context fresh_id
populate_run = refl
