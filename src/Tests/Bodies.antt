-- ===== src/Tests/Bodies.antt =====
-- The body `{ x; B {} }` of a function, where `B` is a data type without fields, and the theorems about
-- bodies applied to it.
use rust_stainless.Prelude.{
  ℕ, ◌+◌, ◌≡◌, ◌≢◌, inl, refl, List, [], ◌∷◌, true, false, none, some, ◌==◌, if◌then◌else◌, arith,
}
use rust_stainless.Prelude.Run.{returned, exhausted}
use rust_stainless.Prelude.Texts.{codes}
use rust_stainless.Ast.Identifier.{SymbolIdentifier}
use rust_stainless.Ast.Kinds.{expr}
use rust_stainless.Ast.Value.{Value}
use rust_stainless.Factory.{into}
use rust_stainless.Factory.Types.{boolean_type}
use rust_stainless.Factory.Definitions.{fun_def, val_def}
use rust_stainless.Symbols.{FunDef}
use rust_stainless.Ser.{Bytes}
use rust_stainless.Extraction.Items.{FnSpecs}
use rust_stainless.Extraction.LocalFns.{FnBody}
use rust_stainless.Factory.Exprs.{variable, block, adt, require}
use rust_stainless.Registry.{Tcx, fresh_id}
use rust_stainless.Rustc.{Rustc, Variant, AllAdts, no_tys}
use rust_stainless.Rustc
use rust_stainless.Hair.{
  Expr, typed, var_ref, stmts, expr_stmt, no_stmts, an_expr, no_fields, ExprIn,
}
use rust_stainless.Hair
use rust_stainless.Extraction.{Extraction, new}
use rust_stainless.Extraction.Measure.{Listed}
use rust_stainless.Extraction.Fine.{Grows}
use rust_stainless.Extraction.Fuel.{Closed}
use rust_stainless.Extraction.Adts.{extract_adt}
use rust_stainless.Extraction.Bindings.{Variable, DefContext, binding}
use rust_stainless.Extraction.Exprs.{extract_expr}
use rust_stainless.Extraction.Whole.{IsWhole}
use rust_stainless.Extraction.Whole.Bodies.{
  WholeScope, extract_expr-ends, extract_expr-IsWhole, extract_expr-Grows,
}

abbrev pub crate : Tcx
crate = record {
  DefId = ℕ;
  HirId = ℕ;
  def_eq = λ a b. a == b;
  hir_eq = λ a b. a == b;
  def_path_str = λ d. (97 + d) ∷ [];
  owner = λ h. 0;
  chars = λ s. s;
  is_numeric = λ c. false;
  overflow_checks = true;
}

abbrev pub rustc : Rustc
rustc = record {
  tcx = crate;
  def_to_item = λ d. none;
  is_one_of = λ d items. false;
  is_box = λ d. false;
  is_local = λ d. true;
  is_closure = λ d. false;
  variants = λ d. record { def_id = 4; fields = [] } ∷ [];
  attrs = λ d. [];
  generics_of = λ d. record { parent = none; params = [] };
  predicates_of = λ d. [];
  iterate = λ xs. xs;
}

abbrev listed : List ℕ
listed = 1 ∷ []

closed : Closed rustc 0 listed
closed = record { fields_in = λ d u. (tt, tt); predicates_in = λ d u. tt; parents_in = λ d u. tt }

abbrev x : Variable
x =
    variable
      (record {
        id = record { name = codes "x"; global_id = 7; id = 0 };
        symbol_path = codes "x" ∷ [];
      })
      (into boolean_type) []

abbrev pub scope : DefContext rustc
scope = (5, x) ∷ []

scope_whole : WholeScope rustc [] scope
scope_whole = record { params_whole = tt; vars_whole = ((refl, (tt, ((refl, tt), (tt, tt)))), tt) }

abbrev body : Expr ℕ ℕ
body = typed (Rustc.adt 1 no_tys) (
    Hair.block (
      stmts true (expr_stmt (typed Rustc.bool (var_ref 5)) no_stmts)
        (an_expr (typed (Rustc.adt 1 no_tys) (Hair.adt 1 0 no_tys no_fields false)))))

body_listed : ExprIn (λ d. Listed d listed) body
body_listed = ((inl refl, tt), (((tt, tt), tt), ((inl refl, tt), (inl refl, tt, tt))))

abbrev b_id : SymbolIdentifier
b_id = record {
  id = record { name = codes "e"; global_id = 1; id = 0 };
  symbol_path = codes "e" ∷ [];
}

abbrev tree : Value expr
tree = into (block (into x ∷ []) (into (adt b_id [] [])))

extract_expr-ends_example :
    extract_expr rustc (extract_adt rustc 0 2) [] scope body (new crate) ≢ exhausted
extract_expr-ends_example =
    extract_expr-ends rustc 0 listed (λ d. ground arith) (λ A P xs h. h) closed [] scope 2 body
      (new crate) body_listed (omega arith)

abbrev after : Extraction crate
after = record (new crate) {
  mapping = record {
    global_id_counter = (tt, 2) ∷ [];
    local_id_counter = (codes "b", 1) ∷ (codes "e", 1) ∷ [];
    did_to_stid =
        (4, b_id)
        ∷ (
          1,
          record {
            id = record { name = codes "b"; global_id = 0; id = 0 };
            symbol_path = codes "b" ∷ [];
          },
        )
        ∷ [];
    hid_to_stid = [];
  };
}

body_run :
    extract_expr rustc (extract_adt rustc 0 2) [] scope body (new crate) ≡ returned (tree, after)
unfolding extract_expr extract_adt fresh_id
body_run = refl

extract_expr-IsWhole_example : IsWhole tree
extract_expr-IsWhole_example =
    extract_expr-IsWhole rustc 0 listed (λ d. ground arith) (λ A P xs h. h) closed [] scope 2 body
      (new crate) after tree scope_whole body_listed (omega arith) body_run (omega arith)

extract_expr-Grows_example : Grows (new crate) after
extract_expr-Grows_example =
    extract_expr-Grows rustc 0 listed (λ d. ground arith) (λ A P xs h. h) closed [] scope 2 body
      (new crate) after tree body_listed (omega arith) body_run

-- `fn a(x: bool) -> bool { x }`, with the precondition `x`, which has the definition 6.
abbrev x_param : SymbolIdentifier
x_param = record {
  id = record { name = codes "x"; global_id = 0; id = 0 };
  symbol_path = codes "a" ∷ codes "x" ∷ [];
}

abbrev fn_body : ℕ → FnBody rustc
fn_body d =
    if d == 0
    then record {
      body = record {
        find = λ h. some (binding true (codes "x"));
        node_type = λ h. Rustc.bool;
        params = (5, some (codes "x")) ∷ [];
        visited = 5 ∷ [];
        is_generator = false;
      };
      value = typed Rustc.bool (var_ref 5);
      output = Rustc.bool;
    }
    else record {
      body = record {
        find = λ h. some (binding true (codes "x"));
        node_type = λ h. Rustc.bool;
        params = (8, some (codes "x")) ∷ [];
        visited = 8 ∷ [];
        is_generator = false;
      };
      value = typed Rustc.bool (var_ref 8);
      output = Rustc.bool;
    }

abbrev specs : FnSpecs ℕ
specs = record { measures = []; pres = 6 ∷ []; posts = [] }

abbrev named : Bytes → ℕ → SymbolIdentifier
named name global_id = record {
  id = record { name = name; global_id = global_id; id = 0 };
  symbol_path = name ∷ [];
}

abbrev x_var : Variable
x_var = variable x_param (into boolean_type) []

abbrev fd : FunDef
fd =
    fun_def (named (codes "a") 2) [] (val_def x_var ∷ []) (into boolean_type)
      (into (require (into x_var) (into x_var))) []

abbrev with_fn : Extraction crate
with_fn = record (new crate) {
  mapping = record {
    global_id_counter = (tt, 3) ∷ [];
    local_id_counter = (codes "x", 1) ∷ (codes "ret", 1) ∷ (codes "a", 1) ∷ [];
    did_to_stid = (0, named (codes "a") 2) ∷ [];
    hid_to_stid = (5, x_param) ∷ [];
  };
  function_refs = 0 ∷ [];
}
