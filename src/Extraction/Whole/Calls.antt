-- ===== src/Extraction/Whole/Calls.antt =====
-- What the parts of stainless_extraction/src/expr.rs for calls, fields and constructions return without a report
-- has no holes.
use rust_stainless.Prelude.{ℕ, refl, List, [], ◌∷◌, Bool, ◌==◌, All, length}
use rust_stainless.Prelude.Sorting.{sort-All}
use rust_stainless.Ast.Kinds.{expr, FieldType}
use rust_stainless.Ast.Value.{Value}
use rust_stainless.Symbols.{AdtSort}
use rust_stainless.Rustc.{Rustc, bit_width, Ty, Tys, no_tys, AllAdts, AllAdtsOf}
use rust_stainless.Rustc
use rust_stainless.Hair.{FnIn}
use rust_stainless.Extraction.{M}
use rust_stainless.Extraction.Measure.{Listed}
use rust_stainless.Extraction.Fine.{Fine, Any}
use rust_stainless.Extraction.Fuel.{id-Fine}
use rust_stainless.Extraction.Types.{TyParam, to_type}
use rust_stainless.Extraction.Adts.{extract_adt_id}
use rust_stainless.Extraction.Bindings.{DefContext}
use rust_stainless.Extraction.Functions.Stubs.{fn_ref-Fine}
use rust_stainless.Extraction.Patterns.{constructors_of, fields_of, nth}
use rust_stainless.Extraction.Calls.{
  SetOp, CallKind, panic, set_creation, set_op, function, call_kind, set_op_of, add, difference,
  intersection, union, subset, path_eq, box_new, sequence, two_args, extract_set_op,
  extract_set_creation, extract_panic, first_arg, extract_call, call_of, extract_call_like,
  extract_tuple, extract_field, actions, extract_adt_construction,
}
use rust_stainless.Extraction.Whole.{
  IsWhole, elems_whole, Clean, bind-Clean, pure-Clean, fail-Clean, given-Clean, Fine-Clean,
  unsupported-Clean, unwrap-Clean, if-Clean, assert-then-Clean,
}
use rust_stainless.Extraction.Whole.Types.{ty-Clean}
use rust_stainless.Extraction.Whole.Patterns.{arg_types-Clean}

set_op-IsWhole :
    (op : SetOp) (a b : Value expr) → IsWhole a → IsWhole b → IsWhole (set_op_of op a b)
set_op-IsWhole add a b h g = (refl, (h, (g, tt)))
set_op-IsWhole difference a b h g = (refl, (h, (g, tt)))
set_op-IsWhole intersection a b h g = (refl, (h, (g, tt)))
set_op-IsWhole union a b h g = (refl, (h, (g, tt)))
set_op-IsWhole subset a b h g = (refl, (h, (g, tt)))

module _ (rustc : Rustc) (U : List rustc.tcx.DefId) (k n : ℕ) (S : Type 0)
    (extract_adt : rustc.tcx.DefId → M rustc.tcx AdtSort)
    (fine : (d : rustc.tcx.DefId) → Listed d U → Fine U k Any (extract_adt d))
    (map : List (ℕ × TyParam)) (whole : S → All (λ p. IsWhole (to_type p.1)) map)
    (dcx : DefContext rustc) (bound_whole : S → All (λ p. IsWhole p.1) dcx) where
  abbrev InU : rustc.tcx.DefId → Type 0
  InU d = Listed d U

  abbrev E : Type 0
  E = M rustc.tcx (Value expr)

  -- Each of some steps is clean.
  abbrev pub AllClean : {t : FieldType} → List (M rustc.tcx (Value t)) → Type 0
  AllClean ms = All (λ m. Clean U k n S Unit IsWhole m) ms

  pub sequence-Clean :
      {t : FieldType} {H : Type 0} (ms : List (M rustc.tcx (Value t)))
      → AllClean ms
      → Clean U k n S H (All IsWhole) (sequence rustc extract_adt map dcx ms)
  unfolding sequence
  sequence-Clean [] a = pure-Clean U k n S λ q. tt
  sequence-Clean (m ∷ ms) a =
      bind-Clean U k n S (given-Clean U k n S (λ h. tt) a.0)
        λ v. bind-Clean U k n S (sequence-Clean ms a.1) λ vs. pure-Clean U k n S λ q. (q.0.1, q.1)

  two-Clean :
      {H : Type 0} (op : SetOp) (es : List (Value expr))
      → Clean U k n S (H × All IsWhole es) IsWhole (two_args rustc extract_adt map dcx op es)
  two-Clean op [] = fail-Clean U k n S
  two-Clean op (a ∷ []) = fail-Clean U k n S
  two-Clean op (a ∷ b ∷ es) = pure-Clean U k n S λ q. set_op-IsWhole op a b q.1.0 q.1.1.0

  set_op-Clean :
      {H : Type 0} (op : SetOp) (args : List E)
      → AllClean args
      → Clean U k n S H IsWhole (extract_set_op rustc extract_adt map dcx op args)
  unfolding extract_set_op
  set_op-Clean op args a = bind-Clean U k n S (sequence-Clean args a) λ es. two-Clean op es

  set_creation-Clean :
      {H : Type 0} (args : List E) (substs : Tys rustc.tcx.DefId)
      → AllClean args
      → AllAdtsOf InU substs
      → Clean U k n S H IsWhole (extract_set_creation rustc extract_adt map dcx args substs)
  unfolding extract_set_creation
  set_creation-Clean args no_tys a u =
      bind-Clean U k n S (sequence-Clean args a) λ es. fail-Clean U k n S
  set_creation-Clean args (Rustc.ty t ts) a u = bind-Clean U k n S (sequence-Clean args a) λ es.
      bind-Clean U k n S
        (ty-Clean rustc U k n S (extract_adt_id rustc extract_adt)
          (λ d l. id-Fine rustc U k extract_adt d (fine d l)) map whole t u.0)
        λ base. pure-Clean U k n S λ q. (refl, (elems_whole es q.0.1, (q.1, tt)))

  panic-Clean :
      {H : Type 0} (args : List E) (fmt : Bool)
      → AllClean args
      → Clean U k n S H IsWhole (extract_panic rustc extract_adt map dcx args fmt)
  unfolding extract_panic
  panic-Clean [] fmt a = fail-Clean U k n S
  panic-Clean (m ∷ []) fmt a = if-Clean U k n S fmt (unsupported-Clean U k n S _) (
      bind-Clean U k n S (given-Clean U k n S (λ h. tt) a.0)
        λ e. pure-Clean U k n S λ q. (refl, ((q.1, tt), ((refl, ((refl, tt), (tt, tt))), tt))))
  panic-Clean (m ∷ l ∷ ms) fmt a = fail-Clean U k n S

  first-Clean :
      {H : Type 0} (args : List E)
      → AllClean args
      → Clean U k n S H IsWhole (first_arg rustc extract_adt map dcx args)
  first-Clean [] a = fail-Clean U k n S
  first-Clean (m ∷ ms) a = given-Clean U k n S (λ h. tt) a.0

  call-Clean :
      {H : Type 0} (d : rustc.tcx.DefId) (substs : Tys rustc.tcx.DefId) (args : List E)
      → AllAdtsOf InU substs
      → AllClean args
      → Clean U k n S H IsWhole (extract_call rustc extract_adt map dcx d substs args)
  unfolding extract_call
  call-Clean d substs args u a =
      bind-Clean U k n S (Fine-Clean U k n S {Q = Any} (fn_ref-Fine rustc.tcx U d)) λ id.
        if-Clean U k n S (path_eq id.symbol_path box_new) (first-Clean args a) (
          bind-Clean U k n S
            (arg_types-Clean rustc U k n S extract_adt fine map whole dcx bound_whole substs u)
            λ ts. bind-Clean U k n S (sequence-Clean args a) λ es.
              pure-Clean U k n S
                λ q. (refl, (tt, (elems_whole ts q.0.1, (elems_whole es q.1, tt)))))

  call_of-Clean :
      {H : Type 0} (kind : CallKind) (d : rustc.tcx.DefId) (substs : Tys rustc.tcx.DefId)
      (args : List E)
      → AllAdtsOf InU substs
      → AllClean args
      → Clean U k n S H IsWhole (call_of rustc extract_adt map dcx kind d substs args)
  call_of-Clean (panic fmt) d substs args u a = panic-Clean args fmt a
  call_of-Clean set_creation d substs args u a = set_creation-Clean args substs a u
  call_of-Clean (set_op op) d substs args u a = set_op-Clean op args a
  call_of-Clean function d substs args u a = call-Clean d substs args u a

  pub call_like-Clean :
      {H : Type 0} (f : Ty rustc.tcx.DefId) (args : List E)
      → FnIn InU f
      → AllClean args
      → Clean U k n S H IsWhole (extract_call_like rustc extract_adt map dcx f args)
  unfolding extract_call_like
  call_like-Clean (Rustc.fn_def d substs) args u a =
      call_of-Clean (call_kind (rustc.def_to_item d)) d substs args u a
  call_like-Clean Rustc.bool args u a = unsupported-Clean U k n S _
  call_like-Clean Rustc.str args u a = unsupported-Clean U k n S _
  call_like-Clean Rustc.other args u a = unsupported-Clean U k n S _
  call_like-Clean (Rustc.int w) args u a = unsupported-Clean U k n S _
  call_like-Clean (Rustc.uint w) args u a = unsupported-Clean U k n S _
  call_like-Clean (Rustc.tuple us) args u a = unsupported-Clean U k n S _
  call_like-Clean (Rustc.adt d us) args u a = unsupported-Clean U k n S _
  call_like-Clean Rustc.closure args u a = unsupported-Clean U k n S _
  call_like-Clean (Rustc.reference m r) args u a = unsupported-Clean U k n S _
  call_like-Clean (Rustc.param i) args u a = unsupported-Clean U k n S _

  pub tuple-Clean :
      {H : Type 0} (es : List E)
      → AllClean es
      → Clean U k n S H IsWhole (extract_tuple rustc extract_adt map dcx es)
  unfolding extract_tuple
  tuple-Clean [] a = pure-Clean U k n S λ q. (refl, tt)
  tuple-Clean (e ∷ []) a = unsupported-Clean U k n S _
  tuple-Clean (e ∷ f ∷ es) a =
      bind-Clean U k n S (sequence-Clean (e ∷ f ∷ es) a)
        λ vs. pure-Clean U k n S λ q. (refl, (elems_whole vs q.1, tt))

  pub field-Clean :
      {H : Type 0} (t : Ty rustc.tcx.DefId) (index : ℕ) (lhs : E)
      → AllAdts InU t
      → Clean U k n S Unit IsWhole lhs
      → Clean U k n S H IsWhole (extract_field rustc extract_adt map dcx t index lhs)
  unfolding extract_field
  field-Clean (Rustc.tuple tys) index lhs u c =
      bind-Clean U k n S (given-Clean U k n S (λ h. tt) c)
        λ e. pure-Clean U k n S λ q. (refl, (q.1, (tt, tt)))
  field-Clean (Rustc.adt d substs) index lhs u c =
      bind-Clean U k n S (Fine-Clean U k n S (fine d u.0)) λ sort_.
        bind-Clean U k n S
          (assert-then-Clean U k n S (length (constructors_of sort_) == 1)
            (unwrap-Clean U k n S {Q = Any} (nth (constructors_of sort_) 0) (λ s c e. tt)))
          λ con.
            bind-Clean U k n S
              (unwrap-Clean U k n S {Q = Any} (nth (fields_of con) index) (λ s c e. tt))
              λ field.
                bind-Clean U k n S (given-Clean U k n S (λ h. tt) c)
                  λ e. pure-Clean U k n S λ q. (refl, (q.1, (tt, tt)))
  field-Clean Rustc.bool index lhs u c = fail-Clean U k n S
  field-Clean Rustc.str index lhs u c = fail-Clean U k n S
  field-Clean Rustc.other index lhs u c = fail-Clean U k n S
  field-Clean (Rustc.int w) index lhs u c = fail-Clean U k n S
  field-Clean (Rustc.uint w) index lhs u c = fail-Clean U k n S
  field-Clean (Rustc.fn_def d us) index lhs u c = fail-Clean U k n S
  field-Clean Rustc.closure index lhs u c = fail-Clean U k n S
  field-Clean (Rustc.reference m r) index lhs u c = fail-Clean U k n S
  field-Clean (Rustc.param i) index lhs u c = fail-Clean U k n S

  -- The same of steps with indices.
  abbrev pub FieldsClean : List (ℕ × E) → Type 0
  FieldsClean fs = All (λ f. Clean U k n S Unit IsWhole f.1) fs

  actions-AllClean :
      (fs : List (ℕ × E)) → FieldsClean fs → AllClean (actions rustc extract_adt map dcx fs)
  actions-AllClean [] a = tt
  actions-AllClean (f ∷ fs) a = (a.0, actions-AllClean fs a.1)

  pub construction-Clean :
      {H : Type 0} (d : rustc.tcx.DefId) (index : ℕ) (substs : Tys rustc.tcx.DefId)
      (fs : List (ℕ × E)) (base : Bool)
      → Listed d U
      → AllAdtsOf InU substs
      → FieldsClean fs
      → Clean U k n S H IsWhole
          (extract_adt_construction rustc extract_adt map dcx d index substs fs base)
  unfolding extract_adt_construction
  construction-Clean d index substs fs base l u a =
      if-Clean U k n S base (unsupported-Clean U k n S _) (
        bind-Clean U k n S (Fine-Clean U k n S (fine d l)) λ sort_.
          bind-Clean U k n S
            (unwrap-Clean U k n S {Q = Any} (nth (constructors_of sort_) index) (λ s c e. tt))
            λ c.
              bind-Clean U k n S
                (arg_types-Clean rustc U k n S extract_adt fine map whole dcx bound_whole substs u)
                λ ts.
                  bind-Clean U k n S
                    (sequence-Clean _ (actions-AllClean _ (sort-All (λ f. f.0) _ fs a)))
                    λ es.
                      pure-Clean U k n S
                        λ q. (refl, (tt, (elems_whole ts q.0.1, (elems_whole es q.1, tt)))))
