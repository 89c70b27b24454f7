-- ===== src/Extraction/Fuel.antt =====
-- How much fuel the extraction of a data type takes: `extract_adt` and `extract_adt_id` of
-- stainless_extraction/src/krate.rs.
use rust_stainless.Prelude.{
  ℕ, zero, suc, ◌≤◌, ◌<◌, ◌≡◌, ◌≢◌, refl, List, [], ◌∷◌, true, Option, none, some, All, arith,
}
use rust_stainless.Prelude.Outcome.{Outcome}
use rust_stainless.Prelude.Run.{Run, returned, panicked, exhausted}
use rust_stainless.Ast.Identifier.{SymbolIdentifier}
use rust_stainless.Symbols.{AdtSort}
use rust_stainless.Flags.{Warning}
use rust_stainless.Registry.{Tcx, SymbolMapping, get_id_from_def, register_def}
use rust_stainless.Rustc.{Rustc, Field, Variant, AllAdts, AllAdtsIn, ParentsWithin}
use rust_stainless.Extraction.{M, Extraction, with_mapping, continue_with}
use rust_stainless.Extraction.Measure.{
  Keeps, Listed, missing, missing-decreases, register_def-new, register_def-Keeps,
}
use rust_stainless.Extraction.Fine.{
  Good-after, Grows-mapping, Good, Fine, Any, bind-Fine, pure-Fine, report-Fine, reads-Fine,
  if-Fine, get_or_register-Fine,
}
use rust_stainless.Extraction.Types.{TyParam}
use rust_stainless.Extraction.Enough.{generics-Fine}
use rust_stainless.Extraction.Enough.Types.{ty-Fine}
use rust_stainless.Extraction.Adts.{
  FlagMap, flags_of, report_warnings, report_unused_flags, extract_field, extract_fields,
  extract_constructors, extract_adt_id, id_or, extract_new, known_sort, sort_or, extract_adt,
}

-- `U` lists each data type that the ones of `U` name in their fields and in the bounds of their
-- parameters, and they lie at most `depth` deep in other items.
pub record Closed (rustc : Rustc) (depth : ℕ) (U : List rustc.tcx.DefId) : Type 0 where
  pub fields_in :
      (d : rustc.tcx.DefId)
      → Listed d U
      → All (λ v. All (λ f. AllAdts (λ c. Listed c U) f.field_ty) v.fields) (rustc.variants d)
  pub predicates_in :
      (d : rustc.tcx.DefId) → Listed d U → All (AllAdtsIn (λ c. Listed c U)) (rustc.predicates_of d)
  pub parents_in :
      (d : rustc.tcx.DefId) → Listed d U → ParentsWithin rustc depth (rustc.generics_of d).parent

-- Iterating over a map yields entries of the map only.
abbrev pub IteratesEntries : Rustc → Type 1
IteratesEntries rustc =
    (A : Type 0) (P : ℕ × A → Type 0) (xs : List (ℕ × A)) → All P xs → All P (rustc.iterate xs)

module _ (rustc : Rustc) (U : List rustc.tcx.DefId) where
  abbrev InU : rustc.tcx.DefId → Type 0
  InU d = Listed d U

  module _ (k : ℕ) where
    report_warnings-Fine : (ws : List Warning) → Fine U k Any (report_warnings rustc ws)
    report_warnings-Fine [] = pure-Fine U tt
    report_warnings-Fine (w ∷ ws) = bind-Fine U (report_warnings-Fine ws) λ u q. report-Fine U _

    report_unused_flags-Fine : (map : FlagMap) → Fine U k Any (report_unused_flags rustc map)
    report_unused_flags-Fine [] = pure-Fine U tt
    report_unused_flags-Fine (entry ∷ map) = report-Fine U _

    module _ (extract_id : rustc.tcx.DefId → M (rustc.tcx) SymbolIdentifier)
        (fine : (d : rustc.tcx.DefId) → Listed d U → Fine U k Any (extract_id d))
        (index_to_tparam : List (ℕ × TyParam)) where
      field-Fine :
          (field : Field (rustc.tcx.DefId)) (map : FlagMap)
          → AllAdts InU field.field_ty
          → Fine U k Any (extract_field rustc extract_id index_to_tparam field map)
      unfolding extract_field
      field-Fine field map a = bind-Fine U (get_or_register-Fine U field.did) λ id q.
          bind-Fine U (ty-Fine rustc U k extract_id fine index_to_tparam field.field_ty a)
            λ t r. pure-Fine U tt

      fields-Fine :
          (fields : List (Field (rustc.tcx.DefId))) (map : FlagMap)
          → All (λ f. AllAdts InU f.field_ty) fields
          → Fine U k Any (extract_fields rustc extract_id index_to_tparam fields map)
      unfolding extract_fields
      fields-Fine [] map a = pure-Fine U tt
      fields-Fine (field ∷ fields) map a =
          bind-Fine U (field-Fine field map a.0)
            λ v q. bind-Fine U (fields-Fine fields v.1 a.1) λ vs r. pure-Fine U tt

      constructors-Fine :
          (adt_id : SymbolIdentifier) (variants : List (Variant (rustc.tcx.DefId))) (map : FlagMap)
          → All (λ v. All (λ f. AllAdts InU f.field_ty) v.fields) variants
          → Fine U k Any (extract_constructors rustc extract_id index_to_tparam adt_id variants map)
      unfolding extract_constructors
      constructors-Fine adt_id [] map a = pure-Fine U tt
      constructors-Fine adt_id (v ∷ variants) map a =
          bind-Fine U (get_or_register-Fine U v.def_id) λ id q.
            bind-Fine U (fields-Fine v.fields map a.0) λ fields r.
              bind-Fine U (constructors-Fine adt_id variants fields.1 a.1) λ rest s. pure-Fine U tt

    new-Fine :
        (depth : ℕ) (extract_id : rustc.tcx.DefId → M (rustc.tcx) SymbolIdentifier)
        (d : rustc.tcx.DefId) (adt_id : SymbolIdentifier)
        → IteratesEntries rustc
        → Closed rustc depth U
        → Listed d U
        → ((c : rustc.tcx.DefId) → Listed c U → Fine U k Any (extract_id c))
        → Fine U k Any (extract_new rustc depth extract_id d adt_id)
    unfolding extract_new
    new-Fine depth extract_id d adt_id i c u fine =
        bind-Fine U
          (bind-Fine U (report_warnings-Fine (flags_of rustc d).warnings) λ o q.
            generics-Fine rustc U k extract_id fine depth d (i _ _) (c.parents_in d u)
              (c.predicates_in d u))
          λ generics r.
            bind-Fine U
              (constructors-Fine extract_id fine generics.1 adt_id (rustc.variants d) _
                (c.fields_in d u))
              λ constructors s.
                bind-Fine U
                  (if-Fine U (rustc.is_local d) (report_unused_flags-Fine constructors.1)
                    (pure-Fine U tt))
                  λ o t. pure-Fine U tt

    id_or-Fine :
        (extract : rustc.tcx.DefId → M (rustc.tcx) AdtSort) (d : rustc.tcx.DefId)
        (o : Option SymbolIdentifier)
        → Fine U k Any (extract d)
        → Fine U k Any (id_or rustc extract d o)
    id_or-Fine extract d none f = bind-Fine U f λ sort q. pure-Fine U tt
    id_or-Fine extract d (some id) f = pure-Fine U tt

    pub id-Fine :
        (extract : rustc.tcx.DefId → M (rustc.tcx) AdtSort) (d : rustc.tcx.DefId)
        → Fine U k Any (extract d)
        → Fine U k Any (extract_adt_id rustc extract d)
    unfolding extract_adt_id
    id-Fine extract d f = bind-Fine U (reads-Fine U _) λ o q. id_or-Fine extract d o f

  -- One definition less is missing after an id is given.
  register-Good :
      {B : Type 0} (k : ℕ) (f : SymbolIdentifier → M (rustc.tcx) B) (xt : Extraction rustc.tcx)
      (o : Outcome (SymbolIdentifier × SymbolMapping rustc.tcx))
      → ((id : SymbolIdentifier) (after : SymbolMapping rustc.tcx)
          → o ≡ Outcome.done (id, after)
          → (missing rustc.tcx U after < k) × Keeps rustc.tcx xt.mapping after)
      → ((j : ℕ) → suc j ≡ k → (id : SymbolIdentifier) → Fine U j Any (f id))
      → Good U Any xt (continue_with f (with_mapping xt o))
  register-Good k f xt Outcome.panicked h rest = tt
  register-Good zero f xt (Outcome.done (id, after)) h rest =
      absurd (omega (arith, (h id after refl).0))
  register-Good (suc j) f xt (Outcome.done (id, after)) h rest =
      let later = record xt { mapping = after } in
      Good-after U Any (f id later) (Grows-mapping xt after (h id after refl).1)
        ((rest j refl id).good later (omega (arith, (h id after refl).0)))

  sort_or-Fine :
      {k : ℕ} (m : M (rustc.tcx) AdtSort) (o : Option AdtSort)
      → Fine U k Any m
      → Fine U k Any (sort_or rustc m o)
  sort_or-Fine m none f = f
  sort_or-Fine m (some sort) f = pure-Fine U tt

  module _ (depth : ℕ) (reflexive : (d : rustc.tcx.DefId) → rustc.tcx.def_eq d d ≡ true)
      (iterates : IteratesEntries rustc) (closed : Closed rustc depth U) where
    registered :
        (k : ℕ) (d : rustc.tcx.DefId) (xt : Extraction rustc.tcx) (id : SymbolIdentifier)
        (after : SymbolMapping rustc.tcx)
        → Listed d U
        → missing rustc.tcx U xt.mapping ≤ k
        → register_def rustc.tcx d xt.mapping ≡ Outcome.done (id, after)
        → missing rustc.tcx U after < k
    registered k d xt id after u b e =
        let (absent_before, dids) = register_def-new rustc.tcx d xt.mapping after id e in
        let there : get_id_from_def rustc.tcx d after ≡ some id = rw (dids, reflexive d) refl in
        omega (
          arith,
          missing-decreases rustc.tcx U xt.mapping after d id u
              (register_def-Keeps rustc.tcx d xt.mapping after id e) absent_before there,
        )

    pub adt-Fine :
        (fuel k : ℕ) (d : rustc.tcx.DefId)
        → k < fuel
        → Listed d U
        → Fine U k Any (extract_adt rustc depth fuel d)
    unfolding extract_adt
    adt-Fine zero k d l u = absurd (omega arith)
    adt-Fine (suc fuel) k d l u = bind-Fine U (reads-Fine U (known_sort rustc d)) λ o q.
        sort_or-Fine _ o (record {
          good = λ xt b.
              register-Good k _ xt (register_def rustc.tcx d xt.mapping)
                (λ id after e. (
                  registered k d xt id after u b e,
                  register_def-Keeps rustc.tcx d xt.mapping after id e,
                ))
                (λ j s id.
                  new-Fine j depth (extract_adt_id rustc (extract_adt rustc depth fuel)) d id
                    iterates closed u
                    λ c v.
                      id-Fine j (extract_adt rustc depth fuel) c
                        (adt-Fine fuel j c (omega arith) v));
        })

pub returned_or_panicked :
    {A : Type 0} {tcx : Tcx} (U : List tcx.DefId) (Q : A → Type 0) (before : Extraction tcx)
    (r : Run (A × Extraction tcx))
    → Good U Q before r
    → r ≢ exhausted
returned_or_panicked U Q before (returned p) g e = cc
returned_or_panicked U Q before panicked g e = cc
returned_or_panicked U Q before exhausted g e = g

-- The extraction of a data type of a closed list `U` ends, with a sort or a panic, if the fuel is larger
-- than the number of definitions of `U` that have no id yet: each call of `extract_adt` in itself
-- gives an id to one of them. Equality of definitions is reflexive, and iterating over a hash map yields
-- its entries only.
pub extract_adt-ends :
    (rustc : Rustc) (depth : ℕ) (U : List rustc.tcx.DefId)
    → ((d : rustc.tcx.DefId) → rustc.tcx.def_eq d d ≡ true)
    → IteratesEntries rustc
    → Closed rustc depth U
    → (fuel : ℕ) (def_id : rustc.tcx.DefId) (xt : Extraction rustc.tcx) → Listed def_id U
    → missing rustc.tcx U xt.mapping < fuel
    → extract_adt rustc depth fuel def_id xt ≢ exhausted
extract_adt-ends rustc depth U reflexive iterates closed fuel d xt u l =
    returned_or_panicked U Any xt (extract_adt rustc depth fuel d xt)
      ((adt-Fine rustc U depth reflexive iterates closed fuel _ d l u).good xt (omega arith))
