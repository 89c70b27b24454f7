-- ===== src/Extraction/Adts.antt =====
-- stainless_extraction/src/krate.rs: the extraction of data types.
use rust_stainless.Prelude.{ℕ, zero, suc, List, [], ◌∷◌, Option, none, some, if◌then◌else◌}
use rust_stainless.Prelude.Texts.{Text, codes, text_eq}
use rust_stainless.Ast.Kinds.{flg, def, oth, DefinitionKind, OtherKind}
use rust_stainless.Ast.Identifier.{SymbolIdentifier}
use rust_stainless.Ast.Value.{Value}
use rust_stainless.Factory.Definitions.{adt_sort, adt_constructor, val_def}
use rust_stainless.Factory.Exprs.{variable}
use rust_stainless.Symbols.{AdtSort, sort_id}
use rust_stainless.Flags.{Flag, Extracted, Warning, extract_flags, to_stainless}
use rust_stainless.Registry.{get, get_id_from_def, register_def, get_or_register_def}
use rust_stainless.Rustc.{Rustc, Field, Variant}
use rust_stainless.Extraction.{
  M, Extraction, Diagnostic, pure, out_of_fuel, report, on_mapping, reads, get_sort, add_adt, ◌>>=◌,
  ◌>>◌,
}
use rust_stainless.Extraction.Types.{TyParam, extract_ty}
use rust_stainless.Extraction.Generics.{extract_generics}

-- `flags_by_symbol`
abbrev pub FlagMap : Type 0
FlagMap = List (Text × List Flag)

abbrev pub remove_symbol : Text → FlagMap → FlagMap
remove_symbol name [] = []
remove_symbol name ((s, set) ∷ map) =
    if text_eq s name then map else (s, set) ∷ remove_symbol name map

-- `unwrap_or_default`
abbrev pub stainless_flags : Option (List Flag) → List (Value flg)
stainless_flags none = []
stainless_flags (some set) = to_stainless set

module _ (rustc : Rustc) where
  open rustc use {tcx}

  abbrev Def : Type 0
  Def = tcx.DefId

  abbrev pub report_warnings : List Warning → M tcx (Unit {0})
  report_warnings [] = pure tt
  report_warnings (w ∷ ws) = report_warnings ws >> report (Diagnostic.attribute w)

  -- `report_unused_flags`
  abbrev pub report_unused_flags : FlagMap → M tcx (Unit {0})
  report_unused_flags [] = pure tt
  report_unused_flags (entry ∷ map) =
      report (Diagnostic.warning (codes "Stainless annotations for non-existent parameters"))

  abbrev no_flags : Extracted
  no_flags = record { carrier_flags = []; flags_by_symbol = []; warnings = [] }

  -- The flags of a local definition; there are none for the others.
  unfoldable pub flags_of : Def → Extracted
  unfolding extract_flags
  flags_of def_id = if rustc.is_local def_id then extract_flags (rustc.attrs def_id) else no_flags

  module _ (extract_adt_id : Def → M tcx SymbolIdentifier)
      (index_to_tparam : List (ℕ × TyParam)) where
    -- The closure that extracts a field, with the flags that are left.
    unfoldable pub extract_field :
        Field Def → FlagMap → M tcx (Value (def DefinitionKind.val_def) × FlagMap)
    unfolding get_or_register_def extract_ty
    extract_field field map = on_mapping (get_or_register_def tcx field.did) >>= λ field_id.
        extract_ty rustc extract_adt_id index_to_tparam field.field_ty >>= λ field_ty.
        let flags = stainless_flags (get text_eq map field.name) in
        pure (val_def (variable field_id field_ty flags), remove_symbol field.name map)

    unfoldable pub extract_fields :
        List (Field Def) → FlagMap → M tcx (List (Value (def DefinitionKind.val_def)) × FlagMap)
    unfolding extract_field
    extract_fields [] map = pure ([], map)
    extract_fields (field ∷ fields) map =
        extract_field field map >>= λ v. extract_fields fields v.1 >>= λ vs. pure (v.0 ∷ vs.0, vs.1)

    unfoldable pub extract_constructors :
        SymbolIdentifier
        → List (Variant Def)
        → FlagMap
        → M tcx (List (Value (oth OtherKind.adt_constructor)) × FlagMap)
    unfolding extract_fields get_or_register_def
    extract_constructors adt_id [] map = pure ([], map)
    extract_constructors adt_id (variant ∷ variants) map =
        on_mapping (get_or_register_def tcx variant.def_id) >>= λ cons_id.
        extract_fields variant.fields map >>= λ fields.
        extract_constructors adt_id variants fields.1 >>= λ rest.
        pure (adt_constructor cons_id adt_id fields.0 ∷ rest.0, rest.1)

  abbrev pub id_or : (Def → M tcx AdtSort) → Def → Option SymbolIdentifier → M tcx SymbolIdentifier
  id_or extract_adt def_id (some id) = pure id
  id_or extract_adt def_id none = extract_adt def_id >>= λ sort. pure (sort_id sort)

  -- `extract_adt_id`, with the function that extracts a data type.
  unfoldable pub extract_adt_id : (Def → M tcx AdtSort) → Def → M tcx SymbolIdentifier
  extract_adt_id extract_adt def_id =
      reads (λ xt. get_id_from_def tcx def_id xt.mapping) >>= id_or extract_adt def_id

  -- The second part of `extract_adt`, once the data type has its id.
  unfoldable pub extract_new :
      ℕ → (Def → M tcx SymbolIdentifier) → Def → SymbolIdentifier → M tcx AdtSort
  unfolding flags_of extract_generics extract_constructors
  extract_new depth extract_id def_id adt_id =
      let flags = flags_of def_id in
      report_warnings flags.warnings
      >> extract_generics rustc extract_id depth def_id
      >>= λ generics.
          extract_constructors extract_id generics.1 adt_id (rustc.variants def_id)
            flags.flags_by_symbol
          >>= λ constructors.
              (if rustc.is_local def_id then report_unused_flags constructors.1 else pure tt)
              >> pure (adt_sort adt_id generics.0 constructors.0 (to_stainless flags.carrier_flags))

  -- The sort that is known for a definition.
  abbrev pub sort_for : Extraction tcx → Option SymbolIdentifier → Option AdtSort
  sort_for xt none = none
  sort_for xt (some id) = get_sort xt.adts id

  abbrev pub known_sort : Def → Extraction tcx → Option AdtSort
  known_sort def_id xt = sort_for xt (get_id_from_def tcx def_id xt.mapping)

  abbrev pub sort_or : M tcx AdtSort → Option AdtSort → M tcx AdtSort
  sort_or extract (some sort) = pure sort
  sort_or extract none = extract

  -- `extract_adt`; its calls of itself have one unit of fuel less, and `depth` is the fuel of
  -- `extract_generics`.
  unfoldable pub extract_adt : ℕ → ℕ → Def → M tcx AdtSort
  unfolding extract_adt_id extract_new register_def
  extract_adt depth zero def_id = out_of_fuel
  extract_adt depth (suc fuel) def_id =
      let extract_id = extract_adt_id (extract_adt depth fuel) in
      reads (known_sort def_id)
      >>= sort_or (on_mapping (register_def tcx def_id) >>= extract_new depth extract_id def_id)

  -- The loop of `process_crate` over the data types of the crate.
  unfoldable pub extract_adts : ℕ → ℕ → List Def → M tcx (Unit {0})
  unfolding extract_adt
  extract_adts depth fuel [] = pure tt
  extract_adts depth fuel (def_id ∷ def_ids) = extract_adt depth fuel def_id >>= λ sort.
      add_adt (sort_id sort) sort >> extract_adts depth fuel def_ids
