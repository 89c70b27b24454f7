-- ===== src/Extraction/Types.antt =====
-- stainless_extraction/src/ty.rs: the extraction of types. Spans are left out, and in a message the
-- text that rustc gives a type.
use rust_stainless.Prelude.{
  ℕ, List, [], ◌∷◌, Bool, true, false, ◌==◌, Option, none, some, if◌then◌else◌,
}
use rust_stainless.Prelude.Texts.{codes, text_eq}
use rust_stainless.Ast.Kinds.{TypeKind, tpe, typ}
use rust_stainless.Ast.Identifier.{SymbolIdentifier}
use rust_stainless.Ast.Value.{Value}
use rust_stainless.Factory.{into}
use rust_stainless.Factory.Types.{
  boolean_type, integer_type, bv_type, unit_type, untyped, tuple_type, set_type, adt_type,
}
use rust_stainless.StdItems.{StdItem}
use rust_stainless.Registry.{get}
use rust_stainless.Rustc.{Rustc, Ty, Tys, IntTy, bit_width, no_tys}
use rust_stainless.Rustc
use rust_stainless.Extraction.{M, pure, fail, unsupported, unwrap, ◌>>=◌, ◌>>◌}

-- `TyParam`
pub data TyParam : Type 0 where
  replaced : Value tpe → TyParam
  extracted : Value (typ TypeKind.type_parameter) → TyParam

-- `From<&TyParam> for st::Type`
abbrev pub to_type : TyParam → Value tpe
to_type (replaced t) = t
to_type (extracted tparam) = into tparam

abbrev pub index_eq : ℕ → ℕ → Bool
index_eq i j = i == j

-- `is_bigint`
abbrev pub is_bigint : (rustc : Rustc) → rustc.tcx.DefId → Bool
is_bigint rustc did = text_eq (rustc.tcx.def_path_str did) (codes "num_bigint::BigInt")

-- `is_bv_type`, `is_signed_bv_type` and `is_bigint_type`
abbrev pub is_bv_type : {D : Type 0} → Ty D → Bool
is_bv_type (Rustc.int w) = true
is_bv_type (Rustc.uint w) = true
is_bv_type _ = false

abbrev pub is_signed_bv_type : {D : Type 0} → Ty D → Bool
is_signed_bv_type (Rustc.int w) = true
is_signed_bv_type _ = false

abbrev pub is_bigint_type : (rustc : Rustc) → Ty (rustc.tcx.DefId) → Bool
is_bigint_type rustc (Rustc.adt did substs) = is_bigint rustc did
is_bigint_type rustc _ = false

abbrev pub is_set_type : Option StdItem → Bool
is_set_type (some StdItem.set_type) = true
is_set_type _ = false

-- `extract_adt_id` and the map `index_to_tparam` of the surrounding item are parameters.
module _ (rustc : Rustc) (extract_adt_id : rustc.tcx.DefId → M (rustc.tcx) SymbolIdentifier)
    (index_to_tparam : List (ℕ × TyParam)) where
  abbrev pub untyped_with : Value tpe → M (rustc.tcx) (Value tpe)
  untyped_with t = unsupported (codes "Cannot extract type") >> pure t

  abbrev pub int_type : Bool → Option ℕ → M (rustc.tcx) (Value tpe)
  int_type signed (some width) = pure (into (bv_type signed width))
  int_type signed none = untyped_with (into untyped)

  abbrev pub tuple_of : List (Value tpe) → M (rustc.tcx) (Value tpe)
  tuple_of [] = pure (into unit_type)
  tuple_of (t ∷ []) = unsupported (codes "Cannot extract type of one-tuples") >> pure (into untyped)
  tuple_of (t ∷ u ∷ ts) = pure (into (tuple_type (t ∷ u ∷ ts)))

  -- An ADT, with its first argument and all of them.
  abbrev pub adt_of :
      rustc.tcx.DefId
      → M (rustc.tcx) (Value tpe)
      → M (rustc.tcx) (List (Value tpe))
      → M (rustc.tcx) (Value tpe)
  adt_of did first args =
      if is_bigint rustc did
      then pure (into integer_type)
      else (if rustc.is_box did
          then first
          else (if is_set_type (rustc.def_to_item did)
              then (first >>= λ arg_ty. pure (into (set_type arg_ty)))
              else (extract_adt_id did >>= λ sort_id.
                  args >>= λ arg_tps. pure (into (adt_type sort_id arg_tps)))))

  unfoldable mutual
    -- `extract_ty`
    pub extract_ty : Ty (rustc.tcx.DefId) → M (rustc.tcx) (Value tpe)
    extract_ty Rustc.bool = pure (into boolean_type)
    extract_ty (Rustc.int w) = int_type true (bit_width w)
    extract_ty (Rustc.uint w) = int_type false (bit_width w)
    extract_ty (Rustc.tuple tys) = extract_tys tys >>= tuple_of
    extract_ty (Rustc.adt did substs) = adt_of did (extract_first substs) (extract_tys substs)
    extract_ty (Rustc.reference false ty) = extract_ty ty
    extract_ty (Rustc.param index) =
        unwrap (get index_eq index_to_tparam index) >>= λ tparam. pure (to_type tparam)
    extract_ty _ = untyped_with (into untyped)

    -- `extract_tys`
    pub extract_tys : Tys (rustc.tcx.DefId) → M (rustc.tcx) (List (Value tpe))
    extract_tys no_tys = pure []
    extract_tys (Rustc.ty t ts) =
        extract_ty t >>= λ tpe. extract_tys ts >>= λ tpes. pure (tpe ∷ tpes)

    -- `extract_ty(substitutions.type_at(0))`, which fails where there is no type.
    pub extract_first : Tys (rustc.tcx.DefId) → M (rustc.tcx) (Value tpe)
    extract_first no_tys = fail
    extract_first (Rustc.ty t ts) = extract_ty t
