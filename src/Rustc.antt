-- ===== src/Rustc.antt =====
-- What the extraction reads of rustc's data: types, generics, predicates and definitions of data types.
-- The kinds of types that the extraction does not tell apart are `other`.
use rust_stainless.Prelude.{ℕ, zero, suc, List, Bool, Option, none, some}
use rust_stainless.Prelude.Texts.{Text}
use rust_stainless.Flags.{Attribute}
use rust_stainless.StdItems.{StdItem}
use rust_stainless.Ser.{Bytes}
use rust_stainless.Registry.{Tcx}

-- `ast::IntTy` and `ast::UintTy`: `size` is `isize` or `usize`.
pub data IntTy : Type 0 where
  size i8 i16 i32 i64 i128 : IntTy

-- `bit_width`
abbrev pub bit_width : IntTy → Option ℕ
bit_width IntTy.size = none
bit_width IntTy.i8 = some 8
bit_width IntTy.i16 = some 16
bit_width IntTy.i32 = some 32
bit_width IntTy.i64 = some 64
bit_width IntTy.i128 = some 128

-- `TyKind`. A data type or function is given by its definition, with the types it is applied to; the
-- flag of a reference says whether it is mutable.
mutual
  pub data Ty (D : Type 0) : Type 0 where
    bool str other : Ty D
    int uint : IntTy → Ty D
    tuple : Tys D → Ty D
    adt fn_def : D → Tys D → Ty D
    closure : Ty D
    reference : Bool → Ty D → Ty D
    param : ℕ → Ty D

  pub data Tys (D : Type 0) : Type 0 where
    no_tys : Tys D
    ty : Ty D → Tys D → Tys D

-- What is read of a constant: its type, `try_to_bits` for a size in bits, and the text of a slice, which
-- is `some none` where its bytes are not UTF-8.
pub record Const (D : Type 0) : Type 0 where
  pub const_ty : Ty D
  pub try_to_bits : ℕ → Option ℕ
  pub slice : Option (Option Bytes)

pub record Field (D : Type 0) : Type 0 where
  pub did : D
  pub name : Text
  pub field_ty : Ty D

pub record Variant (D : Type 0) : Type 0 where
  pub def_id : D
  pub fields : List (Field D)

-- `is_type` says that the kind of the parameter is `GenericParamDefKind::Type`.
pub record GenericParam (D : Type 0) : Type 0 where
  pub index : ℕ
  pub def_id : D
  pub is_type : Bool

pub record Generics (D : Type 0) : Type 0 where
  pub parent : Option D
  pub params : List (GenericParam D)

-- `PredicateKind`: a trait with its type `Self` and its first argument, a projection with the type that
-- it is equal to.
pub data Predicate (D : Type 0) : Type 0 where
  trait : D → Ty D → Ty D → Predicate D
  projection : D → Ty D → Ty D → Predicate D
  other : Predicate D

-- The queries. `def_to_item` and `is_one_of` are those of `StdItems`. `iterate` is the order in which a
-- hash map with integer keys yields its entries.
pub record Rustc : Type 1 where
  pub tcx : Tcx
  pub def_to_item : tcx.DefId → Option StdItem
  pub is_one_of : tcx.DefId → List StdItem → Bool
  pub is_box : tcx.DefId → Bool
  pub is_local : tcx.DefId → Bool
  pub is_closure : tcx.DefId → Bool
  pub variants : tcx.DefId → List (Variant tcx.DefId)
  pub attrs : tcx.DefId → List Attribute
  pub generics_of : tcx.DefId → Generics tcx.DefId
  pub predicates_of : tcx.DefId → List (Predicate tcx.DefId)
  pub iterate : {A : Type 0} → List (ℕ × A) → List (ℕ × A)

-- Each data type that is named in a type is as `P` says.
abbrev mutual
  pub AllAdts : {D : Type 0} → (D → Type 0) → Ty D → Type 0
  AllAdts P (adt d substs) = P d × AllAdtsOf P substs
  AllAdts P (tuple tys) = AllAdtsOf P tys
  AllAdts P (reference b t) = AllAdts P t
  AllAdts P _ = Unit

  pub AllAdtsOf : {D : Type 0} → (D → Type 0) → Tys D → Type 0
  AllAdtsOf P no_tys = Unit
  AllAdtsOf P (ty t ts) = AllAdts P t × AllAdtsOf P ts

-- The same of the types that the extraction reads of a predicate.
abbrev pub AllAdtsIn : {D : Type 0} → (D → Type 0) → Predicate D → Type 0
AllAdtsIn P (Predicate.trait d self arg) = AllAdts P arg
AllAdtsIn P (Predicate.projection d self t) = AllAdts P t
AllAdtsIn P Predicate.other = Unit

-- An item has at most so many parents, one in the other.
abbrev pub ParentsWithin : (rustc : Rustc) → ℕ → Option (rustc.tcx.DefId) → Type 0
ParentsWithin rustc n none = Unit
ParentsWithin rustc zero (some parent) = ⊥
ParentsWithin rustc (suc n) (some parent) = ParentsWithin rustc n (rustc.generics_of parent).parent
