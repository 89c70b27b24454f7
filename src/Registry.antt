-- ===== src/Registry.antt =====
-- The ids of definitions and variables: stainless_extraction/src/utils.rs and the identifier mappings
-- of stainless_extraction/src/lib.rs. A counter is an `i32`; a hash map is an association list.
pub mod Fresh
pub mod Counted
pub mod Paths
pub mod Issued
pub mod Stable
use rust_stainless.Prelude.{
  ℕ, zero, suc, ◌+◌, ◌-◌, ◌%◌, ◌^◌, List, [], ◌∷◌, ◌++◌, Bool, true, false, Option, none, some,
  ◌==◌, if◌then◌else◌, length,
}
use rust_stainless.Prelude.Outcome.{Outcome, done, panicked, ◌>>=◌}
use rust_stainless.Prelude.Texts.{text_eq}
use rust_stainless.Ser.{Bytes, i32_max}
use rust_stainless.Ast.Identifier.{Identifier, SymbolIdentifier}
use rust_stainless.Ast.Encodable.{last}
use rust_stainless.Spec.{all}

-- What the mappings use of rustc and the standard library: the definitions, with their equality and
-- their paths, and the characters of a string. `owner` is `hir_id.owner.to_def_id()`;
-- `overflow_checks` says whether the build checks for overflow.
pub record Tcx : Type 1 where
  pub DefId : Type 0
  pub HirId : Type 0
  pub def_eq : DefId → DefId → Bool
  pub hir_eq : HirId → HirId → Bool
  pub def_path_str : DefId → Bytes
  pub owner : HirId → DefId
  pub chars : Bytes → List ℕ
  pub is_numeric : ℕ → Bool
  pub overflow_checks : Bool

-- `*c += 1` on an `i32`.
abbrev pub increment : Bool → ℕ → Outcome ℕ
increment overflow_checks c =
    if c == i32_max
    then (if overflow_checks then panicked else done ((c + 1) % 2 ^ 32))
    else done ((c + 1) % 2 ^ 32)

abbrev pub UniqueCounter : Type 0 → Type 0
UniqueCounter K = List (K × ℕ)

module _ {K : Type 0} (eq : K → K → Bool) where
  -- `UniqueCounter::fresh`
  unfoldable pub fresh : Bool → UniqueCounter K → K → Outcome (ℕ × UniqueCounter K)
  fresh overflow_checks [] k = done (0, (k, 1) ∷ [])
  fresh overflow_checks ((j, c) ∷ next) k =
      let rest = fresh overflow_checks next k in
      if eq j k
      then (increment overflow_checks c >>= λ d. done (c, (j, d) ∷ next))
      else (rest >>= λ r. done (r.0, (j, c) ∷ r.1))

  abbrev pub get : {V : Type 0} → List (K × V) → K → Option V
  get [] k = none
  get ((j, v) ∷ map) k = if eq j k then some v else get map k

  abbrev pub absent : {V : Type 0} → Option V → Bool
  absent none = true
  absent (some v) = false

  -- `assert!(map.insert(k, v).is_none())`
  unfoldable pub insert_new : {V : Type 0} → List (K × V) → K → V → Outcome (List (K × V))
  insert_new map k v = if absent (get map k) then done ((k, v) ∷ map) else panicked

abbrev pub unit_eq : Unit {0} → Unit {0} → Bool
unit_eq a b = true

abbrev pub on_head : ℕ → List Bytes → List Bytes
on_head c [] = (c ∷ []) ∷ []
on_head c (p ∷ ps) = (c ∷ p) ∷ ps

-- `split("::")`; the flag says that a `:` stands before the rest.
unfoldable pub split_path : Bool → Bytes → List Bytes
split_path colon [] = (if colon then b':' ∷ [] else []) ∷ []
split_path colon (c ∷ s) =
    let rest = split_path false s in
    let pending = split_path true s in
    if c == b':'
    then (if colon then [] ∷ rest else pending)
    else (if colon then on_head b':' (on_head c rest) else on_head c rest)

abbrev pub take : {A : Type 0} → ℕ → List A → List A
take zero xs = []
take (suc n) [] = []
take (suc n) (x ∷ xs) = x ∷ take n xs

abbrev pub unwrap : {A : Type 0} → Option A → Outcome A
unwrap none = panicked
unwrap (some a) = done a

module _ (tcx : Tcx) where
  open tcx use {
    DefId, HirId, def_eq, hir_eq, def_path_str, owner, chars, is_numeric, overflow_checks,
  }

  pub record SymbolMapping : Type 0 where
    pub global_id_counter : UniqueCounter (Unit {0})
    pub local_id_counter : UniqueCounter Bytes
    pub did_to_stid : List (DefId × SymbolIdentifier)
    pub hid_to_stid : List (HirId × SymbolIdentifier)

  -- The mapping of `Extraction::new`.
  abbrev pub new : SymbolMapping
  new = record { global_id_counter = []; local_id_counter = []; did_to_stid = []; hid_to_stid = [] }

  -- `Extraction::fresh_id`
  unfoldable pub fresh_id :
      Bytes → List Bytes → SymbolMapping → Outcome (SymbolIdentifier × SymbolMapping)
  unfolding fresh
  fresh_id name symbol_path xt = fresh unit_eq overflow_checks xt.global_id_counter tt >>= λ g.
      fresh text_eq overflow_checks xt.local_id_counter name >>= λ l. done (
        record {
          id = record { name = name; global_id = g.0; id = l.0 };
          symbol_path = symbol_path;
        },
        record xt { global_id_counter = g.1; local_id_counter = l.1 },
      )

  -- `BaseExtractor::fresh_id`
  abbrev pub fresh_name : Bytes → SymbolMapping → Outcome (SymbolIdentifier × SymbolMapping)
  fresh_name name xt = fresh_id name (name ∷ []) xt

  unfoldable pub symbol_path_from_def_id : DefId → List Bytes
  unfolding split_path
  symbol_path_from_def_id def_id = split_path false (def_path_str def_id)

  -- An underscore is put before a name of numeric characters only.
  unfoldable pub underscored : Bytes → List Bytes → Bytes × List Bytes
  underscored name symbol_path =
      if all is_numeric (chars name)
      then (b'_' ∷ name, take (length symbol_path - 1) symbol_path ++ (b'_' ∷ name) ∷ [])
      else (name, symbol_path)

  abbrev pub get_id_from_def : DefId → SymbolMapping → Option SymbolIdentifier
  get_id_from_def def_id xt = get def_eq xt.did_to_stid def_id

  unfoldable pub register_def : DefId → SymbolMapping → Outcome (SymbolIdentifier × SymbolMapping)
  unfolding underscored insert_new symbol_path_from_def_id
  register_def def_id xt =
      let symbol_path = symbol_path_from_def_id def_id in
      unwrap (last symbol_path) >>= λ name.
      let named = underscored name symbol_path in
      fresh_id named.0 named.1 xt >>= λ r.
      insert_new def_eq (r.1.did_to_stid) def_id r.0 >>= λ dids.
      done (r.0, record (r.1) { did_to_stid = dids })

  unfoldable pub or_register :
      DefId → SymbolMapping → Option SymbolIdentifier → Outcome (SymbolIdentifier × SymbolMapping)
  unfolding register_def
  or_register def_id xt (some id) = done (id, xt)
  or_register def_id xt none = register_def def_id xt

  unfoldable pub get_or_register_def :
      DefId → SymbolMapping → Outcome (SymbolIdentifier × SymbolMapping)
  unfolding or_register
  get_or_register_def def_id xt = or_register def_id xt (get_id_from_def def_id xt)

  unfoldable pub register_hir :
      HirId → Bytes → SymbolMapping → Outcome (SymbolIdentifier × SymbolMapping)
  unfolding insert_new symbol_path_from_def_id
  register_hir hir_id name xt =
      fresh_id name (symbol_path_from_def_id (owner hir_id) ++ name ∷ []) xt >>= λ r.
      insert_new hir_eq (r.1.hid_to_stid) hir_id r.0 >>= λ hids.
      done (r.0, record (r.1) { hid_to_stid = hids })
