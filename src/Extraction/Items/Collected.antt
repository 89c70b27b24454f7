-- ===== src/Extraction/Items/Collected.antt =====
-- What `process_crate` of stainless_extraction/src/krate.rs finds in a crate, item by item.
use rust_stainless.Prelude.{
  ◌≡◌, refl, sym, ap, subst, ◌∙◌, List, [], ◌∷◌, ◌++◌, append_assoc, append-nil, Bool, true, false,
  not, ◌&&◌, Option, none, some, if◌then◌else◌, inl, inr, Bool-cases, All,
}
use rust_stainless.Prelude.Texts.{Text, text_eq, All-append}
use rust_stainless.Registry.{get}
use rust_stainless.Spec.{SpecType, pre, post, measure}
use rust_stainless.Extraction.Items.{
  FnItem, Item, ImplItem, Found, CrateTcx, FnSpecs, is_spec_fn, should_ignore, keep, new, push_spec,
  insert_named, add_fn, add_impl, attach, attach_all, find_fn, fns_by_identifier, visit_item,
  visit_items, nothing, fn_specs, all_items, specs_of, unsupported_item, add_typed,
}
use rust_stainless.Extraction.Items
use rust_stainless.Extraction.Items.Contributions.{
  flat, only_if, has_type, of_type, DistinctNames, HasDistinctNames, named_fns, is_nested_spec,
  is_parent, names, adts_in, functions_in, specs_in, specs_by_type,
}

-- No function of a block has the name.
abbrev Unnamed : {D : Type 0} → Text → List (ImplItem D) → Type 0
Unnamed name items = All (λ i. i.is_fn && text_eq name i.ident ≡ false) items

module _ (tcx : CrateTcx) where
  abbrev Def : Type 0
  Def = tcx.DefId

  fn_specs-by_type : (items : List (FnItem Def)) → fn_specs items ≡ specs_by_type tcx items
  unfolding fn_specs
  fn_specs-by_type [] = refl
  fn_specs-by_type (item ∷ items) =
      ap (add_typed item.spec_type item.def_id) (fn_specs-by_type items) ∙ one item.spec_type
    where
      one :
          (o : Option SpecType)
          → add_typed o item.def_id (specs_by_type tcx items) ≡ record {
            measures = only_if (has_type measure o) item.def_id ++ of_type measure items;
            pres = only_if (has_type pre o) item.def_id ++ of_type pre items;
            posts = only_if (has_type post o) item.def_id ++ of_type post items;
          }
      one none = refl
      one (some measure) = refl
      one (some pre) = refl
      one (some post) = refl

  insert_named-absent :
      (fns : List (Text × FnItem Def)) (name : Text) (item : FnItem Def)
      → All (λ entry. text_eq entry.0 name ≡ false) fns
      → insert_named fns name item ≡ fns ++ (name, item) ∷ []
  insert_named-absent [] name item a = refl
  insert_named-absent ((n, f) ∷ fns) name item a =
      rw a.0 (ap (λ rest. (n, f) ∷ rest) (insert_named-absent fns name item a.1))

  keep-flat :
      (p : FnItem Def → Bool) (fns : List (Text × FnItem Def))
      → keep p fns ≡ flat (λ entry. only_if (p entry.1) entry.1) fns
  keep-flat p [] = refl
  keep-flat p ((n, f) ∷ fns) = elim (Bool-cases (p f)) [
    | inl y ↦ rw y (ap (λ rest. f ∷ rest) (keep-flat p fns))
    | inr m ↦ rw m (keep-flat p fns)
  ]

  -- The specs of `d` in a map.
  abbrev stored : List (Def × List (FnItem Def)) → Def → List (FnItem Def)
  stored specs d = all_items (get tcx.def_eq specs d)

  Unnamed-first :
      (i : ImplItem Def) (items : List (ImplItem Def))
      → i.is_fn ≡ true
      → All (λ j. i.is_fn && (j.is_fn && text_eq i.ident j.ident) ≡ false) items
      → Unnamed i.ident items
  Unnamed-first i [] f a = tt
  Unnamed-first i (j ∷ items) f a = (rw f at a.0, Unnamed-first i items f a.1)

  Unnamed-here :
      (fns : List (Text × FnItem Def)) (i : ImplItem Def) (items : List (ImplItem Def))
      → i.is_fn ≡ true
      → All (λ entry. Unnamed entry.0 (i ∷ items)) fns
      → All (λ entry. text_eq entry.0 i.ident ≡ false) fns
  Unnamed-here [] i items f a = tt
  Unnamed-here ((n, g) ∷ fns) i items f a = (rw f at a.0.0, Unnamed-here fns i items f a.1)

  Unnamed-later :
      (fns : List (Text × FnItem Def)) (i : ImplItem Def) (items : List (ImplItem Def))
      → All (λ entry. Unnamed entry.0 (i ∷ items)) fns
      → All (λ entry. Unnamed entry.0 items) fns
  Unnamed-later [] i items a = tt
  Unnamed-later ((n, g) ∷ fns) i items a = (a.0.1, Unnamed-later fns i items a.1)

  fns_by_identifier-named :
      (items : List (ImplItem Def)) (fns : List (Text × FnItem Def))
      → DistinctNames items
      → All (λ entry. Unnamed entry.0 items) fns
      → fns_by_identifier tcx items fns ≡ fns ++ named_fns tcx items
  unfolding fns_by_identifier
  fns_by_identifier-named [] fns d a = sym (append-nil fns)
  fns_by_identifier-named (i ∷ items) fns d a = elim (Bool-cases i.is_fn) [
    | inl y ↦
        let made = new tcx i.def_id i.ident i.from_expansion in
        rw (y, insert_named-absent fns i.ident made (Unnamed-here fns i items y a))
          (fns_by_identifier-named items (fns ++ (i.ident, made) ∷ []) d.1 (
              All-append _ fns ((i.ident, made) ∷ []) (Unnamed-later fns i items a)
                (Unnamed-first i items y d.0, tt))
            ∙ append_assoc fns ((i.ident, made) ∷ []) (named_fns tcx items))
    | inr m ↦ rw m (fns_by_identifier-named items fns d.1 (Unnamed-later fns i items a))
  ]

  -- What the definitions' comparison says is equality.
  module _ (reflexive : (d : Def) → tcx.def_eq d d ≡ true)
      (sound : (c d : Def) → tcx.def_eq c d ≡ true → c ≡ d) where
    push_spec-stored :
        (specs : List (Def × List (FnItem Def))) (p : Def) (item : FnItem Def) (d : Def)
        → stored (push_spec tcx specs p item) d ≡ stored specs d ++ only_if (tcx.def_eq p d) item
    unfolding push_spec
    push_spec-stored [] p item d = elim (Bool-cases (tcx.def_eq p d)) [
      | inl y ↦ rw y refl
      | inr m ↦ rw m refl
    ]
    push_spec-stored ((e, items) ∷ specs) p item d = elim (Bool-cases (tcx.def_eq e p)) [
      | inl y ↦ elim (Bool-cases (tcx.def_eq p d)) [
        | inl f ↦
            let g : tcx.def_eq e d ≡ true =
              subst (λ c. tcx.def_eq c d ≡ true) (sym (sound e p y)) f in
            rw (y, f, g) refl
        | inr f ↦
            let g : tcx.def_eq e d ≡ false =
              subst (λ c. tcx.def_eq c d ≡ false) (sym (sound e p y)) f in
            rw (y, f, g) (sym (append-nil (stored specs d)))
      ]
      | inr m ↦ elim (Bool-cases (tcx.def_eq e d)) [
        | inl f ↦ elim (Bool-cases (tcx.def_eq p d)) [
          | inl g ↦
              let same : e ≡ p = sound e d f ∙ sym (sound p d g) in
              cc (m, subst (λ c. tcx.def_eq e c ≡ true) same (reflexive e))
          | inr g ↦ rw (m, f, g) (sym (append-nil items))
        ]
        | inr f ↦ rw (m, f) (push_spec-stored specs p item d)
      ]
    ]

    attach-stored :
        (o : Option (FnItem Def)) (item : FnItem Def) (found : Found Def) (d : Def)
        → stored (attach tcx o item found).specs d
          ≡ stored found.specs d
            ++ only_if (elim o [ none ↦ false | some f ↦ tcx.def_eq f.def_id d ]) item
    unfolding attach
    attach-stored none item found d = sym (append-nil (stored found.specs d))
    attach-stored (some f) item found d = push_spec-stored found.specs f.def_id item d

    find-stored :
        (fns : List (Text × FnItem Def)) (name : Option Text) (item : FnItem Def)
        (found : Found Def) (d : Def)
        → stored (attach tcx (find_fn tcx fns name) item found).specs d
          ≡ stored found.specs d ++ only_if (names tcx fns d name) item
    find-stored fns none item found d = attach-stored none item found d
    find-stored fns (some name) item found d = attach-stored (get text_eq fns name) item found d

    attach_all-stored :
        (fns : List (Text × FnItem Def)) (specs : List (FnItem Def)) (found : Found Def) (d : Def)
        → stored (attach_all tcx fns specs found).specs d
          ≡ stored found.specs d
            ++ flat (λ item. only_if (names tcx fns d item.spec_fn_name) item) specs
    unfolding attach_all
    attach_all-stored fns [] found d = sym (append-nil (stored found.specs d))
    attach_all-stored fns (item ∷ specs) found d =
        attach_all-stored fns specs (attach tcx (find_fn tcx fns item.spec_fn_name) item found) d
        ∙ ap (λ l. l ++ flat (λ i. only_if (names tcx fns d i.spec_fn_name) i) specs)
            (find-stored fns item.spec_fn_name item found d)
        ∙ append_assoc (stored found.specs d) (only_if (names tcx fns d item.spec_fn_name) item)
            (flat (λ i. only_if (names tcx fns d i.spec_fn_name) i) specs)

    attach-same :
        (o : Option (FnItem Def)) (item : FnItem Def) (found : Found Def)
        → ((attach tcx o item found).adts ≡ found.adts)
          × ((attach tcx o item found).functions ≡ found.functions)
    unfolding attach
    attach-same none item found = (refl, refl)
    attach-same (some f) item found = (refl, refl)

    attach_all-same :
        (fns : List (Text × FnItem Def)) (specs : List (FnItem Def)) (found : Found Def)
        → ((attach_all tcx fns specs found).adts ≡ found.adts)
          × ((attach_all tcx fns specs found).functions ≡ found.functions)
    unfolding attach_all
    attach_all-same fns [] found = (refl, refl)
    attach_all-same fns (item ∷ specs) found =
        let one = attach-same (find_fn tcx fns item.spec_fn_name) item found in
        let rest =
          attach_all-same fns specs (attach tcx (find_fn tcx fns item.spec_fn_name) item found) in
        (rest.0 ∙ one.0, rest.1 ∙ one.1)

    keep-only :
        (p q : FnItem Def → Bool) (fns : List (Text × FnItem Def))
        → flat (λ item. only_if (q item) item) (keep p fns)
          ≡ flat (λ entry. only_if (p entry.1 && q entry.1) entry.1) fns
    keep-only p q [] = refl
    keep-only p q ((n, f) ∷ fns) = elim (Bool-cases (p f)) [
      | inl y ↦ rw y (ap (λ rest. only_if (q f) f ++ rest) (keep-only p q fns))
      | inr m ↦ rw m (keep-only p q fns)
    ]

    -- What a visit of an item adds to what is found.
    record Collects (item : Item Def) (found after : Found Def) : Type 0 where
      adts : after.adts ≡ found.adts ++ adts_in tcx item
      functions : after.functions ≡ found.functions ++ functions_in tcx item
      specs : (d : Def) → stored after.specs d ≡ stored found.specs d ++ specs_in tcx d item

    -- An item that adds nothing, with or without a report.
    nothing-Collects :
        (item : Item Def) (found : Found Def) (b : Bool)
        → adts_in tcx item ≡ []
        → functions_in tcx item ≡ []
        → ((d : Def) → specs_in tcx d item ≡ [])
        → Collects item found (if b then found else unsupported_item tcx found)
    nothing-Collects item found true a f s = record {
      adts = rw a (sym (append-nil found.adts));
      functions = rw f (sym (append-nil found.functions));
      specs = λ d. rw (s d) (sym (append-nil (stored found.specs d)));
    }
    nothing-Collects item found false a f s = record {
      adts = rw a (sym (append-nil found.adts));
      functions = rw f (sym (append-nil found.functions));
      specs = λ d. rw (s d) (sym (append-nil (stored found.specs d)));
    }

    -- A function, with its parent and what is read off its name.
    fn-Collects :
        (parent : Option Def) (made : FnItem Def) (found : Found Def)
        → ((add_fn tcx parent made found).adts ≡ found.adts)
          × ((add_fn tcx parent made found).functions
              ≡ found.functions ++ only_if (not (is_nested_spec tcx parent made)) made)
          × ((d : Def)
              → stored (add_fn tcx parent made found).specs d
                ≡ stored found.specs d ++ only_if (is_spec_fn made && is_parent tcx d parent) made)
    unfolding add_fn
    fn-Collects none made found = (refl, refl, λ d. no_parent (is_spec_fn made) d)
      where
        no_parent :
            (b : Bool) (d : Def)
            → stored found.specs d ≡ stored found.specs d ++ only_if (b && false) made
        no_parent true d = sym (append-nil (stored found.specs d))
        no_parent false d = sym (append-nil (stored found.specs d))
    fn-Collects (some p) made found = elim (Bool-cases (is_spec_fn made)) [
      | inl y ↦
          rw y (refl, sym (append-nil found.functions), λ d. push_spec-stored found.specs p made d)
      | inr m ↦ rw m (refl, refl, λ d. sym (append-nil (stored found.specs d)))
    ]

    impl-Collects :
        (items : List (ImplItem Def)) (found : Found Def)
        → DistinctNames items
        → Collects
            (Items.impl_block items)
            found
            (add_impl tcx (fns_by_identifier tcx items []) found)
    unfolding add_impl
    impl-Collects items found distinct =
        let fns = named_fns tcx items in
        let base : Found Def = record found {
          functions = found.functions ++ keep (λ i. not (is_spec_fn i)) (tcx.iterate fns);
        } in
        let specs = keep is_spec_fn (tcx.iterate fns) in
        rw (fns_by_identifier-named items [] distinct tt) (record {
          adts = (attach_all-same fns specs base).0 ∙ sym (append-nil found.adts);
          functions =
              (attach_all-same fns specs base).1
              ∙ ap (λ l. found.functions ++ l)
                  (keep-flat (λ i. not (is_spec_fn i)) (tcx.iterate fns));
          specs = λ d.
              attach_all-stored fns specs base d
              ∙ ap (λ l. stored found.specs d ++ l)
                  (keep-only is_spec_fn (λ i. names tcx fns d i.spec_fn_name) (tcx.iterate fns));
        })

    visit_item-Collects :
        (item : Item Def) (found : Found Def)
        → HasDistinctNames item
        → Collects item found (visit_item tcx item found)
    unfolding visit_item
    visit_item-Collects (Items.adt d) found h = record {
      adts = refl;
      functions = sym (append-nil found.functions);
      specs = λ d. sym (append-nil (stored found.specs d));
    }
    visit_item-Collects (Items.fn d ident b) found h =
        let (a, f, s) = fn-Collects (tcx.parent d) (new tcx d ident b) found in
        record { adts = a ∙ sym (append-nil found.adts); functions = f; specs = s }
    visit_item-Collects (Items.impl_block items) found h = impl-Collects items found h
    visit_item-Collects (Items.extern_crate name) found h =
        nothing-Collects (Items.extern_crate name) found
          (should_ignore {D = Def} (Items.extern_crate name)) refl refl (λ d. refl)
    visit_item-Collects (Items.use_path path) found h =
        nothing-Collects (Items.use_path path) found (should_ignore {D = Def} (Items.use_path path))
          refl refl (λ d. refl)
    visit_item-Collects Items.other found h =
        nothing-Collects Items.other found false refl refl (λ d. refl)

    visit_items-from :
        (items : List (Item Def)) (found : Found Def)
        → All HasDistinctNames items
        → ((visit_items tcx items found).adts ≡ found.adts ++ flat (adts_in tcx) items)
          × ((visit_items tcx items found).functions
              ≡ found.functions ++ flat (functions_in tcx) items)
          × ((d : Def)
              → stored (visit_items tcx items found).specs d
                ≡ stored found.specs d ++ flat (specs_in tcx d) items)
    unfolding visit_items
    visit_items-from [] found h = (
      sym (append-nil found.adts),
      sym (append-nil found.functions),
      λ d. sym (append-nil (stored found.specs d)),
    )
    visit_items-from (item ∷ items) found h =
        let one = visit_item-Collects item found h.0 in
        let (a, f, s) = visit_items-from items (visit_item tcx item found) h.1 in
        (
          a
              ∙ ap (λ l. l ++ flat (adts_in tcx) items) one.adts
              ∙ append_assoc found.adts (adts_in tcx item) (flat (adts_in tcx) items),
          f
              ∙ ap (λ l. l ++ flat (functions_in tcx) items) one.functions
              ∙ append_assoc found.functions (functions_in tcx item)
                  (flat (functions_in tcx) items),
          λ d.
              s d
              ∙ ap (λ l. l ++ flat (specs_in tcx d) items) (one.specs d)
              ∙ append_assoc (stored found.specs d) (specs_in tcx d item)
                  (flat (specs_in tcx d) items),
        )

    -- What is found in a crate is what its items contribute, in their order: the data types; as functions, the
    -- functions outside of blocks that are no spec functions in another definition, and the functions of blocks
    -- that are no spec functions; and for each definition, by their types, the spec functions that have it as
    -- parent or, in a block, name it. The functions of a block have different names tcx, and the comparison of
    -- definitions is equality.
    pub visit_items-collects :
        (items : List (Item Def))
        → All HasDistinctNames items
        → ((visit_items tcx items (nothing tcx)).adts ≡ flat (adts_in tcx) items)
          × ((visit_items tcx items (nothing tcx)).functions ≡ flat (functions_in tcx) items)
          × ((d : Def)
              → specs_of tcx (visit_items tcx items (nothing tcx)) d
                ≡ specs_by_type tcx (flat (specs_in tcx d) items))
    unfolding specs_of
    visit_items-collects items h =
        let (a, f, s) = visit_items-from items (nothing tcx) h in
        (a, f, λ d. ap fn_specs (s d) ∙ fn_specs-by_type (flat (specs_in tcx d) items))
