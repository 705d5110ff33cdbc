-- ===== src/Schema/Promises.antt =====
-- Which promises the compilation of a schema object registers (internal/asyncapi/object.go).
use mathlib.Core.List.{cons-ne-nil}
use go_asyncapi.Common.{
  ℕ, ◌/◌, zero, suc, ◌≡◌, ◌≢◌, ◌∙◌, refl, ap, sym, Bool, true, false, Option, none, some, List, [],
  ◌∷◌, ◌++◌, Bytes, codes, ◌==◌, bytes_eq, if◌then◌else◌, arith, inl, inr, Bool-cases, Option-cases,
  All, All-append, append_assoc, append-nil, ltb, list_beq, if_keeps, eqb, ◌&&◌,
}
use go_asyncapi.Jsonpointer.{UrlPackage, parse, location}
use go_asyncapi.Jsonpointer.Escape.{AreBytes, AreVisible}
use go_asyncapi.Jsonpointer.RoundTrip.{parse-pointer_string}
use go_asyncapi.Linker.{origin_internal}
use go_asyncapi.Types.Stack.{top}
use go_asyncapi.Names.{CasePackage}
use go_asyncapi.Context.{
  Result, returned, ObjectPromise, put_promise, current_ref_pointer, generate_obj_name, top_item,
  DocumentTreeItem, path_stack, add_promise,
}
use go_asyncapi.Schema.{
  SchemaFields, Object, ListPromise, GoType, GoFields, FieldNames, go_pointer, type_promise,
  no_fields, promises_in, promises_in_fields, field,
}
use go_asyncapi.Schema.Parts.{Ctx, coalesce_names, single_items, digits, itoa}
use go_asyncapi.Schema.Build.{
  new_type_promise, property_fields, typed_additional, any_map, any_additional, additional_fields,
  items_type, union_fields,
}

-- The context with promises added.
abbrev pub with_promises : List ObjectPromise → Ctx → Ctx
with_promises ps c = record c { storage = record c.storage { promises = c.storage.promises ++ ps } }

-- There is a current position, and its keys are bytes.
abbrev pub Ready : Ctx → Type 0
Ready c = ((item : DocumentTreeItem) × (top c.stack ≡ some item)) × All AreBytes (path_stack c)

pub Ready-with : (ps : List ObjectPromise) (c : Ctx) → Ready c → Ready (with_promises ps c)
unfolding path_stack
Ready-with ps c h = h

pub with_promises-nil : (c : Ctx) → with_promises [] c ≡ c
with_promises-nil c =
    ap (λ ps. record c { storage = record c.storage { promises = ps } })
      (append-nil c.storage.promises)

pub with_promises-append :
    (ps qs : List ObjectPromise) (c : Ctx)
    → with_promises qs (with_promises ps c) ≡ with_promises (ps ++ qs) c
with_promises-append ps qs c =
    ap (λ rs. record c { storage = record c.storage { promises = rs } })
      (append_assoc c.storage.promises ps qs)

pub digits-AreBytes : (fuel n : ℕ) → AreBytes (digits fuel n)
digits-AreBytes zero n = tt
digits-AreBytes (suc fuel) n = elim (Bool-cases (ltb n 10)) [
  | inl e ↦ rw e (ground (arith, e), tt)
  | inr e ↦
      rw e (All-append _ (digits fuel (n / 10)) _ (digits-AreBytes fuel (n / 10)) (omega arith, tt))
]

module _ (conv : CasePackage) (net : UrlPackage)
    (trim_visible : (s : Bytes) → AreVisible s → net.trim_space s ≡ s) where
  abbrev internal_promise : List Bytes → Ctx → ObjectPromise
  internal_promise parts c = record { ref = current_ref_pointer parts c; origin = origin_internal }

  append-ne-nil : (xs ys : List Bytes) → ys ≢ [] → xs ++ ys ≢ []
  append-ne-nil [] ys h = h
  append-ne-nil (x ∷ xs) ys h = cons-ne-nil x (xs ++ ys)

  pub put_promise-local :
      (p : ObjectPromise) (ps : List Bytes) (c : Ctx)
      → parse net p.ref ≡ some (record { uri = none; fs_path = []; pointer = ps })
      → put_promise net p c ≡ returned (with_promises (p ∷ []) c)
  unfolding put_promise add_promise location list_beq
  put_promise-local p ps c e = rw (e, put_promise) refl

  put_promise-internal :
      (parts : List Bytes) (c : Ctx)
      → Ready c
      → parts ≢ []
      → All AreBytes parts
      → put_promise net (internal_promise parts c) c
        ≡ returned (with_promises (internal_promise parts c ∷ []) c)
  unfolding current_ref_pointer
  put_promise-internal parts c (_, keys) h hs =
      put_promise-local (internal_promise parts c) (path_stack c ++ parts) c (
        parse-pointer_string net trim_visible (path_stack c ++ parts)
          (append-ne-nil (path_stack c) parts h) (All-append AreBytes (path_stack c) parts keys hs))

  new_type_promise_lem :
      (parts : List Bytes) (c : Ctx)
      → Ready c
      → parts ≢ []
      → All AreBytes parts
      → new_type_promise conv net parts c
        ≡ returned (internal_promise parts c, with_promises (internal_promise parts c ∷ []) c)
  unfolding new_type_promise
  new_type_promise_lem parts c ready h hs = rw (put_promise-internal parts c ready h hs) refl

  pub generate_obj_name-returns :
      (name suffix : Bytes) (c : Ctx)
      → Ready c
      → (n : Bytes) × (generate_obj_name conv name suffix c ≡ returned n)
  unfolding generate_obj_name top_item
  generate_obj_name-returns name suffix c ((item, e), _) = elim (Bool-cases (name == [])) [
    | inl p ↦ rw (p, top_item, e) (_, refl)
    | inr p ↦ rw p (_, refl)
  ]

  -- The result is a value, and the promises in it are added to the context.
  abbrev pub Adds : {A : Type 0} → (A → List ObjectPromise) → Ctx → Result (A × Ctx) → Type 0
  Adds {A} found c r = (a : A) × (r ≡ returned (a, with_promises (found a) c))

  wrapped :
      (b : Bool) (p : ObjectPromise)
      → p ∷ [] ≡ promises_in (if b then go_pointer (type_promise p) else type_promise p)
  wrapped true p = refl
  wrapped false p = refl

  field-Adds :
      (n : FieldNames) (b : Bool) (p : ObjectPromise) (fs : GoFields) (c : Ctx)
      → Adds promises_in_fields c (
          returned (
            field n (if b then go_pointer (type_promise p) else type_promise p) fs,
            with_promises (promises_in_fields fs) (with_promises (p ∷ []) c),
          ))
  field-Adds n b p fs c =
      let t = field n (if b then go_pointer (type_promise p) else type_promise p) fs in
      (
        t,
        ap (λ d. returned (t, d))
            (with_promises-append (p ∷ []) (promises_in_fields fs) c
              ∙ ap (λ ps. with_promises (ps ++ promises_in_fields fs) c) (wrapped b p)),
      )

  pub property_fields-Adds :
      (messages : Option ListPromise) (required : List Bytes) (ps : List (Bytes × SchemaFields))
      (c : Ctx)
      → Ready c
      → All (λ e. AreBytes e.0) ps
      → Adds promises_in_fields c (property_fields conv net messages required ps c)
  unfolding property_fields
  property_fields-Adds messages required [] c ready h = (no_fields, rw (with_promises-nil c) refl)
  property_fields-Adds messages required ((k, v) ∷ ps) c ready (hk, hs) =
      let p = internal_promise (codes "properties" ∷ k ∷ []) c in
      let (fs, e) =
        property_fields-Adds messages required ps (with_promises (p ∷ []) c)
          (Ready-with (p ∷ []) c ready) hs in
      rw
        (
          new_type_promise_lem (codes "properties" ∷ k ∷ []) c ready (cons-ne-nil _ _)
              (ground arith, (hk, tt)),
          e,
        )
        (field-Adds _ _ p fs c)

  pub union_fields-Adds :
      (part : Bytes) (pointers : Bool) (index : ℕ) (vs : List SchemaFields) (c : Ctx)
      → Ready c
      → AreBytes part
      → Adds promises_in_fields c (union_fields conv net part pointers index vs c)
  unfolding union_fields
  union_fields-Adds part pointers index [] c ready h = (no_fields, rw (with_promises-nil c) refl)
  union_fields-Adds part pointers index (v ∷ vs) c ready h =
      let p = internal_promise (part ∷ itoa index ∷ []) c in
      let (fs, e) =
        union_fields-Adds part pointers (suc index) vs (with_promises (p ∷ []) c)
          (Ready-with (p ∷ []) c ready) h in
      rw
        (
          new_type_promise_lem (part ∷ itoa index ∷ []) c ready (cons-ne-nil _ _)
              (h, (digits-AreBytes (suc index) index, tt)),
          e,
        )
        (field-Adds _ _ p fs c)

  any_map-returns :
      (prop_name item_suffix value_suffix : Bytes) (c : Ctx)
      → Ready c
      → (t : GoType) × (any_map conv net prop_name item_suffix value_suffix c ≡ returned t)
        × (promises_in t ≡ [])
  unfolding any_map
  any_map-returns prop_name item_suffix value_suffix c ready =
      let (value, e) = generate_obj_name-returns prop_name value_suffix c ready in
      let (name, f) = generate_obj_name-returns prop_name item_suffix c ready in
      rw (e, f) (_, refl, refl)

  -- A result without promises, in the same context.
  unchanged :
      {A : Type 0} (found : A → List ObjectPromise) (a : A) (c : Ctx)
      → found a ≡ []
      → Adds found c (returned (a, c))
  unchanged found a c e =
      (a, ap (λ d. returned (a, d)) (sym (ap (λ ps. with_promises ps c) e ∙ with_promises-nil c)))

  typed_additional-Adds :
      (v : SchemaFields) (prop_name : Bytes) (c : Ctx)
      → Ready c
      → Adds promises_in_fields c (typed_additional conv net v prop_name c)
  unfolding typed_additional
  typed_additional-Adds v prop_name c ready =
      let parts = codes "additionalProperties" ∷ [] in
      let p = internal_promise parts c in
      let (name, e) =
        generate_obj_name-returns prop_name (codes "AdditionalProperties")
          (with_promises (p ∷ []) c) (Ready-with (p ∷ []) c ready) in
      rw (new_type_promise_lem parts c ready (cons-ne-nil _ _) (ground arith, tt), e) (_, refl)

  pub additional_fields-Adds :
      (messages : Option ListPromise) (o : Object) (c : Ctx)
      → Ready c
      → Adds promises_in_fields c (additional_fields conv net messages o c)
  unfolding additional_fields any_additional
  additional_fields-Adds messages o c ready = elim (Option-cases o.additional_properties) [
    | inl e ↦ rw (e, additional_fields) (unchanged promises_in_fields no_fields c refl)
    | inr (u, e) ↦
        let (t, f, n) =
          any_map-returns (coalesce_names u.v0.x_go_name o.title) (codes "AdditionalProperties")
            (codes "AdditionalPropertiesValue") c ready in
        rw (e, additional_fields, f)
          (if_keeps (Adds promises_in_fields c) (eqb u.selector 0)
            (typed_additional-Adds u.v0 _ c ready)
            (if_keeps (Adds promises_in_fields c) (eqb u.selector 1 && u.v1)
              (unchanged promises_in_fields _ c (rw n refl))
              (unchanged promises_in_fields no_fields c refl)))
  ]

  pub items_type-Adds :
      (o : Object) (c : Ctx) → Ready c → Adds promises_in c (items_type conv net o c)
  unfolding items_type
  items_type-Adds o c ready =
      let obj_name = coalesce_names o.own.x_go_name o.title in
      let (t, f, n) =
        any_map-returns obj_name (codes "ItemsItem") (codes "ItemsItemValue") c ready in
      elim (Bool-cases (single_items o.items_schema)) [
        | inl e ↦
            rw
              (
                e,
                items_type,
                new_type_promise_lem (codes "items" ∷ []) c ready (cons-ne-nil _ _)
                    (ground arith, tt),
              )
              (_, refl)
        | inr e ↦ rw (e, items_type, f) (unchanged promises_in t c n)
      ]
