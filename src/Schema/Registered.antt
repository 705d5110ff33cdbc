-- ===== src/Schema/Registered.antt =====
-- Building a schema object (internal/asyncapi/object.go) does not panic on what parses, and registers
-- what it promises.
use go_asyncapi.Common.{
  ◌≡◌, ◌∙◌, refl, ap, sym, Bool, true, false, Option, none, some, List, [], ◌++◌, Bytes, codes,
  ◌==◌, bytes_eq, if◌then◌else◌, arith, inl, inr, Bool-cases, Option-cases, All, append_assoc,
  append-nil, if_keeps, not, ◌||◌, eqb,
}
use go_asyncapi.Types.Union.{Union2}
use go_asyncapi.Jsonpointer.{UrlPackage, parse, location}
use go_asyncapi.Jsonpointer.Escape.{AreBytes, AreVisible}
use go_asyncapi.Types.OrderedMap.{entries}
use go_asyncapi.Names.{CasePackage}
use go_asyncapi.Context.{
  Result, returned, failed, panicked, ◌>>=◌, Flags, ObjectPromise, put_promise, put_list_promise,
  add_list_promise, add_promise, add_external_ref, path_stack,
}
use go_asyncapi.Schema.{
  XGoType, Object, all_messages, GoType, GoFields, no_fields, promises_in, promises_in_fields,
  append_fields, field, go_pointer,
}
use go_asyncapi.Schema.Parts.{
  Ctx, zero_schema, build_x_go_type, build_ignored, register_messages, is_data_model,
  coalesce_names, effective_type, is_true, builtin_name, get_type_name, replaces_type, has_variants,
  is_selectable,
}
use go_asyncapi.Schema.Build.{
  build_lang_struct, build_lang_array, build_union_struct, build_named_type, build_golang_type,
  replaced_type, register_ref, build_typed, build_ref, build,
}
use go_asyncapi.Schema.Promises.{
  with_promises, Ready, Ready-with, generate_obj_name-returns, property_fields-Adds,
  union_fields-Adds, additional_fields-Adds, items_type-Adds,
}

promises_in-append :
    (fs gs : GoFields)
    → promises_in_fields (append_fields fs gs) ≡ promises_in_fields fs ++ promises_in_fields gs
promises_in-append no_fields gs = refl
promises_in-append (field n t fs) gs =
    ap (λ ps. promises_in t ++ ps) (promises_in-append fs gs)
    ∙ sym (append_assoc (promises_in t) (promises_in_fields fs) (promises_in_fields gs))

append_fields_assoc :
    (fs gs hs : GoFields)
    → append_fields (append_fields fs gs) hs ≡ append_fields fs (append_fields gs hs)
append_fields_assoc no_fields gs hs = refl
append_fields_assoc (field n t fs) gs hs = ap (field n t) (append_fields_assoc fs gs hs)

two_fields :
    (ps qs : List ObjectPromise) (fs gs : GoFields)
    → ps ≡ qs
    → (ps ++ promises_in_fields fs) ++ promises_in_fields gs
      ≡ qs ++ promises_in_fields (append_fields fs gs)
two_fields ps qs fs gs e =
    append_assoc ps (promises_in_fields fs) (promises_in_fields gs)
    ∙ rw (e, promises_in-append fs gs) refl

register_messages-Ready : (b : Bool) (c : Ctx) → Ready c → Ready (register_messages b c)
unfolding register_messages put_list_promise add_list_promise path_stack
register_messages-Ready true c h = h
register_messages-Ready false c h = h

register_messages-promises :
    (b : Bool) (c : Ctx) → (register_messages b c).storage.promises ≡ c.storage.promises
unfolding register_messages put_list_promise add_list_promise
register_messages-promises true c = refl
register_messages-promises false c = refl

-- The artifacts and the stack are the same.
abbrev pub Same : Ctx → Ctx → Type 0
Same c c1 = (c1.storage.artifacts ≡ c.storage.artifacts) × (c1.stack ≡ c.stack)

register_messages-Same : (b : Bool) (c : Ctx) → Same c (register_messages b c)
unfolding register_messages put_list_promise add_list_promise
register_messages-Same true c = (refl, refl)
register_messages-Same false c = (refl, refl)

module _ (net : UrlPackage) where
  -- A value whose promises are exactly those added to the context, with the artifacts and the stack
  -- as before, or an error; a panic only where the object's reference cannot be parsed.
  abbrev pub Registered : Object → Ctx → Result (GoType × Ctx) → Type 0
  Registered o c (returned (t, c1)) =
      (c1.storage.promises ≡ c.storage.promises ++ promises_in t) × Same c c1
  Registered o c (failed message path) = Unit
  Registered o c panicked = parse net o.ref ≡ none

  module _ (conv : CasePackage)
      (trim_visible : (s : Bytes) → AreVisible s → net.trim_space s ≡ s) where
    build_lang_struct-Registered :
        (flags : Flags) (o : Object) (c : Ctx)
        → Ready c
        → All (λ e. AreBytes e.0) (entries zero_schema o.properties)
        → Registered o c (build_lang_struct conv net flags o c)
    unfolding build_lang_struct
    build_lang_struct-Registered flags o c ready h =
        let dm = is_data_model flags in
        let c1 = register_messages dm c in
        let messages = (if dm then some all_messages else none) in
        let (name, e) =
          generate_obj_name-returns conv net trim_visible (coalesce_names o.own.x_go_name o.title)
            [] c ready in
        let (fs, f) =
          property_fields-Adds conv net trim_visible messages o.required
            (entries zero_schema o.properties) c1 (register_messages-Ready dm c ready) h in
        let (gs, g) =
          additional_fields-Adds conv net trim_visible messages o
            (with_promises (promises_in_fields fs) c1)
            (Ready-with (promises_in_fields fs) c1 (register_messages-Ready dm c ready)) in
        rw (e, f, g)
          (
            two_fields c1.storage.promises c.storage.promises fs gs
                (register_messages-promises dm c),
            register_messages-Same dm c,
          )

    build_lang_array-Registered :
        (flags : Flags) (o : Object) (c : Ctx)
        → Ready c
        → Registered o c (build_lang_array conv net flags o c)
    unfolding build_lang_array
    build_lang_array-Registered flags o c ready =
        let (name, e) =
          generate_obj_name-returns conv net trim_visible (coalesce_names o.own.x_go_name o.title)
            [] c ready in
        let (t, f) = items_type-Adds conv net trim_visible o c ready in
        rw (e, f) (refl, (refl, refl))

    build_union_struct-Registered :
        (flags : Flags) (o : Object) (c : Ctx)
        → Ready c
        → Registered o c (build_union_struct conv net flags o c)
    unfolding build_union_struct
    build_union_struct-Registered flags o c ready =
        let (name, e) =
          generate_obj_name-returns conv net trim_visible (coalesce_names o.own.x_go_name o.title)
            [] c ready in
        let c1 = register_messages true c in
        let ready1 = register_messages-Ready true c ready in
        let (ones, f) =
          union_fields-Adds conv net trim_visible (codes "oneOf") true 0 o.one_of c1 ready1
            (ground arith) in
        let c2 = with_promises (promises_in_fields ones) c1 in
        let ready2 = Ready-with (promises_in_fields ones) c1 ready1 in
        let (anys, g) =
          union_fields-Adds conv net trim_visible (codes "anyOf") true 0 o.any_of c2 ready2
            (ground arith) in
        let c3 = with_promises (promises_in_fields anys) c2 in
        let ready3 = Ready-with (promises_in_fields anys) c2 ready2 in
        let (alls, h) =
          union_fields-Adds conv net trim_visible (codes "allOf") false 0 o.all_of c3 ready3
            (ground arith) in
        rw (e, f, g, h)
          (
            ap (λ ps. ps ++ promises_in_fields alls)
                  (two_fields c1.storage.promises c.storage.promises ones anys
                    (register_messages-promises true c))
                ∙ two_fields c.storage.promises c.storage.promises (append_fields ones anys) alls
                    refl
                ∙ ap (λ fs. c.storage.promises ++ promises_in_fields fs)
                    (append_fields_assoc ones anys alls),
            register_messages-Same true c,
          )

    -- A type without promises, in the same context.
    plain-Registered :
        (o : Object) (t : GoType) (c : Ctx) → promises_in t ≡ [] → Registered o c (returned (t, c))
    plain-Registered o t c e = (rw (e, append-nil c.storage.promises) refl, (refl, refl))

    build_named_type-Registered :
        (flags : Flags) (type_name : Bytes) (o : Object) (c : Ctx)
        → Ready c
        → All (λ e. AreBytes e.0) (entries zero_schema o.properties)
        → Registered o c (build_named_type conv net flags type_name o c)
    unfolding build_named_type
    build_named_type-Registered flags type_name o c ready h =
        let (name, e) = generate_obj_name-returns conv net trim_visible o.title [] c ready in
        if_keeps (Registered o c) (type_name == codes "object")
          (build_lang_struct-Registered flags o c ready h)
          (if_keeps (Registered o c) (type_name == codes "array")
            (build_lang_array-Registered flags o c ready)
            (if_keeps (Registered o c) ((type_name == codes "null") || (type_name == []))
              (sym (append-nil c.storage.promises), (refl, refl))
              (elim (Option-cases (builtin_name type_name)) [
                | inl f ↦ rw f tt
                | inr (go_name, f) ↦ rw (f, e) (sym (append-nil c.storage.promises), (refl, refl))
              ])))

    build_x_go_type-plain :
        (o : Object) (u : Union2 Bytes XGoType) → promises_in (build_x_go_type o.own u) ≡ []
    unfolding build_x_go_type
    build_x_go_type-plain o u =
        if_keeps (λ t. promises_in t ≡ []) (eqb u.selector 0) refl
          (if_keeps (λ t. promises_in t ≡ []) (eqb u.selector 1)
            (if_keeps (λ t. promises_in t ≡ []) u.v1.pointer refl refl) refl)

    replaced_type-Registered :
        (flags : Flags) (type_name : Bytes) (o : Object) (c : Ctx)
        (x_go_type : Option (Union2 Bytes XGoType))
        → Ready c
        → All (λ e. AreBytes e.0) (entries zero_schema o.properties)
        → Registered o c (replaced_type conv net flags type_name o c x_go_type)
    replaced_type-Registered flags type_name o c none ready h =
        build_named_type-Registered flags type_name o c ready h
    replaced_type-Registered flags type_name o c (some u) ready h =
        if_keeps (Registered o c) (replaces_type u)
          (plain-Registered o (build_x_go_type o.own u) c (build_x_go_type-plain o u))
          (build_named_type-Registered flags type_name o c ready h)

    pointer-Registered :
        (o : Object) (c : Ctx) (b : Bool) (r : Result (GoType × Ctx))
        → Registered o c r
        → Registered o c (r >>= λ tc. returned (if b then go_pointer tc.0 else tc.0, tc.1))
    pointer-Registered o c true (returned (t, c1)) h = h
    pointer-Registered o c false (returned (t, c1)) h = h
    pointer-Registered o c b (failed message path) h = h
    pointer-Registered o c b panicked h = h

    build_typed-Registered :
        (flags : Flags) (o : Object) (c : Ctx)
        → Ready c
        → All (λ e. AreBytes e.0) (entries zero_schema o.properties)
        → Registered o c (build_typed conv net flags o c)
    unfolding build_typed build_golang_type
    build_typed-Registered flags o c ready h =
        elim (Option-cases (get_type_name (effective_type o))) [
          | inl e ↦ rw (e, build_typed) tt
          | inr (r, e) ↦
              rw (e, build_typed)
                (pointer-Registered o c (r.1 || is_true o.x_nullable) _
                  (replaced_type-Registered flags r.0 o c o.own.x_go_type ready h))
        ]

    register_ref-Registered :
        (o : Object) (name : Bytes) (selectable : Bool) (c : Ctx)
        → Registered o c (register_ref conv net o.ref name selectable c)
    unfolding register_ref put_promise add_promise add_external_ref
    register_ref-Registered o name selectable c = elim (Option-cases (parse net o.ref)) [
      | inl e ↦ rw (e, put_promise) e
      | inr (r, e) ↦
          rw (e, put_promise)
            (elim (Bool-cases (location net r == [])) [
              | inl f ↦ rw f (refl, (refl, refl))
              | inr f ↦ rw f (refl, (refl, refl))
            ])
    ]

    -- At a position whose keys and property names are byte strings, building a schema object gives
    -- a type, or an error, and panics only where its $ref cannot be parsed. The promises that it
    -- registers with the linker are exactly those that stand in the type, in order: no placeholder
    -- of the type is left out of the linking, and nothing else is linked. The artifacts and the stack
    -- stay as they are.
    pub build-Registered :
        (flags : Flags) (object_key : Bytes) (o : Object) (c : Ctx)
        → Ready c
        → All (λ e. AreBytes e.0) (entries zero_schema o.properties)
        → Registered o c (build conv net flags object_key o c)
    unfolding build build_ref build_ignored
    build-Registered flags object_key o c ready h =
        let (name, e) = generate_obj_name-returns conv net trim_visible [] [] c ready in
        if_keeps (Registered o c) o.x_ignore (sym (append-nil c.storage.promises), (refl, refl))
          (if_keeps (Registered o c) (not (o.ref == []))
            (rw e (elim (Bool-cases (is_selectable flags)) [
              | inl f ↦ rw f (register_ref-Registered o object_key true c)
              | inr f ↦ rw f (register_ref-Registered o name false c)
            ]))
            (if_keeps (Registered o c) (has_variants o)
              (build_union_struct-Registered flags o c ready)
              (build_typed-Registered flags o c ready h)))
