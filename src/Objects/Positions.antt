-- ===== src/Objects/Positions.antt =====
-- What the Compile methods of internal/asyncapi do at the positions of a document.
use mathlib.Core.Option.{none-ne-some}
use go_asyncapi.Common.{ℕ, ◌≡◌, ◌∙◌, ap, sym, some, List, [], ◌∷◌, ◌++◌, Bytes, All, ◌⊎◌, map}
use go_asyncapi.Compilation.{CompilationOpts}
use go_asyncapi.Jsonpointer.{UrlPackage, JsonPointer}
use go_asyncapi.Jsonpointer.Escape.{AreBytes, AreVisible}
use go_asyncapi.Names.{CasePackage}
use go_asyncapi.Context.{
  Result, returned, failed, panicked, ObjectPromise, DocumentTreeItem, path_stack, top_item,
  put_artifact, current_ref, add_artifact,
}
use go_asyncapi.Types.Stack.{SimpleStack, top, items}
use go_asyncapi.Schema
use go_asyncapi.Schema.{ListPromise, GoType}
use go_asyncapi.Schema.Build
use go_asyncapi.Schema.Parts.{Ctx}
use go_asyncapi.Schema.Promises.{Ready}
use go_asyncapi.Schema.Registered.{Registered, build-Registered}
use go_asyncapi.Objects.Monad.{Build}
use go_asyncapi.Objects.Build.{Compiled}
use go_asyncapi.Objects.Compile.{
  Decoders, AnyObject, schema_object, server_object, channel_object, operation_object, reply_object,
  reply_address_object, message_object, security_object, correlation_id_object, parameter_object,
  variable_object, bindings_object, async_api_object, build_any, build_async_api, schema_built,
  put_built, compile_at, compile_any,
}
use go_asyncapi.Objects.Effects.{Outcome}
use go_asyncapi.Objects.Steps.{concat_map}
use go_asyncapi.Objects.Registered.{promises_of, lists_of}
use go_asyncapi.Objects.Fitting.{Fits, Faulty}
use go_asyncapi.Objects.Outcomes.{Placed, NoSchema, build_any-Outcome, async_api-Outcome}
use go_asyncapi.Render.{schema_artifact}
use go_asyncapi.Walk.Order.{Position}

abbrev pub path_of : SimpleStack DocumentTreeItem → List Bytes
path_of s = map (λ item. item.key) (items s)

-- An object at a position: there is a current item, the keys of its path are bytes, and what it
-- refers to can be parsed. The root object needs none of this.
abbrev pub Stands : UrlPackage → AnyObject → SimpleStack DocumentTreeItem → Type 0
Stands net (async_api_object o) s = Unit
Stands net o s =
    (((item : DocumentTreeItem) × (top s ≡ some item)) × All AreBytes (path_of s))
    × (Fits net o × Placed o (path_of s))

abbrev pub AllStand : UrlPackage → (ℕ → AnyObject) → List Position → Type 0
AllStand net objects = All (λ p. Stands net (objects p.1) p.0)

-- The stack of the root.
abbrev pub start : SimpleStack DocumentTreeItem
start = record { stack = [] }

-- The promises that stand in artifacts.
abbrev pub all_promises : List (JsonPointer × Compiled) → List ObjectPromise
all_promises es = concat_map (λ e. promises_of e.1) es

module _ (decoders : Decoders) where
  -- What a Compile method does at a position: it adds one artifact, that of the position, and the
  -- promises that stand in it, or fails for a reason of the object.
  abbrev pub Grows : AnyObject → Ctx → Result Ctx → Type 0
  Grows o c (returned c1) =
      (e : JsonPointer × Compiled) × (c1.storage.artifacts ≡ c.storage.artifacts ++ e ∷ [])
      × (c1.storage.promises ≡ c.storage.promises ++ promises_of e.1)
      × (e.0.pointer ≡ path_of c.stack)
      × (c1.stack ≡ c.stack)
  Grows o c (failed message path) = Faulty decoders o
  Grows o c panicked = ⊥

  module _ (objects : ℕ → AnyObject) where
    abbrev pub SomeFaulty : List Position → Type 0
    SomeFaulty [] = ⊥
    SomeFaulty ((s, m) ∷ ps) = Faulty decoders (objects m) ⊎ SomeFaulty ps

    -- What compiling the objects at some positions does: one artifact for each, in order and with
    -- the pointer of its position, and the promises that stand in these artifacts.
    abbrev pub AllGrow : List Position → Ctx → Result Ctx → Type 0
    AllGrow ps c (returned c1) =
        (es : List (JsonPointer × Compiled)) × (c1.storage.artifacts ≡ c.storage.artifacts ++ es)
        × (c1.storage.promises ≡ c.storage.promises ++ all_promises es)
        × (map (λ e. e.0.pointer) es ≡ map (λ p. path_of p.0) ps)
    AllGrow ps c (failed message path) = SomeFaulty ps
    AllGrow ps c panicked = ⊥

    -- The storage of the result holds one artifact for each position, and what they promise.
    abbrev pub Whole : List Position → Result Ctx → Type 0
    Whole ps (returned c1) =
        (map (λ e. e.0.pointer) c1.storage.artifacts ≡ map (λ p. path_of p.0) ps)
        × (c1.storage.promises ≡ all_promises c1.storage.artifacts)
    Whole ps (failed message path) = SomeFaulty ps
    Whole ps panicked = ⊥

    pub from_empty :
        (ps : List Position) (c : Ctx) (r : Result Ctx)
        → c.storage.artifacts ≡ []
        → c.storage.promises ≡ []
        → AllGrow ps c r
        → Whole ps r
    from_empty ps c (returned c1) ea ep (es, ga, gp, gq) =
        let all : c1.storage.artifacts ≡ es = ga ∙ ap (λ xs. xs ++ es) ea in
        (
          ap (map (λ e. e.0.pointer)) all ∙ gq,
          gp ∙ ap (λ xs. xs ++ all_promises es) ep ∙ sym (ap all_promises all),
        )
    from_empty ps c (failed message path) ea ep h = h
    from_empty ps c panicked ea ep h = h

  module _ (conv : CasePackage) (net : UrlPackage) (opts : CompilationOpts)
      (trim_visible : (s : Bytes) → AreVisible s → net.trim_space s ≡ s) where
    from_Outcome :
        (o : AnyObject) (c : Ctx) (r : Result (Compiled × Ctx))
        → Outcome net (Faulty decoders o) (λ a ps ls. (ps ≡ promises_of a) × (ls ≡ lists_of a)) c r
        → Grows o c (put_built decoders conv net opts r)
    unfolding put_artifact add_artifact current_ref path_stack
    from_Outcome o c (returned (a, c1)) (ps, ls, e, (p, q)) = (
      (current_ref c1, a),
      ap (λ x. x.storage.artifacts ++ (current_ref c1, a) ∷ []) e,
      ap (λ x. x.storage.promises) e ∙ ap (λ xs. c.storage.promises ++ xs) p,
      ap (λ x. path_of x.stack) e,
      ap (λ x. x.stack) e,
    )
    from_Outcome o c (failed message path) h = h
    from_Outcome o c panicked h = h

    from_Registered :
        (o : Schema.Object) (c : Ctx) (r : Result (GoType × Ctx))
        → Fits net (schema_object o)
        → Registered net o c r
        → Grows
            (schema_object o)
            c
            (put_built decoders conv net opts (schema_built decoders conv net opts r))
    unfolding put_artifact add_artifact current_ref path_stack
    from_Registered o c (returned (t, c1)) f (p, (e, s)) = (
      (current_ref c1, schema_artifact t),
      ap (λ xs. xs ++ (current_ref c1, schema_artifact t) ∷ []) e,
      p,
      ap path_of s,
      s,
    )
    from_Registered o c (failed message path) f h = tt
    from_Registered o c panicked ((r, e), _) h = absurd (none-ne-some r (sym h ∙ e))

    at_top :
        (o : AnyObject) (c : Ctx) (make : DocumentTreeItem → Build Compiled)
        → ((item : DocumentTreeItem) × (top c.stack ≡ some item))
        → ((item : DocumentTreeItem) → Grows o c (put_built decoders conv net opts (make item c)))
        → Grows o c (compile_at decoders conv net opts make c)
    unfolding top_item
    at_top o c make (item, e) h = rw (e, top_item) (h item)

    others :
        (o : AnyObject) (c : Ctx)
        → NoSchema o
        → Ready c
        → Fits net o
        → Placed o (path_stack c)
        → Grows o c (compile_at decoders conv net opts (build_any decoders conv net opts o) c)
    others o c n (h, hs) f p = at_top o c (build_any decoders conv net opts o) h (λ item.
        from_Outcome o c (build_any decoders conv net opts o item c)
          (build_any-Outcome decoders conv net opts trim_visible o item c (h, hs) f p n))

    pub compile_any-Grows :
        (o : AnyObject) (c : Ctx)
        → Stands net o c.stack
        → Grows o c (compile_any decoders conv net opts o c)
    unfolding compile_any path_stack build_any
    compile_any-Grows (schema_object o) c (h, (f, p)) =
        at_top (schema_object o) c (build_any decoders conv net opts (schema_object o)) h.0 (λ item.
          from_Registered o c (Schema.Build.build conv net item.flags item.key o c) f
            (build-Registered net conv trim_visible item.flags item.key o c h f.1))
    compile_any-Grows (server_object o) c (h, (f, p)) = others (server_object o) c tt h f p
    compile_any-Grows (channel_object o) c (h, (f, p)) = others (channel_object o) c tt h f p
    compile_any-Grows (operation_object o) c (h, (f, p)) = others (operation_object o) c tt h f p
    compile_any-Grows (reply_object o) c (h, (f, p)) = others (reply_object o) c tt h f p
    compile_any-Grows (reply_address_object o) c (h, (f, p)) =
        others (reply_address_object o) c tt h f p
    compile_any-Grows (message_object o) c (h, (f, p)) = others (message_object o) c tt h f p
    compile_any-Grows (security_object o) c (h, (f, p)) = others (security_object o) c tt h f p
    compile_any-Grows (correlation_id_object o) c (h, (f, p)) =
        others (correlation_id_object o) c tt h f p
    compile_any-Grows (parameter_object o) c (h, (f, p)) = others (parameter_object o) c tt h f p
    compile_any-Grows (variable_object o) c (h, (f, p)) = others (variable_object o) c tt h f p
    compile_any-Grows (bindings_object o) c (h, (f, p)) = others (bindings_object o) c tt h f p
    compile_any-Grows (async_api_object o) c h =
        from_Outcome (async_api_object o) c (build_async_api decoders o c)
          (async_api-Outcome decoders conv net opts trim_visible o c)
