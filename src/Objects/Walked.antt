-- ===== src/Objects/Walked.antt =====
-- The walk over a document with the Compile methods of the objects of internal/asyncapi.
use mathlib.Core.Path.{subst}
use go_asyncapi.Common.{
  ℕ, ◌≡◌, ◌∙◌, refl, ap, sym, Option, some, List, [], ◌∷◌, ◌++◌, Bytes, All, append_assoc,
  append-nil, inl, inr,
}
use go_asyncapi.Compilation.{CompilationOpts}
use go_asyncapi.Jsonpointer.{UrlPackage}
use go_asyncapi.Jsonpointer.Escape.{AreVisible}
use go_asyncapi.Names.{CasePackage}
use go_asyncapi.Context.{
  Result, returned, failed, panicked, ◌>>=◌, DocumentTreeItem, with_results_store, Storage,
}
use go_asyncapi.Types.Stack.{SimpleStack}
use go_asyncapi.Schema.{ListPromise}
use go_asyncapi.Schema.Parts.{Ctx}
use go_asyncapi.Objects.Build.{Compiled}
use go_asyncapi.Objects.Compile.{Decoders, AnyObject, compile_any}
use go_asyncapi.Objects.Registered.{promises_of}
use go_asyncapi.Walk.{Fields, struct_value, walk, at_stack, compile_document}
use go_asyncapi.Walk.Order.{Position, below, NoGoMap, KeepsStack, compile_all}
use go_asyncapi.Walk.Traversal.{walk-compile_all}
use go_asyncapi.Objects.Positions.{
  all_promises, Grows, AllGrow, Whole, AllStand, start, from_empty, compile_any-Grows,
}

module _ (decoders : Decoders) (conv : CasePackage) (net : UrlPackage) (opts : CompilationOpts)
    (trim_visible : (s : Bytes) → AreVisible s → net.trim_space s ≡ s)
    (objects : ℕ → AnyObject) where
  abbrev compile : ℕ → Ctx → Result Ctx
  compile m c = compile_any decoders conv net opts (objects m) c

  kept :
      (o : AnyObject) (s : SimpleStack DocumentTreeItem) (c : Ctx) (r : Result Ctx)
      → Grows decoders o (at_stack s c) r
      → (r >>= λ c1. returned (at_stack s c1)) ≡ r
  kept o s c (returned c1) (e, ha, hp, hq, hs) =
      ap (λ t. returned (record c1 { stack = t })) (sym hs)
  kept o s c (failed message path) h = refl
  kept o s c panicked h = refl

  AllStand-KeepsStack : (ps : List Position) → AllStand net objects ps → All (KeepsStack compile) ps
  AllStand-KeepsStack [] h = tt
  AllStand-KeepsStack ((s, m) ∷ ps) (h, hs) = (
    λ c.
        kept (objects m) s c (compile m (at_stack s c))
          (compile_any-Grows decoders conv net opts trim_visible (objects m) (at_stack s c) h),
    AllStand-KeepsStack ps hs,
  )

  abbrev Grown : List Position → Ctx → Result Ctx → Type 0
  Grown = AllGrow decoders objects

  joined :
      (s : SimpleStack DocumentTreeItem) (m : ℕ) (ps : List Position) (c c1 : Ctx) (r : Result Ctx)
      → Grows decoders (objects m) (at_stack s c) (returned c1)
      → Grown ps c1 r
      → Grown ((s, m) ∷ ps) c r
  joined s m ps c c1 (returned c2) (e, ha, hp, hq, hs) (es, ga, gp, gq) = (
    e ∷ es,
    ga ∙ ap (λ xs. xs ++ es) ha ∙ append_assoc c.storage.artifacts (e ∷ []) es,
    gp
        ∙ ap (λ xs. xs ++ all_promises es) hp
        ∙ append_assoc c.storage.promises (promises_of e.1) (all_promises es),
    λ i. hq i ∷ gq i,
  )
  joined s m ps c c1 (failed message path) g h = inr h
  joined s m ps c c1 panicked g h = h

  then_rest :
      (s : SimpleStack DocumentTreeItem) (m : ℕ) (ps : List Position) (c : Ctx) (r : Result Ctx)
      → Grows decoders (objects m) (at_stack s c) r
      → ((c1 : Ctx) → Grown ps c1 (compile_all compile ps c1))
      → Grown ((s, m) ∷ ps) c (r >>= compile_all compile ps)
  then_rest s m ps c (returned c1) g rest =
      joined s m ps c c1 (compile_all compile ps c1) g (rest c1)
  then_rest s m ps c (failed message path) g rest = inl g
  then_rest s m ps c panicked g rest = g

  compile_all-Grown :
      (ps : List Position) (c : Ctx)
      → AllStand net objects ps
      → Grown ps c (compile_all compile ps c)
  compile_all-Grown [] c h =
      ([], sym (append-nil c.storage.artifacts), sym (append-nil c.storage.promises), refl)
  compile_all-Grown ((s, m) ∷ ps) c (h, hs) =
      then_rest s m ps c (compile m (at_stack s c))
        (compile_any-Grows decoders conv net opts trim_visible (objects m) (at_stack s c) h)
        (λ c1. compile_all-Grown ps c1 hs)

  restacked :
      (s : SimpleStack DocumentTreeItem) (ps : List Position) (c : Ctx) (r : Result Ctx)
      → Grown ps c r
      → Grown ps c (r >>= λ c1. returned (at_stack s c1))
  restacked s ps c (returned c1) h = h
  restacked s ps c (failed message path) h = h
  restacked s ps c panicked h = h

  walk-Grown :
      (m : Option ℕ) (fs : Fields) (c : Ctx)
      → NoGoMap (struct_value m fs)
      → AllStand net objects (below (struct_value m fs) c.stack)
      → Grown (below (struct_value m fs) c.stack) c (walk compile (struct_value m fs) c)
  walk-Grown m fs c h stand =
      subst (Grown (below (struct_value m fs) c.stack) c)
        (sym (
          walk-compile_all compile m fs c h
            (AllStand-KeepsStack (below (struct_value m fs) c.stack) stand)))
        (restacked c.stack (below (struct_value m fs) c.stack) c _
          (compile_all-Grown (below (struct_value m fs) c.stack) c stand))

  then_walk :
      (m : ℕ) (fs : Fields) (c : Ctx) (r : Result Ctx)
      → NoGoMap (struct_value (some m) fs)
      → AllStand net objects (below (struct_value (some m) fs) c.stack)
      → Grows decoders (objects m) c r
      → Grown
          ((c.stack, m) ∷ below (struct_value (some m) fs) c.stack)
          c
          (r >>= walk compile (struct_value (some m) fs))
  then_walk m fs c (returned c1) h stand (e, ha, hp, hq, hs) =
      joined c.stack m (below (struct_value (some m) fs) c.stack) c c1 _ (e, ha, hp, hq, hs)
        (subst
          (λ s.
            Grown (below (struct_value (some m) fs) s) c1
              (walk compile (struct_value (some m) fs) c1))
          hs
          (walk-Grown (some m) fs c1 h (
            subst (λ s. AllStand net objects (below (struct_value (some m) fs) s)) (sym hs) stand)))
  then_walk m fs c (failed message path) h stand g = inl g
  then_walk m fs c panicked h stand g = g

  -- If no Go map stands in the document and each object below the root stands at its position
  -- (the keys of the path are bytes, what the object refers to can be parsed, and no reference in
  -- place of a message stands at the top of `components`), then compiling the document into an
  -- empty storage does not panic. It fails only where some object is faulty, a schema for any reason.
  -- Otherwise there is one artifact for each object, the root first and then in the order of
  -- the document, with the pointer to the object's place, and the registered promises are those
  -- that stand in these artifacts, in order.
  pub compile_document-Whole :
      (store : Storage Compiled ListPromise) (m : ℕ) (fs : Fields) (c : Ctx)
      → store.artifacts ≡ []
      → store.promises ≡ []
      → NoGoMap (struct_value (some m) fs)
      → AllStand net objects ((start, m) ∷ below (struct_value (some m) fs) start)
      → Whole decoders objects
          ((start, m) ∷ below (struct_value (some m) fs) start)
          (compile_document compile store (struct_value (some m) fs) c)
  unfolding compile_document with_results_store
  compile_document-Whole store m fs c ea ep h (root, stand) =
      from_empty decoders objects ((start, m) ∷ below (struct_value (some m) fs) start)
        (with_results_store store c) _ ea ep
        (then_walk m fs (with_results_store store c) (compile m (with_results_store store c)) h
          stand
          (compile_any-Grows decoders conv net opts trim_visible (objects m)
            (with_results_store store c) root))
