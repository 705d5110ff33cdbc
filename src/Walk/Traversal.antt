-- ===== src/Walk/Traversal.antt =====
-- WalkAndCompile of internal/compiler/walk.go compiles the objects in the order of the document.
use go_asyncapi.Common.{
  ℕ, suc, ◌≡◌, ◌∙◌, refl, sym, ap, Bool, true, false, not, ◌&&◌, Option, none, some, List, [], ◌++◌,
  Bytes, All, All-split,
}
use go_asyncapi.Types.Stack.{SimpleStack, top, top-push}
use go_asyncapi.Context.{
  Result, returned, panicked, ◌>>=◌, Flags, DocumentTreeItem, CompileContext, top_item,
}
use go_asyncapi.Schema.Parts.{itoa}
use go_asyncapi.Walk.{
  Value, Pairs, Fields, Values, ordered_map, union, struct_value, slice, scalar, go_map, nil_value,
  no_pairs, pair, no_fields, struct_field, no_values, next_value, method, get_field_json_name,
  parse_tags, pushed, at_stack, pop_stack, compile_here, walk, walk_pairs, walk_fields, walk_values,
  push_stack,
}
use go_asyncapi.Walk.Order.{
  Position, here, below, below_pairs, below_fields, below_values, NoGoMap, NoGoMapPairs,
  NoGoMapFields, NoGoMapValues, bind_cong, bind_assoc, pop_stack-pushed, compile_all, compiled_at,
  compiled_at-append, KeepsStack,
}

module _ {A : Type 0} {L : Type 0}
    (compile : ℕ → CompileContext A L → Result (CompileContext A L)) where
  -- Run at a stack, it is the compilation of these objects, and then at another stack.
  abbrev Runs :
      (CompileContext A L → Result (CompileContext A L))
      → SimpleStack DocumentTreeItem
      → SimpleStack DocumentTreeItem
      → List Position
      → Type 0
  Runs f s t ps = (c : CompileContext A L) → f (at_stack s c) ≡ compiled_at compile t ps c

  Runs-bind :
      (f g : CompileContext A L → Result (CompileContext A L))
      (s t u : SimpleStack DocumentTreeItem) (xs ys : List Position)
      → Runs f s t xs
      → Runs g t u ys
      → Runs (λ c. f c >>= g) s u (xs ++ ys)
  Runs-bind f g s t u xs ys hf hg c =
      ap (λ r. r >>= g) (hf c)
      ∙ bind_assoc (compile_all compile xs c) (λ c1. returned (at_stack t c1)) g
      ∙ bind_cong (compile_all compile xs c) (λ c1. g (at_stack t c1)) (compiled_at compile u ys) hg
      ∙ sym (compiled_at-append compile u xs ys c)

  abbrev Keep : List Position → Type 0
  Keep = All (KeepsStack compile)

  here-Runs :
      (m : Option ℕ) (s : SimpleStack DocumentTreeItem)
      → Keep (here m s)
      → Runs (compile_here compile m) s s (here m s)
  here-Runs none s keep c = refl
  here-Runs (some m) s (keep, _) c =
      sym (keep c)
      ∙ sym (
          bind_assoc (compile m (at_stack s c)) (compile_all compile [])
            (λ c1. returned (at_stack s c1)))

  object-Runs :
      (v : Value) (s : SimpleStack DocumentTreeItem)
      → Keep (here (method v) s ++ below v s)
      → (Keep (below v s) → Runs (walk compile v) s s (below v s))
      → Runs
          (λ c. compile_here compile (method v) c >>= λ c1. walk compile v c1)
          s
          s
          (here (method v) s ++ below v s)
  object-Runs v s keep ih =
      let (here_keeps, below_keeps) = All-split _ (here (method v) s) (below v s) keep in
      Runs-bind (compile_here compile (method v)) (walk compile v) s s s (here (method v) s)
        (below v s) (here-Runs (method v) s here_keeps) (ih below_keeps)

  -- A part at its own stack, and then the rest.
  part-Runs :
      (k : Bytes) (flags : Option Flags) (v : Value) (s : SimpleStack DocumentTreeItem)
      (rest : CompileContext A L → Result (CompileContext A L)) (ps : List Position)
      → Keep (here (method v) (pushed k flags s) ++ (below v (pushed k flags s) ++ ps))
      → (Keep (below v (pushed k flags s))
          → Runs
              (walk compile v)
              (pushed k flags s)
              (pushed k flags s)
              (below v (pushed k flags s)))
      → (Keep ps → Runs rest s s ps)
      → Runs
          (λ c. compile_here compile (method v) c >>= λ c1.
            walk compile v c1 >>= λ c2. pop_stack c2 >>= rest)
          (pushed k flags s)
          s
          (here (method v) (pushed k flags s) ++ (below v (pushed k flags s) ++ ps))
  part-Runs k flags v s rest ps keep ih hrest =
      let s1 = pushed k flags s in
      let (here_keeps, later) = All-split _ (here (method v) s1) (below v s1 ++ ps) keep in
      let (below_keeps, rest_keeps) = All-split _ (below v s1) ps later in
      let pops : Runs (λ c. pop_stack c >>= rest) s1 s ps =
        λ c. ap (λ r. r >>= rest) (pop_stack-pushed k flags s c) ∙ hrest rest_keeps c in
      Runs-bind (compile_here compile (method v))
        (λ c1. walk compile v c1 >>= λ c2. pop_stack c2 >>= rest) s1 s1 s (here (method v) s1)
        (below v s1 ++ ps) (here-Runs (method v) s1 here_keeps)
        (Runs-bind (walk compile v) (λ c2. pop_stack c2 >>= rest) s1 s1 s (below v s1) ps
          (ih below_keeps) pops)

  abbrev HasTop : SimpleStack DocumentTreeItem → Type 0
  HasTop s = (item : DocumentTreeItem) × (top s ≡ some item)

  pushed-HasTop :
      (k : Bytes) (flags : Option Flags) (s : SimpleStack DocumentTreeItem)
      → HasTop (pushed k flags s)
  unfolding pushed
  pushed-HasTop k flags s = (_, top-push _ s)

  -- A part under a key, with the flags of the item at the top.
  keyed-Runs :
      (k : Bytes) (v : Value) (s : SimpleStack DocumentTreeItem)
      (rest : CompileContext A L → Result (CompileContext A L)) (ps : List Position)
      (o : Option DocumentTreeItem) (item : DocumentTreeItem)
      → o ≡ some item
      → Keep (
          here
            (method v)
            (pushed k (elim o as (λ x. Option Flags) [ none ↦ none | some i ↦ some i.flags ]) s)
          ++ (below v
                (pushed k (elim o as (λ x. Option Flags) [ none ↦ none | some i ↦ some i.flags ]) s)
              ++ ps))
      → ((flags : Option Flags)
          → Keep (below v (pushed k flags s))
          → Runs
              (walk compile v)
              (pushed k flags s)
              (pushed k flags s)
              (below v (pushed k flags s)))
      → (Keep ps → Runs rest s s ps)
      → (c : CompileContext A L)
      → (elim o as (λ x. Result DocumentTreeItem) [ none ↦ panicked | some i ↦ returned i ] >>= λ i.
          compile_here compile (method v) (push_stack k (some i.flags) (at_stack s c)) >>= λ c1.
          walk compile v c1 >>= λ c2. pop_stack c2 >>= rest)
        ≡ compiled_at compile s
            (here
                (method v)
                (pushed k (elim o as (λ x. Option Flags) [ none ↦ none | some i ↦ some i.flags ]) s)
              ++ (below v (
                    pushed k
                      (elim o as (λ x. Option Flags) [ none ↦ none | some i ↦ some i.flags ])
                      s)
                  ++ ps))
            c
  keyed-Runs k v s rest ps none item e keep ih hrest c = cc e
  keyed-Runs k v s rest ps (some i) item e keep ih hrest c =
      part-Runs k (some i.flags) v s rest ps keep (ih (some i.flags)) hrest c

  -- A field, which is walked if it is exported and not anonymous.
  field-Runs :
      (b : Bool) (k : Bytes) (flags : Option Flags) (v : Value) (s : SimpleStack DocumentTreeItem)
      (rest : CompileContext A L → Result (CompileContext A L)) (ps : List Position)
      → Keep (elim b as (λ x. List Position) [
        | false ↦ ps
        | true ↦ here (method v) (pushed k flags s) ++ (below v (pushed k flags s) ++ ps)
      ])
      → (Keep (below v (pushed k flags s))
          → Runs
              (walk compile v)
              (pushed k flags s)
              (pushed k flags s)
              (below v (pushed k flags s)))
      → (Keep ps → Runs rest s s ps)
      → (c : CompileContext A L)
      → (elim b as (λ x. Result (CompileContext A L)) [
        | false ↦ rest (at_stack s c)
        | true ↦ compile_here compile (method v) (push_stack k flags (at_stack s c)) >>= λ c1.
            walk compile v c1 >>= λ c2. pop_stack c2 >>= rest
      ])
        ≡ compiled_at compile s
            (elim b as (λ x. List Position) [
              | false ↦ ps
              | true ↦ here (method v) (pushed k flags s) ++ (below v (pushed k flags s) ++ ps)
            ])
            c
  field-Runs false k flags v s rest ps keep ih hrest c = hrest keep c
  field-Runs true k flags v s rest ps keep ih hrest c =
      part-Runs k flags v s rest ps keep ih hrest c

  mutual
    unfolding walk top_item

    walk-Runs :
        (v : Value) (s : SimpleStack DocumentTreeItem)
        → HasTop s
        → NoGoMap v
        → Keep (below v s)
        → Runs (walk compile v) s s (below v s)
    walk-Runs (ordered_map m ps) s t h keep c = walk_pairs-Runs ps s t h keep c
    walk-Runs (union m v) s t h keep c = object-Runs v s keep (walk-Runs v s t h) c
    walk-Runs (struct_value m fs) s t h keep c = walk_fields-Runs fs s h keep c
    walk-Runs (slice m vs) s t h keep c = walk_values-Runs 0 vs s t h keep c
    walk-Runs (scalar m) s t h keep c = refl
    walk-Runs (go_map m) s t h keep c = absurd h
    walk-Runs nil_value s t h keep c = refl

    walk_pairs-Runs :
        (ps : Pairs) (s : SimpleStack DocumentTreeItem)
        → HasTop s
        → NoGoMapPairs ps
        → Keep (below_pairs ps s)
        → Runs (walk_pairs compile ps) s s (below_pairs ps s)
    walk_pairs-Runs no_pairs s t h keep c = refl
    walk_pairs-Runs (pair k v ps) s (item, e) (hv, hs) keep c =
        keyed-Runs k v s (walk_pairs compile ps) (below_pairs ps s) (top s) item e keep
          (λ flags. walk-Runs v (pushed k flags s) (pushed-HasTop k flags s) hv)
          (walk_pairs-Runs ps s (item, e) hs) c

    walk_fields-Runs :
        (fs : Fields) (s : SimpleStack DocumentTreeItem)
        → NoGoMapFields fs
        → Keep (below_fields fs s)
        → Runs (walk_fields compile fs) s s (below_fields fs s)
    walk_fields-Runs no_fields s h keep c = refl
    walk_fields-Runs (struct_field f v fs) s (hv, hs) keep c =
        field-Runs (f.exported && not f.anonymous) (get_field_json_name f) (parse_tags f) v s
          (walk_fields compile fs) (below_fields fs s) keep
          (walk-Runs v (pushed (get_field_json_name f) (parse_tags f) s)
            (pushed-HasTop (get_field_json_name f) (parse_tags f) s) hv)
          (walk_fields-Runs fs s hs) c

    walk_values-Runs :
        (index : ℕ) (vs : Values) (s : SimpleStack DocumentTreeItem)
        → HasTop s
        → NoGoMapValues vs
        → Keep (below_values index vs s)
        → Runs (walk_values compile index vs) s s (below_values index vs s)
    walk_values-Runs index no_values s t h keep c = refl
    walk_values-Runs index (next_value v vs) s (item, e) (hv, hs) keep c =
        keyed-Runs (itoa index) v s (walk_values compile (suc index) vs)
          (below_values (suc index) vs s) (top s) item e keep
          (λ flags.
            walk-Runs v (pushed (itoa index) flags s) (pushed-HasTop (itoa index) flags s) hv)
          (walk_values-Runs (suc index) vs s (item, e) hs) c

  -- If the Compile methods of the objects below a struct without Go maps leave the stacks as they
  -- find them, then the walk over it calls the Compile methods of all objects below it,
  -- each once, an object before those that it holds and these in the order of the document,
  -- with the stack of its place; the first error ends it, and otherwise the stack is in the end
  -- what it was.
  pub walk-compile_all :
      (m : Option ℕ) (fs : Fields) (c : CompileContext A L)
      → NoGoMap (struct_value m fs)
      → All (KeepsStack compile) (below (struct_value m fs) c.stack)
      → walk compile (struct_value m fs) c ≡ (
          compile_all compile (below (struct_value m fs) c.stack) c >>= λ c1.
          returned (at_stack c.stack c1))
  unfolding walk
  walk-compile_all m fs c h keep = walk_fields-Runs fs c.stack h keep c
