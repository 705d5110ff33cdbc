-- ===== src/Walk/Order.antt =====
-- The objects below a value of internal/compiler/walk.go in the order of the document, and their
-- compilation one after another.
use go_asyncapi.Common.{
  ℕ, suc, ◌≡◌, ◌∙◌, refl, sym, ap, true, false, not, ◌&&◌, Option, none, some, List, [], ◌∷◌, ◌++◌,
  Bytes,
}
use go_asyncapi.Types.Stack.{SimpleStack, top, pop-push}
use go_asyncapi.Context.{
  Result, returned, failed, panicked, ◌>>=◌, Flags, DocumentTreeItem, CompileContext,
}
use go_asyncapi.Schema.Parts.{itoa}
use go_asyncapi.Walk.{
  Value, Pairs, Fields, Values, ordered_map, union, struct_value, slice, scalar, go_map, nil_value,
  no_pairs, pair, no_fields, struct_field, no_values, next_value, method, get_field_json_name,
  parse_tags, pushed, at_stack, pop_stack, popped, inherited, flags_or_empty,
}

abbrev pub Position : Type 0
Position = SimpleStack DocumentTreeItem × ℕ

abbrev pub here : Option ℕ → SimpleStack DocumentTreeItem → List Position
here none s = []
here (some m) s = (s, m) ∷ []

-- The flags of the item at the top.
abbrev pub top_flags : SimpleStack DocumentTreeItem → Option Flags
top_flags s = elim (top s) [ none ↦ none | some item ↦ some item.flags ]

-- The objects below a value, each after those that hold it and with the stack of its position.
abbrev mutual
  pub below : Value → SimpleStack DocumentTreeItem → List Position
  below (ordered_map m ps) s = below_pairs ps s
  below (union m v) s = here (method v) s ++ below v s
  below (struct_value m fs) s = below_fields fs s
  below (slice m vs) s = below_values 0 vs s
  below (scalar m) s = []
  below (go_map m) s = []
  below nil_value s = []

  pub below_pairs : Pairs → SimpleStack DocumentTreeItem → List Position
  below_pairs no_pairs s = []
  below_pairs (pair k v ps) s =
      let s1 = pushed k (top_flags s) s in here (method v) s1 ++ (below v s1 ++ below_pairs ps s)

  pub below_fields : Fields → SimpleStack DocumentTreeItem → List Position
  below_fields no_fields s = []
  below_fields (struct_field f v fs) s =
      let s1 = pushed (get_field_json_name f) (parse_tags f) s in
      let rest = below_fields fs s in
      let all = here (method v) s1 ++ (below v s1 ++ rest) in
      elim (f.exported && not f.anonymous) [ false ↦ rest | true ↦ all ]

  pub below_values : ℕ → Values → SimpleStack DocumentTreeItem → List Position
  below_values index no_values s = []
  below_values index (next_value v vs) s =
      let s1 = pushed (itoa index) (top_flags s) s in
      here (method v) s1 ++ (below v s1 ++ below_values (suc index) vs s)

-- No Go map stands in the value.
abbrev mutual
  pub NoGoMap : Value → Type 0
  NoGoMap (ordered_map m ps) = NoGoMapPairs ps
  NoGoMap (union m v) = NoGoMap v
  NoGoMap (struct_value m fs) = NoGoMapFields fs
  NoGoMap (slice m vs) = NoGoMapValues vs
  NoGoMap (scalar m) = Unit
  NoGoMap (go_map m) = ⊥
  NoGoMap nil_value = Unit

  pub NoGoMapPairs : Pairs → Type 0
  NoGoMapPairs no_pairs = Unit
  NoGoMapPairs (pair k v ps) = NoGoMap v × NoGoMapPairs ps

  pub NoGoMapFields : Fields → Type 0
  NoGoMapFields no_fields = Unit
  NoGoMapFields (struct_field f v fs) = NoGoMap v × NoGoMapFields fs

  pub NoGoMapValues : Values → Type 0
  NoGoMapValues no_values = Unit
  NoGoMapValues (next_value v vs) = NoGoMap v × NoGoMapValues vs

module _ {A : Type 0} {L : Type 0} where
  pub bind_cong :
      (r : Result (CompileContext A L)) (f g : (CompileContext A L) → Result (CompileContext A L))
      → ((c : (CompileContext A L)) → f c ≡ g c)
      → (r >>= f) ≡ (r >>= g)
  bind_cong (returned c) f g h = h c
  bind_cong (failed message path) f g h = refl
  bind_cong panicked f g h = refl

  pub bind_assoc :
      (r : Result (CompileContext A L)) (f g : (CompileContext A L) → Result (CompileContext A L))
      → ((r >>= f) >>= g) ≡ (r >>= λ c. f c >>= g)
  bind_assoc (returned c) f g = refl
  bind_assoc (failed message path) f g = refl
  bind_assoc panicked f g = refl

  pub pop_stack-pushed :
      (k : Bytes) (flags : Option Flags) (s : SimpleStack DocumentTreeItem)
      (c : (CompileContext A L))
      → pop_stack (at_stack (pushed k flags s) c) ≡ returned (at_stack s c)
  unfolding pop_stack pushed
  pop_stack-pushed k flags s c =
      ap (λ o. popped o (at_stack (pushed k flags s) c))
        (pop-push (record { key = k; flags = inherited (top s) (flags_or_empty flags) }) s)

  module _ (compile : ℕ → (CompileContext A L) → Result (CompileContext A L)) where
    -- The objects compiled one after another, each at its position.
    abbrev pub compile_all : List Position → (CompileContext A L) → Result (CompileContext A L)
    compile_all [] c = returned c
    compile_all ((s, m) ∷ ps) c = compile m (at_stack s c) >>= λ c1. compile_all ps c1

    -- Compiled like this, and then put back to a stack.
    abbrev pub compiled_at :
        SimpleStack DocumentTreeItem
        → List Position
        → (CompileContext A L)
        → Result (CompileContext A L)
    compiled_at s ps c = compile_all ps c >>= λ c1. returned (at_stack s c1)

    pub compile_all-append :
        (xs ys : List Position) (c : (CompileContext A L))
        → compile_all (xs ++ ys) c ≡ (compile_all xs c >>= λ c1. compile_all ys c1)
    compile_all-append [] ys c = refl
    compile_all-append ((s, m) ∷ xs) ys c =
        bind_cong (compile m (at_stack s c)) _ _ (compile_all-append xs ys)
        ∙ sym (bind_assoc (compile m (at_stack s c)) (compile_all xs) (compile_all ys))

    pub compiled_at-append :
        (s : SimpleStack DocumentTreeItem) (xs ys : List Position) (c : (CompileContext A L))
        → compiled_at s (xs ++ ys) c ≡ (compile_all xs c >>= λ c1. compiled_at s ys c1)
    compiled_at-append s xs ys c =
        ap (λ r. r >>= λ c1. returned (at_stack s c1)) (compile_all-append xs ys c)
        ∙ bind_assoc (compile_all xs c) (compile_all ys) (λ c1. returned (at_stack s c1))

    -- A Compile method leaves the stack of a position as it found it.
    abbrev pub KeepsStack : Position → Type 0
    KeepsStack (s, m) =
        (c : CompileContext A L)
        → (compile m (at_stack s c) >>= λ c1. returned (at_stack s c1)) ≡ compile m (at_stack s c)
