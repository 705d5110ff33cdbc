-- ===== src/Walk/Reached.antt =====
-- Every object that keys lead to in a document is compiled by WalkAndCompile of
-- internal/compiler/walk.go, and at a stack with these keys.
use mathlib.Core.Path.{subst}
use go_asyncapi.Common.{
  ℕ, suc, ◌≡◌, ◌∙◌, ◌⊎◌, refl, sym, ap, Bool, true, false, not, ◌&&◌, Option, List, [], ◌∷◌, ◌++◌,
  Bytes, codes, All, append_assoc, append-nil, inl, inr, ◌==◌, bytes_eq, if◌then◌else◌, eq_refl,
  false_of_ne,
}
use go_asyncapi.Common.Strings.{split, split-Lacks, split-part, Lacks}
use go_asyncapi.Types.Stack.{SimpleStack}
use go_asyncapi.Context.{Result, returned, ◌>>=◌, Flags, DocumentTreeItem, CompileContext}
use go_asyncapi.Schema.Parts.{itoa}
use go_asyncapi.Walk.{
  StructField, Value, Pairs, Fields, Values, ordered_map, union, struct_value, slice, scalar,
  go_map, nil_value, no_pairs, pair, no_fields, struct_field, no_values, next_value, method,
  get_field_json_name, parse_tags, pushed, walk, at_stack,
}
use go_asyncapi.Walk.Order.{
  Position, here, top_flags, below, below_pairs, below_fields, below_values, NoGoMap, compile_all,
  KeepsStack,
}
use go_asyncapi.Walk.Traversal.{walk-compile_all}
use go_asyncapi.Walk.Leads.{TagKey, FieldKey, Leads, LeadsPairs, LeadsFields, LeadsValues}
use go_asyncapi.Walk.Places.{
  stack_keys, StandsBelow, Within, stack_keys-pushed, below-StandsBelow, listed,
}

-- An object stands in the list at a stack with these keys.
abbrev pub Reached : List Bytes → ℕ → List Position → Type 0
Reached ks n [] = ⊥
Reached ks n (p ∷ ps) = ((stack_keys p.0 ≡ ks) × (p.1 ≡ n)) ⊎ Reached ks n ps

Reached-left :
    (ks : List Bytes) (n : ℕ) (ps qs : List Position) → Reached ks n ps → Reached ks n (ps ++ qs)
Reached-left ks n [] qs h = absurd h
Reached-left ks n (p ∷ ps) qs (inl h) = inl h
Reached-left ks n (p ∷ ps) qs (inr h) = inr (Reached-left ks n ps qs h)

Reached-right :
    (ks : List Bytes) (n : ℕ) (ps qs : List Position) → Reached ks n qs → Reached ks n (ps ++ qs)
Reached-right ks n [] qs h = h
Reached-right ks n (p ∷ ps) qs h = inr (Reached-right ks n ps qs h)

-- A json tag has one key.
first_of_split :
    (tag part : Bytes)
    → Lacks 44 part
    → (tag ≡ part) ⊎ ((rest : Bytes) × (tag ≡ part ++ 44 ∷ rest))
    → (more : List Bytes) × (split 44 tag ≡ part ∷ more)
first_of_split tag part h (inl e) = ([], ap (split 44) e ∙ split-Lacks 44 part h)
first_of_split tag part h (inr (rest, e)) =
    (split 44 rest, ap (split 44) e ∙ split-part 44 part rest h)

TagKey-unique :
    (tag k : Bytes)
    → TagKey tag k
    → k ≡ elim (split 44 tag) [ [] ↦ [] | part ∷ parts ↦ if part == codes "-" then [] else part ]
TagKey-unique tag k (part, lacks, how, named) =
    let (more, e) = first_of_split tag part lacks how in
    rw e (elim named [
      | inl g ↦ g.1 ∙ rw (g.0) (rw (eq_refl ⦃e = bytes_eq⦄ (codes "-")) refl)
      | inr g ↦ g.1 ∙ rw (false_of_ne part (codes "-") g.0) refl
    ])

FieldKey-unique : (f : StructField) (k : Bytes) → FieldKey f k → k ≡ get_field_json_name f
unfolding get_field_json_name
FieldKey-unique f k (inl (e, h)) = rw e h
FieldKey-unique f k (inr (tag, e, h)) = rw e (TagKey-unique tag k h)

-- The object of a value, and those below it, at a pushed stack.
part-Reached :
    (k : Bytes) (flags : Option Flags) (v : Value) (s : SimpleStack DocumentTreeItem)
    (rest : List Bytes) (n : ℕ) (qs : List Position)
    → (Leads v rest n
        → Reached (stack_keys (pushed k flags s) ++ rest) n (below v (pushed k flags s)))
    → Within v rest n
    → Reached
        (stack_keys s ++ k ∷ rest)
        n
        (here (method v) (pushed k flags s) ++ (below v (pushed k flags s) ++ qs))
part-Reached k flags v s rest n qs f (inl (e, g)) =
    rw (e, g) (inl (stack_keys-pushed k flags s, refl))
part-Reached k flags v s rest n qs f (inr r) =
    Reached-right _ n (here (method v) (pushed k flags s)) _ (
      Reached-left _ n (below v (pushed k flags s)) qs (
        subst (λ ks. Reached ks n (below v (pushed k flags s)))
          (ap (λ js. js ++ rest) (stack_keys-pushed k flags s)
            ∙ append_assoc (stack_keys s) (k ∷ []) rest)
          (f r)))

later-Reached :
    (ks : List Bytes) (n : ℕ) (ps qs rs : List Position)
    → Reached ks n rs
    → Reached ks n (ps ++ (qs ++ rs))
later-Reached ks n ps qs rs h = Reached-right ks n ps (qs ++ rs) (Reached-right ks n qs rs h)

is_walked :
    (f : StructField)
    → f.exported ≡ true
    → f.anonymous ≡ false
    → f.exported && not f.anonymous ≡ true
is_walked f exported named = rw (exported, named) refl

listed-Reached :
    (b : Bool) (f : StructField) (v : Value) (fs : Fields) (s : SimpleStack DocumentTreeItem)
    (ks : List Bytes) (n : ℕ)
    → Reached ks n (below_fields fs s)
    → Reached ks n (listed b f v fs s)
listed-Reached false f v fs s ks n h = h
listed-Reached true f v fs s ks n h =
    later-Reached ks n (here (method v) (pushed (get_field_json_name f) (parse_tags f) s))
      (below v (pushed (get_field_json_name f) (parse_tags f) s)) (below_fields fs s) h

mutual
  below-Reached :
      (v : Value) (s : SimpleStack DocumentTreeItem) (ks : List Bytes) (n : ℕ)
      → Leads v ks n
      → Reached (stack_keys s ++ ks) n (below v s)
  below-Reached (ordered_map m ps) s ks n r = pairs-Reached ps s ks n r
  below-Reached (union m v) s ks n (inl (e, g)) =
      rw (e, g) (inl (sym (append-nil (stack_keys s)), refl))
  below-Reached (union m v) s ks n (inr r) =
      Reached-right _ n (here (method v) s) (below v s) (below-Reached v s ks n r)
  below-Reached (struct_value m fs) s ks n r = fields-Reached fs s ks n r
  below-Reached (slice m vs) s ks n r = values-Reached 0 vs s ks n r
  below-Reached (scalar m) s ks n r = absurd r
  below-Reached (go_map m) s ks n r = absurd r
  below-Reached nil_value s ks n r = absurd r

  pairs-Reached :
      (ps : Pairs) (s : SimpleStack DocumentTreeItem) (ks : List Bytes) (n : ℕ)
      → LeadsPairs ps ks n
      → Reached (stack_keys s ++ ks) n (below_pairs ps s)
  pairs-Reached no_pairs s ks n r = absurd r
  pairs-Reached (pair k v ps) s ks n (inl (rest, e, r)) =
      subst (λ js. Reached (stack_keys s ++ js) n (below_pairs (pair k v ps) s)) (sym e)
        (part-Reached k (top_flags s) v s rest n (below_pairs ps s)
          (below-Reached v (pushed k (top_flags s) s) rest n) r)
  pairs-Reached (pair k v ps) s ks n (inr r) =
      later-Reached _ n (here (method v) (pushed k (top_flags s) s))
        (below v (pushed k (top_flags s) s)) (below_pairs ps s) (pairs-Reached ps s ks n r)

  fields-Reached :
      (fs : Fields) (s : SimpleStack DocumentTreeItem) (ks : List Bytes) (n : ℕ)
      → LeadsFields fs ks n
      → Reached (stack_keys s ++ ks) n (below_fields fs s)
  fields-Reached no_fields s ks n r = absurd r
  fields-Reached (struct_field f v fs) s ks n (inl (exported, named, (k, key, (rest, e, r)))) =
      subst (λ b. Reached (stack_keys s ++ ks) n (listed b f v fs s))
        (sym (is_walked f exported named))
        (subst (λ js. Reached (stack_keys s ++ js) n (listed true f v fs s))
          (sym (e ∙ ap (λ j. j ∷ rest) (FieldKey-unique f k key)))
          (part-Reached (get_field_json_name f) (parse_tags f) v s rest n (below_fields fs s)
            (below-Reached v (pushed (get_field_json_name f) (parse_tags f) s) rest n) r))
  fields-Reached (struct_field f v fs) s ks n (inr r) =
      listed-Reached (f.exported && not f.anonymous) f v fs s _ n (fields-Reached fs s ks n r)

  values-Reached :
      (index : ℕ) (vs : Values) (s : SimpleStack DocumentTreeItem) (ks : List Bytes) (n : ℕ)
      → LeadsValues index vs ks n
      → Reached (stack_keys s ++ ks) n (below_values index vs s)
  values-Reached index no_values s ks n r = absurd r
  values-Reached index (next_value v vs) s ks n (inl (rest, e, r)) =
      subst (λ js. Reached (stack_keys s ++ js) n (below_values index (next_value v vs) s)) (sym e)
        (part-Reached (itoa index) (top_flags s) v s rest n (below_values (suc index) vs s)
          (below-Reached v (pushed (itoa index) (top_flags s) s) rest n) r)
  values-Reached index (next_value v vs) s ks n (inr r) =
      later-Reached _ n (here (method v) (pushed (itoa index) (top_flags s) s))
        (below v (pushed (itoa index) (top_flags s) s)) (below_values (suc index) vs s)
        (values-Reached (suc index) vs s ks n r)

-- If the Compile methods of the objects below a struct without Go maps leave the stacks as they
-- find them, then the walk over it is the compilation of the objects below it, one after another,
-- and the restored stack; and each is compiled at a stack whose keys are those of the given stack
-- and then keys that lead from the struct to this object: for a field of a struct, which is
-- exported and not embedded, what stands in its json tag before a comma, with nothing in place of a
-- dash, or its name if it has no json tag; for an entry of an ordered map its key; for an element
-- of a slice its index; none for the value of a union. If the top of the given stack has a data
-- model tag, then the top of the object's stack has the same. Each object that such keys lead to is
-- among those compiled, at a stack with these keys.
pub walk-StandsBelow :
    {A : Type 0} {L : Type 0} (compile : ℕ → CompileContext A L → Result (CompileContext A L))
    (m : Option ℕ) (fs : Fields) (c : CompileContext A L)
    → NoGoMap (struct_value m fs)
    → All (KeepsStack compile) (below (struct_value m fs) c.stack)
    → (walk compile (struct_value m fs) c ≡ (
        compile_all compile (below (struct_value m fs) c.stack) c >>= λ c1.
        returned (at_stack c.stack c1)))
      × All (StandsBelow (Leads (struct_value m fs)) c.stack) (below (struct_value m fs) c.stack)
      × ((ks : List Bytes) (n : ℕ)
          → Leads (struct_value m fs) ks n
          → Reached (stack_keys c.stack ++ ks) n (below (struct_value m fs) c.stack))
walk-StandsBelow compile m fs c h keep = (
  walk-compile_all compile m fs c h keep,
  below-StandsBelow (struct_value m fs) c.stack,
  λ ks n r. below-Reached (struct_value m fs) c.stack ks n r,
)
