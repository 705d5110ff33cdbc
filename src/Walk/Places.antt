-- ===== src/Walk/Places.antt =====
-- Where the objects below a value stand (internal/compiler/walk.go): the keys that lead to them, which
-- make the pointers of their artifacts, and the data model tag, which they inherit.
use mathlib.Core.List.{map-append}
use mathlib.Core.Option.{some-injective}
use mathlib.Core.Path.{subst}
use go_asyncapi.Common.{
  ℕ, suc, ◌≡◌, ◌∙◌, ◌⊎◌, refl, sym, ap, Bool, true, false, not, ◌&&◌, Option, none, some, List, [],
  ◌∷◌, ◌++◌, Bytes, All, All-append, map, append_assoc, append-nil, inl, inr, bytes_eq, eq_refl,
}
use go_asyncapi.Common.GoMap.{lookup, lookup-insert}
use go_asyncapi.Types.Stack.{SimpleStack, top, push, items, top-push}
use go_asyncapi.Context.{Flags, DocumentTreeItem}
use go_asyncapi.Schema.Parts.{itoa}
use go_asyncapi.Walk.{
  StructField, Value, Pairs, Fields, Values, ordered_map, union, struct_value, slice, scalar,
  go_map, nil_value, no_pairs, pair, no_fields, struct_field, no_values, next_value, method,
  get_field_json_name, parse_tags, pushed, inherited, flags_or_empty, data_model,
}
use go_asyncapi.Walk.Order.{
  Position, here, top_flags, below, below_pairs, below_fields, below_values,
}
use go_asyncapi.Walk.Leads.{
  Leads, LeadsPairs, LeadsFields, LeadsValues, get_field_json_name-FieldKey,
}

-- The keys of a stack, and the data model tag of its top.
abbrev pub stack_keys : SimpleStack DocumentTreeItem → List Bytes
stack_keys s = map (λ item. item.key) (items s)

abbrev pub HasModel : SimpleStack DocumentTreeItem → Bytes → Type 0
HasModel s w =
    (item : DocumentTreeItem) × (top s ≡ some item) × (lookup data_model item.flags ≡ some w)

-- A position at the end of keys in a relation to its object, with the tag of the stack that it is
-- below.
abbrev pub StandsBelow :
    (List Bytes → ℕ → Type 0) → SimpleStack DocumentTreeItem → Position → Type 0
StandsBelow R s p =
    (ks : List Bytes) × (stack_keys p.0 ≡ stack_keys s ++ ks)
    × R ks p.1
    × ((w : Bytes) → HasModel s w → HasModel p.0 w)

inherits :
    (o : Option DocumentTreeItem) (item : DocumentTreeItem) (flags : Flags) (w : Bytes)
    → o ≡ some item
    → lookup data_model item.flags ≡ some w
    → lookup data_model (inherited o flags) ≡ some w
inherits none item flags w e h = cc e
inherits (some i) item flags w e h =
    let found : lookup data_model i.flags ≡ some w =
      subst (λ j. lookup data_model j.flags ≡ some w) (sym (some-injective i item e)) h in
    rw (inherited, found)
      (lookup-insert data_model data_model w flags ∙ rw (eq_refl ⦃e = bytes_eq⦄ data_model) refl)

pushed-HasModel :
    (k : Bytes) (flags : Option Flags) (s : SimpleStack DocumentTreeItem) (w : Bytes)
    → HasModel s w
    → HasModel (pushed k flags s) w
unfolding pushed
pushed-HasModel k flags s w (item, e, h) = (
  _,
  top-push (record { key = k; flags = inherited (top s) (flags_or_empty flags) }) s,
  inherits (top s) item (flags_or_empty flags) w e h,
)

pub stack_keys-pushed :
    (k : Bytes) (flags : Option Flags) (s : SimpleStack DocumentTreeItem)
    → stack_keys (pushed k flags s) ≡ stack_keys s ++ k ∷ []
unfolding pushed push items
stack_keys-pushed k flags s = map-append (λ item. item.key) s.stack _

-- The object of a value and those below it.
abbrev pub Within : Value → List Bytes → ℕ → Type 0
Within v ks n = ((ks ≡ []) × (method v ≡ some n)) ⊎ Leads v ks n

abbrev Behind : (List Bytes → ℕ → Type 0) → Bytes → List Bytes → ℕ → Type 0
Behind R k ks n = (rest : List Bytes) × (ks ≡ k ∷ rest) × R rest n

All_of :
    {A : Type 0} {P Q : A → Type 0} → ((x : A) → P x → Q x) → (xs : List A) → All P xs → All Q xs
All_of h [] p = tt
All_of h (x ∷ xs) (p, ps) = (h x p, All_of h xs ps)

weaker :
    {R S : List Bytes → ℕ → Type 0} (s : SimpleStack DocumentTreeItem) (xs : List Position)
    → ((ks : List Bytes) (n : ℕ) → R ks n → S ks n)
    → All (StandsBelow R s) xs
    → All (StandsBelow S s) xs
weaker s xs h = All_of (λ p (ks, e, r, m). (ks, e, h ks p.1 r, m)) xs

pushed-StandsBelow :
    (R : List Bytes → ℕ → Type 0) (k : Bytes) (flags : Option Flags)
    (s : SimpleStack DocumentTreeItem) (xs : List Position)
    → All (StandsBelow R (pushed k flags s)) xs
    → All (StandsBelow (Behind R k) s) xs
pushed-StandsBelow R k flags s xs =
    All_of
      (λ p (ks, e, r, m). (
        k ∷ ks,
        e
            ∙ ap (λ js. js ++ ks) (stack_keys-pushed k flags s)
            ∙ append_assoc (stack_keys s) (k ∷ []) ks,
        (ks, refl, r),
        λ w h. m w (pushed-HasModel k flags s w h),
      ))
      xs

here-Within :
    (v : Value) (s : SimpleStack DocumentTreeItem) (o : Option ℕ)
    → method v ≡ o
    → All (StandsBelow (Within v) s) (here o s)
here-Within v s none e = tt
here-Within v s (some n) e = (([], sym (append-nil (stack_keys s)), inl (refl, e), λ w h. h), tt)

-- A part under a key, and the parts behind it.
part-Behind :
    (k : Bytes) (flags : Option Flags) (v : Value) (s : SimpleStack DocumentTreeItem)
    → All (StandsBelow (Leads v) (pushed k flags s)) (below v (pushed k flags s))
    → All
        (StandsBelow (Behind (Within v) k) s)
        (here (method v) (pushed k flags s) ++ below v (pushed k flags s))
part-Behind k flags v s h =
    pushed-StandsBelow (Within v) k flags s
      (here (method v) (pushed k flags s) ++ below v (pushed k flags s))
      (All-append _ (here (method v) (pushed k flags s)) (below v (pushed k flags s))
        (here-Within v (pushed k flags s) (method v) refl)
        (weaker (pushed k flags s) (below v (pushed k flags s)) (λ ks n r. inr r) h))

either :
    {R S T : List Bytes → ℕ → Type 0} (s : SimpleStack DocumentTreeItem) (us vs ws : List Position)
    → ((ks : List Bytes) (n : ℕ) → R ks n → T ks n)
    → ((ks : List Bytes) (n : ℕ) → S ks n → T ks n)
    → All (StandsBelow R s) (us ++ vs)
    → All (StandsBelow S s) ws
    → All (StandsBelow T s) (us ++ (vs ++ ws))
either s us vs ws f g h k =
    subst (All (StandsBelow _ s)) (append_assoc us vs ws)
      (All-append _ (us ++ vs) ws (weaker s (us ++ vs) f h) (weaker s ws g k))

-- The objects from a field on, if it is walked or not.
abbrev pub listed :
    Bool → StructField → Value → Fields → SimpleStack DocumentTreeItem → List Position
listed b f v fs s =
    let s1 = pushed (get_field_json_name f) (parse_tags f) s in
    let rest = below_fields fs s in
    let all = here (method v) s1 ++ (below v s1 ++ rest) in elim b [ false ↦ rest | true ↦ all ]

both_tests : (b c : Bool) → b && not c ≡ true → (b ≡ true) × (c ≡ false)
both_tests true false e = (refl, refl)
both_tests true true e = cc e
both_tests false c e = cc e

field-StandsBelow :
    (f : StructField) (v : Value) (fs : Fields) (s : SimpleStack DocumentTreeItem) (b : Bool)
    → f.exported && not f.anonymous ≡ b
    → All (StandsBelow (Behind (Within v) (get_field_json_name f)) s) (
        here (method v) (pushed (get_field_json_name f) (parse_tags f) s)
        ++ below v (pushed (get_field_json_name f) (parse_tags f) s))
    → All (StandsBelow (LeadsFields fs) s) (below_fields fs s)
    → All (StandsBelow (LeadsFields (struct_field f v fs)) s) (below_fields (struct_field f v fs) s)
field-StandsBelow f v fs s false e h k =
    subst (λ b. All (StandsBelow (LeadsFields (struct_field f v fs)) s) (listed b f v fs s)) (sym e)
      (weaker s (below_fields fs s) (λ ks n r. inr r) k)
field-StandsBelow f v fs s true e h k =
    let (exported, named) = both_tests f.exported f.anonymous e in
    subst (λ b. All (StandsBelow (LeadsFields (struct_field f v fs)) s) (listed b f v fs s)) (sym e)
      (either s (here (method v) (pushed (get_field_json_name f) (parse_tags f) s))
        (below v (pushed (get_field_json_name f) (parse_tags f) s)) (below_fields fs s)
        (λ ks n r.
          inl (exported, named, (get_field_json_name f, get_field_json_name-FieldKey f, r)))
        (λ ks n r. inr r) h k)

mutual
  pub below-StandsBelow :
      (v : Value) (s : SimpleStack DocumentTreeItem) → All (StandsBelow (Leads v) s) (below v s)
  below-StandsBelow (ordered_map m ps) s = pairs-StandsBelow ps s
  below-StandsBelow (union m v) s =
      All-append _ (here (method v) s) (below v s)
        (weaker s (here (method v) s) (λ ks n r. r) (here-Within v s (method v) refl))
        (weaker s (below v s) (λ ks n r. inr r) (below-StandsBelow v s))
  below-StandsBelow (struct_value m fs) s = fields-StandsBelow fs s
  below-StandsBelow (slice m vs) s = values-StandsBelow 0 vs s
  below-StandsBelow (scalar m) s = tt
  below-StandsBelow (go_map m) s = tt
  below-StandsBelow nil_value s = tt

  pairs-StandsBelow :
      (ps : Pairs) (s : SimpleStack DocumentTreeItem)
      → All (StandsBelow (LeadsPairs ps) s) (below_pairs ps s)
  pairs-StandsBelow no_pairs s = tt
  pairs-StandsBelow (pair k v ps) s =
      either s (here (method v) (pushed k (top_flags s) s)) (below v (pushed k (top_flags s) s))
        (below_pairs ps s) (λ ks n r. inl r) (λ ks n r. inr r)
        (part-Behind k (top_flags s) v s (below-StandsBelow v (pushed k (top_flags s) s)))
        (pairs-StandsBelow ps s)

  fields-StandsBelow :
      (fs : Fields) (s : SimpleStack DocumentTreeItem)
      → All (StandsBelow (LeadsFields fs) s) (below_fields fs s)
  fields-StandsBelow no_fields s = tt
  fields-StandsBelow (struct_field f v fs) s =
      field-StandsBelow f v fs s (f.exported && not f.anonymous) refl
        (part-Behind (get_field_json_name f) (parse_tags f) v s
          (below-StandsBelow v (pushed (get_field_json_name f) (parse_tags f) s)))
        (fields-StandsBelow fs s)

  values-StandsBelow :
      (index : ℕ) (vs : Values) (s : SimpleStack DocumentTreeItem)
      → All (StandsBelow (LeadsValues index vs) s) (below_values index vs s)
  values-StandsBelow index no_values s = tt
  values-StandsBelow index (next_value v vs) s =
      either s (here (method v) (pushed (itoa index) (top_flags s) s))
        (below v (pushed (itoa index) (top_flags s) s)) (below_values (suc index) vs s)
        (λ ks n r. inl r) (λ ks n r. inr r)
        (part-Behind (itoa index) (top_flags s) v s
          (below-StandsBelow v (pushed (itoa index) (top_flags s) s)))
        (values-StandsBelow (suc index) vs s)
