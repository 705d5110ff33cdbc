-- ===== src/Walk/Leads.antt =====
-- The keys that lead to an object of a document in internal/compiler/walk.go: those of getFieldJSONName,
-- of an ordered map and of a slice.
use mathlib.Core.Path.{subst}
use go_asyncapi.Common.{
  ℕ, suc, ◌≡◌, ◌≢◌, ◌⊎◌, refl, sym, ap, true, false, Option, none, some, List, [], ◌∷◌, ◌++◌, Bytes,
  codes, inl, inr, Bool-cases, ◌==◌, bytes_eq, ne_of_false, if◌then◌else◌, eqb, arith,
}
use go_asyncapi.Common.Strings.{split, Lacks}
use go_asyncapi.Schema.Parts.{itoa}
use go_asyncapi.Walk.{
  StructField, Value, Pairs, Fields, Values, ordered_map, union, struct_value, slice, scalar,
  go_map, nil_value, no_pairs, pair, no_fields, struct_field, no_values, next_value, method,
  get_field_json_name,
}

-- The key of a struct field: its name, or what stands in its json tag before a comma, but for a dash.
abbrev pub TagKey : Bytes → Bytes → Type 0
TagKey tag k =
    (part : Bytes) × Lacks 44 part
    × ((tag ≡ part) ⊎ ((rest : Bytes) × (tag ≡ part ++ 44 ∷ rest)))
    × (((part ≡ codes "-") × (k ≡ [])) ⊎ ((part ≢ codes "-") × (k ≡ part)))

abbrev pub FieldKey : StructField → Bytes → Type 0
FieldKey f k =
    ((f.json_tag ≡ none) × (k ≡ f.name)) ⊎ ((tag : Bytes) × (f.json_tag ≡ some tag) × TagKey tag k)

-- The keys that lead from a value to an object below it, which has the Compile method `n`.
abbrev mutual
  pub Leads : Value → List Bytes → ℕ → Type 0
  Leads (ordered_map m ps) ks n = LeadsPairs ps ks n
  Leads (union m v) ks n = ((ks ≡ []) × (method v ≡ some n)) ⊎ Leads v ks n
  Leads (struct_value m fs) ks n = LeadsFields fs ks n
  Leads (slice m vs) ks n = LeadsValues 0 vs ks n
  Leads (scalar m) ks n = ⊥
  Leads (go_map m) ks n = ⊥
  Leads nil_value ks n = ⊥

  pub LeadsPairs : Pairs → List Bytes → ℕ → Type 0
  LeadsPairs no_pairs ks n = ⊥
  LeadsPairs (pair k v ps) ks n =
      ((rest : List Bytes) × (ks ≡ k ∷ rest)
        × (((rest ≡ []) × (method v ≡ some n)) ⊎ Leads v rest n))
      ⊎ LeadsPairs ps ks n

  pub LeadsFields : Fields → List Bytes → ℕ → Type 0
  LeadsFields no_fields ks n = ⊥
  LeadsFields (struct_field f v fs) ks n =
      ((f.exported ≡ true)
        × (f.anonymous ≡ false)
        × ((k : Bytes) × FieldKey f k
            × ((rest : List Bytes) × (ks ≡ k ∷ rest)
                × (((rest ≡ []) × (method v ≡ some n)) ⊎ Leads v rest n))))
      ⊎ LeadsFields fs ks n

  pub LeadsValues : ℕ → Values → List Bytes → ℕ → Type 0
  LeadsValues index no_values ks n = ⊥
  LeadsValues index (next_value v vs) ks n =
      ((rest : List Bytes) × (ks ≡ itoa index ∷ rest)
        × (((rest ≡ []) × (method v ≡ some n)) ⊎ Leads v rest n))
      ⊎ LeadsValues (suc index) vs ks n

first_part :
    (tag : Bytes)
    → (part : Bytes) × (rest : List Bytes) × (split 44 tag ≡ part ∷ rest)
      × Lacks 44 part
      × ((tag ≡ part) ⊎ ((more : Bytes) × (tag ≡ part ++ 44 ∷ more)))
unfolding split
first_part [] = ([], [], refl, tt, inl refl)
first_part (c ∷ s) = elim (Bool-cases (eqb c 44)) [
  | inl e ↦ ([], split 44 s, rw e refl, tt, inr (s, ap (λ d. d ∷ s) (ground (arith, e))))
  | inr e ↦
      let (part, rest, f, lacks, how) = first_part s in
      (
        c ∷ part,
        rest,
        rw (e, f) refl,
        (λ g. ground (arith, e, g), lacks),
        elim how [ inl g ↦ inl (ap (λ t. c ∷ t) g) | inr g ↦ inr (g.0, ap (λ t. c ∷ t) g.1) ],
      )
]

abbrev name_in : List Bytes → Bytes
name_in parts = elim parts [ [] ↦ [] | part ∷ more ↦ if part == codes "-" then [] else part ]

tag_name : (tag : Bytes) → TagKey tag (name_in (split 44 tag))
tag_name tag =
    let (part, rest, e, lacks, how) = first_part tag in
    (
      part,
      lacks,
      how,
      subst
          (λ parts.
            ((part ≡ codes "-") × (name_in parts ≡ []))
            ⊎ ((part ≢ codes "-") × (name_in parts ≡ part)))
          (sym e)
          (elim (Bool-cases (part == codes "-")) [
            | inl g ↦ inl ((bytes_eq.same_iff part (codes "-")).0 g, rw g refl)
            | inr g ↦ inr (ne_of_false part (codes "-") g, rw g refl)
          ]),
    )

key_of :
    (f : StructField) (o : Option Bytes)
    → f.json_tag ≡ o
    → FieldKey f (elim o [ none ↦ f.name | some tag ↦ name_in (split 44 tag) ])
key_of f none e = inl (e, refl)
key_of f (some tag) e = inr (tag, e, tag_name tag)

pub get_field_json_name-FieldKey : (f : StructField) → FieldKey f (get_field_json_name f)
unfolding get_field_json_name
get_field_json_name-FieldKey f = key_of f f.json_tag refl
