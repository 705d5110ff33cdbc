-- ===== src/Selector/Filters.antt =====
-- What the layout rules of internal/selector/selector.go select.
use mathlib.Core.Option.{none-ne-some, some-injective}
use mathlib.Core.Path.{subst}
use go_asyncapi.Common.{
  ℕ, ◌≡◌, ◌↔◌, refl, Bool, true, false, ◌&&◌, List, [], ◌∷◌, ◌++◌, Bytes, keep, bytes_eq, arith,
  Has, ◌==◌, ne_of_false, Option, none, some, ◌>>=◌, if◌then◌else◌, Bool-cases, inl, inr, ◌⊎◌, ◌∙◌,
  sym,
}
use go_asyncapi.Selector.{
  Artifact, CodeLayoutItemOpts, contains, contains_some, pattern_filter, is_empty,
  build_filters_chain, run_chain, apply_filters, protocol_filter,
}

contains-Has : (xs : List Bytes) (b : Bytes) → (contains xs b ≡ true) ↔ Has b xs
contains-Has [] b = (λ h. cc, λ h. absurd h)
contains-Has (x ∷ xs) b =
    let ih = contains-Has xs b in
    elim (Bool-cases (x == b)) [
      | inl e ↦ (λ h. inl ((bytes_eq.same_iff x b).0 e), λ h. rw e refl)
      | inr e ↦ (
        λ h. inr (ih.0 (rw e at h)),
        λ h. rw e (ih.1 (elim h [ inl f ↦ absurd (ne_of_false x b e f) | inr k ↦ k ])),
      )
    ]

-- Two lists have a member in common.
abbrev pub Share : List Bytes → List Bytes → Type 0
Share xs ys = (b : Bytes) × Has b xs × Has b ys

contains_some-Share : (xs ys : List Bytes) → (contains_some xs ys ≡ true) ↔ Share xs ys
contains_some-Share xs [] = (λ h. cc, λ h. absurd h.2)
contains_some-Share xs (y ∷ ys) =
    let ih = contains_some-Share xs ys in
    let one = contains-Has xs y in
    elim (Bool-cases (contains xs y)) [
      | inl e ↦ (λ h. (y, one.0 e, inl refl), λ h. rw e refl)
      | inr e ↦ (
        λ h. let (b, p, q) = ih.0 (rw e at h) in (b, p, inr q),
        λ h. rw e (
            ih.1 (elim h.2 [
              | inl f ↦ absurd (cc (e, one.1 (subst (λ b. Has b xs) (sym f) h.1)))
              | inr q ↦ (h.0, h.1, q)
            ])),
      )
    ]

-- The items of a list with a property, in their order.
abbrev pub Selection : {A : Type 0} → (A → Type 0) → List A → List A → Type 0
Selection P [] ys = ys ≡ []
Selection P (x ∷ xs) ys =
    (P x × ((rest : List _) × (ys ≡ x ∷ rest) × Selection P xs rest))
    ⊎ ((P x → ⊥) × Selection P xs ys)

keep-Selection :
    {A : Type 0} (p : A → Bool) (P : A → Type 0)
    → ((a : A) → (p a ≡ true) ↔ P a)
    → (xs : List A) → Selection P xs (keep p xs)
keep-Selection p P h [] = refl
keep-Selection p P h (x ∷ xs) = elim (Bool-cases (p x)) [
  | inl e ↦ rw e (inl ((h x).0 e, (keep p xs, refl, keep-Selection p P h xs)))
  | inr e ↦ rw e (inr (λ q. cc (e, (h x).1 q), keep-Selection p P h xs))
]

all_of : Artifact → List (Artifact → Bool) → Bool
all_of a [] = true
all_of a (f ∷ fs) = f a && all_of a fs

all_of-append :
    (a : Artifact) (fs gs : List (Artifact → Bool))
    → all_of a (fs ++ gs) ≡ (all_of a fs && all_of a gs)
unfolding all_of
all_of-append a [] gs = refl
all_of-append a (f ∷ fs) gs = ground (arith, all_of-append a fs gs)

both_true : (x y : Bool) → ((x && y) ≡ true) ↔ ((x ≡ true) × (y ≡ true))
both_true true y = (λ h. (refl, h), λ h. h.1)
both_true false y = (λ h. cc, λ h. cc (h.0))

both_of :
    {P Q : Type 0} (a : Artifact) (fs gs : List (Artifact → Bool))
    → ((all_of a fs ≡ true) ↔ P)
    → ((all_of a gs ≡ true) ↔ Q)
    → (all_of a (fs ++ gs) ≡ true) ↔ (P × Q)
both_of a fs gs f g =
    let both = both_true (all_of a fs) (all_of a gs) in
    (
      λ h. let (x, y) = both.0 (sym (all_of-append a fs gs) ∙ h) in (f.0 x, g.0 y),
      λ h. all_of-append a fs gs ∙ both.1 (f.1 h.0, g.1 h.1),
    )

single : (a : Artifact) (f : Artifact → Bool) → all_of a (f ∷ []) ≡ f a
unfolding all_of
single a f = ground arith

none_of : (a : Artifact) → all_of a [] ≡ true
unfolding all_of
none_of a = refl

run_chain-plain : (a : Artifact) (fs : List (Artifact → Bool)) → run_chain false a fs ≡ all_of a fs
unfolding run_chain all_of
run_chain-plain a [] = refl
run_chain-plain a (f ∷ fs) = ground (arith, run_chain-plain a fs)

run_chain-negated : (a : Artifact) (fs : List (Artifact → Bool)) → run_chain true a fs ≡ false
unfolding run_chain
run_chain-negated a [] = refl
run_chain-negated a (f ∷ fs) = ground (arith, run_chain-negated a fs)

-- A setting that is a list: it is empty, or the artifact has one of its values.
abbrev pub InProtocols : List Bytes → Option (List Bytes) → Type 0
InProtocols xs protocols = (xs ≡ []) ⊎ ((ps : List Bytes) × (protocols ≡ some ps) × Share xs ps)

abbrev pub InKinds : List Bytes → Bytes → Type 0
InKinds xs kind_name = (xs ≡ []) ⊎ Has kind_name xs

abbrev shares : List Bytes → Option (List Bytes) → Bool
shares xs o = elim o [ some ps ↦ contains_some xs ps | none ↦ false ]

shares-Share :
    (xs : List Bytes) (o : Option (List Bytes))
    → (shares xs o ≡ true) ↔ ((ps : List Bytes) × (o ≡ some ps) × Share xs ps)
shares-Share xs none = (λ h. cc, λ h. absurd (none-ne-some h.0 h.1))
shares-Share xs (some ps) =
    let both = contains_some-Share xs ps in
    (
      λ h. (ps, refl, both.0 h),
      λ (qs, e, h). both.1 (subst (Share xs) (sym (some-injective ps qs e)) h),
    )

-- The filter of the protocols and that of the kinds.
protocols_filter :
    (l : CodeLayoutItemOpts) (a : Artifact) (xs : List Bytes)
    → l.layout_protocols ≡ xs
    → (all_of a (if is_empty xs then [] else protocol_filter l ∷ []) ≡ true)
      ↔ InProtocols xs a.protocols
protocols_filter l a [] e = (λ h. inl refl, λ h. none_of a)
protocols_filter l a (x ∷ xs) e =
    let both = shares-Share l.layout_protocols a.protocols in
    let one = single a (protocol_filter l) in
    (
      λ h. inr (
          subst (λ ys. (ps : List Bytes) × (a.protocols ≡ some ps) × Share ys ps) e
            (both.0 (sym one ∙ h))),
      λ h. elim h [
        | inl f ↦ cc f
        | inr q ↦
            one
            ∙ both.1
                (subst (λ ys. (ps : List Bytes) × (a.protocols ≡ some ps) × Share ys ps) (sym e) q)
      ],
    )

kinds_filter :
    (kinds : List Bytes) (a : Artifact)
    → (all_of a (if is_empty kinds then [] else (λ b. contains kinds b.kind_name) ∷ []) ≡ true)
      ↔ InKinds kinds a.kind_name
kinds_filter [] a = (λ h. inl refl, λ h. none_of a)
kinds_filter (x ∷ xs) a =
    let both = contains-Has (x ∷ xs) a.kind_name in
    let one = single a (λ b. contains (x ∷ xs) b.kind_name) in
    (λ h. inr (both.0 (sym one ∙ h)), λ h. elim h [ inl f ↦ cc f | inr q ↦ one ∙ both.1 q ])

module _ (compile : Bytes → Option (Bytes → Bool)) where
  -- A pattern that is empty or valid, and a text that it matches if it is not empty.
  abbrev pub IsPattern : Bytes → Type 0
  IsPattern [] = Unit
  IsPattern (c ∷ re) = (m : Bytes → Bool) × (compile (c ∷ re) ≡ some m)

  abbrev pub Matches : Bytes → Bytes → Type 0
  Matches [] text = Unit
  Matches (c ∷ re) text = (m : Bytes → Bool) × (compile (c ∷ re) ≡ some m) × (m text ≡ true)

  abbrev pub PatternsValid : CodeLayoutItemOpts → Type 0
  PatternsValid l = IsPattern l.module_url_re × IsPattern l.path_re × IsPattern l.name_re

  -- Each setting of the rule that is not empty holds of the artifact.
  abbrev pub Satisfies : CodeLayoutItemOpts → Artifact → Type 0
  Satisfies l a =
      InProtocols l.layout_protocols a.protocols
      × (InKinds l.artifact_kinds a.kind_name
          × (Matches l.module_url_re a.location
              × (Matches l.path_re a.pointer × Matches l.name_re a.name)))

  abbrev PatternFilter : Bytes → (Artifact → Bytes) → Option (List (Artifact → Bool)) → Type 0
  PatternFilter re text none = IsPattern re → ⊥
  PatternFilter re text (some fs) =
      IsPattern re × ((a : Artifact) → (all_of a fs ≡ true) ↔ Matches re (text a))

  compiled-PatternFilter :
      (c : ℕ) (re : Bytes) (text : Artifact → Bytes) (o : Option (Bytes → Bool))
      → compile (c ∷ re) ≡ o
      → PatternFilter (c ∷ re) text (do m ← o; some ((λ a. m (text a)) ∷ []))
  compiled-PatternFilter c re text none e = λ h. none-ne-some h.0 (sym e ∙ h.1)
  compiled-PatternFilter c re text (some m) e = (
    (m, e),
    λ a. (
      λ h. (m, e, sym (single a (λ b. m (text b))) ∙ h),
      λ (m1, e1, h).
          single a (λ b. m (text b))
          ∙ subst (λ f. f (text a) ≡ true) (some-injective m1 m (sym e1 ∙ e)) h,
    ),
  )

  pattern_filter-PatternFilter :
      (re : Bytes) (text : Artifact → Bytes)
      → PatternFilter re text (pattern_filter compile re text)
  pattern_filter-PatternFilter [] text = (tt, λ a. (λ h. tt, λ h. none_of a))
  pattern_filter-PatternFilter (c ∷ re) text =
      compiled-PatternFilter c re text (compile (c ∷ re)) refl

  abbrev ChainFor : CodeLayoutItemOpts → Option (List (Artifact → Bool)) → Type 0
  ChainFor l none = PatternsValid l → ⊥
  ChainFor l (some fs) = PatternsValid l × ((a : Artifact) → (all_of a fs ≡ true) ↔ Satisfies l a)

  joined-ChainFor :
      (l : CodeLayoutItemOpts) (us ps ns : Option (List (Artifact → Bool)))
      → PatternFilter l.module_url_re (λ a. a.location) us
      → PatternFilter l.path_re (λ a. a.pointer) ps
      → PatternFilter l.name_re (λ a. a.name) ns
      → ChainFor l (do
        urls ← us
        paths ← ps
        names ← ns
        some (
            (if is_empty l.layout_protocols then [] else protocol_filter l ∷ [])
            ++ ((if is_empty l.artifact_kinds
                  then []
                  else (λ a. contains l.artifact_kinds a.kind_name) ∷ [])
                ++ (urls ++ (paths ++ names)))))
  joined-ChainFor l none ps ns u p n = λ h. u h.0
  joined-ChainFor l (some us) none ns u p n = λ h. p h.1
  joined-ChainFor l (some us) (some ps) none u p n = λ h. n h.2
  joined-ChainFor l (some us) (some ps) (some ns) u p n = (
    (u.0, p.0, n.0),
    λ a. both_of a _ _ (protocols_filter l a l.layout_protocols refl) (
        both_of a _ _ (kinds_filter l.artifact_kinds a)
          (both_of a us (ps ++ ns) (u.1 a) (both_of a ps ns (p.1 a) (n.1 a)))),
  )

  build_filters_chain-ChainFor :
      (l : CodeLayoutItemOpts) → ChainFor l (build_filters_chain compile l)
  unfolding build_filters_chain
  build_filters_chain-ChainFor l =
      joined-ChainFor l (pattern_filter compile l.module_url_re (λ a. a.location))
        (pattern_filter compile l.path_re (λ a. a.pointer))
        (pattern_filter compile l.name_re (λ a. a.name))
        (pattern_filter-PatternFilter l.module_url_re (λ a. a.location))
        (pattern_filter-PatternFilter l.path_re (λ a. a.pointer))
        (pattern_filter-PatternFilter l.name_re (λ a. a.name))

  -- What a rule without `not` selects, or the panic.
  abbrev pub Filtered : CodeLayoutItemOpts → List Artifact → Option (List Artifact) → Type 0
  Filtered l artifacts none = PatternsValid l → ⊥
  Filtered l artifacts (some ys) = PatternsValid l × Selection (Satisfies l) artifacts ys

  chain-Filtered :
      (l : CodeLayoutItemOpts) (artifacts : List Artifact) (o : Option (List (Artifact → Bool)))
      → ChainFor l o
      → Filtered l artifacts (do chain ← o; some (keep (λ a. run_chain false a chain) artifacts))
  chain-Filtered l artifacts none h = h
  chain-Filtered l artifacts (some fs) (valid, h) = (
    valid,
    keep-Selection (λ a. run_chain false a fs) (Satisfies l)
        (λ a.
          (λ e. (h a).0 (sym (run_chain-plain a fs) ∙ e), λ q. run_chain-plain a fs ∙ (h a).1 q))
        artifacts,
  )

  -- With a rule that has no `not`, ApplyFilters panics exactly if one of the rule's patterns is not
  -- empty and not valid. Otherwise it returns, in their order, exactly the artifacts that satisfy each
  -- setting that is not empty: one of the artifact's protocols is among the rule's (an artifact that
  -- has no protocols does not satisfy it), its kind is among the rule's, and the location, the
  -- pointer and the name match their patterns.
  pub apply_filters-Filtered :
      (artifacts : List Artifact) (l : CodeLayoutItemOpts)
      → l.negated ≡ false
      → Filtered l artifacts (apply_filters compile artifacts l)
  unfolding apply_filters
  apply_filters-Filtered artifacts l e =
      subst
        (λ b. Filtered l artifacts (do
          chain ← build_filters_chain compile l
          some (keep (λ a. run_chain b a chain) artifacts)))
        (sym e)
        (chain-Filtered l artifacts (build_filters_chain compile l)
          (build_filters_chain-ChainFor l))

  keep-none :
      (fs : List (Artifact → Bool)) (xs : List Artifact) → keep (λ a. run_chain true a fs) xs ≡ []
  keep-none fs [] = refl
  keep-none fs (x ∷ xs) = rw (run_chain-negated x fs) (keep-none fs xs)

  negated_chain :
      (o : Option (List (Artifact → Bool))) (xs ys : List Artifact)
      → (o >>= λ chain. some (keep (λ a. run_chain true a chain) xs)) ≡ some ys
      → ys ≡ []
  negated_chain none xs ys h = absurd (none-ne-some ys h)
  negated_chain (some fs) xs ys h = sym (some-injective _ ys h) ∙ keep-none fs xs

  -- A rule with `not: true` selects nothing, whatever its settings and the artifacts: it does not
  -- invert the match.
  pub apply_filters-negated :
      (artifacts ys : List Artifact) (l : CodeLayoutItemOpts)
      → l.negated ≡ true
      → apply_filters compile artifacts l ≡ some ys
      → ys ≡ []
  unfolding apply_filters
  apply_filters-negated artifacts ys l e h =
      negated_chain (build_filters_chain compile l) artifacts ys (
        subst
          (λ b.
            (build_filters_chain compile l >>= λ chain.
            some (keep (λ a. run_chain b a chain) artifacts))
            ≡ some ys)
          e h)
