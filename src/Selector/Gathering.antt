-- ===== src/Selector/Gathering.antt =====
-- What GatherArtifacts of internal/selector/selector.go returns.
use mathlib.Core.Path.{subst}
use go_asyncapi.Common.{
  ℕ, ◌≡◌, ◌↔◌, refl, true, false, List, [], ◌∷◌, ◌++◌, bytes_eq, arith, Has, eqb, Bool-cases, inl,
  inr, ◌⊎◌, sym,
}
use go_asyncapi.Selector.{
  Artifact, contains_object, deref_selectable, deref_documents, uniq, gather_artifacts,
}

contains_object-Has : (ms : List ℕ) (n : ℕ) → (contains_object ms n ≡ true) ↔ Has n ms
contains_object-Has [] n = (λ h. cc, λ h. absurd h)
contains_object-Has (m ∷ ms) n =
    let ih = contains_object-Has ms n in
    elim (Bool-cases (eqb m n)) [
      | inl e ↦ (λ h. inl (ground arith), λ h. rw e refl)
      | inr e ↦ (
        λ h. inr (ih.0 (rw e at h)),
        λ h. rw e (ih.1 (elim h [ inl f ↦ absurd (ground arith) | inr k ↦ k ])),
      )
    ]

-- No object of the list was seen before, and none comes twice.
abbrev pub AllNew : List ℕ → List ℕ → Type 0
AllNew seen [] = Unit
AllNew seen (n ∷ ns) = (contains_object seen n ≡ false) × AllNew (n ∷ seen) ns

uniq-old :
    (seen : List ℕ) (n : ℕ) (ns : List ℕ)
    → contains_object seen n ≡ true
    → uniq seen (n ∷ ns) ≡ uniq seen ns
uniq-old seen n ns e = rw (e, uniq)

uniq-new :
    (seen : List ℕ) (n : ℕ) (ns : List ℕ)
    → contains_object seen n ≡ false
    → uniq seen (n ∷ ns) ≡ n ∷ uniq (n ∷ seen) ns
uniq-new seen n ns e = rw (e, uniq)

uniq-AllNew : (seen ns : List ℕ) → AllNew seen (uniq seen ns)
uniq-AllNew seen [] = tt
uniq-AllNew seen (n ∷ ns) = elim (Bool-cases (contains_object seen n)) [
  | inl e ↦ subst (AllNew seen) (sym (uniq-old seen n ns e)) (uniq-AllNew seen ns)
  | inr e ↦ subst (AllNew seen) (sym (uniq-new seen n ns e)) (e, uniq-AllNew (n ∷ seen) ns)
]

Has-uniq : (seen ns : List ℕ) (n : ℕ) → Has n (uniq seen ns) → Has n ns
Has-uniq seen [] n h = h
Has-uniq seen (m ∷ ns) n h = elim (Bool-cases (contains_object seen m)) [
  | inl e ↦ inr (Has-uniq seen ns n (subst (Has n) (uniq-old seen m ns e) h))
  | inr e ↦
      let h' : Has n (m ∷ uniq (m ∷ seen) ns) = subst (Has n) (uniq-new seen m ns e) h in
      elim h' [ inl f ↦ inl f | inr k ↦ inr (Has-uniq (m ∷ seen) ns n k) ]
]

uniq-Has :
    (seen ns : List ℕ) (n : ℕ) → contains_object seen n ≡ false → Has n ns → Has n (uniq seen ns)
uniq-Has seen [] n h k = k
uniq-Has seen (m ∷ ns) n h (inl f) =
    let e : contains_object seen m ≡ false = rw f h in
    subst (Has n) (sym (uniq-new seen m ns e)) (inl f)
uniq-Has seen (m ∷ ns) n h (inr k) = elim (Bool-cases (contains_object seen m)) [
  | inl e ↦ subst (Has n) (sym (uniq-old seen m ns e)) (uniq-Has seen ns n h k)
  | inr e ↦ subst (Has n) (sym (uniq-new seen m ns e)) (elim (Bool-cases (eqb m n)) [
    | inl same ↦ inl (ground arith)
    | inr other ↦ inr (uniq-Has (m ∷ seen) ns n (rw (other, h) refl) k)
  ])
]

-- The selectable artifacts of a document, and whether an object is what one of them refers to.
abbrev pub Selects : ℕ → List Artifact → Type 0
Selects n [] = ⊥
Selects n (a ∷ more) = ((a.selectable ≡ true) × (a.target ≡ n)) ⊎ Selects n more

deref-Selects : (n : ℕ) (d : List Artifact) → Has n (deref_selectable d) ↔ Selects n d
deref-Selects n [] = (λ h. h, λ h. h)
deref-Selects n (a ∷ more) =
    let ih = deref-Selects n more in
    elim (Bool-cases a.selectable) [
      | inl e ↦ (
        λ h. elim (rw e at h) [ inl f ↦ inl (e, f) | inr k ↦ inr (ih.0 k) ],
        λ h. rw e (elim h [ inl f ↦ inl f.1 | inr k ↦ inr (ih.1 k) ]),
      )
      | inr e ↦
          (λ h. inr (ih.0 (rw e at h)), λ h. rw e (elim h [ inl f ↦ cc (f.0, e) | inr k ↦ ih.1 k ]))
    ]

abbrev pub SelectedIn : ℕ → List (List Artifact) → Type 0
SelectedIn n [] = ⊥
SelectedIn n (d ∷ ds) = Selects n d ⊎ SelectedIn n ds

Has-append : (n : ℕ) (xs ys : List ℕ) → Has n (xs ++ ys) ↔ (Has n xs ⊎ Has n ys)
Has-append n [] ys = (λ h. inr h, λ h. elim h [ inl k ↦ absurd k | inr k ↦ k ])
Has-append n (x ∷ xs) ys =
    let ih = Has-append n xs ys in
    (
      λ h. elim h [
        | inl e ↦ inl (inl e)
        | inr k ↦ elim (ih.0 k) [ inl j ↦ inl (inr j) | inr j ↦ inr j ]
      ],
      λ h. elim h [
        | inl (inl e) ↦ inl e
        | inl (inr k) ↦ inr (ih.1 (inl k))
        | inr k ↦ inr (ih.1 (inr k))
      ],
    )

documents-SelectedIn :
    (n : ℕ) (docs : List (List Artifact)) → Has n (deref_documents docs) ↔ SelectedIn n docs
documents-SelectedIn n [] = (λ h. h, λ h. h)
documents-SelectedIn n (d ∷ ds) =
    let ih = documents-SelectedIn n ds in
    let one = deref-Selects n d in
    let both = Has-append n (deref_selectable d) (deref_documents ds) in
    (
      λ h. elim (both.0 h) [ inl k ↦ inl (one.0 k) | inr k ↦ inr (ih.0 k) ],
      λ h. both.1 (elim h [ inl k ↦ inl (one.1 k) | inr k ↦ inr (ih.1 k) ]),
    )

-- GatherArtifacts returns no object twice, and exactly the objects that a selectable artifact of some
-- document is or refers to.
pub gather_artifacts_exact :
    (docs : List (List Artifact))
    → AllNew [] (gather_artifacts docs)
      × ((n : ℕ) → Has n (gather_artifacts docs) ↔ SelectedIn n docs)
unfolding gather_artifacts
gather_artifacts_exact docs = (
  uniq-AllNew [] (deref_documents docs),
  λ n.
      let all = documents-SelectedIn n docs in
      (
        λ h. all.0 (Has-uniq [] (deref_documents docs) n h),
        λ h. uniq-Has [] (deref_documents docs) n refl (all.1 h),
      ),
)
