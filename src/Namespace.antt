-- ===== src/Namespace.antt =====
-- internal/tmpl/manager/namespace.go: the artifacts and objects that the templates have declared.
-- An artifact is a pointer of the program, here its number; `O` is the comparable values that a
-- template gives to `once`.
use go_asyncapi.Common.{
  ℕ, ◌≡◌, refl, Bool, true, false, ◌||◌, Option, none, some, List, [], ◌∷◌, ◌++◌, Bytes,
  if◌then◌else◌, eqb, EqType, ◌==◌, arith, eq_refl, Bool-cases, inl, inr, ==_iff, sym, ap, ◌∙◌,
}
use go_asyncapi.Selector.{CodeLayoutItemOpts}

pub record NamespaceArtifactItem : Type 0 where
  pub object : ℕ
  pub layout : CodeLayoutItemOpts
  pub file_name : Bytes
  pub package_name : Bytes
  pub rendered : Bool

pub record NamespaceManager {ℓ} (O : Type ℓ) : Type ℓ where
  pub artifacts : List NamespaceArtifactItem
  pub objects : List O

abbrev pub new_namespace {ℓ} : {O : Type ℓ} → NamespaceManager O
new_namespace = record { artifacts = []; objects = [] }

-- The loop of DeclareArtifact and the append after it. The item holds what the render manager's
-- current layout item, file and package are.
unfoldable pub declare_in :
    List NamespaceArtifactItem → NamespaceArtifactItem → List NamespaceArtifactItem
declare_in [] item = item ∷ []
declare_in (i ∷ is) item =
    let rest = declare_in is item in
    if eqb i.object item.object
    then record i { rendered = i.rendered || item.rendered } ∷ is
    else i ∷ rest

-- lo.Find over the artifacts
unfoldable pub find_in : List NamespaceArtifactItem → ℕ → Option NamespaceArtifactItem
find_in [] obj = none
find_in (i ∷ is) obj = let rest = find_in is obj in if eqb i.object obj then some i else rest

-- What a declaration leaves of the item found before it.
abbrev pub declared : Option NamespaceArtifactItem → NamespaceArtifactItem → NamespaceArtifactItem
declared none item = item
declared (some i) item = record i { rendered = i.rendered || item.rendered }

abbrev pub contains_value {ℓ} : {O : Type ℓ} ⦃e : EqType O⦄ → List O → O → Bool
contains_value [] o = false
contains_value (x ∷ xs) o = (x == o) || contains_value xs o

module _ {ℓ} {O : Type ℓ} where
  unfoldable pub declare_artifact : NamespaceManager O → NamespaceArtifactItem → NamespaceManager O
  declare_artifact s item = record s { artifacts = declare_in s.artifacts item }

  unfoldable pub find_artifact : NamespaceManager O → ℕ → Option NamespaceArtifactItem
  find_artifact s obj = find_in s.artifacts obj

module _ {ℓ} {O : Type ℓ} ⦃e : EqType O⦄ where
  unfoldable pub contains_object : NamespaceManager O → O → Bool
  contains_object s o = contains_value s.objects o

  unfoldable pub add_object : NamespaceManager O → O → NamespaceManager O
  add_object s o =
      if contains_value s.objects o then s else record s { objects = s.objects ++ o ∷ [] }

find_in-declare_in :
    (is : List NamespaceArtifactItem) (item : NamespaceArtifactItem) (obj : ℕ)
    → find_in (declare_in is item) obj
      ≡ (if eqb item.object obj then some (declared (find_in is obj) item) else find_in is obj)
unfolding find_in declare_in
find_in-declare_in [] item obj = ground arith
find_in-declare_in (i ∷ is) item obj = elim (Bool-cases (eqb i.object item.object)) [
  | inl p ↦ rw p (ground (arith, p))
  | inr p ↦ rw p (ground (arith, p, find_in-declare_in is item obj))
]

module _ {ℓ} {O : Type ℓ} where
  -- Declaring an artifact changes what is found for that artifact alone. The first declaration
  -- sets its file, package and layout item; a later one keeps them, and only marks the artifact
  -- rendered if it says so.
  pub find_artifact-declare_artifact :
      (s : NamespaceManager O) (item : NamespaceArtifactItem) (obj : ℕ)
      → find_artifact (declare_artifact s item) obj ≡ (
          if eqb item.object obj
          then some (declared (find_artifact s obj) item)
          else find_artifact s obj)
  unfolding find_artifact declare_artifact
  find_artifact-declare_artifact s item obj = find_in-declare_in s.artifacts item obj

module _ {ℓ} {O : Type ℓ} ⦃e : EqType O⦄ where
  contains_value-append :
      (xs : List O) (o p : O) → contains_value (xs ++ o ∷ []) p ≡ (contains_value xs p || (o == p))
  contains_value-append [] o p = ground arith
  contains_value-append (x ∷ xs) o p = ground (arith, contains_value-append xs o p)

  contains_value-last : (xs : List O) (o : O) → contains_value (xs ++ o ∷ []) o ≡ true
  contains_value-last xs o = ground (arith, contains_value-append xs o o, eq_refl o)

  contains_value-absorb :
      (xs : List O) (o p : O)
      → contains_value xs o ≡ true
      → contains_value xs p ≡ (contains_value xs p || (o == p))
  contains_value-absorb xs o p h = elim (Bool-cases (o == p)) [
    | inl q ↦ rw (sym (ap (contains_value xs) ((==_iff o p).0 q)) ∙ h) refl
    | inr q ↦ rw q (ground arith)
  ]

  -- After a value is added, exactly it and the values contained before are contained; adding it
  -- again changes nothing.
  pub contains_object-add_object :
      (s : NamespaceManager O) (o p : O)
      → (contains_object (add_object s o) p ≡ (contains_object s p || (o == p)))
        × (add_object (add_object s o) o ≡ add_object s o)
  unfolding contains_object add_object
  contains_object-add_object s o p = elim (Bool-cases (contains_value s.objects o)) [
    | inl h ↦ (rw h (contains_value-absorb s.objects o p h), rw (h, h) refl)
    | inr h ↦ (
      rw h (contains_value-append s.objects o p),
      rw h (rw (contains_value-last s.objects o) refl),
    )
  ]
