-- ===== src/Selector.antt =====
-- internal/selector/selector.go and the layout options of internal/common/opts.go: which artifacts a
-- layout rule selects. Regular expressions are Go's regexp: `compile` is regexp.Compile with MatchString of the
-- result, and `none` the error of an invalid pattern, on which regexp.MustCompile panics.
pub mod Filters
pub mod Gathering
use go_asyncapi.Common.{
  ℕ, ◌≡◌, Bool, true, false, not, ◌&&◌, ◌||◌, Option, none, some, List, [], ◌∷◌, ◌++◌, Bytes, keep,
  if◌then◌else◌, ◌==◌, bytes_eq, eqb, ◌>>=◌,
}

-- What the selector asks of an artifact. `protocols` is `none` for one with no ActiveProtocols
-- method, and `kind_name` is the string of its kind; `object` is the object's identity, and `target` what DerefArtifact makes of it.
pub record Artifact : Type 0 where
  pub object : ℕ
  pub target : ℕ
  pub selectable : Bool
  pub kind_name : Bytes
  pub name : Bytes
  pub location : Bytes
  pub pointer : Bytes
  pub protocols : Option (List Bytes)

pub record CodeLayoutItemRenderOpts : Type 0 where
  pub template : Bytes
  pub file : Bytes
  pub package_name : Bytes
  pub render_protocols : List Bytes

pub record CodeLayoutItemOpts : Type 0 where
  pub layout_protocols : List Bytes
  pub artifact_kinds : List Bytes
  pub module_url_re : Bytes
  pub path_re : Bytes
  pub name_re : Bytes
  pub negated : Bool
  pub render : CodeLayoutItemRenderOpts

abbrev pub contains : List Bytes → Bytes → Bool
contains [] b = false
contains (x ∷ xs) b = (x == b) || contains xs b

-- lo.Some(collection, subset): one of the subset is in the collection.
abbrev pub contains_some : List Bytes → List Bytes → Bool
contains_some collection [] = false
contains_some collection (x ∷ xs) = contains collection x || contains_some collection xs

abbrev pub is_empty {ℓ} : {A : Type ℓ} → List A → Bool
is_empty [] = true
is_empty (x ∷ xs) = false

unfoldable pub applied_to_protocol : CodeLayoutItemOpts → Bytes → Bool
applied_to_protocol l proto =
    if is_empty l.render.render_protocols then true else contains l.render.render_protocols proto

abbrev pub protocol_filter : CodeLayoutItemOpts → Artifact → Bool
protocol_filter l a = elim a.protocols [
  | some ps ↦ contains_some l.layout_protocols ps
  | none ↦ false
]

-- The loop over the chain, and the test of Not behind it.
unfoldable pub run_chain : Bool → Artifact → List (Artifact → Bool) → Bool
run_chain negated a [] = if negated then false else true
run_chain negated a (f ∷ fs) =
    let rest = run_chain negated a fs in if not (f a) && not negated then false else rest

module _ (compile : Bytes → Option (Bytes → Bool)) where
  -- The filter of one pattern, if it is not empty; `none` is the panic of regexp.MustCompile.
  abbrev pub pattern_filter : Bytes → (Artifact → Bytes) → Option (List (Artifact → Bool))
  pattern_filter [] text = some []
  pattern_filter (c ∷ re) text = do
    match_string ← compile (c ∷ re)
    some ((λ a. match_string (text a)) ∷ [])

  -- A filter for each setting that is not empty, in this order.
  unfoldable pub build_filters_chain : CodeLayoutItemOpts → Option (List (Artifact → Bool))
  build_filters_chain l = do
    urls ← pattern_filter l.module_url_re (λ a. a.location)
    paths ← pattern_filter l.path_re (λ a. a.pointer)
    names ← pattern_filter l.name_re (λ a. a.name)
    some (
        (if is_empty l.layout_protocols then [] else protocol_filter l ∷ [])
        ++ ((if is_empty l.artifact_kinds
              then []
              else (λ a. contains l.artifact_kinds a.kind_name) ∷ [])
            ++ (urls ++ (paths ++ names))))

  unfoldable pub apply_filters : List Artifact → CodeLayoutItemOpts → Option (List Artifact)
  unfolding run_chain build_filters_chain
  apply_filters artifacts l = do
    chain ← build_filters_chain l
    some (keep (λ a. run_chain l.negated a chain) artifacts)

-- GatherArtifacts, on the documents in the order of their URLs: the selectable artifacts of all of
-- them, dereferenced, each object once (lo.Uniq keeps the first).
abbrev pub contains_object : List ℕ → ℕ → Bool
contains_object [] n = false
contains_object (m ∷ ms) n = eqb m n || contains_object ms n

abbrev pub deref_selectable : List Artifact → List ℕ
deref_selectable [] = []
deref_selectable (a ∷ more) =
    let rest = deref_selectable more in if a.selectable then a.target ∷ rest else rest

abbrev pub deref_documents : List (List Artifact) → List ℕ
deref_documents [] = []
deref_documents (d ∷ ds) = deref_selectable d ++ deref_documents ds

-- With the objects that were seen before.
abbrev pub uniq : List ℕ → List ℕ → List ℕ
uniq seen [] = []
uniq seen (n ∷ ns) = elim (contains_object seen n) [
  | true ↦ uniq seen ns
  | false ↦ n ∷ uniq (n ∷ seen) ns
]

unfoldable pub gather_artifacts : List (List Artifact) → List ℕ
gather_artifacts docs = uniq [] (deref_documents docs)
