-- ===== src/Examples/Selecting.antt =====
-- The selector of internal/selector and the namespace of internal/tmpl/manager at concrete values.
use go_asyncapi.Common.{
  ℕ, ◌≡◌, ◌↔◌, refl, Bool, true, false, Option, none, some, List, [], ◌∷◌, Bytes, codes, Has, ◌==◌,
  bytes_eq, nat_eq, if◌then◌else◌, eqb,
}
use go_asyncapi.Selector.{Artifact, CodeLayoutItemOpts, apply_filters, gather_artifacts}
use go_asyncapi.Selector.Filters.{Filtered, apply_filters-Filtered}
use go_asyncapi.Selector.Gathering.{AllNew, SelectedIn, gather_artifacts_exact}
use go_asyncapi.Namespace.{
  NamespaceArtifactItem, NamespaceManager, declare_artifact, find_artifact, declared,
  find_artifact-declare_artifact,
}

abbrev schema_of : ℕ → Artifact
schema_of n = record {
  object = n;
  target = n;
  selectable = true;
  kind_name = codes "schema";
  name = codes "A";
  location = codes "d.yaml";
  pointer = codes "/a";
  protocols = none;
}

-- schemas, or with `not` what is no schema
abbrev rule : Bool → CodeLayoutItemOpts
rule b = record {
  layout_protocols = [];
  artifact_kinds = codes "schema" ∷ [];
  module_url_re = [];
  path_re = [];
  name_re = codes "A";
  negated = b;
  render = record {
    template = [];
    file = codes "f";
    package_name = codes "p";
    render_protocols = [];
  };
}

-- a pattern matches itself only, and one that starts with a parenthesis is invalid
abbrev compile_equal : Bytes → Option (Bytes → Bool)
compile_equal [] = some (λ s. true)
compile_equal (c ∷ re) = if eqb c 40 then none else some (λ s. (c ∷ re) == s)

apply_filters-Filtered_example :
    Filtered compile_equal
      (rule false)
      (schema_of 1 ∷ [])
      (apply_filters compile_equal (schema_of 1 ∷ []) (rule false))
apply_filters-Filtered_example =
    apply_filters-Filtered compile_equal (schema_of 1 ∷ []) (rule false) refl

abbrev documents : List (List Artifact)
documents = (schema_of 1 ∷ schema_of 2 ∷ []) ∷ (schema_of 1 ∷ []) ∷ []

gather_artifacts_exact_example :
    AllNew [] (gather_artifacts documents)
    × ((n : ℕ) → Has n (gather_artifacts documents) ↔ SelectedIn n documents)
gather_artifacts_exact_example = gather_artifacts_exact documents

abbrev declaration : Bytes → NamespaceArtifactItem
declaration f = record {
  object = 1;
  layout = rule false;
  file_name = f;
  package_name = codes "p";
  rendered = false;
}

abbrev names : NamespaceManager ℕ
names = record { artifacts = declaration (codes "a.go") ∷ []; objects = 4 ∷ [] }

find_artifact-declare_artifact_example :
    find_artifact (declare_artifact names (declaration (codes "b.go"))) 1 ≡ (
      if eqb 1 1
      then some (declared (find_artifact names 1) (declaration (codes "b.go")))
      else find_artifact names 1)
find_artifact-declare_artifact_example =
    find_artifact-declare_artifact names (declaration (codes "b.go")) 1
