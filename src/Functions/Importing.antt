-- ===== src/Functions/Importing.antt =====
-- How the templates import packages, artifacts and the extra code of a protocol, and give names
-- (internal/tmpl/functions.go). An artifact is its number; what the code asks of it is `Artifacts`.
use go_asyncapi.Common.{
  ℕ, Bool, true, false, not, ◌&&◌, ◌||◌, Option, none, some, List, [], ◌∷◌, Bytes, ◌==◌, bytes_eq,
  if◌then◌else◌, ltb, eqb, EqType, ◌>>=◌, map,
}
use go_asyncapi.Common.Strings.{split}
use go_asyncapi.Names.{CasePackage, to_golang_name}
use go_asyncapi.Locator.Path.{path_join, path_dir, slash}
use go_asyncapi.Imports.{add_import, last_part}
use go_asyncapi.Namespace.{NamespaceArtifactItem, find_artifact, contains_object, add_object}
use go_asyncapi.RenderManager.{FileRenderState, RenderManager, write_imports, write_namespace}
use go_asyncapi.Functions.{is_exported}

abbrev pub without_last : List Bytes → List Bytes
without_last [] = []
without_last (p ∷ []) = []
without_last (p ∷ q ∷ ps) = p ∷ without_last (q ∷ ps)

abbrev pub head_part : List Bytes → Bytes
head_part [] = []
head_part (p ∷ ps) = p

abbrev pub tail_parts : List Bytes → List Bytes
tail_parts [] = []
tail_parts (p ∷ ps) = ps

-- The first part, the middle and the last part; `none` is the panic on no parts.
unfoldable pub get_import_path : List Bytes → Bool → Option (Bytes × Bytes × Bytes)
get_import_path [] cut = none
get_import_path (p ∷ ps) cut =
    let parts = split slash (path_join (p ∷ ps)) in
    let rest = (if cut then tail_parts parts else parts) in
    some (head_part parts, path_join (if cut then without_last rest else rest), last_part rest)

-- strings.Compare(a, b) <= 0
abbrev pub not_after : Bytes → Bytes → Bool
not_after [] b = true
not_after (c ∷ a) [] = false
not_after (c ∷ a) (d ∷ b) = ltb c d || (eqb c d && not_after a b)

abbrev pub insert_by_name : FileRenderState → List FileRenderState → List FileRenderState
insert_by_name s [] = s ∷ []
insert_by_name s (t ∷ ts) =
    let later = insert_by_name s ts in
    if not_after s.file_name t.file_name then s ∷ t ∷ ts else t ∷ later

abbrev pub sort_by_name : List FileRenderState → List FileRenderState
sort_by_name [] = []
sort_by_name (s ∷ ss) = insert_by_name s (sort_by_name ss)

abbrev pub find_state : (FileRenderState → Bool) → List FileRenderState → Option FileRenderState
find_state p [] = none
find_state p (s ∷ ss) = let rest = find_state p ss in if p s then some s else rest

abbrev pub is_some : Option ℕ → Bool
is_some none = false
is_some (some n) = true

abbrev pub same_bool : Bool → Bool → Bool
same_bool true b = b
same_bool false b = not b

-- What the functions return, or ErrNotPinned.
pub data Imported : Type 0 where
  imported : Bytes → Imported
  not_pinned : Imported

-- What is asked of an artifact: its name, the object behind promises and refs, and whether it can
-- be pinned to a file.
pub record Artifacts : Type 0 where
  pub name_of : ℕ → Bytes
  pub deref : ℕ → ℕ
  pub is_pinnable : ℕ → Bool

pub record RenderOpts : Type 0 where
  pub runtime_module : Bytes
  pub import_base : Bytes

-- The values that goID is called with; any other panics.
pub data IdSubject : Type 0 where
  artifact_subject : ℕ → IdSubject
  text_subject : Bytes → IdSubject

module _ (conv : CasePackage) {O : Type 0} where
  -- mng.ImportsManager.AddImport
  abbrev pub manager_import : RenderManager O → Bytes → Bytes → Bytes × RenderManager O
  manager_import mng path name =
      let r = add_import conv path name mng.imports in (r.0, write_imports mng r.1)

  unfoldable pub import_external_package :
      RenderManager O → List Bytes → Option (Bytes × RenderManager O)
  unfolding get_import_path
  import_external_package mng parts = do
    (first, path, name) ← get_import_path parts false
    some (manager_import mng path name)

  unfoldable pub import_runtime_subpackage :
      RenderOpts → RenderManager O → List Bytes → Option (Bytes × RenderManager O)
  unfolding import_external_package
  import_runtime_subpackage opts mng parts =
      import_external_package mng (opts.runtime_module ∷ parts)

  unfoldable pub get_extra_code_file_by_protocol :
      Bytes → RenderManager O → Bool → Option FileRenderState
  get_extra_code_file_by_protocol protocol mng is_implementation =
      find_state
        (λ s.
          (s.extra_code_protocol == protocol)
          && same_bool is_implementation (is_some s.implementation_config))
        (sort_by_name (map (λ e. e.1) mng.state_committed))

  unfoldable pub import_code_extra_package :
      RenderOpts → RenderManager O → List Bytes → Bool → Option (Imported × RenderManager O)
  unfolding get_import_path get_extra_code_file_by_protocol
  import_code_extra_package opts mng parts is_implementation = do
    (protocol, middle, name) ← get_import_path parts true
    some (elim (get_extra_code_file_by_protocol protocol mng is_implementation) [
      | none ↦ (not_pinned, mng)
      | some state ↦
          if (path_dir state.file_name == path_dir mng.file_name) && (name == [])
          then (imported [], mng)
          else let r =
              manager_import mng
                (path_join (opts.import_base ∷ path_dir state.file_name ∷ middle ∷ name ∷ []))
                state.package_name in
            (imported r.0, r.1)
    ])

  abbrev pub import_item :
      RenderOpts → RenderManager O → NamespaceArtifactItem → Imported × RenderManager O
  import_item opts mng d =
      if path_dir d.file_name == path_dir mng.file_name
      then (imported [], mng)
      else let r =
          manager_import mng (path_join (opts.import_base ∷ path_dir d.file_name ∷ []))
            d.package_name in
        (imported r.0, r.1)

  abbrev pub import_found :
      Artifacts
      → RenderOpts
      → RenderManager O
      → ℕ
      → Option NamespaceArtifactItem
      → Imported × RenderManager O
  import_found artifacts opts mng obj none =
      (if artifacts.is_pinnable obj then not_pinned else imported [], mng)
  import_found artifacts opts mng obj (some d) = import_item opts mng d

  unfoldable pub import_pinned_artifact :
      Artifacts → RenderOpts → RenderManager O → ℕ → Imported × RenderManager O
  import_pinned_artifact artifacts opts mng obj =
      import_found artifacts opts mng obj (find_artifact mng.namespace obj)

  unfoldable pub template_go_id : Artifacts → RenderManager O → IdSubject → Bool → Bytes
  template_go_id artifacts mng subject exported_name =
      let res : Bytes = elim subject [
        | artifact_subject v ↦ elim mng.current_object [
          | none ↦ artifacts.name_of v
          | some top ↦
              artifacts.name_of (if eqb (artifacts.deref top) (artifacts.deref v) then top else v)
        ]
        | text_subject s ↦ s
      ] in
      if res == [] then [] else to_golang_name conv res (exported_name || is_exported res)

-- The object the first time, nothing afterwards.
unfoldable pub template_once :
    {O : Type 0} ⦃e : EqType O⦄ → RenderManager O → O → Option O × RenderManager O
template_once mng o =
    if contains_object mng.namespace o
    then (none, mng)
    else (some o, write_namespace mng (add_object mng.namespace o))
