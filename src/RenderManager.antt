-- ===== src/RenderManager.antt =====
-- internal/tmpl/manager/manager.go: the render manager, which collects the rendered files. A
-- template works on the current file; Commit stores that work, and BeginFile drops what is not
-- stored. Two of its pointers are shared by Commit: after it, `NamespaceManager` is the committed
-- namespace and `ImportsManager` is that of the committed file, until BeginFile makes copies.
pub mod Transaction
use go_asyncapi.Common.{
  ℕ, ◌≡◌, Bool, true, false, Option, none, some, List, [], ◌∷◌, ◌++◌, Bytes, codes, if◌then◌else◌,
  ◌==◌, bytes_eq, eqb,
}
use go_asyncapi.Common.GoMap.{lookup, insert}
use go_asyncapi.Selector.{CodeLayoutItemOpts}
use go_asyncapi.Namespace.{NamespaceManager, new_namespace}
use go_asyncapi.Locator.Path.{path_dir}

-- internal/tmpl/manager/import.go
pub record ImportItem : Type 0 where
  pub alias : Bytes
  pub package_name : Bytes
  pub package_path : Bytes

-- The items of an ImportsManager, by import path.
abbrev pub Imports : Type 0
Imports = List (Bytes × ImportItem)

-- The manifest and the configuration are pointers, here their numbers.
pub record FileRenderState : Type 0 where
  pub file_name : Bytes
  pub package_name : Bytes
  pub buffer : Bytes
  pub imports : Imports
  pub extra_code_protocol : Bytes
  pub implementation_manifest : Option ℕ
  pub implementation_config : Option ℕ

pub record RenderManager (O : Type 0) : Type 0 where
  pub current_object : Option ℕ
  pub current_layout_item : Option CodeLayoutItemOpts
  pub file_name : Bytes
  pub package_name : Bytes
  pub extra_code_protocol : Bytes
  pub implementation_manifest : Option ℕ
  pub implementation_config : Option ℕ
  pub buffer : Bytes
  pub imports : Imports
  -- the file whose committed imports are the same object as `imports`
  pub imports_shared : Option Bytes
  pub namespace : NamespaceManager O
  -- whether `namespace` is the same object as `namespace_committed`
  pub namespace_shared : Bool
  pub state_committed : List (Bytes × FileRenderState)
  pub namespace_committed : NamespaceManager O

abbrev pub with_imports :
    Imports
    → Option FileRenderState
    → List (Bytes × FileRenderState)
    → Bytes
    → List (Bytes × FileRenderState)
with_imports is none states f = states
with_imports is (some state) states f = insert f (record state { imports = is }) states

-- The state that BeginFile registers for a new file. `get_package_name` is utils.GetPackageName.
abbrev pub fresh_state : (Bytes → Bytes) → Bytes → Bytes → FileRenderState
fresh_state get_package_name f p = record {
  file_name = f;
  package_name = (if p == [] then get_package_name (path_dir f) else p);
  buffer = [];
  imports = [];
  extra_code_protocol = [];
  implementation_manifest = none;
  implementation_config = none;
}

abbrev pub registered : (Bytes → Bytes) → Bytes → Bytes → Option FileRenderState → FileRenderState
registered get_package_name f p none = fresh_state get_package_name f p
registered get_package_name f p (some state) = state

abbrev pub registered_in :
    (Bytes → Bytes)
    → Bytes
    → Bytes
    → Option FileRenderState
    → List (Bytes × FileRenderState)
    → List (Bytes × FileRenderState)
registered_in get_package_name f p none states = insert f (fresh_state get_package_name f p) states
registered_in get_package_name f p (some state) states = states

module _ {O : Type 0} where
  -- NewTemplateRenderManager
  abbrev pub new_render_manager : RenderManager O
  new_render_manager = record {
    current_object = none;
    current_layout_item = none;
    file_name = [];
    package_name = [];
    extra_code_protocol = [];
    implementation_manifest = none;
    implementation_config = none;
    buffer = [];
    imports = [];
    imports_shared = none;
    namespace = new_namespace;
    namespace_shared = false;
    state_committed = [];
    namespace_committed = new_namespace;
  }

  unfoldable pub set_code_object : RenderManager O → ℕ → CodeLayoutItemOpts → RenderManager O
  set_code_object r obj item = record r {
    current_object = some obj;
    current_layout_item = some item;
  }

  -- A template changes the imports through the pointer `ImportsManager`.
  unfoldable pub write_imports : RenderManager O → Imports → RenderManager O
  write_imports r is = elim r.imports_shared [
    | none ↦ record r { imports = is }
    | some f ↦ record r {
      imports = is;
      state_committed = with_imports is (lookup f r.state_committed) r.state_committed f;
    }
  ]

  -- A template changes the namespace through the pointer `NamespaceManager`.
  unfoldable pub write_namespace : RenderManager O → NamespaceManager O → RenderManager O
  write_namespace r n =
      if r.namespace_shared
      then record r { namespace = n; namespace_committed = n }
      else record r { namespace = n }

  -- mng.Buffer.Write
  unfoldable pub write_buffer : RenderManager O → Bytes → RenderManager O
  write_buffer r b = record r { buffer = r.buffer ++ b }

  unfoldable pub begin_file : (Bytes → Bytes) → Bytes → Bytes → RenderManager O → RenderManager O
  begin_file get_package_name f p r =
      let found = lookup f r.state_committed in
      let state = registered get_package_name f p found in
      record r {
        state_committed = registered_in get_package_name f p found r.state_committed;
        file_name = state.file_name;
        imports = state.imports;
        imports_shared = none;
        package_name = state.package_name;
        extra_code_protocol = state.extra_code_protocol;
        implementation_config = state.implementation_config;
        implementation_manifest = state.implementation_manifest;
        namespace = r.namespace_committed;
        namespace_shared = false;
        buffer = [];
      }

  -- `state` in Commit: the zero value has no buffer, and reading into it panics.
  abbrev pub committed : RenderManager O → FileRenderState → FileRenderState
  committed r state = record state {
    imports = r.imports;
    buffer = state.buffer ++ r.buffer ++ 10 ∷ [];
    extra_code_protocol = r.extra_code_protocol;
    implementation_config = r.implementation_config;
    implementation_manifest = r.implementation_manifest;
  }

  abbrev pub close_file : RenderManager O → RenderManager O
  close_file r = record r {
    namespace_committed = r.namespace;
    namespace_shared = true;
    current_object = none;
    file_name = [];
  }

  -- `none` is the panic.
  unfoldable pub commit : RenderManager O → Option (RenderManager O)
  commit r =
      if r.file_name == []
      then some (close_file r)
      else elim (lookup r.file_name r.state_committed) [
        | none ↦ none
        | some state ↦ some (record (close_file r) {
          state_committed = insert r.file_name (committed r state) r.state_committed;
          imports_shared = some r.file_name;
          buffer = [];
        })
      ]
