-- ===== src/Locator.antt =====
-- internal/locator: how a reference is joined to the document that holds it (`join_base`,
-- default.go) and how a locator command is split into arguments (subprocess.go). Reading files,
-- HTTP and the subprocess itself are not modelled.
pub mod CommandLine
pub mod Path
pub mod Containment
use go_asyncapi.Common.{
  ℕ, ◌≡◌, Bool, true, false, Option, none, some, List, [], ◌∷◌, ◌++◌, Bytes, codes, if◌then◌else◌,
  ◌==◌, bytes_eq, ◌>>=◌,
}
use go_asyncapi.Jsonpointer.{Url, UrlPackage, JsonPointer}
use go_asyncapi.Locator.Path.{path_clean, path_join, path_dir, path_is_abs}

-- Where both are file system paths and the reference is relative.
unfoldable pub join_paths : Bytes → Bytes → Bytes → Bytes
join_paths root base target =
    if root == []
    then path_join (path_dir base ∷ target ∷ [])
    else path_join (root ∷ path_clean (path_join (codes "/" ∷ target ∷ [])) ∷ [])

module _ (net : UrlPackage) (resolve_reference : Url → Url → Url) where
  abbrev pub join_local : Bytes → Bytes → JsonPointer → JsonPointer
  join_local root base ref =
      if path_is_abs ref.fs_path
      then ref
      else record { uri = none; fs_path = join_paths root base ref.fs_path; pointer = ref.pointer }

  -- `none` is the error of url.Parse.
  unfoldable pub join_base : Bytes → JsonPointer → JsonPointer → Option JsonPointer
  join_base root base ref = elim base.uri [
    | some b ↦ elim ref.uri [
      | some r ↦
          some (record { uri = some (resolve_reference b r); fs_path = []; pointer = ref.pointer })
      | none ↦ do
        r ← net.url_parse ref.fs_path
        some (record { uri = some (resolve_reference b r); fs_path = []; pointer = ref.pointer })
    ]
    | none ↦ elim ref.uri [ some r ↦ some ref | none ↦ some (join_local root base.fs_path ref) ]
  ]

  -- Default.ResolveURL and Subprocess.ResolveURL
  unfoldable pub resolve_url : Bytes → JsonPointer → JsonPointer → Option JsonPointer
  unfolding join_base
  resolve_url root base target = join_base root base target
