-- ===== src/Functions/Pinned.antt =====
-- Importing a pinned artifact again (importPinnedArtifact of internal/tmpl/functions.go).
use go_asyncapi.Common.{
  ℕ, ◌≡◌, ◌∙◌, refl, sym, ap, false, Option, none, some, [], ◌∷◌, ◌==◌, bytes_eq, Bool-cases,
  if_keeps, Option-cases, inl, inr,
}
use go_asyncapi.Names.{CasePackage}
use go_asyncapi.Locator.Path.{path_join, path_dir}
use go_asyncapi.Imports.{add_import}
use go_asyncapi.Imports.Stable.{add_import-stable}
use go_asyncapi.Namespace.{NamespaceArtifactItem, find_artifact}
use go_asyncapi.RenderManager.{RenderManager, Imports, write_imports}
use go_asyncapi.Functions.Importing.{
  Artifacts, RenderOpts, Imported, imported, import_item, import_found, import_pinned_artifact,
}

module _ (conv : CasePackage) {O : Type 0} where
  write_imports-imports :
      (mng : RenderManager O) (is : Imports) → (write_imports mng is).imports ≡ is
  unfolding write_imports
  write_imports-imports mng is = elim (Option-cases mng.imports_shared) [
    | inl e ↦ rw (e, write_imports) refl
    | inr (f, e) ↦ rw (e, write_imports) refl
  ]

  write_imports-file_name :
      (mng : RenderManager O) (is : Imports)
      → ((write_imports mng is).file_name ≡ mng.file_name)
        × ((write_imports mng is).namespace ≡ mng.namespace)
  unfolding write_imports
  write_imports-file_name mng is = elim (Option-cases mng.imports_shared) [
    | inl e ↦ rw (e, write_imports) (refl, refl)
    | inr (f, e) ↦ rw (e, write_imports) (refl, refl)
  ]

  import_item-stable :
      (opts : RenderOpts) (mng : RenderManager O) (d : NamespaceArtifactItem)
      → ((import_item conv opts (import_item conv opts mng d).1 d).0
          ≡ (import_item conv opts mng d).0)
        × ((import_item conv opts (import_item conv opts mng d).1 d).1.imports
            ≡ (import_item conv opts mng d).1.imports)
  import_item-stable opts mng d =
      elim (Bool-cases (path_dir d.file_name == path_dir mng.file_name)) [
        | inl e ↦ rw (e, e) (refl, refl)
        | inr e ↦
            let path = path_join (opts.import_base ∷ path_dir d.file_name ∷ []) in
            let is = (add_import conv path d.package_name mng.imports).1 in
            let stays : (path_dir d.file_name == path_dir (write_imports mng is).file_name)
                ≡ false =
              rw (write_imports-file_name mng is).0 e in
            let again = (add_import-stable conv path d.package_name [] mng.imports).0 in
            let mng1 = write_imports mng is in
            let same = write_imports-imports mng is in
            rw (e, stays)
              (
                ap (λ m. imported (add_import conv path d.package_name m).0) same
                    ∙ ap (λ r. imported r.0) again,
                write_imports-imports mng1 (add_import conv path d.package_name mng1.imports).1
                    ∙ ap (λ m. (add_import conv path d.package_name m).1) same
                    ∙ ap (λ r. r.1) again
                    ∙ sym same,
              )
      ]

  import_found-namespace :
      (artifacts : Artifacts) (opts : RenderOpts) (mng : RenderManager O) (obj : ℕ)
      (found : Option NamespaceArtifactItem)
      → (import_found conv artifacts opts mng obj found).1.namespace ≡ mng.namespace
  import_found-namespace artifacts opts mng obj none = refl
  import_found-namespace artifacts opts mng obj (some d) =
      if_keeps (λ (r : Imported × RenderManager O). r.1.namespace ≡ mng.namespace)
        (path_dir d.file_name == path_dir mng.file_name) refl (write_imports-file_name mng _).1

  import_found-stable :
      (artifacts : Artifacts) (opts : RenderOpts) (mng : RenderManager O) (obj : ℕ)
      (found : Option NamespaceArtifactItem)
      → ((import_found conv artifacts opts
            (import_found conv artifacts opts mng obj found).1
            obj
            found).0
          ≡ (import_found conv artifacts opts mng obj found).0)
        × ((import_found conv artifacts opts
              (import_found conv artifacts opts mng obj found).1
              obj
              found).1.imports
            ≡ (import_found conv artifacts opts mng obj found).1.imports)
  import_found-stable artifacts opts mng obj none = (refl, refl)
  import_found-stable artifacts opts mng obj (some d) = import_item-stable opts mng d

  -- Importing an artifact a second time gives the same name, or again that it is not pinned, and
  -- adds nothing to the imports of the file.
  pub import_pinned_artifact-stable :
      (artifacts : Artifacts) (opts : RenderOpts) (mng : RenderManager O) (obj : ℕ)
      → ((import_pinned_artifact conv artifacts opts
            (import_pinned_artifact conv artifacts opts mng obj).1
            obj).0
          ≡ (import_pinned_artifact conv artifacts opts mng obj).0)
        × ((import_pinned_artifact conv artifacts opts
              (import_pinned_artifact conv artifacts opts mng obj).1
              obj).1.imports
            ≡ (import_pinned_artifact conv artifacts opts mng obj).1.imports)
  unfolding import_pinned_artifact
  import_pinned_artifact-stable artifacts opts mng obj =
      let found = find_artifact mng.namespace obj in
      let r = import_found conv artifacts opts mng obj found in
      let again : find_artifact r.1.namespace obj ≡ found =
        ap (λ n. find_artifact n obj) (import_found-namespace artifacts opts mng obj found) in
      let (name, imports) = import_found-stable artifacts opts mng obj found in
      (
        ap (λ o. (import_found conv artifacts opts r.1 obj o).0) again ∙ name,
        ap (λ o. (import_found conv artifacts opts r.1 obj o).1.imports) again ∙ imports,
      )
