-- ===== src/Imports/Stable.antt =====
-- AddImport of internal/tmpl/manager/import.go keeps what it has given out, and where it does not
-- keep names apart.
use go_asyncapi.Common.{
  ◌≡◌, ◌≢◌, ◌∙◌, refl, true, false, not, ◌&&◌, some, [], Bytes, ◌==◌, bytes_eq, if◌then◌else◌, inl,
  inr, Bool-cases, eq_refl, false_of_ne,
}
use go_asyncapi.Common.GoMap.{lookup, has, insert, lookup-insert, has-insert}
use go_asyncapi.Names.{CasePackage}
use go_asyncapi.RenderManager.{Imports}
use go_asyncapi.Imports.{add_import, given_name, new_item, alias_or}

module _ (conv : CasePackage) where
  after_add-has :
      (path name : Bytes) (items : Imports)
      → has path
          (if has path items then items else insert path (new_item conv path name items) items)
        ≡ true
  after_add-has path name items = elim (Bool-cases (has path items)) [
    | inl e ↦ rw e e
    | inr e ↦
        rw e (has-insert path path (new_item conv path name items) items ∙ rw (eq_refl path) refl)
  ]

  pub add_import-new :
      (path given : Bytes) (items : Imports)
      → given ≢ []
      → has path items ≡ false
      → add_import conv path given items ≡ (
        alias_or given (some (new_item conv path given items)),
        insert path (new_item conv path given items) items,
      )
  unfolding add_import given_name
  add_import-new path given items h e =
      rw
        (
          false_of_ne given [] h,
          e,
          lookup-insert path path (new_item conv path given items) items,
          eq_refl path,
        )
        refl

  -- Adding an import a second time changes nothing and gives the same name; and adding one changes
  -- the item of its own path only, and that only if there was none: a name given out stays.
  pub add_import-stable :
      (path given other : Bytes) (items : Imports)
      → (add_import conv path given (add_import conv path given items).1
          ≡ add_import conv path given items)
        × (lookup other (add_import conv path given items).1 ≡ (
            if not (has path items) && (path == other)
            then some (new_item conv path (given_name conv path given) items)
            else lookup other items))
  unfolding add_import given_name
  add_import-stable path given other items = (
    rw (after_add-has path (given_name conv path given) items) refl,
    elim (Bool-cases (has path items)) [
      | inl e ↦ rw e refl
      | inr e ↦
          rw e
            (lookup-insert path other (new_item conv path (given_name conv path given) items) items)
    ],
  )
