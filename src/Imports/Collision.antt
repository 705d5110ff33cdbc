-- ===== src/Imports/Collision.antt =====
-- Aliases of AddImport (internal/tmpl/manager/import.go) that are also names of packages.
use go_asyncapi.Common.{
  ◌≡◌, ◌≢◌, ◌∙◌, ◌==◌, if◌then◌else◌, not, ap, refl, false, true, [], ◌∷◌, ◌++◌, Bytes, bytes_eq,
  eq_refl, false_of_ne,
}
use go_asyncapi.Common.GoMap.{has, lookup, insert, delete}
use go_asyncapi.Names.{CasePackage, to_golang_name}
use go_asyncapi.RenderManager.{ImportItem, Imports}
use go_asyncapi.Schema.Parts.{itoa}
use go_asyncapi.Imports.{add_import, new_item, is_identifier}
use go_asyncapi.Imports.Stable.{add_import-new}

abbrev import_of : Bytes → Bytes → Bytes → Bytes × ImportItem
import_of alias name path =
    (path, record { alias = alias; package_name = name; package_path = path })

has-skip :
    (alias name a b : Bytes) (m : Imports)
    → a ≢ b
    → has b m ≡ false
    → has b (import_of alias name a ∷ m) ≡ false
unfolding has lookup
has-skip alias name a b m h e = rw (false_of_ne a b h, has) e

module _ (conv : CasePackage) where
  first_import :
      (a n : Bytes)
      → n ≢ []
      → is_identifier n ≡ true
      → add_import conv a n [] ≡ (n, import_of [] n a ∷ [])
  unfolding insert delete new_item has lookup
  first_import a n h id_n =
      rw (add_import-new conv a n [] h refl, id_n, eq_refl ⦃e = bytes_eq⦄ []) refl

  second_import :
      (a b n alias : Bytes)
      → a ≢ b
      → n ≢ []
      → alias ≢ []
      → to_golang_name conv n false ++ itoa 2 ≡ alias
      → add_import conv b n (import_of [] n a ∷ [])
        ≡ (alias, import_of alias n b ∷ import_of [] n a ∷ [])
  unfolding insert delete new_item has lookup
  second_import a b n alias hab hn ha e =
      rw
        (
          add_import-new conv b n (import_of [] n a ∷ []) hn (has-skip [] n a b [] hab refl),
          false_of_ne a b hab,
          eq_refl n,
        )
        (ap
            (λ x. (
              if not (x == []) then x else n,
              (b, record { alias = x; package_name = n; package_path = b }) ∷ import_of [] n a ∷ [],
            ))
            e
          ∙ rw (false_of_ne alias [] ha) refl)

  third_import :
      (a b c n alias : Bytes)
      → a ≢ c
      → b ≢ c
      → n ≢ alias
      → alias ≢ []
      → is_identifier alias ≡ true
      → (add_import conv c alias (import_of alias n b ∷ import_of [] n a ∷ [])).0 ≡ alias
  unfolding new_item has lookup
  third_import a b c n alias hac hbc hna ha id_a =
      rw
        (
          add_import-new conv c alias (import_of alias n b ∷ import_of [] n a ∷ []) ha
              (has-skip alias n b c (import_of [] n a ∷ []) hbc (has-skip [] n a c [] hac refl)),
          false_of_ne n alias hna,
          false_of_ne a c hac,
          false_of_ne b c hbc,
          id_a,
          eq_refl ⦃e = bytes_eq⦄ [],
        )
        refl

  -- An alias can be the name of another package: if two packages have the name n and a third the
  -- name that n's second alias has, the second and the third get the same name in the file.
  pub add_import-collision :
      (a b c n alias : Bytes)
      → a ≢ b
      → a ≢ c
      → b ≢ c
      → n ≢ []
      → alias ≢ []
      → n ≢ alias
      → is_identifier n ≡ true
      → is_identifier alias ≡ true
      → to_golang_name conv n false ++ itoa 2 ≡ alias
      → ((add_import conv b n (add_import conv a n []).1).0 ≡ alias)
        × ((add_import conv c alias (add_import conv b n (add_import conv a n []).1).1).0 ≡ alias)
  add_import-collision a b c n alias hab hac hbc hn ha hna id_n id_a e =
      rw (first_import a n hn id_n, second_import a b n alias hab hn ha e)
        (refl, third_import a b c n alias hac hbc hna ha id_a)
