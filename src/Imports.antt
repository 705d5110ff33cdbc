-- ===== src/Imports.antt =====
-- The imports manager of internal/tmpl/manager/import.go. The Go map is an association list;
-- token.IsIdentifier is modelled on ASCII.
pub mod Stable
pub mod Collision
use go_asyncapi.Common.{
  ℕ, zero, suc, ◌+◌, ◌≡◌, Bool, true, false, not, ◌&&◌, ◌||◌, Option, none, some, List, [], ◌∷◌,
  ◌++◌, Bytes, codes, ◌==◌, bytes_eq, if◌then◌else◌, keep, length, ltb, eqb, map,
}
use go_asyncapi.Common.GoMap.{lookup, has, insert}
use go_asyncapi.Names.{
  CasePackage, to_golang_name, is_keyword, is_upper, is_lower, is_digit, underscore,
}
use go_asyncapi.Common.Strings.{split}
use go_asyncapi.Locator.Path.{path_clean, slash}
use go_asyncapi.Schema.Parts.{itoa}
use go_asyncapi.RenderManager.{ImportItem, Imports}

abbrev pub last_part : List Bytes → Bytes
last_part [] = []
last_part (p ∷ []) = p
last_part (p ∷ q ∷ ps) = last_part (q ∷ ps)

-- token.IsIdentifier
abbrev pub is_identifier_letter : ℕ → Bool
is_identifier_letter c = is_upper c || (is_lower c || eqb c underscore)

abbrev pub all_letters_or_digits : Bytes → Bool
all_letters_or_digits [] = true
all_letters_or_digits (c ∷ s) = (is_identifier_letter c || is_digit c) && all_letters_or_digits s

abbrev pub starts_identifier : Bytes → Bool
starts_identifier [] = false
starts_identifier (c ∷ s) = is_identifier_letter c && all_letters_or_digits s

unfoldable pub is_identifier : Bytes → Bool
is_identifier s = starts_identifier s && not (is_keyword s)

-- How many other imports have the package name.
abbrev pub conflicts : Bytes → Bytes → Imports → ℕ
conflicts path name items =
    length (keep (λ e. not (e.0 == path) && (e.1.package_name == name)) items)

abbrev pub alias_or : Bytes → Option ImportItem → Bytes
alias_or name none = name
alias_or name (some item) = if not (item.alias == []) then item.alias else name

module _ (conv : CasePackage) where
  -- internal/utils/names.go
  unfoldable pub get_package_name : Bytes → Bytes
  get_package_name directory =
      let package_name = last_part (split slash (path_clean directory)) in
      if (package_name == []) || (package_name == codes ".")
      then codes "main"
      else to_golang_name conv package_name false

  unfoldable pub new_item : Bytes → Bytes → Imports → ImportItem
  unfolding is_identifier
  new_item path name items =
      let n = conflicts path name items in
      record {
        alias =
            (if ltb 0 n || not (is_identifier name)
              then to_golang_name conv name false ++ itoa (n + 1)
              else []);
        package_name = name;
        package_path = path;
      }

  unfoldable pub given_name : Bytes → Bytes → Bytes
  given_name path given = if given == [] then get_package_name path else given

  -- The name that the code uses for the import, and the imports.
  unfoldable pub add_import : Bytes → Bytes → Imports → Bytes × Imports
  add_import path given items =
      let name = given_name path given in
      let added =
        (if has path items then items else insert path (new_item path name items) items) in
      (alias_or name (lookup path added), added)
