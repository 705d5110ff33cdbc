-- ===== src/Examples/Templating.antt =====
-- Names, imports and the functions of the templates at concrete texts.
use go_asyncapi.Common.{
  nat_eq, eqb, ◌≡◌, ◌≢◌, ◌||◌, refl, true, false, some, [], ◌∷◌, ◌++◌, Bytes, codes, ne_of_false,
  list_beq, arith, length, map, if◌then◌else◌, ◌==◌, bytes_eq, not, ◌&&◌,
}
use go_asyncapi.Common.GoMap.{lookup, has}
use go_asyncapi.Common.Strings.{has_prefix}
use go_asyncapi.Names.{CasePackage, Match, to_golang_name, is_keyword, upper, transform_initialisms}
use go_asyncapi.Names.Initialisms.{transform_initialisms-case}
use go_asyncapi.RenderManager.{ImportItem}
use go_asyncapi.Schema.Parts.{itoa}
use go_asyncapi.Imports.{add_import, new_item, given_name, is_identifier}
use go_asyncapi.Imports.Stable.{add_import-stable}
use go_asyncapi.Imports.Collision.{add_import-collision}
use go_asyncapi.Functions.{pos, ellipsis_start, template_go_comment}
use go_asyncapi.Functions.Text.{
  Ellipsized, ellipsis_start-Ellipsized, IsComment, template_go_comment-IsComment,
}

abbrev url_match : Match
url_match = record { last_byte = 4; size = 3; pattern = 31 }

abbrev same_case : CasePackage
same_case = record {
  pascal_case = λ s. s;
  camel_case = λ s. s;
  walk = λ patterns s. if eqb (length s) 5 then url_match ∷ [] else [];
}

transform_initialisms-case_example :
    map upper (transform_initialisms same_case (codes "myUrl")) ≡ codes "MYURL"
transform_initialisms-case_example =
    transform_initialisms-case same_case (codes "myUrl")
      ((omega arith, omega arith, omega arith, refl), tt)

ellipsis_start-Ellipsized_example :
    Ellipsized (pos 5) (codes "abcdefgh") (ellipsis_start (pos 5) (codes "abcdefgh"))
ellipsis_start-Ellipsized_example = ellipsis_start-Ellipsized (pos 5) (codes "abcdefgh")

no_comment : (has_prefix (codes "a") (codes "//") || has_prefix (codes "a") (codes "/*")) ≡ false
unfolding has_prefix
no_comment = refl

template_go_comment-IsComment_example : IsComment (template_go_comment (codes "a"))
template_go_comment-IsComment_example = template_go_comment-IsComment (codes "a") no_comment refl

abbrev net_url : Bytes
net_url = codes "net/url"

add_import-stable_example :
    (add_import same_case net_url (codes "url") (add_import same_case net_url (codes "url") []).1
      ≡ add_import same_case net_url (codes "url") [])
    × (lookup (codes "net") (add_import same_case net_url (codes "url") []).1 ≡ (
        if not (has {V = ImportItem} net_url []) && (net_url == codes "net")
        then some (new_item same_case net_url (given_name same_case net_url (codes "url")) [])
        else lookup (codes "net") []))
add_import-stable_example = add_import-stable same_case net_url (codes "url") (codes "net") []

different : (a b : Bytes) → list_beq ⦃e = nat_eq⦄ a b ≡ false → a ≢ b
unfolding list_beq
different a b h = ne_of_false a b h

is_name : (is_identifier (codes "tmp") ≡ true) × (is_identifier (codes "tmp2") ≡ true)
unfolding is_identifier is_keyword list_beq
is_name = (refl, refl)

second_alias : to_golang_name same_case (codes "tmp") false ++ itoa 2 ≡ codes "tmp2"
unfolding to_golang_name transform_initialisms is_keyword list_beq
second_alias = refl

apart :
    (codes "a/tmp" ≢ codes "b/tmp")
    × (codes "a/tmp" ≢ codes "c")
    × (codes "b/tmp" ≢ codes "c")
    × (codes "tmp" ≢ [])
    × (codes "tmp2" ≢ [])
    × (codes "tmp" ≢ codes "tmp2")
unfolding list_beq
apart = (
  different _ _ refl,
  different _ _ refl,
  different _ _ refl,
  different _ _ refl,
  different _ _ refl,
  different _ _ refl,
)

add_import-collision_example :
    ((add_import same_case
        (codes "b/tmp")
        (codes "tmp")
        (add_import same_case (codes "a/tmp") (codes "tmp") []).1).0
      ≡ codes "tmp2")
    × ((add_import same_case
          (codes "c")
          (codes "tmp2")
          (add_import same_case
            (codes "b/tmp")
            (codes "tmp")
            (add_import same_case (codes "a/tmp") (codes "tmp") []).1).1).0
        ≡ codes "tmp2")
add_import-collision_example =
    add_import-collision same_case (codes "a/tmp") (codes "b/tmp") (codes "c") (codes "tmp")
      (codes "tmp2") apart.0 apart.1 apart.2 apart.3 apart.4 apart.5 is_name.0 is_name.1
      second_alias
