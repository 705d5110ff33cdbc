-- ===== src/Examples/Pointers.antt =====
-- The references of internal/jsonpointer at concrete values.
use go_asyncapi.Common.{
  ℕ, ◌≡◌, ◌≢◌, ◌↔◌, refl, Bool, true, false, Option, none, some, List, [], ◌∷◌, ◌++◌, Bytes, codes,
  arith,
}
use mathlib.Core.List.{cons-ne-nil}
use go_asyncapi.Jsonpointer.{Url, UrlPackage, JsonPointer, parse, pointer_string}
use go_asyncapi.Jsonpointer.Escape.{path_unescape}
use go_asyncapi.Jsonpointer.RoundTrip.{parse-pointer_string, parse_unescapes_twice}

-- A URL with this path and fragment.
abbrev local_url : Bytes → Bytes → Url
local_url p f = record {
  scheme = [];
  user = none;
  host = [];
  path = p;
  fragment = f;
  remainder = [];
}

-- Every text is the reference of one local URL, and trimming drops nothing.
abbrev one_url : Bytes → Bytes → UrlPackage
one_url p f = record {
  url_parse = λ s. some (local_url p f);
  url_string = λ u. u.path;
  trim_space = λ s. s;
}

abbrev two_parts : List Bytes
two_parts = codes "a/b" ∷ (0 ∷ 255 ∷ []) ∷ []

parse-pointer_string_example :
    parse (one_url [] []) (pointer_string two_parts)
    ≡ some (record { uri = none; fs_path = []; pointer = two_parts })
parse-pointer_string_example =
    parse-pointer_string (one_url [] []) (λ s h. refl) two_parts
      (cons-ne-nil (codes "a/b") ((0 ∷ 255 ∷ []) ∷ []))
      ((omega arith, (omega arith, (omega arith, tt))), ((omega arith, (omega arith, tt)), tt))

parse_unescapes_twice_example :
    parse
      (one_url (codes "d.yaml") (codes "/9%"))
      (codes "d.yaml" ++ pointer_string (codes "9%" ∷ []))
    ≡ none
unfolding go_asyncapi.Jsonpointer.is_local go_asyncapi.Common.list_beq
    go_asyncapi.Common.Strings.has_prefix path_unescape
parse_unescapes_twice_example =
    parse_unescapes_twice (one_url (codes "d.yaml") (codes "/9%")) (codes "d.yaml") (codes "9%")
      (local_url (codes "d.yaml") (codes "/9%")) refl refl refl refl refl refl
      (omega arith, (omega arith, tt)) refl
