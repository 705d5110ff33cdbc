-- ===== src/Examples/Locating.antt =====
-- The locators of internal/locator at concrete values.
use go_asyncapi.Common.{
  ℕ, ◌≡◌, ◌≢◌, refl, inr, Bool, true, false, Option, none, some, List, [], ◌∷◌, ◌++◌, Bytes, codes,
  map, All,
}
use mathlib.Core.List.{cons-ne-nil}
use go_asyncapi.Common.Strings.{join}
use go_asyncapi.Jsonpointer.{Url, UrlPackage, JsonPointer}
use go_asyncapi.Locator.{resolve_url}
use go_asyncapi.Locator.Path.{path_is_abs, render_path}
use go_asyncapi.Locator.CommandLine.{space, escape, parse_command_line, parse_command_line-escape}
use go_asyncapi.Locator.Containment.{Normal, kept_parts, resolve_url-Contained}

abbrev awkward : List Bytes
awkward = codes "a b" ∷ codes "\\'" ∷ []

parse_command_line-escape_example : parse_command_line (join space (map escape awkward)) ≡ awkward
parse_command_line-escape_example =
    parse_command_line-escape awkward
      (cons-ne-nil 97 (codes " b"), (cons-ne-nil 92 (codes "'"), tt))

abbrev no_urls : UrlPackage
no_urls = record { url_parse = λ s. none; url_string = λ u. u.path; trim_space = λ s. s }

abbrev second_url : Url → Url → Url
second_url a b = b

abbrev file : Bytes → JsonPointer
file p = record { uri = none; fs_path = p; pointer = codes "x" ∷ [] }

resolve_url-Contained_example :
    (parts : List Bytes) × All Normal parts
    × (resolve_url no_urls second_url
          (codes "/srv/x/..")
          (file (codes "a.yaml"))
          (file (codes "../../etc"))
        ≡ some (
            file (
              render_path
                (path_is_abs (codes "/srv/x/.."))
                (kept_parts (codes "/srv/x/..") ++ parts))))
unfolding path_is_abs go_asyncapi.Common.Strings.has_prefix
resolve_url-Contained_example =
    resolve_url-Contained no_urls second_url (codes "/srv/x/..") (file (codes "a.yaml"))
      (file (codes "../../etc")) (cons-ne-nil 47 (codes "srv/x/..")) refl refl refl
