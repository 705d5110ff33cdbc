-- ===== src/Locator/Path.antt =====
-- What internal/locator/default.go uses of Go's package path: lexical cleaning and joining.
use go_asyncapi.Common.{
  ℕ, ◌≡◌, Bool, true, false, ◌||◌, not, Option, none, some, List, [], ◌∷◌, ◌++◌, Bytes, codes,
  if◌then◌else◌, ◌==◌, bytes_eq, eqb, refl,
}
use mathlib.Core.List.{reverse}
use go_asyncapi.Common.Strings.{split, join, has_prefix}

abbrev pub slash : ℕ
slash = b'/'

abbrev pub dot : Bytes
dot = codes "."

abbrev pub dot_dot : Bytes
dot_dot = codes ".."

-- One part of a path over the parts kept so far, the last one first: `..` removes the part before
-- it; where there is none, it is kept, or dropped under the root.
unfoldable pub push_part : Bool → List Bytes → Bytes → List Bytes
push_part rooted out part =
    if (part == []) || (part == dot)
    then out
    else if part == dot_dot
    then elim out [
      | [] ↦ if rooted then [] else dot_dot ∷ []
      | p ∷ ps ↦ if p == dot_dot then dot_dot ∷ p ∷ ps else ps
    ]
    else part ∷ out

unfoldable pub push_parts : Bool → List Bytes → List Bytes → List Bytes
push_parts rooted out [] = out
push_parts rooted out (p ∷ ps) = push_parts rooted (push_part rooted out p) ps

unfoldable pub path_is_abs : Bytes → Bool
path_is_abs p = has_prefix p (slash ∷ [])

-- The path with these parts.
unfoldable pub render_path : Bool → List Bytes → Bytes
render_path true parts = slash ∷ join slash parts
render_path false [] = dot
render_path false (p ∷ ps) = join slash (p ∷ ps)

unfoldable pub path_clean : Bytes → Bytes
path_clean p = render_path (path_is_abs p) (reverse (push_parts (path_is_abs p) [] (split slash p)))

abbrev pub non_empty : List Bytes → List Bytes
non_empty [] = []
non_empty (p ∷ ps) = let rest = non_empty ps in if p == [] then rest else p ∷ rest

abbrev pub clean_joined : List Bytes → Bytes
clean_joined [] = []
clean_joined (p ∷ ps) = path_clean (join slash (p ∷ ps))

unfoldable pub path_join : List Bytes → Bytes
path_join elements = clean_joined (non_empty elements)

-- The text up to and with the last slash.
abbrev pub directory_part : Bytes → Bytes
directory_part [] = []
directory_part (c ∷ s) =
    let rest = directory_part s in
    elim rest [ [] ↦ if eqb c slash then c ∷ [] else [] | d ∷ r ↦ c ∷ d ∷ r ]

unfoldable pub path_dir : Bytes → Bytes
path_dir p = path_clean (directory_part p)

clean_test : path_clean (codes "a/./b/../../../c//d/") ≡ codes "../c/d"
unfolding path_clean push_parts push_part render_path path_is_abs split join has_prefix
    go_asyncapi.Common.list_beq
clean_test = refl

dir_test : path_dir (codes "/a/b/c.yaml") ≡ codes "/a/b"
unfolding path_dir path_clean push_parts push_part render_path path_is_abs split join has_prefix
    go_asyncapi.Common.list_beq
dir_test = refl
