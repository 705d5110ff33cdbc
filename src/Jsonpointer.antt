-- ===== src/Jsonpointer.antt =====
-- internal/jsonpointer/url.go. What the code takes from net/url beyond escaping, and the Unicode
-- table behind strings.TrimSpace, are parameters (`UrlPackage`).
pub mod Escape
pub mod RoundTrip
pub mod Order
use go_asyncapi.Common.{
  ℕ, ◌≤◌, ◌≡◌, Bool, true, false, ◌&&◌, ◌||◌, not, Option, none, some, List, [], ◌∷◌, ◌++◌, Bytes,
  codes, map, if◌then◌else◌, ◌>>=◌, ◌==◌, bytes_eq,
}
use go_asyncapi.Common.Strings.{split, join, has_prefix}
use go_asyncapi.Jsonpointer.Escape.{path_escape, path_unescape, slash}

-- The fields of url.URL that the code reads or writes; `remainder` stands for the others.
pub record Url : Type 0 where
  pub scheme : Bytes
  pub user : Option Bytes
  pub host : Bytes
  pub path : Bytes
  pub fragment : Bytes
  pub remainder : Bytes

pub record UrlPackage : Type 0 where
  pub url_parse : Bytes → Option Url
  pub url_string : Url → Bytes
  pub trim_space : Bytes → Bytes

pub record JsonPointer : Type 0 where
  pub uri : Option Url
  pub fs_path : Bytes
  pub pointer : List Bytes

-- ptr[1:]
abbrev pub tail_bytes : Bytes → Bytes
tail_bytes [] = []
tail_bytes (c ∷ s) = s

-- Cut the first part if it is empty.
abbrev pub cut_first : List Bytes → List Bytes
cut_first [] = []
cut_first ([] ∷ ps) = ps
cut_first ((c ∷ p) ∷ ps) = (c ∷ p) ∷ ps

abbrev pub unescape_parts : List Bytes → Option (List Bytes)
unescape_parts [] = some []
unescape_parts (p ∷ ps) = do q ← path_unescape p; qs ← unescape_parts ps; some (q ∷ qs)

abbrev pub is_none {ℓ} : {A : Type ℓ} → Option A → Bool
is_none none = true
is_none (some a) = false

-- A file URL, or one with neither host, user nor scheme.
unfoldable pub is_local : Url → Bool
is_local u = (u.scheme == codes "file") || ((u.host == []) && (is_none u.user && (u.scheme == [])))

unfoldable pub pointer_string : List Bytes → Bytes
pointer_string parts = codes "#/" ++ join slash (map path_escape parts)

module _ (net : UrlPackage) where
  -- The URI, the file system path and the pointer of a reference.
  unfoldable pub parse_reference : Bytes → Option Url × Bytes × Bytes
  unfolding is_local
  parse_reference text =
      let ptr = net.trim_space text in
      if has_prefix ptr (codes "#/") then (none, [], tail_bytes ptr) else elim (net.url_parse ptr) [
        | some u ↦
            if is_local u
            then (none, u.path, u.fragment)
            else (some (record u { fragment = [] }), [], u.fragment)
        | none ↦ (none, ptr, [])
      ]

  -- `none` is the error that a part cannot be unescaped.
  unfoldable pub parse : Bytes → Option JsonPointer
  unfolding parse_reference
  parse text =
      let (uri, fs_path, ptr) = parse_reference text in
      do
        parts ← unescape_parts (cut_first (split slash ptr))
        some (record { uri = uri; fs_path = fs_path; pointer = parts })

  unfoldable pub location : JsonPointer → Bytes
  location r = elim r.uri [ some u ↦ net.url_string u | none ↦ r.fs_path ]

  unfoldable pub to_string : JsonPointer → Bytes
  unfolding location
  to_string r =
      let s : Bytes = elim r.pointer [ [] ↦ [] | p ∷ ps ↦ pointer_string (p ∷ ps) ] in
      if location r == [] then s else location r ++ s
