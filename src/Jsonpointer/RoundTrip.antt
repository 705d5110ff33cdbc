-- ===== src/Jsonpointer/RoundTrip.antt =====
-- Parsing a printed pointer (internal/jsonpointer/url.go).
use mathlib.Core.List.{cons-ne-nil}
use go_asyncapi.Common.{
  ◌≡◌, ◌≢◌, refl, true, false, none, some, List, [], ◌∷◌, ◌++◌, Bytes, codes, map, ◌>>=◌, bytes_eq,
  All, All-append, arith,
}
use go_asyncapi.Common.Strings.{split, join, has_prefix, Lacks, split-join}
use go_asyncapi.Jsonpointer.Escape.{
  path_escape, path_unescape, slash, percent, AreBytes, path_unescape-path_escape,
  path_escape-Lacks, path_escape-AreVisible, AreVisible, path_unescape-Lacks,
}
use go_asyncapi.Jsonpointer.{
  Url, UrlPackage, cut_first, unescape_parts, parse, pointer_string, is_local,
}

unescape_parts-escape :
    (ps : List Bytes) → All AreBytes ps → unescape_parts (map path_escape ps) ≡ some ps
unescape_parts-escape [] h = refl
unescape_parts-escape (p ∷ ps) (hp, hps) =
    rw (path_unescape-path_escape p hp, unescape_parts-escape ps hps)

unescape_parts-plain : (ps : List Bytes) → All (Lacks percent) ps → unescape_parts ps ≡ some ps
unescape_parts-plain [] h = refl
unescape_parts-plain (p ∷ ps) (hp, hps) = rw (path_unescape-Lacks p hp, unescape_parts-plain ps hps)

map_escape-Lacks : (ps : List Bytes) → All AreBytes ps → All (Lacks slash) (map path_escape ps)
map_escape-Lacks [] h = tt
map_escape-Lacks (p ∷ ps) (hp, hps) = (path_escape-Lacks p hp, map_escape-Lacks ps hps)

join-AreVisible : (ps : List Bytes) → All AreBytes ps → AreVisible (join slash (map path_escape ps))
unfolding join
join-AreVisible [] h = tt
join-AreVisible (p ∷ []) (hp, _) = path_escape-AreVisible p hp
join-AreVisible (p ∷ q ∷ ps) (hp, hps) =
    All-append _ (path_escape p) _ (path_escape-AreVisible p hp)
      ((omega arith, omega arith), join-AreVisible (q ∷ ps) hps)

split_path :
    (ps : List Bytes)
    → ps ≢ []
    → All (Lacks slash) ps
    → cut_first (split slash (slash ∷ join slash ps)) ≡ ps
unfolding split
split_path ps h hs = rw (split-join slash ps h hs)

map-ne-nil : (ps : List Bytes) → ps ≢ [] → map path_escape ps ≢ []
map-ne-nil [] h = absurd (h refl)
map-ne-nil (p ∷ ps) h = cons-ne-nil (path_escape p) (map path_escape ps)

module _ (net : UrlPackage) (trim_visible : (s : Bytes) → AreVisible s → net.trim_space s ≡ s) where
  -- If trimming leaves visible ASCII text alone, a pointer with at least one part is read back from
  -- its string: the parts come back whole, whatever bytes they hold, with no location.
  pub parse-pointer_string :
      (ps : List Bytes)
      → ps ≢ []
      → All AreBytes ps
      → parse net (pointer_string ps) ≡ some (record { uri = none; fs_path = []; pointer = ps })
  unfolding parse pointer_string has_prefix
  parse-pointer_string ps h hs =
      rw
        (trim_visible (codes "#/" ++ join slash (map path_escape ps))
          ((omega arith, omega arith), ((omega arith, omega arith), join-AreVisible ps hs)))
        (rw (
          split_path (map path_escape ps) (map-ne-nil ps h) (map_escape-Lacks ps hs),
          unescape_parts-escape ps hs,
        ))

-- A file path with a pointer, such as `doc.yaml#/a`, for which url.Parse returns a URL with neither
-- scheme nor host, and the pointer's parts in its fragment, which url.URL holds unescaped.
module _ (net : UrlPackage) (path : Bytes) (ps : List Bytes) (u : Url)
    (trimmed : net.trim_space (path ++ pointer_string ps) ≡ path ++ pointer_string ps)
    (has_path : has_prefix (path ++ pointer_string ps) (codes "#/") ≡ false)
    (parsed : net.url_parse (path ++ pointer_string ps) ≡ some u) (local : is_local u ≡ true)
    (path_of_url : u.path ≡ path) (fragment_of_url : u.fragment ≡ slash ∷ join slash ps) where
  parse-located :
      ps ≢ []
      → All (Lacks slash) ps
      → parse net (path ++ pointer_string ps)
        ≡ (unescape_parts ps >>= λ qs. some (record { uri = none; fs_path = path; pointer = qs }))
  unfolding parse
  parse-located h hs =
      rw (trimmed, has_path, parsed)
        (rw (local, fragment_of_url, path_of_url) (rw (split_path ps h hs)))

  -- Behind a file path, parts that hold neither a slash nor a percent sign are read back.
  pub parse-pointer_string_behind_path :
      ps ≢ []
      → All (Lacks slash) ps
      → All (Lacks percent) ps
      → parse net (path ++ pointer_string ps)
        ≡ some (record { uri = none; fs_path = path; pointer = ps })
  parse-pointer_string_behind_path h hs hp = rw (parse-located h hs, unescape_parts-plain ps hp)

-- Behind a file path the parts are unescaped twice: a part such as `100%`, escaped correctly to
-- `100%25`, makes the parse fail, though without the path it is read back.
pub parse_unescapes_twice :
    (net : UrlPackage) (path p : Bytes) (u : Url)
    → net.trim_space (path ++ pointer_string (p ∷ [])) ≡ path ++ pointer_string (p ∷ [])
    → has_prefix (path ++ pointer_string (p ∷ [])) (codes "#/") ≡ false
    → net.url_parse (path ++ pointer_string (p ∷ [])) ≡ some u
    → is_local u ≡ true
    → u.path ≡ path
    → u.fragment ≡ slash ∷ p
    → Lacks slash p
    → path_unescape p ≡ none
    → parse net (path ++ pointer_string (p ∷ [])) ≡ none
parse_unescapes_twice net path p u trimmed has_path parsed local hpath hfragment hs bad =
    rw
      (parse-located net path (p ∷ []) u trimmed has_path parsed local hpath
        (unfold join in hfragment) (cons-ne-nil p []) (hs, tt))
      (rw bad)
