-- ===== src/Schema/Location.antt =====
-- parseRuntimeExpression of internal/asyncapi/utils.go: the location of a correlation id or of an
-- address, as in $message.header#/id, and what is read back from one.
use go_asyncapi.Common.{
  ℕ, ◌≡◌, ◌≢◌, refl, ap, Bool, true, Option, none, some, List, [], ◌∷◌, ◌++◌, Bytes, codes, ◌==◌,
  bytes_eq, nat_eq, refl, false_of_ne, if◌then◌else◌, eqb, arith, All,
}
use mathlib.Core.List.{cons-ne-nil}
use go_asyncapi.Common.Strings.{split, join, Lacks, split-join}
use go_asyncapi.Locator.Path.{slash}

pub data StructFieldKind : Type 0 where
  kind_headers : StructFieldKind
  kind_payload : StructFieldKind

pub data LocationError : Type 0 where
  no_source_or_fragment : LocationError
  unknown_source : Bytes → LocationError
  no_leading_slash : LocationError
  points_to_root : LocationError

pub data Location : Type 0 where
  located : StructFieldKind → List Bytes → Location
  refused : LocationError → Location

-- strings.SplitN(location, sep, 2), `none` where there is one part
abbrev pub split_two : ℕ → Bytes → Option (Bytes × Bytes)
split_two sep [] = none
split_two sep (c ∷ s) =
    let rest = split_two sep s in
    if eqb c sep then some ([], s) else elim rest [ none ↦ none | some r ↦ some (c ∷ r.0, r.1) ]

abbrev pub has_suffix : Bytes → Bytes → Bool
has_suffix [] suffix = suffix == []
has_suffix (c ∷ s) suffix = let rest = has_suffix s suffix in if c ∷ s == suffix then true else rest

abbrev pub fragment : StructFieldKind → Bytes → Location
fragment kind [] = refused no_leading_slash
fragment kind (c ∷ s) =
    if eqb c slash
    then if s == [] then refused points_to_root else located kind (split slash s)
    else refused no_leading_slash

abbrev pub source_kind : Bytes → Option StructFieldKind
source_kind source =
    if has_suffix source (codes "header")
    then some kind_headers
    else if has_suffix source (codes "payload")
    then some kind_payload
    else none

unfoldable pub parse_runtime_expression : Bytes → Location
unfolding split
parse_runtime_expression location = elim (split_two 35 location) [
  | none ↦ refused no_source_or_fragment
  | some parts ↦ elim (source_kind parts.0) [
    | none ↦ refused (unknown_source parts.0)
    | some kind ↦ fragment kind parts.1
  ]
]

split_two-append :
    (sep : ℕ) (a b : Bytes) → Lacks sep a → split_two sep (a ++ sep ∷ b) ≡ some (a, b)
split_two-append sep [] b h = ground arith
split_two-append sep (c ∷ a) b (hc, h) = ground (arith, split_two-append sep a b h)

fragment-split :
    (kind : StructFieldKind) (s : Bytes)
    → s ≢ []
    → fragment kind (slash ∷ s) ≡ located kind (split slash s)
fragment-split kind s h = rw (false_of_ne s [] h) refl

-- A location of a source that ends in header or payload and holds no #, and of a path that is not
-- just one empty part, is parsed to the kind of the source and the parts of the path, if no part
-- holds a slash. The parts may hold the mark #.
pub parse_runtime_expression-join :
    (source : Bytes) (kind : StructFieldKind) (p : Bytes) (ps : List Bytes)
    → Lacks 35 source
    → source_kind source ≡ some kind
    → All (Lacks slash) (p ∷ ps)
    → join slash (p ∷ ps) ≢ []
    → parse_runtime_expression (source ++ 35 ∷ slash ∷ join slash (p ∷ ps)) ≡ located kind (p ∷ ps)
unfolding parse_runtime_expression
parse_runtime_expression-join source kind p ps l k a h =
    rw
      (
        split_two-append 35 source (slash ∷ join slash (p ∷ ps)) l,
        k,
        fragment-split kind (join slash (p ∷ ps)) h,
        parse_runtime_expression,
      )
      (ap (located kind) (split-join slash (p ∷ ps) (cons-ne-nil p ps) a))
