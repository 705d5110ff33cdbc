-- ===== src/Examples/Compiling.antt =====
-- The compilation of cmd/go-asyncapi/code.go on two documents that both refer to both.
use go_asyncapi.Common.{
  ℕ, ◌≡◌, ◌≢◌, refl, true, false, Option, none, some, List, [], ◌∷◌, Bytes, codes, inl, inr,
  list_beq, sym,
}
use mathlib.Core.Path.{subst}
use mathlib.Core.Option.{some_inj}
use go_asyncapi.Common.GoMap.{has, insert, lookup, delete}
use go_asyncapi.Common.Strings.{has_prefix}
use go_asyncapi.Jsonpointer.{Url, UrlPackage, JsonPointer, location}
use go_asyncapi.Locator.{resolve_url, join_base}
use go_asyncapi.Locator.Path.{path_is_abs}
use go_asyncapi.Compilation.{
  CompilationOpts, Documents, compiled, out_of_fuel, join_all, run_compilation,
}
use go_asyncapi.Compilation.Closure.{Complete, run_compilation-Closed}
use go_asyncapi.Compilation.Progress.{Within, run_compilation-ends}

abbrev net : UrlPackage
net = record { url_parse = λ s. none; url_string = λ u. u.path; trim_space = λ s. s }

abbrev second_url : Url → Url → Url
second_url a b = b

abbrev file : Bytes → JsonPointer
file p = record { uri = none; fs_path = p; pointer = [] }

abbrev both : List JsonPointer
both = file (codes "/a") ∷ file (codes "/b") ∷ []

abbrev compile_both : JsonPointer → Option (List JsonPointer)
compile_both u = some both

abbrev local_only : CompilationOpts
local_only = record {
  allow_remote_refs = false;
  generate_publishers = true;
  generate_subscribers = true;
}

abbrev result : Documents
result =
    (codes "/b", record { url = file (codes "/b"); external_refs = both })
    ∷ (codes "/a", record { url = file (codes "/a"); external_refs = both })
    ∷ []

finishes :
    run_compilation net second_url [] compile_both local_only 7 (file (codes "/a") ∷ []) []
    ≡ compiled result
unfolding run_compilation join_all resolve_url join_base path_is_abs has_prefix location has insert
    lookup delete list_beq
finishes = refl

run_compilation-Closed_example :
    Complete net second_url [] compile_both local_only
      (location net (file (codes "/a")))
      (compiled result)
run_compilation-Closed_example =
    run_compilation-Closed net second_url [] compile_both local_only 7 (file (codes "/a")) result
      finishes

abbrev locations : List Bytes
locations = codes "/a" ∷ codes "/b" ∷ []

both-Within : Within net second_url [] compile_both local_only locations both
unfolding location
both-Within = (inl refl, (inr (inl refl), tt))

joined_both :
    (u : JsonPointer) (o : Option Url) (urls : List JsonPointer)
    → u.uri ≡ o
    → join_all net second_url [] u both ≡ some urls
    → both ≡ urls
unfolding join_all resolve_url join_base path_is_abs has_prefix
joined_both u none urls e h = some_inj.0 (rw (e, join_all) at h)
joined_both u (some b) urls e h = cc (rw (e, join_all) at h)

refers-Within :
    (u : JsonPointer) (refs urls : List JsonPointer)
    → compile_both u ≡ some refs
    → join_all net second_url [] u refs ≡ some urls
    → Within net second_url [] compile_both local_only locations urls
refers-Within u refs urls c j =
    subst (Within net second_url [] compile_both local_only locations)
      (joined_both u u.uri urls refl
        (subst (λ r. join_all net second_url [] u r ≡ some urls) (sym (some_inj.0 c)) j))
      both-Within

run_compilation-ends_example :
    (fuel : ℕ) × (run_compilation net second_url [] compile_both local_only fuel both []
      ≢ out_of_fuel)
run_compilation-ends_example =
    run_compilation-ends net second_url [] compile_both local_only locations refers-Within both
      both-Within
