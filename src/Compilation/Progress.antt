-- ===== src/Compilation/Progress.antt =====
-- runCompilation of cmd/go-asyncapi/code.go ends where finitely many documents are referred to.
use go_asyncapi.Common.{
  ℕ, zero, suc, ◌≤◌, ◌<◌, ◌≡◌, ◌≢◌, false, not, ◌&&◌, Option, some, List, [], ◌∷◌, ◌++◌, Bytes,
  if◌then◌else◌, bytes_eq, ==_iff, Has, inl, inr, Bool-cases, Option-cases, arith, All, All-append,
  sym,
}
use mathlib.Core.Path.{subst}
use go_asyncapi.Common.GoMap.{has, insert, has-insert}
use go_asyncapi.Jsonpointer.{Url, UrlPackage, JsonPointer, location}
use go_asyncapi.Compilation.{
  CompilationOpts, Document, Documents, Compilation, compiled, forbidden, failed, not_joined,
  out_of_fuel, is_remote, join_all, run_compilation,
}

-- How many of the locations are not compiled yet.
abbrev open_count : List Bytes → Documents → ℕ
open_count [] docs = 0
open_count (l ∷ ls) docs = let rest = open_count ls docs in if has l docs then rest else suc rest

open_count-le :
    (ls : List Bytes) (loc : Bytes) (d : Document) (docs : Documents)
    → open_count ls (insert loc d docs) ≤ open_count ls docs
open_count-le [] loc d docs = omega arith
open_count-le (l ∷ ls) loc d docs =
    ground (arith, has-insert loc l d docs, open_count-le ls loc d docs)

open_count-lt :
    (ls : List Bytes) (loc : Bytes) (d : Document) (docs : Documents)
    → has loc docs ≡ false
    → Has loc ls
    → open_count ls (insert loc d docs) < open_count ls docs
open_count-lt [] loc d docs h m = absurd m
open_count-lt (l ∷ ls) loc d docs h (inl e) = ground (
  arith,
  has-insert loc l d docs,
  open_count-le ls loc d docs,
  (==_iff loc l).1,
  subst (λ x. has x docs ≡ false) (sym e) h,
  e,
)
open_count-lt (l ∷ ls) loc d docs h (inr m) =
    ground (arith, has-insert loc l d docs, open_count-lt ls loc d docs h m)

abbrev Ended : Compilation → Type 0
Ended (compiled docs) = Unit
Ended (forbidden u) = Unit
Ended (failed u) = Unit
Ended (not_joined u) = Unit
Ended out_of_fuel = ⊥

module _ (net : UrlPackage) (resolve_reference : Url → Url → Url) (root : Bytes)
    (compile_document : JsonPointer → Option (List JsonPointer)) (opts : CompilationOpts)
    (universe : List Bytes) where
  abbrev pub Within : List JsonPointer → Type 0
  Within = All (λ u. Has (location net u) universe)

  module _
      (refers_within : (u : JsonPointer) (refs urls : List JsonPointer)
        → compile_document u ≡ some refs
        → join_all net resolve_reference root u refs ≡ some urls
        → Within urls) where
    abbrev Ends : List JsonPointer → Documents → Type 0
    Ends queue docs =
        (fuel : ℕ) × Ended
          (run_compilation net resolve_reference root compile_document opts fuel queue docs)

    -- One pass over the queue, where compiling another document ends.
    drain :
        (n : ℕ)
        → ((queue : List JsonPointer) (docs : Documents)
            → open_count universe docs < n
            → Within queue
            → Ends queue docs)
        → (queue : List JsonPointer) (docs : Documents) → open_count universe docs ≤ n
        → Within queue
        → Ends queue docs
    unfolding run_compilation
    drain n later [] docs h w = (1, tt)
    drain n later (u ∷ queue) docs h (here, w) = elim (Bool-cases (has (location net u) docs)) [
      | inl c ↦
          let (fuel, e) = drain n later queue docs h w in
          (suc fuel, rw (c, Ended, run_compilation) e)
      | inr c ↦ elim (Bool-cases (not opts.allow_remote_refs && is_remote u)) [
        | inl r ↦ (1, rw (c, r, Ended, run_compilation) tt)
        | inr r ↦ elim (Option-cases (compile_document u)) [
          | inl k ↦ (1, rw (c, r, k, Ended, run_compilation) tt)
          | inr (refs, k) ↦ elim (Option-cases (join_all net resolve_reference root u refs)) [
            | inl j ↦ (1, rw (c, r, k, j, Ended, run_compilation) tt)
            | inr (urls, j) ↦
                let d : Document = record { url = u; external_refs = refs } in
                let fewer = open_count-lt universe (location net u) d docs c here in
                let (fuel, e) =
                  later (queue ++ urls) (insert (location net u) d docs) (omega (arith, fewer)) (
                    All-append (λ v. Has (location net v) universe) queue urls w
                      (refers_within u refs urls k j)) in
                (suc fuel, rw (c, r, k, j, Ended, run_compilation) e)
          ]
        ]
      ]
    ]

    ends :
        (n : ℕ) (queue : List JsonPointer) (docs : Documents)
        → open_count universe docs ≤ n
        → Within queue
        → Ends queue docs
    ends zero queue docs h w = drain zero (λ q d lt. absurd (omega arith)) queue docs h w
    ends (suc n) queue docs h w =
        drain (suc n) (λ q d lt. ends n q d (omega (arith, lt))) queue docs h w

    -- If the locations that the first document and the references of documents lead to are among
    -- finitely many, also where documents refer to each other in a loop, then the compilation ends:
    -- some fuel is enough.
    pub run_compilation-ends :
        (queue : List JsonPointer)
        → Within queue
        → (fuel : ℕ) × (run_compilation net resolve_reference root compile_document opts fuel queue
              []
            ≢ out_of_fuel)
    run_compilation-ends queue w =
        let (fuel, e) = ends (open_count universe []) queue [] (omega arith) w in
        (fuel, λ out. subst Ended out e)
