-- ===== src/Compilation/Closure.antt =====
-- runCompilation of cmd/go-asyncapi/code.go: which documents are compiled when it succeeds.
use go_asyncapi.Common.{
  ℕ, zero, suc, ◌≡◌, ◌⊎◌, refl, true, false, not, ◌&&◌, Option, some, List, [], ◌∷◌, ◌++◌, Bytes,
  bytes_eq, ◌==◌, ==_iff, Has, inl, inr, Bool-cases, Option-cases, arith, ap, sym, ◌∙◌,
}
use mathlib.Core.Path.{subst}
use mathlib.Core.Option.{some_inj}
use go_asyncapi.Common.GoMap.{has, insert, lookup, lookup-insert, has-insert}
use go_asyncapi.Jsonpointer.{Url, UrlPackage, JsonPointer, location}
use go_asyncapi.Compilation.{
  CompilationOpts, Document, Documents, Compilation, compiled, forbidden, failed, not_joined,
  out_of_fuel, is_remote, join_all, run_compilation,
}

Has-left : {A : Type 0} (a : A) (xs ys : List A) → Has a xs → Has a (xs ++ ys)
Has-left a (x ∷ xs) ys (inl e) = inl e
Has-left a (x ∷ xs) ys (inr h) = inr (Has-left a xs ys h)
Has-left a [] ys h = absurd h

Has-right : {A : Type 0} (a : A) (xs ys : List A) → Has a ys → Has a (xs ++ ys)
Has-right a [] ys h = h
Has-right a (x ∷ xs) ys h = inr (Has-right a xs ys h)

module _ (net : UrlPackage) (resolve_reference : Url → Url → Url) (root : Bytes)
    (compile_document : JsonPointer → Option (List JsonPointer)) (opts : CompilationOpts) where
  -- Compiled already, or still in the queue.
  abbrev pub Known : List JsonPointer → Documents → Bytes → Type 0
  Known queue docs loc =
      (has loc docs ≡ true) ⊎ ((u : JsonPointer) × (location net u ≡ loc) × Has u queue)

  -- A compiled document that may be read, and whose references are joined and known.
  abbrev pub Settled : List JsonPointer → Documents → Document → Type 0
  Settled queue docs d =
      ((not opts.allow_remote_refs && is_remote d.url) ≡ false)
      × (urls : List JsonPointer) × (join_all net resolve_reference root d.url d.external_refs
          ≡ some urls)
      × ((v : JsonPointer) → Has v urls → Known queue docs (location net v))

  abbrev pub Inv : List JsonPointer → Documents → Type 0
  Inv queue docs = (loc : Bytes) (d : Document) → lookup loc docs ≡ some d → Settled queue docs d

  Known-skip :
      (u : JsonPointer) (queue : List JsonPointer) (docs : Documents) (loc : Bytes)
      → has (location net u) docs ≡ true
      → Known (u ∷ queue) docs loc
      → Known queue docs loc
  Known-skip u queue docs loc h (inl k) = inl k
  Known-skip u queue docs loc h (inr (v, e, inr m)) = inr (v, e, m)
  Known-skip u queue docs loc h (inr (v, e, inl p)) =
      inl (subst (λ l. has l docs ≡ true) (ap (location net) p ∙ e) h)

  Known-new :
      (u : JsonPointer) (queue urls : List JsonPointer) (d : Document) (docs : Documents)
      (loc : Bytes)
      → Known (u ∷ queue) docs loc
      → Known (queue ++ urls) (insert (location net u) d docs) loc
  Known-new u queue urls d docs loc (inl k) =
      inl (has-insert (location net u) loc d docs ∙ ground (arith, k))
  Known-new u queue urls d docs loc (inr (v, e, inl p)) = inl (
      has-insert (location net u) loc d docs
      ∙ ground (arith, (==_iff (location net u) loc).1 (ap (location net) p ∙ e)))
  Known-new u queue urls d docs loc (inr (v, e, inr m)) = inr (v, e, Has-left v queue urls m)

  Inv-skip :
      (u : JsonPointer) (queue : List JsonPointer) (docs : Documents)
      → has (location net u) docs ≡ true
      → Inv (u ∷ queue) docs
      → Inv queue docs
  Inv-skip u queue docs h inv loc d e =
      let (allowed, urls, joined, known) = inv loc d e in
      (allowed, urls, joined, λ v m. Known-skip u queue docs (location net v) h (known v m))

  Inv-new :
      (u : JsonPointer) (queue refs urls : List JsonPointer) (docs : Documents)
      → (not opts.allow_remote_refs && is_remote u) ≡ false
      → join_all net resolve_reference root u refs ≡ some urls
      → Inv (u ∷ queue) docs
      → Inv
          (queue ++ urls)
          (insert (location net u) (record { url = u; external_refs = refs }) docs)
  Inv-new u queue refs urls docs allowed joined inv loc d e =
      let new : Document = record { url = u; external_refs = refs } in
      elim (Bool-cases (location net u == loc)) [
        | inl q ↦
            let same : new ≡ d =
              some_inj.0 (sym (lookup-insert (location net u) loc new docs ∙ rw q refl) ∙ e) in
            subst (Settled (queue ++ urls) (insert (location net u) new docs)) same
              (allowed, urls, joined, λ v m. inr (v, refl, Has-right v queue urls m))
        | inr q ↦
            let old : lookup loc docs ≡ some d =
              sym (lookup-insert (location net u) loc new docs ∙ rw q refl) ∙ e in
            let (allowed', urls', joined', known) = inv loc d old in
            (
              allowed',
              urls',
              joined',
              λ v m. Known-new u queue urls new docs (location net v) (known v m),
            )
      ]

  -- What holds when the queue is empty.
  abbrev pub Complete : Bytes → Compilation → Type 0
  Complete first (compiled docs) = (has first docs ≡ true) × Inv [] docs
  Complete first (forbidden u) = Unit
  Complete first (failed u) = Unit
  Complete first (not_joined u) = Unit
  Complete first out_of_fuel = Unit

  run_compilation-Complete :
      (fuel : ℕ) (queue : List JsonPointer) (docs : Documents) (first : Bytes)
      → Known queue docs first
      → Inv queue docs
      → Complete first
          (run_compilation net resolve_reference root compile_document opts fuel queue docs)
  unfolding run_compilation
  run_compilation-Complete zero queue docs first k inv = tt
  run_compilation-Complete (suc fuel) [] docs first (inl k) inv = (k, inv)
  run_compilation-Complete (suc fuel) [] docs first (inr (u, e, m)) inv = absurd m
  run_compilation-Complete (suc fuel) (u ∷ queue) docs first k inv =
      elim (Bool-cases (has (location net u) docs)) [
        | inl h ↦
            rw (h, Complete, run_compilation)
              (run_compilation-Complete fuel queue docs first (Known-skip u queue docs first h k)
                (Inv-skip u queue docs h inv))
        | inr h ↦ elim (Bool-cases (not opts.allow_remote_refs && is_remote u)) [
          | inl r ↦ rw (h, r, Complete, run_compilation) tt
          | inr r ↦ elim (Option-cases (compile_document u)) [
            | inl c ↦ rw (h, r, c, Complete, run_compilation) tt
            | inr (refs, c) ↦ elim (Option-cases (join_all net resolve_reference root u refs)) [
              | inl j ↦ rw (h, r, c, j, Complete, run_compilation) tt
              | inr (urls, j) ↦
                  let d : Document = record { url = u; external_refs = refs } in
                  rw (h, r, c, j, Complete, run_compilation)
                    (run_compilation-Complete fuel (queue ++ urls) (insert (location net u) d docs)
                      first (Known-new u queue urls d docs first k)
                      (Inv-new u queue refs urls docs r j inv))
            ]
          ]
        ]
      ]

  -- If the compilation of a document succeeds, the document is compiled; every document that a
  -- compiled document refers to is compiled too, under the location that the locator joined; and
  -- without the permission for remote references, none of the compiled documents is remote.
  pub run_compilation-Closed :
      (fuel : ℕ) (first : JsonPointer) (docs : Documents)
      → run_compilation net resolve_reference root compile_document opts fuel (first ∷ []) []
        ≡ compiled docs
      → Complete (location net first) (compiled docs)
  unfolding lookup
  run_compilation-Closed fuel first docs e = subst (Complete (location net first)) e (
      run_compilation-Complete fuel (first ∷ []) [] (location net first)
        (inr (first, refl, inl refl)) (λ loc d h. cc h))
