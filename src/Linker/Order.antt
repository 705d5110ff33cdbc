-- ===== src/Linker/Order.antt =====
-- ResolvePromises of internal/linker/linker.go over a compilation's documents: it ends, what it
-- assigns does not depend on Go's map order, and $ref loops stay unassigned.
use mathlib.Core.Path.{subst}
use go_asyncapi.Common.{
  ℕ, suc, ◌≤◌, ◌<◌, ◌≡◌, ◌≢◌, ◌↔◌, refl, Bool, Option, none, some, List, [], ◌∷◌, Bytes, arith, ap,
  sym, ◌∙◌, Option-cases, Bool-cases, inl, inr, keep, length, if◌then◌else◌, ◌==◌, bytes_eq, All,
  All_at, Has,
}
use go_asyncapi.Common.GoMap.{lookup}
use go_asyncapi.Jsonpointer.{UrlPackage, JsonPointer, parse, location}
use go_asyncapi.Linker.{
  Artifact, plain, object_promise, list_promise, PromiseInfo, ObjectSource, Bindings, returned,
  out_of_fuel, no_document, found, single_target, search_target, another, next_target,
  resolve_promises, callback,
}
use go_asyncapi.Linker.Chain.{Reaches, direct, via, next}
use go_asyncapi.Linker.Progress.{Inv, open_work-le, resolve_promises-Inv, Ensures-ne}
use go_asyncapi.Linker.Fixpoint.{loop-Settled, settled_exact}

-- An artifact that is a promise was compiled from the same document as the promise.
abbrev pub InDocument : (ℕ → Bytes) → List (Bytes × ℕ) → Bytes → Artifact → Type 0
InDocument home work doc (plain n ptr) = Unit
InDocument home work doc (object_promise q ptr) = (home q ≡ doc) × Has (home q, q) work
InDocument home work doc (list_promise q ptr) = Unit

-- Each round goes over promises of the work under their documents, and over all of them.
abbrev pub IsSchedule : (ℕ → Bytes) → List (Bytes × ℕ) → (ℕ → List (Bytes × ℕ)) → Type 0
IsSchedule home work orders =
    (r : ℕ)
    → All (λ w. (home w.1 ≡ w.0) × Has (home w.1, w.1) work) (orders r)
      × ((w : Bytes × ℕ) → Has w work → Has w (orders r))

abbrev pub unassigned : Bindings
unassigned p = none

All-keep : {A : Type 0} (P : A → Type 0) (t : A → Bool) (xs : List A) → All P xs → All P (keep t xs)
All-keep P t [] h = tt
All-keep P t (x ∷ xs) (hx, hxs) = elim (Bool-cases (t x)) [
  | inl p ↦ rw p (hx, All-keep P t xs hxs)
  | inr p ↦ rw p (All-keep P t xs hxs)
]

single_target-another :
    (home : ℕ → Bytes) (work : List (Bytes × ℕ)) (l : List Artifact) (target : Bytes) (q : ℕ)
    (doc : Bytes)
    → single_target (found l target) ≡ another q doc
    → All (InDocument home work target) l
    → (home q ≡ doc) × Has (home q, q) work
unfolding single_target
single_target-another home work [] target q doc h a = cc
single_target-another home work (x ∷ y ∷ l) target q doc h a = cc
single_target-another home work (plain n ptr ∷ []) target q doc h a = cc
single_target-another home work (list_promise n ptr ∷ []) target q doc h a = cc
single_target-another home work (object_promise n ptr ∷ []) target q doc h a =
    let e : n ≡ q = cc h in
    let f : target ≡ doc = cc h in
    (ap home (sym e) ∙ a.0.0 ∙ f, subst (λ x. Has (home x, x) work) e a.0.1)

module _ (net : UrlPackage) (info : ℕ → PromiseInfo) (sources : List (Bytes × ObjectSource))
    (home : ℕ → Bytes) (work : List (Bytes × ℕ))
    (registered : (doc : Bytes) (src : ObjectSource)
      → lookup doc sources ≡ some src
      → All (InDocument home work doc) src.artifacts) where
  looked_up :
      (p q : ℕ) (target doc : Bytes) (r : JsonPointer) (o : Option ObjectSource)
      → lookup target sources ≡ o
      → single_target (elim o [
        | none ↦ no_document
        | some src ↦ found (keep (callback net info sources p r) src.artifacts) target
      ])
        ≡ another q doc
      → (home q ≡ doc) × Has (home q, q) work
  looked_up p q target doc r none e h = unfold single_target in cc h
  looked_up p q target doc r (some src) e h = single_target-another home work _ target q doc h (
      All-keep (InDocument home work target) (callback net info sources p r) src.artifacts
        (registered target src e))

  parsed :
      (p q : ℕ) (doc target : Bytes) (o : Option JsonPointer)
      → parse net (info p).ref ≡ o
      → next net info sources p doc ≡ another q target
      → (home q ≡ target) × Has (home q, q) work
  unfolding next_target search_target single_target
  parsed p q doc target none e h = cc (rw (e, search_target, single_target) at h)
  parsed p q doc target (some r) e h =
      looked_up p q (if location net r == [] then doc else location net r) target r _ refl
        (rw (e, search_target) at h)

  next_registered :
      (p q : ℕ) (doc target : Bytes)
      → next net info sources p doc ≡ another q target
      → (home q ≡ target) × Has (home q, q) work
  next_registered p q doc target h = parsed p q doc target _ refl h

  module _ (rounds fuel : ℕ) (orders : ℕ → List (Bytes × ℕ))
      (schedule : IsSchedule home work orders) (enough : length work ≤ fuel) where
    start :
        Inv net info sources home
          (λ p q doc target h. (next_registered p q doc target h).0)
          work
          (length work)
          unassigned
    start = record {
      steps = 0;
      sound = λ p a h. cc;
      room = omega (arith, open_work-le unassigned work);
    }

    -- With more rounds than promises and fuel for each promise, ResolvePromises does not run out of
    -- either, whatever order each round takes: the loop and the recursion of resolvePromise end.
    pub resolve_promises-ends :
        length work < rounds
        → resolve_promises net info sources rounds (suc fuel) orders 0 unassigned ≢ out_of_fuel
    resolve_promises-ends few = Ensures-ne _ _ (
        resolve_promises-Inv net info sources home
          (λ p q doc target h. (next_registered p q doc target h).0) work (length work) rounds fuel
          orders 0 unassigned (omega arith) (omega (arith, open_work-le unassigned work))
          (λ r. (schedule r).0) start)

    -- If it returns, a promise is assigned exactly if a chain of references leads from it to an
    -- artifact that is no promise, and then to that artifact.
    pub resolve_promises-exact :
        (st : Bindings)
        → resolve_promises net info sources rounds (suc fuel) orders 0 unassigned ≡ returned st
        → (p : ℕ) (a : Artifact) → Has (home p, p) work
        → (st p ≡ some a) ↔ ((k : ℕ) × Reaches net info sources k p (home p) a)
    resolve_promises-exact st h p a m =
        let (r, settled, inv) =
          loop-Settled net info sources home
            (λ p q doc target h. (next_registered p q doc target h).0) work
            (λ p q doc target h. (next_registered p q doc target h).1) fuel (length work)
            (omega arith) rounds orders 0 unassigned st (λ r. (schedule r).0) start h in
        settled_exact net info sources home
          (λ p q doc target h. (next_registered p q doc target h).0) work
          (λ p q doc target h. (next_registered p q doc target h).1) fuel (length work)
          (omega arith) st inv (λ q n. All_at _ (orders r) settled ((schedule r).1 (home q, q) n)) p
          a m

  no_end_of_loop :
      (P : ℕ → Bytes → Type 0)
      → ((p : ℕ) (doc : Bytes)
          → P p doc
          → (q : ℕ) × (target : Bytes) × (next net info sources p doc ≡ another q target)
            × P q target)
      → {k p : ℕ} {doc : Bytes} {a : Artifact} → Reaches net info sources k p doc a
      → ¬ P p doc
  no_end_of_loop P closed (direct {p = p} {doc = doc} e) h =
      let (q, target, f, h') = closed p doc h in cc (e, f)
  no_end_of_loop P closed (via {p = p} {q = q} {doc = doc} {target = target} e r) h =
      let (q', target', f, h') = closed p doc h in
      let eq : q' ≡ q = cc (e, f) in
      let et : target' ≡ target = cc (e, f) in
      no_end_of_loop P closed r (subst (λ d. P q d) et (subst (λ x. P x target') eq h'))

  -- A set of promises each of which refers to another of the set, such as a $ref loop, stays
  -- unassigned in whatever ResolvePromises returns.
  pub loop_stays_unassigned :
      (rounds fuel : ℕ) (orders : ℕ → List (Bytes × ℕ)) (st : Bindings) (P : ℕ → Bytes → Type 0)
      → IsSchedule home work orders
      → length work ≤ fuel
      → resolve_promises net info sources rounds (suc fuel) orders 0 unassigned ≡ returned st
      → ((p : ℕ) (doc : Bytes)
          → P p doc
          → (q : ℕ) × (target : Bytes) × (next net info sources p doc ≡ another q target)
            × P q target)
      → (p : ℕ) → Has (home p, p) work
      → P p (home p)
      → st p ≡ none
  loop_stays_unassigned rounds fuel orders st P schedule enough h closed p m hp =
      elim (Option-cases (st p)) [
        | inl free ↦ free
        | inr (a, taken) ↦
            let (k, r) =
              (resolve_promises-exact rounds fuel orders schedule enough st h p a m).0 taken in
            absurd (no_end_of_loop P closed r hp)
      ]

  -- Two runs that return assign the same, though each took the documents in its own order.
  pub resolve_promises-order_irrelevant :
      (rounds rounds' fuel fuel' : ℕ) (orders orders' : ℕ → List (Bytes × ℕ)) (st st' : Bindings)
      → IsSchedule home work orders
      → IsSchedule home work orders'
      → length work ≤ fuel
      → length work ≤ fuel'
      → resolve_promises net info sources rounds (suc fuel) orders 0 unassigned ≡ returned st
      → resolve_promises net info sources rounds' (suc fuel') orders' 0 unassigned ≡ returned st'
      → (p : ℕ) → Has (home p, p) work
      → st p ≡ st' p
  resolve_promises-order_irrelevant rounds rounds' fuel fuel' orders orders' st st' s s' n n' h h' p
        m =
      let first = resolve_promises-exact rounds fuel orders s n st h p in
      let second = resolve_promises-exact rounds' fuel' orders' s' n' st' h' p in
      elim (Option-cases (st p)) [
        | inr (a, taken) ↦ taken ∙ sym ((second a m).1 ((first a m).0 taken))
        | inl free ↦ elim (Option-cases (st' p)) [
          | inl free' ↦ free ∙ sym free'
          | inr (a, taken) ↦ (first a m).1 ((second a m).0 taken) ∙ sym taken
        ]
      ]
