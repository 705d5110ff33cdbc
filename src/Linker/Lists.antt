-- ===== src/Linker/Lists.antt =====
-- ResolveListPromises of internal/linker/linker.go. A list promise is known by a number, and
-- `find_callback` is what its FindCallback returns; `artifacts` are those of all documents in the
-- order of the documents' URLs, and `work` the list promises in the order of the loops.
use go_asyncapi.Common.{
  ℕ, zero, suc, ◌+◌, ◌≡◌, ◌⊎◌, refl, Bool, true, false, Option, none, some, List, [], ◌∷◌, eqb,
  if◌then◌else◌, keep, All, arith, inl, inr, Bool-cases, ap, ◌∙◌,
}
use go_asyncapi.Linker.{Artifact, Outcome, returned, panicked, out_of_fuel, ◌>>=◌}

abbrev pub ListBindings : Type 0
ListBindings = ℕ → Option (List Artifact)

abbrev pub assign_list : ListBindings → ℕ → List Artifact → ListBindings
assign_list st p found q = if eqb p q then some found else st q

module _ (find_callback : ℕ → Option (Artifact → Bool)) (artifacts : List Artifact) where
  -- resolveListPromise panics on a promise with no callback.
  unfoldable pub resolve_list_promise : ℕ → Outcome (List Artifact)
  resolve_list_promise p = elim (find_callback p) [
    | none ↦ panicked
    | some cb ↦ returned (keep cb artifacts)
  ]

  unfoldable pub visit_list : ℕ → ListBindings × ℕ → Outcome (ListBindings × ℕ)
  unfolding resolve_list_promise
  visit_list p (st, n) = elim (st p) [
    | some _ ↦ returned (st, n)
    | none ↦ resolve_list_promise p >>= λ found. returned (assign_list st p found, n + 1)
  ]

  unfoldable pub list_round : List ℕ → ListBindings × ℕ → Outcome (ListBindings × ℕ)
  list_round [] s = returned s
  list_round (p ∷ ps) s = visit_list p s >>= list_round ps

  -- Rounds until one assigns nothing.
  unfoldable pub resolve_list_promises : ℕ → List ℕ → ListBindings → Outcome ListBindings
  resolve_list_promises zero work st = out_of_fuel
  resolve_list_promises (suc fuel) work st = list_round work (st, 0) >>= λ s. elim (eqb s.1 0) [
    | true ↦ returned s.0
    | false ↦ resolve_list_promises fuel work s.0
  ]

  module _ (select : ℕ → Artifact → Bool)
      (has_callback : (p : ℕ) → find_callback p ≡ some (select p)) where
    abbrev Done : ListBindings → ℕ → Type 0
    Done st p = st p ≡ some (keep (select p) artifacts)

    abbrev Inv : ListBindings → Type 0
    Inv st = (q : ℕ) → (st q ≡ none) ⊎ Done st q

    visit_new :
        (p : ℕ) (st : ListBindings) (n : ℕ)
        → st p ≡ none
        → visit_list p (st, n) ≡ returned (assign_list st p (keep (select p) artifacts), n + 1)
    unfolding visit_list resolve_list_promise
    visit_new p st n h = rw (h, has_callback p, resolve_list_promise) refl

    visit_old :
        (p : ℕ) (st : ListBindings) (n : ℕ) → Done st p → visit_list p (st, n) ≡ returned (st, n)
    unfolding visit_list
    visit_old p st n h = rw h refl

    same_value :
        (p q : ℕ) (st : ListBindings)
        → eqb p q ≡ true
        → Done (assign_list st p (keep (select p) artifacts)) q
    same_value p q st e =
        let at : p ≡ q = ground (arith, e) in rw e (ap (λ x. some (keep (select x) artifacts)) at)

    Inv-assign :
        (p : ℕ) (st : ListBindings) → Inv st → Inv (assign_list st p (keep (select p) artifacts))
    Inv-assign p st inv q = elim (Bool-cases (eqb p q)) [
      | inl e ↦ inr (same_value p q st e)
      | inr e ↦ rw e (inv q)
    ]

    Done-assign :
        (p q : ℕ) (st : ListBindings)
        → Done st q
        → Done (assign_list st p (keep (select p) artifacts)) q
    Done-assign p q st d = elim (Bool-cases (eqb p q)) [
      | inl e ↦ same_value p q st e
      | inr e ↦ rw e d
    ]

    list_round-Done :
        (ws : List ℕ) (st : ListBindings) (n : ℕ)
        → Inv st
        → (st' : ListBindings) × (n' : ℕ) × (list_round ws (st, n) ≡ returned (st', n'))
          × ((q : ℕ) → Done st q → Done st' q)
          × All (Done st') ws
    unfolding list_round
    list_round-Done [] st n inv = (st, n, refl, λ q d. d, tt)
    list_round-Done (p ∷ ws) st n inv = elim (inv p) [
      | inl free ↦
          let st1 = assign_list st p (keep (select p) artifacts) in
          let (st', n', e, keeps, all) = list_round-Done ws st1 (n + 1) (Inv-assign p st inv) in
          (
            st',
            n',
            ap (λ o. o >>= list_round ws) (visit_new p st n free) ∙ e,
            λ q d. keeps q (Done-assign p q st d),
            (keeps p (same_value p p st (ground arith)), all),
          )
      | inr d ↦
          let (st', n', e, keeps, all) = list_round-Done ws st n inv in
          (st', n', ap (λ o. o >>= list_round ws) (visit_old p st n d) ∙ e, keeps, (keeps p d, all))
    ]

    list_round-idle :
        (ws : List ℕ) (st : ListBindings)
        → All (Done st) ws
        → list_round ws (st, 0) ≡ returned (st, 0)
    unfolding list_round
    list_round-idle [] st h = refl
    list_round-idle (p ∷ ws) st (d, ds) =
        ap (λ o. o >>= list_round ws) (visit_old p st 0 d) ∙ list_round-idle ws st ds

    second_round :
        (fuel : ℕ) (work : List ℕ) (st : ListBindings) (n : ℕ)
        → All (Done st) work
        → elim (eqb n 0) [ true ↦ returned st | false ↦ resolve_list_promises (suc fuel) work st ]
          ≡ returned st
    unfolding resolve_list_promises
    second_round fuel work st n all = elim (Bool-cases (eqb n 0)) [
      | inl z ↦ rw z refl
      | inr z ↦ rw z (rw (list_round-idle work st all) refl)
    ]

    -- If every list promise has a callback, ResolveListPromises ends after two rounds at most, and
    -- assigns each list promise exactly the artifacts that its callback selects, in their order.
    pub resolve_list_promises-exact :
        (fuel : ℕ) (work : List ℕ)
        → (st : ListBindings) × (resolve_list_promises (suc (suc fuel)) work (λ p. none)
            ≡ returned st)
          × All (λ p. st p ≡ some (keep (select p) artifacts)) work
    unfolding resolve_list_promises
    resolve_list_promises-exact fuel work =
        let (st, n, e, keeps, all) = list_round-Done work (λ p. none) 0 (λ q. inl refl) in
        (
          st,
          ap
                (λ o. o >>= λ s. elim (eqb s.1 0) [
                  | true ↦ returned s.0
                  | false ↦ resolve_list_promises (suc fuel) work s.0
                ])
                e
              ∙ second_round fuel work st n all,
          all,
        )
