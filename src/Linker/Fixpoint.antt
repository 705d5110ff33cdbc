-- ===== src/Linker/Fixpoint.antt =====
-- What ResolvePromises of internal/linker/linker.go leaves behind: exactly the promises that lead to
-- an artifact are assigned, each to that artifact, whatever the order of the documents.
use mathlib.Core.Path.{subst}
use go_asyncapi.Common.{
  ℕ, zero, suc, ◌+◌, ◌≤◌, ◌<◌, ◌≡◌, ◌≢◌, ◌⊎◌, ◌↔◌, refl, ◌&&◌, Option, none, some, List, [], ◌∷◌,
  Bytes, arith, ap, sym, ◌∙◌, Option-cases, Bool-cases, inl, inr, eqb, All, Has,
}
use go_asyncapi.Jsonpointer.{UrlPackage}
use go_asyncapi.Linker.{
  Artifact, PromiseInfo, ObjectSource, Bindings, Outcome, returned, panicked, out_of_fuel, ◌>>=◌,
  another, known_origin, assign, visit, round, resolve_promises,
}
use go_asyncapi.Linker.Chain.{
  Reaches, direct, via, next, resolve, Reaches-unique, resolve_of_Reaches, ChainBound, chain_same,
}
use go_asyncapi.Linker.Progress.{
  Ensures_at, Inv, Advances, AtHome, visit-AtHome-Advances, round-Advances,
}

>>=-eq-returned :
    {A B : Type 0} (m : Outcome A) (f : A → Outcome B) {b : B}
    → (m >>= f) ≡ returned b
    → (a : A) × (m ≡ returned a) × (f a ≡ returned b)
>>=-eq-returned (returned a) f h = (a, refl, h)
>>=-eq-returned panicked f h = cc
>>=-eq-returned out_of_fuel f h = cc

module _ (net : UrlPackage) (info : ℕ → PromiseInfo) (sources : List (Bytes × ObjectSource))
    (home : ℕ → Bytes)
    (home_next : (p q : ℕ) (doc target : Bytes)
      → next net info sources p doc ≡ another q target
      → home q ≡ target)
    (work : List (Bytes × ℕ))
    (next_work : (p q : ℕ) (doc target : Bytes)
      → next net info sources p doc ≡ another q target
      → Has (home q, q) work)
    (fuel : ℕ) where
  -- Assigned, or waiting for another promise or for a document.
  abbrev pub Settled : Bindings → Bytes × ℕ → Type 0
  Settled st w = (st w.1 ≢ none) ⊎ (resolve net info sources (suc fuel) st w.1 w.0 ≡ returned none)

  assign-Settled :
      (p n m : ℕ) (st st' : Bindings) (o : Outcome (Option Artifact))
      → (o >>= assign net info sources p (st, n)) ≡ returned (st', m)
      → m ≡ n
      → o ≡ returned none
  assign-Settled p n m st st' (returned none) h e = refl
  assign-Settled p n m st st' (returned (some a)) h e =
      elim (Bool-cases (known_origin (info p).origin && (info p).accepts a)) [
        | inl taken ↦
            let counted : n + 1 ≡ m = cc (rw taken at h) in absurd (omega (arith, counted))
        | inr untaken ↦ cc (rw untaken at h)
      ]
  assign-Settled p n m st st' panicked h e = cc
  assign-Settled p n m st st' out_of_fuel h e = cc

  visit-Settled :
      (doc : Bytes) (p n : ℕ) (st : Bindings) (t : Bindings × ℕ)
      → visit net info sources (suc fuel) (doc, p) (st, n) ≡ returned t
      → t.1 ≡ n
      → Settled st (doc, p)
  unfolding visit
  visit-Settled doc p n st (st', m) h e = elim (Option-cases (st p)) [
    | inl free ↦ inr (assign-Settled p n m st st' _ (rw free at h) e)
    | inr (b, taken) ↦ inl (λ z. cc (z, taken))
  ]

  module _ (bound : ℕ) (enough : bound < suc fuel) where
    -- A round that assigned nothing found every promise of it settled.
    round-Settled :
        (ws : List (Bytes × ℕ)) (s s' : Bindings × ℕ)
        → All (AtHome net info sources home home_next work bound) ws
        → Inv net info sources home home_next work bound s.0
        → round net info sources (suc fuel) ws s ≡ returned s'
        → s'.1 ≡ s.1
        → All (Settled s.0) ws
    unfolding round
    round-Settled [] s s' h i e z = tt
    round-Settled ((doc, p) ∷ ws) (st, n) s' (hw, h) i e z =
        let (t, first, later) =
          >>=-eq-returned (visit net info sources (suc fuel) (doc, p) (st, n))
            (round net info sources (suc fuel) ws) e in
        let a : Advances net info sources home home_next work bound (st, n) t =
          Ensures_at _ _ t
            (visit-AtHome-Advances net info sources home home_next work bound fuel (doc, p) (st, n)
              enough hw i)
            first in
        let b : Advances net info sources home home_next work bound t s' =
          Ensures_at _ _ s'
            (round-Advances net info sources home home_next work bound fuel ws t enough h a.inv)
            later in
        let still : t.1 ≡ n = omega (arith, a.grows, b.grows, z) in
        (
          visit-Settled doc p n st t first still,
          subst (λ u. All (Settled u) ws) (a.same still)
              (round-Settled ws t s' h a.inv later (omega (arith, a.grows, b.grows, z))),
        )

    -- When the loop returns, some round found all its promises settled.
    pub loop-Settled :
        (rounds : ℕ) (orders : ℕ → List (Bytes × ℕ)) (j : ℕ) (st st' : Bindings)
        → ((r : ℕ) → All (AtHome net info sources home home_next work bound) (orders r))
        → Inv net info sources home home_next work bound st
        → resolve_promises net info sources rounds (suc fuel) orders j st ≡ returned st'
        → (r : ℕ) × All (Settled st') (orders r)
          × Inv net info sources home home_next work bound st'
    unfolding resolve_promises
    loop-Settled zero orders j st st' h i e = cc e
    loop-Settled (suc rounds) orders j st st' h i e =
        let (s, first, later) =
          >>=-eq-returned (round net info sources (suc fuel) (orders j) (st, 0)) _ e in
        let a : Advances net info sources home home_next work bound (st, 0) s =
          Ensures_at _ _ s
            (round-Advances net info sources home home_next work bound fuel (orders j) (st, 0)
              enough (h j) i)
            first in
        elim (Bool-cases (eqb s.1 0)) [
          | inl done ↦
              let same : st ≡ st' = sym (a.same (ground arith)) ∙ cc (rw done at later) in
              (
                j,
                subst (λ u. All (Settled u) (orders j)) same
                    (round-Settled (orders j) (st, 0) s (h j) i first (ground arith)),
                subst (λ u. Inv net info sources home home_next work bound u) same i,
              )
          | inr more ↦ loop-Settled rounds orders (suc j) s.0 st' h a.inv (rw more at later)
        ]

    module _ (st : Bindings) (inv : Inv net info sources home home_next work bound st)
        (settled : (p : ℕ) → Has (home p, p) work → Settled st (home p, p)) where
      not_waiting :
          {j p : ℕ} {doc : Bytes} {b : Artifact} (x : Reaches net info sources j p doc b)
          → home p ≡ doc
          → Has (home p, p) work
          → j ≤ suc fuel
          → ChainBound net info sources st x
          → st p ≢ none
      not_waiting {p = p} x hd m le c z = elim (settled p m) [
        | inl taken ↦ taken z
        | inr waits ↦ cc (
          subst (λ d. resolve net info sources (suc fuel) st p d ≡ returned none) hd waits,
          resolve_of_Reaches net info sources (suc fuel) st x le c,
        )
      ]

      behind_settled :
          {k p q : ℕ} {doc target : Bytes} {a : Artifact} (o : Option Artifact)
          (e : next net info sources p doc ≡ another q target)
          (r : Reaches net info sources k q target a)
          → st q ≡ o
          → home p ≡ doc
          → Has (home p, p) work
          → (st q ≢ none) × ChainBound net info sources st r
          → st p ≢ none
      behind_settled none e r h hd m c = absurd (c.0 h)
      behind_settled {p = p} {q} {doc} {target} (some b) e r h hd m c =
          let s : Reaches net info sources inv.steps q target b =
            subst (λ d. Reaches net info sources inv.steps q d b) (home_next p q doc target e)
              (inv.sound q b h) in
          not_waiting (via e s) hd m (omega (arith, inv.room))
            (c.0, chain_same net info sources st r s refl refl c.1)

      chain_settled :
          {k p : ℕ} {doc : Bytes} {a : Artifact} (r : Reaches net info sources k p doc a)
          → home p ≡ doc
          → Has (home p, p) work
          → (st p ≢ none) × ChainBound net info sources st r
      chain_settled (direct {p = p} {doc = doc} e) hd m =
          (not_waiting {j = 1} (direct e) hd m (omega arith) tt, tt)
      chain_settled (via {p = p} {q = q} {doc = doc} {target = target} e r) hd m =
          let c = chain_settled r (home_next p q doc target e) (next_work p q doc target e) in
          (behind_settled (st q) e r refl hd m c, c)

      -- Whatever leads to an artifact is assigned to it.
      pub settled_exact :
          (p : ℕ) (a : Artifact)
          → Has (home p, p) work
          → (st p ≡ some a) ↔ ((k : ℕ) × Reaches net info sources k p (home p) a)
      settled_exact p a m = (
        λ h. (inv.steps, inv.sound p a h),
        λ (k, r). elim (Option-cases (st p)) [
          | inl free ↦ absurd ((chain_settled r refl m).0 free)
          | inr (b, taken) ↦
              taken ∙ ap some (Reaches-unique net info sources (inv.sound p b taken) r)
        ],
      )
