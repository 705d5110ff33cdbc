-- ===== src/Linker/Chain.antt =====
-- The chain of promises from a promise to the artifact that it stands for, and what
-- resolvePromise of internal/linker/linker.go has to do with it.
use go_asyncapi.Common.{
  ℕ, zero, suc, ◌≤◌, ◌≡◌, ◌≢◌, refl, Option, none, some, List, Bytes, arith, ap, ◌∙◌, Option-cases,
  inl, inr,
}
use go_asyncapi.Jsonpointer.{UrlPackage}
use go_asyncapi.Linker.{
  Artifact, PromiseInfo, ObjectSource, Bindings, Outcome, returned, out_of_fuel, Target, refused,
  absent, final, another, next_target, resolve_promise,
}

module _ (net : UrlPackage) (info : ℕ → PromiseInfo) (sources : List (Bytes × ObjectSource)) where
  abbrev pub next : ℕ → Bytes → Target
  next = next_target net info sources

  abbrev pub resolve : ℕ → Bindings → ℕ → Bytes → Outcome (Option Artifact)
  resolve = resolve_promise net info sources

  -- In at most so many steps the promise, referenced from the document, leads to the artifact.
  pub data Reaches : ℕ → ℕ → Bytes → Artifact → Type 0 where
    direct : {k p : ℕ} {doc : Bytes} {a : Artifact} → next p doc ≡ final a → Reaches (suc k) p doc a
    via :
        {k p q : ℕ} {doc target : Bytes} {a : Artifact}
        → next p doc ≡ another q target
        → Reaches k q target a
        → Reaches (suc k) p doc a

  pub Reaches-suc :
      {k p : ℕ} {doc : Bytes} {a : Artifact} → Reaches k p doc a → Reaches (suc k) p doc a
  Reaches-suc (direct e) = direct e
  Reaches-suc (via e r) = via e (Reaches-suc r)

  same_end :
      {k p : ℕ} {doc : Bytes} {a : Artifact} (j p' : ℕ) (doc' : Bytes) (b : Artifact)
      → Reaches k p doc a
      → p ≡ p'
      → doc ≡ doc'
      → Reaches j p' doc' b
      → a ≡ b
  same_end j p' doc' b (direct e) hp hd (direct f) = cc
  same_end j p' doc' b (direct e) hp hd (via f s) = cc
  same_end j p' doc' b (via e r) hp hd (direct f) = cc
  same_end j p' doc' b (via e r) hp hd (via {k = i} {q = q} {target = target} f s) =
      same_end i q target b r (cc) (cc) s

  -- A promise leads to one artifact at most.
  pub Reaches-unique :
      {k j p : ℕ} {doc : Bytes} {a b : Artifact} → Reaches k p doc a → Reaches j p doc b → a ≡ b
  Reaches-unique {k} {j} {p} {doc} {a} {b} r s = same_end j p doc b r refl refl s

  sound_step :
      (fuel : ℕ) (st : Bindings) (p : ℕ) (doc : Bytes) (a : Artifact)
      → ((q : ℕ) (target : Bytes)
          → resolve fuel st q target ≡ returned (some a)
          → Reaches fuel q target a)
      → (t : Target) → next p doc ≡ t
      → resolve (suc fuel) st p doc ≡ returned (some a)
      → Reaches (suc fuel) p doc a
  unfolding resolve_promise
  sound_step fuel st p doc a ih refused e h = cc (rw (e, resolve_promise) at h)
  sound_step fuel st p doc a ih absent e h = cc (rw (e, resolve_promise) at h)
  sound_step fuel st p doc a ih (final b) e h =
      direct (e ∙ ap final (cc (rw (e, resolve_promise) at h)))
  sound_step fuel st p doc a ih (another q target) e h = elim (Option-cases (st q)) [
    | inl unbound ↦ cc (rw (e, unbound, resolve_promise) at h)
    | inr (b, bound) ↦ via e (ih q target (rw (e, bound, resolve_promise) at h))
  ]

  -- What resolvePromise returns is where the promise leads.
  pub resolve-Reaches :
      (fuel : ℕ) (st : Bindings) (p : ℕ) (doc : Bytes) (a : Artifact)
      → resolve fuel st p doc ≡ returned (some a)
      → Reaches fuel p doc a
  resolve-Reaches zero st p doc a h = unfold resolve_promise in cc h
  resolve-Reaches (suc fuel) st p doc a h =
      sound_step fuel st p doc a (λ q target. resolve-Reaches fuel st q target a) (next p doc) refl
        h

  -- The promises behind the first one are assigned.
  abbrev pub ChainBound :
      Bindings → {k p : ℕ} {doc : Bytes} {a : Artifact} → Reaches k p doc a → Type 0
  ChainBound st (direct e) = Unit
  ChainBound st (via {q = q} e r) = (st q ≢ none) × ChainBound st r

  -- The promises behind do not depend on the derivation.
  pub chain_same :
      (st : Bindings) {k p : ℕ} {doc : Bytes} {a : Artifact} {j p' : ℕ} {doc' : Bytes}
      {b : Artifact} (r : Reaches k p doc a) (s : Reaches j p' doc' b)
      → p ≡ p'
      → doc ≡ doc'
      → ChainBound st r
      → ChainBound st s
  chain_same st (direct e) (direct f) hp hd c = tt
  chain_same st (direct e) (via f s) hp hd c = cc
  chain_same st (via e r) (direct f) hp hd c = tt
  chain_same st (via {q = q} e r) (via {q = q'} f s) hp hd c =
      (λ z. c.0 (ap st (cc) ∙ z), chain_same st r s (cc) (cc) c.1)

  -- It returns where the promise leads, as soon as the promises in between are assigned.
  pub resolve_of_Reaches :
      (fuel : ℕ) (st : Bindings) {k p : ℕ} {doc : Bytes} {a : Artifact} (r : Reaches k p doc a)
      → k ≤ fuel
      → ChainBound st r
      → resolve fuel st p doc ≡ returned (some a)
  unfolding resolve_promise
  resolve_of_Reaches zero st (direct e) h c = absurd (omega arith)
  resolve_of_Reaches zero st (via e r) h c = absurd (omega arith)
  resolve_of_Reaches (suc fuel) st (direct e) h c = rw (e, resolve_promise)
  resolve_of_Reaches (suc fuel) st (via {q = q} e r) h c = elim (Option-cases (st q)) [
    | inl unbound ↦ absurd (c.0 unbound)
    | inr (b, bound) ↦
        rw (e, bound, resolve_promise) (resolve_of_Reaches fuel st r (omega arith) c.1)
  ]

  -- Nor does it run out of fuel where the fuel covers the chain.
  pub resolve-ne-out_of_fuel :
      (fuel : ℕ) (st : Bindings) {k p : ℕ} {doc : Bytes} {a : Artifact}
      → Reaches k p doc a
      → k ≤ fuel
      → resolve fuel st p doc ≢ out_of_fuel
  unfolding resolve_promise
  resolve-ne-out_of_fuel zero st (direct e) h = absurd (omega arith)
  resolve-ne-out_of_fuel zero st (via e r) h = absurd (omega arith)
  resolve-ne-out_of_fuel (suc fuel) st (direct e) h = λ x. cc (rw (e, resolve_promise) at x)
  resolve-ne-out_of_fuel (suc fuel) st (via {q = q} e r) h = elim (Option-cases (st q)) [
    | inl unbound ↦ λ x. cc (rw (e, unbound, resolve_promise) at x)
    | inr (b, bound) ↦
        λ x. resolve-ne-out_of_fuel fuel st r (omega arith) (rw (e, bound, resolve_promise) at x)
  ]
