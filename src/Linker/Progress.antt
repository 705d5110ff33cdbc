-- ===== src/Linker/Progress.antt =====
-- ResolvePromises of internal/linker/linker.go ends: a round that goes on has assigned a promise,
-- chains of assigned promises are no longer than the promises assigned, and so neither the loop nor
-- the recursion of resolvePromise runs out of fuel that exceeds the number of promises.
use go_asyncapi.Common.{
  ℕ, zero, suc, ◌+◌, ◌≤◌, ◌<◌, ◌≡◌, ◌≢◌, refl, Bool, true, false, ◌&&◌, Option, none, some, List,
  [], ◌∷◌, Bytes, arith, ap, ◌∙◌, length-keep-le, Option-cases, Has, Bool-cases, inl, inr, keep,
  length, eqb, All,
}
use mathlib.Core.Path.{subst}
use go_asyncapi.Jsonpointer.{UrlPackage}
use go_asyncapi.Linker.{
  Artifact, PromiseInfo, ObjectSource, Bindings, bind, Outcome, returned, panicked, out_of_fuel,
  ◌>>=◌, Target, refused, absent, final, another, resolve_promise, known_origin, assign, visit,
  round, resolve_promises,
}
use go_asyncapi.Linker.Chain.{
  Reaches, direct, via, next, resolve, Reaches-suc, Reaches-unique, resolve-Reaches,
  resolve-ne-out_of_fuel,
}

-- The call does not run out of fuel, and what it returns has the property.
abbrev pub Ensures : {A : Type 0} → (A → Type 0) → Outcome A → Type 0
Ensures P (returned a) = P a
Ensures P panicked = Unit
Ensures P out_of_fuel = ⊥

pub Ensures-bind :
    {A B : Type 0} (P : A → Type 0) (Q : B → Type 0) (m : Outcome A) (f : A → Outcome B)
    → Ensures P m
    → ((a : A) → P a → Ensures Q (f a))
    → Ensures Q (m >>= f)
Ensures-bind P Q (returned a) f h k = k a h
Ensures-bind P Q panicked f h k = tt
Ensures-bind P Q out_of_fuel f h k = h

pub Ensures-imp :
    {A : Type 0} (P Q : A → Type 0) (m : Outcome A)
    → Ensures P m
    → ((a : A) → P a → Q a)
    → Ensures Q m
Ensures-imp P Q (returned a) h k = k a h
Ensures-imp P Q panicked h k = tt
Ensures-imp P Q out_of_fuel h k = h

pub Ensures-ne : {A : Type 0} (P : A → Type 0) (m : Outcome A) → Ensures P m → m ≢ out_of_fuel
Ensures-ne P (returned a) h e = cc
Ensures-ne P panicked h e = cc
Ensures-ne P out_of_fuel h e = h

pub Ensures_at :
    {A : Type 0} (P : A → Type 0) (m : Outcome A) (a : A) → Ensures P m → m ≡ returned a → P a
Ensures_at P (returned b) a h e = subst P (cc) h
Ensures_at P panicked a h e = cc
Ensures_at P out_of_fuel a h e = absurd h

-- The promises of the list that no artifact is bound to.
abbrev pub unbound : Bindings → Bytes × ℕ → Bool
unbound st w = elim (st w.1) [ none ↦ true | some a ↦ false ]

pub open_work : Bindings → List (Bytes × ℕ) → ℕ
open_work st ws = length (keep (unbound st) ws)

pub open_work-le : (st : Bindings) (ws : List (Bytes × ℕ)) → open_work st ws ≤ length ws
unfolding open_work
open_work-le st ws = length-keep-le (unbound st) ws

open_work-bind-le :
    (st : Bindings) (p : ℕ) (a : Artifact) (ws : List (Bytes × ℕ))
    → open_work (bind st p a) ws ≤ open_work st ws
unfolding open_work
open_work-bind-le st p a [] = omega arith
open_work-bind-le st p a (w ∷ ws) = ground (arith, open_work-bind-le st p a ws)

open_work-bind-lt :
    (st : Bindings) (doc : Bytes) (p : ℕ) (a : Artifact) (ws : List (Bytes × ℕ))
    → st p ≡ none
    → Has (doc, p) ws
    → open_work (bind st p a) ws < open_work st ws
unfolding open_work
open_work-bind-lt st doc p a [] h m = absurd m
open_work-bind-lt st doc p a (w ∷ ws) h (inl e) = rw e (ground (arith, open_work-bind-le st p a ws))
open_work-bind-lt st doc p a (w ∷ ws) h (inr m) =
    ground (arith, open_work-bind-lt st doc p a ws h m)

module _ (net : UrlPackage) (info : ℕ → PromiseInfo) (sources : List (Bytes × ObjectSource))
    (home : ℕ → Bytes)
    (home_next : (p q : ℕ) (doc target : Bytes)
      → next net info sources p doc ≡ another q target
      → home q ≡ target) where
  -- Every assigned promise leads to its artifact in so many steps.
  abbrev pub Sound : ℕ → Bindings → Type 0
  Sound k st = (p : ℕ) (a : Artifact) → st p ≡ some a → Reaches net info sources k p (home p) a

  rank_step :
      (k fuel : ℕ) (st : Bindings) (p : ℕ) (doc : Bytes) (a : Artifact) (t : Target)
      → Sound k st
      → next net info sources p doc ≡ t
      → resolve net info sources (suc fuel) st p doc ≡ returned (some a)
      → Reaches net info sources (suc k) p doc a
  unfolding resolve_promise
  rank_step k fuel st p doc a refused s e h = cc (rw (e, resolve_promise) at h)
  rank_step k fuel st p doc a absent s e h = cc (rw (e, resolve_promise) at h)
  rank_step k fuel st p doc a (final b) s e h =
      direct (e ∙ ap final (cc (rw (e, resolve_promise) at h)))
  rank_step k fuel st p doc a (another q target) s e h = elim (Option-cases (st q)) [
    | inl free ↦ cc (rw (e, free, resolve_promise) at h)
    | inr (b, bound) ↦
        let r : Reaches net info sources k q target b =
          subst (λ d. Reaches net info sources k q d b) (home_next p q doc target e)
            (s q b bound) in
        let r' : Reaches net info sources fuel q target a =
          resolve-Reaches net info sources fuel st q target a
            (rw (e, bound, resolve_promise) at h) in
        via e (
          subst (λ c. Reaches net info sources k q target c) (Reaches-unique net info sources r r')
            r)
  ]

  total_step :
      (k fuel : ℕ) (st : Bindings) (p : ℕ) (doc : Bytes) (t : Target)
      → Sound k st
      → k ≤ fuel
      → next net info sources p doc ≡ t
      → resolve net info sources (suc fuel) st p doc ≢ out_of_fuel
  unfolding resolve_promise
  total_step k fuel st p doc refused s h e x = cc (rw (e, resolve_promise) at x)
  total_step k fuel st p doc absent s h e x = cc (rw (e, resolve_promise) at x)
  total_step k fuel st p doc (final b) s h e x = cc (rw (e, resolve_promise) at x)
  total_step k fuel st p doc (another q target) s h e x = elim (Option-cases (st q)) [
    | inl free ↦ cc (rw (e, free, resolve_promise) at x)
    | inr (b, bound) ↦
        let r : Reaches net info sources k q target b =
          subst (λ d. Reaches net info sources k q d b) (home_next p q doc target e)
            (s q b bound) in
        resolve-ne-out_of_fuel net info sources fuel st r h (rw (e, bound, resolve_promise) at x)
  ]

  module _ (work : List (Bytes × ℕ)) (bound : ℕ) where
    -- After so many assignments, with the rest of the work still open.
    pub record Inv (st : Bindings) : Type 0 where
      pub steps : ℕ
      pub sound : Sound steps st
      pub room : steps + open_work st work ≤ bound

    -- A later state of the loop.
    pub record Advances (s s' : Bindings × ℕ) : Type 0 where
      pub inv : Inv s'.0
      pub grows : s.1 ≤ s'.1
      pub shrinks : s'.1 + open_work s'.0 work ≤ s.1 + open_work s.0 work
      pub same : s'.1 ≡ s.1 → s'.0 ≡ s.0

    Advances-refl : (s : Bindings × ℕ) → Inv s.0 → Advances s s
    Advances-refl s i = record {
      inv = i;
      grows = omega arith;
      shrinks = omega arith;
      same = λ h. refl;
    }

    Advances-trans : (s t u : Bindings × ℕ) → Advances s t → Advances t u → Advances s u
    Advances-trans s t u a b = record {
      inv = b.inv;
      grows = omega (arith, a.grows, b.grows);
      shrinks = omega (arith, a.shrinks, b.shrinks);
      same =
          λ h. b.same (omega (arith, a.grows, b.grows)) ∙ a.same (omega (arith, a.grows, b.grows));
    }

    bind-Sound :
        (k : ℕ) (st : Bindings) (p : ℕ) (a : Artifact)
        → Sound k st
        → Reaches net info sources (suc k) p (home p) a
        → Sound (suc k) (bind st p a)
    bind-Sound k st p a s r q b h = elim (Bool-cases (eqb p q)) [
      | inl same ↦
          let e : p ≡ q = ground arith in
          let f : a ≡ b = cc (rw same at h) in
          subst (λ c. Reaches net info sources (suc k) q (home q) c) f
            (subst (λ x. Reaches net info sources (suc k) x (home x) a) e r)
      | inr other ↦ Reaches-suc net info sources (s q b (rw other at h))
    ]

    bind-Advances :
        (st : Bindings) (n p : ℕ) (a : Artifact) (i : Inv st)
        → st p ≡ none
        → Has (home p, p) work
        → Reaches net info sources (suc i.steps) p (home p) a
        → Advances (st, n) (bind st p a, n + 1)
    bind-Advances st n p a i free m r = record {
      inv = record {
        steps = suc i.steps;
        sound = bind-Sound i.steps st p a i.sound r;
        room = omega (arith, i.room, open_work-bind-lt st (home p) p a work free m);
      };
      grows = omega arith;
      shrinks = omega (arith, open_work-bind-lt st (home p) p a work free m);
      same = λ h. absurd (omega arith);
    }

    assign-Advances :
        (fuel : ℕ) (p : ℕ) (st : Bindings) (n : ℕ) (o : Outcome (Option Artifact))
        → bound < suc fuel
        → Has (home p, p) work
        → Inv st
        → st p ≡ none
        → resolve net info sources (suc fuel) st p (home p) ≡ o
        → Ensures (Advances (st, n)) (o >>= assign net info sources p (st, n))
    assign-Advances fuel p st n (returned none) lt m i free e = Advances-refl (st, n) i
    assign-Advances fuel p st n (returned (some a)) lt m i free e =
        elim (Bool-cases (known_origin (info p).origin && (info p).accepts a)) [
          | inl taken ↦ rw taken (
              bind-Advances st n p a i free m (
                rank_step i.steps fuel st p (home p) a (next net info sources p (home p)) i.sound
                  refl e))
          | inr untaken ↦ rw untaken tt
        ]
    assign-Advances fuel p st n panicked lt m i free e = tt
    assign-Advances fuel p st n out_of_fuel lt m i free e =
        total_step i.steps fuel st p (home p) (next net info sources p (home p)) i.sound
          (omega (arith, i.room)) refl e

    visit-Advances :
        (fuel : ℕ) (p : ℕ) (st : Bindings) (n : ℕ)
        → bound < suc fuel
        → Has (home p, p) work
        → Inv st
        → Ensures (Advances (st, n)) (visit net info sources (suc fuel) (home p, p) (st, n))
    visit-Advances fuel p st n lt m i = elim (Option-cases (st p)) [
      | inl free ↦ unfold visit in rw free (assign-Advances fuel p st n _ lt m i free refl)
      | inr (b, taken) ↦ unfold visit in rw taken (Advances-refl (st, n) i)
    ]

    -- The promises of a round are promises of the work, under their own documents.
    abbrev pub AtHome : Bytes × ℕ → Type 0
    AtHome w = (home w.1 ≡ w.0) × Has (home w.1, w.1) work

    pub visit-AtHome-Advances :
        (fuel : ℕ) (w : Bytes × ℕ) (s : Bindings × ℕ)
        → bound < suc fuel
        → AtHome w
        → Inv s.0
        → Ensures (Advances s) (visit net info sources (suc fuel) w s)
    visit-AtHome-Advances fuel (doc, p) (st, n) lt (hd, m) i =
        subst (λ d. Ensures (Advances (st, n)) (visit net info sources (suc fuel) (d, p) (st, n)))
          hd (visit-Advances fuel p st n lt m i)

    pub round-Advances :
        (fuel : ℕ) (ws : List (Bytes × ℕ)) (s : Bindings × ℕ)
        → bound < suc fuel
        → All AtHome ws
        → Inv s.0
        → Ensures (Advances s) (round net info sources (suc fuel) ws s)
    unfolding round
    round-Advances fuel [] s lt h i = Advances-refl s i
    round-Advances fuel (w ∷ ws) s lt (hw, h) i =
        Ensures-bind (Advances s) (Advances s) _ (round net info sources (suc fuel) ws)
          (visit-AtHome-Advances fuel w s lt hw i)
          (λ t a.
            Ensures-imp (Advances t) (Advances s) _ (round-Advances fuel ws t lt h a.inv)
              (λ u b. Advances-trans s t u a b))

    -- With more rounds than open promises, and more fuel than promises, the loop returns or panics.
    pub resolve_promises-Inv :
        (rounds fuel : ℕ) (orders : ℕ → List (Bytes × ℕ)) (j : ℕ) (st : Bindings)
        → bound < suc fuel
        → open_work st work < rounds
        → ((r : ℕ) → All AtHome (orders r))
        → Inv st
        → Ensures Inv (resolve_promises net info sources rounds (suc fuel) orders j st)
    unfolding resolve_promises
    resolve_promises-Inv zero fuel orders j st lt few h i = absurd (omega arith)
    resolve_promises-Inv (suc rounds) fuel orders j st lt few h i =
        Ensures-bind (Advances (st, 0)) Inv _ _ (round-Advances fuel (orders j) (st, 0) lt (h j) i)
          λ s a. elim (Bool-cases (eqb s.1 0)) [
            | inl done ↦ rw done a.inv
            | inr more ↦ rw more (
                resolve_promises-Inv rounds fuel orders (suc j) s.0 lt (ground (arith, a.shrinks)) h
                  a.inv)
          ]
