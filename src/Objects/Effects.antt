-- ===== src/Objects/Effects.antt =====
-- Rules for what a computation on the compile context adds to it.
use mathlib.Core.Path.{subst}
use go_asyncapi.Common.{
  ◌≡◌, ◌∙◌, refl, ap, sym, Option, none, some, List, [], ◌∷◌, ◌++◌, Bytes, append_assoc, append-nil,
  ◌==◌, bytes_eq, if◌then◌else◌,
}
use go_asyncapi.Jsonpointer.{UrlPackage, JsonPointer, parse, location}
use go_asyncapi.Context.{Result, returned, failed, panicked, ObjectPromise, path_stack}
use go_asyncapi.Schema.{ListPromise}
use go_asyncapi.Schema.Parts.{Ctx}
use go_asyncapi.Schema.Promises.{Ready}
use go_asyncapi.Objects.Monad.{Build, ◌>>=◌, continue, pure, fail}

module _ (net : UrlPackage) where
  -- The documents that a promise refers to: its location, if it has one.
  abbrev pub external_to : Option JsonPointer → List JsonPointer
  external_to none = []
  external_to (some r) = if location net r == [] then [] else r ∷ []

  abbrev pub externals : List ObjectPromise → List JsonPointer
  externals [] = []
  externals (p ∷ ps) = external_to (parse net p.ref) ++ externals ps

  externals-append :
      (ps qs : List ObjectPromise) → externals (ps ++ qs) ≡ externals ps ++ externals qs
  externals-append [] qs = refl
  externals-append (p ∷ ps) qs =
      ap (λ es. external_to (parse net p.ref) ++ es) (externals-append ps qs)
      ∙ sym (append_assoc (external_to (parse net p.ref)) (externals ps) (externals qs))

  -- The context with promises and list promises added, and with the documents of these promises.
  abbrev pub extended : List ObjectPromise → List ListPromise → Ctx → Ctx
  extended ps ls c = record c {
    storage = record c.storage {
      promises = c.storage.promises ++ ps;
      list_promises = c.storage.list_promises ++ ls;
      external_refs = c.storage.external_refs ++ externals ps;
    };
  }

  -- A storage with the same artifacts and the same document.
  abbrev pub stored : List ObjectPromise → List ListPromise → List JsonPointer → Ctx → Ctx
  stored ps ls es c = record c {
    storage = record c.storage { promises = ps; list_promises = ls; external_refs = es };
  }

  pub stored-eq :
      {ps qs : List ObjectPromise} {ls ms : List ListPromise} {es fs : List JsonPointer} (c : Ctx)
      → ps ≡ qs
      → ls ≡ ms
      → es ≡ fs
      → stored ps ls es c ≡ stored qs ms fs c
  stored-eq c e f g = λ i. stored (e i) (f i) (g i) c

  pub extended-nil : (c : Ctx) → c ≡ extended [] [] c
  extended-nil c =
      stored-eq c (sym (append-nil c.storage.promises)) (sym (append-nil c.storage.list_promises))
        (sym (append-nil c.storage.external_refs))

  extended-extended :
      (ps qs : List ObjectPromise) (ls ms : List ListPromise) (c : Ctx)
      → extended qs ms (extended ps ls c) ≡ extended (ps ++ qs) (ls ++ ms) c
  extended-extended ps qs ls ms c =
      stored-eq c (append_assoc c.storage.promises ps qs)
        (append_assoc c.storage.list_promises ls ms)
        (append_assoc c.storage.external_refs (externals ps) (externals qs)
          ∙ ap (λ es. c.storage.external_refs ++ es) (sym (externals-append ps qs)))

  pub Ready-extended :
      (ps : List ObjectPromise) (ls : List ListPromise) (c : Ctx)
      → Ready c
      → Ready (extended ps ls c)
  unfolding path_stack
  Ready-extended ps ls c h = h

  module _ (Err : Type 0) where
    -- A value with a property of what was added to the context, or an error; never a panic.
    abbrev pub Outcome :
        {A : Type 0}
        → (A → List ObjectPromise → List ListPromise → Type 0)
        → Ctx
        → Result (A × Ctx)
        → Type 0
    Outcome Q c (returned (a, c1)) =
        (ps : List ObjectPromise) × (ls : List ListPromise) × (c1 ≡ extended ps ls c) × Q a ps ls
    Outcome Q c (failed message path) = Err
    Outcome Q c panicked = ⊥

    pub record Yields {A : Type 0} (Q : A → List ObjectPromise → List ListPromise → Type 0)
        (m : Build A) : Type 0 where
      pub run : (c : Ctx) → Ready c → Outcome Q c (m c)

    -- What is added is a function of the value.
    pub record Exactly {A : Type 0} (found : A → List ObjectPromise) (lists : A → List ListPromise)
        (m : Build A) : Type 0 where
      pub exact : Yields (λ a ps ls. (ps ≡ found a) × (ls ≡ lists a)) m

    lift :
        {A : Type 0} (Q : A → List ObjectPromise → List ListPromise → Type 0)
        (ps : List ObjectPromise) (ls : List ListPromise) (c : Ctx) (r : Result (A × Ctx))
        → Outcome (λ a qs ms. Q a (ps ++ qs) (ls ++ ms)) (extended ps ls c) r
        → Outcome Q c r
    lift Q ps ls c (returned (a, c2)) (qs, ms, e, q) =
        (ps ++ qs, ls ++ ms, e ∙ extended-extended ps qs ls ms c, q)
    lift Q ps ls c (failed message path) e = e
    lift Q ps ls c panicked e = e

    after :
        {A B : Type 0} (P : A → List ObjectPromise → List ListPromise → Type 0)
        (Q : B → List ObjectPromise → List ListPromise → Type 0) (f : A → Build B) (c : Ctx)
        (r : Result (A × Ctx))
        → Ready c
        → Outcome P c r
        → ((a : A) (ps : List ObjectPromise) (ls : List ListPromise)
            → P a ps ls
            → Yields (λ b qs ms. Q b (ps ++ qs) (ls ++ ms)) (f a))
        → Outcome Q c (continue f r)
    after P Q f c (returned (a, c1)) ready (ps, ls, e, p) step =
        subst (λ d. Outcome Q c (f a d)) (sym e)
          (lift Q ps ls c (f a (extended ps ls c))
            ((step a ps ls p).run (extended ps ls c) (Ready-extended ps ls c ready)))
    after P Q f c (failed message path) ready h step = h
    after P Q f c panicked ready h step = h

    pub bind-Yields :
        {A B : Type 0} (P : A → List ObjectPromise → List ListPromise → Type 0)
        (Q : B → List ObjectPromise → List ListPromise → Type 0) (m : Build A) (f : A → Build B)
        → Yields P m
        → ((a : A) (ps : List ObjectPromise) (ls : List ListPromise)
            → P a ps ls
            → Yields (λ b qs ms. Q b (ps ++ qs) (ls ++ ms)) (f a))
        → Yields Q (m >>= f)
    bind-Yields P Q m f first step = record {
      run = λ c ready. after P Q f c (m c) ready (first.run c ready) step;
    }

    -- After a computation with exact effects.
    pub bind-Exactly :
        {A B : Type 0} {found : A → List ObjectPromise} {lists : A → List ListPromise}
        (Q : B → List ObjectPromise → List ListPromise → Type 0) {m : Build A} (f : A → Build B)
        → Exactly found lists m
        → ((a : A) → Yields (λ b qs ms. Q b (found a ++ qs) (lists a ++ ms)) (f a))
        → Yields Q (m >>= f)
    bind-Exactly {found = found} {lists = lists} Q {m = m} f first step =
        bind-Yields (λ a ps ls. (ps ≡ found a) × (ls ≡ lists a)) Q m f first.exact
          (λ a ps ls p.
            subst (λ xs. Yields (λ b qs ms. Q b (xs ++ qs) (ls ++ ms)) (f a)) (sym p.0)
              (subst (λ ys. Yields (λ b qs ms. Q b (found a ++ qs) (ys ++ ms)) (f a)) (sym p.1)
                (step a)))

    weaken :
        {A : Type 0} (P : A → List ObjectPromise → List ListPromise → Type 0)
        (Q : A → List ObjectPromise → List ListPromise → Type 0) (c : Ctx) (r : Result (A × Ctx))
        → ((a : A) (ps : List ObjectPromise) (ls : List ListPromise) → P a ps ls → Q a ps ls)
        → Outcome P c r
        → Outcome Q c r
    weaken P Q c (returned (a, c1)) h (ps, ls, e, p) = (ps, ls, e, h a ps ls p)
    weaken P Q c (failed message path) h e = e
    weaken P Q c panicked h e = e

    pub weakened :
        {A : Type 0} {P : A → List ObjectPromise → List ListPromise → Type 0}
        {Q : A → List ObjectPromise → List ListPromise → Type 0} {m : Build A}
        → ((a : A) (ps : List ObjectPromise) (ls : List ListPromise) → P a ps ls → Q a ps ls)
        → Yields P m
        → Yields Q m
    weakened {P = P} {Q = Q} {m = m} h y = record {
      run = λ c ready. weaken P Q c (m c) h (y.run c ready);
    }

    pub pure-Yields :
        {A : Type 0} (Q : A → List ObjectPromise → List ListPromise → Type 0) (a : A)
        → Q a [] []
        → Yields Q (pure a)
    pure-Yields Q a h = record { run = λ c ready. ([], [], extended-nil c, h) }

    pub fail-Yields :
        {A : Type 0} (Q : A → List ObjectPromise → List ListPromise → Type 0) (message : Bytes)
        → Err
        → Yields Q (fail message)
    fail-Yields Q message e = record { run = λ c ready. e }
