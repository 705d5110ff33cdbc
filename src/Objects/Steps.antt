-- ===== src/Objects/Steps.antt =====
-- What the steps of the build methods add to the compile context.
use mathlib.Core.List.{cons-ne-nil}
use go_asyncapi.Common.{
  ◌≡◌, ◌≢◌, ◌∙◌, refl, ap, sym, Bool, true, false, Option, none, some, List, [], ◌∷◌, ◌++◌, Bytes,
  All, All-append, map, append-nil, inl, inr, Bool-cases, ◌==◌, bytes_eq,
}
use go_asyncapi.Jsonpointer.{UrlPackage, JsonPointer, parse, location}
use go_asyncapi.Jsonpointer.Escape.{AreBytes, AreVisible}
use go_asyncapi.Jsonpointer.RoundTrip.{parse-pointer_string}
use go_asyncapi.Linker.{origin_internal}
use go_asyncapi.Names.{CasePackage}
use go_asyncapi.Context.{
  returned, ObjectPromise, put_promise, put_list_promise, add_promise, add_external_ref,
  add_list_promise, path_stack, current_ref_pointer,
}
use go_asyncapi.Schema.{ListPromise}
use go_asyncapi.Schema.Parts.{Ctx}
use go_asyncapi.Schema.Promises.{Ready, generate_obj_name-returns}
use go_asyncapi.Objects.Monad.{
  Build, list_promise, for_each, when, registered, promise_of, promise_at, obj_name,
}
use go_asyncapi.Objects.Build.{named_promise}
use go_asyncapi.Types.OrderedMap.Invariant.{map_keys}
use go_asyncapi.Objects.Effects.{
  externals, extended, Yields, Exactly, bind-Exactly, bind-Yields, pure-Yields, stored-eq,
  extended-nil, weakened,
}

-- A reference that the code can parse.
abbrev pub Parses : UrlPackage → Bytes → Type 0
Parses net ref = (r : JsonPointer) × (parse net ref ≡ some r)

abbrev pub of_option {ℓ} : {A : Type ℓ} → Option A → List A
of_option none = []
of_option (some a) = a ∷ []

abbrev pub concat_map {ℓ κ} : {A : Type ℓ} {B : Type κ} → (A → List B) → List A → List B
concat_map f [] = []
concat_map f (x ∷ xs) = f x ++ concat_map f xs

append-ne-nil : (xs ys : List Bytes) → ys ≢ [] → xs ++ ys ≢ []
append-ne-nil [] ys h = h
append-ne-nil (x ∷ xs) ys h = cons-ne-nil x (xs ++ ys)

module _ (net : UrlPackage) (Err : Type 0) where
  put_promise_lem :
      (p : ObjectPromise) (c : Ctx)
      → Parses net p.ref
      → put_promise net p c ≡ returned (extended net (p ∷ []) [] c)
  unfolding put_promise add_promise add_external_ref
  put_promise_lem p c (r, e) = elim (Bool-cases (location net r == [])) [
    | inl f ↦
        rw (e, f, put_promise, externals)
          (ap returned (
            stored-eq net c refl (sym (append-nil c.storage.list_promises))
              (sym (append-nil c.storage.external_refs))))
    | inr f ↦
        rw (e, f, put_promise, externals)
          (ap returned (stored-eq net c refl (sym (append-nil c.storage.list_promises)) refl))
  ]

  pub registered-Exactly :
      (p : ObjectPromise)
      → Parses net p.ref
      → Exactly net Err (λ q. q ∷ []) (λ q. []) (registered net p)
  registered-Exactly p h = record {
    exact = record { run = λ c ready. rw (put_promise_lem p c h) (p ∷ [], [], refl, (refl, refl)) };
  }

  pub list_promise-Exactly :
      (l : ListPromise) → Exactly net Err (λ m. []) (λ m. m ∷ []) (list_promise l)
  unfolding put_list_promise add_list_promise
  list_promise-Exactly l = record {
    exact = record {
      run = λ c ready. (
        [],
        l ∷ [],
        stored-eq net c (sym (append-nil c.storage.promises)) refl
            (sym (append-nil c.storage.external_refs)),
        (refl, refl),
      );
    };
  }

  -- A promise that is made under a condition.
  pub when-Exactly :
      (b : Bool) (m : Build ObjectPromise)
      → Exactly net Err (λ q. q ∷ []) (λ q. []) m
      → Exactly net Err of_option (λ o. []) (when b m)
  when-Exactly true m h = record {
    exact =
        bind-Exactly net Err (λ o ps ls. (ps ≡ of_option o) × (ls ≡ [])) _ h
          (λ a. pure-Yields net Err _ (some a) (refl, refl));
  }
  when-Exactly false m h = record { exact = pure-Yields net Err _ none (refl, refl) }

  -- Two lists whose items are related in order.
  abbrev pub Related : {A B : Type 0} → (A → B → Type 0) → List A → List B → Type 0
  Related R [] [] = Unit
  Related R [] (y ∷ ys) = ⊥
  Related R (x ∷ xs) [] = ⊥
  Related R (x ∷ xs) (y ∷ ys) = R x y × Related R xs ys

  pub for_each-Yields :
      {A B : Type 0} (R : A → B → Type 0) (Good : A → Type 0) (found : B → List ObjectPromise)
      (f : A → Build B)
      → ((x : A) → Good x → Yields net Err (λ y ps ls. (ps ≡ found y) × (ls ≡ []) × R x y) (f x))
      → (xs : List A) → All Good xs
      → Yields net Err
          (λ ys ps ls. (ps ≡ concat_map found ys) × (ls ≡ []) × Related R xs ys)
          (for_each f xs)
  for_each-Yields R Good found f step [] h = pure-Yields net Err _ [] (refl, refl, tt)
  for_each-Yields R Good found f step (x ∷ xs) (hx, hs) =
      bind-Yields net Err (λ y ps ls. (ps ≡ found y) × (ls ≡ []) × R x y) _ (f x) _ (step x hx)
        (λ y ps ls p.
          bind-Yields net Err (λ ys qs ms. (qs ≡ concat_map found ys) × (ms ≡ []) × Related R xs ys)
            (λ b qs ms. (ps ++ qs ≡ concat_map found b) × (ls ++ ms ≡ []) × Related R (x ∷ xs) b)
            (for_each f xs) _ (for_each-Yields R Good found f step xs hs)
            (λ ys qs ms q.
              pure-Yields net Err _ (y ∷ ys)
                (rw (p.0, q.0, append-nil) refl, rw (p.1, q.1) refl, (p.2, q.2))))

  concat_singles : (qs : List ObjectPromise) → concat_map (λ q. q ∷ []) qs ≡ qs
  concat_singles [] = refl
  concat_singles (q ∷ qs) = ap (λ rs. q ∷ rs) (concat_singles qs)

  -- A loop whose steps return the promise that they register.
  pub for_each-promises :
      {A : Type 0} (Good : A → Type 0) (f : A → Build ObjectPromise)
      → ((x : A) → Good x → Exactly net Err (λ q. q ∷ []) (λ q. []) (f x))
      → (xs : List A) → All Good xs
      → Exactly net Err (λ qs. qs) (λ qs. []) (for_each f xs)
  for_each-promises Good f step xs h =
      let all =
        for_each-Yields (λ x q. Unit {0}) Good (λ q. q ∷ []) f
          (λ x g. weakened net Err (λ q ps ls p. (p.0, p.1, tt)) (step x g).exact) xs h in
      record { exact = weakened net Err (λ qs ps ls p. (p.0 ∙ concat_singles qs, p.1)) all }

  pub list_keys :
      (ks : List Bytes) (ys : List (Bytes × ObjectPromise))
      → Related (λ k y. y.0 ≡ k) ks ys
      → map_keys ys ≡ ks
  list_keys [] [] h = refl
  list_keys [] (y ∷ ys) h = absurd h
  list_keys (k ∷ ks) [] h = absurd h
  list_keys (k ∷ ks) (y ∷ ys) (h, hs) = rw h (ap (λ js. k ∷ js) (list_keys ks ys hs))

  concat_values :
      (ys : List (Bytes × ObjectPromise)) → concat_map (λ y. y.1 ∷ []) ys ≡ map (λ y. y.1) ys
  concat_values [] = refl
  concat_values (y ∷ ys) = ap (λ rs. y.1 ∷ rs) (concat_values ys)

  -- A promise of a reference that can be parsed.
  pub promise_of-Exactly :
      (ref : Bytes) → Parses net ref → Exactly net Err (λ q. q ∷ []) (λ q. []) (promise_of net ref)
  promise_of-Exactly ref h = registered-Exactly (record { ref = ref; origin = origin_internal }) h

  module _ (conv : CasePackage)
      (trim_visible : (s : Bytes) → AreVisible s → net.trim_space s ≡ s) where
    pub current_Parses :
        (parts : List Bytes) (c : Ctx)
        → Ready c
        → parts ≢ []
        → All AreBytes parts
        → Parses net (current_ref_pointer parts c)
    unfolding current_ref_pointer
    current_Parses parts c (_, keys) h hs = (
      _,
      parse-pointer_string net trim_visible (path_stack c ++ parts)
          (append-ne-nil (path_stack c) parts h) (All-append AreBytes (path_stack c) parts keys hs),
    )

    -- A promise of a position below the current one.
    pub promise_at-Exactly :
        (part : Bytes) (parts : List Bytes)
        → All AreBytes (part ∷ parts)
        → Exactly net Err (λ q. q ∷ []) (λ q. []) (promise_at net (part ∷ parts))
    promise_at-Exactly part parts hs = record {
      exact = record {
        run = λ c ready.
            (promise_of-Exactly (current_ref_pointer (part ∷ parts) c)
                (current_Parses (part ∷ parts) c ready (cons-ne-nil part parts) hs)).exact.run
              c ready;
      };
    }

    pub obj_name-Exactly :
        (name suffix : Bytes) → Exactly net Err (λ n. []) (λ n. []) (obj_name conv name suffix)
    obj_name-Exactly name suffix = record {
      exact = record {
        run = λ c ready.
            let (n, e) = generate_obj_name-returns conv net trim_visible name suffix c ready in
            rw e ([], [], extended-nil net c, (refl, refl));
      };
    }

    -- The loop over named parts.
    pub named_promises-Yields :
        (part : Bytes)
        → AreBytes part
        → (ks : List Bytes) → All AreBytes ks
        → Yields net Err
            (λ ys ps ls. (ps ≡ map (λ y. y.1) ys) × (ls ≡ []) × (map_keys ys ≡ ks))
            (for_each (named_promise conv net part) ks)
    named_promises-Yields part hp ks hs =
        weakened net Err (λ ys ps ls p. (p.0 ∙ concat_values ys, p.1, list_keys ks ys p.2))
          (for_each-Yields (λ k y. y.0 ≡ k) AreBytes (λ y. y.1 ∷ []) (named_promise conv net part)
            (λ k hk.
              bind-Exactly net Err (λ y ps ls. (ps ≡ y.1 ∷ []) × (ls ≡ []) × (y.0 ≡ k)) _
                (promise_at-Exactly part (k ∷ []) (hp, (hk, tt)))
                (λ p. pure-Yields net Err _ (k, p) (refl, refl, refl)))
            ks hs)
