-- ===== src/Examples/Bound.antt =====
-- Two operations of a channel, collected in two orders and sorted by insertion.
use mathlib.Core.List.{Permᴰ}
use mathlib.Core.Option.{some-injective}
use mathlib.Core.Path.{subst}
use go_asyncapi.Common.{
  ℕ, zero, suc, ◌≡◌, ◌∙◌, ◌+◌, refl, ap, sym, true, false, some, List, [], ◌∷◌, Bytes, codes,
  if◌then◌else◌, eqb, arith, All, Has, inl, inr, Bool-cases, ne_of_false, list_beq, bytes_eq, ◌≢◌,
}
use go_asyncapi.Promise.{deref_artifact}
use go_asyncapi.Render.{
  Channel, Operation, operation_artifact, channel_artifact, dummy_operation, dummy_channel,
  dummy_message,
}
use go_asyncapi.Render.Linked.{Linked, deref, bound_servers, channel_bound_operations, name_of}
use go_asyncapi.Render.Related.{message_bound_channels, message_bound_operations}
use go_asyncapi.Render.Sorting.{Sorted, SameTally, name_leb, tally}
use go_asyncapi.Render.Bound.{NamesDiffer, bound_order_irrelevant}

abbrev insert_by : (ℕ → Bytes) → ℕ → List ℕ → List ℕ
insert_by f x [] = x ∷ []
insert_by f x (y ∷ ys) =
    let rest = insert_by f x ys in if name_leb (f x) (f y) then x ∷ y ∷ ys else y ∷ rest

abbrev insertion_sort : (ℕ → Bytes) → List ℕ → List ℕ
insertion_sort f [] = []
insertion_sort f (x ∷ xs) = insert_by f x (insertion_sort f xs)

tally_insert :
    (f : ℕ → Bytes) (x : ℕ) (xs : List ℕ) (k : ℕ)
    → tally k (insert_by f x xs) ≡ (if eqb x k then 1 else 0) + tally k xs
tally_insert f x [] k = refl
tally_insert f x (y ∷ ys) k = ground (arith, tally_insert f x ys k)

insertion_same : (f : ℕ → Bytes) (xs : List ℕ) → SameTally (insertion_sort f xs) xs
insertion_same f [] k = refl
insertion_same f (x ∷ xs) k =
    tally_insert f x (insertion_sort f xs) k
    ∙ ap (λ n. (if eqb x k then 1 else 0) + n) (insertion_same f xs k)

name_leb_total : (s t : Bytes) → name_leb s t ≡ false → name_leb t s ≡ true
name_leb_total [] t h = cc
name_leb_total (c ∷ s) [] h = refl
name_leb_total (c ∷ s) (d ∷ t) h = ground (arith, name_leb_total s t)

name_leb_trans : (s t u : Bytes) → name_leb s t ≡ true → name_leb t u ≡ true → name_leb s u ≡ true
name_leb_trans [] t u h k = refl
name_leb_trans (c ∷ s) [] u h k = cc
name_leb_trans (c ∷ s) (d ∷ t) [] h k = cc
name_leb_trans (c ∷ s) (d ∷ t) (e ∷ u) h k = ground (arith, name_leb_trans s t u)

insert-All :
    (P : ℕ → Type 0) (f : ℕ → Bytes) (x : ℕ) (xs : List ℕ)
    → P x
    → All P xs
    → All P (insert_by f x xs)
insert-All P f x [] p h = (p, tt)
insert-All P f x (y ∷ ys) p (h, hs) = elim (Bool-cases (name_leb (f x) (f y))) [
  | inl e ↦ rw e (p, (h, hs))
  | inr e ↦ rw e (h, insert-All P f x ys p hs)
]

after_first :
    (f : ℕ → Bytes) (x y : ℕ) (ys : List ℕ)
    → name_leb (f x) (f y) ≡ true
    → All (λ z. name_leb (f y) (f z) ≡ true) ys
    → All (λ z. name_leb (f x) (f z) ≡ true) ys
after_first f x y [] e h = tt
after_first f x y (z ∷ zs) e (h, hs) =
    (name_leb_trans (f x) (f y) (f z) e h, after_first f x y zs e hs)

insert-Sorted : (f : ℕ → Bytes) (x : ℕ) (xs : List ℕ) → Sorted f xs → Sorted f (insert_by f x xs)
insert-Sorted f x [] h = (tt, tt)
insert-Sorted f x (y ∷ ys) (h, hs) = elim (Bool-cases (name_leb (f x) (f y))) [
  | inl e ↦ rw e ((e, after_first f x y ys e h), (h, hs))
  | inr e ↦ rw e (
    insert-All (λ z. name_leb (f y) (f z) ≡ true) f x ys (name_leb_total (f x) (f y) e) h,
    insert-Sorted f x ys hs,
  )
]

insertion-Sorted : (f : ℕ → Bytes) (xs : List ℕ) → Sorted f (insertion_sort f xs)
insertion-Sorted f [] = tt
insertion-Sorted f (x ∷ xs) = insert-Sorted f x (insertion_sort f xs) (insertion-Sorted f xs)

abbrev channel : Channel ℕ (List ℕ)
channel = record dummy_channel { dummy = false }

abbrev operation : Bytes → Operation ℕ
operation text = record dummy_operation {
  original_name = text;
  dummy = false;
  channel_promise = some 0;
}

abbrev objects : ℕ → Linked
objects zero = channel_artifact channel
objects (suc zero) = operation_artifact (operation (codes "b"))
objects (suc (suc n)) = operation_artifact (operation (codes "a"))

abbrev name : ℕ → Bytes
name n = name_of (objects n)

abbrev collected : List ℕ
collected = 1 ∷ 2 ∷ []

itself : (a j : ℕ) → Has a collected → deref insertion_sort objects 5 a ≡ some j → a ≡ j
unfolding deref_artifact
itself a j (inl e) d =
    subst (λ x. deref insertion_sort objects 5 x ≡ some j → x ≡ j) e (λ g. some-injective _ _ g) d
itself a j (inr (inl e)) d =
    subst (λ x. deref insertion_sort objects 5 x ≡ some j → x ≡ j) e (λ g. some-injective _ _ g) d
itself a j (inr (inr h)) d = absurd h

names_apart : codes "b" ≢ codes "a"
unfolding list_beq
names_apart = ne_of_false (codes "b") (codes "a") refl

one_name : (a b : ℕ) → Has a collected → Has b collected → name a ≡ name b → a ≡ b
one_name a b (inl e) (inl g) h = sym e ∙ g
one_name a b (inl e) (inr (inl g)) h = absurd (names_apart (ap name e ∙ h ∙ sym (ap name g)))
one_name a b (inr (inl e)) (inl g) h = absurd (names_apart (ap name g ∙ sym h ∙ sym (ap name e)))
one_name a b (inr (inl e)) (inr (inl g)) h = sym e ∙ g
one_name a b (inr (inr e)) hb h = absurd e
one_name a b ha (inr (inr g)) h = absurd g

names_differ : NamesDiffer insertion_sort insertion_same insertion-Sorted objects 5 collected
names_differ a b j k ha hb da db e =
    let p : a ≡ j = itself a j ha da in
    let q : b ≡ k = itself b k hb db in
    sym p ∙ one_name a b ha hb (ap name p ∙ e ∙ ap name (sym q)) ∙ q

bound_order_irrelevant_example :
    (bound_servers insertion_sort objects 5
        (record channel { all_active_servers_promise = some (1 ∷ 2 ∷ []) })
      ≡ bound_servers insertion_sort objects 5
          (record channel { all_active_servers_promise = some (2 ∷ 1 ∷ []) }))
    × (channel_bound_operations insertion_sort objects 5 0
          (record channel { all_active_operations_promise = some (1 ∷ 2 ∷ []) })
        ≡ channel_bound_operations insertion_sort objects 5 0
            (record channel { all_active_operations_promise = some (2 ∷ 1 ∷ []) }))
    × (message_bound_channels insertion_sort objects 5 0
          (record dummy_message { all_active_channels_promise = some (1 ∷ 2 ∷ []) })
        ≡ message_bound_channels insertion_sort objects 5 0
            (record dummy_message { all_active_channels_promise = some (2 ∷ 1 ∷ []) }))
    × (message_bound_operations insertion_sort objects 5 0
          (record dummy_message { all_active_operations_promise = some (1 ∷ 2 ∷ []) })
        ≡ message_bound_operations insertion_sort objects 5 0
            (record dummy_message { all_active_operations_promise = some (2 ∷ 1 ∷ []) }))
bound_order_irrelevant_example =
    bound_order_irrelevant insertion_sort insertion_same insertion-Sorted objects 5 0 channel
      dummy_message (1 ∷ 2 ∷ []) (2 ∷ 1 ∷ []) (Permᴰ.swap refl refl) names_differ
