-- ===== src/Types/OrderedMap/Refinement.antt =====
-- An ordered map is the association list of its entries: each operation of
-- internal/types/orderedmap.go, read on that list.
use go_asyncapi.Common.{
  ℕ, ◌≡◌, refl, false, not, Option, none, some, List, [], ◌∷◌, ◌++◌, map, EqType, ◌==◌, keep,
  length, if◌then◌else◌, arith, ap, Bool-cases, inl, inr, length-map, sym, ◌∙◌, eqb,
}
use mathlib.Core.List.{map-append}
use go_asyncapi.Common.GoMap.{lookup, has, insert, delete, lookup-insert, lookup-delete}
use go_asyncapi.Types.OrderedMap.{
  OrderedMap, contents, value_or, len, without_key, get, has_key, set, delete_key, delete_from,
  entries,
}
use go_asyncapi.Types.OrderedMap.Invariant.{
  IsValid, count, count-zero_of_not_has, count-pos_of_has, kept-eq-without, map_keys,
}

module _ {ℓ κ} {K : Type ℓ} {V : Type κ} ⦃e : EqType K⦄ where
  -- The association list without a key.
  abbrev pub drop_key : K → List (K × V) → List (K × V)
  drop_key k = keep (λ x. not (x.0 == k))

  pair : V → List (K × V) → K → K × V
  pair zero d j = (j, value_or zero (lookup j d))

  pairs-insert :
      (zero : V) (d : List (K × V)) (k : K) (v : V) (ks : List K)
      → map (pair zero (insert k v d)) (without_key k ks) ≡ drop_key k (map (pair zero d) ks)
  unfolding pair
  pairs-insert zero d k v [] = refl
  pairs-insert zero d k v (j ∷ ks) =
      ground
        (arith, pairs-insert zero d k v ks, lookup-insert k j v d, e.same_iff k j, e.same_iff j k)

  pairs-delete :
      (zero : V) (d : List (K × V)) (k : K) (ks : List K)
      → map (pair zero (delete k d)) (without_key k ks) ≡ drop_key k (map (pair zero d) ks)
  unfolding pair
  pairs-delete zero d k [] = refl
  pairs-delete zero d k (j ∷ ks) =
      ground (arith, pairs-delete zero d k ks, lookup-delete k j d, e.same_iff k j, e.same_iff j k)

  drop-pairs :
      (zero : V) (d : List (K × V)) (k : K) (ks : List K)
      → count k ks ≡ 0
      → drop_key k (map (pair zero d) ks) ≡ map (pair zero d) ks
  unfolding pair
  drop-pairs zero d k [] h = refl
  drop-pairs zero d k (j ∷ ks) h = ground (arith, drop-pairs zero d k ks)

  lookup-pairs :
      (zero : V) (d : List (K × V)) (k : K) (ks : List K)
      → lookup k (map (pair zero d) ks)
        ≡ (if eqb (count k ks) 0 then none else some (value_or zero (lookup k d)))
  unfolding pair lookup
  lookup-pairs zero d k [] = refl
  lookup-pairs zero d k (j ∷ ks) = ground (arith, lookup-pairs zero d k ks, e.same_iff j k)

  entries-pairs :
      (zero : V) (o : OrderedMap K V)
      → entries zero o ≡ map (pair zero (contents o.data_map)) o.keys_list
  unfolding entries pair
  entries-pairs zero o = refl

  get-pairs :
      (zero : V) (d : List (K × V)) (k : K) (n : ℕ)
      → n ≡ count k (map_keys d)
      → lookup k d ≡ (if eqb n 0 then none else some (value_or zero (lookup k d)))
  unfolding has
  get-pairs zero d k n h = ground (arith, count-zero_of_not_has k d, count-pos_of_has k d)

  pair-insert : (zero : V) (d : List (K × V)) (k : K) (v : V) → pair zero (insert k v d) k ≡ (k, v)
  unfolding pair
  pair-insert zero d k v = ground (arith, lookup-insert k k v d, e.same_iff k k)

  not_has-count :
      (o : OrderedMap K V) (k : K) → IsValid o → has_key o k ≡ false → count k o.keys_list ≡ 0
  unfolding has_key
  not_has-count o k h f = h.same k ∙ count-zero_of_not_has k (contents o.data_map) f

  delete_from-pairs :
      (zero : V) (o : OrderedMap K V) (k : K) (d : Option (List (K × V)))
      → o.data_map ≡ d
      → IsValid o
      → (map (pair zero (contents (delete_from o k d).0.data_map)) (delete_from o k d).0.keys_list
          ≡ drop_key k (map (pair zero (contents o.data_map)) o.keys_list))
        × ((delete_from o k d).1 ≡ has_key o k)
  delete_from-pairs zero o k none p h =
      let missing : has_key o k ≡ false = unfold has_key has lookup in rw p refl in
      (
        sym (drop-pairs zero (contents o.data_map) k o.keys_list (not_has-count o k h missing)),
        sym missing,
      )
  delete_from-pairs zero o k (some d) p h =
      let same : has_key o k ≡ has k d = unfold has_key in rw p refl in
      elim (Bool-cases (has k d)) [
        | inl found ↦
            rw (found, ap contents p) (pairs-delete zero d k o.keys_list, sym (same ∙ found))
        | inr missing ↦ rw missing (
          sym (
              drop-pairs zero (contents o.data_map) k o.keys_list
                (not_has-count o k h (same ∙ missing))),
          sym (same ∙ missing),
        )
      ]

  -- On a valid map, Get finds a key exactly where the entries have it, with the value there.
  pub get-entries :
      (zero : V) (o : OrderedMap K V) (k : K) → IsValid o → get o k ≡ lookup k (entries zero o)
  unfolding get
  get-entries zero o k h =
      get-pairs zero (contents o.data_map) k (count k o.keys_list) (h.same k)
      ∙ sym (lookup-pairs zero (contents o.data_map) k o.keys_list)
      ∙ ap (lookup k) (sym (entries-pairs zero o))

  -- On a valid map, Set drops the entry of the key, if there is one, and puts the new one last.
  pub entries-set :
      (zero : V) (o : OrderedMap K V) (k : K) (v : V)
      → IsValid o
      → entries zero (set o k v) ≡ drop_key k (entries zero o) ++ (k, v) ∷ []
  entries-set zero o k v h =
      rw (entries-pairs zero (set o k v), entries-pairs zero o)
        (unfold set in
          rw (kept-eq-without o k h, map-append)
            (rw pairs-insert (
              ap (λ w. drop_key k (map (pair zero (contents o.data_map)) o.keys_list) ++ w ∷ [])
                (pair-insert zero (contents o.data_map) k v))))

  -- On a valid map, Delete drops the entry of the key, and says whether there was one.
  pub entries-delete :
      (zero : V) (o : OrderedMap K V) (k : K)
      → IsValid o
      → (entries zero (delete_key o k).0 ≡ drop_key k (entries zero o))
        × ((delete_key o k).1 ≡ has_key o k)
  entries-delete zero o k h =
      rw (entries-pairs zero (delete_key o k).0, entries-pairs zero o)
        (unfold delete_key in delete_from-pairs zero o k o.data_map refl h)

  -- Len counts the entries.
  pub len-entries : (zero : V) (o : OrderedMap K V) → IsValid o → len o ≡ length (entries zero o)
  unfolding len entries
  len-entries zero o h = sym h.sized ∙ sym (length-map _ o.keys_list)
