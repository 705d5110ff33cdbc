-- ===== src/Types/OrderedMap/Invariant.antt =====
-- The slice of keys and the Go map of an ordered map agree, and every operation keeps it so.
use go_asyncapi.Common.{
  ℕ, ◌+◌, ◌≤◌, ◌≡◌, refl, true, false, Option, none, some, List, [], ◌∷◌, ◌++◌, EqType, ◌==◌,
  length, if◌then◌else◌, arith, ap, length-append, Bool-cases, inl, inr,
}
use go_asyncapi.Common.GoMap.{lookup, has, insert, delete}
use go_asyncapi.Types.OrderedMap.{
  OrderedMap, contents, empty, without_key, delete_from, set, delete_key,
}

module _ {ℓ} {K : Type ℓ} ⦃e : EqType K⦄ where
  abbrev pub count : K → List K → ℕ
  count k [] = 0
  count k (j ∷ ks) = (if j == k then 1 else 0) + count k ks

  pub count-append : (k : K) (xs ys : List K) → count k (xs ++ ys) ≡ count k xs + count k ys
  count-append k [] ys = omega arith
  count-append k (x ∷ xs) ys = omega (arith, count-append k xs ys)

  pub count-without :
      (k j : K) (ks : List K) → count j (without_key k ks) ≡ (if k == j then 0 else count j ks)
  count-without k j [] = ground arith
  count-without k j (i ∷ ks) =
      ground (arith, count-without k j ks, e.same_iff i k, e.same_iff i j, e.same_iff k j)

  pub length-without : (k : K) (ks : List K) → length (without_key k ks) + count k ks ≡ length ks
  length-without k [] = omega arith
  length-without k (i ∷ ks) = ground (arith, length-without k ks)

  pub without_of_count : (k : K) (ks : List K) → count k ks ≡ 0 → without_key k ks ≡ ks
  without_of_count k [] h = refl
  without_of_count k (j ∷ ks) h = ground (arith, without_of_count k ks)

module _ {ℓ κ} {K : Type ℓ} {V : Type κ} ⦃e : EqType K⦄ where
  abbrev pub map_keys : List (K × V) → List K
  map_keys [] = []
  map_keys ((k, v) ∷ m) = k ∷ map_keys m

  pub map_keys-delete :
      (k : K) (m : List (K × V)) → map_keys (delete k m) ≡ without_key k (map_keys m)
  unfolding delete
  map_keys-delete k [] = refl
  map_keys-delete k ((j, v) ∷ m) = ground (arith, map_keys-delete k m)

  length-map_keys : (m : List (K × V)) → length (map_keys m) ≡ length m
  length-map_keys [] = refl
  length-map_keys ((k, v) ∷ m) = omega (arith, length-map_keys m)

  pub count-pos_of_has : (k : K) (m : List (K × V)) → has k m ≡ true → 1 ≤ count k (map_keys m)
  unfolding has lookup
  count-pos_of_has k [] h = ground arith
  count-pos_of_has k ((j, v) ∷ m) h = ground (arith, count-pos_of_has k m)

  pub count-zero_of_not_has :
      (k : K) (m : List (K × V)) → has k m ≡ false → count k (map_keys m) ≡ 0
  unfolding has lookup
  count-zero_of_not_has k [] h = ground arith
  count-zero_of_not_has k ((j, v) ∷ m) h = ground (arith, count-zero_of_not_has k m)

  -- Every key occurs once at most, as often in the slice as in the Go map.
  pub record IsValid (o : OrderedMap K V) : Type (ℓ ⊔ κ) where
    pub once : (k : K) → count k o.keys_list ≤ 1
    pub same : (k : K) → count k o.keys_list ≡ count k (map_keys (contents o.data_map))
    pub sized : length o.keys_list ≡ length (contents o.data_map)

  -- The slice before the key is appended.
  abbrev pub kept : OrderedMap K V → K → List K
  kept o k = if has k (contents o.data_map) then without_key k o.keys_list else o.keys_list

  -- Either way the key is no longer in it.
  pub count-kept :
      (o : OrderedMap K V) (k j : K)
      → IsValid o
      → count j (kept o k) ≡ (if k == j then 0 else count j o.keys_list)
  count-kept o k j h = ground (
    arith,
    count-without k j o.keys_list,
    count-zero_of_not_has k (contents o.data_map),
    h.same k,
    e.same_iff k j,
  )

  -- On a valid map the test only saves work.
  pub kept-eq-without :
      (o : OrderedMap K V) (k : K) → IsValid o → kept o k ≡ without_key k o.keys_list
  kept-eq-without o k h = ground (
    arith,
    without_of_count k o.keys_list,
    count-zero_of_not_has k (contents o.data_map),
    h.same k,
  )

  length-kept :
      (o : OrderedMap K V) (k : K)
      → IsValid o
      → length (kept o k) ≡ length (delete k (contents o.data_map))
  length-kept o k h = ground (
    arith,
    length-without k o.keys_list,
    length-without k (map_keys (contents o.data_map)),
    map_keys-delete k (contents o.data_map),
    length-map_keys (contents o.data_map),
    length-map_keys (delete k (contents o.data_map)),
    count-zero_of_not_has k (contents o.data_map),
    h.same k,
    h.sized,
  )

  count-map_keys-delete :
      (k j : K) (m : List (K × V))
      → count j (map_keys (delete k m)) ≡ (if k == j then 0 else count j (map_keys m))
  count-map_keys-delete k j m = rw map_keys-delete (count-without k j (map_keys m))

  pub IsValid-empty : IsValid empty
  IsValid-empty = record { once = λ k. omega arith; same = λ k. refl; sized = refl }

  -- Set keeps the map valid.
  pub set-IsValid : (o : OrderedMap K V) (k : K) (v : V) → IsValid o → IsValid (set o k v)
  unfolding set insert
  set-IsValid o k v h = record {
    once = λ j. ground (arith, count-append j (kept o k) (k ∷ []), count-kept o k j h, h.once j);
    same = λ j. ground (
      arith,
      count-append j (kept o k) (k ∷ []),
      count-kept o k j h,
      count-map_keys-delete k j (contents o.data_map),
      h.same j,
    );
    sized = ground (arith, length-append (kept o k) (k ∷ []), length-kept o k h);
  }

  delete_from-IsValid :
      (o : OrderedMap K V) (k : K) (d : Option (List (K × V)))
      → o.data_map ≡ d
      → IsValid o
      → IsValid (delete_from o k d).0
  delete_from-IsValid o k none p h = h
  delete_from-IsValid o k (some d) p h = elim (Bool-cases (has k d)) [
    | inl found ↦ rw found (record {
      once = λ j. ground (arith, count-without k j o.keys_list, h.once j);
      same = λ j. ground (
        arith,
        count-without k j o.keys_list,
        count-map_keys-delete k j d,
        h.same j,
        ap contents p,
      );
      sized = ground (arith, length-kept o k h, ap contents p);
    })
    | inr missing ↦ rw missing h
  ]

  -- Delete keeps the map valid.
  pub delete_key-IsValid : (o : OrderedMap K V) (k : K) → IsValid o → IsValid (delete_key o k).0
  unfolding delete_key
  delete_key-IsValid o k h = delete_from-IsValid o k o.data_map refl h
