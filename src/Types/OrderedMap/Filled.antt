-- ===== src/Types/OrderedMap/Filled.antt =====
-- A map that is filled by calls of Set under keys that differ (internal/types/orderedmap.go).
use go_asyncapi.Common.{
  ◌≡◌, ◌≤◌, ◌+◌, ◌∙◌, refl, sym, ap, List, [], ◌∷◌, ◌++◌, EqType, append_assoc, append-nil, arith,
}
use go_asyncapi.Types.OrderedMap.{OrderedMap, empty, set, set_all, entries}
use go_asyncapi.Types.OrderedMap.Invariant.{
  count, map_keys, count-append, IsValid, IsValid-empty, set-IsValid,
}
use go_asyncapi.Types.OrderedMap.Refinement.{drop_key, entries-set}

module _ {ℓ κ} {K : Type ℓ} {V : Type κ} ⦃e : EqType K⦄ where
  drop_key-absent : (k : K) (es : List (K × V)) → count k (map_keys es) ≡ 0 → drop_key k es ≡ es
  drop_key-absent k [] h = refl
  drop_key-absent k ((j, v) ∷ es) h = ground (arith, drop_key-absent k es)

  map_keys-append : (es fs : List (K × V)) → map_keys (es ++ fs) ≡ map_keys es ++ map_keys fs
  map_keys-append [] fs = refl
  map_keys-append (x ∷ es) fs = ap (λ ks. x.0 ∷ ks) (map_keys-append es fs)

  -- The keys differ from each other and from those of the map.
  abbrev AreFresh : V → OrderedMap K V → List (K × V) → Type ℓ
  AreFresh zero o es = (j : K) → count j (map_keys (entries zero o)) + count j (map_keys es) ≤ 1

  set-entries_fresh :
      (zero : V) (o : OrderedMap K V) (k : K) (v : V) (es : List (K × V))
      → IsValid o
      → AreFresh zero o ((k, v) ∷ es)
      → entries zero (set o k v) ≡ entries zero o ++ (k, v) ∷ []
  set-entries_fresh zero o k v es h fresh =
      entries-set zero o k v h
      ∙ ap (λ fs. fs ++ (k, v) ∷ [])
          (drop_key-absent k (entries zero o) (ground (arith, fresh k, e.same_iff k k)))

  entries-set_all :
      (zero : V) (o : OrderedMap K V) (es : List (K × V))
      → IsValid o
      → AreFresh zero o es
      → entries zero (set_all o es) ≡ entries zero o ++ es
  entries-set_all zero o [] h fresh = sym (append-nil (entries zero o))
  entries-set_all zero o ((k, v) ∷ es) h fresh =
      let added = set-entries_fresh zero o k v es h fresh in
      entries-set_all zero (set o k v) es (set-IsValid o k v h)
        (λ j. rw (added, map_keys-append, count-append) (omega (arith, fresh j)))
      ∙ ap (λ fs. fs ++ es) added
      ∙ append_assoc (entries zero o) ((k, v) ∷ []) es

  -- A map that is filled from empty by calls of Set has the entries in the order of the calls, if
  -- their keys differ.
  pub entries-set_all-empty :
      (zero : V) (es : List (K × V))
      → ((j : K) → count j (map_keys es) ≤ 1)
      → entries zero (set_all empty es) ≡ es
  unfolding entries
  entries-set_all-empty zero es h =
      entries-set_all zero empty es IsValid-empty (λ j. omega (arith, h j))
