-- ===== src/Render/Bound.antt =====
-- The objects that channels and messages of internal/render are bound to do not depend on the order
-- in which the linker fills the list promises.
use mathlib.Core.List.{Permᴰ}
use go_asyncapi.Common.{
  ℕ, ◌≡◌, ◌∙◌, refl, ap, sym, Bool, true, false, Option, none, some, List, [], ◌∷◌, Bytes, ◌>>=◌,
  Has, inl, inr,
}
use go_asyncapi.Render.{Channel, Message}
use go_asyncapi.Render.Linked.{
  Linked, name_of, filter_all, found, by_name, deref, is_server, on_channel, bound_servers,
  channel_bound_operations, is_empty,
}
use go_asyncapi.Render.Related.{
  channel_with, operation_with_message, message_bound_channels, message_bound_operations,
}
use go_asyncapi.Render.Sorting.{
  Sorted, SameTally, Distinct, Agree, with_first, sorted_unique, has_transfer, filter_all-Agree,
}

-- The documented behaviour of slices.SortFunc.
module _ (sort : (ℕ → Bytes) → List ℕ → List ℕ)
    (sort_same : (f : ℕ → Bytes) (xs : List ℕ) → SameTally (sort f xs) xs)
    (sort_sorted : (f : ℕ → Bytes) (xs : List ℕ) → Sorted f (sort f xs)) (objects : ℕ → Linked)
    (fuel : ℕ) where
  abbrev name : ℕ → Bytes
  name n = name_of (objects n)

  sort_order : (xs ys : List ℕ) → SameTally xs ys → Distinct name xs → sort name xs ≡ sort name ys
  sort_order xs ys same d =
      sorted_unique name (sort name xs) (sort name ys)
        (λ k. sort_same name xs k ∙ same k ∙ sym (sort_same name ys k)) (sort_sorted name xs)
        (sort_sorted name ys)
        (λ j k hj hk.
          d j k (has_transfer (sort name xs) xs (sort_same name xs) j hj)
            (has_transfer (sort name xs) xs (sort_same name xs) k hk))

  -- What is found are objects behind the artifacts of the list.
  abbrev Members : List ℕ → Option (List ℕ) → Type 0
  Members xs none = Unit
  Members xs (some zs) =
      (k : ℕ) → Has k zs → (a : ℕ) × Has a xs × (deref sort objects fuel a ≡ some k)

  tested-Members :
      (x : ℕ) (xs : List ℕ) (k : ℕ)
      → deref sort objects fuel x ≡ some k
      → (r : Option Bool) (o : Option (List ℕ)) → Members xs o
      → Members (x ∷ xs) (with_first (do b ← r; some (k, b)) o)
  tested-Members x xs k e none o h = tt
  tested-Members x xs k e (some b) none h = tt
  tested-Members x xs k e (some true) (some zs) h = λ j p. elim p [
    | inl g ↦ (x, inl refl, e ∙ ap some g)
    | inr q ↦ let (a, m, l) = h j q in (a, inr m, l)
  ]
  tested-Members x xs k e (some false) (some zs) h = λ j p. let (a, m, l) = h j p in (a, inr m, l)

  first-Members :
      (test : ℕ → Option Bool) (x : ℕ) (xs : List ℕ) (d : Option ℕ) (o : Option (List ℕ))
      → deref sort objects fuel x ≡ d
      → Members xs o
      → Members (x ∷ xs) (with_first (do k ← d; b ← test k; some (k, b)) o)
  first-Members test x xs none o e h = tt
  first-Members test x xs (some k) o e h = tested-Members x xs k e (test k) o h

  found-Members :
      (test : ℕ → Option Bool) (xs : List ℕ)
      → Members xs (filter_all (found sort objects fuel test) xs)
  found-Members test [] = λ k h. absurd h
  found-Members test (x ∷ xs) =
      first-Members test x xs (deref sort objects fuel x)
        (filter_all (found sort objects fuel test) xs) refl (found-Members test xs)

  -- The objects behind the artifacts have different names.
  abbrev pub NamesDiffer : List ℕ → Type 0
  NamesDiffer xs =
      (a b j k : ℕ)
      → Has a xs
      → Has b xs
      → deref sort objects fuel a ≡ some j
      → deref sort objects fuel b ≡ some k
      → name j ≡ name k
      → j ≡ k

  Members-Distinct : (xs zs : List ℕ) → NamesDiffer xs → Members xs (some zs) → Distinct name zs
  Members-Distinct xs zs differ members j k hj hk e =
      let (a, ha, da) = members j hj in
      let (b, hb, db) = members k hk in differ a b j k ha hb da db e

  abbrev sorted_by_name : Option (List ℕ) → Option (List ℕ)
  sorted_by_name o = do xs ← o; some (by_name sort objects fuel xs)

  same_result :
      (xs : List ℕ) (o p : Option (List ℕ))
      → NamesDiffer xs
      → Members xs o
      → Agree o p
      → sorted_by_name o ≡ sorted_by_name p
  same_result xs none none d m h = refl
  same_result xs none (some zs) d m h = absurd h
  same_result xs (some ys) none d m h = absurd h
  same_result xs (some ys) (some zs) d m h =
      ap some (sort_order ys zs h (Members-Distinct xs ys d m))

  found_order :
      (test : ℕ → Option Bool) (xs ys : List ℕ)
      → Permᴰ xs ys
      → NamesDiffer xs
      → sorted_by_name (filter_all (found sort objects fuel test) xs)
        ≡ sorted_by_name (filter_all (found sort objects fuel test) ys)
  found_order test xs ys perm d =
      same_result xs (filter_all (found sort objects fuel test) xs)
        (filter_all (found sort objects fuel test) ys) d (found-Members test xs)
        (filter_all-Agree (found sort objects fuel test) perm)

  -- If slices.SortFunc sorts, and the names of the objects behind the artifacts that the linker has
  -- collected differ, then the servers and operations that a channel is bound to and the channels
  -- and operations that a message is bound to are the same, in the same order, or the call panics
  -- alike, whatever order the linker has collected the artifacts in.
  pub bound_order_irrelevant :
      (n : ℕ) (c : Channel ℕ (List ℕ)) (m : Message ℕ (List ℕ)) (xs ys : List ℕ)
      → Permᴰ xs ys
      → NamesDiffer xs
      → (bound_servers sort objects fuel (record c { all_active_servers_promise = some xs })
          ≡ bound_servers sort objects fuel (record c { all_active_servers_promise = some ys }))
        × (channel_bound_operations sort objects fuel n
              (record c { all_active_operations_promise = some xs })
            ≡ channel_bound_operations sort objects fuel n
                (record c { all_active_operations_promise = some ys }))
        × (message_bound_channels sort objects fuel n
              (record m { all_active_channels_promise = some xs })
            ≡ message_bound_channels sort objects fuel n
                (record m { all_active_channels_promise = some ys }))
        × (message_bound_operations sort objects fuel n
              (record m { all_active_operations_promise = some xs })
            ≡ message_bound_operations sort objects fuel n
                (record m { all_active_operations_promise = some ys }))
  unfolding bound_servers channel_bound_operations message_bound_channels message_bound_operations
  bound_order_irrelevant n c m xs ys perm d = (
    ap
        (λ o. elim c.dummy [
          | true ↦ some []
          | false ↦ elim (is_empty c.servers_promises) [
            | true ↦ o
            | false ↦ some c.servers_promises
          ]
        ])
        (found_order (is_server sort objects fuel) xs ys perm d),
    ap (λ o. elim c.dummy [ true ↦ some [] | false ↦ o ])
        (found_order (on_channel sort objects fuel n) xs ys perm d),
    found_order (channel_with sort objects fuel n) xs ys perm d,
    found_order (operation_with_message sort objects fuel n) xs ys perm d,
  )
