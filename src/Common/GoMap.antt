-- ===== src/Common/GoMap.antt =====
-- Go's built-in map: a finite map from a comparable key type. Its iteration order is unspecified,
-- so a loop over a map takes the order as an argument, and nothing here depends on the list's order.
use mathlib.Core.Path.{◌≡◌}
use mathlib.Core.Bool.{Bool, true, false, ◌||◌}
use mathlib.Core.List.{List, [], ◌∷◌}
use mathlib.Core.Option.{Option, none, some}
use native.Mathlib.Omega.{arith}
use go_asyncapi.Common.Tests.{if◌then◌else◌}
use go_asyncapi.Common.Eq.{EqType, ◌==◌}

module _ {ℓ κ} {K : Type ℓ} {V : Type κ} ⦃e : EqType K⦄ where
  -- v, ok := m[k]
  unfoldable pub lookup : K → List (K × V) → Option V
  lookup k [] = none
  lookup k ((j, v) ∷ m) = if j == k then some v else lookup k m

  -- delete(m, k)
  unfoldable pub delete : K → List (K × V) → List (K × V)
  delete k [] = []
  delete k ((j, v) ∷ m) = let rest = delete k m in if j == k then rest else (j, v) ∷ rest

  -- m[k] = v
  unfoldable pub insert : K → V → List (K × V) → List (K × V)
  insert k v m = (k, v) ∷ delete k m

  -- _, ok := m[k]
  unfoldable pub has : K → List (K × V) → Bool
  has k m = elim (lookup k m) [ none ↦ false | some v ↦ true ]

  pub lookup-delete :
      (k j : K) (m : List (K × V)) → lookup j (delete k m) ≡ (if k == j then none else lookup j m)
  unfolding lookup delete
  lookup-delete k j [] = ground arith
  lookup-delete k j ((i, v) ∷ m) =
      ground (arith, lookup-delete k j m, e.same_iff i k, e.same_iff i j, e.same_iff k j)

  pub lookup-insert :
      (k j : K) (v : V) (m : List (K × V))
      → lookup j (insert k v m) ≡ (if k == j then some v else lookup j m)
  unfolding lookup insert
  lookup-insert k j v m = ground (arith, lookup-delete k j m)

  pub has-insert :
      (k j : K) (v : V) (m : List (K × V)) → has j (insert k v m) ≡ ((k == j) || has j m)
  unfolding has
  has-insert k j v m = ground (arith, lookup-insert k j v m)

pub ruleset map_laws = (lookup-delete, lookup-insert)
