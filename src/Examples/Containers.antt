-- ===== src/Examples/Containers.antt =====
-- The containers of internal/types at concrete values.
use go_asyncapi.Common.{
  ℕ, ◌≡◌, refl, nat_eq, true, Option, none, some, List, [], ◌∷◌, ◌++◌, eqb, if◌then◌else◌,
}
use go_asyncapi.Types.Stack.{SimpleStack}
use go_asyncapi.Types.OrderedMap.{OrderedMap, empty, has_key, set, delete_key, entries}
use go_asyncapi.Types.OrderedMap.Invariant.{IsValid, IsValid-empty, set-IsValid}
use go_asyncapi.Types.OrderedMap.Refinement.{drop_key, entries-set, entries-delete}
use go_asyncapi.Types.OrderedMap.Yaml.{finished, unmarshal_yaml, unmarshal_yaml-nodes}

abbrev two_items : SimpleStack ℕ
two_items = record { stack = 1 ∷ 2 ∷ [] }

-- a map with the keys 7 and 8
abbrev two_keys : OrderedMap ℕ ℕ
two_keys = set (set empty 7 70) 8 80

two_keys-IsValid : IsValid two_keys
two_keys-IsValid = set-IsValid (set empty 7 70) 8 80 (set-IsValid empty 7 70 IsValid-empty)

set-IsValid_example : IsValid (set two_keys 7 71)
set-IsValid_example = set-IsValid two_keys 7 71 two_keys-IsValid

entries-set_example :
    entries 0 (set two_keys 7 71) ≡ drop_key 7 (entries 0 two_keys) ++ (7, 71) ∷ []
entries-set_example = entries-set 0 two_keys 7 71 two_keys-IsValid

entries-delete_example :
    (entries 0 (delete_key two_keys 7).0 ≡ drop_key 7 (entries 0 two_keys))
    × ((delete_key two_keys 7).1 ≡ has_key two_keys 7)
entries-delete_example = entries-delete 0 two_keys 7 two_keys-IsValid

abbrev decode_small : ℕ → Option ℕ
decode_small n = if eqb n 100 then none else some n

-- a node holds the number itself
abbrev read_node : ℕ → Option ℕ
read_node n = some n

abbrev number_node : ℕ → ℕ
number_node n = n

abbrev mapping : List (ℕ × ℕ)
mapping = (9, 1) ∷ (4, 2) ∷ []

abbrev mapping_nodes : List ℕ
mapping_nodes = 9 ∷ 1 ∷ 4 ∷ 2 ∷ []

abbrev no_entries : OrderedMap ℕ ℕ
no_entries = empty

unmarshal_yaml-nodes_example :
    (entries 0 (unmarshal_yaml read_node read_node true mapping_nodes no_entries).0 ≡ mapping)
    × ((unmarshal_yaml read_node read_node true mapping_nodes no_entries).1 ≡ finished)
unmarshal_yaml-nodes_example =
    unmarshal_yaml-nodes read_node read_node number_node number_node (λ k. refl) (λ v. refl) 0
      mapping (refl, (refl, tt))
